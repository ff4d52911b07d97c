-- ===== src/Print/Joined.antt =====
-- What the slices, arrays and maps of api/ print.
use julelang.Prelude.{
  ℕ, ◌+◌, ◌-◌, ◌≡◌, refl, ap, ◌∙◌, sym, true, false, arith, List, [], ◌∷◌, ◌++◌, append_assoc,
  append-nil, ltb, length, map,
}
use julelang.Heap.{Heap, ok}
use julelang.Str.{Str}
use julelang.Slice.{Slice, is_empty, is_nil}
use julelang.Slice.Items.{Holds}
use julelang.Slice.Memory.{read_range-At}
use julelang.Map.Table.{StdMap}
use julelang.Map.{len}
use julelang.Print.{print_items, print_slice, print_array, print_pairs, print_map}

-- The texts with a separator between each two.
pub joined : Str → List Str → Str
joined sep [] = []
joined sep (t ∷ []) = t
joined sep (t ∷ (u ∷ us)) = t ++ (sep ++ joined sep (u ∷ us))

-- A text in brackets.
abbrev pub bracketed : ℕ → ℕ → Str → Str
bracketed left right t = left ∷ (t ++ (right ∷ []))

module _ {A : Type 0} (show : A → Str) where
  print_items-joined :
      (index len : ℕ) (xs : List A)
      → index + length xs ≡ len
      → print_items show index len xs ≡ joined (32 ∷ []) (map show xs)
  unfolding print_items joined
  print_items-joined index len [] e = refl
  print_items-joined index len (x ∷ []) e =
      let last : ltb (index + 1) len ≡ false = ground arith in rw last (append-nil (show x))
  print_items-joined index len (x ∷ (y ∷ ys)) e =
      let more : ltb (index + 1) len ≡ true = ground arith in
      rw more (
        ap (λ (t : Str). show x ++ (32 ∷ t))
          (print_items-joined (index + 1) len (y ∷ ys) (omega (arith, e))))

  print_slice_items :
      (h : Heap A) (s : Slice) (xs : List A)
      → Holds h s xs
      → print_slice show s h ≡ ok (bracketed 91 93 (joined (32 ∷ []) (map show xs))) h
  unfolding print_slice is_empty is_nil joined
  print_slice_items h s [] holds =
      let none_left : is_empty s ≡ true = ground (arith, holds.len) in rw none_left refl
  print_slice_items h s (x ∷ xs) holds =
      let some_items : is_empty s ≡ false = ground (arith, holds.len, holds.real, holds.within) in
      let read = read_range-At h s.base s.off (x ∷ xs) holds.here in
      rw (some_items, sym holds.len, read)
        (ap (λ t. ok (bracketed 91 93 t) h)
          (print_items-joined 0 (length (x ∷ xs)) (x ∷ xs) (omega arith)))

  -- A slice that is not nil prints what its items print, with a space between each two, in brackets;
  -- an array with the same items prints the same. Nothing in memory changes.
  pub print_slice-joined :
      (h : Heap A) (s : Slice) (xs : List A)
      → Holds h s xs
      → (print_slice show s h ≡ ok (bracketed 91 93 (joined (32 ∷ []) (map show xs))) h)
        × (print_array show xs ≡ bracketed 91 93 (joined (32 ∷ []) (map show xs)))
  unfolding print_array
  print_slice-joined h s xs holds = (
    print_slice_items h s xs holds,
    ap (λ t. bracketed 91 93 t) (print_items-joined 0 (length xs) xs (omega arith)),
  )

module _ {K V : Type 0} (table : StdMap K V) (key : K → Str) (value : V → Str) where
  -- What a pair prints.
  abbrev pub entry : K × V → Str
  entry p = key p.0 ++ (58 ∷ value p.1)

  print_pairs-joined :
      (ps : List (K × V))
      → print_pairs table key value (length ps) ps ≡ joined (44 ∷ 32 ∷ []) (map entry ps)
  unfolding print_pairs joined
  print_pairs-joined [] = refl
  print_pairs-joined (p ∷ []) = ap (λ (t : Str). key p.0 ++ (58 ∷ t)) (append-nil (value p.1))
  print_pairs-joined (p ∷ (q ∷ ps)) =
      let fewer : length (p ∷ (q ∷ ps)) - 1 ≡ length (q ∷ ps) = omega arith in
      let more : ltb 0 (length (q ∷ ps)) ≡ true = ground arith in
      rw (fewer, more)
        (ap (λ (t : Str). key p.0 ++ (58 ∷ (value p.1 ++ (44 ∷ (32 ∷ t)))))
            (print_pairs-joined (q ∷ ps))
          ∙ sym (
              append_assoc (key p.0) (58 ∷ value p.1)
                ((44 ∷ 32 ∷ []) ++ joined (44 ∷ 32 ∷ []) (map entry (q ∷ ps)))))

  -- A map prints its pairs in the order of an iteration, each as key, colon and value, with a comma
  -- and a space between each two, in braces.
  pub print_map-joined :
      (m : table.Rep)
      → print_map table key value m
        ≡ bracketed 123 125 (joined (44 ∷ 32 ∷ []) (map entry (table.pairs m)))
  unfolding print_map len
  print_map-joined m =
      ap (λ t. bracketed 123 125 t)
        (ap (λ (n : ℕ). print_pairs table key value n (table.pairs m)) (table.size-pairs m)
          ∙ print_pairs-joined (table.pairs m))
