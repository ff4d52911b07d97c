-- ===== src/Slice/Items.antt =====
-- The items of an api/slice.hpp slice, and what its members do to them.
use julelang.Prelude.{
  ℕ, ◌+◌, ◌≤◌, ◌<◌, ◌≡◌, ◌≢◌, refl, ap, ap₂, ◌∙◌, sym, false, some, List, [], ◌∷◌, ◌++◌, arith,
  length, length-append, inl, inr, ◌⊎◌, ◌==◌, append_assoc,
}
use julelang.Prelude.Int.{pos}
use julelang.Heap.{Heap, ok}
use julelang.Slice.{Slice, write_range, check, check_index, at, set_at, push, is_nil, is_empty}
use julelang.Slice.Memory.{At, with_block, with_block-at, read_range-At, write_range-At}

-- The slice is not nil, and its items in memory are `xs`, with room for `cap` items.
pub record Holds {A : Type 0} (h : Heap A) (s : Slice) (xs : List A) : Type 0 where
  pub here : At h s.base s.off xs
  pub len : length xs ≡ s.len
  pub within : s.len ≤ s.cap
  pub room : s.cap ≤ s.len + length here.rest
  pub real : 0 < s.base

module _ {A : Type 0} where
  unfoldable pub At-inner :
      (h : Heap A) (base off : ℕ) (l m r : List A)
      → (a : At h base off (l ++ (m ++ r))) → At h base (off + length l) m
  At-inner h base off l m r a = record {
    front = a.front ++ l;
    rest = r ++ a.rest;
    holds =
        a.holds
        ∙ ap (λ (t : List A). some t)
            (ap (λ (t : List A). a.front ++ t)
                (append_assoc l (m ++ r) a.rest
                  ∙ ap (λ (t : List A). l ++ t) (append_assoc m r a.rest))
              ∙ sym (append_assoc a.front l (m ++ (r ++ a.rest))));
    starts = omega (arith, length-append a.front l, a.starts);
  }

  -- Memory and items after the middle part is overwritten by as many items.
  unfoldable pub At-write :
      (h : Heap A) (base off : ℕ) (l m m' r : List A)
      → (a : At h base off (l ++ (m ++ r)))
      → At (with_block h base ((a.front ++ l) ++ (m' ++ (r ++ a.rest)))) base off (l ++ (m' ++ r))
  At-write h base off l m m' r a = record {
    front = a.front;
    rest = a.rest;
    holds = with_block-at h base ((a.front ++ l) ++ (m' ++ (r ++ a.rest))) ∙ moved;
    starts = a.starts;
  }
    where
      moved :
          some ((a.front ++ l) ++ (m' ++ (r ++ a.rest)))
          ≡ some (a.front ++ ((l ++ (m' ++ r)) ++ a.rest))
      moved =
          ap (λ (t : List A). some t)
            (append_assoc a.front l (m' ++ (r ++ a.rest))
              ∙ ap (λ (t : List A). a.front ++ t)
                  (sym (
                    append_assoc l (m' ++ r) a.rest
                    ∙ ap (λ (t : List A). l ++ t) (append_assoc m' r a.rest))))

  -- What a write leaves as it was.
  pub record Untouched (h h' : Heap A) (base : ℕ) : Type 0 where
    pub count : h'.count ≡ h.count
    pub others : (q : ℕ) → q ≢ base → h'.block q ≡ h.block q

  -- A write of any length over as many items.
  pub write-At :
      (h : Heap A) (base off : ℕ) (l m m' r : List A)
      → At h base off (l ++ (m ++ r))
      → length m ≡ length m'
      → (h' : Heap A) × (write_range base (off + length l) m' h ≡ ok tt h')
        × At h' base off (l ++ (m' ++ r))
        × Untouched h h' base
  unfolding write_range At-inner At-write
  write-At h base off l [] [] r a e = (h, refl, a, record { count = refl; others = λ q _. refl })
  write-At h base off l [] (y ∷ ys) r a e = absurd (omega (arith, e))
  write-At h base off l (x ∷ m) [] r a e = absurd (omega (arith, e))
  write-At h base off l (x ∷ m) (y ∷ ys) r a e =
      let inner = At-inner h base off l (x ∷ m) r a in
      (
        with_block h base (inner.front ++ ((y ∷ ys) ++ inner.rest)),
        write_range-At h base (off + length l) (x ∷ m) y ys inner e,
        At-write h base off l (x ∷ m) (y ∷ ys) r a,
        record { count = refl; others = λ q other. ground arith },
      )

  -- The range check lets every index below the length pass.
  in_range :
      (h : Heap A) (s : Slice) (l : List A) (x : A) (r : List A)
      → Holds h s (l ++ (x ∷ r))
      → check_index s (pos (length l)) h ≡ ok tt h
  unfolding check_index check is_nil is_empty
  in_range h s l x r holds =
      ground (arith, holds.len, holds.within, holds.real, length-append l (x ∷ r))

  -- Reading the item behind the first `length l` ones gives it and changes nothing.
  pub at-Holds :
      (h : Heap A) (s : Slice) (l : List A) (x : A) (r : List A)
      → Holds h s (l ++ (x ∷ r))
      → at s (pos (length l)) h ≡ ok x h
  unfolding at
  at-Holds h s l x r holds =
      let inner = At-inner h s.base s.off l (x ∷ []) r holds.here in
      rw (in_range h s l x r holds, read_range-At h s.base (s.off + length l) (x ∷ []) inner) refl

  pub same_length :
      (l : List A) (x v : A) (r : List A) → length (l ++ (v ∷ r)) ≡ length (l ++ (x ∷ r))
  same_length l x v r = omega (arith, length-append l (v ∷ r), length-append l (x ∷ r))

  -- Writing through an index changes that item and no other.
  pub set_at-Holds :
      (h : Heap A) (s : Slice) (l : List A) (x v : A) (r : List A)
      → Holds h s (l ++ (x ∷ r))
      → (h' : Heap A) × (set_at s (pos (length l)) v h ≡ ok tt h') × Holds h' s (l ++ (v ∷ r))
  unfolding set_at At-inner At-write
  set_at-Holds h s l x v r holds =
      let inner = At-inner h s.base s.off l (x ∷ []) r holds.here in
      (
        with_block h s.base (inner.front ++ ((v ∷ []) ++ inner.rest)),
        rw
            (
              in_range h s l x r holds,
              write_range-At h s.base (s.off + length l) (x ∷ []) v [] inner refl,
            )
            refl,
        record {
          here = At-write h s.base s.off l (x ∷ []) (v ∷ []) r holds.here;
          len = same_length l x v r ∙ holds.len;
          within = holds.within;
          room = holds.room;
          real = holds.real;
        },
      )

  -- Storage behind the items, one item of it.
  At-behind :
      (h : Heap A) (base off : ℕ) (xs : List A) (old : A) (rest : List A)
      → (a : At h base off xs) → a.rest ≡ old ∷ rest
      → At h base (off + length xs) (old ∷ [])
  At-behind h base off xs old rest a e = record {
    front = a.front ++ xs;
    rest = rest;
    holds =
        a.holds
        ∙ ap (λ (t : List A). some t)
            (ap (λ (t : List A). a.front ++ (xs ++ t)) e
              ∙ sym (append_assoc a.front xs (old ∷ rest)));
    starts = omega (arith, length-append a.front xs, a.starts);
  }

  At-longer :
      (h : Heap A) (base off : ℕ) (xs : List A) (old : A) (rest : List A) (v : A)
      → (a : At h base off xs) → a.rest ≡ old ∷ rest
      → (inner : At h base (off + length xs) (old ∷ [])) → inner.front ≡ a.front ++ xs
      → inner.rest ≡ rest
      → At (with_block h base (inner.front ++ ((v ∷ []) ++ inner.rest))) base off (xs ++ (v ∷ []))
  At-longer h base off xs old rest v a e inner ef er = record {
    front = a.front;
    rest = rest;
    holds = ground (arith, moved);
    starts = a.starts;
  }
    where
      moved :
          some (inner.front ++ ((v ∷ []) ++ inner.rest))
          ≡ some (a.front ++ ((xs ++ (v ∷ [])) ++ rest))
      moved =
          ap (λ (t : List A). some t)
            (ap₂ (λ (t u : List A). t ++ (v ∷ u)) ef er
              ∙ append_assoc a.front xs (v ∷ rest)
              ∙ ap (λ (t : List A). a.front ++ t) (sym (append_assoc xs (v ∷ []) rest)))

  list_cases : (l : List A) → (l ≡ []) ⊎ ((x : A) × (xs : List A) × (l ≡ x ∷ xs))
  list_cases [] = inl refl
  list_cases (x ∷ xs) = inr (x, xs, refl)

  -- With capacity to spare, `push` on a slice that is not nil adds the item behind the others, in the
  -- same block.
  pub push-Holds :
      (fill : A) (h : Heap A) (s : Slice) (xs : List A) (v : A)
      → Holds h s xs
      → s.len < s.cap
      → (h' : Heap A) × (push fill s v h ≡ ok (record s { len = s.len + 1 }) h')
        × Holds h' (record s { len = s.len + 1 }) (xs ++ (v ∷ []))
  unfolding push At-behind At-longer
  push-Holds fill h s xs v holds spare = elim (list_cases holds.here.rest) [
    | inl none_left ↦ absurd (omega (arith, ap (λ (l : List A). length l) none_left, holds.room))
    | inr (old, rest, e) ↦
        let inner = At-behind h s.base s.off xs old rest holds.here e in
        let h' = with_block h s.base (inner.front ++ ((v ∷ []) ++ inner.rest)) in
        let written : write_range s.base (s.off + s.len) (v ∷ []) h ≡ ok tt h' =
          ap (λ (k : ℕ). write_range s.base (s.off + k) (v ∷ []) h) (sym holds.len)
          ∙ write_range-At h s.base (s.off + length xs) (old ∷ []) v [] inner refl in
        let full : (s.len == s.cap) ≡ false = ground arith in
        (
          h',
          rw (full, written) refl,
          record {
            here = At-longer h s.base s.off xs old rest v holds.here e inner refl refl;
            len = omega (arith, length-append xs (v ∷ []), holds.len);
            within = omega arith;
            room = omega (arith, ap (λ (l : List A). length l) e, holds.room);
            real = holds.real;
          },
        )
  ]
