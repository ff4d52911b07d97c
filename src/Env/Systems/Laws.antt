-- ===== src/Env/Systems/Laws.antt =====
-- What `args` of api/env.hpp returns on Windows, and `executable` on Windows.
use julelang.Prelude.{
  ℕ, suc, ◌≡◌, refl, sym, true, false, ◌==◌, List, [], ◌∷◌, ◌++◌, map, length, length-map,
  take_front, arith,
}
use julelang.Prelude.Int.{ℤ}
use julelang.Panic
use julelang.Heap.{Heap, ok}
use julelang.Slice.{Slice}
use julelang.Slice.Items.{Holds}
use julelang.Slice.Grow.{fresh, alloc_new-fresh}
use julelang.Slice.Fill.{stored_fresh}
use julelang.Str.{Str, until_nul, from_runes}
use julelang.Utf16.{u16}
use julelang.Utf16.Decode.{decoded, utf16_to_utf8_str-decoded}
use julelang.Env.Systems.{wide_args, args_windows, executable_windows}

-- Wide characters in UTF-8.
abbrev pub in_utf8 : List ℕ → Str
in_utf8 cs = from_runes (decoded (map (λ w. u16 w) cs))

abbrev pub wide_texts : List (List ℕ) → List Str
wide_texts argvw = map (λ warg. in_utf8 (until_nul warg)) argvw

wide_args_lem :
    (fill : ℤ) (argvw : List (List ℕ)) → wide_args fill argvw ≡ Panic.ok (wide_texts argvw)
unfolding wide_args
wide_args_lem fill [] = refl
wide_args_lem fill (warg ∷ argvw) =
    ground (arith, utf16_to_utf8_str-decoded fill (until_nul warg), wide_args_lem fill argvw)

-- Where memory is granted, the slice of the arguments has all of them in order, in UTF-8.
pub args_windows-Holds :
    (fill : ℤ) (h : Heap Str) (argvw : List (List ℕ))
    → h.grants h.next ≡ true
    → h.grants (suc h.next) ≡ true
    → (s : Slice) × (h' : Heap Str) × (args_windows fill argvw h ≡ ok s h')
      × Holds h' s (wide_texts argvw)
unfolding args_windows
args_windows-Holds fill h argvw g1 g2 =
    let texts = wide_texts argvw in
    let (h', run, holds, kept) = stored_fresh [] h texts in
    let same : length texts ≡ length argvw = length-map argvw (λ warg. in_utf8 (until_nul warg)) in
    (
      fresh h (length texts) (length texts),
      h',
      rw (wide_args_lem fill argvw, sym same, alloc_new-fresh [] h 0 (length texts) g1 g2) run,
      holds,
    )

-- The path is what was written of the buffer, in UTF-8, and nothing of what was behind it.
pub executable_windows-path :
    (fill : ℤ) (c : ℕ) (path rest : List ℕ)
    → executable_windows fill (length (c ∷ path)) ((c ∷ path) ++ rest)
      ≡ Panic.ok (in_utf8 (c ∷ path))
unfolding executable_windows
executable_windows-path fill c path rest =
    let some_n : (length (c ∷ path) == 0) ≡ false = ground arith in
    rw (some_n, take_front (c ∷ path) rest) (utf16_to_utf8_str-decoded fill (c ∷ path))
