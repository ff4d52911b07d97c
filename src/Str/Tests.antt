-- ===== src/Str/Tests.antt =====
-- The theorems on api/str.hpp at concrete texts.
use julelang.Prelude.{
  ℕ, suc, ◌<◌, ◌≡◌, ◌⊎◌, refl, none, some, List, [], ◌∷◌, ◌++◌, map, arith, length,
}
use julelang.Prelude.Int.{pos, negsuc}
use julelang.Utf8.WellFormed.{one, two}
use julelang.Str.{Str, find, find_bytes, trim, push_rest, until_nul, split, replace, to_runes}
use julelang.Str.Search.{Found, find-Found}
use julelang.Str.Trim.{AllIn, HeadOut, LastOut, trim_lem}
use julelang.Str.Split.{Free, unsplit, split-unsplit, split_limit-unsplit, split-empty_sub}
use julelang.Str.Replace.{replace-unsplit}
use julelang.Str.Runes.{IsUtf8, nil, cons, to_runes-IsUtf8}

abbrev text : Str
text = 1 ∷ 2 ∷ 3 ∷ 1 ∷ 2 ∷ []

abbrev word : Str
word = 1 ∷ 2 ∷ []

abbrev other : Str
other = 9 ∷ []

abbrev scalars : List ℕ
scalars = 65 ∷ 233 ∷ []

abbrev encoded : Str
encoded = 65 ∷ 0xC3 ∷ 0xA9 ∷ []

encoded-IsUtf8 : IsUtf8 scalars encoded
encoded-IsUtf8 =
    cons (one (omega arith) refl) refl
      (cons (two (omega arith) (omega arith) (omega arith, omega arith) (omega arith)) refl nil)

find-Found_example : Found text word (find text word)
find-Found_example = find-Found text word

trim_lem_example :
    (front : Str) × (end : Str) × (text ≡ front ++ (trim text word ++ end))
    × AllIn word front
    × AllIn word end
    × HeadOut word (trim text word)
    × LastOut word (trim text word)
trim_lem_example = trim_lem text word

split-unsplit_example :
    (ps : List Str) × (last : Str) × (split 9 text word (negsuc 0) ≡ some (ps ++ push_rest [] last))
    × (until_nul text ≡ unsplit word ps last)
    × (find_bytes last word ≡ none)
    × Free word ps
split-unsplit_example = split-unsplit 9 text word 0 (omega arith) (omega arith)

split_limit-unsplit_example :
    (ps : List Str) × (last : Str) × (split 9 text word (pos (suc 1)) ≡ some (ps ++ (last ∷ [])))
    × (until_nul text ≡ unsplit word ps last)
    × ((length ps ≡ 1) ⊎ ((length ps < 1) × (find_bytes last word ≡ none)))
    × Free word ps
split_limit-unsplit_example = split_limit-unsplit 9 text word 1 (omega arith) (omega arith)

split-empty_sub_example : split 9 text [] (negsuc 0) ≡ none
split-empty_sub_example = split-empty_sub 9 text 0

replace-unsplit_example :
    (ps : List Str) × (last : Str) × (replace 9 text word other (negsuc 0)
      ≡ some (unsplit other ps last))
    × (text ≡ unsplit word ps last)
    × (find_bytes last word ≡ none)
    × Free word ps
replace-unsplit_example = replace-unsplit 9 text word other 0 (omega arith) (omega arith)

to_runes-IsUtf8_example : to_runes encoded ≡ some (map pos scalars)
to_runes-IsUtf8_example = to_runes-IsUtf8 encoded-IsUtf8
