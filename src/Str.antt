-- ===== src/Str.antt =====
-- api/str.hpp, class `Str`: its buffer, a `std::basic_string<jule::U8>`, is a list of bytes.
-- `jule::Int` arguments are integers; a position is a number. The `std::basic_string` members that
-- the class calls are `starts_with`, `find_from`, `rfind_bytes`, `substr` and the list operations.
pub mod Search
pub mod LastOccurrence
pub mod Slicing
pub mod Trim
pub mod Split
pub mod Replace
pub mod Runes
pub mod Bytes
pub mod Members
mod Tests
use julelang.Prelude.{
  ℕ, zero, suc, ◌+◌, ◌-◌, Bool, true, false, ◌&&◌, ◌||◌, Option, none, some, List, [], ◌∷◌, ◌++◌,
  ltb, leb, ◌==◌, if◌then◌else◌, length, take, drop, get_or, min,
}
use julelang.Prelude.Int.{ℤ, pos, negsuc, ltb_ℤ, leb_ℤ, pos_part}
use julelang.Panic.{Error, Result, ok, panic, index_out_of_range, slicing_out_of_range}
use julelang.Utf8.{utf8_rune_to_bytes, utf8_decode_rune_str}

abbrev pub Str : Type 0
Str = List ℕ

-- `std::basic_string::operator==`.
unfoldable pub bytes_eq : Str → Str → Bool
bytes_eq [] [] = true
bytes_eq [] (y ∷ ys) = false
bytes_eq (x ∷ xs) [] = false
bytes_eq (x ∷ xs) (y ∷ ys) = (x == y) && bytes_eq xs ys

-- Whether `sub` stands at the front of `s`.
pub starts_with : Str → Str → Bool
starts_with s [] = true
starts_with [] (y ∷ ys) = false
starts_with (x ∷ xs) (y ∷ ys) = (x == y) && starts_with xs ys

abbrev pub shift : Option ℕ → Option ℕ
shift none = none
shift (some k) = some (suc k)

-- `std::basic_string::find(sub)`; `none` is `npos`.
pub find_bytes : Str → Str → Option ℕ
find_bytes [] sub = if starts_with [] sub then some 0 else none
find_bytes (x ∷ xs) sub = if starts_with (x ∷ xs) sub then some 0 else shift (find_bytes xs sub)

-- `std::basic_string::find(sub, pos)`.
pub find_from : Str → Str → ℕ → Option ℕ
find_from s sub zero = find_bytes s sub
find_from [] sub (suc k) = none
find_from (x ∷ xs) sub (suc k) = shift (find_from xs sub k)

-- `std::basic_string::rfind(sub)`: the last position.
pub rfind_bytes : Str → Str → Option ℕ
rfind_bytes [] sub = if starts_with [] sub then some 0 else none
rfind_bytes (x ∷ xs) sub = elim (rfind_bytes xs sub) [
  | some k ↦ some (suc k)
  | none ↦ if starts_with (x ∷ xs) sub then some 0 else none
]

-- `static_cast<jule::Int>` of a position: `npos` becomes -1.
abbrev pub to_int : Option ℕ → ℤ
to_int none = negsuc 0
to_int (some k) = pos k

pub slice : Str → ℤ → ℤ → Result Str
slice s start end =
    if ltb_ℤ start (pos 0) || (ltb_ℤ end (pos 0) || (ltb_ℤ end start || ltb_ℤ (pos (length s)) end))
    then panic (slicing_out_of_range start end)
    else let from = pos_part start in
      let to = pos_part end in if from == to then ok [] else ok (take (to - from) (drop from s))

pub has_prefix : Str → Str → Bool
has_prefix s sub = elim (find_from s sub 0) [ some k ↦ k == 0 | none ↦ false ]

pub has_suffix : Str → Str → Bool
has_suffix s sub = leb (length sub) (length s) && bytes_eq (drop (length s - length sub) s) sub

pub find : Str → Str → ℤ
find s sub = to_int (find_bytes s sub)

pub rfind : Str → Str → ℤ
rfind s sub = to_int (rfind_bytes s sub)

-- The inner loops of `ltrim` and `rtrim`: whether a byte is one of `bytes`.
pub exists : ℕ → Str → Bool
exists b [] = false
exists b (c ∷ cs) = (b == c) || exists b cs

pub ltrim : Str → Str → Str
ltrim [] bytes = []
ltrim (b ∷ s) bytes = elim (exists b bytes) [ true ↦ ltrim s bytes | false ↦ b ∷ s ]

-- `k` is `it - begin + 1`.
pub rtrim_loop : Str → Str → ℕ → Str
rtrim_loop s bytes zero = []
rtrim_loop s bytes (suc k) = elim (exists (get_or s k 0) bytes) [
  | true ↦ rtrim_loop s bytes k
  | false ↦ take (suc k) s
]

pub rtrim : Str → Str → Str
rtrim s bytes = rtrim_loop s bytes (length s)

pub trim : Str → Str → Str
trim s bytes = rtrim (ltrim s bytes) bytes

-- `std::basic_string{buffer.c_str()}` stops at the first zero byte.
unfoldable pub until_nul : Str → Str
until_nul [] = []
until_nul (b ∷ s) = if b == 0 then [] else b ∷ until_nul s

-- `if (!s.empty()) parts.push(s)`.
pub push_rest : List Str → Str → List Str
push_rest parts [] = parts
push_rest parts (b ∷ s) = parts ++ ((b ∷ s) ∷ [])

-- What `split` does behind the loop for a positive `n`; `below` is `_n < n`.
pub finish : List Str → Str → Bool → List Str
finish [] s below = s ∷ []
finish (p ∷ ps) s true = (p ∷ ps) ++ (s ∷ [])
finish (p ∷ ps) s false = p ∷ ps

-- The loop of `split` for a negative `n`; `none` where the fuel runs out.
pub split_all : ℕ → Str → Str → List Str → Option (List Str)
split_all zero sub s parts = none
split_all (suc fuel) sub s parts = elim (find_bytes s sub) [
  | none ↦ some (push_rest parts s)
  | some k ↦ split_all fuel sub (drop (k + length sub) s) (parts ++ (take k s ∷ []))
]

-- The loop for a positive `n`, with what follows it. `count` is `_n`.
pub split_upto : ℕ → Str → Str → ℕ → ℕ → List Str → Option (List Str)
split_upto zero sub s n count parts = none
split_upto (suc fuel) sub s n count parts = elim (find_bytes s sub) [
  | none ↦ some (finish parts s (ltb count n))
  | some k ↦
      let rest =
        split_upto fuel sub (drop (k + length sub) s) n (suc count) (parts ++ (take k s ∷ [])) in
      if leb n (suc count) then some (parts ++ (s ∷ [])) else rest
]

pub split : ℕ → Str → Str → ℤ → Option (List Str)
split fuel s sub (pos zero) = some []
split fuel s sub (pos (suc n)) = split_upto fuel sub (until_nul s) (suc n) 0 []
split fuel s sub (negsuc n) = split_all fuel sub (until_nul s) []

-- `s.replace(at, n, with)`.
pub splice : Str → ℕ → ℕ → Str → Str
splice s at n new = take at s ++ (new ++ drop (at + n) s)

pub replace_all : ℕ → Str → Str → Str → ℕ → Option Str
replace_all zero sub new s start = none
replace_all (suc fuel) sub new s start = elim (find_from s sub start) [
  | none ↦ some s
  | some k ↦ replace_all fuel sub new (splice s k (length sub) new) (k + length new)
]

pub replace_upto : ℕ → Str → Str → Str → ℕ → ℕ → ℕ → Option Str
replace_upto zero sub new s start n count = none
replace_upto (suc fuel) sub new s start n count = elim (find_from s sub start) [
  | none ↦ some s
  | some k ↦
      let s' = splice s k (length sub) new in
      let rest = replace_upto fuel sub new s' (k + length new) n (suc count) in
      if leb n (suc count) then some s' else rest
]

pub replace : ℕ → Str → Str → Str → ℤ → Option Str
replace fuel s sub new (pos zero) = some s
replace fuel s sub new (pos (suc n)) = replace_upto fuel sub new s 0 (suc n) 0
replace fuel s sub new (negsuc n) = replace_all fuel sub new s 0

-- `Str(const jule::Slice<jule::I32>&)`.
pub from_runes : List ℤ → Str
from_runes [] = []
from_runes (r ∷ rs) = utf8_rune_to_bytes r ++ from_runes rs

-- `operator jule::Slice<jule::I32>`: the bytes from `index` on are `s`.
pub runes_loop : ℕ → Str → Option (List ℤ)
runes_loop fuel [] = some []
runes_loop zero (b ∷ s) = none
runes_loop (suc fuel) (b ∷ s) =
    let (rune, n) = utf8_decode_rune_str (b ∷ s) (pos (length (b ∷ s))) in
    elim (runes_loop fuel (drop n (b ∷ s))) [ none ↦ none | some rs ↦ some (rune ∷ rs) ]

pub to_runes : Str → Option (List ℤ)
to_runes s = runes_loop (length s) s

-- `operator[]` of a `Str` that is not const.
pub at : Str → ℤ → Result ℕ
at s index =
    if (length s == 0) || (ltb_ℤ index (pos 0) || leb_ℤ (pos (length s)) index)
    then panic (index_out_of_range index)
    else ok (get_or s (pos_part index) 0)

infixl 65 ◌+str◌
pub ◌+str◌ : Str → Str → Str
s +str t = s ++ t
