-- ===== src/Print.antt =====
-- The `operator<<` of api/slice.hpp, api/array.hpp, api/map.hpp, api/ref.hpp and api/any.hpp, on
-- bytes: what an item prints is a parameter.
pub mod Joined
use julelang.Prelude.{
  ℕ, ◌+◌, ◌-◌, Bool, true, false, not, List, [], ◌∷◌, ◌++◌, ltb, if◌then◌else◌, length,
}
use julelang.Heap.{Cmd, pure, fault, ◌>>=◌, load_block}
use julelang.Any.{Any, any_is_nil}
use julelang.Str.{Str}
use julelang.Slice.{Slice, is_empty, read_range}
use julelang.Ref.{Ref, real, get}
use julelang.Map.Table.{StdMap}
use julelang.Map.{len}

module _ {A : Type 0} where
  -- The loop over the items from `index` on, which are the list.
  pub print_items : (A → Str) → ℕ → ℕ → List A → Str
  print_items show index len [] = []
  print_items show index len (x ∷ xs) =
      show x
      ++ ((if ltb (index + 1) len then 32 ∷ [] else []) ++ print_items show (index + 1) len xs)

  pub print_slice : (A → Str) → Slice → Cmd A Str
  print_slice show src = if is_empty src then pure (91 ∷ 93 ∷ []) else (do
    items ← read_range src.base src.off src.len
    pure (91 ∷ (print_items show 0 src.len items ++ (93 ∷ []))))

  pub print_array : (A → Str) → List A → Str
  print_array show a = 91 ∷ (print_items show 0 (length a) a ++ (93 ∷ []))

  pub print_ref : (A → Str) → Ref → Cmd A Str
  print_ref show r =
      if not (real r) then pure (110 ∷ 105 ∷ 108 ∷ []) else (do x ← get r; pure (show x))

  -- `operator<<` of an `Any`, whose table's `to_str` is `show`.
  pub print_any : (A → Str) → Any → Cmd A Str
  print_any show a = if any_is_nil a then pure (48 ∷ []) else (do
    items ← load_block a.data'
    elim items [ [] ↦ (λ h. fault) | v ∷ vs ↦ pure (show v) ])

module _ {K V : Type 0} (table : StdMap K V) where
  -- The loop over the pairs that are left, of which there are `count` when it begins.
  pub print_pairs : (K → Str) → (V → Str) → ℕ → List (K × V) → Str
  print_pairs key value count [] = []
  print_pairs key value count (p ∷ ps) =
      key p.0
      ++ (58
          ∷ (value p.1
              ++ ((if ltb 0 (count - 1) then 44 ∷ 32 ∷ [] else [])
                  ++ print_pairs key value (count - 1) ps)))

  pub print_map : (K → Str) → (V → Str) → table.Rep → Str
  print_map key value m = 123 ∷ (print_pairs key value (len table m) (table.pairs m) ++ (125 ∷ []))
