-- ===== src/Integrated.antt =====
-- std/jule/integrated/integrated.hpp: C++ memory as Julê code reaches it, by addresses. `new` here is
-- the throwing one: `none` is its `std::bad_alloc`. Blocks of `new T` and of `new T[n]` are not told
-- apart.
pub mod Lifetime
use julelang.Prelude.{ℕ, Option, none, some, List, [], ◌∷◌, ◌==◌, if◌then◌else◌, replicate}
use julelang.Prelude.Int.{ℤ, pos, negsuc}
use julelang.Heap.{Cmd, pure, fault, ◌>>=◌, new_block, delete_block, load_block, store_block}
use julelang.Any.{Any}
use julelang.Str.{Str}
use julelang.Str.Members.{from_c_str}

module _ {A : Type 0} where
  abbrev or_thrown : ℕ → Cmd A (Option ℕ)
  or_thrown p = if p == 0 then pure none else pure (some p)

  -- `__jule_new<T>()`, where `fill` is what the new T is.
  unfoldable pub new_value : A → Cmd A (Option ℕ)
  new_value fill = new_block (fill ∷ []) >>= or_thrown

  -- `__jule_new_array<T>(size)`: a negative size throws `std::bad_array_new_length`.
  unfoldable pub new_array : A → ℤ → Cmd A (Option ℕ)
  new_array fill (pos size) = new_block (replicate size fill) >>= or_thrown
  new_array fill (negsuc n) = pure none

  -- `__jule_delete<T>` and `__jule_delete_array<T>`.
  unfoldable pub delete_value : ℕ → Cmd A (Unit {0})
  delete_value heap = delete_block heap

  unfoldable pub delete_array : ℕ → Cmd A (Unit {0})
  delete_array heap = delete_block heap

  -- `__jule_deref_ptr<T>`.
  unfoldable pub deref_ptr : ℕ → Cmd A A
  deref_ptr heap = do items ← load_block heap; elim items [ [] ↦ (λ h. fault) | x ∷ xs ↦ pure x ]

  -- `__jule_assign_ptr<T>`.
  unfoldable pub assign_ptr : ℕ → A → Cmd A (Unit {0})
  assign_ptr heap val = do
    items ← load_block heap
    elim items [ [] ↦ (λ h. fault) | x ∷ xs ↦ store_block heap (val ∷ xs) ]

-- `__jule_str_from_byte_ptr`.
unfoldable pub str_from_byte_ptr : Str → Option Str
str_from_byte_ptr ptr = from_c_str ptr

-- `__jule_type_id_of_any`: `name` is the memory of a type's name; `none` reads through a null `type`.
unfoldable pub type_id_of_any : (ℕ → Str) → Any → Option Str
type_id_of_any name any = elim any.type' [ none ↦ none | some type' ↦ from_c_str (name type') ]
