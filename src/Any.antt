-- ===== src/Any.antt =====
-- api/any.hpp: `jule::Any`, a value on the heap and the table of its type. A heap block holds one
-- dynamic value; the section's parameters are the values, their `typeid` names, as numbers, and
-- the `==` of two values of one type, which the table reaches. `nullptr_t` is no type of a value.
pub mod Holding
pub mod Casts
pub mod Table
pub mod Statements
pub mod Ownership
pub mod Program
mod Tests
use julelang.Prelude.{
  ℕ, zero, suc, Bool, true, false, not, ◌&&◌, Option, none, some, List, [], ◌∷◌, ◌==◌,
  if◌then◌else◌,
}
use julelang.Panic.{Error, invalid_memory, incompatible_type, allocation_failed}
use julelang.Heap.{
  Heap, Run, Cmd, pure, throw, fault, ◌>>=◌, ◌>>◌, new_block, delete_block, load_block,
}

pub record Any : Type 0 where
  pub data' : ℕ
  -- The name that the table's `type_id` returns; `none` is `nullptr`.
  pub type' : Option ℕ

abbrev pub nil_any : Any
nil_any = record { data' = 0; type' = none }

-- `operator==(nullptr)`.
unfoldable pub any_is_nil : Any → Bool
any_is_nil a = a.data' == 0

abbrev pub named : Option ℕ → ℕ → Bool
named none name = false
named (some n) name = n == name

abbrev pub same_name : Option ℕ → Option ℕ → Bool
same_name t none = false
same_name t (some name) = named t name

-- `type_is<T>()`, where `name` is T's.
pub type_is : ℕ → Any → Bool
type_is name a = if any_is_nil a then false else named a.type' name

module _ {V : Type 0} (type_name : V → ℕ) (eq : V → V → Bool) where
  -- `*static_cast<T*>(alloc)`.
  pub value : ℕ → Cmd V V
  value p = do items ← load_block p; elim items [ [] ↦ (λ h. fault) | v ∷ vs ↦ pure v ]

  pub any_dealloc : Any → Cmd V Any
  any_dealloc a = if any_is_nil a then pure nil_any else (do delete_block a.data'; pure nil_any)

  -- `operator=(const T&)`.
  pub assign_expr : Any → V → Cmd V Any
  assign_expr a v = do
    any_dealloc a
    p ← new_block (v ∷ [])
    if p == 0
        then throw allocation_failed
        else pure (record { data' = p; type' = some (type_name v) })

  -- `alloc_new_copy`.
  pub alloc_new_copy : ℕ → Cmd V ℕ
  alloc_new_copy data' = do v ← value data'; new_block (v ∷ [])

  -- `operator=(const Any&)`.
  pub assign_any : Any → Any → Cmd V Any
  assign_any this src =
      if not (any_is_nil this) && (this.data' == src.data')
      then pure this
      else if any_is_nil src
      then any_dealloc this
      else (do
        any_dealloc this
        p ← alloc_new_copy src.data'
        if p == 0 then throw allocation_failed else pure (record { data' = p; type' = src.type' }))

  -- `operator T`, where `name` is T's.
  pub cast : ℕ → Any → Cmd V V
  cast name a =
      if any_is_nil a
      then throw invalid_memory
      else if not (type_is name a)
      then throw incompatible_type
      else value a.data'

  -- `operator==(const T&)`.
  pub eq_expr : Any → V → Cmd V Bool
  eq_expr a v =
      if type_is (type_name v) a then (do w ← cast (type_name v) a; pure (eq w v)) else pure false

  -- `operator==(const Any&)`.
  pub eq_any : Any → Any → Cmd V Bool
  eq_any this other =
      if not (any_is_nil this) && (this.data' == other.data')
      then pure true
      else if any_is_nil this
      then pure (any_is_nil other)
      else if any_is_nil other
      then pure false
      else if not (same_name this.type' other.type')
      then pure false
      else (do v ← value this.data'; w ← value other.data'; pure (eq v w))
