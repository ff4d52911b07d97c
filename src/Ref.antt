-- ===== src/Ref.antt =====
-- api/ref.hpp: `jule::Ref<T>`, a counted reference, with reference counting and safety checks on.
-- A member function that changes `*this` returns the new reference.
pub mod Uses
pub mod Ownership
pub mod Preserve
pub mod Assign
pub mod Create
pub mod Program
pub mod Members
mod Tests
use julelang.Prelude.{
  ℕ, zero, suc, ◌+◌, ◌-◌, ◌^◌, Bool, true, false, not, ◌&&◌, Option, none, some, List, [], ◌∷◌,
  ◌==◌, if◌then◌else◌,
}
use julelang.Panic.{Error, invalid_memory, allocation_failed}
use julelang.Heap.{
  Heap, Run, Cmd, ok, panic, fault, pure, throw, ◌>>=◌, ◌>>◌, new_count, new_block, load_count,
  fetch_add, delete_count, delete_block, load_block, store_block,
}

pub record Ref : Type 0 where
  pub alloc : ℕ
  pub ref : ℕ

-- `Ref<T>()`.
abbrev pub nil : Ref
nil = record { alloc = 0; ref = 0 }

-- `jule::REFERENCE_DELTA`.
abbrev pub delta : ℕ
delta = 1

-- `-jule::REFERENCE_DELTA` as an unsigned word.
abbrev pub minus_delta : ℕ
minus_delta = 2 ^ 64 - 1

-- `make(ptr, ref)`.
unfoldable pub make_from : ℕ → ℕ → Ref
make_from ptr ref = record { alloc = ptr; ref = ref }

unfoldable pub real : Ref → Bool
real r = not (r.alloc == 0)

module _ {A : Type 0} where
  -- `make(ptr)`.
  unfoldable pub make_ptr : ℕ → Cmd A Ref
  make_ptr ptr = do
    ref ← new_count delta
    if ref == 0 then throw allocation_failed else pure (record { alloc = ptr; ref = ref })

  -- `make(instance, ref)`.
  unfoldable pub make_counted : A → ℕ → Cmd A Ref
  make_counted instance' ref = do
    ptr ← new_block (instance' ∷ [])
    if ptr == 0 then throw allocation_failed else pure (record { alloc = ptr; ref = ref })

  -- `make(instance)`, which is also `new_ref(init)`.
  unfoldable pub make : A → Cmd A Ref
  make instance' = do
    ref ← new_count delta
    if ref == 0 then throw allocation_failed else make_counted instance' ref

  unfoldable pub drop_ref : Ref → Cmd A ℕ
  drop_ref r = fetch_add r.ref minus_delta

  unfoldable pub add_ref : Ref → Cmd A ℕ
  add_ref r = fetch_add r.ref delta

  unfoldable pub get_ref_n : Ref → Cmd A ℕ
  get_ref_n r = load_count r.ref

  unfoldable pub drop : Ref → Cmd A Ref
  drop r = if r.ref == 0 then pure (record r { alloc = 0 }) else do
    old ← drop_ref r
    if not (old == delta) then pure nil else (do delete_count r.ref; delete_block r.alloc; pure nil)

  unfoldable pub must_ok : Ref → Cmd A (Unit {0})
  must_ok r = if real r then pure tt else throw invalid_memory

  -- `operator T`, `operator T&` and `get`: the first item of the block.
  unfoldable pub get : Ref → Cmd A A
  get r = do
    must_ok r
    items ← load_block r.alloc
    elim items [ [] ↦ (λ h. fault) | x ∷ xs ↦ pure x ]

  -- `operator=(const Ref<T>&)` behind its test for the same allocation.
  unfoldable pub take_over : Ref → Ref → Cmd A Ref
  take_over this r = do drop this; if r.ref == 0 then pure r else add_ref r >> pure r

  -- `operator=(const Ref<T>&)`.
  unfoldable pub assign : Ref → Ref → Cmd A Ref
  assign this r =
      if not (this.alloc == 0) && (this.alloc == r.alloc) then pure this else take_over this r

  -- `operator=(const T&)`.
  pub assign_value : Ref → A → Cmd A (Unit {0})
  assign_value r v = do
    must_ok r
    items ← load_block r.alloc
    elim items [ [] ↦ (λ h. fault) | x ∷ xs ↦ store_block r.alloc (v ∷ xs) ]

  -- `operator==(const Ref<T>&)`, over the items' `==`.
  pub ref_eq : (A → A → Bool) → Ref → Ref → Cmd A Bool
  ref_eq eq this r =
      if this.alloc == 0
      then pure (r.alloc == 0)
      else if r.alloc == 0
      then pure false
      else if this.alloc == r.alloc
      then pure true
      else (do x ← get this; y ← get r; pure (eq x y))
