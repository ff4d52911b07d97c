-- ===== src/Trait.antt =====
-- api/trait.hpp: `jule::Trait<Mask>`, a counted reference to a value of any type that has the mask's
-- methods, with the name of its type. A heap block holds one dynamic value; the section's parameters
-- are the values' `typeid` names, as numbers, and the name of `Ref<T>` for the name of T.
pub mod Counts
pub mod Values
mod Tests
use julelang.Prelude.{
  ℕ, zero, suc, Bool, true, false, not, ◌&&◌, Option, none, some, List, [], ◌∷◌, ◌==◌,
  if◌then◌else◌,
}
use julelang.Panic.{Error, invalid_memory, incompatible_type, allocation_failed}
use julelang.Heap.{Heap, Run, Cmd, pure, throw, fault, ◌>>=◌, ◌>>◌, new_block, load_block}
use julelang.Ref
use julelang.Ref.{Ref, nil, make_from, add_ref, real}
use julelang.Slice.{adopt}

pub record Trait : Type 0 where
  pub ref : Ref
  -- `none` is `nullptr`.
  pub type_id : Option ℕ

-- `Trait()` and `Trait(nullptr)`.
abbrev pub nil_trait : Trait
nil_trait = record { ref = nil; type_id = none }

-- `operator==(nullptr)`.
unfoldable pub trait_is_nil : Trait → Bool
trait_is_nil t = t.ref.alloc == 0

abbrev pub is_name : Option ℕ → ℕ → Bool
is_name none name = false
is_name (some n) name = n == name

-- `type_is<T>()`, where `name` is T's.
unfoldable pub is_type : ℕ → Trait → Bool
is_type name t = if trait_is_nil t then false else is_name t.type_id name

-- `operator==(const Trait&)`: `this->data.alloc == this->data.alloc`.
pub trait_eq : Trait → Trait → Bool
trait_eq this src = this.ref.alloc == this.ref.alloc

-- `operator!=`, of a trait and of nil.
pub trait_ne : Trait → Trait → Bool
trait_ne this src = not (trait_eq this src)

pub trait_is_not_nil : Trait → Bool
trait_is_not_nil t = not (trait_is_nil t)

module _ {V : Type 0} (type_name : V → ℕ) where
  -- `Trait(const T&)`.
  pub from_value : V → Cmd V Trait
  from_value v = do
    ptr ← new_block (v ∷ [])
    if ptr == 0
        then throw allocation_failed
        else (do r ← adopt nil ptr; pure (record { ref = r; type_id = some (type_name v) }))

module _ {V : Type 0} where
  -- `Trait(const Ref<T>&)`, where `name` is that of `Ref<T>`: the temporary that `make` returns is
  -- copied and dropped.
  pub from_ref : ℕ → Ref → Cmd V Trait
  from_ref name r = do
    data' ← Ref.assign nil (make_from r.alloc r.ref)
    Ref.drop (make_from r.alloc r.ref)
    (if real r then add_ref data' >> pure tt else pure tt)
    pure (record { ref = data'; type_id = some name })

  unfoldable pub trait_dealloc : Trait → Cmd V Trait
  trait_dealloc t = do r ← Ref.drop t.ref; pure (record t { ref = r })

  pub trait_must_ok : Trait → Cmd V (Unit {0})
  trait_must_ok t = if trait_is_nil t then throw invalid_memory else pure tt

  -- The test of the two cast operators.
  pub check_type : ℕ → Trait → Cmd V (Unit {0})
  check_type name t = do
    trait_must_ok t
    if not (is_name t.type_id name) then throw incompatible_type else pure tt

  -- `get`: the value that the methods of the mask are called on.
  pub get_mask : Trait → Cmd V V
  get_mask t = do
    trait_must_ok t
    items ← load_block t.ref.alloc
    elim items [ [] ↦ (λ h. fault) | v ∷ vs ↦ pure v ]

  -- `operator T`, where `name` is T's.
  pub to_value : ℕ → Trait → Cmd V V
  to_value name t = do
    check_type name t
    items ← load_block t.ref.alloc
    elim items [ [] ↦ (λ h. fault) | v ∷ vs ↦ pure v ]

  -- `operator Ref<T>`, where `name` is that of `Ref<T>`.
  pub to_ref : ℕ → Trait → Cmd V Ref
  to_ref name t = do check_type name t; add_ref t.ref; pure (make_from t.ref.alloc t.ref.ref)

  -- `operator=(nullptr)`.
  pub assign_nil_trait : Trait → Cmd V Trait
  assign_nil_trait t = trait_dealloc t

  -- `operator=(const Trait&)`.
  unfoldable pub assign_trait : Trait → Trait → Cmd V Trait
  assign_trait this src =
      if not (this.ref.alloc == 0) && (this.ref.alloc == src.ref.alloc) then pure this else (do
        cleared ← trait_dealloc this
        if trait_is_nil src then pure cleared else (do
          r ← Ref.assign cleared.ref src.ref
          pure (record { ref = r; type_id = src.type_id })))
