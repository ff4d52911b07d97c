-- ===== src/Any/Table.antt =====
-- The table of functions that a `jule::Any` of api/any.hpp points to, which is made once for each type.
-- `name` is the type's, `eq` its `==`, and `show` what its `operator<<` writes.
pub mod Calls
use julelang.Prelude.{ℕ, Bool, true, false, not, List, [], ◌∷◌, ◌==◌, if◌then◌else◌}
use julelang.Heap.{Cmd, pure, throw, fault, ◌>>=◌, ◌>>◌, new_block, delete_block, load_block}
use julelang.Str.{Str}
use julelang.Any.{Any, eq_any, any_is_nil, eq_expr}

module _ {V : Type 0} where
  -- `static_cast<T*>(alloc)`, read.
  unfoldable pub at_pointer : ℕ → Cmd V V
  at_pointer alloc = do items ← load_block alloc; elim items [ [] ↦ (λ h. fault) | v ∷ vs ↦ pure v ]

  -- `DynamicType<T>::dealloc`.
  unfoldable pub dynamic_dealloc : ℕ → Cmd V (Unit {0})
  dynamic_dealloc alloc = delete_block alloc

  -- `DynamicType<T>::eq`.
  unfoldable pub dynamic_eq : (V → V → Bool) → ℕ → ℕ → Cmd V Bool
  dynamic_eq eq alloc other = do l ← at_pointer alloc; r ← at_pointer other; pure (eq l r)

  -- `DynamicType<T>::to_str`.
  unfoldable pub dynamic_to_str : (V → Str) → ℕ → Cmd V Str
  dynamic_to_str show alloc = do v ← at_pointer alloc; pure (show v)

  -- `DynamicType<T>::alloc_new_copy`.
  unfoldable pub dynamic_copy : ℕ → Cmd V ℕ
  dynamic_copy data' = do v ← at_pointer data'; new_block (v ∷ [])

-- `Type`.
pub record Table (V : Type 0) : Type 0 where
  pub type_id : ℕ
  pub dealloc : ℕ → Cmd V (Unit {0})
  pub eq : ℕ → ℕ → Cmd V Bool
  pub to_str : ℕ → Cmd V Str
  pub alloc_new_copy : ℕ → Cmd V ℕ

-- `new_type<T>()`.
unfoldable pub new_type : {V : Type 0} → ℕ → (V → V → Bool) → (V → Str) → Table V
new_type name eq show = record {
  type_id = name;
  dealloc = dynamic_dealloc;
  eq = dynamic_eq eq;
  to_str = dynamic_to_str show;
  alloc_new_copy = dynamic_copy;
}

module _ {V : Type 0} (type_name : V → ℕ) (eq : V → V → Bool) where
  -- `operator!=`, of a value and of an `Any`.
  unfoldable pub ne_expr : Any → V → Cmd V Bool
  ne_expr a v = do same ← eq_expr type_name eq a v; pure (not same)

  unfoldable pub ne_any : Any → Any → Cmd V Bool
  ne_any this other = do same ← eq_any type_name eq this other; pure (not same)

-- `operator!=(nullptr)`.
unfoldable pub any_is_not_nil : Any → Bool
any_is_not_nil a = not (any_is_nil a)
