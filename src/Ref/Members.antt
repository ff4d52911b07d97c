-- ===== src/Ref/Members.antt =====
-- `new_ref` without a value, and the comparisons of api/ref.hpp.
pub mod Compare
use julelang.Prelude.{ℕ, Bool, true, false, not, ◌==◌, if◌then◌else◌, List, [], ◌∷◌}
use julelang.Heap.{Cmd, pure, ◌>>=◌}
use julelang.Ref.{Ref, nil, get, ref_eq}

-- `new_ref()`, which makes no value.
abbrev pub new_ref : Ref
new_ref = nil

module _ {A : Type 0} (eq : A → A → Bool) where
  -- `operator==(const T&)`.
  unfoldable pub ref_eq_value : Ref → A → Cmd A Bool
  ref_eq_value this val = if this.alloc == 0 then pure false else (do x ← get this; pure (eq x val))

  -- `operator!=(const T&)`.
  unfoldable pub ref_ne_value : Ref → A → Cmd A Bool
  ref_ne_value this val = do same ← ref_eq_value this val; pure (not same)

  -- `operator!=(const Ref<T>&)`.
  unfoldable pub ref_ne : Ref → Ref → Cmd A Bool
  ref_ne this r = do same ← ref_eq eq this r; pure (not same)
