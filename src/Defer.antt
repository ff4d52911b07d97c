-- ===== src/Defer.antt =====
-- api/defer.hpp: `__JULE_DEFER`, a local object whose destructor runs a block. A scope's locals are
-- destroyed in the reverse order of their definition, however the scope is left; a destructor is
-- `noexcept`, so that an exception in it ends in `std::terminate`.
pub mod Structured
mod Tests
use julelang.Prelude.{Option, none, some, List, [], ◌∷◌}
use julelang.Panic.{Error}

-- How a block or a scope is left, with the state that it shares with the code around it.
pub data Exit (S : Type 0) : Type 0 where
  done : S → Exit S
  returned : S → Exit S
  raised : Error → S → Exit S
  terminated : Exit S

pub record DeferBase (S : Type 0) : Type 0 where
  -- `none` is an empty `std::function`.
  pub scope : Option (S → Exit S)

module _ {S : Type 0} where
  -- `DeferBase()`.
  abbrev pub empty_defer : DeferBase S
  empty_defer = record { scope = none }

  -- `DeferBase(fn)`.
  unfoldable pub defer_block : (S → Exit S) → DeferBase S
  defer_block fn = record { scope = some fn }

  -- What a call from a destructor goes on with. A `return` in a block leaves the block.
  unfoldable pub end_call : Exit S → Option S
  end_call (done s) = some s
  end_call (returned s) = some s
  end_call (raised e s) = none
  end_call terminated = none

  -- `~DeferBase`; `none` is `std::terminate`, also of the `std::bad_function_call` of an empty scope.
  unfoldable pub destruct : DeferBase S → S → Option S
  destruct d s = elim d.scope [ none ↦ none | some fn ↦ end_call (fn s) ]

  -- The end of a scope, where the locals are as many deferred blocks, the last one first.
  unfoldable pub unwind : List (DeferBase S) → S → Option S
  unwind [] s = some s
  unwind (d ∷ ds) s = elim (destruct d s) [ none ↦ none | some s' ↦ unwind ds s' ]

  -- The scope is left by `how` behind the destructors.
  unfoldable pub leave : List (DeferBase S) → (S → Exit S) → S → Exit S
  leave ds how s = elim (unwind ds s) [ none ↦ terminated | some s' ↦ how s' ]

-- A statement of a scope: code, or `__JULE_DEFER(BLOCK)`.
pub data Statement (S : Type 0) : Type 0 where
  plain : (S → Exit S) → Statement S
  deferred : (S → Exit S) → Statement S

module _ {S : Type 0} where
  -- The statements of a scope, from where the objects `ds` are defined.
  unfoldable pub exec : List (Statement S) → List (DeferBase S) → S → Exit S
  exec [] ds s = leave ds done s
  exec (deferred block ∷ ss) ds s = exec ss (defer_block block ∷ ds) s
  exec (plain code ∷ ss) ds s = elim (code s) [
    | done s' ↦ exec ss ds s'
    | returned s' ↦ leave ds returned s'
    | raised e s' ↦ leave ds (raised e) s'
    | terminated ↦ terminated
  ]
