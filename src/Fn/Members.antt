-- ===== src/Fn/Members.antt =====
-- The shorter members of api/fn.hpp.
use julelang.Prelude.{ℕ, Bool, not}
use julelang.Str.{Str}
use julelang.Fn.{Fn, fn_eq, fn_is_nil}

module _ {F : Type 0} where
  -- `operator!=`, of a function value and of nil.
  unfoldable pub fn_ne : Fn F → Fn F → Bool
  fn_ne this fn = not (fn_eq this fn)

  unfoldable pub fn_is_not_nil : Fn F → Bool
  fn_is_not_nil fn = not (fn_is_nil fn)

  -- `operator<<`, where `show` writes an address.
  unfoldable pub print_fn : (ℕ → Str) → Fn F → Str
  print_fn show src = show src.addr
