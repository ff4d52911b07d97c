-- ===== src/Clone/Plain.antt =====
-- The overloads of `clone` in api/derive/clone.hpp that return their argument, or call a method.
use julelang.Prelude.{ℕ, Bool}
use julelang.Prelude.Int.{ℤ}
use julelang.Fn.{Fn}
use julelang.Str.{Str}

-- Of the three types of characters.
unfoldable pub clone_char : ℤ → ℤ
clone_char x = x

-- Of `char*` and `const char*`, and of pointers to any type.
unfoldable pub clone_chars : ℕ → ℕ
clone_chars x = x

unfoldable pub clone_ptr : ℕ → ℕ
clone_ptr ptr = ptr

-- Of `Int`, `Uint` and `Bool`.
unfoldable pub clone_int : ℤ → ℤ
clone_int x = x

unfoldable pub clone_uint : ℕ → ℕ
clone_uint x = x

unfoldable pub clone_bool : Bool → Bool
clone_bool x = x

unfoldable pub clone_str : Str → Str
clone_str x = x

-- Of a function value: the address is copied with it.
unfoldable pub clone_fn : {F : Type 0} → Fn F → Fn F
clone_fn fn = fn

-- Of any other type, by its method `clone`.
unfoldable pub clone_other : {T : Type 0} → (T → T) → T → T
clone_other clone t = clone t
