-- ===== src/Terminate.antt =====
-- api/terminate.hpp and api/panic.hpp: what becomes of a panic's exception. The exception is its
-- message, a text up to its first zero byte.
pub mod Message
use julelang.Prelude.{ℕ, List, [], ◌∷◌, ◌++◌}
use julelang.Heap.{Cmd}
use julelang.Str.{Str, until_nul}
use julelang.Trait.{Trait, from_value}

-- The objects behind a `Trait<Error>`: of the mask itself, and of the local `PanicError`.
pub data ErrorObject : Type 0 where
  plain_error : ErrorObject
  panic_error : Str → ErrorObject

-- `_method_error`: `PanicError` does not override it.
unfoldable pub method_error : ErrorObject → Str
method_error plain_error = []
method_error (panic_error message) = []

-- `PanicError::error`, which nothing calls.
unfoldable pub error : ErrorObject → Str
error plain_error = []
error (panic_error message) = message

-- `exception_to_error`; `type_name` gives the `typeid` names of the objects.
pub exception_to_error : (ErrorObject → ℕ) → Str → Cmd ErrorObject Trait
exception_to_error type_name what = from_value type_name (panic_error (until_nul what))

-- `terminate_handler` of a `jule::Exception`: what it prints, and the status that it exits with.
unfoldable pub terminate_handler : Str → Str × ℕ
terminate_handler what = (112 ∷ 97 ∷ 110 ∷ 105 ∷ 99 ∷ 58 ∷ 32 ∷ (until_nul what ++ (10 ∷ [])), 2)
