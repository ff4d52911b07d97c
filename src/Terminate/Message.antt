-- ===== src/Terminate/Message.antt =====
-- What is left of a panic's message in the error that api/terminate.hpp makes of it.
use julelang.Prelude.{ℕ, ◌≡◌, ◌⊎◌, inl, inr, refl, []}
use julelang.Panic.{allocation_failed}
use julelang.Heap.{Heap, ok, panic, pure, ◌>>=◌}
use julelang.Str.{Str, until_nul}
use julelang.Trait.{Trait, get_mask}
use julelang.Trait.Values.{from_value-Counted, get_mask-Counted}
use julelang.Terminate.{ErrorObject, panic_error, method_error, error, exception_to_error}

-- The error made of an exception has the exception's message, but its method `error` returns the empty
-- text; or there is no memory for it, and a panic.
pub exception_to_error-silent :
    (type_name : ErrorObject → ℕ) (h : Heap ErrorObject) (what : Str)
    → ((t : Trait) × (h' : Heap ErrorObject) × (exception_to_error type_name what h ≡ ok t h')
        × ((get_mask t >>= λ o. pure (error o)) h' ≡ ok (until_nul what) h')
        × ((get_mask t >>= λ o. pure (method_error o)) h' ≡ ok [] h'))
      ⊎ ((h' : Heap ErrorObject) × (exception_to_error type_name what h
            ≡ panic allocation_failed h'))
unfolding exception_to_error method_error error
exception_to_error-silent type_name h what =
    let object = panic_error (until_nul what) in
    elim (from_value-Counted type_name h object) [
      | inl (t, h', run, c, named, placed) ↦
          let read = get_mask-Counted h' t object 1 c in
          inl (t, h', run, rw read refl, rw read refl)
      | inr failed ↦ inr failed
    ]
