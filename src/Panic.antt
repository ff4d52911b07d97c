-- ===== src/Panic.antt =====
-- api/panic.hpp and api/error.hpp: a panic is a C++ exception, so code that may panic returns a
-- `Result`. An error stands for its message; the two index errors keep the indices that the
-- message prints.
pub mod Message
use julelang.Prelude.{Bool, true, false}
use julelang.Prelude.Int.{ℤ}

pub data Error : Type 0 where
  invalid_memory incompatible_type allocation_failed divide_by_zero : Error
  index_out_of_range : ℤ → Error
  slicing_out_of_range : ℤ → ℤ → Error
  slice_len_negative slice_cap_negative slice_len_above_cap : Error

pub data Result {ℓ} (A : Type ℓ) : Type ℓ where
  ok : A → Result A
  panic : Error → Result A

infixl 5 ◌>>=◌ ◌>>◌
abbrev pub ◌>>=◌ {ℓ κ} : {A : Type ℓ} {B : Type κ} → Result A → (A → Result B) → Result B
ok a >>= f = f a
panic e >>= f = panic e

abbrev pub ◌>>◌ {ℓ} : {B : Type ℓ} → Result (Unit {0}) → Result B → Result B
m >> k = m >>= λ _. k

-- `if (bad) jule::panic(e);`
abbrev pub panic_if : Bool → Error → Result (Unit {0})
panic_if true e = panic e
panic_if false e = ok tt
