-- ===== src/Fn/Tests.antt =====
-- The theorem on api/fn.hpp at two functions that are their pointers.
use julelang.Prelude.{ℕ, ◌+◌, ◌≡◌, refl, true, false, Option, some, arith}
use julelang.Panic.{ok}
use julelang.Fn.{call, assign, fn_eq, from_pointer}
use julelang.Fn.Addresses.{assign-stale}

abbrev target : ℕ → Option ℕ
target f = some f

abbrev wrap : ℕ → ℕ
wrap p = p

abbrev run : ℕ → ℕ → ℕ
run f x = f + x

abbrev first : ℕ
first = 100

abbrev second : ℕ
second = 200

abbrev argument : ℕ
argument = 1

assign-stale_example :
    let a = assign (from_pointer target wrap first) (some (wrap second)) in
    (call run a argument ≡ ok (run (wrap second) argument))
    × (fn_eq a (from_pointer target wrap first) ≡ true)
    × (fn_eq a (from_pointer target wrap second) ≡ false)
assign-stale_example =
    assign-stale target wrap run (λ p. refl) first second argument (λ e. absurd (omega (arith, e)))
