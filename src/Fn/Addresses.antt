-- ===== src/Fn/Addresses.antt =====
-- What `==` of api/fn.hpp says of function values.
use julelang.Prelude.{
  ℕ, ◌≡◌, ◌≢◌, ◌↔◌, refl, true, false, arith, Option, some, ◌==◌, if◌then◌else◌, ℕ_discrete,
}
use julelang.Panic.{ok, panic, invalid_memory}
use julelang.Fn.{call, assign, fn_eq, addr_of_fn, from_pointer}

module _ {F X Y : Type 0} (target : F → Option ℕ) (wrap : ℕ → F) (run : F → X → Y)
    (found : (p : ℕ) → target (wrap p) ≡ some p) where
  from_pointer-addr : (p : ℕ) → (from_pointer target wrap p).addr ≡ p
  unfolding from_pointer addr_of_fn
  from_pointer-addr p = elim (ℕ_discrete p 0) [
    | yes null ↦ ground (arith, null)
    | no real ↦ ground (arith, found p)
  ]

  -- Function values made of pointers are equal exactly if the pointers are.
  pub from_pointer-eq :
      (p q : ℕ) → (fn_eq (from_pointer target wrap p) (from_pointer target wrap q) ≡ true) ↔ (p ≡ q)
  unfolding fn_eq
  from_pointer-eq p q =
      let left = from_pointer-addr p in
      let right = from_pointer-addr q in
      ((λ e. ground (arith, left, right)), λ e. ground (arith, left, right))

  -- A call of a function value made of a pointer runs the function, and panics for the null pointer.
  pub call-from_pointer :
      (p : ℕ) (x : X)
      → call run (from_pointer target wrap p) x
        ≡ (if p == 0 then panic invalid_memory else ok (run (wrap p) x))
  unfolding call from_pointer
  call-from_pointer p x = elim (ℕ_discrete p 0) [
    | yes null ↦ ground (arith, null)
    | no real ↦ ground arith
  ]

  -- Where the target of a pointer's function is the pointer: an assignment changes the function that a
  -- call runs but not the address. With two pointers that differ, the value that is assigned the
  -- second function runs it, but is equal to the first and not to the second.
  pub assign-stale :
      (p q : ℕ) (x : X)
      → p ≢ q
      → let a = assign (from_pointer target wrap p) (some (wrap q)) in
        (call run a x ≡ ok (run (wrap q) x))
        × (fn_eq a (from_pointer target wrap p) ≡ true)
        × (fn_eq a (from_pointer target wrap q) ≡ false)
  unfolding call assign fn_eq
  assign-stale p q x ne =
      let left = from_pointer-addr p in
      let right = from_pointer-addr q in (refl, ground arith, ground (arith, left, right))
