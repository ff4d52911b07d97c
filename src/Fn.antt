-- ===== src/Fn.antt =====
-- api/fn.hpp: `jule::Fn`, a function value with an address. A `std::function` is nothing or a
-- function `F`; its `target`, the function pointer inside where there is one, is a parameter, and so is
-- `wrap`, the function that a pointer other than null stands for.
pub mod Addresses
pub mod Members
mod Tests
use julelang.Prelude.{ℕ, Bool, true, false, Option, none, some, ◌==◌, if◌then◌else◌}
use julelang.Panic.{Result, ok, panic, invalid_memory}

pub record Fn (F : Type 0) : Type 0 where
  pub buffer : Option F
  pub addr : ℕ

module _ {F : Type 0} where
  -- `Fn()` and `Fn(nullptr)`, which leave the address as memory has it.
  pub nil_fn : ℕ → Fn F
  nil_fn memory = record { buffer = none; addr = memory }

  unfoldable pub call : {X Y : Type 0} → (F → X → Y) → Fn F → X → Result Y
  call run fn x = elim fn.buffer [ none ↦ panic invalid_memory | some f ↦ ok (run f x) ]

  -- `operator=`, of nil, of a `std::function` and of a function.
  unfoldable pub assign : Fn F → Option F → Fn F
  assign fn f = record fn { buffer = f }

  unfoldable pub fn_eq : Fn F → Fn F → Bool
  fn_eq a b = a.addr == b.addr

  unfoldable pub fn_is_nil : Fn F → Bool
  fn_is_nil fn = elim fn.buffer [ none ↦ true | some f ↦ false ]

  module _ (target : F → Option ℕ) where
    pub addr_of_fn : Option F → ℕ
    addr_of_fn none = 0
    addr_of_fn (some f) = elim (target f) [ none ↦ 0 | some p ↦ p ]

    -- `Fn(const std::function&)`, of an argument at address `at`.
    pub from_function : Option F → ℕ → Fn F
    from_function f at =
        let addr = addr_of_fn f in record { buffer = f; addr = if addr == 0 then at else addr }

    -- `Fn(const Function*)`.
    pub from_pointer : (ℕ → F) → ℕ → Fn F
    from_pointer wrap p =
        let buffer = if p == 0 then none else some (wrap p) in
        let addr = addr_of_fn buffer in
        record { buffer = buffer; addr = if addr == 0 then p else addr }
