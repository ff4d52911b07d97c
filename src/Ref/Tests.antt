-- ===== src/Ref/Tests.antt =====
-- The theorems on api/ref.hpp at a program that makes a reference and drops it.
use julelang.Prelude.{ℕ, refl, Bool, true, none, some, arith}
use julelang.Heap.{Heap, put}
use julelang.Ref.{nil}
use julelang.Ref.Uses.{Vars, update}
use julelang.Ref.Ownership.{Owned, Bounded}
use julelang.Ref.Create.{made, grown, make-ok}
use julelang.Ref.Program.{World, create, Reach, here, next, initial, IsOwned, Reach-Owned}

abbrev grants : ℕ → Bool
grants _ = true

abbrev start : Heap ℕ
start = record { block = λ _. none; count = λ _. none; next = 0; grants = grants }

abbrev memory : Heap ℕ
memory = grown start 7

abbrev vars : Vars
vars = update (λ _. nil) 0 (made start 7)

abbrev made_one : World ℕ
made_one = record { heap = memory; vars = vars }

made_one-Reach : Reach 2 (initial grants) made_one
made_one-Reach = next here (create 0 7 (omega arith) refl (make-ok start 7 refl refl))

abbrev left : Heap ℕ
left = record memory {
  count = put (put memory.count 1 (some 0)) 1 none;
  block = put memory.block 2 none;
}

abbrev dropped : World ℕ
dropped = record { heap = left; vars = update vars 0 nil }

few : Bounded 2
few = omega arith

made_one-Owned : Owned memory 2 vars
made_one-Owned = Reach-Owned 2 grants few made_one-Reach

Reach-Owned_example : IsOwned 2 made_one
Reach-Owned_example = Reach-Owned 2 grants few made_one-Reach
