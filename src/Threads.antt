-- ===== src/Threads.antt =====
-- The members of api/ref.hpp that several threads run at once on one counted allocation. A member is
-- cut at its atomic operations and deletions; the memory order is relaxed, so only the count itself
-- is ordered, and a thread owns the references that its own variables hold.
pub mod Family
pub mod Ownership
pub mod Safety
pub mod Progress
mod Tests
use julelang.Prelude.{ℕ, zero, suc, ◌+◌, ◌-◌, ◌^◌, ◌<◌, ◌≡◌, ◌==◌, if◌then◌else◌, List}
use julelang.Heap.{Heap, Run, Cmd, ok, pure, ◌>>=◌, ◌>>◌, delete_count, delete_block, load_block}
use julelang.Ref.{Ref, delta, add_ref, drop_ref}
use julelang.Threads.Family.{put_at, total}

-- Where a thread is in `Ref::drop`: in none, or behind a count that fell to 0, with the count and
-- then the block to delete.
pub data Pc : Type 0 where
  idle last counted : Pc

abbrev pub IsBusy : Pc → Type 0
IsBusy idle = ⊥
IsBusy last = Unit {0}
IsBusy counted = Unit {0}

-- The test behind the atomic subtraction of `drop`.
abbrev pub after : ℕ → Pc
after old = if old == delta then last else idle

module _ {A : Type 0} where
  -- One step of `drop`, from the atomic subtraction on.
  unfoldable pub advance : Ref → Pc → Cmd A Pc
  advance r idle = drop_ref r >>= λ old. pure (after old)
  advance r last = delete_count r.ref >> pure counted
  advance r counted = delete_block r.alloc >> pure idle

pub record System (A : Type 0) : Type 0 where
  pub heap : Heap A
  pub holds : ℕ → ℕ
  pub pc : ℕ → Pc

-- What thread i of n does next to the allocation behind `r`: it copies a reference of its own into a
-- variable of thread j, its own or one it starts; it drops a reference; it goes on with a drop; it
-- reads through a reference.
pub data Step {A : Type 0} (r : Ref) (n : ℕ) (s : System A) : System A → Type 0 where
  copy :
      {h : Heap A} {c : ℕ} (i j : ℕ)
      → i < n
      → j < n
      → 0 < s.holds i
      → total n s.holds < 2 ^ 64 - 1
      → add_ref r s.heap ≡ ok c h
      → Step r n s (record { heap = h; holds = put_at s.holds j (s.holds j + 1); pc = s.pc })
  start :
      {h : Heap A} {p : Pc} (i : ℕ)
      → i < n
      → 0 < s.holds i
      → s.pc i ≡ idle
      → advance r idle s.heap ≡ ok p h
      → Step r n s
          (record { heap = h; holds = put_at s.holds i (s.holds i - 1); pc = put_at s.pc i p })
  go :
      {h : Heap A} {p q : Pc} (i : ℕ)
      → i < n
      → s.pc i ≡ p
      → IsBusy p
      → advance r p s.heap ≡ ok q h
      → Step r n s (record { heap = h; holds = s.holds; pc = put_at s.pc i q })
  read :
      {h : Heap A} {items : List A} (i : ℕ)
      → i < n
      → 0 < s.holds i
      → load_block r.alloc s.heap ≡ ok items h
      → Step r n s (record { heap = h; holds = s.holds; pc = s.pc })

pub data Reach {A : Type 0} (r : Ref) (n : ℕ) (s : System A) : System A → Type 0 where
  here : Reach r n s s
  next : {t u : System A} → Reach r n s t → Step r n t u → Reach r n s u
