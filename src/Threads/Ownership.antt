-- ===== src/Threads/Ownership.antt =====
-- The invariant of the threads that share an allocation of api/ref.hpp: the count is the number of
-- the references that all of them hold, and one thread at most deletes.
use julelang.Prelude.{
  ℕ, ◌+◌, ◌-◌, ◌%◌, ◌^◌, ◌<◌, ◌≡◌, ◌≢◌, ap, ◌∙◌, sym, arith, ℕ_discrete, Option, some, none, List,
}
use julelang.Heap.{Heap, Run, ok, put, load_block, fetch_add, delete_count, delete_block}
use julelang.Ref.{Ref, add_ref, drop_ref}
use julelang.Threads.{Pc, idle, last, counted, after, IsBusy, advance, System}
use julelang.Threads.Family.{total, le-total}

module _ {A : Type 0} (r : Ref) (n : ℕ) (s : System A) where
  abbrev pub AllIdle : Type 0
  AllIdle = (i : ℕ) → i < n → s.pc i ≡ idle

  -- Thread i alone is in a drop, at `p`.
  abbrev pub OneAt : ℕ → Pc → Type 0
  OneAt i p = (i < n) × (s.pc i ≡ p) × ((j : ℕ) → j < n → i ≢ j → s.pc j ≡ idle)

  pub data Phase : Type 0 where
    shared :
        {items : List A}
        → 0 < total n s.holds
        → total n s.holds < 2 ^ 64
        → AllIdle
        → s.heap.count r.ref ≡ some (total n s.holds)
        → s.heap.block r.alloc ≡ some items
        → Phase
    ending :
        {items : List A} (i : ℕ)
        → total n s.holds ≡ 0
        → OneAt i last
        → s.heap.count r.ref ≡ some 0
        → s.heap.block r.alloc ≡ some items
        → Phase
    uncounted :
        {items : List A} (i : ℕ)
        → total n s.holds ≡ 0
        → OneAt i counted
        → s.heap.count r.ref ≡ none
        → s.heap.block r.alloc ≡ some items
        → Phase
    gone :
        total n s.holds ≡ 0
        → AllIdle
        → s.heap.count r.ref ≡ none
        → s.heap.block r.alloc ≡ none
        → Phase

pub not-idle : (p : Pc) → idle ≡ p → IsBusy p → ⊥
not-idle idle e b = b
not-idle last e b = ground arith
not-idle counted e b = ground arith

module _ {A : Type 0} (r : Ref) (n : ℕ) (s : System A) where
  pub none_held : (i : ℕ) → i < n → total n s.holds ≡ 0 → s.holds i ≡ 0
  none_held i li e = omega (arith, le-total n s.holds i li)

  -- Who is busy is the one.
  pub busy_one :
      (i j : ℕ) (p q : Pc) → j < n → OneAt r n s i p → s.pc j ≡ q → IsBusy q → (i ≡ j) × (p ≡ q)
  busy_one i j p q lj (li, at, others) e busy = elim (ℕ_discrete i j) [
    | yes same ↦ (same, sym at ∙ ap s.pc same ∙ e)
    | no other ↦ absurd (not-idle q (sym (others j lj other) ∙ e) busy)
  ]

abbrev pub with_count : {A : Type 0} → Heap A → Ref → Option ℕ → Heap A
with_count h r c = record h { count = put h.count r.ref c }

abbrev pub without_block : {A : Type 0} → Heap A → Ref → Heap A
without_block h r = record h { block = put h.block r.alloc none }

-- What the atomic operations and the deletions do.
module _ {A : Type 0} (r : Ref) (h : Heap A) where
  pub add-count :
      (k : ℕ)
      → h.count r.ref ≡ some k
      → k < 2 ^ 64 - 1
      → add_ref r h ≡ ok k (with_count h r (some (k + 1)))
  unfolding add_ref fetch_add
  add-count k stored few = let up : (k + 1) % 2 ^ 64 ≡ k + 1 = omega arith in ground arith

  pub drop-count :
      (k : ℕ)
      → h.count r.ref ≡ some k
      → 0 < k
      → k < 2 ^ 64
      → advance r idle h ≡ ok (after k) (with_count h r (some (k - 1)))
  unfolding advance drop_ref fetch_add
  drop-count k stored pos few =
      let down : (k + (2 ^ 64 - 1)) % 2 ^ 64 ≡ k - 1 = omega arith in ground arith

  pub last-count :
      (k : ℕ) → h.count r.ref ≡ some k → advance r last h ≡ ok counted (with_count h r none)
  unfolding advance delete_count
  last-count k stored = ground arith

  pub counted-block :
      (items : List A)
      → 0 < r.alloc
      → h.block r.alloc ≡ some items
      → advance r counted h ≡ ok idle (without_block h r)
  unfolding advance delete_block
  counted-block items placed live = ground arith

  pub read-block :
      (items : List A) → h.block r.alloc ≡ some items → load_block r.alloc h ≡ ok items h
  unfolding load_block
  read-block items live = ground arith

-- A run has one outcome.
pub ok-injective :
    {A X : Type 0} {c d : X} {h k : Heap A} {m : Run A X}
    → m ≡ ok c h
    → m ≡ ok d k
    → (c ≡ d) × (h ≡ k)
ok-injective {A} {X} {c} {d} {h} {k} e e' = ground arith
