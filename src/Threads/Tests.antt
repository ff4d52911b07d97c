-- ===== src/Threads/Tests.antt =====
-- The theorems on threads that run api/ref.hpp at two threads, one of which holds the one reference.
use julelang.Prelude.{
  ℕ, ◌-◌, ◌^◌, ◌≡◌, ◌⊎◌, refl, ap, sym, true, none, some, [], ◌∷◌, arith, ◌==◌, if◌then◌else◌,
}
use julelang.Heap.{Heap, load_block}
use julelang.Ref.{Ref, add_ref, drop_ref}
use julelang.Ref
use julelang.Threads.{idle, last, counted, advance, System, Step, start, Reach, here, next}
use julelang.Threads.Family.{put_at, total}
use julelang.Threads.Ownership.{Phase, shared, drop-count}
use julelang.Threads.Safety.{Reach-Phase}
use julelang.Threads.Progress.{Returns, holder-Returns, drains}
use julelang.Threads.Ownership.{with_count}

abbrev memory : Heap ℕ
memory = record {
  block = λ a. if a == 1 then some (7 ∷ []) else none;
  count = λ p. if p == 2 then some 1 else none;
  next = 2;
  grants = λ _. true;
}

abbrev r : Ref
r = record { alloc = 1; ref = 2 }

abbrev holds : ℕ → ℕ
holds i = if i == 0 then 1 else 0

abbrev s : System ℕ
s = record { heap = memory; holds = holds; pc = λ _. idle }

one_held : total 2 holds ≡ 1
unfolding total
one_held = omega arith

s-Phase : Phase r 2 s
s-Phase =
    shared (omega (arith, one_held)) (omega (arith, one_held)) (λ i li. refl)
      (ap (λ (k : ℕ). some k) (sym one_held)) refl

abbrev t : System ℕ
t = record {
  heap = with_count memory r (some 0);
  holds = put_at holds 0 0;
  pc = put_at (λ _. idle) 0 last;
}

dropped : Step r 2 s t
dropped =
    start 0 (omega arith) (omega arith) refl
      (drop-count r memory 1 refl (omega arith) (omega arith))

t-Reach : Reach r 2 s t
t-Reach = next here dropped

none_held : total 2 t.holds ≡ 0
unfolding total
none_held = omega arith

abbrev u : System ℕ
u = record { heap = with_count t.heap r none; holds = t.holds; pc = put_at t.pc 0 counted }

abbrev two : ℕ
two = 2

abbrev this : ℕ
this = 0

Reach-Phase_example : Phase r two t
Reach-Phase_example = Reach-Phase r two (omega arith) s-Phase t-Reach

holder-Returns_example :
    Returns (advance r idle) s.heap
    × Returns (load_block {A = ℕ} r.alloc) s.heap
    × ((total two s.holds ≡ 2 ^ 64 - 1) ⊎ Returns (add_ref {A = ℕ} r) s.heap)
holder-Returns_example =
    holder-Returns r two (omega arith) s-Phase here this (omega arith) (omega arith)

drains_example :
    (u : System ℕ) × Reach r two t u × (u.heap.count r.ref ≡ none) × (u.heap.block r.alloc ≡ none)
drains_example = drains r two (omega arith) s-Phase t-Reach none_held
