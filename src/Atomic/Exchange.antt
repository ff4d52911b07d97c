-- ===== src/Atomic/Exchange.antt =====
-- How the operations of api/atomic.hpp are related.
use julelang.Prelude.{ℕ, ◌+◌, ◌%◌, ◌^◌, ◌≡◌, arith, Bool, some, if◌then◌else◌, ℕ_discrete}
use julelang.Heap.{Heap, Cmd, pure, ◌>>=◌, fetch_add}
use julelang.Atomic.{atomic_compare_swap}

module _ {A : Type 0} where
  -- One round of an addition by `compare_swap`, from what the thread expects to find: it is done, or
  -- it knows what to expect next.
  pub add_round : ℕ → ℕ → ℕ → Cmd A (Bool × ℕ)
  add_round p delta expected = atomic_compare_swap p expected ((expected + delta) % 2 ^ 64)

  -- A second round where the first one failed.
  pub add_rounds : ℕ → ℕ → ℕ → Cmd A ℕ
  add_rounds p delta expected = do
    first ← add_round p delta expected
    if first.0 then pure first.1 else (do second ← add_round p delta first.1; pure second.1)

  -- An addition by `compare_swap`, with any expectation, is `fetch_add` after at most two rounds where
  -- no other thread comes between: the value that the first finds is the one the second expects.
  pub add_rounds-fetch_add :
      (h : Heap A) (p delta expected n : ℕ)
      → h.count p ≡ some n
      → add_rounds p delta expected h ≡ fetch_add p delta h
  unfolding add_rounds add_round atomic_compare_swap fetch_add
  add_rounds-fetch_add h p delta expected n stored = elim (ℕ_discrete n expected) [
    | yes same ↦ ground (arith, stored, same)
    | no other ↦ ground (arith, stored, other)
  ]
