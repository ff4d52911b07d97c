-- ===== src/Threads/Progress.antt =====
-- Interleavings of the members of api/ref.hpp come to an end: no thread is stuck or faults, and when
-- no reference is held the allocation is freed.
use julelang.Prelude.{
  ℕ, ◌-◌, ◌^◌, ◌<◌, ◌≡◌, refl, subst, ◌∙◌, sym, arith, dec_lt, some, none, List, ◌⊎◌, inl, inr,
}
use julelang.Heap.{Heap, Cmd, ok, pure, ◌>>=◌, ◌>>◌, load_block}
use julelang.Ref
use julelang.Ref.{Ref, nil, add_ref}
use julelang.Threads.{Pc, idle, last, counted, IsBusy, advance, System, Step, go, Reach, here, next}
use julelang.Threads.Family.{put_at, put_at_same, total}
use julelang.Threads.Ownership.{
  AllIdle, Phase, shared, ending, uncounted, gone, not-idle, none_held, busy_one, with_count,
  add-count, drop-count, last-count, counted-block, read-block,
}
use julelang.Threads.Safety.{Reach-Phase}

-- A command is defined on a heap, and returns.
abbrev pub Returns : {A X : Type 0} → Cmd A X → Heap A → Type 0
Returns {A} {X} m h = (x : X) × (h' : Heap A) × (m h ≡ ok x h')

module _ {A : Type 0} (r : Ref) (n : ℕ) {s t : System A} (placed : 0 < r.alloc) (at : Phase r n s)
    (before : Reach r n s t) where
  -- Where the invariant held at the start, a thread that holds a reference can drop it, read through it and, if the count is not at its
  -- bound, copy it.
  pub holder-Returns :
      (i : ℕ)
      → i < n
      → 0 < t.holds i
      → Returns (advance r idle) t.heap
        × Returns (load_block {A = A} r.alloc) t.heap
        × ((total n t.holds ≡ 2 ^ 64 - 1) ⊎ Returns (add_ref {A = A} r) t.heap)
  holder-Returns i li own = elim (Reach-Phase r n placed at before) [
    | shared {items} pos bound quiet cnt live ↦ (
      (_, _, drop-count r t.heap (total n t.holds) cnt pos bound),
      (_, _, read-block r t.heap items live),
      elim (dec_lt (total n t.holds) (2 ^ 64 - 1)) [
        | yes few ↦ inr (_, _, add-count r t.heap (total n t.holds) cnt few)
        | no full ↦ inl (omega arith)
      ],
    )
    | ending k e at cnt live ↦ absurd (omega (arith, none_held r n t i li e))
    | uncounted k e at cnt live ↦ absurd (omega (arith, none_held r n t i li e))
    | gone e at cnt live ↦ absurd (omega (arith, none_held r n t i li e))
  ]

  -- A thread in a drop can go on.
  pub busy-Returns : (i : ℕ) → i < n → IsBusy (t.pc i) → Returns (advance r (t.pc i)) t.heap
  busy-Returns i li busy = elim (Reach-Phase r n placed at before) [
    | shared pos bound quiet cnt live ↦ absurd (not-idle (t.pc i) (sym (quiet i li)) busy)
    | ending k e one cnt live ↦
        let (_, p) = busy_one r n t k i last (t.pc i) li one refl busy in
        subst (λ (q : Pc). Returns (advance r q) t.heap) p (_, _, last-count r t.heap 0 cnt)
    | uncounted {items} k e one cnt live ↦
        let (_, p) = busy_one r n t k i counted (t.pc i) li one refl busy in
        subst (λ (q : Pc). Returns (advance r q) t.heap) p
          (_, _, counted-block r t.heap items placed live)
    | gone e quiet cnt live ↦ absurd (not-idle (t.pc i) (sym (quiet i li)) busy)
  ]

  -- With no reference held and no thread in a drop, nothing is left allocated.
  pub quiet-freed :
      total n t.holds ≡ 0
      → AllIdle r n t
      → (t.heap.count r.ref ≡ none) × (t.heap.block r.alloc ≡ none)
  quiet-freed none_left quiet = elim (Reach-Phase r n placed at before) [
    | shared pos bound _ cnt live ↦ absurd (omega arith)
    | ending k e one cnt live ↦ absurd (not-idle last (sym (quiet k one.0) ∙ one.1) tt)
    | uncounted k e one cnt live ↦ absurd (not-idle counted (sym (quiet k one.0) ∙ one.1) tt)
    | gone e _ cnt live ↦ (cnt, live)
  ]

module _ {A : Type 0} (r : Ref) (n : ℕ) where
  abbrev pub Freed : System A → Type 0
  Freed t = (t.heap.count r.ref ≡ none) × (t.heap.block r.alloc ≡ none)

  free_block :
      (t : System A) (items : List A) (i : ℕ)
      → 0 < r.alloc
      → i < n
      → t.pc i ≡ counted
      → t.heap.count r.ref ≡ none
      → t.heap.block r.alloc ≡ some items
      → (u : System A) × Step r n t u × Freed u
  free_block t items i placed li e cnt live =
      (_, go i li e tt (counted-block r t.heap items placed live), (cnt, ground arith))

  -- Where the invariant held at the start, from every state in which no reference is held, the threads
  -- can go on until count and block are freed.
  pub drains :
      {s t : System A}
      → 0 < r.alloc
      → Phase r n s
      → Reach r n s t
      → total n t.holds ≡ 0
      → (u : System A) × Reach r n t u × (u.heap.count r.ref ≡ none) × (u.heap.block r.alloc ≡ none)
  drains {s} {t} placed at before none_left = elim (Reach-Phase r n placed at before) [
    | shared pos bound _ cnt live ↦ absurd (omega arith)
    | ending {items} k e one cnt live ↦
        let after_count : System A = record {
          heap = with_count t.heap r none;
          holds = t.holds;
          pc = put_at t.pc k counted;
        } in
        let step : Step r n t after_count = go k one.0 one.1 tt (last-count r t.heap 0 cnt) in
        let (u, step', freed) =
          free_block after_count items k placed one.0 (put_at_same t.pc k counted) (ground arith)
            live in
        (u, next (next here step) step', freed.0, freed.1)
    | uncounted {items} k e one cnt live ↦
        let (u, step, freed) = free_block t items k placed one.0 one.1 cnt live in
        (u, next here step, freed.0, freed.1)
    | gone e _ cnt live ↦ (t, here, cnt, live)
  ]

-- The steps of `drop` that are left.
abbrev pub weight : Pc → ℕ
weight idle = 0
weight last = 2
weight counted = 1

unfoldable pub work : ℕ → (ℕ → Pc) → ℕ
work n pc = total n (λ i. weight (pc i))

module _ {A : Type 0} (r : Ref) where
  -- The rest of `drop` behind its atomic subtraction, without interruption.
  pub finish : Pc → Cmd A Ref
  finish idle = pure nil
  finish last = advance r last >>= λ p. advance r p >> pure nil
  finish counted = advance r counted >> pure nil
