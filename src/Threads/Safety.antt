-- ===== src/Threads/Safety.antt =====
-- What any interleaving of the members of api/ref.hpp keeps.
use julelang.Prelude.{ℕ, ◌+◌, ◌-◌, ◌^◌, ◌<◌, ◌≡◌, ◌≢◌, ap, subst, ◌∙◌, sym, arith, ℕ_discrete, List}
use julelang.Heap.{Heap, ok, load_block}
use julelang.Ref.{Ref, add_ref}
use julelang.Threads.{
  Pc, idle, last, counted, after, IsBusy, advance, System, Step, copy, start, go, read, Reach, here,
  next,
}
use julelang.Threads.Family.{put_at, put_at_same, put_at_other, total, total-put_at}
use julelang.Threads.Ownership.{
  Phase, shared, ending, uncounted, gone, not-idle, none_held, busy_one, add-count, drop-count,
  last-count, counted-block, read-block, ok-injective,
}

module _ (n : ℕ) where
  idle-put_at :
      (pc : ℕ → Pc) (i : ℕ)
      → ((j : ℕ) → j < n → i ≢ j → pc j ≡ idle)
      → (j : ℕ) → j < n
      → put_at pc i idle j ≡ idle
  idle-put_at pc i others j lj = elim (ℕ_discrete i j) [
    | yes same ↦ ap (λ (k : ℕ). put_at pc i idle k) (sym same) ∙ put_at_same pc i idle
    | no other ↦ put_at_other pc i j idle other ∙ others j lj other
  ]

  one_at :
      (pc : ℕ → Pc) (i : ℕ) (p : Pc)
      → i < n
      → ((j : ℕ) → j < n → i ≢ j → pc j ≡ idle)
      → (i < n) × (put_at pc i p i ≡ p) × ((j : ℕ) → j < n → i ≢ j → put_at pc i p j ≡ idle)
  one_at pc i p li others =
      (li, put_at_same pc i p, λ j lj ne. put_at_other pc i j p ne ∙ others j lj ne)

module _ {A : Type 0} (r : Ref) (n : ℕ) where
  module _ (s : System A) (i : ℕ) (li : i < n) (h' : Heap A) where
    copy-Phase :
        (j c : ℕ)
        → j < n
        → 0 < s.holds i
        → total n s.holds < 2 ^ 64 - 1
        → add_ref r s.heap ≡ ok c h'
        → Phase r n s
        → Phase r n (record { heap = h'; holds = put_at s.holds j (s.holds j + 1); pc = s.pc })
    copy-Phase j c lj own few run (shared {items} pos bound quiet cnt live) =
        let (_, e) = ok-injective (add-count r s.heap (total n s.holds) cnt few) run in
        let more : total n (put_at s.holds j (s.holds j + 1)) ≡ total n s.holds + 1 =
          omega (arith, total-put_at n s.holds j (s.holds j + 1) lj) in
        subst
          (λ (h : Heap A).
            Phase r n (record { heap = h; holds = put_at s.holds j (s.holds j + 1); pc = s.pc }))
          e (shared {items = items} (omega arith) (omega arith) quiet (ground arith) live)
    copy-Phase j c lj own few run (ending k e at cnt live) =
        absurd (omega (arith, none_held r n s i li e))
    copy-Phase j c lj own few run (uncounted k e at cnt live) =
        absurd (omega (arith, none_held r n s i li e))
    copy-Phase j c lj own few run (gone e at cnt live) =
        absurd (omega (arith, none_held r n s i li e))

    start-Phase :
        (p : Pc)
        → 0 < s.holds i
        → advance r idle s.heap ≡ ok p h'
        → Phase r n s
        → Phase r n
            (record { heap = h'; holds = put_at s.holds i (s.holds i - 1); pc = put_at s.pc i p })
    start-Phase p own run (shared {items} pos bound quiet cnt live) =
        let k = total n s.holds in
        let (at, e) = ok-injective (drop-count r s.heap k cnt pos bound) run in
        let holds' = put_at s.holds i (s.holds i - 1) in
        let fewer : total n holds' ≡ k - 1 =
          omega (arith, total-put_at n s.holds i (s.holds i - 1) li) in
        subst (λ (q : Pc). Phase r n (record { heap = h'; holds = holds'; pc = put_at s.pc i q }))
          at
          (subst
            (λ (h : Heap A).
              Phase r n (record { heap = h; holds = holds'; pc = put_at s.pc i (after k) }))
            e
            (elim (ℕ_discrete k 1) [
              | yes one ↦
                  let is_last : after k ≡ last = ground arith in
                  ending {items = items} i (omega arith)
                    (subst
                      (λ (q : Pc).
                        (i < n)
                        × (put_at s.pc i q i ≡ last)
                        × ((j : ℕ) → j < n → i ≢ j → put_at s.pc i q j ≡ idle))
                      (sym is_last) (one_at n s.pc i last li (λ j lj _. quiet j lj)))
                    (ground arith) live
              | no more ↦
                  let is_idle : after k ≡ idle = ground arith in
                  shared {items = items} (omega arith) (omega arith)
                    (subst (λ (q : Pc). (j : ℕ) → j < n → put_at s.pc i q j ≡ idle) (sym is_idle)
                      (idle-put_at n s.pc i (λ j lj _. quiet j lj)))
                    (ground arith) live
            ]))
    start-Phase p own run (ending k e at cnt live) = absurd (omega (arith, none_held r n s i li e))
    start-Phase p own run (uncounted k e at cnt live) =
        absurd (omega (arith, none_held r n s i li e))
    start-Phase p own run (gone e at cnt live) = absurd (omega (arith, none_held r n s i li e))

    go-Phase :
        (p q : Pc)
        → 0 < r.alloc
        → s.pc i ≡ p
        → IsBusy p
        → advance r p s.heap ≡ ok q h'
        → Phase r n s
        → Phase r n (record { heap = h'; holds = s.holds; pc = put_at s.pc i q })
    go-Phase p q placed e busy run (shared pos bound quiet cnt live) =
        absurd (not-idle p (sym (quiet i li) ∙ e) busy)
    go-Phase p q placed e busy run (ending {items} k none_left at cnt live) =
        let (same, at_last) = busy_one r n s k i last p li at e busy in
        let run' : advance r last s.heap ≡ ok q h' =
          ap (λ (x : Pc). advance r x s.heap) at_last ∙ run in
        let (q_is, h_is) = ok-injective (last-count r s.heap 0 cnt) run' in
        let others : (j : ℕ) → j < n → i ≢ j → s.pc j ≡ idle =
          λ j lj ne. at.2 j lj (λ e. ne (sym same ∙ e)) in
        subst (λ (x : Pc). Phase r n (record { heap = h'; holds = s.holds; pc = put_at s.pc i x }))
          q_is
          (subst
            (λ (h : Heap A).
              Phase r n (record { heap = h; holds = s.holds; pc = put_at s.pc i counted }))
            h_is
            (uncounted {items = items} i none_left (one_at n s.pc i counted li others)
              (ground arith) live))
    go-Phase p q placed e busy run (uncounted {items} k none_left at cnt live) =
        let (same, at_last) = busy_one r n s k i counted p li at e busy in
        let run' : advance r counted s.heap ≡ ok q h' =
          ap (λ (x : Pc). advance r x s.heap) at_last ∙ run in
        let (q_is, h_is) = ok-injective (counted-block r s.heap items placed live) run' in
        let others : (j : ℕ) → j < n → i ≢ j → s.pc j ≡ idle =
          λ j lj ne. at.2 j lj (λ e. ne (sym same ∙ e)) in
        subst (λ (x : Pc). Phase r n (record { heap = h'; holds = s.holds; pc = put_at s.pc i x }))
          q_is
          (subst
            (λ (h : Heap A).
              Phase r n (record { heap = h; holds = s.holds; pc = put_at s.pc i idle }))
            h_is (gone none_left (idle-put_at n s.pc i others) cnt (ground arith)))
    go-Phase p q placed e busy run (gone none_left quiet cnt live) =
        absurd (not-idle p (sym (quiet i li) ∙ e) busy)

    read-Phase :
        (items : List A)
        → 0 < s.holds i
        → load_block r.alloc s.heap ≡ ok items h'
        → Phase r n s
        → Phase r n (record { heap = h'; holds = s.holds; pc = s.pc })
    read-Phase items own run (shared {items = live_items} pos bound quiet cnt live) =
        let (_, e) = ok-injective (read-block r s.heap live_items live) run in
        subst (λ (h : Heap A). Phase r n (record { heap = h; holds = s.holds; pc = s.pc })) e
          (shared {items = live_items} pos bound quiet cnt live)
    read-Phase items own run (ending k e at cnt live) =
        absurd (omega (arith, none_held r n s i li e))
    read-Phase items own run (uncounted k e at cnt live) =
        absurd (omega (arith, none_held r n s i li e))
    read-Phase items own run (gone e at cnt live) = absurd (omega (arith, none_held r n s i li e))

  -- Every step keeps the invariant.
  pub Step-Phase : {s t : System A} → 0 < r.alloc → Step r n s t → Phase r n s → Phase r n t
  Step-Phase {s} placed (copy {h} {c} i j li lj own few run) =
      copy-Phase s i li h j c lj own few run
  Step-Phase {s} placed (start {h} {p} i li own quiet run) = start-Phase s i li h p own run
  Step-Phase {s} placed (go {h} {p} {q} i li e busy run) = go-Phase s i li h p q placed e busy run
  Step-Phase {s} placed (read {h} {items} i li own run) = read-Phase s i li h items own run

  -- At every point of every interleaving, the count is the number of the references that the threads
  -- hold while there are any; then one thread deletes the count and the block, and no other does. This
  -- is an invariant: it holds wherever it held at the start.
  pub Reach-Phase : {s t : System A} → 0 < r.alloc → Phase r n s → Reach r n s t → Phase r n t
  Reach-Phase placed at here = at
  Reach-Phase placed at (next before st) = Step-Phase placed st (Reach-Phase placed at before)
