-- ===== src/Slice/Safety/Growth.antt =====
-- `push` of api/slice.hpp on a full slice keeps every window in its block. The new slice is a
-- temporary, one variable more.
use julelang.Prelude.{
  ℕ, suc, ◌+◌, ◌*◌, ◌≤◌, ◌<◌, ◌≡◌, ◌⊎◌, inl, inr, refl, ap, ◌∙◌, sym, subst, true, [], ◌∷◌, arith,
  ◌==◌, ℕ_discrete,
}
use julelang.Panic.{allocation_failed}
use julelang.Heap.{Heap, Cmd, ok, panic, pure, ◌>>=◌, ◌>>◌}
use julelang.Slice
use julelang.Slice.{
  Slice, empty_slice, push, push_grow, alloc_new, copy_range, read_range, write_range, dealloc,
  destroy,
}
use julelang.Threads.Family.{put_at}
use julelang.Slice.Safety.{Slices, Inside, Safe, Safe_same, Safe_more, Safe_less, Bounded}
use julelang.Slice.Safety.Access.{
  Rewritten, Rewritten-trans, read-Inside, write-Inside, Safe-Rewritten, Inside-Rewritten,
}
use julelang.Slice.Safety.Counts.{dealloc-Safe}
use julelang.Slice.Safety.Shares.{rewindow}
use julelang.Slice.Safety.Fresh.{alloc_new-Safe}
use julelang.Slice.Safety.Windows.{push_in_place-Safe}
use julelang.Slice.Safety.Members.{destroy-Safe, assign-Safe}

-- The variables, with one changed, and a temporary behind them.
module _ (n : ℕ) (vars : Slices) (i : ℕ) (li : i < n) where
  abbrev pub with_temporary : Slice → Slice → Slices
  with_temporary s t = put_at (put_at vars i s) n t

  pub at_i : (s t : Slice) → with_temporary s t i ≡ s
  at_i s t = ground arith

  pub at_n : (s t : Slice) → with_temporary s t n ≡ t
  at_n s t = ground arith

module _ {A : Type 0} where
  -- A copy between two windows.
  pub copy-Inside :
      (h : Heap A) (s t : Slice) (m : ℕ)
      → Inside h s
      → Inside h t
      → m ≤ s.cap
      → m ≤ t.cap
      → (h' : Heap A) × (copy_range s.base s.off m t.base t.off h ≡ ok tt h') × Rewritten h h'
  unfolding copy_range
  copy-Inside h s t m from to fits fits' =
      let (xs, read, many) = read-Inside h s 0 m from (omega arith) in
      let (h', run, w) = write-Inside h t 0 xs to (omega (arith, many)) in
      let at : (u : Slice) → u.off + 0 ≡ u.off = λ u. omega arith in
      let read' : read_range s.base s.off m h ≡ ok xs h =
        ap (λ (k : ℕ). read_range s.base k m h) (sym (at s)) ∙ read in
      let run' : write_range t.base t.off xs h ≡ ok tt h' =
        ap (λ (k : ℕ). write_range t.base k xs h) (sym (at t)) ∙ run in
      (h', rw (read', run') refl, w)

  module _ (n : ℕ) (vars : Slices) (i : ℕ) (li : i < n) where
    pub set_i :
        (h : Heap A) (s t s' : Slice)
        → Safe h (suc n) (put_at (with_temporary n vars i li s t) i s')
        → Safe h (suc n) (with_temporary n vars i li s' t)
    set_i h s t s' safe =
        Safe_same h (suc n) (put_at (with_temporary n vars i li s t) i s')
          (with_temporary n vars i li s' t) (λ k lk. ground arith) safe

    pub set_n :
        (h : Heap A) (s t t' : Slice)
        → Safe h (suc n) (put_at (with_temporary n vars i li s t) n t')
        → Safe h (suc n) (with_temporary n vars i li s t')
    set_n h s t t' safe =
        Safe_same h (suc n) (put_at (with_temporary n vars i li s t) n t')
          (with_temporary n vars i li s t') (λ k lk. ground arith) safe

    pub enter :
        (h : Heap A)
        → Safe h n vars
        → Safe h (suc n) (with_temporary n vars i li (vars i) empty_slice)
    enter h safe =
        Safe_same h (suc n) (put_at vars n empty_slice)
          (with_temporary n vars i li (vars i) empty_slice)
          (λ k lk. elim (ℕ_discrete i k) [
            | yes here ↦ let e : vars i ≡ vars k = ap vars here in ground (arith, e)
            | no other ↦ ground arith
          ])
          (Safe_more h n vars safe)

    pub leave :
        (h : Heap A) (s : Slice)
        → Safe h (suc n) (with_temporary n vars i li s empty_slice)
        → Safe h n (put_at vars i s)
    leave h s safe =
        Safe_same h n (with_temporary n vars i li s empty_slice) (put_at vars i s)
          (λ k lk. ground arith)
          (Safe_less h n (with_temporary n vars i li s empty_slice)
            (ap (λ (t : Slice). t.refs.ref) (at_n n vars i li s empty_slice)) safe)

    -- A variable is given up and takes over from the temporary, which ends.
    pub hand_over : Slice → Slice → Cmd A Slice
    hand_over s t = do cleared ← dealloc s; s' ← Slice.assign cleared t; destroy t; pure s'

    hand_over-Safe :
        (h : Heap A) (s t : Slice)
        → Bounded (suc n)
        → Safe h (suc n) (with_temporary n vars i li s t)
        → (s' : Slice) × (h' : Heap A) × (hand_over s t h ≡ ok s' h') × Safe h' n (put_at vars i s')
    unfolding hand_over
    hand_over-Safe h s t bound safe =
        let before = with_temporary n vars i li s t in
        let (c, h1, run1, safe1, _, _) = dealloc-Safe h (suc n) before safe i (omega arith) in
        let middle = with_temporary n vars i li c t in
        let (s', h2, run2, safe2, _) =
          assign-Safe h1 (suc n) middle (set_i h1 s t c safe1) bound i (omega arith) n (omega arith)
            (λ e. absurd (omega (arith, e))) in
        let last = with_temporary n vars i li s' t in
        let (h3, run3, safe3, _) =
          destroy-Safe h2 (suc n) last (set_i h2 c t s' safe2) bound n (omega arith) in
        let first : dealloc s h ≡ ok c h1 =
          ap (λ (u : Slice). dealloc u h) (sym (at_i n vars i li s t)) ∙ run1 in
        let second : Slice.assign c t h1 ≡ ok s' h2 =
          ap (λ (u : Slice). Slice.assign u t h1) (sym (at_i n vars i li c t))
          ∙ ap (λ (u : Slice). Slice.assign (middle i) u h1) (sym (at_n n vars i li c t))
          ∙ run2 in
        let third : destroy t h2 ≡ ok tt h3 =
          ap (λ (u : Slice). destroy u h2) (sym (at_n n vars i li s' t)) ∙ run3 in
        (s', h3, rw (first, second, third) refl, leave h3 s' (set_n h3 s' t empty_slice safe3))

    -- The new items stand in the temporary, which has room for them.
    module _ (fill : A) (h : Heap A) (safe : Safe h n vars) (bound : Bounded (suc n))
        (item : A) where
      abbrev s : Slice
      s = vars i

      abbrev cap : ℕ
      cap = (s.len + 1) * 2

      filled :
          (new : Slice) (h1 : Heap A)
          → Safe h1 (suc n) (with_temporary n vars i li s new)
          → new.len ≡ 0
          → new.cap ≡ cap
          → (h2 : Heap A) × (h3 : Heap A) × (copy_range s.base s.off s.len new.base new.off h1
              ≡ ok tt h2)
            × (write_range new.base (new.off + s.len) (item ∷ []) h2 ≡ ok tt h3)
            × Safe h3 (suc n) (with_temporary n vars i li s (record new { len = s.len + 1 }))
      filled new h1 safe1 len room =
          let from = subst (Inside h1) (at_i n vars i li s new) (safe1.inside i (omega arith)) in
          let to = subst (Inside h1) (at_n n vars i li s new) (safe1.inside n (omega arith)) in
          let (h2, copied, w) =
            copy-Inside h1 s new s.len from to from.within (omega (arith, room)) in
          let to' = Inside-Rewritten h1 h2 new w to in
          let (h3, wrote, w') = write-Inside h2 new s.len (item ∷ []) to' (omega (arith, room)) in
          let to'' = Inside-Rewritten h2 h3 new w' to' in
          let longer : Inside h3 (record new { len = s.len + 1 }) = record {
            within = omega (arith, room);
            empty = to''.empty;
            whole = to''.whole;
            room = to''.room;
          } in
          let before = with_temporary n vars i li s new in
          let safe3 = Safe-Rewritten h1 h3 (suc n) before (Rewritten-trans h1 h2 h3 w w') safe1 in
          (
            h2,
            h3,
            copied,
            wrote,
            set_n h3 s new (record new { len = s.len + 1 })
                (rewindow h3 (suc n) before safe3 n (omega arith) (record new { len = s.len + 1 })
                  (ap (λ (t : Slice). t.refs) (sym (at_n n vars i li s new))) longer),
          )

      -- Growing is defined, or panics for want of memory.
      pub push_grow-Safe :
          ((s' : Slice) × (h' : Heap A) × (push_grow fill s item h ≡ ok s' h')
            × Safe h' n (put_at vars i s'))
          ⊎ ((h' : Heap A) × (push_grow fill s item h ≡ panic allocation_failed h'))
      unfolding push_grow hand_over
      push_grow-Safe =
          let start = with_temporary n vars i li s empty_slice in
          let nothing = ap (λ (t : Slice). t.refs) (at_n n vars i li s empty_slice) in
          elim (alloc_new-Safe fill h (suc n) start (enter h safe) n (omega arith) nothing 0 cap
            (omega arith)) [
              | inr (h', failed) ↦ inr (h', rw failed refl)
              | inl (h1, new, run, safe1, len, room) ↦
                  let (h2, h3, copied, wrote, safe3) =
                    filled new h1 (set_n h1 s empty_slice new safe1) len room in
                  let (s', h4, handed, safe4) =
                    hand_over-Safe h3 s (record new { len = s.len + 1 }) bound safe3 in
                  inl (s', h4, rw (run, copied, wrote) handed, safe4)
            ]

      -- Pushing is defined, or panics for want of memory.
      pub push-Safe :
          ((s' : Slice) × (h' : Heap A) × (push fill s item h ≡ ok s' h')
            × Safe h' n (put_at vars i s'))
          ⊎ ((h' : Heap A) × (push fill s item h ≡ panic allocation_failed h'))
      unfolding push
      push-Safe = elim (ℕ_discrete s.len s.cap) [
        | yes full ↦
            let at_cap : (s.len == s.cap) ≡ true = ground arith in
            elim push_grow-Safe [
              | inl (s', h', run, safe') ↦ inl (s', h', rw at_cap run, safe')
              | inr (h', failed) ↦ inr (h', rw at_cap failed)
            ]
        | no room ↦ inl (push_in_place-Safe h n vars safe (omega arith) fill i item li room)
      ]
