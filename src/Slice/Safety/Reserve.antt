-- ===== src/Slice/Safety/Reserve.antt =====
-- Room for the items that `append` of api/builtin.hpp adds: a larger slice is a temporary, one variable
-- more, which the parameter takes over.
use julelang.Prelude.{
  ℕ, suc, ◌+◌, ◌*◌, ◌≤◌, ◌<◌, ◌≡◌, ◌⊎◌, inl, inr, refl, ap, ◌∙◌, sym, subst, false, arith, ltb,
  ℕ_discrete, Bool-cases,
}
use julelang.Panic.{allocation_failed}
use julelang.Heap.{Heap, Cmd, ok, panic, pure, ◌>>=◌, ◌>>◌}
use julelang.Slice
use julelang.Slice.{Slice, empty_slice, alloc, alloc_new, copy_range, destroy}
use julelang.Builtin.{alloc_for_append, reserve}
use julelang.Threads.Family.{put_at}
use julelang.Slice.Safety.{Slices, Inside, Safe, Safe_same, Bounded}
use julelang.Slice.Safety.Access.{Inside-Rewritten, Safe-Rewritten}
use julelang.Slice.Safety.Shares.{rewindow}
use julelang.Slice.Safety.Fresh.{alloc_new-Safe}
use julelang.Slice.Safety.Members.{destroy-Safe, assign-Safe}
use julelang.Slice.Safety.Growth.{
  with_temporary, at_i, at_n, copy-Inside, set_i, set_n, enter, leave,
}

module _ {A : Type 0} (n : ℕ) (vars : Slices) (i : ℕ) (li : i < n) where
  -- The parameter takes over the temporary, which ends.
  pub take_temporary : Slice → Slice → Cmd A Slice
  take_temporary s t = do s' ← Slice.assign s t; destroy t; pure s'

  take_temporary-Safe :
      (h : Heap A) (s t : Slice)
      → Bounded (suc n)
      → Safe h (suc n) (with_temporary n vars i li s t)
      → 0 < t.cap
      → (s' : Slice) × (h' : Heap A) × (take_temporary s t h ≡ ok s' h')
        × Safe h' n (put_at vars i s')
        × (s'.len ≡ t.len)
        × (s'.cap ≡ t.cap)
  unfolding take_temporary
  take_temporary-Safe h s t bound safe some_cap =
      let before = with_temporary n vars i li s t in
      let there = at_n n vars i li s t in
      let (s', h1, run1, safe1, taken) =
        assign-Safe h (suc n) before safe bound i (omega arith) n (omega arith)
          (λ e. absurd (omega (arith, e))) in
      let (same_len, same_cap) = taken (subst (λ (u : Slice). 0 < u.cap) (sym there) some_cap) in
      let last = with_temporary n vars i li s' t in
      let (h2, run2, safe2, _) =
        destroy-Safe h1 (suc n) last (set_i n vars i li h1 s t s' safe1) bound n (omega arith) in
      let first : Slice.assign s t h ≡ ok s' h1 =
        ap (λ (u : Slice). Slice.assign u t h) (sym (at_i n vars i li s t))
        ∙ ap (λ (u : Slice). Slice.assign (before i) u h) (sym there)
        ∙ run1 in
      let second : destroy t h1 ≡ ok tt h2 =
        ap (λ (u : Slice). destroy u h1) (sym (at_n n vars i li s' t)) ∙ run2 in
      (
        s',
        h2,
        rw (first, second) refl,
        leave n vars i li h2 s' (set_n n vars i li h2 s' t empty_slice safe2),
        same_len ∙ ap (λ (u : Slice). u.len) there,
        same_cap ∙ ap (λ (u : Slice). u.cap) there,
      )

  module _ (fill : A) (h : Heap A) (safe : Safe h n vars) (bound : Bounded (suc n)) (m : ℕ) where
    abbrev s : Slice
    s = vars i

    abbrev cap : ℕ
    cap = (s.len + m) * 2

    -- The temporary with the old items.
    larger :
        (new : Slice) (h1 : Heap A)
        → Safe h1 (suc n) (with_temporary n vars i li s new)
        → new.cap ≡ cap
        → (h2 : Heap A) × (copy_range s.base s.off s.len new.base new.off h1 ≡ ok tt h2)
          × Safe h2 (suc n) (with_temporary n vars i li s (record new { len = s.len }))
    larger new h1 safe1 room =
        let before = with_temporary n vars i li s new in
        let from = subst (Inside h1) (at_i n vars i li s new) (safe1.inside i (omega arith)) in
        let to = subst (Inside h1) (at_n n vars i li s new) (safe1.inside n (omega arith)) in
        let (h2, copied, w) =
          copy-Inside h1 s new s.len from to from.within (omega (arith, room)) in
        let to' = Inside-Rewritten h1 h2 new w to in
        let longer : Inside h2 (record new { len = s.len }) = record {
          within = omega (arith, room);
          empty = to'.empty;
          whole = to'.whole;
          room = to'.room;
        } in
        (
          h2,
          copied,
          set_n n vars i li h2 s new (record new { len = s.len })
              (rewindow h2 (suc n) before (Safe-Rewritten h1 h2 (suc n) before w safe1) n
                (omega arith) (record new { len = s.len })
                (ap (λ (t : Slice). t.refs) (sym (at_n n vars i li s new))) longer),
        )

    -- Reserving is defined, or panics for want of memory; the items stay, with room for m more.
    pub reserve-Safe :
        ((s' : Slice) × (h' : Heap A) × (reserve fill s m h ≡ ok s' h')
          × Safe h' n (put_at vars i s')
          × (s'.len ≡ s.len)
          × (s.len + m ≤ s'.cap))
        ⊎ ((h' : Heap A) × (reserve fill s m h ≡ panic allocation_failed h'))
    unfolding reserve alloc_for_append alloc take_temporary
    reserve-Safe = elim (Bool-cases (ltb s.cap (s.len + m))) [
      | inr enough ↦ inl (
        s,
        h,
        rw enough refl,
        Safe_same h n vars (put_at vars i s)
            (λ k lk. elim (ℕ_discrete i k) [
              | yes here ↦ let e : vars i ≡ vars k = ap vars here in ground (arith, e)
              | no other ↦ ground arith
            ])
            safe,
        refl,
        ground (arith, enough),
      )
      | inl small ↦
          let start = with_temporary n vars i li s empty_slice in
          let nothing = ap (λ (t : Slice). t.refs) (at_n n vars i li s empty_slice) in
          let ordered : ltb cap 0 ≡ false = ground arith in
          elim (alloc_new-Safe fill h (suc n) start (enter n vars i li h safe) n (omega arith)
            nothing 0 cap (omega arith)) [
              | inr (h', failed) ↦ inr (h', rw (small, ordered, failed) refl)
              | inl (h1, new, run, safe1, len, room) ↦
                  let (h2, copied, safe2) =
                    larger new h1 (set_n n vars i li h1 s empty_slice new safe1) room in
                  let (s', h3, taken, safe3, same_len, same_cap) =
                    take_temporary-Safe h2 s (record new { len = s.len }) bound safe2
                      (ground (arith, room, small)) in
                  inl (
                    s',
                    h3,
                    rw (small, ordered, run, copied) taken,
                    safe3,
                    same_len,
                    omega (arith, same_cap, room),
                  )
            ]
    ]
