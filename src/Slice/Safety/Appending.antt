-- ===== src/Slice/Safety/Appending.antt =====
-- `append` and `copy` of api/builtin.hpp keep every window in its block. Of n variables, p is the
-- parameter `src`, a slice of its own, q is where the result goes, and k is `components`.
use julelang.Prelude.{
  ℕ, suc, ◌+◌, ◌≤◌, ◌<◌, ◌≡◌, ◌≢◌, ◌⊎◌, inl, inr, refl, ap, ◌∙◌, sym, subst, true, false, arith,
  ◌==◌, ◌&&◌, ◌||◌, ℕ_discrete, Bool-cases,
}
use julelang.Panic.{allocation_failed}
use julelang.Heap.{Heap, ok, panic, ◌>>◌}
use julelang.Slice
use julelang.Slice.{
  Slice, empty_slice, is_nil, is_empty, copy_range, read_range, write_range, destroy,
}
use julelang.Builtin.{copy, copy_len, give, append}
use julelang.Threads.Family.{put_at, put_at_same, put_at_other}
use julelang.Slice.Safety.{Slices, Inside, Safe, Safe_same, Bounded}
use julelang.Slice.Safety.Access.{
  Rewritten, read-Inside, write-Inside, Inside-Rewritten, Safe-Rewritten,
}
use julelang.Slice.Safety.Shares.{rewindow}
use julelang.Slice.Safety.Members.{destroy-Safe, assign-Safe}
use julelang.Slice.Safety.Growth.{copy-Inside}
use julelang.Slice.Safety.Reserve.{reserve-Safe}

-- The parameter ends, and the result is there.
abbrev pub given : ℕ → ℕ → Slices → Slice → Slices
given p q vars r = put_at (put_at vars p empty_slice) q r

module _ {A : Type 0} where
  -- A copy between two windows, behind the first k items of the second.
  copy_behind :
      (h : Heap A) (s t : Slice) (k m : ℕ)
      → Inside h s
      → Inside h t
      → m ≤ s.cap
      → k + m ≤ t.cap
      → (h' : Heap A) × (copy_range s.base s.off m t.base (t.off + k) h ≡ ok tt h') × Rewritten h h'
  unfolding copy_range
  copy_behind h s t k m from to fits fits' =
      let (xs, read, many) = read-Inside h s 0 m from (omega arith) in
      let (h', run, w) = write-Inside h t k xs to (omega (arith, many)) in
      let at : s.off + 0 ≡ s.off = omega arith in
      let read' : read_range s.base s.off m h ≡ ok xs h =
        ap (λ (o : ℕ). read_range s.base o m h) (sym at) ∙ read in
      (h', rw (read', run) refl, w)

  -- `copy` between two variables is defined.
  pub copy-Safe :
      (h : Heap A) (n : ℕ) (vars : Slices)
      → Safe h n vars
      → (i j : ℕ) → i < n
      → j < n
      → (m : ℕ) × (h' : Heap A) × (copy (vars i) (vars j) h ≡ ok m h') × Safe h' n vars
  unfolding copy
  copy-Safe h n vars safe i j li lj = elim (Bool-cases (is_empty (vars i) || is_empty (vars j))) [
    | inl nothing ↦ (0, h, rw nothing refl, safe)
    | inr some ↦
        let m = copy_len (vars i).len (vars j).len in
        let to = safe.inside i li in
        let from = safe.inside j lj in
        let (h', run, w) =
          copy-Inside h (vars j) (vars i) m from to (ground (arith, from.within))
            (ground (arith, to.within)) in
        (m, h', rw (some, run) refl, Safe-Rewritten h h' n vars w safe)
  ]

  module _ (n : ℕ) (p q : ℕ) (lp : p < n) (lq : q < n) (apart : p ≢ q) where
    -- Returning the parameter is defined.
    give-Safe :
        (h : Heap A) (vars : Slices)
        → Bounded n
        → Safe h n vars
        → vars q ≡ empty_slice
        → (r : Slice) × (h' : Heap A) × (give (vars p) h ≡ ok r h') × Safe h' n (given p q vars r)
    unfolding give
    give-Safe h vars bound safe free =
        let (r, h1, run1, safe1, _) =
          assign-Safe h n vars safe bound q lq p lp (λ e. apart (sym e)) in
        let both = put_at vars q r in
        let same : both p ≡ vars p = put_at_other vars q p r (λ e. apart (sym e)) in
        let (h2, run2, safe2, _) = destroy-Safe h1 n both safe1 bound p lp in
        let first : Slice.assign empty_slice (vars p) h ≡ ok r h1 =
          ap (λ (u : Slice). Slice.assign u (vars p) h) (sym free) ∙ run1 in
        let second : destroy (vars p) h1 ≡ ok tt h2 =
          ap (λ (u : Slice). destroy u h1) (sym same) ∙ run2 in
        (
          r,
          h2,
          rw (first, second) refl,
          Safe_same h2 n (put_at both p empty_slice) (given p q vars r)
              (λ k lk. ground (arith, apart)) safe2,
        )

    -- The components are written behind the items of a parameter with room for them.
    filled :
        (h : Heap A) (vars : Slices) (room : Slice) (k : ℕ)
        → Bounded n
        → Safe h n (put_at vars p room)
        → k < n
        → p ≢ k
        → vars q ≡ empty_slice
        → room.len + (vars k).len ≤ room.cap
        → (r : Slice) × (h' : Heap A) × ((copy_range
                  (vars k).base
                  (vars k).off
                  (vars k).len
                  room.base
                  (room.off + room.len)
                >> give (record room { len = room.len + (vars k).len }))
              h
            ≡ ok r h')
          × Safe h' n (given p q vars r)
    filled h vars room k bound safe lk other free fits =
        let before = put_at vars p room in
        let here = put_at_same vars p room in
        let there = put_at_other vars p k room other in
        let from = subst (Inside h) there (safe.inside k lk) in
        let to = subst (Inside h) here (safe.inside p lp) in
        let (h1, copied, w) =
          copy_behind h (vars k) room room.len (vars k).len from to from.within fits in
        let to' = Inside-Rewritten h h1 room w to in
        let longer = record room { len = room.len + (vars k).len } in
        let inside : Inside h1 longer = record {
          within = fits;
          empty = to'.empty;
          whole = to'.whole;
          room = to'.room;
        } in
        let safe1 =
          rewindow h1 n before (Safe-Rewritten h h1 n before w safe) p lp longer
            (ap (λ (t : Slice). t.refs) (sym here)) inside in
        let after = put_at before p longer in
        let free' : after q ≡ empty_slice = ground (arith, apart, free) in
        let (r, h2, run, safe2) = give-Safe h1 after bound safe1 free' in
        let run' : give longer h1 ≡ ok r h2 =
          ap (λ (u : Slice). give u h1) (sym (put_at_same before p longer)) ∙ run in
        (
          r,
          h2,
          rw (copied, run') refl,
          Safe_same h2 n (given p q after r) (given p q vars r) (λ l ll. ground arith) safe2,
        )

    -- Appending is defined, or panics for want of memory.
    pub append-Safe :
        (fill : A) (h : Heap A) (vars : Slices) (k : ℕ)
        → Bounded (suc n)
        → Safe h n vars
        → k < n
        → p ≢ k
        → vars q ≡ empty_slice
        → ((r : Slice) × (h' : Heap A) × (append fill (vars p) (vars k) h ≡ ok r h')
            × Safe h' n (given p q vars r))
          ⊎ ((h' : Heap A) × (append fill (vars p) (vars k) h ≡ panic allocation_failed h'))
    unfolding append
    append-Safe fill h vars k bound safe lk other free =
        let few : Bounded n = omega (arith, bound) in
        elim (Bool-cases (is_nil (vars p) && is_nil (vars k))) [
          | inl both ↦
              let (h', run, safe', _) = destroy-Safe h n vars safe few p lp in
              inl (
                empty_slice,
                h',
                rw (both, run) refl,
                Safe_same h' n (put_at vars p empty_slice) (given p q vars empty_slice)
                    (λ l ll. elim (ℕ_discrete q l) [
                      | yes here ↦
                          let e : vars l ≡ empty_slice = ap vars (sym here) ∙ free in
                          ground (arith, e, apart)
                      | no away ↦ ground arith
                    ])
                    safe',
              )
          | inr some ↦ elim (ℕ_discrete (vars k).len 0) [
            | yes none ↦
                let (r, h', run, safe') = give-Safe h vars few safe free in
                let zero_len : ((vars k).len == 0) ≡ true = ground arith in
                inl (r, h', rw (some, zero_len) run, safe')
            | no items ↦
                let some_len : ((vars k).len == 0) ≡ false = ground arith in
                elim (reserve-Safe n vars p lp fill h safe bound (vars k).len) [
                  | inr (h', failed) ↦ inr (h', rw (some, some_len, failed) refl)
                  | inl (room, h1, run, safe1, same_len, fits) ↦
                      let (r, h2, run2, safe2) =
                        filled h1 vars room k few safe1 lk other free
                          (omega (arith, same_len, fits)) in
                      inl (r, h2, rw (some, some_len, run) run2, safe2)
                ]
          ]
        ]
