-- ===== src/Slice/Safety/Members.antt =====
-- The members of api/slice.hpp that give a variable up or assign it keep every window in its block.
use julelang.Prelude.{
  ℕ, ◌<◌, ◌≡◌, ◌≢◌, inl, inr, refl, ap, ◌∙◌, sym, subst, false, not, arith, ◌==◌, Bool-cases, ◌&&◌,
}
use julelang.Heap.{Heap, ok}
use julelang.Ref
use julelang.Ref.{Ref, nil, take_over}
use julelang.Slice.{Slice, empty_slice, is_nil, destroy, assign}
use julelang.Threads.Family.{put_at, put_at_same, put_at_other}
use julelang.Slice.Safety.{Slices, Inside, Safe, Safe_same, Bounded}
use julelang.Slice.Safety.Access.{has_block}
use julelang.Slice.Safety.Counts.{Cleared, SameFuture, dealloc-Safe}
use julelang.Slice.Safety.Shares.{drop-Safe, take-Safe, rewindow}

-- A variable in which nothing is held.
pub empty_slice-Cleared : Cleared empty_slice
empty_slice-Cleared = record { alloc = refl; len = refl; cap = refl }

module _ {A : Type 0} where
  -- A reference without a block is replaced: its share is given up, then the other one's is taken.
  replace-drop :
      (h h' : Heap A) (old r : Ref)
      → old.alloc ≡ 0
      → Ref.drop old h ≡ ok nil h'
      → Ref.assign old r h ≡ Ref.assign nil r h'
  unfolding Ref.assign take_over Ref.drop
  replace-drop h h' old r e dropped =
      let other : (not (old.alloc == 0) && (old.alloc == r.alloc)) ≡ false = ground arith in
      rw (other, dropped) refl

  pub put_twice :
      (h : Heap A) (n : ℕ) (vars : Slices) (i : ℕ) (s t : Slice)
      → Safe h n (put_at (put_at vars i s) i t)
      → Safe h n (put_at vars i t)
  put_twice h n vars i s t safe =
      Safe_same h n (put_at (put_at vars i s) i t) (put_at vars i t) (λ k lk. ground arith) safe

  module _ (h : Heap A) (n : ℕ) (vars : Slices) (safe : Safe h n vars) (bound : Bounded n) (i : ℕ)
      (li : i < n) where
    -- A slice that `dealloc` has left gives up its share of the count, too.
    pub released :
        (s : Slice) (h' : Heap A)
        → Safe h' n (put_at vars i s)
        → Cleared s
        → (h'' : Heap A) × (Ref.drop s.refs h' ≡ ok nil h'')
          × Safe h'' n (put_at vars i empty_slice)
          × SameFuture h' h''
    released s h' safe' c =
        let here = put_at_same vars i s in
        let (h'', run, safe'', future) =
          drop-Safe h' n (put_at vars i s) safe' bound i li empty_slice empty_slice-Cleared refl
            (subst Cleared (sym here) c) in
        (
          h'',
          ap (λ (t : Slice). Ref.drop t.refs h') (sym here) ∙ run,
          put_twice h'' n vars i s empty_slice safe'',
          future,
        )

    -- The destructor is defined.
    pub destroy-Safe :
        (h' : Heap A) × (destroy (vars i) h ≡ ok tt h')
        × Safe h' n (put_at vars i empty_slice)
        × SameFuture h h'
    unfolding destroy
    destroy-Safe =
        let (s, h', run, safe', c, future) = dealloc-Safe h n vars safe i li in
        let (h'', dropped, safe'', future') = released s h' safe' c in
        (
          h'',
          rw (run, dropped) refl,
          safe'',
          record { next = future'.next ∙ future.next; grants = future'.grants ∙ future.grants },
        )

    -- Assigning another variable is defined, and takes over its window where that has any room.
    pub assign-Safe :
        (j : ℕ)
        → j < n
        → i ≢ j
        → (s : Slice) × (h' : Heap A) × (assign (vars i) (vars j) h ≡ ok s h')
          × Safe h' n (put_at vars i s)
          × (0 < (vars j).cap → (s.len ≡ (vars j).len) × (s.cap ≡ (vars j).cap))
    unfolding assign is_nil Ref.assign
    assign-Safe j lj apart =
        let (s, h1, run, safe1, c, _) = dealloc-Safe h n vars safe i li in
        elim (Bool-cases
          (not ((vars i).refs.alloc == 0) && ((vars i).refs.alloc == (vars j).refs.alloc))) [
            | inl same ↦
                let pos : 0 < (vars i).refs.alloc = ground arith in
                let e : (vars i).refs.alloc ≡ (vars j).refs.alloc = ground arith in
                let e' = (safe.paired i j li lj pos (omega (arith, e))).0 e in
                let both : (vars j).refs ≡ (vars i).refs = ground (arith, e, e') in
                (
                  record (vars j) { refs = (vars i).refs },
                  h,
                  rw same refl,
                  rewindow h n vars safe i li (record (vars j) { refs = (vars i).refs }) refl
                      (subst (λ (r : Ref). Inside h (record (vars j) { refs = r })) both
                        (safe.inside j lj)),
                  λ _. (refl, refl),
                )
            | inr differ ↦ elim (Bool-cases ((vars j).base == 0)) [
              | inl null ↦ (
                s,
                h1,
                rw (differ, run, null) refl,
                safe1,
                λ some_cap.
                    let pos = has_block h (vars j) (safe.inside j lj) some_cap in
                    let based = ((safe.inside j lj).whole pos).1 in
                    absurd (ground (arith, null, pos, based)),
              )
              | inr real ↦
                  let (h2, dropped, safe2, _) = released s h1 safe1 c in
                  let left = put_at vars i empty_slice in
                  let kept : left j ≡ vars j = put_at_other vars i j empty_slice apart in
                  let (h3, taken, safe3, _) =
                    take-Safe h2 n left safe2 bound i j li lj
                      (ap (λ (t : Slice). t.refs) (put_at_same vars i empty_slice)) (vars j)
                      (ap (λ (t : Slice). t.refs) (sym kept))
                      (subst (Inside h2) kept (safe2.inside j lj)) in
                  let replaced : Ref.assign s.refs (vars j).refs h1 ≡ ok (vars j).refs h3 =
                    replace-drop h1 h2 s.refs (vars j).refs c.alloc dropped
                    ∙ ap (λ (t : Slice). Ref.assign nil t.refs h2) (sym kept)
                    ∙ taken
                    ∙ ap (λ (t : Slice). ok t.refs h3) kept in
                  (
                    vars j,
                    h3,
                    rw (differ, run, real, replaced) refl,
                    put_twice h3 n vars i empty_slice (vars j) safe3,
                    λ _. (refl, refl),
                  )
            ]
          ]
