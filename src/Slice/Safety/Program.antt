-- ===== src/Slice/Safety/Program.antt =====
-- Programs over n variables of type `jule::Slice<Item>` (api/slice.hpp): no member touches memory
-- that is not allocated, however windows, owners and the end of scopes follow each other.
use julelang.Prelude.{
  ℕ, suc, ◌<◌, ◌≡◌, ◌≢◌, inl, inr, refl, ap, ap₂, ◌∙◌, sym, subst, Bool, List, [], ◌∷◌, arith, ltb,
  Bool-cases,
}
use julelang.Prelude.Int.{ℤ}
use julelang.Panic.{slice_len_above_cap, allocation_failed}
use julelang.Heap.{Heap, Cmd, ok, ◌>>◌}
use julelang.Ref.Ownership.{counted}
use julelang.Slice.{Slice, empty_slice, alloc, assign, assign_nil, slice, destroy}
use julelang.Threads.Family.{put_at, put_at_same, put_at_other}
use julelang.Slice.Safety.{Slices, Safe, Bounded, holders_none}
use julelang.Slice.Safety.Counts.{dealloc-Safe}
use julelang.Slice.Safety.Fresh.{alloc_new-Safe}
use julelang.Slice.Safety.Windows.{slice-Safe}
use julelang.Slice.Safety.Members.{destroy-Safe, assign-Safe, put_twice}
use julelang.Slice.Safety.Appending.{given, copy-Safe, append-Safe}
use julelang.Slice.Safety.Indexing.{read-Fine, write-Fine}
use julelang.Builtin.{append}
use julelang.Slice.Safety.{Safe_more, Safe_less, Safe_same}
use julelang.Heap.{◌>>=◌}
use julelang.Slice.Safety.Growth.{push-Safe}
use julelang.Slice.Safety.Statements.{
  Op, make_slice, copy_slice, cut_slice, assign_slice, push_item, append_items, copy_items,
  read_item, write_item, reset_slice, end_scope, Names, AllNames, into, step, run, Fine,
  nothing_allocated, no_slices,
}

module _ {A : Type 0} where
  module _ (fill : A) (n : ℕ) (vars : Slices) (bound : Bounded (suc (suc n))) (h : Heap A)
      (safe : Safe h n vars) where
    few : Bounded n
    few = omega (arith, bound)

    -- What follows the end of what variable i held.
    after_end :
        (i : ℕ)
        → i < n
        → (m : Cmd A Slices)
        → ((h' : Heap A) → Safe h' n (put_at vars i empty_slice) → Fine n (m h'))
        → Fine n ((destroy (vars i) >> m) h)
    after_end i li m rest =
        let (h', run, safe', _) = destroy-Safe h n vars safe few i li in
        subst (Fine n) (sym (rw run refl)) (rest h' safe')

    make-Fine : (i len capacity : ℕ) → i < n → Fine n (step fill (make_slice i len capacity) vars h)
    unfolding step alloc
    make-Fine i len capacity li = after_end i li (into vars i (alloc fill len capacity)) λ h' safe'.
        elim (Bool-cases (ltb capacity len)) [
          | inl over ↦ inr (slice_len_above_cap, h', rw over refl)
          | inr fits ↦
              let nothing = ap (λ (t : Slice). t.refs) (put_at_same vars i empty_slice) in
              elim (alloc_new-Safe fill h' n (put_at vars i empty_slice) safe' i li nothing len
                capacity (ground arith)) [
                  | inl (h'', s, run, safe'', _, _) ↦ inl (
                    put_at vars i s,
                    h'',
                    rw (fits, run) refl,
                    put_twice h'' n vars i empty_slice s safe'',
                  )
                  | inr (h'', failed) ↦ inr (allocation_failed, h'', rw (fits, failed) refl)
                ]
        ]

    copy-Fine : (i j : ℕ) → i < n → j < n → i ≢ j → Fine n (step fill (copy_slice i j) vars h)
    unfolding step
    copy-Fine i j li lj apart =
        after_end i li (into vars i (assign empty_slice (vars j))) λ h' safe'.
          let left = put_at vars i empty_slice in
          let (s, h'', run, safe'', _) = assign-Safe h' n left safe' few i li j lj apart in
          let here = put_at_same vars i empty_slice in
          let there = put_at_other vars i j empty_slice apart in
          let run' : assign empty_slice (vars j) h' ≡ ok s h'' =
            ap (λ (t : Slice). assign t (vars j) h') (sym here)
            ∙ ap (λ (t : Slice). assign (left i) t h') (sym there)
            ∙ run in
          inl (put_at vars i s, h'', rw run' refl, put_twice h'' n vars i empty_slice s safe'')

    cut-Fine :
        (i j : ℕ) (start end : ℤ)
        → i < n
        → j < n
        → i ≢ j
        → Fine n (step fill (cut_slice i j start end) vars h)
    unfolding step
    cut-Fine i j start end li lj apart =
        after_end i li (into vars i (slice (vars j) start end)) λ h' safe'.
          let left = put_at vars i empty_slice in
          let nothing = ap (λ (t : Slice). t.refs) (put_at_same vars i empty_slice) in
          let there = put_at_other vars i j empty_slice apart in
          let moved = ap (λ (t : Slice). slice t start end h') (sym there) in
          elim (slice-Safe h' n left safe' few i j li lj nothing start end) [
            | inl (s, h'', run, safe'') ↦ inl (
              put_at vars i s,
              h'',
              rw (moved ∙ run) refl,
              put_twice h'' n vars i empty_slice s safe'',
            )
            | inr (e, failed) ↦ inr (e, h', rw (moved ∙ failed) refl)
          ]

    push-Fine : (i : ℕ) (item : A) → i < n → Fine n (step fill (push_item i item) vars h)
    unfolding step
    push-Fine i item li = elim (push-Safe n vars i li fill h safe (omega (arith, bound)) item) [
      | inl (s, h', run, safe') ↦ inl (put_at vars i s, h', rw run refl, safe')
      | inr (h', failed) ↦ inr (allocation_failed, h', rw failed refl)
    ]

    -- The temporary behind the variables has ended.
    narrow :
        (h' : Heap A) (i : ℕ)
        → i < n
        → (src r : Slice)
        → Safe h'
            (suc n)
            (given n i (put_at (put_at (put_at vars i empty_slice) n empty_slice) n src) r)
        → Safe h' n (put_at vars i r)
    narrow h' i li src r safe' =
        let all = given n i (put_at (put_at (put_at vars i empty_slice) n empty_slice) n src) r in
        let unheld : (all n).refs.ref ≡ 0 = ground arith in
        Safe_same h' n all (put_at vars i r) (λ k lk. ground arith)
          (Safe_less h' n all unheld safe')

    append-Fine :
        (i j k : ℕ)
        → i < n
        → j < n
        → k < n
        → i ≢ j
        → i ≢ k
        → Fine n (step fill (append_items i j k) vars h)
    unfolding step
    append-Fine i j k li lj lk apart apart' =
        after_end i li
          (into vars i (assign empty_slice (vars j) >>= λ src. append fill src (vars k)))
          λ h' safe'.
            let left = put_at vars i empty_slice in
            let wide = put_at left n empty_slice in
            let (src, h1, run, safe1, _) =
              assign-Safe h' (suc n) wide (Safe_more h' n left safe') (omega (arith, bound)) n
                (omega arith) j (omega arith) (λ e. absurd (omega (arith, e, lj))) in
            let all = put_at wide n src in
            let first : assign empty_slice (vars j) h' ≡ ok src h1 =
              ap₂ (λ (t u : Slice). assign t u h') (sym (put_at_same left n empty_slice))
                (ground (arith, apart))
              ∙ run in
            let here : all n ≡ src = put_at_same wide n src in
            let there : all k ≡ vars k = ground (arith, apart') in
            let free : all i ≡ empty_slice = ground arith in
            elim (append-Safe (suc n) n i (omega arith) (omega arith)
              (λ e. absurd (omega (arith, e, li))) fill h1 all k bound safe1 (omega arith)
              (λ e. absurd (omega (arith, e, lk))) free) [
                | inr (h2, failed) ↦
                    let failed' =
                      ap₂ (λ (t u : Slice). append fill t u h1) (sym here) (sym there) ∙ failed in
                    inr (allocation_failed, h2, rw (first, failed') refl)
                | inl (r, h2, run2, safe2) ↦
                    let run2' =
                      ap₂ (λ (t u : Slice). append fill t u h1) (sym here) (sym there) ∙ run2 in
                    inl (put_at vars i r, h2, rw (first, run2') refl, narrow h2 i li src r safe2)
              ]

    copy_items-Fine : (i j : ℕ) → i < n → j < n → Fine n (step fill (copy_items i j) vars h)
    unfolding step
    copy_items-Fine i j li lj =
        let (m, h', run, safe') = copy-Safe h n vars safe i j li lj in
        inl (vars, h', rw run refl, safe')

    -- One statement.
    pub step-Fine : (op : Op A) → Names n op → Fine n (step fill op vars h)
    unfolding step assign_nil
    step-Fine (make_slice i len capacity) li = make-Fine i len capacity li
    step-Fine (copy_slice i j) (li, lj, apart) = copy-Fine i j li lj apart
    step-Fine (cut_slice i j start end) (li, lj, apart) = cut-Fine i j start end li lj apart
    step-Fine (assign_slice i j) (li, lj, apart) =
        let (s, h', run, safe', _) = assign-Safe h n vars safe few i li j lj apart in
        inl (put_at vars i s, h', rw run refl, safe')
    step-Fine (push_item i item) li = push-Fine i item li
    step-Fine (append_items i j k) (li, lj, lk, apart, apart') =
        append-Fine i j k li lj lk apart apart'
    step-Fine (copy_items i j) (li, lj) = copy_items-Fine i j li lj
    step-Fine (read_item i index) li = read-Fine fill n vars h safe i index li
    step-Fine (write_item i index item) li = write-Fine fill n vars h safe i index item li
    step-Fine (reset_slice i) li =
        let (s, h', run, safe', _, _) = dealloc-Safe h n vars safe i li in
        inl (put_at vars i s, h', rw run refl, safe')
    step-Fine (end_scope i) li =
        let (h', run, safe', _) = destroy-Safe h n vars safe few i li in
        inl (put_at vars i empty_slice, h', rw run refl, safe')

  -- Any program whose statements make, copy, slice and assign n slices, n below 2^64 - 5, push, append
  -- and copy items, read and write items by index, reset slices and end them, returns with every window
  -- inside an allocated block, or panics: it never touches memory that is freed or was never
  -- allocated, and never frees twice. This holds from any state in which every window is inside its
  -- block and every count is exact.
  pub run-Safe :
      (fill : A) (n : ℕ) (ops : List (Op A)) (vars : Slices) (h : Heap A)
      → Bounded (suc (suc n))
      → AllNames n ops
      → Safe h n vars
      → Fine n (run fill ops vars h)
  unfolding run
  run-Safe fill n [] vars h bound names safe = inl (vars, h, refl, safe)
  run-Safe fill n (op ∷ ops) vars h bound (named, names) safe =
      elim (step-Fine fill n vars bound h safe op named) [
        | inl (vars', h', e, safe') ↦
            subst (Fine n) (sym (rw e refl)) (run-Safe fill n ops vars' h' bound names safe')
        | inr (e, h', failed) ↦ inr (e, h', rw failed refl)
      ]

  -- Before the first statement nothing is held.
  pub initial-Safe :
      (grants : ℕ → Bool) (n : ℕ) → Safe (nothing_allocated {A = A} grants) n no_slices
  initial-Safe grants n = record {
    counts = λ p some_p.
        sym (ap counted (holders_none p n no_slices λ j lj e. absurd (omega (arith, e, some_p))));
    paired = λ i j li lj pi pj. absurd (omega (arith, pi));
    inside = λ i li. record {
      within = omega arith;
      empty = λ _. refl;
      whole = λ pos. absurd (omega (arith, pos));
      room = λ pos. absurd (omega (arith, pos));
    };
    fresh = λ i li. (omega arith, omega arith);
  }
