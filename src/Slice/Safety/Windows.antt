-- ===== src/Slice/Safety/Windows.antt =====
-- The members of api/slice.hpp that make a window smaller or larger keep it in its block.
use julelang.Prelude.{
  ℕ, ◌+◌, ◌-◌, ◌≤◌, ◌<◌, ◌≡◌, ◌≢◌, ◌⊎◌, inl, inr, refl, false, [], ◌∷◌, length, arith, ◌==◌,
  Bool-cases, ◌||◌, ltb,
}
use julelang.Prelude.Int.{ℤ, pos, negsuc}
use julelang.Panic.{Error, invalid_memory, slicing_out_of_range}
use julelang.Heap.{Heap, ok, panic}
use julelang.Ref.{nil}
use julelang.Slice.{Slice, is_nil, check, slice, push}
use julelang.Threads.Family.{put_at}
use julelang.Slice.Safety.{Slices, Inside, Safe, Bounded}
use julelang.Slice.Safety.Access.{write-Inside, Safe-Rewritten, Inside-Rewritten}
use julelang.Slice.Safety.Shares.{take-Safe, rewindow}

module _ {A : Type 0} (h : Heap A) (n : ℕ) (vars : Slices) (safe : Safe h n vars)
    (bound : Bounded n) where
  -- The part between two positions.
  abbrev part : Slice → ℕ → ℕ → Slice
  part s a b = record {
    refs = s.refs;
    base = s.base;
    off = s.off + a;
    len = b - a;
    cap = s.cap - a;
  }

  part-Inside : (s : Slice) (a b : ℕ) → a ≤ b → b ≤ s.len → Inside h s → Inside h (part s a b)
  part-Inside s a b ab bl inside = record {
    within = omega (arith, inside.within);
    empty = λ e. omega (arith, inside.empty e);
    whole = inside.whole;
    room = λ real.
        let (items, live, fits) = inside.room real in
        (items, live, omega (arith, inside.within, fits));
  }

  -- Slicing into a variable without a reference is defined, or panics.
  pub slice-Safe :
      (i j : ℕ)
      → i < n
      → j < n
      → (vars i).refs ≡ nil
      → (start end : ℤ)
      → ((s : Slice) × (h' : Heap A) × (slice (vars j) start end h ≡ ok s h')
          × Safe h' n (put_at vars i s))
        ⊎ ((e : Error) × (slice (vars j) start end h ≡ panic e h))
  unfolding slice check is_nil
  slice-Safe i j li lj empty (negsuc a) end = inr (elim (Bool-cases ((vars j).base == 0)) [
    | inl null ↦ (invalid_memory, ground arith)
    | inr real ↦ (slicing_out_of_range (negsuc a) end, ground arith)
  ])
  slice-Safe i j li lj empty (pos a) (negsuc b) = inr (elim (Bool-cases ((vars j).base == 0)) [
    | inl null ↦ (invalid_memory, ground arith)
    | inr real ↦ (slicing_out_of_range (pos a) (negsuc b), ground arith)
  ])
  slice-Safe i j li lj empty (pos a) (pos b) = elim (Bool-cases ((vars j).base == 0)) [
    | inl null ↦ inr (invalid_memory, ground arith)
    | inr real ↦ elim (Bool-cases (ltb b a || ltb (vars j).len b)) [
      | inl out ↦ inr (slicing_out_of_range (pos a) (pos b), ground arith)
      | inr within ↦
          let ab : a ≤ b = ground arith in
          let bl : b ≤ (vars j).len = ground arith in
          let t = part (vars j) a b in
          let (h', run, safe', _) =
            take-Safe h n vars safe bound i j li lj empty t refl
              (part-Inside (vars j) a b ab bl (safe.inside j lj)) in
          inl (t, h', ground (arith, run), safe')
    ]
  ]

  -- Pushing where there is capacity is defined.
  pub push_in_place-Safe :
      (fill : A) (i : ℕ) (item : A)
      → i < n
      → (vars i).len ≢ (vars i).cap
      → (s : Slice) × (h' : Heap A) × (push fill (vars i) item h ≡ ok s h')
        × Safe h' n (put_at vars i s)
  unfolding push
  push_in_place-Safe fill i item li room =
      let inside = safe.inside i li in
      let one : (vars i).len + length (item ∷ []) ≤ (vars i).cap = omega (arith, inside.within) in
      let (h', run, w) = write-Inside h (vars i) (vars i).len (item ∷ []) inside one in
      let inside' = Inside-Rewritten h h' (vars i) w inside in
      let longer : Inside h' (record (vars i) { len = (vars i).len + 1 }) = record {
        within = omega arith;
        empty = inside'.empty;
        whole = inside'.whole;
        room = inside'.room;
      } in
      let full : ((vars i).len == (vars i).cap) ≡ false = ground arith in
      (
        record (vars i) { len = (vars i).len + 1 },
        h',
        rw (full, run) refl,
        rewindow h' n vars (Safe-Rewritten h h' n vars w safe) i li
            (record (vars i) { len = (vars i).len + 1 }) refl longer,
      )
