-- ===== src/Slice/Sharing.antt =====
-- Slices of api/slice.hpp that share their items: the result of `slice` and the slice it is from.
use julelang.Prelude.{
  ℕ, ◌+◌, ◌-◌, ◌^◌, ◌<◌, ◌≡◌, refl, ap, ◌∙◌, sym, subst, some, List, ◌∷◌, ◌++◌, arith, length,
  length-append, append_assoc,
}
use julelang.Prelude.Int.{pos}
use julelang.Heap.{Heap, ok, put}
use julelang.Slice.{Slice, check, check_index, set_at, slice, is_nil, is_empty}
use julelang.Ref.Assign.{assign-nil}
use julelang.Slice.Items.{Holds, At-inner, set_at-Holds}

module _ {A : Type 0} where
  -- The slice of `length m` items behind the first `length l` ones, and memory with its owner.
  abbrev pub part : Slice → List A → List A → Slice
  part s l m = record {
    refs = s.refs;
    base = s.base;
    off = s.off + length l;
    len = length m;
    cap = s.cap - length l;
  }

  abbrev pub one_more : Heap A → Slice → ℕ → Heap A
  one_more h s n = record h { count = put h.count s.refs.ref (some (n + 1)) }

  slice-part :
      (h : Heap A) (s : Slice) (l m r : List A) (n : ℕ)
      → Holds h s (l ++ (m ++ r))
      → 0 < s.refs.ref
      → h.count s.refs.ref ≡ some n
      → n < 2 ^ 64 - 1
      → slice s (pos (length l)) (pos (length l + length m)) h ≡ ok (part s l m) (one_more h s n)
  unfolding slice check is_nil
  slice-part h s l m r n holds counted e few = ground (
    arith,
    assign-nil h s.refs n counted e few,
    holds.real,
    length-append l (m ++ r),
    length-append m r,
    holds.len,
  )

  Holds-part :
      (h : Heap A) (s : Slice) (l m r : List A) → Holds h s (l ++ (m ++ r)) → Holds h (part s l m) m
  unfolding At-inner
  Holds-part h s l m r holds = record {
    here = At-inner h s.base s.off l m r holds.here;
    len = refl;
    within = omega (arith, length-append l (m ++ r), length-append m r, holds.len, holds.within);
    room = omega (
      arith,
      length-append l (m ++ r),
      length-append m r,
      length-append r holds.here.rest,
      holds.len,
      holds.room,
    );
    real = holds.real;
  }

  Holds-shared :
      (h : Heap A) (s t : Slice) (n : ℕ) (xs : List A) → Holds h s xs → Holds (one_more h t n) s xs
  Holds-shared h s t n xs holds = record {
    here = record {
      front = holds.here.front;
      rest = holds.here.rest;
      holds = holds.here.holds;
      starts = holds.here.starts;
    };
    len = holds.len;
    within = holds.within;
    room = holds.room;
    real = holds.real;
  }

  -- A write through an index of the part is a write through the index moved by the part's start.
  set_at-part :
      (h : Heap A) (s : Slice) (l m r : List A) (i : ℕ) (v : A)
      → Holds h s (l ++ (m ++ r))
      → i < length m
      → set_at (part s l m) (pos i) v h ≡ set_at s (pos (length l + i)) v h
  unfolding set_at check_index check is_nil is_empty
  set_at-part h s l m r i v holds below =
      ground
        (arith, holds.real, holds.len, holds.within, length-append l (m ++ r), length-append m r)

  -- On a slice that is not nil and whose count does not wrap, a write through an index of a part that
  -- `slice` made of it is seen in the whole, and in the part.
  pub set_at-slice :
      (h : Heap A) (s : Slice) (l a : List A) (x v : A) (b r : List A) (n : ℕ)
      → Holds h s (l ++ ((a ++ (x ∷ b)) ++ r))
      → 0 < s.refs.ref
      → h.count s.refs.ref ≡ some n
      → n < 2 ^ 64 - 1
      → (t : Slice) × (h' : Heap A) × (h'' : Heap A) × (slice s
            (pos (length l))
            (pos (length l + length (a ++ (x ∷ b))))
            h
          ≡ ok t h')
        × (set_at t (pos (length a)) v h' ≡ ok tt h'')
        × Holds h'' s (l ++ ((a ++ (v ∷ b)) ++ r))
        × Holds h'' t (a ++ (v ∷ b))
  set_at-slice h s l a x v b r n holds counted e few =
      let m = a ++ (x ∷ b) in
      let m' = a ++ (v ∷ b) in
      let shift : (y : A) → l ++ ((a ++ (y ∷ b)) ++ r) ≡ (l ++ a) ++ (y ∷ (b ++ r)) = λ y.
        ap (λ (q : List A). l ++ q) (append_assoc a (y ∷ b) r)
        ∙ sym (append_assoc l a (y ∷ (b ++ r))) in
      let held = Holds-shared h s s n (l ++ (m ++ r)) holds in
      let (h'', run, after) =
        set_at-Holds (one_more h s n) s (l ++ a) x v (b ++ r)
          (subst (Holds (one_more h s n) s) (shift x) held) in
      let whole = subst (Holds h'' s) (sym (shift v)) after in
      let same : length m' ≡ length m =
        omega (arith, length-append a (v ∷ b), length-append a (x ∷ b)) in
      let below : length a < length m = omega (arith, length-append a (x ∷ b)) in
      (
        part s l m,
        one_more h s n,
        h'',
        slice-part h s l m r n holds counted e few,
        set_at-part (one_more h s n) s l m r (length a) v held below
            ∙ ap (λ (i : ℕ). set_at s (pos i) v (one_more h s n)) (sym (length-append l a))
            ∙ run,
        whole,
        subst (λ (k : ℕ). Holds h'' (record (part s l m) { len = k }) m') same
            (Holds-part h'' s l m' r whole),
      )
