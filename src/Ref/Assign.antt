-- ===== src/Ref/Assign.antt =====
-- Copying and creating references of api/ref.hpp: memory and owners stay in step.
use julelang.Prelude.{
  ℕ, ◌+◌, ◌-◌, ◌%◌, ◌^◌, ◌<◌, ◌≡◌, ◌≢◌, refl, ap, subst, ◌∙◌, sym, not, ◌&&◌, some, arith, ◌==◌,
  Bool-cases, inl, inr, ℕ_discrete,
}
use julelang.Heap.{Heap, ok, put, fetch_add}
use julelang.Ref.{Ref, nil, drop, add_ref, assign, take_over}
use julelang.Ref.Uses.{
  Vars, uses, update, update_same, update-update, uses-le, uses_pos, uses-update,
}
use julelang.Ref.Ownership.{Owned, Bounded, alloc_of, ref_of}
use julelang.Ref.Preserve.{drop-Owned}

-- A variable that holds nothing takes the reference of another.
module _ {A : Type 0} (h : Heap A) (n : ℕ) (vars : Vars) (o : Owned h n vars) (bound : Bounded n)
    (i j : ℕ) (li : i < n) (lj : j < n) (empty : vars i ≡ nil) (pos : 0 < ref_of (vars j)) where
  abbrev owners : ℕ
  owners = uses ref_of (ref_of (vars j)) n vars

  abbrev shared : Heap A
  shared = record h { count = put h.count (ref_of (vars j)) (some (owners + 1)) }

  abbrev copied : Vars
  copied = update vars i (vars j)

  add_ref-ok : add_ref (vars j) h ≡ ok owners shared
  unfolding add_ref fetch_add
  add_ref-ok =
      let some_use = uses_pos ref_of (ref_of (vars j)) vars n j lj refl in
      let stored : h.count (ref_of (vars j)) ≡ some owners =
        ground (arith, o.counts (ref_of (vars j)) pos) in
      let up : (owners + 1) % 2 ^ 64 ≡ owners + 1 =
        omega (arith, uses-le ref_of (ref_of (vars j)) vars n) in
      ground arith

  shared-Owned : Owned shared n copied
  shared-Owned = record {
    whole = λ k below. ground (arith, o.whole k below, o.whole j lj);
    counts =
        λ p some_p. ground (arith, o.counts p some_p, uses-update ref_of p vars n i (vars j) li);
    paired = λ k l lk ll. (
      (λ e. ground (arith, o.paired k l lk ll, o.paired j l lj ll, o.paired k j lk lj)),
      λ e. ground (arith, o.paired k l lk ll, o.paired j l lj ll, o.paired k j lk lj),
    );
    alive = λ k below some_a. ground (arith, o.alive k below, o.alive j lj);
    reachable = λ a some_a unused.
        ground (arith, o.reachable a some_a, uses-update alloc_of a vars n i (vars j) li);
    fresh = λ k below. ground (arith, o.fresh k below, o.fresh j lj);
  }

-- The result, without its shape.
copy-Owned :
    {A : Type 0} (h : Heap A) (n : ℕ) (vars : Vars) (i j : ℕ)
    → Owned h n vars
    → Bounded n
    → i < n
    → j < n
    → vars i ≡ nil
    → 0 < ref_of (vars j)
    → (h' : Heap A) × (c : ℕ) × (add_ref (vars j) h ≡ ok c h') × Owned h' n (update vars i (vars j))
copy-Owned h n vars i j o bound li lj empty pos = (
  shared h n vars o bound i j li lj empty pos,
  owners h n vars o bound i j li lj empty pos,
  add_ref-ok h n vars o bound i j li lj empty pos,
  shared-Owned h n vars o bound i j li lj empty pos,
)

module _ {A : Type 0} (h h' : Heap A) (this r : Ref) (dropped : drop this h ≡ ok nil h') where
  take_over-nil : ref_of r ≡ 0 → take_over this r h ≡ ok r h'
  unfolding take_over
  take_over-nil e = rw dropped (ground arith)

  take_over-counted :
      (h'' : Heap A) (c : ℕ)
      → 0 < ref_of r
      → add_ref r h' ≡ ok c h''
      → take_over this r h ≡ ok r h''
  unfolding take_over
  take_over-counted h'' c pos e = rw dropped (ground arith)

same_ref : (r t : Ref) → alloc_of r ≡ alloc_of t → ref_of r ≡ ref_of t → r ≡ t
same_ref r t e e' = ground arith

-- Where memory and owners are in step and no count can wrap, assignment is defined on any two
-- variables, also on one and the same: the first then holds what the second held, and memory and
-- owners stay in step.
pub assign-Owned :
    {A : Type 0} (h : Heap A) (n : ℕ) (vars : Vars) (i j : ℕ)
    → Owned h n vars
    → Bounded n
    → i < n
    → j < n
    → (h' : Heap A) × (assign (vars i) (vars j) h ≡ ok (vars j) h')
      × Owned h' n (update vars i (vars j))
unfolding assign
assign-Owned h n vars i j o bound li lj =
    let (h', dropped, o', _) = drop-Owned h n vars i o bound li in
    elim (Bool-cases (not (alloc_of (vars i) == 0) && (alloc_of (vars i) == alloc_of (vars j)))) [
      | inl same ↦
          let e : alloc_of (vars i) ≡ alloc_of (vars j) = ground arith in
          let both = same_ref (vars i) (vars j) e ((o.paired i j li lj).0 e) in
          (h, rw same (ap (λ (r : Ref). ok r h) both), rw (update_same vars i (vars j) both) o)
      | inr differ ↦ elim (ℕ_discrete (ref_of (vars j)) 0) [
        | yes none_held ↦
            let is_nil : vars j ≡ nil = ground (arith, o.whole j lj) in
            (h', rw differ (take_over-nil h h' (vars i) (vars j) dropped none_held), rw is_nil o')
        | no held ↦
            let pos : 0 < ref_of (vars j) = omega arith in
            let left = update vars i nil in
            let empty : left i ≡ nil = ground arith in
            let apart : i ≢ j =
              λ e. ground (arith, o.whole j lj, ap (λ (k : ℕ). alloc_of (vars k)) e) in
            let kept : left j ≡ vars j = ground arith in
            let (h'', c, run, o'') = copy-Owned h' n left i j o' bound li lj empty (rw kept pos) in
            (
              h'',
              rw differ (
                  take_over-counted h h' (vars i) (vars j) dropped h'' c pos
                    (sym (ap (λ (r : Ref). add_ref r h') kept) ∙ run)),
              subst (Owned h'' n)
                  (update-update vars i nil (left j) ∙ ap (λ (r : Ref). update vars i r) kept) o'',
            )
      ]
    ]

-- Copying a counted reference into an empty variable adds one to its count.
pub assign-nil :
    {A : Type 0} (h : Heap A) (r : Ref) (n : ℕ)
    → 0 < ref_of r
    → h.count (ref_of r) ≡ some n
    → n < 2 ^ 64 - 1
    → assign nil r h ≡ ok r (record h { count = put h.count (ref_of r) (some (n + 1)) })
unfolding assign take_over drop add_ref fetch_add
assign-nil h r n pos stored few = let up : (n + 1) % 2 ^ 64 ≡ n + 1 = omega arith in ground arith
