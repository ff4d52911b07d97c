-- ===== src/Ref/Program.antt =====
-- Programs over n variables of type `jule::Ref<T>` (api/ref.hpp): every run keeps memory and owners
-- in step, and nothing is leaked.
use julelang.Prelude.{
  ℕ, ◌<◌, ◌≡◌, refl, ◌∙◌, sym, subst₂, Option-cases, Bool, none, some, List, [], ◌∷◌, arith, inl,
  inr, ℕ_discrete,
}
use julelang.Heap.{Heap, Run, ok, put, load_block, store_block}
use julelang.Ref.{Ref, nil, make, assign, assign_value, drop, real, must_ok}
use julelang.Ref.Uses.{Vars, update, uses_none}
use julelang.Ref.Ownership.{Owned, Bounded, alloc_of, ref_of}
use julelang.Ref.Preserve.{drop-Owned}
use julelang.Ref.Assign.{assign-Owned}
use julelang.Ref.Create.{make-Owned}

pub record World (A : Type 0) : Type 0 where
  pub heap : Heap A
  pub vars : Vars

-- One statement: a variable that holds nothing is given a new reference, a variable is assigned
-- another one, a reference is dropped (by `drop` or at the end of its scope), a value is stored.
pub data Step {A : Type 0} (n : ℕ) (w : World A) : World A → Type 0 where
  create :
      {h : Heap A} {r : Ref} (i : ℕ) (v : A)
      → i < n
      → w.vars i ≡ nil
      → make v w.heap ≡ ok r h
      → Step n w (record { heap = h; vars = update w.vars i r })
  copy :
      {h : Heap A} {r : Ref} (i j : ℕ)
      → i < n
      → j < n
      → assign (w.vars i) (w.vars j) w.heap ≡ ok r h
      → Step n w (record { heap = h; vars = update w.vars i r })
  release :
      {h : Heap A} {r : Ref} (i : ℕ)
      → i < n
      → drop (w.vars i) w.heap ≡ ok r h
      → Step n w (record { heap = h; vars = update w.vars i r })
  store :
      {h : Heap A} (i : ℕ) (v : A)
      → i < n
      → assign_value (w.vars i) v w.heap ≡ ok tt h
      → Step n w (record { heap = h; vars = w.vars })

pub data Reach {A : Type 0} (n : ℕ) (w : World A) : World A → Type 0 where
  here : Reach n w w
  next : {u t : World A} → Reach n w u → Step n u t → Reach n w t

abbrev pub IsOwned : {A : Type 0} → ℕ → World A → Type 0
IsOwned n w = Owned w.heap n w.vars

ok_same :
    {A X : Type 0} {x y : X} {h g : Heap A}
    → ◌≡◌ {A = Run A X} (ok x h) (ok y g)
    → (x ≡ y) × (h ≡ g)
ok_same e = (cc, cc)

-- Two facts about one run.
transfer :
    {A X : Type 0} {m : Run A X} (P : X → Heap A → Type 0) {x y : X} {h g : Heap A}
    → m ≡ ok x h
    → m ≡ ok y g
    → P x h
    → P y g
transfer P e e' p = let (a, b) = ok_same (sym e ∙ e') in subst₂ P a b p

store-Owned :
    {A : Type 0} (h : Heap A) (n : ℕ) (vars : Vars) (a : ℕ) (old items : List A)
    → Owned h n vars
    → h.block a ≡ some old
    → Owned (record h { block = put h.block a (some items) }) n vars
store-Owned h n vars a old items o live = record {
  whole = o.whole;
  counts = o.counts;
  paired = o.paired;
  alive = λ i below some_a. elim (ℕ_discrete a (alloc_of (vars i))) [
    | yes same ↦ (items, ground arith)
    | no other ↦ let (kept, e) = o.alive i below some_a in (kept, ground (arith, e))
  ];
  reachable = λ p some_p unused. ground (arith, o.reachable p some_p unused);
  fresh = o.fresh;
}

-- Storing through a reference is defined and keeps the owners, or panics where it is nil.
store_lem :
    {A : Type 0} (r : Ref) (v : A) (h h' : Heap A)
    → assign_value r v h ≡ ok tt h'
    → (old : List A) × (items : List A) × (h.block (alloc_of r) ≡ some old)
      × (h' ≡ record h { block = put h.block (alloc_of r) (some items) })
unfolding assign_value must_ok real load_block store_block
store_lem {A} r v h h' e = elim (Option-cases (h.block (alloc_of r))) [
  | inl gone ↦ absurd (ground arith)
  | inr (items, live) ↦ stored items live
]
  where
    stored :
        (items : List A)
        → h.block (alloc_of r) ≡ some items
        → (old : List A) × (items : List A) × (h.block (alloc_of r) ≡ some old)
          × (h' ≡ record h { block = put h.block (alloc_of r) (some items) })
    stored [] live = absurd (ground arith)
    stored (x ∷ xs) live = (x ∷ xs, v ∷ xs, live, ground arith)

-- Every statement keeps the counts exact and the allocations those that are referred to.
pub Step-Owned :
    {A : Type 0} (n : ℕ) {w u : World A} → Bounded n → Step n w u → IsOwned n w → IsOwned n u
Step-Owned n {w} bound (create i v li empty e) o =
    elim (make-Owned w.heap v n w.vars i o li empty) [
      | inl (r, h, e', o') ↦ transfer (λ r h. Owned h n (update w.vars i r)) e' e o'
      | inr (h, e') ↦ absurd (ground (arith, sym e ∙ e'))
    ]
Step-Owned n {w} bound (copy i j li lj e) o =
    let (h, e', o') = assign-Owned w.heap n w.vars i j o bound li lj in
    transfer (λ r h. Owned h n (update w.vars i r)) e' e o'
Step-Owned n {w} bound (release i li e) o =
    let (h, e', o', _) = drop-Owned w.heap n w.vars i o bound li in
    transfer (λ r h. Owned h n (update w.vars i r)) e' e o'
Step-Owned n {w} bound (store {h} i v li e) o =
    let (old, items, live, same) = store_lem (w.vars i) v w.heap h e in
    rw same (store-Owned w.heap n w.vars (alloc_of (w.vars i)) old items o live)

-- Memory with nothing allocated, and variables that hold nothing.
abbrev pub initial : {A : Type 0} → (ℕ → Bool) → World A
initial grants = record {
  heap = record { block = λ a. none; count = λ p. none; next = 0; grants = grants };
  vars = λ i. nil;
}

initial-Owned : {A : Type 0} (n : ℕ) (grants : ℕ → Bool) → IsOwned n (initial {A = A} grants)
initial-Owned n grants = record {
  whole = λ i li. inl (refl, refl);
  counts = λ p some_p. rw (uses_none ref_of p (λ i. nil) n (λ j lj. ground arith));
  paired = λ i j li lj. ((λ e. refl), λ e. refl);
  alive = λ i li some_a. absurd (omega arith);
  reachable = λ a some_a unused. refl;
  fresh = λ i li. (omega arith, omega arith);
}

-- At every point of every program on fewer than 2^64 - 1 variables the counts are exact, what a
-- variable refers to is allocated, and what is allocated is referred to.
pub Reach-Owned :
    {A : Type 0} (n : ℕ) (grants : ℕ → Bool) {w : World A}
    → Bounded n
    → Reach n (initial grants) w
    → IsOwned n w
Reach-Owned n grants bound here = initial-Owned n grants
Reach-Owned n grants bound (next r s) = Step-Owned n bound s (Reach-Owned n grants bound r)
