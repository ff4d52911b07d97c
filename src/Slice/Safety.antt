-- ===== src/Slice/Safety.antt =====
-- Memory under n variables of type `jule::Slice<Item>` (api/slice.hpp): what keeps every access to it
-- inside the blocks that are allocated.
pub mod Access
pub mod Counts
pub mod Shares
pub mod Fresh
pub mod Windows
pub mod Growth
pub mod Members
pub mod Reserve
pub mod Appending
pub mod Statements
pub mod Indexing
pub mod Program
use julelang.Prelude.{
  ℕ, zero, suc, ◌+◌, ◌-◌, ◌^◌, ◌≤◌, ◌<◌, ◌≡◌, ◌≢◌, ◌↔◌, refl, ap, ◌∙◌, sym, subst, fun_ext, none,
  some, Option, List, length, arith, ◌==◌, if◌then◌else◌, ℕ_discrete,
}
use julelang.Heap.{Heap}
use julelang.Ref.{Ref}
use julelang.Ref.Uses.{
  Vars, uses, update, one_if, uses-update, uses-le, uses_pos, uses_none, uses_same, uses-suc,
}
use julelang.Ref.Ownership.{ref_of, counted}
use julelang.Slice.{Slice, empty_slice}
use julelang.Threads.Family.{put_at}

abbrev pub Slices : Type 0
Slices = ℕ → Slice

abbrev pub refs_of : Slices → Vars
refs_of vars i = (vars i).refs

-- How many of the first n variables hold the count at p.
unfoldable pub holders : ℕ → ℕ → Slices → ℕ
holders p n vars = uses ref_of p n (refs_of vars)

-- A window lies in the block of its reference; without a block there is nothing in it.
pub record Inside {A : Type 0} (h : Heap A) (s : Slice) : Type 0 where
  pub within : s.len ≤ s.cap
  pub empty : s.refs.alloc ≡ 0 → s.cap ≡ 0
  pub whole : 0 < s.refs.alloc → (0 < s.refs.ref) × (s.base ≡ s.refs.alloc)
  pub room :
      0 < s.refs.alloc
      → (items : List A) × (h.block s.refs.alloc ≡ some items) × (s.off + s.cap ≤ length items)

pub record Safe {A : Type 0} (h : Heap A) (n : ℕ) (vars : Slices) : Type 0 where
  -- A count says how many variables hold it, and is freed with the last of them.
  pub counts : (p : ℕ) → 0 < p → h.count p ≡ counted (holders p n vars)
  -- Of variables that have a block, those that share it share its count, and no others.
  pub paired :
      (i j : ℕ)
      → i < n
      → j < n
      → 0 < (vars i).refs.alloc
      → 0 < (vars j).refs.alloc
      → ((vars i).refs.alloc ≡ (vars j).refs.alloc) ↔ ((vars i).refs.ref ≡ (vars j).refs.ref)
  pub inside : (i : ℕ) → i < n → Inside h (vars i)
  -- Addresses above `next` are free.
  pub fresh : (i : ℕ) → i < n → ((vars i).refs.alloc ≤ h.next) × ((vars i).refs.ref ≤ h.next)

-- With these variables and two temporaries no count wraps.
abbrev pub Bounded : ℕ → Type 0
Bounded n = n < 2 ^ 64 - 3

refs_of-put_at :
    (vars : Slices) (i : ℕ) (s : Slice) → refs_of (put_at vars i s) ≡ update (refs_of vars) i s.refs
refs_of-put_at vars i s = fun_ext λ j. ground arith

-- One variable changes.
pub holders-put_at :
    (p n : ℕ) (vars : Slices) (i : ℕ) (s : Slice)
    → i < n
    → holders p n (put_at vars i s) + one_if ((vars i).refs.ref == p)
      ≡ holders p n vars + one_if (s.refs.ref == p)
unfolding holders
holders-put_at p n vars i s li =
    rw (refs_of-put_at vars i s) (uses-update ref_of p (refs_of vars) n i s.refs li)

pub holders-le : (p n : ℕ) (vars : Slices) → holders p n vars ≤ n
unfolding holders
holders-le p n vars = uses-le ref_of p (refs_of vars) n

pub holders_pos :
    (p n : ℕ) (vars : Slices) (i : ℕ) → i < n → (vars i).refs.ref ≡ p → 0 < holders p n vars
unfolding holders
holders_pos p n vars i li e = uses_pos ref_of p (refs_of vars) n i li e

pub holders_none :
    (p n : ℕ) (vars : Slices) → ((j : ℕ) → j < n → (vars j).refs.ref ≢ p) → holders p n vars ≡ 0
unfolding holders
holders_none p n vars none_holds = uses_none ref_of p (refs_of vars) n none_holds

holders_same :
    (p n : ℕ) (vars vars' : Slices)
    → ((k : ℕ) → k < n → vars k ≡ vars' k)
    → holders p n vars ≡ holders p n vars'
unfolding holders
holders_same p n vars vars' e =
    uses_same ref_of p n (refs_of vars) (refs_of vars') λ k lk. ap (λ (s : Slice). s.refs) (e k lk)

holders-suc :
    (p n : ℕ) (vars : Slices)
    → holders p (suc n) vars ≡ one_if ((vars n).refs.ref == p) + holders p n vars
unfolding holders
holders-suc p n vars = uses-suc ref_of p n (refs_of vars)

module _ {A : Type 0} where
  -- Only the first n variables matter.
  pub Safe_same :
      (h : Heap A) (n : ℕ) (vars vars' : Slices)
      → ((k : ℕ) → k < n → vars k ≡ vars' k)
      → Safe h n vars
      → Safe h n vars'
  Safe_same h n vars vars' e safe = record {
    counts = λ p some_p. safe.counts p some_p ∙ ap counted (holders_same p n vars vars' e);
    paired = λ i j li lj. rw (← e i li, ← e j lj) (safe.paired i j li lj);
    inside = λ i li. rw (← e i li) (safe.inside i li);
    fresh = λ i li. rw (← e i li) (safe.fresh i li);
  }

  -- One variable more, in which nothing is held.
  pub Safe_more :
      (h : Heap A) (n : ℕ) (vars : Slices)
      → Safe h n vars
      → Safe h (suc n) (put_at vars n empty_slice)
  Safe_more h n vars safe = record {
    counts = λ p some_p.
        let same = holders_same p n vars (put_at vars n empty_slice) (λ k lk. ground arith) in
        ground (arith, safe.counts p some_p, holders-suc p n (put_at vars n empty_slice), same);
    paired = λ i j li lj pi pj. ground (arith, safe.paired i j);
    inside = λ i li. elim (ℕ_discrete n i) [
      | yes last ↦ subst (Inside h) (ground arith) nothing
      | no below ↦ subst (Inside h) (ground arith) (safe.inside i (omega arith))
    ];
    fresh = λ i li. ground (arith, safe.fresh i);
  }
    where
      nothing : Inside h empty_slice
      nothing = record {
        within = omega arith;
        empty = λ _. refl;
        whole = λ pos. absurd (omega arith);
        room = λ pos. absurd (omega arith);
      }

  -- One variable less, when nothing is held in the last one.
  pub Safe_less :
      (h : Heap A) (n : ℕ) (vars : Slices)
      → (vars n).refs.ref ≡ 0
      → Safe h (suc n) vars
      → Safe h n vars
  Safe_less h n vars unheld safe = record {
    counts = λ p some_p. ground (arith, safe.counts p some_p, holders-suc p n vars, unheld);
    paired = λ i j li lj. safe.paired i j (omega arith) (omega arith);
    inside = λ i li. safe.inside i (omega arith);
    fresh = λ i li. safe.fresh i (omega arith);
  }
