-- ===== src/Ref/Ownership.antt =====
-- The invariant of the memory under api/ref.hpp: the counts are exact, and an allocation lives
-- exactly as long as some variable refers to it.
use julelang.Prelude.{
  ℕ, ◌-◌, ◌^◌, ◌≤◌, ◌<◌, ◌≡◌, ◌↔◌, ◌⊎◌, Option, none, some, List, ◌==◌, if◌then◌else◌,
}
use julelang.Heap.{Heap}
use julelang.Ref.{Ref}
use julelang.Ref.Uses.{Vars, uses}

abbrev pub alloc_of : Ref → ℕ
alloc_of r = r.alloc

abbrev pub ref_of : Ref → ℕ
ref_of r = r.ref

-- What is stored for an allocation that `n` variables use.
abbrev pub counted : ℕ → Option ℕ
counted n = if n == 0 then none else some n

abbrev pub Allocated : {A : Type 0} → Heap A → ℕ → Type 0
Allocated {A} h a = (items : List A) × (h.block a ≡ some items)

pub record Owned {A : Type 0} (h : Heap A) (n : ℕ) (vars : Vars) : Type 0 where
  -- A reference is nil or has both its allocation and its count.
  pub whole :
      (i : ℕ)
      → i < n
      → ((alloc_of (vars i) ≡ 0) × (ref_of (vars i) ≡ 0))
        ⊎ ((0 < alloc_of (vars i)) × (0 < ref_of (vars i)))
  -- A count says how many variables hold it, and is freed with the last of them.
  pub counts : (p : ℕ) → 0 < p → h.count p ≡ counted (uses ref_of p n vars)
  -- Variables share an allocation exactly if they share its count.
  pub paired :
      (i j : ℕ)
      → i < n
      → j < n
      → (alloc_of (vars i) ≡ alloc_of (vars j)) ↔ (ref_of (vars i) ≡ ref_of (vars j))
  -- What a variable refers to is allocated.
  pub alive : (i : ℕ) → i < n → 0 < alloc_of (vars i) → Allocated h (alloc_of (vars i))
  -- What is allocated, a variable refers to.
  pub reachable : (a : ℕ) → 0 < a → uses alloc_of a n vars ≡ 0 → h.block a ≡ none
  -- Addresses above `next` are free.
  pub fresh : (i : ℕ) → i < n → (alloc_of (vars i) ≤ h.next) × (ref_of (vars i) ≤ h.next)

-- A program with these variables keeps its counts below 2^64.
abbrev pub Bounded : ℕ → Type 0
Bounded n = n < 2 ^ 64 - 1
