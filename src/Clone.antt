-- ===== src/Clone.antt =====
-- api/derive/clone.hpp: clones of slices, arrays, maps, references and traits. The clone of an item
-- is a function, a parameter: items are values whose clones take no memory of this heap.
pub mod Slices
pub mod Maps
pub mod Shared
pub mod Plain
mod Tests
use julelang.Prelude.{ℕ, zero, suc, ◌+◌, Bool, true, false, not, List, [], ◌∷◌, ◌==◌, if◌then◌else◌}
use julelang.Heap.{Heap, Run, Cmd, pure, fault, ◌>>=◌, ◌>>◌}
use julelang.Ref
use julelang.Ref.{Ref, nil, make, get, real}
use julelang.Slice
use julelang.Slice.{Slice, read_range, write_range, alloc}
use julelang.Map.Table.{StdMap}
use julelang.Map
use julelang.Trait.{Trait, nil_trait, assign_trait}

module _ {A : Type 0} (dup : A → A) where
  -- The loop of `clone(const Slice&)`, from index i on with n rounds left.
  pub clone_loop : Slice → Slice → ℕ → ℕ → Cmd A (Unit {0})
  clone_loop s s_clone i zero = pure tt
  clone_loop s s_clone i (suc n) = do
    items ← read_range s.base (s.off + i) 1
    (elim items [
      | [] ↦ (λ h. fault)
      | x ∷ xs ↦ write_range s_clone.base (s_clone.off + i) (dup x ∷ [])
    ])
    clone_loop s s_clone (i + 1) n

  -- `clone(const Slice&)`.
  pub clone_slice : A → Slice → Cmd A Slice
  clone_slice fill s = do
    fresh ← alloc fill 0 s.len
    let s_clone = record fresh { len = s.len }
    clone_loop s s_clone 0 s.len
    pure s_clone

  -- `clone(const Array&)`: the loop over the items.
  pub clone_array : List A → List A
  clone_array [] = []
  clone_array (x ∷ xs) = dup x ∷ clone_array xs

  -- `clone(const Ref&)`: a reference to nil is returned as a copy.
  pub clone_ref : Ref → Cmd A Ref
  clone_ref r = if not (real r) then Ref.assign nil r else (do v ← get r; make (dup v))

  -- `clone(const Trait&)`: `t_clone` is made, given a clone of its data, and dropped; what is returned
  -- is a copy of `t`.
  pub clone_trait : Trait → Cmd A Trait
  clone_trait t = do
    t_clone ← assign_trait nil_trait t
    r ← clone_ref t_clone.ref
    data' ← Ref.assign t_clone.ref r
    Ref.drop r
    result ← assign_trait nil_trait t
    Ref.drop data'
    pure result

module _ {K V : Type 0} (t : StdMap K V) (dup_key : K → K) (dup : V → V) where
  -- The loop of `clone(const Map&)`, on the pairs that are left.
  pub clone_pairs : List (K × V) → t.Rep → t.Rep
  clone_pairs [] m_clone = m_clone
  clone_pairs (p ∷ ps) m_clone = clone_pairs ps (Map.set t m_clone (dup_key p.0) (dup p.1))

  pub clone_map : t.Rep → t.Rep
  clone_map m = clone_pairs (t.pairs m) (Map.new t)
