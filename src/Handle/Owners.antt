-- ===== src/Handle/Owners.antt =====
-- The owners of what is behind a handle of std/sync/sync.hpp.
use julelang.Prelude.{ℕ, suc, ◌+◌, ◌-◌, ◌%◌, ◌^◌, ◌≡◌, arith, true, List, [], ◌∷◌, some, none}
use julelang.Heap.{
  Heap, ok, put, pure, ◌>>=◌, ◌>>◌, Cmd, new_count, new_block, fetch_add, load_count, delete_count,
  delete_block,
}
use julelang.Ref
use julelang.Ref.{Ref, nil, make_ptr, get_ref_n, add_ref, drop_ref, take_over}
use julelang.Slice.{adopt}
use julelang.Handle.{init, assign, drop, ref_count}

module _ {A : Type 0} where
  -- A mutex that is made, copied to a second handle, and dropped through both, with the number of
  -- owners after each step.
  pub life : A → Cmd A (List ℕ)
  life mutex = do
    first ← init mutex nil
    a ← ref_count first
    second ← assign nil first
    b ← ref_count first
    gone ← drop second
    c ← ref_count first
    d ← ref_count gone
    drop first
    pure (a ∷ b ∷ c ∷ d ∷ [])

  -- Where memory is granted, a mutex handle begins with one owner, has two with a copy, one after the
  -- copy's drop, which has none, and the last drop frees both allocations.
  pub life-owners :
      (h : Heap A) (mutex : A)
      → h.grants h.next ≡ true
      → h.grants (suc h.next) ≡ true
      → (h' : Heap A) × (life mutex h ≡ ok (1 ∷ 2 ∷ 1 ∷ 0 ∷ []) h')
        × (h'.block (suc h.next) ≡ none)
        × (h'.count (suc (suc h.next)) ≡ none)
  unfolding life init assign drop ref_count adopt make_ptr Ref.assign take_over Ref.drop add_ref
      drop_ref get_ref_n new_count new_block fetch_add load_count delete_count delete_block
  life-owners h mutex g1 g2 =
      let p = suc (suc h.next) in
      let up : (1 + 1) % 2 ^ 64 ≡ 2 = omega arith in
      let down : (2 + (2 ^ 64 - 1)) % 2 ^ 64 ≡ 1 = omega arith in
      (
        record h {
          count =
              put
                (put (put (put (put (put h.count p (some 1)) p (some 2)) p (some 1)) p (some 2)) p
                  (some 1))
                p none;
          block = put (put h.block (suc h.next) (some (mutex ∷ []))) (suc h.next) none;
          next = p;
        },
        ground arith,
        ground arith,
        ground arith,
      )
