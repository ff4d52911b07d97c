-- ===== src/Misc/Structs.antt =====
-- References to new structures of api/misc.hpp.
use julelang.Prelude.{
  ℕ, suc, ◌+◌, ◌%◌, ◌^◌, ◌<◌, ◌≡◌, ◌⊎◌, inl, inr, arith, Bool-cases, List, some, none,
}
use julelang.Panic.{allocation_failed}
use julelang.Heap.{Heap, ok, panic, put, new_count, fetch_add, delete_count, delete_block}
use julelang.Ref
use julelang.Ref.{Ref, nil, make_ptr, add_ref, drop_ref, take_over}
use julelang.Slice.Release.{Counted}
use julelang.Misc.{new_struct, new_struct_ref}

module _ {A : Type 0} (h : Heap A) (ptr : ℕ) (items : List A) (real : 0 < ptr)
    (block : h.block ptr ≡ some items) where
  abbrev pub made : Ref
  made = record { alloc = ptr; ref = suc h.next }

  -- Both ways to make a reference to a new structure leave it with one owner, and the reference's
  -- `drop` frees the structure and the count; or they panic where there is no memory for the count.
  pub new_struct-owner :
      ((new_struct ptr h ≡ panic allocation_failed (record h { next = suc h.next }))
        × (new_struct_ref ptr h ≡ panic allocation_failed (record h { next = suc h.next })))
      ⊎ ((h' : Heap A) × (h'' : Heap A) × (new_struct ptr h ≡ ok made h')
          × (new_struct_ref ptr h ≡ ok made h'')
          × Counted h' made 1 items
          × Counted h'' made 1 items
          × (h1 : Heap A) × (h2 : Heap A) × (Ref.drop made h' ≡ ok nil h1)
          × (Ref.drop made h'' ≡ ok nil h2)
          × (h1.block ptr ≡ none)
          × (h2.block ptr ≡ none))
  unfolding new_struct new_struct_ref make_ptr new_count Ref.assign take_over Ref.drop add_ref
      drop_ref fetch_add delete_count delete_block
  new_struct-owner = elim (Bool-cases (h.grants h.next)) [
    | inr no_count ↦ inl (ground arith, ground arith)
    | inl count ↦
        let up : (0 + 1) % 2 ^ 64 ≡ 1 = omega arith in
        let h' = record h { count = put h.count (suc h.next) (some 1); next = suc h.next } in
        let h0 = put h.count (suc h.next) (some 0) in
        let h'' = record h { count = put h0 (suc h.next) (some 1); next = suc h.next } in
        inr (
          h',
          h'',
          ground arith,
          ground arith,
          record { counted = omega arith; placed = real; count = ground arith; block = block },
          record { counted = omega arith; placed = real; count = ground arith; block = block },
          record h' { block = put h.block ptr none; count = put h'.count (suc h.next) none },
          record h'' { block = put h.block ptr none; count = put h''.count (suc h.next) none },
          ground (arith, block),
          ground (arith, block),
          ground arith,
          ground arith,
        )
  ]
