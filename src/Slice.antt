-- ===== src/Slice.antt =====
-- api/slice.hpp: `jule::Slice<Item>`, a window on a counted block, with reference counting and safety
-- checks on. `_slice` is the pair of a block's address and an offset in it; lengths and capacities
-- are numbers, since no operation makes them negative. A member function that changes `*this`
-- returns the new slice. Values of `new Item[n]` before the first write are `fill`.
pub mod Memory
pub mod Items
pub mod Sharing
pub mod Release
pub mod Checks
pub mod Grow
pub mod Push
pub mod Race
pub mod Fill
pub mod Safety
pub mod Members
mod Tests
use julelang.Prelude.{
  ℕ, zero, suc, ◌+◌, ◌-◌, ◌*◌, Bool, true, false, not, ◌&&◌, ◌||◌, Option, none, some, List, [],
  ◌∷◌, ◌++◌, ltb, leb, ◌==◌, if◌then◌else◌, length, take, drop, set, get_elem?, replicate,
}
use julelang.Prelude.Int.{ℤ, pos, ltb_ℤ, leb_ℤ, pos_part}
use julelang.Panic.{
  Error, invalid_memory, allocation_failed, index_out_of_range, slicing_out_of_range,
  slice_len_above_cap,
}
use julelang.Heap.{
  Heap, Run, Cmd, ok, panic, fault, pure, throw, ◌>>=◌, ◌>>◌, new_block, delete_count, delete_block,
  load_block, store_block,
}
use julelang.Ref
use julelang.Ref.{Ref, nil, delta, make_ptr, get_ref_n}

pub record Slice : Type 0 where
  pub refs : Ref
  pub base : ℕ
  pub off : ℕ
  pub len : ℕ
  pub cap : ℕ

-- `Slice<Item>()` and `Slice<Item>(nullptr)`.
abbrev pub empty_slice : Slice
empty_slice = record { refs = nil; base = 0; off = 0; len = 0; cap = 0 }

-- `operator==(nullptr)`.
unfoldable pub is_nil : Slice → Bool
is_nil s = s.base == 0

unfoldable pub is_empty : Slice → Bool
is_empty s = (s.base == 0) || ((s.len == 0) || (s.cap == 0))

module _ {A : Type 0} where
  -- The n items from offset k on.
  abbrev pub window : List A → ℕ → ℕ → List A
  window items k n = take n (drop k items)

  abbrev pub overlay : List A → ℕ → List A → List A
  overlay items k src = take k items ++ (src ++ drop (k + length src) items)

  -- A read of n items from a pointer; a read of none touches no memory.
  unfoldable pub read_range : ℕ → ℕ → ℕ → Cmd A (List A)
  read_range base off n = if n == 0 then pure [] else (do
    items ← load_block base
    if leb (off + n) (length items) then pure (window items off n) else λ h. fault)

  unfoldable pub write_range : ℕ → ℕ → List A → Cmd A (Unit {0})
  write_range base off src = if length src == 0 then pure tt else (do
    items ← load_block base
    if leb (off + length src) (length items) then store_block base (overlay items off src) else λ h.
        fault)

  -- `std::copy(from, from+n, to)`: all is read before the first write.
  unfoldable pub copy_range : ℕ → ℕ → ℕ → ℕ → ℕ → Cmd A (Unit {0})
  unfolding read_range write_range
  copy_range base off n base' off' = read_range base off n >>= λ src. write_range base' off' src

  pub check : Slice → Cmd A (Unit {0})
  check s = if is_nil s then throw invalid_memory else pure tt

  unfoldable pub dealloc : Slice → Cmd A Slice
  dealloc s =
      let cleared = record s { len = 0; cap = 0; refs = record { alloc = 0; ref = s.refs.ref } } in
      if s.refs.ref == 0 then pure cleared else (do
        n ← get_ref_n s.refs
        if not (n == delta) then pure cleared else (do
          delete_count s.refs.ref
          delete_block s.refs.alloc
          pure (record s { len = 0; cap = 0; refs = nil; base = 0; off = 0 })))

  -- The assignment `this->data = Ref<Item>::make(alloc)` of `alloc_new`: the temporary reference is
  -- copied and dropped.
  unfoldable pub adopt : Ref → ℕ → Cmd A Ref
  adopt old ptr = do
    temporary ← make_ptr ptr
    r ← Ref.assign old temporary
    Ref.drop temporary
    pure r

  -- `alloc_new(len, cap)`.
  unfoldable pub alloc_new : A → Slice → ℕ → ℕ → Cmd A Slice
  alloc_new fill s len cap = do
    cleared ← dealloc s
    ptr ← new_block (replicate cap fill)
    if ptr == 0 then throw allocation_failed else (do
      r ← adopt cleared.refs ptr
      pure (record { refs = r; base = ptr; off = 0; len = len; cap = cap }))

  -- `alloc_new(len, cap, def)`.
  pub alloc_new_def : A → Slice → ℕ → ℕ → A → Cmd A Slice
  alloc_new_def fill s len cap def = do
    fresh ← alloc_new fill s len cap
    write_range fresh.base fresh.off (replicate len def)
    pure fresh

  -- `alloc(len, cap)` and `alloc(len, cap, def)`. The tests for a negative length compare an
  -- unsigned number with 0 and never hold.
  unfoldable pub alloc : A → ℕ → ℕ → Cmd A Slice
  alloc fill len cap =
      if ltb cap len then throw slice_len_above_cap else alloc_new fill empty_slice len cap

  pub alloc_def : A → ℕ → ℕ → A → Cmd A Slice
  alloc_def fill len cap def =
      if ltb cap len then throw slice_len_above_cap else alloc_new_def fill empty_slice len cap def

  -- `Slice(std::initializer_list)`.
  pub of_items : A → List A → Cmd A Slice
  of_items fill [] = pure empty_slice
  of_items fill (x ∷ xs) = do
    s ← alloc_new fill empty_slice 0 (length (x ∷ xs))
    write_range s.base s.off (x ∷ xs)
    pure (record s { len = s.cap })

  -- The destructor: `dealloc`, then the destructor of `data`.
  pub destroy : Slice → Cmd A (Unit {0})
  destroy s = do cleared ← dealloc s; Ref.drop cleared.refs; pure tt

  -- `operator=(const Slice&)`.
  unfoldable pub assign : Slice → Slice → Cmd A Slice
  assign this src =
      if not (this.refs.alloc == 0) && (this.refs.alloc == src.refs.alloc)
      then (do r ← Ref.assign this.refs src.refs; pure (record src { refs = r }))
      else (do
        cleared ← dealloc this
        if is_nil src
            then pure cleared
            else (do r ← Ref.assign cleared.refs src.refs; pure (record src { refs = r })))

  -- `operator=(nullptr)`.
  pub assign_nil : Slice → Cmd A Slice
  assign_nil this = dealloc this

  pub slice : Slice → ℤ → ℤ → Cmd A Slice
  slice s start end = do
    check s
    if ltb_ℤ start (pos 0) || (ltb_ℤ end (pos 0) || (ltb_ℤ end start || ltb_ℤ (pos s.len) end))
        then throw (slicing_out_of_range start end)
        else (do
          r ← Ref.assign nil s.refs
          pure (record {
            refs = r;
            base = s.base;
            off = s.off + pos_part start;
            len = pos_part end - pos_part start;
            cap = s.cap - pos_part start;
          }))

  -- `push` where the length meets the capacity.
  pub push_grow : A → Slice → A → Cmd A Slice
  push_grow fill s item = do
    new ← alloc_new fill empty_slice 0 ((s.len + 1) * 2)
    copy_range s.base s.off s.len new.base new.off
    write_range new.base (new.off + s.len) (item ∷ [])
    let grown = record new { len = s.len + 1 }
    cleared ← dealloc s
    s' ← assign cleared grown
    destroy grown
    pure s'

  pub push : A → Slice → A → Cmd A Slice
  push fill s item =
      if s.len == s.cap
      then push_grow fill s item
      else (do write_range s.base (s.off + s.len) (item ∷ []); pure (record s { len = s.len + 1 }))

  -- `for (...) slice._slice[index++] = x;`, for the items x that are left.
  pub store_each : Slice → ℕ → List A → Cmd A Slice
  store_each s index [] = pure s
  store_each s index (x ∷ xs) = do
    write_range s.base (s.off + index) (x ∷ [])
    store_each s (index + 1) xs

  -- `operator==(const Slice&)`, over the items' `!=`.
  pub same_items : (A → A → Bool) → List A → List A → Bool
  same_items ne [] ys = true
  same_items ne (x ∷ xs) [] = true
  same_items ne (x ∷ xs) (y ∷ ys) = elim (ne x y) [ true ↦ false | false ↦ same_items ne xs ys ]

  pub slice_eq : (A → A → Bool) → Slice → Slice → Cmd A Bool
  slice_eq ne s t = if not (s.len == t.len) then pure false else (do
    xs ← read_range s.base s.off s.len
    ys ← read_range t.base t.off t.len
    pure (same_items ne xs ys))

  -- The check of `operator[]`, and a read or a write through the reference that it returns.
  pub check_index : Slice → ℤ → Cmd A (Unit {0})
  check_index s index = do
    check s
    if is_empty s || (ltb_ℤ index (pos 0) || leb_ℤ (pos s.len) index)
        then throw (index_out_of_range index)
        else pure tt

  pub at : Slice → ℤ → Cmd A A
  at s index = do
    check_index s index
    items ← read_range s.base (s.off + pos_part index) 1
    elim items [ [] ↦ (λ h. fault) | x ∷ xs ↦ pure x ]

  pub set_at : Slice → ℤ → A → Cmd A (Unit {0})
  set_at s index v = do check_index s index; write_range s.base (s.off + pos_part index) (v ∷ [])
