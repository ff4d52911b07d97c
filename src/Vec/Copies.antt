-- ===== src/Vec/Copies.antt =====
-- What the assignment of std/vec/alloc.hpp copies, and what it leaves behind.
use julelang.Prelude.{
  ℕ, suc, ◌<◌, ◌≤◌, ◌≡◌, refl, ap, ◌∙◌, sym, subst, arith, true, false, not, ◌&&◌, ◌==◌, List, [],
  ◌++◌, length, replicate, append-nil, length-replicate, some, none,
}
use julelang.Heap.{Heap, ok, fault, put, new_block, load_block}
use julelang.Slice.{copy_range, read_range, write_range}
use julelang.Slice.Memory.{At, read_range-At}
use julelang.Slice.Items.{Untouched, write-At}
use julelang.Vec.{VecBuffer, assign, vec_copy_range}

-- The buffer's first items in memory.
abbrev pub Stores : {A : Type 0} → Heap A → VecBuffer → List A → Type 0
Stores h b xs = At h b.heap 0 xs × (length xs ≡ b.len)

module _ {A : Type 0} (fill : A) (h : Heap A) (this src : VecBuffer) (xs : List A)
    (stores : Stores h src xs) (seen : src.heap ≤ h.next)
    (differ : (not (this.heap == 0) && (this.heap == src.heap)) ≡ false) where
  abbrev start : Heap A
  start = record h {
    block = put h.block (suc h.next) (some (replicate src.len fill));
    next = suc h.next;
  }

  room : At start (suc h.next) 0 ([] ++ (replicate src.len fill ++ []))
  room = record {
    front = [];
    rest = [];
    holds =
        same
        ∙ ap (λ (l : List A). some l)
            (sym (append-nil (replicate src.len fill ++ []) ∙ append-nil (replicate src.len fill)));
    starts = refl;
  }
    where
      same : start.block (suc h.next) ≡ some (replicate src.len fill)
      same = ground arith

  old : At start src.heap 0 xs
  old = record {
    front = stores.0.front;
    rest = stores.0.rest;
    holds = ground (arith, stores.0.holds);
    starts = stores.0.starts;
  }

  -- Where two buffers are not one, and with memory for the items, the assigned buffer has the items of
  -- the other one on a block of its own, and everything else in memory is as it was: the block that
  -- the buffer had before is not freed.
  pub assign-Stores :
      h.grants h.next ≡ true
      → (new : VecBuffer) × (h' : Heap A) × (assign fill this src h ≡ ok new h')
        × Stores h' new xs
        × (h.next < new.heap)
        × Untouched h h' new.heap
  unfolding assign vec_copy_range copy_range new_block
  assign-Stores granted =
      let (h', run, at, same) =
        write-At start (suc h.next) 0 [] (replicate src.len fill) xs [] room
          (length-replicate src.len fill ∙ sym stores.1) in
      let read : read_range src.heap 0 src.len start ≡ ok xs start =
        ap (λ (k : ℕ). read_range src.heap 0 k start) (sym stores.1)
        ∙ read_range-At start src.heap 0 xs old in
      (
        record { heap = suc h.next; len = src.len; cap = src.len },
        h',
        rw (differ, granted, read, run) refl,
        (subst (At h' (suc h.next) 0) (append-nil xs) at, stores.1),
        omega arith,
        record { count = same.count; others = λ q other. same.others q other ∙ ground arith },
      )

  -- Without memory the copy writes through a null pointer if there is an item to copy.
  pub assign_no_memory :
      h.grants h.next ≡ false → h.block 0 ≡ none → 0 < src.len → assign fill this src h ≡ fault
  unfolding assign vec_copy_range copy_range new_block write_range load_block
  assign_no_memory refused null some_items =
      let later = record h { next = suc h.next } in
      let again : At later src.heap 0 xs = record {
        front = stores.0.front;
        rest = stores.0.rest;
        holds = stores.0.holds;
        starts = stores.0.starts;
      } in
      let read : read_range src.heap 0 src.len later ≡ ok xs later =
        ap (λ (k : ℕ). read_range src.heap 0 k later) (sym stores.1)
        ∙ read_range-At later src.heap 0 xs again in
      let items : (length xs == 0) ≡ false = ground (arith, stores.1) in
      rw (differ, refused, read, items, null) refl
