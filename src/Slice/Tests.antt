-- ===== src/Slice/Tests.antt =====
-- The theorems on api/slice.hpp at concrete slices.
use julelang.Prelude.{
  ℕ, ◌+◌, ◌*◌, ◌<◌, ◌≡◌, ◌≢◌, refl, Bool, true, false, none, some, List, [], ◌∷◌, ◌++◌, arith,
  length, ◌==◌, if◌then◌else◌,
}
use julelang.Prelude.Int.{pos}
use julelang.Heap.{Heap, ok, ◌>>=◌, ◌>>◌}
use julelang.Ref.{Ref}
use julelang.Slice.{Slice, slice, set_at, push, assign_nil, destroy}
use julelang.Slice.Items.{Holds}
use julelang.Slice.Sharing.{set_at-slice}
use julelang.Slice.Release.{Counted, destroy_each, destroy_each-frees, assign_nil_leak}
use julelang.Slice.Push.{push_grow-Holds}
use julelang.Slice.Race.{loading, done, interleave, race-leaks}
use julelang.Slice.Safety.Statements.{
  Op, make_slice, copy_slice, cut_slice, assign_slice, push_item, append_items, copy_items,
  read_item, reset_slice, end_scope, AllNames, run, Fine, nothing_allocated, no_slices,
}
use julelang.Slice.Safety.Program.{initial-Safe, run-Safe}

-- Block 1 with three items and room for a fourth, counted `n` times at address 2.
abbrev memory : ℕ → Heap ℕ
memory n = record {
  block = λ a. if a == 1 then some (10 ∷ 20 ∷ 30 ∷ 0 ∷ []) else none;
  count = λ p. if p == 2 then some n else none;
  next = 2;
  grants = λ _. true;
}

abbrev one_owner : Heap ℕ
one_owner = memory 1

abbrev two_owners : Heap ℕ
two_owners = memory 2

abbrev reference : Ref
reference = record { alloc = 1; ref = 2 }

abbrev s3 : Slice
s3 = record { refs = reference; base = 1; off = 0; len = 3; cap = 4 }

abbrev full : Slice
full = record { refs = reference; base = 1; off = 0; len = 3; cap = 3 }

abbrev items : List ℕ
items = 10 ∷ 20 ∷ 30 ∷ []

abbrev block : List ℕ
block = 10 ∷ 20 ∷ 30 ∷ 0 ∷ []

abbrev front : List ℕ
front = 10 ∷ []

abbrev owners : ℕ
owners = 2

abbrev none_left : List ℕ
none_left = []

s3-Holds : (n : ℕ) → Holds (memory n) s3 items
s3-Holds n = record {
  here = record { front = []; rest = 0 ∷ []; holds = refl; starts = refl };
  len = refl;
  within = omega arith;
  room = omega arith;
  real = omega arith;
}

full-Holds : (n : ℕ) → Holds (memory n) full items
full-Holds n = record {
  here = record { front = []; rest = 0 ∷ []; holds = refl; starts = refl };
  len = refl;
  within = omega arith;
  room = omega arith;
  real = omega arith;
}

reference-Counted : (n : ℕ) → Counted (memory n) reference n block
reference-Counted n = record {
  counted = omega arith;
  placed = omega arith;
  count = refl;
  block = refl;
}

abbrev always : ℕ → Bool
always _ = true

-- Variable 1 is cut from variable 0, which grows away from it, and is appended to it in variable 2,
-- whose items are copied to variable 1; then variable 2 takes over variable 1, and variable 0 variable 2.
abbrev program : List (Op ℕ)
program =
    make_slice 0 2 2
    ∷ cut_slice 1 0 (pos 1) (pos 2)
    ∷ push_item 0 40
    ∷ append_items 2 0 1
    ∷ copy_items 1 2
    ∷ copy_slice 2 1
    ∷ assign_slice 0 2
    ∷ read_item 0 (pos 0)
    ∷ reset_slice 1
    ∷ end_scope 2
    ∷ end_scope 0
    ∷ []

apart : (i j : ℕ) → (i == j) ≡ false → i ≢ j
apart i j e = ground (arith, e)

appended : (2 < 3) × (0 < 3) × (1 < 3) × (◌≢◌ {A = ℕ} 2 0) × (◌≢◌ {A = ℕ} 2 1)
appended = (omega arith, omega arith, omega arith, apart 2 0 refl, apart 2 1 refl)

program-Names : AllNames 3 program
program-Names = (
  omega arith,
  (
    (omega arith, omega arith, apart 1 0 refl),
    (
      omega arith,
      (
        appended,
        (
          (omega arith, omega arith),
          (
            (omega arith, omega arith, apart 2 1 refl),
            (
              (omega arith, omega arith, apart 0 2 refl),
              (omega arith, (omega arith, (omega arith, (omega arith, tt)))),
            ),
          ),
        ),
      ),
    ),
  ),
)

run-Safe_example : Fine 3 (run 0 program no_slices (nothing_allocated always))
run-Safe_example =
    run-Safe 0 3 program no_slices (nothing_allocated always) (omega arith) program-Names
      (initial-Safe always 3)

set_at-slice_example :
    (t : Slice) × (h' : Heap ℕ) × (h'' : Heap ℕ) × (slice s3
        (pos (length front))
        (pos (length front + length (none_left ++ (20 ∷ none_left))))
        one_owner
      ≡ ok t h')
    × (set_at t (pos (length none_left)) 21 h' ≡ ok tt h'')
    × Holds h'' s3 (front ++ ((none_left ++ (21 ∷ none_left)) ++ (30 ∷ [])))
    × Holds h'' t (none_left ++ (21 ∷ none_left))
set_at-slice_example =
    set_at-slice one_owner s3 front none_left 20 21 none_left (30 ∷ []) 1 (s3-Holds 1) (omega arith)
      refl (omega arith)

destroy_each-frees_example :
    (h' : Heap ℕ) × (destroy_each (s3 ∷ (full ∷ [])) two_owners ≡ ok tt h')
    × (h'.count reference.ref ≡ none)
    × (h'.block reference.alloc ≡ none)
destroy_each-frees_example =
    destroy_each-frees two_owners reference block s3 (full ∷ []) (reference-Counted 2) (omega arith)
      (refl, (refl, tt))

assign_nil_leak_example :
    (h' : Heap ℕ) × ((assign_nil s3 >>= λ s'. destroy full >> destroy s') two_owners ≡ ok tt h')
    × (h'.count s3.refs.ref ≡ none)
    × (h'.block s3.refs.alloc ≡ some block)
assign_nil_leak_example = assign_nil_leak two_owners s3 full block (reference-Counted 2) refl

race-leaks_example :
    (h' : Heap ℕ) × (interleave reference
        (false ∷ true ∷ false ∷ true ∷ true ∷ [])
        loading
        loading
        two_owners
      ≡ ok (done, done) h')
    × (h'.count reference.ref ≡ none)
    × (h'.block reference.alloc ≡ some block)
race-leaks_example = race-leaks two_owners reference block (reference-Counted 2)

push_grow-Holds_example :
    (s' : Slice) × (h' : Heap ℕ) × (push 0 full 40 two_owners ≡ ok s' h')
    × Holds h' s' (items ++ (40 ∷ []))
    × (s'.cap ≡ (full.len + 1) * 2)
    × (h'.count s'.refs.ref ≡ some 1)
    × (h'.count full.refs.ref ≡ (if 1 == 0 then none else some 1))
    × (h'.block full.refs.alloc ≡ (if 1 == 0 then none else some block))
push_grow-Holds_example =
    push_grow-Holds 0 two_owners full items 40 block 1 (full-Holds 2) refl (reference-Counted 2)
      (omega arith) (omega arith) (omega arith) (omega arith) refl refl
