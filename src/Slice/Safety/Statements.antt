-- ===== src/Slice/Safety/Statements.antt =====
-- Statements of a Julê function on variables of type `jule::Slice<Item>`, and their sequences, as the
-- compiler writes them with the members in api/slice.hpp and
-- the functions in api/builtin.hpp.
use julelang.Prelude.{ℕ, ◌<◌, ◌≡◌, ◌≢◌, ◌⊎◌, none, Bool, List, [], ◌∷◌}
use julelang.Prelude.Int.{ℤ}
use julelang.Panic.{Error}
use julelang.Heap.{Heap, Run, Cmd, ok, panic, pure, ◌>>=◌, ◌>>◌}
use julelang.Slice.{Slice, empty_slice, at, set_at, alloc, assign, assign_nil, slice, push, destroy}
use julelang.Builtin.{append, copy}
use julelang.Threads.Family.{put_at}
use julelang.Slice.Safety.{Slices, Safe}

-- A statement on variables i, j and k. Those that make, copy, cut and append end what i held, as at the
-- end of its scope, and make i anew; `assign` is between two variables.
pub data Op (A : Type 0) : Type 0 where
  make_slice : (i len capacity : ℕ) → Op A
  copy_slice : (i j : ℕ) → Op A
  cut_slice : (i j : ℕ) (start end : ℤ) → Op A
  assign_slice : (i j : ℕ) → Op A
  push_item : (i : ℕ) (item : A) → Op A
  append_items : (i j k : ℕ) → Op A
  copy_items : (i j : ℕ) → Op A
  read_item : (i : ℕ) (index : ℤ) → Op A
  write_item : (i : ℕ) (index : ℤ) (item : A) → Op A
  reset_slice : (i : ℕ) → Op A
  end_scope : (i : ℕ) → Op A

module _ {A : Type 0} where
  -- The variables that a statement names are among the first n, and are two where it takes two.
  abbrev pub Names : ℕ → Op A → Type 0
  Names n (make_slice i len capacity) = i < n
  Names n (copy_slice i j) = (i < n) × (j < n) × (i ≢ j)
  Names n (cut_slice i j start end) = (i < n) × (j < n) × (i ≢ j)
  Names n (assign_slice i j) = (i < n) × (j < n) × (i ≢ j)
  Names n (push_item i item) = i < n
  Names n (append_items i j k) = (i < n) × (j < n) × (k < n) × (i ≢ j) × (i ≢ k)
  Names n (copy_items i j) = (i < n) × (j < n)
  Names n (read_item i index) = i < n
  Names n (write_item i index item) = i < n
  Names n (reset_slice i) = i < n
  Names n (end_scope i) = i < n

  abbrev pub AllNames : ℕ → List (Op A) → Type 0
  AllNames n [] = Unit {0}
  AllNames n (op ∷ ops) = Names n op × AllNames n ops

  -- A member's result, put into variable i.
  abbrev pub into : Slices → ℕ → Cmd A Slice → Cmd A Slices
  into vars i m = do s ← m; pure (put_at vars i s)

  -- `fill` is what new items are before the first write.
  unfoldable pub step : A → Op A → Slices → Cmd A Slices
  step fill (make_slice i len capacity) vars =
      destroy (vars i) >> into vars i (alloc fill len capacity)
  step fill (copy_slice i j) vars = destroy (vars i) >> into vars i (assign empty_slice (vars j))
  step fill (cut_slice i j start end) vars =
      destroy (vars i) >> into vars i (slice (vars j) start end)
  step fill (assign_slice i j) vars = into vars i (assign (vars i) (vars j))
  step fill (push_item i item) vars = into vars i (push fill (vars i) item)
  step fill (append_items i j k) vars =
      destroy (vars i)
      >> into vars i (assign empty_slice (vars j) >>= λ src. append fill src (vars k))
  step fill (copy_items i j) vars = copy (vars i) (vars j) >> pure vars
  step fill (read_item i index) vars = at (vars i) index >> pure vars
  step fill (write_item i index item) vars = set_at (vars i) index item >> pure vars
  step fill (reset_slice i) vars = into vars i (assign_nil (vars i))
  step fill (end_scope i) vars = destroy (vars i) >> pure (put_at vars i empty_slice)

  unfoldable pub run : A → List (Op A) → Slices → Cmd A Slices
  run fill [] vars = pure vars
  run fill (op ∷ ops) vars = do vars' ← step fill op vars; run fill ops vars'

  -- A run returns with every window in its block, or panics.
  abbrev pub Fine : ℕ → Run A Slices → Type 0
  Fine n m =
      ((vars : Slices) × (h : Heap A) × (m ≡ ok vars h) × Safe h n vars)
      ⊎ ((e : Error) × (h : Heap A) × (m ≡ panic e h))

  -- Memory with nothing allocated.
  abbrev pub nothing_allocated : (ℕ → Bool) → Heap A
  nothing_allocated grants = record {
    block = λ a. none;
    count = λ p. none;
    next = 0;
    grants = grants;
  }

-- Slices that hold nothing.
abbrev pub no_slices : Slices
no_slices i = empty_slice
