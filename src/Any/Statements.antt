-- ===== src/Any/Statements.antt =====
-- Statements of a Julê function on variables of type `jule::Any`, and their sequences, as the compiler
-- writes them with the members in api/any.hpp.
use julelang.Prelude.{ℕ, ◌<◌, ◌≡◌, ◌≢◌, ◌⊎◌, Bool, none, List, [], ◌∷◌}
use julelang.Panic.{Error}
use julelang.Heap.{Heap, Run, Cmd, ok, panic, pure, ◌>>=◌, ◌>>◌}
use julelang.Any.{Any, nil_any, assign_expr, assign_any, any_dealloc, cast, eq_expr, eq_any}
use julelang.Any.Holding.{Boxed}
use julelang.Threads.Family.{put_at}

abbrev pub Anys : Type 0
Anys = ℕ → Any

-- A statement on variables i and j: a value or another variable is assigned, a variable is reset, which
-- is also the end of its scope, is cast to the type with a name, or is compared.
pub data Op (V : Type 0) : Type 0 where
  store_value : (i : ℕ) (v : V) → Op V
  store_variable : (i j : ℕ) → Op V
  reset : (i : ℕ) → Op V
  cast_to : (i name : ℕ) → Op V
  compare_value : (i : ℕ) (v : V) → Op V
  compare_variable : (i j : ℕ) → Op V

module _ {V : Type 0} where
  -- The variables that a statement names are among the first n.
  abbrev pub Names : ℕ → Op V → Type 0
  Names n (store_value i v) = i < n
  Names n (store_variable i j) = (i < n) × (j < n)
  Names n (reset i) = i < n
  Names n (cast_to i name) = i < n
  Names n (compare_value i v) = i < n
  Names n (compare_variable i j) = (i < n) × (j < n)

  abbrev pub AllNames : ℕ → List (Op V) → Type 0
  AllNames n [] = Unit {0}
  AllNames n (op ∷ ops) = Names n op × AllNames n ops

  -- A member's result, put into variable i.
  abbrev pub into : Anys → ℕ → Cmd V Any → Cmd V Anys
  into vars i m = do a ← m; pure (put_at vars i a)

  -- Memory with nothing allocated.
  abbrev pub nothing_allocated : (ℕ → Bool) → Heap V
  nothing_allocated grants = record {
    block = λ a. none;
    count = λ p. none;
    next = 0;
    grants = grants;
  }

-- Variables that hold nothing.
abbrev pub no_values : Anys
no_values i = nil_any

module _ {V : Type 0} (type_name : V → ℕ) (eq : V → V → Bool) where
  unfoldable pub step : Op V → Anys → Cmd V Anys
  step (store_value i v) vars = into vars i (assign_expr type_name eq (vars i) v)
  step (store_variable i j) vars = into vars i (assign_any type_name eq (vars i) (vars j))
  step (reset i) vars = into vars i (any_dealloc type_name eq (vars i))
  step (cast_to i name) vars = cast type_name eq name (vars i) >> pure vars
  step (compare_value i v) vars = eq_expr type_name eq (vars i) v >> pure vars
  step (compare_variable i j) vars = eq_any type_name eq (vars i) (vars j) >> pure vars

  unfoldable pub run : List (Op V) → Anys → Cmd V Anys
  run [] vars = pure vars
  run (op ∷ ops) vars = do vars' ← step op vars; run ops vars'

  -- Each variable is nil or has a value in a block of its own, and no other block is allocated.
  pub record Owned (h : Heap V) (n : ℕ) (vars : Anys) : Type 0 where
    pub holds : (i : ℕ) → i < n → (vars i ≡ nil_any) ⊎ ((v : V) × Boxed type_name eq h (vars i) v)
    pub apart :
        (i j : ℕ) → i < n → j < n → i ≢ j → 0 < (vars i).data' → (vars i).data' ≢ (vars j).data'
    pub used : (p : ℕ) → 0 < p → (h.block p ≡ none) ⊎ ((i : ℕ) × (i < n) × ((vars i).data' ≡ p))

  -- A run returns with every variable the owner of its value, or panics.
  abbrev pub Fine : ℕ → Run V Anys → Type 0
  Fine n m =
      ((vars : Anys) × (h : Heap V) × (m ≡ ok vars h) × Owned h n vars)
      ⊎ ((e : Error) × (h : Heap V) × (m ≡ panic e h))
