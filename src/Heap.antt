-- ===== src/Heap.antt =====
-- The memory that api/ref.hpp and api/slice.hpp manage. A pointer is a number, 0 is `nullptr`. A
-- block holds the items of one `new T` or `new T[n]`; a reference count is an allocation of its own.
-- Which attempts to allocate succeed is given by `grants`; an attempt's address is never used again.
use julelang.Prelude.{ℕ, suc, ◌+◌, ◌%◌, ◌^◌, Bool, Option, none, some, List, ◌==◌, if◌then◌else◌}
use julelang.Panic.{Error}

pub record Heap (A : Type 0) : Type 0 where
  pub block : ℕ → Option (List A)
  pub count : ℕ → Option ℕ
  pub next : ℕ
  pub grants : ℕ → Bool

-- A run returns, panics with the memory as it is then, or has no defined behaviour: it reads,
-- writes or frees memory that is not allocated.
pub data Run (A X : Type 0) : Type 0 where
  ok : X → Heap A → Run A X
  panic : Error → Heap A → Run A X
  fault : Run A X

abbrev pub Cmd : Type 0 → Type 0 → Type 0
Cmd A X = Heap A → Run A X

module _ {A X : Type 0} where
  abbrev pub pure : X → Cmd A X
  pure x h = ok x h

  abbrev pub throw : Error → Cmd A X
  throw e h = panic e h

module _ {A X Y : Type 0} where
  abbrev pub and_then : Run A X → (X → Cmd A Y) → Run A Y
  and_then (ok x h) k = k x h
  and_then (panic e h) k = panic e h
  and_then fault k = fault

  infixl 5 ◌>>=◌ ◌>>◌
  abbrev pub ◌>>=◌ : Cmd A X → (X → Cmd A Y) → Cmd A Y
  m >>= k = λ h. and_then (m h) k

  abbrev pub ◌>>◌ : Cmd A X → Cmd A Y → Cmd A Y
  m >> k = m >>= λ _. k

module _ {X : Type 0} where
  abbrev pub put : (ℕ → Option X) → ℕ → Option X → ℕ → Option X
  put f p c q = if p == q then c else f q

module _ {A : Type 0} where
  -- `new (std::nothrow) jule::Uint`, set to `n`; 0 if there is no memory.
  unfoldable pub new_count : ℕ → Cmd A ℕ
  new_count n h =
      let p = suc h.next in
      if h.grants h.next
      then ok p (record h { count = put h.count p (some n); next = p })
      else ok 0 (record h { next = p })

  -- `new (std::nothrow) T` or `new (std::nothrow) T[n]`, with the items written to it.
  unfoldable pub new_block : List A → Cmd A ℕ
  new_block items h =
      let p = suc h.next in
      if h.grants h.next
      then ok p (record h { block = put h.block p (some items); next = p })
      else ok 0 (record h { next = p })

  unfoldable pub load_count : ℕ → Cmd A ℕ
  load_count p h = elim (h.count p) [ none ↦ fault | some n ↦ ok n h ]

  -- `__atomic_fetch_add` on a 64-bit count: the old value is returned, the new one wraps.
  unfoldable pub fetch_add : ℕ → ℕ → Cmd A ℕ
  fetch_add p delta h = elim (h.count p) [
    | none ↦ fault
    | some n ↦ ok n (record h { count = put h.count p (some ((n + delta) % 2 ^ 64)) })
  ]

  -- `delete` of a count.
  unfoldable pub delete_count : ℕ → Cmd A (Unit {0})
  delete_count p h = elim (h.count p) [
    | none ↦ fault
    | some n ↦ ok tt (record h { count = put h.count p none })
  ]

  -- `delete` and `delete[]` of a block; a null pointer is left alone.
  unfoldable pub delete_block : ℕ → Cmd A (Unit {0})
  delete_block p h = if p == 0 then ok tt h else elim (h.block p) [
    | none ↦ fault
    | some items ↦ ok tt (record h { block = put h.block p none })
  ]

  unfoldable pub load_block : ℕ → Cmd A (List A)
  load_block p h = elim (h.block p) [ none ↦ fault | some items ↦ ok items h ]

  unfoldable pub store_block : ℕ → List A → Cmd A (Unit {0})
  store_block p items h = elim (h.block p) [
    | none ↦ fault
    | some old ↦ ok tt (record h { block = put h.block p (some items) })
  ]
