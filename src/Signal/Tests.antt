-- ===== src/Signal/Tests.antt =====
-- The theorem on api/signal.hpp at a table of handlers.
use julelang.Prelude.{ℕ, ◌≡◌, ◌≢◌, Bool, true, false, arith, ◌==◌, if◌then◌else◌}
use julelang.Prelude.{not, ◌&&◌, ◌||◌}
use julelang.Signal.{StdSignal}

abbrev can_catch : ℕ → Bool
can_catch n = not ((n == 9) || (n == 19))

abbrev signal : ℕ → ℕ → (ℕ → ℕ) → ℕ → ℕ
signal n f p m = if (n == m) && can_catch n then f else p m

signal_same : (n f : ℕ) (p : ℕ → ℕ) → can_catch n ≡ true → signal n f p n ≡ f
signal_same n f p catch = ground (arith, catch)

signal_refused : (n f : ℕ) (p : ℕ → ℕ) → can_catch n ≡ false → signal n f p n ≡ p n
signal_refused n f p never = ground (arith, never)

signal_other : (n m f : ℕ) (p : ℕ → ℕ) → n ≢ m → signal n f p m ≡ p m
signal_other n m f p other = ground (arith, other)

abbrev process : StdSignal ℕ
process = record {
  Process = ℕ → ℕ;
  handler = λ p n. p n;
  signal = signal;
  can_catch = can_catch;
  handler-signal_same = signal_same;
  handler-signal_refused = signal_refused;
  handler-signal_other = signal_other;
}

abbrev started : ℕ → ℕ
started n = 0

abbrev own : ℕ
own = 5

abbrev interrupt : ℕ
interrupt = 2
