-- ===== src/Signal.antt =====
-- api/signal.hpp: the signals of each system, `set_sig_handler` and `signal_handler`. What
-- `std::signal` does to the process is a parameter.
pub mod Windows
pub mod Darwin
pub mod Linux
pub mod Handlers
mod Tests
use julelang.Prelude.{ℕ, ◌≡◌, ◌≢◌, Bool, true, false, List, [], ◌∷◌}
use julelang.Platform.{Os, windows, linux, darwin}
use julelang.Signal.Windows
use julelang.Signal.Darwin
use julelang.Signal.Linux

-- `std::signal` on a process, whose table has a handler for each signal: it sets the handler of one
-- signal, or of none where the system does not let that signal be caught.
pub record StdSignal (H : Type 0) : Type 1 where
  pub Process : Type 0
  pub handler : Process → ℕ → H
  pub signal : ℕ → H → Process → Process
  pub can_catch : ℕ → Bool
  pub handler-signal_same :
      (n : ℕ) (f : H) (p : Process) → can_catch n ≡ true → handler (signal n f p) n ≡ f
  pub handler-signal_refused :
      (n : ℕ) (f : H) (p : Process) → can_catch n ≡ false → handler (signal n f p) n ≡ handler p n
  pub handler-signal_other :
      (n m : ℕ) (f : H) (p : Process) → n ≢ m → handler (signal n f p) m ≡ handler p m

-- The arguments of the calls of `std::signal`, in their order.
pub signals : Os → List ℕ
signals windows = Windows.calls
signals darwin = Darwin.calls
signals linux = Linux.calls

module _ {H : Type 0} (std : StdSignal H) where
  -- The calls.
  pub set_all : List ℕ → H → std.Process → std.Process
  set_all [] f p = p
  set_all (n ∷ ns) f p = set_all ns f (std.signal n f p)

  pub set_sig_handler : Os → H → std.Process → std.Process
  set_sig_handler os f p = set_all (signals os) f p

-- `signal_handler`: the number that it prints behind its text, and the status that it exits with.
pub record Exit : Type 0 where
  pub printed : ℕ
  pub status : ℕ

pub signal_handler : ℕ → Exit
signal_handler sig = record { printed = sig; status = sig }
