-- ===== src/Signal/Handlers.antt =====
-- Which signals `set_sig_handler` of api/signal.hpp sets.
use julelang.Prelude.{ℕ, Bool, false, ◌&&◌, ◌||◌, List, [], ◌∷◌, ◌==◌, if◌then◌else◌}
use julelang.Signal.{StdSignal}

-- Whether the number is in the list.
pub elem : ℕ → List ℕ → Bool
elem n [] = false
elem n (m ∷ ns) = (m == n) || elem n ns

module _ {H : Type 0} (std : StdSignal H) where
  -- The handler of a signal afterwards, in terms of the one that it had.
  abbrev pub result : List ℕ → H → H → ℕ → H
  result ns f old n = if elem n ns && std.can_catch n then f else old
