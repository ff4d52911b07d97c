-- ===== src/Defer/Tests.antt =====
-- The theorem on deferred blocks of api/defer.hpp at a scope that logs numbers.
use julelang.Prelude.{ℕ, ◌≡◌, refl, List, [], ◌∷◌, ◌++◌}
use julelang.Panic.{invalid_memory}
use julelang.Defer.{
  Exit, done, raised, terminated, Statement, plain, deferred, exec, unwind, leave, destruct,
  defer_block, end_call,
}
use julelang.Defer.Structured.{structured, exec-structured}

abbrev log : ℕ → List ℕ → Exit (List ℕ)
log n entries = done (entries ++ (n ∷ []))

abbrev failing : List ℕ → Exit (List ℕ)
failing entries = raised invalid_memory entries

-- Two deferred blocks, code that panics, and a block that is never met.
abbrev scope : List (Statement (List ℕ))
scope = deferred (log 1) ∷ plain (log 2) ∷ deferred (log 3) ∷ plain failing ∷ deferred (log 4) ∷ []

abbrev empty_log : List ℕ
empty_log = []

exec_reverse : exec scope [] empty_log ≡ raised invalid_memory (2 ∷ 3 ∷ 1 ∷ [])
unfolding exec unwind leave destruct defer_block end_call
exec_reverse = refl

-- A block that panics itself.
exec_terminated : exec (deferred failing ∷ []) [] empty_log ≡ terminated
unfolding exec unwind leave destruct defer_block end_call
exec_terminated = refl

exec-structured_example : exec scope [] empty_log ≡ structured scope empty_log
exec-structured_example = exec-structured scope empty_log
