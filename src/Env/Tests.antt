-- ===== src/Env/Tests.antt =====
-- The theorem on the environment of api/env.hpp at two entries.
use julelang.Prelude.{ℕ, ◌≡◌, some, List, [], ◌∷◌, map, arith}
use julelang.Prelude.Int.{ℤ, pos}
use julelang.Panic
use julelang.Panic.{Result}
use julelang.Str.{Str, until_nul}
use julelang.Env.{env, env_windows}
use julelang.Env.Variables.{Entries, laid_out, as_utf8, env_drained, env_windows-laid_out}

abbrev entries : List (List ℕ)
entries = (65 ∷ 61 ∷ 66 ∷ []) ∷ (67 ∷ 61 ∷ []) ∷ []

entries-Entries : Entries entries
entries-Entries = (
  omega arith,
  (omega arith, (omega arith, (omega arith, tt))),
  (omega arith, (omega arith, (omega arith, tt)), tt),
)

abbrev filler : ℤ
filler = pos 0

abbrev variables : List Str
variables = (65 ∷ 61 ∷ 66 ∷ []) ∷ []

env_windows-laid_out_example :
    env_windows filler (laid_out entries) ≡ some (Panic.ok (map as_utf8 entries))
env_windows-laid_out_example = env_windows-laid_out filler entries entries-Entries

env_drained_example :
    ((env variables).0 ≡ map (λ e. until_nul e) variables) × (env (env variables).1 ≡ ([], []))
env_drained_example = env_drained variables
