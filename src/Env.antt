-- ===== src/Env.antt =====
-- api/env.hpp: the arguments, the environment and the path of the program, on Linux and on Windows.
-- What the system hands over is an argument: C strings as lists of their bytes, with all that is read
-- of them. The slice that `env` pushes to and returns is the list of its items.
pub mod Arguments
pub mod Variables
pub mod Executable
pub mod Systems
mod Tests
use julelang.Prelude.{
  ℕ, zero, suc, ◌+◌, ◌-◌, List, [], ◌∷◌, ◌++◌, Option, none, some, map, length, ◌==◌, if◌then◌else◌,
}
use julelang.Prelude.Int.{ℤ}
use julelang.Panic
use julelang.Panic.{Result}
use julelang.Heap.{Heap, Run, Cmd, pure, ◌>>=◌, ◌>>◌}
use julelang.Slice.{Slice, empty_slice, alloc_new, store_each}
use julelang.Str.{Str, until_nul}
use julelang.Utf16.{utf16_to_utf8_str}

-- `args` on Linux: `argv` has `argc` strings.
pub args : List Str → Cmd Str Slice
args argv = do
  s ← alloc_new [] empty_slice 0 (length argv)
  store_each (record s { len = length argv }) 0 (map (λ a. until_nul a) argv)

-- `env` on Linux: the loop moves the global `envp`, whose strings up to the null pointer are the list;
-- what it is at the end is returned, too.
pub env_loop : List Str → List Str → List Str × List Str
env_loop vars [] = (vars, [])
env_loop vars (e ∷ envp) = env_loop (vars ++ (until_nul e ∷ [])) envp

pub env : List Str → List Str × List Str
env envp = env_loop [] envp

-- `env` on Windows: the inner loop gives the wide characters before the next zero, and what is behind
-- that zero.
pub next_entry : List ℕ → List ℕ × List ℕ
next_entry [] = ([], [])
next_entry (zero ∷ cs) = ([], cs)
next_entry (suc c ∷ cs) = let (entry, rest) = next_entry cs in (suc c ∷ entry, rest)

-- The outer loop, from `latest` on; `none` where the fuel runs out.
pub env_windows_loop : ℕ → ℤ → List Str → List ℕ → Option (Result (List Str))
env_windows_loop fuel fill vars [] = some (Panic.ok vars)
env_windows_loop fuel fill vars (zero ∷ cs) = some (Panic.ok vars)
env_windows_loop zero fill vars (suc c ∷ cs) = none
env_windows_loop (suc fuel) fill vars (suc c ∷ cs) =
    let (entry, rest) = next_entry (suc c ∷ cs) in
    elim (utf16_to_utf8_str fill entry) [
      | Panic.panic e ↦ some (Panic.panic e)
      | Panic.ok s ↦ env_windows_loop fuel fill (vars ++ (s ∷ [])) rest
    ]

pub env_windows : ℤ → List ℕ → Option (Result (List Str))
env_windows fill block = env_windows_loop (length block) fill [] block

-- `executable` on Linux: `readlink` returns a count, or nothing for -1, and leaves `result` as it is
-- given, the path and what the array held behind it.
pub executable : Option ℕ → List ℕ → Str
executable none result = []
executable (some count) result = until_nul result
