-- ===== src/Env/Systems.antt =====
-- `args` of api/env.hpp on Windows, and `executable` on Windows and Darwin. A wide string is a list of
-- its characters, with all that is read of it.
pub mod Laws
use julelang.Prelude.{ℕ, List, [], ◌∷◌, length, take, ◌==◌, if◌then◌else◌}
use julelang.Prelude.Int.{ℤ}
use julelang.Panic
use julelang.Panic.{Result}
use julelang.Heap.{Cmd, throw, ◌>>=◌}
use julelang.Slice.{Slice, empty_slice, alloc_new, store_each}
use julelang.Str.{Str, until_nul}
use julelang.Utf16.{utf16_to_utf8_str}

-- The conversions of the loop in `args`, each of the characters that `wcslen` counts.
pub wide_args : ℤ → List (List ℕ) → Result (List Str)
wide_args fill [] = Panic.ok []
wide_args fill (warg ∷ argvw) = elim (utf16_to_utf8_str fill (until_nul warg)) [
  | Panic.panic e ↦ Panic.panic e
  | Panic.ok arg ↦ elim (wide_args fill argvw) [
    | Panic.panic e ↦ Panic.panic e
    | Panic.ok args ↦ Panic.ok (arg ∷ args)
  ]
]

-- `args` on Windows, where `CommandLineToArgvW` has returned `argvw` and its length.
unfoldable pub args_windows : ℤ → List (List ℕ) → Cmd Str Slice
args_windows fill argvw = do
  s ← alloc_new [] empty_slice 0 (length argvw)
  elim (wide_args fill argvw) [
    | Panic.panic e ↦ throw e
    | Panic.ok args ↦ store_each (record s { len = length argvw }) 0 args
  ]

-- `executable` on Windows: `GetModuleFileNameW` has returned `n` and written to `buffer`.
unfoldable pub executable_windows : ℤ → ℕ → List ℕ → Result Str
executable_windows fill n buffer =
    if n == 0 then Panic.ok [] else utf16_to_utf8_str fill (take n buffer)

-- `executable` on Darwin: `_NSGetExecutablePath` has returned `status` and written to `buff`.
unfoldable pub executable_darwin : ℕ → List ℕ → Str
executable_darwin status buff = if status == 0 then until_nul buff else []
