-- ===== src/Env/Executable.antt =====
-- What `executable` of api/env.hpp returns.
use julelang.Prelude.{
  ℕ, zero, suc, ◌<◌, ◌≡◌, refl, ap, arith, false, List, [], ◌∷◌, ◌++◌, none, some, length, ◌==◌,
}
use julelang.Str.{until_nul}
use julelang.Env.{executable}

-- Bytes without a zero.
abbrev pub Path0 : List ℕ → Type 0
Path0 [] = Unit {0}
Path0 (c ∷ cs) = (0 < c) × Path0 cs

until_nul-append :
    (path rest : List ℕ) → Path0 path → until_nul (path ++ rest) ≡ path ++ until_nul rest
unfolding until_nul
until_nul-append [] rest h = refl
until_nul-append (zero ∷ path) rest h = absurd (omega (arith, h.0))
until_nul-append (suc c ∷ path) rest h =
    let other : (suc c == 0) ≡ false = ground arith in
    rw other (ap (λ (l : List ℕ). suc c ∷ l) (until_nul-append path rest h.1))

-- `readlink` writes no zero behind the path: what `executable` returns is the path, and then what the
-- array held behind it, up to the first zero there; and nothing where `readlink` fails.
pub executable_tail :
    (path rest : List ℕ)
    → Path0 path
    → (executable (some (length path)) (path ++ rest) ≡ path ++ until_nul rest)
      × (executable none (path ++ rest) ≡ [])
unfolding executable
executable_tail path rest h = (until_nul-append path rest h, refl)
