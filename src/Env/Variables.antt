-- ===== src/Env/Variables.antt =====
-- What `env` of api/env.hpp returns.
use julelang.Prelude.{
  ℕ, zero, suc, ◌≤◌, ◌<◌, ◌≡◌, refl, ap, ◌∙◌, sym, arith, List, [], ◌∷◌, ◌++◌, some, map, length,
  length-append, append_assoc, append-nil,
}
use julelang.Prelude.Int.{ℤ}
use julelang.Panic
use julelang.Panic.{Result}
use julelang.Str.{Str, until_nul, from_runes}
use julelang.Utf16.{u16, utf16_to_utf8_str}
use julelang.Utf16.Decode.{decoded, utf16_to_utf8_str-decoded}
use julelang.Env.{env, env_loop, next_entry, env_windows, env_windows_loop}

env_loop-append :
    (vars envp : List Str) → env_loop vars envp ≡ (vars ++ map (λ e. until_nul e) envp, [])
unfolding env_loop
env_loop-append vars [] = ap (λ (l : List Str). (l, [])) (sym (append-nil vars))
env_loop-append vars (e ∷ envp) =
    env_loop-append (vars ++ (until_nul e ∷ [])) envp
    ∙ ap (λ (l : List Str). (l, []))
        (append_assoc vars (until_nul e ∷ []) (map (λ e. until_nul e) envp))

-- On Linux the first call returns all variables, and every call behind it returns none.
pub env_drained :
    (envp : List Str) → ((env envp).0 ≡ map (λ e. until_nul e) envp) × (env (env envp).1 ≡ ([], []))
unfolding env env_loop
env_drained envp =
    let run = env_loop-append [] envp in
    (
      ap (λ (r : List Str × List Str). r.0) run,
      ap (λ (r : List Str × List Str). env_loop [] r.1) run,
    )

-- Wide characters without a zero.
abbrev pub NoZero : List ℕ → Type 0
NoZero [] = Unit {0}
NoZero (c ∷ cs) = (0 < c) × NoZero cs

-- Entries that are not empty and have no zero in them.
abbrev pub Entries : List (List ℕ) → Type 0
Entries [] = Unit {0}
Entries (e ∷ es) = (0 < length e) × NoZero e × Entries es

-- The block that Windows lays out: each entry with a zero behind it, and a last zero.
unfoldable pub laid_out : List (List ℕ) → List ℕ
laid_out [] = 0 ∷ []
laid_out (e ∷ es) = e ++ (0 ∷ laid_out es)

next_entry-NoZero : (e rest : List ℕ) → NoZero e → next_entry (e ++ (0 ∷ rest)) ≡ (e, rest)
unfolding next_entry
next_entry-NoZero [] rest h = refl
next_entry-NoZero (zero ∷ e) rest h = absurd (omega (arith, h.0))
next_entry-NoZero (suc c ∷ e) rest h =
    ap (λ (p : List ℕ × List ℕ). (suc c ∷ p.0, p.1)) (next_entry-NoZero e rest h.1)

abbrev pub as_utf8 : List ℕ → Str
as_utf8 e = from_runes (decoded (map (λ w. u16 w) e))

windows_loop :
    (fuel : ℕ) (fill : ℤ) (vars : List Str) (es : List (List ℕ))
    → Entries es
    → length es ≤ fuel
    → env_windows_loop fuel fill vars (laid_out es) ≡ some (Panic.ok (vars ++ map as_utf8 es))
unfolding env_windows_loop laid_out
windows_loop fuel fill vars [] h enough =
    ap (λ (l : List Str). some (Panic.ok l)) (sym (append-nil vars))
windows_loop fuel fill vars ([] ∷ es) h enough = absurd (omega (arith, h.0))
windows_loop fuel fill vars ((zero ∷ e) ∷ es) h enough = absurd (omega (arith, h.1.0))
windows_loop zero fill vars ((suc c ∷ e) ∷ es) h enough = absurd (omega (arith, enough))
windows_loop (suc fuel) fill vars ((suc c ∷ e) ∷ es) h enough =
    ap
      (λ (p : List ℕ × List ℕ). elim (utf16_to_utf8_str fill p.0) [
        | Panic.panic e ↦ some (Panic.panic e)
        | Panic.ok s ↦ env_windows_loop fuel fill (vars ++ (s ∷ [])) (p.1)
      ])
      (next_entry-NoZero (suc c ∷ e) (laid_out es) h.1)
    ∙ (ap
          (λ (r : Result Str). elim (r) [
            | Panic.panic e ↦ some (Panic.panic e)
            | Panic.ok s ↦ env_windows_loop fuel fill (vars ++ (s ∷ [])) (laid_out es)
          ])
          (utf16_to_utf8_str-decoded fill (suc c ∷ e))
        ∙ (windows_loop fuel fill (vars ++ (as_utf8 (suc c ∷ e) ∷ [])) es h.2 (omega arith)
            ∙ ap (λ (l : List Str). some (Panic.ok l))
                (append_assoc vars (as_utf8 (suc c ∷ e) ∷ []) (map as_utf8 es))))

length-laid_out : (es : List (List ℕ)) → Entries es → length es ≤ length (laid_out es)
unfolding laid_out
length-laid_out [] h = omega arith
length-laid_out (e ∷ es) h =
    omega (arith, length-append e (0 ∷ laid_out es), length-laid_out es h.2)

-- On Windows the block of the environment, whose entries are not empty and have no zero in them, is
-- taken apart into its entries, in UTF-8.
pub env_windows-laid_out :
    (fill : ℤ) (es : List (List ℕ))
    → Entries es
    → env_windows fill (laid_out es) ≡ some (Panic.ok (map as_utf8 es))
unfolding env_windows
env_windows-laid_out fill es h =
    windows_loop (length (laid_out es)) fill [] es h (length-laid_out es h)
