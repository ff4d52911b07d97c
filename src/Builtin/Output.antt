-- ===== src/Builtin/Output.antt =====
-- `out` and `outln` of api/builtin.hpp: what reaches the standard output, as bytes, and on Windows the
-- console, as UTF-16 units. What an object writes on a stream is a parameter.
use julelang.Prelude.{arith, ℕ, ◌≡◌, ◌∙◌, Option, none, some, List, [], ◌∷◌, ◌++◌, append_assoc}
use julelang.Prelude.Int.{ℤ}
use julelang.Str.{Str, to_runes}
use julelang.Str.Runes.{AllBytes, to_runes_total}
use julelang.Utf16.{utf16_from_str}
use julelang.Utf16.Encode.{all_units, before_zero, utf16_from_str-units}

-- The two ends of a Windows program's output: `std::cout` and the console.
pub record Output : Type 0 where
  pub cout : Str
  pub console : List ℕ

module _ {T : Type 0} (show : T → Str) where
  -- `out` where OS_WINDOWS is not defined.
  unfoldable pub out_unix : T → Str → Str
  out_unix obj cout = cout ++ show obj

  -- `outln` there.
  unfoldable pub outln_unix : T → Str → Str
  outln_unix obj cout = out_unix obj cout ++ (10 ∷ [])

  -- `out` on Windows: `WriteConsoleW` is given `utf16_str.len()` units.
  unfoldable pub out_windows : T → Output → Option Output
  out_windows obj output = elim (utf16_from_str (show obj)) [
    | none ↦ none
    | some utf16_str ↦ some (record output { console = output.console ++ utf16_str })
  ]

  -- `outln` there: the end of the line goes to `std::cout`.
  unfoldable pub outln_windows : T → Output → Option Output
  outln_windows obj output = elim (out_windows obj output) [
    | none ↦ none
    | some written ↦ some (record written { cout = written.cout ++ (10 ∷ []) })
  ]

  -- On Windows `outln` ends for any object that writes bytes, and the console is given the units of the runes in front
  -- of the first zero, and a zero unit behind them; the end of the line goes to the other stream.
  pub outln_windows-units :
      (obj : T) (output : Output)
      → AllBytes (show obj)
      → (rs : List ℤ) × (to_runes (show obj) ≡ some rs)
        × (outln_windows obj output
            ≡ some (record {
              cout = output.cout ++ (10 ∷ []);
              console = output.console ++ (all_units (before_zero rs) ++ (0 ∷ []));
            }))
  unfolding outln_windows out_windows
  outln_windows-units obj output bytes =
      let (rs, decoded, _) = to_runes_total (show obj) bytes in
      (rs, decoded, ground (arith, utf16_from_str-units (show obj) rs decoded))

  -- Elsewhere the output of one object behind another is the bytes of both.
  pub outln_unix-out_unix :
      (a b : T) (cout : Str)
      → outln_unix b (out_unix a cout) ≡ cout ++ (show a ++ (show b ++ (10 ∷ [])))
  unfolding outln_unix out_unix
  outln_unix-out_unix a b cout =
      append_assoc (cout ++ show a) (show b) (10 ∷ [])
      ∙ append_assoc cout (show a) (show b ++ (10 ∷ []))
