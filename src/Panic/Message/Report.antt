-- ===== src/Panic/Message/Report.antt =====
-- What a panic that nothing handles writes, and what of its message reaches a handler.
use julelang.Prelude.{ℕ, ◌≡◌, ◌≢◌, refl, [], ◌∷◌, ◌++◌, arith, Bool, true, not, ◌==◌, ◌&&◌}
use julelang.Prelude.Int.{ℤ}
use julelang.Panic.{
  Error, invalid_memory, incompatible_type, allocation_failed, divide_by_zero, index_out_of_range,
  slicing_out_of_range, slice_len_negative, slice_cap_negative, slice_len_above_cap,
}
use julelang.Str.{Str, until_nul}
use julelang.Terminate.{terminate_handler}
use julelang.Panic.Message.{
  out_of_range_text, write_index, write_slicing, message, panic_c_str, what, thrown,
}

-- No byte is zero.
abbrev pub NoNul : Str → Type 0
NoNul [] = Unit {0}
NoNul (b ∷ s) = (b ≢ 0) × NoNul s

until_nul-NoNul : (s : Str) → NoNul s → until_nul s ≡ s
unfolding until_nul
until_nul-NoNul [] full = refl
until_nul-NoNul (b ∷ s) (byte, full) = ground (arith, byte, until_nul-NoNul s full)

append-NoNul : (s t : Str) → NoNul s → NoNul t → NoNul (s ++ t)
append-NoNul [] t full full' = full'
append-NoNul (b ∷ s) t (byte, full) full' = (byte, append-NoNul s t full full')

-- The bytes of a constant text are tested.
abbrev no_nul : Str → Bool
no_nul [] = true
no_nul (b ∷ s) = not (b == 0) && no_nul s

no_nul-NoNul : (s : Str) → no_nul s ≡ true → NoNul s
no_nul-NoNul [] tested = tt
no_nul-NoNul (b ∷ s) tested = (ground (arith, tested), no_nul-NoNul s (ground (arith, tested)))

module _ (show : ℤ → Str) (shows : (z : ℤ) → NoNul (show z)) where
  -- A text in brackets behind the constant text.
  behind : (s : Str) → NoNul s → NoNul (out_of_range_text ++ (91 ∷ s))
  behind s full =
      append-NoNul out_of_range_text (91 ∷ s) (no_nul-NoNul out_of_range_text refl)
        ((λ e. absurd (omega (arith, e))), full)

  colon : ◌≢◌ {A = ℕ} 58 0
  colon e = absurd (omega (arith, e))

  message-NoNul : (e : Error) → NoNul (message show e)
  unfolding message write_index write_slicing
  message-NoNul invalid_memory = no_nul-NoNul (message show invalid_memory) refl
  message-NoNul incompatible_type = no_nul-NoNul (message show incompatible_type) refl
  message-NoNul allocation_failed = no_nul-NoNul (message show allocation_failed) refl
  message-NoNul divide_by_zero = no_nul-NoNul (message show divide_by_zero) refl
  message-NoNul (index_out_of_range i) =
      behind (show i ++ (93 ∷ []))
        (append-NoNul (show i) (93 ∷ []) (shows i) (no_nul-NoNul (93 ∷ []) refl))
  message-NoNul (slicing_out_of_range i j) = behind (show i ++ (58 ∷ (show j ++ (93 ∷ [])))) (
      append-NoNul (show i) (58 ∷ (show j ++ (93 ∷ []))) (shows i)
        (colon, append-NoNul (show j) (93 ∷ []) (shows j) (no_nul-NoNul (93 ∷ []) refl)))
  message-NoNul slice_len_negative = no_nul-NoNul (message show slice_len_negative) refl
  message-NoNul slice_cap_negative = no_nul-NoNul (message show slice_cap_negative) refl
  message-NoNul slice_len_above_cap = no_nul-NoNul (message show slice_len_above_cap) refl

  -- Where integers are written without a zero byte, every panic is thrown with its whole message, and
  -- where no handler is, the program writes the message on a line behind "panic: " and exits with 2.
  pub terminate_handler-thrown :
      (e : Error)
      → (what (thrown show e) ≡ message show e)
        × (terminate_handler (thrown show e).text
            ≡ (112 ∷ 97 ∷ 110 ∷ 105 ∷ 99 ∷ 58 ∷ 32 ∷ (message show e ++ (10 ∷ [])), 2))
  unfolding what thrown panic_c_str terminate_handler
  terminate_handler-thrown e =
      let whole = until_nul-NoNul (message show e) (message-NoNul e) in
      (rw (whole, whole) refl, rw (whole, whole) refl)
