-- ===== src/Panic/Message.antt =====
-- The messages of the panics of api/error.hpp and api/slice.hpp, and the exception of api/panic.hpp
-- that carries one. `show` writes an integer in decimal.
pub mod Report
use julelang.Prelude.{ℕ, List, [], ◌∷◌, ◌++◌}
use julelang.Prelude.Int.{ℤ}
use julelang.Panic.{
  Error, invalid_memory, incompatible_type, allocation_failed, divide_by_zero, index_out_of_range,
  slicing_out_of_range, slice_len_negative, slice_cap_negative, slice_len_above_cap,
}
use julelang.Str.{Str, until_nul}

-- `ERROR_INDEX_OUT_OF_RANGE`.
abbrev pub out_of_range_text : Str
out_of_range_text =
    105 ∷ 110 ∷ 100 ∷ 101 ∷ 120 ∷ 32 ∷ 111 ∷ 117 ∷ 116 ∷ 32 ∷ 111 ∷ 102 ∷ 32 ∷ 114 ∷ 97 ∷ 110 ∷ 103
    ∷ 101 ∷ []

-- `__JULE_WRITE_ERROR_INDEX_OUT_OF_RANGE`.
unfoldable pub write_index : (ℤ → Str) → ℤ → Str
write_index show index = out_of_range_text ++ (91 ∷ (show index ++ (93 ∷ [])))

-- `__JULE_WRITE_ERROR_SLICING_INDEX_OUT_OF_RANGE`.
unfoldable pub write_slicing : (ℤ → Str) → ℤ → ℤ → Str
write_slicing show start len =
    out_of_range_text ++ (91 ∷ (show start ++ (58 ∷ (show len ++ (93 ∷ [])))))

-- The message of a panic.
unfoldable pub message : (ℤ → Str) → Error → Str
message show invalid_memory =
    105 ∷ 110 ∷ 118 ∷ 97 ∷ 108 ∷ 105 ∷ 100 ∷ 32 ∷ 109 ∷ 101 ∷ 109 ∷ 111 ∷ 114 ∷ 121 ∷ 32 ∷ 97 ∷ 100
    ∷ 100 ∷ 114 ∷ 101 ∷ 115 ∷ 115 ∷ 32 ∷ 111 ∷ 114 ∷ 32 ∷ 110 ∷ 105 ∷ 108 ∷ 32 ∷ 112 ∷ 111 ∷ 105
    ∷ 110 ∷ 116 ∷ 101 ∷ 114 ∷ 32 ∷ 100 ∷ 101 ∷ 102 ∷ 101 ∷ 114 ∷ 101 ∷ 110 ∷ 99 ∷ 101 ∷ []
message show incompatible_type =
    105 ∷ 110 ∷ 99 ∷ 111 ∷ 109 ∷ 112 ∷ 97 ∷ 116 ∷ 105 ∷ 98 ∷ 108 ∷ 101 ∷ 32 ∷ 116 ∷ 121 ∷ 112 ∷ 101
    ∷ []
message show allocation_failed =
    109 ∷ 101 ∷ 109 ∷ 111 ∷ 114 ∷ 121 ∷ 32 ∷ 97 ∷ 108 ∷ 108 ∷ 111 ∷ 99 ∷ 97 ∷ 116 ∷ 105 ∷ 111 ∷ 110
    ∷ 32 ∷ 102 ∷ 97 ∷ 105 ∷ 108 ∷ 101 ∷ 100 ∷ []
message show divide_by_zero =
    100 ∷ 105 ∷ 118 ∷ 105 ∷ 100 ∷ 101 ∷ 32 ∷ 98 ∷ 121 ∷ 32 ∷ 122 ∷ 101 ∷ 114 ∷ 111 ∷ []
message show (index_out_of_range index) = write_index show index
message show (slicing_out_of_range start len) = write_slicing show start len
message show slice_len_negative =
    91 ∷ 93 ∷ 84 ∷ 58 ∷ 32 ∷ 115 ∷ 108 ∷ 105 ∷ 99 ∷ 101 ∷ 32 ∷ 97 ∷ 108 ∷ 108 ∷ 111 ∷ 99 ∷ 97 ∷ 116
    ∷ 105 ∷ 111 ∷ 110 ∷ 32 ∷ 108 ∷ 101 ∷ 110 ∷ 103 ∷ 116 ∷ 104 ∷ 32 ∷ 108 ∷ 111 ∷ 119 ∷ 101 ∷ 114
    ∷ 32 ∷ 116 ∷ 104 ∷ 97 ∷ 110 ∷ 32 ∷ 122 ∷ 101 ∷ 114 ∷ 111 ∷ []
message show slice_cap_negative =
    91 ∷ 93 ∷ 84 ∷ 58 ∷ 32 ∷ 115 ∷ 108 ∷ 105 ∷ 99 ∷ 101 ∷ 32 ∷ 97 ∷ 108 ∷ 108 ∷ 111 ∷ 99 ∷ 97 ∷ 116
    ∷ 105 ∷ 111 ∷ 110 ∷ 32 ∷ 99 ∷ 97 ∷ 112 ∷ 97 ∷ 99 ∷ 105 ∷ 116 ∷ 121 ∷ 32 ∷ 108 ∷ 111 ∷ 119 ∷ 101
    ∷ 114 ∷ 32 ∷ 116 ∷ 104 ∷ 97 ∷ 110 ∷ 32 ∷ 122 ∷ 101 ∷ 114 ∷ 111 ∷ []
message show slice_len_above_cap =
    91 ∷ 93 ∷ 84 ∷ 58 ∷ 32 ∷ 115 ∷ 108 ∷ 105 ∷ 99 ∷ 101 ∷ 32 ∷ 97 ∷ 108 ∷ 108 ∷ 111 ∷ 99 ∷ 97 ∷ 116
    ∷ 105 ∷ 111 ∷ 110 ∷ 32 ∷ 108 ∷ 101 ∷ 110 ∷ 103 ∷ 116 ∷ 104 ∷ 32 ∷ 103 ∷ 114 ∷ 101 ∷ 97 ∷ 116
    ∷ 101 ∷ 114 ∷ 32 ∷ 116 ∷ 104 ∷ 97 ∷ 110 ∷ 32 ∷ 99 ∷ 97 ∷ 112 ∷ 97 ∷ 99 ∷ 105 ∷ 116 ∷ 121 ∷ []

-- `Exception`, which is its message.
pub record Exception : Type 0 where
  pub text : Str

-- `panic(const char*)`: a C string ends at its first zero byte.
unfoldable pub panic_c_str : Str → Exception
panic_c_str expr = record { text = until_nul expr }

-- `panic(const std::string&)`.
unfoldable pub panic_string : Str → Exception
panic_string expr = record { text = expr }

-- `panic(const T&)`, where `write` is T's `operator<<`.
unfoldable pub panic_any : {T : Type 0} → (T → Str) → T → Exception
panic_any write expr = record { text = write expr }

-- `what`: the C string that it points to.
unfoldable pub what : Exception → Str
what exception = until_nul exception.text

-- What is thrown where the code panics with an error.
unfoldable pub thrown : (ℤ → Str) → Error → Exception
thrown show e = panic_c_str (message show e)
