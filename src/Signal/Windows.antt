-- ===== src/Signal/Windows.antt =====
-- The signals of api/signal.hpp on Windows, and those that `set_sig_handler` sets there.
use julelang.Prelude.{ℕ, List, [], ◌∷◌}

abbrev pub sig_hup : ℕ
sig_hup = 1

abbrev pub sig_int : ℕ
sig_int = 2

abbrev pub sig_quit : ℕ
sig_quit = 3

abbrev pub sig_ill : ℕ
sig_ill = 4

abbrev pub sig_trap : ℕ
sig_trap = 5

abbrev pub sig_abrt : ℕ
sig_abrt = 6

abbrev pub sig_bus : ℕ
sig_bus = 7

abbrev pub sig_fpe : ℕ
sig_fpe = 8

abbrev pub sig_kill : ℕ
sig_kill = 9

abbrev pub sig_segv : ℕ
sig_segv = 11

abbrev pub sig_pipe : ℕ
sig_pipe = 13

abbrev pub sig_alrm : ℕ
sig_alrm = 14

abbrev pub sig_term : ℕ
sig_term = 15

-- The signals in the order of the calls.
pub calls : List ℕ
calls =
    sig_hup ∷ sig_int ∷ sig_quit ∷ sig_ill ∷ sig_trap ∷ sig_abrt ∷ sig_bus ∷ sig_fpe ∷ sig_kill
    ∷ sig_segv ∷ sig_pipe ∷ sig_alrm ∷ sig_term ∷ []
