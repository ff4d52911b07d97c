-- ===== src/Signal/Linux.antt =====
-- The signals of api/signal.hpp on Linux, and those that `set_sig_handler` sets there.
use julelang.Prelude.{ℕ, List, [], ◌∷◌}

abbrev pub sig_abrt : ℕ
sig_abrt = 6

abbrev pub sig_alrm : ℕ
sig_alrm = 14

abbrev pub sig_bus : ℕ
sig_bus = 7

abbrev pub sig_chld : ℕ
sig_chld = 17

abbrev pub sig_cld : ℕ
sig_cld = 17

abbrev pub sig_cont : ℕ
sig_cont = 18

abbrev pub sig_fpe : ℕ
sig_fpe = 8

abbrev pub sig_hup : ℕ
sig_hup = 1

abbrev pub sig_ill : ℕ
sig_ill = 4

abbrev pub sig_int : ℕ
sig_int = 2

abbrev pub sig_io : ℕ
sig_io = 29

abbrev pub sig_iot : ℕ
sig_iot = 6

abbrev pub sig_kill : ℕ
sig_kill = 9

abbrev pub sig_pipe : ℕ
sig_pipe = 13

abbrev pub sig_poll : ℕ
sig_poll = 29

abbrev pub sig_prof : ℕ
sig_prof = 27

abbrev pub sig_pwr : ℕ
sig_pwr = 30

abbrev pub sig_quit : ℕ
sig_quit = 3

abbrev pub sig_segv : ℕ
sig_segv = 11

abbrev pub sig_stkflt : ℕ
sig_stkflt = 16

abbrev pub sig_stop : ℕ
sig_stop = 19

abbrev pub sig_sys : ℕ
sig_sys = 31

abbrev pub sig_term : ℕ
sig_term = 15

abbrev pub sig_trap : ℕ
sig_trap = 5

abbrev pub sig_tstp : ℕ
sig_tstp = 20

abbrev pub sig_ttin : ℕ
sig_ttin = 21

abbrev pub sig_ttou : ℕ
sig_ttou = 22

abbrev pub sig_unused : ℕ
sig_unused = 31

abbrev pub sig_urg : ℕ
sig_urg = 23

abbrev pub sig_usr1 : ℕ
sig_usr1 = 10

abbrev pub sig_usr2 : ℕ
sig_usr2 = 12

abbrev pub sig_vtalrm : ℕ
sig_vtalrm = 26

abbrev pub sig_winch : ℕ
sig_winch = 28

abbrev pub sig_xcpu : ℕ
sig_xcpu = 24

abbrev pub sig_xfsz : ℕ
sig_xfsz = 25

-- The signals in the order of the calls.
pub calls : List ℕ
calls =
    sig_abrt ∷ sig_alrm ∷ sig_bus ∷ sig_chld ∷ sig_cld ∷ sig_cont ∷ sig_fpe ∷ sig_hup ∷ sig_ill
    ∷ sig_int ∷ sig_io ∷ sig_iot ∷ sig_kill ∷ sig_pipe ∷ sig_poll ∷ sig_prof ∷ sig_pwr ∷ sig_quit
    ∷ sig_segv ∷ sig_stkflt ∷ sig_stop ∷ sig_sys ∷ sig_term ∷ sig_trap ∷ sig_tstp ∷ sig_ttin
    ∷ sig_ttou ∷ sig_unused ∷ sig_urg ∷ sig_usr1 ∷ sig_usr2 ∷ sig_vtalrm ∷ sig_winch ∷ sig_xcpu
    ∷ sig_xfsz ∷ []
