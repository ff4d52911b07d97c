-- ===== src/Signal/Darwin.antt =====
-- The signals of api/signal.hpp on Darwin, and those that `set_sig_handler` sets there.
use julelang.Prelude.{ℕ, List, [], ◌∷◌}

abbrev pub sig_abrt : ℕ
sig_abrt = 6

abbrev pub sig_alrm : ℕ
sig_alrm = 14

abbrev pub sig_bus : ℕ
sig_bus = 10

abbrev pub sig_chld : ℕ
sig_chld = 20

abbrev pub sig_cont : ℕ
sig_cont = 19

abbrev pub sig_emt : ℕ
sig_emt = 7

abbrev pub sig_fpe : ℕ
sig_fpe = 8

abbrev pub sig_hup : ℕ
sig_hup = 1

abbrev pub sig_ill : ℕ
sig_ill = 4

abbrev pub sig_info : ℕ
sig_info = 29

abbrev pub sig_int : ℕ
sig_int = 2

abbrev pub sig_io : ℕ
sig_io = 23

abbrev pub sig_iot : ℕ
sig_iot = 6

abbrev pub sig_kill : ℕ
sig_kill = 9

abbrev pub sig_pipe : ℕ
sig_pipe = 13

abbrev pub sig_prof : ℕ
sig_prof = 27

abbrev pub sig_quit : ℕ
sig_quit = 3

abbrev pub sig_segv : ℕ
sig_segv = 11

abbrev pub sig_stop : ℕ
sig_stop = 17

abbrev pub sig_sys : ℕ
sig_sys = 12

abbrev pub sig_term : ℕ
sig_term = 15

abbrev pub sig_trap : ℕ
sig_trap = 5

abbrev pub sig_tstp : ℕ
sig_tstp = 18

abbrev pub sig_ttin : ℕ
sig_ttin = 21

abbrev pub sig_ttou : ℕ
sig_ttou = 22

abbrev pub sig_urg : ℕ
sig_urg = 16

abbrev pub sig_usr1 : ℕ
sig_usr1 = 30

abbrev pub sig_usr2 : ℕ
sig_usr2 = 31

abbrev pub sig_vtalrm : ℕ
sig_vtalrm = 26

abbrev pub sig_winch : ℕ
sig_winch = 28

abbrev pub sig_xcpu : ℕ
sig_xcpu = 24

abbrev pub sig_xfsz : ℕ
sig_xfsz = 25

-- The signals in the order of the calls.
pub calls : List ℕ
calls =
    sig_abrt ∷ sig_alrm ∷ sig_bus ∷ sig_chld ∷ sig_cont ∷ sig_emt ∷ sig_fpe ∷ sig_hup ∷ sig_ill
    ∷ sig_info ∷ sig_int ∷ sig_io ∷ sig_iot ∷ sig_kill ∷ sig_pipe ∷ sig_prof ∷ sig_quit ∷ sig_segv
    ∷ sig_stop ∷ sig_sys ∷ sig_term ∷ sig_trap ∷ sig_tstp ∷ sig_ttin ∷ sig_ttou ∷ sig_urg ∷ sig_usr1
    ∷ sig_usr2 ∷ sig_vtalrm ∷ sig_winch ∷ sig_xcpu ∷ sig_xfsz ∷ []
