-- ===== src/Sound/Defs.antt =====
-- The invariant, and what a run ends with.
use lkl_lklftpd.Base.{◌≡◌, false, ◌&&◌, none, is_some}
use lkl_lklftpd.Paths.Laws.{IsDirPath}
use lkl_lklftpd.System.{Sess, State, Run, Halt, Outcome, ret, halted, ⊤, and_then}

-- What holds of a session from its start, during a transfer too: none is ever marked as under way; at
-- most one of PASV and PORT is in force; the mode and the restart position are as at the start; the
-- working directory is the path of a directory.
pub record IsSteady (s : Sess) : Type 0 where
  pub idle : s.data_conn.in_progress ≡ false
  pub one_mode : (is_some s.pasv_listen_fd && is_some s.p_port_sockaddr) ≡ false
  pub binary : s.is_ascii ≡ false
  pub from_start : s.restart_pos ≡ 0
  pub in_dir : IsDirPath s.cwd_path

-- Between two commands no data socket is open either.
pub record IsSound (s : Sess) : Type 0 where
  pub steady : IsSteady s
  pub closed : s.data_conn.data_sock ≡ none

-- The ends of a run that the invariant does not rule out. It rules out `bug`, the unbounded recursion
-- of port_active and pasv_active, and apr_thread_exit.
abbrev pub Admitted : Halt → Type 0
Admitted Halt.process_exit = ⊥
Admitted Halt.stack_overflow = ⊥
Admitted Halt.thread_ended = ⊥
Admitted _ = ⊤

abbrev pub Ends : {A : Type 0} → (A → Sess → Type 0) → Outcome A → Type 0
Ends Q (ret a st) = Q a st.sess
Ends Q (halted why st) = Admitted why

abbrev pub Steady : {A : Type 0} → A → Sess → Type 0
Steady _ s = IsSteady s

abbrev pub Sound : {A : Type 0} → A → Sess → Type 0
Sound _ s = IsSound s

-- A run in sequence.
pub Ends-and_then :
    {A B : Type 0} (P : A → Sess → Type 0) (Q : B → Sess → Type 0) (o : Outcome A) (f : A → Run B)
    → Ends P o
    → ((a : A) (st : State) → P a st.sess → Ends Q (f a st))
    → Ends Q (and_then o f)
Ends-and_then P Q (ret a st) f h next = next a st h
Ends-and_then P Q (halted why st) f h next = h

-- The same, with `bug` admitted: one command reaches it.
abbrev pub AdmittedExit : Halt → Type 0
AdmittedExit Halt.stack_overflow = ⊥
AdmittedExit Halt.thread_ended = ⊥
AdmittedExit _ = ⊤

abbrev pub EndsExit : {A : Type 0} → (A → Sess → Type 0) → Outcome A → Type 0
EndsExit Q (ret a st) = Q a st.sess
EndsExit Q (halted why st) = AdmittedExit why

AdmittedExit-of : (why : Halt) → Admitted why → AdmittedExit why
AdmittedExit-of Halt.process_exit h = absurd h
AdmittedExit-of Halt.stack_overflow h = h
AdmittedExit-of Halt.thread_ended h = h
AdmittedExit-of Halt.null_deref h = h
AdmittedExit-of Halt.out_of_bounds h = h
AdmittedExit-of Halt.division_by_zero h = h
AdmittedExit-of Halt.out_of_fuel h = h

pub EndsExit-of : {A : Type 0} (Q : A → Sess → Type 0) (o : Outcome A) → Ends Q o → EndsExit Q o
EndsExit-of Q (ret a st) h = h
EndsExit-of Q (halted why st) h = AdmittedExit-of why h

pub EndsExit-and_then :
    {A B : Type 0} (P : A → Sess → Type 0) (Q : B → Sess → Type 0) (o : Outcome A) (f : A → Run B)
    → EndsExit P o
    → ((a : A) (st : State) → P a st.sess → EndsExit Q (f a st))
    → EndsExit Q (and_then o f)
EndsExit-and_then P Q (ret a st) f h next = next a st h
EndsExit-and_then P Q (halted why st) f h next = h
