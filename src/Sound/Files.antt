-- ===== src/Sound/Files.antt =====
-- RETR keeps the invariant of a session.
use lkl_lklftpd.Base.{ℕ, Bool, true, false, Option, none, some, arith, Bytes}
use lkl_lklftpd.System.{Apr, State, Sess, Socket, and_then, File, ℤ}
use lkl_lklftpd.Cmdio.{lfd_cmdio_write}
use lkl_lklftpd.Paths.{get_abs_path}
use lkl_lklftpd.Connection.{lfd_communication_cleanup}
use lkl_lklftpd.DataChannel.{
  data_transfer_checks_ok, lfd_get_remote_transfer_fd, lfd_dispose_transfer_fd,
}
use lkl_lklftpd.Transfer.{do_file_send_rwloop, check_abor}
use lkl_lklftpd.FileCommands.{
  retr_send, retr_file, retr_open, retr_connected, retr_message, handle_retr, retr_ready,
  retr_argument, finish,
}
use lkl_lklftpd.Sound.Defs.{IsSteady, IsSound, Ends, Sound, Steady, Ends-and_then}
use lkl_lklftpd.Sound.Channel.{
  IsReady, ReadyIf, data_transfer_checks_ok-IsReady, Connected,
  lfd_get_remote_transfer_fd-Connected, lfd_dispose_transfer_fd-IsSound,
}
use lkl_lklftpd.Sound.Rounds.{do_file_send_rwloop-IsSteady}

module _ (apr : Apr) where
  pub finish-IsSound :
      (file : File) (r : ℤ) (a b c : Bytes) (st : State)
      → IsSound st.sess
      → Ends Sound (finish apr file r a b c st)
  unfolding finish check_abor lfd_communication_cleanup lfd_cmdio_write
  finish-IsSound file r a b c st h = ground arith

  -- The end of a transfer, from the closing of its socket on.
  pub ending-IsSound :
      (file : File) (r : ℤ) (a b c : Bytes) (st : State)
      → IsSteady st.sess
      → Ends Sound (and_then (lfd_dispose_transfer_fd apr st) (λ _. finish apr file r a b c))
  ending-IsSound file r a b c st h =
      Ends-and_then Sound Sound (lfd_dispose_transfer_fd apr st) (λ _. finish apr file r a b c)
        (lfd_dispose_transfer_fd-IsSound apr st h) (λ _ st' h'. finish-IsSound file r a b c st' h')

  retr_connected-IsSound :
      (fuel : ℕ) (file : File) (is_ascii : Bool) (fd : Option Socket) (st : State)
      → Connected fd st.sess
      → Ends Sound (retr_connected apr fuel file is_ascii fd st)
  unfolding lfd_communication_cleanup
  retr_connected-IsSound fuel file is_ascii none st h = ground arith
  retr_connected-IsSound fuel file is_ascii (some _) st h =
      Ends-and_then Steady Sound (do_file_send_rwloop apr fuel file is_ascii st) _
        (do_file_send_rwloop-IsSteady apr fuel file is_ascii st h)
        (λ r st' h'. ending-IsSound file r.retval _ _ _ st' h')

  retr_send-IsSound :
      (fuel : ℕ) (file : File) (path : Bytes) (size : ℕ) (st : State)
      → IsReady st.sess
      → Ends Sound (retr_send apr fuel file path size st)
  unfolding retr_send
  retr_send-IsSound fuel file path size st h =
      let msg = retr_message apr st.sess.is_ascii path size in
      Ends-and_then Connected Sound (lfd_get_remote_transfer_fd apr msg st)
        (retr_connected apr fuel file st.sess.is_ascii)
        (lfd_get_remote_transfer_fd-Connected apr msg st h)
        (λ fd st' h'. retr_connected-IsSound fuel file st.sess.is_ascii fd st' h')

  retr_file-IsSound :
      (fuel : ℕ) (file : File) (path : Bytes) (offset : ℕ) (st : State)
      → IsReady st.sess
      → Ends Sound (retr_file apr fuel file path offset st)
  unfolding retr_file lfd_cmdio_write
  retr_file-IsSound fuel file path offset st h = grind (arith, retr_send-IsSound)

  retr_open-IsSound :
      (fuel : ℕ) (path : Option Bytes) (offset : ℕ) (st : State)
      → IsReady st.sess
      → Ends Sound (retr_open apr fuel path offset st)
  unfolding retr_open lfd_cmdio_write
  retr_open-IsSound fuel path offset st h = grind (arith, retr_file-IsSound)

  -- The session without its restart position, which every transfer command resets.
  abbrev pub restarted : State → State
  restarted st = let s = st.sess in record st { sess = record s { restart_pos = 0 } }

  pub restarted-IsSound : (st : State) → IsSound st.sess → IsSound (restarted st).sess
  restarted-IsSound st h = ground arith

  retr_ready-IsSound :
      (fuel : ℕ) (s : Sess) (arg : Bytes) (offset : ℕ) (ready : Bool) (st : State)
      → ReadyIf ready st.sess
      → Ends Sound (retr_ready apr fuel s arg offset ready st)
  unfolding lfd_cmdio_write
  retr_ready-IsSound fuel s arg offset false st h = h
  retr_ready-IsSound fuel s arg offset true st h =
      ground (arith, retr_open-IsSound fuel (get_abs_path apr arg s.cwd_path) offset st h)

  retr_argument-IsSound :
      (fuel : ℕ) (s : Sess) (arg : Option Bytes) (st : State)
      → IsSound st.sess
      → Ends Sound (retr_argument apr fuel s arg st)
  unfolding lfd_cmdio_write
  retr_argument-IsSound fuel s none st h = h
  retr_argument-IsSound fuel s (some arg) st h =
      Ends-and_then ReadyIf Sound (data_transfer_checks_ok apr st)
        (retr_ready apr fuel s arg s.restart_pos) (data_transfer_checks_ok-IsReady apr st h)
        (λ ready st' h'. retr_ready-IsSound fuel s arg s.restart_pos ready st' h')

  -- RETR keeps the invariant on all its paths, failed opens, seeks and connections included: it
  -- leaves no data socket open, and it does not call `bug`.
  pub handle_retr-IsSound :
      (fuel : ℕ) (st : State) → IsSound st.sess → Ends Sound (handle_retr apr fuel st)
  unfolding handle_retr
  handle_retr-IsSound fuel st h =
      retr_argument-IsSound fuel st.sess st.sess.ftp_arg_str (restarted st) (restarted-IsSound st h)
