-- ===== src/Sound/Channel.antt =====
-- The commands and helpers of connection.c keep the invariant.
use lkl_lklftpd.Base.{
  ℕ, zero, suc, ◌≡◌, Bool, true, false, ◌&&◌, ◌||◌, Option, none, some, arith, Bytes, is_some,
}
use lkl_lklftpd.System.{Apr, State, Sess, Socket, ret, Run, pure}
use lkl_lklftpd.Cmdio.{lfd_cmdio_write}
use lkl_lklftpd.Connection.{
  lfd_communication_cleanup, bind_attempt, bind_rounds, bind_to_random_passive_port, Bound,
  bind_tries, keep_bound,
}
use lkl_lklftpd.DataChannel.{
  port_active, pasv_active, handle_pasv, handle_port, either_active, data_transfer_checks_ok,
  lfd_ftpdataio_get_pasv_fd, ftpdataio_get_port_fd, lfd_get_remote_transfer_fd,
  lfd_dispose_transfer_fd,
}
use lkl_lklftpd.Sound.Defs.{IsSteady, IsSound, Ends, Sound, Ends-and_then}

-- Neither PASV nor PORT is in force.
pub record IsQuiet (s : Sess) : Type 0 where
  pub sound : IsSound s
  pub no_pasv : s.pasv_listen_fd ≡ none
  pub no_port : s.p_port_sockaddr ≡ none

abbrev pub Quiet : {A : Type 0} → A → Sess → Type 0
Quiet _ s = IsQuiet s

-- PASV or PORT is in force.
pub record IsReady (s : Sess) : Type 0 where
  pub sound : IsSound s
  pub active : (is_some s.pasv_listen_fd || is_some s.p_port_sockaddr) ≡ true

abbrev pub ReadyIf : Bool → Sess → Type 0
ReadyIf true s = IsReady s
ReadyIf false s = IsSound s

-- The socket for a transfer is there, or the session is as before.
abbrev pub Connected : Option Socket → Sess → Type 0
Connected none s = IsSound s
Connected (some _) s = IsSteady s

-- With at most one mode in force the two tests return, with two frames of stack.
module _ (room : ℕ) (st : State)
    (one : (is_some st.sess.pasv_listen_fd && is_some st.sess.p_port_sockaddr) ≡ false) where
  pub pasv_active_lem : pasv_active (suc (suc room)) st ≡ ret (is_some st.sess.pasv_listen_fd) st
  unfolding pasv_active port_active
  pasv_active_lem = ground arith

  pub port_active_lem : port_active (suc (suc room)) st ≡ ret (is_some st.sess.p_port_sockaddr) st
  unfolding pasv_active port_active
  port_active_lem = ground arith

module _ (apr : Apr) where
  pub either_active_lem :
      (st : State)
      → (is_some st.sess.pasv_listen_fd && is_some st.sess.p_port_sockaddr) ≡ false
      → either_active apr st
        ≡ ret (is_some st.sess.pasv_listen_fd || is_some st.sess.p_port_sockaddr) st
  unfolding either_active
  either_active_lem st one =
      ground (arith, pasv_active_lem apr.stack_room st one, port_active_lem apr.stack_room st one)

  pub data_transfer_checks_ok-IsReady :
      (st : State) → IsSound st.sess → Ends ReadyIf (data_transfer_checks_ok apr st)
  unfolding data_transfer_checks_ok lfd_cmdio_write
  data_transfer_checks_ok-IsReady st h = ground (arith, either_active_lem st h.steady.one_mode)

  pub lfd_communication_cleanup-IsQuiet :
      (st : State) → IsSound st.sess → Ends Quiet (lfd_communication_cleanup apr st)
  unfolding lfd_communication_cleanup
  lfd_communication_cleanup-IsQuiet st h = ground arith

  bind_attempt-IsQuiet : (st : State) → IsQuiet st.sess → Ends Quiet (bind_attempt apr st)
  unfolding bind_attempt
  bind_attempt-IsQuiet st h = ground arith

  abbrev after_attempt : ℕ → Option Bound → Run (Option Bound)
  after_attempt n tried = elim tried [ some bound ↦ pure (some bound) | none ↦ bind_rounds apr n ]

  bind_rounds-IsQuiet : (n : ℕ) (st : State) → IsQuiet st.sess → Ends Quiet (bind_rounds apr n st)
  unfolding bind_rounds
  bind_rounds-IsQuiet zero st h = h
  bind_rounds-IsQuiet (suc n) st h =
      Ends-and_then Quiet Quiet (bind_attempt apr st) _ (bind_attempt-IsQuiet st h) λ tried st' h'.
        (elim tried as (λ t. IsQuiet st'.sess → Ends Quiet (after_attempt n t st')) [
          | none ↦ λ q. bind_rounds-IsQuiet n st' q
          | some b ↦ λ q. q
        ])
          h'

  bind_to_random_passive_port-Sound :
      (st : State) → IsQuiet st.sess → Ends Sound (bind_to_random_passive_port apr st)
  unfolding bind_to_random_passive_port
  bind_to_random_passive_port-Sound st h =
      Ends-and_then Quiet Sound (bind_rounds apr (bind_tries apr) st) (keep_bound apr)
        (bind_rounds-IsQuiet (bind_tries apr) st h) (λ tried st' h'. ground arith)

  -- PORT keeps the invariant: afterwards at most one of the two modes is in force, whatever was
  -- before.
  pub handle_port-IsSound : (st : State) → IsSound st.sess → Ends Sound (handle_port apr st)
  unfolding handle_port lfd_cmdio_write
  handle_port-IsSound st h =
      Ends-and_then Quiet Sound (lfd_communication_cleanup apr st) _
        (lfd_communication_cleanup-IsQuiet st h) (λ _ st' h'. ground arith)

  -- PASV keeps the invariant: afterwards at most one of the two modes is in force, whatever was
  -- before.
  pub handle_pasv-IsSound : (st : State) → IsSound st.sess → Ends Sound (handle_pasv apr st)
  unfolding handle_pasv lfd_cmdio_write
  handle_pasv-IsSound st h =
      Ends-and_then Quiet Sound (lfd_communication_cleanup apr st) _
        (lfd_communication_cleanup-IsQuiet st h)
        (λ _ st' h'.
          Ends-and_then Sound Sound (bind_to_random_passive_port apr st') _
            (bind_to_random_passive_port-Sound st' h') (λ (rc, found) st'' h''. ground arith))

  connect_pasv-Connected :
      (st : State) → IsSound st.sess → Ends Connected (lfd_ftpdataio_get_pasv_fd apr st)
  unfolding lfd_ftpdataio_get_pasv_fd lfd_cmdio_write
  connect_pasv-Connected st h = ground arith

  connect_port-Connected :
      (st : State) → IsSound st.sess → Ends Connected (ftpdataio_get_port_fd apr st)
  unfolding ftpdataio_get_port_fd lfd_cmdio_write
  connect_port-Connected st h = ground arith

  -- sess->data_conn->abor_received = 0;
  abbrev cleared : State → State
  cleared st =
      let s = st.sess in
      let d = s.data_conn in
      record st { sess = record s { data_conn = record d { abor_received = false } } }

  cleared-IsSound : (st : State) → IsSound st.sess → IsSound (cleared st).sess
  cleared-IsSound st h = ground arith

  -- With PASV or PORT in force the socket for a transfer is asked for without a call of `bug` and
  -- without an endless recursion. Where there is none the invariant holds; where there is one it
  -- holds but for the open data socket.
  pub lfd_get_remote_transfer_fd-Connected :
      (msg : Bytes) (st : State)
      → IsReady st.sess
      → Ends Connected (lfd_get_remote_transfer_fd apr msg st)
  unfolding lfd_get_remote_transfer_fd lfd_cmdio_write
  lfd_get_remote_transfer_fd-Connected msg st r =
      let h = r.sound in
      let active = r.active in
      let reset = cleared st in
      ground (
        arith,
        either_active_lem st h.steady.one_mode,
        pasv_active_lem apr.stack_room reset h.steady.one_mode,
        connect_pasv-Connected reset (cleared-IsSound st h),
        connect_port-Connected reset (cleared-IsSound st h),
      )

  pub lfd_dispose_transfer_fd-IsSound :
      (st : State) → IsSteady st.sess → Ends Sound (lfd_dispose_transfer_fd apr st)
  unfolding lfd_dispose_transfer_fd
  lfd_dispose_transfer_fd-IsSound st h = ground arith
