-- ===== src/Sound/Listing.antt =====
-- LIST, by whether PASV or PORT is in force.
use lkl_lklftpd.Base.{
  ℕ, zero, suc, ◌≡◌, ◌||◌, Option, none, some, arith, Bytes, is_some, Bool-cases, false, text,
  subst, inl, inr,
}
use lkl_lklftpd.System.{Apr, State, Sess, Status, Socket, Dir, halted, Halt, ret}
use lkl_lklftpd.Cmdio.{lfd_cmdio_write}
use lkl_lklftpd.DataChannel.{lfd_get_remote_transfer_fd, lfd_dispose_transfer_fd}
use lkl_lklftpd.Listing.{
  ListFlags, list_loop, list_dir, list_request, list_connected, list_send, list_path, handle_list,
}
use lkl_lklftpd.Sound.Defs.{
  IsSound, Ends, Sound, Ends-and_then, EndsExit, EndsExit-of, EndsExit-and_then,
}
use lkl_lklftpd.Sound.Channel.{
  IsReady, Connected, lfd_get_remote_transfer_fd-Connected, either_active_lem,
}

module _ (apr : Apr) where
  list_loop-keeps :
      (P : Sess → Type 0) (fuel : ℕ) (dir : Dir) (flags : ListFlags) (dest : Bytes) (st : State)
      → P st.sess
      → Ends (λ _ s. P s) (list_loop apr fuel dir flags dest st)
  unfolding list_loop
  list_loop-keeps P zero dir flags dest st h = tt
  list_loop-keeps P (suc fuel) dir flags dest st h = grind (arith, list_loop-keeps P fuel)

  list_dir-keeps :
      (P : Sess → Type 0) (fuel : ℕ) (path : Bytes) (flags : ListFlags) (st : State)
      → P st.sess
      → Ends (λ _ s. P s) (list_dir apr fuel path flags st)
  unfolding list_dir
  list_dir-keeps P fuel path flags st h = grind (arith, list_loop-keeps P fuel)

  list_connected-IsSound :
      (file_list : Bytes) (fd : Option Socket) (st : State)
      → Connected fd st.sess
      → Ends Sound (list_connected apr file_list fd st)
  unfolding lfd_cmdio_write lfd_dispose_transfer_fd
  list_connected-IsSound file_list none st h = h
  list_connected-IsSound file_list (some fd) st h = ground arith

  list_send-IsSound :
      (file_list : Bytes) (st : State) → IsReady st.sess → Ends Sound (list_send apr file_list st)
  list_send-IsSound file_list st h =
      Ends-and_then Connected Sound (lfd_get_remote_transfer_fd apr _ st)
        (list_connected apr file_list) (lfd_get_remote_transfer_fd-Connected apr _ st h)
        (λ fd st' h'. list_connected-IsSound file_list fd st' h')

  list_path-IsSound :
      (fuel : ℕ) (flags : ListFlags) (path : Option Bytes) (st : State)
      → IsReady st.sess
      → Ends Sound (list_path apr fuel flags path st)
  unfolding lfd_cmdio_write
  list_path-IsSound fuel flags none st h = h.sound
  list_path-IsSound fuel flags (some path) st h =
      Ends-and_then (λ _ s. IsReady s) Sound (list_dir apr fuel path flags st) _
        (list_dir-keeps IsReady fuel path flags st h)
        (λ (rc, file_list) st' h'. ground (arith, list_send-IsSound file_list st' h'))

  -- If PASV or PORT is in force, LIST does not call `bug` or apr_thread_exit and does not use up
  -- the stack by port_active and pasv_active, and where it returns the invariant holds. It may
  -- follow NULL, as where an accept succeeds without a socket, or use up its fuel.
  pub handle_list-IsSound :
      (fuel : ℕ) (st : State) → IsReady st.sess → Ends Sound (handle_list apr fuel st)
  unfolding handle_list
  handle_list-IsSound fuel st h = list_path-IsSound fuel _ _ st h

  -- Neither PASV nor PORT is in force.
  abbrev Inactive : Sess → Type 0
  Inactive s = IsSound s × ((is_some s.pasv_listen_fd || is_some s.p_port_sockaddr) ≡ false)

  remote_fd-Inactive :
      (msg : Bytes) (st : State)
      → Inactive st.sess
      → lfd_get_remote_transfer_fd apr msg st ≡ halted Halt.process_exit st
  unfolding lfd_get_remote_transfer_fd
  remote_fd-Inactive msg st (h, e) = ground (arith, either_active_lem apr st h.steady.one_mode)

  -- Without PASV or PORT, a LIST whose path can be read ends the process, and with it every session
  -- of the server.
  pub handle_list_exits :
      (fuel : ℕ) (st st' : State) {path : Bytes} {flags : ListFlags} {file_list : Bytes}
      → IsSound st.sess
      → (is_some st.sess.pasv_listen_fd || is_some st.sess.p_port_sockaddr) ≡ false
      → list_request apr st.sess.ftp_arg_str st.sess.cwd_path ≡ (some path, flags)
      → list_dir apr fuel path flags st ≡ ret (Status.success, file_list) st'
      → handle_list apr fuel st ≡ halted Halt.process_exit st'
  unfolding handle_list
  handle_list_exits fuel st st' {path} {flags} h inactive asked listed =
      let kept : Inactive st'.sess =
        subst (Ends (λ _ s. Inactive s)) listed
          (list_dir-keeps Inactive fuel path flags st (h, inactive)) in
      rw (asked, listed, remote_fd-Inactive _ st' kept)

  list_path_any :
      (fuel : ℕ) (flags : ListFlags) (path : Option Bytes) (st : State)
      → Inactive st.sess
      → EndsExit Sound (list_path apr fuel flags path st)
  unfolding lfd_cmdio_write
  list_path_any fuel flags none st h = h.0
  list_path_any fuel flags (some path) st h =
      EndsExit-and_then (λ _ s. Inactive s) Sound (list_dir apr fuel path flags st) _
        (EndsExit-of (λ _ s. Inactive s) _ (list_dir-keeps Inactive fuel path flags st h))
        (λ (rc, file_list) st' h'.
          ground (arith, remote_fd-Inactive (text "Here comes the directory listing") st' h'))

  -- In any case the invariant holds where LIST returns, and it does not call apr_thread_exit or use up
  -- the stack by port_active and pasv_active.
  pub handle_list_any :
      (fuel : ℕ) (st : State) → IsSound st.sess → EndsExit Sound (handle_list apr fuel st)
  unfolding handle_list
  handle_list_any fuel st h =
      elim (Bool-cases (is_some st.sess.pasv_listen_fd || is_some st.sess.p_port_sockaddr)) [
        | inl e ↦
            EndsExit-of Sound _ (list_path-IsSound fuel _ _ st (record { sound = h; active = e }))
        | inr e ↦ list_path_any fuel _ _ st (h, e)
      ]
