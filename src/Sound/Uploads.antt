-- ===== src/Sound/Uploads.antt =====
-- STOR, APPE and STOU keep the invariant of a session.
use lkl_lklftpd.Base.{ℕ, zero, suc, Bool, true, false, Option, none, some, arith, Bytes, [], text}
use lkl_lklftpd.System.{Apr, State, Sess, Socket, and_then, Call, File}
use lkl_lklftpd.Cmdio.{lfd_cmdio_write, reply}
use lkl_lklftpd.Ftpcodes.{ftp_dataconn}
use lkl_lklftpd.DataChannel.{
  data_transfer_checks_ok, lfd_get_remote_transfer_fd, lfd_dispose_transfer_fd,
}
use lkl_lklftpd.Transfer.{do_file_recv}
use lkl_lklftpd.FileCommands.{
  upload_ready, upload_argument, upload_connected, upload_open, unique_loop, get_unique_filename,
  upload_recv, handle_upload_common,
}
use lkl_lklftpd.Sound.Defs.{IsSound, Ends, Sound, Steady, Ends-and_then}
use lkl_lklftpd.Sound.Channel.{
  IsReady, ReadyIf, data_transfer_checks_ok-IsReady, Connected,
  lfd_get_remote_transfer_fd-Connected, lfd_dispose_transfer_fd-IsSound,
}
use lkl_lklftpd.Sound.Rounds.{after, do_file_recv-IsSteady}
use lkl_lklftpd.Sound.Files.{finish-IsSound, restarted, restarted-IsSound}

module _ (apr : Apr) where
  -- sess->data_conn->transfer_size = n;
  abbrev sized : ℕ → State → State
  sized n st =
      let s = st.sess in
      let d = s.data_conn in
      record st { sess = record s { data_conn = record d { transfer_size = n } } }

  sized-IsSound : (n : ℕ) (st : State) → IsSound st.sess → IsSound (sized n st).sess
  sized-IsSound n st h = ground arith

  upload_connected-IsSound :
      (fuel : ℕ) (file : File) (fd : Option Socket) (st : State)
      → Connected fd st.sess
      → Ends Sound (upload_connected apr fuel file fd st)
  upload_connected-IsSound fuel file none st h = h
  upload_connected-IsSound fuel file (some _) st h =
      Ends-and_then Steady Sound (do_file_recv apr fuel file st.sess.is_ascii st) _
        (do_file_recv-IsSteady apr fuel file st.sess.is_ascii st h)
        (λ r st' h'.
          Ends-and_then Sound Sound (lfd_dispose_transfer_fd apr st') _
            (lfd_dispose_transfer_fd-IsSound apr st' h')
            (λ _ st'' h''.
              finish-IsSound apr file r.retval _ _ _ (sized r.transferred st'')
                (sized-IsSound r.transferred st'' h'')))

  upload_connect-IsSound :
      (fuel : ℕ) (file : File) (msg : Bytes) (st : State)
      → IsReady st.sess
      → Ends Sound
          (and_then (lfd_get_remote_transfer_fd apr msg st) (upload_connected apr fuel file))
  upload_connect-IsSound fuel file msg st h =
      Ends-and_then Connected Sound (lfd_get_remote_transfer_fd apr msg st)
        (upload_connected apr fuel file) (lfd_get_remote_transfer_fd-Connected apr msg st h)
        (λ fd st' h'. upload_connected-IsSound fuel file fd st' h')

  upload_recv-IsSound :
      (fuel : ℕ) (file : File) (name : Bytes) (is_unique : Bool) (st : State)
      → IsReady st.sess
      → Ends Sound (upload_recv apr fuel file name is_unique st)
  unfolding upload_recv lfd_cmdio_write
  upload_recv-IsSound fuel file name true st h =
      let msg = apr.pstrcat (text "FILE: ") name in
      let st' = after (Call.send st.sess.comm_sock (reply apr ftp_dataconn msg [])) st in
      ground (arith, upload_connect-IsSound fuel file msg st' h)
  upload_recv-IsSound fuel file name false st h = upload_connect-IsSound fuel file _ st h

  upload_open-IsSound :
      (fuel : ℕ) (name : Bytes) (is_append is_unique : Bool) (offset : ℕ) (st : State)
      → IsReady st.sess
      → Ends Sound (upload_open apr fuel name is_append is_unique offset st)
  unfolding upload_open lfd_cmdio_write
  upload_open-IsSound fuel name is_append is_unique offset st h = grind (arith, upload_recv-IsSound)

  unique_loop-IsReady :
      (fuel : ℕ) (base : Bytes) (suffix : ℕ) (st : State)
      → IsReady st.sess
      → Ends (λ _ s. IsReady s) (unique_loop apr fuel base suffix st)
  unfolding unique_loop
  unique_loop-IsReady zero base suffix st h = tt
  unique_loop-IsReady (suc fuel) base suffix st h = grind (arith, unique_loop-IsReady fuel)

  get_unique_filename-IsReady :
      (fuel : ℕ) (base : Bytes) (st : State)
      → IsReady st.sess
      → Ends (λ _ s. IsReady s) (get_unique_filename apr fuel base st)
  unfolding get_unique_filename
  get_unique_filename-IsReady fuel base st h = grind (arith, unique_loop-IsReady)

  upload_ready-IsSound :
      (fuel : ℕ) (s : Sess) (arg : Bytes) (is_append is_unique : Bool) (offset : ℕ) (ready : Bool)
      (st : State)
      → ReadyIf ready st.sess
      → Ends Sound (upload_ready apr fuel s arg is_append is_unique offset ready st)
  upload_ready-IsSound fuel s arg is_append is_unique offset false st h = h
  upload_ready-IsSound fuel s arg is_append true offset true st h =
      Ends-and_then (λ _ t. IsReady t) Sound (get_unique_filename apr fuel _ st) _
        (get_unique_filename-IsReady fuel _ st h)
        (λ name st' h'. upload_open-IsSound fuel name is_append true offset st' h')
  upload_ready-IsSound fuel s arg is_append false offset true st h =
      upload_open-IsSound fuel _ is_append false offset st h

  upload_argument-IsSound :
      (fuel : ℕ) (s : Sess) (is_append is_unique : Bool) (arg : Option Bytes) (st : State)
      → IsSound st.sess
      → Ends Sound (upload_argument apr fuel s is_append is_unique arg st)
  unfolding lfd_cmdio_write
  upload_argument-IsSound fuel s is_append is_unique none st h = h
  upload_argument-IsSound fuel s is_append is_unique (some arg) st h =
      Ends-and_then ReadyIf Sound (data_transfer_checks_ok apr st)
        (upload_ready apr fuel s arg is_append is_unique s.restart_pos)
        (data_transfer_checks_ok-IsReady apr st h)
        (λ ready st' h'.
          upload_ready-IsSound fuel s arg is_append is_unique s.restart_pos ready st' h')

  -- STOR, APPE and STOU keep the invariant on all their paths: they leave no data socket open, and
  -- they do not call `bug`.
  pub handle_upload_common-IsSound :
      (fuel : ℕ) (is_append is_unique : Bool) (st : State)
      → IsSound st.sess
      → Ends Sound (handle_upload_common apr fuel is_append is_unique st)
  unfolding handle_upload_common
  handle_upload_common-IsSound fuel is_append is_unique st h =
      upload_argument-IsSound fuel st.sess is_append is_unique st.sess.ftp_arg_str
        (restarted apr st) (restarted-IsSound apr st h)
