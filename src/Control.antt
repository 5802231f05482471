-- ===== src/Control.antt =====
-- The commands of cmdhandler.c on the session itself: USER, PASS, SYST, TYPE, QUIT, ABOR, SITE, FEAT,
-- and lfd_data_sess_create and lfd_data_sess_destroy of sess.c.
use lkl_lklftpd.Base.{◌+◌, Bool, false, not, none, some, [], if◌then◌else◌, is_some, text, ◌==◌}
use lkl_lklftpd.System.{
  Status, ℤ, Apr, Thread, Socket, Run, Halt, ◌>>=◌, ◌>>◌, pure, halt, get_sess, modify_data, ⊤,
  socket_close, thread_join, thread_exit,
}
use lkl_lklftpd.Cmdio.{lfd_cmdio_write}
use lkl_lklftpd.Ftpcodes.{
  ftp_abor_noconn, ftp_aborok, ftp_badcmd, ftp_feat, ftp_goodbye, ftp_loginok, ftp_more,
  ftp_sitehelp, ftp_systok, ftp_typeok,
}

abbrev pub is_zero : ℤ → Bool
is_zero (ℤ.pos n) = n == 0
is_zero (ℤ.negsuc _) = false

module _ (apr : Apr) where
  unfoldable pub handle_user : Run Status
  handle_user = lfd_cmdio_write apr ftp_loginok (text "Login successful.") []

  unfoldable pub handle_pass : Run Status
  handle_pass = lfd_cmdio_write apr ftp_loginok (text "Login successful.") []

  unfoldable pub handle_syst : Run Status
  handle_syst = lfd_cmdio_write apr ftp_systok (text "UNIX Type: L8") []

  unfoldable pub handle_type : Run Status
  handle_type = do lfd_cmdio_write apr ftp_typeok (text "TYPE ok") []; pure Status.success

  -- lfd_data_sess_create
  unfoldable pub data_sess_create : Thread → Socket → Run Status
  data_sess_create thd sock = do
    modify_data
        (λ d. record d { data_conn_th = some thd; data_sock = some sock; in_progress = false })
    pure Status.success

  -- lfd_data_sess_destroy
  unfoldable pub data_sess_destroy : Run ⊤
  data_sess_destroy = do
    modify_data (λ d. record d { in_progress = false })
    s ← get_sess
    elim s.data_conn.data_sock [ none ↦ halt Halt.null_deref | some fd ↦ socket_close apr fd ]

  unfoldable pub handle_quit : Run Status
  unfolding data_sess_destroy
  handle_quit = do
    s ← get_sess
    if s.data_conn.in_progress
        then (do thread_join apr s.data_conn.data_conn_th; data_sess_destroy)
        else pure tt
    lfd_cmdio_write apr ftp_goodbye (text "See you later, aligator.") []
    pure Status.success

  unfoldable pub handle_abort : Run Status
  unfolding data_sess_destroy
  handle_abort = do
    s ← get_sess
    if not s.data_conn.in_progress
        then (do
          lfd_cmdio_write apr ftp_abor_noconn (text "Nothing to abort.") []
          pure Status.success)
        else (do
          if is_some s.data_conn.data_conn_th
              then thread_exit apr s.data_conn.data_conn_th
              else pure tt
          data_sess_destroy
          lfd_cmdio_write apr ftp_aborok (text "File transfer aborted.") []
          pure Status.success)

  -- The comparison follows the pointer to the argument. SITE CHMOD and SITE UMASK only log.
  unfoldable pub handle_site : Run Status
  handle_site = do
    s ← get_sess
    elim s.ftp_arg_str [
      | none ↦ halt Halt.null_deref
      | some arg ↦
          if is_zero (apr.strnatcasecmp (text "CHMOD") arg)
          then pure Status.success
          else if is_zero (apr.strnatcasecmp (text "UMASK") arg)
          then pure Status.success
          else if is_zero (apr.strnatcasecmp (text "HELP") arg)
          then lfd_cmdio_write apr ftp_sitehelp (text "CHMOD UMASK HELP") []
          else lfd_cmdio_write apr ftp_badcmd (text "Unknown SITE command.") []
    ]

  unfoldable pub handle_feat : Run Status
  handle_feat = do
    lfd_cmdio_write apr (ftp_feat + ftp_more) (text "Features:") []
    lfd_cmdio_write apr ftp_feat (text "End") []
    pure Status.success
