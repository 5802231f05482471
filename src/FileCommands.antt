-- ===== src/FileCommands.antt =====
-- The transfer commands of cmdhandler.c: RETR, STOR, APPE and STOU. Log output is left out.
pub mod Unique
use lkl_lklftpd.Base.{
  ℕ, zero, suc, ◌+◌, ◌%◌, ◌^◌, Bool, true, false, not, ◌&&◌, ◌||◌, Option, none, some, List, [],
  ◌∷◌, ◌++◌, ◌==◌, if◌then◌else◌, Bytes, text,
}
use lkl_lklftpd.System.{
  Status, is_success, is_reg, ℤ, Apr, Arg, Sess, DataSess, OpenFlag, File, Socket, Run, Halt, ◌>>=◌,
  ◌>>◌, pure, halt, get_sess, modify, modify_data, ⊤, lkl_stat, lkl_file_open, lkl_file_seek,
  lkl_file_close,
}
use lkl_lklftpd.Cmdio.{lfd_cmdio_write}
use lkl_lklftpd.Connection.{lfd_communication_cleanup}
use lkl_lklftpd.DataChannel.{
  data_transfer_checks_ok, lfd_get_remote_transfer_fd, lfd_dispose_transfer_fd,
}
use lkl_lklftpd.Directory.{answer, path_text}
use lkl_lklftpd.Paths.{get_abs_path}
use lkl_lklftpd.Transfer.{TransferRet, do_file_send_rwloop, do_file_recv, check_abor}
use lkl_lklftpd.Ftpcodes.{
  ftp_badopts, ftp_badsendfile, ftp_badsendnet, ftp_dataconn, ftp_filefail, ftp_transferok,
  ftp_uploadfail,
}

abbrev pub is_minus_one : ℤ → Bool
is_minus_one (ℤ.negsuc n) = n == 0
is_minus_one (ℤ.pos _) = false

abbrev pub is_minus_two : ℤ → Bool
is_minus_two (ℤ.negsuc n) = n == 1
is_minus_two (ℤ.pos _) = false

module _ (apr : Apr) where
  -- What both transfers end with: the result is reported, then all is closed.
  unfoldable pub finish : File → ℤ → Bytes → Bytes → Bytes → Run Status
  finish file retval local_failure net_failure done = do
    if is_minus_one retval
        then answer apr ftp_badsendfile local_failure
        else if is_minus_two retval
        then answer apr ftp_badsendnet net_failure
        else answer apr ftp_transferok done
    check_abor apr
    lfd_communication_cleanup apr
    lkl_file_close apr file
    pure Status.success

  -- handle_retr from the data socket on.
  abbrev pub retr_connected : ℕ → File → Bool → Option Socket → Run Status
  retr_connected fuel file is_ascii none = do
    lfd_communication_cleanup apr
    lkl_file_close apr file
    pure Status.einval
  retr_connected fuel file is_ascii (some _) = do
    trans_ret ← do_file_send_rwloop apr fuel file is_ascii
    lfd_dispose_transfer_fd apr
    finish file trans_ret.retval (text "Failure reading local file.")
        (text "Failure writing network stream.") (text "File send OK.")

  unfoldable pub retr_message : Bool → Bytes → ℕ → Bytes
  retr_message is_ascii path size = apr.vsprintf (text "Opening %s %s %s %s %u %s") (
      Arg.str (if is_ascii then text "ASCII" else text "BINARY")
      ∷ Arg.str (text " mode data connection for ")
      ∷ Arg.str path
      ∷ Arg.str (text " ( ")
      ∷ Arg.num (size % 2 ^ 32)
      ∷ Arg.str (text " bytes).")
      ∷ [])

  -- handle_retr from the message on.
  unfoldable pub retr_send : ℕ → File → Bytes → ℕ → Run Status
  retr_send fuel file path size = do
    s ← get_sess
    remote_fd ← lfd_get_remote_transfer_fd apr (retr_message s.is_ascii path size)
    retr_connected fuel file s.is_ascii remote_fd

  abbrev pub retr_flags : List OpenFlag
  retr_flags = OpenFlag.read ∷ OpenFlag.binary ∷ OpenFlag.largefile ∷ OpenFlag.sendfile_enabled ∷ []

  -- handle_retr from the opened file on.
  unfoldable pub retr_file : ℕ → File → Bytes → ℕ → Run Status
  retr_file fuel file path offset = do
    (rc, finfo) ← lkl_stat apr path
    if not (is_success rc) || not (is_reg finfo.filetype)
        then (do
          answer apr ftp_filefail (
              if is_success rc
              then text "File type is not of regular type"
              else text "Failed to stat file.")
          lkl_file_close apr file
          pure rc)
        else (do
          rc ← (if not (offset == 0) then lkl_file_seek apr file offset else pure Status.success)
          if not (is_success rc)
              then (do
                answer apr ftp_filefail (text "Failed to seek into file.")
                lkl_file_close apr file
                pure rc)
              else retr_send fuel file path finfo.size)

  -- handle_retr from the opening of the file on.
  unfoldable pub retr_open : ℕ → Option Bytes → ℕ → Run Status
  retr_open fuel path offset = do
    (rc, file) ← lkl_file_open apr path retr_flags
    if not (is_success rc)
        then (do answer apr ftp_filefail (text "Failed to open file."); pure rc)
        else retr_file fuel file (path_text path) offset

  -- handle_retr behind data_transfer_checks_ok, whose result comes last.
  abbrev pub retr_ready : ℕ → Sess → Bytes → ℕ → Bool → Run Status
  retr_ready fuel s arg offset false = pure Status.einval
  retr_ready fuel s arg offset true =
      if s.is_ascii && not (offset == 0)
      then (do
        answer apr ftp_filefail (text "No support for resume of ASCII transfer.")
        pure Status.einval)
      else retr_open fuel (get_abs_path apr arg s.cwd_path) offset

  -- handle_retr behind the reset of the restart position, with the argument last.
  abbrev pub retr_argument : ℕ → Sess → Option Bytes → Run Status
  retr_argument fuel s none = answer apr ftp_badopts (text "Command must have an argument.")
  retr_argument fuel s (some arg) = do
    ready ← data_transfer_checks_ok apr
    retr_ready fuel s arg s.restart_pos ready

  unfoldable pub handle_retr : ℕ → Run Status
  handle_retr fuel = do
    s ← get_sess
    modify (λ t. record t { restart_pos = 0 })
    retr_argument fuel s s.ftp_arg_str

  -- The names that get_unique_filename tries after `base`, by suffix. An unsigned int has 32 bits.
  unfoldable pub unique_loop : ℕ → Bytes → ℕ → Run Bytes
  unique_loop zero base suffix = halt Halt.out_of_fuel
  unique_loop (suc fuel) base suffix = do
    let dest = apr.vsprintf (text "%s.%u") (Arg.str base ∷ Arg.num suffix ∷ [])
    (rc, _) ← lkl_stat apr dest
    if not (is_success rc) then pure dest else unique_loop fuel base ((suffix + 1) % 2 ^ 32)

  unfoldable pub get_unique_filename : ℕ → Bytes → Run Bytes
  unfolding unique_loop
  get_unique_filename fuel base = do
    (rc, _) ← lkl_stat apr base
    if not (is_success rc) then pure base else unique_loop fuel base 1

  abbrev pub upload_flags : Bool → ℕ → List OpenFlag
  upload_flags is_append offset =
      OpenFlag.create
      ∷ OpenFlag.write
      ∷ OpenFlag.append
      ∷ OpenFlag.binary
      ∷ (if not is_append && offset == 0 then OpenFlag.truncate ∷ [] else [])

  -- handle_upload_common from the data socket on.
  abbrev pub upload_connected : ℕ → File → Option Socket → Run Status
  upload_connected fuel file none = pure Status.einval
  upload_connected fuel file (some _) = do
    s ← get_sess
    trans_ret ← do_file_recv apr fuel file s.is_ascii
    lfd_dispose_transfer_fd apr
    modify_data (λ d. record d { transfer_size = trans_ret.transferred })
    finish file trans_ret.retval (text "Failure writing to local file.")
        (text "Failure reading network stream.") (text "File receive OK.")

  -- handle_upload_common from the message on.
  unfoldable pub upload_recv : ℕ → File → Bytes → Bool → Run Status
  upload_recv fuel file filename is_unique = do
    let msg = (if is_unique then apr.pstrcat (text "FILE: ") filename else text "Ok to send data.")
    rc ← (if is_unique then answer apr ftp_dataconn msg else pure Status.success)
    if not (is_success rc) then pure rc else (do
      remote_fd ← lfd_get_remote_transfer_fd apr msg
      upload_connected fuel file remote_fd)

  -- handle_upload_common from the opening of the file on.
  unfoldable pub upload_open : ℕ → Bytes → Bool → Bool → ℕ → Run Status
  upload_open fuel filename is_append is_unique offset = do
    (rc, file) ← lkl_file_open apr (some filename) (upload_flags is_append offset)
    if not (is_success rc)
        then (do answer apr ftp_uploadfail (text "Could not create file."); pure rc)
        else (do
          rc ←
              (if not is_append && not (offset == 0)
                then lkl_file_seek apr file offset
                else pure Status.success)
          if not (is_success rc)
              then (do answer apr ftp_uploadfail (text "Could not seek into file."); pure rc)
              else upload_recv fuel file filename is_unique)

  -- handle_upload_common behind data_transfer_checks_ok, whose result comes last.
  abbrev pub upload_ready : ℕ → Sess → Bytes → Bool → Bool → ℕ → Bool → Run Status
  upload_ready fuel s arg is_append is_unique offset false = pure Status.einval
  upload_ready fuel s arg is_append is_unique offset true = do
    let path = path_text (get_abs_path apr arg s.cwd_path)
    filename ← (if is_unique then get_unique_filename fuel path else pure path)
    upload_open fuel filename is_append is_unique offset

  -- handle_upload_common behind the reset of the restart position, with the argument last.
  abbrev pub upload_argument : ℕ → Sess → Bool → Bool → Option Bytes → Run Status
  upload_argument fuel s is_append is_unique none =
      answer apr ftp_badopts (text "Command must have an argument.")
  upload_argument fuel s is_append is_unique (some arg) = do
    ready ← data_transfer_checks_ok apr
    upload_ready fuel s arg is_append is_unique s.restart_pos ready

  unfoldable pub handle_upload_common : ℕ → Bool → Bool → Run Status
  handle_upload_common fuel is_append is_unique = do
    s ← get_sess
    modify (λ t. record t { restart_pos = 0 })
    upload_argument fuel s is_append is_unique s.ftp_arg_str

  unfoldable pub handle_stor : ℕ → Run Status
  handle_stor fuel = handle_upload_common fuel false false

  unfoldable pub handle_appe : ℕ → Run Status
  handle_appe fuel = handle_upload_common fuel true false

  unfoldable pub handle_stou : ℕ → Run Status
  handle_stou fuel = handle_upload_common fuel false true
