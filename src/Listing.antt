-- ===== src/Listing.antt =====
-- The LIST command of cmdhandler.c. Log output is left out.
use lkl_lklftpd.Base.{
  ℕ, zero, suc, Bool, true, false, not, ◌&&◌, ◌||◌, Option, none, some, [], ◌∷◌, ◌==◌,
  if◌then◌else◌, Bytes, text, length, drop,
}
use lkl_lklftpd.System.{
  ℤ, Status, is_success, is_incomplete, is_dir, Apr, Arg, FileInfo, Dir, Socket, Run, Halt, ◌>>=◌,
  ◌>>◌, pure, halt, get_sess, socket_send, lkl_dir_open, lkl_dir_read, lkl_dir_close, time_now,
}
use lkl_lklftpd.Kernel.Word.{to_int}
use lkl_lklftpd.Cmdio.{crlf}
use lkl_lklftpd.DataChannel.{lfd_get_remote_transfer_fd, lfd_dispose_transfer_fd}
use lkl_lklftpd.Directory.{answer}
use lkl_lklftpd.Paths.{get_abs_path, char_at}
use lkl_lklftpd.Ftpcodes.{ftp_badopts, ftp_badsendnet, ftp_transferok}

-- LIST_FLAG_A and LIST_FLAG_L
pub record ListFlags : Type 0 where
  pub flag_a : Bool
  pub flag_l : Bool

-- strchr(s, c) != NULL
abbrev pub has_char : ℕ → Bytes → Bool
has_char c [] = false
has_char c (d ∷ rest) = c == d || has_char c rest

abbrev pub bit_char : Bool → ℕ → Arg
bit_char b c = Arg.chr (if b then c else b'-')

module _ (apr : Apr) where
  -- The line of an entry, in the long and in the short form.
  unfoldable pub long_line : FileInfo → ℕ → Bytes
  long_line finfo now =
      let exp_time = apr.time_exp_lt finfo.mtime in
      let exp_now = apr.time_exp_lt now in
      let time_fmt =
        (if exp_now.tm_year == exp_time.tm_year then text "%b %d %H:%M" else text "%b %d %Y") in
      let time_string = apr.strftime 13 time_fmt exp_time in
      let p = finfo.protection in
      apr.snprintf 1024 (text "%c%c%c%c%c%c%c%c%c%c ftp ftp %d %s %s") (
        Arg.chr (if is_dir finfo.filetype then b'd' else b'-')
        ∷ bit_char p.uread b'r'
        ∷ bit_char p.uwrite b'w'
        ∷ bit_char p.uexecute b'x'
        ∷ bit_char p.gread b'r'
        ∷ bit_char p.gwrite b'w'
        ∷ bit_char p.gexecute b'x'
        ∷ bit_char p.wread b'r'
        ∷ bit_char p.wwrite b'w'
        ∷ bit_char p.wexecute b'x'
        ∷ Arg.int (to_int (ℤ.pos finfo.size))
        ∷ Arg.str time_string
        ∷ Arg.str finfo.name
        ∷ [])

  unfoldable pub short_line : FileInfo → Bytes
  short_line finfo =
      apr.snprintf 1024 (text "%s%s")
        (Arg.str finfo.name ∷ Arg.str (if is_dir finfo.filetype then text "/" else []) ∷ [])

  -- The entries from the next one on, behind the text `dest`.
  unfoldable pub list_loop : ℕ → Dir → ListFlags → Bytes → Run Bytes
  list_loop zero dir flags dest = halt Halt.out_of_fuel
  list_loop (suc fuel) dir flags dest = do
    (rc, finfo) ← lkl_dir_read apr dir
    if not (is_success rc) && not (is_incomplete rc)
        then pure dest
        else if not flags.flag_a && char_at finfo.name 0 == b'.'
        then list_loop fuel dir flags dest
        else (do
          buffer ←
              (if flags.flag_l
                then (do now ← time_now apr; pure (long_line finfo now))
                else pure (short_line finfo))
          list_loop fuel dir flags (apr.pstrcat dest (apr.pstrcat buffer crlf)))

  unfoldable pub list_dir : ℕ → Bytes → ListFlags → Run (Status × Bytes)
  list_dir fuel directory flags = do
    (rc, dir) ← lkl_dir_open apr directory
    if not (is_success rc) then pure (rc, crlf) else (do
      dest ← list_loop fuel dir flags []
      lkl_dir_close apr dir
      pure (Status.success, dest))

  -- The path and the flags that the argument of LIST asks for.
  unfoldable pub list_request : Option Bytes → Bytes → Option Bytes × ListFlags
  list_request none cwd = (some (apr.pstrdup cwd), record { flag_a = false; flag_l = true })
  list_request (some arg) cwd =
      if char_at arg 0 == b'-'
      then (some (apr.pstrdup cwd), record { flag_a = has_char b'a' (drop 1 arg); flag_l = true })
      else (get_abs_path apr arg cwd, record { flag_a = false; flag_l = true })

  -- handle_list from the data socket on.
  abbrev pub list_connected : Bytes → Option Socket → Run Status
  list_connected file_list none = pure Status.einval
  list_connected file_list (some fd) = do
    (rc, bytes_written) ← socket_send apr fd file_list
    rc ←
        (if is_success rc && length file_list == bytes_written
          then answer apr ftp_transferok (text "Directory sent OK")
          else answer apr ftp_badsendnet (text "Error sendind data"))
    lfd_dispose_transfer_fd apr
    pure rc

  -- handle_list from the text of the listing on.
  abbrev pub list_send : Bytes → Run Status
  list_send file_list = do
    remote_fd ← lfd_get_remote_transfer_fd apr (text "Here comes the directory listing")
    list_connected file_list remote_fd

  -- handle_list from the path on.
  abbrev pub list_path : ℕ → ListFlags → Option Bytes → Run Status
  list_path fuel flags none = do
    answer apr ftp_badopts (text "The server has encountered an error.")
    pure Status.einval
  list_path fuel flags (some path) = do
    (rc, file_list) ← list_dir fuel path flags
    if not (is_success rc)
        then answer apr ftp_badopts (text "Cannot list files.")
        else list_send file_list

  unfoldable pub handle_list : ℕ → Run Status
  handle_list fuel = do
    s ← get_sess
    let (wanted, flags) = list_request s.ftp_arg_str s.cwd_path
    list_path fuel flags wanted
