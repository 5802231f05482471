-- ===== src/Directory.antt =====
-- The commands of cmdhandler.c on directories and names: RMD, MKD, PWD, CWD, CDUP, RNFR, RNTO, DELE.
-- Log output is left out.
pub mod Moves
use lkl_lklftpd.Base.{
  ℕ, Bool, true, false, not, ◌&&◌, ◌||◌, Option, none, some, List, [], ◌∷◌, ◌==◌, if◌then◌else◌,
  Bytes, text, length,
}
use lkl_lklftpd.System.{
  Status, is_success, is_dir, is_reg, Apr, Arg, Sess, Run, ◌>>=◌, ◌>>◌, pure, get_sess, modify, ⊤,
  lkl_stat, lkl_dir_make, lkl_dir_remove, lkl_file_remove, lkl_file_rename,
}
use lkl_lklftpd.Cmdio.{lfd_cmdio_write}
use lkl_lklftpd.Paths.{get_abs_path, with_slash, same_string, cdup_path}
use lkl_lklftpd.Ftpcodes.{
  ftp_allook, ftp_badopts, ftp_badprot, ftp_cwdok, ftp_deleok, ftp_filefail, ftp_mkdirok, ftp_pwdok,
  ftp_renameok, ftp_rmdirok, ftp_rnfrok,
}

-- A path where NULL would be followed or printed; no command line leads to that.
abbrev pub path_text : Option Bytes → Bytes
path_text none = []
path_text (some path) = path

module _ (apr : Apr) where
  -- lfd_cmdio_write(sess, cmd, msg); return rc;
  abbrev pub answer : ℕ → Bytes → Run Status
  answer cmd msg = lfd_cmdio_write apr cmd msg []

  -- The same with one string for the format.
  abbrev pub answer_with : ℕ → Bytes → Bytes → Run Status
  answer_with cmd msg s = lfd_cmdio_write apr cmd msg (Arg.str s ∷ [])

  unfoldable pub handle_dir_remove : Run Status
  handle_dir_remove = do
    s ← get_sess
    elim s.ftp_arg_str [
      | none ↦ answer ftp_filefail (text "Command must have an argument.")
      | some arg ↦ elim (get_abs_path apr arg s.cwd_path) [
        | none ↦ do
          answer ftp_filefail (text "The server has encountered an error.")
          pure Status.einval
        | some rpath ↦ do
          rc ← lkl_dir_remove apr rpath
          if not (is_success rc)
              then answer_with ftp_filefail (text "Cannot remove directory %s.") rpath
              else answer_with ftp_rmdirok (text "%s Directory deleted.") rpath
      ]
    ]

  unfoldable pub handle_dir_create : Run Status
  handle_dir_create = do
    s ← get_sess
    elim s.ftp_arg_str [
      | none ↦ answer ftp_filefail (text "Command must have an argument.")
      | some arg ↦ elim (get_abs_path apr arg s.cwd_path) [
        | none ↦ do
          answer ftp_filefail (text "The server has encountered an error processing the path.")
          pure Status.einval
        | some rpath ↦ do
          (rc, _) ← lkl_stat apr rpath
          if is_success rc
              then answer_with ftp_filefail (text "%s Directory exists.") rpath
              else (do
                rc ← lkl_dir_make apr rpath
                if not (is_success rc)
                    then answer_with ftp_filefail (text "Cannot create directory %s.") rpath
                    else answer_with ftp_mkdirok (text "%s Directory created.") rpath)
      ]
    ]

  -- The working directory is the format of the reply.
  unfoldable pub handle_pwd : Run Status
  handle_pwd = do s ← get_sess; answer ftp_pwdok s.cwd_path

  unfoldable pub handle_cdup : Run Status
  handle_cdup = do
    s ← get_sess
    if length s.cwd_path == 1 then answer ftp_allook (text "Already in root directory.") else (do
      let up = cdup_path s.cwd_path
      modify (λ t. record t { cwd_path = up })
      answer_with ftp_allook (text "Changed to directory [%s].") up)

  unfoldable pub handle_cwd : Run Status
  unfolding handle_cdup
  handle_cwd = do
    s ← get_sess
    elim s.ftp_arg_str [
      | none ↦ answer ftp_filefail (text "Command must have an argument.")
      | some arg ↦
          if same_string arg (b'.' ∷ [])
          then answer_with ftp_cwdok (text "Directory changed to [%s].") s.cwd_path
          else if same_string arg (b'.' ∷ b'.' ∷ [])
          then handle_cdup
          else elim (get_abs_path apr arg s.cwd_path) [
            | none ↦ do
              answer ftp_filefail (text "The server has encountered an error processing the path")
              pure Status.einval
            | some abs ↦ do
              let path = with_slash apr abs
              (rc, finfo) ← lkl_stat apr path
              if not (is_success rc) || not (is_dir finfo.filetype)
                  then answer_with ftp_filefail (text "%s is not a directory.") path
                  else (do
                    let kept = apr.pstrdup path
                    modify (λ t. record t { cwd_path = kept })
                    answer_with ftp_cwdok (text "Directory changed to [%s].") kept)
          ]
    ]

  -- With the path that is stored through `temp_path`.
  unfoldable pub handle_rnfr : Run (Status × Option Bytes)
  handle_rnfr = do
    s ← get_sess
    elim s.ftp_arg_str [
      | none ↦ do rc ← answer ftp_filefail (text "Bad command argument."); pure (rc, none)
      | some arg ↦ elim (get_abs_path apr arg s.cwd_path) [
        | none ↦ do
          answer ftp_filefail (text "The server has encountered an error.")
          pure (Status.einval, none)
        | some path ↦ do
          (rc, finfo) ← lkl_stat apr path
          if not (is_success rc) || (not (is_reg finfo.filetype) && not (is_dir finfo.filetype))
              then (do
                rc ← answer_with ftp_filefail (text "%s is not a directory or a file.") arg
                pure (rc, none))
              else (do
                rc ← answer ftp_rnfrok (text "Requested file action pending further information.")
                pure (rc, some path))
      ]
    ]

  unfoldable pub handle_bad_rnto : Run Status
  handle_bad_rnto = answer ftp_badprot (text "Bad sequence of commands.")

  unfoldable pub handle_rnto : Option Bytes → Run Status
  handle_rnto old_path = do
    s ← get_sess
    elim s.ftp_arg_str [
      | none ↦ answer ftp_badopts (text "Bad command argument.")
      | some arg ↦ do
        let path = get_abs_path apr arg s.cwd_path
        rc ← lkl_file_rename apr old_path path
        if not (is_success rc)
            then answer_with ftp_badopts (text "Cannot rename directory/file %s.") (path_text path)
            else answer ftp_renameok (text "Directory/file was succesfully renamed.")
    ]

  unfoldable pub handle_dele : Run Status
  handle_dele = do
    s ← get_sess
    elim s.ftp_arg_str [
      | none ↦ answer ftp_badopts (text "Bad command argument.")
      | some arg ↦ elim (get_abs_path apr arg s.cwd_path) [
        | none ↦ do
          answer ftp_badopts (text "The server has encountered an error.")
          pure Status.einval
        | some path ↦ do
          rc ← lkl_file_remove apr (some path)
          if not (is_success rc)
              then answer ftp_filefail (text "Requested action not taken. File unavailable.")
              else answer ftp_deleok (text "File deleted.")
      ]
    ]
