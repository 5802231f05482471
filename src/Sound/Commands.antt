-- ===== src/Sound/Commands.antt =====
-- The commands on directories, names and the session keep the invariant.
use lkl_lklftpd.Base.{ℕ, [], ◌≡◌, Option, some, arith, Bytes}
use lkl_lklftpd.Paths.Laws.{
  IsDirPath, cdup_path-IsDirPath, get_abs_path-from_root, with_slash-IsDirPath,
}
use lkl_lklftpd.Paths.{get_abs_path, with_slash}
use lkl_lklftpd.System.{Apr, CopiesStrings, State}
use lkl_lklftpd.Cmdio.{lfd_cmdio_write}
use lkl_lklftpd.Directory.{
  handle_dir_remove, handle_dir_create, handle_pwd, handle_cwd, handle_cdup, handle_rnfr,
  handle_bad_rnto, handle_rnto, handle_dele,
}
use lkl_lklftpd.Control.{
  handle_user, handle_pass, handle_syst, handle_type, handle_quit, handle_abort, handle_site,
  handle_feat,
}
use lkl_lklftpd.Sound.Defs.{IsSound, Ends, Sound}

module _ (apr : Apr) (st : State) (h : IsSound st.sess) where
  pub handle_dir_remove-IsSound : Ends Sound (handle_dir_remove apr st)
  unfolding handle_dir_remove lfd_cmdio_write
  handle_dir_remove-IsSound = ground arith

  pub handle_dir_create-IsSound : Ends Sound (handle_dir_create apr st)
  unfolding handle_dir_create lfd_cmdio_write
  handle_dir_create-IsSound = ground arith

  pub handle_pwd-IsSound : Ends Sound (handle_pwd apr st)
  unfolding handle_pwd lfd_cmdio_write
  handle_pwd-IsSound = ground arith

  pub handle_cdup-IsSound : Ends Sound (handle_cdup apr st)
  unfolding handle_cdup lfd_cmdio_write
  handle_cdup-IsSound = ground (arith, cdup_path-IsDirPath st.sess.cwd_path h.steady.in_dir)

  pub handle_rnfr-IsSound : Ends Sound (handle_rnfr apr st)
  unfolding handle_rnfr lfd_cmdio_write
  handle_rnfr-IsSound = ground arith

  pub handle_bad_rnto-IsSound : Ends Sound (handle_bad_rnto apr st)
  unfolding handle_bad_rnto lfd_cmdio_write
  handle_bad_rnto-IsSound = ground arith

  pub handle_rnto-IsSound : (old : Option Bytes) → Ends Sound (handle_rnto apr old st)
  unfolding handle_rnto lfd_cmdio_write
  handle_rnto-IsSound old = ground arith

  pub handle_dele-IsSound : Ends Sound (handle_dele apr st)
  unfolding handle_dele lfd_cmdio_write
  handle_dele-IsSound = ground arith

  pub handle_user-IsSound : Ends Sound (handle_user apr st)
  unfolding handle_user lfd_cmdio_write
  handle_user-IsSound = ground arith

  pub handle_pass-IsSound : Ends Sound (handle_pass apr st)
  unfolding handle_pass lfd_cmdio_write
  handle_pass-IsSound = ground arith

  pub handle_syst-IsSound : Ends Sound (handle_syst apr st)
  unfolding handle_syst lfd_cmdio_write
  handle_syst-IsSound = ground arith

  pub handle_type-IsSound : Ends Sound (handle_type apr st)
  unfolding handle_type lfd_cmdio_write
  handle_type-IsSound = ground arith

  pub handle_quit-IsSound : Ends Sound (handle_quit apr st)
  unfolding handle_quit lfd_cmdio_write
  handle_quit-IsSound = ground arith

  pub handle_abort-IsSound : Ends Sound (handle_abort apr st)
  unfolding handle_abort lfd_cmdio_write
  handle_abort-IsSound = ground arith

  pub handle_site-IsSound : Ends Sound (handle_site apr st)
  unfolding handle_site lfd_cmdio_write
  handle_site-IsSound = ground arith

  pub handle_feat-IsSound : Ends Sound (handle_feat apr st)
  unfolding handle_feat lfd_cmdio_write
  handle_feat-IsSound = ground arith

  pub answer-IsSound : (cmd : ℕ) (msg : Bytes) → Ends Sound (lfd_cmdio_write apr cmd msg [] st)
  unfolding lfd_cmdio_write
  answer-IsSound cmd msg = h

  module _ (copies : CopiesStrings apr) where
    -- The path that CWD stores.
    entered-IsDirPath :
        (arg abs : Bytes)
        → get_abs_path apr arg st.sess.cwd_path ≡ some abs
        → IsDirPath (apr.pstrdup (with_slash apr abs))
    entered-IsDirPath arg abs e = rw copies.pstrdup_same (
        with_slash-IsDirPath apr copies abs
          (get_abs_path-from_root apr copies arg st.sess.cwd_path h.steady.in_dir e))

    pub handle_cwd-IsSound : Ends Sound (handle_cwd apr st)
    unfolding handle_cwd lfd_cmdio_write
    handle_cwd-IsSound =
        grind (arith, entered-IsDirPath, cdup_path-IsDirPath st.sess.cwd_path h.steady.in_dir)
