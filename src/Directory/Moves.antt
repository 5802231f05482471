-- ===== src/Directory/Moves.antt =====
-- Walking the directory tree with CWD and CDUP of cmdhandler.c.
use lkl_lklftpd.Base.{
  subst, sym, ◌-◌, ◌<◌, ◌≡◌, refl, true, false, some, [], ◌∷◌, ◌++◌, arith, Bytes, length,
  Bool-cases, inl, inr, ◌==◌, ne→==, append_assoc, ◌∙◌, ap,
}
use lkl_lklftpd.System.{
  Apr, CopiesStrings, State, Status, is_success, is_dir, Outcome, ret, halted, and_then,
}
use lkl_lklftpd.Cmdio.{lfd_cmdio_write}
use lkl_lklftpd.Paths.{slash, char_at, same_string, get_abs_path, with_slash, cdup_path}
use lkl_lklftpd.Paths.Laws.{
  IsDirPath, child-IsDirPath, no_slash, cdup_path-child, cdup_path-root, char_at-child,
}
use lkl_lklftpd.Directory.{handle_cwd, handle_cdup}

-- The run returns with this working directory.
abbrev pub EndsIn : Bytes → Outcome Status → Type 0
EndsIn cwd (ret rc st) = st.sess.cwd_path ≡ cwd
EndsIn cwd (halted why st) = ⊥

EndsIn-and_then :
    (base next : Bytes) (o : Outcome Status) (f : State → Outcome Status)
    → EndsIn base o
    → ((st : State) → st.sess.cwd_path ≡ base → EndsIn next (f st))
    → EndsIn next (and_then o (λ _. f))
EndsIn-and_then base next (ret rc st) f h k = k st h
EndsIn-and_then base next (halted why st) f h k = absurd h

module _ (apr : Apr) where
  -- CDUP returns with the parent as the working directory, which for the root is the root.
  handle_cdup-EndsIn :
      (st : State)
      → IsDirPath st.sess.cwd_path
      → EndsIn (cdup_path st.sess.cwd_path) (handle_cdup apr st)
  unfolding handle_cdup lfd_cmdio_write
  handle_cdup-EndsIn st h = elim (Bool-cases (length st.sess.cwd_path == 1)) [
    | inl e ↦ rw e (sym (cdup_path-root st.sess.cwd_path (ground arith)))
    | inr e ↦ rw e refl
  ]

relative_abs :
    (apr : Apr) (copies : CopiesStrings apr) (name cwd : Bytes)
    → no_slash name ≡ true
    → 0 < length name
    → get_abs_path apr name cwd ≡ some (cwd ++ name)
unfolding get_abs_path
relative_abs apr copies [] cwd plain some_name = absurd (omega arith)
relative_abs apr copies (c ∷ rest) cwd plain some_name =
    let other : (c == slash) ≡ false = ground arith in
    rw (other, copies.pstrcat_append cwd (c ∷ rest))

module _ (apr : Apr) (copies : CopiesStrings apr) (st : State) (name : Bytes) where
  -- The path that CWD asks for.
  abbrev pub child_path : Bytes
  child_path = st.sess.cwd_path ++ (name ++ (slash ∷ []))

  child_slash :
      IsDirPath st.sess.cwd_path
      → no_slash name ≡ true
      → 0 < length name
      → with_slash apr (st.sess.cwd_path ++ name) ≡ child_path
  unfolding with_slash
  child_slash h plain some_name =
      let last = length (st.sess.cwd_path ++ name) - 1 in
      let at = char_at-child st.sess.cwd_path name plain some_name in
      let other : (char_at (st.sess.cwd_path ++ name) last == slash) ≡ false =
        ne→== (char_at (st.sess.cwd_path ++ name) last) slash at in
      rw other (
        copies.pstrcat_append (st.sess.cwd_path ++ name) (slash ∷ [])
        ∙ append_assoc st.sess.cwd_path name (slash ∷ []))

  child_abs :
      no_slash name ≡ true
      → 0 < length name
      → get_abs_path apr name st.sess.cwd_path ≡ some (st.sess.cwd_path ++ name)
  child_abs plain some_name = relative_abs apr copies name st.sess.cwd_path plain some_name

  module _ (h : IsDirPath st.sess.cwd_path) (asked : st.sess.ftp_arg_str ≡ some name)
      (plain : no_slash name ≡ true) (some_name : 0 < length name)
      (no_dot : same_string name (b'.' ∷ []) ≡ false)
      (no_dots : same_string name (b'.' ∷ b'.' ∷ []) ≡ false)
      (found : is_success (apr.stat st.history child_path).0 ≡ true)
      (is_directory : is_dir (apr.stat st.history child_path).1.filetype ≡ true) where
    -- CWD with the name of a directory enters it.
    pub handle_cwd-EndsIn : EndsIn child_path (handle_cwd apr st)
    unfolding handle_cwd lfd_cmdio_write
    handle_cwd-EndsIn =
        rw
          (
            asked,
            no_dot,
            no_dots,
            child_abs plain some_name,
            child_slash h plain some_name,
            found,
            is_directory,
            copies.pstrdup_same child_path,
          )
          refl

    -- In a directory, CWD with a name that is not empty, not "." or "..", has no slash, and names a
    -- directory, and then CDUP, both return, and the working directory is the first again. The
    -- runtime's copies of strings are assumed to be copies.
    pub handle_cwd-handle_cdup :
        EndsIn st.sess.cwd_path (and_then (handle_cwd apr st) (λ _. handle_cdup apr))
    handle_cwd-handle_cdup =
        EndsIn-and_then child_path st.sess.cwd_path (handle_cwd apr st) (handle_cdup apr)
          handle_cwd-EndsIn
          (λ st' e.
            let up =
              handle_cdup-EndsIn apr st'
                (subst IsDirPath (sym e) (child-IsDirPath st.sess.cwd_path name h some_name)) in
            subst (λ path. EndsIn path (handle_cdup apr st'))
              (ap cdup_path e ∙ cdup_path-child st.sess.cwd_path name h plain some_name) up)
