-- ===== src/Sound/Loop.antt =====
-- The protocol loop keeps the invariant, from the creation of the session on.
use lkl_lklftpd.Base.{ℕ, zero, suc, ◌≢◌, refl, true, false, arith, ◌∷◌}
use lkl_lklftpd.System.{
  Apr, CopiesStrings, State, Status, Outcome, Run, Call, and_then, pure, Socket, sess_create,
}
use lkl_lklftpd.Cmdio.{lfd_cmdio_write, lfd_cmdio_get_cmd_and_arg}
use lkl_lklftpd.Directory.{handle_rnfr}
use lkl_lklftpd.Listing.{handle_list}
use lkl_lklftpd.FileCommands.{handle_stor, handle_appe, handle_stou}
use lkl_lklftpd.Worker.{
  Pending, Verdict, goes_on, returns, Command, dispatch, handle_command, protocol_pass, after_pass,
  ftp_protocol_loop, command_of,
}
use lkl_lklftpd.Sound.Defs.{
  IsSound, Ends, Sound, Ends-and_then, EndsExit, EndsExit-of, EndsExit-and_then,
}
use lkl_lklftpd.Sound.Commands.{
  handle_dir_remove-IsSound, handle_dir_create-IsSound, handle_pwd-IsSound, handle_cdup-IsSound,
  handle_rnfr-IsSound, handle_bad_rnto-IsSound, handle_rnto-IsSound, handle_dele-IsSound,
  handle_user-IsSound, handle_pass-IsSound, handle_syst-IsSound, handle_type-IsSound,
  handle_quit-IsSound, handle_abort-IsSound, handle_site-IsSound, handle_feat-IsSound,
  answer-IsSound, handle_cwd-IsSound,
}
use lkl_lklftpd.Sound.Channel.{handle_pasv-IsSound, handle_port-IsSound}
use lkl_lklftpd.Sound.Files.{handle_retr-IsSound}
use lkl_lklftpd.Sound.Uploads.{handle_upload_common-IsSound}
use lkl_lklftpd.Sound.Listing.{handle_list_any}

pub Command-discrete : Discrete Command
Command-discrete = hlevel

module _ (apr : Apr) (copies : CopiesStrings apr) where
  goes_on-IsSound :
      (p : Pending) (o : Outcome Status)
      → Ends Sound o
      → Ends Sound (and_then o (λ rc. pure (goes_on rc p)))
  goes_on-IsSound p o h = Ends-and_then Sound Sound o _ h (λ _ st' h'. h')

  -- Every command of the loop but LIST, run from a session that satisfies the invariant, keeps it
  -- where it returns, and calls neither `bug` nor apr_thread_exit. The runtime's copies of strings
  -- are assumed to be copies.
  pub dispatch-IsSound :
      (fuel : ℕ) (p : Pending) (c : Command) (st : State)
      → IsSound st.sess
      → c ≢ Command.list
      → Ends Sound (dispatch apr fuel p c st)
  unfolding dispatch handle_stor handle_appe handle_stou
  dispatch-IsSound fuel p Command.pasv st h n = goes_on-IsSound p _ (handle_pasv-IsSound apr st h)
  dispatch-IsSound fuel p Command.syst st h n = goes_on-IsSound p _ (handle_syst-IsSound apr st h)
  dispatch-IsSound fuel p Command.user st h n = goes_on-IsSound p _ (handle_user-IsSound apr st h)
  dispatch-IsSound fuel p Command.pass st h n = goes_on-IsSound p _ (handle_pass-IsSound apr st h)
  dispatch-IsSound fuel p Command.quit st h n =
      Ends-and_then Sound Sound _ _ (handle_quit-IsSound apr st h) (λ _ st' h'. h')
  dispatch-IsSound fuel p Command.abor st h n = goes_on-IsSound p _ (handle_abort-IsSound apr st h)
  dispatch-IsSound fuel p Command.port st h n = goes_on-IsSound p _ (handle_port-IsSound apr st h)
  dispatch-IsSound fuel p Command.rmd st h n =
      goes_on-IsSound p _ (handle_dir_remove-IsSound apr st h)
  dispatch-IsSound fuel p Command.mkd st h n =
      goes_on-IsSound p _ (handle_dir_create-IsSound apr st h)
  dispatch-IsSound fuel p Command.pwd st h n = goes_on-IsSound p _ (handle_pwd-IsSound apr st h)
  dispatch-IsSound fuel p Command.cwd st h n =
      goes_on-IsSound p _ (handle_cwd-IsSound apr st h copies)
  dispatch-IsSound fuel p Command.cdup st h n = goes_on-IsSound p _ (handle_cdup-IsSound apr st h)
  dispatch-IsSound fuel p Command.rnfr st h n =
      Ends-and_then Sound Sound (handle_rnfr apr st) _ (handle_rnfr-IsSound apr st h)
        (λ _ st' h'. h')
  dispatch-IsSound fuel p Command.type st h n = goes_on-IsSound p _ (handle_type-IsSound apr st h)
  dispatch-IsSound fuel p Command.retr st h n =
      goes_on-IsSound p _ (handle_retr-IsSound apr fuel st h)
  dispatch-IsSound fuel p Command.stor st h n =
      goes_on-IsSound p _ (handle_upload_common-IsSound apr fuel false false st h)
  dispatch-IsSound fuel p Command.dele st h n = goes_on-IsSound p _ (handle_dele-IsSound apr st h)
  dispatch-IsSound fuel p Command.stou st h n =
      goes_on-IsSound p _ (handle_upload_common-IsSound apr fuel false true st h)
  dispatch-IsSound fuel p Command.list st h n = absurd (n refl)
  dispatch-IsSound fuel p Command.feat st h n = goes_on-IsSound p _ (handle_feat-IsSound apr st h)
  dispatch-IsSound fuel p Command.appe st h n =
      goes_on-IsSound p _ (handle_upload_common-IsSound apr fuel true false st h)
  dispatch-IsSound fuel p Command.site st h n = goes_on-IsSound p _ (handle_site-IsSound apr st h)
  dispatch-IsSound fuel p Command.allo st h n = goes_on-IsSound p _ (answer-IsSound apr st h _ _)
  dispatch-IsSound fuel p Command.rein st h n = goes_on-IsSound p _ (answer-IsSound apr st h _ _)
  dispatch-IsSound fuel p Command.acct st h n = goes_on-IsSound p _ (answer-IsSound apr st h _ _)
  dispatch-IsSound fuel p Command.smnt st h n = goes_on-IsSound p _ (answer-IsSound apr st h _ _)
  dispatch-IsSound fuel p Command.unknown st h n =
      Ends-and_then Sound Sound (lfd_cmdio_write apr _ _ _ st) _ (answer-IsSound apr st h _ _)
        (λ _ st' h'. h')

  pub dispatch_any :
      (fuel : ℕ) (p : Pending) (c : Command) (st : State)
      → IsSound st.sess
      → EndsExit Sound (dispatch apr fuel p c st)
  unfolding dispatch
  dispatch_any fuel p c st h = elim (Command-discrete c Command.list) [
    | yes e ↦ rw e (
        EndsExit-and_then Sound Sound (handle_list apr fuel st) _ (handle_list_any apr fuel st h)
          (λ _ st' h'. h'))
    | no n ↦ EndsExit-of Sound (dispatch apr fuel p c st) (dispatch-IsSound fuel p c st h n)
  ]

  pub handle_command-IsSound :
      (fuel : ℕ) (p : Pending) (st : State)
      → IsSound st.sess
      → EndsExit Sound (handle_command apr fuel p st)
  unfolding handle_command
  handle_command-IsSound fuel p st h =
      let done = record p { rnfrto = false } in
      ground (
        arith,
        EndsExit-of Sound _ (goes_on-IsSound done _ (handle_rnto-IsSound apr st h p.temp_name)),
        EndsExit-of Sound _ (goes_on-IsSound p _ (handle_bad_rnto-IsSound apr st h)),
        EndsExit-of Sound _ (goes_on-IsSound done _ (handle_bad_rnto-IsSound apr st h)),
        dispatch_any fuel p (command_of apr st.sess) st h,
      )

  get_cmd-IsSound : (st : State) → IsSound st.sess → Ends Sound (lfd_cmdio_get_cmd_and_arg apr st)
  unfolding lfd_cmdio_get_cmd_and_arg
  get_cmd-IsSound st h = ground arith

  -- A pass of the loop keeps the invariant.
  pub protocol_pass-IsSound :
      (fuel : ℕ) (p : Pending) (st : State)
      → IsSound st.sess
      → EndsExit Sound (protocol_pass apr fuel p st)
  unfolding protocol_pass
  protocol_pass-IsSound fuel p st h =
      let cleared = record st { history = Call.clear_loop_pool ∷ st.history } in
      EndsExit-and_then Sound Sound (lfd_cmdio_get_cmd_and_arg apr cleared) _
        (EndsExit-of Sound _ (get_cmd-IsSound cleared h))
        (λ rc st' h'. ground (arith, handle_command-IsSound fuel p st' h'))

  after_pass-IsSound :
      (again : Pending → Run Status)
      → ((q : Pending) (s : State) → IsSound s.sess → EndsExit Sound (again q s))
      → (v : Verdict) (st : State) → IsSound st.sess
      → EndsExit Sound (after_pass apr again v st)
  after_pass-IsSound again keep (returns rc) st h = h
  after_pass-IsSound again keep (goes_on rc p) st h = ground (arith, keep p st h)

  pub ftp_protocol_loop-IsSound :
      (passes fuel : ℕ) (p : Pending) (st : State)
      → IsSound st.sess
      → EndsExit Sound (ftp_protocol_loop apr passes fuel p st)
  unfolding ftp_protocol_loop
  ftp_protocol_loop-IsSound zero fuel p st h = tt
  ftp_protocol_loop-IsSound (suc passes) fuel p st h =
      EndsExit-and_then Sound Sound (protocol_pass apr fuel p st) _
        (protocol_pass-IsSound fuel p st h)
        (λ v st' h'.
          after_pass-IsSound (ftp_protocol_loop apr passes fuel)
            (λ q s k. ftp_protocol_loop-IsSound passes fuel q s k) v st' h')

  pub sess_create-IsSound : (sock : Socket) → IsSound (sess_create sock)
  unfolding sess_create
  sess_create-IsSound sock = ground arith
