-- ===== src/Worker.antt =====
-- worker.c: the protocol loop of one client, and the thread's main function. Log output is left out.
pub mod Rename
pub mod Refused
pub mod Renamed
use lkl_lklftpd.Base.{
  ℕ, zero, suc, Bool, true, false, not, ◌&&◌, Option, none, some, List, [], ◌∷◌, ◌==◌,
  if◌then◌else◌, is_some, is_nil, Bytes, text,
}
use lkl_lklftpd.System.{
  Status, is_success, Apr, Sess, State, Run, Outcome, Halt, ◌>>=◌, ◌>>◌, pure, halt, get_sess, ⊤,
  pool_clear, socket_close, sess_create, Socket,
}
use lkl_lklftpd.Cmdio.{lfd_cmdio_write, lfd_cmdio_get_cmd_and_arg}
use lkl_lklftpd.DataChannel.{handle_pasv, handle_port}
use lkl_lklftpd.Directory.{
  answer, handle_dir_remove, handle_dir_create, handle_pwd, handle_cwd, handle_cdup, handle_rnfr,
  handle_bad_rnto, handle_rnto, handle_dele,
}
use lkl_lklftpd.Control.{
  is_zero, handle_user, handle_pass, handle_syst, handle_type, handle_quit, handle_abort,
  handle_site, handle_feat,
}
use lkl_lklftpd.FileCommands.{handle_retr, handle_stor, handle_appe, handle_stou}
use lkl_lklftpd.Listing.{handle_list}
use lkl_lklftpd.Ftpcodes.{ftp_allook, ftp_commandnotimpl, ftp_greet}

-- The locals of the loop: whether RNTO has to come next, and the path that RNFR named.
pub record Pending : Type 0 where
  pub rnfrto : Bool
  pub temp_name : Option Bytes

abbrev pub no_pending : Pending
no_pending = record { rnfrto = false; temp_name = none }

-- What a pass of the loop ends with: `continue` with a status, or `return`.
pub data Verdict : Type 0 where
  goes_on : Status → Pending → Verdict
  returns : Status → Verdict

-- The commands that the loop tells apart, in the order of its tests.
pub data Command : Type 0 where
  pasv syst user pass quit abor port rmd mkd pwd cwd cdup rnfr type retr stor dele stou list :
      Command
  feat appe site allo rein acct smnt unknown : Command

module _ (apr : Apr) where
  -- The loop has returned before where no command has been read.
  unfoldable pub lfd_cmdio_cmd_equals : Sess → Bytes → Bool
  lfd_cmdio_cmd_equals s cmd = elim s.ftp_cmd_str [
    | none ↦ false
    | some word ↦ is_zero (apr.strnatcasecmp word cmd)
  ]

  -- The first word of a list that the command equals.
  abbrev pub first_match : Sess → List (Bytes × Command) → Command
  first_match s [] = Command.unknown
  first_match s ((word, c) ∷ rest) = if lfd_cmdio_cmd_equals s word then c else first_match s rest

  abbrev pub command_words : List (Bytes × Command)
  command_words =
      (text "PASV", Command.pasv)
      ∷ (text "SYST", Command.syst)
      ∷ (text "USER", Command.user)
      ∷ (text "PASS", Command.pass)
      ∷ (text "QUIT", Command.quit)
      ∷ (text "ABOR", Command.abor)
      ∷ (text "PORT", Command.port)
      ∷ (text "RMD", Command.rmd)
      ∷ (text "MKD", Command.mkd)
      ∷ (text "PWD", Command.pwd)
      ∷ (text "CWD", Command.cwd)
      ∷ (text "CDUP", Command.cdup)
      ∷ (text "RNFR", Command.rnfr)
      ∷ (text "TYPE", Command.type)
      ∷ (text "RETR", Command.retr)
      ∷ (text "STOR", Command.stor)
      ∷ (text "DELE", Command.dele)
      ∷ (text "STOU", Command.stou)
      ∷ (text "LIST", Command.list)
      ∷ (text "FEAT", Command.feat)
      ∷ (text "APPE", Command.appe)
      ∷ (text "SITE", Command.site)
      ∷ (text "ALLO", Command.allo)
      ∷ (text "REIN", Command.rein)
      ∷ (text "ACCT", Command.acct)
      ∷ (text "SMNT", Command.smnt)
      ∷ []

  unfoldable pub command_of : Sess → Command
  unfolding lfd_cmdio_cmd_equals
  command_of s = first_match s command_words

  -- rc = handle_…(sess);
  abbrev pub then_go_on : Pending → Run Status → Run Verdict
  then_go_on p handler = do rc ← handler; pure (goes_on rc p)

  -- The branches of the loop behind the tests on RNTO.
  unfoldable pub dispatch : ℕ → Pending → Command → Run Verdict
  dispatch fuel p Command.pasv = then_go_on p (handle_pasv apr)
  dispatch fuel p Command.syst = then_go_on p (handle_syst apr)
  dispatch fuel p Command.user = then_go_on p (handle_user apr)
  dispatch fuel p Command.pass = then_go_on p (handle_pass apr)
  dispatch fuel p Command.quit = do rc ← handle_quit apr; pure (returns rc)
  dispatch fuel p Command.abor = then_go_on p (handle_abort apr)
  dispatch fuel p Command.port = then_go_on p (handle_port apr)
  dispatch fuel p Command.rmd = then_go_on p (handle_dir_remove apr)
  dispatch fuel p Command.mkd = then_go_on p (handle_dir_create apr)
  dispatch fuel p Command.pwd = then_go_on p (handle_pwd apr)
  dispatch fuel p Command.cwd = then_go_on p (handle_cwd apr)
  dispatch fuel p Command.cdup = then_go_on p (handle_cdup apr)
  dispatch fuel p Command.rnfr = do
    (rc, temp_name) ← handle_rnfr apr
    pure (
        goes_on rc (record {
          rnfrto = if is_success rc && is_some temp_name then true else p.rnfrto;
          temp_name = temp_name;
        }))
  dispatch fuel p Command.type = then_go_on p (handle_type apr)
  dispatch fuel p Command.retr = then_go_on p (handle_retr apr fuel)
  dispatch fuel p Command.stor = then_go_on p (handle_stor apr fuel)
  dispatch fuel p Command.dele = then_go_on p (handle_dele apr)
  dispatch fuel p Command.stou = then_go_on p (handle_stou apr fuel)
  dispatch fuel p Command.list = then_go_on p (handle_list apr fuel)
  dispatch fuel p Command.feat = then_go_on p (handle_feat apr)
  dispatch fuel p Command.appe = then_go_on p (handle_appe apr fuel)
  dispatch fuel p Command.site = then_go_on p (handle_site apr)
  dispatch fuel p Command.allo = then_go_on p (answer apr ftp_allook (text "ALLO command ignored."))
  dispatch fuel p Command.rein =
      then_go_on p (answer apr ftp_commandnotimpl (text "REIN not implemented."))
  dispatch fuel p Command.acct =
      then_go_on p (answer apr ftp_commandnotimpl (text "ACCT not implemented."))
  dispatch fuel p Command.smnt =
      then_go_on p (answer apr ftp_commandnotimpl (text "SMNT not implemented."))
  dispatch fuel p Command.unknown = do
    answer apr ftp_commandnotimpl (text "Command not implemented.")
    pure (goes_on Status.success p)

  -- The body behind the reading of a command.
  unfoldable pub handle_command : ℕ → Pending → Run Verdict
  handle_command fuel p = do
    s ← get_sess
    if lfd_cmdio_cmd_equals s (text "RNTO")
        then (if p.rnfrto
            then then_go_on (record p { rnfrto = false }) (handle_rnto apr p.temp_name)
            else then_go_on p (handle_bad_rnto apr))
        else if p.rnfrto
        then then_go_on (record p { rnfrto = false }) (handle_bad_rnto apr)
        else dispatch fuel p (command_of s)

  -- One pass of the loop.
  unfoldable pub protocol_pass : ℕ → Pending → Run Verdict
  protocol_pass fuel p = do
    pool_clear apr
    rc ← lfd_cmdio_get_cmd_and_arg apr
    if not (is_success rc) then pure (returns rc) else handle_command fuel p

  -- The loop's test behind a pass; `again` is the loop.
  abbrev pub after_pass : (Pending → Run Status) → Verdict → Run Status
  after_pass again (returns rc) = pure rc
  after_pass again (goes_on rc p) = if is_success rc then again p else pure rc

  -- while (APR_SUCCESS == rc), by the passes left; `fuel` is for the loops of the transfers.
  unfoldable pub ftp_protocol_loop : ℕ → ℕ → Pending → Run Status
  ftp_protocol_loop zero fuel p = halt Halt.out_of_fuel
  ftp_protocol_loop (suc passes) fuel p = do
    verdict ← protocol_pass fuel p
    after_pass (λ q. ftp_protocol_loop passes fuel q) verdict

  unfoldable pub emit_greeting : Run Status
  emit_greeting =
      if is_nil apr.config.banner_string
      then pure Status.success
      else answer apr ftp_greet apr.config.banner_string

  -- lfd_sess_destroy, apart from the pool.
  unfoldable pub sess_destroy : Run ⊤
  sess_destroy = do s ← get_sess; socket_close apr s.comm_sock

  -- From the created session on.
  unfoldable pub lfd_worker_protocol_main_impl : ℕ → ℕ → Run ⊤
  lfd_worker_protocol_main_impl passes fuel = do
    rc ← emit_greeting
    if is_success rc then (do ftp_protocol_loop passes fuel no_pending; pure tt) else pure tt
    sess_destroy

-- The state in which a client's thread starts.
abbrev pub initial : Socket → State
initial sock = record { sess = sess_create sock; history = [] }
