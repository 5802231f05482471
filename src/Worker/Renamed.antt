-- ===== src/Worker/Renamed.antt =====
-- Which path a rename is about: RNFR names it, RNTO renames it.
use lkl_lklftpd.Base.{
  ℕ, ◌≡◌, refl, Bool, true, false, ◌&&◌, Option, none, some, ◌∷◌, arith, Bytes, text, is_some,
  Bool-cases, if◌then◌else◌, sym, subst, inl, inr,
}
use lkl_lklftpd.System.{
  Apr, State, Sess, Status, is_success, Outcome, ret, halted, Run, Call, and_then, pure,
}
use lkl_lklftpd.Cmdio.{lfd_cmdio_write}
use lkl_lklftpd.Paths.{get_abs_path}
use lkl_lklftpd.Directory.{handle_rnfr, handle_rnto, handle_bad_rnto}
use lkl_lklftpd.Worker.{
  Pending, Verdict, goes_on, returns, Command, dispatch, handle_command, lfd_cmdio_cmd_equals,
  command_of,
}

-- The path that an argument means in a directory.
abbrev pub meant_path : Apr → Bytes → Option Bytes → Option Bytes
meant_path apr cwd none = none
meant_path apr cwd (some arg) = get_abs_path apr arg cwd

-- The path that the argument of a command means.
abbrev pub argument_path : Apr → Sess → Option Bytes
argument_path apr s = meant_path apr s.cwd_path s.ftp_arg_str

-- A path that has been found is the argument's.
abbrev pub Found : Apr → State → Outcome (Status × Option Bytes) → Type 0
Found apr st (ret (rc, temp) st') = is_some temp ≡ true → temp ≡ argument_path apr st.sess
Found apr st (halted why st') = Unit {0}

-- If a rename is pending, it is that of the argument's path.
abbrev pub NamesArgument : Apr → State → Outcome Verdict → Type 0
NamesArgument apr st (ret (goes_on rc p) st') =
    p.rnfrto ≡ true → p.temp_name ≡ argument_path apr st.sess
NamesArgument apr st (ret (returns rc) st') = Unit {0}
NamesArgument apr st (halted why st') = Unit {0}

module _ (apr : Apr) where
  handle_rnfr-Found : (st : State) → Found apr st (handle_rnfr apr st)
  unfolding handle_rnfr lfd_cmdio_write
  handle_rnfr-Found st = ground arith

  idle-NamesArgument :
      (p : Pending) (st : State) (o : Outcome Status)
      → p.rnfrto ≡ false
      → NamesArgument apr st (and_then o (λ rc. pure (goes_on rc p)))
  idle-NamesArgument p st (ret rc st') idle = λ e. absurd (ground arith)
  idle-NamesArgument p st (halted why st') idle = tt

  quit-NamesArgument :
      (st : State) (o : Outcome Status)
      → NamesArgument apr st (and_then o (λ rc. pure (returns rc)))
  quit-NamesArgument st (ret rc st') = tt
  quit-NamesArgument st (halted why st') = tt

  unknown-NamesArgument :
      (p : Pending) (st : State) (o : Outcome Status)
      → p.rnfrto ≡ false
      → NamesArgument apr st (and_then o (λ _. pure (goes_on Status.success p)))
  unknown-NamesArgument p st (ret rc st') idle = λ e. absurd (ground arith)
  unknown-NamesArgument p st (halted why st') idle = tt

  rnfr-NamesArgument :
      (p : Pending) (st : State) (o : Outcome (Status × Option Bytes))
      → p.rnfrto ≡ false
      → Found apr st o
      → NamesArgument apr st (
          and_then o (λ (rc, temp_name). pure (
            goes_on rc (record {
              rnfrto = if is_success rc && is_some temp_name then true else p.rnfrto;
              temp_name = temp_name;
            }))))
  rnfr-NamesArgument p st (ret (rc, temp) st') idle found = λ e. found (ground arith)
  rnfr-NamesArgument p st (halted why st') idle found = tt

  -- After a command that no rename was pending for, one is pending only for the path of its argument.
  pub dispatch-NamesArgument :
      (fuel : ℕ) (p : Pending) (c : Command) (st : State)
      → p.rnfrto ≡ false
      → NamesArgument apr st (dispatch apr fuel p c st)
  unfolding dispatch
  dispatch-NamesArgument fuel p Command.quit st idle = quit-NamesArgument st _
  dispatch-NamesArgument fuel p Command.rnfr st idle =
      rnfr-NamesArgument p st (handle_rnfr apr st) idle (handle_rnfr-Found st)
  dispatch-NamesArgument fuel p Command.unknown st idle = unknown-NamesArgument p st _ idle
  dispatch-NamesArgument fuel p _ st idle = idle-NamesArgument p st _ idle

  choose-NamesArgument :
      (b : Bool) (x y : Run Verdict) (st : State)
      → NamesArgument apr st (x st)
      → NamesArgument apr st (y st)
      → NamesArgument apr st ((if b then x else y) st)
  choose-NamesArgument true x y st h k = h
  choose-NamesArgument false x y st h k = k

  other-NamesArgument :
      (b : Bool) (x y : Run Verdict) (st : State)
      → b ≡ false
      → NamesArgument apr st (y st)
      → NamesArgument apr st ((if b then x else y) st)
  other-NamesArgument true x y st e k = absurd (ground arith)
  other-NamesArgument false x y st e k = k

  handle_command-NamesArgument :
      (fuel : ℕ) (p : Pending) (st : State)
      → p.rnfrto ≡ false
      → NamesArgument apr st (handle_command apr fuel p st)
  unfolding handle_command
  handle_command-NamesArgument fuel p st idle =
      choose-NamesArgument (lfd_cmdio_cmd_equals apr st.sess (text "RNTO")) _ _ st
        (other-NamesArgument p.rnfrto _ _ st idle
          (idle-NamesArgument p st (handle_bad_rnto apr st) idle))
        (other-NamesArgument p.rnfrto _ _ st idle
          (dispatch-NamesArgument fuel p (command_of apr st.sess) st idle))

-- The reply comes behind the call that renames `from` to what the argument means, the session is as it
-- was, and no rename is pending any more.
abbrev pub Renames : Apr → Option Bytes → State → Outcome Verdict → Type 0
Renames apr from st (ret (goes_on rc p) st') =
    (b : Bytes) × (st'.history
      ≡ Call.send st.sess.comm_sock b
        ∷ Call.file_rename from (argument_path apr st.sess)
        ∷ st.history)
    × (st'.sess ≡ st.sess)
    × (p.rnfrto ≡ false)
Renames apr from st (ret (returns rc) st') = ⊥
Renames apr from st (halted why st') = ⊥

module _ (apr : Apr) where
  handle_rnto-Renames :
      (p : Pending) (from : Option Bytes) (arg : Bytes) (st : State)
      → p.rnfrto ≡ false
      → st.sess.ftp_arg_str ≡ some arg
      → Renames apr from st (and_then (handle_rnto apr from st) (λ rc. pure (goes_on rc p)))
  unfolding handle_rnto lfd_cmdio_write
  handle_rnto-Renames p from arg st idle asked =
      elim (Bool-cases
        (is_success (apr.file_rename st.history from (get_abs_path apr arg st.sess.cwd_path)))) [
          | inl e ↦ simp (asked, e) (_, refl, refl, idle)
          | inr e ↦ simp (asked, e) (_, refl, refl, idle)
        ]

  waiting-Renames :
      (fuel : ℕ) (from : Option Bytes) (arg : Bytes) (st : State)
      → lfd_cmdio_cmd_equals apr st.sess (text "RNTO") ≡ true
      → st.sess.ftp_arg_str ≡ some arg
      → Renames apr from st
          (handle_command apr fuel (record { rnfrto = true; temp_name = from }) st)
  unfolding handle_command
  waiting-Renames fuel from arg st is_rnto asked =
      rw is_rnto
        (handle_rnto-Renames (record { rnfrto = false; temp_name = from }) from arg st refl asked)

  -- If no rename is pending, a command has been carried out and now one is pending, then RNTO as
  -- the next command, with an argument, renames the path of the first command's argument to that of
  -- its own argument: this is its one call before the reply, the session stays as it was, and no
  -- rename is pending any more.
  pub rnfr-Renames :
      (fuel : ℕ) (p p' : Pending) (rc : Status) (st st' next : State) (arg : Bytes)
      → p.rnfrto ≡ false
      → handle_command apr fuel p st ≡ ret (goes_on rc p') st'
      → p'.rnfrto ≡ true
      → lfd_cmdio_cmd_equals apr next.sess (text "RNTO") ≡ true
      → next.sess.ftp_arg_str ≡ some arg
      → Renames apr (argument_path apr st.sess) next (handle_command apr fuel p' next)
  rnfr-Renames fuel p p' rc st st' next arg idle first waits is_rnto asked =
      let named : p'.temp_name ≡ argument_path apr st.sess =
        subst (NamesArgument apr st) first (handle_command-NamesArgument apr fuel p st idle)
          waits in
      let second = waiting-Renames fuel p'.temp_name arg next is_rnto asked in
      let same : Renames apr p'.temp_name next (handle_command apr fuel p' next) =
        subst
          (λ b.
            Renames apr p'.temp_name next
              (handle_command apr fuel (record { rnfrto = b; temp_name = p'.temp_name }) next))
          (sym waits) second in
      subst (λ from. Renames apr from next (handle_command apr fuel p' next)) named same
