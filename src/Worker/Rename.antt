-- ===== src/Worker/Rename.antt =====
-- The protocol state of worker.c: RNTO has to follow an RNFR that has found its file.
use lkl_lklftpd.Base.{
  ℕ, ◌≡◌, refl, Bool, true, false, Option, some, arith, Bytes, text, ◌∷◌, is_some, if◌then◌else◌,
  ◌&&◌, not,
}
use lkl_lklftpd.System.{
  Apr, State, Status, is_success, Outcome, ret, halted, Run, Call, and_then, pure,
}
use lkl_lklftpd.Cmdio.{lfd_cmdio_get_cmd_and_arg}
use lkl_lklftpd.Directory.{handle_rnfr, handle_rnto, handle_bad_rnto}
use lkl_lklftpd.Worker.{
  Pending, Verdict, goes_on, returns, Command, dispatch, handle_command, protocol_pass,
  lfd_cmdio_cmd_equals, command_of,
}

-- Behind an RNFR that has found `path`.
abbrev pub waiting : Bytes → Pending
waiting path = record { rnfrto = true; temp_name = some path }

-- A pending rename has a path.
abbrev pub HasPath : Pending → Type 0
HasPath p = p.rnfrto ≡ true → is_some p.temp_name ≡ true

abbrev pub VerdictOk : Verdict → Type 0
VerdictOk (goes_on rc p) = HasPath p
VerdictOk (returns rc) = Unit {0}

abbrev pub EndsOk : Outcome Verdict → Type 0
EndsOk (ret v st) = VerdictOk v
EndsOk (halted why st) = Unit {0}

module _ (apr : Apr) where
  then_go_on-EndsOk :
      (p : Pending) (o : Outcome Status)
      → HasPath p
      → EndsOk (and_then o (λ rc. pure (goes_on rc p)))
  then_go_on-EndsOk p (ret rc st) h = h
  then_go_on-EndsOk p (halted why st) h = tt

  quit-EndsOk : (o : Outcome Status) → EndsOk (and_then o (λ rc. pure (returns rc)))
  quit-EndsOk (ret rc st) = tt
  quit-EndsOk (halted why st) = tt

  unknown-EndsOk :
      (p : Pending) (o : Outcome Status)
      → HasPath p
      → EndsOk (and_then o (λ _. pure (goes_on Status.success p)))
  unknown-EndsOk p (ret rc st) h = h
  unknown-EndsOk p (halted why st) h = tt

  dispatch-EndsOk :
      (fuel : ℕ) (p : Pending) (c : Command) (st : State)
      → p.rnfrto ≡ false
      → HasPath p
      → EndsOk (dispatch apr fuel p c st)
  unfolding dispatch
  dispatch-EndsOk fuel p Command.quit st idle h = quit-EndsOk _
  dispatch-EndsOk fuel p Command.rnfr st idle h = rnfr (handle_rnfr apr st)
    where
      rnfr :
          (o : Outcome (Status × Option Bytes))
          → EndsOk (
              and_then o (λ (rc, temp_name). pure (
                goes_on rc (record {
                  rnfrto = if is_success rc && is_some temp_name then true else p.rnfrto;
                  temp_name = temp_name;
                }))))
      rnfr (ret (rc, temp_name) st') = ground arith
      rnfr (halted why st') = tt
  dispatch-EndsOk fuel p Command.unknown st idle h = unknown-EndsOk p _ h
  dispatch-EndsOk fuel p _ st idle h = then_go_on-EndsOk p _ h

  choose-EndsOk :
      (b : Bool) (x y : Run Verdict) (st : State)
      → (b ≡ true → EndsOk (x st))
      → (b ≡ false → EndsOk (y st))
      → EndsOk ((if b then x else y) st)
  choose-EndsOk true x y st h k = h refl
  choose-EndsOk false x y st h k = k refl

  -- A command that goes on leaves a pending rename only with the path to rename.
  pub handle_command-HasPath :
      (fuel : ℕ) (p : Pending) (st : State) → HasPath p → EndsOk (handle_command apr fuel p st)
  unfolding handle_command
  handle_command-HasPath fuel p st h =
      let done = record p { rnfrto = false } in
      choose-EndsOk (lfd_cmdio_cmd_equals apr st.sess (text "RNTO")) _ _ st
        (λ _.
          choose-EndsOk p.rnfrto _ _ st
            (λ _.
              then_go_on-EndsOk done (handle_rnto apr p.temp_name st) (λ e. absurd (ground arith)))
            (λ _. then_go_on-EndsOk p (handle_bad_rnto apr st) h))
        (λ _.
          choose-EndsOk p.rnfrto _ _ st
            (λ _. then_go_on-EndsOk done (handle_bad_rnto apr st) (λ e. absurd (ground arith)))
            (λ idle. dispatch-EndsOk fuel p (command_of apr st.sess) st idle h))

  pub protocol_pass-HasPath :
      (fuel : ℕ) (p : Pending) (st : State) → HasPath p → EndsOk (protocol_pass apr fuel p st)
  unfolding protocol_pass
  protocol_pass-HasPath fuel p st h =
      from_read
        (lfd_cmdio_get_cmd_and_arg apr (record st { history = Call.clear_loop_pool ∷ st.history }))
    where
      from_read :
          (o : Outcome Status)
          → EndsOk (
              and_then o (λ rc.
                if not (is_success rc) then pure (returns rc) else handle_command apr fuel p))
      from_read (halted why st') = tt
      from_read (ret rc st') =
          choose-EndsOk (not (is_success rc)) (pure (returns rc)) (handle_command apr fuel p) st'
            (λ _. tt) (λ _. handle_command-HasPath fuel p st' h)
