-- ===== src/Worker/Refused.antt =====
-- Which commands leave no rename pending, and what RNTO then comes to.
use lkl_lklftpd.Base.{
  ℕ, ◌≡◌, ◌≢◌, refl, ◌⊎◌, inl, inr, Bool, true, false, [], ◌∷◌, arith, text, subst, if◌then◌else◌,
}
use lkl_lklftpd.System.{Apr, State, Status, Outcome, ret, halted, Run, Call, and_then, pure}
use lkl_lklftpd.Cmdio.{lfd_cmdio_write, reply}
use lkl_lklftpd.Directory.{handle_rnto, handle_bad_rnto}
use lkl_lklftpd.Ftpcodes.{ftp_badprot}
use lkl_lklftpd.Worker.{
  Pending, Verdict, goes_on, returns, Command, dispatch, handle_command, lfd_cmdio_cmd_equals,
  command_of,
}

-- No rename is pending, where the loop goes on.
abbrev pub Settled : Outcome Verdict → Type 0
Settled (ret (goes_on rc p) st) = p.rnfrto ≡ false
Settled (ret (returns rc) st) = Unit {0}
Settled (halted why st) = Unit {0}

-- One reply 503 is all that has been done, and the loop goes on with no rename pending.
abbrev pub Refused : Apr → State → Outcome Verdict → Type 0
Refused apr st (ret (goes_on rc p) st') =
    (st'.sess ≡ st.sess)
    × (st'.history
        ≡ Call.send st.sess.comm_sock (reply apr ftp_badprot (text "Bad sequence of commands.") [])
          ∷ st.history)
    × (p.rnfrto ≡ false)
Refused apr st (ret (returns rc) st') = ⊥
Refused apr st (halted why st') = ⊥

goes_on-Settled :
    (p : Pending) (o : Outcome Status)
    → p.rnfrto ≡ false
    → Settled (and_then o (λ rc. pure (goes_on rc p)))
goes_on-Settled p (ret rc st) idle = idle
goes_on-Settled p (halted why st) idle = tt

quit-Settled : (o : Outcome Status) → Settled (and_then o (λ rc. pure (returns rc)))
quit-Settled (ret rc st) = tt
quit-Settled (halted why st) = tt

unknown-Settled :
    (p : Pending) (o : Outcome Status)
    → p.rnfrto ≡ false
    → Settled (and_then o (λ _. pure (goes_on Status.success p)))
unknown-Settled p (ret rc st) idle = idle
unknown-Settled p (halted why st) idle = tt

module _ (apr : Apr) (fuel : ℕ) where
  dispatch-Settled :
      (p : Pending) (c : Command) (st : State)
      → p.rnfrto ≡ false
      → c ≢ Command.rnfr
      → Settled (dispatch apr fuel p c st)
  unfolding dispatch
  dispatch-Settled p Command.quit st idle other = quit-Settled _
  dispatch-Settled p Command.rnfr st idle other = absurd (other refl)
  dispatch-Settled p Command.unknown st idle other = unknown-Settled p _ idle
  dispatch-Settled p _ st idle other = goes_on-Settled p _ idle

  -- The branches of handle_command, by the test on RNTO and by whether a rename is pending.
  branch-Settled :
      (is_rnto waits : Bool) (st : State) (renamed refused dropped dispatched : Run Verdict)
      → Settled (renamed st)
      → (waits ≡ false → Settled (refused st))
      → Settled (dropped st)
      → (waits ≡ false → Settled (dispatched st))
      → Settled (
          (if is_rnto
              then (if waits then renamed else refused)
              else if waits
              then dropped
              else dispatched)
            st)
  branch-Settled true true st renamed refused dropped dispatched a b c d = a
  branch-Settled true false st renamed refused dropped dispatched a b c d = b refl
  branch-Settled false true st renamed refused dropped dispatched a b c d = c
  branch-Settled false false st renamed refused dropped dispatched a b c d = d refl

  not_rnfr :
      (p : Pending) (c : Command)
      → (p.rnfrto ≡ true) ⊎ (c ≢ Command.rnfr)
      → p.rnfrto ≡ false
      → c ≢ Command.rnfr
  not_rnfr p c (inl waits) idle = absurd (ground arith)
  not_rnfr p c (inr other) idle = other

  handle_command-Settled :
      (p : Pending) (st : State)
      → (p.rnfrto ≡ true) ⊎ (command_of apr st.sess ≢ Command.rnfr)
      → Settled (handle_command apr fuel p st)
  unfolding handle_command
  handle_command-Settled p st h =
      let done = record p { rnfrto = false } in
      branch-Settled (lfd_cmdio_cmd_equals apr st.sess (text "RNTO")) p.rnfrto st _ _ _ _
        (goes_on-Settled done (handle_rnto apr p.temp_name st) refl)
        (λ idle. goes_on-Settled p (handle_bad_rnto apr st) idle)
        (goes_on-Settled done (handle_bad_rnto apr st) refl)
        (λ idle.
          dispatch-Settled p (command_of apr st.sess) st idle
            (not_rnfr p (command_of apr st.sess) h idle))

  idle-Refused :
      (p : Pending) (st : State)
      → p.rnfrto ≡ false
      → lfd_cmdio_cmd_equals apr st.sess (text "RNTO") ≡ true
      → Refused apr st (handle_command apr fuel p st)
  unfolding handle_command handle_bad_rnto lfd_cmdio_write
  idle-Refused p st idle is_rnto = rw (is_rnto, idle) (refl, refl, refl)

  -- Where a rename is pending before a command, or the command is no RNFR, and the loop goes on
  -- behind it, RNTO as the next command is refused: one reply 503 is all that is done, the session
  -- stays as it was, and no rename is pending. So it is behind an RNFR that finds a rename pending.
  pub rnto-Refused :
      (p p' : Pending) (rc : Status) (st st' next : State)
      → (p.rnfrto ≡ true) ⊎ (command_of apr st.sess ≢ Command.rnfr)
      → handle_command apr fuel p st ≡ ret (goes_on rc p') st'
      → lfd_cmdio_cmd_equals apr next.sess (text "RNTO") ≡ true
      → Refused apr next (handle_command apr fuel p' next)
  rnto-Refused p p' rc st st' next no_rnfr first is_rnto =
      idle-Refused p' next (subst Settled first (handle_command-Settled p st no_rnfr)) is_rnto
