-- ===== src/Sound/Reached.antt =====
-- The states between the commands of a client's session, and the end of its thread.
use lkl_lklftpd.Base.{ℕ, ◌≡◌, arith, subst}
use lkl_lklftpd.System.{Apr, CopiesStrings, State, Status, ret, Socket}
use lkl_lklftpd.Worker.{
  Pending, no_pending, goes_on, protocol_pass, emit_greeting, sess_destroy,
  lfd_worker_protocol_main_impl, initial,
}
use lkl_lklftpd.Worker.Rename.{HasPath, protocol_pass-HasPath, EndsOk}
use lkl_lklftpd.Sound.Defs.{IsSound, Ends, Sound, EndsExit, EndsExit-of, EndsExit-and_then}
use lkl_lklftpd.Sound.Loop.{protocol_pass-IsSound, ftp_protocol_loop-IsSound, sess_create-IsSound}
use lkl_lklftpd.Cmdio.{lfd_cmdio_write}

-- The loop is about to read a command, with the locals `p` and in the state `st`.
pub data Reached (apr : Apr) (fuel : ℕ) : Pending → State → Type 0 where
  greeted :
      (sock : Socket) (st : State)
      → emit_greeting apr (initial sock) ≡ ret Status.success st
      → Reached apr fuel no_pending st
  passed :
      (p p' : Pending) (st st' : State)
      → Reached apr fuel p st
      → protocol_pass apr fuel p st ≡ ret (goes_on Status.success p') st'
      → Reached apr fuel p' st'

module _ (apr : Apr) (copies : CopiesStrings apr) where
  emit_greeting-IsSound : (sock : Socket) → Ends Sound (emit_greeting apr (initial sock))
  unfolding emit_greeting lfd_cmdio_write
  emit_greeting-IsSound sock = ground (arith, sess_create-IsSound apr copies sock)

  -- Whenever the loop is about to read a command, whatever the client has sent and the runtime has
  -- answered, the session satisfies the invariant, and a pending rename has a path. The runtime's
  -- copies of strings are assumed to be copies.
  pub Reached-IsSound :
      (fuel : ℕ) {p : Pending} {st : State} → Reached apr fuel p st → IsSound st.sess × HasPath p
  Reached-IsSound fuel (greeted sock st e) =
      (subst (Ends Sound) e (emit_greeting-IsSound sock), λ e'. ground arith)
  Reached-IsSound fuel (passed p p' st st' before e) =
      let (h, k) = Reached-IsSound fuel before in
      (
        subst (EndsExit Sound) e (protocol_pass-IsSound apr copies fuel p st h),
        subst EndsOk e (protocol_pass-HasPath apr fuel p st k),
      )

  -- lfd_worker_protocol_main_impl, from the created session on, by whatever number of passes: where
  -- it returns, the invariant holds of the session; it never uses up the stack by port_active and
  -- pasv_active, and calls apr_thread_exit nowhere (lfd_worker_protocol_main does, behind it). It
  -- may end the process by `bug`, follow NULL, leave the buffer of the command line, divide by 0,
  -- or use up its fuel. The runtime's copies of strings are assumed to be copies.
  pub lfd_worker_protocol_main_impl-IsSound :
      (passes fuel : ℕ) (sock : Socket)
      → EndsExit Sound (lfd_worker_protocol_main_impl apr passes fuel (initial sock))
  unfolding lfd_worker_protocol_main_impl sess_destroy
  lfd_worker_protocol_main_impl-IsSound passes fuel sock =
      EndsExit-and_then Sound Sound (emit_greeting apr (initial sock)) _
        (EndsExit-of Sound _ (emit_greeting-IsSound sock))
        (λ rc st h.
          ground (arith, ftp_protocol_loop-IsSound apr copies passes fuel no_pending st h))
