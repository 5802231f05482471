-- ===== src/DataChannel/Recursion.antt =====
-- port_active and pasv_active of connection.c, when both kinds of data connection are in force.
use lkl_lklftpd.Base.{ℕ, zero, suc, ◌≡◌, refl, true, is_some}
use lkl_lklftpd.System.{State, Halt, halted}
use lkl_lklftpd.DataChannel.{port_active, pasv_active}

module _ (st : State) where
  -- With both a listening socket and a PORT address in a session, port_active and pasv_active
  -- neither return nor report the state by `bug`: however much room the stack has, it is used up.
  pub actives_overflow :
      (room : ℕ)
      → is_some st.sess.p_port_sockaddr ≡ true
      → is_some st.sess.pasv_listen_fd ≡ true
      → (port_active room st ≡ halted Halt.stack_overflow st)
        × (pasv_active room st ≡ halted Halt.stack_overflow st)
  unfolding port_active pasv_active
  actives_overflow zero port pasv = (refl, refl)
  actives_overflow (suc room) port pasv =
      let (p, q) = actives_overflow room port pasv in (rw (port, q), rw (pasv, p))
