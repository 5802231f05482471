-- ===== src/DataChannel.antt =====
-- connection.c, second half: the PASV and PORT commands, which of the two is active, and the socket
-- for a transfer.
pub mod Recursion
use lkl_lklftpd.Base.{
  ℕ, zero, suc, ◌+◌, ◌*◌, ◌/◌, ◌%◌, Bool, true, false, not, ◌&&◌, ◌||◌, Option, none, some, List,
  [], ◌∷◌, ◌==◌, if◌then◌else◌, is_some, Bytes, text,
}
use lkl_lklftpd.System.{
  Status, is_success, Apr, Arg, Sess, DataSess, Socket, SocketOption, State, Run, Halt, ◌>>=◌, ◌>>◌,
  pure, halt, get_sess, modify, modify_data, ⊤, ret, Outcome, socket_close, socket_create,
  socket_bind, socket_listen, socket_accept, socket_connect, socket_opt_set, sockaddr_info_get,
  sockaddr_ip_get,
}
use lkl_lklftpd.Cmdio.{lfd_cmdio_write}
use lkl_lklftpd.Connection.{
  bug, Bound, Vals, set_val, lfd_communication_cleanup, bind_to_random_passive_port, parse_items,
}
use lkl_lklftpd.Ftpcodes.{ftp_badcmd, ftp_portok, ftp_pasvok, ftp_badsendconn, ftp_dataconn}

-- port_active and pasv_active call one another; the number is the room left on the stack.
unfoldable mutual
  pub port_active : ℕ → Run Bool
  port_active zero = halt Halt.stack_overflow
  port_active (suc room) = do
    s ← get_sess
    if is_some s.p_port_sockaddr
        then (do other ← pasv_active room; if other then bug else pure tt; pure true)
        else pure false

  pub pasv_active : ℕ → Run Bool
  pasv_active zero = halt Halt.stack_overflow
  pasv_active (suc room) = do
    s ← get_sess
    if is_some s.pasv_listen_fd
        then (do other ← port_active room; if other then bug else pure tt; pure true)
        else pure false

-- The array that a function declares, before it is written.
abbrev read_history : (Apr) → Run Vals
read_history apr s = ret (apr.indeterminate s.history) s

module _ (apr : Apr) where
  abbrev pub stack : ℕ
  stack = suc (suc apr.stack_room)

  unfoldable pub handle_pasv : Run Status
  handle_pasv = do
    vals ← read_history apr
    lfd_communication_cleanup apr
    (rc, found) ← bind_to_random_passive_port apr
    elim found [
      | none ↦ pure rc
      | some (fd, saddr, port) ↦ do
        rc ← socket_listen apr fd 1
        if not (is_success rc) then pure rc else (do
          (rc, addr) ← sockaddr_ip_get apr saddr
          if not (is_success rc) then pure rc else (do
            let parsed = (parse_items apr (b'.' ∷ []) 4 0 addr vals).1
            let all = set_val (set_val parsed 4 (port / 256 % 256)) 5 (port % 256)
            lfd_cmdio_write apr ftp_pasvok (text "Entering Passive Mode (%d,%d,%d,%d,%d,%d)") (
                Arg.num (all 0)
                ∷ Arg.num (all 1)
                ∷ Arg.num (all 2)
                ∷ Arg.num (all 3)
                ∷ Arg.num (all 4)
                ∷ Arg.num (all 5)
                ∷ [])))
    ]

  unfoldable pub handle_port : Run Status
  handle_port = do
    vals ← read_history apr
    lfd_communication_cleanup apr
    s ← get_sess
    elim s.ftp_arg_str [
      | none ↦ halt Halt.null_deref
      | some arg ↦ do
        let (parsed, v) = parse_items apr (b',' ∷ []) 6 0 arg vals
        if not parsed
            then (do
              lfd_cmdio_write apr ftp_badcmd (text "Illegal PORT command.") []
              pure Status.einval)
            else (do
              let ip =
                  apr.vsprintf (text "%d.%d.%d.%d")
                    (Arg.num (v 0) ∷ Arg.num (v 1) ∷ Arg.num (v 2) ∷ Arg.num (v 3) ∷ [])
              (rc, saddr) ← sockaddr_info_get apr (some ip) (v 4 * 256 + v 5)
              modify (λ t. record t { p_port_sockaddr = saddr })
              if not (is_success rc)
                  then (do
                    lfd_cmdio_write apr ftp_badcmd (text "Illegal PORT command.") []
                    pure rc)
                  else (do
                    lfd_cmdio_write apr ftp_portok
                        (text "PORT command successful. Consider using PASV.") []
                    pure Status.success))
    ]

  -- pasv_active(sess) || port_active(sess)
  unfoldable pub either_active : Run Bool
  either_active = do pasv ← pasv_active stack; if pasv then pure true else port_active stack

  unfoldable pub data_transfer_checks_ok : Run Bool
  data_transfer_checks_ok = do
    active ← either_active
    if active then pure true else (do
      lfd_cmdio_write apr ftp_badsendconn (text "Use PORT or PASV first.") []
      pure false)

  unfoldable pub init_data_sock_params : Socket → Run ⊤
  init_data_sock_params sock_fd = do
    s ← get_sess
    if is_some s.data_conn.data_sock then bug else pure tt
    modify_data (λ d. record d { data_sock = some sock_fd; in_progress = false })
    socket_opt_set apr (some sock_fd) SocketOption.keepalive 1
    socket_opt_set apr (some sock_fd) SocketOption.linger 1
    pure tt

  unfoldable pub get_bound_and_connected_ftp_port_sock : Run (Status × Option Socket)
  get_bound_and_connected_ftp_port_sock = do
    (rc, found) ← sockaddr_info_get apr none apr.config.data_port
    if not (is_success rc) then pure (rc, none) else (do
      (rc, sock) ← socket_create apr none
      if not (is_success rc) then pure (rc, none) else (do
        rc ← socket_opt_set apr (some sock) SocketOption.reuseaddr 1
        if not (is_success rc) then pure (rc, none) else (elim found [
          | none ↦ halt Halt.null_deref
          | some saddr ↦ (do
            rc ← socket_bind apr sock saddr
            if not (is_success rc) then pure (rc, none) else (do
              s ← get_sess
              rc ← socket_connect apr sock s.p_port_sockaddr
              pure (if is_success rc then (Status.success, some sock) else (rc, none))))
        ])))

  unfoldable pub lfd_ftpdataio_get_pasv_fd : Run (Option Socket)
  unfolding init_data_sock_params
  lfd_ftpdataio_get_pasv_fd = do
    s ← get_sess
    elim s.pasv_listen_fd [
      | none ↦ halt Halt.null_deref
      | some listen_fd ↦ do
        (rc, sock) ← socket_accept apr listen_fd
        if not (is_success rc)
            then (do
              lfd_cmdio_write apr ftp_badsendconn (text "Failed to accept connection.") []
              pure sock)
            else elim sock [
              | none ↦ halt Halt.null_deref
              | some fd ↦ do init_data_sock_params fd; pure (some fd)
            ]
    ]

  unfoldable pub ftpdataio_get_port_fd : Run (Option Socket)
  unfolding init_data_sock_params get_bound_and_connected_ftp_port_sock
  ftpdataio_get_port_fd = do
    (rc, sock) ← get_bound_and_connected_ftp_port_sock
    elim sock [
      | none ↦ do
        lfd_cmdio_write apr ftp_badsendconn (text "Failed to establish connection.") []
        pure none
      | some fd ↦ do init_data_sock_params fd; pure (some fd)
    ]

  unfoldable pub lfd_get_remote_transfer_fd : Bytes → Run (Option Socket)
  lfd_get_remote_transfer_fd p_status_msg = do
    active ← either_active
    if active then pure tt else bug
    modify_data (λ d. record d { abor_received = false })
    pasv ← pasv_active stack
    remote_fd ← (if pasv then lfd_ftpdataio_get_pasv_fd else ftpdataio_get_port_fd)
    elim remote_fd [
      | none ↦ pure none
      | some fd ↦ do lfd_cmdio_write apr ftp_dataconn p_status_msg []; pure (some fd)
    ]

  -- apr_socket_close follows the pointer.
  unfoldable pub lfd_dispose_transfer_fd : Run ⊤
  lfd_dispose_transfer_fd = do
    s ← get_sess
    socket_opt_set apr s.data_conn.data_sock SocketOption.linger 0
    elim s.data_conn.data_sock [
      | none ↦ halt Halt.null_deref
      | some fd ↦ do socket_close apr fd; modify_data (λ d. record d { data_sock = none })
    ]
