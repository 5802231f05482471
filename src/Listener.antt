-- ===== src/Listener.antt =====
-- listen.c: the listening socket of the daemon. It is made before there is a session, so that a run is
-- a function of the calls made so far only. Log output is left out.
pub mod Opens
pub mod Accept
use lkl_lklftpd.Base.{ℕ, Bool, true, false, not, Option, none, some, List, [], ◌∷◌, if◌then◌else◌}
use lkl_lklftpd.System.{Status, is_success, Call, History, Socket, SockAddr, SocketOption, Apr}

module _ (apr : Apr) where
  -- The loop's body behind apr_socket_create, with its answer.
  unfoldable pub bind_and_listen : SockAddr → Status × Socket → History → Option Socket × History
  bind_and_listen saddr (rc, sock) h =
      if not (is_success rc)
      then (none, h)
      else (let reusable = Call.opt_set (some sock) SocketOption.reuseaddr 1 ∷ h in
          let bound = Call.bind sock saddr ∷ reusable in
          if not (is_success (apr.bind reusable sock saddr))
          then (none, Call.close_socket sock ∷ bound)
          else (let listening = Call.listen sock apr.config.backlog ∷ bound in
              if not (is_success (apr.listen bound sock apr.config.backlog))
              then (none, Call.close_socket sock ∷ listening)
              else (some sock, listening)))

  unfoldable pub try_addr : SockAddr → History → Option Socket × History
  try_addr saddr h =
      bind_and_listen saddr (apr.create_socket h (some saddr)) (Call.create_socket (some saddr) ∷ h)

  -- The test behind the body, with the loop over the other addresses.
  abbrev pub or_else :
      (History → Option Socket × History) → Option Socket × History → Option Socket × History
  or_else others (none, h) = others h
  or_else others (some sock, h) = (some sock, h)

  -- do { ... } while((NULL == listen_sock) && (NULL != saddr)), over the addresses from `saddr` on.
  unfoldable pub try_addrs : List SockAddr → History → Option Socket × History
  try_addrs [] h = (none, h)
  try_addrs (saddr ∷ rest) h = or_else (try_addrs rest) (try_addr saddr h)

  -- The tests on the answer of apr_sockaddr_info_get, and the loop.
  abbrev pub from_answer : Status × Option SockAddr → History → Option Socket × History
  from_answer (rc, none) h = (none, h)
  from_answer (rc, some saddr) h =
      if not (is_success rc) then (none, h) else try_addrs (saddr ∷ apr.next_addrs saddr) h

  unfoldable pub create_listen_socket : History → Option Socket × History
  create_listen_socket h =
      from_answer (apr.sockaddr_info_get h (some apr.config.listen_host) apr.config.listen_port)
        (Call.addr_info (some apr.config.listen_host) apr.config.listen_port ∷ h)

  -- Behind apr_socket_create of lfd_connect, with its answer.
  abbrev pub connect_socket : SockAddr → Status × Socket → History → Option Socket × History
  connect_socket saddr (rc, connect_sock) h =
      if not (is_success rc)
      then (none, h)
      else (let connected = Call.connect connect_sock (some saddr) ∷ h in
          if not (is_success (apr.connect h connect_sock (some saddr)))
          then (none, Call.close_socket connect_sock ∷ connected)
          else (some connect_sock, connected))

  -- lfd_connect, with what it leaves in `*pconnect_sock`.
  unfoldable pub lfd_connect : SockAddr → History → Option Socket × History
  lfd_connect saddr h =
      connect_socket saddr (apr.create_socket h (some saddr)) (Call.create_socket (some saddr) ∷ h)
