-- ===== src/Connection.antt =====
-- connection.c: the data connection, by a passive listening socket or by the address of a PORT
-- command. Log output is left out.
pub mod Ports
pub mod Binding
use lkl_lklftpd.Base.{
  ℕ, zero, suc, ◌+◌, ◌-◌, ◌*◌, ◌/◌, ◌%◌, ◌^◌, Bool, true, false, not, ◌&&◌, ◌||◌, Option, none,
  some, List, [], ◌∷◌, ◌++◌, ◌==◌, ltb, if◌then◌else◌, is_some, is_nil, Bytes, text,
}
use lkl_lklftpd.System.{
  Status, is_success, ℤ, Apr, Arg, Config, Sess, DataSess, Socket, SockAddr, SocketOption, State,
  Run, Halt, ◌>>=◌, ◌>>◌, pure, halt, perform, get_sess, modify, modify_data, ⊤, ret, Outcome,
  socket_close, socket_create, socket_bind, socket_listen, socket_accept, socket_connect,
  socket_opt_set, generate_random_bytes, sockaddr_info_get, sockaddr_ip_get,
}
use lkl_lklftpd.Cmdio.{lfd_cmdio_write}
use lkl_lklftpd.Ftpcodes.{ftp_badcmd, ftp_portok, ftp_pasvok, ftp_badsendconn, ftp_dataconn}

-- bug() of utils.c prints its text and calls exit.
abbrev pub bug : Run ⊤
bug = halt Halt.process_exit

unfoldable pub port_cleanup : Run ⊤
port_cleanup = modify (λ s. record s { p_port_sockaddr = none })

-- An apr_port_t has 16 bits.
abbrev pub port_bits : ℕ → ℕ
port_bits n = n % 2 ^ 16

-- The two bounds of the passive ports. The second tests the minimum, as the code does.
unfoldable pub pasv_min_port : Config → ℕ
pasv_min_port c = if ltb c.min_pasv_port 1023 then 1024 else port_bits c.min_pasv_port

unfoldable pub pasv_max_port : Config → ℕ
pasv_max_port c = if ltb 65535 c.min_pasv_port then 65535 else port_bits c.max_pasv_port

-- (apr_port_t) (((apr_uint64_t) (max_port - min_port + 1)) * rand_port / max_port + min_port)
unfoldable pub scale_port : ℕ → ℕ → ℕ → ℕ
scale_port min_port max_port rand_port =
    let span = (max_port + 2 ^ 64 - min_port + 1) % 2 ^ 64 in
    port_bits ((span * rand_port % 2 ^ 64 / max_port + min_port) % 2 ^ 64)

-- A bound socket, its address and its port.
abbrev pub Bound : Type 0
Bound = Socket × SockAddr × ℕ

-- Six array elements, by index.
abbrev pub Vals : Type 0
Vals = ℕ → ℕ

abbrev pub set_val : Vals → ℕ → ℕ → Vals
set_val vals i v j = if j == i then v else vals j

-- The tests on one number of the list, and what goes on with it.
abbrev pub parse_number : Status × ℤ → Vals → (ℕ → Bool × Vals) → Bool × Vals
parse_number (rc, ℤ.negsuc _) vals go_on = (false, vals)
parse_number (rc, ℤ.pos n) vals go_on =
    if not (is_success rc) || ltb 255 n then (false, vals) else go_on n

module _ (apr : Apr) where
  unfoldable pub pasv_cleanup : Run ⊤
  pasv_cleanup = do
    s ← get_sess
    elim s.pasv_listen_fd [
      | none ↦ pure tt
      | some fd ↦ do socket_close apr fd; modify (λ t. record t { pasv_listen_fd = none })
    ]

  unfoldable pub lfd_communication_cleanup : Run ⊤
  unfolding port_cleanup pasv_cleanup
  lfd_communication_cleanup = do port_cleanup; pasv_cleanup

  -- The loop's body: `none` where it ends by `continue`, or the binding has failed.
  unfoldable pub bind_attempt : Run (Option Bound)
  bind_attempt = do
    (rc, b0, b1) ← generate_random_bytes apr 2
    if not (is_success rc) then pure none else (do
      let max_port = pasv_max_port apr.config
      let drawn = (b0 % 256) * 256 + b1 % 256
      let port = scale_port (pasv_min_port apr.config) max_port drawn
      if max_port == 0 then halt Halt.division_by_zero else pure tt
      (rc, found) ← sockaddr_info_get apr (some apr.config.listen_host) port
      if not (is_success rc) then pure none else elim found [
        | none ↦ halt Halt.null_deref
        | some saddr ↦ (do
          (rc, fd) ← socket_create apr (some saddr)
          if not (is_success rc) then pure none else (do
            rc ← socket_opt_set apr (some fd) SocketOption.reuseaddr 1
            if not (is_success rc) then pure none else (do
              rc ← socket_bind apr fd saddr
              pure (if is_success rc then some (fd, saddr, port) else none))))
      ])

  -- while (--bind_retries), by the rounds that are left.
  unfoldable pub bind_rounds : ℕ → Run (Option Bound)
  bind_rounds zero = pure none
  bind_rounds (suc n) = do
    tried ← bind_attempt
    elim tried [ some bound ↦ pure (some bound) | none ↦ bind_rounds n ]

  -- Counted down before the first round.
  abbrev pub bind_tries : ℕ
  bind_tries = port_bits (apr.config.max_sockets_to_try_to_bind + 2 ^ 16 - 1)

  -- Behind the loop.
  abbrev pub keep_bound : Option Bound → Run (Status × Option Bound)
  keep_bound none = pure (Status.enosocket, none)
  keep_bound (some bound) = do
    modify (λ s. record s { pasv_listen_fd = some bound.0 })
    pure (Status.success, some bound)

  unfoldable pub bind_to_random_passive_port : Run (Status × Option Bound)
  unfolding bind_rounds
  bind_to_random_passive_port = do tried ← bind_rounds bind_tries; keep_bound tried

  -- The loop of lfd_str_parse_uchar_string_sep: the items left, the index, the text and the array.
  unfoldable pub parse_items : Bytes → ℕ → ℕ → Bytes → Vals → Bool × Vals
  parse_items sep zero i input vals = (true, vals)
  parse_items sep (suc left) i input vals = elim (apr.strtok input sep) [
    | none ↦ (false, vals)
    | some cut ↦
        if is_nil cut.token
        then (false, vals)
        else if (not (left == 0) && is_nil cut.rest) || (left == 0 && not (is_nil cut.rest))
        then (false, vals)
        else parse_number (apr.strtoff (cut.lead ++ cut.token)) vals
            (λ v. parse_items sep left (i + 1) cut.rest (set_val vals i v))
  ]
