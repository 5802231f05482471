-- ===== src/System/Calls.antt =====
-- The calls of the runtime as runs: each is recorded, and answered by the parameter.
use lkl_lklftpd.Base.{ℕ, Bytes, Option, List}
use lkl_lklftpd.System.Types.{
  Status, Socket, SockAddr, File, Dir, Thread, FileInfo, OpenFlag, SocketOption, Call,
}
use lkl_lklftpd.System.Answers.{Apr}
use lkl_lklftpd.System.Monad.{Run, Halt, perform, ⊤, ◌>>◌, halt}

module _ (apr : Apr) where
  abbrev pub socket_send : Socket → Bytes → Run (Status × ℕ)
  socket_send s b = perform (Call.send s b) (λ h. apr.send h s b)

  abbrev pub socket_recv : Socket → ℕ → Run (Status × Bytes)
  socket_recv s n = perform (Call.recv s n) (λ h. apr.recv h s n)

  abbrev pub socket_close : Socket → Run ⊤
  socket_close s = perform (Call.close_socket s) (λ _. tt)

  -- The family of the socket is taken from an address, or is APR_INET.
  abbrev pub socket_create : Option SockAddr → Run (Status × Socket)
  socket_create a = perform (Call.create_socket a) (λ h. apr.create_socket h a)

  abbrev pub socket_bind : Socket → SockAddr → Run Status
  socket_bind s a = perform (Call.bind s a) (λ h. apr.bind h s a)

  abbrev pub socket_listen : Socket → ℕ → Run Status
  socket_listen s n = perform (Call.listen s n) (λ h. apr.listen h s n)

  abbrev pub socket_accept : Socket → Run (Status × Option Socket)
  socket_accept s = perform (Call.accept s) (λ h. apr.accept h s)

  abbrev pub socket_connect : Socket → Option SockAddr → Run Status
  socket_connect s a = perform (Call.connect s a) (λ h. apr.connect h s a)

  abbrev pub socket_opt_set : Option Socket → SocketOption → ℕ → Run Status
  socket_opt_set s o v = perform (Call.opt_set s o v) (λ h. apr.opt_set h s o v)

  abbrev pub generate_random_bytes : ℕ → Run (Status × ℕ × ℕ)
  generate_random_bytes n = perform (Call.random_bytes n) (λ h. apr.random_bytes h n)

  abbrev pub sockaddr_info_get : Option Bytes → ℕ → Run (Status × Option SockAddr)
  sockaddr_info_get host port =
      perform (Call.addr_info host port) (λ h. apr.sockaddr_info_get h host port)

  abbrev pub sockaddr_ip_get : SockAddr → Run (Status × Bytes)
  sockaddr_ip_get a = perform (Call.addr_ip a) (λ h. apr.sockaddr_ip_get h a)

  abbrev pub lkl_stat : Bytes → Run (Status × FileInfo)
  lkl_stat path = perform (Call.stat path) (λ h. apr.stat h path)

  abbrev pub lkl_dir_make : Bytes → Run Status
  lkl_dir_make path = perform (Call.dir_make path) (λ h. apr.dir_make h path)

  abbrev pub lkl_dir_remove : Bytes → Run Status
  lkl_dir_remove path = perform (Call.dir_remove path) (λ h. apr.dir_remove h path)

  abbrev pub lkl_file_remove : Option Bytes → Run Status
  lkl_file_remove path = perform (Call.file_remove path) (λ h. apr.file_remove h path)

  abbrev pub lkl_file_rename : Option Bytes → Option Bytes → Run Status
  lkl_file_rename from to = perform (Call.file_rename from to) (λ h. apr.file_rename h from to)

  abbrev pub lkl_file_open : Option Bytes → List OpenFlag → Run (Status × File)
  lkl_file_open path flags = perform (Call.file_open path flags) (λ h. apr.file_open h path flags)

  abbrev pub lkl_file_read : File → ℕ → Run (Status × Bytes)
  lkl_file_read f n = perform (Call.file_read f n) (λ h. apr.file_read h f n)

  abbrev pub lkl_file_write_full : File → Bytes → Run (Status × ℕ)
  lkl_file_write_full f b = perform (Call.file_write_full f b) (λ h. apr.file_write_full h f b)

  abbrev pub lkl_file_seek : File → ℕ → Run Status
  lkl_file_seek f offset = perform (Call.file_seek f offset) (λ h. apr.file_seek h f offset)

  abbrev pub lkl_file_close : File → Run ⊤
  lkl_file_close f = perform (Call.file_close f) (λ _. tt)

  abbrev pub lkl_dir_open : Bytes → Run (Status × Dir)
  lkl_dir_open path = perform (Call.dir_open path) (λ h. apr.dir_open h path)

  abbrev pub lkl_dir_read : Dir → Run (Status × FileInfo)
  lkl_dir_read d = perform (Call.dir_read d) (λ h. apr.dir_read h d)

  abbrev pub lkl_dir_close : Dir → Run ⊤
  lkl_dir_close d = perform (Call.dir_close d) (λ _. tt)

  abbrev pub time_now : Run ℕ
  time_now = perform Call.read_clock apr.time_now

  abbrev pub pool_clear : Run ⊤
  pool_clear = perform Call.clear_loop_pool (λ _. tt)

  abbrev pub thread_join : Option Thread → Run Status
  thread_join t = perform (Call.join_thread t) (λ h. apr.thread_join h t)

  -- apr_thread_exit does not return.
  abbrev pub thread_exit : Option Thread → Run ⊤
  thread_exit t = do perform (Call.exit_thread t) (λ _. tt); halt Halt.thread_ended
