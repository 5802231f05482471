-- ===== src/System/Session.antt =====
-- struct lfd_data_sess and struct lfd_sess of sess.h. The pools and the input buffer have no field:
-- memory is a value here. `data_conn` is the one structure that lfd_sess_create allocates; no code
-- sets the pointer again, so it is held in place.
use lkl_lklftpd.Base.{ℕ, Bool, false, Bytes, Option, none, [], ◌∷◌}
use lkl_lklftpd.System.Types.{Socket, SockAddr, Thread}

pub record DataSess : Type 0 where
  pub data_conn_th : Option Thread
  pub data_sock : Option Socket
  pub in_progress : Bool
  pub transfer_size : ℕ
  pub abor_received : Bool

pub record Sess : Type 0 where
  pub data_conn : DataSess
  pub comm_sock : Socket
  pub ftp_cmd_str : Option Bytes
  pub ftp_arg_str : Option Bytes
  pub cwd_path : Bytes
  pub pasv_listen_fd : Option Socket
  pub p_port_sockaddr : Option SockAddr
  pub restart_pos : ℕ
  pub is_ascii : Bool

-- lfd_sess_create: apr_pcalloc zeroes the structures.
unfoldable pub sess_create : Socket → Sess
sess_create sock = record {
  data_conn = record {
    data_conn_th = none;
    data_sock = none;
    in_progress = false;
    transfer_size = 0;
    abor_received = false;
  };
  comm_sock = sock;
  ftp_cmd_str = none;
  ftp_arg_str = none;
  cwd_path = b'/' ∷ [];
  pasv_listen_fd = none;
  p_port_sockaddr = none;
  restart_pos = 0;
  is_ascii = false;
}
