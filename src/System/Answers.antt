-- ===== src/System/Answers.antt =====
-- The runtime and the settings, as the parameter of every function of the model. The answer to a call
-- depends on the whole history of calls, so that a file system, a network peer or a clock with a
-- state of its own is one such value. The pure functions on strings stand beside the calls.
use lkl_lklftpd.Base.{ℕ, ◌≤◌, ◌≡◌, ◌++◌, Bytes, Option, List, text, length}
use lkl_lklftpd.System.Types.{
  Status, ℤ, Socket, SockAddr, File, Dir, FileInfo, TimeExp, Arg, OpenFlag, SocketOption, Split,
  History,
}

-- The variables of config.c that the modelled code reads.
pub record Config : Type 0 where
  pub listen_port : ℕ
  pub data_port : ℕ
  pub min_pasv_port : ℕ
  pub max_pasv_port : ℕ
  pub listen_host : Bytes
  pub banner_string : Bytes
  pub max_sockets_to_try_to_bind : ℕ
  pub backlog : ℕ

-- Their values in config.c.
abbrev pub default_config : Config
default_config = record {
  listen_port = 21;
  data_port = 20;
  min_pasv_port = 1024;
  max_pasv_port = 65535;
  listen_host = text "localhost";
  banner_string = text "Welcome to LklFtp Server.\r";
  max_sockets_to_try_to_bind = 10;
  backlog = 5;
}

pub record Apr : Type 0 where
  pub config : Config
  -- How many calls deep the stack goes, less two.
  pub stack_room : ℕ
  -- What a local array holds before it is written, by index.
  pub indeterminate : History → ℕ → ℕ
  pub pstrdup : Bytes → Bytes
  pub pstrcat : Bytes → Bytes → Bytes
  pub vsprintf : Bytes → List Arg → Bytes
  pub snprintf : ℕ → Bytes → List Arg → Bytes
  pub strtok : Bytes → Bytes → Option Split
  pub strtoff : Bytes → Status × ℤ
  pub strnatcasecmp : Bytes → Bytes → ℤ
  pub send : History → Socket → Bytes → Status × ℕ
  pub recv : History → Socket → ℕ → Status × Bytes
  pub create_socket : History → Option SockAddr → Status × Socket
  pub bind : History → Socket → SockAddr → Status
  pub listen : History → Socket → ℕ → Status
  pub accept : History → Socket → Status × Option Socket
  pub connect : History → Socket → Option SockAddr → Status
  pub opt_set : History → Option Socket → SocketOption → ℕ → Status
  pub random_bytes : History → ℕ → Status × ℕ × ℕ
  pub sockaddr_info_get : History → Option Bytes → ℕ → Status × Option SockAddr
  -- The addresses behind one in its list, by the `next` pointers.
  pub next_addrs : SockAddr → List SockAddr
  pub sockaddr_ip_get : History → SockAddr → Status × Bytes
  pub stat : History → Bytes → Status × FileInfo
  pub dir_make : History → Bytes → Status
  pub dir_remove : History → Bytes → Status
  pub file_remove : History → Option Bytes → Status
  pub file_rename : History → Option Bytes → Option Bytes → Status
  pub file_open : History → Option Bytes → List OpenFlag → Status × File
  pub file_read : History → File → ℕ → Status × Bytes
  pub file_write_full : History → File → Bytes → Status × ℕ
  pub file_seek : History → File → ℕ → Status
  pub dir_open : History → Bytes → Status × Dir
  pub dir_read : History → Dir → Status × FileInfo
  pub time_now : History → ℕ
  pub time_exp_lt : ℕ → TimeExp
  pub strftime : ℕ → Bytes → TimeExp → Bytes
  pub thread_join : History → Option ℕ → Status

-- apr_pstrdup copies a string, and apr_pstrcat joins strings.
pub record CopiesStrings (apr : Apr) : Type 0 where
  pub pstrdup_same : (s : Bytes) → apr.pstrdup s ≡ s
  pub pstrcat_append : (s t : Bytes) → apr.pstrcat s t ≡ s ++ t

-- A transfer of the runtime moves no more bytes than it is asked to.
pub record KeepsCounts (apr : Apr) : Type 0 where
  pub send-le : (h : History) (s : Socket) (b : Bytes) → (apr.send h s b).1 ≤ length b
  pub read-le : (h : History) (f : File) (n : ℕ) → length (apr.file_read h f n).1 ≤ n
  pub recv-le : (h : History) (s : Socket) (n : ℕ) → length (apr.recv h s n).1 ≤ n
