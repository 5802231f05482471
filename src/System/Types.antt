-- ===== src/System/Types.antt =====
-- The values that the daemon's code exchanges with the runtime.
use lkl_lklftpd.Base.{ℕ, Bool, true, false, Bytes, List, Option}

-- apr_status_t: the codes that the daemon names, and any other. They are distinct numbers.
pub data Status : Type 0 where
  success eof incomplete einval enosocket timeup eintr eagain minus_one : Status
  code : ℕ → Status

abbrev pub is_success : Status → Bool
is_success Status.success = true
is_success _ = false

abbrev pub is_eof : Status → Bool
is_eof Status.eof = true
is_eof _ = false

abbrev pub is_incomplete : Status → Bool
is_incomplete Status.incomplete = true
is_incomplete _ = false

-- apr_off_t, and the result of a comparison of strings: `negsuc n` is -(n + 1).
pub data ℤ : Type 0 where
  pos : ℕ → ℤ
  negsuc : ℕ → ℤ

-- Handles: what the runtime gives out and takes back, a number each.
abbrev pub Socket : Type 0
Socket = ℕ

abbrev pub SockAddr : Type 0
SockAddr = ℕ

abbrev pub File : Type 0
File = ℕ

abbrev pub Dir : Type 0
Dir = ℕ

abbrev pub Thread : Type 0
Thread = ℕ

-- apr_filetype_e, as far as the daemon tells the kinds apart.
pub data FileType : Type 0 where
  reg dir other_type : FileType

abbrev pub is_reg : FileType → Bool
is_reg FileType.reg = true
is_reg _ = false

abbrev pub is_dir : FileType → Bool
is_dir FileType.dir = true
is_dir _ = false

-- The nine permission bits that a listing shows, in its order.
pub record Protection : Type 0 where
  pub uread : Bool
  pub uwrite : Bool
  pub uexecute : Bool
  pub gread : Bool
  pub gwrite : Bool
  pub gexecute : Bool
  pub wread : Bool
  pub wwrite : Bool
  pub wexecute : Bool

-- apr_finfo_t
pub record FileInfo : Type 0 where
  pub filetype : FileType
  pub size : ℕ
  pub mtime : ℕ
  pub name : Bytes
  pub protection : Protection

-- apr_time_exp_t
pub record TimeExp : Type 0 where
  pub tm_year : ℕ
  pub rest : ℕ

-- An argument of a format.
pub data Arg : Type 0 where
  str : Bytes → Arg
  num : ℕ → Arg
  int : ℤ → Arg
  chr : ℕ → Arg

-- The flags of apr_file_open.
pub data OpenFlag : Type 0 where
  read write create append truncate binary largefile sendfile_enabled : OpenFlag
  excl buffered delonclose xthread : OpenFlag

-- The options of apr_socket_opt_set.
pub data SocketOption : Type 0 where
  reuseaddr keepalive linger : SocketOption

-- What apr_strtok does to `input`: it skips `lead`, gives `token`, and leaves `rest` for the next call.
-- `input` then reads `lead ++ token`.
pub record Split : Type 0 where
  pub lead : Bytes
  pub token : Bytes
  pub rest : Bytes

-- A call that the daemon makes.
pub data Call : Type 0 where
  send : Socket → Bytes → Call
  recv : Socket → ℕ → Call
  close_socket : Socket → Call
  create_socket : Option SockAddr → Call
  bind : Socket → SockAddr → Call
  listen : Socket → ℕ → Call
  accept : Socket → Call
  connect : Socket → Option SockAddr → Call
  opt_set : Option Socket → SocketOption → ℕ → Call
  random_bytes : ℕ → Call
  addr_info : Option Bytes → ℕ → Call
  addr_ip : SockAddr → Call
  stat : Bytes → Call
  dir_make : Bytes → Call
  dir_remove : Bytes → Call
  file_remove : Option Bytes → Call
  file_rename : Option Bytes → Option Bytes → Call
  file_open : Option Bytes → List OpenFlag → Call
  file_read : File → ℕ → Call
  file_write_full : File → Bytes → Call
  file_seek : File → ℕ → Call
  file_close : File → Call
  dir_open : Bytes → Call
  dir_read : Dir → Call
  dir_close : Dir → Call
  read_clock : Call
  clear_loop_pool : Call
  join_thread : Option Thread → Call
  exit_thread : Option Thread → Call

-- The calls made so far, the last one first.
abbrev pub History : Type 0
History = List Call
