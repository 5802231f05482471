-- ===== src/Kernel.antt =====
-- The kernel library that fileops.c, filestat.c and dirops.c call, as a parameter: its state, its
-- calls, and the constants of its headers and of the runtime's that the code names. An int is a ℤ.
pub mod Word
pub mod Laws
use lkl_lklftpd.Base.{ℕ, ◌+◌, Bool, true, false, Option, List, Bytes}
use lkl_lklftpd.System.{ℤ}

-- SEEK_SET, SEEK_CUR, SEEK_END
pub data Whence : Type 0 where
  seek_set seek_cur seek_end : Whence

-- The flags of open(2).
pub data OFlag : Type 0 where
  o_rdwr o_rdonly o_wronly o_creat o_excl o_append o_trunc o_binary o_largefile o_directory : OFlag

-- LOCK_SH, LOCK_EX, LOCK_NB, LOCK_UN
pub data LockFlag : Type 0 where
  lock_sh lock_ex lock_nb lock_un : LockFlag

-- struct __kernel_stat, with the fields that the code reads.
pub record KernelStat : Type 0 where
  pub st_mode : ℕ
  pub st_size : ℕ
  pub st_ino : ℕ
  pub st_dev : ℕ
  pub st_nlink : ℕ
  pub st_atime : ℤ
  pub st_mtime : ℤ
  pub st_ctime : ℤ

-- The errors of <errno.h>, and the codes of <apr_errno.h>, as numbers.
pub record Errors : Type 0 where
  pub eintr : ℕ
  pub eagain : ℕ
  pub ewouldblock : ℕ
  pub einval : ℕ
  pub apr_einval : ℕ
  pub apr_eacces : ℕ
  pub apr_enoent : ℕ
  pub apr_eof : ℕ
  pub apr_timeup : ℕ
  pub apr_incomplete : ℕ

-- A call gives the kernel's answer and its next state; reading also gives the bytes that it has stored.
pub record Kernel : Type 1 where
  pub K : Type 0
  pub errors : Errors
  pub sys_read : ℤ → ℕ → K → ℤ × Bytes × K
  pub sys_write : ℤ → Bytes → K → ℤ × K
  pub sys_lseek : ℤ → ℤ → Whence → K → ℤ × K
  -- The flag tells POLLIN from POLLOUT; the number is the timeout.
  pub sys_poll : ℤ → Bool → ℤ → K → ℤ × K
  pub sys_open : Bytes → List OFlag → ℕ → K → ℤ × K
  pub sys_close : ℤ → K → ℤ × K
  pub sys_unlink : Bytes → K → ℤ × K
  pub sys_rename : Bytes → Bytes → K → ℤ × K
  pub sys_flock : ℤ → List LockFlag → K → ℤ × K
  pub sys_newstat : Bytes → K → ℤ × KernelStat × K
  pub sys_newlstat : Bytes → K → ℤ × KernelStat × K
  pub sys_newfstat : ℤ → K → ℤ × KernelStat × K
  pub sys_chmod : Bytes → ℕ → K → ℤ × K
  -- The seconds and microseconds of the two times.
  pub sys_utimes : Bytes → ℤ × ℤ → ℤ × ℤ → K → ℤ × K
  pub thread_mutex_create : K → ℤ × K
  pub thread_mutex_destroy : K → ℤ × K
  -- Whether _LARGEFILE64_SOURCE is defined, and O_BINARY.
  pub largefile64_source : Bool
  pub has_o_binary : Bool
  pub sys_mkdir : Bytes → ℕ → K → ℤ × K
  pub sys_rmdir : Bytes → K → ℤ × K
