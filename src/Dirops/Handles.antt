-- ===== src/Dirops/Handles.antt =====
-- dirops.c on the calls of the kernel: opening and closing a directory, making and removing one.
use lkl_lklftpd.Base.{ℕ, Option, none, some, [], ◌∷◌, if◌then◌else◌, Bytes}
use lkl_lklftpd.System.{ℤ}
use lkl_lklftpd.Kernel.{Kernel, OFlag}
use lkl_lklftpd.Kernel.Word.{is_negative, negated}
use lkl_lklftpd.Dirops.{DirBuffer, dir_opened}
use lkl_lklftpd.Filestat.{StatMacros, lkl_unix_perms2mode}

-- lkl_dir_t: its name, its descriptor and its buffer.
pub record LklDir : Type 0 where
  pub dirname : Bytes
  pub fd : ℤ
  pub buffer : DirBuffer

module _ (kern : Kernel) where
  open kern use {K, errors}

  unfoldable pub lkl_dir_open : Bytes → K → ℤ × Option LklDir × K
  lkl_dir_open dirname k =
      let (dir, k') =
        kern.sys_open dirname (OFlag.o_rdonly ∷ OFlag.o_directory ∷ OFlag.o_largefile ∷ []) 0 k in
      if is_negative dir
      then (ℤ.pos errors.apr_einval, none, k')
      else (ℤ.pos 0, some (record { dirname = dirname; fd = dir; buffer = dir_opened }), k')

  -- lkl_dir_close runs the cleanup.
  unfoldable pub dir_cleanup : LklDir → K → ℤ × K
  dir_cleanup dir k = kern.sys_close dir.fd k

  unfoldable pub lkl_dir_make : StatMacros → Bytes → ℕ → K → ℤ × K
  lkl_dir_make macros path perm k =
      let (rc, k') = kern.sys_mkdir path (lkl_unix_perms2mode macros perm) k in (negated rc, k')

  unfoldable pub lkl_dir_remove : Bytes → K → ℤ × K
  lkl_dir_remove path k = let (rc, k') = kern.sys_rmdir path k in (negated rc, k')
