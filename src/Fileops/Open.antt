-- ===== src/Fileops/Open.antt =====
-- fileops.c: opening, closing, removing, renaming and locking.
use lkl_lklftpd.Base.{
  ℕ, zero, suc, Bool, false, not, ◌&&◌, ◌||◌, Option, none, some, List, [], ◌∷◌, ◌++◌,
  if◌then◌else◌, Bytes,
}
use lkl_lklftpd.System.{ℤ, Halt, OpenFlag}
use lkl_lklftpd.Kernel.{Kernel, OFlag, LockFlag}
use lkl_lklftpd.Kernel.Word.{is_minus, is_negative, is_zero_int, negated}
use lkl_lklftpd.Filestat.{StatMacros, lkl_unix_perms2mode}
use lkl_lklftpd.Fileops.{
  has_flag, LklFile, gives, FileRun, ◌>>=◌, done, stop, get_file, lkl_file_flush,
}

-- The access mode: `none` where the code returns APR_EACCES.
abbrev pub access_mode : List OpenFlag → Option (List OFlag)
access_mode flag =
    if has_flag OpenFlag.read flag && has_flag OpenFlag.write flag
    then some (OFlag.o_rdwr ∷ [])
    else if has_flag OpenFlag.read flag
    then some (OFlag.o_rdonly ∷ [])
    else if has_flag OpenFlag.write flag
    then some (OFlag.o_wronly ∷ [])
    else none

abbrev pub add_if : Bool → OFlag → List OFlag → List OFlag
add_if test o oflags = if test then oflags ++ (o ∷ []) else oflags

module _ (kern : Kernel) where
  open kern use {K, errors}

  -- The flags for the kernel: `none` where the code returns APR_EACCES.
  unfoldable pub open_flags : List OpenFlag → Option (List OFlag)
  open_flags flag = elim (access_mode flag) [
    | none ↦ none
    | some mode ↦
        if has_flag OpenFlag.excl flag && not (has_flag OpenFlag.create flag)
        then none
        else (let created = add_if (has_flag OpenFlag.create flag) OFlag.o_creat mode in
            let exclusive =
              add_if (has_flag OpenFlag.create flag && has_flag OpenFlag.excl flag) OFlag.o_excl
                created in
            let appending = add_if (has_flag OpenFlag.append flag) OFlag.o_append exclusive in
            let cut = add_if (has_flag OpenFlag.truncate flag) OFlag.o_trunc appending in
            let binary =
              add_if (kern.has_o_binary && has_flag OpenFlag.binary flag) OFlag.o_binary cut in
            some (
              add_if (kern.largefile64_source || has_flag OpenFlag.largefile flag) OFlag.o_largefile
                binary))
  ]

  -- The structure that an open call fills.
  abbrev pub fresh_file : ℤ → Bytes → List OpenFlag → (ℕ → ℕ) → LklFile
  fresh_file fd fname flag memory = record {
    filedes = fd;
    fname = fname;
    flags = flag;
    eof_hit = false;
    timeout = ℤ.negsuc 0;
    buffered = has_flag OpenFlag.buffered flag;
    ungetchar = none;
    buffer = memory;
    bufpos = 0;
    data_read = 0;
    writing = false;
    file_ptr = 0;
    thlock = has_flag OpenFlag.buffered flag && has_flag OpenFlag.xthread flag;
  }

  -- Behind the creation of the mutex: the open call.
  abbrev pub open_call :
      Bytes → List OpenFlag → List OFlag → ℕ → (ℕ → ℕ) → K → ℤ × Option LklFile × K
  open_call fname flag oflags mode memory k =
      let (fd, k') = kern.sys_open fname oflags mode k in
      if is_negative fd
      then (ℤ.pos errors.apr_einval, none, k')
      else (ℤ.pos 0, some (fresh_file fd fname flag memory), k')

  -- The mode for the kernel: `none` is APR_OS_DEFAULT, and 438 is 0666.
  abbrev pub open_mode : StatMacros → Option ℕ → ℕ
  open_mode macros none = 438
  open_mode macros (some perm) = lkl_unix_perms2mode macros perm

  -- By the flags for the kernel: the creation of the mutex, and the open call.
  abbrev pub open_with :
      StatMacros
      → Bytes
      → List OpenFlag
      → Option ℕ
      → (ℕ → ℕ)
      → K
      → Option (List OFlag)
      → ℤ × Option LklFile × K
  open_with macros fname flag perm memory k none = (ℤ.pos errors.apr_eacces, none, k)
  open_with macros fname flag perm memory k (some oflags) =
      let mode = open_mode macros perm in
      if has_flag OpenFlag.buffered flag && has_flag OpenFlag.xthread flag
      then (let (rv, k') = kern.thread_mutex_create k in
          if not (is_zero_int rv)
          then (rv, none, k')
          else open_call fname flag oflags mode memory k')
      else open_call fname flag oflags mode memory k

  -- lkl_file_open; `memory` is what apr_palloc gives for the buffer.
  unfoldable pub lkl_file_open :
      StatMacros → Bytes → List OpenFlag → Option ℕ → (ℕ → ℕ) → K → ℤ × Option LklFile × K
  unfolding open_flags
  lkl_file_open macros fname flag perm memory k =
      open_with macros fname flag perm memory k (open_flags flag)

  -- What file_cleanup does behind a close that has not failed.
  abbrev pub closed_cleanup : FileRun K ℤ
  closed_cleanup s =
      let f = s.file in
      let k =
        if has_flag OpenFlag.delonclose f.flags
        then (kern.sys_unlink f.fname s.kernel).1
        else s.kernel in
      let closed : LklFile = record f { filedes = ℤ.negsuc 0 } in
      if f.thlock
      then (let (rv, k') = kern.thread_mutex_destroy k in
          done rv (record { file = closed; kernel = k' }))
      else done (ℤ.pos 0) (record { file = closed; kernel = k })

  unfoldable pub file_cleanup : FileRun K ℤ
  file_cleanup s =
      let (rc, k) = kern.sys_close s.file.filedes s.kernel in
      if is_zero_int rc
      then closed_cleanup (record s { kernel = k })
      else done (negated rc) (record s { kernel = k })

  -- lkl_unix_file_cleanup, which lkl_file_close runs.
  unfoldable pub lkl_file_close : ℕ → FileRun K ℤ
  lkl_file_close fuel = do
    f ← get_file
    flush_rv ← (if f.buffered then lkl_file_flush kern fuel else done (ℤ.pos 0))
    rv ← file_cleanup
    done (if not (is_zero_int rv) then rv else flush_rv)

  unfoldable pub lkl_file_remove : Bytes → K → ℤ × K
  lkl_file_remove path k = let (rc, k') = kern.sys_unlink path k in (negated rc, k')

  unfoldable pub lkl_file_rename : Bytes → Bytes → K → ℤ × K
  lkl_file_rename from_path to_path k =
      let (rc, k') = kern.sys_rename from_path to_path k in (negated rc, k')

  abbrev pub flock_call : List LockFlag → FileRun K ℤ
  flock_call ltype s =
      let (rc, k) = kern.sys_flock s.file.filedes ltype s.kernel in
      gives rc (record s { kernel = k })

  -- while ((rc = lkl_sys_flock(...)) == -EINTR) continue; and the test behind it.
  unfoldable pub flock_retry : ℕ → List LockFlag → FileRun K ℤ
  flock_retry zero ltype = stop Halt.out_of_fuel
  flock_retry (suc fuel) ltype = do
    rc ← flock_call ltype
    if is_minus rc errors.eintr
        then flock_retry fuel ltype
        else done (if is_negative rc then negated rc else ℤ.pos 0)

  -- The type of lock: shared or not, and whether the call may wait.
  unfoldable pub lkl_file_lock : ℕ → Bool → Bool → FileRun K ℤ
  unfolding flock_retry
  lkl_file_lock fuel shared nonblock = flock_retry fuel (
      (if shared then LockFlag.lock_sh else LockFlag.lock_ex)
      ∷ (if nonblock then LockFlag.lock_nb ∷ [] else []))

  unfoldable pub lkl_file_unlock : ℕ → FileRun K ℤ
  unfolding flock_retry
  lkl_file_unlock fuel = flock_retry fuel (LockFlag.lock_un ∷ [])

abbrev pub lkl_file_eof : Kernel → LklFile → ℤ
lkl_file_eof kern f = if f.eof_hit then ℤ.pos kern.errors.apr_eof else ℤ.pos 0
