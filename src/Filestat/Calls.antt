-- ===== src/Filestat/Calls.antt =====
-- filestat.c: the functions that call the kernel.
use lkl_lklftpd.Base.{
  ℕ, suc, ◌/◌, ◌%◌, Bool, not, ◌||◌, Option, none, some, List, [], ◌∷◌, if◌then◌else◌, Bytes,
}
use lkl_lklftpd.System.{ℤ}
use lkl_lklftpd.Kernel.{Kernel, KernelStat}
use lkl_lklftpd.Kernel.Word.{is_zero_int, negated}
use lkl_lklftpd.Fileops.{gives, FileRun, done, get_file, flush_locked, lkl_file_flush, ◌>>=◌}
use lkl_lklftpd.Filestat.Bits.{has_bit, with_bit, without_bit}
use lkl_lklftpd.Filestat.{
  PermBit, StatMacros, AprFinfo, more_wanted, fill_out_finfo, lkl_unix_perms2mode,
}

-- apr_time_sec and apr_time_usec, which round towards 0.
abbrev pub time_sec : ℤ → ℤ
time_sec (ℤ.pos n) = ℤ.pos (n / 1000000)
time_sec (ℤ.negsuc n) = negated (ℤ.pos (suc n / 1000000))

abbrev pub time_usec : ℤ → ℤ
time_usec (ℤ.pos n) = ℤ.pos (n % 1000000)
time_usec (ℤ.negsuc n) = negated (ℤ.pos (suc n % 1000000))

-- The two attributes of a file that lkl_file_attrs_set knows.
pub record FileAttrs : Type 0 where
  pub readonly : Bool
  pub executable : Bool

abbrev pub add_bits : (PermBit → ℕ) → List PermBit → ℕ → ℕ
add_bits bit [] n = n
add_bits bit (b ∷ rest) n = add_bits bit rest (with_bit (bit b) n)

abbrev pub drop_bits : (PermBit → ℕ) → List PermBit → ℕ → ℕ
drop_bits bit [] n = n
drop_bits bit (b ∷ rest) n = drop_bits bit rest (without_bit (bit b) n)

abbrev pub write_bits : List PermBit
write_bits = PermBit.uwrite ∷ PermBit.gwrite ∷ PermBit.wwrite ∷ []

abbrev pub execute_bits : List PermBit
execute_bits = PermBit.uexecute ∷ PermBit.gexecute ∷ PermBit.wexecute ∷ []

module _ (macros : StatMacros) where
  open macros use {mode_bit, perm_bit, has_svtx}

  -- The changes to the protection.
  abbrev pub change_bits : Bool → Bool → List PermBit → ℕ → ℕ
  change_bits masked adding bits n =
      if masked then (if adding then add_bits perm_bit bits n else drop_bits perm_bit bits n) else n

  abbrev pub changed_protection : FileAttrs → FileAttrs → ℕ → ℕ
  changed_protection attributes attr_mask protection =
      change_bits attr_mask.executable attributes.executable execute_bits
        (change_bits attr_mask.readonly (not attributes.readonly) write_bits protection)

  module _ (kern : Kernel) where
    open kern use {K, errors}

    -- What a call of stat leads to, by its result: the code and what has been filled.
    abbrev pub stat_result : ℕ → ℤ → ℤ → KernelStat → ℤ × Option AprFinfo
    stat_result wanted failed rc info =
        if is_zero_int rc
        then (
          (if more_wanted macros wanted then ℤ.pos errors.apr_incomplete else ℤ.pos 0),
          some (fill_out_finfo macros info),
        )
        else (failed, none)

    abbrev pub newfstat_call : FileRun K (ℤ × KernelStat)
    newfstat_call s =
        let (rc, info, k) = kern.sys_newfstat s.file.filedes s.kernel in
        gives (rc, info) (record s { kernel = k })

    -- The result of the call is returned as it is.
    unfoldable pub lkl_file_info_get_locked : ℕ → ℕ → FileRun K (ℤ × Option AprFinfo)
    lkl_file_info_get_locked fuel wanted = do
      f ← get_file
      rv ← (if f.buffered then flush_locked kern fuel else done (ℤ.pos 0))
      if not (is_zero_int rv)
          then done (rv, none)
          else (do (rc, info) ← newfstat_call; done (stat_result wanted rc rc info))

    unfoldable pub lkl_file_info_get : ℕ → ℕ → FileRun K (ℤ × Option AprFinfo)
    lkl_file_info_get fuel wanted = do
      f ← get_file
      rv ← (if f.buffered then lkl_file_flush kern fuel else done (ℤ.pos 0))
      if not (is_zero_int rv)
          then done (rv, none)
          else (do (rc, info) ← newfstat_call; done (stat_result wanted (negated rc) rc info))

    unfoldable pub lkl_file_perms_set : Bytes → ℕ → K → ℤ × K
    lkl_file_perms_set fname perms k =
        let (rc, k') = kern.sys_chmod fname (lkl_unix_perms2mode macros perms) k in
        if not (is_zero_int rc) then (negated rc, k') else (ℤ.pos 0, k')

    unfoldable pub lkl_stat : Bytes → ℕ → K → ℤ × Option AprFinfo × K
    lkl_stat fname wanted k =
        let link = has_bit macros.finfo_link wanted in
        let (srv, info, k') =
          if link then kern.sys_newlstat fname k else kern.sys_newstat fname k in
        let left = if link then without_bit macros.finfo_link wanted else wanted in
        let (rc, finfo) = stat_result left (negated srv) srv info in (rc, finfo, k')

    -- Behind the stat of lkl_file_attrs_set.
    abbrev pub attrs_stat : Bytes → FileAttrs → FileAttrs → ℤ × Option AprFinfo × K → ℤ × K
    attrs_stat fname attributes attr_mask (status, none, k) = (status, k)
    attrs_stat fname attributes attr_mask (status, some finfo, k) =
        if not (is_zero_int status)
        then (status, k)
        else lkl_file_perms_set fname (changed_protection attributes attr_mask finfo.protection) k

    unfoldable pub lkl_file_attrs_set : Bytes → FileAttrs → FileAttrs → K → ℤ × K
    lkl_file_attrs_set fname attributes attr_mask k =
        if not (attr_mask.readonly || attr_mask.executable)
        then (ℤ.pos 0, k)
        else attrs_stat fname attributes attr_mask (lkl_stat fname macros.finfo_prot k)

    -- Behind the stat of lkl_file_mtime_set. What utimes returns is returned as it is.
    abbrev pub mtime_stat : Bytes → ℤ → ℤ × Option AprFinfo × K → ℤ × K
    mtime_stat fname mtime (status, none, k) = (status, k)
    mtime_stat fname mtime (status, some finfo, k) =
        if not (is_zero_int status)
        then (status, k)
        else kern.sys_utimes fname (time_sec finfo.atime, time_usec finfo.atime)
            (time_sec mtime, time_usec mtime) k

    unfoldable pub lkl_file_mtime_set : Bytes → ℤ → K → ℤ × K
    lkl_file_mtime_set fname mtime k = mtime_stat fname mtime (lkl_stat fname macros.finfo_atime k)
