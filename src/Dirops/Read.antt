-- ===== src/Dirops/Read.antt =====
-- lkl_dir_read: the next entry of a directory, with what lkl_stat says of it.
use lkl_lklftpd.Base.{
  ℕ, ◌+◌, ◌-◌, ◌≡◌, refl, ◌⊎◌, inl, inr, Bool, false, not, ◌&&◌, ◌||◌, Option, none, some, List, [],
  ◌∷◌, ◌++◌, ◌==◌, ltb, if◌then◌else◌, Bytes, length, take, Bool-cases,
}
use lkl_lklftpd.System.{ℤ}
use lkl_lklftpd.Paths.{char_at}
use lkl_lklftpd.Kernel.{Kernel}
use lkl_lklftpd.Kernel.Word.{is_zero_int}
use lkl_lklftpd.Dirops.{Dirent, lkl_readdir}
use lkl_lklftpd.Dirops.Handles.{LklDir}
use lkl_lklftpd.Filestat.{StatMacros, AprFinfo, flags_left}
use lkl_lklftpd.Filestat.Calls.{lkl_stat}
use lkl_lklftpd.Filestat.Bits.{with_bit, without_bit}

-- apr_finfo_t behind lkl_dir_read: the entry's name and inode, and what lkl_stat has filled.
pub record DirInfo : Type 0 where
  pub name : Bytes
  pub valid : ℕ
  pub inode : Option ℕ
  pub status : Option AprFinfo

-- The path of an entry, in an array of APR_PATH_MAX bytes.
abbrev pub entry_path : ℕ → Bytes → Bytes → Bytes
entry_path path_max dirname d_name =
    let fspec = take (path_max - 1) dirname in
    let off = length fspec in
    let parent =
      if not (char_at fspec (off - 1) == 47) && ltb (off + 1) path_max
      then fspec ++ (47 ∷ [])
      else fspec in
    parent ++ take (path_max - length parent - 1) d_name

-- x == n
abbrev pub is_int : ℤ → ℕ → Bool
is_int (ℤ.pos m) n = m == n
is_int (ℤ.negsuc m) n = false

-- The numbers -1 has as an inode, and of APR_PATH_MAX.
module _ (macros : StatMacros) (minus_one path_max : ℕ) where
  -- d_ino && d_ino != -1
  abbrev pub has_inode : Dirent → Bool
  has_inode de = not (de.d_ino == 0) && not (de.d_ino == minus_one)

  -- What is wanted and the entry does not have.
  abbrev pub wanted_of_stat : ℕ → Dirent → ℕ
  wanted_of_stat wanted de =
      without_bit macros.finfo_name
        (if has_inode de then without_bit macros.finfo_inode wanted else wanted)

  module _ (kern : Kernel) (getdents : ℕ → Option (List Dirent)) where
    open kern use {K, errors}

    abbrev pub status_of : ℕ → ℤ
    status_of wanted = if wanted == 0 then ℤ.pos 0 else ℤ.pos errors.apr_incomplete

    -- Where there is no stat, or it has failed.
    abbrev pub from_entry : ℕ → Dirent → ℤ × Option DirInfo
    from_entry wanted de =
        let valid = if has_inode de then with_bit macros.finfo_inode 0 else 0 in
        (
          status_of wanted,
          some (record {
            name = de.d_name;
            valid = with_bit macros.finfo_name valid;
            inode = if has_inode de then some de.d_ino else none;
            status = none;
          }),
        )

    -- Behind the stat.
    abbrev pub from_stat : ℕ → Dirent → ℤ × Option AprFinfo → ℤ × Option DirInfo
    from_stat wanted de (rc, none) = from_entry wanted de
    from_stat wanted de (rc, some finfo) =
        if is_zero_int rc || is_int rc errors.apr_incomplete
        then (
          status_of (flags_left wanted finfo.valid),
          some (record {
            name = de.d_name;
            valid = with_bit macros.finfo_name finfo.valid;
            inode = some finfo.inode;
            status = some finfo;
          }),
        )
        else from_entry wanted de

    -- Behind lkl_readdir.
    abbrev pub entry_read : ℕ → Bytes → Option Dirent → K → ℤ × Option DirInfo × K
    entry_read wanted dirname none k = (ℤ.pos errors.apr_enoent, none, k)
    entry_read wanted dirname (some de) k =
        let left = wanted_of_stat wanted de in
        if left == 0
        then (let (rc, info) = from_entry left de in (rc, info, k))
        else (let (rc, finfo, k') =
              lkl_stat macros kern (entry_path path_max dirname de.d_name)
                (with_bit macros.finfo_link left) k in
            let (status, info) = from_stat left de (rc, finfo) in (status, info, k'))

    unfoldable pub lkl_dir_read : ℕ → LklDir → K → ℤ × Option DirInfo × LklDir × K
    unfolding lkl_readdir
    lkl_dir_read wanted dir k =
        let (entry, buffer) = lkl_readdir getdents dir.buffer in
        let (rc, info, k') = entry_read wanted dir.dirname entry k in
        (rc, info, record dir { buffer = buffer }, k')

    -- What a reading leads to, by the entry that there is.
    abbrev pub ReadsEntry : Option Dirent → ℤ → Option DirInfo → Type 0
    ReadsEntry none rc info = (rc ≡ ℤ.pos errors.apr_enoent) × (info ≡ none)
    ReadsEntry (some de) rc info =
        ((rc ≡ ℤ.pos 0) ⊎ (rc ≡ ℤ.pos errors.apr_incomplete))
        × (i : DirInfo) × (info ≡ some i)
        × (i.name ≡ de.d_name)

    status_of-cases :
        (n : ℕ) → (status_of n ≡ ℤ.pos 0) ⊎ (status_of n ≡ ℤ.pos errors.apr_incomplete)
    status_of-cases n = elim (Bool-cases (n == 0)) [
      | inl e ↦ inl (rw e refl)
      | inr e ↦ inr (rw e refl)
    ]

    from_stat-entry :
        (wanted : ℕ) (de : Dirent) (answer : ℤ × Option AprFinfo)
        → ReadsEntry (some de) (from_stat wanted de answer).0 (from_stat wanted de answer).1
    from_stat-entry wanted de (rc, none) = (status_of-cases wanted, _, refl, refl)
    from_stat-entry wanted de (rc, some finfo) =
        elim (Bool-cases (is_zero_int rc || is_int rc errors.apr_incomplete)) [
          | inl e ↦ rw e (status_of-cases (flags_left wanted finfo.valid), _, refl, refl)
          | inr e ↦ rw e (status_of-cases wanted, _, refl, refl)
        ]

    entry_read-entry :
        (wanted : ℕ) (dirname : Bytes) (entry : Option Dirent) (k : K)
        → ReadsEntry entry
            (entry_read wanted dirname entry k).0
            (entry_read wanted dirname entry k).1
    entry_read-entry wanted dirname none k = (refl, refl)
    entry_read-entry wanted dirname (some de) k =
        elim (Bool-cases (wanted_of_stat wanted de == 0)) [
          | inl e ↦ rw e (inl refl, _, refl, refl)
          | inr e ↦
              let (rc, finfo, k') =
                lkl_stat macros kern (entry_path path_max dirname de.d_name)
                  (with_bit macros.finfo_link (wanted_of_stat wanted de)) k in
              rw e (from_stat-entry (wanted_of_stat wanted de) de (rc, finfo))
        ]

    -- lkl_dir_read goes on by one call of lkl_readdir. Where that gives an entry, it returns
    -- APR_SUCCESS or APR_INCOMPLETE, whatever the stat of the entry, with the entry's name; where
    -- it gives none, APR_ENOENT and nothing.
    pub lkl_dir_read-entry :
        (wanted : ℕ) (dir : LklDir) (k : K)
        → let (rc, info, dir', k') = lkl_dir_read wanted dir k in
          let (entry, buffer) = lkl_readdir getdents dir.buffer in
          ReadsEntry entry rc info × (dir'.buffer ≡ buffer)
    unfolding lkl_dir_read
    lkl_dir_read-entry wanted dir k =
        (entry_read-entry wanted dir.dirname (lkl_readdir getdents dir.buffer).0 k, refl)
