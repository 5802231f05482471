-- ===== src/Filestat.antt =====
-- filestat.c: the permissions, the kinds and the status of files.
pub mod Bits
pub mod Perms
pub mod Calls
pub mod Names
pub mod Attrs
use Prim.Native.Nat.{bit_and, bit_or}
use lkl_lklftpd.Base.{
  ℕ, zero, suc, ◌+◌, ◌-◌, ◌*◌, ◌/◌, ◌%◌, ◌^◌, Bool, true, false, not, ◌||◌, ◌&&◌, Option, none,
  some, List, [], ◌∷◌, ◌==◌, if◌then◌else◌, Bytes,
}
use lkl_lklftpd.System.{ℤ}
use lkl_lklftpd.Kernel.{Kernel, KernelStat}
use lkl_lklftpd.Kernel.Word.{is_zero_int, negated, signed_64}
use lkl_lklftpd.Fileops.{
  LklFile, OpenFile, FileOutcome, gives, FileRun, done, get_file, flush_locked, lkl_file_flush,
  ◌>>=◌,
}
use lkl_lklftpd.Filestat.Bits.{has_bit, with_bit, without_bit}

-- The permissions that both APR and the kernel have a bit for.
pub data PermBit : Type 0 where
  usetid uread uwrite uexecute gsetid gread gwrite gexecute wsticky wread wwrite wexecute : PermBit

-- apr_filetype_e
pub data AprFileType : Type 0 where
  apr_reg apr_dir apr_lnk apr_chr apr_blk apr_pipe apr_sock apr_unkfile : AprFileType

-- The constants of the headers: the places of the bits, the kinds of <sys/stat.h>, and the masks of APR.
pub record StatMacros : Type 0 where
  -- The places of S_ISUID and the others, and of APR_USETID and the others.
  pub mode_bit : PermBit → ℕ
  pub perm_bit : PermBit → ℕ
  -- Whether S_ISVTX is defined.
  pub has_svtx : Bool
  -- mode & S_IFMT, and its values.
  pub ifmt : ℕ → ℕ
  pub s_ifreg : ℕ
  pub s_ifdir : ℕ
  pub s_iflnk : ℕ
  pub s_ifchr : ℕ
  pub s_ifblk : ℕ
  pub s_ifsock : ℕ
  pub s_isfifo : ℕ → Bool
  pub s_issock : ℕ → Bool
  pub finfo_min : ℕ
  pub finfo_ident : ℕ
  pub finfo_nlink : ℕ
  pub finfo_owner : ℕ
  pub finfo_prot : ℕ
  pub finfo_atime : ℕ
  -- The places of APR_FINFO_LINK, APR_FINFO_INODE and APR_FINFO_NAME.
  pub finfo_link : ℕ
  pub finfo_inode : ℕ
  pub finfo_name : ℕ

-- The bits in the order of the code's tests.
abbrev pub perm_bits : Bool → List PermBit
perm_bits svtx =
    PermBit.usetid
    ∷ PermBit.uread
    ∷ PermBit.uwrite
    ∷ PermBit.uexecute
    ∷ PermBit.gsetid
    ∷ PermBit.gread
    ∷ PermBit.gwrite
    ∷ PermBit.gexecute
    ∷ (let others = PermBit.wread ∷ PermBit.wwrite ∷ PermBit.wexecute ∷ [] in
        if svtx then PermBit.wsticky ∷ others else others)

-- if (from & bit) to |= bit; for each of the bits.
abbrev pub copy_bits : (PermBit → ℕ) → (PermBit → ℕ) → List PermBit → ℕ → ℕ → ℕ
copy_bits source goal [] n acc = acc
copy_bits source goal (b ∷ rest) n acc =
    copy_bits source goal rest n (if has_bit (source b) n then with_bit (goal b) acc else acc)

-- apr_finfo_t, with the fields that filestat.c fills.
pub record AprFinfo : Type 0 where
  pub valid : ℕ
  pub protection : ℕ
  pub filetype : AprFileType
  pub size : ℕ
  pub inode : ℕ
  pub device : ℕ
  pub nlink : ℕ
  pub atime : ℤ
  pub mtime : ℤ
  pub ctime : ℤ

-- APR_USEC_PER_SEC times a time, in an apr_time_t of 64 bits.
abbrev pub usec_of : ℤ → ℤ
usec_of (ℤ.pos n) = signed_64 (n * 1000000 % 2 ^ 64)
usec_of (ℤ.negsuc n) = signed_64 ((2 ^ 64 - suc n * 1000000 % 2 ^ 64) % 2 ^ 64)

-- wanted & ~valid, for flags of 32 bits.
abbrev pub flags_left : ℕ → ℕ → ℕ
flags_left wanted valid = bit_and wanted (2 ^ 32 - 1 - valid)

module _ (macros : StatMacros) where
  open macros use {mode_bit, perm_bit, has_svtx}

  unfoldable pub lkl_unix_mode2perms : ℕ → ℕ
  lkl_unix_mode2perms mode = copy_bits mode_bit perm_bit (perm_bits has_svtx) mode 0

  unfoldable pub lkl_unix_perms2mode : ℕ → ℕ
  lkl_unix_perms2mode perms = copy_bits perm_bit mode_bit (perm_bits has_svtx) perms 0

  unfoldable pub filetype_from_mode : ℕ → AprFileType
  filetype_from_mode mode =
      let kind = macros.ifmt mode in
      if kind == macros.s_ifreg
      then AprFileType.apr_reg
      else if kind == macros.s_ifdir
      then AprFileType.apr_dir
      else if kind == macros.s_iflnk
      then AprFileType.apr_lnk
      else if kind == macros.s_ifchr
      then AprFileType.apr_chr
      else if kind == macros.s_ifblk
      then AprFileType.apr_blk
      else if kind == macros.s_ifsock
      then AprFileType.apr_sock
      else if macros.s_isfifo mode
      then AprFileType.apr_pipe
      else if macros.s_issock mode
      then AprFileType.apr_sock
      else AprFileType.apr_unkfile

  abbrev pub finfo_valid : ℕ
  finfo_valid =
      bit_or
        (bit_or (bit_or (bit_or macros.finfo_min macros.finfo_ident) macros.finfo_nlink)
          macros.finfo_owner)
        macros.finfo_prot

  unfoldable pub fill_out_finfo : KernelStat → AprFinfo
  fill_out_finfo info = record {
    valid = finfo_valid;
    protection = lkl_unix_mode2perms info.st_mode;
    filetype = filetype_from_mode info.st_mode;
    size = info.st_size;
    inode = info.st_ino;
    device = info.st_dev;
    nlink = info.st_nlink;
    atime = usec_of info.st_atime;
    mtime = usec_of info.st_mtime;
    ctime = usec_of info.st_ctime;
  }

  -- (wanted & ~finfo->valid) != 0
  abbrev pub more_wanted : ℕ → Bool
  more_wanted wanted = not (flags_left wanted finfo_valid == 0)
