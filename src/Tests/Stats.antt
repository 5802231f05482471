-- ===== src/Tests/Stats.antt =====
-- The constants of Linux and of APR, and a file that is made read-only.
use Prim.Native.Nat.{bit_and}
use lkl_lklftpd.Base.{
  ℕ, ◌≡◌, refl, sym, ap, ◌∙◌, true, false, ◌&&◌, Option, some, List, [], ◌∷◌, ◌==◌, text,
}
use lkl_lklftpd.System.{ℤ}
use lkl_lklftpd.Dirops.{Dirent, dir_opened, lkl_readdir}
use lkl_lklftpd.Dirops.Handles.{LklDir}
use lkl_lklftpd.Dirops.Read.{ReadsEntry, lkl_dir_read, lkl_dir_read-entry}
use lkl_lklftpd.Filestat.{PermBit, StatMacros, perm_bits, lkl_unix_mode2perms, lkl_unix_perms2mode}
use lkl_lklftpd.Filestat.Calls.{FileAttrs}
use lkl_lklftpd.Filestat.Bits.{has_bit}
use lkl_lklftpd.Filestat.Perms.{IsDistinct, any, lkl_unix_perms2mode-mode2perms}
use lkl_lklftpd.Filestat.Names.{nth}
use lkl_lklftpd.Tests.Files.{kernel, hello}

abbrev s_bit : PermBit → ℕ
s_bit PermBit.usetid = 11
s_bit PermBit.uread = 8
s_bit PermBit.uwrite = 7
s_bit PermBit.uexecute = 6
s_bit PermBit.gsetid = 10
s_bit PermBit.gread = 5
s_bit PermBit.gwrite = 4
s_bit PermBit.gexecute = 3
s_bit PermBit.wsticky = 9
s_bit PermBit.wread = 2
s_bit PermBit.wwrite = 1
s_bit PermBit.wexecute = 0

abbrev apr_bit : PermBit → ℕ
apr_bit PermBit.usetid = 15
apr_bit PermBit.uread = 10
apr_bit PermBit.uwrite = 9
apr_bit PermBit.uexecute = 8
apr_bit PermBit.gsetid = 14
apr_bit PermBit.gread = 6
apr_bit PermBit.gwrite = 5
apr_bit PermBit.gexecute = 4
apr_bit PermBit.wsticky = 13
apr_bit PermBit.wread = 2
apr_bit PermBit.wwrite = 1
apr_bit PermBit.wexecute = 0

abbrev s_bit_names : List PermBit
s_bit_names =
    PermBit.wexecute ∷ PermBit.wwrite ∷ PermBit.wread ∷ PermBit.gexecute ∷ PermBit.gwrite
    ∷ PermBit.gread ∷ PermBit.uexecute ∷ PermBit.uwrite ∷ PermBit.uread ∷ PermBit.wsticky
    ∷ PermBit.gsetid ∷ PermBit.usetid ∷ []

s_bit-named : (b : PermBit) → nth (s_bit b) s_bit_names ≡ b
s_bit-named PermBit.usetid = refl
s_bit-named PermBit.uread = refl
s_bit-named PermBit.uwrite = refl
s_bit-named PermBit.uexecute = refl
s_bit-named PermBit.gsetid = refl
s_bit-named PermBit.gread = refl
s_bit-named PermBit.gwrite = refl
s_bit-named PermBit.gexecute = refl
s_bit-named PermBit.wsticky = refl
s_bit-named PermBit.wread = refl
s_bit-named PermBit.wwrite = refl
s_bit-named PermBit.wexecute = refl

s_bit-IsDistinct : IsDistinct s_bit
s_bit-IsDistinct a b e = sym (s_bit-named a) ∙ ap (λ i. nth i s_bit_names) e ∙ s_bit-named b

abbrev apr_bit_names : List PermBit
apr_bit_names =
    PermBit.wexecute ∷ PermBit.wwrite ∷ PermBit.wread ∷ PermBit.usetid ∷ PermBit.gexecute
    ∷ PermBit.gwrite ∷ PermBit.gread ∷ PermBit.usetid ∷ PermBit.uexecute ∷ PermBit.uwrite
    ∷ PermBit.uread ∷ PermBit.usetid ∷ PermBit.usetid ∷ PermBit.wsticky ∷ PermBit.gsetid
    ∷ PermBit.usetid ∷ []

apr_bit-named : (b : PermBit) → nth (apr_bit b) apr_bit_names ≡ b
apr_bit-named PermBit.usetid = refl
apr_bit-named PermBit.uread = refl
apr_bit-named PermBit.uwrite = refl
apr_bit-named PermBit.uexecute = refl
apr_bit-named PermBit.gsetid = refl
apr_bit-named PermBit.gread = refl
apr_bit-named PermBit.gwrite = refl
apr_bit-named PermBit.gexecute = refl
apr_bit-named PermBit.wsticky = refl
apr_bit-named PermBit.wread = refl
apr_bit-named PermBit.wwrite = refl
apr_bit-named PermBit.wexecute = refl

apr_bit-IsDistinct : IsDistinct apr_bit
apr_bit-IsDistinct a b e = sym (apr_bit-named a) ∙ ap (λ i. nth i apr_bit_names) e ∙ apr_bit-named b

abbrev pub linux : StatMacros
linux = record {
  mode_bit = s_bit;
  perm_bit = apr_bit;
  has_svtx = true;
  ifmt = λ mode. bit_and mode 61440;
  s_ifreg = 32768;
  s_ifdir = 16384;
  s_iflnk = 40960;
  s_ifchr = 8192;
  s_ifblk = 24576;
  s_ifsock = 49152;
  s_isfifo = λ mode. bit_and mode 61440 == 4096;
  s_issock = λ mode. bit_and mode 61440 == 49152;
  finfo_min = 33136;
  finfo_ident = 12288;
  finfo_nlink = 2048;
  finfo_owner = 196608;
  finfo_prot = 7340032;
  finfo_atime = 64;
  finfo_link = 0;
  finfo_inode = 12;
  finfo_name = 25;
}

lkl_unix_perms2mode-mode2perms_example :
    has_bit 8 (lkl_unix_perms2mode linux (lkl_unix_mode2perms linux 33188))
    ≡ (has_bit 8 33188 && any (λ b. s_bit b == 8) (perm_bits true))
lkl_unix_perms2mode-mode2perms_example =
    lkl_unix_perms2mode-mode2perms linux s_bit-IsDistinct apr_bit-IsDistinct 33188 8

abbrev read_only : FileAttrs
read_only = record { readonly = true; executable = false }

abbrev entries : ℕ → Option (List Dirent)
entries calls = some (record { d_ino = 7; d_reclen = 24; d_name = text "f" } ∷ [])

abbrev directory : LklDir
directory = record { dirname = text "d"; fd = ℤ.pos 4; buffer = dir_opened }

lkl_dir_read-entry_example :
    let (rc, info, dir', k') =
      lkl_dir_read linux 4294967295 4096 kernel entries 33554432 directory (hello, 0) in
    let (entry, buffer) = lkl_readdir entries dir_opened in
    ReadsEntry linux 4294967295 4096 kernel entries entry rc info × (dir'.buffer ≡ buffer)
lkl_dir_read-entry_example =
    lkl_dir_read-entry linux 4294967295 4096 kernel entries 33554432 directory (hello, 0)
