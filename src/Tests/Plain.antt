-- ===== src/Tests/Plain.antt =====
-- A file in memory without a buffer, and the opening of one.
use lkl_lklftpd.Base.{refl, ne→==, arith, [], ◌∷◌, List, length}
use lkl_lklftpd.System.{ℤ, OpenFlag}
use lkl_lklftpd.Kernel.{Kernel}
use lkl_lklftpd.Fileops.View.{Holds}
use lkl_lklftpd.Fileops.Plain.{CodesSet, IsPlain, ReadAll, lkl_file_read_full-ReadAll}
use lkl_lklftpd.Fileops.PlainWrite.{WritesSome, WroteAll, lkl_file_write_full-WroteAll}
use lkl_lklftpd.Fileops.Read.{lkl_file_read_full}
use lkl_lklftpd.Fileops.Write.{lkl_file_write_full}
use lkl_lklftpd.Tests.Files.{codes, kernel, hello, memory_view, memory-IsFile, unbuffered}

unbuffered-IsPlain : IsPlain kernel (ℤ.pos 3) memory_view hello 0 unbuffered
unbuffered-IsPlain = record {
  same_file = refl;
  no_buffer = refl;
  no_unget = refl;
  stored = refl;
  offset = refl;
}

codes_set : CodesSet codes
codes_set = (omega arith, omega arith, omega arith, omega arith)

writes_some : WritesSome kernel (ℤ.pos 3)
writes_some b k h = (refl, ne→== (length b) 0 (omega arith))

lkl_file_read_full-ReadAll_example :
    Holds
      (ReadAll kernel (ℤ.pos 3) memory_view hello 0 9)
      (lkl_file_read_full kernel 9 1 9 unbuffered)
lkl_file_read_full-ReadAll_example =
    lkl_file_read_full-ReadAll kernel (ℤ.pos 3) memory_view memory-IsFile codes_set (λ n k. refl) 9
      0 9 hello 0 unbuffered (omega arith) (omega arith) (omega arith) unbuffered-IsPlain

lkl_file_write_full-WroteAll_example :
    Holds
      (WroteAll kernel (ℤ.pos 3) memory_view hello 0 (72 ∷ 73 ∷ []) 2)
      (lkl_file_write_full kernel 2 1 (72 ∷ 73 ∷ []) unbuffered)
lkl_file_write_full-WroteAll_example =
    lkl_file_write_full-WroteAll kernel (ℤ.pos 3) memory_view memory-IsFile codes_set writes_some 2
      0 (72 ∷ 73 ∷ []) hello 0 unbuffered (omega arith) (omega arith) (omega arith)
      unbuffered-IsPlain

-- An open truncates nothing here, and starts at the first byte.
abbrev opening : Kernel
opening = record kernel { sys_open = λ fname oflags mode k. (ℤ.pos 3, (hello, 0)) }

abbrev for_reading : List OpenFlag
for_reading = OpenFlag.read ∷ OpenFlag.buffered ∷ []
