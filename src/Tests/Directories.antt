-- ===== src/Tests/Directories.antt =====
-- A directory that the kernel reads in two parts.
use lkl_lklftpd.Base.{ℕ, zero, suc, ◌≡◌, refl, Option, some, List, [], ◌∷◌, arith, text, inr}
use lkl_lklftpd.Dirops.{Dirent, dir_opened, lkl_readdir, read_all}
use lkl_lklftpd.Dirops.Entries.{Reads, all_entries, read_all-all_entries}

abbrev dirent : ℕ → Dirent
dirent n = record { d_ino = n; d_reclen = 24; d_name = text "f" }

abbrev parts : List (List Dirent)
parts = (dirent 1 ∷ dirent 2 ∷ []) ∷ (dirent 3 ∷ []) ∷ []

abbrev kernel : ℕ → Option (List Dirent)
kernel zero = some (dirent 1 ∷ dirent 2 ∷ [])
kernel (suc zero) = some (dirent 3 ∷ [])
kernel (suc (suc n)) = some []

all_three : read_all kernel 9 dir_opened ≡ dirent 1 ∷ dirent 2 ∷ dirent 3 ∷ []
unfolding lkl_readdir
all_three = refl

parts_read : Reads kernel 0 parts
parts_read = (refl, (omega arith, (omega arith, tt)), (refl, (omega arith, tt), inr refl))

read_all-all_entries_example : read_all kernel 9 dir_opened ≡ all_entries parts
read_all-all_entries_example = read_all-all_entries kernel parts 9 parts_read (omega arith)
