-- ===== src/Dirops.antt =====
-- dirops.c: the buffer of directory entries. The kernel's getdents is a parameter.
pub mod Entries
pub mod Handles
pub mod Read
use lkl_lklftpd.Base.{
  ℕ, zero, suc, ◌+◌, ◌-◌, Bool, true, false, Option, none, some, List, [], ◌∷◌, ltb, if◌then◌else◌,
  Bytes,
}

-- struct __kernel_dirent
pub record Dirent : Type 0 where
  pub d_ino : ℕ
  pub d_reclen : ℕ
  pub d_name : Bytes

-- The bytes that entries take.
abbrev pub bytes_of : List Dirent → ℕ
bytes_of [] = 0
bytes_of (de ∷ rest) = de.d_reclen + bytes_of rest

-- lkl_dir_t; `data` is the entries that the buffer holds one behind the other, and `calls` how often
-- getdents has been called for the descriptor.
pub record DirBuffer : Type 0 where
  pub data_entries : List Dirent
  pub size : ℕ
  pub offset : ℕ
  pub calls : ℕ

-- The fields that lkl_dir_open sets.
abbrev pub dir_opened : DirBuffer
dir_opened = record { data_entries = []; size = 0; offset = 0; calls = 0 }

-- The entry that starts at a byte of the buffer: `none` where none starts there.
abbrev pub entry_at : List Dirent → ℕ → Option Dirent
entry_at [] offset = none
entry_at (de ∷ rest) offset =
    let further = entry_at rest (offset - de.d_reclen) in
    if ltb offset de.d_reclen then some de else further

-- Behind the refill: the entry at the offset, which moves on by its length.
abbrev pub next_entry : DirBuffer → Option Dirent → Option Dirent × DirBuffer
next_entry dir none = (none, dir)
next_entry dir (some de) = (some de, record dir { offset = dir.offset + de.d_reclen })

-- Behind getdents: `none` where it fails, and the entries that it has read.
abbrev pub refilled : DirBuffer → Option (List Dirent) → Option Dirent × DirBuffer
refilled dir none = (none, dir)
refilled dir (some []) = (none, dir)
refilled dir (some (de ∷ rest)) =
    let full = record dir { data_entries = de ∷ rest; size = bytes_of (de ∷ rest); offset = 0 } in
    next_entry full (entry_at full.data_entries full.offset)

module _ (getdents : ℕ → Option (List Dirent)) where
  unfoldable pub lkl_readdir : DirBuffer → Option Dirent × DirBuffer
  lkl_readdir dir =
      if ltb dir.offset dir.size
      then next_entry dir (entry_at dir.data_entries dir.offset)
      else refilled (record dir { calls = dir.calls + 1 }) (getdents dir.calls)

  -- What a client of lkl_readdir does until it gives NULL, for the tests and theorems.
  abbrev pub read_on : (DirBuffer → List Dirent) → Option Dirent × DirBuffer → List Dirent
  read_on again (none, dir) = []
  read_on again (some de, dir) = de ∷ again dir

  abbrev pub read_all : ℕ → DirBuffer → List Dirent
  read_all zero dir = []
  read_all (suc fuel) dir = read_on (read_all fuel) (lkl_readdir dir)
