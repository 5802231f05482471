-- ===== src/Fileops/Seek.antt =====
-- fileops.c: lkl_file_seek.
use lkl_lklftpd.Base.{ℕ, ◌-◌, false, not, ◌&&◌, Option, none, some, leb, if◌then◌else◌}
use lkl_lklftpd.System.{ℤ}
use lkl_lklftpd.Kernel.{Kernel, Whence}
use lkl_lklftpd.Kernel.Word.{is_negative, is_zero_int, negated, to_int, add_offset}
use lkl_lklftpd.Fileops.{
  LklFile, gives, FileRun, ◌>>=◌, ◌>>◌, done, get_file, set_file, off_add, off_sub, flush_locked,
}
use lkl_lklftpd.Fileops.Write.{lseek_call}

-- newbufpos, where it is neither negative nor behind the valid bytes of the buffer.
abbrev pub place_in_buffer : LklFile → ℤ → Option ℕ
place_in_buffer f (ℤ.negsuc p) = none
place_in_buffer f (ℤ.pos p) =
    let base = off_sub f.file_ptr f.data_read in
    if leb base p && leb (p - base) f.data_read then some (p - base) else none

-- thefile->filePtr - thefile->dataRead + thefile->bufpos
abbrev pub logical_offset : LklFile → ℕ
logical_offset f = off_add (off_sub f.file_ptr f.data_read) f.bufpos

abbrev pub place_of : ℤ → ℕ
place_of (ℤ.pos p) = p
place_of (ℤ.negsuc p) = 0

module _ (kern : Kernel) where
  open kern use {K, errors}

  -- The move in the file: what lseek returns is kept in an int.
  abbrev pub move_to : ℤ → ℤ → FileRun K ℤ
  move_to place moved =
      let rv = to_int moved in
      if is_negative rv then done (negated rv) else (do
        set_file (λ f. record f { bufpos = 0; data_read = 0; file_ptr = place_of place })
        done (ℤ.pos 0))

  -- By the place in the buffer, where it has one.
  abbrev pub placed : ℤ → Option ℕ → FileRun K ℤ
  placed place (some newbufpos) = do set_file (λ g. record g { bufpos = newbufpos }); done (ℤ.pos 0)
  placed place none = do rv ← lseek_call kern place Whence.seek_set; move_to place rv

  -- setptr, behind the flush.
  unfoldable pub set_place : ℤ → FileRun K ℤ
  set_place place = do f ← get_file; placed place (place_in_buffer f place)

  unfoldable pub setptr : ℕ → ℤ → FileRun K ℤ
  unfolding set_place flush_locked
  setptr fuel place = do
    f ← get_file
    rv ← (if f.writing then flush_locked kern fuel else done (ℤ.pos 0))
    if not (is_zero_int rv) then done rv else (do
      if f.writing
          then set_file (λ g. record g { bufpos = 0; writing = false; data_read = 0 })
          else done tt
      set_place place)

  -- The size of the file, as lkl_file_info_get_locked behind its flush gives it for APR_FINFO_SIZE, which is
  -- one of the flags that it always fills.
  abbrev pub file_size : FileRun K (ℤ × ℕ)
  file_size s =
      let (rc, info, k) = kern.sys_newfstat s.file.filedes s.kernel in
      gives (rc, info.st_size) (record s { kernel = k })

  -- With a buffer, by the place to start from.
  abbrev pub seek_buffered : ℕ → Whence → ℤ → FileRun K ℤ
  seek_buffered fuel Whence.seek_set offset = setptr fuel offset
  seek_buffered fuel Whence.seek_cur offset = do
    f ← get_file
    setptr fuel (add_offset (logical_offset f) offset)
  seek_buffered fuel Whence.seek_end offset = do
    rv ← flush_locked kern fuel
    if not (is_zero_int rv) then done rv else (do
      (rc, size) ← file_size
      if is_zero_int rc then setptr fuel (add_offset size offset) else done rc)

  abbrev pub seek_direct : ℤ → FileRun K (ℤ × ℤ)
  seek_direct rv = if is_negative rv then done (negated rv, ℤ.negsuc 0) else done (ℤ.pos 0, rv)

  -- With the offset that is left in `*offset`.
  unfoldable pub lkl_file_seek : ℕ → Whence → ℤ → FileRun K (ℤ × ℤ)
  unfolding setptr
  lkl_file_seek fuel whence offset = do
    set_file (λ f. record f { eof_hit = false })
    f ← get_file
    if f.buffered
        then (do
          rc ← seek_buffered fuel whence offset
          g ← get_file
          done (rc, ℤ.pos (logical_offset g)))
        else (do rv ← lseek_call kern offset whence; seek_direct rv)
