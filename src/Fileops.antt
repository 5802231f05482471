-- ===== src/Fileops.antt =====
-- fileops.c: files of the mounted volume, on the calls of the kernel: the file structure, runs, and the
-- flushing of its buffer. The mutex of a file that threads share is left out: a run is of one thread.
pub mod Contents
pub mod View
pub mod Reads
pub mod ReadLoop
pub mod Writes
pub mod WriteLoop
pub mod Buffered
pub mod Seeks
pub mod Reading
pub mod Seeking
pub mod RoundTrip
pub mod Plain
pub mod PlainWrite
pub mod Opens
pub mod Direct
pub mod Open
pub mod Read
pub mod Write
pub mod Seek
use lkl_lklftpd.Base.{
  ℕ, zero, suc, ◌+◌, ◌-◌, ◌*◌, ◌^◌, ◌%◌, Bool, true, false, not, ◌&&◌, ◌||◌, Option, none, some,
  List, [], ◌∷◌, ◌==◌, ltb, leb, if◌then◌else◌, Bytes, length,
}
use lkl_lklftpd.Ascii.{Buffer}
use lkl_lklftpd.Ascii.InPlace.{bytes}
use lkl_lklftpd.Paths.{char_at}
use lkl_lklftpd.System.{ℤ, Halt, OpenFlag}
use lkl_lklftpd.Kernel.{Kernel}
use lkl_lklftpd.Kernel.Word.{is_minus, is_negative, size_of_int}

abbrev pub flag_number : OpenFlag → ℕ
flag_number OpenFlag.read = 0
flag_number OpenFlag.write = 1
flag_number OpenFlag.create = 2
flag_number OpenFlag.append = 3
flag_number OpenFlag.truncate = 4
flag_number OpenFlag.binary = 5
flag_number OpenFlag.largefile = 6
flag_number OpenFlag.sendfile_enabled = 7
flag_number OpenFlag.excl = 8
flag_number OpenFlag.buffered = 9
flag_number OpenFlag.delonclose = 10
flag_number OpenFlag.xthread = 11

-- flags & flag, for the flags as a list of those that are set.
abbrev pub has_flag : OpenFlag → List OpenFlag → Bool
has_flag flag [] = false
has_flag flag (f ∷ rest) = flag_number f == flag_number flag || has_flag flag rest

-- struct lkl_file_t without its pool and the fields that are only set. `writing` is direction == 1,
-- `ungetchar` is `none` for -1, and `thlock` tells whether there is a mutex.
pub record LklFile : Type 0 where
  pub filedes : ℤ
  pub fname : Bytes
  pub flags : List OpenFlag
  pub eof_hit : Bool
  pub timeout : ℤ
  pub buffered : Bool
  pub ungetchar : Option ℕ
  pub buffer : Buffer
  pub bufpos : ℕ
  pub data_read : ℕ
  pub writing : Bool
  pub file_ptr : ℕ
  pub thlock : Bool

-- APR_FILE_BUFSIZE
abbrev pub apr_file_bufsize : ℕ
apr_file_bufsize = 4096

-- An open file and the kernel behind it.
pub record OpenFile (K : Type 0) : Type 0 where
  pub file : LklFile
  pub kernel : K

pub data FileOutcome (K A : Type 0) : Type 0 where
  gives : A → OpenFile K → FileOutcome K A
  stops : Halt → FileOutcome K A

abbrev pub FileRun : Type 0 → Type 0 → Type 0
FileRun K A = OpenFile K → FileOutcome K A

abbrev pub then_run : {K A B : Type 0} → FileOutcome K A → (A → FileRun K B) → FileOutcome K B
then_run (gives a s) f = f a s
then_run (stops why) f = stops why

infixl 5 ◌>>=◌ ◌>>◌
abbrev pub ◌>>=◌ : {K A B : Type 0} → FileRun K A → (A → FileRun K B) → FileRun K B
◌>>=◌ m f s = then_run (m s) f

abbrev pub ◌>>◌ : {K A B : Type 0} → FileRun K A → FileRun K B → FileRun K B
m >> k = m >>= λ _. k

abbrev pub done : {K A : Type 0} → A → FileRun K A
done a s = gives a s

abbrev pub stop : {K A : Type 0} → Halt → FileRun K A
stop why s = stops why

abbrev pub get_file : {K : Type 0} → FileRun K LklFile
get_file s = gives s.file s

abbrev pub set_file : {K : Type 0} → (LklFile → LklFile) → FileRun K (Unit {0})
set_file f s = gives tt (record s { file = f s.file })

-- An offset has 64 bits.
abbrev pub off_add : ℕ → ℕ → ℕ
off_add a b = (a + b) % 2 ^ 64

abbrev pub off_sub : ℕ → ℕ → ℕ
off_sub a b = (a + 2 ^ 64 - b) % 2 ^ 64

-- memcpy of bytes to a place in a buffer.
abbrev pub copy_in : Buffer → ℕ → Bytes → Buffer
copy_in b p xs i =
    if ltb i p then b i else if ltb i (p + length xs) then char_at xs (i - p) else b i

module _ (kern : Kernel) where
  open kern use {K, errors, sys_read, sys_write}

  abbrev pub read_call : ℕ → FileRun K (ℤ × Bytes)
  read_call n s =
      let (rv, got, k) = sys_read s.file.filedes n s.kernel in
      gives (rv, got) (record s { kernel = k })

  abbrev pub write_call : Bytes → FileRun K ℤ
  write_call b s =
      let (rv, k) = sys_write s.file.filedes b s.kernel in gives rv (record s { kernel = k })

  -- do { rv = lkl_sys_write(...); } while (rv == -EINTR);
  unfoldable pub write_retry : ℕ → Bytes → FileRun K ℤ
  write_retry zero b = stop Halt.out_of_fuel
  write_retry (suc fuel) b = do
    rv ← write_call b
    if is_minus rv errors.eintr then write_retry fuel b else done rv

  unfoldable pub read_retry : ℕ → ℕ → FileRun K (ℤ × Bytes)
  read_retry zero n = stop Halt.out_of_fuel
  read_retry (suc fuel) n = do
    (rv, got) ← read_call n
    if is_minus rv errors.eintr then read_retry fuel n else done (rv, got)

  -- Behind the write of a flush.
  abbrev pub flushed : ℤ → FileRun K ℤ
  flushed (ℤ.negsuc e) = done (ℤ.pos errors.apr_einval)
  flushed (ℤ.pos written) = do
    set_file (λ f. record f { file_ptr = off_add f.file_ptr written; bufpos = 0 })
    done (ℤ.pos 0)

  -- lkl_file_flush_locked
  unfoldable pub flush_locked : ℕ → FileRun K ℤ
  unfolding write_retry
  flush_locked fuel = do
    f ← get_file
    if f.writing && not (f.bufpos == 0)
        then (do written ← write_retry fuel (bytes f.buffer 0 f.bufpos); flushed written)
        else done (ℤ.pos 0)

  unfoldable pub lkl_file_flush : ℕ → FileRun K ℤ
  lkl_file_flush fuel = do f ← get_file; if f.buffered then flush_locked fuel else done (ℤ.pos 0)
