-- ===== src/Fileops/View.antt =====
-- What a buffered file stands for: a content and a place in it. The runs of fileops.c are related to it
-- by an invariant for each of the two directions of the buffer.
use lkl_lklftpd.Base.{ℕ, ◌+◌, ◌-◌, ◌^◌, ◌≤◌, ◌<◌, ◌≡◌, true, false, none, Bytes, length}
use lkl_lklftpd.Ascii.InPlace.{bytes}
use lkl_lklftpd.Paths.{char_at}
use lkl_lklftpd.Kernel.{Kernel}
use lkl_lklftpd.System.{ℤ}
use lkl_lklftpd.Kernel.Laws.{FileView, overwrite}
use lkl_lklftpd.Fileops.{OpenFile, FileOutcome, gives, stops, FileRun, then_run, apr_file_bufsize}

-- The run has returned, with a property of its result and of the state that it leaves.
abbrev pub Holds : {K A : Type 0} → (A → OpenFile K → Type 0) → FileOutcome K A → Type 0
Holds P (gives a s) = P a s
Holds P (stops why) = ⊥

pub Holds-then :
    {K A B : Type 0} (P : A → OpenFile K → Type 0) (Q : B → OpenFile K → Type 0)
    (m : FileOutcome K A) (f : A → FileRun K B)
    → Holds P m
    → ((a : A) (s : OpenFile K) → P a s → Holds Q (f a s))
    → Holds Q (then_run m f)
Holds-then P Q (gives a s) f h next = next a s h
Holds-then P Q (stops why) f h next = elim h [ ]

pub Holds-weaken :
    {K A : Type 0} (P Q : A → OpenFile K → Type 0) (m : FileOutcome K A)
    → Holds P m
    → ((a : A) (s : OpenFile K) → P a s → Q a s)
    → Holds Q m
Holds-weaken P Q (gives a s) h next = next a s h
Holds-weaken P Q (stops why) h next = h

-- The buffer holds the bytes of the file before the kernel's offset.
pub record IsReading (kern : Kernel) (fd : ℤ) (view : FileView kern.K) (content : Bytes) (place : ℕ)
    (s : OpenFile kern.K) : Type 0 where
  pub same_file : s.file.filedes ≡ fd
  pub is_buffered : s.file.buffered ≡ true
  pub not_writing : s.file.writing ≡ false
  pub no_unget : s.file.ungetchar ≡ none
  pub stored : view.content s.kernel ≡ content
  pub offset : view.offset s.kernel ≡ s.file.file_ptr
  pub within : s.file.bufpos ≤ s.file.data_read
  pub start : s.file.data_read ≤ s.file.file_ptr
  pub at : place + s.file.data_read ≡ s.file.file_ptr + s.file.bufpos
  pub window :
      (i : ℕ)
      → i < s.file.data_read
      → s.file.buffer i ≡ char_at content (s.file.file_ptr - s.file.data_read + i)
  pub fits : 0 < s.file.data_read → s.file.file_ptr ≤ length content
  pub small : s.file.file_ptr < 2 ^ 63
  pub size : length content < 2 ^ 63

-- The buffer holds bytes that are still to be written at the kernel's offset. The file's own offset is
-- `drift` bytes further.
pub record IsWriting (kern : Kernel) (fd : ℤ) (view : FileView kern.K) (drift : ℕ) (content : Bytes)
    (place : ℕ) (s : OpenFile kern.K) : Type 0 where
  pub same_file : s.file.filedes ≡ fd
  pub is_buffered : s.file.buffered ≡ true
  pub is_writing : s.file.writing ≡ true
  pub no_unget : s.file.ungetchar ≡ none
  pub nothing_read : s.file.data_read ≡ 0
  pub stored :
      overwrite (view.content s.kernel) (view.offset s.kernel) (bytes s.file.buffer 0 s.file.bufpos)
      ≡ content
  pub offset : s.file.file_ptr ≡ view.offset s.kernel + drift
  pub within : s.file.bufpos ≤ apr_file_bufsize
  pub at : place ≡ view.offset s.kernel + s.file.bufpos
  pub small : place + drift < 2 ^ 63
  pub size : length content < 2 ^ 63
