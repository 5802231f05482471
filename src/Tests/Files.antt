-- ===== src/Tests/Files.antt =====
-- A kernel with one file in memory, and a buffered file on it.
use lkl_lklftpd.Base.{
  ℕ, zero, suc, ◌+◌, ◌-◌, ◌^◌, ◌≤◌, ◌<◌, ◌≡◌, refl, sym, ap, Bool, true, false, inl, none, [], ◌∷◌,
  arith, text, Bytes, length, take, drop,
}
use lkl_lklftpd.System.{ℤ}
use lkl_lklftpd.Kernel.{Kernel, KernelStat, Errors, Whence}
use lkl_lklftpd.Kernel.Laws.{FileView, ReadAnswer, SeekAnswer, IsFile, overwrite}
use lkl_lklftpd.Fileops.{LklFile, OpenFile, gives, ◌>>=◌}
use lkl_lklftpd.Fileops.Contents.{take-all}
use lkl_lklftpd.Fileops.View.{Holds, IsReading}
use lkl_lklftpd.Fileops.Writes.{WritesWhole}
use lkl_lklftpd.Fileops.Buffered.{SeeksWork, WrittenAt, lkl_file_write-WrittenAt}
use lkl_lklftpd.Fileops.Reading.{ReadFrom, lkl_file_read-ReadFrom}
use lkl_lklftpd.Fileops.Seeking.{SizesAgree, Sought, lkl_file_seek-Sought}
use lkl_lklftpd.Fileops.RoundTrip.{ReadsWork, write_seek_read-gives}
use lkl_lklftpd.Fileops.Direct.{lkl_file_write-failed}
use lkl_lklftpd.Fileops.Read.{lkl_file_read}
use lkl_lklftpd.Fileops.Write.{lkl_file_write}
use lkl_lklftpd.Fileops.Seek.{lkl_file_seek}

abbrev pub codes : Errors
codes = record {
  eintr = 4;
  eagain = 11;
  ewouldblock = 11;
  einval = 22;
  apr_einval = 22;
  apr_eacces = 13;
  apr_enoent = 2;
  apr_eof = 70014;
  apr_timeup = 70007;
  apr_incomplete = 70008;
}

abbrev stat_of : ℕ → KernelStat
stat_of size = record {
  st_mode = 33188;
  st_size = size;
  st_ino = 7;
  st_dev = 1;
  st_nlink = 1;
  st_atime = ℤ.pos 0;
  st_mtime = ℤ.pos 0;
  st_ctime = ℤ.pos 0;
}

abbrev Memory : Type 0
Memory = Bytes × ℕ

abbrev seek_memory : ℤ → Whence → Memory → ℤ × Memory
seek_memory (ℤ.pos p) Whence.seek_set (c, o) = (ℤ.pos p, (c, p))
seek_memory place whence k = (ℤ.negsuc 21, k)

abbrev read_memory : ℕ → Memory → ℤ × Bytes × Memory
read_memory n (c, o) = let got = take n (drop o c) in (ℤ.pos (length got), got, (c, o + length got))

-- Writes fail where the flag says so.
abbrev kernel_with : Bool → Kernel
kernel_with full = record {
  K = Memory;
  errors = codes;
  sys_read = λ fd n k. read_memory n k;
  sys_write = λ fd b k. elim full [
    | true ↦ (ℤ.negsuc 27, k)
    | false ↦ (ℤ.pos (length b), (overwrite k.0 k.1 b, k.1 + length b))
  ];
  sys_lseek = λ fd place whence k. seek_memory place whence k;
  sys_poll = λ fd r t k. (ℤ.pos 1, k);
  sys_open = λ name flags mode k. (ℤ.pos 3, k);
  sys_close = λ fd k. (ℤ.pos 0, k);
  sys_unlink = λ name k. (ℤ.pos 0, k);
  sys_rename = λ a b k. (ℤ.pos 0, k);
  sys_flock = λ fd flags k. (ℤ.pos 0, k);
  sys_newstat = λ name k. (ℤ.pos 0, stat_of (length k.0), k);
  sys_newlstat = λ name k. (ℤ.pos 0, stat_of (length k.0), k);
  sys_newfstat = λ fd k. (ℤ.pos 0, stat_of (length k.0), k);
  sys_chmod = λ name mode k. (ℤ.pos 0, k);
  sys_utimes = λ name a b k. (ℤ.pos 0, k);
  thread_mutex_create = λ k. (ℤ.pos 0, k);
  thread_mutex_destroy = λ k. (ℤ.pos 0, k);
  largefile64_source = true;
  has_o_binary = false;
  sys_mkdir = λ name mode k. (ℤ.pos 0, k);
  sys_rmdir = λ name k. (ℤ.pos 0, k);
}

abbrev pub kernel : Kernel
kernel = kernel_with false

abbrev pub memory_view : FileView Memory
memory_view = record { content = λ k. k.0; offset = λ k. k.1 }

length-take_le : (n : ℕ) (xs : Bytes) → length (take n xs) ≤ n
length-take_le zero xs = omega arith
length-take_le (suc n) [] = omega arith
length-take_le (suc n) (x ∷ xs) = omega (arith, length-take_le n xs)

take-length : (n : ℕ) (xs : Bytes) → take n xs ≡ take (length (take n xs)) xs
take-length zero xs = refl
take-length (suc n) [] = refl
take-length (suc n) (x ∷ xs) = ap (λ t. x ∷ t) (take-length n xs)

nothing_taken : (n : ℕ) (xs : Bytes) → 0 < n → length (take n xs) ≡ 0 → xs ≡ []
nothing_taken zero xs h e = ground arith
nothing_taken (suc n) [] h e = refl
nothing_taken (suc n) (x ∷ xs) h e = ground (arith, e)

read_memory-ReadAnswer : (n : ℕ) (k : Memory) → 0 < n → ReadAnswer memory_view n k (read_memory n k)
read_memory-ReadAnswer n (c, o) h = (
  refl,
  length-take_le n (drop o c),
  take-length n (drop o c),
  nothing_taken n (drop o c) h,
  refl,
  refl,
)

seek_memory-SeekAnswer :
    (place : ℤ) (k : Memory) → SeekAnswer memory_view place k (seek_memory place Whence.seek_set k)
seek_memory-SeekAnswer (ℤ.pos p) (c, o) = (refl, refl, refl)
seek_memory-SeekAnswer (ℤ.negsuc p) k = (refl, refl)

pub memory-IsFile : IsFile kernel (ℤ.pos 3) memory_view
memory-IsFile = record {
  reads = read_memory-ReadAnswer;
  writes = λ b k. (omega arith, ap (overwrite k.0 k.1) (sym (take-all b)), refl);
  seeks = seek_memory-SeekAnswer;
}

writes_whole : WritesWhole kernel (ℤ.pos 3)
writes_whole b k = refl

seeks_work : SeeksWork kernel (ℤ.pos 3)
seeks_work p k h = refl

sizes_agree : SizesAgree kernel (ℤ.pos 3) memory_view
sizes_agree k = (refl, refl, refl, refl)

reads_work : ReadsWork kernel (ℤ.pos 3)
reads_work k = refl

abbrev fresh : Bool → LklFile
fresh buffered = record {
  filedes = ℤ.pos 3;
  fname = text "f";
  flags = [];
  eof_hit = false;
  timeout = ℤ.negsuc 0;
  buffered = buffered;
  ungetchar = none;
  buffer = λ i. 0;
  bufpos = 0;
  data_read = 0;
  writing = false;
  file_ptr = 0;
  thlock = false;
}

abbrev pub hello : Bytes
hello = 104 ∷ 101 ∷ 108 ∷ 108 ∷ 111 ∷ []

abbrev opened : OpenFile Memory
opened = record { file = fresh true; kernel = (hello, 0) }

opened-IsReading : IsReading kernel (ℤ.pos 3) memory_view hello 0 opened
opened-IsReading = record {
  same_file = refl;
  is_buffered = refl;
  not_writing = refl;
  no_unget = refl;
  stored = refl;
  offset = refl;
  within = omega arith;
  start = omega arith;
  at = refl;
  window = λ i l. ground arith;
  fits = λ l. ground arith;
  small = omega arith;
  size = omega arith;
}

lkl_file_read-ReadFrom_example :
    Holds (ReadFrom kernel (ℤ.pos 3) memory_view hello 0 2) (lkl_file_read kernel 1 2 opened)
lkl_file_read-ReadFrom_example =
    lkl_file_read-ReadFrom kernel (ℤ.pos 3) memory_view memory-IsFile writes_whole (omega arith) 0 2
      hello 0 opened (omega arith) (inl opened-IsReading)

lkl_file_write-WrittenAt_example :
    Holds
      (WrittenAt kernel (ℤ.pos 3) memory_view hello 0 0 (72 ∷ 73 ∷ []))
      (lkl_file_write kernel 1 (72 ∷ 73 ∷ []) opened)
lkl_file_write-WrittenAt_example =
    lkl_file_write-WrittenAt kernel (ℤ.pos 3) memory_view memory-IsFile seeks_work writes_whole 0
      (72 ∷ 73 ∷ []) hello 0 opened (omega arith) (omega arith) (inl opened-IsReading)

lkl_file_seek-Sought_example :
    Holds
      (Sought kernel (ℤ.pos 3) memory_view hello 4)
      (lkl_file_seek kernel 1 Whence.seek_end (ℤ.negsuc 0) opened)
lkl_file_seek-Sought_example =
    lkl_file_seek-Sought kernel (ℤ.pos 3) memory_view memory-IsFile writes_whole seeks_work
      sizes_agree 0 Whence.seek_end (ℤ.negsuc 0) hello 0 4 opened (omega arith) refl
      (inl opened-IsReading)

write_seek_read-gives_example :
    Holds
      (λ answer _. (answer.0 ≡ ℤ.pos 0) × (answer.2 ≡ 72 ∷ 73 ∷ []))
      ((lkl_file_write kernel 1 (72 ∷ 73 ∷ []) >>= λ _.
          lkl_file_seek kernel 1 Whence.seek_set (ℤ.pos 0) >>= λ _. lkl_file_read kernel 1 2)
        opened)
write_seek_read-gives_example =
    write_seek_read-gives kernel (ℤ.pos 3) memory_view memory-IsFile writes_whole seeks_work
      sizes_agree reads_work (omega arith) 0 (72 ∷ 73 ∷ []) hello 0 opened (omega arith)
      (omega arith) (omega arith) refl (inl opened-IsReading)

abbrev pub unbuffered : OpenFile Memory
unbuffered = record { file = fresh false; kernel = (hello, 0) }

lkl_file_write-failed_example :
    lkl_file_write (kernel_with true) 1 (72 ∷ []) unbuffered
    ≡ gives (ℤ.pos 0, 2 ^ 64 - 28) unbuffered
lkl_file_write-failed_example =
    lkl_file_write-failed (kernel_with true) 0 (72 ∷ []) unbuffered 27 refl refl (omega arith)
      (λ e. ground (arith, e)) (λ e. ground (arith, e)) (λ e. ground (arith, e))
