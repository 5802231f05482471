-- ===== src/Fileops/Write.antt =====
-- fileops.c: lkl_file_write with and without a buffer, and lkl_file_write_full.
use lkl_lklftpd.Base.{
  ℕ, zero, suc, ◌+◌, ◌-◌, ◌/◌, ◌%◌, ◌^◌, true, false, not, ◌&&◌, ◌==◌, ltb, leb, if◌then◌else◌,
  Bytes, length, take, drop,
}
use lkl_lklftpd.System.{ℤ, Halt}
use lkl_lklftpd.Kernel.{Kernel, Whence}
use lkl_lklftpd.Kernel.Word.{is_zero_int, size_of_int}
use lkl_lklftpd.Fileops.{
  gives, FileRun, ◌>>=◌, ◌>>◌, done, stop, get_file, set_file, off_add, off_sub, apr_file_bufsize,
  copy_in, write_retry, flush_locked,
}
use lkl_lklftpd.Fileops.Read.{min, would_block, wait_for_io}

-- int size = *nbytes; where it is negative the loop is not entered.
abbrev pub int_size : ℕ → ℕ
int_size n = let m = n % 2 ^ 32 in if ltb m (2 ^ 31) then m else 0

module _ (kern : Kernel) where
  open kern use {K, errors}

  abbrev pub lseek_call : ℤ → Whence → FileRun K ℤ
  lseek_call offset whence s =
      let (rv, k) = kern.sys_lseek s.file.filedes offset whence s.kernel in
      gives rv (record s { kernel = k })

  -- The copy of a block from `rest` to the buffer, and its length.
  abbrev pub store_block : Bytes → FileRun K ℕ
  store_block rest s =
      let f = s.file in
      let blocksize = min (length rest) (apr_file_bufsize - f.bufpos) in
      gives blocksize (record s {
        file = record f {
          buffer = copy_in f.buffer f.bufpos (take blocksize rest);
          bufpos = f.bufpos + blocksize;
        };
      })

  -- while (rv == 0 && size > 0), for the bytes that are left.
  unfoldable pub write_blocks : ℕ → ℕ → Bytes → FileRun K ℤ
  unfolding flush_locked
  write_blocks zero fuel rest = stop Halt.out_of_fuel
  write_blocks (suc rounds) fuel rest = if length rest == 0 then done (ℤ.pos 0) else (do
    f ← get_file
    rv ← (if f.bufpos == apr_file_bufsize then flush_locked kern fuel else done (ℤ.pos 0))
    blocksize ← store_block rest
    if is_zero_int rv then write_blocks rounds fuel (drop blocksize rest) else done rv)

  -- The change of a buffer from reading to writing: the offset is that of the next byte to be read. What
  -- lseek returns is not looked at.
  unfoldable pub start_writing : FileRun K (Unit {0})
  start_writing = do
    f ← get_file
    if f.writing then done tt else (do
      let offset = off_add (off_sub f.file_ptr f.data_read) f.bufpos
      if offset == f.file_ptr
          then done tt
          else (do lseek_call (ℤ.pos offset) Whence.seek_set; done tt)
      set_file (λ g. record g { bufpos = 0; data_read = 0; writing = true }))

  -- With a buffer `*nbytes` stays as it is.
  unfoldable pub file_write_buffered : ℕ → Bytes → FileRun K (ℤ × ℕ)
  unfolding start_writing write_blocks
  file_write_buffered fuel buf = do
    start_writing
    let size = int_size (length buf)
    rv ← write_blocks (suc size) fuel (take size buf)
    done (rv, length buf)

  -- while (1), where the wait has succeeded: a call that would block is tried with half the bytes.
  unfoldable pub write_halves : ℕ → Bytes → FileRun K ℤ
  write_halves zero buf = stop Halt.out_of_fuel
  write_halves (suc fuel) buf = do
    rv ← write_retry kern fuel buf
    if would_block kern rv then write_halves fuel (take (length buf / 2) buf) else done rv

  -- Behind the calls of write. `rv` is an apr_size_t, so that it is never below 0.
  abbrev pub direct_written : ℤ → FileRun K (ℤ × ℕ)
  direct_written rv = done (ℤ.pos 0, size_of_int rv)

  -- lkl_file_write, where `buf` is the *nbytes bytes at its pointer.
  unfoldable pub lkl_file_write : ℕ → Bytes → FileRun K (ℤ × ℕ)
  unfolding write_retry write_halves file_write_buffered wait_for_io
  lkl_file_write fuel buf = do
    f ← get_file
    if f.buffered then file_write_buffered fuel buf else (do
      rv ← write_retry kern fuel buf
      if would_block kern rv && not (is_zero_int f.timeout)
          then (do
            arv ← wait_for_io kern fuel false
            if not (is_zero_int arv)
                then done (arv, 0)
                else (do again ← write_halves fuel buf; direct_written again))
          else direct_written rv)

  -- What stands at a pointer that is `at` bytes behind the start of the caller's buffer: a pointer that
  -- has left the buffer leads nowhere.
  abbrev pub bytes_at : Bytes → ℕ → ℕ → FileRun K Bytes
  bytes_at buf at n =
      if leb (at + n) (length buf) then done (take n (drop at buf)) else stop Halt.out_of_bounds

  -- do ... while (status == APR_SUCCESS && nbytes > 0), by the rounds left: `at` is how far `buf` has moved.
  unfoldable pub write_full_rounds : ℕ → ℕ → Bytes → ℕ → ℕ → ℕ → FileRun K (ℤ × ℕ)
  unfolding lkl_file_write
  write_full_rounds zero fuel buf at nbytes total = stop Halt.out_of_fuel
  write_full_rounds (suc rounds) fuel buf at nbytes total = do
    piece ← bytes_at buf at nbytes
    (status, amt) ← lkl_file_write fuel piece
    if is_zero_int status && not (off_sub nbytes amt == 0)
        then write_full_rounds rounds fuel buf (off_add at amt) (off_sub nbytes amt)
            (off_add total amt)
        else done (status, off_add total amt)

  unfoldable pub lkl_file_write_full : ℕ → ℕ → Bytes → FileRun K (ℤ × ℕ)
  unfolding write_full_rounds
  lkl_file_write_full rounds fuel buf = write_full_rounds rounds fuel buf 0 (length buf) 0
