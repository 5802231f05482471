-- ===== src/Fileops/Read.antt =====
-- fileops.c: lkl_file_read with and without a buffer, lkl_file_read_full, and the waiting for a file.
-- A reading function gives its status, what it leaves in `*nbytes`, and the bytes that it has stored.
use lkl_lklftpd.Base.{
  ℕ, zero, suc, ◌+◌, ◌-◌, ◌/◌, Bool, true, false, not, ◌&&◌, ◌||◌, Option, none, some, [], ◌∷◌,
  ◌++◌, ◌==◌, ltb, leb, if◌then◌else◌, Bytes, length,
}
use lkl_lklftpd.Ascii.InPlace.{bytes}
use lkl_lklftpd.System.{ℤ, Halt}
use lkl_lklftpd.Kernel.{Kernel}
use lkl_lklftpd.Kernel.Word.{is_minus, is_negative, is_zero_int, negated}
use lkl_lklftpd.Fileops.{
  gives, FileRun, ◌>>=◌, ◌>>◌, done, stop, get_file, set_file, off_add, off_sub, apr_file_bufsize,
  copy_in, read_call, read_retry, flush_locked,
}

abbrev pub min : ℕ → ℕ → ℕ
min a b = if ltb b a then b else a

-- timeout / 1000, which C rounds towards 0.
abbrev pub by_thousand : ℤ → ℤ
by_thousand (ℤ.pos n) = ℤ.pos (n / 1000)
by_thousand (ℤ.negsuc n) = negated (ℤ.pos (suc n / 1000))

module _ (kern : Kernel) where
  open kern use {K, errors}

  abbrev pub poll_call : Bool → FileRun K ℤ
  poll_call for_read s =
      let (rc, k) = kern.sys_poll s.file.filedes for_read (by_thousand s.file.timeout) s.kernel in
      gives rc (record s { kernel = k })

  -- The wait, by the retries that are left.
  unfoldable pub wait_for_io : ℕ → Bool → FileRun K ℤ
  wait_for_io zero for_read = stop Halt.out_of_fuel
  wait_for_io (suc fuel) for_read = do
    rc ← poll_call for_read
    if is_minus rc errors.eintr
        then wait_for_io fuel for_read
        else done (
            if is_zero_int rc
            then ℤ.pos errors.apr_timeup
            else if is_negative rc
            then negated rc
            else ℤ.pos 0)

  -- rv == -EAGAIN || rv == -EWOULDBLOCK
  abbrev pub would_block : ℤ → Bool
  would_block rv = is_minus rv errors.eagain || is_minus rv errors.ewouldblock

  -- The refill of the buffer, where all of it has been given: 0, or what ends the loop.
  abbrev pub refilled : ℤ × Bytes → FileRun K ℤ
  refilled (ℤ.negsuc e, got) = done (ℤ.pos (suc e))
  refilled (ℤ.pos bytesread, got) =
      if bytesread == 0
      then (do set_file (λ f. record f { eof_hit = true }); done (ℤ.pos errors.apr_eof))
      else (do
        set_file (λ f. record f {
          buffer = copy_in f.buffer 0 got;
          data_read = bytesread;
          file_ptr = off_add f.file_ptr bytesread;
          bufpos = 0;
        })
        done (ℤ.pos 0))

  unfoldable pub refill : FileRun K ℤ
  refill = do
    f ← get_file
    if leb f.data_read f.bufpos
        then (do answer ← read_call kern apr_file_bufsize; refilled answer)
        else done (ℤ.pos 0)

  -- The copy of a block of at most `size` bytes.
  abbrev pub take_block : ℕ → FileRun K Bytes
  take_block size s =
      let f = s.file in
      let blocksize = min size (f.data_read - f.bufpos) in
      gives (bytes f.buffer f.bufpos blocksize)
        (record s { file = record f { bufpos = f.bufpos + blocksize } })

  -- while (rv == 0 && size > 0), with the bytes stored so far. Every round stores a byte.
  unfoldable pub read_blocks : ℕ → ℕ → Bytes → FileRun K (ℤ × Bytes)
  unfolding refill
  read_blocks zero size stored = stop Halt.out_of_fuel
  read_blocks (suc fuel) size stored = if size == 0 then done (ℤ.pos 0, stored) else (do
    rv ← refill
    if not (is_zero_int rv)
        then done (rv, stored)
        else (do block ← take_block size; read_blocks fuel (size - length block) (stored ++ block)))

  -- The byte that has been pushed back.
  abbrev pub unget : Option ℕ → FileRun K Bytes
  unget none s = gives [] s
  unget (some c) s = gives (c ∷ []) (record s { file = record s.file { ungetchar = none } })

  abbrev pub take_unget : FileRun K Bytes
  take_unget s = unget s.file.ungetchar s

  -- Behind the loop: a status that is not 0 is dropped where bytes have been stored.
  abbrev pub read_result : ℤ × Bytes → FileRun K (ℤ × ℕ × Bytes)
  read_result (rv, stored) =
      done ((if not (length stored == 0) then ℤ.pos 0 else rv), length stored, stored)

  -- Behind the flush of a buffer that was being written.
  abbrev pub start_reading : FileRun K (Unit {0})
  start_reading = set_file (λ f. record f { bufpos = 0; writing = false; data_read = 0 })

  unfoldable pub file_read_buffered : ℕ → ℕ → FileRun K (ℤ × ℕ × Bytes)
  unfolding read_blocks flush_locked
  file_read_buffered fuel nbytes = do
    f ← get_file
    rv ← (if f.writing then flush_locked kern fuel else done (ℤ.pos 0))
    if not (is_zero_int rv) then done (rv, nbytes, []) else (do
      if f.writing then start_reading else done tt
      first ← take_unget
      answer ← read_blocks (suc nbytes) (nbytes - length first) first
      read_result answer)

  -- Behind the calls of read: `first` is the byte that was pushed back.
  abbrev pub direct_result : Bytes → ℤ × Bytes → FileRun K (ℤ × ℕ × Bytes)
  direct_result first (ℤ.negsuc e, got) = done (ℤ.negsuc e, length first, first)
  direct_result first (ℤ.pos n, got) =
      if n == 0
      then (do
        set_file (λ f. record f { eof_hit = true })
        done (ℤ.pos errors.apr_eof, length first, first))
      else done (ℤ.pos 0, length first + n, first ++ got)

  -- lkl_file_read without a buffer, behind the byte that was pushed back.
  unfoldable pub read_direct : ℕ → ℕ → Bytes → FileRun K (ℤ × ℕ × Bytes)
  read_direct fuel nbytes first = do
    f ← get_file
    answer ← read_retry kern fuel nbytes
    if would_block answer.0 && not (is_zero_int f.timeout)
        then (do
          arv ← wait_for_io fuel true
          if not (is_zero_int arv)
              then done (arv, length first, first)
              else (do again ← read_retry kern fuel nbytes; direct_result first again))
        else direct_result first answer

  unfoldable pub lkl_file_read : ℕ → ℕ → FileRun K (ℤ × ℕ × Bytes)
  lkl_file_read fuel nbytes = if nbytes == 0 then done (ℤ.pos 0, 0, []) else (do
    f ← get_file
    if f.buffered then file_read_buffered fuel nbytes else (do
      first ← take_unget
      if nbytes - length first == 0
          then done (ℤ.pos 0, length first, first)
          else read_direct fuel (nbytes - length first) first))

  -- do ... while (status == APR_SUCCESS && nbytes > 0), by the rounds left.
  unfoldable pub lkl_file_read_full : ℕ → ℕ → ℕ → FileRun K (ℤ × ℕ × Bytes)
  unfolding lkl_file_read
  lkl_file_read_full zero fuel nbytes = stop Halt.out_of_fuel
  lkl_file_read_full (suc rounds) fuel nbytes = do
    (status, amt, got) ← lkl_file_read fuel nbytes
    if is_zero_int status && not (off_sub nbytes amt == 0)
        then (do
          (last, total, more) ← lkl_file_read_full rounds fuel (off_sub nbytes amt)
          done (last, off_add amt total, got ++ more))
        else done (status, amt, got)
