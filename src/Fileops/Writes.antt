-- ===== src/Fileops/Writes.antt =====
-- The writing of a buffered file against its content: the flush, and a block.
use lkl_lklftpd.Base.{
  ℕ, suc, ◌+◌, ◌-◌, ◌^◌, ◌≤◌, ◌<◌, ◌≡◌, refl, sym, ap, ◌∙◌, subst, true, false, inl, inr, arith,
  ◌++◌, ◌==◌, Bool-cases, ne→==, Bytes, length, take,
}
use lkl_lklftpd.Ascii.InPlace.{bytes}
use lkl_lklftpd.System.{ℤ}
use lkl_lklftpd.Transfer.Write.{length-take_le}
use lkl_lklftpd.Kernel.{Kernel}
use lkl_lklftpd.Kernel.Laws.{FileView, WriteAnswer, IsFile, overwrite}
use lkl_lklftpd.Fileops.{
  OpenFile, gives, then_run, apr_file_bufsize, copy_in, off_add, write_retry, flush_locked, flushed,
}
use lkl_lklftpd.Fileops.Contents.{
  bytes-copy_in, length-bytes, take-all, overwrite-append, length-overwrite_fits,
}
use lkl_lklftpd.Fileops.View.{Holds, IsWriting}
use lkl_lklftpd.Fileops.Read.{min}
use lkl_lklftpd.Fileops.Write.{store_block}

-- Every write of the file stores all of its bytes.
abbrev pub WritesWhole : (kern : Kernel) → ℤ → Type 0
WritesWhole kern fd = (b : Bytes) (k : kern.K) → (kern.sys_write fd b k).0 ≡ ℤ.pos (length b)

flush_locked-runs :
    (kern : Kernel) (fuel : ℕ) (s : OpenFile kern.K)
    → s.file.writing ≡ true
    → (s.file.bufpos == 0) ≡ false
    → flush_locked kern fuel s
      ≡ then_run (write_retry kern fuel (bytes s.file.buffer 0 s.file.bufpos) s) (flushed kern)
unfolding flush_locked
flush_locked-runs kern fuel s w more = simp (w, more) refl

module _ (kern : Kernel) (fd : ℤ) (view : FileView kern.K) (drift : ℕ) where
  open kern use {K, errors}

  -- What a write that stores all of its bytes leaves.
  whole_answer :
      (b : Bytes) (k : K) (rv : ℤ) (k' : K)
      → rv ≡ ℤ.pos (length b)
      → WriteAnswer view b k (rv, k')
      → (view.content k' ≡ overwrite (view.content k) (view.offset k) b)
        × (view.offset k' ≡ view.offset k + length b)
  whole_answer b k rv k' e law =
      let law' = subst (λ r. WriteAnswer view b k (r, k')) e law in
      (law'.1 ∙ ap (overwrite (view.content k) (view.offset k)) (take-all b), law'.2)

  -- A flush stores the buffer in the file, and leaves it empty.
  abbrev pub Emptied : Bytes → ℕ → ℤ → OpenFile K → Type 0
  Emptied content place rv s =
      (rv ≡ ℤ.pos 0) × (s.file.bufpos ≡ 0) × IsWriting kern fd view drift content place s

  module _ (file : IsFile kern fd view) (whole : WritesWhole kern fd) where
    write_retry-whole :
        (fuel : ℕ) (b : Bytes) (s : OpenFile K)
        → s.file.filedes ≡ fd
        → 0 < length b
        → write_retry kern (suc fuel) b s
          ≡ gives (ℤ.pos (length b)) (record s { kernel = (kern.sys_write fd b s.kernel).1 })
    unfolding write_retry
    write_retry-whole fuel b s e positive =
        let some_written = ne→== (length b) 0 (omega arith) in
        simp (e, whole b s.kernel, some_written) refl

    -- The state behind the write of the buffer.
    flushed-IsWriting :
        (content : Bytes) (place : ℕ) (s : OpenFile K) (n : ℕ) (k' : K)
        → IsWriting kern fd view drift content place s
        → n ≡ s.file.bufpos
        → view.content k'
          ≡ overwrite
              (view.content s.kernel)
              (view.offset s.kernel)
              (bytes s.file.buffer 0 s.file.bufpos)
        → view.offset k' ≡ view.offset s.kernel + n
        → IsWriting kern fd view drift content place (record {
          file = record s.file { file_ptr = off_add s.file.file_ptr n; bufpos = 0 };
          kernel = k';
        })
    flushed-IsWriting content place s n k' w is_n c o =
        let no_wrap : off_add s.file.file_ptr n ≡ s.file.file_ptr + n =
          omega (arith, w.at, w.small, w.offset, is_n) in
        record {
          same_file = w.same_file;
          is_buffered = w.is_buffered;
          is_writing = w.is_writing;
          no_unget = w.no_unget;
          nothing_read = w.nothing_read;
          stored = c ∙ w.stored;
          offset = omega (arith, o, w.offset, no_wrap);
          within = omega arith;
          at = omega (arith, w.at, o, is_n);
          small = w.small;
          size = w.size;
        }

    pub flush_locked-Emptied :
        (fuel : ℕ) (content : Bytes) (place : ℕ) (s : OpenFile K)
        → IsWriting kern fd view drift content place s
        → Holds (Emptied content place) (flush_locked kern (suc fuel) s)
    unfolding flush_locked
    flush_locked-Emptied fuel content place s w = elim (Bool-cases (s.file.bufpos == 0)) [
      | inl empty ↦ simp (w.is_writing, empty) (refl, ground (arith, empty), w)
      | inr more ↦
          let b = bytes s.file.buffer 0 s.file.bufpos in
          let len = length-bytes s.file.buffer 0 s.file.bufpos in
          let answer = kern.sys_write fd b s.kernel in
          let (c, o) =
            whole_answer b s.kernel answer.0 answer.1 (whole b s.kernel) (file.writes b s.kernel) in
          let runs =
            flush_locked-runs kern (suc fuel) s w.is_writing more
            ∙ ap (λ t. then_run t (flushed kern))
                (write_retry-whole fuel b s w.same_file (ground (arith, more, len))) in
          subst (Holds (Emptied content place)) (sym runs)
            (refl, refl, flushed-IsWriting content place s (length b) answer.1 w len c o)
    ]

  -- A block goes behind the bytes that the buffer has.
  abbrev pub BlockStored : Bytes → ℕ → Bytes → OpenFile K → ℕ → OpenFile K → Type 0
  BlockStored content place rest before n s =
      (n ≡ min (length rest) (apr_file_bufsize - before.file.bufpos))
      × IsWriting kern fd view drift (overwrite content place (take n rest)) (place + n) s

  pub store_block-IsWriting :
      (content : Bytes) (place : ℕ) (rest : Bytes) (s : OpenFile K)
      → IsWriting kern fd view drift content place s
      → place + drift + length rest < 2 ^ 63
      → Holds (BlockStored content place rest s) (store_block kern rest s)
  store_block-IsWriting content place rest s w room =
      let n = min (length rest) (apr_file_bufsize - s.file.bufpos) in
      let le : n ≤ length rest = ground arith in
      let fits : s.file.bufpos + n ≤ apr_file_bufsize = ground (arith, w.within) in
      let len : length (take n rest) ≡ n = length-take_le n rest le in
      let longer : bytes (copy_in s.file.buffer s.file.bufpos (take n rest)) 0 (s.file.bufpos + n)
          ≡ bytes s.file.buffer 0 s.file.bufpos ++ take n rest =
        simp len at (bytes-copy_in s.file.buffer s.file.bufpos (take n rest)) in
      let had = length-bytes s.file.buffer 0 s.file.bufpos in
      let there : view.offset s.kernel + length (bytes s.file.buffer 0 s.file.bufpos) ≡ place =
        omega (arith, had, w.at) in
      (
        refl,
        record {
          same_file = w.same_file;
          is_buffered = w.is_buffered;
          is_writing = w.is_writing;
          no_unget = w.no_unget;
          nothing_read = w.nothing_read;
          stored =
              ap (overwrite (view.content s.kernel) (view.offset s.kernel)) longer
              ∙ overwrite-append (view.content s.kernel) (view.offset s.kernel)
                  (bytes s.file.buffer 0 s.file.bufpos) (take n rest)
              ∙ rw (there, w.stored) refl;
          offset = w.offset;
          within = fits;
          at = omega (arith, w.at);
          small = omega (arith, room, le);
          size =
              length-overwrite_fits content place (take n rest) (2 ^ 63) w.size
                (omega (arith, len, room, le));
        },
      )
