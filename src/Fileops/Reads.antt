-- ===== src/Fileops/Reads.antt =====
-- file_read_buffered against the content of the file: the parts of a round.
use lkl_lklftpd.Base.{
  ℕ, zero, suc, ◌+◌, ◌-◌, ◌≤◌, ◌<◌, ◌≡◌, refl, sym, ap, ◌∙◌, true, false, ◌⊎◌, inl, inr, arith, [],
  ◌==◌, ltb, leb, Bool-cases, Bytes, length, take, drop,
}
use lkl_lklftpd.Paths.{char_at}
use lkl_lklftpd.System.{ℤ}
use lkl_lklftpd.Kernel.{Kernel}
use lkl_lklftpd.Kernel.Word.{is_zero_int, is_negative}
use lkl_lklftpd.Kernel.Laws.{FileView, ReadAnswer, IsFile}
use lkl_lklftpd.Fileops.{OpenFile, apr_file_bufsize, copy_in, off_add}
use lkl_lklftpd.Fileops.Contents.{
  bytes-window, length-bytes, char_at-take, char_at-drop, window-fits,
}
use lkl_lklftpd.Fileops.View.{Holds, IsReading}
use lkl_lklftpd.Fileops.Read.{min, refill, refilled, take_block}

module _ (kern : Kernel) (fd : ℤ) (view : FileView kern.K) where
  open kern use {K, errors}

  -- A read of the file fails in some state.
  abbrev pub Failing : Type 0
  Failing = (k : K) × (is_negative (kern.sys_read fd apr_file_bufsize k).0 ≡ true)

  -- The state behind a refill: bytes are left, or the file is at its end, or a read has failed.
  abbrev pub Refilled : Bytes → ℕ → ℤ → OpenFile K → Type 0
  Refilled content place rv s =
      IsReading kern fd view content place s
      × (((rv ≡ ℤ.pos 0) × (s.file.bufpos < s.file.data_read))
          ⊎ (((rv ≡ ℤ.pos errors.apr_eof) × (s.file.eof_hit ≡ true) × (drop place content ≡ []))
              ⊎ ((is_zero_int rv ≡ false) × Failing)))

  module _ (content : Bytes) (place : ℕ) (s : OpenFile K)
      (r : IsReading kern fd view content place s) (k' : K) where
    pub kept_state :
        view.content k' ≡ view.content s.kernel
        → view.offset k' ≡ view.offset s.kernel
        → IsReading kern fd view content place (record s { kernel = k' })
    kept_state c o = record {
      same_file = r.same_file;
      is_buffered = r.is_buffered;
      not_writing = r.not_writing;
      no_unget = r.no_unget;
      stored = c ∙ r.stored;
      offset = o ∙ r.offset;
      within = r.within;
      start = r.start;
      at = r.at;
      window = r.window;
      fits = r.fits;
      small = r.small;
      size = r.size;
    }

    kept_eof :
        view.content k' ≡ view.content s.kernel
        → view.offset k' ≡ view.offset s.kernel
        → IsReading kern fd view content place
            (record { file = record s.file { eof_hit = true }; kernel = k' })
    kept_eof c o = record {
      same_file = r.same_file;
      is_buffered = r.is_buffered;
      not_writing = r.not_writing;
      no_unget = r.no_unget;
      stored = c ∙ r.stored;
      offset = o ∙ r.offset;
      within = r.within;
      start = r.start;
      at = r.at;
      window = r.window;
      fits = r.fits;
      small = r.small;
      size = r.size;
    }

    filled :
        s.file.data_read ≡ s.file.bufpos
        → (m : ℕ) (got : Bytes) → 0 < m
        → length got ≡ m
        → got ≡ take m (drop s.file.file_ptr content)
        → view.content k' ≡ view.content s.kernel
        → view.offset k' ≡ view.offset s.kernel + m
        → IsReading kern fd view content place (record {
          file = record s.file {
            buffer = copy_in s.file.buffer 0 got;
            data_read = m;
            file_ptr = off_add s.file.file_ptr m;
            bufpos = 0;
          };
          kernel = k';
        })
    filled all_given m got some_read len is_got c o =
        let in_file : s.file.file_ptr + m ≤ length content =
          window-fits s.file.file_ptr m content (sym (ap length is_got) ∙ len) some_read in
        let no_wrap : off_add s.file.file_ptr m ≡ s.file.file_ptr + m =
          omega (arith, r.size, in_file) in
        let old_place : place ≡ s.file.file_ptr = omega (arith, r.at, all_given) in
        record {
          same_file = r.same_file;
          is_buffered = r.is_buffered;
          not_writing = r.not_writing;
          no_unget = r.no_unget;
          stored = c ∙ r.stored;
          offset = omega (arith, o, r.offset, no_wrap);
          within = omega arith;
          start = omega (arith, no_wrap);
          at = omega (arith, no_wrap, old_place);
          window = λ i l.
              let low : ltb i 0 ≡ false = ground arith in
              let high : ltb i (0 + length got) ≡ true = ground arith in
              let i0 : i - 0 ≡ i = omega arith in
              let back : off_add s.file.file_ptr m - m + i ≡ s.file.file_ptr + i =
                omega (arith, no_wrap) in
              rw (low, high, i0, back)
                (ap (λ t. char_at t i) is_got
                  ∙ char_at-take i m (drop s.file.file_ptr content) l
                  ∙ char_at-drop s.file.file_ptr i content);
          fits = λ _. omega (arith, no_wrap, in_file);
          small = omega (arith, no_wrap, in_file, r.size);
          size = r.size;
        }

  module _ (file : IsFile kern fd view) (eof_set : 0 < errors.apr_eof) where
    refilled-Refilled :
        (content : Bytes) (place : ℕ) (s : OpenFile K) (answer : ℤ × Bytes) (k' : K)
        → IsReading kern fd view content place s
        → s.file.data_read ≡ s.file.bufpos
        → ReadAnswer view apr_file_bufsize s.kernel (answer.0, answer.1, k')
        → (is_negative answer.0 ≡ true → Failing)
        → Holds (Refilled content place) (refilled kern answer (record s { kernel = k' }))
    refilled-Refilled content place s (ℤ.negsuc e, got) k' r all_given law failing =
        (kept_state content place s r k' law.1 law.2, inr (inr (ground arith, failing refl)))
    refilled-Refilled content place s (ℤ.pos zero, got) k' r all_given law failing =
        let at_end : drop place content ≡ [] =
          let same_place : place ≡ view.offset s.kernel =
            omega (arith, r.at, r.offset, all_given) in
          rw (same_place, sym r.stored) (law.3 refl) in
        (kept_eof content place s r k' law.4 (omega (arith, law.5)), inr (inl (refl, refl, at_end)))
    refilled-Refilled content place s (ℤ.pos (suc m), got) k' r all_given law failing =
        let some_read : (suc m == 0) ≡ false = ground arith in
        let is_got : got ≡ take (suc m) (drop s.file.file_ptr content) =
          law.2 ∙ (rw (r.offset, r.stored) refl) in
        rw some_read (
          filled content place s r k' all_given (suc m) got (omega arith) law.0 is_got law.4 law.5,
          inl (refl, omega arith),
        )

    pub refill-Refilled :
        (content : Bytes) (place : ℕ) (s : OpenFile K)
        → IsReading kern fd view content place s
        → Holds (Refilled content place) (refill kern s)
    unfolding refill
    refill-Refilled content place s r = elim (Bool-cases (leb s.file.data_read s.file.bufpos)) [
      | inl all ↦
          let all_given : s.file.data_read ≡ s.file.bufpos = ground (arith, all, r.within) in
          let law : ReadAnswer view apr_file_bufsize s.kernel
              (kern.sys_read s.file.filedes apr_file_bufsize s.kernel) =
            rw r.same_file (file.reads apr_file_bufsize s.kernel (omega arith)) in
          let failing : is_negative (kern.sys_read s.file.filedes apr_file_bufsize s.kernel).0
                ≡ true
              → Failing =
            λ e. (s.kernel, rw (sym r.same_file) e) in
          let answer = kern.sys_read s.file.filedes apr_file_bufsize s.kernel in
          rw all (
            refilled-Refilled content place s (answer.0, answer.1) answer.2 r all_given law failing)
      | inr left ↦ rw left (r, inl (refl, ground (arith, left)))
    ]

  -- The bytes that a block takes are those at the place.
  abbrev pub Taken : Bytes → ℕ → ℕ → Bytes → OpenFile K → Type 0
  Taken content place size block s =
      (block ≡ take (length block) (drop place content))
      × (0 < length block)
      × (length block ≤ size)
      × IsReading kern fd view content (place + length block) s

  pub take_block-Taken :
      (content : Bytes) (place size : ℕ) (s : OpenFile K)
      → IsReading kern fd view content place s
      → s.file.bufpos < s.file.data_read
      → 0 < size
      → Holds (Taken content place size) (take_block kern size s)
  take_block-Taken content place size s r some_left some_wanted =
      let n = min size (s.file.data_read - s.file.bufpos) in
      let positive : 0 < n = ground arith in
      let bound : n ≤ size = ground arith in
      let inside : s.file.bufpos + n ≤ s.file.data_read = ground arith in
      let len = length-bytes s.file.buffer s.file.bufpos n in
      let same : (i : ℕ) → i < n → s.file.buffer (s.file.bufpos + i) ≡ char_at content (place + i) =
        λ i l.
          let there : s.file.file_ptr - s.file.data_read + (s.file.bufpos + i) ≡ place + i =
            omega (arith, r.at, r.start) in
          rw (sym there) (r.window (s.file.bufpos + i) (omega arith)) in
      let block =
        bytes-window s.file.buffer content s.file.bufpos place n same
          (omega (arith, r.fits (omega arith), r.at)) in
      rw len (
        block,
        positive,
        bound,
        record {
          same_file = r.same_file;
          is_buffered = r.is_buffered;
          not_writing = r.not_writing;
          no_unget = r.no_unget;
          stored = r.stored;
          offset = r.offset;
          within = inside;
          start = r.start;
          at = omega (arith, r.at);
          window = r.window;
          fits = r.fits;
          small = r.small;
          size = r.size;
        },
      )
