-- ===== src/Fileops/Seeking.antt =====
-- lkl_file_seek of a buffered file refines the move of its place.
use lkl_lklftpd.Base.{
  ℕ, suc, ◌^◌, ◌<◌, ◌≡◌, refl, sym, ap, ◌∙◌, subst, true, false, not, inl, inr, arith,
  if◌then◌else◌, Bytes, length,
}
use lkl_lklftpd.System.{ℤ}
use lkl_lklftpd.Kernel.{Kernel, Whence}
use lkl_lklftpd.Kernel.Word.{is_zero_int, add_offset}
use lkl_lklftpd.Kernel.Laws.{FileView, IsFile}
use lkl_lklftpd.Fileops.{OpenFile, then_run, done, get_file, flush_locked, ◌>>=◌}
use lkl_lklftpd.Fileops.View.{Holds, Holds-then, IsReading, IsWriting}
use lkl_lklftpd.Fileops.Writes.{WritesWhole, Emptied, flush_locked-Emptied}
use lkl_lklftpd.Fileops.Buffered.{SeeksWork, IsOpen, open_buffered}
use lkl_lklftpd.Fileops.Reads.{kept_state}
use lkl_lklftpd.Fileops.Seeks.{MovedTo, setptr-MovedTo, logical_offset-place}
use lkl_lklftpd.Fileops.Seek.{logical_offset, setptr, file_size, seek_buffered, lkl_file_seek}

-- The kernel knows the size of the file.
abbrev pub SizesAgree : (kern : Kernel) → ℤ → FileView kern.K → Type 0
SizesAgree kern fd view =
    (k : kern.K)
    → let (rc, info, k') = kern.sys_newfstat fd k in
      (rc ≡ ℤ.pos 0)
      × (info.st_size ≡ length (view.content k))
      × (view.content k' ≡ view.content k)
      × (view.offset k' ≡ view.offset k)

-- Where a seek leads from a place in a content.
abbrev pub target : Bytes → ℕ → Whence → ℤ → ℤ
target content place Whence.seek_set offset = offset
target content place Whence.seek_cur offset = add_offset place offset
target content place Whence.seek_end offset = add_offset (length content) offset

module _ (kern : Kernel) (fd : ℤ) (view : FileView kern.K) where
  open kern use {K, errors}

  -- What a seek leaves: its status, the place in `*offset`, and the file there.
  abbrev pub Sought : Bytes → ℕ → ℤ × ℤ → OpenFile K → Type 0
  Sought content p (rc, offset) s =
      (rc ≡ ℤ.pos 0) × (offset ≡ ℤ.pos p) × IsReading kern fd view content p s

  abbrev unhit_state : OpenFile K → OpenFile K
  unhit_state s = record s { file = record s.file { eof_hit = false } }

  seek_runs :
      (fuel : ℕ) (whence : Whence) (offset : ℤ) (s : OpenFile K)
      → s.file.buffered ≡ true
      → lkl_file_seek kern fuel whence offset s
        ≡ then_run
            (seek_buffered kern fuel whence offset (unhit_state s))
            (λ rc. get_file >>= λ g. done (rc, ℤ.pos (logical_offset g)))
  unfolding lkl_file_seek
  seek_runs fuel whence offset s e = simp e refl

  kept-IsWriting :
      (content : Bytes) (place : ℕ) (s : OpenFile K)
      → IsWriting kern fd view 0 content place s
      → (k : K) → view.content k ≡ view.content s.kernel
      → view.offset k ≡ view.offset s.kernel
      → IsWriting kern fd view 0 content place (record s { kernel = k })
  kept-IsWriting content place s w k c o = record {
    same_file = w.same_file;
    is_buffered = w.is_buffered;
    is_writing = w.is_writing;
    no_unget = w.no_unget;
    nothing_read = w.nothing_read;
    stored = rw (c, o) w.stored;
    offset = omega (arith, w.offset, o);
    within = w.within;
    at = omega (arith, w.at, o);
    small = w.small;
    size = w.size;
  }

  unhit :
      (content : Bytes) (place : ℕ) (s : OpenFile K)
      → IsOpen kern fd view content place s
      → IsOpen kern fd view content place (unhit_state s)
  unhit content place s (inl r) = inl (record {
    same_file = r.same_file;
    is_buffered = r.is_buffered;
    not_writing = r.not_writing;
    no_unget = r.no_unget;
    stored = r.stored;
    offset = r.offset;
    within = r.within;
    start = r.start;
    at = r.at;
    window = r.window;
    fits = r.fits;
    small = r.small;
    size = r.size;
  })
  unhit content place s (inr w) = inr (record {
    same_file = w.same_file;
    is_buffered = w.is_buffered;
    is_writing = w.is_writing;
    no_unget = w.no_unget;
    nothing_read = w.nothing_read;
    stored = w.stored;
    offset = w.offset;
    within = w.within;
    at = w.at;
    small = w.small;
    size = w.size;
  })

  module _ (file : IsFile kern fd view) (whole : WritesWhole kern fd) where
    module _ (seeks : SeeksWork kern fd) (sizes : SizesAgree kern fd view) where
      -- The seek from the end, behind the flush.
      from_end :
          (fuel : ℕ) (offset : ℤ) (content : Bytes) (place p : ℕ) (s : OpenFile K)
          → p < 2 ^ 31
          → add_offset (length content) offset ≡ ℤ.pos p
          → s.file.filedes ≡ fd
          → view.content s.kernel ≡ content
          → ((k : K)
              → view.content k ≡ view.content s.kernel
              → view.offset k ≡ view.offset s.kernel
              → IsOpen kern fd view content place (record s { kernel = k }))
          → Holds (MovedTo kern fd view content p) (
              (file_size kern >>= λ x.
              if is_zero_int x.0 then setptr kern (suc fuel) (add_offset x.1 offset) else done x.0)
                s)
      from_end fuel offset content place p s small goes same_file same still_open =
          let answer = kern.sys_newfstat s.file.filedes s.kernel in
          let law : (answer.0 ≡ ℤ.pos 0)
              × (answer.1.st_size ≡ length (view.content s.kernel))
              × (view.content answer.2 ≡ view.content s.kernel)
              × (view.offset answer.2 ≡ view.offset s.kernel) =
            rw same_file (sizes s.kernel) in
          let is_size : answer.1.st_size ≡ length content = law.1 ∙ ap length same in
          rw (law.0, is_size, goes)
            (setptr-MovedTo kern fd view file whole seeks fuel content place p
              (record s { kernel = answer.2 }) small (still_open answer.2 law.2 law.3))

      seek_buffered-MovedTo :
          (fuel : ℕ) (whence : Whence) (offset : ℤ) (content : Bytes) (place p : ℕ) (s : OpenFile K)
          → p < 2 ^ 31
          → target content place whence offset ≡ ℤ.pos p
          → IsOpen kern fd view content place s
          → Holds (MovedTo kern fd view content p) (seek_buffered kern (suc fuel) whence offset s)
      unfolding flush_locked
      seek_buffered-MovedTo fuel Whence.seek_set offset content place p s small goes o =
          rw goes (setptr-MovedTo kern fd view file whole seeks fuel content place p s small o)
      seek_buffered-MovedTo fuel Whence.seek_cur offset content place p s small goes o =
          rw (logical_offset-place kern fd view content place s o, goes)
            (setptr-MovedTo kern fd view file whole seeks fuel content place p s small o)
      seek_buffered-MovedTo fuel Whence.seek_end offset content place p s small goes (inl r) =
          simp r.not_writing (
            from_end fuel offset content place p s small goes r.same_file r.stored
              λ k c o. inl (kept_state kern fd view content place s r k c o))
      seek_buffered-MovedTo fuel Whence.seek_end offset content place p s small goes (inr w) =
          Holds-then {B = ℤ} (Emptied kern fd view 0 content place) (MovedTo kern fd view content p)
            (flush_locked kern (suc fuel) s)
            (λ rv.
              if not (is_zero_int rv)
              then done rv
              else (file_size kern >>= λ x.
                  if is_zero_int x.0
                  then setptr kern (suc fuel) (add_offset x.1 offset)
                  else done x.0))
            (flush_locked-Emptied kern fd view 0 file whole fuel content place s w)
            λ rv t (z, empty, w').
              let same : view.content t.kernel ≡ content = rw empty at w'.stored in
              rw z (
                from_end fuel offset content place p t small goes w'.same_file same
                  λ k c o. inr (kept-IsWriting content place t w' k c o))

      -- lkl_file_seek of a buffered file in order, from the start, from its place or from its end,
      -- to a place below 2 ^ 31, returns APR_SUCCESS with that place in `*offset`, and leaves the
      -- content as it was and the file in order at the place. The kernel's seeks, whole writes and
      -- sizes succeed.
      pub lkl_file_seek-Sought :
          (fuel : ℕ) (whence : Whence) (offset : ℤ) (content : Bytes) (place p : ℕ) (s : OpenFile K)
          → p < 2 ^ 31
          → target content place whence offset ≡ ℤ.pos p
          → IsOpen kern fd view content place s
          → Holds (Sought content p) (lkl_file_seek kern (suc fuel) whence offset s)
      unfolding lkl_file_seek
      lkl_file_seek-Sought fuel whence offset content place p s small goes o =
          subst (Holds (Sought content p))
            (sym
              (seek_runs (suc fuel) whence offset s (open_buffered kern fd view content place s o)))
            (Holds-then {B = ℤ × ℤ} (MovedTo kern fd view content p) (Sought content p)
              (seek_buffered kern (suc fuel) whence offset (unhit_state s))
              (λ rc. get_file >>= λ g. done (rc, ℤ.pos (logical_offset g)))
              (seek_buffered-MovedTo fuel whence offset content place p (unhit_state s) small goes
                (unhit content place s o))
              λ rc t (z, r).
                (z, ap ℤ.pos (logical_offset-place kern fd view content p t (inl r)), r))
