-- ===== src/Fileops/Seeks.antt =====
-- lkl_file_seek with a buffer against the place in the file.
use lkl_lklftpd.Base.{
  ℕ, suc, ◌-◌, ◌^◌, ◌<◌, ◌≡◌, refl, sym, ◌∙◌, subst, false, not, inl, inr, none, some, arith, leb,
  ◌&&◌, Bool-cases, if◌then◌else◌, Bytes,
}
use lkl_lklftpd.System.{ℤ}
use lkl_lklftpd.Kernel.{Kernel, Whence}
use lkl_lklftpd.Kernel.Word.{is_zero_int, to_int}
use lkl_lklftpd.Kernel.Laws.{FileView, IsFile}
use lkl_lklftpd.Fileops.{OpenFile, FileRun, done, get_file, flush_locked, off_sub, ◌>>=◌, ◌>>◌}
use lkl_lklftpd.Fileops.View.{Holds, Holds-then, IsReading, IsWriting}
use lkl_lklftpd.Fileops.Writes.{WritesWhole, Emptied, flush_locked-Emptied}
use lkl_lklftpd.Fileops.Buffered.{SeeksWork, IsOpen, sought}
use lkl_lklftpd.Fileops.Read.{start_reading}
use lkl_lklftpd.Fileops.Seek.{place_in_buffer, logical_offset, placed, set_place, setptr}

module _ (kern : Kernel) (fd : ℤ) (view : FileView kern.K) where
  open kern use {K, errors}

  to_reading :
      (content : Bytes) (place : ℕ) (s : OpenFile K)
      → s.file.bufpos ≡ 0
      → IsWriting kern fd view 0 content place s
      → IsReading kern fd view content place
          (record s { file = record s.file { bufpos = 0; writing = false; data_read = 0 } })
  to_reading content place s empty w = record {
    same_file = w.same_file;
    is_buffered = w.is_buffered;
    not_writing = refl;
    no_unget = w.no_unget;
    stored = rw empty at w.stored;
    offset = omega (arith, w.offset);
    within = omega arith;
    start = omega arith;
    at = omega (arith, w.at, w.offset, empty);
    window = λ i l. absurd (omega arith);
    fits = λ l. absurd (omega arith);
    small = omega (arith, w.small, w.at, w.offset);
    size = w.size;
  }

  pub logical_offset-place :
      (content : Bytes) (place : ℕ) (s : OpenFile K)
      → IsOpen kern fd view content place s
      → logical_offset s.file ≡ place
  logical_offset-place content place s (inl r) = omega (arith, r.at, r.start, r.small, r.within)
  logical_offset-place content place s (inr w) =
      omega (arith, w.at, w.offset, w.small, w.nothing_read)

  -- The file stands at a place with its buffer read.
  abbrev pub MovedTo : Bytes → ℕ → ℤ → OpenFile K → Type 0
  MovedTo content p rv s = (rv ≡ ℤ.pos 0) × IsReading kern fd view content p s

  module _ (file : IsFile kern fd view) (whole : WritesWhole kern fd) where
    -- What reads or seeks flushes a buffer that is being written, and starts from an empty one.
    pub turned_to_reading :
        {A : Type 0} (fuel : ℕ) (content : Bytes) (place : ℕ) (s : OpenFile K)
        (bad : ℤ → FileRun K A) (rest : FileRun K A) (P : A → OpenFile K → Type 0)
        → IsOpen kern fd view content place s
        → ((t : OpenFile K) → IsReading kern fd view content place t → Holds P (rest t))
        → Holds P (
            (get_file >>= λ f.
            (if f.writing then flush_locked kern (suc fuel) else done (ℤ.pos 0)) >>= λ rv.
            if not (is_zero_int rv)
            then bad rv
            else ((if f.writing then start_reading kern else done tt) >> rest))
              s)
    turned_to_reading fuel content place s bad rest P (inl r) next = simp r.not_writing (next s r)
    turned_to_reading {A} fuel content place s bad rest P (inr w) next = simp w.is_writing (
        Holds-then {B = A} (Emptied kern fd view 0 content place) P (flush_locked kern (suc fuel) s)
          (λ rv. if not (is_zero_int rv) then bad rv else (start_reading kern >> rest))
          (flush_locked-Emptied kern fd view 0 file whole fuel content place s w)
          λ rv t (z, empty, w'). rw z (next _ (to_reading content place t empty w')))

    module _ (seeks : SeeksWork kern fd) where
      lseek-MovedTo :
          (content : Bytes) (place p : ℕ) (s : OpenFile K)
          → p < 2 ^ 31
          → IsReading kern fd view content place s
          → Holds (MovedTo content p) (placed kern (ℤ.pos p) none s)
      lseek-MovedTo content place p s small r =
          let answer = kern.sys_lseek s.file.filedes (ℤ.pos p) Whence.seek_set s.kernel in
          let (c, o) = sought kern fd view file seeks r.same_file p s.kernel (omega arith) in
          let is_p : answer.0 ≡ ℤ.pos p = rw r.same_file (seeks p s.kernel (omega arith)) in
          let kept : to_int (ℤ.pos p) ≡ ℤ.pos p = ground arith in
          simp (is_p, kept)
            (
              refl,
              record {
                same_file = r.same_file;
                is_buffered = r.is_buffered;
                not_writing = r.not_writing;
                no_unget = r.no_unget;
                stored = c ∙ r.stored;
                offset = o;
                within = omega arith;
                start = omega arith;
                at = omega arith;
                window = λ i l. absurd (omega arith);
                fits = λ l. absurd (omega arith);
                small = omega arith;
                size = r.size;
              },
            )

      set_place-MovedTo :
          (content : Bytes) (place p : ℕ) (s : OpenFile K)
          → p < 2 ^ 31
          → IsReading kern fd view content place s
          → Holds (MovedTo content p) (set_place kern (ℤ.pos p) s)
      unfolding set_place
      set_place-MovedTo content place p s small r =
          let base = off_sub s.file.file_ptr s.file.data_read in
          let is_base : base ≡ s.file.file_ptr - s.file.data_read =
            omega (arith, r.start, r.small) in
          elim (Bool-cases (leb base p && leb (p - base) s.file.data_read)) [
            | inl inside ↦
                let found : place_in_buffer s.file (ℤ.pos p) ≡ some (p - base) = simp inside refl in
                subst (λ o. Holds (MovedTo content p) (placed kern (ℤ.pos p) o s)) (sym found)
                  (
                    refl,
                    record {
                      same_file = r.same_file;
                      is_buffered = r.is_buffered;
                      not_writing = r.not_writing;
                      no_unget = r.no_unget;
                      stored = r.stored;
                      offset = r.offset;
                      within = ground (arith, inside);
                      start = r.start;
                      at = ground (arith, inside, is_base, r.start);
                      window = r.window;
                      fits = r.fits;
                      small = r.small;
                      size = r.size;
                    },
                  )
            | inr outside ↦
                let found : place_in_buffer s.file (ℤ.pos p) ≡ none = simp outside refl in
                subst (λ o. Holds (MovedTo content p) (placed kern (ℤ.pos p) o s)) (sym found)
                  (lseek-MovedTo content place p s small r)
          ]

      pub setptr-MovedTo :
          (fuel : ℕ) (content : Bytes) (place p : ℕ) (s : OpenFile K)
          → p < 2 ^ 31
          → IsOpen kern fd view content place s
          → Holds (MovedTo content p) (setptr kern (suc fuel) (ℤ.pos p) s)
      unfolding setptr
      setptr-MovedTo fuel content place p s small o =
          turned_to_reading fuel content place s done (set_place kern (ℤ.pos p)) (MovedTo content p)
            o λ t r. set_place-MovedTo content place p t small r
