-- ===== src/Fileops/RoundTrip.antt =====
-- What has been written to a buffered file is read back from it.
use lkl_lklftpd.Base.{
  ℕ, suc, ◌+◌, ◌^◌, ◌≤◌, ◌<◌, ◌≡◌, refl, sym, ap, ◌∙◌, subst, true, false, inl, inr, arith, Bytes,
  length, take, drop,
}
use lkl_lklftpd.System.{ℤ}
use lkl_lklftpd.Transfer.Write.{length-drop_le}
use lkl_lklftpd.Kernel.{Kernel, Whence}
use lkl_lklftpd.Kernel.Word.{is_negative}
use lkl_lklftpd.Kernel.Laws.{FileView, IsFile, overwrite}
use lkl_lklftpd.Fileops.{OpenFile, FileRun, ◌>>=◌, apr_file_bufsize}
use lkl_lklftpd.Fileops.Contents.{take-overwrite, window-fits}
use lkl_lklftpd.Fileops.View.{Holds, Holds-then, Holds-weaken, IsWriting}
use lkl_lklftpd.Fileops.Writes.{WritesWhole}
use lkl_lklftpd.Fileops.Buffered.{SeeksWork, IsOpen, drift_of, WrittenAt, lkl_file_write-WrittenAt}
use lkl_lklftpd.Fileops.Reading.{ReadFrom, lkl_file_read-ReadFrom}
use lkl_lklftpd.Fileops.Seeking.{SizesAgree, Sought, lkl_file_seek-Sought}
use lkl_lklftpd.Fileops.Read.{lkl_file_read}
use lkl_lklftpd.Fileops.Write.{lkl_file_write}
use lkl_lklftpd.Fileops.Seek.{lkl_file_seek}

-- No read of the file fails.
abbrev pub ReadsWork : (kern : Kernel) → ℤ → Type 0
ReadsWork kern fd = (k : kern.K) → is_negative (kern.sys_read fd apr_file_bufsize k).0 ≡ false

module _ (kern : Kernel) (fd : ℤ) (view : FileView kern.K) where
  open kern use {K, errors}

  -- A read of all of what has been written gives it.
  reads_written :
      (buf content : Bytes) (place : ℕ) (answer : ℤ × ℕ × Bytes) (s : OpenFile K)
      → ReadsWork kern fd
      → 0 < length buf
      → ReadFrom kern fd view (overwrite content place buf) place (length buf) answer s
      → (answer.0 ≡ ℤ.pos 0) × (answer.2 ≡ buf)
  reads_written buf content place (rv, n, out) s works some_bytes (is_n, is_out, le, r, ok, ended) =
      let after = overwrite content place buf in
      let back = take-overwrite content place buf in
      let room : place + length buf ≤ length after =
        window-fits place (length buf) after (ap length back) some_bytes in
      let all : n ≡ length buf = elim ended [
        | inl e ↦ e
        | inr (inl (at_end, z)) ↦
            let left = length-drop_le (place + n) after in
            let nothing : length (drop (place + n) after) ≡ 0 = ap length at_end in omega arith
        | inr (inr (k, e)) ↦ let contra : false ≡ true = sym (works k) ∙ e in cc
      ] in
      let succeeded : rv ≡ ℤ.pos 0 = elim ok [ inl e ↦ absurd (omega arith) | inr z ↦ z ] in
      (succeeded, is_out ∙ ap (λ t. take t (drop place after)) all ∙ back)

  module _ (file : IsFile kern fd view) (whole : WritesWhole kern fd)
      (seeks : SeeksWork kern fd) where
    -- What is written to a buffered file is read back: lkl_file_write at a place, lkl_file_seek to
    -- that place and lkl_file_read of as many bytes return APR_SUCCESS and these bytes. The file is
    -- in order, being read or written, with no bytes of its buffer left to read; there is a byte,
    -- and fewer than 2 ^ 31, the place is below 2 ^ 31, and the kernel's reads, whole writes, seeks
    -- and sizes succeed.
    pub write_seek_read-gives :
        SizesAgree kern fd view
        → ReadsWork kern fd
        → 0 < errors.apr_eof
        → (fuel : ℕ) (buf content : Bytes) (place : ℕ) (s : OpenFile K) → 0 < length buf
        → length buf < 2 ^ 31
        → place < 2 ^ 31
        → drift_of s.file ≡ 0
        → IsOpen kern fd view content place s
        → Holds
            (λ answer _. (answer.0 ≡ ℤ.pos 0) × (answer.2 ≡ buf))
            ((lkl_file_write kern (suc fuel) buf >>= λ _.
                lkl_file_seek kern (suc fuel) Whence.seek_set (ℤ.pos place) >>= λ _.
                lkl_file_read kern (suc fuel) (length buf))
              s)
    write_seek_read-gives sizes works eof_set fuel buf content place s some_bytes size small
          no_drift o =
        let after = overwrite content place buf in
        let Got : ℤ × ℕ × Bytes → OpenFile K → Type 0 =
          λ answer _. (answer.0 ≡ ℤ.pos 0) × (answer.2 ≡ buf) in
        let reads : Unit {0} → FileRun K (ℤ × ℕ × Bytes) =
          λ _. lkl_file_read kern (suc fuel) (length buf) in
        Holds-then {B = ℤ × ℕ × Bytes} (WrittenAt kern fd view content place (drift_of s.file) buf)
          Got (lkl_file_write kern (suc fuel) buf s)
          (λ _. lkl_file_seek kern (suc fuel) Whence.seek_set (ℤ.pos place) >>= λ _. reads tt)
          (lkl_file_write-WrittenAt kern fd view file seeks whole fuel buf content place s size
            (omega arith) o)
          λ _ t (z, e, w).
            Holds-then {B = ℤ × ℕ × Bytes} (Sought kern fd view after place) Got
              (lkl_file_seek kern (suc fuel) Whence.seek_set (ℤ.pos place) t) (λ _. reads tt)
              (lkl_file_seek-Sought kern fd view file whole seeks sizes fuel Whence.seek_set
                (ℤ.pos place) after (place + length buf) place t small refl
                (inr
                  (subst (λ d. IsWriting kern fd view d after (place + length buf) t) no_drift w)))
              λ _ u (z', e', r).
                Holds-weaken (ReadFrom kern fd view after place (length buf)) Got
                  (lkl_file_read kern (suc fuel) (length buf) u)
                  (lkl_file_read-ReadFrom kern fd view file whole eof_set fuel (length buf) after
                    place u some_bytes (inl r))
                  λ answer v got. reads_written buf content place answer v works some_bytes got
