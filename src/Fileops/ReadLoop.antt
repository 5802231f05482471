-- ===== src/Fileops/ReadLoop.antt =====
-- file_read_buffered against the content of the file: its loop.
use lkl_lklftpd.Base.{
  ℕ, zero, suc, ◌+◌, ◌-◌, ◌≤◌, ◌<◌, ◌≡◌, refl, sym, ◌∙◌, true, false, ◌⊎◌, inl, inr, arith, [],
  ◌++◌, ◌==◌, Bool-cases, ne→==, Bytes, length, take, drop, append_assoc, append-nil, length-append,
}
use lkl_lklftpd.System.{ℤ}
use lkl_lklftpd.Kernel.{Kernel}
use lkl_lklftpd.Kernel.Word.{is_zero_int}
use lkl_lklftpd.Kernel.Laws.{FileView, IsFile}
use lkl_lklftpd.Fileops.{OpenFile}
use lkl_lklftpd.Fileops.Contents.{windows-join}
use lkl_lklftpd.Fileops.Reads.{Failing, Refilled, refill-Refilled, Taken, take_block-Taken}
use lkl_lklftpd.Fileops.View.{Holds, Holds-then, Holds-weaken, IsReading}
use lkl_lklftpd.Fileops.Read.{refill, take_block, read_blocks}

module _ (kern : Kernel) (fd : ℤ) (view : FileView kern.K) where
  open kern use {K, errors}

  -- Why the loop has ended, `n` bytes after its start at `place`.
  abbrev pub ReadEnd : Bytes → ℕ → ℕ → ℕ → ℤ → OpenFile K → Type 0
  ReadEnd content place size n rv s =
      ((n ≡ size) × (rv ≡ ℤ.pos 0))
      ⊎ (((rv ≡ ℤ.pos errors.apr_eof) × (s.file.eof_hit ≡ true) × (drop (place + n) content ≡ []))
          ⊎ ((is_zero_int rv ≡ false) × Failing kern fd view))

  -- The loop has stored the bytes `more` of the file behind those that it had.
  abbrev pub ReadMore : Bytes → ℕ → ℕ → Bytes → ℤ × Bytes → OpenFile K → Type 0
  ReadMore content place size stored (rv, out) s =
      (more : Bytes) × (out ≡ stored ++ more)
      × (more ≡ take (length more) (drop place content))
      × (length more ≤ size)
      × IsReading kern fd view content (place + length more) s
      × ReadEnd content place size (length more) rv s

  module _ (file : IsFile kern fd view) (eof_set : 0 < errors.apr_eof) where
    nothing_more :
        (content : Bytes) (place size : ℕ) (stored : Bytes) (rv : ℤ) (s : OpenFile K)
        → IsReading kern fd view content place s
        → ReadEnd content place size 0 rv s
        → ReadMore content place size stored (rv, stored) s
    nothing_more content place size stored rv s r ended =
        let place0 : place + 0 ≡ place = omega arith in
        ([], sym (append-nil stored), refl, omega arith, rw place0 r, ended)

    block_more :
        (content : Bytes) (place size : ℕ) (stored block : Bytes) (answer : ℤ × Bytes)
        (s : OpenFile K)
        → block ≡ take (length block) (drop place content)
        → length block ≤ size
        → ReadMore content (place + length block) (size - length block) (stored ++ block) answer s
        → ReadMore content place size stored answer s
    block_more content place size stored block (rv, out) s is_block le
          (more, is_out, is_more, le', r, ended) =
        let len = length-append block more in
        let further : place + length (block ++ more) ≡ place + length block + length more =
          omega (arith, len) in
        (
          block ++ more,
          is_out ∙ append_assoc stored block more,
          windows-join content block more place is_block is_more,
          omega (arith, len),
          rw further r,
          elim ended [
            | inl (e, z) ↦ inl (omega (arith, len, e), z)
            | inr (inl (z, hit, at_end)) ↦ inr (inl (z, hit, rw further at_end))
            | inr (inr failed) ↦ inr (inr failed)
          ],
        )

    pub read_blocks-ReadMore :
        (fuel size : ℕ) (stored : Bytes) (content : Bytes) (place : ℕ) (s : OpenFile K)
        → size < fuel
        → IsReading kern fd view content place s
        → Holds (ReadMore content place size stored) (read_blocks kern fuel size stored s)
    unfolding read_blocks
    read_blocks-ReadMore zero size stored content place s enough r = ground arith
    read_blocks-ReadMore (suc fuel) size stored content place s enough r =
        elim (Bool-cases (size == 0)) [
          | inl none_left ↦ rw none_left (
              nothing_more content place size stored (ℤ.pos 0) s r
                (inl (ground (arith, none_left), refl)))
          | inr wanted ↦ rw wanted (
              Holds-then (Refilled kern fd view content place) _ (refill kern s) _
                (refill-Refilled kern fd view file eof_set content place s r)
                λ rv s' (r', how). elim how [
                  | inl (z, some_left) ↦ rw z (
                      Holds-then {B = ℤ × Bytes} (Taken kern fd view content place size)
                        (ReadMore content place size stored) (take_block kern size s')
                        (λ block t. read_blocks kern fuel (size - length block) (stored ++ block) t)
                        (take_block-Taken kern fd view content place size s' r' some_left
                          (ground (arith, wanted)))
                        λ block t (is_block, positive, le, r'').
                          Holds-weaken
                            (ReadMore content (place + length block) (size - length block)
                              (stored ++ block))
                            (ReadMore content place size stored)
                            (read_blocks kern fuel (size - length block) (stored ++ block) t)
                            (read_blocks-ReadMore fuel (size - length block) (stored ++ block)
                              content (place + length block) t (omega arith) r'')
                            λ answer u more.
                              block_more content place size stored block answer u is_block le more)
                  | inr (inl (z, hit, at_end)) ↦
                      let place0 : place + 0 ≡ place = omega arith in
                      rw (z, ne→== errors.apr_eof 0 (omega arith))
                        (nothing_more content place size stored (ℤ.pos errors.apr_eof) s' r'
                          (inr (inl (refl, hit, rw place0 at_end))))
                  | inr (inr (nz, failing)) ↦
                      rw nz
                        (nothing_more content place size stored rv s' r' (inr (inr (nz, failing))))
                ])
        ]
