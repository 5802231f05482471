-- ===== src/Fileops/Reading.antt =====
-- lkl_file_read of a buffered file refines the reading of its content.
use lkl_lklftpd.Base.{
  ℕ, zero, suc, ◌+◌, ◌-◌, ◌≤◌, ◌<◌, ◌≡◌, refl, sym, subst, not, ◌⊎◌, inl, inr, arith, [], ◌==◌,
  ne→==, if◌then◌else◌, Bytes, length, take, drop,
}
use lkl_lklftpd.System.{ℤ}
use lkl_lklftpd.Kernel.{Kernel}
use lkl_lklftpd.Kernel.Laws.{FileView, IsFile}
use lkl_lklftpd.Fileops.{OpenFile, FileRun, then_run, done, ◌>>=◌}
use lkl_lklftpd.Fileops.View.{Holds, Holds-then, IsReading}
use lkl_lklftpd.Fileops.Writes.{WritesWhole}
use lkl_lklftpd.Fileops.Buffered.{IsOpen, open_buffered}
use lkl_lklftpd.Fileops.Reads.{Failing}
use lkl_lklftpd.Fileops.ReadLoop.{ReadMore, read_blocks-ReadMore}
use lkl_lklftpd.Fileops.Seeks.{turned_to_reading}
use lkl_lklftpd.Fileops.Read.{
  unget, take_unget, read_blocks, read_result, file_read_buffered, lkl_file_read,
}

module _ (kern : Kernel) (fd : ℤ) (view : FileView kern.K) where
  open kern use {K, errors}

  -- What a read leaves: the bytes from the place on, as many as were wanted but at the end of the file
  -- or where a read has failed; a status other than 0 only where there are none.
  abbrev pub ReadFrom : Bytes → ℕ → ℕ → ℤ × ℕ × Bytes → OpenFile K → Type 0
  ReadFrom content place nbytes (rv, n, out) s =
      (n ≡ length out)
      × (out ≡ take n (drop place content))
      × (n ≤ nbytes)
      × IsReading kern fd view content (place + n) s
      × ((n ≡ 0) ⊎ (rv ≡ ℤ.pos 0))
      × ((n ≡ nbytes)
          ⊎ (((drop (place + n) content ≡ []) × ((rv ≡ ℤ.pos 0) ⊎ (rv ≡ ℤ.pos errors.apr_eof)))
              ⊎ Failing kern fd view))

  -- A status that is dropped where there are bytes.
  kept_status : (n : ℕ) (rv : ℤ) → ((n ≡ 0) ⊎ ((if not (n == 0) then ℤ.pos 0 else rv) ≡ ℤ.pos 0))
  kept_status zero rv = inl refl
  kept_status (suc n) rv = inr (rw (ne→== (suc n) 0 (omega arith)) refl)

  end_status :
      (n : ℕ) (rv e : ℤ)
      → rv ≡ e
      → ((if not (n == 0) then ℤ.pos 0 else rv) ≡ ℤ.pos 0)
        ⊎ ((if not (n == 0) then ℤ.pos 0 else rv) ≡ e)
  end_status zero rv e h = inr h
  end_status (suc n) rv e h = inl (rw (ne→== (suc n) 0 (omega arith)) refl)

  module _ (file : IsFile kern fd view) (whole : WritesWhole kern fd) where
    read_result-ReadFrom :
        (content : Bytes) (place nbytes : ℕ) (answer : ℤ × Bytes) (s : OpenFile K)
        → ReadMore kern fd view content place nbytes [] answer s
        → Holds (ReadFrom content place nbytes) (read_result kern answer s)
    read_result-ReadFrom content place nbytes (rv, out) s (more, is_out, is_more, le, r, ended) =
        rw is_out (
          refl,
          is_more,
          le,
          r,
          kept_status (length more) rv,
          elim ended [
            | inl (e, z) ↦ inl e
            | inr (inl (z, hit, at_end)) ↦
                inr (inl (at_end, end_status (length more) rv (ℤ.pos errors.apr_eof) z))
            | inr (inr (nz, failing)) ↦ inr (inr failing)
          ],
        )

    file_read_buffered-ReadFrom :
        0 < errors.apr_eof
        → (fuel nbytes : ℕ) (content : Bytes) (place : ℕ) (s : OpenFile K)
        → IsOpen kern fd view content place s
        → Holds (ReadFrom content place nbytes) (file_read_buffered kern (suc fuel) nbytes s)
    unfolding file_read_buffered
    file_read_buffered-ReadFrom eof_set fuel nbytes content place s o =
        let rest : Bytes → FileRun K (ℤ × ℕ × Bytes) = λ first.
          read_blocks kern (suc nbytes) (nbytes - length first) first >>= read_result kern in
        turned_to_reading kern fd view file whole fuel content place s (λ rv. done (rv, nbytes, []))
          (take_unget kern >>= rest) (ReadFrom content place nbytes) o
          λ t r.
            let n0 : nbytes - 0 ≡ nbytes = omega arith in
            subst (λ u. Holds (ReadFrom content place nbytes) (then_run (unget kern u t) rest))
              (sym r.no_unget)
              (rw n0 (
                Holds-then {B = ℤ × ℕ × Bytes} (ReadMore kern fd view content place nbytes [])
                  (ReadFrom content place nbytes) (read_blocks kern (suc nbytes) nbytes [] t)
                  (read_result kern)
                  (read_blocks-ReadMore kern fd view file eof_set (suc nbytes) nbytes [] content
                    place t (omega arith) r)
                  (read_result-ReadFrom content place nbytes)))

    -- lkl_file_read of a buffered file in order, which may be being written, returns bytes of the
    -- content from the place on, no more than asked for, and leaves the file in order behind them.
    -- They are as many as asked for, or the content ends behind them and the status is APR_SUCCESS
    -- or APR_EOF, or the kernel has a read that fails. With bytes the status is APR_SUCCESS. Writes
    -- of the kernel are whole.
    pub lkl_file_read-ReadFrom :
        0 < errors.apr_eof
        → (fuel nbytes : ℕ) (content : Bytes) (place : ℕ) (s : OpenFile K) → 0 < nbytes
        → IsOpen kern fd view content place s
        → Holds (ReadFrom content place nbytes) (lkl_file_read kern (suc fuel) nbytes s)
    unfolding lkl_file_read
    lkl_file_read-ReadFrom eof_set fuel nbytes content place s wanted o =
        simp (ne→== nbytes 0 (omega arith), open_buffered kern fd view content place s o)
          (file_read_buffered-ReadFrom eof_set fuel nbytes content place s o)
