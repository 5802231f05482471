-- ===== src/Fileops/PlainWrite.antt =====
-- lkl_file_write and lkl_file_write_full without a buffer, as the uploads of the daemon open their files.
use lkl_lklftpd.Base.{
  ℕ, zero, suc, ◌+◌, ◌-◌, ◌%◌, ◌^◌, ◌≤◌, ◌<◌, ◌≡◌, refl, sym, ap, ◌∙◌, subst, true, false, not,
  ◌&&◌, inl, inr, arith, ◌==◌, leb, Bool-cases, if◌then◌else◌, Bytes, length, take, drop,
}
use mathlib.Core.Bool.{true≢false}
use lkl_lklftpd.System.{ℤ}
use lkl_lklftpd.Transfer.Write.{length-take_le, length-drop_le}
use lkl_lklftpd.Kernel.{Kernel}
use lkl_lklftpd.Kernel.Word.{is_negative, is_zero_int, size_of_int}
use lkl_lklftpd.Kernel.Laws.{FileView, WriteAnswer, IsFile, overwrite}
use lkl_lklftpd.Fileops.{OpenFile, FileRun, gives, done, off_add, off_sub, write_retry, ◌>>=◌}
use lkl_lklftpd.Fileops.Contents.{take-all, take-drop_append, overwrite-append, drop-add}
use lkl_lklftpd.Fileops.View.{Holds, Holds-then, Holds-weaken}
use lkl_lklftpd.Fileops.Plain.{CodesSet, IsPlain, no_error}
use lkl_lklftpd.Fileops.Write.{lkl_file_write, write_full_rounds, lkl_file_write_full}

-- A write of some bytes stores at least one of them.
abbrev pub WritesSome : (kern : Kernel) → ℤ → Type 0
WritesSome kern fd =
    (b : Bytes) (k : kern.K)
    → 0 < length b
    → (is_negative (kern.sys_write fd b k).0 ≡ false)
      × (is_zero_int (kern.sys_write fd b k).0 ≡ false)

module _ (kern : Kernel) (fd : ℤ) (view : FileView kern.K) where
  open kern use {K, errors}

  abbrev WroteSome : Bytes → ℕ → Bytes → ℤ × ℕ → OpenFile K → Type 0
  WroteSome content place b (rv, n) s =
      (rv ≡ ℤ.pos 0)
      × (0 < n)
      × (n ≤ length b)
      × IsPlain kern fd view (overwrite content place (take n b)) (place + n) s

  -- What a full write leaves: all of the bytes written at the place.
  abbrev pub WroteAll : Bytes → ℕ → Bytes → ℕ → ℤ × ℕ → OpenFile K → Type 0
  WroteAll content place b total (rv, n) s =
      (rv ≡ ℤ.pos 0)
      × (n ≡ total)
      × IsPlain kern fd view (overwrite content place b) (place + length b) s

  written-WroteSome :
      (content : Bytes) (place : ℕ) (b : Bytes) (s : OpenFile K) (rv : ℤ) (k' : K)
      → IsPlain kern fd view content place s
      → length b < 2 ^ 64
      → WriteAnswer view b s.kernel (rv, k')
      → is_negative rv ≡ false
      → is_zero_int rv ≡ false
      → WroteSome content place b (ℤ.pos 0, size_of_int rv) (record s { kernel = k' })
  written-WroteSome content place b s (ℤ.negsuc e) k' r small law works some =
      elim (true≢false works) [ ]
  written-WroteSome content place b s (ℤ.pos m) k' r small law works some =
      let exact : m % 2 ^ 64 ≡ m = omega (arith, law.0, small) in
      rw exact (
        refl,
        ground (arith, some),
        law.0,
        record {
          same_file = r.same_file;
          no_buffer = r.no_buffer;
          no_unget = r.no_unget;
          stored = rw (sym r.stored, sym r.offset) law.1;
          offset = omega (arith, law.2, r.offset);
        },
      )

  write_runs :
      (fuel : ℕ) (b : Bytes) (s : OpenFile K)
      → s.file.buffered ≡ false
      → CodesSet errors
      → is_negative (kern.sys_write s.file.filedes b s.kernel).0 ≡ false
      → let (rv, k') = kern.sys_write s.file.filedes b s.kernel in
        lkl_file_write kern (suc fuel) b s
        ≡ gives (ℤ.pos 0, size_of_int rv) (record s { kernel = k' })
  unfolding lkl_file_write write_retry
  write_runs fuel b s direct (eintr, eagain, ewouldblock, eof) works =
      let rv = (kern.sys_write s.file.filedes b s.kernel).0 in
      simp
        (
          direct,
          no_error kern fd view rv errors.eintr works eintr,
          no_error kern fd view rv errors.eagain works eagain,
          no_error kern fd view rv errors.ewouldblock works ewouldblock,
        )
        refl

  module _ (file : IsFile kern fd view) (codes : CodesSet errors) (some : WritesSome kern fd) where
    lkl_file_write-WroteSome :
        (fuel : ℕ) (b content : Bytes) (place : ℕ) (s : OpenFile K)
        → 0 < length b
        → length b < 2 ^ 64
        → IsPlain kern fd view content place s
        → Holds (WroteSome content place b) (lkl_file_write kern (suc fuel) b s)
    lkl_file_write-WroteSome fuel b content place s wanted small r =
        let answer = kern.sys_write s.file.filedes b s.kernel in
        let (works, progress) : (is_negative answer.0 ≡ false) × (is_zero_int answer.0 ≡ false) =
          rw r.same_file (some b s.kernel wanted) in
        let law : WriteAnswer view b s.kernel answer = rw r.same_file (file.writes b s.kernel) in
        subst (Holds (WroteSome content place b))
          (sym (write_runs fuel b s r.no_buffer codes works))
          (written-WroteSome content place b s answer.0 answer.1 r small law works progress)

    -- A write and the write of the rest behind it are one write.
    pieces :
        (content : Bytes) (place at m : ℕ) (buf : Bytes) (s : OpenFile K)
        → m ≤ length (drop at buf)
        → IsPlain kern fd view
            (overwrite
              (overwrite content place (take m (drop at buf)))
              (place + m)
              (drop (at + m) buf))
            (place + m + length (drop (at + m) buf))
            s
        → IsPlain kern fd view
            (overwrite content place (drop at buf))
            (place + length (drop at buf))
            s
    pieces content place at m buf s le r =
        let b = drop at buf in
        let len = length-take_le m b le in
        let there : place + m + length (drop m b) ≡ place + length b =
          omega (arith, length-drop_le m b, le) in
        let joined = simp len at (overwrite-append content place (take m b) (drop m b)) in
        let all : overwrite (overwrite content place (take m b)) (place + m) (drop m b)
            ≡ overwrite content place b =
          sym joined ∙ ap (overwrite content place) (take-drop_append m b) in
        let r' =
          subst
            (λ q.
              IsPlain kern fd view (overwrite (overwrite content place (take m b)) (place + m) q)
                (place + m + length q) s)
            (sym (drop-add at m buf)) r in
        rw (sym there, sym all) r'

    -- What the loop does behind a write.
    abbrev write_on : ℕ → ℕ → Bytes → ℕ → ℕ → ℕ → ℤ × ℕ → FileRun K (ℤ × ℕ)
    write_on rounds fuel buf at nbytes total (status, amt) =
        if is_zero_int status && not (off_sub nbytes amt == 0)
        then write_full_rounds kern rounds (suc fuel) buf (off_add at amt) (off_sub nbytes amt)
            (off_add total amt)
        else done (status, off_add total amt)

    rounds_run :
        (rounds fuel : ℕ) (buf : Bytes) (at nbytes total : ℕ) (s : OpenFile K)
        → at + nbytes ≡ length buf
        → write_full_rounds kern (suc rounds) (suc fuel) buf at nbytes total s
          ≡ (lkl_file_write kern (suc fuel) (drop at buf)
                >>= write_on rounds fuel buf at nbytes total)
              s
    unfolding write_full_rounds
    rounds_run rounds fuel buf at nbytes total s whole =
        let inside : leb (at + nbytes) (length buf) ≡ true = ground arith in
        let left : length (drop at buf) ≡ nbytes = omega (arith, length-drop_le at buf) in
        let piece : take nbytes (drop at buf) ≡ drop at buf =
          rw (sym left) (take-all (drop at buf)) in
        simp (inside, piece) refl

    write_full_rounds-WroteAll :
        (rounds fuel : ℕ) (buf : Bytes) (at nbytes : ℕ) (content : Bytes) (place : ℕ)
        (s : OpenFile K)
        → 0 < nbytes
        → nbytes ≤ rounds
        → at + nbytes ≡ length buf
        → length buf < 2 ^ 64
        → IsPlain kern fd view content place s
        → Holds
            (WroteAll content place (drop at buf) (length buf))
            (write_full_rounds kern rounds (suc fuel) buf at nbytes at s)
    write_full_rounds-WroteAll zero fuel buf at nbytes content place s wanted enough whole small r =
        ground arith
    write_full_rounds-WroteAll (suc rounds) fuel buf at nbytes content place s wanted enough whole
          small r =
        let b = drop at buf in
        let left : length b ≡ nbytes = omega (arith, length-drop_le at buf) in
        subst (Holds (WroteAll content place b (length buf)))
          (sym (rounds_run rounds fuel buf at nbytes at s whole))
          (Holds-then {B = ℤ × ℕ} (WroteSome content place b)
            (WroteAll content place b (length buf)) (lkl_file_write kern (suc fuel) b s)
            (write_on rounds fuel buf at nbytes at)
            (lkl_file_write-WroteSome fuel b content place s (omega arith) (omega arith) r)
            λ (status, m) t (z, some_written, le, r').
              let rest : off_sub nbytes m ≡ nbytes - m = omega arith in
              let on : off_add at m ≡ at + m = omega arith in
              elim (Bool-cases (nbytes - m == 0)) [
                | inl all ↦
                    let is_all : m ≡ length b = ground (arith, all, le, left) in
                    rw (z, rest, all, on)
                      (
                        refl,
                        omega (arith, whole, is_all, left),
                        subst
                            (λ q.
                              IsPlain kern fd view (overwrite content place q) (place + length b) t)
                            (take-all b)
                            (subst
                              (λ n.
                                IsPlain kern fd view (overwrite content place (take n b))
                                  (place + n) t)
                              is_all r'),
                      )
                | inr more ↦
                    let further = overwrite content place (take m b) in
                    rw (z, rest, more, on)
                      (Holds-weaken (WroteAll further (place + m) (drop (at + m) buf) (length buf))
                        (WroteAll content place b (length buf))
                        (write_full_rounds kern rounds (suc fuel) buf (at + m) (nbytes - m) (at + m)
                          t)
                        (write_full_rounds-WroteAll rounds fuel buf (at + m) (nbytes - m) further
                          (place + m) t (ground (arith, more)) (omega (arith, enough, some_written))
                          (omega (arith, whole, le, left)) small r')
                        λ (rv, n) u (ok, total, q).
                          (ok, total, pieces content place at m buf u le q))
              ])

    -- Without a buffer lkl_file_write_full returns APR_SUCCESS within as many rounds as there are
    -- bytes, with their number, and the content is the old one with all of the bytes written over
    -- it at the place, however few of them each write of the kernel stores. There is at least one
    -- byte and fewer than 2 ^ 64, no write of the kernel fails, each stores a byte, and the error
    -- codes are not 0.
    pub lkl_file_write_full-WroteAll :
        (rounds fuel : ℕ) (buf content : Bytes) (place : ℕ) (s : OpenFile K)
        → 0 < length buf
        → length buf ≤ rounds
        → length buf < 2 ^ 64
        → IsPlain kern fd view content place s
        → Holds
            (WroteAll content place buf (length buf))
            (lkl_file_write_full kern rounds (suc fuel) buf s)
    unfolding lkl_file_write_full
    lkl_file_write_full-WroteAll rounds fuel buf content place s wanted enough small r =
        write_full_rounds-WroteAll rounds fuel buf 0 (length buf) content place s wanted enough
          (omega arith) small r
