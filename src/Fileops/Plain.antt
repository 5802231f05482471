-- ===== src/Fileops/Plain.antt =====
-- lkl_file_read and lkl_file_read_full without a buffer, as the transfers of the daemon open their files.
use lkl_lklftpd.Base.{
  ℕ, zero, suc, ◌+◌, ◌-◌, ◌^◌, ◌≤◌, ◌<◌, ◌≡◌, refl, sym, ◌∙◌, subst, Bool, true, false, not, ◌&&◌,
  ◌⊎◌, inl, inr, none, arith, [], ◌++◌, ◌==◌, Bool-cases, ne→==, if◌then◌else◌, Bytes, length, take,
  drop, length-append,
}
use mathlib.Core.Bool.{true≢false}
use lkl_lklftpd.System.{ℤ}
use lkl_lklftpd.Kernel.{Kernel, Errors}
use lkl_lklftpd.Kernel.Word.{is_zero_int, is_negative, is_minus}
use lkl_lklftpd.Kernel.Laws.{FileView, ReadAnswer, IsFile}
use lkl_lklftpd.Fileops.{OpenFile, FileRun, done, off_add, off_sub, read_retry, ◌>>=◌}
use lkl_lklftpd.Fileops.Contents.{windows-join}
use lkl_lklftpd.Fileops.View.{Holds, Holds-then}
use lkl_lklftpd.Fileops.Read.{direct_result, read_direct, lkl_file_read, lkl_file_read_full}

and_no : (a : Bool) → (a && false) ≡ false
and_no true = refl
and_no false = refl

-- The codes that the loops look for are not 0.
abbrev pub CodesSet : Errors → Type 0
CodesSet errors =
    (0 < errors.eintr) × (0 < errors.eagain) × (0 < errors.ewouldblock) × (0 < errors.apr_eof)

module _ (kern : Kernel) (fd : ℤ) (view : FileView kern.K) where
  open kern use {K, errors}

  -- An open file without a buffer, at a place in its content.
  pub record IsPlain (content : Bytes) (place : ℕ) (s : OpenFile K) : Type 0 where
    pub same_file : s.file.filedes ≡ fd
    pub no_buffer : s.file.buffered ≡ false
    pub no_unget : s.file.ungetchar ≡ none
    pub stored : view.content s.kernel ≡ content
    pub offset : view.offset s.kernel ≡ place

  -- What one read leaves: some of the bytes that were asked for, or the end of the file.
  abbrev pub ReadSome : Bytes → ℕ → ℕ → ℤ × ℕ × Bytes → OpenFile K → Type 0
  ReadSome content place nbytes (rv, n, out) s =
      (n ≡ length out)
      × (out ≡ take (length out) (drop place content))
      × (length out ≤ nbytes)
      × IsPlain content (place + length out) s
      × (((rv ≡ ℤ.pos 0) × (0 < length out))
          ⊎ ((rv ≡ ℤ.pos errors.apr_eof) × (drop (place + length out) content ≡ [])))

  -- What the loop leaves: all of the bytes that were asked for, or those up to the end of the file.
  abbrev pub ReadAll : Bytes → ℕ → ℕ → ℤ × ℕ × Bytes → OpenFile K → Type 0
  ReadAll content place nbytes (rv, n, out) s =
      (n ≡ length out)
      × (out ≡ take (length out) (drop place content))
      × (length out ≤ nbytes)
      × IsPlain content (place + length out) s
      × (((rv ≡ ℤ.pos 0) × (length out ≡ nbytes))
          ⊎ ((rv ≡ ℤ.pos errors.apr_eof) × (drop (place + length out) content ≡ [])))

  direct_result-ReadSome :
      (content : Bytes) (place nbytes : ℕ) (s : OpenFile K) (rv : ℤ) (got : Bytes) (k' : K)
      → IsPlain content place s
      → ReadAnswer view nbytes s.kernel (rv, got, k')
      → is_negative rv ≡ false
      → Holds
          (ReadSome content place nbytes)
          (direct_result kern [] (rv, got) (record s { kernel = k' }))
  direct_result-ReadSome content place nbytes s (ℤ.pos zero) got k' r law works =
      let place0 : place + 0 ≡ place = omega arith in
      let at_end : drop place content ≡ [] = rw (sym r.offset, sym r.stored) (law.3 refl) in
      let stays : IsPlain content place
          (record { file = record s.file { eof_hit = true }; kernel = k' }) =
        record {
          same_file = r.same_file;
          no_buffer = r.no_buffer;
          no_unget = r.no_unget;
          stored = law.4 ∙ r.stored;
          offset = omega (arith, law.5, r.offset);
        } in
      rw place0 (refl, refl, omega arith, stays, inr (refl, at_end))
  direct_result-ReadSome content place nbytes s (ℤ.pos (suc m)) got k' r law works =
      let is_got : got ≡ take (length got) (drop place content) =
        rw (law.0, sym r.offset, sym r.stored) law.2 in
      let moved : IsPlain content (place + length got) (record s { kernel = k' }) = record {
        same_file = r.same_file;
        no_buffer = r.no_buffer;
        no_unget = r.no_unget;
        stored = law.4 ∙ r.stored;
        offset = omega (arith, law.0, law.5, r.offset);
      } in
      rw (ne→== (suc m) 0 (omega arith)) (
        omega (arith, law.0),
        is_got,
        omega (arith, law.0, law.1),
        moved,
        inl (refl, omega (arith, law.0)),
      )
  direct_result-ReadSome content place nbytes s (ℤ.negsuc e) got k' r law works =
      elim (true≢false works) [ ]

  pub no_error : (rv : ℤ) (e : ℕ) → is_negative rv ≡ false → 0 < e → is_minus rv e ≡ false
  no_error (ℤ.pos n) e works set = rw (ne→== e 0 (omega arith)) (and_no (n == 0))
  no_error (ℤ.negsuc n) e works set = elim (true≢false works) [ ]

  read_runs :
      (fuel nbytes : ℕ) (s : OpenFile K)
      → s.file.buffered ≡ false
      → s.file.ungetchar ≡ none
      → 0 < nbytes
      → CodesSet errors
      → is_negative (kern.sys_read s.file.filedes nbytes s.kernel).0 ≡ false
      → let (rv, got, k') = kern.sys_read s.file.filedes nbytes s.kernel in
        lkl_file_read kern (suc fuel) nbytes s
        ≡ direct_result kern [] (rv, got) (record s { kernel = k' })
  unfolding lkl_file_read read_direct read_retry
  read_runs fuel nbytes s direct unread wanted (eintr, eagain, ewouldblock, eof) works =
      let rv = (kern.sys_read s.file.filedes nbytes s.kernel).0 in
      let all : nbytes - 0 ≡ nbytes = omega arith in
      simp
        (
          ne→== nbytes 0 (omega arith),
          direct,
          unread,
          all,
          no_error rv errors.eintr works eintr,
          no_error rv errors.eagain works eagain,
          no_error rv errors.ewouldblock works ewouldblock,
        )
        refl

  module _ (file : IsFile kern fd view) (codes : CodesSet errors)
      (works : (n : ℕ) (k : K) → is_negative (kern.sys_read fd n k).0 ≡ false) where
    lkl_file_read-ReadSome :
        (fuel nbytes : ℕ) (content : Bytes) (place : ℕ) (s : OpenFile K)
        → 0 < nbytes
        → IsPlain content place s
        → Holds (ReadSome content place nbytes) (lkl_file_read kern (suc fuel) nbytes s)
    lkl_file_read-ReadSome fuel nbytes content place s wanted r =
        let answer = kern.sys_read s.file.filedes nbytes s.kernel in
        let works' : is_negative answer.0 ≡ false = rw r.same_file (works nbytes s.kernel) in
        let law : ReadAnswer view nbytes s.kernel answer =
          rw r.same_file (file.reads nbytes s.kernel wanted) in
        subst (Holds (ReadSome content place nbytes))
          (sym (read_runs fuel nbytes s r.no_buffer r.no_unget wanted codes works'))
          (direct_result-ReadSome content place nbytes s answer.0 answer.1 answer.2 r law works')

    -- The bytes of a round and those of the rounds behind it.
    joined :
        (content : Bytes) (place nbytes : ℕ) (got : Bytes) (answer : ℤ × ℕ × Bytes) (s : OpenFile K)
        → got ≡ take (length got) (drop place content)
        → length got ≤ nbytes
        → nbytes < 2 ^ 64
        → ReadAll content (place + length got) (nbytes - length got) answer s
        → ReadAll content place nbytes (answer.0, off_add (length got) answer.1, got ++ answer.2) s
    joined content place nbytes got (rv, n, more) s is_got le small (is_n, is_more, le', r, ended) =
        let len = length-append got more in
        let further : place + length (got ++ more) ≡ place + length got + length more =
          omega (arith, len) in
        (
          omega (arith, len, is_n, le, le', small),
          windows-join content got more place is_got is_more,
          omega (arith, len, le, le'),
          rw further r,
          elim ended [
            | inl (z, e) ↦ inl (z, omega (arith, len, e, le))
            | inr (z, at_end) ↦ inr (z, rw further at_end)
          ],
        )

    -- What the loop does behind a read.
    abbrev read_on : ℕ → ℕ → ℕ → ℤ × ℕ × Bytes → FileRun K (ℤ × ℕ × Bytes)
    read_on rounds fuel nbytes (status, amt, got) =
        if is_zero_int status && not (off_sub nbytes amt == 0)
        then (lkl_file_read_full kern rounds (suc fuel) (off_sub nbytes amt)
            >>= λ (last, total, more). done (last, off_add amt total, got ++ more))
        else done (status, amt, got)

    -- Without a buffer lkl_file_read_full returns within as many rounds as bytes are asked for,
    -- however few bytes each read of the kernel gives: with APR_SUCCESS and all of the bytes from
    -- the place on that were asked for, or with APR_EOF and those up to the end of the file, and
    -- the place behind them. At least one byte and fewer than 2 ^ 64 are asked for, no read of the
    -- kernel fails, and the error codes are not 0.
    pub lkl_file_read_full-ReadAll :
        (rounds fuel nbytes : ℕ) (content : Bytes) (place : ℕ) (s : OpenFile K)
        → 0 < nbytes
        → nbytes ≤ rounds
        → nbytes < 2 ^ 64
        → IsPlain content place s
        → Holds (ReadAll content place nbytes) (lkl_file_read_full kern rounds (suc fuel) nbytes s)
    unfolding lkl_file_read_full
    lkl_file_read_full-ReadAll zero fuel nbytes content place s wanted enough small r = ground arith
    lkl_file_read_full-ReadAll (suc rounds) fuel nbytes content place s wanted enough small r =
        Holds-then {B = ℤ × ℕ × Bytes} (ReadSome content place nbytes)
          (ReadAll content place nbytes) (lkl_file_read kern (suc fuel) nbytes s)
          (read_on rounds fuel nbytes) (lkl_file_read-ReadSome fuel nbytes content place s wanted r)
          λ (status, amt, got) t (is_n, is_got, le, r', ended).
            let left : off_sub nbytes (length got) ≡ nbytes - length got =
              omega (arith, le, small) in
            elim ended [
              | inr (z, at_end) ↦
                  rw (z, is_n, ne→== errors.apr_eof 0 (omega (arith, codes)))
                    (refl, is_got, le, r', inr (refl, at_end))
              | inl (z, some) ↦ elim (Bool-cases (nbytes - length got == 0)) [
                | inl all ↦
                    rw (z, is_n, left, all)
                      (refl, is_got, le, r', inl (refl, ground (arith, all, le)))
                | inr more ↦
                    rw (z, is_n, left, more)
                      (Holds-then {B = ℤ × ℕ × Bytes}
                        (ReadAll content (place + length got) (nbytes - length got))
                        (ReadAll content place nbytes)
                        (lkl_file_read_full kern rounds (suc fuel) (nbytes - length got) t)
                        (λ (last, total, rest).
                          done (last, off_add (length got) total, got ++ rest))
                        (lkl_file_read_full-ReadAll rounds fuel (nbytes - length got) content
                          (place + length got) t (ground (arith, more))
                          (omega (arith, enough, some)) (omega (arith, small)) r')
                        λ answer u rest.
                          joined content place nbytes got answer u is_got le small rest)
              ]
            ]
