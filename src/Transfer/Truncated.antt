-- ===== src/Transfer/Truncated.antt =====
-- A round of do_file_send_rwloop in ASCII mode: what the socket gets of the converted text.
use lkl_lklftpd.Base.{
  ℕ, suc, ◌+◌, ◌≤◌, ◌<◌, ◌≡◌, refl, ◌⊎◌, Bool, true, false, not, [], ◌∷◌, ◌++◌, ◌&&◌, ◌||◌, arith,
  ◌==◌, ne→==, Bytes, length, take, ◌∙◌, ap, inl, inr, Bool-cases,
}
use lkl_lklftpd.Ascii.Spec.{lf_to_crlf}
use lkl_lklftpd.Ascii.Expand.{bin_to_ascii-expands, length-lf_to_crlf}
use lkl_lklftpd.System.{
  ℤ, Apr, KeepsCounts, State, Status, is_success, is_eof, Call, Socket, File, Outcome, ret, halted,
  and_then,
}
use lkl_lklftpd.Transfer.{
  send_buffer, send_chunk_size, file_send_loop, after_write, size_add, TransferRet, transfer_ret,
}
use lkl_lklftpd.Transfer.Write.{delivered, Wrote, lfd_socket_write_full-Wrote}

abbrev pub has_lf : Bytes → Bool
has_lf [] = false
has_lf (c ∷ rest) = c == 10 || has_lf rest

has_lf-longer : (got : Bytes) → has_lf got ≡ true → length got < length (lf_to_crlf got)
has_lf-longer [] h = absurd (ground arith)
has_lf-longer (c ∷ rest) h = elim (Bool-cases (c == 10)) [
  | inl e ↦ rw e (omega (arith, (length-lf_to_crlf rest).0))
  | inr e ↦ rw e (omega (arith, has_lf-longer rest (ground arith)))
]

has_lf-some : (got : Bytes) → has_lf got ≡ true → (length got == 0) ≡ false
has_lf-some [] h = absurd (ground arith)
has_lf-some (c ∷ rest) h = ne→== (suc (length rest)) 0 (omega arith)

-- The loop's round has gone through the state `st'`, where the socket has got the first `k` bytes of the
-- converted text, which are not all; from there the loop gives up with -2, or is again at its start,
-- with the bytes read on top of its count.
abbrev pub CutShort : Apr → ℕ → File → Socket → Bytes → ℕ → State → Outcome TransferRet → Type 0
CutShort apr fuel file sock got n st o =
    (k : ℕ) × (st' : State) × (k < length (lf_to_crlf got))
    × (delivered apr sock st'.history ≡ delivered apr sock st.history ++ take k (lf_to_crlf got))
    × ((o ≡ ret (transfer_ret (ℤ.negsuc 1) n) st')
        ⊎ (o ≡ file_send_loop apr fuel file sock true (size_add n (length got)) st'))

module _ (apr : Apr) (counts : KeepsCounts apr) (file : File) (sock : Socket) where
  CutShort-of :
      (fuel : ℕ) (got out : Bytes) (n : ℕ) (st : State) (o : Outcome (Status × ℕ))
      → out ≡ lf_to_crlf got
      → length got < length (lf_to_crlf got)
      → Wrote apr sock out (length got) 0 st o
      → CutShort apr fuel file sock got n st
          (and_then o (after_write apr got n (λ m. file_send_loop apr fuel file sock true m)))
  CutShort-of fuel got out n st (halted why st') e lt w = absurd w
  CutShort-of fuel got out n st (ret (rc, m) st') e lt (k, u, total, le, counted, ended, sent) = (
    k + u,
    st',
    omega arith,
    sent ∙ ap (λ t. delivered apr sock st.history ++ take (k + u) t) e,
    elim (Bool-cases (is_success rc)) [
      | inr failed ↦ rw failed (inl refl)
      | inl fine ↦ elim (Bool-cases (m == length got)) [
        | inr short ↦ rw (fine, short) (inl refl)
        | inl whole ↦ let all : m ≡ length got = ground arith in rw (fine, whole, all) (inr refl)
      ]
    ],
  )

  -- A round of the loop of do_file_send_rwloop in ASCII mode that has read bytes with a '\n': when
  -- the loop gives up with -2, or is back at its start with the number of the bytes read on top of
  -- its count, the socket has got a first part of the converted text and not all of it. The read
  -- has not failed, and the runtime moves no more bytes than it is asked to.
  pub ascii_round-CutShort :
      (fuel : ℕ) (n : ℕ) (st : State) (rc : Status) (got : Bytes)
      → apr.file_read st.history file send_chunk_size ≡ (rc, got)
      → (is_success rc || is_eof rc) ≡ true
      → has_lf got ≡ true
      → CutShort apr fuel file sock got n st (file_send_loop apr (suc fuel) file sock true n st)
  unfolding file_send_loop
  ascii_round-CutShort fuel n st rc got read fine lf =
      let st' = record st { history = Call.file_read file send_chunk_size ∷ st.history } in
      let (expands, _) = bin_to_ascii-expands got in
      let longer = has_lf-longer got lf in
      let room : length got ≤ length (send_buffer apr true got) =
        rw expands (length-lf_to_crlf got).0 in
      let at_most = counts.read-le st.history file send_chunk_size in
      let same : length (apr.file_read st.history file send_chunk_size).1 ≡ length got =
        ap (λ r. length r.1) read in
      let test : (not (is_success rc) && not (is_eof rc)) ≡ false = ground arith in
      let some_read : (length got == 0) ≡ false = has_lf-some got lf in
      rw (read, test, some_read)
        (CutShort-of fuel got (send_buffer apr true got) n st _ expands longer (
          lfd_socket_write_full-Wrote apr counts sock (send_buffer apr true got) (length got) st'
            room (omega arith)))
