-- ===== src/Transfer/Files.antt =====
-- do_file_send_rwloop: what the data socket gets of a file.
use lkl_lklftpd.Base.{
  some, ℕ, zero, suc, ◌+◌, ◌<◌, ◌^◌, ◌≡◌, refl, ◌⊎◌, true, false, [], ◌∷◌, ◌++◌, arith, ◌==◌, ◌||◌,
  ◌&&◌, inl, inr, Bool-cases, if◌then◌else◌, Bytes, length, take, drop, append_assoc, append-nil,
  ◌∙◌, sym, ap, not, length-append,
}
use lkl_lklftpd.System.{
  Apr, KeepsCounts, State, Status, is_success, is_eof, ℤ, Call, History, Socket, File, Outcome, ret,
  halted, Halt, and_then, Run,
}
use lkl_lklftpd.Transfer.{
  write_full_loop, lfd_socket_write_full, size_add, size_sub, TransferRet, after_write,
  file_send_loop, send_chunk_size, do_file_send_rwloop,
}
use lkl_lklftpd.Transfer.Write.{delivered, Wrote, lfd_socket_write_full-Wrote}

-- The bytes that have been read from a file, by the calls that do not fail.
abbrev pub consumed : Apr → File → History → Bytes
consumed apr f [] = []
consumed apr f (Call.file_read g n ∷ h) =
    let earlier = consumed apr f h in
    let (rc, got) = apr.file_read h g n in
    if g == f then earlier ++ (if is_success rc || is_eof rc then got else []) else earlier
consumed apr f (_ ∷ h) = consumed apr f h

take-length_add :
    (xs ys : Bytes) (k n : ℕ) → n ≡ length xs + k → take n (xs ++ ys) ≡ xs ++ take k ys
take-length_add [] ys k n e = let same : n ≡ k = omega arith in rw same
take-length_add (x ∷ xs) ys k zero e = absurd (omega arith)
take-length_add (x ∷ xs) ys k (suc n) e = ap (λ t. x ∷ t) (take-length_add xs ys k n (omega arith))

-- From `st` on the bytes `text` have been read, and the socket has accepted the first of them: all of
-- them, counted on top of `n`, if the loop reports no failure.
abbrev pub Sent : Apr → File → Socket → ℕ → State → Outcome TransferRet → Type 0
Sent apr file sock n st (ret r st') =
    (text : Bytes) × (k : ℕ) × (consumed apr file st'.history
      ≡ consumed apr file st.history ++ text)
    × (delivered apr sock st'.history ≡ delivered apr sock st.history ++ take k text)
    × (((r.retval ≡ ℤ.pos 0) × (k ≡ length text) × (r.transferred ≡ size_add n (length text)))
        ⊎ ((r.retval ≡ ℤ.negsuc 0) ⊎ (r.retval ≡ ℤ.negsuc 1)))
Sent apr file sock n st (halted why st') = why ≡ Halt.out_of_fuel

abbrev SameConsumed : Apr → File → State → Outcome (Status × ℕ) → Type 0
SameConsumed apr file st (ret _ st') = consumed apr file st'.history ≡ consumed apr file st.history
SameConsumed apr file st (halted why st') = Unit {0}

module _ (apr : Apr) (file : File) (sock : Socket) where
  write_full_loop-SameConsumed :
      (fuel : ℕ) (rest : Bytes) (size done : ℕ) (st : State)
      → SameConsumed apr file st (write_full_loop apr fuel sock rest size done st)
  unfolding write_full_loop
  write_full_loop-SameConsumed zero rest size done st = tt
  write_full_loop-SameConsumed (suc fuel) rest size done st =
      let n = (apr.send st.history sock (take size rest)).1 in
      ground (
        arith,
        write_full_loop-SameConsumed fuel (drop n rest) (size_sub size n) (size_add done n)
            (record st { history = Call.send sock (take size rest) ∷ st.history }),
      )

  -- A round that reads `got` and sends it, followed by the rest of the loop.
  Sent-more :
      (got : Bytes) (n : ℕ) (st st' : State) (o : Outcome TransferRet)
      → consumed apr file st'.history ≡ consumed apr file st.history ++ got
      → delivered apr sock st'.history ≡ delivered apr sock st.history ++ got
      → Sent apr file sock (size_add n (length got)) st' o
      → Sent apr file sock n st o
  Sent-more got n st st' (halted why st'') c d h = h
  Sent-more got n st st' (ret r st'') c d (text, k, c', d', e) = (
    got ++ text,
    length got + k,
    c' ∙ ap (λ t. t ++ text) c ∙ append_assoc (consumed apr file st.history) got text,
    d'
        ∙ ap (λ t. t ++ take k text) d
        ∙ append_assoc (delivered apr sock st.history) got (take k text)
        ∙ ap (λ t. delivered apr sock st.history ++ t)
            (sym (take-length_add got text k (length got + k) refl)),
    total e,
  )
    where
      total :
          ((r.retval ≡ ℤ.pos 0)
              × (k ≡ length text)
              × (r.transferred ≡ size_add (size_add n (length got)) (length text)))
            ⊎ ((r.retval ≡ ℤ.negsuc 0) ⊎ (r.retval ≡ ℤ.negsuc 1))
          → ((r.retval ≡ ℤ.pos 0)
              × (length got + k ≡ length (got ++ text))
              × (r.transferred ≡ size_add n (length (got ++ text))))
            ⊎ ((r.retval ≡ ℤ.negsuc 0) ⊎ (r.retval ≡ ℤ.negsuc 1))
      total (inl (a, b, s)) =
          inl (a, omega (arith, length-append got text), omega (arith, length-append got text))
      total (inr f) = inr f

  nil_of_length : (xs : Bytes) → length xs ≡ 0 → xs ≡ []
  nil_of_length [] e = refl
  nil_of_length (x ∷ xs) e = absurd (omega arith)

  same_file : (file == file) ≡ true
  same_file = ground arith

  take_all : (xs : Bytes) (n : ℕ) → n ≡ length xs → take n xs ≡ xs
  take_all [] zero e = refl
  take_all [] (suc n) e = refl
  take_all (x ∷ xs) zero e = absurd (omega arith)
  take_all (x ∷ xs) (suc n) e = ap (λ t. x ∷ t) (take_all xs n (omega arith))

  module _ (again : ℕ → Run TransferRet) where
    after_write-Sent :
        (got : Bytes) (n : ℕ) (st st' : State) (o : Outcome (Status × ℕ))
        → ((m : ℕ) (s : State) → m < 2 ^ 64 → Sent apr file sock m s (again m s))
        → consumed apr file st'.history ≡ consumed apr file st.history ++ got
        → delivered apr sock st'.history ≡ delivered apr sock st.history
        → Wrote apr sock got (length got) 0 st' o
        → SameConsumed apr file st' o
        → Sent apr file sock n st (and_then o (after_write apr got n again))
    after_write-Sent got n st st' (halted why s) ih c d w same = absurd w
    after_write-Sent got n st st' (ret (rc, m) s) ih c d (k, u, count, le, counted, ended, out)
          same =
        let out' = out ∙ ap (λ t. t ++ take (k + u) got) d in
        elim (Bool-cases (is_success rc)) [
          | inr failed ↦ rw failed (got, k + u, same ∙ c, out', inr (inr refl))
          | inl fine ↦ elim (Bool-cases (m == length got)) [
            | inr short ↦ rw (fine, short) (got, k + u, same ∙ c, out', inr (inr refl))
            | inl whole ↦
                let all : m ≡ length got = ground arith in
                let every : k + u ≡ length got = omega (arith, counted fine) in
                rw (fine, whole)
                  (Sent-more got n st s _ (same ∙ c)
                    (out'
                      ∙ ap (λ t. delivered apr sock st.history ++ t) (take_all got (k + u) every))
                    (rw all (ih (size_add n (length got)) s (omega arith))))
          ]
        ]

  open_sock_lem :
      (fuel : ℕ) (st : State)
      → st.sess.data_conn.data_sock ≡ some sock
      → do_file_send_rwloop apr fuel file false st ≡ file_send_loop apr fuel file sock false 0 st
  unfolding do_file_send_rwloop
  open_sock_lem fuel st e = ground arith

  module _ (counts : KeepsCounts apr) where
    file_send_loop-Sent :
        (fuel : ℕ) (n : ℕ) (st : State)
        → n < 2 ^ 64
        → Sent apr file sock n st (file_send_loop apr fuel file sock false n st)
    unfolding file_send_loop
    file_send_loop-Sent zero n st small = refl
    file_send_loop-Sent (suc fuel) n st small =
        let rc = (apr.file_read st.history file send_chunk_size).0 in
        let got = (apr.file_read st.history file send_chunk_size).1 in
        let st' = record st { history = Call.file_read file send_chunk_size ∷ st.history } in
        let none_sent = sym (append-nil (delivered apr sock st.history)) in
        let start : n ≡ size_add n 0 = omega arith in
        let at_most = counts.read-le st.history file send_chunk_size in
        elim (Bool-cases (is_success rc || is_eof rc)) [
          | inr failed ↦
              let test : (not (is_success rc) && not (is_eof rc)) ≡ true = ground arith in
              rw test ([], 0, rw (same_file, failed), none_sent, inr (inl refl))
          | inl fine ↦
              let test : (not (is_success rc) && not (is_eof rc)) ≡ false = ground arith in
              let read : consumed apr file st'.history ≡ consumed apr file st.history ++ got =
                rw (same_file, fine) in
              elim (Bool-cases (length got == 0)) [
                | inl empty ↦
                    let nil : got ≡ [] = nil_of_length got (ground arith) in
                    rw (test, empty)
                      (
                        [],
                        0,
                        read ∙ ap (λ t. consumed apr file st.history ++ t) nil,
                        none_sent,
                        inl (refl, refl, start),
                      )
                | inr some_read ↦
                    rw (test, some_read)
                      (after_write-Sent (λ m. file_send_loop apr fuel file sock false m) got n st
                        st' _ (λ m s. file_send_loop-Sent fuel m s) read refl
                        (lfd_socket_write_full-Wrote apr counts sock got (length got) st'
                          (omega arith) (omega arith))
                        (unfold lfd_socket_write_full in
                          write_full_loop-SameConsumed (suc (length got)) got (length got) 0 st'))
              ]
        ]

    -- do_file_send_rwloop in binary mode, with an open data socket: the socket accepts the first of
    -- the bytes that are read from the file, in their order; if no failure is reported these are
    -- all of them, and their number is the result's count modulo 2 ^ 64. The loop does not end
    -- otherwise than by returning, or for lack of fuel. The runtime moves no more bytes than it is
    -- asked to.
    pub do_file_send_rwloop-Sent :
        (fuel : ℕ) (st : State)
        → st.sess.data_conn.data_sock ≡ some sock
        → Sent apr file sock 0 st (do_file_send_rwloop apr fuel file false st)
    do_file_send_rwloop-Sent fuel st open_sock =
        rw (open_sock_lem fuel st open_sock) (file_send_loop-Sent fuel 0 st (omega arith))
