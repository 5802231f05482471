-- ===== src/Transfer/Ends.antt =====
-- The sending loop of cmdhandler.c ends, where the file does.
use lkl_lklftpd.Base.{
  ℕ, zero, suc, ◌+◌, ◌^◌, ◌≤◌, ◌<◌, ◌≡◌, Bool, true, false, not, ◌&&◌, ◌||◌, ◌∷◌, arith, ◌==◌,
  Bytes, some, length, drop, take, Bool-cases, inl, inr,
}
use lkl_lklftpd.Ascii.Expand.{bin_to_ascii-expands, length-lf_to_crlf}
use lkl_lklftpd.System.{
  Apr, KeepsCounts, State, Status, is_success, is_eof, Call, History, Socket, File, Outcome, ret,
  halted, and_then, Run,
}
use lkl_lklftpd.Transfer.{
  write_full_loop, lfd_socket_write_full, size_add, size_sub, TransferRet, after_write,
  file_send_loop, send_chunk_size, do_file_send_rwloop, send_buffer,
}
use lkl_lklftpd.Transfer.Write.{lfd_socket_write_full-Wrote, Wrote}

-- A file that has an end: `left` counts the bytes behind the file position, which reading moves and
-- sending on a socket does not.
pub record IsFinite (apr : Apr) (file : File) (sock : Socket) (left : History → ℕ) : Type 0 where
  pub read-left :
      (h : History) (n : ℕ)
      → left (Call.file_read file n ∷ h) + length (apr.file_read h file n).1 ≤ left h
  pub send-left : (h : History) (b : Bytes) → left (Call.send sock b ∷ h) ≤ left h

-- The run has returned, and no more than `n` bytes are left.
abbrev Returned : {A : Type 0} → (History → ℕ) → ℕ → Outcome A → Type 0
Returned left n (ret a st) = left st.history ≤ n
Returned left n (halted why st) = ⊥

-- The run has returned.
abbrev pub IsReturned : {A : Type 0} → Outcome A → Type 0
IsReturned (ret a st) = Unit {0}
IsReturned (halted why st) = ⊥

abbrev UnlessHalted : {A : Type 0} → (History → ℕ) → ℕ → Outcome A → Type 0
UnlessHalted left n (ret a st) = left st.history ≤ n
UnlessHalted left n (halted why st) = Unit {0}

module _ (apr : Apr) (counts : KeepsCounts apr) (file : File) (sock : Socket) (left : History → ℕ)
    (finite : IsFinite apr file sock left) where
  send_buffer-length :
      (is_ascii : Bool) (got : Bytes) → length got ≤ length (send_buffer apr is_ascii got)
  send_buffer-length false got = omega arith
  send_buffer-length true got =
      let (out, _) = bin_to_ascii-expands got in rw out (length-lf_to_crlf got).0

  UnlessHalted-le :
      {A : Type 0} (m n : ℕ) (o : Outcome A) → m ≤ n → UnlessHalted left m o → UnlessHalted left n o
  UnlessHalted-le m n (ret a st) le h = omega arith
  UnlessHalted-le m n (halted why st) le h = tt

  write_full_loop-left :
      (fuel : ℕ) (rest : Bytes) (size done : ℕ) (st : State)
      → UnlessHalted left (left st.history) (write_full_loop apr fuel sock rest size done st)
  unfolding write_full_loop
  write_full_loop-left zero rest size done st = tt
  write_full_loop-left (suc fuel) rest size done st =
      let piece = take size rest in
      let n = (apr.send st.history sock piece).1 in
      let st' = record st { history = Call.send sock piece ∷ st.history } in
      let moved = finite.send-left st.history piece in
      let again = write_full_loop-left fuel (drop n rest) (size_sub size n) (size_add done n) st' in
      let later = UnlessHalted-le (left st'.history) (left st.history) _ moved again in
      elim (Bool-cases (not (is_success (apr.send st.history sock piece).0))) [
        | inl failed ↦ rw failed moved
        | inr fine ↦ elim (Bool-cases (n == 0)) [
          | inl stopped ↦ rw (fine, stopped) moved
          | inr some_sent ↦ elim (Bool-cases (size_sub size n == 0)) [
            | inl all ↦ rw (fine, some_sent, all) moved
            | inr more ↦ rw (fine, some_sent, more) later
          ]
        ]
      ]

  Wrote-Returned :
      (got : Bytes) (size n : ℕ) (st : State) (o : Outcome (Status × ℕ))
      → Wrote apr sock got size 0 st o
      → UnlessHalted left n o
      → Returned left n o
  Wrote-Returned got size n st (ret a s) w h = h
  Wrote-Returned got size n st (halted why s) w h = w

  -- The write of a round returns.
  write_full-Returned :
      (is_ascii : Bool) (got : Bytes) (st : State)
      → length got < 2 ^ 64
      → Returned left
          (left st.history)
          (lfd_socket_write_full apr sock (send_buffer apr is_ascii got) (length got) st)
  write_full-Returned is_ascii got st small =
      Wrote-Returned (send_buffer apr is_ascii got) (length got) (left st.history) st _
        (lfd_socket_write_full-Wrote apr counts sock (send_buffer apr is_ascii got) (length got) st
          (send_buffer-length is_ascii got) small)
        (unfold lfd_socket_write_full in
          write_full_loop-left (suc (length got)) (send_buffer apr is_ascii got) (length got) 0 st)

  after_write-IsReturned :
      (got : Bytes) (n m : ℕ) (again : ℕ → Run TransferRet) (o : Outcome (Status × ℕ))
      → Returned left m o
      → ((k : ℕ) (st : State) → left st.history ≤ m → IsReturned (again k st))
      → IsReturned (and_then o (after_write apr got n again))
  after_write-IsReturned got n m again (halted why st) h keep = h
  after_write-IsReturned got n m again (ret (rc, k) st) h keep =
      elim (Bool-cases (not (is_success rc) || not (k == length got))) [
        | inl failed ↦ rw failed tt
        | inr fine ↦ rw fine (keep (size_add n k) st h)
      ]

  file_send_loop-IsReturned :
      (fuel : ℕ) (is_ascii : Bool) (n : ℕ) (st : State)
      → left st.history < fuel
      → IsReturned (file_send_loop apr fuel file sock is_ascii n st)
  unfolding file_send_loop
  file_send_loop-IsReturned zero is_ascii n st enough = absurd (omega arith)
  file_send_loop-IsReturned (suc fuel) is_ascii n st enough =
      let answer = apr.file_read st.history file send_chunk_size in
      let st' = record st { history = Call.file_read file send_chunk_size ∷ st.history } in
      let moved = finite.read-left st.history send_chunk_size in
      let small = counts.read-le st.history file send_chunk_size in
      elim (Bool-cases (not (is_success answer.0) && not (is_eof answer.0))) [
        | inl failed ↦ rw failed tt
        | inr fine ↦ elim (Bool-cases (length answer.1 == 0)) [
          | inl at_end ↦ rw (fine, at_end) tt
          | inr some_read ↦
              let shorter : left st'.history < fuel = ground (arith, moved, enough) in
              rw (fine, some_read)
                (after_write-IsReturned answer.1 n (left st'.history)
                  (λ k. file_send_loop apr fuel file sock is_ascii k) _
                  (write_full-Returned is_ascii answer.1 st' (omega arith))
                  (λ k s le. file_send_loop-IsReturned fuel is_ascii k s (omega arith)))
        ]
      ]

  -- The sending loop returns, in both modes, if the file has an end and there is more fuel than
  -- bytes behind the file position. The runtime moves no more bytes than it is asked to.
  pub do_file_send_rwloop-IsReturned :
      (fuel : ℕ) (is_ascii : Bool) (st : State)
      → st.sess.data_conn.data_sock ≡ some sock
      → left st.history < fuel
      → IsReturned (do_file_send_rwloop apr fuel file is_ascii st)
  unfolding do_file_send_rwloop
  do_file_send_rwloop-IsReturned fuel is_ascii st open_sock enough =
      simp open_sock (file_send_loop-IsReturned fuel is_ascii 0 st enough)
