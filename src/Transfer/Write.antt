-- ===== src/Transfer/Write.antt =====
-- lfd_socket_write_full: what reaches the socket, and that the loop ends.
use lkl_lklftpd.Base.{
  ◌⊎◌, ℕ, zero, suc, ◌+◌, ◌-◌, ◌≤◌, ◌<◌, ◌^◌, ◌≡◌, refl, true, [], ◌∷◌, ◌++◌, arith, ◌==◌, inl, inr,
  Bool-cases, if◌then◌else◌, Bytes, length, take, drop, append_assoc, ◌∙◌, ap,
}
use lkl_lklftpd.System.{
  Apr, KeepsCounts, State, Status, is_success, Call, History, Socket, Outcome, ret, halted,
}
use lkl_lklftpd.Transfer.{write_full_loop, lfd_socket_write_full, size_add, size_sub}

-- The bytes that a socket has accepted: of each call of apr_socket_send as many as its answer says, also
-- where it fails, since some bytes may have been sent all the same.
abbrev pub delivered : Apr → Socket → History → Bytes
delivered apr fd [] = []
delivered apr fd (Call.send s b ∷ h) =
    let earlier = delivered apr fd h in
    let (rc, n) = apr.send h s b in if s == fd then earlier ++ take n b else earlier
delivered apr fd (_ ∷ h) = delivered apr fd h

pub length-take_le : (n : ℕ) (xs : Bytes) → n ≤ length xs → length (take n xs) ≡ n
length-take_le zero xs h = refl
length-take_le (suc n) [] h = absurd (omega arith)
length-take_le (suc n) (x ∷ xs) h = ap suc (length-take_le n xs (omega arith))

take-take : (m n : ℕ) (xs : Bytes) → m ≤ n → take m (take n xs) ≡ take m xs
take-take zero n xs h = refl
take-take (suc m) zero xs h = absurd (omega arith)
take-take (suc m) (suc n) [] h = refl
take-take (suc m) (suc n) (x ∷ xs) h = ap (λ t. x ∷ t) (take-take m n xs (omega arith))

pub take-add : (m n : ℕ) (xs : Bytes) → take m xs ++ take n (drop m xs) ≡ take (m + n) xs
take-add zero n xs = let e : 0 + n ≡ n = omega arith in rw e
take-add (suc m) zero [] = let e : suc m + 0 ≡ suc m = omega arith in rw e
take-add (suc m) (suc n) [] = let e : suc m + suc n ≡ suc (m + suc n) = omega arith in rw e
take-add (suc m) n (x ∷ xs) =
    let e : suc m + n ≡ suc (m + n) = omega arith in rw e (ap (λ t. x ∷ t) (take-add m n xs))

pub length-drop_le : (n : ℕ) (xs : Bytes) → length (drop n xs) ≡ length xs - n
length-drop_le zero xs = omega arith
length-drop_le (suc n) [] = omega arith
length-drop_le (suc n) (x ∷ xs) = omega (arith, length-drop_le n xs)

size_sub_le : (a n : ℕ) → n ≤ a → a < 2 ^ 64 → size_sub a n ≡ a - n
size_sub_le a n h k = omega arith

pub size_add_lt : (a n : ℕ) → a + n < 2 ^ 64 → size_add a n ≡ a + n
size_add_lt a n h = omega arith

-- The last call was a send of which the socket has accepted nothing.
abbrev pub Stopped : Apr → Socket → History → Type 0
Stopped apr fd h =
    (before : History) × (b : Bytes) × (h ≡ Call.send fd b ∷ before)
    × ((apr.send before fd b).1 ≡ 0)

-- The run has returned, and the socket has accepted the first bytes of the buffer; `*psize` has grown by
-- their number, but for those of a last call that has failed. Without a failure these are all that were
-- asked for, or the last call has accepted none.
abbrev pub Wrote : Apr → Socket → Bytes → ℕ → ℕ → State → Outcome (Status × ℕ) → Type 0
Wrote apr fd rest size done st (ret (rc, total) st') =
    (k : ℕ) × (uncounted : ℕ) × (total ≡ done + k)
    × (k + uncounted ≤ size)
    × (is_success rc ≡ true → uncounted ≡ 0)
    × (is_success rc ≡ true → (k ≡ size) ⊎ Stopped apr fd st'.history)
    × (delivered apr fd st'.history ≡ delivered apr fd st.history ++ take (k + uncounted) rest)
Wrote apr fd rest size done st (halted why st') = ⊥

module _ (apr : Apr) (counts : KeepsCounts apr) (fd : Socket) where
  sent_at_most :
      (h : History) (rest : Bytes) (size : ℕ)
      → size ≤ length rest
      → (apr.send h fd (take size rest)).1 ≤ size
  sent_at_most h rest size fits =
      omega (arith, counts.send-le h fd (take size rest), length-take_le size rest fits)

  same_socket : (fd == fd) ≡ true
  same_socket = ground arith

  delivered-send :
      (h : History) (b : Bytes)
      → delivered apr fd (Call.send fd b ∷ h) ≡ delivered apr fd h ++ take (apr.send h fd b).1 b
  delivered-send h b = rw same_socket

  -- The rest of the loop, behind a call that has sent `n` bytes.
  Wrote-more :
      (rest : Bytes) (size done n : ℕ) (st st' : State) (o : Outcome (Status × ℕ))
      → n ≤ size
      → delivered apr fd st'.history ≡ delivered apr fd st.history ++ take n rest
      → Wrote apr fd (drop n rest) (size - n) (done + n) st' o
      → Wrote apr fd rest size done st o
  Wrote-more rest size done n st st' (ret (rc, total) st'') le sent
        (k, u, t, small, counted, ended, got) =
      (
        n + k,
        u,
        omega arith,
        omega arith,
        counted,
        λ fine. all_more (ended fine),
        got
            ∙ ap (λ d. d ++ take (k + u) (drop n rest)) sent
            ∙ append_assoc (delivered apr fd st.history) (take n rest) (take (k + u) (drop n rest))
            ∙ ap (λ t. delivered apr fd st.history ++ t)
                (take-add n (k + u) rest ∙ ap (λ m. take m rest) sum),
      )
    where
      sum : n + (k + u) ≡ n + k + u
      sum = omega arith

      all_more :
          (k ≡ size - n) ⊎ Stopped apr fd st''.history
          → (n + k ≡ size) ⊎ Stopped apr fd st''.history
      all_more (inl all) = inl (omega arith)
      all_more (inr stopped) = inr stopped
  Wrote-more rest size done n st st' (halted why st'') le sent h = h

  write_full_loop-Wrote :
      (fuel : ℕ) (rest : Bytes) (size done : ℕ) (st : State)
      → size < fuel
      → size ≤ length rest
      → done + size < 2 ^ 64
      → Wrote apr fd rest size done st (write_full_loop apr fuel fd rest size done st)
  unfolding write_full_loop
  write_full_loop-Wrote zero rest size done st f fits small = absurd (omega arith)
  write_full_loop-Wrote (suc fuel) rest size done st f fits small =
      let n = (apr.send st.history fd (take size rest)).1 in
      let st' = record st { history = Call.send fd (take size rest) ∷ st.history } in
      let le = sent_at_most st.history rest size fits in
      let got =
        delivered-send st.history (take size rest)
        ∙ ap (λ t. delivered apr fd st.history ++ t) (take-take n size rest le) in
      elim (Bool-cases (is_success (apr.send st.history fd (take size rest)).0)) [
        | inr failed ↦
            let plain : 0 + n ≡ n = omega arith in
            rw failed (
              0,
              n,
              omega arith,
              omega arith,
              λ e. absurd (ground arith),
              λ e. absurd (ground arith),
              rw plain got,
            )
        | inl sent ↦ elim (Bool-cases (n == 0)) [
          | inl stopped ↦
              let none_sent : n ≡ 0 = ground arith in
              rw (sent, stopped)
                (
                  0,
                  0,
                  omega arith,
                  omega arith,
                  λ e. refl,
                  λ e. inr (st.history, take size rest, refl, none_sent),
                  got ∙ ap (λ t. delivered apr fd st.history ++ take t rest) none_sent,
                )
          | inr moved ↦ elim (Bool-cases (size_sub size n == 0)) [
            | inl all ↦
                let every : size_sub size n ≡ 0 = ground arith in
                let plain : n + 0 ≡ n = omega arith in
                let all_sent : n ≡ size = omega arith in
                rw (sent, moved, all)
                  (
                    n,
                    0,
                    size_add_lt done n (omega arith),
                    omega arith,
                    λ e. refl,
                    λ e. inl all_sent,
                    rw plain got,
                  )
            | inr more ↦
                let left = size_sub_le size n le (omega arith) in
                let count = size_add_lt done n (omega arith) in
                let some_sent : 0 < n = ground arith in
                rw (sent, moved, more)
                  (Wrote-more rest size done n st st' _ le got (
                    rw (left, count)
                      (write_full_loop-Wrote fuel (drop n rest) (size - n) (done + n) st'
                        (omega arith) (omega (arith, length-drop_le n rest)) (omega arith))))
          ]
        ]
      ]

  -- lfd_socket_write_full returns, and the bytes that the socket has accepted are the first of the
  -- buffer in their order, no more than asked for. Where it returns APR_SUCCESS `*psize` is their
  -- number, and these are all, or the last call has accepted none; where it returns another status
  -- `*psize` may leave some of them out, which the failed call has sent. The size is at most the
  -- buffer's and below 2 ^ 64, and the runtime accepts no more than it is given.
  pub lfd_socket_write_full-Wrote :
      (p_buf : Bytes) (size : ℕ) (st : State)
      → size ≤ length p_buf
      → size < 2 ^ 64
      → Wrote apr fd p_buf size 0 st (lfd_socket_write_full apr fd p_buf size st)
  unfolding lfd_socket_write_full
  lfd_socket_write_full-Wrote p_buf size st fits small =
      write_full_loop-Wrote (suc size) p_buf size 0 st (omega arith) fits (omega arith)
