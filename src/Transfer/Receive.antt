-- ===== src/Transfer/Receive.antt =====
-- do_file_recv of cmdhandler.c: what the file gets of the data socket.
use lkl_lklftpd.Base.{
  ℕ, zero, suc, ◌+◌, ◌<◌, ◌^◌, ◌≡◌, refl, ◌⊎◌, Bool, true, false, not, ◌&&◌, ◌||◌, List, [], ◌∷◌,
  ◌++◌, arith, ◌==◌, inl, inr, Bool-cases, if◌then◌else◌, Bytes, length, some, append_assoc,
  append-nil, ◌∙◌, sym, ap, length-append,
}
use lkl_lklftpd.Ascii.InPlace.{bytes, ascii_to_bin-converted}
use lkl_lklftpd.Ascii.Spec.{converted}
use lkl_lklftpd.Ascii.Stream.{convert_all, concat}
use lkl_lklftpd.Paths.{char_at}
use lkl_lklftpd.System.{
  Apr, State, Status, is_success, is_eof, ℤ, Call, History, Socket, File, Outcome, ret, halted,
  Halt,
}
use lkl_lklftpd.Transfer.{
  TransferRet, size_add, vsftp_data_bufsize, received, recv_convert, file_recv_loop, do_file_recv,
}

-- The fragments that a socket has given, by the calls that do not fail, the first one first.
abbrev pub fragments : Apr → Socket → History → List Bytes
fragments apr s [] = []
fragments apr s (Call.recv t n ∷ h) =
    let earlier = fragments apr s h in
    let (rc, got) = apr.recv h t n in
    if (t == s) && (is_success rc || is_eof rc) then earlier ++ (got ∷ []) else earlier
fragments apr s (_ ∷ h) = fragments apr s h

-- The bytes that have been written to a file whole.
abbrev pub stored : Apr → File → History → Bytes
stored apr f [] = []
stored apr f (Call.file_write_full g b ∷ h) =
    let earlier = stored apr f h in
    let (rc, n) = apr.file_write_full h g b in
    if (g == f) && (is_success rc && (length b == n)) then earlier ++ b else earlier
stored apr f (_ ∷ h) = stored apr f h

-- A transfer turns its fragments into the text of the file, by its mode.
abbrev pub text_of : Bool → Bool → List Bytes → Bytes
text_of is_ascii prev_cr chunks = if is_ascii then convert_all prev_cr chunks else concat chunks

-- From `st` on the fragments `chunks` have been received; if the loop reports no failure, the file has got
-- their text, and the count is their length on top of `n`.
abbrev pub Got : Apr → File → Socket → Bool → Bool → ℕ → State → Outcome TransferRet → Type 0
Got apr file sock is_ascii prev_cr n st (ret r st') =
    (chunks : List Bytes) × (fragments apr sock st'.history
      ≡ fragments apr sock st.history ++ chunks)
    × (((r.retval ≡ ℤ.pos 0)
          × (stored apr file st'.history
              ≡ stored apr file st.history ++ text_of is_ascii prev_cr chunks)
          × (r.transferred ≡ size_add n (length (concat chunks))))
        ⊎ ((r.retval ≡ ℤ.negsuc 0) ⊎ (r.retval ≡ ℤ.negsuc 1)))
Got apr file sock is_ascii prev_cr n st (halted why st') = why ≡ Halt.out_of_fuel

bytes-of :
    (buf : ℕ → ℕ) (i : ℕ) (xs : Bytes)
    → ((j : ℕ) → buf (i + j) ≡ char_at xs j)
    → bytes buf i (length xs) ≡ xs
bytes-of buf i [] h = refl
bytes-of buf i (x ∷ xs) h =
    let zeroth : i + 0 ≡ i = omega arith in
    let first : buf i ≡ x = sym (ap buf zeroth) ∙ h 0 in
    rw
      (
        first,
        bytes-of buf (i + 1) xs
            (λ j. let same : i + 1 + j ≡ i + suc j = omega arith in ap buf same ∙ h (suc j)),
      )
      refl

-- The buffer of the received bytes holds them.
pub bytes-received : (got : Bytes) → bytes (received got) 1 (length got) ≡ got
bytes-received got =
    bytes-of (received got) 1 got
      (λ j. let same : 1 + j ≡ suc j = omega arith in ap (received got) same)

-- What a round writes, and whether a '\r' is held back.
abbrev pub written : Bool → Bytes → Bool → Bytes × Bool
written is_ascii got prev_cr = if is_ascii then converted prev_cr got else (got, prev_cr)

text_of-cons :
    (is_ascii prev_cr : Bool) (got : Bytes) (chunks : List Bytes)
    → text_of is_ascii prev_cr (got ∷ chunks)
      ≡ (written is_ascii got prev_cr).0 ++ text_of is_ascii (written is_ascii got prev_cr).1 chunks
text_of-cons true prev_cr got chunks = refl
text_of-cons false prev_cr got chunks = refl

text_of-nil : (is_ascii : Bool) → text_of is_ascii false [] ≡ []
text_of-nil true = refl
text_of-nil false = refl

pair_path : {A B : Type 0} {x y : A × B} → x.0 ≡ y.0 → x.1 ≡ y.1 → x ≡ y
pair_path p q = λ i. (p i, q i)

module _ (apr : Apr) where
  pub recv_convert-written :
      (is_ascii : Bool) (got : Bytes) (prev_cr : Bool)
      → recv_convert apr is_ascii got prev_cr ≡ written is_ascii got prev_cr
  recv_convert-written false got prev_cr = refl
  recv_convert-written true got prev_cr =
      let (out, last) = ascii_to_bin-converted (received got) (length got) prev_cr in
      pair_path (out ∙ ap (λ b. (converted prev_cr b).0) (bytes-received got))
        (last ∙ ap (λ b. (converted prev_cr b).1) (bytes-received got))

module _ (apr : Apr) (file : File) (sock : Socket) where
  -- A round, and the rest of the loop.
  Got-more :
      (is_ascii prev_cr : Bool) (got : Bytes) (n : ℕ) (st st' : State) (o : Outcome TransferRet)
      → let w = written is_ascii got prev_cr in
        fragments apr sock st'.history ≡ fragments apr sock st.history ++ (got ∷ [])
        → stored apr file st'.history ≡ stored apr file st.history ++ w.0
        → Got apr file sock is_ascii w.1 (size_add n (length got)) st' o
        → Got apr file sock is_ascii prev_cr n st o
  Got-more is_ascii prev_cr got n st st' (halted why s) f w h = h
  Got-more is_ascii prev_cr got n st st' (ret r s) f w (chunks, f', inr bad) = (
    got ∷ chunks,
    f' ∙ ap (λ t. t ++ chunks) f ∙ append_assoc (fragments apr sock st.history) (got ∷ []) chunks,
    inr bad,
  )
  Got-more is_ascii prev_cr got n st st' (ret r s) f w (chunks, f', inl (good, w', total)) =
      let piece = written is_ascii got prev_cr in
      (
        got ∷ chunks,
        f'
            ∙ ap (λ t. t ++ chunks) f
            ∙ append_assoc (fragments apr sock st.history) (got ∷ []) chunks,
        inl (
          good,
          w'
              ∙ ap (λ t. t ++ text_of is_ascii piece.1 chunks) w
              ∙ append_assoc (stored apr file st.history) piece.0 (text_of is_ascii piece.1 chunks)
              ∙ ap (λ t. stored apr file st.history ++ t)
                  (sym (text_of-cons is_ascii prev_cr got chunks)),
          total ∙ omega (arith, length-append got (concat chunks)),
        ),
      )

  nil_of_length : (xs : Bytes) → length xs ≡ 0 → xs ≡ []
  nil_of_length [] e = refl
  nil_of_length (x ∷ xs) e = absurd (omega arith)

  text_of-empty :
      (is_ascii prev_cr : Bool) (got : Bytes)
      → prev_cr ≡ false
      → got ≡ []
      → text_of is_ascii prev_cr (got ∷ []) ≡ []
  text_of-empty true prev_cr got e e' = rw (e, e') refl
  text_of-empty false prev_cr got e e' = rw e' refl

  same_handle : (n : ℕ) → (n == n) ≡ true
  same_handle n = ground arith

  file_recv_loop-Got :
      (fuel : ℕ) (is_ascii prev_cr : Bool) (n : ℕ) (st : State)
      → n < 2 ^ 64
      → Got apr file sock is_ascii prev_cr n st
          (file_recv_loop apr fuel file sock is_ascii prev_cr n st)
  unfolding file_recv_loop
  file_recv_loop-Got zero is_ascii prev_cr n st small = refl
  file_recv_loop-Got (suc fuel) is_ascii prev_cr n st small =
      let (rc, got) = apr.recv st.history sock vsftp_data_bufsize in
      let st' = record st { history = Call.recv sock vsftp_data_bufsize ∷ st.history } in
      let piece = written is_ascii got prev_cr in
      let st'' = record st' { history = Call.file_write_full file piece.0 ∷ st'.history } in
      let answer = apr.file_write_full st'.history file piece.0 in
      let none_got = sym (append-nil (fragments apr sock st.history)) in
      let passes : (a : Status × ℕ)
          → (is_success a.0 && (length piece.0 == a.1)) ≡ true
          → (not (is_success a.0) || not (length piece.0 == a.1)) ≡ false =
        λ a h. ground arith in
      let fails : (a : Status × ℕ)
          → (is_success a.0 && (length piece.0 == a.1)) ≡ false
          → (not (is_success a.0) || not (length piece.0 == a.1)) ≡ true =
        λ a h. ground arith in
      elim (Bool-cases (is_success rc || is_eof rc)) [
        | inr failed ↦
            let test : (not (is_success rc) && not (is_eof rc)) ≡ true = ground arith in
            rw test ([], rw (same_handle sock, failed) none_got, inr (inr refl))
        | inl fine ↦
            let test : (not (is_success rc) && not (is_eof rc)) ≡ false = ground arith in
            let got_more : fragments apr sock st'.history
                ≡ fragments apr sock st.history ++ (got ∷ []) =
              rw (same_handle sock, fine) in
            elim (Bool-cases (length got == 0 && not prev_cr && is_eof rc)) [
              | inl over ↦
                  let nil : got ≡ [] = nil_of_length got (ground arith) in
                  let no_cr : prev_cr ≡ false = ground arith in
                  let end : size_add n 0 ≡ n = omega arith in
                  rw (test, over)
                    (
                      got ∷ [],
                      got_more,
                      inl (
                        refl,
                        sym (append-nil (stored apr file st.history))
                            ∙ ap (λ t. stored apr file st.history ++ t)
                                (sym (text_of-empty is_ascii prev_cr got no_cr nil)),
                        sym end ∙ ap (size_add n) (sym (ap (λ t. length (t ++ [])) nil)),
                      ),
                    )
              | inr more ↦ elim (Bool-cases (is_success answer.0 && (length piece.0 == answer.1))) [
                | inl whole ↦
                    rw
                      (
                        test,
                        more,
                        recv_convert-written apr is_ascii got prev_cr,
                        passes answer whole,
                      )
                      (Got-more is_ascii prev_cr got n st st'' _ got_more
                        (rw (same_handle file, whole) refl)
                        (file_recv_loop-Got fuel is_ascii piece.1 (size_add n (length got)) st''
                          (omega arith)))
                | inr short ↦
                    rw
                      (
                        test,
                        more,
                        recv_convert-written apr is_ascii got prev_cr,
                        fails answer short,
                      )
                      (got ∷ [], got_more, inr (inl refl))
              ]
            ]
      ]

  -- The upload loop with an open data socket, in either mode: if no failure is reported, the file
  -- gets the text of the fragments that the socket has given, and the count is their length modulo
  -- 2 ^ 64. In binary mode the text is the fragments one after the other, in ASCII mode their
  -- conversion with a held back '\r' passed on. The loop does not end otherwise than by returning,
  -- or for lack of fuel.
  pub do_file_recv-Got :
      (fuel : ℕ) (is_ascii : Bool) (st : State)
      → st.sess.data_conn.data_sock ≡ some sock
      → Got apr file sock is_ascii false 0 st (do_file_recv apr fuel file is_ascii st)
  unfolding do_file_recv
  do_file_recv-Got fuel is_ascii st open_sock =
      simp open_sock (file_recv_loop-Got fuel is_ascii false 0 st (omega arith))
