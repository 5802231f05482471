-- ===== src/Connection/Binding.antt =====
-- The search of connection.c for a passive port that can be bound.
use lkl_lklftpd.Base.{
  Option-cases, true, Bool-cases, inl, inr, ◌%◌, ◌*◌, ◌==◌, ℕ, zero, suc, ◌+◌, ◌≤◌, ◌≡◌, refl, ◌⊎◌,
  ap, ◌∙◌, Option, none, some, [], ◌∷◌, arith,
}
use lkl_lklftpd.System.{
  Apr, Status, is_success, SocketOption, Call, History, State, Sess, Halt, Outcome, ret, halted,
  and_then, Run, pure,
}
use lkl_lklftpd.Connection.{
  pasv_min_port, pasv_max_port, scale_port, Bound, bind_attempt, bind_rounds, bind_tries,
  keep_bound, bind_to_random_passive_port,
}

-- How many random ports have been drawn.
abbrev pub draws : History → ℕ
draws [] = 0
draws (Call.random_bytes _ ∷ h) = suc (draws h)
draws (_ ∷ h) = draws h

-- The last calls have looked up the host with the port, made the socket for the address found, and bound
-- it to that address, and have not failed.
abbrev pub BoundNow : Apr → Bound → History → Type 0
BoundNow apr (fd, saddr, port) h =
    let host = some apr.config.listen_host in
    (before : History) × let looked_up = Call.addr_info host port ∷ before in
      let made = Call.create_socket (some saddr) ∷ looked_up in
      let reusable = Call.opt_set (some fd) SocketOption.reuseaddr 1 ∷ made in
      (h ≡ Call.bind fd saddr ∷ reusable)
      × ((apr.sockaddr_info_get before host port).1 ≡ some saddr)
      × (is_success (apr.create_socket looked_up (some saddr)).0 ≡ true)
      × ((apr.create_socket looked_up (some saddr)).1 ≡ fd)
      × (is_success (apr.bind reusable fd saddr) ≡ true)

abbrev pub BoundIfAny : Apr → Option Bound → History → Type 0
BoundIfAny apr none h = Unit {0}
BoundIfAny apr (some bound) h = BoundNow apr bound h

-- At most `n` ports have been drawn, the session is as it was, and what has been found is bound.
abbrev pub Searched : Apr → ℕ → State → Outcome (Option Bound) → Type 0
Searched apr n st (ret found st') =
    (st'.sess ≡ st.sess)
    × (draws st'.history ≤ draws st.history + n)
    × BoundIfAny apr found st'.history
Searched apr n st (halted why st') = (why ≡ Halt.null_deref) ⊎ (why ≡ Halt.division_by_zero)

-- The listening socket is the one that is bound, or there is none and the session is as it was.
abbrev pub Listens : Apr → ℕ → State → Outcome (Status × Option Bound) → Type 0
Listens apr n st (ret (rc, none) st') =
    (rc ≡ Status.enosocket) × (st'.sess ≡ st.sess) × (draws st'.history ≤ draws st.history + n)
Listens apr n st (ret (rc, some bound) st') =
    (rc ≡ Status.success)
    × (st'.sess ≡ record (st.sess) { pasv_listen_fd = some bound.0 })
    × (draws st'.history ≤ draws st.history + n)
    × BoundNow apr bound st'.history
Listens apr n st (halted why st') = (why ≡ Halt.null_deref) ⊎ (why ≡ Halt.division_by_zero)

module _ (apr : Apr) where
  bind_attempt-Searched : (st : State) → Searched apr 1 st (bind_attempt apr st)
  unfolding bind_attempt
  bind_attempt-Searched st =
      let host = some apr.config.listen_host in
      let (rc, b0, b1) = apr.random_bytes st.history 2 in
      let max_port = pasv_max_port apr.config in
      let port = scale_port (pasv_min_port apr.config) max_port ((b0 % 256) * 256 + b1 % 256) in
      let drawn = Call.random_bytes 2 ∷ st.history in
      let (rc', found) = apr.sockaddr_info_get drawn host port in
      let looked_up = Call.addr_info host port ∷ drawn in
      elim (Bool-cases (is_success rc)) [
        | inr e ↦ rw e (refl, omega arith, tt)
        | inl drew ↦ elim (Bool-cases (max_port == 0)) [
          | inl e ↦ rw (drew, e) (inr refl)
          | inr divides ↦ elim (Bool-cases (is_success rc')) [
            | inr e ↦ rw (drew, divides, e) (refl, omega arith, tt)
            | inl looked ↦ elim (Option-cases found) [
              | inl e ↦ rw (drew, divides, looked, e) (inl refl)
              | inr (saddr, e) ↦
                  let (rc'', fd) = apr.create_socket looked_up (some saddr) in
                  let made = Call.create_socket (some saddr) ∷ looked_up in
                  let reusable = Call.opt_set (some fd) SocketOption.reuseaddr 1 ∷ made in
                  elim (Bool-cases (is_success rc'')) [
                    | inr e' ↦ rw (drew, divides, looked, e, e') (refl, omega arith, tt)
                    | inl makes ↦
                        elim (Bool-cases
                          (is_success (apr.opt_set made (some fd) SocketOption.reuseaddr 1))) [
                            | inr e' ↦
                                rw (drew, divides, looked, e, makes, e') (refl, omega arith, tt)
                            | inl sets ↦
                                elim (Bool-cases (is_success (apr.bind reusable fd saddr))) [
                                  | inr e' ↦
                                      rw (drew, divides, looked, e, makes, sets, e')
                                        (refl, omega arith, tt)
                                  | inl binds ↦
                                      rw (drew, divides, looked, e, makes, sets, binds)
                                        (refl, omega arith, (drawn, (refl, e, makes, refl, binds)))
                                ]
                          ]
                  ]
            ]
          ]
        ]
      ]

  Searched-none :
      (n : ℕ) (st st' : State) (o : Outcome (Option Bound))
      → Searched apr 1 st (ret none st')
      → Searched apr n st' o
      → Searched apr (suc n) st o
  Searched-none n st st' (ret found s) h k = (k.0 ∙ h.0, omega (arith, h.1, k.1), k.2)
  Searched-none n st st' (halted why s) h k = k

  Searched-more :
      (n : ℕ) (st : State) (o : Outcome (Option Bound)) (again : Run (Option Bound))
      → Searched apr 1 st o
      → ((s : State) → Searched apr n s (again s))
      → Searched apr
          (suc n)
          st
          (and_then o (λ tried. elim tried [ some bound ↦ pure (some bound) | none ↦ again ]))
  Searched-more n st (halted why st') again h k = h
  Searched-more n st (ret (some bound) st') again (same, few, b) k = (same, omega (arith, few), b)
  Searched-more n st (ret none st') again h k = Searched-none n st st' (again st') h (k st')

  bind_rounds-Searched : (n : ℕ) (st : State) → Searched apr n st (bind_rounds apr n st)
  unfolding bind_rounds
  bind_rounds-Searched zero st = (refl, omega arith, tt)
  bind_rounds-Searched (suc n) st =
      Searched-more n st (bind_attempt apr st) (bind_rounds apr n) (bind_attempt-Searched st)
        (λ s. bind_rounds-Searched n s)

  keep_bound-Listens :
      (n : ℕ) (st : State) (o : Outcome (Option Bound))
      → Searched apr n st o
      → Listens apr n st (and_then o (keep_bound apr))
  keep_bound-Listens n st (halted why st') h = h
  keep_bound-Listens n st (ret none st') (same, few, b) = (refl, same, few)
  keep_bound-Listens n st (ret (some bound) st') (same, few, b) =
      let listening : Sess → Sess = λ s. record s { pasv_listen_fd = some bound.0 } in
      (refl, ap listening same, few, b)

  -- The search for a passive port ends after max_sockets_to_try_to_bind - 1 draws at most (modulo 2
  -- ^ 16). It returns APR_SUCCESS with a socket, its address and its port: its last calls have
  -- looked up the host with this port, giving the address, have made the socket and set an option
  -- of it, and have bound it to the address, with success but for the option; the session keeps the
  -- socket as the one to listen on and is otherwise as it was. Or it returns APR_ENOSOCKET with the
  -- session as it was. What can stop it is a look-up that succeeds without an address, or a maximum
  -- of 0.
  pub bind_to_random_passive_port-Listens :
      (st : State) → Listens apr (bind_tries apr) st (bind_to_random_passive_port apr st)
  unfolding bind_to_random_passive_port
  bind_to_random_passive_port-Listens st =
      keep_bound-Listens (bind_tries apr) st (bind_rounds apr (bind_tries apr) st)
        (bind_rounds-Searched (bind_tries apr) st)
