-- ===== src/Listener/Opens.antt =====
-- create_listen_socket of listen.c: the addresses that it tries, and the sockets that it makes and closes.
use lkl_lklftpd.Base.{
  Bool, false, ◌++◌, ◌==◌, ap, sym, ◌∙◌, append_assoc, append-nil, ℕ, suc, ◌+◌, ◌≡◌, refl, true,
  Option, none, some, List, [], ◌∷◌, arith, if◌then◌else◌, Bool-cases, inl, inr,
}
use lkl_lklftpd.System.{Status, is_success, Call, History, Socket, SockAddr, SocketOption, Apr}
use lkl_lklftpd.Listener.{
  bind_and_listen, try_addr, try_addrs, or_else, create_listen_socket, from_answer,
}

-- How often a socket has been made, and how often it has been closed, in a history.
abbrev pub opened : Apr → Socket → History → ℕ
opened apr s [] = 0
opened apr s (Call.create_socket a ∷ h) =
    let earlier = opened apr s h in
    let (rc, made) = apr.create_socket h a in
    if is_success rc then (if made == s then suc earlier else earlier) else earlier
opened apr s (_ ∷ h) = opened apr s h

abbrev pub closings : Socket → History → ℕ
closings s [] = 0
closings s (Call.close_socket t ∷ h) = if t == s then suc (closings s h) else closings s h
closings s (_ ∷ h) = closings s h

-- The addresses that a socket has been asked for, the first one first.
abbrev pub tried : History → List SockAddr
tried [] = []
tried (Call.create_socket (some a) ∷ h) = tried h ++ (a ∷ [])
tried (_ ∷ h) = tried h

-- The last two calls have bound the socket to the address and made it listen, and have not failed.
abbrev pub Listening : Apr → Socket → SockAddr → History → Type 0
Listening apr sock a h =
    (before : History) × (h ≡ Call.listen sock apr.config.backlog ∷ Call.bind sock a ∷ before)
    × (is_success (apr.bind before sock a) ≡ true)
    × (is_success (apr.listen (Call.bind sock a ∷ before) sock apr.config.backlog) ≡ true)

-- As many of each socket have been made and not closed in the second history as in the first.
abbrev pub AllClosed : Apr → History → History → Type 0
AllClosed apr h h' = (s : Socket) → opened apr s h' + closings s h ≡ opened apr s h + closings s h'

-- The same, but for one more of `sock`.
abbrev pub AllClosedBut : Apr → Socket → History → History → Type 0
AllClosedBut apr sock h h' =
    (s : Socket)
    → opened apr s h' + closings s h
      ≡ (if sock == s then suc (opened apr s h) else opened apr s h) + closings s h'

-- From `h` on, with the addresses `addrs` to try: the first of them have been tried, up to one that a
-- socket now listens on, which is the only one that has been made and not closed; or all have been
-- tried, and every socket that has been made is closed.
abbrev pub OneOpen : Apr → List SockAddr → History → Option Socket × History → Type 0
OneOpen apr addrs h (some sock, h') =
    (skipped : List SockAddr) × (a : SockAddr) × (rest : List SockAddr) × (addrs
      ≡ skipped ++ (a ∷ rest))
    × (tried h' ≡ tried h ++ (skipped ++ (a ∷ [])))
    × Listening apr sock a h'
    × AllClosedBut apr sock h h'
OneOpen apr addrs h (none, h') = (tried h' ≡ tried h ++ addrs) × AllClosed apr h h'

-- A socket that is made and closed.
made_and_closed :
    (b : Bool) (made closed : ℕ)
    → (if b then suc made else made) + closed ≡ made + (if b then suc closed else closed)
made_and_closed true made closed = omega arith
made_and_closed false made closed = refl

-- No socket is left open, and then one is.
one_left :
    (b : Bool) (m m' m'' c c' c'' : ℕ)
    → m' + c ≡ m + c'
    → m'' + c' ≡ (if b then suc m' else m') + c''
    → m'' + c ≡ (if b then suc m else m) + c''
one_left true m m' m'' c c' c'' e f = omega arith
one_left false m m' m'' c c' c'' e f = omega arith

module _ (apr : Apr) where
  try_addr-OneOpen :
      (saddr : SockAddr) (h : History) → OneOpen apr (saddr ∷ []) h (try_addr apr saddr h)
  unfolding try_addr bind_and_listen
  try_addr-OneOpen saddr h =
      let (rc, sock) = apr.create_socket h (some saddr) in
      let made = Call.create_socket (some saddr) ∷ h in
      let reusable = Call.opt_set (some sock) SocketOption.reuseaddr 1 ∷ made in
      let bound = Call.bind sock saddr ∷ reusable in
      elim (Bool-cases (is_success rc)) [
        | inr failed ↦
            let none_made : (s : Socket) → opened apr s made ≡ opened apr s h =
              λ s. rw failed refl in
            rw failed (refl, λ s. ap (λ n. n + closings s h) (none_made s))
        | inl fine ↦
            let one_made : (s : Socket)
                → opened apr s made + closings s h
                  ≡ (if sock == s then suc (opened apr s h) else opened apr s h) + closings s h =
              λ s. rw fine refl in
            let closed = λ (s : Socket).
              one_made s ∙ made_and_closed (sock == s) (opened apr s h) (closings s h) in
            elim (Bool-cases (is_success (apr.bind reusable sock saddr))) [
              | inr not_bound ↦ rw (fine, not_bound) (refl, closed)
              | inl is_bound ↦
                  elim (Bool-cases (is_success (apr.listen bound sock apr.config.backlog))) [
                    | inr deaf ↦ rw (fine, is_bound, deaf) (refl, closed)
                    | inl listens ↦
                        rw (fine, is_bound, listens)
                          ([], saddr, [], refl, refl, (reusable, refl, is_bound, listens), one_made)
                  ]
            ]
      ]

  tried_more :
      (h h' h'' : History) (saddr : SockAddr) (more : List SockAddr)
      → tried h' ≡ tried h ++ (saddr ∷ [])
      → tried h'' ≡ tried h' ++ more
      → tried h'' ≡ tried h ++ (saddr ∷ more)
  tried_more h h' h'' saddr more e f =
      f ∙ ap (λ l. l ++ more) e ∙ append_assoc (tried h) (saddr ∷ []) more

  -- An address that gives no socket, and the others.
  OneOpen-more :
      (saddr : SockAddr) (addrs : List SockAddr) (h h' : History) (o : Option Socket × History)
      → OneOpen apr (saddr ∷ []) h (none, h')
      → OneOpen apr addrs h' o
      → OneOpen apr (saddr ∷ addrs) h o
  OneOpen-more saddr addrs h h' (some sock, h'') (k, c) (skipped, a, rest, e, t, l, b) = (
    saddr ∷ skipped,
    a,
    rest,
    ap (λ l. saddr ∷ l) e,
    tried_more h h' h'' saddr (skipped ++ (a ∷ [])) k t,
    l,
    λ s.
        one_left (sock == s) (opened apr s h) (opened apr s h') (opened apr s h'') (closings s h)
          (closings s h') (closings s h'') (c s) (b s),
  )
  OneOpen-more saddr addrs h h' (none, h'') (k, c) (t, d) =
      (tried_more h h' h'' saddr addrs k t, λ s. omega (arith, c s, d s))

  or_else-OneOpen :
      (saddr : SockAddr) (addrs : List SockAddr) (h : History)
      (others : History → Option Socket × History) (o : Option Socket × History)
      → ((h' : History) → OneOpen apr addrs h' (others h'))
      → OneOpen apr (saddr ∷ []) h o
      → OneOpen apr (saddr ∷ addrs) h (or_else apr others o)
  or_else-OneOpen saddr addrs h others (none, h') rest k =
      OneOpen-more saddr addrs h h' (others h') k (rest h')
  or_else-OneOpen saddr addrs h others (some sock, h') rest (skipped, a, after, e, t, l, b) =
      (skipped, a, after ++ addrs, split, t, l, b)
    where
      split : saddr ∷ addrs ≡ skipped ++ (a ∷ (after ++ addrs))
      split = ap (λ l. l ++ addrs) e ∙ append_assoc skipped (a ∷ after) addrs

  try_addrs-OneOpen :
      (addrs : List SockAddr) (h : History) → OneOpen apr addrs h (try_addrs apr addrs h)
  unfolding try_addrs
  try_addrs-OneOpen [] h = (sym (append-nil (tried h)), λ s. refl)
  try_addrs-OneOpen (saddr ∷ rest) h =
      or_else-OneOpen saddr rest h (try_addrs apr rest) (try_addr apr saddr h)
        (λ h'. try_addrs-OneOpen rest h') (try_addr-OneOpen saddr h)

  -- The addresses of an answer.
  abbrev pub answered_addrs : Status × Option SockAddr → List SockAddr
  answered_addrs (rc, none) = []
  answered_addrs (rc, some saddr) = if is_success rc then saddr ∷ apr.next_addrs saddr else []

  from_answer-OneOpen :
      (answer : Status × Option SockAddr) (h : History)
      → OneOpen apr (answered_addrs answer) h (from_answer apr answer h)
  from_answer-OneOpen (rc, none) h = (sym (append-nil (tried h)), λ s. refl)
  from_answer-OneOpen (rc, some saddr) h = elim (Bool-cases (is_success rc)) [
    | inl fine ↦ rw fine (try_addrs-OneOpen (saddr ∷ apr.next_addrs saddr) h)
    | inr failed ↦ rw failed (sym (append-nil (tried h)), λ s. refl)
  ]

  -- The addresses that the host to listen on has.
  abbrev pub host_addrs : History → List SockAddr
  host_addrs h =
      answered_addrs (apr.sockaddr_info_get h (some apr.config.listen_host) apr.config.listen_port)

  -- create_listen_socket tries the addresses of the host in their order. It returns a socket for
  -- the address that it has tried last, bound to it by its last call but one and made to listen by
  -- its last call, and this is the only socket that it has made and not closed; or it returns none,
  -- has tried all of the addresses, and has closed every socket that it has made. Makings and
  -- closings are counted for each socket.
  pub create_listen_socket-OneOpen :
      (h : History) → OneOpen apr (host_addrs h) h (create_listen_socket apr h)
  unfolding create_listen_socket
  create_listen_socket-OneOpen h =
      from_answer-OneOpen
        (apr.sockaddr_info_get h (some apr.config.listen_host) apr.config.listen_port)
        (Call.addr_info (some apr.config.listen_host) apr.config.listen_port ∷ h)
