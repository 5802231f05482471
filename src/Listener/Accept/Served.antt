-- ===== src/Listener/Accept/Served.antt =====
-- The loop of lfd_listen: the clients that it accepts, and the pools of their threads.
use lkl_lklftpd.Base.{
  ℕ, zero, suc, ◌⊎◌, sym, ◌+◌, ◌≡◌, refl, true, Option, none, some, List, [], ◌∷◌, ◌++◌, arith,
  ◌==◌, if◌then◌else◌, Bool-cases, inl, inr, ◌∙◌, ap, subst,
}
use lkl_lklftpd.System.{Status, is_success, Socket}
use lkl_lklftpd.Listener.Accept.{
  Pool, PassAnswers, Accepting, no_clients, start_thread, poll_pass, with_pool, accept_pass,
}

-- How often a client stands in a list.
abbrev pub times : Socket → List Socket → ℕ
times s [] = 0
times s (t ∷ rest) = if t == s then suc (times s rest) else times s rest

abbrev pub served : List (Socket × Pool) → List Socket
served [] = []
served ((s, p) ∷ rest) = s ∷ served rest

abbrev pub pools_of : List (Socket × Pool) → List Pool
pools_of [] = []
pools_of ((s, p) ∷ rest) = p ∷ pools_of rest

abbrev pub held : Option Pool → List Pool
held none = []
held (some p) = p ∷ []

-- The clients accepted are those served and those closed, and the pools made are the one that is held and
-- those of the threads, each of one thread.
pub record AllServed (st : Accepting) : Type 0 where
  pub clients :
      (s : Socket) → times s st.accepted ≡ times s (served st.threads) + times s st.closed_clients
  pub own_pools : st.pools ≡ held st.thd_pool ++ pools_of st.threads

start_thread-AllServed :
    (rc : Status) (client : Socket) (pool : Pool) (st : Accepting)
    → st.thd_pool ≡ some pool
    → AllServed st
    → AllServed (start_thread rc client pool (record st { accepted = client ∷ st.accepted })).1
start_thread-AllServed rc client pool st e h = elim (Bool-cases (is_success rc)) [
  | inr failed ↦
      rw failed (record { clients = λ s. ground (arith, h.clients s); own_pools = h.own_pools })
  | inl fine ↦ rw fine (record {
    clients = λ s. ground (arith, h.clients s);
    own_pools = h.own_pools ∙ ap (λ p. held p ++ pools_of st.threads) e;
  })
]

poll_pass-AllServed :
    (a : PassAnswers) (pool : Pool) (st : Accepting)
    → st.thd_pool ≡ some pool
    → AllServed st
    → AllServed (poll_pass a pool st).1
poll_pass-AllServed a pool st e h =
    ground (arith, start_thread-AllServed a.thread_create a.accept.1 pool st e h)

with_pool-AllServed :
    (a : PassAnswers) (o : Option Pool) (st : Accepting)
    → st.thd_pool ≡ o
    → AllServed st
    → AllServed (with_pool a o st).1
with_pool-AllServed a (some pool) st e h = poll_pass-AllServed a pool st e h
with_pool-AllServed a none st e h =
    let (rc, pool) = a.pool_create in
    let made = record st { thd_pool = some pool; pools = pool ∷ st.pools } in
    elim (Bool-cases (is_success rc)) [
      | inr failed ↦ rw failed h
      | inl fine ↦ rw fine (
          poll_pass-AllServed a pool made refl (record {
            clients = h.clients;
            own_pools =
                ap (λ ps. pool ∷ ps) (h.own_pools ∙ ap (λ p. held p ++ pools_of st.threads) e);
          }))
    ]

accept_pass-AllServed :
    (a : PassAnswers) (st : Accepting) → AllServed st → AllServed (accept_pass a st).1
unfolding accept_pass
accept_pass-AllServed a st h = with_pool-AllServed a st.thd_pool st refl h

-- The members of a list differ from each other.
abbrev pub Distinct : List Pool → Type 0
Distinct [] = Unit
Distinct (p ∷ rest) = (times p rest ≡ 0) × Distinct rest

-- apr_pool_create gives no pool that it has given before and that has not been destroyed: the loop
-- destroys none. The answers depend on the number of the pass and on what has been done.
abbrev pub GivesFresh : (ℕ → Accepting → PassAnswers) → Type 0
GivesFresh answers =
    (n : ℕ) (st : Accepting)
    → st.thd_pool ≡ none
    → is_success (answers n st).pool_create.0 ≡ true
    → times (answers n st).pool_create.1 st.pools ≡ 0

-- The first `n` passes of the loop have led here.
pub data Accepts (answers : ℕ → Accepting → PassAnswers) : ℕ → Accepting → Type 0 where
  begins : Accepts answers zero no_clients
  goes_round :
      (n : ℕ) (st st' : Accepting)
      → Accepts answers n st
      → accept_pass (answers n st) st ≡ (true, st')
      → Accepts answers (suc n) st'

-- The pools made stay, or there is a new one.
abbrev PoolsGrow : PassAnswers → Accepting → Accepting → Type 0
PoolsGrow a st st' =
    (st'.pools ≡ st.pools)
    ⊎ ((st.thd_pool ≡ none)
        × (is_success a.pool_create.0 ≡ true)
        × (st'.pools ≡ a.pool_create.1 ∷ st.pools))

poll_pass-pools :
    (a : PassAnswers) (pool : Pool) (st : Accepting) → (poll_pass a pool st).1.pools ≡ st.pools
poll_pass-pools a pool st = ground arith

accept_pass-PoolsGrow : (a : PassAnswers) (st : Accepting) → PoolsGrow a st (accept_pass a st).1
unfolding accept_pass
accept_pass-PoolsGrow a st = by_pool st.thd_pool refl
  where
    by_pool : (o : Option Pool) → st.thd_pool ≡ o → PoolsGrow a st (with_pool a o st).1
    by_pool (some pool) e = inl (poll_pass-pools a pool st)
    by_pool none e = elim (Bool-cases (is_success a.pool_create.0)) [
      | inr failed ↦ rw failed (inl refl)
      | inl fine ↦ rw fine (inr (e, refl, poll_pass-pools a a.pool_create.1 _))
    ]

PoolsGrow-Distinct :
    (a : PassAnswers) (st st' : Accepting)
    → (st.thd_pool ≡ none → is_success a.pool_create.0 ≡ true → times a.pool_create.1 st.pools ≡ 0)
    → Distinct st.pools
    → PoolsGrow a st st'
    → Distinct st'.pools
PoolsGrow-Distinct a st st' fresh d (inl e) = subst Distinct (sym e) d
PoolsGrow-Distinct a st st' fresh d (inr (none_kept, made, e)) =
    subst Distinct (sym e) (fresh none_kept made, d)

module _ (answers : ℕ → Accepting → PassAnswers) where
  Accepts-clients : {n : ℕ} {st : Accepting} → Accepts answers n st → AllServed st
  Accepts-clients begins = record { clients = λ s. refl; own_pools = refl }
  Accepts-clients (goes_round n st st' before e) =
      subst (λ o. AllServed o.1) e
        (accept_pass-AllServed (answers n st) st (Accepts-clients before))

  module _ (fresh : GivesFresh answers) where
    Accepts-Distinct : {n : ℕ} {st : Accepting} → Accepts answers n st → Distinct st.pools
    Accepts-Distinct begins = tt
    Accepts-Distinct (goes_round n st st' before e) =
        PoolsGrow-Distinct (answers n st) st st' (fresh n st) (Accepts-Distinct before)
          (subst (λ o. PoolsGrow (answers n st) st o.1) e (accept_pass-PoolsGrow (answers n st) st))

    -- At every pass of the loop of lfd_listen: each client that has been accepted has been handed
    -- to a thread or has been closed, as often as it has been accepted; each pool that has been
    -- made is the one kept for the next client or that of a thread; and the kept pool and those of
    -- the threads all differ, so that no two threads share one. apr_pool_create is assumed to give
    -- no pool that the loop has been given before; it destroys none. The other answers of the
    -- runtime are any.
    pub Accepts-AllServed :
        {n : ℕ} {st : Accepting}
        → Accepts answers n st
        → AllServed st × Distinct (held st.thd_pool ++ pools_of st.threads)
    Accepts-AllServed reached =
        let all = Accepts-clients reached in
        (all, subst Distinct all.own_pools (Accepts-Distinct reached))
