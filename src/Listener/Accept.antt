-- ===== src/Listener/Accept.antt =====
-- The loop of lfd_listen in listen.c, which accepts clients and starts their threads. What the runtime
-- answers in a pass, and whether the flag that ends the daemon is set, are any values.
pub mod Served
use lkl_lklftpd.Base.{
  ℕ, Bool, true, false, not, ◌&&◌, ◌||◌, Option, none, some, List, [], ◌∷◌, if◌then◌else◌,
}
use lkl_lklftpd.System.{Status, is_success, Socket}

-- A memory pool, by a number.
abbrev pub Pool : Type 0
Pool = ℕ

-- APR_STATUS_IS_TIMEUP, APR_STATUS_IS_EINTR
abbrev pub is_timeup : Status → Bool
is_timeup Status.timeup = true
is_timeup _ = false

abbrev pub is_eintr : Status → Bool
is_eintr Status.eintr = true
is_eintr _ = false

-- The answers of a pass.
pub record PassAnswers : Type 0 where
  pub pool_create : Status × Pool
  pub poll : Status
  pub is_pollin : Bool
  pub must_exit : Bool
  pub accept : Status × Socket
  pub thread_create : Status

-- The local thd_pool, and what has been done: the pools made, the clients accepted, the threads started,
-- each with its client and its pool, and the clients closed, the last one first.
pub record Accepting : Type 0 where
  pub thd_pool : Option Pool
  pub pools : List Pool
  pub accepted : List Socket
  pub threads : List (Socket × Pool)
  pub closed_clients : List Socket

abbrev pub no_clients : Accepting
no_clients = record {
  thd_pool = none;
  pools = [];
  accepted = [];
  threads = [];
  closed_clients = [];
}

-- Behind apr_socket_accept.
abbrev pub start_thread : Status → Socket → Pool → Accepting → Bool × Accepting
start_thread rc client_sock thd_pool st =
    if not (is_success rc)
    then (true, record st { closed_clients = client_sock ∷ st.closed_clients })
    else (true, record st { threads = (client_sock, thd_pool) ∷ st.threads; thd_pool = none })

abbrev pub accept_client : PassAnswers → Pool → Accepting → Bool × Accepting
accept_client a thd_pool st =
    if not (is_success a.accept.0)
    then (true, st)
    else start_thread a.thread_create a.accept.1 thd_pool
        (record st { accepted = a.accept.1 ∷ st.accepted })

-- Behind the creation of the pool.
abbrev pub poll_pass : PassAnswers → Pool → Accepting → Bool × Accepting
poll_pass a thd_pool st =
    if not (is_success a.poll) && (not (is_timeup a.poll) && not (is_eintr a.poll))
    then (false, st)
    else if a.must_exit
    then (false, st)
    else if is_timeup a.poll || (is_eintr a.poll || not a.is_pollin)
    then (true, st)
    else accept_client a thd_pool st

-- By the pool that is there: without one, one is made.
abbrev pub with_pool : PassAnswers → Option Pool → Accepting → Bool × Accepting
with_pool a (some pool) st = poll_pass a pool st
with_pool a none st =
    let (rc, pool) = a.pool_create in
    if not (is_success rc)
    then (true, st)
    else poll_pass a pool (record st { thd_pool = some pool; pools = pool ∷ st.pools })

-- A pass of the loop, with `false` where it ends the loop.
unfoldable pub accept_pass : PassAnswers → Accepting → Bool × Accepting
accept_pass a st = with_pool a st.thd_pool st
