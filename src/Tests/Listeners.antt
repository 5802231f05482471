-- ===== src/Tests/Listeners.antt =====
-- The listening socket, and three passes of the loop that accepts clients.
use lkl_lklftpd.Base.{
  ℕ, suc, ◌+◌, List, arith, subst, if◌then◌else◌, ◌==◌, ne→==, ◌≡◌, refl, true, false, none, some,
  [], ◌∷◌,
}
use lkl_lklftpd.System.{Apr, Status}
use lkl_lklftpd.Listener.{create_listen_socket, try_addrs, try_addr, bind_and_listen}
use lkl_lklftpd.Listener.Opens.{host_addrs, OneOpen, create_listen_socket-OneOpen}
use lkl_lklftpd.Listener.Accept.{Pool, PassAnswers, Accepting, no_clients, accept_pass}
use lkl_lklftpd.Listener.Accept.Served.{
  times, Distinct, GivesFresh, AllServed, begins, goes_round, Accepts-AllServed,
}
use lkl_lklftpd.Tests.Sample.{runtime}

abbrev apr : Apr
apr = runtime []

socket_made : (create_listen_socket apr []).0 ≡ some 5
unfolding create_listen_socket try_addrs try_addr bind_and_listen
socket_made = refl

create_listen_socket-OneOpen_example :
    OneOpen apr (host_addrs apr []) [] (create_listen_socket apr [])
create_listen_socket-OneOpen_example = create_listen_socket-OneOpen apr []

-- Every client has a number from the pass. The thread of the first cannot be started, those of the others
-- can. A pool is numbered above the sum of those made.
abbrev total : List Pool → ℕ
total [] = 0
total (p ∷ rest) = p + total rest

abbrev answers : ℕ → Accepting → PassAnswers
answers n st = record {
  pool_create = (Status.success, suc (total st.pools));
  poll = Status.success;
  is_pollin = true;
  must_exit = false;
  accept = (Status.success, 7 + n);
  thread_create = if n == 0 then Status.code 11 else Status.success;
}

above_total : (k : ℕ) (pools : List Pool) → times (suc (k + total pools)) pools ≡ 0
above_total k [] = refl
above_total k (p ∷ rest) =
    let differs : (p == suc (k + (p + total rest))) ≡ false = ne→== p _ (omega arith) in
    let moved : suc (k + p + total rest) ≡ suc (k + total (p ∷ rest)) = omega arith in
    rw differs (subst (λ m. times m rest ≡ 0) moved (above_total (k + p) rest))

answers-GivesFresh : GivesFresh answers
answers-GivesFresh n st none_kept made =
    let plain : suc (0 + total st.pools) ≡ suc (total st.pools) = omega arith in
    subst (λ m. times m st.pools ≡ 0) plain (above_total 0 st.pools)

abbrev one_closed : Accepting
one_closed = record {
  thd_pool = some 1;
  pools = 1 ∷ [];
  accepted = 7 ∷ [];
  threads = [];
  closed_clients = 7 ∷ [];
}

abbrev one_served : Accepting
one_served = record {
  thd_pool = none;
  pools = 1 ∷ [];
  accepted = 8 ∷ 7 ∷ [];
  threads = (8, 1) ∷ [];
  closed_clients = 7 ∷ [];
}

abbrev two_served : Accepting
two_served = record {
  thd_pool = none;
  pools = 2 ∷ 1 ∷ [];
  accepted = 9 ∷ 8 ∷ 7 ∷ [];
  threads = (9, 2) ∷ (8, 1) ∷ [];
  closed_clients = 7 ∷ [];
}

first_pass : accept_pass (answers 0 no_clients) no_clients ≡ (true, one_closed)
unfolding accept_pass
first_pass = refl

second_pass : accept_pass (answers 1 one_closed) one_closed ≡ (true, one_served)
unfolding accept_pass
second_pass = refl

third_pass : accept_pass (answers 2 one_served) one_served ≡ (true, two_served)
unfolding accept_pass
third_pass = refl

Accepts-AllServed_example : AllServed two_served × Distinct (2 ∷ 1 ∷ [])
Accepts-AllServed_example = Accepts-AllServed answers answers-GivesFresh (
    goes_round 2 one_served two_served
      (goes_round 1 one_closed one_served (goes_round 0 no_clients one_closed begins first_pass)
        second_pass)
      third_pass)
