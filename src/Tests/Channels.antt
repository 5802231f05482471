-- ===== src/Tests/Channels.antt =====
-- Passive ports, the numbers of PORT, and reply codes.
use lkl_lklftpd.Base.{ℕ, ◌≡◌, ◌≤◌, refl, Bool, true, false, some, List, [], ◌∷◌, Bytes, text, arith}
use lkl_lklftpd.System.{Apr, State, halted, Halt, default_config}
use lkl_lklftpd.Connection.{
  scale_port, parse_items, bind_tries, bind_to_random_passive_port, pasv_min_port, pasv_max_port,
}
use lkl_lklftpd.Connection.Ports.{scale_port_bounds, AllBytes, parse_items_bounds}
use lkl_lklftpd.Connection.Binding.{Listens, bind_to_random_passive_port-Listens}
use lkl_lklftpd.DataChannel.{port_active, pasv_active}
use lkl_lklftpd.DataChannel.Recursion.{actives_overflow}
use lkl_lklftpd.Worker.{initial}
use lkl_lklftpd.Tests.Sample.{runtime}

abbrev apr : Apr
apr = runtime []

default_ports : (pasv_min_port default_config ≡ 1024) × (pasv_max_port default_config ≡ 65535)
unfolding pasv_min_port pasv_max_port text
default_ports = (refl, refl)

middle_port : scale_port 1024 65535 32768 ≡ 33280
unfolding scale_port
middle_port = refl

scale_port_bounds_example :
    (1024 ≤ scale_port 1024 65535 32768) × (scale_port 1024 65535 32768 ≤ 65535)
scale_port_bounds_example =
    scale_port_bounds 1024 65535 32768 (omega arith) (omega arith) (omega arith) (omega arith)

abbrev all_of : Bool × (ℕ → ℕ) → Bool × List ℕ
all_of (ok, vals) = (ok, vals 0 ∷ vals 1 ∷ vals 2 ∷ vals 3 ∷ vals 4 ∷ vals 5 ∷ [])

abbrev port_text : Bytes
port_text = text "10,0,0,7,4,1"

parsed :
    all_of (parse_items apr (b',' ∷ []) 6 0 port_text (λ i. 0))
    ≡ (true, 10 ∷ 0 ∷ 0 ∷ 7 ∷ 4 ∷ 1 ∷ [])
unfolding parse_items text
parsed = refl

too_large :
    all_of (parse_items apr (b',' ∷ []) 6 0 (text "10,0,0,256,4,1") (λ i. 0))
    ≡ (false, 10 ∷ 0 ∷ 0 ∷ 0 ∷ 0 ∷ 0 ∷ [])
unfolding parse_items text
too_large = refl

parse_items_bounds_example : AllBytes 6 (parse_items apr (b',' ∷ []) 6 0 port_text (λ i. 0))
parse_items_bounds_example = parse_items_bounds apr (b',' ∷ []) 6 port_text (λ i. 0)

bind_to_random_passive_port-Listens_example :
    Listens apr (bind_tries apr) (initial 7) (bind_to_random_passive_port apr (initial 7))
bind_to_random_passive_port-Listens_example = bind_to_random_passive_port-Listens apr (initial 7)

abbrev both : State
both =
    let start = initial 7 in
    let s = start.sess in
    record start { sess = record s { pasv_listen_fd = some 3; p_port_sockaddr = some 4 } }

actives_overflow_example :
    (port_active 8 both ≡ halted Halt.stack_overflow both)
    × (pasv_active 8 both ≡ halted Halt.stack_overflow both)
actives_overflow_example = actives_overflow both 8 refl refl
