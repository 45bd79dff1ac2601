-- ===== src/Net/Tcp/Wait.antt =====
-- `tcp_connect` of mckrnl/net/tcp.c with its wait. While a task sleeps in the wait, packets arrive:
-- each round of the wait has those that arrive before its poll.
use goofy_micro_os.Prelude.{ℕ, Bool, true, false, Option, some, List, [], ◌∷◌, if◌then◌else◌}
use goofy_micro_os.Prelude.Options.{◌>>=◌}
use goofy_micro_os.Net.Tcp.{TcpState, established, Tcp, load, send_syn}
use goofy_micro_os.Net.Tcp.Recv.{tcp_ipv4_recv}

pub record Packet : Type 0 where
  pub src_ip : ℕ
  pub dst_ip : ℕ
  pub payload : List ℕ

unfoldable pub arrive : List Packet → Tcp → Option Tcp
arrive [] st = some st
arrive (k ∷ packets) st = tcp_ipv4_recv k.src_ip k.dst_ip k.payload st >>= λ st'. arrive packets st'

abbrev pub is_established : TcpState → Bool
is_established established = true
is_established _ = false

-- The poll reads the socket, also when it has been freed: `none`. Without rounds left, the wait has
-- timed out, and it returns.
unfoldable pub tcp_wait_established : ℕ → List (List Packet) → Tcp → Option Tcp
unfolding arrive
tcp_wait_established p [] st = some st
tcp_wait_established p (packets ∷ rounds) st = arrive packets st >>= λ st'. load st' p >>= λ s.
    let rest = tcp_wait_established p rounds st' in
    if is_established s.state then some st' else rest

unfoldable pub tcp_connect :
    (ip port now : ℕ) (rounds : List (List Packet)) → Tcp → Option (ℕ × Tcp)
unfolding tcp_wait_established
tcp_connect ip port now rounds st = send_syn ip port now st >>= λ (p, st1).
    tcp_wait_established p rounds st1 >>= λ st2. some (p, st2)
