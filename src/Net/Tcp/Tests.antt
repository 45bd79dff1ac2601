-- ===== src/Net/Tcp/Tests.antt =====
-- The theorems on mckrnl/net/tcp.c at a machine with one connection, and at a new one.
use goofy_micro_os.Prelude.{
  ℕ, zero, suc, ◌*◌, ◌≤◌, ◌≡◌, refl, true, false, none, some, List, [], ◌∷◌, arith, length, ◌==◌,
  bit_and,
}
use goofy_micro_os.Prelude.Ensures.{Returns}
use goofy_micro_os.Net.Wire.{bswap16, bswap32, load16}
use goofy_micro_os.Net.Tcp.{
  established, rst, TcpSocket, sent, Tcp, load, tcp_segment, new_socket, tcp_init, tcp_socket_send,
  tcp_socket_disconnect,
}
use goofy_micro_os.Net.Tcp.Recv.{
  Segment, read_segment, is_listen, close_socket, handle_segment, tcp_ipv4_recv,
}
use goofy_micro_os.Net.Tcp.Binds.{owners, live, IsOwned}
use goofy_micro_os.Net.Tcp.Owned.{tcp_ipv4_recv-IsOwned}
use goofy_micro_os.Net.Tcp.Connect.{close_socket-dangling}
use goofy_micro_os.Net.Tcp.States.{delivered, handle_all, Open, handle_all-stream}
use goofy_micro_os.Net.Tcp.Reset.{Freed, acks_out_of_order, handle_segment-resets}
use goofy_micro_os.Net.Tcp.Wait.{Packet, tcp_connect}
use goofy_micro_os.Net.Tcp.Handshake.{tcp_connect-established}

abbrev socket_0 : TcpSocket
socket_0 = record {
  remote_port = 5;
  local_port = 7;
  remote_ip = 9;
  local_ip = 3;
  listening = false;
  sequence_number = 100;
  ack_number = 1;
  state = established;
  recv = true;
}

abbrev machine : Tcp
machine = record {
  heap = some socket_0 ∷ [];
  binds = record { port = 7; socket = some 0 } ∷ [];
  free_port = 1025;
  driver_ip = 3;
  events = [];
}

machine-IsOwned : IsOwned machine
unfolding owners
machine-IsOwned = record { owned = one_owner }
  where
    one_owner : (p : ℕ) → owners p machine.binds ≡ live machine p
    one_owner zero = refl
    one_owner (suc p) = ground arith

-- A segment of one byte of data, 42, with the number 1.
abbrev packet : List ℕ
packet =
    5 ∷ 0 ∷ 7 ∷ 0 ∷ 0 ∷ 0 ∷ 0 ∷ 1 ∷ 0 ∷ 0 ∷ 0 ∷ 0 ∷ 96 ∷ 24 ∷ 0 ∷ 0 ∷ 0 ∷ 0 ∷ 0 ∷ 0 ∷ 0 ∷ 0 ∷ 0 ∷ 0
    ∷ 42 ∷ []

machine-quiet :
    (p : ℕ) (s : TcpSocket)
    → load machine p ≡ some s
    → (is_listen s.state ≡ false)
      × (s.recv ≡ false → (bit_and (read_segment packet).flags 19 == 18) ≡ true)
machine-quiet zero s h = let e : socket_0 ≡ s = cc h in rw (← e) (refl, λ deaf. absurd (cc deaf))
machine-quiet (suc p) s h = absurd (cc h)

packet-fits : (read_segment packet).header_size_32 * 4 ≤ length packet
unfolding read_segment
packet-fits = omega arith

tcp_ipv4_recv-IsOwned_example : Returns IsOwned (tcp_ipv4_recv 9 3 packet machine)
tcp_ipv4_recv-IsOwned_example =
    tcp_ipv4_recv-IsOwned machine 9 3 packet machine-IsOwned machine-quiet packet-fits

close_socket-dangling_example :
    (tcp_socket_send 0 (42 ∷ []) (close_socket 0 machine) ≡ none)
    × (tcp_socket_disconnect 0 (close_socket 0 machine) ≡ none)
close_socket-dangling_example = close_socket-dangling 0 machine (42 ∷ []) machine-IsOwned refl

abbrev segment : ℕ → ℕ → Segment
segment flags number = record {
  src_port = 5;
  dst_port = 7;
  sequence_number = number;
  header_size_32 = 6;
  flags = flags;
  bytes = packet;
}

number-in_order : (bswap32 0x01000000 ≡ 1) × (bswap32 0x02000000 ≡ 2)
unfolding bswap32
number-in_order = (refl, refl)

-- Two segments of one byte each.
handle_all-stream_example :
    (st' : Tcp) × (handle_all (segment 24 0x01000000 ∷ (segment 24 0x02000000 ∷ [])) 0 machine
      ≡ some st')
    × (delivered 0 st'.events ≡ 42 ∷ (42 ∷ []))
    × Open st' 0 3
unfolding delivered
handle_all-stream_example =
    handle_all-stream (segment 24 0x01000000 ∷ (segment 24 0x02000000 ∷ [])) machine 0 1
      (omega arith) (record { socket = socket_0; is_live = refl })
      (refl, omega arith, number-in_order.0, (refl, omega arith, number-in_order.1, tt))

number-out_of_order : (bswap32 0x02000000 == 1) ≡ false
unfolding bswap32
number-out_of_order = refl

handle_segment-resets_example :
    (st' : Tcp) × (handle_segment (segment 24 0x02000000) 0 machine ≡ some st')
    × Freed machine 0 st'
    × (st'.events ≡ sent 9 (tcp_segment socket_0 [] rst) ∷ [])
handle_segment-resets_example =
    handle_segment-resets (segment 24 0x02000000) 0 socket_0 machine machine-IsOwned refl refl refl
      (acks_out_of_order refl refl refl number-out_of_order)

-- The answer of 9:80 to the SYN, with the number 1, and its refusal with the number 2.
abbrev answer : List ℕ
answer =
    0 ∷ 80 ∷ 4 ∷ 0 ∷ 0 ∷ 0 ∷ 0 ∷ 1 ∷ 0 ∷ 0 ∷ 0 ∷ 0 ∷ 96 ∷ 18 ∷ 0 ∷ 0 ∷ 0 ∷ 0 ∷ 0 ∷ 0 ∷ 0 ∷ 0 ∷ 0 ∷ 0
    ∷ []

abbrev refusal : List ℕ
refusal =
    0 ∷ 80 ∷ 4 ∷ 0 ∷ 0 ∷ 0 ∷ 0 ∷ 2 ∷ 0 ∷ 0 ∷ 0 ∷ 0 ∷ 96 ∷ 20 ∷ 0 ∷ 0 ∷ 0 ∷ 0 ∷ 0 ∷ 0 ∷ 0 ∷ 0 ∷ 0 ∷ 0
    ∷ []

abbrev bytes_from : List ℕ → Packet
bytes_from payload = record { src_ip = 9; dst_ip = 3; payload = payload }

abbrev asker : TcpSocket
asker = new_socket 9 80 1000 (tcp_init 3)

from_80 : load16 answer 0 ≡ bswap16 80
unfolding bswap16
from_80 = refl

tcp_connect-established_example :
    (st' : Tcp) × (s : TcpSocket) × (tcp_connect 9 80 1000
        ([] ∷ ((bytes_from answer ∷ []) ∷ []))
        (tcp_init 3)
      ≡ some (0, st'))
    × (load st' 0 ≡ some s)
    × (s.state ≡ established)
    × (s.ack_number ≡ 2)
    × (s.sequence_number ≡ 1001)
    × (st'.events ≡ sent 9 (tcp_segment asker [] 2) ∷ (sent 9 (tcp_segment s [] 16) ∷ []))
unfolding bswap32
tcp_connect-established_example =
    tcp_connect-established [] 1024 3 9 80 1000 1 3 answer [] (omega arith) from_80 refl
