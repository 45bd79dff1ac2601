-- ===== src/Net/Tcp/Handshake.antt =====
-- What `tcp_connect` of mckrnl/net/tcp.c comes to: the peer accepts, or it refuses.
use goofy_micro_os.Prelude.{
  ℕ, zero, suc, ◌+◌, ◌≤◌, ◌%◌, ◌^◌, ◌≡◌, refl, Bool, true, false, ◌&&◌, Option, some, List, [], ◌∷◌,
  ◌++◌, ltb, ◌==◌, arith, length, replicate, get_elem?, set-past,
}
use goofy_micro_os.Net.Wire.{bswap32, bswap16, load16, load32, byte_at}
use goofy_micro_os.Net.Tcp.{
  syn_sent, established, syn, ack, sent, TcpSocket, Tcp, cell, load, store, emit, tcp_segment,
  tcp_socket_send_internal, new_socket, bind_socket, add_bind, send_syn,
}
use goofy_micro_os.Net.Tcp.Recv.{
  read_segment, listens, to_peer, route, on_syn_ack, dispatch, finish, handle_segment,
  tcp_ipv4_recv,
}
use goofy_micro_os.Net.Tcp.States.{store-same, acknowledged, send_on}
use goofy_micro_os.Net.Tcp.Wait.{Packet, arrive, tcp_wait_established, tcp_connect}

cell-last :
    (h : List (Option TcpSocket)) (s : TcpSocket)
    → cell (get_elem? (h ++ some s ∷ []) (length h)) ≡ some s
cell-last [] s = refl
cell-last (x ∷ h) s = ground (arith, cell-last h s)

-- The rounds before anything arrives.
wait-quiet :
    (p n : ℕ) (rounds : List (List Packet)) (st : Tcp) (s : TcpSocket)
    → load st p ≡ some s
    → s.state ≡ syn_sent
    → tcp_wait_established p (replicate n [] ++ rounds) st ≡ tcp_wait_established p rounds st
unfolding tcp_wait_established arrive
wait-quiet p zero rounds st s e asking = refl
wait-quiet p (suc n) rounds st s e asking = rw (e, asking) (wait-quiet p n rounds st s e asking)

and_false : (a b : Bool) → (a && b && false) ≡ false
and_false true true = refl
and_false true false = refl
and_false false true = refl
and_false false false = refl

module _ (heap : List (Option TcpSocket)) (free_port driver_ip ip port now n dst_ip : ℕ)
    (payload : List ℕ) (more : List (List Packet)) where
  abbrev before : Tcp
  before = record {
    heap = heap;
    binds = [];
    free_port = free_port;
    driver_ip = driver_ip;
    events = [];
  }

  abbrev asking : TcpSocket
  asking = new_socket ip port now before

  -- The stack behind the SYN.
  abbrev asked : Tcp
  asked = record before {
    heap = heap ++ some (acknowledged asking) ∷ [];
    binds = record { port = asking.local_port; socket = some (length heap) } ∷ [];
    free_port = free_port + 1;
    events = sent ip (tcp_segment asking [] syn) ∷ [];
  }

  -- Quiet rounds, and one in which the packet arrives.
  abbrev rounds : List (List Packet)
  rounds =
      replicate n [] ++ (record { src_ip = ip; dst_ip = dst_ip; payload = payload } ∷ []) ∷ more

  load-asked : load asked (length heap) ≡ some (acknowledged asking)
  load-asked = cell-last heap (acknowledged asking)

  send_syn-asked : send_syn ip port now before ≡ some (length heap, asked)
  unfolding send_syn bind_socket tcp_socket_send_internal add_bind
  send_syn-asked =
      rw
        (
          cell-last heap asking,
          set-past heap (some asking) [] (length heap) (some (acknowledged asking)) refl,
        )
        refl

  module _ (long : 24 ≤ length payload) (from_peer : load16 payload 0 ≡ bswap16 port) where
    recv-peer :
        tcp_ipv4_recv ip dst_ip payload asked
        ≡ handle_segment (read_segment payload) (length heap) asked
    unfolding tcp_ipv4_recv route read_segment
    recv-peer =
        let enough : ltb (length payload) 24 ≡ false = ground (arith, long) in
        let deaf : listens (read_segment payload) dst_ip (acknowledged asking) ≡ false =
          and_false (bswap16 (free_port % 2 ^ 16) == load16 payload 2) (driver_ip == dst_ip) in
        let port_same : (bswap16 port == load16 payload 0) ≡ true = ground (arith, from_peer) in
        let ip_same : (ip == ip) ≡ true = ground arith in
        let routed : route (read_segment payload) ip dst_ip asked asked.binds
            ≡ to_peer (length heap) =
          rw (route, load-asked, deaf, port_same, ip_same) refl in
        rw (enough, routed) refl

    -- The answer to the SYN, SYN and ACK, whenever it comes within the rounds of the wait, on a stack
    -- without binds before: `tcp_connect` returns the new socket, which is live and established,
    -- expects the number behind the peer's and is itself one further; and what was sent is one SYN,
    -- and one ACK with these numbers.
    pub tcp_connect-established :
        byte_at payload 13 ≡ 18
        → (st' : Tcp) × (s : TcpSocket) × (tcp_connect ip port now rounds before
            ≡ some (length heap, st'))
          × (load st' (length heap) ≡ some s)
          × (s.state ≡ established)
          × (s.ack_number ≡ (bswap32 (load32 payload 4) + 1) % 2 ^ 32)
          × (s.sequence_number ≡ (now + 1) % 2 ^ 32)
          × (st'.events
              ≡ sent ip (tcp_segment asking [] syn) ∷ (sent ip (tcp_segment s [] ack) ∷ []))
    unfolding tcp_connect tcp_wait_established arrive handle_segment dispatch on_syn_ack finish
        read_segment
    tcp_connect-established answers =
        let p : ℕ = length heap in
        let s : TcpSocket = record (acknowledged asking) {
          state = established;
          ack_number = (bswap32 (load32 payload 4) + 1) % 2 ^ 32;
          sequence_number = ((now % 2 ^ 32 + 0) % 2 ^ 32 + 1) % 2 ^ 32;
        } in
        let settled : ((((now % 2 ^ 32 + 0) % 2 ^ 32 + 1) % 2 ^ 32) + 0) % 2 ^ 32
            ≡ ((now % 2 ^ 32 + 0) % 2 ^ 32 + 1) % 2 ^ 32 =
          omega arith in
        let connected : Tcp = store asked p s in
        let at_s : load connected p ≡ some s =
          store-same asked p (acknowledged asking) s load-asked in
        let final : Tcp =
          emit (store connected p (acknowledged s)) (sent ip (tcp_segment s [] ack)) in
        let at_end : load final p ≡ some (acknowledged s) =
          store-same connected p s (acknowledged s) at_s in
        let handled : handle_segment (read_segment payload) p asked ≡ some final =
          rw
            (
              handle_segment,
              load-asked,
              dispatch,
              answers,
              on_syn_ack,
              send_on connected p 16 s at_s,
              finish,
              at_end,
            )
            refl in
        (
          final,
          acknowledged s,
          rw
              (
                tcp_connect,
                send_syn-asked,
                wait-quiet p n _ asked (acknowledged asking) load-asked refl,
                recv-peer,
                handled,
                at_end,
              )
              refl,
          at_end,
          refl,
          refl,
          omega arith,
          rw settled refl,
        )
