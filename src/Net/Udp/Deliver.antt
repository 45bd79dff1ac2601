-- ===== src/Net/Udp/Deliver.antt =====
-- Datagrams of mckrnl/net/udp.c: a packet that is sent is read back, and reaches a listening socket.
use goofy_micro_os.Prelude.{
  Bool, none, set-past, ℕ, ◌+◌, ◌%◌, ◌^◌, ◌<◌, ◌≡◌, refl, ap, ◌∙◌, true, false, Option, some, List,
  [], ◌∷◌, ◌++◌, ltb, ◌==◌, length, get_elem?, take, drop, arith, take-length,
}
use goofy_micro_os.Net.Wire.{load16, store16, bswap16, bswap16-lt}
use goofy_micro_os.Net.Udp.{
  sizeof_udp_header, UdpSocket, received, Udp, cell, udp_packet, udp_listen, set_recv, route,
  udp_ipv4_recv,
}

-- The bytes of a packet.
abbrev packet : UdpSocket → List ℕ → List ℕ
packet s payload =
    store16 s.local_port
    ++ (store16 s.remote_port
        ++ (store16 (bswap16 (length payload + sizeof_udp_header)) ++ (store16 0 ++ payload)))

udp_packet-whole :
    (s : UdpSocket) (payload : List ℕ)
    → length payload + sizeof_udp_header < 2 ^ 16
    → udp_packet s payload ≡ packet s payload
unfolding udp_packet
udp_packet-whole s payload h =
    let total : (length payload + 8) % 2 ^ 16 ≡ length (packet s payload) = omega (arith, h) in
    let same : (length payload + 8) % 2 ^ 16 ≡ length payload + 8 = omega (arith, h) in
    ap (λ n. take n (packet_of ((length payload + 8) % 2 ^ 16))) total
    ∙ (ap (λ n. take (length (packet s payload)) (packet_of n)) same
        ∙ take-length (packet s payload))
  where
    packet_of : ℕ → List ℕ
    packet_of n =
        store16 s.local_port
        ++ (store16 s.remote_port ++ (store16 (bswap16 n) ++ (store16 0 ++ payload)))

-- A receiver reads from a packet the ports of the socket that sent it, and its payload: for ports of
-- 16 bits, and a payload that leaves the length below 2^16.
pub udp_packet-read :
    (s : UdpSocket) (payload : List ℕ)
    → s.local_port < 2 ^ 16
    → s.remote_port < 2 ^ 16
    → length payload + sizeof_udp_header < 2 ^ 16
    → (load16 (udp_packet s payload) 0 ≡ s.local_port)
      × (load16 (udp_packet s payload) 2 ≡ s.remote_port)
      × (drop sizeof_udp_header (udp_packet s payload) ≡ payload)
udp_packet-read s payload hl hr h =
    rw (udp_packet-whole s payload h) (omega (arith, hl), omega (arith, hr), refl)

cell-last :
    (h : List (Option UdpSocket)) (s : UdpSocket)
    → cell (get_elem? (h ++ some s ∷ []) (length h)) ≡ some s
cell-last [] s = refl
cell-last (x ∷ h) s = ground (arith, cell-last h s)

module _ (heap : List (Option UdpSocket)) (free_port driver_ip port src_ip : ℕ) (s : UdpSocket)
    (payload : List ℕ) (local_port : s.local_port < 2 ^ 16)
    (remote_port : s.remote_port ≡ bswap16 port)
    (fits : length payload + sizeof_udp_header < 2 ^ 16) where
  abbrev before : Udp
  before = record {
    heap = heap;
    binds = [];
    free_port = free_port;
    driver_ip = driver_ip;
    events = [];
  }

  abbrev bound : Bool → UdpSocket
  bound has_recv = record {
    remote_port = s.local_port;
    local_port = bswap16 port;
    remote_ip = src_ip;
    local_ip = driver_ip;
    listening = false;
    recv = has_recv;
  }

  -- On a stack with no binds, for a port below 2^16 of the sender and a packet shorter than that: a
  -- packet of a socket that sends to the port of a `udp_listen` is a call of the null pointer, as
  -- long as the new socket has no callback; when it has one, the packet reaches the socket, which is
  -- given exactly the payload and is then bound to the sender.
  pub udp_listen-recv :
      (let (p, st) = udp_listen port before in
        (udp_ipv4_recv src_ip driver_ip (udp_packet s payload) st ≡ none)
        × (st' : Udp) × (set_recv p st ≡ some st')
        × (udp_ipv4_recv src_ip driver_ip (udp_packet s payload) st'
            ≡ some (record st' {
              heap = heap ++ some (bound true) ∷ [];
              events = received p payload ∷ [];
            })))
  unfolding udp_listen udp_ipv4_recv set_recv
  udp_listen-recv =
      let remote : s.remote_port < 2 ^ 16 = omega (arith, remote_port, bswap16-lt port) in
      let (from, to, body) = udp_packet-read s payload local_port remote fits in
      let same_port : (bswap16 port == bswap16 port) ≡ true = ground arith in
      let same_ip : (driver_ip == driver_ip) ≡ true = ground arith in
      let p = length heap in
      let heard : Udp = record before {
        heap =
            heap
            ++ some (record (bound true) { remote_port = 0; remote_ip = 0; listening = true }) ∷ [];
        binds = some p ∷ [];
      } in
      (
        rw
            (
              udp_ipv4_recv,
              long,
              from,
              to,
              remote_port,
              route,
              cell-last heap _,
              same_port,
              same_ip,
              set-past heap _ [] p (some (bound false)) refl,
              cell-last heap (bound false),
            )
            refl,
        heard,
        rw (cell-last heap _, set-past heap _ [] p _ refl) refl,
        rw
            (
              udp_ipv4_recv,
              long,
              from,
              to,
              remote_port,
              route,
              cell-last heap _,
              same_port,
              same_ip,
              set-past heap _ [] p (some (bound true)) refl,
              cell-last heap (bound true),
              body,
            )
            refl,
      )
    where
      long : ltb (length (udp_packet s payload)) sizeof_udp_header ≡ false
      long = rw (udp_packet-whole s payload fits) (ground arith)
