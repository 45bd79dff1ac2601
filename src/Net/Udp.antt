-- ===== src/Net/Udp.antt =====
-- mckrnl/net/udp.c. The sockets live on a heap of cells, of which a freed one is `none`, as those of
-- mckrnl/net/tcp.c; an access through a dangling pointer, and the call of a `recv` that is
-- the null pointer, are `none`. What the code hands to
-- `ipv4_send` and to a socket's `recv` callback is appended to `events`.
use goofy_micro_os.Prelude.{
  ℕ, zero, suc, ◌+◌, ◌-◌, ◌*◌, ◌/◌, ◌%◌, ◌^◌, ◌≡◌, ◌≤◌, ◌<◌, refl, Bool, true, false, ◌&&◌, ◌||◌,
  Option, none, some, List, [], ◌∷◌, ◌++◌, ltb, ◌==◌, if◌then◌else◌, length, get_elem?, set, take,
  drop,
}
use goofy_micro_os.Prelude.Options.{◌>>=◌}
use goofy_micro_os.Net.Wire.{load16, store16, bswap16}
pub mod Deliver

abbrev pub sizeof_udp_header : ℕ
sizeof_udp_header = 8

pub record UdpSocket : Type 0 where
  pub remote_port : ℕ
  pub local_port : ℕ
  pub remote_ip : ℕ
  pub local_ip : ℕ
  pub listening : Bool
  -- Whether the `recv` callback is set; a new socket is cleared, and has none.
  pub recv : Bool

pub data Event : Type 0 where
  sent : ℕ → List ℕ → Event
  received : ℕ → List ℕ → Event

-- A bind is the socket it points at; its `port` is never read.
pub record Udp : Type 0 where
  pub heap : List (Option UdpSocket)
  pub binds : List (Option ℕ)
  pub free_port : ℕ
  pub driver_ip : ℕ
  pub events : List Event

abbrev pub cell : Option (Option UdpSocket) → Option UdpSocket
cell none = none
cell (some s) = s

abbrev pub load : Udp → ℕ → Option UdpSocket
load st p = cell (get_elem? st.heap p)

-- The loop that empties the bind of a socket; `true`: there was one.
unfoldable pub unbind : ℕ → List (Option ℕ) → List (Option ℕ) × Bool
unbind p [] = ([], false)
unbind p (none ∷ binds) = let (rest, found) = unbind p binds in (none ∷ rest, found)
unbind p (some q ∷ binds) =
    let (rest, found) = unbind p binds in
    if q == p then (none ∷ binds, true) else (some q ∷ rest, found)

unfoldable pub udp_socket_disconnect : ℕ → Udp → Option Udp
unfolding unbind
udp_socket_disconnect p st = do
  s ← load st p
  let (binds, found) = unbind p st.binds
  some (if found then record st { binds = binds; heap = set st.heap p none } else st)

-- The header and the data; the length is a `uint16_t`, and the checksum is left 0.
unfoldable pub udp_packet : UdpSocket → List ℕ → List ℕ
udp_packet s payload =
    let total_size = (length payload + sizeof_udp_header) % 2 ^ 16 in
    take total_size (
      store16 s.local_port
      ++ (store16 s.remote_port ++ (store16 (bswap16 total_size) ++ (store16 0 ++ payload))))

unfoldable pub udp_socket_send : ℕ → List ℕ → Udp → Option Udp
unfolding udp_packet
udp_socket_send p payload st = do
  s ← load st p
  some (record st { events = st.events ++ sent s.remote_ip (udp_packet s payload) ∷ [] })

-- The loop over the binds: the first free place is taken, or one is added.
unfoldable pub add_bind : ℕ → List (Option ℕ) → List (Option ℕ)
add_bind p [] = some p ∷ []
add_bind p (none ∷ binds) = some p ∷ binds
add_bind p (some q ∷ binds) = some q ∷ add_bind p binds

abbrev pub new_socket : UdpSocket → Udp → ℕ × Udp
new_socket s st = (
  length st.heap,
  record st { heap = st.heap ++ some s ∷ []; binds = add_bind (length st.heap) st.binds },
)

unfoldable pub udp_connect : ℕ → ℕ → Udp → ℕ × Udp
unfolding add_bind
udp_connect ip port st =
    new_socket
      (record {
        remote_port = bswap16 port;
        local_port = bswap16 (st.free_port % 2 ^ 16);
        remote_ip = ip;
        local_ip = st.driver_ip;
        listening = false;
        recv = false;
      })
      (record st { free_port = st.free_port + 1 })

unfoldable pub udp_listen : ℕ → Udp → ℕ × Udp
unfolding add_bind
udp_listen port st =
    new_socket
      (record {
        remote_port = 0;
        local_port = bswap16 port;
        remote_ip = 0;
        local_ip = st.driver_ip;
        listening = true;
        recv = false;
      })
      st

-- What the tasks' sockets and the services do with a new socket: `socket->recv = ...`.
unfoldable pub set_recv : ℕ → Udp → Option Udp
set_recv p st =
    load st p >>= λ s. some (record st { heap = set st.heap p (some (record s { recv = true })) })

-- The two conditions of the routing loop.
abbrev pub listens : ℕ → ℕ → UdpSocket → Bool
listens dst_port dst_ip s = s.local_port == dst_port && s.local_ip == dst_ip && s.listening

abbrev pub talks_to : ℕ → ℕ → ℕ → UdpSocket → Bool
talks_to src_port src_ip dst_ip s =
    s.remote_port == src_port
    && (s.remote_ip == src_ip
        || dst_ip == 0xffffffff
        || src_ip == 0xffffffff
        || s.remote_ip == 0xffffffff)

-- The loop: the state it leaves, and the socket found. A dangling pointer is `none`.
unfoldable pub route : ℕ → ℕ → ℕ → ℕ → Udp → List (Option ℕ) → Option (Udp × Option ℕ)
route src_port dst_port src_ip dst_ip st [] = some (st, none)
route src_port dst_port src_ip dst_ip st (none ∷ binds) =
    route src_port dst_port src_ip dst_ip st binds
route src_port dst_port src_ip dst_ip st (some p ∷ binds) =
    let rest = route src_port dst_port src_ip dst_ip st binds in
    load st p >>= λ s.
    if listens dst_port dst_ip s
    then some (
      record st {
        heap =
            set st.heap p
              (some (record s { listening = false; remote_port = src_port; remote_ip = src_ip }));
      },
      some p,
    )
    else if talks_to src_port src_ip dst_ip s
    then some (st, some p)
    else rest

-- A socket without a callback makes the call a jump through the null pointer: `none`.
unfoldable pub udp_ipv4_recv : ℕ → ℕ → List ℕ → Udp → Option Udp
unfolding route
udp_ipv4_recv src_ip dst_ip payload st =
    if ltb (length payload) sizeof_udp_header
    then some st
    else (route (load16 payload 0) (load16 payload 2) src_ip dst_ip st st.binds >>= λ (st', found).
        elim found [
          | none ↦ some st'
          | some p ↦ load st' p >>= λ s.
              if s.recv
              then some (record st' {
                events = st'.events ++ received p (drop sizeof_udp_header payload) ∷ [];
              })
              else none
        ])

abbrev pub udp_init : ℕ → Udp
udp_init driver_ip = record {
  heap = [];
  binds = [];
  free_port = 1024;
  driver_ip = driver_ip;
  events = [];
}
