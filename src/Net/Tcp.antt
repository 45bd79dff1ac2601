-- ===== src/Net/Tcp.antt =====
-- mckrnl/net/tcp.c. Sockets live on a heap of cells, of which a freed one is `none`; a pointer is the
-- index of a cell. An access through a dangling pointer, the abort of `todo()`, and the call of a
-- `recv` that is the null pointer are `none`. What the code hands to `ipv4_send` and to a socket's
-- `recv` callback is appended to `events`.
pub mod Recv
pub mod States
pub mod Binds
pub mod Steps
pub mod Owned
pub mod Connect
pub mod Reset
pub mod Wait
pub mod Handshake
mod Tests
use goofy_micro_os.Prelude.{
  ℕ, zero, suc, ◌+◌, ◌-◌, ◌*◌, ◌/◌, ◌%◌, ◌^◌, bit_and, Bool, true, false, not, ◌&&◌, ◌||◌, Option,
  none, some, List, [], ◌∷◌, ◌++◌, ltb, leb, ◌==◌, if◌then◌else◌, length, get_elem?, set, take,
  drop,
}
use goofy_micro_os.Prelude.Options.{◌>>=◌}
use goofy_micro_os.Net.Wire.{load16, load32, byte_at, store16, store32, bswap16, bswap32}
use goofy_micro_os.Net.Checksum.{ipv4_checksum}

-- `enum tcp_socket_state`
pub data TcpState : Type 0 where
  closed listen syn_sent syn_received established fin_wait1 fin_wait2 closing time_wait close_wait :
      TcpState

-- `enum tcp_flags`, as far as the code sends and tests them
abbrev pub fin : ℕ
fin = 1

abbrev pub syn : ℕ
syn = 2

abbrev pub rst : ℕ
rst = 4

abbrev pub psh : ℕ
psh = 8

abbrev pub ack : ℕ
ack = 16

abbrev pub sizeof_tcp_header : ℕ
sizeof_tcp_header = 24

pub record TcpSocket : Type 0 where
  pub remote_port : ℕ
  pub local_port : ℕ
  pub remote_ip : ℕ
  pub local_ip : ℕ
  pub listening : Bool
  pub sequence_number : ℕ
  pub ack_number : ℕ
  pub state : TcpState
  -- Whether the `recv` callback is set; a new socket is cleared, and has none.
  pub recv : Bool

pub record TcpBind : Type 0 where
  pub port : ℕ
  pub socket : Option ℕ

pub data Event : Type 0 where
  -- The remote address and the bytes given to `ipv4_send`.
  sent : ℕ → List ℕ → Event
  -- The socket and the bytes given to its `recv`.
  received : ℕ → List ℕ → Event

pub record Tcp : Type 0 where
  pub heap : List (Option TcpSocket)
  pub binds : List TcpBind
  pub free_port : ℕ
  pub driver_ip : ℕ
  pub events : List Event

abbrev pub cell : Option (Option TcpSocket) → Option TcpSocket
cell none = none
cell (some s) = s

abbrev pub load : Tcp → ℕ → Option TcpSocket
load st p = cell (get_elem? st.heap p)

abbrev pub store : Tcp → ℕ → TcpSocket → Tcp
store st p s = record st { heap = set st.heap p (some s) }

abbrev pub emit : Tcp → Event → Tcp
emit st e = record st { events = st.events ++ e ∷ [] }

-- The pseudo header, with the length in network order.
unfoldable pub pseudo_header : TcpSocket → ℕ → List ℕ
pseudo_header s total_length =
    store32 s.local_ip
    ++ (store32 s.remote_ip ++ (store16 0x0600 ++ store16 (bswap16 total_length)))

-- The header with a given checksum; its sixth word count stands in the high half of byte 12.
unfoldable pub tcp_header : TcpSocket → ℕ → ℕ → List ℕ
tcp_header s flags checksum =
    store16 s.local_port
    ++ (store16 s.remote_port
        ++ (store32 (bswap32 s.sequence_number)
            ++ (store32 (bswap32 s.ack_number)
                ++ (sizeof_tcp_header / 4 * 16
                    ∷ flags % 256
                    ∷ (store16 0xffff
                        ++ (store16 checksum
                            ++ (store16 0
                                ++ store32 (if bit_and flags syn == 0 then 0 else 0xb4050402))))))))

-- The bytes of a segment as they are sent; lengths are `uint16_t`.
unfoldable pub tcp_segment : TcpSocket → List ℕ → ℕ → List ℕ
tcp_segment s payload flags =
    let total_length = (length payload + sizeof_tcp_header) % 2 ^ 16 in
    let length_phdr = (total_length + 12) % 2 ^ 16 in
    let checksum =
      ipv4_checksum
        (take length_phdr (pseudo_header s total_length ++ (tcp_header s flags 0 ++ payload))) in
    take total_length (tcp_header s flags checksum ++ payload)

unfoldable pub tcp_socket_send_internal : ℕ → List ℕ → ℕ → Tcp → Option Tcp
tcp_socket_send_internal p payload flags st = do
  s ← load st p
  let s' = record s { sequence_number = (s.sequence_number + length payload) % 2 ^ 32 }
  some (emit (store st p s') (sent s.remote_ip (tcp_segment s payload flags)))

unfoldable pub tcp_socket_disconnect : ℕ → Tcp → Option Tcp
unfolding tcp_socket_send_internal
tcp_socket_disconnect p st = do
  s ← load st p
  st1 ← tcp_socket_send_internal p [] (fin + ack) (store st p (record s { state = fin_wait1 }))
  s1 ← load st1 p
  some (store st1 p (record s1 { sequence_number = (s1.sequence_number + 1) % 2 ^ 32 }))

unfoldable pub tcp_socket_send : ℕ → List ℕ → Tcp → Option Tcp
unfolding tcp_socket_send_internal
tcp_socket_send p payload st = tcp_socket_send_internal p payload (psh + ack) st

-- The loop of `tcp_connect` over the binds: the first free place is taken, or one is added.
unfoldable pub add_bind : TcpBind → List TcpBind → List TcpBind
add_bind bind [] = bind ∷ []
add_bind bind (b ∷ binds) = elim b.socket [ none ↦ bind ∷ binds | some _ ↦ b ∷ add_bind bind binds ]

-- The socket that `tcp_connect` fills in; `now` is the timer's time.
abbrev pub new_socket : ℕ → ℕ → ℕ → Tcp → TcpSocket
new_socket ip port now st = record {
  remote_port = bswap16 port;
  local_port = bswap16 (st.free_port % 2 ^ 16);
  remote_ip = ip;
  local_ip = st.driver_ip;
  listening = false;
  sequence_number = now % 2 ^ 32;
  ack_number = 0;
  state = syn_sent;
  recv = false;
}

-- `tcp_connect` up to its SYN: the new cell is the next of the heap, and a bind points at it.
unfoldable pub bind_socket : TcpSocket → Tcp → Tcp
unfolding add_bind
bind_socket s st = record st {
  heap = st.heap ++ some s ∷ [];
  binds = add_bind (record { port = s.local_port; socket = some (length st.heap) }) st.binds;
  free_port = st.free_port + 1;
}

-- `tcp_connect` up to the wait.
unfoldable pub send_syn : ℕ → ℕ → ℕ → Tcp → Option (ℕ × Tcp)
unfolding bind_socket tcp_socket_send_internal
send_syn ip port now st = do
  let p = length st.heap
  st' ← tcp_socket_send_internal p [] syn (bind_socket (new_socket ip port now st) st)
  some (p, st')

-- `tcp_init`; the driver's address is read at each connect.
abbrev pub tcp_init : ℕ → Tcp
tcp_init driver_ip = record {
  heap = [];
  binds = [];
  free_port = 1024;
  driver_ip = driver_ip;
  events = [];
}
