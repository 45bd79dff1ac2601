-- ===== src/Net/Tcp/Recv.antt =====
-- `tcp_ipv4_recv` of mckrnl/net/tcp.c: routing, the state machine, the reset and the closing.
use goofy_micro_os.Prelude.{
  ℕ, ◌+◌, ◌-◌, ◌*◌, ◌/◌, ◌%◌, ◌^◌, bit_and, Bool, true, false, ◌&&◌, ◌||◌, Option, none, some, List,
  [], ◌∷◌, ltb, leb, ◌==◌, if◌then◌else◌, length, set, drop,
}
use goofy_micro_os.Prelude.Options.{◌>>=◌}
use goofy_micro_os.Net.Wire.{load16, load32, byte_at, bswap32}
use goofy_micro_os.Net.Tcp.{
  TcpState, closed, listen, syn_sent, syn_received, established, fin_wait1, fin_wait2, close_wait,
  fin, syn, rst, ack, sizeof_tcp_header, TcpSocket, TcpBind, received, Tcp, load, store, emit,
  tcp_socket_send_internal,
}

-- What the code reads of a segment: the fields as they are loaded, and all its bytes.
pub record Segment : Type 0 where
  pub src_port : ℕ
  pub dst_port : ℕ
  pub sequence_number : ℕ
  pub header_size_32 : ℕ
  pub flags : ℕ
  pub bytes : List ℕ

unfoldable pub read_segment : List ℕ → Segment
read_segment payload = record {
  src_port = load16 payload 0;
  dst_port = load16 payload 2;
  sequence_number = load32 payload 4;
  header_size_32 = byte_at payload 12 / 16;
  flags = byte_at payload 13;
  bytes = payload;
}

abbrev pub is_listen : TcpState → Bool
is_listen listen = true
is_listen _ = false

abbrev pub is_closed : TcpState → Bool
is_closed closed = true
is_closed _ = false

-- The first condition of the routing loop: the bind's socket listens on the segment's port.
abbrev pub listens : Segment → ℕ → TcpSocket → Bool
listens t dst_ip s = s.local_port == t.dst_port && s.local_ip == dst_ip && s.listening

-- The second one: the socket talks to the segment's sender.
abbrev pub talks_to : Segment → ℕ → TcpSocket → Bool
talks_to t src_ip s = s.remote_port == t.src_port && s.remote_ip == src_ip

-- What the routing loop does: it ends at a socket, or at none, or at a dangling pointer.
pub data Route : Type 0 where
  to_listener : ℕ → TcpSocket → Route
  to_peer : ℕ → Route
  no_route : Route
  dangling : Route

unfoldable pub route : Segment → ℕ → ℕ → Tcp → List TcpBind → Route
route t src_ip dst_ip st [] = no_route
route t src_ip dst_ip st (b ∷ binds) = elim b.socket [
  | none ↦ route t src_ip dst_ip st binds
  | some p ↦ elim (load st p) [
    | none ↦ dangling
    | some s ↦
        let rest = route t src_ip dst_ip st binds in
        if listens t dst_ip s
        then to_listener p s
        else if talks_to t src_ip s
        then to_peer p
        else rest
  ]
]

-- How the `switch` ends: by `return`, or behind it with the flag `reset`.
pub data Outcome : Type 0 where
  returns : Tcp → Outcome
  continues : Bool → Tcp → Outcome

abbrev pub resets : Tcp → Option Outcome
resets st = some (continues true st)

abbrev pub goes_on : Tcp → Option Outcome
goes_on st = some (continues false st)

abbrev pub set_state : TcpSocket → TcpState → TcpSocket
set_state s x = record s { state = x }

abbrev pub bump_ack : TcpSocket → ℕ → TcpSocket
bump_ack s n = record s { ack_number = (s.ack_number + n) % 2 ^ 32 }

-- `case SYN`: a listening socket reaches `todo()`.
unfoldable pub on_syn : TcpSocket → Tcp → Option Outcome
on_syn s st = if is_listen s.state then none else resets st

unfoldable pub on_syn_ack : Segment → ℕ → TcpSocket → Tcp → Option Outcome
on_syn_ack t p s st = elim s.state [
  | syn_sent ↦ do
    let s' = record s {
      state = established;
      ack_number = (bswap32 t.sequence_number + 1) % 2 ^ 32;
      sequence_number = (s.sequence_number + 1) % 2 ^ 32;
    }
    st' ← tcp_socket_send_internal p [] ack (store st p s')
    goes_on st'
  | _ ↦ resets st
]

-- `case FIN` and `case FIN | ACK`
unfoldable pub on_fin : ℕ → TcpSocket → Tcp → Option Outcome
on_fin p s st = elim s.state [
  | established ↦ do
    st1 ← tcp_socket_send_internal p [] ack (store st p (bump_ack (set_state s close_wait) 1))
    st2 ← tcp_socket_send_internal p [] (fin + ack) st1
    goes_on st2
  | close_wait ↦ goes_on (store st p (set_state s closed))
  | fin_wait1 ↦ do
    st1 ← tcp_socket_send_internal p [] ack (store st p (bump_ack (set_state s closed) 1))
    goes_on st1
  | fin_wait2 ↦ do
    st1 ← tcp_socket_send_internal p [] ack (store st p (bump_ack (set_state s closed) 1))
    goes_on st1
  | _ ↦ resets st
]

-- `default`: data in order is handed over and acknowledged. A header longer than the segment makes
-- the size wrap around, which is a fault, as is a callback that is the null pointer.
unfoldable pub on_data : Segment → ℕ → TcpSocket → Tcp → Option Outcome
on_data t p s st =
    let header = t.header_size_32 * 4 in
    if bswap32 t.sequence_number == s.ack_number
    then if s.recv && leb header (length t.bytes)
      then (do
        let heard = emit st (received p (drop header t.bytes))
        st1 ←
            tcp_socket_send_internal p [] ack (store heard p (bump_ack s (length t.bytes - header)))
        goes_on st1)
      else none
    else resets st

-- `case ACK`, which falls through to `default` unless ACK is the only flag.
unfoldable pub on_ack : Segment → ℕ → TcpSocket → Tcp → Option Outcome
unfolding on_data
on_ack t p s st = elim s.state [
  | syn_received ↦ some (returns (store st p (set_state s established)))
  | fin_wait1 ↦ some (returns (store st p (set_state s fin_wait2)))
  | close_wait ↦ goes_on (store st p (set_state s closed))
  | _ ↦ if t.flags == ack then goes_on st else on_data t p s st
]

-- `switch (tcp->flags & (SYN | ACK | FIN))`
unfoldable pub dispatch : Segment → ℕ → TcpSocket → Tcp → Option Outcome
dispatch t p s st =
    let kind = bit_and t.flags (syn + ack + fin) in
    if kind == syn
    then on_syn s st
    else if kind == syn + ack
    then on_syn_ack t p s st
    else if kind == syn + fin || kind == syn + fin + ack
    then resets st
    else if kind == fin || kind == fin + ack
    then on_fin p s st
    else if kind == ack
    then on_ack t p s st
    else on_data t p s st

-- The loop that empties the bind of a closed socket; `true`: there was one, and the cell is freed.
unfoldable pub unbind : ℕ → List TcpBind → List TcpBind × Bool
unbind p [] = ([], false)
unbind p (b ∷ binds) =
    let (rest, found) = unbind p binds in
    elim b.socket [
      | none ↦ (b ∷ rest, found)
      | some q ↦ if q == p then (record b { socket = none } ∷ binds, true) else (b ∷ rest, found)
    ]

unfoldable pub close_socket : ℕ → Tcp → Tcp
unfolding unbind
close_socket p st =
    let (binds, found) = unbind p st.binds in
    if found then record st { binds = binds; heap = set st.heap p none } else st

-- Behind the `switch`: the reset, and the removal of a closed socket.
unfoldable pub finish : ℕ → Outcome → Option Tcp
unfolding close_socket
finish p (returns st) = some st
finish p (continues reset st) = do
  st1 ←
      if reset
      then (do
        st' ← tcp_socket_send_internal p [] rst st
        s' ← load st' p
        some (store st' p (set_state s' closed)))
      else some st
  s1 ← load st1 p
  some (if is_closed s1.state then close_socket p st1 else st1)

-- A segment for the socket `p`.
unfoldable pub handle_segment : Segment → ℕ → Tcp → Option Tcp
unfolding dispatch finish
handle_segment t p st = do
  s ← load st p
  outcome ← if is_closed s.state then goes_on st else dispatch t p s st
  finish p outcome

unfoldable pub tcp_ipv4_recv : ℕ → ℕ → List ℕ → Tcp → Option Tcp
unfolding route handle_segment read_segment
tcp_ipv4_recv src_ip dst_ip payload st =
    let t = read_segment payload in
    if ltb (length payload) sizeof_tcp_header
    then some st
    else elim (route t src_ip dst_ip st st.binds) [
      | to_listener p s ↦ handle_segment t p (
          store st p (record s { listening = false; remote_port = t.src_port; remote_ip = src_ip }))
      | to_peer p ↦ handle_segment t p st
      | no_route ↦ some st
      | dangling ↦ none
    ]
