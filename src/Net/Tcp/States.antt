-- ===== src/Net/Tcp/States.antt =====
-- A stream of segments for an established connection in mckrnl/net/tcp.c.
use goofy_micro_os.Prelude.{
  ℕ, ◌+◌, ◌-◌, ◌*◌, ◌%◌, ◌^◌, ◌≤◌, ◌<◌, ◌≡◌, refl, sym, ap, ◌∙◌, true, Option, some, List, [], ◌∷◌,
  ◌++◌, append_assoc, append-nil, leb, ◌==◌, length, drop, arith, is_some, length-append,
  length-drop, Bool-cases, inl, inr, if◌then◌else◌,
}
use goofy_micro_os.Prelude.Options.{◌>>=◌}
use goofy_micro_os.Net.Wire.{bswap32}
use goofy_micro_os.Net.Tcp.{
  established, psh, ack, Event, sent, received, TcpSocket, Tcp, load, store, emit, tcp_segment,
  tcp_socket_send_internal,
}
use goofy_micro_os.Net.Tcp.Recv.{Segment, on_ack, on_data, dispatch, finish, handle_segment}
use goofy_micro_os.Net.Tcp.Binds.{load-store}

pub store-same :
    (st : Tcp) (p : ℕ) (s s' : TcpSocket) → load st p ≡ some s → load (store st p s') p ≡ some s'
store-same st p s s' e = ground (arith, load-store st p p s' (ap is_some e))

-- What a segment without data leaves of a socket: its sequence number is within 32 bits.
abbrev pub acknowledged : TcpSocket → TcpSocket
acknowledged s = record s { sequence_number = (s.sequence_number + 0) % 2 ^ 32 }

pub send_on :
    (st : Tcp) (p flags : ℕ) (s : TcpSocket)
    → load st p ≡ some s
    → tcp_socket_send_internal p [] flags st
      ≡ some (emit (store st p (acknowledged s)) (sent s.remote_ip (tcp_segment s [] flags)))
unfolding tcp_socket_send_internal
send_on st p flags s e = rw (tcp_socket_send_internal, e) refl

-- The bytes that the socket `p` has been handed.
unfoldable pub delivered : ℕ → List Event → List ℕ
delivered p [] = []
delivered p (sent ip bytes ∷ events) = delivered p events
delivered p (received q bytes ∷ events) =
    let rest = delivered p events in if q == p then bytes ++ rest else rest

delivered-append :
    (p : ℕ) (a b : List Event) → delivered p (a ++ b) ≡ delivered p a ++ delivered p b
unfolding delivered
delivered-append p [] b = refl
delivered-append p (sent ip bytes ∷ a) b = delivered-append p a b
delivered-append p (received q bytes ∷ a) b = elim (Bool-cases (q == p)) [
  | inl e ↦
      rw (e, delivered-append p a b) (sym (append_assoc bytes (delivered p a) (delivered p b)))
  | inr e ↦ rw (e, delivered-append p a b) refl
]

-- The bytes behind the header of a segment, and how many they are.
abbrev pub data_of : Segment → List ℕ
data_of t = drop (t.header_size_32 * 4) t.bytes

abbrev pub size_of : Segment → ℕ
size_of t = length t.bytes - t.header_size_32 * 4

-- Segments of data that follow one another from the number `n` on.
abbrev pub InOrder : ℕ → List Segment → Type 0
InOrder n [] = Unit
InOrder n (t ∷ ts) =
    (t.flags ≡ psh + ack)
    × (t.header_size_32 * 4 ≤ length t.bytes)
    × (bswap32 t.sequence_number ≡ n)
    × InOrder ((n + size_of t) % 2 ^ 32) ts

abbrev pub stream : List Segment → List ℕ
stream [] = []
stream (t ∷ ts) = data_of t ++ stream ts

abbrev pub handle_all : List Segment → ℕ → Tcp → Option Tcp
handle_all [] p st = some st
handle_all (t ∷ ts) p st = handle_segment t p st >>= λ st'. handle_all ts p st'

-- A socket in an established connection, with its `recv` callback, that expects the number `n`.
abbrev pub open_at : TcpSocket → ℕ → TcpSocket
open_at s n = record s { state = established; recv = true; ack_number = n }

pub record Open (st : Tcp) (p n : ℕ) : Type 0 where
  pub socket : TcpSocket
  pub is_live : load st p ≡ some (open_at socket n)

-- One segment: it is handed over, and its bytes are counted.
handle_segment-Open :
    (st : Tcp) (p n : ℕ) (t : Segment) (ts : List Segment)
    → Open st p n
    → InOrder n (t ∷ ts)
    → (st' : Tcp) × (handle_segment t p st ≡ some st')
      × Open st' p ((n + size_of t) % 2 ^ 32)
      × (delivered p st'.events ≡ delivered p st.events ++ data_of t)
unfolding handle_segment dispatch on_ack on_data finish delivered
handle_segment-Open st p n t ts o (pushes, fits, in_order, rest) =
    let s : TcpSocket = open_at o.socket n in
    let heard : TcpSocket = open_at o.socket ((n + size_of t) % 2 ^ 32) in
    let handed : Tcp = store (emit st (received p (data_of t))) p heard in
    let test : (bswap32 t.sequence_number == n) ≡ true = ground (arith, in_order) in
    let inside : leb (t.header_size_32 * 4) (length t.bytes) ≡ true = ground (arith, fits) in
    let at_heard : load handed p ≡ some heard =
      store-same (emit st (received p (data_of t))) p s heard o.is_live in
    let at_acked : load (store handed p (acknowledged heard)) p ≡ some (acknowledged heard) =
      store-same handed p heard (acknowledged heard) at_heard in
    let same : (p == p) ≡ true = ground arith in
    (
      emit (store handed p (acknowledged heard)) (sent s.remote_ip (tcp_segment heard [] ack)),
      rw
          (
            handle_segment,
            o.is_live,
            dispatch,
            pushes,
            on_data,
            test,
            inside,
            send_on handed p 16 heard at_heard,
            finish,
            at_acked,
          )
          refl,
      record { socket = acknowledged heard; is_live = at_acked },
      rw
          (
            delivered-append p (st.events ++ received p (data_of t) ∷ [])
                (sent s.remote_ip (tcp_segment heard [] ack) ∷ []),
            delivered-append p st.events (received p (data_of t) ∷ []),
            same,
          )
          (rw (append-nil (data_of t), append-nil (delivered p st.events ++ data_of t)) refl),
    )

-- Segments of data (PSH and ACK), however many, that follow one another from the number that an
-- established connection with a `recv` callback expects, and whose headers are no longer than they:
-- all of them are handled, the socket is handed exactly their data in their order, and the
-- connection stays established and expects the number behind them.
pub handle_all-stream :
    (ts : List Segment) (st : Tcp) (p n : ℕ)
    → n < 2 ^ 32
    → Open st p n
    → InOrder n ts
    → (st' : Tcp) × (handle_all ts p st ≡ some st')
      × (delivered p st'.events ≡ delivered p st.events ++ stream ts)
      × Open st' p ((n + length (stream ts)) % 2 ^ 32)
handle_all-stream [] st p n small o order =
    let same : (n + 0) % 2 ^ 32 ≡ n = omega (arith, small) in
    (st, refl, sym (append-nil (delivered p st.events)), rw same o)
handle_all-stream (t ∷ ts) st p n small o order =
    let (st1, e1, o1, d1) = handle_segment-Open st p n t ts o order in
    let m : ℕ = (n + size_of t) % 2 ^ 32 in
    let (st2, e2, d2, o2) = handle_all-stream ts st1 p m (omega arith) o1 order.3 in
    let next : (m + length (stream ts)) % 2 ^ 32 ≡ (n + length (data_of t ++ stream ts)) % 2 ^ 32 =
      omega (
        arith,
        length-append (data_of t) (stream ts),
        length-drop (t.header_size_32 * 4) t.bytes,
      ) in
    (
      st2,
      rw e1 e2,
      d2 ∙ rw d1 (append_assoc (delivered p st.events) (data_of t) (stream ts)),
      rw next at o2,
    )
