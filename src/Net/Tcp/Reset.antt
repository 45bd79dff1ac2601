-- ===== src/Net/Tcp/Reset.antt =====
-- The segments that mckrnl/net/tcp.c answers with a reset, and what a reset leaves.
use goofy_micro_os.Prelude.{
  ℕ, bit_and, ◌≡◌, ◌≢◌, refl, ap, ◌∙◌, Bool, true, false, none, some, [], ◌∷◌, ◌++◌, ◌==◌, arith,
  is_some,
}
use goofy_micro_os.Net.Wire.{bswap32}
use goofy_micro_os.Net.Tcp.{
  TcpState, closed, syn_sent, syn_received, established, fin_wait1, fin_wait2, close_wait, rst,
  sent, TcpSocket, Tcp, load, store, emit, tcp_segment,
}
use goofy_micro_os.Net.Tcp.Recv.{
  Segment, continues, is_listen, is_closed, set_state, on_syn, on_syn_ack, on_fin, on_ack, on_data,
  dispatch, unbind, close_socket, finish, handle_segment,
}
use goofy_micro_os.Net.Tcp.Binds.{
  IsOwned, Kept, Kept-refl, Kept-store, Kept-emit, cell-set, load-store,
}
use goofy_micro_os.Net.Tcp.Owned.{Kept-IsOwned, close_socket-IsOwned, unbind-found}
use goofy_micro_os.Net.Tcp.States.{store-same, acknowledged, send_on}

-- The flags that the machine looks at: 1 is FIN, 2 is SYN, 16 is ACK.
abbrev pub kind_of : Segment → ℕ
kind_of t = bit_and t.flags 19

-- The states that an end of the stream, or an acknowledgement alone, moves on.
abbrev pub takes_fin : TcpState → Bool
takes_fin established = true
takes_fin close_wait = true
takes_fin fin_wait1 = true
takes_fin fin_wait2 = true
takes_fin _ = false

abbrev pub takes_ack : TcpState → Bool
takes_ack syn_received = true
takes_ack fin_wait1 = true
takes_ack close_wait = true
takes_ack _ = false

abbrev pub awaits_answer : TcpState → Bool
awaits_answer syn_sent = true
awaits_answer _ = false

-- The segments that do not fit a connection.
pub data Unacceptable (t : Segment) (s : TcpSocket) : Type 0 where
  opens : kind_of t ≡ 2 → Unacceptable t s
  answers : kind_of t ≡ 18 → awaits_answer s.state ≡ false → Unacceptable t s
  opens_and_ends : kind_of t ≡ 3 → Unacceptable t s
  answers_and_ends : kind_of t ≡ 19 → Unacceptable t s
  ends : kind_of t ≡ 1 → takes_fin s.state ≡ false → Unacceptable t s
  ends_and_acks : kind_of t ≡ 17 → takes_fin s.state ≡ false → Unacceptable t s
  out_of_order :
      kind_of t ≡ 0 → (bswap32 t.sequence_number == s.ack_number) ≡ false → Unacceptable t s
  acks_out_of_order :
      kind_of t ≡ 16
      → takes_ack s.state ≡ false
      → (t.flags == 16) ≡ false
      → (bswap32 t.sequence_number == s.ack_number) ≡ false
      → Unacceptable t s

module _ (t : Segment) (p : ℕ) (s : TcpSocket) (st : Tcp) where
  on_syn_ack-late : awaits_answer s.state ≡ false → on_syn_ack t p s st ≡ some (continues true st)
  unfolding on_syn_ack
  on_syn_ack-late h = by_state s.state refl
    where
      by_state : (x : TcpState) → s.state ≡ x → on_syn_ack t p s st ≡ some (continues true st)
      by_state syn_sent e = absurd (cc (rw e at h))
      by_state x e = rw e refl

  on_fin-early : takes_fin s.state ≡ false → on_fin p s st ≡ some (continues true st)
  unfolding on_fin
  on_fin-early h = by_state s.state refl
    where
      by_state : (x : TcpState) → s.state ≡ x → on_fin p s st ≡ some (continues true st)
      by_state established e = absurd (cc (rw e at h))
      by_state close_wait e = absurd (cc (rw e at h))
      by_state fin_wait1 e = absurd (cc (rw e at h))
      by_state fin_wait2 e = absurd (cc (rw e at h))
      by_state x e = rw e refl

  on_data-differs :
      (bswap32 t.sequence_number == s.ack_number) ≡ false
      → on_data t p s st ≡ some (continues true st)
  unfolding on_data
  on_data-differs h = rw h refl

  on_ack-differs :
      takes_ack s.state ≡ false
      → (t.flags == 16) ≡ false
      → (bswap32 t.sequence_number == s.ack_number) ≡ false
      → on_ack t p s st ≡ some (continues true st)
  unfolding on_ack on_data
  on_ack-differs h more differs = by_state s.state refl
    where
      by_state : (x : TcpState) → s.state ≡ x → on_ack t p s st ≡ some (continues true st)
      by_state syn_received e = absurd (cc (rw e at h))
      by_state fin_wait1 e = absurd (cc (rw e at h))
      by_state close_wait e = absurd (cc (rw e at h))
      by_state x e = rw (e, more, on_data, differs) refl

  dispatch-resets :
      is_listen s.state ≡ false → Unacceptable t s → dispatch t p s st ≡ some (continues true st)
  unfolding dispatch on_syn
  dispatch-resets quiet (opens k) = rw (dispatch, k, quiet) refl
  dispatch-resets quiet (answers k h) = rw (dispatch, k) (on_syn_ack-late h)
  dispatch-resets quiet (opens_and_ends k) = rw (dispatch, k) refl
  dispatch-resets quiet (answers_and_ends k) = rw (dispatch, k) refl
  dispatch-resets quiet (ends k h) = rw (dispatch, k) (on_fin-early h)
  dispatch-resets quiet (ends_and_acks k h) = rw (dispatch, k) (on_fin-early h)
  dispatch-resets quiet (out_of_order k h) = rw (dispatch, k) (on_data-differs h)
  dispatch-resets quiet (acks_out_of_order k h more differs) =
      rw (dispatch, k) (on_ack-differs h more differs)

-- The state behind the reset, before the closing.
abbrev aborted : Tcp → ℕ → TcpSocket → Tcp
aborted st p s =
    store (emit (store st p (acknowledged s)) (sent s.remote_ip (tcp_segment s [] rst))) p
      (set_state (acknowledged s) closed)

finish-reset :
    (st : Tcp) (p : ℕ) (s : TcpSocket)
    → load st p ≡ some s
    → finish p (continues true st) ≡ some (close_socket p (aborted st p s))
unfolding finish
finish-reset st p s e =
    let after : Tcp =
      emit (store st p (acknowledged s)) (sent s.remote_ip (tcp_segment s [] rst)) in
    let reset_at : load after p ≡ some (acknowledged s) = store-same st p s (acknowledged s) e in
    rw
      (
        finish,
        send_on st p rst s e,
        reset_at,
        store-same after p (acknowledged s) (set_state (acknowledged s) closed) reset_at,
      )
      refl

aborted-Kept :
    (st : Tcp) (p : ℕ) (s : TcpSocket) → is_some (load st p) ≡ true → Kept st (aborted st p s)
aborted-Kept st p s l =
    Kept-store (Kept-emit (Kept-store (Kept-refl st) p l (acknowledged s)) _) p l _

-- What the closing of a socket leaves.
pub record Freed (st : Tcp) (p : ℕ) (st' : Tcp) : Type 0 where
  pub owned : IsOwned st'
  pub dead : load st' p ≡ none
  pub others : (q : ℕ) → q ≢ p → load st' q ≡ load st q

close_socket-Freed :
    (st : Tcp) (p : ℕ) (s : TcpSocket)
    → load st p ≡ some s
    → IsOwned st
    → Freed st p (close_socket p (aborted st p s))
      × ((close_socket p (aborted st p s)).events
          ≡ st.events ++ sent s.remote_ip (tcp_segment s [] rst) ∷ [])
unfolding close_socket
close_socket-Freed st p s e o =
    let l : is_some (load st p) ≡ true = ap is_some e in
    let k : Kept st (aborted st p s) = aborted-Kept st p s l in
    let o' : IsOwned (aborted st p s) = Kept-IsOwned o k in
    let first : Tcp =
      emit (store st p (acknowledged s)) (sent s.remote_ip (tcp_segment s [] rst)) in
    let there : is_some (load first p) ≡ true = ap is_some (store-same st p s (acknowledged s) e) in
    let here : is_some (load (aborted st p s) p) ≡ true = ap is_some (
      store-same first p (acknowledged s) (set_state (acknowledged s) closed)
        (store-same st p s (acknowledged s) e)) in
    let found : (unbind p st.binds).1 ≡ true = rw (unbind-found p st.binds, o.owned p, l) refl in
    (
      record {
        owned = close_socket-IsOwned p (aborted st p s) here o';
        dead = rw found (ground (arith, cell-set (aborted st p s).heap p p none here));
        others = λ q ne.
            let differs : (p == q) ≡ false = ground (arith, ne) in
            rw found (
              cell-set (aborted st p s).heap p q none here
              ∙ rw differs (
                  load-store first p q (set_state (acknowledged s) closed) there
                  ∙ rw differs (load-store st p q (acknowledged s) l ∙ rw differs refl)));
      },
      rw found refl,
    )

-- On owned sockets, a segment that does not fit the connection of a live socket, which is neither
-- closed nor listening: one RST is sent and nothing is handed over, the socket is freed, all others
-- are as they were, and the sockets are owned. What does not fit: a SYN, also with FIN; SYN and ACK
-- where no answer is awaited; FIN where the state has no step for it; a wrong number on a segment
-- that is neither of these nor a bare ACK, in a state that an ACK does not move.
pub handle_segment-resets :
    (t : Segment) (p : ℕ) (s : TcpSocket) (st : Tcp)
    → IsOwned st
    → load st p ≡ some s
    → is_closed s.state ≡ false
    → is_listen s.state ≡ false
    → Unacceptable t s
    → (st' : Tcp) × (handle_segment t p st ≡ some st')
      × Freed st p st'
      × (st'.events ≡ st.events ++ sent s.remote_ip (tcp_segment s [] rst) ∷ [])
unfolding handle_segment
handle_segment-resets t p s st o e running quiet u =
    let (freed, one) = close_socket-Freed st p s e o in
    (
      close_socket p (aborted st p s),
      rw (handle_segment, e, running, dispatch-resets t p s st quiet u, finish-reset st p s e) refl,
      freed,
      one,
    )
