-- ===== src/Net/Tcp/Steps.antt =====
-- The state machine of `tcp_ipv4_recv` in mckrnl/net/tcp.c leaves the binds alone, and no cell of
-- the heap is made or freed before the closing.
use goofy_micro_os.Prelude.{
  ◌&&◌, Bool-cases, inl, inr, ℕ, true, false, ◌*◌, leb, length, is_some, ◌≡◌, refl, ◌==◌, ◌||◌,
  Option, some, [], bit_and,
}
use goofy_micro_os.Prelude.Options.{◌>>=◌}
use goofy_micro_os.Prelude.Ensures.{Ensures, nothing, just, Ensures-bind, Ensures-if}
use goofy_micro_os.Net.Wire.{bswap32}
use goofy_micro_os.Net.Tcp.{
  TcpState, syn_sent, syn_received, established, fin_wait1, fin_wait2, close_wait, TcpSocket, Tcp,
  load, store, tcp_socket_send_internal,
}
use goofy_micro_os.Net.Tcp.Recv.{
  Segment, Outcome, returns, is_listen, continues, on_syn, on_syn_ack, on_fin, on_data, on_ack,
  dispatch,
}
use goofy_micro_os.Net.Tcp.Binds.{Kept-refl, Kept, Kept-store, Kept-emit, send-Kept}

abbrev pub state_of : Outcome → Tcp
state_of (returns st) = st
state_of (continues reset st) = st

-- Where the code aborts: at `todo()`, or at a header longer than its segment.
pub data Aborts (t : Segment) (s : TcpSocket) : Type 0 where
  to_do : is_listen s.state ≡ true → Aborts t s
  -- A socket without a callback, and a segment other than the answer to a SYN.
  no_recv : s.recv ≡ false → (bit_and t.flags 19 == 18) ≡ false → Aborts t s
  too_long : leb (t.header_size_32 * 4) (length t.bytes) ≡ false → Aborts t s

-- The state in which a step of the machine leaves the sockets.
abbrev pub OutcomeKept : Type 0 → Tcp → Option Outcome → Type 0
OutcomeKept F st0 o = Ensures F (λ o'. Kept st0 (state_of o')) o

module _ {st : Tcp} (p : ℕ) (l : is_some (load st p) ≡ true) where
  send_then_go :
      {F : Type 0} {st' : Tcp}
      → Kept st st'
      → (s' : TcpSocket) (flags : ℕ)
      → OutcomeKept F st (do
        st'' ← tcp_socket_send_internal p [] flags (store st' p s')
        some (continues false st''))
  send_then_go k s' flags =
      Ensures-bind (send-Kept (Kept-store k p l s') p l [] flags) λ st' k'. just k'

module _ (t : Segment) {st : Tcp} (p : ℕ) (s : TcpSocket) (l : is_some (load st p) ≡ true) where
  on_syn-Kept : OutcomeKept (Aborts t s) st (on_syn s st)
  unfolding on_syn
  on_syn-Kept = Ensures-if (is_listen s.state) (λ e. nothing (to_do e)) λ _. just (Kept-refl st)

  on_syn_ack-Kept : {F : Type 0} → OutcomeKept F st (on_syn_ack t p s st)
  unfolding on_syn_ack
  on_syn_ack-Kept {F} = by_state s.state refl
    where
      by_state : (x : TcpState) → s.state ≡ x → OutcomeKept F st (on_syn_ack t p s st)
      by_state syn_sent e = rw e (send_then_go p l (Kept-refl st) _ 16)
      by_state x e = rw e (just (Kept-refl st))

  on_data-Kept :
      {F : Type 0}
      → (leb (t.header_size_32 * 4) (length t.bytes) ≡ false → F)
      → (s.recv ≡ false → F)
      → OutcomeKept F st (on_data t p s st)
  unfolding on_data
  on_data-Kept ill mute =
      Ensures-if (bswap32 t.sequence_number == s.ack_number)
        (λ _.
          Ensures-if (s.recv && leb (t.header_size_32 * 4) (length t.bytes))
            (λ _. send_then_go p l (Kept-emit (Kept-refl st) _) _ 16)
            λ e.
              nothing (elim (Bool-cases s.recv) [ inl r ↦ ill (cc (rw r at e)) | inr r ↦ mute r ]))
        λ _. just (Kept-refl st)

module _ (t : Segment) {st : Tcp} (p : ℕ) (s : TcpSocket) (l : is_some (load st p) ≡ true) where
  on_ack-Kept :
      {F : Type 0}
      → (leb (t.header_size_32 * 4) (length t.bytes) ≡ false → F)
      → (s.recv ≡ false → F)
      → OutcomeKept F st (on_ack t p s st)
  unfolding on_ack
  on_ack-Kept {F} ill mute = by_state s.state refl
    where
      stored : (s' : TcpSocket) → Kept st (store st p s')
      stored s' = Kept-store (Kept-refl st) p l s'

      by_state : (x : TcpState) → s.state ≡ x → OutcomeKept F st (on_ack t p s st)
      by_state syn_received e = rw e (just (stored _))
      by_state fin_wait1 e = rw e (just (stored _))
      by_state close_wait e = rw e (just (stored _))
      by_state x e =
          rw e (
            Ensures-if (t.flags == 16) (λ _. just (Kept-refl st))
              λ _. on_data-Kept t p _ l ill mute)

  on_fin-Kept : {F : Type 0} → OutcomeKept F st (on_fin p s st)
  unfolding on_fin
  on_fin-Kept {F} = by_state s.state refl
    where
      k : Kept st st
      k = Kept-refl st

      by_state : (x : TcpState) → s.state ≡ x → OutcomeKept F st (on_fin p s st)
      by_state established e = rw e (
          Ensures-bind (send-Kept (Kept-store k p l _) p l [] 16)
            λ st1 k1. Ensures-bind (send-Kept k1 p l [] 17) λ st2 k2. just k2)
      by_state close_wait e = rw e (just (Kept-store k p l _))
      by_state fin_wait1 e = rw e (send_then_go p l k _ 16)
      by_state fin_wait2 e = rw e (send_then_go p l k _ 16)
      by_state x e = rw e (just k)

  pub dispatch-Kept : OutcomeKept (Aborts t s) st (dispatch t p s st)
  unfolding dispatch
  dispatch-Kept =
      let kind = bit_and t.flags 19 in
      Ensures-if (kind == 2) (λ _. on_syn-Kept t p s l)
        λ _.
          Ensures-if (kind == 18) (λ _. on_syn_ack-Kept t p s l)
            λ other.
              Ensures-if (kind == 3 || kind == 19) (λ _. just (Kept-refl st))
                λ _.
                  Ensures-if (kind == 1 || kind == 17) (λ _. on_fin-Kept)
                    λ _.
                      Ensures-if (kind == 16) (λ _. on_ack-Kept too_long (λ e. no_recv e other))
                        λ _. on_data-Kept t p s l too_long (λ e. no_recv e other)
