-- ===== src/Net/Tcp/Owned.antt =====
-- `tcp_ipv4_recv` of mckrnl/net/tcp.c and the binds that own the sockets: the routing loop, the reset
-- and the closing.
use goofy_micro_os.Prelude.{
  bit_and, ℕ, ◌+◌, ◌*◌, ◌≤◌, ◌≡◌, refl, sym, ◌∙◌, ap, inl, inr, Bool, true, false, ◌&&◌, none, some,
  List, [], ◌∷◌, arith, ltb, ◌==◌, if◌then◌else◌, length, get_elem?, set, is_some, Option-cases,
  Bool-cases,
}
use goofy_micro_os.Prelude.Options.{◌>>=◌}
use goofy_micro_os.Prelude.Ensures.{
  Ensures, Returns, Ensures-Returns, just, Ensures-bind, Ensures-if,
}
use goofy_micro_os.Net.Tcp.{
  closed, TcpSocket, TcpBind, Tcp, cell, load, store, tcp_socket_send_internal, sizeof_tcp_header,
}
use goofy_micro_os.Net.Tcp.Recv.{
  is_listen, Segment, read_segment, Route, to_listener, to_peer, no_route, dangling, route, Outcome,
  returns, continues, unbind, close_socket, finish, is_closed, listens, talks_to, handle_segment,
  tcp_ipv4_recv,
}
use goofy_micro_os.Net.Tcp.Binds.{
  owners, live, IsOwned, Kept, Kept-refl, Kept-store, Kept-load, send-Kept, cell-set, load-store,
}
use goofy_micro_os.Net.Tcp.Steps.{Aborts, to_do, no_recv, too_long, state_of, dispatch-Kept}

-- The closing loop takes one owner from the socket, where it has one.
pub owners-unbind :
    (p q : ℕ) (binds : List TcpBind)
    → owners q (unbind p binds).0 + (if (unbind p binds).1 && p == q then 1 else 0) ≡ owners q binds
unfolding owners unbind
owners-unbind p q [] = refl
owners-unbind p q (b ∷ binds) = elim (Option-cases b.socket) [
  | inl e ↦ rw e (ground (arith, owners-unbind p q binds))
  | inr (r, e) ↦ elim (Bool-cases (r == p)) [
    | inl same ↦ ground (arith, owners-unbind p q binds, e, same)
    | inr ne ↦ ground (arith, owners-unbind p q binds, e, ne)
  ]
]

-- It finds a bind exactly when the socket has an owner.
pub unbind-found : (p : ℕ) (binds : List TcpBind) → (unbind p binds).1 ≡ ltb 0 (owners p binds)
unfolding owners unbind
unbind-found p [] = refl
unbind-found p (b ∷ binds) = elim (Option-cases b.socket) [
  | inl e ↦ rw e (ground (arith, unbind-found p binds))
  | inr (r, e) ↦ elim (Bool-cases (r == p)) [
    | inl same ↦ ground (arith, unbind-found p binds, e, same)
    | inr ne ↦ ground (arith, unbind-found p binds, e, ne)
  ]
]

module _ {st st' : Tcp} (o : IsOwned st) where
  pub Kept-IsOwned : Kept st st' → IsOwned st'
  Kept-IsOwned k = record { owned = λ q. ap (owners q) k.binds ∙ (o.owned q ∙ sym (k.lives q)) }

pub close_socket-IsOwned :
    (p : ℕ) (st : Tcp) → is_some (load st p) ≡ true → IsOwned st → IsOwned (close_socket p st)
unfolding close_socket
close_socket-IsOwned p st l o = rw found record { owned = balanced }
  where
    found : (unbind p st.binds).1 ≡ true
    found = rw (unbind-found p st.binds, o.owned p, l) refl

    balanced :
        (q : ℕ)
        → owners q (unbind p st.binds).0
          ≡ (if is_some (cell (get_elem? (set st.heap p none) q)) then 1 else 0)
    balanced q = ground (
      arith,
      cell-set st.heap p q none l,
      owners-unbind p q st.binds,
      found,
      o.owned q,
      o.owned p,
      l,
    )

module _ {st0 : Tcp} (o : IsOwned st0) (p : ℕ) (l : is_some (load st0 p) ≡ true) where
  -- Behind the reset: the closing.
  closing-IsOwned :
      {F : Type 0} {st : Tcp}
      → Kept st0 st
      → Ensures F IsOwned
          (load st p >>= λ s. some (if is_closed s.state then close_socket p st else st))
  closing-IsOwned {st = st} k = Kept-load k p l λ s e.
      let o' : IsOwned st = Kept-IsOwned o k in
      just (by_state (is_closed s.state) (close_socket-IsOwned p st (ap is_some e) o') o')
    where
      by_state : (b : Bool) {x y : Tcp} → IsOwned x → IsOwned y → IsOwned (if b then x else y)
      by_state true a c = a
      by_state false a c = c

  finish-IsOwned :
      {F : Type 0} (outcome : Outcome)
      → Kept st0 (state_of outcome)
      → Ensures F IsOwned (finish p outcome)
  unfolding finish
  finish-IsOwned (returns st) k = just (Kept-IsOwned o k)
  finish-IsOwned {F} (continues reset st) k =
      Ensures-bind (Ensures-if reset (λ _. the_reset) λ _. just k) λ st1. closing-IsOwned
    where
      the_reset : Ensures F (Kept st0) (
          tcp_socket_send_internal p [] 4 st >>= λ st'.
          load st' p >>= λ s'. some (store st' p (record s' { state = closed })))
      the_reset =
          Ensures-bind (send-Kept k p l [] 4)
            λ st' k'. Kept-load k' p l λ s' e. just (Kept-store k' p l _)

handle_segment-IsOwned :
    (t : Segment) (p : ℕ) (st : Tcp) (s : TcpSocket)
    → load st p ≡ some s
    → IsOwned st
    → Ensures (Aborts t s) IsOwned (handle_segment t p st)
unfolding handle_segment
handle_segment-IsOwned t p st s e o =
    let l = ap is_some e in
    rw e (
      Ensures-bind
        (Ensures-if (is_closed s.state) (λ _. just (Kept-refl st)) λ _. dispatch-Kept t p s l)
        λ outcome k. finish-IsOwned o p l outcome k)

-- Where the routing loop ends, the socket it names is live.
data Routed (st : Tcp) : Route → Type 0 where
  no_socket : Routed st no_route
  a_listener : {p : ℕ} {s : TcpSocket} → load st p ≡ some s → Routed st (to_listener p s)
  a_peer : {p : ℕ} {s : TcpSocket} → load st p ≡ some s → Routed st (to_peer p)

Routed-if :
    {st : Tcp} (b : Bool) {x y : Route} → Routed st x → Routed st y → Routed st (if b then x else y)
Routed-if true a c = a
Routed-if false a c = c

route-Routed :
    (t : Segment) (src_ip dst_ip : ℕ) (st : Tcp) (binds : List TcpBind)
    → ((p : ℕ) → owners p binds ≤ live st p)
    → Routed st (route t src_ip dst_ip st binds)
unfolding route owners
route-Routed t src_ip dst_ip st [] lives = no_socket
route-Routed t src_ip dst_ip st (b ∷ binds) lives =
    let rest : Routed st (route t src_ip dst_ip st binds) =
      route-Routed t src_ip dst_ip st binds λ p. omega (arith, lives p) in
    elim (Option-cases b.socket) [
      | inl e ↦ rw e rest
      | inr (p, e) ↦ elim (Option-cases (load st p)) [
        | inl dead ↦
            let one : 1 ≤ 0 = ground (arith, lives p, e, dead) in absurd (omega (arith, one))
        | inr (s, e') ↦
            rw (e, e')
              (Routed-if (listens t dst_ip s) (a_listener e')
                (Routed-if (talks_to t src_ip s) (a_peer e') rest))
      ]
    ]

-- A segment that cannot abort.
Aborts-never :
    {t : Segment} {s : TcpSocket}
    → is_listen s.state ≡ false
    → (s.recv ≡ false → (bit_and t.flags 19 == 18) ≡ true)
    → t.header_size_32 * 4 ≤ length t.bytes
    → ¬ Aborts t s
Aborts-never quiet answers fits (to_do e) = cc (quiet, e)
Aborts-never quiet answers fits (no_recv e other) = cc (answers e, other)
Aborts-never quiet answers fits (too_long e) = ground (arith, e, fits)

-- `tcp_ipv4_recv` returns and keeps every live socket owned by exactly one bind, where each was,
-- where no socket is in the state `listen`, where the segment's header is no longer than it, and
-- where each socket has its `recv` callback or the segment is one of SYN and ACK without FIN.
pub tcp_ipv4_recv-IsOwned :
    (st : Tcp) (src_ip dst_ip : ℕ) (payload : List ℕ)
    → IsOwned st
    → ((p : ℕ) (s : TcpSocket)
        → load st p ≡ some s
        → (is_listen s.state ≡ false)
          × (s.recv ≡ false → (bit_and (read_segment payload).flags 19 == 18) ≡ true))
    → (read_segment payload).header_size_32 * 4 ≤ length payload
    → Returns IsOwned (tcp_ipv4_recv src_ip dst_ip payload st)
unfolding tcp_ipv4_recv read_segment
tcp_ipv4_recv-IsOwned st src_ip dst_ip payload o quiet fits =
    Ensures-if (ltb (length payload) sizeof_tcp_header) (λ _. just o)
      λ _. routed _ (
        route-Routed (read_segment payload) src_ip dst_ip st st.binds λ p. omega (arith, o.owned p))
  where
    handled :
        (st' : Tcp) (p : ℕ) (s : TcpSocket)
        → load st' p ≡ some s
        → (is_listen s.state ≡ false)
          × (s.recv ≡ false → (bit_and (read_segment payload).flags 19 == 18) ≡ true)
        → IsOwned st'
        → Returns IsOwned (handle_segment (read_segment payload) p st')
    handled st' p s e q o' =
        Ensures-Returns (Aborts-never q.0 q.1 fits)
          (handle_segment-IsOwned (read_segment payload) p st' s e o')

    heard :
        (p : ℕ) (s s' : TcpSocket)
        → load st p ≡ some s
        → s'.state ≡ s.state
        → s'.recv ≡ s.recv
        → Returns IsOwned (handle_segment (read_segment payload) p (store st p s'))
    heard p s s' e same same_recv =
        let l = ap is_some e in
        handled (store st p s') p s' (ground (arith, load-store st p p s' l))
          (rw (same, same_recv) (quiet p s e)) (Kept-IsOwned o (Kept-store (Kept-refl st) p l s'))

    routed :
        (r : Route)
        → Routed st r
        → Returns IsOwned (elim r [
          | to_listener p s ↦ handle_segment (read_segment payload) p (
              store st p (record s {
                listening = false;
                remote_port = (read_segment payload).src_port;
                remote_ip = src_ip;
              }))
          | to_peer p ↦ handle_segment (read_segment payload) p st
          | no_route ↦ some st
          | dangling ↦ none
        ])
    routed _ no_socket = just o
    routed _ (a_listener {p} {s} e) = heard p s _ e refl refl
    routed _ (a_peer {p} {s} e) = handled st p s e (quiet p s e) o
