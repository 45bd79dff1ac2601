-- ===== src/Net/Tcp/Connect.antt =====
-- `tcp_connect` up to its wait and `tcp_socket_disconnect` of mckrnl/net/tcp.c keep the sockets owned;
-- and what becomes of a socket that is closed.
use goofy_micro_os.Prelude.{
  ℕ, zero, suc, ◌+◌, ◌≡◌, refl, ap, inl, inr, true, Option, none, some, List, [], ◌∷◌, ◌++◌, arith,
  ◌==◌, if◌then◌else◌, length, get_elem?, set, is_some, Option-cases, Bool-cases,
}
use goofy_micro_os.Prelude.Ensures.{Returns, just, Ensures-bind, Ensures-map}
use goofy_micro_os.Net.Tcp.{
  TcpSocket, TcpBind, Tcp, cell, load, tcp_socket_send_internal, tcp_socket_disconnect,
  tcp_socket_send, add_bind, send_syn, tcp_init, bind_socket, new_socket,
}
use goofy_micro_os.Net.Tcp.Recv.{close_socket, unbind}
use goofy_micro_os.Net.Tcp.Binds.{
  Kept-is_some, owners, points_at, live, IsOwned, Kept-refl, send-Kept, cell-set, disconnect-Kept,
}
use goofy_micro_os.Net.Tcp.Owned.{Kept-IsOwned, unbind-found}

-- The place that `add_bind` takes had no owner, so every other bind stays.
owners-add_bind :
    (q : ℕ) (bind : TcpBind) (binds : List TcpBind)
    → owners q (add_bind bind binds) ≡ points_at q bind.socket + owners q binds
unfolding owners add_bind
owners-add_bind q bind [] = refl
owners-add_bind q bind (b ∷ binds) = elim (Option-cases b.socket) [
  | inl e ↦ rw e (ground arith)
  | inr (r, e) ↦ rw e (ground (arith, owners-add_bind q bind binds))
]

cell-append :
    (h : List (Option TcpSocket)) (s : TcpSocket) (q : ℕ)
    → cell (get_elem? (h ++ some s ∷ []) q)
      ≡ (if length h == q then some s else cell (get_elem? h q))
cell-append [] s zero = refl
cell-append [] s (suc q) = ground arith
cell-append (x ∷ h) s zero = ground arith
cell-append (x ∷ h) s (suc q) = ground (arith, cell-append h s q)

cell-length : (h : List (Option TcpSocket)) → cell (get_elem? h (length h)) ≡ none
cell-length [] = refl
cell-length (x ∷ h) = ground (arith, cell-length h)

live-bind_socket :
    (s : TcpSocket) (st : Tcp) (q : ℕ)
    → live (bind_socket s st) q ≡ (if length st.heap == q then 1 else live st q)
unfolding bind_socket
live-bind_socket s st q = ground (arith, cell-append st.heap s q)

bind_socket-IsOwned : (s : TcpSocket) (st : Tcp) → IsOwned st → IsOwned (bind_socket s st)
unfolding bind_socket
bind_socket-IsOwned s st o = record { owned = balanced }
  where
    balanced : (q : ℕ) → owners q (bind_socket s st).binds ≡ live (bind_socket s st) q
    balanced q = elim (Bool-cases (length st.heap == q)) [
      | inl e ↦
          let same : length st.heap ≡ q = ground (arith, e) in
          rw
            (
              owners-add_bind q (record { port = s.local_port; socket = some (length st.heap) })
                  st.binds,
              live-bind_socket s st q,
              o.owned q,
              e,
            )
            (ground (arith, e, cell-length st.heap, ap (live st) same))
      | inr ne ↦
          rw
            (
              owners-add_bind q (record { port = s.local_port; socket = some (length st.heap) })
                  st.binds,
              live-bind_socket s st q,
              o.owned q,
              ne,
            )
            (ground arith)
    ]

-- What `tcp_connect` has when it has sent its SYN: the new socket is live, and the sockets are owned.
pub record Connected (result : ℕ × Tcp) : Type 0 where
  pub lives : is_some (load result.1 result.0) ≡ true
  pub owned : IsOwned result.1

-- On owned sockets, `tcp_connect` has a live socket at its SYN, and the sockets are owned.
pub send_syn-Connected :
    (ip port now : ℕ) (st : Tcp) → IsOwned st → Returns Connected (send_syn ip port now st)
unfolding send_syn
send_syn-Connected ip port now st o =
    Ensures-bind (send-Kept (Kept-refl st1) (length st.heap) l [] 2) λ st' k.
      just
        (record { lives = Kept-is_some k _ l; owned = Kept-IsOwned (bind_socket-IsOwned s st o) k })
  where
    s : TcpSocket
    s = new_socket ip port now st

    st1 : Tcp
    st1 = bind_socket s st

    l : is_some (load st1 (length st.heap)) ≡ true
    l = ground (arith, live-bind_socket s st (length st.heap))

-- On owned sockets, `tcp_socket_disconnect` of a live socket returns and leaves the sockets owned.
pub tcp_socket_disconnect-IsOwned :
    (p : ℕ) (st : Tcp)
    → IsOwned st
    → is_some (load st p) ≡ true
    → Returns IsOwned (tcp_socket_disconnect p st)
tcp_socket_disconnect-IsOwned p st o l =
    Ensures-map (disconnect-Kept p st l) λ st' k. Kept-IsOwned o k

-- A live owned socket that is closed has been freed: to send on it, or to disconnect it, is an
-- access through a dangling pointer.
pub close_socket-dangling :
    (p : ℕ) (st : Tcp) (payload : List ℕ)
    → IsOwned st
    → is_some (load st p) ≡ true
    → (tcp_socket_send p payload (close_socket p st) ≡ none)
      × (tcp_socket_disconnect p (close_socket p st) ≡ none)
unfolding close_socket tcp_socket_send tcp_socket_send_internal tcp_socket_disconnect
close_socket-dangling p st payload o l = rw (found, gone) (refl, refl)
  where
    found : (unbind p st.binds).1 ≡ true
    found = rw (unbind-found p st.binds, o.owned p, l) refl

    gone : cell (get_elem? (set st.heap p none) p) ≡ none
    gone = ground (arith, cell-set st.heap p p none l)

-- `tcp_init` leaves the sockets owned: there are none.
pub tcp_init-IsOwned : (driver_ip : ℕ) → IsOwned (tcp_init driver_ip)
unfolding owners
tcp_init-IsOwned driver_ip = record { owned = λ p. refl }
