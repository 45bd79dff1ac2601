-- ===== src/Net/Tcp/Binds.antt =====
-- The binds of mckrnl/net/tcp.c as owners of the sockets, and what the loads, stores and sends leave of
-- binds and live cells.
use goofy_micro_os.Prelude.{
  ℕ, zero, suc, ◌+◌, ◌≡◌, refl, ◌∙◌, inl, inr, true, Option, none, some, List, [], ◌∷◌, arith, ◌==◌,
  if◌then◌else◌, get_elem?, set, is_some, Option-cases, Bool-cases,
}
use goofy_micro_os.Prelude.Options.{◌>>=◌}
use goofy_micro_os.Prelude.Ensures.{Ensures, just, Ensures-bind}
use goofy_micro_os.Net.Tcp.{
  TcpSocket, TcpBind, Event, Tcp, cell, load, store, emit, tcp_socket_send_internal,
  tcp_socket_disconnect,
}

abbrev pub points_at : ℕ → Option ℕ → ℕ
points_at p none = 0
points_at p (some q) = if q == p then 1 else 0

-- How many binds point at the cell `p`.
unfoldable pub owners : ℕ → List TcpBind → ℕ
owners p [] = 0
owners p (b ∷ binds) = points_at p b.socket + owners p binds

-- 1 for a live cell.
abbrev pub live : Tcp → ℕ → ℕ
live st p = if is_some (load st p) then 1 else 0

-- Exactly the live cells have a bind, and only one.
pub record IsOwned (st : Tcp) : Type 0 where
  pub owned : (p : ℕ) → owners p st.binds ≡ live st p

-- Neither the binds nor which cells are live differ.
pub record Kept (st st' : Tcp) : Type 0 where
  pub binds : st'.binds ≡ st.binds
  pub lives : (q : ℕ) → live st' q ≡ live st q

pub Kept-refl : (st : Tcp) → Kept st st
Kept-refl st = record { binds = refl; lives = λ q. refl }

pub cell-set :
    (h : List (Option TcpSocket)) (p q : ℕ) (c : Option TcpSocket)
    → is_some (cell (get_elem? h p)) ≡ true
    → cell (get_elem? (set h p c) q) ≡ (if p == q then c else cell (get_elem? h q))
cell-set [] p q c l = absurd (cc l)
cell-set (x ∷ h) zero zero c l = refl
cell-set (x ∷ h) zero (suc q) c l = ground arith
cell-set (x ∷ h) (suc p) zero c l = ground arith
cell-set (x ∷ h) (suc p) (suc q) c l = ground (arith, cell-set h p q c l)

pub load-store :
    (st : Tcp) (p q : ℕ) (s : TcpSocket)
    → is_some (load st p) ≡ true
    → load (store st p s) q ≡ (if p == q then some s else load st q)
load-store st p q s l = cell-set st.heap p q (some s) l

live-store :
    (st : Tcp) (p q : ℕ) (s : TcpSocket)
    → is_some (load st p) ≡ true
    → live (store st p s) q ≡ live st q
live-store st p q s l = elim (Bool-cases (p == q)) [
  | inl e ↦
      let same : p ≡ q = ground arith in
      let l' : is_some (load st q) ≡ true = rw (← same) l in
      ground (arith, load-store st p q s l, e, l')
  | inr ne ↦ ground (arith, load-store st p q s l, ne)
]

-- A socket that was live is live.
pub Kept-is_some :
    {st st' : Tcp}
    → Kept st st'
    → (p : ℕ) → is_some (load st p) ≡ true
    → is_some (load st' p) ≡ true
Kept-is_some k p l = ground (arith, k.lives p, l)

module _ {st0 st : Tcp} (k : Kept st0 st) where
  pub Kept-emit : (e : Event) → Kept st0 (emit st e)
  Kept-emit e = record { binds = k.binds; lives = k.lives }

  module _ (p : ℕ) (l : is_some (load st0 p) ≡ true) where
    pub Kept-load :
        {F : Type 0} {B : Type 0} {Q : B → Type 0} {f : TcpSocket → Option B}
        → ((s : TcpSocket) → load st p ≡ some s → Ensures F Q (f s))
        → Ensures F Q (load st p >>= f)
    Kept-load next = elim (Option-cases (load st p)) [
      | inl e ↦ absurd (ground (arith, Kept-is_some k p l, e))
      | inr (s, e) ↦ rw e (next s e)
    ]

    pub Kept-store : (s' : TcpSocket) → Kept st0 (store st p s')
    Kept-store s' = record {
      binds = k.binds;
      lives = λ q. live-store st p q s' (Kept-is_some k p l) ∙ k.lives q;
    }

module _ {st0 st : Tcp} (k : Kept st0 st) (p : ℕ) (l : is_some (load st0 p) ≡ true) where
  pub send-Kept :
      {F : Type 0} (payload : List ℕ) (flags : ℕ)
      → Ensures F (Kept st0) (tcp_socket_send_internal p payload flags st)
  unfolding tcp_socket_send_internal
  send-Kept payload flags = Kept-load k p l λ s e. just (Kept-emit (Kept-store k p l _) _)

-- What `tcp_socket_disconnect` changes of a live socket is the socket alone.
pub disconnect-Kept :
    {F : Type 0} (p : ℕ) (st : Tcp)
    → is_some (load st p) ≡ true
    → Ensures F (Kept st) (tcp_socket_disconnect p st)
unfolding tcp_socket_disconnect
disconnect-Kept p st l = Kept-load (Kept-refl st) p l λ s e.
    Ensures-bind (send-Kept (Kept-store (Kept-refl st) p l _) p l [] 17)
      λ st1 k1. Kept-load k1 p l λ s1 e1. just (Kept-store k1 p l _)
