-- ===== src/Net/Sockets/Table.antt =====
-- The table of sockets of mckrnl/net/socket_manager.c as a map from the numbers of sockets to their
-- addresses.
use goofy_micro_os.Prelude.{
  ◌%◌, ◌^◌, subst, ℕ, ◌+◌, ◌≤◌, ◌<◌, ◌≡◌, ◌≢◌, refl, ◌∙◌, false, Bool-cases, inl, inr, Option, none,
  some, List, [], ◌∷◌, ◌==◌, if◌then◌else◌, arith,
}
use goofy_micro_os.Net.Sockets.{
  SocketManager, socket_manager_alloc, place, socket_manager_register, vacate, socket_manager_free,
  seek, socket_manager_find,
}

-- No socket has the number.
abbrev pub Unused : (ℕ → ℕ) → ℕ → List (Option ℕ) → Type 0
Unused ids socket_id [] = Unit
Unused ids socket_id (none ∷ cells) = Unused ids socket_id cells
Unused ids socket_id (some p ∷ cells) = (ids p ≢ socket_id) × Unused ids socket_id cells

-- No two sockets have the same number, and none is above `top`.
abbrev pub Numbered : (ℕ → ℕ) → ℕ → List (Option ℕ) → Type 0
Numbered ids top [] = Unit
Numbered ids top (none ∷ cells) = Numbered ids top cells
Numbered ids top (some p ∷ cells) =
    (ids p ≤ top) × Unused ids (ids p) cells × Numbered ids top cells

abbrev pub IsTable : (ℕ → ℕ) → SocketManager → Type 0
IsTable ids m = Numbered ids m.curr_socket m.sockets

module _ (ids : ℕ → ℕ) where
  Numbered-Unused :
      (top socket_id : ℕ) (cells : List (Option ℕ))
      → Numbered ids top cells
      → top < socket_id
      → Unused ids socket_id cells
  Numbered-Unused top socket_id [] n h = tt
  Numbered-Unused top socket_id (none ∷ cells) n h = Numbered-Unused top socket_id cells n h
  Numbered-Unused top socket_id (some p ∷ cells) n h =
      (omega (arith, n.0, h), Numbered-Unused top socket_id cells n.2 h)

  seek-Unused :
      (socket_id : ℕ) (cells : List (Option ℕ))
      → Unused ids socket_id cells
      → seek ids socket_id cells ≡ none
  unfolding seek
  seek-Unused socket_id [] u = refl
  seek-Unused socket_id (none ∷ cells) u = seek-Unused socket_id cells u
  seek-Unused socket_id (some p ∷ cells) u =
      let other : (ids p == socket_id) ≡ false = ground (arith, u.0) in
      rw other (seek-Unused socket_id cells u.1)

  seek-place :
      (p socket_id : ℕ) (cells : List (Option ℕ))
      → Unused ids (ids p) cells
      → seek ids socket_id (place p cells)
        ≡ (if ids p == socket_id then some p else seek ids socket_id cells)
  unfolding seek place
  seek-place p socket_id [] u = refl
  seek-place p socket_id (none ∷ cells) u = refl
  seek-place p socket_id (some q ∷ cells) u = elim (Bool-cases (ids q == socket_id)) [
    | inl e ↦
        let other : (ids p == socket_id) ≡ false = ground (arith, u.0, e) in rw (e, other) refl
    | inr ne ↦ rw ne (seek-place p socket_id cells u.1)
  ]

  Unused-place :
      (socket_id p : ℕ) (cells : List (Option ℕ))
      → Unused ids socket_id cells
      → ids p ≢ socket_id
      → Unused ids socket_id (place p cells)
  unfolding place
  Unused-place socket_id p [] u ne = (ne, tt)
  Unused-place socket_id p (none ∷ cells) u ne = (ne, u)
  Unused-place socket_id p (some q ∷ cells) u ne = (u.0, Unused-place socket_id p cells u.1 ne)

  Numbered-place :
      (top p : ℕ) (cells : List (Option ℕ))
      → Numbered ids top cells
      → Unused ids (ids p) cells
      → ids p ≤ top
      → Numbered ids top (place p cells)
  unfolding place
  Numbered-place top p [] n u h = (h, tt, tt)
  Numbered-place top p (none ∷ cells) n u h = (h, u, n)
  Numbered-place top p (some q ∷ cells) n u h = (
    n.0,
    Unused-place (ids q) p cells n.1 (λ e. u.0 (cc e)),
    Numbered-place top p cells n.2 u.1 h,
  )

  Numbered-above :
      (top top' : ℕ) (cells : List (Option ℕ))
      → top ≤ top'
      → Numbered ids top cells
      → Numbered ids top' cells
  Numbered-above top top' [] h n = tt
  Numbered-above top top' (none ∷ cells) h n = Numbered-above top top' cells h n
  Numbered-above top top' (some p ∷ cells) h n =
      (omega (arith, n.0, h), n.1, Numbered-above top top' cells h n.2)

  -- What `vacate` leaves of a table.
  Unused-vacate :
      (socket_id other : ℕ) (cells : List (Option ℕ))
      → Unused ids other cells
      → Unused ids other (vacate ids socket_id cells)
  unfolding vacate
  Unused-vacate socket_id other [] u = tt
  Unused-vacate socket_id other (none ∷ cells) u = Unused-vacate socket_id other cells u
  Unused-vacate socket_id other (some p ∷ cells) u = elim (Bool-cases (ids p == socket_id)) [
    | inl e ↦ rw e u.1
    | inr ne ↦ rw ne (u.0, Unused-vacate socket_id other cells u.1)
  ]

  Numbered-vacate :
      (socket_id top : ℕ) (cells : List (Option ℕ))
      → Numbered ids top cells
      → Numbered ids top (vacate ids socket_id cells)
  unfolding vacate
  Numbered-vacate socket_id top [] n = tt
  Numbered-vacate socket_id top (none ∷ cells) n = Numbered-vacate socket_id top cells n
  Numbered-vacate socket_id top (some p ∷ cells) n = elim (Bool-cases (ids p == socket_id)) [
    | inl e ↦ rw e n.2
    | inr ne ↦
        rw ne
          (n.0, Unused-vacate socket_id (ids p) cells n.1, Numbered-vacate socket_id top cells n.2)
  ]

  seek-vacate :
      (socket_id other top : ℕ) (cells : List (Option ℕ))
      → Numbered ids top cells
      → seek ids other (vacate ids socket_id cells)
        ≡ (if socket_id == other then none else seek ids other cells)
  unfolding seek vacate
  seek-vacate socket_id other top [] n = ground arith
  seek-vacate socket_id other top (none ∷ cells) n = seek-vacate socket_id other top cells n
  seek-vacate socket_id other top (some p ∷ cells) n = elim (Bool-cases (ids p == socket_id)) [
    | inl e ↦ elim (Bool-cases (socket_id == other)) [
      | inl f ↦
          let same : ids p ≡ other = ground (arith, e, f) in
          rw (e, f) (seek-Unused other cells (subst (λ i. Unused ids i cells) same n.1))
      | inr f ↦
          let differs : (ids p == other) ≡ false = ground (arith, e, f) in rw (e, f, differs) refl
    ]
    | inr e ↦ elim (Bool-cases (socket_id == other)) [
      | inl f ↦
          let differs : (ids p == other) ≡ false = ground (arith, e, f) in
          rw (e, f, differs) (seek-vacate socket_id other top cells n.2 ∙ rw f refl)
      | inr f ↦ rw (e, f, seek-vacate socket_id other top cells n.2, f) refl
    ]
  ]

  -- In a table whose numbers are distinct and at most the counter, which is below 2^31 - 1, a
  -- socket that gets its number from `socket_manager_alloc` and is registered is found under that
  -- number, all other numbers are found as before, and the table is such a table again.
  pub socket_manager_register-find :
      (p : ℕ) (m : SocketManager)
      → IsTable ids m
      → m.curr_socket + 1 < 2 ^ 31
      → ids p ≡ (socket_manager_alloc m).0
      → IsTable ids (socket_manager_register p (socket_manager_alloc m).1)
        × ((socket_id : ℕ)
            → socket_manager_find ids socket_id
                (socket_manager_register p (socket_manager_alloc m).1)
              ≡ (if ids p == socket_id then some p else socket_manager_find ids socket_id m))
  unfolding socket_manager_alloc socket_manager_register socket_manager_find
  socket_manager_register-find p m t small e =
      let wrap : (m.curr_socket + 1) % 2 ^ 32 ≡ m.curr_socket + 1 = omega (arith, small) in
      let unused : Unused ids (ids p) m.sockets =
        Numbered-Unused m.curr_socket (ids p) m.sockets t (omega (arith, e, small)) in
      rw wrap (
        Numbered-place (m.curr_socket + 1) p m.sockets
            (Numbered-above m.curr_socket (m.curr_socket + 1) m.sockets (omega arith) t) unused
            (omega (arith, e)),
        λ socket_id. seek-place p socket_id m.sockets unused,
      )

  -- After `socket_manager_free`, in a table whose numbers are distinct and at most the counter,
  -- the number is found no more, all other numbers are found as before, and the table is such a
  -- table again.
  pub socket_manager_free-find :
      (socket_id : ℕ) (m : SocketManager)
      → IsTable ids m
      → IsTable ids (socket_manager_free ids socket_id m)
        × ((other : ℕ)
            → socket_manager_find ids other (socket_manager_free ids socket_id m)
              ≡ (if socket_id == other then none else socket_manager_find ids other m))
  unfolding socket_manager_free socket_manager_find
  socket_manager_free-find socket_id m t = (
    Numbered-vacate socket_id m.curr_socket m.sockets t,
    λ other. seek-vacate socket_id other m.curr_socket m.sockets t,
  )
