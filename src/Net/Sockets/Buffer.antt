-- ===== src/Net/Sockets/Buffer.antt =====
-- What a socket of mckrnl/net/socket_manager.c has received as a queue of bytes: what arrives goes to
-- its end, and a task is handed its start.
use goofy_micro_os.Prelude.{
  ℕ, zero, suc, ◌+◌, ◌-◌, ◌*◌, ◌%◌, ◌^◌, ◌≤◌, ◌<◌, min, ◌≡◌, refl, sym, ap, false, Option, none,
  some, List, [], ◌∷◌, ◌++◌, append_assoc, Bool-cases, inl, inr, ltb, ◌==◌, take, drop, length,
  length-append, length-drop, take-length, take-length-append, drop-length-append, arith,
}
use goofy_micro_os.Text.{Bytes}
use goofy_micro_os.Text.Copy.{memcpy_lem}
use goofy_micro_os.Net.Sockets.{
  Socket, to_pages, write_at, make_room, socket_udp_recv, num_bytes_to_copy, hand_out, handed,
  socket_recv,
}

-- The received bytes, at the start of the pages.
abbrev pub Stored : Option Bytes → Bytes → Type 0
Stored none xs = xs ≡ []
Stored (some block) xs = (slack : Bytes) × (block ≡ xs ++ slack)

pub record Holds (s : Socket) (xs : Bytes) : Type 0 where
  pub counted : s.num_bytes_received ≡ length xs
  pub stored : Stored s.received_data xs

take-front : (xs ys : Bytes) (n : ℕ) → n ≡ length xs → take n (xs ++ ys) ≡ xs
take-front xs ys n e = rw e (take-length-append xs ys)

drop-front : (xs ys : Bytes) (n : ℕ) → n ≡ length xs → drop n (xs ++ ys) ≡ ys
drop-front xs ys n e = rw e (drop-length-append xs ys)

-- A copy behind the first bytes of a block that is long enough.
write_at-end :
    (xs bytes rest : Bytes) (n : ℕ)
    → n ≡ length xs
    → length bytes ≤ length rest
    → write_at n bytes (length bytes) (xs ++ rest)
      ≡ some (xs ++ (bytes ++ drop (length bytes) rest))
unfolding write_at
write_at-end xs bytes rest n e h = rw (
  drop-front xs rest n e,
  memcpy_lem rest bytes (length bytes) h (omega arith),
  take-front xs rest n e,
  take-length bytes,
)

module _ (alloc : ℕ → Bytes) (sized : (n : ℕ) → length (alloc n) ≡ n * 4096) where
  -- The new pages begin with what had been received, and have room for `size` bytes more.
  make_room_lem :
      (s : Socket) (xs : Bytes) (size : ℕ) (o : Option Bytes)
      → s.received_data ≡ o
      → s.num_bytes_received ≡ length xs
      → Stored o xs
      → (rest : Bytes) × (freed : ℕ) × (make_room alloc size s ≡ some (xs ++ rest, freed))
        × (size ≤ length rest)
  unfolding make_room
  make_room_lem s xs size none d count stored =
      (alloc (to_pages size), 0, rw (d, stored) refl, omega (arith, sized (to_pages size)))
  make_room_lem s xs size (some block) d count (slack, e) =
      let n : ℕ = s.num_bytes_received in
      let fresh : Bytes = alloc (to_pages (size + n)) in
      let long : length fresh ≡ to_pages (size + n) * 4096 = sized (to_pages (size + n)) in
      let has : n ≤ length block = omega (arith, ap length e, length-append xs slack, count) in
      (
        drop n fresh,
        to_pages n,
        rw (d, memcpy_lem fresh block n (omega (arith, long)) has, e, take-front xs slack n count)
            refl,
        omega (arith, long, length-drop n fresh),
      )

  -- Bytes that arrive go behind those that a socket holds, within the pages allocated for them,
  -- when an allocation gives as many pages as are asked for and all the bytes are fewer than
  -- 2^31.
  pub socket_udp_recv-Holds :
      (s : Socket) (xs bytes : Bytes)
      → Holds s xs
      → length xs + length bytes < 2 ^ 31
      → (s' : Socket) × (freed : ℕ) × (socket_udp_recv alloc bytes (length bytes) s
          ≡ some (s', freed))
        × Holds s' (xs ++ bytes)
  unfolding socket_udp_recv
  socket_udp_recv-Holds s xs bytes h fits =
      let (rest, freed, made, room) =
        make_room_lem s xs (length bytes) s.received_data refl h.counted h.stored in
      (
        record {
          num_bytes_received = (s.num_bytes_received + length bytes) % 2 ^ 32;
          received_data = some (xs ++ (bytes ++ drop (length bytes) rest));
        },
        freed,
        rw (made, write_at-end xs bytes rest s.num_bytes_received h.counted room) refl,
        record {
          counted = omega (arith, h.counted, fits, length-append xs bytes);
          stored =
              (drop (length bytes) rest, sym (append_assoc xs bytes (drop (length bytes) rest)));
        },
      )

-- The rest of the queue at the start of the pages.
moved_down :
    (xs slack : Bytes) (n : ℕ)
    → n ≤ length xs
    → take (length xs - n) (drop n (xs ++ slack)) ≡ drop n xs
moved_down xs slack zero h =
    let same : length xs - 0 ≡ length xs = omega arith in rw same (take-length-append xs slack)
moved_down [] slack (suc n) h = absurd (omega arith)
moved_down (x ∷ xs) slack (suc n) h =
    let same : suc (length xs) - suc n ≡ length xs - n = omega arith in
    rw same (moved_down xs slack n (omega arith))

take_front : (xs slack : Bytes) (n : ℕ) → n ≤ length xs → take n (xs ++ slack) ≡ take n xs
take_front xs slack zero h = refl
take_front [] slack (suc n) h = absurd (omega arith)
take_front (x ∷ xs) slack (suc n) h = rw (take_front xs slack n (omega arith))

copied_count : (size : ℕ) (s : Socket) → num_bytes_to_copy size s ≡ min size s.num_bytes_received
copied_count size s = elim (Bool-cases (ltb size s.num_bytes_received)) [
  | inl e ↦ rw e (ground (arith, e))
  | inr e ↦ rw e (ground (arith, e))
]

hand_out_lem :
    (s : Socket) (xs buffer : Bytes) (size : ℕ) (o : Option Bytes)
    → s.received_data ≡ o
    → s.num_bytes_received ≡ length xs
    → Stored o xs
    → 0 < length xs
    → min size (length xs) ≤ length buffer
    → (s' : Socket) × (hand_out buffer size s
        ≡ some (
          s',
          take (min size (length xs)) xs ++ drop (min size (length xs)) buffer,
          min size (length xs),
        ))
      × Holds s' (drop (min size (length xs)) xs)
unfolding hand_out
hand_out_lem s xs buffer size none d count stored some_left room =
    absurd (omega (arith, ap length stored, some_left))
hand_out_lem s xs buffer size (some block) d count (slack, e) some_left room =
    let n : ℕ = min size (length xs) in
    let long : length (xs ++ slack) ≡ length xs + length slack = length-append xs slack in
    let moved : Bytes = drop n xs ++ drop (length xs - n) (xs ++ slack) in
    (
      record { num_bytes_received = length xs - n; received_data = some moved },
      rw
          (
            d,
            copied_count size s,
            count,
            e,
            memcpy_lem buffer (xs ++ slack) n room (omega (arith, long)),
            take_front xs slack n (omega arith),
            memcpy_lem (xs ++ slack) (drop n (xs ++ slack)) (length xs - n) (omega (arith, long))
                (omega (arith, long, length-drop n (xs ++ slack))),
            moved_down xs slack n (omega arith),
          )
          refl,
      record {
        counted = omega (arith, length-drop n xs);
        stored = (drop (length xs - n) (xs ++ slack), refl);
      },
    )

-- A socket that holds bytes hands out the first of them, as many as the task asks for or all, at
-- the first poll, and holds the others, when the task's buffer has room for what it is handed.
pub socket_recv-Holds :
    (s : Socket) (polls : List Socket) (xs buffer : Bytes) (size : ℕ)
    → Holds s xs
    → 0 < length xs
    → min size (length xs) ≤ length buffer
    → (s' : Socket) × (socket_recv buffer size (s ∷ polls)
        ≡ handed s'
            (take (min size (length xs)) xs ++ drop (min size (length xs)) buffer)
            (min size (length xs)))
      × Holds s' (drop (min size (length xs)) xs)
unfolding socket_recv
socket_recv-Holds s polls xs buffer size h some_left room =
    let (s', e, held) =
      hand_out_lem s xs buffer size s.received_data refl h.counted h.stored some_left room in
    let waiting : (s.num_bytes_received == 0) ≡ false = ground (arith, h.counted, some_left) in
    (s', rw (waiting, e) refl, held)
