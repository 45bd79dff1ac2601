-- ===== src/Net/Sockets.antt =====
-- mckrnl/net/socket_manager.c: what a socket of a task has received, and the table of sockets. A
-- socket is named by its address, 0 is the null pointer.
use goofy_micro_os.Prelude.{
  ℕ, zero, suc, ◌+◌, ◌-◌, ◌*◌, ◌/◌, ◌%◌, ◌^◌, Bool, Option, none, some, List, [], ◌∷◌, ◌++◌, ltb,
  ◌==◌, if◌then◌else◌, take, drop, length,
}
use goofy_micro_os.Prelude.Options.{◌>>=◌}
use goofy_micro_os.Text.{Bytes, memcpy}
pub mod Buffer
pub mod Table
mod Tests

-- `socket_t`: the bytes are those of the pages behind `received_data`.
pub record Socket : Type 0 where
  pub num_bytes_received : ℕ
  pub received_data : Option Bytes

abbrev pub to_pages : ℕ → ℕ
to_pages num = (num + 0xfff) / 0x1000

-- `memcpy(block + offset, src, n)`
unfoldable pub write_at : (offset : ℕ) (src : Bytes) (n : ℕ) → Bytes → Option Bytes
write_at offset src n block =
    memcpy (drop offset block) src n >>= λ copied. some (take offset block ++ copied)

-- The pages that the new bytes go to, and how many pages are given back. `alloc` is what the pages
-- of `vmm_alloc` hold.
unfoldable pub make_room : (alloc : ℕ → Bytes) (size : ℕ) → Socket → Option (Bytes × ℕ)
make_room alloc size s = room s.received_data
  where
    room : Option Bytes → Option (Bytes × ℕ)
    room none = some (alloc (to_pages size), 0)
    room (some received) =
        memcpy (alloc (to_pages (size + s.num_bytes_received))) received s.num_bytes_received
        >>= λ new_data. some (new_data, to_pages s.num_bytes_received)

-- The socket, and how many pages are given back; `none` is a copy past the end of the pages.
unfoldable pub socket_udp_recv :
    (alloc : ℕ → Bytes) (bytes : Bytes) (size : ℕ) → Socket → Option (Socket × ℕ)
socket_udp_recv alloc bytes size s = make_room alloc size s >>= λ (block, freed).
    write_at s.num_bytes_received bytes size block >>= λ received. some (
      record {
        num_bytes_received = (s.num_bytes_received + size) % 2 ^ 32;
        received_data = some received;
      },
      freed,
    )

unfoldable pub socket_tcp_recv :
    (alloc : ℕ → Bytes) (bytes : Bytes) (size : ℕ) → Socket → Option (Socket × ℕ)
socket_tcp_recv alloc bytes size s = make_room alloc size s >>= λ (block, freed).
    write_at s.num_bytes_received bytes size block >>= λ received. some (
      record {
        num_bytes_received = (s.num_bytes_received + size) % 2 ^ 32;
        received_data = some received;
      },
      freed,
    )

-- How many bytes `socket_recv` hands out at once.
abbrev pub num_bytes_to_copy : (size : ℕ) → Socket → ℕ
num_bytes_to_copy size s = if ltb size s.num_bytes_received then size else s.num_bytes_received

-- `socket_recv` behind its test: the socket, the task's buffer, and the result.
unfoldable pub hand_out : (buffer : Bytes) (size : ℕ) → Socket → Option (Socket × Bytes × ℕ)
hand_out buffer size s = give s.received_data
  where
    give : Option Bytes → Option (Socket × Bytes × ℕ)
    give none = none
    give (some received) =
        let n = num_bytes_to_copy size s in
        let left = s.num_bytes_received - n in
        memcpy buffer received n >>= λ filled. memcpy received (drop n received) left >>= λ moved.
        some (record { num_bytes_received = left; received_data = some moved }, filled, n)

-- What a call of `socket_recv` comes to.
pub data Reply : Type 0 where
  handed : Socket → Bytes → ℕ → Reply
  timed_out : Reply
  faults : Reply

-- `NET_TIMEOUT` in `socket_recv`: the sockets that its rounds find, each after a sleep.
unfoldable pub socket_recv : (buffer : Bytes) (size : ℕ) → List Socket → Reply
socket_recv buffer size [] = timed_out
socket_recv buffer size (s ∷ polls) =
    let later = socket_recv buffer size polls in
    if s.num_bytes_received == 0 then later else reply (hand_out buffer size s)
  where
    reply : Option (Socket × Bytes × ℕ) → Reply
    reply none = faults
    reply (some (s', filled, n)) = handed s' filled n

-- `socket_manager_t`
pub record SocketManager : Type 0 where
  pub sockets : List (Option ℕ)
  pub curr_socket : ℕ

-- `SOCK_OFFSET`
unfoldable pub init_socket_manager : SocketManager
init_socket_manager = record { sockets = []; curr_socket = 5 }

unfoldable pub socket_manager_alloc : SocketManager → ℕ × SocketManager
socket_manager_alloc m =
    let curr_socket = (m.curr_socket + 1) % 2 ^ 32 in
    (curr_socket, record m { curr_socket = curr_socket })

-- The first free place of the table, or a new one at its end.
unfoldable pub place : (socket : ℕ) → List (Option ℕ) → List (Option ℕ)
place socket [] = some socket ∷ []
place socket (none ∷ cells) = some socket ∷ cells
place socket (some p ∷ cells) = some p ∷ place socket cells

unfoldable pub socket_manager_register : (socket : ℕ) → SocketManager → SocketManager
socket_manager_register socket m = record m { sockets = place socket m.sockets }

-- `ids` is the `socket_id` of the socket at an address.
unfoldable pub vacate : (ids : ℕ → ℕ) (socket_id : ℕ) → List (Option ℕ) → List (Option ℕ)
vacate ids socket_id [] = []
vacate ids socket_id (none ∷ cells) = none ∷ vacate ids socket_id cells
vacate ids socket_id (some p ∷ cells) =
    let rest = vacate ids socket_id cells in
    if ids p == socket_id then none ∷ cells else some p ∷ rest

unfoldable pub socket_manager_free : (ids : ℕ → ℕ) (socket_id : ℕ) → SocketManager → SocketManager
socket_manager_free ids socket_id m = record m { sockets = vacate ids socket_id m.sockets }

unfoldable pub seek : (ids : ℕ → ℕ) (socket_id : ℕ) → List (Option ℕ) → Option ℕ
seek ids socket_id [] = none
seek ids socket_id (none ∷ cells) = seek ids socket_id cells
seek ids socket_id (some p ∷ cells) =
    let rest = seek ids socket_id cells in if ids p == socket_id then some p else rest

unfoldable pub socket_manager_find : (ids : ℕ → ℕ) (socket_id : ℕ) → SocketManager → Option ℕ
socket_manager_find ids socket_id m = seek ids socket_id m.sockets
