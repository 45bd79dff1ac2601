-- ===== src/Net/Sockets/Tests.antt =====
-- The theorems on the sockets of tasks at short buffers and a table of two sockets.
use goofy_micro_os.Prelude.{
  ℕ, zero, suc, ◌*◌, ◌≡◌, refl, some, none, [], ◌∷◌, ◌==◌, if◌then◌else◌, length, replicate, arith,
}
use goofy_micro_os.Text.{Bytes}
use goofy_micro_os.Net.Sockets.{
  Socket, socket_udp_recv, handed, socket_recv, SocketManager, init_socket_manager,
  socket_manager_alloc, socket_manager_register, socket_manager_free, socket_manager_find, place,
  seek,
}
use goofy_micro_os.Net.Sockets.Buffer.{Holds, socket_udp_recv-Holds, socket_recv-Holds}
use goofy_micro_os.Net.Sockets.Table.{
  IsTable, socket_manager_register-find, socket_manager_free-find,
}

abbrev two_received : Socket
two_received = record { num_bytes_received = 2; received_data = some (1 ∷ 2 ∷ 9 ∷ []) }

two-Holds : Holds two_received (1 ∷ 2 ∷ [])
two-Holds = record { counted = refl; stored = (9 ∷ [], refl) }

abbrev nothing_received : Socket
nothing_received = record { num_bytes_received = 0; received_data = none }

abbrev zeroed : ℕ → Bytes
zeroed n = replicate (n * 4096) 0

length-zeroes : (k : ℕ) → length (replicate {A = ℕ} k 0) ≡ k
length-zeroes zero = refl
length-zeroes (suc k) = omega (arith, length-zeroes k)

socket_udp_recv-Holds_example :
    (s' : Socket) × (freed : ℕ) × (socket_udp_recv zeroed (7 ∷ 8 ∷ []) 2 nothing_received
      ≡ some (s', freed))
    × Holds s' (7 ∷ 8 ∷ [])
socket_udp_recv-Holds_example =
    socket_udp_recv-Holds zeroed (λ n. length-zeroes (n * 4096)) nothing_received [] (7 ∷ 8 ∷ [])
      (record { counted = refl; stored = refl }) (omega arith)

-- One byte is asked for.
socket_recv-Holds_example :
    (s' : Socket) × (socket_recv (0 ∷ 0 ∷ []) 1 (two_received ∷ []) ≡ handed s' (1 ∷ 0 ∷ []) 1)
    × Holds s' (2 ∷ [])
socket_recv-Holds_example =
    socket_recv-Holds two_received [] (1 ∷ 2 ∷ []) (0 ∷ 0 ∷ []) 1 two-Holds (omega arith)
      (omega arith)

-- The sockets at the addresses 100 and 200 have the numbers 6 and 7.
abbrev numbers : ℕ → ℕ
numbers p = if p == 100 then 6 else 7

abbrev one_socket : SocketManager
one_socket = record { sockets = none ∷ (some 100 ∷ []); curr_socket = 6 }

one-IsTable : IsTable numbers one_socket
one-IsTable = (omega arith, tt, tt)

socket_manager_register-find_example :
    IsTable numbers (socket_manager_register 200 (socket_manager_alloc one_socket).1)
    × ((socket_id : ℕ)
        → socket_manager_find numbers socket_id
            (socket_manager_register 200 (socket_manager_alloc one_socket).1)
          ≡ (if 7 == socket_id then some 200 else socket_manager_find numbers socket_id one_socket))
unfolding socket_manager_alloc
socket_manager_register-find_example =
    socket_manager_register-find numbers 200 one_socket one-IsTable (omega arith) refl

socket_manager_free-find_example :
    IsTable numbers (socket_manager_free numbers 6 one_socket)
    × ((other : ℕ)
        → socket_manager_find numbers other (socket_manager_free numbers 6 one_socket)
          ≡ (if 6 == other then none else socket_manager_find numbers other one_socket))
socket_manager_free-find_example = socket_manager_free-find numbers 6 one_socket one-IsTable

-- The free place in front is taken first.
first_place :
    socket_manager_register 200 (socket_manager_alloc one_socket).1
    ≡ record { sockets = some 200 ∷ (some 100 ∷ []); curr_socket = 7 }
unfolding socket_manager_register socket_manager_alloc place
first_place = refl

no_socket : socket_manager_find numbers 6 init_socket_manager ≡ none
unfolding socket_manager_find init_socket_manager seek
no_socket = refl
