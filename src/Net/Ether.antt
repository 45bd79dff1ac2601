-- ===== src/Net/Ether.antt =====
-- mckrnl/net/etherframe.c: the frames that are sent, and the handlers that a frame is given to. A
-- hardware address is a 48-bit number as the machine loads it.
use goofy_micro_os.Prelude.{
  zero, Bool, true, false, ◌&&◌, Option, none, some, get_elem?, refl, Bool-cases, inl, inr, ℕ, suc,
  ◌+◌, ◌-◌, ◌*◌, ◌/◌, ◌%◌, ◌^◌, ◌<◌, ◌≡◌, ◌||◌, List, [], ◌∷◌, ◌++◌, ◌==◌, if◌then◌else◌, length,
  drop, arith,
}
use goofy_micro_os.Net.Wire.{load16, load48, store16, store48}

abbrev pub broadcast_mac : ℕ
broadcast_mac = 0xffffffffffff

abbrev pub sizeof_ether_frame_header : ℕ
sizeof_ether_frame_header = 14

-- `ether_type_be` of each handler, in the order of their registration.
pub record Ether : Type 0 where
  pub handlers : List ℕ
  pub driver_mac : ℕ

unfoldable pub etherframe_register : ℕ → Ether → Ether
etherframe_register ether_type_be st = record st { handlers = st.handlers ++ ether_type_be ∷ [] }

-- The bytes that `etherframe_send` gives to the driver.
unfoldable pub etherframe_send : (ether_type_be dest_mac_be : ℕ) (payload : List ℕ) → Ether → List ℕ
etherframe_send ether_type_be dest_mac_be payload st =
    store48 dest_mac_be ++ (store48 st.driver_mac ++ (store16 ether_type_be ++ payload))

-- A call of a handler's `recv`: its place, the payload, and its size as the callee is told.
pub record FrameCall : Type 0 where
  pub handler : ℕ
  pub payload : List ℕ
  pub size : ℕ

-- The loop over the handlers from the place `i` on.
unfoldable pub call_handlers :
    (ether_type_be i : ℕ) (payload : List ℕ) (size : ℕ) → List ℕ → List FrameCall
call_handlers ether_type_be i payload size [] = []
call_handlers ether_type_be i payload size (h ∷ handlers) =
    let rest = call_handlers ether_type_be (suc i) payload size handlers in
    if h == ether_type_be
    then record { handler = i; payload = payload; size = size } ∷ rest
    else rest

-- The calls of `etherframe_nic_recv`. The length is not compared with that of the header.
unfoldable pub etherframe_nic_recv : (bytes : List ℕ) (len : ℕ) → Ether → List FrameCall
etherframe_nic_recv bytes len st =
    let dest_mac_be = load48 bytes 0 in
    let calls =
      call_handlers (load16 bytes 12) 0 (drop sizeof_ether_frame_header bytes)
        ((len + 2 ^ 32 - sizeof_ether_frame_header) % 2 ^ 32) st.handlers in
    if dest_mac_be == broadcast_mac || dest_mac_be == st.driver_mac then calls else []

-- The calls of the handler in one place.
unfoldable pub calls_of : ℕ → List FrameCall → List FrameCall
calls_of i [] = []
calls_of i (c ∷ calls) = let rest = calls_of i calls in if c.handler == i then c ∷ rest else rest

-- Whether there is a handler, and its type is the given one.
abbrev pub is_for : ℕ → Option ℕ → Bool
is_for ether_type_be none = false
is_for ether_type_be (some h) = h == ether_type_be

module _ (ether_type_be : ℕ) (payload : List ℕ) (size : ℕ) where
  calls_of-below :
      (i j : ℕ) (handlers : List ℕ)
      → j < i
      → calls_of j (call_handlers ether_type_be i payload size handlers) ≡ []
  unfolding calls_of call_handlers
  calls_of-below i j [] below = refl
  calls_of-below i j (h ∷ handlers) below =
      let rest = calls_of-below (suc i) j handlers (omega (arith, below)) in
      let other : (i == j) ≡ false = ground (arith, below) in
      elim (Bool-cases (h == ether_type_be)) [ inl e ↦ rw (e, other) rest | inr e ↦ rw e rest ]

  calls_of-call_handlers :
      (i j k : ℕ) (handlers : List ℕ)
      → j ≡ i + k
      → calls_of j (call_handlers ether_type_be i payload size handlers) ≡ (
          if is_for ether_type_be (get_elem? handlers k)
          then record { handler = j; payload = payload; size = size } ∷ []
          else [])
  unfolding calls_of call_handlers
  calls_of-call_handlers i j k [] here = refl
  calls_of-call_handlers i j zero (h ∷ handlers) here =
      let same : i ≡ j = omega (arith, here) in
      let found : (i == j) ≡ true = ground (arith, same) in
      let rest = calls_of-below (suc i) j handlers (omega (arith, here)) in
      elim (Bool-cases (h == ether_type_be)) [
        | inl e ↦ rw (e, found, rest, same) refl
        | inr e ↦ rw (e, rest) refl
      ]
  calls_of-call_handlers i j (suc k) (h ∷ handlers) here =
      let rest = calls_of-call_handlers (suc i) j k handlers (omega (arith, here)) in
      let other : (i == j) ≡ false = ground (arith, here) in
      elim (Bool-cases (h == ether_type_be)) [ inl e ↦ rw (e, other) rest | inr e ↦ rw e rest ]

-- A frame that one stack sends calls, at the stack that it is addressed to or at any stack when it
-- is a broadcast, each handler of its type once, with the payload and its size, and no handler of
-- another type; at other stacks it calls none. The type, the address and the size of the frame fit
-- 16, 48 and 32 bits.
pub etherframe_nic_recv-etherframe_send :
    (ether_type_be dest_mac_be : ℕ) (payload : List ℕ) (from to : Ether) (i : ℕ)
    → ether_type_be < 2 ^ 16
    → dest_mac_be < 2 ^ 48
    → length payload + 14 < 2 ^ 32
    → calls_of i (
        etherframe_nic_recv
          (etherframe_send ether_type_be dest_mac_be payload from)
          (length payload + 14)
          to)
      ≡ (if (dest_mac_be == broadcast_mac || dest_mac_be == to.driver_mac)
            && is_for ether_type_be (get_elem? to.handlers i)
          then record { handler = i; payload = payload; size = length payload } ∷ []
          else [])
unfolding etherframe_nic_recv etherframe_send calls_of
etherframe_nic_recv-etherframe_send ether_type_be dest_mac_be payload from to i type_fits mac_fits
      fits =
    let d : ℕ = dest_mac_be in
    let t : ℕ = ether_type_be in
    let size : (length payload + 14 + 2 ^ 32 - 14) % 2 ^ 32 ≡ length payload =
      omega (arith, fits) in
    let mac : d % 256
          + d / 256 % 256 * 256
          + (d / 65536 % 256 + d / 16777216 % 256 * 256) * 65536
          + (d / 4294967296 % 256 + d / 4294967296 / 256 % 256 * 256) * 4294967296
        ≡ d =
      omega (arith, mac_fits) in
    let type : t % 256 + t / 256 % 256 * 256 ≡ t = omega (arith, type_fits) in
    rw (mac, type, size)
      (elim (Bool-cases (d == broadcast_mac || d == to.driver_mac)) [
        | inl e ↦
            rw e (calls_of-call_handlers t payload (length payload) 0 i i to.handlers (omega arith))
        | inr e ↦ rw e refl
      ])
