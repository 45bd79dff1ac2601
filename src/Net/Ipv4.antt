-- ===== src/Net/Ipv4.antt =====
-- mckrnl/net/ipv4.c: the packets that are sent, and which protocol's handler a packet is given to. An
-- address is a 32-bit number as the machine loads it; the Ethernet frame is not modelled.
use goofy_micro_os.Prelude.{
  ℕ, suc, ◌+◌, ◌-◌, ◌*◌, ◌/◌, ◌%◌, ◌^◌, ◌≡◌, bit_and, ◌||◌, List, [], ◌∷◌, ◌++◌, ltb, ◌==◌,
  if◌then◌else◌, length, arith,
}
use goofy_micro_os.Net.Wire.{byte_at, load16, load32, store16, store32, bswap16}
use goofy_micro_os.Net.Checksum.{ipv4_checksum, ipv4_checksum-verifies, word_sum, IsEven}

abbrev pub sizeof_ipv4_message : ℕ
sizeof_ipv4_message = 20

pub record Ipv4 : Type 0 where
  -- The protocols of the handlers, in the order of their registration.
  pub handlers : List ℕ
  pub gateway_ip : ℕ
  pub subnet_mask : ℕ
  pub driver_ip : ℕ

unfoldable pub ipv4_register : ℕ → Ipv4 → Ipv4
ipv4_register protocol st = record st { handlers = st.handlers ++ protocol ∷ [] }

-- The header before its checksum, and behind it.
unfoldable pub header_start : ℕ → ℕ → List ℕ
header_start protocol size =
    (sizeof_ipv4_message / 4 + 4 * 16)
    ∷ 0
    ∷ (store16 (bswap16 ((size + sizeof_ipv4_message) % 2 ^ 16))
        ++ (store16 0 ++ (store16 0 ++ (0x40 ∷ (protocol % 256) ∷ []))))

unfoldable pub header_end : ℕ → ℕ → List ℕ
header_end source destination = store32 source ++ store32 destination

unfoldable pub ipv4_header : ℕ → ℕ → ℕ → ℕ → List ℕ
unfolding header_start header_end
ipv4_header protocol source destination size =
    let checksum =
      ipv4_checksum (header_start protocol size ++ (0 ∷ 0 ∷ header_end source destination)) in
    header_start protocol size ++ (store16 checksum ++ header_end source destination)

-- The address whose hardware address the frame goes to.
unfoldable pub next_hop : Ipv4 → ℕ → ℕ
next_hop st dest_ip =
    if bit_and dest_ip st.subnet_mask == bit_and st.driver_ip st.subnet_mask
    then dest_ip
    else st.gateway_ip

-- What `ipv4_send` gives to `etherframe_send`: the next hop, and the packet.
unfoldable pub ipv4_send : ℕ → ℕ → List ℕ → Ipv4 → ℕ × List ℕ
unfolding ipv4_header next_hop
ipv4_send protocol dest_ip payload st =
    (next_hop st dest_ip, ipv4_header protocol st.driver_ip dest_ip (length payload) ++ payload)

-- A call of a handler's `recv`: its place, the addresses, where the payload starts and its size.
pub record Delivery : Type 0 where
  pub handler : ℕ
  pub source : ℕ
  pub destination : ℕ
  pub start : ℕ
  pub size : ℕ

-- The loop over the handlers from the place `i` on.
unfoldable pub deliver : ℕ → ℕ → Delivery → List ℕ → List Delivery
deliver protocol i d [] = []
deliver protocol i d (h ∷ handlers) =
    let rest = deliver protocol (suc i) d handlers in
    if h == protocol then record d { handler = i } ∷ rest else rest

-- `ipv4_etherframe_recv`: its calls. The length is read as it stands in the packet, not swapped.
unfoldable pub ipv4_etherframe_recv : List ℕ → Ipv4 → List Delivery
unfolding deliver
ipv4_etherframe_recv payload st =
    let size = length payload in
    let destination = load32 payload 16 in
    let total = load16 payload 2 in
    let len = if ltb size total then size else total in
    let header = 4 * (byte_at payload 0 % 16) in
    let d : Delivery = record {
      handler = 0;
      source = load32 payload 12;
      destination = destination;
      start = header;
      size = (len + 2 ^ 32 - header) % 2 ^ 32;
    } in
    if ltb size sizeof_ipv4_message
    then []
    else if destination == st.driver_ip || destination == 0xffffffff || st.driver_ip == 0
    then deliver (byte_at payload 9) 0 d st.handlers
    else []

-- Every header that `ipv4_send` writes has the checksum 0 as a whole, which is how a receiver
-- verifies it.
pub ipv4_header-verifies :
    (protocol source destination size : ℕ)
    → ipv4_checksum (ipv4_header protocol source destination size) ≡ 0
unfolding ipv4_header header_start header_end word_sum IsEven
ipv4_header-verifies protocol source destination size =
    ipv4_checksum-verifies (header_start protocol size) (header_end source destination)
      (omega arith) (omega arith) (omega arith)
