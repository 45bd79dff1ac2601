-- ===== src/Net/Arp.antt =====
-- mckrnl/net/arp.c: the cache of hardware addresses, and the messages that fill it. Addresses are
-- numbers as the machine loads them, and a message is its 28 bytes.
use goofy_micro_os.Prelude.{
  ℕ, zero, suc, ◌+◌, ◌-◌, ◌*◌, ◌/◌, ◌%◌, ◌^◌, Bool, true, false, ◌&&◌, Option, none, some, List, [],
  ◌∷◌, ◌++◌, ltb, ◌==◌, if◌then◌else◌, get_or, set,
}
use goofy_micro_os.Net.Wire.{byte_at, load16, load32, load48, store16, store32, store48}
use goofy_micro_os.Net.Ether.{broadcast_mac}
pub mod Cache
pub mod Exchange

abbrev pub sizeof_arp_message : ℕ
sizeof_arp_message = 28

-- `arp_provider_t`, and the addresses of the driver.
pub record Arp : Type 0 where
  pub ip_cache : List ℕ
  pub mac_cache : List ℕ
  pub num_cache_entry : ℕ
  pub driver_ip : ℕ
  pub driver_mac : ℕ

unfoldable pub arp_message : (command src_mac src_ip dest_mac dest_ip : ℕ) → List ℕ
arp_message command src_mac src_ip dest_mac dest_ip =
    store16 0x0100
    ++ (store16 0x0008
        ++ (6
            ∷ 4
            ∷ (store16 command
                ++ (store48 src_mac ++ (store32 src_ip ++ (store48 dest_mac ++ store32 dest_ip))))))

-- A call of `etherframe_send`: the hardware address and the message.
abbrev pub Sent : Type 0
Sent = ℕ × List ℕ

-- The checks of `arp_etherframe_recv` before it looks at the command.
unfoldable pub for_us : (payload : List ℕ) → Arp → Bool
for_us payload st =
    load16 payload 0 == 0x0100
    && load16 payload 2 == 0x0008
    && byte_at payload 4 == 6
    && byte_at payload 5 == 4
    && load32 payload 24 == st.driver_ip

unfoldable pub add_cache_entry : (ip mac : ℕ) → Arp → Arp
add_cache_entry ip mac st =
    if ltb st.num_cache_entry 128
    then record st {
      ip_cache = set st.ip_cache st.num_cache_entry ip;
      mac_cache = set st.mac_cache st.num_cache_entry mac;
      num_cache_entry = st.num_cache_entry + 1;
    }
    else st

-- The new state and what is sent. The answer to a request is the message with fields exchanged.
unfoldable pub arp_etherframe_recv : (payload : List ℕ) (size : ℕ) → Arp → Arp × Option Sent
arp_etherframe_recv payload size st =
    let src_mac = load48 payload 8 in
    let src_ip = load32 payload 14 in
    let command = load16 payload 6 in
    if ltb size sizeof_arp_message
    then (st, none)
    else if for_us payload st
    then (if command == 0x0100
        then (st, some (src_mac, arp_message 0x0200 st.driver_mac st.driver_ip src_mac src_ip))
        else if command == 0x0200
        then (add_cache_entry src_ip src_mac st, none)
        else (st, none))
    else (st, none)

unfoldable pub arp_request_mac : (ip : ℕ) → Arp → Sent
arp_request_mac ip st =
    (broadcast_mac, arp_message 0x0100 st.driver_mac st.driver_ip broadcast_mac ip)

-- The loop of `arp_get_mac_from_cache` with `count` entries left, from `i` on.
unfoldable pub cache_loop : (count i ip : ℕ) → Arp → ℕ
cache_loop zero i ip st = broadcast_mac
cache_loop (suc count) i ip st =
    let rest = cache_loop count (i + 1) ip st in
    if get_or st.ip_cache i 0 == ip then get_or st.mac_cache i 0 else rest

unfoldable pub arp_get_mac_from_cache : (ip : ℕ) → Arp → ℕ
arp_get_mac_from_cache ip st = cache_loop st.num_cache_entry 0 ip st

-- `NET_TIMEOUT` in `arp_resolve`: the states that its rounds find, each after a sleep.
unfoldable pub arp_wait : (result ip : ℕ) → List Arp → ℕ
arp_wait result ip [] = result
arp_wait result ip (st ∷ polls) =
    let rest = arp_wait (arp_get_mac_from_cache ip st) ip polls in
    if result == broadcast_mac then rest else result

-- The address and the request that was sent, if one was.
unfoldable pub arp_resolve : (ip : ℕ) (polls : List Arp) → Arp → ℕ × Option Sent
arp_resolve ip polls st =
    let result = arp_get_mac_from_cache ip st in
    if ip == 0xffffffff then (broadcast_mac, none) else (
      arp_wait result ip polls,
      (if result == broadcast_mac then some (arp_request_mac ip st) else none),
    )

unfoldable pub arp_broadcast_mac : (ip : ℕ) (polls : List Arp) → Arp → Sent
arp_broadcast_mac ip polls st =
    let dest_mac = (arp_resolve ip polls st).0 in
    (dest_mac, arp_message 0x0200 st.driver_mac st.driver_ip dest_mac ip)

-- `arp_init`: a cleared provider.
unfoldable pub arp_init : (zeroes : List ℕ) (driver_ip driver_mac : ℕ) → Arp
arp_init zeroes driver_ip driver_mac = record {
  ip_cache = zeroes;
  mac_cache = zeroes;
  num_cache_entry = 0;
  driver_ip = driver_ip;
  driver_mac = driver_mac;
}
