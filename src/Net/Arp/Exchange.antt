-- ===== src/Net/Arp/Exchange.antt =====
-- A request of mckrnl/net/arp.c, its answer, and what the asking side then knows.
use goofy_micro_os.Prelude.{ℕ, ◌^◌, ◌<◌, ◌≡◌, ap, ◌∙◌, true, some, List, arith, ◌==◌}
use goofy_micro_os.Net.Wire.{load16, load32, load48}
use goofy_micro_os.Net.Ether.{broadcast_mac}
use goofy_micro_os.Net.Arp.{
  Arp, arp_message, for_us, add_cache_entry, arp_etherframe_recv, arp_request_mac,
  arp_get_mac_from_cache,
}
use goofy_micro_os.Net.Arp.Cache.{IsCache, entries, Lacks, arp_get_mac_from_cache-add}

-- The addresses fit their fields.
pub record IsHost (st : Arp) : Type 0 where
  pub ip_fits : st.driver_ip < 2 ^ 32
  pub mac_fits : st.driver_mac < 2 ^ 48

-- The fields of a message are read as they were written.
message_fields :
    (command src_mac src_ip dest_mac dest_ip : ℕ)
    → command < 2 ^ 16
    → src_mac < 2 ^ 48
    → src_ip < 2 ^ 32
    → (load16 (arp_message command src_mac src_ip dest_mac dest_ip) 6 ≡ command)
      × (load48 (arp_message command src_mac src_ip dest_mac dest_ip) 8 ≡ src_mac)
      × (load32 (arp_message command src_mac src_ip dest_mac dest_ip) 14 ≡ src_ip)
unfolding arp_message
message_fields command src_mac src_ip dest_mac dest_ip hc hm hs =
    (omega (arith, hc), omega (arith, hm), omega (arith, hs))

message_dest :
    (command src_mac src_ip dest_mac dest_ip : ℕ)
    → dest_ip < 2 ^ 32
    → load32 (arp_message command src_mac src_ip dest_mac dest_ip) 24 ≡ dest_ip
unfolding arp_message
message_dest command src_mac src_ip dest_mac dest_ip hd = omega (arith, hd)

-- Whom a message is for.
message_for_us :
    (command src_mac src_ip dest_mac dest_ip : ℕ) (st : Arp)
    → dest_ip < 2 ^ 32
    → for_us (arp_message command src_mac src_ip dest_mac dest_ip) st ≡ (dest_ip == st.driver_ip)
unfolding for_us arp_message
message_for_us command src_mac src_ip dest_mac dest_ip st hd =
    ap (λ (ip : ℕ). ip == st.driver_ip) (message_dest command src_mac src_ip dest_mac dest_ip hd)

-- A request for the address of `st` is answered with it, to the one that asked, and changes nothing.
answer :
    (src_mac src_ip dest_mac : ℕ) (st : Arp)
    → src_mac < 2 ^ 48
    → src_ip < 2 ^ 32
    → IsHost st
    → arp_etherframe_recv (arp_message 0x0100 src_mac src_ip dest_mac st.driver_ip) 28 st
      ≡ (st, some (src_mac, arp_message 0x0200 st.driver_mac st.driver_ip src_mac src_ip))
unfolding arp_etherframe_recv
answer src_mac src_ip dest_mac st hm hs host =
    let f = message_fields 0x0100 src_mac src_ip dest_mac st.driver_ip (omega arith) hm hs in
    let us = message_for_us 0x0100 src_mac src_ip dest_mac st.driver_ip st host.ip_fits in
    let self : (st.driver_ip == st.driver_ip) ≡ true = ground arith in rw (f.0, f.1, f.2, us, self)

-- An answer for the address of `st` is entered in its cache.
entered :
    (src_mac src_ip dest_mac : ℕ) (st : Arp)
    → src_mac < 2 ^ 48
    → src_ip < 2 ^ 32
    → IsHost st
    → (arp_etherframe_recv (arp_message 0x0200 src_mac src_ip dest_mac st.driver_ip) 28 st).0
      ≡ add_cache_entry src_ip src_mac st
unfolding arp_etherframe_recv
entered src_mac src_ip dest_mac st hm hs host =
    let f = message_fields 0x0200 src_mac src_ip dest_mac st.driver_ip (omega arith) hm hs in
    let us = message_for_us 0x0200 src_mac src_ip dest_mac st.driver_ip st host.ip_fits in
    let self : (st.driver_ip == st.driver_ip) ≡ true = ground arith in rw (f.0, f.1, f.2, us, self)

-- When a host `a`, whose cache has room and lacks the address of `b`, requests it, `b` sends an
-- answer to `a` and keeps its state, and `a`, when it has received that answer, finds the
-- hardware address of `b` in its cache; the addresses of both fit their fields.
pub arp_exchange :
    (a b : Arp)
    → IsHost a
    → IsHost b
    → IsCache a
    → a.num_cache_entry < 128
    → Lacks b.driver_ip (entries a.num_cache_entry 0 a)
    → (reply : List ℕ) × (arp_etherframe_recv (arp_request_mac b.driver_ip a).1 28 b
        ≡ (b, some (a.driver_mac, reply)))
      × (arp_get_mac_from_cache b.driver_ip (arp_etherframe_recv reply 28 a).0 ≡ b.driver_mac)
unfolding arp_request_mac
arp_exchange a b host_a host_b c room lacks = (
  arp_message 0x0200 b.driver_mac b.driver_ip a.driver_mac a.driver_ip,
  answer a.driver_mac a.driver_ip broadcast_mac b host_a.mac_fits host_a.ip_fits host_b,
  ap (arp_get_mac_from_cache b.driver_ip)
        (entered b.driver_mac b.driver_ip a.driver_mac a host_b.mac_fits host_b.ip_fits host_a)
      ∙ arp_get_mac_from_cache-add b.driver_ip b.driver_mac a c room lacks,
)
