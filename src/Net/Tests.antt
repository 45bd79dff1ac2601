-- ===== src/Net/Tests.antt =====
-- The theorems on the packets of mckrnl/net at concrete ones.
use goofy_micro_os.Prelude.{
  Bool, none, ℕ, ◌≡◌, refl, true, false, some, none, List, [], ◌∷◌, arith, replicate,
}
use goofy_micro_os.Net.Wire.{bswap16}
use goofy_micro_os.Net.Checksum.{ipv4_checksum}
use goofy_micro_os.Net.Ipv4.{ipv4_header, ipv4_header-verifies}
use goofy_micro_os.Net.Udp.{
  set_recv, UdpSocket, Udp, received, udp_packet, udp_listen, udp_ipv4_recv,
}
use goofy_micro_os.Net.Ether.{
  calls_of, Ether, call_handlers, etherframe_send, etherframe_nic_recv,
  etherframe_nic_recv-etherframe_send,
}
use goofy_micro_os.Net.Arp.{Arp, arp_etherframe_recv, arp_request_mac, arp_get_mac_from_cache}
use goofy_micro_os.Net.Arp.Cache.{IsCache, entries}
use goofy_micro_os.Net.Arp.Exchange.{arp_exchange}
use goofy_micro_os.Net.Icmp.{
  icmp_wait-replied, Icmp, icmp_ipv4_recv, icmp_send_echo_reqest_and_wait, icmp_echo,
}
use goofy_micro_os.Net.Udp.Deliver.{udp_listen-recv}

ipv4_header-verifies_example : ipv4_checksum (ipv4_header 6 3 9 40) ≡ 0
ipv4_header-verifies_example = ipv4_header-verifies 6 3 9 40

-- A socket that sends from port 1024 to port 53.
abbrev asker : UdpSocket
asker = record {
  remote_port = 13568;
  local_port = 4;
  remote_ip = 3;
  local_ip = 9;
  listening = false;
  recv = true;
}

-- The socket that listens on port 53, without its callback and with it.
abbrev listener : Bool → UdpSocket
listener has_recv = record {
  remote_port = 0;
  local_port = 13568;
  remote_ip = 0;
  local_ip = 3;
  listening = true;
  recv = has_recv;
}

abbrev listening_stack : Udp
listening_stack = record {
  heap = some (listener false) ∷ [];
  binds = some 0 ∷ [];
  free_port = 1024;
  driver_ip = 3;
  events = [];
}

abbrev heard_asker : UdpSocket
heard_asker = record {
  remote_port = 4;
  local_port = 13568;
  remote_ip = 9;
  local_ip = 3;
  listening = false;
  recv = true;
}

udp_listen-recv_example :
    (udp_ipv4_recv 9 3 (udp_packet asker (42 ∷ [])) listening_stack ≡ none)
    × (st' : Udp) × (set_recv 0 listening_stack ≡ some st')
    × (udp_ipv4_recv 9 3 (udp_packet asker (42 ∷ [])) st'
        ≡ some (record st' { heap = some heard_asker ∷ []; events = received 0 (42 ∷ []) ∷ [] }))
unfolding udp_listen bswap16
udp_listen-recv_example =
    udp_listen-recv [] 1024 3 53 9 asker (42 ∷ []) (omega arith) refl (omega arith)

-- A host with handlers for ARP and, twice, for IPv4.
abbrev station : Ether
station = record { handlers = 0x0608 ∷ 0x8 ∷ 0x8 ∷ []; driver_mac = 77 }

two_handlers :
    call_handlers 8 0 (5 ∷ []) 1 station.handlers
    ≡ record { handler = 1; payload = 5 ∷ []; size = 1 }
      ∷ (record { handler = 2; payload = 5 ∷ []; size = 1 } ∷ [])
unfolding call_handlers
two_handlers = refl

etherframe_nic_recv-etherframe_send_example :
    calls_of 2 (etherframe_nic_recv (etherframe_send 8 77 (5 ∷ []) station) 15 station)
    ≡ record { handler = 2; payload = 5 ∷ []; size = 1 } ∷ []
etherframe_nic_recv-etherframe_send_example =
    etherframe_nic_recv-etherframe_send 8 77 (5 ∷ []) station station 2 (omega arith) (omega arith)
      (omega arith)

abbrev arp_host : ℕ → ℕ → Arp
arp_host ip mac = record {
  ip_cache = replicate 128 0;
  mac_cache = replicate 128 0;
  num_cache_entry = 0;
  driver_ip = ip;
  driver_mac = mac;
}

arp_host-IsCache : (ip mac : ℕ) → IsCache (arp_host ip mac)
arp_host-IsCache ip mac = record { ip_places = refl; mac_places = refl; counted = omega arith }

arp_exchange_example :
    (reply : List ℕ) × (arp_etherframe_recv (arp_request_mac 6 (arp_host 8 7)).1 28 (arp_host 6 5)
      ≡ (arp_host 6 5, some (7, reply)))
    × (arp_get_mac_from_cache 6 (arp_etherframe_recv reply 28 (arp_host 8 7)).0 ≡ 5)
unfolding entries
arp_exchange_example =
    arp_exchange (arp_host 8 7) (arp_host 6 5)
      (record { ip_fits = omega arith; mac_fits = omega arith })
      (record { ip_fits = omega arith; mac_fits = omega arith }) (arp_host-IsCache 8 7)
      (omega arith) tt

abbrev quiet : Icmp
quiet = record { last_echo_reply_ip = 0 }

icmp_echo_example :
    (x : ℕ) × (y : ℕ) × (icmp_ipv4_recv 3 (8 ∷ 0 ∷ 7 ∷ 7 ∷ 1 ∷ 2 ∷ 3 ∷ 4 ∷ 5 ∷ []) 9 quiet
      ≡ some (quiet, some (3, 0 ∷ 0 ∷ x ∷ y ∷ 1 ∷ 2 ∷ 3 ∷ 4 ∷ [])))
    × (ipv4_checksum (0 ∷ 0 ∷ x ∷ y ∷ 1 ∷ 2 ∷ 3 ∷ 4 ∷ []) ≡ 0)
icmp_echo_example =
    icmp_echo 3 0 7 7 1 2 3 4 (5 ∷ []) quiet (omega arith) (omega arith) (omega arith) (omega arith)
      (omega arith)

-- The last reply before the wait came from the same address.
abbrev heard_before : Icmp
heard_before = record { last_echo_reply_ip = 9 }

icmp_wait-replied_example :
    ((icmp_send_echo_reqest_and_wait 9 (quiet ∷ (quiet ∷ [])) heard_before).2 ≡ false)
    × (replied : Icmp) × (icmp_ipv4_recv 9 (0 ∷ 0 ∷ 0 ∷ 0 ∷ 0 ∷ 0 ∷ 0 ∷ 0 ∷ []) 8 quiet
        ≡ some (replied, none))
    × ((icmp_send_echo_reqest_and_wait 9 (quiet ∷ (quiet ∷ (replied ∷ []))) heard_before).2 ≡ true)
unfolding icmp_send_echo_reqest_and_wait
icmp_wait-replied_example =
    icmp_wait-replied 9 2 (0 ∷ 0 ∷ 0 ∷ 0 ∷ 0 ∷ 0 ∷ 0 ∷ []) heard_before [] (omega arith)
      (omega arith)
