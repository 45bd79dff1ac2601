-- ===== src/Net/Dns/Tests.antt =====
-- The theorems on names at "ab.c", and at a pointer to itself.
use goofy_micro_os.Prelude.{◌≡◌, some, [], ◌∷◌, arith}
use goofy_micro_os.Net.Dns.{
  dns_resolv_domain_to_hostname, skipped, out_of_fuel, dns_resolv_skip_name,
}
use goofy_micro_os.Net.Dns.Names.{dns_resolv_domain_to_hostname-encoded}
use goofy_micro_os.Net.Dns.Walk.{dns_resolv_skip_name-encoded, dns_resolv_skip_name-diverges}

dns_resolv_domain_to_hostname-encoded_example :
    dns_resolv_domain_to_hostname
      (0 ∷ 0 ∷ 0 ∷ 0 ∷ 0 ∷ 0 ∷ 0 ∷ 5 ∷ [])
      (97 ∷ 98 ∷ 46 ∷ 99 ∷ 0 ∷ 7 ∷ [])
    ≡ some (2 ∷ 97 ∷ 98 ∷ 1 ∷ 99 ∷ 0 ∷ 0 ∷ 5 ∷ [])
dns_resolv_domain_to_hostname-encoded_example =
    dns_resolv_domain_to_hostname-encoded ((97 ∷ 98 ∷ []) ∷ []) (99 ∷ []) (7 ∷ []) (5 ∷ []) (
      (omega arith, omega arith, (omega arith, omega arith, tt)),
      omega arith,
      ((omega arith, omega arith, tt), omega arith),
    )

dns_resolv_skip_name-encoded_example :
    dns_resolv_skip_name 6 1 (9 ∷ 2 ∷ 97 ∷ 98 ∷ 1 ∷ 99 ∷ 0 ∷ 4 ∷ []) ≡ skipped 6
dns_resolv_skip_name-encoded_example =
    dns_resolv_skip_name-encoded ((97 ∷ 98 ∷ [], 46) ∷ ((99 ∷ [], 0) ∷ [])) (9 ∷ []) (4 ∷ []) (
      omega arith,
      omega arith,
      (omega arith, omega arith, (omega arith, omega arith, tt)),
      (omega arith, omega arith, (omega arith, omega arith, tt), tt),
    )

dns_resolv_skip_name-diverges_example :
    dns_resolv_skip_name 100 1 (9 ∷ 192 ∷ 1 ∷ 4 ∷ []) ≡ out_of_fuel
dns_resolv_skip_name-diverges_example =
    dns_resolv_skip_name-diverges 100 (9 ∷ []) (4 ∷ []) (omega arith)
