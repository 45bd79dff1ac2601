-- ===== src/Net/Arp/Cache.antt =====
-- The cache of mckrnl/net/arp.c as a list of pairs: what is added comes last, and the first pair with
-- the address counts.
use goofy_micro_os.Net.Wire.{load16, load32, load48}
use goofy_micro_os.Prelude.{
  ◌⊎◌, ℕ, zero, suc, ◌+◌, ◌≤◌, ◌<◌, ◌≡◌, ◌≢◌, refl, ◌∙◌, true, false, Bool-cases, inl, inr, List,
  [], ◌∷◌, ◌++◌, ltb, ◌==◌, if◌then◌else◌, length, get_or, length-set, get_or-set, arith,
}
use goofy_micro_os.Net.Arp.{
  Arp, add_cache_entry, for_us, arp_etherframe_recv, cache_loop, arp_get_mac_from_cache,
}
use goofy_micro_os.Net.Ether.{broadcast_mac}

-- The arrays have 128 places, and no more entries are counted.
pub record IsCache (st : Arp) : Type 0 where
  pub ip_places : length st.ip_cache ≡ 128
  pub mac_places : length st.mac_cache ≡ 128
  pub counted : st.num_cache_entry ≤ 128

add_cache_entry-IsCache : (ip mac : ℕ) (st : Arp) → IsCache st → IsCache (add_cache_entry ip mac st)
unfolding add_cache_entry
add_cache_entry-IsCache ip mac st c = elim (Bool-cases (ltb st.num_cache_entry 128)) [
  | inl room ↦ rw room (record {
    ip_places = length-set st.ip_cache st.num_cache_entry ip ∙ c.ip_places;
    mac_places = length-set st.mac_cache st.num_cache_entry mac ∙ c.mac_places;
    counted = ground (arith, room);
  })
  | inr full ↦ rw full c
]

-- A message adds one entry, or nothing.
recv_cases :
    (payload : List ℕ) (size : ℕ) (st : Arp)
    → ((arp_etherframe_recv payload size st).0 ≡ st)
      ⊎ ((ip : ℕ) × (mac : ℕ) × ((arp_etherframe_recv payload size st).0
            ≡ add_cache_entry ip mac st))
unfolding arp_etherframe_recv
recv_cases payload size st = elim (Bool-cases (ltb size 28)) [
  | inl short ↦ inl (rw short)
  | inr long ↦ elim (Bool-cases (for_us payload st)) [
    | inr other ↦ inl (rw (long, other))
    | inl ours ↦ elim (Bool-cases (load16 payload 6 == 0x0100)) [
      | inl request ↦ inl (rw (long, ours, request))
      | inr no_request ↦ elim (Bool-cases (load16 payload 6 == 0x0200)) [
        | inl response ↦
            inr (load32 payload 14, load48 payload 8, rw (long, ours, no_request, response))
        | inr neither ↦ inl (rw (long, ours, no_request, neither))
      ]
    ]
  ]
]

-- Whatever the message, `arp_etherframe_recv` keeps the cache within its 128 places, and the
-- addresses of the driver as they are.
pub arp_etherframe_recv-IsCache :
    (payload : List ℕ) (size : ℕ) (st : Arp)
    → IsCache st
    → IsCache (arp_etherframe_recv payload size st).0
      × ((arp_etherframe_recv payload size st).0.driver_ip ≡ st.driver_ip)
      × ((arp_etherframe_recv payload size st).0.driver_mac ≡ st.driver_mac)
arp_etherframe_recv-IsCache payload size st c = elim (recv_cases payload size st) [
  | inl same ↦ rw same (c, refl, refl)
  | inr (ip, mac, e) ↦
      let (p, q) = driver_same ip mac in rw e (add_cache_entry-IsCache ip mac st c, p, q)
]
  where
    driver_same :
        (ip mac : ℕ)
        → ((add_cache_entry ip mac st).driver_ip ≡ st.driver_ip)
          × ((add_cache_entry ip mac st).driver_mac ≡ st.driver_mac)
    driver_same ip mac =
        unfold add_cache_entry in
        (elim (Bool-cases (ltb st.num_cache_entry 128)) [
          | inl room ↦ rw room (refl, refl)
          | inr full ↦ rw full (refl, refl)
        ])

-- The entries from the place `i` on.
unfoldable pub entries : (count i : ℕ) → Arp → List (ℕ × ℕ)
entries zero i st = []
entries (suc count) i st =
    (get_or st.ip_cache i 0, get_or st.mac_cache i 0) ∷ entries count (i + 1) st

-- The first entry for an address, or the broadcast address.
unfoldable pub find : ℕ → List (ℕ × ℕ) → ℕ
find ip [] = broadcast_mac
find ip ((k, mac) ∷ es) = let rest = find ip es in if k == ip then mac else rest

-- No entry is for the address.
abbrev pub Lacks : ℕ → List (ℕ × ℕ) → Type 0
Lacks ip [] = Unit
Lacks ip ((k, mac) ∷ es) = (k ≢ ip) × Lacks ip es

cache_loop-find :
    (count i ip : ℕ) (st : Arp) → cache_loop count i ip st ≡ find ip (entries count i st)
unfolding cache_loop find entries
cache_loop-find zero i ip st = refl
cache_loop-find (suc count) i ip st = rw (cache_loop-find count (i + 1) ip st)

-- What the arrays hold at a place after an entry has been added.
added_ip :
    (ip mac : ℕ) (st : Arp) (j : ℕ)
    → IsCache st
    → st.num_cache_entry < 128
    → (get_or (add_cache_entry ip mac st).ip_cache j 0
        ≡ (if st.num_cache_entry == j then ip else get_or st.ip_cache j 0))
      × (get_or (add_cache_entry ip mac st).mac_cache j 0
          ≡ (if st.num_cache_entry == j then mac else get_or st.mac_cache j 0))
unfolding add_cache_entry
added_ip ip mac st j c small =
    let room : ltb st.num_cache_entry 128 ≡ true = ground (arith, small) in
    rw room (
      get_or-set st.ip_cache st.num_cache_entry j ip 0 (omega (arith, small, c.ip_places)),
      get_or-set st.mac_cache st.num_cache_entry j mac 0 (omega (arith, small, c.mac_places)),
    )

entries-add :
    (count i ip mac : ℕ) (st : Arp)
    → IsCache st
    → st.num_cache_entry < 128
    → i + count ≡ st.num_cache_entry
    → entries (count + 1) i (add_cache_entry ip mac st) ≡ entries count i st ++ (ip, mac) ∷ []
unfolding entries
entries-add zero i ip mac st c small here =
    let (a, b) = added_ip ip mac st i c small in
    let last : (st.num_cache_entry == i) ≡ true = ground (arith, here) in rw (a, b, last)
entries-add (suc count) i ip mac st c small here =
    let (a, b) = added_ip ip mac st i c small in
    let earlier : (st.num_cache_entry == i) ≡ false = ground (arith, here) in
    let more : suc count + 1 ≡ suc (count + 1) = omega arith in
    rw (more, a, b, earlier, entries-add count (i + 1) ip mac st c small (omega (arith, here)))

find-append :
    (ip : ℕ) (es : List (ℕ × ℕ)) (k mac : ℕ)
    → Lacks ip es
    → find ip (es ++ (k, mac) ∷ []) ≡ (if k == ip then mac else broadcast_mac)
unfolding find
find-append ip [] k mac lacks = refl
find-append ip ((j, m) ∷ es) k mac lacks =
    let other : (j == ip) ≡ false = ground (arith, lacks.0) in
    rw other (find-append ip es k mac lacks.1)

-- An address that the cache does not hold is found once it has been added.
pub arp_get_mac_from_cache-add :
    (ip mac : ℕ) (st : Arp)
    → IsCache st
    → st.num_cache_entry < 128
    → Lacks ip (entries st.num_cache_entry 0 st)
    → arp_get_mac_from_cache ip (add_cache_entry ip mac st) ≡ mac
unfolding arp_get_mac_from_cache add_cache_entry
arp_get_mac_from_cache-add ip mac st c small lacks =
    let room : ltb st.num_cache_entry 128 ≡ true = ground (arith, small) in
    let count : (add_cache_entry ip mac st).num_cache_entry ≡ st.num_cache_entry + 1 =
      unfold add_cache_entry in rw room in
    let self : (ip == ip) ≡ true = ground arith in
    rw count (
      cache_loop-find (st.num_cache_entry + 1) 0 ip (add_cache_entry ip mac st)
      ∙ rw (
        entries-add st.num_cache_entry 0 ip mac st c small (omega arith),
        find-append ip (entries st.num_cache_entry 0 st) ip mac lacks,
        self,
      ))
