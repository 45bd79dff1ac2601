-- ===== src/Net/Icmp.antt =====
-- mckrnl/net/icmp.c: echo requests and replies. A message is its 8 bytes; what `ipv4_send` does with it
-- is modelled in Net/Ipv4.antt.
use goofy_micro_os.Prelude.{
  zero, suc, ◌+◌, ◌/◌, ◌%◌, ◌≤◌, ◌≢◌, length, replicate, ℕ, ◌<◌, ◌≡◌, refl, Bool, true, false,
  Option, none, some, List, [], ◌∷◌, ◌++◌, ltb, ◌==◌, if◌then◌else◌, arith,
}
use goofy_micro_os.Net.Wire.{byte_at, store16, store32}
use goofy_micro_os.Net.Checksum.{ipv4_checksum, ipv4_checksum-verifies, word_sum, IsEven}

abbrev pub sizeof_icmp_message : ℕ
sizeof_icmp_message = 8

-- `icmp_provider_t`, but for its handler.
pub record Icmp : Type 0 where
  pub last_echo_reply_ip : ℕ

unfoldable pub icmp_init : Icmp
icmp_init = record { last_echo_reply_ip = 0 }

-- A message with its checksum filled in.
unfoldable pub icmp_message : (type code : ℕ) (info : List ℕ) → List ℕ
icmp_message type code info =
    type ∷ code ∷ (store16 (ipv4_checksum (type ∷ code ∷ (0 ∷ 0 ∷ info))) ++ info)

-- A call of `ipv4_send`: the address and the message.
abbrev pub SentTo : Type 0
SentTo = ℕ × List ℕ

unfoldable pub icmp_send_echo_request : (ip : ℕ) → SentTo
icmp_send_echo_request ip = (ip, icmp_message 8 0 (store32 0x3713))

-- The new state and what is sent; `none` is `abortf`. The answer is made of the first 8 bytes of the
-- request.
unfoldable pub icmp_ipv4_recv :
    (src_ip : ℕ) (payload : List ℕ) (size : ℕ) → Icmp → Option (Icmp × Option SentTo)
icmp_ipv4_recv src_ip payload size st =
    let type = byte_at payload 0 in
    let info = byte_at payload 4 ∷ byte_at payload 5 ∷ byte_at payload 6 ∷ byte_at payload 7 ∷ [] in
    if ltb size sizeof_icmp_message
    then some (st, none)
    else if type == 0
    then some (record { last_echo_reply_ip = src_ip }, none)
    else if type == 8
    then some (st, some (src_ip, icmp_message 0 (byte_at payload 1) info))
    else if type == 3
    then some (st, none)
    else none

-- The loop of `NET_TIMEOUT` in `icmp_send_echo_reqest_and_wait`, over the states that it finds.
unfoldable pub echo_wait : (ip : ℕ) → List Icmp → Bool
echo_wait ip [] = false
echo_wait ip (st ∷ polls) =
    let rest = echo_wait ip polls in if st.last_echo_reply_ip == ip then true else rest

-- The state before the wait, what is sent, and the result.
unfoldable pub icmp_send_echo_reqest_and_wait :
    (ip : ℕ) (polls : List Icmp) → Icmp → Icmp × SentTo × Bool
icmp_send_echo_reqest_and_wait ip polls st =
    (record st { last_echo_reply_ip = 0 }, icmp_send_echo_request ip, echo_wait ip polls)

-- A message with bytes in its fields has the checksum 0 as a whole, which is how a receiver verifies
-- it.
pub icmp_message-verifies :
    (type code a b c d : ℕ)
    → type < 256
    → code < 256
    → a < 256
    → b < 256
    → c < 256
    → d < 256
    → ipv4_checksum (icmp_message type code (a ∷ b ∷ c ∷ d ∷ [])) ≡ 0
unfolding icmp_message word_sum IsEven
icmp_message-verifies type code a b c d ht hc ha hb hc' hd =
    ipv4_checksum-verifies (type ∷ code ∷ []) (a ∷ b ∷ c ∷ d ∷ []) tt tt (omega arith)

echo_wait-quiet :
    (ip n : ℕ) (st : Icmp) → st.last_echo_reply_ip ≢ ip → echo_wait ip (replicate n st) ≡ false
unfolding echo_wait
echo_wait-quiet ip zero st h = refl
echo_wait-quiet ip (suc n) st h =
    let other : (st.last_echo_reply_ip == ip) ≡ false = ground (arith, h) in
    rw (other, echo_wait-quiet ip n st h) refl

echo_wait-replied :
    (ip n : ℕ) (st replied : Icmp) (polls : List Icmp)
    → replied.last_echo_reply_ip ≡ ip
    → echo_wait ip (replicate n st ++ replied ∷ polls) ≡ true
unfolding echo_wait
echo_wait-replied ip zero st replied polls h =
    let same : (replied.last_echo_reply_ip == ip) ≡ true = ground (arith, h) in rw same refl
echo_wait-replied ip (suc n) st replied polls h =
    rw (echo_wait-replied ip n st replied polls h) (ground arith)

-- An echo request of bytes is answered, at any host, with a reply of the same code and the same four
-- bytes of identifier and sequence number, whose checksum is 0 as a whole.
pub icmp_echo :
    (asker code k0 k1 a b c d : ℕ) (more : List ℕ) (there : Icmp)
    → code < 256
    → a < 256
    → b < 256
    → c < 256
    → d < 256
    → (x : ℕ) × (y : ℕ) × (icmp_ipv4_recv asker
          (8 ∷ code ∷ k0 ∷ k1 ∷ a ∷ b ∷ c ∷ d ∷ more)
          (8 + length more)
          there
        ≡ some (there, some (asker, 0 ∷ code ∷ x ∷ y ∷ a ∷ b ∷ c ∷ d ∷ [])))
      × (ipv4_checksum (0 ∷ code ∷ x ∷ y ∷ a ∷ b ∷ c ∷ d ∷ []) ≡ 0)
unfolding icmp_ipv4_recv icmp_message
icmp_echo asker code k0 k1 a b c d more there hc ha hb hc' hd =
    let sum : ℕ = ipv4_checksum (0 ∷ code ∷ 0 ∷ 0 ∷ a ∷ b ∷ c ∷ d ∷ []) in
    let long : ltb (8 + length more) 8 ≡ false = ground arith in
    (
      sum % 256,
      sum / 256 % 256,
      rw long refl,
      icmp_message-verifies 0 code a b c d (omega arith) hc ha hb hc' hd,
    )

-- `icmp_send_echo_reqest_and_wait` for an address other than 0, whatever address the last reply came
-- from before: it fails when none of its polls finds a reply, and succeeds once a poll finds what
-- the receipt of a reply from the address leaves.
pub icmp_wait-replied :
    (ip n : ℕ) (more : List ℕ) (st : Icmp) (polls : List Icmp)
    → ip ≢ 0
    → 7 ≤ length more
    → ((icmp_send_echo_reqest_and_wait ip
          (replicate n (icmp_send_echo_reqest_and_wait ip [] st).0)
          st).2
        ≡ false)
      × (replied : Icmp) × (icmp_ipv4_recv ip
            (0 ∷ more)
            (length (0 ∷ more))
            (icmp_send_echo_reqest_and_wait ip [] st).0
          ≡ some (replied, none))
      × ((icmp_send_echo_reqest_and_wait ip
            (replicate n (icmp_send_echo_reqest_and_wait ip [] st).0 ++ replied ∷ polls)
            st).2
          ≡ true)
unfolding icmp_ipv4_recv icmp_send_echo_reqest_and_wait
icmp_wait-replied ip n more st polls nonzero enough =
    let waiting : Icmp = record st { last_echo_reply_ip = 0 } in
    let long : ltb (suc (length more)) 8 ≡ false = ground (arith, enough) in
    (
      echo_wait-quiet ip n waiting (λ e. nonzero (cc e)),
      record { last_echo_reply_ip = ip },
      rw long refl,
      echo_wait-replied ip n waiting (record { last_echo_reply_ip = ip }) polls refl,
    )
