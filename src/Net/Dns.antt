-- ===== src/Net/Dns.antt =====
-- mckrnl/net/dns.c: the names in a message. A name is written as labels behind their lengths, or, as a
-- whole or in part, as a pointer into the message.
use goofy_micro_os.Prelude.{
  ℕ, zero, suc, ◌+◌, ◌-◌, ◌*◌, ◌%◌, Bool, true, false, ◌||◌, Option, none, some, List, [], ◌∷◌, ltb,
  leb, ◌==◌, if◌then◌else◌, length, take, set, get_or,
}
use goofy_micro_os.Prelude.Options.{◌>>=◌}
use goofy_micro_os.Text.{Bytes, strlen}
pub mod Names
pub mod Walk
mod Tests

-- A write to an array, within it.
unfoldable pub poke : Bytes → ℕ → ℕ → Option Bytes
poke dst i value = if ltb i (length dst) then some (set dst i value) else none

-- The loop of `dns_resolv_domain_to_hostname` over the bytes of the domain with its terminator:
-- `lbl` and `dst_pos` as indices, `curr_len` as a `uint8_t`.
unfoldable pub encode_loop : Bytes → (lbl dst_pos curr_len : ℕ) → Bytes → Option (ℕ × Bytes)
encode_loop [] lbl dst_pos curr_len dst = some (dst_pos, dst)
encode_loop (c ∷ cs) lbl dst_pos curr_len dst =
    let ends = c == 46 || c == 0 in
    poke dst (if ends then lbl else dst_pos) (if ends then curr_len else c) >>= λ written.
    encode_loop cs (if ends then dst_pos else lbl) (dst_pos + 1)
      (if ends then 0 else (curr_len + 1) % 256) written

unfoldable pub dns_resolv_domain_to_hostname : (dst_hostname src_domain : Bytes) → Option Bytes
dns_resolv_domain_to_hostname dst_hostname src_domain = strlen src_domain >>= λ n.
    encode_loop (take (n + 1) src_domain) 0 1 0 dst_hostname >>= λ (dst_pos, dst).
    poke dst dst_pos 0

-- How the walk over a name ends.
pub data Skip : Type 0 where
  skipped : ℕ → Skip
  past_end : Skip
  out_of_fuel : Skip

-- The loop of `dns_resolv_skip_name`: `reader` is an index into the message.
unfoldable pub skip_loop :
    (fuel : ℕ) (buffer : Bytes) (reader : ℕ) (jumped : Bool) (count : ℕ) → Skip
skip_loop zero buffer reader jumped count = out_of_fuel
skip_loop (suc fuel) buffer reader jumped count =
    let b = get_or buffer reader 0 in
    let low = get_or buffer (reader + 1) 0 in
    let pointed = skip_loop fuel buffer (b * 256 + low - 49152) true count in
    let onward = skip_loop fuel buffer (reader + 1) jumped (if jumped then count else count + 1) in
    if leb (length buffer) reader
    then past_end
    else if b == 0
    then skipped (if jumped then count + 1 else count)
    else if ltb b 192
    then onward
    else if leb (length buffer) (reader + 1)
    then past_end
    else pointed

unfoldable pub dns_resolv_skip_name : (fuel reader : ℕ) (buffer : Bytes) → Skip
dns_resolv_skip_name fuel reader buffer = skip_loop fuel buffer reader false 1
