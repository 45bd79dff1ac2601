-- ===== src/Net/Dns/Walk.antt =====
-- The walk of mckrnl/net/dns.c over a name: where it ends, and that a pointer may keep it from ending.
use goofy_micro_os.Prelude.{
  Bool, ℕ, zero, suc, ◌+◌, ◌*◌, ◌-◌, ◌<◌, ◌≡◌, refl, sym, true, false, [], ◌∷◌, ◌++◌, append_assoc,
  ltb, leb, ◌==◌, length, get_or, length-append, get_or-past, arith,
}
use goofy_micro_os.Text.{Bytes}
use goofy_micro_os.Net.Dns.{skipped, out_of_fuel, skip_loop, dns_resolv_skip_name}
use goofy_micro_os.Net.Dns.Names.{Labels, encoded}

-- No byte ends a name or begins a pointer.
abbrev pub ArePlain : Bytes → Type 0
ArePlain [] = Unit
ArePlain (b ∷ bs) = (0 < b) × (b < 192) × ArePlain bs

abbrev pub PlainLabels : Labels → Type 0
PlainLabels [] = Unit
PlainLabels ((label, sep) ∷ ws) =
    (0 < length label) × (length label < 192) × ArePlain label × PlainLabels ws

ArePlain-append : (a b : Bytes) → ArePlain a → ArePlain b → ArePlain (a ++ b)
ArePlain-append [] b p q = q
ArePlain-append (c ∷ a) b p q = (p.0, p.1, ArePlain-append a b p.2 q)

encoded-ArePlain : (ws : Labels) → PlainLabels ws → ArePlain (encoded ws)
encoded-ArePlain [] p = tt
encoded-ArePlain ((label, sep) ∷ ws) p =
    (p.0, p.1, ArePlain-append label (encoded ws) p.2 (encoded-ArePlain ws p.3))

skip_loop-plain :
    (bs front rest : Bytes) (reader count : ℕ)
    → ArePlain bs
    → reader ≡ length front
    → skip_loop (suc (length bs)) (front ++ (bs ++ 0 ∷ rest)) reader false count
      ≡ skipped (count + length bs)
unfolding skip_loop
skip_loop-plain [] front rest reader count p h =
    let inside : leb (length (front ++ 0 ∷ rest)) reader ≡ false =
      ground (arith, h, length-append front (0 ∷ rest)) in
    let z : count + 0 ≡ count = omega arith in
    rw (inside, get_or-past front 0 rest reader 0 h, z) refl
skip_loop-plain (b ∷ bs) front rest reader count p h =
    let back : Bytes = bs ++ 0 ∷ rest in
    let inside : leb (length (front ++ b ∷ back)) reader ≡ false =
      ground (arith, h, length-append front (b ∷ back)) in
    let not_end : (b == 0) ≡ false = ground (arith, p.0) in
    let plain : ltb b 192 ≡ true = ground (arith, p.1) in
    let e : count + 1 + length bs ≡ count + suc (length bs) = omega arith in
    let next : skip_loop (suc (length bs)) (front ++ b ∷ back) (reader + 1) false (count + 1)
        ≡ skipped (count + suc (length bs)) =
      rw (sym (append_assoc front (b ∷ []) back), ← e)
        (skip_loop-plain bs (front ++ b ∷ []) rest (reader + 1) (count + 1) p.2
          (omega (arith, h, length-append front (b ∷ [])))) in
    rw (inside, get_or-past front b back reader 0 h, not_end, plain) next

-- A name without pointers is skipped with its zero, wherever it stands in a message, when its
-- labels are not empty and neither their lengths nor their bytes are zero or from 192 on.
pub dns_resolv_skip_name-encoded :
    (ws : Labels) (front rest : Bytes)
    → PlainLabels ws
    → dns_resolv_skip_name
        (suc (length (encoded ws)))
        (length front)
        (front ++ (encoded ws ++ 0 ∷ rest))
      ≡ skipped (1 + length (encoded ws))
unfolding dns_resolv_skip_name
dns_resolv_skip_name-encoded ws front rest p =
    skip_loop-plain (encoded ws) front rest (length front) 1 (encoded-ArePlain ws p) refl

around :
    (fuel : ℕ) (front rest : Bytes) (jumped : Bool) (count : ℕ)
    → skip_loop fuel (front ++ 192 ∷ (length front ∷ rest)) (length front) jumped count
      ≡ out_of_fuel
unfolding skip_loop
around zero front rest jumped count = refl
around (suc fuel) front rest jumped count =
    let long = length-append front (192 ∷ (length front ∷ rest)) in
    let inside : leb (length (front ++ 192 ∷ (length front ∷ rest))) (length front) ≡ false =
      ground (arith, long) in
    let inside_low : leb (length (front ++ 192 ∷ (length front ∷ rest))) (length front + 1)
        ≡ false =
      ground (arith, long) in
    let low : get_or (front ++ 192 ∷ (length front ∷ rest)) (length front + 1) 0 ≡ length front =
      rw (sym (append_assoc front (192 ∷ []) (length front ∷ rest))) (
        get_or-past (front ++ 192 ∷ []) (length front) rest (length front + 1) 0
          (sym (length-append front (192 ∷ [])))) in
    let here : 192 * 256 + length front - 49152 ≡ length front = omega arith in
    rw
      (
        inside,
        get_or-past front 192 (length front ∷ rest) (length front) 0 refl,
        inside_low,
        low,
        here,
      )
      (around fuel front rest true count)

-- A pointer to itself, at one of the first 256 bytes of a message, is followed without end: no number
-- of rounds is enough.
pub dns_resolv_skip_name-diverges :
    (fuel : ℕ) (front rest : Bytes)
    → length front < 256
    → dns_resolv_skip_name fuel (length front) (front ++ 192 ∷ (length front ∷ rest)) ≡ out_of_fuel
unfolding dns_resolv_skip_name
dns_resolv_skip_name-diverges fuel front rest small = around fuel front rest false 1
