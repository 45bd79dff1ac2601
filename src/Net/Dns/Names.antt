-- ===== src/Net/Dns/Names.antt =====
-- The names of mckrnl/net/dns.c as labels: what is written for a domain.
use goofy_micro_os.Prelude.{
  ℕ, zero, suc, ◌+◌, ◌%◌, ◌<◌, ◌≡◌, ◌≢◌, refl, sym, ap, ◌∙◌, true, false, ◌||◌, some, List, [], ◌∷◌,
  ◌++◌, append_assoc, ltb, ◌==◌, length, take, replicate, length-append, set-past, arith,
}
use goofy_micro_os.Text.{Bytes}
use goofy_micro_os.Text.Copy.{NoNul, strlen-length}
use goofy_micro_os.Net.Dns.{poke, encode_loop, dns_resolv_domain_to_hostname}

-- Labels, each with the byte behind it: a dot, or the terminator.
abbrev pub Labels : Type 0
Labels = List (Bytes × ℕ)

-- No byte of a label ends it.
abbrev pub IsLabel : Bytes → Type 0
IsLabel [] = Unit
IsLabel (c ∷ cs) = (c ≢ 46) × (c ≢ 0) × IsLabel cs

abbrev pub AreLabels : Labels → Type 0
AreLabels [] = Unit
AreLabels ((label, sep) ∷ ws) =
    IsLabel label × (length label < 256) × ((sep == 46 || sep == 0) ≡ true) × AreLabels ws

-- The labels as they stand in a domain, and in a message.
abbrev pub spelled : Labels → Bytes
spelled [] = []
spelled ((label, sep) ∷ ws) = label ++ sep ∷ spelled ws

abbrev pub encoded : Labels → Bytes
encoded [] = []
encoded ((label, sep) ∷ ws) = length label ∷ (label ++ encoded ws)

length-encoded : (ws : Labels) → length (encoded ws) ≡ length (spelled ws)
length-encoded [] = refl
length-encoded ((label, sep) ∷ ws) = omega (
  arith,
  length-encoded ws,
  length-append label (encoded ws),
  length-append label (sep ∷ spelled ws),
)

poke-past :
    (front : Bytes) (x : ℕ) (back : Bytes) (i v : ℕ)
    → i ≡ length front
    → poke (front ++ x ∷ back) i v ≡ some (front ++ v ∷ back)
unfolding poke
poke-past front x back i v h =
    let inside : ltb i (length (front ++ x ∷ back)) ≡ true =
      ground (arith, h, length-append front (x ∷ back)) in
    rw (inside, set-past front x back i v h) refl

-- The bytes of a label go behind the place that is kept for its length.
letters :
    (label front seen rest tail : Bytes) (x lbl dst_pos curr_len : ℕ)
    → IsLabel label
    → lbl ≡ length front
    → dst_pos ≡ length front + 1 + length seen
    → curr_len + length label < 256
    → encode_loop
        (label ++ tail)
        lbl
        dst_pos
        curr_len
        (front ++ x ∷ (seen ++ (replicate (length label) 0 ++ rest)))
      ≡ encode_loop tail lbl
          (dst_pos + length label)
          (curr_len + length label)
          (front ++ x ∷ (seen ++ (label ++ rest)))
unfolding encode_loop
letters [] front seen rest tail x lbl dst_pos curr_len l hl hd small =
    let a : dst_pos + 0 ≡ dst_pos = omega arith in
    let b : curr_len + 0 ≡ curr_len = omega arith in rw (a, b) refl
letters (c ∷ cs) front seen rest tail x lbl dst_pos curr_len (no_dot, no_nul, l) hl hd small =
    let plain : (c == 46 || c == 0) ≡ false = ground (arith, no_dot, no_nul) in
    let grown : (curr_len + 1) % 256 ≡ curr_len + 1 = omega (arith, small) in
    let at : dst_pos ≡ length (front ++ x ∷ seen) =
      omega (arith, hd, length-append front (x ∷ seen)) in
    let back : Bytes = replicate (length cs) 0 ++ rest in
    let split : (b : Bytes) → front ++ x ∷ (seen ++ b) ≡ (front ++ x ∷ seen) ++ b =
      λ b. sym (append_assoc front (x ∷ seen) b) in
    let step : (b : Bytes) → seen ++ c ∷ b ≡ (seen ++ c ∷ []) ++ b =
      λ b. sym (append_assoc seen (c ∷ []) b) in
    let a : dst_pos + 1 + length cs ≡ dst_pos + suc (length cs) = omega arith in
    let b : curr_len + 1 + length cs ≡ curr_len + suc (length cs) = omega arith in
    rw (plain, split (0 ∷ back), poke-past (front ++ x ∷ seen) 0 back dst_pos c at)
      (rw
        (
          grown,
          append_assoc front (x ∷ seen) (c ∷ back),
          step back,
          letters cs front (seen ++ c ∷ []) rest tail x lbl (dst_pos + 1) (curr_len + 1) l hl
              (omega (arith, hd, length-append seen (c ∷ []))) (omega (arith, small)),
          a,
          b,
          step (cs ++ rest),
        )
        refl)

zeroes-split :
    (a b : ℕ) (rest : Bytes)
    → replicate (a + suc b) 0 ++ rest ≡ 0 ∷ (replicate a 0 ++ (replicate b 0 ++ rest))
zeroes-split zero b rest = let same : 0 + suc b ≡ suc b = omega arith in rw same refl
zeroes-split (suc a) b rest =
    let same : suc a + suc b ≡ suc (a + suc b) = omega arith in
    rw (same, zeroes-split a b rest) refl

-- In a cleared buffer, the loop writes the labels and leaves the place behind them.
encode_loop-encoded :
    (ws : Labels) (front rest : Bytes) (lbl dst_pos : ℕ)
    → AreLabels ws
    → lbl ≡ length front
    → dst_pos ≡ length front + 1
    → encode_loop
        (spelled ws)
        lbl
        dst_pos
        0
        (front ++ (replicate (length (spelled ws)) 0 ++ 0 ∷ rest))
      ≡ some (dst_pos + length (spelled ws), front ++ (encoded ws ++ 0 ∷ rest))
unfolding encode_loop
encode_loop-encoded [] front rest lbl dst_pos l hl hd =
    let a : dst_pos + 0 ≡ dst_pos = omega arith in rw a refl
encode_loop-encoded ((label, sep) ∷ ws) front rest lbl dst_pos (l, small, ends, ls) hl hd =
    let n : ℕ = length label in
    let back : Bytes = replicate (length (spelled ws)) 0 ++ 0 ∷ rest in
    let whole : length (label ++ sep ∷ spelled ws) ≡ n + suc (length (spelled ws)) =
      length-append label (sep ∷ spelled ws) in
    let split : (b : Bytes) → front ++ n ∷ (label ++ b) ≡ (front ++ n ∷ label) ++ b =
      λ b. sym (append_assoc front (n ∷ label) b) in
    let e : dst_pos + n + 1 + length (spelled ws) ≡ dst_pos + (n + suc (length (spelled ws))) =
      omega arith in
    let z : 0 + n ≡ n = omega arith in
    rw
      (
        whole,
        zeroes-split n (length (spelled ws)) (0 ∷ rest),
        letters label front [] back (sep ∷ spelled ws) 0 lbl dst_pos 0 l hl (omega (arith, hd))
            (omega (arith, small)),
        z,
      )
      (rw (ends, poke-past front 0 (label ++ back) lbl n hl, split back)
        (rw
          (
            encode_loop-encoded ws (front ++ n ∷ label) rest (dst_pos + n) (dst_pos + n + 1) ls
                (omega (arith, hd, length-append front (n ∷ label)))
                (omega (arith, hd, length-append front (n ∷ label))),
            e,
            append_assoc front (n ∷ label) (encoded ws ++ 0 ∷ rest),
            append_assoc label (encoded ws) (0 ∷ rest),
          )
          refl))

-- A domain of several labels, and what is written for it.
abbrev pub domain : List Bytes → Bytes → Bytes
domain [] last = last
domain (label ∷ labels) last = label ++ 46 ∷ domain labels last

abbrev pub words : List Bytes → Bytes → Labels
words [] last = (last, 0) ∷ []
words (label ∷ labels) last = (label, 46) ∷ words labels last

abbrev pub IsDomain : List Bytes → Bytes → Type 0
IsDomain [] last = IsLabel last × (length last < 256)
IsDomain (label ∷ labels) last = IsLabel label × (length label < 256) × IsDomain labels last

words-AreLabels :
    (labels : List Bytes) (last : Bytes) → IsDomain labels last → AreLabels (words labels last)
words-AreLabels [] last d = (d.0, d.1, refl, tt)
words-AreLabels (label ∷ labels) last d = (d.0, d.1, refl, words-AreLabels labels last d.2)

spelled-words :
    (labels : List Bytes) (last : Bytes)
    → spelled (words labels last) ≡ domain labels last ++ 0 ∷ []
spelled-words [] last = refl
spelled-words (label ∷ labels) last =
    rw (spelled-words labels last, append_assoc label (46 ∷ domain labels last) (0 ∷ [])) refl

NoNul-label : (label back : Bytes) → IsLabel label → NoNul back → NoNul (label ++ back)
NoNul-label [] back l b = b
NoNul-label (c ∷ cs) back l b = (omega (arith, l.1), NoNul-label cs back l.2 b)

domain-NoNul :
    (labels : List Bytes) (last : Bytes) → IsDomain labels last → NoNul (domain labels last)
domain-NoNul [] last d = plain last d.0
  where
    plain : (label : Bytes) → IsLabel label → NoNul label
    plain [] l = tt
    plain (c ∷ cs) l = (omega (arith, l.1), plain cs l.2)
domain-NoNul (label ∷ labels) last d =
    NoNul-label label (46 ∷ domain labels last) d.0 (omega arith, domain-NoNul labels last d.2)

-- When each label of a domain is shorter than 256 bytes and holds neither a dot nor a zero,
-- `dns_resolv_domain_to_hostname` writes each label behind its length and a zero behind the last,
-- in a buffer that is cleared for two bytes more than the domain with its terminator.
pub dns_resolv_domain_to_hostname-encoded :
    (labels : List Bytes) (last behind rest : Bytes)
    → IsDomain labels last
    → dns_resolv_domain_to_hostname
        (replicate (length (domain labels last) + 1) 0 ++ 0 ∷ (0 ∷ rest))
        (domain labels last ++ 0 ∷ behind)
      ≡ some (encoded (words labels last) ++ 0 ∷ (0 ∷ rest))
unfolding dns_resolv_domain_to_hostname
dns_resolv_domain_to_hostname-encoded labels last behind rest d =
    let name : Bytes = domain labels last in
    let ws : Labels = words labels last in
    let whole : length (spelled ws) ≡ length name + 1 =
      ap length (spelled-words labels last) ∙ length-append name (0 ∷ []) in
    let taken : take (length name + 1) (name ++ 0 ∷ behind) ≡ spelled ws =
      take_past name behind ∙ sym (spelled-words labels last) in
    let looped =
      encode_loop-encoded ws [] (0 ∷ rest) 0 1 (words-AreLabels labels last d) (omega arith)
        (omega arith) in
    rw (strlen-length name behind (domain-NoNul labels last d), taken, sym whole, looped)
      (rw
        (
          sym (append_assoc (encoded ws) (0 ∷ []) (0 ∷ rest)),
          poke-past (encoded ws ++ 0 ∷ []) 0 rest (1 + length (spelled ws)) 0
              (omega (arith, length-encoded ws, length-append (encoded ws) (0 ∷ []))),
        )
        refl)
  where
    take_past : (cs bs : Bytes) → take (length cs + 1) (cs ++ 0 ∷ bs) ≡ cs ++ 0 ∷ []
    take_past [] bs = refl
    take_past (c ∷ cs) bs =
        let same : suc (length cs) + 1 ≡ suc (length cs + 1) = omega arith in
        rw (same, take_past cs bs) refl
