-- ===== src/Net/Checksum.antt =====
-- `ipv4_checksum` of mckrnl/net/ipv4.c: the one's-complement sum of the big-endian words.
use goofy_micro_os.Prelude.{
  ℕ, zero, suc, ◌+◌, ◌-◌, ◌*◌, ◌/◌, ◌%◌, ◌^◌, ◌≤◌, ◌<◌, ◌≡◌, refl, ◌∙◌, inl, inr, Bool-cases,
  Option, none, some, List, [], ◌∷◌, ◌++◌, arith, ltb, ◌==◌, if◌then◌else◌,
}
use goofy_micro_os.Net.Wire.{bswap16, store16}

-- `((uint16_t) (char) b) << 8`: the byte is sign-extended before it is shifted.
abbrev pub odd_byte : ℕ → ℕ
odd_byte b = if ltb b 128 then b * 256 else (0xff00 + b) * 256

-- The two additions to `temp`, in order.
unfoldable pub sum_words : List ℕ → ℕ → ℕ
sum_words [] temp = temp
sum_words (b ∷ []) temp = (temp + odd_byte b) % 2 ^ 32
sum_words (a ∷ b ∷ bytes) temp = sum_words bytes ((temp + (a * 256 + b)) % 2 ^ 32)

-- `while (temp & 0xFFFF0000) temp = (temp & 0xFFFF) + (temp >> 16);`
unfoldable pub fold_carries : ℕ → ℕ → Option ℕ
fold_carries zero temp = none
fold_carries (suc fuel) temp =
    let rest = fold_carries fuel (temp % 65536 + temp / 65536) in
    if temp / 65536 == 0 then some temp else rest

-- Three rounds are enough (`fold_carries_lem`).
abbrev pub fold_fuel : ℕ
fold_fuel = 3

abbrev or_zero : Option ℕ → ℕ
or_zero none = 0
or_zero (some t) = t

unfoldable pub ipv4_checksum : List ℕ → ℕ
ipv4_checksum bytes = bswap16 (0xffff - or_zero (fold_carries fold_fuel (sum_words bytes 0)))

-- The loop over the carries ends for every 32-bit sum; the result has 16 bits, is zero only for a
-- zero sum, and is the same modulo 65535.
pub fold_carries_lem :
    (temp : ℕ)
    → temp < 2 ^ 32
    → (r : ℕ) × (fold_carries fold_fuel temp ≡ some r)
      × (r < 65536)
      × (r % 65535 ≡ temp % 65535)
      × (r ≤ temp)
      × (0 < temp → 0 < r)
unfolding fold_carries
fold_carries_lem temp h = elim (Bool-cases (temp / 65536 == 0)) [
  | inl small ↦ (temp, ground arith, ground arith, refl, omega arith, λ p. p)
  | inr big ↦
      let t1 = temp % 65536 + temp / 65536 in
      let same : t1 % 65535 ≡ temp % 65535 = omega arith in
      elim (Bool-cases (t1 / 65536 == 0)) [
        | inl small ↦ (t1, ground arith, ground arith, same, omega arith, λ p. ground arith)
        | inr big1 ↦
            let t2 = t1 % 65536 + t1 / 65536 in
            let bound : t2 < 65536 = ground arith in
            (t2, ground arith, bound, omega (arith, same), omega arith, λ p. ground arith)
      ]
]

-- What the words of a list of bytes add up to, with no bound.
unfoldable pub word_sum : List ℕ → ℕ
word_sum [] = 0
word_sum (b ∷ []) = b * 256
word_sum (a ∷ b ∷ bytes) = a * 256 + b + word_sum bytes

-- The list pairs off.
unfoldable pub IsEven : List ℕ → Type 0
IsEven [] = Unit
IsEven (b ∷ []) = ⊥
IsEven (a ∷ b ∷ bytes) = IsEven bytes

word_sum-append : (xs ys : List ℕ) → IsEven xs → word_sum (xs ++ ys) ≡ word_sum xs + word_sum ys
unfolding word_sum IsEven
word_sum-append [] ys h = omega arith
word_sum-append (b ∷ []) ys h = absurd h
word_sum-append (a ∷ b ∷ xs) ys h = omega (arith, word_sum-append xs ys h)

IsEven-append : (xs ys : List ℕ) → IsEven xs → IsEven ys → IsEven (xs ++ ys)
unfolding IsEven
IsEven-append [] ys h k = k
IsEven-append (b ∷ []) ys h k = absurd h
IsEven-append (a ∷ b ∷ xs) ys h k = IsEven-append xs ys h k

sum_words-add :
    (bytes : List ℕ) (temp : ℕ)
    → IsEven bytes
    → temp + word_sum bytes < 2 ^ 32
    → sum_words bytes temp ≡ temp + word_sum bytes
unfolding sum_words word_sum IsEven
sum_words-add [] temp h b = omega arith
sum_words-add (c ∷ []) temp h b = absurd h
sum_words-add (c ∷ d ∷ bytes) temp h b =
    ground (arith, sum_words-add bytes ((temp + (c * 256 + d)) % 2 ^ 32) h)

-- On an even number of bytes the checksum is the complement of a number that is the words' sum
-- modulo 65535.
ipv4_checksum-even :
    (bytes : List ℕ)
    → IsEven bytes
    → word_sum bytes < 2 ^ 32
    → (r : ℕ) × (ipv4_checksum bytes ≡ bswap16 (0xffff - r))
      × (r < 65536)
      × (r % 65535 ≡ word_sum bytes % 65535)
      × (r ≤ word_sum bytes)
      × (0 < word_sum bytes → 0 < r)
unfolding ipv4_checksum
ipv4_checksum-even bytes even b =
    let plain = sum_words-add bytes 0 even (omega arith) in
    let (r, e, small, same, le, pos) = fold_carries_lem (word_sum bytes) b in
    let run : fold_carries fold_fuel (sum_words bytes 0) ≡ some r =
      rw plain (let z : 0 + word_sum bytes ≡ word_sum bytes = omega arith in rw z e) in
    (r, rw run, small, same, le, pos)

word_sum-pair : (a b : ℕ) (ys : List ℕ) → word_sum (a ∷ b ∷ ys) ≡ a * 256 + b + word_sum ys
unfolding word_sum
word_sum-pair a b ys = refl

IsEven-pair : (a b : ℕ) (ys : List ℕ) → IsEven ys → IsEven (a ∷ b ∷ ys)
unfolding IsEven
IsEven-pair a b ys h = h

-- A packet that carries its own checksum at an even place has the checksum 0, which is how a
-- receiver verifies it.
pub ipv4_checksum-verifies :
    (xs ys : List ℕ)
    → IsEven xs
    → IsEven ys
    → word_sum xs + word_sum ys < 2 ^ 31
    → ipv4_checksum (xs ++ (store16 (ipv4_checksum (xs ++ (0 ∷ 0 ∷ ys))) ++ ys)) ≡ 0
unfolding bswap16
ipv4_checksum-verifies xs ys ex ey b =
    let bare = xs ++ (0 ∷ 0 ∷ ys) in
    let c = ipv4_checksum bare in
    let sum_bare : word_sum bare ≡ word_sum xs + word_sum ys =
      omega (arith, word_sum-append xs (0 ∷ 0 ∷ ys) ex, word_sum-pair 0 0 ys) in
    let (r, e, small, same, le, pos) =
      ipv4_checksum-even bare (IsEven-append xs _ ex (IsEven-pair 0 0 ys ey)) (omega arith) in
    let full = xs ++ (store16 c ++ ys) in
    let sum_full : word_sum full ≡ word_sum xs + (0xffff - r + word_sum ys) = omega (
      arith,
      e,
      word_sum-append xs (store16 c ++ ys) ex,
      word_sum-pair (c % 256) (c / 256 % 256) ys,
    ) in
    let (r2, e2, small2, same2, le2, pos2) =
      ipv4_checksum-even full (IsEven-append xs _ ex (IsEven-pair (c % 256) (c / 256 % 256) ys ey))
        (omega arith) in
    let last : r2 ≡ 65535 = omega (arith, pos2 (omega (arith, pos))) in e2 ∙ rw last

-- An odd packet whose last byte is 128 or more gets the sign extension of that byte into its sum:
-- the sum is that of the words, the last byte and 0xff0000, as long as it fits 32 bits.
pub sum_words-odd :
    (bytes : List ℕ) (last : ℕ)
    → IsEven bytes
    → 128 ≤ last
    → last < 256
    → word_sum bytes < 2 ^ 31
    → sum_words (bytes ++ last ∷ []) 0 ≡ word_sum (bytes ++ last ∷ []) + 0xff0000
unfolding sum_words word_sum IsEven
sum_words-odd bytes last even high byte b = from_temp bytes 0 even (omega arith) ∙ omega arith
  where
    from_temp :
        (xs : List ℕ) (temp : ℕ)
        → IsEven xs
        → temp + word_sum xs < 2 ^ 31
        → sum_words (xs ++ last ∷ []) temp ≡ temp + word_sum (xs ++ last ∷ []) + 0xff0000
    from_temp [] temp e h = ground arith
    from_temp (c ∷ []) temp e h = absurd e
    from_temp (c ∷ d ∷ xs) temp e h =
        ground (arith, from_temp xs ((temp + (c * 256 + d)) % 2 ^ 32) e)
