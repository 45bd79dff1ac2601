-- ===== src/Pmm/Bitmap.antt =====
-- The page bitmaps of mckrnl/memory/pmm.c: words of 32 pages, the first page in the highest bit.
-- A page whose bit is clear is used: `bitmap_set` clears the bit.
use native.Mathlib.Nat.{one-le-pow}
use goofy_micro_os.Prelude.{
  zero, suc, ℕ, ◌-◌, ◌*◌, ◌/◌, ◌%◌, ◌^◌, ◌<◌, bit_and, bit_or, bit_xor, ◌≡◌, refl, ap, ◌∙◌, Bool,
  true, not, ◌&&◌, ◌||◌, List, arith, ◌==◌, ==_iff, if◌then◌else◌, length, get_or, set, length-set,
  get_or-set,
}
use goofy_micro_os.Prelude.Bits.{
  holds_below, holds_below-all, bit, bit-lt-two, bit-bit_and, bit-bit_or, bit_and-pow,
}

abbrev pub Words : Type 0
Words = List ℕ

-- `0b10000000000000000000000000000000 >> (bit % 32)`
unfoldable pub mask : ℕ → ℕ
mask page = 0x80000000 / 2 ^ (page % 32)

-- `~mask` on 32 bits
unfoldable pub inverted : ℕ → ℕ
unfolding mask
inverted page = bit_xor (mask page) 0xffffffff

abbrev pub word : Words → ℕ → ℕ
word map page = get_or map (page / 32) 0

unfoldable pub bitmap_set : Words → ℕ → Words
bitmap_set map page = set map (page / 32) (bit_and (word map page) (inverted page))

unfoldable pub bitmap_clear : Words → ℕ → Words
bitmap_clear map page = set map (page / 32) (bit_or (word map page) (mask page))

unfoldable pub bitmap_test : Words → ℕ → Bool
bitmap_test map page = bit_and (word map page) (mask page) == 0

mask_table : holds_below 32 (λ i. mask i == 2 ^ (31 - i)) ≡ true
unfolding holds_below mask
mask_table = refl

mask-bit_table :
    holds_below 32 (λ i. holds_below 32 (λ k. bit (mask i) (31 - k) == (if i == k then 1 else 0)))
    ≡ true
unfolding holds_below mask bit
mask-bit_table = refl

inverted-bit_table :
    holds_below 32
      (λ i. holds_below 32 (λ k. bit (inverted i) (31 - k) == (if i == k then 0 else 1)))
    ≡ true
unfolding holds_below inverted bit
inverted-bit_table = refl

mask-mod : (page : ℕ) → mask page ≡ mask (page % 32)
unfolding mask
mask-mod page = ap (λ k. 0x80000000 / 2 ^ k) (omega arith)

inverted-mod : (page : ℕ) → inverted page ≡ inverted (page % 32)
unfolding inverted
inverted-mod page = ap (λ m. bit_xor m 0xffffffff) (mask-mod page)

mask-pow : (page : ℕ) → mask page ≡ 2 ^ (31 - page % 32)
mask-pow page =
    mask-mod page
    ∙ (==_iff _ _).0
        (holds_below-all 32 (λ i. mask i == 2 ^ (31 - i)) (page % 32) mask_table (omega arith))

mask-bit : (page i : ℕ) → i < 32 → bit (mask page) (31 - i) ≡ (if page % 32 == i then 1 else 0)
mask-bit page i h = rw mask-mod (
    (==_iff _ _).0 (
      holds_below-all 32 (λ k. bit (mask (page % 32)) (31 - k) == (if page % 32 == k then 1 else 0))
        i
        (holds_below-all 32
          (λ j. holds_below 32 (λ k. bit (mask j) (31 - k) == (if j == k then 1 else 0)))
          (page % 32) mask-bit_table (omega arith))
        h))

inverted-bit :
    (page i : ℕ) → i < 32 → bit (inverted page) (31 - i) ≡ (if page % 32 == i then 0 else 1)
inverted-bit page i h = rw inverted-mod (
    (==_iff _ _).0 (
      holds_below-all 32
        (λ k. bit (inverted (page % 32)) (31 - k) == (if page % 32 == k then 0 else 1)) i
        (holds_below-all 32
          (λ j. holds_below 32 (λ k. bit (inverted j) (31 - k) == (if j == k then 0 else 1)))
          (page % 32) inverted-bit_table (omega arith))
        h))

pow_pos-zero : (d k : ℕ) → d < 2 → ((d * 2 ^ k) == 0) ≡ (d == 0)
pow_pos-zero zero k h = ground (arith, zero_times k)
  where
    zero_times : (k : ℕ) → 0 * 2 ^ k ≡ 0
    zero_times k = omega arith
pow_pos-zero (suc d) k h = ground (arith, one-le-pow k 2, one_of d h)
  where
    one_of : (d : ℕ) → suc d < 2 → suc d * 2 ^ k ≡ 2 ^ k
    one_of d h = let e : d ≡ 0 = omega arith in rw e (omega arith)

-- What the test reads: one digit of the page's word.
pub bitmap_test-bit :
    (map : Words) (page : ℕ) → bitmap_test map page ≡ (bit (word map page) (31 - page % 32) == 0)
unfolding bitmap_test
bitmap_test-bit map page = rw (mask-pow, bit_and-pow) (pow_pos-zero _ _ (bit-lt-two _ _))

pub length-bitmap_set : (map : Words) (page : ℕ) → length (bitmap_set map page) ≡ length map
unfolding bitmap_set
length-bitmap_set map page = length-set map (page / 32) _

pub length-bitmap_clear : (map : Words) (page : ℕ) → length (bitmap_clear map page) ≡ length map
unfolding bitmap_clear
length-bitmap_clear map page = length-set map (page / 32) _

pub bitmap_test-set :
    (map : Words) (a b : ℕ)
    → a / 32 < length map
    → bitmap_test (bitmap_set map a) b ≡ ((a == b) || bitmap_test map b)
unfolding bitmap_set
bitmap_test-set map a b h =
    rw (bitmap_test-bit, bitmap_test-bit)
      (ground (
        arith,
        get_or-set map (a / 32) (b / 32) (bit_and (word map a) (inverted a)) 0 h,
        bit-bit_and (word map a) (inverted a) (31 - b % 32),
        inverted-bit a (b % 32) (omega arith),
        bit-lt-two (word map b) (31 - b % 32),
      ))

pub bitmap_test-clear :
    (map : Words) (a b : ℕ)
    → a / 32 < length map
    → bitmap_test (bitmap_clear map a) b ≡ (not (a == b) && bitmap_test map b)
unfolding bitmap_clear
bitmap_test-clear map a b h =
    rw (bitmap_test-bit, bitmap_test-bit)
      (ground (
        arith,
        get_or-set map (a / 32) (b / 32) (bit_or (word map a) (mask a)) 0 h,
        bit-bit_or (word map a) (mask a) (31 - b % 32),
        mask-bit a (b % 32) (omega arith),
        bit-lt-two (word map b) (31 - b % 32),
      ))
