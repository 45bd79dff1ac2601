-- ===== src/Net/Wire.antt =====
-- Packets as lists of bytes: the little-endian loads and stores of the machine, and the byte swaps
-- of mckrnl/include/net/stack.h.
use goofy_micro_os.Prelude.{
  ℕ, ◌++◌, ◌+◌, ◌*◌, ◌/◌, ◌%◌, ◌^◌, ◌<◌, ◌≡◌, List, [], ◌∷◌, arith, get_or,
}

-- A load past the end gives 0; the callers test the size first.
abbrev pub byte_at : List ℕ → ℕ → ℕ
byte_at p i = get_or p i 0

abbrev pub load16 : List ℕ → ℕ → ℕ
load16 p i = byte_at p i + byte_at p (i + 1) * 256

abbrev pub load32 : List ℕ → ℕ → ℕ
load32 p i = load16 p i + load16 p (i + 2) * 65536

abbrev pub store16 : ℕ → List ℕ
store16 n = n % 256 ∷ (n / 256 % 256) ∷ []

abbrev pub store32 : ℕ → List ℕ
store32 n = n % 256 ∷ (n / 256 % 256) ∷ (n / 65536 % 256) ∷ (n / 16777216 % 256) ∷ []

unfoldable pub bswap16 : ℕ → ℕ
bswap16 n = n % 256 * 256 + n / 256 % 256

unfoldable pub bswap32 : ℕ → ℕ
bswap32 n = n / 16777216 % 256 + n / 65536 % 256 * 256 + n / 256 % 256 * 65536 + n % 256 * 16777216

pub bswap16-bswap16 : (n : ℕ) → n < 2 ^ 16 → bswap16 (bswap16 n) ≡ n
unfolding bswap16
bswap16-bswap16 n h = omega arith

pub bswap32-bswap32 : (n : ℕ) → n < 2 ^ 32 → bswap32 (bswap32 n) ≡ n
unfolding bswap32
bswap32-bswap32 n h = omega arith

pub bswap16-lt : (n : ℕ) → bswap16 n < 2 ^ 16
unfolding bswap16
bswap16-lt n = omega arith

pub bswap32-lt : (n : ℕ) → bswap32 n < 2 ^ 32
unfolding bswap32
bswap32-lt n = omega arith

-- The 48-bit fields of a packet.
abbrev pub load48 : List ℕ → ℕ → ℕ
load48 p i = load32 p i + load16 p (i + 4) * 4294967296

abbrev pub store48 : ℕ → List ℕ
store48 n = store32 n ++ store16 (n / 4294967296)
