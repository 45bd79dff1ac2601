-- ===== src/Prelude/Bits.antt =====
-- The binary digits of `&`, `|` and of single-bit masks.
use Prim.Native.Nat.{digits, bitwise, bit_and-bitwise, bit_or-bitwise}
use Prim.Native.Nat.{ℕ, zero, suc, ◌+◌, ◌-◌, ◌*◌, ◌/◌, ◌%◌, ◌^◌, ◌≤◌, ◌<◌, min, max}
use Prim.Native.Nat.{bit_and, bit_or}
use native.Mathlib.Nat.{le_refl, pow-suc}
use mathlib.Core.Path.{◌≡◌, refl, ap, ◌∙◌}
use mathlib.Core.Bool.{Bool, true, ◌&&◌}
use native.Mathlib.Omega.{arith}

-- A test that every number below a bound passes, which closed terms decide by running it.
unfoldable pub holds_below : (bound : ℕ) (test : ℕ → Bool) → Bool
holds_below zero test = true
holds_below (suc last) test = holds_below last test && test last

pub holds_below-all :
    (bound : ℕ) (test : ℕ → Bool) (i : ℕ)
    → holds_below bound test ≡ true
    → i < bound
    → test i ≡ true
unfolding holds_below
holds_below-all zero test i passed small = absurd (omega (arith, small))
holds_below-all (suc last) test i passed small = ground (arith, holds_below-all last test i)

-- The k-th binary digit.
unfoldable pub bit : ℕ → ℕ → ℕ
bit w zero = w % 2
bit w (suc k) = bit (w / 2) k

pub bit-lt-two : (w k : ℕ) → bit w k < 2
unfolding bit
bit-lt-two w zero = omega arith
bit-lt-two w (suc k) = bit-lt-two (w / 2) k

-- An operator on digits `f`, and `rest` for what is left of the second number when the first ends.
module _ (rest : ℕ → ℕ) (f : ℕ → ℕ → ℕ) where
  -- The library's recursion is on a fuel; any that covers `x` gives the same.
  covered :
      (x y fuel fuel' : ℕ)
      → (x ≤ fuel) × (x ≤ fuel')
      → digits rest f fuel x y ≡ digits rest f fuel' x y
  covered zero y zero zero c = refl
  covered zero y zero (suc _) c = refl
  covered zero y (suc _) zero c = refl
  covered zero y (suc _) (suc _) c = refl
  covered (suc x) y zero fuel' c = absurd (omega (arith, c.0))
  covered (suc x) y (suc fuel) zero c = absurd (omega (arith, c.1))
  covered (suc x) y (suc fuel) (suc fuel') c =
      let halves =
        covered (suc x / 2) (y / 2) fuel fuel' (omega (arith, c.0), omega (arith, c.1)) in
      rw halves

  lowest_digit :
      (x y : ℕ)
      → bitwise rest f (suc x) y ≡ 2 * bitwise rest f (suc x / 2) (y / 2) + f (suc x % 2) (y % 2)
  lowest_digit x y =
      let h = covered (suc x / 2) (y / 2) x (suc x / 2) (omega arith, omega arith) in
      omega (arith, h)

-- An operator on numbers that works digit by digit, and keeps digits digits.
record Digitwise (op f : ℕ → ℕ → ℕ) : Type 0 where
  splits : (x y : ℕ) → op x y ≡ 2 * op (x / 2) (y / 2) + f (x % 2) (y % 2)
  small : (x y : ℕ) → x < 2 → y < 2 → f x y < 2

bit-op : {op f : ℕ → ℕ → ℕ} → Digitwise op f → (k x y : ℕ) → bit (op x y) k ≡ f (bit x k) (bit y k)
unfolding bit
bit-op d zero x y = omega (arith, d.splits x y, d.small (x % 2) (y % 2) (omega arith) (omega arith))
bit-op {op} d (suc k) x y =
    let upper : op x y / 2 ≡ op (x / 2) (y / 2) =
      omega (arith, d.splits x y, d.small (x % 2) (y % 2) (omega arith) (omega arith)) in
    rw upper (bit-op d k (x / 2) (y / 2))

and-Digitwise : Digitwise bit_and min
and-Digitwise = record { splits = both_split; small = λ x y hx hy. omega (arith, hx, hy) }
  where
    both_split : (x y : ℕ) → bit_and x y ≡ 2 * bit_and (x / 2) (y / 2) + min (x % 2) (y % 2)
    both_split zero y = simp bit_and-bitwise (omega arith)
    both_split (suc x) y = simp bit_and-bitwise (lowest_digit (λ y'. 0) min x y)

or-Digitwise : Digitwise bit_or max
or-Digitwise = record { splits = either_split; small = λ x y hx hy. omega (arith, hx, hy) }
  where
    either_split : (x y : ℕ) → bit_or x y ≡ 2 * bit_or (x / 2) (y / 2) + max (x % 2) (y % 2)
    either_split zero y = simp bit_or-bitwise (omega arith)
    either_split (suc x) y = simp bit_or-bitwise (lowest_digit (λ y'. y') max x y)

pub bit-bit_and : (a b k : ℕ) → bit (bit_and a b) k ≡ min (bit a k) (bit b k)
bit-bit_and a b k = bit-op and-Digitwise k a b

pub bit-bit_or : (a b k : ℕ) → bit (bit_or a b) k ≡ max (bit a k) (bit b k)
bit-bit_or a b k = bit-op or-Digitwise k a b

-- Nothing is left of a number under the mask 0; `bound` limits the number.
masked_out : (bound w : ℕ) → w ≤ bound → bit_and w 0 ≡ 0
masked_out bound zero h = bit_and-bitwise 0 0
masked_out zero (suc w) h = absurd (omega (arith, h))
masked_out (suc bound) (suc w) h =
    let upper = masked_out bound (suc w / 2) (omega (arith, h)) in
    omega (arith, and-Digitwise.splits (suc w) 0, upper)

-- `w & (1 << k)` is the k-th digit in its place.
pub bit_and-pow : (w k : ℕ) → bit_and w (2 ^ k) ≡ bit w k * 2 ^ k
unfolding bit
bit_and-pow w zero =
    omega (arith, and-Digitwise.splits w 1, masked_out (w / 2) (w / 2) (le_refl (w / 2)))
bit_and-pow w (suc k) =
    let halved : 2 ^ suc k / 2 ≡ 2 ^ k = omega (arith, pow-suc 2 k) in
    let even : 2 ^ suc k % 2 ≡ 0 = omega (arith, pow-suc 2 k) in
    and-Digitwise.splits w (2 ^ suc k)
    ∙ rw (halved, even, bit_and-pow (w / 2) k) (grind (arith, pow-suc 2 k))

-- Nothing is added under the mask 0.
or_zero : (bound w : ℕ) → w ≤ bound → bit_or w 0 ≡ w
or_zero bound zero h = bit_or-bitwise 0 0
or_zero zero (suc w) h = absurd (omega (arith, h))
or_zero (suc bound) (suc w) h =
    let upper = or_zero bound (suc w / 2) (omega (arith, h)) in
    omega (arith, or-Digitwise.splits (suc w) 0, upper)

zero_or : (b : ℕ) → bit_or 0 b ≡ b
zero_or b = bit_or-bitwise 0 b

pub bit_or-lt : (k a b : ℕ) → a < 2 ^ k → b < 2 ^ k → bit_or a b < 2 ^ k
bit_or-lt zero a b ha hb =
    let none_a : a ≡ 0 = omega (arith, ha) in
    let none_b : b ≡ 0 = omega (arith, hb) in
    rw (none_a, none_b) (omega (arith, bit_or-bitwise 0 0))
bit_or-lt (suc k) a b ha hb = omega (
  arith,
  or-Digitwise.splits a b,
  bit_or-lt k (a / 2) (b / 2) (omega (arith, ha, pow-suc 2 k)) (omega (arith, hb, pow-suc 2 k)),
  pow-suc 2 k,
)

-- `|` with low digits changes the low digits only.
pub bit_or-low :
    (k n a b : ℕ) → a < 2 ^ k → b < 2 ^ k → bit_or (n * 2 ^ k + a) b ≡ n * 2 ^ k + bit_or a b
bit_or-low zero n a b ha hb =
    let none_a : a ≡ 0 = omega (arith, ha) in
    let none_b : b ≡ 0 = omega (arith, hb) in
    let whole : n * 1 + 0 ≡ n = omega arith in
    rw (none_a, none_b, whole) (omega (arith, or_zero n n (le_refl n), bit_or-bitwise 0 0))
bit_or-low (suc k) n a b ha hb =
    let doubled : n * 2 ^ suc k ≡ 2 * (n * 2 ^ k) =
      omega (arith, ap (λ (t : ℕ). n * t) (pow-suc 2 k)) in
    let upper =
      bit_or-low k n (a / 2) (b / 2) (omega (arith, ha, pow-suc 2 k))
        (omega (arith, hb, pow-suc 2 k)) in
    let whole : ℕ = n * 2 ^ k in
    let half : (2 * whole + a) / 2 ≡ whole + a / 2 = omega arith in
    let step = or-Digitwise.splits (2 * whole + a) b in
    let low = or-Digitwise.splits a b in rw doubled (omega (arith, rw half at step, upper, low))

pub bit_or-add : (k n b : ℕ) → b < 2 ^ k → bit_or (n * 2 ^ k) b ≡ n * 2 ^ k + b
bit_or-add k n b h =
    let whole : n * 2 ^ k + 0 ≡ n * 2 ^ k = omega arith in
    let low = bit_or-low k n 0 b (omega (arith, h)) h in
    rw whole at low ∙ ap (λ (t : ℕ). n * 2 ^ k + t) (zero_or b)

-- `&` with a mask of low digits leaves the low digits.
bit_and-low : (k n r : ℕ) → r < 2 ^ k → bit_and (n * 2 ^ k + r) (2 ^ k - 1) ≡ r
bit_and-low zero n r h = omega (arith, masked_out (n * 1 + r) (n * 1 + r) (le_refl (n * 1 + r)), h)
bit_and-low (suc k) n r h =
    let whole : ℕ = n * 2 ^ k in
    let doubled : n * 2 ^ suc k ≡ 2 * whole = omega (arith, ap (λ (t : ℕ). n * t) (pow-suc 2 k)) in
    let half : (2 * whole + r) / 2 ≡ whole + r / 2 = omega arith in
    let mask : (2 ^ suc k - 1) / 2 ≡ 2 ^ k - 1 = omega (arith, pow-suc 2 k) in
    let positive : 0 < 2 ^ k = omega (arith, h, pow-suc 2 k) in
    let upper = bit_and-low k n (r / 2) (omega (arith, h, pow-suc 2 k)) in
    let step = and-Digitwise.splits (2 * whole + r) (2 ^ suc k - 1) in
    rw doubled (omega (arith, rw (half, mask) at step, upper, pow-suc 2 k, positive))

pub bit_and-mod_page : (w : ℕ) → bit_and w 0xfff ≡ w % 4096
bit_and-mod_page w =
    let split : w / 4096 * 4096 + w % 4096 ≡ w = omega arith in
    rw split at (bit_and-low 12 (w / 4096) (w % 4096) (omega arith))
