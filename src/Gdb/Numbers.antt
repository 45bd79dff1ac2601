-- ===== src/Gdb/Numbers.antt =====
-- `gdb_strtol` of mckrnl/gdb/utils.c on the hexadecimal numbers of the protocol.
use goofy_micro_os.Prelude.{
  ℕ, zero, suc, ◌+◌, ◌-◌, ◌*◌, ◌%◌, ◌^◌, ◌≤◌, ◌<◌, ◌≡◌, ◌≢◌, refl, Bool, not, true, false, ◌&&◌,
  ◌||◌, none, some, [], ◌∷◌, ◌++◌, append_assoc, arith, ltb, ◌==◌, if◌then◌else◌, length,
  length-append, get_or, get_or-past, Bool-cases, inl, inr,
}
use goofy_micro_os.Prelude.Bits.{holds_below, holds_below-all}
use goofy_micro_os.Gdb.{Bytes, gdb_get_digit, gdb_get_val, strtol_digits, gdb_strtol}
use goofy_micro_os.Gdb.Hex.{gdb_get_val-gdb_get_digit}

-- The characters of the digits `ns`, each below 16, and the number they stand for.
abbrev pub spelled : Bytes → Bytes
spelled [] = []
spelled (n ∷ ns) = gdb_get_digit n ∷ spelled ns

abbrev pub AreDigits : Bytes → Type 0
AreDigits [] = Unit
AreDigits (n ∷ ns) = (n < 16) × AreDigits ns

unfoldable pub number : ℕ → Bytes → ℕ
number acc [] = acc
number acc (n ∷ ns) = number (acc * 16 + n) ns

number-le : (ns : Bytes) (acc : ℕ) → acc ≤ number acc ns
unfolding number
number-le [] acc = omega arith
number-le (n ∷ ns) acc = omega (arith, number-le ns (acc * 16 + n))

-- What may follow a number: no digit, and no 'x'.
pub record EndsNumber (tail : Bytes) : Type 0 where
  pub no_digit : gdb_get_val (get_or tail 0 0) 16 ≡ none
  pub no_x : get_or tail 0 0 ≢ 120
  pub no_capital_x : get_or tail 0 0 ≢ 88

-- A digit is not the end of a string, a sign or an 'x'.
plain_digit :
    (n : ℕ)
    → n < 16
    → ((gdb_get_digit n == 0) ≡ false)
      × ((gdb_get_digit n == 45) ≡ false)
      × ((gdb_get_digit n == 43) ≡ false)
      × ((gdb_get_digit n == 120) ≡ false)
      × ((gdb_get_digit n == 88) ≡ false)
plain_digit n h = (
  differs n 0 (unfold holds_below gdb_get_digit in refl) h,
  differs n 45 (unfold holds_below gdb_get_digit in refl) h,
  differs n 43 (unfold holds_below gdb_get_digit in refl) h,
  differs n 120 (unfold holds_below gdb_get_digit in refl) h,
  differs n 88 (unfold holds_below gdb_get_digit in refl) h,
)
  where
    differs :
        (n c : ℕ)
        → holds_below 16 (λ k. not (gdb_get_digit k == c)) ≡ true
        → n < 16
        → (gdb_get_digit n == c) ≡ false
    differs n c all h = ground (arith, holds_below-all 16 (λ k. not (gdb_get_digit k == c)) n all h)

get_or-append :
    (front tail : Bytes) (i : ℕ) → i ≡ length front → get_or (front ++ tail) i 0 ≡ get_or tail 0 0
get_or-append [] tail i h = rw h
get_or-append (x ∷ front) tail zero h = absurd (omega (arith, h))
get_or-append (x ∷ front) tail (suc i) h = get_or-append front tail i (omega (arith, h))

stops :
    (front tail : Bytes) (more acc i : ℕ) (valid : Bool)
    → EndsNumber tail
    → i ≡ length front
    → strtol_digits more 16 (front ++ tail) (record { value = acc; pos = i; valid = valid })
      ≡ record { value = acc; pos = i; valid = valid }
unfolding strtol_digits
stops front tail zero acc i valid stop hi = refl
stops front tail (suc more) acc i valid stop hi = elim (Bool-cases (get_or tail 0 0 == 0)) [
  | inl ends ↦ rw (strtol_digits, get_or-append front tail i hi, ends)
  | inr goes ↦ rw (
    strtol_digits,
    get_or-append front tail i hi,
    goes,
    get_or-append front tail i hi,
    stop.no_digit,
  )
]

strtol_digits-number :
    (ns front tail : Bytes) (acc i more : ℕ) (valid : Bool)
    → AreDigits ns
    → EndsNumber tail
    → i ≡ length front
    → number acc ns < 2 ^ 32
    → strtol_digits
        (length ns + more)
        16
        (front ++ (spelled ns ++ tail))
        (record { value = acc; pos = i; valid = valid })
      ≡ record {
        value = number acc ns;
        pos = i + length ns;
        valid = (if 0 == length ns then valid else true);
      }
unfolding number strtol_digits
strtol_digits-number [] front tail acc i more valid digits stop hi fits =
    let same : i ≡ i + 0 = omega arith in
    let count : 0 + more ≡ more = omega arith in
    rw (count, ← same) (stops front tail more acc i valid stop hi)
strtol_digits-number (n ∷ ns) front tail acc i more valid digits stop hi fits =
    let step : suc (length ns) + more ≡ suc (length ns + more) = omega arith in
    let kept : (acc * 16 + n) % 2 ^ 32 ≡ acc * 16 + n =
      omega (arith, fits, number-le ns (acc * 16 + n)) in
    let moved : i + 1 + length ns ≡ i + suc (length ns) = omega arith in
    let some_read : (0 == suc (length ns)) ≡ false = ground arith in
    let plain = plain_digit n digits.0 in
    let value = gdb_get_val-gdb_get_digit n digits.0 in
    let rest =
      strtol_digits-number ns (front ++ gdb_get_digit n ∷ []) tail (acc * 16 + n) (i + 1) more true
        digits.1 stop (rw length-append (omega (arith, hi))) fits in
    rw
      (
        step,
        strtol_digits,
        get_or-past front (gdb_get_digit n) (spelled ns ++ tail) i 0 hi,
        plain.0,
        get_or-past front (gdb_get_digit n) (spelled ns ++ tail) i 0 hi,
        value,
        kept,
        some_read,
      )
      (rw moved at (simp (append_assoc, always) at rest))
  where
    always : (if 0 == length ns then true else true) ≡ true
    always = ground arith

-- In base 16, `gdb_strtol` reads the number that a text of lower-case hexadecimal digits spells,
-- when it is below 2^31 and neither a digit nor an 'x' follows, and leaves `*endptr` behind the
-- last digit.
pub gdb_strtol-spelled :
    (ns tail : Bytes) (len : ℕ)
    → AreDigits ns
    → EndsNumber tail
    → 0 < length ns
    → length ns ≤ len
    → number 0 ns < 2 ^ 31
    → gdb_strtol (spelled ns ++ tail) len 16 ≡ (number 0 ns, some (length ns))
unfolding gdb_strtol
gdb_strtol-spelled [] tail len digits stop some_digit long fits = absurd (omega arith)
gdb_strtol-spelled (n ∷ ns) tail len digits stop some_digit long fits =
    let str : Bytes = spelled (n ∷ ns) ++ tail in
    let plain = plain_digit n digits.0 in
    let nonempty : ltb len 1 ≡ false = ground (arith, long) in
    let lower : (get_or str 1 0 == 120) ≡ false =
      second ns digits.1 120 stop.no_x (λ k h. (plain_digit k h).3) in
    let upper : (get_or str 1 0 == 88) ≡ false =
      second ns digits.1 88 stop.no_capital_x (λ k h. (plain_digit k h).4) in
    let second : ℕ = get_or str 1 0 in
    let prefix : (ltb (0 + 2) len && gdb_get_digit n == 48 && (second == 120 || second == 88))
        ≡ false =
      ground (arith, lower, upper) in
    let count : len - 0 ≡ suc (length ns) + (len - suc (length ns)) = omega (arith, long) in
    let read =
      strtol_digits-number (n ∷ ns) [] tail 0 0 (len - suc (length ns)) false digits stop refl
        (omega (arith, fits)) in
    let end : 0 + suc (length ns) ≡ suc (length ns) = omega arith in
    let some_read : (0 == suc (length ns)) ≡ false = ground arith in
    rw (gdb_strtol, nonempty, plain.1, plain.2, prefix, count, read, some_read, end)
  where
    second :
        (ns : Bytes)
        → AreDigits ns
        → (c : ℕ) → get_or tail 0 0 ≢ c
        → ((k : ℕ) → k < 16 → (gdb_get_digit k == c) ≡ false)
        → (get_or (spelled ns ++ tail) 0 0 == c) ≡ false
    second [] digits c differs each = ground (arith, differs)
    second (m ∷ ms) digits c differs each = each m digits.0
