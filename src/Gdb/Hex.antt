-- ===== src/Gdb/Hex.antt =====
-- The hexadecimal form of mckrnl/gdb/encoding.c: `gdb_enc_hex` writes two digits for a byte, and
-- `gdb_dec_hex` reads them back.
use goofy_micro_os.Prelude.{
  not, ==_iff, Bool, Bool-cases, Option, [], ap, append_assoc, arith, bit_or, drop, false, get_or,
  get_or-past, if◌then◌else◌, inl, inr, leb, length, length-append, length-take, ltb, none, refl,
  set, set-past, some, sym, take, take-append-drop, true, ℕ, ◌%◌, ◌*◌, ◌++◌, ◌+◌, ◌/◌, ◌<◌, ◌==◌,
  ◌∷◌, ◌≡◌, ◌≤◌,
}
use goofy_micro_os.Prelude.Bits.{holds_below, holds_below-all}
use goofy_micro_os.Gdb.{
  Bytes, length_is, gdb_eof, gdb_get_digit, gdb_get_val, enc_hex_loop, gdb_enc_hex, dec_hex_loop,
  gdb_dec_hex,
}

-- The digits of the bytes, high half first.
unfoldable pub hex : Bytes → Bytes
hex [] = []
hex (b ∷ bs) = gdb_get_digit (b / 16) ∷ gdb_get_digit (b % 16) ∷ hex bs

abbrev pub AreBytes : Bytes → Type 0
AreBytes [] = Unit
AreBytes (b ∷ bs) = (b < 256) × AreBytes bs

pub length-hex : (bs : Bytes) → length (hex bs) ≡ 2 * length bs
unfolding hex
length-hex [] = refl
length-hex (b ∷ bs) = omega (arith, length-hex bs)

-- The test that an option holds a number.
abbrev holds : Option ℕ → ℕ → Bool
holds none n = false
holds (some m) n = m == n

holds-eq : (o : Option ℕ) (n : ℕ) → holds o n ≡ true → o ≡ some n
holds-eq none n h = absurd (cc h)
holds-eq (some m) n h = ap some (ground (arith, h))

-- A digit is read back.
pub gdb_get_val-gdb_get_digit : (n : ℕ) → n < 16 → gdb_get_val (gdb_get_digit n) 16 ≡ some n
unfolding holds_below gdb_get_val gdb_get_digit
gdb_get_val-gdb_get_digit n h =
    holds-eq _ n (holds_below-all 16 (λ k. holds (gdb_get_val (gdb_get_digit k) 16) k) n refl h)

-- A write one place behind the cursor.
pub set-second :
    (front : Bytes) (x y : ℕ) (back : Bytes) (i v : ℕ)
    → i ≡ length front
    → set (front ++ x ∷ y ∷ back) (i + 1) v ≡ front ++ x ∷ v ∷ back
set-second front x y back i v h =
    rw (← append_assoc front (x ∷ []) (y ∷ back), ← append_assoc front (x ∷ []) (v ∷ back))
      (set-past (front ++ x ∷ []) y back (i + 1) v (rw length-append (omega (arith, h))))

enc_hex_loop-hex :
    (todo done room front tail : Bytes) (i : ℕ)
    → AreBytes todo
    → i ≡ length done
    → length front ≡ 2 * i
    → length room ≡ 2 * length todo
    → enc_hex_loop (length todo) i (done ++ todo) (front ++ (room ++ tail))
      ≡ front ++ (hex todo ++ tail)
unfolding enc_hex_loop hex
enc_hex_loop-hex [] done [] front tail i small hi hf hr = refl
enc_hex_loop-hex [] done (x ∷ room) front tail i small hi hf hr = absurd (omega (arith, hr))
enc_hex_loop-hex (b ∷ bs) done [] front tail i small hi hf hr = absurd (omega (arith, hr))
enc_hex_loop-hex (b ∷ bs) done (x ∷ []) front tail i small hi hf hr = absurd (omega (arith, hr))
enc_hex_loop-hex (b ∷ bs) done (x ∷ y ∷ room) front tail i small hi hf hr =
    let half : b / 16 % 16 ≡ b / 16 = omega (arith, small.0) in
    let high : ℕ = gdb_get_digit (b / 16) in
    let low : ℕ = gdb_get_digit (b % 16) in
    let rest =
      enc_hex_loop-hex bs (done ++ b ∷ []) room (front ++ high ∷ low ∷ []) tail (i + 1) small.1
        (rw length-append (omega (arith, hi))) (rw length-append (omega (arith, hf)))
        (omega (arith, hr)) in
    rw
      (
        enc_hex_loop,
        get_or-past done b bs i 0 hi,
        half,
        set-past front x (y ∷ (room ++ tail)) (2 * i) high (sym hf),
        set-second front high y (room ++ tail) (2 * i) low (sym hf),
      )
      (simp append_assoc at rest)

-- The two halves of a byte join to it.
halves_join : (b : ℕ) → b < 256 → bit_or (b / 16 * 16 % 256) (b % 16) ≡ b
unfolding holds_below
halves_join b h =
    (==_iff _ b).0 (holds_below-all 256 (λ k. bit_or (k / 16 * 16 % 256) (k % 16) == k) b refl h)

pub get_or-second :
    (front : Bytes) (x y : ℕ) (back : Bytes) (i d : ℕ)
    → i ≡ length front
    → get_or (front ++ x ∷ y ∷ back) (i + 1) d ≡ y
get_or-second front x y back i d h =
    rw (← append_assoc front (x ∷ []) (y ∷ back))
      (get_or-past (front ++ x ∷ []) y back (i + 1) d (rw length-append (omega (arith, h))))

dec_hex_loop-hex :
    (todo done room front tail rest : Bytes) (i : ℕ)
    → AreBytes todo
    → i ≡ length done
    → length front ≡ 2 * i
    → length room ≡ length todo
    → dec_hex_loop (length todo) i (front ++ (hex todo ++ tail)) (done ++ (room ++ rest))
      ≡ (length_is 0, done ++ (todo ++ rest))
unfolding dec_hex_loop hex
dec_hex_loop-hex [] done [] front tail rest i small hi hf hr = refl
dec_hex_loop-hex [] done (x ∷ room) front tail rest i small hi hf hr = absurd (omega (arith, hr))
dec_hex_loop-hex (b ∷ bs) done [] front tail rest i small hi hf hr = absurd (omega (arith, hr))
dec_hex_loop-hex (b ∷ bs) done (x ∷ room) front tail rest i small hi hf hr =
    let high : ℕ = gdb_get_digit (b / 16) in
    let low : ℕ = gdb_get_digit (b % 16) in
    let more =
      dec_hex_loop-hex bs (done ++ b ∷ []) room (front ++ high ∷ low ∷ []) tail rest (i + 1) small.1
        (rw length-append (omega (arith, hi))) (rw length-append (omega (arith, hf)))
        (omega (arith, hr)) in
    rw
      (
        dec_hex_loop,
        get_or-past front high (low ∷ (hex bs ++ tail)) (2 * i) 0 (sym hf),
        gdb_get_val-gdb_get_digit (b / 16) (omega (arith, small.0)),
        get_or-second front high low (hex bs ++ tail) (2 * i) 0 (sym hf),
        gdb_get_val-gdb_get_digit (b % 16) (omega arith),
        set-past done x (room ++ rest) i (b / 16 * 16 % 256) hi,
        get_or-past done (b / 16 * 16 % 256) (room ++ rest) i 0 hi,
        halves_join b small.0,
        set-past done (b / 16 * 16 % 256) (room ++ rest) i b hi,
      )
      (simp append_assoc at more)

-- With room for two digits a byte, `gdb_enc_hex` writes the digits of the bytes at the start of the
-- buffer, leaves what lies behind them, and returns their number; without it, it writes nothing and
-- fails.
pub gdb_enc_hex_lem :
    (bs buf : Bytes)
    → AreBytes bs
    → gdb_enc_hex buf (length buf) bs (length bs) ≡ (
        if leb (2 * length bs) (length buf)
        then (length_is (2 * length bs), hex bs ++ drop (2 * length bs) buf)
        else (gdb_eof, buf))
unfolding gdb_enc_hex
gdb_enc_hex_lem bs buf small =
    let n : ℕ = 2 * length bs in
    let same : length bs * 2 ≡ n = omega arith in
    elim (Bool-cases (leb n (length buf))) [
      | inl fits ↦
          let written =
            enc_hex_loop-hex bs [] (take n buf) [] (drop n buf) 0 small refl refl
              (rw length-take (ground (arith, fits))) in
          let test : ltb (length buf) n ≡ false = ground (arith, fits) in
          rw (same, fits, test)
            (ap (λ (b : Bytes). (length_is n, b)) (rw take-append-drop at written))
      | inr full ↦
          let test : ltb (length buf) n ≡ true = ground (arith, full) in rw (same, full, test)
    ]

-- `gdb_dec_hex` reads the digits of bytes back into a destination with room for them.
pub gdb_dec_hex-hex :
    (bs tail out : Bytes)
    → AreBytes bs
    → length bs ≤ length out
    → gdb_dec_hex (hex bs ++ tail) (2 * length bs) out (length bs)
      ≡ (length_is 0, bs ++ drop (length bs) out)
unfolding gdb_dec_hex
gdb_dec_hex-hex bs tail out small room =
    let n : ℕ = length bs in
    let test : (2 * n == n * 2) ≡ true = ground arith in
    let read =
      dec_hex_loop-hex bs [] (take n out) [] tail (drop n out) 0 small refl refl
        (rw length-take (omega arith)) in
    rw test (rw take-append-drop at read)

-- `gdb_dec_hex` reads back what `gdb_enc_hex` wrote, and leaves the rest of its destination; it
-- needs room for two digits a byte in the buffer, and for the bytes in the destination.
pub gdb_dec_hex-gdb_enc_hex :
    (bs buf out : Bytes)
    → AreBytes bs
    → 2 * length bs ≤ length buf
    → length bs ≤ length out
    → gdb_dec_hex (gdb_enc_hex buf (length buf) bs (length bs)).1 (2 * length bs) out (length bs)
      ≡ (length_is 0, bs ++ drop (length bs) out)
gdb_dec_hex-gdb_enc_hex bs buf out small fits room =
    let fits' : leb (2 * length bs) (length buf) ≡ true = ground arith in
    rw (gdb_enc_hex_lem bs buf small, fits')
      (gdb_dec_hex-hex bs (drop (2 * length bs) buf) out small room)

-- A digit is not the end of the input.
pub gdb_get_digit-ne-eof : (n : ℕ) → n < 16 → (gdb_get_digit n == 0xff) ≡ false
unfolding holds_below gdb_get_digit
gdb_get_digit-ne-eof n h =
    ground (arith, holds_below-all 16 (λ k. not (gdb_get_digit k == 0xff)) n refl h)
