-- ===== src/Gdb/Escapes.antt =====
-- The binary form of mckrnl/gdb/encoding.c: `gdb_enc_bin` escapes the characters that frame a
-- packet, and `gdb_dec_bin` takes the escapes away.
use goofy_micro_os.Prelude.{
  ap, ◌↔◌, ◌≢◌, ◌*◌, ℕ, suc, ◌+◌, ◌≤◌, ◌<◌, bit_xor, ◌≡◌, refl, ◌∙◌, true, false, Bool-cases, inl,
  inr, [], ◌∷◌, ◌++◌, append_assoc, arith, leb, ◌==◌, if◌then◌else◌, ==_iff, length, drop,
  length-append, get_or-past, set-past,
}
use goofy_micro_os.Gdb.{
  Bytes, Status, length_is, assert_fails, is_special, enc_bin_loop, gdb_enc_bin,
}
use goofy_micro_os.Gdb.Hex.{set-second}

-- The escaped form: '}' and the byte with bit 5 turned, for a byte that frames a packet.
unfoldable pub escape : Bytes → Bytes
escape [] = []
escape (b ∷ bs) =
    let rest = escape bs in if is_special b then 125 ∷ bit_xor b 0x20 ∷ rest else b ∷ rest

pub escape_special :
    (b : ℕ) (bs : Bytes) → is_special b ≡ true → escape (b ∷ bs) ≡ 125 ∷ bit_xor b 0x20 ∷ escape bs
unfolding escape
escape_special b bs h = rw h

pub escape_plain : (b : ℕ) (bs : Bytes) → is_special b ≡ false → escape (b ∷ bs) ≡ b ∷ escape bs
unfolding escape
escape_plain b bs h = rw h

-- A property of the four framing characters is checked at each.
special_cases {ℓ} :
    (P : ℕ → Type ℓ) (b : ℕ) → P 36 → P 35 → P 125 → P 42 → is_special b ≡ true → P b
unfolding is_special
special_cases P b p36 p35 p125 p42 h = elim (Bool-cases (b == 36)) [
  | inl e ↦ rw ((==_iff b 36).0 e) p36
  | inr n36 ↦ elim (Bool-cases (b == 35)) [
    | inl e ↦ rw ((==_iff b 35).0 e) p35
    | inr n35 ↦ elim (Bool-cases (b == 125)) [
      | inl e ↦ rw ((==_iff b 125).0 e) p125
      | inr n125 ↦ elim (Bool-cases (b == 42)) [
        | inl e ↦ rw ((==_iff b 42).0 e) p42
        | inr n42 ↦ absurd (ground (arith, n36, n35, n125, n42, h))
      ]
    ]
  ]
]

pub xor_back : (b : ℕ) → is_special b ≡ true → bit_xor (bit_xor b 0x20) 0x20 ≡ b
xor_back b h = special_cases (λ k. bit_xor (bit_xor k 0x20) 0x20 ≡ k) b refl refl refl refl h

pub plain-ne-escape : (b : ℕ) → is_special b ≡ false → (b == 125) ≡ false
unfolding is_special
plain-ne-escape b h = ground arith

escape-grows : (b : ℕ) (bs : Bytes) → length (escape bs) < length (escape (b ∷ bs))
unfolding escape
escape-grows b bs = elim (Bool-cases (is_special b)) [
  | inl special ↦ rw special (omega arith)
  | inr plain ↦ rw plain (omega arith)
]

-- What is left to write when `n` bytes have been written, `escaped` of them in this round.
Written : (n : ℕ) (front es back : Bytes) → Status × Bytes
Written n front es back = (length_is (n + length es), front ++ (es ++ drop (length es) back))

drop-both :
    (new old es back : Bytes)
    → length new ≡ length old
    → drop (length new + length es) (old ++ back) ≡ drop (length es) back
drop-both [] [] es back h = let same : 0 + length es ≡ length es = omega arith in rw same
drop-both [] (x ∷ old) es back h = absurd (omega (arith, h))
drop-both (x ∷ new) [] es back h = absurd (omega (arith, h))
drop-both (x ∷ new) (y ∷ old) es back h =
    let step : suc (length new) + length es ≡ suc (length new + length es) = omega arith in
    rw step (drop-both new old es back (omega (arith, h)))

Written-past :
    (n : ℕ) (front new es old back : Bytes)
    → length new ≡ length old
    → Written (n + length new) (front ++ new) es back ≡ Written n front (new ++ es) (old ++ back)
unfolding Written
Written-past n front new es old back same =
    let moved : n + length new + length es ≡ n + (length new + length es) = omega arith in
    simp (length-append, append_assoc, moved, drop-both new old es back same)

-- One round of the loop that writes, at a byte `b`.
module _ (b : ℕ) (bs done front : Bytes) (n i p len : ℕ) (hi : i ≡ length done)
    (hp : p ≡ length front) where
  enc_special :
      (x y : ℕ) (back : Bytes) {r : Status × Bytes}
      → is_special b ≡ true
      → leb len (p + 1) ≡ false
      → enc_bin_loop n
          (i + 1)
          (p + 2)
          len
          ((done ++ b ∷ []) ++ bs)
          ((front ++ 125 ∷ bit_xor b 0x20 ∷ []) ++ back)
        ≡ r
      → enc_bin_loop (suc n) i p len (done ++ b ∷ bs) (front ++ x ∷ y ∷ back) ≡ r
  unfolding enc_bin_loop
  enc_special x y back special spare rest =
      rw
        (
          enc_bin_loop,
          get_or-past done b bs i 0 hi,
          special,
          spare,
          get_or-past done b bs i 0 hi,
          set-past front x (y ∷ back) p 125 hp,
          set-second front 125 y back p (bit_xor b 0x20) hp,
        )
        (simp append_assoc at rest)

  enc_plain :
      (x : ℕ) (back : Bytes) {r : Status × Bytes}
      → is_special b ≡ false
      → leb len p ≡ false
      → enc_bin_loop n (i + 1) (p + 1) len ((done ++ b ∷ []) ++ bs) ((front ++ b ∷ []) ++ back) ≡ r
      → enc_bin_loop (suc n) i p len (done ++ b ∷ bs) (front ++ x ∷ back) ≡ r
  unfolding enc_bin_loop
  enc_plain x back plain spare rest =
      rw
        (
          enc_bin_loop,
          get_or-past done b bs i 0 hi,
          plain,
          spare,
          get_or-past done b bs i 0 hi,
          set-past front x back p b hp,
        )
        (simp append_assoc at rest)

  -- A round that finds no room.
  enc_full :
      (back : Bytes)
      → len ≡ p + length back
      → length back < length (escape (b ∷ []))
      → enc_bin_loop (suc n) i p len (done ++ b ∷ bs) (front ++ back)
        ≡ (assert_fails, front ++ back)
  unfolding enc_bin_loop escape
  enc_full back hl full = elim (Bool-cases (is_special b)) [
    | inl special ↦
        let two : length back < 2 = rw (escape_special b [] special) at full in
        let no_room : leb len (p + 1) ≡ true = ground (arith, hl) in
        rw (enc_bin_loop, get_or-past done b bs i 0 hi, special, no_room)
    | inr plain ↦
        let one : length back < 1 = rw (escape_plain b [] plain) at full in
        let no_room : leb len p ≡ true = ground (arith, hl) in
        rw (enc_bin_loop, get_or-past done b bs i 0 hi, plain, no_room)
  ]

  -- What a round writes joins what the rest of the loop writes.
  special_round :
      (x y : ℕ) (back : Bytes)
      → is_special b ≡ true
      → len ≡ p + suc (suc (length back))
      → enc_bin_loop n
          (i + 1)
          (p + 2)
          len
          ((done ++ b ∷ []) ++ bs)
          ((front ++ 125 ∷ bit_xor b 0x20 ∷ []) ++ back)
        ≡ Written (p + 2) (front ++ 125 ∷ bit_xor b 0x20 ∷ []) (escape bs) back
      → enc_bin_loop (suc n) i p len (done ++ b ∷ bs) (front ++ x ∷ y ∷ back)
        ≡ Written p front (escape (b ∷ bs)) (x ∷ y ∷ back)
  special_round x y back special hl rest = rw (escape_special b bs special) (
      enc_special x y back special (ground (arith, hl)) (
        rest ∙ Written-past p front (125 ∷ bit_xor b 0x20 ∷ []) (escape bs) (x ∷ y ∷ []) back refl))

  plain_round :
      (x : ℕ) (back : Bytes)
      → is_special b ≡ false
      → len ≡ p + suc (length back)
      → enc_bin_loop n (i + 1) (p + 1) len ((done ++ b ∷ []) ++ bs) ((front ++ b ∷ []) ++ back)
        ≡ Written (p + 1) (front ++ b ∷ []) (escape bs) back
      → enc_bin_loop (suc n) i p len (done ++ b ∷ bs) (front ++ x ∷ back)
        ≡ Written p front (escape (b ∷ bs)) (x ∷ back)
  plain_round x back plain hl rest = rw (escape_plain b bs plain) (
      enc_plain x back plain (ground (arith, hl))
        (rest ∙ Written-past p front (b ∷ []) (escape bs) (x ∷ []) back refl))

-- The loop writes the escaped bytes behind what it has written, when there is room for them.
enc_bin_loop_fits :
    (todo done front back : Bytes) (i p len : ℕ)
    → i ≡ length done
    → p ≡ length front
    → len ≡ p + length back
    → length (escape todo) ≤ length back
    → enc_bin_loop (length todo) i p len (done ++ todo) (front ++ back)
      ≡ Written p front (escape todo) back
enc_bin_loop_fits [] done front back i p len hi hp hl room =
    let same : p ≡ p + 0 = omega arith in unfold enc_bin_loop escape Written in rw (← same)
enc_bin_loop_fits (b ∷ bs) done front [] i p len hi hp hl room =
    absurd (omega (arith, room, escape-grows b bs))
enc_bin_loop_fits (b ∷ bs) done front (x ∷ []) i p len hi hp hl room =
    elim (Bool-cases (is_special b)) [
      | inl special ↦
          let two : suc (suc (length (escape bs))) ≤ 1 = rw (escape_special b bs special) at room in
          absurd (omega (arith, two))
      | inr plain ↦
          let one : suc (length (escape bs)) ≤ 1 = rw (escape_plain b bs plain) at room in
          plain_round b bs done front (length bs) i p len hi hp x ([]) plain hl (
            enc_bin_loop_fits bs (done ++ b ∷ []) (front ++ b ∷ []) ([]) (i + 1) (p + 1) len
              (rw length-append (omega (arith, hi))) (rw length-append (omega (arith, hp)))
              (omega (arith, hl)) (omega (arith, one)))
    ]
enc_bin_loop_fits (b ∷ bs) done front (x ∷ y ∷ back) i p len hi hp hl room =
    elim (Bool-cases (is_special b)) [
      | inl special ↦
          let two : suc (suc (length (escape bs))) ≤ suc (suc (length back)) =
            rw (escape_special b bs special) at room in
          special_round b bs done front (length bs) i p len hi hp x y back special hl (
            enc_bin_loop_fits bs (done ++ b ∷ []) (front ++ 125 ∷ bit_xor b 0x20 ∷ []) back (i + 1)
              (p + 2) len (rw length-append (omega (arith, hi)))
              (rw length-append (omega (arith, hp))) (omega (arith, hl)) (omega (arith, two)))
      | inr plain ↦
          let one : suc (length (escape bs)) ≤ suc (length (y ∷ back)) =
            rw (escape_plain b bs plain) at room in
          plain_round b bs done front (length bs) i p len hi hp x (y ∷ back) plain hl (
            enc_bin_loop_fits bs (done ++ b ∷ []) (front ++ b ∷ []) (y ∷ back) (i + 1) (p + 1) len
              (rw length-append (omega (arith, hi))) (rw length-append (omega (arith, hp)))
              (omega (arith, hl)) (omega (arith, one)))
    ]

-- Without the room, the assertion fails.
enc_bin_loop_full :
    (todo done front back : Bytes) (i p len : ℕ)
    → i ≡ length done
    → p ≡ length front
    → len ≡ p + length back
    → length back < length (escape todo)
    → (enc_bin_loop (length todo) i p len (done ++ todo) (front ++ back)).0 ≡ assert_fails
enc_bin_loop_full [] done front back i p len hi hp hl full =
    unfold escape in absurd (omega (arith, full))
enc_bin_loop_full (b ∷ bs) done front [] i p len hi hp hl full =
    ap (λ (r : Status × Bytes). r.0)
      (enc_full b bs done front (length bs) i p len hi hp [] hl
        (unfold escape in (escape-grows b [])))
enc_bin_loop_full (b ∷ bs) done front (x ∷ []) i p len hi hp hl full =
    elim (Bool-cases (is_special b)) [
      | inl special ↦
          ap (λ (r : Status × Bytes). r.0)
            (enc_full b bs done front (length bs) i p len hi hp (x ∷ []) hl
              (rw (escape_special b [] special) (omega arith)))
      | inr plain ↦
          let less : 1 < suc (length (escape bs)) = rw (escape_plain b bs plain) at full in
          ap (λ (r : Status × Bytes). r.0)
            (enc_plain b bs done front (length bs) i p len hi hp x [] plain (ground (arith, hl))
              refl)
          ∙ enc_bin_loop_full bs (done ++ b ∷ []) (front ++ b ∷ []) [] (i + 1) (p + 1) len
              (rw length-append (omega (arith, hi))) (rw length-append (omega (arith, hp)))
              (omega (arith, hl)) (omega (arith, less))
    ]
enc_bin_loop_full (b ∷ bs) done front (x ∷ y ∷ back) i p len hi hp hl full =
    elim (Bool-cases (is_special b)) [
      | inl special ↦
          let less : suc (suc (length back)) < suc (suc (length (escape bs))) =
            rw (escape_special b bs special) at full in
          ap (λ (r : Status × Bytes). r.0)
            (enc_special b bs done front (length bs) i p len hi hp x y back special
              (ground (arith, hl)) refl)
          ∙ enc_bin_loop_full bs (done ++ b ∷ []) (front ++ 125 ∷ bit_xor b 0x20 ∷ []) back (i + 1)
              (p + 2) len (rw length-append (omega (arith, hi)))
              (rw length-append (omega (arith, hp))) (omega (arith, hl)) (omega (arith, less))
      | inr plain ↦
          let less : suc (suc (length back)) < suc (length (escape bs)) =
            rw (escape_plain b bs plain) at full in
          ap (λ (r : Status × Bytes). r.0)
            (enc_plain b bs done front (length bs) i p len hi hp x (y ∷ back) plain
              (ground (arith, hl)) refl)
          ∙ enc_bin_loop_full bs (done ++ b ∷ []) (front ++ b ∷ []) (y ∷ back) (i + 1) (p + 1) len
              (rw length-append (omega (arith, hi))) (rw length-append (omega (arith, hp)))
              (omega (arith, hl)) (omega (arith, less))
    ]

-- `gdb_enc_bin` writes the escaped bytes at the start of the buffer when they fit, leaves what lies
-- behind them, and returns their number.
pub gdb_enc_bin-Written :
    (bs buf : Bytes)
    → length (escape bs) ≤ length buf
    → gdb_enc_bin buf (length buf) bs (length bs)
      ≡ (length_is (length (escape bs)), escape bs ++ drop (length (escape bs)) buf)
unfolding gdb_enc_bin
gdb_enc_bin-Written bs buf room =
    let zero_more : 0 + length (escape bs) ≡ length (escape bs) = omega arith in
    let written = enc_bin_loop_fits bs [] [] buf 0 0 (length buf) refl refl (omega arith) room in
    unfold Written in rw zero_more at written

-- The assertion in `gdb_enc_bin` fails exactly when the escaped bytes are more than the buffer
-- holds.
pub gdb_enc_bin_fails_iff :
    (bs buf : Bytes)
    → ((gdb_enc_bin buf (length buf) bs (length bs)).0 ≡ assert_fails)
      ↔ (length buf < length (escape bs))
gdb_enc_bin_fails_iff bs buf = (
  λ h. elim (Bool-cases (leb (length (escape bs)) (length buf))) [
    | inl fits ↦
        let e = gdb_enc_bin-Written bs buf (ground (arith, fits)) in
        absurd (cc (ap (λ (r : Status × Bytes). r.0) e, h))
    | inr full ↦ ground (arith, full)
  ],
  λ full.
      unfold gdb_enc_bin in
      enc_bin_loop_full bs [] [] buf 0 0 (length buf) refl refl (omega arith) full,
)

-- One byte takes one or two characters, none of which is '$', '#' or '*'.
abbrev Unframed : Bytes → Type 0
Unframed [] = Unit
Unframed (c ∷ cs) = (c ≢ 36) × (c ≢ 35) × (c ≢ 42) × Unframed cs

pub escape-Unframed :
    (bs : Bytes)
    → Unframed (escape bs) × (length bs ≤ length (escape bs)) × (length (escape bs) ≤ 2 * length bs)
escape-Unframed [] = unfold escape in (tt, omega arith, omega arith)
escape-Unframed (b ∷ bs) =
    let rest = escape-Unframed bs in
    elim (Bool-cases (is_special b)) [
      | inl special ↦
          let clean =
            special_cases
              (λ k. (bit_xor k 0x20 ≢ 36) × (bit_xor k 0x20 ≢ 35) × (bit_xor k 0x20 ≢ 42)) b
              (omega arith) (omega arith) (omega arith) (omega arith) special in
          rw (escape_special b bs special) (
            (
              (omega arith, omega arith, omega arith, (clean.0, clean.1, clean.2, rest.0)),
              omega (arith, rest.1),
              omega (arith, rest.2),
            ))
      | inr plain ↦
          let clean : (b ≢ 36) × (b ≢ 35) × (b ≢ 42) = unfold is_special in ground (arith, plain) in
          rw (escape_plain b bs plain)
            (((clean.0, clean.1, clean.2, rest.0), omega (arith, rest.1), omega (arith, rest.2)))
    ]
