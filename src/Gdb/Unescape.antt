-- ===== src/Gdb/Unescape.antt =====
-- `gdb_dec_bin` of mckrnl/gdb/encoding.c takes away the escapes that `gdb_enc_bin` wrote.
use goofy_micro_os.Prelude.{
  ℕ, zero, suc, ◌+◌, ◌≤◌, ◌<◌, bit_xor, ◌≡◌, refl, true, false, Bool-cases, inl, inr, Option, some,
  [], ◌∷◌, ◌++◌, append_assoc, arith, ltb, leb, length, drop, length-append, get_or-past, set-past,
  ◌∙◌,
}
use goofy_micro_os.Gdb.{
  Bytes, Status, length_is, is_special, gdb_enc_bin, dec_bin_loop, gdb_dec_bin,
}
use goofy_micro_os.Gdb.Hex.{get_or-second}
use goofy_micro_os.Gdb.Escapes.{
  escape, escape_special, escape_plain, xor_back, plain-ne-escape, gdb_enc_bin-Written,
  escape-Unframed,
}

-- One round of the loop that reads.
module _ (front done : Bytes) (fuel p i len count : ℕ) (hp : p ≡ length front)
    (hi : i ≡ length done) where
  dec_escaped :
      (b x : ℕ) (cs out : Bytes) {r : Option (Status × Bytes)}
      → is_special b ≡ true
      → p + 2 ≤ len
      → i < count
      → dec_bin_loop fuel
          (p + 2)
          (i + 1)
          len
          count
          ((front ++ 125 ∷ bit_xor b 0x20 ∷ []) ++ cs)
          ((done ++ b ∷ []) ++ out)
        ≡ r
      → dec_bin_loop (suc fuel) p i len count (front ++ 125 ∷ bit_xor b 0x20 ∷ cs) (done ++ x ∷ out)
        ≡ r
  unfolding dec_bin_loop
  dec_escaped b x cs out special hl hc rest =
      let e : ℕ = bit_xor b 0x20 in
      let more : ltb p len ≡ true = ground (arith, hl) in
      let spare : leb count i ≡ false = ground (arith, hc) in
      let two : leb len (p + 1) ≡ false = ground (arith, hl) in
      rw
        (
          dec_bin_loop,
          more,
          spare,
          get_or-past front 125 (e ∷ cs) p 0 hp,
          two,
          get_or-second front 125 e cs p 0 hp,
          xor_back b special,
          set-past done x out i b hi,
        )
        (simp append_assoc at rest)

  dec_plain :
      (b x : ℕ) (cs out : Bytes) {r : Option (Status × Bytes)}
      → is_special b ≡ false
      → p + 1 ≤ len
      → i < count
      → dec_bin_loop fuel
          (p + 1)
          (i + 1)
          len
          count
          ((front ++ b ∷ []) ++ cs)
          ((done ++ b ∷ []) ++ out)
        ≡ r
      → dec_bin_loop (suc fuel) p i len count (front ++ b ∷ cs) (done ++ x ∷ out) ≡ r
  unfolding dec_bin_loop
  dec_plain b x cs out plain hl hc rest =
      let more : ltb p len ≡ true = ground (arith, hl) in
      let spare : leb count i ≡ false = ground (arith, hc) in
      rw
        (
          dec_bin_loop,
          more,
          spare,
          get_or-past front b cs p 0 hp,
          plain-ne-escape b plain,
          get_or-past front b cs p 0 hp,
          set-past done x out i b hi,
        )
        (simp append_assoc at rest)

dec_bin_loop-escape :
    (todo front done out tail : Bytes) (fuel p i len count : ℕ)
    → p ≡ length front
    → i ≡ length done
    → len ≡ p + length (escape todo)
    → count ≡ i + length out
    → length todo ≤ length out
    → length todo < fuel
    → dec_bin_loop fuel p i len count (front ++ (escape todo ++ tail)) (done ++ out)
      ≡ some (length_is (i + length todo), done ++ (todo ++ drop (length todo) out))
dec_bin_loop-escape todo front done out tail zero p i len count hp hi hl hc room enough =
    absurd (omega (arith, enough))
dec_bin_loop-escape [] front done out tail (suc fuel) p i len count hp hi hl hc room enough =
    let over : ltb p len ≡ false = unfold escape in ground (arith, hl) in
    let same : i ≡ i + 0 = omega arith in unfold dec_bin_loop in rw (dec_bin_loop, over, ← same)
dec_bin_loop-escape (b ∷ bs) front done [] tail (suc fuel) p i len count hp hi hl hc room enough =
    absurd (omega (arith, room))
dec_bin_loop-escape (b ∷ bs) front done (x ∷ out) tail (suc fuel) p i len count hp hi hl hc room
      enough =
    let moved : i + 1 + length bs ≡ i + suc (length bs) = omega arith in
    elim (Bool-cases (is_special b)) [
      | inl special ↦
          let wide : len ≡ p + suc (suc (length (escape bs))) =
            rw (escape_special b bs special) at hl in
          let rest =
            dec_bin_loop-escape bs (front ++ 125 ∷ bit_xor b 0x20 ∷ []) (done ++ b ∷ []) out tail
              fuel (p + 2) (i + 1) len count (rw length-append (omega (arith, hp)))
              (rw length-append (omega (arith, hi))) (omega (arith, wide)) (omega (arith, hc))
              (omega (arith, room)) (omega (arith, enough)) in
          rw (escape_special b bs special) (
            dec_escaped front done fuel p i len count hp hi b x (escape bs ++ tail) out special
              (omega (arith, wide)) (omega (arith, hc))
              (rest ∙ rw (moved, append_assoc done (b ∷ []) (bs ++ drop (length bs) out))))
      | inr plain ↦
          let wide : len ≡ p + suc (length (escape bs)) = rw (escape_plain b bs plain) at hl in
          let rest =
            dec_bin_loop-escape bs (front ++ b ∷ []) (done ++ b ∷ []) out tail fuel (p + 1) (i + 1)
              len count (rw length-append (omega (arith, hp)))
              (rw length-append (omega (arith, hi))) (omega (arith, wide)) (omega (arith, hc))
              (omega (arith, room)) (omega (arith, enough)) in
          rw (escape_plain b bs plain) (
            dec_plain front done fuel p i len count hp hi b x (escape bs ++ tail) out plain
              (omega (arith, wide)) (omega (arith, hc))
              (rest ∙ rw (moved, append_assoc done (b ∷ []) (bs ++ drop (length bs) out))))
    ]

-- `gdb_dec_bin` reads back the bytes that `gdb_enc_bin` wrote into a buffer with room for them,
-- stores them at the start of a destination with room for them, and returns their number.
pub gdb_dec_bin-gdb_enc_bin :
    (bs buf out : Bytes)
    → length (escape bs) ≤ length buf
    → length bs ≤ length out
    → gdb_dec_bin
        (gdb_enc_bin buf (length buf) bs (length bs)).1
        (length (escape bs))
        out
        (length out)
      ≡ some (length_is (length bs), bs ++ drop (length bs) out)
unfolding gdb_dec_bin
gdb_dec_bin-gdb_enc_bin bs buf out fits room =
    let zero_more : 0 + length bs ≡ length bs = omega arith in
    let read =
      dec_bin_loop-escape bs [] [] out (drop (length (escape bs)) buf) (length (escape bs) + 1) 0 0
        (length (escape bs)) (length out) refl refl (omega arith) (omega arith) room
        (omega (arith, (escape-Unframed bs).1)) in
    rw (gdb_enc_bin-Written bs buf fits) (rw zero_more at read)
