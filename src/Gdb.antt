-- ===== src/Gdb.antt =====
-- The debugger stub of mckrnl/gdb: what encoding.c writes and reads, and the numbers of utils.c.
-- A `char` is its byte, `GDB_EOF` is `gdb_eof`, and `assert(0)`, which does not come back, is
-- `assert_fails`. A buffer is the list of its bytes, and a write past its end is lost.
pub mod Hex
pub mod Numbers
pub mod Escapes
pub mod Unescape
pub mod Link
mod Tests
use goofy_micro_os.Prelude.{
  ℕ, zero, suc, ◌+◌, ◌-◌, ◌*◌, ◌/◌, ◌%◌, ◌^◌, bit_or, bit_xor, Bool, true, false, ◌||◌, ◌&&◌,
  Option, none, some, List, [], ◌∷◌, ltb, leb, between, ◌==◌, if◌then◌else◌, get_or, set,
}

abbrev pub Bytes : Type 0
Bytes = List ℕ

pub data Status : Type 0 where
  length_is : ℕ → Status
  gdb_eof : Status
  assert_fails : Status

-- "0123456789abcdef"
abbrev pub digits : Bytes
digits = 48 ∷ 49 ∷ 50 ∷ 51 ∷ 52 ∷ 53 ∷ 54 ∷ 55 ∷ 56 ∷ 57 ∷ 97 ∷ 98 ∷ 99 ∷ 100 ∷ 101 ∷ 102 ∷ []

-- `(char) GDB_EOF` is the byte 0xff.
unfoldable pub gdb_get_digit : ℕ → ℕ
gdb_get_digit val = if leb val 0xf then get_or digits val 0xff else 0xff

unfoldable pub gdb_get_val : ℕ → ℕ → Option ℕ
gdb_get_val digit base =
    if between 48 57 digit
    then below (digit - 48)
    else if between 97 102 digit
    then below (digit - 97 + 0xa)
    else if between 65 70 digit
    then below (digit - 65 + 0xa)
    else none
  where
    below : ℕ → Option ℕ
    below value = if ltb value base then some value else none

-- `count` bytes are left, from index `i` on; `buf` has moved two bytes for each that was written.
unfoldable pub enc_hex_loop : (count i : ℕ) (bytes buf : Bytes) → Bytes
enc_hex_loop zero i bytes buf = buf
enc_hex_loop (suc count) i bytes buf =
    let byte = get_or bytes i 0 in
    let high = set buf (2 * i) (gdb_get_digit (byte / 16 % 16)) in
    enc_hex_loop count (i + 1) bytes (set high (2 * i + 1) (gdb_get_digit (byte % 16)))

unfoldable pub gdb_enc_hex :
    (buf : Bytes) (buf_len : ℕ) (bytes : Bytes) (data_len : ℕ) → Status × Bytes
gdb_enc_hex buf buf_len bytes data_len =
    if ltb buf_len (data_len * 2)
    then (gdb_eof, buf)
    else (length_is (data_len * 2), enc_hex_loop data_len 0 bytes buf)

unfoldable pub dec_hex_loop : (count i : ℕ) (buf bytes : Bytes) → Status × Bytes
dec_hex_loop zero i buf bytes = (length_is 0, bytes)
dec_hex_loop (suc count) i buf bytes = elim (gdb_get_val (get_or buf (2 * i) 0) 16) [
  | none ↦ (assert_fails, bytes)
  | some high ↦
      let half = set bytes i (high * 16 % 256) in
      elim (gdb_get_val (get_or buf (2 * i + 1) 0) 16) [
        | none ↦ (assert_fails, half)
        | some low ↦ dec_hex_loop count (i + 1) buf (set half i (bit_or (get_or half i 0) low))
      ]
]

unfoldable pub gdb_dec_hex :
    (buf : Bytes) (buf_len : ℕ) (bytes : Bytes) (data_len : ℕ) → Status × Bytes
gdb_dec_hex buf buf_len bytes data_len =
    if buf_len == data_len * 2 then dec_hex_loop data_len 0 buf bytes else (gdb_eof, bytes)

-- '$', '#', '}' and '*'
unfoldable pub is_special : ℕ → Bool
is_special c = c == 36 || c == 35 || c == 125 || c == 42

-- `count` bytes of `bytes` are left, from `data_pos` on.
unfoldable pub enc_bin_loop :
    (count data_pos buf_pos buf_len : ℕ) (bytes buf : Bytes) → Status × Bytes
enc_bin_loop zero data_pos buf_pos buf_len bytes buf = (length_is buf_pos, buf)
enc_bin_loop (suc count) data_pos buf_pos buf_len bytes buf =
    let byte = get_or bytes data_pos 0 in
    elim (is_special byte) [
      | true ↦ elim (leb buf_len (buf_pos + 1)) [
        | true ↦ (assert_fails, buf)
        | false ↦
            let escaped = set (set buf buf_pos 125) (buf_pos + 1) (bit_xor byte 0x20) in
            enc_bin_loop count (data_pos + 1) (buf_pos + 2) buf_len bytes escaped
      ]
      | false ↦ elim (leb buf_len buf_pos) [
        | true ↦ (assert_fails, buf)
        | false ↦
            enc_bin_loop count (data_pos + 1) (buf_pos + 1) buf_len bytes (set buf buf_pos byte)
      ]
    ]

unfoldable pub gdb_enc_bin :
    (buf : Bytes) (buf_len : ℕ) (bytes : Bytes) (data_len : ℕ) → Status × Bytes
gdb_enc_bin buf buf_len bytes data_len = enc_bin_loop data_len 0 0 buf_len bytes buf

-- Each round moves `buf_pos` on, so a fuel of `buf_len + 1` rounds is enough.
unfoldable pub dec_bin_loop :
    (fuel buf_pos data_pos buf_len data_len : ℕ) (buf bytes : Bytes) → Option (Status × Bytes)
dec_bin_loop zero buf_pos data_pos buf_len data_len buf bytes = none
dec_bin_loop (suc fuel) buf_pos data_pos buf_len data_len buf bytes = elim (ltb buf_pos buf_len) [
  | false ↦ some (length_is data_pos, bytes)
  | true ↦ elim (leb data_len data_pos) [
    | true ↦ some (assert_fails, bytes)
    | false ↦ elim (get_or buf buf_pos 0 == 125) [
      | true ↦ elim (leb buf_len (buf_pos + 1)) [
        | true ↦ some (assert_fails, bytes)
        | false ↦
            let plain = set bytes data_pos (bit_xor (get_or buf (buf_pos + 1) 0) 0x20) in
            dec_bin_loop fuel (buf_pos + 2) (data_pos + 1) buf_len data_len buf plain
      ]
      | false ↦
          let plain = set bytes data_pos (get_or buf buf_pos 0) in
          dec_bin_loop fuel (buf_pos + 1) (data_pos + 1) buf_len data_len buf plain
    ]
  ]
]

unfoldable pub gdb_dec_bin :
    (buf : Bytes) (buf_len : ℕ) (bytes : Bytes) (data_len : ℕ) → Option (Status × Bytes)
gdb_dec_bin buf buf_len bytes data_len = dec_bin_loop (buf_len + 1) 0 0 buf_len data_len buf bytes

-- What the digits read so far come to, where the loop stands, and whether there was one.
pub record Digits : Type 0 where
  pub value : ℕ
  pub pos : ℕ
  pub valid : Bool

-- `count` characters are left; an `int` is its bit pattern.
unfoldable pub strtol_digits : (count base : ℕ) (str : Bytes) → Digits → Digits
strtol_digits zero base str d = d
strtol_digits (suc count) base str d = elim (get_or str d.pos 0 == 0) [
  | true ↦ d
  | false ↦ elim (gdb_get_val (get_or str d.pos 0) base) [
    | none ↦ d
    | some tmp ↦
        strtol_digits count base str
          (record { value = (d.value * base + tmp) % 2 ^ 32; pos = d.pos + 1; valid = true })
  ]
]

-- The result, and `*endptr` as an index into `str`; `none` is NULL.
unfoldable pub gdb_strtol : (str : Bytes) (len base : ℕ) → ℕ × Option ℕ
gdb_strtol str len base =
    if ltb len 1
    then (0, none)
    else let minus = get_or str 0 0 == 45 in
      let start = if minus || get_or str 0 0 == 43 then 1 else 0 in
      let second = get_or str (start + 1) 0 in
      let prefix =
        ltb (start + 2) len && get_or str start 0 == 48 && (second == 120 || second == 88) in
      let from = if prefix then start + 2 else start in
      let radix = if prefix then 16 else if base == 0 then 10 else base in
      finish minus
        (strtol_digits (len - from) radix str (record { value = 0; pos = from; valid = false }))
  where
    finish : Bool → Digits → ℕ × Option ℕ
    finish minus d =
        if d.valid
        then (if minus then (2 ^ 32 - d.value) % 2 ^ 32 else d.value, some d.pos)
        else (0, none)
