-- ===== src/Gdb/Tests.antt =====
-- The theorems on the debugger stub at short packets, and runs of its functions.
use goofy_micro_os.Prelude.{
  ◌%◌, ◌<◌, ◌≡◌, ◌↔◌, refl, some, [], ◌∷◌, ◌++◌, drop, length, ◌==◌, if◌then◌else◌, arith,
}
use goofy_micro_os.Gdb.{
  Bytes, length_is, gdb_eof, assert_fails, gdb_get_digit, gdb_get_val, is_special, gdb_enc_hex,
  gdb_enc_bin, gdb_dec_bin, enc_hex_loop, enc_bin_loop, strtol_digits, gdb_strtol,
}
use goofy_micro_os.Gdb.Escapes.{escape, gdb_enc_bin_fails_iff}
use goofy_micro_os.Gdb.Unescape.{gdb_dec_bin-gdb_enc_bin}
use goofy_micro_os.Gdb.Numbers.{spelled, number, gdb_strtol-spelled}
use goofy_micro_os.Gdb.Link.{
  gdb_send_packet, gdb_recv_ack, gdb_recv_packet, gdb_checksum, checksum_loop,
}
use goofy_micro_os.Gdb.Link.Frames.{
  sum, frame, gdb_recv_packet-frame, gdb_recv_packet-gdb_send_packet,
}

abbrev two_bytes : Bytes
two_bytes = 0xab ∷ 0x05 ∷ []

abbrev room : Bytes
room = 0 ∷ 0 ∷ 0 ∷ 0 ∷ []

-- '$' and 'A'
abbrev dollar : Bytes
dollar = 36 ∷ 65 ∷ []

-- "OK"
abbrev ok_packet : Bytes
ok_packet = 79 ∷ 75 ∷ []

two_bytes_hex : gdb_enc_hex room 4 two_bytes 2 ≡ (length_is 4, 97 ∷ 98 ∷ 48 ∷ 53 ∷ [])
unfolding gdb_enc_hex enc_hex_loop gdb_get_digit
two_bytes_hex = refl

dollar_escaped : gdb_enc_bin room 4 dollar 2 ≡ (length_is 3, 125 ∷ 4 ∷ 65 ∷ 0 ∷ [])
unfolding gdb_enc_bin enc_bin_loop is_special
dollar_escaped = refl

-- "-0x10" is minus sixteen, whatever the base.
negative_hex : gdb_strtol (45 ∷ 48 ∷ 120 ∷ 49 ∷ 48 ∷ []) 5 10 ≡ (0xffff_fff0, some 5)
unfolding gdb_strtol strtol_digits gdb_get_val
negative_hex = refl

ok_checksum : gdb_checksum ok_packet 2 ≡ 0x9a
unfolding gdb_checksum checksum_loop
ok_checksum = refl

gdb_enc_bin_fails_iff_example :
    ((gdb_enc_bin (0 ∷ []) 1 dollar 2).0 ≡ assert_fails) ↔ (1 < length (escape dollar))
gdb_enc_bin_fails_iff_example = gdb_enc_bin_fails_iff dollar (0 ∷ [])

dollar_grows : length (escape dollar) ≡ 3
unfolding escape is_special
dollar_grows = refl

gdb_dec_bin-gdb_enc_bin_example :
    gdb_dec_bin (gdb_enc_bin room 4 dollar 2).1 (length (escape dollar)) (0 ∷ 0 ∷ []) 2
    ≡ some (length_is 2, dollar)
gdb_dec_bin-gdb_enc_bin_example =
    gdb_dec_bin-gdb_enc_bin dollar room (0 ∷ 0 ∷ []) (omega (arith, dollar_grows)) (omega arith)

-- "1f,": the number 31, up to the comma
gdb_strtol-spelled_example :
    gdb_strtol (spelled (1 ∷ 15 ∷ []) ++ (44 ∷ [])) 3 16 ≡ (number 0 (1 ∷ 15 ∷ []), some 2)
unfolding number gdb_get_val
gdb_strtol-spelled_example =
    gdb_strtol-spelled (1 ∷ 15 ∷ []) (44 ∷ []) 3 (omega arith, (omega arith, tt))
      (record { no_digit = refl; no_x = omega arith; no_capital_x = omega arith }) (omega arith)
      (omega arith) (omega arith)

-- A byte before the packet, and a wrong checksum.
gdb_recv_packet-frame_example :
    gdb_recv_packet room 4 0
      (record { incoming = 43 ∷ [] ++ (frame ok_packet 0x9b ++ []); sent = [] })
    ≡ some (
        let good = sum ok_packet % 256 == 0x9b in
        record {
          status = if good then length_is 0 else gdb_eof;
          pkt_buf = ok_packet ++ drop 2 room;
          pkt_len = 2;
          port = record { incoming = []; sent = [] ++ (if good then 43 else 45) ∷ [] };
        })
gdb_recv_packet-frame_example =
    gdb_recv_packet-frame (43 ∷ []) ok_packet [] room [] 0x9b 0 (omega arith, omega arith, tt)
      (omega arith, omega arith, (omega arith, omega arith, tt)) (omega arith) (omega arith)

gdb_recv_packet-gdb_send_packet_example :
    (wire : Bytes) × (gdb_send_packet ok_packet 2 (record { incoming = 43 ∷ []; sent = [] })
      ≡ gdb_recv_ack (record { incoming = 43 ∷ []; sent = wire }))
    × (gdb_recv_packet room 4 0 (record { incoming = wire; sent = [] })
        ≡ some (record {
          status = length_is 0;
          pkt_buf = ok_packet ++ drop 2 room;
          pkt_len = 2;
          port = record { incoming = []; sent = 43 ∷ [] };
        }))
gdb_recv_packet-gdb_send_packet_example =
    gdb_recv_packet-gdb_send_packet ok_packet room (43 ∷ []) 0
      (omega arith, omega arith, (omega arith, omega arith, tt)) (omega arith)
