-- ===== src/Gdb/Link/Frames.antt =====
-- A packet of the debugger stub, from the sender's `gdb_send_packet` to the receiver's
-- `gdb_recv_packet`.
use goofy_micro_os.Prelude.{
  ℕ, suc, ◌+◌, ◌/◌, ◌%◌, ◌≤◌, ◌<◌, ◌≡◌, ◌≢◌, refl, ◌∙◌, true, false, Bool-cases, inl, inr, some, [],
  ◌∷◌, ◌++◌, append-nil, append_assoc, arith, leb, ◌==◌, if◌then◌else◌, length, drop, length-append,
  get_or-past, set-past,
}
use goofy_micro_os.Gdb.{Bytes, length_is, gdb_eof}
use goofy_micro_os.Gdb.Hex.{hex, gdb_enc_hex_lem, gdb_dec_hex-hex, gdb_get_digit-ne-eof}
use goofy_micro_os.Gdb.Link.{
  Port, gdb_sys_putchar, gdb_sys_getc, write_loop, gdb_write, read_loop, gdb_read, gdb_recv_ack,
  checksum_loop, gdb_checksum, gdb_send_packet, skip_to_start, Received, read_body, acknowledge,
  read_checksum, gdb_recv_packet,
}

write_loop-append :
    (todo done : Bytes) (i : ℕ) (s : Port)
    → i ≡ length done
    → write_loop (length todo) i (done ++ todo) s ≡ record s { sent = s.sent ++ todo }
unfolding write_loop gdb_sys_putchar
write_loop-append [] done i s hi = rw (append-nil s.sent)
write_loop-append (b ∷ bs) done i s hi =
    let rest =
      write_loop-append bs (done ++ b ∷ []) (i + 1) (record s { sent = s.sent ++ b ∷ [] })
        (rw length-append (omega (arith, hi))) in
    rw (write_loop, get_or-past done b bs i 0 hi) (simp append_assoc at rest)

-- `gdb_write` sends the bytes it is given, in their order.
gdb_write-append :
    (bs : Bytes) (s : Port) → gdb_write bs (length bs) s ≡ record s { sent = s.sent ++ bs }
unfolding gdb_write
gdb_write-append bs s = write_loop-append bs [] 0 s refl

-- The sum of the bytes, by which the checksum is described.
unfoldable pub sum : Bytes → ℕ
sum [] = 0
sum (b ∷ bs) = b + sum bs

checksum_loop-sum :
    (todo done rest : Bytes) (i csum : ℕ)
    → i ≡ length done
    → csum < 256
    → checksum_loop (length todo) i (done ++ (todo ++ rest)) csum ≡ (csum + sum todo) % 256
unfolding checksum_loop sum
checksum_loop-sum [] done rest i csum hi small = omega (arith, small)
checksum_loop-sum (b ∷ bs) done rest i csum hi small =
    let more =
      checksum_loop-sum bs (done ++ b ∷ []) rest (i + 1) ((csum + b) % 256)
        (rw length-append (omega (arith, hi))) (omega arith) in
    let next : ((csum + b) % 256 + sum bs) % 256 ≡ (csum + (b + sum bs)) % 256 = omega arith in
    rw (checksum_loop, get_or-past done b (bs ++ rest) i 0 hi) ((simp append_assoc at more) ∙ next)

-- The checksum is the sum of the bytes, modulo 256.
pub gdb_checksum-sum : (bs rest : Bytes) → gdb_checksum (bs ++ rest) (length bs) ≡ sum bs % 256
unfolding gdb_checksum
gdb_checksum-sum bs rest = omega (arith, checksum_loop-sum bs [] rest 0 0 refl (omega arith))

-- A packet on the wire.
abbrev pub frame : Bytes → ℕ → Bytes
frame bs csum = 36 ∷ (bs ++ 35 ∷ hex (csum ∷ []))

-- `gdb_send_packet` sends the frame of the packet with its checksum, and then waits for the answer.
pub gdb_send_packet-frame :
    (bs : Bytes) (s : Port)
    → gdb_send_packet bs (length bs) s
      ≡ gdb_recv_ack (record s { sent = s.sent ++ frame bs (sum bs % 256) })
unfolding gdb_send_packet gdb_sys_putchar
gdb_send_packet-frame bs s =
    let csum : ℕ = sum bs % 256 in
    let summed : gdb_checksum bs (length bs) ≡ csum = rw append-nil at (gdb_checksum-sum bs []) in
    let coded = gdb_enc_hex_lem (csum ∷ []) (0 ∷ 0 ∷ []) (omega arith, tt) in
    let started : Port = record s { sent = s.sent ++ 36 ∷ [] } in
    let body : Port = record s { sent = (s.sent ++ 36 ∷ []) ++ bs } in
    let closed : gdb_write (35 ∷ (hex (csum ∷ []) ++ [])) 3 body
        ≡ record s { sent = s.sent ++ frame bs csum } =
      unfold hex in gdb_write-append (35 ∷ hex (csum ∷ [])) body ∙ simp append_assoc in
    rw (gdb_write-append bs started, summed, coded, closed)

-- Bytes before a packet, and the bytes of a packet.
abbrev pub Noise : Bytes → Type 0
Noise [] = Unit
Noise (c ∷ cs) = (c ≢ 36) × (c ≢ 0xff) × Noise cs

abbrev pub Body : Bytes → Type 0
Body [] = Unit
Body (c ∷ cs) = (c ≢ 35) × (c ≢ 0xff) × Body cs

skip_to_start-Noise :
    (noise cs : Bytes) → Noise noise → skip_to_start (noise ++ 36 ∷ cs) ≡ some (length_is 0, cs)
unfolding skip_to_start
skip_to_start-Noise [] cs h = refl
skip_to_start-Noise (c ∷ noise) cs h = ground (arith, h, skip_to_start-Noise noise cs h.2)

read_body-Body :
    (bs front back cs sent : Bytes) (p len : ℕ)
    → Body bs
    → p ≡ length front
    → len ≡ p + length back
    → length bs ≤ length back
    → read_body (bs ++ 35 ∷ cs) (front ++ back) len p sent
      ≡ some (record {
        status = length_is 0;
        pkt_buf = front ++ (bs ++ drop (length bs) back);
        pkt_len = p + length bs;
        port = record { incoming = cs; sent = sent };
      })
unfolding read_body
read_body-Body [] front back cs sent p len body hp hl room =
    let same : p ≡ p + 0 = omega arith in rw (← same)
read_body-Body (b ∷ bs) front [] cs sent p len body hp hl room = absurd (omega (arith, room))
read_body-Body (b ∷ bs) front (x ∷ back) cs sent p len body hp hl room =
    let eof : (b == 0xff) ≡ false = ground (arith, body.1) in
    let mark : (b == 35) ≡ false = ground (arith, body.0) in
    let spare : leb len p ≡ false = ground (arith, hl) in
    let moved : p + 1 + length bs ≡ p + suc (length bs) = omega arith in
    let rest =
      read_body-Body bs (front ++ b ∷ []) back cs sent (p + 1) len body.2
        (rw length-append (omega (arith, hp))) (omega (arith, hl)) (omega (arith, room)) in
    rw (eof, mark, spare, set-past front x back p b hp) (rw moved at (simp append_assoc at rest))

-- The two digits after the '#' are read, and answered.
read_checksum-hex :
    (r : Received) (c : ℕ) (more sent : Bytes)
    → c < 256
    → r.status ≡ length_is 0
    → r.port ≡ record { incoming = hex (c ∷ []) ++ more; sent = sent }
    → read_checksum r
      ≡ some (acknowledge c (record r { port = record { incoming = more; sent = sent } }))
unfolding read_checksum gdb_read read_loop gdb_sys_getc hex
read_checksum-hex r c more sent small hs hp =
    let high = gdb_get_digit-ne-eof (c / 16) (omega (arith, small)) in
    let low = gdb_get_digit-ne-eof (c % 16) (omega arith) in
    let decoded = gdb_dec_hex-hex (c ∷ []) [] (0 ∷ []) (small, tt) (omega arith) in
    rw (hp, high, low, decoded)

-- For a packet with room in the buffer, of bytes that are neither '#' nor 0xff, behind bytes that
-- are neither '$' nor 0xff, and with a checksum in two lower-case hexadecimal digits:
-- `gdb_recv_packet` skips what comes before the '$', stores the bytes up to the '#', and answers
-- '+' and returns 0 if the checksum is theirs; otherwise it answers '-' and fails.
pub gdb_recv_packet-frame :
    (noise bs more buf sent : Bytes) (c len : ℕ)
    → Noise noise
    → Body bs
    → length bs ≤ length buf
    → c < 256
    → gdb_recv_packet buf
        (length buf)
        len
        (record { incoming = noise ++ (frame bs c ++ more); sent = sent })
      ≡ some (
          let good = sum bs % 256 == c in
          record {
            status = if good then length_is 0 else gdb_eof;
            pkt_buf = bs ++ drop (length bs) buf;
            pkt_len = length bs;
            port = record { incoming = more; sent = sent ++ (if good then 43 else 45) ∷ [] };
          })
unfolding gdb_recv_packet acknowledge gdb_sys_putchar
gdb_recv_packet-frame noise bs more buf sent c len quiet body room small =
    let zero_more : 0 + length bs ≡ length bs = omega arith in
    let r : Received = record {
      status = length_is 0;
      pkt_buf = bs ++ drop (length bs) buf;
      pkt_len = length bs;
      port = record { incoming = hex (c ∷ []) ++ more; sent = sent };
    } in
    let read : read_body (bs ++ 35 ∷ (hex (c ∷ []) ++ more)) buf (length buf) 0 sent ≡ some r =
      rw zero_more at (
        read_body-Body bs [] buf (hex (c ∷ []) ++ more) sent 0 (length buf) body refl (omega arith)
          room) in
    let whole : (bs ++ 35 ∷ hex (c ∷ [])) ++ more ≡ bs ++ 35 ∷ (hex (c ∷ []) ++ more) =
      append_assoc bs (35 ∷ hex (c ∷ [])) more in
    rw
      (
        whole,
        skip_to_start-Noise noise (bs ++ 35 ∷ (hex (c ∷ []) ++ more)) quiet,
        read,
        read_checksum-hex r c more sent small refl refl,
        gdb_checksum-sum bs (drop (length bs) buf),
      )
      (elim (Bool-cases (sum bs % 256 == c)) [ inl good ↦ rw good | inr bad ↦ rw bad ])

-- What one stub sends is what the other receives: after `gdb_send_packet` of a packet without '#'
-- and 0xff, `gdb_recv_packet` at the other end, with room for it, stores the packet and its length,
-- returns 0 and answers '+', and nothing of the frame is left.
pub gdb_recv_packet-gdb_send_packet :
    (bs buf incoming : Bytes) (len : ℕ)
    → Body bs
    → length bs ≤ length buf
    → (wire : Bytes) × (gdb_send_packet bs (length bs) (record { incoming = incoming; sent = [] })
        ≡ gdb_recv_ack (record { incoming = incoming; sent = wire }))
      × (gdb_recv_packet buf (length buf) len (record { incoming = wire; sent = [] })
          ≡ some (record {
            status = length_is 0;
            pkt_buf = bs ++ drop (length bs) buf;
            pkt_len = length bs;
            port = record { incoming = []; sent = 43 ∷ [] };
          }))
gdb_recv_packet-gdb_send_packet bs buf incoming len body room =
    let c : ℕ = sum bs % 256 in
    let same : (c == c) ≡ true = ground arith in
    (
      frame bs c,
      gdb_send_packet-frame bs (record { incoming = incoming; sent = [] }),
      rw (append-nil, same) at
          (gdb_recv_packet-frame [] bs [] buf [] c len tt body room (omega arith)),
    )
