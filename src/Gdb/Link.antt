-- ===== src/Gdb/Link.antt =====
-- The packets of the debugger stub: mckrnl/gdb/connection.c, and the checksum, the sender and the
-- receiver of mckrnl/gdb/gdb.c. `read_serial` waits for a byte: `none` is a wait that does not end.
-- The byte 0xff is `(char) GDB_EOF`.
pub mod Frames
use goofy_micro_os.Prelude.{
  ℕ, zero, suc, ◌+◌, ◌%◌, Option, none, some, List, [], ◌∷◌, ◌++◌, ltb, leb, ◌==◌, if◌then◌else◌,
  get_or, set,
}
use goofy_micro_os.Prelude.Options.{◌>>=◌}
use goofy_micro_os.Gdb.{Bytes, Status, length_is, gdb_eof, assert_fails, gdb_enc_hex, gdb_dec_hex}

-- What will still come in on the serial port, and what has gone out.
pub record Port : Type 0 where
  pub incoming : Bytes
  pub sent : Bytes

unfoldable pub gdb_sys_putchar : ℕ → Port → Port
gdb_sys_putchar ch s = record s { sent = s.sent ++ ch ∷ [] }

unfoldable pub gdb_sys_getc : Port → Option (ℕ × Port)
gdb_sys_getc s = next s.incoming
  where
    next : Bytes → Option (ℕ × Port)
    next [] = none
    next (c ∷ cs) = some (c, record s { incoming = cs })

-- `len` bytes of `buf`, from index `i` on; `gdb_sys_putchar` does not fail.
unfoldable pub write_loop : (len i : ℕ) (buf : Bytes) → Port → Port
write_loop zero i buf s = s
write_loop (suc len) i buf s = write_loop len (i + 1) buf (gdb_sys_putchar (get_or buf i 0) s)

unfoldable pub gdb_write : (buf : Bytes) (len : ℕ) → Port → Port
gdb_write buf len s = write_loop len 0 buf s

-- `len` bytes are left, and `i` have been stored.
unfoldable pub read_loop : (len i : ℕ) (buf : Bytes) → Port → Option (Status × Bytes × Port)
read_loop zero i buf s = some (length_is 0, buf, s)
read_loop (suc len) i buf s = do
  let (c, s') = (← gdb_sys_getc s)
  let rest = read_loop len (i + 1) (set buf i c) s'
  if c == 0xff then some (gdb_eof, buf, s') else rest

unfoldable pub gdb_read : (buf : Bytes) (buf_len len : ℕ) → Port → Option (Status × Bytes × Port)
gdb_read buf buf_len len s =
    if ltb buf_len len then some (gdb_eof, buf, s) else read_loop len 0 buf s

-- 0 for '+', 1 for '-'
unfoldable pub gdb_recv_ack : Port → Option (Status × Port)
gdb_recv_ack s = do
  let (response, s') = (← gdb_sys_getc s)
  some (if response == 43 then length_is 0 else if response == 45 then length_is 1 else gdb_eof, s')

-- `len` bytes of `buf`, from index `i` on.
unfoldable pub checksum_loop : (len i : ℕ) (buf : Bytes) (csum : ℕ) → ℕ
checksum_loop zero i buf csum = csum
checksum_loop (suc len) i buf csum = checksum_loop len (i + 1) buf ((csum + get_or buf i 0) % 256)

unfoldable pub gdb_checksum : (buf : Bytes) (len : ℕ) → ℕ
gdb_checksum buf len = checksum_loop len 0 buf 0

unfoldable pub gdb_send_packet : (pkt_data : Bytes) (pkt_len : ℕ) → Port → Option (Status × Port)
gdb_send_packet pkt_data pkt_len s =
    let s' = gdb_write pkt_data pkt_len (gdb_sys_putchar 36 s) in
    finish s' (gdb_enc_hex (0 ∷ 0 ∷ []) 2 (gdb_checksum pkt_data pkt_len ∷ []) 1)
  where
    finish : Port → Status × Bytes → Option (Status × Port)
    finish s (length_is n, digits) = gdb_recv_ack (gdb_write (35 ∷ digits) 3 s)
    finish s (gdb_eof, digits) = some (gdb_eof, s)
    finish s (assert_fails, digits) = some (assert_fails, s)

-- The first loop of `gdb_recv_packet`, on what comes in: up to the '$'.
unfoldable pub skip_to_start : Bytes → Option (Status × Bytes)
skip_to_start [] = none
skip_to_start (c ∷ cs) =
    let rest = skip_to_start cs in
    if c == 0xff then some (gdb_eof, cs) else if c == 36 then some (length_is 0, cs) else rest

-- What `gdb_recv_packet` leaves: its result, the buffer, `*pkt_len` and the port.
pub record Received : Type 0 where
  pub status : Status
  pub pkt_buf : Bytes
  pub pkt_len : ℕ
  pub port : Port

-- The second loop: the bytes before the '#', with what comes in after it.
unfoldable pub read_body :
    (incoming : Bytes) (pkt_buf : Bytes) (pkt_buf_len pkt_len : ℕ) (sent : Bytes) → Option Received
read_body [] pkt_buf pkt_buf_len pkt_len sent = none
read_body (c ∷ cs) pkt_buf pkt_buf_len pkt_len sent =
    let rest = read_body cs (set pkt_buf pkt_len c) pkt_buf_len (pkt_len + 1) sent in
    if c == 0xff
    then stop gdb_eof
    else if c == 35
    then stop (length_is 0)
    else if leb pkt_buf_len pkt_len
    then stop gdb_eof
    else rest
  where
    stop : Status → Option Received
    stop status = some (record {
      status = status;
      pkt_buf = pkt_buf;
      pkt_len = pkt_len;
      port = record { incoming = cs; sent = sent };
    })

-- The comparison of the checksums and the answer.
unfoldable pub acknowledge : (expected : ℕ) → Received → Received
acknowledge expected r =
    if gdb_checksum r.pkt_buf r.pkt_len == expected
    then record r { status = length_is 0; port = gdb_sys_putchar 43 r.port }
    else record r { status = gdb_eof; port = gdb_sys_putchar 45 r.port }

-- What follows the '#': two digits and the answer.
unfoldable pub read_checksum : Received → Option Received
read_checksum r = do
  let (status, buf, port) = (← gdb_read (0 ∷ 0 ∷ []) 2 2 r.port)
  let r' = record r { port = port }
  some (decoded r' status (gdb_dec_hex buf 2 (0 ∷ []) 1))
  where
    decoded : Received → Status → Status × Bytes → Received
    decoded r gdb_eof d = record r { status = gdb_eof }
    decoded r assert_fails d = record r { status = assert_fails }
    decoded r (length_is n) (length_is m, expected) = acknowledge (get_or expected 0 0) r
    decoded r (length_is n) (gdb_eof, expected) = record r { status = gdb_eof }
    decoded r (length_is n) (assert_fails, expected) = record r { status = assert_fails }

unfoldable pub gdb_recv_packet :
    (pkt_buf : Bytes) (pkt_buf_len pkt_len : ℕ) → Port → Option Received
gdb_recv_packet pkt_buf pkt_buf_len pkt_len s = do
  let (status, incoming) = (← skip_to_start s.incoming)
  framed status (record s { incoming = incoming })
  where
    checked : Received → Option Received
    checked r = elim r.status [
      | length_is n ↦ read_checksum r
      | gdb_eof ↦ some r
      | assert_fails ↦ some r
    ]

    failed : Status → Port → Received
    failed status s = record { status = status; pkt_buf = pkt_buf; pkt_len = pkt_len; port = s }

    framed : Status → Port → Option Received
    framed (length_is n) s = do
      let r = (← read_body s.incoming pkt_buf pkt_buf_len 0 s.sent)
      checked r
    framed gdb_eof s = some (failed gdb_eof s)
    framed assert_fails s = some (failed assert_fails s)
