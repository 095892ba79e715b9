-- ===== src/Tls/Stream.antt =====
-- The byte stream of src/tls.rs: `Rx::record`, and `read` and `write` of a connection. What the socket
-- gives is a list of reads, which ends at the end of the file or at the deadline; what its send queue
-- takes is kept in `sent`, and `rooms` is the room in the queue at each coming write.
use Prim.Native.Nat.{bit_or}
use veil_os.Tls.Record.{
  rec_handshake, rec_appdata, rec_ccs, rec_alert, encrypt_record, decrypt_record, Keys, advance,
}
use veil_os.Base.{
  ℕ, zero, suc, ◌+◌, ◌*◌, ◌^◌, min, List, [], ◌∷◌, ◌++◌, Option, none, some, ltb, ◌==◌,
  if◌then◌else◌, length, get_or, take, drop,
}

pub record Record : Type 0 where
  pub rtype : ℕ
  pub header : List ℕ
  pub body : List ℕ

-- A whole record at the front of the buffer, and what is behind it.
unfoldable pub take_record : List ℕ → Option (Record × List ℕ)
take_record buf =
    let len = bit_or (get_or buf 3 0 * 2 ^ 8) (get_or buf 4 0) in
    if ltb (length buf) 5
    then none
    else (if ltb (length buf) (5 + len)
        then none
        else some (
          record { rtype = get_or buf 0 0; header = take 5 buf; body = take len (drop 5 buf) },
          drop (5 + len) buf,
        ))

-- The buffer and the reads that are left.
pub record Rx : Type 0 where
  pub buf : List ℕ
  pub reads : List (List ℕ)

unfoldable pub found_record :
    List (List ℕ) → Option (Record × List ℕ) → Option Record × Rx → Option Record × Rx
found_record reads none other = other
found_record reads (some (rec, rest)) other = (some rec, record { buf = rest; reads = reads })

unfoldable pub rx_record : List ℕ → List (List ℕ) → Option Record × Rx
rx_record buf [] = found_record [] (take_record buf) (none, record { buf = buf; reads = [] })
rx_record buf (r ∷ reads) = found_record (r ∷ reads) (take_record buf) (rx_record (buf ++ r) reads)

pub record TlsConn : Type 0 where
  pub rx : Rx
  pub client : Keys
  pub server : Keys
  pub sent : List ℕ
  pub rooms : List ℕ

-- `tcp_write` of an open connection: the queue takes what it has room for.
unfoldable pub tcp_write : ℕ → List ℕ → List ℕ
tcp_write room bytes = take (min (length bytes) room) bytes

-- One chunk: its record, and the next number. The number of bytes taken is not looked at.
unfoldable pub send_chunk : TlsConn → List ℕ → TlsConn
send_chunk conn chunk =
    let k = conn.client in
    let rec = encrypt_record k.key k.iv k.seq rec_appdata chunk in
    record conn {
      client = advance k;
      sent = conn.sent ++ tcp_write (get_or conn.rooms 0 0) rec;
      rooms = drop 1 conn.rooms;
    }

-- `for chunk in data.chunks(16384)`; a round for each byte is enough.
unfoldable pub write_loop : ℕ → TlsConn → List ℕ → TlsConn
write_loop zero conn bytes = conn
write_loop (suc fuel) conn bytes =
    let later = write_loop fuel (send_chunk conn (take 16384 bytes)) (drop 16384 bytes) in
    if length bytes == 0 then conn else later

unfoldable pub write : TlsConn → List ℕ → TlsConn
write conn bytes = write_loop (length bytes) conn bytes

-- What a call of `read` returns, and whether the loop goes on instead.
pub data Next : Type 0 where
  give : Option (List ℕ) → Next
  go_on : Next

-- `match ctype`.
unfoldable pub match_content : ℕ → List ℕ → Next
match_content ctype content =
    if ctype == rec_appdata
    then give (some content)
    else (if ctype == rec_handshake
        then go_on
        else (if ctype == rec_alert then give none else go_on))

unfoldable pub opened : TlsConn → Option (ℕ × List ℕ) → TlsConn × Next
opened conn none = (conn, give none)
opened conn (some (ctype, content)) =
    (record conn { server = advance conn.server }, match_content ctype content)

-- `match rtype`.
unfoldable pub match_record : TlsConn → Record → TlsConn × Next
match_record conn r =
    let plain = decrypt_record conn.server.key conn.server.iv conn.server.seq r.header r.body in
    if r.rtype == rec_ccs
    then (conn, go_on)
    else (if r.rtype == rec_appdata then opened conn plain else (conn, go_on))

unfoldable pub read_next :
    (TlsConn → TlsConn × Option (List ℕ)) → TlsConn × Next → TlsConn × Option (List ℕ)
read_next again (conn, give result) = (conn, result)
read_next again (conn, go_on) = again conn

unfoldable pub read_record :
    (TlsConn → TlsConn × Option (List ℕ)) → TlsConn → Option Record × Rx → TlsConn × Option (List ℕ)
read_record again conn (none, rx) = (record conn { rx = rx }, none)
read_record again conn (some r, rx) = read_next again (match_record (record conn { rx = rx }) r)

-- A round for each record is enough.
unfoldable pub read : ℕ → TlsConn → TlsConn × Option (List ℕ)
read zero conn = (conn, none)
read (suc fuel) conn = read_record (read fuel) conn (rx_record conn.rx.buf conn.rx.reads)
