-- ===== src/Tls/Delivery.antt =====
-- What one end writes the other end reads (src/tls.rs), whatever the reads of the socket.
use mathlib.Core.List.{append_assoc, append-nil}
use veil_os.Tls.Record.{rec_appdata, encrypt_record, Keys, advance}
use veil_os.Tls.Stream.{
  take_record, TlsConn, send_chunk, write_loop, write, tcp_write, match_content, opened,
  match_record, read_next, read_record, read,
}
use veil_os.Tls.Protect.{decrypt_record-body_of, take_record-encrypt_record, length-encrypt_record}
use veil_os.Tls.Buffer.{rx_record_lem}
use veil_os.Base.{◌>>=◌}
use veil_os.Base.{
  ℕ, zero, suc, ◌*◌, ◌≤◌, ◌<◌, min, ◌≡◌, refl, sym, ap, ◌∙◌, inl, inr, true, List, [], ◌∷◌, ◌++◌,
  Option, some, arith, ◌==◌, if◌then◌else◌, Bool-cases, length-take, length-drop, take-append-drop,
  concat, length, get_or, take, drop,
}

-- One call of `read` after another, of one record each, their contents put together.
unfoldable pub read_all : ℕ → TlsConn → Option (List ℕ)
read_all zero conn = some []
read_all (suc calls) conn =
    let (later, content) = read 1 conn in
    content >>= λ bytes. read_all calls later >>= λ more. some (bytes ++ more)

-- The records of some bytes, with the keys from `k` on.
unfoldable pub sealed : ℕ → Keys → List ℕ → List ℕ
sealed zero k bytes = []
sealed (suc fuel) k bytes =
    let later = sealed fuel (advance k) (drop 16384 bytes) in
    if length bytes == 0
    then []
    else encrypt_record k.key k.iv k.seq rec_appdata (take 16384 bytes) ++ later

-- Room for a whole record at each write of so many bytes.
abbrev pub IsAmple : List ℕ → ℕ → Type 0
IsAmple rooms n = (i : ℕ) → i * 16384 < n → 16406 ≤ get_or rooms i 0

get_or-rest : (rooms : List ℕ) (i : ℕ) → get_or (drop 1 rooms) i 0 ≡ get_or rooms (suc i) 0
get_or-rest [] i = refl
get_or-rest (r ∷ rooms) i = refl

pub take-whole : (n : ℕ) (xs : List ℕ) → length xs ≤ n → take n xs ≡ xs
take-whole zero [] h = refl
take-whole zero (x ∷ xs) h = absurd (omega arith)
take-whole (suc n) [] h = refl
take-whole (suc n) (x ∷ xs) h = ap (λ t. x ∷ t) (take-whole n xs (omega arith))

whole_record :
    (k : Keys) (chunk : List ℕ) (room : ℕ)
    → length chunk ≤ 16384
    → 16406 ≤ room
    → tcp_write room (encrypt_record k.key k.iv k.seq rec_appdata chunk)
      ≡ encrypt_record k.key k.iv k.seq rec_appdata chunk
unfolding tcp_write
whole_record k chunk room h enough =
    let size = length-encrypt_record k.key k.iv k.seq rec_appdata chunk in
    take-whole (min (length (encrypt_record k.key k.iv k.seq rec_appdata chunk)) room)
      (encrypt_record k.key k.iv k.seq rec_appdata chunk) (omega (arith, size))

write_loop-sealed :
    (fuel : ℕ) (conn : TlsConn) (bytes : List ℕ)
    → IsAmple conn.rooms (length bytes)
    → (write_loop fuel conn bytes).sent ≡ conn.sent ++ sealed fuel conn.client bytes
unfolding write_loop sealed send_chunk
write_loop-sealed zero conn bytes ample = sym (append-nil conn.sent)
write_loop-sealed (suc fuel) conn bytes ample = elim (Bool-cases (length bytes == 0)) [
  | inl done ↦ rw done (sym (append-nil conn.sent))
  | inr more ↦
      let k = conn.client in
      let chunk = take 16384 bytes in
      let rest = drop 16384 bytes in
      let first =
        whole_record k chunk (get_or conn.rooms 0 0) (omega (arith, length-take 16384 bytes))
          (ample 0 (ground arith)) in
      let still : IsAmple (drop 1 conn.rooms) (length rest) = λ i h. omega (
        arith,
        get_or-rest conn.rooms i,
        ample (suc i) (omega (arith, h, length-drop 16384 bytes)),
      ) in
      rw more (
        write_loop-sealed fuel (send_chunk conn chunk) rest still
        ∙ append_assoc conn.sent
            (tcp_write (get_or conn.rooms 0 0) (encrypt_record k.key k.iv k.seq rec_appdata chunk))
            (sealed fuel (advance k) rest)
        ∙ ap (λ w. conn.sent ++ (w ++ sealed fuel (advance k) rest)) first)
]

-- A call of `read` that gets a chunk.
record Gets (conn : TlsConn) (chunk later : List ℕ) (after : TlsConn) : Type 0 where
  given : read 1 conn ≡ (after, some chunk)
  keys : after.server ≡ advance conn.server
  left : after.rx.buf ++ concat after.rx.reads ≡ later

read_chunk :
    (conn : TlsConn) (chunk later : List ℕ)
    → length chunk ≤ 16384
    → conn.rx.buf ++ concat conn.rx.reads
      ≡ encrypt_record conn.server.key conn.server.iv conn.server.seq rec_appdata chunk ++ later
    → (after : TlsConn) × Gets conn chunk later after
unfolding read read_record read_next match_record opened match_content
read_chunk conn chunk later h e =
    let k = conn.server in
    let (rx, found, left) =
      rx_record_lem conn.rx.reads conn.rx.buf _ later (
        ap take_record e ∙ take_record-encrypt_record k.key k.iv k.seq rec_appdata chunk later h) in
    let plain = decrypt_record-body_of k.key k.iv k.seq rec_appdata chunk (omega arith) in
    (
      record conn { rx = rx; server = advance k },
      record { given = rw (found, plain) refl; keys = refl; left = left },
    )

empty_bytes : (bytes : List ℕ) → (length bytes == 0) ≡ true → bytes ≡ []
empty_bytes [] done = refl
empty_bytes (x ∷ bytes) done = absurd (ground arith)

reads_back :
    (fuel : ℕ) (conn : TlsConn) (bytes later : List ℕ)
    → length bytes ≤ fuel
    → conn.rx.buf ++ concat conn.rx.reads ≡ sealed fuel conn.server bytes ++ later
    → (calls : ℕ) × (read_all calls conn ≡ some bytes)
unfolding sealed read_all
reads_back zero conn [] later h e = (0, refl)
reads_back zero conn (x ∷ bytes) later h e = absurd (omega arith)
reads_back (suc fuel) conn bytes later h e = elim (Bool-cases (length bytes == 0)) [
  | inl done ↦ (0, ap some (sym (empty_bytes bytes done)))
  | inr more ↦
      let chunk = take 16384 bytes in
      let rest = drop 16384 bytes in
      let k = conn.server in
      let sent =
        rw more at e
        ∙ append_assoc (encrypt_record k.key k.iv k.seq rec_appdata chunk)
            (sealed fuel (advance k) rest) later in
      let (after, got) =
        read_chunk conn chunk (sealed fuel (advance k) rest ++ later)
          (omega (arith, length-take 16384 bytes)) sent in
      let (calls, all) =
        reads_back fuel after rest later (ground (arith, length-drop 16384 bytes))
          (got.left ∙ ap (λ w. sealed fuel w rest ++ later) (sym got.keys)) in
      (suc calls, rw (got.given, all, ◌>>=◌) (ap some (take-append-drop 16384 bytes)))
]

-- Let one end write any bytes on a connection that has sent nothing yet, with room in its send
-- queue for a whole record of 16406 bytes at each write, and let the other end, whose keys and
-- number for reading are those the first writes with, have just the records so written, with any
-- bytes behind them, in its buffer and in its coming reads, however they are cut. Then some number
-- of calls of read, of one record each, give exactly these bytes in their order.
pub read_all-write :
    (writer reader : TlsConn) (bytes later : List ℕ)
    → writer.sent ≡ []
    → IsAmple writer.rooms (length bytes)
    → reader.server ≡ writer.client
    → reader.rx.buf ++ concat reader.rx.reads ≡ (write writer bytes).sent ++ later
    → (calls : ℕ) × (read_all calls reader ≡ some bytes)
unfolding write
read_all-write writer reader bytes later fresh ample same e =
    let sent =
      write_loop-sealed (length bytes) writer bytes ample
      ∙ ap (λ w. w ++ sealed (length bytes) writer.client bytes) fresh in
    reads_back (length bytes) reader bytes later (omega arith)
      (e ∙ (λ i. sent i ++ later) ∙ ap (λ k. sealed (length bytes) k bytes ++ later) (sym same))
