-- ===== src/Tls/Short.antt =====
-- A record of src/tls.rs that the send queue takes in part only.
use Prim.Native.Nat.{bit_or}
use mathlib.Core.List.{append_assoc, append-nil}
use veil_os.Tls.Record.{rec_appdata, record_header, encrypt_record, Keys}
use veil_os.Tls.Stream.{
  Record, take_record, Rx, found_record, rx_record, TlsConn, tcp_write, send_chunk, write_loop,
  write, read_record, read,
}
use veil_os.Tls.Protect.{body_of, length-body_of, length-encrypt_record, told}
use veil_os.Tls.Buffer.{take_record-append}
use veil_os.Tls.Delivery.{take-whole}
use veil_os.Base.{
  ℕ, zero, suc, ◌+◌, ◌*◌, ◌/◌, ◌%◌, ◌^◌, ◌≤◌, ◌<◌, min, ◌≡◌, refl, sym, ap, ◌∙◌, inl, inr, true,
  false, List, [], ◌∷◌, ◌++◌, Option, none, some, arith, ltb, ◌==◌, length-take, Option-cases,
  concat, length, get_or, take, drop,
}

-- A part of a record is not found as one.
take_record-short :
    (t a c hi lo r : ℕ) (body : List ℕ)
    → bit_or (hi * 2 ^ 8) lo ≡ length body
    → r < 5 + length body
    → take_record (take r (t ∷ a ∷ c ∷ hi ∷ lo ∷ body)) ≡ none
unfolding take_record
take_record-short t a c hi lo zero body e h = refl
take_record-short t a c hi lo (suc zero) body e h = refl
take_record-short t a c hi lo (suc (suc zero)) body e h = refl
take_record-short t a c hi lo (suc (suc (suc zero))) body e h = refl
take_record-short t a c hi lo (suc (suc (suc (suc zero)))) body e h = refl
take_record-short t a c hi lo (suc (suc (suc (suc (suc r))))) body e h =
    let all = suc (suc (suc (suc (suc (length (take r body)))))) in
    let begun : ltb all 5 ≡ false = ground arith in
    let part : ltb all (5 + length body) ≡ true = ground (arith, length-take r body) in
    rw (e, begun, part) refl

rx_record-none :
    (reads : List (List ℕ)) (buf : List ℕ)
    → take_record (buf ++ concat reads) ≡ none
    → (rx_record buf reads).0 ≡ none
unfolding rx_record found_record
rx_record-none [] buf e = rw (ap take_record (sym (append-nil buf)) ∙ e) refl
rx_record-none (c ∷ reads) buf e = elim (Option-cases (take_record buf)) [
  | inl waits ↦
      rw waits
        (rx_record-none reads (buf ++ c) (ap take_record (append_assoc buf c (concat reads)) ∙ e))
  | inr ((r, rest), here) ↦
      absurd (let impossible = sym (take_record-append buf (c ++ concat reads) here) ∙ e in cc)
]

cut_record :
    (k : Keys) (chunk : List ℕ) (r : ℕ)
    → length chunk ≤ 16384
    → r < length chunk + 22
    → take_record (take r (encrypt_record k.key k.iv k.seq rec_appdata chunk)) ≡ none
unfolding encrypt_record record_header body_of
cut_record k chunk r h few =
    let len = length (chunk ++ (rec_appdata ∷ [])) + 16 in
    take_record-short rec_appdata 0x03 0x03 (len / 2 ^ 8 % 256) (len % 256) r
      (body_of k.key k.iv k.seq rec_appdata chunk) (told k.key k.iv k.seq rec_appdata chunk h)
      (omega (arith, length-body_of k.key k.iv k.seq rec_appdata chunk, few))

encrypt_record-short :
    (k : Keys) (chunk : List ℕ) (r : ℕ)
    → length chunk ≤ 16384
    → r < length chunk + 22
    → take_record (tcp_write r (encrypt_record k.key k.iv k.seq rec_appdata chunk)) ≡ none
unfolding tcp_write
encrypt_record-short k chunk r h few =
    let size = length-encrypt_record k.key k.iv k.seq rec_appdata chunk in
    let all = encrypt_record k.key k.iv k.seq rec_appdata chunk in
    let taken : min (length all) r ≡ r = omega (arith, size, few) in
    ap (λ n. take_record (take n all)) taken ∙ cut_record k chunk r h few

write_loop-nil : (fuel : ℕ) (conn : TlsConn) → write_loop fuel conn [] ≡ conn
unfolding write_loop
write_loop-nil zero conn = refl
write_loop-nil (suc fuel) conn = refl

drop-whole : (n : ℕ) (xs : List ℕ) → length xs ≤ n → drop n xs ≡ []
drop-whole zero [] h = refl
drop-whole zero (x ∷ xs) h = absurd (omega arith)
drop-whole (suc n) [] h = refl
drop-whole (suc n) (x ∷ xs) h = drop-whole n xs (omega arith)

-- A write of one chunk.
write_one :
    (conn : TlsConn) (bytes : List ℕ)
    → 0 < length bytes
    → length bytes ≤ 16384
    → write conn bytes ≡ send_chunk conn bytes
unfolding write write_loop
write_one conn [] some_bytes few = absurd (omega arith)
write_one conn (x ∷ bytes) some_bytes few =
    let more : (length (x ∷ bytes) == 0) ≡ false = ground arith in
    let whole = take-whole 16384 (x ∷ bytes) few in
    let rest = drop-whole 16384 (x ∷ bytes) few in
    rw more (
      (λ i. write_loop (length bytes) (send_chunk conn (whole i)) (rest i))
      ∙ write_loop-nil (length bytes) (send_chunk conn (x ∷ bytes)))

read_record-none :
    (again : TlsConn → TlsConn × Option (List ℕ)) (conn : TlsConn) (p : Option Record × Rx)
    → p.0 ≡ none
    → (read_record again conn p).1 ≡ none
unfolding read_record
read_record-none again conn (none, rx) e = refl
read_record-none again conn (some r, rx) e = absurd (cc)

-- Let one end write 1 to 16384 bytes on a connection that has sent nothing yet, when its send
-- queue has less room than the 22 bytes more that their record takes, and let the other end have
-- just what was so sent, however it is cut. Then no call of read gets anything: the rest of the
-- record is never sent.
pub read-write_short :
    (writer reader : TlsConn) (bytes : List ℕ) (fuel : ℕ)
    → writer.sent ≡ []
    → 0 < length bytes
    → length bytes ≤ 16384
    → get_or writer.rooms 0 0 < length bytes + 22
    → reader.rx.buf ++ concat reader.rx.reads ≡ (write writer bytes).sent
    → (read (suc fuel) reader).1 ≡ none
unfolding read send_chunk
read-write_short writer reader bytes fuel fresh some_bytes few short e =
    let k = writer.client in
    let taken =
      tcp_write (get_or writer.rooms 0 0) (encrypt_record k.key k.iv k.seq rec_appdata bytes) in
    let sent : (write writer bytes).sent ≡ taken =
      ap (λ (w : TlsConn). w.sent) (write_one writer bytes some_bytes few)
      ∙ ap (λ w. w ++ taken) fresh in
    let front =
      ap take_record (e ∙ sent)
      ∙ encrypt_record-short k bytes (get_or writer.rooms 0 0) few short in
    read_record-none (read fuel) reader (rx_record reader.rx.buf reader.rx.reads)
      (rx_record-none reader.rx.reads reader.rx.buf front)
