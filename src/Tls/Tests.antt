-- ===== src/Tls/Tests.antt =====
-- Records of TLS at concrete keys.
use mathlib.Core.List.{append-nil}
use veil_os.ChaCha20.Aead.{chacha20poly1305_encrypt}
use veil_os.Tls.Record.{
  make_nonce, record_header, decrypt_record, Keys, xor_seq, pop_type, put_byte,
}
use veil_os.Sha256.Hasher.{to_be_bytes}
use veil_os.Tls.Stream.{TlsConn, write, read, match_content, go_on}
use veil_os.Tls.Protect.{decrypt_record_iff}
use veil_os.Tls.Short.{read-write_short}
use veil_os.Tls.Delivery.{IsAmple, read_all, read_all-write}
use veil_os.Base.{
  ℕ, zero, suc, ◌<◌, ◌≡◌, refl, ap, ◌∙◌, ◌↔◌, List, [], ◌∷◌, ◌++◌, none, some, arith, replicate,
  take-append-drop, concat, length, take, drop,
}

abbrev first_keys : Keys
first_keys = record { key = replicate 32 7; iv = replicate 12 1; seq = 0 }

abbrev writer : TlsConn
writer = record {
  rx = record { buf = []; reads = [] };
  client = first_keys;
  server = first_keys;
  sent = [];
  rooms = 32768 ∷ [];
}

abbrev message : List ℕ
message = 0x68 ∷ 0x69 ∷ []

-- What the writer sends and one byte more, in two reads.
abbrev wire : List ℕ
wire = (write writer message).sent ++ (23 ∷ [])

abbrev reader : TlsConn
reader = record {
  rx = record { buf = []; reads = take 3 wire ∷ drop 3 wire ∷ [] };
  client = first_keys;
  server = first_keys;
  sent = [];
  rooms = 32768 ∷ [];
}

wire_arrives : reader.rx.buf ++ concat reader.rx.reads ≡ (write writer message).sent ++ (23 ∷ [])
wire_arrives = ap (λ w. take 3 wire ++ w) (append-nil (drop 3 wire)) ∙ take-append-drop 3 wire

room : IsAmple writer.rooms (length message)
room zero h = omega arith
room (suc i) h = absurd (omega arith)

read_all-write_example : (calls : ℕ) × (read_all calls reader ≡ some message)
read_all-write_example = read_all-write writer reader message (23 ∷ []) refl room refl wire_arrives

-- A queue with room for ten bytes more.
abbrev full : TlsConn
full = record writer { rooms = 10 ∷ [] }

abbrev starved : TlsConn
starved = record writer { rx = record { buf = (write full message).sent; reads = [] } }

read-write_short_example : (read 4 starved).1 ≡ none
read-write_short_example =
    read-write_short full starved message 3 refl (omega arith) (omega arith) (omega arith)
      (append-nil (write full message).sent)

decrypt_record_iff_example :
    (decrypt_record (replicate 32 7) (replicate 12 1) 3 (record_header 20) (
        chacha20poly1305_encrypt
          (replicate 32 7)
          (make_nonce (replicate 12 1) 3)
          (record_header 20)
          (5 ∷ 6 ∷ 23 ∷ 0 ∷ []))
      ≡ some (23, 5 ∷ 6 ∷ []))
    ↔ ((0 < 23)
        × (padding : ℕ) × (chacha20poly1305_encrypt
              (replicate 32 7)
              (make_nonce (replicate 12 1) 3)
              (record_header 20)
              (5 ∷ 6 ∷ 23 ∷ 0 ∷ [])
            ≡ chacha20poly1305_encrypt
                (replicate 32 7)
                (make_nonce (replicate 12 1) 3)
                (record_header 20)
                ((5 ∷ 6 ∷ []) ++ (23 ∷ replicate padding 0))))
decrypt_record_iff_example =
    decrypt_record_iff (replicate 32 7) (replicate 12 1) 3 (record_header 20)
      (chacha20poly1305_encrypt (replicate 32 7) (make_nonce (replicate 12 1) 3) (record_header 20)
        (5 ∷ 6 ∷ 23 ∷ 0 ∷ []))
      (5 ∷ 6 ∷ []) 23

-- The number of the record goes into the end of the nonce.
nonce_of_three : make_nonce (replicate 12 1) 3 ≡ replicate 11 1 ++ (2 ∷ [])
unfolding make_nonce xor_seq to_be_bytes
nonce_of_three = refl

padding_popped : pop_type (5 ∷ 6 ∷ 23 ∷ 0 ∷ 0 ∷ []) ≡ some (23, 5 ∷ 6 ∷ [])
unfolding pop_type put_byte
padding_popped = refl

ticket_ignored : match_content 22 message ≡ go_on
unfolding match_content
ticket_ignored = refl
