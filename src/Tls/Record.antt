-- ===== src/Tls/Record.antt =====
-- The records of src/tls.rs, and the keys that protect them.
use Prim.Native.Nat.{bit_xor}
use veil_os.ChaCha20.Aead.{chacha20poly1305_encrypt, chacha20poly1305_decrypt}
use veil_os.Sha256.Hasher.{to_be_bytes}
use veil_os.Sha256.Hkdf.{expand_label}
use veil_os.Base.{◌>>=◌}
use veil_os.Base.{
  ℕ, ◌+◌, ◌/◌, ◌%◌, ◌^◌, List, [], ◌∷◌, ◌++◌, Option, none, some, ◌==◌, if◌then◌else◌, length, take,
  drop,
}

abbrev pub rec_handshake : ℕ
rec_handshake = 22

abbrev pub rec_appdata : ℕ
rec_appdata = 23

abbrev pub rec_ccs : ℕ
rec_ccs = 20

abbrev pub rec_alert : ℕ
rec_alert = 21

-- Byte by byte.
unfoldable pub xor_seq : List ℕ → List ℕ → List ℕ
xor_seq [] ys = []
xor_seq (x ∷ xs) [] = x ∷ xs
xor_seq (x ∷ xs) (y ∷ ys) = bit_xor x y ∷ xor_seq xs ys

-- The last eight bytes of the twelve, with the number of the record.
unfoldable pub make_nonce : List ℕ → ℕ → List ℕ
make_nonce iv seq = take 4 iv ++ xor_seq (drop 4 iv) (to_be_bytes 8 seq)

unfoldable pub record_header : ℕ → List ℕ
record_header len = rec_appdata ∷ 0x03 ∷ 0x03 ∷ len / 2 ^ 8 % 256 ∷ len % 256 ∷ []

unfoldable pub encrypt_record : List ℕ → List ℕ → ℕ → ℕ → List ℕ → List ℕ
encrypt_record key iv seq ctype content =
    let inner = content ++ (ctype ∷ []) in
    let header = record_header (length inner + 16) in
    header ++ chacha20poly1305_encrypt key (make_nonce iv seq) header inner

-- A byte before those that are popped, or before those that stay.
unfoldable pub put_byte : ℕ → Option (ℕ × List ℕ) → Option (ℕ × List ℕ)
put_byte x none = if x == 0 then none else some (x, [])
put_byte x (some (ctype, rest)) = some (ctype, x ∷ rest)

-- `while let Some(&0) = plain.last() { plain.pop(); }` and `plain.pop()`: the last byte that is not
-- zero, and those before it.
unfoldable pub pop_type : List ℕ → Option (ℕ × List ℕ)
pop_type [] = none
pop_type (x ∷ xs) = put_byte x (pop_type xs)

unfoldable pub decrypt_record : List ℕ → List ℕ → ℕ → List ℕ → List ℕ → Option (ℕ × List ℕ)
decrypt_record key iv seq header body =
    chacha20poly1305_decrypt key (make_nonce iv seq) header body >>= λ plain. pop_type plain

pub record Keys : Type 0 where
  pub key : List ℕ
  pub iv : List ℕ
  pub seq : ℕ

-- "key" and "iv".
unfoldable pub traffic_keys : List ℕ → Keys
traffic_keys secret = record {
  key = expand_label secret (0x6b ∷ 0x65 ∷ 0x79 ∷ []) [] 32;
  iv = expand_label secret (0x69 ∷ 0x76 ∷ []) [] 12;
  seq = 0;
}

-- `seq += 1`.
unfoldable pub advance : Keys → Keys
advance k = record k { seq = (k.seq + 1) % 2 ^ 64 }
