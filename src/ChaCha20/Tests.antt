-- ===== src/ChaCha20/Tests.antt =====
-- Runs of the cipher and the authenticator (src/crypto/chacha20.rs), on the vectors of RFC 8439.
use veil_os.ChaCha20.Words.{add32, mul32, shl32, rotate_left, le32, to_le_bytes}
use veil_os.ChaCha20.Cipher.{
  mix, qr, le_words, initial_state, column_round, diagonal_round, rounds, serialize, chacha20_block,
  chacha20_xor,
}
use veil_os.ChaCha20.Poly1305.{
  join, clamp, pad_block, hibit, add_block, products, high, low, reduce, absorb, blocks, carry,
  minus_p, choose, select, finish, zeroed, poly1305_mac,
}
use veil_os.ChaCha20.Aead.{chacha20poly1305_encrypt, chacha20poly1305_decrypt}
use veil_os.ChaCha20.Keystream.{chacha20_xor_twice}
use veil_os.ChaCha20.Sealed.{decrypt_iff}
use veil_os.ChaCha20.Blocks.{every_byte}
use veil_os.ChaCha20.Reference.{poly1305, poly1305_mac-poly1305}
use veil_os.Base.Word.{add64}
use veil_os.Base.{ℕ, ◌≡◌, refl, ◌↔◌, List, [], ◌∷◌, some, take}

abbrev cipher_key : List ℕ
cipher_key =
    0 ∷ 1 ∷ 2 ∷ 3 ∷ 4 ∷ 5 ∷ 6 ∷ 7 ∷ 8 ∷ 9 ∷ 10 ∷ 11 ∷ 12 ∷ 13 ∷ 14 ∷ 15 ∷ 16 ∷ 17 ∷ 18 ∷ 19 ∷ 20
    ∷ 21 ∷ 22 ∷ 23 ∷ 24 ∷ 25 ∷ 26 ∷ 27 ∷ 28 ∷ 29 ∷ 30 ∷ 31 ∷ []

abbrev nonce : List ℕ
nonce = 0 ∷ 0 ∷ 0 ∷ 9 ∷ 0 ∷ 0 ∷ 0 ∷ 74 ∷ 0 ∷ 0 ∷ 0 ∷ 0 ∷ []

-- Section 2.3.2.
first_block :
    take 16 (chacha20_block cipher_key 1 nonce)
    ≡ 16 ∷ 241 ∷ 231 ∷ 228 ∷ 209 ∷ 59 ∷ 89 ∷ 21 ∷ 80 ∷ 15 ∷ 221 ∷ 31 ∷ 163 ∷ 32 ∷ 113 ∷ 196 ∷ []
unfolding chacha20_block initial_state rounds column_round diagonal_round qr mix le_words le32
    serialize to_le_bytes add32 shl32 rotate_left
first_block = refl

abbrev mac_key : List ℕ
mac_key =
    133 ∷ 214 ∷ 190 ∷ 120 ∷ 87 ∷ 85 ∷ 109 ∷ 51 ∷ 127 ∷ 68 ∷ 82 ∷ 254 ∷ 66 ∷ 213 ∷ 6 ∷ 168 ∷ 1 ∷ 3
    ∷ 128 ∷ 138 ∷ 251 ∷ 13 ∷ 178 ∷ 253 ∷ 74 ∷ 191 ∷ 246 ∷ 175 ∷ 65 ∷ 73 ∷ 245 ∷ 27 ∷ []

-- "Cryptographic Forum Research Group".
abbrev message : List ℕ
message =
    67 ∷ 114 ∷ 121 ∷ 112 ∷ 116 ∷ 111 ∷ 103 ∷ 114 ∷ 97 ∷ 112 ∷ 104 ∷ 105 ∷ 99 ∷ 32 ∷ 70 ∷ 111 ∷ 114
    ∷ 117 ∷ 109 ∷ 32 ∷ 82 ∷ 101 ∷ 115 ∷ 101 ∷ 97 ∷ 114 ∷ 99 ∷ 104 ∷ 32 ∷ 71 ∷ 114 ∷ 111 ∷ 117 ∷ 112
    ∷ []

abbrev expected : List ℕ
expected = 168 ∷ 6 ∷ 29 ∷ 193 ∷ 48 ∷ 81 ∷ 54 ∷ 198 ∷ 194 ∷ 43 ∷ 139 ∷ 175 ∷ 12 ∷ 1 ∷ 39 ∷ 169 ∷ []

-- Section 2.5.2.
vector_sealed : poly1305_mac mac_key message ≡ expected
unfolding poly1305_mac clamp join shl32 le32 pad_block hibit add_block products high low reduce
    absorb blocks carry minus_p choose select finish zeroed to_le_bytes add32 mul32 add64
vector_sealed = refl

poly1305_mac-poly1305_example : poly1305_mac mac_key message ≡ poly1305 mac_key message
poly1305_mac-poly1305_example =
    poly1305_mac-poly1305 mac_key message refl (every_byte mac_key refl) (every_byte message refl)

chacha20_xor_twice_example :
    chacha20_xor cipher_key 1 nonce (chacha20_xor cipher_key 1 nonce message) ≡ message
chacha20_xor_twice_example = chacha20_xor_twice cipher_key nonce 1 message

decrypt_iff_example :
    (chacha20poly1305_decrypt cipher_key nonce []
        (chacha20poly1305_encrypt cipher_key nonce [] message)
      ≡ some message)
    ↔ (chacha20poly1305_encrypt cipher_key nonce [] message
        ≡ chacha20poly1305_encrypt cipher_key nonce [] message)
decrypt_iff_example =
    decrypt_iff cipher_key nonce [] (chacha20poly1305_encrypt cipher_key nonce [] message) message
