-- ===== src/ChaCha20/Aead.antt =====
-- The authenticated encryption of src/crypto/chacha20.rs.
use Prim.Native.Nat.{bit_or, bit_xor}
use veil_os.ChaCha20.Words.{to_le_bytes}
use veil_os.ChaCha20.Cipher.{chacha20_block, chacha20_xor}
use veil_os.ChaCha20.Poly1305.{poly1305_mac}
use veil_os.Base.{
  ℕ, ◌-◌, ◌%◌, List, [], ◌∷◌, ◌++◌, Option, none, some, ltb, ◌==◌, if◌then◌else◌, replicate, length,
  take, drop,
}

unfoldable pub poly_key : List ℕ → List ℕ → List ℕ
poly_key key nonce = take 32 (chacha20_block key 0 nonce)

unfoldable pub pad16 : List ℕ → ℕ → List ℕ
pad16 v len = if len % 16 == 0 then v else v ++ replicate (16 - len % 16) 0

unfoldable pub mac_data : List ℕ → List ℕ → List ℕ
mac_data aad ciphertext =
    pad16 (pad16 aad (length aad) ++ ciphertext) (length ciphertext)
    ++ (to_le_bytes 8 (length aad) ++ to_le_bytes 8 (length ciphertext))

unfoldable pub tag_of : List ℕ → List ℕ → List ℕ → List ℕ → List ℕ
tag_of key nonce aad ciphertext = poly1305_mac (poly_key key nonce) (mac_data aad ciphertext)

unfoldable pub chacha20poly1305_encrypt : List ℕ → List ℕ → List ℕ → List ℕ → List ℕ
chacha20poly1305_encrypt key nonce aad plaintext =
    let ciphertext = chacha20_xor key 1 nonce plaintext in
    ciphertext ++ tag_of key nonce aad ciphertext

-- `diff |= expected[i] ^ tag[i]`, for the bytes of the tags.
unfoldable pub difference : ℕ → List ℕ → List ℕ → ℕ
difference diff [] tag = diff
difference diff (e ∷ expected) [] = diff
difference diff (e ∷ expected) (t ∷ tag) = difference (bit_or diff (bit_xor e t)) expected tag

unfoldable pub chacha20poly1305_decrypt : List ℕ → List ℕ → List ℕ → List ℕ → Option (List ℕ)
chacha20poly1305_decrypt key nonce aad ct_and_tag =
    let ciphertext = take (length ct_and_tag - 16) ct_and_tag in
    let tag = drop (length ct_and_tag - 16) ct_and_tag in
    if ltb (length ct_and_tag) 16
    then none
    else (if difference 0 (tag_of key nonce aad ciphertext) tag == 0
        then some (chacha20_xor key 1 nonce ciphertext)
        else none)
