-- ===== src/ChaCha20/Sealed.antt =====
-- What decryption accepts (src/crypto/chacha20.rs).
use Prim.Native.Nat.{bit_or, bit_xor}
use veil_os.Base.Xor.{bit_xor-zero, bit_xor_same, bit_or-zero}
use veil_os.ChaCha20.Words.{to_le_bytes}
use veil_os.ChaCha20.Cipher.{chacha20_xor}
use veil_os.ChaCha20.Poly1305.{finish, poly1305_mac}
use veil_os.ChaCha20.Aead.{tag_of, difference, chacha20poly1305_encrypt, chacha20poly1305_decrypt}
use veil_os.ChaCha20.Keystream.{length-chacha20_xor, chacha20_xor_twice}
use veil_os.Base.{
  ◌+◌, take-append, ltb→lt, ℕ, ◌-◌, ◌<◌, ◌≡◌, refl, sym, ap, ◌∙◌, ◌↔◌, inl, inr, true, false, List,
  [], ◌∷◌, ◌++◌, none, some, arith, ltb, ◌==◌, if◌then◌else◌, Bool-cases, lt→ltb, some_inj,
  length-drop, take-append-drop, ==_iff, length, length-append, take, drop,
}

difference-zero :
    (diff : ℕ) (xs ys : List ℕ)
    → length xs ≡ length ys
    → difference diff xs ys ≡ 0
    → (diff ≡ 0) × (xs ≡ ys)
unfolding difference
difference-zero diff [] [] h e = (e, refl)
difference-zero diff [] (y ∷ ys) h e = absurd (omega arith)
difference-zero diff (x ∷ xs) [] h e = absurd (omega arith)
difference-zero diff (x ∷ xs) (y ∷ ys) h e =
    let (both, rest) = difference-zero (bit_or diff (bit_xor x y)) xs ys (omega (arith, h)) e in
    let (before, here) = bit_or-zero diff (bit_xor x y) both in
    (before, λ i. bit_xor-zero x y here i ∷ rest i)

difference_same : (xs : List ℕ) → difference 0 xs xs ≡ 0
unfolding difference
difference_same [] = refl
difference_same (x ∷ xs) = rw (bit_xor_same x) (difference_same xs)

pub length-tag_of :
    (key nonce aad ciphertext : List ℕ) → length (tag_of key nonce aad ciphertext) ≡ 16
unfolding tag_of poly1305_mac finish to_le_bytes
length-tag_of key nonce aad ciphertext = refl

module _ (key nonce aad : List ℕ) where
  decrypt-append :
      (ciphertext tag : List ℕ)
      → length tag ≡ 16
      → chacha20poly1305_decrypt key nonce aad (ciphertext ++ tag) ≡ (
          if difference 0 (tag_of key nonce aad ciphertext) tag == 0
          then some (chacha20_xor key 1 nonce ciphertext)
          else none)
  unfolding chacha20poly1305_decrypt
  decrypt-append ciphertext tag h =
      let all : length (ciphertext ++ tag) - 16 ≡ length ciphertext =
        omega (arith, length-append ciphertext tag, h) in
      let long : ltb (length (ciphertext ++ tag)) 16 ≡ false =
        ground (arith, length-append ciphertext tag, h) in
      let (front, back) =
        take-append (length ciphertext) ciphertext tag (omega arith)
          (λ few. absurd (omega arith)) in
      rw (long, all, front, back) refl

  decrypt-short :
      (sealed : List ℕ) → length sealed < 16 → chacha20poly1305_decrypt key nonce aad sealed ≡ none
  unfolding chacha20poly1305_decrypt
  decrypt-short sealed h = rw (lt→ltb (length sealed) 16 h) refl

  decrypt_sound :
      (ciphertext tag plaintext : List ℕ)
      → length tag ≡ 16
      → chacha20poly1305_decrypt key nonce aad (ciphertext ++ tag) ≡ some plaintext
      → ciphertext ++ tag ≡ chacha20poly1305_encrypt key nonce aad plaintext
  unfolding chacha20poly1305_encrypt
  decrypt_sound ciphertext tag plaintext h e =
      let opened = sym (decrypt-append ciphertext tag h) ∙ e in
      elim (Bool-cases (difference 0 (tag_of key nonce aad ciphertext) tag == 0)) [
        | inr differs ↦ let impossible = rw differs at opened in absurd (cc)
        | inl same ↦
            let zero_difference =
              (==_iff (difference 0 (tag_of key nonce aad ciphertext) tag) 0).0 same in
            let (start, tags) =
              difference-zero 0 (tag_of key nonce aad ciphertext) tag
                (length-tag_of key nonce aad ciphertext ∙ sym h) zero_difference in
            let plain = some_inj (rw same at opened) in
            let cipher =
              sym (chacha20_xor_twice key nonce 1 ciphertext)
              ∙ ap (chacha20_xor key 1 nonce) plain in
            ap (λ t. ciphertext ++ t) (sym tags) ∙ ap (λ c. c ++ tag_of key nonce aad c) cipher
      ]

  decrypt-encrypt :
      (plaintext : List ℕ)
      → chacha20poly1305_decrypt key nonce aad (chacha20poly1305_encrypt key nonce aad plaintext)
        ≡ some plaintext
  unfolding chacha20poly1305_encrypt
  decrypt-encrypt plaintext =
      let ciphertext = chacha20_xor key 1 nonce plaintext in
      let same : (difference 0 (tag_of key nonce aad ciphertext) (tag_of key nonce aad ciphertext)
            == 0)
          ≡ true =
        (==_iff _ 0).1 (difference_same (tag_of key nonce aad ciphertext)) in
      decrypt-append ciphertext (tag_of key nonce aad ciphertext)
        (length-tag_of key nonce aad ciphertext)
      ∙ rw same (ap some (chacha20_xor_twice key nonce 1 plaintext))

  -- Decryption gives a plaintext exactly for the bytes that encryption makes of this plaintext
  -- with the same key, nonce and associated data, and an error for all others.
  pub decrypt_iff :
      (sealed plaintext : List ℕ)
      → (chacha20poly1305_decrypt key nonce aad sealed ≡ some plaintext)
        ↔ (sealed ≡ chacha20poly1305_encrypt key nonce aad plaintext)
  decrypt_iff sealed plaintext =
      (opens, λ e. ap (chacha20poly1305_decrypt key nonce aad) e ∙ decrypt-encrypt plaintext)
    where
      opens :
          chacha20poly1305_decrypt key nonce aad sealed ≡ some plaintext
          → sealed ≡ chacha20poly1305_encrypt key nonce aad plaintext
      opens e = elim (Bool-cases (ltb (length sealed) 16)) [
        | inl short ↦ absurd (cc (decrypt-short sealed (ltb→lt (length sealed) 16 short)))
        | inr long ↦
            let n = length sealed - 16 in
            let whole = take-append-drop n sealed in
            let last : length (drop n sealed) ≡ 16 = ground (arith, length-drop n sealed) in
            sym whole
            ∙ decrypt_sound (take n sealed) (drop n sealed) plaintext last
                (ap (chacha20poly1305_decrypt key nonce aad) whole ∙ e)
      ]

  pub length-chacha20poly1305_encrypt :
      (plaintext : List ℕ)
      → length (chacha20poly1305_encrypt key nonce aad plaintext) ≡ length plaintext + 16
  unfolding chacha20poly1305_encrypt
  length-chacha20poly1305_encrypt plaintext =
      let ciphertext = chacha20_xor key 1 nonce plaintext in
      omega (
        arith,
        length-append ciphertext (tag_of key nonce aad ciphertext),
        length-tag_of key nonce aad ciphertext,
        length-chacha20_xor key nonce 1 plaintext,
      )
