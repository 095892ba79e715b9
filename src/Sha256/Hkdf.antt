-- ===== src/Sha256/Hkdf.antt =====
-- The key derivation of src/crypto/hkdf.rs, RFC 5869 and its labels in RFC 8446. A string is the
-- list of its bytes.
use veil_os.Sha256.Hasher.{to_be_bytes, hmac_sha256}
use veil_os.Base.{
  ℕ, zero, suc, ◌+◌, ◌-◌, ◌%◌, ◌^◌, min, List, [], ◌∷◌, ◌++◌, ltb, if◌then◌else◌, replicate, length,
  take,
}

unfoldable pub hkdf_extract : List ℕ → List ℕ → List ℕ
hkdf_extract salt ikm = hmac_sha256 salt ikm

-- The loop with the last block, of which `tlen` bytes count, the counter and the output. Each round
-- adds a byte at least, so as much fuel as bytes are asked for is enough.
unfoldable pub expand_loop : ℕ → List ℕ → List ℕ → ℕ → List ℕ → ℕ → ℕ → List ℕ → List ℕ
expand_loop zero prk info len t tlen counter out = out
expand_loop (suc fuel) prk info len t tlen counter out =
    let block = hmac_sha256 prk (take tlen t ++ (info ++ (counter ∷ []))) in
    let more =
      expand_loop fuel prk info len block 32 ((counter + 1) % 256)
        (out ++ take (min 32 (len - length out)) block) in
    if ltb (length out) len then more else out

unfoldable pub hkdf_expand : List ℕ → List ℕ → ℕ → List ℕ
hkdf_expand prk info len = expand_loop len prk info len (replicate 32 0) 0 1 []

unfoldable pub full_label : List ℕ → List ℕ
full_label label = b't' ∷ b'l' ∷ b's' ∷ b'1' ∷ b'3' ∷ b' ' ∷ label

unfoldable pub expand_label : List ℕ → List ℕ → List ℕ → ℕ → List ℕ
expand_label secret label context len =
    let name = full_label label in
    hkdf_expand secret
      (to_be_bytes 2 (len % 2 ^ 16)
        ++ (length name % 256 ∷ (name ++ (length context % 256 ∷ context))))
      len

unfoldable pub derive_secret : List ℕ → List ℕ → List ℕ → List ℕ
derive_secret secret label transcript_hash = expand_label secret label transcript_hash 32
