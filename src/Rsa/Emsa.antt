-- ===== src/Rsa/Emsa.antt =====
-- EMSA-PKCS1-v1_5 (RFC 8017, 9.2), apart from the code of src/rsa.rs that it is compared with.
use veil_os.Sha256.Hasher.{sha256}
use veil_os.Sha256.Fips.{digest}
use veil_os.Sha256.Standard.{length-sha256, sha256-digest}
use veil_os.Rsa.Verify.{digest_info, encoded}
use veil_os.Base.{
  ℕ, ◌+◌, ◌-◌, ◌*◌, ◌/◌, ◌%◌, ◌^◌, ◌<◌, ◌≡◌, sym, ap, ◌∙◌, List, [], ◌∷◌, ◌++◌, arith, ltb,
  if◌then◌else◌, replicate, length, length-append,
}

-- A value in DER, of fewer than 128 bytes.
unfoldable pub der : ℕ → List ℕ → List ℕ
der tag content = tag ∷ length content ∷ content

-- An arc of an object identifier, below 2^14: seven bits in a byte.
unfoldable pub arc : ℕ → List ℕ
arc n = if ltb n 128 then n ∷ [] else ((128 + n / 128) ∷ n % 128 ∷ [])

unfoldable pub object_id : List ℕ → List ℕ
object_id [] = []
object_id (n ∷ arcs) = arc n ++ object_id arcs

-- joint-iso-itu-t(2) country(16) us(840) organization(1) gov(101) csor(3) nistAlgorithm(4)
-- hashAlgs(2) sha256(1); the first two arcs make one number.
unfoldable pub sha256_id : List ℕ
sha256_id = object_id ((2 * 40 + 16) ∷ 840 ∷ 1 ∷ 101 ∷ 3 ∷ 4 ∷ 2 ∷ 1 ∷ [])

-- A sequence of the algorithm, with NULL parameters, and an octet string, the hash.
unfoldable pub hash_info : List ℕ → List ℕ
hash_info hash = der 0x30 (der 0x30 (der 6 sha256_id ++ der 5 []) ++ der 4 hash)

-- 00 01 FF … FF 00 and the value, k bytes in all.
unfoldable pub emsa_encoded : ℕ → List ℕ → List ℕ
emsa_encoded k hash =
    let t = hash_info hash in 0 ∷ 1 ∷ (replicate (k - length t - 3) 0xff ++ (0 ∷ t))

hash_info_lem : (hash : List ℕ) → length hash ≡ 32 → hash_info hash ≡ digest_info ++ hash
unfolding hash_info digest_info der sha256_id object_id arc
hash_info_lem hash h =
    let front = der 6 sha256_id ++ der 5 [] in
    let whole : length (der 0x30 front ++ der 4 hash) ≡ 0x31 = omega arith in
    λ i. 0x30 ∷ whole i ∷ (der 0x30 front ++ (4 ∷ h i ∷ hash))

emsa_lem : (k : ℕ) (hash : List ℕ) → length hash ≡ 32 → encoded k hash ≡ emsa_encoded k hash
unfolding encoded emsa_encoded
emsa_lem k hash h =
    let size : k - length digest_info - length hash - 3 ≡ k - length (digest_info ++ hash) - 3 =
      omega (arith, length-append digest_info hash) in
    ap (λ n. 0 ∷ 1 ∷ (replicate n 0xff ++ (0 ∷ (digest_info ++ hash)))) size
    ∙ ap (λ t. 0 ∷ 1 ∷ (replicate (k - length t - 3) 0xff ++ (0 ∷ t))) (sym (hash_info_lem hash h))

pub encoded_lem :
    (k : ℕ) (msg : List ℕ)
    → length msg < 2 ^ 61
    → encoded k (sha256 msg) ≡ emsa_encoded k (digest msg)
encoded_lem k msg small =
    emsa_lem k (sha256 msg) (length-sha256 msg) ∙ ap (emsa_encoded k) (sha256-digest msg small)
