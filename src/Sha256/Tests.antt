-- ===== src/Sha256/Tests.antt =====
-- Runs of the hasher (src/crypto/sha256.rs).
use veil_os.Sha256.Compress.{
  add32, rotate_right, be32, be_words, schedule, step, rounds, add_words, process,
}
use veil_os.Sha256.Hasher.{
  new, overwrite, fill, drain, drain_all, keep, feed, update, to_be_bytes, zeros_for, padding,
  serialize, finalize, sha256, hmac_sha256,
}
use veil_os.Sha256.Digest.{HasTaken, new-HasTaken, update-HasTaken}
use veil_os.Sha256.Fips.{digest, hmac}
use veil_os.Sha256.Standard.{finalize-digest, hmac_sha256-hmac}
use veil_os.Base.{ℕ, ◌≡◌, refl, List, [], ◌∷◌, arith}

abbrev letters : List ℕ
letters = b'a' ∷ b'b' ∷ b'c' ∷ []

letters_hashed :
    sha256 letters
    ≡ 186 ∷ 120 ∷ 22 ∷ 191 ∷ 143 ∷ 1 ∷ 207 ∷ 234 ∷ 65 ∷ 65 ∷ 64 ∷ 222 ∷ 93 ∷ 174 ∷ 34 ∷ 35 ∷ 176 ∷ 3
      ∷ 97 ∷ 163 ∷ 150 ∷ 23 ∷ 122 ∷ 156 ∷ 180 ∷ 16 ∷ 255 ∷ 97 ∷ 242 ∷ 0 ∷ 21 ∷ 173 ∷ []
unfolding sha256 finalize update new feed fill drain drain_all keep overwrite padding zeros_for
    serialize to_be_bytes process schedule be_words be32 rounds step add_words add32 rotate_right
letters_hashed = refl

update-HasTaken_example : HasTaken (update (update new (b'a' ∷ [])) (b'b' ∷ b'c' ∷ [])) letters
update-HasTaken_example =
    update-HasTaken (update new (b'a' ∷ [])) (b'a' ∷ []) (b'b' ∷ b'c' ∷ [])
      (update-HasTaken new [] (b'a' ∷ []) new-HasTaken)

finalize-digest_example :
    finalize (update (update new (b'a' ∷ [])) (b'b' ∷ b'c' ∷ [])) ≡ digest letters
finalize-digest_example =
    finalize-digest (update (update new (b'a' ∷ [])) (b'b' ∷ b'c' ∷ [])) letters
      update-HasTaken_example (omega arith)

hmac_sha256-hmac_example : hmac_sha256 (7 ∷ 8 ∷ []) letters ≡ hmac (7 ∷ 8 ∷ []) letters
hmac_sha256-hmac_example = hmac_sha256-hmac (7 ∷ 8 ∷ []) letters (omega arith) (omega arith)
