-- ===== src/Sha256/Standard.antt =====
-- The hash and the authenticator of src/crypto/sha256.rs are those of FIPS 180-4 and RFC 2104.
use Prim.Native.Nat.{bit_xor}
use veil_os.Sha256.Compress.{initial, process}
use veil_os.Sha256.Hasher.{
  Hasher, new, overwrite, update, to_be_bytes, zeros_for, padding, serialize, finalize, sha256,
  key_block, hmac_sha256,
}
use veil_os.Sha256.Blocks.{hash_loop, hash_blocks}
use veil_os.Sha256.Fips.{
  octets, words_octets, after_blocks, padded, digest, short_key, filled_key, hmac,
}
use veil_os.Sha256.Conform.{process_lem, initial_hash_lem}
use veil_os.Sha256.Feed.{length-overwrite}
use veil_os.Sha256.Digest.{
  HasTaken, new-HasTaken, update-HasTaken, padded_digest, finalize-padded_digest,
  hmac_sha256-padded_digest,
}
use veil_os.Sha256.Expand.{length-padded_digest, length-process}
use veil_os.Base.{
  ℕ, zero, suc, ◌+◌, ◌-◌, ◌*◌, ◌/◌, ◌%◌, ◌^◌, ◌≤◌, ◌<◌, ◌≡◌, refl, sym, ap, ◌∙◌, inl, inr, true,
  false, List, [], ◌∷◌, ◌++◌, map, arith, ltb, leb, Bool-cases, replicate, length-take, length-drop,
  length-map, leb→le, length, length-append, take, drop,
}

zeros_for_lem : (n : ℕ) → zeros_for n ≡ (119 - n % 64) % 64
unfolding zeros_for
zeros_for_lem n = elim (Bool-cases (leb ((n % 64 + 1) % 64) 56)) [
  | inl few ↦ rw few (omega (arith, leb→le ((n % 64 + 1) % 64) 56 few))
  | inr many ↦ rw many (ground arith)
]

four_bytes : (a : ℕ) → to_be_bytes 4 a ≡ octets 4 a
unfolding to_be_bytes octets
four_bytes a =
    let p0 : a / 256 / 256 / 256 % 256 ≡ a / 2 ^ 24 % 256 = omega arith in
    let p1 : a / 256 / 256 % 256 ≡ a / 2 ^ 16 % 256 = omega arith in
    let p3 : a % 256 ≡ a / 1 % 256 = omega arith in λ i. p0 i ∷ p1 i ∷ a / 256 % 256 ∷ p3 i ∷ []

eight_bytes : (a : ℕ) → to_be_bytes 8 a ≡ octets 8 a
unfolding to_be_bytes octets
eight_bytes a =
    let p0 : a / 256 / 256 / 256 / 256 / 256 / 256 / 256 % 256 ≡ a / 2 ^ 56 % 256 = omega arith in
    let p1 : a / 256 / 256 / 256 / 256 / 256 / 256 % 256 ≡ a / 2 ^ 48 % 256 = omega arith in
    let p2 : a / 256 / 256 / 256 / 256 / 256 % 256 ≡ a / 2 ^ 40 % 256 = omega arith in
    let p3 : a / 256 / 256 / 256 / 256 % 256 ≡ a / 2 ^ 32 % 256 = omega arith in
    let p4 : a / 256 / 256 / 256 % 256 ≡ a / 2 ^ 24 % 256 = omega arith in
    let p5 : a / 256 / 256 % 256 ≡ a / 2 ^ 16 % 256 = omega arith in
    let p7 : a % 256 ≡ a / 1 % 256 = omega arith in
    λ i. p0 i ∷ p1 i ∷ p2 i ∷ p3 i ∷ p4 i ∷ p5 i ∷ a / 256 % 256 ∷ p7 i ∷ []

padding_lem :
    (bytes : List ℕ)
    → length bytes < 2 ^ 61
    → bytes ++ padding (length bytes % 2 ^ 64) ≡ padded bytes
unfolding padding padded
padding_lem bytes small =
    let n = length bytes in
    let plain : n % 2 ^ 64 ≡ n = omega (arith, small) in
    let bits : n * 8 % 2 ^ 64 ≡ 8 * n = omega (arith, small) in
    ap (λ t. bytes ++ padding t) plain ∙ λ i.
    bytes
    ++ (0x80
        ∷ (replicate (zeros_for_lem n i) 0 ++ (ap (to_be_bytes 8) bits ∙ eight_bytes (8 * n)) i))

serialize_lem : (ws : List ℕ) → serialize ws ≡ words_octets ws
unfolding serialize words_octets
serialize_lem [] = refl
serialize_lem (w ∷ ws) = λ i. four_bytes w i ++ serialize_lem ws i

blocks_lem :
    (fuel : ℕ) (v bytes : List ℕ)
    → length v ≡ 8
    → length bytes ≤ fuel
    → (hash_loop fuel v bytes).0 ≡ after_blocks (length bytes / 64) v bytes
unfolding hash_loop after_blocks
blocks_lem zero v bytes h k =
    let none_left : length bytes / 64 ≡ 0 = omega (arith, k) in rw none_left refl
blocks_lem (suc fuel) v bytes h k = elim (Bool-cases (leb 64 (length bytes))) [
  | inr few ↦
      let none_left : length bytes / 64 ≡ 0 = ground (arith, few) in rw (few, none_left) refl
  | inl more ↦
      let long = leb→le 64 (length bytes) more in
      let size = length-drop 64 bytes in
      let front = take 64 bytes in
      let back = drop 64 bytes in
      let whole : length front ≡ 64 = omega (arith, length-take 64 bytes, long) in
      let count : length bytes / 64 ≡ suc (length back / 64) = omega (arith, size, long) in
      rw (more, count)
        (blocks_lem fuel (process v front) back (length-process v front ∙ h)
            (omega (arith, size, long, k))
          ∙ ap (λ t. after_blocks (length back / 64) t back) (process_lem v front h whole))
]

padded_digest-digest : (bytes : List ℕ) → length bytes < 2 ^ 61 → padded_digest bytes ≡ digest bytes
unfolding padded_digest hash_blocks digest
padded_digest-digest bytes small =
    let whole = padded bytes in
    ap (λ t. serialize (hash_loop (length t) initial t).0) (padding_lem bytes small)
    ∙ serialize_lem (hash_loop (length whole) initial whole).0
    ∙ ap words_octets (
        blocks_lem (length whole) initial whole refl (omega arith)
        ∙ ap (λ v. after_blocks (length whole / 64) v whole) (sym initial_hash_lem))

-- The hash from a hasher that has taken fewer than 2^61 bytes is the digest of FIPS 180-4 of these
-- bytes, by a definition apart from the code: constants that are the fractions of the roots of the
-- first primes, the padding, the message schedule, the 64 rounds, the sums, and the words written
-- highest byte first.
pub finalize-digest :
    (h : Hasher) (bytes : List ℕ)
    → HasTaken h bytes
    → length bytes < 2 ^ 61
    → finalize h ≡ digest bytes
finalize-digest h bytes taken small =
    finalize-padded_digest h bytes taken ∙ padded_digest-digest bytes small

sha256-padded_digest : (input : List ℕ) → sha256 input ≡ padded_digest input
unfolding sha256
sha256-padded_digest input =
    finalize-padded_digest (update new input) input (update-HasTaken new [] input new-HasTaken)

pub sha256-digest : (input : List ℕ) → length input < 2 ^ 61 → sha256 input ≡ digest input
sha256-digest input small = sha256-padded_digest input ∙ padded_digest-digest input small

pub length-sha256 : (input : List ℕ) → length (sha256 input) ≡ 32
length-sha256 input = ap length (sha256-padded_digest input) ∙ length-padded_digest input

drop-replicate : (n a : ℕ) → drop {A = ℕ} a (replicate n 0) ≡ replicate (n - a) 0
drop-replicate n zero = ap (λ k. replicate {A = ℕ} k 0) (omega arith)
drop-replicate zero (suc a) = ap (λ k. replicate {A = ℕ} k 0) {x = 0} (omega arith)
drop-replicate (suc n) (suc a) = drop-replicate n a ∙ ap (λ k. replicate {A = ℕ} k 0) (omega arith)

overwrite_lem :
    (key : List ℕ)
    → length key ≤ 64
    → overwrite (replicate 64 0) 0 key ≡ key ++ replicate (64 - length key) 0
unfolding overwrite
overwrite_lem key h =
    let start : 0 + length key ≡ length key = omega arith in
    ap (λ n. key ++ drop n (replicate 64 0)) start
    ∙ ap (λ t. key ++ t) (drop-replicate 64 (length key))

key_block-filled_key : (key : List ℕ) → length key < 2 ^ 61 → key_block key ≡ filled_key key
unfolding key_block filled_key short_key
key_block-filled_key key small = elim (Bool-cases (leb (length key) 64)) [
  | inl short ↦
      let no_hash : ltb 64 (length key) ≡ false = ground (arith, short) in
      rw (short, no_hash) (overwrite_lem key (leb→le (length key) 64 short))
  | inr long ↦
      let hashed : ltb 64 (length key) ≡ true = ground (arith, long) in
      rw (long, hashed, ← sha256-digest key small)
        (overwrite_lem (sha256 key) (omega (arith, length-sha256 key)))
]

length-key_block : (key : List ℕ) → length (key_block key) ≡ 64
unfolding key_block
length-key_block key = elim (Bool-cases (ltb 64 (length key))) [
  | inl long ↦
      rw long
        (length-overwrite (replicate 64 0) 0 (sha256 key) refl (omega (arith, length-sha256 key)))
  | inr short ↦ rw short (length-overwrite (replicate 64 0) 0 key refl (ground arith))
]

length-filled_key : (key : List ℕ) → length key < 2 ^ 61 → length (filled_key key) ≡ 64
length-filled_key key small =
    ap length (sym (key_block-filled_key key small)) ∙ length-key_block key

-- For every key of fewer than 2^61 bytes and every input of fewer than 2^60, hmac_sha256 is what
-- RFC 2104 defines, by a definition apart from the code: a key of more than 64 bytes is replaced
-- by its digest, zeros fill the block, and the outer block is hashed with the digest of the inner
-- block and the input.
pub hmac_sha256-hmac :
    (key input : List ℕ)
    → length key < 2 ^ 61
    → length input < 2 ^ 60
    → hmac_sha256 key input ≡ hmac key input
unfolding hmac
hmac_sha256-hmac key input bounded small =
    let inner = map (λ b. bit_xor 0x36 b) (filled_key key) in
    let outer = map (λ b. bit_xor 0x5c b) (filled_key key) in
    let size = length-filled_key key bounded in
    let inner_size = length-map (filled_key key) (λ b. bit_xor 0x36 b) ∙ size in
    let outer_size = length-map (filled_key key) (λ b. bit_xor 0x5c b) ∙ size in
    let first =
      padded_digest-digest (inner ++ input)
        (omega (arith, length-append inner input, inner_size, small)) in
    let second = padded_digest-digest (outer ++ padded_digest (inner ++ input)) (
      omega (
        arith,
        length-append outer (padded_digest (inner ++ input)),
        outer_size,
        length-padded_digest (inner ++ input),
      )) in
    hmac_sha256-padded_digest key input
    ∙ ap
        (λ k.
          padded_digest
            (map (λ b. bit_xor 0x5c b) k ++ padded_digest (map (λ b. bit_xor 0x36 b) k ++ input)))
        (key_block-filled_key key bounded)
    ∙ second
    ∙ ap (λ t. digest (outer ++ t)) first
