-- ===== src/Sha256/Digest.antt =====
-- What a hasher represents, and the hash (src/crypto/sha256.rs).
use veil_os.Sha256.Compress.{initial}
use veil_os.Sha256.Hasher.{
  Hasher, new, fill, drain_all, keep, feed, update, to_be_bytes, zeros_for, padding, serialize,
  finalize, key_block, hmac_sha256,
}
use veil_os.Sha256.Blocks.{hash_loop, hash_blocks, length-hash_blocks, hash_blocks-append}
use veil_os.Sha256.Feed.{Holds, feed-Holds, drain_lem}
use Prim.Native.Nat.{bit_xor}
use veil_os.Base.{
  ℕ, zero, suc, ◌+◌, ◌-◌, ◌*◌, ◌/◌, ◌%◌, ◌^◌, ◌<◌, min, ◌≡◌, refl, sym, ap, ◌∙◌, inl, inr, List, [],
  ◌∷◌, ◌++◌, map, arith, ltb, leb, ◌==◌, Bool-cases, replicate, length-replicate, leb→le, length,
  length-append, take,
}

-- A hasher that has taken these bytes, in whatever parts.
pub record HasTaken (h : Hasher) (bytes : List ℕ) : Type 0 where
  pub holds : Holds h (hash_blocks initial bytes)
  pub total_is : h.total ≡ length bytes % 2 ^ 64

pub new-HasTaken : HasTaken new []
unfolding new hash_blocks hash_loop
new-HasTaken = record {
  holds = record { state_is = refl; begun = refl; counted = refl; whole = refl };
  total_is = refl;
}

feed-total : (h : Hasher) (input : List ℕ) → (feed h input).total ≡ h.total
unfolding feed
feed-total h input = kept (drain_all (fill h input)) ∙ drained (fill h input) ∙ filled
  where
    kept : (p : Hasher × List ℕ) → (keep p).total ≡ p.0.total
    kept (g, rest) =
        unfold keep in
        elim (Bool-cases (length rest == 0)) [ inl e ↦ rw e refl | inr e ↦ rw e refl ]

    drained : (p : Hasher × List ℕ) → (drain_all p).0.total ≡ p.0.total
    drained (g, rest) = unfold drain_all in ap (λ w. w.0.total) (drain_lem (length rest) g rest)

    filled : (fill h input).0.total ≡ h.total
    filled =
        unfold fill in
        elim (Bool-cases (ltb 0 h.buflen)) [
          | inr e ↦ rw e refl
          | inl e ↦ elim (Bool-cases (h.buflen + min (64 - h.buflen) (length input) == 64)) [
            | inl f ↦ rw (e, f) refl
            | inr f ↦ rw (e, f) refl
          ]
        ]

-- A hasher that has taken some bytes, and is updated with more, has taken all of them in order:
-- its state is that of their whole blocks, its buffer begins with the bytes behind these, and its
-- total is their number modulo 2^64. So it does not matter in what parts the bytes come.
pub update-HasTaken :
    (h : Hasher) (bytes input : List ℕ)
    → HasTaken h bytes
    → HasTaken (update h input) (bytes ++ input)
unfolding update
update-HasTaken h bytes input taken =
    let g = record h { total = (h.total + length input) % 2 ^ 64 } in
    let short : h.buflen < 64 =
      omega (arith, taken.holds.counted, length-hash_blocks initial bytes) in
    let blocks : hash_blocks h.state (take h.buflen h.buf ++ input)
        ≡ hash_blocks initial (bytes ++ input) =
      (λ i. hash_blocks (taken.holds.state_is i) (taken.holds.begun i ++ input))
      ∙ sym (hash_blocks-append initial bytes input) in
    record {
      holds = rw (sym blocks) (feed-Holds g input short taken.holds.whole);
      total_is = feed-total g input ∙ omega (arith, taken.total_is, length-append bytes input);
    }

-- The blocks of the bytes with the padding of the code.
unfoldable pub padded_digest : List ℕ → List ℕ
padded_digest bytes = serialize (hash_blocks initial (bytes ++ padding (length bytes % 2 ^ 64))).0

pub length-to_be_bytes : (n a : ℕ) → length (to_be_bytes n a) ≡ n
unfolding to_be_bytes
length-to_be_bytes zero a = refl
length-to_be_bytes (suc n) a =
    omega (
      arith,
      length-append (to_be_bytes n (a / 256)) (a % 256 ∷ []),
      length-to_be_bytes n (a / 256),
    )

zeros_for-whole : (t : ℕ) → (t + 9 + zeros_for t) % 64 ≡ 0
unfolding zeros_for
zeros_for-whole t = elim (Bool-cases (leb ((t % 64 + 1) % 64) 56)) [
  | inl few ↦ rw few (omega (arith, leb→le ((t % 64 + 1) % 64) 56 few))
  | inr many ↦ rw many (ground arith)
]

-- The padding makes whole blocks: no byte is left over.
pub padding-whole : (bytes : List ℕ) → length (bytes ++ padding (length bytes % 2 ^ 64)) % 64 ≡ 0
unfolding padding
padding-whole bytes =
    let t = length bytes % 2 ^ 64 in
    let size : List ℕ = to_be_bytes 8 (t * 8 % 2 ^ 64) in
    omega (
      arith,
      length-append bytes (0x80 ∷ (replicate (zeros_for t) 0 ++ size)),
      length-append (replicate (zeros_for t) 0) size,
      length-replicate {A = ℕ} (zeros_for t) 0,
      length-to_be_bytes 8 (t * 8 % 2 ^ 64),
      zeros_for-whole t,
    )

pub finalize-padded_digest :
    (h : Hasher) (bytes : List ℕ) → HasTaken h bytes → finalize h ≡ padded_digest bytes
unfolding finalize padded_digest
finalize-padded_digest h bytes taken =
    let short : h.buflen < 64 =
      omega (arith, taken.holds.counted, length-hash_blocks initial bytes) in
    let blocks : hash_blocks h.state (take h.buflen h.buf ++ padding h.total)
        ≡ hash_blocks initial (bytes ++ padding (length bytes % 2 ^ 64)) =
      (λ i.
        hash_blocks (taken.holds.state_is i) (taken.holds.begun i ++ padding (taken.total_is i)))
      ∙ sym (hash_blocks-append initial bytes (padding (length bytes % 2 ^ 64))) in
    ap serialize
      ((feed-Holds h (padding h.total) short taken.holds.whole).state_is ∙ ap (λ p. p.0) blocks)

pub hmac_sha256-padded_digest :
    (key input : List ℕ)
    → hmac_sha256 key input
      ≡ padded_digest (
          map (λ b. bit_xor 0x5c b) (key_block key)
          ++ padded_digest (map (λ b. bit_xor 0x36 b) (key_block key) ++ input))
unfolding hmac_sha256
hmac_sha256-padded_digest key input =
    let inner = map (λ b. bit_xor 0x36 b) (key_block key) in
    let outer = map (λ b. bit_xor 0x5c b) (key_block key) in
    let started : (bytes : List ℕ) → HasTaken (update new bytes) bytes =
      λ bytes. update-HasTaken new [] bytes new-HasTaken in
    let hashed =
      finalize-padded_digest (update (update new inner) input) (inner ++ input)
        (update-HasTaken (update new inner) inner input (started inner)) in
    ap (λ t. finalize (update (update new outer) t)) hashed
    ∙ finalize-padded_digest (update (update new outer) (padded_digest (inner ++ input)))
        (outer ++ padded_digest (inner ++ input))
        (update-HasTaken (update new outer) outer (padded_digest (inner ++ input)) (started outer))
