-- ===== src/Sha256/Expand.antt =====
-- The number of bytes that a derivation gives (src/crypto/hkdf.rs).
use veil_os.Sha256.Compress.{process, add_words, schedule, be_words, rounds, initial}
use veil_os.Sha256.Hasher.{to_be_bytes, hmac_sha256, serialize, padding}
use veil_os.Sha256.Blocks.{hash_loop, hash_blocks}
use veil_os.Sha256.Digest.{padded_digest, hmac_sha256-padded_digest, length-to_be_bytes}
use veil_os.Sha256.Hkdf.{expand_loop, hkdf_expand}
use veil_os.Base.{
  ℕ, zero, suc, ◌+◌, ◌-◌, ◌*◌, ◌%◌, ◌^◌, ◌≤◌, min, ◌≡◌, refl, ap, ◌∙◌, inl, inr, List, [], ◌∷◌,
  ◌++◌, arith, ltb, leb, Bool-cases, replicate, length-take, ltb→lt, length, length-append, take,
  drop,
}

length-add_words : (xs ys : List ℕ) → length (add_words xs ys) ≡ length xs
unfolding add_words
length-add_words [] ys = refl
length-add_words (x ∷ xs) [] = refl
length-add_words (x ∷ xs) (y ∷ ys) = ap suc (length-add_words xs ys)

pub length-process : (st block : List ℕ) → length (process st block) ≡ length st
unfolding process
length-process st block =
    length-add_words st (rounds 64 0 (schedule 48 16 (be_words 16 0 block ++ replicate 48 0)) st)

length-hash_loop_state :
    (fuel : ℕ) (st bytes : List ℕ) → length (hash_loop fuel st bytes).0 ≡ length st
unfolding hash_loop
length-hash_loop_state zero st bytes = refl
length-hash_loop_state (suc fuel) st bytes = elim (Bool-cases (leb 64 (length bytes))) [
  | inr few ↦ rw few refl
  | inl more ↦ rw more (
      length-hash_loop_state fuel (process st (take 64 bytes)) (drop 64 bytes)
      ∙ length-process st (take 64 bytes))
]

length-serialize : (ws : List ℕ) → length (serialize ws) ≡ length ws * 4
unfolding serialize
length-serialize [] = omega arith
length-serialize (w ∷ ws) = omega (
  arith,
  length-append (to_be_bytes 4 w) (serialize ws),
  length-to_be_bytes 4 w,
  length-serialize ws,
)

pub length-padded_digest : (bytes : List ℕ) → length (padded_digest bytes) ≡ 32
unfolding padded_digest hash_blocks
length-padded_digest bytes =
    let padded = bytes ++ padding (length bytes % 2 ^ 64) in
    length-serialize (hash_loop (length padded) initial padded).0
    ∙ ap (λ (n : ℕ). n * 4) (length-hash_loop_state (length padded) initial padded)

pub length-hmac_sha256 : (key input : List ℕ) → length (hmac_sha256 key input) ≡ 32
length-hmac_sha256 key input =
    ap length (hmac_sha256-padded_digest key input) ∙ length-padded_digest _

length-expand_loop :
    (fuel : ℕ) (prk info : List ℕ) (len : ℕ) (t : List ℕ) (tlen counter : ℕ) (out : List ℕ)
    → length out ≤ len
    → len ≤ length out + fuel
    → length (expand_loop fuel prk info len t tlen counter out) ≡ len
unfolding expand_loop
length-expand_loop zero prk info len t tlen counter out h k = omega arith
length-expand_loop (suc fuel) prk info len t tlen counter out h k =
    elim (Bool-cases (ltb (length out) len)) [
      | inr done ↦ rw done (ground arith)
      | inl more ↦
          let less = ltb→lt (length out) len more in
          let block = hmac_sha256 prk (take tlen t ++ (info ++ (counter ∷ []))) in
          let size : length (out ++ take (min 32 (len - length out)) block)
              ≡ length out + min 32 (len - length out) =
            omega (
              arith,
              length-append out (take (min 32 (len - length out)) block),
              length-take (min 32 (len - length out)) block,
              length-hmac_sha256 prk (take tlen t ++ (info ++ (counter ∷ []))),
            ) in
          rw more (
            length-expand_loop fuel prk info len block 32 ((counter + 1) % 256)
              (out ++ take (min 32 (len - length out)) block) (omega (arith, size, less))
              (omega (arith, size, less)))
    ]

-- hkdf_expand gives exactly as many bytes as are asked for, for every number: its loop, which adds
-- at most 32 bytes in a round, comes to an end there.
length-hkdf_expand : (prk info : List ℕ) (len : ℕ) → length (hkdf_expand prk info len) ≡ len
unfolding hkdf_expand
length-hkdf_expand prk info len =
    length-expand_loop len prk info len (replicate 32 0) 0 1 [] (omega arith) (omega arith)
