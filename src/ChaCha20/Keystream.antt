-- ===== src/ChaCha20/Keystream.antt =====
-- The lengths of the key stream of src/crypto/chacha20.rs, and its use twice.
use veil_os.Base.Xor.{bit_xor_twice}
use veil_os.ChaCha20.Words.{add32, to_le_bytes, length-to_le_bytes}
use veil_os.ChaCha20.Cipher.{
  serialize, rounds, initial_state, chacha20_block, xor_bytes, xor_loop, chacha20_xor,
}
use veil_os.Base.{
  take-append, ℕ, zero, suc, ◌+◌, ◌*◌, ◌≤◌, ◌<◌, min, ◌≡◌, refl, ap, ◌∙◌, false, List, [], ◌∷◌,
  ◌++◌, arith, ◌==◌, length-take, length-drop, take-append-drop, length, length-append, get_or,
  take, drop,
}

length-serialize : (count i : ℕ) (w state : List ℕ) → length (serialize count i w state) ≡ count * 4
unfolding serialize
length-serialize zero i w state = omega arith
length-serialize (suc count) i w state =
    let word = to_le_bytes 4 (add32 (get_or w i 0) (get_or state i 0)) in
    omega (
      arith,
      length-append word (serialize count (i + 1) w state),
      length-to_le_bytes 4 (add32 (get_or w i 0) (get_or state i 0)),
      length-serialize count (i + 1) w state,
    )

length-chacha20_block :
    (key : List ℕ) (counter : ℕ) (nonce : List ℕ) → length (chacha20_block key counter nonce) ≡ 64
unfolding chacha20_block
length-chacha20_block key counter nonce =
    length-serialize 16 0 (rounds 10 (initial_state key counter nonce))
      (initial_state key counter nonce)

length-xor_bytes : (xs ks : List ℕ) → length xs ≤ length ks → length (xor_bytes xs ks) ≡ length xs
unfolding xor_bytes
length-xor_bytes [] ks h = refl
length-xor_bytes (x ∷ xs) [] h = absurd (omega arith)
length-xor_bytes (x ∷ xs) (k ∷ ks) h = ap suc (length-xor_bytes xs ks (omega arith))

xor_bytes_twice : (xs ks : List ℕ) → length xs ≤ length ks → xor_bytes (xor_bytes xs ks) ks ≡ xs
unfolding xor_bytes
xor_bytes_twice [] ks h = refl
xor_bytes_twice (x ∷ xs) [] h = absurd (omega arith)
xor_bytes_twice (x ∷ xs) (k ∷ ks) h =
    λ i. bit_xor_twice x k i ∷ xor_bytes_twice xs ks (omega arith) i

module _ (key nonce : List ℕ) where
  -- A round of the loop.
  block_of : (counter : ℕ) → List ℕ → List ℕ
  block_of counter rest = xor_bytes (take 64 rest) (chacha20_block key counter nonce)

  length-block_of :
      (counter : ℕ) (rest : List ℕ) → length (block_of counter rest) ≡ min 64 (length rest)
  unfolding block_of
  length-block_of counter rest =
      length-xor_bytes (take 64 rest) (chacha20_block key counter nonce)
        (omega (arith, length-chacha20_block key counter nonce, length-take 64 rest))
      ∙ length-take 64 rest

  block_of_twice :
      (counter : ℕ) (rest out : List ℕ)
      → take 64 out ≡ block_of counter rest
      → block_of counter out ≡ take 64 rest
  unfolding block_of
  block_of_twice counter rest out e =
      ap (λ t. xor_bytes t (chacha20_block key counter nonce)) e
      ∙ xor_bytes_twice (take 64 rest) (chacha20_block key counter nonce)
          (omega (arith, length-chacha20_block key counter nonce, length-take 64 rest))

  xor_loop-round :
      (fuel counter : ℕ) (rest : List ℕ)
      → 0 < length rest
      → xor_loop (suc fuel) key counter nonce rest
        ≡ block_of counter rest ++ xor_loop fuel key (add32 counter 1) nonce (drop 64 rest)
  unfolding xor_loop block_of
  xor_loop-round fuel counter rest h =
      let more : (length rest == 0) ≡ false = ground arith in rw more refl

  xor_loop-empty :
      (fuel counter : ℕ) (rest : List ℕ)
      → length rest ≡ 0
      → xor_loop fuel key counter nonce rest ≡ []
  unfolding xor_loop
  xor_loop-empty zero counter rest h = refl
  xor_loop-empty (suc fuel) counter rest h = rw h refl

  pub length-xor_loop :
      (fuel counter : ℕ) (rest : List ℕ)
      → length rest ≤ fuel
      → length (xor_loop fuel key counter nonce rest) ≡ length rest
  length-xor_loop fuel counter [] h = ap length (xor_loop-empty fuel counter [] refl)
  length-xor_loop zero counter (x ∷ rest) h = absurd (omega arith)
  length-xor_loop (suc fuel) counter (x ∷ rest) h =
      let later = xor_loop fuel key (add32 counter 1) nonce (drop 64 (x ∷ rest)) in
      ap length (xor_loop-round fuel counter (x ∷ rest) (omega arith))
      ∙ omega (
        arith,
        length-append (block_of counter (x ∷ rest)) later,
        length-block_of counter (x ∷ rest),
        length-xor_loop fuel (add32 counter 1) (drop 64 (x ∷ rest))
            (omega (arith, length-drop 64 (x ∷ rest))),
        length-drop 64 (x ∷ rest),
      )

  xor_loop_twice :
      (fuel counter : ℕ) (rest : List ℕ)
      → length rest ≤ fuel
      → xor_loop fuel key counter nonce (xor_loop fuel key counter nonce rest) ≡ rest
  xor_loop_twice fuel counter [] h =
      ap (λ t. xor_loop fuel key counter nonce t) (xor_loop-empty fuel counter [] refl)
      ∙ xor_loop-empty fuel counter [] refl
  xor_loop_twice zero counter (x ∷ rest) h = absurd (omega arith)
  xor_loop_twice (suc fuel) counter (x ∷ rest) h =
      let first = block_of counter (x ∷ rest) in
      let later = xor_loop fuel key (add32 counter 1) nonce (drop 64 (x ∷ rest)) in
      let short : length (drop 64 (x ∷ rest)) ≤ fuel = omega (arith, length-drop 64 (x ∷ rest)) in
      let measured = length-block_of counter (x ∷ rest) in
      let left = length-xor_loop fuel (add32 counter 1) (drop 64 (x ∷ rest)) short in
      let (taken, dropped) =
        take-append 64 first later (omega (arith, measured))
          (λ few. omega (arith, few, measured, left, length-drop 64 (x ∷ rest))) in
      let again =
        ap (λ t. xor_loop fuel key (add32 counter 1) nonce t) dropped
        ∙ xor_loop_twice fuel (add32 counter 1) (drop 64 (x ∷ rest)) short in
      ap (λ t. xor_loop (suc fuel) key counter nonce t)
        (xor_loop-round fuel counter (x ∷ rest) (omega arith))
      ∙ xor_loop-round fuel counter (first ++ later)
          (omega (arith, length-append first later, measured))
      ∙ (λ i. block_of_twice counter (x ∷ rest) (first ++ later) taken i ++ again i)
      ∙ take-append-drop 64 (x ∷ rest)

  -- The key stream applied twice, with the same key, nonce and counter, gives the bytes back,
  -- whatever their number.
  pub chacha20_xor_twice :
      (counter : ℕ) (input : List ℕ)
      → chacha20_xor key counter nonce (chacha20_xor key counter nonce input) ≡ input
  unfolding chacha20_xor
  chacha20_xor_twice counter input =
      ap (λ n. xor_loop n key counter nonce (xor_loop (length input) key counter nonce input))
        (length-xor_loop (length input) counter input (omega arith))
      ∙ xor_loop_twice (length input) counter input (omega arith)

  pub length-chacha20_xor :
      (counter : ℕ) (input : List ℕ) → length (chacha20_xor key counter nonce input) ≡ length input
  unfolding chacha20_xor
  length-chacha20_xor counter input = length-xor_loop (length input) counter input (omega arith)
