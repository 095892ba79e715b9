-- ===== src/ChaCha20/Reference.antt =====
-- Poly1305 as the standard states it, and the code that computes it (src/crypto/chacha20.rs).
use native.Mathlib.Nat.{add-mul-mod_self_right, div-add-mod}
use veil_os.ChaCha20.Words.{to_le_bytes}
use veil_os.ChaCha20.Poly1305.{
  Limbs, add_block, absorb, blocks, carry, minus_p, select, clamp, zeroed, poly1305_mac,
}
use veil_os.ChaCha20.Limbs.{val, prime, IsReduced, IsBelow, reduce-products}
use veil_os.ChaCha20.Canonical.{carry_lem, select_lem}
use veil_os.ChaCha20.Blocks.{le_value, IsBytes, IsBytes-take, IsBytes-drop, add_block_lem}
use veil_os.ChaCha20.Key.{clamped, clamp_lem, finish_lem}
use veil_os.Base.{
  ℕ, zero, suc, ◌+◌, ◌*◌, ◌/◌, ◌%◌, ◌^◌, ◌≤◌, ◌<◌, ◌≡◌, refl, sym, ap, ◌∙◌, inl, inr, false, List,
  [], ◌∷◌, ◌++◌, arith, ◌==◌, if◌then◌else◌, Bool-cases, length-take, length-drop, length, take,
  drop,
}

-- The polynomial of the message at `r`: sixteen bytes and a byte of 1 make a number.
unfoldable pub evaluate : ℕ → ℕ → ℕ → List ℕ → ℕ
evaluate zero r acc rest = acc
evaluate (suc fuel) r acc rest =
    let later =
      evaluate fuel r ((acc + le_value (take 16 rest ++ (1 ∷ []))) * r % prime) (drop 16 rest) in
    if length rest == 0 then acc else later

unfoldable pub poly1305 : List ℕ → List ℕ → List ℕ
poly1305 key msg =
    to_le_bytes 16 (evaluate (length msg) (clamped key) 0 msg + le_value (drop 16 key))

-- More fuel than bytes changes nothing: each round takes one byte at least.
evaluate-fuel :
    (m n r acc : ℕ) (rest : List ℕ)
    → length rest ≤ m
    → length rest ≤ n
    → evaluate m r acc rest ≡ evaluate n r acc rest
unfolding evaluate
evaluate-fuel zero zero r acc rest h k = refl
evaluate-fuel zero (suc n) r acc [] h k = refl
evaluate-fuel zero (suc n) r acc (x ∷ rest) h k = absurd (omega arith)
evaluate-fuel (suc m) zero r acc [] h k = refl
evaluate-fuel (suc m) zero r acc (x ∷ rest) h k = absurd (omega arith)
evaluate-fuel (suc m) (suc n) r acc [] h k = refl
evaluate-fuel (suc m) (suc n) r acc (x ∷ rest) h k =
    let more : (suc (length rest) == 0) ≡ false = ground arith in
    rw more (
      evaluate-fuel m n r ((acc + le_value (take 16 (x ∷ rest) ++ (1 ∷ []))) * r % prime)
        (drop 16 (x ∷ rest)) (omega (arith, length-drop 16 (x ∷ rest)))
        (omega (arith, length-drop 16 (x ∷ rest))))

-- The polynomial of a message by its first block and the rest, with no fuel to speak of.
pub evaluate-round :
    (r acc : ℕ) (msg : List ℕ)
    → 0 < length msg
    → evaluate (length msg) r acc msg
      ≡ evaluate
          (length (drop 16 msg))
          r
          ((acc + le_value (take 16 msg ++ (1 ∷ []))) * r % prime)
          (drop 16 msg)
unfolding evaluate
evaluate-round r acc [] h = absurd (omega arith)
evaluate-round r acc (x ∷ msg) h =
    let more : (suc (length msg) == 0) ≡ false = ground arith in
    rw more (
      evaluate-fuel (length msg) (length (drop 16 (x ∷ msg))) r _ (drop 16 (x ∷ msg))
        (omega (arith, length-drop 16 (x ∷ msg))) (omega arith))

mod_step : (a b r : ℕ) → (a + b) * r % prime ≡ (a % prime + b) * r % prime
mod_step a b r =
    ap (λ w. w % prime) (omega (arith, ap (λ (t : ℕ). t * r) (div-add-mod a prime)))
    ∙ add-mul-mod_self_right ((a % prime + b) * r) (a / prime * r) prime

module _ (r : Limbs) (rs : IsBelow (2 ^ 26) r) where
  absorb_lem :
      (h : Limbs) (chunk : List ℕ)
      → IsReduced h
      → IsBytes chunk
      → length chunk ≤ 16
      → (val (absorb r h chunk) % prime
          ≡ (val h % prime + le_value (chunk ++ (1 ∷ []))) * val r % prime)
        × IsReduced (absorb r h chunk)
  unfolding absorb
  absorb_lem h chunk small s few =
      let (added, below) = add_block_lem h chunk small s few in
      let (multiplied, reduced) = reduce-products (add_block h chunk) r below rs in
      (
        multiplied
            ∙ ap (λ (w : ℕ). w * val r % prime) added
            ∙ mod_step (val h) (le_value (chunk ++ (1 ∷ []))) (val r),
        reduced,
      )

  blocks-evaluate :
      (fuel : ℕ) (h : Limbs) (rest : List ℕ)
      → IsReduced h
      → IsBytes rest
      → (val (blocks fuel r h rest) % prime ≡ evaluate fuel (val r) (val h % prime) rest)
        × IsReduced (blocks fuel r h rest)
  unfolding blocks evaluate
  blocks-evaluate zero h rest small s = (refl, small)
  blocks-evaluate (suc fuel) h rest small s = elim (Bool-cases (length rest == 0)) [
    | inl done ↦ rw done (refl, small)
    | inr more ↦
        let (next, reduced) =
          absorb_lem h (take 16 rest) small (IsBytes-take 16 rest s)
            (omega (arith, length-take 16 rest)) in
        let (later, all) =
          blocks-evaluate fuel (absorb r h (take 16 rest)) (drop 16 rest) reduced
            (IsBytes-drop 16 rest s) in
        rw more (later ∙ ap (λ a. evaluate fuel (val r) a (drop 16 rest)) next, all)
  ]

val-zeroed : val zeroed % prime ≡ 0
unfolding val zeroed
val-zeroed = refl

zeroed-IsReduced : IsReduced zeroed
unfolding zeroed
zeroed-IsReduced = record {
  l0_small = omega arith;
  l1_small = omega arith;
  l2_small = omega arith;
  l3_small = omega arith;
  l4_small = omega arith;
}

-- For a key of 32 bytes and a message of bytes, poly1305_mac, which computes in five limbs of 26
-- bits, gives what RFC 8439 states: the polynomial of the blocks at the masked first half of the
-- key, modulo 2^130 - 5, plus the second half, in sixteen bytes.
pub poly1305_mac-poly1305 :
    (key msg : List ℕ)
    → length key ≡ 32
    → IsBytes key
    → IsBytes msg
    → poly1305_mac key msg ≡ poly1305 key msg
unfolding poly1305_mac poly1305
poly1305_mac-poly1305 key msg size ks s =
    let r = clamp key in
    let (value, rs) = clamp_lem key size ks in
    let (evaluated, reduced) = blocks-evaluate r rs (length msg) zeroed msg zeroed-IsReduced s in
    let h = blocks (length msg) r zeroed msg in
    let (k, carried, small) = carry_lem h reduced in
    let (selected, canonical) = select_lem (carry h) small in
    finish_lem (select (carry h) (minus_p (carry h))) key canonical size
    ∙ ap (λ v. to_le_bytes 16 (v + le_value (drop 16 key)))
        (selected
          ∙ sym (ap (λ w. w % prime) carried ∙ add-mul-mod_self_right (val (carry h)) k prime)
          ∙ evaluated
          ∙ λ i. evaluate (length msg) (value i) (val-zeroed i) msg)
