-- ===== src/Sha256/Blocks.antt =====
-- Whole blocks of a list of bytes (src/crypto/sha256.rs), independent of how a hasher gets them.
use mathlib.Core.List.{append_assoc}
use veil_os.Sha256.Compress.{process}
use veil_os.Base.{
  ℕ, zero, suc, ◌%◌, ◌≤◌, ◌<◌, ◌≡◌, refl, sym, ap, ◌∙◌, inl, inr, true, false, List, ◌++◌, arith,
  leb, if◌then◌else◌, Bool-cases, length-take, length-drop, take-append-drop, take-append, leb→le,
  length, length-append, take, drop,
}

-- The state after the whole blocks, and the bytes behind the last of them.
unfoldable pub hash_loop : ℕ → List ℕ → List ℕ → List ℕ × List ℕ
hash_loop zero st bytes = (st, bytes)
hash_loop (suc fuel) st bytes =
    let more = hash_loop fuel (process st (take 64 bytes)) (drop 64 bytes) in
    if leb 64 (length bytes) then more else (st, bytes)

unfoldable pub hash_blocks : List ℕ → List ℕ → List ℕ × List ℕ
hash_blocks st bytes = hash_loop (length bytes) st bytes

-- More fuel than bytes changes nothing.
pub hash_loop-fuel :
    (m n : ℕ) (st bytes : List ℕ)
    → length bytes ≤ m
    → length bytes ≤ n
    → hash_loop m st bytes ≡ hash_loop n st bytes
unfolding hash_loop
hash_loop-fuel zero zero st bytes h k = refl
hash_loop-fuel zero (suc n) st bytes h k =
    let few : leb 64 (length bytes) ≡ false = ground arith in rw few refl
hash_loop-fuel (suc m) zero st bytes h k =
    let few : leb 64 (length bytes) ≡ false = ground arith in rw few refl
hash_loop-fuel (suc m) (suc n) st bytes h k = elim (Bool-cases (leb 64 (length bytes))) [
  | inr few ↦ rw few refl
  | inl more ↦
      let long = leb→le 64 (length bytes) more in
      rw more (
        hash_loop-fuel m n (process st (take 64 bytes)) (drop 64 bytes)
          (omega (arith, length-drop 64 bytes, long)) (omega (arith, length-drop 64 bytes, long)))
]

pub hash_blocks-few : (st bytes : List ℕ) → length bytes < 64 → hash_blocks st bytes ≡ (st, bytes)
unfolding hash_blocks hash_loop
hash_blocks-few st bytes h =
    let few : leb 64 (length bytes) ≡ false = ground arith in
    hash_loop-fuel (length bytes) (suc (length bytes)) st bytes (omega arith) (omega arith)
    ∙ rw few refl

-- The first block, and the blocks of the rest.
pub hash_blocks-block :
    (st block rest : List ℕ)
    → length block ≡ 64
    → hash_blocks st (block ++ rest) ≡ hash_blocks (process st block) rest
unfolding hash_blocks hash_loop
hash_blocks-block st block rest h =
    let all = block ++ rest in
    let long : leb 64 (length all) ≡ true = ground (arith, length-append block rest, h) in
    let (front, back) =
      take-append 64 block rest (omega (arith, h)) (λ few. absurd (omega (arith, h, few))) in
    hash_loop-fuel (length all) (suc (length all)) st all (omega arith) (omega arith)
    ∙ rw long (
        (λ i. hash_loop (length all) (process st (front i)) (back i))
        ∙ hash_loop-fuel (length all) (length rest) (process st block) rest
            (omega (arith, length-append block rest)) (omega arith))

length-hash_loop :
    (fuel : ℕ) (st bytes : List ℕ)
    → length bytes ≤ fuel
    → length (hash_loop fuel st bytes).1 ≡ length bytes % 64
unfolding hash_loop
length-hash_loop zero st bytes h = omega arith
length-hash_loop (suc fuel) st bytes h = elim (Bool-cases (leb 64 (length bytes))) [
  | inr few ↦ rw few (ground arith)
  | inl more ↦
      let long = leb→le 64 (length bytes) more in
      let size = length-drop 64 bytes in
      rw more (
        length-hash_loop fuel (process st (take 64 bytes)) (drop 64 bytes)
          (omega (arith, size, long))
        ∙ omega (arith, size, long))
]

-- What is left is shorter than a block.
pub length-hash_blocks : (st bytes : List ℕ) → length (hash_blocks st bytes).1 ≡ length bytes % 64
unfolding hash_blocks
length-hash_blocks st bytes = length-hash_loop (length bytes) st bytes (omega arith)

hash_loop-append :
    (fuel : ℕ) (st a b : List ℕ)
    → length a ≤ fuel
    → hash_blocks st (a ++ b) ≡ hash_blocks (hash_loop fuel st a).0 ((hash_loop fuel st a).1 ++ b)
unfolding hash_loop
hash_loop-append zero st a b h = refl
hash_loop-append (suc fuel) st a b h = elim (Bool-cases (leb 64 (length a))) [
  | inr few ↦ rw few refl
  | inl more ↦
      let long = leb→le 64 (length a) more in
      let parts : a ++ b ≡ take 64 a ++ (drop 64 a ++ b) =
        ap (λ t. t ++ b) (sym (take-append-drop 64 a)) ∙ append_assoc (take 64 a) (drop 64 a) b in
      rw more (
        ap (hash_blocks st) parts
        ∙ hash_blocks-block st (take 64 a) (drop 64 a ++ b) (omega (arith, length-take 64 a, long))
        ∙ hash_loop-append fuel (process st (take 64 a)) (drop 64 a) b
            (omega (arith, length-drop 64 a, long)))
]

-- The blocks of a list in two parts.
pub hash_blocks-append :
    (st a b : List ℕ)
    → hash_blocks st (a ++ b) ≡ hash_blocks (hash_blocks st a).0 ((hash_blocks st a).1 ++ b)
unfolding hash_blocks
hash_blocks-append st a b = hash_loop-append (length a) st a b (omega arith)
