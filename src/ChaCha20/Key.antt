-- ===== src/ChaCha20/Key.antt =====
-- The key of the authenticator, and its last sum (src/crypto/chacha20.rs).
use Prim.Native.Nat.{bit_and, bit_or}
use veil_os.Base.Bits.{bit_and-ones, bit_or-add}
use veil_os.Base.Mask.{bit_and-mask, bit_and-parts}
use veil_os.ChaCha20.Words.{shl32, le32, to_le_bytes}
use veil_os.ChaCha20.Poly1305.{Limbs, join, clamp, finish}
use veil_os.ChaCha20.Limbs.{val, IsBelow, low_limb}
use veil_os.ChaCha20.Blocks.{
  le_value, IsBytes, IsBytes-drop, le32-lt, le_value-words, drop-drop, join_lem,
}
use veil_os.Base.{
  ℕ, zero, suc, ◌+◌, ◌*◌, ◌/◌, ◌%◌, ◌^◌, ◌<◌, ◌≡◌, refl, sym, ap, ◌∙◌, List, [], ◌∷◌, ◌++◌, arith,
  length-take, length-drop, length, take, drop,
}

take-nil : (n : ℕ) → ◌≡◌ {A = List ℕ} (take n []) []
take-nil zero = refl
take-nil (suc n) = refl

drop-take : (m n : ℕ) (xs : List ℕ) → drop m (take (m + n) xs) ≡ take n (drop m xs)
drop-take zero n xs = ap (λ k. take k xs) (omega arith)
drop-take (suc m) n [] =
    let next : suc m + n ≡ suc (m + n) = omega arith in
    ap (λ k. drop (suc m) (take k [])) next ∙ sym (take-nil n)
drop-take (suc m) n (x ∷ xs) =
    let next : suc m + n ≡ suc (m + n) = omega arith in
    ap (λ k. drop (suc m) (take k (x ∷ xs))) next ∙ drop-take m n xs

le32-take : (n : ℕ) (xs : List ℕ) → le32 (take (suc (suc (suc (suc n)))) xs) ≡ le32 xs
unfolding le32
le32-take n [] = refl
le32-take n (a ∷ []) = refl
le32-take n (a ∷ b ∷ []) = refl
le32-take n (a ∷ b ∷ c ∷ []) = refl
le32-take n (a ∷ b ∷ c ∷ d ∷ xs) = refl

-- The mask of the standard on the first half of the key.
unfoldable pub clamped : List ℕ → ℕ
clamped key = bit_and (le_value (take 16 key)) 0x0ffffffc0ffffffc0ffffffc0fffffff

clamp_number :
    (t0 t1 t2 t3 : ℕ)
    → t0 < 2 ^ 32
    → t1 < 2 ^ 32
    → t2 < 2 ^ 32
    → t3 < 2 ^ 32
    → bit_and (t0 + t1 * 2 ^ 32 + t2 * 2 ^ 64 + t3 * 2 ^ 96) 0x0ffffffc0ffffffc0ffffffc0fffffff
      ≡ t0 % 2 ^ 28 + t1 / 4 % 2 ^ 26 * 2 ^ 34 + t2 / 4 % 2 ^ 26 * 2 ^ 66 + t3 / 4 % 2 ^ 26 * 2 ^ 98
clamp_number t0 t1 t2 t3 s0 s1 s2 s3 =
    let v = t0 + t1 * 2 ^ 32 + t2 * 2 ^ 64 + t3 * 2 ^ 96 in
    let v1 = v / 2 ^ 32 in
    let v2 = v1 / 2 ^ 32 in
    let v3 = v2 / 2 ^ 32 in
    omega (
      arith,
      bit_and-parts 32 v 0x0ffffffc0ffffffc0ffffffc 0x0fffffff (omega arith),
      bit_and-ones 28 v,
      bit_and-parts 32 v1 0x0ffffffc0ffffffc 0x0ffffffc (omega arith),
      bit_and-mask 2 26 0 v1 (omega arith),
      bit_and-parts 32 v2 0x0ffffffc 0x0ffffffc (omega arith),
      bit_and-mask 2 26 0 v2 (omega arith),
      bit_and-mask 2 26 0 v3 (omega arith),
    )

-- The masks of the limbs are that mask.
limb_masks :
    (t0 t1 t2 t3 : ℕ)
    → t0 < 2 ^ 32
    → t1 < 2 ^ 32
    → t2 < 2 ^ 32
    → t3 < 2 ^ 32
    → bit_and t0 0x3ffffff
        + bit_and (join t0 26 t1 6) 0x3ffff03 * 2 ^ 26
        + bit_and (join t1 20 t2 12) 0x3ffc0ff * 2 ^ 52
        + bit_and (join t2 14 t3 18) 0x3f03fff * 2 ^ 78
        + bit_and (t3 / 2 ^ 8) 0x00fffff * 2 ^ 104
      ≡ t0 % 2 ^ 28 + t1 / 4 % 2 ^ 26 * 2 ^ 34 + t2 / 4 % 2 ^ 26 * 2 ^ 66 + t3 / 4 % 2 ^ 26 * 2 ^ 98
limb_masks t0 t1 t2 t3 s0 s1 s2 s3 = omega (
  arith,
  low_limb t0,
  bit_and-mask 8 18 2 (join t0 26 t1 6) (omega arith),
  bit_and-mask 14 12 8 (join t1 20 t2 12) (omega arith),
  bit_and-mask 20 6 14 (join t2 14 t3 18) (omega arith),
  bit_and-ones 20 (t3 / 2 ^ 8),
  join_lem t0 26 t1 6 (t1 % 2 ^ 26) (omega arith) (omega arith),
  join_lem t1 20 t2 12 (t2 % 2 ^ 20) (omega arith) (omega arith),
  join_lem t2 14 t3 18 (t3 % 2 ^ 14) (omega arith) (omega arith),
)

-- The key in limbs is the masked number, and no limb is above 26 bits.
pub clamp_lem :
    (key : List ℕ)
    → length key ≡ 32
    → IsBytes key
    → (val (clamp key) ≡ clamped key) × IsBelow (2 ^ 26) (clamp key)
unfolding clamp val clamped
clamp_lem key size s =
    let half = take 16 key in
    let t0 = le32 key in
    let t1 = le32 (drop 4 key) in
    let t2 = le32 (drop 8 key) in
    let t3 = le32 (drop 12 key) in
    let s0 = le32-lt key s in
    let s1 = le32-lt (drop 4 key) (IsBytes-drop 4 key s) in
    let s2 = le32-lt (drop 8 key) (IsBytes-drop 8 key s) in
    let s3 = le32-lt (drop 12 key) (IsBytes-drop 12 key s) in
    let e0 : le32 half ≡ t0 = le32-take 12 key in
    let e1 : le32 (drop 4 half) ≡ t1 = ap le32 (drop-take 4 12 key) ∙ le32-take 8 (drop 4 key) in
    let e2 : le32 (drop 8 half) ≡ t2 = ap le32 (drop-take 8 8 key) ∙ le32-take 4 (drop 8 key) in
    let e3 : le32 (drop 12 half) ≡ t3 = ap le32 (drop-take 12 4 key) ∙ le32-take 0 (drop 12 key) in
    let number : le_value half ≡ t0 + t1 * 2 ^ 32 + t2 * 2 ^ 64 + t3 * 2 ^ 96 =
      omega
        (arith, le_value-words half (omega (arith, length-take 16 key, size)), e0, e1, e2, e3) in
    (
      limb_masks t0 t1 t2 t3 s0 s1 s2 s3
          ∙ sym (
              ap (λ v. bit_and v 0x0ffffffc0ffffffc0ffffffc0fffffff) number
              ∙ clamp_number t0 t1 t2 t3 s0 s1 s2 s3),
      record {
        b0 = omega (arith, low_limb t0);
        b1 = omega (arith, bit_and-mask 8 18 2 (join t0 26 t1 6) (omega arith));
        b2 = omega (arith, bit_and-mask 14 12 8 (join t1 20 t2 12) (omega arith));
        b3 = omega (arith, bit_and-mask 20 6 14 (join t2 14 t3 18) (omega arith));
        b4 = omega (arith, bit_and-ones 20 (t3 / 2 ^ 8));
      },
    )

to_le_bytes-parts :
    (n a : ℕ)
    → to_le_bytes (suc (suc (suc (suc n)))) a ≡ to_le_bytes 4 a ++ to_le_bytes n (a / 2 ^ 32)
unfolding to_le_bytes
to_le_bytes-parts n a =
    let deep : a / 256 / 256 / 256 / 256 ≡ a / 2 ^ 32 = omega arith in
    ap
      (λ t.
        a % 256 ∷ a / 256 % 256 ∷ a / 256 / 256 % 256 ∷ a / 256 / 256 / 256 % 256 ∷ to_le_bytes n t)
      deep

-- Four bytes do not see what stands above them.
to_le_bytes-low : (a b y : ℕ) → a ≡ b + 2 ^ 32 * y → to_le_bytes 4 a ≡ to_le_bytes 4 b
unfolding to_le_bytes
to_le_bytes-low a b y e =
    let e0 : a % 256 ≡ b % 256 = omega arith in
    let e1 : a / 256 % 256 ≡ b / 256 % 256 = omega arith in
    let e2 : a / 256 / 256 % 256 ≡ b / 256 / 256 % 256 = omega arith in
    let e3 : a / 256 / 256 / 256 % 256 ≡ b / 256 / 256 / 256 % 256 = omega arith in
    λ i. e0 i ∷ e1 i ∷ e2 i ∷ e3 i ∷ []

-- A sum word by word, with the carries.
sum_bytes :
    (w0 w1 w2 w3 s0 s1 s2 s3 q : ℕ)
    → to_le_bytes 16 (
        w0
        + w1 * 2 ^ 32
        + w2 * 2 ^ 64
        + w3 * 2 ^ 96
        + q * 2 ^ 128
        + (s0 + s1 * 2 ^ 32 + s2 * 2 ^ 64 + s3 * 2 ^ 96))
      ≡ to_le_bytes 4 (w0 + s0)
        ++ (to_le_bytes 4 (w1 + s1 + (w0 + s0) / 2 ^ 32)
            ++ (to_le_bytes 4 (w2 + s2 + (w1 + s1 + (w0 + s0) / 2 ^ 32) / 2 ^ 32)
                ++ to_le_bytes 4
                    (w3 + s3 + (w2 + s2 + (w1 + s1 + (w0 + s0) / 2 ^ 32) / 2 ^ 32) / 2 ^ 32)))
sum_bytes w0 w1 w2 w3 s0 s1 s2 s3 q =
    let a =
      w0
      + w1 * 2 ^ 32
      + w2 * 2 ^ 64
      + w3 * 2 ^ 96
      + q * 2 ^ 128
      + (s0 + s1 * 2 ^ 32 + s2 * 2 ^ 64 + s3 * 2 ^ 96) in
    let f0 = w0 + s0 in
    let f1 = w1 + s1 + f0 / 2 ^ 32 in
    let f2 = w2 + s2 + f1 / 2 ^ 32 in
    let f3 = w3 + s3 + f2 / 2 ^ 32 in
    let y0 = w1 + s1 + (w2 + s2) * 2 ^ 32 + (w3 + s3) * 2 ^ 64 + q * 2 ^ 96 in
    let y1 = w2 + s2 + (w3 + s3) * 2 ^ 32 + q * 2 ^ 64 in
    let y2 = w3 + s3 + q * 2 ^ 32 in
    let e0 : a ≡ f0 + 2 ^ 32 * y0 = omega arith in
    let e1 : a / 2 ^ 32 ≡ f1 + 2 ^ 32 * y1 = omega arith in
    let e2 : a / 2 ^ 32 / 2 ^ 32 ≡ f2 + 2 ^ 32 * y2 = omega (arith, e1) in
    let e3 : a / 2 ^ 32 / 2 ^ 32 / 2 ^ 32 ≡ f3 + 2 ^ 32 * q = omega (arith, e2) in
    to_le_bytes-parts 12 a ∙ λ i.
    to_le_bytes-low a f0 y0 e0 i
    ++ (to_le_bytes-parts 8 (a / 2 ^ 32) ∙ λ j.
          to_le_bytes-low (a / 2 ^ 32) f1 y1 e1 j
          ++ (to_le_bytes-parts 4 (a / 2 ^ 32 / 2 ^ 32) ∙ λ k.
                to_le_bytes-low (a / 2 ^ 32 / 2 ^ 32) f2 y2 e2 k
                ++ to_le_bytes-low (a / 2 ^ 32 / 2 ^ 32 / 2 ^ 32) f3 q e3 k)
              j)
        i

-- The sixteen bytes of the number and of the second half of the key, added.
pub finish_lem :
    (h : Limbs) (key : List ℕ)
    → IsBelow (2 ^ 26) h
    → length key ≡ 32
    → finish h key ≡ to_le_bytes 16 (val h + le_value (drop 16 key))
unfolding finish val shl32
finish_lem h key small size =
    let low_word : bit_or h.l0 (shl32 h.l1 26) ≡ h.l0 + h.l1 % 2 ^ 6 * 2 ^ 26 =
      ap (bit_or h.l0) (omega arith) ∙ bit_or-add 26 h.l0 (h.l1 % 2 ^ 6) small.b0 in
    let w0 = bit_or h.l0 (shl32 h.l1 26) in
    let w1 = join h.l1 6 h.l2 20 in
    let w2 = join h.l2 12 h.l3 14 in
    let w3 = join h.l3 18 h.l4 8 in
    let j1 = join_lem h.l1 6 h.l2 20 (h.l2 % 2 ^ 12) (omega (arith, small.b1)) (omega arith) in
    let j2 = join_lem h.l2 12 h.l3 14 (h.l3 % 2 ^ 18) (omega (arith, small.b2)) (omega arith) in
    let j3 = join_lem h.l3 18 h.l4 8 (h.l4 % 2 ^ 24) (omega (arith, small.b3)) (omega arith) in
    let later = drop 16 key in
    let words = le_value-words later (omega (arith, length-drop 16 key, size)) in
    let total : w0
          + w1 * 2 ^ 32
          + w2 * 2 ^ 64
          + w3 * 2 ^ 96
          + h.l4 / 2 ^ 24 * 2 ^ 128
          + (le32 (drop 16 key)
              + le32 (drop 20 key) * 2 ^ 32
              + le32 (drop 24 key) * 2 ^ 64
              + le32 (drop 28 key) * 2 ^ 96)
        ≡ val h + le_value later =
      omega (
        arith,
        low_word,
        j1,
        j2,
        j3,
        words,
        ap le32 (drop-drop 4 16 key),
        ap le32 (drop-drop 8 16 key),
        ap le32 (drop-drop 12 16 key),
      ) in
    sym (
      sum_bytes w0 w1 w2 w3 (le32 (drop 16 key)) (le32 (drop 20 key)) (le32 (drop 24 key))
        (le32 (drop 28 key)) (h.l4 / 2 ^ 24))
    ∙ ap (to_le_bytes 16) total
