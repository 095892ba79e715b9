-- ===== src/ChaCha20/Blocks.antt =====
-- The blocks of a message and the key in limbs (src/crypto/chacha20.rs).
use Prim.Native.Nat.{bit_and, bit_or}
use native.Mathlib.Nat.{pow-suc}
use veil_os.Base.Bits.{bit_or-add}
use veil_os.ChaCha20.Words.{shl32, le32}
use veil_os.ChaCha20.Poly1305.{Limbs, join, pad_block, hibit, add_block}
use veil_os.ChaCha20.Limbs.{val, IsReduced, IsBelow, add32_lem, low_limb}
use veil_os.Base.{
  true, ◌&&◌, ltb, true, Bool, ℕ, zero, suc, ◌+◌, ◌-◌, ◌*◌, ◌/◌, ◌%◌, ◌^◌, ◌≤◌, ◌<◌, ◌≡◌, refl, sym,
  ap, ◌∙◌, inl, inr, List, [], ◌∷◌, ◌++◌, arith, ◌==◌, Bool-cases, replicate, length-drop,
  length-replicate, ==_iff, length, length-append, get_or, take, drop,
}

-- The number that bytes stand for, the lowest first.
unfoldable pub le_value : List ℕ → ℕ
le_value [] = 0
le_value (x ∷ xs) = x + 256 * le_value xs

abbrev pub IsBytes : List ℕ → Type 0
IsBytes xs = (i : ℕ) → get_or xs i 0 < 256

-- A test of a whole list.
abbrev pub all_small : List ℕ → Bool
all_small [] = true
all_small (x ∷ xs) = ltb x 256 && all_small xs

pub every_byte : (xs : List ℕ) → (test : all_small xs ≡ true) → IsBytes xs
every_byte [] test i = omega arith
every_byte (x ∷ xs) test zero = ground arith
every_byte (x ∷ xs) test (suc i) = every_byte xs (ground arith) i

pub IsBytes-cons : (x : ℕ) (xs : List ℕ) → x < 256 → IsBytes xs → IsBytes (x ∷ xs)
IsBytes-cons x xs h s zero = h
IsBytes-cons x xs h s (suc i) = s i

pub IsBytes-drop : (n : ℕ) (xs : List ℕ) → IsBytes xs → IsBytes (drop n xs)
IsBytes-drop zero xs s = s
IsBytes-drop (suc n) [] s = s
IsBytes-drop (suc n) (x ∷ xs) s = IsBytes-drop n xs (λ i. s (suc i))

pub IsBytes-take : (n : ℕ) (xs : List ℕ) → IsBytes xs → IsBytes (take n xs)
IsBytes-take zero xs s = λ i. omega arith
IsBytes-take (suc n) [] s = s
IsBytes-take (suc n) (x ∷ xs) s = IsBytes-cons _ _ (s 0) (IsBytes-take n xs (λ i. s (suc i)))

pub IsBytes-append : (xs ys : List ℕ) → IsBytes xs → IsBytes ys → IsBytes (xs ++ ys)
IsBytes-append [] ys s t = t
IsBytes-append (x ∷ xs) ys s t = IsBytes-cons _ _ (s 0) (IsBytes-append xs ys (λ i. s (suc i)) t)

pub IsBytes-zeros : (n : ℕ) → IsBytes (replicate n 0)
IsBytes-zeros zero = λ i. omega arith
IsBytes-zeros (suc n) = IsBytes-cons _ _ (omega arith) (IsBytes-zeros n)

le_value-zeros : (n : ℕ) → le_value (replicate n 0) ≡ 0
unfolding le_value
le_value-zeros zero = refl
le_value-zeros (suc n) = omega (arith, le_value-zeros n)

le_value-append :
    (xs ys : List ℕ) → le_value (xs ++ ys) ≡ le_value xs + 256 ^ length xs * le_value ys
unfolding le_value
le_value-append [] ys = omega arith
le_value-append (x ∷ xs) ys =
    omega (arith, le_value-append xs ys, ap (λ (t : ℕ). t * le_value ys) (pow-suc 256 (length xs)))

pub le32-lt : (xs : List ℕ) → IsBytes xs → le32 xs < 2 ^ 32
unfolding le32
le32-lt xs s = omega (arith, s 0, s 1, s 2, s 3)

le_value-le32 : (xs : List ℕ) → le_value xs ≡ le32 xs + 2 ^ 32 * le_value (drop 4 xs)
unfolding le_value le32
le_value-le32 [] = omega arith
le_value-le32 (a ∷ []) = omega arith
le_value-le32 (a ∷ b ∷ []) = omega arith
le_value-le32 (a ∷ b ∷ c ∷ []) = omega arith
le_value-le32 (a ∷ b ∷ c ∷ d ∷ xs) = omega arith

drop-nil : (n : ℕ) → ◌≡◌ {A = List ℕ} (drop n []) []
drop-nil zero = refl
drop-nil (suc n) = refl

pub drop-drop : (m n : ℕ) (xs : List ℕ) → drop m (drop n xs) ≡ drop (n + m) xs
drop-drop m zero xs = ap (λ k. drop k xs) (omega arith)
drop-drop m (suc n) [] = drop-nil m ∙ sym (drop-nil (suc n + m))
drop-drop m (suc n) (x ∷ xs) =
    let next : suc (n + m) ≡ suc n + m = omega arith in
    drop-drop m n xs ∙ ap (λ k. drop k (x ∷ xs)) next

le_value-nil : (xs : List ℕ) → length xs ≡ 0 → le_value xs ≡ 0
unfolding le_value
le_value-nil [] h = refl
le_value-nil (x ∷ xs) h = absurd (omega arith)

-- Sixteen bytes as four words.
pub le_value-words :
    (xs : List ℕ)
    → length xs ≡ 16
    → le_value xs
      ≡ le32 xs + le32 (drop 4 xs) * 2 ^ 32 + le32 (drop 8 xs) * 2 ^ 64 + le32 (drop 12 xs) * 2 ^ 96
le_value-words xs h = omega (
  arith,
  le_value-le32 xs,
  le_value-le32 (drop 4 xs),
  ap le_value (drop-drop 4 4 xs),
  le_value-le32 (drop 8 xs),
  ap le_value (drop-drop 4 8 xs),
  le_value-le32 (drop 12 xs),
  ap le_value (drop-drop 4 12 xs),
  le_value-nil (drop 16 xs) (omega (arith, length-drop 16 xs, h)),
)

pub join_lem :
    (lo n hi m c : ℕ)
    → lo / 2 ^ n < 2 ^ m
    → hi * 2 ^ m % 2 ^ 32 ≡ c * 2 ^ m
    → join lo n hi m ≡ lo / 2 ^ n + c * 2 ^ m
unfolding join shl32
join_lem lo n hi m c h e = ap (bit_or (lo / 2 ^ n)) e ∙ bit_or-add m (lo / 2 ^ n) c h

-- The words in limbs of 26 bits.
word_limbs :
    (b0 b1 b2 b3 : ℕ)
    → b0 < 2 ^ 32
    → b1 < 2 ^ 32
    → b2 < 2 ^ 32
    → b3 < 2 ^ 32
    → bit_and b0 0x3ffffff
        + bit_and (join b0 26 b1 6) 0x3ffffff * 2 ^ 26
        + bit_and (join b1 20 b2 12) 0x3ffffff * 2 ^ 52
        + bit_and (join b2 14 b3 18) 0x3ffffff * 2 ^ 78
        + b3 / 2 ^ 8 * 2 ^ 104
      ≡ b0 + b1 * 2 ^ 32 + b2 * 2 ^ 64 + b3 * 2 ^ 96
word_limbs b0 b1 b2 b3 s0 s1 s2 s3 = omega (
  arith,
  low_limb b0,
  low_limb (join b0 26 b1 6),
  low_limb (join b1 20 b2 12),
  low_limb (join b2 14 b3 18),
  join_lem b0 26 b1 6 (b1 % 2 ^ 26) (omega arith) (omega arith),
  join_lem b1 20 b2 12 (b2 % 2 ^ 20) (omega arith) (omega arith),
  join_lem b2 14 b3 18 (b3 % 2 ^ 14) (omega arith) (omega arith),
)

pub IsBytes-pad_block : (chunk : List ℕ) → IsBytes chunk → IsBytes (pad_block chunk)
unfolding pad_block
IsBytes-pad_block chunk s = elim (Bool-cases (length chunk == 16)) [
  | inl full ↦ rw full s
  | inr short ↦ rw short (
      IsBytes-append chunk _ s (IsBytes-cons _ _ (omega arith) (IsBytes-zeros (15 - length chunk))))
]

-- A block with its high bit is the bytes and a byte of 1 behind them.
pad_block_lem :
    (chunk : List ℕ)
    → length chunk ≤ 16
    → (length (pad_block chunk) ≡ 16)
      × (le_value (pad_block chunk) + hibit chunk * 2 ^ 104 ≡ le_value (chunk ++ (1 ∷ [])))
      × ((c : ℕ) × (hibit chunk ≡ c * 2 ^ 24) × (c ≤ 1))
unfolding pad_block hibit
pad_block_lem chunk h = elim (Bool-cases (length chunk == 16)) [
  | inl full ↦
      let n : length chunk ≡ 16 = (==_iff (length chunk) 16).0 full in
      let one : le_value (1 ∷ []) ≡ 1 = unfold le_value in refl in
      rw full (
        n,
        omega (
          arith,
          le_value-append chunk (1 ∷ []),
          one,
          ap (λ (k : ℕ). 256 ^ k * le_value (1 ∷ [])) n,
        ),
        (1, omega arith, omega arith),
      )
  | inr short ↦
      let zeros : List ℕ = replicate (15 - length chunk) 0 in
      let one : le_value (1 ∷ []) ≡ 1 = unfold le_value in refl in
      let padded : le_value (1 ∷ zeros) ≡ 1 =
        unfold le_value in omega (arith, le_value-zeros (15 - length chunk)) in
      let less : length chunk < 16 = ground arith in
      rw short (
        omega (
          arith,
          length-append chunk (1 ∷ zeros),
          length-replicate {A = ℕ} (15 - length chunk) 0,
          less,
        ),
        omega (
          arith,
          le_value-append chunk (1 ∷ []),
          le_value-append chunk (1 ∷ zeros),
          ap (λ (t : ℕ). 256 ^ length chunk * t) one,
          ap (λ (t : ℕ). 256 ^ length chunk * t) padded,
        ),
        (0, omega arith, omega arith),
      )
]

pub add_block_lem :
    (h : Limbs) (chunk : List ℕ)
    → IsReduced h
    → IsBytes chunk
    → length chunk ≤ 16
    → (val (add_block h chunk) ≡ val h + le_value (chunk ++ (1 ∷ [])))
      × IsBelow (2 ^ 27 + 2 ^ 6) (add_block h chunk)
unfolding add_block val
add_block_lem h chunk small s few =
    let (sixteen, whole, (c, bit, single)) = pad_block_lem chunk few in
    let block = pad_block chunk in
    let bytes = IsBytes-pad_block chunk s in
    let s0 = le32-lt block bytes in
    let s1 = le32-lt (drop 4 block) (IsBytes-drop 4 block bytes) in
    let s2 = le32-lt (drop 8 block) (IsBytes-drop 8 block bytes) in
    let s3 = le32-lt (drop 12 block) (IsBytes-drop 12 block bytes) in
    let b0 = le32 block in
    let b1 = le32 (drop 4 block) in
    let b2 = le32 (drop 8 block) in
    let b3 = le32 (drop 12 block) in
    let top : bit_or (b3 / 2 ^ 8) (hibit chunk) ≡ b3 / 2 ^ 8 + c * 2 ^ 24 =
      ap (bit_or (b3 / 2 ^ 8)) bit ∙ bit_or-add 24 (b3 / 2 ^ 8) c (omega (arith, s3)) in
    let m0 = low_limb b0 in
    let m1 = low_limb (join b0 26 b1 6) in
    let m2 = low_limb (join b1 20 b2 12) in
    let m3 = low_limb (join b2 14 b3 18) in
    let a0 = add32_lem h.l0 (bit_and b0 0x3ffffff) (omega (arith, m0, small.l0_small)) in
    let a1 =
      add32_lem h.l1 (bit_and (join b0 26 b1 6) 0x3ffffff) (omega (arith, m1, small.l1_small)) in
    let a2 =
      add32_lem h.l2 (bit_and (join b1 20 b2 12) 0x3ffffff) (omega (arith, m2, small.l2_small)) in
    let a3 =
      add32_lem h.l3 (bit_and (join b2 14 b3 18) 0x3ffffff) (omega (arith, m3, small.l3_small)) in
    let a4 =
      add32_lem h.l4 (bit_or (b3 / 2 ^ 8) (hibit chunk))
        (omega (arith, top, s3, single, small.l4_small)) in
    (
      omega (
        arith,
        a0,
        a1,
        a2,
        a3,
        a4,
        top,
        bit,
        whole,
        word_limbs b0 b1 b2 b3 s0 s1 s2 s3,
        le_value-words block sixteen,
      ),
      record {
        b0 = omega (arith, a0, m0, small.l0_small);
        b1 = omega (arith, a1, m1, small.l1_small);
        b2 = omega (arith, a2, m2, small.l2_small);
        b3 = omega (arith, a3, m3, small.l3_small);
        b4 = omega (arith, a4, top, s3, single, small.l4_small);
      },
    )
