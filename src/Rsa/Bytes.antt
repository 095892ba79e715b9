-- ===== src/Rsa/Bytes.antt =====
-- Bytes, the highest first, as the numbers of src/rsa.rs take and give them.
use Prim.Native.Nat.{bit_or}
use native.Mathlib.Nat.{pow-suc, pow-le-pow_right, mul-le-mul}
use veil_os.Base.Bits.{bit_or_halves}
use veil_os.Base.Powers.{pow_add}
use veil_os.Sha256.Hasher.{to_be_bytes}
use veil_os.ChaCha20.Blocks.{IsBytes, IsBytes-drop, IsBytes-take}
use veil_os.Rsa.Big.{Big, word, limbs_of, from_be, trim_leading_zeros, be_bytes, to_be}
use veil_os.Rsa.Value.{val, val-normalize, IsLimbs}
use veil_os.Rsa.Steps.{Denotes, Denotes-normalize}
use veil_os.Base.{
  ℕ, zero, suc, ◌+◌, ◌-◌, ◌*◌, ◌/◌, ◌%◌, ◌^◌, ◌≤◌, ◌<◌, ◌≡◌, refl, sym, ap, ◌∙◌, inl, inr, true,
  false, List, [], ◌∷◌, ◌++◌, arith, leb, ◌==◌, Bool-cases, length-take, length-drop,
  take-append-drop, leb→le, length, length-append, take, drop,
}

-- The number that bytes stand for.
unfoldable pub be_val : List ℕ → ℕ
be_val [] = 0
be_val (x ∷ xs) = x * 256 ^ length xs + be_val xs

pub be_val-append : (xs ys : List ℕ) → be_val (xs ++ ys) ≡ be_val xs * 256 ^ length ys + be_val ys
unfolding be_val
be_val-append [] ys = omega arith
be_val-append (x ∷ xs) ys =
    let places = ap (λ t. 256 ^ t) (length-append xs ys) ∙ pow_add 256 (length xs) (length ys) in
    omega (arith, be_val-append xs ys, ap (λ (t : ℕ). x * t) places)

pub be_val-lt : (xs : List ℕ) → IsBytes xs → be_val xs < 256 ^ length xs
unfolding be_val
be_val-lt [] s = omega arith
be_val-lt (x ∷ xs) s = omega (
  arith,
  pow-suc 256 (length xs),
  be_val-lt xs (λ i. s (suc i)),
  mul-le-mul {n₁ = x} {m₁ = 256 ^ length xs} {n₂ = 255} {m₂ = 256 ^ length xs} (omega (arith, s 0))
      (omega arith),
)

or_zero : (bound x : ℕ) → x ≤ bound → bit_or x 0 ≡ x
or_zero bound zero h = refl
or_zero zero (suc x) h = absurd (omega arith)
or_zero (suc bound) (suc x) h =
    omega (arith, bit_or_halves (suc x) 0, or_zero bound (suc x / 2) (omega arith))

-- Digits that stand apart, the higher ones first.
pub or_below : (k a c : ℕ) → a < 2 ^ k → bit_or (c * 2 ^ k) a ≡ c * 2 ^ k + a
or_below zero a c h =
    let none_left : a ≡ 0 = omega arith in
    rw none_left (omega (arith, or_zero (c * 2 ^ 0) (c * 2 ^ 0) (omega arith)))
or_below (suc k) a c h =
    let half = or_below k (a / 2) c (omega (arith, pow-suc 2 k)) in
    let twice : c * 2 ^ suc k ≡ c * 2 ^ k * 2 =
      omega (arith, ap (λ (t : ℕ). c * t) (pow-suc 2 k)) in
    let shifted : c * 2 ^ suc k / 2 ≡ c * 2 ^ k = omega (arith, twice) in
    omega (arith, bit_or_halves (c * 2 ^ suc k) a, twice, half, ap (λ w. bit_or w (a / 2)) shifted)

word_lem :
    (j v : ℕ) (bs : List ℕ)
    → IsBytes bs
    → v < 256 ^ j
    → j + length bs ≤ 4
    → (word v bs ≡ v * 256 ^ length bs + be_val bs) × (word v bs < 2 ^ 32)
unfolding word be_val
word_lem j v [] s h l = (
  omega arith,
  omega (arith, pow-le-pow_right {n = 256} (omega arith) {i = j} {j = 4} (omega arith)),
)
word_lem j v (b ∷ bs) s h l =
    let room = pow-le-pow_right {n = 256} (omega arith) {i = suc j} {j = 4} (omega arith) in
    let plain : v * 2 ^ 8 % 2 ^ 32 ≡ v * 2 ^ 8 = omega (arith, room, pow-suc 256 j) in
    let joined : bit_or (v * 2 ^ 8 % 2 ^ 32) b ≡ v * 256 + b =
      ap (λ t. bit_or t b) plain ∙ or_below 8 b v (s 0) in
    let (value, small) =
      word_lem (suc j) (v * 256 + b) bs (λ i. s (suc i)) (omega (arith, pow-suc 256 j, s 0))
        (omega arith) in
    rw joined ((omega (arith, value, ap (λ (t : ℕ). v * t) (pow-suc 256 (length bs))), small))

empty_val : (b : List ℕ) → (length b == 0) ≡ true → be_val b ≡ 0
unfolding be_val
empty_val [] done = refl
empty_val (x ∷ b) done = absurd (ground arith)

-- Four bytes make a limb; fewer are the last limb, with none before them.
scaled :
    (b : List ℕ)
    → be_val (take (length b - 4) b) * 256 ^ length (drop (length b - 4) b)
      ≡ be_val (take (length b - 4) b) * 2 ^ 32
unfolding be_val
scaled b = elim (Bool-cases (leb 4 (length b))) [
  | inl many ↦
      let four : length (drop (length b - 4) b) ≡ 4 =
        omega (arith, length-drop (length b - 4) b, leb→le 4 (length b) many) in
      ap (λ t. be_val (take (length b - 4) b) * 256 ^ t) four
  | inr few ↦
      let none_before : length b - 4 ≡ 0 = ground arith in
      let nothing : be_val (take (length b - 4) b) ≡ 0 = ap (λ t. be_val (take t b)) none_before in
      (λ i. nothing i * 256 ^ length (drop (length b - 4) b))
      ∙ omega (arith, ap (λ (t : ℕ). t * 2 ^ 32) nothing)
]

limbs_of_lem :
    (fuel : ℕ) (b : List ℕ)
    → IsBytes b
    → length b ≤ fuel
    → IsLimbs (limbs_of fuel b) × (val (limbs_of fuel b) ≡ be_val b)
unfolding limbs_of val IsLimbs be_val
limbs_of_lem zero [] s h = (tt, refl)
limbs_of_lem zero (x ∷ b) s h = absurd (omega arith)
limbs_of_lem (suc fuel) b s h = elim (Bool-cases (length b == 0)) [
  | inl done ↦ rw done (tt, sym (empty_val b done))
  | inr more ↦
      let some_left : 0 < length b = ground arith in
      let lo = length b - 4 in
      let last = drop lo b in
      let taken = length-take lo b in
      let dropped = length-drop lo b in
      let (value, small) =
        word_lem 0 0 last (IsBytes-drop lo b s) (omega arith) (omega (arith, dropped)) in
      let (low, high) =
        limbs_of_lem fuel (take lo b) (IsBytes-take lo b s) (omega (arith, taken)) in
      let parts = ap be_val (sym (take-append-drop lo b)) ∙ be_val-append (take lo b) last in
      rw more ((small, low), omega (arith, value, high, parts, scaled b))
]

length-limbs_of :
    (fuel : ℕ) (b : List ℕ) → 0 < length b → length b ≤ fuel → 0 < length (limbs_of fuel b)
unfolding limbs_of
length-limbs_of zero b h k = absurd (omega arith)
length-limbs_of (suc fuel) b h k =
    let some_left : (length b == 0) ≡ false = ground arith in rw some_left (omega arith)

pub from_be-Denotes : (b : List ℕ) → IsBytes b → 0 < length b → Denotes (from_be b) (be_val b)
unfolding from_be
from_be-Denotes b s h =
    let (small, value) = limbs_of_lem (length b) b s (omega arith) in
    Denotes-normalize (limbs_of (length b) b) (be_val b) small
      (length-limbs_of (length b) b h (omega arith)) value

pub val-from_be : (b : List ℕ) → IsBytes b → val (from_be b) ≡ be_val b
unfolding from_be
val-from_be b s =
    val-normalize (limbs_of (length b) b) ∙ (limbs_of_lem (length b) b s (omega arith)).1

pub some_bytes : (b : List ℕ) → 0 < be_val b → 0 < length b
unfolding be_val
some_bytes [] h = absurd (omega arith)
some_bytes (x ∷ b) h = omega arith

be_val-to_be_bytes : (w : ℕ) → w < 2 ^ 32 → be_val (to_be_bytes 4 w) ≡ w
unfolding be_val to_be_bytes
be_val-to_be_bytes w h = omega arith

pub four_bytes : (w : ℕ) → length (to_be_bytes 4 w) ≡ 4
unfolding to_be_bytes
four_bytes w = refl

be_val-be_bytes : (x : Big) → IsLimbs x → be_val (be_bytes x) ≡ val x
unfolding be_val be_bytes val IsLimbs
be_val-be_bytes [] s = refl
be_val-be_bytes (x ∷ xs) (s, ss) = omega (
  arith,
  be_val-append (be_bytes xs) (to_be_bytes 4 x),
  be_val-be_bytes xs ss,
  be_val-to_be_bytes x s,
  ap (λ (t : ℕ). be_val (be_bytes xs) * 256 ^ t) (four_bytes x),
)

pub be_val-trim : (b : List ℕ) → be_val (trim_leading_zeros b) ≡ be_val b
unfolding be_val trim_leading_zeros
be_val-trim [] = refl
be_val-trim (x ∷ []) = refl
be_val-trim (x ∷ y ∷ b) = elim (Bool-cases (x == 0)) [
  | inl nil ↦
      let none_left : x ≡ 0 = ground arith in
      rw (nil, none_left) (be_val-trim (y ∷ b) ∙ omega arith)
  | inr more ↦ rw more refl
]

-- No zero in front of another byte, and at least one byte.
unfoldable pub IsShortest : List ℕ → Type 0
IsShortest [] = ⊥
IsShortest (x ∷ []) = Unit
IsShortest (x ∷ y ∷ b) = 0 < x

pub trim-IsShortest : (b : List ℕ) → 0 < length b → IsShortest (trim_leading_zeros b)
unfolding trim_leading_zeros IsShortest
trim-IsShortest [] h = absurd (omega arith)
trim-IsShortest (x ∷ []) h = tt
trim-IsShortest (x ∷ y ∷ b) h = elim (Bool-cases (x == 0)) [
  | inl nil ↦ rw nil (trim-IsShortest (y ∷ b) (omega arith))
  | inr more ↦ rw more (ground arith)
]

length-be_bytes : (x : Big) → length (be_bytes x) ≡ 4 * length x
unfolding be_bytes
length-be_bytes [] = refl
length-be_bytes (x ∷ xs) =
    omega (arith, length-append (be_bytes xs) (to_be_bytes 4 x), length-be_bytes xs, four_bytes x)

-- What a number gives: its bytes, with no zero in front.
pub to_be-IsShortest : (x : Big) → 0 < length x → IsShortest (to_be x)
unfolding to_be
to_be-IsShortest x h = trim-IsShortest (be_bytes x) (omega (arith, length-be_bytes x))

pub be_val-to_be : (x : Big) → IsLimbs x → be_val (to_be x) ≡ val x
unfolding to_be
be_val-to_be x s = be_val-trim (be_bytes x) ∙ be_val-be_bytes x s
