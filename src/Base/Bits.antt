-- ===== src/Base/Bits.antt =====
-- The binary digits of a word, and what the bit operations do to them.
use Prim.Native.Nat.{bit_and, bit_or, digits, bitwise, bit_and-bitwise, bit_or-bitwise}
use native.Mathlib.Nat.{
  mod-eq_of_lt, mod-lt, mod-add-div', one-le-pow, add-mul-mod_self_right, pow-suc,
}
use veil_os.Base.{
  sym, ap, ◌∙◌, ℕ, zero, suc, ◌+◌, ◌-◌, ◌*◌, ◌/◌, ◌%◌, ◌^◌, ◌≤◌, ◌<◌, min, max, ◌≡◌, refl, arith,
  ◌==◌, if◌then◌else◌,
}

-- The digit at position `i`, lowest first: (w >> i) & 1.
unfoldable pub digit : ℕ → ℕ → ℕ
digit w zero = w % 2
digit w (suc i) = digit (w / 2) i

-- Any two operations on digits, with `z` for what is left when the first number runs out.
module _ (z : ℕ → ℕ) (f : ℕ → ℕ → ℕ) where
  -- Digits to spare change nothing.
  digits-surplus : (bound n a b : ℕ) → a ≤ bound → a ≤ n → digits z f n a b ≡ digits z f a a b
  digits-surplus bound zero zero b p q = refl
  digits-surplus bound (suc n) zero b p q = refl
  digits-surplus bound zero (suc a) b p q = absurd (omega arith)
  digits-surplus zero (suc n) (suc a) b p q = absurd (omega arith)
  digits-surplus (suc bound) (suc n) (suc a) b p q = omega (
    arith,
    digits-surplus bound n (suc a / 2) (b / 2) (omega arith) (omega arith),
    digits-surplus bound a (suc a / 2) (b / 2) (omega arith) (omega arith),
  )

  pub bitwise_step :
      (a b : ℕ)
      → z b ≡ z (b / 2) * 2 + f 0 (b % 2)
      → bitwise z f a b ≡ bitwise z f (a / 2) (b / 2) * 2 + f (a % 2) (b % 2)
  bitwise_step zero b e = e
  bitwise_step (suc a) b e =
      omega (arith, digits-surplus a a (suc a / 2) (b / 2) (omega arith) (omega arith))

pub bit_and_halves : (a b : ℕ) → bit_and a b ≡ bit_and (a / 2) (b / 2) * 2 + min (a % 2) (b % 2)
bit_and_halves a b = omega (
  arith,
  bit_and-bitwise a b,
  bit_and-bitwise (a / 2) (b / 2),
  bitwise_step (λ b. zero) min a b (omega arith),
)

pub bit_or_halves : (a b : ℕ) → bit_or a b ≡ bit_or (a / 2) (b / 2) * 2 + max (a % 2) (b % 2)
bit_or_halves a b = omega (
  arith,
  bit_or-bitwise a b,
  bit_or-bitwise (a / 2) (b / 2),
  bitwise_step (λ b. b) max a b (omega arith),
)

pub digit-le-one : (w i : ℕ) → digit w i ≤ 1
unfolding digit
digit-le-one w zero = omega arith
digit-le-one w (suc i) = digit-le-one (w / 2) i

pub digit-bit_and : (a b i : ℕ) → digit (bit_and a b) i ≡ min (digit a i) (digit b i)
unfolding digit
digit-bit_and a b zero = omega (arith, bit_and_halves a b)
digit-bit_and a b (suc i) =
    let half : bit_and a b / 2 ≡ bit_and (a / 2) (b / 2) = omega (arith, bit_and_halves a b) in
    rw half (digit-bit_and (a / 2) (b / 2) i)

pub digit-bit_or : (a b i : ℕ) → digit (bit_or a b) i ≡ max (digit a i) (digit b i)
unfolding digit
digit-bit_or a b zero = omega (arith, bit_or_halves a b)
digit-bit_or a b (suc i) =
    let half : bit_or a b / 2 ≡ bit_or (a / 2) (b / 2) = omega (arith, bit_or_halves a b) in
    rw half (digit-bit_or (a / 2) (b / 2) i)

digit-zero : (i : ℕ) → digit 0 i ≡ 0
unfolding digit
digit-zero zero = refl
digit-zero (suc i) = digit-zero i

pub digit-power : (k i : ℕ) → digit (2 ^ k) i ≡ (if k == i then 1 else 0)
unfolding digit
digit-power zero zero = refl
digit-power zero (suc i) = ground (arith, digit-zero i)
digit-power (suc k) zero = ground (arith, pow-suc 2 k)
digit-power (suc k) (suc i) =
    let half : 2 ^ suc k / 2 ≡ 2 ^ k = omega (arith, pow-suc 2 k) in
    rw half (ground (arith, digit-power k i))

pub digit-complement : (n w i : ℕ) → w < 2 ^ n → i < n → digit (2 ^ n - 1 - w) i ≡ 1 - digit w i
unfolding digit
digit-complement zero w i h k = absurd (omega arith)
digit-complement (suc n) w zero h k = omega (arith, pow-suc 2 n)
digit-complement (suc n) w (suc i) h k =
    let half : (2 ^ suc n - 1 - w) / 2 ≡ 2 ^ n - 1 - w / 2 = omega (arith, pow-suc 2 n) in
    rw half (digit-complement n (w / 2) i (omega (arith, pow-suc 2 n)) (omega arith))

pub bit_and-zero : (a : ℕ) → bit_and a 0 ≡ 0
bit_and-zero a = within a a (omega arith)
  where
    within : (bound x : ℕ) → x ≤ bound → bit_and x 0 ≡ 0
    within bound zero h = refl
    within zero (suc x) h = absurd (omega arith)
    within (suc bound) (suc x) h =
        let half = within bound (suc x / 2) (omega arith) in
        omega (arith, bit_and_halves (suc x) 0, half)

-- The mask of one bit leaves its digit in place.
pub bit_and-power : (w k : ℕ) → bit_and w (2 ^ k) ≡ digit w k * 2 ^ k
unfolding digit
bit_and-power w zero = omega (arith, bit_and_halves w 1, bit_and-zero (w / 2))
bit_and-power w (suc k) =
    let half : 2 ^ suc k / 2 ≡ 2 ^ k = omega (arith, pow-suc 2 k) in
    let ih = bit_and-power (w / 2) k in
    grind (arith, bit_and_halves w (2 ^ suc k), ih, half, pow-suc 2 k)

pub bit_or-lt : (n a b : ℕ) → a < 2 ^ n → b < 2 ^ n → bit_or a b < 2 ^ n
bit_or-lt zero a b p q =
    let none_a : a ≡ 0 = omega arith in
    let none_b : b ≡ 0 = omega arith in rw (none_a, none_b) (omega arith)
bit_or-lt (suc n) a b p q =
    let half =
      bit_or-lt n (a / 2) (b / 2) (omega (arith, pow-suc 2 n)) (omega (arith, pow-suc 2 n)) in
    omega (arith, bit_or_halves a b, half, pow-suc 2 n)

-- Digits that stand apart: the union is the sum.
pub bit_or-add : (k a c : ℕ) → a < 2 ^ k → bit_or a (c * 2 ^ k) ≡ a + c * 2 ^ k
bit_or-add zero a c h =
    let none : a ≡ 0 = omega arith in rw none (omega (arith, bit_or-bitwise 0 (c * 1)))
bit_or-add (suc k) a c h =
    let half = bit_or-add k (a / 2) c (omega (arith, pow-suc 2 k)) in
    let twice : c * 2 ^ suc k ≡ c * 2 ^ k * 2 =
      omega (arith, ap (λ (t : ℕ). c * t) (pow-suc 2 k)) in
    let shifted : c * 2 ^ suc k / 2 ≡ c * 2 ^ k = omega (arith, twice) in
    omega (arith, bit_or_halves a (c * 2 ^ suc k), twice, half, ap (λ w. bit_or (a / 2) w) shifted)

pub mod_of : (q r m : ℕ) → r < m → (r + q * m) % m ≡ r
mod_of q r m h = add-mul-mod_self_right r q m ∙ mod-eq_of_lt h

mod_double : (m a : ℕ) → 0 < m → a % (m * 2) ≡ a / 2 % m * 2 + a % 2
mod_double m a h =
    let q = a / 2 / m in
    let r = a / 2 % m in
    let within : r < m = mod-lt (a / 2) h in
    let split : r + q * m ≡ a / 2 = mod-add-div' (a / 2) m in
    let whole : (r * 2 + a % 2) + q * (m * 2) ≡ a = omega (arith, split) in
    ap (λ w. w % (m * 2)) (sym whole) ∙ mod_of q (r * 2 + a % 2) (m * 2) (omega (arith, within))

-- A mask of k ones.
pub bit_and-ones : (k a : ℕ) → bit_and a (2 ^ k - 1) ≡ a % 2 ^ k
bit_and-ones zero a = omega (arith, bit_and-zero a)
bit_and-ones (suc k) a =
    let ih = bit_and-ones k (a / 2) in
    let ones : (2 ^ suc k - 1) / 2 ≡ 2 ^ k - 1 =
      omega (arith, pow-suc 2 k, one-le-pow k 2 (omega arith)) in
    bit_and_halves a (2 ^ suc k - 1)
    ∙ ap (λ w. bit_and (a / 2) w * 2 + min (a % 2) ((2 ^ suc k - 1) % 2)) ones
    ∙ omega (
      arith,
      ih,
      mod_double (2 ^ k) a (one-le-pow k 2 (omega arith)),
      ap (λ t. a % t) (pow-suc 2 k),
      pow-suc 2 k,
      one-le-pow k 2 (omega arith),
    )

pub mul_mono : (a b m : ℕ) → a ≤ b → a * m ≤ b * m
mul_mono a b m h = grind arith
