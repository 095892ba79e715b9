-- ===== src/Base/Xor.antt =====
-- The exclusive union of binary digits.
use Prim.Native.Nat.{bit_xor, bit_xor-bitwise, bit_or, differ}
use veil_os.Base.Bits.{bitwise_step, bit_or_halves}
use veil_os.Base.{ℕ, zero, suc, ◌+◌, ◌*◌, ◌/◌, ◌%◌, ◌≤◌, max, ◌≡◌, refl, ap, arith}

differ-bits : (x y : ℕ) → x ≤ 1 → y ≤ 1 → differ x y ≡ (x + y) % 2
differ-bits zero y h k = omega arith
differ-bits (suc x) zero h k = omega arith
differ-bits (suc zero) (suc zero) h k = refl
differ-bits (suc (suc x)) (suc y) h k = absurd (omega arith)
differ-bits (suc zero) (suc (suc y)) h k = absurd (omega arith)

pub bit_xor_halves : (a b : ℕ) → bit_xor a b ≡ bit_xor (a / 2) (b / 2) * 2 + (a % 2 + b % 2) % 2
bit_xor_halves a b = omega (
  arith,
  bit_xor-bitwise a b,
  bit_xor-bitwise (a / 2) (b / 2),
  bitwise_step (λ b. b) differ a b (omega arith),
  differ-bits (a % 2) (b % 2) (omega arith) (omega arith),
)

bit_xor-within : (n a b : ℕ) → a ≤ n → b ≤ n → bit_xor (bit_xor a b) b ≡ a
bit_xor-within zero a b h k =
    let none_a : a ≡ 0 = omega arith in let none_b : b ≡ 0 = omega arith in rw (none_a, none_b) refl
bit_xor-within (suc n) a b h k =
    let half : bit_xor a b / 2 ≡ bit_xor (a / 2) (b / 2) = omega (arith, bit_xor_halves a b) in
    omega (
      arith,
      bit_xor_halves a b,
      bit_xor_halves (bit_xor a b) b,
      ap (λ w. bit_xor w (b / 2)) half,
      bit_xor-within n (a / 2) (b / 2) (omega arith) (omega arith),
    )

-- The second use of a mask takes the first away.
pub bit_xor_twice : (a b : ℕ) → bit_xor (bit_xor a b) b ≡ a
bit_xor_twice a b = bit_xor-within (max a b) a b (omega arith) (omega arith)

pub bit_xor_same : (a : ℕ) → bit_xor a a ≡ 0
bit_xor_same a = within a a (omega arith)
  where
    within : (n a : ℕ) → a ≤ n → bit_xor a a ≡ 0
    within zero a h = let none_a : a ≡ 0 = omega arith in rw none_a refl
    within (suc n) a h = omega (arith, bit_xor_halves a a, within n (a / 2) (omega arith))

pub bit_xor-zero : (a b : ℕ) → bit_xor a b ≡ 0 → a ≡ b
bit_xor-zero a b e = within (max a b) a b (omega arith) (omega arith) e
  where
    within : (n a b : ℕ) → a ≤ n → b ≤ n → bit_xor a b ≡ 0 → a ≡ b
    within zero a b h k e = omega arith
    within (suc n) a b h k e = omega (
      arith,
      bit_xor_halves a b,
      e,
      within n (a / 2) (b / 2) (omega arith) (omega arith) (omega (arith, bit_xor_halves a b, e)),
    )

pub bit_or-zero : (a b : ℕ) → bit_or a b ≡ 0 → (a ≡ 0) × (b ≡ 0)
bit_or-zero a b e = within (max a b) a b (omega arith) (omega arith) e
  where
    within : (n a b : ℕ) → a ≤ n → b ≤ n → bit_or a b ≡ 0 → (a ≡ 0) × (b ≡ 0)
    within zero a b h k e = (omega arith, omega arith)
    within (suc n) a b h k e =
        let (left, right) =
          within n (a / 2) (b / 2) (omega arith) (omega arith)
            (omega (arith, bit_or_halves a b, e)) in
        (omega (arith, bit_or_halves a b, e, left), omega (arith, bit_or_halves a b, e, right))
