-- ===== src/Base/Mask.antt =====
-- Masks that keep a run of digits and the lowest ones.
use Prim.Native.Nat.{bit_and}
use native.Mathlib.Nat.{one-le-pow, pow-suc, pow-le-pow_right, div-div-eq-div-mul}
use veil_os.Base.Bits.{bit_and_halves, bit_and-zero, bit_and-ones}
use veil_os.Base.{
  ℕ, zero, suc, ◌+◌, ◌-◌, ◌*◌, ◌/◌, ◌%◌, ◌^◌, ◌≤◌, ◌<◌, min, ◌≡◌, sym, ap, ◌∙◌, arith,
}

-- The digits of a mask above the place `k`, and those below.
pub bit_and-parts :
    (k a m c : ℕ)
    → c < 2 ^ k
    → bit_and a (m * 2 ^ k + c) ≡ bit_and (a / 2 ^ k) m * 2 ^ k + bit_and a c
bit_and-parts zero a m c h =
    let low : c ≡ 0 = omega arith in
    let whole : a / 2 ^ 0 ≡ a = omega arith in
    let one : m * 2 ^ 0 + 0 ≡ m = omega arith in rw (low, whole, one, bit_and-zero a) (omega arith)
bit_and-parts (suc k) a m c h =
    let double : 2 ^ suc k ≡ 2 ^ k * 2 = pow-suc 2 k in
    let mask : m * 2 ^ suc k ≡ m * 2 ^ k * 2 = omega (arith, ap (λ (t : ℕ). m * t) double) in
    let half : (m * 2 ^ suc k + c) / 2 ≡ m * 2 ^ k + c / 2 = omega (arith, mask) in
    let ih = bit_and-parts k (a / 2) m (c / 2) (omega (arith, h, double)) in
    let deep : a / 2 / 2 ^ k ≡ a / 2 ^ suc k =
      div-div-eq-div-mul a 2 (2 ^ k) ∙ ap (λ t. a / t) (omega (arith, double)) in
    bit_and_halves a (m * 2 ^ suc k + c)
    ∙ ap (λ w. bit_and (a / 2) w * 2 + min (a % 2) ((m * 2 ^ suc k + c) % 2)) half
    ∙ rw (sym deep) (
        omega (
          arith,
          ih,
          bit_and_halves a c,
          mask,
          ap (λ (t : ℕ). bit_and (a / 2 / 2 ^ k) m * t) double,
        ))

pub bit_and-mask :
    (k j w a : ℕ)
    → w ≤ k
    → bit_and a ((2 ^ j - 1) * 2 ^ k + (2 ^ w - 1)) ≡ a / 2 ^ k % 2 ^ j * 2 ^ k + a % 2 ^ w
bit_and-mask k j w a h =
    let grown : 2 ^ w ≤ 2 ^ k = pow-le-pow_right (omega arith) h in
    bit_and-parts k a (2 ^ j - 1) (2 ^ w - 1) (omega (arith, grown, one-le-pow w 2 (omega arith)))
    ∙ λ i. bit_and-ones j (a / 2 ^ k) i * 2 ^ k + bit_and-ones w a i
