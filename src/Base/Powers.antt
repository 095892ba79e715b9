-- ===== src/Base/Powers.antt =====
-- Powers and products, and what is left of them by a modulus.
use native.Mathlib.Nat.{pow-zero, pow-suc, mod-add-div', add-mul-mod_self_right}
use veil_os.Base.{ℕ, zero, suc, ◌+◌, ◌*◌, ◌/◌, ◌%◌, ◌^◌, ◌≡◌, refl, sym, ap, ◌∙◌, arith}

pub pow_add : (b i j : ℕ) → b ^ (i + j) ≡ b ^ i * b ^ j
pow_add b i zero =
    let same : i + 0 ≡ i = omega arith in
    ap (λ t. b ^ t) same ∙ omega (arith, ap (λ (t : ℕ). b ^ i * t) (pow-zero b))
pow_add b i (suc j) =
    let next : i + suc j ≡ suc (i + j) = omega arith in
    ap (λ t. b ^ t) next
    ∙ pow-suc b (i + j)
    ∙ ap (λ (t : ℕ). t * b) (pow_add b i j)
    ∙ omega (arith, ap (λ (t : ℕ). b ^ i * t) (pow-suc b j))

pub one_pow : (j : ℕ) → 1 ^ j ≡ 1
one_pow zero = refl
one_pow (suc j) = omega (arith, pow-suc 1 j, one_pow j)

pub mul_pow : (a b j : ℕ) → (a * b) ^ j ≡ a ^ j * b ^ j
mul_pow a b zero =
    omega (arith, pow-zero (a * b), ap (λ (t : ℕ). t * b ^ 0) (pow-zero a), pow-zero b)
mul_pow a b (suc j) =
    pow-suc (a * b) j
    ∙ ap (λ (t : ℕ). t * (a * b)) (mul_pow a b j)
    ∙ omega (
      arith,
      ap (λ (t : ℕ). t * b ^ suc j) (pow-suc a j),
      ap (λ (t : ℕ). a ^ j * a * t) (pow-suc b j),
    )

pub pow_pow : (b i j : ℕ) → b ^ (i * j) ≡ (b ^ i) ^ j
pow_pow b i zero =
    let none_left : i * 0 ≡ 0 = omega arith in
    ap (λ t. b ^ t) none_left ∙ pow-zero b ∙ sym (pow-zero (b ^ i))
pow_pow b i (suc j) =
    let next : i * suc j ≡ i * j + i = omega arith in
    ap (λ t. b ^ t) next
    ∙ pow_add b (i * j) i
    ∙ ap (λ (t : ℕ). t * b ^ i) (pow_pow b i j)
    ∙ sym (pow-suc (b ^ i) j)

spread : (r q s p m : ℕ) → (r + q * m) * (s + p * m) ≡ r * s + (q * (s + p * m) + r * p) * m
spread r q s p m = omega arith

reduced : (m a c : ℕ) → a * c % m ≡ a % m * (c % m) % m
reduced m a c =
    (λ i. sym (mod-add-div' a m) i * sym (mod-add-div' c m) i % m)
    ∙ ap (λ t. t % m) (spread (a % m) (a / m) (c % m) (c / m) m)
    ∙ add-mul-mod_self_right (a % m * (c % m)) (a / m * (c % m + c / m * m) + a % m * (c / m)) m

-- Two numbers that leave the same leave the same as factors.
pub mul_mod : (m a b c d : ℕ) → a % m ≡ b % m → c % m ≡ d % m → a * c % m ≡ b * d % m
mul_mod m a b c d e f = reduced m a c ∙ (λ i. e i * f i % m) ∙ sym (reduced m b d)

pub pow_mod : (m a b j : ℕ) → a % m ≡ b % m → a ^ j % m ≡ b ^ j % m
pow_mod m a b zero e = ap (λ t. t % m) (pow-zero a ∙ sym (pow-zero b))
pow_mod m a b (suc j) e =
    ap (λ t. t % m) (pow-suc a j)
    ∙ mul_mod m (a ^ j) (b ^ j) a b (pow_mod m a b j e) e
    ∙ ap (λ t. t % m) (sym (pow-suc b j))
