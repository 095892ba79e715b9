-- ===== src/Rsa/Power.antt =====
-- The modular power of src/rsa.rs: each bit of the exponent squares the base, and a bit of 1
-- multiplies the result.
use native.Mathlib.Nat.{
  pow-suc, mod-mod, mod-eq_of_lt, mod-lt, pow-zero, mul_assoc, two-pow-succ, one-mul,
}
use veil_os.Base.Powers.{pow_add, pow_pow, mul_pow, mul_mod, pow_mod}
use veil_os.ChaCha20.Blocks.{IsBytes}
use veil_os.Rsa.Big.{Big, from_be, one, is_zero, to_be}
use veil_os.Rsa.Value.{val, IsLimbs, IsNormal, HasTop, is_zero_iff}
use veil_os.Rsa.Steps.{Denotes, IsNormal-length}
use veil_os.Rsa.Remainder.{rem-Denotes, mulmod-Denotes}
use veil_os.Rsa.Bytes.{
  be_val, from_be-Denotes, val-from_be, some_bytes, IsShortest, to_be-IsShortest, be_val-to_be,
}
use veil_os.Rsa.Octets.{IsBytes-to_be}
use veil_os.Rsa.Verify.{multiply_if, byte_loop, bytes_loop, modexp}
use veil_os.Base.{◌>>=◌}
use veil_os.Base.{
  ℕ, zero, suc, ◌+◌, ◌*◌, ◌/◌, ◌%◌, ◌^◌, ◌<◌, ◌≡◌, refl, sym, ap, ◌∙◌, inl, inr, true, false, List,
  [], ◌∷◌, some, arith, ltb, ◌==◌, Bool-cases, ltb→lt, length,
}

-- A result below the modulus and a power of the base, and what they leave.
record Reaches (k : ℕ) (state : Big × Big) (n b : ℕ) : Type 0 where
  result : ℕ
  power : ℕ
  result_is : Denotes state.0 result
  power_is : Denotes state.1 power
  below : 1 < k → result < k
  result_left : result % k ≡ n % k
  power_left : power % k ≡ b % k

-- What two ways to write the numbers leave.
leaves :
    {k n b n' b' : ℕ} (state : Big × Big)
    → n % k ≡ n' % k
    → b % k ≡ b' % k
    → Reaches k state n b
    → Reaches k state n' b'
leaves state e f r = record {
  result = r.result;
  power = r.power;
  result_is = r.result_is;
  power_is = r.power_is;
  below = r.below;
  result_left = r.result_left ∙ e;
  power_left = r.power_left ∙ f;
}

pow_one : (b : ℕ) → b ^ 1 ≡ b
pow_one b = omega (arith, pow-suc b 0, ap (λ (t : ℕ). t * b) (pow-zero b))

-- Before any bit.
untouched :
    (k : ℕ) (r b : Big) (n p e : ℕ)
    → e ≡ 0
    → Denotes r n
    → Denotes b p
    → (1 < k → n < k)
    → Reaches k (r, b) (n * p ^ e) (p ^ 1)
untouched k r b n p e none_left d f l =
    let same : n ≡ n * p ^ e =
      omega (arith, ap (λ (t : ℕ). n * t) (pow-zero p)) ∙ ap (λ t. n * p ^ t) (sym none_left) in
    record {
      result = n;
      power = p;
      result_is = d;
      power_is = f;
      below = l;
      result_left = ap (λ t. t % k) same;
      power_left = ap (λ t. t % k) (sym (pow_one p));
    }

-- The exponents of one bit and of those above it.
split_power : (b e : ℕ) → b ^ e ≡ b ^ (e % 2) * (b * b) ^ (e / 2)
split_power b e =
    let parts : e ≡ e % 2 + (e / 2 + e / 2) = omega arith in
    ap (λ t. b ^ t) parts
    ∙ pow_add b (e % 2) (e / 2 + e / 2)
    ∙ ap (λ (t : ℕ). b ^ (e % 2) * t) (pow_add b (e / 2) (e / 2) ∙ sym (mul_pow b b (e / 2)))

-- One bit: what the result leaves after the others.
result_step :
    (k v n p e : ℕ) → v % k ≡ n * p ^ (e % 2) % k → v * (p * p % k) ^ (e / 2) % k ≡ n * p ^ e % k
result_step k v n p e left =
    mul_mod k v (n * p ^ (e % 2)) ((p * p % k) ^ (e / 2)) ((p * p) ^ (e / 2)) left
      (pow_mod k (p * p % k) (p * p) (e / 2) (mod-mod (p * p) k))
    ∙ ap (λ t. t % k)
        (mul_assoc n (p ^ (e % 2)) ((p * p) ^ (e / 2))
          ∙ ap (λ (t : ℕ). n * t) (sym (split_power p e)))

square_step : (k p rounds : ℕ) → (p * p % k) ^ (2 ^ rounds) % k ≡ p ^ (2 ^ suc rounds) % k
square_step k p rounds =
    pow_mod k (p * p % k) (p * p) (2 ^ rounds) (mod-mod (p * p) k)
    ∙ ap (λ t. t % k)
        (mul_pow p p (2 ^ rounds)
          ∙ sym (pow_add p (2 ^ rounds) (2 ^ rounds))
          ∙ ap (λ t. p ^ t) (sym (two-pow-succ rounds)))

byte_step :
    (k n p low scale x result power : ℕ)
    → result % k ≡ n * p ^ low % k
    → power % k ≡ p ^ scale % k
    → result * power ^ x % k ≡ n * p ^ (x * scale + low) % k
byte_step k n p low scale x result power e f =
    let swapped : low + scale * x ≡ x * scale + low = omega arith in
    mul_mod k result (n * p ^ low) (power ^ x) ((p ^ scale) ^ x) e (pow_mod k power (p ^ scale) x f)
    ∙ ap (λ t. t % k)
        (mul_assoc n (p ^ low) ((p ^ scale) ^ x)
          ∙ ap (λ (t : ℕ). n * t)
              (ap (λ (t : ℕ). p ^ low * t) (sym (pow_pow p scale x))
                ∙ sym (pow_add p low (scale * x))
                ∙ ap (λ t. p ^ t) swapped))

top_step :
    (k p places power : ℕ)
    → power % k ≡ p ^ (256 ^ places) % k
    → power ^ (2 ^ 8) % k ≡ p ^ (256 ^ suc places) % k
top_step k p places power f =
    pow_mod k power (p ^ (256 ^ places)) (2 ^ 8) f
    ∙ ap (λ t. t % k)
        (sym (pow_pow p (256 ^ places) (2 ^ 8)) ∙ ap (λ t. p ^ t) (sym (pow-suc 256 places)))

not_zero : (m : Big) (k : ℕ) → Denotes m k → 0 < k → is_zero m ≡ false
not_zero m k d h = elim (Bool-cases (is_zero m)) [
  | inl nothing ↦ absurd (omega (arith, (is_zero_iff m).0 nothing, d.value))
  | inr more ↦ more
]

module _ (m : Big) (k : ℕ) (modulus : Denotes m k) (some_left : 0 < k) where
  multiply_if-Denotes :
      (e : ℕ) (r b : Big) (n p : ℕ)
      → Denotes r n
      → Denotes b p
      → (1 < k → n < k)
      → (new : Big) × (multiply_if (e % 2 == 1) r b m ≡ some new)
        × (v : ℕ) × Denotes new v
        × (1 < k → v < k)
        × (v % k ≡ n * p ^ (e % 2) % k)
  unfolding multiply_if
  multiply_if-Denotes e r b n p d f h = elim (Bool-cases (e % 2 == 1)) [
    | inl up ↦
        let one_up : e % 2 ≡ 1 = ground arith in
        let (new, done, value) = mulmod-Denotes m k modulus some_left r b n p d f in
        (
          new,
          rw up done,
          n * p % k,
          value,
          (λ more. mod-lt (n * p) some_left),
          mod-mod (n * p) k
              ∙ ap (λ t. n * t % k) (sym (pow_one p))
              ∙ ap (λ t. n * p ^ t % k) (sym one_up),
        )
    | inr down ↦
        let none_up : e % 2 ≡ 0 = ground arith in
        let same : n ≡ n * p ^ 0 = omega (arith, ap (λ (t : ℕ). n * t) (pow-zero p)) in
        (r, rw down refl, n, d, h, ap (λ t. t % k) same ∙ ap (λ t. n * p ^ t % k) (sym none_up))
  ]

  byte_loop_lem :
      (rounds e : ℕ) (r b : Big) (n p : ℕ)
      → e < 2 ^ rounds
      → Denotes r n
      → Denotes b p
      → (1 < k → n < k)
      → (state : Big × Big) × (byte_loop rounds e m r b ≡ some state)
        × Reaches k state (n * p ^ e) (p ^ (2 ^ rounds))
  unfolding byte_loop
  byte_loop_lem zero e r b n p h d f l = ((r, b), refl, untouched k r b n p e (omega arith) d f l)
  byte_loop_lem (suc rounds) e r b n p h d f l =
      let (new, multiplied, v, value, small, left) = multiply_if-Denotes e r b n p d f l in
      let (square, squared, whole) = mulmod-Denotes m k modulus some_left b b p p f f in
      let (state, done, reached) =
        byte_loop_lem rounds (e / 2) new square v (p * p % k) (omega (arith, pow-suc 2 rounds))
          value whole small in
      (
        state,
        rw (multiplied, ◌>>=◌) (rw (squared, ◌>>=◌) done),
        leaves state (result_step k v n p e left) (square_step k p rounds) reached,
      )

  bytes_loop_lem :
      (exp : List ℕ) (r b : Big) (n p : ℕ)
      → IsBytes exp
      → Denotes r n
      → Denotes b p
      → (1 < k → n < k)
      → (state : Big × Big) × (bytes_loop exp m (r, b) ≡ some state)
        × Reaches k state (n * p ^ be_val exp) (p ^ (256 ^ length exp))
  unfolding bytes_loop be_val
  bytes_loop_lem [] r b n p s d f l = ((r, b), refl, untouched k r b n p 0 refl d f l)
  bytes_loop_lem (x ∷ xs) r b n p s d f l =
      let (first, begun, mid) = bytes_loop_lem xs r b n p (λ i. s (suc i)) d f l in
      let (state, done, reached) =
        byte_loop_lem 8 x first.0 first.1 mid.result mid.power (s 0) mid.result_is mid.power_is
          mid.below in
      (
        state,
        rw (begun, ◌>>=◌) done,
        leaves state
            (byte_step k n p (be_val xs) (256 ^ length xs) x mid.result mid.power mid.result_left
              mid.power_left)
            (top_step k p (length xs) mid.power mid.power_left) reached,
      )

-- The bytes of a power, with no zero in front.
pub record IsPower (bytes : List ℕ) (value : ℕ) : Type 0 where
  pub value_is : be_val bytes ≡ value
  pub shortest : IsShortest bytes
  pub bytes_are : IsBytes bytes

one-Denotes : Denotes one 1
unfolding one val IsLimbs IsNormal HasTop
one-Denotes = record { limbs = (omega arith, tt); normal = tt; value = refl }

module _ (base exp modulus : List ℕ) (s : IsBytes base) (t : IsBytes exp)
    (u : IsBytes modulus) where
  nonzero-IsPower :
      0 < length base
      → 0 < length modulus
      → 0 < be_val modulus
      → (power : List ℕ) × (modexp base exp modulus ≡ some power)
        × (1 < be_val modulus → IsPower power (be_val base ^ be_val exp % be_val modulus))
  unfolding modexp
  nonzero-IsPower some_base places more =
      let k = be_val modulus in
      let m = from_be-Denotes modulus u places in
      let (b, taken, left) =
        rem-Denotes (from_be modulus) k m more (from_be base) (be_val base)
          (from_be-Denotes base s some_base) in
      let (state, looped, reached) =
        bytes_loop_lem (from_be modulus) k m more exp one b 1 (be_val base % k) t one-Denotes left
          (λ several. several) in
      let left_same : reached.result % k ≡ be_val base ^ be_val exp % k =
        reached.result_left
        ∙ ap (λ t. t % k) (one-mul ((be_val base % k) ^ be_val exp))
        ∙ pow_mod k (be_val base % k) (be_val base) (be_val exp) (mod-mod (be_val base) k) in
      (
        to_be state.0,
        rw (not_zero (from_be modulus) k m more) (rw (taken, ◌>>=◌) (rw (looped, ◌>>=◌) refl)),
        λ several. record {
          value_is =
              be_val-to_be state.0 reached.result_is.limbs
              ∙ reached.result_is.value
              ∙ sym (mod-eq_of_lt (reached.below several))
              ∙ left_same;
          bytes_are = IsBytes-to_be state.0;
          shortest = to_be-IsShortest state.0 (IsNormal-length state.0 reached.result_is.normal);
        },
      )

  zero_power : be_val modulus ≡ 0 → modexp base exp modulus ≡ some []
  unfolding modexp
  zero_power nothing =
      let empty : is_zero (from_be modulus) ≡ true =
        (is_zero_iff (from_be modulus)).1 (val-from_be modulus u ∙ nothing) in
      rw empty refl

  -- For bytes, and a base of at least one byte, modexp returns, with no panic; and if the modulus
  -- is more than 1, what it returns are the bytes of the base to the exponent, modulo the modulus,
  -- highest first, with no zero in front of another byte.
  pub modexp-IsPower :
      0 < length base
      → (power : List ℕ) × (modexp base exp modulus ≡ some power)
        × (1 < be_val modulus → IsPower power (be_val base ^ be_val exp % be_val modulus))
  modexp-IsPower some_base = elim (Bool-cases (ltb 0 (be_val modulus))) [
    | inl more ↦
        let above = ltb→lt 0 (be_val modulus) more in
        nonzero-IsPower some_base (some_bytes modulus above) above
    | inr nothing ↦ ([], zero_power (ground arith), λ several. absurd (ground arith))
  ]
