-- ===== src/Rsa/Remainder.antt =====
-- The remainder of src/rsa.rs, on the numbers: its loop divides bit by bit, from the highest.
use Prim.Native.Nat.{compare}
use native.Mathlib.Nat.{
  pow-suc, one-le-pow, div-div-eq-div-mul, add-mul-div_right, zero-div, div-one,
  add-mul-mod_self_right, div-eq_of_lt, mod-lt, mod-add-div', mod-eq_of_lt, zero-mod, mul-le-mul,
}
use mathlib.Core.Path.{subst}
use veil_os.Base.{◌>>=◌}
use veil_os.Base.Powers.{pow_add}
use veil_os.Base.Bits.{mod_of}
use veil_os.Rsa.Big.{
  sub, Big, is_less, cmp, bit, count_bits, bits, shl1, set_low, subtract_once, rem_loop, rem,
  mulmod,
}
use veil_os.Rsa.Value.{HasTop, val, IsLimbs, IsNormal}
use veil_os.Rsa.Order.{cmp_lem}
use veil_os.Rsa.Steps.{Denotes, shl1-Denotes, sub-Denotes, set_low-Denotes}
use veil_os.Rsa.Product.{mul-Denotes}
use veil_os.Base.{
  ℕ, zero, suc, ◌+◌, ◌-◌, ◌*◌, ◌/◌, ◌%◌, ◌^◌, ◌≤◌, ◌<◌, ◌≡◌, refl, sym, ap, ◌∙◌, inl, inr, [], ◌∷◌,
  some, arith, ltb, ◌==◌, if◌then◌else◌, Bool-cases, ltb→lt, length, get_or,
}

-- The bits of the lowest limb.
low_bit : (i a v : ℕ) → i < 32 → (a + 2 ^ 32 * v) / 2 ^ i % 2 ≡ a / 2 ^ i % 2
low_bit i a v h =
    let sum : 31 - i + suc i ≡ 32 = omega arith in
    let split : 2 ^ 32 ≡ 2 ^ (31 - i) * (2 ^ i * 2) =
      sym (ap (λ t. 2 ^ t) sum)
      ∙ pow_add 2 (31 - i) (suc i)
      ∙ ap (λ (t : ℕ). 2 ^ (31 - i) * t) (pow-suc 2 i) in
    let whole : a + 2 ^ 32 * v ≡ a + 2 ^ (31 - i) * v * 2 * 2 ^ i =
      ap (λ (t : ℕ). a + t * v) split ∙ omega arith in
    let moved = add-mul-div_right a (2 ^ (31 - i) * v * 2) (one-le-pow i 2 (omega arith)) in
    ap (λ t. t / 2 ^ i % 2) whole ∙ omega (arith, moved)

-- The bits of those above it.
high_bit : (j a v : ℕ) → a < 2 ^ 32 → (a + 2 ^ 32 * v) / 2 ^ (32 + j) ≡ v / 2 ^ j
high_bit j a v h =
    ap (λ t. (a + 2 ^ 32 * v) / t) (pow_add 2 32 j)
    ∙ sym (div-div-eq-div-mul (a + 2 ^ 32 * v) (2 ^ 32) (2 ^ j))
    ∙ ap (λ t. t / 2 ^ j) (the_limb a v h)
  where
    the_limb : (a v : ℕ) → a < 2 ^ 32 → (a + 2 ^ 32 * v) / 2 ^ 32 ≡ v
    the_limb a v h = omega arith

bit_lem : (x : Big) (i : ℕ) → IsLimbs x → get_or x (i / 32) 0 / 2 ^ (i % 32) % 2 ≡ val x / 2 ^ i % 2
unfolding val IsLimbs
bit_lem [] i s = omega (arith, zero-div (2 ^ (i % 32)), zero-div (2 ^ i))
bit_lem (x ∷ xs) i (s, ss) = elim (Bool-cases (ltb i 32)) [
  | inl low ↦
      let inside : i < 32 = ltb→lt i 32 low in
      let limb : i / 32 ≡ 0 = omega arith in
      let place : i % 32 ≡ i = omega arith in rw (limb, place) (sym (low_bit i x (val xs) inside))
  | inr high ↦
      let outside : 32 ≤ i = ground arith in
      let limb : i / 32 ≡ suc ((i - 32) / 32) = omega arith in
      let place : i % 32 ≡ (i - 32) % 32 = omega arith in
      let back : 32 + (i - 32) ≡ i = omega arith in
      rw (limb, place)
        (bit_lem xs (i - 32) ss
          ∙ ap (λ t. t % 2)
              (sym (high_bit (i - 32) x (val xs) s) ∙ ap (λ t. (x + 2 ^ 32 * val xs) / 2 ^ t) back))
]

count_bits_lem : (fuel v : ℕ) → v < 2 ^ fuel → v < 2 ^ count_bits fuel v
unfolding count_bits
count_bits_lem zero v h = h
count_bits_lem (suc fuel) v h = elim (Bool-cases (v == 0)) [
  | inl none_left ↦ rw none_left (ground arith)
  | inr some_left ↦ rw some_left (
      omega (
        arith,
        pow-suc 2 fuel,
        pow-suc 2 (count_bits fuel (v / 2)),
        count_bits_lem fuel (v / 2) (omega (arith, pow-suc 2 fuel)),
      ))
]

top_lem :
    (x : ℕ) (xs : Big)
    → IsLimbs (x ∷ xs)
    → val (x ∷ xs) < 2 ^ (length xs * 32) * suc (get_or (x ∷ xs) (length xs) 0)
unfolding val IsLimbs
top_lem x [] (s, ss) = omega arith
top_lem x (y ∷ ys) (s, ss) =
    let next : suc (length ys) * 32 ≡ 32 + length ys * 32 = omega arith in
    let grown : 2 ^ (suc (length ys) * 32) ≡ 2 ^ 32 * 2 ^ (length ys * 32) =
      ap (λ t. 2 ^ t) next ∙ pow_add 2 32 (length ys * 32) in
    let top = suc (get_or (y ∷ ys) (length ys) 0) in
    omega (arith, top_lem y ys ss, ap (λ (t : ℕ). t * top) grown)

get_or-lt : (xs : Big) (i : ℕ) → IsLimbs xs → get_or xs i 0 < 2 ^ 32
unfolding IsLimbs
get_or-lt [] i s = omega arith
get_or-lt (x ∷ xs) zero (s, ss) = s
get_or-lt (x ∷ xs) (suc i) (s, ss) = get_or-lt xs i ss

-- All bits are below the number of them.
bits_lem : (x : Big) → IsLimbs x → IsNormal x → (n : ℕ) × (bits x ≡ some n) × (val x < 2 ^ n)
unfolding bits IsNormal
bits_lem [] s top = absurd top
bits_lem (x ∷ xs) s top =
    let limb = get_or (x ∷ xs) (length xs) 0 in
    let counted = count_bits_lem 32 limb (get_or-lt (x ∷ xs) (length xs) s) in
    let whole = pow_add 2 (length xs * 32) (count_bits 32 limb) in
    let scaled =
      mul-le-mul {n₁ = 2 ^ (length xs * 32)} {m₁ = suc limb} {n₂ = 2 ^ (length xs * 32)}
        {m₂ = 2 ^ count_bits 32 limb} (omega arith) (omega (arith, counted)) in
    (_, refl, omega (arith, top_lem x xs s, whole, scaled))

is_less-compare : (a b : ℕ) → is_less (compare a b) ≡ ltb a b
is_less-compare a b = ground arith

next_digit : (n i k : ℕ) → (2 * (n / 2 ^ suc i % k) + n / 2 ^ i % 2) % k ≡ n / 2 ^ i % k
next_digit n i k =
    let before = n / 2 ^ suc i in
    let half : n / 2 ^ i / 2 ≡ before =
      div-div-eq-div-mul n (2 ^ i) 2 ∙ ap (λ t. n / t) (sym (pow-suc 2 i)) in
    let split = mod-add-div' before k in
    let whole : 2 * (before % k) + n / 2 ^ i % 2 + 2 * (before / k) * k ≡ n / 2 ^ i =
      omega (arith, half, split) in
    sym (add-mul-mod_self_right (2 * (before % k) + n / 2 ^ i % 2) (2 * (before / k)) k)
    ∙ ap (λ t. t % k) whole

module _ (m : Big) (k : ℕ) (modulus : Denotes m k) (some_left : 0 < k) where
  -- At most one subtraction is wanted.
  subtract_once-Denotes :
      (r : Big) (n : ℕ) → Denotes r n → n < k + k → Denotes (subtract_once r m) (n % k)
  unfolding subtract_once
  subtract_once-Denotes r n d h =
      let decided : is_less (cmp r m) ≡ ltb n k =
        ap is_less (cmp_lem r m d.limbs modulus.limbs d.normal modulus.normal)
        ∙ is_less-compare (val r) (val m)
        ∙ λ i. ltb (d.value i) (modulus.value i) in
      elim (Bool-cases (ltb n k)) [
        | inl less ↦
            let inside : n < k = ltb→lt n k less in
            rw (decided ∙ less) (subst (Denotes r) (sym (mod-eq_of_lt inside)) d)
        | inr more ↦
            let enough : k ≤ n = ground arith in
            let whole : n - k + 1 * k ≡ n = omega arith in
            let once : n - k ≡ n % k =
              sym (mod_of 1 (n - k) k (omega arith)) ∙ ap (λ t. t % k) whole in
            rw (decided ∙ more)
              (subst (Denotes (sub r m)) once (sub-Denotes r m n k d modulus enough))
      ]

  -- One round: the next bit comes in at the bottom.
  shifted_lem :
      (x : Big) (i : ℕ) (r : Big) (n : ℕ)
      → IsLimbs x
      → Denotes r n
      → (s : Big) × ((if bit x i then set_low (shl1 r) else some (shl1 r)) ≡ some s)
        × Denotes s (2 * n + val x / 2 ^ i % 2)
  unfolding bit
  shifted_lem x i r n l d =
      let bit_is = bit_lem x i l in
      let twice = shl1-Denotes r n d in
      elim (Bool-cases (get_or x (i / 32) 0 / 2 ^ (i % 32) % 2 == 1)) [
        | inl up ↦
            let one_up : val x / 2 ^ i % 2 ≡ 1 = ground (arith, bit_is) in
            let (s, e, lower) = set_low-Denotes (shl1 r) n twice in (s, rw up e, rw one_up lower)
        | inr down ↦
            let none_up : val x / 2 ^ i % 2 ≡ 0 = ground (arith, bit_is) in
            (shl1 r, rw down refl, rw none_up (subst (Denotes (shl1 r)) (omega arith) twice))
      ]

  rem_loop_lem :
      (i : ℕ) (x r : Big)
      → IsLimbs x
      → Denotes r (val x / 2 ^ i % k)
      → (s : Big) × (rem_loop i x m r ≡ some s) × Denotes s (val x % k)
  unfolding rem_loop
  rem_loop_lem zero x r l d =
      let whole = ap (λ t. t % k) (div-one (val x)) in (r, refl, subst (Denotes r) whole d)
  rem_loop_lem (suc i) x r l d =
      let before = val x / 2 ^ suc i in
      let (s, e, shifted) = shifted_lem x i r (before % k) l d in
      let small = mod-lt before some_left in
      let reduced = subtract_once-Denotes s _ shifted (omega arith) in
      let (t, f, done) =
        rem_loop_lem i x (subtract_once s m) l
          (subst (Denotes (subtract_once s m)) (next_digit (val x) i k) reduced) in
      (t, rw (e, ◌>>=◌) f, done)

  start : (v count : ℕ) → v < 2 ^ count → Denotes (0 ∷ []) (v / 2 ^ count % k)
  unfolding val IsLimbs IsNormal HasTop
  start v count above =
      let none_left : v / 2 ^ count % k ≡ 0 = ap (λ t. t % k) (div-eq_of_lt above) ∙ zero-mod k in
      record { limbs = (omega arith, tt); normal = tt; value = omega (arith, none_left) }

  -- The remainder of src/rsa.rs is that of the numbers, and it comes out.
  pub rem-Denotes :
      (x : Big) (n : ℕ) → Denotes x n → (r : Big) × (rem x m ≡ some r) × Denotes r (n % k)
  unfolding rem
  rem-Denotes x n d =
      let decided : is_less (cmp x m) ≡ ltb n k =
        ap is_less (cmp_lem x m d.limbs modulus.limbs d.normal modulus.normal)
        ∙ is_less-compare (val x) (val m)
        ∙ λ i. ltb (d.value i) (modulus.value i) in
      elim (Bool-cases (ltb n k)) [
        | inl less ↦
            let inside : n < k = ltb→lt n k less in
            (x, rw (decided ∙ less) refl, subst (Denotes x) (sym (mod-eq_of_lt inside)) d)
        | inr more ↦
            let (count, counted, above) = bits_lem x d.limbs d.normal in
            let (r, e, done) = rem_loop_lem count x (0 ∷ []) d.limbs (start (val x) count above) in
            (r, rw (decided ∙ more, counted, ◌>>=◌) e, subst (λ w. Denotes r (w % k)) d.value done)
      ]

  pub mulmod-Denotes :
      (x y : Big) (a b : ℕ)
      → Denotes x a
      → Denotes y b
      → (r : Big) × (mulmod x y m ≡ some r) × Denotes r (a * b % k)
  unfolding mulmod
  mulmod-Denotes x y a b d e =
      let (product, multiplied, whole) = mul-Denotes x y a b d e in
      let (r, reduced, done) = rem-Denotes product (a * b) whole in
      (r, rw (multiplied, ◌>>=◌) reduced, done)
