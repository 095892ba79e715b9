-- ===== src/Rsa/Steps.antt =====
-- Doubling, addition and subtraction of src/rsa.rs, on the numbers.
use Prim.Native.Nat.{bit_or}
use veil_os.Base.Bits.{bit_or_halves, bit_or-add}
use veil_os.Rsa.Big.{Big, normalize, shl1_limbs, shl1, add_limbs, add, sub_limbs, sub, set_low}
use veil_os.Rsa.Value.{val, IsLimbs, IsNormal, val-normalize, normalize-IsLimbs, normalize-IsNormal}
use veil_os.Base.{
  ℕ, ◌+◌, ◌-◌, ◌*◌, ◌/◌, ◌%◌, ◌^◌, ◌≤◌, ◌<◌, ◌≡◌, refl, ap, ◌∙◌, inl, inr, [], ◌∷◌, some, arith,
  ltb, ◌==◌, Bool-cases, ltb→lt, length, get_or, drop,
}

-- The limbs of a number as the operations give it, and its value.
pub record Denotes (x : Big) (n : ℕ) : Type 0 where
  pub limbs : IsLimbs x
  pub normal : IsNormal x
  pub value : val x ≡ n

pub Denotes-normalize :
    (x : Big) (n : ℕ) → IsLimbs x → 0 < length x → val x ≡ n → Denotes (normalize x) n
Denotes-normalize x n h l e = record {
  limbs = normalize-IsLimbs x h;
  normal = normalize-IsNormal x l;
  value = val-normalize x ∙ e;
}

low_or : (x c : ℕ) → x < 2 ^ 32 → x % 2 ≡ 0 → c ≤ 1 → bit_or x c ≡ x + c
low_or x c l h k =
    let half : c / 2 ≡ 0 * 2 ^ 32 = omega arith in
    omega (
      arith,
      bit_or_halves x c,
      ap (λ t. bit_or (x / 2) t) half,
      bit_or-add 32 (x / 2) 0 (omega arith),
    )

shl1_limbs_lem :
    (c : ℕ) (x : Big)
    → c ≤ 1
    → IsLimbs x
    → IsLimbs (shl1_limbs c x) × (val (shl1_limbs c x) ≡ 2 * val x + c)
unfolding shl1_limbs val IsLimbs
shl1_limbs_lem c [] h l = elim (Bool-cases (c == 0)) [
  | inl none_left ↦ rw none_left (tt, ground arith)
  | inr some_left ↦ rw some_left ((omega arith, tt), omega arith)
]
shl1_limbs_lem c (x ∷ xs) h (l, ls) =
    let joined = low_or (x * 2 % 2 ^ 32) c (omega arith) (omega arith) h in
    let (small, value) = shl1_limbs_lem (x / 2 ^ 31) xs (omega arith) ls in
    ((omega (arith, joined), small), omega (arith, joined, value))

add_limbs_lem :
    (c : ℕ) (x y : Big)
    → c ≤ 1
    → IsLimbs x
    → IsLimbs y
    → IsLimbs (add_limbs c x y) × (val (add_limbs c x y) ≡ val x + val y + c)
unfolding add_limbs val IsLimbs
add_limbs_lem c [] [] h p q = elim (Bool-cases (c == 0)) [
  | inl none_left ↦ rw none_left (tt, ground arith)
  | inr some_left ↦ rw some_left ((omega arith, tt), omega arith)
]
add_limbs_lem c (x ∷ xs) [] h (p, ps) q =
    let (small, value) = add_limbs_lem ((x + c) / 2 ^ 32) xs [] (omega arith) ps tt in
    ((omega arith, small), omega (arith, value))
add_limbs_lem c [] (y ∷ ys) h p (q, qs) =
    let (small, value) = add_limbs_lem ((y + c) / 2 ^ 32) [] ys (omega arith) tt qs in
    ((omega arith, small), omega (arith, value))
add_limbs_lem c (x ∷ xs) (y ∷ ys) h (p, ps) (q, qs) =
    let (small, value) = add_limbs_lem ((x + y + c) / 2 ^ 32) xs ys (omega arith) ps qs in
    ((omega arith, small), omega (arith, value))

pub val-tail : (y : Big) → val y ≡ get_or y 0 0 + 2 ^ 32 * val (drop 1 y)
unfolding val
val-tail [] = refl
val-tail (y ∷ ys) = refl

pub IsLimbs-tail : (y : Big) → IsLimbs y → (get_or y 0 0 < 2 ^ 32) × IsLimbs (drop 1 y)
unfolding IsLimbs
IsLimbs-tail [] h = (omega arith, h)
IsLimbs-tail (y ∷ ys) h = h

sub_limbs_lem :
    (c : ℕ) (x y : Big)
    → c ≤ 1
    → IsLimbs x
    → IsLimbs y
    → val y + c ≤ val x
    → IsLimbs (sub_limbs c x y) × (val (sub_limbs c x y) ≡ val x - (val y + c))
unfolding sub_limbs val IsLimbs
sub_limbs_lem c [] y h p q le = (tt, omega arith)
sub_limbs_lem c (x ∷ xs) y h (p, ps) q le =
    let (low, high) = IsLimbs-tail y q in
    let whole = val-tail y in
    elim (Bool-cases (ltb x (get_or y 0 0 + c))) [
      | inl less ↦
          let borrowed : x < get_or y 0 0 + c = ltb→lt x (get_or y 0 0 + c) less in
          let (small, value) = sub_limbs_lem 1 xs (drop 1 y) (omega arith) ps high (omega arith) in
          rw less ((omega arith, small), omega (arith, value))
      | inr more ↦
          let enough : get_or y 0 0 + c ≤ x = ground arith in
          let (small, value) = sub_limbs_lem 0 xs (drop 1 y) (omega arith) ps high (omega arith) in
          rw more ((omega arith, small), omega (arith, value))
    ]

length-shl1_limbs : (c : ℕ) (x : Big) → length x ≤ length (shl1_limbs c x)
unfolding shl1_limbs
length-shl1_limbs c [] = omega arith
length-shl1_limbs c (x ∷ xs) = omega (arith, length-shl1_limbs (x / 2 ^ 31) xs)

length-sub_limbs : (c : ℕ) (x y : Big) → length x ≤ length (sub_limbs c x y)
unfolding sub_limbs
length-sub_limbs c [] y = omega arith
length-sub_limbs c (x ∷ xs) y = elim (Bool-cases (ltb x (get_or y 0 0 + c))) [
  | inl less ↦ rw less (omega (arith, length-sub_limbs 1 xs (drop 1 y)))
  | inr more ↦ rw more (omega (arith, length-sub_limbs 0 xs (drop 1 y)))
]

length-add_limbs : (c : ℕ) (x y : Big) → length x ≤ length (add_limbs c x y)
unfolding add_limbs
length-add_limbs c [] y = omega arith
length-add_limbs c (x ∷ xs) [] = omega (arith, length-add_limbs ((x + c) / 2 ^ 32) xs [])
length-add_limbs c (x ∷ xs) (y ∷ ys) = omega (arith, length-add_limbs ((x + y + c) / 2 ^ 32) xs ys)

pub IsNormal-length : (x : Big) → IsNormal x → 0 < length x
unfolding IsNormal
IsNormal-length [] h = absurd h
IsNormal-length (x ∷ xs) h = omega arith

pub shl1-Denotes : (x : Big) (n : ℕ) → Denotes x n → Denotes (shl1 x) (2 * n)
unfolding shl1
shl1-Denotes x n d =
    let (small, value) = shl1_limbs_lem 0 x (omega arith) d.limbs in
    Denotes-normalize (shl1_limbs 0 x) (2 * n) small
      (omega (arith, IsNormal-length x d.normal, length-shl1_limbs 0 x))
      (omega (arith, value, d.value))

pub add-Denotes : (x y : Big) (n m : ℕ) → Denotes x n → Denotes y m → Denotes (add x y) (n + m)
unfolding add
add-Denotes x y n m d e =
    let (small, value) = add_limbs_lem 0 x y (omega arith) d.limbs e.limbs in
    Denotes-normalize (add_limbs 0 x y) (n + m) small
      (omega (arith, IsNormal-length x d.normal, length-add_limbs 0 x y))
      (omega (arith, value, d.value, e.value))

pub sub-Denotes :
    (x y : Big) (n m : ℕ) → Denotes x n → Denotes y m → m ≤ n → Denotes (sub x y) (n - m)
unfolding sub
sub-Denotes x y n m d e le =
    let (small, value) =
      sub_limbs_lem 0 x y (omega arith) d.limbs e.limbs (omega (arith, d.value, e.value)) in
    Denotes-normalize (sub_limbs 0 x y) (n - m) small
      (omega (arith, IsNormal-length x d.normal, length-sub_limbs 0 x y))
      (omega (arith, value, d.value, e.value))

-- The lowest bit of an even number is set.
pub set_low-Denotes :
    (x : Big) (n : ℕ) → Denotes x (2 * n) → (y : Big) × (set_low x ≡ some y) × Denotes y (2 * n + 1)
unfolding set_low val IsLimbs IsNormal
set_low-Denotes [] n d = absurd d.normal
set_low-Denotes (x ∷ xs) n d =
    let (low, high) = d.limbs in
    let value = d.value in
    let joined = low_or x 1 low (omega arith) (omega arith) in
    (
      bit_or x 1 ∷ xs,
      refl,
      record {
        limbs = (omega (arith, joined, value), high);
        normal = d.normal;
        value = omega (arith, joined, value);
      },
    )
