-- ===== src/Rsa/Product.antt =====
-- Multiplication of src/rsa.rs, on the numbers: it never runs out of limbs.
use native.Mathlib.Nat.{mul-le-mul, mul-lt-mul_of_pos_right}
use veil_os.Base.{◌>>=◌}
use veil_os.Rsa.Big.{Big, normalize, propagate, mul_row, mul_rows, mul}
use veil_os.Rsa.Value.{val, cap, IsLimbs, val-lt-cap}
use veil_os.Rsa.Steps.{val-tail, IsLimbs-tail, Denotes, Denotes-normalize}
use veil_os.Base.{
  ℕ, zero, suc, ◌+◌, ◌-◌, ◌*◌, ◌/◌, ◌%◌, ◌^◌, ◌≤◌, ◌<◌, ◌≡◌, refl, ap, ◌∙◌, inl, inr, [], ◌∷◌, ◌++◌,
  some, arith, ◌==◌, Bool-cases, replicate, length-drop, length-replicate, length, length-append,
  get_or, take, drop,
}

-- Limbs of the same number of places factors `xs`, and of a value.
record Fills (xs : Big) (n : ℕ) (new : Big) : Type 0 where
  small : IsLimbs new
  value : val new ≡ n
  places : length new ≡ length xs

cons-Fills :
    (x y : ℕ) (xs : Big) (n m : ℕ) (new : Big)
    → y < 2 ^ 32
    → y + 2 ^ 32 * n ≡ m
    → Fills xs n new
    → Fills (x ∷ xs) m (y ∷ new)
unfolding val IsLimbs
cons-Fills x y xs n m new h e f = record {
  small = (h, f.small);
  value = omega (arith, f.value, e);
  places = ap suc f.places;
}

self-Fills : (xs : Big) (n : ℕ) → IsLimbs xs → val xs ≡ n → Fills xs n xs
self-Fills xs n h e = record { small = h; value = e; places = refl }

propagate_zero : (xs : Big) → propagate xs 0 ≡ some xs
unfolding propagate
propagate_zero [] = refl
propagate_zero (x ∷ xs) = refl

propagate_lem :
    (xs : Big) (c : ℕ)
    → c < 2 ^ 32
    → IsLimbs xs
    → val xs + c < cap xs
    → (new : Big) × (propagate xs c ≡ some new) × Fills xs (val xs + c) new
unfolding val cap IsLimbs propagate
propagate_lem [] c h s room =
    let done : c ≡ 0 = omega arith in
    ([], ap (λ t. propagate [] t) done ∙ propagate_zero [], self-Fills [] (0 + c) s (omega arith))
propagate_lem (x ∷ xs) c h (s, ss) room =
    let cur : (x + c) % 2 ^ 64 ≡ x + c = omega arith in
    let (high, e, f) =
      propagate_lem xs ((x + c) % 2 ^ 64 / 2 ^ 32) (omega arith) ss (omega arith) in
    let put =
      cons-Fills x ((x + c) % 2 ^ 64 % 2 ^ 32) xs (val xs + (x + c) % 2 ^ 64 / 2 ^ 32)
        (val (x ∷ xs) + c) high (omega arith) (omega arith) f in
    elim (Bool-cases (c == 0)) [
      | inl done ↦
          let none_left : c ≡ 0 = ground arith in
          (x ∷ xs, rw (done, propagate) refl, self-Fills (x ∷ xs) _ (s, ss) (omega arith))
      | inr more ↦ (_, rw (more, e, propagate, ◌>>=◌) refl, put)
    ]

row_bound : (a b : ℕ) → a < 2 ^ 32 → b < 2 ^ 32 → a * b ≤ (2 ^ 32 - 1) * (2 ^ 32 - 1)
row_bound a b h k = mul-le-mul {n₂ = 2 ^ 32 - 1} {m₂ = 2 ^ 32 - 1} (omega arith) (omega arith)

mul_row_lem :
    (xs : Big) (a : ℕ) (ys : Big) (c : ℕ)
    → a < 2 ^ 32
    → c < 2 ^ 32
    → IsLimbs xs
    → IsLimbs ys
    → length ys ≤ length xs
    → val xs + a * val ys + c < cap xs
    → (new : Big) × (mul_row xs a ys c ≡ some new) × Fills xs (val xs + a * val ys + c) new
unfolding val cap IsLimbs mul_row
mul_row_lem xs a [] c h k s t l room =
    let (new, e, f) = propagate_lem xs c k s (omega arith) in
    (new, e, record { small = f.small; value = omega (arith, f.value); places = f.places })
mul_row_lem [] a (y ∷ ys) c h k s t l room = absurd (omega arith)
mul_row_lem (x ∷ xs) a (y ∷ ys) c h k (s, ss) (t, ts) l room =
    let small = row_bound a y h t in
    let cur : (x + a * y + c) % 2 ^ 64 ≡ x + a * y + c = omega (arith, small) in
    let expand : a * (y + 2 ^ 32 * val ys) ≡ a * y + 2 ^ 32 * (a * val ys) = omega arith in
    let (high, e, f) =
      mul_row_lem xs a ys ((x + a * y + c) % 2 ^ 64 / 2 ^ 32) h (omega (arith, small)) ss ts
        (omega arith) (omega (arith, cur, expand)) in
    (
      (x + a * y + c) % 2 ^ 64 % 2 ^ 32 ∷ high,
      rw (e, ◌>>=◌) refl,
      cons-Fills x _ xs _ _ high (omega arith) (omega (arith, cur, expand)) f,
    )

zeroed_lem : (n : ℕ) → IsLimbs (replicate n 0) × (val (replicate n 0) ≡ 0)
unfolding IsLimbs val
zeroed_lem zero = (tt, refl)
zeroed_lem (suc n) =
    let (small, none_left) = zeroed_lem n in ((omega arith, small), omega (arith, none_left))

cap-places : (xs ys : Big) → length xs ≡ length ys → cap xs ≡ cap ys
unfolding cap
cap-places [] [] e = refl
cap-places [] (y ∷ ys) e = absurd (omega arith)
cap-places (x ∷ xs) [] e = absurd (omega arith)
cap-places (x ∷ xs) (y ∷ ys) e = omega (arith, cap-places xs ys (omega arith))

cap-append : (xs ys : Big) → cap (xs ++ ys) ≡ cap xs * cap ys
unfolding cap
cap-append [] ys = omega arith
cap-append (x ∷ xs) ys = omega (arith, cap-append xs ys)

cap-tail : (xs : Big) → 0 < length xs → cap xs ≡ 2 ^ 32 * cap (drop 1 xs)
unfolding cap
cap-tail [] h = absurd (omega arith)
cap-tail (x ∷ xs) h = refl

take-one : (xs : Big) → 0 < length xs → take 1 xs ≡ get_or xs 0 0 ∷ []
take-one [] h = absurd (omega arith)
take-one (x ∷ xs) h = refl

mul-lt-mul : (a b c d : ℕ) → a < b → c < d → a * c < b * d
mul-lt-mul a b c d h k = omega (
  arith,
  mul-le-mul {n₁ = a} {m₁ = c} {n₂ = a} {m₂ = d} (omega arith) (omega arith),
  mul-lt-mul_of_pos_right {m = a} {n = b} {k = d} h (omega arith),
)

-- What is left to multiply fits in the places that are left.
mul_rows_lem :
    (xs factors ys : Big)
    → IsLimbs xs
    → IsLimbs factors
    → IsLimbs ys
    → length factors + length ys ≤ length xs
    → val xs + val factors * val ys < cap xs
    → (new : Big) × (mul_rows xs factors ys ≡ some new)
      × Fills xs (val xs + val factors * val ys) new
unfolding val IsLimbs mul_rows
mul_rows_lem xs [] ys s r t l room = (xs, refl, self-Fills xs _ s (omega arith))
mul_rows_lem xs (a ∷ factors) ys s (r, rs) t l room =
    let expand : (a + 2 ^ 32 * val factors) * val ys
        ≡ a * val ys + 2 ^ 32 * (val factors * val ys) =
      omega arith in
    let (sum, e, f) =
      mul_row_lem xs a ys 0 r (omega arith) s t (omega arith) (omega (arith, room, expand)) in
    let filled : 0 < length sum = omega (arith, f.places) in
    let (head, tail) = IsLimbs-tail sum f.small in
    let whole = val-tail sum in
    let (high, e', g) =
      mul_rows_lem (drop 1 sum) factors ys tail rs t (omega (arith, f.places, length-drop 1 sum)) (
        omega
          (arith, whole, f.value, expand, room, cap-tail sum filled, cap-places sum xs f.places)) in
    (
      get_or sum 0 0 ∷ high,
      rw (e, ◌>>=◌) (rw (e', ◌>>=◌) (ap (λ w. some (w ++ high)) (take-one sum filled))),
      record {
        small = (head, g.small);
        value = omega (arith, g.value, whole, f.value, expand);
        places = omega (arith, g.places, length-drop 1 sum, f.places);
      },
    )

pub mul-Denotes :
    (x y : Big) (n m : ℕ)
    → Denotes x n
    → Denotes y m
    → (r : Big) × (mul x y ≡ some r) × Denotes r (n * m)
unfolding mul cap
mul-Denotes x y n m d e =
    let places = length x + length y + 1 in
    let (small, none_left) = zeroed_lem places in
    let blank = 0 ∷ (x ++ y) in
    let room =
      cap-places (replicate places 0) blank
        (omega (arith, length-append x y, length-replicate {A = ℕ} places 0)) in
    let fits : val x * val y < cap x * cap y =
      mul-lt-mul (val x) (cap x) (val y) (cap y) (val-lt-cap x d.limbs) (val-lt-cap y e.limbs) in
    let product : val x * val y ≡ n * m = λ i. d.value i * e.value i in
    let (sum, done, f) =
      mul_rows_lem (replicate places 0) x y small d.limbs e.limbs
        (omega (arith, length-replicate {A = ℕ} places 0))
        (omega (arith, none_left, room, cap-append x y, fits)) in
    (
      normalize sum,
      rw (done, ◌>>=◌) refl,
      Denotes-normalize sum (n * m) f.small
          (omega (arith, f.places, length-replicate {A = ℕ} places 0))
          (omega (arith, f.value, none_left, product)),
    )
