-- ===== src/Rsa/Value.antt =====
-- The number that the limbs of src/rsa.rs stand for.
use veil_os.Rsa.Big.{put_limb, Big, pop_zeros, normalize, is_zero}
use veil_os.Base.{
  ℕ, ◌+◌, ◌*◌, ◌^◌, ◌<◌, ◌≡◌, refl, ◌↔◌, inl, inr, true, [], ◌∷◌, arith, ◌==◌, Bool-cases, length,
}

unfoldable pub val : Big → ℕ
val [] = 0
val (x ∷ xs) = x + 2 ^ 32 * val xs

-- The least number that has more limbs.
unfoldable pub cap : Big → ℕ
cap [] = 1
cap (x ∷ xs) = 2 ^ 32 * cap xs

unfoldable pub IsLimbs : Big → Type 0
IsLimbs [] = Unit
IsLimbs (x ∷ xs) = (x < 2 ^ 32) × IsLimbs xs

-- No zero on top: what is left from any limb on is positive.
unfoldable pub HasTop : Big → Type 0
HasTop [] = Unit
HasTop (x ∷ xs) = (0 < x + 2 ^ 32 * val xs) × HasTop xs

-- At least one limb, and no zero on top of it.
unfoldable pub IsNormal : Big → Type 0
IsNormal [] = ⊥
IsNormal (x ∷ xs) = HasTop xs

pub val-lt-cap : (xs : Big) → IsLimbs xs → val xs < cap xs
unfolding val cap IsLimbs
val-lt-cap [] h = omega arith
val-lt-cap (x ∷ xs) (h, hs) = omega (arith, val-lt-cap xs hs)

put_limb_lem :
    (x : ℕ) (xs : Big)
    → HasTop xs
    → (val (put_limb x xs) ≡ x + 2 ^ 32 * val xs) × HasTop (put_limb x xs)
unfolding val HasTop put_limb
put_limb_lem x [] top = elim (Bool-cases (x == 0)) [
  | inl none_left ↦ rw none_left (ground arith, tt)
  | inr some_left ↦ rw some_left (omega arith, (ground arith, tt))
]
put_limb_lem x (y ∷ ys) (more, top) = (refl, (omega arith, (more, top)))

put_limb-IsLimbs : (x : ℕ) (xs : Big) → x < 2 ^ 32 → IsLimbs xs → IsLimbs (put_limb x xs)
unfolding IsLimbs put_limb
put_limb-IsLimbs x [] h hs = elim (Bool-cases (x == 0)) [
  | inl none_left ↦ rw none_left tt
  | inr some_left ↦ rw some_left (h, tt)
]
put_limb-IsLimbs x (y ∷ ys) h hs = (h, hs)

pop_zeros_lem : (xs : Big) → (val (pop_zeros xs) ≡ val xs) × HasTop (pop_zeros xs)
unfolding val HasTop pop_zeros
pop_zeros_lem [] = (refl, tt)
pop_zeros_lem (x ∷ xs) =
    let (same, top) = pop_zeros_lem xs in
    let (value, high) = put_limb_lem x (pop_zeros xs) top in (omega (arith, same, value), high)

pop_zeros-IsLimbs : (xs : Big) → IsLimbs xs → IsLimbs (pop_zeros xs)
unfolding IsLimbs pop_zeros
pop_zeros-IsLimbs [] h = h
pop_zeros-IsLimbs (x ∷ xs) (h, hs) = put_limb-IsLimbs x (pop_zeros xs) h (pop_zeros-IsLimbs xs hs)

pub val-normalize : (xs : Big) → val (normalize xs) ≡ val xs
unfolding val normalize
val-normalize [] = refl
val-normalize (x ∷ xs) = omega (arith, (pop_zeros_lem xs).0)

pub normalize-IsLimbs : (xs : Big) → IsLimbs xs → IsLimbs (normalize xs)
unfolding IsLimbs normalize
normalize-IsLimbs [] h = h
normalize-IsLimbs (x ∷ xs) (h, hs) = (h, pop_zeros-IsLimbs xs hs)

pub normalize-IsNormal : (xs : Big) → 0 < length xs → IsNormal (normalize xs)
unfolding IsNormal normalize
normalize-IsNormal [] h = absurd (omega arith)
normalize-IsNormal (x ∷ xs) h = (pop_zeros_lem xs).1

pub is_zero_iff : (xs : Big) → (is_zero xs ≡ true) ↔ (val xs ≡ 0)
unfolding val is_zero
is_zero_iff [] = ground arith
is_zero_iff (x ∷ xs) = grind (arith, is_zero_iff xs)
