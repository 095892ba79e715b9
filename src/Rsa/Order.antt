-- ===== src/Rsa/Order.antt =====
-- The comparison of src/rsa.rs is that of the numbers.
use Prim.Native.Nat.{compare, Ordering}
use veil_os.Rsa.Big.{Big, cmp_limbs, cmp}
use veil_os.Rsa.Value.{val, HasTop, IsLimbs, IsNormal}
use veil_os.Base.{ℕ, ◌+◌, ◌*◌, ◌^◌, ◌<◌, ◌≡◌, refl, sym, ◌⊎◌, inl, inr, [], ◌∷◌, arith, length}

-- Fewer limbs are less than more that have none on top to spare.
shorter : (xs ys : Big) → IsLimbs xs → HasTop ys → length xs < length ys → val xs < val ys
unfolding val IsLimbs HasTop
shorter xs [] h top few = absurd (omega arith)
shorter [] (y ∷ ys) h (more, top) few = more
shorter (x ∷ xs) (y ∷ ys) (h, hs) (more, top) few =
    omega (arith, shorter xs ys hs top (omega arith))

compare_scaled :
    (x y a b : ℕ)
    → x < 2 ^ 32
    → y < 2 ^ 32
    → compare (x + 2 ^ 32 * a) (y + 2 ^ 32 * b) ≡ (elim (compare a b) [
      | Ordering.lt ↦ Ordering.lt
      | Ordering.eq ↦ compare x y
      | Ordering.gt ↦ Ordering.gt
    ])
compare_scaled x y a b h k = ground arith

same_length :
    (xs ys : Big)
    → IsLimbs xs
    → IsLimbs ys
    → length xs ≡ length ys
    → cmp_limbs xs ys ≡ compare (val xs) (val ys)
unfolding val IsLimbs cmp_limbs
same_length [] [] h k e = refl
same_length [] (y ∷ ys) h k e = absurd (omega arith)
same_length (x ∷ xs) [] h k e = absurd (omega arith)
same_length (x ∷ xs) (y ∷ ys) (h, hs) (k, ks) e =
    rw (same_length xs ys hs ks (omega arith)) (sym (compare_scaled x y (val xs) (val ys) h k))

longer :
    (xs ys : Big) → IsLimbs xs → IsNormal xs → IsNormal ys → length xs < length ys → val xs < val ys
unfolding val IsLimbs IsNormal
longer xs [] h n top few = absurd (omega arith)
longer [] (y ∷ ys) h n top few = absurd n
longer (x ∷ xs) (y ∷ ys) (h, hs) n top few = omega (arith, shorter xs ys hs top (omega arith))

below : (a b : ℕ) → a < b → compare a b ≡ Ordering.lt
below a b h = ground arith

above : (a b : ℕ) → b < a → compare a b ≡ Ordering.gt
above a b h = ground arith

level : (a b : ℕ) → a ≡ b → compare a b ≡ Ordering.eq
level a b h = ground arith

trichotomy : (a b : ℕ) → (a < b) ⊎ ((a ≡ b) ⊎ (b < a))
trichotomy a b = ground arith

-- On limbs with no zero on top, the comparison is that of the numbers.
pub cmp_lem :
    (xs ys : Big)
    → IsLimbs xs
    → IsLimbs ys
    → IsNormal xs
    → IsNormal ys
    → cmp xs ys ≡ compare (val xs) (val ys)
unfolding cmp
cmp_lem xs ys h k n m = elim (trichotomy (length xs) (length ys)) [
  | inl few ↦
      rw (below (length xs) (length ys) few, cmp)
        (sym (below (val xs) (val ys) (longer xs ys h n m few)))
  | inr (inl same) ↦ rw (level (length xs) (length ys) same, cmp) (same_length xs ys h k same)
  | inr (inr many) ↦
      rw (above (length xs) (length ys) many, cmp)
        (sym (above (val xs) (val ys) (longer ys xs k m n many)))
]
