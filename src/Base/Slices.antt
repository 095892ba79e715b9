-- ===== src/Base/Slices.antt =====
-- Parts of a list that has more behind it.
use veil_os.Base.{
  ℕ, zero, suc, ◌+◌, ◌≤◌, ◌<◌, ◌≡◌, refl, ap, ◌∙◌, List, [], ◌∷◌, ◌++◌, arith, length-drop,
  take-append, length, get_or, take, drop,
}

module _ {ℓ} {A : Type ℓ} where
  pub drop-within : (n : ℕ) (xs ys : List A) → n ≤ length xs → drop n (xs ++ ys) ≡ drop n xs ++ ys
  drop-within zero xs ys h = refl
  drop-within (suc n) [] ys h = absurd (omega arith)
  drop-within (suc n) (x ∷ xs) ys h = drop-within n xs ys (omega arith)

  pub take-within : (n : ℕ) (xs ys : List A) → n ≤ length xs → take n (xs ++ ys) ≡ take n xs
  take-within zero xs ys h = refl
  take-within (suc n) [] ys h = absurd (omega arith)
  take-within (suc n) (x ∷ xs) ys h = ap (λ t. x ∷ t) (take-within n xs ys (omega arith))

  pub slice-within :
      (n m : ℕ) (xs ys : List A)
      → n + m ≤ length xs
      → take m (drop n (xs ++ ys)) ≡ take m (drop n xs)
  slice-within n m xs ys h =
      ap (take m) (drop-within n xs ys (omega arith))
      ∙ take-within m (drop n xs) ys (omega (arith, length-drop n xs))

  pub drop-append : (n : ℕ) (xs ys : List A) → length xs ≡ n → drop n (xs ++ ys) ≡ ys
  drop-append n xs ys e = (take-append n xs ys (omega arith) (λ few. absurd (omega arith))).1

  pub take-front : (n : ℕ) (xs ys : List A) → length xs ≡ n → take n (xs ++ ys) ≡ xs
  take-front n xs ys e = (take-append n xs ys (omega arith) (λ few. absurd (omega arith))).0

pub get_or-within :
    (xs ys : List ℕ) (i d : ℕ) → i < length xs → get_or (xs ++ ys) i d ≡ get_or xs i d
get_or-within [] ys i d h = absurd (omega arith)
get_or-within (x ∷ xs) ys zero d h = refl
get_or-within (x ∷ xs) ys (suc i) d h = get_or-within xs ys i d (omega arith)
