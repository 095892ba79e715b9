-- ===== src/Perms/Grants.antt =====
-- What a grant changes (src/perms.rs).
use Prim.Native.Nat.{bit_and, bit_or}
use veil_os.Base.Bits.{bit_and_halves, bit_or_halves, bit_and-zero}
use veil_os.Vfs.{Bytes, eq_bytes}
use veil_os.Vfs.Image.{before}
use veil_os.Perms.{Grants, lookup, insert, or_zero, for_app, is_system, grant, has, every}
use veil_os.Base.{
  ℕ, zero, suc, ◌/◌, ◌≤◌, ◌≡◌, refl, ap, ◌∙◌, inl, inr, true, false, [], ◌∷◌, some, arith,
  if◌then◌else◌, Bool-cases, ==_iff,
}

bit_and-bit_or : (a b : ℕ) → bit_and (bit_or a b) b ≡ b
bit_and-bit_or a b = within b a b (omega arith)
  where
    within : (bound x y : ℕ) → y ≤ bound → bit_and (bit_or x y) y ≡ y
    within bound x zero h = bit_and-zero (bit_or x 0)
    within zero x (suc y) h = absurd (omega arith)
    within (suc bound) x (suc y) h =
        let half : bit_or x (suc y) / 2 ≡ bit_or (x / 2) (suc y / 2) =
          omega (arith, bit_or_halves x (suc y)) in
        let rest = within bound (x / 2) (suc y / 2) (omega arith) in
        omega (
          arith,
          bit_and_halves (bit_or x (suc y)) (suc y),
          bit_or_halves x (suc y),
          ap (λ w. bit_and w (suc y / 2)) half,
          rest,
        )

eq_bytes_sound : (a b : Bytes) → eq_bytes a b ≡ true → a ≡ b
unfolding eq_bytes
eq_bytes_sound [] [] e = refl
eq_bytes_sound [] (y ∷ ys) e = absurd (cc)
eq_bytes_sound (x ∷ xs) [] e = absurd (cc)
eq_bytes_sound (x ∷ xs) (y ∷ ys) e =
    let head : x ≡ y = ground (arith, e) in
    let tail : eq_bytes xs ys ≡ true = ground (arith, e) in
    λ i. head i ∷ eq_bytes_sound xs ys tail i

eq_bytes_refl : (a : Bytes) → eq_bytes a a ≡ true
unfolding eq_bytes
eq_bytes_refl [] = refl
eq_bytes_refl (x ∷ xs) = ground (arith, eq_bytes_refl xs)

lookup-insert : (g : Grants) (app : Bytes) (v : ℕ) → lookup (insert g app v) app ≡ some v
unfolding lookup insert
lookup-insert [] app v = rw (eq_bytes_refl app) refl
lookup-insert ((k, w) ∷ rest) app v = elim (Bool-cases (eq_bytes k app)) [
  | inl h ↦ rw (h, h) refl
  | inr h ↦ rw h (elim (Bool-cases (before app k)) [
    | inl b ↦ rw (b, eq_bytes_refl app) refl
    | inr b ↦ rw (b, h) (lookup-insert rest app v)
  ])
]

lookup-insert_other :
    (g : Grants) (app other : Bytes) (v : ℕ)
    → eq_bytes app other ≡ false
    → lookup (insert g app v) other ≡ lookup g other
unfolding lookup insert
lookup-insert_other [] app other v n = rw n refl
lookup-insert_other ((k, w) ∷ rest) app other v n = elim (Bool-cases (eq_bytes k app)) [
  | inl h ↦ rw (h, ap (λ x. eq_bytes x other) (eq_bytes_sound k app h) ∙ n) refl
  | inr h ↦ rw h (elim (Bool-cases (before app k)) [
    | inl b ↦ rw (b, n) refl
    | inr b ↦ rw (b, lookup-insert_other rest app other v n) refl
  ])
]

-- For an app that is not a system app, after a grant of bits the app has every one of them, and
-- what any other name is granted stays the same.
has-grant :
    (g : Grants) (app : Bytes) (bits : ℕ)
    → is_system app ≡ false
    → (has (grant g app bits) app bits ≡ true)
      × ((other : Bytes)
          → eq_bytes app other ≡ false
          → for_app (grant g app bits) other ≡ for_app g other)
unfolding has grant for_app or_zero
has-grant g app bits s = (
  rw (s, lookup-insert g app (bit_or (or_zero (lookup g app)) bits))
      ((==_iff (bit_and (bit_or (or_zero (lookup g app)) bits) bits) bits).1
        (bit_and-bit_or (or_zero (lookup g app)) bits)),
  λ other n.
      ap (λ o. if is_system other then every else or_zero o)
        (lookup-insert_other g app other (bit_or (or_zero (lookup g app)) bits) n),
)
