-- ===== src/Keymap/Printable.antt =====
-- Which characters the keyboard map reaches (src/keymap.rs).
use veil_os.Keymap.{table, find, translate}
use veil_os.Base.{
  ℕ, zero, suc, ◌+◌, ◌≤◌, ◌<◌, ◌≡◌, refl, sym, ap, ◌∙◌, inl, inr, Bool, true, false, ◌&&◌, List, [],
  ◌∷◌, none, some, arith, ◌==◌, if◌then◌else◌, Bool-cases, ==_iff, Option-cases,
}

-- The key that gives the character, with or without shift.
key_for : List (ℕ × ℕ × ℕ) → ℕ → ℕ × Bool
key_for [] c = (0, false)
key_for ((code, lower, upper) ∷ rest) c =
    let later = key_for rest c in
    if lower == c then (code, false) else if upper == c then (code, true) else later

is_typed : ℕ → Bool
is_typed c = elim (translate (key_for table c).0 (key_for table c).1) [
  | none ↦ false
  | some d ↦ d == c
]

all_typed : ℕ → ℕ → Bool
all_typed from zero = true
all_typed from (suc n) = is_typed from && all_typed (suc from) n

all_typed-is_typed :
    (from n c : ℕ) → all_typed from n ≡ true → from ≤ c → c < from + n → is_typed c ≡ true
unfolding all_typed
all_typed-is_typed from zero c e low high = absurd (omega arith)
all_typed-is_typed from (suc n) c e low high = elim (Bool-cases (from == c)) [
  | inl h ↦
      let first : is_typed from ≡ true = ground (arith, e) in
      ap is_typed (sym ((==_iff from c).0 h)) ∙ first
  | inr h ↦
      let rest : all_typed (suc from) n ≡ true = ground (arith, e) in
      all_typed-is_typed (suc from) n c rest (ground (arith, h, low)) (omega arith)
]

printable : all_typed 32 95 ≡ true
unfolding all_typed is_typed key_for translate find
printable = refl

is_typed_lem :
    (c : ℕ) → is_typed c ≡ true → translate (key_for table c).0 (key_for table c).1 ≡ some c
unfolding is_typed
is_typed_lem c e = elim (Option-cases (translate (key_for table c).0 (key_for table c).1)) [
  | inl h ↦ let impossible = rw (h, is_typed) at e in absurd (cc)
  | inr (d, h) ↦ h ∙ ap some ((==_iff d c).0 (rw (h, is_typed) at e))
]

-- Every printable ASCII character, from the space to the tilde, is what translate gives for some
-- key code, with or without shift.
translate-printable :
    (c : ℕ) → 32 ≤ c → c < 127 → (code : ℕ) × (shift : Bool) × (translate code shift ≡ some c)
translate-printable c low high = (
  (key_for table c).0,
  (key_for table c).1,
  is_typed_lem c (all_typed-is_typed 32 95 c printable low high),
)
