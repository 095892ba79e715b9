-- ===== src/Clipboard.antt =====
-- The clipboard (src/clipboard.rs): the text, and the last ten distinct copies, newest first.
mod History
mod Tests
use veil_os.Vfs.{Bytes, eq_bytes}
use veil_os.Base.{
  ℕ, zero, suc, ◌+◌, ◌-◌, ◌*◌, ◌/◌, ◌%◌, ◌^◌, ◌≤◌, ◌<◌, min, max, ◌≡◌, refl, sym, ap, ◌∙◌, ◌≢◌, ◌↔◌,
  ◌⊎◌, inl, inr, Bool, true, false, not, ◌&&◌, ◌||◌, List, [], ◌∷◌, ◌++◌, map, Option, none, some,
  arith, ltb, leb, ◌==◌, if◌then◌else◌, Bool-cases, ==_iff, Option-cases, length, length-append,
  length-set, get_elem?, set, get_or, take, drop,
}

pub record Clipboard : Type 0 where
  pub clip : Option Bytes
  pub history : List Bytes

-- The statics at boot.
unfoldable pub cleared : Clipboard
cleared = record { clip = none; history = [] }

-- `retain(|e| e != &s)`.
unfoldable pub retain : Bytes → List Bytes → List Bytes
retain s [] = []
retain s (e ∷ es) = let rest = retain s es in if eq_bytes e s then rest else e ∷ rest

unfoldable pub set_text : Clipboard → Bytes → Clipboard
set_text c s = record {
  clip = some s;
  history = if eq_bytes s [] then c.history else take 10 (s ∷ retain s c.history);
}

unfoldable pub text : Clipboard → Bytes
text c = elim c.clip [ none ↦ [] | some s ↦ s ]

unfoldable pub is_empty : Clipboard → Bool
is_empty c = elim c.clip [ none ↦ true | some s ↦ eq_bytes s [] ]

-- An entry out of range changes nothing.
unfoldable pub pick : Clipboard → ℕ → Clipboard
pick c i = elim (get_elem? c.history i) [ none ↦ c | some s ↦ record c { clip = some s } ]
