-- ===== src/Clipboard/History.antt =====
-- The history of the clipboard (src/clipboard.rs).
use veil_os.Clipboard.{Clipboard, cleared, retain, set_text, text, pick}
use veil_os.Vfs.{Bytes, eq_bytes}
use veil_os.Base.{
  length-take, ℕ, zero, suc, ◌≤◌, ◌≡◌, refl, ap, ◌∙◌, inl, inr, Bool, false, ◌||◌, List, [], ◌∷◌,
  some, arith, Bool-cases, Option-cases, length, get_elem?, take,
}

unfoldable pub contains : List Bytes → Bytes → Bool
contains [] s = false
contains (e ∷ es) s = eq_bytes e s || contains es s

-- No entry is blank, and none comes again.
abbrev pub Distinct : List Bytes → Type 0
Distinct [] = Unit
Distinct (e ∷ es) = (eq_bytes e [] ≡ false) × (contains es e ≡ false) × Distinct es

pub record IsHistory (es : List Bytes) : Type 0 where
  pub distinct : Distinct es
  pub bounded : length es ≤ 10

retain-without : (s : Bytes) (es : List Bytes) → contains (retain s es) s ≡ false
unfolding retain contains
retain-without s [] = refl
retain-without s (e ∷ es) = ground (arith, retain-without s es)

retain-contains :
    (s t : Bytes) (es : List Bytes) → contains es t ≡ false → contains (retain s es) t ≡ false
unfolding retain contains
retain-contains s t [] h = refl
retain-contains s t (e ∷ es) h = ground (arith, retain-contains s t es)

retain-Distinct : (s : Bytes) (es : List Bytes) → Distinct es → Distinct (retain s es)
unfolding retain
retain-Distinct s [] d = d
retain-Distinct s (e ∷ es) (a, b, d) = elim (Bool-cases (eq_bytes e s)) [
  | inl h ↦ rw h (retain-Distinct s es d)
  | inr h ↦ rw h (a, retain-contains s e es b, retain-Distinct s es d)
]

take-contains :
    (n : ℕ) (es : List Bytes) (s : Bytes) → contains es s ≡ false → contains (take n es) s ≡ false
unfolding contains
take-contains zero es s h = refl
take-contains (suc n) [] s h = refl
take-contains (suc n) (e ∷ es) s h = ground (arith, take-contains n es s)

take-Distinct : (n : ℕ) (es : List Bytes) → Distinct es → Distinct (take n es)
take-Distinct zero es d = tt
take-Distinct (suc n) [] d = tt
take-Distinct (suc n) (e ∷ es) (a, b, d) = (a, take-contains n es e b, take-Distinct n es d)

set_text-IsHistory :
    (c : Clipboard) (s : Bytes) → IsHistory c.history → IsHistory (set_text c s).history
unfolding set_text
set_text-IsHistory c s h = elim (Bool-cases (eq_bytes s [])) [
  | inl e ↦ rw e h
  | inr e ↦ rw e (record {
    distinct =
        take-Distinct 10 (s ∷ retain s c.history)
          (e, retain-without s c.history, retain-Distinct s c.history h.distinct);
    bounded = omega (arith, length-take 10 (s ∷ retain s c.history));
  })
]

-- A user's actions.
pub data Action : Type 0 where
  copies : Bytes → Action
  picks : ℕ → Action

unfoldable pub act : Clipboard → List Action → Clipboard
act c [] = c
act c (copies s ∷ rest) = act (set_text c s) rest
act c (picks i ∷ rest) = act (pick c i) rest

pick-history : (c : Clipboard) (i : ℕ) → (pick c i).history ≡ c.history
unfolding pick
pick-history c i = elim (Option-cases (get_elem? c.history i)) [
  | inl e ↦ rw (e, pick) refl
  | inr (s, e) ↦ rw (e, pick) refl
]

act-IsHistory-from :
    (c : Clipboard) (actions : List Action)
    → IsHistory c.history
    → IsHistory (act c actions).history
unfolding act
act-IsHistory-from c [] h = h
act-IsHistory-from c (copies s ∷ rest) h =
    act-IsHistory-from (set_text c s) rest (set_text-IsHistory c s h)
act-IsHistory-from c (picks i ∷ rest) h =
    act-IsHistory-from (pick c i) rest (rw (pick-history c i) h)

-- After any sequence of copies and picks from the cleared clipboard, the history has at most ten
-- entries, none of them blank, and no entry twice.
act-IsHistory : (actions : List Action) → IsHistory (act cleared actions).history
unfolding cleared
act-IsHistory actions =
    act-IsHistory-from cleared actions (record { distinct = tt; bounded = omega arith })

set_text-head :
    (c : Clipboard) (s : Bytes)
    → eq_bytes s [] ≡ false
    → get_elem? (set_text c s).history 0 ≡ some s
unfolding set_text
set_text-head c s h = rw h refl

text-pick :
    (c : Clipboard) (i : ℕ) (s : Bytes) → get_elem? c.history i ≡ some s → text (pick c i) ≡ s
unfolding text pick
text-pick c i s e = rw (e, pick) refl

-- After a copy of a non-blank text and a pick of any entry, a pick of entry 0 brings the copied
-- text back.
pick-set_text :
    (c : Clipboard) (s : Bytes) (i : ℕ)
    → eq_bytes s [] ≡ false
    → text (pick (pick (set_text c s) i) 0) ≡ s
pick-set_text c s i h =
    text-pick (pick (set_text c s) i) 0 s
      (ap (λ es. get_elem? es 0) (pick-history (set_text c s) i) ∙ set_text-head c s h)
