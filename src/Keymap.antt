-- ===== src/Keymap.antt =====
-- The keyboard map (src/keymap.rs): evdev key codes to ASCII, US layout.
mod Printable
mod Tests
use veil_os.Base.{
  ℕ, zero, suc, ◌+◌, ◌-◌, ◌*◌, ◌/◌, ◌%◌, ◌^◌, ◌≤◌, ◌<◌, min, max, ◌≡◌, refl, sym, ap, ◌∙◌, ◌≢◌, ◌↔◌,
  ◌⊎◌, inl, inr, Bool, true, false, not, ◌&&◌, ◌||◌, List, [], ◌∷◌, ◌++◌, map, Option, none, some,
  arith, ltb, leb, ◌==◌, if◌then◌else◌, Bool-cases, ==_iff, Option-cases, length, length-append,
  length-set, get_elem?, set, get_or, take, drop,
}

-- `TABLE`: the key code, the character, and the one with shift.
abbrev pub table : List (ℕ × ℕ × ℕ)
table =
    (2, 49, 33)
    ∷ (3, 50, 64)
    ∷ (4, 51, 35)
    ∷ (5, 52, 36)
    ∷ (6, 53, 37)
    ∷ (7, 54, 94)
    ∷ (8, 55, 38)
    ∷ (9, 56, 42)
    ∷ (10, 57, 40)
    ∷ (11, 48, 41)
    ∷ (12, 45, 95)
    ∷ (13, 61, 43)
    ∷ (14, 8, 8)
    ∷ (15, 9, 9)
    ∷ (16, 113, 81)
    ∷ (17, 119, 87)
    ∷ (18, 101, 69)
    ∷ (19, 114, 82)
    ∷ (20, 116, 84)
    ∷ (21, 121, 89)
    ∷ (22, 117, 85)
    ∷ (23, 105, 73)
    ∷ (24, 111, 79)
    ∷ (25, 112, 80)
    ∷ (26, 91, 123)
    ∷ (27, 93, 125)
    ∷ (28, 10, 10)
    ∷ (30, 97, 65)
    ∷ (31, 115, 83)
    ∷ (32, 100, 68)
    ∷ (33, 102, 70)
    ∷ (34, 103, 71)
    ∷ (35, 104, 72)
    ∷ (36, 106, 74)
    ∷ (37, 107, 75)
    ∷ (38, 108, 76)
    ∷ (39, 59, 58)
    ∷ (40, 39, 34)
    ∷ (41, 96, 126)
    ∷ (43, 92, 124)
    ∷ (44, 122, 90)
    ∷ (45, 120, 88)
    ∷ (46, 99, 67)
    ∷ (47, 118, 86)
    ∷ (48, 98, 66)
    ∷ (49, 110, 78)
    ∷ (50, 109, 77)
    ∷ (51, 44, 60)
    ∷ (52, 46, 62)
    ∷ (53, 47, 63)
    ∷ (57, 32, 32)
    ∷ []

unfoldable pub find : List (ℕ × ℕ × ℕ) → ℕ → Bool → Option ℕ
find [] code shift = none
find ((c, lower, upper) ∷ rest) code shift =
    let later = find rest code shift in
    if c == code then some (if shift then upper else lower) else later

-- `none` for a key without a character.
unfoldable pub translate : ℕ → Bool → Option ℕ
translate code shift = find table code shift
