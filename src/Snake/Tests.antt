-- ===== src/Snake/Tests.antt =====
-- A game of Snake (src/snake.rs).
use veil_os.Snake.{
  SnakeState, new, turn, same_cell, contains, negate, next_head, add32, is_free, is_within, move_to,
  pop, advance_from, advance, tick,
}
use veil_os.Snake.Play.{IsValid, ticked, respond, new-IsValid, respond-IsValid}
use veil_os.Snake.{Cell, cols, place_food}
use veil_os.Snake.Food.{place_food-none}
use veil_os.Base.{
  ℕ, zero, suc, ◌<◌, ◌≡◌, refl, inl, inr, true, List, [], ◌∷◌, ◌++◌, none, some, arith, ◌==◌,
  Bool-cases, ==_iff,
}

-- The first tick moves the snake to the right.
abbrev moved : SnakeState
moved = record (new 0 5) { body = (10, 9) ∷ (9, 9) ∷ (8, 9) ∷ []; next_tick = 7 }

first_tick : respond 1 (new 0 5) (ticked 0) ≡ some (moved, true)
unfolding respond tick new advance turn same_cell contains negate advance_from next_head add32
    is_free is_within move_to pop
first_tick = refl

respond-IsValid_example : IsValid moved
respond-IsValid_example = respond-IsValid 1 (new 0 5) (ticked 0) (new-IsValid 0 5) first_tick

-- A snake on every cell.
abbrev row : ℕ → ℕ → List Cell
row zero y = []
row (suc n) y = (n, y) ∷ row n y

abbrev grid : ℕ → List Cell
grid zero = []
grid (suc m) = row 18 m ++ grid m

contains-row : (n x y : ℕ) (rest : List Cell) → x < n → contains (row n y ++ rest) (x, y) ≡ true
unfolding contains same_cell
contains-row zero x y rest h = absurd (omega arith)
contains-row (suc n) x y rest h = elim (Bool-cases (n == x)) [
  | inl here ↦ ground arith
  | inr later ↦ rw (later) (contains-row n x y rest (ground arith))
]

contains_later :
    (front rest : List Cell) (c : Cell) → contains rest c ≡ true → contains (front ++ rest) c ≡ true
unfolding contains
contains_later [] rest c e = e
contains_later (d ∷ front) rest c e = elim (Bool-cases (same_cell d c)) [
  | inl here ↦ rw here refl
  | inr later ↦ rw later (contains_later front rest c e)
]

contains-grid : (m x y : ℕ) → x < cols → y < m → contains (grid m) (x, y) ≡ true
contains-grid zero x y h k = absurd (omega arith)
contains-grid (suc m) x y h k = elim (Bool-cases (y == m)) [
  | inl here ↦ rw ((==_iff y m).0 here) (contains-row 18 x m (grid m) h)
  | inr below ↦ contains_later (row 18 m) (grid m) (x, y) (contains-grid m x y h (ground arith))
]

abbrev full : SnakeState
full = record (new 0 5) { body = grid 18 }

place_food-none_example : place_food 1000 full ≡ none
place_food-none_example = place_food-none 1000 full (λ x y h k. contains-grid 18 x y h k)
