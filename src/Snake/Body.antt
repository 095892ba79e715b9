-- ===== src/Snake/Body.antt =====
-- The cells of the snake, and what `pop` leaves of them (src/snake.rs).
use veil_os.Snake.{Cell, start_body, cols, rows, same_cell, contains, pop}
use veil_os.Base.{
  suc, ◌≤◌, ◌<◌, ◌≡◌, refl, ap, Bool, true, false, ◌||◌, List, [], ◌∷◌, arith, length,
}

unfoldable pub InGrid : List Cell → Type 0
InGrid [] = 0 ≤ 0
InGrid ((x, y) ∷ body) = (x < cols) × (y < rows) × InGrid body

unfoldable pub Distinct : List Cell → Type 0
Distinct [] = 0 ≤ 0
Distinct (c ∷ body) = (contains body c ≡ false) × Distinct body

pub start_InGrid : InGrid start_body
unfolding InGrid
start_InGrid =
    (omega arith, omega arith, (omega arith, omega arith, (omega arith, omega arith, omega arith)))

pub start_Distinct : Distinct start_body
unfolding Distinct contains same_cell
start_Distinct = (refl, (refl, (refl, omega arith)))

pub InGrid-pop : (body : List Cell) → InGrid body → InGrid (pop body)
unfolding InGrid pop
InGrid-pop [] s = s
InGrid-pop (c ∷ []) s = omega arith
InGrid-pop ((x, y) ∷ d ∷ body) (sx, sy, s) = (sx, sy, InGrid-pop (d ∷ body) s)

or_false : (a b : Bool) → (a || b) ≡ false → (a ≡ false) × (b ≡ false)
or_false true b e = absurd (cc)
or_false false b e = (refl, e)

pub contains-pop :
    (body : List Cell) (c : Cell) → contains body c ≡ false → contains (pop body) c ≡ false
unfolding contains pop
contains-pop [] c e = e
contains-pop (d ∷ []) c e = refl
contains-pop (d ∷ d' ∷ body) c e =
    let (here, later) = or_false (same_cell d c) (contains (d' ∷ body) c) e in
    rw here (contains-pop (d' ∷ body) c later)

pub Distinct-pop : (body : List Cell) → Distinct body → Distinct (pop body)
unfolding Distinct pop
Distinct-pop [] s = s
Distinct-pop (c ∷ []) s = omega arith
Distinct-pop (c ∷ d ∷ body) (once, s) = (contains-pop (d ∷ body) c once, Distinct-pop (d ∷ body) s)

pub length-pop : (c : Cell) (body : List Cell) → length (pop (c ∷ body)) ≡ length body
unfolding pop
length-pop c [] = refl
length-pop c (d ∷ body) = ap suc (length-pop d body)
