-- ===== src/Snake/Food.antt =====
-- The search for a free cell (src/snake.rs).
use veil_os.Snake.{SnakeState, cols, rows, contains, rand, place_food}
use veil_os.Base.{ℕ, zero, suc, ◌%◌, ◌<◌, ◌≡◌, refl, true, none, arith}

-- When the snake is on every cell of the grid, place_food places nothing in any number of rounds,
-- whatever the generator draws.
pub place_food-none :
    (fuel : ℕ) (st : SnakeState)
    → ((x y : ℕ) → x < cols → y < rows → contains st.body (x, y) ≡ true)
    → place_food fuel st ≡ none
unfolding place_food
place_food-none zero st full = refl
place_food-none (suc fuel) st full =
    let r1 = rand st.rng in
    let r2 = rand r1 in
    rw (full (r1 % cols) (r2 % rows) (omega arith) (omega arith))
      (place_food-none fuel (record st { rng = r2 }) full)
