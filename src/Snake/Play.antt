-- ===== src/Snake/Play.antt =====
-- What the rules of Snake keep (src/snake.rs).
use veil_os.Snake.{
  Cell, SnakeState, cols, rows, new, same_cell, contains, rand, place_food, restart, add32,
  is_within, turn, negate, game_over, move_to, next_head, is_free, advance_from, advance, key, tick,
}
use veil_os.Base.{◌>>=◌}
use veil_os.Snake.Body.{
  InGrid, Distinct, start_InGrid, start_Distinct, InGrid-pop, Distinct-pop, length-pop,
}
use veil_os.Base.{
  ℕ, zero, suc, ◌+◌, ◌%◌, ◌^◌, ◌≤◌, ◌<◌, ◌≡◌, refl, sym, ap, ◌∙◌, inl, inr, Bool, true, false, not,
  ◌&&◌, ◌||◌, List, [], ◌∷◌, Option, none, some, arith, ltb, ◌==◌, if◌then◌else◌, Bool-cases,
  some_inj, length,
}

-- The snake is in the grid, on no cell twice, and as long as the score says; the high score of a
-- game that is over is at least its score.
pub record IsValid (st : SnakeState) : Type 0 where
  pub in_grid : InGrid st.body
  pub distinct : Distinct st.body
  pub counted : length st.body % 2 ^ 32 ≡ (st.score + 3) % 2 ^ 32
  pub recorded : st.over ≡ true → st.score ≤ st.high

pub new-IsValid : (high ticks : ℕ) → IsValid (new high ticks)
unfolding new
new-IsValid high ticks = record {
  in_grid = start_InGrid;
  distinct = start_Distinct;
  counted = refl;
  recorded = λ over. absurd (cc);
}

record Placed (st st' : SnakeState) : Type 0 where
  same_body : st'.body ≡ st.body
  same_score : st'.score ≡ st.score
  same_high : st'.high ≡ st.high
  same_over : st'.over ≡ st.over

place_food-Placed :
    (fuel : ℕ) (st : SnakeState) {st' : SnakeState} → place_food fuel st ≡ some st' → Placed st st'
unfolding place_food
place_food-Placed zero st e = absurd (cc)
place_food-Placed (suc fuel) st {st'} e =
    let r1 = rand st.rng in
    let r2 = rand r1 in
    elim (Bool-cases (not (contains st.body (r1 % cols, r2 % rows)))) [
      | inl free ↦
          let same = some_inj (rw free at e) in
          record {
            same_body = ap (λ s. s.body) (sym same);
            same_score = ap (λ s. s.score) (sym same);
            same_high = ap (λ s. s.high) (sym same);
            same_over = ap (λ s. s.over) (sym same);
          }
      | inr taken ↦
          let later = place_food-Placed fuel (record st { rng = r2 }) (rw taken at e) in
          record {
            same_body = later.same_body;
            same_score = later.same_score;
            same_high = later.same_high;
            same_over = later.same_over;
          }
    ]

Placed-IsValid : (st st' : SnakeState) → Placed st st' → IsValid st → IsValid st'
Placed-IsValid st st' p v = record {
  in_grid = rw p.same_body v.in_grid;
  distinct = rw p.same_body v.distinct;
  counted = rw (p.same_body, p.same_score) v.counted;
  recorded = rw (p.same_over, p.same_score, p.same_high) v.recorded;
}

is_free_lem :
    (st : SnakeState) (x y : ℕ)
    → is_free st (x, y) ≡ true
    → (x < cols) × (y < rows) × (contains st.body (x, y) ≡ false)
unfolding is_free is_within
is_free_lem st x y e = elim (Bool-cases (contains st.body (x, y))) [
  | inl taken ↦ let impossible = rw taken at e in absurd (ground arith)
  | inr free ↦ (ground arith, ground arith, free)
]

move_to-IsValid :
    (fuel : ℕ) (st : SnakeState) (nh : Cell) {st' : SnakeState}
    → IsValid st
    → is_free st nh ≡ true
    → st.over ≡ false
    → move_to fuel st nh ≡ some st'
    → IsValid st'
unfolding move_to add32
move_to-IsValid fuel st (x, y) {st'} v free going e =
    let (sx, sy, once) = is_free_lem st x y free in
    elim (Bool-cases (same_cell (x, y) st.food)) [
      | inl eaten ↦
          Placed-IsValid (record st { body = (x, y) ∷ st.body; score = (st.score + 1) % 2 ^ 32 })
            st' (place_food-Placed fuel _ (rw eaten at e))
            (record {
              in_grid = unfold InGrid in (sx, sy, v.in_grid);
              distinct = unfold Distinct in (once, v.distinct);
              counted = omega (arith, v.counted);
              recorded = λ over. absurd (cc);
            })
      | inr hungry ↦ rw (sym (some_inj (rw hungry at e))) (record {
        in_grid = InGrid-pop ((x, y) ∷ st.body) (unfold InGrid in (sx, sy, v.in_grid));
        distinct = Distinct-pop ((x, y) ∷ st.body) (unfold Distinct in (once, v.distinct));
        counted = ap (λ n. n % 2 ^ 32) (length-pop (x, y) st.body) ∙ v.counted;
        recorded = λ over. absurd (cc);
      })
    ]

turn-IsValid : (st : SnakeState) → IsValid st → IsValid (turn st) × ((turn st).over ≡ st.over)
unfolding turn
turn-IsValid st v =
    let (dx, dy) = st.dir in
    elim (Bool-cases (not (same_cell st.pending (negate dx, negate dy)))) [
      | inl turns ↦ rw turns (
        record {
          in_grid = v.in_grid;
          distinct = v.distinct;
          counted = v.counted;
          recorded = v.recorded;
        },
        refl,
      )
      | inr back ↦ rw back (v, refl)
    ]

game_over-IsValid : (st : SnakeState) → IsValid st → IsValid (game_over st)
unfolding game_over
game_over-IsValid st v = elim (Bool-cases (ltb st.high st.score)) [
  | inl better ↦ rw better (record {
    in_grid = v.in_grid;
    distinct = v.distinct;
    counted = v.counted;
    recorded = λ over. omega arith;
  })
  | inr worse ↦ rw worse (record {
    in_grid = v.in_grid;
    distinct = v.distinct;
    counted = v.counted;
    recorded = λ over. ground arith;
  })
]

advance_from-IsValid :
    (fuel : ℕ) (st : SnakeState) (body : List Cell) {st' : SnakeState}
    → IsValid st
    → st.over ≡ false
    → advance_from fuel st body ≡ some st'
    → IsValid st'
unfolding advance_from
advance_from-IsValid fuel st [] v going e = absurd (cc)
advance_from-IsValid fuel st (head ∷ tail) v going e =
    elim (Bool-cases (is_free st (next_head st head))) [
      | inl free ↦ move_to-IsValid fuel st (next_head st head) v free going (rw free at e)
      | inr hit ↦ rw (sym (some_inj (rw hit at e))) (game_over-IsValid st v)
    ]

pub advance-IsValid :
    (fuel : ℕ) (st : SnakeState) {st' : SnakeState}
    → IsValid st
    → advance fuel st ≡ some st'
    → IsValid st'
unfolding advance
advance-IsValid fuel st v e = elim (Bool-cases st.over) [
  | inl over ↦
      let still =
        ap (λ b. if b then some st else advance_from fuel (turn st) (turn st).body) over in
      rw (sym (some_inj (sym still ∙ e))) v
  | inr going ↦
      let (turned, same) = turn-IsValid st v in
      let goes_on =
        ap (λ b. if b then some st else advance_from fuel (turn st) (turn st).body) going in
      advance_from-IsValid fuel (turn st) (turn st).body turned (same ∙ going) (sym goes_on ∙ e)
]

restart-IsValid :
    (fuel : ℕ) (st : SnakeState) {st' : SnakeState} → restart fuel st ≡ some st' → IsValid st'
unfolding restart
restart-IsValid fuel st {st'} e = Placed-IsValid _ st' (place_food-Placed fuel _ e) (record {
  in_grid = start_InGrid;
  distinct = start_Distinct;
  counted = refl;
  recorded = λ over. absurd (cc);
})

-- The state that a bind gives, when the whole gives one.
bind-some :
    (o : Option SnakeState) (taken : Bool) {w : SnakeState × Bool}
    → (o >>= λ st. some (st, taken)) ≡ some w
    → o ≡ some w.0
bind-some none taken e = absurd (cc)
bind-some (some st) taken e = ap (λ w. some w.0) (some_inj e)

-- A key, or a tick of the clock.
pub data Event : Type 0 where
  pressed : ℕ → Event
  ticked : ℕ → Event

unfoldable pub respond : ℕ → SnakeState → Event → Option (SnakeState × Bool)
respond fuel st (pressed code) = key fuel st code
respond fuel st (ticked now) = tick fuel st now

pending_only :
    (st : SnakeState) (d : Cell) {w : SnakeState × Bool}
    → IsValid st
    → ◌≡◌ {A = Option (SnakeState × Bool)} (some (record st { pending = d }, true)) (some w)
    → IsValid w.0
pending_only st d v e = rw (sym (ap (λ p. p.0) (some_inj e))) (record {
  in_grid = v.in_grid;
  distinct = v.distinct;
  counted = v.counted;
  recorded = v.recorded;
})

key-IsValid :
    (fuel : ℕ) (st : SnakeState) (code : ℕ) {w : SnakeState × Bool}
    → IsValid st
    → key fuel st code ≡ some w
    → IsValid w.0
unfolding key
key-IsValid fuel st code v e = elim (Bool-cases (code == 105 || code == 30)) [
  | inl left ↦ pending_only st _ v (rw left at e)
  | inr k1 ↦ elim (Bool-cases (code == 106 || code == 32)) [
    | inl right ↦ pending_only st _ v (rw (k1, right) at e)
    | inr k2 ↦ elim (Bool-cases (code == 103 || code == 17)) [
      | inl up ↦ pending_only st _ v (rw (k1, k2, up) at e)
      | inr k3 ↦ elim (Bool-cases (code == 108 || code == 31)) [
        | inl down ↦ pending_only st _ v (rw (k1, k2, k3, down) at e)
        | inr k4 ↦ elim (Bool-cases ((code == 19) && st.over)) [
          | inl again ↦
              restart-IsValid fuel st
                (bind-some (restart fuel st) true (rw (k1, k2, k3, k4, again) at e))
          | inr other ↦ rw (sym (ap (λ p. p.0) (some_inj (rw (k1, k2, k3, k4, other) at e)))) v
        ]
      ]
    ]
  ]
]

tick-IsValid :
    (fuel : ℕ) (st : SnakeState) (now : ℕ) {w : SnakeState × Bool}
    → IsValid st
    → tick fuel st now ≡ some w
    → IsValid w.0
unfolding tick
tick-IsValid fuel st now v e = elim (Bool-cases (st.over || ltb now st.next_tick)) [
  | inl waits ↦ rw (sym (ap (λ p. p.0) (some_inj (rw waits at e)))) v
  | inr goes ↦
      let next = record st { next_tick = (now + 7) % 2 ^ 64 } in
      advance-IsValid fuel next
        (record {
          in_grid = v.in_grid;
          distinct = v.distinct;
          counted = v.counted;
          recorded = v.recorded;
        })
        (bind-some (advance fuel next) true (rw goes at e))
]

-- A key or a tick of the clock that ends keeps the game valid: every cell of the snake is in the
-- grid, no cell is on it twice, its length is the score and three modulo 2^32, and when the game
-- is over the high score is at least the score.
pub respond-IsValid :
    (fuel : ℕ) (st : SnakeState) (event : Event) {w : SnakeState × Bool}
    → IsValid st
    → respond fuel st event ≡ some w
    → IsValid w.0
unfolding respond
respond-IsValid fuel st (pressed code) v e = key-IsValid fuel st code v e
respond-IsValid fuel st (ticked now) v e = tick-IsValid fuel st now v e
