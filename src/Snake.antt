-- ===== src/Snake.antt =====
-- The game of Snake (src/snake.rs). An `i32` is its word of 32 bits: below 2 ^ 31 it is not
-- negative. The drawing and the log are left out; the file of the high score is the caller's.
mod Body
mod Play
mod Food
mod Tests
use Prim.Native.Nat.{bit_or, bit_xor}
use veil_os.Base.{◌>>=◌}
use veil_os.Base.{
  ℕ, zero, suc, ◌+◌, ◌-◌, ◌*◌, ◌/◌, ◌%◌, ◌^◌, ◌≤◌, ◌<◌, min, max, ◌≡◌, refl, sym, ap, ◌∙◌, ◌≢◌, ◌↔◌,
  ◌⊎◌, inl, inr, Bool, true, false, not, ◌&&◌, ◌||◌, List, [], ◌∷◌, ◌++◌, map, Option, none, some,
  arith, ltb, leb, ◌==◌, if◌then◌else◌, Bool-cases, lt→ltb, some_inj, replicate, get_elem?-lt,
  get_elem?-append, get_elem?-last, get_elem?-append_length, get_elem?-append_cases, length-take,
  length-drop, length-map, length-replicate, take-append-drop, take-append, leb→le, ltb→lt, ==_iff,
  Option-cases, length, length-append, length-set, get_elem?, set, get_or, take, drop,
}

abbrev pub cols : ℕ
cols = 18

abbrev pub rows : ℕ
rows = 18

-- -1.
abbrev pub minus_one : ℕ
minus_one = 2 ^ 32 - 1

abbrev pub Cell : Type 0
Cell = ℕ × ℕ

-- The head comes first.
pub record SnakeState : Type 0 where
  pub body : List Cell
  pub dir : Cell
  pub pending : Cell
  pub food : Cell
  pub score : ℕ
  pub high : ℕ
  pub over : Bool
  pub next_tick : ℕ
  pub rng : ℕ

abbrev pub start_body : List Cell
start_body = (9, 9) ∷ (8, 9) ∷ (7, 9) ∷ []

unfoldable pub new : ℕ → ℕ → SnakeState
new high ticks = record {
  body = start_body;
  dir = (1, 0);
  pending = (1, 0);
  food = (12, 9);
  score = 0;
  high = high;
  over = false;
  next_tick = 0;
  rng = bit_or ((ticks * 2654435761 + 12345) % 2 ^ 64) 1;
}

unfoldable pub same_cell : Cell → Cell → Bool
same_cell (x, y) (u, v) = (x == u) && (y == v)

unfoldable pub contains : List Cell → Cell → Bool
contains [] c = false
contains (d ∷ body) c = same_cell d c || contains body c

-- The number and the state of the generator after it are the same word.
unfoldable pub rand : ℕ → ℕ
rand x =
    let a = bit_xor x (x * 2 ^ 13 % 2 ^ 64) in
    let b = bit_xor a (a / 2 ^ 7) in bit_xor b (b * 2 ^ 17 % 2 ^ 64)

-- The loop ends only when it draws a free cell: `none` if no round of the fuel does.
unfoldable pub place_food : ℕ → SnakeState → Option SnakeState
place_food zero st = none
place_food (suc fuel) st =
    let r1 = rand st.rng in
    let r2 = rand r1 in
    let cell : Cell = (r1 % cols, r2 % rows) in
    let again = place_food fuel (record st { rng = r2 }) in
    if not (contains st.body cell) then some (record st { food = cell; rng = r2 }) else again

unfoldable pub restart : ℕ → SnakeState → Option SnakeState
restart fuel st =
    place_food fuel
      (record st { body = start_body; dir = (1, 0); pending = (1, 0); score = 0; over = false })

unfoldable pub add32 : ℕ → ℕ → ℕ
add32 a b = (a + b) % 2 ^ 32

unfoldable pub negate : ℕ → ℕ
negate a = (2 ^ 32 - a) % 2 ^ 32

-- `0 <= a && a < n` of the signed word.
unfoldable pub is_within : ℕ → ℕ → Bool
is_within n a = ltb a (2 ^ 31) && ltb a n

-- The pending direction, unless it turns back onto the neck.
unfoldable pub turn : SnakeState → SnakeState
turn st =
    let (dx, dy) = st.dir in
    if not (same_cell st.pending (negate dx, negate dy)) then record st { dir = st.pending } else st

unfoldable pub game_over : SnakeState → SnakeState
game_over st =
    if ltb st.high st.score
    then record st { over = true; high = st.score }
    else record st { over = true }

unfoldable pub pop : List Cell → List Cell
pop [] = []
pop (c ∷ []) = []
pop (c ∷ d ∷ body) = c ∷ pop (d ∷ body)

-- The snake goes on to a free cell.
unfoldable pub move_to : ℕ → SnakeState → Cell → Option SnakeState
move_to fuel st nh =
    if same_cell nh st.food
    then place_food fuel (record st { body = nh ∷ st.body; score = add32 st.score 1 })
    else some (record st { body = pop (nh ∷ st.body) })

unfoldable pub next_head : SnakeState → Cell → Cell
next_head st (x, y) = let (dx, dy) = st.dir in (add32 x dx, add32 y dy)

unfoldable pub is_free : SnakeState → Cell → Bool
is_free st (x, y) = is_within cols x && is_within rows y && not (contains st.body (x, y))

-- `none` is also the panic on an empty body.
unfoldable pub advance_from : ℕ → SnakeState → List Cell → Option SnakeState
advance_from fuel st [] = none
advance_from fuel st (head ∷ tail) =
    let nh : Cell = next_head st head in
    if is_free st nh then move_to fuel st nh else some (game_over st)

unfoldable pub advance : ℕ → SnakeState → Option SnakeState
advance fuel st = if st.over then some st else advance_from fuel (turn st) (turn st).body

-- The state after a key, and whether the key was taken.
unfoldable pub key : ℕ → SnakeState → ℕ → Option (SnakeState × Bool)
key fuel st code =
    if code == 105 || code == 30
    then some (record st { pending = (minus_one, 0) }, true)
    else if code == 106 || code == 32
    then some (record st { pending = (1, 0) }, true)
    else if code == 103 || code == 17
    then some (record st { pending = (0, minus_one) }, true)
    else if code == 108 || code == 31
    then some (record st { pending = (0, 1) }, true)
    else if (code == 19) && st.over
    then (restart fuel st >>= λ st'. some (st', true))
    else some (st, false)

unfoldable pub tick : ℕ → SnakeState → ℕ → Option (SnakeState × Bool)
tick fuel st now =
    if st.over || ltb now st.next_tick
    then some (st, false)
    else (advance fuel (record st { next_tick = (now + 7) % 2 ^ 64 }) >>= λ st'. some (st', true))
