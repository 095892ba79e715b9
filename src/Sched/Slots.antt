-- ===== src/Sched/Slots.antt =====
-- The task table (src/scheduler.rs): its slots read and written.
use veil_os.Base.{
  ℕ, zero, suc, ◌<◌, ◌≡◌, refl, sym, ◌∙◌, true, List, [], ◌∷◌, Option, none, some, arith, ◌==◌,
  if◌then◌else◌, length, set,
}
use veil_os.Sched.{ready, Task, task_at, is_ready}

pub task_at-nil : (i : ℕ) → task_at [] i ≡ none
unfolding task_at
task_at-nil i = refl

pub task_at-zero : (o : Option Task) (rest : List (Option Task)) → task_at (o ∷ rest) 0 ≡ o
unfolding task_at
task_at-zero o rest = refl

pub task_at-suc :
    (o : Option Task) (rest : List (Option Task)) (i : ℕ)
    → task_at (o ∷ rest) (suc i) ≡ task_at rest i
unfolding task_at
task_at-suc o rest i = refl

-- A task is in a slot of the table.
pub task_at-lt : (l : List (Option Task)) (i : ℕ) {t : Task} → task_at l i ≡ some t → i < length l
task_at-lt [] i e = absurd (cc (task_at-nil i))
task_at-lt (o ∷ l) zero e = omega arith
task_at-lt (o ∷ l) (suc i) e = omega (arith, task_at-lt l i (sym (task_at-suc o l i) ∙ e))

-- A slot that is written reads as written, and the others as before.
pub task_at-set :
    (l : List (Option Task)) (i : ℕ) (v : Option Task) (j : ℕ)
    → i < length l
    → task_at (set l i v) j ≡ (if i == j then v else task_at l j)
task_at-set [] i v j h = absurd (omega arith)
task_at-set (o ∷ l) zero v zero h = task_at-zero v l
task_at-set (o ∷ l) zero v (suc j) h = ground (arith, task_at-suc v l j, task_at-suc o l j)
task_at-set (o ∷ l) (suc i) v zero h = ground (arith, task_at-zero o (set l i v), task_at-zero o l)
task_at-set (o ∷ l) (suc i) v (suc j) h =
    ground
      (arith, task_at-suc o (set l i v) j, task_at-suc o l j, task_at-set l i v j (omega arith))

pub ready_iff :
    (l : List (Option Task)) (i : ℕ)
    → is_ready l i ≡ true
    → (t : Task) × (task_at l i ≡ some t) × (t.state ≡ ready)
unfolding is_ready
ready_iff l i h = ready_of (task_at l i) refl
  where
    ready_of :
        (o : Option Task)
        → task_at l i ≡ o
        → (t : Task) × (task_at l i ≡ some t) × (t.state ≡ ready)
    ready_of none e = absurd (ground arith)
    ready_of (some t) e = (t, e, ground arith)

pub is_ready-some :
    (l : List (Option Task)) (i : ℕ) (t : Task)
    → task_at l i ≡ some t
    → t.state ≡ ready
    → is_ready l i ≡ true
unfolding is_ready
is_ready-some l i t e s = ground arith
