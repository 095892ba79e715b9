-- ===== src/Sched/Reap.antt =====
-- Dead tasks (src/scheduler.rs): `reap`.
use veil_os.Base.{◌≢◌, ℕ, ◌<◌, ◌≡◌, List, Option, none, some}
use veil_os.Sched.{zombie, Task, task_at}
use veil_os.Sched.Spawn.{Changed}

-- The slot holds no zombie.
abbrev pub NoZombie : List (Option Task) → ℕ → Type 0
NoZombie l i = (t : Task) (code : ℕ) → task_at l i ≡ some t → t.state ≢ zombie code

-- What `reap` takes out of the table: the first zombie.
pub record Buried (l : List (Option Task)) (t : Task) (code : ℕ) (l' : List (Option Task))
    : Type 0 where
  pub dead : t.state ≡ zombie code
  pub changed : Changed l (some t) none l'
  pub first : (i : ℕ) → i < changed.at → NoZombie l i

abbrev Taken : Type 0
Taken = Task × ℕ × List (Option Task)
