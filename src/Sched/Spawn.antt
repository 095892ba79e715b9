-- ===== src/Sched/Spawn.antt =====
-- New tasks (src/scheduler.rs): `spawn` and `spawn_kernel`.
use veil_os.Base.{
  Bool, true, false, some_inj, ℕ, zero, suc, ◌+◌, ◌^◌, ◌<◌, ◌≡◌, refl, sym, ◌∙◌, inl, inr, List, [],
  ◌∷◌, Option, none, some, arith, ◌==◌, if◌then◌else◌, Option-cases,
}
use mathlib.Core.Path.{subst}
use veil_os.Base.{bind_some}
use veil_os.Base.Word.{add64, add64_lem}
use veil_os.Paging.{Machine, clone_kernel}
use veil_os.Sched.{
  Bytes, Linked, ready, Task, Kernel, task_at, place, spawn, spawn_kernel, add_task, alloc_kstack,
  load_pages, load_stack, ustack_pages,
}
use veil_os.Sched.Slots.{task_at-nil, task_at-zero, task_at-suc}
use veil_os.Sched.Yield.{IsScheduled}

-- One slot of the table has changed, from `before` to `after`.
pub record Changed (l : List (Option Task)) (before after : Option Task) (l' : List (Option Task))
    : Type 0 where
  pub at : ℕ
  pub old : task_at l at ≡ before
  pub new : (x : ℕ) → task_at l' x ≡ (if at == x then after else task_at l x)

pub Changed-cons :
    (o : Option Task) (l l' : List (Option Task)) {before after : Option Task}
    → (c : Changed l before after l')
    → (d : Changed (o ∷ l) before after (o ∷ l')) × (d.at ≡ suc c.at)
Changed-cons o l l' {before} {after} c =
    (record { at = suc c.at; old = task_at-suc o l c.at ∙ c.old; new = read }, refl)
  where
    read : (x : ℕ) → task_at (o ∷ l') x ≡ (if suc c.at == x then after else task_at (o ∷ l) x)
    read zero = ground (arith, task_at-zero o l', task_at-zero o l)
    read (suc x) = ground (arith, task_at-suc o l' x, task_at-suc o l x, c.new x)

pub Changed-head :
    (o o' : Option Task) (l : List (Option Task)) → (d : Changed (o ∷ l) o o' (o' ∷ l)) × (d.at ≡ 0)
Changed-head o o' l = (record { at = 0; old = task_at-zero o l; new = read }, refl)
  where
    read : (x : ℕ) → task_at (o' ∷ l) x ≡ (if 0 == x then o' else task_at (o ∷ l) x)
    read zero = task_at-zero o' l
    read (suc x) = ground (arith, task_at-suc o' l x, task_at-suc o l x)

pub place-Changed : (l : List (Option Task)) (t : Task) → Changed l none (some t) (place l t)
unfolding place
place-Changed [] t = record { at = 0; old = task_at-nil 0; new = read }
  where
    read : (x : ℕ) → task_at (some t ∷ []) x ≡ (if 0 == x then some t else task_at [] x)
    read zero = task_at-zero (some t) []
    read (suc x) = ground (arith, task_at-suc (some t) [] x, task_at-nil x, task_at-nil (suc x))
place-Changed (none ∷ l) t = (Changed-head none (some t) l).0
place-Changed (some u ∷ l) t = (Changed-cons (some u) l (place l t) (place-Changed l t)).0

-- A fresh ready task in an empty slot.
record Placed (k : Kernel) (pid : ℕ) (k' : Kernel) : Type 0 where
  task : Task
  machine : Machine
  pid_of : task.pid ≡ k.next_pid
  ready_now : task.state ≡ ready
  returned : pid ≡ k.next_pid
  result :
      k' ≡ record k { machine = machine; next_pid = add64 k.next_pid 1; tasks = place k.tasks task }

-- What a call answers: none, with nothing but the machine changed, or a fresh task.
abbrev Answered : Kernel → Option ℕ → Kernel → Type 0
Answered k none k' = (m : Machine) × (k' ≡ record k { machine = m })
Answered k (some pid) k' = Placed k pid k'

-- The same of a result.
abbrev Adds : Kernel → Option ℕ × Kernel → Type 0
Adds k (answer, k') = Answered k answer k'

spawn_kernel-Adds :
    (linked : Linked) (k : Kernel) (name : Bytes) (entry : ℕ)
    → Adds k (spawn_kernel linked k name entry)
unfolding spawn_kernel
spawn_kernel-Adds linked k name entry = elim (Option-cases (alloc_kstack k.machine)) [
  | inl full ↦ rw (full, spawn_kernel) (k.machine, refl)
  | inr ((kstack, m), got) ↦
      rw (got, spawn_kernel)
        (record {
          task = _;
          machine = m;
          pid_of = refl;
          ready_now = refl;
          returned = refl;
          result = refl;
        })
]

add_task-Adds :
    (linked : Linked) (k : Kernel) (name args : Bytes) (root : ℕ) (m : Machine)
    → Adds k (add_task linked k name args root m)
unfolding add_task
add_task-Adds linked k name args root m = elim (Option-cases (alloc_kstack m)) [
  | inl full ↦ rw (full, add_task) (m, refl)
  | inr ((kstack, m1), got) ↦
      rw (got, add_task)
        (record {
          task = _;
          machine = m1;
          pid_of = refl;
          ready_now = refl;
          returned = refl;
          result = refl;
        })
]

if-Adds :
    (k : Kernel) (b : Bool) (x y : Option ℕ × Kernel)
    → Adds k x
    → Adds k y
    → Adds k (if b then x else y)
if-Adds k true x y p q = p
if-Adds k false x y p q = q

spawn-Adds :
    (linked : Linked) (k : Kernel) (bin name args : Bytes) {r : Option ℕ × Kernel}
    → spawn linked k bin name args ≡ some r
    → Adds k r
unfolding spawn
spawn-Adds linked k bin name args e =
    let ((root, m1), got1, e1) = bind_some (clone_kernel k.machine k.kernel_root) _ e in
    let ((loaded, m2), got2, e2) = bind_some (load_pages m1 root bin 0 _) _ e1 in
    let ((stacked, m3), got3, e3) =
      bind_some {A = Bool × Machine}
        (if loaded then load_stack m2 root 0 ustack_pages else some (false, m2)) _ e2 in
    subst (Adds k) (some_inj e3)
      (if-Adds k stacked _ _ (add_task-Adds linked k name args root m3) (m3, refl))

-- What a new task finds: it is ready in one slot that was empty, with the next pid, and the other
-- tasks are as they were.
pub record Spawned (k : Kernel) (pid : ℕ) (k' : Kernel) : Type 0 where
  pub task : Task
  pub changed : Changed k.tasks none (some task) k'.tasks
  pub named : task.pid ≡ pid
  pub ready_now : task.state ≡ ready
  pub same_current : k'.current ≡ k.current
  pub scheduled : IsScheduled k'

Placed-IsScheduled :
    (k : Kernel) (v : IsScheduled k) (task : Task) (machine : Machine)
    → task.pid ≡ k.next_pid
    → task.state ≡ ready
    → k.next_pid + 1 < 2 ^ 64
    → IsScheduled
        (record k { machine = machine; next_pid = add64 k.next_pid 1; tasks = place k.tasks task })
Placed-IsScheduled k v task machine p r h =
    let c = place-Changed k.tasks task in
    let next = add64_lem k.next_pid 1 h in
    record {
      me = v.me;
      here = ground (arith, c.new k.current, c.old, v.here);
      running_here = v.running_here;
      alone = λ i t e q. ground (arith, c.new i, v.alone i t);
      fresh = λ i t e. ground (arith, c.new i, v.fresh i t, next);
      distinct = λ i j t u e f q.
          ground (arith, c.new i, c.new j, v.distinct i j t u, v.fresh i t, v.fresh j u);
    }

Placed-Spawned :
    (k : Kernel) (v : IsScheduled k) (pid : ℕ) (k' : Kernel)
    → k.next_pid + 1 < 2 ^ 64
    → Placed k pid k'
    → Spawned k pid k'
Placed-Spawned k v pid k' h s = rw s.result (record {
  task = s.task;
  changed = place-Changed k.tasks s.task;
  named = s.pid_of ∙ sym s.returned;
  ready_now = s.ready_now;
  same_current = refl;
  scheduled = Placed-IsScheduled k v s.task s.machine s.pid_of s.ready_now h;
})

-- What a spawn leaves: a new task, or a kernel of the same kind that differs in its machine alone.
abbrev pub HasSpawned : Kernel → Option ℕ → Kernel → Type 0
HasSpawned k none k' = ((m : Machine) × (k' ≡ record k { machine = m })) × IsScheduled k'
HasSpawned k (some pid) k' = Spawned k pid k'

Answered-HasSpawned :
    (k : Kernel) (v : IsScheduled k) (answer : Option ℕ) (k' : Kernel)
    → k.next_pid + 1 < 2 ^ 64
    → Answered k answer k'
    → HasSpawned k answer k'
Answered-HasSpawned k v none k' h (m, same) = (
  (m, same),
  rw same (record {
    me = v.me;
    here = v.here;
    running_here = v.running_here;
    alone = v.alone;
    fresh = v.fresh;
    distinct = v.distinct;
  }),
)
Answered-HasSpawned k v (some pid) k' h s = Placed-Spawned k v pid k' h s

-- From a state with one running task, in the current slot, and pids that are distinct and all
-- below the pid counter, and while the pid counter does not wrap, a spawn that does not panic
-- either returns a pid, and has added one ready task under it to a slot that was empty and changed
-- no other slot; or it returns None, and only frames and memory have changed. Either way the state
-- is again of that kind.
pub spawn-Spawned :
    (linked : Linked) (k : Kernel) (bin name args : Bytes) {answer : Option ℕ} {k' : Kernel}
    → IsScheduled k
    → k.next_pid + 1 < 2 ^ 64
    → spawn linked k bin name args ≡ some (answer, k')
    → HasSpawned k answer k'
spawn-Spawned linked k bin name args {answer} {k'} v h e =
    Answered-HasSpawned k v answer k' h (spawn-Adds linked k bin name args e)

-- The same of spawn_kernel, which never panics.
spawn_kernel-Spawned :
    (linked : Linked) (k : Kernel) (name : Bytes) (entry : ℕ)
    → IsScheduled k
    → k.next_pid + 1 < 2 ^ 64
    → HasSpawned k (spawn_kernel linked k name entry).0 (spawn_kernel linked k name entry).1
spawn_kernel-Spawned linked k name entry v h =
    Answered-HasSpawned k v _ _ h (spawn_kernel-Adds linked k name entry)
