-- ===== src/Sched/Yield.antt =====
-- Switching tasks (src/scheduler.rs): one task runs, and each gets its registers back.
use veil_os.Base.{
  ℕ, zero, suc, ◌<◌, ◌≡◌, refl, sym, ap, ◌∙◌, ◌≢◌, inl, inr, List, [], ◌∷◌, Option, some, arith,
  ◌==◌, if◌then◌else◌, Bool-cases, length, length-set, set,
}
use veil_os.Sched.{
  ready, running, Task, Context, Kernel, task_at, pick_next, switch_to, paused, yield_now,
}
use veil_os.Sched.Slots.{task_at-lt, task_at-set}

-- The current slot holds the one running task, and pids are distinct and below the next one.
pub record IsScheduled (k : Kernel) : Type 0 where
  pub me : Task
  pub here : task_at k.tasks k.current ≡ some me
  pub running_here : me.state ≡ running
  pub alone : (i : ℕ) (t : Task) → task_at k.tasks i ≡ some t → t.state ≡ running → i ≡ k.current
  pub fresh : (i : ℕ) (t : Task) → task_at k.tasks i ≡ some t → t.pid < k.next_pid
  pub distinct :
      (i j : ℕ) (t u : Task)
      → task_at k.tasks i ≡ some t
      → task_at k.tasks j ≡ some u
      → t.pid ≡ u.pid
      → i ≡ j

-- The result of a switch to the ready task `t` in `next`, with the slots as they are left.
abbrev pub switched : Kernel → List (Option Task) → ℕ → Task → Kernel
switched k slots next t = record k {
  tasks = set slots next (some (record t { state = running }));
  current = next;
  ttbr0 = t.root;
  regs = t.ctx;
}

-- A task that leaves the processor for another.
abbrev pub paused_task : Task → Context → Task
paused_task t regs = record t { state = ready; ctx = regs }

set_twice : (l : List (Option Task)) (i : ℕ) (u v : Option Task) → set (set l i u) i v ≡ set l i v
set_twice [] i u v = refl
set_twice (o ∷ l) zero u v = refl
set_twice (o ∷ l) (suc i) u v = ap (◌∷◌ o) (set_twice l i u v)

set_swap :
    (l : List (Option Task)) (i j : ℕ) (u v : Option Task)
    → i ≢ j
    → set (set l i u) j v ≡ set (set l j v) i u
set_swap [] i j u v h = refl
set_swap (o ∷ l) zero zero u v h = absurd (h refl)
set_swap (o ∷ l) zero (suc j) u v h = refl
set_swap (o ∷ l) (suc i) zero u v h = refl
set_swap (o ∷ l) (suc i) (suc j) u v h = ap (◌∷◌ o) (set_swap l i j u v (λ e. h (ap suc e)))

pub task_at-set_ne :
    (l : List (Option Task)) (i j : ℕ) (v : Option Task) {t : Task}
    → i ≢ j
    → task_at l i ≡ some t
    → task_at (set l i v) j ≡ task_at l j
task_at-set_ne l i j v h e = ground (arith, task_at-set l i v j, task_at-lt l i e)

pub task_at-set_same :
    (l : List (Option Task)) (i : ℕ) (v : Option Task) {t : Task}
    → task_at l i ≡ some t
    → task_at (set l i v) i ≡ v
task_at-set_same l i v e = ground (arith, task_at-set l i v i, task_at-lt l i e)

switch_to-some :
    (k : Kernel) (next cur : ℕ) (t u : Task)
    → task_at k.tasks next ≡ some t
    → task_at k.tasks cur ≡ some u
    → cur ≢ next
    → switch_to k next (some cur)
      ≡ some (switched k (set k.tasks cur (some (record u { ctx = k.regs }))) next t)
unfolding switch_to
switch_to-some k next cur t u e f ne =
    let b : Option Task = some (record t { state = running }) in
    let c : Option Task = some (record u { ctx = k.regs }) in
    let at_cur : task_at (set k.tasks next b) cur ≡ some u =
      task_at-set_ne k.tasks next cur b (λ q. ne (sym q)) e ∙ f in
    let at_next : task_at (set (set k.tasks next b) cur c) next ≡ b =
      task_at-set_ne (set k.tasks next b) cur next c ne at_cur
      ∙ task_at-set_same k.tasks next b e in
    rw e (rw at_cur (rw at_next (ap some (cc (set_swap k.tasks next cur b c (λ q. ne (sym q)))))))

yield_now-switch_to :
    (k : Kernel) (next : ℕ) (u : Task)
    → pick_next k k.current ≡ some next
    → task_at k.tasks k.current ≡ some u
    → yield_now k
      ≡ switch_to
          (record k { tasks = set k.tasks k.current (some (record u { state = paused u.state })) })
          next
          (some k.current)
unfolding yield_now
yield_now-switch_to k next u p e = rw (p, yield_now) (rw e)

-- A yield with a ready task to go to.
pub yield_now-some :
    (k : Kernel) (next : ℕ) (t u : Task)
    → pick_next k k.current ≡ some next
    → task_at k.tasks k.current ≡ some u
    → u.state ≡ running
    → task_at k.tasks next ≡ some t
    → k.current ≢ next
    → yield_now k ≡ some (switched k (set k.tasks k.current (some (paused_task u k.regs))) next t)
unfolding paused
yield_now-some k next t u p here run e ne =
    let a : Option Task = some (record u { state = paused u.state }) in
    let k1 : Kernel = record k { tasks = set k.tasks k.current a } in
    let at_next : task_at (set k.tasks k.current a) next ≡ some t =
      task_at-set_ne k.tasks k.current next a ne here ∙ e in
    let at_cur : task_at (set k.tasks k.current a) k.current ≡ a =
      task_at-set_same k.tasks k.current a here in
    let is_ready_now : paused u.state ≡ ready = rw run refl in
    yield_now-switch_to k next u p here
    ∙ switch_to-some k1 next k.current t (record u { state = paused u.state }) at_next at_cur ne
    ∙ rw (set_twice, is_ready_now) refl

-- Two writes, read.
two_writes :
    (l : List (Option Task)) (i j x : ℕ) (u v : Option Task)
    → i < length l
    → j < length l
    → task_at (set (set l i u) j v) x ≡ (if j == x then v else if i == x then u else task_at l x)
two_writes l i j x u v h k =
    ground (arith, task_at-set l i u x h, task_at-set (set l i u) j v x, length-set l i u)

-- A switch from the task `u`, left as `u'`, to the task `t` keeps one task running.
module _ (k : Kernel) (v : IsScheduled k) (u' : Task) (next : ℕ) (t : Task)
    (same_pid : u'.pid ≡ v.me.pid) (stopped : u'.state ≢ running)
    (e : task_at k.tasks next ≡ some t) (ne : k.current ≢ next) where
  abbrev pub after : Kernel
  after = switched k (set k.tasks k.current (some u')) next t

  pub slot :
      (x : ℕ)
      → task_at after.tasks x ≡ (
          if next == x
          then some (record t { state = running })
          else if k.current == x
          then some u'
          else task_at k.tasks x)
  slot x =
      two_writes k.tasks k.current next x (some u') (some (record t { state = running }))
        (task_at-lt k.tasks k.current v.here) (task_at-lt k.tasks next e)

  origin :
      (x : ℕ) (s : Task)
      → task_at after.tasks x ≡ some s
      → (s0 : Task) × (task_at k.tasks x ≡ some s0) × (s0.pid ≡ s.pid)
  origin x s h = elim (Bool-cases (next == x)) [
    | inl a ↦ (t, ground (arith, slot x), ground (arith, slot x))
    | inr a ↦ elim (Bool-cases (k.current == x)) [
      | inl b ↦ (v.me, ground (arith, v.here), ground (arith, slot x))
      | inr b ↦ (s, ground (arith, slot x), refl)
    ]
  ]

  pub switched-IsScheduled : IsScheduled after
  switched-IsScheduled = record {
    me = record t { state = running };
    here = ground (arith, slot next);
    running_here = refl;
    alone = λ i s h r. ground (arith, slot i, v.alone i s);
    fresh = λ i s h. let (s0, h0, p) = origin i s h in omega (arith, v.fresh i s0 h0, p);
    distinct = λ i j s w h g q.
        let (s0, h0, p0) = origin i s h in
        let (w0, g0, p1) = origin j w g in v.distinct i j s0 w0 h0 g0 (omega (arith, p0, p1, q));
  }
