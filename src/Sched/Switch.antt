-- ===== src/Sched/Switch.antt =====
-- `yield_now` and `exit_current` (src/scheduler.rs) on every branch.
use veil_os.Base.{
  ℕ, ◌+◌, ◌%◌, ◌≡◌, refl, sym, ap, ◌∙◌, ◌≢◌, ◌⊎◌, inl, inr, true, false, List, Option, none, some,
  arith, Option-cases, length, length-set, set,
}
use veil_os.Sched.{
  ready, running, zombie, Task, Kernel, task_at, is_ready, pick_next, yield_now, exit_current,
  switch_to,
}
use veil_os.Sched.Slots.{task_at-set, task_at-lt, ready_iff}
use veil_os.Sched.Pick.{behind, Nearest, pick_next-Nearest, pick_next-none}
use veil_os.Sched.Yield.{
  IsScheduled, switched, paused_task, yield_now-some, switched-IsScheduled, slot, task_at-set_ne,
  task_at-set_same,
}

-- The processor goes from the current task, left as `u'`, to the nearest ready one, with its
-- registers and its page tables; no other slot changes.
pub record Moved (k : Kernel) (u' : Task) (k' : Kernel) : Type 0 where
  pub to : Task
  pub nearest : Nearest k.tasks k.current 1 k'.current
  pub was_ready : task_at k.tasks k'.current ≡ some to
  pub loaded : k'.regs ≡ to.ctx
  pub mapped : k'.ttbr0 ≡ to.root
  pub left : task_at k'.tasks k.current ≡ some u'
  pub others : (i : ℕ) → i ≢ k.current → i ≢ k'.current → task_at k'.tasks i ≡ task_at k.tasks i
  pub scheduled : IsScheduled k'
  pub size : length k'.tasks ≡ length k.tasks

two_sizes :
    (l : List (Option Task)) (i j : ℕ) (u v : Option Task) → length (set (set l i u) j v) ≡ length l
two_sizes l i j u v = length-set (set l i u) j v ∙ length-set l i u

pub pick_other :
    (k : Kernel) (v : IsScheduled k) (next : ℕ) → is_ready k.tasks next ≡ true → k.current ≢ next
pick_other k v next h same =
    let (t, e, r) = ready_iff k.tasks next h in
    let one : task_at k.tasks next ≡ some v.me = ap (task_at k.tasks) (sym same) ∙ v.here in
    ground (arith, e, one, r, v.running_here)

yield_stays : (k : Kernel) → pick_next k k.current ≡ none → yield_now k ≡ some k
unfolding yield_now
yield_stays k e = rw (e, yield_now)

-- From a state with one running task, in the current slot, and pids that are distinct and all
-- below the pid counter, yield_now never panics. If no task is ready it changes nothing; else the
-- nearest ready task after the current slot, in slot order with wraparound, runs with its saved
-- registers and its page tables, the registers of the task that yields are saved in its slot, no
-- other slot changes, and the state is again of that kind.
pub yield_now-Moved :
    (k : Kernel) (v : IsScheduled k)
    → (k' : Kernel) × (yield_now k ≡ some k')
      × (((k' ≡ k) × ((i : ℕ) → is_ready k.tasks i ≡ false)) ⊎ Moved k (paused_task v.me k.regs) k')
yield_now-Moved k v = elim (Option-cases (pick_next k k.current)) [
  | inl nobody ↦ (
    k,
    yield_stays k nobody,
    inl (refl, λ i. pick_next-none k k.current i (task_at-lt k.tasks k.current v.here) nobody),
  )
  | inr (next, p) ↦
      let (n, d) = pick_next-Nearest k k.current next p in
      let (t, e, r) = ready_iff k.tasks next n.is_ready_here in
      let ne = pick_other k v next n.is_ready_here in
      let u' = paused_task v.me k.regs in
      (
        switched k (set k.tasks k.current (some u')) next t,
        yield_now-some k next t v.me p v.here v.running_here e ne,
        inr (record {
          to = t;
          nearest = n;
          was_ready = e;
          loaded = refl;
          mapped = refl;
          left = ground (arith, slot k v u' next t refl (λ q. cc) e ne k.current);
          others = λ i a b. ground (arith, slot k v u' next t refl (λ q. cc) e ne i);
          scheduled = switched-IsScheduled k v u' next t refl (λ q. cc) e ne;
          size = two_sizes k.tasks k.current next (some u') (some (record t { state = running }));
        }),
      )
]

exit_current-switch_to :
    (k : Kernel) (code next : ℕ) (u : Task)
    → task_at k.tasks k.current ≡ some u
    → pick_next
        (record k { tasks = set k.tasks k.current (some (record u { state = zombie code })) })
        k.current
      ≡ some next
    → exit_current k code
      ≡ switch_to
          (record k { tasks = set k.tasks k.current (some (record u { state = zombie code })) })
          next
          none
unfolding exit_current
exit_current-switch_to k code next u e p = rw e (rw p)

switch_to-none :
    (k : Kernel) (next : ℕ) (t : Task)
    → task_at k.tasks next ≡ some t
    → switch_to k next none ≡ some (switched k k.tasks next t)
unfolding switch_to
switch_to-none k next t e =
    rw e (rw (task_at-set_same k.tasks next (some (record t { state = running })) e))

is_ready-set :
    (l : List (Option Task)) (i j : ℕ) (u : Task) {t : Task}
    → task_at l i ≡ some t
    → t.state ≡ running
    → u.state ≢ ready
    → is_ready (set l i (some u)) j ≡ is_ready l j
unfolding is_ready
is_ready-set l i j u e r h = ground (arith, task_at-set l i (some u) j, task_at-lt l i e)

Nearest-same :
    (l m : List (Option Task)) (from idx : ℕ)
    → length l ≡ length m
    → ((j : ℕ) → is_ready l j ≡ is_ready m j)
    → Nearest l from 1 idx
    → Nearest m from 1 idx
Nearest-same l m from idx size same n = record {
  distance = n.distance;
  at_least = n.at_least;
  here = n.here ∙ ap (λ w. (from + n.distance) % w) size;
  is_ready_here = sym (same idx) ∙ n.is_ready_here;
  none_nearer = λ e p q.
      sym (same (behind m from e))
      ∙ ap (λ w. is_ready l ((from + e) % w)) (sym size)
      ∙ n.none_nearer e p q;
}

-- From a state with one running task, in the current slot, and pids that are distinct and all
-- below the pid counter, and with some task ready, exit_current never panics: it leaves a zombie
-- with the exit code in the current slot, the nearest ready task runs with its saved registers and
-- page tables, no other slot changes, and the state is again of that kind.
pub exit_current-Moved :
    (k : Kernel) (v : IsScheduled k) (code i : ℕ)
    → is_ready k.tasks i ≡ true
    → (k' : Kernel) × (exit_current k code ≡ some k')
      × Moved k (record v.me { state = zombie code }) k'
exit_current-Moved k v code i h =
    let u' : Task = record v.me { state = zombie code } in
    let k1 : Kernel = record k { tasks = set k.tasks k.current (some u') } in
    let lt = task_at-lt k.tasks k.current v.here in
    let size = length-set k.tasks k.current (some u') in
    let same : (j : ℕ) → is_ready (set k.tasks k.current (some u')) j ≡ is_ready k.tasks j =
      λ j. is_ready-set k.tasks k.current j u' v.here v.running_here (λ q. cc) in
    elim (Option-cases (pick_next k1 k.current)) [
      | inl nobody ↦
          absurd (cc (pick_next-none k1 k.current i (omega (arith, size, lt)) nobody, same i))
      | inr (next, p) ↦
          let (n, d) = pick_next-Nearest k1 k.current next p in
          let found : is_ready k.tasks next ≡ true = sym (same next) ∙ n.is_ready_here in
          let (t, e, r) = ready_iff k.tasks next found in
          let ne = pick_other k v next found in
          (
            switched k (set k.tasks k.current (some u')) next t,
            exit_current-switch_to k code next v.me v.here p
                ∙ switch_to-none k1 next t
                    (task_at-set_ne k.tasks k.current next (some u') ne v.here ∙ e),
            record {
              to = t;
              nearest = Nearest-same k1.tasks k.tasks k.current next size same n;
              was_ready = e;
              loaded = refl;
              mapped = refl;
              left = ground (arith, slot k v u' next t refl (λ q. cc) e ne k.current);
              others = λ i a b. ground (arith, slot k v u' next t refl (λ q. cc) e ne i);
              scheduled = switched-IsScheduled k v u' next t refl (λ q. cc) e ne;
              size =
                  two_sizes k.tasks k.current next (some u') (some (record t { state = running }));
            },
          )
    ]
