-- ===== src/Sched/Fair.antt =====
-- Round robin (src/scheduler.rs): a ready task runs after at most as many yields as there are slots.
use veil_os.Base.{
  ℕ, zero, suc, ◌+◌, ◌-◌, ◌≤◌, ◌≡◌, refl, sym, ap, ◌∙◌, ◌≢◌, inl, inr, true, Option, some, arith,
  ◌==◌, Bool-cases, length, ◌>>=◌,
}
use native.Mathlib.Nat.{mod-add-mod}
use native.Mathlib.Decide.{dec_lt}
use veil_os.Sched.{Task, Kernel, is_ready, yield_now}
use veil_os.Sched.Slots.{task_at-lt, ready_iff, is_ready-some}
use veil_os.Sched.Pick.{behind, place_of}
use veil_os.Sched.Yield.{IsScheduled, paused_task}
use veil_os.Sched.Switch.{pick_other, Moved, yield_now-Moved}

-- `n` yields in a row, with no other event between them.
unfoldable pub yields : ℕ → Kernel → Option Kernel
yields zero k = some k
yields (suc n) k = yield_now k >>= yields n

-- A ready slot other than the one that was picked is still ready.
still_ready :
    (k : Kernel) (u' : Task) (k' : Kernel) (i : ℕ)
    → IsScheduled k
    → Moved k u' k'
    → i ≢ k'.current
    → is_ready k.tasks i ≡ true
    → is_ready k'.tasks i ≡ true
still_ready k u' k' i v m ne h =
    let (t, e, r) = ready_iff k.tasks i h in
    let apart : i ≢ k.current = λ q. pick_other k v i h (sym q) in
    is_ready-some k'.tasks i t (m.others i apart ne ∙ e) r

-- The distance to a slot that was passed over falls by the distance gone.
closer :
    (k : Kernel) (u' : Task) (k' : Kernel) (d i : ℕ) (m : Moved k u' k')
    → m.nearest.distance ≤ d
    → behind k.tasks k.current d ≡ i
    → behind k'.tasks k'.current (d - m.nearest.distance) ≡ i
closer k u' k' d i m h e =
    let size = m.size in
    let sum : k.current + m.nearest.distance + (d - m.nearest.distance) ≡ k.current + d =
      omega arith in
    rw
      (
        size,
        m.nearest.here,
        mod-add-mod (k.current + m.nearest.distance) (length k.tasks) (d - m.nearest.distance),
        sum,
      )
      e

-- No ready slot is passed over.
nearest_first :
    (k : Kernel) (u' : Task) (k' : Kernel) (d i : ℕ) (m : Moved k u' k')
    → 1 ≤ d
    → behind k.tasks k.current d ≡ i
    → is_ready k.tasks i ≡ true
    → m.nearest.distance ≤ d
nearest_first k u' k' d i m low e h = elim (dec_lt d m.nearest.distance) [
  | yes nearer ↦ absurd (cc (m.nearest.none_nearer d low nearer, ap (is_ready k.tasks) e))
  | no ok ↦ omega arith
]

-- The slot at the distance that was gone is the current one.
at_distance :
    (k : Kernel) (u' : Task) (k' : Kernel) (d i : ℕ) (m : Moved k u' k')
    → behind k.tasks k.current d ≡ i
    → i ≢ k'.current
    → m.nearest.distance ≤ d
    → 1 ≤ d - m.nearest.distance
at_distance k u' k' d i m e ne h = elim (dec_lt m.nearest.distance d) [
  | yes lt ↦ omega arith
  | no ge ↦
      let same : d ≡ m.nearest.distance = omega arith in
      absurd (ne (sym e ∙ ap (behind k.tasks k.current) same ∙ sym m.nearest.here))
]

record Arrives (k : Kernel) (i bound : ℕ) : Type 0 where
  steps : ℕ
  soon : steps ≤ bound
  end : Kernel
  run : yields steps k ≡ some end
  there : end.current ≡ i

arrives :
    (bound d : ℕ) (k : Kernel) (i : ℕ)
    → IsScheduled k
    → is_ready k.tasks i ≡ true
    → 1 ≤ d
    → d ≤ bound
    → behind k.tasks k.current d ≡ i
    → Arrives k i bound
unfolding yields
arrives zero d k i v h low high e = absurd (omega arith)
arrives (suc bound) d k i v h low high e =
    let (k', run, outcome) = yield_now-Moved k v in
    elim outcome [
      | inl (same, nobody) ↦ absurd (cc (nobody i))
      | inr m ↦
          let near : m.nearest.distance ≤ d =
            nearest_first k (paused_task v.me k.regs) k' d i m low e h in
          elim (Bool-cases (i == k'.current)) [
            | inl there ↦ record {
              steps = 1;
              soon = omega arith;
              end = k';
              run = rw run refl;
              there = ground arith;
            }
            | inr further ↦
                let ne : i ≢ k'.current = λ q. ground arith in
                let a =
                  arrives bound (d - m.nearest.distance) k' i m.scheduled
                    (still_ready k (paused_task v.me k.regs) k' i v m ne h)
                    (at_distance k (paused_task v.me k.regs) k' d i m e ne near)
                    (omega (arith, m.nearest.at_least))
                    (closer k (paused_task v.me k.regs) k' d i m near e) in
                record {
                  steps = suc a.steps;
                  soon = omega (arith, a.soon);
                  end = a.end;
                  run = rw run a.run;
                  there = a.there;
                }
          ]
    ]

-- From a state with one running task, in the current slot, and pids that are distinct and all
-- below the pid counter, a ready task becomes the current one after at most as many yields as the
-- table has slots, none of which panics.
pub yields-arrive :
    (k : Kernel) (i : ℕ)
    → IsScheduled k
    → is_ready k.tasks i ≡ true
    → (n : ℕ) × (n ≤ length k.tasks) × (k' : Kernel) × (yields n k ≡ some k') × (k'.current ≡ i)
yields-arrive k i v h =
    let (t, e, r) = ready_iff k.tasks i h in
    let (d, low, high, at) =
      place_of k.tasks k.current i (task_at-lt k.tasks k.current v.here) (task_at-lt k.tasks i e) in
    let a = arrives (length k.tasks) d k i v h low high at in
    (a.steps, a.soon, a.end, a.run, a.there)
