-- ===== src/Sched/Tests.antt =====
-- Runs of the scheduler, and its theorems at a table of four slots.
use veil_os.Base.{
  ℕ, zero, suc, ◌≤◌, ◌≡◌, refl, ◌⊎◌, inl, inr, false, [], ◌∷◌, Option, none, some, arith,
}
use mathlib.Core.Option
use veil_os.Base.Word.{add64, sub64}
use veil_os.Frames.{mark, is_used, mark_range, scan, alloc_contiguous, alloc}
use veil_os.Paging.{
  Machine, store, alloc_zeroed, new, child_table, map_leaf, map_user_page, user_flags, clone_kernel,
}
use veil_os.Sched.{
  Context, Linked, State, ready, running, zombie, Task, Kernel, task_at, is_ready, pick_from,
  pick_next, switch_to, paused, yield_now, exit_current, exit_code, pass, take_zombie, reap,
  alloc_kstack, spawn, spawn_kernel, add_task, load_pages, load_stack, copy_page,
}
use veil_os.Sched.Yield.{IsScheduled, paused_task}
use veil_os.Sched.Switch.{Moved, yield_now-Moved, exit_current-Moved}
use veil_os.Sched.Spawn.{HasSpawned, spawn-Spawned}
use veil_os.Sched.Fair.{yields, yields-arrive}

abbrev task : ℕ → State → ℕ → Task
task pid state mark = record {
  pid = pid;
  name = [];
  state = state;
  ctx = mark ∷ [];
  kstack = 0;
  root = mark;
  mapper = none;
  entry = 0;
  args = [];
  fds = [];
}

abbrev machine : Machine
machine = record {
  frames = record { bitmap = λ i. 0; ram_base = 0; nframes = 64; cursor = 1; free = 64 };
  words = λ p i. 0;
}

abbrev four : Kernel
four = record {
  machine = machine;
  tasks =
      some (task 1 running 10) ∷ some (task 2 ready 20) ∷ none ∷ some (task 3 (zombie 7) 30) ∷ [];
  current = 0;
  kernel_root = 0;
  preempt = false;
  need_resched = false;
  next_pid = 4;
  regs = 99 ∷ [];
  ttbr0 = 10;
}

four_alone : (i : ℕ) (t : Task) → task_at four.tasks i ≡ some t → t.state ≡ running → i ≡ 0
unfolding task_at
four_alone zero t e r = refl
four_alone (suc zero) t e r = absurd (ground arith)
four_alone (suc (suc zero)) t e r = absurd (ground arith)
four_alone (suc (suc (suc zero))) t e r = absurd (ground arith)
four_alone (suc (suc (suc (suc i)))) t e r = absurd (ground arith)

four_pids :
    (i : ℕ) (t : Task)
    → task_at four.tasks i ≡ some t
    → ((t.pid ≡ 1) × (i ≡ 0)) ⊎ (((t.pid ≡ 2) × (i ≡ 1)) ⊎ ((t.pid ≡ 3) × (i ≡ 3)))
unfolding task_at
four_pids zero t e = inl (ground arith, refl)
four_pids (suc zero) t e = inr (inl (ground arith, refl))
four_pids (suc (suc zero)) t e = absurd (ground arith)
four_pids (suc (suc (suc zero))) t e = inr (inr (ground arith, refl))
four_pids (suc (suc (suc (suc i)))) t e = absurd (ground arith)

four-IsScheduled : IsScheduled four
unfolding task_at
four-IsScheduled = record {
  me = task 1 running 10;
  here = refl;
  running_here = refl;
  alone = four_alone;
  fresh = λ i t e. omega (arith, four_pids i t e);
  distinct = λ i j t u e f q. omega (arith, four_pids i t e, four_pids j u f);
}

-- The yield goes to slot 1, with its registers.
yield_to_second :
    Option.map {B = ℕ × Context × ℕ} (λ k. (k.current, k.regs, k.ttbr0)) (yield_now four)
    ≡ some (1, 20 ∷ [], 20)
unfolding yield_now pick_next pick_from is_ready task_at paused switch_to
yield_to_second = refl

yield_now-Moved_example :
    (k' : Kernel) × (yield_now four ≡ some k')
    × (((k' ≡ four) × ((i : ℕ) → is_ready four.tasks i ≡ false))
        ⊎ Moved four (paused_task (task 1 running 10) (99 ∷ [])) k')
unfolding four-IsScheduled
yield_now-Moved_example = yield_now-Moved four four-IsScheduled

exit_current-Moved_example :
    (k' : Kernel) × (exit_current four 5 ≡ some k') × Moved four (task 1 (zombie 5) 10) k'
unfolding is_ready task_at four-IsScheduled
exit_current-Moved_example = exit_current-Moved four four-IsScheduled 5 1 refl

yields-arrive_example :
    (n : ℕ) × (n ≤ 4) × (k' : Kernel) × (yields n four ≡ some k') × (k'.current ≡ 1)
unfolding is_ready task_at
yields-arrive_example = yields-arrive four 1 four-IsScheduled refl

reap_third : (reap four).0 ≡ some (3, 7)
unfolding reap take_zombie exit_code pass
reap_third = refl

abbrev linked : Linked
linked = record { task_trampoline = 0x8000; kernel_task_trampoline = 0x9000 }

abbrev state_of : Kernel → Option (Option ℕ × Kernel) → Kernel
state_of k none = k
state_of k (some (answer, k')) = k'

served : (spawn_kernel linked four [] 0x1234).0 ≡ some 4
unfolding spawn_kernel alloc_kstack alloc_contiguous scan is_used add64
served = refl

launched :
    spawn linked four (1 ∷ 2 ∷ []) [] []
    ≡ some (some 4, state_of four (spawn linked four (1 ∷ 2 ∷ []) [] []))
unfolding spawn clone_kernel new alloc_zeroed alloc alloc_contiguous scan is_used mark mark_range
    store load_pages load_stack copy_page map_user_page map_leaf child_table user_flags alloc_kstack
    add64 sub64 add_task
launched = refl

spawn-Spawned_example :
    HasSpawned four (some 4) (state_of four (spawn linked four (1 ∷ 2 ∷ []) [] []))
spawn-Spawned_example =
    spawn-Spawned linked four (1 ∷ 2 ∷ []) [] [] four-IsScheduled (omega arith) launched

-- With four frames, one page and the tables on the way to it take them all: the spawn returns None,
-- and no frame is free afterwards.
abbrev starved : Kernel
starved = record four {
  machine = record machine {
    frames = record { bitmap = λ i. 0; ram_base = 0; nframes = 4; cursor = 1; free = 4 };
  };
}

frames_leak :
    Option.map {B = Option ℕ × ℕ}
      (λ r. (r.0, r.1.machine.frames.free))
      (spawn linked starved (1 ∷ 2 ∷ []) [] [])
    ≡ some (none, 0)
unfolding spawn clone_kernel new alloc_zeroed alloc alloc_contiguous scan is_used mark mark_range
    store load_pages load_stack copy_page map_user_page map_leaf child_table user_flags alloc_kstack
    add64 sub64 add_task
frames_leak = refl
