-- ===== src/Sched.antt =====
-- Tasks and scheduling (src/scheduler.rs), on the page tables and frames of `Paging`.
-- One record holds the statics, the registers that `swtch` saves, and the table that TTBR0 loads.
-- `none` is a panic (`unwrap`, `expect`); where a `None` is returned, the state comes with it.
pub mod Slots
pub mod Pick
pub mod Yield
pub mod Switch
pub mod Spawn
pub mod Reap
pub mod Fair
mod Tests
use veil_os.Base.{
  ℕ, zero, suc, ◌+◌, ◌-◌, ◌*◌, ◌/◌, ◌%◌, Bool, true, false, not, ◌&&◌, ◌||◌, List, [], ◌∷◌, ◌++◌,
  Option, none, some, ltb, leb, ◌==◌, if◌then◌else◌, length, get_elem?, set, drop, ◌>>=◌,
}
use veil_os.Base.Word.{add64}
use veil_os.Frames.{frame_size, alloc_contiguous, free as release}
use veil_os.Paging.{Machine, alloc_zeroed, clone_kernel, map_user_page, free_user_space}

-- The bytes of a `String` or a `Vec<u8>`.
abbrev pub Bytes : Type 0
Bytes = List ℕ

abbrev pub user_base : ℕ
user_base = 0x20_0000_0000

abbrev pub ustack_top : ℕ
ustack_top = 0x20_0100_0000

abbrev pub ustack_pages : ℕ
ustack_pages = 16

abbrev pub bss_extra_pages : ℕ
bss_extra_pages = 16

abbrev pub kstack_frames : ℕ
kstack_frames = 16

abbrev pub trap_reserve : ℕ
trap_reserve = 1024

-- x19 to x30 and sp.
abbrev pub Context : Type 0
Context = List ℕ

abbrev pub default_context : Context
default_context = 0 ∷ 0 ∷ 0 ∷ 0 ∷ 0 ∷ 0 ∷ 0 ∷ 0 ∷ 0 ∷ 0 ∷ 0 ∷ 0 ∷ 0 ∷ []

pub data State : Type 0 where
  ready running : State
  zombie : ℕ → State

pub record File : Type 0 where
  pub contents : Bytes
  pub pos : ℕ

pub record Task : Type 0 where
  pub pid : ℕ
  pub name : Bytes
  pub state : State
  pub ctx : Context
  pub kstack : ℕ
  pub root : ℕ
  pub mapper : Option ℕ
  pub entry : ℕ
  pub args : Bytes
  pub fds : List (Option File)

pub record Kernel : Type 0 where
  pub machine : Machine
  pub tasks : List (Option Task)
  pub current : ℕ
  pub kernel_root : ℕ
  pub preempt : Bool
  pub need_resched : Bool
  pub next_pid : ℕ
  pub regs : Context
  pub ttbr0 : ℕ

-- The addresses that the linker gives the two trampolines.
pub record Linked : Type 0 where
  pub task_trampoline : ℕ
  pub kernel_task_trampoline : ℕ

-- The slot's task: the outer `none` is an index out of range, or an empty slot.
unfoldable pub task_at : List (Option Task) → ℕ → Option Task
task_at slots i = elim (get_elem? slots i) [ none ↦ none | some o ↦ o ]

unfoldable pub init : Kernel → ℕ → Kernel
init k kernel_root = record k {
  kernel_root = kernel_root;
  tasks =
      k.tasks
      ++ some (record {
        pid = 1;
        name = b'k' ∷ b'e' ∷ b'r' ∷ b'n' ∷ b'e' ∷ b'l' ∷ [];
        state = running;
        ctx = default_context;
        kstack = 0;
        root = kernel_root;
        mapper = none;
        entry = 0;
        args = [];
        fds = [];
      })
        ∷ [];
}

unfoldable pub current_pid : Kernel → ℕ
current_pid k = elim (task_at k.tasks k.current) [ none ↦ 0 | some t ↦ t.pid ]

-- `with_current(|t| …)`: the closure's result, and the task that it leaves in the slot.
unfoldable pub with_current {ℓ} : {R : Type ℓ} → Kernel → (Task → R × Task) → Option (R × Kernel)
with_current k f = do
  t ← task_at k.tasks k.current
  let (r, t') = f t
  some (r, record k { tasks = set k.tasks k.current (some t') })

-- The first empty slot, or a new one at the end.
unfoldable pub place : List (Option Task) → Task → List (Option Task)
place [] t = some t ∷ []
place (none ∷ rest) t = some t ∷ rest
place (some u ∷ rest) t = some u ∷ place rest t

-- Eight bytes of the image from `off` on as a word; the frame is 0 behind the image.
unfoldable pub le_word : Bytes → ℕ → ℕ
le_word bin zero = 0
le_word [] (suc n) = 0
le_word (b ∷ rest) (suc n) = b + 256 * le_word rest n

-- `copy_nonoverlapping` of up to a frame of the image to `frame`, whose words are 0.
unfoldable pub copy_page : Machine → ℕ → Bytes → Machine
copy_page m frame bytes = record m {
  words = λ p i. if p == frame then le_word (drop (8 * i) bytes) 8 else m.words p i;
}

-- The image and the pages for `.bss`: `n` pages are left, from page `i` on. False if the frames run
-- out, with the machine as it is then.
unfoldable pub load_pages : Machine → ℕ → Bytes → ℕ → ℕ → Option (Bool × Machine)
load_pages m root bin i zero = some (true, m)
load_pages m root bin i (suc n) = elim (alloc_zeroed m) [
  | none ↦ some (false, m)
  | some (frame, m1) ↦ (do
    let off = i * frame_size
    let m2 = if ltb off (length bin) then copy_page m1 frame (drop off bin) else m1
    m3 ← map_user_page m2 root (user_base + off) frame true
    load_pages m3 root bin (i + 1) n)
]

unfoldable pub load_stack : Machine → ℕ → ℕ → ℕ → Option (Bool × Machine)
load_stack m root i zero = some (true, m)
load_stack m root i (suc n) = elim (alloc_zeroed m) [
  | none ↦ some (false, m)
  | some (frame, m1) ↦ (do
    m2 ← map_user_page m1 root (ustack_top - (i + 1) * frame_size) frame false
    load_stack m2 root (i + 1) n)
]

-- A kernel stack of 16 frames, all 0.
unfoldable pub alloc_kstack : Machine → Option (ℕ × Machine)
alloc_kstack m =
    let (pa, fs) = alloc_contiguous m.frames kstack_frames in
    elim pa [
      | none ↦ none
      | some p ↦ some (
        p,
        record {
          frames = fs;
          words =
              λ q i. if leb p q && ltb q (p + kstack_frames * frame_size) then 0 else m.words q i;
        },
      )
    ]

-- lr and sp of a new task; the other registers are 0.
unfoldable pub start_context : ℕ → ℕ → Context
start_context lr sp = set (set default_context 11 lr) 12 sp

-- `spawn` from the kernel stack on.
unfoldable pub add_task : Linked → Kernel → Bytes → Bytes → ℕ → Machine → Option ℕ × Kernel
add_task linked k name args root m = elim (alloc_kstack m) [
  | none ↦ (none, record k { machine = m })
  | some (kstack, m1) ↦
      let sp = kstack + kstack_frames * frame_size - trap_reserve in
      (
        some k.next_pid,
        record k {
          machine = m1;
          next_pid = add64 k.next_pid 1;
          tasks = place k.tasks (record {
            pid = k.next_pid;
            name = name;
            state = ready;
            ctx = start_context linked.task_trampoline sp;
            kstack = kstack;
            root = root;
            mapper = some root;
            entry = user_base;
            args = args;
            fds = [];
          });
        },
      )
]

-- `none` is a panic; a `None` that is returned comes with the frames and tables taken until then.
unfoldable pub spawn : Linked → Kernel → Bytes → Bytes → Bytes → Option (Option ℕ × Kernel)
spawn linked k bin name args = do
  (root, m1) ← clone_kernel k.machine k.kernel_root
  let img_pages = (length bin + (frame_size - 1)) / frame_size + bss_extra_pages
  (loaded, m2) ← load_pages m1 root bin 0 img_pages
  (stacked, m3) ← (if loaded then load_stack m2 root 0 ustack_pages else some (false, m2))
  some (if stacked then add_task linked k name args root m3 else (none, record k { machine = m3 }))

unfoldable pub spawn_kernel : Linked → Kernel → Bytes → ℕ → Option ℕ × Kernel
spawn_kernel linked k name entry = elim (alloc_kstack k.machine) [
  | none ↦ (none, k)
  | some (kstack, m) ↦
      let sp = kstack + kstack_frames * frame_size in
      (
        some k.next_pid,
        record k {
          machine = m;
          next_pid = add64 k.next_pid 1;
          tasks = place k.tasks (record {
            pid = k.next_pid;
            name = name;
            state = ready;
            ctx = start_context linked.kernel_task_trampoline sp;
            kstack = kstack;
            root = k.kernel_root;
            mapper = none;
            entry = entry;
            args = [];
            fds = [];
          });
        },
      )
]

unfoldable pub is_ready : List (Option Task) → ℕ → Bool
is_ready slots i = elim (task_at slots i) [
  | none ↦ false
  | some t ↦ (elim t.state [ ready ↦ true | _ ↦ false ])
]

-- for i in 1..=n: `left` rounds are left, from `i` on.
unfoldable pub pick_from : List (Option Task) → ℕ → ℕ → ℕ → Option ℕ
pick_from slots from i zero = none
pick_from slots from i (suc left) =
    let idx = (from + i) % length slots in
    let rest = pick_from slots from (i + 1) left in if is_ready slots idx then some idx else rest

unfoldable pub pick_next : Kernel → ℕ → Option ℕ
pick_next k from = pick_from k.tasks from 1 (length k.tasks)

-- `switch_to(next, save)` with `swtch`: `save` is the slot whose context takes the registers, or
-- none for `exit_current`, which discards them. The load address is taken before the save.
unfoldable pub switch_to : Kernel → ℕ → Option ℕ → Option Kernel
switch_to k next save = do
  t ← task_at k.tasks next
  let k1 = record k {
    tasks = set k.tasks next (some (record t { state = running }));
    current = next;
    ttbr0 = t.root;
  }
  k2 ← (elim save [
    | none ↦ some k1
    | some s ↦ (do
      u ← task_at k1.tasks s
      some (record k1 { tasks = set k1.tasks s (some (record u { ctx = k.regs })) }))
  ])
  loaded ← task_at k2.tasks next
  some (record k2 { regs = loaded.ctx })

unfoldable pub paused : State → State
paused running = ready
paused s = s

unfoldable pub yield_now : Kernel → Option Kernel
yield_now k = elim (pick_next k k.current) [
  | none ↦ some k
  | some next ↦ (do
    t ← task_at k.tasks k.current
    switch_to
        (record k { tasks = set k.tasks k.current (some (record t { state = paused t.state })) })
        next (some k.current))
]

unfoldable pub exit_current : Kernel → ℕ → Option Kernel
exit_current k code = do
  t ← task_at k.tasks k.current
  let k1 = record k { tasks = set k.tasks k.current (some (record t { state = zombie code })) }
  next ← pick_next k1 k1.current
  switch_to k1 next none

-- Some(code) for `State::Zombie(code)`.
unfoldable pub exit_code : State → Option ℕ
exit_code (zombie code) = some code
exit_code ready = none
exit_code running = none

-- A slot that `reap` passes over.
unfoldable pub pass :
    Option Task → Option (Task × ℕ × List (Option Task)) → Option (Task × ℕ × List (Option Task))
pass o none = none
pass o (some (t, code, rest)) = some (t, code, o ∷ rest)

-- The first zombie, its code, and the slots without it.
unfoldable pub take_zombie : List (Option Task) → Option (Task × ℕ × List (Option Task))
take_zombie [] = none
take_zombie (none ∷ rest) = pass none (take_zombie rest)
take_zombie (some t ∷ rest) = elim (exit_code t.state) [
  | some code ↦ some (t, code, none ∷ rest)
  | none ↦ pass (some t) (take_zombie rest)
]

unfoldable pub release_memory : Machine → Task → Machine
release_memory m t =
    let m1 : Machine = elim t.mapper [ none ↦ m | some root ↦ free_user_space m root ] in
    if t.kstack == 0 then m1 else record m1 { frames = release m1.frames t.kstack kstack_frames }

unfoldable pub reap : Kernel → Option (ℕ × ℕ) × Kernel
reap k = elim (take_zombie k.tasks) [
  | none ↦ (none, k)
  | some (t, code, rest) ↦
      (some (t.pid, code), record k { tasks = rest; machine = release_memory k.machine t })
]

unfoldable pub is_alive : Option Task → Bool
is_alive none = false
is_alive (some t) = not (t.pid == 1) && (elim t.state [ zombie c ↦ false | _ ↦ true ])

unfoldable pub any_alive : List (Option Task) → Bool
any_alive [] = false
any_alive (o ∷ rest) = is_alive o || any_alive rest

unfoldable pub user_tasks_alive : Kernel → Bool
user_tasks_alive k = any_alive k.tasks

unfoldable pub enable_preemption : Kernel → Kernel
enable_preemption k = record k { preempt = true }

unfoldable pub tick : Kernel → Kernel
tick k = if k.preempt then record k { need_resched = true } else k

unfoldable pub maybe_preempt : Kernel → Option Kernel
maybe_preempt k =
    let k1 = record k { need_resched = false } in if k.need_resched then yield_now k1 else some k1
