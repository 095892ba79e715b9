-- ===== src/Syscall/Tests.antt =====
-- Runs of the system calls (src/syscall.rs).
use veil_os.Sched.{File, running, default_context, task_at, user_base}
use veil_os.Frames.{zeroed}
use veil_os.Syscall.{
  System, Walk, byte_at, put_byte, copy_bytes, digit, word_of, Disk, dispatch, sys_read,
  is_user_range, read_open, file_at, copy_to_user, put_task, current_task,
}
use veil_os.Syscall.Memory.{IsConfined, dispatch-IsConfined}
use veil_os.Base.{
  if◌then◌else◌, ◌==◌, ◌-◌, ℕ, ◌+◌, ◌≡◌, refl, true, false, [], ◌∷◌, Option, none, some,
}

-- One task, with one file open at byte 1.
abbrev reader : System
reader = record {
  kernel = record {
    machine = record { frames = zeroed; words = λ a i. 0 };
    tasks =
        some (record {
          pid = 1;
          name = [];
          state = running;
          ctx = default_context;
          kstack = 0;
          root = 7;
          mapper = none;
          entry = 0;
          args = [];
          fds = some (record { contents = 10 ∷ 11 ∷ 12 ∷ []; pos = 1 }) ∷ [];
        })
        ∷ [];
    current = 0;
    kernel_root = 0;
    preempt = false;
    need_resched = false;
    next_pid = 2;
    regs = default_context;
    ttbr0 = 7;
  };
  console = none;
}

abbrev no_disk : Disk
no_disk = record { read_file = λ name. none; list_root = none }

-- The state of a result.
abbrev state_of : Option (ℕ × System) → System
state_of none = reader
state_of (some (ret, s)) = s

-- The user's addresses are mapped from 0x5000 on, under the root 7.
abbrev walk : Walk
walk m root a = if root == 7 then some (a - user_base + 0x5000) else none

abbrev after_read : System
after_read = state_of (dispatch walk (λ b. true) no_disk reader 5 0 user_base 8)

bytes_arrive : byte_at after_read.kernel.machine 0x5001 ≡ 12
unfolding dispatch sys_read is_user_range read_open file_at copy_to_user put_task current_task
    copy_bytes put_byte byte_at digit word_of task_at
bytes_arrive = refl

dispatch-IsConfined_example : IsConfined walk reader after_read
unfolding dispatch sys_read is_user_range read_open file_at copy_to_user put_task current_task
    copy_bytes put_byte byte_at digit word_of task_at
dispatch-IsConfined_example =
    dispatch-IsConfined walk (λ b. true) no_disk reader 5 0 user_base 8 {ret = 2} refl

abbrev file : File
file = record { contents = []; pos = 0 }
