-- ===== src/Syscall.antt =====
-- System calls (src/syscall.rs): the handlers, on the tasks of `Sched`, the physical memory of its
-- machine, and the console buffer. A user address is found by the MMU, a parameter, under the root
-- that TTBR0 holds. An `i64` result is its 64-bit word. `none` is a panic or an abort of an access.
mod Copy
mod Memory
mod Files
mod Tests
use veil_os.Frames.{frame_size}
use veil_os.Paging.{Machine}
use veil_os.Sched.{
  Bytes, File, Task, Kernel, task_at, user_base, ustack_top, yield_now, exit_current,
}
use veil_os.Base.{
  ◌>>=◌, ℕ, zero, suc, ◌+◌, ◌-◌, ◌*◌, ◌/◌, ◌%◌, ◌^◌, ◌≤◌, ◌<◌, min, max, ◌≡◌, refl, sym, ap, ◌∙◌,
  ◌≢◌, ◌↔◌, ◌⊎◌, inl, inr, Bool, true, false, not, ◌&&◌, ◌||◌, List, [], ◌∷◌, ◌++◌, map, Option,
  none, some, arith, ltb, leb, ◌==◌, if◌then◌else◌, Bool-cases, ==_iff, Option-cases, length,
  length-append, length-set, get_elem?, set, get_or, take, drop,
}

pub record System : Type 0 where
  pub kernel : Kernel
  pub console : Option Bytes

-- The MMU: the physical address that the tables under a root give a virtual one, if any.
abbrev pub Walk : Type 0
Walk = Machine → ℕ → ℕ → Option ℕ

-- What the handlers ask of the disk: `fs::read_file` and `fs::list_root`.
pub record Disk : Type 0 where
  pub read_file : Bytes → Option Bytes
  pub list_root : Option (List (Bytes × ℕ))

abbrev pub user_limit : ℕ
user_limit = 0x20_0100_0000

-- The word of a negative number.
abbrev pub minus : ℕ → ℕ
minus n = 2 ^ 64 - n

abbrev pub enosys : ℕ
enosys = minus 38

abbrev pub ebadf : ℕ
ebadf = minus 9

abbrev pub efault : ℕ
efault = minus 14

abbrev pub enoent : ℕ
enoent = minus 2

-- The check of `user_slice` and `user_slice_mut`; `checked_add` fails from 2 ^ 64 on.
unfoldable pub is_user_range : ℕ → ℕ → Bool
is_user_range ptr len =
    not (ltb ptr user_base) && ltb (ptr + len) (2 ^ 64) && leb (ptr + len) user_limit

-- Byte k of a word, the lowest first, and the word of so many bytes.
unfoldable pub digit : ℕ → ℕ → ℕ
digit zero w = w % 256
digit (suc k) w = digit k (w / 256)

unfoldable pub word_of : ℕ → (ℕ → ℕ) → ℕ
word_of zero f = 0
word_of (suc n) f = f 0 + 256 * word_of n (λ k. f (suc k))

-- The byte at a physical address.
unfoldable pub byte_at : Machine → ℕ → ℕ
byte_at m p = digit (p % 8) (m.words (p - p % frame_size) (p % frame_size / 8))

unfoldable pub put_byte : Machine → ℕ → ℕ → Machine
put_byte m p b = record m {
  words = λ q i.
      if (q == p - p % frame_size) && (i == p % frame_size / 8)
      then word_of 8 (λ k. if k == p % 8 then b % 256 else digit k (m.words q i))
      else m.words q i;
}

-- The bytes of a user buffer; an address that is not mapped aborts.
unfoldable pub slice : (ℕ → Option ℕ) → Machine → ℕ → ℕ → Option Bytes
slice mapped m ptr zero = some []
slice mapped m ptr (suc len) =
    mapped ptr >>= λ p. slice mapped m (ptr + 1) len >>= λ rest. some (byte_at m p ∷ rest)

-- The outer level is the abort, the inner one the result.
unfoldable pub user_slice : Walk → System → ℕ → ℕ → Option (Option Bytes)
user_slice walk s ptr len =
    let m = s.kernel.machine in
    if is_user_range ptr len
    then (slice (walk m s.kernel.ttbr0) m ptr len >>= λ bytes. some (some bytes))
    else some none

-- `copy_from_slice` to the start of a user buffer, under the tables as they are at its start.
unfoldable pub copy_bytes : (ℕ → Option ℕ) → Machine → ℕ → Bytes → Option Machine
copy_bytes mapped m ptr [] = some m
copy_bytes mapped m ptr (b ∷ rest) =
    mapped ptr >>= λ p. copy_bytes mapped (put_byte m p b) (ptr + 1) rest

unfoldable pub copy_to_user : Walk → System → ℕ → Bytes → Option System
copy_to_user walk s ptr bytes =
    let m = s.kernel.machine in
    copy_bytes (walk m s.kernel.ttbr0) m ptr bytes >>= λ after.
    some (record s { kernel = record s.kernel { machine = after } })

-- `scheduler::with_current`, with what it does to the task.
unfoldable pub current_task : System → Option Task
current_task s = task_at s.kernel.tasks s.kernel.current

unfoldable pub put_task : System → Task → System
put_task s t = record s {
  kernel = record s.kernel { tasks = set s.kernel.tasks s.kernel.current (some t) };
}

unfoldable pub console_write : System → Bytes → System
console_write s bytes =
    let buf : Bytes = elim s.console [ none ↦ [] | some b ↦ b ] in
    record s { console = some (if ltb (length buf) 16384 then buf ++ bytes else buf) }

unfoldable pub console_take : System → Option Bytes × System
console_take s = (s.console, record s { console = none })

-- What a write does with its buffer.
unfoldable pub write_slice : (Bytes → Bool) → System → Option Bytes → ℕ × System
write_slice from_utf8 s none = (efault, s)
write_slice from_utf8 s (some buf) =
    if from_utf8 buf then (length buf, console_write s buf) else (efault, s)

unfoldable pub sys_write : Walk → (Bytes → Bool) → System → ℕ → ℕ → ℕ → Option (ℕ × System)
sys_write walk from_utf8 s fd ptr len =
    let written =
      user_slice walk s ptr (min len 4096) >>= λ buf. some (write_slice from_utf8 s buf) in
    if not (fd == 1) then some (ebadf, s) else written

-- The first free slot takes the file, or a new one: its number, and the table after.
unfoldable pub put_file : File → List (Option File) → ℕ × List (Option File)
put_file file [] = (0, some file ∷ [])
put_file file (none ∷ rest) = (0, some file ∷ rest)
put_file file (some f ∷ rest) = let (i, after) = put_file file rest in (suc i, some f ∷ after)

unfoldable pub open_file : System → Bytes → Option (ℕ × System)
open_file s bytes = current_task s >>= λ t.
    let (i, fds) = put_file (record { contents = bytes; pos = 0 }) t.fds in
    some (i, put_task s (record t { fds = fds }))

-- What an open does with the name.
unfoldable pub open_slice : (Bytes → Bool) → Disk → System → Option Bytes → Option (ℕ × System)
open_slice from_utf8 disk s none = some (efault, s)
open_slice from_utf8 disk s (some name) =
    if not (from_utf8 name)
    then some (efault, s)
    else elim (disk.read_file name) [ none ↦ some (enoent, s) | some bytes ↦ open_file s bytes ]

unfoldable pub sys_open : Walk → (Bytes → Bool) → Disk → System → ℕ → ℕ → Option (ℕ × System)
sys_open walk from_utf8 disk s ptr len =
    user_slice walk s ptr (min len 64) >>= λ name. open_slice from_utf8 disk s name

unfoldable pub file_at : List (Option File) → ℕ → Option File
file_at fds fd = elim (get_elem? fds fd) [ none ↦ none | some slot ↦ slot ]

-- The read of an open file. A position past the end is a panic of the slice.
unfoldable pub read_open : Walk → System → Task → File → ℕ → ℕ → ℕ → Option (ℕ × System)
read_open walk s t file fd ptr len =
    if ltb (length file.contents) file.pos
    then none
    else let n = min len (length file.contents - file.pos) in
      let moved : File = record file { pos = file.pos + n } in
      (copy_to_user walk s ptr (take n (drop file.pos file.contents)) >>= λ copied.
      some (n, put_task copied (record t { fds = set t.fds fd (some moved) })))

unfoldable pub sys_read : Walk → System → ℕ → ℕ → ℕ → Option (ℕ × System)
sys_read walk s fd ptr len =
    if not (is_user_range ptr len)
    then some (efault, s)
    else (current_task s >>= λ t. elim (file_at t.fds fd) [
      | none ↦ some (ebadf, s)
      | some file ↦ read_open walk s t file fd ptr len
    ])

unfoldable pub sys_close : System → ℕ → Option (ℕ × System)
sys_close s fd = current_task s >>= λ t. elim (file_at t.fds fd) [
  | none ↦ some (ebadf, s)
  | some file ↦ some (0, put_task s (record t { fds = set t.fds fd none }))
]

-- `{size}`, on as many digits as a 64-bit word has.
unfoldable pub decimal : ℕ → ℕ → Bytes → Bytes
decimal zero n after = after
decimal (suc fuel) n after =
    let more = decimal fuel (n / 10) ((48 + n % 10) ∷ after) in
    if n / 10 == 0 then (48 + n % 10) ∷ after else more

unfoldable pub line_of : Bytes × ℕ → Bytes
line_of (name, size) = name ++ (32 ∷ decimal 20 size [])

-- As much of the text as the buffer holds.
unfoldable pub copy_text : Walk → System → ℕ → ℕ → Bytes → Option (ℕ × System)
copy_text walk s ptr cap text =
    let n = min (length text) cap in
    copy_to_user walk s ptr (take n text) >>= λ copied. some (n, copied)

unfoldable pub sys_readdir : Walk → Disk → System → ℕ → ℕ → ℕ → Option (ℕ × System)
sys_readdir walk disk s index ptr cap =
    if not (is_user_range ptr cap) then some (efault, s) else elim disk.list_root [
      | none ↦ some (enoent, s)
      | some entries ↦ elim (get_elem? entries index) [
        | none ↦ some (minus 1, s)
        | some entry ↦ copy_text walk s ptr cap (line_of entry)
      ]
    ]

unfoldable pub sys_get_args : Walk → System → ℕ → ℕ → Option (ℕ × System)
sys_get_args walk s ptr cap =
    if not (is_user_range ptr cap)
    then some (efault, s)
    else (current_task s >>= λ t. copy_text walk s ptr cap t.args)

unfoldable pub with_kernel : System → ℕ → Option Kernel → Option (ℕ × System)
with_kernel s ret none = none
with_kernel s ret (some k) = some (ret, record s { kernel = k })

-- The call `x8` with the arguments x0, x1 and x2; for a yield, the state is that in which
-- the next task goes on. An exit has no result, for which 0 stands.
unfoldable pub dispatch :
    Walk → (Bytes → Bool) → Disk → System → ℕ → ℕ → ℕ → ℕ → Option (ℕ × System)
dispatch walk from_utf8 disk s x8 a b c =
    if x8 == 0
    then with_kernel s 0 (exit_current s.kernel (a % 2 ^ 32))
    else if x8 == 1
    then sys_write walk from_utf8 s a b c
    else if x8 == 2
    then (current_task s >>= λ t. some (t.pid, s))
    else if x8 == 3
    then with_kernel s 0 (yield_now s.kernel)
    else if x8 == 4
    then sys_open walk from_utf8 disk s a b
    else if x8 == 5
    then sys_read walk s a b c
    else if x8 == 6
    then sys_close s a
    else if x8 == 7
    then sys_readdir walk disk s a b c
    else if x8 == 8
    then sys_get_args walk s a b
    else some (enosys, s)
