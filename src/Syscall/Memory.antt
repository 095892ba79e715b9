-- ===== src/Syscall/Memory.antt =====
-- What a call writes: only bytes that the user's addresses are mapped to (src/syscall.rs).
use veil_os.Sched.{Bytes, File, Task, Kernel, user_base, yield_now, exit_current}
use veil_os.Syscall.{
  System, Walk, Disk, user_limit, is_user_range, byte_at, user_slice, copy_bytes, copy_to_user,
  current_task, put_task, console_write, write_slice, sys_write, open_file, open_slice, sys_open,
  file_at, read_open, sys_read, sys_close, copy_text, line_of, sys_readdir, sys_get_args,
  with_kernel, dispatch,
}
use veil_os.Base.{bind_some, ◌>>=◌}
use veil_os.Base.{
  ℕ, ◌-◌, ◌%◌, ◌^◌, ◌≤◌, ◌<◌, min, ◌≡◌, refl, sym, ap, ◌∙◌, ◌≢◌, inl, inr, Bool, true, false, not,
  Option, none, some, arith, ltb, ◌==◌, if◌then◌else◌, Bool-cases, some_inj, length-take, length,
  get_elem?, take, drop,
}
use veil_os.Syscall.Copy.{copy_bytes-other, yield_now-machine, exit_current-machine}

-- No byte has changed but those that the tables of TTBR0 give a user address at the call.
abbrev pub IsConfined : Walk → System → System → Type 0
IsConfined walk s s' =
    (p : ℕ)
    → ((a : ℕ) → user_base ≤ a → a < user_limit → walk s.kernel.machine s.kernel.ttbr0 a ≢ some p)
    → byte_at s'.kernel.machine p ≡ byte_at s.kernel.machine p

module _ (walk : Walk) where
  -- A call that returns has a confined effect.
  abbrev AllConfined : System → Option (ℕ × System) → Type 0
  AllConfined s none = Unit
  AllConfined s (some (ret, s')) = IsConfined walk s s'

  same_machine : (s s' : System) → s'.kernel.machine ≡ s.kernel.machine → IsConfined walk s s'
  same_machine s s' e p h = ap (λ m. byte_at m p) e

  same : (s : System) → IsConfined walk s s
  same s p h = refl

  if-AllConfined :
      (s : System) (b : Bool) (x y : Option (ℕ × System))
      → AllConfined s x
      → AllConfined s y
      → AllConfined s (if b then x else y)
  if-AllConfined s true x y p q = p
  if-AllConfined s false x y p q = q

  guard-AllConfined :
      (s : System) (b : Bool) (x y : Option (ℕ × System))
      → AllConfined s x
      → (b ≡ true → AllConfined s y)
      → AllConfined s (if not b then x else y)
  guard-AllConfined s true x y p q = q refl
  guard-AllConfined s false x y p q = p

  elim-AllConfined {ℓ} :
      {A : Type ℓ} (s : System) (o : Option A) (x : Option (ℕ × System))
      (f : A → Option (ℕ × System))
      → AllConfined s x
      → ((a : A) → AllConfined s (f a))
      → AllConfined s (elim o [ none ↦ x | some a ↦ f a ])
  elim-AllConfined s none x f p q = p
  elim-AllConfined s (some a) x f p q = q a

  bind-AllConfined {ℓ} :
      {A : Type ℓ} (s : System) (o : Option A) (f : A → Option (ℕ × System))
      → ((a : A) → o ≡ some a → AllConfined s (f a))
      → AllConfined s (o >>= f)
  bind-AllConfined s none f q = tt
  bind-AllConfined s (some a) f q = q a refl

  copy_to_user-IsConfined :
      (s : System) (ptr len : ℕ) (bytes : Bytes) {s' : System}
      → is_user_range ptr len ≡ true
      → length bytes ≤ len
      → copy_to_user walk s ptr bytes ≡ some s'
      → IsConfined walk s s'
  unfolding copy_to_user is_user_range
  copy_to_user-IsConfined s ptr len bytes v h e p free =
      let m = s.kernel.machine in
      let (after, copied, e1) = bind_some (copy_bytes (walk m s.kernel.ttbr0) m ptr bytes) _ e in
      ap (λ (w : System). byte_at w.kernel.machine p) (sym (some_inj e1))
      ∙ copy_bytes-other (walk m s.kernel.ttbr0) m ptr bytes copied p
          (λ a low high. free a (ground (arith, v, low)) (ground (arith, v, high, h)))

  write_slice-IsConfined :
      (from_utf8 : Bytes → Bool) (s : System) (o : Option Bytes)
      → AllConfined s (some (write_slice from_utf8 s o))
  unfolding write_slice console_write
  write_slice-IsConfined from_utf8 s none = same s
  write_slice-IsConfined from_utf8 s (some buf) = elim (Bool-cases (from_utf8 buf)) [
    | inl u ↦ rw u (same s)
    | inr u ↦ rw u (same s)
  ]

  sys_write-AllConfined :
      (from_utf8 : Bytes → Bool) (s : System) (fd ptr len : ℕ)
      → AllConfined s (sys_write walk from_utf8 s fd ptr len)
  unfolding sys_write
  sys_write-AllConfined from_utf8 s fd ptr len = guard-AllConfined s (fd == 1) _ _ (same s) (λ _.
      bind-AllConfined s (user_slice walk s ptr (min len 4096)) _
        (λ buf _. write_slice-IsConfined from_utf8 s buf))

  open_slice-AllConfined :
      (from_utf8 : Bytes → Bool) (disk : Disk) (s : System) (o : Option Bytes)
      → AllConfined s (open_slice from_utf8 disk s o)
  unfolding open_slice open_file put_task
  open_slice-AllConfined from_utf8 disk s none = same s
  open_slice-AllConfined from_utf8 disk s (some name) =
      if-AllConfined s (not (from_utf8 name)) _ _ (same s) (
        elim-AllConfined s (disk.read_file name) _ _ (same s)
          (λ bytes. bind-AllConfined s (current_task s) _ (λ t _. same s)))

  read_open-AllConfined :
      (s : System) (t : Task) (file : File) (fd ptr len : ℕ)
      → is_user_range ptr len ≡ true
      → AllConfined s (read_open walk s t file fd ptr len)
  unfolding read_open put_task
  read_open-AllConfined s t file fd ptr len v =
      let n = min len (length file.contents - file.pos) in
      let bytes = take n (drop file.pos file.contents) in
      let short : length bytes ≤ len = omega (arith, length-take n (drop file.pos file.contents)) in
      if-AllConfined s (ltb (length file.contents) file.pos) _ _ tt (
        bind-AllConfined s (copy_to_user walk s ptr bytes) _
          (λ copied e. copy_to_user-IsConfined s ptr len bytes v short e))

  sys_read-AllConfined : (s : System) (fd ptr len : ℕ) → AllConfined s (sys_read walk s fd ptr len)
  unfolding sys_read
  sys_read-AllConfined s fd ptr len = guard-AllConfined s (is_user_range ptr len) _ _ (same s) (λ v.
      bind-AllConfined s (current_task s) _ (λ t _.
        elim-AllConfined s (file_at t.fds fd) _ _ (same s)
          (λ file. read_open-AllConfined s t file fd ptr len v)))

  sys_close-AllConfined : (s : System) (fd : ℕ) → AllConfined s (sys_close s fd)
  unfolding sys_close put_task
  sys_close-AllConfined s fd =
      bind-AllConfined s (current_task s) _
        (λ t _. elim-AllConfined s (file_at t.fds fd) _ _ (same s) (λ file. same s))

  copy_text-AllConfined :
      (s : System) (ptr cap : ℕ) (text : Bytes)
      → is_user_range ptr cap ≡ true
      → AllConfined s (copy_text walk s ptr cap text)
  unfolding copy_text
  copy_text-AllConfined s ptr cap text v =
      let bytes = take (min (length text) cap) text in
      bind-AllConfined s (copy_to_user walk s ptr bytes) _ (λ copied e.
        copy_to_user-IsConfined s ptr cap bytes v
          (omega (arith, length-take (min (length text) cap) text)) e)

  sys_readdir-AllConfined :
      (disk : Disk) (s : System) (index ptr cap : ℕ)
      → AllConfined s (sys_readdir walk disk s index ptr cap)
  unfolding sys_readdir
  sys_readdir-AllConfined disk s index ptr cap =
      guard-AllConfined s (is_user_range ptr cap) _ _ (same s) (λ v.
        elim-AllConfined s disk.list_root _ _ (same s) (λ entries.
          elim-AllConfined s (get_elem? entries index) _ _ (same s)
            (λ entry. copy_text-AllConfined s ptr cap (line_of entry) v)))

  sys_get_args-AllConfined :
      (s : System) (ptr cap : ℕ) → AllConfined s (sys_get_args walk s ptr cap)
  unfolding sys_get_args
  sys_get_args-AllConfined s ptr cap =
      guard-AllConfined s (is_user_range ptr cap) _ _ (same s) (λ v.
        bind-AllConfined s (current_task s) _ (λ t _. copy_text-AllConfined s ptr cap t.args v))

  with_kernel-AllConfined :
      (s : System) (ret : ℕ) (o : Option Kernel)
      → ((k : Kernel) → o ≡ some k → k.machine ≡ s.kernel.machine)
      → AllConfined s (with_kernel s ret o)
  unfolding with_kernel
  with_kernel-AllConfined s ret none h = tt
  with_kernel-AllConfined s ret (some k) h = same_machine s (record s { kernel = k }) (h k refl)

  dispatch-AllConfined :
      (from_utf8 : Bytes → Bool) (disk : Disk) (s : System) (x8 a b c : ℕ)
      → AllConfined s (dispatch walk from_utf8 disk s x8 a b c)
  unfolding dispatch sys_open
  dispatch-AllConfined from_utf8 disk s x8 a b c =
      if-AllConfined s (x8 == 0) _ _
        (with_kernel-AllConfined s 0 (exit_current s.kernel (a % 2 ^ 32))
          (λ k e. exit_current-machine s.kernel (a % 2 ^ 32) e))
        (if-AllConfined s (x8 == 1) _ _ (sys_write-AllConfined from_utf8 s a b c) (
          if-AllConfined s (x8 == 2) _ _ (bind-AllConfined s (current_task s) _ (λ t _. same s)) (
            if-AllConfined s (x8 == 3) _ _
              (with_kernel-AllConfined s 0 (yield_now s.kernel)
                (λ k e. yield_now-machine s.kernel e))
              (if-AllConfined s (x8 == 4) _ _
                (bind-AllConfined s (user_slice walk s a (min b 64)) _
                  (λ name _. open_slice-AllConfined from_utf8 disk s name))
                (if-AllConfined s (x8 == 5) _ _ (sys_read-AllConfined s a b c) (
                  if-AllConfined s (x8 == 6) _ _ (sys_close-AllConfined s a) (
                    if-AllConfined s (x8 == 7) _ _ (sys_readdir-AllConfined disk s a b c) (
                      if-AllConfined s (x8 == 8) _ _ (sys_get_args-AllConfined s a b)
                        (same s)))))))))

  -- Whatever the MMU, the call number, the arguments, the disk and the check of UTF-8, a system
  -- call that returns changes no byte of the physical memory but those that the tables under TTBR0
  -- give, at the call, to an address from USER_BASE up to USER_LIMIT.
  pub dispatch-IsConfined :
      (from_utf8 : Bytes → Bool) (disk : Disk) (s : System) (x8 a b c : ℕ) {ret : ℕ} {s' : System}
      → dispatch walk from_utf8 disk s x8 a b c ≡ some (ret, s')
      → IsConfined walk s s'
  dispatch-IsConfined from_utf8 disk s x8 a b c e =
      rw e at (dispatch-AllConfined from_utf8 disk s x8 a b c)
