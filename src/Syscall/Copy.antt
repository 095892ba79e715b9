-- ===== src/Syscall/Copy.antt =====
-- The bytes of the memory, and the calls that leave them all (src/syscall.rs, src/scheduler.rs).
use veil_os.Frames.{frame_size}
use veil_os.Paging.{Machine}
use veil_os.Sched.{Bytes, Kernel, task_at, pick_next, switch_to, yield_now, exit_current}
use veil_os.Syscall.{digit, word_of, byte_at, put_byte, copy_bytes}
use veil_os.Base.{bind_some}
use veil_os.Base.{
  ℕ, zero, suc, ◌+◌, ◌-◌, ◌*◌, ◌/◌, ◌%◌, ◌≤◌, ◌<◌, ◌≡◌, refl, sym, ap, ◌∙◌, ◌≢◌, inl, inr, false,
  ◌&&◌, [], ◌∷◌, Option, none, some, arith, ◌==◌, if◌then◌else◌, Bool-cases, some_inj, Option-cases,
  length,
}

digit-word_of : (n k : ℕ) (f : ℕ → ℕ) → ((j : ℕ) → f j < 256) → k < n → digit k (word_of n f) ≡ f k
unfolding digit word_of
digit-word_of zero k f h p = absurd (omega arith)
digit-word_of (suc n) zero f h p = omega (arith, h 0)
digit-word_of (suc n) (suc k) f h p =
    let rest : (f 0 + 256 * word_of n (λ j. f (suc j))) / 256 ≡ word_of n (λ j. f (suc j)) =
      omega (arith, h 0) in
    ap (digit k) rest ∙ digit-word_of n k (λ j. f (suc j)) (λ j. h (suc j)) (omega arith)

digit-lt : (k w : ℕ) → digit k w < 256
unfolding digit
digit-lt zero w = omega arith
digit-lt (suc k) w = digit-lt k (w / 256)

-- A byte that is written leaves the others.
put_byte-other : (m : Machine) (p b q : ℕ) → q ≢ p → byte_at (put_byte m p b) q ≡ byte_at m q
unfolding byte_at put_byte
put_byte-other m p b q ne =
    let w = m.words (q - q % frame_size) (q % frame_size / 8) in
    let f : ℕ → ℕ = λ k. if k == p % 8 then b % 256 else digit k w in
    elim (Bool-cases
      ((q - q % frame_size == p - p % frame_size) && (q % frame_size / 8 == p % frame_size / 8))) [
        | inr apart ↦ rw apart refl
        | inl same ↦
            let other : (q % 8 == p % 8) ≡ false = ground (arith, same, ne) in
            rw same (
              digit-word_of 8 (q % 8) f (λ j. ground (arith, digit-lt j w)) (omega arith)
              ∙ rw other refl)
      ]

pub copy_bytes-other :
    (mapped : ℕ → Option ℕ) (m : Machine) (ptr : ℕ) (bytes : Bytes) {after : Machine}
    → copy_bytes mapped m ptr bytes ≡ some after
    → (p : ℕ) → ((a : ℕ) → ptr ≤ a → a < ptr + length bytes → mapped a ≢ some p)
    → byte_at after p ≡ byte_at m p
unfolding copy_bytes
copy_bytes-other mapped m ptr [] e p h = ap (λ w. byte_at w p) (sym (some_inj e))
copy_bytes-other mapped m ptr (b ∷ rest) e p h =
    let (q, at, e1) = bind_some (mapped ptr) _ e in
    let ne : p ≢ q = λ same. h ptr (omega arith) (omega arith) (at ∙ ap some (sym same)) in
    copy_bytes-other mapped (put_byte m q b) (ptr + 1) rest e1 p
      (λ a low high. h a (omega (arith, low)) (omega (arith, high)))
    ∙ put_byte-other m q b p ne

-- A switch leaves the memory.
switch_to-machine :
    (k : Kernel) (next : ℕ) (save : Option ℕ) {k' : Kernel}
    → switch_to k next save ≡ some k'
    → k'.machine ≡ k.machine
unfolding switch_to
switch_to-machine k next none e =
    let (t, found, e1) = bind_some (task_at k.tasks next) _ e in
    let (loaded, found2, e2) = bind_some (task_at _ next) _ e1 in
    ap (λ (w : Kernel). w.machine) (sym (some_inj e2))
switch_to-machine k next (some slot) e =
    let (t, found, e1) = bind_some (task_at k.tasks next) _ e in
    let (k2, saved, e2) = bind_some _ _ e1 in
    let (u, found2, e3) = bind_some (task_at _ slot) _ saved in
    let (loaded, found3, e4) = bind_some (task_at k2.tasks next) _ e2 in
    ap (λ (w : Kernel). w.machine) (sym (some_inj e4))
    ∙ ap (λ (w : Kernel). w.machine) (sym (some_inj e3))

pub yield_now-machine : (k : Kernel) {k' : Kernel} → yield_now k ≡ some k' → k'.machine ≡ k.machine
unfolding yield_now
yield_now-machine k e = elim (Option-cases (pick_next k k.current)) [
  | inl nobody ↦
      let stays = some_inj (rw (nobody, yield_now) at e) in
      ap (λ (w : Kernel). w.machine) (sym stays)
  | inr (next, found) ↦
      let switched = rw (found, yield_now) at e in
      let (t, here, e1) = bind_some (task_at k.tasks k.current) _ switched in
      switch_to-machine _ next (some k.current) e1
]

pub exit_current-machine :
    (k : Kernel) (code : ℕ) {k' : Kernel} → exit_current k code ≡ some k' → k'.machine ≡ k.machine
unfolding exit_current
exit_current-machine k code e =
    let (t, here, e1) = bind_some (task_at k.tasks k.current) _ e in
    let (next, found, e2) = bind_some (pick_next _ k.current) _ e1 in
    switch_to-machine _ next none e2
