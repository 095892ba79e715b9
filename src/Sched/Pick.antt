-- ===== src/Sched/Pick.antt =====
-- `pick_next` (src/scheduler.rs): the nearest ready slot, round robin.
use veil_os.Base.{
  ℕ, zero, suc, ◌+◌, ◌-◌, ◌%◌, ◌≤◌, ◌<◌, ◌≡◌, ◌∙◌, inl, inr, true, false, List, Option, none, some,
  arith, Bool-cases, length,
}
use native.Mathlib.Decide.{dec_lt}
use native.Mathlib.Nat.{mod-eq_of_lt, add-mod_right}
use veil_os.Sched.Slots.{ready_iff, task_at-lt}
use veil_os.Sched.{Kernel, Task, is_ready, pick_from, pick_next}

-- The slot `d` places after `from`, going round.
abbrev pub behind : List (Option Task) → ℕ → ℕ → ℕ
behind l from d = (from + d) % length l

-- `idx` is the first ready slot that comes after `from`, `d` places on.
pub record Nearest (l : List (Option Task)) (from low idx : ℕ) : Type 0 where
  pub distance : ℕ
  pub at_least : low ≤ distance
  pub here : idx ≡ behind l from distance
  pub is_ready_here : is_ready l idx ≡ true
  pub none_nearer : (e : ℕ) → low ≤ e → e < distance → is_ready l (behind l from e) ≡ false

pub pick_from-Nearest :
    (l : List (Option Task)) (from i left idx : ℕ)
    → pick_from l from i left ≡ some idx
    → (n : Nearest l from i idx) × (n.distance < i + left)
unfolding pick_from
pick_from-Nearest l from i zero idx e = cc
pick_from-Nearest l from i (suc left) idx e = elim (Bool-cases (is_ready l (behind l from i))) [
  | inl yes_here ↦ (
    record {
      distance = i;
      at_least = omega arith;
      here = ground arith;
      is_ready_here = ground arith;
      none_nearer = λ e p q. absurd (omega arith);
    },
    omega arith,
  )
  | inr not_here ↦
      let (n, lt) = pick_from-Nearest l from (i + 1) left idx (ground arith) in
      (
        record {
          distance = n.distance;
          at_least = omega (arith, n.at_least);
          here = n.here;
          is_ready_here = n.is_ready_here;
          none_nearer = λ e p q. elim (dec_lt i e) [
            | yes after ↦ n.none_nearer e (omega arith) q
            | no same ↦ let at : e ≡ i = omega arith in rw at not_here
          ];
        },
        omega (arith, lt),
      )
]

pub pick_from-none :
    (l : List (Option Task)) (from i left d : ℕ)
    → pick_from l from i left ≡ none
    → i ≤ d
    → d < i + left
    → is_ready l (behind l from d) ≡ false
unfolding pick_from
pick_from-none l from i zero d e p q = absurd (omega arith)
pick_from-none l from i (suc left) d e p q = elim (dec_lt i d) [
  | yes after ↦ pick_from-none l from (i + 1) left d (ground arith) (omega arith) (omega arith)
  | no same ↦ let at : d ≡ i = omega arith in rw at (ground arith)
]

-- Every slot is some number of places, from 1 to the length, after any other.
pub place_of :
    (l : List (Option Task)) (from i : ℕ)
    → from < length l
    → i < length l
    → (d : ℕ) × (1 ≤ d) × (d ≤ length l) × (behind l from d ≡ i)
place_of l from i h k = elim (dec_lt from i) [
  | yes lt ↦ (i - from, omega arith, omega arith, rw (sum_of lt, mod-eq_of_lt k))
  | no ge ↦ (i + length l - from, omega arith, omega arith, around)
]
  where
    sum_of : from < i → from + (i - from) ≡ i
    sum_of lt = omega arith

    around : (from + (i + length l - from)) % length l ≡ i
    around =
        let sum : from + (i + length l - from) ≡ i + length l = omega arith in
        rw sum (add-mod_right i (length l) ∙ mod-eq_of_lt k)

-- What `pick_next` returns is the nearest ready slot after `from`, `from` itself being the last.
pub pick_next-Nearest :
    (k : Kernel) (from idx : ℕ)
    → pick_next k from ≡ some idx
    → (n : Nearest k.tasks from 1 idx) × (n.distance ≤ length k.tasks)
unfolding pick_next
pick_next-Nearest k from idx e =
    let (n, h) = pick_from-Nearest k.tasks from 1 (length k.tasks) idx e in (n, omega arith)

-- It returns none only if no slot is ready.
pub pick_next-none :
    (k : Kernel) (from i : ℕ)
    → from < length k.tasks
    → pick_next k from ≡ none
    → is_ready k.tasks i ≡ false
unfolding pick_next
pick_next-none k from i h e = elim (Bool-cases (is_ready k.tasks i)) [
  | inr idle ↦ idle
  | inl found ↦
      let (t, here, s) = ready_iff k.tasks i found in
      let (d, low, high, at) = place_of k.tasks from i h (task_at-lt k.tasks i here) in
      let missed = pick_from-none k.tasks from 1 (length k.tasks) d e low (omega arith) in
      rw at at missed
]
