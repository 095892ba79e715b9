-- ===== src/Frames/Scan.antt =====
-- The next-fit scan (src/frames.rs): what it finds is free, and two passes find what there is.
use native.Mathlib.Decide.{dec_lt}
use veil_os.Base.{
  ℕ, zero, suc, ◌+◌, ◌-◌, ◌≤◌, ◌<◌, ◌≡◌, refl, ◌≢◌, inl, inr, true, false, none, some, arith, leb,
  ◌==◌, if◌then◌else◌, Bool-cases,
}
use veil_os.Frames.{Frames, is_used, scan}
use veil_os.Frames.Bitmap.{AllUsed}

pub record Found (s : Frames) (count first stop : ℕ) : Type 0 where
  pub length : first + count ≡ stop
  pub inside : stop ≤ s.nframes
  pub unused : AllUsed s first count false

-- The `run` frames below `frame` are free.
abbrev IsRun : Frames → ℕ → ℕ → Type 0
IsRun s frame run = (run ≤ frame) × ((f : ℕ) → frame ≤ f + run → f < frame → is_used s f ≡ false)

abbrev at : Frames → ℕ → ℕ
at s frame = if leb s.nframes frame then 0 else frame

abbrev run_at : Frames → ℕ → ℕ → ℕ
run_at s frame run =
    if is_used s (at s frame) then 0 else (if leb s.nframes frame then 0 else run) + 1

IsRun-step :
    (s : Frames) (frame run : ℕ) → IsRun s frame run → IsRun s (at s frame + 1) (run_at s frame run)
IsRun-step s frame run r = (ground (arith, r.0), λ f p q. ground (arith, r.1 f, r.0))

scan-suc :
    (s : Frames) (count n frame run : ℕ)
    → scan s count (suc n) frame run ≡ (
        if run_at s frame run == count
        then some (at s frame + 1 - count, at s frame + 1)
        else scan s count n (at s frame + 1) (run_at s frame run))
unfolding scan
scan-suc s count n frame run = refl

scan-wrap :
    (s : Frames) (count n frame run : ℕ)
    → 0 < s.nframes
    → s.nframes ≤ frame
    → scan s count (suc n) frame run ≡ scan s count (suc n) 0 0
unfolding scan
scan-wrap s count n frame run pos h = ground arith

hit-Found :
    (s : Frames) (count frame run first stop : ℕ)
    → 0 < s.nframes
    → IsRun s (at s frame + 1) (run_at s frame run)
    → (run_at s frame run == count) ≡ true
    → at s frame + 1 - count ≡ first
    → at s frame + 1 ≡ stop
    → Found s count first stop
hit-Found s count frame run first stop pos r hit e1 e2 = record {
  length = ground (arith, r.0);
  inside = ground arith;
  unused = λ f p q. ground (arith, r.0, r.1 f);
}

pub scan-Found :
    (s : Frames) (count n frame run : ℕ) {first stop : ℕ}
    → 0 < s.nframes
    → IsRun s frame run
    → scan s count n frame run ≡ some (first, stop)
    → Found s count first stop
scan-Found s count zero frame run pos r e = unfold scan in cc
scan-Found s count (suc n) frame run {first} {stop} pos r e =
    elim (Bool-cases (run_at s frame run == count)) [
      | inl hit ↦
          hit-Found s count frame run first stop pos (IsRun-step s frame run r) hit
            (ground (arith, scan-suc s count n frame run))
            (ground (arith, scan-suc s count n frame run))
      | inr miss ↦
          scan-Found s count n (at s frame + 1) (run_at s frame run) pos (IsRun-step s frame run r)
            (ground (arith, scan-suc s count n frame run))
    ]

-- From a frame at or before the range on, the scan does not pass it.
scan-run :
    (s : Frames) (count p n frame run : ℕ)
    → p + count ≤ s.nframes
    → AllUsed s p count false
    → run < count
    → frame < p + count
    → frame ≤ p + run
    → p + count ≤ frame + n
    → scan s count n frame run ≢ none
unfolding scan
scan-run s count p zero frame run inn free h before behind fuel = absurd (omega arith)
scan-run s count p (suc n) frame run inn free h before behind fuel = ground (
  arith,
  free frame,
  scan-run s count p n (frame + 1) (run + 1) inn free,
  scan-run s count p n (frame + 1) 0 inn free,
)

pub scan_complete :
    (s : Frames) (count p n frame run : ℕ)
    → 0 < count
    → p + count ≤ s.nframes
    → AllUsed s p count false
    → run < count
    → frame ≤ s.nframes
    → s.nframes - frame + s.nframes ≤ n
    → scan s count n frame run ≢ none
scan_complete s count p zero frame run pos inn free h low fuel = absurd (omega arith)
scan_complete s count p (suc n) frame run pos inn free h low fuel = elim (dec_lt frame s.nframes) [
  | yes lt ↦ ground (
    arith,
    scan-suc s count n frame run,
    scan_complete s count p n (frame + 1) (run + 1) pos inn free,
    scan_complete s count p n (frame + 1) 0 pos inn free,
  )
  | no ge ↦
      rw (scan-wrap s count n frame run (omega arith) (omega arith))
        (scan-run s count p (suc n) 0 0 inn free pos (omega arith) (omega arith) (omega arith))
]
