-- ===== src/Frames/Bitmap.antt =====
-- The bitmap as a set of frames (src/frames.rs).
use Prim.Native.Nat.{bit_and, bit_or}
use native.Mathlib.Nat.{one-le-pow, pow-le-pow_right, pow-suc}
use veil_os.Base.{
  ℕ, zero, suc, ◌+◌, ◌/◌, ◌%◌, ◌^◌, ◌≤◌, ◌<◌, ◌≡◌, refl, Bool, true, false, not, ◌&&◌, arith, ltb,
  leb, ◌==◌, if◌then◌else◌,
}
use native.Mathlib.Decide.{dec_lt}
use veil_os.Base.Bits.{
  digit, digit-le-one, digit-bit_and, digit-bit_or, digit-power, digit-complement, bit_and-power,
}
use veil_os.Frames.{Frames, mark, is_used, mark_range, complement}

used_iff_digit : (w k : ℕ) → not (bit_and w (2 ^ k) == 0) ≡ (digit w k == 1)
used_iff_digit w k = grind (arith, bit_and-power w k, digit-le-one w k, one-le-pow k 2)

digit-set : (w k i : ℕ) → digit (bit_or w (2 ^ k)) i ≡ (if k == i then 1 else digit w i)
digit-set w k i = ground (arith, digit-bit_or w (2 ^ k) i, digit-power k i, digit-le-one w i)

power-lt : (k : ℕ) → k < 64 → 2 ^ k < 2 ^ 64
power-lt k h =
    omega
      (arith, pow-le-pow_right {n = 2} (omega arith) h, pow-suc 2 k, one-le-pow k 2 (omega arith))

digit-clear :
    (w k i : ℕ)
    → k < 64
    → i < 64
    → digit (bit_and w (complement (2 ^ k))) i ≡ (if k == i then 0 else digit w i)
digit-clear w k i h j = ground (
  arith,
  digit-bit_and w (complement (2 ^ k)) i,
  digit-complement 64 (2 ^ k) i (power-lt k h) j,
  digit-power k i,
  digit-le-one w i,
)

is_used-digit : (s : Frames) (f : ℕ) → is_used s f ≡ (digit (s.bitmap (f / 64)) (f % 64) == 1)
unfolding is_used
is_used-digit s f = used_iff_digit (s.bitmap (f / 64)) (f % 64)

bitmap-mark :
    (s : Frames) (f : ℕ) (b : Bool) (g : ℕ)
    → digit ((mark s f b).bitmap (g / 64)) (g % 64)
      ≡ (if f == g then (if b then 1 else 0) else digit (s.bitmap (g / 64)) (g % 64))
unfolding mark
bitmap-mark s f true g = ground (arith, digit-set (s.bitmap (f / 64)) (f % 64) (g % 64))
bitmap-mark s f false g =
    ground (arith, digit-clear (s.bitmap (f / 64)) (f % 64) (g % 64) (omega arith) (omega arith))

-- `mark` changes the one frame.
pub is_used-mark :
    (s : Frames) (f : ℕ) (b : Bool) (g : ℕ)
    → is_used (mark s f b) g ≡ (if f == g then b else is_used s g)
is_used-mark s f b g =
    ground (arith, is_used-digit (mark s f b) g, is_used-digit s g, bitmap-mark s f b g)

abbrev pub within : ℕ → ℕ → ℕ → Bool
within first count g = leb first g && ltb g (first + count)

-- The loop changes the frames of its range.
pub is_used-mark_range :
    (s : Frames) (first count : ℕ) (b : Bool) (g : ℕ)
    → is_used (mark_range s first count b) g ≡ (if within first count g then b else is_used s g)
unfolding mark_range
is_used-mark_range s first zero b g = ground arith
is_used-mark_range s first (suc count) b g =
    ground
      (arith, is_used-mark_range (mark s first b) (first + 1) count b g, is_used-mark s first b g)

-- The number of free frames below `n`.
unfoldable pub unused : Frames → ℕ → ℕ
unused s zero = 0
unused s (suc n) = unused s n + (if is_used s n then 0 else 1)

-- It depends on the frames below `n` alone.
pub unused-same :
    (s t : Frames) (n : ℕ) → ((f : ℕ) → f < n → is_used s f ≡ is_used t f) → unused s n ≡ unused t n
unfolding unused
unused-same s t zero h = refl
unused-same s t (suc n) h = ground (arith, h n, unused-same s t n (λ f p. h f (omega arith)))

unused-taken :
    (s : Frames) (f n : ℕ) → f < n → is_used s f ≡ false → unused (mark s f true) n + 1 ≡ unused s n
unfolding unused
unused-taken s f zero h e = absurd (omega arith)
unused-taken s f (suc n) h e = elim (dec_lt f n) [
  | yes p ↦ ground (arith, is_used-mark s f true n, unused-taken s f n p e)
  | no p ↦ ground (
    arith,
    is_used-mark s f true n,
    unused-same (mark s f true) s n (λ g q. ground (arith, is_used-mark s f true g)),
  )
]

unused-freed :
    (s : Frames) (f n : ℕ) → f < n → is_used s f ≡ true → unused (mark s f false) n ≡ unused s n + 1
unfolding unused
unused-freed s f zero h e = absurd (omega arith)
unused-freed s f (suc n) h e = elim (dec_lt f n) [
  | yes p ↦ ground (arith, is_used-mark s f false n, unused-freed s f n p e)
  | no p ↦ ground (
    arith,
    is_used-mark s f false n,
    unused-same (mark s f false) s n (λ g q. ground (arith, is_used-mark s f false g)),
  )
]

abbrev pub AllUsed : Frames → ℕ → ℕ → Bool → Type 0
AllUsed s first count b = (f : ℕ) → first ≤ f → f < first + count → is_used s f ≡ b

pub unused-mark_range-true :
    (s : Frames) (first count n : ℕ)
    → first + count ≤ n
    → AllUsed s first count false
    → unused (mark_range s first count true) n + count ≡ unused s n
unfolding mark_range
unused-mark_range-true s first zero n h a = omega arith
unused-mark_range-true s first (suc count) n h a = omega (
  arith,
  unused-mark_range-true (mark s first true) (first + 1) count n (omega arith)
      (λ f p q. ground (arith, a f, is_used-mark s first true f)),
  unused-taken s first n (omega arith) (a first (omega arith) (omega arith)),
)

pub unused-mark_range-false :
    (s : Frames) (first count n : ℕ)
    → first + count ≤ n
    → AllUsed s first count true
    → unused (mark_range s first count false) n ≡ unused s n + count
unfolding mark_range
unused-mark_range-false s first zero n h a = omega arith
unused-mark_range-false s first (suc count) n h a = omega (
  arith,
  unused-mark_range-false (mark s first false) (first + 1) count n (omega arith)
      (λ f p q. ground (arith, a f, is_used-mark s first false f)),
  unused-freed s first n (omega arith) (a first (omega arith) (omega arith)),
)

pub unused-le : (s : Frames) (n : ℕ) → unused s n ≤ n
unfolding unused
unused-le s zero = omega arith
unused-le s (suc n) = ground (arith, unused-le s n)
