-- ===== src/Frames.antt =====
-- The physical frame allocator (src/frames.rs): one bit per 4 KiB frame, next-fit scan.
-- The static variables are one record; `bitmap` gives the word at each index of `BITMAP`.
mod Alloc
mod Tests
mod Boot
mod Bitmap
mod Scan
use Prim.Native.Nat.{bit_and, bit_or}
use veil_os.Base.{
  ℕ, zero, suc, ◌+◌, ◌-◌, ◌*◌, ◌/◌, ◌%◌, ◌^◌, min, Bool, true, false, not, List, [], ◌∷◌, Option,
  none, some, leb, ◌==◌, if◌then◌else◌,
}
use veil_os.Base.Word.{add64, sub64}

abbrev pub frame_size : ℕ
frame_size = 4096

-- 4 GiB of frames.
abbrev pub max_frames : ℕ
max_frames = 2 ^ 20

pub record Frames : Type 0 where
  pub bitmap : ℕ → ℕ
  pub ram_base : ℕ
  pub nframes : ℕ
  pub cursor : ℕ
  pub free : ℕ

-- The statics before `init`.
unfoldable pub zeroed : Frames
zeroed = record { bitmap = λ i. 0; ram_base = 0; nframes = 0; cursor = 0; free = 0 }

abbrev pub update : (ℕ → ℕ) → ℕ → ℕ → ℕ → ℕ
update m i v j = if i == j then v else m j

-- `!bit` on a u64.
abbrev pub complement : ℕ → ℕ
complement bit = 2 ^ 64 - 1 - bit

unfoldable pub mark : Frames → ℕ → Bool → Frames
mark s frame used =
    let word = s.bitmap (frame / 64) in
    let bit = 2 ^ (frame % 64) in
    record s {
      bitmap =
          update s.bitmap (frame / 64)
            (if used then bit_or word bit else bit_and word (complement bit));
    }

unfoldable pub is_used : Frames → ℕ → Bool
is_used s frame = not (bit_and (s.bitmap (frame / 64)) (2 ^ (frame % 64)) == 0)

-- for f in first..first + count { mark(f, used) }
unfoldable pub mark_range : Frames → ℕ → ℕ → Bool → Frames
mark_range s first zero used = s
mark_range s first (suc count) used = mark_range (mark s first used) (first + 1) count used

-- The inner loop of `init`: `n` more frames of a reserved range.
unfoldable pub reserve_range : Frames → ℕ → ℕ → Frames
reserve_range s frame zero = s
reserve_range s frame (suc n) =
    reserve_range
      (if is_used s frame then s else record (mark s frame true) { free = sub64 s.free 1 })
      (frame + 1) n

-- One reserved range [start, end). With no frame at all `nframes - 1` is out of range.
unfoldable pub reserve : Frames → ℕ × ℕ → Frames
reserve s (start, end) =
    if leb end start
    then s
    else (let first = (start - s.ram_base) / frame_size in
        let last = min ((end - 1 - s.ram_base) / frame_size) (s.nframes - 1) in
        reserve_range s first (last + 1 - first))

unfoldable pub reserve_all : Frames → List (ℕ × ℕ) → Frames
reserve_all s [] = s
reserve_all s (r ∷ rest) = reserve_all (reserve s r) rest

unfoldable pub init : Frames → ℕ → ℕ → List (ℕ × ℕ) → Frames
init s ram_base ram_size reserved =
    let nframes = min (ram_size / frame_size) max_frames in
    reserve_all (record s { ram_base = ram_base; nframes = nframes; free = nframes }) reserved

unfoldable pub free_frames : Frames → ℕ
free_frames s = s.free

-- The scan: `n` steps are left of the two passes, `run` is the run of free frames that ends at
-- `frame`. The result is the first frame of the run, and the frame behind it.
unfoldable pub scan : Frames → ℕ → ℕ → ℕ → ℕ → Option (ℕ × ℕ)
scan s count zero frame run = none
scan s count (suc n) frame run =
    let at = if leb s.nframes frame then 0 else frame in
    let before = if leb s.nframes frame then 0 else run in
    let run' = if is_used s at then 0 else before + 1 in
    let rest = scan s count n (at + 1) run' in
    if run' == count then some (at + 1 - count, at + 1) else rest

unfoldable pub alloc_contiguous : Frames → ℕ → Option ℕ × Frames
alloc_contiguous s count = elim (scan s count (2 * s.nframes) s.cursor 0) [
  | none ↦ (none, s)
  | some (first, frame) ↦ (
    some (add64 s.ram_base (first * frame_size)),
    record (mark_range s first count true) { free = sub64 s.free count; cursor = frame },
  )
]

unfoldable pub alloc : Frames → Option ℕ × Frames
alloc s = alloc_contiguous s 1

unfoldable pub free : Frames → ℕ → ℕ → Frames
free s pa count =
    let first = sub64 pa s.ram_base / frame_size in
    record (mark_range s first count false) { free = add64 s.free count }
