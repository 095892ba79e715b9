-- ===== src/Frames/Tests.antt =====
-- Runs of the frame allocator, and its theorems at eight frames.
use veil_os.Base.{
  ℕ, zero, suc, ◌+◌, ◌≤◌, ◌<◌, ◌≡◌, refl, true, false, List, [], ◌∷◌, none, some, arith, ◌==◌,
  if◌then◌else◌,
}
use veil_os.Base.Word.{add64}
use veil_os.Frames.{Frames, zeroed, is_used, init, scan, alloc_contiguous, free}
use veil_os.Frames.Bitmap.{unused, AllUsed}
use veil_os.Frames.Alloc.{
  IsConsistent, Allocated, alloc_contiguous-Allocated, alloc_contiguous-none, free-alloc_contiguous,
}
use veil_os.Frames.Boot.{touched, init-zeroed}

-- Frames 1 and 2 of eight are used, and the next search starts at frame 6.
abbrev eight : Frames
eight = record {
  bitmap = λ i. if i == 0 then 6 else 0;
  ram_base = 0x4000_0000;
  nframes = 8;
  cursor = 6;
  free = 6;
}

eight-IsConsistent : IsConsistent eight
unfolding unused is_used
eight-IsConsistent = record {
  counted = refl;
  small = omega arith;
  cursor = omega arith;
  addressed = omega arith;
}

-- Frames 6, 7 and 0 are no run: the search goes on to 3, 4 and 5.
alloc_wraps : (alloc_contiguous eight 3).0 ≡ some 0x4000_3000
unfolding alloc_contiguous scan is_used add64
alloc_wraps = refl

alloc_contiguous-Allocated_example :
    (first : ℕ) × Allocated eight 3 first 0x4000_3000 (alloc_contiguous eight 3).1
alloc_contiguous-Allocated_example =
    alloc_contiguous-Allocated eight 3 eight-IsConsistent alloc_wraps

six_fail : (alloc_contiguous eight 6).0 ≡ none
unfolding alloc_contiguous scan is_used
six_fail = refl

alloc_contiguous-none_example :
    ((alloc_contiguous eight 6).1 ≡ eight)
    × ((first : ℕ) → first + 6 ≤ 8 → ¬ AllUsed eight first 6 false)
alloc_contiguous-none_example =
    alloc_contiguous-none eight 6 eight-IsConsistent (omega arith) six_fail

free-alloc_contiguous_example :
    ((f : ℕ) → is_used (free (alloc_contiguous eight 3).1 0x4000_3000 3) f ≡ is_used eight f)
    × ((free (alloc_contiguous eight 3).1 0x4000_3000 3).free ≡ 6)
free-alloc_contiguous_example = free-alloc_contiguous eight 3 eight-IsConsistent alloc_wraps

one_two : AllUsed eight 1 2 true
unfolding is_used
one_two zero p q = absurd (omega arith)
one_two (suc zero) p q = refl
one_two (suc (suc zero)) p q = refl
one_two (suc (suc (suc f))) p q = absurd (omega arith)

abbrev kernel_and_dtb : List (ℕ × ℕ)
kernel_and_dtb = (0x4008_0000, 0x4010_0000) ∷ (0, 0) ∷ (0x4000_0000, 0x4000_1234) ∷ []

init-zeroed_example :
    IsConsistent (init zeroed 0x4000_0000 0x100_0000 kernel_and_dtb)
    × ((f : ℕ)
        → f < (init zeroed 0x4000_0000 0x100_0000 kernel_and_dtb).nframes
        → is_used (init zeroed 0x4000_0000 0x100_0000 kernel_and_dtb) f
          ≡ touched 0x4000_0000 kernel_and_dtb f)
init-zeroed_example =
    init-zeroed 0x4000_0000 0x100_0000 kernel_and_dtb (omega arith) (omega arith)
      ((λ _. omega arith), ((λ e. omega (arith, e)), ((λ _. omega arith), tt)))
