-- ===== src/Heap/Tests.antt =====
-- Runs of the allocator, and its theorems at a heap of two blocks.
use veil_os.Base.{ℕ, ◌+◌, ◌%◌, ◌≤◌, ◌<◌, ◌≡◌, refl, ap, ◌≢◌, [], ◌∷◌, none, some, arith}
use veil_os.Heap.{
  block, FreeList, Layout, next_multiple_of, normalize, link, join_back, insert_after, insert_list,
  insert, fits, keep, take_fit, give_back, carve, alloc, dealloc, init, empty,
}
use veil_os.Base.Word.{add64, sub64}
use veil_os.Heap.Align.{IsLayout}
use veil_os.Heap.Bytes.{inside, owners, total}
use veil_os.Heap.State.{IsHeap, free_at, Given}
use veil_os.Heap.Alloc.{
  Allocated, needed, alloc-Allocated, alloc-none, dealloc-Given, dealloc-alloc,
}
use veil_os.Heap.Client.{System, booted, Partition, here, next, allocates, Reach-Partition}

abbrev two_blocks : FreeList
two_blocks = record { head = block 4112 48 ∷ block 8192 1024 ∷ []; free = 1072 }

abbrev wide : Layout
wide = record { size = 40; align = 64 }

abbrev huge : Layout
huge = record { size = 5000; align = 8 }

two_blocks-IsHeap : IsHeap two_blocks
unfolding total
two_blocks-IsHeap = record { chain = omega arith; count = refl }

wide-IsLayout : IsLayout wide
wide-IsLayout = record { log = 6; power = refl; bounded = omega arith }

huge-IsLayout : IsLayout huge
huge-IsLayout = record { log = 3; power = refl; bounded = omega arith }

-- The first block is too short once it is aligned.
alloc_second :
    alloc two_blocks wide
    ≡ (some 8192, record { head = block 4112 48 ∷ block 8240 976 ∷ []; free = 1024 })
unfolding alloc normalize next_multiple_of take_fit fits keep carve give_back insert insert_list
    insert_after link join_back add64 sub64
alloc_second = refl

-- A block given back between two others joins both.
free_between :
    dealloc
      (record { head = block 4096 16 ∷ block 4144 16 ∷ []; free = 32 })
      4112
      (record { size = 20; align = 8 })
    ≡ record { head = block 4096 64 ∷ []; free = 64 }
unfolding dealloc normalize next_multiple_of insert insert_list insert_after link join_back add64
free_between = refl

alloc-Allocated_example : Allocated two_blocks wide 8192 (alloc two_blocks wide).1
alloc-Allocated_example =
    alloc-Allocated two_blocks wide two_blocks-IsHeap wide-IsLayout (ap (λ r. r.0) alloc_second)

huge_fails : alloc two_blocks huge ≡ (none, two_blocks)
unfolding alloc normalize next_multiple_of take_fit fits keep carve add64
huge_fails = refl

alloc-none_example :
    ((alloc two_blocks huge).1 ≡ two_blocks)
    × ((p : ℕ)
        → p % (normalize huge).1 ≡ 0
        → ¬ ((x : ℕ) → p ≤ x → x < p + needed huge → free_at two_blocks x ≢ 0))
alloc-none_example =
    alloc-none two_blocks huge two_blocks-IsHeap huge-IsLayout (ap (λ r. r.0) huge_fails)

dealloc-alloc_example : dealloc (alloc two_blocks wide).1 8192 wide ≡ two_blocks
dealloc-alloc_example =
    dealloc-alloc two_blocks wide two_blocks-IsHeap wide-IsLayout (ap (λ r. r.0) alloc_second)

dealloc-Given_example : Given two_blocks 4160 48 (dealloc two_blocks 4160 wide)
unfolding normalize next_multiple_of owners inside add64
dealloc-Given_example =
    dealloc-Given two_blocks 4160 wide two_blocks-IsHeap (omega arith) (omega arith)
      (λ x p q. ground arith)

abbrev arena : System
arena = booted 4096 1024

arena_alloc : (alloc arena.heap wide).0 ≡ some 4096
unfolding init empty alloc normalize next_multiple_of take_fit fits keep carve give_back insert
    insert_list insert_after link join_back add64 sub64
arena_alloc = refl

Reach-Partition_example :
    Partition 4096 1024 (record { heap = (alloc arena.heap wide).1; live = (4096, wide) ∷ [] })
Reach-Partition_example =
    Reach-Partition 4096 1024 (omega arith) (omega arith)
      (next here (allocates wide 4096 wide-IsLayout arena_alloc))
