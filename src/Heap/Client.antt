-- ===== src/Heap/Client.antt =====
-- The allocator with its callers: any sequence of allocations and frees (src/heap.rs).
use veil_os.Base.{ℕ, ◌+◌, ◌≤◌, ◌<◌, ◌≡◌, refl, ap, List, [], ◌∷◌, ◌++◌, none, some, arith}
use veil_os.Heap.{Block, block, FreeList, Layout, alloc, dealloc, init, empty, free_bytes}
use veil_os.Heap.Align.{IsLayout}
use veil_os.Heap.Chain.{IsBlock}
use veil_os.Heap.Bytes.{inside, owners, total}
use veil_os.Heap.State.{IsHeap, free_at, IsTaken, Given, insert-Given}
use veil_os.Heap.Alloc.{needed, alloc-Allocated, alloc-none, dealloc-Given}

-- What a caller holds: the address and the layout that it asked for.
abbrev pub Live : Type 0
Live = List (ℕ × Layout)

abbrev pub held : Live → List Block
held [] = []
held ((p, l) ∷ rest) = block p (needed l) ∷ held rest

pub record System : Type 0 where
  pub heap : FreeList
  pub live : Live

-- Callers allocate any valid layout, and free what they hold with the layout they asked for.
pub data Step (s : System) : System → Type 0 where
  allocates :
      (l : Layout) (p : ℕ)
      → IsLayout l
      → (alloc s.heap l).0 ≡ some p
      → Step s (record { heap = (alloc s.heap l).1; live = (p, l) ∷ s.live })
  fails :
      (l : Layout)
      → IsLayout l
      → (alloc s.heap l).0 ≡ none
      → Step s (record { heap = (alloc s.heap l).1; live = s.live })
  frees :
      (before after : Live) (p : ℕ) (l : Layout)
      → s.live ≡ before ++ ((p, l) ∷ after)
      → Step s (record { heap = dealloc s.heap p l; live = before ++ after })

pub data Reach (s : System) : System → Type 0 where
  here : Reach s s
  next : {t u : System} → Reach s t → Step t u → Reach s u

-- After `init` with the RAM from `start` on.
abbrev pub booted : ℕ → ℕ → System
booted start size = record { heap = init empty start size; live = [] }

abbrev AllBlocks : List Block → Type 0
AllBlocks [] = Unit {0}
AllBlocks (b ∷ rest) = IsBlock b × (0 < b.start) × AllBlocks rest

-- Every byte of the arena is free or in one caller's block, and no other byte is in either.
pub record Partition (start size : ℕ) (s : System) : Type 0 where
  pub heap : IsHeap s.heap
  pub blocks : AllBlocks (held s.live)
  pub bytes : (x : ℕ) → free_at s.heap x + owners x (held s.live) ≡ inside x (block start size)
  pub count : free_bytes s.heap + total (held s.live) ≡ size

owners-held :
    (x : ℕ) (before after : Live) (p : ℕ) (l : Layout)
    → (owners x (held (before ++ ((p, l) ∷ after)))
        ≡ inside x (block p (needed l)) + owners x (held (before ++ after)))
      × (total (held (before ++ ((p, l) ∷ after))) ≡ needed l + total (held (before ++ after)))
unfolding owners total
owners-held x [] after p l = (refl, refl)
owners-held x ((q, m) ∷ before) after p l = omega (arith, owners-held x before after p l)

AllBlocks-held :
    (before after : Live) (p : ℕ) (l : Layout)
    → AllBlocks (held (before ++ ((p, l) ∷ after)))
    → IsBlock (block p (needed l)) × (0 < p) × AllBlocks (held (before ++ after))
AllBlocks-held [] after p l a = a
AllBlocks-held ((q, m) ∷ before) after p l a =
    let (v, h, rest) = AllBlocks-held before after p l a.2 in (v, h, (a.0, a.1, rest))

module _ (start size : ℕ) where
  pub booted-Partition :
      IsBlock (block start size) → 0 < start → Partition start size (booted start size)
  unfolding init empty owners total free_bytes
  booted-Partition v h =
      let g =
        insert-Given (record { head = []; free = 0 }) start size
          (record { chain = tt; count = refl }) v h (λ x p q. refl) in
      record {
        heap = g.heap;
        blocks = tt;
        bytes = λ x. omega (arith, g.bytes x);
        count = omega (arith, g.count);
      }

  inside-le-one : (x : ℕ) → inside x (block start size) ≤ 1
  unfolding inside
  inside-le-one x = ground arith

  freed-IsTaken :
      (s : System) (before after : Live) (p : ℕ) (l : Layout)
      → s.live ≡ before ++ ((p, l) ∷ after)
      → Partition start size s
      → IsTaken s.heap p (needed l)
  unfolding inside
  freed-IsTaken s before after p l e v x q r = ground (
    arith,
    v.bytes x,
    ap (λ w. owners x (held w)) e,
    owners-held x before after p l,
    inside-le-one x,
  )

  freed_count :
      (s : System) (before after : Live) (p : ℕ) (l : Layout)
      → s.live ≡ before ++ ((p, l) ∷ after)
      → Partition start size s
      → Given s.heap p (needed l) (dealloc s.heap p l)
      → free_bytes (dealloc s.heap p l) + total (held (before ++ after)) ≡ size
  unfolding free_bytes
  freed_count s before after p l e i g =
      omega (arith, g.count, i.count, ap (λ w. total (held w)) e, owners-held 0 before after p l)

  -- No step loses a byte, hands one out twice, or makes one up.
  pub Step-Partition : {s t : System} → Step s t → Partition start size s → Partition start size t
  unfolding owners total
  Step-Partition {s} (allocates l p v e) i =
      let a = alloc-Allocated s.heap l i.heap v e in
      record {
        heap = a.heap;
        blocks = (a.valid, a.nonnull, i.blocks);
        bytes = λ x. omega (arith, a.bytes x, i.bytes x);
        count = omega (arith, a.count, i.count);
      }
  Step-Partition {s} (fails l v e) i =
      rw ((alloc-none s.heap l i.heap v e).0)
        (record { heap = i.heap; blocks = i.blocks; bytes = i.bytes; count = i.count })
  Step-Partition {s} (frees before after p l e) i =
      let all : AllBlocks (held (before ++ ((p, l) ∷ after))) = rw e at i.blocks in
      let (v, h, rest) = AllBlocks-held before after p l all in
      let g = dealloc-Given s.heap p l i.heap v h (freed-IsTaken s before after p l e i) in
      record {
        heap = g.heap;
        blocks = rest;
        bytes = λ x. omega (
          arith,
          g.bytes x,
          i.bytes x,
          ap (λ w. owners x (held w)) e,
          owners-held x before after p l,
        );
        count = freed_count s before after p l e i g;
      }

  -- Start from an empty allocator that init gives one arena, a valid non-empty block at a non-null
  -- address, and take any sequence of steps: an allocation that succeeds, an allocation that
  -- fails, or a free of a live block with its layout. Then the free list is sorted, coalesced and
  -- counted, every live block is valid and non-null, every byte of the arena is either free or in
  -- exactly one live block, no byte outside it is in either, and free_bytes plus the sizes of the
  -- live blocks is the size of the arena.
  pub Reach-Partition :
      {s : System}
      → IsBlock (block start size)
      → 0 < start
      → Reach (booted start size) s
      → Partition start size s
  Reach-Partition v h here = booted-Partition v h
  Reach-Partition v h (next r st) = Step-Partition st (Reach-Partition v h r)
