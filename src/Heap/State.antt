-- ===== src/Heap/State.antt =====
-- The allocator's invariant, and what each of its operations does to the free bytes (src/heap.rs).
use veil_os.Base.{
  ℕ, suc, ◌+◌, ◌-◌, ◌*◌, ◌%◌, ◌^◌, ◌≤◌, ◌<◌, ◌≡◌, refl, inl, inr, false, List, some, arith, ltb,
  Bool-cases,
}
use veil_os.Base.Word.{add64, add64_lem, sub64_lem}
use veil_os.Heap.{
  insert_list, carve, Block, block, FreeList, insert, give_back, fits, next_multiple_of,
}
use veil_os.Heap.Align.{IsNext, next_multiple_of_lem}
use veil_os.Heap.Chain.{IsBlock, IsChain, IsApart, insert_list-IsChain}
use veil_os.Heap.Bytes.{inside, owners, total, owners-insert_list, inside_three}
use veil_os.Heap.Fit.{Taken, IsApart-of_owners, owners-le-one, total-le}

-- The list is a chain of blocks, none of them at the null address, and `free` is their total size.
pub record IsHeap (fl : FreeList) : Type 0 where
  pub chain : IsChain 1 fl.head
  pub count : fl.free ≡ total fl.head

-- The byte at `x` is free: 1 or 0.
abbrev pub free_at : FreeList → ℕ → ℕ
free_at fl x = owners x fl.head

-- None of the `size` bytes from `start` on is free.
abbrev pub IsTaken : FreeList → ℕ → ℕ → Type 0
IsTaken fl start size = (x : ℕ) → start ≤ x → x < start + size → free_at fl x ≡ 0

-- What giving bytes to the heap does.
pub record Given (fl : FreeList) (start size : ℕ) (after : FreeList) : Type 0 where
  pub heap : IsHeap after
  pub bytes : (x : ℕ) → free_at after x ≡ inside x (block start size) + free_at fl x
  pub count : after.free ≡ fl.free + size

pub insert-Given :
    (fl : FreeList) (start size : ℕ)
    → IsHeap fl
    → IsBlock (block start size)
    → 0 < start
    → IsTaken fl start size
    → Given fl start size (insert fl start size)
unfolding insert
insert-Given fl start size h v pos taken = record {
  heap = record {
    chain = chain;
    count = omega (arith, sum, (owners-insert_list 0 1 start size fl.head h.chain v apart).1);
  };
  bytes = λ x. (owners-insert_list x 1 start size fl.head h.chain v apart).0;
  count = sum;
}
  where
    apart : IsApart start size fl.head
    apart = IsApart-of_owners 1 start size fl.head h.chain v.nonempty taken

    chain : IsChain 1 (insert_list start size fl.head)
    chain = insert_list-IsChain 1 start size fl.head pos h.chain v apart

    sum : add64 fl.free size ≡ fl.free + size
    sum = omega (
      arith,
      add64_lem fl.free size,
      total-le 1 (insert_list start size fl.head) chain,
      (owners-insert_list 0 1 start size fl.head h.chain v apart).1,
    )

inside-empty : (x start size : ℕ) → ltb 0 size ≡ false → inside x (block start size) ≡ 0
unfolding inside
inside-empty x start size e = ground arith

pub give_back-Given :
    (fl : FreeList) (start size : ℕ)
    → IsHeap fl
    → (0 < size → IsBlock (block start size))
    → 0 < start
    → IsTaken fl start size
    → Given fl start size (give_back fl start size)
unfolding give_back
give_back-Given fl start size h v pos taken = elim (Bool-cases (ltb 0 size)) [
  | inl e ↦ rw e (insert-Given fl start size h (v (ground arith)) pos taken)
  | inr e ↦ rw e (record {
    heap = h;
    bytes = λ x. ground (arith, inside-empty x start size);
    count = ground arith;
  })
]

-- What a successful allocation of `size` bytes at `p` does.
pub record Carved (fl : FreeList) (size align p : ℕ) (after : FreeList) : Type 0 where
  pub heap : IsHeap after
  pub aligned : p % align ≡ 0
  pub nonnull : 0 < p
  pub valid : IsBlock (block p size)
  pub bytes : (x : ℕ) → free_at after x + inside x (block p size) ≡ free_at fl x
  pub count : after.free + size ≡ fl.free

module _ (fl : FreeList) (b : Block) (rest : List Block) (size j : ℕ) (h : IsHeap fl)
    (t : Taken 1 size (16 * suc j) fl.head b rest) (units : size % 16 ≡ 0) (pos : 0 < size)
    (room : size + 16 * suc j ≤ 2 ^ 63 + 16) where
  abbrev first : ℕ
  first = next_multiple_of b.start (16 * suc j)

  next : IsNext b.start (16 * suc j) first
  next =
      next_multiple_of_lem b.start j t.valid.aligned
        (omega (arith, t.valid.bounded, t.valid.nonempty))

  within : first + size ≤ b.start + b.size
  unfolding fits
  within = ground (arith, t.fit, t.valid, next, add64_lem first size, add64_lem b.start b.size)

  abbrev left : FreeList
  left = record { head = rest; free = fl.free - b.size }

  left-IsHeap : IsHeap left
  left-IsHeap = record { chain = t.chain; count = omega (arith, t.sum, h.count) }

  inside-b : (x : ℕ) → b.start ≤ x → x < b.start + b.size → owners x rest ≡ 0
  unfolding inside
  inside-b x p q = ground (arith, t.bytes x, owners-le-one x 1 fl.head h.chain)

  front : Given left b.start (first - b.start) (give_back left b.start (first - b.start))
  front =
      give_back-Given left b.start (first - b.start) left-IsHeap
        (λ f. record {
          aligned = t.valid.aligned;
          units = omega (arith, next, t.valid);
          nonempty = f;
          bounded = omega (arith, within, t.valid);
        })
        (omega (arith, t.from)) (λ x p q. inside-b x p (omega (arith, within, next)))

  after_front :
      IsTaken
        (give_back left b.start (first - b.start))
        (first + size)
        (b.start + b.size - (first + size))
  unfolding inside
  after_front x p q =
      ground
        (arith, front.bytes x, inside-b x (omega (arith, next)) (omega (arith, within)), next.above)

  back :
      Given
        (give_back left b.start (first - b.start))
        (first + size)
        (b.start + b.size - (first + size))
        (give_back
          (give_back left b.start (first - b.start))
          (first + size)
          (b.start + b.size - (first + size)))
  back =
      give_back-Given _ (first + size) _ front.heap
        (λ f. record {
          aligned = omega (arith, next.units);
          units = omega (arith, next, t.valid, within);
          nonempty = f;
          bounded = omega (arith, within, t.valid);
        })
        (omega (arith, t.from, next)) after_front

  free_small : fl.free < 2 ^ 63
  free_small = omega (arith, total-le 1 fl.head h.chain, h.count)

  carve-eq : carve fl b rest size (16 * suc j) ≡ (
    some first,
    give_back
        (give_back left b.start (first - b.start))
        (first + size)
        (b.start + b.size - (first + size)),
  )
  unfolding carve
  carve-eq = rw (
    add64_lem b.start b.size (omega (arith, t.valid)),
    add64_lem first size (omega (arith, t.valid, within)),
    sub64_lem first b.start (omega (arith, t.valid, within)) (omega (arith, next)),
    sub64_lem fl.free b.size (omega (arith, free_small)) (omega (arith, t.sum, h.count)),
    sub64_lem (b.start + b.size) (first + size) (omega (arith, t.valid)) within,
  )

  pub carve-Carved :
      ((carve fl b rest size (16 * suc j)).0 ≡ some first)
      × Carved fl size (16 * suc j) first (carve fl b rest size (16 * suc j)).1
  carve-Carved = rw carve-eq (
    refl,
    record {
      heap = back.heap;
      aligned = next.multiple;
      nonnull = omega (arith, next, t.from);
      valid = record {
        aligned = next.units;
        units = units;
        nonempty = pos;
        bounded = omega (arith, within, t.valid);
      };
      bytes = λ x. omega (
        arith,
        back.bytes x,
        front.bytes x,
        t.bytes x,
        inside_three x b.start b.size first size next.above within,
      );
      count = omega (arith, back.count, front.count, next, within, t.sum, h.count);
    },
  )
