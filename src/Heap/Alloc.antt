-- ===== src/Heap/Alloc.antt =====
-- What `alloc` and `dealloc` promise their callers (src/heap.rs).
use native.Mathlib.Nat.{pow-suc, one-le-pow}
use veil_os.Base.{
  ℕ, zero, suc, ◌+◌, ◌*◌, ◌%◌, ◌^◌, ◌≤◌, ◌<◌, ◌≡◌, ap, ◌≢◌, inl, inr, List, none, some, arith,
  Option-cases,
}
use veil_os.Heap.{
  Block, block, FreeList, Layout, take_fit, carve, alloc, dealloc, free_bytes, normalize,
}
use veil_os.Heap.Align.{IsLayout, IsNormal, normalize_lem}
use veil_os.Heap.Chain.{IsBlock}
use veil_os.Heap.Bytes.{inside}
use veil_os.Heap.Fit.{owners-le-one, Taken, take_fit-Taken, take_fit-none}
use veil_os.Heap.State.{IsHeap, free_at, IsTaken, Given, insert-Given, Carved, carve-Carved}
use veil_os.Heap.Canonical.{eq_of_bytes}

-- The number of bytes that a layout takes.
abbrev pub needed : Layout → ℕ
needed l = (normalize l).0

power_divides : (k x : ℕ) → 2 ^ k < 16 → x % 16 ≡ 0 → x % 2 ^ k ≡ 0
power_divides zero x h e = omega arith
power_divides (suc zero) x h e = omega arith
power_divides (suc (suc zero)) x h e = omega arith
power_divides (suc (suc (suc zero))) x h e = omega arith
power_divides (suc (suc (suc (suc k)))) x h e = absurd (
    omega (
      arith,
      pow-suc 2 (suc (suc (suc k))),
      pow-suc 2 (suc (suc k)),
      pow-suc 2 (suc k),
      pow-suc 2 k,
      one-le-pow k 2 (omega arith),
    ))

-- What a caller is given with the address `p` for a layout.
pub record Allocated (fl : FreeList) (l : Layout) (p : ℕ) (after : FreeList) : Type 0 where
  pub heap : IsHeap after
  pub aligned : p % l.align ≡ 0
  pub nonnull : 0 < p
  pub valid : IsBlock (block p (needed l))
  pub enough : l.size ≤ needed l
  pub bytes : (x : ℕ) → free_at after x + inside x (block p (needed l)) ≡ free_at fl x
  pub count : free_bytes after + needed l ≡ free_bytes fl

aligned_of_normal :
    (l : Layout) (v : IsLayout l) {size align j : ℕ} (p : ℕ)
    → IsNormal l size align j
    → p % 16 ≡ 0
    → p % align ≡ 0
    → p % l.align ≡ 0
aligned_of_normal l v p n units e = ground (arith, n.align_power, v.power, power_divides v.log p)

fit_none :
    (fl : FreeList) (l : Layout)
    → take_fit (normalize l).0 (normalize l).1 fl.head ≡ none
    → alloc fl l ≡ (none, fl)
unfolding alloc
fit_none fl l e = rw (e, alloc)

fit_some :
    (fl : FreeList) (l : Layout) (b : Block) (rest : List Block)
    → take_fit (normalize l).0 (normalize l).1 fl.head ≡ some (b, rest)
    → alloc fl l ≡ carve fl b rest (normalize l).0 (normalize l).1
unfolding alloc
fit_some fl l b rest e = rw (e, alloc)

-- A block that first fit finds is carved.
alloc-Carved :
    (fl : FreeList) (l : Layout) (b : Block) (rest : List Block)
    → IsHeap fl
    → IsLayout l
    → take_fit (normalize l).0 (normalize l).1 fl.head ≡ some (b, rest)
    → (p : ℕ) × ((alloc fl l).0 ≡ some p) × Carved fl (needed l) (normalize l).1 p (alloc fl l).1
alloc-Carved fl l b rest h v e =
    let (j, n) = normalize_lem l v in
    let t = take_fit-Taken 1 (normalize l).0 (normalize l).1 fl.head h.chain e in
    let t' : Taken 1 (normalize l).0 (16 * suc j) fl.head b rest = rw n.align_units at t in
    let c =
      carve-Carved fl b rest (normalize l).0 j h t' n.units n.nonempty
        (omega (arith, n.room, n.align_units)) in
    rw (fit_some fl l b rest e, n.align_units) (_, c.0, c.1)

-- On a well-formed heap and a layout whose alignment is a power of two within bounds, a successful
-- alloc returns a non-null address that is a multiple of the alignment; the rounded-up size there
-- is at least the size asked for, its bytes were free and are free no longer, every other byte
-- keeps its state, the free count falls by that size, and the heap stays well-formed.
pub alloc-Allocated :
    (fl : FreeList) (l : Layout) {p : ℕ}
    → IsHeap fl
    → IsLayout l
    → (alloc fl l).0 ≡ some p
    → Allocated fl l p (alloc fl l).1
unfolding free_bytes
alloc-Allocated fl l {p} h v e =
    elim (Option-cases (take_fit (normalize l).0 (normalize l).1 fl.head)) [
      | inl none_fits ↦ absurd (cc (fit_none fl l none_fits))
      | inr ((b, rest), found) ↦
          let (q, got, c) = alloc-Carved fl l b rest h v found in
          let same : q ≡ p = cc in
          let c' : Carved fl (needed l) (normalize l).1 p (alloc fl l).1 = rw same at c in
          let n = (normalize_lem l v).1 in
          record {
            heap = c'.heap;
            aligned = aligned_of_normal l v p n c'.valid.aligned c'.aligned;
            nonnull = c'.nonnull;
            valid = c'.valid;
            enough = n.enough;
            bytes = c'.bytes;
            count = c'.count;
          }
    ]

-- On a well-formed heap and a valid layout, if alloc returns null then the allocator is unchanged
-- and no address of the normalized alignment starts a range of the normalized size whose bytes are
-- all free.
pub alloc-none :
    (fl : FreeList) (l : Layout)
    → IsHeap fl
    → IsLayout l
    → (alloc fl l).0 ≡ none
    → ((alloc fl l).1 ≡ fl)
      × ((p : ℕ)
          → p % (normalize l).1 ≡ 0
          → ¬ ((x : ℕ) → p ≤ x → x < p + needed l → free_at fl x ≢ 0))
alloc-none fl l h v e = elim (Option-cases (take_fit (normalize l).0 (normalize l).1 fl.head)) [
  | inl none_fits ↦ (
    ap (λ r. r.1) (fit_none fl l none_fits),
    let (j, n) = normalize_lem l v in
        λ p m f.
          take_fit-none 1 (needed l) j p fl.head h.chain n.nonempty
            (omega (arith, n.room, n.align_units)) (rw n.align_units at none_fits)
            (rw n.align_units at m) f,
  )
  | inr ((b, rest), found) ↦ let (q, got, c) = alloc-Carved fl l b rest h v found in absurd (cc)
]

-- On a well-formed heap, dealloc of a valid non-null block none of whose bytes is free keeps the
-- heap well-formed (sorted, coalesced, counted), adds just the bytes of that block to the free
-- ones, and raises the free count by its size.
pub dealloc-Given :
    (fl : FreeList) (ptr : ℕ) (l : Layout)
    → IsHeap fl
    → IsBlock (block ptr (needed l))
    → 0 < ptr
    → IsTaken fl ptr (needed l)
    → Given fl ptr (needed l) (dealloc fl ptr l)
unfolding dealloc
dealloc-Given fl ptr l h v pos taken = insert-Given fl ptr (needed l) h v pos taken

eq_of_heaps : (a b : FreeList) → IsHeap a → IsHeap b → ((x : ℕ) → free_at a x ≡ free_at b x) → a ≡ b
eq_of_heaps a b p q same =
    let heads : a.head ≡ b.head = eq_of_bytes 1 1 a.head b.head p.chain q.chain same in
    ground (arith, p.count, q.count, heads)

pub Allocated-IsTaken :
    (fl : FreeList) (l : Layout) {p : ℕ} {after : FreeList}
    → IsHeap fl
    → Allocated fl l p after
    → IsTaken after p (needed l)
unfolding inside
Allocated-IsTaken fl l h a x q r = ground (arith, a.bytes x, owners-le-one x 1 fl.head h.chain)

-- On a well-formed heap and a valid layout, freeing the block that a successful alloc returned,
-- with the same layout, restores the free list and the free count exactly.
pub dealloc-alloc :
    (fl : FreeList) (l : Layout) {p : ℕ}
    → IsHeap fl
    → IsLayout l
    → (alloc fl l).0 ≡ some p
    → dealloc (alloc fl l).1 p l ≡ fl
dealloc-alloc fl l {p} h v e =
    let a = alloc-Allocated fl l h v e in
    let g =
      dealloc-Given (alloc fl l).1 p l a.heap a.valid a.nonnull (Allocated-IsTaken fl l h a) in
    eq_of_heaps _ fl g.heap h (λ x. omega (arith, g.bytes x, a.bytes x))
