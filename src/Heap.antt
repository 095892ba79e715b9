-- ===== src/Heap.antt =====
-- The kernel heap (src/heap.rs): an address-ordered free list with first fit, split and coalesce.
-- A `Node` stands in the first bytes of the free block that it describes, so the chain of nodes
-- from `head` is the list of the free blocks.
mod Align
pub mod Alloc
mod Canonical
mod Client
mod Tests
mod State
mod Fit
mod Bytes
mod Chain
use veil_os.Base.{
  ℕ, ◌+◌, ◌-◌, ◌%◌, ◌≡◌, max, Bool, List, [], ◌∷◌, Option, none, some, ltb, leb, ◌==◌,
  if◌then◌else◌,
}
use veil_os.Base.Word.{add64, sub64}

abbrev pub min_block : ℕ
min_block = 16

-- A free block: the address of its node, and the node's `size`.
pub record Block : Type 0 where
  pub start : ℕ
  pub size : ℕ

abbrev pub block : ℕ → ℕ → Block
block a n = record { start = a; size = n }

pub record FreeList : Type 0 where
  pub head : List Block
  pub free : ℕ

pub record Layout : Type 0 where
  pub size : ℕ
  pub align : ℕ

-- `usize::next_multiple_of`.
unfoldable pub next_multiple_of : ℕ → ℕ → ℕ
next_multiple_of x m = if x % m == 0 then x else add64 x (m - x % m)

unfoldable pub normalize : Layout → ℕ × ℕ
normalize l = (next_multiple_of (max l.size 1) min_block, max l.align min_block)

-- The new node before `next`, coalesced with it where they touch.
unfoldable pub link : ℕ → ℕ → List Block → List Block
link start size [] = block start size ∷ []
link start size (next ∷ rest) =
    if add64 start size == next.start
    then block start (add64 size next.size) ∷ rest
    else block start size ∷ next ∷ rest

-- Coalescing backward, with the node before the new one.
unfoldable pub join_back : Block → List Block → List Block
join_back before [] = before ∷ []
join_back before (node ∷ rest) =
    if add64 before.start before.size == node.start
    then block before.start (add64 before.size node.size) ∷ rest
    else before ∷ node ∷ rest

-- The walk of `insert` once `prev` points into the node `before`: the list from `before` on.
unfoldable pub insert_after : Block → ℕ → ℕ → List Block → List Block
insert_after before start size [] = join_back before (link start size [])
insert_after before start size (b ∷ rest) =
    if ltb b.start start
    then before ∷ insert_after b start size rest
    else join_back before (link start size (b ∷ rest))

-- The walk from `head`, behind which there is no node to coalesce with.
unfoldable pub insert_list : ℕ → ℕ → List Block → List Block
insert_list start size [] = link start size []
insert_list start size (b ∷ rest) =
    if ltb b.start start then insert_after b start size rest else link start size (b ∷ rest)

unfoldable pub insert : FreeList → ℕ → ℕ → FreeList
insert fl start size = record { head = insert_list start size fl.head; free = add64 fl.free size }

-- Does the block hold `size` bytes from its first aligned address on?
unfoldable pub fits : ℕ → ℕ → Block → Bool
fits size align b = leb (add64 (next_multiple_of b.start align) size) (add64 b.start b.size)

-- A block that does not fit stays in front of what is left.
unfoldable pub keep : Block → Option (Block × List Block) → Option (Block × List Block)
keep b none = none
keep b (some (c, others)) = some (c, b ∷ others)

-- The first block that fits, and the list without it.
unfoldable pub take_fit : ℕ → ℕ → List Block → Option (Block × List Block)
take_fit size align [] = none
take_fit size align (b ∷ rest) =
    if fits size align b then some (b, rest) else keep b (take_fit size align rest)

unfoldable pub give_back : FreeList → ℕ → ℕ → FreeList
give_back fl start size = if ltb 0 size then insert fl start size else fl

-- Takes the block `b` out, which leaves `rest`, and gives back its unused ends.
unfoldable pub carve : FreeList → Block → List Block → ℕ → ℕ → Option ℕ × FreeList
carve fl b rest size align =
    let aligned = next_multiple_of b.start align in
    let front = sub64 aligned b.start in
    let back = sub64 (add64 b.start b.size) (add64 aligned size) in
    let taken : FreeList = record { head = rest; free = sub64 fl.free b.size } in
    (some aligned, give_back (give_back taken b.start front) (add64 aligned size) back)

-- `none` is the null pointer.
unfoldable pub alloc : FreeList → Layout → Option ℕ × FreeList
alloc fl layout =
    let (size, align) = normalize layout in
    elim (take_fit size align fl.head) [
      | none ↦ (none, fl)
      | some (b, rest) ↦ carve fl b rest size align
    ]

unfoldable pub dealloc : FreeList → ℕ → Layout → FreeList
dealloc fl ptr layout = insert fl ptr (normalize layout).0

-- The allocator before `init`.
unfoldable pub empty : FreeList
empty = record { head = []; free = 0 }

unfoldable pub init : FreeList → ℕ → ℕ → FreeList
init fl start size = insert fl start size

unfoldable pub free_bytes : FreeList → ℕ
free_bytes fl = fl.free
