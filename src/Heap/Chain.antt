-- ===== src/Heap/Chain.antt =====
-- The shape of the free list (src/heap.rs): address order, room between the blocks, units of 16.
use veil_os.Base.{
  ℕ, ◌+◌, ◌%◌, ◌^◌, ◌≤◌, ◌<◌, ◌≡◌, ◌⊎◌, inl, inr, List, [], ◌∷◌, arith, ltb, Bool-cases,
}
use veil_os.Base.Word.{add64_lem}
use veil_os.Heap.{Block, block, link, join_back, insert_after, insert_list}

-- A block that can hold its node: aligned, a positive number of units, below 2 ^ 63.
pub record IsBlock (b : Block) : Type 0 where
  pub aligned : b.start % 16 ≡ 0
  pub units : b.size % 16 ≡ 0
  pub nonempty : 0 < b.size
  pub bounded : b.start + b.size ≤ 2 ^ 63

-- The blocks stand in address order from `lo` on, and no two of them touch.
abbrev pub IsChain : ℕ → List Block → Type 0
IsChain lo [] = Unit {0}
IsChain lo (b ∷ rest) = IsBlock b × (lo ≤ b.start) × IsChain (b.start + b.size + 1) rest

-- The bytes from `start` on, `size` of them, are in no block of the list.
abbrev pub IsApart : ℕ → ℕ → List Block → Type 0
IsApart start size [] = Unit {0}
IsApart start size (b ∷ rest) =
    ((b.start + b.size ≤ start) ⊎ (start + size ≤ b.start)) × IsApart start size rest

pub IsChain-mono : (lo lo' : ℕ) (l : List Block) → lo' ≤ lo → IsChain lo l → IsChain lo' l
IsChain-mono lo lo' [] h c = tt
IsChain-mono lo lo' (b ∷ rest) h c = (c.0, omega arith, c.2)

pub link-IsChain :
    (lo start size : ℕ) (l : List Block)
    → IsBlock (block start size)
    → lo ≤ start
    → IsChain start l
    → IsApart start size l
    → IsChain lo (link start size l)
unfolding link
link-IsChain lo start size [] v h c a = (v, h, tt)
link-IsChain lo start size (b ∷ rest) v h c a = ground (
  arith,
  add64_lem start size,
  add64_lem size b.size,
  IsChain-mono (b.start + b.size + 1) (start + (size + b.size) + 1) rest,
)

pub join_back-IsChain :
    (lo : ℕ) (p : Block) (l : List Block)
    → IsBlock p
    → lo ≤ p.start
    → IsChain (p.start + p.size) l
    → IsChain lo (join_back p l)
unfolding join_back
join_back-IsChain lo p [] v h c = (v, h, tt)
join_back-IsChain lo p (b ∷ rest) v h c = ground (
  arith,
  add64_lem p.start p.size,
  add64_lem p.size b.size,
  IsChain-mono (b.start + b.size + 1) (p.start + (p.size + b.size) + 1) rest,
)

insert_after-IsChain :
    (lo : ℕ) (p : Block) (start size : ℕ) (l : List Block)
    → IsBlock p
    → lo ≤ p.start
    → p.start + p.size ≤ start
    → IsChain (p.start + p.size + 1) l
    → IsBlock (block start size)
    → IsApart start size l
    → IsChain lo (insert_after p start size l)
unfolding insert_after
insert_after-IsChain lo p start size [] vp hp hs c v a =
    join_back-IsChain lo p (link start size []) vp hp
      (link-IsChain (p.start + p.size) start size [] v hs tt tt)
insert_after-IsChain lo p start size (b ∷ rest) vp hp hs c v a =
    elim (Bool-cases (ltb b.start start)) [
      | inl e ↦ rw e (
        vp,
        hp,
        insert_after-IsChain (p.start + p.size + 1) b start size rest c.0 c.1 (ground arith) c.2 v
            a.1,
      )
      | inr e ↦ rw e (
          join_back-IsChain lo p (link start size (b ∷ rest)) vp hp
            (link-IsChain (p.start + p.size) start size (b ∷ rest) v hs (c.0, ground arith, c.2) a))
    ]

pub insert_list-IsChain :
    (lo start size : ℕ) (l : List Block)
    → lo ≤ start
    → IsChain lo l
    → IsBlock (block start size)
    → IsApart start size l
    → IsChain lo (insert_list start size l)
unfolding insert_list
insert_list-IsChain lo start size [] h c v a = link-IsChain lo start size [] v h tt tt
insert_list-IsChain lo start size (b ∷ rest) h c v a = elim (Bool-cases (ltb b.start start)) [
  | inl e ↦ rw e (insert_after-IsChain lo b start size rest c.0 c.1 (ground arith) c.2 v a.1)
  | inr e ↦ rw e (link-IsChain lo start size (b ∷ rest) v h (c.0, ground arith, c.2) a)
]
