-- ===== src/Heap/Bytes.antt =====
-- The free list as a set of bytes: how many of its blocks hold an address.
use veil_os.Base.{
  ◌-◌, ◌≤◌, Bool-cases, inl, inr, ℕ, ◌+◌, ◌≡◌, refl, List, [], ◌∷◌, arith, ltb, leb, if◌then◌else◌,
  ◌&&◌,
}
use veil_os.Base.Word.{add64_lem}
use veil_os.Heap.{insert_after, insert_list, Block, block, link, join_back}
use veil_os.Heap.Chain.{IsApart, link-IsChain, IsBlock, IsChain}

-- 1 if the block holds the byte at `x`, else 0.
unfoldable pub inside : ℕ → Block → ℕ
inside x b = if leb b.start x && ltb x (b.start + b.size) then 1 else 0

-- The number of blocks that hold the byte at `x`.
unfoldable pub owners : ℕ → List Block → ℕ
owners x [] = 0
owners x (b ∷ rest) = inside x b + owners x rest

-- The sum of the sizes.
unfoldable pub total : List Block → ℕ
total [] = 0
total (b ∷ rest) = b.size + total rest

pub inside_split :
    (x start m n : ℕ)
    → inside x (block start (m + n)) ≡ inside x (block start m) + inside x (block (start + m) n)
unfolding inside
inside_split x start m n = ground arith

pub inside_three :
    (x start size first n : ℕ)
    → start ≤ first
    → first + n ≤ start + size
    → inside x (block start size)
      ≡ inside x (block start (first - start))
        + inside x (block first n)
        + inside x (block (first + n) (start + size - (first + n)))
unfolding inside
inside_three x start size first n h k = ground arith

owners-link :
    (x start size : ℕ) (l : List Block)
    → IsBlock (block start size)
    → IsChain start l
    → owners x (link start size l) ≡ inside x (block start size) + owners x l
unfolding link owners
owners-link x start size [] v c = refl
owners-link x start size (b ∷ rest) v c =
    ground
      (arith, add64_lem start size, add64_lem size b.size, inside_split x start size b.size, c.0)

total-link :
    (start size : ℕ) (l : List Block)
    → IsBlock (block start size)
    → IsChain start l
    → total (link start size l) ≡ size + total l
unfolding link total
total-link start size [] v c = refl
total-link start size (b ∷ rest) v c = ground (arith, add64_lem start size, add64_lem size b.size)

owners-join_back :
    (x : ℕ) (p : Block) (l : List Block)
    → IsBlock p
    → IsChain (p.start + p.size) l
    → owners x (join_back p l) ≡ inside x p + owners x l
unfolding join_back owners
owners-join_back x p [] v c = refl
owners-join_back x p (b ∷ rest) v c =
    ground (
      arith,
      add64_lem p.start p.size,
      add64_lem p.size b.size,
      inside_split x p.start p.size b.size,
    )

total-join_back :
    (p : Block) (l : List Block)
    → IsBlock p
    → IsChain (p.start + p.size) l
    → total (join_back p l) ≡ p.size + total l
unfolding join_back total
total-join_back p [] v c = refl
total-join_back p (b ∷ rest) v c = ground (arith, add64_lem p.start p.size, add64_lem p.size b.size)

-- What `link` leaves of a chain, for `join_back`.
module _ (p : Block) (start size : ℕ) (l : List Block) (vp : IsBlock p)
    (hs : p.start + p.size ≤ start) (c : IsChain start l) (v : IsBlock (block start size))
    (a : IsApart start size l) where
  linked : IsChain (p.start + p.size) (link start size l)
  linked = link-IsChain (p.start + p.size) start size l v hs c a

  owners-join_back-link :
      (x : ℕ)
      → owners x (join_back p (link start size l))
        ≡ inside x p + (inside x (block start size) + owners x l)
  owners-join_back-link x =
      omega (arith, owners-join_back x p _ vp linked, owners-link x start size l v c)

  total-join_back-link : total (join_back p (link start size l)) ≡ p.size + (size + total l)
  total-join_back-link = omega (arith, total-join_back p _ vp linked, total-link start size l v c)

owners-insert_after :
    (x : ℕ) (p : Block) (start size : ℕ) (l : List Block)
    → IsBlock p
    → p.start + p.size ≤ start
    → IsChain (p.start + p.size + 1) l
    → IsBlock (block start size)
    → IsApart start size l
    → (owners x (insert_after p start size l)
        ≡ inside x p + (inside x (block start size) + owners x l))
      × (total (insert_after p start size l) ≡ p.size + (size + total l))
unfolding insert_after owners total
owners-insert_after x p start size [] vp hs c v a = (
  owners-join_back-link p start size [] vp hs tt v tt x,
  total-join_back-link p start size [] vp hs tt v tt,
)
owners-insert_after x p start size (b ∷ rest) vp hs c v a = elim (Bool-cases (ltb b.start start)) [
  | inl e ↦
      let below : b.start + b.size ≤ start = ground arith in
      let ih = owners-insert_after x b start size rest c.0 below c.2 v a.1 in
      rw e (omega (arith, ih.0), omega (arith, ih.1))
  | inr e ↦
      let above : IsChain start (b ∷ rest) = (c.0, ground arith, c.2) in
      rw e (
        owners-join_back-link p start size (b ∷ rest) vp hs above v a x,
        total-join_back-link p start size (b ∷ rest) vp hs above v a,
      )
]

-- The walk adds the bytes of the new block to the list, and no others.
pub owners-insert_list :
    (x lo start size : ℕ) (l : List Block)
    → IsChain lo l
    → IsBlock (block start size)
    → IsApart start size l
    → (owners x (insert_list start size l) ≡ inside x (block start size) + owners x l)
      × (total (insert_list start size l) ≡ size + total l)
unfolding insert_list owners total
owners-insert_list x lo start size [] c v a =
    (owners-link x start size [] v tt, total-link start size [] v tt)
owners-insert_list x lo start size (b ∷ rest) c v a = elim (Bool-cases (ltb b.start start)) [
  | inl e ↦
      let below : b.start + b.size ≤ start = ground arith in
      let ih = owners-insert_after x b start size rest c.0 below c.2 v a.1 in
      rw e (omega (arith, ih.0), omega (arith, ih.1))
  | inr e ↦
      let above : IsChain start (b ∷ rest) = (c.0, ground arith, c.2) in
      rw e (owners-link x start size (b ∷ rest) v above, total-link start size (b ∷ rest) v above)
]
