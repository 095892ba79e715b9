-- ===== src/Heap/Canonical.antt =====
-- A chain of blocks is determined by its bytes, since its blocks do not touch (src/heap.rs).
use veil_os.Base.{ℕ, ◌+◌, ◌≤◌, ◌<◌, ◌≡◌, refl, sym, ap, List, [], ◌∷◌, arith}
use veil_os.Heap.{Block}
use veil_os.Heap.Chain.{IsChain}
use veil_os.Heap.Bytes.{inside, owners}
use veil_os.Heap.Fit.{owners-below}

abbrev SameBytes : List Block → List Block → Type 0
SameBytes l m = (x : ℕ) → owners x l ≡ owners x m

owners-nil : (x : ℕ) → owners x [] ≡ 0
unfolding owners
owners-nil x = refl

start_owned :
    (lo : ℕ) (b : Block) (l : List Block) → IsChain lo (b ∷ l) → 0 < owners b.start (b ∷ l)
unfolding owners inside
start_owned lo b l c = ground arith

-- The byte behind the first block is free, and those in it are not.
head_end :
    (lo : ℕ) (b : Block) (l : List Block)
    → IsChain lo (b ∷ l)
    → owners (b.start + b.size) (b ∷ l) ≡ 0
unfolding owners inside
head_end lo b l c = ground (arith, owners-below (b.start + b.size) (b.start + b.size + 1) l)

head_owned :
    (x lo : ℕ) (b : Block) (l : List Block)
    → IsChain lo (b ∷ l)
    → b.start ≤ x
    → x < b.start + b.size
    → 0 < owners x (b ∷ l)
unfolding owners inside
head_owned x lo b l c p q = ground arith

start_le :
    (lo lo' : ℕ) (b c : Block) (l m : List Block)
    → IsChain lo (b ∷ l)
    → IsChain lo' (c ∷ m)
    → SameBytes (b ∷ l) (c ∷ m)
    → c.start ≤ b.start
start_le lo lo' b c l m p q same = ground (
  arith,
  start_owned lo b l p,
  same b.start,
  owners-below b.start c.start (c ∷ m) (q.0, omega arith, q.2),
)

size_le :
    (lo lo' : ℕ) (b c : Block) (l m : List Block)
    → IsChain lo (b ∷ l)
    → IsChain lo' (c ∷ m)
    → SameBytes (b ∷ l) (c ∷ m)
    → b.start ≡ c.start
    → c.size ≤ b.size
size_le lo lo' b c l m p q same e =
    ground
      (arith, head_end lo b l p, same (b.start + b.size), head_owned (b.start + b.size) lo' c m q)

tail_same :
    (lo lo' : ℕ) (b c : Block) (l m : List Block)
    → SameBytes (b ∷ l) (c ∷ m)
    → b ≡ c
    → SameBytes l m
unfolding owners
tail_same lo lo' b c l m same e x = omega (arith, same x, ap (inside x) e)

-- Two chains that hold the same bytes are the same list.
pub eq_of_bytes :
    (lo lo' : ℕ) (l m : List Block) → IsChain lo l → IsChain lo' m → SameBytes l m → l ≡ m
eq_of_bytes lo lo' [] [] p q same = refl
eq_of_bytes lo lo' [] (c ∷ m) p q same =
    absurd (omega (arith, start_owned lo' c m q, same c.start, owners-nil c.start))
eq_of_bytes lo lo' (b ∷ l) [] p q same =
    absurd (omega (arith, start_owned lo b l p, same b.start, owners-nil b.start))
eq_of_bytes lo lo' (b ∷ l) (c ∷ m) p q same = ground (
  arith,
  heads,
  eq_of_bytes (b.start + b.size + 1) (c.start + c.size + 1) l m p.2 q.2
      (tail_same lo lo' b c l m same heads),
)
  where
    back : SameBytes (c ∷ m) (b ∷ l)
    back x = sym (same x)

    starts : b.start ≡ c.start
    starts = omega (arith, start_le lo lo' b c l m p q same, start_le lo' lo c b m l q p back)

    heads : b ≡ c
    heads = ground (
      arith,
      starts,
      size_le lo lo' b c l m p q same starts,
      size_le lo' lo c b m l q p back (sym starts),
    )
