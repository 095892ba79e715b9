-- ===== src/Heap/Fit.antt =====
-- First fit (src/heap.rs): what the walk of `alloc` finds, and when it finds nothing.
use native.Mathlib.Nat.{div-add-mod}
use veil_os.Base.{
  ℕ, suc, ◌+◌, ◌*◌, ◌/◌, ◌%◌, ◌^◌, ◌≤◌, ◌<◌, ◌≡◌, refl, ◌≢◌, ◌⊎◌, inl, inr, true, List, [], ◌∷◌,
  Option, none, some, arith, Bool-cases,
}
use native.Mathlib.Decide.{dec_lt}
use veil_os.Base.Word.{add64_lem}
use veil_os.Heap.{keep, Block, fits, take_fit, next_multiple_of}
use veil_os.Heap.Align.{IsNext, next_multiple_of_lem}
use veil_os.Heap.Chain.{IsBlock, IsChain, IsApart, IsChain-mono}
use veil_os.Heap.Bytes.{inside, owners, total}

pub owners-below : (x lo : ℕ) (l : List Block) → IsChain lo l → x < lo → owners x l ≡ 0
unfolding owners inside
owners-below x lo [] c h = refl
owners-below x lo (b ∷ rest) c h = ground (arith, owners-below x (b.start + b.size + 1) rest)

-- No byte is in two blocks of a chain.
pub owners-le-one : (x lo : ℕ) (l : List Block) → IsChain lo l → owners x l ≤ 1
unfolding owners inside
owners-le-one x lo [] c = omega arith
owners-le-one x lo (b ∷ rest) c =
    ground (
      arith,
      owners-le-one x (b.start + b.size + 1) rest,
      owners-below x (b.start + b.size + 1) rest,
    )

pub total-le : (lo : ℕ) (l : List Block) → IsChain lo l → (total l ≡ 0) ⊎ (total l + lo ≤ 2 ^ 63)
unfolding total
total-le lo [] c = inl refl
total-le lo (b ∷ rest) c = omega (arith, total-le (b.start + b.size + 1) rest c.2, c.0.bounded)

-- A range whose bytes are in no block is apart from every block.
pub IsApart-of_owners :
    (lo start size : ℕ) (l : List Block)
    → IsChain lo l
    → 0 < size
    → ((x : ℕ) → start ≤ x → x < start + size → owners x l ≡ 0)
    → IsApart start size l
unfolding owners inside
IsApart-of_owners lo start size [] c h f = tt
IsApart-of_owners lo start size (b ∷ rest) c h f = (
  ground (arith, f start, f b.start, c.0),
  IsApart-of_owners (b.start + b.size + 1) start size rest c.2 h (λ x p q. omega (arith, f x p q)),
)

-- A multiple from `x` on is no smaller than the next one.
next_least : (x m r p : ℕ) → IsNext x m r → 0 < m → x ≤ p → p % m ≡ 0 → r ≤ p
next_least x m r p n h k e = elim (dec_lt p r) [
  | yes lt ↦ absurd (omega (arith, n, step))
  | no ge ↦ omega arith
]
  where
    quotients : p / m < r / m → p + m ≤ r
    quotients q = grind (arith, div-add-mod p m, div-add-mod r m)

    step : p < r → p + m ≤ r
    step lt = elim (dec_lt (p / m) (r / m)) [
      | yes q ↦ quotients q
      | no q ↦ absurd (grind (arith, div-add-mod p m, div-add-mod r m))
    ]

-- A block that holds an aligned range of the size fits.
fits_of_range :
    (size j p : ℕ) (b : Block)
    → IsBlock b
    → 0 < size
    → size + 16 * suc j ≤ 2 ^ 63 + 16
    → b.start ≤ p
    → p + size ≤ b.start + b.size
    → p % (16 * suc j) ≡ 0
    → fits size (16 * suc j) b ≡ true
unfolding fits
fits_of_range size j p b v h room low high multiple =
    let next : IsNext b.start (16 * suc j) (next_multiple_of b.start (16 * suc j)) =
      next_multiple_of_lem b.start j v.aligned (omega (arith, v.bounded, v.nonempty)) in
    let least = next_least b.start (16 * suc j) _ p next (omega arith) low multiple in
    ground (
      arith,
      next.near,
      add64_lem (next_multiple_of b.start (16 * suc j)) size,
      add64_lem b.start b.size,
    )

-- Where first fit finds nothing there is no aligned range of free bytes of that size.
pub take_fit-none :
    (lo size j p : ℕ) (l : List Block)
    → IsChain lo l
    → 0 < size
    → size + 16 * suc j ≤ 2 ^ 63 + 16
    → take_fit size (16 * suc j) l ≡ none
    → p % (16 * suc j) ≡ 0
    → ¬ ((x : ℕ) → p ≤ x → x < p + size → owners x l ≢ 0)
unfolding take_fit keep owners inside
take_fit-none lo size j p [] c h room e multiple f = f p (omega arith) (omega arith) refl
take_fit-none lo size j p (b ∷ rest) c h room e multiple f = elim (dec_lt p (b.start + b.size)) [
  | yes before ↦ ground (
    arith,
    f p,
    f (b.start + b.size),
    fits_of_range size j p b c.0 h room,
    owners-below p (b.start + b.size + 1) rest c.2,
    owners-below (b.start + b.size) (b.start + b.size + 1) rest c.2,
  )
  | no behind ↦
      take_fit-none (b.start + b.size + 1) size j p rest c.2 h room (ground arith) multiple
        (λ x q r. ground (arith, f x q r))
]

-- What first fit takes out of the list.
pub record Taken (lo size align : ℕ) (l : List Block) (b : Block) (rest : List Block) : Type 0 where
  pub fit : fits size align b ≡ true
  pub valid : IsBlock b
  pub from : lo ≤ b.start
  pub chain : IsChain lo rest
  pub bytes : (x : ℕ) → owners x l ≡ inside x b + owners x rest
  pub sum : total l ≡ b.size + total rest

keep-some :
    (a : Block) (o : Option (Block × List Block)) {b : Block} {rest : List Block}
    → keep a o ≡ some (b, rest)
    → (others : List Block) × (o ≡ some (b, others)) × (rest ≡ a ∷ others)
unfolding keep
keep-some a none e = cc
keep-some a (some (c, others)) e = (others, ground arith, ground arith)

Taken-cons :
    (lo size align : ℕ) (a : Block) (l : List Block) {b : Block} {others : List Block}
    → IsBlock a
    → lo ≤ a.start
    → Taken (a.start + a.size + 1) size align l b others
    → Taken lo size align (a ∷ l) b (a ∷ others)
unfolding owners total
Taken-cons lo size align a l v h t = record {
  fit = t.fit;
  valid = t.valid;
  from = omega (arith, t.from);
  chain = (v, h, t.chain);
  bytes = λ x. omega (arith, t.bytes x);
  sum = omega (arith, t.sum);
}

pub take_fit-Taken :
    (lo size align : ℕ) (l : List Block) {b : Block} {rest : List Block}
    → IsChain lo l
    → take_fit size align l ≡ some (b, rest)
    → Taken lo size align l b rest
unfolding take_fit owners total
take_fit-Taken lo size align [] c e = cc
take_fit-Taken lo size align (a ∷ l) {b} {rest} c e = elim (Bool-cases (fits size align a)) [
  | inl hit ↦
      let eb : a ≡ b = ground arith in
      let er : l ≡ rest = ground arith in
      rw (← eb, ← er)
        (record {
          fit = hit;
          valid = c.0;
          from = c.1;
          chain = IsChain-mono (a.start + a.size + 1) lo l (omega arith) c.2;
          bytes = λ x. refl;
          sum = refl;
        })
  | inr miss ↦
      let (others, e1, e2) =
        keep-some a (take_fit size align l) {b = b} {rest = rest} (ground arith) in
      rw e2 (
        Taken-cons lo size align a l c.0 c.1
          (take_fit-Taken (a.start + a.size + 1) size align l c.2 e1))
]
