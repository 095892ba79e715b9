-- ===== src/Heap/Align.antt =====
-- `usize::next_multiple_of` and `normalize` (src/heap.rs).
use native.Mathlib.Nat.{div-add-mod, mul_assoc, mul-mod_right, mod-lt, pow-suc, one-le-pow}
use veil_os.Base.{
  ℕ, zero, suc, ◌+◌, ◌-◌, ◌*◌, ◌/◌, ◌%◌, ◌^◌, ◌≤◌, ◌<◌, max, ◌≡◌, ◌⊎◌, inl, inr, arith, ◌==◌,
  Bool-cases,
}
use veil_os.Base.Word.{add64_lem}
use veil_os.Heap.{Layout, next_multiple_of, normalize}

-- What Rust guarantees of a `Layout`: the alignment is a power of two, and the size rounded up to
-- it is at most `isize::MAX`.
pub record IsLayout (l : Layout) : Type 0 where
  pub log : ℕ
  pub power : l.align ≡ 2 ^ log
  pub bounded : l.size + l.align ≤ 2 ^ 63

-- A multiple of 16 leaves a multiple of 16, divided by a multiple of 16.
sixteen_of_mod : (x j : ℕ) → x % 16 ≡ 0 → (x % (16 * suc j)) % 16 ≡ 0
sixteen_of_mod x j h =
    omega (arith, div-add-mod x (16 * suc j), mul_assoc 16 (suc j) (x / (16 * suc j)))

pub record IsNext (x m r : ℕ) : Type 0 where
  pub above : x ≤ r
  pub near : r < x + m
  pub multiple : r % m ≡ 0
  pub units : r % 16 ≡ 0

-- Rounded up, `x` is the next multiple from `x` on.
round_multiple : (x m : ℕ) → 0 < m → (x + (m - x % m)) % m ≡ 0
round_multiple x m h = rw (up) (mul-mod_right m (suc (x / m)))
  where
    up : x + (m - x % m) ≡ m * suc (x / m)
    up = grind (arith, div-add-mod x m, mod-lt x h)

pub next_multiple_of_lem :
    (x j : ℕ)
    → x % 16 ≡ 0
    → x + 16 * suc j < 2 ^ 64
    → IsNext x (16 * suc j) (next_multiple_of x (16 * suc j))
unfolding next_multiple_of
next_multiple_of_lem x j h b = elim (Bool-cases (x % (16 * suc j) == 0)) [
  | inl e ↦
      rw e (record { above = omega arith; near = omega arith; multiple = ground arith; units = h })
  | inr e ↦
      rw (e, add64_lem x (16 * suc j - x % (16 * suc j)) (omega arith))
        (record {
          above = omega arith;
          near = ground arith;
          multiple = round_multiple x (16 * suc j) (omega arith);
          units = omega (arith, sixteen_of_mod x j h, mod-lt x {m = 16 * suc j} (omega arith));
        })
]

-- A size rounded up to the next unit, from any size on.
pub round_units :
    (n : ℕ)
    → n ≤ 2 ^ 63
    → (next_multiple_of n 16 % 16 ≡ 0)
      × (n ≤ next_multiple_of n 16)
      × (next_multiple_of n 16 < n + 16)
unfolding next_multiple_of
round_units n h = ground (arith, add64_lem n (16 - n % 16))

power_cases : (k : ℕ) → (2 ^ k < 16) ⊎ ((j : ℕ) × (2 ^ k ≡ 16 * suc j))
power_cases zero = inl (omega arith)
power_cases (suc zero) = inl (omega arith)
power_cases (suc (suc zero)) = inl (omega arith)
power_cases (suc (suc (suc zero))) = inl (omega arith)
power_cases (suc (suc (suc (suc k)))) = inr (
  2 ^ k - 1,
  omega (
    arith,
    pow-suc 2 (suc (suc (suc k))),
    pow-suc 2 (suc (suc k)),
    pow-suc 2 (suc k),
    pow-suc 2 k,
    one-le-pow k 2 (omega arith),
  ),
)

-- What `normalize` makes of a layout: `j` shows that the alignment is a positive multiple of 16.
pub record IsNormal (l : Layout) (size align j : ℕ) : Type 0 where
  pub align_units : align ≡ 16 * suc j
  pub align_power : (align ≡ l.align) ⊎ ((align ≡ 16) × (l.align < 16))
  pub units : size % 16 ≡ 0
  pub nonempty : 0 < size
  pub enough : l.size ≤ size
  pub small : size < l.size + 17
  pub room : size + align ≤ 2 ^ 63 + 16

pub normalize_lem :
    (l : Layout) → IsLayout l → (j : ℕ) × IsNormal l (normalize l).0 (normalize l).1 j
unfolding normalize
normalize_lem l v = elim (power_cases v.log) [
  | inl e ↦ (
    0,
    record {
      align_units = omega (arith, v.power);
      align_power = omega (arith, v.power);
      units = fact.0;
      nonempty = omega (arith, fact);
      enough = omega (arith, fact);
      small = omega (arith, fact);
      room = omega (arith, fact, v.power);
    },
  )
  | inr (j, e) ↦ (
    j,
    record {
      align_units = omega (arith, v.power);
      align_power = omega (arith, v.power);
      units = fact.0;
      nonempty = omega (arith, fact);
      enough = omega (arith, fact);
      small = omega (arith, fact);
      room = omega (arith, fact, v.power);
    },
  )
]
  where
    fact :
        (next_multiple_of (max l.size 1) 16 % 16 ≡ 0)
        × (max l.size 1 ≤ next_multiple_of (max l.size 1) 16)
        × (next_multiple_of (max l.size 1) 16 < max l.size 1 + 16)
    fact = round_units (max l.size 1) (omega arith)
