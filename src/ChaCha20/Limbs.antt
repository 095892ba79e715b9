-- ===== src/ChaCha20/Limbs.antt =====
-- The arithmetic of the limbs of src/crypto/chacha20.rs.
use Prim.Native.Nat.{bit_and}
use native.Mathlib.Nat.{mod-eq_of_lt, mul-le-mul, add-mul-mod_self_right}
use veil_os.Base.Bits.{bit_and-ones}
use veil_os.Base.Word.{add64, add64_lem}
use veil_os.ChaCha20.Words.{add32, mul32}
use veil_os.ChaCha20.Poly1305.{Limbs, low, high, reduce, products}
use veil_os.Base.{ℕ, ◌+◌, ◌-◌, ◌*◌, ◌/◌, ◌%◌, ◌^◌, ◌≤◌, ◌<◌, ◌≡◌, sym, ap, ◌∙◌, arith}

product :
    (h0 h1 h2 h3 h4 r0 r1 r2 r3 r4 : ℕ)
    → (h0 + h1 * 2 ^ 26 + h2 * 2 ^ 52 + h3 * 2 ^ 78 + h4 * 2 ^ 104)
        * (r0 + r1 * 2 ^ 26 + r2 * 2 ^ 52 + r3 * 2 ^ 78 + r4 * 2 ^ 104)
      ≡ (h0 * r0 + h1 * (r4 * 5) + h2 * (r3 * 5) + h3 * (r2 * 5) + h4 * (r1 * 5))
        + (h0 * r1 + h1 * r0 + h2 * (r4 * 5) + h3 * (r3 * 5) + h4 * (r2 * 5)) * 2 ^ 26
        + (h0 * r2 + h1 * r1 + h2 * r0 + h3 * (r4 * 5) + h4 * (r3 * 5)) * 2 ^ 52
        + (h0 * r3 + h1 * r2 + h2 * r1 + h3 * r0 + h4 * (r4 * 5)) * 2 ^ 78
        + (h0 * r4 + h1 * r3 + h2 * r2 + h3 * r1 + h4 * r0) * 2 ^ 104
        + (h1 * r4
            + h2 * r3
            + h2 * r4 * 2 ^ 26
            + h3 * r2
            + h3 * r3 * 2 ^ 26
            + h3 * r4 * 2 ^ 52
            + h4 * r1
            + h4 * r2 * 2 ^ 26
            + h4 * r3 * 2 ^ 52
            + h4 * r4 * 2 ^ 78)
          * (2 ^ 130 - 5)
product h0 h1 h2 h3 h4 r0 r1 r2 r3 r4 = omega arith

-- The number that the limbs stand for.
unfoldable pub val : Limbs → ℕ
val h = h.l0 + h.l1 * 2 ^ 26 + h.l2 * 2 ^ 52 + h.l3 * 2 ^ 78 + h.l4 * 2 ^ 104

-- 2 ^ 130 - 5, a prime.
abbrev pub prime : ℕ
prime = 2 ^ 130 - 5

-- The limbs between two blocks: the second may hold a small carry.
pub record IsReduced (h : Limbs) : Type 0 where
  pub l0_small : h.l0 < 2 ^ 26
  pub l1_small : h.l1 < 2 ^ 26 + 2 ^ 6
  pub l2_small : h.l2 < 2 ^ 26
  pub l3_small : h.l3 < 2 ^ 26
  pub l4_small : h.l4 < 2 ^ 26

-- All five below a bound.
pub record IsBelow (bound : ℕ) (h : Limbs) : Type 0 where
  pub b0 : h.l0 < bound
  pub b1 : h.l1 < bound
  pub b2 : h.l2 < bound
  pub b3 : h.l3 < bound
  pub b4 : h.l4 < bound

pub add32_lem : (a b : ℕ) → a + b < 2 ^ 32 → add32 a b ≡ a + b
unfolding add32
add32_lem a b h = omega arith

pub mul32_lem : (a b : ℕ) → a * b < 2 ^ 32 → mul32 a b ≡ a * b
unfolding mul32
mul32_lem a b h = mod-eq_of_lt h

pub low_limb : (a : ℕ) → bit_and a 0x3ffffff ≡ a % 2 ^ 26
low_limb a = bit_and-ones 26 a

split_sum : (d : ℕ) → d < 2 ^ 58 → (low d + high d * 2 ^ 26 ≡ d) × (low d < 2 ^ 26)
unfolding low high
split_sum d h = (omega (arith, low_limb (d % 2 ^ 32)), omega (arith, low_limb (d % 2 ^ 32)))

pub reduce_lem :
    (d : Limbs)
    → IsBelow (22 * 2 ^ 53) d
    → d.l4 < 6 * 2 ^ 53
    → (k : ℕ) × (val d ≡ val (reduce d) + k * prime) × IsReduced (reduce d)
unfolding reduce val
reduce_lem d h top =
    let (e0, s0) = split_sum d.l0 (omega (arith, h.b0)) in
    let x1 = add64 d.l1 (high d.l0) in
    let a1 = add64_lem d.l1 (high d.l0) (omega (arith, e0, h.b0, h.b1)) in
    let (e1, s1) = split_sum x1 (omega (arith, a1, e0, h.b0, h.b1)) in
    let x2 = add64 d.l2 (high x1) in
    let a2 = add64_lem d.l2 (high x1) (omega (arith, e1, a1, e0, h.b0, h.b1, h.b2)) in
    let (e2, s2) = split_sum x2 (omega (arith, a2, e1, a1, e0, h.b0, h.b1, h.b2)) in
    let x3 = add64 d.l3 (high x2) in
    let a3 = add64_lem d.l3 (high x2) (omega (arith, e2, a2, e1, a1, e0, h.b0, h.b1, h.b2, h.b3)) in
    let (e3, s3) = split_sum x3 (omega (arith, a3, e2, a2, e1, a1, e0, h.b0, h.b1, h.b2, h.b3)) in
    let c3 : high x3 < 2 ^ 32 = omega (arith, e3, a3, e2, a2, e1, a1, e0, h.b0, h.b1, h.b2, h.b3) in
    let x4 = add64 d.l4 (high x3) in
    let a4 = add64_lem d.l4 (high x3) (omega (arith, c3, top)) in
    let (e4, s4) = split_sum x4 (omega (arith, a4, c3, top)) in
    let c4 : high x4 < 6 * 2 ^ 27 + 2 ^ 7 = omega (arith, e4, a4, c3, top) in
    let m4 = mul32_lem (high x4) 5 (omega (arith, c4)) in
    let h0 = add32 (low d.l0) (mul32 (high x4) 5) in
    let f = add32_lem (low d.l0) (mul32 (high x4) 5) (omega (arith, m4, c4, s0)) in
    let g = add32_lem (low x1) (h0 / 2 ^ 26) (omega (arith, f, m4, c4, s0, s1)) in
    (
      high x4,
      omega (arith, low_limb h0, g, f, m4, e4, a4, e3, a3, e2, a2, e1, a1, e0),
      record {
        l0_small = omega (arith, low_limb h0);
        l1_small = omega (arith, g, f, m4, c4, s0, s1);
        l2_small = s2;
        l3_small = s3;
        l4_small = s4;
      },
    )

-- The sums of products as they are, when none wraps.
unfoldable exact : Limbs → Limbs → Limbs
exact h r = record {
  l0 = h.l0 * r.l0 + h.l1 * (r.l4 * 5) + h.l2 * (r.l3 * 5) + h.l3 * (r.l2 * 5) + h.l4 * (r.l1 * 5);
  l1 = h.l0 * r.l1 + h.l1 * r.l0 + h.l2 * (r.l4 * 5) + h.l3 * (r.l3 * 5) + h.l4 * (r.l2 * 5);
  l2 = h.l0 * r.l2 + h.l1 * r.l1 + h.l2 * r.l0 + h.l3 * (r.l4 * 5) + h.l4 * (r.l3 * 5);
  l3 = h.l0 * r.l3 + h.l1 * r.l2 + h.l2 * r.l1 + h.l3 * r.l0 + h.l4 * (r.l4 * 5);
  l4 = h.l0 * r.l4 + h.l1 * r.l3 + h.l2 * r.l2 + h.l3 * r.l1 + h.l4 * r.l0;
}

product_bound :
    (a b : ℕ) → a < 2 ^ 27 + 2 ^ 6 → b < 2 ^ 26 → a * b ≤ (2 ^ 27 + 2 ^ 6 - 1) * (2 ^ 26 - 1)
product_bound a b h k =
    mul-le-mul {n₂ = 2 ^ 27 + 2 ^ 6 - 1} {m₂ = 2 ^ 26 - 1} (omega arith) (omega arith)

-- The bounds on the products of one limb with all five.
record RowBound (a : ℕ) (r : Limbs) : Type 0 where
  p0 : a * r.l0 ≤ (2 ^ 27 + 2 ^ 6 - 1) * (2 ^ 26 - 1)
  p1 : a * r.l1 ≤ (2 ^ 27 + 2 ^ 6 - 1) * (2 ^ 26 - 1)
  p2 : a * r.l2 ≤ (2 ^ 27 + 2 ^ 6 - 1) * (2 ^ 26 - 1)
  p3 : a * r.l3 ≤ (2 ^ 27 + 2 ^ 6 - 1) * (2 ^ 26 - 1)
  p4 : a * r.l4 ≤ (2 ^ 27 + 2 ^ 6 - 1) * (2 ^ 26 - 1)

row_bound : (a : ℕ) (r : Limbs) → a < 2 ^ 27 + 2 ^ 6 → IsBelow (2 ^ 26) r → RowBound a r
row_bound a r h k = record {
  p0 = product_bound a r.l0 h k.b0;
  p1 = product_bound a r.l1 h k.b1;
  p2 = product_bound a r.l2 h k.b2;
  p3 = product_bound a r.l3 h k.b3;
  p4 = product_bound a r.l4 h k.b4;
}

module _ (h r : Limbs) (hs : IsBelow (2 ^ 27 + 2 ^ 6) h) (rs : IsBelow (2 ^ 26) r) where
  exact-IsBelow : IsBelow (22 * 2 ^ 53) (exact h r) × ((exact h r).l4 < 6 * 2 ^ 53)
  unfolding exact
  exact-IsBelow =
      let r0 = row_bound h.l0 r hs.b0 rs in
      let r1 = row_bound h.l1 r hs.b1 rs in
      let r2 = row_bound h.l2 r hs.b2 rs in
      let r3 = row_bound h.l3 r hs.b3 rs in
      let r4 = row_bound h.l4 r hs.b4 rs in
      (
        record {
          b0 = omega (arith, r0.p0, r1.p4, r2.p3, r3.p2, r4.p1);
          b1 = omega (arith, r0.p1, r1.p0, r2.p4, r3.p3, r4.p2);
          b2 = omega (arith, r0.p2, r1.p1, r2.p0, r3.p4, r4.p3);
          b3 = omega (arith, r0.p3, r1.p2, r2.p1, r3.p0, r4.p4);
          b4 = omega (arith, r0.p4, r1.p3, r2.p2, r3.p1, r4.p0);
        },
        omega (arith, r0.p4, r1.p3, r2.p2, r3.p1, r4.p0),
      )

  products-exact : products h r ≡ exact h r
  unfolding products exact
  products-exact =
      let s1 = mul32_lem r.l1 5 (omega (arith, rs.b1)) in
      let s2 = mul32_lem r.l2 5 (omega (arith, rs.b2)) in
      let s3 = mul32_lem r.l3 5 (omega (arith, rs.b3)) in
      let s4 = mul32_lem r.l4 5 (omega (arith, rs.b4)) in
      let (below, top) = exact-IsBelow in
      let e0 : (products h r).l0 ≡ (exact h r).l0 =
        rw (s4, s3, s2, s1) (mod-eq_of_lt (omega (arith, below.b0))) in
      let e1 : (products h r).l1 ≡ (exact h r).l1 =
        rw (s4, s3, s2) (mod-eq_of_lt (omega (arith, below.b1))) in
      let e2 : (products h r).l2 ≡ (exact h r).l2 =
        rw (s4, s3) (mod-eq_of_lt (omega (arith, below.b2))) in
      let e3 : (products h r).l3 ≡ (exact h r).l3 =
        rw s4 (mod-eq_of_lt (omega (arith, below.b3))) in
      let e4 : (products h r).l4 ≡ (exact h r).l4 = mod-eq_of_lt (omega (arith, below.b4)) in
      λ i. record { l0 = e0 i; l1 = e1 i; l2 = e2 i; l3 = e3 i; l4 = e4 i }

-- A product of two numbers in limbs, up to a multiple of the prime.
exact-val : (h r : Limbs) → (k : ℕ) × (val h * val r ≡ val (exact h r) + k * prime)
unfolding exact val
exact-val h r = (_, product h.l0 h.l1 h.l2 h.l3 h.l4 r.l0 r.l1 r.l2 r.l3 r.l4)

-- What a block does to the number: the product modulo the prime, in reduced limbs.
pub reduce-products :
    (h r : Limbs)
    → IsBelow (2 ^ 27 + 2 ^ 6) h
    → IsBelow (2 ^ 26) r
    → (val (reduce (products h r)) % prime ≡ val h * val r % prime)
      × IsReduced (reduce (products h r))
reduce-products h r hs rs =
    let (below, top) = exact-IsBelow h r hs rs in
    let (k, multiplied) = exact-val h r in
    let (j, carried, small) = reduce_lem (exact h r) below top in
    rw (products-exact h r hs rs) (
      sym (add-mul-mod_self_right (val (reduce (exact h r))) (j + k) prime)
          ∙ ap (λ w. w % prime) (omega (arith, multiplied, carried)),
      small,
    )
