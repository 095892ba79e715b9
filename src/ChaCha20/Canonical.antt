-- ===== src/ChaCha20/Canonical.antt =====
-- The last carry and the reduction below the prime in src/crypto/chacha20.rs.
use Prim.Native.Nat.{bit_and, bit_or}
use native.Mathlib.Nat.{mod-eq_of_lt}
use veil_os.Base.Bits.{bit_and-ones, bit_or-add, bit_and-zero, mod_of}
use veil_os.ChaCha20.Words.{add32, mul32}
use veil_os.ChaCha20.Poly1305.{Limbs, carry, minus_p, choose, select}
use veil_os.ChaCha20.Limbs.{val, prime, IsReduced, IsBelow, add32_lem, mul32_lem, low_limb}
use veil_os.Base.{ltb→lt}
use veil_os.Base.{
  ℕ, ◌+◌, ◌-◌, ◌*◌, ◌/◌, ◌%◌, ◌^◌, ◌≤◌, ◌<◌, ◌≡◌, refl, sym, ap, ◌∙◌, inl, inr, arith, ltb,
  Bool-cases,
}

pub carry_lem :
    (h : Limbs)
    → IsReduced h
    → (k : ℕ) × (val h ≡ val (carry h) + k * prime) × IsBelow (2 ^ 26) (carry h)
unfolding carry val
carry_lem h small =
    let h2 = add32 h.l2 (h.l1 / 2 ^ 26) in
    let e2 = add32_lem h.l2 (h.l1 / 2 ^ 26) (omega (arith, small.l1_small, small.l2_small)) in
    let h3 = add32 h.l3 (h2 / 2 ^ 26) in
    let e3 =
      add32_lem h.l3 (h2 / 2 ^ 26)
        (omega (arith, e2, small.l1_small, small.l2_small, small.l3_small)) in
    let c3 : h3 ≤ 2 ^ 26 = omega (arith, e3, e2, small.l1_small, small.l2_small, small.l3_small) in
    let h4 = add32 h.l4 (h3 / 2 ^ 26) in
    let e4 = add32_lem h.l4 (h3 / 2 ^ 26) (omega (arith, c3, small.l4_small)) in
    let c4 : h4 ≤ 2 ^ 26 = omega (arith, e4, c3, small.l4_small) in
    let m4 = mul32_lem (h4 / 2 ^ 26) 5 (omega (arith, c4)) in
    let h0 = add32 h.l0 (mul32 (h4 / 2 ^ 26) 5) in
    let e0 = add32_lem h.l0 (mul32 (h4 / 2 ^ 26) 5) (omega (arith, m4, c4, small.l0_small)) in
    let low1 = low_limb h.l1 in
    let e1 =
      add32_lem (bit_and h.l1 0x3ffffff) (h0 / 2 ^ 26)
        (omega (arith, low1, e0, m4, c4, small.l0_small)) in
    (
      h4 / 2 ^ 26,
      omega
          (arith, low_limb h0, low1, low_limb h2, low_limb h3, low_limb h4, e0, e1, e2, e3, e4, m4),
      record {
        b0 = omega (arith, low_limb h0);
        b1 = omega (
          arith, e1, low1, e0, m4, e4, e3, e2, small.l0_small, small.l1_small, small.l2_small,
          small.l3_small, small.l4_small,
        );
        b2 = omega (arith, low_limb h2);
        b3 = omega (arith, low_limb h3);
        b4 = omega (arith, low_limb h4);
      },
    )

choose_none : (h g : ℕ) → h < 2 ^ 32 → choose 0 h g ≡ h
unfolding choose
choose_none h g small =
    rw (bit_and-ones 32 h, bit_and-zero g, mod-eq_of_lt small)
      (bit_or-add 32 h 0 small ∙ omega arith)

choose_all : (h g : ℕ) → g < 2 ^ 32 → choose (2 ^ 32 - 1) h g ≡ g
unfolding choose
choose_all h g small =
    rw (bit_and-ones 32 g, bit_and-zero h, mod-eq_of_lt small)
      (ap (bit_or 0) (omega arith) ∙ bit_or-add 0 0 g (omega arith) ∙ omega arith)

limbs_same :
    (a b : Limbs) → a.l0 ≡ b.l0 → a.l1 ≡ b.l1 → a.l2 ≡ b.l2 → a.l3 ≡ b.l3 → a.l4 ≡ b.l4 → a ≡ b
limbs_same a b e0 e1 e2 e3 e4 i = record { l0 = e0 i; l1 = e1 i; l2 = e2 i; l3 = e3 i; l4 = e4 i }

-- The limbs of `h - p` and the borrow in the last.
minus_p_lem :
    (h : Limbs)
    → IsBelow (2 ^ 26) h
    → (c : ℕ) × ((minus_p h).l0
          + (minus_p h).l1 * 2 ^ 26
          + (minus_p h).l2 * 2 ^ 52
          + (minus_p h).l3 * 2 ^ 78
          + c * 2 ^ 104
        ≡ val h + 5)
      × ((minus_p h).l4 ≡ (c + (2 ^ 32 - 2 ^ 26)) % 2 ^ 32)
      × ((minus_p h).l0 < 2 ^ 26)
      × ((minus_p h).l1 < 2 ^ 26)
      × ((minus_p h).l2 < 2 ^ 26)
      × ((minus_p h).l3 < 2 ^ 26)
unfolding minus_p val
minus_p_lem h small =
    let g0 = add32 h.l0 5 in
    let e0 = add32_lem h.l0 5 (omega (arith, small.b0)) in
    let g1 = add32 h.l1 (g0 / 2 ^ 26) in
    let e1 = add32_lem h.l1 (g0 / 2 ^ 26) (omega (arith, e0, small.b0, small.b1)) in
    let g2 = add32 h.l2 (g1 / 2 ^ 26) in
    let e2 = add32_lem h.l2 (g1 / 2 ^ 26) (omega (arith, e1, e0, small.b0, small.b1, small.b2)) in
    let g3 = add32 h.l3 (g2 / 2 ^ 26) in
    let e3 =
      add32_lem h.l3 (g2 / 2 ^ 26)
        (omega (arith, e2, e1, e0, small.b0, small.b1, small.b2, small.b3)) in
    let c3 : g3 ≤ 2 ^ 26 = omega (arith, e3, e2, e1, e0, small.b0, small.b1, small.b2, small.b3) in
    let e4 = add32_lem h.l4 (g3 / 2 ^ 26) (omega (arith, c3, small.b4)) in
    (
      add32 h.l4 (g3 / 2 ^ 26),
      omega (arith, low_limb g0, low_limb g1, low_limb g2, low_limb g3, e0, e1, e2, e3, e4),
      unfold add32 in refl,
      omega (arith, low_limb g0),
      omega (arith, low_limb g1),
      omega (arith, low_limb g2),
      omega (arith, low_limb g3),
    )

module _ (h g : Limbs) where
  select_none : add32 (g.l4 / 2 ^ 31) (2 ^ 32 - 1) ≡ 0 → IsBelow (2 ^ 32) h → select h g ≡ h
  unfolding select
  select_none e b = rw e (
      limbs_same _ h (choose_none h.l0 g.l0 b.b0) (choose_none h.l1 g.l1 b.b1)
        (choose_none h.l2 g.l2 b.b2) (choose_none h.l3 g.l3 b.b3) (choose_none h.l4 g.l4 b.b4))

  select_all : add32 (g.l4 / 2 ^ 31) (2 ^ 32 - 1) ≡ 2 ^ 32 - 1 → IsBelow (2 ^ 32) g → select h g ≡ g
  unfolding select
  select_all e b = rw e (
      limbs_same _ g (choose_all h.l0 g.l0 b.b0) (choose_all h.l1 g.l1 b.b1)
        (choose_all h.l2 g.l2 b.b2) (choose_all h.l3 g.l3 b.b3) (choose_all h.l4 g.l4 b.b4))

-- `h` if it is below the prime, else `h - p`.
pub select_lem :
    (h : Limbs)
    → IsBelow (2 ^ 26) h
    → (val (select h (minus_p h)) ≡ val h % prime) × IsBelow (2 ^ 26) (select h (minus_p h))
unfolding val add32
select_lem h small =
    let (c, whole, last, s0, s1, s2, s3) = minus_p_lem h small in
    let g = minus_p h in
    let most : c ≤ 2 ^ 26 =
      omega (arith, whole, small.b0, small.b1, small.b2, small.b3, small.b4) in
    elim (Bool-cases (ltb c (2 ^ 26))) [
      | inl below ↦
          let less = ltb→lt c (2 ^ 26) below in
          let same = select_none h g (omega (arith, last, less)) (record {
            b0 = omega (arith, small.b0);
            b1 = omega (arith, small.b1);
            b2 = omega (arith, small.b2);
            b3 = omega (arith, small.b3);
            b4 = omega (arith, small.b4);
          }) in
          rw same (sym (mod-eq_of_lt (omega (arith, whole, less, s0, s1, s2, s3))), small)
      | inr above ↦
          let equal : c ≡ 2 ^ 26 = ground arith in
          let zero_last : g.l4 ≡ 0 = omega (arith, last, equal) in
          let same = select_all h g (omega (arith, zero_last)) (record {
            b0 = omega (arith, s0);
            b1 = omega (arith, s1);
            b2 = omega (arith, s2);
            b3 = omega (arith, s3);
            b4 = omega (arith, zero_last);
          }) in
          rw same (
            sym (
                ap (λ w. w % prime) (omega (arith, whole, equal, zero_last))
                ∙ mod_of 1 (val g) prime (
                    omega (
                      arith, whole, equal, zero_last, small.b0, small.b1, small.b2, small.b3,
                      small.b4,
                    ))),
            record { b0 = s0; b1 = s1; b2 = s2; b3 = s3; b4 = omega (arith, zero_last) },
          )
    ]
