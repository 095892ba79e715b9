-- ===== src/H264/ExpGolomb.antt =====
-- The Exp-Golomb numbers (src/h264/bits.rs), read back from their code words.
use Prim.Native.Nat.{bit_or}
use veil_os.H264.{BitReader, bit_at, bit, bits_loop, bits, decode, zeros_loop, with_info, ue}
use veil_os.Base.Bits.{bit_or-add, bit_or_halves, mul_mono}
use native.Mathlib.Nat.{
  mod-lt, one-le-pow, pow-suc, div-add-mod, div-lt_iff_lt-mul, pow-le-pow_right,
}
use veil_os.Base.{
  ℕ, zero, suc, ◌+◌, ◌-◌, ◌*◌, ◌/◌, ◌%◌, ◌^◌, ◌≤◌, ◌<◌, ◌≡◌, refl, ap, ◌∙◌, false, List, [], ◌∷◌,
  ◌++◌, some, arith, ltb, ◌==◌, lt→ltb, replicate, length,
}

-- The bits that stand from a position on, within the data.
unfoldable pub Shows : List ℕ → ℕ → List ℕ → Type 0
Shows d p [] = p ≤ length d * 8
Shows d p (b ∷ bs) = (p < length d * 8) × (bit_at d p ≡ b) × Shows d (p + 1) bs

-- The lowest `k` bits of a number, the highest first.
unfoldable pub binary : ℕ → ℕ → List ℕ
binary zero x = []
binary (suc k) x = (x / 2 ^ k) ∷ binary k (x % 2 ^ k)

-- The code word of 2 ^ k - 1 + info: k zeros, a one, and the k bits of `info`.
unfoldable pub golomb : ℕ → ℕ → List ℕ
golomb k info = replicate k 0 ++ (1 ∷ binary k info)

abbrev reader : List ℕ → ℕ → BitReader
reader d p = record { rbsp = d; pos = p }

bit_or_last : (v b : ℕ) → v < 2 ^ 31 → b ≤ 1 → bit_or (v * 2 % 2 ^ 32) b ≡ v * 2 + b
bit_or_last v b h k =
    let whole : v * 2 % 2 ^ 32 ≡ v * 2 = omega arith in
    let left : v * 2 / 2 ≡ v = omega arith in
    let right : b / 2 ≡ 0 = omega arith in
    let half : bit_or (v * 2 / 2) (b / 2) ≡ v =
      rw (left, right) (bit_or-add 31 v 0 h ∙ omega arith) in
    rw whole (omega (arith, bit_or_halves (v * 2) b, half))

-- Results at equal positions.
at_same :
    {A : Type 0} {a b : A} {p q : ℕ} {d : List ℕ}
    → a ≡ b
    → p ≡ q
    → ◌≡◌ {A = A × BitReader} (a, reader d p) (b, reader d q)
at_same {d = d} e h i = (e i, reader d (h i))

bits_loop-binary :
    (k v x : ℕ) (d : List ℕ) (p : ℕ)
    → x < 2 ^ k
    → (v + 1) * 2 ^ k ≤ 2 ^ 32
    → Shows d p (binary k x)
    → bits_loop k v (reader d p) ≡ (v * 2 ^ k + x, reader d (p + k))
unfolding bits_loop binary Shows bit
bits_loop-binary zero v x d p small room s = at_same (omega arith) (omega arith)
bits_loop-binary (suc k) v x d p small room (inside, here, later) =
    let doubled : 2 ^ suc k ≡ 2 ^ k * 2 = pow-suc 2 k in
    let top : x / 2 ^ k < 2 =
      (div-lt_iff_lt-mul (one-le-pow k 2 (omega arith))).1 (omega (arith, doubled)) in
    let below : x % 2 ^ k < 2 ^ k = mod-lt x (one-le-pow k 2 (omega arith)) in
    let next =
      bits_loop-binary k (v * 2 + x / 2 ^ k) (x % 2 ^ k) d (p + 1) below
        (omega (
          arith,
          mul_mono (v * 2 + x / 2 ^ k + 1) (v * 2 + 2) (2 ^ k) (omega arith),
          ap (λ (t : ℕ). (v + 1) * t) doubled,
        ))
        later in
    rw
      (
        here,
        bit_or_last v (x / 2 ^ k)
            (omega (
              arith,
              mul_mono 1 (2 ^ k) (v + 1) (one-le-pow k 2 (omega arith)),
              ap (λ (t : ℕ). (v + 1) * t) doubled,
            ))
            (omega arith),
      )
      (next
        ∙ at_same (omega (arith, div-add-mod x (2 ^ k), ap (λ (t : ℕ). v * t) doubled))
            (omega arith))

plus_zero : (p : ℕ) → p + 0 + 1 ≡ p + 1
plus_zero p = omega arith

plus_suc : (p k : ℕ) → p + suc k + 1 ≡ p + 1 + k + 1
plus_suc p k = omega arith

Shows-zeros :
    (k fuel run : ℕ) (d : List ℕ) (p : ℕ) (bs : List ℕ)
    → run + k ≤ 31
    → k < fuel
    → Shows d p (replicate k 0 ++ (1 ∷ bs))
    → (zeros_loop fuel run (reader d p) ≡ (some (run + k), reader d (p + k + 1)))
      × Shows d (p + k + 1) bs
unfolding zeros_loop bit Shows
Shows-zeros zero zero run d p bs few room s = absurd (omega arith)
Shows-zeros (suc k) zero run d p bs few room s = absurd (omega arith)
Shows-zeros zero (suc fuel) run d p bs few room (inside, here, later) =
    rw (lt→ltb p (length d * 8) inside, here)
      (at_same (ap some (omega arith)) (omega arith), rw (plus_zero p) later)
Shows-zeros (suc k) (suc fuel) run d p bs few room (inside, here, later) =
    let short : ltb 31 (run + 1) ≡ false = ground arith in
    let (next, rest) =
      Shows-zeros k fuel (run + 1) d (p + 1) bs (omega arith) (omega arith) later in
    rw (lt→ltb p (length d * 8) inside, here, short)
      (next ∙ at_same (ap some (omega arith)) (omega arith), rw (plus_suc p k) rest)

with_info-binary :
    (k info : ℕ) (d : List ℕ) (p : ℕ)
    → k ≤ 31
    → info < 2 ^ k
    → Shows d p (binary k info)
    → with_info k (reader d p) ≡ (2 ^ k - 1 + info, reader d (p + k))
unfolding with_info bits
with_info-binary zero info d p few small s = at_same (omega arith) (omega arith)
with_info-binary (suc k) info d p few small s =
    let room : 2 ^ suc k ≤ 2 ^ 31 = pow-le-pow_right (omega arith) few in
    let counted : (suc k == 0) ≡ false = ground arith in
    let read = bits_loop-binary (suc k) 0 info d p small (omega (arith, room)) s in
    rw (read, counted) (at_same (omega (arith, room)) refl)

-- If the code word of 2^k - 1 + info, for k at most 31 and info below 2^k, stands in the data from
-- a position on, ue there gives this number and goes on behind the word, 2k + 1 bits.
pub ue-golomb :
    (k info : ℕ) (d : List ℕ) (p : ℕ)
    → k ≤ 31
    → info < 2 ^ k
    → Shows d p (golomb k info)
    → ue (record { rbsp = d; pos = p })
      ≡ (2 ^ k - 1 + info, record { rbsp = d; pos = p + (2 * k + 1) })
unfolding golomb ue decode
ue-golomb k info d p few small s =
    let (counted, shown) = Shows-zeros k 32 0 d p (binary k info) (omega arith) (omega arith) s in
    ap decode counted
    ∙ ap (λ n. with_info n (reader d (p + k + 1))) (omega arith)
    ∙ with_info-binary k info d (p + k + 1) few small shown
    ∙ at_same refl (omega arith)
