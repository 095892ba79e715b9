-- ===== src/ChaCha20/Poly1305.antt =====
-- The authenticator of src/crypto/chacha20.rs: numbers below 2 ^ 130 in five limbs of 26 bits.
use Prim.Native.Nat.{bit_and, bit_or}
use veil_os.ChaCha20.Words.{add32, mul32, shl32, le32, to_le_bytes}
use veil_os.Base.Word.{add64}
use veil_os.Base.{
  ℕ, zero, suc, ◌+◌, ◌-◌, ◌*◌, ◌/◌, ◌%◌, ◌^◌, List, ◌∷◌, ◌++◌, ◌==◌, if◌then◌else◌, replicate,
  length, take, drop,
}

pub record Limbs : Type 0 where
  pub l0 : ℕ
  pub l1 : ℕ
  pub l2 : ℕ
  pub l3 : ℕ
  pub l4 : ℕ

-- `(lo >> n) | (hi << m)`.
unfoldable pub join : ℕ → ℕ → ℕ → ℕ → ℕ
join lo n hi m = bit_or (lo / 2 ^ n) (shl32 hi m)

unfoldable pub clamp : List ℕ → Limbs
clamp key =
    let t0 = le32 key in
    let t1 = le32 (drop 4 key) in
    let t2 = le32 (drop 8 key) in
    let t3 = le32 (drop 12 key) in
    record {
      l0 = bit_and t0 0x3ffffff;
      l1 = bit_and (join t0 26 t1 6) 0x3ffff03;
      l2 = bit_and (join t1 20 t2 12) 0x3ffc0ff;
      l3 = bit_and (join t2 14 t3 18) 0x3f03fff;
      l4 = bit_and (t3 / 2 ^ 8) 0x00fffff;
    }

-- Sixteen bytes: a short block ends with a byte of 1, and zeros.
unfoldable pub pad_block : List ℕ → List ℕ
pad_block chunk =
    if length chunk == 16 then chunk else chunk ++ (1 ∷ replicate (15 - length chunk) 0)

unfoldable pub hibit : List ℕ → ℕ
hibit chunk = if length chunk == 16 then 2 ^ 24 else 0

unfoldable pub add_block : Limbs → List ℕ → Limbs
add_block h chunk =
    let block = pad_block chunk in
    let b0 = le32 block in
    let b1 = le32 (drop 4 block) in
    let b2 = le32 (drop 8 block) in
    let b3 = le32 (drop 12 block) in
    record {
      l0 = add32 h.l0 (bit_and b0 0x3ffffff);
      l1 = add32 h.l1 (bit_and (join b0 26 b1 6) 0x3ffffff);
      l2 = add32 h.l2 (bit_and (join b1 20 b2 12) 0x3ffffff);
      l3 = add32 h.l3 (bit_and (join b2 14 b3 18) 0x3ffffff);
      l4 = add32 h.l4 (bit_or (b3 / 2 ^ 8) (hibit chunk));
    }

-- The five sums of products; the limbs above the fifth come back times five.
unfoldable pub products : Limbs → Limbs → Limbs
products h r =
    let s1 = mul32 r.l1 5 in
    let s2 = mul32 r.l2 5 in
    let s3 = mul32 r.l3 5 in
    let s4 = mul32 r.l4 5 in
    record {
      l0 = (h.l0 * r.l0 + h.l1 * s4 + h.l2 * s3 + h.l3 * s2 + h.l4 * s1) % 2 ^ 64;
      l1 = (h.l0 * r.l1 + h.l1 * r.l0 + h.l2 * s4 + h.l3 * s3 + h.l4 * s2) % 2 ^ 64;
      l2 = (h.l0 * r.l2 + h.l1 * r.l1 + h.l2 * r.l0 + h.l3 * s4 + h.l4 * s3) % 2 ^ 64;
      l3 = (h.l0 * r.l3 + h.l1 * r.l2 + h.l2 * r.l1 + h.l3 * r.l0 + h.l4 * s4) % 2 ^ 64;
      l4 = (h.l0 * r.l4 + h.l1 * r.l3 + h.l2 * r.l2 + h.l3 * r.l1 + h.l4 * r.l0) % 2 ^ 64;
    }

-- `(d >> 26) as u32`.
unfoldable pub high : ℕ → ℕ
high d = d / 2 ^ 26 % 2 ^ 32

-- `d as u32 & 0x3ff_ffff`.
unfoldable pub low : ℕ → ℕ
low d = bit_and (d % 2 ^ 32) 0x3ffffff

unfoldable pub reduce : Limbs → Limbs
reduce d =
    let d1 = add64 d.l1 (high d.l0) in
    let d2 = add64 d.l2 (high d1) in
    let d3 = add64 d.l3 (high d2) in
    let d4 = add64 d.l4 (high d3) in
    let h0 = add32 (low d.l0) (mul32 (high d4) 5) in
    record {
      l0 = bit_and h0 0x3ffffff;
      l1 = add32 (low d1) (h0 / 2 ^ 26);
      l2 = low d2;
      l3 = low d3;
      l4 = low d4;
    }

unfoldable pub absorb : Limbs → Limbs → List ℕ → Limbs
absorb r h chunk = reduce (products (add_block h chunk) r)

-- The loop over what is left of the message; each round takes 16 bytes or all.
unfoldable pub blocks : ℕ → Limbs → Limbs → List ℕ → Limbs
blocks zero r h rest = h
blocks (suc fuel) r h rest =
    let later = blocks fuel r (absorb r h (take 16 rest)) (drop 16 rest) in
    if length rest == 0 then h else later

unfoldable pub carry : Limbs → Limbs
carry h =
    let h2 = add32 h.l2 (h.l1 / 2 ^ 26) in
    let h3 = add32 h.l3 (h2 / 2 ^ 26) in
    let h4 = add32 h.l4 (h3 / 2 ^ 26) in
    let h0 = add32 h.l0 (mul32 (h4 / 2 ^ 26) 5) in
    record {
      l0 = bit_and h0 0x3ffffff;
      l1 = add32 (bit_and h.l1 0x3ffffff) (h0 / 2 ^ 26);
      l2 = bit_and h2 0x3ffffff;
      l3 = bit_and h3 0x3ffffff;
      l4 = bit_and h4 0x3ffffff;
    }

-- `h - p`, before the masks of the selection are put on.
unfoldable pub minus_p : Limbs → Limbs
minus_p h =
    let g0 = add32 h.l0 5 in
    let g1 = add32 h.l1 (g0 / 2 ^ 26) in
    let g2 = add32 h.l2 (g1 / 2 ^ 26) in
    let g3 = add32 h.l3 (g2 / 2 ^ 26) in
    record {
      l0 = bit_and g0 0x3ffffff;
      l1 = bit_and g1 0x3ffffff;
      l2 = bit_and g2 0x3ffffff;
      l3 = bit_and g3 0x3ffffff;
      l4 = add32 (add32 h.l4 (g3 / 2 ^ 26)) (2 ^ 32 - 2 ^ 26);
    }

-- `(h & !mask) | (g & mask)`.
unfoldable pub choose : ℕ → ℕ → ℕ → ℕ
choose mask h g = bit_or (bit_and h (2 ^ 32 - 1 - mask)) (bit_and g mask)

unfoldable pub select : Limbs → Limbs → Limbs
select h g =
    let mask = add32 (g.l4 / 2 ^ 31) (2 ^ 32 - 1) in
    record {
      l0 = choose mask h.l0 g.l0;
      l1 = choose mask h.l1 g.l1;
      l2 = choose mask h.l2 g.l2;
      l3 = choose mask h.l3 g.l3;
      l4 = choose mask h.l4 g.l4;
    }

-- The sum of the number and of the second half of the key, modulo 2 ^ 128.
unfoldable pub finish : Limbs → List ℕ → List ℕ
finish h key =
    let w0 = bit_or h.l0 (shl32 h.l1 26) in
    let w1 = join h.l1 6 h.l2 20 in
    let w2 = join h.l2 12 h.l3 14 in
    let w3 = join h.l3 18 h.l4 8 in
    let f0 = w0 + le32 (drop 16 key) in
    let f1 = w1 + le32 (drop 20 key) + f0 / 2 ^ 32 in
    let f2 = w2 + le32 (drop 24 key) + f1 / 2 ^ 32 in
    let f3 = w3 + le32 (drop 28 key) + f2 / 2 ^ 32 in
    to_le_bytes 4 f0 ++ (to_le_bytes 4 f1 ++ (to_le_bytes 4 f2 ++ to_le_bytes 4 f3))

unfoldable pub zeroed : Limbs
zeroed = record { l0 = 0; l1 = 0; l2 = 0; l3 = 0; l4 = 0 }

unfoldable pub poly1305_mac : List ℕ → List ℕ → List ℕ
poly1305_mac key msg =
    let h = carry (blocks (length msg) (clamp key) zeroed msg) in finish (select h (minus_p h)) key
