-- ===== src/Sha256/Compress.antt =====
-- The compression function of src/crypto/sha256.rs.
use Prim.Native.Nat.{bit_and, bit_or, bit_xor}
use veil_os.Base.{
  ℕ, zero, suc, ◌+◌, ◌-◌, ◌*◌, ◌/◌, ◌%◌, ◌^◌, List, [], ◌∷◌, ◌++◌, replicate, set, get_or,
}

abbrev pub round_constants : List ℕ
round_constants =
    0x428a2f98 ∷ 0x71374491 ∷ 0xb5c0fbcf ∷ 0xe9b5dba5 ∷ 0x3956c25b ∷ 0x59f111f1 ∷ 0x923f82a4
    ∷ 0xab1c5ed5 ∷ 0xd807aa98 ∷ 0x12835b01 ∷ 0x243185be ∷ 0x550c7dc3 ∷ 0x72be5d74 ∷ 0x80deb1fe
    ∷ 0x9bdc06a7 ∷ 0xc19bf174 ∷ 0xe49b69c1 ∷ 0xefbe4786 ∷ 0x0fc19dc6 ∷ 0x240ca1cc ∷ 0x2de92c6f
    ∷ 0x4a7484aa ∷ 0x5cb0a9dc ∷ 0x76f988da ∷ 0x983e5152 ∷ 0xa831c66d ∷ 0xb00327c8 ∷ 0xbf597fc7
    ∷ 0xc6e00bf3 ∷ 0xd5a79147 ∷ 0x06ca6351 ∷ 0x14292967 ∷ 0x27b70a85 ∷ 0x2e1b2138 ∷ 0x4d2c6dfc
    ∷ 0x53380d13 ∷ 0x650a7354 ∷ 0x766a0abb ∷ 0x81c2c92e ∷ 0x92722c85 ∷ 0xa2bfe8a1 ∷ 0xa81a664b
    ∷ 0xc24b8b70 ∷ 0xc76c51a3 ∷ 0xd192e819 ∷ 0xd6990624 ∷ 0xf40e3585 ∷ 0x106aa070 ∷ 0x19a4c116
    ∷ 0x1e376c08 ∷ 0x2748774c ∷ 0x34b0bcb5 ∷ 0x391c0cb3 ∷ 0x4ed8aa4a ∷ 0x5b9cca4f ∷ 0x682e6ff3
    ∷ 0x748f82ee ∷ 0x78a5636f ∷ 0x84c87814 ∷ 0x8cc70208 ∷ 0x90befffa ∷ 0xa4506ceb ∷ 0xbef9a3f7
    ∷ 0xc67178f2 ∷ []

abbrev pub initial : List ℕ
initial =
    0x6a09e667 ∷ 0xbb67ae85 ∷ 0x3c6ef372 ∷ 0xa54ff53a ∷ 0x510e527f ∷ 0x9b05688c ∷ 0x1f83d9ab
    ∷ 0x5be0cd19 ∷ []

-- `wrapping_add`.
unfoldable pub add32 : ℕ → ℕ → ℕ
add32 a b = (a + b) % 2 ^ 32

unfoldable pub rotate_right : ℕ → ℕ → ℕ
rotate_right a n = bit_or (a / 2 ^ n) (a * 2 ^ (32 - n) % 2 ^ 32)

-- `u32::from_be_bytes` of the four bytes from the one at `i` on.
unfoldable pub be32 : List ℕ → ℕ → ℕ
be32 block i =
    get_or block i 0 * 2 ^ 24
    + get_or block (i + 1) 0 * 2 ^ 16
    + get_or block (i + 2) 0 * 2 ^ 8
    + get_or block (i + 3) 0

unfoldable pub be_words : ℕ → ℕ → List ℕ → List ℕ
be_words zero i block = []
be_words (suc count) i block = be32 block (i * 4) ∷ be_words count (i + 1) block

-- `for i in 16..64`, the last `count` rounds from `i` on.
unfoldable pub schedule : ℕ → ℕ → List ℕ → List ℕ
schedule zero i w = w
schedule (suc count) i w =
    let x = get_or w (i - 15) 0 in
    let y = get_or w (i - 2) 0 in
    let s0 = bit_xor (bit_xor (rotate_right x 7) (rotate_right x 18)) (x / 2 ^ 3) in
    let s1 = bit_xor (bit_xor (rotate_right y 17) (rotate_right y 19)) (y / 2 ^ 10) in
    schedule count (i + 1)
      (set w i (add32 (add32 (add32 (get_or w (i - 16) 0) s0) (get_or w (i - 7) 0)) s1))

-- A round on the eight words, with a word of the schedule and its constant.
unfoldable pub step : List ℕ → ℕ → ℕ → List ℕ
step h k w =
    let h0 = get_or h 0 0 in
    let h1 = get_or h 1 0 in
    let h2 = get_or h 2 0 in
    let h4 = get_or h 4 0 in
    let s1 = bit_xor (bit_xor (rotate_right h4 6) (rotate_right h4 11)) (rotate_right h4 25) in
    let ch = bit_xor (bit_and h4 (get_or h 5 0)) (bit_and (2 ^ 32 - 1 - h4) (get_or h 6 0)) in
    let t1 = add32 (add32 (add32 (add32 (get_or h 7 0) s1) ch) k) w in
    let s0 = bit_xor (bit_xor (rotate_right h0 2) (rotate_right h0 13)) (rotate_right h0 22) in
    let maj = bit_xor (bit_xor (bit_and h0 h1) (bit_and h0 h2)) (bit_and h1 h2) in
    let t2 = add32 s0 maj in
    add32 t1 t2 ∷ h0 ∷ h1 ∷ h2 ∷ add32 (get_or h 3 0) t1 ∷ h4 ∷ get_or h 5 0 ∷ get_or h 6 0 ∷ []

unfoldable pub rounds : ℕ → ℕ → List ℕ → List ℕ → List ℕ
rounds zero i w h = h
rounds (suc count) i w h =
    rounds count (i + 1) w (step h (get_or round_constants i 0) (get_or w i 0))

unfoldable pub add_words : List ℕ → List ℕ → List ℕ
add_words [] h = []
add_words (x ∷ xs) [] = x ∷ xs
add_words (x ∷ xs) (y ∷ ys) = add32 x y ∷ add_words xs ys

unfoldable pub process : List ℕ → List ℕ → List ℕ
process state block =
    let w = schedule 48 16 (be_words 16 0 block ++ replicate 48 0) in
    add_words state (rounds 64 0 w state)
