-- ===== src/Sha256/Fips.antt =====
-- FIPS 180-4 and RFC 2104, independent of the code: what src/crypto/sha256.rs is measured by. The
-- constants are roots of the first primes, the schedule and the rounds are indexed by t.
use Prim.Native.Nat.{bit_and, bit_or, bit_xor}
use veil_os.Base.{
  ℕ, zero, suc, ◌+◌, ◌-◌, ◌*◌, ◌/◌, ◌%◌, ◌^◌, List, [], ◌∷◌, ◌++◌, map, leb, if◌then◌else◌,
  replicate, length, get_or, take, drop,
}

abbrev pub primes : List ℕ
primes =
    2 ∷ 3 ∷ 5 ∷ 7 ∷ 11 ∷ 13 ∷ 17 ∷ 19 ∷ 23 ∷ 29 ∷ 31 ∷ 37 ∷ 41 ∷ 43 ∷ 47 ∷ 53 ∷ 59 ∷ 61 ∷ 67 ∷ 71
    ∷ 73 ∷ 79 ∷ 83 ∷ 89 ∷ 97 ∷ 101 ∷ 103 ∷ 107 ∷ 109 ∷ 113 ∷ 127 ∷ 131 ∷ 137 ∷ 139 ∷ 149 ∷ 151 ∷ 157
    ∷ 163 ∷ 167 ∷ 173 ∷ 179 ∷ 181 ∷ 191 ∷ 193 ∷ 197 ∷ 199 ∷ 211 ∷ 223 ∷ 227 ∷ 229 ∷ 233 ∷ 239 ∷ 241
    ∷ 251 ∷ 257 ∷ 263 ∷ 269 ∷ 271 ∷ 277 ∷ 281 ∷ 283 ∷ 293 ∷ 307 ∷ 311 ∷ []

-- The largest number of `bits` more bits than `r` whose power is at most n.
unfoldable pub root : ℕ → ℕ → ℕ → ℕ → ℕ
root power zero r n = r
root power (suc bits) r n =
    let next = if leb ((2 * r + 1) ^ power * 2 ^ (power * bits)) n then 2 * r + 1 else 2 * r in
    root power bits next n

-- The first 32 bits of the fractional part of the square or the cube root of a prime.
unfoldable pub fraction : ℕ → ℕ → ℕ
fraction power p = root power 40 0 (p * 2 ^ (32 * power)) % 2 ^ 32

-- 4.2.2 and 5.3.3.
unfoldable pub constants : List ℕ
constants = map (fraction 3) primes

unfoldable pub initial_hash : List ℕ
initial_hash = map (fraction 2) (take 8 primes)

-- 3.2 and 4.1.2.
unfoldable pub rotr : ℕ → ℕ → ℕ
rotr n x = bit_or (x / 2 ^ n) (x * 2 ^ (32 - n) % 2 ^ 32)

unfoldable pub choose : ℕ → ℕ → ℕ → ℕ
choose x y z = bit_xor (bit_and x y) (bit_and (2 ^ 32 - 1 - x) z)

unfoldable pub majority : ℕ → ℕ → ℕ → ℕ
majority x y z = bit_xor (bit_xor (bit_and x y) (bit_and x z)) (bit_and y z)

unfoldable pub big_sigma0 : ℕ → ℕ
big_sigma0 x = bit_xor (bit_xor (rotr 2 x) (rotr 13 x)) (rotr 22 x)

unfoldable pub big_sigma1 : ℕ → ℕ
big_sigma1 x = bit_xor (bit_xor (rotr 6 x) (rotr 11 x)) (rotr 25 x)

unfoldable pub small_sigma0 : ℕ → ℕ
small_sigma0 x = bit_xor (bit_xor (rotr 7 x) (rotr 18 x)) (x / 2 ^ 3)

unfoldable pub small_sigma1 : ℕ → ℕ
small_sigma1 x = bit_xor (bit_xor (rotr 17 x) (rotr 19 x)) (x / 2 ^ 10)

-- 5.2.1: the words of a block.
unfoldable pub words_of : List ℕ → List ℕ
words_of (a ∷ b ∷ c ∷ d ∷ rest) = (((a * 256 + b) * 256 + c) * 256 + d) ∷ words_of rest
words_of _ = []

-- 6.2.2, step 1: W_t of the words before it.
unfoldable pub next_word : List ℕ → ℕ
next_word w =
    let t = length w in
    (small_sigma1 (get_or w (t - 2) 0)
      + get_or w (t - 7) 0
      + small_sigma0 (get_or w (t - 15) 0)
      + get_or w (t - 16) 0)
    % 2 ^ 32

unfoldable pub message_schedule : ℕ → List ℕ → List ℕ
message_schedule zero w = w
message_schedule (suc count) w = message_schedule count (w ++ (next_word w ∷ []))

-- Step 3, on the working variables a to h.
unfoldable pub round : List ℕ → ℕ → ℕ → List ℕ
round v k w =
    let a = get_or v 0 0 in
    let b = get_or v 1 0 in
    let c = get_or v 2 0 in
    let d = get_or v 3 0 in
    let e = get_or v 4 0 in
    let f = get_or v 5 0 in
    let g = get_or v 6 0 in
    let t1 = get_or v 7 0 + big_sigma1 e + choose e f g + k + w in
    let t2 = big_sigma0 a + majority a b c in
    (t1 + t2) % 2 ^ 32 ∷ a ∷ b ∷ c ∷ (d + t1) % 2 ^ 32 ∷ e ∷ f ∷ g ∷ []

-- The variables after t rounds.
unfoldable pub after_rounds : List ℕ → List ℕ → ℕ → List ℕ
after_rounds w v zero = v
after_rounds w v (suc t) = round (after_rounds w v t) (get_or constants t 0) (get_or w t 0)

-- Step 4.
unfoldable pub sums : List ℕ → List ℕ → List ℕ
sums (x ∷ xs) (y ∷ ys) = (x + y) % 2 ^ 32 ∷ sums xs ys
sums _ _ = []

unfoldable pub compress : List ℕ → List ℕ → List ℕ
compress v block = sums v (after_rounds (message_schedule 48 (words_of block)) v 64)

-- The hash after so many blocks.
unfoldable pub after_blocks : ℕ → List ℕ → List ℕ → List ℕ
after_blocks zero v bytes = v
after_blocks (suc n) v bytes = after_blocks n (compress v (take 64 bytes)) (drop 64 bytes)

-- The bytes of a number below 256^n, the highest first.
unfoldable pub octets : ℕ → ℕ → List ℕ
octets zero a = []
octets (suc n) a = a / 256 ^ n % 256 ∷ octets n a

-- 5.1.1: a bit of 1, the least number of zeros that leaves 64 bits, and the number of bits.
unfoldable pub padded : List ℕ → List ℕ
padded bytes =
    let n = length bytes in
    bytes ++ (0x80 ∷ (replicate ((119 - n % 64) % 64) 0 ++ octets 8 (8 * n)))

unfoldable pub words_octets : List ℕ → List ℕ
words_octets [] = []
words_octets (w ∷ ws) = octets 4 w ++ words_octets ws

unfoldable pub digest : List ℕ → List ℕ
digest bytes = words_octets (after_blocks (length (padded bytes) / 64) initial_hash (padded bytes))

-- RFC 2104: a key longer than a block is its hash; zeros fill the block.
unfoldable pub short_key : List ℕ → List ℕ
short_key key = if leb (length key) 64 then key else digest key

unfoldable pub filled_key : List ℕ → List ℕ
filled_key key = short_key key ++ replicate (64 - length (short_key key)) 0

unfoldable pub hmac : List ℕ → List ℕ → List ℕ
hmac key text = digest (
    map (λ b. bit_xor 0x5c b) (filled_key key)
    ++ digest (map (λ b. bit_xor 0x36 b) (filled_key key) ++ text))
