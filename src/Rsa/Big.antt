-- ===== src/Rsa/Big.antt =====
-- The numbers of src/rsa.rs: limbs of 32 bits, the lowest first, in 64-bit sums. An index out of
-- range is a panic, which `none` stands for.
use Prim.Native.Nat.{suc, ℕ, bit_or, compare, Ordering}
use veil_os.Sha256.Hasher.{to_be_bytes}
use veil_os.Base.{
  zero, suc, take, take, ◌+◌, ◌/◌, ◌%◌, ◌-◌, ◌^◌, false, ltb, ◌&&◌, drop, ◌*◌, replicate, ◌==◌,
  none, true, some, get_or, ◌++◌, [], ℕ, Bool, if◌then◌else◌, List, length, ◌∷◌, Option, ◌>>=◌,
}

-- `struct Big { limbs: Vec<u32> }`.
abbrev pub Big : Type 0
Big = List ℕ

-- `for &byte in .. { v = (v << 8) | byte as u32; }`
unfoldable pub word : ℕ → List ℕ → ℕ
word v [] = v
word v (b ∷ bs) = word (bit_or (v * 2 ^ 8 % 2 ^ 32) b) bs

-- `while i > 0`: the last four bytes, then those before them. A round for each byte is enough.
unfoldable pub limbs_of : ℕ → List ℕ → Big
limbs_of zero b = []
limbs_of (suc fuel) b =
    let lo = length b - 4 in
    let before = limbs_of fuel (take lo b) in
    if length b == 0 then [] else word 0 (drop lo b) ∷ before

-- A limb below those that are left, if it is not a zero on top.
unfoldable pub put_limb : ℕ → Big → Big
put_limb x [] = if x == 0 then [] else x ∷ []
put_limb x (y ∷ ys) = x ∷ y ∷ ys

-- The highest limbs that are zero are popped.
unfoldable pub pop_zeros : Big → Big
pop_zeros [] = []
pop_zeros (x ∷ xs) = put_limb x (pop_zeros xs)

-- `while len > 1 && last == 0`: the lowest limb stays.
unfoldable pub normalize : Big → Big
normalize [] = []
normalize (x ∷ xs) = x ∷ pop_zeros xs

unfoldable pub from_be : List ℕ → Big
from_be b = normalize (limbs_of (length b) b)

unfoldable pub one : Big
one = 1 ∷ []

unfoldable pub is_zero : Big → Bool
is_zero [] = true
is_zero (x ∷ xs) = (x == 0) && is_zero xs

-- Also the loop at the end of `to_be`.
unfoldable pub trim_leading_zeros : List ℕ → List ℕ
trim_leading_zeros [] = []
trim_leading_zeros (x ∷ []) = x ∷ []
trim_leading_zeros (x ∷ y ∷ ys) =
    let shorter = trim_leading_zeros (y ∷ ys) in if x == 0 then shorter else x ∷ y ∷ ys

-- `for &l in self.limbs.iter().rev()`.
unfoldable pub be_bytes : Big → List ℕ
be_bytes [] = []
be_bytes (x ∷ xs) = be_bytes xs ++ to_be_bytes 4 x

unfoldable pub to_be : Big → List ℕ
to_be x = trim_leading_zeros (be_bytes x)

-- The first that is not equal, from the highest limb.
unfoldable pub cmp_limbs : Big → Big → Ordering
cmp_limbs [] ys = Ordering.eq
cmp_limbs (x ∷ xs) [] = Ordering.eq
cmp_limbs (x ∷ xs) (y ∷ ys) = elim (cmp_limbs xs ys) [
  | Ordering.lt ↦ Ordering.lt
  | Ordering.eq ↦ compare x y
  | Ordering.gt ↦ Ordering.gt
]

unfoldable pub cmp : Big → Big → Ordering
cmp x y = elim (compare (length x) (length y)) [
  | Ordering.lt ↦ Ordering.lt
  | Ordering.eq ↦ cmp_limbs x y
  | Ordering.gt ↦ Ordering.gt
]

-- `== Ordering::Less`.
abbrev pub is_less : Ordering → Bool
is_less Ordering.lt = true
is_less Ordering.eq = false
is_less Ordering.gt = false

-- The limbs with a carry from below; a last carry is a limb of its own.
unfoldable pub shl1_limbs : ℕ → Big → Big
shl1_limbs carry [] = if carry == 0 then [] else carry ∷ []
shl1_limbs carry (x ∷ xs) = bit_or (x * 2 % 2 ^ 32) carry ∷ shl1_limbs (x / 2 ^ 31) xs

unfoldable pub shl1 : Big → Big
shl1 x = normalize (shl1_limbs 0 x)

unfoldable pub bit : Big → ℕ → Bool
bit x i = get_or x (i / 32) 0 / 2 ^ (i % 32) % 2 == 1

-- `while v != 0 { n += 1; v >>= 1; }`, of at most 32 rounds.
unfoldable pub count_bits : ℕ → ℕ → ℕ
count_bits zero v = 0
count_bits (suc fuel) v = let rest = count_bits fuel (v / 2) in if v == 0 then 0 else suc rest

unfoldable pub bits : Big → Option ℕ
bits [] = none
bits (x ∷ xs) = some (length xs * 32 + count_bits 32 (get_or (x ∷ xs) (length xs) 0))

-- The loop of `add` to the length of the longer.
unfoldable pub add_limbs : ℕ → Big → Big → Big
add_limbs carry [] [] = if carry == 0 then [] else carry ∷ []
add_limbs carry (x ∷ xs) [] = (x + carry) % 2 ^ 32 ∷ add_limbs ((x + carry) / 2 ^ 32) xs []
add_limbs carry [] (y ∷ ys) = (y + carry) % 2 ^ 32 ∷ add_limbs ((y + carry) / 2 ^ 32) [] ys
add_limbs carry (x ∷ xs) (y ∷ ys) =
    (x + y + carry) % 2 ^ 32 ∷ add_limbs ((x + y + carry) / 2 ^ 32) xs ys

unfoldable pub add : Big → Big → Big
add x y = normalize (add_limbs 0 x y)

unfoldable pub sub_limbs : ℕ → Big → Big → Big
sub_limbs borrow [] ys = []
sub_limbs borrow (x ∷ xs) ys =
    let b = get_or ys 0 0 in
    if ltb x (b + borrow)
    then (x + 2 ^ 32 - (b + borrow)) % 2 ^ 32 ∷ sub_limbs 1 xs (drop 1 ys)
    else (x - (b + borrow)) % 2 ^ 32 ∷ sub_limbs 0 xs (drop 1 ys)

unfoldable pub sub : Big → Big → Big
sub x y = normalize (sub_limbs 0 x y)

-- `rem.limbs[0] |= 1`.
unfoldable pub set_low : Big → Option Big
set_low [] = none
set_low (x ∷ xs) = some (bit_or x 1 ∷ xs)

unfoldable pub subtract_once : Big → Big → Big
subtract_once r m = if is_less (cmp r m) then r else sub r m

-- `for i in (0..self.bits()).rev()`.
unfoldable pub rem_loop : ℕ → Big → Big → Big → Option Big
rem_loop zero x m r = some r
rem_loop (suc i) x m r =
    let shifted = if bit x i then set_low (shl1 r) else some (shl1 r) in
    shifted >>= λ s. rem_loop i x m (subtract_once s m)

unfoldable pub rem : Big → Big → Option Big
rem x m =
    let divided = bits x >>= λ n. rem_loop n x m (0 ∷ []) in
    if is_less (cmp x m) then some x else divided

-- `while carry != 0`, on the limbs from `k` on.
unfoldable pub propagate : Big → ℕ → Option Big
propagate [] carry = if carry == 0 then some [] else none
propagate (x ∷ xs) carry =
    let cur = (x + carry) % 2 ^ 64 in
    let rest = propagate xs (cur / 2 ^ 32) >>= λ high. some (cur % 2 ^ 32 ∷ high) in
    if carry == 0 then some (x ∷ xs) else rest

-- One limb `a` times the limbs `ys`, added to the limbs from `i` on.
unfoldable pub mul_row : Big → ℕ → Big → ℕ → Option Big
mul_row limbs a [] carry = propagate limbs carry
mul_row [] a (y ∷ ys) carry = none
mul_row (x ∷ xs) a (y ∷ ys) carry =
    let cur = (x + a * y + carry) % 2 ^ 64 in
    mul_row xs a ys (cur / 2 ^ 32) >>= λ high. some (cur % 2 ^ 32 ∷ high)

-- The rows, each one limb higher than the one before.
unfoldable pub mul_rows : Big → Big → Big → Option Big
mul_rows limbs [] ys = some limbs
mul_rows limbs (a ∷ rest) ys = mul_row limbs a ys 0 >>= λ sum.
    mul_rows (drop 1 sum) rest ys >>= λ high. some (take 1 sum ++ high)

unfoldable pub mul : Big → Big → Option Big
mul x y = mul_rows (replicate (length x + length y + 1) 0) x y >>= λ limbs. some (normalize limbs)

unfoldable pub mulmod : Big → Big → Big → Option Big
mulmod x y m = mul x y >>= λ product. rem product m
