-- ===== src/ChaCha20/Words.antt =====
-- The words that src/crypto/chacha20.rs computes with: 32 bits, which wrap.
use Prim.Native.Nat.{bit_or}
use veil_os.Base.{
  ℕ, zero, suc, ◌+◌, ◌-◌, ◌*◌, ◌/◌, ◌%◌, ◌^◌, ◌≡◌, refl, ap, List, [], ◌∷◌, length, get_or,
}

-- `wrapping_add`, and the `+` of a release build.
unfoldable pub add32 : ℕ → ℕ → ℕ
add32 a b = (a + b) % 2 ^ 32

unfoldable pub mul32 : ℕ → ℕ → ℕ
mul32 a b = a * b % 2 ^ 32

-- `a << n`.
unfoldable pub shl32 : ℕ → ℕ → ℕ
shl32 a n = a * 2 ^ n % 2 ^ 32

unfoldable pub rotate_left : ℕ → ℕ → ℕ
rotate_left a n = bit_or (shl32 a n) (a / 2 ^ (32 - n))

unfoldable pub le32 : List ℕ → ℕ
le32 b = get_or b 0 0 + get_or b 1 0 * 2 ^ 8 + get_or b 2 0 * 2 ^ 16 + get_or b 3 0 * 2 ^ 24

-- `n` bytes of a word, the lowest first: `to_le_bytes`.
unfoldable pub to_le_bytes : ℕ → ℕ → List ℕ
to_le_bytes zero a = []
to_le_bytes (suc n) a = a % 256 ∷ to_le_bytes n (a / 256)

pub length-to_le_bytes : (n a : ℕ) → length (to_le_bytes n a) ≡ n
unfolding to_le_bytes
length-to_le_bytes zero a = refl
length-to_le_bytes (suc n) a = ap suc (length-to_le_bytes n (a / 256))
