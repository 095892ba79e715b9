-- ===== src/Rsa/Octets.antt =====
-- That what src/rsa.rs makes and takes apart stays bytes.
use veil_os.ChaCha20.Blocks.{IsBytes, IsBytes-cons, IsBytes-append}
use veil_os.Sha256.Hasher.{to_be_bytes, serialize, finalize, sha256}
use veil_os.Rsa.Big.{Big, trim_leading_zeros, be_bytes, to_be}
use veil_os.Base.{
  ℕ, zero, suc, ◌/◌, ◌%◌, ◌<◌, inl, inr, List, [], ◌∷◌, arith, ◌==◌, Bool-cases, replicate, length,
}

IsBytes-to_be_bytes : (n a : ℕ) → IsBytes (to_be_bytes n a)
unfolding to_be_bytes
IsBytes-to_be_bytes zero a = λ i. omega arith
IsBytes-to_be_bytes (suc n) a =
    IsBytes-append (to_be_bytes n (a / 256)) (a % 256 ∷ []) (IsBytes-to_be_bytes n (a / 256))
      (IsBytes-cons (a % 256) [] (omega arith) (λ i. omega arith))

IsBytes-serialize : (ws : List ℕ) → IsBytes (serialize ws)
unfolding serialize
IsBytes-serialize [] = λ i. omega arith
IsBytes-serialize (w ∷ ws) =
    IsBytes-append (to_be_bytes 4 w) (serialize ws) (IsBytes-to_be_bytes 4 w) (IsBytes-serialize ws)

pub IsBytes-sha256 : (input : List ℕ) → IsBytes (sha256 input)
unfolding sha256 finalize
IsBytes-sha256 input = IsBytes-serialize _

IsBytes-be_bytes : (x : Big) → IsBytes (be_bytes x)
unfolding be_bytes
IsBytes-be_bytes [] = λ i. omega arith
IsBytes-be_bytes (x ∷ xs) =
    IsBytes-append (be_bytes xs) (to_be_bytes 4 x) (IsBytes-be_bytes xs) (IsBytes-to_be_bytes 4 x)

pub IsBytes-trim : (b : List ℕ) → IsBytes b → IsBytes (trim_leading_zeros b)
unfolding trim_leading_zeros
IsBytes-trim [] s = s
IsBytes-trim (x ∷ []) s = s
IsBytes-trim (x ∷ y ∷ b) s = elim (Bool-cases (x == 0)) [
  | inl nil ↦ rw nil (IsBytes-trim (y ∷ b) (λ i. s (suc i)))
  | inr more ↦ rw more s
]

pub IsBytes-to_be : (x : Big) → IsBytes (to_be x)
unfolding to_be
IsBytes-to_be x = IsBytes-trim (be_bytes x) (IsBytes-be_bytes x)

pub IsBytes-repeat : (n v : ℕ) → v < 256 → IsBytes (replicate n v)
IsBytes-repeat zero v h = λ i. omega arith
IsBytes-repeat (suc n) v h = IsBytes-cons v (replicate n v) h (IsBytes-repeat n v h)

pub length-trim : (b : List ℕ) → 0 < length b → 0 < length (trim_leading_zeros b)
unfolding trim_leading_zeros
length-trim [] h = absurd (omega arith)
length-trim (x ∷ []) h = omega arith
length-trim (x ∷ y ∷ b) h = elim (Bool-cases (x == 0)) [
  | inl nil ↦ rw nil (length-trim (y ∷ b) (omega arith))
  | inr more ↦ rw more (omega arith)
]
