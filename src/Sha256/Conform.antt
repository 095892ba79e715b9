-- ===== src/Sha256/Conform.antt =====
-- The compression function of src/crypto/sha256.rs computes that of FIPS 180-4.
use veil_os.Base.Slices.{get_or-within}
use veil_os.Sha256.Compress.{
  round_constants, initial, add32, rotate_right, be32, be_words, schedule, step, rounds, add_words,
  process,
}
use veil_os.Sha256.Fips.{
  root, fraction, constants, initial_hash, rotr, choose, majority, big_sigma0, big_sigma1,
  small_sigma0, small_sigma1, words_of, next_word, message_schedule, round, after_rounds, sums,
  compress,
}
use mathlib.Core.List.{append-nil}
use veil_os.Base.{
  ℕ, zero, suc, ◌+◌, ◌-◌, ◌*◌, ◌%◌, ◌^◌, ◌≤◌, ◌≡◌, refl, sym, ap, ◌∙◌, List, [], ◌∷◌, ◌++◌, arith,
  replicate, length, length-append, set, get_or,
}

constants_lem : constants ≡ round_constants
unfolding constants fraction root
constants_lem = refl

pub initial_hash_lem : initial_hash ≡ initial
unfolding initial_hash fraction root
initial_hash_lem = refl

add32_twice : (a b c d : ℕ) → add32 (add32 (add32 a b) c) d ≡ (d + c + b + a) % 2 ^ 32
unfolding add32
add32_twice a b c d = omega arith

-- The word that the code writes at the place of the first zero.
next_word_lem :
    (w : List ℕ)
    → next_word w
      ≡ add32
          (add32
            (add32 (get_or w (length w - 16) 0) (small_sigma0 (get_or w (length w - 15) 0)))
            (get_or w (length w - 7) 0))
          (small_sigma1 (get_or w (length w - 2) 0))
unfolding next_word
next_word_lem w = sym (add32_twice _ _ _ _)

set-append_length :
    (w : List ℕ) (x y : ℕ) (zs : List ℕ) → set (w ++ (x ∷ zs)) (length w) y ≡ (w ++ (y ∷ [])) ++ zs
set-append_length [] x y zs = refl
set-append_length (u ∷ w) x y zs = ap (λ t. u ∷ t) (set-append_length w x y zs)

schedule_lem :
    (count : ℕ) (w : List ℕ)
    → 16 ≤ length w
    → schedule count (length w) (w ++ replicate count 0) ≡ message_schedule count w
unfolding schedule message_schedule small_sigma0 small_sigma1 rotr rotate_right
schedule_lem zero w h = append-nil w
schedule_lem (suc count) w h =
    let zeros : List ℕ = replicate count 0 in
    let next : ℕ = next_word w in
    let size : length w + 1 ≡ length (w ++ (next ∷ [])) =
      omega (arith, length-append w (next ∷ [])) in
    rw
      (
        get_or-within w (0 ∷ zeros) (length w - 16) 0 (omega (arith, h)),
        get_or-within w (0 ∷ zeros) (length w - 15) 0 (omega (arith, h)),
        get_or-within w (0 ∷ zeros) (length w - 7) 0 (omega (arith, h)),
        get_or-within w (0 ∷ zeros) (length w - 2) 0 (omega (arith, h)),
      )
      (ap (λ x. schedule count (length w + 1) (set (w ++ (0 ∷ zeros)) (length w) x))
          (sym (next_word_lem w))
        ∙ (λ i. schedule count (size i) (set-append_length w 0 next zeros i))
        ∙ schedule_lem count (w ++ (next ∷ [])) (omega (arith, size, h)))

first_sum :
    (h s c k w a b : ℕ)
    → add32 (add32 (add32 (add32 (add32 h s) c) k) w) (add32 a b)
      ≡ (h + s + c + k + w + (a + b)) % 2 ^ 32
unfolding add32
first_sum h s c k w a b = omega arith

fourth_sum :
    (d h s c k w : ℕ)
    → add32 d (add32 (add32 (add32 (add32 h s) c) k) w) ≡ (d + (h + s + c + k + w)) % 2 ^ 32
unfolding add32
fourth_sum d h s c k w = omega arith

step_lem : (v : List ℕ) (k w : ℕ) → step v k w ≡ round v k w
unfolding step round big_sigma0 big_sigma1 choose majority rotr rotate_right
step_lem v k w = λ i.
    first_sum (get_or v 7 0) (big_sigma1 (get_or v 4 0))
      (choose (get_or v 4 0) (get_or v 5 0) (get_or v 6 0)) k w (big_sigma0 (get_or v 0 0))
      (majority (get_or v 0 0) (get_or v 1 0) (get_or v 2 0)) i
    ∷ get_or v 0 0
    ∷ get_or v 1 0
    ∷ get_or v 2 0
    ∷ fourth_sum (get_or v 3 0) (get_or v 7 0) (big_sigma1 (get_or v 4 0))
        (choose (get_or v 4 0) (get_or v 5 0) (get_or v 6 0)) k w i
    ∷ get_or v 4 0
    ∷ get_or v 5 0
    ∷ get_or v 6 0
    ∷ []

rounds_lem :
    (count t : ℕ) (w v : List ℕ)
    → rounds count t w (after_rounds w v t) ≡ after_rounds w v (t + count)
unfolding rounds after_rounds
rounds_lem zero t w v = ap (after_rounds w v) (omega arith)
rounds_lem (suc count) t w v =
    let next : t + 1 ≡ suc t = omega arith in
    let k : get_or round_constants t 0 ≡ get_or constants t 0 =
      ap (λ ks. get_or ks t 0) (sym constants_lem) in
    ap (rounds count (t + 1) w) (
      ap (λ x. step (after_rounds w v t) x (get_or w t 0)) k
      ∙ step_lem (after_rounds w v t) (get_or constants t 0) (get_or w t 0))
    ∙ ap (λ n. rounds count n w (after_rounds w v (suc t))) next
    ∙ rounds_lem count (suc t) w v
    ∙ ap (after_rounds w v) (omega arith)

sums_lem : (xs ys : List ℕ) → length xs ≡ length ys → add_words xs ys ≡ sums xs ys
unfolding add_words sums add32
sums_lem [] ys h = refl
sums_lem (x ∷ xs) [] h = absurd (omega (arith, h))
sums_lem (x ∷ xs) (y ∷ ys) h = ap (λ t. (x + y) % 2 ^ 32 ∷ t) (sums_lem xs ys (omega (arith, h)))

be32_behind :
    (a b c d : ℕ) (rest : List ℕ) (i : ℕ)
    → be32 (a ∷ b ∷ c ∷ d ∷ rest) ((i + 1) * 4) ≡ be32 rest (i * 4)
unfolding be32
be32_behind a b c d rest i =
    let bytes = a ∷ b ∷ c ∷ d ∷ rest in
    let p0 : (i + 1) * 4 ≡ suc (suc (suc (suc (i * 4)))) = omega arith in
    let p1 : (i + 1) * 4 + 1 ≡ suc (suc (suc (suc (i * 4 + 1)))) = omega arith in
    let p2 : (i + 1) * 4 + 2 ≡ suc (suc (suc (suc (i * 4 + 2)))) = omega arith in
    let p3 : (i + 1) * 4 + 3 ≡ suc (suc (suc (suc (i * 4 + 3)))) = omega arith in
    λ k.
      get_or bytes (p0 k) 0 * 2 ^ 24
      + get_or bytes (p1 k) 0 * 2 ^ 16
      + get_or bytes (p2 k) 0 * 2 ^ 8
      + get_or bytes (p3 k) 0

be_words_behind :
    (n i a b c d : ℕ) (rest : List ℕ)
    → be_words n (i + 1) (a ∷ b ∷ c ∷ d ∷ rest) ≡ be_words n i rest
unfolding be_words
be_words_behind zero i a b c d rest = refl
be_words_behind (suc n) i a b c d rest =
    λ k. be32_behind a b c d rest i k ∷ be_words_behind n (i + 1) a b c d rest k

first_word :
    (a b c d : ℕ) (rest : List ℕ)
    → be32 (a ∷ b ∷ c ∷ d ∷ rest) (0 * 4) ≡ ((a * 256 + b) * 256 + c) * 256 + d
unfolding be32
first_word a b c d rest = omega arith

be_words_size : (block : List ℕ) → length (be_words 16 0 block) ≡ 16
unfolding be_words
be_words_size block = refl

words_of_lem : (n : ℕ) (block : List ℕ) → length block ≡ n * 4 → be_words n 0 block ≡ words_of block
unfolding be_words words_of
words_of_lem zero [] h = refl
words_of_lem zero (a ∷ rest) h = absurd (omega (arith, h))
words_of_lem (suc n) (a ∷ b ∷ c ∷ d ∷ rest) h =
    let first : be32 (a ∷ b ∷ c ∷ d ∷ rest) (0 * 4) ≡ ((a * 256 + b) * 256 + c) * 256 + d =
      first_word a b c d rest in
    λ k. first k ∷ (be_words_behind n 0 a b c d rest ∙ words_of_lem n rest (omega (arith, h))) k
words_of_lem (suc n) [] h = absurd (omega (arith, h))
words_of_lem (suc n) (a ∷ []) h = absurd (omega (arith, h))
words_of_lem (suc n) (a ∷ b ∷ []) h = absurd (omega (arith, h))
words_of_lem (suc n) (a ∷ b ∷ c ∷ []) h = absurd (omega (arith, h))

length-after_rounds : (w v : List ℕ) (t : ℕ) → length v ≡ 8 → length (after_rounds w v t) ≡ 8
unfolding after_rounds round
length-after_rounds w v zero h = h
length-after_rounds w v (suc t) h = refl

pub process_lem :
    (v block : List ℕ) → length v ≡ 8 → length block ≡ 64 → process v block ≡ compress v block
unfolding process compress after_rounds
process_lem v block h whole =
    let words = words_of_lem 16 block whole in
    let sixteen : length (be_words 16 0 block) ≡ 16 = be_words_size block in
    let scheduled : schedule 48 16 (be_words 16 0 block ++ replicate 48 0)
        ≡ message_schedule 48 (words_of block) =
      ap (λ n. schedule 48 n (be_words 16 0 block ++ replicate 48 0)) (sym sixteen)
      ∙ schedule_lem 48 (be_words 16 0 block) (omega (arith, sixteen))
      ∙ ap (message_schedule 48) words in
    let w = message_schedule 48 (words_of block) in
    ap (λ t. add_words v (rounds 64 0 t v)) scheduled
    ∙ ap (add_words v) (rounds_lem 64 0 w v)
    ∙ sums_lem v (after_rounds w v 64) (h ∙ sym (length-after_rounds w v 64 h))
