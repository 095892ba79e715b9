-- ===== src/Sha256/Feed.antt =====
-- What a hasher holds after its input in parts (src/crypto/sha256.rs).
use mathlib.Core.List.{append_assoc}
use veil_os.Sha256.Compress.{process}
use veil_os.Sha256.Hasher.{Hasher, overwrite, fill, drain, drain_all, keep, feed}
use veil_os.Sha256.Blocks.{
  hash_loop, hash_blocks, hash_blocks-few, hash_blocks-block, length-hash_blocks,
}
use veil_os.Base.{
  ℕ, zero, suc, ◌+◌, ◌-◌, ◌≤◌, ◌<◌, min, ◌≡◌, refl, sym, ap, ◌∙◌, inl, inr, List, [], ◌∷◌, ◌++◌,
  arith, ltb, leb, ◌==◌, Bool-cases, length-take, length-drop, take-append-drop, take-append,
  ==_iff, length, length-append, take, drop,
}

-- A state and the bytes of a block begun.
pub record Holds (h : Hasher) (p : List ℕ × List ℕ) : Type 0 where
  pub state_is : h.state ≡ p.0
  pub begun : take h.buflen h.buf ≡ p.1
  pub counted : h.buflen ≡ length p.1
  pub whole : length h.buf ≡ 64

take-all : (n : ℕ) (xs : List ℕ) → length xs ≤ n → take n xs ≡ xs
take-all zero [] h = refl
take-all zero (x ∷ xs) h = absurd (omega arith)
take-all (suc n) [] h = refl
take-all (suc n) (x ∷ xs) h = ap (λ t. x ∷ t) (take-all n xs (omega arith))

nil-of : (xs : List ℕ) → length xs ≡ 0 → xs ≡ []
nil-of [] h = refl
nil-of (x ∷ xs) h = absurd (omega arith)

module _ (buf : List ℕ) (at : ℕ) (bytes : List ℕ) (whole : length buf ≡ 64)
    (fits : at + length bytes ≤ 64) where
  pub length-overwrite : length (overwrite buf at bytes) ≡ 64
  unfolding overwrite
  length-overwrite = omega (
    arith,
    length-append (take at buf) (bytes ++ drop (at + length bytes) buf),
    length-append bytes (drop (at + length bytes) buf),
    length-take at buf,
    length-drop (at + length bytes) buf,
    whole,
    fits,
  )

  take-overwrite : take (at + length bytes) (overwrite buf at bytes) ≡ take at buf ++ bytes
  unfolding overwrite
  take-overwrite =
      let front = take at buf ++ bytes in
      let size : length front ≡ at + length bytes =
        omega (arith, length-append (take at buf) bytes, length-take at buf, whole, fits) in
      ap (take (at + length bytes))
        (sym (append_assoc (take at buf) bytes (drop (at + length bytes) buf)))
      ∙ (take-append (at + length bytes) front (drop (at + length bytes) buf) (omega (arith, size))
          (λ few. absurd (omega (arith, few, size)))).0

keep-Holds :
    (h : Hasher) (input : List ℕ)
    → h.buflen ≡ 0
    → length h.buf ≡ 64
    → length input < 64
    → Holds (keep (h, input)) (h.state, input)
unfolding keep
keep-Holds h input empty whole few = elim (Bool-cases (length input == 0)) [
  | inl done ↦
      let none_left = (==_iff (length input) 0).0 done in
      rw done (record {
        state_is = refl;
        begun = ap (λ n. take n h.buf) empty ∙ sym (nil-of input none_left);
        counted = omega (arith, empty, none_left);
        whole = whole;
      })
  | inr left ↦ rw left (record {
    state_is = refl;
    begun =
        ap (λ n. take n (overwrite h.buf 0 input)) (omega arith)
        ∙ take-overwrite h.buf 0 input whole (omega (arith, few));
    counted = refl;
    whole = length-overwrite h.buf 0 input whole (omega (arith, few));
  })
]

pub drain_lem :
    (fuel : ℕ) (h : Hasher) (input : List ℕ)
    → drain fuel h input
      ≡ (record h { state = (hash_loop fuel h.state input).0 }, (hash_loop fuel h.state input).1)
unfolding drain hash_loop
drain_lem zero h input = refl
drain_lem (suc fuel) h input = elim (Bool-cases (leb 64 (length input))) [
  | inl more ↦
      rw more
        (drain_lem fuel (record h { state = process h.state (take 64 input) }) (drop 64 input))
  | inr few ↦ rw few refl
]

drained-Holds :
    (h : Hasher) (rest : List ℕ)
    → h.buflen ≡ 0
    → length h.buf ≡ 64
    → Holds (keep (drain_all (h, rest))) (hash_blocks h.state rest)
unfolding drain_all hash_blocks
drained-Holds h rest empty whole = rw (drain_lem (length rest) h rest) (
    keep-Holds (record h { state = (hash_loop (length rest) h.state rest).0 })
      (hash_loop (length rest) h.state rest).1 empty whole
      (omega (arith, length-hash_blocks h.state rest)))

kept_empty : (h : Hasher) {p : List ℕ × List ℕ} → Holds h p → Holds (keep (drain_all (h, []))) p
unfolding keep drain_all drain
kept_empty h s = s

module _ (h : Hasher) (input : List ℕ) (room : h.buflen < 64) (whole : length h.buf ≡ 64) where
  -- The bytes of the input that go into the block begun, and the block then.
  abbrev taken : ℕ
  taken = min (64 - h.buflen) (length input)

  abbrev filled : List ℕ
  filled = overwrite h.buf h.buflen (take taken input)

  length-taken : length (take taken input) ≡ taken
  length-taken = omega (arith, length-take taken input)

  fits : h.buflen + length (take taken input) ≤ 64
  fits = omega (arith, length-taken, room)

  take-filled : take (h.buflen + taken) filled ≡ take h.buflen h.buf ++ take taken input
  take-filled =
      ap (λ n. take (h.buflen + n) filled) (sym length-taken)
      ∙ take-overwrite h.buf h.buflen (take taken input) whole fits

  hash_blocks-filled :
      h.buflen + taken ≡ 64
      → hash_blocks (process h.state filled) (drop taken input)
        ≡ hash_blocks h.state (take h.buflen h.buf ++ input)
  hash_blocks-filled full =
      let size = length-overwrite h.buf h.buflen (take taken input) whole fits in
      let block =
        sym (take-all (h.buflen + taken) filled (omega (arith, size, full))) ∙ take-filled in
      let parts : filled ++ drop taken input ≡ take h.buflen h.buf ++ input =
        ap (λ t. t ++ drop taken input) block
        ∙ append_assoc (take h.buflen h.buf) (take taken input) (drop taken input)
        ∙ ap (λ t. take h.buflen h.buf ++ t) (take-append-drop taken input) in
      sym (hash_blocks-block h.state filled (drop taken input) size)
      ∙ ap (hash_blocks h.state) parts

  pub feed-Holds : Holds (feed h input) (hash_blocks h.state (take h.buflen h.buf ++ input))
  unfolding feed fill
  feed-Holds = elim (Bool-cases (ltb 0 h.buflen)) [
    | inr empty ↦
        let none_begun : h.buflen ≡ 0 = ground arith in
        let nothing : take h.buflen h.buf ≡ [] = ap (λ n. take n h.buf) none_begun in
        rw (empty, nothing) (drained-Holds h input none_begun whole)
    | inl begun ↦ elim (Bool-cases (h.buflen + taken == 64)) [
      | inl full ↦
          rw (begun, full, sym (hash_blocks-filled ((==_iff (h.buflen + taken) 64).0 full)))
            (drained-Holds (record h { state = process h.state filled; buf = filled; buflen = 0 })
              (drop taken input) refl
              (length-overwrite h.buf h.buflen (take taken input) whole fits))
      | inr short ↦
          let less : h.buflen + length input < 64 = ground (arith, room) in
          let all : taken ≡ length input = omega (arith, less) in
          let spent : drop taken input ≡ [] =
            nil-of (drop taken input) (omega (arith, length-drop taken input, all)) in
          let bytes : take taken input ≡ input = take-all taken input (omega (arith, all)) in
          let content : take h.buflen h.buf ++ take taken input ≡ take h.buflen h.buf ++ input =
            ap (λ t. take h.buflen h.buf ++ t) bytes in
          let size : length (take h.buflen h.buf ++ input) ≡ h.buflen + taken = omega (
            arith,
            length-append (take h.buflen h.buf) input,
            length-take h.buflen h.buf,
            whole,
            all,
          ) in
          rw
            (
              begun,
              short,
              spent,
              hash_blocks-few h.state (take h.buflen h.buf ++ input)
                  (omega (arith, size, less, all)),
            )
            (kept_empty (record h { buf = filled; buflen = h.buflen + taken })
              (record {
                state_is = refl;
                begun = take-filled ∙ content;
                counted = sym size;
                whole = length-overwrite h.buf h.buflen (take taken input) whole fits;
              }))
    ]
  ]
