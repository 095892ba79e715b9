-- ===== src/H264/Escape.antt =====
-- What `unescape` takes away (src/h264/bits.rs).
use veil_os.H264.{unescape_loop, unescape, small_next}
use veil_os.Base.{
  ℕ, ◌+◌, ◌%◌, ◌^◌, ◌≤◌, ◌≡◌, refl, ap, ◌∙◌, inl, inr, false, ◌&&◌, List, [], ◌∷◌, arith, leb, ◌==◌,
  if◌then◌else◌, Bool-cases,
}

-- The escaping of the standard, after `run` zeros: a byte of 3 goes between two zeros and a byte
-- of at most 3.
unfoldable pub escape_loop : ℕ → List ℕ → List ℕ
escape_loop run [] = []
escape_loop run (b ∷ rest) =
    let tail = escape_loop (if b == 0 then run + 1 else 0) rest in
    let after = escape_loop (if b == 0 then 1 else 0) rest in
    if leb 2 run && leb b 3 then 3 ∷ b ∷ after else b ∷ tail

skip_lem :
    (run b : ℕ) (rest : List ℕ)
    → 2 ≤ run
    → b ≤ 3
    → unescape_loop run (3 ∷ b ∷ rest) ≡ unescape_loop 0 (b ∷ rest)
unfolding unescape_loop small_next
skip_lem run b rest h k = ground arith

keep_lem :
    (run b : ℕ) (rest : List ℕ)
    → (leb 2 run && leb b 3) ≡ false
    → unescape_loop run (b ∷ rest)
      ≡ b ∷ unescape_loop (if b == 0 then (run + 1) % 2 ^ 32 else 0) rest
unfolding unescape_loop
keep_lem run b rest h = ground arith

unescape_loop-escape_loop :
    (run : ℕ) (rbsp : List ℕ) → run ≤ 2 → unescape_loop run (escape_loop run rbsp) ≡ rbsp
unfolding escape_loop
unescape_loop-escape_loop run [] h = unfold unescape_loop in refl
unescape_loop-escape_loop run (b ∷ rest) h = elim (Bool-cases (leb 2 run && leb b 3)) [
  | inl guarded ↦ rw guarded (
      skip_lem run b _ (ground arith) (ground arith)
      ∙ keep_lem 0 b _ refl
      ∙ ap (λ t. b ∷ t) (unescape_loop-escape_loop (if b == 0 then 1 else 0) rest (ground arith)))
  | inr plain ↦
      let same : (if b == 0 then (run + 1) % 2 ^ 32 else 0) ≡ (if b == 0 then run + 1 else 0) =
        ground arith in
      rw plain (
        keep_lem run b _ plain
        ∙ rw same (
            ap (λ t. b ∷ t)
              (unescape_loop-escape_loop (if b == 0 then run + 1 else 0) rest (ground arith))))
]

-- unescape gives back any bytes that were escaped as the standard says, a byte of 3 between two
-- zeros and a byte of at most 3.
pub unescape-escape_loop : (rbsp : List ℕ) → unescape (escape_loop 0 rbsp) ≡ rbsp
unfolding unescape
unescape-escape_loop rbsp = unescape_loop-escape_loop 0 rbsp (omega arith)
