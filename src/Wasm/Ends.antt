-- ===== src/Wasm/Ends.antt =====
-- When the loop over the sections ends (src/wasm/parser.rs).
use veil_os.Base.Word.{add64, word_mod}
use veil_os.Wasm.{
  Bytes, Reader, Module, ◌>>=◌, byte, uleb, position, section_header, section, round, parse_loop,
  parse, has_magic, default,
}
use veil_os.Wasm.Leb.{at, byte-at, byte_lem, bind-some, leb_bytes, uleb-leb_bytes, uleb-Advances}
use veil_os.Base.{
  ltb→lt, ℕ, zero, suc, ◌-◌, ◌≤◌, ◌<◌, ◌≡◌, refl, sym, ap, ◌∙◌, ◌≢◌, inl, inr, true, false, not,
  ◌||◌, [], ◌∷◌, ◌++◌, none, some, arith, ltb, Bool-cases, lt→ltb, some_inj, Option-cases, length,
  length-append,
}

pub section_header-ahead :
    (r : Reader) {h : ℕ × ℕ} {r1 : Reader} → section_header r ≡ some (h, r1) → r.p < r1.p
unfolding section_header position
section_header-ahead r {h} {r1} e =
    let (id, ra, b, e1) = bind-some byte _ r e in
    let (size, rb, u, e2) = bind-some uleb _ ra e1 in
    let (same, moved, inside, found) = byte_lem r b in
    let (small, far) = uleb-Advances ra u in
    omega (arith, far.ahead, moved, ap (λ w. w.1.p) (some_inj e2))

module _ (lossy : Bytes → Bytes) where
  -- A round goes on where the header says that the section ends.
  round-header :
      (m : Module) (r : Reader) {m' : Module} {r' : Reader}
      → round lossy m r ≡ some (m', r')
      → (id end : ℕ) × (r1 : Reader) × (section_header r ≡ some ((id, end), r1))
        × (r' ≡ record r { p = end })
  unfolding round
  round-header m r {m'} {r'} e = elim (Option-cases (section_header r)) [
    | inl h ↦ let impossible = rw (h, round) at e in absurd (cc)
    | inr (((id, end), r1), h) ↦ elim (Option-cases (section lossy id m r1)) [
      | inl s ↦ let impossible = rw (h, round, s) at e in absurd (cc)
      | inr ((m2, r2), s) ↦ (id, end, r1, h, ap (λ w. w.1) (sym (some_inj (rw (h, round, s) at e))))
    ]
  ]

  pub round-section :
      (m : Module) (r : Reader) {m' : Module} {r' : Reader}
      → round lossy m r ≡ some (m', r')
      → (id : ℕ) × (r1 r2 : Reader) × (section lossy id m r1 ≡ some (m', r2))
  unfolding round
  round-section m r {m'} {r'} e = elim (Option-cases (section_header r)) [
    | inl h ↦ let impossible = rw (h, round) at e in absurd (cc)
    | inr (((id, end), r1), h) ↦ elim (Option-cases (section lossy id m r1)) [
      | inl s ↦ let impossible = rw (h, round, s) at e in absurd (cc)
      | inr ((m2, r2), s) ↦
          (id, r1, r2, s ∙ ap (λ w. some (w.0, r2)) (some_inj (rw (h, round, s) at e)))
    ]
  ]

  parse_loop-ne-none :
      (d : Bytes)
      → ((p id end : ℕ) (r1 : Reader)
          → section_header (record { d = d; p = p }) ≡ some ((id, end), r1)
          → r1.p ≤ end)
      → (fuel : ℕ) (m : Module) (p : ℕ) → length d - p < fuel
      → parse_loop lossy fuel m (record { d = d; p = p }) ≢ none
  unfolding parse_loop
  parse_loop-ne-none d forward zero m p room = absurd (omega arith)
  parse_loop-ne-none d forward (suc fuel) m p room = elim (Bool-cases (ltb p (length d))) [
    | inr done ↦ rw done (λ e. cc)
    | inl more ↦ rw more (elim (Option-cases (round lossy m (record { d = d; p = p }))) [
      | inl bad ↦ rw bad (λ e. cc)
      | inr ((m', r'), good) ↦
          let (id, end, r1, h, jump) = round-header m (record { d = d; p = p }) good in
          let ahead = section_header-ahead (record { d = d; p = p }) h in
          rw (good, jump)
            (parse_loop-ne-none d forward fuel m' end
              (omega (arith, forward p id end r1 h, ahead, ltb→lt p (length d) more)))
    ])
  ]

  -- On data in which no section header, read at any position, gives an end before the position
  -- behind the header, parse is done within one more round than the data has bytes: it gives a
  -- module or an error.
  pub parse-ne-none :
      (d : Bytes)
      → ((p id end : ℕ) (r1 : Reader)
          → section_header (record { d = d; p = p }) ≡ some ((id, end), r1)
          → r1.p ≤ end)
      → parse lossy (suc (length d)) d ≢ none
  unfolding parse
  parse-ne-none d forward = elim (Bool-cases (ltb (length d) 8 || not (has_magic d))) [
    | inl bad ↦ rw bad (λ e. cc)
    | inr good ↦ rw good (parse_loop-ne-none d forward (suc (length d)) default 8 (omega arith))
  ]

-- A custom section whose size, 2 ^ 64 - 11, takes the position back to the eight bytes before it.
abbrev pub backwards : Bytes
backwards = 0 ∷ leb_bytes 9 (word_mod - 11)

section_header-backwards :
    (head rest : Bytes)
    → length head ≡ 8
    → (r1 : Reader) × (section_header (at head (backwards ++ rest)) ≡ some ((0, 8), r1))
unfolding section_header position add64
section_header-backwards head rest eight =
    let size : Bytes = leb_bytes 9 (word_mod - 11) in
    let ten : length size ≡ 10 = unfold leb_bytes in refl in
    let r1 = at ((head ++ (0 ∷ [])) ++ size) rest in
    let here : length ((head ++ (0 ∷ [])) ++ size) ≡ 19 =
      omega (arith, length-append (head ++ (0 ∷ [])) size, length-append head (0 ∷ []), ten) in
    (
      r1,
      rw
          (
            byte-at head (size ++ rest) 0,
            ◌>>=◌,
            uleb-leb_bytes (word_mod - 11) (head ++ (0 ∷ [])) rest (omega arith),
            here,
          )
          refl,
    )

module _ (lossy : Bytes → Bytes) where
  round-custom :
      (m : Module) (r : Reader) (end : ℕ) {r1 : Reader}
      → section_header r ≡ some ((0, end), r1)
      → round lossy m r ≡ some (m, record r { p = end })
  unfolding round section
  round-custom m r end h = rw (h, round) refl

  round-backwards :
      (head rest : Bytes) (m : Module)
      → length head ≡ 8
      → round lossy m (at head (backwards ++ rest)) ≡ some (m, at head (backwards ++ rest))
  round-backwards head rest m eight =
      let (r1, header) = section_header-backwards head rest eight in
      round-custom m (at head (backwards ++ rest)) 8 header
      ∙ ap (λ p. some (m, record { d = head ++ (backwards ++ rest); p = p })) (sym eight)

  parse_loop-backwards :
      (fuel : ℕ) (head rest : Bytes) (m : Module)
      → length head ≡ 8
      → parse_loop lossy fuel m (at head (backwards ++ rest)) ≡ none
  unfolding parse_loop
  parse_loop-backwards zero head rest m eight = refl
  parse_loop-backwards (suc fuel) head rest m eight =
      let inside : length head < length (head ++ (backwards ++ rest)) =
        omega (arith, length-append head (backwards ++ rest)) in
      rw (lt→ltb (length head) (length (head ++ (backwards ++ rest))) inside)
        (rw (round-backwards head rest m eight) (parse_loop-backwards fuel head rest m eight))

  -- On data that has the magic, and right after its first eight bytes a custom section header
  -- whose size is 2^64 - 11 in ten bytes of LEB128, the loop of parse ends for no fuel, whatever
  -- follows.
  pub parse-backwards :
      (fuel : ℕ) (head rest : Bytes)
      → length head ≡ 8
      → has_magic (head ++ (backwards ++ rest)) ≡ true
      → parse lossy fuel (head ++ (backwards ++ rest)) ≡ none
  unfolding parse
  parse-backwards fuel head rest eight magic =
      let long : ltb (length (head ++ (backwards ++ rest))) 8 ≡ false =
        ground (arith, length-append head (backwards ++ rest)) in
      rw (long, magic)
        (ap (λ p. parse_loop lossy fuel default (record { d = head ++ (backwards ++ rest); p = p }))
            (sym eight)
          ∙ parse_loop-backwards fuel head rest default eight)
