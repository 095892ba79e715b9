-- ===== src/Wasm/Leb.antt =====
-- The unsigned numbers of WebAssembly (src/wasm/parser.rs): LEB128, seven bits to a byte.
use Prim.Native.Nat.{bit_and, bit_or}
use native.Mathlib.Numerals.{towards_suc}
use native.Mathlib.Nat.{div-add-mod, mod-eq_of_lt, pow-suc}
use mathlib.Core.List.{append_assoc}
use veil_os.Base.Bits.{mul_mono, digit, bit_and-power, bit_and-ones, bit_or-add, bit_or-lt}
use veil_os.Wasm.{Parser, ◌>>=◌, Bytes, Reader, byte, group, uleb_loop, uleb}
use veil_os.Base.{
  ltb→lt, ℕ, zero, suc, ◌+◌, ◌*◌, ◌/◌, ◌%◌, ◌^◌, ◌≤◌, ◌<◌, ◌≡◌, refl, sym, ap, ◌∙◌, inl, inr, true,
  false, [], ◌∷◌, ◌++◌, none, some, arith, ltb, leb, ◌==◌, if◌then◌else◌, Bool-cases, lt→ltb,
  some_inj, get_elem?-lt, get_elem?-append_length, Option-cases, length, length-append, get_elem?,
}

-- The reads that a chain of reads which succeeds has made.
pub bind-some :
    {A B : Type 0} (m : Parser A) (f : A → Parser B) (r : Reader) {x : B × Reader}
    → (m >>= f) r ≡ some x
    → (a : A) × (r' : Reader) × (m r ≡ some (a, r')) × (f a r' ≡ some x)
bind-some m f r e = elim (Option-cases (m r)) [
  | inl h ↦ let impossible = rw (h, ◌>>=◌) at e in absurd (cc)
  | inr ((a, r'), h) ↦ (a, r', h, rw (h, ◌>>=◌) at e)
]

-- The reader between what has been read and what follows.
abbrev pub at : Bytes → Bytes → Reader
at pre post = record { d = pre ++ post; p = length pre }

pub byte-at :
    (pre post : Bytes) (b : ℕ) → byte (at pre (b ∷ post)) ≡ some (b, at (pre ++ (b ∷ [])) post)
unfolding byte
byte-at pre post b =
    let moved_on : length pre + 1 ≡ length (pre ++ (b ∷ [])) =
      omega (arith, length-append pre (b ∷ [])) in
    let moved : record { d = pre ++ (b ∷ post); p = length pre + 1 } ≡ at (pre ++ (b ∷ [])) post =
      λ i. record { d = sym (append_assoc pre (b ∷ []) post) i; p = moved_on i } in
    rw (get_elem?-append_length pre post b, byte) (ap (λ r. some (b, r)) moved)

-- What a successful read of a byte does.
pub byte_lem :
    (r : Reader) {b : ℕ} {r' : Reader}
    → byte r ≡ some (b, r')
    → (r'.d ≡ r.d) × (r'.p ≡ r.p + 1) × (r.p < length r.d) × (get_elem? r.d r.p ≡ some b)
unfolding byte
byte_lem r e = elim (Option-cases (get_elem? r.d r.p)) [
  | inl h ↦ let impossible = rw (h, byte) at e in absurd (cc)
  | inr (c, h) ↦
      let pair = some_inj (rw (h, byte) at e) in
      (
        ap (λ w. w.1.d) (sym pair),
        ap (λ w. w.1.p) (sym pair),
        get_elem?-lt r.d r.p h,
        h ∙ ap (λ w. some w.0) pair,
      )
]

low_group : (b : ℕ) → bit_and b 0x7f ≡ b % 128
low_group b = bit_and-ones 7 b

high_bit : (b : ℕ) → b < 256 → (bit_and b 0x80 == 0) ≡ ltb b 128
unfolding digit
high_bit b h = ground (arith, bit_and-power b 7)

group-lt : (b s : ℕ) → group b s < 2 ^ 64
unfolding group
group-lt b s = omega arith

-- A group joins the digits below it.
bit_or-group :
    (b s acc : ℕ)
    → acc < 2 ^ s
    → acc + b % 128 * 2 ^ s < 2 ^ 64
    → bit_or acc (group b s) ≡ acc + b % 128 * 2 ^ s
unfolding group
bit_or-group b s acc h fits =
    let plain : bit_and b 127 * 2 ^ s % 2 ^ 64 ≡ b % 128 * 2 ^ s =
      ap (λ w. w * 2 ^ s % 2 ^ 64) (low_group b) ∙ mod-eq_of_lt (omega (arith, fits)) in
    rw plain (bit_or-add s acc (b % 128) h)

seven_places : (s : ℕ) → 2 ^ (s + 7) ≡ 128 * 2 ^ s
seven_places s = simp towards_suc (omega arith)

-- What a read of a number does to the position and to the data.
pub record Advances (most : ℕ) (r : Reader) (r' : Reader) : Type 0 where
  pub same : r'.d ≡ r.d
  pub ahead : r.p < r'.p
  pub near : r'.p ≤ r.p + most
  pub inside : r'.p ≤ length r.d

module _ (fuel result shift b : ℕ) (r : Reader) {r' : Reader} (e : byte r ≡ some (b, r')) where
  step_last :
      (bit_and b 0x80 == 0) ≡ true
      → uleb_loop (suc fuel) result shift r ≡ some (bit_or result (group b shift), r')
  unfolding uleb_loop
  step_last h = rw (e, ◌>>=◌, h) refl

  step_more :
      (bit_and b 0x80 == 0) ≡ false
      → leb 64 (shift + 7) ≡ false
      → uleb_loop (suc fuel) result shift r
        ≡ uleb_loop fuel (bit_or result (group b shift)) (shift + 7) r'
  unfolding uleb_loop
  step_more h k = rw (e, ◌>>=◌, h, k) refl

  step_long :
      (bit_and b 0x80 == 0) ≡ false
      → leb 64 (shift + 7) ≡ true
      → uleb_loop (suc fuel) result shift r ≡ none
  unfolding uleb_loop
  step_long h k = rw (e, ◌>>=◌, h, k) refl

  Advances-byte : Advances (suc fuel) r r'
  Advances-byte =
      let (same, moved, inside, found) = byte_lem r e in
      record {
        same = same;
        ahead = omega (arith, moved);
        near = omega (arith, moved);
        inside = omega (arith, moved, inside);
      }

uleb_loop-byte :
    (fuel result shift : ℕ) (r : Reader) {x : ℕ × Reader}
    → uleb_loop (suc fuel) result shift r ≡ some x
    → (b : ℕ) × (r' : Reader) × (byte r ≡ some (b, r'))
unfolding uleb_loop
uleb_loop-byte fuel result shift r e = elim (Option-cases (byte r)) [
  | inl h ↦ let impossible = rw (h, ◌>>=◌) at e in absurd (cc)
  | inr ((b, r'), h) ↦ (b, r', h)
]

uleb_loop-bounds :
    (fuel result shift : ℕ) (r : Reader) {v : ℕ} {r' : Reader}
    → result < 2 ^ 64
    → uleb_loop fuel result shift r ≡ some (v, r')
    → (v < 2 ^ 64) × Advances fuel r r'
uleb_loop-bounds zero result shift r h e = unfold uleb_loop in absurd (cc)
uleb_loop-bounds (suc fuel) result shift r {v} {r'} h e =
    let (b, r1, read) = uleb_loop-byte fuel result shift r e in
    let within = bit_or-lt 64 result (group b shift) h (group-lt b shift) in
    elim (Bool-cases (bit_and b 0x80 == 0)) [
      | inl last ↦
          let pair = some_inj (sym (step_last fuel result shift b r read last) ∙ e) in
          rw (sym (ap (λ w. w.0) pair), sym (ap (λ w. w.1) pair))
            (within, Advances-byte fuel result shift b r read)
      | inr more ↦ elim (Bool-cases (leb 64 (shift + 7))) [
        | inl long ↦ absurd (cc (step_long fuel result shift b r read more long))
        | inr go ↦
            let (small, far) =
              uleb_loop-bounds fuel (bit_or result (group b shift)) (shift + 7) r1 within
                (sym (step_more fuel result shift b r read more go) ∙ e) in
            let near = Advances-byte fuel result shift b r read in
            let (same, moved, inside, found) = byte_lem r read in
            (
              small,
              record {
                same = far.same ∙ near.same;
                ahead = omega (arith, far.ahead, near.ahead);
                near = omega (arith, far.near, moved);
                inside = omega (arith, far.inside, ap (λ d. length d) same);
              },
            )
      ]
    ]

-- The number in groups of seven bits, in `k + 1` bytes at most.
unfoldable pub leb_bytes : ℕ → ℕ → Bytes
leb_bytes zero v = v ∷ []
leb_bytes (suc k) v = if ltb v 128 then v ∷ [] else (v % 128 + 128) ∷ leb_bytes k (v / 128)

last_group :
    (fuel acc s v : ℕ) (pre post : Bytes)
    → v < 128
    → acc < 2 ^ s
    → acc + v * 2 ^ s < 2 ^ 64
    → uleb_loop (suc fuel) acc s (at pre (v ∷ post))
      ≡ some (acc + v * 2 ^ s, at (pre ++ (v ∷ [])) post)
last_group fuel acc s v pre post small h fits =
    step_last fuel acc s v (at pre (v ∷ post)) (byte-at pre post v)
      (high_bit v (omega arith) ∙ lt→ltb v 128 small)
    ∙ ap (λ w. some (w, at (pre ++ (v ∷ [])) post))
        (bit_or-group v s acc h (rw (mod-eq_of_lt small) fits)
          ∙ ap (λ w. acc + w * 2 ^ s) (mod-eq_of_lt small))

inner_group :
    (fuel acc s g : ℕ) (pre post : Bytes)
    → g < 128
    → s + 7 < 64
    → acc < 2 ^ s
    → acc + g * 2 ^ s < 2 ^ 64
    → uleb_loop (suc fuel) acc s (at pre ((g + 128) ∷ post))
      ≡ uleb_loop fuel (acc + g * 2 ^ s) (s + 7) (at (pre ++ ((g + 128) ∷ [])) post)
inner_group fuel acc s g pre post small room h fits =
    let low : (g + 128) % 128 ≡ g = omega arith in
    step_more fuel acc s (g + 128) (at pre ((g + 128) ∷ post)) (byte-at pre post (g + 128))
      (high_bit (g + 128) (omega arith) ∙ ground arith) (ground arith)
    ∙ ap (λ w. uleb_loop fuel w (s + 7) (at (pre ++ ((g + 128) ∷ [])) post))
        (bit_or-group (g + 128) s acc h (rw low fits) ∙ ap (λ w. acc + w * 2 ^ s) low)

-- The lowest seven bits of a number, and the rest seven places up.
groups-sum : (s v : ℕ) → v % 128 * 2 ^ s + v / 128 * 2 ^ (s + 7) ≡ v * 2 ^ s
groups-sum s v =
    let rest : v / 128 * 2 ^ (s + 7) ≡ v / 128 * (128 * 2 ^ s) =
      ap (λ (t : ℕ). v / 128 * t) (seven_places s) in
    let parts : (128 * (v / 128) + v % 128) * 2 ^ s ≡ v * 2 ^ s =
      ap (λ (n : ℕ). n * 2 ^ s) (div-add-mod v 128) in
    omega (arith, rest, parts)

leb_bytes_last : (k v : ℕ) → ltb v 128 ≡ true → leb_bytes (suc k) v ≡ v ∷ []
unfolding leb_bytes
leb_bytes_last k v h = rw h refl

leb_bytes_more :
    (k v : ℕ) → ltb v 128 ≡ false → leb_bytes (suc k) v ≡ (v % 128 + 128) ∷ leb_bytes k (v / 128)
unfolding leb_bytes
leb_bytes_more k v h = rw h refl

-- The group `j` stands from bit 7 * j on.
uleb_loop-leb_bytes :
    (k fuel acc s j v : ℕ) (pre post : Bytes)
    → k < fuel
    → s ≡ 7 * j
    → j + k ≤ 9
    → v < 128 ^ suc k
    → acc < 2 ^ s
    → acc + v * 2 ^ s < 2 ^ 64
    → uleb_loop fuel acc s (at pre (leb_bytes k v ++ post))
      ≡ some (acc + v * 2 ^ s, at (pre ++ leb_bytes k v) post)
uleb_loop-leb_bytes k zero acc s j v pre post room at_j few small h fits = absurd (omega arith)
uleb_loop-leb_bytes zero (suc fuel) acc s j v pre post room at_j few small h fits =
    unfold leb_bytes in last_group fuel acc s v pre post (omega arith) h fits
uleb_loop-leb_bytes (suc k) (suc fuel) acc s j v pre post room at_j few small h fits =
    elim (Bool-cases (ltb v 128)) [
      | inl done ↦
          rw (leb_bytes_last k v done) (last_group fuel acc s v pre post (ltb→lt v 128 done) h fits)
      | inr more ↦
          let g = v % 128 in
          let b : Bytes = (g + 128) ∷ [] in
          let parts = groups-sum s v in
          let value : acc + g * 2 ^ s + v / 128 * 2 ^ (s + 7) ≡ acc + v * 2 ^ s =
            omega (arith, parts) in
          let rest =
            uleb_loop-leb_bytes k fuel (acc + g * 2 ^ s) (s + 7) (suc j) (v / 128) (pre ++ b) post
              (omega arith) (omega arith) (omega arith) (omega (arith, pow-suc 128 (suc k), small))
              (omega (arith, seven_places s, mul_mono g 127 (2 ^ s) (omega arith), h))
              (omega (arith, parts, fits)) in
          rw (leb_bytes_more k v more) (
            inner_group fuel acc s g pre (leb_bytes k (v / 128) ++ post) (omega arith) (omega arith)
              h (omega (arith, parts, fits))
            ∙ rest
            ∙ λ i. some (value i, at (append_assoc pre b (leb_bytes k (v / 128)) i) post))
    ]

-- A number below 2^64, written in groups of seven bits between any bytes before and after, is read
-- back by uleb, which stops right behind it.
pub uleb-leb_bytes :
    (v : ℕ) (pre post : Bytes)
    → v < 2 ^ 64
    → uleb (at pre (leb_bytes 9 v ++ post)) ≡ some (v, at (pre ++ leb_bytes 9 v) post)
unfolding uleb
uleb-leb_bytes v pre post h =
    uleb_loop-leb_bytes 9 10 0 0 0 v pre post (omega arith) (omega arith) (omega arith)
      (omega arith) (omega arith) (omega (arith, h))
    ∙ ap (λ w. some (w, at (pre ++ leb_bytes 9 v) post)) (omega arith)

-- A successful uleb gives a number below 2^64, keeps the data, moves the position on by at least
-- one and at most ten bytes, and stays within the data.
pub uleb-Advances :
    (r : Reader) {v : ℕ} {r' : Reader} → uleb r ≡ some (v, r') → (v < 2 ^ 64) × Advances 10 r r'
unfolding uleb
uleb-Advances r e = uleb_loop-bounds 10 0 0 r (omega arith) e
