-- ===== src/Rsa/Accept.antt =====
-- What src/rsa.rs accepts: exactly the signatures whose power is the encoded digest.
use native.Mathlib.Nat.{pow-le-pow_right, mod-lt}
use veil_os.Base.Bits.{mul_mono}
use veil_os.ChaCha20.Blocks.{IsBytes, every_byte, IsBytes-append, IsBytes-cons}
use veil_os.Sha256.Hasher.{sha256}
use veil_os.Sha256.Standard.{length-sha256}
use veil_os.Rsa.Big.{trim_leading_zeros}
use veil_os.Rsa.Bytes.{be_val, be_val-lt, be_val-trim, IsShortest}
use veil_os.Rsa.Octets.{IsBytes-sha256, IsBytes-trim, IsBytes-repeat, length-trim}
use veil_os.Rsa.Power.{IsPower, modexp-IsPower}
use veil_os.Rsa.Verify.{modexp, digest_info, encoded, same_bytes, compare_encoded, verify_with}
use mathlib.Core.Path.{subst}
use veil_os.Base.{◌>>=◌}
use veil_os.Base.{
  ℕ, zero, suc, ◌+◌, ◌-◌, ◌*◌, ◌%◌, ◌^◌, ◌≤◌, ◌<◌, ◌≡◌, refl, sym, ap, ◌∙◌, ◌↔◌, inl, inr, Bool,
  true, false, ◌||◌, List, [], ◌∷◌, ◌++◌, some, arith, ltb, leb, ◌==◌, Bool-cases, some_inj,
  replicate, length-replicate, leb→le, ltb→lt, ==_iff, length, length-append,
}

same_bytes_refl : (xs : List ℕ) → same_bytes xs xs ≡ true
unfolding same_bytes
same_bytes_refl [] = refl
same_bytes_refl (x ∷ xs) = let same : (x == x) ≡ true = ground arith in rw same (same_bytes_refl xs)

same_bytes_sound : (xs ys : List ℕ) → same_bytes xs ys ≡ true → xs ≡ ys
unfolding same_bytes
same_bytes_sound [] [] e = refl
same_bytes_sound [] (y ∷ ys) e = absurd (cc)
same_bytes_sound (x ∷ xs) [] e = absurd (cc)
same_bytes_sound (x ∷ xs) (y ∷ ys) e = elim (Bool-cases (x == y)) [
  | inl same ↦
      let head : x ≡ y = (==_iff x y).0 same in
      let rest = rw same at e in λ i. head i ∷ same_bytes_sound xs ys rest i
  | inr other ↦ let impossible = rw other at e in absurd (cc)
]

digits_inj : (p x y v w : ℕ) → v < p → w < p → x * p + v ≡ y * p + w → (x ≡ y) × (v ≡ w)
digits_inj p x y v w h k e = elim (Bool-cases (ltb x y)) [
  | inl less ↦ absurd (omega (arith, mul_mono (suc x) y p (ltb→lt x y less)))
  | inr more ↦ elim (Bool-cases (ltb y x)) [
    | inl less ↦ absurd (omega (arith, mul_mono (suc y) x p (ltb→lt y x less)))
    | inr most ↦
        let same : x ≡ y = ground arith in (same, omega (arith, ap (λ (t : ℕ). t * p) same))
  ]
]

length-digest_info : length digest_info ≡ 19
unfolding digest_info
length-digest_info = refl

digest_info-IsBytes : IsBytes digest_info
unfolding digest_info
digest_info-IsBytes = every_byte digest_info refl

-- Bytes of the same number with the same value are the same.
be_val_inj :
    (xs ys : List ℕ)
    → IsBytes xs
    → IsBytes ys
    → length xs ≡ length ys
    → be_val xs ≡ be_val ys
    → xs ≡ ys
unfolding be_val
be_val_inj [] [] s t l e = refl
be_val_inj [] (y ∷ ys) s t l e = absurd (omega arith)
be_val_inj (x ∷ xs) [] s t l e = absurd (omega arith)
be_val_inj (x ∷ xs) (y ∷ ys) s t l e =
    let places : length xs ≡ length ys = omega arith in
    let high = be_val-lt xs (λ i. s (suc i)) in
    let high' = be_val-lt ys (λ i. t (suc i)) in
    let scale = ap (λ t. y * 256 ^ t) places in
    let power = ap (λ t. 256 ^ t) places in
    let (head, rest) =
      digits_inj (256 ^ length xs) x y (be_val xs) (be_val ys) high (omega (arith, high', power))
        (omega (arith, e, scale)) in
    λ i. head i ∷ be_val_inj xs ys (λ i. s (suc i)) (λ i. t (suc i)) places rest i

shortest-le : (xs : List ℕ) (n : ℕ) → IsShortest xs → 0 < n → be_val xs < 256 ^ n → length xs ≤ n
unfolding IsShortest be_val
shortest-le [] n top h l = absurd top
shortest-le (x ∷ []) n top h l = omega arith
shortest-le (x ∷ y ∷ xs) n top h l = elim (Bool-cases (leb (suc (suc (length xs))) n)) [
  | inl few ↦ leb→le (suc (suc (length xs))) n few
  | inr many ↦
      let beyond : n ≤ suc (length xs) = ground arith in
      let grown = pow-le-pow_right {n = 256} (omega arith) {i = n} {j = suc (length xs)} beyond in
      let once = mul_mono 1 x (256 ^ suc (length xs)) top in absurd (omega (arith, grown, once, l))
]

length-encoded :
    (k : ℕ) (digest : List ℕ)
    → length digest_info + length digest + 11 ≤ k
    → length (encoded k digest) ≡ k
unfolding encoded
length-encoded k digest h =
    let fill = k - length digest_info - length digest - 3 in
    omega (
      arith,
      h,
      length-append (replicate fill 0xff) (0 ∷ (digest_info ++ digest)),
      length-replicate {A = ℕ} fill 0xff,
      length-append digest_info digest,
    )

IsBytes-encoded : (k : ℕ) (digest : List ℕ) → IsBytes digest → IsBytes (encoded k digest)
unfolding encoded
IsBytes-encoded k digest s =
    let fill = k - length digest_info - length digest - 3 in
    let tail = 0 ∷ (digest_info ++ digest) in
    let body = replicate fill 0xff ++ tail in
    IsBytes-cons 0 (1 ∷ body) (omega arith) (
      IsBytes-cons 1 body (omega arith) (
        IsBytes-append (replicate fill 0xff) tail (IsBytes-repeat fill 0xff (omega arith)) (
          IsBytes-cons 0 (digest_info ++ digest) (omega arith)
            (IsBytes-append digest_info digest digest_info-IsBytes s))))

be_val-padded : (n : ℕ) (xs : List ℕ) → be_val (replicate n 0 ++ xs) ≡ be_val xs
unfolding be_val
be_val-padded zero xs = refl
be_val-padded (suc n) xs = omega (arith, be_val-padded n xs)

-- A power below the modulus compares equal just when it has the value of the encoded digest.
compare_encoded_iff :
    (k : ℕ) (digest m : List ℕ) (value : ℕ)
    → IsBytes digest
    → IsPower m value
    → value < 256 ^ k
    → length digest_info + length digest + 11 ≤ k
    → (compare_encoded k digest m ≡ true) ↔ (value ≡ be_val (encoded k digest))
unfolding compare_encoded
compare_encoded_iff k digest m value s p small room =
    let enough : ltb k (length digest_info + length digest + 11) ≡ false = ground arith in
    let fits = shortest-le m k p.shortest (omega arith) (omega (arith, p.value_is, small)) in
    let padded = replicate (k - length m) 0 ++ m in
    let padding = be_val-padded (k - length m) m in
    let places : length padded ≡ length (encoded k digest) = omega (
      arith,
      fits,
      length-append (replicate (k - length m) 0) m,
      length-replicate {A = ℕ} (k - length m) 0,
      length-encoded k digest room,
    ) in
    rw enough (
      (
        λ e.
            sym p.value_is ∙ sym padding ∙ ap be_val (same_bytes_sound padded (encoded k digest) e),
        λ e.
            let same =
              be_val_inj padded (encoded k digest)
                (IsBytes-append _ _ (IsBytes-repeat (k - length m) 0 (omega arith)) p.bytes_are)
                (IsBytes-encoded k digest s) places (padding ∙ p.value_is ∙ e) in
            ap (λ w. same_bytes w (encoded k digest)) same ∙ same_bytes_refl (encoded k digest),
      ))

module _ (n e msg sig : List ℕ) (s : IsBytes n) (t : IsBytes e) (u : IsBytes sig) where
  sig-IsPower :
      0 < length sig
      → (power : List ℕ) × (modexp (trim_leading_zeros sig) e n ≡ some power)
        × (1 < be_val n → IsPower power (be_val sig ^ be_val e % be_val n))
  sig-IsPower some_sig =
      let (power, done, is) =
        modexp-IsPower (trim_leading_zeros sig) e n (IsBytes-trim sig u) t s
          (length-trim sig some_sig) in
      (
        power,
        done,
        λ several.
            subst (λ v. IsPower power (v ^ be_val e % be_val n)) (be_val-trim sig) (is several),
      )

  -- A key never makes the check panic.
  pub verify_with-some : (verdict : Bool) × (verify_with (some (n, e)) msg sig ≡ some verdict)
  unfolding verify_with
  verify_with-some = elim (Bool-cases ((length sig == 0) || (length n == 0))) [
    | inl empty ↦ (false, rw empty refl)
    | inr full ↦
        let (power, done, is) = sig-IsPower (ground arith) in
        (compare_encoded (length n) (sha256 msg) power, rw (full, done, ◌>>=◌) refl)
  ]

  pub verify_with-accepts :
      0 < length sig
      → 62 ≤ length n
      → 1 < be_val n
      → (verify_with (some (n, e)) msg sig ≡ some true)
        ↔ (be_val sig ^ be_val e % be_val n ≡ be_val (encoded (length n) (sha256 msg)))
  unfolding verify_with
  verify_with-accepts some_sig long several =
      let full : (length sig == 0) || (length n == 0) ≡ false = ground arith in
      let (power, done, is) = sig-IsPower some_sig in
      let (sound, complete) =
        compare_encoded_iff (length n) (sha256 msg) power (be_val sig ^ be_val e % be_val n)
          (IsBytes-sha256 msg) (is several)
          (omega
            (arith, be_val-lt n s, mod-lt (be_val sig ^ be_val e) {m = be_val n} (omega arith)))
          (omega (arith, length-sha256 msg, length-digest_info)) in
      rw (full, done, ◌>>=◌) ((λ e. sound (some_inj e), λ e. ap some (complete e)))
