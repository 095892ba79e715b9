-- ===== src/Rsa/Der.antt =====
-- The keys that src/rsa.rs reads, and the whole check of a signature.
use native.Mathlib.Nat.{pow-le-pow_right}
use veil_os.Base.Bits.{mul_mono}
use veil_os.ChaCha20.Blocks.{IsBytes, IsBytes-drop, IsBytes-take}
use veil_os.Rsa.Big.{trim_leading_zeros}
use veil_os.Rsa.Bytes.{be_val, IsShortest, trim-IsShortest}
use veil_os.Rsa.Octets.{IsBytes-trim}
use veil_os.Rsa.Verify.{
  slice, length_at, tlv_at, tlv, key_numbers, key_bytes, bit_string, read_key, rsa_pubkey,
  verify_with, verify_pkcs1_sha256,
}
use veil_os.Rsa.Emsa.{emsa_encoded, encoded_lem}
use veil_os.Sha256.Fips.{digest}
use veil_os.Rsa.Accept.{verify_with-some, verify_with-accepts}
use mathlib.Core.Path.{subst}
use veil_os.Base.{◌>>=◌, bind_some}
use veil_os.Base.{
  ℕ, suc, ◌+◌, ◌-◌, ◌%◌, ◌^◌, ◌≤◌, ◌<◌, ◌≡◌, refl, sym, ◌∙◌, ◌↔◌, inl, inr, Bool, true, false, List,
  [], ◌∷◌, Option, none, some, arith, ltb, ◌==◌, Bool-cases, some_inj, Option-cases, length,
  get_elem?, drop,
}

module _ (b : List ℕ) (s : IsBytes b) where
  tlv_at-IsBytes :
      (off : ℕ) {found : ℕ × (List ℕ × ℕ)} → tlv_at b off ≡ some found → IsBytes found.1.0
  unfolding tlv_at slice
  tlv_at-IsBytes off e =
      let (tag, _, e1) = bind_some (get_elem? b off) _ e in
      let (first, _, e2) = bind_some (get_elem? b (off + 1)) _ e1 in
      let (sizes, _, e3) = bind_some (length_at b off first) _ e2 in
      elim (Bool-cases (ltb (length b) (off + sizes.1 + sizes.0))) [
        | inl beyond ↦ let impossible = rw beyond at e3 in absurd (cc)
        | inr inside ↦
            let found = some_inj (rw inside at e3) in
            subst (λ (w : ℕ × (List ℕ × ℕ)). IsBytes w.1.0) found
              (IsBytes-take (off + sizes.1 + sizes.0 - (off + sizes.1)) (drop (off + sizes.1) b)
                (IsBytes-drop (off + sizes.1) b s))
      ]

  tlv-IsBytes : (off : ℕ) {found : ℕ × List ℕ} → tlv b off ≡ some found → IsBytes found.1
  unfolding tlv
  tlv-IsBytes off e =
      let (at, e1, e2) = bind_some (tlv_at b off) _ e in
      subst (λ (w : ℕ × List ℕ). IsBytes w.1) (some_inj e2) (tlv_at-IsBytes off e1)

-- What a key is made of: bytes, and no zero in front of another one.
record IsKey (key : List ℕ × List ℕ) : Type 0 where
  modulus_bytes : IsBytes key.0
  exponent_bytes : IsBytes key.1
  modulus_shortest : 0 < length key.0 → IsShortest key.0

trimmed-IsShortest :
    (b : List ℕ) → 0 < length (trim_leading_zeros b) → IsShortest (trim_leading_zeros b)
unfolding trim_leading_zeros
trimmed-IsShortest [] h = absurd (omega arith)
trimmed-IsShortest (x ∷ b) h = trim-IsShortest (x ∷ b) (omega arith)

key_numbers-IsKey :
    (b : List ℕ) {key : List ℕ × List ℕ} → IsBytes b → key_numbers b ≡ some key → IsKey key
unfolding key_numbers
key_numbers-IsKey b s e =
    let (outer, o, e1) = bind_some (tlv b 0) _ e in
    let inside = tlv-IsBytes b s 0 o in
    let (n, p, e2) = bind_some (tlv_at outer.1 0) _ e1 in
    let (x, q, e3) = bind_some (tlv_at outer.1 n.1.1) _ e2 in
    subst IsKey (some_inj e3) (record {
      modulus_bytes = IsBytes-trim n.1.0 (tlv_at-IsBytes outer.1 inside 0 p);
      exponent_bytes = IsBytes-trim x.1.0 (tlv_at-IsBytes outer.1 inside n.1.1 q);
      modulus_shortest = trimmed-IsShortest n.1.0;
    })

bit_string-IsBytes :
    (spki : List ℕ) {bits : List ℕ} → IsBytes spki → bit_string spki ≡ some bits → IsBytes bits
unfolding bit_string
bit_string-IsBytes spki s e =
    let (outer, o, e1) = bind_some (tlv spki 0) _ e in
    let inside = tlv-IsBytes spki s 0 o in
    let (algorithm, p, e2) = bind_some (tlv_at outer.1 0) _ e1 in
    let (found, q, e3) = bind_some (tlv_at outer.1 algorithm.1.1) _ e2 in
    elim (Bool-cases (found.0 == 0x03)) [
      | inl tagged ↦
          subst IsBytes (some_inj (rw tagged at e3)) (tlv_at-IsBytes outer.1 inside algorithm.1.1 q)
      | inr other ↦ let impossible = rw other at e3 in absurd (cc)
    ]

read_key-IsKey :
    (o : Option (List ℕ)) {key : List ℕ × List ℕ}
    → ((bits : List ℕ) → o ≡ some bits → IsBytes bits)
    → read_key o ≡ some (some key)
    → IsKey key
unfolding read_key key_bytes
read_key-IsKey none s e = absurd (let impossible = some_inj e in cc)
read_key-IsKey (some []) s e = absurd (cc)
read_key-IsKey (some (unused ∷ rest)) s e =
    key_numbers-IsKey rest (λ i. s (unused ∷ rest) refl (suc i)) (some_inj e)

read_key-none : (o : Option (List ℕ)) → (read_key o ≡ none) ↔ (o ≡ some [])
unfolding read_key key_bytes
read_key-none none = (λ e. absurd (cc), λ e. absurd (cc))
read_key-none (some []) = (λ e. refl, λ e. refl)
read_key-none (some (unused ∷ rest)) =
    (λ e. absurd (cc), λ e. absurd (nonempty unused rest (some_inj e)))
  where
    nonempty : (x : ℕ) (xs : List ℕ) → (x ∷ xs ≡ []) → ⊥
    nonempty x xs e = cc

long-several : (b : List ℕ) → IsShortest b → 62 ≤ length b → 1 < be_val b
unfolding IsShortest be_val
long-several [] top h = absurd top
long-several (x ∷ []) top h = absurd (omega arith)
long-several (x ∷ y ∷ b) top h = omega (
  arith,
  mul_mono 1 x (256 ^ suc (length b)) top,
  pow-le-pow_right {n = 256} (omega arith) {i = 1} {j = suc (length b)} (omega arith),
)

module _ (spki msg sig : List ℕ) (s : IsBytes spki) (u : IsBytes sig) where
  rsa_pubkey-IsKey : {key : List ℕ × List ℕ} → rsa_pubkey spki ≡ some (some key) → IsKey key
  unfolding rsa_pubkey
  rsa_pubkey-IsKey e = read_key-IsKey (bit_string spki) (λ bits f. bit_string-IsBytes spki s f) e

  -- For a key of bytes that is read as a modulus of at least 62 bytes and an exponent, a signature
  -- of at least one byte, and a message of fewer than 2^61 bytes, the check accepts exactly when
  -- the signature to the exponent, modulo the modulus, is the number of the bytes that RFC 8017
  -- encodes, by definitions apart from the code: 00 01 FF … FF 00 and the DER value of the
  -- identifier of SHA-256 and the digest of the message.
  pub verify_pkcs1_sha256-accepts :
      (n e : List ℕ)
      → rsa_pubkey spki ≡ some (some (n, e))
      → 0 < length sig
      → 62 ≤ length n
      → length msg < 2 ^ 61
      → (verify_pkcs1_sha256 spki msg sig ≡ some true)
        ↔ (be_val sig ^ be_val e % be_val n ≡ be_val (emsa_encoded (length n) (digest msg)))
  unfolding verify_pkcs1_sha256
  verify_pkcs1_sha256-accepts n e found some_sig long small =
      let key = rsa_pubkey-IsKey found in
      rw (found, ◌>>=◌, ← encoded_lem (length n) msg small)
        (verify_with-accepts n e msg sig key.modulus_bytes key.exponent_bytes u some_sig long
          (long-several n (key.modulus_shortest (omega arith)) long))

  answers :
      (key : Option (List ℕ × List ℕ))
      → rsa_pubkey spki ≡ some key
      → (verdict : Bool) × (verify_with key msg sig ≡ some verdict)
  unfolding verify_with
  answers none found = (false, refl)
  answers (some (n, e)) found =
      let key = rsa_pubkey-IsKey found in
      verify_with-some n e msg sig key.modulus_bytes key.exponent_bytes u

  -- For a key and a signature of bytes, the check panics exactly when the bit string of the key is
  -- found and holds no byte at all, not even that of its unused bits; in all other cases it
  -- answers yes or no.
  pub verify_pkcs1_sha256-none :
      (verify_pkcs1_sha256 spki msg sig ≡ none) ↔ (bit_string spki ≡ some [])
  unfolding verify_pkcs1_sha256 rsa_pubkey
  verify_pkcs1_sha256-none = elim (Option-cases (rsa_pubkey spki)) [
    | inl panics ↦ rw (panics, ◌>>=◌) (λ e. (read_key-none (bit_string spki)).0 panics, λ e. refl)
    | inr (key, found) ↦
        let (verdict, done) = answers key found in
        (
          λ e. let impossible = rw (found, ◌>>=◌, done) at e in absurd (cc),
          λ e.
              let panics = (read_key-none (bit_string spki)).1 e in
              absurd (let impossible = sym panics ∙ found in cc),
        )
  ]
