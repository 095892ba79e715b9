-- ===== src/Tls/Protect.antt =====
-- A record of src/tls.rs made, found and opened.
use Prim.Native.Nat.{bit_or}
use veil_os.Base.Slices.{drop-append, take-front}
use veil_os.ChaCha20.Aead.{chacha20poly1305_decrypt, chacha20poly1305_encrypt}
use veil_os.ChaCha20.Sealed.{decrypt_iff, length-chacha20poly1305_encrypt}
use veil_os.Rsa.Bytes.{or_below}
use veil_os.Tls.Record.{
  rec_appdata, make_nonce, record_header, encrypt_record, put_byte, pop_type, decrypt_record,
}
use veil_os.Tls.Stream.{take_record}
use veil_os.Base.{◌>>=◌, bind_some}
use veil_os.Base.{
  ℕ, zero, suc, ◌+◌, ◌*◌, ◌/◌, ◌%◌, ◌^◌, ◌≤◌, ◌<◌, ◌≡◌, refl, sym, ap, ◌∙◌, ◌↔◌, ◌⊎◌, inl, inr,
  false, List, [], ◌∷◌, ◌++◌, none, some, arith, ltb, ◌==◌, Bool-cases, some_inj, replicate, length,
  length-append, drop,
}

-- What `pop_type` takes apart: only zeros are behind the type.
popped :
    (xs : List ℕ)
    → ((pop_type xs ≡ none) × (xs ≡ replicate (length xs) 0))
      ⊎ ((ctype : ℕ) × (content : List ℕ) × (padding : ℕ) × (pop_type xs ≡ some (ctype, content))
          × (0 < ctype)
          × (xs ≡ content ++ (ctype ∷ replicate padding 0)))
unfolding pop_type put_byte
popped [] = inl (refl, refl)
popped (x ∷ xs) = elim (popped xs) [
  | inl (nothing, blank) ↦ elim (Bool-cases (x == 0)) [
    | inl nil ↦
        let zeroed : x ≡ 0 = ground arith in inl (rw (nothing, nil) refl, λ i. zeroed i ∷ blank i)
    | inr mark ↦
        inr (x, [], length xs, rw (nothing, mark) refl, ground arith, ap (λ w. x ∷ w) blank)
  ]
  | inr (ctype, content, padding, found, above, whole) ↦
      inr (ctype, x ∷ content, padding, rw found refl, above, ap (λ w. x ∷ w) whole)
]

pop_type-zeros : (n : ℕ) → pop_type (replicate n 0) ≡ none
unfolding pop_type put_byte
pop_type-zeros zero = refl
pop_type-zeros (suc n) = ap (put_byte 0) (pop_type-zeros n)

pop_type-padded :
    (content : List ℕ) (ctype padding : ℕ)
    → 0 < ctype
    → pop_type (content ++ (ctype ∷ replicate padding 0)) ≡ some (ctype, content)
unfolding pop_type put_byte
pop_type-padded [] ctype padding h =
    let some_type : (ctype == 0) ≡ false = ground arith in
    rw (pop_type-zeros padding, some_type) refl
pop_type-padded (x ∷ content) ctype padding h =
    ap (put_byte x) (pop_type-padded content ctype padding h)

-- The bytes of a record behind its header.
unfoldable pub body_of : List ℕ → List ℕ → ℕ → ℕ → List ℕ → List ℕ
body_of key iv seq ctype content =
    chacha20poly1305_encrypt key (make_nonce iv seq)
      (record_header (length (content ++ (ctype ∷ [])) + 16)) (content ++ (ctype ∷ []))

-- A record whose header tells the length of its body.
take_record_lem :
    (t a c hi lo : ℕ) (body rest : List ℕ)
    → bit_or (hi * 2 ^ 8) lo ≡ length body
    → take_record (t ∷ a ∷ c ∷ hi ∷ lo ∷ (body ++ rest))
      ≡ some (record { rtype = t; header = t ∷ a ∷ c ∷ hi ∷ lo ∷ []; body = body }, rest)
unfolding take_record
take_record_lem t a c hi lo body rest e =
    let all = suc (suc (suc (suc (suc (length (body ++ rest)))))) in
    let long : ltb all 5 ≡ false = ground arith in
    let whole : ltb all (5 + length body) ≡ false = ground (arith, length-append body rest) in
    let left : drop (5 + length body) (t ∷ a ∷ c ∷ hi ∷ lo ∷ (body ++ rest)) ≡ rest =
      drop-append (5 + length body) (t ∷ a ∷ c ∷ hi ∷ lo ∷ body) rest (omega arith) in
    rw (e, long, whole, left, take-front (length body) body rest refl) refl

module _ (key iv : List ℕ) (seq ctype : ℕ) (content : List ℕ) where
  abbrev header_of : List ℕ
  header_of = record_header (length (content ++ (ctype ∷ [])) + 16)

  pub decrypt_record-body_of :
      0 < ctype
      → decrypt_record key iv seq header_of (body_of key iv seq ctype content)
        ≡ some (ctype, content)
  unfolding decrypt_record body_of
  decrypt_record-body_of h =
      let inner = content ++ (ctype ∷ []) in
      let open_again =
        (decrypt_iff key (make_nonce iv seq) header_of (body_of key iv seq ctype content) inner).1
          refl in
      rw (open_again, ◌>>=◌) (pop_type-padded content ctype 0 h)

  pub length-body_of : length (body_of key iv seq ctype content) ≡ length content + 17
  unfolding body_of
  length-body_of =
      let inner = content ++ (ctype ∷ []) in
      omega (
        arith,
        length-chacha20poly1305_encrypt key (make_nonce iv seq) header_of inner,
        length-append content (ctype ∷ []),
      )

  pub length-encrypt_record : length (encrypt_record key iv seq ctype content) ≡ length content + 22
  unfolding encrypt_record record_header body_of
  length-encrypt_record = omega (
    arith,
    length-chacha20poly1305_encrypt key (make_nonce iv seq) header_of (content ++ (ctype ∷ [])),
    length-append content (ctype ∷ []),
  )

  -- The header tells the length of the body.
  pub told :
      length content ≤ 16384
      → bit_or
          ((length (content ++ (ctype ∷ [])) + 16) / 2 ^ 8 % 256 * 2 ^ 8)
          ((length (content ++ (ctype ∷ [])) + 16) % 256)
        ≡ length (body_of key iv seq ctype content)
  told h =
      let len = length (content ++ (ctype ∷ [])) + 16 in
      let size = length-append content (ctype ∷ []) in
      or_below 8 (len % 256) (len / 2 ^ 8 % 256) (omega arith)
      ∙ omega (arith, size, length-body_of, h)

  pub take_record-encrypt_record :
      (rest : List ℕ)
      → length content ≤ 16384
      → take_record (encrypt_record key iv seq ctype content ++ rest)
        ≡ some (
          record {
            rtype = rec_appdata;
            header = header_of;
            body = body_of key iv seq ctype content;
          },
          rest,
        )
  unfolding encrypt_record record_header body_of
  take_record-encrypt_record rest h =
      let len = length (content ++ (ctype ∷ [])) + 16 in
      take_record_lem rec_appdata 0x03 0x03 (len / 2 ^ 8 % 256) (len % 256)
        (body_of key iv seq ctype content) rest (told h)

-- With a given key, initialization vector, number and header, decrypt_record gives a type and a
-- content exactly if the type is not zero and the body of the record is the encryption, under that
-- header and the nonce of that number, of the content, the type, and any number of zeros: nothing
-- else is ever taken for a record.
pub decrypt_record_iff :
    (key iv : List ℕ) (seq : ℕ) (header body content : List ℕ) (ctype : ℕ)
    → (decrypt_record key iv seq header body ≡ some (ctype, content)) ↔ (
        (0 < ctype)
        × (padding : ℕ) × (body
            ≡ chacha20poly1305_encrypt key
                (make_nonce iv seq)
                header
                (content ++ (ctype ∷ replicate padding 0))))
unfolding decrypt_record
decrypt_record_iff key iv seq header body content ctype = (opens, made)
  where
    opens :
        decrypt_record key iv seq header body ≡ some (ctype, content)
        → (0 < ctype)
          × (padding : ℕ) × (body
              ≡ chacha20poly1305_encrypt key
                  (make_nonce iv seq)
                  header
                  (content ++ (ctype ∷ replicate padding 0)))
    opens e =
        let (plain, unsealed, found) =
          bind_some (chacha20poly1305_decrypt key (make_nonce iv seq) header body) pop_type e in
        let sealed_is = (decrypt_iff key (make_nonce iv seq) header body plain).0 unsealed in
        elim (popped plain) [
          | inl (nothing, _) ↦ absurd (let impossible = sym nothing ∙ found in cc)
          | inr (ctype', content', padding, taken, above, whole) ↦
              let pair = some_inj (sym taken ∙ found) in
              let same : ctype' ≡ ctype = ap (λ (w : ℕ × List ℕ). w.0) pair in
              (
                omega (arith, above, same),
                padding,
                sealed_is
                    ∙ ap (chacha20poly1305_encrypt key (make_nonce iv seq) header)
                        (whole ∙ ap (λ (w : ℕ × List ℕ). w.1 ++ (w.0 ∷ replicate padding 0)) pair),
              )
        ]

    made :
        ((0 < ctype)
          × (padding : ℕ) × (body
              ≡ chacha20poly1305_encrypt key
                  (make_nonce iv seq)
                  header
                  (content ++ (ctype ∷ replicate padding 0))))
        → decrypt_record key iv seq header body ≡ some (ctype, content)
    made (h, padding, e) =
        rw
          (
            (decrypt_iff key (make_nonce iv seq) header body
                  (content ++ (ctype ∷ replicate padding 0))).1
                e,
            ◌>>=◌,
          )
          (pop_type-padded content ctype padding h)
