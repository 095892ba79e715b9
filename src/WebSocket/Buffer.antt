-- ===== src/WebSocket/Buffer.antt =====
-- More bytes behind a buffer do not change the frame at its front (src/websocket.rs).
use veil_os.Base.Word.{add64}
use veil_os.Sha256.Hasher.{to_be_bytes}
use veil_os.Rsa.Bytes.{be_val}
use veil_os.Base.Slices.{drop-within, slice-within}
use veil_os.WebSocket.Frame.{
  Opcode, opcode_from, Frame, parse_length, parse_mask, parse_payload, parse_rest, parse_sized,
  try_parse_frame,
}
use veil_os.Base.{
  ℕ, suc, ◌+◌, ◌-◌, ◌/◌, ◌%◌, ◌^◌, ◌≤◌, ◌<◌, ◌≡◌, refl, ap, ◌∙◌, ◌≢◌, inl, inr, Bool, true, false,
  List, [], ◌∷◌, ◌++◌, Option, none, some, arith, ltb, ◌==◌, Bool-cases, lt→ltb, length,
  length-append,
}

-- A result with more bytes behind what it leaves.
unfoldable pub extend : List ℕ → Option (Option (Frame × List ℕ)) → Option (Option (Frame × List ℕ))
extend more none = none
extend more (some none) = some none
extend more (some (some (frame, rest))) = some (some (frame, rest ++ more))

module _ (b more : List ℕ) where
  -- A test that the buffer is long enough stays so.
  still : (n : ℕ) → ltb (length b) n ≡ false → ltb (length (b ++ more)) n ≡ false
  still n e = ground (arith, length-append b more)

  parse_payload-extend :
      (fin : Bool) (op : Opcode) (mask : Option (List ℕ)) (hdr len : ℕ)
      → parse_payload b fin op mask hdr len ≢ some none
      → parse_payload (b ++ more) fin op mask hdr len
        ≡ extend more (parse_payload b fin op mask hdr len)
  unfolding parse_payload extend
  parse_payload-extend fin op mask hdr len settled =
      let end = add64 hdr len in
      elim (Bool-cases (ltb (length b) end)) [
        | inl short ↦ absurd (settled (rw short refl))
        | inr enough ↦ elim (Bool-cases (ltb end hdr)) [
          | inl back ↦ rw (enough, still end enough, back) refl
          | inr ordered ↦
              let within : end ≤ length b = ground arith in
              let forth : hdr ≤ end = ground arith in
              rw
                (
                  enough,
                  still end enough,
                  ordered,
                  slice-within hdr (end - hdr) b more (omega (arith, within, forth)),
                  drop-within end b more within,
                )
                refl
        ]
      ]

  parse_mask-extend :
      (masked : Bool) (hdr : ℕ)
      → parse_mask b masked hdr ≢ none
      → parse_mask (b ++ more) masked hdr ≡ parse_mask b masked hdr
  unfolding parse_mask
  parse_mask-extend false hdr found = refl
  parse_mask-extend true hdr found = elim (Bool-cases (ltb (length b) (hdr + 4))) [
    | inl short ↦ absurd (found (rw short refl))
    | inr enough ↦
        let within : hdr + 4 ≤ length b = ground arith in
        rw (enough, still (hdr + 4) enough, slice-within hdr 4 b more within) refl
  ]

  parse_length-extend :
      (short : ℕ)
      → parse_length b short ≢ none
      → parse_length (b ++ more) short ≡ parse_length b short
  unfolding parse_length
  parse_length-extend short found = elim (Bool-cases (short == 126)) [
    | inl two ↦ elim (Bool-cases (ltb (length b) 4)) [
      | inl few ↦ absurd (found (rw (two, few) refl))
      | inr enough ↦
          let within : 2 + 2 ≤ length b = ground arith in
          rw (two, enough, still 4 enough, slice-within 2 2 b more within) refl
    ]
    | inr other ↦ elim (Bool-cases (short == 127)) [
      | inl eight ↦ elim (Bool-cases (ltb (length b) 10)) [
        | inl few ↦ absurd (found (rw (other, eight, few) refl))
        | inr enough ↦
            let within : 2 + 8 ≤ length b = ground arith in
            rw (other, eight, enough, still 10 enough, slice-within 2 8 b more within) refl
      ]
      | inr plain ↦ rw (other, plain) refl
    ]
  ]

  parse_rest-extend :
      (fin : Bool) (op : Opcode) (len : ℕ) (mask : Option (Option (List ℕ) × ℕ))
      → parse_rest b fin op len mask ≢ some none
      → parse_rest (b ++ more) fin op len mask ≡ extend more (parse_rest b fin op len mask)
  unfolding parse_rest
  parse_rest-extend fin op len none settled = absurd (settled refl)
  parse_rest-extend fin op len (some (mask, hdr)) settled =
      parse_payload-extend fin op mask hdr len settled

  parse_sized-extend :
      (fin : Bool) (op : Opcode) (masked : Bool) (size : Option (ℕ × ℕ))
      → parse_sized b fin op masked size ≢ some none
      → parse_sized (b ++ more) fin op masked size ≡ extend more (parse_sized b fin op masked size)
  unfolding parse_sized parse_rest
  parse_sized-extend fin op masked none settled = absurd (settled refl)
  parse_sized-extend fin op masked (some (len, hdr)) settled =
      ap (parse_rest (b ++ more) fin op len)
        (parse_mask-extend masked hdr (λ e. settled (ap (parse_rest b fin op len) e)))
      ∙ parse_rest-extend fin op len (parse_mask b masked hdr) settled

pub try_parse_frame-extend :
    (b more : List ℕ)
    → try_parse_frame b ≢ some none
    → try_parse_frame (b ++ more) ≡ extend more (try_parse_frame b)
unfolding try_parse_frame parse_sized
try_parse_frame-extend [] more settled = absurd (settled refl)
try_parse_frame-extend (b0 ∷ []) more settled = absurd (settled refl)
try_parse_frame-extend (b0 ∷ b1 ∷ bs) more settled =
    let b = b0 ∷ b1 ∷ bs in
    let fin = b0 / 2 ^ 7 % 2 == 1 in
    let masked = b1 / 2 ^ 7 % 2 == 1 in
    let sized = parse_sized b fin (opcode_from b0) masked in
    ap (parse_sized (b ++ more) fin (opcode_from b0) masked)
      (parse_length-extend b more (b1 % 2 ^ 7) (λ e. settled (ap sized e)))
    ∙ parse_sized-extend b more fin (opcode_from b0) masked (parse_length b (b1 % 2 ^ 7)) settled

-- A frame with no mask and a length in its eight-byte form that is one of the last ten below 2^64
-- makes the parse panic, whatever its first byte and whatever is behind: the end of the payload
-- wraps to a place inside the header.
pub try_parse_frame-none :
    (b0 len : ℕ) (tail : List ℕ)
    → 2 ^ 64 - 10 ≤ len
    → len < 2 ^ 64
    → try_parse_frame (b0 ∷ 127 ∷ (to_be_bytes 8 len ++ tail)) ≡ none
unfolding try_parse_frame parse_sized parse_length parse_rest parse_mask parse_payload add64
    to_be_bytes be_val
try_parse_frame-none b0 len tail h k =
    let enough : ltb (suc (suc (suc (suc (suc (suc (suc (suc (suc (suc (length tail))))))))))) 10
        ≡ false =
      ground arith in
    let value : be_val (to_be_bytes 8 len) ≡ len = omega (arith, k) in
    let wraps : (10 + len) % 2 ^ 64 < 10 = omega (arith, h, k) in
    let there : ltb (suc (suc (suc (suc (suc (suc (suc (suc (suc (suc (length tail)))))))))))
          ((10 + len) % 2 ^ 64)
        ≡ false =
      ground (arith, wraps) in
    let back : ltb ((10 + len) % 2 ^ 64) 10 ≡ true = lt→ltb ((10 + len) % 2 ^ 64) 10 wraps in
    rw (enough, value, there, back) refl
