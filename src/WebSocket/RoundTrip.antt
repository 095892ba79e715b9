-- ===== src/WebSocket/RoundTrip.antt =====
-- What `encode` makes, `try_parse_frame` takes apart (src/websocket.rs).
use mathlib.Core.List.{append_assoc}
use Prim.Native.Nat.{bit_or}
use veil_os.Base.Word.{add64_lem}
use veil_os.Base.Xor.{bit_xor_twice}
use veil_os.Sha256.Hasher.{to_be_bytes}
use veil_os.Rsa.Bytes.{four_bytes}
use veil_os.Base.Slices.{drop-append, take-front}
use veil_os.WebSocket.Lengths.{IsOpcode, opcode_byte, LengthBytes, length_bytes}
use veil_os.WebSocket.Frame.{
  Opcode, code, Sender, next_seed, apply_mask, encode_length, encode, Frame, parse_mask, unmask,
  parse_payload, parse_rest, parse_sized, try_parse_frame,
}
use veil_os.Base.{
  ℕ, suc, ◌+◌, ◌-◌, ◌%◌, ◌^◌, ◌<◌, ◌≡◌, refl, sym, ap, ◌∙◌, inl, inr, Bool, true, false, List, [],
  ◌∷◌, ◌++◌, Option, none, some, arith, ltb, Bool-cases, length, length-append, get_or, take, drop,
}

apply_mask_twice :
    (key : List ℕ) (i : ℕ) (payload : List ℕ)
    → apply_mask key i (apply_mask key i payload) ≡ payload
unfolding apply_mask
apply_mask_twice key i [] = refl
apply_mask_twice key i (b ∷ bs) =
    λ j. bit_xor_twice b (get_or key (i % 4) 0) j ∷ apply_mask_twice key (i + 1) bs j

length-apply_mask :
    (key : List ℕ) (i : ℕ) (payload : List ℕ) → length (apply_mask key i payload) ≡ length payload
unfolding apply_mask
length-apply_mask key i [] = refl
length-apply_mask key i (b ∷ bs) = ap suc (length-apply_mask key (i + 1) bs)

-- A payload behind a header, all there.
payload_lem :
    (pre body rest : List ℕ) (op : Opcode) (mask : Option (List ℕ)) (hdr : ℕ)
    → length pre ≡ hdr
    → hdr + length body < 2 ^ 64
    → parse_payload (pre ++ (body ++ rest)) true op mask hdr (length body)
      ≡ some (some (record { fin = true; op = op; payload = unmask mask body }, rest))
unfolding parse_payload
payload_lem pre body rest op mask hdr e room =
    let sum = add64_lem hdr (length body) room in
    let there : ltb (length (pre ++ (body ++ rest))) (hdr + length body) ≡ false =
      ground (arith, length-append pre (body ++ rest), length-append body rest) in
    let ordered : ltb (hdr + length body) hdr ≡ false = ground arith in
    let size : hdr + length body - hdr ≡ length body = omega arith in
    let taken : take (length body) (drop hdr (pre ++ (body ++ rest))) ≡ body =
      ap (take (length body)) (drop-append hdr pre (body ++ rest) e)
      ∙ take-front (length body) body rest refl in
    let left : drop (hdr + length body) (pre ++ (body ++ rest)) ≡ rest =
      ap (drop (hdr + length body)) (sym (append_assoc pre body rest))
      ∙ drop-append (hdr + length body) (pre ++ body) rest
          (omega (arith, length-append pre body)) in
    rw (sum, there, ordered, size, taken, left) refl

-- What the first bytes of a frame say, whatever is behind them.
header_lem :
    (m : Bool) (op : Opcode) (len : ℕ) (l : LengthBytes m len) (tail : List ℕ)
    → IsOpcode op
    → try_parse_frame (bit_or 0x80 (code op) ∷ l.first ∷ (l.more ++ tail))
      ≡ parse_rest (bit_or 0x80 (code op) ∷ l.first ∷ (l.more ++ tail)) true op len (
          parse_mask
            (bit_or 0x80 (code op) ∷ l.first ∷ (l.more ++ tail))
            m
            (length (bit_or 0x80 (code op) ∷ l.first ∷ l.more)))
unfolding try_parse_frame parse_sized
header_lem m op len l tail h =
    let (fin, which) = opcode_byte op h in
    rw (fin, which, l.bit, l.read (bit_or 0x80 (code op)) tail) refl

-- A frame that ends its message.
abbrev pub final : Opcode → List ℕ → Frame
final op payload = record { fin = true; op = op; payload = payload }

module _ (op : Opcode) (payload rest : List ℕ) (h : IsOpcode op)
    (room : length payload < 2 ^ 63) where
  plain_frame :
      try_parse_frame
        (bit_or 0x80 (code op) ∷ (encode_length 0x00 (length payload) ++ (payload ++ rest)))
      ≡ some (some (final op payload, rest))
  unfolding parse_rest parse_mask unmask
  plain_frame =
      let l = length_bytes false (length payload) (omega arith) in
      let pre = bit_or 0x80 (code op) ∷ l.first ∷ l.more in
      ap (λ w. try_parse_frame (bit_or 0x80 (code op) ∷ (w ++ (payload ++ rest)))) l.written
      ∙ header_lem false op (length payload) l (payload ++ rest) h
      ∙ payload_lem pre payload rest op none (length pre) refl (omega (arith, l.few))

  masked_frame :
      (key : List ℕ)
      → length key ≡ 4
      → try_parse_frame (
          bit_or 0x80 (code op)
          ∷ (encode_length 0x80 (length payload) ++ (key ++ (apply_mask key 0 payload ++ rest))))
        ≡ some (some (final op payload, rest))
  unfolding parse_rest parse_mask unmask
  masked_frame key e =
      let l = length_bytes true (length payload) (omega arith) in
      let pre = bit_or 0x80 (code op) ∷ l.first ∷ l.more in
      let body = apply_mask key 0 payload in
      let b = pre ++ (key ++ (body ++ rest)) in
      let size = length-apply_mask key 0 payload in
      let there : ltb (length b) (length pre + 4) ≡ false =
        ground
          (arith, length-append pre (key ++ (body ++ rest)), length-append key (body ++ rest)) in
      let taken : take 4 (drop (length pre) b) ≡ key =
        ap (take 4) (drop-append (length pre) pre (key ++ (body ++ rest)) refl)
        ∙ take-front 4 key (body ++ rest) e in
      let made : List ℕ → Option (Option (Frame × List ℕ)) =
        λ p. some (some (record { fin = true; op = op; payload = p }, rest)) in
      ap (λ w. try_parse_frame (bit_or 0x80 (code op) ∷ (w ++ (key ++ (body ++ rest))))) l.written
      ∙ header_lem true op (length payload) l (key ++ (body ++ rest)) h
      ∙ rw (there, taken)
          (ap (λ w. parse_payload w true op (some key) (length pre + 4) (length payload))
              (sym (append_assoc pre key (body ++ rest)))
            ∙ ap
                (λ n.
                  parse_payload ((pre ++ key) ++ (body ++ rest)) true op (some key) (length pre + 4)
                    n)
                (sym size)
            ∙ payload_lem (pre ++ key) body rest op (some key) (length pre + 4)
                (length-append pre key ∙ ap (λ n. length pre + n) e) (omega (arith, l.few, size))
            ∙ ap made (apply_mask_twice key 0 payload))

  -- For an opcode of the protocol and a payload shorter than 2^63 bytes, the frame that encode
  -- makes, masked or not, with any bytes behind it, is parsed as a final frame of this opcode and
  -- this payload, and leaves just the bytes behind it.
  pub try_parse_frame-encode :
      (s : Sender)
      → try_parse_frame ((encode s op payload).1 ++ rest) ≡ some (some (final op payload, rest))
  unfolding encode
  try_parse_frame-encode s =
      let seed = next_seed s.mask_seed in
      let key = to_be_bytes 4 seed in
      let body = apply_mask key 0 payload in
      let plain = encode_length 0x00 (length payload) in
      let hidden = encode_length 0x80 (length payload) in
      let first = bit_or 0x80 (code op) in
      elim (Bool-cases s.masked) [
        | inl on ↦ rw on (
            ap (λ w. try_parse_frame (first ∷ w))
              (append_assoc hidden (key ++ body) rest
                ∙ ap (λ w. hidden ++ w) (append_assoc key body rest))
            ∙ masked_frame key (four_bytes seed))
        | inr off ↦
            rw off (
              ap (λ w. try_parse_frame (first ∷ w)) (append_assoc plain payload rest) ∙ plain_frame)
      ]
