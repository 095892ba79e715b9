-- ===== src/WebSocket/Frame.antt =====
-- The frames of src/websocket.rs: `encode` and `try_parse_frame`. `none` is a panic.
use Prim.Native.Nat.{bit_or, bit_xor}
use veil_os.Base.Word.{add64}
use veil_os.Sha256.Hasher.{to_be_bytes}
use veil_os.Rsa.Bytes.{be_val}
use veil_os.Base.{
  ℕ, ◌+◌, ◌-◌, ◌*◌, ◌/◌, ◌%◌, ◌^◌, Bool, List, [], ◌∷◌, ◌++◌, Option, none, some, ltb, ◌==◌,
  if◌then◌else◌, length, get_or, take, drop,
}

pub data Opcode : Type 0 where
  continuation text binary close ping pong : Opcode
  other : ℕ → Opcode

-- `Opcode::from`, of the lowest four bits.
unfoldable pub opcode_from : ℕ → Opcode
opcode_from b =
    let o = b % 16 in
    if o == 0x0
    then continuation
    else if o == 0x1
    then text
    else if o == 0x2
    then binary
    else if o == 0x8
    then close
    else if o == 0x9
    then ping
    else if o == 0xa
    then pong
    else other o

unfoldable pub code : Opcode → ℕ
code continuation = 0x0
code text = 0x1
code binary = 0x2
code close = 0x8
code ping = 0x9
code pong = 0xa
code (other o) = o

-- The part of the `WebSocket` that frames are made from.
pub record Sender : Type 0 where
  pub mask_seed : ℕ
  pub masked : Bool

-- `mask_seed.wrapping_mul(1664525).wrapping_add(1013904223)`.
unfoldable pub next_seed : ℕ → ℕ
next_seed seed = (seed * 1664525 % 2 ^ 32 + 1013904223) % 2 ^ 32

-- The bytes from the place `i` on, each with the byte of the key for its place.
unfoldable pub apply_mask : List ℕ → ℕ → List ℕ → List ℕ
apply_mask key i [] = []
apply_mask key i (b ∷ bs) = bit_xor b (get_or key (i % 4) 0) ∷ apply_mask key (i + 1) bs

-- The byte of the length and the longer forms of it; `mb` is the bit of the mask.
unfoldable pub encode_length : ℕ → ℕ → List ℕ
encode_length mb len =
    if ltb len 126
    then bit_or mb (len % 256) ∷ []
    else (if ltb len 65536
        then bit_or mb 126 ∷ to_be_bytes 2 len
        else bit_or mb 127 ∷ to_be_bytes 8 len)

unfoldable pub encode : Sender → Opcode → List ℕ → Sender × List ℕ
encode s op payload =
    let len = encode_length (if s.masked then 0x80 else 0x00) (length payload) in
    let seed = next_seed s.mask_seed in
    let key = to_be_bytes 4 seed in
    if s.masked
    then (
      record s { mask_seed = seed },
      bit_or 0x80 (code op) ∷ (len ++ (key ++ apply_mask key 0 payload)),
    )
    else (s, bit_or 0x80 (code op) ∷ (len ++ payload))

pub record Frame : Type 0 where
  pub fin : Bool
  pub op : Opcode
  pub payload : List ℕ

-- The length of the payload and of the header until there, if the bytes are there.
unfoldable pub parse_length : List ℕ → ℕ → Option (ℕ × ℕ)
parse_length b short =
    if short == 126
    then (if ltb (length b) 4 then none else some (be_val (take 2 (drop 2 b)), 4))
    else (if short == 127
        then (if ltb (length b) 10 then none else some (be_val (take 8 (drop 2 b)), 10))
        else some (short, 2))

-- The key, if the frame has one, and the length of the header.
unfoldable pub parse_mask : List ℕ → Bool → ℕ → Option (Option (List ℕ) × ℕ)
parse_mask b masked hdr =
    if masked
    then (if ltb (length b) (hdr + 4) then none else some (some (take 4 (drop hdr b)), hdr + 4))
    else some (none, hdr)

unfoldable pub unmask : Option (List ℕ) → List ℕ → List ℕ
unmask none payload = payload
unmask (some key) payload = apply_mask key 0 payload

-- `b[hdr..hdr + len]`, where the sum wraps: a panic if it ends before it starts.
unfoldable pub parse_payload :
    List ℕ → Bool → Opcode → Option (List ℕ) → ℕ → ℕ → Option (Option (Frame × List ℕ))
parse_payload b fin op mask hdr len =
    let end = add64 hdr len in
    let payload = unmask mask (take (end - hdr) (drop hdr b)) in
    if ltb (length b) end
    then some none
    else (if ltb end hdr
        then none
        else some (some (record { fin = fin; op = op; payload = payload }, drop end b)))

unfoldable pub parse_rest :
    List ℕ → Bool → Opcode → ℕ → Option (Option (List ℕ) × ℕ) → Option (Option (Frame × List ℕ))
parse_rest b fin op len none = some none
parse_rest b fin op len (some (mask, hdr)) = parse_payload b fin op mask hdr len

unfoldable pub parse_sized :
    List ℕ → Bool → Opcode → Bool → Option (ℕ × ℕ) → Option (Option (Frame × List ℕ))
parse_sized b fin op masked none = some none
parse_sized b fin op masked (some (len, hdr)) = parse_rest b fin op len (parse_mask b masked hdr)

-- The frame at the front of the buffer and what is behind it, once it is all there.
unfoldable pub try_parse_frame : List ℕ → Option (Option (Frame × List ℕ))
try_parse_frame [] = some none
try_parse_frame (b0 ∷ []) = some none
try_parse_frame (b0 ∷ b1 ∷ bs) =
    let b = b0 ∷ b1 ∷ bs in
    parse_sized b (b0 / 2 ^ 7 % 2 == 1) (opcode_from b0) (b1 / 2 ^ 7 % 2 == 1)
      (parse_length b (b1 % 2 ^ 7))
