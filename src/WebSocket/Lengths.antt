-- ===== src/WebSocket/Lengths.antt =====
-- The first bytes of a frame of src/websocket.rs: its kind, and its length in one of three forms.
use Prim.Native.Nat.{bit_or}
use veil_os.Sha256.Hasher.{to_be_bytes}
use veil_os.Rsa.Bytes.{be_val, or_below}
use veil_os.WebSocket.Frame.{
  Opcode, continuation, text, binary, close, ping, pong, other, opcode_from, code, encode_length,
  parse_length,
}
use veil_os.Base.{
  ℕ, suc, ◌+◌, ◌/◌, ◌%◌, ◌^◌, ◌≤◌, ◌<◌, ◌≡◌, refl, ap, ◌∙◌, ◌⊎◌, inl, inr, Bool, true, false, List,
  [], ◌∷◌, ◌++◌, some, arith, ltb, ◌==◌, if◌then◌else◌, Bool-cases, ltb→lt, length,
}

-- The codes that `other` stands for.
unfoldable pub IsOpcode : Opcode → Type 0
IsOpcode (other o) = ((2 < o) × (o < 8)) ⊎ ((10 < o) × (o < 16))
IsOpcode _ = Unit

abbrev pub mask_bit : Bool → ℕ
mask_bit m = if m then 0x80 else 0x00

high_or : (x : ℕ) → x < 128 → bit_or 0x80 x ≡ 128 + x
high_or x h = or_below 7 x 1 h

plain_or : (x : ℕ) → x < 128 → bit_or 0x00 x ≡ x
plain_or x h = or_below 7 x 0 h ∙ omega arith

-- The bit of the mask and the seven bits beside it.
length_byte :
    (m : Bool) (x : ℕ)
    → x < 128
    → ((bit_or (mask_bit m) x / 2 ^ 7 % 2 == 1) ≡ m) × (bit_or (mask_bit m) x % 2 ^ 7 ≡ x)
length_byte true x h = rw (high_or x h) (ground arith, omega arith)
length_byte false x h = rw (plain_or x h) (ground arith, omega arith)

other_code :
    (o : ℕ) → (((2 < o) × (o < 8)) ⊎ ((10 < o) × (o < 16))) → opcode_from (128 + o) ≡ other o
unfolding opcode_from
other_code o h =
    let low : (128 + o) % 16 ≡ o = omega arith in
    let t0 : (o == 0x0) ≡ false = ground arith in
    let t1 : (o == 0x1) ≡ false = ground arith in
    let t2 : (o == 0x2) ≡ false = ground arith in
    let t8 : (o == 0x8) ≡ false = ground arith in
    let t9 : (o == 0x9) ≡ false = ground arith in
    let ta : (o == 0xa) ≡ false = ground arith in rw (low, t0, t1, t2, t8, t9, ta) refl

pub opcode_byte :
    (op : Opcode)
    → IsOpcode op
    → (bit_or 0x80 (code op) / 2 ^ 7 % 2 == 1 ≡ true) × (opcode_from (bit_or 0x80 (code op)) ≡ op)
unfolding IsOpcode code opcode_from
opcode_byte continuation h = (refl, refl)
opcode_byte text h = (refl, refl)
opcode_byte binary h = (refl, refl)
opcode_byte close h = (refl, refl)
opcode_byte ping h = (refl, refl)
opcode_byte pong h = (refl, refl)
opcode_byte (other o) h = rw (high_or o (omega arith)) (ground arith, other_code o h)

-- The bytes of the length, and how they are read again whatever is around them.
pub record LengthBytes (m : Bool) (len : ℕ) : Type 0 where
  pub first : ℕ
  pub more : List ℕ
  pub written : encode_length (mask_bit m) len ≡ first ∷ more
  pub bit : (first / 2 ^ 7 % 2 == 1) ≡ m
  pub read :
      (b0 : ℕ) (tail : List ℕ)
      → parse_length (b0 ∷ first ∷ (more ++ tail)) (first % 2 ^ 7)
        ≡ some (len, length (b0 ∷ first ∷ more))
  pub few : length more ≤ 8

pub length_bytes : (m : Bool) (len : ℕ) → len < 2 ^ 64 → LengthBytes m len
unfolding encode_length parse_length to_be_bytes be_val
length_bytes m len h = elim (Bool-cases (ltb len 126)) [
  | inl short ↦
      let inside = ltb→lt len 126 short in
      let same : len % 256 ≡ len = omega (arith, inside) in
      let (bit, low) = length_byte m len (omega (arith, inside)) in
      let one : (len == 126) ≡ false = ground arith in
      let two : (len == 127) ≡ false = ground arith in
      record {
        first = bit_or (mask_bit m) len;
        more = [];
        written = rw (short, same) refl;
        bit = bit;
        read = λ b0 tail. rw (low, one, two) refl;
        few = omega arith;
      }
  | inr long ↦ elim (Bool-cases (ltb len 65536)) [
    | inl medium ↦
        let inside = ltb→lt len 65536 medium in
        let (bit, low) = length_byte m 126 (omega arith) in
        let value : be_val (to_be_bytes 2 len) ≡ len = omega (arith, inside) in
        record {
          first = bit_or (mask_bit m) 126;
          more = to_be_bytes 2 len;
          written = rw (long, medium) refl;
          bit = bit;
          read = λ b0 tail.
              let enough : ltb (suc (suc (suc (suc (length tail))))) 4 ≡ false = ground arith in
              rw (low, enough) (ap (λ n. some (n, 4)) value);
          few = omega arith;
        }
    | inr large ↦
        let (bit, low) = length_byte m 127 (omega arith) in
        let value : be_val (to_be_bytes 8 len) ≡ len = omega (arith, h) in
        record {
          first = bit_or (mask_bit m) 127;
          more = to_be_bytes 8 len;
          written = rw (long, large) refl;
          bit = bit;
          read = λ b0 tail.
              let enough : ltb
                    (suc (suc (suc (suc (suc (suc (suc (suc (suc (suc (length tail))))))))))) 10
                  ≡ false =
                ground arith in
              rw (low, enough) (ap (λ n. some (n, 10)) value);
          few = omega arith;
        }
  ]
]
