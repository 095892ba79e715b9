-- ===== src/WebSocket/Tests.antt =====
-- WebSocket frames at concrete bytes.
use veil_os.WebSocket.Frame.{
  Opcode, Sender, code, encode, encode_length, apply_mask, try_parse_frame, parse_sized,
  parse_length, parse_mask, parse_rest, parse_payload, unmask, opcode_from,
}
use veil_os.Base.Word.{add64}
use veil_os.Sha256.Hasher.{to_be_bytes}
use veil_os.WebSocket.RoundTrip.{final, try_parse_frame-encode}
use veil_os.WebSocket.Lengths.{IsOpcode}
use veil_os.WebSocket.Buffer.{try_parse_frame-none}
use veil_os.WebSocket.Session.{WebSocket, Received, recv}
use veil_os.WebSocket.Delivery.{Delivers, IsShort, frames, recv-Delivers}
use veil_os.Base.{
  concat, ℕ, ◌-◌, ◌^◌, ◌≡◌, refl, ◌≢◌, inl, true, false, List, [], ◌∷◌, ◌++◌, none, some, arith,
  some_inj,
}

abbrev client : Sender
client = record { mask_seed = 5; masked = true }

abbrev server : Sender
server = record { mask_seed = 7; masked = false }

-- The unmasked text frame of RFC 6455, section 5.7: "Hello".
hello :
    (encode server Opcode.text (0x48 ∷ 0x65 ∷ 0x6c ∷ 0x6c ∷ 0x6f ∷ [])).1
    ≡ 0x81 ∷ 0x05 ∷ 0x48 ∷ 0x65 ∷ 0x6c ∷ 0x6c ∷ 0x6f ∷ []
unfolding encode encode_length code
hello = refl

-- The masked one, its key 37 fa 21 3d.
masked_hello :
    try_parse_frame
      (0x81 ∷ 0x85 ∷ 0x37 ∷ 0xfa ∷ 0x21 ∷ 0x3d ∷ 0x7f ∷ 0x9f ∷ 0x4d ∷ 0x51 ∷ 0x58 ∷ [])
    ≡ some (some (final Opcode.text (0x48 ∷ 0x65 ∷ 0x6c ∷ 0x6c ∷ 0x6f ∷ []), []))
unfolding try_parse_frame parse_sized parse_length parse_mask parse_rest parse_payload unmask
    opcode_from apply_mask add64
masked_hello = refl

try_parse_frame-encode_example :
    try_parse_frame ((encode client Opcode.text (1 ∷ 2 ∷ 3 ∷ [])).1 ++ (9 ∷ []))
    ≡ some (some (final Opcode.text (1 ∷ 2 ∷ 3 ∷ []), 9 ∷ []))
unfolding IsOpcode
try_parse_frame-encode_example =
    try_parse_frame-encode Opcode.text (1 ∷ 2 ∷ 3 ∷ []) (9 ∷ []) tt (omega arith) client

abbrev short_frame : List ℕ
short_frame = 0x81 ∷ 1 ∷ 7 ∷ []

short_frame_ready : try_parse_frame short_frame ≢ some none
unfolding try_parse_frame parse_sized parse_length parse_mask parse_rest parse_payload add64
short_frame_ready e = absurd (let impossible = some_inj e in cc)

try_parse_frame-none_example :
    try_parse_frame (0x82 ∷ 127 ∷ (to_be_bytes 8 (2 ^ 64 - 1) ++ (1 ∷ []))) ≡ none
try_parse_frame-none_example =
    try_parse_frame-none 0x82 (2 ^ 64 - 1) (1 ∷ []) (omega arith) (omega arith)

abbrev connection : WebSocket
connection = record { sender = client; rxbuf = []; is_open = true; sent = [] }

-- A ping, a text, and the start of something else, in three parts.
abbrev arriving : List (List ℕ)
arriving = (0x89 ∷ []) ∷ (1 ∷ 1 ∷ 0x81 ∷ []) ∷ (2 ∷ 2 ∷ 3 ∷ 0x82 ∷ []) ∷ []

arriving_bytes :
    connection.rxbuf ++ concat arriving
    ≡ frames server ((1 ∷ []) ∷ []) Opcode.text (2 ∷ 3 ∷ []) ++ (0x82 ∷ [])
unfolding frames encode encode_length code
arriving_bytes = refl

recv-Delivers_example :
    (r : Received) × (recv 5 connection arriving ≡ some r)
    × Delivers connection ((1 ∷ []) ∷ []) Opcode.text (2 ∷ 3 ∷ []) (0x82 ∷ []) r
unfolding IsShort
recv-Delivers_example =
    recv-Delivers Opcode.text (2 ∷ 3 ∷ []) (0x82 ∷ []) server ((1 ∷ []) ∷ []) connection arriving 5
      (inl refl) (omega arith) (omega arith, tt) arriving_bytes (omega arith)
