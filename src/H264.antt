-- ===== src/H264.antt =====
-- The bits of a video stream, and its escaped bytes (src/h264/bits.rs). A position is a number of
-- bits that no run takes to 2 ^ 64; a decoded number is a 32-bit word.
mod ExpGolomb
mod Escape
mod Trailing
mod Tests
use Prim.Native.Nat.{bit_or}
use veil_os.Base.{
  ℕ, zero, suc, ◌+◌, ◌-◌, ◌*◌, ◌/◌, ◌%◌, ◌^◌, ◌≤◌, ◌<◌, min, max, ◌≡◌, refl, sym, ap, ◌∙◌, ◌≢◌, ◌↔◌,
  ◌⊎◌, inl, inr, Bool, true, false, not, ◌&&◌, ◌||◌, List, [], ◌∷◌, ◌++◌, map, Option, none, some,
  arith, ltb, leb, ◌==◌, if◌then◌else◌, Bool-cases, lt→ltb, some_inj, replicate, get_elem?-lt,
  get_elem?-append, get_elem?-last, get_elem?-append_length, get_elem?-append_cases, length-take,
  length-drop, length-map, length-replicate, take-append-drop, ==_iff, Option-cases, length,
  length-append, length-set, get_elem?, set, get_or, take, drop,
}

pub record BitReader : Type 0 where
  pub rbsp : List ℕ
  pub pos : ℕ

unfoldable pub new : List ℕ → BitReader
new rbsp = record { rbsp = rbsp; pos = 0 }

-- `(byte >> (7 - (at & 7))) & 1`, of a byte past the end as well: a zero.
unfoldable pub bit_at : List ℕ → ℕ → ℕ
bit_at rbsp at = get_or rbsp (at / 8) 0 / 2 ^ (7 - at % 8) % 2

unfoldable pub bit : BitReader → ℕ × BitReader
bit r = (bit_at r.rbsp r.pos, record r { pos = r.pos + 1 })

unfoldable pub bits_loop : ℕ → ℕ → BitReader → ℕ × BitReader
bits_loop zero v r = (v, r)
bits_loop (suc n) v r = let (b, r') = bit r in bits_loop n (bit_or (v * 2 % 2 ^ 32) b) r'

unfoldable pub bits : ℕ → BitReader → ℕ × BitReader
bits n r = bits_loop n 0 r

abbrev pub total : BitReader → ℕ
total r = length r.rbsp * 8

-- The zeros before the first one, or before the end of the data; `none` for more than 31. The test
-- on `run` ends the loop before the fuel, 32 rounds, does.
unfoldable pub zeros_loop : ℕ → ℕ → BitReader → Option ℕ × BitReader
zeros_loop zero run r = (none, r)
zeros_loop (suc fuel) run r =
    let (b, r') = bit r in
    let more = zeros_loop fuel (run + 1) r' in
    if ltb r.pos (total r)
    then (if b == 0 then (if ltb 31 (run + 1) then (none, r') else more) else (some run, r'))
    else (some run, r)

unfoldable pub with_info : ℕ → BitReader → ℕ × BitReader
with_info run r =
    let (info, r') = bits run r in if run == 0 then (0, r) else ((2 ^ run - 1 + info) % 2 ^ 32, r')

unfoldable pub decode : Option ℕ × BitReader → ℕ × BitReader
decode (none, r) = (0, r)
decode (some run, r) = with_info run r

unfoldable pub ue : BitReader → ℕ × BitReader
ue r = decode (zeros_loop 32 0 r)

-- The word of the signed number: `sign * ((k + 1) / 2) as i32`.
unfoldable pub signed : ℕ → ℕ
signed k = let half = (k + 1) % 2 ^ 32 / 2 in if k % 2 == 0 then (2 ^ 32 - half) % 2 ^ 32 else half

unfoldable pub se : BitReader → ℕ × BitReader
se r = let (k, r') = ue r in (signed k, r')

unfoldable pub te : ℕ → BitReader → ℕ × BitReader
te range r = let (b, r') = bit r in if range == 1 then (1 - b, r') else ue r

-- The last bit set below a position, or 0.
unfoldable pub last_set : List ℕ → ℕ → ℕ
last_set rbsp zero = 0
last_set rbsp (suc last) =
    let before = last_set rbsp last in if bit_at rbsp last == 1 then last else before

unfoldable pub more_rbsp_data : BitReader → Bool
more_rbsp_data r = if leb (total r) r.pos then false else ltb r.pos (last_set r.rbsp (total r))

unfoldable pub byte_aligned : BitReader → Bool
byte_aligned r = r.pos % 8 == 0

-- `i + 1 < nal.len() && nal[i + 1] <= 0x03`.
unfoldable pub small_next : List ℕ → Bool
small_next [] = false
small_next (next ∷ rest) = leb next 0x03

-- What is left of the bytes, after `run` zeros.
unfoldable pub unescape_loop : ℕ → List ℕ → List ℕ
unescape_loop run [] = []
unescape_loop run (b ∷ rest) =
    let skipped = unescape_loop 0 rest in
    let after_zero = unescape_loop ((run + 1) % 2 ^ 32) rest in
    if leb 2 run && (b == 0x03) && small_next rest
    then skipped
    else b ∷ (if b == 0 then after_zero else skipped)

unfoldable pub unescape : List ℕ → List ℕ
unescape nal = unescape_loop 0 nal
