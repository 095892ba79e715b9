-- ===== src/Sha256/Hasher.antt =====
-- The hasher of src/crypto/sha256.rs, and HMAC on it.
use Prim.Native.Nat.{bit_xor}
use veil_os.Sha256.Compress.{initial, process}
use veil_os.Base.{
  ℕ, zero, suc, ◌+◌, ◌-◌, ◌*◌, ◌/◌, ◌%◌, ◌^◌, min, List, [], ◌∷◌, ◌++◌, map, ltb, leb, ◌==◌,
  if◌then◌else◌, replicate, length, take, drop,
}

pub record Hasher : Type 0 where
  pub state : List ℕ
  pub buf : List ℕ
  pub buflen : ℕ
  pub total : ℕ

unfoldable pub new : Hasher
new = record { state = initial; buf = replicate 64 0; buflen = 0; total = 0 }

-- `buf[at..at + n].copy_from_slice(bytes)`, for n bytes.
unfoldable pub overwrite : List ℕ → ℕ → List ℕ → List ℕ
overwrite buf at bytes = take at buf ++ (bytes ++ drop (at + length bytes) buf)

-- The part of `feed` on a buffer that has bytes: as many as it lacks go in, and a full one is
-- processed.
unfoldable pub fill : Hasher → List ℕ → Hasher × List ℕ
fill h input =
    let n = min (64 - h.buflen) (length input) in
    let buf = overwrite h.buf h.buflen (take n input) in
    if ltb 0 h.buflen
    then (if h.buflen + n == 64
        then (record h { state = process h.state buf; buf = buf; buflen = 0 }, drop n input)
        else (record h { buf = buf; buflen = h.buflen + n }, drop n input))
    else (h, input)

-- `while data.len() >= 64`.
unfoldable pub drain : ℕ → Hasher → List ℕ → Hasher × List ℕ
drain zero h input = (h, input)
drain (suc fuel) h input =
    let more = drain fuel (record h { state = process h.state (take 64 input) }) (drop 64 input) in
    if leb 64 (length input) then more else (h, input)

unfoldable pub drain_all : Hasher × List ℕ → Hasher × List ℕ
drain_all (h, input) = drain (length input) h input

-- What is left goes to the start of the buffer.
unfoldable pub keep : Hasher × List ℕ → Hasher
keep (h, input) =
    if length input == 0
    then h
    else record h { buf = overwrite h.buf 0 input; buflen = length input }

unfoldable pub feed : Hasher → List ℕ → Hasher
feed h input = keep (drain_all (fill h input))

unfoldable pub update : Hasher → List ℕ → Hasher
update h input = feed (record h { total = (h.total + length input) % 2 ^ 64 }) input

-- The last `n` bytes of a number, the highest first: `to_be_bytes`.
unfoldable pub to_be_bytes : ℕ → ℕ → List ℕ
to_be_bytes zero a = []
to_be_bytes (suc n) a = to_be_bytes n (a / 256) ++ (a % 256 ∷ [])

unfoldable pub zeros_for : ℕ → ℕ
zeros_for total = let rem = (total % 64 + 1) % 64 in if leb rem 56 then 56 - rem else 56 + 64 - rem

-- `pad[..padlen]`: 0x80, the zeros, and the number of bits.
unfoldable pub padding : ℕ → List ℕ
padding total = 0x80 ∷ (replicate (zeros_for total) 0 ++ to_be_bytes 8 (total * 8 % 2 ^ 64))

unfoldable pub serialize : List ℕ → List ℕ
serialize [] = []
serialize (w ∷ ws) = to_be_bytes 4 w ++ serialize ws

unfoldable pub finalize : Hasher → List ℕ
finalize h = serialize (feed h (padding h.total)).state

unfoldable pub sha256 : List ℕ → List ℕ
sha256 input = finalize (update new input)

-- The key in a block: its hash if it is longer.
unfoldable pub key_block : List ℕ → List ℕ
key_block key =
    let hashed = sha256 key in
    if ltb 64 (length key)
    then overwrite (replicate 64 0) 0 hashed
    else overwrite (replicate 64 0) 0 key

unfoldable pub hmac_sha256 : List ℕ → List ℕ → List ℕ
hmac_sha256 key input =
    let k = key_block key in
    let ipad = map (λ b. bit_xor 0x36 b) k in
    let opad = map (λ b. bit_xor 0x5c b) k in
    finalize (update (update new opad) (finalize (update (update new ipad) input)))
