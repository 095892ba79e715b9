-- ===== src/ChaCha20/Cipher.antt =====
-- The cipher of src/crypto/chacha20.rs.
use Prim.Native.Nat.{bit_xor}
use veil_os.ChaCha20.Words.{add32, rotate_left, le32, to_le_bytes}
use veil_os.Base.{
  ℕ, zero, suc, ◌+◌, ◌*◌, List, [], ◌∷◌, ◌++◌, ◌==◌, if◌then◌else◌, length, set, get_or, take, drop,
}

-- `s[a] = s[a].wrapping_add(s[b]); s[d] ^= s[a]; s[d] = s[d].rotate_left(n)`.
unfoldable pub mix : List ℕ → ℕ → ℕ → ℕ → ℕ → List ℕ
mix s a b d n =
    let s' = set s a (add32 (get_or s a 0) (get_or s b 0)) in
    set s' d (rotate_left (bit_xor (get_or s' d 0) (get_or s' a 0)) n)

unfoldable pub qr : List ℕ → ℕ → ℕ → ℕ → ℕ → List ℕ
qr s a b c d = mix (mix (mix (mix s a b d 16) c d b 12) a b d 8) c d b 7

-- `count` words of the bytes from the one at 4 * i on.
unfoldable pub le_words : ℕ → ℕ → List ℕ → List ℕ
le_words zero i bytes = []
le_words (suc count) i bytes = le32 (drop (i * 4) bytes) ∷ le_words count (i + 1) bytes

unfoldable pub initial_state : List ℕ → ℕ → List ℕ → List ℕ
initial_state key counter nonce =
    (0x61707865 ∷ 0x3320646e ∷ 0x79622d32 ∷ 0x6b206574 ∷ [])
    ++ (le_words 8 0 key ++ (counter ∷ le_words 3 0 nonce))

unfoldable pub column_round : List ℕ → List ℕ
column_round w = qr (qr (qr (qr w 0 4 8 12) 1 5 9 13) 2 6 10 14) 3 7 11 15

unfoldable pub diagonal_round : List ℕ → List ℕ
diagonal_round w = qr (qr (qr (qr w 0 5 10 15) 1 6 11 12) 2 7 8 13) 3 4 9 14

unfoldable pub rounds : ℕ → List ℕ → List ℕ
rounds zero w = w
rounds (suc n) w = rounds n (diagonal_round (column_round w))

-- The bytes of `count` sums, from word `i` on.
unfoldable pub serialize : ℕ → ℕ → List ℕ → List ℕ → List ℕ
serialize zero i w state = []
serialize (suc count) i w state =
    to_le_bytes 4 (add32 (get_or w i 0) (get_or state i 0)) ++ serialize count (i + 1) w state

unfoldable pub chacha20_block : List ℕ → ℕ → List ℕ → List ℕ
chacha20_block key counter nonce =
    let state = initial_state key counter nonce in serialize 16 0 (rounds 10 state) state

-- `data[i + j] ^ ks[j]`, for as many bytes as both have.
unfoldable pub xor_bytes : List ℕ → List ℕ → List ℕ
xor_bytes [] ks = []
xor_bytes (x ∷ xs) [] = []
xor_bytes (x ∷ xs) (k ∷ ks) = bit_xor x k ∷ xor_bytes xs ks

-- The loop over what is left of the bytes; each round takes 64 of them or all.
unfoldable pub xor_loop : ℕ → List ℕ → ℕ → List ℕ → List ℕ → List ℕ
xor_loop zero key counter nonce rest = []
xor_loop (suc fuel) key counter nonce rest =
    let later = xor_loop fuel key (add32 counter 1) nonce (drop 64 rest) in
    if length rest == 0
    then []
    else xor_bytes (take 64 rest) (chacha20_block key counter nonce) ++ later

unfoldable pub chacha20_xor : List ℕ → ℕ → List ℕ → List ℕ → List ℕ
chacha20_xor key counter0 nonce input = xor_loop (length input) key counter0 nonce input
