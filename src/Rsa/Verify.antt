-- ===== src/Rsa/Verify.antt =====
-- The modular power of src/rsa.rs, its reader of DER, and the check of a signature. `none` is a
-- panic; the second level of an option is the source's own.
use Prim.Native.Nat.{bit_or}
use veil_os.Sha256.Hasher.{sha256}
use veil_os.Rsa.Big.{Big, from_be, one, is_zero, trim_leading_zeros, to_be, rem, mulmod}
use veil_os.Base.{◌>>=◌}
use veil_os.Base.{
  ℕ, zero, suc, ◌+◌, ◌-◌, ◌*◌, ◌/◌, ◌%◌, ◌^◌, Bool, true, false, ◌&&◌, ◌||◌, List, [], ◌∷◌, ◌++◌,
  Option, none, some, ltb, ◌==◌, if◌then◌else◌, replicate, length, get_elem?, take, drop,
}

-- `if bits & 1 == 1 { result = result.mulmod(&b, &m); }`
unfoldable pub multiply_if : Bool → Big → Big → Big → Option Big
multiply_if bit result b m = if bit then mulmod result b m else some result

-- `for _ in 0..8`, the result before the power of the base.
unfoldable pub byte_loop : ℕ → ℕ → Big → Big → Big → Option (Big × Big)
byte_loop zero bits m result b = some (result, b)
byte_loop (suc rounds) bits m result b = multiply_if (bits % 2 == 1) result b m >>= λ new.
    mulmod b b m >>= λ square. byte_loop rounds (bits / 2) m new square

-- `for byte in exp.iter().rev()`.
unfoldable pub bytes_loop : List ℕ → Big → Big × Big → Option (Big × Big)
bytes_loop [] m (result, b) = some (result, b)
bytes_loop (x ∷ xs) m state = bytes_loop xs m state >>= λ after. byte_loop 8 x m after.0 after.1

unfoldable pub modexp : List ℕ → List ℕ → List ℕ → Option (List ℕ)
modexp base exp modulus =
    let m = from_be modulus in
    let power =
      rem (from_be base) m >>= λ b. bytes_loop exp m (one, b) >>= λ state. some (to_be state.0) in
    if is_zero m then some [] else power

-- A slice `b[start..end]` in range.
unfoldable pub slice : List ℕ → ℕ → ℕ → List ℕ
slice b start end = take (end - start) (drop start b)

-- `l = (l << 8) | byte`, of at most four bytes.
unfoldable pub long_length : ℕ → ℕ → List ℕ → ℕ → Option ℕ
long_length zero l b at = some l
long_length (suc n) l b at =
    get_elem? b at >>= λ byte. long_length n (bit_or (l * 2 ^ 8 % 2 ^ 64) byte) b (at + 1)

-- The length of a content, and of its header.
unfoldable pub length_at : List ℕ → ℕ → ℕ → Option (ℕ × ℕ)
length_at b off first =
    let n = first % 128 in
    let long = long_length n 0 b (off + 2) >>= λ l. some (l, 2 + n) in
    if ltb first 128 then some (first, 2) else (if (n == 0) || ltb 4 n then none else long)

unfoldable pub tlv_at : List ℕ → ℕ → Option (ℕ × (List ℕ × ℕ))
tlv_at b off = get_elem? b off >>= λ tag. get_elem? b (off + 1) >>= λ first.
    length_at b off first >>= λ sizes.
    let start = off + sizes.1 in
    let end = start + sizes.0 in
    if ltb (length b) end then none else some (tag, (slice b start end, end))

unfoldable pub tlv : List ℕ → ℕ → Option (ℕ × List ℕ)
tlv b off = tlv_at b off >>= λ found. some (found.0, found.1.0)

-- The modulus and the exponent in the content of the bit string, `key`.
unfoldable pub key_numbers : List ℕ → Option (List ℕ × List ℕ)
key_numbers key = tlv key 0 >>= λ outer. tlv_at outer.1 0 >>= λ n.
    tlv_at outer.1 n.1.1 >>= λ e. some (trim_leading_zeros n.1.0, trim_leading_zeros e.1.0)

-- `let key = &bits[1..]`: a panic if there is no byte.
unfoldable pub key_bytes : List ℕ → Option (Option (List ℕ × List ℕ))
key_bytes [] = none
key_bytes (unused ∷ key) = some (key_numbers key)

-- The bit string of a key in DER.
unfoldable pub bit_string : List ℕ → Option (List ℕ)
bit_string spki = tlv spki 0 >>= λ outer. tlv_at outer.1 0 >>= λ algorithm.
    tlv_at outer.1 algorithm.1.1 >>= λ found. if found.0 == 0x03 then some found.1.0 else none

unfoldable pub read_key : Option (List ℕ) → Option (Option (List ℕ × List ℕ))
read_key none = some none
read_key (some bits) = key_bytes bits

unfoldable pub rsa_pubkey : List ℕ → Option (Option (List ℕ × List ℕ))
rsa_pubkey spki = read_key (bit_string spki)

-- The DigestInfo of SHA-256.
unfoldable pub digest_info : List ℕ
digest_info =
    0x30 ∷ 0x31 ∷ 0x30 ∷ 0x0d ∷ 0x06 ∷ 0x09 ∷ 0x60 ∷ 0x86 ∷ 0x48 ∷ 0x01 ∷ 0x65 ∷ 0x03 ∷ 0x04 ∷ 0x02
    ∷ 0x01 ∷ 0x05 ∷ 0x00 ∷ 0x04 ∷ 0x20 ∷ []

unfoldable pub encoded : ℕ → List ℕ → List ℕ
encoded k digest =
    0x00
    ∷ 0x01
    ∷ (replicate (k - length digest_info - length digest - 3) 0xff
        ++ (0x00 ∷ (digest_info ++ digest)))

-- `mp.len() == em.len() && mp == em`.
unfoldable pub same_bytes : List ℕ → List ℕ → Bool
same_bytes [] [] = true
same_bytes [] (y ∷ ys) = false
same_bytes (x ∷ xs) [] = false
same_bytes (x ∷ xs) (y ∷ ys) = (x == y) && same_bytes xs ys

unfoldable pub compare_encoded : ℕ → List ℕ → List ℕ → Bool
compare_encoded k digest m =
    if ltb k (length digest_info + length digest + 11)
    then false
    else same_bytes (replicate (k - length m) 0 ++ m) (encoded k digest)

unfoldable pub verify_with : Option (List ℕ × List ℕ) → List ℕ → List ℕ → Option Bool
verify_with none msg sig = some false
verify_with (some (n, e)) msg sig =
    let compared = modexp (trim_leading_zeros sig) e n >>= λ m.
    some (compare_encoded (length n) (sha256 msg) m) in
    if (length sig == 0) || (length n == 0) then some false else compared

unfoldable pub verify_pkcs1_sha256 : List ℕ → List ℕ → List ℕ → Option Bool
verify_pkcs1_sha256 spki msg sig = rsa_pubkey spki >>= λ key. verify_with key msg sig
