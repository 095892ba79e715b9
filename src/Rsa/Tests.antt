-- ===== src/Rsa/Tests.antt =====
-- RSA at concrete keys and numbers.
use veil_os.ChaCha20.Blocks.{every_byte}
use veil_os.Sha256.Fips.{digest}
use veil_os.Rsa.Emsa.{emsa_encoded}
use veil_os.Rsa.Big.{trim_leading_zeros, put_limb, pop_zeros, normalize, add_limbs, add}
use veil_os.Rsa.Bytes.{be_val}
use veil_os.Rsa.Power.{IsPower, modexp-IsPower}
use veil_os.Rsa.Verify.{
  modexp, bit_string, rsa_pubkey, verify_pkcs1_sha256, read_key, key_bytes, key_numbers, tlv,
  tlv_at, slice, length_at, long_length,
}
use veil_os.Rsa.Der.{verify_pkcs1_sha256-accepts, verify_pkcs1_sha256-none}
use veil_os.Base.{
  ℕ, ◌%◌, ◌^◌, ◌<◌, ◌≡◌, refl, ◌↔◌, true, List, [], ◌∷◌, ◌++◌, none, some, arith, replicate, length,
}

-- 4^13 mod 497, of the boot's own test.
modexp-IsPower_example :
    (power : List ℕ) × (modexp (4 ∷ []) (13 ∷ []) (0x01 ∷ 0xf1 ∷ []) ≡ some power)
    × (1 < be_val (0x01 ∷ 0xf1 ∷ [])
        → IsPower power (be_val (4 ∷ []) ^ be_val (13 ∷ []) % be_val (0x01 ∷ 0xf1 ∷ [])))
modexp-IsPower_example =
    modexp-IsPower (4 ∷ []) (13 ∷ []) (0x01 ∷ 0xf1 ∷ []) (every_byte (4 ∷ []) refl)
      (every_byte (13 ∷ []) refl) (every_byte (0x01 ∷ 0xf1 ∷ []) refl) (omega arith)

abbrev modulus : List ℕ
modulus = replicate 62 255

abbrev key_der : List ℕ
key_der =
    0x30
    ∷ 77
    ∷ 0x30
    ∷ 2
    ∷ 5
    ∷ 0
    ∷ 0x03
    ∷ 71
    ∷ 0
    ∷ 0x30
    ∷ 68
    ∷ 0x02
    ∷ 63
    ∷ 0
    ∷ (modulus ++ (0x02 ∷ 1 ∷ 3 ∷ []))

key_reads : rsa_pubkey key_der ≡ some (some (modulus, 3 ∷ []))
unfolding rsa_pubkey read_key bit_string key_bytes key_numbers tlv tlv_at slice length_at
    trim_leading_zeros long_length
key_reads = refl

verify_pkcs1_sha256-accepts_example :
    (verify_pkcs1_sha256 key_der (1 ∷ []) (0 ∷ 2 ∷ []) ≡ some true) ↔ (
      be_val (0 ∷ 2 ∷ []) ^ be_val (3 ∷ []) % be_val modulus
      ≡ be_val (emsa_encoded (length modulus) (digest (1 ∷ []))))
verify_pkcs1_sha256-accepts_example =
    verify_pkcs1_sha256-accepts key_der (1 ∷ []) (0 ∷ 2 ∷ []) (every_byte key_der refl)
      (every_byte (0 ∷ 2 ∷ []) refl) modulus (3 ∷ []) key_reads (omega arith) (omega arith)
      (omega arith)

-- A bit string of no bytes.
abbrev hollow_key : List ℕ
hollow_key = 0x30 ∷ 4 ∷ 0x30 ∷ 0 ∷ 0x03 ∷ 0 ∷ []

verify_pkcs1_sha256-none_example :
    (verify_pkcs1_sha256 hollow_key (1 ∷ []) (2 ∷ []) ≡ none) ↔ (bit_string hollow_key ≡ some [])
verify_pkcs1_sha256-none_example =
    verify_pkcs1_sha256-none hollow_key (1 ∷ []) (2 ∷ []) (every_byte hollow_key refl)
      (every_byte (2 ∷ []) refl)

-- 2^32 - 1 and 1, with the carry in a limb of its own.
add_carries : add (0xffffffff ∷ []) (1 ∷ []) ≡ 0 ∷ 1 ∷ []
unfolding add add_limbs normalize pop_zeros put_limb
add_carries = refl
