-- ===== src/H264/Tests.antt =====
-- Runs of the bit reader (src/h264/bits.rs).
use veil_os.H264.{
  new, bit_at, bit, bits_loop, bits, zeros_loop, with_info, decode, ue, signed, se, te,
  byte_aligned, unescape,
}
use veil_os.H264.ExpGolomb.{Shows, binary, golomb, ue-golomb}
use veil_os.H264.Escape.{escape_loop, unescape-escape_loop}
use veil_os.Base.{ℕ, ◌-◌, ◌^◌, ◌≡◌, refl, false, List, [], ◌∷◌, arith}

-- 00101 is 4, with a bit before it and the stop bit behind.
abbrev coded : List ℕ
coded = 0b10010110 ∷ []

four_shown : Shows coded 1 (golomb 2 1)
unfolding Shows golomb binary bit_at
four_shown = (
  omega arith,
  refl,
  (omega arith, refl, (omega arith, refl, (omega arith, refl, (omega arith, refl, omega arith)))),
)

ue-golomb_example : ue (record { rbsp = coded; pos = 1 }) ≡ (4, record { rbsp = coded; pos = 6 })
ue-golomb_example = ue-golomb 2 1 coded 1 (omega arith) (omega arith) four_shown

-- The number after 3 is -2.
minus_two : se (record { rbsp = coded; pos = 1 }) ≡ (2 ^ 32 - 2, record { rbsp = coded; pos = 6 })
unfolding se ue decode zeros_loop with_info bits bits_loop bit bit_at signed
minus_two = refl

inverted : te 1 (new coded) ≡ (0, record { rbsp = coded; pos = 1 })
unfolding te new bit bit_at
inverted = refl

unaligned : byte_aligned (record { rbsp = coded; pos = 6 }) ≡ false
unfolding byte_aligned
unaligned = refl

unescape-escape_loop_example : unescape (escape_loop 0 (0 ∷ 0 ∷ 1 ∷ [])) ≡ 0 ∷ 0 ∷ 1 ∷ []
unescape-escape_loop_example = unescape-escape_loop (0 ∷ 0 ∷ 1 ∷ [])
