-- ===== src/Perms.antt =====
-- The permissions of the WebAssembly apps (src/perms.rs): the grants by app, and their text form.
mod Grants
mod Tests
use Prim.Native.Nat.{bit_and, bit_or}
use veil_os.Vfs.{Bytes, eq_bytes}
use veil_os.Vfs.Image.{before}
use veil_os.Base.{
  ℕ, zero, suc, ◌+◌, ◌-◌, ◌*◌, ◌/◌, ◌%◌, ◌^◌, ◌≤◌, ◌<◌, min, max, ◌≡◌, refl, sym, ap, ◌∙◌, ◌≢◌, ◌↔◌,
  ◌⊎◌, inl, inr, Bool, true, false, not, ◌&&◌, ◌||◌, List, [], ◌∷◌, ◌++◌, map, Option, none, some,
  arith, ltb, leb, ◌==◌, if◌then◌else◌, Bool-cases, ==_iff, Option-cases, length, length-append,
  length-set, get_elem?, set, get_or, take, drop,
}

abbrev pub network : ℕ
network = 1

abbrev pub filesystem : ℕ
filesystem = 2

abbrev pub audio : ℕ
audio = 4

abbrev pub clipboard : ℕ
clipboard = 8

abbrev pub notify : ℕ
notify = 16

abbrev pub every : ℕ
every = bit_or (bit_or (bit_or (bit_or network filesystem) audio) clipboard) notify

-- `GRANTS`, in the order of the keys.
abbrev pub Grants : Type 0
Grants = List (Bytes × ℕ)

-- ".WSM"
abbrev pub wsm : Bytes
wsm = 46 ∷ 87 ∷ 83 ∷ 77 ∷ []

-- "HELLOAPP", "NETGET", "EVIL", "HELLO", "COMPUTE", each with ".WSM".
abbrev pub system_apps : List Bytes
system_apps =
    (72 ∷ 69 ∷ 76 ∷ 76 ∷ 79 ∷ 65 ∷ 80 ∷ 80 ∷ wsm)
    ∷ (78 ∷ 69 ∷ 84 ∷ 71 ∷ 69 ∷ 84 ∷ wsm)
    ∷ (69 ∷ 86 ∷ 73 ∷ 76 ∷ wsm)
    ∷ (72 ∷ 69 ∷ 76 ∷ 76 ∷ 79 ∷ wsm)
    ∷ (67 ∷ 79 ∷ 77 ∷ 80 ∷ 85 ∷ 84 ∷ 69 ∷ wsm)
    ∷ []

unfoldable pub to_lower : ℕ → ℕ
to_lower c = if leb 65 c && leb c 90 then c + 32 else c

unfoldable pub eq_ignore_ascii_case : Bytes → Bytes → Bool
eq_ignore_ascii_case a b = eq_bytes (map to_lower a) (map to_lower b)

unfoldable pub is_any : List Bytes → Bytes → Bool
is_any [] app = false
is_any (s ∷ rest) app = eq_ignore_ascii_case s app || is_any rest app

unfoldable pub is_system : Bytes → Bool
is_system app = is_any system_apps app

unfoldable pub lookup : Grants → Bytes → Option ℕ
lookup [] app = none
lookup ((k, v) ∷ rest) app = let later = lookup rest app in if eq_bytes k app then some v else later

unfoldable pub insert : Grants → Bytes → ℕ → Grants
insert [] app bits = (app, bits) ∷ []
insert ((k, v) ∷ rest) app bits =
    let later = insert rest app bits in
    if eq_bytes k app
    then (k, bits) ∷ rest
    else if before app k
    then (app, bits) ∷ (k, v) ∷ rest
    else (k, v) ∷ later

unfoldable pub or_zero : Option ℕ → ℕ
or_zero none = 0
or_zero (some v) = v

unfoldable pub for_app : Grants → Bytes → ℕ
for_app g app = if is_system app then every else or_zero (lookup g app)

unfoldable pub grant : Grants → Bytes → ℕ → Grants
grant g app bits = insert g app (bit_or (or_zero (lookup g app)) bits)

-- `!bits` is on 32 bits.
unfoldable pub revoke : Grants → Bytes → ℕ → Grants
revoke g app bits = elim (lookup g app) [
  | none ↦ g
  | some e ↦ insert g app (bit_and e (2 ^ 32 - 1 - bits))
]

unfoldable pub has : Grants → Bytes → ℕ → Bool
has g app bits = bit_and (for_app g app) bits == bits
