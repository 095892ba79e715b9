-- ===== src/Wasm/Tests.antt =====
-- Runs of the WebAssembly parser (src/wasm/parser.rs).
use veil_os.Wasm.{
  Bytes, Reader, Module, byte, uleb, uleb_loop, sleb, sleb_loop, group, extend, position,
  section_header, has_magic, parse, parse_loop, default, round, section, entries, times, type_entry,
  func_type, func_entry, memory_entry, limits, code_entry, add_func, take_to, slice, bytes,
}
use veil_os.Wasm.Leb.{at, leb_bytes, Advances, uleb-leb_bytes, uleb-Advances}
use veil_os.Wasm.Ends.{backwards, parse-ne-none, parse-backwards}
use veil_os.Wasm.Tables.{IsConsistent, parse-IsConsistent}
use veil_os.Base.Word.{add64}
use veil_os.Base.{
  ℕ, zero, suc, ◌-◌, ◌^◌, ◌≤◌, ◌<◌, ◌≡◌, refl, ap, ◌≢◌, true, [], ◌∷◌, ◌++◌, Option, none, some,
  arith, some_inj,
}

abbrev preamble : Bytes
preamble = 0 ∷ b'a' ∷ b's' ∷ b'm' ∷ 1 ∷ 0 ∷ 0 ∷ 0 ∷ []

-- A module with one type, () -> i32, one function of it, and a memory of one page.
abbrev small : Bytes
small =
    0 ∷ b'a' ∷ b's' ∷ b'm' ∷ 1 ∷ 0 ∷ 0 ∷ 0 ∷ 1 ∷ 5 ∷ 1 ∷ 0x60 ∷ 0 ∷ 1 ∷ 0x7f ∷ 3 ∷ 2 ∷ 1 ∷ 0 ∷ 5 ∷ 3
    ∷ 1 ∷ 0 ∷ 1 ∷ 10 ∷ 6 ∷ 1 ∷ 4 ∷ 0 ∷ 0x41 ∷ 42 ∷ 0x0b ∷ []

abbrev small_module : Module
small_module = record {
  types = record { params = []; results = 0x7f ∷ [] } ∷ [];
  imports = [];
  func_types = 0 ∷ [];
  funcs = record { type_idx = 0; locals = []; body = 0x41 ∷ 42 ∷ 0x0b ∷ [] } ∷ [];
  exports = [];
  data_segs = [];
  globals = [];
  mem_min_pages = 1;
  num_imported_funcs = 0;
}

small_parsed : parse (λ b. b) 10 small ≡ some (some small_module)
unfolding parse parse_loop default has_magic round section section_header position entries times
    type_entry func_type func_entry memory_entry limits code_entry add_func take_to slice bytes byte
    uleb uleb_loop group add64
small_parsed = refl

-- The value -2 of a global.
minus_two :
    sleb (record { d = 0x7e ∷ []; p = 0 }) ≡ some (2 ^ 64 - 2, record { d = 0x7e ∷ []; p = 1 })
unfolding sleb sleb_loop group extend byte
minus_two = refl

uleb-leb_bytes_example :
    uleb (at preamble (leb_bytes 9 300 ++ (7 ∷ [])))
    ≡ some (300, at (preamble ++ leb_bytes 9 300) (7 ∷ []))
uleb-leb_bytes_example = uleb-leb_bytes 300 preamble (7 ∷ []) (omega arith)

two_bytes :
    uleb (record { d = 0xac ∷ 2 ∷ []; p = 0 }) ≡ some (300, record { d = 0xac ∷ 2 ∷ []; p = 2 })
unfolding uleb uleb_loop group byte
two_bytes = refl

uleb-Advances_example :
    (300 < 2 ^ 64)
    × Advances 10 (record { d = 0xac ∷ 2 ∷ []; p = 0 }) (record { d = 0xac ∷ 2 ∷ []; p = 2 })
uleb-Advances_example = uleb-Advances (record { d = 0xac ∷ 2 ∷ []; p = 0 }) two_bytes

ends :
    {i n id end : ℕ} {r r1 : Reader}
    → ◌≡◌ {A = Option ((ℕ × ℕ) × Reader)} (some ((i, n), r)) (some ((id, end), r1))
    → r.p ≤ n
    → r1.p ≤ end
ends e h = omega (arith, ap (λ w. w.0.1) (some_inj e), ap (λ w. w.1.p) (some_inj e), h)

forward :
    (p id end : ℕ) (r1 : Reader)
    → section_header (record { d = preamble; p = p }) ≡ some ((id, end), r1)
    → r1.p ≤ end
unfolding section_header position byte uleb uleb_loop group add64
forward zero id end r1 e = ends e (omega arith)
forward (suc zero) id end r1 e = ends e (omega arith)
forward (suc (suc zero)) id end r1 e = ends e (omega arith)
forward (suc (suc (suc zero))) id end r1 e = ends e (omega arith)
forward (suc (suc (suc (suc zero)))) id end r1 e = ends e (omega arith)
forward (suc (suc (suc (suc (suc zero))))) id end r1 e = ends e (omega arith)
forward (suc (suc (suc (suc (suc (suc zero)))))) id end r1 e = ends e (omega arith)
forward (suc (suc (suc (suc (suc (suc (suc zero))))))) id end r1 e = absurd (cc)
forward (suc (suc (suc (suc (suc (suc (suc (suc p)))))))) id end r1 e = absurd (cc)

parse-ne-none_example : parse (λ b. b) 9 preamble ≢ none
parse-ne-none_example = parse-ne-none (λ b. b) preamble forward

magic : has_magic (preamble ++ (backwards ++ [])) ≡ true
unfolding has_magic
magic = refl

parse-backwards_example : parse (λ b. b) 1000 (preamble ++ (backwards ++ [])) ≡ none
parse-backwards_example = parse-backwards (λ b. b) 1000 preamble [] refl magic

parse-IsConsistent_example : IsConsistent small_module
parse-IsConsistent_example = parse-IsConsistent (λ b. b) 10 small small_parsed
