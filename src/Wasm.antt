-- ===== src/Wasm.antt =====
-- The reader and the parser of WebAssembly modules (src/wasm/parser.rs). Positions are 64-bit words
-- that wrap, as the release build computes them.
mod Leb
mod Ends
mod Tables
mod Tests
use Prim.Native.Nat.{bit_and, bit_or}
use veil_os.Base.Word.{add64, word_mod}
use veil_os.Base.{
  ℕ, zero, suc, ◌+◌, ◌-◌, ◌*◌, ◌/◌, ◌%◌, ◌^◌, ◌≤◌, ◌<◌, min, max, ◌≡◌, refl, sym, ap, ◌∙◌, ◌≢◌, ◌↔◌,
  ◌⊎◌, inl, inr, Bool, true, false, not, ◌&&◌, ◌||◌, List, [], ◌∷◌, ◌++◌, map, Option, none, some,
  arith, ltb, leb, ◌==◌, if◌then◌else◌, Bool-cases, lt→ltb, some_inj, replicate, get_elem?-lt,
  get_elem?-append, get_elem?-last, get_elem?-append_length, length-take, length-drop, length-map,
  length-replicate, take-append-drop, ==_iff, Option-cases, length, length-append, length-set,
  get_elem?, set, get_or, take, drop,
}

abbrev pub Bytes : Type 0
Bytes = List ℕ

pub record FuncType : Type 0 where
  pub params : Bytes
  pub results : Bytes

pub record Import : Type 0 where
  pub module_name : Bytes
  pub field : Bytes
  pub type_idx : ℕ

pub record Func : Type 0 where
  pub type_idx : ℕ
  pub locals : List (ℕ × ℕ)
  pub body : Bytes

pub record Export : Type 0 where
  pub name : Bytes
  pub kind : ℕ
  pub index : ℕ

pub record DataSeg : Type 0 where
  pub offset : ℕ
  pub bytes : Bytes

-- `globals` holds the words of the signed values.
pub record Module : Type 0 where
  pub types : List FuncType
  pub imports : List Import
  pub func_types : List ℕ
  pub funcs : List Func
  pub exports : List Export
  pub data_segs : List DataSeg
  pub globals : List ℕ
  pub mem_min_pages : ℕ
  pub num_imported_funcs : ℕ

unfoldable pub default : Module
default = record {
  types = [];
  imports = [];
  func_types = [];
  funcs = [];
  exports = [];
  data_segs = [];
  globals = [];
  mem_min_pages = 0;
  num_imported_funcs = 0;
}

pub record Reader : Type 0 where
  pub d : Bytes
  pub p : ℕ

-- A read that may fail, from a reader to its value and the reader after it.
abbrev pub Parser : Type 0 → Type 0
Parser A = Reader → Option (A × Reader)

infixl 5 ◌>>=◌ ◌>>◌
abbrev pub ◌>>=◌ : {A B : Type 0} → Parser A → (A → Parser B) → Parser B
◌>>=◌ m f r = elim (m r) [ none ↦ none | some (a, r') ↦ f a r' ]

abbrev pub ◌>>◌ : {A B : Type 0} → Parser A → Parser B → Parser B
m >> k = m >>= λ _. k

abbrev pub pure : {A : Type 0} → A → Parser A
pure a r = some (a, r)

abbrev pub fail : {A : Type 0} → Parser A
fail r = none

unfoldable pub byte : Parser ℕ
byte r = elim (get_elem? r.d r.p) [ none ↦ none | some b ↦ some (b, record r { p = r.p + 1 }) ]

-- `((b & 0x7f) as u64) << shift`.
unfoldable pub group : ℕ → ℕ → ℕ
group b shift = bit_and b 0x7f * 2 ^ shift % word_mod

-- Ten bytes take the shift past 63, so the loop ends by its own test before the fuel is spent.
unfoldable pub uleb_loop : ℕ → ℕ → ℕ → Parser ℕ
uleb_loop zero result shift = fail
uleb_loop (suc fuel) result shift = byte >>= λ b.
    let result' = bit_or result (group b shift) in
    let more = uleb_loop fuel result' (shift + 7) in
    if bit_and b 0x80 == 0 then pure result' else if leb 64 (shift + 7) then fail else more

unfoldable pub uleb : Parser ℕ
uleb = uleb_loop 10 0 0

-- The sign bit of the last group, carried to the bits above it.
unfoldable pub extend : ℕ → ℕ → ℕ → ℕ
extend b shift result =
    if ltb shift 64 && not (bit_and b 0x40 == 0)
    then bit_or result (word_mod - 2 ^ shift)
    else result

unfoldable pub sleb_loop : ℕ → ℕ → ℕ → Parser ℕ
sleb_loop zero result shift = fail
sleb_loop (suc fuel) result shift = byte >>= λ b.
    let result' = bit_or result (group b shift) in
    let more = sleb_loop fuel result' (shift + 7) in
    if bit_and b 0x80 == 0
    then pure (extend b (shift + 7) result')
    else if leb 64 (shift + 7)
    then fail
    else more

-- The word of the signed value.
unfoldable pub sleb : Parser ℕ
sleb = sleb_loop 10 0 0

-- `d.get(from..to)`.
unfoldable pub slice : Bytes → ℕ → ℕ → Option Bytes
slice d from to =
    if leb from to && leb to (length d) then some (take (to - from) (drop from d)) else none

unfoldable pub take_to : ℕ → Parser Bytes
take_to to r = elim (slice r.d r.p to) [ none ↦ none | some s ↦ some (s, record r { p = to }) ]

unfoldable pub bytes : ℕ → Parser Bytes
bytes n r = take_to (add64 r.p n) r

-- `String::from_utf8_lossy` is of the library: `lossy`.
module _ (lossy : Bytes → Bytes) where
  unfoldable pub name : Parser Bytes
  name = do n ← uleb; b ← bytes n; pure (lossy b)

-- `for _ in 0..n`, with what the rounds change.
unfoldable pub times : {A : Type 0} → ℕ → (A → Parser A) → A → Parser A
times zero f a = pure a
times (suc n) f a = f a >>= λ b. times n f b

-- `as u32`.
abbrev pub u32 : ℕ → ℕ
u32 v = v % 2 ^ 32

unfoldable pub func_type : Module → Parser Module
func_type m = do
  np ← uleb
  params ← bytes np
  nr ← uleb
  results ← bytes nr
  pure (record m { types = m.types ++ (record { params = params; results = results } ∷ []) })

unfoldable pub type_entry : Module → Parser Module
type_entry m = byte >>= λ form. if not (form == 0x60) then fail else func_type m

-- The limits of a table or a memory: the least number of pages; the largest is read over.
unfoldable pub limits : Parser ℕ
limits = do
  flags ← byte
  min_pages ← uleb
  if flags == 1 then (uleb >>= λ most. pure min_pages) else pure min_pages

unfoldable pub import_func : Module → Bytes → Bytes → Parser Module
import_func m from field = do
  t ← uleb
  pure (record m {
    imports = m.imports ++ (record { module_name = from; field = field; type_idx = u32 t } ∷ []);
    num_imported_funcs = u32 (m.num_imported_funcs + 1);
  })

unfoldable pub import_kind : Module → Bytes → Bytes → ℕ → Parser Module
import_kind m from field kind =
    if kind == 0
    then import_func m from field
    else if kind == 1
    then (byte >>= λ elemtype. limits >>= λ min_pages. pure m)
    else if kind == 2
    then (limits >>= λ min_pages. pure m)
    else if kind == 3
    then (byte >>= λ valtype. byte >>= λ mutability. pure m)
    else fail

unfoldable pub func_entry : Module → Parser Module
func_entry m = do t ← uleb; pure (record m { func_types = m.func_types ++ (u32 t ∷ []) })

unfoldable pub memory_entry : Module → Parser Module
memory_entry m = do
  min_pages ← limits
  pure (record m { mem_min_pages = max m.mem_min_pages (u32 min_pages) })

unfoldable pub global_value : ℕ → Parser ℕ
global_value op = if op == 0x41 || op == 0x42 then sleb else pure 0

unfoldable pub global_entry : Module → Parser Module
global_entry m = do
  valtype ← byte
  mutability ← byte
  op ← byte
  v ← global_value op
  end ← byte
  pure (record m { globals = m.globals ++ (v ∷ []) })

unfoldable pub local_entry : List (ℕ × ℕ) → Parser (List (ℕ × ℕ))
local_entry locals = do count ← uleb; valtype ← byte; pure (locals ++ ((u32 count, valtype) ∷ []))

-- The type of the next function of the code section; a function without one is an error.
unfoldable pub add_func : Module → List (ℕ × ℕ) → Bytes → Parser Module
add_func m locals body r = elim (get_elem? m.func_types (length m.funcs)) [
  | none ↦ none
  | some t ↦ some (
    record m { funcs = m.funcs ++ (record { type_idx = t; locals = locals; body = body } ∷ []) },
    r,
  )
]

unfoldable pub position : Parser ℕ
position r = some (r.p, r)

unfoldable pub code_entry : Module → Parser Module
code_entry m = do
  body_size ← uleb
  at ← position
  nlocals ← uleb
  locals ← times nlocals local_entry []
  body ← take_to (add64 at body_size)
  add_func m locals body

unfoldable pub data_offset : ℕ → Parser ℕ
data_offset op = if op == 0x41 then (sleb >>= λ v. pure (u32 v)) else pure 0

unfoldable pub data_entry : Module → Parser Module
data_entry m = do
  mem_flags ← uleb
  op ← byte
  offset ← data_offset op
  end ← byte
  len ← uleb
  content ← bytes len
  pure (record m { data_segs = m.data_segs ++ (record { offset = offset; bytes = content } ∷ []) })

unfoldable pub entries : (Module → Parser Module) → Module → Parser Module
entries entry m = uleb >>= λ n. times n entry m

-- The first four bytes are "\0asm".
unfoldable pub has_magic : Bytes → Bool
has_magic d =
    (get_or d 0 0 == 0)
    && (get_or d 1 0 == b'a')
    && (get_or d 2 0 == b's')
    && (get_or d 3 0 == b'm')

-- The id of a section, and the position behind it.
unfoldable pub section_header : Parser (ℕ × ℕ)
section_header = do id ← byte; size ← uleb; at ← position; pure (id, add64 at size)

module _ (lossy : Bytes → Bytes) where
  unfoldable pub import_entry : Module → Parser Module
  import_entry m = do
    from ← name lossy
    field ← name lossy
    kind ← byte
    import_kind m from field kind

  unfoldable pub export_entry : Module → Parser Module
  export_entry m = do
    n ← name lossy
    kind ← byte
    index ← uleb
    pure (record m {
      exports = m.exports ++ (record { name = n; kind = kind; index = u32 index } ∷ []);
    })

  unfoldable pub section : ℕ → Module → Parser Module
  section id m =
      if id == 1
      then entries type_entry m
      else if id == 2
      then entries import_entry m
      else if id == 3
      then entries func_entry m
      else if id == 5
      then entries memory_entry m
      else if id == 6
      then entries global_entry m
      else if id == 7
      then entries export_entry m
      else if id == 10
      then entries code_entry m
      else if id == 11
      then entries data_entry m
      else pure m

  -- A round of the loop: a section, and the jump to its end.
  unfoldable pub round : Module → Parser Module
  round m r = elim (section_header r) [
    | none ↦ none
    | some ((id, end), r1) ↦ elim (section id m r1) [
      | none ↦ none
      | some (m', r2) ↦ some (m', record r { p = end })
    ]
  ]

  -- `none` is a loop that has not ended within the fuel; the inner `none` is that of the source.
  unfoldable pub parse_loop : ℕ → Module → Reader → Option (Option Module)
  parse_loop zero m r = none
  parse_loop (suc fuel) m r =
      if ltb r.p (length r.d)
      then elim (round m r) [ none ↦ some none | some (m', r') ↦ parse_loop fuel m' r' ]
      else some (some m)

  unfoldable pub parse : ℕ → Bytes → Option (Option Module)
  parse fuel d =
      if ltb (length d) 8 || not (has_magic d)
      then some none
      else parse_loop fuel default (record { d = d; p = 8 })
