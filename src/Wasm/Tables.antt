-- ===== src/Wasm/Tables.antt =====
-- The tables of a parsed module agree (src/wasm/parser.rs).
use veil_os.Wasm.{
  Bytes, Reader, Module, Func, Parser, ◌>>=◌, pure, fail, byte, uleb, bytes, name, times, entries,
  take_to, position, func_type, type_entry, limits, import_func, import_kind, func_entry,
  memory_entry, global_value, global_entry, local_entry, add_func, code_entry, data_offset,
  data_entry, import_entry, export_entry, section, round, parse_loop, parse, default, u32,
  has_magic,
}
use veil_os.Base.Word.{add64}
use veil_os.Wasm.Leb.{bind-some}
use veil_os.Wasm.Ends.{round-section}
use veil_os.Base.{
  ℕ, zero, suc, ◌%◌, ◌^◌, ◌≡◌, refl, sym, ap, inl, inr, Bool, true, false, not, ◌||◌, List, [], ◌∷◌,
  ◌++◌, some, arith, ltb, ◌==◌, if◌then◌else◌, Bool-cases, some_inj, get_elem?-append,
  get_elem?-append_cases, Option-cases, length, length-append, get_elem?,
}

-- The functions have the types that the function section lists, in order, and the imported ones
-- are counted.
pub record IsConsistent (m : Module) : Type 0 where
  pub typed :
      (i : ℕ) (f : Func) → get_elem? m.funcs i ≡ some f → get_elem? m.func_types i ≡ some f.type_idx
  pub counted : m.num_imported_funcs ≡ length m.imports % 2 ^ 32

-- Whatever the read gives has the property.
abbrev Gives : {A : Type 0} → (A → Type 0) → Parser A → Type 0
Gives {A} P m = (r : Reader) (a : A) (r' : Reader) → m r ≡ some (a, r') → P a

module _ {A : Type 0} (P : A → Type 0) where
  bind-Gives :
      {B : Type 0} (m : Parser B) (f : B → Parser A) → ((b : B) → Gives P (f b)) → Gives P (m >>= f)
  bind-Gives m f h r a r' e = let (b, r1, first, e1) = bind-some m f r e in h b r1 a r' e1

  bind-Gives_of :
      {B : Type 0} (Q : B → Type 0) (m : Parser B) (f : B → Parser A)
      → Gives Q m
      → ((b : B) → Q b → Gives P (f b))
      → Gives P (m >>= f)
  bind-Gives_of Q m f g h r a r' e =
      let (b, r1, first, e1) = bind-some m f r e in h b (g r b r1 first) r1 a r' e1

  pure-Gives : (a : A) → P a → Gives P (pure a)
  pure-Gives a p r b r' e = rw (sym (ap (λ w. w.0) (some_inj e))) p

  fail-Gives : Gives P fail
  fail-Gives r a r' e = absurd (cc)

  if-Gives : (b : Bool) (x y : Parser A) → Gives P x → Gives P y → Gives P (if b then x else y)
  if-Gives true x y p q = p
  if-Gives false x y p q = q

  times-Gives :
      (n : ℕ) (f : A → Parser A) (a : A)
      → ((b : A) → P b → Gives P (f b))
      → P a
      → Gives P (times n f a)
  unfolding times
  times-Gives zero f a h p = pure-Gives a p
  times-Gives (suc n) f a h p =
      bind-Gives_of P (f a) (λ c. times n f c) (h a p) (λ c q. times-Gives n f c h q)

after :
    {B : Type 0} (m : Parser B) (f : B → Parser Module)
    → ((b : B) → Gives IsConsistent (f b))
    → Gives IsConsistent (m >>= f)
after = bind-Gives IsConsistent

gives : (m : Module) → IsConsistent m → Gives IsConsistent (pure m)
gives = pure-Gives IsConsistent

branch :
    (b : Bool) (x y : Parser Module)
    → Gives IsConsistent x
    → Gives IsConsistent y
    → Gives IsConsistent (if b then x else y)
branch = if-Gives IsConsistent

failing : Gives IsConsistent fail
failing = fail-Gives IsConsistent

entries-Gives :
    (entry : Module → Parser Module) (m : Module)
    → ((n : Module) → IsConsistent n → Gives IsConsistent (entry n))
    → IsConsistent m
    → Gives IsConsistent (entries entry m)
unfolding entries
entries-Gives entry m h c = after uleb _ (λ n. times-Gives IsConsistent n entry m h c)

-- The tables of functions and of imports are the same.
same_tables :
    (m m' : Module)
    → m'.funcs ≡ m.funcs
    → m'.func_types ≡ m.func_types
    → m'.imports ≡ m.imports
    → m'.num_imported_funcs ≡ m.num_imported_funcs
    → IsConsistent m
    → IsConsistent m'
same_tables m m' a b c d h = record { typed = rw (a, b) h.typed; counted = rw (c, d) h.counted }

type_entry-Gives : (m : Module) → IsConsistent m → Gives IsConsistent (type_entry m)
unfolding type_entry func_type
type_entry-Gives m c = after byte _ (λ form. branch (not (form == 0x60)) _ _ failing (
    after uleb _ (λ np. after (bytes np) _ (λ params.
      after uleb _
        (λ nr. after (bytes nr) _ (λ results. gives _ (same_tables m _ refl refl refl refl c)))))))

import_func-Gives :
    (m : Module) (from field : Bytes)
    → IsConsistent m
    → Gives IsConsistent (import_func m from field)
unfolding import_func
import_func-Gives m from field c = after uleb _ (λ t. gives _ (record {
  typed = c.typed;
  counted = omega (
    arith,
    c.counted,
    length-append m.imports (record { module_name = from; field = field; type_idx = u32 t } ∷ []),
  );
}))

import_kind-Gives :
    (m : Module) (from field : Bytes) (kind : ℕ)
    → IsConsistent m
    → Gives IsConsistent (import_kind m from field kind)
unfolding import_kind
import_kind-Gives m from field kind c = branch (kind == 0) _ _ (import_func-Gives m from field c) (
    branch (kind == 1) _ _ (after byte _ (λ elemtype. after limits _ (λ min_pages. gives m c))) (
      branch (kind == 2) _ _ (after limits _ (λ min_pages. gives m c)) (
        branch (kind == 3) _ _ (after byte _ (λ valtype. after byte _ (λ mutability. gives m c)))
          failing)))

func_entry-Gives : (m : Module) → IsConsistent m → Gives IsConsistent (func_entry m)
unfolding func_entry
func_entry-Gives m c = after uleb _ (λ t. gives _ (record {
  typed = λ i f h. get_elem?-append m.func_types (u32 t ∷ []) i (c.typed i f h);
  counted = c.counted;
}))

memory_entry-Gives : (m : Module) → IsConsistent m → Gives IsConsistent (memory_entry m)
unfolding memory_entry
memory_entry-Gives m c =
    after limits _ (λ min_pages. gives _ (same_tables m _ refl refl refl refl c))

global_entry-Gives : (m : Module) → IsConsistent m → Gives IsConsistent (global_entry m)
unfolding global_entry
global_entry-Gives m c = after byte _ (λ valtype. after byte _ (λ mutability. after byte _ (λ op.
    after (global_value op) _
      (λ v. after byte _ (λ end. gives _ (same_tables m _ refl refl refl refl c))))))

data_entry-Gives : (m : Module) → IsConsistent m → Gives IsConsistent (data_entry m)
unfolding data_entry
data_entry-Gives m c = after uleb _ (λ flags. after byte _ (λ op.
    after (data_offset op) _ (λ offset. after byte _ (λ end.
      after uleb _ (λ len.
        after (bytes len) _ (λ content. gives _ (same_tables m _ refl refl refl refl c)))))))

add_func-typed :
    (m : Module) (g : Func)
    → IsConsistent m
    → get_elem? m.func_types (length m.funcs) ≡ some g.type_idx
    → (i : ℕ) (f : Func) → get_elem? (m.funcs ++ (g ∷ [])) i ≡ some f
    → get_elem? m.func_types i ≡ some f.type_idx
add_func-typed m g c found i f h = elim (get_elem?-append_cases m.funcs g i h) [
  | inl old ↦ c.typed i f old
  | inr (last, same) ↦ rw (last, sym same) found
]

add_func-Gives :
    (m : Module) (locals : List (ℕ × ℕ)) (body : Bytes)
    → IsConsistent m
    → Gives IsConsistent (add_func m locals body)
unfolding add_func
add_func-Gives m locals body c r a r' e =
    elim (Option-cases (get_elem? m.func_types (length m.funcs))) [
      | inl missing ↦ let impossible = rw (missing, add_func) at e in absurd (cc)
      | inr (t, found) ↦ rw (sym (ap (λ w. w.0) (some_inj (rw (found, add_func) at e)))) (record {
        typed = λ i f h.
            add_func-typed m (record { type_idx = t; locals = locals; body = body }) c found i f h;
        counted = c.counted;
      })
    ]

code_entry-Gives : (m : Module) → IsConsistent m → Gives IsConsistent (code_entry m)
unfolding code_entry
code_entry-Gives m c = after uleb _ (λ body_size. after position _ (λ start.
    after uleb _ (λ nlocals. after (times nlocals local_entry []) _ (λ locals.
      after (take_to (add64 start body_size)) _ (λ body. add_func-Gives m locals body c)))))

module _ (lossy : Bytes → Bytes) where
  import_entry-Gives : (m : Module) → IsConsistent m → Gives IsConsistent (import_entry lossy m)
  unfolding import_entry
  import_entry-Gives m c = after (name lossy) _ (λ from.
      after (name lossy) _ (λ field. after byte _ (λ kind. import_kind-Gives m from field kind c)))

  export_entry-Gives : (m : Module) → IsConsistent m → Gives IsConsistent (export_entry lossy m)
  unfolding export_entry
  export_entry-Gives m c = after (name lossy) _ (λ n.
      after byte _
        (λ kind. after uleb _ (λ index. gives _ (same_tables m _ refl refl refl refl c))))

  section-Gives : (id : ℕ) (m : Module) → IsConsistent m → Gives IsConsistent (section lossy id m)
  unfolding section
  section-Gives id m c = branch (id == 1) _ _ (entries-Gives type_entry m type_entry-Gives c) (
      branch (id == 2) _ _ (entries-Gives (import_entry lossy) m import_entry-Gives c) (
        branch (id == 3) _ _ (entries-Gives func_entry m func_entry-Gives c) (
          branch (id == 5) _ _ (entries-Gives memory_entry m memory_entry-Gives c) (
            branch (id == 6) _ _ (entries-Gives global_entry m global_entry-Gives c) (
              branch (id == 7) _ _ (entries-Gives (export_entry lossy) m export_entry-Gives c) (
                branch (id == 10) _ _ (entries-Gives code_entry m code_entry-Gives c) (
                  branch (id == 11) _ _ (entries-Gives data_entry m data_entry-Gives c)
                    (gives m c))))))))

  round-IsConsistent :
      (m : Module) (r : Reader) {m' : Module} {r' : Reader}
      → IsConsistent m
      → round lossy m r ≡ some (m', r')
      → IsConsistent m'
  round-IsConsistent m r {m'} c e =
      let (id, r1, r2, s) = round-section lossy m r e in section-Gives id m c r1 m' r2 s

  parse_loop-IsConsistent :
      (fuel : ℕ) (m : Module) (r : Reader) {m' : Module}
      → IsConsistent m
      → parse_loop lossy fuel m r ≡ some (some m')
      → IsConsistent m'
  unfolding parse_loop
  parse_loop-IsConsistent zero m r c e = absurd (cc)
  parse_loop-IsConsistent (suc fuel) m r {m'} c e = elim (Bool-cases (ltb r.p (length r.d))) [
    | inr done ↦ rw (sym (some_inj (some_inj (rw done at e)))) c
    | inl more ↦ elim (Option-cases (round lossy m r)) [
      | inl bad ↦ let impossible = some_inj (rw (more, bad) at e) in absurd (cc)
      | inr ((m2, r2), good) ↦
          parse_loop-IsConsistent fuel m2 r2 (round-IsConsistent m r c good) (rw (more, good) at e)
    ]
  ]

  -- Whenever parse succeeds, with any fuel, each function of the module has the type index that
  -- the function section lists at its place, and num_imported_funcs is the number of the imports
  -- modulo 2^32.
  pub parse-IsConsistent :
      (fuel : ℕ) (d : Bytes) {m : Module} → parse lossy fuel d ≡ some (some m) → IsConsistent m
  unfolding parse
  parse-IsConsistent fuel d e = elim (Bool-cases (ltb (length d) 8 || not (has_magic d))) [
    | inl bad ↦ let impossible = some_inj (rw bad at e) in absurd (cc)
    | inr good ↦
        parse_loop-IsConsistent fuel default (record { d = d; p = 8 })
          (unfold default in record { typed = λ i f h. absurd (cc); counted = refl }) (rw good at e)
  ]
