-- ===== src/Vfs/Paths.antt =====
-- How `split`, `cut` and `trim_end` take a path apart (src/vfs.rs).
use veil_os.Vfs.{Bytes, slash, split, split_push, cut, cut_push, trim_end, trim_push, is_absolute}
use veil_os.Base.{
  replicate, ℕ, suc, ◌≡◌, refl, sym, ap, ◌∙◌, ◌≢◌, inl, inr, false, List, [], ◌∷◌, ◌++◌, ◌==◌,
  Bool-cases,
}

-- The components of a path are those of its directory, whose last one is blank, and its name.
pub record Parts (path dir name : Bytes) : Type 0 where
  pub first : Bytes
  pub others : List Bytes
  pub of_path : split path ≡ first ∷ (others ++ (name ∷ []))
  pub of_dir : split dir ≡ first ∷ (others ++ ([] ∷ []))
  pub nonempty : path ≢ []
  pub absolute : is_absolute dir ≡ is_absolute path

-- What `cut` finds: a name alone, or a directory and a name.
abbrev pub Shape : Bytes → Bytes × Bytes → Type 0
Shape path ([], name) = (split path ≡ name ∷ []) × (name ≡ path) × (is_absolute path ≡ false)
Shape path (d ∷ ds, name) = Parts path (d ∷ ds) name

cut_push-Shape :
    (c : ℕ) (cs : Bytes) (r : Bytes × Bytes) → Shape cs r → Shape (c ∷ cs) (cut_push c r)
unfolding cut_push split split_push is_absolute
cut_push-Shape c cs ([], name) (e, same, rel) = elim (Bool-cases (c == slash)) [
  | inl h ↦ rw h (record {
    first = [];
    others = [];
    of_path = rw (h, e) refl;
    of_dir = rw h refl;
    nonempty = λ q. absurd (cc);
    absolute = refl;
  })
  | inr h ↦ rw h (rw (h, e) refl, ap (λ x. c ∷ x) same, h)
]
cut_push-Shape c cs (d ∷ ds, name) p = elim (Bool-cases (c == slash)) [
  | inl h ↦ record {
    first = [];
    others = p.first ∷ p.others;
    of_path = rw (h, p.of_path) refl;
    of_dir = rw (h, p.of_dir) refl;
    nonempty = λ q. absurd (cc);
    absolute = refl;
  }
  | inr h ↦ record {
    first = c ∷ p.first;
    others = p.others;
    of_path = rw (h, p.of_path) refl;
    of_dir = rw (h, p.of_dir) refl;
    nonempty = λ q. absurd (cc);
    absolute = refl;
  }
]

pub cut-Shape : (t : Bytes) → Shape t (cut t)
unfolding cut split is_absolute
cut-Shape [] = (refl, refl, refl)
cut-Shape (c ∷ cs) = cut_push-Shape c cs (cut cs) (cut-Shape cs)

-- What `trim_end` leaves out is blank components.
abbrev pub Trimmed : Bytes → Bytes → Type 0
Trimmed p t =
    (first : Bytes) × (others : List Bytes) × (k : ℕ) × (split p
      ≡ first ∷ (others ++ replicate k []))
    × (split t ≡ first ∷ others)
    × (t ≢ [] → is_absolute t ≡ is_absolute p)

trim_push-Trimmed : (c : ℕ) (cs t : Bytes) → Trimmed cs t → Trimmed (c ∷ cs) (trim_push c t)
unfolding trim_push split split_push is_absolute
trim_push-Trimmed c cs [] (first, others, k, e, et, a) = elim (Bool-cases (c == slash)) [
  | inl h ↦ rw h (
    [],
    [],
    suc k,
    ap (λ x. [] ∷ x) (e ∙ ap (λ w. w ++ replicate k []) (sym et)),
    refl,
    λ n. absurd (n refl),
  )
  | inr h ↦
      rw h (
        c ∷ first,
        others,
        k,
        ap (λ w. split_push c w) e,
        rw h (ap (λ w. split_push c w) et),
        λ n. h,
      )
]
trim_push-Trimmed c cs (x ∷ xs) (first, others, k, e, et, a) = elim (Bool-cases (c == slash)) [
  | inl h ↦ ([], first ∷ others, k, rw (h, e) refl, rw (h, et) refl, λ n. refl)
  | inr h ↦ (c ∷ first, others, k, rw (h, e) refl, rw (h, et) refl, λ n. refl)
]

pub trim_end-Trimmed : (p : Bytes) → Trimmed p (trim_end p)
unfolding trim_end split
trim_end-Trimmed [] = ([], [], 0, refl, refl, λ n. refl)
trim_end-Trimmed (c ∷ cs) = trim_push-Trimmed c cs (trim_end cs) (trim_end-Trimmed cs)
