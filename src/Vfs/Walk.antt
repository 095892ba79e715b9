-- ===== src/Vfs/Walk.antt =====
-- What a write leaves in place, and that a read finds what a write put there (src/vfs.rs).
use veil_os.Vfs.{
  Outcome, ok, err, panic, ◌>>=◌, Bytes, dot, dotdot, Node, Vfs, node, find, child, enter, walk,
  start_of, resolve, split, cut, is_absolute, parent_of, trim_end, split_parent, eq_bytes,
}
use veil_os.Vfs.Paths.{Shape, cut-Shape, Trimmed, trim_end-Trimmed}
use veil_os.Base.{
  replicate, ℕ, zero, suc, ◌≡◌, refl, sym, ap, ◌∙◌, inl, inr, false, ◌||◌, List, [], ◌∷◌, ◌++◌,
  if◌then◌else◌, Bool-cases,
}

-- The step that a chain of results which succeeds has taken first.
pub bind-ok {ℓ κ} :
    {A : Type ℓ} {B : Type κ} (r : Outcome A) (f : A → Outcome B) {b : B}
    → r >>= f ≡ ok b
    → (a : A) × (r ≡ ok a) × (f a ≡ ok b)
bind-ok (ok a) f e = (a, refl, e)
bind-ok (err x) f e = absurd (cc)
bind-ok panic f e = absurd (cc)

pub ok-inj {ℓ} : {A : Type ℓ} {a b : A} → ok a ≡ ok b → a ≡ b
ok-inj e = cc

-- `fs'` has the nodes of `fs` under the same indices, perhaps with further children.
pub record Kept (n n' : Node) : Type 0 where
  pub name : n'.name ≡ n.name
  pub parent : n'.parent ≡ n.parent
  pub extra : List ℕ
  pub children : n'.children ≡ n.children ++ extra

abbrev pub Extends : Vfs → Vfs → Type 0
Extends fs fs' =
    (i : ℕ) (n : Node) → node fs i ≡ ok n → (n' : Node) × (node fs' i ≡ ok n') × Kept n n'

module _ (fs fs' : Vfs) (x : Extends fs fs') where
  find-Extends :
      (name : Bytes) (cs extra : List ℕ) {c : ℕ}
      → find fs name cs ≡ ok c
      → find fs' name (cs ++ extra) ≡ ok c
  unfolding find
  find-Extends name [] extra e = absurd (cc)
  find-Extends name (d ∷ ds) extra e =
      let (n, at, found) = bind-ok (node fs d) _ e in
      let (n', at', k) = x d n at in
      rw (at', k.name)
        (elim (Bool-cases (eq_bytes n.name name)) [
          | inl h ↦ rw h ((rw h at found))
          | inr h ↦ rw h (find-Extends name ds extra (rw h at found))
        ])

  pub child-Extends :
      (dir : ℕ) (name : Bytes) {c : ℕ} → child fs dir name ≡ ok c → child fs' dir name ≡ ok c
  unfolding child
  child-Extends dir name e =
      let (n, at, found) = bind-ok (node fs dir) _ e in
      let (n', at', k) = x dir n at in
      rw (at', k.children) (find-Extends name n.children k.extra found)

  enter-Extends :
      (cur : ℕ) (comp : Bytes) {c : ℕ} → enter fs cur comp ≡ ok c → enter fs' cur comp ≡ ok c
  unfolding enter
  enter-Extends cur comp e = elim (Bool-cases (eq_bytes comp [] || eq_bytes comp dot)) [
    | inl h ↦ rw h (rw h at e)
    | inr h ↦ rw h (elim (Bool-cases (eq_bytes comp dotdot)) [
      | inl g ↦
          let (n, at, found) = bind-ok (node fs cur) _ (rw (h, g) at e) in
          let (n', at', k) = x cur n at in rw (g, at', k.parent) found
      | inr g ↦ rw g (child-Extends cur comp (rw (h, g) at e))
    ])
  ]

  pub walk-Extends :
      (cur : ℕ) (comps : List Bytes) {c : ℕ} → walk fs cur comps ≡ ok c → walk fs' cur comps ≡ ok c
  unfolding walk
  walk-Extends cur [] e = e
  walk-Extends cur (comp ∷ rest) e =
      let (next, one, others) = bind-ok (enter fs cur comp) _ e in
      rw (enter-Extends cur comp one) (walk-Extends next rest others)

walk-append :
    (fs : Vfs) (cur : ℕ) (xs ys : List Bytes) {c d : ℕ}
    → walk fs cur xs ≡ ok c
    → walk fs c ys ≡ ok d
    → walk fs cur (xs ++ ys) ≡ ok d
unfolding walk
walk-append fs cur [] ys e f = rw (ok-inj e) f
walk-append fs cur (x ∷ xs) ys e f =
    let (next, one, others) = bind-ok (enter fs cur x) _ e in
    rw one (walk-append fs next xs ys others f)

one_then :
    (fs : Vfs) (cur : ℕ) (x : Bytes) (xs : List Bytes) {next c : ℕ}
    → enter fs cur x ≡ ok next
    → walk fs next xs ≡ ok c
    → walk fs cur (x ∷ xs) ≡ ok c
unfolding walk
one_then fs cur x xs e f = rw e f

walk-prefix :
    (fs : Vfs) (cur : ℕ) (xs ys : List Bytes) {d : ℕ}
    → walk fs cur (xs ++ ys) ≡ ok d
    → (c : ℕ) × (walk fs cur xs ≡ ok c) × (walk fs c ys ≡ ok d)
unfolding walk
walk-prefix fs cur [] ys e = (cur, refl, e)
walk-prefix fs cur (x ∷ xs) ys e =
    let (next, one, others) = bind-ok (enter fs cur x) _ e in
    let (c, here, there) = walk-prefix fs next xs ys others in
    (c, one_then fs cur x xs one here, there)

walk-blanks : (fs : Vfs) (cur k : ℕ) → walk fs cur (replicate k []) ≡ ok cur
unfolding walk enter eq_bytes
walk-blanks fs cur zero = refl
walk-blanks fs cur (suc k) = walk-blanks fs cur k

walk-name :
    (fs : Vfs) (parent idx : ℕ) (name : Bytes)
    → enter fs parent name ≡ ok idx
    → walk fs parent (name ∷ []) ≡ ok idx
unfolding walk
walk-name fs parent idx name e = rw e refl

-- The walk of a path whose trimmed form `cut` takes apart.
walk-parent_of :
    (fs : Vfs) (path t name : Bytes) (parent idx : ℕ) (r : Bytes × Bytes)
    → Trimmed path t
    → Shape t r
    → parent_of fs r ≡ ok (parent, name)
    → enter fs parent name ≡ ok idx
    → walk fs (start_of fs path) (split path) ≡ ok idx
unfolding parent_of start_of resolve
walk-parent_of fs path t name parent idx ([], []) trimmed sh e f = absurd (cc)
walk-parent_of fs path t name parent idx (d ∷ ds, []) trimmed sh e f = absurd (cc)
walk-parent_of fs path t name parent idx ([], c ∷ cs) (first, others, k, ep, et, a) (st, same, rel)
      e f =
    let relative : is_absolute path ≡ false = sym (a (λ q. absurd (cc))) ∙ rel in
    let whole : split path ≡ ((c ∷ cs) ∷ []) ++ replicate k [] =
      ep ∙ ap (λ w. w ++ replicate k []) (sym et ∙ st) in
    let pair = ok-inj e in
    let last : enter fs fs.cwd (c ∷ cs) ≡ ok idx = ap (λ p. enter fs p.0 p.1) pair ∙ f in
    rw (relative, whole)
      (walk-append fs fs.cwd ((c ∷ cs) ∷ []) (replicate k [])
        (walk-name fs fs.cwd idx (c ∷ cs) last) (walk-blanks fs idx k))
walk-parent_of fs path t name parent idx (d ∷ ds, c ∷ cs) (first, others, k, ep, et, a) sh e f =
    let (p, at, made) = bind-ok (resolve fs (d ∷ ds)) _ e in
    let pair = ok-inj made in
    let started : start_of fs (d ∷ ds) ≡ start_of fs path =
      ap (λ b. if b then 0 else fs.cwd) (sh.absolute ∙ a sh.nonempty) in
    let (q, above, blank) =
      walk-prefix fs (start_of fs path) (sh.first ∷ sh.others) ([] ∷ [])
        (rw (started, sh.of_dir) at at) in
    let whole : split path ≡ ((sh.first ∷ sh.others) ++ ((c ∷ cs) ∷ [])) ++ replicate k [] =
      ep ∙ ap (λ w. w ++ replicate k []) (sym et ∙ sh.of_path) in
    let there : q ≡ parent = ok-inj (sym (walk-blanks fs q 1) ∙ blank) ∙ ap (λ p. p.0) pair in
    let last : enter fs q (c ∷ cs) ≡ ok idx = rw (there, ap (λ p. p.1) pair) f in
    rw whole (
      walk-append fs (start_of fs path) ((sh.first ∷ sh.others) ++ ((c ∷ cs) ∷ [])) (replicate k [])
        (walk-append fs (start_of fs path) (sh.first ∷ sh.others) ((c ∷ cs) ∷ []) above
          (walk-name fs q idx (c ∷ cs) last))
        (walk-blanks fs idx k))

-- A path that `split_parent` takes apart leads into its parent and from there to the name.
pub resolve-split_parent :
    (fs : Vfs) (path name : Bytes) (parent idx : ℕ)
    → split_parent fs path ≡ ok (parent, name)
    → enter fs parent name ≡ ok idx
    → resolve fs path ≡ ok idx
unfolding split_parent resolve
resolve-split_parent fs path name parent idx e found =
    walk-parent_of fs path (trim_end path) name parent idx (cut (trim_end path))
      (trim_end-Trimmed path) (cut-Shape (trim_end path)) e found
