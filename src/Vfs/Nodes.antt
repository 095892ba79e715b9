-- ===== src/Vfs/Nodes.antt =====
-- What a write to the arena leaves in place (src/vfs.rs).
use veil_os.Vfs.{
  Outcome, ok, err, ◌>>=◌, Bytes, Node, Vfs, node, edit, find, child, add, eq_bytes, Error,
}
use veil_os.Vfs.Walk.{bind-ok, ok-inj, Kept, Extends}
use veil_os.Base.{
  get_elem?-last, get_elem?-lt, get_elem?-append, get_elem?-set_ne, get_elem?-set_self, ℕ, ◌≡◌,
  refl, sym, ap, ◌∙◌, ◌≢◌, inl, inr, Bool, true, List, [], ◌∷◌, ◌++◌, some, arith, ◌==◌, Bool-cases,
  ==_iff, Option-cases, length, get_elem?, set,
}

pub ++_nil : (xs : List ℕ) → xs ++ [] ≡ xs
++_nil [] = refl
++_nil (x ∷ xs) = ap (λ w. x ∷ w) (++_nil xs)

node-ok : (fs : Vfs) (i : ℕ) {n : Node} → node fs i ≡ ok n → get_elem? fs.nodes i ≡ some n
unfolding node
node-ok fs i e = elim (Option-cases (get_elem? fs.nodes i)) [
  | inl h ↦ let impossible = rw (h, node) at e in absurd (cc)
  | inr (m, h) ↦ h ∙ ap some (ok-inj (rw (h, node) at e))
]

node-some : (fs : Vfs) (i : ℕ) {n : Node} → get_elem? fs.nodes i ≡ some n → node fs i ≡ ok n
unfolding node
node-some fs i e = rw (e, node) refl

node_of : (x y : Vfs) (j : ℕ) → get_elem? x.nodes j ≡ get_elem? y.nodes j → node x j ≡ node y j
unfolding node
node_of x y j e = rw (e, node) refl

-- A lookup in the arena gives no error, so one behind it is the error of what follows.
node-err {ℓ} :
    {B : Type ℓ} (fs : Vfs) (i : ℕ) (f : Node → Outcome B) {e : Error}
    → node fs i >>= f ≡ err e
    → (n : Node) × (node fs i ≡ ok n) × (f n ≡ err e)
unfolding node
node-err fs i f e = elim (Option-cases (get_elem? fs.nodes i)) [
  | inl h ↦ let impossible = rw (h, node) at e in absurd (cc)
  | inr (n, h) ↦ (n, rw (h, node) refl, rw (h, node) at e)
]

eq_bytes_refl : (b : Bytes) → eq_bytes b b ≡ true
unfolding eq_bytes
eq_bytes_refl [] = refl
eq_bytes_refl (x ∷ xs) = ground (arith, eq_bytes_refl xs)

-- What an edit that does not panic does.
pub record Edited (fs : Vfs) (i : ℕ) (f : Node → Node) (fs' : Vfs) : Type 0 where
  pub was : Node
  pub here : node fs i ≡ ok was
  pub now : node fs' i ≡ ok (f was)
  pub other : (j : ℕ) → i ≢ j → node fs' j ≡ node fs j
  pub cwd : fs'.cwd ≡ fs.cwd

pub edit-Edited :
    (fs fs' : Vfs) (i : ℕ) (f : Node → Node) → edit fs i f ≡ ok fs' → Edited fs i f fs'
unfolding edit
edit-Edited fs fs' i f e =
    let (n, at, made) = bind-ok (node fs i) _ e in
    let bound = get_elem?-lt fs.nodes i (node-ok fs i at) in
    let after = record fs { nodes = set fs.nodes i (f n) } in
    rw⁻¹ (ok-inj made) (record {
      was = n;
      here = at;
      now = node-some after i (get_elem?-set_self fs.nodes i (f n) bound);
      other = λ j h. node_of after fs j (get_elem?-set_ne fs.nodes (f n) h);
      cwd = refl;
    })

pub Kept-refl : (n : Node) → Kept n n
Kept-refl n = record { name = refl; parent = refl; extra = []; children = sym (++_nil n.children) }

++_assoc : (xs ys zs : List ℕ) → (xs ++ ys) ++ zs ≡ xs ++ (ys ++ zs)
++_assoc [] ys zs = refl
++_assoc (x ∷ xs) ys zs = ap (λ w. x ∷ w) (++_assoc xs ys zs)

pub Extends-trans : (a b c : Vfs) → Extends a b → Extends b c → Extends a c
Extends-trans a b c x y i n at =
    let (m, at1, k1) = x i n at in
    let (l, at2, k2) = y i m at1 in
    (
      l,
      at2,
      record {
        name = k2.name ∙ k1.name;
        parent = k2.parent ∙ k1.parent;
        extra = k1.extra ++ k2.extra;
        children =
            k2.children
            ∙ ap (λ w. w ++ k2.extra) k1.children
            ∙ ++_assoc n.children k1.extra k2.extra;
      },
    )

pub Edited-Extends :
    (fs fs' : Vfs) (i : ℕ) (f : Node → Node)
    → Edited fs i f fs'
    → ((n : Node) → Kept n (f n))
    → Extends fs fs'
Edited-Extends fs fs' i f e k j n at = elim (Bool-cases (i == j)) [
  | inl h ↦
      let same : i ≡ j = (==_iff i j).0 h in
      let was : e.was ≡ n = ok-inj (sym e.here ∙ ap (λ x. node fs x) same ∙ at) in
      (f n, ap (λ x. node fs' x) (sym same) ∙ e.now ∙ ap (λ m. ok (f m)) was, k n)
  | inr h ↦ (n, e.other j (λ q. absurd (ground (arith, q, h))) ∙ at, Kept-refl n)
]

abbrev push : Vfs → Node → Vfs
push fs n = record fs { nodes = fs.nodes ++ (n ∷ []) }

node-push : (fs : Vfs) (m : Node) (j : ℕ) {n : Node} → node fs j ≡ ok n → node (push fs m) j ≡ ok n
node-push fs m j at =
    node-some (push fs m) j (get_elem?-append fs.nodes (m ∷ []) j (node-ok fs j at))

-- What `add` does below a parent that exists.
pub record Added (fs : Vfs) (parent : ℕ) (name : Bytes) (is_dir : Bool) (idx : ℕ) (fs' : Vfs)
    : Type 0 where
  pub extends : Extends fs fs'
  pub fresh : Node
  pub named : fresh.name ≡ name
  pub kind : fresh.is_dir ≡ is_dir
  pub there : node fs' idx ≡ ok fresh
  pub above : Node
  pub was : node fs parent ≡ ok above
  pub below : node fs' parent ≡ ok (record above { children = above.children ++ (idx ∷ []) })
  pub cwd : fs'.cwd ≡ fs.cwd

pub add-Added :
    (fs fs' : Vfs) (parent idx now : ℕ) (name : Bytes) (is_dir : Bool) {p : Node}
    → node fs parent ≡ ok p
    → add fs parent name is_dir now ≡ ok (idx, fs')
    → Added fs parent name is_dir idx fs'
unfolding add
add-Added fs fs' parent idx now name is_dir {p} v e =
    let (after, made, out) = bind-ok _ _ e in
    let fresh : Node = record {
      name = name;
      is_dir = is_dir;
      children = [];
      content = [];
      mtime = now;
      parent = parent;
    } in
    let at : length fs.nodes ≡ idx = ap (λ p. p.0) (ok-inj out) in
    let d = edit-Edited (push fs fresh) fs' parent _ (made ∙ ap ok (ap (λ p. p.1) (ok-inj out))) in
    let lt = get_elem?-lt fs.nodes parent (node-ok fs parent v) in
    let was : d.was ≡ p = ok-inj (sym d.here ∙ node-push fs fresh parent v) in
    record {
      extends = λ j n h.
          Edited-Extends (push fs fresh) fs' parent _ d
            (λ m. record {
              name = refl;
              parent = refl;
              extra = length fs.nodes ∷ [];
              children = refl;
            })
            j n (node-push fs fresh j h);
      fresh = fresh;
      named = refl;
      kind = refl;
      there =
          d.other idx (λ q. omega (arith, q, at, lt))
          ∙ node-some (push fs fresh) idx (
              ap (λ i. get_elem? (push fs fresh).nodes i) (sym at) ∙ get_elem?-last fs.nodes fresh);
      above = p;
      was = v;
      below =
          d.now
          ∙ ap (λ (m, i). ok (record m { children = m.children ++ (i ∷ []) })) (λ i. (was i, at i));
      cwd = d.cwd;
    }

-- A name that no child has is found behind the children.
find-added :
    (fs fs' : Vfs) (name : Bytes) (idx : ℕ) {n : Node} (cs : List ℕ) {e : Error}
    → Extends fs fs'
    → node fs' idx ≡ ok n
    → eq_bytes n.name name ≡ true
    → find fs name cs ≡ err e
    → find fs' name (cs ++ (idx ∷ [])) ≡ ok idx
unfolding find
find-added fs fs' name idx [] x at same e = rw (at, same) refl
find-added fs fs' name idx (c ∷ cs) x at same e =
    let (m, here, rest) = node-err fs c _ e in
    let (m', here', k) = x c m here in
    rw (here', k.name)
      (elim (Bool-cases (eq_bytes m.name name)) [
        | inl h ↦ let impossible = rw h at rest in absurd (cc)
        | inr h ↦ rw h (find-added fs fs' name idx cs x at same (rw h at rest))
      ])

pub child-Added :
    (fs fs' : Vfs) (parent idx : ℕ) (name : Bytes) (is_dir : Bool) {e : Error}
    → child fs parent name ≡ err e
    → Added fs parent name is_dir idx fs'
    → child fs' parent name ≡ ok idx
unfolding child
child-Added fs fs' parent idx name is_dir e a =
    let (m, here, rest) = node-err fs parent _ e in
    let same : m ≡ a.above = ok-inj (sym here ∙ a.was) in
    rw a.below (
      find-added fs fs' name idx a.above.children a.extends a.there
        (ap (λ w. eq_bytes w name) a.named ∙ eq_bytes_refl name)
        (ap (λ w. find fs name w.children) (sym same) ∙ rest))
