-- ===== src/Vfs/Write.antt =====
-- A write puts a file where a read finds it, and leaves the paths that led somewhere (src/vfs.rs).
use veil_os.Vfs.{
  Error, Outcome, ok, err, panic, ok_or, bad_path, Bytes, dot, dotdot, Node, Vfs, node, edit, child,
  enter, start_of, resolve, split, is_absolute, cut, trim_end, parent_of, split_parent, open_file,
  write_in, write, read, eq_bytes,
}
use veil_os.Vfs.Walk.{bind-ok, ok-inj, Extends, walk-Extends, child-Extends, resolve-split_parent}
use veil_os.Vfs.Nodes.{
  edit-Edited, Edited-Extends, Kept-refl, ++_nil, Extends-trans, add-Added, child-Added,
}
use veil_os.Base.{ℕ, ◌≡◌, refl, sym, ap, ◌∙◌, inl, inr, false, [], ◌∷◌, if◌then◌else◌, Bool-cases}

-- Is the last component of the path a name, other than `.` and `..`?
abbrev pub EndsInName : Bytes → Type 0
EndsInName path =
    (eq_bytes (cut (trim_end path)).1 dot ≡ false)
    × (eq_bytes (cut (trim_end path)).1 dotdot ≡ false)

-- What a write of `bytes` to `path` leaves.
pub record Written (fs : Vfs) (path bytes : Bytes) (idx : ℕ) (fs' : Vfs) : Type 0 where
  pub found : resolve fs' path ≡ ok idx
  pub bytes_read : read fs' path ≡ ok bytes
  pub cwd : fs'.cwd ≡ fs.cwd
  pub paths : (p : Bytes) (i : ℕ) → resolve fs p ≡ ok i → resolve fs' p ≡ ok i

ok_or-ok {ℓ} : {A : Type ℓ} (r : Outcome A) (e : Error) {a : A} → ok_or r e ≡ ok a → r ≡ ok a
unfolding ok_or
ok_or-ok (ok x) e h = h
ok_or-ok (err x) e h = absurd (cc)
ok_or-ok panic e h = absurd (cc)

start_of-same : (fs fs' : Vfs) (p : Bytes) → fs'.cwd ≡ fs.cwd → start_of fs' p ≡ start_of fs p
unfolding start_of
start_of-same fs fs' p e = ap (λ c. if is_absolute p then 0 else c) e

resolve-Extends :
    (fs fs' : Vfs) (p : Bytes) {i : ℕ}
    → fs'.cwd ≡ fs.cwd
    → Extends fs fs'
    → resolve fs p ≡ ok i
    → resolve fs' p ≡ ok i
unfolding resolve
resolve-Extends fs fs' p same x e =
    rw (start_of-same fs fs' p same) (walk-Extends fs fs' x (start_of fs p) (split p) e)

parent_of-Extends :
    (fs fs' : Vfs) (r : Bytes × Bytes) {q : ℕ × Bytes}
    → fs'.cwd ≡ fs.cwd
    → Extends fs fs'
    → parent_of fs r ≡ ok q
    → (parent_of fs' r ≡ ok q) × (eq_bytes q.1 [] ≡ false) × (q.1 ≡ r.1)
unfolding parent_of eq_bytes
parent_of-Extends fs fs' (dir, []) same x e = absurd (cc)
parent_of-Extends fs fs' ([], c ∷ cs) same x e =
    let there : ok (fs'.cwd, c ∷ cs) ≡ ok (fs.cwd, c ∷ cs) = ap (λ w. ok (w, c ∷ cs)) same in
    let name = ap (λ w. w.1) (ok-inj e) in (there ∙ e, ap (λ w. eq_bytes w []) (sym name), sym name)
parent_of-Extends fs fs' (d ∷ ds, c ∷ cs) same x e =
    let (p, at, made) = bind-ok (resolve fs (d ∷ ds)) _ e in
    let name = ap (λ w. w.1) (ok-inj made) in
    (
      rw (resolve-Extends fs fs' (d ∷ ds) same x at) made,
      ap (λ w. eq_bytes w []) (sym name),
      sym name,
    )

enter-child :
    (fs : Vfs) (cur : ℕ) (name : Bytes)
    → eq_bytes name [] ≡ false
    → eq_bytes name dot ≡ false
    → eq_bytes name dotdot ≡ false
    → enter fs cur name ≡ child fs cur name
unfolding enter
enter-child fs cur name a b c = rw (a, b, c) refl

-- The file that a write fills: the one of that name below the parent, found or made.
record Opened (fs : Vfs) (parent : ℕ) (name : Bytes) (idx : ℕ) (opened : Vfs) : Type 0 where
  extends : Extends fs opened
  file : Node
  there : node opened idx ≡ ok file
  kind : file.is_dir ≡ false
  found : child opened parent name ≡ ok idx
  cwd : opened.cwd ≡ fs.cwd

open_file-Opened :
    (fs opened : Vfs) (parent idx now : ℕ) (name : Bytes) (r : Outcome ℕ) {p : Node}
    → node fs parent ≡ ok p
    → child fs parent name ≡ r
    → open_file fs parent name now r ≡ ok (idx, opened)
    → Opened fs parent name idx opened
unfolding open_file
open_file-Opened fs opened parent idx now name (ok c) v r e =
    let (n, at, made) = bind-ok (node fs c) _ e in
    elim (Bool-cases n.is_dir) [
      | inl h ↦ let impossible = rw h at made in absurd (cc)
      | inr h ↦
          let pair = ok-inj (rw h at made) in
          rw (sym (ap (λ w. w.0) pair), sym (ap (λ w. w.1) pair))
            (record {
              extends = λ j m q. (m, q, Kept-refl m);
              file = n;
              there = at;
              kind = h;
              found = r;
              cwd = refl;
            })
    ]
open_file-Opened fs opened parent idx now name (err x) v r e =
    let a = add-Added fs opened parent idx now name false v e in
    record {
      extends = a.extends;
      file = a.fresh;
      there = a.there;
      kind = a.kind;
      found = child-Added fs opened parent idx name false r a;
      cwd = a.cwd;
    }
open_file-Opened fs opened parent idx now name panic v r e = absurd (cc)

read-file :
    (fs : Vfs) (path : Bytes) (idx : ℕ) {n : Node}
    → resolve fs path ≡ ok idx
    → node fs idx ≡ ok n
    → n.is_dir ≡ false
    → read fs path ≡ ok n.content
unfolding read
read-file fs path idx e at kind = rw (e, at, kind) refl

write-inner :
    (fs : Vfs) (path bytes : Bytes) (now : ℕ) {q : ℕ × Vfs}
    → write fs path bytes now ≡ ok q
    → (r : ℕ × Bytes) × (p : Node) × (split_parent fs path ≡ ok r)
      × (node fs r.0 ≡ ok p)
      × (write_in fs r.0 r.1 bytes now ≡ ok q)
unfolding write
write-inner fs path bytes now e =
    let (r, took, e1) = bind-ok (ok_or (split_parent fs path) bad_path) _ e in
    let (p, v, e2) = bind-ok (node fs r.0) _ e1 in
    elim (Bool-cases p.is_dir) [
      | inl h ↦ (r, p, ok_or-ok (split_parent fs path) bad_path took, v, rw h at e2)
      | inr h ↦ let impossible = rw h at e2 in absurd (cc)
    ]

abbrev filled : Bytes → ℕ → Node → Node
filled bytes now n = record n { content = bytes; mtime = now }

write_in-inner :
    (fs : Vfs) (parent : ℕ) (name bytes : Bytes) (now : ℕ) {q : ℕ × Vfs}
    → write_in fs parent name bytes now ≡ ok q
    → (opened : Vfs) × (open_file fs parent name now (child fs parent name) ≡ ok (q.0, opened))
      × (edit opened q.0 (filled bytes now) ≡ ok q.1)
unfolding write_in
write_in-inner fs parent name bytes now e =
    let (o, opened, e1) = bind-ok (open_file fs parent name now (child fs parent name)) _ e in
    let (after, made, e2) = bind-ok (edit o.1 o.0 (filled bytes now)) _ e1 in
    let same = ap (λ w. w.0) (ok-inj e2) in
    (
      o.1,
      opened ∙ ap (λ i. ok (i, o.1)) same,
      ap (λ i. edit o.1 i (filled bytes now)) (sym same) ∙ made ∙ ap (λ w. ok w.1) (ok-inj e2),
    )

split_parent-Extends :
    (fs fs' : Vfs) (path : Bytes) {r : ℕ × Bytes}
    → fs'.cwd ≡ fs.cwd
    → Extends fs fs'
    → EndsInName path
    → split_parent fs path ≡ ok r
    → (split_parent fs' path ≡ ok r) × (enter fs' r.0 r.1 ≡ child fs' r.0 r.1)
unfolding split_parent
split_parent-Extends fs fs' path {r} same x (no_dot, no_dotdot) e =
    let (there, some_name, name) = parent_of-Extends fs fs' (cut (trim_end path)) same x e in
    (
      there,
      enter-child fs' r.0 r.1 some_name (ap (λ w. eq_bytes w dot) name ∙ no_dot)
          (ap (λ w. eq_bytes w dotdot) name ∙ no_dotdot),
    )

-- If a write to a path whose last component, trailing slashes apart, is neither `.` nor `..`
-- succeeds, then in the filesystem that it leaves the path resolves to the node that it returns, a
-- read of the path gives the bytes written, the current directory is the same, and every path that
-- led to a node still leads to that node.
pub write-Written :
    (fs : Vfs) (path bytes : Bytes) (now : ℕ) {idx : ℕ} {fs' : Vfs}
    → EndsInName path
    → write fs path bytes now ≡ ok (idx, fs')
    → Written fs path bytes idx fs'
write-Written fs path bytes now {idx} {fs'} named e =
    let ((parent, name), p, took, v, e1) = write-inner fs path bytes now e in
    let (opened, opening, e2) = write_in-inner fs parent name bytes now e1 in
    let o = open_file-Opened fs opened parent idx now name (child fs parent name) v refl opening in
    let d = edit-Edited opened fs' idx (filled bytes now) e2 in
    let kept : Extends opened fs' = Edited-Extends opened fs' idx (filled bytes now) d (λ n.
      record { name = refl; parent = refl; extra = []; children = sym (++_nil n.children) }) in
    let cwd : fs'.cwd ≡ fs.cwd = d.cwd ∙ o.cwd in
    let all = Extends-trans fs opened fs' o.extends kept in
    let (split, step) = split_parent-Extends fs fs' path cwd all named took in
    let found : resolve fs' path ≡ ok idx =
      resolve-split_parent fs' path name parent idx split
        (step ∙ child-Extends opened fs' kept parent name o.found) in
    let file : d.was.is_dir ≡ false = ap (λ w. w.is_dir) (ok-inj (sym d.here ∙ o.there)) ∙ o.kind in
    record {
      found = found;
      bytes_read = read-file fs' path idx found d.now file;
      cwd = cwd;
      paths = λ q i h. resolve-Extends fs fs' q cwd all h;
    }
