-- ===== src/Vfs.antt =====
-- The hierarchical filesystem (src/vfs.rs): an arena of nodes under indices, and its disk image.
-- A `String` is the list of its bytes. An index out of bounds is a panic.
pub mod Image
mod Paths
mod Write
mod Nodes
mod Walk
mod Tests
use veil_os.Base.{
  ℕ, zero, suc, ◌+◌, ◌-◌, ◌*◌, ◌/◌, ◌%◌, ◌^◌, ◌≤◌, ◌<◌, min, max, ◌≡◌, refl, sym, ap, ◌∙◌, ◌≢◌, ◌↔◌,
  ◌⊎◌, inl, inr, Bool, true, false, not, ◌&&◌, ◌||◌, List, [], ◌∷◌, ◌++◌, map, Option, none, some,
  arith, ltb, leb, ◌==◌, if◌then◌else◌, Bool-cases, Option-cases, length, length-append, length-set,
  get_elem?, set, get_or, take, drop,
}

-- A result of the source: `Ok` and `Some` are `ok`; `None` is the error `missing`.
pub data Error : Type 0 where
  missing : Error
  bad_path : Error
  not_a_directory : Error
  file_exists : Error
  is_a_directory : Error
  no_such_directory : Error
  no_such_file : Error
  cannot_remove_root : Error
  directory_not_empty : Error
  too_large : Error

pub data Outcome {ℓ} (A : Type ℓ) : Type ℓ where
  ok : A → Outcome A
  err : Error → Outcome A
  panic : Outcome A

infixl 5 ◌>>=◌
abbrev pub ◌>>=◌ {ℓ κ} : {A : Type ℓ} {B : Type κ} → Outcome A → (A → Outcome B) → Outcome B
ok a >>= f = f a
err e >>= f = err e
panic >>= f = panic

-- `ok_or`, of an `Option`.
unfoldable pub ok_or {ℓ} : {A : Type ℓ} → Outcome A → Error → Outcome A
ok_or (ok a) e = ok a
ok_or (err x) e = err e
ok_or panic e = panic

abbrev pub Bytes : Type 0
Bytes = List ℕ

unfoldable pub eq_bytes : Bytes → Bytes → Bool
eq_bytes [] [] = true
eq_bytes [] (y ∷ ys) = false
eq_bytes (x ∷ xs) [] = false
eq_bytes (x ∷ xs) (y ∷ ys) = (x == y) && eq_bytes xs ys

abbrev pub slash : ℕ
slash = 47

abbrev pub dot : Bytes
dot = 46 ∷ []

abbrev pub dotdot : Bytes
dotdot = 46 ∷ 46 ∷ []

pub record Node : Type 0 where
  pub name : Bytes
  pub is_dir : Bool
  pub children : List ℕ
  pub content : Bytes
  pub mtime : ℕ
  pub parent : ℕ

pub record Vfs : Type 0 where
  pub nodes : List Node
  pub cwd : ℕ

-- `nodes[i]`.
unfoldable pub node : Vfs → ℕ → Outcome Node
node fs i = elim (get_elem? fs.nodes i) [ none ↦ panic | some n ↦ ok n ]

unfoldable pub edit : Vfs → ℕ → (Node → Node) → Outcome Vfs
edit fs i f = node fs i >>= λ n. ok (record fs { nodes = set fs.nodes i (f n) })

-- The filesystem with only a root.
unfoldable pub empty : ℕ → Vfs
empty now =
    let root : Node = record {
      name = slash ∷ [];
      is_dir = true;
      children = [];
      content = [];
      mtime = now;
      parent = 0;
    } in
    record { nodes = root ∷ []; cwd = 0 }

-- `path.split('/')`.
unfoldable pub split_push : ℕ → List Bytes → List Bytes
split_push c [] = (c ∷ []) ∷ []
split_push c (s ∷ rest) = (c ∷ s) ∷ rest

unfoldable pub split : Bytes → List Bytes
split [] = [] ∷ []
split (c ∷ cs) = let rest = split cs in if c == slash then [] ∷ rest else split_push c rest

unfoldable pub is_absolute : Bytes → Bool
is_absolute [] = false
is_absolute (c ∷ cs) = c == slash

-- The first of the children that has the name.
unfoldable pub find : Vfs → Bytes → List ℕ → Outcome ℕ
find fs name [] = err missing
find fs name (c ∷ cs) =
    let rest = find fs name cs in node fs c >>= λ n. if eq_bytes n.name name then ok c else rest

unfoldable pub child : Vfs → ℕ → Bytes → Outcome ℕ
child fs dir name = node fs dir >>= λ n. find fs name n.children

-- One component of a path, from the node `cur`.
unfoldable pub enter : Vfs → ℕ → Bytes → Outcome ℕ
enter fs cur comp =
    if eq_bytes comp [] || eq_bytes comp dot
    then ok cur
    else if eq_bytes comp dotdot
    then (node fs cur >>= λ n. ok n.parent)
    else child fs cur comp

unfoldable pub walk : Vfs → ℕ → List Bytes → Outcome ℕ
walk fs cur [] = ok cur
walk fs cur (comp ∷ rest) = enter fs cur comp >>= λ next. walk fs next rest

unfoldable pub start_of : Vfs → Bytes → ℕ
start_of fs path = if is_absolute path then 0 else fs.cwd

unfoldable pub resolve : Vfs → Bytes → Outcome ℕ
resolve fs path = walk fs (start_of fs path) (split path)

-- `trim_end_matches('/')`.
unfoldable pub trim_push : ℕ → Bytes → Bytes
trim_push c [] = if c == slash then [] else c ∷ []
trim_push c (x ∷ xs) = c ∷ x ∷ xs

unfoldable pub trim_end : Bytes → Bytes
trim_end [] = []
trim_end (c ∷ cs) = trim_push c (trim_end cs)

-- The path up to its last slash, and what comes after it.
unfoldable pub cut_push : ℕ → Bytes × Bytes → Bytes × Bytes
cut_push c ([], name) = if c == slash then (c ∷ [], name) else ([], c ∷ name)
cut_push c (d ∷ ds, name) = (c ∷ d ∷ ds, name)

unfoldable pub cut : Bytes → Bytes × Bytes
cut [] = ([], [])
cut (c ∷ cs) = cut_push c (cut cs)

-- A directory part and a name; the part is empty or ends in a slash.
unfoldable pub parent_of : Vfs → Bytes × Bytes → Outcome (ℕ × Bytes)
parent_of fs (dir, []) = err missing
parent_of fs ([], c ∷ cs) = ok (fs.cwd, c ∷ cs)
parent_of fs (d ∷ ds, c ∷ cs) = resolve fs (d ∷ ds) >>= λ parent. ok (parent, c ∷ cs)

unfoldable pub split_parent : Vfs → Bytes → Outcome (ℕ × Bytes)
split_parent fs path = parent_of fs (cut (trim_end path))

unfoldable pub add : Vfs → ℕ → Bytes → Bool → ℕ → Outcome (ℕ × Vfs)
add fs parent name is_dir now =
    let idx = length fs.nodes in
    let fresh : Node = record {
      name = name;
      is_dir = is_dir;
      children = [];
      content = [];
      mtime = now;
      parent = parent;
    } in
    edit (record fs { nodes = fs.nodes ++ (fresh ∷ []) }) parent
      (λ n. record n { children = n.children ++ (idx ∷ []) })
    >>= λ after. ok (idx, after)

-- `mkdir` once the parent is known to be a directory.
unfoldable pub mkdir_in : Vfs → ℕ → Bytes → ℕ → Outcome ℕ → Outcome (ℕ × Vfs)
mkdir_in fs parent name now (ok c) =
    node fs c >>= λ n. if n.is_dir then ok (c, fs) else err file_exists
mkdir_in fs parent name now (err e) = add fs parent name true now
mkdir_in fs parent name now panic = panic

unfoldable pub mkdir : Vfs → Bytes → ℕ → Outcome (ℕ × Vfs)
mkdir fs path now = ok_or (split_parent fs path) bad_path >>= λ (parent, name).
    node fs parent >>= λ p.
    if p.is_dir then mkdir_in fs parent name now (child fs parent name) else err not_a_directory

-- One component of `mkdir -p`.
unfoldable pub enter_or_add : Vfs → ℕ → Bytes → ℕ → Outcome ℕ → Outcome (ℕ × Vfs)
enter_or_add fs cur name now (ok c) = ok (c, fs)
enter_or_add fs cur name now (err e) = add fs cur name true now
enter_or_add fs cur name now panic = panic

unfoldable pub make : Vfs → ℕ → Bytes → ℕ → Outcome (ℕ × Vfs)
make fs cur comp now =
    if eq_bytes comp [] || eq_bytes comp dot
    then ok (cur, fs)
    else if eq_bytes comp dotdot
    then (node fs cur >>= λ n. ok (n.parent, fs))
    else enter_or_add fs cur comp now (child fs cur comp)

unfoldable pub make_all : Vfs → ℕ → List Bytes → ℕ → Outcome (ℕ × Vfs)
make_all fs cur [] now = ok (cur, fs)
make_all fs cur (comp ∷ rest) now =
    make fs cur comp now >>= λ (next, after). make_all after next rest now

unfoldable pub mkdir_p : Vfs → Bytes → ℕ → Outcome (ℕ × Vfs)
mkdir_p fs path now = make_all fs (start_of fs path) (split path) now

-- The node that `write` fills: the file of that name, or a new one.
unfoldable pub open_file : Vfs → ℕ → Bytes → ℕ → Outcome ℕ → Outcome (ℕ × Vfs)
open_file fs parent name now (ok c) =
    node fs c >>= λ n. if n.is_dir then err is_a_directory else ok (c, fs)
open_file fs parent name now (err e) = add fs parent name false now
open_file fs parent name now panic = panic

unfoldable pub write_in : Vfs → ℕ → Bytes → Bytes → ℕ → Outcome (ℕ × Vfs)
write_in fs parent name bytes now =
    open_file fs parent name now (child fs parent name) >>= λ (idx, opened).
    edit opened idx (λ n. record n { content = bytes; mtime = now }) >>= λ after. ok (idx, after)

unfoldable pub write : Vfs → Bytes → Bytes → ℕ → Outcome (ℕ × Vfs)
write fs path bytes now = ok_or (split_parent fs path) bad_path >>= λ (parent, name).
    node fs parent >>= λ p.
    if p.is_dir then write_in fs parent name bytes now else err not_a_directory

unfoldable pub read : Vfs → Bytes → Outcome Bytes
read fs path =
    resolve fs path >>= λ idx. node fs idx >>= λ n. if n.is_dir then err missing else ok n.content

unfoldable pub cd : Vfs → Bytes → Outcome Vfs
cd fs path = ok_or (resolve fs path) no_such_directory >>= λ idx.
    node fs idx >>= λ n. if n.is_dir then ok (record fs { cwd = idx }) else err not_a_directory

-- `retain(|&c| c != idx)`.
unfoldable pub without : ℕ → List ℕ → List ℕ
without idx [] = []
without idx (c ∷ cs) = let rest = without idx cs in if c == idx then rest else c ∷ rest

unfoldable pub is_leaf : Node → Bool
is_leaf n = elim n.children [ [] ↦ true | c ∷ cs ↦ false ]

unfoldable pub remove : Vfs → Bytes → Outcome Vfs
remove fs path = ok_or (resolve fs path) no_such_file >>= λ idx.
    if idx == 0
    then err cannot_remove_root
    else node fs idx >>= λ n.
        if n.is_dir && not (is_leaf n)
        then err directory_not_empty
        else edit fs n.parent (λ p. record p { children = without idx p.children })
