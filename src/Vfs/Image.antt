-- ===== src/Vfs/Image.antt =====
-- Listing, absolute paths, and the disk image of the filesystem (src/vfs.rs).
use veil_os.Vfs.{
  eq_bytes, Outcome, ok, err, panic, ◌>>=◌, missing, too_large, Bytes, slash, Node, Vfs, node, edit,
  resolve,
}
use veil_os.Base.{
  replicate, ℕ, zero, suc, ◌+◌, ◌-◌, ◌*◌, ◌/◌, ◌%◌, Bool, true, false, not, ◌&&◌, ◌||◌, List, [],
  ◌∷◌, ◌++◌, ltb, leb, ◌==◌, if◌then◌else◌, length, take, drop,
}

-- An entry of a listing: name, directory flag, size.
abbrev pub Entry : Type 0
Entry = Bytes × Bool × ℕ

unfoldable pub entry : Node → Entry
entry n = (n.name, n.is_dir, length n.content)

-- The order of `str::cmp`: by bytes.
unfoldable pub before : Bytes → Bytes → Bool
before [] ys = true
before (x ∷ xs) [] = false
before (x ∷ xs) (y ∷ ys) = ltb x y || ((x == y) && before xs ys)

unfoldable pub place : Entry → List Entry → List Entry
place e [] = e ∷ []
place e (x ∷ xs) = let rest = place e xs in if before e.0 x.0 then e ∷ x ∷ xs else x ∷ rest

-- `sort_by` on the names, which is stable.
unfoldable pub sort_by : List Entry → List Entry
sort_by [] = []
sort_by (e ∷ es) = place e (sort_by es)

unfoldable pub entries : Vfs → List ℕ → Outcome (List Entry)
entries fs [] = ok []
entries fs (c ∷ cs) = node fs c >>= λ n. entries fs cs >>= λ rest. ok (entry n ∷ rest)

unfoldable pub ls : Vfs → Bytes → Outcome (List Entry)
ls fs path = resolve fs path >>= λ idx. node fs idx >>= λ n.
    if not n.is_dir
    then ok ((n.name, false, length n.content) ∷ [])
    else (entries fs n.children >>= λ es. ok (sort_by es))

-- The names on the way up to the root, from the outermost. A node's parent has a smaller index, so
-- the index is enough fuel; `panic` is a walk that does not end.
unfoldable pub climb : ℕ → Vfs → ℕ → List Bytes → Outcome (List Bytes)
climb zero fs idx parts = if idx == 0 then ok parts else panic
climb (suc fuel) fs idx parts =
    if idx == 0 then ok parts else (node fs idx >>= λ n. climb fuel fs n.parent (n.name ∷ parts))

-- A slash before each part.
unfoldable pub join : List Bytes → Bytes
join [] = []
join (p ∷ ps) = slash ∷ (p ++ join ps)

unfoldable pub path_of : Vfs → ℕ → Outcome Bytes
path_of fs idx =
    if idx == 0 then ok (slash ∷ []) else (climb idx fs idx [] >>= λ parts. ok (join parts))

unfoldable pub cwd_path : Vfs → Outcome Bytes
cwd_path fs = path_of fs fs.cwd

-- `to_le_bytes` and `from_le_bytes` of a word of `w` bytes.
unfoldable pub to_le_bytes : ℕ → ℕ → Bytes
to_le_bytes zero v = []
to_le_bytes (suc w) v = v % 256 ∷ to_le_bytes w (v / 256)

unfoldable pub from_le_bytes : Bytes → ℕ
from_le_bytes [] = 0
from_le_bytes (b ∷ bs) = b + 256 * from_le_bytes bs

unfoldable pub put_str : Bytes → Bytes
put_str s = to_le_bytes 2 (length s) ++ s

unfoldable pub bool_byte : Bool → ℕ
bool_byte true = 1
bool_byte false = 0

-- The part of a node's image that files and directories share.
unfoldable pub ser_head : Node → Bytes
ser_head n = put_str n.name ++ (bool_byte n.is_dir ∷ to_le_bytes 8 n.mtime)

unfoldable pub ser_children : (ℕ → Outcome Bytes) → List ℕ → Outcome Bytes
ser_children ser [] = ok []
ser_children ser (c ∷ cs) = ser c >>= λ b. ser_children ser cs >>= λ bs. ok (b ++ bs)

-- The recursion of the source is on the depth of the tree, for which `fuel` stands.
unfoldable pub ser_node : ℕ → Vfs → ℕ → Outcome Bytes
ser_node zero fs idx = panic
ser_node (suc fuel) fs idx = node fs idx >>= λ n.
    if n.is_dir
    then (ser_children (λ c. ser_node fuel fs c) n.children >>= λ below.
        ok (ser_head n ++ (to_le_bytes 4 (length n.children) ++ below)))
    else ok (ser_head n ++ (to_le_bytes 4 (length n.content) ++ n.content))

-- A child has a larger index than its parent, so the number of nodes is enough.
unfoldable pub serialize : Vfs → Outcome Bytes
serialize fs = ser_node (length fs.nodes) fs 0

-- `b.get(p..p + n)?`, with the bytes from `p` on in place of `p`: those read, and those left.
unfoldable pub get : ℕ → Bytes → Outcome (Bytes × Bytes)
get n b = if leb n (length b) then ok (take n b, drop n b) else err missing

unfoldable pub get_word : ℕ → Bytes → Outcome (ℕ × Bytes)
get_word w b = get w b >>= λ (bs, rest). ok (from_le_bytes bs, rest)

module _ (from_utf8 : Bytes → Bool) where
  unfoldable pub get_str : Bytes → Outcome (Bytes × Bytes)
  get_str b = get_word 2 b >>= λ (len, b1).
      get len b1 >>= λ (s, b2). if from_utf8 s then ok (s, b2) else err missing

  -- The name, the flag and the time of a node.
  unfoldable pub de_head : Bytes → Outcome ((Bytes × Bool × ℕ) × Bytes)
  de_head b = get_str b >>= λ (name, b1). get_word 1 b1 >>= λ (flag, b2).
      get_word 8 b2 >>= λ (mtime, b3). ok ((name, not (flag == 0), mtime), b3)

  unfoldable pub de_children :
      (Vfs → Bytes → Outcome (ℕ × Bytes × Vfs)) → ℕ → Vfs → Bytes → ℕ → Outcome (Bytes × Vfs)
  de_children de zero fs b idx = ok (b, fs)
  de_children de (suc n) fs b idx = de fs b >>= λ (c, b1, fs1).
      edit fs1 idx (λ f. record f { children = f.children ++ (c ∷ []) }) >>= λ fs2.
      de_children de n fs2 b1 idx

  unfoldable pub de_node : ℕ → Vfs → Bytes → ℕ → Outcome (ℕ × Bytes × Vfs)
  de_node zero fs b parent = panic
  de_node (suc fuel) fs b parent = de_head b >>= λ ((name, is_dir, mtime), b1).
      let idx = length fs.nodes in
      let fresh : Node = record {
        name = name;
        is_dir = is_dir;
        children = [];
        content = [];
        mtime = mtime;
        parent = parent;
      } in
      let pushed : Vfs = record fs { nodes = fs.nodes ++ (fresh ∷ []) } in
      get_word 4 b1 >>= λ (n, b2).
      if is_dir
      then (de_children (λ now b. de_node fuel now b idx) n pushed b2 idx >>= λ (b3, after).
          ok (idx, b3, after))
      else (get n b2 >>= λ (bytes, b3).
          edit pushed idx (λ f. record f { content = bytes }) >>= λ after. ok (idx, b3, after))

  -- A node takes bytes of the image, so one step for each byte is enough.
  unfoldable pub deserialize : Bytes → Outcome Vfs
  deserialize bytes =
      de_node (suc (length bytes)) (record { nodes = []; cwd = 0 }) bytes 0 >>= λ (idx, rest, fs).
      ok fs

abbrev pub sector : ℕ
sector = 512

abbrev pub vfs_sectors : ℕ
vfs_sectors = 4096

-- "VEILFS01".
abbrev pub magic : Bytes
magic = 86 ∷ 69 ∷ 73 ∷ 76 ∷ 70 ∷ 83 ∷ 48 ∷ 49 ∷ []

unfoldable pub sectors_for : ℕ → ℕ
sectors_for len = (12 + len + (sector - 1)) / sector

-- What `persist` writes from the start of the region on.
unfoldable pub persist : Vfs → Outcome Bytes
persist fs = serialize fs >>= λ image.
    let len = length image in
    if ltb (vfs_sectors * sector) (len + 12)
    then err too_large
    else ok (
        magic
        ++ (to_le_bytes 4 len ++ (image ++ replicate (sectors_for len * sector - (12 + len)) 0)))

unfoldable pub home_of : Bytes → Bytes
home_of user = slash ∷ 104 ∷ 111 ∷ 109 ∷ 101 ∷ slash ∷ user

-- `unwrap_or(0)`.
unfoldable pub or_root : Outcome ℕ → Outcome ℕ
or_root (ok idx) = ok idx
or_root (err e) = ok 0
or_root panic = panic

-- `region` is what the disk holds from the start of the region on.
unfoldable pub load : (Bytes → Bool) → Bytes → Bytes → Outcome Vfs
load from_utf8 region user =
    let hdr = take sector region in
    if not (eq_bytes (take 8 hdr) magic)
    then err missing
    else let len = from_le_bytes (take 4 (drop 8 hdr)) in
      if (len == 0) || ltb (vfs_sectors * sector) len
      then err missing
      else let buf = take (sectors_for len * sector) region in
        deserialize from_utf8 (take len (drop 12 buf)) >>= λ fs.
        or_root (resolve fs (home_of user)) >>= λ home. ok (record fs { cwd = home })
