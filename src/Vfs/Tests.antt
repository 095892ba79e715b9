-- ===== src/Vfs/Tests.antt =====
-- Runs of the filesystem (src/vfs.rs) at small trees.
use veil_os.Vfs.{
  Outcome, ok, err, panic, ◌>>=◌, ok_or, missing, Bytes, Vfs, node, edit, child, find, enter, walk,
  start_of, resolve, split, split_push, is_absolute, cut, cut_push, trim_end, trim_push, parent_of,
  split_parent, open_file, write_in, write, read, eq_bytes, empty, add, make, make_all, mkdir_p,
  enter_or_add,
}
use veil_os.Vfs.Image.{
  serialize, ser_node, ser_children, ser_head, put_str, bool_byte, to_le_bytes, from_le_bytes, get,
  get_word, get_str, de_head, de_children, de_node, deserialize, path_of, climb, join,
}
use veil_os.Vfs.Write.{Written, write-Written}
use veil_os.Base.{ℕ, ◌≡◌, refl, true, [], ◌∷◌}

abbrev or_empty : Outcome (ℕ × Vfs) → Vfs
or_empty (ok (idx, fs)) = fs
or_empty (err e) = empty 0
or_empty panic = empty 0

-- "/ab/c"
abbrev file_path : Bytes
file_path = 47 ∷ 97 ∷ 98 ∷ 47 ∷ 99 ∷ []

-- The tree with the directory /ab.
abbrev tree : Vfs
tree = or_empty (mkdir_p (empty 5) (47 ∷ 97 ∷ 98 ∷ []) 6)

abbrev filled : Vfs
filled = or_empty (write tree file_path (1 ∷ 2 ∷ []) 7)

read_back : read filled file_path ≡ ok (1 ∷ 2 ∷ [])
unfolding empty write mkdir_p make_all make enter_or_add enter child find node edit add split
    split_push is_absolute cut cut_push trim_end trim_push parent_of split_parent open_file write_in
    ok_or eq_bytes start_of resolve walk read serialize ser_node ser_children ser_head put_str
    bool_byte to_le_bytes from_le_bytes get get_word get_str de_head de_children de_node deserialize
    path_of climb join
read_back = refl

-- A file named `..` can be made, and no path leads to it.
dotdot_is_lost :
    read (or_empty (write tree (47 ∷ 46 ∷ 46 ∷ []) (1 ∷ []) 7)) (47 ∷ 46 ∷ 46 ∷ []) ≡ err missing
unfolding empty write mkdir_p make_all make enter_or_add enter child find node edit add split
    split_push is_absolute cut cut_push trim_end trim_push parent_of split_parent open_file write_in
    ok_or eq_bytes start_of resolve walk read serialize ser_node ser_children ser_head put_str
    bool_byte to_le_bytes from_le_bytes get get_word get_str de_head de_children de_node deserialize
    path_of climb join
dotdot_is_lost = refl

image_back : (serialize filled >>= λ b. deserialize (λ s. true) b) ≡ ok filled
unfolding empty write mkdir_p make_all make enter_or_add enter child find node edit add split
    split_push is_absolute cut cut_push trim_end trim_push parent_of split_parent open_file write_in
    ok_or eq_bytes start_of resolve walk read serialize ser_node ser_children ser_head put_str
    bool_byte to_le_bytes from_le_bytes get get_word get_str de_head de_children de_node deserialize
    path_of climb join
image_back = refl

path_back : path_of filled 2 ≡ ok file_path
unfolding empty write mkdir_p make_all make enter_or_add enter child find node edit add split
    split_push is_absolute cut cut_push trim_end trim_push parent_of split_parent open_file write_in
    ok_or eq_bytes start_of resolve walk read serialize ser_node ser_children ser_head put_str
    bool_byte to_le_bytes from_le_bytes get get_word get_str de_head de_children de_node deserialize
    path_of climb join
path_back = refl

write-Written_example : Written tree file_path (1 ∷ 2 ∷ []) 2 filled
unfolding empty write mkdir_p make_all make enter_or_add enter child find node edit add split
    split_push is_absolute cut cut_push trim_end trim_push parent_of split_parent open_file write_in
    ok_or eq_bytes start_of resolve walk
write-Written_example = write-Written tree file_path (1 ∷ 2 ∷ []) 7 (refl, refl) refl
