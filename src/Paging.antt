-- ===== src/Paging.antt =====
-- The page tables of a process (src/paging.rs): 4 KiB granule, 39-bit addresses, three levels.
-- `words` is the memory that the kernel sees, as the 512 words of the frame at each address.
-- `none` is a panic: no frame is left, or a page is mapped over a block entry.
-- The barriers, the TLB maintenance and the system registers are hardware, and have no part here.
use Prim.Native.Nat.{bit_and, bit_or}
use veil_os.Base.{
  ◌>>=◌, ℕ, zero, suc, ◌+◌, ◌-◌, ◌*◌, ◌/◌, ◌%◌, ◌^◌, Bool, true, false, Option, none, some, ◌==◌,
  if◌then◌else◌,
}
use veil_os.Frames.{Frames, alloc, free as release}

pub record Machine : Type 0 where
  pub frames : Frames
  pub words : ℕ → ℕ → ℕ

-- Descriptor bits.
abbrev pub block_bits : ℕ
block_bits = 1

abbrev pub table_bits : ℕ
table_bits = 3

abbrev pub page_bits : ℕ
page_bits = 3

abbrev pub attr_device : ℕ
attr_device = 0

abbrev pub attr_normal : ℕ
attr_normal = 2 ^ 2

abbrev pub access_flag : ℕ
access_flag = 2 ^ 10

abbrev pub sh_inner : ℕ
sh_inner = 3 * 2 ^ 8

abbrev pub sh_outer : ℕ
sh_outer = 2 * 2 ^ 8

abbrev pub pxn : ℕ
pxn = 2 ^ 53

abbrev pub uxn : ℕ
uxn = 2 ^ 54

abbrev pub ap_el0 : ℕ
ap_el0 = 2 ^ 6

abbrev pub device_flags : ℕ
device_flags = bit_or (bit_or (bit_or (bit_or attr_device access_flag) sh_outer) pxn) uxn

abbrev pub normal_flags : ℕ
normal_flags = bit_or (bit_or attr_normal access_flag) sh_inner

abbrev pub address_mask : ℕ
address_mask = 0x0000_ffff_ffff_f000

-- Writes word `i` of the frame at `pa`.
unfoldable pub store : Machine → ℕ → ℕ → ℕ → Machine
store m pa i w = record m {
  words = λ p j. if p == pa then (if j == i then w else m.words p j) else m.words p j;
}

-- `frames::alloc_zeroed`: a frame whose words are all 0.
unfoldable pub alloc_zeroed : Machine → Option (ℕ × Machine)
alloc_zeroed m =
    let (pa, fs) = alloc m.frames in
    elim pa [
      | none ↦ none
      | some p ↦ some (p, record { frames = fs; words = λ q j. if q == p then 0 else m.words q j })
    ]

unfoldable pub free_frame : Machine → ℕ → Machine
free_frame m pa = record m { frames = release m.frames pa 1 }

-- A mapper is the address of its L1 table.
unfoldable pub new : Machine → Option (ℕ × Machine)
new m = alloc_zeroed m

abbrev pub l1_index : ℕ → ℕ
l1_index va = va / 2 ^ 30 % 512

abbrev pub l2_index : ℕ → ℕ
l2_index va = va / 2 ^ 21 % 512

abbrev pub l3_index : ℕ → ℕ
l3_index va = va / 2 ^ 12 % 512

-- The table that entry `i` of the table at `pa` points to, made on demand.
unfoldable pub child_table : Machine → ℕ → ℕ → Option (ℕ × Machine)
child_table m pa i =
    let entry = m.words pa i in
    if bit_and entry 1 == 0
    then (do (child, m') ← alloc_zeroed m; some (child, store m' pa i (bit_or child table_bits)))
    else if bit_and entry 3 == table_bits
    then some (bit_and entry address_mask, m)
    else none

abbrev pub kernel_flags : Bool → ℕ
kernel_flags device = if device then device_flags else normal_flags

unfoldable pub map_block_1g : Machine → ℕ → ℕ → ℕ → Bool → Machine
map_block_1g m root va pa device =
    store m root (l1_index va) (bit_or (bit_or pa block_bits) (kernel_flags device))

unfoldable pub map_block_2m : Machine → ℕ → ℕ → ℕ → Bool → Option Machine
map_block_2m m root va pa device = do
  (l2, m1) ← child_table m root (l1_index va)
  some (store m1 l2 (l2_index va) (bit_or (bit_or pa block_bits) (kernel_flags device)))

-- Writes the L3 entry of `va`, with the tables on the way.
unfoldable pub map_leaf : Machine → ℕ → ℕ → ℕ → Option Machine
map_leaf m root va entry = do
  (l2, m1) ← child_table m root (l1_index va)
  (l3, m2) ← child_table m1 l2 (l2_index va)
  some (store m2 l3 (l3_index va) entry)

unfoldable pub map_page : Machine → ℕ → ℕ → ℕ → Bool → Option Machine
map_page m root va pa device =
    map_leaf m root va (bit_or (bit_or pa page_bits) (kernel_flags device))

unfoldable pub user_flags : Bool → ℕ
user_flags exec =
    let flags = bit_or (bit_or (bit_or (bit_or attr_normal access_flag) sh_inner) ap_el0) pxn in
    if exec then flags else bit_or flags uxn

unfoldable pub map_user_page : Machine → ℕ → ℕ → ℕ → Bool → Option Machine
map_user_page m root va pa exec =
    map_leaf m root va (bit_or (bit_or pa page_bits) (user_flags exec))

-- for i in 0..4 { dst[i] = src[i] }
unfoldable pub clone_kernel : Machine → ℕ → Option (ℕ × Machine)
clone_kernel m kernel_root = do
  (root, m0) ← new m
  let m1 = store m0 root 0 (m0.words kernel_root 0)
  let m2 = store m1 root 1 (m1.words kernel_root 1)
  let m3 = store m2 root 2 (m2.words kernel_root 2)
  some (root, store m3 root 3 (m3.words kernel_root 3))

-- The pages of the L3 table at `l3`, its last `n` entries.
unfoldable pub free_pages : Machine → ℕ → ℕ → Machine
free_pages m l3 zero = m
free_pages m l3 (suc n) =
    let entry = m.words l3 (512 - suc n) in
    free_pages (if bit_and entry 1 == 0 then m else free_frame m (bit_and entry address_mask)) l3 n

-- The tables below the L2 table at `l2`, its last `n` entries.
unfoldable pub free_l3_tables : Machine → ℕ → ℕ → Machine
free_l3_tables m l2 zero = m
free_l3_tables m l2 (suc n) =
    let entry = m.words l2 (512 - suc n) in
    let child = bit_and entry address_mask in
    free_l3_tables
      (if bit_and entry 3 == table_bits then free_frame (free_pages m child 512) child else m) l2 n

-- The tables below the root, its last `n` entries.
unfoldable pub free_l2_tables : Machine → ℕ → ℕ → Machine
free_l2_tables m root zero = m
free_l2_tables m root (suc n) =
    let entry = m.words root (512 - suc n) in
    let child = bit_and entry address_mask in
    free_l2_tables
      (if bit_and entry 3 == table_bits then free_frame (free_l3_tables m child 512) child else m)
      root n

-- The entries from 4 on are the process's own.
unfoldable pub free_user_space : Machine → ℕ → Machine
free_user_space m root = free_frame (free_l2_tables m root 508) root

-- while offset < ram_size { map; offset += 1 GiB }
unfoldable pub map_ram : Machine → ℕ → ℕ → ℕ → ℕ → Machine
map_ram m root ram_base offset zero = m
map_ram m root ram_base offset (suc n) =
    map_ram (map_block_1g m root (ram_base + offset) (ram_base + offset) false) root ram_base
      (offset + 2 ^ 30) n

unfoldable pub identity_map_machine : Machine → ℕ → ℕ → ℕ → Machine
identity_map_machine m root ram_base ram_size =
    map_ram (map_block_1g m root 0 0 true) root ram_base 0 ((ram_size + (2 ^ 30 - 1)) / 2 ^ 30)
