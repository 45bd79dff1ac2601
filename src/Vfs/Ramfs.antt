-- ===== src/Vfs/Ramfs.antt =====
-- mckrnl/fs/ramfs.c: the file system in memory. Its nodes are cells of a heap, and a pointer is the
-- index of a cell; the root is cell 0. A fault, of which `assert` is one, is `none`.
use goofy_micro_os.Prelude.{
  ◌%◌, ◌^◌, ℕ, zero, suc, ◌+◌, ◌-◌, Bool, true, false, ◌&&◌, Option, none, some, List, [], ◌∷◌,
  ◌++◌, ltb, leb, ◌==◌, if◌then◌else◌, length, get_elem?, get_or, set, take, drop, replicate,
}
use goofy_micro_os.Prelude.Int.{is_zero}
use goofy_micro_os.Prelude.Options.{◌>>=◌}
use goofy_micro_os.Text.{Bytes, strcpy, memcpy, copy_until, strcasecmp}
pub mod Files
pub mod Tree

-- `ramfs_node`; its union is the two cases. `fdata` is a null pointer or points at `fsize` bytes.
pub data Contents : Type 0 where
  node_file : Option Bytes → Contents
  node_dir : List (Option ℕ) → Contents

pub record Node : Type 0 where
  pub name : Bytes
  pub contents : Contents

abbrev pub Heap : Type 0
Heap = List Node

-- `while (*path == '/') path++;`
unfoldable pub skip_slashes : Bytes → Bytes
skip_slashes [] = []
skip_slashes (c ∷ path) = let rest = skip_slashes path in if c == 47 then rest else c ∷ path

-- The loop of `ramfs_find` over the children: the first with the name, in any case of its letters.
unfoldable pub find_child : Bytes → Heap → List (Option ℕ) → Option (Option ℕ)
find_child buffer heap [] = some none
find_child buffer heap (none ∷ childs) = find_child buffer heap childs
find_child buffer heap (some p ∷ childs) = do
  let rest = find_child buffer heap childs
  node ← get_elem? heap p
  d ← strcasecmp buffer node.name
  if is_zero d then some (some p) else rest

-- `ramfs_find`; `some none` is the null pointer. A file's union is read as its children: one without
-- data has none, and the data of another is a wild pointer.
unfoldable pub find_from : ℕ → Bytes → Heap → ℕ → Option (Option ℕ)
unfolding skip_slashes find_child
find_from zero path heap current = none
find_from (suc fuel) path heap current = elim (skip_slashes path) [
  | [] ↦ none
  | c ∷ rest ↦
      let deeper = find_from fuel in
      if c == 0
      then some (some current)
      else copy_until 47 (c ∷ rest) (replicate 128 0) >>= λ (buffer, next).
          get_elem? heap current >>= λ node. elim node.contents [
            | node_file none ↦ some none
            | node_file (some fdata) ↦ none
            | node_dir childs ↦ find_child buffer heap childs >>= λ found. elim found [
              | none ↦ some none
              | some p ↦ deeper next heap p
            ]
          ]
]

-- From the root, with fuel for every byte of the path.
unfoldable pub ramfs_find : Bytes → Heap → Option (Option ℕ)
unfolding find_from
ramfs_find path heap = find_from (length path) path heap 0

-- The bytes at a pointer to data.
abbrev pub bytes_at : Option Bytes → Bytes
bytes_at none = []
bytes_at (some fdata) = fdata

-- A `file_t`: the node, and the size as it was last seen.
pub record File : Type 0 where
  pub node : ℕ
  pub size : ℕ

-- `ramfs_open`; `some none` is the null pointer.
unfoldable pub ramfs_open : Bytes → Heap → Option (Option File)
unfolding ramfs_find
ramfs_open path heap = ramfs_find path heap >>= λ found. elim found [
  | none ↦ some none
  | some p ↦ get_elem? heap p >>= λ node. elim node.contents [
    | node_file fdata ↦ some (some (record { node = p; size = length (bytes_at fdata) }))
    | node_dir childs ↦ some none
  ]
]

-- The data pointer of the node of a file.
abbrev pub fdata_of : Contents → Option (Option Bytes)
fdata_of (node_file fdata) = some fdata
fdata_of (node_dir childs) = none

abbrev pub load_data : Heap → File → Option (Option Bytes)
load_data heap f = get_elem? heap f.node >>= λ node. fdata_of node.contents

abbrev pub put_data : Heap → File → Option Bytes → Option Heap
put_data heap f fdata = get_elem? heap f.node >>= λ node.
    some (set heap f.node (record node { contents = node_file fdata }))

-- `ramfs_read` into `buf`, with its `assert`.
unfoldable pub ramfs_read : Heap → File → Bytes → ℕ → ℕ → Option Bytes
ramfs_read heap f buf size offset = load_data heap f >>= λ fdata.
    if leb ((offset + size) % 2 ^ 32) (length (bytes_at fdata))
    then memcpy buf (drop offset (bytes_at fdata)) size
    else none

-- `vmm_resize` of bytes, which gives what is new as `fresh` has it: uninitialised.
unfoldable pub vmm_resize : (ℕ → Bytes) → Option Bytes → ℕ → Option Bytes
vmm_resize fresh none n = some (fresh n)
vmm_resize fresh (some fdata) n =
    if n == 0 then none else some (take n (fdata ++ fresh (n - length fdata)))

-- The bytes at a pointer, written.
abbrev pub rewritten : Option Bytes → Bytes → Option Bytes
rewritten none fdata = none
rewritten (some old) fdata = some fdata

-- `ramfs_write` of `size` bytes of `buf` at `offset`. The new size is an `int`: from 2^31 on it is
-- negative, and less than every size.
unfoldable pub ramfs_write : (ℕ → Bytes) → Heap → File → Bytes → ℕ → ℕ → Option (Heap × File)
unfolding vmm_resize
ramfs_write fresh heap f buf size offset = do
  fdata ← load_data heap f
  let new_file_size = (offset + size) % 2 ^ 32
  let grown =
      if ltb (length (bytes_at fdata)) new_file_size && ltb new_file_size (2 ^ 31)
      then vmm_resize fresh fdata new_file_size
      else fdata
  written ← memcpy (drop offset (bytes_at grown)) buf size
  heap' ← put_data heap f (rewritten grown (take offset (bytes_at grown) ++ written))
  some (heap', record f { size = length (bytes_at grown) })

-- `new_size` is below 2^31.
unfoldable pub ramfs_truncate : (ℕ → Bytes) → Heap → File → ℕ → Option (Heap × File)
unfolding vmm_resize
ramfs_truncate fresh heap f new_size = do
  fdata ← load_data heap f
  heap' ← put_data heap f (vmm_resize fresh fdata new_size)
  some (heap', record f { size = new_size })
