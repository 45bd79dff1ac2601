-- ===== src/Vfs/Ramfs/Tree.antt =====
-- The directories of mckrnl/fs/ramfs.c: how a path is taken apart, and how nodes are made and listed.
use goofy_micro_os.Prelude.{
  ℕ, zero, suc, ◌-◌, ◌≡◌, refl, ap, inl, inr, Bool, true, false, Option, none, some, List, [], ◌∷◌,
  ◌++◌, ltb, ◌==◌, if◌then◌else◌, length, get_elem?, set, replicate, arith, is_some, Option-cases,
}
use goofy_micro_os.Prelude.Options.{◌>>=◌}
use goofy_micro_os.Text.{Bytes, strcpy, memcpy, copy_until}
use goofy_micro_os.Vfs.Ramfs.{Contents, node_file, node_dir, Node, Heap, ramfs_find}

-- The loop of `ramfs_split_path`: `to_create` is what follows the last `/` but a final one. Before
-- the first `/` it is not initialised, which is `none`.
unfoldable pub split_loop : ℕ → Bytes → Option Bytes → Option Bytes
split_loop zero next to_create = none
split_loop (suc fuel) next to_create = copy_until 47 next (replicate 128 0) >>= λ (buffer, next').
    elim next' [
      | [] ↦ none
      | c ∷ rest ↦ if c == 0 then to_create else split_loop fuel (c ∷ rest) (some (c ∷ rest))
    ]

-- `ramfs_split_path`: the directory's path, in its buffer, and the name to create.
unfoldable pub ramfs_split_path : Bytes → Option (Bytes × Bytes)
unfolding split_loop
ramfs_split_path path = do
  to_create ← split_loop (length path) path none
  out ← memcpy (replicate 512 0) path (length path - length to_create - 1)
  some (out, to_create)

-- The first free place among a node's children.
unfoldable pub free_slot : List (Option ℕ) → Option ℕ
free_slot [] = none
free_slot (none ∷ childs) = some 0
free_slot (some p ∷ childs) = free_slot childs >>= λ i. some (suc i)

-- A child at the end of the heap, put into the free place `i` of the directory `p`.
unfoldable pub add_child : ℕ → Node → List (Option ℕ) → ℕ → Node → Heap → Heap
add_child p dir childs i child heap =
    set heap p (record dir { contents = node_dir (set childs i (some (length heap))) })
    ++ child ∷ []

-- `ramfs_mkdir` and `ramfs_touch`, which differ in what the new node holds.
unfoldable pub make_node : Contents → Bytes → Heap → Option Heap
unfolding ramfs_split_path free_slot add_child
make_node contents path heap = ramfs_find path heap >>= λ existing. elim existing [
  | some q ↦ some heap
  | none ↦ ramfs_split_path path >>= λ (path_buf, to_create). ramfs_find path_buf heap >>= λ found.
      elim found [
        | none ↦ some heap
        | some p ↦ get_elem? heap p >>= λ node. elim node.contents [
          | node_file fdata ↦ some heap
          | node_dir childs ↦ elim (free_slot childs) [
            | none ↦ some heap
            | some i ↦ strcpy (replicate 92 0) to_create >>= λ name.
                some (add_child p node childs i (record { name = name; contents = contents }) heap)
          ]
        ]
      ]
]

unfoldable pub ramfs_mkdir : Bytes → Heap → Option Heap
unfolding make_node
ramfs_mkdir path heap = make_node (node_dir (replicate 1000 none)) path heap

unfoldable pub ramfs_touch : Bytes → Heap → Option Heap
unfolding make_node
ramfs_touch path heap = make_node (node_file none) path heap

-- The loop of `ramfs_dir_at`: the child before which `idx` children stand.
unfoldable pub nth_child : ℕ → List (Option ℕ) → Option ℕ
nth_child idx [] = none
nth_child idx (none ∷ childs) = nth_child idx childs
nth_child zero (some p ∷ childs) = some p
nth_child (suc idx) (some p ∷ childs) = nth_child idx childs

-- `dir_t` where it is not `is_none`.
pub record Entry : Type 0 where
  pub name : Bytes
  pub idx : ℕ
  pub is_dir : Bool

abbrev pub is_directory : Contents → Bool
is_directory (node_file fdata) = false
is_directory (node_dir childs) = true

-- `ramfs_dir_at`; `some none` is `is_none`.
unfoldable pub ramfs_dir_at : ℕ → Bytes → Heap → Option (Option Entry)
unfolding nth_child
ramfs_dir_at idx path heap = ramfs_find path heap >>= λ found. elim found [
  | none ↦ some none
  | some p ↦ get_elem? heap p >>= λ node. elim node.contents [
    | node_file fdata ↦ some none
    | node_dir childs ↦ elim (nth_child idx childs) [
      | none ↦ some none
      | some q ↦ do
        child ← get_elem? heap q
        name ← strcpy (replicate 256 0) child.name
        some (some (record { name = name; idx = idx; is_dir = is_directory child.contents }))
    ]
  ]
]

-- How many children a directory has.
unfoldable pub count_childs : List (Option ℕ) → ℕ
count_childs [] = 0
count_childs (none ∷ childs) = count_childs childs
count_childs (some p ∷ childs) = suc (count_childs childs)

-- The listing has an entry for every child, and ends behind the last: there is a child at a place of
-- the listing exactly below the number of children.
pub nth_child-count :
    (idx : ℕ) (childs : List (Option ℕ))
    → is_some (nth_child idx childs) ≡ ltb idx (count_childs childs)
unfolding nth_child count_childs
nth_child-count idx [] = ground arith
nth_child-count idx (none ∷ childs) = nth_child-count idx childs
nth_child-count zero (some p ∷ childs) = ground arith
nth_child-count (suc idx) (some p ∷ childs) = ground (arith, nth_child-count idx childs)

-- A new child in the free place is listed, and the listing is longer by that one entry.
pub free_slot-count :
    (childs : List (Option ℕ)) (i p : ℕ)
    → free_slot childs ≡ some i
    → (count_childs (set childs i (some p)) ≡ suc (count_childs childs))
      × ((idx : ℕ) × (nth_child idx (set childs i (some p)) ≡ some p))
unfolding free_slot nth_child count_childs
free_slot-count [] i p h = absurd (cc h)
free_slot-count (none ∷ childs) zero p h = (refl, (0, refl))
free_slot-count (none ∷ childs) (suc i) p h = absurd (cc h)
free_slot-count (some q ∷ childs) zero p h = elim (Option-cases (free_slot childs)) [
  | inl e ↦ absurd (ground (arith, h, e))
  | inr (j, e) ↦ absurd (ground (arith, h, e))
]
free_slot-count (some q ∷ childs) (suc i) p h = elim (Option-cases (free_slot childs)) [
  | inl e ↦ absurd (ground (arith, h, e))
  | inr (j, e) ↦
      let same : free_slot childs ≡ some i = ground (arith, h, e) in
      let (counted, (idx, listed)) = free_slot-count childs i p same in
      (ap suc counted, (suc idx, listed))
]
