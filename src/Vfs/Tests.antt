-- ===== src/Vfs/Tests.antt =====
-- The theorems on mckrnl/fs at concrete paths and files.
use goofy_micro_os.Prelude.{ℕ, zero, suc, ◌≡◌, refl, some, List, [], ◌∷◌, arith, length, replicate}
use goofy_micro_os.Prelude.Ensures.{Returns}
use goofy_micro_os.Text.{Bytes, strcpy, strlen, strcmp}
use goofy_micro_os.Vfs.{resolve, on_mount, no_mount}
use goofy_micro_os.Vfs.Resolve.{FirstAt, here, further, c_strings, zeros_after, resolve-FirstAt}
use goofy_micro_os.Vfs.Ramfs.{Heap, File, node_file, ramfs_read, ramfs_write}
use goofy_micro_os.Vfs.Ramfs.Files.{ramfs_write-read}

-- "a" and "b"
abbrev two_names : List Bytes
two_names = (b'a' ∷ []) ∷ (b'b' ∷ []) ∷ []

b_is_second : FirstAt (b'b' ∷ []) 0 two_names (some 1)
b_is_second = further (λ e. ground arith) here

-- "b:x"
resolve-FirstAt_example :
    resolve (b'b' ∷ 58 ∷ b'x' ∷ 0 ∷ []) (c_strings two_names)
    ≡ some (on_mount 1 (b'x' ∷ zeros_after (b'b' ∷ 58 ∷ b'x' ∷ [])))
resolve-FirstAt_example =
    resolve-FirstAt b'b' [] (b'x' ∷ []) [] two_names (omega arith) (omega arith) (ground arith)
      (omega arith) (omega arith) (omega arith) (some 1) b_is_second

c_missing : resolve (b'c' ∷ 58 ∷ b'x' ∷ 0 ∷ []) (c_strings two_names) ≡ some no_mount
unfolding resolve strcpy strlen strcmp
c_missing = refl

-- A file of two bytes, and memory that is fresh as 9s.
abbrev disk : Heap
disk = record { name = b'f' ∷ 0 ∷ []; contents = node_file (some (1 ∷ 2 ∷ [])) } ∷ []

abbrev handle : File
handle = record { node = 0; size = 2 }

abbrev nines : ℕ → Bytes
nines n = replicate n 9

length-nines : (n : ℕ) → length (nines n) ≡ n
length-nines zero = refl
length-nines (suc n) = omega (arith, length-nines n)

ramfs_write-read_example :
    Returns
      (λ (heap', f'). ramfs_read heap' f' (0 ∷ 0 ∷ []) 2 3 ≡ some (7 ∷ 8 ∷ []))
      (ramfs_write nines disk handle (7 ∷ 8 ∷ []) 2 3)
ramfs_write-read_example =
    ramfs_write-read nines length-nines disk handle (b'f' ∷ 0 ∷ []) (some (1 ∷ 2 ∷ [])) refl
      (7 ∷ 8 ∷ []) (0 ∷ 0 ∷ []) 2 3 (omega arith) (omega arith) (omega arith) (omega arith)
