-- ===== src/Vfs.antt =====
-- mckrnl/fs/vfs.c: which mount a path belongs to, and the call that each operation makes on it. The
-- mounts are given by what their `name` returns; a mount is named by its place. A call is a value:
-- the file systems themselves carry it out. A fault is `none`.
use goofy_micro_os.Prelude.{
  ℕ, zero, suc, ◌+◌, Bool, true, false, Option, none, some, List, [], ◌∷◌, ◌++◌, leb, ◌==◌,
  if◌then◌else◌, length, get_elem?, replicate,
}
use goofy_micro_os.Prelude.Int.{is_zero}
use goofy_micro_os.Prelude.Options.{◌>>=◌}
use goofy_micro_os.Text.{Bytes, strcpy, strlen, strcmp}
pub mod Resolve
pub mod Ramfs
mod Tests

-- The loop that looks for `:` up to the end of the string: the device, and the path behind it.
pub data Split : Type 0 where
  device : Bytes → Bytes → Split
  no_colon : Split

abbrev pub push : ℕ → Split → Split
push c (device dev file) = device (c ∷ dev) file
push c no_colon = no_colon

unfoldable pub split_device : Bytes → Option Split
split_device [] = none
split_device (c ∷ filename) =
    let rest = split_device filename in
    if c == 0
    then some no_colon
    else if c == 58
    then some (device [] filename)
    else rest >>= λ s. some (push c s)

-- The loop over the mounts: the first one whose name the device is, from the place `j` on.
unfoldable pub find_mount : Bytes → ℕ → List Bytes → Option (Option ℕ)
find_mount dev j [] = some none
find_mount dev j (name ∷ mounts) =
    let rest = find_mount dev (suc j) mounts in
    strcmp name dev >>= λ d. if is_zero d then some (some j) else rest

-- A mount, and the path on it; or the null pointer.
pub data Resolved : Type 0 where
  on_mount : ℕ → Bytes → Resolved
  no_mount : Resolved

-- What each operation does with a path first, in a buffer of 1024 zero bytes. The loop ends at the
-- terminator that `strlen` finds; without one, the buffer is read past its end.
unfoldable pub resolve : Bytes → List Bytes → Option Resolved
unfolding split_device find_mount
resolve path mounts = do
  filename ← strcpy (replicate 1024 0) path
  len ← strlen filename
  s ← split_device filename
  elim s [
    | no_colon ↦ some no_mount
    | device dev file ↦ find_mount (dev ++ 0 ∷ file) 0 mounts >>= λ m.
        some (elim m [ none ↦ no_mount | some j ↦ on_mount j file ])
  ]

-- The call that an operation makes on a mount, or its return without one.
pub data Call : Type 0 where
  open_file mkdir touch delete_dir : ℕ → Bytes → Call
  dir_at : ℕ → ℕ → Bytes → Call
  returns_null : Call

-- `vfs_open`, which also sets the mode of a file that it returns.
unfoldable pub vfs_open : Bytes → List Bytes → Option Call
unfolding resolve
vfs_open path mounts = resolve path mounts >>= λ r.
    some (elim r [ no_mount ↦ returns_null | on_mount j file ↦ open_file j file ])

-- The operations that do not test for a missing mount, and read through the null pointer.
abbrev pub call_on : (ℕ → Bytes → Call) → Resolved → Option Call
call_on call no_mount = none
call_on call (on_mount j file) = some (call j file)

unfoldable pub vfs_mkdir : Bytes → List Bytes → Option Call
unfolding resolve
vfs_mkdir path mounts = resolve path mounts >>= λ r. call_on mkdir r

unfoldable pub vfs_touch : Bytes → List Bytes → Option Call
unfolding resolve
vfs_touch path mounts = resolve path mounts >>= λ r. call_on touch r

unfoldable pub vfs_dir_at : ℕ → Bytes → List Bytes → Option Call
unfolding resolve
vfs_dir_at idx path mounts = resolve path mounts >>= λ r. call_on (dir_at idx) r

unfoldable pub vfs_delete_dir : Bytes → List Bytes → Option Call
unfolding resolve
vfs_delete_dir path mounts = resolve path mounts >>= λ r. call_on delete_dir r

unfoldable pub vfs_mount : Bytes → List Bytes → List Bytes
vfs_mount mount mounts = mounts ++ mount ∷ []

-- `vfs_fs_at`: the name copied to `out`, or `false` for a place with no mount.
unfoldable pub vfs_fs_at : ℕ → Bytes → List Bytes → Option (Bytes × Bool)
vfs_fs_at idx out mounts = elim (get_elem? mounts idx) [
  | none ↦ some (out, false)
  | some name ↦ strcpy out name >>= λ copied. some (copied, true)
]

-- The scanners of `vfs_register_fs_scanner`, each of which may find a file system on a disk.
abbrev pub Scanners : Type 0
Scanners = List (ℕ → Option Bytes)

unfoldable pub vfs_register_fs_scanner : (ℕ → Option Bytes) → Scanners → Scanners
vfs_register_fs_scanner scanner scanners = scanners ++ scanner ∷ []

-- The inner loop of `vfs_scan_fs`: the first scanner that finds one mounts it.
unfoldable pub scan_disk : ℕ → Scanners → List Bytes → List Bytes
unfolding vfs_mount
scan_disk disk [] mounts = mounts
scan_disk disk (scanner ∷ scanners) mounts = elim (scanner disk) [
  | none ↦ scan_disk disk scanners mounts
  | some mount ↦ vfs_mount mount mounts
]

-- `vfs_scan_fs` over the disks from `disk` on, `left` of them.
unfoldable pub vfs_scan_fs : ℕ → ℕ → Scanners → List Bytes → List Bytes
unfolding scan_disk
vfs_scan_fs disk zero scanners mounts = mounts
vfs_scan_fs disk (suc left) scanners mounts =
    vfs_scan_fs (suc disk) left scanners (scan_disk disk scanners mounts)
