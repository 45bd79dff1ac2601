-- ===== src/Vfs/Resolve.antt =====
-- The paths of mckrnl/fs/vfs.c: `device:file` is on the first mount that has the device's name.
use goofy_micro_os.Prelude.{
  zero, ◌<◌, ℕ, suc, ◌≡◌, ◌≢◌, refl, ap, inl, inr, true, Option, none, some, List, [], ◌∷◌, ◌++◌,
  arith, length, drop, replicate, append_assoc, Bool-cases, Option-cases,
}
use goofy_micro_os.Prelude.Int.{is_zero, ℤ, pos, negsuc}
use goofy_micro_os.Prelude.Options.{◌>>=◌}
use goofy_micro_os.Text.{Bytes, strcpy, strcmp, strlen}
use goofy_micro_os.Text.Copy.{NoNul, Without, strcpy_lem, strlen-length}
use goofy_micro_os.Text.Compare.{AreBytes, strcmp-Decides}
use goofy_micro_os.Vfs.{
  device, no_colon, split_device, find_mount, Resolved, on_mount, no_mount, resolve, vfs_mount,
  Call, returns_null, call_on, vfs_open, vfs_mkdir, vfs_touch, vfs_dir_at, vfs_delete_dir,
}

split_device-colon :
    (dev file : Bytes)
    → NoNul dev
    → Without 58 dev
    → split_device (dev ++ 58 ∷ file) ≡ some (device dev file)
unfolding split_device
split_device-colon [] file h w = refl
split_device-colon (c ∷ dev) file h w = ground (arith, split_device-colon dev file h.1 w.1)

split_device-none :
    (cs rest : Bytes) → NoNul cs → Without 58 cs → split_device (cs ++ 0 ∷ rest) ≡ some no_colon
unfolding split_device
split_device-none [] rest h w = refl
split_device-none (c ∷ cs) rest h w = ground (arith, split_device-none cs rest h.1 w.1)

-- What a mount's name is: its bytes and a terminator.
abbrev pub c_strings : List Bytes → List Bytes
c_strings [] = []
c_strings (n ∷ ns) = (n ++ 0 ∷ []) ∷ c_strings ns

abbrev pub AreNames : List Bytes → Type 0
AreNames [] = Unit
AreNames (n ∷ ns) = NoNul n × (AreBytes n × AreNames ns)

-- The first place of a list at which a text stands.
pub data FirstAt (dev : Bytes) : ℕ → List Bytes → Option ℕ → Type 0 where
  nowhere : {j : ℕ} → FirstAt dev j [] none
  here : {j : ℕ} {names : List Bytes} → FirstAt dev j (dev ∷ names) (some j)
  further :
      {j : ℕ} {n : Bytes} {names : List Bytes} {place : Option ℕ}
      → n ≢ dev
      → FirstAt dev (suc j) names place
      → FirstAt dev j (n ∷ names) place

is_zero_pos : (z : ℤ) → is_zero z ≡ true → z ≡ pos 0
is_zero_pos (pos n) h = ap pos (ground (arith, h))
is_zero_pos (negsuc n) h = absurd (ground (arith, h))

find_mount-FirstAt :
    {dev : Bytes} {j : ℕ} {names : List Bytes} {place : Option ℕ} (file : Bytes)
    → FirstAt dev j names place
    → NoNul dev
    → AreBytes dev
    → AreNames names
    → find_mount (dev ++ 0 ∷ file) j (c_strings names) ≡ some place
unfolding find_mount
find_mount-FirstAt file nowhere h b a = refl
find_mount-FirstAt {dev} file (here {j} {names}) h b a =
    let (z, e, iff) = strcmp-Decides dev dev [] file h h b b in
    let zero_ : z ≡ pos 0 = iff.1 refl in rw (find_mount, e, zero_) refl
find_mount-FirstAt {dev} file (further {n = n} ne f) h b a =
    let (z, e, iff) = strcmp-Decides n dev [] file a.0 h a.1.0 b in
    elim (Bool-cases (is_zero z)) [
      | inl iz ↦ absurd (ne (iff.0 (is_zero_pos z iz)))
      | inr nz ↦ rw (find_mount, e, nz) (find_mount-FirstAt file f h b a.1.1)
    ]

NoNul-append : (xs ys : Bytes) → NoNul xs → NoNul ys → NoNul (xs ++ ys)
NoNul-append [] ys h h' = h'
NoNul-append (x ∷ xs) ys h h' = (h.0, NoNul-append xs ys h.1 h')

-- What a lookup resolves to, with the path behind the colon.
abbrev pub resolved : Option ℕ → Bytes → Resolved
resolved none file = no_mount
resolved (some j) file = on_mount j file

drop-zeroes :
    (n m : ℕ) → n < m → drop n (replicate {A = ℕ} m 0) ≡ 0 ∷ drop (suc n) (replicate {A = ℕ} m 0)
drop-zeroes zero zero h = absurd (omega arith)
drop-zeroes (suc n) zero h = absurd (omega arith)
drop-zeroes zero (suc m) h = refl
drop-zeroes (suc n) (suc m) h = drop-zeroes n m (omega arith)

-- The rest of the buffer behind a path.
abbrev pub zeros_after : Bytes → Bytes
zeros_after full = drop (length full) (replicate 1024 0)

module _ (c : ℕ) (cs file rest : Bytes) (names : List Bytes) (dev_text : NoNul (c ∷ cs))
    (dev_bytes : AreBytes (c ∷ cs)) (no_colons : Without 58 (c ∷ cs)) (file_text : NoNul file)
    (room : length (c ∷ (cs ++ 58 ∷ file)) < 1024) (are_names : AreNames names) where
  -- A path that fits the buffer with its terminator, `device:file`, resolves to the first mount that has the device's
  -- name, and to the text behind the colon; or to no mount where none has it.
  pub resolve-FirstAt :
      (place : Option ℕ)
      → FirstAt (c ∷ cs) 0 names place
      → resolve (c ∷ (cs ++ 58 ∷ (file ++ 0 ∷ rest))) (c_strings names)
        ≡ some (resolved place (file ++ zeros_after (c ∷ (cs ++ 58 ∷ file))))
  unfolding resolve
  resolve-FirstAt place at_place =
      rw
        (
          ← append_assoc cs (58 ∷ file) (0 ∷ rest),
          copied,
          terminated,
          append_assoc cs (58 ∷ file) zeros,
          split_device-colon (c ∷ cs) (file ++ zeros) dev_text no_colons,
          find_mount-FirstAt (file ++ zeros) at_place dev_text dev_bytes are_names,
        )
        (by_place place)
    where
      zeros : Bytes
      zeros = zeros_after (c ∷ (cs ++ 58 ∷ file))

      path_text : NoNul (c ∷ (cs ++ 58 ∷ file))
      path_text = (dev_text.0, NoNul-append cs (58 ∷ file) dev_text.1 (omega arith, file_text))

      copied :
          strcpy (replicate 1024 0) (c ∷ ((cs ++ 58 ∷ file) ++ 0 ∷ rest))
          ≡ some (c ∷ ((cs ++ 58 ∷ file) ++ zeros))
      copied =
          strcpy_lem c (cs ++ 58 ∷ file) rest (replicate 1024 0) path_text (omega (arith, room))

      terminated : strlen (c ∷ ((cs ++ 58 ∷ file) ++ zeros)) ≡ some (length (c ∷ (cs ++ 58 ∷ file)))
      terminated =
          rw (drop-zeroes (length (c ∷ (cs ++ 58 ∷ file))) 1024 room)
            (strlen-length (c ∷ (cs ++ 58 ∷ file)) _ path_text)

      by_place :
          (p : Option ℕ)
          → some (elim p [ none ↦ no_mount | some j ↦ on_mount j (file ++ zeros) ])
            ≡ some (resolved p (file ++ zeros))
      by_place none = refl
      by_place (some j) = refl

-- A lookup that finds a mount finds the same one after one more mount.
pub find_mount-vfs_mount :
    (dev : Bytes) (j i : ℕ) (mounts : List Bytes) (mount : Bytes)
    → find_mount dev j mounts ≡ some (some i)
    → find_mount dev j (vfs_mount mount mounts) ≡ some (some i)
unfolding find_mount vfs_mount
find_mount-vfs_mount dev j i [] mount h = absurd (cc h)
find_mount-vfs_mount dev j i (name ∷ mounts) mount h = elim (Option-cases (strcmp name dev)) [
  | inl e ↦ absurd (ground (arith, h, e))
  | inr (d, e) ↦ elim (Bool-cases (is_zero d)) [
    | inl z ↦ ground (arith, h, e, z)
    | inr nz ↦ ground (arith, h, e, nz, find_mount-vfs_mount dev (suc j) i mounts mount)
  ]
]

-- On a path that belongs to no mount, `vfs_open` returns the null pointer, and each of the others
-- reads through one.
pub operations-no_mount :
    (path : Bytes) (mounts : List Bytes)
    → resolve path mounts ≡ some no_mount
    → (vfs_open path mounts ≡ some returns_null)
      × (vfs_mkdir path mounts ≡ none)
      × (vfs_touch path mounts ≡ none)
      × ((idx : ℕ) → vfs_dir_at idx path mounts ≡ none)
      × (vfs_delete_dir path mounts ≡ none)
unfolding vfs_open vfs_mkdir vfs_touch vfs_dir_at vfs_delete_dir
operations-no_mount path mounts h =
    let fault : (call : ℕ → Bytes → Call) → (resolve path mounts >>= λ r. call_on call r) ≡ none =
      λ call. rw h refl in
    (rw (vfs_open, h) refl, fault _, fault _, λ idx. fault _, fault _)
