-- ===== src/Vfs/Ramfs/Files.antt =====
-- The contents of files in mckrnl/fs/ramfs.c: what is written is read back.
use goofy_micro_os.Prelude.{
  ◌%◌, ◌^◌, ◌&&◌, Bool, false, ℕ, zero, suc, ◌+◌, ◌-◌, ◌≤◌, ◌<◌, ◌≡◌, refl, sym, ◌∙◌, ap, inl, inr,
  true, Option, none, some, [], ◌∷◌, ◌++◌, arith, ltb, leb, ◌==◌, if◌then◌else◌, length,
  length-append, length-take, length-drop, take, drop, take-length-append, drop-length-append,
  get_elem?, set, Bool-cases,
}
use goofy_micro_os.Prelude.Ensures.{Returns, just}
use goofy_micro_os.Text.{Bytes}
use goofy_micro_os.Text.Copy.{memcpy_lem}
use goofy_micro_os.Vfs.Ramfs.{
  node_file, Node, Heap, File, bytes_at, vmm_resize, ramfs_read, ramfs_write,
}

get_elem?-set-same :
    (h : Heap) (p : ℕ) (n m : Node) → get_elem? h p ≡ some n → get_elem? (set h p m) p ≡ some m
get_elem?-set-same [] p n m e = absurd (cc e)
get_elem?-set-same (x ∷ h) zero n m e = refl
get_elem?-set-same (x ∷ h) (suc p) n m e = get_elem?-set-same h p n m e

module _ (fresh : ℕ → Bytes) (sized : (n : ℕ) → length (fresh n) ≡ n) where
  length-vmm_resize :
      (fdata : Option Bytes) (n : ℕ) → length (bytes_at (vmm_resize fresh fdata n)) ≡ n
  unfolding vmm_resize
  length-vmm_resize none n = sized n
  length-vmm_resize (some fdata) n = elim (Bool-cases (n == 0)) [
    | inl e ↦ rw e (ground (arith, e))
    | inr e ↦ rw e (
        length-take n (fdata ++ fresh (n - length fdata))
        ∙ omega (arith, length-append fdata (fresh (n - length fdata)), sized (n - length fdata)))
  ]

  -- The data that a write works in.
  abbrev grown : Option Bytes → ℕ → Option Bytes
  grown fdata n = if ltb (length (bytes_at fdata)) n then vmm_resize fresh fdata n else fdata

  length-grown : (fdata : Option Bytes) (n : ℕ) → n ≤ length (bytes_at (grown fdata n))
  length-grown fdata n = elim (Bool-cases (ltb (length (bytes_at fdata)) n)) [
    | inl e ↦ rw e (omega (arith, length-vmm_resize fdata n))
    | inr e ↦ rw e (ground (arith, e))
  ]

and_true : (b : Bool) → (b && true) ≡ b
and_true true = refl
and_true false = refl

-- What a read of `size` bytes at `offset` finds in data that was just written there.
read-written :
    (g buf : Bytes) (size offset : ℕ)
    → offset + size ≤ length g
    → size ≤ length buf
    → take size (drop offset (take offset g ++ (take size buf ++ drop size (drop offset g))))
      ≡ take size buf
read-written g buf size offset fits has =
    let len1 : length (take offset g) ≡ offset = omega (arith, length-take offset g, fits) in
    let len2 : length (take size buf) ≡ size = omega (arith, length-take size buf, has) in
    ap (take size) (
      ap (λ k. drop k (take offset g ++ (take size buf ++ drop size (drop offset g)))) (sym len1)
      ∙ drop-length-append (take offset g) _)
    ∙ (ap (λ k. take k (take size buf ++ drop size (drop offset g))) (sym len2)
        ∙ take-length-append (take size buf) _)

length-written :
    (g buf : Bytes) (size offset : ℕ)
    → offset + size ≤ length g
    → size ≤ length buf
    → length (take offset g ++ (take size buf ++ drop size (drop offset g))) ≡ length g
length-written g buf size offset fits has = omega (
  arith,
  length-append (take offset g) (take size buf ++ drop size (drop offset g)),
  length-append (take size buf) (drop size (drop offset g)),
  length-take offset g,
  length-take size buf,
  length-drop size (drop offset g),
  length-drop offset g,
  fits,
  has,
)

module _ (fresh : ℕ → Bytes) (sized : (n : ℕ) → length (fresh n) ≡ n) (heap : Heap) (f : File)
    (name : Bytes) (fdata : Option Bytes)
    (at : get_elem? heap f.node ≡ some (record { name = name; contents = node_file fdata }))
    (buf dst : Bytes) (size offset : ℕ) (has : size ≤ length buf) (room : size ≤ length dst)
    (some_bytes : 0 < size) (below : offset + size < 2 ^ 31) where
  -- Where `vmm_resize` gives as many bytes as it is asked for: a write of at least one byte to a
  -- file, which ends below 2^31, returns, and a read of the same place through the handle that it leaves
  -- gives the bytes written.
  pub ramfs_write-read :
      Returns
        (λ (heap', f'). ramfs_read heap' f' dst size offset ≡ some (take size buf ++ drop size dst))
        (ramfs_write fresh heap f buf size offset)
  unfolding ramfs_write ramfs_read
  ramfs_write-read = by_grown (grown fresh sized fdata (offset + size)) refl
    where
      read_back :
          (g : Bytes)
          → offset + size ≤ length g
          → ramfs_read
              (set heap f.node (record {
                name = name;
                contents =
                    node_file
                      (some (take offset g ++ (take size buf ++ drop size (drop offset g))));
              }))
              (record f { size = length g })
              dst
              size
              offset
            ≡ some (take size buf ++ drop size dst)
      read_back g fits =
          let wrap : (offset + size) % 2 ^ 32 ≡ offset + size = omega (arith, below) in
          let d = take offset g ++ (take size buf ++ drop size (drop offset g)) in
          let len : length d ≡ length g = length-written g buf size offset fits has in
          let inside : leb (offset + size) (length d) ≡ true = ground (arith, len, fits) in
          rw
            (
              ramfs_read,
              wrap,
              get_elem?-set-same heap f.node _
                  (record { name = name; contents = node_file (some d) }) at,
              inside,
              memcpy_lem dst (drop offset d) size room
                  (omega (arith, length-drop offset d, len, fits)),
              read-written g buf size offset fits has,
            )
            refl

      by_grown :
          (o : Option Bytes)
          → grown fresh sized fdata (offset + size) ≡ o
          → Returns
              (λ (heap', f').
                ramfs_read heap' f' dst size offset ≡ some (take size buf ++ drop size dst))
              (ramfs_write fresh heap f buf size offset)
      by_grown none e =
          absurd (ground (arith, length-grown fresh sized fdata (offset + size), e, some_bytes))
      by_grown (some g) e =
          let wrap : (offset + size) % 2 ^ 32 ≡ offset + size = omega (arith, below) in
          let positive : ltb (offset + size) (2 ^ 31) ≡ true = ground (arith, below) in
          let fits : offset + size ≤ length g =
            ground (arith, length-grown fresh sized fdata (offset + size), e) in
          let d : Bytes = take offset g ++ (take size buf ++ drop size (drop offset g)) in
          let wrote : ramfs_write fresh heap f buf size offset
              ≡ some (
                set heap f.node (record { name = name; contents = node_file (some d) }),
                record f { size = length g },
              ) =
            rw
              (
                ramfs_write,
                at,
                wrap,
                positive,
                and_true (ltb (length (bytes_at fdata)) (offset + size)),
                e,
                memcpy_lem (drop offset g) buf size (omega (arith, length-drop offset g, fits)) has,
              )
              refl in
          rw wrote (just (read_back g fits))
