-- ===== src/Vmm/Tables.antt =====
-- What the pages of an address space must satisfy, and the translation that its tables give.
use goofy_micro_os.Prelude.{
  ℕ, ◌+◌, ◌*◌, ◌/◌, ◌%◌, ◌<◌, bit_or, ◌≡◌, ◌≢◌, true, Option, none, some, arith, if◌then◌else◌,
}
use goofy_micro_os.Prelude.Bits.{bit, bit-bit_or, bit_or-low, bit_or-add, bit_or-lt}
use goofy_micro_os.Pmm.{Pmm, used}
use goofy_micro_os.Pmm.Alloc.{IsSized}
use goofy_micro_os.Vmm.{Mem, Vm, present, page_of, pagedir}
use goofy_micro_os.Vmm.Memory.{present-odd, EachActive}

-- The frame that a page is mapped to: what an address space promises.
unfoldable pub view : Mem → (context page : ℕ) → Option ℕ
view m context page =
    let dir_entry = m (pagedir m context) (page / 1024) in
    let entry = m (page_of dir_entry) (page % 1024) in
    if present dir_entry then (if present entry then some (page_of entry) else none) else none

-- The pages of an address space are used, and each has one purpose: the context, the directory, and
-- the table of each present entry of the directory.
pub record Owns (size : ℕ) (m : Mem) (s : Pmm) (c : ℕ) : Type 0 where
  pub sized : IsSized size s
  pub own_used : used s c ≡ true
  pub dir_used : used s (pagedir m c) ≡ true
  pub dir_apart : pagedir m c ≢ c
  pub table_used :
      (i : ℕ)
      → i < 1024
      → present (m (pagedir m c) i) ≡ true
      → used s (page_of (m (pagedir m c) i)) ≡ true
  pub table_apart :
      (i : ℕ)
      → i < 1024
      → present (m (pagedir m c) i) ≡ true
      → (page_of (m (pagedir m c) i) ≢ pagedir m c) × (page_of (m (pagedir m c) i) ≢ c)
  pub distinct :
      (i j : ℕ)
      → i < 1024
      → j < 1024
      → present (m (pagedir m c) i) ≡ true
      → present (m (pagedir m c) j) ≡ true
      → page_of (m (pagedir m c) i) ≡ page_of (m (pagedir m c) j)
      → i ≡ j

-- The directories of the active tasks are none of the pages of the address space `c`, and the pages
-- that their contexts are kept in are no directories.
pub record TasksApart (vm : Vm) (c : ℕ) : Type 0 where
  pub kept :
      EachActive (λ u. EachActive (λ t. pagedir vm.memory t.context ≢ u.context) vm.tasks) vm.tasks
  pub contexts :
      EachActive (λ t. (used vm.pmm t.context ≡ true) × (t.context ≢ pagedir vm.memory c)) vm.tasks
  pub dirs_used : EachActive (λ t. used vm.pmm (pagedir vm.memory t.context) ≡ true) vm.tasks
  pub not_own : EachActive (λ t. pagedir vm.memory t.context ≢ c) vm.tasks
  pub not_dir : EachActive (λ t. pagedir vm.memory t.context ≢ pagedir vm.memory c) vm.tasks
  pub not_table :
      (i : ℕ)
      → i < 1024
      → present (vm.memory (pagedir vm.memory c) i) ≡ true
      → EachActive
          (λ t. pagedir vm.memory t.context ≢ page_of (vm.memory (pagedir vm.memory c) i))
          vm.tasks

-- The memory `m'` differs from `m` in the address space `c` by at most a new table for `pd`: the
-- page `t`.
pub record Linked (m : Mem) (c pd t : ℕ) (m' : Mem) : Type 0 where
  pub own : m' c 0 ≡ m c 0
  pub not_own : t ≢ c
  pub not_dir : t ≢ pagedir m c
  pub here : present (m' (pagedir m c) pd) ≡ true
  pub page : page_of (m' (pagedir m c) pd) ≡ t
  pub others : (j : ℕ) → j ≢ pd → m' (pagedir m c) j ≡ m (pagedir m c) j
  pub tables :
      (i j : ℕ)
      → i < 1024
      → present (m (pagedir m c) i) ≡ true
      → m' (page_of (m (pagedir m c) i)) j ≡ m (page_of (m (pagedir m c) i)) j
  pub apart :
      (i : ℕ)
      → i < 1024
      → i ≢ pd
      → present (m (pagedir m c) i) ≡ true
      → page_of (m (pagedir m c) i) ≢ t
  pub entries :
      (j : ℕ)
      → j < 1024
      → m' t j ≡ (if present (m (pagedir m c) pd) then m (page_of (m (pagedir m c) pd)) j else 0)

-- The new entry of a directory is present and names the table.
pub linked_entry :
    (n flags : ℕ)
    → flags < 4096
    → (present (bit_or (bit_or (n * 4096) 1) flags) ≡ true)
      × (page_of (bit_or (bit_or (n * 4096) 1) flags) ≡ n)
unfolding bit
linked_entry n flags h =
    let low : ℕ = bit_or 1 flags in
    let first = bit_or-add 12 n 1 (omega arith) in
    let both = first_then n flags h in
    let bound = bit_or-lt 12 1 flags (omega arith) (omega (arith, h)) in
    let odd : low % 2 ≡ 1 = omega (arith, bit-bit_or 1 flags 0) in
    rw (first, both) (rw present-odd (ground (arith, odd)), omega (arith, bound))
  where
    first_then :
        (n flags : ℕ) → flags < 4096 → bit_or (n * 4096 + 1) flags ≡ n * 4096 + bit_or 1 flags
    first_then n flags h = bit_or-low 12 n 1 flags (omega arith) (omega (arith, h))
