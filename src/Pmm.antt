-- ===== src/Pmm.antt =====
-- The physical page allocator of mckrnl/memory/pmm.c. The number of bitmap words (BITMAP_SIZE, 32768
-- in the build) is the argument `size`; an `abortf` is `none`.
pub mod Bitmap
pub mod Alloc
pub mod Range
pub mod Ranges
pub mod Init
pub mod Boot
mod Tests
use Bitmap.{Words, bitmap_set, bitmap_clear, bitmap_test}
use goofy_micro_os.Prelude.Options.{◌>>=◌}
use goofy_micro_os.Prelude.{
  ℕ, zero, suc, ◌+◌, ◌-◌, ◌*◌, ◌/◌, ◌%◌, ◌^◌, Bool, true, false, not, ◌&&◌, ◌||◌, Option, none,
  some, List, [], ◌∷◌, ltb, leb, ◌==◌, if◌then◌else◌, first, replicate,
}

pub record Pmm : Type 0 where
  pub bitmap : Words
  pub bitmap_pagetable_mask : Words
  pub free_memory : ℕ
  pub used_memory : ℕ

abbrev pub u32_mod : ℕ
u32_mod = 2 ^ 32

-- `-` on `uint32_t`
abbrev pub sub32 : ℕ → ℕ → ℕ
sub32 a b = (a + (u32_mod - b % u32_mod)) % u32_mod

unfoldable pub pmm_usage_use : ℕ → Pmm → Pmm
pmm_usage_use amount s = record s {
  free_memory = sub32 s.free_memory (amount * 0x1000);
  used_memory = (s.used_memory + amount * 0x1000) % u32_mod;
}

unfoldable pub pmm_usage_unuse : ℕ → Pmm → Pmm
pmm_usage_unuse amount s = record s {
  free_memory = (s.free_memory + amount * 0x1000) % u32_mod;
  used_memory = sub32 s.used_memory (amount * 0x1000);
}

-- A page is used, by the bitmap.
abbrev pub used : Pmm → ℕ → Bool
used s i = bitmap_test s.bitmap i

-- A page lies in the region kept for page tables.
abbrev pub for_tables : Pmm → ℕ → Bool
for_tables s i = bitmap_test s.bitmap_pagetable_mask i

-- The test of `pmm_alloc` and of `pmm_alloc_range`.
abbrev pub allocatable : Pmm → ℕ → Bool
allocatable s i = not (used s i) && not (for_tables s i)

-- The test of `pmm_alloc_pagetable`.
abbrev pub allocatable_table : Pmm → ℕ → Bool
allocatable_table s i = not (used s i) && for_tables s i

-- `(void*) (i * 0x1000)`
abbrev pub address : ℕ → ℕ
address i = i * 0x1000 % u32_mod

-- What both allocators do with the first page that passes their test.
unfoldable pub claim : Pmm → Option ℕ → Option (ℕ × Pmm)
claim s none = none
claim s (some i) = some (address i, pmm_usage_use 1 (record s { bitmap = bitmap_set s.bitmap i }))

unfoldable pub pmm_alloc : ℕ → Pmm → Option (ℕ × Pmm)
pmm_alloc size s = claim s (first (allocatable s) (size * 32) 0)

unfoldable pub pmm_alloc_pagetable : ℕ → Pmm → Option (ℕ × Pmm)
pmm_alloc_pagetable size s = claim s (first (allocatable_table s) (size * 32) 0)

unfoldable pub pmm_mark_used : ℕ → Pmm → Pmm
pmm_mark_used page s = pmm_usage_use 1 (record s { bitmap = bitmap_set s.bitmap (page / 4096) })

unfoldable pub pmm_free : ℕ → Pmm → Pmm
pmm_free page s = pmm_usage_unuse 1 (record s { bitmap = bitmap_clear s.bitmap (page / 4096) })

-- `for (j = 0; j < count; j++) bitmap_set(bitmap, i + j)`, and the same with `bitmap_clear`
unfoldable pub set_pages : Words → ℕ → ℕ → Words
set_pages map i zero = map
set_pages map i (suc count) = set_pages (bitmap_set map i) (i + 1) count

unfoldable pub clear_pages : Words → ℕ → ℕ → Words
clear_pages map i zero = map
clear_pages map i (suc count) = clear_pages (bitmap_clear map i) (i + 1) count

unfoldable pub pmm_free_range : ℕ → ℕ → Pmm → Pmm
pmm_free_range page count s =
    pmm_usage_unuse count (record s { bitmap = clear_pages s.bitmap (page / 4096) count })

-- What the inner loop of `pmm_alloc_range` finds: nothing in the way, a page in the way at offset
-- `j`, or a read past the end of the bitmap.
pub data Scan : Type 0 where
  clear : Scan
  blocked : ℕ → Scan
  past_end : Scan

-- `count` rounds are left, at offset `j` from page `i`.
unfoldable pub scan_range : ℕ → Pmm → ℕ → ℕ → ℕ → Scan
scan_range size s i zero j = clear
scan_range size s i (suc count) j = elim (ltb (i + j) (size * 32)) [
  | false ↦ past_end
  | true ↦ elim (used s (i + j) && not (for_tables s (i + j))) [
    | true ↦ blocked j
    | false ↦ scan_range size s i count (j + 1)
  ]
]

pub data RangeSearch : Type 0 where
  range_at : ℕ → RangeSearch
  no_range : RangeSearch
  reads_past_end : RangeSearch
  out_of_fuel : RangeSearch

-- The body at the label `retry`, at page `i`: both `goto retry` and the next round come here.
unfoldable pub find_range : ℕ → Pmm → ℕ → ℕ → ℕ → RangeSearch
find_range size s count zero i = out_of_fuel
find_range size s count (suc fuel) i = elim (allocatable s i) [
  | true ↦ elim (scan_range size s i count 0) [
    | clear ↦ range_at i
    | blocked j ↦ find_range size s count fuel (i + j)
    | past_end ↦ reads_past_end
  ]
  | false ↦ elim (ltb (i + 1) (size * 32)) [
    | true ↦ find_range size s count fuel (i + 1)
    | false ↦ no_range
  ]
]

-- `none` is the null pointer; a read past the bitmap is kept apart.
pub data RangeResult : Type 0 where
  allocated : ℕ → Pmm → RangeResult
  null_range : RangeResult
  faulty : RangeResult

unfoldable pub take_range : Pmm → ℕ → RangeSearch → RangeResult
take_range s count (range_at i) =
    allocated (address i) (pmm_usage_use count (record s { bitmap = set_pages s.bitmap i count }))
take_range s count no_range = null_range
take_range s count _ = faulty

unfoldable pub pmm_alloc_range : ℕ → ℕ → Pmm → RangeResult
unfolding take_range
pmm_alloc_range size count s =
    if ltb 0 (size * 32)
    then take_range s count (find_range size s count (size * 32) 0)
    else null_range

-- An entry of the multiboot memory map: 64-bit base and length.
pub record Mmap : Type 0 where
  pub type : ℕ
  pub base : ℕ
  pub length : ℕ

-- What the boot loader and the linker tell: the memory map, the bounds of the kernel and of the
-- page-table region, the addresses of the multiboot structures, and the modules' bounds.
pub record BootInfo : Type 0 where
  pub mmap : List Mmap
  pub kernel_start : ℕ
  pub kernel_end : ℕ
  pub paging_start : ℕ
  pub paging_end : ℕ
  pub multiboot_info : ℕ
  pub modules_addr : ℕ
  pub modules : List (ℕ × ℕ)

-- `while (addr < end) { op(addr); addr += 0x1000; }` on 32-bit addresses; `none`: out of fuel.
unfoldable pub each_page {ℓ} : {S : Type ℓ} → (ℕ → S → S) → ℕ → ℕ → ℕ → S → Option S
each_page op zero addr end s = none
each_page op (suc fuel) addr end s = elim (ltb addr end) [
  | true ↦ each_page op fuel ((addr + 0x1000) % u32_mod) end (op addr s)
  | false ↦ some s
]

-- One round takes a page of the 2 ^ 20 that a 32-bit address space has.
abbrev pub page_fuel : ℕ
page_fuel = 2 ^ 20 + 1

-- `end_addr` of a memory-map entry
unfoldable pub mmap_end : Mmap → ℕ
mmap_end m =
    if ltb 0xffffffff ((m.base + m.length) % 2 ^ 64)
    then 0xfffff000
    else (m.base % u32_mod + m.length) % u32_mod

unfoldable pub free_mmap : List Mmap → Pmm → Option Pmm
free_mmap [] s = some s
free_mmap (m ∷ rest) s =
    (if m.type == 1 && leb m.base 0xfffff000
      then each_page pmm_free page_fuel (m.base % u32_mod) (mmap_end m) s
      else some s)
    >>= free_mmap rest

unfoldable pub mark_modules : List (ℕ × ℕ) → Pmm → Option Pmm
mark_modules [] s = some s
mark_modules ((start, end) ∷ rest) s =
    each_page pmm_mark_used page_fuel start end s >>= mark_modules rest

unfoldable pub mark_paging : ℕ → Pmm → Pmm
mark_paging addr s = record s {
  bitmap_pagetable_mask = bitmap_set s.bitmap_pagetable_mask (addr / 0x1000);
}

-- The two `memset`s: every page used, and none for page tables.
unfoldable pub cleared : ℕ → Pmm → Pmm
cleared size s = record s {
  bitmap = replicate size 0;
  bitmap_pagetable_mask = replicate size 0xffffffff;
}

unfoldable pub pmm_init : ℕ → BootInfo → Pmm → Option Pmm
unfolding free_mmap mark_modules
pmm_init size boot s = do
  freed ← free_mmap boot.mmap (cleared size s)
  kernel ←
      each_page pmm_mark_used page_fuel boot.kernel_start boot.kernel_end
        (record freed { used_memory = 0 })
  paging ← each_page mark_paging page_fuel boot.paging_start boot.paging_end kernel
  let marked = pmm_mark_used boot.modules_addr (pmm_mark_used boot.multiboot_info paging)
  all ← mark_modules boot.modules marked
  some (pmm_mark_used 0 all)
