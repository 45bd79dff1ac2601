-- ===== src/Pmm/Tests.antt =====
-- The theorems on the page allocator at a bitmap of one word, and runs of its functions.
use goofy_micro_os.Prelude.{
  ℕ, ◌+◌, ◌*◌, ◌/◌, ◌<◌, ◌≡◌, ◌≢◌, refl, true, not, ◌&&◌, none, some, [], ◌∷◌, arith, first,
}
use goofy_micro_os.Pmm.Bitmap.{mask, inverted, bitmap_set, bitmap_test}
use goofy_micro_os.Pmm.{
  Pmm, BootInfo, used, allocatable, pmm_alloc, pmm_alloc_pagetable, pmm_free, pmm_mark_used,
  pmm_free_range, pmm_alloc_range, allocated, null_range, pmm_init, cleared, each_page, claim,
  find_range, take_range, mark_paging, mmap_end, scan_range, set_pages, pmm_usage_use, out_of_fuel,
}
use goofy_micro_os.Pmm.Alloc.{IsSized, Claimed, pmm_alloc-Claimed}
use goofy_micro_os.Pmm.Range.{in_range}
use goofy_micro_os.Pmm.Ranges.{
  RangeTaken, pmm_alloc_range-RangeTaken, find_range-ne-out_of_fuel, pmm_free_range-alloc_range,
}
use goofy_micro_os.Pmm.Boot.{IsBoot, pmm_init-used}

-- Page 0 is used, and pages 4 to 7 are kept for page tables.
abbrev machine : Pmm
machine = record {
  bitmap = 0x7fffffff ∷ [];
  bitmap_pagetable_mask = 0xf0ffffff ∷ [];
  free_memory = 0x1f000;
  used_memory = 0x1000;
}

machine-IsSized : IsSized 1 machine
machine-IsSized = omega arith

abbrev machine_1 : Pmm
machine_1 = record machine { bitmap = 0x3fffffff ∷ []; free_memory = 0x1e000; used_memory = 0x2000 }

abbrev machine_4 : Pmm
machine_4 = record machine { bitmap = 0x77ffffff ∷ []; free_memory = 0x1e000; used_memory = 0x2000 }

machine-alloc : pmm_alloc 1 machine ≡ some (0x1000, machine_1)
unfolding pmm_alloc claim first bitmap_test bitmap_set pmm_usage_use mask inverted
machine-alloc = refl

machine-alloc_pagetable : pmm_alloc_pagetable 1 machine ≡ some (0x4000, machine_4)
unfolding pmm_alloc_pagetable claim first bitmap_test bitmap_set pmm_usage_use mask inverted
machine-alloc_pagetable = refl

pmm_alloc-Claimed_example : Claimed (allocatable machine) 1 machine 0x1000 machine_1
pmm_alloc-Claimed_example = pmm_alloc-Claimed machine-IsSized machine-alloc

abbrev full : Pmm
full = record machine { bitmap = 0x0f000000 ∷ [] }

full-alloc : pmm_alloc 1 full ≡ none
unfolding pmm_alloc claim first bitmap_test mask
full-alloc = refl

-- Page 2 is used, and the first two free pages in a row are 8 and 9 behind a used page 3.
abbrev holed : Pmm
holed = record machine { bitmap = 0x40ffffff ∷ [] }

abbrev holed_8 : Pmm
holed_8 = record machine { bitmap = 0x403fffff ∷ []; free_memory = 0x1d000; used_memory = 0x3000 }

holed-range : pmm_alloc_range 1 2 holed ≡ allocated 0x8000 holed_8
unfolding pmm_alloc_range find_range take_range scan_range set_pages bitmap_test bitmap_set
    pmm_usage_use mask inverted
holed-range = refl

pmm_alloc_range-RangeTaken_example : RangeTaken 1 2 holed 0x8000 holed_8
pmm_alloc_range-RangeTaken_example =
    pmm_alloc_range-RangeTaken machine_holed (omega arith) holed-range
  where
    machine_holed : IsSized 1 holed
    machine_holed = omega arith

-- Only page 1 is free.
abbrev tight : Pmm
tight = record machine { bitmap = 0x40000000 ∷ [] }

tight-range : pmm_alloc_range 1 2 tight ≡ null_range
unfolding pmm_alloc_range find_range take_range scan_range bitmap_test mask
tight-range = refl

tight-free : allocatable tight 1 ≡ true
unfolding bitmap_test mask
tight-free = refl

find_range-ne-out_of_fuel_example : find_range 1 holed 2 (1 * 32) 0 ≢ out_of_fuel
find_range-ne-out_of_fuel_example = find_range-ne-out_of_fuel 1 2 holed (omega arith)

pmm_free_range-alloc_range_example :
    ((j : ℕ)
      → used (pmm_free_range 0x8000 2 holed_8) j
        ≡ (not (in_range (0x8000 / 0x1000) 2 j) && used holed j))
    × ((pmm_free_range 0x8000 2 holed_8).free_memory ≡ holed.free_memory)
    × ((pmm_free_range 0x8000 2 holed_8).used_memory ≡ holed.used_memory)
pmm_free_range-alloc_range_example =
    pmm_free_range-alloc_range 2 machine_holed (omega arith) holed-range
  where
    machine_holed : IsSized 1 holed
    machine_holed = omega arith

abbrev boot : BootInfo
boot = record {
  mmap = record { type = 1; base = 0x100000; length = 0x2000 } ∷ [];
  kernel_start = 0x100000;
  kernel_end = 0x101001;
  paging_start = 0x101000;
  paging_end = 0x102000;
  multiboot_info = 0x9000;
  modules_addr = 0xa000;
  modules = [];
}

abbrev booted : Pmm
booted = pmm_mark_used 0 (
    pmm_mark_used 0xa000 (
      pmm_mark_used 0x9000 (
        mark_paging 0x101000 (
          pmm_mark_used 0x101000 (
            pmm_mark_used 0x100000
              (record (pmm_free 0x101000 (pmm_free 0x100000 (cleared 32768 machine))) {
                used_memory = 0;
              }))))))

boot-pmm_init : pmm_init 32768 boot machine ≡ some booted
unfolding pmm_init each_page mmap_end
boot-pmm_init = refl

boot-IsBoot : IsBoot boot
boot-IsBoot = omega arith

pmm_init-used_example :
    ((k : ℕ)
      → 0x100000 + k * 0x1000 < 0x101001
      → used booted ((0x100000 + k * 0x1000) / 0x1000) ≡ true)
    × (used booted (0x9000 / 0x1000) ≡ true)
    × (used booted (0xa000 / 0x1000) ≡ true)
    × (used booted 0 ≡ true)
pmm_init-used_example =
    pmm_init-used 32768 boot machine booted (omega arith) boot-IsBoot boot-pmm_init
