-- ===== src/Vmm/Tests.antt =====
-- The theorems on address spaces at a machine of 32 pages, and runs of their functions.
use goofy_micro_os.Prelude.{
  ℕ, ◌+◌, ◌*◌, ◌/◌, ◌<◌, ◌≡◌, ◌≢◌, refl, true, false, ◌&&◌, some, none, Option, [], ◌∷◌, ◌==◌,
  if◌then◌else◌, first, arith,
}
use goofy_micro_os.Pmm.Bitmap.{bitmap_set, bitmap_test, mask, inverted}
use goofy_micro_os.Pmm.{Pmm, used, pmm_alloc_pagetable, claim, pmm_usage_use}
use goofy_micro_os.Vmm.{
  Vm, present, pagedir, table_for, MapResult, mapped, unaligned, aborts, vmm_map_page, vmm_lookup,
  vmm_create_context,
}
use goofy_micro_os.Vmm.Tables.{view, Owns, TasksApart}
use goofy_micro_os.Vmm.Refine.{frame_of, vmm_map_page-view, vmm_lookup-map_page}
use goofy_micro_os.Vmm.Create.{vmm_create_context-Owns}

-- Pages 0 to 2 are used, and pages 4 to 7 are kept for page tables.
abbrev pages : Pmm
pages = record {
  bitmap = 0x1fffffff ∷ [];
  bitmap_pagetable_mask = 0xf0ffffff ∷ [];
  free_memory = 0x1d000;
  used_memory = 0x3000;
}

-- The kernel's context on page 1, with the empty directory on page 2.
abbrev kernel : Vm
kernel = record {
  memory = λ q j. if q == 1 && j == 0 then 0x2000 else 0;
  kernel_context = 1;
  tasks = [];
  pmm = pages;
}

no_entry : (i : ℕ) → present (kernel.memory 2 i) ≢ true
unfolding present
no_entry i h = cc h

kernel-Owns : Owns 1 kernel.memory kernel.pmm 1
unfolding bitmap_test mask
kernel-Owns = record {
  sized = omega arith;
  own_used = refl;
  dir_used = refl;
  dir_apart = omega arith;
  table_used = λ i h p. absurd (no_entry i p);
  table_apart = λ i h p. absurd (no_entry i p);
  distinct = λ i j hi hj p q e. absurd (no_entry i p);
}

kernel-TasksApart : TasksApart kernel 1
kernel-TasksApart = record {
  kept = tt;
  contexts = tt;
  dirs_used = tt;
  not_own = tt;
  not_dir = tt;
  not_table = λ i h p. tt;
}

abbrev after : MapResult → Vm
after (mapped vm) = vm
after unaligned = kernel
after aborts = kernel

abbrev extended : Vm
extended = after (vmm_map_page 1 1 0x5000 0x9000 3 kernel)

kernel_maps : vmm_map_page 1 1 0x5000 0x9000 3 kernel ≡ mapped extended
unfolding vmm_map_page table_for present pmm_alloc_pagetable claim first bitmap_test bitmap_set mask
kernel_maps = refl

vmm_map_page-view_example :
    ((p : ℕ)
      → p < 1024 * 1024
      → view extended.memory 1 p
        ≡ (if p == 0x5000 / 4096 then frame_of 0x9000 3 else view kernel.memory 1 p))
    × Owns 1 extended.memory extended.pmm 1
vmm_map_page-view_example =
    vmm_map_page-view 1 1 0x5000 0x9000 3 kernel extended kernel-Owns (λ same. kernel-TasksApart)
      (omega arith) (omega arith) kernel_maps

vmm_lookup-map_page_example : vmm_lookup (0x5000 + 0x123) 1 extended.memory ≡ 0x9000 + 0x123
unfolding present
vmm_lookup-map_page_example =
    vmm_lookup-map_page 1 1 0x5000 0x9000 3 kernel extended 0x123 kernel-Owns
      (λ same. kernel-TasksApart) (omega arith) (omega arith) kernel_maps refl (omega arith)

unaligned_refused : vmm_map_page 1 1 0x5001 0x9000 3 kernel ≡ unaligned
unfolding vmm_map_page
unaligned_refused = refl

abbrev made : Option (ℕ × Vm) → Vm
made none = kernel
made (some (c, vm)) = vm

abbrev with_context : Vm
with_context = made (vmm_create_context 1 kernel)

context_made : vmm_create_context 1 kernel ≡ some (4, with_context)
unfolding vmm_create_context pmm_alloc_pagetable claim first bitmap_test bitmap_set mask
    pmm_usage_use inverted
context_made = refl

vmm_create_context-Owns_example :
    Owns 1 with_context.memory with_context.pmm 4
    × ((p : ℕ) → p < 1024 * 1024 → view with_context.memory 4 p ≡ none)
    × (used pages 4 ≡ false)
    × (used pages (pagedir with_context.memory 4) ≡ false)
vmm_create_context-Owns_example = vmm_create_context-Owns 1 kernel (omega arith) context_made
