-- ===== src/Vmm.antt =====
-- The address spaces of mckrnl/memory/vmm.c. Physical memory is read and written as 32-bit entries,
-- by page and by place in the page, which is how page directories and page tables are used; a context
-- is the page of its `vmm_context_t`, whose first entry is `pagedir`. Pages come from Pmm.
pub mod Memory
pub mod Tables
pub mod Link
pub mod Map
pub mod Refine
pub mod Create
mod Tests
use goofy_micro_os.Prelude.{
  ℕ, zero, suc, ◌+◌, ◌-◌, ◌*◌, ◌/◌, ◌%◌, ◌^◌, bit_and, bit_or, Bool, true, false, not, ◌&&◌, ◌||◌,
  Option, none, some, List, [], ◌∷◌, ltb, leb, ◌==◌, if◌then◌else◌,
}
use goofy_micro_os.Pmm.{
  Pmm, RangeResult, allocated, null_range, faulty, pmm_alloc_pagetable, pmm_free, pmm_alloc_range,
  pmm_free_range, u32_mod,
}

-- The entry at a place of a page.
abbrev pub Mem : Type 0
Mem = ℕ → ℕ → ℕ

unfoldable pub write : (page place value : ℕ) → Mem → Mem
write page place value m q j = if q == page && j == place then value else m q j

-- What `tasks[i]` says of an address space.
pub record TaskContext : Type 0 where
  pub active : Bool
  pub context : ℕ

pub record Vm : Type 0 where
  pub memory : Mem
  pub kernel_context : ℕ
  pub tasks : List TaskContext
  pub pmm : Pmm

-- `entry & PTE_PRESENT`
unfoldable pub present : ℕ → Bool
present entry = not (bit_and entry 1 == 0)

-- The page that `entry & ~0xFFF` is the address of.
abbrev pub page_of : ℕ → ℕ
page_of entry = entry / 4096

-- The page of `context->pagedir`.
abbrev pub pagedir : Mem → ℕ → ℕ
pagedir m context = page_of (m context 0)

-- `for (i = 0; i < 1024; i++) table[i] = 0;` with `count` rounds left.
unfoldable pub clear_entries : (count i page : ℕ) → Mem → Mem
clear_entries zero i page m = m
clear_entries (suc count) i page m = clear_entries count (i + 1) page (write page i 0 m)

unfoldable pub vmm_create_context : (size : ℕ) → Vm → Option (ℕ × Vm)
vmm_create_context size vm = directory (pmm_alloc_pagetable size vm.pmm)
  where
    finish : ℕ → Option (ℕ × Pmm) → Option (ℕ × Vm)
    finish context none = none
    finish context (some (dir, pmm)) =
        let m = write (context / 4096) 0 dir vm.memory in
        some (
          context / 4096,
          record vm { memory = clear_entries 1024 0 (pagedir m (context / 4096)) m; pmm = pmm },
        )

    directory : Option (ℕ × Pmm) → Option (ℕ × Vm)
    directory none = none
    directory (some (context, pmm)) = finish context (pmm_alloc_pagetable size pmm)

-- A new entry of the kernel's directory goes to the directory of each active task.
unfoldable pub share_entry : (context pd_index : ℕ) → List TaskContext → Mem → Mem
share_entry context pd_index [] m = m
share_entry context pd_index (t ∷ ts) m = share_entry context pd_index ts (
    if t.active then write (pagedir m t.context) pd_index (m (pagedir m context) pd_index) m else m)

-- What `vmm_map_page` comes to before it writes the entry: the page of the table, or an `abortf`.
unfoldable pub table_for : (size context pd_index flags : ℕ) → Vm → Option (ℕ × Vm)
table_for size context pd_index flags vm =
    if present (vm.memory (pagedir vm.memory context) pd_index)
    then some (page_of (vm.memory (pagedir vm.memory context) pd_index), vm)
    else fresh (pmm_alloc_pagetable size vm.pmm)
  where
    fresh : Option (ℕ × Pmm) → Option (ℕ × Vm)
    fresh none = none
    fresh (some (table, pmm)) =
        let cleared = clear_entries 1024 0 (table / 4096) vm.memory in
        let linked =
          write (pagedir cleared context) pd_index (bit_or (bit_or table 1) flags) cleared in
        let shared =
          if context == vm.kernel_context
          then share_entry context pd_index vm.tasks linked
          else linked in
        some (table / 4096, record vm { memory = shared; pmm = pmm })

pub data MapResult : Type 0 where
  mapped : Vm → MapResult
  unaligned : MapResult
  aborts : MapResult

-- Whether the kernel has a table where a task asks for one.
abbrev pub overlaps_kernel : (context pd_index : ℕ) → Vm → Bool
overlaps_kernel context pd_index vm =
    not (context == vm.kernel_context)
    && present (vm.memory (pagedir vm.memory vm.kernel_context) pd_index)

unfoldable pub vmm_map_page : (size context virt phys flags : ℕ) → Vm → MapResult
vmm_map_page size context virt phys flags vm =
    let pd_index = virt / 0x1000 / 1024 in
    if not (bit_and virt 0xfff == 0) || not (bit_and phys 0xfff == 0)
    then unaligned
    else if overlaps_kernel context pd_index vm
    then aborts
    else enter (table_for size context pd_index flags vm)
  where
    enter : Option (ℕ × Vm) → MapResult
    enter none = aborts
    enter (some (table, vm')) =
        let pt_index = virt / 0x1000 % 1024 in
        mapped (record vm' { memory = write table pt_index (bit_or phys flags) vm'.memory })

-- 0 is the null pointer.
unfoldable pub vmm_lookup : (ptr context : ℕ) → Mem → ℕ
vmm_lookup ptr context m =
    let pd_index = ptr / 0x1000 / 1024 in
    let pt_index = ptr / 0x1000 % 1024 in
    let dir_entry = m (pagedir m context) pd_index in
    let entry = m (page_of dir_entry) pt_index in
    if present dir_entry
    then (if present entry then page_of entry * 4096 + ptr % 0x1000 else 0)
    else 0

-- `count` entries are left, from `i` on.
unfoldable pub clone_loop : (count i context : ℕ) → Vm → Mem → Mem
clone_loop zero i context vm m = m
clone_loop (suc count) i context vm m =
    let entry = m (pagedir m vm.kernel_context) i in
    clone_loop count (i + 1) context vm
      (if present entry then write (pagedir m context) i entry m else m)

unfoldable pub vmm_clone_kernel_context : ℕ → Vm → Vm
vmm_clone_kernel_context context vm = record vm { memory = clone_loop 1024 0 context vm vm.memory }

-- The inner loop of `vmm_destroy_context`, at entry `i` of the directory and from entry `j` of its
-- table on.
unfoldable pub free_frames : (count i j table : ℕ) → Vm → Pmm → Pmm
free_frames zero i j table vm pmm = pmm
free_frames (suc count) i j table vm pmm =
    let entry = vm.memory table j in
    let kernel_entry = vm.memory (pagedir vm.memory vm.kernel_context) i in
    let kernel_has = present kernel_entry && present (vm.memory (page_of kernel_entry) j) in
    free_frames count i (j + 1) table vm
      (if present entry && not kernel_has then pmm_free (page_of entry * 4096) pmm else pmm)

unfoldable pub free_tables : (count i context : ℕ) → Vm → Pmm → Pmm
free_tables zero i context vm pmm = pmm
free_tables (suc count) i context vm pmm =
    let entry = vm.memory (pagedir vm.memory context) i in
    let freed = free_frames 1024 i 0 (page_of entry) vm pmm in
    free_tables count (i + 1) context vm (
      if present entry
      then (if present (vm.memory (pagedir vm.memory vm.kernel_context) i)
          then freed
          else pmm_free (page_of entry * 4096) freed)
      else pmm)

unfoldable pub vmm_destroy_context : ℕ → Vm → Vm
vmm_destroy_context context vm = record vm {
  pmm =
      pmm_free (context * 4096)
        (pmm_free (pagedir vm.memory context * 4096) (free_tables 1024 0 context vm vm.pmm));
}

-- `while (start < end)` on 32-bit addresses; `none`: out of fuel, an abort, or an unaligned start.
unfoldable pub vmm_identity_map : (fuel size start end : ℕ) → Vm → Option Vm
vmm_identity_map zero size start end vm = none
vmm_identity_map (suc fuel) size start end vm = elim (ltb start end) [
  | false ↦ some vm
  | true ↦ elim (vmm_map_page size vm.kernel_context start start 3 vm) [
    | mapped vm' ↦ vmm_identity_map fuel size ((start + 0x1000) % u32_mod) end vm'
    | unaligned ↦ vmm_identity_map fuel size ((start + 0x1000) % u32_mod) end vm
    | aborts ↦ none
  ]
]

-- The loop of `vmm_alloc`, with `count` pages left, from the `i`-th on; it ignores what
-- `vmm_map_page` returns.
unfoldable pub map_range : (count i size ptr : ℕ) → Vm → Option Vm
map_range zero i size ptr vm = some vm
map_range (suc count) i size ptr vm =
    let addr = (ptr + i * 0x1000) % u32_mod in
    elim (vmm_map_page size vm.kernel_context addr addr 3 vm) [
      | mapped vm' ↦ map_range count (i + 1) size ptr vm'
      | unaligned ↦ map_range count (i + 1) size ptr vm
      | aborts ↦ none
    ]

-- The pointer, which is 0 when no range is free: the pages from 0 on are mapped then, too.
unfoldable pub vmm_alloc : (size num_pages : ℕ) → Vm → Option (ℕ × Vm)
vmm_alloc size num_pages vm = elim (pmm_alloc_range size num_pages vm.pmm) [
  | allocated ptr pmm ↦ with_ptr ptr (map_range num_pages 0 size ptr (record vm { pmm = pmm }))
  | null_range ↦ with_ptr 0 (map_range num_pages 0 size 0 vm)
  | faulty ↦ none
]
  where
    with_ptr : ℕ → Option Vm → Option (ℕ × Vm)
    with_ptr ptr none = none
    with_ptr ptr (some vm) = some (ptr, vm)

unfoldable pub vmm_free : (ptr num_pages : ℕ) → Vm → Vm
vmm_free ptr num_pages vm = record vm { pmm = pmm_free_range ptr num_pages vm.pmm }
