-- ===== src/Vmm/Refine.antt =====
-- `vmm_map_page` of mckrnl/memory/vmm.c as an update of the translation, page by page.
use goofy_micro_os.Prelude.{
  ℕ, ◌+◌, ◌*◌, ◌/◌, ◌%◌, ◌^◌, ◌<◌, bit_and, bit_or, ◌≡◌, ◌∙◌, true, false, not, ◌||◌, ◌&&◌,
  Bool-cases, Option-cases, inl, inr, Option, none, some, arith, ◌==◌, if◌then◌else◌,
}
use goofy_micro_os.Prelude.Bits.{bit_or-add, bit_and-mod_page}
use goofy_micro_os.Vmm.{
  Mem, write, Vm, present, page_of, table_for, mapped, overlaps_kernel, vmm_map_page, vmm_lookup,
}
use goofy_micro_os.Vmm.Memory.{present-odd}
use goofy_micro_os.Vmm.Tables.{view, Owns, TasksApart}
use goofy_micro_os.Vmm.Map.{table_for-Entered, write-view, write-Owns}

-- `virt & 0xfff` and `phys & 0xfff` are tested; then the translation is that of `table_for`.
record MapSteps (size c virt phys flags : ℕ) (vm vm'' : Vm) : Type 0 where
  virt_aligned : virt % 4096 ≡ 0
  phys_aligned : phys % 4096 ≡ 0
  table : ℕ
  entered : Vm
  found : table_for size c (virt / 0x1000 / 1024) flags vm ≡ some (table, entered)
  result : vm'' ≡ record entered {
    memory = write table (virt / 0x1000 % 1024) (bit_or phys flags) entered.memory;
  }

aligned_both :
    (virt phys : ℕ)
    → (not (bit_and virt 0xfff == 0) || not (bit_and phys 0xfff == 0)) ≡ false
    → (virt % 4096 ≡ 0) × (phys % 4096 ≡ 0)
aligned_both virt phys h =
    let h' = rw (bit_and-mod_page virt, bit_and-mod_page phys) at h in
    (ground (arith, h'), ground (arith, h'))

vmm_map_page-MapSteps :
    (size c virt phys flags : ℕ) (vm vm'' : Vm)
    → vmm_map_page size c virt phys flags vm ≡ mapped vm''
    → MapSteps size c virt phys flags vm vm''
unfolding vmm_map_page
vmm_map_page-MapSteps size c virt phys flags vm vm'' h =
    elim (Bool-cases (not (bit_and virt 0xfff == 0) || not (bit_and phys 0xfff == 0))) [
      | inl off ↦ absurd (cc (rw off at h))
      | inr aligned ↦ elim (Bool-cases (overlaps_kernel c (virt / 0x1000 / 1024) vm)) [
        | inl over ↦ absurd (cc (rw (aligned, over) at h))
        | inr apart ↦ elim (Option-cases (table_for size c (virt / 0x1000 / 1024) flags vm)) [
          | inl full ↦ absurd (cc (rw (aligned, apart, full) at h))
          | inr ((t, vm'), got) ↦ record {
            virt_aligned = (aligned_both virt phys aligned).0;
            phys_aligned = (aligned_both virt phys aligned).1;
            table = t;
            entered = vm';
            found = got;
            result = cc (rw (aligned, apart, got) at h);
          }
        ]
      ]
    ]

-- The two indices of a page are those of `virt` when the page is.
same_page :
    (p virt : ℕ)
    → (p / 1024 == virt / 0x1000 / 1024 && p % 1024 == virt / 0x1000 % 1024) ≡ (p == virt / 4096)
same_page p virt = elim (Bool-cases (p == virt / 4096)) [
  | inl same ↦ let e : p ≡ virt / 4096 = ground (arith, same) in rw (same, e) (ground arith)
  | inr differs ↦ rw differs (ground (arith, differs))
]

-- What an entry says of a page.
abbrev pub frame_of : (phys flags : ℕ) → Option ℕ
frame_of phys flags = if present flags then some (page_of phys) else none

-- `vmm_map_page` sets the translation of one page, in an address space that owns its pages and,
-- for the kernel's, is apart from those of the tasks: when it returns 0, the page of `virt` is
-- mapped to the frame of `phys`, or to none if the flags, below 4096, do not have it present, and
-- every other page is translated as before; and the address space still owns its pages.
pub vmm_map_page-view :
    (size c virt phys flags : ℕ) (vm vm' : Vm)
    → Owns size vm.memory vm.pmm c
    → ((c == vm.kernel_context) ≡ true → TasksApart vm c)
    → virt < 2 ^ 32
    → flags < 4096
    → vmm_map_page size c virt phys flags vm ≡ mapped vm'
    → ((p : ℕ)
        → p < 1024 * 1024
        → view vm'.memory c p
          ≡ (if p == virt / 4096 then frame_of phys flags else view vm.memory c p))
      × Owns size vm'.memory vm'.pmm c
vmm_map_page-view size c virt phys flags vm vm' o apart small low h =
    let steps = vmm_map_page-MapSteps size c virt phys flags vm vm' h in
    let pd : ℕ = virt / 0x1000 / 1024 in
    let pt : ℕ = virt / 0x1000 % 1024 in
    let entered = table_for-Entered flags o apart (omega (arith, small)) low steps.found in
    let whole : phys / 4096 * 4096 ≡ phys = omega (arith, steps.phys_aligned) in
    let sum : bit_or phys flags ≡ phys + flags =
      rw whole at (bit_or-add 12 (phys / 4096) flags (omega (arith, low))) in
    let e : ℕ = bit_or phys flags in
    let frame : page_of e ≡ page_of phys = omega (arith, sum, steps.phys_aligned, low) in
    let kept : present e ≡ present flags =
      rw (present-odd e, present-odd flags) (ground (arith, sum, steps.phys_aligned)) in
    rw steps.result (
      λ p hp.
          let written = write-view pt e entered.linked p hp in
          rw (same_page p virt) at (rw (frame, kept) at written),
      write-Owns pt e entered.linked (omega (arith, small)) o entered.sized entered.still_used
          entered.table_used,
    )

-- `vmm_lookup` reads the translation: the address in the frame of the page, or the null pointer
-- where there is none.
pub vmm_lookup-view :
    (ptr c : ℕ) (m : Mem)
    → vmm_lookup ptr c m
      ≡ elim (view m c (ptr / 4096)) [ none ↦ 0 | some frame ↦ frame * 4096 + ptr % 4096 ]
unfolding vmm_lookup view
vmm_lookup-view ptr c m = ground arith

-- After `vmm_map_page` of a present page, with flags below 4096, in an address space that owns its
-- pages and, for the kernel's, is apart from those of the tasks,
-- `vmm_lookup` of an address in that page gives the same place in the frame of `phys`.
pub vmm_lookup-map_page :
    (size c virt phys flags : ℕ) (vm vm' : Vm) (offset : ℕ)
    → Owns size vm.memory vm.pmm c
    → ((c == vm.kernel_context) ≡ true → TasksApart vm c)
    → virt < 2 ^ 32
    → flags < 4096
    → vmm_map_page size c virt phys flags vm ≡ mapped vm'
    → present flags ≡ true
    → offset < 4096
    → vmm_lookup (virt + offset) c vm'.memory ≡ phys + offset
vmm_lookup-map_page size c virt phys flags vm vm' offset o apart small low h there inside =
    let steps = vmm_map_page-MapSteps size c virt phys flags vm vm' h in
    let page : (virt + offset) / 4096 ≡ virt / 4096 = omega (arith, steps.virt_aligned, inside) in
    let place : (virt + offset) % 4096 ≡ offset = omega (arith, steps.virt_aligned, inside) in
    let same : (virt / 4096 == virt / 4096) ≡ true = ground arith in
    let seen =
      (vmm_map_page-view size c virt phys flags vm vm' o apart small low h).0 (virt / 4096)
        (omega (arith, small)) in
    vmm_lookup-view (virt + offset) c vm'.memory
    ∙ rw (page, seen, same, there, place) (omega (arith, steps.phys_aligned))
