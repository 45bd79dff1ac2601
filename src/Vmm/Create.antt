-- ===== src/Vmm/Create.antt =====
-- `vmm_create_context` of mckrnl/memory/vmm.c: a new address space.
use goofy_micro_os.Prelude.{
  ℕ, ◌*◌, ◌/◌, ◌<◌, ◌≡◌, ◌≢◌, refl, ap, sym, ◌∙◌, Bool, true, false, Option-cases, inl, inr, none,
  some, arith,
}
use goofy_micro_os.Prelude.Options.{some_pair-eq}
use goofy_micro_os.Pmm.{Pmm, used, pmm_alloc_pagetable}
use goofy_micro_os.Pmm.Alloc.{IsSized}
use goofy_micro_os.Vmm.{
  Mem, write, Vm, present, page_of, pagedir, clear_entries, vmm_create_context,
}
use goofy_micro_os.Vmm.Memory.{write_here, clear_entries_other, clear_entries_zero, present-odd}
use goofy_micro_os.Vmm.Tables.{view, Owns}
use goofy_micro_os.Vmm.Link.{used-ne}
use goofy_micro_os.Vmm.Map.{new_table}

-- The memory of a new address space with the context on page `c` and the directory `dir`.
abbrev fresh_memory : (c dir : ℕ) → Mem → Mem
fresh_memory c dir m = clear_entries 1024 0 (pagedir (write c 0 dir m) c) (write c 0 dir m)

module _ (m : Mem) (c dir : ℕ) (apart : dir / 4096 ≢ c) where
  fresh_dir : pagedir (fresh_memory c dir m) c ≡ dir / 4096
  fresh_dir =
      let here : pagedir (write c 0 dir m) c ≡ dir / 4096 = ap page_of (write_here c 0 dir m) in
      rw here (
        ap page_of (
          clear_entries_other 1024 0 (dir / 4096) (write c 0 dir m) c 0 (λ e. apart (sym e))
          ∙ write_here c 0 dir m))

  fresh_slot : (i : ℕ) → i < 1024 → present (fresh_memory c dir m (dir / 4096) i) ≡ false
  fresh_slot i h =
      let here : pagedir (write c 0 dir m) c ≡ dir / 4096 = ap page_of (write_here c 0 dir m) in
      rw
        (
          here,
          clear_entries_zero 1024 0 (dir / 4096) (write c 0 dir m) i (omega arith)
              (omega (arith, h)),
        )
        (present-odd 0)

  fresh_absent :
      (i : ℕ)
      → i < 1024
      → present (fresh_memory c dir m (pagedir (fresh_memory c dir m) c) i) ≢ true
  fresh_absent i h p = cc (p, rw (sym fresh_dir) at (fresh_slot i h))

  fresh-Owns :
      {size : ℕ} {s : Pmm}
      → IsSized size s
      → used s c ≡ true
      → used s (dir / 4096) ≡ true
      → Owns size (fresh_memory c dir m) s c
  fresh-Owns sized own own_dir = record {
    sized = sized;
    own_used = own;
    dir_used = rw fresh_dir own_dir;
    dir_apart = rw fresh_dir apart;
    table_used = λ i h p. absurd (fresh_absent i h p);
    table_apart = λ i h p. absurd (fresh_absent i h p);
    distinct = λ i j hi hj p q e. absurd (fresh_absent i hi p);
  }

-- What is not in use after pages have been taken was not in use before.
not_used_before : {x y : Bool} → (x ≡ true → y ≡ true) → y ≡ false → x ≡ false
not_used_before {x = false} grows h = refl
not_used_before {x = true} grows h = absurd (cc (grows refl, h))

-- When `vmm_create_context` returns, the new address space owns its pages, translates no page, and
-- took its pages from those that no one used.
pub vmm_create_context-Owns :
    (size : ℕ) (vm : Vm) {c : ℕ} {vm' : Vm}
    → IsSized size vm.pmm
    → vmm_create_context size vm ≡ some (c, vm')
    → Owns size vm'.memory vm'.pmm c
      × ((p : ℕ) → p < 1024 * 1024 → view vm'.memory c p ≡ none)
      × (used vm.pmm c ≡ false)
      × (used vm.pmm (pagedir vm'.memory c) ≡ false)
unfolding vmm_create_context view
vmm_create_context-Owns size vm {c} {vm'} sized h =
    elim (Option-cases (pmm_alloc_pagetable size vm.pmm)) [
      | inl full ↦ absurd (cc (rw full at h))
      | inr ((p, pmm), got) ↦ elim (Option-cases (pmm_alloc_pagetable size pmm)) [
        | inl full ↦ absurd (cc (rw (got, full) at h))
        | inr ((dir, pmm'), got') ↦
            let a = new_table sized got in
            let b = new_table a.2 got' in
            let e = some_pair-eq (rw (got, got') at h) in
            let apart : dir / 4096 ≢ p / 4096 =
              λ same. used-ne pmm (p / 4096) (dir / 4096) a.4 b.1 (sym same) in
            let unused : used vm.pmm (dir / 4096) ≡ false =
              not_used_before (a.3 (dir / 4096)) b.1 in
            rw (← e.0, ← e.1)
              (
                fresh-Owns vm.memory (p / 4096) dir apart b.2 (b.3 (p / 4096) a.4) b.4,
                λ q small. rw (fresh_dir vm.memory (p / 4096) dir apart) (
                    rw (
                      fresh_slot vm.memory (p / 4096) dir apart (q / 1024) (omega (arith, small)))),
                a.1,
                rw (fresh_dir vm.memory (p / 4096) dir apart) unused,
              )
      ]
    ]
