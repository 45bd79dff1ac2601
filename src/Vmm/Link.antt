-- ===== src/Vmm/Link.antt =====
-- `vmm_map_page` of mckrnl/memory/vmm.c up to its write of the entry: it finds or makes the table.
use goofy_micro_os.Prelude.{
  ℕ, ◌*◌, ◌<◌, bit_or, ◌≡◌, ◌≢◌, refl, ap, sym, ◌∙◌, true, false, Bool-cases, inl, inr, arith, ◌==◌,
  if◌then◌else◌,
}
use goofy_micro_os.Pmm.{Pmm, used}
use goofy_micro_os.Vmm.{Mem, write, Vm, present, page_of, pagedir, clear_entries, share_entry}
use goofy_micro_os.Vmm.Memory.{
  write_here, write_other_page, write_other_place, clear_entries_other, clear_entries_zero,
  EachActive, EachActive-map, share_entry_other,
}
use goofy_micro_os.Vmm.Tables.{Owns, TasksApart, Linked, linked_entry}

-- The pages of the address space and of the tasks are not the page of a new table.
pub used-ne : (s : Pmm) (p q : ℕ) → used s p ≡ true → used s q ≡ false → p ≢ q
used-ne s p q hp hq e = cc (hp, hq, ap (used s) e)

-- Where the table is there, nothing is written.
pub found-Linked :
    {size : ℕ} {m : Mem} {s : Pmm} {c pd : ℕ}
    → Owns size m s c
    → pd < 1024
    → present (m (pagedir m c) pd) ≡ true
    → Linked m c pd (page_of (m (pagedir m c) pd)) m
found-Linked {m} {c} {pd} o small here =
    let apart = o.table_apart pd small here in
    record {
      own = refl;
      not_own = apart.1;
      not_dir = apart.0;
      here = here;
      page = refl;
      others = λ j h. refl;
      tables = λ i j h p. refl;
      apart = λ i h ne p e. ne (o.distinct i pd h small p here e);
      entries = λ j h. rw here;
    }

-- A new table: an unused page `n`, which is cleared, entered in the directory, and shared.
abbrev pub linked_memory : (vm : Vm) (c pd n flags : ℕ) → Mem
linked_memory vm c pd n flags =
    let cleared = clear_entries 1024 0 n vm.memory in
    write (pagedir cleared c) pd (bit_or (bit_or (n * 4096) 1) flags) cleared

abbrev pub shared_memory : (vm : Vm) (c pd n flags : ℕ) → Mem
shared_memory vm c pd n flags =
    if c == vm.kernel_context
    then share_entry c pd vm.tasks (linked_memory vm c pd n flags)
    else linked_memory vm c pd n flags

module _ {size : ℕ} {vm : Vm} {c : ℕ} (pd n flags : ℕ) (o : Owns size vm.memory vm.pmm c)
    (apart : (c == vm.kernel_context) ≡ true → TasksApart vm c)
    (unused : used vm.pmm n ≡ false) where
  cleared_dir : pagedir (clear_entries 1024 0 n vm.memory) c ≡ pagedir vm.memory c
  cleared_dir =
      ap page_of (clear_entries_other 1024 0 n vm.memory c 0 (used-ne vm.pmm c n o.own_used unused))

  -- Pages in use, but the directory, are left alone.
  linked_other :
      (q j : ℕ)
      → q ≢ n
      → q ≢ pagedir vm.memory c
      → linked_memory vm c pd n flags q j ≡ vm.memory q j
  linked_other q j fresh not_dir = rw cleared_dir (
      write_other_page (pagedir vm.memory c) pd (bit_or (bit_or (n * 4096) 1) flags)
        (clear_entries 1024 0 n vm.memory) q j not_dir
      ∙ clear_entries_other 1024 0 n vm.memory q j fresh)

  -- Neither does the sharing loop change what is not a task's directory.
  shared_other :
      (q j : ℕ)
      → ((c == vm.kernel_context) ≡ true
          → EachActive (λ t. pagedir vm.memory t.context ≢ q) vm.tasks)
      → shared_memory vm c pd n flags q j ≡ linked_memory vm c pd n flags q j
  shared_other q j avoid = elim (Bool-cases (c == vm.kernel_context)) [
    | inr other ↦ rw other
    | inl kernel ↦
        let a = apart kernel in
        rw kernel (
          share_entry_other {dir = λ t. pagedir vm.memory t.context} c pd vm.tasks
            (linked_memory vm c pd n flags) q j
            (record {
              named =
                  EachActive-map vm.tasks
                    (λ t both.
                      ap page_of (
                        linked_other t.context 0 (used-ne vm.pmm t.context n both.0 unused) both.1))
                    a.contexts;
              kept = a.kept;
            })
            (avoid kernel))
  ]

  -- A page in use that is no task's directory.
  kept_page :
      (q j : ℕ)
      → used vm.pmm q ≡ true
      → q ≢ pagedir vm.memory c
      → ((c == vm.kernel_context) ≡ true
          → EachActive (λ t. pagedir vm.memory t.context ≢ q) vm.tasks)
      → shared_memory vm c pd n flags q j ≡ vm.memory q j
  kept_page q j in_use not_dir avoid =
      shared_other q j avoid ∙ linked_other q j (used-ne vm.pmm q n in_use unused) not_dir

  kept_dir :
      (j : ℕ)
      → shared_memory vm c pd n flags (pagedir vm.memory c) j
        ≡ linked_memory vm c pd n flags (pagedir vm.memory c) j
  kept_dir j = shared_other (pagedir vm.memory c) j (λ kernel. (apart kernel).not_dir)

  pub new-Linked :
      pd < 1024
      → flags < 4096
      → present (vm.memory (pagedir vm.memory c) pd) ≡ false
      → Linked vm.memory c pd n (shared_memory vm c pd n flags)
  new-Linked small low absent =
      let dir : ℕ = pagedir vm.memory c in
      let cleared : Mem = clear_entries 1024 0 n vm.memory in
      let entry : ℕ = bit_or (bit_or (n * 4096) 1) flags in
      let ok = linked_entry n flags low in
      let at_pd : linked_memory vm c pd n flags dir pd ≡ entry =
        rw cleared_dir (write_here dir pd entry cleared) in
      let n_dir : n ≢ dir = λ e. used-ne vm.pmm dir n o.dir_used unused (sym e) in
      record {
        own =
            kept_page c 0 o.own_used (λ e. o.dir_apart (sym e)) (λ kernel. (apart kernel).not_own);
        not_own = λ e. used-ne vm.pmm c n o.own_used unused (sym e);
        not_dir = n_dir;
        here = ap present (kept_dir pd ∙ at_pd) ∙ ok.0;
        page = ap page_of (kept_dir pd ∙ at_pd) ∙ ok.1;
        others = λ j ne.
            kept_dir j
            ∙ rw cleared_dir (
                write_other_place dir pd entry cleared dir j ne
                ∙ clear_entries_other 1024 0 n vm.memory dir j (λ e. n_dir (sym e)));
        tables = λ i j h p.
            kept_page (page_of (vm.memory dir i)) j (o.table_used i h p) (o.table_apart i h p).0
              (λ kernel. (apart kernel).not_table i h p);
        apart = λ i h ne p e.
            used-ne vm.pmm (page_of (vm.memory dir i)) n (o.table_used i h p) unused e;
        entries = λ j h. rw absent (
            shared_other n j (λ kernel.
              EachActive-map vm.tasks
                (λ t in_use. used-ne vm.pmm (pagedir vm.memory t.context) n in_use unused)
                (apart kernel).dirs_used)
            ∙ rw cleared_dir (
                write_other_page dir pd entry cleared n j n_dir
                ∙ clear_entries_zero 1024 0 n vm.memory j (omega arith) (omega (arith, h))));
      }
