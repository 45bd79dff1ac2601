-- ===== src/Vmm/Map.antt =====
-- `vmm_map_page` of mckrnl/memory/vmm.c against the translation that the tables give.
use goofy_micro_os.Prelude.{
  ◌⊎◌, ℕ, ◌*◌, ◌/◌, ◌%◌, ◌<◌, ◌≡◌, ◌≢◌, ap, sym, ◌∙◌, true, false, ◌&&◌, Bool-cases, Option-cases,
  inl, inr, none, some, arith, ◌==◌, if◌then◌else◌,
}
use goofy_micro_os.Prelude.Options.{some_pair-eq}
use goofy_micro_os.Pmm.{Pmm, used, pmm_alloc_pagetable}
use goofy_micro_os.Pmm.Alloc.{IsSized, pmm_alloc_pagetable-Claimed}
use goofy_micro_os.Vmm.{Mem, write, Vm, present, page_of, pagedir, table_for}
use goofy_micro_os.Vmm.Memory.{write_here, write_other_page, write_other_place, present-odd}
use goofy_micro_os.Vmm.Tables.{view, Owns, TasksApart, Linked}
use goofy_micro_os.Vmm.Link.{found-Linked, new-Linked}

-- What `table_for` leaves: the table, and at most one more page in use.
pub record Entered (size : ℕ) (vm : Vm) (c pd t : ℕ) (vm' : Vm) : Type 0 where
  pub linked : Linked vm.memory c pd t vm'.memory
  pub sized : IsSized size vm'.pmm
  pub still_used : (j : ℕ) → used vm.pmm j ≡ true → used vm'.pmm j ≡ true
  pub table_used : used vm'.pmm t ≡ true

pub new_table :
    {size : ℕ} {s t : Pmm} {p : ℕ}
    → IsSized size s
    → pmm_alloc_pagetable size s ≡ some (p, t)
    → (p ≡ p / 4096 * 4096)
      × (used s (p / 4096) ≡ false)
      × IsSized size t
      × ((j : ℕ) → used s j ≡ true → used t j ≡ true)
      × (used t (p / 4096) ≡ true)
new_table {size} {s} {t} {p} sized h =
    let c = pmm_alloc_pagetable-Claimed sized h in
    let page : p / 4096 ≡ c.index = omega (arith, c.at) in
    (
      omega (arith, c.at),
      rw page (ground (arith, c.allowed)),
      record {
        small = sized.small;
        words = c.words ∙ sized.words;
        table_words = rw c.tables sized.table_words;
        free_fits = omega (arith, c.less_free);
        used_fits = omega (arith, c.more_used);
      },
      λ j u. ground (arith, c.marked j, u),
      rw page (ground (arith, c.marked c.index)),
    )

pub table_for-Entered :
    {size : ℕ} {vm vm' : Vm} {c pd t : ℕ} (flags : ℕ)
    → Owns size vm.memory vm.pmm c
    → ((c == vm.kernel_context) ≡ true → TasksApart vm c)
    → pd < 1024
    → flags < 4096
    → table_for size c pd flags vm ≡ some (t, vm')
    → Entered size vm c pd t vm'
unfolding table_for
table_for-Entered {size} {vm} {vm'} {c} {pd} {t} flags o apart small low h =
    elim (Bool-cases (present (vm.memory (pagedir vm.memory c) pd))) [
      | inl here ↦
          let e = some_pair-eq (rw here at h) in
          rw (← e.0, ← e.1)
            (record {
              linked = found-Linked o small here;
              sized = o.sized;
              still_used = λ j u. u;
              table_used = o.table_used pd small here;
            })
      | inr absent ↦ elim (Option-cases (pmm_alloc_pagetable size vm.pmm)) [
        | inl full ↦ absurd (cc (rw (absent, full) at h))
        | inr ((p, pmm), got) ↦
            let n = new_table o.sized got in
            let e = some_pair-eq (rw (absent, got) at h) in
            let linked = new-Linked pd (p / 4096) flags o apart n.1 small low absent in
            rw (← e.0, ← e.1)
              (record {
                linked = rw (← n.0) at linked;
                sized = n.2;
                still_used = n.3;
                table_used = n.4;
              })
      ]
    ]

-- The memory after the entry has been written.
module _ {m m' : Mem} {c pd t : ℕ} (pt e : ℕ) (l : Linked m c pd t m') where
  written_dir : pagedir (write t pt e m') c ≡ pagedir m c
  written_dir = ap page_of (write_other_page t pt e m' c 0 (λ same. l.not_own (sym same)) ∙ l.own)

  written_slot : (j : ℕ) → write t pt e m' (pagedir m c) j ≡ m' (pagedir m c) j
  written_slot j = write_other_page t pt e m' (pagedir m c) j (λ same. l.not_dir (sym same))

  -- The new translation: the entry where it was written, and the old translation elsewhere.
  pub write-view :
      (p : ℕ)
      → p < 1024 * 1024
      → view (write t pt e m') c p ≡ (
          if p / 1024 == pd && p % 1024 == pt
          then (if present e then some (page_of e) else none)
          else view m c p)
  unfolding view
  write-view p small = elim (Bool-cases (p / 1024 == pd)) [
    | inl hit ↦
        let same : p / 1024 ≡ pd = ground (arith, hit) in
        elim (Bool-cases (p % 1024 == pt)) [
          | inl exact ↦
              let place : p % 1024 ≡ pt = ground (arith, exact) in
              let true_both : (p / 1024 == pd && p % 1024 == pt) ≡ true =
                ground (arith, hit, exact) in
              rw (
                true_both,
                written_dir,
                same,
                written_slot pd,
                l.here,
                l.page,
                place,
                write_here t pt e m',
              )
          | inr beside ↦
              let false_both : (p / 1024 == pd && p % 1024 == pt) ≡ false =
                ground (arith, beside) in
              let kept = write_other_place t pt e m' t (p % 1024) (ground (arith, beside)) in
              let old = l.entries (p % 1024) (omega arith) in
              rw (false_both, written_dir, same, written_slot pd, l.here, l.page, kept, old)
                (elim (Bool-cases (present (m (pagedir m c) pd))) [
                  | inl there ↦ rw there
                  | inr absent ↦ rw (absent, present-odd 0)
                ])
        ]
    | inr miss ↦
        let false_both : (p / 1024 == pd && p % 1024 == pt) ≡ false = ground (arith, miss) in
        let kept = l.others (p / 1024) (ground (arith, miss)) in
        rw (false_both, written_dir, written_slot (p / 1024), kept)
          (elim (Bool-cases (present (m (pagedir m c) (p / 1024)))) [
            | inr absent ↦ rw absent
            | inl there ↦
                let other =
                  l.apart (p / 1024) (omega (arith, small)) (ground (arith, miss)) there in
                let table : ℕ = page_of (m (pagedir m c) (p / 1024)) in
                rw (
                  there,
                  write_other_page t pt e m' table (p % 1024) other,
                  l.tables (p / 1024) (p % 1024) (omega (arith, small)) there,
                )
          ])
  ]

  slot_cases :
      (i : ℕ)
      → (i ≡ pd)
        ⊎ ((i ≢ pd) × (write t pt e m' (pagedir (write t pt e m') c) i ≡ m (pagedir m c) i))
  slot_cases i = elim (Bool-cases (i == pd)) [
    | inl hit ↦ inl (ground (arith, hit))
    | inr miss ↦
        let ne : i ≢ pd = ground (arith, miss) in
        inr (ne, rw written_dir (written_slot i ∙ l.others i ne))
  ]

  new_slot : page_of (write t pt e m' (pagedir (write t pt e m') c) pd) ≡ t
  new_slot = rw written_dir (ap page_of (written_slot pd) ∙ l.page)

  -- The pages keep their purposes, and the table has one.
  pub write-Owns :
      {size : ℕ} {s s' : Pmm}
      → pd < 1024
      → Owns size m s c
      → IsSized size s'
      → ((j : ℕ) → used s j ≡ true → used s' j ≡ true)
      → used s' t ≡ true
      → Owns size (write t pt e m') s' c
  write-Owns {size} {s} {s'} small o sized still table_used = record {
    sized = sized;
    own_used = still c o.own_used;
    dir_used = rw written_dir (still (pagedir m c) o.dir_used);
    dir_apart = rw written_dir o.dir_apart;
    table_used = λ i h p. elim (slot_cases i) [
      | inl hit ↦ rw (hit, new_slot) table_used
      | inr (ne, same) ↦
          rw same (still (page_of (m (pagedir m c) i)) (o.table_used i h (rw same at p)))
    ];
    table_apart = λ i h p. elim (slot_cases i) [
      | inl hit ↦ rw (hit, new_slot, written_dir) (l.not_dir, l.not_own)
      | inr (ne, same) ↦ rw (same, written_dir) (o.table_apart i h (rw same at p))
    ];
    distinct = λ i j hi hj p q both. elim (slot_cases i) [
      | inl hit ↦ elim (slot_cases j) [
        | inl hit' ↦ hit ∙ sym hit'
        | inr (ne, same) ↦
            absurd
              (l.apart j hj ne (rw same at q) (sym (ap page_of same) ∙ sym both ∙ rw hit new_slot))
      ]
      | inr (ne, same) ↦ elim (slot_cases j) [
        | inl hit' ↦
            absurd
              (l.apart i hi ne (rw same at p) (sym (ap page_of same) ∙ both ∙ rw hit' new_slot))
        | inr (ne', same') ↦
            o.distinct i j hi hj (rw same at p) (rw same' at q)
              (sym (ap page_of same) ∙ both ∙ ap page_of same')
      ]
    ];
  }
