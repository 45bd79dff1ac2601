-- ===== src/Pmm/Boot.antt =====
-- What is used after `pmm_init` of mckrnl/memory/pmm.c.
use goofy_micro_os.Prelude.{
  ℕ, zero, suc, inl, inr, ◌+◌, ◌*◌, ◌/◌, ◌%◌, ◌^◌, ◌≤◌, ◌<◌, ◌≡◌, refl, subst, ◌∙◌, ap, Bool, true,
  ◌&&◌, some, List, [], ◌∷◌, arith, leb, ◌==◌, if◌then◌else◌, length, Bool-cases, replicate,
}
use goofy_micro_os.Prelude.Options.{>>=-eq-some}
use goofy_micro_os.Pmm.{
  Pmm, u32_mod, used, Mmap, BootInfo, each_page, page_fuel, mmap_end, free_mmap, mark_modules,
  mark_paging, cleared, pmm_init, pmm_mark_used, pmm_free,
}
use goofy_micro_os.Pmm.Init.{
  each_page-keeps, HasWords, HoldsUsed, mark-HasWords, free-HasWords, mark-used, mark-HoldsUsed,
  mark_region,
}

-- Every module starts at a 32-bit address.
abbrev pub Starts32 : List (ℕ × ℕ) → Type 0
Starts32 [] = Unit
Starts32 ((start, _) ∷ rest) = (start < u32_mod) × Starts32 rest

mark_modules-HoldsUsed :
    (size j : ℕ)
    → 2 ^ 20 ≤ size * 32
    → (ms : List (ℕ × ℕ)) (s t : Pmm) → Starts32 ms
    → HoldsUsed size j s
    → mark_modules ms s ≡ some t
    → HoldsUsed size j t
unfolding mark_modules
mark_modules-HoldsUsed size j big [] s t b h e =
    let same : s ≡ t = ground (arith, e) in rw (← same) h
mark_modules-HoldsUsed size j big ((start, end) ∷ rest) s t b h e =
    let (u, first_e, rest_e) =
      >>=-eq-some (each_page pmm_mark_used page_fuel start end s) (mark_modules rest) e in
    mark_modules-HoldsUsed size j big rest u t b.1
      (each_page-keeps pmm_mark_used (HoldsUsed size j) (mark-HoldsUsed size j big) page_fuel start
        end s u b.0 h first_e)
      rest_e

free_mmap-HasWords :
    (size : ℕ) (ms : List Mmap) (s t : Pmm)
    → HasWords size s
    → free_mmap ms s ≡ some t
    → HasWords size t
unfolding free_mmap
free_mmap-HasWords size [] s t h e = let same : s ≡ t = ground (arith, e) in rw (← same) h
free_mmap-HasWords size (m ∷ rest) s t h e =
    let (u, first_e, rest_e) = >>=-eq-some _ (free_mmap rest) e in
    free_mmap-HasWords size rest u t
      (elim (Bool-cases (m.type == 1 && leb m.base 0xfffff000)) [
        | inl is ↦
            each_page-keeps pmm_free (HasWords size) (λ a r _. free-HasWords size a r) page_fuel
              (m.base % u32_mod) (mmap_end m) s u (omega arith) h
              (subst
                (λ (b : Bool).
                  (if b
                    then each_page pmm_free page_fuel (m.base % u32_mod) (mmap_end m) s
                    else some s)
                  ≡ some u)
                is first_e)
        | inr is ↦ let same : s ≡ u = ground (arith, is, first_e) in rw (← same) h
      ])
      rest_e

length-replicate : (n v : ℕ) → length (replicate n v) ≡ n
length-replicate zero v = refl
length-replicate (suc n) v = ap suc (length-replicate n v)

-- The addresses that the boot loader hands over fit 32 bits.
pub record IsBoot (boot : BootInfo) : Type 0 where
  pub kernel : boot.kernel_start < u32_mod
  pub kernel_fits : boot.kernel_end ≤ u32_mod
  pub paging : boot.paging_start < u32_mod
  pub info : boot.multiboot_info < u32_mod
  pub mods : boot.modules_addr < u32_mod
  pub starts : Starts32 boot.modules

module _ (size : ℕ) (big : 2 ^ 20 ≤ size * 32) (boot : BootInfo) (is : IsBoot boot)
    (paging all : Pmm)
    (e : mark_modules boot.modules
        (pmm_mark_used boot.modules_addr (pmm_mark_used boot.multiboot_info paging))
      ≡ some all) where
  -- A page that is used before the modules are marked is used at the end.
  used_at_end :
      (j : ℕ)
      → HoldsUsed size j
          (pmm_mark_used boot.modules_addr (pmm_mark_used boot.multiboot_info paging))
      → HoldsUsed size j (pmm_mark_used 0 all)
  used_at_end j h =
      mark-HoldsUsed size j big 0 all (omega arith)
        (mark_modules-HoldsUsed size j big boot.modules _ all is.starts h e)

  used_before_end : (j : ℕ) → HoldsUsed size j paging → used (pmm_mark_used 0 all) j ≡ true
  used_before_end j h =
      (used_at_end j (
        mark-HoldsUsed size j big boot.modules_addr _ is.mods
          (mark-HoldsUsed size j big boot.multiboot_info _ is.info h))).1

  structures_used :
      HasWords size paging
      → (used (pmm_mark_used 0 all) (boot.multiboot_info / 0x1000) ≡ true)
        × (used (pmm_mark_used 0 all) (boot.modules_addr / 0x1000) ≡ true)
        × (used (pmm_mark_used 0 all) 0 ≡ true)
  structures_used words =
      let first_marked = pmm_mark_used boot.multiboot_info paging in
      let words1 = mark-HasWords size boot.multiboot_info paging words in
      let info_page = boot.multiboot_info / 0x1000 in
      let info_used : used first_marked info_page ≡ true =
        mark-used size boot.multiboot_info info_page paging words (omega (arith, is.info))
        ∙ ground arith in
      let mods_page = boot.modules_addr / 0x1000 in
      let mods_used : used (pmm_mark_used boot.modules_addr first_marked) mods_page ≡ true =
        mark-used size boot.modules_addr mods_page first_marked words1 (omega (arith, is.mods))
        ∙ ground arith in
      let mods_hold : HoldsUsed size mods_page (pmm_mark_used boot.modules_addr first_marked) =
        (mark-HasWords size boot.modules_addr first_marked words1, mods_used) in
      let words_all =
        (mark_modules-HoldsUsed size mods_page big boot.modules _ all is.starts mods_hold e).0 in
      (
        (used_at_end info_page (
            mark-HoldsUsed size info_page big boot.modules_addr first_marked is.mods
              (words1, info_used))).1,
        (used_at_end mods_page mods_hold).1,
        mark-used size 0 0 all words_all (omega arith) ∙ ground arith,
      )

-- When `pmm_init` returns, every page of the kernel, the pages of both multiboot structures and
-- page 0 are used, whatever the memory map says.
pub pmm_init-used :
    (size : ℕ) (boot : BootInfo) (s t : Pmm)
    → 2 ^ 20 ≤ size * 32
    → IsBoot boot
    → pmm_init size boot s ≡ some t
    → ((k : ℕ)
        → boot.kernel_start + k * 0x1000 < boot.kernel_end
        → used t ((boot.kernel_start + k * 0x1000) / 0x1000) ≡ true)
      × (used t (boot.multiboot_info / 0x1000) ≡ true)
      × (used t (boot.modules_addr / 0x1000) ≡ true)
      × (used t 0 ≡ true)
unfolding pmm_init mark_paging cleared
pmm_init-used size boot s t big is e =
    let (freed, e1, r1) = >>=-eq-some (free_mmap boot.mmap (cleared size s)) _ e in
    let (kernel, e2, r2) =
      >>=-eq-some
        (each_page pmm_mark_used page_fuel boot.kernel_start boot.kernel_end
          (record freed { used_memory = 0 }))
        _ r1 in
    let (paging, e3, r3) =
      >>=-eq-some (each_page mark_paging page_fuel boot.paging_start boot.paging_end kernel) _ r2 in
    let (all, e4, r4) =
      >>=-eq-some
        (mark_modules boot.modules
          (pmm_mark_used boot.modules_addr (pmm_mark_used boot.multiboot_info paging)))
        _ r3 in
    let words_freed =
      free_mmap-HasWords size boot.mmap (cleared size s) freed (length-replicate size 0) e1 in
    let words_kernel =
      each_page-keeps pmm_mark_used (HasWords size) (λ a r _. mark-HasWords size a r) page_fuel
        boot.kernel_start boot.kernel_end (record freed { used_memory = 0 }) kernel is.kernel
        words_freed e2 in
    let keep : (j : ℕ) → HoldsUsed size j kernel → HoldsUsed size j paging = λ j h.
      each_page-keeps mark_paging (HoldsUsed size j) (λ a r b k. k) page_fuel boot.paging_start
        boot.paging_end kernel paging is.paging h e3 in
    let words_paging =
      each_page-keeps mark_paging (HasWords size) (λ a r b k. k) page_fuel boot.paging_start
        boot.paging_end kernel paging is.paging words_kernel e3 in
    let same : pmm_mark_used 0 all ≡ t = ground (arith, r4) in
    let (info, mods, zeroth) = structures_used size big boot is paging all e4 words_paging in
    (
      λ k inside. rw (← same) (
          used_before_end size big boot is paging all e4 _ (
            keep _ (
              mark_region size big page_fuel boot.kernel_start boot.kernel_end k
                (record freed { used_memory = 0 }) kernel is.kernel is.kernel_fits words_freed e2
                inside))),
      rw (← same) info,
      rw (← same) mods,
      rw (← same) zeroth,
    )
