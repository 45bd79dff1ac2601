-- ===== src/Pmm/Init.antt =====
-- The loops of `pmm_init` of mckrnl/memory/pmm.c over 32-bit addresses: when they end, and what they
-- mark and keep.
use goofy_micro_os.Prelude.{
  ℕ, zero, suc, ◌+◌, ◌*◌, ◌/◌, ◌%◌, ◌^◌, ◌≤◌, ◌<◌, ◌≡◌, refl, subst, inl, inr, ◌∙◌, true, false,
  ◌||◌, none, some, arith, ltb, ◌==◌, length, Bool-cases,
}
use goofy_micro_os.Pmm.Bitmap.{bitmap_test-set, length-bitmap_set, length-bitmap_clear}
use goofy_micro_os.Pmm.{
  Pmm, u32_mod, used, each_page, pmm_mark_used, pmm_free, pmm_usage_use, pmm_usage_unuse,
}

module _ {ℓ} {S : Type ℓ} (op : ℕ → S → S) where
  -- A loop to an end below the last page ends within a round for each page and one more.
  pub each_page-ends :
      (fuel addr end : ℕ) (s : S)
      → end ≤ 0xfffff000
      → end ≤ addr + fuel * 0x1000
      → (t : S) × (each_page op (suc fuel) addr end s ≡ some t)
  unfolding each_page
  each_page-ends zero addr end s small enough =
      let done : ltb addr end ≡ false = ground arith in (s, ground (arith, done))
  each_page-ends (suc n) addr end s small enough = elim (Bool-cases (ltb addr end)) [
    | inl more ↦
        let no_wrap : (addr + 0x1000) % u32_mod ≡ addr + 0x1000 = ground arith in
        let (t, e) =
          each_page-ends n ((addr + 0x1000) % u32_mod) end (op addr s) small (omega arith) in
        (t, ground (arith, more, e))
    | inr done ↦ (s, ground (arith, done))
  ]

  -- From a page boundary to an end inside the last page of the address space, the loop never ends:
  -- the address wraps to 0 first.
  pub each_page-diverges :
      (fuel addr end : ℕ) (s : S)
      → addr < u32_mod
      → addr % 0x1000 ≡ 0
      → 0xfffff000 < end
      → each_page op fuel addr end s ≡ none
  unfolding each_page
  each_page-diverges zero addr end s b aligned last = refl
  each_page-diverges (suc n) addr end s b aligned last = ground (
    arith,
    each_page-diverges n ((addr + 0x1000) % u32_mod) end (op addr s) (omega arith) (omega arith)
        last,
  )

  -- What every round keeps, the loop keeps.
  pub each_page-keeps {κ} :
      (P : S → Type κ)
      → ((a : ℕ) (s : S) → a < u32_mod → P s → P (op a s))
      → (fuel addr end : ℕ) (s t : S) → addr < u32_mod
      → P s
      → each_page op fuel addr end s ≡ some t
      → P t
  unfolding each_page
  each_page-keeps P keep zero addr end s t b p e = absurd (cc e)
  each_page-keeps P keep (suc n) addr end s t b p e = elim (Bool-cases (ltb addr end)) [
    | inl more ↦
        each_page-keeps P keep n ((addr + 0x1000) % u32_mod) end (op addr s) t (omega arith)
          (keep addr s b p) (ground (arith, more))
    | inr done ↦ let same : s ≡ t = ground (arith, done) in rw (← same) p
  ]

abbrev pub HasWords : ℕ → Pmm → Type 0
HasWords size s = length s.bitmap ≡ size

pub mark-HasWords : (size a : ℕ) (s : Pmm) → HasWords size s → HasWords size (pmm_mark_used a s)
unfolding pmm_mark_used pmm_usage_use
mark-HasWords size a s h = length-bitmap_set s.bitmap (a / 4096) ∙ h

pub free-HasWords : (size a : ℕ) (s : Pmm) → HasWords size s → HasWords size (pmm_free a s)
unfolding pmm_free pmm_usage_unuse
free-HasWords size a s h = length-bitmap_clear s.bitmap (a / 4096) ∙ h

-- Marking a page keeps every used page used, and makes its own page used.
pub mark-used :
    (size a j : ℕ) (s : Pmm)
    → HasWords size s
    → a / 4096 < size * 32
    → used (pmm_mark_used a s) j ≡ ((a / 4096 == j) || used s j)
unfolding pmm_mark_used pmm_usage_use
mark-used size a j s h b = bitmap_test-set s.bitmap (a / 4096) j (omega arith)

-- The bitmap has `size` words, and page `j` is used.
abbrev pub HoldsUsed : ℕ → ℕ → Pmm → Type 0
HoldsUsed size j s = HasWords size s × (used s j ≡ true)

pub mark-HoldsUsed :
    (size j : ℕ)
    → 2 ^ 20 ≤ size * 32
    → (a : ℕ) (s : Pmm) → a < u32_mod
    → HoldsUsed size j s
    → HoldsUsed size j (pmm_mark_used a s)
mark-HoldsUsed size j big a s b (words, is) =
    (mark-HasWords size a s words, ground (arith, mark-used size a j s words (omega arith)))

-- The loop over a region marks each of its pages.
pub mark_region :
    (size : ℕ)
    → 2 ^ 20 ≤ size * 32
    → (fuel addr end k : ℕ) (s t : Pmm) → addr < u32_mod
    → end ≤ u32_mod
    → HasWords size s
    → each_page pmm_mark_used fuel addr end s ≡ some t
    → addr + k * 0x1000 < end
    → HoldsUsed size ((addr + k * 0x1000) / 0x1000) t
unfolding each_page
mark_region size big zero addr end k s t b f words e inside = absurd (cc e)
mark_region size big (suc n) addr end zero s t b f words e inside =
    each_page-keeps pmm_mark_used (HoldsUsed size ((addr + 0 * 0x1000) / 0x1000))
      (mark-HoldsUsed size ((addr + 0 * 0x1000) / 0x1000) big) n ((addr + 0x1000) % u32_mod) end
      (pmm_mark_used addr s) t (omega arith)
      (
        mark-HasWords size addr s words,
        ground (arith, mark-used size addr ((addr + 0 * 0x1000) / 0x1000) s words (omega arith)),
      )
      (let more : ltb addr end ≡ true = ground arith in ground (arith, more))
mark_region size big (suc n) addr end (suc k) s t b f words e inside =
    let more : ltb addr end ≡ true = ground arith in
    let no_wrap : (addr + 0x1000) % u32_mod ≡ addr + 0x1000 = omega arith in
    let page : ((addr + 0x1000) % u32_mod + k * 0x1000) / 0x1000
        ≡ (addr + suc k * 0x1000) / 0x1000 =
      omega arith in
    subst (λ (i : ℕ). HoldsUsed size i t) page
      (mark_region size big n ((addr + 0x1000) % u32_mod) end k (pmm_mark_used addr s) t
        (omega arith) f (mark-HasWords size addr s words) (ground (arith, more)) (omega arith))
