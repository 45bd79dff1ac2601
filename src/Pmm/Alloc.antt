-- ===== src/Pmm/Alloc.antt =====
-- `pmm_alloc`, `pmm_alloc_pagetable`, `pmm_free` and the memory counters of mckrnl/memory/pmm.c.
use goofy_micro_os.Prelude.{
  ℕ, ◌+◌, ◌*◌, ◌/◌, ◌%◌, ◌≤◌, ◌<◌, ◌≡◌, refl, ◌≢◌, ◌∙◌, ap, Bool, true, false, ◌||◌, Option, none,
  some, arith, ◌==◌, length, first, first-Found, first-none,
}
use goofy_micro_os.Pmm.Bitmap.{bitmap_set, bitmap_test-set, bitmap_test-clear, length-bitmap_set}
use goofy_micro_os.Pmm.{
  Pmm, u32_mod, sub32, used, allocatable, allocatable_table, address, claim, pmm_alloc,
  pmm_alloc_pagetable, pmm_free, pmm_usage_use, pmm_usage_unuse,
}

-- Both bitmaps have `size` words, and the counters fit 32 bits.
pub record IsSized (size : ℕ) (s : Pmm) : Type 0 where
  pub small : size ≤ 32768
  pub words : length s.bitmap ≡ size
  pub table_words : length s.bitmap_pagetable_mask ≡ size
  pub free_fits : s.free_memory < u32_mod
  pub used_fits : s.used_memory < u32_mod

-- What an allocator that takes the first page with `test` has done when it returns `p`.
pub record Claimed (test : ℕ → Bool) (size : ℕ) (s : Pmm) (p : ℕ) (t : Pmm) : Type 0 where
  pub index : ℕ
  pub inside : index < size * 32
  pub at : p ≡ index * 0x1000
  pub allowed : test index ≡ true
  pub lowest : (j : ℕ) → j < index → test j ≡ false
  pub marked : (j : ℕ) → used t j ≡ ((index == j) || used s j)
  pub words : length t.bitmap ≡ length s.bitmap
  pub tables : t.bitmap_pagetable_mask ≡ s.bitmap_pagetable_mask
  pub less_free : t.free_memory ≡ sub32 s.free_memory 0x1000
  pub more_used : t.used_memory ≡ (s.used_memory + 0x1000) % u32_mod

-- Two addresses of pages in the bitmap are equal only for one page.
pub address-lt : {size i : ℕ} → size ≤ 32768 → i < size * 32 → address i ≡ i * 0x1000
address-lt h k = omega arith

claim-some :
    (s : Pmm) (o : Option ℕ) {p : ℕ} {t : Pmm}
    → claim s o ≡ some (p, t)
    → (i : ℕ) × (o ≡ some i)
      × (p ≡ address i)
      × (t ≡ pmm_usage_use 1 (record s { bitmap = bitmap_set s.bitmap i }))
unfolding claim
claim-some s none h = absurd (cc h)
claim-some s (some i) h = (i, refl, ground arith, ground arith)

claim-none : (s : Pmm) (o : Option ℕ) → claim s o ≡ none → o ≡ none
unfolding claim
claim-none s none h = refl
claim-none s (some i) h = absurd (cc h)

module _ (test : ℕ → Bool) {size : ℕ} {s : Pmm} (sized : IsSized size s) where
  claim-Claimed :
      {p : ℕ} {t : Pmm} → claim s (first test (size * 32) 0) ≡ some (p, t) → Claimed test size s p t
  unfolding pmm_usage_use
  claim-Claimed h =
      let (i, hit, at, made) = claim-some s (first test (size * 32) 0) h in
      let found = first-Found test (size * 32) 0 i hit in
      record {
        index = i;
        inside = omega (arith, found.below);
        at = at ∙ address-lt sized.small (omega (arith, found.below));
        allowed = found.holds;
        lowest = λ j b. found.lowest j (omega arith) b;
        marked =
            λ j. rw made (bitmap_test-set s.bitmap i j (omega (arith, found.below, sized.words)));
        words = ap (λ (r : Pmm). length r.bitmap) made ∙ length-bitmap_set s.bitmap i;
        tables = ap (λ (r : Pmm). r.bitmap_pagetable_mask) made;
        less_free = ap (λ (r : Pmm). r.free_memory) made;
        more_used = ap (λ (r : Pmm). r.used_memory) made;
      }

-- When `pmm_alloc` returns, the page is the lowest that is neither used nor kept for page tables,
-- it alone becomes used, and one page moves from the free to the used memory.
pub pmm_alloc-Claimed :
    {size : ℕ} {s : Pmm} {p : ℕ} {t : Pmm}
    → IsSized size s
    → pmm_alloc size s ≡ some (p, t)
    → Claimed (allocatable s) size s p t
unfolding pmm_alloc
pmm_alloc-Claimed {s} sized h = claim-Claimed (allocatable s) sized h

-- When `pmm_alloc_pagetable` returns, the page is the lowest unused one of the page-table region,
-- and the state changes as by `pmm_alloc`.
pub pmm_alloc_pagetable-Claimed :
    {size : ℕ} {s : Pmm} {p : ℕ} {t : Pmm}
    → IsSized size s
    → pmm_alloc_pagetable size s ≡ some (p, t)
    → Claimed (allocatable_table s) size s p t
unfolding pmm_alloc_pagetable
pmm_alloc_pagetable-Claimed {s} sized h = claim-Claimed (allocatable_table s) sized h

-- `pmm_alloc` aborts only when each page of the bitmap is used or kept for page tables.
pub pmm_alloc-none :
    (size : ℕ) (s : Pmm)
    → pmm_alloc size s ≡ none
    → (i : ℕ) → i < size * 32
    → allocatable s i ≡ false
unfolding pmm_alloc
pmm_alloc-none size s h i b =
    first-none (allocatable s) (size * 32) 0 (claim-none s (first (allocatable s) (size * 32) 0) h)
      i (omega arith) (omega arith)

-- From one state `pmm_alloc` and `pmm_alloc_pagetable` never return the same page.
pub alloc-ne-alloc_pagetable :
    {size : ℕ} {s : Pmm} {p q : ℕ} {t u : Pmm}
    → IsSized size s
    → pmm_alloc size s ≡ some (p, t)
    → pmm_alloc_pagetable size s ≡ some (q, u)
    → p ≢ q
alloc-ne-alloc_pagetable {s} {p} {q} sized h k e =
    let a = pmm_alloc-Claimed sized h in
    let b = pmm_alloc_pagetable-Claimed sized k in
    let same : a.index ≡ b.index = omega (arith, a.at, b.at, e) in
    let first_page : allocatable s b.index ≡ true = rw (← same) a.allowed in
    ground (arith, first_page, b.allowed)

-- Freeing the page that `pmm_alloc` returned restores the bitmap's answers, the page-table region
-- and both counters.
pub pmm_free-alloc :
    {size : ℕ} {s : Pmm} {p : ℕ} {t : Pmm}
    → IsSized size s
    → pmm_alloc size s ≡ some (p, t)
    → ((j : ℕ) → used (pmm_free p t) j ≡ used s j)
      × ((pmm_free p t).bitmap_pagetable_mask ≡ s.bitmap_pagetable_mask)
      × ((pmm_free p t).free_memory ≡ s.free_memory)
      × ((pmm_free p t).used_memory ≡ s.used_memory)
unfolding pmm_free pmm_usage_unuse
pmm_free-alloc {size} {s} {p} {t} sized h =
    let c = pmm_alloc-Claimed sized h in
    let page : p / 4096 ≡ c.index = omega (arith, c.at) in
    (
      λ j.
          rw
            (
              page,
              bitmap_test-clear t.bitmap c.index j (omega (arith, c.words, c.inside, sized.words)),
            )
            (ground (arith, c.marked j, c.allowed)),
      c.tables,
      omega (arith, c.less_free, sized.free_fits),
      omega (arith, c.more_used, sized.used_fits),
    )
