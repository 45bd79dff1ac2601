-- ===== src/Pmm/Ranges.antt =====
-- What `pmm_alloc_range` and `pmm_free_range` of mckrnl/memory/pmm.c promise, and what they do not.
use goofy_micro_os.Prelude.{
  ℕ, zero, suc, ◌+◌, ◌-◌, ◌*◌, ◌/◌, ◌%◌, ◌≤◌, ◌<◌, ◌≡◌, refl, ◌≢◌, ◌∙◌, ap, true, false, not, ◌&&◌,
  ◌||◌, arith, length,
}
use goofy_micro_os.Pmm.{
  set_pages, Pmm, used, for_tables, allocatable, address, clear, scan_range, RangeSearch, range_at,
  no_range, out_of_fuel, find_range, allocated, null_range, take_range, pmm_alloc_range,
  pmm_free_range, pmm_usage_use, pmm_usage_unuse, u32_mod, sub32,
}
use goofy_micro_os.Pmm.Alloc.{IsSized, address-lt}
use goofy_micro_os.Pmm.Range.{
  in_range, in_the_way, length-set_pages, bitmap_test-set_pages, bitmap_test-clear_pages,
  scan_range-clear, find_range-ends, find_range-found, find_range-none,
}

-- What `pmm_alloc_range` has done when it returns `p` for `count` pages.
pub record RangeTaken (size count : ℕ) (s : Pmm) (p : ℕ) (t : Pmm) : Type 0 where
  pub index : ℕ
  pub at : p ≡ index * 0x1000
  pub starts_free : allocatable s index ≡ true
  pub fits : index + count ≤ size * 32
  pub not_in_the_way : (j : ℕ) → in_range index count j ≡ true → in_the_way s j ≡ false
  pub marked : (j : ℕ) → used t j ≡ (in_range index count j || used s j)
  pub words : length t.bitmap ≡ length s.bitmap
  pub tables : t.bitmap_pagetable_mask ≡ s.bitmap_pagetable_mask
  pub less_free : t.free_memory ≡ sub32 s.free_memory (count * 0x1000)
  pub more_used : t.used_memory ≡ (s.used_memory + count * 0x1000) % u32_mod

take_range-allocated :
    (s : Pmm) (count : ℕ) (x : RangeSearch) {p : ℕ} {t : Pmm}
    → take_range s count x ≡ allocated p t
    → (i : ℕ) × (x ≡ range_at i) × (take_range s count (range_at i) ≡ allocated p t)
unfolding take_range
take_range-allocated s count (range_at i) h = (i, refl, h)
take_range-allocated s count no_range h = absurd (cc h)
take_range-allocated s count _ h = absurd (cc h)

take_range-null :
    (s : Pmm) (count : ℕ) (x : RangeSearch) → take_range s count x ≡ null_range → x ≡ no_range
unfolding take_range
take_range-null s count (range_at i) h = absurd (cc h)
take_range-null s count no_range h = refl
take_range-null s count _ h = absurd (cc h)

-- The end of a range that the scan has come through.
range_fits :
    (size : ℕ) (s : Pmm) (i count : ℕ)
    → i < size * 32
    → scan_range size s i count 0 ≡ clear
    → i + count ≤ size * 32
range_fits size s i zero b e = omega arith
range_fits size s i (suc n) b e =
    omega (arith, (scan_range-clear size s i (suc n) 0 e n (omega arith) (omega arith)).0)

take_range-range_at :
    (s : Pmm) (count i : ℕ) {t : Pmm} {p : ℕ}
    → take_range s count (range_at i) ≡ allocated p t
    → (p ≡ address i) × (t ≡ pmm_usage_use count (record s { bitmap = set_pages s.bitmap i count }))
unfolding take_range
take_range-range_at s count i h = (ground arith, ground arith)

RangeTaken-make :
    {size count p : ℕ} {s t : Pmm} (sized : IsSized size s) (i : ℕ)
    → i < size * 32
    → allocatable s i ≡ true
    → scan_range size s i count 0 ≡ clear
    → take_range s count (range_at i) ≡ allocated p t
    → RangeTaken size count s p t
unfolding pmm_usage_use
RangeTaken-make {size} {count} {s} sized i b free scanned made =
    let (at, is) = take_range-range_at s count i made in
    let fits = range_fits size s i count b scanned in
    let inner = scan_range-clear size s i count 0 scanned in
    record {
      index = i;
      at = at ∙ address-lt sized.small b;
      starts_free = free;
      fits = fits;
      not_in_the_way = λ j h.
          let back : i + (j - i) ≡ j = ground arith in
          rw back at (inner (j - i) (omega arith) (ground arith)).1;
      marked =
          λ j. rw is (bitmap_test-set_pages s.bitmap i count j (omega (arith, fits, sized.words)));
      words = ap (λ (r : Pmm). length r.bitmap) is ∙ length-set_pages s.bitmap i count;
      tables = ap (λ (r : Pmm). r.bitmap_pagetable_mask) is;
      less_free = ap (λ (r : Pmm). r.free_memory) is;
      more_used = ap (λ (r : Pmm). r.used_memory) is;
    }

-- When `pmm_alloc_range` returns, the range starts at a page that is neither used nor kept for page
-- tables, lies in the bitmap and holds no page that is used and not kept for page tables; exactly
-- its pages become used, and `count` pages move from the free to the used memory.
pub pmm_alloc_range-RangeTaken :
    {size count : ℕ} {s : Pmm} {p : ℕ} {t : Pmm}
    → IsSized size s
    → 0 < size
    → pmm_alloc_range size count s ≡ allocated p t
    → RangeTaken size count s p t
unfolding pmm_alloc_range
pmm_alloc_range-RangeTaken {size} {count} {s} {p} {t} sized pos h =
    let search = find_range size s count (size * 32) 0 in
    let taken : take_range s count search ≡ allocated p t = ground (arith, h) in
    let (i, e, made) = take_range-allocated s count search taken in
    let (b, free, scanned) = find_range-found size s count (size * 32) 0 i (omega arith) e in
    RangeTaken-make sized i b free scanned made

-- When `pmm_alloc_range` returns the null pointer, each page that is neither used nor kept for page
-- tables is followed, within `count` pages, by one that is used and not kept for page tables.
pub pmm_alloc_range-null :
    (size count : ℕ) (s : Pmm) (r : ℕ)
    → pmm_alloc_range size count s ≡ null_range
    → r < size * 32
    → allocatable s r ≡ true
    → (k : ℕ) × (r ≤ k) × (k < r + count) × (in_the_way s k ≡ true)
unfolding pmm_alloc_range
pmm_alloc_range-null size count s r h b free =
    find_range-none size s count (size * 32) 0 r
      (take_range-null s count (find_range size s count (size * 32) 0) (ground (arith, h)))
      (omega arith) b free

-- The search of `pmm_alloc_range` always ends within a round for each page.
pub find_range-ne-out_of_fuel :
    (size count : ℕ) (s : Pmm) → 0 < size → find_range size s count (size * 32) 0 ≢ out_of_fuel
find_range-ne-out_of_fuel size count s pos =
    find_range-ends size s count (size * 32) 0 (omega arith) (omega arith)

-- Freeing the range that `pmm_alloc_range` returned leaves a page used exactly when it was used
-- before and is not in the range, and restores both counters.
pub pmm_free_range-alloc_range :
    {size : ℕ} (count : ℕ) {s : Pmm} {p : ℕ} {t : Pmm}
    → IsSized size s
    → 0 < size
    → pmm_alloc_range size count s ≡ allocated p t
    → ((j : ℕ)
        → used (pmm_free_range p count t) j ≡ (not (in_range (p / 0x1000) count j) && used s j))
      × ((pmm_free_range p count t).free_memory ≡ s.free_memory)
      × ((pmm_free_range p count t).used_memory ≡ s.used_memory)
unfolding pmm_free_range pmm_usage_unuse
pmm_free_range-alloc_range {size} count {s} {p} {t} sized pos h =
    let r = pmm_alloc_range-RangeTaken sized pos h in
    let page : p / 4096 ≡ r.index = omega (arith, r.at) in
    (
      λ j.
          rw
            (
              page,
              bitmap_test-clear_pages t.bitmap r.index count j
                  (omega (arith, r.fits, r.words, sized.words)),
            )
            (ground (arith, r.marked j)),
      omega (arith, r.less_free, sized.free_fits),
      omega (arith, r.more_used, sized.used_fits),
    )

scan_range-tables :
    (size : ℕ) (s : Pmm) (i count k : ℕ)
    → i + k + count ≤ size * 32
    → ((j : ℕ) → k ≤ j → j < k + count → in_the_way s (i + j) ≡ false)
    → scan_range size s i count k ≡ clear
unfolding scan_range
scan_range-tables size s i zero k b h = refl
scan_range-tables size s i (suc n) k b h = ground (
  arith,
  h k,
  scan_range-tables size s i n (k + 1) (omega arith) (λ j x y. h j (omega arith) (omega arith)),
)

find_range-skip :
    (size : ℕ) (s : Pmm) (count fuel i d r : ℕ)
    → i + d ≡ r
    → r < size * 32
    → d < fuel
    → ((j : ℕ) → j < r → allocatable s j ≡ false)
    → allocatable s r ≡ true
    → scan_range size s r count 0 ≡ clear
    → find_range size s count fuel i ≡ range_at r
unfolding find_range
find_range-skip size s count zero i d r e b f low free c = absurd (omega arith)
find_range-skip size s count (suc n) i zero r e b f low free c =
    let here : i ≡ r = omega arith in rw here (ground (arith, free, c))
find_range-skip size s count (suc n) i (suc d) r e b f low free c =
    let rest =
      find_range-skip size s count n (i + 1) d r (omega arith) b (omega arith) low free c in
    ground (arith, low i (omega arith), rest)

-- The range may run into the page-table region: where the lowest free page `r` is followed by
-- pages of that region, used or not, `pmm_alloc_range` returns the range from `r`.
pub pmm_alloc_range-tables :
    (size count r : ℕ) (s : Pmm)
    → IsSized size s
    → r + suc count ≤ size * 32
    → ((j : ℕ) → j < r → allocatable s j ≡ false)
    → allocatable s r ≡ true
    → ((j : ℕ) → r < j → j < r + suc count → for_tables s j ≡ true)
    → (t : Pmm) × (pmm_alloc_range size (suc count) s ≡ allocated (r * 0x1000) t)
unfolding pmm_alloc_range take_range
pmm_alloc_range-tables size count r s sized b low free tables =
    let clean = scan_range-tables size s r (suc count) 0 (omega arith) (λ j a c. clean_at j c) in
    let hit =
      find_range-skip size s (suc count) (size * 32) 0 r r (omega arith) (omega arith) (omega arith)
        low free clean in
    (
      pmm_usage_use (suc count) (record s { bitmap = set_pages s.bitmap r (suc count) }),
      ground (arith, hit, address-lt {i = r} sized.small (omega arith)),
    )
  where
    clean_at : (j : ℕ) → j < 0 + suc count → in_the_way s (r + j) ≡ false
    clean_at zero c = let here : r + 0 ≡ r = omega arith in rw here (ground arith)
    clean_at (suc j) c = ground (arith, tables (r + suc j) (omega arith) (omega arith))
