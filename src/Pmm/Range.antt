-- ===== src/Pmm/Range.antt =====
-- `pmm_alloc_range` and `pmm_free_range` of mckrnl/memory/pmm.c.
use goofy_micro_os.Prelude.{
  ℕ, zero, suc, ◌+◌, ◌*◌, ◌≤◌, ◌<◌, ◌≡◌, refl, ◌≢◌, ◌⊎◌, inl, inr, ◌∙◌, Bool, true, false, not,
  ◌&&◌, ◌||◌, arith, ltb, leb, ◌==◌, length, Bool-cases,
}
use goofy_micro_os.Pmm.Bitmap.{
  Words, bitmap_set, bitmap_clear, bitmap_test, bitmap_test-set, bitmap_test-clear,
  length-bitmap_set, length-bitmap_clear,
}
use goofy_micro_os.Pmm.{
  Pmm, used, for_tables, allocatable, set_pages, clear_pages, Scan, clear, blocked, past_end,
  scan_range, range_at, no_range, reads_past_end, out_of_fuel, find_range,
}

-- `lo <= j < lo + count`
abbrev pub in_range : ℕ → ℕ → ℕ → Bool
in_range lo count j = leb lo j && ltb j (lo + count)

-- Page `k` stands in the way of `pmm_alloc_range`.
abbrev pub in_the_way : Pmm → ℕ → Bool
in_the_way s k = used s k && not (for_tables s k)

pub length-set_pages : (map : Words) (i count : ℕ) → length (set_pages map i count) ≡ length map
unfolding set_pages
length-set_pages map i zero = refl
length-set_pages map i (suc n) =
    length-set_pages (bitmap_set map i) (i + 1) n ∙ length-bitmap_set map i

pub bitmap_test-set_pages :
    (map : Words) (i count j : ℕ)
    → i + count ≤ length map * 32
    → bitmap_test (set_pages map i count) j ≡ (in_range i count j || bitmap_test map j)
unfolding set_pages
bitmap_test-set_pages map i zero j h = ground arith
bitmap_test-set_pages map i (suc n) j h =
    bitmap_test-set_pages (bitmap_set map i) (i + 1) n j (omega (arith, length-bitmap_set map i))
    ∙ rw (bitmap_test-set map i j (omega arith)) (ground arith)

pub bitmap_test-clear_pages :
    (map : Words) (i count j : ℕ)
    → i + count ≤ length map * 32
    → bitmap_test (clear_pages map i count) j ≡ (not (in_range i count j) && bitmap_test map j)
unfolding clear_pages
bitmap_test-clear_pages map i zero j h = ground arith
bitmap_test-clear_pages map i (suc n) j h =
    bitmap_test-clear_pages (bitmap_clear map i) (i + 1) n j
      (omega (arith, length-bitmap_clear map i))
    ∙ rw (bitmap_test-clear map i j (omega arith)) (ground arith)

-- A scan that comes through has found no page in the way, and read inside the bitmap.
pub scan_range-clear :
    (size : ℕ) (s : Pmm) (i count k : ℕ)
    → scan_range size s i count k ≡ clear
    → (j : ℕ) → k ≤ j
    → j < k + count
    → (i + j < size * 32) × ((used s (i + j) && not (for_tables s (i + j))) ≡ false)
unfolding scan_range
scan_range-clear size s i zero k h j a b = absurd (omega arith)
scan_range-clear size s i (suc n) k h j a b = elim (Bool-cases (k == j)) [
  | inl e ↦ let e' : k ≡ j = ground arith in rw (← e') (ground arith)
  | inr ne ↦ scan_range-clear size s i n (k + 1) (ground arith) j (ground arith) (omega arith)
]

scan_range-blocked :
    (size : ℕ) (s : Pmm) (i count k j : ℕ)
    → scan_range size s i count k ≡ blocked j
    → (k ≤ j) × (j < k + count) × (i + j < size * 32) × (in_the_way s (i + j) ≡ true)
unfolding scan_range
scan_range-blocked size s i zero k j h = absurd (cc h)
scan_range-blocked size s i (suc n) k j h = ground (arith, scan_range-blocked size s i n (k + 1) j)

-- A blocked page lies after the first one, which is free.
blocked_later :
    (size : ℕ) (s : Pmm) (i count j : ℕ)
    → allocatable s i ≡ true
    → scan_range size s i count 0 ≡ blocked j
    → 0 < j
blocked_later size s i count zero free e =
    let (_, _, _, way) = scan_range-blocked size s i count 0 0 e in
    let here : i + 0 ≡ i = omega arith in
    let way' : in_the_way s i ≡ true = rw here at way in ground arith
blocked_later size s i count (suc j) free e = omega arith

Scan-cases : (x : Scan) → (x ≡ clear) ⊎ ((j : ℕ) × (x ≡ blocked j)) ⊎ (x ≡ past_end)
Scan-cases clear = inl refl
Scan-cases (blocked j) = inr (inl (j, refl))
Scan-cases past_end = inr (inr refl)

-- With a round for each page from `i` on, the search ends.
pub find_range-ends :
    (size : ℕ) (s : Pmm) (count fuel i : ℕ)
    → i < size * 32
    → size * 32 ≤ i + fuel
    → find_range size s count fuel i ≢ out_of_fuel
unfolding find_range
find_range-ends size s count zero i b f = absurd (omega arith)
find_range-ends size s count (suc n) i b f = elim (Bool-cases (allocatable s i)) [
  | inl free ↦ elim (Scan-cases (scan_range size s i count 0)) [
    | inl e ↦ ground (arith, e, free)
    | inr (inl (j, e)) ↦ ground (
      arith,
      e,
      free,
      scan_range-blocked size s i count 0 j e,
      blocked_later size s i count j free e,
      find_range-ends size s count n (i + j),
    )
    | inr (inr e) ↦ ground (arith, e, free)
  ]
  | inr not_free ↦ ground (arith, not_free, find_range-ends size s count n (i + 1))
]

pub find_range-found :
    (size : ℕ) (s : Pmm) (count fuel i r : ℕ)
    → i < size * 32
    → find_range size s count fuel i ≡ range_at r
    → (r < size * 32) × (allocatable s r ≡ true) × (scan_range size s r count 0 ≡ clear)
unfolding find_range
find_range-found size s count zero i r b h = absurd (cc h)
find_range-found size s count (suc n) i r b h = elim (Bool-cases (allocatable s i)) [
  | inl free ↦ elim (Scan-cases (scan_range size s i count 0)) [
    | inl e ↦ let at : i ≡ r = ground (arith, e, free) in rw (← at) (b, free, e)
    | inr (inl (j, e)) ↦
        find_range-found size s count n (i + j) r ((scan_range-blocked size s i count 0 j e).2)
          (ground (arith, e, free))
    | inr (inr e) ↦ absurd (let g : reads_past_end ≡ range_at r = ground (arith, e, free) in cc g)
  ]
  | inr not_free ↦ ground (arith, not_free, find_range-found size s count n (i + 1) r)
]

-- A search that gives up has passed, for each start, either a page that may not start a range or
-- a range with a page in the way.
pub find_range-none :
    (size : ℕ) (s : Pmm) (count fuel i r : ℕ)
    → find_range size s count fuel i ≡ no_range
    → i ≤ r
    → r < size * 32
    → allocatable s r ≡ true
    → (k : ℕ) × (r ≤ k) × (k < r + count) × (in_the_way s k ≡ true)
unfolding find_range
find_range-none size s count zero i r h a b free = absurd (cc h)
find_range-none size s count (suc n) i r h a b free = elim (Bool-cases (allocatable s i)) [
  | inl free' ↦ elim (Scan-cases (scan_range size s i count 0)) [
    | inl e ↦ absurd (let g : range_at i ≡ no_range = ground (arith, e, free') in cc g)
    | inr (inl (j, e)) ↦
        let (_, below, _, way) = scan_range-blocked size s i count 0 j e in
        elim (Bool-cases (leb r (i + j))) [
          | inl le ↦ (i + j, ground arith, omega arith, way)
          | inr gt ↦
              find_range-none size s count n (i + j) r (ground (arith, e, free')) (ground arith) b
                free
        ]
    | inr (inr e) ↦ absurd (let g : reads_past_end ≡ no_range = ground (arith, e, free') in cc g)
  ]
  | inr not_free ↦ elim (Bool-cases (i == r)) [
    | inl e ↦ let e' : i ≡ r = ground arith in absurd (ground (arith, free, not_free))
    | inr ne ↦ elim (Bool-cases (ltb (i + 1) (size * 32))) [
      | inl more ↦
          find_range-none size s count n (i + 1) r (ground (arith, not_free, more)) (ground arith) b
            free
      | inr last ↦ absurd (ground arith)
    ]
  ]
]
