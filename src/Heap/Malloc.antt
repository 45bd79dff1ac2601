-- ===== src/Heap/Malloc.antt =====
-- `malloc` of user/libc/stdlib/heap.c: what it allocates.
use goofy_micro_os.Prelude.{
  ◌*◌, ◌%◌, ◌==◌, Option-cases, length, ◌^◌, ◌<◌, leb, ◌&&◌, ℕ, suc, ◌+◌, ◌-◌, ◌≤◌, ◌≡◌, refl, ap,
  Bool, true, false, Bool-cases, inl, inr, some, List, [], ◌∷◌, ◌++◌, ltb, if◌then◌else◌, arith,
}
use goofy_micro_os.Prelude.Options.{some_pair-eq}
use goofy_micro_os.Heap.{initialize_heap, Walk, Heap, round_up, malloc, taken}
use goofy_micro_os.Heap.Fit.{Holds, Refines, fitted, find_segment-first_fit}
use goofy_micro_os.Heap.Chain.{extent, last_of, Chain, Blocks, cut, first_fit}

-- The bytes in use: the address and the length of each block that is not free.
unfoldable pub in_use : ℕ → Blocks → List (ℕ × ℕ)
in_use a [] = []
in_use a ((len, fr) ∷ rest) =
    let others = in_use (a + 16 + len) rest in if fr then others else (a + 16, len) ∷ others

-- One more block is in use, with `size` bytes or more at `p`; the others are as they were.
pub record Allocates (size p : ℕ) (before after : List (ℕ × ℕ)) : Type 0 where
  pub lower : List (ℕ × ℕ)
  pub upper : List (ℕ × ℕ)
  pub amount : ℕ
  pub enough : size ≤ amount
  pub were : before ≡ lower ++ upper
  pub are : after ≡ lower ++ (p, amount) ∷ upper

Allocates-behind :
    {size p : ℕ} {xs ys : List (ℕ × ℕ)} (b : ℕ × ℕ)
    → Allocates size p xs ys
    → Allocates size p (b ∷ xs) (b ∷ ys)
Allocates-behind b h = record {
  lower = b ∷ h.lower;
  upper = h.upper;
  amount = h.amount;
  enough = h.enough;
  were = ap (λ (l : List (ℕ × ℕ)). b ∷ l) h.were;
  are = ap (λ (l : List (ℕ × ℕ)). b ∷ l) h.are;
}

cut-Allocates :
    (size a len : ℕ) (rest : Blocks)
    → size ≤ len
    → Allocates size (a + 16) (in_use a ((len, true) ∷ rest)) (in_use a (cut size len rest))
unfolding in_use
cut-Allocates size a len rest room = elim (Bool-cases (ltb (len - size) 32)) [
  | inl tight ↦ rw tight (record {
    lower = [];
    upper = in_use (a + 16 + len) rest;
    amount = len;
    enough = room;
    were = refl;
    are = refl;
  })
  | inr roomy ↦
      let end : a + 16 + size + 16 + (len - size - 16) ≡ a + 16 + len = ground (arith, roomy) in
      rw (roomy, end)
        (record {
          lower = [];
          upper = in_use (a + 16 + len) rest;
          amount = size;
          enough = omega arith;
          were = refl;
          are = refl;
        })
]

Allocates-over :
    (size a len : ℕ) (fr : Bool) (rest : Blocks) (q : ℕ) (bs : Blocks)
    → Allocates size q (in_use (a + 16 + len) rest) (in_use (a + 16 + len) bs)
    → Allocates size q (in_use a ((len, fr) ∷ rest)) (in_use a ((len, fr) ∷ bs))
unfolding in_use
Allocates-over size a len true rest q bs more = more
Allocates-over size a len false rest q bs more = Allocates-behind (a + 16, len) more

-- The first fit takes a free block for the bytes that it returns.
pub first_fit-Allocates :
    (size a : ℕ) (bs : Blocks) {p : ℕ} {bs' : Blocks}
    → first_fit size a bs ≡ some (p, bs')
    → Allocates size p (in_use a bs) (in_use a bs')
unfolding first_fit
first_fit-Allocates size a [] h = absurd (cc h)
first_fit-Allocates size a ((len, fr) ∷ rest) {p} {bs'} h = elim (Bool-cases (fr && leb size len)) [
  | inl hit ↦
      let free : fr ≡ true = ground (arith, hit) in
      let room : size ≤ len = ground (arith, hit) in
      let e = some_pair-eq (rw hit at h) in
      rw (← e.0, ← e.1, free) (cut-Allocates size a len rest room)
  | inr miss ↦ elim (Option-cases (first_fit size (a + 16 + len) rest)) [
    | inl never ↦ absurd (cc (rw (miss, never) at h))
    | inr ((q, bs), later) ↦
        let e = some_pair-eq (rw (miss, later) at h) in
        let more = first_fit-Allocates size (a + 16 + len) rest later in
        rw (← e.0, ← e.1) (Allocates-over size a len fr rest q bs more)
  ]
]

-- The store `s` holds the blocks `b ∷ bs`, from the start of the heap on.
pub record IsHeap (s : Heap) (b : ℕ × Bool) (bs : Blocks) : Type 0 where
  pub positive : 0 < s.heap_start
  pub fits : s.heap_start + extent (b ∷ bs) ≤ 2 ^ 32
  pub chain : Chain s.headers 0 s.heap_start (b ∷ bs)
  pub last : s.last_hdr ≡ last_of 0 s.heap_start (b ∷ bs)

-- `initialize_heap` makes one free block of all pages, when there is a page and they lie in the
-- address space.
pub initialize_heap-IsHeap :
    (heap_address page_count : ℕ) (s : Heap)
    → 0 < heap_address
    → 0 < page_count
    → heap_address + page_count * 4096 ≤ 2 ^ 32
    → IsHeap (initialize_heap heap_address page_count s) (page_count * 4096 - 16, true) []
unfolding initialize_heap
initialize_heap-IsHeap heap_address page_count s above some_page fits =
    let self : (heap_address == heap_address) ≡ true = ground arith in
    let whole : page_count * 4096 % 2 ^ 32 ≡ page_count * 4096 = omega (arith, above, fits) in
    let len : (page_count * 4096 + (2 ^ 32 - 16)) % 2 ^ 32 ≡ page_count * 4096 - 16 =
      omega (arith, above, some_page, fits) in
    record {
      positive = above;
      fits = omega (arith, some_page, fits);
      chain = rw (self, whole, len) (refl, omega (arith, some_page), tt);
      last = refl;
    }

Refines-taken :
    {s : Heap} {prev a : ℕ} {old : Blocks} {p : ℕ} {bs' : Blocks} {w : Walk}
    → Refines s prev a old (some (p, bs')) w
    → (s' : Heap) × (w ≡ taken p s') × Holds s prev a bs' s'
Refines-taken (fitted {s'} h same) = (s', refl, h)

-- In a well-formed heap where the first fit has a block for the rounded `size`, which is at least
-- 1 and at most 2^32 - 16, `malloc` returns the address of its bytes: the store then holds the
-- blocks of the first fit, and exactly one more block is in use, of at least `size` bytes; a fuel
-- of one round for each block is enough.
pub malloc-Allocates :
    (rounds walk size : ℕ) (s : Heap) (b : ℕ × Bool) (bs : Blocks) {p : ℕ} {bs' : Blocks}
    → 0 < size
    → size ≤ 2 ^ 32 - 16
    → length (b ∷ bs) ≤ walk
    → IsHeap s b bs
    → first_fit (round_up size) s.heap_start (b ∷ bs) ≡ some (p, bs')
    → (s' : Heap) × (malloc (suc rounds) walk size s ≡ some (p, s'))
      × Holds s 0 s.heap_start bs' s'
      × Allocates size p (in_use s.heap_start (b ∷ bs)) (in_use s.heap_start bs')
unfolding malloc
malloc-Allocates rounds walk size s b bs {p} {bs'} positive small enough h fit =
    let n : ℕ = round_up size in
    let up : size ≤ n = ground (arith, small) in
    let wide : 16 ≤ n = ground (arith, small, positive) in
    let aligned : n % 16 ≡ 0 = ground (arith, small) in
    let some_bytes : (n == 0) ≡ false = ground (arith, wide) in
    let walked =
      find_segment-first_fit walk n s 0 s.heap_start b bs enough h.positive h.fits wide aligned
        h.chain h.last in
    let (s', at, holds) = Refines-taken (rw fit at walked) in
    let a = first_fit-Allocates n s.heap_start (b ∷ bs) fit in
    (
      s',
      rw (some_bytes, at),
      holds,
      record {
        lower = a.lower;
        upper = a.upper;
        amount = a.amount;
        enough = omega (arith, up, a.enough);
        were = a.were;
        are = a.are;
      },
    )
