-- ===== src/Heap/Tests.antt =====
-- The theorems on the heap of a user program at a heap of one page, and runs of its functions.
use goofy_micro_os.Prelude.{◌≡◌, refl, Bool, true, false, some, [], ◌∷◌, inl, arith}
use goofy_micro_os.Heap.{Heap, round_up, malloc, heap_free}
use goofy_micro_os.Heap.Chain.{first_fit}
use goofy_micro_os.Heap.Fit.{Holds}
use goofy_micro_os.Heap.Malloc.{IsHeap, in_use, Allocates, malloc-Allocates}
use goofy_micro_os.Heap.Release.{free_block}
use goofy_micro_os.Heap.Free.{drop_at, heap_free-Holds}

abbrev one_segment : Bool → Heap
one_segment fr = record {
  headers = λ x. record { length = 4080; next = 0; last = 0; free = fr };
  heap_start = 4096;
  heap_end = 8192;
  last_hdr = 4096;
}

one_segment-IsHeap : (fr : Bool) → IsHeap (one_segment fr) (4080, fr) []
one_segment-IsHeap fr = record {
  positive = omega arith;
  fits = omega arith;
  chain = (refl, omega arith, tt);
  last = refl;
}

ten_bytes :
    first_fit (round_up 10) 4096 ((4080, true) ∷ []) ≡ some (4112, (16, false) ∷ (4048, true) ∷ [])
unfolding first_fit
ten_bytes = refl

malloc-Allocates_example :
    (s' : Heap) × (malloc 1 1 10 (one_segment true) ≡ some (4112, s'))
    × Holds (one_segment true) 0 4096 ((16, false) ∷ (4048, true) ∷ []) s'
    × Allocates 10 4112
        (in_use 4096 ((4080, true) ∷ []))
        (in_use 4096 ((16, false) ∷ (4048, true) ∷ []))
malloc-Allocates_example =
    malloc-Allocates 0 1 10 (one_segment true) (4080, true) [] (omega arith) (omega arith)
      (omega arith) (one_segment-IsHeap true) ten_bytes

heap_free-Holds_example :
    Holds
      (one_segment false)
      0
      4096
      (free_block 4112 4096 ((4080, false) ∷ []))
      (heap_free 4112 (one_segment false))
    × (in_use 4096 (free_block 4112 4096 ((4080, false) ∷ []))
        ≡ drop_at 4112 (in_use 4096 ((4080, false) ∷ [])))
heap_free-Holds_example =
    heap_free-Holds 4112 (one_segment false) (4080, false) [] (one_segment-IsHeap false)
      (omega arith) (inl refl)
