-- ===== src/Heap/Free.antt =====
-- `free` of user/libc/stdlib/heap.c: the second half, which merges the block with the one before, and
-- the whole.
use goofy_micro_os.Prelude.{
  ==_iff, ℕ, ◌+◌, ◌-◌, ◌^◌, ◌≤◌, ◌<◌, ◌≡◌, ◌≢◌, refl, ap, sym, ◌∙◌, Bool, true, false, not, ◌&&◌,
  Bool-cases, inl, inr, List, [], ◌∷◌, ◌==◌, if◌then◌else◌, arith,
}
use goofy_micro_os.Heap.{
  Header, Heap, sub32, set_free, hsh_combine_forward, hsh_combine_backward, heap_free,
}
use goofy_micro_os.Heap.Chain.{Blocks, extent, next_of, last_of, Chain}
use goofy_micro_os.Heap.Fit.{Holds, passed_block}
use goofy_micro_os.Heap.Release.{
  merge, forward-Holds, Has, release, merge_before, free_block, Has-above, next-merge,
  release-Holds, Has-release, differs, still_there,
}
use goofy_micro_os.Heap.Malloc.{IsHeap, in_use}

merge_before-low : (p a : ℕ) (bs : Blocks) → p ≤ a + 16 → merge_before p a bs ≡ bs
unfolding merge_before
merge_before-low p a [] low = refl
merge_before-low p a ((len, fr) ∷ rest) low =
    let test : (p == a + 16 + len + 16 && fr) ≡ false = ground (arith, low) in
    rw (test, merge_before-low p (a + 16 + len) rest (omega (arith, low)))

next-merge_before :
    (p a : ℕ) (bs : Blocks) (b l : ℕ) → next_of b l bs ≡ next_of b l (merge_before p a bs)
unfolding merge_before
next-merge_before p a [] b l = refl
next-merge_before p a ((len, fr) ∷ rest) b l = elim (Bool-cases (p == a + 16 + len + 16 && fr)) [
  | inl joined ↦ rw joined (next-merge len fr fr rest b l)
  | inr apart ↦ rw apart
]

-- Where the previous segment is in use, or there is none, `hsh_combine_backward` does nothing.
backward_same :
    (s : Heap) (q : ℕ)
    → (not ((s.headers q).last == 0) && (s.headers ((s.headers q).last)).free) ≡ false
    → hsh_combine_backward q s ≡ s
unfolding hsh_combine_backward
backward_same s q h = rw h

third_test :
    (q a len : ℕ) (fr : Bool)
    → (q == a + 16 + len) ≡ false
    → (q + 16 == a + 16 + len + 16 && fr) ≡ false
third_test q a len fr h = ground (arith, h)

second_last :
    (s : Heap) (a q p : ℕ) (rest : Blocks)
    → Has p q rest
    → Chain s.headers a q rest
    → (s.headers q).last ≡ a
second_last s a q p [] has c = absurd has
second_last s a q p ((len, fr) ∷ rest) has c = ap (λ (h : Header). h.last) c.0

-- The block before the released one.
second_block :
    (q : ℕ) (s : Heap) (prev a len : ℕ) (fr : Bool) (rest : Blocks)
    → q ≡ a + 16 + len
    → Has (q + 16) (a + 16 + len) rest
    → 0 < a
    → a + extent ((len, fr) ∷ rest) ≤ 2 ^ 32
    → Chain s.headers prev a ((len, fr) ∷ rest)
    → s.last_hdr ≡ last_of prev a ((len, fr) ∷ rest)
    → Holds s prev a (merge_before (q + 16) a ((len, fr) ∷ rest)) (hsh_combine_backward q s)
second_block q s prev a len true rest at has positive fits c last =
    let before : (s.headers q).last ≡ a =
      rw at (second_last s a (a + 16 + len) (q + 16) rest has c.2) in
    let is_free : (s.headers a).free ≡ true = ap (λ (h : Header). h.free) c.0 in
    let there : (a == 0) ≡ false = ground (arith, positive) in
    let joins : hsh_combine_backward q s ≡ hsh_combine_forward a s =
      unfold hsh_combine_backward in rw (before, there, is_free) in
    let test : (q + 16 == a + 16 + len + 16) ≡ true = ground (arith, at) in
    let opened : merge_before (q + 16) a ((len, true) ∷ rest) ≡ merge ((len, true) ∷ rest) =
      unfold merge_before in rw test in
    rw (joins, opened) (forward-Holds s prev a len true rest positive fits c last)
second_block q s prev a len false rest at has positive fits c last =
    let before : (s.headers q).last ≡ a =
      rw at (second_last s a (a + 16 + len) (q + 16) rest has c.2) in
    let busy : (s.headers a).free ≡ false = ap (λ (h : Header). h.free) c.0 in
    let there : (a == 0) ≡ false = ground (arith, positive) in
    let same : hsh_combine_backward q s ≡ s = backward_same s q (rw (before, busy, there)) in
    let low = merge_before-low (q + 16) (a + 16 + len) rest (omega (arith, at)) in
    let test : (q + 16 == a + 16 + len + 16 && false) ≡ false = ground arith in
    let opened : merge_before (q + 16) a ((len, false) ∷ rest) ≡ (len, false) ∷ rest =
      unfold merge_before in rw (test, low) in
    rw (same, opened) (record { chain = c; kept = λ x pos less. refl; last = last })

-- The store that `hsh_combine_backward` leaves holds the blocks with the released one merged into
-- the one before.
backward-Holds :
    (q : ℕ) (s : Heap) (prev a : ℕ) (bs : Blocks)
    → Has (q + 16) a bs
    → (q ≡ a → prev ≡ 0)
    → 0 < a
    → a + extent bs ≤ 2 ^ 32
    → Chain s.headers prev a bs
    → s.last_hdr ≡ last_of prev a bs
    → Holds s prev a (merge_before (q + 16) a bs) (hsh_combine_backward q s)
backward-Holds q s prev a [] has first positive fits c last = absurd has
backward-Holds q s prev a ((len, fr) ∷ rest) has first positive fits c last =
    elim (Bool-cases (q == a)) [
      | inl here ↦
          let at : q ≡ a = (==_iff q a).0 here in
          let none_before : (s.headers q).last ≡ 0 =
            ap (λ (x : ℕ). (s.headers x).last) at ∙ ap (λ (h : Header). h.last) c.0 ∙ first at in
          let same : hsh_combine_backward q s ≡ s = backward_same s q (rw none_before) in
          rw (same, merge_before-low (q + 16) a ((len, fr) ∷ rest) (omega (arith, at)))
            (record { chain = c; kept = λ x pos less. refl; last = last })
      | inr later ↦ elim (Bool-cases (q == a + 16 + len)) [
        | inl second ↦
            let at : q ≡ a + 16 + len = (==_iff q (a + 16 + len)).0 second in
            second_block q s prev a len fr rest at
              (still_there (q + 16) a len rest has (λ e. differs q a later (omega (arith, e))))
              positive fits c last
        | inr third ↦
            let test : (q + 16 == a + 16 + len + 16 && fr) ≡ false = third_test q a len fr third in
            let opened : merge_before (q + 16) a ((len, fr) ∷ rest)
                ≡ (len, fr) ∷ merge_before (q + 16) (a + 16 + len) rest =
              unfold merge_before in rw test in
            rw opened (
              passed_block s prev a len fr rest (merge_before (q + 16) (a + 16 + len) rest) positive
                c (next-merge_before (q + 16) (a + 16 + len) rest)
                (backward-Holds q s a (a + 16 + len) rest
                  (still_there (q + 16) a len rest has (λ e. differs q a later (omega (arith, e))))
                  (λ e. absurd (differs q (a + 16 + len) third e)) (omega arith)
                  (omega (arith, fits)) c.2 last))
      ]
    ]

extent-merge :
    (len : ℕ) (fr v : Bool) (rest : Blocks)
    → extent (merge ((len, v) ∷ rest)) ≡ extent ((len, fr) ∷ rest)
extent-merge len fr v [] = refl
extent-merge len fr v ((len2, false) ∷ rest) = refl
extent-merge len fr v ((len2, true) ∷ rest) = omega arith

extent-release : (p a : ℕ) (bs : Blocks) → extent (release p a bs) ≡ extent bs
unfolding release
extent-release p a [] = refl
extent-release p a ((len, fr) ∷ rest) = elim (Bool-cases (p == a + 16)) [
  | inl here ↦ rw here (extent-merge len fr true rest)
  | inr later ↦ rw later (omega (arith, extent-release p (a + 16 + len) rest))
]

-- The uses but that of the block at `p`.
unfoldable pub drop_at : ℕ → List (ℕ × ℕ) → List (ℕ × ℕ)
drop_at p [] = []
drop_at p ((q, n) ∷ uses) = let rest = drop_at p uses in if q == p then uses else (q, n) ∷ rest

drop_at-above : (p a : ℕ) (bs : Blocks) → p < a + 16 → drop_at p (in_use a bs) ≡ in_use a bs
unfolding drop_at in_use
drop_at-above p a [] low = refl
drop_at-above p a ((len, true) ∷ rest) low =
    drop_at-above p (a + 16 + len) rest (omega (arith, low))
drop_at-above p a ((len, false) ∷ rest) low =
    let other : (a + 16 == p) ≡ false = ground (arith, low) in
    rw (other, drop_at-above p (a + 16 + len) rest (omega (arith, low)))

in_use-merge :
    (a len : ℕ) (rest : Blocks) → in_use a (merge ((len, true) ∷ rest)) ≡ in_use (a + 16 + len) rest
unfolding in_use
in_use-merge a len [] = refl
in_use-merge a len ((len2, false) ∷ rest) = refl
in_use-merge a len ((len2, true) ∷ rest) =
    let end : a + 16 + (len + 16 + len2) ≡ a + 16 + len + 16 + len2 = omega arith in rw end

-- The uses of a first block and of those behind it.
in_use-cons :
    (a len : ℕ) (fr : Bool) (rest rest' : Blocks)
    → in_use (a + 16 + len) rest ≡ in_use (a + 16 + len) rest'
    → in_use a ((len, fr) ∷ rest) ≡ in_use a ((len, fr) ∷ rest')
unfolding in_use
in_use-cons a len true rest rest' same = same
in_use-cons a len false rest rest' same = rw same

drop_first :
    (p a len : ℕ) (fr : Bool) (rest : Blocks)
    → p ≡ a + 16
    → drop_at p (in_use a ((len, fr) ∷ rest)) ≡ in_use (a + 16 + len) rest
unfolding in_use drop_at
drop_first p a len true rest at = drop_at-above p (a + 16 + len) rest (omega (arith, at))
drop_first p a len false rest at = let test : (a + 16 == p) ≡ true = ground (arith, at) in rw test

drop_later :
    (p a len : ℕ) (fr : Bool) (rest rest' : Blocks)
    → p ≢ a + 16
    → in_use (a + 16 + len) rest' ≡ drop_at p (in_use (a + 16 + len) rest)
    → in_use a ((len, fr) ∷ rest') ≡ drop_at p (in_use a ((len, fr) ∷ rest))
unfolding in_use drop_at
drop_later p a len true rest rest' at same = same
drop_later p a len false rest rest' at same =
    let test : (a + 16 == p) ≡ false = ground (arith, at) in rw (test, same)

in_use-release : (p a : ℕ) (bs : Blocks) → in_use a (release p a bs) ≡ drop_at p (in_use a bs)
unfolding release
in_use-release p a [] = unfold in_use drop_at in refl
in_use-release p a ((len, fr) ∷ rest) = elim (Bool-cases (p == a + 16)) [
  | inl here ↦
      rw here
        (in_use-merge a len rest ∙ sym (drop_first p a len fr rest ((==_iff p (a + 16)).0 here)))
  | inr later ↦ rw later (
      drop_later p a len fr rest (release p (a + 16 + len) rest) (differs p (a + 16) later)
        (in_use-release p (a + 16 + len) rest))
]

in_use-merge_free :
    (a len : ℕ) (fr : Bool) (rest : Blocks)
    → fr ≡ true
    → in_use a (merge ((len, fr) ∷ rest)) ≡ in_use a ((len, fr) ∷ rest)
in_use-merge_free a len true rest h = unfold in_use in in_use-merge a len rest
in_use-merge_free a len false rest h = absurd (cc h)

in_use-merge_before : (p a : ℕ) (bs : Blocks) → in_use a (merge_before p a bs) ≡ in_use a bs
unfolding merge_before
in_use-merge_before p a [] = refl
in_use-merge_before p a ((len, fr) ∷ rest) = elim (Bool-cases (p == a + 16 + len + 16 && fr)) [
  | inl joins ↦ rw joins (in_use-merge_free a len fr rest (ground (arith, joins)))
  | inr apart ↦ rw apart (
      in_use-cons a len fr (merge_before p (a + 16 + len) rest) rest
        (in_use-merge_before p (a + 16 + len) rest))
]

-- `free` of the bytes of a block of a well-formed heap: the store then holds the blocks with that
-- one free, merged with the free blocks next to it, and exactly the use of those bytes is gone.
pub heap_free-Holds :
    (p : ℕ) (s : Heap) (b : ℕ × Bool) (bs : Blocks)
    → IsHeap s b bs
    → p < 2 ^ 32
    → Has p s.heap_start (b ∷ bs)
    → Holds s 0 s.heap_start (free_block p s.heap_start (b ∷ bs)) (heap_free p s)
      × (in_use s.heap_start (free_block p s.heap_start (b ∷ bs))
          ≡ drop_at p (in_use s.heap_start (b ∷ bs)))
unfolding heap_free free_block
heap_free-Holds p s b bs h small has =
    let a : ℕ = s.heap_start in
    let above = Has-above p a (b ∷ bs) has in
    let segment : sub32 p 16 ≡ p - 16 = omega (arith, above, small) in
    let back : p - 16 + 16 ≡ p = omega (arith, above) in
    let first = release-Holds p s 0 a (b ∷ bs) has h.positive h.fits h.chain h.last in
    let freed : Heap = hsh_combine_forward (p - 16) (set_free (p - 16) true s) in
    let second = rw back at (
      backward-Holds (p - 16) freed 0 a (release p a (b ∷ bs))
        (rw back (Has-release p a (b ∷ bs) has)) (λ e. refl) h.positive
        (rw (extent-release p a (b ∷ bs)) h.fits) first.chain first.last) in
    (
      rw segment (record {
        chain = second.chain;
        kept = λ x pos less. second.kept x pos less ∙ first.kept x pos less;
        last = second.last;
      }),
      in_use-merge_before p a (release p a (b ∷ bs)) ∙ in_use-release p a (b ∷ bs),
    )
