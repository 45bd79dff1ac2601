-- ===== src/Heap/Join.antt =====
-- `hsh_combine_forward` of user/libc/stdlib/heap.c on a chain of segments.
use goofy_micro_os.Prelude.{
  ℕ, ◌+◌, ◌%◌, ◌^◌, ◌≤◌, ◌<◌, ◌≡◌, ◌≢◌, refl, ap, sym, ◌∙◌, Bool, true, false, not, ◌&&◌,
  Bool-cases, inl, inr, [], ◌∷◌, ◌==◌, if◌then◌else◌, arith,
}
use goofy_micro_os.Heap.{Header, Heap, hsh_combine_forward, skip_back, absorb}
use goofy_micro_os.Heap.Chain.{Blocks, next_of, last_of, last_of-ge, Chain, Chain-relink}

skip_back_headers :
    (s : Heap) (a n x : ℕ)
    → (skip_back a n s).headers x ≡ (
        if not ((s.headers n).next == 0) && x == (s.headers n).next
        then record (s.headers x) { last = a }
        else s.headers x)
unfolding skip_back
skip_back_headers s a n x = elim (Bool-cases ((s.headers n).next == 0)) [
  | inl end ↦ rw end
  | inr more ↦ rw more (elim (Bool-cases (x == (s.headers n).next)) [
    | inl here ↦
        let e : x ≡ (s.headers n).next = ground (arith, here) in
        rw here (ap (λ (y : ℕ). record (s.headers y) { last = a }) (sym e))
    | inr other ↦ rw other
  ])
]

skip_back-last_hdr : (s : Heap) (a n : ℕ) → (skip_back a n s).last_hdr ≡ s.last_hdr
unfolding skip_back
skip_back-last_hdr s a n = elim (Bool-cases ((s.headers n).next == 0)) [
  | inl end ↦ rw end
  | inr more ↦ rw more
]

absorb-last_hdr : (s : Heap) (a n : ℕ) → (absorb a n s).last_hdr ≡ s.last_hdr
unfolding absorb
absorb-last_hdr s a n = refl

absorb_headers :
    (s : Heap) (a n x : ℕ)
    → n ≢ a
    → (absorb a n s).headers x ≡ (
        if x == a
        then record (s.headers a) {
          length = ((s.headers a).length + (s.headers n).length + 16) % 2 ^ 32;
          next = (s.headers n).next;
        }
        else s.headers x)
unfolding absorb
absorb_headers s a n x apart =
    let self : (a == a) ≡ true = ground arith in
    let other : (n == a) ≡ false = ground (arith, apart) in
    rw (self, other) (elim (Bool-cases (x == a)) [ inl here ↦ rw here | inr there ↦ rw there ])

-- Two blocks, of which the second is free.
module _ (s : Heap) (prev a len len2 : ℕ) (fr : Bool) (rest : Blocks)
    (c : Chain s.headers prev a ((len, fr) ∷ (len2, true) ∷ rest))
    (fits : a + 16 + len + 16 + len2 ≤ 2 ^ 32) (positive : 0 < a) where
  abbrev n : ℕ
  n = a + 16 + len

  abbrev moved : Heap
  moved = if n == s.last_hdr then record s { last_hdr = a } else s

  moved_headers : (x : ℕ) → moved.headers x ≡ s.headers x
  moved_headers x = elim (Bool-cases (n == s.last_hdr)) [ inl e ↦ rw e | inr e ↦ rw e ]

  joined : hsh_combine_forward a s ≡ absorb a n (skip_back a n moved)
  unfolding hsh_combine_forward
  joined =
      let next : (s.headers a).next ≡ n = ap (λ (h : Header). h.next) c.0 in
      let is_free : (s.headers n).free ≡ true = ap (λ (h : Header). h.free) c.2.0 in
      let there : (n == 0) ≡ false = ground arith in rw (next, is_free, there)

  -- The headers that the link back does not reach.
  unlinked :
      (x : ℕ) → 0 < x → x ≢ next_of n len2 rest → (skip_back a n moved).headers x ≡ s.headers x
  unlinked x pos other =
      let next : (moved.headers n).next ≡ next_of n len2 rest =
        ap (λ (h : Header). h.next) (moved_headers n ∙ c.2.0) in
      let test : (x == next_of n len2 rest) ≡ false = ground (arith, other) in
      skip_back_headers moved a n x
      ∙ rw (next, test)
          (elim (Bool-cases (next_of n len2 rest == 0)) [ inl end ↦ rw end | inr more ↦ rw more ])
      ∙ moved_headers x

  far : (x : ℕ) → 0 < x → x ≤ n → x ≢ next_of n len2 rest
  far x pos small = far_rest rest
    where
      far_rest : (rest : Blocks) → x ≢ next_of n len2 rest
      far_rest [] = omega (arith, pos)
      far_rest (b ∷ bs) = omega (arith, small)

  whole :
      (hsh_combine_forward a s).headers a
      ≡ record { length = len + 16 + len2; next = next_of n len2 rest; last = prev; free = fr }
  whole =
      let self : (a == a) ≡ true = ground arith in
      let size : (len + len2 + 16) % 2 ^ 32 ≡ len + 16 + len2 = omega (arith, fits, positive) in
      rw joined (
        absorb_headers (skip_back a n moved) a n a (omega arith)
        ∙ rw (
          self,
          unlinked a positive (far a positive (omega arith)) ∙ c.0,
          unlinked n (omega arith) (far n (omega arith) (omega arith)) ∙ c.2.0,
          size,
        ))

  others : (x : ℕ) → x ≢ a → (hsh_combine_forward a s).headers x ≡ (skip_back a n moved).headers x
  others x other =
      let ne : (x == a) ≡ false = ground (arith, other) in
      rw joined (absorb_headers (skip_back a n moved) a n x (omega arith) ∙ rw ne)

  pub joined_below : (x : ℕ) → 0 < x → x < a → (hsh_combine_forward a s).headers x ≡ s.headers x
  joined_below x pos less =
      others x (omega (arith, less)) ∙ unlinked x pos (far x pos (omega (arith, less)))

  rest_kept :
      (rest' : Blocks)
      → rest ≡ rest'
      → Chain s.headers n (n + 16 + len2) rest'
      → Chain (hsh_combine_forward a s).headers a (n + 16 + len2) rest'
  rest_kept [] e chain = tt
  rest_kept (b ∷ bs) e chain =
      let next : (moved.headers n).next ≡ n + 16 + len2 =
        ap (λ (h : Header). h.next) (moved_headers n ∙ c.2.0) ∙ rw e in
      let test : (not (n + 16 + len2 == 0) && n + 16 + len2 == n + 16 + len2) ≡ true =
        ground arith in
      Chain-relink s.headers (λ x. (hsh_combine_forward a s).headers x) n a (n + 16 + len2) (b ∷ bs)
        (others (n + 16 + len2) (omega arith)
          ∙ (skip_back_headers moved a n (n + 16 + len2)
              ∙ rw (next, test, moved_headers (n + 16 + len2))))
        (λ x above.
          others x (omega (arith, above))
          ∙ unlinked x (omega (arith, above)) (rw e (omega (arith, above))))
        chain

  -- The chain with the two blocks as one.
  pub hsh_combine_forward-Chain :
      Chain (hsh_combine_forward a s).headers prev a ((len + 16 + len2, fr) ∷ rest)
  hsh_combine_forward-Chain =
      let end : a + 16 + (len + 16 + len2) ≡ n + 16 + len2 = omega arith in
      (whole ∙ rw (next_same rest), omega (arith, c.1, c.2.1), rw end (rest_kept rest refl c.2.2))
    where
      next_same : (rest : Blocks) → next_of n len2 rest ≡ next_of a (len + 16 + len2) rest
      next_same [] = refl
      next_same (b ∷ bs) = omega arith

  pub hsh_combine_forward-last :
      s.last_hdr ≡ last_of prev a ((len, fr) ∷ (len2, true) ∷ rest)
      → (hsh_combine_forward a s).last_hdr ≡ last_of prev a ((len + 16 + len2, fr) ∷ rest)
  hsh_combine_forward-last last =
      let end : a + 16 + (len + 16 + len2) ≡ n + 16 + len2 = omega arith in
      rw (joined, end)
        (absorb-last_hdr (skip_back a n moved) a n
          ∙ skip_back-last_hdr moved a n
          ∙ moved_last
          ∙ rw last (moved_to rest))
    where
      moved_last : moved.last_hdr ≡ (if n == s.last_hdr then a else s.last_hdr)
      moved_last = elim (Bool-cases (n == s.last_hdr)) [ inl e ↦ rw e | inr e ↦ rw e ]

      moved_to :
          (rest : Blocks)
          → (if n == last_of n (n + 16 + len2) rest then a else last_of n (n + 16 + len2) rest)
            ≡ last_of a (n + 16 + len2) rest
      moved_to [] = let self : (n == n) ≡ true = ground arith in rw self
      moved_to ((l, f) ∷ bs) =
          let behind : (n == last_of (n + 16 + len2) (n + 16 + len2 + 16 + l) bs) ≡ false =
            ground (arith, last_of-ge n (n + 16 + len2) (l, f) bs) in
          rw behind
