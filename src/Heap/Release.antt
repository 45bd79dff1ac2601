-- ===== src/Heap/Release.antt =====
-- The first half of `free` of user/libc/stdlib/heap.c: the block is freed and merged with the next.
use goofy_micro_os.Prelude.{
  ==_iff, ℕ, ◌+◌, ◌-◌, ◌^◌, ◌≤◌, ◌<◌, ◌≡◌, ◌≢◌, refl, ap, ◌∙◌, Bool, true, false, ◌&&◌, Bool-cases,
  inl, inr, ◌⊎◌, [], ◌∷◌, ◌==◌, if◌then◌else◌, arith,
}
use goofy_micro_os.Heap.{Header, Heap, set_free, hsh_combine_forward}
use goofy_micro_os.Heap.Chain.{Blocks, extent, next_of, last_of, Chain}
use goofy_micro_os.Heap.Join.{joined_below, hsh_combine_forward-Chain, hsh_combine_forward-last}
use goofy_micro_os.Heap.Fit.{Holds, marked_block, passed_block}

-- A first block takes in a free second one.
abbrev pub merge : Blocks → Blocks
merge [] = []
merge (b ∷ []) = b ∷ []
merge ((len, fr) ∷ (len2, false) ∷ rest) = (len, fr) ∷ (len2, false) ∷ rest
merge ((len, fr) ∷ (len2, true) ∷ rest) = (len + 16 + len2, fr) ∷ rest

combine_forward_busy :
    (s : Heap) (a n : ℕ)
    → (s.headers a).next ≡ n
    → (s.headers n).free ≡ false
    → hsh_combine_forward a s ≡ s
unfolding hsh_combine_forward
combine_forward_busy s a n next busy = elim (Bool-cases (n == 0)) [
  | inl end ↦ rw (next, end)
  | inr more ↦ rw (next, more, busy)
]

-- `hsh_combine_forward` merges the block at `a` with the next.
pub forward-Holds :
    (s : Heap) (prev a len : ℕ) (fr : Bool) (rest : Blocks)
    → 0 < a
    → a + extent ((len, fr) ∷ rest) ≤ 2 ^ 32
    → Chain s.headers prev a ((len, fr) ∷ rest)
    → s.last_hdr ≡ last_of prev a ((len, fr) ∷ rest)
    → Holds s prev a (merge ((len, fr) ∷ rest)) (hsh_combine_forward a s)
forward-Holds s prev a len fr [] positive fits c last =
    let next : (s.headers a).next ≡ 0 = ap (λ (h : Header). h.next) c.0 in
    let same : hsh_combine_forward a s ≡ s = unfold hsh_combine_forward in rw next in
    rw same (record { chain = c; kept = λ x pos less. refl; last = last })
forward-Holds s prev a len fr ((len2, false) ∷ rest) positive fits c last =
    let next : (s.headers a).next ≡ a + 16 + len = ap (λ (h : Header). h.next) c.0 in
    let busy : (s.headers (a + 16 + len)).free ≡ false = ap (λ (h : Header). h.free) c.2.0 in
    let same : hsh_combine_forward a s ≡ s = combine_forward_busy s a (a + 16 + len) next busy in
    rw same (record { chain = c; kept = λ x pos less. refl; last = last })
forward-Holds s prev a len fr ((len2, true) ∷ rest) positive fits c last =
    let small : a + 16 + len + 16 + len2 ≤ 2 ^ 32 = omega (arith, fits) in
    record {
      chain = hsh_combine_forward-Chain s prev a len len2 fr rest c small positive;
      kept = joined_below s prev a len len2 fr rest c small positive;
      last = hsh_combine_forward-last s prev a len len2 fr rest c small positive last;
    }

-- The bytes at `p` are those of a block.
abbrev pub Has : (p a : ℕ) → Blocks → Type 0
Has p a [] = ⊥
Has p a ((len, fr) ∷ rest) = (p ≡ a + 16) ⊎ Has p (a + 16 + len) rest

-- The block at `p` is made free and merged with the next.
unfoldable pub release : (p a : ℕ) → Blocks → Blocks
release p a [] = []
release p a ((len, fr) ∷ rest) =
    let others = release p (a + 16 + len) rest in
    if p == a + 16 then merge ((len, true) ∷ rest) else (len, fr) ∷ others

-- The block before the one at `p` is merged with it, if it is free.
unfoldable pub merge_before : (p a : ℕ) → Blocks → Blocks
merge_before p a [] = []
merge_before p a ((len, fr) ∷ rest) =
    let others = merge_before p (a + 16 + len) rest in
    if p == a + 16 + len + 16 && fr then merge ((len, fr) ∷ rest) else (len, fr) ∷ others

-- What `free` does to the blocks.
unfoldable pub free_block : (p a : ℕ) → Blocks → Blocks
free_block p a bs = merge_before p a (release p a bs)

minus_header : (p a : ℕ) → (p == a + 16) ≡ true → p - 16 ≡ a
minus_header p a h = omega (arith, (==_iff p (a + 16)).0 h)

pub differs : (x y : ℕ) → (x == y) ≡ false → x ≢ y
differs x y h = ground (arith, h)

pub still_there :
    (p a len : ℕ) (rest : Blocks)
    → (p ≡ a + 16) ⊎ Has p (a + 16 + len) rest
    → p ≢ a + 16
    → Has p (a + 16 + len) rest
still_there p a len rest (inl here) ne = absurd (ne here)
still_there p a len rest (inr later) ne = later

pub Has-above : (p a : ℕ) (bs : Blocks) → Has p a bs → a + 16 ≤ p
Has-above p a [] h = absurd h
Has-above p a ((len, fr) ∷ rest) (inl here) = omega (arith, here)
Has-above p a ((len, fr) ∷ rest) (inr later) = omega (arith, Has-above p (a + 16 + len) rest later)

-- What each kind of change keeps: whether there are blocks.
pub next-merge :
    (len : ℕ) (fr v : Bool) (rest : Blocks) (b l : ℕ)
    → next_of b l ((len, fr) ∷ rest) ≡ next_of b l (merge ((len, v) ∷ rest))
next-merge len fr v [] b l = refl
next-merge len fr v ((len2, false) ∷ rest) b l = refl
next-merge len fr v ((len2, true) ∷ rest) b l = refl

next-release : (p a : ℕ) (bs : Blocks) (b l : ℕ) → next_of b l bs ≡ next_of b l (release p a bs)
unfolding release
next-release p a [] b l = refl
next-release p a ((len, fr) ∷ rest) b l = elim (Bool-cases (p == a + 16)) [
  | inl here ↦ rw here (next-merge len fr true rest b l)
  | inr later ↦ rw later
]

-- The store that `hsh_combine_forward` leaves holds the released blocks.
pub release-Holds :
    (p : ℕ) (s : Heap) (prev a : ℕ) (bs : Blocks)
    → Has p a bs
    → 0 < a
    → a + extent bs ≤ 2 ^ 32
    → Chain s.headers prev a bs
    → s.last_hdr ≡ last_of prev a bs
    → Holds s prev a (release p a bs) (hsh_combine_forward (p - 16) (set_free (p - 16) true s))
unfolding release
release-Holds p s prev a [] has positive fits c last = absurd has
release-Holds p s prev a ((len, fr) ∷ rest) has positive fits c last =
    elim (Bool-cases (p == a + 16)) [
      | inl here ↦
          let at : p - 16 ≡ a = minus_header p a here in
          let freed =
            marked_block s prev a true len fr rest s
              (record { chain = c; kept = λ x pos less. refl; last = last }) in
          let joined =
            forward-Holds (set_free a true s) prev a len true rest positive fits freed.chain
              freed.last in
          rw (here, at)
            (record {
              chain = joined.chain;
              kept = λ x pos less. joined.kept x pos less ∙ freed.kept x pos less;
              last = joined.last;
            })
      | inr later ↦ rw later (
          passed_block s prev a len fr rest (release p (a + 16 + len) rest) positive c
            (next-release p (a + 16 + len) rest)
            (release-Holds p s a (a + 16 + len) rest
              (still_there p a len rest has (differs p (a + 16) later)) (omega arith)
              (omega (arith, fits)) c.2 last))
    ]

-- The released block is still one of the blocks.
pub Has-release : (p a : ℕ) (bs : Blocks) → Has p a bs → Has p a (release p a bs)
unfolding release
Has-release p a [] h = absurd h
Has-release p a ((len, fr) ∷ rest) (inl here) =
    let test : (p == a + 16) ≡ true = ground (arith, here) in rw test (first_of rest)
  where
    first_of : (rest : Blocks) → Has p a (merge ((len, true) ∷ rest))
    first_of [] = inl here
    first_of ((len2, false) ∷ rest) = inl here
    first_of ((len2, true) ∷ rest) = inl here
Has-release p a ((len, fr) ∷ rest) (inr later) =
    let far = Has-above p (a + 16 + len) rest later in
    let test : (p == a + 16) ≡ false = ground (arith, far) in
    rw test (inr (Has-release p (a + 16 + len) rest later))
