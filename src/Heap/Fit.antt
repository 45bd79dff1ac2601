-- ===== src/Heap/Fit.antt =====
-- `malloc` of user/libc/stdlib/heap.c as a first fit on the blocks.
use goofy_micro_os.Prelude.{
  ==_iff, ◌∙◌, ℕ, zero, suc, ◌+◌, ◌-◌, ◌%◌, ◌^◌, ◌≤◌, ◌<◌, ◌≡◌, refl, ap, Bool, true, false,
  Bool-cases, inl, inr, Option, none, some, [], ◌∷◌, ltb, leb, ◌==◌, if◌then◌else◌, arith, length,
}
use goofy_micro_os.Heap.{
  sub32, hsh_split, Header, find_segment, taken, no_fit, Heap, set_free, Walk,
}
use goofy_micro_os.Heap.Chain.{
  Blocks, extent, next_of, last_of, Chain, Chain-above, cut, behind, first_fit,
}
use goofy_micro_os.Heap.Split.{hsh_split-Chain, hsh_split-last, below}

-- The store `s'` holds the blocks `bs` from `a` on, and agrees with `s` on the headers before them.
pub record Holds (s : Heap) (prev a : ℕ) (bs : Blocks) (s' : Heap) : Type 0 where
  pub chain : Chain s'.headers prev a bs
  pub kept : (x : ℕ) → 0 < x → x < a → s'.headers x ≡ s.headers x
  pub last : s'.last_hdr ≡ last_of prev a bs

-- What the walk over the blocks `old` comes to is what the first fit says.
pub data Refines (s : Heap) (prev a : ℕ) (old : Blocks) : Option (ℕ × Blocks) → Walk → Type 0 where
  fitted :
      {p : ℕ} {bs : Blocks} {s' : Heap}
      → Holds s prev a bs s'
      → ((b len : ℕ) → next_of b len old ≡ next_of b len bs)
      → Refines s prev a old (some (p, bs)) (taken p s')
  unfitted : Refines s prev a old none no_fit

-- A first block is made used, or free.
module _ (s : Heap) (prev a : ℕ) where
  pub marked_block :
      (v : Bool) (len : ℕ) (fr : Bool) (rest : Blocks) (s' : Heap)
      → Holds s prev a ((len, fr) ∷ rest) s'
      → Holds s prev a ((len, v) ∷ rest) (set_free a v s')
  marked_block v len fr rest s' h =
      let self : (a == a) ≡ true = ground arith in
      record {
        chain = (
          rw (self, h.chain.0),
          h.chain.1,
          Chain-above s'.headers (λ x. (set_free a v s').headers x) a (a + 16 + len) rest
              (λ x above. let ne : (x == a) ≡ false = ground (arith, above) in rw ne) h.chain.2,
        );
        kept = λ x positive less.
            let ne : (x == a) ≡ false = ground (arith, less) in rw ne (h.kept x positive less);
        last = h.last;
      }

  -- Where less than a header and 16 bytes are over, nothing is split.
  hsh_split-tight :
      (size len : ℕ) (rest : Blocks)
      → a + 16 + len ≤ 2 ^ 32
      → 16 ≤ size
      → size % 16 ≡ 0
      → size < len
      → Chain s.headers prev a ((len, true) ∷ rest)
      → ltb (len - size) 32 ≡ true
      → (hsh_split a size s).1 ≡ s
  unfolding hsh_split
  hsh_split-tight size len rest fits wide aligned less c tight =
      let is_len : (s.headers a).length ≡ len = ap (λ (h : Header). h.length) c.0 in
      let enough : ltb size 0x10 ≡ false = ground (arith, wide) in
      let over : sub32 len (size + 16) ≡ len - size - 16 =
        omega (arith, c.1, aligned, less, fits) in
      let none_left : ltb (len - size - 16) 0x10 ≡ true = ground (arith, tight) in
      rw (is_len, over, enough, none_left)

  -- The blocks behind one that is passed over.
  pub passed_block :
      (len : ℕ) (fr : Bool) (rest bs : Blocks) {s' : Heap}
      → 0 < a
      → Chain s.headers prev a ((len, fr) ∷ rest)
      → ((b l : ℕ) → next_of b l rest ≡ next_of b l bs)
      → Holds s a (a + 16 + len) bs s'
      → Holds s prev a ((len, fr) ∷ bs) s'
  passed_block len fr rest bs positive c same h = record {
    chain = (h.kept a positive (omega arith) ∙ c.0 ∙ rw (same a len), c.1, h.chain);
    kept = λ x pos less. h.kept x pos (omega (arith, less));
    last = h.last;
  }

  passed :
      (len : ℕ) (fr : Bool) (rest : Blocks) {o : Option (ℕ × Blocks)} {w : Walk}
      → 0 < a
      → Chain s.headers prev a ((len, fr) ∷ rest)
      → Refines s a (a + 16 + len) rest o w
      → Refines s prev a ((len, fr) ∷ rest) (behind (len, fr) o) w
  passed len fr rest positive c unfitted = unfitted
  passed len fr rest positive c (fitted {bs} h same) =
      fitted (passed_block len fr rest bs positive c same h) (λ b l. refl)

  -- A first block that fits is taken: whole, or cut.
  take_fit :
      (size len : ℕ) (rest : Blocks)
      → 0 < a
      → a + 16 + len ≤ 2 ^ 32
      → 16 ≤ size
      → size % 16 ≡ 0
      → size < len
      → Chain s.headers prev a ((len, true) ∷ rest)
      → s.last_hdr ≡ last_of prev a ((len, true) ∷ rest)
      → Holds s prev a (cut size len rest) (set_free a false (hsh_split a size s).1)
  take_fit size len rest positive fits wide aligned less c last =
      elim (Bool-cases (ltb (len - size) 32)) [
        | inl tight ↦
            let whole : (hsh_split a size s).1 ≡ s =
              hsh_split-tight size len rest fits wide aligned less c tight in
            rw (tight, whole)
              (marked_block false len true rest s
                (record { chain = c; kept = λ x pos under. refl; last = last }))
        | inr roomy ↦
            let long : size + 32 ≤ len = ground (arith, roomy) in
            rw roomy (
              marked_block false size true ((len - size - 16, true) ∷ rest) (hsh_split a size s).1
                (record {
                  chain =
                      hsh_split-Chain s prev a size len true rest c wide aligned long fits positive;
                  kept = λ x pos under.
                      below s prev a size len true rest c wide aligned long fits x pos under;
                  last = hsh_split-last s prev a size len true rest c wide aligned long fits last;
                }))
      ]

-- A walk that goes on from the block of length `len` at `a`.
onward :
    (fuel size : ℕ) (s : Heap) (prev a len : ℕ) (fr : Bool) (rest : Blocks)
    → 0 < a
    → Chain s.headers prev a ((len, fr) ∷ rest)
    → ((b : ℕ × Bool) (bs : Blocks)
        → rest ≡ b ∷ bs
        → Refines s a
            (a + 16 + len)
            rest
            (first_fit size (a + 16 + len) rest)
            (find_segment fuel size (a + 16 + len) s))
    → Refines s prev a
        ((len, fr) ∷ rest)
        (behind (len, fr) (first_fit size (a + 16 + len) rest))
        (if (s.headers a).next == 0 then no_fit else find_segment fuel size ((s.headers a).next) s)
onward fuel size s prev a len fr [] positive c more =
    let n : (s.headers a).next ≡ 0 = ap (λ (h : Header). h.next) c.0 in
    rw n (unfold first_fit in unfitted)
onward fuel size s prev a len fr (b ∷ bs) positive c more =
    let n : (s.headers a).next ≡ a + 16 + len = ap (λ (h : Header). h.next) c.0 in
    let further : (a + 16 + len == 0) ≡ false = ground arith in
    rw (n, further) (passed s prev a len fr (b ∷ bs) positive c (more b bs refl))

next-cut :
    (size len : ℕ) (rest : Blocks) (b l : ℕ)
    → next_of b l ((len, true) ∷ rest) ≡ next_of b l (cut size len rest)
next-cut size len rest b l = elim (Bool-cases (ltb (len - size) 32)) [
  | inl tight ↦ rw tight
  | inr roomy ↦ rw roomy
]

-- The walk of `malloc` finds the first fit, with a fuel of one round for each block.
pub find_segment-first_fit :
    (fuel size : ℕ) (s : Heap) (prev a : ℕ) (b : ℕ × Bool) (bs : Blocks)
    → length (b ∷ bs) ≤ fuel
    → 0 < a
    → a + extent (b ∷ bs) ≤ 2 ^ 32
    → 16 ≤ size
    → size % 16 ≡ 0
    → Chain s.headers prev a (b ∷ bs)
    → s.last_hdr ≡ last_of prev a (b ∷ bs)
    → Refines s prev a (b ∷ bs) (first_fit size a (b ∷ bs)) (find_segment fuel size a s)
unfolding find_segment first_fit
find_segment-first_fit zero size s prev a b bs enough positive fits wide aligned c last =
    absurd (omega (arith, enough))
find_segment-first_fit (suc fuel) size s prev a (len, fr) bs enough positive fits wide aligned c
      last =
    let header = c.0 in
    let go = onward fuel size s prev a len fr bs positive c (λ b' bs' e. rw e (
      find_segment-first_fit fuel size s a (a + 16 + len) b' bs'
        (omega (arith, enough, ap length e)) (omega arith) (omega (arith, fits, ap extent e)) wide
        aligned (rw e at c.2) (rw e at last))) in
    let is_len : (s.headers a).length ≡ len = ap (λ (h : Header). h.length) header in
    let is_free : (s.headers a).free ≡ fr = ap (λ (h : Header). h.free) header in
    elim (Bool-cases fr) [
      | inr busy ↦
          let not_free : (s.headers a).free ≡ false = is_free ∙ busy in
          rw (not_free, busy) (rw busy at go)
      | inl free ↦
          let free' : (s.headers a).free ≡ true = is_free ∙ free in
          let c' : Chain s.headers prev a ((len, true) ∷ bs) = rw free at c in
          elim (Bool-cases (ltb size len)) [
            | inl less ↦
                let room : leb size len ≡ true = ground (arith, less) in
                let less' : ltb size (s.headers a).length ≡ true = rw is_len less in
                let smaller : size < len = ground (arith, less) in
                let at : (a + 16) % 2 ^ 32 ≡ a + 16 = omega (arith, fits, smaller) in
                rw (free', free, less', room, at)
                  (fitted
                    (take_fit s prev a size len bs positive (omega (arith, fits)) wide aligned
                      (ground (arith, less)) c' last)
                    (next-cut size len bs))
            | inr no_less ↦
                let no_less' : ltb size (s.headers a).length ≡ false = rw is_len no_less in
                elim (Bool-cases (len == size)) [
                  | inl same ↦
                      let room : leb size len ≡ true = ground (arith, same) in
                      let same' : ((s.headers a).length == size) ≡ true = rw is_len same in
                      let whole : ltb (len - size) 32 ≡ true = ground (arith, same) in
                      let at : (a + 16) % 2 ^ 32 ≡ a + 16 =
                        omega (arith, fits, wide, (==_iff len size).0 same) in
                      rw (free', free, no_less', same', room, at, whole)
                        (fitted
                          (marked_block s prev a false len true bs s
                            (record { chain = c'; kept = λ x pos under. refl; last = last }))
                          (λ b l. refl))
                  | inr over ↦
                      let no_room : leb size len ≡ false = ground (arith, over, no_less) in
                      let over' : ((s.headers a).length == size) ≡ false = rw is_len over in
                      rw (free', free, no_less', over', no_room) (rw free at go)
                ]
          ]
    ]
