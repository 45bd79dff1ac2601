-- ===== src/Heap/Split.antt =====
-- `hsh_split` of user/libc/stdlib/heap.c on a chain of segments.
use goofy_micro_os.Heap.Chain.{Blocks, next_of, last_of, last_of-ge, Chain, Chain-relink}
use goofy_micro_os.Prelude.{
  ◌≤◌, ◌≢◌, ◌∙◌, ◌-◌, ◌%◌, ◌^◌, ◌<◌, [], ◌∷◌, ltb, ℕ, ◌+◌, ◌≡◌, refl, ap, sym, Bool, true, false,
  not, ◌&&◌, Bool-cases, inl, inr, ◌==◌, if◌then◌else◌, arith,
}
use goofy_micro_os.Heap.{sub32, hsh_split, Header, Heap, link_back, divide}
use goofy_micro_os.Heap.Chain.{Blocks, next_of, last_of, Chain, Chain-relink}

link_back_headers :
    (s : Heap) (a new x : ℕ)
    → (link_back a new s).headers x ≡ (
        if not ((s.headers a).next == 0) && x == (s.headers a).next
        then record (s.headers x) { last = new }
        else s.headers x)
unfolding link_back
link_back_headers s a new x = elim (Bool-cases ((s.headers a).next == 0)) [
  | inl end ↦ rw end
  | inr more ↦ rw more (elim (Bool-cases (x == (s.headers a).next)) [
    | inl here ↦
        let e : x ≡ (s.headers a).next = ground (arith, here) in
        rw here (ap (λ (y : ℕ). record (s.headers y) { last = new }) (sym e))
    | inr other ↦ rw other
  ])
]

-- Writes that later ones overtake.
collapse :
    {A : Type 0} (p q : Bool) (x1 x2 y1 y2 y3 y4 z : A)
    → (if p
        then x1
        else if q
        then y1
        else if q
        then y2
        else if q
        then y3
        else if p
        then x2
        else if q
        then y4
        else z)
      ≡ (if p then x1 else if q then y1 else z)
collapse true q x1 x2 y1 y2 y3 y4 z = refl
collapse false true x1 x2 y1 y2 y3 y4 z = refl
collapse false false x1 x2 y1 y2 y3 y4 z = refl

-- The header at `a` and the new one, with the others as they are.
divide_headers :
    (s : Heap) (a new size length x : ℕ)
    → a ≢ new
    → (divide a new size length s).headers x ≡ (
        if x == a
        then record (s.headers a) { length = size; next = new }
        else if x == new
        then record {
          length = length;
          next = (s.headers a).next;
          last = a;
          free = (s.headers a).free;
        }
        else s.headers x)
unfolding divide
divide_headers s a new size length x apart =
    let ne : (a == new) ≡ false = ground (arith, apart) in
    let ne' : (new == a) ≡ false = ground (arith, apart) in
    let self : (a == a) ≡ true = ground arith in
    let self' : (new == new) ≡ true = ground arith in
    elim (Bool-cases (s.last_hdr == a)) [
      | inl last ↦ rw (last, ne, ne', self, self') (collapse (x == a) (x == new) _ _ _ _ _ _ _)
      | inr other ↦ rw (other, ne, ne', self, self') (collapse (x == a) (x == new) _ _ _ _ _ _ _)
    ]

divide-last_hdr :
    (s : Heap) (a new size length : ℕ)
    → (divide a new size length s).last_hdr ≡ (if s.last_hdr == a then new else s.last_hdr)
unfolding divide
divide-last_hdr s a new size length = elim (Bool-cases (s.last_hdr == a)) [
  | inl last ↦ rw last
  | inr other ↦ rw other
]

link_back-last_hdr : (s : Heap) (a new : ℕ) → (link_back a new s).last_hdr ≡ s.last_hdr
unfolding link_back
link_back-last_hdr s a new = elim (Bool-cases ((s.headers a).next == 0)) [
  | inl end ↦ rw end
  | inr more ↦ rw more
]

-- With room for a header and 16 bytes behind `size`, both parts are made.
module _ (s : Heap) (prev a size len : ℕ) (fr : Bool) (rest : Blocks)
    (c : Chain s.headers prev a ((len, fr) ∷ rest)) (wide : 16 ≤ size) (aligned : size % 16 ≡ 0)
    (long : size + 32 ≤ len) (fits : a + 16 + len ≤ 2 ^ 32) where
  abbrev new : ℕ
  new = a + 16 + size

  hsh_split-divide :
      hsh_split a size s ≡ (new, divide a new size (len - size - 16) (link_back a new s))
  unfolding hsh_split
  hsh_split-divide =
      let is_len : (s.headers a).length ≡ len = ap (λ (h : Header). h.length) c.0 in
      let over : sub32 len (size + 16) ≡ len - size - 16 = omega (arith, wide, long, fits) in
      let at : (a + size + 16) % 2 ^ 32 ≡ new = omega (arith, long, fits) in
      let enough : ltb size 0x10 ≡ false = ground (arith, wide) in
      let room : ltb (len - size - 16) 0x10 ≡ false = ground (arith, long) in
      rw (is_len, over, at, enough, room)

  -- What a header becomes, other than those of the two parts.
  others :
      (x : ℕ) → x ≢ a → x ≢ new → (hsh_split a size s).1.headers x ≡ (link_back a new s).headers x
  others x not_this not_new =
      let ne : (x == a) ≡ false = ground (arith, not_this) in
      let ne' : (x == new) ≡ false = ground (arith, not_new) in
      rw hsh_split-divide (
        divide_headers (link_back a new s) a new size (len - size - 16) x (omega (arith, wide))
        ∙ rw (ne, ne'))

  unlinked : (x : ℕ) → 0 < x → x ≢ next_of a len rest → (link_back a new s).headers x ≡ s.headers x
  unlinked x positive other =
      let n : (s.headers a).next ≡ next_of a len rest = ap (λ (h : Header). h.next) c.0 in
      let test : (x == next_of a len rest) ≡ false = ground (arith, other) in
      link_back_headers s a new x
      ∙ rw (n, test)
          (elim (Bool-cases (next_of a len rest == 0)) [ inl end ↦ rw end | inr more ↦ rw more ])

  this_kept : 0 < a → (link_back a new s).headers a ≡ s.headers a
  this_kept positive = unlinked a positive (next-ne rest)
    where
      next-ne : (rest : Blocks) → a ≢ next_of a len rest
      next-ne [] = omega (arith, positive)
      next-ne (b ∷ rest) = omega arith

  pub first_part :
      0 < a
      → (hsh_split a size s).1.headers a
        ≡ record { length = size; next = new; last = prev; free = fr }
  first_part positive =
      let self : (a == a) ≡ true = ground arith in
      rw hsh_split-divide (
        divide_headers (link_back a new s) a new size (len - size - 16) a (omega (arith, wide))
        ∙ rw (self, this_kept positive, c.0))

  second_part :
      0 < a
      → (hsh_split a size s).1.headers new
        ≡ record { length = len - size - 16; next = next_of a len rest; last = a; free = fr }
  second_part positive =
      let other : (new == a) ≡ false = ground arith in
      let self : (new == new) ≡ true = ground arith in
      rw hsh_split-divide (
        divide_headers (link_back a new s) a new size (len - size - 16) new (omega (arith, wide))
        ∙ rw (other, self, this_kept positive, c.0))

  pub below : (x : ℕ) → 0 < x → x < a → (hsh_split a size s).1.headers x ≡ s.headers x
  below x positive less =
      others x (omega (arith, less)) (omega (arith, less)) ∙ unlinked x positive (next-ne rest)
    where
      next-ne : (rest : Blocks) → x ≢ next_of a len rest
      next-ne [] = omega (arith, positive)
      next-ne (b ∷ rest) = omega (arith, less)

  behind_kept :
      (rest' : Blocks)
      → rest ≡ rest'
      → Chain s.headers a (a + 16 + len) rest'
      → Chain (hsh_split a size s).1.headers new (a + 16 + len) rest'
  behind_kept [] e chain = tt
  behind_kept (b ∷ bs) e chain =
      let n : (s.headers a).next ≡ a + 16 + len = ap (λ (h : Header). h.next) c.0 ∙ rw e in
      let test : (not (a + 16 + len == 0) && a + 16 + len == a + 16 + len) ≡ true = ground arith in
      Chain-relink s.headers (λ x. (hsh_split a size s).1.headers x) a new (a + 16 + len) (b ∷ bs)
        (others (a + 16 + len) (omega arith) (omega (arith, long))
          ∙ (link_back_headers s a new (a + 16 + len) ∙ rw (n, test)))
        (λ x far.
          others x (omega (arith, far)) (omega (arith, far, long))
          ∙ unlinked x (omega (arith, far)) (rw e (omega (arith, far))))
        chain

  -- The chain after the split.
  pub hsh_split-Chain :
      0 < a
      → Chain (hsh_split a size s).1.headers prev a ((size, fr) ∷ (len - size - 16, fr) ∷ rest)
  hsh_split-Chain positive =
      let end : new + 16 + (len - size - 16) ≡ a + 16 + len = omega (arith, long) in
      (
        first_part positive,
        aligned,
        (
          second_part positive ∙ rw (next_same rest),
          omega (arith, aligned, c.1, long),
          rw end (behind_kept rest refl c.2),
        ),
      )
    where
      next_same : (rest : Blocks) → next_of a len rest ≡ next_of new (len - size - 16) rest
      next_same [] = refl
      next_same (b ∷ bs) = omega (arith, long)

  pub hsh_split-last :
      s.last_hdr ≡ last_of prev a ((len, fr) ∷ rest)
      → (hsh_split a size s).1.last_hdr ≡ last_of prev a ((size, fr) ∷ (len - size - 16, fr) ∷ rest)
  hsh_split-last last =
      let end : new + 16 + (len - size - 16) ≡ a + 16 + len = omega (arith, long) in
      rw (hsh_split-divide, end)
        (divide-last_hdr (link_back a new s) a new size (len - size - 16)
          ∙ rw (link_back-last_hdr s a new, last) (moved rest))
    where
      moved :
          (rest : Blocks)
          → (if last_of a (a + 16 + len) rest == a then new else last_of a (a + 16 + len) rest)
            ≡ last_of new (a + 16 + len) rest
      moved [] = let self : (a == a) ≡ true = ground arith in rw self
      moved ((l, f) ∷ bs) =
          let far : (last_of (a + 16 + len) (a + 16 + len + 16 + l) bs == a) ≡ false =
            ground (arith, last_of-ge a (a + 16 + len) (l, f) bs) in
          rw far
