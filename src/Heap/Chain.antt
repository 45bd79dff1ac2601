-- ===== src/Heap/Chain.antt =====
-- The segments of user/libc/stdlib/heap.c as a list of blocks, each a length and whether it is free.
use goofy_micro_os.Prelude.{
  ℕ, ◌+◌, ◌-◌, ◌%◌, ◌≤◌, ◌<◌, ◌≡◌, ap, ◌∙◌, Bool, true, false, ◌&&◌, Option, none, some, List, [],
  ◌∷◌, ltb, leb, if◌then◌else◌, arith,
}
use goofy_micro_os.Heap.{Header}

abbrev pub Blocks : Type 0
Blocks = List (ℕ × Bool)

-- The bytes that the blocks take, headers included.
abbrev pub extent : Blocks → ℕ
extent [] = 0
extent ((len, fr) ∷ rest) = 16 + len + extent rest

-- The pointer to the block behind one of length `len` at `a`.
abbrev pub next_of : (a len : ℕ) → Blocks → ℕ
next_of a len [] = 0
next_of a len (b ∷ rest) = a + 16 + len

-- The address of the last block, for those from `a` on.
abbrev pub last_of : (prev a : ℕ) → Blocks → ℕ
last_of prev a [] = prev
last_of prev a ((len, fr) ∷ rest) = last_of a (a + 16 + len) rest

-- The headers from `a` on are those of the blocks, one behind the other, linked both ways.
abbrev pub Chain : (ℕ → Header) → (prev a : ℕ) → Blocks → Type 0
Chain h prev a [] = Unit
Chain h prev a ((len, fr) ∷ rest) =
    (h a ≡ record { length = len; next = next_of a len rest; last = prev; free = fr })
    × (len % 16 ≡ 0)
    × Chain h a (a + 16 + len) rest

-- Headers below the blocks do not matter.
pub Chain-above :
    (h h' : ℕ → Header) (prev a : ℕ) (bs : Blocks)
    → ((x : ℕ) → a ≤ x → h' x ≡ h x)
    → Chain h prev a bs
    → Chain h' prev a bs
Chain-above h h' prev a [] same c = tt
Chain-above h h' prev a ((len, fr) ∷ rest) same c = (
  same a (omega arith) ∙ c.0,
  c.1,
  Chain-above h h' a (a + 16 + len) rest (λ x above. same x (omega (arith, above))) c.2,
)

-- The blocks behind a new neighbour: only the first one's `last` is another.
pub Chain-relink :
    (h h' : ℕ → Header) (prev prev' a : ℕ) (bs : Blocks)
    → h' a ≡ record (h a) { last = prev' }
    → ((x : ℕ) → a < x → h' x ≡ h x)
    → Chain h prev a bs
    → Chain h' prev' a bs
Chain-relink h h' prev prev' a [] here above c = tt
Chain-relink h h' prev prev' a ((len, fr) ∷ rest) here above c = (
  here ∙ ap (λ (x : Header). record x { last = prev' }) c.0,
  c.1,
  Chain-above h h' a (a + 16 + len) rest (λ x far. above x (omega (arith, far))) c.2,
)

pub last_of-ge : (prev a : ℕ) (b : ℕ × Bool) (bs : Blocks) → a ≤ last_of prev a (b ∷ bs)
last_of-ge prev a (len, fr) [] = omega arith
last_of-ge prev a (len, fr) (b ∷ bs) = omega (arith, last_of-ge a (a + 16 + len) b bs)

-- The block that a first fit for `size` takes, by the address of its bytes, and the blocks then: the
-- first free one with room, cut if 16 bytes and a header are over.
abbrev pub cut : (size len : ℕ) → Blocks → Blocks
cut size len rest =
    if ltb (len - size) 32
    then (len, false) ∷ rest
    else (size, false) ∷ (len - size - 16, true) ∷ rest

abbrev pub behind : ℕ × Bool → Option (ℕ × Blocks) → Option (ℕ × Blocks)
behind b none = none
behind b (some (p, bs)) = some (p, b ∷ bs)

unfoldable pub first_fit : (size a : ℕ) → Blocks → Option (ℕ × Blocks)
first_fit size a [] = none
first_fit size a ((len, fr) ∷ rest) =
    let later = behind (len, fr) (first_fit size (a + 16 + len) rest) in
    if fr && leb size len then some (a + 16, cut size len rest) else later
