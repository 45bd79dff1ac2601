-- ===== src/Prelude/Loops.antt =====
-- The counted search loop `for (i = from; i < to; i++) if (p(i)) return i;`, which the program
-- writes in many places, with the one lemma that says what it finds.
use Prim.Native.Nat.{ℕ, zero, suc, ◌+◌, ◌≤◌, ◌<◌}
use mathlib.Core.Path.{◌≡◌}
use mathlib.Core.Logic.{inl, inr}
use mathlib.Core.Bool.{Bool, true, false}
use mathlib.Core.Option.{Option, none, some}
use native.Mathlib.Omega.{arith}
use goofy_micro_os.Prelude.Tests.{◌==◌, Bool-cases}

-- `count` rounds are left, at index `i`.
unfoldable pub first : (ℕ → Bool) → ℕ → ℕ → Option ℕ
first p zero i = none
first p (suc count) i = elim (p i) [ true ↦ some i | false ↦ first p count (i + 1) ]

-- The index that a search from `lo` for `count` rounds stops at: the lowest that passes the test.
pub record Found (p : ℕ → Bool) (lo count i : ℕ) : Type 0 where
  pub above : lo ≤ i
  pub below : i < lo + count
  pub holds : p i ≡ true
  pub lowest : (j : ℕ) → lo ≤ j → j < i → p j ≡ false

pub first-Found : (p : ℕ → Bool) (count lo i : ℕ) → first p count lo ≡ some i → Found p lo count i
unfolding first
first-Found p zero lo i h = absurd (cc h)
first-Found p (suc n) lo i h = elim (Bool-cases (p lo)) [
  | inl hit ↦
      let e : lo ≡ i = ground (arith, hit) in
      record {
        above = omega arith;
        below = omega arith;
        holds = rw (← e) hit;
        lowest = λ j a b. absurd (omega arith);
      }
  | inr miss ↦
      let rest = first-Found p n (lo + 1) i (ground (arith, miss)) in
      record {
        above = omega (arith, rest.above);
        below = omega (arith, rest.below);
        holds = rest.holds;
        lowest = λ j a b. elim (Bool-cases (lo == j)) [
          | inl e ↦ let e' : lo ≡ j = ground arith in rw (← e') miss
          | inr ne ↦ rest.lowest j (ground arith) b
        ];
      }
]

pub first-none :
    (p : ℕ → Bool) (count lo : ℕ)
    → first p count lo ≡ none
    → (j : ℕ) → lo ≤ j
    → j < lo + count
    → p j ≡ false
unfolding first
first-none p zero lo h j a b = absurd (omega arith)
first-none p (suc n) lo h j a b = elim (Bool-cases (p lo)) [
  | inl hit ↦ absurd (let g : none ≡ some lo = ground (arith, hit) in cc g)
  | inr miss ↦ elim (Bool-cases (lo == j)) [
    | inl e ↦ let e' : lo ≡ j = ground arith in rw (← e') miss
    | inr ne ↦ first-none p n (lo + 1) (ground (arith, miss)) j (ground arith) (omega arith)
  ]
]
