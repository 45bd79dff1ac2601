-- ===== src/Text/Compare.antt =====
-- The comparing functions of mckrnl/utils/string.c: the result is zero exactly on equal strings.
use goofy_micro_os.Prelude.{
  ℕ, zero, suc, ◌+◌, ◌%◌, ◌≤◌, ◌<◌, ◌≡◌, ◌≢◌, ◌↔◌, refl, ◌∙◌, Bool, true, false, not, ◌&&◌, Option,
  some, [], ◌∷◌, ◌++◌, arith, ◌==◌, ==_iff, if◌then◌else◌, length, take, map, Bool-cases, inl, inr,
}
use mathlib.Core.Path.{ap₂}
use goofy_micro_os.Prelude.Int.{ℤ, pos, sub_ℕ, sub_ℕ-zero_iff}
use goofy_micro_os.Text.{Bytes, memcmp, char_diff, strcmp, tolower, strcasecmp}
use goofy_micro_os.Text.Copy.{NoNul}

-- Every number of the list is a byte.
abbrev pub AreBytes : Bytes → Type 0
AreBytes [] = Unit
AreBytes (c ∷ cs) = (c < 256) × AreBytes cs

-- A comparison that returns, and returns zero exactly when `P` holds.
abbrev pub Decides : Option ℤ → Type 0 → Type 0
Decides r P = (z : ℤ) × (r ≡ some z) × ((z ≡ pos 0) ↔ P)

head_eq : {a b : ℕ} {xs ys : Bytes} → a ∷ xs ≡ b ∷ ys → (a ≡ b) × (xs ≡ ys)
head_eq e = (ground arith, ground arith)

both : {z : ℤ} {P : Type 0} → z ≡ pos 0 → P → (z ≡ pos 0) ↔ P
both e p = (λ _. p, λ _. e)

neither : {z : ℤ} {P : Type 0} → z ≢ pos 0 → ¬ P → (z ≡ pos 0) ↔ P
neither ne np = (λ e. absurd (ne e), λ p. absurd (np p))

cons_iff :
    {z : ℤ} {a b : ℕ} {xs ys : Bytes}
    → a ≡ b
    → ((z ≡ pos 0) ↔ (xs ≡ ys))
    → (z ≡ pos 0) ↔ (a ∷ xs ≡ b ∷ ys)
cons_iff e iff = (λ h. ap₂ ◌∷◌ e (iff.0 h), λ h. iff.1 (head_eq h).1)

heads_differ : {a b : ℕ} {xs ys : Bytes} → (a == b) ≡ false → a ∷ xs ≢ b ∷ ys
heads_differ differ h = ground (arith, differ, (head_eq h).0)

char_diff-ne : (a b : ℕ) → a < 256 → b < 256 → (a == b) ≡ false → char_diff a b ≢ pos 0
char_diff-ne a b ha hb differ e =
    ground (arith, differ, (sub_ℕ-zero_iff ((a + 128) % 256) ((b + 128) % 256)).0 e)

sub_ℕ-ne : (a b : ℕ) → (a == b) ≡ false → sub_ℕ a b ≢ pos 0
sub_ℕ-ne a b differ e = ground (arith, differ, (sub_ℕ-zero_iff a b).0 e)

tolower-lt : (a : ℕ) → a < 256 → tolower a < 256
tolower-lt a h = ground arith

tolower_pos : (a : ℕ) → 0 < a → (tolower a == 0) ≡ false
tolower_pos a h = ground arith

pos_ne_zero : (a : ℕ) → 0 < a → ((a == 0) ≡ false) × ((0 == a) ≡ false)
pos_ne_zero a h = (ground arith, ground arith)

-- `strcmp` returns, and returns zero exactly on equal strings.
pub strcmp-Decides :
    (xs ys r q : Bytes)
    → NoNul xs
    → NoNul ys
    → AreBytes xs
    → AreBytes ys
    → Decides (strcmp (xs ++ 0 ∷ r) (ys ++ 0 ∷ q)) (xs ≡ ys)
unfolding strcmp
strcmp-Decides [] [] r q na nb ba bb = (pos 0, refl, both refl refl)
strcmp-Decides [] (b ∷ ys) r q na nb ba bb =
    let ne = (pos_ne_zero b nb.0).1 in
    (char_diff 0 b, ground arith, neither (char_diff-ne 0 b (omega arith) bb.0 ne) (λ e. cc e))
strcmp-Decides (a ∷ xs) [] r q na nb ba bb =
    let ne = (pos_ne_zero a na.0).0 in
    (char_diff a 0, ground arith, neither (char_diff-ne a 0 ba.0 (omega arith) ne) (λ e. cc e))
strcmp-Decides (a ∷ xs) (b ∷ ys) r q na nb ba bb = elim (Bool-cases (a == b)) [
  | inl same ↦
      let (z, e, iff) = strcmp-Decides xs ys r q na.1 nb.1 ba.1 bb.1 in
      (z, ground (arith, e), cons_iff ((==_iff _ _).0 same) iff)
  | inr differ ↦ (
    char_diff a b,
    ground (arith, differ),
    neither (char_diff-ne a b ba.0 bb.0 differ) (heads_differ differ),
  )
]

-- `memcmp` of blocks of at least `n` bytes returns, and returns zero exactly when they agree on `n`.
pub memcmp-Decides :
    (s1 s2 : Bytes) (n : ℕ)
    → n ≤ length s1
    → n ≤ length s2
    → Decides (memcmp s1 s2 n) (take n s1 ≡ take n s2)
unfolding memcmp
memcmp-Decides s1 s2 zero a b = (pos 0, refl, both refl refl)
memcmp-Decides [] s2 (suc n) a b = absurd (omega arith)
memcmp-Decides (c ∷ s1) [] (suc n) a b = absurd (omega arith)
memcmp-Decides (c ∷ s1) (d ∷ s2) (suc n) a b = elim (Bool-cases (c == d)) [
  | inl same ↦
      let (z, e, iff) = memcmp-Decides s1 s2 n (omega arith) (omega arith) in
      (z, ground (arith, e, same), cons_iff ((==_iff _ _).0 same) iff)
  | inr differ ↦
      (sub_ℕ c d, ground (arith, differ), neither (sub_ℕ-ne c d differ) (heads_differ differ))
]

second_fails {ℓ} : {A : Type ℓ} (x y : A) (n t : Bool) → t ≡ false → (if n && t then x else y) ≡ y
second_fails x y true t e = rw e
second_fails x y false t e = refl

both_hold {ℓ} :
    {A : Type ℓ} (x y : A) (n t : Bool) → n ≡ true → t ≡ true → (if n && t then x else y) ≡ x
both_hold x y n t e f = rw (e, f)

-- `strcasecmp` returns, and returns zero exactly on strings that agree but for the case of letters.
pub strcasecmp-Decides :
    (xs ys r q : Bytes)
    → NoNul xs
    → NoNul ys
    → AreBytes xs
    → AreBytes ys
    → Decides (strcasecmp (xs ++ 0 ∷ r) (ys ++ 0 ∷ q)) (map tolower xs ≡ map tolower ys)
unfolding strcasecmp
strcasecmp-Decides [] [] r q na nb ba bb = (pos 0, refl, both refl refl)
strcasecmp-Decides [] (b ∷ ys) r q na nb ba bb =
    let ne : (0 == tolower b) ≡ false = ground (arith, tolower_pos b nb.0) in
    (
      char_diff 0 (tolower b),
      refl,
      neither (char_diff-ne 0 (tolower b) (omega arith) (tolower-lt b bb.0) ne) (λ e. cc e),
    )
strcasecmp-Decides (a ∷ xs) [] r q na nb ba bb =
    let ne = tolower_pos a na.0 in
    (
      char_diff (tolower a) 0,
      second_fails _ _ (not (a == 0)) (tolower a == 0) ne,
      neither (char_diff-ne (tolower a) 0 (tolower-lt a ba.0) (omega arith) ne) (λ e. cc e),
    )
strcasecmp-Decides (a ∷ xs) (b ∷ ys) r q na nb ba bb = elim (Bool-cases (tolower a == tolower b)) [
  | inl same ↦
      let (z, e, iff) = strcasecmp-Decides xs ys r q na.1 nb.1 ba.1 bb.1 in
      (
        z,
        both_hold _ _ (not (a == 0)) (tolower a == tolower b) (ground (arith, pos_ne_zero a na.0))
              same
            ∙ e,
        cons_iff ((==_iff _ _).0 same) iff,
      )
  | inr differ ↦ (
    char_diff (tolower a) (tolower b),
    second_fails _ _ (not (a == 0)) (tolower a == tolower b) differ,
    neither (char_diff-ne (tolower a) (tolower b) (tolower-lt a ba.0) (tolower-lt b bb.0) differ)
        (heads_differ differ),
  )
]
