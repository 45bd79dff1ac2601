-- ===== src/Prelude/Lists.antt =====
-- Lists measured and indexed by native numbers, under the library's names: the C arrays.
use Prim.Native.Nat.{ℕ, zero, suc, ◌+◌, ◌-◌, ◌<◌, ◌≤◌, min}
use mathlib.Core.Path.{◌≡◌, refl, ap}
use mathlib.Core.List.{List, [], ◌∷◌, ◌++◌}
use mathlib.Core.Option.{Option, none, some}
use native.Mathlib.Omega.{arith}
use goofy_micro_os.Prelude.Tests.{if◌then◌else◌, ◌==◌}

module _ {ℓ} {A : Type ℓ} where
  abbrev pub length : List A → ℕ
  length [] = 0
  length (x ∷ xs) = suc (length xs)

  abbrev pub get_elem? : List A → ℕ → Option A
  get_elem? [] i = none
  get_elem? (x ∷ xs) zero = some x
  get_elem? (x ∷ xs) (suc i) = get_elem? xs i

  abbrev pub get_or : List A → ℕ → A → A
  get_or [] i d = d
  get_or (x ∷ xs) zero d = x
  get_or (x ∷ xs) (suc i) d = get_or xs i d

  -- A write out of bounds changes nothing.
  abbrev pub set : List A → ℕ → A → List A
  set [] i v = []
  set (x ∷ xs) zero v = v ∷ xs
  set (x ∷ xs) (suc i) v = x ∷ set xs i v

  abbrev pub take : ℕ → List A → List A
  take zero xs = []
  take (suc n) [] = []
  take (suc n) (x ∷ xs) = x ∷ take n xs

  abbrev pub drop : ℕ → List A → List A
  drop zero xs = xs
  drop (suc n) [] = []
  drop (suc n) (x ∷ xs) = drop n xs

  abbrev pub replicate : ℕ → A → List A
  replicate zero a = []
  replicate (suc n) a = a ∷ replicate n a

module _ {ℓ} {A : Type ℓ} where
  pub length-append : (xs ys : List A) → length (xs ++ ys) ≡ length xs + length ys
  length-append [] ys = omega arith
  length-append (x ∷ xs) ys = omega (arith, length-append xs ys)

  pub length-set : (xs : List A) (i : ℕ) (v : A) → length (set xs i v) ≡ length xs
  length-set [] i v = refl
  length-set (x ∷ xs) zero v = refl
  length-set (x ∷ xs) (suc i) v = ap suc (length-set xs i v)

  pub get_or-set :
      (xs : List A) (i j : ℕ) (v d : A)
      → i < length xs
      → get_or (set xs i v) j d ≡ (if i == j then v else get_or xs j d)
  get_or-set [] i j v d h = absurd (omega arith)
  get_or-set (x ∷ xs) zero zero v d h = refl
  get_or-set (x ∷ xs) zero (suc j) v d h = ground arith
  get_or-set (x ∷ xs) (suc i) zero v d h = ground arith
  get_or-set (x ∷ xs) (suc i) (suc j) v d h = ground (arith, get_or-set xs i j v d)

  pub length-take : (n : ℕ) (xs : List A) → length (take n xs) ≡ min n (length xs)
  length-take zero xs = omega arith
  length-take (suc n) [] = omega arith
  length-take (suc n) (x ∷ xs) = omega (arith, length-take n xs)

  pub length-drop : (n : ℕ) (xs : List A) → length (drop n xs) ≡ length xs - n
  length-drop zero xs = omega arith
  length-drop (suc n) [] = omega arith
  length-drop (suc n) (x ∷ xs) = omega (arith, length-drop n xs)

  pub take-append-drop : (n : ℕ) (xs : List A) → take n xs ++ drop n xs ≡ xs
  take-append-drop zero xs = refl
  take-append-drop (suc n) [] = refl
  take-append-drop (suc n) (x ∷ xs) = rw (take-append-drop n xs)

  pub take-length-append : (xs ys : List A) → take (length xs) (xs ++ ys) ≡ xs
  take-length-append [] ys = refl
  take-length-append (x ∷ xs) ys = rw (take-length-append xs ys)

  pub drop-length-append : (xs ys : List A) → drop (length xs) (xs ++ ys) ≡ ys
  drop-length-append [] ys = refl
  drop-length-append (x ∷ xs) ys = drop-length-append xs ys

-- A list that is read from an index on.
module _ {ℓ} {A : Type ℓ} where
  pub get_elem?-drop :
      (xs : List A) (i : ℕ) {x : A} {ys : List A} → drop i xs ≡ x ∷ ys → get_elem? xs i ≡ some x
  get_elem?-drop [] zero h = absurd (cc h)
  get_elem?-drop [] (suc i) h = absurd (cc h)
  get_elem?-drop (x ∷ xs) zero h = cc h
  get_elem?-drop (x ∷ xs) (suc i) h = get_elem?-drop xs i h

  pub drop-step :
      (xs : List A) (i : ℕ) {x : A} {ys : List A} → drop i xs ≡ x ∷ ys → drop (suc i) xs ≡ ys
  drop-step [] zero h = absurd (cc h)
  drop-step [] (suc i) h = absurd (cc h)
  drop-step (x ∷ xs) zero h = cc h
  drop-step (x ∷ xs) (suc i) h = drop-step xs i h

  pub drop-past : (xs ys zs : List A) (i : ℕ) → drop i xs ≡ ys ++ zs → drop (length ys + i) xs ≡ zs
  drop-past xs [] zs i h = let same : 0 + i ≡ i = omega arith in rw same h
  drop-past xs (y ∷ ys) zs i h =
      let same : suc (length ys) + i ≡ length ys + suc i = omega arith in
      rw same (drop-past xs ys zs (suc i) (drop-step xs i h))

  pub get_elem?-end : (xs : List A) (i : ℕ) → drop i xs ≡ [] → get_elem? xs i ≡ none
  get_elem?-end [] i h = refl
  get_elem?-end (x ∷ xs) zero h = absurd (cc h)
  get_elem?-end (x ∷ xs) (suc i) h = get_elem?-end xs i h

  pub length-drop_nil : (xs : List A) (i : ℕ) → drop i xs ≡ [] → length xs ≤ i
  length-drop_nil [] i h = omega arith
  length-drop_nil (x ∷ xs) zero h = absurd (cc h)
  length-drop_nil (x ∷ xs) (suc i) h = omega (arith, length-drop_nil xs i h)

  pub length-drop_cons :
      (xs : List A) (i : ℕ) {x : A} {ys : List A} → drop i xs ≡ x ∷ ys → i < length xs
  length-drop_cons [] zero h = absurd (cc h)
  length-drop_cons [] (suc i) h = absurd (cc h)
  length-drop_cons (x ∷ xs) zero h = omega arith
  length-drop_cons (x ∷ xs) (suc i) h = omega (arith, length-drop_cons xs i h)

module _ {ℓ} {A : Type ℓ} where
  pub take-length : (xs : List A) → take (length xs) xs ≡ xs
  take-length [] = refl
  take-length (x ∷ xs) = rw (take-length xs)

-- A cursor between what lies before it and what lies behind.
module _ {ℓ} {A : Type ℓ} where
  pub get_or-past :
      (front : List A) (x : A) (back : List A) (i : ℕ) (d : A)
      → i ≡ length front
      → get_or (front ++ x ∷ back) i d ≡ x
  get_or-past [] x back i d h = rw h
  get_or-past (y ∷ front) x back zero d h = absurd (omega (arith, h))
  get_or-past (y ∷ front) x back (suc i) d h = get_or-past front x back i d (omega (arith, h))

  pub set-past :
      (front : List A) (x : A) (back : List A) (i : ℕ) (v : A)
      → i ≡ length front
      → set (front ++ x ∷ back) i v ≡ front ++ v ∷ back
  set-past [] x back i v h = rw h
  set-past (y ∷ front) x back zero v h = absurd (omega (arith, h))
  set-past (y ∷ front) x back (suc i) v h = rw (set-past front x back i v (omega (arith, h)))
