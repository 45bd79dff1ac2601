-- ===== src/Prelude/Ensures.antt =====
-- What a computation ensures: when it returns, and how it may fail. The rules for a chain of steps.
use mathlib.Core.Path.{◌≡◌, subst}
use mathlib.Core.Bool.{Bool, true, false}
use mathlib.Core.Option.{Option, none, some}
use goofy_micro_os.Prelude.Tests.{if◌then◌else◌}
use goofy_micro_os.Prelude.Options.{◌>>=◌}

-- It returns with `P`, or fails where `F` allows it; with an empty `F` it returns.
pub data Ensures {A : Type 0} (F : Type 0) (P : A → Type 0) : Option A → Type 0 where
  nothing : F → Ensures F P none
  just : {a : A} → P a → Ensures F P (some a)

module _ {A : Type 0} {F : Type 0} {P : A → Type 0} where
  pub Ensures-bind :
      {B : Type 0} {Q : B → Type 0} {m : Option A} {f : A → Option B}
      → Ensures F P m
      → ((a : A) → P a → Ensures F Q (f a))
      → Ensures F Q (m >>= f)
  Ensures-bind (nothing q) next = nothing q
  Ensures-bind (just p) next = next _ p

  pub Ensures-if :
      {x y : Option A} (b : Bool)
      → (b ≡ true → Ensures F P x)
      → (b ≡ false → Ensures F P y)
      → Ensures F P (if b then x else y)
  Ensures-if true p q = p (cc)
  Ensures-if false p q = q (cc)

  pub Ensures-some : {m : Option A} {a : A} → Ensures F P m → m ≡ some a → P a
  Ensures-some (nothing q) e = absurd (cc e)
  Ensures-some (just p) e = subst P (some-eq e) p
    where
      some-eq : {a b : A} → some a ≡ some b → a ≡ b
      some-eq q = cc q

-- It returns, with `P`.
abbrev pub Returns : {A : Type 0} → (A → Type 0) → Option A → Type 0
Returns P m = Ensures ⊥ P m

pub Ensures-Returns :
    {A F : Type 0} {P : A → Type 0} {m : Option A} → ¬ F → Ensures F P m → Returns P m
Ensures-Returns never (nothing q) = absurd (never q)
Ensures-Returns never (just p) = just p

pub Ensures-map :
    {A F : Type 0} {P Q : A → Type 0} {m : Option A}
    → Ensures F P m
    → ((a : A) → P a → Q a)
    → Ensures F Q m
Ensures-map (nothing q) f = nothing q
Ensures-map (just p) f = just (f _ p)
