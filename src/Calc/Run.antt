-- ===== src/Calc/Run.antt =====
-- How a run of user/calc ends: it returns, calls `abort()`, reads through a null pointer, divides
-- by zero or past the range (a trap), or the model's fuel is spent.
pub data Run (A : Type 0) : Type 0 where
  returns : A → Run A
  aborts : Run A
  faults : Run A
  out_of_fuel : Run A

infixl 20 ◌>>=◌
abbrev pub ◌>>=◌ : {A B : Type 0} → Run A → (A → Run B) → Run B
returns a >>= f = f a
aborts >>= f = aborts
faults >>= f = faults
out_of_fuel >>= f = out_of_fuel
