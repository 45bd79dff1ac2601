-- ===== src/Calc/Ends.antt =====
-- `lexer_tokenize` of user/calc/lexer.c ends: every turn of its loop takes a byte of the text.
use goofy_micro_os.Prelude.{
  between, ℕ, zero, suc, ◌+◌, ◌*◌, ◌%◌, ◌^◌, ◌≤◌, ◌<◌, ◌≡◌, ◌≢◌, refl, inl, inr, Bool, true, false,
  List, [], ◌∷◌, ◌++◌, length, arith, ◌==◌, ◌&&◌, if◌then◌else◌, Option-cases, Bool-cases,
}
use goofy_micro_os.Calc.Run.{Run, returns, aborts, faults, out_of_fuel, ◌>>=◌}
use goofy_micro_os.Calc.Lexer.{
  Token, is_letter, digit, parse_digits, lexer_parse_number, span_letters, symbol, lex_step,
  tokenize_loop, lexer_tokenize,
}

parse_digits-shortens : (base acc : ℕ) (s : List ℕ) → length (parse_digits base acc s).1 ≤ length s
unfolding parse_digits
parse_digits-shortens base acc [] = omega arith
parse_digits-shortens base acc (c ∷ s) = elim (Option-cases (digit c)) [
  | inl e ↦ rw (parse_digits, e) (omega arith)
  | inr (d, e) ↦
      rw (parse_digits, e) (omega (arith, parse_digits-shortens base ((acc * base + d) % 2 ^ 32) s))
]

parse_digits-first :
    (base acc c : ℕ) (s : List ℕ)
    → between 48 57 c ≡ true
    → length (parse_digits base acc (c ∷ s)).1 ≤ length s
unfolding parse_digits digit
parse_digits-first base acc c s e = rw (parse_digits, digit, e) (parse_digits-shortens base _ s)

-- The number of a digit's text is shorter than the text.
lexer_parse_number-shortens :
    (c : ℕ) (s : List ℕ) → between 48 57 c ≡ true → length (lexer_parse_number (c ∷ s)).1 ≤ length s
unfolding lexer_parse_number
lexer_parse_number-shortens c [] e = parse_digits-first 10 0 c [] e
lexer_parse_number-shortens c (b ∷ s) e = elim (Bool-cases (c == 48 && b == 120)) [
  | inl h ↦ rw h (omega (arith, parse_digits-shortens 16 0 s))
  | inr h ↦ elim (Bool-cases (c == 48 && b == 98)) [
    | inl h' ↦ rw (h, h') (omega (arith, parse_digits-shortens 2 0 s))
    | inr h' ↦ rw (h, h') (parse_digits-first 10 0 c (b ∷ s) e)
  ]
]

span_letters-shortens : (s : List ℕ) → length (span_letters s).1 ≤ length s
unfolding span_letters
span_letters-shortens [] = omega arith
span_letters-shortens (c ∷ s) = elim (Bool-cases (is_letter c)) [
  | inl e ↦ rw e (omega (arith, span_letters-shortens s))
  | inr e ↦ rw e (omega arith)
]

-- How a turn ends: with less text, or with a failure other than the end of the fuel.
data Shortens (s : List ℕ) : Run (List Token × List ℕ) → Type 0 where
  shorter :
      {new : List Token} {rest : List ℕ} → length rest < length s → Shortens s (returns (new, rest))
  abort : Shortens s aborts
  fault : Shortens s faults

Shortens-if :
    {s : List ℕ} (b : Bool) {x y : Run (List Token × List ℕ)}
    → (b ≡ true → Shortens s x)
    → (b ≡ false → Shortens s y)
    → Shortens s (if b then x else y)
Shortens-if true p q = p refl
Shortens-if false p q = q refl

lex_step-Shortens : (s : List ℕ) → Shortens s (lex_step s)
unfolding lex_step
lex_step-Shortens [] = fault
lex_step-Shortens (c ∷ s) = elim (Option-cases (symbol c)) [
  | inl e ↦
      rw (lex_step, e)
        (Shortens-if (between 48 57 c)
          (λ d. shorter (omega (arith, lexer_parse_number-shortens c s d)))
          λ _.
            Shortens-if (is_letter c) (λ _. shorter (omega (arith, span_letters-shortens s)))
              λ _. abort)
  | inr (t, e) ↦ rw (lex_step, e) (shorter (omega arith))
]

tokenize_loop-ends :
    (n : ℕ) (token : List Token) (s : List ℕ)
    → length s ≤ n
    → 0 < n
    → tokenize_loop n token s ≢ out_of_fuel
unfolding tokenize_loop
tokenize_loop-ends zero token s fuel pos = λ h. absurd (omega (arith, pos))
tokenize_loop-ends (suc n) token s fuel pos =
    turn (λ token' s'. tokenize_loop-ends n token' s') (lex_step s) (lex_step-Shortens s)
  where
    turn :
        ((token' : List Token) (s' : List ℕ)
          → length s' ≤ n
          → 0 < n
          → tokenize_loop n token' s' ≢ out_of_fuel)
        → (r : Run (List Token × List ℕ)) → Shortens s r
        → (r >>= λ (new, rest). elim rest [
          | [] ↦ faults
          | c ∷ rest' ↦
              if c == 0 then returns (token ++ new) else tokenize_loop n (token ++ new) (c ∷ rest')
        ])
          ≢ out_of_fuel
    turn go _ abort = λ h. cc h
    turn go _ fault = λ h. cc h
    turn go _ (shorter {rest = []} less) = λ h. cc h
    turn go _ (shorter {new = new} {rest = c ∷ rest} less) = elim (Bool-cases (c == 0)) [
      | inl e ↦ rw e λ h. cc h
      | inr e ↦
          rw e
            (go (token ++ new) (c ∷ rest) (omega (arith, less, fuel)) (omega (arith, less, fuel)))
    ]

-- `lexer_tokenize` never spends its fuel: it returns, aborts or faults on every text.
pub lexer_tokenize-ends : (c : ℕ) (s : List ℕ) → lexer_tokenize (c ∷ s) ≢ out_of_fuel
unfolding lexer_tokenize
lexer_tokenize-ends c s = tokenize_loop-ends (suc (length s)) [] (c ∷ s) (omega arith) (omega arith)
