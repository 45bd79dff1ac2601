-- ===== src/Calc/Lexer.antt =====
-- user/calc/lexer.c: the tokens of a text. A text is its bytes with the NUL that ends it; `idx` is
-- the text from there on. An `int` is kept modulo 2^32.
use goofy_micro_os.Prelude.{
  ℕ, zero, suc, ◌+◌, ◌-◌, ◌*◌, ◌%◌, ◌^◌, Bool, ◌&&◌, ◌||◌, Option, none, some, List, [], ◌∷◌, ◌++◌,
  ◌==◌, if◌then◌else◌, length, between,
}
use goofy_micro_os.Calc.Run.{Run, returns, aborts, faults, out_of_fuel, ◌>>=◌}

-- `enum lexer_token_e`, with the value where the code sets one: a number, or the bytes of a name.
pub data Token : Type 0 where
  number : ℕ → Token
  plus minus multiply divide modulo lparen rparen comma : Token
  id : List ℕ → Token

abbrev pub is_letter : ℕ → Bool
is_letter c = between 97 122 c || between 65 90 c

-- The value of a digit, in the order of the code's tests; the base is not asked.
unfoldable pub digit : ℕ → Option ℕ
digit c =
    if between 48 57 c
    then some (c - 48)
    else if between 97 102 c
    then some (c - 97 + 10)
    else if between 65 70 c
    then some (c - 65 + 10)
    else none

-- The loop of `_lexer_parse_number`: the number, and the text behind it.
unfoldable pub parse_digits : ℕ → ℕ → List ℕ → ℕ × List ℕ
unfolding digit
parse_digits base acc [] = (acc, [])
parse_digits base acc (c ∷ s) = elim (digit c) [
  | none ↦ (acc, c ∷ s)
  | some d ↦ parse_digits base ((acc * base + d) % 2 ^ 32) s
]

-- `_lexer_parse_number`, with its prefixes `0x` and `0b`.
unfoldable pub lexer_parse_number : List ℕ → ℕ × List ℕ
unfolding parse_digits
lexer_parse_number (a ∷ b ∷ s) =
    if a == 48 && b == 120
    then parse_digits 16 0 s
    else if a == 48 && b == 98
    then parse_digits 2 0 s
    else parse_digits 10 0 (a ∷ b ∷ s)
lexer_parse_number s = parse_digits 10 0 s

-- The letters at the start of a text, and the text behind them.
unfoldable pub span_letters : List ℕ → List ℕ × List ℕ
span_letters [] = ([], [])
span_letters (c ∷ s) =
    let (letters, rest) = span_letters s in if is_letter c then (c ∷ letters, rest) else ([], c ∷ s)

-- The tokens of one character outside numbers and names; `none`: it is none of these.
unfoldable pub symbol : ℕ → Option (List Token)
symbol c =
    if c == 32 || c == 9 || c == 10
    then some []
    else if c == 43
    then some (plus ∷ [])
    else if c == 45
    then some (minus ∷ [])
    else if c == 42
    then some (multiply ∷ [])
    else if c == 47
    then some (divide ∷ [])
    else if c == 37
    then some (modulo ∷ [])
    else if c == 40
    then some (lparen ∷ [])
    else if c == 41
    then some (rparen ∷ [])
    else if c == 44
    then some (comma ∷ [])
    else none

-- The `switch` of `lexer_tokenize`: the tokens appended, and the text behind them.
unfoldable pub lex_step : List ℕ → Run (List Token × List ℕ)
unfolding symbol lexer_parse_number span_letters
lex_step [] = faults
lex_step (c ∷ s) = elim (symbol c) [
  | some token ↦ returns (token, s)
  | none ↦
      if between 48 57 c
      then (let (n, rest) = lexer_parse_number (c ∷ s) in returns (number n ∷ [], rest))
      else if is_letter c
      then (let (letters, rest) = span_letters s in returns (id (c ∷ letters ++ 0 ∷ []) ∷ [], rest))
      else aborts
]

-- The loop, and `lexer_tokenize` with fuel for every byte. Text that no NUL ends is a fault.
unfoldable pub tokenize_loop : ℕ → List Token → List ℕ → Run (List Token)
unfolding lex_step
tokenize_loop zero token s = out_of_fuel
tokenize_loop (suc n) token s = lex_step s >>= λ (new, rest). elim rest [
  | [] ↦ faults
  | c ∷ rest' ↦
      if c == 0 then returns (token ++ new) else tokenize_loop n (token ++ new) (c ∷ rest')
]

unfoldable pub lexer_tokenize : List ℕ → Run (List Token)
unfolding tokenize_loop
lexer_tokenize input = tokenize_loop (length input) [] input
