-- ===== src/Calc/Tests.antt =====
-- Runs of the calculator of user/calc, among them those of the tests in its main.c.
use goofy_micro_os.Prelude.{◌≢◌, [], ◌∷◌, ◌≡◌, refl}
use goofy_micro_os.Text.{strcmp}
use goofy_micro_os.Calc.Run.{returns, aborts, faults}
use goofy_micro_os.Calc.Eval.{calculate}
use goofy_micro_os.Calc.Run.{out_of_fuel}
use goofy_micro_os.Calc.Lexer.{number, plus, minus, multiply, lparen, rparen, lexer_tokenize}
use goofy_micro_os.Calc.Ends.{lexer_tokenize-ends}
use goofy_micro_os.Calc.Parser.{number_node, add_node, substract_node, multiply_node, parser_parse}
use goofy_micro_os.Calc.Parser.Grammar.{
  Term, literal, parens, term, nil, more, times, added, subtracted, factor_tokens, factor_tree,
}
use goofy_micro_os.Calc.Parser.Refuses.{parser_parse-sum, parser_parse-three}

-- "1 + 2"
sum : calculate (49 ∷ 32 ∷ 43 ∷ 32 ∷ 50 ∷ 0 ∷ []) ≡ returns 3
unfolding calculate
sum = refl

-- "1 - 2"
difference : calculate (49 ∷ 32 ∷ 45 ∷ 32 ∷ 50 ∷ 0 ∷ []) ≡ returns 0xffffffff
unfolding calculate
difference = refl

-- "2 * 5 + 3"
product : calculate (50 ∷ 32 ∷ 42 ∷ 32 ∷ 53 ∷ 32 ∷ 43 ∷ 32 ∷ 51 ∷ 0 ∷ []) ≡ returns 13
unfolding calculate
product = refl

-- "10*(10+20)+1"
nested :
    calculate (49 ∷ 48 ∷ 42 ∷ 40 ∷ 49 ∷ 48 ∷ 43 ∷ 50 ∷ 48 ∷ 41 ∷ 43 ∷ 49 ∷ 0 ∷ []) ≡ returns 301
unfolding calculate
nested = refl

-- "test * 2"
constant : calculate (116 ∷ 101 ∷ 115 ∷ 116 ∷ 32 ∷ 42 ∷ 32 ∷ 50 ∷ 0 ∷ []) ≡ returns 6
unfolding calculate strcmp
constant = refl

-- "1+2+3"
three : calculate (49 ∷ 43 ∷ 50 ∷ 43 ∷ 51 ∷ 0 ∷ []) ≡ faults
unfolding calculate
three = refl

-- "(1)"
parenthesis : calculate (40 ∷ 49 ∷ 41 ∷ 0 ∷ []) ≡ aborts
unfolding calculate
parenthesis = refl

lexer_tokenize-ends_example : lexer_tokenize (49 ∷ 43 ∷ 0 ∷ []) ≢ out_of_fuel
lexer_tokenize-ends_example = lexer_tokenize-ends 49 (43 ∷ 0 ∷ [])

abbrev one : Term
one = term (literal 1) nil

-- 2 * (1 - 1)
abbrev twice : Term
twice = term (literal 2) (more times (parens one subtracted one) nil)

parser_parse-sum_example :
    parser_parse
      (number 1 ∷ plus ∷ number 2 ∷ multiply ∷ lparen ∷ number 1 ∷ minus ∷ number 1 ∷ rparen ∷ [])
    ≡ returns (
        add_node
          (number_node 1)
          (multiply_node (number_node 2) (substract_node (number_node 1) (number_node 1))))
unfolding factor_tokens factor_tree
parser_parse-sum_example = parser_parse-sum one added twice

parser_parse-three_example :
    parser_parse (number 1 ∷ plus ∷ number 1 ∷ minus ∷ number 7 ∷ []) ≡ faults
unfolding factor_tokens
parser_parse-three_example = parser_parse-three one added one subtracted 7
