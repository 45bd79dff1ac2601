-- ===== src/Calc/Parser/Grammar.antt =====
-- The expressions that user/calc/parser.c reads as they are meant: sums and differences of two
-- terms or one term, where a parenthesis holds exactly a sum or a difference of two terms.
use goofy_micro_os.Prelude.{ℕ, List, [], ◌∷◌, ◌++◌}
use goofy_micro_os.Calc.Lexer.{Token, number, plus, minus, multiply, divide, modulo, lparen, rparen}
use goofy_micro_os.Calc.Parser.{
  Node, number_node, add_node, substract_node, multiply_node, divide_node, modulo_node,
}

pub data TermOp : Type 0 where
  times over rest_of : TermOp

pub data SumOp : Type 0 where
  added subtracted : SumOp

mutual
  pub data Factor : Type 0 where
    literal : ℕ → Factor
    parens : Term → SumOp → Term → Factor

  -- A factor, and the factors that are applied to it in turn.
  pub data Term : Type 0 where
    term : Factor → Factors → Term

  pub data Factors : Type 0 where
    nil : Factors
    more : TermOp → Factor → Factors → Factors

abbrev pub term_token : TermOp → Token
term_token times = multiply
term_token over = divide
term_token rest_of = modulo

abbrev pub term_node : TermOp → Node → Node → Node
term_node times = multiply_node
term_node over = divide_node
term_node rest_of = modulo_node

abbrev pub sum_token : SumOp → Token
sum_token added = plus
sum_token subtracted = minus

abbrev pub sum_node : SumOp → Node → Node → Node
sum_node added = add_node
sum_node subtracted = substract_node

-- The tokens of an expression.
unfoldable mutual
  pub factor_tokens : Factor → List Token
  factor_tokens (literal n) = number n ∷ []
  factor_tokens (parens a op b) =
      lparen ∷ (term_tokens a ++ (sum_token op ∷ (term_tokens b ++ rparen ∷ [])))

  pub term_tokens : Term → List Token
  term_tokens (term f fs) = factor_tokens f ++ factors_tokens fs

  pub factors_tokens : Factors → List Token
  factors_tokens nil = []
  factors_tokens (more op f fs) = term_token op ∷ (factor_tokens f ++ factors_tokens fs)

-- Its tree; the factors of a term group to the left.
unfoldable mutual
  pub factor_tree : Factor → Node
  factor_tree (literal n) = number_node n
  factor_tree (parens a op b) = sum_node op (term_tree a) (term_tree b)

  pub term_tree : Term → Node
  term_tree (term f fs) = factors_tree fs (factor_tree f)

  pub factors_tree : Factors → Node → Node
  factors_tree nil node = node
  factors_tree (more op f fs) node = factors_tree fs (term_node op node (factor_tree f))
