-- ===== src/Calc/Parser.antt =====
-- user/calc/parser.c: the recursive descent over the tokens. The iterator is the list of tokens with
-- an index. A token type is compared with its number, as `enum lexer_token_e` counts them.
use goofy_micro_os.Prelude.{
  ℕ, zero, suc, ◌+◌, ◌-◌, ◌*◌, ◌%◌, ◌^◌, Bool, true, false, ◌&&◌, ◌||◌, Option, none, some, List,
  [], ◌∷◌, ltb, ◌==◌, if◌then◌else◌, length, get_elem?,
}
use goofy_micro_os.Prelude.Int.{is_zero}
use goofy_micro_os.Text.{strcmp}
use goofy_micro_os.Calc.Run.{Run, returns, aborts, faults, out_of_fuel, ◌>>=◌}
use goofy_micro_os.Calc.Lexer.{
  Token, number, plus, minus, multiply, divide, modulo, lparen, rparen, comma, id,
}
pub mod Grammar
pub mod Accepts
pub mod Refuses

-- `parser_node_t` by its type; a number node holds its value, and a sign has no second node.
pub data Node : Type 0 where
  number_node : ℕ → Node
  add_node substract_node multiply_node divide_node modulo_node : Node → Node → Node
  plus_node minus_node : Node → Node

-- `dynamic_array_iterator_get_next`; `none` is its null pointer.
unfoldable pub get_next : List Token → ℕ → Option Token
get_next tokens idx = get_elem? tokens idx

-- `dynamic_array_iterator_next`: the element at the index, and the index after it.
unfoldable pub next : List Token → ℕ → Option Token × ℕ
next tokens idx = (get_elem? tokens idx, if ltb idx (length tokens) then suc idx else idx)

unfoldable pub has_next : List Token → ℕ → Bool
has_next tokens idx = ltb idx (length tokens)

-- `__parser_constant`: the one constant is "test".
unfoldable pub parser_constant : List ℕ → Run ℕ
parser_constant name = elim (strcmp (116 ∷ 101 ∷ 115 ∷ 116 ∷ 0 ∷ []) name) [
  | none ↦ faults
  | some d ↦ if is_zero d then returns 3 else aborts
]

-- A parse: a node, and the index behind it.
abbrev pub Parse : Type 0
Parse = Run (Node × ℕ)

-- The operators of a term and of an expression.
abbrev pub term_op : Token → Option (Node → Node → Node)
term_op multiply = some multiply_node
term_op divide = some divide_node
term_op modulo = some modulo_node
term_op _ = none

abbrev pub expr_op : Token → Option (Node → Node → Node)
expr_op plus = some add_node
expr_op minus = some substract_node
expr_op _ = none

-- The test behind a parenthesis: the index, which has stepped back by one, must be at a `rparen`.
unfoldable pub close_paren : List Token → Node → ℕ → Parse
unfolding get_next next
close_paren tokens node idx = elim (get_next tokens idx) [
  | none ↦ faults
  | some rparen ↦ returns (node, (next tokens idx).1)
  | some _ ↦ aborts
]

unfoldable mutual
  unfolding close_paren parser_constant has_next next

  -- The code asks for `plus_node` where it means `plus`, and for `minus_node` where it means
  -- `minus`. `plus_node` is 6, which is `lparen` and is never reached; `minus_node` is 7, which is
  -- `rparen`.
  pub parser_factor : ℕ → List Token → ℕ → Parse
  parser_factor zero tokens idx = out_of_fuel
  parser_factor (suc n) tokens idx = elim (get_elem? tokens idx) [
    | none ↦ faults
    | some lparen ↦
        parser_expr n tokens (suc idx) >>= λ (node, idx'). close_paren tokens node (idx' - 1)
    | some (number v) ↦ returns (number_node v, suc idx)
    | some rparen ↦
        parser_factor n tokens (suc idx) >>= λ (node, idx'). returns (minus_node node, idx')
    | some (id name) ↦ parser_constant name >>= λ v. returns (number_node v, suc idx)
    | some _ ↦ aborts
  ]

  pub parser_term : ℕ → List Token → ℕ → Parse
  parser_term zero tokens idx = out_of_fuel
  parser_term (suc n) tokens idx =
      parser_factor n tokens idx >>= λ (node, idx'). term_loop n tokens node idx'

  -- The loop of `__parser_term`, at a current token that the index is at.
  pub term_loop : ℕ → List Token → Node → ℕ → Parse
  term_loop zero tokens node idx = out_of_fuel
  term_loop (suc n) tokens node idx = elim (get_elem? tokens idx) [
    | none ↦ returns (node, idx)
    | some t ↦ elim (term_op t) [
      | none ↦ returns (node, idx)
      | some op ↦ parser_factor n tokens (suc idx) >>= λ (right, idx').
          term_loop n tokens (op node right) idx'
    ]
  ]

  pub parser_expr : ℕ → List Token → ℕ → Parse
  parser_expr zero tokens idx = out_of_fuel
  parser_expr (suc n) tokens idx = parser_term n tokens idx >>= λ (node, idx').
      expr_loop n tokens (get_elem? tokens idx') node idx'

  -- The loop of `__parser_expr`. The current token is read with `next` at its end, so from the
  -- second turn on the index is already behind it.
  pub expr_loop : ℕ → List Token → Option Token → Node → ℕ → Parse
  expr_loop zero tokens current node idx = out_of_fuel
  expr_loop (suc n) tokens current node idx =
      if has_next tokens idx
      then elim current [
        | none ↦ faults
        | some t ↦ elim (expr_op t) [
          | none ↦ returns (node, idx)
          | some op ↦ parser_term n tokens (suc idx) >>= λ (right, idx').
              expr_loop n tokens (next tokens idx').0 (op node right) (next tokens idx').1
        ]
      ]
      else returns (node, idx)

-- `parser_parse`, with fuel for every token.
unfoldable pub parser_parse : List Token → Run Node
unfolding parser_expr
parser_parse tokens =
    parser_expr (suc (suc (3 * length tokens))) tokens 0 >>= λ (node, _). returns node
