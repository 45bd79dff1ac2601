-- ===== src/Calc/Parser/Refuses.antt =====
-- The whole of user/calc/parser.c: what it reads as it is meant, and a sum on which it fails.
use goofy_micro_os.Prelude.{
  ℕ, zero, suc, ◌+◌, ◌-◌, ◌*◌, ◌≡◌, refl, ◌∙◌, ap, sym, true, some, List, [], ◌∷◌, ◌++◌,
  append_assoc, append-nil, ltb, length, length-append, drop, arith, get_elem?-drop, drop-step,
  drop-past, get_elem?-end, length-drop_cons,
}
use goofy_micro_os.Calc.Run.{returns, faults}
use goofy_micro_os.Calc.Lexer.{Token, number, rparen}
use goofy_micro_os.Calc.Parser.{
  Node, expr_op, close_paren, parser_factor, parser_term, parser_expr, expr_loop, parser_parse,
  get_next, next, has_next,
}
use goofy_micro_os.Calc.Parser.Grammar.{
  SumOp, Factor, literal, parens, Term, term, Factors, nil, more, sum_token, sum_node,
  factor_tokens, term_tokens, factor_tree, term_tree,
}
use goofy_micro_os.Calc.Parser.Accepts.{
  ReadsFactor, ReadsFactors, ReadsTerm, last, before, nil-Reads, more-Reads, literal-Reads,
  term-Reads, sum-Reads, sum-turn, at_end, at_sum, expr_op-token,
}

module _ (tokens : List Token) where
  close_paren-rparen :
      (node : Node) (j : ℕ) {rest : List Token}
      → drop j tokens ≡ rparen ∷ rest
      → close_paren tokens node j ≡ returns (node, suc j)
  unfolding close_paren next get_next
  close_paren-rparen node j h =
      rw (close_paren, get_elem?-drop tokens j h)
        (ap (λ k. returns (node, k)) (ground (arith, length-drop_cons tokens j h)))

  parens-Reads :
      (a : Term) (op : SumOp) (b : Term)
      → ReadsTerm tokens a
      → ReadsTerm tokens b
      → ReadsFactor tokens (parens a op b)
  unfolding factor_tokens factor_tree parser_factor close_paren next get_next
  parens-Reads a op b ra rb (suc n) i rest h fuel =
      rw
        (
          parser_factor,
          get_elem?-drop tokens i h,
          sum-Reads tokens a op b n (suc i) (rparen ∷ rest) ra rb h1 (before rest)
              (omega (arith, fuel, len, lenb)),
          back,
          close_paren-rparen _ j h2,
        )
        (ap (λ k. returns (sum_node op (term_tree a) (term_tree b), k)) (omega (arith, len, lenb)))
    where
      j : ℕ
      j = length (term_tokens b) + suc (length (term_tokens a) + suc i)

      back : 1 + j - 1 ≡ j
      back = omega arith

      h1 :
          drop (suc i) tokens ≡ term_tokens a ++ (sum_token op ∷ (term_tokens b ++ (rparen ∷ rest)))
      h1 =
          drop-step tokens i h
          ∙ (append_assoc (term_tokens a) _ rest
              ∙ ap (λ l. term_tokens a ++ (sum_token op ∷ l)) (append_assoc (term_tokens b) _ rest))

      h2 : drop j tokens ≡ rparen ∷ rest
      h2 =
          drop-past tokens (term_tokens b) _ _
            (drop-step tokens _ (drop-past tokens (term_tokens a) _ _ h1))

      len :
          length (term_tokens a ++ (sum_token op ∷ (term_tokens b ++ rparen ∷ [])))
          ≡ length (term_tokens a) + suc (length (term_tokens b ++ rparen ∷ []))
      len = length-append (term_tokens a) _

      lenb : length (term_tokens b ++ rparen ∷ []) ≡ length (term_tokens b) + 1
      lenb = length-append (term_tokens b) _
  parens-Reads a op b ra rb zero i rest h fuel = absurd (omega (arith, fuel))

  mutual
    factor-Reads : (f : Factor) → ReadsFactor tokens f
    factor-Reads (literal v) = literal-Reads tokens v
    factor-Reads (parens a op b) = parens-Reads a op b (term-Reads_all a) (term-Reads_all b)

    term-Reads_all : (t : Term) → ReadsTerm tokens t
    term-Reads_all (term f fs) = term-Reads tokens f fs (factor-Reads f) (factors-Reads fs)

    factors-Reads : (fs : Factors) → ReadsFactors tokens fs
    factors-Reads nil = nil-Reads tokens
    factors-Reads (more op f fs) = more-Reads tokens op f fs (factor-Reads f) (factors-Reads fs)

  factor-end : (n j : ℕ) → drop j tokens ≡ [] → parser_factor (suc n) tokens j ≡ faults
  unfolding parser_factor
  factor-end n j h = rw (parser_factor, get_elem?-end tokens j h) refl

  term-faults :
      (n j : ℕ) → parser_factor n tokens j ≡ faults → parser_term (suc n) tokens j ≡ faults
  unfolding parser_factor
  term-faults n j h = rw (parser_term, h) refl

  loop-faults :
      (n j : ℕ) (t : Token) (op : Node → Node → Node) (node : Node)
      → ltb j (length tokens) ≡ true
      → expr_op t ≡ some op
      → parser_term n tokens (suc j) ≡ faults
      → expr_loop (suc n) tokens (some t) node j ≡ faults
  unfolding parser_factor has_next
  loop-faults n j t op node inside e h = rw (expr_loop, inside, e, h) refl

  -- The loop of an expression at its second operator, behind which one number stands.
  overstep :
      (n j : ℕ) (op : SumOp) (v : ℕ) (node : Node)
      → drop j tokens ≡ sum_token op ∷ (number v ∷ [])
      → expr_loop (suc (suc (suc n))) tokens (next tokens j).0 node (next tokens j).1 ≡ faults
  unfolding next
  overstep n j op v node h =
      rw (here, get_elem?-drop tokens j h)
        (loop-faults (suc (suc n)) (suc j) _ _ node there (expr_op-token op) (
          term-faults (suc n) (suc (suc j))
            (factor-end n (suc (suc j)) (drop-step tokens (suc j) (drop-step tokens j h)))))
    where
      here : ltb j (length tokens) ≡ true
      here = ground (arith, length-drop_cons tokens j h)

      there : ltb (suc j) (length tokens) ≡ true
      there = ground (arith, length-drop_cons tokens (suc j) (drop-step tokens j h))

-- The parser returns the tree of the sum or the difference of two terms, at the fuel that
-- `parser_parse` has, where a term is made of numbers and parentheses with '*', '/' and '%', and
-- each parenthesis holds the sum or the difference of two such terms.
pub parser_parse-sum :
    (a : Term) (op : SumOp) (b : Term)
    → parser_parse (term_tokens a ++ (sum_token op ∷ term_tokens b))
      ≡ returns (sum_node op (term_tree a) (term_tree b))
unfolding parser_parse
parser_parse-sum a op b =
    let tokens = term_tokens a ++ (sum_token op ∷ term_tokens b) in
    rw
      (sum-Reads tokens a op b (suc (suc (3 * length tokens))) 0 [] (term-Reads_all tokens a)
        (term-Reads_all tokens b)
        (ap (λ l. term_tokens a ++ (sum_token op ∷ l)) (sym (append-nil (term_tokens b)))) last
        (omega (arith, length-append (term_tokens a) (sum_token op ∷ term_tokens b))))
      refl

-- The parser returns the tree of a single term.
pub parser_parse-term : (a : Term) → parser_parse (term_tokens a) ≡ returns (term_tree a)
unfolding parser_parse parser_factor has_next
parser_parse-term a =
    rw
      (
        parser_expr,
        term-Reads_all (term_tokens a) a (suc (3 * length (term_tokens a))) 0 []
            (sym (append-nil (term_tokens a))) at_end (omega arith),
      )
      (ground arith)

-- The parser fails on the sum or difference of three terms of which the last is a number and each
-- parenthesis in the others holds the sum or the difference of two terms: it reads through a null
-- pointer, since the loop has stepped over the number with the second operator.
pub parser_parse-three :
    (a : Term) (op : SumOp) (b : Term) (op' : SumOp) (v : ℕ)
    → parser_parse
        (term_tokens a ++ (sum_token op ∷ (term_tokens b ++ (sum_token op' ∷ (number v ∷ [])))))
      ≡ faults
unfolding parser_parse
parser_parse-three a op b op' v =
    let rest = sum_token op' ∷ (number v ∷ []) in
    let tokens = term_tokens a ++ (sum_token op ∷ (term_tokens b ++ rest)) in
    let n = 3 * length tokens - 3 in
    let len : length tokens ≡ length (term_tokens a) + (1 + (length (term_tokens b) + 2)) = omega (
      arith,
      length-append (term_tokens a) (sum_token op ∷ (term_tokens b ++ rest)),
      length-append (term_tokens b) rest,
    ) in
    let (h, turn) =
      sum-turn tokens a op b (suc (suc n)) 0 rest (term-Reads_all tokens a)
        (term-Reads_all tokens b) refl (at_sum op' _) (omega (arith, len)) in
    let fuel : 3 * length tokens ≡ suc (suc (suc n)) = omega (arith, len) in
    let run : parser_expr (suc (suc (3 * length tokens))) tokens 0 ≡ faults =
      ap (λ k. parser_expr (suc (suc k)) tokens 0) fuel ∙ (turn ∙ overstep tokens n _ op' v _ h) in
    rw run refl
