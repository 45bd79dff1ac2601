-- ===== src/Calc/Parser/Accepts.antt =====
-- The parser of user/calc/parser.c on the tokens of an expression: it returns the expression's tree.
use goofy_micro_os.Prelude.{
  ℕ, zero, suc, ◌+◌, ◌*◌, ◌≤◌, ◌≡◌, refl, ◌∙◌, ap, true, none, some, List, [], ◌∷◌, ◌++◌,
  append_assoc, ltb, length, length-append, drop, arith, get_elem?-drop, drop-step, drop-past,
  get_elem?-end, length-drop_nil, length-drop_cons,
}
use goofy_micro_os.Calc.Run.{returns}
use goofy_micro_os.Calc.Lexer.{Token, rparen}
use goofy_micro_os.Calc.Parser.{
  Node, number_node, term_op, expr_op, parser_factor, parser_term, term_loop, parser_expr,
  expr_loop, next, has_next,
}
use goofy_micro_os.Calc.Parser.Grammar.{
  TermOp, times, over, rest_of, SumOp, added, subtracted, Factor, literal, parens, Term, term,
  Factors, nil, more, term_token, term_node, sum_token, sum_node, factor_tokens, term_tokens,
  factors_tokens, factor_tree, term_tree, factors_tree,
}

length-factor_tokens : (f : Factor) → 1 ≤ length (factor_tokens f)
unfolding factor_tokens
length-factor_tokens (literal v) = omega arith
length-factor_tokens (parens a op b) = omega arith

-- No operator of a term comes next.
pub data EndsTerm : List Token → Type 0 where
  at_end : EndsTerm []
  at_token : {t : Token} {rest : List Token} → term_op t ≡ none → EndsTerm (t ∷ rest)

pub at_sum : (op : SumOp) (rest : List Token) → EndsTerm (sum_token op ∷ rest)
at_sum added rest = at_token refl
at_sum subtracted rest = at_token refl

term_op-token : (op : TermOp) → term_op (term_token op) ≡ some (term_node op)
term_op-token times = refl
term_op-token over = refl
term_op-token rest_of = refl

pub expr_op-token : (op : SumOp) → expr_op (sum_token op) ≡ some (sum_node op)
expr_op-token added = refl
expr_op-token subtracted = refl

module _ (tokens : List Token) where
  -- What the functions do where the tokens of a part of an expression stand at an index.
  abbrev pub ReadsFactor : Factor → Type 0
  ReadsFactor f =
      (n i : ℕ) (rest : List Token)
      → drop i tokens ≡ factor_tokens f ++ rest
      → 3 * length (factor_tokens f) ≤ n
      → parser_factor n tokens i ≡ returns (factor_tree f, length (factor_tokens f) + i)

  abbrev pub ReadsFactors : Factors → Type 0
  ReadsFactors fs =
      (n i : ℕ) (rest : List Token) (node : Node)
      → drop i tokens ≡ factors_tokens fs ++ rest
      → EndsTerm rest
      → 3 * length (factors_tokens fs) + 1 ≤ n
      → term_loop n tokens node i ≡ returns (factors_tree fs node, length (factors_tokens fs) + i)

  abbrev pub ReadsTerm : Term → Type 0
  ReadsTerm t =
      (n i : ℕ) (rest : List Token)
      → drop i tokens ≡ term_tokens t ++ rest
      → EndsTerm rest
      → 3 * length (term_tokens t) + 1 ≤ n
      → parser_term n tokens i ≡ returns (term_tree t, length (term_tokens t) + i)

  pub nil-Reads : ReadsFactors nil
  unfolding factors_tokens factors_tree term_loop
  nil-Reads (suc n) i rest node h at_end fuel =
      rw (term_loop, get_elem?-end tokens i h) (ap (λ j. returns (node, j)) (omega arith))
  nil-Reads (suc n) i (t ∷ rest) node h (at_token e) fuel =
      rw (term_loop, get_elem?-drop tokens i h, e) (ap (λ j. returns (node, j)) (omega arith))
  nil-Reads zero i rest node h e fuel = absurd (omega (arith, fuel))

  pub more-Reads :
      (op : TermOp) (f : Factor) (fs : Factors)
      → ReadsFactor f
      → ReadsFactors fs
      → ReadsFactors (more op f fs)
  unfolding factors_tokens factors_tree term_loop
  more-Reads op f fs rf rfs (suc n) i rest node h e fuel =
      rw
        (
          term_loop,
          get_elem?-drop tokens i h,
          term_op-token op,
          rf n (suc i) (factors_tokens fs ++ rest) h1 fuel1,
          rfs n (length (factor_tokens f) + suc i) rest (term_node op node (factor_tree f)) h2 e
              fuel2,
        )
        (ap (λ j. returns (factors_tree fs (term_node op node (factor_tree f)), j))
          (omega (arith, len)))
    where
      h1 : drop (suc i) tokens ≡ factor_tokens f ++ (factors_tokens fs ++ rest)
      h1 = drop-step tokens i h ∙ append_assoc (factor_tokens f) (factors_tokens fs) rest

      h2 : drop (length (factor_tokens f) + suc i) tokens ≡ factors_tokens fs ++ rest
      h2 = drop-past tokens (factor_tokens f) _ (suc i) h1

      len :
          length (factor_tokens f ++ factors_tokens fs)
          ≡ length (factor_tokens f) + length (factors_tokens fs)
      len = length-append (factor_tokens f) (factors_tokens fs)

      fuel1 : 3 * length (factor_tokens f) ≤ n
      fuel1 = omega (arith, fuel, len)

      fuel2 : 3 * length (factors_tokens fs) + 1 ≤ n
      fuel2 = omega (arith, fuel, len)
  more-Reads op f fs rf rfs zero i rest node h e fuel = absurd (omega (arith, fuel))

  pub literal-Reads : (v : ℕ) → ReadsFactor (literal v)
  unfolding factor_tokens factor_tree parser_factor
  literal-Reads v (suc n) i rest h fuel =
      rw (parser_factor, get_elem?-drop tokens i h)
        (ap (λ j. returns (number_node v, j)) (omega arith))
  literal-Reads v zero i rest h fuel = absurd (omega (arith, fuel))

  pub term-Reads :
      (f : Factor) (fs : Factors) → ReadsFactor f → ReadsFactors fs → ReadsTerm (term f fs)
  unfolding factors_tokens factors_tree parser_factor
  term-Reads f fs rf rfs (suc n) i rest h e fuel =
      rw
        (
          parser_term,
          rf n i (factors_tokens fs ++ rest) h1 fuel1,
          rfs n (length (factor_tokens f) + i) rest (factor_tree f) h2 e fuel2,
        )
        (ap (λ j. returns (factors_tree fs (factor_tree f), j)) (omega (arith, len)))
    where
      h1 : drop i tokens ≡ factor_tokens f ++ (factors_tokens fs ++ rest)
      h1 = h ∙ append_assoc (factor_tokens f) (factors_tokens fs) rest

      h2 : drop (length (factor_tokens f) + i) tokens ≡ factors_tokens fs ++ rest
      h2 = drop-past tokens (factor_tokens f) _ i h1

      len :
          length (factor_tokens f ++ factors_tokens fs)
          ≡ length (factor_tokens f) + length (factors_tokens fs)
      len = length-append (factor_tokens f) (factors_tokens fs)

      fuel1 : 3 * length (factor_tokens f) ≤ n
      fuel1 = omega (arith, fuel, len)

      fuel2 : 3 * length (factors_tokens fs) + 1 ≤ n
      fuel2 = omega (arith, fuel, len, length-factor_tokens f)
  term-Reads f fs rf rfs zero i rest h e fuel = absurd (omega (arith, fuel))

  -- Behind a sum or a difference, the index is one past the next token, if there is one.
  pub data Behind : List Token → Type 0 where
    last : Behind []
    before : (rest : List Token) → Behind (rparen ∷ rest)

  abbrev pub past : List Token → ℕ
  past [] = 0
  past (t ∷ rest) = 1

  Behind-EndsTerm : {rest : List Token} → Behind rest → EndsTerm rest
  Behind-EndsTerm last = at_end
  Behind-EndsTerm (before rest) = at_token refl

  -- The last turn of the loop of an expression.
  stop-Reads :
      (n j : ℕ) (rest : List Token) (node : Node)
      → drop j tokens ≡ rest
      → Behind rest
      → expr_loop (suc n) tokens (next tokens j).0 node (next tokens j).1
        ≡ returns (node, past rest + j)
  unfolding parser_factor next has_next
  stop-Reads n j _ node h last = ground (arith, length-drop_nil tokens j h)
  stop-Reads n j _ node h (before rest) =
      ground (arith, length-drop_cons tokens j h, get_elem?-drop tokens j h)

  -- The first turn of the loop of an expression: it is left with `a op b`.
  pub sum-turn :
      (a : Term) (op : SumOp) (b : Term) (n i : ℕ) (rest : List Token)
      → ReadsTerm a
      → ReadsTerm b
      → drop i tokens ≡ term_tokens a ++ (sum_token op ∷ (term_tokens b ++ rest))
      → EndsTerm rest
      → 3 * length (term_tokens a) + (3 * length (term_tokens b) + 1) ≤ n
      → (let j = length (term_tokens b) + suc (length (term_tokens a) + i) in
          (drop j tokens ≡ rest)
          × (parser_expr (suc (suc (suc n))) tokens i
              ≡ expr_loop
                  (suc n)
                  tokens
                  (next tokens j).0
                  (sum_node op (term_tree a) (term_tree b))
                  (next tokens j).1))
  unfolding parser_factor next has_next
  sum-turn a op b n i rest ra rb h e fuel = (
    drop-past tokens (term_tokens b) rest _ h2,
    rw
        (
          parser_expr,
          ra (suc (suc n)) i _ h (at_sum op _) (omega (arith, fuel)),
          expr_loop,
          inside,
          get_elem?-drop tokens _ h1,
          expr_op-token op,
          rb (suc n) _ rest h2 e (omega (arith, fuel)),
        )
        refl,
  )
    where
      h1 : drop (length (term_tokens a) + i) tokens ≡ sum_token op ∷ (term_tokens b ++ rest)
      h1 = drop-past tokens (term_tokens a) _ i h

      h2 : drop (suc (length (term_tokens a) + i)) tokens ≡ term_tokens b ++ rest
      h2 = drop-step tokens _ h1

      inside : ltb (length (term_tokens a) + i) (length tokens) ≡ true
      inside = ground (arith, length-drop_cons tokens _ h1)

  -- `a op b` behind which nothing or a closing parenthesis stands.
  pub sum-Reads :
      (a : Term) (op : SumOp) (b : Term) (n i : ℕ) (rest : List Token)
      → ReadsTerm a
      → ReadsTerm b
      → drop i tokens ≡ term_tokens a ++ (sum_token op ∷ (term_tokens b ++ rest))
      → Behind rest
      → 3 * length (term_tokens a) + (3 * length (term_tokens b) + 4) ≤ n
      → parser_expr n tokens i
        ≡ returns (
          sum_node op (term_tree a) (term_tree b),
          past rest + (length (term_tokens b) + suc (length (term_tokens a) + i)),
        )
  sum-Reads a op b (suc (suc (suc n))) i rest ra rb h e fuel =
      let (h3, turn) = sum-turn a op b n i rest ra rb h (Behind-EndsTerm e) (omega (arith, fuel)) in
      turn ∙ stop-Reads n _ rest _ h3 e
  sum-Reads a op b zero i rest ra rb h e fuel = absurd (omega (arith, fuel))
  sum-Reads a op b (suc zero) i rest ra rb h e fuel = absurd (omega (arith, fuel))
  sum-Reads a op b (suc (suc zero)) i rest ra rb h e fuel = absurd (omega (arith, fuel))
