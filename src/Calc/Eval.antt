-- ===== src/Calc/Eval.antt =====
-- user/calc/interpreter.c: `eval`. An `int` is kept modulo 2^32, and a division goes toward zero; a
-- division by zero, and that of the least number by -1, are faults.
use goofy_micro_os.Prelude.{
  ℕ, ◌+◌, ◌-◌, ◌*◌, ◌/◌, ◌%◌, ◌^◌, Bool, true, false, ◌&&◌, ◌||◌, List, leb, ◌==◌, if◌then◌else◌,
}
use goofy_micro_os.Calc.Run.{Run, returns, aborts, faults, ◌>>=◌}
use goofy_micro_os.Calc.Lexer.{lexer_tokenize}
use goofy_micro_os.Calc.Parser.{
  Node, number_node, add_node, substract_node, multiply_node, divide_node, modulo_node, plus_node,
  minus_node, parser_parse,
}

abbrev pub int : ℕ → ℕ
int n = n % 2 ^ 32

abbrev pub is_negative : ℕ → Bool
is_negative a = leb (2 ^ 31) a

-- The magnitude of an `int`, and the number of a sign and a magnitude.
abbrev pub magnitude : ℕ → ℕ
magnitude a = if is_negative a then 2 ^ 32 - a else a

abbrev pub signed : Bool → ℕ → ℕ
signed negative m = if negative then int (2 ^ 32 - m) else m

abbrev pub differ : Bool → Bool → Bool
differ true b = if b then false else true
differ false b = b

abbrev pub traps : ℕ → ℕ → Bool
traps a b = b == 0 || (a == 2 ^ 31 && b == 2 ^ 32 - 1)

unfoldable pub int_div : ℕ → ℕ → Run ℕ
int_div a b =
    if traps a b
    then faults
    else returns (signed (differ (is_negative a) (is_negative b)) (magnitude a / magnitude b))

unfoldable pub int_mod : ℕ → ℕ → Run ℕ
int_mod a b =
    if traps a b then faults else returns (signed (is_negative a) (magnitude a % magnitude b))

unfoldable pub eval : Node → Run ℕ
unfolding int_div int_mod
eval (number_node n) = returns (int n)
eval (add_node a b) = eval a >>= λ x. eval b >>= λ y. returns (int (x + y))
eval (substract_node a b) = eval a >>= λ x. eval b >>= λ y. returns (int (x + (2 ^ 32 - y)))
eval (multiply_node a b) = eval a >>= λ x. eval b >>= λ y. returns (int (x * y))
eval (divide_node a b) = eval a >>= λ x. eval b >>= λ y. int_div x y
eval (modulo_node a b) = eval a >>= λ x. eval b >>= λ y. int_mod x y
eval (plus_node a) = aborts
eval (minus_node a) = aborts

-- The calculator of user/calc/main.c on a text: what it prints as its result.
unfoldable pub calculate : List ℕ → Run ℕ
unfolding lexer_tokenize parser_parse eval
calculate input = lexer_tokenize input >>= λ token. parser_parse token >>= λ node. eval node
