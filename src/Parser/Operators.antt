-- ===== src/Parser/Operators.antt =====
-- src/parser/parser.cpp: parseOr to parsePower. Each `while` takes as fuel the tokens left when it
-- is entered; what reads a primary expression is an argument.
use plainspeak.Prelude.{
  ℕ, zero, suc, Bool, true, false, codes, List, [], ◌∷◌, Option, none, some, if◌then◌else◌, Text,
}
use plainspeak.Ast.{Place, Expr, BinOp, UnaryOp}
use plainspeak.Parser.{
  Cursor, out_of_fuel, Parser, pure, ◌>>=◌, ◌>>◌, check_word, check_words, check_word_at, error,
  advance, advance_all, when, if_some, line_here, make_expr, remaining,
}

-- An operator in front, with the number of its words.
pub record Operator : Type 0 where
  pub words : ℕ
  pub node : Place → Expr → Expr → Expr

abbrev pub binary_operator : ℕ → BinOp → Operator
binary_operator n op = record { words = n; node = λ p lhs rhs. Expr.binary p op lhs rhs }

-- while (operator in front) { lhs = node(lhs, operand) }
unfoldable pub operands : ℕ → (Cursor → Option Operator) → Parser Expr → Expr → Parser Expr
unfolding advance_all line_here make_expr
operands zero operator operand lhs = λ c. out_of_fuel
operands (suc n) operator operand lhs =
    let more : Expr → Parser Expr = operands n operator operand in
    if_some operator (pure lhs) λ o. do
      line ← line_here
      advance_all o.words
      rhs ← operand
      e ← make_expr (λ p. o.node p lhs rhs) line
      more e

abbrev pub left_associative : (Cursor → Option Operator) → Parser Expr → Parser Expr
left_associative operator operand = do
  lhs ← operand
  λ c. operands (suc (remaining c)) operator operand lhs c

abbrev pub only_if : Bool → Operator → Option Operator
only_if true o = some o
only_if false o = none

abbrev pub or_operator : Cursor → Option Operator
or_operator c = only_if (check_word (codes "or") c) (binary_operator 1 BinOp.or)

abbrev pub and_operator : Cursor → Option Operator
and_operator c = only_if (check_word (codes "and") c) (binary_operator 1 BinOp.and)

abbrev pub bitwise_operator : Text → BinOp → Cursor → Option Operator
bitwise_operator word op c =
    only_if (check_words 0 ((codes "bitwise" ∷ []) ∷ (word ∷ []) ∷ []) c) (binary_operator 2 op)

abbrev pub power_operator : Cursor → Option Operator
power_operator c =
    only_if
      (check_words 0
        ((codes "to" ∷ []) ∷ (codes "the" ∷ []) ∷ (codes "power" ∷ []) ∷ (codes "of" ∷ []) ∷ []) c)
      (record { words = 4; node = λ p base exp. Expr.pow p base exp })

unfoldable pub multiplicative_operator : Cursor → Option Operator
multiplicative_operator c =
    if check_word (codes "times") c
    then some (binary_operator 1 BinOp.mul)
    else if check_words 0 ((codes "divided" ∷ []) ∷ (codes "by" ∷ []) ∷ []) c
    then some (binary_operator 2 BinOp.div)
    else only_if (check_words 0 ((codes "mod" ∷ codes "modulo" ∷ []) ∷ []) c)
        (binary_operator 1 BinOp.modulo)

unfoldable pub additive_operator : Cursor → Option Operator
additive_operator c =
    if check_word (codes "plus") c
    then some (binary_operator 1 BinOp.add)
    else only_if (check_word (codes "minus") c) (binary_operator 1 BinOp.sub)

unfoldable pub shift_operator : Cursor → Option Operator
shift_operator c =
    only_if
      (check_words 0
        ((codes "shifted" ∷ []) ∷ (codes "left" ∷ codes "right" ∷ []) ∷ (codes "by" ∷ []) ∷ []) c)
      (binary_operator 3
        (if check_word_at 1 (codes "left") c then BinOp.shift_left else BinOp.shift_right))

-- The words of a comparison after `is`, the longer ones first.
unfoldable pub comparison_operator : Cursor → Option Operator
comparison_operator c =
    if check_words 0 ((codes "greater" ∷ []) ∷ (codes "than" ∷ []) ∷ or_equal_to) c
    then some (binary_operator 5 BinOp.ge)
    else if check_words 0 ((codes "less" ∷ []) ∷ (codes "than" ∷ []) ∷ or_equal_to) c
    then some (binary_operator 5 BinOp.le)
    else if check_words 0 ((codes "greater" ∷ []) ∷ (codes "than" ∷ []) ∷ []) c
    then some (binary_operator 2 BinOp.gt)
    else if check_words 0 ((codes "less" ∷ []) ∷ (codes "than" ∷ []) ∷ []) c
    then some (binary_operator 2 BinOp.lt)
    else if check_words 0 ((codes "equal" ∷ []) ∷ (codes "to" ∷ []) ∷ []) c
    then some (binary_operator 2 BinOp.eq)
    else only_if
        (check_words 0 ((codes "not" ∷ []) ∷ (codes "equal" ∷ []) ∷ (codes "to" ∷ []) ∷ []) c)
        (binary_operator 3 BinOp.ne)
  where
    or_equal_to : List (List Text)
    or_equal_to = (codes "or" ∷ []) ∷ (codes "equal" ∷ []) ∷ (codes "to" ∷ []) ∷ []

module _ (parse_primary : Parser Expr) where
  unfoldable pub parse_power : Parser Expr
  unfolding operands
  parse_power = left_associative power_operator parse_primary

  unfoldable pub parse_multiplicative : Parser Expr
  unfolding operands multiplicative_operator parse_power
  parse_multiplicative = left_associative (λ c. multiplicative_operator c) parse_power

  unfoldable pub parse_additive : Parser Expr
  unfolding operands additive_operator parse_multiplicative
  parse_additive = left_associative (λ c. additive_operator c) parse_multiplicative

  unfoldable pub parse_shift : Parser Expr
  unfolding operands shift_operator parse_additive
  parse_shift = left_associative (λ c. shift_operator c) parse_additive

  -- At most one comparison.
  unfoldable pub parse_comparison : Parser Expr
  unfolding parse_shift comparison_operator advance_all line_here make_expr error
  parse_comparison = do
    lhs ← parse_shift
    when (check_word (codes "is"))
        (do
          line ← line_here
          advance
          if_some (λ c. comparison_operator c)
              (error (
                codes
                  "expected \"greater than\", \"less than\", \"equal to\", \"not equal to\", \"greater than or equal to\", or \"less than or equal to\" after \"is\""))
              λ o. do
                advance_all o.words
                rhs ← parse_shift
                make_expr (λ p. o.node p lhs rhs) line)
        (pure lhs)

  -- Each prefix leaves fewer tokens, which are its fuel.
  unfoldable pub parse_prefixed : ℕ → Parser Expr
  unfolding parse_comparison advance_all line_here make_expr
  parse_prefixed zero = λ c. out_of_fuel
  parse_prefixed (suc n) =
      let operand : Parser Expr = parse_prefixed n in
      when (check_word (codes "not"))
        (do
          line ← line_here
          advance_all 1
          rhs ← operand
          make_expr (λ p. Expr.unary p UnaryOp.not rhs) line)
        (when (check_words 0 ((codes "bitwise" ∷ []) ∷ (codes "not" ∷ []) ∷ []))
          (do
            line ← line_here
            advance_all 2
            rhs ← operand
            make_expr (λ p. Expr.unary p UnaryOp.bit_not rhs) line)
          parse_comparison)

  unfoldable pub parse_not : Parser Expr
  unfolding parse_prefixed
  parse_not c = parse_prefixed (suc (remaining c)) c

  unfoldable pub parse_bitwise_and : Parser Expr
  unfolding operands parse_not
  parse_bitwise_and = left_associative (bitwise_operator (codes "and") BinOp.bit_and) parse_not

  unfoldable pub parse_bitwise_xor : Parser Expr
  unfolding operands parse_bitwise_and
  parse_bitwise_xor =
      left_associative (bitwise_operator (codes "xor") BinOp.bit_xor) parse_bitwise_and

  unfoldable pub parse_bitwise_or : Parser Expr
  unfolding operands parse_bitwise_xor
  parse_bitwise_or = left_associative (bitwise_operator (codes "or") BinOp.bit_or) parse_bitwise_xor

  unfoldable pub parse_and : Parser Expr
  unfolding operands parse_bitwise_or
  parse_and = left_associative and_operator parse_bitwise_or

  -- parseExpr is parseOr.
  unfoldable pub parse_or : Parser Expr
  unfolding operands parse_and
  parse_or = left_associative or_operator parse_and
