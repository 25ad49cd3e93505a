-- ===== src/Parser/Progress/Operators.antt =====
-- parseOr to parsePower of src/parser/parser.cpp take a token where parsePrimary does.
use plainspeak.Prelude.{ℕ, zero, suc, ◌≤◌, ◌<◌, codes, Option, arith}
use plainspeak.Ast.{Expr}
use plainspeak.Parser.{Cursor, Parser, remaining}
use plainspeak.Parser.Operators.{
  Operator, operands, left_associative, parse_power, parse_multiplicative, parse_additive,
  parse_shift, parse_comparison, parse_prefixed, parse_not, parse_bitwise_and, parse_bitwise_xor,
  parse_bitwise_or, parse_and, parse_or,
}
use plainspeak.Parser.Progress.{
  Keeps, Takes, Keeps-pure, Keeps-bind, Keeps-if_some, Keeps-bind_taking, Keeps-of_fuel,
  Keeps-below, Takes-Keeps, Takes-less, Takes-bind_first,
}
use plainspeak.Parser.Progress.Steps.{
  keeps_rules, Keeps-advance_all, Keeps-line_here, Keeps-make_expr, Begins-bind, Begins-line_here,
  Begins-advance_all, Takes-when, check_word-Inside, check_words-Inside,
}

-- With more fuel than tokens, the loop ends.
operands-Keeps :
    (n : ℕ) (operator : Cursor → Option Operator) (operand : Parser Expr) (m : ℕ) (lhs : Expr)
    → m ≤ n
    → ((k : ℕ) → suc k ≤ m → Takes k operand)
    → Keeps m (operands n operator operand lhs)
unfolding operands
operands-Keeps zero operator operand m lhs b t = record { at = λ c e h. absurd (omega arith) }
operands-Keeps (suc n) operator operand m lhs b t = Keeps-if_some _ _ _ (Keeps-pure lhs) λ o.
    Keeps-bind _ _ Keeps-line_here λ line. Keeps-bind _ _ (Keeps-advance_all o.words) λ _.
      Keeps-bind_taking _ _ t λ k rhs h.
        Keeps-bind _ _ (Keeps-make_expr (λ p. o.node p lhs rhs) line)
          λ e. operands-Keeps n operator operand k e (omega arith) λ j b'. t j (omega arith)

module _ {m : ℕ} where
  left_associative-Takes :
      (operator : Cursor → Option Operator) (operand : Parser Expr)
      → Takes m operand
      → Takes m (left_associative operator operand)
  left_associative-Takes operator operand t = Takes-bind_first m _ _ t λ lhs.
      Keeps-of_fuel (λ n. operands n operator operand lhs)
        λ n k b b'.
          operands-Keeps n operator operand k lhs b λ j h. Takes-less m j _ t (omega arith)

module _ (m : ℕ) (primary : Parser Expr) (t : Takes m primary) where
  parse_power-Takes : Takes m (parse_power primary)
  unfolding parse_power
  parse_power-Takes = left_associative-Takes _ _ t

  parse_multiplicative-Takes : Takes m (parse_multiplicative primary)
  unfolding parse_multiplicative
  parse_multiplicative-Takes = left_associative-Takes _ _ parse_power-Takes

  parse_additive-Takes : Takes m (parse_additive primary)
  unfolding parse_additive
  parse_additive-Takes = left_associative-Takes _ _ parse_multiplicative-Takes

  parse_shift-Takes : Takes m (parse_shift primary)
  unfolding parse_shift
  parse_shift-Takes = left_associative-Takes _ _ parse_additive-Takes

  Keeps-parse_shift : Keeps m (parse_shift primary)
  Keeps-parse_shift = Takes-Keeps parse_shift-Takes

  parse_comparison-Takes : Takes m (parse_comparison primary)
  unfolding parse_comparison
  parse_comparison-Takes =
      Takes-bind_first m _ _ parse_shift-Takes
        λ lhs. search (keeps_rules, Keeps-parse_shift) depth 9

parse_prefixed-Takes :
    (n m : ℕ) (primary : Parser Expr) → Takes m primary → m < n → Takes m (parse_prefixed primary n)
unfolding parse_prefixed
parse_prefixed-Takes zero m primary t b = absurd (omega arith)
parse_prefixed-Takes (suc n) m primary t b =
    let again : Keeps m (parse_prefixed primary n) = Keeps-below m _ λ k e.
      parse_prefixed-Takes n k primary (Takes-less m k _ t (omega (arith, e))) (omega (arith, e)) in
    Takes-when _ _ _ (check_word-Inside (codes "not"))
      (Begins-line_here _
        λ line. Begins-bind _ _ (Begins-advance_all 0) λ _. search (keeps_rules, again) depth 9)
      (Takes-when _ _ _ (check_words-Inside _ _)
        (Begins-line_here _
          λ line. Begins-bind _ _ (Begins-advance_all 1) λ _. search (keeps_rules, again) depth 9)
        (parse_comparison-Takes m primary t))

module _ (m : ℕ) (primary : Parser Expr) (t : Takes m primary) where
  parse_not-Takes : Takes m (parse_not primary)
  unfolding parse_not
  parse_not-Takes = record {
    at = λ c e h.
        (parse_prefixed-Takes (suc (remaining c)) (remaining c) primary
            (Takes-less m (remaining c) primary t h) (omega arith)).at
          c e (omega arith);
  }

  parse_bitwise_and-Takes : Takes m (parse_bitwise_and primary)
  unfolding parse_bitwise_and
  parse_bitwise_and-Takes = left_associative-Takes _ _ parse_not-Takes

  parse_bitwise_xor-Takes : Takes m (parse_bitwise_xor primary)
  unfolding parse_bitwise_xor
  parse_bitwise_xor-Takes = left_associative-Takes _ _ parse_bitwise_and-Takes

  parse_bitwise_or-Takes : Takes m (parse_bitwise_or primary)
  unfolding parse_bitwise_or
  parse_bitwise_or-Takes = left_associative-Takes _ _ parse_bitwise_xor-Takes

  parse_and-Takes : Takes m (parse_and primary)
  unfolding parse_and
  parse_and-Takes = left_associative-Takes _ _ parse_bitwise_or-Takes

  pub parse_or-Takes : Takes m (parse_or primary)
  unfolding parse_or
  parse_or-Takes = left_associative-Takes _ _ parse_and-Takes
