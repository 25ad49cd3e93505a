-- ===== src/Parser/Progress/Correct.antt =====
-- The expression grammar of src/parser/parser.cpp ends on every sequence of tokens.
use plainspeak.Prelude.{ℕ, zero, suc, ◌+◌, ◌*◌, ◌≤◌, arith}
use plainspeak.Parser.{Cursor, remaining}
use plainspeak.Parser.Grammar.{rules, parse_expr}
use plainspeak.Parser.Progress.{Ended, Within, Takes}
use plainspeak.Parser.Progress.Operators.{parse_or-Takes}
use plainspeak.Parser.Progress.Rules.{Sound}
use plainspeak.Parser.Progress.Rules.Types.{parse_type_spec-Takes}
use plainspeak.Parser.Progress.Rules.Aggregates.{parse_aggregate_block-Takes}
use plainspeak.Parser.Progress.Rules.Primary.{parse_primary-Takes}

-- The rules with fuel n, on up to m remaining tokens.
record Ready (n m : ℕ) : Type 0 where
  expr_ready : 2 * m + 2 ≤ n → Takes m (rules n).expr
  primary_ready : 2 * m + 1 ≤ n → Takes m (rules n).primary
  type_ready : 2 * m + 1 ≤ n → Takes m (rules n).type_spec
  block_ready : 2 * m + 1 ≤ n → Takes m (rules n).aggregate_block

rules-Ready : (n m : ℕ) → Ready n m
unfolding rules
rules-Ready zero m = record {
  expr_ready = λ b. absurd (omega arith);
  primary_ready = λ b. absurd (omega arith);
  type_ready = λ b. absurd (omega arith);
  block_ready = λ b. absurd (omega arith);
}
rules-Ready (suc n) m =
    let sound : 2 * m ≤ n → Sound m (rules n) = λ b. record {
      expr_takes = λ k h. (rules-Ready n k).expr_ready (omega arith);
      primary_takes = λ k h. (rules-Ready n k).primary_ready (omega arith);
      type_takes = λ k h. (rules-Ready n k).type_ready (omega arith);
      block_takes = λ k h. (rules-Ready n k).block_ready (omega arith);
    } in
    record {
      expr_ready =
          λ b. parse_or-Takes m (rules n).primary ((rules-Ready n m).primary_ready (omega arith));
      primary_ready = λ b. parse_primary-Takes (rules n) (sound (omega arith));
      type_ready = λ b. parse_type_spec-Takes (rules n) (sound (omega arith));
      block_ready = λ b. parse_aggregate_block-Takes (rules n) (sound (omega arith));
    }

pub rules-Sound : (n m : ℕ) → 2 * m ≤ n → Sound m (rules n)
rules-Sound n m b = record {
  expr_takes = λ k h. (rules-Ready n k).expr_ready (omega arith);
  primary_takes = λ k h. (rules-Ready n k).primary_ready (omega arith);
  type_takes = λ k h. (rules-Ready n k).type_ready (omega arith);
  block_takes = λ k h. (rules-Ready n k).block_ready (omega arith);
}

-- On tokens that end in an Eof, of which m are behind the current one, parseExpr ends within
-- 2 m + 2 nested calls of the rules: with an expression, at least one token taken and the Eof left, or
-- with a ParseError.
pub parse_expr-Within :
    (n : ℕ) (c : Cursor) → Ended c → 2 * remaining c + 2 ≤ n → Within (remaining c) (parse_expr n c)
unfolding parse_expr
parse_expr-Within n c e b = ((rules-Ready n (remaining c)).expr_ready b).at c e (omega arith)
