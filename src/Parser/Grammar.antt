-- ===== src/Parser/Grammar.antt =====
-- src/parser/parser.cpp: the rules of expressions, types and initializers, tied together. A rule
-- that calls another spends a unit of fuel.
use plainspeak.Prelude.{ℕ, zero, suc}
use plainspeak.Ast.{Expr}
use plainspeak.Parser.{Parser, out_of_fuel}
use plainspeak.Parser.Table.{Rules}
use plainspeak.Parser.Operators.{parse_or}
use plainspeak.Parser.Types.{parse_type_spec}
use plainspeak.Parser.Aggregates.{parse_aggregate_block}
use plainspeak.Parser.Primary.{parse_primary}

unfoldable pub rules : ℕ → Rules
unfolding parse_or parse_type_spec parse_aggregate_block parse_primary
rules zero = record {
  expr = λ c. out_of_fuel;
  primary = λ c. out_of_fuel;
  type_spec = λ c. out_of_fuel;
  aggregate_block = λ c. out_of_fuel;
}
rules (suc n) =
    let g : Rules = rules n in
    record {
      expr = parse_or g.primary;
      primary = parse_primary g;
      type_spec = parse_type_spec g;
      aggregate_block = parse_aggregate_block g;
    }

unfoldable pub parse_expr : ℕ → Parser Expr
unfolding rules
parse_expr n = (rules n).expr
