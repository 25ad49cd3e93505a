-- ===== src/Parser/Primary.antt =====
-- src/parser/parser.cpp: parsePrimary, its branches in order.
mod Forms
unfoldable pub use Forms.*
use Prim.Native.String.{String}
use plainspeak.Prelude.{
  ℕ, zero, suc, Bool, true, false, not, ◌&&◌, ◌==◌, Text, codes, List, [], ◌∷◌, ◌++◌, map, length,
}
use plainspeak.Prelude.Int.{ℤ, pos}
use plainspeak.Ast.{Place, Expr, Exprs, TypeSpec, BinOp, UnaryOp, IncDecKind, ListElementKind}
use plainspeak.Lexer.Tokenize.{TokKind, Token}
use plainspeak.Parser.{
  Cursor, out_of_fuel, Parser, pure, ◌>>=◌, ◌>>◌, peek, advance, check_word, check_words, kind_at,
  error, advance_all, expect_word, expect_ident_name, line_here, make_expr, remaining, when, refuse,
}
use plainspeak.Parser.Table.{Ask, one_of, of_kind, Rule, choose, words, Rules}
use plainspeak.Parser.Aggregates.{
  followed_by, parse_compound_literal, parse_generic_selection, parse_va_arg,
}

-- A token that is an expression of its own.
module _ (g : Rules) where
  -- The branches behind those of the functions.
  abbrev pub last_rules : List (Rule Expr)
  last_rules =
      record { guard = of_kind TokKind.lparen ∷ []; action = parse_grouped g }
      ∷ led ("call" ∷ []) (parse_call_expr g)
      ∷ literal TokKind.ident (λ t p. Expr.var_ref p t.text)
      ∷ []

  -- The branches from that of lists on.
  abbrev pub later_rules : List (Rule Expr)
  later_rules =
      led ("list" ∷ "with" ∷ []) (parse_list g)
        ∷ led ("empty" ∷ "list" ∷ "of" ∷ []) (parse_empty_list g)
        ∷ (led ("enumerator" ∷ []) λ line. do
          name ← expect_ident_name
          expect_word (codes "of")
          enumeration ← expect_ident_name
          make_expr (λ p. Expr.enumerator p name enumeration) line)
        ∷ (led ("member" ∷ []) λ line. do
          name ← expect_ident_name
          expect_word (codes "of")
          base ← g.primary
          make_expr (λ p. Expr.member p name base) line)
        ∷ (led ("element" ∷ "at" ∷ []) λ line. do
          index ← g.expr
          expect_word (codes "in")
          base ← g.primary
          make_expr (λ p. Expr.element p index base) line)
        ∷ (led ("item" ∷ "at" ∷ []) λ line. do
          index ← g.expr
          expect_word (codes "in")
          list ← g.primary
          make_expr (λ p. Expr.item p index list) line)
        ∷ function_call g ("square" ∷ "root" ∷ "of" ∷ []) (codes "sqrt")
        ∷ function_call g ("real" ∷ "part" ∷ "of" ∷ []) (codes "real")
        ∷ function_call g ("imaginary" ∷ "part" ∷ "of" ∷ []) (codes "imaginary")
        ∷ function_call g ("magnitude" ∷ "of" ∷ []) (codes "magnitude")
        ∷ function_call g ("conjugate" ∷ "of" ∷ []) (codes "conjugate")
        ∷ function_call g ("absolute" ∷ "value" ∷ "of" ∷ []) (codes "abs")
        ∷ map (λ fn. function_call g (fn ∷ "of" ∷ []) (codes fn)) function_names
      ++ last_rules

  unfoldable pub primary_rules : List (Rule Expr)
  unfolding expect_word expect_ident_name parse_compound_literal parse_generic_selection
      parse_va_arg parse_character parse_list parse_empty_list parse_call_expr parse_grouped
      parse_atomic_rmw advance
  primary_rules =
      record { guard = words ("compound" ∷ "value" ∷ []); action = parse_compound_literal g }
      ∷ record {
        guard = words ("select" ∷ "by" ∷ "type" ∷ "of" ∷ []);
        action = parse_generic_selection g;
      }
      ∷ record { guard = words ("next" ∷ "variadic" ∷ "argument" ∷ []); action = parse_va_arg g }
      ∷ literal TokKind.number (λ t p. Expr.int_lit p t.num)
      ∷ literal TokKind.float (λ t p. Expr.float_lit p t.fval)
      ∷ literal TokKind.string (λ t p. Expr.string_lit p t.text)
      ∷ led_by (words ("the" ∷ "character" ∷ []) ++ (of_kind TokKind.string ∷ [])) 2
          (parse_character g)
      ∷ (led ("evaluate" ∷ []) λ line. do
        first ← g.expr
        expect_word (codes "then")
        last ← g.expr
        make_expr (λ p. Expr.binary p BinOp.comma first last) line)
      ∷ (led ("true" ∷ []) λ line. make_expr (λ p. Expr.bool_lit p true) line)
      ∷ (led ("false" ∷ []) λ line. make_expr (λ p. Expr.bool_lit p false) line)
      ∷ prefix g ("minus" ∷ []) (λ p e. Expr.unary p UnaryOp.neg e)
      ∷ (led ("null" ∷ "pointer" ∷ []) λ line. make_expr Expr.nullptr_lit line)
      ∷ (led ("choose" ∷ []) λ line. do
        when_true ← g.expr
        expect_word (codes "when")
        condition ← g.expr
        expect_word (codes "otherwise")
        when_false ← g.expr
        make_expr (λ p. Expr.conditional p when_true condition when_false) line)
      ∷ inc_dec_rule g "increment" "before" IncDecKind.prefix_increment
      ∷ inc_dec_rule g "increment" "after" IncDecKind.postfix_increment
      ∷ inc_dec_rule g "decrement" "before" IncDecKind.prefix_decrement
      ∷ inc_dec_rule g "decrement" "after" IncDecKind.postfix_decrement
      ∷ (led ("convert" ∷ []) λ line. do
        operand ← g.primary
        expect_word (codes "to")
        expect_word (codes "type")
        target ← g.type_spec
        make_expr (λ p. Expr.cast p operand target) line)
      ∷ (led ("address" ∷ "of" ∷ [])
          λ line. do name ← expect_ident_name; make_expr (λ p. Expr.address_of p name) line)
      ∷ prefix g ("value" ∷ "at" ∷ []) Expr.deref
      ∷ prefix g ("length" ∷ "of" ∷ []) Expr.length_expr
      ∷ of_type g (words ("size" ∷ "of" ∷ "type" ∷ [])) 3 Expr.size_of_type
      ∷ prefix g ("size" ∷ "of" ∷ []) Expr.size_of
      ∷ of_type g (words ("alignment" ∷ "of" ∷ "type" ∷ [])) 3 Expr.align_of_type
      ∷ of_type g (words ("maximum" ∷ "value" ∷ "of" ∷ "type" ∷ [])) 4
          (λ p t. Expr.limit_of_type p t true)
      ∷ of_type g (words ("minimum" ∷ "value" ∷ "of" ∷ "type" ∷ [])) 4
          (λ p t. Expr.limit_of_type p t false)
      ∷ (led ("offset" ∷ "of" ∷ "member" ∷ []) λ line. do
        name ← expect_ident_name
        expect_word (codes "in")
        expect_word (codes "type")
        t ← g.type_spec
        make_expr (λ p. Expr.offset_of p name t) line)
      ∷ (led ("is" ∷ "lock" ∷ "free" ∷ [])
          λ line. do name ← expect_ident_name; make_expr (λ p. Expr.lock_free p name) line)
      ∷ function_call g ("atomic" ∷ "load" ∷ "of" ∷ []) (codes "atomic_load")
      ∷ (led ("atomic" ∷ "exchange" ∷ []) λ line. do
        value ← g.expr
        expect_word (codes "with")
        name ← expect_ident_name
        make_expr (λ p. Expr.atomic_exchange p name value) line)
      ∷ led_by
          (words ("atomic" ∷ "fetch" ∷ [])
            ++ (one_of (map codes ("add" ∷ "subtract" ∷ "and" ∷ "or" ∷ "xor" ∷ [])) ∷ []))
          2 (parse_atomic_rmw g)
      ∷ later_rules

  unfoldable pub parse_primary : Parser Expr
  unfolding primary_rules choose error
  parse_primary = choose primary_rules (error expected_primary)
