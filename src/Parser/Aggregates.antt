-- ===== src/Parser/Aggregates.antt =====
-- src/parser/parser.cpp: parseAggregateBlock, parseAggregateEntryValue, parseCompoundLiteral,
-- parseGenericSelection and parseVaArg. Each loop takes as fuel the tokens left when it is entered.
use plainspeak.Prelude.{ℕ, zero, suc, Bool, true, false, ◌||◌, not, Text, codes, List, [], ◌∷◌}
use plainspeak.Prelude.Int.{pos, ltb_ℤ}
use plainspeak.Ast.{
  Expr, OptExpr, TypeSpec, AggregateInitKind, AggregateInitializer, Entries, Associations,
}
use plainspeak.Constants.Long.{bits64}
use plainspeak.Lexer.Tokenize.{TokKind}
use plainspeak.Parser.{
  Cursor, out_of_fuel, Parser, pure, ◌>>=◌, ◌>>◌, peek, advance, check_word, check_words, kind_at,
  error, advance_all, expect_word, expect_ident_name, line_here, make_expr, remaining, when, refuse,
}
use plainspeak.Parser.Table.{Rule, choose, on, Rules}
use plainspeak.Parser.Types.{number_here}

abbrev pub followed_by : Cursor → Bool
followed_by c = check_words 0 ((codes "followed" ∷ []) ∷ (codes "by" ∷ []) ∷ []) c

-- What comes before the value of an entry: nothing, a member's name or an element's index.
unfoldable pub parse_designator : AggregateInitKind → Parser (Text × ℕ)
unfolding expect_ident_name expect_word kind_at peek advance error
parse_designator AggregateInitKind.members = do
  name ← expect_ident_name
  expect_word (codes "as")
  pure (name, 0)
parse_designator AggregateInitKind.elements = do
  expect_word (codes "at")
  refuse (λ c. not (kind_at 0 TokKind.number c) || number_here (λ n. ltb_ℤ n (pos 0)) c)
      (codes "an aggregate element designator needs a non-negative whole-number literal index")
  t ← advance
  expect_word (codes "as")
  pure ([], bits64 t.num)
parse_designator kind = pure ([], 0)

abbrev pub expected_entries : Text
expected_entries = codes "expected value, values, members, or elements after with"

module _ (g : Rules) where
  -- An entry in front of those that are parsed after it.
  abbrev pub parse_entry_value : Text → ℕ → Parser (Entries → Entries)
  parse_entry_value name index =
      when (check_word (codes "with"))
        (do
          advance
          nested ← g.aggregate_block
          pure (λ rest. Entries.nested_entry name index nested rest))
        (do e ← g.expr; pure (λ rest. Entries.expr_entry name index e rest))

  -- Behind an entry: "followed by" and more of them, or none.
  unfoldable pub after_entry : Parser Entries → (Entries → Entries) → Parser Entries
  unfolding check_words advance_all
  after_entry more entry =
      when followed_by (do advance_all 2; rest ← more; pure (entry rest))
        (pure (entry Entries.no_entries))

  unfoldable pub parse_entries : AggregateInitKind → ℕ → Parser Entries
  unfolding parse_designator check_word advance after_entry
  parse_entries kind zero = λ c. out_of_fuel
  parse_entries kind (suc n) =
      let more : Parser Entries = parse_entries kind n in
      do
        (name, index) ← parse_designator kind
        entry ← parse_entry_value name index
        after_entry more entry

  abbrev pub parse_listed : AggregateInitKind → Text → Parser AggregateInitializer
  parse_listed kind message = do
    refuse (check_word (codes "done")) message
    entries ← λ c. parse_entries kind (suc (remaining c)) c
    expect_word (codes "done")
    pure (AggregateInitializer.aggregate kind entries)

  abbrev pub aggregate_rules : List (Rule AggregateInitializer)
  aggregate_rules =
      on ("empty" ∷ "braces" ∷ [])
        (pure (AggregateInitializer.aggregate AggregateInitKind.empty Entries.no_entries))
      ∷ on ("values" ∷ []) (
          parse_listed AggregateInitKind.positional
            (codes "with values needs at least one initializer value"))
      ∷ on ("members" ∷ []) (
          parse_listed AggregateInitKind.members
            (codes "with members needs at least one member initializer"))
      ∷ on ("elements" ∷ []) (
          parse_listed AggregateInitKind.elements
            (codes "with elements needs at least one element initializer"))
      ∷ []

  unfoldable pub parse_aggregate_block : Parser AggregateInitializer
  unfolding choose advance_all error parse_entries expect_word
  parse_aggregate_block = choose aggregate_rules (error expected_entries)

  abbrev pub is_empty_kind : AggregateInitializer → Bool
  is_empty_kind (AggregateInitializer.aggregate AggregateInitKind.empty _) = true
  is_empty_kind (AggregateInitializer.aggregate _ _) = false

  unfoldable pub parse_compound_literal : Parser Expr
  unfolding check_word check_words advance_all advance expect_word error line_here make_expr
  parse_compound_literal = do
    line ← line_here
    advance_all 2
    expect_word (codes "of")
    expect_word (codes "type")
    type ← g.type_spec
    expect_word (codes "with")
    when (check_word (codes "value"))
        (do
          advance
          e ← g.expr
          expect_word (codes "done")
          make_expr
              (λ p. Expr.compound_literal p type (
                AggregateInitializer.aggregate AggregateInitKind.scalar
                  (Entries.expr_entry [] 0 e Entries.no_entries)))
              line)
        (do
          refuse
              (λ c. not (
                check_words 0
                  ((codes "empty" ∷ codes "values" ∷ codes "members" ∷ codes "elements" ∷ []) ∷ [])
                  c))
              (codes
                "expected value, values, members, elements, or empty braces after compound value type")
          initializer ← g.aggregate_block
          when (λ _. is_empty_kind initializer) (expect_word (codes "done") >> pure tt) (pure tt)
          make_expr (λ p. Expr.compound_literal p type initializer) line)

  unfoldable pub parse_otherwise : Parser (Associations × OptExpr)
  unfolding advance
  parse_otherwise = do advance; e ← g.expr; pure (Associations.no_associations, OptExpr.the_expr e)

  abbrev pub none_left : Parser (Associations × OptExpr)
  none_left = pure (Associations.no_associations, OptExpr.null_expr)

  -- Behind the type of an association: its value, and the associations after it.
  unfoldable pub after_type :
      Parser (Associations × OptExpr) → TypeSpec → Parser (Associations × OptExpr)
  unfolding check_word check_words advance_all expect_word parse_otherwise
  after_type more type = do
    expect_word (codes "as")
    e ← g.expr
    (rest, default_expr) ←
        when followed_by (advance_all 2 >> more)
          (when (check_word (codes "otherwise")) parse_otherwise none_left)
    pure (Associations.an_association type e rest, default_expr)

  -- The associations up to the default expression, if there is one, or to "done".
  unfoldable pub parse_associations : ℕ → Parser (Associations × OptExpr)
  unfolding check_word parse_otherwise after_type
  parse_associations zero = λ c. out_of_fuel
  parse_associations (suc n) =
      let more : Parser (Associations × OptExpr) = parse_associations n in
      when (check_word (codes "done")) none_left
        (when (check_word (codes "otherwise")) parse_otherwise (g.type_spec >>= after_type more))

  abbrev pub no_association : Associations → Bool
  no_association Associations.no_associations = true
  no_association (Associations.an_association t e rest) = false

  unfoldable pub parse_generic_selection : Parser Expr
  unfolding parse_associations advance_all expect_word error line_here make_expr
  parse_generic_selection = do
    line ← line_here
    advance_all 1
    expect_word (codes "by")
    expect_word (codes "type")
    expect_word (codes "of")
    control ← g.expr
    expect_word (codes "with")
    (associations, default_expr) ← λ c. parse_associations (suc (remaining c)) c
    refuse (λ _. no_association associations)
        (codes "a generic selection needs at least one type association")
    expect_word (codes "done")
    make_expr (λ p. Expr.generic_selection p control associations default_expr) line

  unfoldable pub parse_va_arg : Parser Expr
  unfolding check_word advance advance_all expect_word expect_ident_name line_here make_expr
  parse_va_arg = do
    line ← line_here
    advance_all 3
    source ← when (check_word (codes "from")) (advance >> expect_ident_name) (pure [])
    expect_word (codes "as")
    type ← g.type_spec
    make_expr (λ p. Expr.va_arg p type source) line
