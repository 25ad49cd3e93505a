-- ===== src/Parser/Statements/Simple.antt =====
-- src/parser/parser.cpp: the statements that hold no block: parseSay, parseSet, parseAdd to
-- parseRemoveItem, parseCall, parseReturn, the jumps, the assertions and the variadic arguments.
use plainspeak.Prelude.{ℕ, suc, true, not, Text, codes, [], ◌∷◌, none, some}
use plainspeak.Ast.{Place, Expr, Exprs, PlainStmt, Stmt}
use plainspeak.Lexer.Tokenize.{TokKind}
use plainspeak.Parser.{
  Parser, pure, ◌>>=◌, ◌>>◌, check_word, check_words, kind_at, error, advance, advance_all,
  expect_word, expect_dot, expect_ident_name, remaining, when, refuse,
}
use plainspeak.Parser.Table.{Rules}
use plainspeak.Parser.Primary.{parse_items, parse_arguments}
use plainspeak.Parser.Statements.{make_stmt, end_plain, skip_word, quoted, named}

-- `break.`, `continue.` and the other sentences of a fixed text.
abbrev pub end_stmt : (Place → Stmt) → ℕ → Parser Stmt
end_stmt node line = do expect_dot; make_stmt node line

abbrev pub expected_jump_word : Text
expected_jump_word = codes "expected \"to\" to name where the jump goes, like \"Go to redo.\""

unfoldable pub parse_goto : ℕ → Parser Stmt
unfolding check_word kind_at error advance expect_dot make_stmt
parse_goto line = do
  refuse (λ c. not (check_word (codes "to") c)) expected_jump_word
  advance
  label ← named (codes "expected the name of a Label to jump to, like \"Go to redo.\"")
  end_stmt (λ p. Stmt.goto_stmt p label.text) line

unfoldable pub parse_label : ℕ → Parser Stmt
unfolding kind_at error advance expect_dot make_stmt
parse_label line = do
  name ← named (codes "expected a name for the Label, like \"Label redo.\"")
  end_stmt (λ p. Stmt.label_stmt p name.text) line

unfoldable pub parse_warning : ℕ → Parser Stmt
unfolding kind_at error advance expect_dot make_stmt
parse_warning line = do
  message ← quoted (codes "a Warning needs a quoted message")
  end_plain (PlainStmt.warning message) line

-- A sentence of one name.
unfoldable pub parse_name : (Text → PlainStmt) → ℕ → Parser Stmt
unfolding expect_ident_name expect_dot make_stmt
parse_name node line = do name ← expect_ident_name; end_plain (node name) line

unfoldable pub parse_name_after : Text → (Text → PlainStmt) → ℕ → Parser Stmt
unfolding expect_word expect_ident_name expect_dot make_stmt
parse_name_after word node line = do
  expect_word word
  name ← expect_ident_name
  end_plain (node name) line

module _ (g : Rules) where
  unfoldable pub parse_say : ℕ → Parser Stmt
  unfolding parse_items expect_dot make_stmt
  parse_say line = do
    args ← λ c. parse_items g (suc (remaining c)) c
    end_plain (PlainStmt.say args) line

  unfoldable pub parse_set : ℕ → Parser Stmt
  unfolding check_word check_words advance advance_all expect_word expect_ident_name expect_dot
      make_stmt
  parse_set line =
      when (check_words 0 ((codes "value" ∷ []) ∷ (codes "at" ∷ []) ∷ []))
        (do
          advance_all 2
          pointer ← g.expr
          expect_word (codes "to")
          e ← g.expr
          end_plain (PlainStmt.store_through pointer e) line)
        (when (check_words 0 ((codes "element" ∷ []) ∷ (codes "at" ∷ []) ∷ []))
          (do
            advance_all 2
            index ← g.expr
            expect_word (codes "in")
            base ← g.expr
            expect_word (codes "to")
            e ← g.expr
            end_plain (PlainStmt.store_element index base e) line)
          (when (check_word (codes "member"))
            (do
              advance
              member ← expect_ident_name
              expect_word (codes "of")
              base ← g.expr
              expect_word (codes "to")
              e ← g.expr
              end_plain (PlainStmt.store_member member base e) line)
            (do
              name ← expect_ident_name
              expect_word (codes "to")
              e ← g.expr
              end_plain (PlainStmt.set_stmt name e) line)))

  -- An expression, a word and a name.
  unfoldable pub parse_onto : Text → (Expr → Text → PlainStmt) → ℕ → Parser Stmt
  unfolding expect_word expect_ident_name expect_dot make_stmt
  parse_onto word node line = do
    e ← g.expr
    expect_word word
    name ← expect_ident_name
    end_plain (node e name) line

  -- A name, "by" and an expression.
  unfoldable pub parse_by : (Expr → Text → PlainStmt) → ℕ → Parser Stmt
  unfolding expect_word expect_ident_name expect_dot make_stmt
  parse_by node line = do
    name ← expect_ident_name
    expect_word (codes "by")
    e ← g.expr
    end_plain (node e name) line

  unfoldable pub parse_replace_item : ℕ → Parser Stmt
  unfolding expect_word expect_ident_name expect_dot make_stmt
  parse_replace_item line = do
    expect_word (codes "item")
    expect_word (codes "at")
    index ← g.expr
    expect_word (codes "in")
    name ← expect_ident_name
    expect_word (codes "with")
    e ← g.expr
    end_plain (PlainStmt.replace_item index name e) line

  unfoldable pub parse_remove_item : ℕ → Parser Stmt
  unfolding expect_word expect_ident_name expect_dot make_stmt
  parse_remove_item line = do
    expect_word (codes "item")
    expect_word (codes "at")
    index ← g.expr
    expect_word (codes "from")
    name ← expect_ident_name
    end_plain (PlainStmt.remove_item index name) line

  unfoldable pub parse_return : ℕ → Parser Stmt
  unfolding kind_at expect_dot make_stmt
  parse_return line = do
    e ← when (kind_at 0 TokKind.dot) (pure none) (do e ← g.expr; pure (some e))
    end_stmt (λ p. Stmt.return_stmt p e) line

  unfoldable pub parse_call : ℕ → Parser Stmt
  unfolding check_word advance expect_word expect_ident_name parse_arguments expect_dot make_stmt
  parse_call line =
      when (check_word (codes "through"))
        (do
          advance
          callee ← g.primary
          args ← arguments
          expect_word (codes "done")
          end_plain (PlainStmt.indirect_call_stmt callee args) line)
        (do
          name ← expect_ident_name
          args ← arguments
          expect_word (codes "done")
          end_plain (PlainStmt.call_stmt name args) line)
    where
      arguments : Parser Exprs
      arguments =
          when (check_word (codes "with"))
            (advance >> λ c. parse_arguments g true (suc (remaining c)) c) (pure Exprs.no_exprs)

  unfoldable pub parse_static_assert : ℕ → Parser Stmt
  unfolding check_word check_words kind_at error advance advance_all expect_dot make_stmt
  parse_static_assert line = do
    skip_word (codes "that")
    condition ← g.expr
    message ←
        when (check_words 0 ((codes "with" ∷ []) ∷ (codes "message" ∷ []) ∷ []))
          (do
            advance_all 2
            text ← quoted (codes "a static assertion message must be a quoted string")
            pure (some text))
          (pure none)
    end_plain (PlainStmt.static_assert condition message) line

  unfoldable pub parse_runtime_assert : ℕ → Parser Stmt
  unfolding expect_dot make_stmt
  parse_runtime_assert line = do
    condition ← g.expr
    end_plain (PlainStmt.runtime_assert condition) line
