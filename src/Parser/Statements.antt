-- ===== src/Parser/Statements.antt =====
-- src/parser/parser.cpp: what the rules of statements are made of.
pub mod Simple
pub mod Imports
pub mod Declarations
pub mod Procedures
pub mod Blocks
pub mod Program
pub mod Verbs
use Prim.Native.String.{String}
use plainspeak.Prelude.{ℕ, suc, Bool, true, false, not, Text, codes, List, [], ◌∷◌, length}
use plainspeak.Ast.{Place, Expr, Exprs, TypeSpec, PlainStmt, Stmt}
use plainspeak.Lexer.Tokenize.{TokKind, Token}
use plainspeak.Parser.{
  Cursor, Result, parsed, Parser, pure, ◌>>=◌, ◌>>◌, then_with, check_word, check_words, kind_at,
  error, advance, advance_all, expect_dot, line_here, remaining, when, refuse,
}
use plainspeak.Parser.Table.{Ask, Rule, words}

-- Arena::makeStmt
unfoldable pub make_stmt : (Place → Stmt) → ℕ → Parser Stmt
make_stmt node line c =
    parsed (node (record { address = c.made; line = line }), record c { made = suc c.made })

-- The "." and the node of a statement without a block.
abbrev pub end_plain : PlainStmt → ℕ → Parser Stmt
end_plain s line = do expect_dot; make_stmt (λ p. Stmt.plain p s) line

-- The line of the first word; then the words; then the rest of the rule, which is given the line.
abbrev pub sentence : List Ask → ℕ → (ℕ → Parser Stmt) → Rule Stmt
sentence guard n rest = record {
  guard = guard;
  action = do
    line ← line_here
    advance_all n
    rest line;
}

abbrev pub verb : List String → (ℕ → Parser Stmt) → Rule Stmt
verb ss rest = sentence (words ss) (length ss) rest

-- A word that may be left out.
abbrev pub skip_word : Text → Parser (Unit {0})
skip_word word = when (check_word word) (advance >> pure tt) (pure tt)

abbrev pub flag_word : Text → Parser Bool
flag_word word = when (check_word word) (advance >> pure true) (pure false)

abbrev pub skip_article : Parser (Unit {0})
skip_article =
    when (check_words 0 ((codes "a" ∷ codes "an" ∷ codes "the" ∷ []) ∷ [])) (advance >> pure tt)
      (pure tt)

-- A string token, or the error.
abbrev pub quoted : Text → Parser Text
quoted message = do refuse (λ c. not (kind_at 0 TokKind.string c)) message; t ← advance; pure t.text

-- A word, or the error.
abbrev pub named : Text → Parser Token
named message = do refuse (λ c. not (kind_at 0 TokKind.ident c)) message; advance

abbrev pub at_eof : Cursor → Bool
at_eof c = kind_at 0 TokKind.eof c
