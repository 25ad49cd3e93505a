-- ===== src/Driver.antt =====
-- src/cli/main.cpp: compile, from the text of a source file to its program.
pub mod Total
use plainspeak.Prelude.{Bool, Text, List, [], ◌∷◌, Option, none, some, ℕ}
use plainspeak.Ast.{Stmts}
use plainspeak.Lexer.Tokenize.{Token, Lexed, LexError, tokens, thrown, tokenize}
use plainspeak.Parser.{Cursor, Result, parsed, failed, out_of_fuel}
use plainspeak.Parser.Statements.Program.{parse_program}

-- What the first two steps give: a program, or the error that ends the compilation.
pub data Outcome : Type 0 where
  program : Stmts → Outcome
  lexer_error : LexError → Outcome
  -- its line and its message
  parser_error : ℕ → Text → Outcome

-- Parser(tokens, arena)
abbrev pub at_first : Token → List Token → Cursor
at_first t ts = record { current = t; following = ts; made = 0 }

-- None where the fuel of the model runs out.
abbrev pub outcome : Result (Stmts × Cursor) → Option Outcome
outcome (parsed (stmts, c)) = some (program stmts)
outcome (failed line message) = some (parser_error line message)
outcome out_of_fuel = none

-- The tokenizer gives at least the Eof token.
abbrev pub parsed_tokens : List Token → Option Outcome
parsed_tokens [] = none
parsed_tokens (t ∷ ts) = outcome (parse_program (at_first t ts))

abbrev pub after_lexing : Option Lexed → Option Outcome
after_lexing none = none
after_lexing (some (thrown e)) = some (lexer_error e)
after_lexing (some (tokens ts)) = parsed_tokens ts

unfoldable pub front_end : (Text → Bool) → Text → Option Outcome
unfolding tokenize parse_program
front_end fits source = after_lexing (tokenize fits source)
