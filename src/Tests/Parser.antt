-- ===== src/Tests/Parser.antt =====
-- Runs of src/parser/parser.cpp, and the theorems about it at concrete inputs.
use plainspeak.Prelude.{
  Option, some, arith, text_eq, ◌≡◌, refl, Bool, true, false, Text, codes, List, [], ◌∷◌, ◌++◌,
}
use Prim.Native.String.{String}
use plainspeak.Prelude.Int.{ℤ, pos}
use plainspeak.Ast.{Expr, BinOp}
use plainspeak.Lexer.Tokenize.{TokKind, Token}
use plainspeak.Parser.{
  expect_dot, make_expr, when, if_some, pure, ◌>>=◌, remaining, Cursor, Result, parsed,
}
use plainspeak.Parser.Progress.{Within}
use plainspeak.Parser.Progress.Correct.{parse_expr-Within}
use plainspeak.Parser.Statements.{make_stmt}
use plainspeak.Parser.Grammar.{rules, parse_expr}
use plainspeak.Parser.Statements.Program.{parse_program, parse_stmt, parse_top_level_stmt}
use plainspeak.Parser.Statements.Verbs.{parse_top_level_stmt-parse_stmt}
use plainspeak.Parser.Progress.Statements.End.{Finished, parse_program-Finished}
use plainspeak.Driver.{Outcome, program, parser_error, front_end}
use plainspeak.Driver.Total.{front_end-some}
use plainspeak.Ast.{Stmt, Stmts, PlainStmt}

abbrev tok : TokKind → Text → ℤ → Token
tok k t n = record { kind = k; text = t; source_text = t; num = n; line = 1; fval = [] }

abbrev ws : List String → List Token
ws [] = []
ws (s ∷ ss) = tok TokKind.ident (codes s) (pos 0) ∷ ws ss

abbrev at_start : Token → List Token → Cursor
at_start t ts = record { current = t; following = ts; made = 0 }

abbrev eof : Token
eof = tok TokKind.eof [] (pos 0)

abbrev dot : Token
dot = tok TokKind.dot (codes ".") (pos 0)

abbrev sentence : Cursor
sentence =
    at_start (tok TokKind.ident (codes "a") (pos 0))
      (ws ("plus" ∷ "b" ∷ "times" ∷ "c" ∷ []) ++ (eof ∷ []))

abbrev shape : Result (Expr × Cursor) → Bool
shape (parsed (Expr.binary p BinOp.add (Expr.var_ref q a) (Expr.binary r BinOp.mul b c), k)) = true
shape _ = false

sum_first : shape (parse_expr 6 sentence) ≡ true
unfolding parse_expr make_expr text_eq pure ◌>>=◌ when if_some
sum_first = refl

parse_expr-Within_example : Within (remaining sentence) (parse_expr 12 sentence)
parse_expr-Within_example = parse_expr-Within 12 sentence (record { eof_last = refl }) (omega arith)

-- read a. read b.
abbrev two_reads : Cursor
two_reads =
    at_start (tok TokKind.ident (codes "read") (pos 0))
      (ws ("a" ∷ []) ++ (dot ∷ ws ("read" ∷ "b" ∷ []) ++ (dot ∷ eof ∷ [])))

parse_program-Finished_example : Finished (parse_program two_reads)
parse_program-Finished_example = parse_program-Finished two_reads (record { eof_last = refl })

abbrev every_double : Text → Bool
every_double digits = true

abbrev repeated : Text
repeated =
    codes "Repeat 3: Say x followed by 2. End repeat. If a is less than b then: Return a. End if."

front_end-some_example : (o : Outcome) × (front_end every_double repeated ≡ some o)
front_end-some_example = front_end-some every_double repeated

abbrev repeat_then_if : Option Outcome → Bool
repeat_then_if
      (some (
        program (
          Stmts.then_stmt
            (Stmt.repeat_stmt p n (Stmts.then_stmt (Stmt.plain q (PlainStmt.say xs)) Stmts.done))
            (Stmts.then_stmt (Stmt.if_stmt r c t e) Stmts.done)))) =
    true
repeat_then_if _ = false

program_of_repeated : repeat_then_if (front_end every_double repeated) ≡ true
unfolding front_end make_expr make_stmt text_eq pure ◌>>=◌ when if_some
program_of_repeated = refl

abbrev refused : Option Outcome → Bool
refused (some (parser_error line message)) = true
refused _ = false

-- The fence is known at the top level, and not in a block.
fence_at_top_level : refused (front_end every_double (codes "Atomic fence.")) ≡ false
unfolding front_end make_expr make_stmt text_eq pure ◌>>=◌ when if_some
fence_at_top_level = refl

fence_in_block :
    refused (front_end every_double (codes "Repeat 3: Atomic fence. End repeat.")) ≡ true
unfolding front_end make_expr make_stmt text_eq pure ◌>>=◌ when if_some
fence_in_block = refl

abbrev first_read : Stmt × Cursor
first_read = (
  Stmt.plain (record { address = 0; line = 1 }) (PlainStmt.read_stmt (codes "a")),
  record {
    current = tok TokKind.ident (codes "read") (pos 0);
    following = ws ("b" ∷ []) ++ (dot ∷ eof ∷ []);
    made = 1;
  },
)

parse_top_level_stmt-parse_stmt_example :
    parse_top_level_stmt (rules 4) 2 two_reads ≡ parsed first_read
unfolding parse_stmt make_stmt text_eq pure ◌>>=◌ when expect_dot
parse_top_level_stmt-parse_stmt_example =
    parse_top_level_stmt-parse_stmt (rules 4) 2 two_reads first_read refl
