-- ===== src/Parser/Progress/Statements/End.antt =====
-- parseProgram of src/parser/parser.cpp goes on to the Eof.
use plainspeak.Prelude.{ℕ, zero, suc, ◌+◌, ◌*◌, ◌≡◌, refl, Bool, true, false, Text}
use plainspeak.Ast.{Stmt, Stmts}
use plainspeak.Parser.{
  Cursor, Result, parsed, failed, out_of_fuel, Parser, pure, ◌>>=◌, then_with, remaining, when,
}
use plainspeak.Parser.Table.{Rules}
use plainspeak.Parser.Grammar.{rules}
use plainspeak.Parser.Statements.{at_eof}
use plainspeak.Parser.Statements.Program.{parse_all, parse_top_level_stmt, parse_program}
use plainspeak.Parser.Progress.{Ended, Within}
use plainspeak.Parser.Progress.Statements.Program.{parse_program-Within}

-- Statements with the Eof in front, or none.
data AtEof : Result (Stmts × Cursor) → Type 0 where
  in_front : {stmts : Stmts} {c : Cursor} → at_eof c ≡ true → AtEof (parsed (stmts, c))
  no_stmts : {line : ℕ} {message : Text} → AtEof (failed line message)
  no_fuel : AtEof out_of_fuel

AtEof-then :
    {A : Type 0} (r : Result (A × Cursor)) (f : A → Parser Stmts)
    → ((a : A) (c : Cursor) → AtEof (f a c))
    → AtEof (then_with r f)
AtEof-then (parsed (a, c)) f h = h a c
AtEof-then (failed line message) f h = no_stmts
AtEof-then out_of_fuel f h = no_fuel

AtEof-added :
    (r : Result (Stmts × Cursor)) (node : Stmts → Stmts)
    → AtEof r
    → AtEof (then_with r λ rest. pure (node rest))
unfolding pure
AtEof-added (parsed (stmts, c)) node (in_front e) = in_front e
AtEof-added (failed line message) node h = no_stmts
AtEof-added out_of_fuel node h = no_fuel

parse_all-AtEof : (g : Rules) (top : Parser Stmt) (n : ℕ) (c : Cursor) → AtEof (parse_all g top n c)
unfolding parse_all when ◌>>=◌ pure
parse_all-AtEof g top zero c = no_fuel
parse_all-AtEof g top (suc n) c = by_case (at_eof c) refl λ c'. parse_all-AtEof g top n c'
  where
    by_case :
        (b : Bool)
        → at_eof c ≡ b
        → ((c' : Cursor) → AtEof (parse_all g top n c'))
        → AtEof (elim b [
          | true ↦ parsed (Stmts.done, c)
          | false ↦
              then_with
                (top c)
                λ s. λ c'. then_with (parse_all g top n c') λ rest. pure (Stmts.then_stmt s rest)
        ])
    by_case true e again = in_front e
    by_case false e again =
        AtEof-then (top c) _ λ s c'. AtEof-added _ (Stmts.then_stmt s) (again c')

-- The statements, with the Eof in front, or a ParseError.
pub data Finished : Result (Stmts × Cursor) → Type 0 where
  on_program : {stmts : Stmts} {c : Cursor} → at_eof c ≡ true → Finished (parsed (stmts, c))
  on_error : {line : ℕ} {message : Text} → Finished (failed line message)

finished : {b : ℕ} (r : Result (Stmts × Cursor)) → Within b r → AtEof r → Finished r
finished (parsed (stmts, c)) w (in_front e) = on_program e
finished (failed line message) w h = on_error
finished out_of_fuel w h = elim w [ ]

-- On tokens that end in an Eof, parseProgram ends: with the statements, when it has come to an Eof, or
-- with a ParseError. With m tokens behind the first, its calls nest at most 2 m + 2 deep in expressions
-- and m + 1 deep in statements.
pub parse_program-Finished : (c : Cursor) → Ended c → Finished (parse_program c)
unfolding parse_program
parse_program-Finished c e =
    let m : ℕ = remaining c in
    let g : Rules = rules (2 * m + 2) in
    finished _ (parse_program-Within c e)
      (parse_all-AtEof g (parse_top_level_stmt g (suc m)) (suc m) c)
