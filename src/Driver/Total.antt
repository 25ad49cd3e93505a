-- ===== src/Driver/Total.antt =====
-- The tokenizer and the parser together end on every text.
use plainspeak.Prelude.{ℕ, ◌+◌, ◌≡◌, refl, ap, ◌∙◌, Bool, Text, List, [], ◌∷◌, some}
use plainspeak.Ast.{Stmts}
use plainspeak.Lexer.Scan.Progress.{newlines}
use plainspeak.Lexer.Tokenize.{Token, TokKind, Lexed, tokens, thrown}
use plainspeak.Lexer.Tokenize.Complete.{InOrder, tokenize-InOrder}
use plainspeak.Parser.{Cursor, Result, parsed, failed, out_of_fuel}
use plainspeak.Parser.Progress.{Within, on_parsed, on_failed, last_kind}
use plainspeak.Parser.Progress.Statements.Program.{parse_program-Within}
use plainspeak.Driver.{
  Outcome, program, lexer_error, parser_error, at_first, outcome, parsed_tokens, after_lexing,
  front_end,
}

-- The last of the tokens in order is the Eof.
InOrder-last :
    (low n : ℕ) (t : Token) (us : List Token)
    → InOrder low n (t ∷ us)
    → last_kind t us ≡ TokKind.eof
unfolding InOrder
InOrder-last low n t [] (a, e) = ap (λ x. x.kind) e
InOrder-last low n t (u ∷ us) (a, e, r) = InOrder-last t.line n u us r

outcome-some :
    {b : ℕ} (r : Result (Stmts × Cursor)) → Within b r → (o : Outcome) × (outcome r ≡ some o)
outcome-some (parsed (stmts, c)) (on_parsed e h) = (program stmts, refl)
outcome-some (failed line message) on_failed = (parser_error line message, refl)
outcome-some out_of_fuel w = elim w [ ]

parsed_tokens-some :
    (n : ℕ) (ts : List Token) → InOrder 1 n ts → (o : Outcome) × (parsed_tokens ts ≡ some o)
unfolding InOrder
parsed_tokens-some n [] o = absurd o
parsed_tokens-some n (t ∷ us) o =
    outcome-some _
      (parse_program-Within (at_first t us) (record { eof_last = InOrder-last 1 n t us o }))

lexed-some :
    (n : ℕ) (r : Lexed)
    → ((ts : List Token) → r ≡ tokens ts → InOrder 1 n ts)
    → (o : Outcome) × (after_lexing (some r) ≡ some o)
lexed-some n (thrown e) h = (lexer_error e, refl)
lexed-some n (tokens ts) h = parsed_tokens-some n ts (h ts refl)

-- For every text the tokenizer and the parser end, with a program, with what the tokenizer throws or with
-- a ParseError: the fuel of no loop and of no rule runs out.
pub front_end-some :
    (fits : Text → Bool) (source : Text) → (o : Outcome) × (front_end fits source ≡ some o)
unfolding front_end
front_end-some fits source =
    let (r, e, h) = tokenize-InOrder fits source in
    let (o, f) = lexed-some (1 + newlines source) r h in (o, ap after_lexing e ∙ f)
