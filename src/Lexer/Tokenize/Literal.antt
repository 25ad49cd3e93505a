-- ===== src/Lexer/Tokenize/Literal.antt =====
-- src/lexer/tokenizer.cpp: what the tokenizer makes of a written string literal.
use plainspeak.Prelude.{ℕ, suc, ◌≡◌, refl, ap, ◌∙◌, Bool, Text, [], ◌∷◌, Option, none, some, length}
use plainspeak.Lexer.Chars.{quote}
use plainspeak.Lexer.Scan.Quoted.{escape, scan_string-escape}
use plainspeak.Lexer.Tokenize.{
  Token, LexError, skip, fail, thrown, push, lex_string, lex_step, emit, run, TokKind, plain_token,
  tokens, tokenize,
}

pub run-emit :
    (fits : Text → Bool) (fuel : ℕ) (last : Option TokKind) (c : ℕ) (text rest : Text)
    (line line' : ℕ) (t : Token)
    → lex_step fits last c text line ≡ emit t rest line'
    → run fits (suc fuel) last (c ∷ text) line ≡ push t (run fits fuel (some t.kind) rest line')
unfolding run
run-emit fits fuel last c text rest line line' t h =
    ap
      (λ s. elim s [
        | skip rest' l ↦ run fits fuel last rest' l
        | emit u rest' l ↦ push u (run fits fuel (some u.kind) rest' l)
        | fail e ↦ some (thrown e)
      ])
      h

lex_string-escape :
    (value rest : Text) (line : ℕ)
    → lex_string (escape value rest) line ≡ emit (plain_token TokKind.string value line) rest line
unfolding lex_string
lex_string-escape value rest line =
    ap
      (λ r. elim r [
        | none ↦ fail (LexError.unterminated_string line)
        | some (v, rest', l) ↦ emit (plain_token TokKind.string v line) rest' l
      ])
      (scan_string-escape value rest line)

lex_step-quote :
    (fits : Text → Bool) (last : Option TokKind) (text : Text) (line : ℕ)
    → lex_step fits last quote text line ≡ lex_string text line
unfolding lex_step
lex_step-quote fits last text line = refl

-- Every text, written between quotes with its quotes, backslashes and newlines escaped, is tokenized
-- to one string token with that text, and the end token on the same line.
pub tokenize-escape :
    (fits : Text → Bool) (value : Text)
    → tokenize fits (quote ∷ escape value [])
      ≡ some (tokens (plain_token TokKind.string value 1 ∷ plain_token TokKind.eof [] 1 ∷ []))
unfolding tokenize run
tokenize-escape fits value =
    run-emit fits (length (escape value [])) none quote (escape value []) [] 1 1
      (plain_token TokKind.string value 1)
      (lex_step-quote fits none (escape value []) 1 ∙ lex_string-escape value [] 1)
