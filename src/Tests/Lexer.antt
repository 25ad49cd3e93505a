-- ===== src/Tests/Lexer.antt =====
-- The tokenizer of src/lexer/tokenizer.cpp on small texts.
use plainspeak.Prelude.{[], ◌∷◌, ◌+◌, ◌≡◌, Bool, true, List, Text, codes, some}
use plainspeak.Lexer.Scan.Progress.{newlines}
use plainspeak.Lexer.Tokenize.{Lexed, Token, TokKind, plain_token, tokens, tokenize}
use plainspeak.Lexer.Chars.{quote}
use plainspeak.Lexer.Scan.Quoted.{escape}
use plainspeak.Lexer.Tokenize.Literal.{tokenize-escape}
use plainspeak.Lexer.Tokenize.Complete.{InOrder, tokenize-InOrder}

abbrev every_double : Text → Bool
every_double digits = true

abbrev sample : Text
sample = codes "Set x to 0x1F. (a note (nested)) Say \"hi\" 2.5e3."

tokenize-InOrder_example :
    (r : Lexed) × (tokenize every_double sample ≡ some r)
    × ((ts : List Token) → r ≡ tokens ts → InOrder 1 (1 + newlines sample) ts)
tokenize-InOrder_example = tokenize-InOrder every_double sample

-- say "hi", with its quotes, over two lines
abbrev two_lines : Text
two_lines = codes "say \"hi\"\n"

tokenize-escape_example :
    tokenize every_double (quote ∷ escape two_lines [])
    ≡ some (tokens (plain_token TokKind.string two_lines 1 ∷ plain_token TokKind.eof [] 1 ∷ []))
tokenize-escape_example = tokenize-escape every_double two_lines
