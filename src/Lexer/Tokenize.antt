-- ===== src/Lexer/Tokenize.antt =====
-- src/lexer/tokenizer.h and tokenizer.cpp: Token and Tokenizer::tokenize. One round of the loop is
-- `lex_step`; the loop takes fuel, one unit for each round. A Token's fval is kept as the digits that
-- std::stod reads. What is thrown is a LexError.
pub mod Steps
pub mod Complete
pub mod Literal
use plainspeak.Prelude.{
  ℕ, zero, suc, ◌+◌, ◌-◌, ◌*◌, Bool, true, false, ◌&&◌, ◌||◌, ◌==◌, leb, Text, List, [], ◌∷◌, ◌++◌,
  map, codes, Option, none, some, if◌then◌else◌, drop, length,
}
use plainspeak.Prelude.Int.{ℤ, pos}
use plainspeak.Lexer.Chars.{
  newline, quote, left_paren, right_paren, comma, dot_char, colon_char, underscore, is_space,
  is_digit, is_xdigit, is_upper, is_alpha, is_alnum, to_lower, peek_at, next_line, between,
}
use plainspeak.Lexer.Scan.{
  span, scan_comment, scan_string, trim_start, trim_end, scan_fraction, scan_exponent,
}

pub data TokKind : Type 0 where
  ident number float string comment dot colon lparen rparen eof : TokKind

pub record Token : Type 0 where
  pub kind : TokKind
  pub text : Text
  pub source_text : Text
  pub num : ℤ
  pub line : ℕ
  pub fval : Text

pub data LexError : Type 0 where
  unterminated_comment : ℕ → LexError
  unterminated_string : ℕ → LexError
  unexpected_character : ℕ → ℕ → LexError
  -- thrown by std::stol and std::stod
  out_of_range : Text → LexError

-- What a round of the loop does: go on behind the text that it took, with a token or without, or throw.
pub data Step : Type 0 where
  skip : Text → ℕ → Step
  emit : Token → Text → ℕ → Step
  fail : LexError → Step

abbrev pub plain_token : TokKind → Text → ℕ → Token
plain_token k value at_line = record {
  kind = k;
  text = value;
  source_text = [];
  num = pos 0;
  line = at_line;
  fval = [];
}

abbrev pub at_statement_boundary : Option TokKind → Bool
at_statement_boundary none = true
at_statement_boundary (some TokKind.dot) = true
at_statement_boundary (some TokKind.colon) = true
at_statement_boundary (some TokKind.comment) = true
at_statement_boundary (some k) = false

abbrev pub digit_value : ℕ → ℕ
digit_value c = if is_digit c then c - 48 else if between 97 102 c then c - 87 else c - 55

-- std::stol on digits of a base
unfoldable pub value_of : ℕ → Text → ℕ → ℕ
value_of base [] acc = acc
value_of base (c ∷ digits) acc = value_of base digits (acc * base + digit_value c)

unfoldable pub stol : ℕ → Text → Option ℤ
unfolding value_of
stol base digits =
    let n = value_of base digits 0 in if leb n 9223372036854775807 then some (pos n) else none

abbrev pub number_token : Text → ℕ → Option ℤ → Text → Step
number_token digits at_line none rest = fail (out_of_range digits)
number_token digits at_line (some n) rest =
    emit (record (plain_token number digits at_line) { num = n }) rest at_line

-- A number, from its first digit on; `fits` says whether std::stod finds a double for the digits.
unfoldable pub lex_number : (Text → Bool) → Text → ℕ → Step
unfolding span stol scan_fraction scan_exponent
lex_number fits text line =
    let (hex, after_hex) = span is_xdigit (drop 2 text) in
    let (whole, after_whole) = span is_digit text in
    let (fraction, after_fraction, has_fraction) = scan_fraction after_whole in
    let (exponent, after_exponent, has_exponent) = scan_exponent after_fraction in
    let digits = whole ++ fraction ++ exponent in
    if (peek_at text 0 == 48)
      && ((peek_at text 1 == 120) || (peek_at text 1 == 88))
      && is_xdigit (peek_at text 2)
    then number_token hex line (stol 16 hex) after_hex
    else if has_fraction || has_exponent
    then (if fits digits
        then emit (record (plain_token float digits line) { fval = digits }) after_exponent line
        else fail (out_of_range digits))
    else number_token digits line (stol 10 digits) after_exponent

abbrev pub is_word : ℕ → Bool
is_word c = is_alnum c || (c == underscore)

unfoldable pub lex_word : Text → ℕ → Step
unfolding span
lex_word text line =
    let (word, rest) = span is_word text in
    emit (record (plain_token ident (map to_lower word) line) { source_text = word }) rest line

unfoldable pub lex_comment : Text → ℕ → Step
unfolding scan_comment trim_start trim_end
lex_comment text line = elim (scan_comment 0 text line) [
  | none ↦ fail (unterminated_comment line)
  | some (value, rest, line') ↦
      emit (plain_token comment (trim_end (trim_start value)) line) rest line'
]

unfoldable pub lex_string : Text → ℕ → Step
unfolding scan_string
lex_string text line = elim (scan_string text line) [
  | none ↦ fail (unterminated_string line)
  | some (value, rest, line') ↦ emit (plain_token string value line) rest line'
]

-- One round, on the character c and the text behind it.
unfoldable pub lex_step : (Text → Bool) → Option TokKind → ℕ → Text → ℕ → Step
unfolding lex_number lex_word lex_comment lex_string
lex_step fits last c text line =
    if is_space c
    then skip text (next_line c line)
    else if c == comma
    then skip text line
    else if (c == left_paren) && at_statement_boundary last
    then lex_comment text line
    else if c == dot_char
    then emit (plain_token dot (c ∷ []) line) text line
    else if c == left_paren
    then emit (plain_token lparen (c ∷ []) line) text line
    else if c == right_paren
    then emit (plain_token rparen (c ∷ []) line) text line
    else if c == colon_char
    then emit (plain_token colon (c ∷ []) line) text line
    else if c == quote
    then lex_string text line
    else if is_digit c
    then lex_number fits (c ∷ text) line
    else if is_alpha c || (c == underscore)
    then lex_word (c ∷ text) line
    else fail (unexpected_character c line)

-- The tokens, or what was thrown.
pub data Lexed : Type 0 where
  tokens : List Token → Lexed
  thrown : LexError → Lexed

abbrev pub push : Token → Option Lexed → Option Lexed
push t none = none
push t (some (thrown e)) = some (thrown e)
push t (some (tokens ts)) = some (tokens (t ∷ ts))

-- The loop; `last` is the kind of the last token.
unfoldable pub run : (Text → Bool) → ℕ → Option TokKind → Text → ℕ → Option Lexed
unfolding lex_step
run fits fuel last [] line = some (tokens (plain_token eof [] line ∷ []))
run fits zero last (c ∷ text) line = none
run fits (suc fuel) last (c ∷ text) line = elim (lex_step fits last c text line) [
  | skip rest line' ↦ run fits fuel last rest line'
  | emit t rest line' ↦ push t (run fits fuel (some t.kind) rest line')
  | fail e ↦ some (thrown e)
]

unfoldable pub tokenize : (Text → Bool) → Text → Option Lexed
unfolding run
tokenize fits source = run fits (length source) none source 1
