-- ===== src/Lexer/Scan.antt =====
-- src/lexer/tokenizer.cpp: the inner loops of Tokenizer::tokenize, on the text from the current
-- position on. Each gives what it collected and what is left; line numbers advance with the text.
pub mod Progress
pub mod Numbers
pub mod Quoted
use plainspeak.Prelude.{
  ℕ, zero, suc, ◌+◌, ◌-◌, ◌*◌, Bool, true, false, ◌&&◌, ◌||◌, ◌==◌, leb, Text, List, [], ◌∷◌, ◌++◌,
  Option, none, some, if◌then◌else◌, take, drop,
}
use plainspeak.Prelude.Int.{ℤ, pos}
use plainspeak.Lexer.Chars.{
  newline, quote, left_paren, right_paren, plus, minus, dot_char, backslash, is_digit, peek_at,
  next_line, between,
}

-- while (!atEnd() && p(peekChar())) taken += advanceChar(), for a p that no newline meets
unfoldable pub span : (ℕ → Bool) → Text → Text × Text
span p [] = ([], [])
span p (c ∷ text) =
    let (taken, rest) = span p text in if p c then (c ∷ taken, rest) else ([], c ∷ text)

-- What a loop over a delimited text gives: its value, what follows it, and the line there.
abbrev pub Delimited : Type 0
Delimited = Option (Text × Text × ℕ)

abbrev pub prepend : ℕ → Delimited → Delimited
prepend c none = none
prepend c (some (value, rest, line)) = some (c ∷ value, rest, line)

-- A comment after its opening parenthesis; depth is one less than in the source.
unfoldable pub scan_comment : ℕ → Text → ℕ → Delimited
scan_comment depth [] line = none
scan_comment depth (c ∷ text) line = elim (c == left_paren) [
  | true ↦ prepend c (scan_comment (suc depth) text line)
  | false ↦ elim (c == right_paren) [
    | true ↦ elim depth [
      | zero ↦ some ([], text, line)
      | suc outer ↦ prepend c (scan_comment outer text line)
    ]
    | false ↦ prepend c (scan_comment depth text (next_line c line))
  ]
]

abbrev pub is_blank : ℕ → Bool
is_blank c = (c == 32) || (c == 9) || (c == 13) || (c == 10)

unfoldable pub trim_start : Text → Text
trim_start [] = []
trim_start (c ∷ text) = if is_blank c then trim_start text else c ∷ text

abbrev pub drop_blank : ℕ → Text → Text
drop_blank c [] = if is_blank c then [] else c ∷ []
drop_blank c (d ∷ text) = c ∷ d ∷ text

unfoldable pub trim_end : Text → Text
trim_end [] = []
trim_end (c ∷ text) = drop_blank c (trim_end text)

-- The character that an escape stands for: `n` for a newline, every other one for itself.
abbrev pub unescape : ℕ → ℕ
unescape esc = if esc == 110 then newline else esc

-- A string after its opening quote
unfoldable pub scan_string : Text → ℕ → Delimited
scan_string [] line = none
scan_string (c ∷ []) line = if c == quote then some ([], [], line) else none
scan_string (c ∷ d ∷ rest) line = elim (c == quote) [
  | true ↦ some ([], d ∷ rest, line)
  | false ↦ elim (c == backslash) [
    | true ↦ prepend (unescape d) (scan_string rest (next_line d line))
    | false ↦ prepend c (scan_string (d ∷ rest) (next_line c line))
  ]
]

-- The part of a number after its first digits: what is added, what is left, and whether the part is
-- there.
unfoldable pub scan_fraction : Text → Text × Text × Bool
unfolding span
scan_fraction text =
    if (peek_at text 0 == dot_char) && is_digit (peek_at text 1)
    then (let (taken, rest) = span is_digit (drop 1 text) in (dot_char ∷ taken, rest, true))
    else ([], text, false)

abbrev pub is_sign : ℕ → Bool
is_sign c = (c == plus) || (c == minus)

unfoldable pub scan_exponent : Text → Text × Text × Bool
unfolding span
scan_exponent text =
    let signed_exponent = is_sign (peek_at text 1) && is_digit (peek_at text 2) in
    if ((peek_at text 0 == 101) || (peek_at text 0 == 69))
      && (is_digit (peek_at text 1) || signed_exponent)
    then (let marks = if signed_exponent then 2 else 1 in
        let (taken, rest) = span is_digit (drop marks text) in
        (take marks text ++ taken, rest, true))
    else ([], text, false)
