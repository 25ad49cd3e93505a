-- ===== src/Lexer/Tokenize/Steps.antt =====
-- src/lexer/tokenizer.cpp: every round of Tokenizer::tokenize takes a character and moves forward.
use plainspeak.Prelude.{
  ℕ, ◌≡◌, inl, inr, refl, Bool, true, false, ◌&&◌, ◌||◌, ◌==◌, Text, [], ◌∷◌, ◌++◌, drop, Option,
  none, some, if◌then◌else◌, Bool-cases, arith,
}
use plainspeak.Prelude.Int.{ℤ}
use plainspeak.Lexer.Chars.{
  newline, quote, left_paren, right_paren, comma, dot_char, colon_char, underscore, is_space,
  is_digit, is_xdigit, is_alpha, peek_at, next_line,
}
use plainspeak.Lexer.Scan.{
  span, Delimited, scan_comment, scan_string, scan_fraction, scan_exponent, trim_start, trim_end,
}
use plainspeak.Lexer.Scan.Numbers.{scan_fraction-moves, scan_exponent-moves, rest_of}
use plainspeak.Lexer.Scan.Progress.{
  Moved, DelimitedMoves, scan_comment-moves, scan_string-moves, span-moves, span-progress,
  Moved-trans, after, drop_one-moves, stays, plain_char, accepted_line,
}
use plainspeak.Lexer.Tokenize.{
  TokKind, LexError, Step, skip, emit, fail, plain_token, number_token, lex_number, lex_word,
  lex_comment, lex_string, lex_step, is_word, stol, at_statement_boundary,
}

abbrev pub is_eof : TokKind → Bool
is_eof TokKind.eof = true
is_eof k = false

-- A round that started on `line` and is now behind its first character, on `behind`.
abbrev pub StepMoves : Text → ℕ → ℕ → Step → Type 0
StepMoves text line behind (skip rest line') = Moved text behind rest line'
StepMoves text line behind (emit t rest line') =
    Moved text behind rest line' × (t.line ≡ line) × (is_eof t.kind ≡ false)
StepMoves text line behind (fail e) = Unit

number_token-moves :
    (text digits rest : Text) (line : ℕ) (n : Option ℤ)
    → Moved text line rest line
    → StepMoves text line line (number_token digits line n rest)
number_token-moves text digits rest line none m = tt
number_token-moves text digits rest line (some n) m = (m, refl, refl)

-- The three ways a number ends, and the text behind each.
number_case :
    (fits : Text → Bool) (text hex digits after_hex after_exponent : Text) (line : ℕ)
    (is_hex is_float : Bool)
    → (is_hex ≡ true → Moved text line after_hex line)
    → Moved text line after_exponent line
    → StepMoves text line line (
        if is_hex
        then number_token hex line (stol 16 hex) after_hex
        else if is_float
        then (if fits digits
            then emit
                (record (plain_token TokKind.float digits line) { fval = digits })
                after_exponent
                line
            else fail (LexError.out_of_range digits))
        else number_token digits line (stol 10 digits) after_exponent)
number_case fits text hex digits after_hex after_exponent line true is_float h m =
    number_token-moves text hex after_hex line (stol 16 hex) (h refl)
number_case fits text hex digits after_hex after_exponent line false true h m =
    elim (Bool-cases (fits digits)) [ inl e ↦ rw e (m, refl, refl) | inr e ↦ rw e tt ]
number_case fits text hex digits after_hex after_exponent line false false h m =
    number_token-moves text digits after_exponent line (stol 10 digits) m

hex_prefix : ℕ → Text → Bool
hex_prefix c text =
    (c == 48) && ((peek_at text 0 == 120) || (peek_at text 0 == 88)) && is_xdigit (peek_at text 1)

lex_number-moves :
    (fits : Text → Bool) (c : ℕ) (text : Text) (line : ℕ)
    → is_digit c ≡ true
    → StepMoves text line line (lex_number fits (c ∷ text) line)
unfolding lex_number hex_prefix
lex_number-moves fits c text line d =
    let whole = after (span is_digit (c ∷ text)) in
    let fraction = rest_of (scan_fraction whole) in
    let m = span-progress is_digit c text line d refl in
    let n = Moved-trans text whole fraction line line line m (scan_fraction-moves whole line) in
    let o =
      Moved-trans text fraction (rest_of (scan_exponent fraction)) line line line n
        (scan_exponent-moves fraction line) in
    number_case fits text (span is_xdigit (drop 1 text)).0
      ((span is_digit (c ∷ text)).0 ++ (scan_fraction whole).0 ++ (scan_exponent fraction).0)
      (after (span is_xdigit (drop 1 text))) (rest_of (scan_exponent fraction)) line
      (hex_prefix c text) ((scan_fraction whole).2 || (scan_exponent fraction).2)
      (λ h.
        Moved-trans text (drop 1 text) (after (span is_xdigit (drop 1 text))) line line line
          (drop_one-moves text line (ground (arith, h)))
          (span-moves is_xdigit (drop 1 text) line refl))
      o

lex_word-moves :
    (c : ℕ) (text : Text) (line : ℕ)
    → is_word c ≡ true
    → StepMoves text line line (lex_word (c ∷ text) line)
unfolding lex_word
lex_word-moves c text line d = (span-progress is_word c text line d refl, refl, refl)

comment_of :
    (text : Text) (line : ℕ) (r : Delimited)
    → DelimitedMoves text line r
    → StepMoves text line line (elim r [
      | none ↦ fail (LexError.unterminated_comment line)
      | some (value, rest, line') ↦
          emit (plain_token TokKind.comment (trim_end (trim_start value)) line) rest line'
    ])
comment_of text line none m = tt
comment_of text line (some (value, rest, line')) m = (m, refl, refl)

string_of :
    (text : Text) (line : ℕ) (r : Delimited)
    → DelimitedMoves text line r
    → StepMoves text line line (elim r [
      | none ↦ fail (LexError.unterminated_string line)
      | some (value, rest, line') ↦ emit (plain_token TokKind.string value line) rest line'
    ])
string_of text line none m = tt
string_of text line (some (value, rest, line')) m = (m, refl, refl)

comment_moves : (text : Text) (line : ℕ) → StepMoves text line line (lex_comment text line)
unfolding lex_comment
comment_moves text line =
    comment_of text line (scan_comment 0 text line) (scan_comment-moves 0 text line)

string_moves : (text : Text) (line : ℕ) → StepMoves text line line (lex_string text line)
unfolding lex_string
string_moves text line = string_of text line (scan_string text line) (scan_string-moves text line)

if_moves :
    (text : Text) (line behind : ℕ) (b : Bool) (s t : Step)
    → (b ≡ true → StepMoves text line behind s)
    → (b ≡ false → StepMoves text line behind t)
    → StepMoves text line behind (if b then s else t)
if_moves text line behind true s t f g = f refl
if_moves text line behind false s t f g = g refl

same_line :
    (text : Text) (line behind : ℕ) (s : Step)
    → behind ≡ line
    → StepMoves text line line s
    → StepMoves text line behind s
same_line text line behind s e m = rw e m

-- A token of one character
mark_moves :
    (c d : ℕ) (text : Text) (line : ℕ) (k : TokKind)
    → (d == newline) ≡ false
    → is_eof k ≡ false
    → (c == d) ≡ true
    → StepMoves text line (next_line c line) (emit (plain_token k (c ∷ []) line) text line)
mark_moves c d text line k h n e = rw (plain_char c d line e h) (stays text line, refl, n)

-- A round takes the first character, and what it takes more it takes from the front of the text.
pub lex_step-moves :
    (fits : Text → Bool) (last : Option TokKind) (c : ℕ) (text : Text) (line : ℕ)
    → StepMoves text line (next_line c line) (lex_step fits last c text line)
unfolding lex_step
lex_step-moves fits last c text line =
    let split = if_moves text line (next_line c line) in
    let plain : (d : ℕ) (s : Step)
        → (d == newline) ≡ false
        → (c == d) ≡ true
        → StepMoves text line line s
        → StepMoves text line (next_line c line) s =
      λ d s h e m. same_line text line (next_line c line) s (plain_char c d line e h) m in
    split (is_space c) _ _ (λ e. stays text (next_line c line))
      (λ e0.
        split (c == comma) _ _ (λ e. plain comma (skip text line) refl e (stays text line))
          (λ e1.
            split ((c == left_paren) && at_statement_boundary last) _ _
              (λ e.
                plain left_paren (lex_comment text line) refl (ground (arith, e))
                  (comment_moves text line))
              (λ e2.
                split (c == dot_char) _ _
                  (λ e. mark_moves c dot_char text line TokKind.dot refl refl e)
                  (λ e3.
                    split (c == left_paren) _ _
                      (λ e. mark_moves c left_paren text line TokKind.lparen refl refl e)
                      (λ e4.
                        split (c == right_paren) _ _
                          (λ e. mark_moves c right_paren text line TokKind.rparen refl refl e)
                          (λ e5.
                            split (c == colon_char) _ _
                              (λ e. mark_moves c colon_char text line TokKind.colon refl refl e)
                              (λ e6.
                                split (c == quote) _ _
                                  (λ e.
                                    plain quote (lex_string text line) refl e
                                      (string_moves text line))
                                  (λ e7.
                                    split (is_digit c) _ _
                                      (λ e.
                                        same_line text line (next_line c line)
                                          (lex_number fits (c ∷ text) line)
                                          (accepted_line is_digit c line e refl)
                                          (lex_number-moves fits c text line e))
                                      (λ e8.
                                        split (is_alpha c || (c == underscore)) _ _
                                          (λ e.
                                            same_line text line (next_line c line)
                                              (lex_word (c ∷ text) line)
                                              (accepted_line (λ d. is_alpha d || (d == underscore))
                                                c line e refl)
                                              (lex_word-moves c text line (ground (arith, e))))
                                          (λ e9. tt))))))))))
