-- ===== src/Lexer/Scan/Numbers.antt =====
-- src/lexer/tokenizer.cpp: the loops over the parts of a number only move forward.
use plainspeak.Prelude.{
  ℕ, ◌≡◌, refl, Bool, true, false, ◌&&◌, ◌||◌, ◌==◌, Text, [], ◌∷◌, ◌++◌, take, drop, if◌then◌else◌,
  arith,
}
use plainspeak.Lexer.Chars.{newline, dot_char, peek_at, is_digit}
use plainspeak.Lexer.Scan.{span, scan_fraction, scan_exponent, is_sign}
use plainspeak.Lexer.Scan.Progress.{Moved, stays, span-moves, Moved-trans, drop_one-moves, after}

abbrev pub rest_of : Text × Text × Bool → Text
rest_of r = r.1

pub digits-move : (text : Text) (line : ℕ) → Moved text line (after (span is_digit text)) line
digits-move text line = span-moves is_digit text line refl

fraction_case :
    (text : Text) (line : ℕ) (present : Bool)
    → ((peek_at text 0 == dot_char) && is_digit (peek_at text 1)) ≡ present
    → Moved text line
        (rest_of (
          if present
          then ((dot_char ∷ (span is_digit (drop 1 text)).0), (span is_digit (drop 1 text)).1, true)
          else ([], text, false)))
        line
fraction_case text line true e =
    let first : (peek_at text 0 == newline) ≡ false = ground (arith, e) in
    Moved-trans text (drop 1 text) (after (span is_digit (drop 1 text))) line line line
      (drop_one-moves text line first) (digits-move (drop 1 text) line)
fraction_case text line false e = stays text line

pub scan_fraction-moves :
    (text : Text) (line : ℕ) → Moved text line (rest_of (scan_fraction text)) line
unfolding scan_fraction
scan_fraction-moves text line =
    fraction_case text line ((peek_at text 0 == dot_char) && is_digit (peek_at text 1)) refl

-- Dropping the mark of an exponent, and its sign.
marks-move :
    (text : Text) (line : ℕ) (signed : Bool)
    → (peek_at text 0 == newline) ≡ false
    → (signed ≡ true → (peek_at text 1 == newline) ≡ false)
    → Moved text line (drop (if signed then 2 else 1) text) line
marks-move text line false h k = drop_one-moves text line h
marks-move [] line true h k = stays [] line
marks-move (c ∷ text) line true h k =
    Moved-trans (c ∷ text) text (drop 1 text) line line line (drop_one-moves (c ∷ text) line h)
      (drop_one-moves text line (k refl))

abbrev signed_exponent : Text → Bool
signed_exponent text = is_sign (peek_at text 1) && is_digit (peek_at text 2)

exponent_case :
    (text : Text) (line : ℕ) (signed present : Bool)
    → signed_exponent text ≡ signed
    → (((peek_at text 0 == 101) || (peek_at text 0 == 69)) && (is_digit (peek_at text 1) || signed))
      ≡ present
    → Moved text line
        (rest_of (
          if present
          then (
            take (if signed then 2 else 1) text
                ++ (span is_digit (drop (if signed then 2 else 1) text)).0,
            (span is_digit (drop (if signed then 2 else 1) text)).1,
            true,
          )
          else ([], text, false)))
        line
exponent_case text line signed true s e =
    let first : (peek_at text 0 == newline) ≡ false = ground (arith, e) in
    let second : signed ≡ true → (peek_at text 1 == newline) ≡ false = λ h. ground (arith, s, h) in
    let behind = drop (if signed then 2 else 1) text in
    Moved-trans text behind (after (span is_digit behind)) line line line
      (marks-move text line signed first second) (digits-move behind line)
exponent_case text line signed false s e = stays text line

pub scan_exponent-moves :
    (text : Text) (line : ℕ) → Moved text line (rest_of (scan_exponent text)) line
unfolding scan_exponent
scan_exponent-moves text line = exponent_case text line (signed_exponent text) _ refl refl
