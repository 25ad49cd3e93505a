-- ===== src/Lexer/Scan/Progress.antt =====
-- src/lexer/tokenizer.cpp: the inner loops only move forward, and count the lines that they pass.
use plainspeak.Prelude.{
  ℕ, zero, suc, ◌+◌, ◌≤◌, ◌≡◌, inl, inr, refl, ap, Bool, true, false, ◌==◌, Text, [], ◌∷◌, length,
  drop, none, some, if◌then◌else◌, Bool-cases, ==_iff, sym, ◌∙◌, arith,
}
use mathlib.Core.Bool.{true≢false}
use plainspeak.Lexer.Chars.{newline, quote, left_paren, right_paren, backslash, next_line, peek_at}
use plainspeak.Lexer.Scan.{span, Delimited, prepend, scan_comment, scan_string, unescape}

abbrev pub newlines : Text → ℕ
newlines [] = 0
newlines (c ∷ text) = if c == newline then suc (newlines text) else newlines text

-- From `text` on `line` to `rest` on `line'`: no longer than before, no line earlier, and the lines counted.
pub record Moved (text : Text) (line : ℕ) (rest : Text) (line' : ℕ) : Type 0 where
  pub no_longer : length rest ≤ length text
  pub forward : line ≤ line'
  pub counted : line' + newlines rest ≡ line + newlines text

abbrev pub DelimitedMoves : Text → ℕ → Delimited → Type 0
DelimitedMoves text line none = Unit
DelimitedMoves text line (some (value, rest, line')) = Moved text line rest line'

-- A step over the first character.
Moved-cons :
    (c : ℕ) (text rest : Text) (line line' : ℕ)
    → Moved text (next_line c line) rest line'
    → Moved (c ∷ text) line rest line'
Moved-cons c text rest line line' m = record {
  no_longer = omega (arith, m.no_longer);
  forward = ground (arith, m.forward);
  counted = ground (arith, m.counted);
}

prepend-moves :
    (c d : ℕ) (text : Text) (line : ℕ) (r : Delimited)
    → DelimitedMoves text (next_line c line) r
    → DelimitedMoves (c ∷ text) line (prepend d r)
prepend-moves c d text line none m = tt
prepend-moves c d text line (some (value, rest, line')) m = Moved-cons c text rest line line' m

moves-cons :
    (c : ℕ) (text : Text) (line : ℕ) (r : Delimited)
    → DelimitedMoves text (next_line c line) r
    → DelimitedMoves (c ∷ text) line r
moves-cons c text line none m = tt
moves-cons c text line (some (value, rest, line')) m = Moved-cons c text rest line line' m

-- A character that is no newline.
pub plain_char : (c d line : ℕ) → (c == d) ≡ true → (d == newline) ≡ false → next_line c line ≡ line
plain_char c d line h k = ground arith

pub stays : (text : Text) (line : ℕ) → Moved text line text line
stays text line = record { no_longer = omega arith; forward = omega arith; counted = refl }

comment_case :
    (depth c : ℕ) (text : Text) (line : ℕ) (opens closes : Bool)
    → (c == left_paren) ≡ opens
    → (c == right_paren) ≡ closes
    → ((d l : ℕ) → DelimitedMoves text l (scan_comment d text l))
    → DelimitedMoves (c ∷ text) line (elim opens [
      | true ↦ prepend c (scan_comment (suc depth) text line)
      | false ↦ elim closes [
        | true ↦ elim depth [
          | zero ↦ some ([], text, line)
          | suc outer ↦ prepend c (scan_comment outer text line)
        ]
        | false ↦ prepend c (scan_comment depth text (next_line c line))
      ]
    ])
comment_case depth c text line true closes h k ih =
    prepend-moves c c text line (scan_comment (suc depth) text line)
      (rw (plain_char c left_paren line h refl) (ih (suc depth) line))
comment_case zero c text line false true h k ih =
    Moved-cons c text text line line (rw (plain_char c right_paren line k refl) (stays text line))
comment_case (suc outer) c text line false true h k ih =
    prepend-moves c c text line (scan_comment outer text line)
      (rw (plain_char c right_paren line k refl) (ih outer line))
comment_case depth c text line false false h k ih =
    prepend-moves c c text line (scan_comment depth text (next_line c line))
      (ih depth (next_line c line))

pub scan_comment-moves :
    (depth : ℕ) (text : Text) (line : ℕ) → DelimitedMoves text line (scan_comment depth text line)
unfolding scan_comment
scan_comment-moves depth [] line = tt
scan_comment-moves depth (c ∷ text) line =
    comment_case depth c text line (c == left_paren) (c == right_paren) refl refl
      (λ d l. scan_comment-moves d text l)

string_end :
    (c line : ℕ) (closes : Bool)
    → (c == quote) ≡ closes
    → DelimitedMoves (c ∷ []) line (if closes then some ([], [], line) else none)
string_end c line true h =
    Moved-cons c [] [] line line (rw (plain_char c quote line h refl) (stays [] line))
string_end c line false h = tt

backslash_line : (c line : ℕ) → (c == backslash) ≡ true → next_line c line ≡ line
backslash_line c line h = plain_char c backslash line h refl

string_case :
    (c d : ℕ) (rest : Text) (line : ℕ) (closes escapes : Bool)
    → (c == quote) ≡ closes
    → (c == backslash) ≡ escapes
    → ((l : ℕ) → DelimitedMoves rest l (scan_string rest l))
    → ((l : ℕ) → DelimitedMoves (d ∷ rest) l (scan_string (d ∷ rest) l))
    → DelimitedMoves (c ∷ d ∷ rest) line (elim closes [
      | true ↦ some ([], d ∷ rest, line)
      | false ↦ elim escapes [
        | true ↦ prepend (unescape d) (scan_string rest (next_line d line))
        | false ↦ prepend c (scan_string (d ∷ rest) (next_line c line))
      ]
    ])
string_case c d rest line true escapes h k ih ih' =
    Moved-cons c (d ∷ rest) (d ∷ rest) line line
      (rw (plain_char c quote line h refl) (stays (d ∷ rest) line))
string_case c d rest line false true h k ih ih' =
    moves-cons c (d ∷ rest) line (prepend (unescape d) (scan_string rest (next_line d line))) (
      rw (backslash_line c line k) (
        prepend-moves d (unescape d) rest line (scan_string rest (next_line d line))
          (ih (next_line d line))))
string_case c d rest line false false h k ih ih' =
    prepend-moves c c (d ∷ rest) line (scan_string (d ∷ rest) (next_line c line))
      (ih' (next_line c line))

pub scan_string-moves : (text : Text) (line : ℕ) → DelimitedMoves text line (scan_string text line)
unfolding scan_string
scan_string-moves [] line = tt
scan_string-moves (c ∷ []) line = string_end c line (c == quote) refl
scan_string-moves (c ∷ d ∷ rest) line =
    string_case c d rest line (c == quote) (c == backslash) refl refl
      (λ l. scan_string-moves rest l) (λ l. scan_string-moves (d ∷ rest) l)

pub accepted_line :
    (p : ℕ → Bool) (c line : ℕ) → p c ≡ true → p newline ≡ false → next_line c line ≡ line
accepted_line p c line h k = elim (Bool-cases (c == newline)) [
  | inl e ↦
      let same : p c ≡ p newline = ap p ((==_iff c newline).0 e) in
      absurd (true≢false (sym h ∙ same ∙ k))
  | inr e ↦ ground (arith, e)
]

abbrev pub after : Text × Text → Text
after r = r.1

span_case :
    (p : ℕ → Bool) (c : ℕ) (text : Text) (line : ℕ) (accepted : Bool)
    → p c ≡ accepted
    → p newline ≡ false
    → Moved text line (after (span p text)) line
    → Moved
        (c ∷ text)
        line
        (after (if accepted then (c ∷ (span p text).0, (span p text).1) else ([], c ∷ text)))
        line
span_case p c text line true e h m =
    Moved-cons c text (span p text).1 line line (rw (accepted_line p c line e h) m)
span_case p c text line false e h m = stays (c ∷ text) line

-- A span over characters of which none is a newline.
pub span-moves :
    (p : ℕ → Bool) (text : Text) (line : ℕ)
    → p newline ≡ false
    → Moved text line (after (span p text)) line
unfolding span
span-moves p [] line h = stays [] line
span-moves p (c ∷ text) line h = span_case p c text line (p c) refl h (span-moves p text line h)

-- A span that takes its first character, seen from behind it.
pub span-progress :
    (p : ℕ → Bool) (c : ℕ) (text : Text) (line : ℕ)
    → p c ≡ true
    → p newline ≡ false
    → Moved text line (after (span p (c ∷ text))) line
unfolding span
span-progress p c text line e h = rw e (span-moves p text line h)

pub Moved-trans : (a b c : Text) (l m n : ℕ) → Moved a l b m → Moved b m c n → Moved a l c n
Moved-trans a b c l m n f g = record {
  no_longer = omega (arith, f.no_longer, g.no_longer);
  forward = omega (arith, f.forward, g.forward);
  counted = omega (arith, f.counted, g.counted);
}

-- Dropping characters that are no newlines.
pub drop_one-moves :
    (text : Text) (line : ℕ)
    → (peek_at text 0 == newline) ≡ false
    → Moved text line (drop 1 text) line
drop_one-moves [] line h = stays [] line
drop_one-moves (c ∷ text) line h = record {
  no_longer = omega arith;
  forward = omega arith;
  counted = ground arith;
}
