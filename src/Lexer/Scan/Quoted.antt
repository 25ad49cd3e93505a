-- ===== src/Lexer/Scan/Quoted.antt =====
-- src/lexer/tokenizer.cpp: a string literal that is written with escapes is read back as it was.
use plainspeak.Prelude.{
  ℕ, ◌+◌, ◌≡◌, refl, ap, sym, ◌∙◌, inl, inr, ==_iff, Bool, true, false, ◌||◌, ◌==◌, Text, [], ◌∷◌,
  some, if◌then◌else◌, Bool-cases, arith,
}
use plainspeak.Lexer.Chars.{newline, quote, backslash, next_line}
use plainspeak.Lexer.Scan.{Delimited, prepend, scan_string, unescape}

-- How a character is written between quotes.
abbrev pub escape_char : ℕ → Text → Text
escape_char c text =
    if (c == quote) || (c == backslash)
    then backslash ∷ c ∷ text
    else if c == newline
    then backslash ∷ 110 ∷ text
    else c ∷ text

abbrev pub escape : Text → Text → Text
escape [] rest = quote ∷ rest
escape (c ∷ text) rest = escape_char c (escape text rest)

scan_string-escaped :
    (d line : ℕ) (text : Text)
    → (d == newline) ≡ false
    → scan_string (backslash ∷ d ∷ text) line ≡ prepend (unescape d) (scan_string text line)
unfolding scan_string
scan_string-escaped d line text h = rw h refl

last_choice :
    (closes escapes : Bool) (a b e : Delimited)
    → closes ≡ false
    → escapes ≡ false
    → (elim closes [ true ↦ a | false ↦ elim escapes [ true ↦ b | false ↦ e ] ]) ≡ e
last_choice closes escapes a b e h k = rw (h, k) refl

if_false : (t : Bool) (a b : ℕ) → t ≡ false → (if t then a else b) ≡ b
if_false t a b h = rw h refl

scan_string-plain :
    (c line : ℕ) (text : Text)
    → (c == quote) ≡ false
    → (c == backslash) ≡ false
    → (c == newline) ≡ false
    → scan_string (c ∷ text) line ≡ prepend c (scan_string text line)
unfolding scan_string
scan_string-plain c line [] h k n = rw h refl
scan_string-plain c line (d ∷ text) h k n =
    last_choice (c == quote) (c == backslash) (some ([], d ∷ text, line))
      (prepend (unescape d) (scan_string text (next_line d line)))
      (prepend c (scan_string (d ∷ text) (next_line c line))) h k
    ∙ ap (λ l. prepend c (scan_string (d ∷ text) l)) (if_false (c == newline) (line + 1) line n)

choose_first :
    (c : ℕ) (text : Text)
    → ((c == quote) || (c == backslash)) ≡ true
    → escape_char c text ≡ backslash ∷ c ∷ text
choose_first c text h = rw h refl

choose_second :
    (c : ℕ) (text : Text)
    → ((c == quote) || (c == backslash)) ≡ false
    → (c == newline) ≡ true
    → escape_char c text ≡ backslash ∷ 110 ∷ text
choose_second c text h k = rw (h, k) refl

choose_third :
    (c : ℕ) (text : Text)
    → ((c == quote) || (c == backslash)) ≡ false
    → (c == newline) ≡ false
    → escape_char c text ≡ c ∷ text
choose_third c text h k = rw (h, k) refl

neither :
    (c : ℕ)
    → ((c == quote) || (c == backslash)) ≡ false
    → ((c == quote) ≡ false) × ((c == backslash) ≡ false)
neither c h = ground arith

-- The character of an escape of its own
unescape_self :
    (c : ℕ)
    → ((c == quote) || (c == backslash)) ≡ true
    → (unescape c ≡ c) × ((c == newline) ≡ false)
unescape_self c h = ground arith

scan_string-escape_char :
    (c line : ℕ) (text : Text)
    → scan_string (escape_char c text) line ≡ prepend c (scan_string text line)
scan_string-escape_char c line text = elim (Bool-cases ((c == quote) || (c == backslash))) [
  | inl e ↦
      let (u, n) = unescape_self c e in
      ap (λ t. scan_string t line) (choose_first c text e)
      ∙ scan_string-escaped c line text n
      ∙ ap (λ d. prepend d (scan_string text line)) u
  | inr e ↦ elim (Bool-cases (c == newline)) [
    | inl n ↦
        ap (λ t. scan_string t line) (choose_second c text e n)
        ∙ scan_string-escaped 110 line text refl
        ∙ ap (λ d. prepend d (scan_string text line)) (sym ((==_iff c newline).0 n))
    | inr n ↦
        let (q, b) = neither c e in
        ap (λ t. scan_string t line) (choose_third c text e n) ∙ scan_string-plain c line text q b n
  ]
]

-- A text that is written between quotes, its quotes, backslashes and newlines escaped, is read back
-- unchanged, up to its closing quote and on the same line.
pub scan_string-escape :
    (value rest : Text) (line : ℕ) → scan_string (escape value rest) line ≡ some (value, rest, line)
unfolding scan_string
scan_string-escape [] [] line = refl
scan_string-escape [] (c ∷ rest) line = refl
scan_string-escape (c ∷ value) rest line =
    scan_string-escape_char c line (escape value rest)
    ∙ ap (prepend c) (scan_string-escape value rest line)
