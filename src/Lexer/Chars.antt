-- ===== src/Lexer/Chars.antt =====
-- The characters that src/lexer/tokenizer.cpp tells apart, by their codes, and the tests of <cctype>
-- in the C locale.
use plainspeak.Prelude.{ℕ, ◌+◌, Bool, ◌&&◌, ◌||◌, ◌==◌, leb, if◌then◌else◌, Text, get_or}

abbrev pub newline : ℕ
newline = 10

abbrev pub quote : ℕ
quote = 34

abbrev pub left_paren : ℕ
left_paren = 40

abbrev pub right_paren : ℕ
right_paren = 41

abbrev pub plus : ℕ
plus = 43

abbrev pub comma : ℕ
comma = 44

abbrev pub minus : ℕ
minus = 45

abbrev pub dot_char : ℕ
dot_char = 46

abbrev pub colon_char : ℕ
colon_char = 58

abbrev pub backslash : ℕ
backslash = 92

abbrev pub underscore : ℕ
underscore = 95

abbrev pub between : ℕ → ℕ → ℕ → Bool
between low high c = leb low c && leb c high

abbrev pub is_space : ℕ → Bool
is_space c = (c == 32) || between 9 13 c

abbrev pub is_digit : ℕ → Bool
is_digit c = between 48 57 c

abbrev pub is_xdigit : ℕ → Bool
is_xdigit c = is_digit c || between 65 70 c || between 97 102 c

abbrev pub is_upper : ℕ → Bool
is_upper c = between 65 90 c

abbrev pub is_alpha : ℕ → Bool
is_alpha c = is_upper c || between 97 122 c

abbrev pub is_alnum : ℕ → Bool
is_alnum c = is_alpha c || is_digit c

abbrev pub to_lower : ℕ → ℕ
to_lower c = if is_upper c then c + 32 else c

-- peekChar and peekAt: the character so far ahead, and '\0' behind the end
abbrev pub peek_at : Text → ℕ → ℕ
peek_at text offset = get_or text offset 0

-- line_ after a character has been taken
abbrev pub next_line : ℕ → ℕ → ℕ
next_line c line = if c == newline then line + 1 else line
