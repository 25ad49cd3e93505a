-- ===== src/Parser.antt =====
-- src/parser/parser.cpp and parser.h: the token cursor, and the steps that every rule is made of.
-- A rule that throws gives the line and the message of the ParseError.
pub mod Operators
pub mod Table
pub mod Types
pub mod Aggregates
pub mod Primary
pub mod Grammar
pub mod Statements
pub mod Progress
use plainspeak.Prelude.{
  ℕ, zero, suc, ◌+◌, Bool, true, false, ◌&&◌, ◌||◌, Text, codes, text_eq, List, [], ◌∷◌, ◌++◌,
  if◌then◌else◌, length, any, Option, none, some,
}
use plainspeak.Prelude.Int.{ℤ}
use plainspeak.Ast.{Place, Expr}
use plainspeak.Lexer.Tokenize.{TokKind, Token}

-- What is left of tokens_, whose first token is at pos_, and how many nodes the arena holds.
pub record Cursor : Type 0 where
  pub current : Token
  pub following : List Token
  pub made : ℕ

-- `failed` is a ParseError; `out_of_fuel` has no counterpart in the program.
pub data Result {ℓ} (A : Type ℓ) : Type ℓ where
  parsed : A → Result A
  failed : ℕ → Text → Result A
  out_of_fuel : Result A

abbrev pub Parser {ℓ} : Type ℓ → Type ℓ
Parser A = Cursor → Result (A × Cursor)

unfoldable pub pure {ℓ} : {A : Type ℓ} → A → Parser A
pure a c = parsed (a, c)

abbrev pub then_with {ℓ κ} :
    {A : Type ℓ} {B : Type κ} → Result (A × Cursor) → (A → Parser B) → Result (B × Cursor)
then_with (parsed (a, c)) f = f a c
then_with (failed line message) f = failed line message
then_with out_of_fuel f = out_of_fuel

infixl 1 ◌>>=◌ ◌>>◌
unfoldable pub ◌>>=◌ {ℓ κ} : {A : Type ℓ} {B : Type κ} → Parser A → (A → Parser B) → Parser B
p >>= f = λ c. then_with (p c) f

abbrev pub ◌>>◌ {ℓ κ} : {A : Type ℓ} {B : Type κ} → Parser A → Parser B → Parser B
p >> q = p >>= λ _. q

-- tokens_[pos_ + ahead], or the last token
unfoldable pub token_at : Token → List Token → ℕ → Token
token_at t [] n = t
token_at t (u ∷ us) zero = t
token_at t (u ∷ us) (suc n) = token_at u us n

unfoldable pub peek : Cursor → ℕ → Token
unfolding token_at
peek c n = token_at c.current c.following n

-- The last token is not left.
abbrev pub advance_to : Token → List Token → ℕ → Result (Token × Cursor)
advance_to t [] made = parsed (t, record { current = t; following = []; made = made })
advance_to t (u ∷ us) made = parsed (t, record { current = u; following = us; made = made })

unfoldable pub advance : Parser Token
advance c = advance_to c.current c.following c.made

abbrev pub is_kind : TokKind → TokKind → Bool
is_kind TokKind.ident TokKind.ident = true
is_kind TokKind.number TokKind.number = true
is_kind TokKind.float TokKind.float = true
is_kind TokKind.string TokKind.string = true
is_kind TokKind.comment TokKind.comment = true
is_kind TokKind.dot TokKind.dot = true
is_kind TokKind.colon TokKind.colon = true
is_kind TokKind.lparen TokKind.lparen = true
is_kind TokKind.rparen TokKind.rparen = true
is_kind TokKind.eof TokKind.eof = true
is_kind k l = false

unfoldable pub check_word_at : ℕ → Text → Cursor → Bool
unfolding peek
check_word_at n word c = is_kind (peek c n).kind TokKind.ident && text_eq (peek c n).text word

unfoldable pub check_word : Text → Cursor → Bool
unfolding check_word_at
check_word word c = check_word_at 0 word c

-- The next tokens are words, each one of those listed for its place.
unfoldable pub check_words : ℕ → List (List Text) → Cursor → Bool
unfolding check_word_at
check_words n [] c = true
check_words n (ws ∷ rest) c = any (λ w. check_word_at n w c) ws && check_words (suc n) rest c

unfoldable pub kind_at : ℕ → TokKind → Cursor → Bool
unfolding peek
kind_at n k c = is_kind (peek c n).kind k

unfoldable pub error {ℓ} : {A : Type ℓ} → Text → Parser A
unfolding peek
error message c = failed (peek c 0).line message

unfoldable pub when : {A : Type 0} → (Cursor → Bool) → Parser A → Parser A → Parser A
when test p q c = elim (test c) [ true ↦ p c | false ↦ q c ]

-- An error where the test holds.
abbrev pub refuse : (Cursor → Bool) → Text → Parser (Unit {0})
refuse test message = when test (error message) (pure tt)

-- What follows depends on what is recognised in front.
unfoldable pub if_some : {A B : Type 0} → (Cursor → Option A) → Parser B → (A → Parser B) → Parser B
if_some f p k c = elim (f c) [ none ↦ p c | some a ↦ k a c ]

unfoldable pub advance_all : ℕ → Parser (Unit {0})
unfolding advance
advance_all zero = pure tt
advance_all (suc n) = do advance; advance_all n

unfoldable pub expect_word : Text → Parser Token
unfolding check_word error advance
expect_word word = λ c.
    if check_word word c
    then advance c
    else error
        (codes "expected \""
          ++ word
          ++ codes "\" but found \""
          ++ (if is_kind (peek c 0).kind TokKind.eof then codes "end of file" else (peek c 0).text)
          ++ codes "\"")
        c

unfoldable pub expect_dot : Parser Token
unfolding kind_at error advance
expect_dot = λ c.
    if kind_at 0 TokKind.dot c
    then advance c
    else error (codes "expected \".\" to end the sentence") c

unfoldable pub expect_colon : Parser Token
unfolding kind_at error advance
expect_colon = λ c.
    if kind_at 0 TokKind.colon c
    then advance c
    else error (codes "expected \":\" to start a block") c

unfoldable pub expect_ident_name : Parser Text
unfolding kind_at error advance
expect_ident_name = λ c.
    if kind_at 0 TokKind.ident c
    then (advance >>= λ t. pure t.text) c
    else error (codes "expected a name here") c

-- peek().line
unfoldable pub line_here : Parser ℕ
unfolding peek
line_here c = parsed ((peek c 0).line, c)

-- Arena::makeExpr
unfoldable pub make_expr : (Place → Expr) → ℕ → Parser Expr
make_expr node line c =
    parsed (node (record { address = c.made; line = line }), record c { made = suc c.made })

-- The number of tokens behind the current one.
abbrev pub remaining : Cursor → ℕ
remaining c = length c.following
