-- ===== src/Parser/Primary/Forms.antt =====
-- src/parser/parser.cpp: the forms that the branches of parsePrimary share or that have loops. The loops
-- over items and arguments take as fuel the tokens left when they are entered.
use Prim.Native.String.{String}
use plainspeak.Prelude.{
  ℕ, zero, suc, Bool, true, false, not, ◌&&◌, ◌==◌, Text, codes, List, [], ◌∷◌, ◌++◌, length,
}
use plainspeak.Prelude.Int.{ℤ, pos}
use plainspeak.Ast.{Place, Expr, Exprs, TypeSpec, IncDecKind, ListElementKind}
use plainspeak.Lexer.Tokenize.{TokKind, Token}
use plainspeak.Parser.{
  Cursor, out_of_fuel, Parser, pure, ◌>>=◌, ◌>>◌, peek, advance, check_word, check_words, kind_at,
  error, advance_all, expect_word, expect_ident_name, line_here, make_expr, remaining, when, refuse,
}
use plainspeak.Parser.Table.{Ask, of_kind, Rule, words, Rules}
use plainspeak.Parser.Aggregates.{followed_by}

-- A token that is an expression of its own.
abbrev pub literal : TokKind → (Token → Place → Expr) → Rule Expr
literal kind node = record {
  guard = of_kind kind ∷ [];
  action = do
    t ← advance
    make_expr (node t) t.line;
}

-- The line of the first word; then the words; then the rest of the rule, which is given the line.
abbrev pub led_by : List Ask → ℕ → (ℕ → Parser Expr) → Rule Expr
led_by guard n rest = record {
  guard = guard;
  action = do
    line ← line_here
    advance_all n
    rest line;
}

abbrev pub led : List String → (ℕ → Parser Expr) → Rule Expr
led ss rest = led_by (words ss) (length ss) rest

abbrev pub function_names : List String
function_names =
    "sine" ∷ "cosine" ∷ "tangent" ∷ "sqrt" ∷ "log" ∷ "abs" ∷ "floor" ∷ "ceil" ∷ "isalpha"
    ∷ "isalnum" ∷ "isblank" ∷ "iscntrl" ∷ "isdigit" ∷ "isgraph" ∷ "islower" ∷ "isprint" ∷ "ispunct"
    ∷ "isspace" ∷ "isupper" ∷ "isxdigit" ∷ "tolower" ∷ "toupper" ∷ "iswalpha" ∷ "iswalnum"
    ∷ "iswblank" ∷ "iswcntrl" ∷ "iswdigit" ∷ "iswgraph" ∷ "iswlower" ∷ "iswprint" ∷ "iswpunct"
    ∷ "iswspace" ∷ "iswupper" ∷ "iswxdigit" ∷ "towlower" ∷ "towupper" ∷ "isfinite" ∷ "isnan"
    ∷ "isinf" ∷ "isnormal" ∷ "signbit" ∷ "round" ∷ "trunc" ∷ "exp" ∷ "log10" ∷ "log2" ∷ "cbrt"
    ∷ "expm1" ∷ "log1p" ∷ []

abbrev pub not_one : Cursor → Bool
not_one c = not (length (peek c 0).text == 1)

abbrev pub not_one_message : Text → Text
not_one_message text =
    codes "A character literal holds exactly one character, not \"" ++ text ++ codes "\"."

-- lit.text[0] as an unsigned char
abbrev pub first_char : Text → ℤ
first_char [] = pos 0
first_char (b ∷ bs) = pos b

abbrev pub expected_primary : Text
expected_primary =
    codes
      "expected a number, a decimal, a string, a name, true, false, null pointer, minus, Choose, Compound value, Select by type, Increment/Decrement before/after, Convert, Address of, Value at, Length of, Size of, Alignment of type, List with, Empty list of, Item at, or a math function here"

module _ (g : Rules) where
  -- A rule of words and one primary expression.
  abbrev pub prefix : List String → (Place → Expr → Expr) → Rule Expr
  prefix ss node = led ss λ line. do e ← g.primary; make_expr (λ p. node p e) line

  abbrev pub function_call : List String → Text → Rule Expr
  function_call ss name = prefix ss (λ p e. Expr.math_call p name e)

  -- A rule of words and one type.
  abbrev pub of_type : List Ask → ℕ → (Place → TypeSpec → Expr) → Rule Expr
  of_type guard n node = led_by guard n λ line. do t ← g.type_spec; make_expr (λ p. node p t) line

  -- The "increment before" of the four kinds.
  abbrev pub inc_dec_rule : String → String → IncDecKind → Rule Expr
  inc_dec_rule s t kind = prefix (s ∷ t ∷ []) (λ p e. Expr.inc_dec p kind e)

  unfoldable pub parse_character : ℕ → Parser Expr
  unfolding peek advance error make_expr
  parse_character line = do
    λ c. refuse not_one (not_one_message (peek c 0).text) c
    t ← advance
    make_expr (λ p. Expr.int_lit p (first_char t.text)) line

  unfoldable pub parse_items : ℕ → Parser Exprs
  unfolding check_words advance_all
  parse_items zero = λ c. out_of_fuel
  parse_items (suc n) =
      let more : Parser Exprs = parse_items n in
      do
        e ← g.expr
        when followed_by (do advance_all 2; es ← more; pure (Exprs.an_expr e es))
            (pure (Exprs.an_expr e Exprs.no_exprs))

  unfoldable pub parse_list : ℕ → Parser Expr
  unfolding check_word error parse_items expect_word make_expr
  parse_list line = do
    refuse (check_word (codes "done")) (
        codes
          "a list introduced with \"List with\" needs at least one item; use \"Empty list of ...\" for an empty list")
    items ← λ c. parse_items (suc (remaining c)) c
    expect_word (codes "done")
    make_expr (λ p. Expr.list_expr p items) line

  unfoldable pub parse_empty_list : ℕ → Parser Expr
  unfolding check_word error advance make_expr
  parse_empty_list line = do
    kind ← when (check_word (codes "numbers")) (pure ListElementKind.number) (
        when (check_word (codes "decimals")) (pure ListElementKind.decimal) (
          when (check_word (codes "strings")) (pure ListElementKind.string) (
            error (
              codes "expected \"numbers\", \"decimals\", or \"strings\" after \"Empty list of\""))))
    advance
    make_expr (λ p. Expr.empty_list p kind) line

  -- The arguments up to "done"; the end of the file is an error where `closed` says so.
  unfoldable pub parse_arguments : Bool → ℕ → Parser Exprs
  unfolding check_word kind_at error
  parse_arguments closed zero = λ c. out_of_fuel
  parse_arguments closed (suc n) =
      let more : Parser Exprs = parse_arguments closed n in
      when (check_word (codes "done")) (pure Exprs.no_exprs) (do
        refuse (λ c. closed && kind_at 0 TokKind.eof c)
            (codes "reached end of file while looking for \"done\" to close this call")
        e ← g.expr
        es ← more
        pure (Exprs.an_expr e es))

  unfoldable pub parse_call_expr : ℕ → Parser Expr
  unfolding check_word advance expect_word expect_ident_name parse_arguments make_expr
  parse_call_expr line =
      when (check_word (codes "through"))
        (do
          advance
          callee ← g.primary
          args ← arguments false
          expect_word (codes "done")
          make_expr (λ p. Expr.indirect_call p callee args) line)
        (do
          name ← expect_ident_name
          args ← arguments true
          expect_word (codes "done")
          make_expr (λ p. Expr.call p name args) line)
    where
      arguments : Bool → Parser Exprs
      arguments closed =
          when (check_word (codes "with"))
            (advance >> λ c. parse_arguments closed (suc (remaining c)) c) (pure Exprs.no_exprs)

  unfoldable pub parse_grouped : Parser Expr
  unfolding advance kind_at error
  parse_grouped = do
    advance
    inner ← g.expr
    refuse (λ c. not (kind_at 0 TokKind.rparen c)) (codes "expected \")\"")
    advance
    pure inner

  unfoldable pub parse_atomic_rmw : ℕ → Parser Expr
  unfolding advance expect_word expect_ident_name make_expr
  parse_atomic_rmw line = do
    operation ← advance
    value ← g.expr
    expect_word (codes "to")
    name ← expect_ident_name
    make_expr (λ p. Expr.atomic_rmw p operation.text name value) line
