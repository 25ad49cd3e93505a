-- ===== src/Parser/Statements/Procedures.antt =====
-- src/parser/parser.cpp: parseProcedure up to its body. The loops over parameters and over "with" take
-- as fuel the tokens left when they are entered.
use plainspeak.Prelude.{
  ℕ, zero, suc, Bool, true, false, ◌&&◌, ◌||◌, not, Text, codes, List, [], ◌∷◌, Option, none, some,
}
use plainspeak.Ast.{TypeSpec, ProcedureParam, ProcedureHead}
use plainspeak.Lexer.Tokenize.{TokKind}
use plainspeak.Parser.{
  Cursor, Parser, out_of_fuel, pure, ◌>>=◌, ◌>>◌, check_word, check_words, kind_at, error, advance,
  advance_all, expect_colon, expect_ident_name, remaining, when, refuse,
}
use plainspeak.Parser.Table.{Rules}
use plainspeak.Parser.Statements.Declarations.{optional_message}

-- The locals params, variadic, sawTypedParam and sawUntypedParam of parseProcedure.
pub record Params : Type 0 where
  pub params : List ProcedureParam
  pub variadic : Bool
  pub saw_typed : Bool
  pub saw_untyped : Bool

abbrev pub is_some : Option TypeSpec → Bool
is_some none = false
is_some (some t) = true

abbrev pub no_more : Bool → Bool → Bool → Params
no_more variadic typed untyped = record {
  params = [];
  variadic = variadic;
  saw_typed = typed;
  saw_untyped = untyped;
}

abbrev pub in_front : Text → Option TypeSpec → Params → Params
in_front name type p = record p { params = record { name = name; type = type } ∷ p.params }

abbrev pub no_params : Params
no_params = no_more false false false

-- The attributes behind "with".
pub record Specifiers : Type 0 where
  pub inline_specifier : Bool
  pub noreturn_specifier : Bool
  pub deprecated : Bool
  pub deprecation_message : Text
  pub maybe_unused : Bool

abbrev pub no_specifiers : Specifiers
no_specifiers = record {
  inline_specifier = false;
  noreturn_specifier = false;
  deprecated = false;
  deprecation_message = [];
  maybe_unused = false;
}

abbrev pub expected_specifier : Text
expected_specifier =
    codes
      "expected \"inline\", \"no return\", \"deprecated\", or \"maybe unused\" after Procedure with"

-- One attribute behind "with".
unfoldable pub parse_specifier : Specifiers → Parser Specifiers
unfolding check_word check_words kind_at error advance advance_all
parse_specifier s =
    when (check_word (codes "inline")) (advance >> pure (record s { inline_specifier = true })) (
      when (check_words 0 ((codes "no" ∷ []) ∷ (codes "return" ∷ []) ∷ []))
        (advance_all 2 >> pure (record s { noreturn_specifier = true }))
        (when (check_word (codes "deprecated"))
          (do
            advance
            text ← optional_message s.deprecation_message
            pure (record s { deprecated = true; deprecation_message = text }))
          (when (check_words 0 ((codes "maybe" ∷ []) ∷ (codes "unused" ∷ []) ∷ []))
            (advance_all 2 >> pure (record s { maybe_unused = true })) (error expected_specifier))))

unfoldable pub parse_specifiers : ℕ → Specifiers → Parser Specifiers
unfolding check_word advance parse_specifier
parse_specifiers zero s = λ c. out_of_fuel
parse_specifiers (suc n) s =
    let more : Specifiers → Parser Specifiers = λ r. parse_specifiers n r in
    when (check_word (codes "with")) (advance >> (parse_specifier s >>= λ r. more r)) (pure s)

-- Where the parameters end.
abbrev pub params_end : Cursor → Bool
params_end c = kind_at 0 TokKind.colon c || check_word (codes "returns") c

module _ (g : Rules) where
  unfoldable pub parse_param_type : Parser (Option TypeSpec)
  unfolding check_word advance
  parse_param_type =
      when (check_word (codes "as")) (do advance; t ← g.type_spec; pure (some t)) (pure none)

  unfoldable pub parse_params : ℕ → Bool → Bool → Parser Params
  unfolding check_word check_words kind_at error advance_all expect_ident_name parse_param_type
  parse_params zero typed untyped = λ c. out_of_fuel
  parse_params (suc n) typed untyped =
      let more : Bool → Bool → Parser Params = λ t u. parse_params n t u in
      when params_end (pure (no_more false typed untyped)) (
        when
          (check_words 0
            ((codes "and" ∷ []) ∷ (codes "variadic" ∷ []) ∷ (codes "parameters" ∷ []) ∷ []))
          (advance_all 3 >> pure (no_more true typed untyped))
          (expect_ident_name >>= λ name. parse_param_type >>= λ type.
            refuse (λ _. (typed || is_some type) && (untyped || not (is_some type)))
              (codes
                "a Procedure cannot mix typed and untyped parameters; give every parameter an \"as <type>\" or none of them")
            >> (more (typed || is_some type) (untyped || not (is_some type)) >>= λ rest.
                pure (in_front name type rest))))

  unfoldable pub parse_head : Parser ProcedureHead
  unfolding check_word error advance expect_colon expect_ident_name parse_params parse_specifiers
  parse_head = do
    name ← expect_ident_name
    p ←
        when (check_word (codes "takes"))
          (advance >> λ c. parse_params (suc (remaining c)) false false c) (pure no_params)
    return_type ←
        when (check_word (codes "returns")) (do advance; t ← g.type_spec; pure (some t)) (pure none)
    refuse (λ _. p.saw_typed && not (is_some return_type))
        (codes
          "a Procedure with typed parameters must say what it returns, including \"returns void\"")
    refuse (λ _. p.saw_untyped && is_some return_type)
        (codes
          "a typed Procedure return requires typed parameters; either add \"as <type>\" to every parameter or remove \"returns\"")
    s ← λ c. parse_specifiers (suc (remaining c)) no_specifiers c
    expect_colon
    pure (record {
      name = name;
      params = p.params;
      return_type = return_type;
      inline_specifier = s.inline_specifier;
      noreturn_specifier = s.noreturn_specifier;
      deprecated = s.deprecated;
      deprecation_message = s.deprecation_message;
      maybe_unused = s.maybe_unused;
      variadic = p.variadic;
    })
