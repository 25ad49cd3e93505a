-- ===== src/Parser/Statements/Imports.antt =====
-- src/parser/parser.cpp: parseCImport and the imports of C functions, objects and constants. The loop
-- over parameter types takes as fuel the tokens left when it is entered.
use plainspeak.Prelude.{ℕ, zero, suc, Bool, true, false, Text, codes, [], ◌∷◌}
use plainspeak.Ast.{CImportKind, TypeSpec, TypeSpecs, PlainStmt, Stmt}
use plainspeak.Lexer.Tokenize.{Token}
use plainspeak.Parser.{
  Parser, out_of_fuel, pure, ◌>>=◌, ◌>>◌, check_word, check_words, kind_at, error, advance,
  expect_word, expect_dot, expect_ident_name, line_here, remaining, when,
}
use plainspeak.Parser.Table.{Rules}
use plainspeak.Parser.Statements.{make_stmt, end_plain, skip_word, skip_article, quoted, named}

-- The name as it was written, where the tokenizer kept it.
abbrev pub source_or : Text → Text → Text
source_or [] text = text
source_or (b ∷ bs) text = b ∷ bs

abbrev pub written : Token → Text
written t = source_or t.source_text t.text

module _ (g : Rules) where
  abbrev pub type_behind_article : Parser TypeSpec
  type_behind_article = do skip_article; skip_word (codes "type"); g.type_spec

  abbrev pub from_header : Text → Parser Text
  from_header message = do
    expect_word (codes "from")
    skip_word (codes "the")
    expect_word (codes "header")
    quoted message

  unfoldable pub parse_c_object_import : Parser Stmt
  unfolding line_here check_word check_words kind_at error advance expect_word expect_ident_name
      expect_dot make_stmt
  parse_c_object_import = do
    line ← line_here
    advance
    name ← expect_ident_name
    expect_word (codes "as")
    type ← type_behind_article
    header ← from_header (codes "a C object import needs a quoted header name")
    end_plain (PlainStmt.c_object_import name type header) line

  unfoldable pub parse_c_constant_import : Parser Stmt
  unfolding line_here check_word check_words kind_at error advance expect_word expect_dot make_stmt
  parse_c_constant_import = do
    line ← line_here
    advance
    name ← named (codes "a C constant import needs an identifier name")
    expect_word (codes "as")
    type ← type_behind_article
    header ← from_header (codes "a C constant import needs a quoted header name")
    end_plain (PlainStmt.c_constant_import name.text (written name) type header) line

  -- Behind a parameter type: the end of the list, "and variadic parameters", or more of them.
  unfoldable pub after_import_parameter :
      Parser (TypeSpecs × Bool) → TypeSpec → Parser (TypeSpecs × Bool)
  unfolding check_word advance expect_word
  after_import_parameter more t =
      when (check_word (codes "and"))
        (do
          advance
          when (check_word (codes "variadic"))
              (do
                advance
                expect_word (codes "parameters")
                pure (TypeSpecs.a_spec t TypeSpecs.no_specs, true))
              (do (ts, variadic) ← more; pure (TypeSpecs.a_spec t ts, variadic)))
        (pure (TypeSpecs.a_spec t TypeSpecs.no_specs, false))

  unfoldable pub parse_import_parameters : ℕ → Parser (TypeSpecs × Bool)
  unfolding check_word check_words advance after_import_parameter
  parse_import_parameters zero = λ c. out_of_fuel
  parse_import_parameters (suc n) =
      let more : Parser (TypeSpecs × Bool) = parse_import_parameters n in
      type_behind_article >>= after_import_parameter more

  unfoldable pub parse_c_function_import : Parser Stmt
  unfolding line_here check_word check_words kind_at error advance expect_word expect_ident_name
      expect_dot make_stmt parse_import_parameters
  parse_c_function_import = do
    line ← line_here
    advance
    name ← expect_ident_name
    expect_word (codes "taking")
    (parameters, variadic) ←
        when (check_word (codes "no"))
          (do advance; expect_word (codes "parameters"); pure (TypeSpecs.no_specs, false))
          (λ c. parse_import_parameters (suc (remaining c)) c)
    when (check_word (codes "returning")) advance (expect_word (codes "returns"))
    return_type ← type_behind_article
    header ← from_header (codes "a C function import needs a quoted header name")
    end_plain (PlainStmt.c_function_import name parameters return_type header variadic) line

  unfoldable pub parse_c_header_or_library : ℕ → Parser Stmt
  unfolding check_word kind_at error advance expect_dot make_stmt
  parse_c_header_or_library line = do
    kind ← when (check_word (codes "header")) (pure CImportKind.header) (
        when (check_word (codes "library")) (pure CImportKind.library)
          (error (codes "expected \"header\" or \"library\" after \"Import C\"")))
    advance
    name ← quoted (codes "a C import needs a quoted header or library name")
    end_plain (PlainStmt.c_import kind name) line

  unfoldable pub parse_c_import : ℕ → Parser Stmt
  unfolding check_word advance expect_word parse_c_function_import parse_c_object_import
      parse_c_constant_import parse_c_header_or_library
  parse_c_import line = do
    skip_word (codes "the")
    expect_word (codes "c")
    when (check_word (codes "function")) parse_c_function_import (
        when (check_word (codes "object")) parse_c_object_import (
          when (check_word (codes "constant")) parse_c_constant_import
            (parse_c_header_or_library line)))
