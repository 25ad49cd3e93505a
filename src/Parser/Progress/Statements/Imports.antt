-- ===== src/Parser/Progress/Statements/Imports.antt =====
-- parseCImport of src/parser/parser.cpp puts no token back.
use plainspeak.Prelude.{ℕ, zero, suc, ◌≤◌, Bool, arith}
use plainspeak.Ast.{TypeSpec, TypeSpecs}
use plainspeak.Parser.{Parser, remaining}
use plainspeak.Parser.Table.{Rules}
use plainspeak.Parser.Statements.Imports.{
  type_behind_article, parse_c_object_import, parse_c_constant_import, after_import_parameter,
  parse_import_parameters, parse_c_function_import, parse_c_header_or_library, parse_c_import,
}
use plainspeak.Parser.Progress.{
  Keeps, Takes, Keeps-no_tokens, Keeps-pure, Keeps-bind, Keeps-when, Keeps-bind_taking,
  Keeps-of_fuel, Takes-bind_last, Keeps-advance,
}
use plainspeak.Parser.Progress.Rules.{Sound, Keeps-type_spec}
use plainspeak.Parser.Progress.Statements.{stmt_keeps}

module _ {m : ℕ} (g : Rules) (sound : Sound m g) where
  types_stay : Keeps m g.type_spec
  types_stay = Keeps-type_spec sound

  type_behind_article-Takes : (k : ℕ) → suc k ≤ m → Takes k (type_behind_article g)
  type_behind_article-Takes k h =
      Takes-bind_last _ _ _ (search stmt_keeps depth 12)
        λ _. Takes-bind_last _ _ _ (search stmt_keeps depth 12) λ _. sound.type_takes k h

  after_import_parameter-Keeps :
      {k : ℕ} (more : Parser (TypeSpecs × Bool)) (t : TypeSpec)
      → Keeps k more
      → Keeps k (after_import_parameter g more t)
  unfolding after_import_parameter
  after_import_parameter-Keeps more t again =
      Keeps-when _ _ _
        (Keeps-bind _ _ Keeps-advance λ _.
          Keeps-when _ _ _ (search stmt_keeps depth 12) (Keeps-bind _ _ again λ ts. Keeps-pure _))
        (Keeps-pure _)

  parse_import_parameters-Keeps : (n k : ℕ) → k ≤ n → k ≤ m → Keeps k (parse_import_parameters g n)
  unfolding parse_import_parameters
  parse_import_parameters-Keeps zero k b le = Keeps-no_tokens _ b
  parse_import_parameters-Keeps (suc n) k b le =
      Keeps-bind_taking _ _ (λ j h. type_behind_article-Takes j (omega arith))
        λ j t h.
          after_import_parameter-Keeps _ t
            (parse_import_parameters-Keeps n j (omega arith) (omega arith))

  parameters_stay : Keeps m (λ c. parse_import_parameters g (suc (remaining c)) c)
  parameters_stay = Keeps-of_fuel (parse_import_parameters g) parse_import_parameters-Keeps

  ruleset importers = (stmt_keeps, types_stay, parameters_stay)

  parse_c_object_import-Keeps : Keeps m (parse_c_object_import g)
  unfolding parse_c_object_import
  parse_c_object_import-Keeps = search importers depth 24

  parse_c_constant_import-Keeps : Keeps m (parse_c_constant_import g)
  unfolding parse_c_constant_import
  parse_c_constant_import-Keeps = search importers depth 24

  parse_c_function_import-Keeps : Keeps m (parse_c_function_import g)
  unfolding parse_c_function_import
  parse_c_function_import-Keeps = search importers depth 24

  parse_c_header_or_library-Keeps : (line : ℕ) → Keeps m (parse_c_header_or_library g line)
  unfolding parse_c_header_or_library
  parse_c_header_or_library-Keeps line = search importers depth 24

  pub parse_c_import-Keeps : (line : ℕ) → Keeps m (parse_c_import g line)
  unfolding parse_c_import
  parse_c_import-Keeps line =
      search
        (
          importers, parse_c_function_import-Keeps, parse_c_object_import-Keeps,
          parse_c_constant_import-Keeps, parse_c_header_or_library-Keeps,
        )
        depth 14
