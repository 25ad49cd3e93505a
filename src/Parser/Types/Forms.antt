-- ===== src/Parser/Types/Forms.antt =====
-- src/parser/parser.cpp: what the branches of parseTypeSpec do. The loops over qualifiers and parameter
-- types take as fuel the tokens left; a number that becomes a size_t wraps to 64 bits.
use plainspeak.Prelude.{ℕ, zero, suc, Bool, true, false, ◌||◌, not, Text, codes, [], ◌∷◌}
use plainspeak.Prelude.Int.{ℤ, pos, ◌==ℤ◌, leb_ℤ}
use plainspeak.Ast.{
  OptExpr, TypeSpec, OptTypeSpec, TypeSpecs, TypeSpecKind, TypeSpecQualifiers, SpecInfo,
}
use plainspeak.Constants.Long.{bits64}
use plainspeak.Lexer.Tokenize.{TokKind}
use plainspeak.Parser.{
  Cursor, out_of_fuel, Parser, pure, ◌>>=◌, ◌>>◌, peek, advance, check_word, check_words, kind_at,
  error, advance_all, expect_word, expect_ident_name, remaining, when, refuse,
}
use plainspeak.Parser.Table.{Rules}

abbrev pub no_qualifiers : TypeSpecQualifiers
no_qualifiers = record {
  is_const = false;
  is_volatile = false;
  is_restrict = false;
  is_atomic = false;
}

abbrev pub default_info : TypeSpecKind → SpecInfo
default_info k = record {
  kind = k;
  array_bound = 0;
  tag = [];
  type_of_name = [];
  bit_width = 0;
  bit_int_unsigned = false;
  qualifiers = no_qualifiers;
  variadic = false;
  exact_width = 0;
  fixed_unsigned = false;
  stdint_unsigned = false;
  stdint_fast = false;
}

abbrev pub leaf_spec : SpecInfo → TypeSpec
leaf_spec i =
    TypeSpec.type_spec i OptTypeSpec.null_spec OptExpr.null_expr OptTypeSpec.null_spec
      TypeSpecs.no_specs OptExpr.null_expr

abbrev pub tagged : TypeSpecKind → Text → TypeSpec
tagged k tag = leaf_spec (record (default_info k) { tag = tag })

-- The lambda `finish`.
abbrev pub finish : TypeSpecQualifiers → TypeSpec → TypeSpec
finish q (TypeSpec.type_spec i pointee of returns params len) =
    TypeSpec.type_spec (record i { qualifiers = q }) pointee of returns params len

unfoldable pub parse_qualifiers : ℕ → TypeSpecQualifiers → Parser TypeSpecQualifiers
unfolding check_word advance
parse_qualifiers zero q = λ c. out_of_fuel
parse_qualifiers (suc n) q =
    let more : TypeSpecQualifiers → Parser TypeSpecQualifiers =
      λ r. advance >> parse_qualifiers n r in
    when (check_word (codes "constant")) (more (record q { is_const = true })) (
      when (check_word (codes "volatile")) (more (record q { is_volatile = true })) (
        when (check_word (codes "restricted")) (more (record q { is_restrict = true }))
          (when (check_word (codes "atomic")) (more (record q { is_atomic = true })) (pure q))))

abbrev pub tagged_rule : TypeSpecKind → Parser TypeSpec
tagged_rule k = do tag ← expect_ident_name; pure (tagged k tag)

abbrev pub number_here : (ℤ → Bool) → Cursor → Bool
number_here test c = test (peek c 0).num

abbrev pub expected_type : Text
expected_type =
    codes
      "expected a C type such as \"constant integer\", \"pointer to volatile integer\", \"restricted pointer to integer\", \"atomic integer\", \"null pointer type\", \"array of integer with length 4\", \"structure point\", or \"enumeration color\""

module _ (g : Rules) where
  unfoldable pub parse_type_of : Parser TypeSpec
  unfolding check_word kind_at advance expect_ident_name error
  parse_type_of =
      when (check_word (codes "unqualified")) (advance >> of_what TypeSpecKind.type_of_unqual)
        (of_what TypeSpecKind.type_of)
    where
      of_what : TypeSpecKind → Parser TypeSpec
      of_what k =
          when (kind_at 0 TokKind.lparen)
            (do
              advance
              e ← g.expr
              refuse (λ c. not (kind_at 0 TokKind.rparen c))
                  (codes "type of expression needs a closing parenthesis")
              advance
              pure (
                  TypeSpec.type_spec (default_info k) OptTypeSpec.null_spec (OptExpr.the_expr e)
                    OptTypeSpec.null_spec TypeSpecs.no_specs OptExpr.null_expr))
            (do
              name ← expect_ident_name
              pure (leaf_spec (record (default_info k) { type_of_name = name })))

  unfoldable pub parse_array : Parser TypeSpec
  unfolding kind_at peek advance expect_word error
  parse_array = do
    element ← g.type_spec
    expect_word (codes "with")
    expect_word (codes "length")
    when (kind_at 0 TokKind.number)
        (do
          refuse (number_here λ n. leb_ℤ n (pos 0))
              (codes "a fixed native array length must be a positive whole-number literal")
          t ← advance
          pure (array element (bits64 t.num) OptExpr.null_expr))
        (do len ← g.expr; pure (array element 0 (OptExpr.the_expr len)))
    where
      array : TypeSpec → ℕ → OptExpr → TypeSpec
      array element bound len =
          TypeSpec.type_spec (record (default_info TypeSpecKind.array) { array_bound = bound })
            (OptTypeSpec.the_spec element) OptExpr.null_expr OptTypeSpec.null_spec
            TypeSpecs.no_specs len

  -- Behind the words before the width; `unsigned_value` is whether the first of them was "unsigned".
  unfoldable pub parse_fixed_integer : Bool → Parser TypeSpec
  unfolding kind_at peek advance expect_word error
  parse_fixed_integer unsigned_value = do
    refuse (λ c. not (kind_at 0 TokKind.number c) || number_here (λ n. n ==ℤ pos 0) c)
        (codes "an exact-width integer needs a positive width")
    t ← advance
    expect_word (codes "bits")
    pure (
        leaf_spec (record (default_info TypeSpecKind.fixed_integer) {
          exact_width = bits64 t.num;
          fixed_unsigned = unsigned_value;
        }))

  unfoldable pub parse_stdint : Bool → Bool → Parser TypeSpec
  unfolding peek advance expect_word error
  parse_stdint unsigned_value fast = do
    refuse (number_here λ n. n ==ℤ pos 0) (codes "a least or fast integer needs a positive width")
    t ← advance
    expect_word (codes "bits")
    pure (
        leaf_spec (record (default_info TypeSpecKind.stdint_integer) {
          exact_width = bits64 t.num;
          stdint_unsigned = unsigned_value;
          stdint_fast = fast;
        }))

  unfoldable pub parse_bit_integer : Bool → Parser TypeSpec
  unfolding kind_at peek advance error
  parse_bit_integer unsigned_value = do
    refuse (λ c. not (kind_at 0 TokKind.number c) || number_here (λ n. n ==ℤ pos 0) c)
        (codes "a bit integer needs a positive width")
    t ← advance
    pure (
        leaf_spec (record (default_info TypeSpecKind.bit_int) {
          bit_width = bits64 t.num;
          bit_int_unsigned = unsigned_value;
        }))

  -- Behind a parameter type: "and variadic parameters", "and" and more of them, or neither.
  unfoldable pub after_parameter : Parser (TypeSpecs × Bool) → TypeSpec → Parser (TypeSpecs × Bool)
  unfolding check_word check_words advance advance_all
  after_parameter more t =
      when
        (check_words 0
          ((codes "and" ∷ []) ∷ (codes "variadic" ∷ []) ∷ (codes "parameters" ∷ []) ∷ []))
        (do advance_all 3; pure (TypeSpecs.a_spec t TypeSpecs.no_specs, true))
        (when (check_word (codes "and"))
          (do advance; (ts, variadic) ← more; pure (TypeSpecs.a_spec t ts, variadic))
          (pure (TypeSpecs.a_spec t TypeSpecs.no_specs, false)))

  -- The parameter types of a function type, and whether it is variadic.
  unfoldable pub parse_parameter_types : ℕ → Parser (TypeSpecs × Bool)
  unfolding after_parameter
  parse_parameter_types zero = λ c. out_of_fuel
  parse_parameter_types (suc n) =
      let more : Parser (TypeSpecs × Bool) = parse_parameter_types n in
      g.type_spec >>= after_parameter more

  unfoldable pub parse_function_type : Parser TypeSpec
  unfolding check_word check_words advance advance_all expect_word parse_parameter_types
  parse_function_type =
      when (check_word (codes "taking"))
        (do
          advance
          (params, variadic) ← taken
          expect_word (codes "returning")
          returning params variadic)
        (do advance; returning TypeSpecs.no_specs false)
    where
      taken : Parser (TypeSpecs × Bool)
      taken =
          when (check_words 0 ((codes "no" ∷ []) ∷ (codes "parameters" ∷ []) ∷ []))
            (advance_all 2 >> pure (TypeSpecs.no_specs, false))
            (λ c. parse_parameter_types (suc (remaining c)) c)

      returning : TypeSpecs → Bool → Parser TypeSpec
      returning params variadic = do
        t ← g.type_spec
        pure (
            TypeSpec.type_spec (record (default_info TypeSpecKind.function) { variadic = variadic })
              OptTypeSpec.null_spec OptExpr.null_expr (OptTypeSpec.the_spec t) params
              OptExpr.null_expr)

  unfoldable pub parse_pointer : Parser TypeSpec
  parse_pointer = do
    pointee ← g.type_spec
    pure (
        TypeSpec.type_spec (default_info TypeSpecKind.pointer) (OptTypeSpec.the_spec pointee)
          OptExpr.null_expr OptTypeSpec.null_spec TypeSpecs.no_specs OptExpr.null_expr)
