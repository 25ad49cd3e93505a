-- ===== src/Parser/Statements/Declarations.antt =====
-- src/parser/parser.cpp: parseDeclare, parseStructure, parseUnion, parseEnumeration and parseTypeAlias.
-- The loops over attributes, fields and enumerators take as fuel the tokens left when they are entered.
use Prim.Native.String.{String}
use plainspeak.Prelude.{
  ℕ, zero, suc, Bool, true, false, ◌||◌, not, Text, codes, List, [], ◌∷◌, ◌++◌, Option, none, some,
  if◌then◌else◌,
}
use plainspeak.Prelude.Int.{ℤ, pos, ◌==ℤ◌, ltb_ℤ}
use plainspeak.Constants.Long.{long_sub}
use plainspeak.Constants.Long.{bits64}
use plainspeak.Ast.{Expr, AggregateInitializer, StructureField, EnumeratorDef, PlainStmt, Stmt}
use plainspeak.Lexer.Tokenize.{TokKind}
use plainspeak.Parser.{
  Cursor, Parser, out_of_fuel, pure, ◌>>=◌, ◌>>◌, peek, check_word, check_words, kind_at, error,
  advance, advance_all, expect_word, expect_dot, expect_colon, expect_ident_name, remaining, when,
  refuse,
}
use plainspeak.Parser.Table.{Rules}
use plainspeak.Parser.Types.{number_here}
use plainspeak.Parser.Statements.{make_stmt, end_plain, flag_word, at_eof}

-- The attributes that parseDeclare reads before "as".
pub record Attributes : Type 0 where
  pub alignment : Option ℕ
  pub internal_linkage : Bool
  pub external_linkage : Bool
  pub static_storage : Bool
  pub deprecated : Bool
  pub deprecation_message : Text
  pub maybe_unused : Bool

abbrev pub no_attributes : Attributes
no_attributes = record {
  alignment = none;
  internal_linkage = false;
  external_linkage = false;
  static_storage = false;
  deprecated = false;
  deprecation_message = [];
  maybe_unused = false;
}

-- A message after "deprecated", or the text so far.
abbrev pub optional_message : Text → Parser Text
optional_message message =
    when (kind_at 0 TokKind.string) (do t ← advance; pure t.text) (pure message)

abbrev pub with_word : String → Cursor → Bool
with_word s = check_words 0 ((codes "with" ∷ []) ∷ (codes s ∷ []) ∷ [])

abbrev pub with_words : String → String → Cursor → Bool
with_words s t = check_words 0 ((codes "with" ∷ []) ∷ (codes s ∷ []) ∷ (codes t ∷ []) ∷ [])

unfoldable pub parse_alignment : Parser ℕ
unfolding kind_at peek error advance
parse_alignment = do
  refuse (λ c. not (kind_at 0 TokKind.number c) || number_here (λ n. n ==ℤ pos 0) c)
      (codes "alignment needs a positive whole-number constant")
  t ← advance
  pure (bits64 t.num)

unfoldable pub parse_attributes : ℕ → Attributes → Parser Attributes
unfolding check_words kind_at advance advance_all parse_alignment
parse_attributes zero a = λ c. out_of_fuel
parse_attributes (suc n) a =
    let more : Attributes → Parser Attributes = λ b. parse_attributes n b in
    when (with_word "alignment")
      (advance_all 2 >> (parse_alignment >>= λ n. more (record a { alignment = some n })))
      (when (with_words "internal" "linkage")
        (advance_all 3 >> more (record a { internal_linkage = true }))
        (when (with_words "external" "linkage")
          (advance_all 3 >> more (record a { external_linkage = true }))
          (when (with_words "static" "storage")
            (advance_all 3 >> more (record a { static_storage = true }))
            (when (with_word "deprecated")
              (advance_all 2
                >> (optional_message a.deprecation_message >>= λ text.
                    more (record a { deprecated = true; deprecation_message = text })))
              (when (with_words "maybe" "unused")
                (advance_all 3 >> more (record a { maybe_unused = true })) (pure a))))))

-- A name, ":" and the rest.
abbrev pub head_name : Parser Text
head_name = do name ← expect_ident_name; expect_colon; pure name

abbrev pub eof_before_end : Text → Text
eof_before_end word = codes "reached end of file while looking for \"End " ++ word ++ codes ".\""

abbrev pub at_end : Text → Cursor → Bool
at_end word = check_words 0 ((codes "end" ∷ []) ∷ (word ∷ []) ∷ [])

abbrev pub signed_value : Bool → ℤ → ℤ
signed_value negative value = if negative then long_sub (pos 0) value else value

-- The value of an enumerator behind "as".
unfoldable pub parse_explicit_value : Parser (Option ℤ)
unfolding check_word kind_at error advance
parse_explicit_value =
    when (check_word (codes "as"))
      (do
        advance
        negative ← flag_word (codes "minus")
        refuse (λ c. not (kind_at 0 TokKind.number c))
            (codes "an Enumerator explicit value must be a whole-number literal")
        t ← advance
        pure (some (signed_value negative t.num)))
      (pure none)

unfoldable pub parse_enumerators : ℕ → Parser (List EnumeratorDef)
unfolding check_words kind_at error expect_word expect_ident_name expect_dot parse_explicit_value
parse_enumerators zero = λ c. out_of_fuel
parse_enumerators (suc n) =
    let more : Parser (List EnumeratorDef) = parse_enumerators n in
    when (at_end (codes "enumeration")) (pure []) (do
      refuse at_eof (eof_before_end (codes "enumeration"))
      expect_word (codes "enumerator")
      name ← expect_ident_name
      value ← parse_explicit_value
      expect_dot
      rest ← more
      pure (record { name = name; explicit_value = value } ∷ rest))

unfoldable pub parse_enumeration : ℕ → Parser Stmt
unfolding expect_ident_name expect_colon parse_enumerators advance_all expect_dot make_stmt
parse_enumeration line = do
  name ← head_name
  enumerators ← λ c. parse_enumerators (suc (remaining c)) c
  advance_all 2
  end_plain (PlainStmt.enumeration_stmt name enumerators) line

module _ (g : Rules) where
  unfoldable pub parse_declare : ℕ → Parser Stmt
  unfolding check_word check_words advance advance_all expect_word expect_ident_name
      parse_attributes expect_dot make_stmt
  parse_declare line = do
    name ← expect_ident_name
    a ← λ c. parse_attributes (suc (remaining c)) no_attributes c
    expect_word (codes "as")
    thread_local ←
        when (check_words 0 ((codes "thread" ∷ []) ∷ (codes "local" ∷ []) ∷ []))
          (advance_all 2 >> pure true) (pure false)
    constexpr_object ← flag_word (codes "constexpr")
    type ← g.type_spec
    (initializer, aggregate) ← initializers
    end_plain
        (PlainStmt.native_decl (record {
          name = name;
          type = type;
          initializer = initializer;
          aggregate_initializer = aggregate;
          thread_local = thread_local;
          alignment = a.alignment;
          constexpr_object = constexpr_object;
          internal_linkage = a.internal_linkage;
          external_linkage = a.external_linkage;
          static_storage = a.static_storage;
          deprecated = a.deprecated;
          deprecation_message = a.deprecation_message;
          maybe_unused = a.maybe_unused;
        }))
        line
    where
      initializers : Parser (Option Expr × Option AggregateInitializer)
      initializers =
          when (check_word (codes "with"))
            (do
              advance
              when (check_word (codes "value")) (do advance; e ← g.expr; pure (some e, none))
                  (do a ← g.aggregate_block; pure (none, some a)))
            (pure (none, none))

  unfoldable pub parse_bit_field : Parser StructureField
  unfolding check_word kind_at peek error advance advance_all expect_word expect_ident_name
      expect_dot
  parse_bit_field = do
    advance_all 2
    name ← when (check_word (codes "as")) (pure []) expect_ident_name
    expect_word (codes "as")
    type ← g.type_spec
    expect_word (codes "with")
    expect_word (codes "width")
    refuse (λ c. not (kind_at 0 TokKind.number c) || number_here (λ n. ltb_ℤ n (pos 0)) c)
        (codes "a Bit field width must be a non-negative whole-number literal")
    t ← advance
    expect_dot
    pure (record {
      name = name;
      type = type;
      bit_width = some (bits64 t.num);
      flexible_array = false;
    })

  -- A name, "as", a type and ".", behind the words for the kind of field.
  abbrev pub typed_field : Bool → Parser StructureField
  typed_field flexible = do
    name ← expect_ident_name
    expect_word (codes "as")
    type ← g.type_spec
    expect_dot
    pure (record { name = name; type = type; bit_width = none; flexible_array = flexible })

  unfoldable pub parse_field : Parser StructureField
  unfolding check_words advance_all expect_word expect_ident_name expect_dot parse_bit_field
  parse_field =
      when (check_words 0 ((codes "bit" ∷ []) ∷ (codes "field" ∷ []) ∷ [])) parse_bit_field (
        when (check_words 0 ((codes "flexible" ∷ []) ∷ (codes "field" ∷ []) ∷ []))
          (advance_all 2 >> typed_field true) (expect_word (codes "field") >> typed_field false))

  unfoldable pub parse_fields : Text → ℕ → Parser (List StructureField)
  unfolding check_words kind_at error parse_field
  parse_fields word zero = λ c. out_of_fuel
  parse_fields word (suc n) =
      let more : Parser (List StructureField) = parse_fields word n in
      when (at_end word) (pure []) (do
        refuse at_eof (eof_before_end word)
        field ← parse_field
        rest ← more
        pure (field ∷ rest))

  unfoldable pub parse_structure : Text → (Text → List StructureField → PlainStmt) → ℕ → Parser Stmt
  unfolding expect_ident_name expect_colon parse_fields advance_all expect_dot make_stmt
  parse_structure word node line = do
    name ← head_name
    fields ← λ c. parse_fields word (suc (remaining c)) c
    advance_all 2
    end_plain (node name fields) line

  unfoldable pub parse_type_alias : ℕ → Parser Stmt
  unfolding expect_word expect_ident_name expect_dot make_stmt
  parse_type_alias line = do
    name ← expect_ident_name
    expect_word (codes "as")
    target ← g.type_spec
    end_plain (PlainStmt.type_alias name target) line
