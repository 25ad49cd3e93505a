-- ===== src/Parser/Types.antt =====
-- src/parser/parser.cpp: parseTypeSpec, its branches in order.
mod Forms
unfoldable pub use Forms.*
use plainspeak.Prelude.{
  ℕ, zero, suc, Bool, true, false, ◌||◌, not, Text, codes, List, [], ◌∷◌, ◌++◌,
}
use plainspeak.Prelude.Int.{ℤ, pos, ◌==ℤ◌, leb_ℤ}
use plainspeak.Ast.{
  OptExpr, TypeSpec, OptTypeSpec, TypeSpecs, TypeSpecKind, TypeSpecQualifiers, SpecInfo,
}
use plainspeak.Constants.Long.{bits64}
use plainspeak.Lexer.Tokenize.{TokKind}
use plainspeak.Parser.{
  Cursor, out_of_fuel, Parser, pure, ◌>>=◌, ◌>>◌, peek, advance, check_word, check_words, kind_at,
  error, advance_all, expect_word, expect_ident_name, remaining, when, refuse,
}
use plainspeak.Parser.Table.{Ask, one_of, of_kind, Rule, choose, words, on, Rules}

module _ (g : Rules) where
  -- A rule over the words and then a number, of which the words are advanced over.
  abbrev pub on_number : List Ask → List Ask → ℕ → Parser TypeSpec → Rule TypeSpec
  on_number before after n p = record {
    guard = before ++ (of_kind TokKind.number ∷ after);
    action = advance_all n >> p;
  }

  abbrev pub plain_kind : TypeSpecKind → Parser TypeSpec
  plain_kind k = pure (leaf_spec (default_info k))

  -- The branches for the types of one word or a few words.
  abbrev pub plain_rules : List (Rule TypeSpec)
  plain_rules =
      on ("void" ∷ []) (plain_kind TypeSpecKind.void)
      ∷ on ("complex" ∷ "decimal" ∷ []) (plain_kind TypeSpecKind.complex)
      ∷ on ("size" ∷ "type" ∷ []) (plain_kind TypeSpecKind.size_type)
      ∷ on ("difference" ∷ "type" ∷ []) (plain_kind TypeSpecKind.ptrdiff_type)
      ∷ on ("auto" ∷ []) (plain_kind TypeSpecKind.auto)
      ∷ on ("boolean" ∷ []) (plain_kind TypeSpecKind.boolean)
      ∷ on ("character" ∷ []) (plain_kind TypeSpecKind.character)
      ∷ on ("signed" ∷ "character" ∷ []) (plain_kind TypeSpecKind.signed_character)
      ∷ on ("unsigned" ∷ "character" ∷ []) (plain_kind TypeSpecKind.unsigned_character)
      ∷ on ("short" ∷ "integer" ∷ []) (plain_kind TypeSpecKind.short_integer)
      ∷ on ("unsigned" ∷ "short" ∷ "integer" ∷ []) (plain_kind TypeSpecKind.unsigned_short_integer)
      ∷ on ("integer" ∷ []) (plain_kind TypeSpecKind.integer)
      ∷ on ("unsigned" ∷ "integer" ∷ []) (plain_kind TypeSpecKind.unsigned_integer)
      ∷ on ("long" ∷ "long" ∷ "integer" ∷ []) (plain_kind TypeSpecKind.long_long_integer)
      ∷ on ("unsigned" ∷ "long" ∷ "long" ∷ "integer" ∷ [])
          (plain_kind TypeSpecKind.unsigned_long_long_integer)
      ∷ on ("long" ∷ "integer" ∷ []) (plain_kind TypeSpecKind.long_integer)
      ∷ on ("unsigned" ∷ "long" ∷ "integer" ∷ []) (plain_kind TypeSpecKind.unsigned_long_integer)
      ∷ on ("float" ∷ []) (plain_kind TypeSpecKind.float)
      ∷ on ("decimal" ∷ []) (plain_kind TypeSpecKind.decimal)
      ∷ on ("long" ∷ "decimal" ∷ []) (plain_kind TypeSpecKind.long_decimal)
      ∷ record { guard = of_kind TokKind.ident ∷ []; action = tagged_rule TypeSpecKind.alias }
      ∷ []

  unfoldable pub type_rules : List (Rule TypeSpec)
  unfolding parse_type_of parse_array parse_fixed_integer parse_stdint parse_bit_integer
      parse_function_type parse_pointer
  type_rules =
      on ("enumeration" ∷ []) (tagged_rule TypeSpecKind.enumeration)
      ∷ on ("union" ∷ []) (tagged_rule TypeSpecKind.union)
      ∷ on ("structure" ∷ []) (tagged_rule TypeSpecKind.structure)
      ∷ on ("null" ∷ "pointer" ∷ "type" ∷ []) (plain_kind TypeSpecKind.nullptr)
      ∷ on ("type" ∷ "of" ∷ []) (parse_type_of g)
      ∷ on ("array" ∷ "of" ∷ []) (parse_array g)
      ∷ on_number (words ("integer" ∷ "with" ∷ "exactly" ∷ [])) (words ("bits" ∷ [])) 3
          (parse_fixed_integer g false)
      ∷ on_number (words ("unsigned" ∷ "integer" ∷ "with" ∷ "exactly" ∷ [])) (words ("bits" ∷ [])) 4
          (parse_fixed_integer g true)
      ∷ on_number (words ("least" ∷ "integer" ∷ "with" ∷ "at" ∷ "least" ∷ [])) (words ("bits" ∷ []))
          5 (parse_stdint g false false)
      ∷ on_number (words ("fast" ∷ "integer" ∷ "with" ∷ "at" ∷ "least" ∷ [])) (words ("bits" ∷ []))
          5 (parse_stdint g false true)
      ∷ on_number (words ("unsigned" ∷ "least" ∷ "integer" ∷ "with" ∷ "at" ∷ "least" ∷ []))
          (words ("bits" ∷ [])) 6 (parse_stdint g true false)
      ∷ on_number (words ("unsigned" ∷ "fast" ∷ "integer" ∷ "with" ∷ "at" ∷ "least" ∷ []))
          (words ("bits" ∷ [])) 6 (parse_stdint g true true)
      ∷ record {
        guard = words ("function" ∷ []) ++ (one_of (codes "returning" ∷ codes "taking" ∷ []) ∷ []);
        action = advance_all 1 >> parse_function_type g;
      }
      ∷ on ("pointer" ∷ "to" ∷ []) (parse_pointer g)
      ∷ on ("bit" ∷ "integer" ∷ "with" ∷ "width" ∷ []) (parse_bit_integer g false)
      ∷ on ("unsigned" ∷ "bit" ∷ "integer" ∷ "with" ∷ "width" ∷ []) (parse_bit_integer g true)
      ∷ plain_rules

  unfoldable pub parse_type_spec : Parser TypeSpec
  unfolding parse_qualifiers type_rules choose error
  parse_type_spec = do
    q ← λ c. parse_qualifiers (suc (remaining c)) no_qualifiers c
    t ← choose type_rules (error expected_type)
    pure (finish q t)
