-- ===== src/Parser/Progress/Statements/Declarations.antt =====
-- parseDeclare and the definitions of types of src/parser/parser.cpp put no token back.
use Prim.Native.String.{String}
use plainspeak.Prelude.{ℕ, zero, suc, ◌≤◌, ◌≡◌, Bool, true, Text, List, [], ◌∷◌, codes, arith}
use plainspeak.Ast.{StructureField, PlainStmt}
use plainspeak.Parser.{Cursor, ◌>>◌, advance_all, remaining, refuse}
use plainspeak.Parser.Table.{Rules}
use plainspeak.Parser.Statements.{at_eof}
use plainspeak.Parser.Statements.Declarations.{
  Attributes, no_attributes, parse_alignment, parse_attributes, parse_explicit_value,
  parse_enumerators, parse_enumeration, parse_declare, parse_bit_field, parse_field, parse_fields,
  parse_structure, parse_type_alias, optional_message, typed_field, with_word, with_words,
}
use plainspeak.Parser.Progress.{
  Ended, Inside, Keeps, Takes, Keeps-no_tokens, Keeps-pure, Keeps-bind, Keeps-when,
  Keeps-bind_taking, Keeps-of_fuel, Takes-bind_first,
}
use plainspeak.Parser.Progress.Steps.{
  Keeps-expect_ident_name, Keeps-when-Inside, Takes-when, check_words-Inside, Begins, Begins-bind,
  Begins-advance_all,
}
use plainspeak.Parser.Progress.Rules.{
  Sound, Sound-less, Keeps-expr, Keeps-type_spec, Keeps-aggregate_block,
}
use plainspeak.Parser.Progress.Statements.{stmt_keeps, Keeps-expect_dot, Takes-expect_word}

parse_alignment-Keeps : {m : ℕ} → Keeps m parse_alignment
unfolding parse_alignment
parse_alignment-Keeps = search stmt_keeps depth 12

optional_message-Keeps : {m : ℕ} (text : Text) → Keeps m (optional_message text)
optional_message-Keeps text = search stmt_keeps depth 12

with_word-Inside : (s : String) (c : Cursor) → Ended c → with_word s c ≡ true → Inside c
with_word-Inside s c e h = check_words-Inside (codes "with" ∷ []) ((codes s ∷ []) ∷ []) c e h

with_words-Inside : (s t : String) (c : Cursor) → Ended c → with_words s t c ≡ true → Inside c
with_words-Inside s t c e h =
    check_words-Inside (codes "with" ∷ []) ((codes s ∷ []) ∷ (codes t ∷ []) ∷ []) c e h

parse_attributes-Keeps : (n m : ℕ) (a : Attributes) → m ≤ n → Keeps m (parse_attributes n a)
unfolding parse_attributes
parse_attributes-Keeps zero m a b = Keeps-no_tokens _ b
parse_attributes-Keeps (suc n) m a b =
    let more : (r : Attributes) (k : ℕ) → suc k ≤ m → Keeps k (parse_attributes n r) =
      λ r k h. parse_attributes-Keeps n k r (omega arith) in
    let flag : (r : Attributes) (k : ℕ)
        → suc k ≤ m
        → Begins k (advance_all 3 >> parse_attributes n r) =
      λ r k h. Begins-bind _ _ (Begins-advance_all 2) λ _. more r k h in
    Keeps-when-Inside (with_word "alignment") _ _ (with_word-Inside "alignment")
      (λ k h.
        Begins-bind _ _ (Begins-advance_all 1)
          λ _. Keeps-bind _ _ parse_alignment-Keeps λ x. more _ k h)
      (Keeps-when-Inside (with_words "internal" "linkage") _ _
        (with_words-Inside "internal" "linkage") (flag _)
        (Keeps-when-Inside (with_words "external" "linkage") _ _
          (with_words-Inside "external" "linkage") (flag _)
          (Keeps-when-Inside (with_words "static" "storage") _ _
            (with_words-Inside "static" "storage") (flag _)
            (Keeps-when-Inside (with_word "deprecated") _ _ (with_word-Inside "deprecated")
              (λ k h.
                Begins-bind _ _ (Begins-advance_all 1)
                  λ _. Keeps-bind _ _ (optional_message-Keeps _) λ x. more _ k h)
              (Keeps-when-Inside (with_words "maybe" "unused") _ _
                (with_words-Inside "maybe" "unused") (flag _) (Keeps-pure a))))))

attributes_stay : {m : ℕ} → Keeps m (λ c. parse_attributes (suc (remaining c)) no_attributes c)
attributes_stay =
    Keeps-of_fuel (λ n. parse_attributes n no_attributes)
      λ n k b le. parse_attributes-Keeps n k no_attributes b

parse_explicit_value-Keeps : {m : ℕ} → Keeps m parse_explicit_value
unfolding parse_explicit_value
parse_explicit_value-Keeps = search stmt_keeps depth 14

-- The test for the end of the file in front of an item.
pub refuse_eof-Keeps : {m : ℕ} (message : Text) → Keeps m (refuse at_eof message)
refuse_eof-Keeps message = search stmt_keeps depth 12

parse_enumerators-Keeps : (n m : ℕ) → m ≤ n → Keeps m (parse_enumerators n)
unfolding parse_enumerators
parse_enumerators-Keeps zero m b = Keeps-no_tokens _ b
parse_enumerators-Keeps (suc n) m b = Keeps-when _ _ _ (Keeps-pure _) (
    Keeps-bind _ _ (refuse_eof-Keeps _) λ _.
      Keeps-bind_taking _ _ (λ k h. Takes-expect_word _)
        λ k t h. Keeps-bind _ _ Keeps-expect_ident_name λ name.
          Keeps-bind _ _ parse_explicit_value-Keeps λ value.
            Keeps-bind _ _ Keeps-expect_dot
              λ _. Keeps-bind _ _ (parse_enumerators-Keeps n k (omega arith)) λ rest. Keeps-pure _)

enumerators_stay : {m : ℕ} → Keeps m (λ c. parse_enumerators (suc (remaining c)) c)
enumerators_stay = Keeps-of_fuel parse_enumerators λ n k b le. parse_enumerators-Keeps n k b

pub parse_enumeration-Keeps : {m : ℕ} (line : ℕ) → Keeps m (parse_enumeration line)
unfolding parse_enumeration
parse_enumeration-Keeps line = search (stmt_keeps, enumerators_stay) depth 14

module _ {m : ℕ} (g : Rules) (sound : Sound m g) where
  exprs_stay : Keeps m g.expr
  exprs_stay = Keeps-expr sound

  types_stay : Keeps m g.type_spec
  types_stay = Keeps-type_spec sound

  blocks_stay : Keeps m g.aggregate_block
  blocks_stay = Keeps-aggregate_block sound

  ruleset declarers = (stmt_keeps, exprs_stay, types_stay, blocks_stay, attributes_stay)

  pub parse_declare-Keeps : (line : ℕ) → Keeps m (parse_declare g line)
  unfolding parse_declare
  parse_declare-Keeps line = search declarers depth 24

  pub parse_type_alias-Keeps : (line : ℕ) → Keeps m (parse_type_alias g line)
  unfolding parse_type_alias
  parse_type_alias-Keeps line = search declarers depth 14

  typed_field-Keeps : (flexible : Bool) → Keeps m (typed_field g flexible)
  typed_field-Keeps flexible = search declarers depth 14

  parse_bit_field-Begins : Begins m (parse_bit_field g)
  unfolding parse_bit_field
  parse_bit_field-Begins = Begins-bind _ _ (Begins-advance_all 1) λ _. search declarers depth 20

  parse_field-Takes : Takes m (parse_field g)
  unfolding parse_field
  parse_field-Takes =
      Takes-when _ _ _ (check_words-Inside (codes "bit" ∷ []) ((codes "field" ∷ []) ∷ []))
        parse_bit_field-Begins
        (Takes-when _ _ _ (check_words-Inside (codes "flexible" ∷ []) ((codes "field" ∷ []) ∷ []))
          (Begins-bind _ _ (Begins-advance_all 1) λ _. typed_field-Keeps true)
          (Takes-bind_first _ _ _ (Takes-expect_word _) λ _. typed_field-Keeps _))

module _ (g : Rules) where
  parse_fields-Keeps : (word : Text) (n k : ℕ) → k ≤ n → Sound k g → Keeps k (parse_fields g word n)
  unfolding parse_fields
  parse_fields-Keeps word zero k b s = Keeps-no_tokens _ b
  parse_fields-Keeps word (suc n) k b s = Keeps-when _ _ _ (Keeps-pure _) (
      Keeps-bind _ _ (refuse_eof-Keeps _) λ _.
        Keeps-bind_taking _ _ (λ j h. parse_field-Takes g (Sound-less s j (omega arith)))
          λ j t h.
            Keeps-bind _ _
              (parse_fields-Keeps word n j (omega arith) (Sound-less s j (omega arith)))
              λ rest. Keeps-pure _)

  module _ {m : ℕ} (sound : Sound m g) where
    fields_stay : (word : Text) → Keeps m (λ c. parse_fields g word (suc (remaining c)) c)
    fields_stay word =
        Keeps-of_fuel (parse_fields g word)
          λ n k b le. parse_fields-Keeps word n k b (Sound-less sound k le)

    pub parse_structure-Keeps :
        (word : Text) (node : Text → List StructureField → PlainStmt) (line : ℕ)
        → Keeps m (parse_structure g word node line)
    unfolding parse_structure
    parse_structure-Keeps word node line = search (stmt_keeps, fields_stay) depth 14
