-- ===== src/Parser/Progress/Rules/Types.antt =====
-- parseTypeSpec of src/parser/parser.cpp takes a token.
use plainspeak.Prelude.{ℕ, zero, suc, ◌≤◌, ◌≡◌, refl, Bool, true, false, List, arith}
use plainspeak.Ast.{TypeSpec, TypeSpecs, TypeSpecKind, TypeSpecQualifiers}
use plainspeak.Parser.{Parser, ◌>>◌, advance, advance_all, remaining}
use plainspeak.Parser.Table.{Ask, Rules}
use plainspeak.Parser.Types.{
  no_qualifiers, expected_type, parse_qualifiers, parse_type_of, parse_array, parse_fixed_integer,
  parse_stdint, parse_bit_integer, after_parameter, parse_parameter_types, parse_function_type,
  parse_pointer, type_rules, parse_type_spec, tagged_rule, plain_kind,
}
use plainspeak.Parser.Progress.{
  Keeps, Takes, Keeps-no_tokens, Keeps-pure, Keeps-bind, Keeps-when, Keeps-bind_taking,
  Keeps-of_fuel, Takes-bind_first, Takes-bind_last, Keeps-advance,
}
use plainspeak.Parser.Progress.Steps.{
  keeps_rules, Keeps-when-Inside, Begins, Begins-advance, Begins-expect_ident_name,
  check_word-Inside, Fits, AllFit, none_left, ◌&◌, Begins-bind, Begins-advance_all, choose-Takes,
  starts,
}
use plainspeak.Parser.Progress.Rules.{Sound, Keeps-expr, Keeps-type_spec}

parse_qualifiers-Keeps : (n m : ℕ) (q : TypeSpecQualifiers) → m ≤ n → Keeps m (parse_qualifiers n q)
unfolding parse_qualifiers
parse_qualifiers-Keeps zero m q b = Keeps-no_tokens _ b
parse_qualifiers-Keeps (suc n) m q b =
    let more : (r : TypeSpecQualifiers) (k : ℕ)
        → suc k ≤ m
        → Begins k (advance >> parse_qualifiers n r) =
      λ r k h. Begins-bind _ _ Begins-advance λ _. parse_qualifiers-Keeps n k r (omega arith) in
    Keeps-when-Inside _ _ _ (check_word-Inside _) (more _) (
      Keeps-when-Inside _ _ _ (check_word-Inside _) (more _) (
        Keeps-when-Inside _ _ _ (check_word-Inside _) (more _)
          (Keeps-when-Inside _ _ _ (check_word-Inside _) (more _) (Keeps-pure q))))

tagged_rule-Keeps : {m : ℕ} (k : TypeSpecKind) → Keeps m (tagged_rule k)
tagged_rule-Keeps k = search keeps_rules

module _ {m : ℕ} (g : Rules) (sound : Sound m g) where
  expr-Keeps : Keeps m g.expr
  expr-Keeps = Keeps-expr sound

  type-Keeps : Keeps m g.type_spec
  type-Keeps = Keeps-type_spec sound

  parse_type_of-Keeps : Keeps m (parse_type_of g)
  unfolding parse_type_of
  parse_type_of-Keeps = search (keeps_rules, expr-Keeps) depth 10

  parse_array-Keeps : Keeps m (parse_array g)
  unfolding parse_array
  parse_array-Keeps = search (keeps_rules, expr-Keeps, type-Keeps) depth 12

  parse_fixed_integer-Keeps : (u : Bool) → Keeps m (parse_fixed_integer g u)
  unfolding parse_fixed_integer
  parse_fixed_integer-Keeps u = search keeps_rules depth 12

  parse_stdint-Keeps : (u f : Bool) → Keeps m (parse_stdint g u f)
  unfolding parse_stdint
  parse_stdint-Keeps u f = search keeps_rules depth 12

  parse_bit_integer-Keeps : (u : Bool) → Keeps m (parse_bit_integer g u)
  unfolding parse_bit_integer
  parse_bit_integer-Keeps u = search keeps_rules depth 12

  after_parameter-Keeps :
      {k : ℕ} (more : Parser (TypeSpecs × Bool)) (t : TypeSpec)
      → Keeps k more
      → Keeps k (after_parameter g more t)
  unfolding after_parameter
  after_parameter-Keeps more t again = Keeps-when _ _ _ (search keeps_rules depth 9) (
      Keeps-when _ _ _ (Keeps-bind _ _ Keeps-advance λ _. Keeps-bind _ _ again λ ts. Keeps-pure _)
        (Keeps-pure _))

  parse_parameter_types-Keeps : (n k : ℕ) → k ≤ n → k ≤ m → Keeps k (parse_parameter_types g n)
  unfolding parse_parameter_types
  parse_parameter_types-Keeps zero k b le = Keeps-no_tokens _ b
  parse_parameter_types-Keeps (suc n) k b le =
      Keeps-bind_taking _ _ (λ j h. sound.type_takes j (omega arith))
        λ j t h.
          after_parameter-Keeps _ t (parse_parameter_types-Keeps n j (omega arith) (omega arith))

  taken-Keeps : Keeps m (λ c. parse_parameter_types g (suc (remaining c)) c)
  taken-Keeps = Keeps-of_fuel (parse_parameter_types g) parse_parameter_types-Keeps

  parse_function_type-Keeps : Keeps m (parse_function_type g)
  unfolding parse_function_type
  parse_function_type-Keeps = search (keeps_rules, type-Keeps, taken-Keeps) depth 12

  parse_pointer-Keeps : Keeps m (parse_pointer g)
  unfolding parse_pointer
  parse_pointer-Keeps = search (keeps_rules, type-Keeps)

  -- A rule that advances over the words of its guard, of which there is one.
  led-Fits :
      (guard : List Ask) (n : ℕ) (p : Parser TypeSpec)
      → starts guard ≡ true
      → Keeps m p
      → Fits m (record { guard = guard; action = advance_all (suc n) >> p })
  led-Fits guard n p s k = record {
    asks_first = s;
    begins = Begins-bind _ _ (Begins-advance_all n) λ _. k;
  }

  plain-Fits :
      (guard : List Ask) (n : ℕ) (k : TypeSpecKind)
      → starts guard ≡ true
      → Fits m (record { guard = guard; action = advance_all (suc n) >> plain_kind g k })
  plain-Fits guard n k s = led-Fits guard n _ s (Keeps-pure _)

  type_rules-AllFit : AllFit m (type_rules g)
  unfolding type_rules
  type_rules-AllFit =
      led-Fits _ 0 _ refl (tagged_rule-Keeps _)
      & led-Fits _ 0 _ refl (tagged_rule-Keeps _)
      & led-Fits _ 0 _ refl (tagged_rule-Keeps _)
      & plain-Fits _ 2 _ refl
      & led-Fits _ 1 _ refl parse_type_of-Keeps
      & led-Fits _ 1 _ refl parse_array-Keeps
      & led-Fits _ 2 _ refl (parse_fixed_integer-Keeps false)
      & led-Fits _ 3 _ refl (parse_fixed_integer-Keeps true)
      & led-Fits _ 4 _ refl (parse_stdint-Keeps false false)
      & led-Fits _ 4 _ refl (parse_stdint-Keeps false true)
      & led-Fits _ 5 _ refl (parse_stdint-Keeps true false)
      & led-Fits _ 5 _ refl (parse_stdint-Keeps true true)
      & led-Fits _ 0 _ refl parse_function_type-Keeps
      & led-Fits _ 1 _ refl parse_pointer-Keeps
      & led-Fits _ 3 _ refl (parse_bit_integer-Keeps false)
      & led-Fits _ 4 _ refl (parse_bit_integer-Keeps true)
      & plain-Fits _ 0 _ refl
      & plain-Fits _ 1 _ refl
      & plain-Fits _ 1 _ refl
      & plain-Fits _ 1 _ refl
      & plain-Fits _ 0 _ refl
      & plain-Fits _ 0 _ refl
      & plain-Fits _ 0 _ refl
      & plain-Fits _ 1 _ refl
      & plain-Fits _ 1 _ refl
      & plain-Fits _ 1 _ refl
      & plain-Fits _ 2 _ refl
      & plain-Fits _ 0 _ refl
      & plain-Fits _ 1 _ refl
      & plain-Fits _ 2 _ refl
      & plain-Fits _ 3 _ refl
      & plain-Fits _ 1 _ refl
      & plain-Fits _ 2 _ refl
      & plain-Fits _ 0 _ refl
      & plain-Fits _ 0 _ refl
      & plain-Fits _ 1 _ refl
      & record {
        asks_first = refl;
        begins = Begins-bind _ _ Begins-expect_ident_name λ tag. Keeps-pure _;
      }
      & none_left

  pub parse_type_spec-Takes : Takes m (parse_type_spec g)
  unfolding parse_type_spec
  parse_type_spec-Takes =
      Takes-bind_last m _ _
        (Keeps-of_fuel (λ n. parse_qualifiers n no_qualifiers)
          λ n k b le. parse_qualifiers-Keeps n k no_qualifiers b)
        λ q.
          Takes-bind_first m _ _ (choose-Takes m (type_rules g) expected_type type_rules-AllFit)
            λ t. Keeps-pure _
