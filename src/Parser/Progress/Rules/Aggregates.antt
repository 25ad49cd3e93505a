-- ===== src/Parser/Progress/Rules/Aggregates.antt =====
-- parseAggregateBlock, parseCompoundLiteral, parseGenericSelection and parseVaArg of
-- src/parser/parser.cpp end, and the first takes a token.
use plainspeak.Prelude.{ℕ, zero, suc, ◌≤◌, ◌≡◌, refl, true, Text, List, arith}
use plainspeak.Ast.{OptExpr, TypeSpec, AggregateInitKind, Entries, Associations}
use plainspeak.Parser.{Parser, ◌>>◌, advance_all, remaining}
use plainspeak.Parser.Table.{Ask, Rules}
use plainspeak.Parser.Aggregates.{
  parse_designator, parse_entry_value, after_entry, parse_entries, parse_listed, aggregate_rules,
  expected_entries, parse_aggregate_block, parse_compound_literal, parse_otherwise, after_type,
  parse_associations, parse_generic_selection, parse_va_arg,
}
use plainspeak.Parser.Progress.{
  Keeps, Takes, Keeps-no_tokens, Keeps-pure, Keeps-error, Keeps-bind, Keeps-when, Keeps-bind_taking,
  Keeps-of_fuel, Takes-bind_first, Keeps-advance,
}
use plainspeak.Parser.Progress.Steps.{
  keeps_rules, Keeps-advance_all, Keeps-expect_word, Takes-when, Begins, Begins-advance,
  check_word-Inside, Fits, AllFit, none_left, ◌&◌, Begins-bind, Begins-line_here,
  Begins-advance_all, choose-Takes, starts,
}
use plainspeak.Parser.Progress.Rules.{
  Sound, Sound-less, Keeps-expr, Keeps-type_spec, Keeps-aggregate_block,
}

module _ {m : ℕ} (g : Rules) (sound : Sound m g) where
  parse_designator-Keeps : (kind : AggregateInitKind) → Keeps m (parse_designator kind)
  unfolding parse_designator
  parse_designator-Keeps AggregateInitKind.members = search keeps_rules depth 9
  parse_designator-Keeps AggregateInitKind.elements = search keeps_rules depth 9
  parse_designator-Keeps AggregateInitKind.empty = Keeps-pure _
  parse_designator-Keeps AggregateInitKind.scalar = Keeps-pure _
  parse_designator-Keeps AggregateInitKind.positional = Keeps-pure _

  after_entry-Keeps :
      (more : Parser Entries) (entry : Entries → Entries)
      → Keeps m more
      → Keeps m (after_entry g more entry)
  unfolding after_entry
  after_entry-Keeps more entry again =
      Keeps-when _ _ _
        (Keeps-bind _ _ (Keeps-advance_all 2) λ _. Keeps-bind _ _ again λ rest. Keeps-pure _)
        (Keeps-pure _)

  parse_entry_value-Takes :
      (k : ℕ) (name : Text) (index : ℕ) → suc k ≤ m → Takes k (parse_entry_value g name index)
  parse_entry_value-Takes k name index b =
      Takes-when _ _ _ (check_word-Inside _)
        (Begins-bind _ _ Begins-advance λ _.
          Keeps-bind _ _ (Keeps-aggregate_block (Sound-less sound k (omega arith)))
            λ nested. Keeps-pure _)
        (Takes-bind_first k _ _ (sound.expr_takes k b) λ e. Keeps-pure _)

module _ (g : Rules) where
  parse_entries-Keeps :
      (kind : AggregateInitKind) (n k : ℕ) → k ≤ n → Sound k g → Keeps k (parse_entries g kind n)
  unfolding parse_entries
  parse_entries-Keeps kind zero k b s = Keeps-no_tokens _ b
  parse_entries-Keeps kind (suc n) k b s =
      Keeps-bind _ _ (parse_designator-Keeps g s kind) λ (name, index).
        Keeps-bind_taking _ _ (λ j h. parse_entry_value-Takes g s j name index h)
          λ j entry h.
            after_entry-Keeps g (Sound-less s j (omega arith)) _ entry
              (parse_entries-Keeps kind n j (omega arith) (Sound-less s j (omega arith)))

  after_type-Keeps :
      {m : ℕ} (more : Parser (Associations × OptExpr)) (type : TypeSpec)
      → Sound m g
      → Keeps m more
      → Keeps m (after_type g more type)
  unfolding after_type parse_otherwise
  after_type-Keeps more type s again = Keeps-bind _ _ (Keeps-expect_word _) λ _.
      Keeps-bind _ _ (Keeps-expr s) λ e.
        Keeps-bind _ _
          (Keeps-when _ _ _ (Keeps-bind _ _ (Keeps-advance_all 2) λ _. again)
            (Keeps-when _ _ _ (parse_otherwise-Keeps s) (Keeps-pure _)))
          λ rest. Keeps-pure _
    where
      parse_otherwise-Keeps : {m : ℕ} → Sound m g → Keeps m (parse_otherwise g)
      parse_otherwise-Keeps s =
          Keeps-bind _ _ Keeps-advance λ _. Keeps-bind _ _ (Keeps-expr s) λ e. Keeps-pure _

  parse_associations-Keeps : (n k : ℕ) → k ≤ n → Sound k g → Keeps k (parse_associations g n)
  unfolding parse_associations parse_otherwise
  parse_associations-Keeps zero k b s = Keeps-no_tokens _ b
  parse_associations-Keeps (suc n) k b s = Keeps-when _ _ _ (Keeps-pure _) (
      Keeps-when _ _ _
        (Keeps-bind _ _ Keeps-advance λ _. Keeps-bind _ _ (Keeps-expr s) λ e. Keeps-pure _)
        (Keeps-bind_taking _ _ s.type_takes λ j type h.
          after_type-Keeps _ type (Sound-less s j (omega arith))
            (parse_associations-Keeps n j (omega arith) (Sound-less s j (omega arith)))))

module _ {m : ℕ} (g : Rules) (sound : Sound m g) where
  exprs_keep : Keeps m g.expr
  exprs_keep = Keeps-expr sound

  types_keep : Keeps m g.type_spec
  types_keep = Keeps-type_spec sound

  blocks_keep : Keeps m g.aggregate_block
  blocks_keep = Keeps-aggregate_block sound

  parse_listed-Keeps :
      (kind : AggregateInitKind) (message : Text) → Keeps m (parse_listed g kind message)
  parse_listed-Keeps kind message =
      Keeps-bind _ _ (Keeps-when _ _ _ (Keeps-error message) (Keeps-pure tt)) λ _.
        Keeps-bind _ _
          (Keeps-of_fuel (λ n. parse_entries g kind n)
            λ n k b le. parse_entries-Keeps g kind n k b (Sound-less sound k le))
          λ entries. Keeps-bind _ _ (Keeps-expect_word _) λ _. Keeps-pure _

  led-Fits :
      {A : Type 0} (guard : List Ask) (n : ℕ) (p : Parser A)
      → starts guard ≡ true
      → Keeps m p
      → Fits m (record { guard = guard; action = advance_all (suc n) >> p })
  led-Fits guard n p s k = record {
    asks_first = s;
    begins = Begins-bind _ _ (Begins-advance_all n) λ _. k;
  }

  aggregate_rules-AllFit : AllFit m (aggregate_rules g)
  aggregate_rules-AllFit =
      led-Fits _ 1 _ refl (Keeps-pure _)
      & led-Fits _ 0 _ refl (parse_listed-Keeps _ _)
      & led-Fits _ 0 _ refl (parse_listed-Keeps _ _)
      & led-Fits _ 0 _ refl (parse_listed-Keeps _ _)
      & none_left

  pub parse_aggregate_block-Takes : Takes m (parse_aggregate_block g)
  unfolding parse_aggregate_block
  parse_aggregate_block-Takes =
      choose-Takes m (aggregate_rules g) expected_entries aggregate_rules-AllFit

  pub parse_compound_literal-Begins : Begins m (parse_compound_literal g)
  unfolding parse_compound_literal
  parse_compound_literal-Begins = Begins-line_here _ λ line.
      Begins-bind _ _ (Begins-advance_all 1)
        λ _. search (keeps_rules, exprs_keep, types_keep, blocks_keep) depth 14

  associations_keep : Keeps m (λ c. parse_associations g (suc (remaining c)) c)
  associations_keep =
      Keeps-of_fuel (parse_associations g)
        λ n k b le. parse_associations-Keeps g n k b (Sound-less sound k le)

  pub parse_generic_selection-Begins : Begins m (parse_generic_selection g)
  unfolding parse_generic_selection
  parse_generic_selection-Begins = Begins-line_here _ λ line.
      Begins-bind _ _ (Begins-advance_all 0)
        λ _. search (keeps_rules, exprs_keep, associations_keep) depth 14

  pub parse_va_arg-Begins : Begins m (parse_va_arg g)
  unfolding parse_va_arg
  parse_va_arg-Begins =
      Begins-line_here _ λ line.
        Begins-bind _ _ (Begins-advance_all 2) λ _. search (keeps_rules, types_keep) depth 12
