-- ===== src/Parser/Progress/Rules/Primary.antt =====
-- parsePrimary of src/parser/parser.cpp takes a token.
use Prim.Native.String.{String}
use plainspeak.Prelude.{
  ℕ, zero, suc, ◌≤◌, ◌≡◌, refl, Bool, true, false, codes, List, [], ◌∷◌, ◌++◌, map, arith, not,
}
use plainspeak.Ast.{Place, Expr, TypeSpec, UnaryOp, IncDecKind}
use plainspeak.Lexer.Tokenize.{TokKind, Token}
use plainspeak.Parser.{Parser, ◌>>=◌, make_expr, remaining, is_kind, refuse, peek}
use plainspeak.Parser.Table.{Ask, Rule, Rules}
use plainspeak.Parser.Primary.{
  literal, led_by, of_type, function_call, function_names, not_one, not_one_message, first_char,
  parse_character, parse_items, parse_list, parse_empty_list, parse_arguments, parse_call_expr,
  parse_grouped, parse_atomic_rmw, last_rules, primary_rules, parse_primary, expected_primary,
}
use plainspeak.Parser.Progress.{
  Keeps, Takes, Keeps-no_tokens, Keeps-pure, Keeps-error, Keeps-bind, Keeps-when, Keeps-bind_taking,
  Keeps-of_fuel, Keeps-seen, Keeps-advance,
}
use plainspeak.Parser.Progress.Steps.{
  keeps_rules, Keeps-advance_all, Keeps-make_expr, Begins, Begins-advance, Fits, AllFit, none_left,
  ◌&◌, Begins-bind, Begins-line_here, Begins-advance_all, choose-Takes, starts,
}
use plainspeak.Parser.Progress.Rules.{Sound, Sound-less, Keeps-expr, Keeps-primary, Keeps-type_spec}
use plainspeak.Parser.Progress.Rules.Aggregates.{
  parse_compound_literal-Begins, parse_generic_selection-Begins, parse_va_arg-Begins,
}

module _ (g : Rules) where
  parse_items-Keeps : (n k : ℕ) → k ≤ n → Sound k g → Keeps k (parse_items g n)
  unfolding parse_items
  parse_items-Keeps zero k b s = Keeps-no_tokens _ b
  parse_items-Keeps (suc n) k b s = Keeps-bind_taking _ _ s.expr_takes λ j e h.
      Keeps-when _ _ _
        (Keeps-bind _ _ (Keeps-advance_all 2) λ _.
          Keeps-bind _ _ (parse_items-Keeps n j (omega arith) (Sound-less s j (omega arith)))
            λ es. Keeps-pure _)
        (Keeps-pure _)

  parse_arguments-Keeps :
      (closed : Bool) (n k : ℕ) → k ≤ n → Sound k g → Keeps k (parse_arguments g closed n)
  unfolding parse_arguments
  parse_arguments-Keeps closed zero k b s = Keeps-no_tokens _ b
  parse_arguments-Keeps closed (suc n) k b s = Keeps-when _ _ _ (Keeps-pure _) (
      Keeps-bind _ _ (Keeps-when _ _ _ (Keeps-error _) (Keeps-pure tt)) λ _.
        Keeps-bind_taking _ _ s.expr_takes λ j e h.
          Keeps-bind _ _
            (parse_arguments-Keeps closed n j (omega arith) (Sound-less s j (omega arith)))
            λ es. Keeps-pure _)

module _ {m : ℕ} (g : Rules) (sound : Sound m g) where
  exprs_keep : Keeps m g.expr
  exprs_keep = Keeps-expr sound

  types_keep : Keeps m g.type_spec
  types_keep = Keeps-type_spec sound

  primaries_keep : Keeps m g.primary
  primaries_keep = Keeps-primary sound

  pub items_keep : Keeps m (λ c. parse_items g (suc (remaining c)) c)
  items_keep =
      Keeps-of_fuel (parse_items g) λ n k b le. parse_items-Keeps g n k b (Sound-less sound k le)

  pub arguments_keep :
      (closed : Bool) → Keeps m (λ c. parse_arguments g closed (suc (remaining c)) c)
  arguments_keep closed =
      Keeps-of_fuel (parse_arguments g closed)
        λ n k b le. parse_arguments-Keeps g closed n k b (Sound-less sound k le)

  ruleset keepers =
      (keeps_rules, exprs_keep, types_keep, primaries_keep, items_keep, arguments_keep)

  parse_character-Keeps : (line : ℕ) → Keeps m (parse_character g line)
  unfolding parse_character
  parse_character-Keeps line =
      Keeps-bind _ _
        (Keeps-seen (λ c. refuse not_one (not_one_message (peek c 0).text))
          λ c. Keeps-when _ _ _ (Keeps-error _) (Keeps-pure tt))
        λ _.
          Keeps-bind _ _ Keeps-advance
            λ t. Keeps-make_expr (λ p. Expr.int_lit p (first_char t.text)) line

  parse_list-Keeps : (line : ℕ) → Keeps m (parse_list g line)
  unfolding parse_list
  parse_list-Keeps line = search keepers depth 12

  parse_empty_list-Keeps : (line : ℕ) → Keeps m (parse_empty_list g line)
  unfolding parse_empty_list
  parse_empty_list-Keeps line = search keepers depth 12

  parse_call_expr-Keeps : (line : ℕ) → Keeps m (parse_call_expr g line)
  unfolding parse_call_expr
  parse_call_expr-Keeps line = search keepers depth 14

  parse_atomic_rmw-Keeps : (line : ℕ) → Keeps m (parse_atomic_rmw g line)
  unfolding parse_atomic_rmw
  parse_atomic_rmw-Keeps line = search keepers depth 12

  parse_grouped-Begins : Begins m (parse_grouped g)
  unfolding parse_grouped
  parse_grouped-Begins = Begins-bind _ _ Begins-advance λ _. search keepers depth 12

  literal-Fits :
      (kind : TokKind) (node : Token → Place → Expr)
      → not (is_kind kind TokKind.eof) ≡ true
      → Fits m (literal kind node)
  literal-Fits kind node e = record {
    asks_first = e;
    begins = Begins-bind _ _ Begins-advance λ t. Keeps-make_expr (node t) t.line;
  }

  led_by-Fits :
      (guard : List Ask) (n : ℕ) (rest : ℕ → Parser Expr)
      → starts guard ≡ true
      → ((line : ℕ) → Keeps m (rest line))
      → Fits m (led_by guard (suc n) rest)
  led_by-Fits guard n rest s k = record {
    asks_first = s;
    begins = Begins-line_here _ λ line. Begins-bind _ _ (Begins-advance_all n) λ _. k line;
  }

  prefix-Fits :
      (guard : List Ask) (n : ℕ) (node : Place → Expr → Expr)
      → starts guard ≡ true
      → Fits m (led_by guard (suc n) λ line. g.primary >>= λ e. make_expr (λ p. node p e) line)
  prefix-Fits guard n node s =
      led_by-Fits guard n _ s
        λ line. Keeps-bind _ _ primaries_keep λ e. Keeps-make_expr (λ p. node p e) line

  of_type-Fits :
      (guard : List Ask) (n : ℕ) (node : Place → TypeSpec → Expr)
      → starts guard ≡ true
      → Fits m (of_type g guard (suc n) node)
  of_type-Fits guard n node s =
      led_by-Fits guard n _ s
        λ line. Keeps-bind _ _ types_keep λ t. Keeps-make_expr (λ p. node p t) line

  functions-AllFit :
      (names : List String) (rs : List (Rule Expr))
      → AllFit m rs
      → AllFit m (map (λ fn. function_call g (fn ∷ "of" ∷ []) (codes fn)) names ++ rs)
  functions-AllFit [] rs fits = fits
  functions-AllFit (fn ∷ names) rs fits = prefix-Fits _ 1 _ refl & functions-AllFit names rs fits

  last_rules-AllFit : AllFit m (last_rules g)
  last_rules-AllFit =
      record { asks_first = refl; begins = parse_grouped-Begins }
      & led_by-Fits _ 0 _ refl parse_call_expr-Keeps
      & literal-Fits _ _ refl
      & none_left

  primary_rules-AllFit : AllFit m (primary_rules g)
  unfolding primary_rules
  primary_rules-AllFit =
      record { asks_first = refl; begins = parse_compound_literal-Begins g sound }
      & record { asks_first = refl; begins = parse_generic_selection-Begins g sound }
      & record { asks_first = refl; begins = parse_va_arg-Begins g sound }
      & literal-Fits _ (λ t p. Expr.int_lit p t.num) refl
      & literal-Fits _ (λ t p. Expr.float_lit p t.fval) refl
      & literal-Fits _ (λ t p. Expr.string_lit p t.text) refl
      & led_by-Fits _ 1 _ refl parse_character-Keeps
      & led_by-Fits _ 0 _ refl (λ line. search keepers depth 12)
      & led_by-Fits _ 0 _ refl (λ line. search keepers depth 12)
      & led_by-Fits _ 0 _ refl (λ line. search keepers depth 12)
      & prefix-Fits _ 0 (λ p e. Expr.unary p UnaryOp.neg e) refl
      & led_by-Fits _ 1 _ refl (λ line. search keepers depth 12)
      & led_by-Fits _ 0 _ refl (λ line. search keepers depth 12)
      & prefix-Fits _ 1 (λ p e. Expr.inc_dec p IncDecKind.prefix_increment e) refl
      & prefix-Fits _ 1 (λ p e. Expr.inc_dec p IncDecKind.postfix_increment e) refl
      & prefix-Fits _ 1 (λ p e. Expr.inc_dec p IncDecKind.prefix_decrement e) refl
      & prefix-Fits _ 1 (λ p e. Expr.inc_dec p IncDecKind.postfix_decrement e) refl
      & led_by-Fits _ 0 _ refl (λ line. search keepers depth 12)
      & led_by-Fits _ 1 _ refl (λ line. search keepers depth 12)
      & prefix-Fits _ 1 (λ p e. Expr.deref p e) refl
      & prefix-Fits _ 1 (λ p e. Expr.length_expr p e) refl
      & of_type-Fits _ 2 (λ p e. Expr.size_of_type p e) refl
      & prefix-Fits _ 1 (λ p e. Expr.size_of p e) refl
      & of_type-Fits _ 2 (λ p e. Expr.align_of_type p e) refl
      & of_type-Fits _ 3 (λ p e. Expr.limit_of_type p e true) refl
      & of_type-Fits _ 3 (λ p e. Expr.limit_of_type p e false) refl
      & led_by-Fits _ 2 _ refl (λ line. search keepers depth 12)
      & led_by-Fits _ 2 _ refl (λ line. search keepers depth 12)
      & prefix-Fits _ 2 (λ p e. Expr.math_call p (codes "atomic_load") e) refl
      & led_by-Fits _ 1 _ refl (λ line. search keepers depth 12)
      & led_by-Fits _ 1 _ refl parse_atomic_rmw-Keeps
      & led_by-Fits _ 1 _ refl parse_list-Keeps
      & led_by-Fits _ 2 _ refl parse_empty_list-Keeps
      & led_by-Fits _ 0 _ refl (λ line. search keepers depth 12)
      & led_by-Fits _ 0 _ refl (λ line. search keepers depth 12)
      & led_by-Fits _ 1 _ refl (λ line. search keepers depth 12)
      & led_by-Fits _ 1 _ refl (λ line. search keepers depth 12)
      & prefix-Fits _ 2 (λ p e. Expr.math_call p (codes "sqrt") e) refl
      & prefix-Fits _ 2 (λ p e. Expr.math_call p (codes "real") e) refl
      & prefix-Fits _ 2 (λ p e. Expr.math_call p (codes "imaginary") e) refl
      & prefix-Fits _ 1 (λ p e. Expr.math_call p (codes "magnitude") e) refl
      & prefix-Fits _ 1 (λ p e. Expr.math_call p (codes "conjugate") e) refl
      & prefix-Fits _ 2 (λ p e. Expr.math_call p (codes "abs") e) refl
      & functions-AllFit function_names (last_rules g) last_rules-AllFit

  pub parse_primary-Takes : Takes m (parse_primary g)
  unfolding parse_primary
  parse_primary-Takes = choose-Takes m (primary_rules g) expected_primary primary_rules-AllFit
