-- ===== src/Parser/Progress/Statements/Procedures.antt =====
-- The head of parseProcedure of src/parser/parser.cpp puts no token back.
use plainspeak.Prelude.{ℕ, zero, suc, ◌≤◌, Bool, false, arith}
use plainspeak.Parser.{remaining}
use plainspeak.Parser.Table.{Rules}
use plainspeak.Parser.Statements.Procedures.{
  Specifiers, no_specifiers, parse_specifier, parse_specifiers, parse_param_type, parse_params,
  parse_head,
}
use plainspeak.Parser.Progress.{
  Keeps, Keeps-no_tokens, Keeps-pure, Keeps-error, Keeps-bind, Keeps-when, Keeps-bind_taking,
  Keeps-of_fuel,
}
use plainspeak.Parser.Progress.Steps.{
  Keeps-when-Inside, Keeps-advance_all, check_word-Inside, Begins-bind, Begins-advance,
}
use plainspeak.Parser.Progress.Rules.{Sound, Sound-less, Keeps-type_spec}
use plainspeak.Parser.Progress.Statements.{stmt_keeps, Takes-expect_ident_name}

parse_specifier-Keeps : {m : ℕ} (s : Specifiers) → Keeps m (parse_specifier s)
unfolding parse_specifier
parse_specifier-Keeps s = search stmt_keeps depth 16

parse_specifiers-Keeps : (n m : ℕ) (s : Specifiers) → m ≤ n → Keeps m (parse_specifiers n s)
unfolding parse_specifiers
parse_specifiers-Keeps zero m s b = Keeps-no_tokens _ b
parse_specifiers-Keeps (suc n) m s b =
    Keeps-when-Inside _ _ _ (check_word-Inside _)
      (λ k h. Begins-bind _ _ Begins-advance λ _.
        Keeps-bind _ _ (parse_specifier-Keeps s) λ r. parse_specifiers-Keeps n k r (omega arith))
      (Keeps-pure s)

specifiers_stay : {m : ℕ} → Keeps m (λ c. parse_specifiers (suc (remaining c)) no_specifiers c)
specifiers_stay =
    Keeps-of_fuel (λ n. parse_specifiers n no_specifiers)
      λ n k b le. parse_specifiers-Keeps n k no_specifiers b

module _ {m : ℕ} (g : Rules) (sound : Sound m g) where
  types_stay : Keeps m g.type_spec
  types_stay = Keeps-type_spec sound

  parse_param_type-Keeps : Keeps m (parse_param_type g)
  unfolding parse_param_type
  parse_param_type-Keeps = search (stmt_keeps, types_stay) depth 14

module _ (g : Rules) where
  parse_params-Keeps :
      (n k : ℕ) (typed untyped : Bool)
      → k ≤ n
      → Sound k g
      → Keeps k (parse_params g n typed untyped)
  unfolding parse_params
  parse_params-Keeps zero k typed untyped b s = Keeps-no_tokens _ b
  parse_params-Keeps (suc n) k typed untyped b s = Keeps-when _ _ _ (Keeps-pure _) (
      Keeps-when _ _ _ (Keeps-bind _ _ (Keeps-advance_all 3) λ _. Keeps-pure _) (
        Keeps-bind_taking _ _ (λ j h. Takes-expect_ident_name)
          λ j name h.
            Keeps-bind _ _ (parse_param_type-Keeps g (Sound-less s j (omega arith))) λ type.
              Keeps-bind _ _ (Keeps-when _ _ _ (Keeps-error _) (Keeps-pure tt)) λ _.
                Keeps-bind _ _
                  (parse_params-Keeps n j _ _ (omega arith) (Sound-less s j (omega arith)))
                  λ rest. Keeps-pure _))

  module _ {m : ℕ} (sound : Sound m g) where
    params_stay : Keeps m (λ c. parse_params g (suc (remaining c)) false false c)
    params_stay =
        Keeps-of_fuel (λ n. parse_params g n false false)
          λ n k b le. parse_params-Keeps n k false false b (Sound-less sound k le)

    return_types_stay : Keeps m g.type_spec
    return_types_stay = Keeps-type_spec sound

    pub parse_head-Keeps : Keeps m (parse_head g)
    unfolding parse_head
    parse_head-Keeps = search (stmt_keeps, params_stay, specifiers_stay, return_types_stay) depth 20
