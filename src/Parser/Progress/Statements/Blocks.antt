-- ===== src/Parser/Progress/Statements/Blocks.antt =====
-- The statements of src/parser/parser.cpp that hold blocks put no token back, where each statement
-- takes one.
use plainspeak.Prelude.{ℕ, zero, suc, ◌≤◌, Bool, true, false, Text, codes, arith}
use plainspeak.Ast.{Expr, UnaryOp, Stmt}
use plainspeak.Parser.{Cursor, Parser, remaining}
use plainspeak.Parser.Table.{Rules}
use plainspeak.Parser.Statements.Procedures.{parse_head}
use plainspeak.Parser.Statements.Blocks.{
  line_of, negated, parse_body, body_until, parse_block_until, parse_repeat, parse_conditional,
  parse_loop, parse_do_while, parse_for_each, parse_for, parse_case_value, parse_cases,
  parse_switch, parse_branch, parse_elifs, parse_compile_if, parse_procedure,
}
use plainspeak.Parser.Progress.{
  Keeps, Takes, Keeps-no_tokens, Keeps-pure, Keeps-bind, Keeps-when, Keeps-bind_taking,
  Keeps-of_fuel,
}
use plainspeak.Parser.Progress.Steps.{
  Keeps-make_expr, Keeps-when-Inside, Takes-when, Takes-error, check_word-Inside, Begins-bind,
  Begins-advance,
}
use plainspeak.Parser.Progress.Rules.{Sound, Sound-less, Keeps-expr}
use plainspeak.Parser.Progress.Statements.{stmt_keeps, Keeps-expect_colon}
use plainspeak.Parser.Progress.Statements.Declarations.{refuse_eof-Keeps}
use plainspeak.Parser.Progress.Statements.Procedures.{parse_head-Keeps}

-- With fewer than m tokens remaining, a statement takes one.
abbrev pub Statements : ℕ → Parser Stmt → Type 0
Statements m stmt = (k : ℕ) → suc k ≤ m → Takes k stmt

negated-Keeps : {m : ℕ} (negate : Bool) (cond : Expr) → Keeps m (negated negate cond)
unfolding negated
negated-Keeps true cond = Keeps-make_expr (λ p. Expr.unary p UnaryOp.not cond) (line_of cond)
negated-Keeps false cond = Keeps-pure cond

module _ (g : Rules) (stmt : Parser Stmt) where
  parse_body-Keeps :
      (stop : Cursor → Bool) (message : Text) (n k : ℕ)
      → k ≤ n
      → Statements k stmt
      → Keeps k (parse_body g stmt stop message n)
  unfolding parse_body
  parse_body-Keeps stop message zero k b s = Keeps-no_tokens _ b
  parse_body-Keeps stop message (suc n) k b s = Keeps-when _ _ _ (Keeps-pure _) (
      Keeps-bind _ _ (refuse_eof-Keeps _) λ _. Keeps-bind_taking _ _ s λ j t h.
        Keeps-bind _ _ (parse_body-Keeps stop message n j (omega arith) λ i le. s i (omega arith))
          λ rest. Keeps-pure _)

  body_until-Keeps :
      {k : ℕ} (stop : Cursor → Bool) (message : Text)
      → Statements k stmt
      → Keeps k (body_until g stmt stop message)
  body_until-Keeps stop message s =
      Keeps-of_fuel (parse_body g stmt stop message)
        λ n k b le. parse_body-Keeps stop message n k b λ i h. s i (omega arith)

  parse_case_value-Takes : {k : ℕ} → Sound k g → Takes k (parse_case_value g stmt)
  unfolding parse_case_value
  parse_case_value-Takes s =
      Takes-when _ _ _ (check_word-Inside (codes "otherwise"))
        (Begins-bind _ _ Begins-advance λ _. search stmt_keeps depth 12)
        (Takes-when _ _ _ (check_word-Inside (codes "when"))
          (Begins-bind _ _ Begins-advance
            λ _. Keeps-bind _ _ (Keeps-expr s) λ e. search stmt_keeps depth 12)
          (Takes-error _ _))

  parse_cases-Keeps :
      (n k : ℕ) → k ≤ n → Sound k g → Statements k stmt → Keeps k (parse_cases g stmt n)
  unfolding parse_cases
  parse_cases-Keeps zero k b s t = Keeps-no_tokens _ b
  parse_cases-Keeps (suc n) k b s t = Keeps-when _ _ _ (Keeps-pure _) (
      Keeps-bind _ _ (refuse_eof-Keeps _) λ _.
        Keeps-bind_taking _ _ (λ j h. parse_case_value-Takes (Sound-less s j (omega arith)))
          λ j value h. Keeps-bind _ _ (body_until-Keeps _ _ λ i le. t i (omega arith)) λ body.
            Keeps-bind _ _
              (parse_cases-Keeps n j (omega arith) (Sound-less s j (omega arith))
                λ i le. t i (omega arith))
              λ rest. Keeps-pure _)

  parse_branch-Keeps :
      {k : ℕ} (message : Text) → Statements k stmt → Keeps k (parse_branch g stmt message)
  unfolding parse_branch
  parse_branch-Keeps message s = Keeps-bind _ _ (search stmt_keeps depth 12) λ name.
      Keeps-bind _ _ (search stmt_keeps depth 12) λ _.
        Keeps-bind _ _ (search stmt_keeps depth 12) λ _.
          Keeps-bind _ _ Keeps-expect_colon
            λ _. Keeps-bind _ _ (body_until-Keeps _ _ s) λ body. Keeps-pure _

  parse_elifs-Keeps : (n k : ℕ) → k ≤ n → Statements k stmt → Keeps k (parse_elifs g stmt n)
  unfolding parse_elifs
  parse_elifs-Keeps zero k b s = Keeps-no_tokens _ b
  parse_elifs-Keeps (suc n) k b s =
      Keeps-when-Inside _ _ _ (check_word-Inside (codes "elif"))
        (λ j h. Begins-bind _ _ Begins-advance λ _.
          Keeps-bind _ _ (parse_branch-Keeps _ λ i le. s i (omega arith)) λ branch.
            Keeps-bind _ _ (parse_elifs-Keeps n j (omega arith) λ i le. s i (omega arith))
              λ rest. Keeps-pure _)
        (Keeps-pure _)

module _ {m : ℕ} (g : Rules) (stmt : Parser Stmt) (sound : Sound m g) (s : Statements m stmt) where
  exprs_stay : Keeps m g.expr
  exprs_stay = Keeps-expr sound

  bodies_stay :
      (stop : Cursor → Bool) (message : Text)
      → Keeps m (λ c. parse_body g stmt stop message (suc (remaining c)) c)
  bodies_stay stop message = body_until-Keeps g stmt stop message s

  cases_stay : Keeps m (λ c. parse_cases g stmt (suc (remaining c)) c)
  cases_stay =
      Keeps-of_fuel (parse_cases g stmt)
        λ n k b le. parse_cases-Keeps g stmt n k b (Sound-less sound k le) λ i h. s i (omega arith)

  elifs_stay : Keeps m (λ c. parse_elifs g stmt (suc (remaining c)) c)
  elifs_stay =
      Keeps-of_fuel (parse_elifs g stmt)
        λ n k b le. parse_elifs-Keeps g stmt n k b λ i h. s i (omega arith)

  branches_stay : (message : Text) → Keeps m (parse_branch g stmt message)
  branches_stay message = parse_branch-Keeps g stmt message s

  heads_stay : Keeps m (parse_head g)
  heads_stay = parse_head-Keeps g sound

  parse_block_until-Keeps : (w1 w2 : Text) → Keeps m (parse_block_until g stmt w1 w2)
  unfolding parse_block_until
  parse_block_until-Keeps w1 w2 = search (stmt_keeps, bodies_stay) depth 14

  ruleset block_keeps = (
    stmt_keeps, negated-Keeps, exprs_stay, bodies_stay, cases_stay, elifs_stay, branches_stay,
    heads_stay, parse_block_until-Keeps,
  )

  pub parse_repeat-Keeps : (line : ℕ) → Keeps m (parse_repeat g stmt line)
  unfolding parse_repeat
  parse_repeat-Keeps line = search block_keeps depth 20

  pub parse_conditional-Keeps :
      (negate : Bool) (line : ℕ) → Keeps m (parse_conditional g stmt negate line)
  unfolding parse_conditional
  parse_conditional-Keeps negate line = search block_keeps depth 24

  pub parse_loop-Keeps : (negate : Bool) (line : ℕ) → Keeps m (parse_loop g stmt negate line)
  unfolding parse_loop
  parse_loop-Keeps negate line = search block_keeps depth 24

  pub parse_do_while-Keeps : (line : ℕ) → Keeps m (parse_do_while g stmt line)
  unfolding parse_do_while
  parse_do_while-Keeps line = search block_keeps depth 20

  pub parse_for_each-Keeps : (line : ℕ) → Keeps m (parse_for_each g stmt line)
  unfolding parse_for_each
  parse_for_each-Keeps line = search block_keeps depth 20

  pub parse_for-Keeps : (line : ℕ) → Keeps m (parse_for g stmt line)
  unfolding parse_for
  parse_for-Keeps line = search block_keeps depth 24

  pub parse_switch-Keeps : (line : ℕ) → Keeps m (parse_switch g stmt line)
  unfolding parse_switch
  parse_switch-Keeps line = search block_keeps depth 20

  pub parse_compile_if-Keeps : (line : ℕ) → Keeps m (parse_compile_if g stmt line)
  unfolding parse_compile_if
  parse_compile_if-Keeps line = search block_keeps depth 24

  pub parse_procedure-Keeps : (line : ℕ) → Keeps m (parse_procedure g stmt line)
  unfolding parse_procedure
  parse_procedure-Keeps line = search block_keeps depth 20
