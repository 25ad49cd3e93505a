-- ===== src/Parser/Statements/Blocks.antt =====
-- src/parser/parser.cpp: the statements that hold blocks. parseStmt is an argument; the loops over
-- statements and clauses take as fuel the tokens left when they are entered.
mod Ends
unfoldable pub use Ends.*
use plainspeak.Prelude.{
  ℕ, zero, suc, Bool, true, false, ◌||◌, Text, codes, [], ◌∷◌, ◌++◌, Option, none, some,
}
use plainspeak.Ast.{Expr, UnaryOp, Stmt, Stmts, Cases, Elifs}
use plainspeak.Parser.{
  Cursor, Parser, out_of_fuel, pure, ◌>>=◌, ◌>>◌, check_word, check_words, kind_at, error, advance,
  advance_all, expect_word, expect_dot, expect_colon, expect_ident_name, make_expr, remaining, when,
  refuse,
}
use plainspeak.Parser.Table.{Rules}
use plainspeak.Parser.Statements.{make_stmt, named, at_eof}
use plainspeak.Parser.Statements.Simple.{end_stmt}
use plainspeak.Parser.Statements.Imports.{written}
use plainspeak.Parser.Statements.Declarations.{at_end}
use plainspeak.Parser.Statements.Procedures.{parse_head}

module _ (g : Rules) (stmt : Parser Stmt) where
  -- while (!stop) { if (Eof) error; body.push_back(parseStmt()); }
  unfoldable pub parse_body : (Cursor → Bool) → Text → ℕ → Parser Stmts
  unfolding kind_at error
  parse_body stop message zero = λ c. out_of_fuel
  parse_body stop message (suc n) =
      let more : Parser Stmts = parse_body stop message n in
      when stop (pure Stmts.done)
        (refuse at_eof message >> (stmt >>= λ s. more >>= λ rest. pure (Stmts.then_stmt s rest)))

  abbrev pub body_until : (Cursor → Bool) → Text → Parser Stmts
  body_until stop message = λ c. parse_body stop message (suc (remaining c)) c

  unfoldable pub parse_block_until : Text → Text → Parser Stmts
  unfolding check_words parse_body advance_all expect_dot
  parse_block_until w1 w2 = do
    body ← body_until (check_words 0 ((w1 ∷ []) ∷ (w2 ∷ []) ∷ [])) (
        codes "reached end of file while looking for \""
        ++ w1
        ++ codes " "
        ++ w2
        ++ codes ".\" to close this block")
    advance_all 2
    expect_dot
    pure body

  unfoldable pub parse_repeat : ℕ → Parser Stmt
  unfolding expect_colon parse_block_until make_stmt
  parse_repeat line = do
    count ← g.expr
    expect_colon
    body ← parse_block_until (codes "end") (codes "repeat")
    make_stmt (λ p. Stmt.repeat_stmt p count body) line

  unfoldable pub parse_conditional : Bool → ℕ → Parser Stmt
  unfolding check_word check_words expect_word expect_colon parse_body advance advance_all
      expect_dot negated make_stmt
  parse_conditional negate line = do
    cond ← g.expr
    expect_word (codes "then")
    expect_colon
    then_body ←
        body_until (λ c. check_word (codes "else") c || end_conditional c)
          (codes "reached end of file while looking for \"else\" or \"end if\" to close this block")
    else_body ←
        when (check_word (codes "else"))
          (do
            advance
            expect_colon
            body_until end_conditional
                (codes "reached end of file while looking for \"end if\" to close this block"))
          (pure Stmts.done)
    advance_all 2
    expect_dot
    test ← negated negate cond
    make_stmt (λ p. Stmt.if_stmt p test then_body else_body) line

  unfoldable pub parse_loop : Bool → ℕ → Parser Stmt
  unfolding check_words expect_colon parse_body advance_all expect_dot negated make_stmt
  parse_loop negate line = do
    cond ← g.expr
    expect_colon
    body ← body_until end_loop (
        codes
          "reached end of file while looking for \"End while.\" or \"End until.\" to close this block")
    advance_all 2
    expect_dot
    test ← negated negate cond
    make_stmt (λ p. Stmt.while_stmt p test body) line

  unfoldable pub parse_do_while : ℕ → Parser Stmt
  unfolding check_words expect_colon parse_body advance_all expect_word expect_dot make_stmt
  parse_do_while line = do
    expect_colon
    body ←
        body_until (at_end (codes "do"))
          (codes "reached end of file while looking for \"End do while ... .\"")
    advance_all 2
    expect_word (codes "while")
    cond ← g.expr
    end_stmt (λ p. Stmt.do_while p body cond) line

  unfoldable pub parse_for_each : ℕ → Parser Stmt
  unfolding expect_word expect_ident_name expect_colon parse_block_until make_stmt
  parse_for_each line = do
    expect_word (codes "each")
    name ← expect_ident_name
    expect_word (codes "in")
    list ← g.expr
    expect_colon
    body ← parse_block_until (codes "end") (codes "for")
    make_stmt (λ p. Stmt.for_each p name list body) line

  unfoldable pub parse_for : ℕ → Parser Stmt
  unfolding check_word advance expect_word expect_ident_name expect_colon parse_block_until
      make_stmt
  parse_for line = do
    name ← expect_ident_name
    expect_word (codes "from")
    from ← g.expr
    descending ←
        when (check_word (codes "down")) (do advance; expect_word (codes "to"); pure true)
          (do expect_word (codes "to"); pure false)
    to ← g.expr
    expect_colon
    body ← parse_block_until (codes "end") (codes "for")
    make_stmt (λ p. Stmt.for_stmt p name from to descending body) line

  -- The value of a clause of a Switch; Otherwise has none.
  unfoldable pub parse_case_value : Parser (Option Expr)
  unfolding check_word error advance expect_colon
  parse_case_value =
      when (check_word (codes "otherwise")) (advance >> (expect_colon >> pure none)) (
        when (check_word (codes "when"))
          (advance >> (g.expr >>= λ e. expect_colon >> pure (some e)))
          (error (codes "expected \"When\" or \"Otherwise\" to open a Switch clause")))

  unfoldable pub parse_cases : ℕ → Parser Cases
  unfolding check_word check_words kind_at error parse_case_value parse_body
  parse_cases zero = λ c. out_of_fuel
  parse_cases (suc n) =
      let more : Parser Cases = parse_cases n in
      when end_switch (pure Cases.no_cases) (
        refuse at_eof before_end_switch
        >> (parse_case_value >>= λ value.
            body_until
              (λ c.
                check_word (codes "when") c || (check_word (codes "otherwise") c || end_switch c))
              before_end_switch
            >>= λ body. more >>= λ rest. pure (Cases.a_case value body rest)))

  unfoldable pub parse_switch : ℕ → Parser Stmt
  unfolding check_words expect_colon parse_cases advance_all expect_dot error make_stmt
  parse_switch line = do
    cond ← g.expr
    expect_colon
    cases ← λ c. parse_cases (suc (remaining c)) c
    advance_all 2
    expect_dot
    refuse (λ _. has_no_cases cases)
        (codes "A Switch block needs at least one When or Otherwise clause.")
    make_stmt (λ p. Stmt.switch_stmt p cond cases) line

  -- A macro name, "is defined:" and a body.
  unfoldable pub parse_branch : Text → Parser (Text × Stmts)
  unfolding check_word check_words kind_at error advance expect_word expect_colon parse_body
  parse_branch message = named message >>= λ name.
      expect_word (codes "is")
      >> (expect_word (codes "defined")
          >> (expect_colon
              >> (body_until at_end_or_branch before_end_compile_if >>= λ body.
                  pure (written name, body))))

  unfoldable pub parse_elifs : ℕ → Parser Elifs
  unfolding check_word advance parse_branch
  parse_elifs zero = λ c. out_of_fuel
  parse_elifs (suc n) =
      let more : Parser Elifs = parse_elifs n in
      when (check_word (codes "elif"))
        (advance
          >> (parse_branch (codes "Elif needs a macro name") >>= λ branch.
              more >>= λ rest. pure (Elifs.an_elif branch.0 branch.1 rest)))
        (pure Elifs.no_elifs)

  unfoldable pub parse_compile_if : ℕ → Parser Stmt
  unfolding check_word check_words advance expect_word expect_colon expect_dot parse_branch
      parse_elifs parse_body make_stmt
  parse_compile_if line = do
    (name, then_body) ← parse_branch (codes "Compile if needs a macro name")
    elifs ← λ c. parse_elifs (suc (remaining c)) c
    else_body ←
        when (check_word (codes "otherwise"))
          (do advance; expect_colon; body_until end_compile_if before_end_compile_if)
          (pure Stmts.done)
    expect_word (codes "end")
    expect_word (codes "compile")
    expect_word (codes "if")
    end_stmt (λ p. Stmt.compile_if p name then_body elifs else_body) line

  unfoldable pub parse_procedure : ℕ → Parser Stmt
  unfolding parse_head parse_block_until make_stmt
  parse_procedure line = do
    head ← parse_head g
    body ← parse_block_until (codes "end") (codes "procedure")
    make_stmt (λ p. Stmt.procedure p head body) line
