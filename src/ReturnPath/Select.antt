-- ===== src/ReturnPath/Select.antt =====
-- src/sema/sema.cpp: the branch that Compile if selects (CompileIfStmt in checkStmt), and the two
-- searches of a body that follow it, bodyHasLevelBreak and containsReturnStatement.
use plainspeak.Prelude.{
  ℕ, zero, suc, Text, text_eq, Bool, true, false, ◌||◌, List, any, ◌==◌, if◌then◌else◌,
}
use plainspeak.Ast.{Place, Stmt, Stmts, Cases, Elifs}

-- What compileIfSelected holds for a Compile if: one of the statement's own bodies, or a null
-- pointer. A statement that the map does not hold is read as one with a null pointer.
pub data Branch : Type 0 where
  no_branch then_branch else_branch : Branch
  elif_branch : ℕ → Branch

-- The first elif whose name is defined, counted from n; the else body if there is one.
pub select_elif : List Text → ℕ → Elifs → Stmts → Branch
select_elif defines n Elifs.no_elifs Stmts.done = no_branch
select_elif defines n Elifs.no_elifs (Stmts.then_stmt s rest) = else_branch
select_elif defines n (Elifs.an_elif name body elifs) otherwise =
    if any (text_eq name) defines
    then elif_branch n
    else select_elif defines (suc n) elifs otherwise

pub select_branch : List Text → Text → Elifs → Stmts → Branch
unfolding select_elif
select_branch defines name elifs otherwise =
    if any (text_eq name) defines then then_branch else select_elif defines 0 elifs otherwise

abbrev pub Selection : Type 0
Selection = Place → Branch

module _ (selected : Selection) where
  unfoldable mutual
    pub statement_has_level_break : Stmt → ℕ → Bool
    statement_has_level_break (Stmt.plain p s) depth = false
    statement_has_level_break (Stmt.break_stmt p) depth = depth == 0
    statement_has_level_break (Stmt.continue_stmt p) depth = false
    statement_has_level_break (Stmt.repeat_stmt p count body) depth =
        body_has_level_break body (suc depth)
    statement_has_level_break (Stmt.if_stmt p cond then_body else_body) depth =
        body_has_level_break then_body depth || body_has_level_break else_body depth
    statement_has_level_break (Stmt.compile_if p name then_body elifs else_body) depth =
        elim (selected p) [
          | no_branch ↦ false
          | then_branch ↦ body_has_level_break then_body depth
          | else_branch ↦ body_has_level_break else_body depth
          | elif_branch n ↦ elif_has_level_break elifs n depth
        ]
    statement_has_level_break (Stmt.while_stmt p cond body) depth =
        body_has_level_break body (suc depth)
    statement_has_level_break (Stmt.do_while p body cond) depth =
        body_has_level_break body (suc depth)
    statement_has_level_break (Stmt.for_each p name l body) depth =
        body_has_level_break body (suc depth)
    statement_has_level_break (Stmt.for_stmt p name from to descending body) depth =
        body_has_level_break body (suc depth)
    statement_has_level_break (Stmt.switch_stmt p cond cases) depth =
        cases_have_level_break cases (suc depth)
    statement_has_level_break (Stmt.goto_stmt p label) depth = false
    statement_has_level_break (Stmt.label_stmt p name) depth = false
    statement_has_level_break (Stmt.procedure p head body) depth = false
    statement_has_level_break (Stmt.return_stmt p value) depth = false

    pub body_has_level_break : Stmts → ℕ → Bool
    body_has_level_break Stmts.done depth = false
    body_has_level_break (Stmts.then_stmt s rest) depth =
        statement_has_level_break s depth || body_has_level_break rest depth

    pub cases_have_level_break : Cases → ℕ → Bool
    cases_have_level_break Cases.no_cases depth = false
    cases_have_level_break (Cases.a_case value body rest) depth =
        body_has_level_break body depth || cases_have_level_break rest depth

    pub elif_has_level_break : Elifs → ℕ → ℕ → Bool
    elif_has_level_break Elifs.no_elifs n depth = false
    elif_has_level_break (Elifs.an_elif name body rest) zero depth = body_has_level_break body depth
    elif_has_level_break (Elifs.an_elif name body rest) (suc n) depth =
        elif_has_level_break rest n depth

  unfoldable mutual
    pub statement_contains_return : Stmt → Bool
    statement_contains_return (Stmt.plain p s) = false
    statement_contains_return (Stmt.break_stmt p) = false
    statement_contains_return (Stmt.continue_stmt p) = false
    statement_contains_return (Stmt.repeat_stmt p count body) = contains_return_statement body
    statement_contains_return (Stmt.if_stmt p cond then_body else_body) =
        contains_return_statement then_body || contains_return_statement else_body
    statement_contains_return (Stmt.compile_if p name then_body elifs else_body) =
        elim (selected p) [
          | no_branch ↦ false
          | then_branch ↦ contains_return_statement then_body
          | else_branch ↦ contains_return_statement else_body
          | elif_branch n ↦ elif_contains_return elifs n
        ]
    statement_contains_return (Stmt.while_stmt p cond body) = contains_return_statement body
    statement_contains_return (Stmt.do_while p body cond) = contains_return_statement body
    statement_contains_return (Stmt.for_each p name l body) = contains_return_statement body
    statement_contains_return (Stmt.for_stmt p name from to descending body) =
        contains_return_statement body
    statement_contains_return (Stmt.switch_stmt p cond cases) = cases_contain_return cases
    statement_contains_return (Stmt.goto_stmt p label) = false
    statement_contains_return (Stmt.label_stmt p name) = false
    statement_contains_return (Stmt.procedure p head body) = false
    statement_contains_return (Stmt.return_stmt p value) = true

    pub contains_return_statement : Stmts → Bool
    contains_return_statement Stmts.done = false
    contains_return_statement (Stmts.then_stmt s rest) =
        statement_contains_return s || contains_return_statement rest

    pub cases_contain_return : Cases → Bool
    cases_contain_return Cases.no_cases = false
    cases_contain_return (Cases.a_case value body rest) =
        contains_return_statement body || cases_contain_return rest

    pub elif_contains_return : Elifs → ℕ → Bool
    elif_contains_return Elifs.no_elifs n = false
    elif_contains_return (Elifs.an_elif name body rest) zero = contains_return_statement body
    elif_contains_return (Elifs.an_elif name body rest) (suc n) = elif_contains_return rest n
