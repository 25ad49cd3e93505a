-- ===== src/ReturnPath/Exits.antt =====
-- What a statement of a procedure body can do, read off its structure and the meaning of its
-- expressions: complete, or leave by a Break or a Continue. The graph of ReturnPathChecker
-- (src/sema/sema.cpp) is held against these paths. A While or Do while completes where its condition is
-- not known to be true; a Repeat or For completes without a run of its body where it is not known to
-- run. Four kinds of path are left out: the completion of a Repeat or For that is known to run, by its
-- count, jumps by Go to, a Break out of a case that is not the last of its Switch, and what follows a
-- Compile if with no selected body.
pub mod Known
use plainspeak.Prelude.{ℕ, suc, ◌≡◌, ◌≢◌, Bool, true, false, Option, some}
use plainspeak.Prelude.Int.{ℤ, pos, ◌<ℤ◌}
use plainspeak.Constants.Meaning.{Denotes, HasLongLiterals}
use plainspeak.Ast.{Expr, Stmt, Stmts, Cases, Elifs}
use plainspeak.ReturnPath.Select.{Selection, then_branch, else_branch, elif_branch}

-- The condition is no constant other than 0.
pub record MayBeFalse (cond : Expr) : Type 0 where
  pub long_cond : HasLongLiterals cond
  pub never_true : (n : ℤ) → n ≢ pos 0 → ¬ (Denotes cond n)

-- The count is no positive constant.
pub record MayBeZero (count : Expr) : Type 0 where
  pub long_count : HasLongLiterals count
  pub never_positive : (n : ℤ) → pos 0 <ℤ n → ¬ (Denotes count n)

-- The bound to is beyond the bound from, in the direction of the loop.
abbrev pub Passed : Bool → ℤ → ℤ → Type 0
Passed true from to = from <ℤ to
Passed false from to = to <ℤ from

-- Where both bounds are constants, the range between them is empty.
pub record MayBeEmpty (descending : Bool) (from to : Expr) : Type 0 where
  pub long_from : HasLongLiterals from
  pub long_to : HasLongLiterals to
  pub passed : (a b : ℤ) → Denotes from a → Denotes to b → Passed descending a b

-- No case of the Switch is an Otherwise.
pub data OnlyWhen : Cases → Type 0 where
  no_case : OnlyWhen Cases.no_cases
  when_case :
      {v : Expr} {body : Stmts} {rest : Cases}
      → OnlyWhen rest
      → OnlyWhen (Cases.a_case (some v) body rest)

pub data Exit : Type 0 where
  falls breaks continues : Exit

module _ (selected : Selection) where
  mutual
    pub data StmtExit : Stmt → Exit → Type 0 where
      plain : {p : _} {s : _} → StmtExit (Stmt.plain p s) falls
      label : {p : _} {name : _} → StmtExit (Stmt.label_stmt p name) falls
      nested_procedure : {p : _} {h : _} {body : Stmts} → StmtExit (Stmt.procedure p h body) falls
      break_out : {p : _} → StmtExit (Stmt.break_stmt p) breaks
      continue_on : {p : _} → StmtExit (Stmt.continue_stmt p) continues
      if_then :
          {p : _} {cond : _} {t e : Stmts} {o : Exit}
          → BlockExit t o
          → StmtExit (Stmt.if_stmt p cond t e) o
      if_else :
          {p : _} {cond : _} {t e : Stmts} {o : Exit}
          → BlockExit e o
          → StmtExit (Stmt.if_stmt p cond t e) o
      compiled_then :
          {p : _} {name : _} {t e : Stmts} {es : Elifs} {o : Exit}
          → selected p ≡ then_branch
          → BlockExit t o
          → StmtExit (Stmt.compile_if p name t es e) o
      compiled_else :
          {p : _} {name : _} {t e : Stmts} {es : Elifs} {o : Exit}
          → selected p ≡ else_branch
          → BlockExit e o
          → StmtExit (Stmt.compile_if p name t es e) o
      compiled_elif :
          {p : _} {name : _} {t e : Stmts} {es : Elifs} {n : ℕ} {o : Exit}
          → selected p ≡ elif_branch n
          → ElifExit es n o
          → StmtExit (Stmt.compile_if p name t es e) o
      repeat_ends :
          {p : _} {count : _} {body : Stmts}
          → MayBeZero count
          → StmtExit (Stmt.repeat_stmt p count body) falls
      repeat_breaks :
          {p : _} {count : _} {body : Stmts}
          → BlockExit body breaks
          → StmtExit (Stmt.repeat_stmt p count body) falls
      while_ends :
          {p : _} {cond : _} {body : Stmts}
          → MayBeFalse cond
          → StmtExit (Stmt.while_stmt p cond body) falls
      while_breaks :
          {p : _} {cond : _} {body : Stmts}
          → BlockExit body breaks
          → StmtExit (Stmt.while_stmt p cond body) falls
      do_while_ends :
          {p : _} {cond : _} {body : Stmts} {o : Exit}
          → o ≢ breaks
          → BlockExit body o
          → MayBeFalse cond
          → StmtExit (Stmt.do_while p body cond) falls
      do_while_breaks :
          {p : _} {cond : _} {body : Stmts}
          → BlockExit body breaks
          → StmtExit (Stmt.do_while p body cond) falls
      for_each_ends :
          {p : _} {name : _} {l : _} {body : Stmts} → StmtExit (Stmt.for_each p name l body) falls
      for_ends :
          {p : _} {name : _} {from to : _} {descending : Bool} {body : Stmts}
          → MayBeEmpty descending from to
          → StmtExit (Stmt.for_stmt p name from to descending body) falls
      for_breaks :
          {p : _} {name : _} {from to : _} {descending : Bool} {body : Stmts}
          → BlockExit body breaks
          → StmtExit (Stmt.for_stmt p name from to descending body) falls
      switch_skips :
          {p : _} {cond : _} {cs : Cases}
          → OnlyWhen cs
          → StmtExit (Stmt.switch_stmt p cond cs) falls
      switch_enters :
          {p : _} {cond : _} {cs : Cases} {o : Exit}
          → Enters cs o
          → StmtExit (Stmt.switch_stmt p cond cs) o

    pub data BlockExit : Stmts → Exit → Type 0 where
      end_of_block : BlockExit Stmts.done falls
      then_next :
          {s : Stmt} {rest : Stmts} {o : Exit}
          → StmtExit s falls
          → BlockExit rest o
          → BlockExit (Stmts.then_stmt s rest) o
      leave :
          {s : Stmt} {rest : Stmts} {o : Exit}
          → StmtExit s o
          → o ≢ falls
          → BlockExit (Stmts.then_stmt s rest) o

    -- Control stands before the first of these cases.
    pub data CasesExit : Cases → Exit → Type 0 where
      past_last : CasesExit Cases.no_cases falls
      fall_on :
          {v : _} {body : Stmts} {rest : Cases} {o : Exit}
          → BlockExit body falls
          → CasesExit rest o
          → CasesExit (Cases.a_case v body rest) o
      last_breaks :
          {v : _} {body : Stmts}
          → BlockExit body breaks
          → CasesExit (Cases.a_case v body Cases.no_cases) falls
      case_continues :
          {v : _} {body : Stmts} {rest : Cases}
          → BlockExit body continues
          → CasesExit (Cases.a_case v body rest) continues

    -- The Switch jumps to one of these cases.
    pub data Enters : Cases → Exit → Type 0 where
      first_case :
          {v : _} {body : Stmts} {rest : Cases} {o : Exit}
          → CasesExit (Cases.a_case v body rest) o
          → Enters (Cases.a_case v body rest) o
      later_case :
          {v : _} {body : Stmts} {rest : Cases} {o : Exit}
          → Enters rest o
          → Enters (Cases.a_case v body rest) o

    pub data ElifExit : Elifs → ℕ → Exit → Type 0 where
      this_elif :
          {name : _} {body : Stmts} {rest : Elifs} {o : Exit} {n : ℕ}
          → n ≡ 0
          → BlockExit body o
          → ElifExit (Elifs.an_elif name body rest) n o
      next_elif :
          {name : _} {body : Stmts} {rest : Elifs} {o : Exit} {n : ℕ}
          → ElifExit rest n o
          → ElifExit (Elifs.an_elif name body rest) (suc n) o
