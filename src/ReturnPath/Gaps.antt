-- ===== src/ReturnPath/Gaps.antt =====
-- src/sema/sema.cpp, ReturnPathChecker: statements whose control flow the graph does not have.
use plainspeak.Prelude.{◌≡◌, refl, true, false, not, Option, none, some, arith}
use plainspeak.Ast.{Place, Expr, PlainStmt, Stmt, Stmts}
use plainspeak.ReturnPath.Select.{Selection}
use plainspeak.ReturnPath.Build.{
  build_block, resolve_gotos, loop_falls_through, repeat_may_be_empty, edge_when, edge_to_top,
  push_break, pop_break, push_continue, pop_continue, edges_to, has_default, new_node, edge,
}
use plainspeak.Prelude.Int.{ℤ, pos, ltb_ℤ, ◌<ℤ◌}
use plainspeak.Constants.Meaning.{Denotes, HasLongLiterals}
use plainspeak.Constants.Value.{integer_constant_value}
use plainspeak.Constants.Value.Correct.{integer_constant_value_iff}
use plainspeak.ReturnPath.Graph.{grow, add_edge}
use plainspeak.ReturnPath.Sweep.{flow_graph, reached_end, end_is_reachable, sweep, offer, start}

abbrev pub one : Stmt → Stmts
one s = Stmts.then_stmt s Stmts.done

positive :
    (o : Option ℤ) (n : ℤ)
    → o ≡ some n
    → pos 0 <ℤ n
    → (elim o [ none ↦ true | some v ↦ not (ltb_ℤ (pos 0) v) ]) ≡ false
positive o n q h = rw q (ground arith)

-- For a body that is one Repeat over one plain statement, whose count is a positive constant with longs
-- for its integer literals, endIsReachable answers false.
pub counted_repeat-missed :
    (selected : Selection) (p : Place) (count : Expr) (n : ℤ) (q : Place) (s : PlainStmt)
    → HasLongLiterals count
    → Denotes count n
    → pos 0 <ℤ n
    → end_is_reachable selected (one (Stmt.repeat_stmt p count (one (Stmt.plain q s)))) ≡ some false
unfolding end_is_reachable flow_graph reached_end sweep offer start build_block new_node edge
    edge_to_top edge_when push_break pop_break push_continue pop_continue resolve_gotos grow
    add_edge repeat_may_be_empty
counted_repeat-missed selected p count n q s h d m =
    rw (positive (integer_constant_value count) n ((integer_constant_value_iff count n h).1 d) m)
      refl

-- Do: Repeat count: Continue. End repeat. Return r. End do while cond.
abbrev pub continue_in_repeat : Place → Expr → Expr → Option Expr → Stmts
continue_in_repeat p count cond r = one (
    Stmt.do_while p
      (Stmts.then_stmt (Stmt.repeat_stmt p count (one (Stmt.continue_stmt p)))
        (one (Stmt.return_stmt p r)))
      cond)

-- For a Do while whose body is a Repeat that continues and a Return after it, endIsReachable
-- answers true, if the count of the Repeat is known to be positive and the condition of the Do
-- while is not known to be true.
pub continue_in_repeat-reported :
    (selected : Selection) (p : Place) (count cond : Expr) (r : Option Expr)
    → repeat_may_be_empty count ≡ false
    → loop_falls_through selected cond (
        Stmts.then_stmt
          (Stmt.repeat_stmt p count (one (Stmt.continue_stmt p)))
          (one (Stmt.return_stmt p r)))
      ≡ true
    → end_is_reachable selected (continue_in_repeat p count cond r) ≡ some true
unfolding end_is_reachable flow_graph reached_end sweep offer start build_block new_node edge
    edge_to_top edge_when push_break pop_break push_continue pop_continue edges_to has_default
    resolve_gotos grow add_edge
continue_in_repeat-reported selected p count cond r hc hl = rw (hc, hl) refl
