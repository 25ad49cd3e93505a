-- ===== src/Tests/ReturnPath.antt =====
-- The definite-return analysis of src/sema/sema.cpp on small bodies.
use plainspeak.Prelude.{ℕ, ◌≡◌, ◌≢◌, ◌↔◌, refl, codes, Bool, true, false, some, [], ◌∷◌, arith}
use plainspeak.Prelude.Int.{ℤ, pos, ◌<ℤ◌}
use plainspeak.Ast.{Place, Expr, Stmt, Stmts, Cases, PlainStmt}
use plainspeak.Constants.Value.{integer_constant_value, is_const_truthy_expr}
use plainspeak.ReturnPath.Select.{Selection, no_branch}
use plainspeak.ReturnPath.Graph.{Graph, Walk}
use plainspeak.ReturnPath.Graph.Laws.{IsInRange}
use plainspeak.ReturnPath.Build.{func_end, repeat_may_be_empty, loop_falls_through}
use plainspeak.ReturnPath.Sweep.{flow_graph, reached_end, end_is_reachable}
use plainspeak.ReturnPath.Sweep.Correct.{reached_end_correct}
use plainspeak.ReturnPath.Exits.{
  BlockExit, falls, end_of_block, then_next, plain, while_ends, repeat_ends, for_ends,
  do_while_ends, switch_skips, when_case, no_case,
}
use plainspeak.Constants.Meaning.{Denotes, integer, boolean}
use plainspeak.ReturnPath.Correct.{end_is_reachable_iff, falls-end_is_reachable}
use plainspeak.ReturnPath.Gaps.{
  one, counted_repeat-missed, continue_in_repeat, continue_in_repeat-reported,
}

abbrev here : Place
here = record { address = 0; line = 1 }

abbrev nothing_selected : Selection
nothing_selected p = no_branch

abbrev name : Expr
name = Expr.var_ref here (codes "n")

abbrev give : Stmt
give = Stmt.return_stmt here (some name)

abbrev say_end : Stmt
say_end = Stmt.plain here (PlainStmt.comment (codes "end"))

-- If n then: Return n. End if. Finish.
abbrev half_returns : Stmts
half_returns = Stmts.then_stmt (Stmt.if_stmt here name (one give) Stmts.done) (one say_end)

-- A loop, a Repeat, a For, a Do while and a Switch, each of which returns if it runs.
abbrev may_all_skip : Stmts
may_all_skip = Stmts.then_stmt (Stmt.while_stmt here name (one give)) (
    Stmts.then_stmt (Stmt.repeat_stmt here name (one give)) (
      Stmts.then_stmt
        (Stmt.for_stmt here (codes "i") (Expr.int_lit here (pos 3)) (Expr.int_lit here (pos 1))
          false (one give))
        (Stmts.then_stmt (Stmt.do_while here (one say_end) (Expr.bool_lit here false)) (
          one (
            Stmt.switch_stmt here name
              (Cases.a_case (some (Expr.int_lit here (pos 1))) (one give) Cases.no_cases))))))

name_means_nothing : (n : ℤ) → ¬ (Denotes name n)
name_means_nothing n d = elim d [ ]

three_passes_one :
    (a b : ℤ)
    → Denotes (Expr.int_lit here (pos 3)) a
    → Denotes (Expr.int_lit here (pos 1)) b
    → b <ℤ a
three_passes_one a b integer integer = omega arith

false_is_zero : (n : ℤ) → n ≢ pos 0 → ¬ (Denotes (Expr.bool_lit here false) n)
false_is_zero n ne (boolean e) = ne e

may_all_skip_falls : BlockExit nothing_selected may_all_skip falls
may_all_skip_falls =
    then_next (while_ends (record { long_cond = tt; never_true = λ n _. name_means_nothing n })) (
      then_next
        (repeat_ends (record { long_count = tt; never_positive = λ n _. name_means_nothing n }))
        (then_next
          (for_ends (record {
            long_from = (omega arith, omega arith);
            long_to = (omega arith, omega arith);
            passed = three_passes_one;
          }))
          (then_next
            (do_while_ends (λ e. cc) (then_next plain end_of_block)
              (record { long_cond = tt; never_true = false_is_zero }))
            (then_next (switch_skips (when_case no_case)) end_of_block))))

falls-end_is_reachable_example : end_is_reachable nothing_selected may_all_skip ≡ some true
falls-end_is_reachable_example =
    falls-end_is_reachable nothing_selected may_all_skip may_all_skip_falls

end_is_reachable_iff_example :
    (b : Bool) × (end_is_reachable nothing_selected half_returns ≡ some b)
    × ((b ≡ true)
        ↔ Walk
            (flow_graph nothing_selected half_returns).0
            (flow_graph nothing_selected half_returns).1
            func_end)
end_is_reachable_iff_example = end_is_reachable_iff nothing_selected half_returns

abbrev two_nodes : Graph
two_nodes = [] ∷ (0 ∷ 1 ∷ []) ∷ []

two_nodes-IsInRange : IsInRange two_nodes
two_nodes-IsInRange ℕ.zero = tt
two_nodes-IsInRange (ℕ.suc ℕ.zero) = omega arith
two_nodes-IsInRange (ℕ.suc (ℕ.suc u)) = tt

reached_end_correct_example :
    (b : Bool) × (reached_end two_nodes 1 ≡ some b) × ((b ≡ true) ↔ Walk two_nodes 1 func_end)
reached_end_correct_example = reached_end_correct two_nodes 1 two_nodes-IsInRange (omega arith)

counted_repeat-missed_example :
    end_is_reachable nothing_selected
      (one (Stmt.repeat_stmt here (Expr.int_lit here (pos 3)) (one say_end)))
    ≡ some false
counted_repeat-missed_example =
    counted_repeat-missed nothing_selected here (Expr.int_lit here (pos 3)) (pos 3) here
      (PlainStmt.comment (codes "end")) (omega arith, omega arith) integer (omega arith)

continue_in_repeat-reported_example :
    end_is_reachable nothing_selected
      (continue_in_repeat here (Expr.int_lit here (pos 3)) name (some name))
    ≡ some true
unfolding repeat_may_be_empty integer_constant_value loop_falls_through is_const_truthy_expr
continue_in_repeat-reported_example =
    continue_in_repeat-reported nothing_selected here (Expr.int_lit here (pos 3)) name (some name)
      refl refl
