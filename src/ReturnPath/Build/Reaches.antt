-- ===== src/ReturnPath/Build/Reaches.antt =====
-- src/sema/sema.cpp, ReturnPathChecker: every path by which a statement can be left is a walk of the
-- graph from the statement's entry: to the continuation, or to the top of the stack of its jump.
use plainspeak.Prelude.{
  ℕ, ◌<◌, ◌≡◌, ◌≢◌, ◌∙◌, refl, sym, ap, subst, not, List, ◌∷◌, In, arith, inl, inr,
}
use plainspeak.Ast.{Stmt, Stmts, Cases, Elifs}
use plainspeak.ReturnPath.Select.{
  Selection, Branch, no_branch, then_branch, else_branch, elif_branch,
}
use plainspeak.ReturnPath.Graph.{here}
use plainspeak.ReturnPath.Graph.Laws.{Walk-trans}
use plainspeak.ReturnPath.Build.{
  Checker, Built, new_node, push_break, pop_break, push_continue, build_block, build_stmt,
  build_cases, build_elif, has_default,
}
use plainspeak.ReturnPath.Build.Steps.{
  size, IsWell, Steps, Steps-trans, new_node-Builds, edge-Steps, edge_when-Steps, edges_to-Steps,
  push_break-IsWell, set_label-Steps, pop_break-Steps,
}
use plainspeak.ReturnPath.Build.WellFormed.{
  build_block-Builds, build_stmt-Builds, build_cases-Builds, loop_start-IsWell,
}
use plainspeak.ReturnPath.Build.Leads.{
  Leads, Leads-Steps, edge-Leads, edge_when-Leads, edge_to_top-Leads, edges_to-Leads, loop_enters,
  loop_ends, for_each_ends, do_while_enters, do_while_ends, repeat_enters, repeat_ends,
}
use plainspeak.ReturnPath.Exits.Known.{
  loop_falls_through-MayBeFalse, repeat_may_be_empty-MayBeZero, range_may_be_empty-MayBeEmpty,
  has_default-OnlyWhen,
}
use plainspeak.ReturnPath.Exits.{
  end_of_block, then_next, leave, plain, label, nested_procedure, break_out, continue_on, if_then,
  if_else, compiled_then, compiled_else, compiled_elif, repeat_ends as exit_repeat_ends,
  repeat_breaks, while_ends, while_breaks, do_while_ends as exit_do_while_ends, do_while_breaks,
  for_each_ends as exit_for_each_ends, for_ends, for_breaks, switch_skips, switch_enters, past_last,
  fall_on, last_breaks, case_continues, first_case, later_case, this_elif, next_elif, Exit, falls,
  breaks, continues, StmtExit, BlockExit, CasesExit, Enters, ElifExit,
}

-- Where an exit leads: to the continuation, or to the top of a stack.
abbrev pub Target : Exit → ℕ → Checker → ℕ → Type 0
Target falls k c t = t ≡ k
Target breaks k c t = (rest : List ℕ) × (c.break_stack ≡ t ∷ rest)
Target continues k c t = (rest : List ℕ) × (c.continue_stack ≡ t ∷ rest)

-- A jump leads to the same node in a state with the same stacks.
Target-Steps :
    {c d : Checker} (o : Exit) (k k' t : ℕ)
    → o ≢ falls
    → Steps c d
    → Target o k c t
    → Target o k' d t
Target-Steps falls k k' t ne s h = absurd (ne refl)
Target-Steps breaks k k' t ne s (rest, e) = (rest, s.same_breaks ∙ e)
Target-Steps continues k k' t ne s (rest, e) = (rest, s.same_continues ∙ e)

Target-keep : {c d : Checker} (o : Exit) (k t : ℕ) → Steps c d → Target o k c t → Target o k d t
Target-keep falls k t s h = h
Target-keep breaks k t s (rest, e) = (rest, s.same_breaks ∙ e)
Target-keep continues k t s (rest, e) = (rest, s.same_continues ∙ e)

pushed :
    (k t : ℕ) (stack : List ℕ) → t ≡ k → (rest : List ℕ) × (◌≡◌ {A = List ℕ} (k ∷ stack) (t ∷ rest))
pushed k t stack q = (stack, rw q)

-- Completion and Continue both lead a loop's body to the loop's test.
Target-loop :
    (o : Exit) (k target : ℕ) (c : Checker)
    → o ≢ breaks
    → Target o target (push_continue target (push_break k c)) target
unfolding push_continue push_break
Target-loop falls k target c ne = refl
Target-loop breaks k target c ne = absurd (ne refl)
Target-loop continues k target c ne = (_, refl)

-- What the lemmas below need of one statement or list: a state, a continuation and a target.
abbrev Reaches : Built → ℕ → Type 0
Reaches r t = Leads r.0 r.1 t

module _ (selected : Selection) where
  -- The body that build_stmt takes for a Compile if with this branch.
  abbrev pub compiled : Stmts → Elifs → Stmts → ℕ → Checker → Branch → Built
  compiled then_body elifs else_body k c b = elim b [
    | no_branch ↦ build_block selected then_body k c
    | then_branch ↦ build_block selected then_body k c
    | else_branch ↦ build_block selected else_body k c
    | elif_branch n ↦ build_elif selected elifs n k c
  ]

  mutual
    unfolding build_block push_break push_continue pop_break

    pub block-Reaches :
        {b : Stmts} {o : Exit}
        → BlockExit selected b o
        → (k : ℕ) (c : Checker) (t : ℕ) → IsWell c
        → k < size c
        → Target o k c t
        → Reaches (build_block selected b k c) t
    block-Reaches end_of_block k c t w h q = rw q here
    block-Reaches (then_next {s} {rest} {o} d ds) k c t w h q =
        let r = build_block-Builds selected rest k c w h in
        let m = build_stmt-Builds selected s _ _ r.steps.well r.entry in
        Walk-trans (stmt-Reaches d _ _ _ r.steps.well r.entry refl)
          (Leads-Steps m.steps (block-Reaches ds k c t w h q))
    block-Reaches (leave {s} {rest} {o} d ne) k c t w h q =
        let r = build_block-Builds selected rest k c w h in
        stmt-Reaches d _ _ t r.steps.well r.entry (Target-Steps o k _ t ne r.steps q)

    pub stmt-Reaches :
        {s : Stmt} {o : Exit}
        → StmtExit selected s o
        → (k : ℕ) (c : Checker) (t : ℕ) → IsWell c
        → k < size c
        → Target o k c t
        → Reaches (build_stmt selected s k c) t
    stmt-Reaches plain k c t w h q = rw q (edge-Leads _ _ k (new_node-Builds w).entry)
    stmt-Reaches nested_procedure k c t w h q = rw q (edge-Leads _ _ k (new_node-Builds w).entry)
    stmt-Reaches (label {name}) k c t w h q =
        let n = new_node-Builds w in
        let l = set_label-Steps name _ n.entry n.steps.well in
        rw q (edge-Leads _ _ k (omega (arith, n.entry, l.grows)))
    stmt-Reaches break_out k c t w h (rest, e) =
        edge_to_top-Leads _ _ c.break_stack e (new_node-Builds w).entry
    stmt-Reaches continue_on k c t w h (rest, e) =
        edge_to_top-Leads _ _ c.continue_stack e (new_node-Builds w).entry
    stmt-Reaches (if_then {t = yes_body} {e = no_body} {o} d) k c t w h q =
        let n = new_node-Builds w in
        let hn : k < size (new_node c).0 = omega (arith, n.steps.grows) in
        let b = build_block-Builds selected yes_body k _ n.steps.well hn in
        let e = edge-Steps _ _ b.entry b.steps.well in
        let f =
          build_block-Builds selected no_body k _ e.well
            (omega (arith, hn, b.steps.grows, e.grows)) in
        let g = edge-Steps _ _ f.entry f.steps.well in
        Leads-Steps (Steps-trans f.steps g) (
          Walk-trans (edge-Leads _ _ _ (omega (arith, n.entry, b.steps.grows)))
            (Leads-Steps e (block-Reaches d k _ t n.steps.well hn (Target-keep o k t n.steps q))))
    stmt-Reaches (if_else {t = yes_body} {e = no_body} {o} d) k c t w h q =
        let n = new_node-Builds w in
        let hn : k < size (new_node c).0 = omega (arith, n.steps.grows) in
        let b = build_block-Builds selected yes_body k _ n.steps.well hn in
        let e = edge-Steps _ _ b.entry b.steps.well in
        let f =
          build_block-Builds selected no_body k _ e.well
            (omega (arith, hn, b.steps.grows, e.grows)) in
        let g = edge-Steps _ _ f.entry f.steps.well in
        let before = Steps-trans n.steps (Steps-trans b.steps e) in
        Walk-trans
          (edge-Leads _ _ _ (omega (arith, n.entry, b.steps.grows, e.grows, f.steps.grows)))
          (Leads-Steps g (
            block-Reaches d k _ t e.well (omega (arith, hn, b.steps.grows, e.grows))
              (Target-keep o k t before q)))
    stmt-Reaches (compiled_then {t = yes_body} {e = no_body} {es} e d) k c t w h q =
        subst (λ b. Reaches (compiled yes_body es no_body k c b) t) (sym e)
          (block-Reaches d k c t w h q)
    stmt-Reaches (compiled_else {t = yes_body} {e = no_body} {es} e d) k c t w h q =
        subst (λ b. Reaches (compiled yes_body es no_body k c b) t) (sym e)
          (block-Reaches d k c t w h q)
    stmt-Reaches (compiled_elif {t = yes_body} {e = no_body} {es} e d) k c t w h q =
        subst (λ b. Reaches (compiled yes_body es no_body k c b) t) (sym e)
          (elif-Reaches d k c t w h q)
    stmt-Reaches (exit_repeat_ends {count} {body} e) k c t w h q =
        let n = new_node-Builds w in
        let hn : k < size (new_node c).0 = omega (arith, n.steps.grows) in
        let b =
          build_block-Builds selected body _ _ (push_break-IsWell k hn n.steps.well) n.entry in
        rw q (repeat_ends _ _ k _ hn n.entry b _ (repeat_may_be_empty-MayBeZero count e))
    stmt-Reaches (repeat_breaks {count} {body} d) k c t w h q =
        let n = new_node-Builds w in
        let hn : k < size (new_node c).0 = omega (arith, n.steps.grows) in
        let start = push_break-IsWell k hn n.steps.well in
        let b = build_block-Builds selected body _ _ start n.entry in
        repeat_enters _ _ k _ hn n.entry b _ (block-Reaches d _ _ t start n.entry (pushed _ t _ q))
    stmt-Reaches (while_ends {cond} {body} m) k c t w h q =
        let n = new_node-Builds w in
        let hn : k < size (new_node c).0 = omega (arith, n.steps.grows) in
        let b =
          build_block-Builds selected body _ _ (loop_start-IsWell k _ hn n.entry n.steps.well)
            n.entry in
        rw q
          (loop_ends _ _ k _ _ hn n.entry b _ (loop_falls_through-MayBeFalse selected cond body m))
    stmt-Reaches (while_breaks {cond} {body} d) k c t w h q =
        let n = new_node-Builds w in
        let hn : k < size (new_node c).0 = omega (arith, n.steps.grows) in
        let start = loop_start-IsWell k _ hn n.entry n.steps.well in
        let b = build_block-Builds selected body _ _ start n.entry in
        loop_enters _ _ k _ _ hn n.entry b _ (block-Reaches d _ _ t start n.entry (pushed _ t _ q))
    stmt-Reaches (for_ends {from} {to} {descending} {body} m) k c t w h q =
        let n = new_node-Builds w in
        let hn : k < size (new_node c).0 = omega (arith, n.steps.grows) in
        let b =
          build_block-Builds selected body _ _ (loop_start-IsWell k _ hn n.entry n.steps.well)
            n.entry in
        rw q
          (loop_ends _ _ k _ _ hn n.entry b _ (range_may_be_empty-MayBeEmpty from to descending m))
    stmt-Reaches (for_breaks {body} d) k c t w h q =
        let n = new_node-Builds w in
        let hn : k < size (new_node c).0 = omega (arith, n.steps.grows) in
        let start = loop_start-IsWell k _ hn n.entry n.steps.well in
        let b = build_block-Builds selected body _ _ start n.entry in
        loop_enters _ _ k _ _ hn n.entry b _ (block-Reaches d _ _ t start n.entry (pushed _ t _ q))
    stmt-Reaches (exit_for_each_ends {body}) k c t w h q =
        let n = new_node-Builds w in
        let hn : k < size (new_node c).0 = omega (arith, n.steps.grows) in
        let b =
          build_block-Builds selected body _ _ (loop_start-IsWell k _ hn n.entry n.steps.well)
            n.entry in
        rw q (for_each_ends _ _ k _ _ hn n.entry b)
    stmt-Reaches (exit_do_while_ends {cond} {body} {o} ne d f) k c t w h q =
        let n = new_node-Builds w in
        let m = new_node-Builds n.steps.well in
        let hm : k < size (new_node (new_node c).0).0 =
          omega (arith, n.steps.grows, m.steps.grows) in
        let hh : (new_node c).1 < size (new_node (new_node c).0).0 =
          omega (arith, n.entry, m.steps.grows) in
        let start = loop_start-IsWell k _ hm m.entry m.steps.well in
        let b = build_block-Builds selected body _ _ start m.entry in
        Walk-trans
          (do_while_enters _ _ k _ _ hm hh b m.entry _
            (block-Reaches d _ _ _ start m.entry (Target-loop o _ _ _ ne)))
          (rw q (
            do_while_ends _ _ k _ _ hm hh b m.entry _
              (loop_falls_through-MayBeFalse selected cond body f)))
    stmt-Reaches (do_while_breaks {body} d) k c t w h q =
        let n = new_node-Builds w in
        let m = new_node-Builds n.steps.well in
        let hm : k < size (new_node (new_node c).0).0 =
          omega (arith, n.steps.grows, m.steps.grows) in
        let hh : (new_node c).1 < size (new_node (new_node c).0).0 =
          omega (arith, n.entry, m.steps.grows) in
        let start = loop_start-IsWell k _ hm m.entry m.steps.well in
        let b = build_block-Builds selected body _ _ start m.entry in
        do_while_enters _ _ k _ _ hm hh b m.entry _
          (block-Reaches d _ _ t start m.entry (pushed _ t _ q))
    stmt-Reaches (switch_skips {cs} o) k c t w h q =
        let n = new_node-Builds w in
        let hn : k < size (new_node c).0 = omega (arith, n.steps.grows) in
        let r = build_cases selected cs k (new_node c).0 in
        let b = build_cases-Builds selected cs k (new_node c).0 n.steps.well hn in
        let f = edges_to-Steps (new_node c).1 r.2 r.0 b.entries b.steps.well in
        rw q (
          edge_when-Leads _ (not (has_default cs)) _ k (ap not (has_default-OnlyWhen o))
            (omega (arith, n.entry, b.steps.grows, f.grows)))
    stmt-Reaches (switch_enters {cs} {o} d) k c t w h q =
        let n = new_node-Builds w in
        let hn : k < size (new_node c).0 = omega (arith, n.steps.grows) in
        let r = build_cases selected cs k (new_node c).0 in
        let b = build_cases-Builds selected cs k (new_node c).0 n.steps.well hn in
        let f = edges_to-Steps (new_node c).1 r.2 r.0 b.entries b.steps.well in
        let g =
          edge_when-Steps (not (has_default cs)) _ k (omega (arith, hn, b.steps.grows, f.grows))
            f.well in
        let (e, m, walk) = Enters-reach d k _ t n.steps.well hn (Target-keep o k t n.steps q) in
        Leads-Steps g (
          Walk-trans
            (edges_to-Leads _ _ _ b.entries b.steps.well (omega (arith, n.entry, b.steps.grows)) m)
            (Leads-Steps f walk))

    cases_reach :
        {cs : Cases} {o : Exit}
        → CasesExit selected cs o
        → (k : ℕ) (c : Checker) (t : ℕ) → IsWell c
        → k < size c
        → Target o k c t
        → Leads (build_cases selected cs k c).0 (build_cases selected cs k c).1 t
    cases_reach past_last k c t w h q = rw q here
    cases_reach (fall_on {body} {rest} {o} d ds) k c t w h q =
        let r = build_cases-Builds selected rest k c w h in
        let start = push_break-IsWell _ r.entry r.steps.well in
        let b = build_block-Builds selected body _ _ start r.entry in
        Walk-trans (block-Reaches d _ _ _ start r.entry refl)
          (Leads-Steps (pop_break-Steps _ b.steps) (cases_reach ds k c t w h q))
    cases_reach (last_breaks {body} d) k c t w h q =
        block-Reaches d _ _ t (push_break-IsWell k h w) h (pushed _ t _ q)
    cases_reach (case_continues {body} {rest} d) k c t w h (stack, e) =
        let r = build_cases-Builds selected rest k c w h in
        let start = push_break-IsWell _ r.entry r.steps.well in
        block-Reaches d _ _ t start r.entry (stack, r.steps.same_continues ∙ e)

    Enters-reach :
        {cs : Cases} {o : Exit}
        → Enters selected cs o
        → (k : ℕ) (c : Checker) (t : ℕ) → IsWell c
        → k < size c
        → Target o k c t
        → (e : ℕ) × In e (build_cases selected cs k c).2 × Leads (build_cases selected cs k c).0 e t
    Enters-reach (first_case d) k c t w h q = (_, inl refl, cases_reach d k c t w h q)
    Enters-reach (later_case {body} {rest} d) k c t w h q =
        let r = build_cases-Builds selected rest k c w h in
        let b =
          build_block-Builds selected body _ _ (push_break-IsWell _ r.entry r.steps.well) r.entry in
        let (e, m, walk) = Enters-reach d k c t w h q in
        (e, inr m, Leads-Steps (pop_break-Steps _ b.steps) walk)

    elif-Reaches :
        {es : Elifs} {n : ℕ} {o : Exit}
        → ElifExit selected es n o
        → (k : ℕ) (c : Checker) (t : ℕ) → IsWell c
        → k < size c
        → Target o k c t
        → Reaches (build_elif selected es n k c) t
    elif-Reaches (this_elif e d) k c t w h q = rw (e, build_elif) (block-Reaches d k c t w h q)
    elif-Reaches (next_elif d) k c t w h q = elif-Reaches d k c t w h q
