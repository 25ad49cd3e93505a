-- ===== src/ReturnPath/Build/WellFormed.antt =====
-- src/sema/sema.cpp, ReturnPathChecker: whatever body is built, the graph grows, its edges end at
-- its nodes and the stacks are given back as they were.
use plainspeak.Prelude.{ℕ, zero, suc, ◌<◌, Bool, true, not, List, ◌∷◌, arith}
use plainspeak.Ast.{Stmt, Stmts, Cases, Elifs}
use plainspeak.ReturnPath.Select.{Selection, no_branch, then_branch, else_branch, elif_branch}
use plainspeak.ReturnPath.Graph.Laws.{AllBelow, AllBelow-mono}
use plainspeak.ReturnPath.Build.{
  Checker, Built, new_node, edge, edge_when, push_break, pop_break, push_continue, pop_continue,
  build_block, build_stmt, build_cases, build_elif, has_default, repeat_may_be_empty,
}
use plainspeak.ReturnPath.Build.Steps.{
  size, IsWell, Steps, Builds, Steps-refl, Steps-trans, new_node-Builds, edge-Steps,
  edge_when-Steps, edge_to_top-Steps, edges_to-Steps, add_goto-Steps, set_label-Steps,
  push_break-IsWell, push_continue-IsWell, pop_break-Steps, pop_continue-Steps, Builds-then,
}

-- What build_cases gives: the entries are nodes too.
pub record BuildsCases (c : Checker) (r : Checker × ℕ × List ℕ) : Type 0 where
  pub steps : Steps c r.0
  pub entry : r.1 < size r.0
  pub entries : AllBelow (size r.0) r.2

module _ {c : Checker} (r : Built) (k target : ℕ) where
  pub popped-Steps :
      Steps (push_continue target (push_break k c)) r.0 → Steps c (pop_continue (pop_break r.0))
  unfolding push_continue push_break
  popped-Steps s = pop_continue-Steps target (pop_break-Steps k s)

  -- The edges of a loop: from its head to the entry of its body, and out of it if it may end.
  loop-Steps :
      (test : Bool) (head : ℕ)
      → k < size c
      → Builds (push_continue target (push_break k c)) r
      → Steps c (edge_when test head k (edge head r.1 (pop_continue (pop_break r.0))))
  unfolding pop_continue pop_break
  loop-Steps test head h b =
      let p = popped-Steps b.steps in
      let e = edge-Steps head r.1 b.entry p.well in
      let w = edge_when-Steps test head k (omega (arith, h, p.grows, e.grows)) e.well in
      Steps-trans p (Steps-trans e w)

  for_each-Steps :
      (head : ℕ)
      → k < size c
      → Builds (push_continue target (push_break k c)) r
      → Steps c (edge head k (edge head r.1 (pop_continue (pop_break r.0))))
  unfolding edge_when
  for_each-Steps head h b = loop-Steps true head h b

  do_while-Steps :
      (test : Bool) (head : ℕ)
      → k < size c
      → head < size c
      → Builds (push_continue target (push_break k c)) r
      → Steps c (
          edge_when test target k (edge target head (edge head r.1 (pop_continue (pop_break r.0)))))
  unfolding pop_continue pop_break
  do_while-Steps test head h h' b =
      let p = popped-Steps b.steps in
      let e = edge-Steps head r.1 b.entry p.well in
      let f = edge-Steps target head (omega (arith, h', p.grows, e.grows)) e.well in
      let w = edge_when-Steps test target k (omega (arith, h, p.grows, e.grows, f.grows)) f.well in
      Steps-trans p (Steps-trans e (Steps-trans f w))

-- Repeat pushes no continue target.
pub repeat-Steps :
    {c : Checker} {r : Built} (k : ℕ) (test : Bool) (head : ℕ)
    → k < size c
    → Builds (push_break k c) r
    → Steps c (edge_when test head k (edge head r.1 (pop_break r.0)))
unfolding pop_break
repeat-Steps {r} k test head h b =
    let p = pop_break-Steps k b.steps in
    let e = edge-Steps head r.1 b.entry p.well in
    let w = edge_when-Steps test head k (omega (arith, h, p.grows, e.grows)) e.well in
    Steps-trans p (Steps-trans e w)

-- One more case in front of those that are built.
case-Builds :
    {c : Checker} {r : Checker × ℕ × List ℕ} {t : Built}
    → BuildsCases c r
    → Builds (push_break r.1 r.0) t
    → BuildsCases c (pop_break t.0, t.1, t.1 ∷ r.2)
unfolding pop_break
case-Builds {r} {t} b d =
    let p = pop_break-Steps r.1 d.steps in
    record {
      steps = Steps-trans b.steps p;
      entry = d.entry;
      entries = (d.entry, AllBelow-mono r.2 p.grows b.entries);
    }

pub loop_start-IsWell :
    {c : Checker} (k target : ℕ)
    → k < size c
    → target < size c
    → IsWell c
    → IsWell (push_continue target (push_break k c))
unfolding push_break
loop_start-IsWell k target h t w = push_continue-IsWell target t (push_break-IsWell k h w)

module _ (selected : Selection) where
  mutual
    unfolding build_block push_break push_continue

    pub build_block-Builds :
        (b : Stmts) (k : ℕ) (c : Checker)
        → IsWell c
        → k < size c
        → Builds c (build_block selected b k c)
    build_block-Builds Stmts.done k c w h = record { steps = Steps-refl w; entry = h }
    build_block-Builds (Stmts.then_stmt s rest) k c w h =
        let r = build_block-Builds rest k c w h in
        let t = build_stmt-Builds s _ _ r.steps.well r.entry in
        record { steps = Steps-trans r.steps t.steps; entry = t.entry }

    pub build_stmt-Builds :
        (s : Stmt) (k : ℕ) (c : Checker)
        → IsWell c
        → k < size c
        → Builds c (build_stmt selected s k c)
    build_stmt-Builds (Stmt.plain p s) k c w h =
        let n = new_node-Builds w in
        Builds-then n (edge-Steps _ k (omega (arith, n.steps.grows)) n.steps.well)
    build_stmt-Builds (Stmt.break_stmt p) k c w h =
        let n = new_node-Builds w in
        Builds-then n (
          edge_to_top-Steps _ c.break_stack (AllBelow-mono c.break_stack n.steps.grows w.breaks)
            n.steps.well)
    build_stmt-Builds (Stmt.continue_stmt p) k c w h =
        let n = new_node-Builds w in
        Builds-then n (
          edge_to_top-Steps _ c.continue_stack
            (AllBelow-mono c.continue_stack n.steps.grows w.continues) n.steps.well)
    build_stmt-Builds (Stmt.repeat_stmt p count body) k c w h =
        let n = new_node-Builds w in
        let h' : k < size (new_node c).0 = omega (arith, n.steps.grows) in
        let b =
          build_block-Builds body _ (push_break k (new_node c).0)
            (push_break-IsWell k h' n.steps.well) n.entry in
        Builds-then n (repeat-Steps k (repeat_may_be_empty count) _ h' b)
    build_stmt-Builds (Stmt.if_stmt p cond then_body else_body) k c w h =
        let n = new_node-Builds w in
        let b = build_block-Builds then_body k _ n.steps.well (omega (arith, n.steps.grows)) in
        let e = edge-Steps _ _ b.entry b.steps.well in
        let f =
          build_block-Builds else_body k _ e.well
            (omega (arith, n.steps.grows, b.steps.grows, e.grows)) in
        let g = edge-Steps _ _ f.entry f.steps.well in
        Builds-then n (Steps-trans b.steps (Steps-trans e (Steps-trans f.steps g)))
    build_stmt-Builds (Stmt.compile_if p name then_body elifs else_body) k c w h =
        elim (selected p)
          as (λ b. Builds c (elim b [
            | no_branch ↦ build_block selected then_body k c
            | then_branch ↦ build_block selected then_body k c
            | else_branch ↦ build_block selected else_body k c
            | elif_branch n ↦ build_elif selected elifs n k c
          ])) [
            | no_branch ↦ build_block-Builds then_body k c w h
            | then_branch ↦ build_block-Builds then_body k c w h
            | else_branch ↦ build_block-Builds else_body k c w h
            | elif_branch n ↦ build_elif-Builds elifs n k c w h
          ]
    build_stmt-Builds (Stmt.while_stmt p cond body) k c w h =
        let n = new_node-Builds w in
        let h' : k < size (new_node c).0 = omega (arith, n.steps.grows) in
        let b =
          build_block-Builds body _ _ (loop_start-IsWell k _ h' n.entry n.steps.well) n.entry in
        Builds-then n (loop-Steps _ k _ _ _ h' b)
    build_stmt-Builds (Stmt.do_while p body cond) k c w h =
        let n = new_node-Builds w in
        let m = new_node-Builds n.steps.well in
        let h' : k < size (new_node (new_node c).0).0 =
          omega (arith, n.steps.grows, m.steps.grows) in
        let b =
          build_block-Builds body _ _ (loop_start-IsWell k _ h' m.entry m.steps.well) m.entry in
        Builds-then n (
          Steps-trans m.steps
            (do_while-Steps _ k _ _ _ h' (omega (arith, n.entry, m.steps.grows)) b))
    build_stmt-Builds (Stmt.for_each p name l body) k c w h =
        let n = new_node-Builds w in
        let h' : k < size (new_node c).0 = omega (arith, n.steps.grows) in
        let b =
          build_block-Builds body _ _ (loop_start-IsWell k _ h' n.entry n.steps.well) n.entry in
        Builds-then n (for_each-Steps _ k _ _ h' b)
    build_stmt-Builds (Stmt.for_stmt p name from to descending body) k c w h =
        let n = new_node-Builds w in
        let h' : k < size (new_node c).0 = omega (arith, n.steps.grows) in
        let b =
          build_block-Builds body _ _ (loop_start-IsWell k _ h' n.entry n.steps.well) n.entry in
        Builds-then n (loop-Steps _ k _ _ _ h' b)
    build_stmt-Builds (Stmt.switch_stmt p cond cases) k c w h =
        let n = new_node-Builds w in
        let h' : k < size (new_node c).0 = omega (arith, n.steps.grows) in
        let b = build_cases-Builds cases k _ n.steps.well h' in
        let e = edges_to-Steps _ _ _ b.entries b.steps.well in
        let d =
          edge_when-Steps (not (has_default cases)) _ k (omega (arith, h', b.steps.grows, e.grows))
            e.well in
        Builds-then n (Steps-trans b.steps (Steps-trans e d))
    build_stmt-Builds (Stmt.goto_stmt p label) k c w h =
        let n = new_node-Builds w in Builds-then n (add_goto-Steps _ label n.steps.well)
    build_stmt-Builds (Stmt.label_stmt p name) k c w h =
        let n = new_node-Builds w in
        let l = set_label-Steps name _ n.entry n.steps.well in
        let e = edge-Steps _ k (omega (arith, n.steps.grows, l.grows)) l.well in
        Builds-then n (Steps-trans l e)
    build_stmt-Builds (Stmt.procedure p head body) k c w h =
        let n = new_node-Builds w in
        Builds-then n (edge-Steps _ k (omega (arith, n.steps.grows)) n.steps.well)
    build_stmt-Builds (Stmt.return_stmt p value) k c w h = new_node-Builds w

    pub build_cases-Builds :
        (cs : Cases) (k : ℕ) (c : Checker)
        → IsWell c
        → k < size c
        → BuildsCases c (build_cases selected cs k c)
    build_cases-Builds Cases.no_cases k c w h = record {
      steps = Steps-refl w;
      entry = h;
      entries = tt;
    }
    build_cases-Builds (Cases.a_case value body rest) k c w h =
        let r = build_cases-Builds rest k c w h in
        let b = build_block-Builds body _ _ (push_break-IsWell _ r.entry r.steps.well) r.entry in
        case-Builds r b

    pub build_elif-Builds :
        (es : Elifs) (n k : ℕ) (c : Checker)
        → IsWell c
        → k < size c
        → Builds c (build_elif selected es n k c)
    build_elif-Builds Elifs.no_elifs n k c w h = record { steps = Steps-refl w; entry = h }
    build_elif-Builds (Elifs.an_elif name body rest) zero k c w h = build_block-Builds body k c w h
    build_elif-Builds (Elifs.an_elif name body rest) (suc n) k c w h =
        build_elif-Builds rest n k c w h
