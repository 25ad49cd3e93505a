-- ===== src/ReturnPath/Build.antt =====
-- src/sema/sema.cpp, ReturnPathChecker: the construction of the control-flow graph, from the last
-- statement of a body to the first. The member variables are the fields of `Checker`; what the
-- methods mutate they return. `label_nodes` is a map by its latest entry, and the stacks have their
-- top first.
pub mod Steps
pub mod WellFormed
pub mod Leads
pub mod Reaches
use plainspeak.Prelude.{
  ℕ, zero, suc, Text, text_eq, Bool, true, false, not, ◌&&◌, List, [], ◌∷◌, ◌++◌, Option, none,
  some, length, if◌then◌else◌,
}
use plainspeak.Prelude.Int.{ℤ, pos, ltb_ℤ}
use plainspeak.Ast.{Expr, Stmt, Stmts, Cases, Elifs}
use plainspeak.Constants.Value.{integer_constant_value, is_const_truthy_expr}
use plainspeak.ReturnPath.Select.{
  Selection, no_branch, then_branch, else_branch, elif_branch, body_has_level_break,
}
use plainspeak.ReturnPath.Graph.{Graph, grow, add_edge}

pub record Checker : Type 0 where
  pub successors : Graph
  pub pending_gotos : List (ℕ × Text)
  pub label_nodes : List (Text × ℕ)
  pub break_stack : List ℕ
  pub continue_stack : List ℕ

abbrev pub func_end : ℕ
func_end = 0

abbrev pub Built : Type 0
Built = Checker × ℕ

unfoldable pub new_node : Checker → Built
new_node c = (record c { successors = grow c.successors }, length c.successors)

unfoldable pub edge : ℕ → ℕ → Checker → Checker
edge from to c = record c { successors = add_edge from to c.successors }

-- An edge to the top of a stack, if there is one.
unfoldable pub edge_to_top : ℕ → List ℕ → Checker → Checker
unfolding edge
edge_to_top from [] c = c
edge_to_top from (top ∷ rest) c = edge from top c

unfoldable pub edge_when : Bool → ℕ → ℕ → Checker → Checker
unfolding edge
edge_when test from to c = if test then edge from to c else c

unfoldable pub push_break : ℕ → Checker → Checker
push_break target c = record c { break_stack = target ∷ c.break_stack }

abbrev pub pop : List ℕ → List ℕ
pop [] = []
pop (top ∷ rest) = rest

unfoldable pub pop_break : Checker → Checker
pop_break c = record c { break_stack = pop c.break_stack }

unfoldable pub push_continue : ℕ → Checker → Checker
push_continue target c = record c { continue_stack = target ∷ c.continue_stack }

unfoldable pub pop_continue : Checker → Checker
pop_continue c = record c { continue_stack = pop c.continue_stack }

unfoldable pub add_goto : ℕ → Text → Checker → Checker
add_goto from name c = record c { pending_gotos = c.pending_gotos ++ (from, name) ∷ [] }

unfoldable pub set_label : Text → ℕ → Checker → Checker
set_label name node c = record c { label_nodes = (name, node) ∷ c.label_nodes }

-- head edges to the case entries, in source order
unfoldable pub edges_to : ℕ → List ℕ → Checker → Checker
edges_to head [] c = c
edges_to head (entry ∷ rest) c = edges_to head rest (edge head entry c)

unfoldable pub has_default : Cases → Bool
has_default Cases.no_cases = false
has_default (Cases.a_case none body rest) = true
has_default (Cases.a_case (some value) body rest) = has_default rest

-- A loop whose condition is a non-zero constant and whose body cannot break never falls through.
unfoldable pub loop_falls_through : Selection → Expr → Stmts → Bool
loop_falls_through selected cond body =
    not (is_const_truthy_expr cond && not (body_has_level_break selected body 0))

unfoldable pub repeat_may_be_empty : Expr → Bool
repeat_may_be_empty count = elim (integer_constant_value count) [
  | none ↦ true
  | some n ↦ not (ltb_ℤ (pos 0) n)
]

-- Bounds that are not both constants, or a range that is known to be empty.
unfoldable pub known_range_is_empty : Option ℤ → Option ℤ → Bool → Bool
known_range_is_empty (some from) (some to) descending =
    if descending then ltb_ℤ from to else ltb_ℤ to from
known_range_is_empty from to descending = true

unfoldable pub range_may_be_empty : Expr → Expr → Bool → Bool
unfolding known_range_is_empty
range_may_be_empty from to descending =
    known_range_is_empty (integer_constant_value from) (integer_constant_value to) descending

module _ (selected : Selection) where
  unfoldable mutual
    pub build_block : Stmts → ℕ → Checker → Built
    build_block Stmts.done continuation c = (c, continuation)
    build_block (Stmts.then_stmt s rest) continuation c =
        let (c', succ) = build_block rest continuation c in build_stmt s succ c'

    pub build_stmt : Stmt → ℕ → Checker → Built
    build_stmt (Stmt.plain p s) continuation c =
        let (c', complete) = new_node c in (edge complete continuation c', complete)
    build_stmt (Stmt.break_stmt p) continuation c =
        let (c', jump) = new_node c in (edge_to_top jump c.break_stack c', jump)
    build_stmt (Stmt.continue_stmt p) continuation c =
        let (c', jump) = new_node c in (edge_to_top jump c.continue_stack c', jump)
    build_stmt (Stmt.repeat_stmt p count body) continuation c =
        let (c₁, head) = new_node c in
        let (c₂, entry) = build_block body head (push_break continuation c₁) in
        (
          edge_when (repeat_may_be_empty count) head continuation (edge head entry (pop_break c₂)),
          head,
        )
    build_stmt (Stmt.if_stmt p cond then_body else_body) continuation c =
        let (c₁, test) = new_node c in
        let (c₂, yes_entry) = build_block then_body continuation c₁ in
        let (c₃, no_entry) = build_block else_body continuation (edge test yes_entry c₂) in
        (edge test no_entry c₃, test)
    build_stmt (Stmt.compile_if p name then_body elifs else_body) continuation c =
        elim (selected p) [
          | no_branch ↦ build_block then_body continuation c
          | then_branch ↦ build_block then_body continuation c
          | else_branch ↦ build_block else_body continuation c
          | elif_branch n ↦ build_elif elifs n continuation c
        ]
    build_stmt (Stmt.while_stmt p cond body) continuation c =
        let (c₁, head) = new_node c in
        let (c₂, entry) = build_block body head (push_continue head (push_break continuation c₁)) in
        (
          edge_when (loop_falls_through selected cond body) head continuation
              (edge head entry (pop_continue (pop_break c₂))),
          head,
        )
    build_stmt (Stmt.do_while p body cond) continuation c =
        let (c₁, head) = new_node c in
        let (c₂, test) = new_node c₁ in
        let (c₃, entry) = build_block body test (push_continue test (push_break continuation c₂)) in
        (
          edge_when (loop_falls_through selected cond body) test continuation
              (edge test head (edge head entry (pop_continue (pop_break c₃)))),
          head,
        )
    build_stmt (Stmt.for_each p name l body) continuation c =
        let (c₁, head) = new_node c in
        let (c₂, entry) = build_block body head (push_continue head (push_break continuation c₁)) in
        (edge head continuation (edge head entry (pop_continue (pop_break c₂))), head)
    build_stmt (Stmt.for_stmt p name from to descending body) continuation c =
        let (c₁, head) = new_node c in
        let (c₂, entry) = build_block body head (push_continue head (push_break continuation c₁)) in
        (
          edge_when (range_may_be_empty from to descending) head continuation
              (edge head entry (pop_continue (pop_break c₂))),
          head,
        )
    build_stmt (Stmt.switch_stmt p cond cases) continuation c =
        let (c₁, head) = new_node c in
        let (c₂, fall, entries) = build_cases cases continuation c₁ in
        (edge_when (not (has_default cases)) head continuation (edges_to head entries c₂), head)
    build_stmt (Stmt.goto_stmt p label) continuation c =
        let (c', jump) = new_node c in (add_goto jump label c', jump)
    build_stmt (Stmt.label_stmt p name) continuation c =
        let (c', label) = new_node c in (edge label continuation (set_label name label c'), label)
    build_stmt (Stmt.procedure p head body) continuation c =
        let (c', complete) = new_node c in (edge complete continuation c', complete)
    build_stmt (Stmt.return_stmt p value) continuation c = new_node c

    -- The state, the entry of the first case, and the entries in source order. A Break in a case
    -- goes to what stands on top of the break stack: the entry of the next case.
    pub build_cases : Cases → ℕ → Checker → Checker × ℕ × List ℕ
    build_cases Cases.no_cases continuation c = (c, continuation, [])
    build_cases (Cases.a_case value body rest) continuation c =
        let (c₁, fall, entries) = build_cases rest continuation c in
        let (c₂, entry) = build_block body fall (push_break fall c₁) in
        (pop_break c₂, entry, entry ∷ entries)

    pub build_elif : Elifs → ℕ → ℕ → Checker → Built
    build_elif Elifs.no_elifs n continuation c = (c, continuation)
    build_elif (Elifs.an_elif name body rest) zero continuation c = build_block body continuation c
    build_elif (Elifs.an_elif name body rest) (suc n) continuation c =
        build_elif rest n continuation c

-- resolveGotos
unfoldable pub label_of : List (Text × ℕ) → Text → Option ℕ
label_of [] name = none
label_of ((l, node) ∷ rest) name = if text_eq l name then some node else label_of rest name

unfoldable pub resolve_one : List (Text × ℕ) → ℕ → Text → Graph → Graph
resolve_one labels from name g = elim (label_of labels name) [
  | none ↦ g
  | some node ↦ add_edge from node g
]

unfoldable pub resolve_gotos : List (Text × ℕ) → List (ℕ × Text) → Graph → Graph
resolve_gotos labels [] g = g
resolve_gotos labels ((from, name) ∷ rest) g =
    resolve_gotos labels rest (resolve_one labels from name g)

-- The constructor: node 0 is the function end.
abbrev pub initial : Checker
initial = record {
  successors = [] ∷ [];
  pending_gotos = [];
  label_nodes = [];
  break_stack = [];
  continue_stack = [];
}
