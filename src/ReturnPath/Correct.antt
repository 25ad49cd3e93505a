-- ===== src/ReturnPath/Correct.antt =====
-- src/sema/sema.cpp, ReturnPathChecker::endIsReachable: the answer for a whole procedure body.
use plainspeak.Prelude.{
  ℕ, zero, ◌<◌, ◌≡◌, ◌↔◌, ◌∙◌, ap, inl, inr, refl, Text, Bool, true, Bool-cases, text_eq, some,
  Option-cases, List, [], ◌∷◌, length, arith,
}
use plainspeak.Ast.{Stmts}
use plainspeak.ReturnPath.Select.{Selection}
use plainspeak.ReturnPath.Graph.{Graph, Edge, Walk}
use plainspeak.ReturnPath.Graph.Laws.{
  AllBelow, IsInRange, IsInRange-add_edge, length-add_edge, Edge-add_edge, Walk-mono,
}
use plainspeak.ReturnPath.Build.{
  func_end, initial, build_block, label_of, resolve_one, resolve_gotos,
}
use plainspeak.ReturnPath.Build.Steps.{IsWell, label_targets, Builds}
use plainspeak.ReturnPath.Build.WellFormed.{build_block-Builds}
use plainspeak.ReturnPath.Build.Reaches.{block-Reaches}
use plainspeak.ReturnPath.Sweep.{flow_graph, end_is_reachable}
use plainspeak.ReturnPath.Sweep.Correct.{reached_end_correct}
use plainspeak.ReturnPath.Exits.{BlockExit, falls}

initial-IsWell : IsWell initial
initial-IsWell = record { ranged = λ u. initial_ranged u; breaks = tt; continues = tt; labels = tt }
  where
    initial_ranged : IsInRange ([] ∷ [])
    initial_ranged zero = tt
    initial_ranged (ℕ.suc u) = tt

label_of-lt :
    (n : ℕ) (labels : List (Text × ℕ)) (name : Text) (node : ℕ)
    → AllBelow n (label_targets labels)
    → label_of labels name ≡ some node
    → node < n
unfolding label_of
label_of-lt n [] name node a q = cc
label_of-lt n ((l, m) ∷ rest) name node a q = elim (Bool-cases (text_eq l name)) [
  | inl same ↦ ground arith
  | inr other ↦ label_of-lt n rest name node a.1 (rw other at q)
]

-- Resolving a jump adds an edge or nothing.
record Resolves (g h : Graph) : Type 0 where
  same_size : length h ≡ length g
  ranged : IsInRange h
  edges : (u v : ℕ) → Edge g u v → Edge h u v

resolve_one-Resolves :
    (labels : List (Text × ℕ)) (from : ℕ) (name : Text) (g : Graph)
    → AllBelow (length g) (label_targets labels)
    → IsInRange g
    → Resolves g (resolve_one labels from name g)
unfolding resolve_one
resolve_one-Resolves labels from name g a r = elim (Option-cases (label_of labels name)) [
  | inl none_found ↦
      rw (none_found, resolve_one) (record { same_size = refl; ranged = r; edges = λ u v e. e })
  | inr (node, found) ↦
      rw (found, resolve_one)
        (record {
          same_size = length-add_edge from node g;
          ranged = IsInRange-add_edge from node g (label_of-lt _ labels name node a found) r;
          edges = Edge-add_edge from node g;
        })
]

resolve_gotos-Resolves :
    (labels : List (Text × ℕ)) (gotos : List (ℕ × Text)) (g : Graph)
    → AllBelow (length g) (label_targets labels)
    → IsInRange g
    → Resolves g (resolve_gotos labels gotos g)
unfolding resolve_gotos
resolve_gotos-Resolves labels [] g a r = record { same_size = refl; ranged = r; edges = λ u v e. e }
resolve_gotos-Resolves labels ((from, name) ∷ rest) g a r =
    let one = resolve_one-Resolves labels from name g a r in
    let more =
      resolve_gotos-Resolves labels rest (resolve_one labels from name g) (rw one.same_size a)
        one.ranged in
    record {
      same_size = more.same_size ∙ one.same_size;
      ranged = more.ranged;
      edges = λ u v e. more.edges u v (one.edges u v e);
    }

module _ (selected : Selection) (body : Stmts) where
  abbrev graph : Graph
  graph = (flow_graph selected body).0

  abbrev entry : ℕ
  entry = (flow_graph selected body).1

  body-Builds : Builds initial (build_block selected body func_end initial)
  body-Builds = build_block-Builds selected body func_end initial initial-IsWell (omega arith)

  body-Resolves : Resolves (build_block selected body func_end initial).0.successors graph
  unfolding flow_graph
  body-Resolves =
      resolve_gotos-Resolves _ _ _ body-Builds.steps.well.labels body-Builds.steps.well.ranged

  -- For every body, its labels and jumps included, endIsReachable ends with an answer, which is true
  -- exactly when a walk leads from the entry of the body's graph to the function end.
  pub end_is_reachable_iff :
      (b : Bool) × (end_is_reachable selected body ≡ some b)
      × ((b ≡ true) ↔ Walk graph entry func_end)
  unfolding end_is_reachable flow_graph
  end_is_reachable_iff =
      reached_end_correct graph entry body-Resolves.ranged
        (omega (arith, body-Builds.entry, body-Resolves.same_size))

  -- For a body that control can leave by completing its last statement, endIsReachable is true, where
  -- each condition, count and bound that lets a loop of the path end has only longs for its integer
  -- literals. Left out are paths that complete a Repeat or For known to run, that jump by Go to, that
  -- Break out of a case which is not the last of its Switch, and that pass a Compile if with no
  -- selected body.
  pub falls-end_is_reachable :
      BlockExit selected body falls → end_is_reachable selected body ≡ some true
  unfolding flow_graph
  falls-end_is_reachable d =
      let walk =
        Walk-mono body-Resolves.edges
          (block-Reaches selected d func_end initial func_end initial-IsWell (omega arith) refl) in
      let (b, q, iff) = end_is_reachable_iff in rw q (ap some (iff.1 walk))
