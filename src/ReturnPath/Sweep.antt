-- ===== src/ReturnPath/Sweep.antt =====
-- src/sema/sema.cpp, ReturnPathChecker: `sweepFrom`, the search with a stack of nodes, and
-- `endIsReachable`. The stack `work` has its back first. The loop takes fuel, one unit for each
-- node that is popped; `none` says that the fuel ran out, which is shown never to happen.
pub mod Offer
pub mod Correct
use plainspeak.Prelude.{
  ℕ, zero, suc, Bool, true, false, List, [], ◌∷◌, Option, none, some, length, get_or, set,
  replicate, if◌then◌else◌,
}
use plainspeak.Ast.{Stmts}
use plainspeak.ReturnPath.Select.{Selection}
use plainspeak.ReturnPath.Graph.{Graph, targets}
use plainspeak.ReturnPath.Build.{func_end, initial, build_block, resolve_gotos}

pub record Search : Type 0 where
  pub seen : List Bool
  pub work : List ℕ

abbrev pub marked : Search → ℕ → Bool
marked s v = get_or s.seen v false

-- the inner loop over the successors of the popped node
unfoldable pub offer : Search → List ℕ → Search
offer s [] = s
offer s (next ∷ rest) =
    offer
      (if marked s next then s else record { seen = set s.seen next true; work = next ∷ s.work })
      rest

unfoldable pub sweep : Graph → ℕ → Search → Option Search
sweep g zero s = elim s.work [ [] ↦ some s | _ ∷ _ ↦ none ]
sweep g (suc fuel) s = elim s.work [
  | [] ↦ some s
  | current ∷ rest ↦
      sweep g fuel (offer (record { seen = s.seen; work = rest }) (targets g current))
]

unfoldable pub start : Graph → ℕ → Search
start g entry = record { seen = set (replicate (length g) false) entry true; work = entry ∷ [] }

-- sweepFrom and reachedEnd_
unfoldable pub reached_end : Graph → ℕ → Option Bool
reached_end g entry = elim (sweep g (length g) (start g entry)) [
  | none ↦ none
  | some s ↦ some (marked s func_end)
]

-- The graph of a body and its entry.
unfoldable pub flow_graph : Selection → Stmts → Graph × ℕ
flow_graph selected body =
    let (c, entry) = build_block selected body func_end initial in
    (resolve_gotos c.label_nodes c.pending_gotos c.successors, entry)

unfoldable pub end_is_reachable : Selection → Stmts → Option Bool
end_is_reachable selected body = let (g, entry) = flow_graph selected body in reached_end g entry
