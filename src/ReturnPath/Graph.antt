-- ===== src/ReturnPath/Graph.antt =====
-- src/sema/sema.cpp, ReturnPathChecker: the successor lists, `newNode` and `addEdge`, with what an
-- edge and a walk are.
pub mod Laws
use plainspeak.Prelude.{ℕ, List, [], ◌∷◌, ◌++◌, get_or, set, In}

abbrev pub Graph : Type 0
Graph = List (List ℕ)

abbrev pub targets : Graph → ℕ → List ℕ
targets g u = get_or g u []

-- A node without successors; its number is the old size.
unfoldable pub grow : Graph → Graph
grow g = g ++ [] ∷ []

unfoldable pub add_edge : ℕ → ℕ → Graph → Graph
add_edge from to g = set g from (targets g from ++ to ∷ [])

abbrev pub Edge : Graph → ℕ → ℕ → Type 0
Edge g u v = In v (targets g u)

pub data Walk (g : Graph) (u : ℕ) : ℕ → Type 0 where
  here : Walk g u u
  step : {v w : ℕ} → Walk g u v → Edge g v w → Walk g u w
