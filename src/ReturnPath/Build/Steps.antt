-- ===== src/ReturnPath/Build/Steps.antt =====
-- src/sema/sema.cpp, ReturnPathChecker: what every step of the construction keeps. The graph only
-- grows, its edges stay and end at its nodes, and both stacks are as they were.
use plainspeak.Prelude.{
  ℕ, ◌+◌, ◌≤◌, ◌<◌, ◌≡◌, refl, ◌∙◌, ap, Text, Bool, true, false, List, [], ◌∷◌, length, arith,
}
use plainspeak.ReturnPath.Graph.{grow, Edge}
use plainspeak.ReturnPath.Graph.Laws.{
  AllBelow, AllBelow-mono, IsInRange, IsInRange-grow, IsInRange-add_edge, length-grow,
  length-add_edge, Edge-grow, Edge-add_edge,
}
use plainspeak.ReturnPath.Build.{
  Checker, Built, new_node, edge, edge_to_top, edge_when, push_break, pop_break, push_continue,
  pop_continue, add_goto, set_label, edges_to, pop,
}

abbrev pub size : Checker → ℕ
size c = length c.successors

abbrev pub label_targets : List (Text × ℕ) → List ℕ
label_targets [] = []
label_targets ((name, node) ∷ rest) = node ∷ label_targets rest

pub record IsWell (c : Checker) : Type 0 where
  pub ranged : IsInRange c.successors
  pub breaks : AllBelow (size c) c.break_stack
  pub continues : AllBelow (size c) c.continue_stack
  pub labels : AllBelow (size c) (label_targets c.label_nodes)

pub record Steps (c d : Checker) : Type 0 where
  pub well : IsWell d
  pub grows : size c ≤ size d
  pub edges : (u v : ℕ) → Edge c.successors u v → Edge d.successors u v
  pub same_breaks : d.break_stack ≡ c.break_stack
  pub same_continues : d.continue_stack ≡ c.continue_stack

pub record Builds (c : Checker) (r : Built) : Type 0 where
  pub steps : Steps c r.0
  pub entry : r.1 < size r.0

pub Steps-refl : {c : Checker} → IsWell c → Steps c c
Steps-refl w = record {
  well = w;
  grows = omega arith;
  edges = λ u v e. e;
  same_breaks = refl;
  same_continues = refl;
}

pub Steps-trans : {c d e : Checker} → Steps c d → Steps d e → Steps c e
Steps-trans s t = record {
  well = t.well;
  grows = omega (arith, s.grows, t.grows);
  edges = λ u v m. t.edges u v (s.edges u v m);
  same_breaks = t.same_breaks ∙ s.same_breaks;
  same_continues = t.same_continues ∙ s.same_continues;
}

pub new_node-Builds : {c : Checker} → IsWell c → Builds c (new_node c)
unfolding new_node
new_node-Builds {c} w =
    let grown : length (grow c.successors) ≡ size c + 1 = length-grow c.successors in
    let more : size c ≤ length (grow c.successors) = omega (arith, grown) in
    record {
      steps = record {
        well = record {
          ranged = IsInRange-grow c.successors w.ranged;
          breaks = AllBelow-mono c.break_stack more w.breaks;
          continues = AllBelow-mono c.continue_stack more w.continues;
          labels = AllBelow-mono (label_targets c.label_nodes) more w.labels;
        };
        grows = more;
        edges = Edge-grow c.successors;
        same_breaks = refl;
        same_continues = refl;
      };
      entry = omega (arith, grown);
    }

pub edge-Steps : {c : Checker} (from to : ℕ) → to < size c → IsWell c → Steps c (edge from to c)
unfolding edge
edge-Steps {c} from to h w =
    let same = length-add_edge from to c.successors in
    record {
      well = record {
        ranged = IsInRange-add_edge from to c.successors h w.ranged;
        breaks = rw same w.breaks;
        continues = rw same w.continues;
        labels = rw same w.labels;
      };
      grows = omega (arith, same);
      edges = Edge-add_edge from to c.successors;
      same_breaks = refl;
      same_continues = refl;
    }

pub edge_when-Steps :
    {c : Checker} (test : Bool) (from to : ℕ)
    → to < size c
    → IsWell c
    → Steps c (edge_when test from to c)
unfolding edge_when
edge_when-Steps true from to h w = edge-Steps from to h w
edge_when-Steps false from to h w = Steps-refl w

pub edge_to_top-Steps :
    {c : Checker} (from : ℕ) (stack : List ℕ)
    → AllBelow (size c) stack
    → IsWell c
    → Steps c (edge_to_top from stack c)
unfolding edge_to_top
edge_to_top-Steps from [] h w = Steps-refl w
edge_to_top-Steps from (top ∷ rest) h w = edge-Steps from top h.0 w

pub edges_to-Steps :
    (head : ℕ) (entries : List ℕ) (c : Checker)
    → AllBelow (size c) entries
    → IsWell c
    → Steps c (edges_to head entries c)
unfolding edges_to
edges_to-Steps head [] c h w = Steps-refl w
edges_to-Steps head (entry ∷ rest) c h w =
    let one = edge-Steps head entry h.0 w in
    Steps-trans one
      (edges_to-Steps head rest (edge head entry c) (AllBelow-mono rest one.grows h.1) one.well)

pub add_goto-Steps :
    {c : Checker} (from : ℕ) (name : Text) → IsWell c → Steps c (add_goto from name c)
unfolding add_goto
add_goto-Steps from name w = record {
  well = record {
    ranged = w.ranged;
    breaks = w.breaks;
    continues = w.continues;
    labels = w.labels;
  };
  grows = omega arith;
  edges = λ u v e. e;
  same_breaks = refl;
  same_continues = refl;
}

pub set_label-Steps :
    {c : Checker} (name : Text) (node : ℕ)
    → node < size c
    → IsWell c
    → Steps c (set_label name node c)
unfolding set_label
set_label-Steps name node h w = record {
  well = record {
    ranged = w.ranged;
    breaks = w.breaks;
    continues = w.continues;
    labels = (h, w.labels);
  };
  grows = omega arith;
  edges = λ u v e. e;
  same_breaks = refl;
  same_continues = refl;
}

-- What is built with a target pushed, and popped after it.
pub push_break-IsWell : {c : Checker} (k : ℕ) → k < size c → IsWell c → IsWell (push_break k c)
unfolding push_break
push_break-IsWell k h w = record {
  ranged = w.ranged;
  breaks = (h, w.breaks);
  continues = w.continues;
  labels = w.labels;
}

pub push_continue-IsWell :
    {c : Checker} (k : ℕ) → k < size c → IsWell c → IsWell (push_continue k c)
unfolding push_continue
push_continue-IsWell k h w = record {
  ranged = w.ranged;
  breaks = w.breaks;
  continues = (h, w.continues);
  labels = w.labels;
}

pop-AllBelow : (n : ℕ) (vs : List ℕ) → AllBelow n vs → AllBelow n (pop vs)
pop-AllBelow n [] a = tt
pop-AllBelow n (v ∷ vs) a = a.1

pub pop_break-Steps : {c d : Checker} (k : ℕ) → Steps (push_break k c) d → Steps c (pop_break d)
unfolding push_break pop_break
pop_break-Steps k s = record {
  well = record {
    ranged = s.well.ranged;
    breaks = pop-AllBelow _ _ s.well.breaks;
    continues = s.well.continues;
    labels = s.well.labels;
  };
  grows = s.grows;
  edges = s.edges;
  same_breaks = ap pop s.same_breaks;
  same_continues = s.same_continues;
}

pub pop_continue-Steps :
    {c d : Checker} (k : ℕ) → Steps (push_continue k c) d → Steps c (pop_continue d)
unfolding push_continue pop_continue
pop_continue-Steps k s = record {
  well = record {
    ranged = s.well.ranged;
    breaks = s.well.breaks;
    continues = pop-AllBelow _ _ s.well.continues;
    labels = s.well.labels;
  };
  grows = s.grows;
  edges = s.edges;
  same_breaks = s.same_breaks;
  same_continues = ap pop s.same_continues;
}

pub Builds-then : {c d : Checker} {r : Built} → Builds c r → Steps r.0 d → Builds c (d, r.1)
Builds-then b s = record { steps = Steps-trans b.steps s; entry = omega (arith, b.entry, s.grows) }
