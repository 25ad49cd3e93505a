-- ===== src/ReturnPath/Build/Leads.antt =====
-- src/sema/sema.cpp, ReturnPathChecker: the walks that the edges of one loop or one jump add to the graph.
use plainspeak.Prelude.{ℕ, ◌<◌, ◌≡◌, refl, Bool, true, List, [], ◌∷◌, In, arith, inl, inr}
use plainspeak.ReturnPath.Graph.{Walk, here, step}
use plainspeak.ReturnPath.Graph.Laws.{
  AllBelow, AllBelow-mono, Edge-add_edge_new, Walk-trans, Walk-mono,
}
use plainspeak.ReturnPath.Build.{
  Checker, Built, edge, edge_to_top, edge_when, edges_to, push_break, pop_break, push_continue,
  pop_continue,
}
use plainspeak.ReturnPath.Build.Steps.{
  size, IsWell, Steps, Builds, Steps-trans, edge-Steps, edge_when-Steps, edges_to-Steps,
  pop_break-Steps,
}
use plainspeak.ReturnPath.Build.WellFormed.{popped-Steps}

abbrev pub Leads : Checker → ℕ → ℕ → Type 0
Leads c u v = Walk c.successors u v

pub Leads-Steps : {c d : Checker} {u v : ℕ} → Steps c d → Leads c u v → Leads d u v
Leads-Steps s w = Walk-mono s.edges w

pub edge-Leads : (c : Checker) (from to : ℕ) → from < size c → Leads (edge from to c) from to
unfolding edge
edge-Leads c from to h = step here (Edge-add_edge_new from to c.successors h)

pub edge_when-Leads :
    (c : Checker) (test : Bool) (from to : ℕ)
    → test ≡ true
    → from < size c
    → Leads (edge_when test from to c) from to
unfolding edge_when
edge_when-Leads c test from to e h = rw e (edge-Leads c from to h)

pub edge_to_top-Leads :
    (c : Checker) (from : ℕ) (stack : List ℕ) {t : ℕ} {rest : List ℕ}
    → stack ≡ t ∷ rest
    → from < size c
    → Leads (edge_to_top from stack c) from t
unfolding edge_to_top
edge_to_top-Leads c from stack {t} e h = rw e (edge-Leads c from t h)

-- The head of a Switch has an edge to each entry.
pub edges_to-Leads :
    (head : ℕ) (entries : List ℕ) (c : Checker) {t : ℕ}
    → AllBelow (size c) entries
    → IsWell c
    → head < size c
    → In t entries
    → Leads (edges_to head entries c) head t
unfolding edges_to
edges_to-Leads head [] c a w h m = absurd m
edges_to-Leads head (entry ∷ rest) c a w h (inl e) =
    let one = edge-Steps head entry a.0 w in
    let more =
      edges_to-Steps head rest (edge head entry c) (AllBelow-mono rest one.grows a.1) one.well in
    rw e (Leads-Steps more (edge-Leads c head entry h))
edges_to-Leads head (entry ∷ rest) c a w h (inr m) =
    let one = edge-Steps head entry a.0 w in
    edges_to-Leads head rest (edge head entry c) (AllBelow-mono rest one.grows a.1) one.well
      (omega (arith, one.grows)) m

module _ (c : Checker) (r : Built) (k target head : ℕ) (h : k < size c) (h' : head < size c)
    (b : Builds (push_continue target (push_break k c)) r) where
  pub loop_enters :
      (test : Bool) {t : ℕ}
      → Leads r.0 r.1 t
      → Leads (edge_when test head k (edge head r.1 (pop_continue (pop_break r.0)))) head t
  unfolding pop_continue pop_break
  loop_enters test w =
      let p = popped-Steps r k target b.steps in
      let e = edge-Steps head r.1 b.entry p.well in
      let u = edge_when-Steps test head k (omega (arith, h, p.grows, e.grows)) e.well in
      Leads-Steps u
        (Walk-trans (edge-Leads _ head r.1 (omega (arith, h', p.grows))) (Leads-Steps e w))

  pub loop_ends :
      (test : Bool)
      → test ≡ true
      → Leads (edge_when test head k (edge head r.1 (pop_continue (pop_break r.0)))) head k
  unfolding pop_continue pop_break
  loop_ends test q =
      let p = popped-Steps r k target b.steps in
      let e = edge-Steps head r.1 b.entry p.well in
      edge_when-Leads _ test head k q (omega (arith, h', p.grows, e.grows))

  pub for_each_ends : Leads (edge head k (edge head r.1 (pop_continue (pop_break r.0)))) head k
  unfolding edge_when
  for_each_ends = loop_ends true refl

  module _ (ht : target < size c) (test : Bool) where
    pub do_while_enters :
        {t : ℕ}
        → Leads r.0 r.1 t
        → Leads
            (edge_when test target k
              (edge target head (edge head r.1 (pop_continue (pop_break r.0)))))
            head
            t
    unfolding pop_continue pop_break
    do_while_enters w =
        let p = popped-Steps r k target b.steps in
        let e = edge-Steps head r.1 b.entry p.well in
        let f = edge-Steps target head (omega (arith, h', p.grows, e.grows)) e.well in
        let u =
          edge_when-Steps test target k (omega (arith, h, p.grows, e.grows, f.grows)) f.well in
        Leads-Steps (Steps-trans f u)
          (Walk-trans (edge-Leads _ head r.1 (omega (arith, h', p.grows))) (Leads-Steps e w))

    pub do_while_ends :
        test ≡ true
        → Leads
            (edge_when test target k
              (edge target head (edge head r.1 (pop_continue (pop_break r.0)))))
            target
            k
    unfolding pop_continue pop_break
    do_while_ends q =
        let p = popped-Steps r k target b.steps in
        let e = edge-Steps head r.1 b.entry p.well in
        let f = edge-Steps target head (omega (arith, h', p.grows, e.grows)) e.well in
        edge_when-Leads _ test target k q (omega (arith, ht, p.grows, e.grows, f.grows))

module _ (c : Checker) (r : Built) (k head : ℕ) (h : k < size c) (h' : head < size c)
    (b : Builds (push_break k c) r) (test : Bool) where
  pub repeat_enters :
      {t : ℕ}
      → Leads r.0 r.1 t
      → Leads (edge_when test head k (edge head r.1 (pop_break r.0))) head t
  unfolding pop_break
  repeat_enters w =
      let p = pop_break-Steps k b.steps in
      let e = edge-Steps head r.1 b.entry p.well in
      let u = edge_when-Steps test head k (omega (arith, h, p.grows, e.grows)) e.well in
      Leads-Steps u
        (Walk-trans (edge-Leads _ head r.1 (omega (arith, h', p.grows))) (Leads-Steps e w))

  pub repeat_ends :
      test ≡ true → Leads (edge_when test head k (edge head r.1 (pop_break r.0))) head k
  unfolding pop_break
  repeat_ends q =
      let p = pop_break-Steps k b.steps in
      let e = edge-Steps head r.1 b.entry p.well in
      edge_when-Leads _ test head k q (omega (arith, h', p.grows, e.grows))
