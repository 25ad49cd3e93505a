-- ===== src/ReturnPath/Graph/Laws.antt =====
-- src/sema/sema.cpp, ReturnPathChecker: `newNode` and `addEdge` keep every edge, and add no other
-- than the one asked for.
use plainspeak.Prelude.{
  ℕ, zero, suc, ◌+◌, ◌≤◌, ◌<◌, ◌≡◌, ◌⊎◌, inl, inr, refl, ap, subst, ⊎_elim, List, [], ◌∷◌, ◌++◌,
  length, set, length-set, get_or-set_self, length-append, In-append, arith,
}
use plainspeak.ReturnPath.Graph.{Graph, targets, grow, add_edge, Edge, Walk, here, step}

abbrev pub AllBelow : ℕ → List ℕ → Type 0
AllBelow n [] = Unit {0}
AllBelow n (v ∷ vs) = (v < n) × AllBelow n vs

pub AllBelow-mono : {n m : ℕ} (vs : List ℕ) → n ≤ m → AllBelow n vs → AllBelow m vs
AllBelow-mono [] h a = tt
AllBelow-mono (v ∷ vs) h a = (omega arith, AllBelow-mono vs h a.1)

pub AllBelow-append :
    (n : ℕ) (vs ws : List ℕ) → AllBelow n vs → AllBelow n ws → AllBelow n (vs ++ ws)
AllBelow-append n [] ws a b = b
AllBelow-append n (v ∷ vs) ws a b = (a.0, AllBelow-append n vs ws a.1 b)

-- Every edge ends at a node of the graph.
abbrev pub IsInRange : Graph → Type 0
IsInRange g = (u : ℕ) → AllBelow (length g) (targets g u)

pub length-grow : (g : Graph) → length (grow g) ≡ length g + 1
unfolding grow
length-grow g = length-append g _

pub targets-grow : (g : Graph) (u : ℕ) → targets (grow g) u ≡ targets g u
unfolding grow
targets-grow [] zero = refl
targets-grow [] (suc u) = refl
targets-grow (vs ∷ g) zero = refl
targets-grow (vs ∷ g) (suc u) = targets-grow g u

pub length-add_edge : (from to : ℕ) (g : Graph) → length (add_edge from to g) ≡ length g
unfolding add_edge
length-add_edge from to g = length-set g from _

targets-set :
    (g : Graph) (from u : ℕ) (vs : List ℕ)
    → (targets (set g from vs) u ≡ targets g u) ⊎ (from ≡ u) × (targets (set g from vs) u ≡ vs)
targets-set [] from u vs = inl refl
targets-set (ws ∷ g) zero zero vs = inr (refl, refl)
targets-set (ws ∷ g) zero (suc u) vs = inl refl
targets-set (ws ∷ g) (suc from) zero vs = inl refl
targets-set (ws ∷ g) (suc from) (suc u) vs =
    ⊎_elim inl (λ p. inr (ap suc p.0, p.1)) (targets-set g from u vs)

-- The successors of a node after addEdge: the old ones, or those of `from` with `to` behind.
pub targets-add_edge :
    (from to : ℕ) (g : Graph) (u : ℕ)
    → (targets (add_edge from to g) u ≡ targets g u)
      ⊎ (from ≡ u) × (targets (add_edge from to g) u ≡ targets g u ++ to ∷ [])
unfolding add_edge
targets-add_edge from to g u =
    ⊎_elim inl
      (λ p. inr (p.0, subst (λ y. targets (add_edge from to g) u ≡ targets g y ++ to ∷ []) p.0 p.1))
      (targets-set g from u (targets g from ++ to ∷ []))

pub targets-add_edge_self :
    (from to : ℕ) (g : Graph)
    → from < length g
    → targets (add_edge from to g) from ≡ targets g from ++ to ∷ []
unfolding add_edge
targets-add_edge_self from to g h = get_or-set_self g from _ [] h

pub Edge-grow : (g : Graph) (u v : ℕ) → Edge g u v → Edge (grow g) u v
Edge-grow g u v e = rw (targets-grow g u) e

pub Edge-add_edge : (from to : ℕ) (g : Graph) (u v : ℕ) → Edge g u v → Edge (add_edge from to g) u v
Edge-add_edge from to g u v e =
    ⊎_elim (λ p. rw p e) (λ p. rw p.1 ((In-append v (targets g u) (to ∷ [])).1 (inl e)))
      (targets-add_edge from to g u)

pub Edge-add_edge_new :
    (from to : ℕ) (g : Graph) → from < length g → Edge (add_edge from to g) from to
Edge-add_edge_new from to g h =
    rw (targets-add_edge_self from to g h)
      ((In-append to (targets g from) (to ∷ [])).1 (inr (inl refl)))

pub IsInRange-grow : (g : Graph) → IsInRange g → IsInRange (grow g)
IsInRange-grow g r u =
    rw (targets-grow g u) (AllBelow-mono (targets g u) (omega (arith, length-grow g)) (r u))

pub IsInRange-add_edge :
    (from to : ℕ) (g : Graph) → to < length g → IsInRange g → IsInRange (add_edge from to g)
IsInRange-add_edge from to g h r u = rw (length-add_edge from to g) (
    ⊎_elim (λ p. rw p (r u)) (λ p. rw p.1 (AllBelow-append _ (targets g u) (to ∷ []) (r u) (h, tt)))
      (targets-add_edge from to g u))

pub Walk-trans : {g : Graph} {u v w : ℕ} → Walk g u v → Walk g v w → Walk g u w
Walk-trans p here = p
Walk-trans p (step q e) = step (Walk-trans p q) e

pub Walk-mono :
    {g g' : Graph} {u v : ℕ} → ((x y : ℕ) → Edge g x y → Edge g' x y) → Walk g u v → Walk g' u v
Walk-mono more here = here
Walk-mono more (step {v = x} {w = y} p e) = step (Walk-mono more p) (more x y e)
