-- ===== src/ReturnPath/Sweep/Correct.antt =====
-- src/sema/sema.cpp, sweepFrom: the sweep ends, and it marks exactly the nodes that a walk from the
-- entry reaches.
use plainspeak.Prelude.{
  ℕ, zero, suc, ◌+◌, ◌≤◌, ◌<◌, ◌≡◌, ◌⊎◌, ◌↔◌, inl, inr, refl, ◌∙◌, ap, subst, ⊎_elim, Bool, true,
  false, List, [], ◌∷◌, some, length, get_or, replicate, length-set, length-replicate, In,
  List-cases, arith,
}
use plainspeak.ReturnPath.Graph.{Graph, targets, Edge, Walk, here, step}
use plainspeak.ReturnPath.Graph.Laws.{IsInRange}
use plainspeak.ReturnPath.Build.{func_end}
use plainspeak.ReturnPath.Sweep.{Search, marked, sweep, start, reached_end}
use plainspeak.ReturnPath.Sweep.Offer.{unseen, unseen-set, get_or-set-true, Offered, offer-Offered}

module _ (g : Graph) (entry : ℕ) where
  record Inv (s : Search) : Type 0 where
    size : length s.seen ≡ length g
    origin : marked s entry ≡ true
    queued : (v : ℕ) → In v s.work → marked s v ≡ true
    sound : (v : ℕ) → marked s v ≡ true → Walk g entry v
    closed : (u v : ℕ) → marked s u ≡ true → Edge g u v → In u s.work ⊎ (marked s v ≡ true)

  abbrev left : Search → ℕ
  left s = unseen s.seen + length s.work

  module _ (s : Search) (u : ℕ) (rest : List ℕ) (t : Search) (e : s.work ≡ u ∷ rest) where
    module _ (o : Offered (record { seen = s.seen; work = rest }) (targets g u) t) where
      -- An edge out of a node that was on the stack, or that was expanded before.
      round_closed :
          (x v : ℕ)
          → Edge g x v
          → In x s.work ⊎ (marked s v ≡ true)
          → In x t.work ⊎ (marked t v ≡ true)
      round_closed x v edge (inr m) = inr ((o.flags v).1 (inl m))
      round_closed x v edge (inl q) =
          ⊎_elim (λ same. inr ((o.flags v).1 (inr (subst (λ y. Edge g y v) same edge))))
            (λ old. inl (o.kept x old)) (subst (In x) e q)

      -- One round: the node on top of the stack is expanded.
      Inv-round : Inv s → Inv t
      Inv-round i =
          let top : marked s u ≡ true = i.queued u (rw e (inl refl)) in
          record {
            size = omega (arith, o.size, i.size);
            origin = (o.flags entry).1 (inl i.origin);
            queued = λ v m.
                ⊎_elim (λ old. (o.flags v).1 (inl (i.queued v (rw e (inr old))))) (λ f. f)
                  (o.stack v m);
            sound = λ v m. ⊎_elim (i.sound v) (step (i.sound u top)) ((o.flags v).0 m);
            closed = λ x v m edge.
                ⊎_elim (λ old. round_closed x v edge (i.closed x v old edge)) inl (o.fresh x m);
          }

  module _ (ranged : IsInRange g) where
    sweep_ends :
        (fuel : ℕ) (s : Search)
        → Inv s
        → left s ≤ fuel
        → (t : Search) × (sweep g fuel s ≡ some t) × Inv t × (t.work ≡ [])
    unfolding sweep
    sweep_ends zero s i h =
        let empty : s.work ≡ [] = ground arith in (s, simp (empty, sweep), i, empty)
    sweep_ends (suc fuel) s i h = elim (List-cases s.work) [
      | inl empty ↦ (s, simp (empty, sweep), i, empty)
      | inr (u, rest, e) ↦
          let o =
            offer-Offered (record { seen = s.seen; work = rest }) (targets g u)
              (rw i.size (ranged u)) in
          let (t, q, inv, done) =
            sweep_ends fuel _ (Inv-round s u rest _ e o i)
              (omega (arith, o.measure, ap length e)) in
          (t, simp (e, sweep) q, inv, done)
    ]

    -- With an empty stack the marked nodes are closed under edges.
    complete : (t : Search) → Inv t → t.work ≡ [] → {v : ℕ} → Walk g entry v → marked t v ≡ true
    complete t i e here = i.origin
    complete t i e (step {v = u} {w = v} w edge) =
        ⊎_elim (λ q. absurd (subst (In u) e q)) (λ m. m) (i.closed u v (complete t i e w) edge)

unseen-replicate : (n : ℕ) → unseen (replicate n false) ≡ n
unfolding unseen
unseen-replicate zero = refl
unseen-replicate (suc n) = ap suc (unseen-replicate n)

get_or-replicate : (n i : ℕ) → get_or (replicate n false) i false ≡ false
get_or-replicate zero i = refl
get_or-replicate (suc n) zero = refl
get_or-replicate (suc n) (suc i) = get_or-replicate n i

module _ (g : Graph) (entry : ℕ) (h : entry < length g) where
  marked-start : (v : ℕ) → (marked (start g entry) v ≡ true) ↔ (v ≡ entry)
  unfolding start
  marked-start v = ground (
    arith,
    length-replicate (length g) false,
    get_or-set-true (replicate (length g) false) entry v,
    get_or-replicate (length g) v,
  )

  Inv-start : Inv g entry (start g entry)
  unfolding start
  Inv-start = record {
    size = length-set _ entry true ∙ length-replicate (length g) false;
    origin = (marked-start entry).1 refl;
    queued = λ v m. (marked-start v).1 (⊎_elim (λ e. e) absurd m);
    sound = λ v m. rw ((marked-start v).0 m) here;
    closed = λ u v m edge. inl (inl ((marked-start u).0 m));
  }

  left-start : left g entry (start g entry) ≤ length g
  unfolding start
  left-start = omega (
    arith,
    length-replicate (length g) false,
    unseen-replicate (length g),
    unseen-set (replicate (length g) false) entry (rw (length-replicate (length g) false) h)
        (get_or-replicate (length g) entry),
  )

-- In a graph whose edges end at its nodes, sweepFrom ends after at most as many rounds as the graph
-- has nodes, and reachedEnd_ is then true exactly when a walk leads from the entry to node 0.
pub reached_end_correct :
    (g : Graph) (entry : ℕ)
    → IsInRange g
    → entry < length g
    → (b : Bool) × (reached_end g entry ≡ some b) × ((b ≡ true) ↔ Walk g entry func_end)
unfolding reached_end
reached_end_correct g entry ranged h =
    let (t, q, inv, done) =
      sweep_ends g entry ranged (length g) (start g entry) (Inv-start g entry h)
        (left-start g entry h) in
    (
      marked t func_end,
      rw (q, reached_end) refl,
      (inv.sound func_end, complete g entry ranged t inv done),
    )
