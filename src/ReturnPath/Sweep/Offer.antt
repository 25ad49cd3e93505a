-- ===== src/ReturnPath/Sweep/Offer.antt =====
-- src/sema/sema.cpp, sweepFrom: what one run of the inner loop does to the flags and the stack.
use plainspeak.Prelude.{
  ℕ, zero, suc, ◌+◌, ◌<◌, ◌≡◌, ◌⊎◌, ◌↔◌, inl, inr, refl, ◌∙◌, ⊎_elim, Bool, true, false, List, [],
  ◌∷◌, length, get_or, set, length-set, In, Bool-cases, arith,
}
use plainspeak.ReturnPath.Graph.Laws.{AllBelow}
use plainspeak.ReturnPath.Sweep.{Search, marked, offer}

-- The nodes whose flag is clear.
unfoldable pub unseen : List Bool → ℕ
unseen [] = 0
unseen (true ∷ bs) = unseen bs
unseen (false ∷ bs) = suc (unseen bs)

pub unseen-set :
    (bs : List Bool) (i : ℕ)
    → i < length bs
    → get_or bs i false ≡ false
    → suc (unseen (set bs i true)) ≡ unseen bs
unfolding unseen
unseen-set [] i h e = elim h [ ]
unseen-set (true ∷ bs) zero h e = cc
unseen-set (false ∷ bs) zero h e = refl
unseen-set (true ∷ bs) (suc i) h e = unseen-set bs i (omega arith) e
unseen-set (false ∷ bs) (suc i) h e = omega (arith, unseen-set bs i (omega arith) e)

pub get_or-set-true :
    (bs : List Bool) (i j : ℕ)
    → i < length bs
    → (get_or (set bs i true) j false ≡ true) ↔ ((j ≡ i) ⊎ (get_or bs j false ≡ true))
get_or-set-true [] i j h = elim h [ ]
get_or-set-true (b ∷ bs) zero zero h = ground arith
get_or-set-true (b ∷ bs) zero (suc j) h = ground arith
get_or-set-true (b ∷ bs) (suc i) zero h = ground arith
get_or-set-true (b ∷ bs) (suc i) (suc j) h = ground (arith, get_or-set-true bs i j)

-- Flags, stack and measure after the loop over vs.
pub record Offered (s : Search) (vs : List ℕ) (t : Search) : Type 0 where
  pub size : length t.seen ≡ length s.seen
  pub flags : (w : ℕ) → (marked t w ≡ true) ↔ ((marked s w ≡ true) ⊎ In w vs)
  pub stack : (w : ℕ) → In w t.work → In w s.work ⊎ (marked t w ≡ true)
  pub kept : (w : ℕ) → In w s.work → In w t.work
  pub fresh : (w : ℕ) → marked t w ≡ true → (marked s w ≡ true) ⊎ In w t.work
  pub measure : unseen t.seen + length t.work ≡ unseen s.seen + length s.work

visit : Search → ℕ → Search
visit s v = record { seen = set s.seen v true; work = v ∷ s.work }

Offered-visit :
    (s : Search) (v : ℕ) (vs : List ℕ) (t : Search)
    → v < length s.seen
    → marked s v ≡ false
    → Offered (visit s v) vs t
    → Offered s (v ∷ vs) t
unfolding visit
Offered-visit s v vs t h e o = record {
  size = o.size ∙ length-set s.seen v true;
  flags = λ w. ground (arith, o.flags w, get_or-set-true s.seen v w h);
  stack = λ w m. ground (arith, o.stack w m, o.flags w, get_or-set-true s.seen v w h);
  kept = λ w m. o.kept w (inr m);
  fresh = λ w m. ground (arith, o.fresh w m, o.kept v (inl refl), get_or-set-true s.seen v w h);
  measure = omega (arith, o.measure, unseen-set s.seen v h e);
}

Offered-skip :
    (s : Search) (v : ℕ) (vs : List ℕ) (t : Search)
    → marked s v ≡ true
    → Offered s vs t
    → Offered s (v ∷ vs) t
Offered-skip s v vs t e o = record {
  size = o.size;
  flags = λ w. ground (arith, o.flags w);
  stack = o.stack;
  kept = o.kept;
  fresh = o.fresh;
  measure = o.measure;
}

pub offer-Offered :
    (s : Search) (vs : List ℕ) → AllBelow (length s.seen) vs → Offered s vs (offer s vs)
unfolding offer visit
offer-Offered s [] h = record {
  size = refl;
  flags = λ w. (inl, λ m. ⊎_elim (λ p. p) absurd m);
  stack = λ w m. inl m;
  kept = λ w m. m;
  fresh = λ w m. inl m;
  measure = refl;
}
offer-Offered s (v ∷ vs) h = elim (Bool-cases (marked s v)) [
  | inl old ↦ rw old (Offered-skip s v vs _ old (offer-Offered s vs h.1))
  | inr new ↦ rw new (
      Offered-visit s v vs _ h.0 new
        (offer-Offered (visit s v) vs (rw (length-set s.seen v true) h.1)))
]
