-- ===== src/Runtime/Heap/Sequences.antt =====
-- Programs of calls on the lists of runtime/plainspeak_runtime.c.
use plainspeak.Prelude.{◌≡◌, ◌⊎◌, inl, inr, refl, sym, List, [], ◌∷◌, Option}
use plainspeak.Runtime.{PsValue, Outcome, done, died, undefined, ◌>>=◌, out_of_memory}
use plainspeak.Runtime.Heap.{Heap, Allocator}
use plainspeak.Runtime.Heap.Shared.{View, view, ListCall, InMemory, expected, call}
use plainspeak.Runtime.Heap.Refines.{WellFormedHeap, Simulates, Bounded}
use plainspeak.Runtime.Heap.Calls.{call-Simulates}

module _ {F : Type 0} where
  -- The calls' results in order, until one stops the program.
  unfoldable pub run :
      Allocator → List (ListCall F) → Heap F → Outcome (List (Option (PsValue F)) × Heap F)
  unfolding call
  run grants [] h = done ([], h)
  run grants (c ∷ cs) h = do
    (r, h1) ← call grants c h
    (rs, h2) ← run grants cs h1
    done (r ∷ rs, h2)

  unfoldable pub expected_run :
      List (ListCall F) → View F → Outcome (List (Option (PsValue F)) × View F)
  unfolding expected
  expected_run [] v = done ([], v)
  expected_run (c ∷ cs) v = do
    (r, v1) ← expected c v
    (rs, v2) ← expected_run cs v1
    done (r ∷ rs, v2)

  unfoldable pub observe : {A : Type 0} → Outcome (A × Heap F) → Outcome (A × View F)
  observe (done (a, h)) = done (a, view h)
  observe (died m) = died m
  observe undefined = undefined

  -- The same is observed, or memory ran out.
  abbrev pub Answers : {A : Type 0} → Outcome (A × Heap F) → Outcome (A × View F) → Type 0
  Answers o e = (o ≡ died out_of_memory) ⊎ (observe o ≡ e)

  Answers-bind :
      {A : Type 0} (o : Outcome (Option (PsValue F) × Heap F))
      (e : Outcome (Option (PsValue F) × View F))
      (f : Option (PsValue F) → Heap F → Outcome (A × Heap F))
      (g : Option (PsValue F) → View F → Outcome (A × View F))
      → Simulates o e
      → ((r : Option (PsValue F)) (h : Heap F) → WellFormedHeap h → Answers (f r h) (g r (view h)))
      → Answers (o >>= λ (r, h). f r h) (e >>= λ (r, v). g r v)
  unfolding observe Simulates
  Answers-bind (done (r, h)) e f g (w, x) k = rw x (k r h w)
  Answers-bind (died m) e f g (inl x) k = inl (rw x refl)
  Answers-bind (died m) e f g (inr x) k = inr (rw x refl)
  Answers-bind undefined e f g x k = inr (rw x refl)

  Answers-cons :
      (r : Option (PsValue F)) (o : Outcome (List (Option (PsValue F)) × Heap F))
      (e : Outcome (List (Option (PsValue F)) × View F))
      → Answers o e
      → Answers (o >>= λ (rs, h). done (r ∷ rs, h)) (e >>= λ (rs, v). done (r ∷ rs, v))
  unfolding observe
  Answers-cons r o e (inl x) = inl (rw x refl)
  Answers-cons r (done (rs, h)) e (inr x) = inr (rw (sym x) refl)
  Answers-cons r (died m) e (inr x) = inr (rw (sym x) refl)
  Answers-cons r undefined e (inr x) = inr (rw (sym x) refl)

  abbrev pub AllInMemory : List (ListCall F) → Type 0
  AllInMemory [] = Unit
  AllInMemory (c ∷ cs) = InMemory c × AllInMemory cs

  module _ (grants : Allocator) (small : Bounded grants) where
    -- From a well-formed heap, a program of list calls whose array arguments fit memory either runs
    -- out of memory or has the results, the error and the final contents of every list that the same
    -- calls have on lists of values shared by reference, where the allocator grants no block of 2^63
    -- bytes or more.
    pub run-expected_run :
        (cs : List (ListCall F)) (h : Heap F)
        → WellFormedHeap h
        → AllInMemory cs
        → (run grants cs h ≡ died out_of_memory)
          ⊎ (observe (run grants cs h) ≡ expected_run cs (view h))
    unfolding run expected_run observe
    run-expected_run [] h wh m = inr refl
    run-expected_run (c ∷ cs) h wh (m, ms) =
        Answers-bind (call grants c h) _ _ _ (call-Simulates grants small c h wh m)
          λ r g w. Answers-cons r (run grants cs g) _ (run-expected_run cs g w ms)
