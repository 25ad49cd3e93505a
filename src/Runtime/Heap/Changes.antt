-- ===== src/Runtime/Heap/Changes.antt =====
-- What a write, a move and an appended value do to one list of runtime/plainspeak_runtime.c.
use plainspeak.Prelude.{
  ℕ, suc, ◌+◌, ◌-◌, ◌<◌, ◌≡◌, ◌⊎◌, inl, inr, refl, ◌==◌, List, [], ◌∷◌, ◌++◌, if◌then◌else◌, ltb,
  length, take, set, arith, ⊎_elim, Bool-cases, ap, length-set, length-append, ◌∙◌,
}
use plainspeak.Runtime.{PsValue}
use plainspeak.Runtime.Heap.{PsList, shift, put}
use plainspeak.Runtime.Heap.Shared.{contents}
use plainspeak.Runtime.Heap.Refines.{WellFormed}
use plainspeak.Runtime.Heap.Contents.{
  remove_at, take-append_end, take-set_end, take-set, take-shift, length-shift, remove_at-last,
}

module _ {F : Type 0} (l : PsList F) where
  put-inside : (i : ℕ) (v : PsValue F) → i < length l.items → put l.items i v ≡ set l.items i v
  put-inside i v h = ground arith

  put-end : (v : PsValue F) → put l.items (length l.items) v ≡ l.items ++ (v ∷ [])
  put-end v = ground arith

  in_items : (i : ℕ) → WellFormed l → i < l.len → i < length l.items
  in_items i w b = omega (arith, b, w.written)

  module _ (i : ℕ) (x : PsValue F) (w : WellFormed l) (b : i < l.len) where
    pub set_item-contents : contents (record l { items = put l.items i x }) ≡ set (contents l) i x
    set_item-contents = rw (put-inside i x (in_items i w b)) (take-set l.items l.len i x b)

    pub set_item-WellFormed : WellFormed (record l { items = put l.items i x })
    set_item-WellFormed = rw (put-inside i x (in_items i w b)) (record {
      written = rw (length-set l.items i x) w.written;
      roomy = rw (length-set l.items i x) w.roomy;
      backed = w.backed;
      doubles = w.doubles;
    })

  abbrev pub moved : ℕ → List (PsValue F)
  moved i = if ltb (suc i) l.len then shift l.items i (l.len - i - 1) else l.items

  module _ (i : ℕ) (w : WellFormed l) (b : i < l.len) where
    length-moved : length (moved i) ≡ length l.items
    length-moved = elim (Bool-cases (ltb (suc i) l.len)) [
      | inl e ↦ rw e (length-shift l.items i (l.len - i - 1) _ refl (omega (arith, b, w.written)))
      | inr e ↦ rw e refl
    ]

    pub removed-contents :
        contents (record l { items = moved i; len = l.len - 1 }) ≡ remove_at i (contents l)
    removed-contents = elim (Bool-cases (ltb (suc i) l.len)) [
      | inl e ↦ rw e (
          ap (λ k. take k (shift l.items i (l.len - i - 1))) (omega (arith, b))
          ∙ take-shift l.items i (l.len - i - 1) _ refl (omega (arith, b, w.written))
          ∙ ap (λ k. remove_at i (take k l.items)) {x = suc (i + (l.len - i - 1))}
              (omega (arith, b)))
      | inr e ↦ rw e (
          ap (λ k. take k l.items) (ground (arith, e, b))
          ∙ remove_at-last l.items i (in_items i (w) b)
          ∙ ap (λ k. remove_at i (take k l.items)) {x = suc i} (ground (arith, e, b)))
    ]

    pub removed-WellFormed : WellFormed (record l { items = moved i; len = l.len - 1 })
    removed-WellFormed = record {
      written = rw length-moved (omega (arith, w.written));
      roomy = rw length-moved w.roomy;
      backed = w.backed;
      doubles = w.doubles;
    }

  module _ (x : PsValue F) (w : WellFormed l) (room : l.len < l.capacity) where
    abbrev longer : PsList F
    longer = record l { items = put l.items l.len x; len = suc l.len }

    pub append_end-contents : contents longer ≡ contents l ++ (x ∷ [])
    append_end-contents = elim (Bool-cases (l.len == length l.items)) [
      | inl e ↦ rw e (take-append_end l.items l.len x (ground (arith, e)))
      | inr e ↦ rw e (take-set_end l.items l.len x (ground (arith, e, w.written)))
    ]

    length-longer :
        ((length longer.items ≡ length l.items) × (l.len < length l.items))
        ⊎ (length longer.items ≡ suc l.len)
    length-longer = elim (Bool-cases (l.len == length l.items)) [
      | inl e ↦ inr (rw (e, length-append l.items (x ∷ [])) (ground (arith, e)))
      | inr e ↦ inl (rw e (length-set l.items l.len x), ground (arith, e, w.written))
    ]

    pub append_end-WellFormed : WellFormed longer
    append_end-WellFormed = record {
      written = ⊎_elim (λ e. omega (arith, e)) (λ e. omega (arith, e)) length-longer;
      roomy = ⊎_elim (λ e. omega (arith, e, w.roomy)) (λ e. omega (arith, e, room)) length-longer;
      backed = w.backed;
      doubles = w.doubles;
    }
