-- ===== src/Runtime/Heap/Calls.antt =====
-- Each call on the lists of runtime/plainspeak_runtime.c against the same call on lists of values that are shared by reference.
use plainspeak.Prelude.{
  ℕ, suc, ◌*◌, ◌^◌, ◌≤◌, ◌<◌, ◌≡◌, inl, inr, refl, List, [], ◌∷◌, ◌++◌, if◌then◌else◌, ltb, length,
  take, set, Option, none, some, get_elem?, arith, ⊎_elim, sym, ap, subst, ◌∙◌,
}
use plainspeak.Runtime.{
  at, PsValue, ps_int, ps_double, ps_str, ps_list, Outcome, done, died, undefined, ◌>>=◌,
}
use plainspeak.Runtime.Heap.{
  PsList, Heap, Allocator, write, read, store, as_list, position, list_index, ps_list_get,
  ps_list_set, ps_list_remove, ps_list_from, ps_list_copy, grow, ps_list_append, size, put,
  new_list, list_size,
}
use plainspeak.Runtime.Heap.Shared.{
  contents, View, view, place, ListCall, InMemory, make, copy, append, get, put_at, remove,
  expected, call,
}
use plainspeak.Runtime.Heap.Refines.{
  WellFormed, WellFormedHeap, Simulates, WellFormedHeap-store, on_list, load-some, Bounded,
  allocate-cases, grow-cases,
}
use plainspeak.Runtime.Heap.Changes.{
  set_item-WellFormed, set_item-contents, removed-WellFormed, removed-contents,
  append_end-WellFormed, append_end-contents,
}
use plainspeak.Runtime.Heap.Contents.{
  take-take, take-length, get_elem?-append_end, get_elem?-take, length-take, get_elem?-some,
  map-set, map-append, length-map,
}

module _ {F : Type 0} where
  contents-length : (l : PsList F) → WellFormed l → length (contents l) ≡ l.len
  contents-length l w = length-take l.items l.len w.written

  position-place :
      (l : PsList F) (index : PsValue F)
      → WellFormed l
      → position l index ≡ place (contents l) index
  unfolding position place
  position-place l (ps_int i) w = rw (contents-length l w) refl
  position-place l (ps_double d) w = refl
  position-place l (ps_str s) w = refl
  position-place l (ps_list p) w = refl

  position-bound :
      (l : PsList F) (index : PsValue F) (i : ℕ) → position l index ≡ done i → i < l.len
  unfolding position
  position-bound l (ps_int i) k h = ground arith
  position-bound l (ps_double d) k h = cc
  position-bound l (ps_str s) k h = cc
  position-bound l (ps_list p) k h = cc

  on_position :
      {R : Type 0} (l : PsList F) (index : PsValue F) (f : ℕ → Outcome R)
      (post : R → Outcome (Option (PsValue F) × Heap F))
      (g : ℕ → Outcome (Option (PsValue F) × View F))
      → WellFormed l
      → ((i : ℕ) → i < l.len → Simulates (f i >>= post) (g i))
      → Simulates ((position l index >>= f) >>= post) (place (contents l) index >>= g)
  unfolding Simulates
  on_position l index f post g w k =
      rw (sym (position-place l index w)) (by_cases (position l index) refl)
    where
      by_cases : (o : Outcome ℕ) → position l index ≡ o → Simulates ((o >>= f) >>= post) (o >>= g)
      by_cases (done i) e = k i (position-bound l index i e)
      by_cases (died m) e = inr refl
      by_cases undefined e = refl

  list_index-position :
      (list index : PsValue F) (h : Heap F) (p : ℕ) (l : PsList F)
      → list ≡ ps_list (at p)
      → get_elem? h.lists p ≡ some l
      → list_index list index h ≡ position l index
  unfolding list_index as_list
  list_index-position list index h p l e m = rw (e, load-some h p l m) refl

  write-done :
      (l : PsList F) (i : ℕ) (x : PsValue F)
      → i ≤ length l.items
      → suc i * 16 ≤ l.block
      → write l i x ≡ done (record l { items = put l.items i x })
  unfolding write
  write-done l i x h1 h2 = ground arith

  read-done :
      (l : PsList F) (i : ℕ) (x : PsValue F) → get_elem? l.items i ≡ some x → read l i ≡ done x
  unfolding read
  read-done l i x e = rw (e, read) refl

  view-store :
      (h g : Heap F) (p : ℕ) (l : PsList F)
      → g.lists ≡ h.lists
      → view (store p l g) ≡ set (view h) p (contents l)
  unfolding store
  view-store h g p l e = rw e (map-set contents h.lists p l)

  -- A changed list put back.
  stored-Simulates :
      (h g : Heap F) (p : ℕ) (l : PsList F) (xs : List (PsValue F))
      → WellFormedHeap h
      → WellFormed l
      → g.lists ≡ h.lists
      → contents l ≡ xs
      → Simulates (done (none, store p l g)) (done (none, set (view h) p xs))
  unfolding Simulates
  stored-Simulates h g p l xs wh wl e c = (
    WellFormedHeap-store h g p l wh wl e,
    ap (λ v. done (none, v)) (rw (view-store h g p l e, c) refl),
  )

  get-Simulates :
      (list index : PsValue F) (h : Heap F) (grants : Allocator)
      → WellFormedHeap h
      → Simulates (call grants (get list index) h) (expected (get list index) (view h))
  unfolding call expected ps_list_get Simulates
  get-Simulates list index h grants wh = on_list list h _ _ _ λ p l e m.
      rw (list_index-position list index h p l e m) (
        on_position l index _ _ _ (wh.each p l m) λ i b.
          let w = wh.each p l m in
          let found = get_elem?-some l.items i (omega (arith, b, w.written)) in
          rw (read-done l i found.0 found.1, get_elem?-take l.items l.len i b, found.1) (wh, refl))

  put_at-Simulates :
      (list index x : PsValue F) (h : Heap F) (grants : Allocator)
      → WellFormedHeap h
      → Simulates (call grants (put_at list index x) h) (expected (put_at list index x) (view h))
  unfolding call expected ps_list_set
  put_at-Simulates list index x h grants wh = on_list list h _ _ _ λ p l e m.
      rw (list_index-position list index h p l e m) (
        on_position l index _ _ _ (wh.each p l m) λ i b.
          let w = wh.each p l m in
          rw
            (write-done l i x (omega (arith, b, w.written))
              (omega (arith, b, w.written, w.roomy, w.backed)))
            (stored-Simulates h h p _ _ wh (set_item-WellFormed l i x w b) refl
              (set_item-contents l i x w b)))

  remove-Simulates :
      (list index : PsValue F) (h : Heap F) (grants : Allocator)
      → WellFormedHeap h
      → Simulates (call grants (remove list index) h) (expected (remove list index) (view h))
  unfolding call expected ps_list_remove
  remove-Simulates list index h grants wh = on_list list h _ _ _ λ p l e m.
      rw (list_index-position list index h p l e m) (
        on_position l index _ _ _ (wh.each p l m) λ i b.
          stored-Simulates h h p _ _ wh (removed-WellFormed l i (wh.each p l m) b) refl
            (removed-contents l i (wh.each p l m) b))

  -- A list added at the end of the heap.
  added-Simulates :
      (h g : Heap F) (l : PsList F) (xs : List (PsValue F))
      → WellFormedHeap h
      → WellFormed l
      → g.lists ≡ h.lists
      → contents l ≡ xs
      → Simulates
          (done (some (ps_list (at (length g.lists))), record g { lists = g.lists ++ (l ∷ []) }))
          (done (some (ps_list (at (length (view h)))), view h ++ (xs ∷ [])))
  unfolding Simulates
  added-Simulates h g l xs wh wl e c = (
    record {
      each = λ q k m.
          ⊎_elim (λ s. subst WellFormed (sym s) wl) (wh.each q k)
            (get_elem?-append_end h.lists q l k
              (subst (λ x. get_elem? (x ++ (l ∷ [])) q ≡ some k) e m));
    },
    rw (e, map-append contents h.lists (l ∷ []), c, length-map contents h.lists) refl,
  )

module _ {F : Type 0} (grants : Allocator) (small : Bounded grants) where
  append-Simulates :
      (list x : PsValue F) (h : Heap F)
      → WellFormedHeap h
      → Simulates (call grants (append list x) h) (expected (append list x) (view h))
  unfolding call expected ps_list_append Simulates
  append-Simulates list x h wh = on_list list h _ _ _ λ p l e m. appended p l (wh.each p l m)
    where
      appended :
          (p : ℕ) (l : PsList F)
          → WellFormed l
          → Simulates
              ((grow grants l h >>= λ (l', g).
                  write l' l'.len x >>= λ l''. done (store p (record l'' { len = suc l''.len }) g))
                >>= λ g. done (none, g))
              (done (none, set (view h) p (contents l ++ (x ∷ []))))
      appended p l w = elim (grow-cases grants small l h w) [
        | inl d ↦ rw d (inl refl)
        | inr (l', g, d, r) ↦
            let room : l'.len < l'.capacity = omega (arith, r.room, r.same_length) in
            let fits : suc l'.len * 16 ≤ l'.block = omega (arith, room, r.fine.backed) in
            rw (d, write-done l' l'.len x r.fine.written fits)
              (stored-Simulates h g p _ _ wh (append_end-WellFormed l' x r.fine room) r.same_lists
                (append_end-contents l' x r.fine room ∙ rw (r.same_items, r.same_length) refl))
      ]

  -- The new list has its values, unless there is no memory for it.
  list_from-Simulates :
      (items : List (PsValue F)) (count : ℕ) (h : Heap F)
      → WellFormedHeap h
      → count ≤ length items
      → count < 2 ^ 59
      → Simulates
          (ps_list_from grants items count h >>= λ (list, h'). done (some list, h'))
          (done (some (ps_list (at (length (view h)))), view h ++ (take count items ∷ [])))
  unfolding Simulates ps_list_from
  list_from-Simulates items count h wh enough low = elim (allocate-cases grants small list_size h) [
    | inl d ↦ rw d (inl refl)
    | inr (d, b) ↦
        rw d
          (elim (allocate-cases grants small (size (room * 16))
            (record h { requests = suc h.requests })) [
              | inl d' ↦ rw d' (inl refl)
              | inr (d', b') ↦ rw d' (
                  added-Simulates h _ (new_list items count room) (take count items) wh
                    (record {
                      written = rw (length-take items count enough) (omega arith);
                      roomy = rw (length-take items count enough) (ground arith);
                      backed = ground arith;
                      doubles = b';
                    })
                    refl (take-take items count))
            ])
  ]
    where
      room : ℕ
      room = if ltb 4 count then count else 4

  make-Simulates :
      (xs : List (PsValue F)) (h : Heap F)
      → WellFormedHeap h
      → length xs < 2 ^ 59
      → Simulates (call grants (make xs) h) (expected (make xs) (view h))
  unfolding call expected
  make-Simulates xs h wh low =
      subst
        (λ ys.
          Simulates (call grants (make xs) h)
            (done (some (ps_list (at (length (view h)))), view h ++ (ys ∷ []))))
        (take-length xs) (list_from-Simulates xs (length xs) h wh (omega arith) low)

  copy-Simulates :
      (list : PsValue F) (h : Heap F)
      → WellFormedHeap h
      → Simulates (call grants (copy list) h) (expected (copy list) (view h))
  unfolding call expected ps_list_copy
  copy-Simulates list h wh = on_list list h _ _ _ λ p l e m.
      let w = wh.each p l m in
      list_from-Simulates l.items l.len h wh w.written
        (omega (arith, w.written, w.roomy, w.backed, w.doubles))

  pub call-Simulates :
      (c : ListCall F) (h : Heap F)
      → WellFormedHeap h
      → InMemory c
      → Simulates (call grants c h) (expected c (view h))
  call-Simulates (make xs) h wh i = make-Simulates xs h wh i
  call-Simulates (copy list) h wh i = copy-Simulates list h wh
  call-Simulates (append list x) h wh i = append-Simulates list x h wh
  call-Simulates (get list index) h wh i = get-Simulates list index h grants wh
  call-Simulates (put_at list index x) h wh i = put_at-Simulates list index x h grants wh
  call-Simulates (remove list index) h wh i = remove-Simulates list index h grants wh
