-- ===== src/Runtime/Heap/Refines.antt =====
-- The lists of runtime/plainspeak_runtime.c against lists of values that are shared by reference.
use plainspeak.Prelude.{
  ℕ, suc, ◌*◌, ◌^◌, ◌≤◌, ◌<◌, ◌≡◌, ◌⊎◌, inl, inr, refl, true, ◌==◌, List, if◌then◌else◌, length,
  set, Option, none, some, get_elem?, arith, ⊎_elim, sym, Option-cases, Bool-cases, subst,
}
use plainspeak.Runtime.{
  null, at, PsValue, ps_int, ps_double, ps_str, ps_list, Outcome, done, died, undefined, ◌>>=◌,
  out_of_memory,
}
use plainspeak.Runtime.Heap.{PsList, Heap, Allocator, load, store, as_list, allocate, grow, size}
use plainspeak.Runtime.Heap.Shared.{contents, View, view, found}
use plainspeak.Runtime.Heap.Contents.{get_elem?-set, get_elem?-map-none, get_elem?-map-some}

module _ {F : Type 0} where
  -- The length is within the part written to, that within the capacity, and the capacity within
  -- the block, whose size a size_t can double.
  pub record WellFormed (l : PsList F) : Type 0 where
    pub written : l.len ≤ length l.items
    pub roomy : length l.items ≤ l.capacity
    pub backed : l.capacity * 16 ≤ l.block
    pub doubles : l.block < 2 ^ 63

  pub record WellFormedHeap (h : Heap F) : Type 0 where
    pub each : (p : ℕ) (l : PsList F) → get_elem? h.lists p ≡ some l → WellFormed l

  -- The list that `grow` gives: the same contents, with room for one more.
  pub record Grown (l : PsList F) (h : Heap F) (l' : PsList F) (h' : Heap F) : Type 0 where
    pub fine : WellFormed l'
    pub same_items : l'.items ≡ l.items
    pub same_length : l'.len ≡ l.len
    pub room : l.len < l'.capacity
    pub same_lists : h'.lists ≡ h.lists

  pub WellFormedHeap-store :
      (h g : Heap F) (p : ℕ) (l : PsList F)
      → WellFormedHeap h
      → WellFormed l
      → g.lists ≡ h.lists
      → WellFormedHeap (store p l g)
  unfolding store
  WellFormedHeap-store h g p l wh wl e = record {
    each = λ q k m.
        ⊎_elim (λ s. subst WellFormed (sym s) wl) (wh.each q k)
          (get_elem?-set h.lists p q l k (subst (λ x. get_elem? (set x p l) q ≡ some k) e m));
  }

  -- How a call's outcome answers the expected one. Only memory may run out.
  unfoldable pub Simulates :
      Outcome (Option (PsValue F) × Heap F) → Outcome (Option (PsValue F) × View F) → Type 0
  Simulates (done (r, h)) o = WellFormedHeap h × (o ≡ done (r, view h))
  Simulates (died m) o = (m ≡ out_of_memory) ⊎ (o ≡ died m)
  Simulates undefined o = o ≡ undefined

  module _ (h : Heap F) (p : ℕ) where
    load-none : get_elem? h.lists p ≡ none → load p h ≡ undefined
    unfolding load
    load-none e = rw (e, load) refl

    pub load-some : (l : PsList F) → get_elem? h.lists p ≡ some l → load p h ≡ done l
    unfolding load
    load-some l e = rw (e, load) refl

    found-none : get_elem? h.lists p ≡ none → found p (view h) ≡ undefined
    unfolding found
    found-none e = rw (get_elem?-map-none contents h.lists p e, found) refl

    found-some :
        (l : PsList F) → get_elem? h.lists p ≡ some l → found p (view h) ≡ done (contents l)
    unfolding found
    found-some l e = rw (get_elem?-map-some contents h.lists p l e, found) refl

  -- The call's first steps, which find its list; `f` is the rest of the operation.
  pub on_list :
      {R : Type 0} (list : PsValue F) (h : Heap F) (f : ℕ → PsList F → Outcome R)
      (post : R → Outcome (Option (PsValue F) × Heap F))
      (g : ℕ → List (PsValue F) → Outcome (Option (PsValue F) × View F))
      → ((p : ℕ) (l : PsList F)
          → list ≡ ps_list (at p)
          → get_elem? h.lists p ≡ some l
          → Simulates (f p l >>= post) (g p (contents l)))
      → Simulates
          ((as_list list >>= λ p. load p h >>= f p) >>= post)
          (as_list list >>= λ p. found p (view h) >>= g p)
  unfolding as_list Simulates
  on_list (ps_int i) h f post g k = inr refl
  on_list (ps_double d) h f post g k = inr refl
  on_list (ps_str s) h f post g k = inr refl
  on_list (ps_list null) h f post g k = inr refl
  on_list (ps_list (at p)) h f post g k = elim (Option-cases (get_elem? h.lists p)) [
    | inl e ↦ rw (load-none h p e, found-none h p e) refl
    | inr (l, e) ↦ rw (load-some h p l e, found-some h p l e) (k p l refl e)
  ]

-- No block is larger than PTRDIFF_MAX bytes.
pub record Bounded (grants : Allocator) : Type 0 where
  pub bound : (n bytes : ℕ) → grants n bytes ≡ true → bytes < 2 ^ 63

module _ {F : Type 0} (grants : Allocator) (small : Bounded grants) where
  pub allocate-cases :
      (bytes : ℕ) (h : Heap F)
      → (allocate grants bytes h ≡ died out_of_memory)
        ⊎ ((allocate grants bytes h ≡ done (record h { requests = suc h.requests }))
            × (bytes < 2 ^ 63))
  unfolding allocate
  allocate-cases bytes h = ground (arith, small.bound h.requests bytes)

  pub grow-cases :
      (l : PsList F) (h : Heap F)
      → WellFormed l
      → (grow grants l h ≡ died out_of_memory)
        ⊎ ((l' : PsList F) × (h' : Heap F) × (grow grants l h ≡ done (l', h')) × Grown l h l' h')
  unfolding grow
  grow-cases l h w = elim (Bool-cases (l.len == l.capacity)) [
    | inr e ↦ inr (
      l,
      h,
      rw e refl,
      record {
        fine = w;
        same_items = refl;
        same_length = refl;
        room = ground (arith, w.written, w.roomy);
        same_lists = refl;
      },
    )
    | inl e ↦ elim (allocate-cases (size (larger * 16)) h) [
      | inl d ↦ inl (rw (e, d) refl)
      | inr (d, b) ↦ inr (
        record l { capacity = larger; block = size (larger * 16) },
        record h { requests = suc h.requests },
        rw (e, d) refl,
        record {
          fine = record {
            written = w.written;
            roomy = ground arith;
            backed = ground arith;
            doubles = b;
          };
          same_items = refl;
          same_length = refl;
          room = ground arith;
          same_lists = refl;
        },
      )
    ]
  ]
    where
      larger : ℕ
      larger = if l.capacity == 0 then 4 else size (l.capacity * 2)
