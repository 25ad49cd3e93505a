-- ===== src/Runtime/Printing/Depth.antt =====
-- What print_inline of runtime/plainspeak_runtime.c prints, and how deep it goes.
use plainspeak.Prelude.{
  ℕ, zero, suc, ◌≤◌, ◌<◌, ◌≡◌, inl, inr, refl, Bool, true, false, Text, List, [], ◌∷◌, some, take,
  In, get_elem?, arith, ap, ◌∙◌, ◌++◌, if◌then◌else◌, codes,
}
use plainspeak.Runtime.{
  long_text, null, at, PsValue, ps_int, ps_double, ps_str, ps_list, done, Doubles,
}
use plainspeak.Prelude.Int.{ℤ}
use mathlib.Core.List.{append-nil}
use plainspeak.Runtime.Heap.{Heap, PsList, load, as_list}
use plainspeak.Runtime.Printing.{Printed, then_text, print_items, print_list, print_inline}

-- Texts one after the other, with a separator between them.
unfoldable pub join : Text → List Text → Text
join sep [] = []
join sep (t ∷ []) = t
join sep (t ∷ u ∷ ts) = t ++ (sep ++ join sep (u ∷ ts))

abbrev items_text : Text → Bool → List Text → Text
items_text sep first [] = []
items_text sep first (t ∷ ts) = (if first then [] else sep) ++ (t ++ items_text sep false ts)

items_text-join : (sep t : Text) (ts : List Text) → t ++ items_text sep false ts ≡ join sep (t ∷ ts)
unfolding join
items_text-join sep t [] = append-nil t
items_text-join sep t (u ∷ ts) = ap (λ r. t ++ (sep ++ r)) (items_text-join sep u ts)

joined : (sep : Text) (ts : List Text) → items_text sep true ts ≡ join sep ts
unfolding join
joined sep [] = refl
joined sep (t ∷ ts) = items_text-join sep t ts

-- The text is printed, and no other.
abbrev pub Prints : Printed → Text → Type 0
Prints p t = p ≡ some (done t)

then_text-Prints :
    (p : Printed) (k : Text → Printed) (t u : Text)
    → Prints p t
    → Prints (k t) u
    → Prints (then_text p k) u
then_text-Prints p k t u e q = ap (λ p. then_text p k) e ∙ q

module _ {F : Type 0} where
  -- A list's depth is above that of its values where `rank` decreases from a list to its items.
  abbrev pub depth : (ℕ → ℕ) → PsValue F → ℕ
  depth rank (ps_list (at p)) = suc (rank p)
  depth rank v = 0

  -- A list that a value is lies in the heap.
  abbrev pub Allocated : Heap F → PsValue F → Type 0
  Allocated h (ps_list (at p)) = (l : PsList F) × (get_elem? h.lists p ≡ some l)
  Allocated h (ps_list null) = ⊥
  Allocated h v = Unit

  -- Each list among the values of a list lies in the heap and has a smaller rank.
  pub record Ranked (rank : ℕ → ℕ) (h : Heap F) : Type 0 where
    pub falls :
        (p : ℕ) (l : PsList F)
        → get_elem? h.lists p ≡ some l
        → (v : PsValue F) → In v (take l.len l.items)
        → (depth rank v ≤ rank p) × Allocated h v

  module _ (d : Doubles F) (h : Heap F) where
    mutual
      -- The text of a value: a list is the texts of its values with commas, in brackets.
      pub data Shows : PsValue F → Text → Type 0 where
        long : {i : ℤ} → Shows (ps_int i) (long_text i)
        double : {x : F} → Shows (ps_double x) (d.show x)
        string : {s : Text} → Shows (ps_str s) s
        list :
            {p : ℕ} {l : PsList F} {ts : List Text}
            → get_elem? h.lists p ≡ some l
            → ShowsEach (take l.len l.items) ts
            → Shows (ps_list (at p)) (codes "[" ++ (join (codes ", ") ts ++ codes "]"))

      pub data ShowsEach : List (PsValue F) → List Text → Type 0 where
        none_left : ShowsEach [] []
        and_then :
            {v : PsValue F} {t : Text} {vs : List (PsValue F)} {ts : List Text}
            → Shows v t
            → ShowsEach vs ts
            → ShowsEach (v ∷ vs) (t ∷ ts)

    print_items-Shows :
        (print : PsValue F → Printed) (sep : Text) (first : Bool) (xs : List (PsValue F))
        → ((v : PsValue F) → In v xs → (t : Text) × Prints (print v) t × Shows v t)
        → (ts : List Text) × Prints (print_items print sep first xs) (items_text sep first ts)
          × ShowsEach xs ts
    unfolding print_items
    print_items-Shows print sep first [] f = ([], refl, none_left)
    print_items-Shows print sep first (x ∷ xs) f =
        let (t, e, s) = f x (inl refl) in
        let (ts, q, r) = print_items-Shows print sep false xs λ v i. f v (inr i) in
        (t ∷ ts, then_text-Prints (print x) _ t _ e (then_text-Prints _ _ _ _ q refl), and_then s r)

  module _ (d : Doubles F) (h : Heap F) (rank : ℕ → ℕ) (ranked : Ranked rank h) where
    -- Within any fuel above its depth a value is printed, as the text that `Shows` gives it, where it
    -- and each list among the values of a list lie in the heap, and a rank falls from each list to
    -- those among its values.
    pub print_inline-Shows :
        (n : ℕ) (v : PsValue F)
        → Allocated h v
        → depth rank v < n
        → (t : Text) × Prints (print_inline d h n v) t × Shows d h v t
    unfolding print_inline as_list load long_text
    print_inline-Shows zero v a b = absurd (omega arith)
    print_inline-Shows (suc n) (ps_int i) a b = (_, refl, long)
    print_inline-Shows (suc n) (ps_double x) a b = (_, refl, double)
    print_inline-Shows (suc n) (ps_str s) a b = (_, refl, string)
    print_inline-Shows (suc n) (ps_list null) a b = absurd a
    print_inline-Shows (suc n) (ps_list (at p)) (l, e) b =
        let (ts, q, r) =
          print_items-Shows d h (λ v. print_inline d h n v) (codes ", ") true (take l.len l.items)
            λ v i.
              let (smaller, a) = ranked.falls p l e v i in
              print_inline-Shows n v a (omega (arith, smaller, b)) in
        (
          codes "[" ++ (join (codes ", ") ts ++ codes "]"),
          rw (e, print_list)
              (then_text-Prints _ _ (join (codes ", ") ts) _
                (q ∙ ap (λ t. some (done t)) (joined (codes ", ") ts)) refl),
          list e r,
        )
