-- ===== src/Runtime/Heap/Contents.antt =====
-- Writes and moves in a list's buffer, seen as changes of its contents.
use plainspeak.Prelude.{
  ℕ, zero, suc, ◌+◌, ◌≤◌, ◌<◌, ◌≡◌, refl, ap, subst, List, [], ◌∷◌, ◌++◌, map, length, take, drop,
  set, arith, none, some, get_elem?, ◌⊎◌, inr,
}

module _ {A : Type 0} where
  -- The element at a place left out.
  abbrev pub remove_at : ℕ → List A → List A
  remove_at i xs = take i xs ++ drop (suc i) xs

  pub get_elem?-take : (xs : List A) (n i : ℕ) → i < n → get_elem? (take n xs) i ≡ get_elem? xs i
  get_elem?-take xs zero i h = elim h [ ]
  get_elem?-take [] (suc n) i h = refl
  get_elem?-take (x ∷ xs) (suc n) zero h = refl
  get_elem?-take (x ∷ xs) (suc n) (suc i) h = get_elem?-take xs n i (omega arith)

  pub get_elem?-set :
      (xs : List A) (p q : ℕ) (a b : A)
      → get_elem? (set xs p a) q ≡ some b
      → (b ≡ a) ⊎ (get_elem? xs q ≡ some b)
  get_elem?-set [] p q a b h = inr h
  get_elem?-set (x ∷ xs) zero zero a b h = ground arith
  get_elem?-set (x ∷ xs) zero (suc q) a b h = inr h
  get_elem?-set (x ∷ xs) (suc p) zero a b h = inr h
  get_elem?-set (x ∷ xs) (suc p) (suc q) a b h = get_elem?-set xs p q a b h

  pub get_elem?-append_end :
      (xs : List A) (q : ℕ) (a b : A)
      → get_elem? (xs ++ (a ∷ [])) q ≡ some b
      → (b ≡ a) ⊎ (get_elem? xs q ≡ some b)
  get_elem?-append_end [] zero a b h = ground arith
  get_elem?-append_end [] (suc q) a b h = cc
  get_elem?-append_end (x ∷ xs) zero a b h = inr h
  get_elem?-append_end (x ∷ xs) (suc q) a b h = get_elem?-append_end xs q a b h

  pub length-take : (xs : List A) (n : ℕ) → n ≤ length xs → length (take n xs) ≡ n
  length-take xs zero h = refl
  length-take [] (suc n) h = elim h [ ]
  length-take (x ∷ xs) (suc n) h = ap suc (length-take xs n (omega arith))

  pub get_elem?-some : (xs : List A) (i : ℕ) → i < length xs → (a : A) × (get_elem? xs i ≡ some a)
  get_elem?-some [] i h = elim h [ ]
  get_elem?-some (x ∷ xs) zero h = (x, refl)
  get_elem?-some (x ∷ xs) (suc i) h = get_elem?-some xs i (omega arith)

  pub take-append_end :
      (xs : List A) (n : ℕ) (a : A)
      → n ≡ length xs
      → take (suc n) (xs ++ (a ∷ [])) ≡ take n xs ++ (a ∷ [])
  take-append_end [] zero a h = refl
  take-append_end [] (suc n) a h = absurd (omega arith)
  take-append_end (x ∷ xs) zero a h = absurd (omega arith)
  take-append_end (x ∷ xs) (suc n) a h = ap (λ t. x ∷ t) (take-append_end xs n a (omega arith))

  pub take-take : (xs : List A) (n : ℕ) → take n (take n xs) ≡ take n xs
  take-take xs zero = refl
  take-take [] (suc n) = refl
  take-take (x ∷ xs) (suc n) = ap (λ t. x ∷ t) (take-take xs n)

  pub take-length : (xs : List A) → take (length xs) xs ≡ xs
  take-length [] = refl
  take-length (x ∷ xs) = ap (λ t. x ∷ t) (take-length xs)

  pub take-set_end :
      (xs : List A) (n : ℕ) (a : A)
      → n < length xs
      → take (suc n) (set xs n a) ≡ take n xs ++ (a ∷ [])
  take-set_end [] n a h = elim h [ ]
  take-set_end (x ∷ xs) zero a h = refl
  take-set_end (x ∷ xs) (suc n) a h = ap (λ t. x ∷ t) (take-set_end xs n a (omega arith))

  pub take-set : (xs : List A) (n i : ℕ) (a : A) → i < n → take n (set xs i a) ≡ set (take n xs) i a
  take-set xs zero i a h = elim h [ ]
  take-set [] (suc n) i a h = refl
  take-set (x ∷ xs) (suc n) zero a h = refl
  take-set (x ∷ xs) (suc n) (suc i) a h = ap (λ t. x ∷ t) (take-set xs n i a (omega arith))

  take-take_append : (xs ys : List A) (n : ℕ) → n ≤ length xs → take n (take n xs ++ ys) ≡ take n xs
  take-take_append xs ys zero h = refl
  take-take_append [] ys (suc n) h = elim h [ ]
  take-take_append (x ∷ xs) ys (suc n) h = ap (λ t. x ∷ t) (take-take_append xs ys n (omega arith))

  pub take-shift :
      (xs : List A) (i n m : ℕ)
      → m ≡ i + n
      → m < length xs
      → take m (take i xs ++ (take n (drop (suc i) xs) ++ drop m xs))
        ≡ remove_at i (take (suc m) xs)
  take-shift [] i n m e h = absurd (omega arith)
  take-shift (x ∷ xs) zero n m e h =
      subst (λ k. take m (take k xs ++ drop m (x ∷ xs)) ≡ take m xs) (omega arith)
        (take-take_append xs _ m (omega arith))
  take-shift (x ∷ xs) (suc i) n zero e h = absurd (omega arith)
  take-shift (x ∷ xs) (suc i) n (suc m) e h =
      ap (λ t. x ∷ t) (take-shift xs i n m (omega arith) (omega arith))

  length-take-drop :
      (x : A) (xs : List A) (n : ℕ)
      → n ≤ length xs
      → length (take n xs ++ drop n (x ∷ xs)) ≡ suc (length xs)
  length-take-drop x xs zero h = refl
  length-take-drop x [] (suc n) h = elim h [ ]
  length-take-drop x (y ∷ xs) (suc n) h = ap suc (length-take-drop y xs n (omega arith))

  pub length-shift :
      (xs : List A) (i n m : ℕ)
      → m ≡ i + n
      → m < length xs
      → length (take i xs ++ (take n (drop (suc i) xs) ++ drop m xs)) ≡ length xs
  length-shift [] i n m e h = absurd (omega arith)
  length-shift (x ∷ xs) (suc i) n zero e h = absurd (omega arith)
  length-shift (x ∷ xs) (suc i) n (suc m) e h =
      ap suc (length-shift xs i n m (omega arith) (omega arith))
  length-shift (x ∷ xs) zero n m e h =
      subst (λ k. length (take k xs ++ drop m (x ∷ xs)) ≡ suc (length xs)) (omega arith)
        (length-take-drop x xs m (omega arith))

  pub remove_at-last :
      (xs : List A) (n : ℕ) → suc n ≤ length xs → take n xs ≡ remove_at n (take (suc n) xs)
  remove_at-last [] n h = elim h [ ]
  remove_at-last (x ∷ xs) zero h = refl
  remove_at-last (x ∷ xs) (suc n) h = ap (λ t. x ∷ t) (remove_at-last xs n (omega arith))

module _ {A B : Type 0} (f : A → B) where
  pub get_elem?-map-none :
      (xs : List A) (i : ℕ) → get_elem? xs i ≡ none → get_elem? (map f xs) i ≡ none
  get_elem?-map-none [] i h = refl
  get_elem?-map-none (x ∷ xs) zero h = cc
  get_elem?-map-none (x ∷ xs) (suc i) h = get_elem?-map-none xs i h

  pub get_elem?-map-some :
      (xs : List A) (i : ℕ) (a : A) → get_elem? xs i ≡ some a → get_elem? (map f xs) i ≡ some (f a)
  get_elem?-map-some [] i a h = cc
  get_elem?-map-some (x ∷ xs) zero a h = cc
  get_elem?-map-some (x ∷ xs) (suc i) a h = get_elem?-map-some xs i a h

  pub map-set : (xs : List A) (i : ℕ) (a : A) → map f (set xs i a) ≡ set (map f xs) i (f a)
  map-set [] i a = refl
  map-set (x ∷ xs) zero a = refl
  map-set (x ∷ xs) (suc i) a = ap (λ t. f x ∷ t) (map-set xs i a)

  pub map-append : (xs ys : List A) → map f (xs ++ ys) ≡ map f xs ++ map f ys
  map-append [] ys = refl
  map-append (x ∷ xs) ys = ap (λ t. f x ∷ t) (map-append xs ys)

  pub length-map : (xs : List A) → length (map f xs) ≡ length xs
  length-map [] = refl
  length-map (x ∷ xs) = ap suc (length-map xs)
