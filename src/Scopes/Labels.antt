-- ===== src/Scopes/Labels.antt =====
-- src/sema/sema.cpp: the labels of a function. The checks of Label and Go to, and validateLabels at the
-- end, against the lists of the labels and of the targets that the function has.
use plainspeak.Prelude.{
  ℕ, ◌≡◌, inl, inr, refl, sym, ap, ap₂, ◌∙◌, Bool, true, false, not, ◌&&◌, ◌||◌, Text, text_eq,
  text_eq_iff, text_eq_sym, List, [], ◌∷◌, ◌++◌, all, any, if◌then◌else◌, Bool-cases, arith,
}
use plainspeak.Scopes.{
  Diag, count, put, LabelTable, Jump, label, goto, duplicate_label, check_jump, check_jumps,
  missing_labels, validate_labels,
}

abbrev pub labels_of : List Jump → List Text
labels_of [] = []
labels_of (label name line ∷ js) = name ∷ labels_of js
labels_of (goto target line ∷ js) = labels_of js

abbrev pub targets_of : List Jump → List Text
targets_of [] = []
targets_of (label name line ∷ js) = targets_of js
targets_of (goto target line ∷ js) = target ∷ targets_of js

-- Whether a name is in a list, and whether all names of a list differ.
abbrev pub among : List Text → Text → Bool
among names name = any (λ n. text_eq n name) names

abbrev pub distinct : List Text → Bool
distinct [] = true
distinct (name ∷ names) = not (among names name) && distinct names

abbrev pub is_nil : List Diag → Bool
is_nil [] = true
is_nil (d ∷ ds) = false

or_same : (x c : Bool) → (x || c) ≡ (x || (x || c))
or_same x c = ground arith

or_swap : (x y c : Bool) → (x || (y || c)) ≡ (y || (x || c))
or_swap x y c = ground arith

count-put :
    (key name : Text) (a : ℕ) (m : List (Text × ℕ))
    → count name (put key a m) ≡ (text_eq key name || count name m)
unfolding count put
count-put key name a [] = refl
count-put key name a ((k, b) ∷ m) = elim (Bool-cases (text_eq k key)) [
  | inl e ↦
      let q : text_eq k name ≡ text_eq key name =
        ap (λ x. text_eq x name) ((text_eq_iff k key).0 e) in
      rw (e, q) (or_same (text_eq key name) (count name m))
  | inr e ↦
      rw (e, count-put key name a m) (or_swap (text_eq k name) (text_eq key name) (count name m))
]

-- The label diagnostics that come while the function is walked.
duplicates : List (Text × ℕ) → List Jump → List Diag
duplicates m [] = []
duplicates m (goto target line ∷ js) = duplicates m js
duplicates m (label name line ∷ js) =
    if count name m
    then duplicate_label name line ∷ duplicates m js
    else duplicates (put name line m) js

pub append_assoc : (xs ys zs : List Diag) → (xs ++ ys) ++ zs ≡ xs ++ (ys ++ zs)
append_assoc [] ys zs = refl
append_assoc (x ∷ xs) ys zs = ap (λ l. x ∷ l) (append_assoc xs ys zs)

pub append_nil : (xs : List Diag) → xs ++ [] ≡ xs
append_nil [] = refl
append_nil (x ∷ xs) = ap (λ l. x ∷ l) (append_nil xs)

check_jumps-diags :
    (js : List Jump) (t : LabelTable) → (check_jumps js t).diags ≡ t.diags ++ duplicates t.labels js
unfolding check_jumps check_jump duplicates
check_jumps-diags [] t = sym (append_nil t.diags)
check_jumps-diags (goto target line ∷ js) t = check_jumps-diags js (check_jump (goto target line) t)
check_jumps-diags (label name line ∷ js) t = elim (Bool-cases (count name t.labels)) [
  | inl e ↦
      check_jumps-diags js (check_jump (label name line) t)
      ∙ rw e (append_assoc t.diags (duplicate_label name line ∷ []) (duplicates t.labels js))
  | inr e ↦ check_jumps-diags js (check_jump (label name line) t) ∙ rw e refl
]

neither_nor : (x c a b : Bool) → (not (x || c) && (a && not b)) ≡ ((not c && a) && not (x || b))
neither_nor x c a b = ground arith

and_assoc : (a b c : Bool) → ((a && b) && c) ≡ (a && (b && c))
and_assoc a b c = ground arith

not_counted :
    (name : Text) (line : ℕ) (m : List (Text × ℕ)) (names : List Text)
    → all (λ n. not (count n (put name line m))) names
      ≡ (all (λ n. not (count n m)) names && not (among names name))
not_counted name line m [] = refl
not_counted name line m (n ∷ names) =
    rw (count-put name n line m, text_eq_sym name n, not_counted name line m names)
      (neither_nor (text_eq n name) (count n m) (all (λ x. not (count x m)) names)
        (among names name))

is_nil-duplicates :
    (m : List (Text × ℕ)) (js : List Jump)
    → is_nil (duplicates m js)
      ≡ (all (λ n. not (count n m)) (labels_of js) && distinct (labels_of js))
unfolding duplicates
is_nil-duplicates m [] = refl
is_nil-duplicates m (goto target line ∷ js) = is_nil-duplicates m js
is_nil-duplicates m (label name line ∷ js) = elim (Bool-cases (count name m)) [
  | inl e ↦ rw e refl
  | inr e ↦
      rw (e, is_nil-duplicates (put name line m) js)
        (rw (not_counted name line m (labels_of js)) (
          and_assoc (all (λ n. not (count n m)) (labels_of js)) (not (among (labels_of js) name))
            (distinct (labels_of js))))
]

abbrev pub no_labels : LabelTable
no_labels = record { labels = []; goto_targets = []; diags = [] }

or_false : (a : Bool) → a ≡ (a || false)
or_false a = ground arith

and_true : (a : Bool) → a ≡ (a && true)
and_true a = ground arith

and_same : (a b : Bool) → (a && b) ≡ (a && (a && b))
and_same a b = ground arith

and_swap : (a b c : Bool) → (a && (b && c)) ≡ (b && (a && c))
and_swap a b c = ground arith

and_move : (a b c : Bool) → ((a && b) && c) ≡ (b && (a && c))
and_move a b c = ground arith

or_move : (x c a : Bool) → ((x || c) || a) ≡ (c || (x || a))
or_move x c a = ground arith

known_label :
    (n name : Text) (m : List (Text × ℕ)) (a : Bool)
    → count n m ≡ true
    → (count name m || a) ≡ (count name m || (text_eq n name || a))
known_label n name m a h = elim (Bool-cases (text_eq n name)) [
  | inl e ↦
      let k : count name m ≡ true = ap (λ x. count x m) (sym ((text_eq_iff n name).0 e)) ∙ h in
      rw k refl
  | inr e ↦ rw e refl
]

none_counted : (names : List Text) → all (λ n. not (count n (no_labels.labels))) names ≡ true
unfolding count
none_counted [] = refl
none_counted (n ∷ names) = none_counted names

count-check_jumps :
    (name : Text) (js : List Jump) (t : LabelTable)
    → count name (check_jumps js t).labels ≡ (count name t.labels || among (labels_of js) name)
unfolding check_jumps check_jump
count-check_jumps name [] t = or_false (count name t.labels)
count-check_jumps name (goto target line ∷ js) t =
    count-check_jumps name js (check_jump (goto target line) t)
count-check_jumps name (label n line ∷ js) t =
    count-check_jumps name js (check_jump (label n line) t) ∙ elim (Bool-cases (count n t.labels)) [
      | inl e ↦ rw e (known_label n name t.labels (among (labels_of js) name) e)
      | inr e ↦
          rw (e, count-put n name line t.labels)
            (or_move (text_eq n name) (count name t.labels) (among (labels_of js) name))
    ]

keys : List (Text × ℕ) → List Text
keys [] = []
keys ((k, a) ∷ m) = k ∷ keys m

all-keys-put :
    (p : Text → Bool) (k : Text) (a : ℕ) (m : List (Text × ℕ))
    → all p (keys (put k a m)) ≡ (p k && all p (keys m))
unfolding put keys
all-keys-put p k a [] = refl
all-keys-put p k a ((l, b) ∷ m) = elim (Bool-cases (text_eq l k)) [
  | inl e ↦
      let q : p l ≡ p k = ap p ((text_eq_iff l k).0 e) in
      rw (e, q) (and_same (p k) (all p (keys m)))
  | inr e ↦ rw (e, all-keys-put p k a m) (and_swap (p l) (p k) (all p (keys m)))
]

all-keys-check_jumps :
    (p : Text → Bool) (js : List Jump) (t : LabelTable)
    → all p (keys (check_jumps js t).goto_targets)
      ≡ (all p (keys t.goto_targets) && all p (targets_of js))
unfolding check_jumps check_jump
all-keys-check_jumps p [] t = and_true (all p (keys t.goto_targets))
all-keys-check_jumps p (goto target line ∷ js) t =
    all-keys-check_jumps p js (check_jump (goto target line) t)
    ∙ rw (all-keys-put p target line t.goto_targets)
        (and_move (p target) (all p (keys t.goto_targets)) (all p (targets_of js)))
all-keys-check_jumps p (label n line ∷ js) t =
    all-keys-check_jumps p js (check_jump (label n line) t)
    ∙ elim (Bool-cases (count n t.labels)) [ inl e ↦ rw e refl | inr e ↦ rw e refl ]

is_nil-missing_labels :
    (labels targets : List (Text × ℕ))
    → is_nil (missing_labels labels targets) ≡ all (λ k. count k labels) (keys targets)
unfolding missing_labels keys
is_nil-missing_labels labels [] = refl
is_nil-missing_labels labels ((target, line) ∷ targets) = elim (Bool-cases (count target labels)) [
  | inl e ↦ rw e (is_nil-missing_labels labels targets)
  | inr e ↦ rw e refl
]

all-cong :
    (p q : Text → Bool) (names : List Text) → ((n : Text) → p n ≡ q n) → all p names ≡ all q names
all-cong p q [] h = refl
all-cong p q (n ∷ names) h = ap₂ (λ a b. a && b) (h n) (all-cong p q names h)

pub is_nil-append : (xs ys : List Diag) → is_nil (xs ++ ys) ≡ (is_nil xs && is_nil ys)
is_nil-append [] ys = refl
is_nil-append (x ∷ xs) ys = refl

-- For the Labels and Go tos of a function, met in any order, the checks give no diagnostic exactly
-- when the labels are distinct and every Go to names one of them.
pub validate_labels-accepts :
    (js : List Jump)
    → is_nil (validate_labels (check_jumps js no_labels)).diags
      ≡ (distinct (labels_of js) && all (among (labels_of js)) (targets_of js))
unfolding validate_labels count keys
validate_labels-accepts js =
    let t = check_jumps js no_labels in
    is_nil-append t.diags (missing_labels t.labels t.goto_targets)
    ∙ ap₂ (λ a b. a && b)
        (ap is_nil (check_jumps-diags js no_labels)
          ∙ is_nil-duplicates [] js
          ∙ ap (λ a. a && distinct (labels_of js)) (none_counted (labels_of js)))
        (is_nil-missing_labels t.labels t.goto_targets
          ∙ all-cong (λ k. count k t.labels) (among (labels_of js)) (keys t.goto_targets)
              (λ k. count-check_jumps k js no_labels)
          ∙ all-keys-check_jumps (among (labels_of js)) js no_labels)
