-- ===== src/Scopes/Lookup.antt =====
-- src/sema/sema.cpp: what findVar sees after declareVar, and after a scope has been left.
use plainspeak.Prelude.{
  ℕ, ◌≡◌, ◌⊎◌, inl, inr, refl, sym, ap, ◌∙◌, Bool, true, false, ◌&&◌, ◌||◌, Text, text_eq,
  text_eq_iff, List, [], ◌∷◌, ◌++◌, Option, none, some, if◌then◌else◌, Bool-cases, arith,
}
use mathlib.Core.Bool.{true≢false}
use plainspeak.Scopes.{
  declare_all, enter_scope, leave_scope, Symbol, Scope, Scopes, Diag, find, count, put, find_var,
  declare_var, redeclared,
}

if_false {ℓ} : {A : Type ℓ} (t : Bool) (a b : A) → t ≡ false → (if t then a else b) ≡ b
if_false true a b h = absurd (true≢false h)
if_false false a b h = refl

not_both :
    (k key name : Text) → text_eq k key ≡ false → (text_eq key name && text_eq k name) ≡ false
not_both k key name h = elim (Bool-cases (text_eq key name)) [
  | inr e ↦ ground (arith, e)
  | inl e ↦
      let same : text_eq k name ≡ false = ap (text_eq k) (sym ((text_eq_iff key name).0 e)) ∙ h in
      ground (arith, same)
]

swap_tests {ℓ} :
    {A : Type ℓ} (x y : Bool) (p q r : A)
    → (x && y) ≡ false
    → (if y then q else if x then p else r) ≡ (if x then p else if y then q else r)
swap_tests true true p q r h = absurd (true≢false h)
swap_tests true false p q r h = refl
swap_tests false true p q r h = refl
swap_tests false false p q r h = refl

neither : (a b : Bool) → (a || b) ≡ false → (a ≡ false) × (b ≡ false)
neither a b h = ground arith

-- What an entry that was added changes.
find-put :
    (key name : Text) (a : Symbol) (m : Scope)
    → count key m ≡ false
    → find name (put key a m) ≡ (if text_eq key name then some a else find name m)
unfolding find count put
find-put key name a [] h = refl
find-put key name a ((k, b) ∷ m) h =
    let (differs, fresh) = neither (text_eq k key) (count key m) h in
    ap (find name) (if_false (text_eq k key) ((k, a) ∷ m) ((k, b) ∷ put key a m) differs)
    ∙ ap (λ o. if text_eq k name then some b else o) (find-put key name a m fresh)
    ∙ swap_tests (text_eq key name) (text_eq k name) (some a) (some b) (find name m)
        (not_both k key name differs)

-- What findVar sees in a scope and those around it.
first_of : Option Symbol → Option Symbol → Option Symbol
first_of none o = o
first_of (some a) o = some a

first_cases :
    (o p : Option Symbol) → (elim o [ none ↦ p | some symbol ↦ some symbol ]) ≡ first_of o p
unfolding first_of
first_cases none p = refl
first_cases (some a) p = refl

first_if :
    (b : Bool) (a : Symbol) (o p : Option Symbol)
    → first_of (if b then some a else o) p ≡ (if b then some a else first_of o p)
unfolding first_of
first_if true a o p = refl
first_if false a o p = refl

find_var-scope :
    (name : Text) (scope : Scope) (outer : Scopes)
    → find_var name (scope ∷ outer) ≡ first_of (find name scope) (find_var name outer)
unfolding find_var first_of
find_var-scope name scope outer = first_cases (find name scope) (find_var name outer)

-- What a declaration answers, and leaves of the scopes and the diagnostics.
abbrev pub IsDeclared :
    Text → Symbol → ℕ → Scope → Scopes → List Diag → Bool × Scopes × List Diag → Type 0
unfolding find find_var
IsDeclared name symbol line current outer diags (accepted, scopes, after) =
    ((accepted ≡ true)
      × (find name current ≡ none)
      × (after ≡ diags)
      × ((n : Text)
          → find_var n scopes
            ≡ (if text_eq name n then some symbol else find_var n (current ∷ outer))))
    ⊎ ((accepted ≡ false)
        × (scopes ≡ current ∷ outer)
        × (after ≡ diags ++ redeclared name line ∷ [])
        × ((known : Symbol) × (find name current ≡ some known)))

unknown : (name : Text) (m : Scope) → count name m ≡ false → find name m ≡ none
unfolding find count
unknown name [] h = refl
unknown name ((k, a) ∷ m) h =
    let (differs, fresh) = neither (text_eq k name) (count name m) h in
    if_false (text_eq k name) (some a) (find name m) differs ∙ unknown name m fresh

known : (name : Text) (m : Scope) → count name m ≡ true → (a : Symbol) × (find name m ≡ some a)
unfolding find count
known name [] h = absurd (true≢false (sym h))
known name ((k, a) ∷ m) h = elim (Bool-cases (text_eq k name)) [
  | inl e ↦ (a, rw e refl)
  | inr e ↦ let (b, q) = known name m (ground (arith, h, e)) in (b, rw e q)
]

declared :
    (name : Text) (symbol : Symbol) (line : ℕ) (current : Scope) (outer : Scopes)
    (diags : List Diag) (taken : Bool)
    → count name current ≡ taken
    → IsDeclared name symbol line current outer diags (
        if taken
        then (false, current ∷ outer, diags ++ redeclared name line ∷ [])
        else (true, put name symbol current ∷ outer, diags))
unfolding find_var
declared name symbol line current outer diags true h = inr (refl, refl, refl, known name current h)
declared name symbol line current outer diags false h = inl (
  refl,
  unknown name current h,
  refl,
  λ n.
      find_var-scope n (put name symbol current) outer
      ∙ ap (λ o. first_of o (find_var n outer)) (find-put name n symbol current h)
      ∙ first_if (text_eq name n) symbol (find n current) (find_var n outer)
      ∙ ap (λ o. if text_eq name n then some symbol else o) (sym (find_var-scope n current outer)),
)

-- A declaration is accepted or refused. It is accepted where the innermost scope has no symbol of its
-- name: no diagnostic is added, findVar then finds the new symbol under the name, and under each other
-- name what it found before. It is refused where the innermost scope has one: no scope changes, and
-- the diagnostic of a redeclaration is added.
pub declare_var-find_var :
    (name : Text) (symbol : Symbol) (line : ℕ) (current : Scope) (outer : Scopes)
    (diags : List Diag)
    → IsDeclared name symbol line current outer diags
        (declare_var name symbol line (current ∷ outer) diags)
unfolding declare_var
declare_var-find_var name symbol line current outer diags =
    declared name symbol line current outer diags (count name current) refl

declare_var-outer :
    (name : Text) (symbol : Symbol) (line : ℕ) (current : Scope) (outer : Scopes)
    (diags : List Diag)
    → (scope : Scope) × ((declare_var name symbol line (current ∷ outer) diags).1 ≡ scope ∷ outer)
unfolding declare_var
declare_var-outer name symbol line current outer diags = elim (Bool-cases (count name current)) [
  | inl e ↦ (current, rw e refl)
  | inr e ↦ (put name symbol current, rw e refl)
]

block_outer :
    (ds : List (Text × Symbol × ℕ)) (current : Scope) (outer : Scopes) (diags : List Diag)
    → leave_scope (declare_all ds (current ∷ outer) diags).0 ≡ outer
unfolding declare_all
block_outer [] current outer diags = refl
block_outer ((name, symbol, line) ∷ ds) current outer diags =
    let (scope, e) = declare_var-outer name symbol line current outer diags in
    let after = (declare_var name symbol line (current ∷ outer) diags).2 in
    ap (λ s. leave_scope (declare_all ds s after).0) e ∙ block_outer ds scope outer after

-- Whatever is declared in a block, accepted or not, the scopes are after the block what they were
-- before it.
pub leave_scope-block :
    (ds : List (Text × Symbol × ℕ)) (scopes : Scopes) (diags : List Diag)
    → leave_scope (declare_all ds (enter_scope scopes) diags).0 ≡ scopes
leave_scope-block ds scopes diags = block_outer ds [] scopes diags
