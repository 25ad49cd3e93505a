-- ===== src/Qualifiers/Correct.antt =====
-- src/sema/sema.cpp: validateTypeQualifiers refuses a type exactly where a part of it breaks a rule.
use mathlib.Core.Bool.{true≢false}
use plainspeak.Prelude.{
  ℕ, ◌≡◌, refl, sym, ap, ◌∙◌, ◌⊎◌, ◌↔◌, Bool, true, false, ◌&&◌, ◌||◌, List, [], ◌∷◌, ◌++◌,
  if◌then◌else◌, arith,
}
use plainspeak.Types.Model.{
  TypeKind, TypeInfo, SemanticType, OptType, Types, a_type, null_type, the_type, no_types, and_type,
}
use plainspeak.Types.Equality.{kind_eq, kind_number}
use plainspeak.Scopes.{Diag}
use plainspeak.Scopes.Labels.{is_nil}
use plainspeak.Qualifiers.{Checked, validate_type_qualifiers}
use plainspeak.Qualifiers.Rules.{
  Lawful, Held, held, Among, first, later, Occurs, itself, inside, result, parameter,
}
use plainspeak.Qualifiers.Lawful.{kind_eq_iff, own-Lawful}
use plainspeak.Qualifiers.Adds.{well_qualified, well_inside, well_parameters, validate-Adds}

both_left : (a b : Bool) → (a && b) ≡ true → a ≡ true
both_left a b h = ground arith

kept_held :
    {p : SemanticType} {t : OptType} → Held p t → well_inside t ≡ true → well_qualified p ≡ true
unfolding well_qualified
kept_held held h = h

kept_among :
    {p : SemanticType} {ps : Types}
    → Among p ps
    → well_parameters ps ≡ true
    → well_qualified p ≡ true
unfolding well_qualified
kept_among first h = ground (arith, h)
kept_among (later a) h = kept_among a (ground (arith, h))

-- The parts of a function type are its result and parameters only.
function_parts :
    (i : TypeInfo)
    → i.kind ≡ TypeKind.function
    → ((kind_eq i.kind TypeKind.pointer || kind_eq i.kind TypeKind.array) ≡ false)
      × (kind_eq i.kind TypeKind.function ≡ true)
unfolding kind_number
function_parts i k = (
  ap (λ k. kind_eq k TypeKind.pointer || kind_eq k TypeKind.array) k,
  ap (λ k. kind_eq k TypeKind.function) k,
)

signature :
    (i : TypeInfo) (e r : OptType) (ps : Types)
    → i.kind ≡ TypeKind.function
    → well_qualified (a_type i e r ps) ≡ true
    → (well_inside r && well_parameters ps) ≡ true
unfolding well_qualified
signature i e r ps k h = let (a, b) = function_parts i k in ground (arith, h, a, b)

kind_inside :
    (i : TypeInfo)
    → (kind_eq i.kind TypeKind.pointer || kind_eq i.kind TypeKind.array) ≡ true
    → (i.kind ≡ TypeKind.pointer) ⊎ (i.kind ≡ TypeKind.array)
kind_inside i k =
    ground (arith, k, kind_eq_iff i.kind TypeKind.pointer, kind_eq_iff i.kind TypeKind.array)

pointee_parts :
    (i : TypeInfo)
    → (i.kind ≡ TypeKind.pointer) ⊎ (i.kind ≡ TypeKind.array)
    → (kind_eq i.kind TypeKind.pointer || kind_eq i.kind TypeKind.array) ≡ true
pointee_parts i k =
    ground (arith, k, kind_eq_iff i.kind TypeKind.pointer, kind_eq_iff i.kind TypeKind.array)

kept : {u t : SemanticType} → Occurs u t → well_qualified t ≡ true → well_qualified u ≡ true
unfolding well_qualified
kept itself h = h
kept (inside {i} {p} {e} k a o) h = kept o (kept_held a (ground (arith, h, pointee_parts i k)))
kept (result {i} {p} {e} {r} {ps} k a o) h =
    kept o (kept_held a (ground (arith, signature i e r ps k h)))
kept (parameter {i} {p} {e} {r} {ps} k a o) h =
    kept o (kept_among a (ground (arith, signature i e r ps k h)))

well_qualified-Lawful : (t : SemanticType) → well_qualified t ≡ true → Lawful t
unfolding well_qualified
well_qualified-Lawful (a_type i e r ps) h = (own-Lawful (a_type i e r ps)).0 (both_left _ _ h)

all_parts :
    (own p f x y : Bool)
    → own ≡ true
    → (p ≡ true → x ≡ true)
    → (f ≡ true → y ≡ true)
    → (own && (if p then x else if f then y else true)) ≡ true
all_parts own p f x y h hx hy = ground arith

mutual
  unfolding well_qualified

  complete :
      (t : SemanticType) → ((u : SemanticType) → Occurs u t → Lawful u) → well_qualified t ≡ true
  complete (a_type i e r ps) h =
      all_parts _ _ _ _ _ ((own-Lawful (a_type i e r ps)).1 (h (a_type i e r ps) itself))
        (λ k. complete_held e λ p a u o. h u (inside (kind_inside i k) a o))
        λ k.
          let f = (kind_eq_iff i.kind TypeKind.function).0 k in
          rw
            (
              complete_held r λ p a u o. h u (result f a o),
              complete_among ps λ p a u o. h u (parameter f a o),
            )
            refl

  complete_held :
      (t : OptType)
      → ((p : SemanticType) → Held p t → (u : SemanticType) → Occurs u p → Lawful u)
      → well_inside t ≡ true
  complete_held null_type h = refl
  complete_held (the_type t) h = complete t (h t held)

  complete_among :
      (ts : Types)
      → ((p : SemanticType) → Among p ts → (u : SemanticType) → Occurs u p → Lawful u)
      → well_parameters ts ≡ true
  complete_among no_types h = refl
  complete_among (and_type t ts) h =
      rw (complete t (h t first), complete_among ts λ p a. h p (later a)) refl

nil_iff : (ds : List Diag) → (is_nil ds ≡ true) ↔ (ds ≡ [])
nil_iff [] = (λ h. refl, λ h. refl)
nil_iff (d ∷ ds) = (λ h. absurd (true≢false (sym h)), λ h. cc)

-- What is known of the answer and the diagnostics, from c to d.
pub record Judges (t : SemanticType) (c d : Checked) : Type 0 where
  pub added : List Diag
  pub list : d.1 ≡ c.1 ++ added
  pub silent : (added ≡ []) ↔ ((u : SemanticType) → Occurs u t → Lawful u)
  pub answer : (d.0 ≡ true) ↔ ((c.0 ≡ true) × (added ≡ []))

-- validateTypeQualifiers only adds diagnostics. It adds none exactly if each type that occurs in the
-- type, itself included, keeps the rules for its qualifiers: restricted only on a pointer to a type
-- that is neither void nor a function, atomic on no void, array or function, and none on a function.
-- It answers true exactly if it adds none and the answer so far was true.
pub validate_type_qualifiers-Judges :
    (t : SemanticType) (line : ℕ) (c : Checked) → Judges t c (validate_type_qualifiers t line c)
validate_type_qualifiers-Judges t line c =
    let a = validate-Adds t line c in
    record {
      added = a.added;
      list = a.list;
      silent = (
        λ n u o. well_qualified-Lawful u (kept o (sym a.none_added ∙ (nil_iff a.added).1 n)),
        λ h. (nil_iff a.added).0 (a.none_added ∙ complete t h),
      );
      answer = ground (arith, a.answer, a.none_added, nil_iff a.added);
    }
