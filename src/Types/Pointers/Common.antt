-- ===== src/Types/Pointers/Common.antt =====
-- src/sema/sema.cpp: the pointer type that conditionalPointerType finds for two operands takes
-- both of them.
use plainspeak.Prelude.{
  ◌≡◌, ◌⊎◌, inl, inr, refl, Bool, true, false, ◌&&◌, Option, none, some, ⊎_elim, ◌∙◌, sym, ap₂,
  subst, arith, if◌then◌else◌,
}
use mathlib.Core.Option.{some-injective}
use plainspeak.Types.Model.{
  TypeKind, SemanticType, OptType, Types, TypeQualifiers, null_type, the_type, no_types, and_type,
  a_type, element_type, return_type, parameter_types, qualifiers_of, with_qualifiers, pointer_to,
}
use plainspeak.Types.Equality.{kind_number, type_eq}
use plainspeak.Types.Equality.Correct.{type_eq_refl, type_eq-kind_of}
use plainspeak.Types.Predicates.{
  is_kind, is_pointer, is_object_pointee, strip_top_qualifiers, decay_array, qualifier_superset,
  combined_qualifiers,
}
use plainspeak.Types.Pointers.{
  same_kind, same_kinds, bases_compatible, pointer_bases_compatible, pointers_assignable,
  pointers_comparable, common_base, pointer_to_base, common_pointer, conditional_pointer_type,
  assignable_to, value_assignable,
}

same_kinds_refl : (ts : Types) → same_kinds ts ts ≡ true
unfolding kind_number
same_kinds_refl no_types = refl
same_kinds_refl (and_type t ts) = ground (arith, same_kinds_refl ts)

same_kind_refl : (s t : OptType) → same_kind s t ≡ true → same_kind s s ≡ true
unfolding kind_number
same_kind_refl null_type t h = h
same_kind_refl (the_type s) t h = ground arith

bases_compatible_refl :
    (a b : SemanticType)
    → type_eq a b ≡ true
    → bases_compatible a b ≡ true
    → bases_compatible a a ≡ true
unfolding bases_compatible
bases_compatible_refl a b h k = ground (
  arith,
  type_eq_refl a,
  type_eq-kind_of a b h,
  same_kinds_refl (parameter_types a),
  same_kind_refl (return_type a) (return_type b),
)

common_base-cases :
    (a b c : SemanticType)
    → common_base a b ≡ some c
    → ((is_kind TypeKind.void a ≡ true) × (is_object_pointee b ≡ true) × (c ≡ a))
      ⊎ ((is_kind TypeKind.void b ≡ true) × (is_object_pointee a ≡ true) × (c ≡ b))
      ⊎ ((type_eq a b ≡ true) × (c ≡ a))
unfolding common_base
common_base-cases a b c h = ground arith

void-compatible :
    (a b : SemanticType)
    → is_kind TypeKind.void a ≡ true
    → is_object_pointee b ≡ true
    → (bases_compatible a a ≡ true) × (bases_compatible a b ≡ true) × (bases_compatible b a ≡ true)
unfolding bases_compatible kind_number
void-compatible a b h k = ground (arith, type_eq_refl a)

-- The base that is chosen is one of the two, and goes with both.
common_base-compatible :
    (a b c : SemanticType)
    → common_base a b ≡ some c
    → bases_compatible a b ≡ true
    → ((c ≡ a) ⊎ (c ≡ b)) × (bases_compatible c a ≡ true) × (bases_compatible c b ≡ true)
common_base-compatible a b c h k = elim (common_base-cases a b c h) [
  | inl (v, o, e) ↦ let (aa, ab, ba) = void-compatible a b v o in (inl e, rw e aa, rw e ab)
  | inr (inl (v, o, e)) ↦ let (bb, ba, ab) = void-compatible b a v o in (inr e, rw e ba, rw e bb)
  | inr (inr (q, e)) ↦ (inl e, rw e (bases_compatible_refl a b q k), rw e k)
]

superset-combined :
    (p q : TypeQualifiers)
    → (qualifier_superset (combined_qualifiers p q) p ≡ true)
      × (qualifier_superset (combined_qualifiers p q) q ≡ true)
superset-combined p q = ground arith

pub pointers_assignable-pointer_to :
    (t s : SemanticType)
    → bases_compatible (strip_top_qualifiers t) (strip_top_qualifiers s) ≡ true
    → qualifier_superset (qualifiers_of t) (qualifiers_of s) ≡ true
    → pointers_assignable (pointer_to t) (pointer_to s) ≡ true
unfolding pointers_assignable pointer_bases_compatible kind_number
pointers_assignable-pointer_to (a_type i e r ps) (a_type j f u qs) h k = simp (h, k) refl

strip-with_qualifiers :
    (base p : SemanticType) (q : TypeQualifiers)
    → base ≡ strip_top_qualifiers p
    → strip_top_qualifiers (with_qualifiers q base) ≡ base
strip-with_qualifiers base (a_type i e r ps) q h = rw h refl

-- The pointee that stands for both.
abbrev common_pointee : SemanticType → SemanticType → SemanticType → SemanticType
common_pointee p q base =
    with_qualifiers (combined_qualifiers (qualifiers_of p) (qualifiers_of q)) base

qualifiers_of-with_qualifiers :
    (q : TypeQualifiers) (t : SemanticType) → qualifiers_of (with_qualifiers q t) ≡ q
qualifiers_of-with_qualifiers q (a_type i e r ps) = refl

accepts :
    (p q base : SemanticType)
    → common_base (strip_top_qualifiers p) (strip_top_qualifiers q) ≡ some base
    → bases_compatible (strip_top_qualifiers p) (strip_top_qualifiers q) ≡ true
    → (pointers_assignable (pointer_to (common_pointee p q base)) (pointer_to p) ≡ true)
      × (pointers_assignable (pointer_to (common_pointee p q base)) (pointer_to q) ≡ true)
accepts p q base h k =
    let (o, l, r) =
      common_base-compatible (strip_top_qualifiers p) (strip_top_qualifiers q) base h k in
    let c = combined_qualifiers (qualifiers_of p) (qualifiers_of q) in
    let bare = ⊎_elim (strip-with_qualifiers base p c) (strip-with_qualifiers base q c) o in
    let (sp, sq) = superset-combined (qualifiers_of p) (qualifiers_of q) in
    (
      pointers_assignable-pointer_to (common_pointee p q base) p (rw bare l)
          (rw (qualifiers_of-with_qualifiers c base) sp),
      pointers_assignable-pointer_to (common_pointee p q base) q (rw bare r)
          (rw (qualifiers_of-with_qualifiers c base) sq),
    )

pointers_assignable-pointee :
    (t source p : SemanticType)
    → is_pointer source ≡ true
    → element_type source ≡ the_type p
    → pointers_assignable t source ≡ pointers_assignable t (pointer_to p)
unfolding pointers_assignable pointer_bases_compatible kind_number
pointers_assignable-pointee t (a_type i e r ps) p h k = simp (h, k) refl

assignable-pointer :
    (pointee source p : SemanticType)
    → is_pointer (decay_array source) ≡ true
    → element_type (decay_array source) ≡ the_type p
    → pointers_assignable (pointer_to pointee) (pointer_to p) ≡ true
    → assignable_to (pointer_to pointee) source ≡ true
unfolding assignable_to value_assignable kind_number
assignable-pointer pointee source p h k a =
    let e : pointers_assignable (pointer_to pointee) (decay_array source) ≡ true =
      pointers_assignable-pointee (pointer_to pointee) (decay_array source) p h k ∙ a in
    ground (arith, e)

guarded {ℓ} :
    {A : Type ℓ} (a b c : Bool) (x : Option A) (t : A)
    → (if a && b && c then x else none) ≡ some t
    → (a ≡ true) × (b ≡ true) × (c ≡ true) × (x ≡ some t)
guarded true true true x t h = (refl, refl, refl, h)
guarded true true false x t h = cc
guarded true false c x t h = cc
guarded false b c x t h = cc

pointer_to_base-some :
    (q : TypeQualifiers) (o : Option SemanticType) (t : SemanticType)
    → pointer_to_base q o ≡ some t
    → (base : SemanticType) × (o ≡ some base) × (pointer_to (with_qualifiers q base) ≡ t)
pointer_to_base-some q none t h = ground arith
pointer_to_base-some q (some base) t h =
    (base, refl, some-injective (pointer_to (with_qualifiers q base)) t h)

-- Where both operands point to p and q, and a common pointer is found.
common_pointer-accepts :
    (p q t : SemanticType)
    → bases_compatible (strip_top_qualifiers p) (strip_top_qualifiers q) ≡ true
    → common_pointer (the_type p) (the_type q) ≡ some t
    → (pointee : SemanticType) × (pointer_to pointee ≡ t)
      × (pointers_assignable (pointer_to pointee) (pointer_to p) ≡ true)
      × (pointers_assignable (pointer_to pointee) (pointer_to q) ≡ true)
unfolding common_base
common_pointer-accepts p q t k h =
    let c = combined_qualifiers (qualifiers_of p) (qualifiers_of q) in
    let (base, e, f) =
      pointer_to_base-some c (common_base (strip_top_qualifiers p) (strip_top_qualifiers q)) t h in
    let (ap', aq) = accepts p q base e k in (common_pointee p q base, f, ap', aq)

-- Two compared pointers point to something.
comparable-pointees :
    (l r : SemanticType)
    → pointers_comparable l r ≡ true
    → (p : SemanticType) × (q : SemanticType) × (element_type l ≡ the_type p)
      × (element_type r ≡ the_type q)
      × (bases_compatible (strip_top_qualifiers p) (strip_top_qualifiers q) ≡ true)
unfolding pointers_comparable pointer_bases_compatible kind_number
comparable-pointees (a_type i (the_type p) r ps) (a_type j (the_type q) s qs) h =
    (p, q, refl, refl, ground arith)
comparable-pointees (a_type i null_type r ps) (a_type j f s qs) h = ground arith
comparable-pointees (a_type i (the_type p) r ps) (a_type j null_type s qs) h = ground arith

-- The type that conditionalPointerType finds is one that both operands may be assigned to.
pub conditional_pointer_type-assignable_to :
    (l r t : SemanticType)
    → conditional_pointer_type l r ≡ some t
    → (assignable_to t l ≡ true) × (assignable_to t r ≡ true)
unfolding conditional_pointer_type
conditional_pointer_type-assignable_to l r t h =
    let (pl, pr, c, f) =
      guarded (is_pointer (decay_array l)) (is_pointer (decay_array r))
        (pointers_comparable (decay_array l) (decay_array r))
        (common_pointer (element_type (decay_array l)) (element_type (decay_array r))) t h in
    let (p, q, ep, eq, k) = comparable-pointees (decay_array l) (decay_array r) c in
    let g : common_pointer (the_type p) (the_type q) ≡ some t =
      ap₂ common_pointer (sym ep) (sym eq) ∙ f in
    let (pointee, e, al, ar) = common_pointer-accepts p q t k g in
    subst (λ u. (assignable_to u l ≡ true) × (assignable_to u r ≡ true)) e
      (assignable-pointer pointee l p pl ep al, assignable-pointer pointee r q pr eq ar)
