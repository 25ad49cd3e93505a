-- ===== src/Types/Pointers/Assign.antt =====
-- src/sema/sema.cpp: what assignableTo, assignableExprTo and canExplicitCast let through.
use plainspeak.Prelude.{◌≡◌, ◌⊎◌, inl, inr, sym, Bool, true, false, ◌&&◌, ◌||◌, arith}
use plainspeak.Ast.{Expr}
use plainspeak.Constants.Value.{is_null_pointer_constant_expr}
use plainspeak.Types.Model.{
  TypeKind, TypeQualifiers, SemanticType, the_type, null_type, a_type, element_type, qualifiers_of,
}
use plainspeak.Types.Equality.{kind_number, type_eq}
use plainspeak.Types.Equality.Correct.{type_eq-kind_of, type_eq-pointee}
use plainspeak.Types.Predicates.{
  is_kind, is_pointer, is_floating, is_cast_scalar, is_arithmetic_scalar, strip_top_qualifiers,
  decay_array, qualifier_superset,
}
use plainspeak.Types.Pointers.{
  value_assignable, scalar_cast, assignable_to, assignable_expr_to, can_explicit_cast,
  pointers_assignable,
}

superset_refl : (q : TypeQualifiers) → qualifier_superset q q ≡ true
superset_refl q = ground arith

-- The ways in which a value of pointer type may be assigned to a pointer.
value_assignable-pointers :
    (t s : SemanticType)
    → is_pointer t ≡ true
    → is_pointer s ≡ true
    → value_assignable t s ≡ true
    → (type_eq t s ≡ true) ⊎ (pointers_assignable t s ≡ true)
unfolding value_assignable kind_number
value_assignable-pointers t s h k a = ground arith

assignable_to-value :
    (t s : SemanticType)
    → assignable_to t s ≡ true
    → value_assignable (strip_top_qualifiers t) (decay_array s) ≡ true
unfolding assignable_to
assignable_to-value t s a = ground arith

floating_cast :
    (t s : SemanticType) (e : Expr)
    → is_pointer t ≡ true
    → is_floating s ≡ true
    → scalar_cast t s e ≡ false
unfolding scalar_cast kind_number
floating_cast t s e h k = ground (arith, type_eq-kind_of t s)

floating_decays : (s : SemanticType) → is_floating s ≡ true → is_floating (decay_array s) ≡ true
unfolding kind_number
floating_decays (a_type i null_type r ps) h = h
floating_decays (a_type i (the_type e) r ps) h = ground arith

either : (a b c d z : Bool) → b ≡ true → d ≡ true → (a || b && (c || d) || z) ≡ true
either a b c d z h k = ground arith

last_fails : (a b c : Bool) → c ≡ false → (a && b && c) ≡ false
last_fails a b c h = ground arith

null_constant-assignable :
    (t s : SemanticType) (e : Expr)
    → is_pointer t ≡ true
    → is_null_pointer_constant_expr e ≡ true
    → assignable_expr_to t s e ≡ true
unfolding assignable_expr_to
null_constant-assignable t s e h n =
    either (assignable_to t s) (is_pointer t) (is_kind TypeKind.nullptr s)
      (is_null_pointer_constant_expr e)
      (is_kind TypeKind.nullptr t && is_null_pointer_constant_expr e) h n

-- An expression of a floating type whose constant value is 0 may be assigned to every pointer, though
-- it may not be cast to one.
pub floating_null-assignable :
    (t s : SemanticType) (e : Expr)
    → is_pointer t ≡ true
    → is_floating s ≡ true
    → is_null_pointer_constant_expr e ≡ true
    → (assignable_expr_to t s e ≡ true) × (can_explicit_cast t s e ≡ false)
unfolding can_explicit_cast
floating_null-assignable (a_type i f r ps) s e h k n =
    let t = a_type i f r ps in
    (
      null_constant-assignable t s e h n,
      last_fails (is_cast_scalar (strip_top_qualifiers t)) (is_cast_scalar (decay_array s))
          (scalar_cast (strip_top_qualifiers t) (decay_array s) e)
          (floating_cast (strip_top_qualifiers t) (decay_array s) e h (floating_decays s k)),
    )

complex_decays :
    (s : SemanticType)
    → is_kind TypeKind.complex s ≡ true
    → is_kind TypeKind.complex (decay_array s) ≡ true
unfolding kind_number
complex_decays (a_type i null_type r ps) h = h
complex_decays (a_type i (the_type e) r ps) h = ground arith

complex-is_cast_scalar :
    (s : SemanticType) → is_kind TypeKind.complex s ≡ true → is_cast_scalar s ≡ false
unfolding kind_number
complex-is_cast_scalar (a_type i null_type r ps) h = ground arith
complex-is_cast_scalar (a_type i (the_type e) r ps) h = ground arith

middle_fails : (a b c : Bool) → b ≡ false → (a && b && c) ≡ false
middle_fails a b c h = ground arith

-- A complex value may be assigned to every boolean, enumeration, integer, decimal and complex type,
-- though it may not be cast to any.
pub complex-assignable :
    (t s : SemanticType) (e : Expr)
    → is_arithmetic_scalar t ≡ true
    → is_kind TypeKind.complex s ≡ true
    → (assignable_to t s ≡ true) × (can_explicit_cast t s e ≡ false)
unfolding assignable_to value_assignable can_explicit_cast kind_number
complex-assignable (a_type i f r ps) s e h k =
    let c = complex_decays s k in
    let to = strip_top_qualifiers (a_type i f r ps) in
    (
      ground (arith, c),
      middle_fails (is_cast_scalar to) (is_cast_scalar (decay_array s))
          (scalar_cast to (decay_array s) e) (complex-is_cast_scalar (decay_array s) c),
    )

both_true : (a b : Bool) → (a && b) ≡ true → (a ≡ true) × (b ≡ true)
both_true a b h = ground arith

pointee_of : (p x : SemanticType) → the_type x ≡ the_type p → x ≡ p
pointee_of p x h = cc

pointee_superset :
    (t s p q : SemanticType)
    → pointers_assignable t s ≡ true
    → element_type t ≡ the_type p
    → element_type s ≡ the_type q
    → qualifier_superset (qualifiers_of p) (qualifiers_of q) ≡ true
unfolding pointers_assignable
pointee_superset (a_type i (the_type x) r ps) (a_type j (the_type y) u qs) p q h k l =
    let (front, back) = both_true _ (qualifier_superset (qualifiers_of x) (qualifiers_of y)) h in
    rw (sym (pointee_of p x k), sym (pointee_of q y l)) back
pointee_superset (a_type i null_type r ps) (a_type j g u qs) p q h k l = ground arith
pointee_superset (a_type i (the_type x) r ps) (a_type j null_type u qs) p q h k l = ground arith

-- Where a value of pointer type may be assigned to a pointer, what the target points to has every
-- qualifier of what the source points to.
pub assignable_to-qualifier_superset :
    (t s p q : SemanticType)
    → is_pointer t ≡ true
    → element_type t ≡ the_type p
    → is_pointer (decay_array s) ≡ true
    → element_type (decay_array s) ≡ the_type q
    → assignable_to t s ≡ true
    → qualifier_superset (qualifiers_of p) (qualifiers_of q) ≡ true
assignable_to-qualifier_superset (a_type i f r ps) s p q h ep k eq a =
    let t = strip_top_qualifiers (a_type i f r ps) in
    elim (value_assignable-pointers t (decay_array s) h k
      (assignable_to-value (a_type i f r ps) s a)) [
        | inl e ↦
            rw (type_eq-pointee t (decay_array s) p q e ep eq) (superset_refl (qualifiers_of q))
        | inr e ↦ pointee_superset t (decay_array s) p q e ep eq
      ]
