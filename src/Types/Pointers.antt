-- ===== src/Types/Pointers.antt =====
-- src/sema/sema.cpp: which pointers go together, what may be assigned and cast, and the type of a
-- conditional expression on pointers.
pub mod Common
pub mod Assign
use plainspeak.Prelude.{Bool, true, false, not, ◌&&◌, ◌||◌, Option, none, some, if◌then◌else◌}
use plainspeak.Ast.{Expr}
use plainspeak.Constants.Value.{is_null_pointer_constant_expr}
use plainspeak.Types.Model.{
  TypeKind, TypeQualifiers, SemanticType, OptType, Types, null_type, the_type, no_types, and_type,
  a_type, info, kind_of, element_type, return_type, parameter_types, qualifiers_of, with_qualifiers,
  pointer_to,
}
use plainspeak.Types.Equality.{kind_eq, bool_eq, type_eq}
use plainspeak.Types.Predicates.{
  is_kind, is_array, is_pointer, is_set, is_arithmetic_scalar, is_object_pointee, is_cast_integer,
  is_cast_arithmetic, is_cast_scalar, strip_top_qualifiers, decay_array, qualifier_superset,
  combined_qualifiers,
}

-- Two optional types that are set and of one kind
abbrev pub same_kind : OptType → OptType → Bool
same_kind (the_type s) (the_type t) = kind_eq (kind_of s) (kind_of t)
same_kind s t = false

-- as many parameters, of the same kinds
abbrev pub same_kinds : Types → Types → Bool
same_kinds no_types no_types = true
same_kinds (and_type s ss) (and_type t ts) = kind_eq (kind_of s) (kind_of t) && same_kinds ss ts
same_kinds ss ts = false

-- The test on the pointees without their qualifiers.
unfoldable pub bases_compatible : SemanticType → SemanticType → Bool
unfolding type_eq
bases_compatible a b =
    if is_kind TypeKind.function a && is_kind TypeKind.function b
    then bool_eq (info a).variadic (info b).variadic
      && same_kinds (parameter_types a) (parameter_types b)
      && same_kind (return_type a) (return_type b)
    else type_eq a b
      || is_kind TypeKind.void a && is_object_pointee b
      || is_kind TypeKind.void b && is_object_pointee a

abbrev pub pointees_compatible : OptType → OptType → Bool
unfolding bases_compatible
pointees_compatible (the_type p) (the_type q) =
    bases_compatible (strip_top_qualifiers p) (strip_top_qualifiers q)
pointees_compatible p q = false

unfoldable pub pointer_bases_compatible : SemanticType → SemanticType → Bool
unfolding pointees_compatible
pointer_bases_compatible a b =
    is_pointer a && is_pointer b && pointees_compatible (element_type a) (element_type b)

abbrev pub pointee_qualifiers_superset : OptType → OptType → Bool
pointee_qualifiers_superset (the_type p) (the_type q) =
    qualifier_superset (qualifiers_of p) (qualifiers_of q)
pointee_qualifiers_superset p q = false

unfoldable pub pointers_assignable : SemanticType → SemanticType → Bool
unfolding pointer_bases_compatible
pointers_assignable target source =
    let value_target = strip_top_qualifiers target in
    let value_source = strip_top_qualifiers source in
    pointer_bases_compatible value_target value_source
    && pointee_qualifiers_superset (element_type value_target) (element_type value_source)

unfoldable pub pointers_comparable : SemanticType → SemanticType → Bool
unfolding pointer_bases_compatible
pointers_comparable a b = pointer_bases_compatible (strip_top_qualifiers a) (strip_top_qualifiers b)

-- The rules of assignableTo, for a target without qualifiers and a source that has decayed.
unfoldable pub value_assignable : SemanticType → SemanticType → Bool
unfolding pointers_assignable type_eq
value_assignable value_target value_source =
    type_eq value_target value_source
    || is_kind TypeKind.boolean value_target && is_kind TypeKind.nullptr value_source
    || is_pointer value_target && is_kind TypeKind.nullptr value_source
    || is_arithmetic_scalar value_target && is_arithmetic_scalar value_source
    || pointers_assignable value_target value_source

unfoldable pub assignable_to : SemanticType → SemanticType → Bool
unfolding value_assignable
assignable_to target source =
    not (is_array target) && value_assignable (strip_top_qualifiers target) (decay_array source)

abbrev pub is_null_pointer_like : SemanticType → Expr → Bool
unfolding is_null_pointer_constant_expr
is_null_pointer_like type expr = is_kind TypeKind.nullptr type || is_null_pointer_constant_expr expr

unfoldable pub assignable_expr_to : SemanticType → SemanticType → Expr → Bool
unfolding assignable_to is_null_pointer_constant_expr
assignable_expr_to target source expr =
    assignable_to target source
    || is_pointer target && is_null_pointer_like source expr
    || is_kind TypeKind.nullptr target && is_null_pointer_constant_expr expr

-- The rules of canExplicitCast, once both types are known to be scalar.
unfoldable pub scalar_cast : SemanticType → SemanticType → Expr → Bool
unfolding type_eq is_null_pointer_constant_expr
scalar_cast to from source_expr =
    if type_eq to from
    then true
    else if is_kind TypeKind.nullptr to
    then is_null_pointer_constant_expr source_expr
    else is_kind TypeKind.boolean to
      || is_cast_arithmetic to && is_cast_arithmetic from
      || is_pointer to && (is_pointer from || is_kind TypeKind.nullptr from)
      || is_pointer to && is_cast_integer from
      || is_cast_integer to && is_pointer from

unfoldable pub can_explicit_cast : SemanticType → SemanticType → Expr → Bool
unfolding scalar_cast
can_explicit_cast target source source_expr =
    let to = strip_top_qualifiers target in
    let from = decay_array source in
    is_cast_scalar to && is_cast_scalar from && scalar_cast to from source_expr

-- The pointee of the result, its qualifiers still to be set.
unfoldable pub common_base : SemanticType → SemanticType → Option SemanticType
unfolding type_eq
common_base left right =
    if is_kind TypeKind.void left && is_object_pointee right
    then some left
    else if is_kind TypeKind.void right && is_object_pointee left
    then some right
    else if type_eq left right
    then some left
    else none

abbrev pub pointer_to_base : TypeQualifiers → Option SemanticType → Option SemanticType
pointer_to_base q none = none
pointer_to_base q (some base) = some (pointer_to (with_qualifiers q base))

abbrev pub common_pointer : OptType → OptType → Option SemanticType
unfolding common_base
common_pointer (the_type p) (the_type q) =
    pointer_to_base (combined_qualifiers (qualifiers_of p) (qualifiers_of q))
      (common_base (strip_top_qualifiers p) (strip_top_qualifiers q))
common_pointer p q = none

unfoldable pub conditional_pointer_type : SemanticType → SemanticType → Option SemanticType
unfolding pointers_comparable
conditional_pointer_type lhs rhs =
    let l = decay_array lhs in
    let r = decay_array rhs in
    if is_pointer l && is_pointer r && pointers_comparable l r
    then common_pointer (element_type l) (element_type r)
    else none
