-- ===== src/Types/Predicates.antt =====
-- src/sema/type.h and src/sema/sema.cpp: the tests on types, and the copies of a type with other
-- qualifiers.
use plainspeak.Prelude.{Bool, true, false, not, ◌&&◌, ◌||◌, is_some, if◌then◌else◌}
use plainspeak.Ast.{TypeSpecQualifiers, ListElementKind}
use plainspeak.Types.Model.{
  TypeKind, IntegerRank, TypeQualifiers, SemanticType, OptType, null_type, the_type, a_type,
  kind_of, info, element_type, qualifiers_of, with_qualifiers, no_qualifiers, pointer_to,
  number_type, list_of, decimal_type, string_type,
}
use plainspeak.Types.Equality.{kind_eq, rank_eq}

abbrev pub is_kind : TypeKind → SemanticType → Bool
is_kind k t = kind_eq (kind_of t) k

-- whether a shared_ptr<Type> is set
abbrev pub is_set : OptType → Bool
is_set null_type = false
is_set (the_type t) = true

-- a test on the type that a shared_ptr<Type> may hold
abbrev pub holds : (SemanticType → Bool) → OptType → Bool
holds p null_type = false
holds p (the_type t) = p t

-- Type's members
abbrev pub is_integer : SemanticType → Bool
is_integer t = is_kind TypeKind.integer t || is_kind TypeKind.bit_int t

abbrev pub is_floating : SemanticType → Bool
is_floating t = is_kind TypeKind.floating t

abbrev pub is_pointer : SemanticType → Bool
is_pointer t = is_kind TypeKind.pointer t

abbrev pub is_array : SemanticType → Bool
is_array t = is_kind TypeKind.array t

abbrev pub is_function : SemanticType → Bool
is_function t = is_kind TypeKind.function t

abbrev pub is_aggregate : SemanticType → Bool
is_aggregate t = is_kind TypeKind.structure t || is_kind TypeKind.union t

-- isNumeric of sema.cpp, which adds the enumerations to Type's
abbrev pub is_numeric : SemanticType → Bool
is_numeric t =
    is_kind TypeKind.enumeration t || is_integer t || is_floating t || is_kind TypeKind.complex t

abbrev pub is_arithmetic_scalar : SemanticType → Bool
is_arithmetic_scalar t = is_kind TypeKind.boolean t || is_numeric t

abbrev pub is_integral_type : SemanticType → Bool
is_integral_type t = is_kind TypeKind.boolean t || is_kind TypeKind.enumeration t || is_integer t

abbrev pub accepts_c_string : SemanticType → Bool
accepts_c_string t =
    is_pointer t
    && holds (λ e. is_kind TypeKind.integer e && rank_eq (info e).integer_rank IntegerRank.char)
        (element_type t)

abbrev pub has_any_qualifiers : TypeQualifiers → Bool
has_any_qualifiers q = q.is_const || q.is_volatile || q.is_restrict || q.is_atomic

abbrev pub semantic_qualifiers : TypeSpecQualifiers → TypeQualifiers
semantic_qualifiers q = record {
  is_const = q.is_const;
  is_volatile = q.is_volatile;
  is_restrict = q.is_restrict;
  is_atomic = q.is_atomic;
}

abbrev pub strip_top_qualifiers : SemanticType → SemanticType
strip_top_qualifiers t = with_qualifiers no_qualifiers t

abbrev pub decayed : OptType → SemanticType → SemanticType
decayed null_type t = strip_top_qualifiers t
decayed (the_type e) t = if is_array t then pointer_to e else strip_top_qualifiers t

abbrev pub decay_array : SemanticType → SemanticType
decay_array t = decayed (element_type t) t

abbrev pub qualifier_superset : TypeQualifiers → TypeQualifiers → Bool
qualifier_superset target source =
    (not source.is_const || target.is_const)
    && (not source.is_volatile || target.is_volatile)
    && (not source.is_restrict || target.is_restrict)
    && (not source.is_atomic || target.is_atomic)

abbrev pub combined_qualifiers : TypeQualifiers → TypeQualifiers → TypeQualifiers
combined_qualifiers a b = record {
  is_const = a.is_const || b.is_const;
  is_volatile = a.is_volatile || b.is_volatile;
  is_restrict = a.is_restrict || b.is_restrict;
  is_atomic = a.is_atomic || b.is_atomic;
}

abbrev pub is_object_pointee : SemanticType → Bool
is_object_pointee t = not (is_kind TypeKind.void t) && not (is_kind TypeKind.function t)

abbrev pub has_complete_pointee : SemanticType → Bool
has_complete_pointee t = is_pointer t && holds is_object_pointee (element_type t)

abbrev pub list_element_type : SemanticType → SemanticType
list_element_type (a_type i (the_type e) r ps) =
    if kind_eq i.kind TypeKind.list then e else number_type
list_element_type (a_type i null_type r ps) = number_type

abbrev pub list_type_for : ListElementKind → SemanticType
list_type_for ListElementKind.number = list_of number_type
list_type_for ListElementKind.decimal = list_of decimal_type
list_type_for ListElementKind.string = list_of string_type

-- isBitwiseIntegral, isCastInteger, isCastArithmetic, isCastScalar: kinds only, so the top
-- qualifiers that they strip play no part.
abbrev pub is_bitwise_integral : SemanticType → Bool
is_bitwise_integral t =
    is_kind TypeKind.boolean t || is_kind TypeKind.enumeration t || is_kind TypeKind.integer t

abbrev pub is_cast_integer : SemanticType → Bool
is_cast_integer t =
    is_kind TypeKind.boolean t
    || is_kind TypeKind.enumeration t
    || is_kind TypeKind.integer t
    || is_kind TypeKind.bit_int t

abbrev pub is_cast_arithmetic : SemanticType → Bool
is_cast_arithmetic t = is_cast_integer t || is_kind TypeKind.floating t

abbrev pub is_cast_scalar : SemanticType → Bool
is_cast_scalar t =
    let value = decay_array t in
    is_cast_arithmetic value || is_kind TypeKind.pointer value || is_kind TypeKind.nullptr value

abbrev pub is_conditional_scalar : SemanticType → Bool
is_conditional_scalar t =
    let value = decay_array t in
    is_arithmetic_scalar value || is_pointer value || is_kind TypeKind.nullptr value

-- memberTypeWithAggregateQualifiers
abbrev pub add_const_volatile : TypeQualifiers → SemanticType → SemanticType
add_const_volatile q t =
    let own = qualifiers_of t in
    with_qualifiers
      (record own {
        is_const = q.is_const || own.is_const;
        is_volatile = q.is_volatile || own.is_volatile;
      })
      t

abbrev pub member_type_with_aggregate_qualifiers : SemanticType → TypeQualifiers → SemanticType
member_type_with_aggregate_qualifiers (a_type i (the_type e) r ps) q =
    if kind_eq i.kind TypeKind.array
    then a_type i (the_type (add_const_volatile q e)) r ps
    else add_const_volatile q (a_type i (the_type e) r ps)
member_type_with_aggregate_qualifiers (a_type i null_type r ps) q =
    add_const_volatile q (a_type i null_type r ps)

mutual
  pub supports_c_object_query : SemanticType → Bool
  supports_c_object_query (a_type i e r ps) =
      let inner = element_supports_query e in
      if kind_eq i.kind TypeKind.array
      then is_some i.array_bound && inner
      else kind_eq i.kind TypeKind.boolean
        || kind_eq i.kind TypeKind.integer
        || kind_eq i.kind TypeKind.floating
        || kind_eq i.kind TypeKind.pointer
        || kind_eq i.kind TypeKind.enumeration
        || kind_eq i.kind TypeKind.bit_int
        || kind_eq i.kind TypeKind.structure
        || kind_eq i.kind TypeKind.union
        || kind_eq i.kind TypeKind.nullptr
        || kind_eq i.kind TypeKind.complex

  pub element_supports_query : OptType → Bool
  element_supports_query null_type = false
  element_supports_query (the_type e) = supports_c_object_query e && is_object_pointee e
