-- ===== src/Types/Spelling.antt =====
-- src/sema/sema.cpp: integerName and typeToString, the spelling of a type in a diagnostic.
use plainspeak.Prelude.{
  ℕ, zero, suc, ◌+◌, ◌/◌, ◌%◌, Bool, ltb, Text, text_eq, codes, [], ◌∷◌, ◌++◌, Option, none, some,
  if◌then◌else◌,
}
use plainspeak.Types.Model.{
  TypeKind, IntegerRank, CharSignedness, FloatingRank, TypeQualifiers, TypeInfo, SemanticType,
  OptType, a_type, null_type, the_type,
}

-- std::to_string, on fuel that the number itself is enough of
unfoldable pub decimal_digits : ℕ → ℕ → Text → Text
decimal_digits zero n digits = digits
decimal_digits (suc fuel) n digits =
    let rest = decimal_digits fuel (n / 10) ((48 + n % 10) ∷ digits) in
    if ltb n 10 then (48 + n) ∷ digits else rest

abbrev pub to_string : ℕ → Text
unfolding decimal_digits
to_string n = decimal_digits (suc n) n []

abbrev pub when : Bool → Text → Text
when test text = if test then text else []

abbrev pub rank_name : IntegerRank → Text
rank_name IntegerRank.char = []
rank_name IntegerRank.short = codes "short integer"
rank_name IntegerRank.int = codes "integer"
rank_name IntegerRank.long = codes "number"
rank_name IntegerRank.long_long = codes "long long integer"

abbrev pub character_name : CharSignedness → Text
character_name CharSignedness.plain = codes "character"
character_name CharSignedness.unsigned = codes "unsigned character"
character_name CharSignedness.signed = codes "signed character"

abbrev pub integer_name : TypeInfo → Text
integer_name i = elim (i.integer_rank) [
  | IntegerRank.char ↦ character_name i.char_signedness
  | rank ↦ when i.is_unsigned (codes "unsigned ") ++ rank_name rank
]

abbrev pub family_name : Text → Text
family_name family =
    if text_eq family []
    then codes "exactly"
    else if text_eq family (codes "fast")
    then codes "fast with at least"
    else codes "least with at least"

abbrev pub sized_name : TypeInfo → Option ℕ → Text
sized_name i none = integer_name i
sized_name i (some width) =
    when i.is_unsigned (codes "unsigned ")
    ++ codes "integer with "
    ++ family_name i.stdint_family
    ++ codes " "
    ++ to_string width
    ++ codes " bits"

abbrev pub floating_name : FloatingRank → Text
floating_name FloatingRank.float = codes "float"
floating_name FloatingRank.long_double = codes "long decimal"
floating_name FloatingRank.double = codes "decimal"

abbrev pub length_name : TypeInfo → Option ℕ → Text
length_name i (some bound) = codes " with length " ++ to_string bound
length_name i none =
    if i.variable_length_array then codes " with variable length" else codes " with unknown length"

-- Empty where no qualifier is set.
abbrev pub qualifier_prefix : TypeQualifiers → Text
qualifier_prefix q =
    when q.is_const (codes "constant ")
    ++ when q.is_volatile (codes "volatile ")
    ++ when q.is_restrict (codes "restricted ")
    ++ when q.is_atomic (codes "atomic ")

abbrev pub spelled : TypeInfo → Text → Text → Text
spelled i element list_element = elim (i.kind) [
  | TypeKind.void ↦ codes "void"
  | TypeKind.boolean ↦ codes "boolean"
  | TypeKind.integer ↦ sized_name i i.exact_width
  | TypeKind.floating ↦ floating_name i.floating_rank
  | TypeKind.complex ↦ codes "complex decimal"
  | TypeKind.string ↦ codes "string"
  | TypeKind.list ↦ codes "list of " ++ list_element ++ codes "s"
  | TypeKind.pointer ↦ codes "pointer to " ++ element
  | TypeKind.array ↦ codes "array of " ++ element ++ length_name i i.array_bound
  | TypeKind.function ↦ codes "function"
  | TypeKind.structure ↦ codes "structure " ++ i.tag
  | TypeKind.union ↦ codes "union " ++ i.tag
  | TypeKind.enumeration ↦ codes "enumeration " ++ i.tag
  | TypeKind.bit_int ↦
      when i.is_unsigned (codes "unsigned ")
      ++ codes "bit integer of width "
      ++ to_string i.bit_width
  | TypeKind.nullptr ↦ codes "null pointer"
]

unfoldable mutual
  pub type_to_string : SemanticType → Text
  type_to_string (a_type i e r ps) =
      qualifier_prefix i.qualifiers
      ++ spelled i (element_to_string (codes "unknown") e) (element_to_string (codes "number") e)

  -- The spelling of an element type, or another text where there is none.
  pub element_to_string : Text → OptType → Text
  element_to_string otherwise null_type = otherwise
  element_to_string otherwise (the_type e) = type_to_string e
