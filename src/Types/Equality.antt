-- ===== src/Types/Equality.antt =====
-- src/sema/type.h: operator== of TypeQualifiers and of Type.
pub mod Correct
use plainspeak.Prelude.{ℕ, Bool, true, false, ◌&&◌, ◌==◌, text_eq, Option, none, some, not}
use plainspeak.Types.Model.{
  TypeKind, IntegerRank, CharSignedness, FloatingRank, TypeQualifiers, TypeInfo, SemanticType,
  OptType, Types, a_type, null_type, the_type, no_types, and_type,
}

abbrev pub bool_eq : Bool → Bool → Bool
bool_eq true b = b
bool_eq false b = not b

abbrev pub size_eq : Option ℕ → Option ℕ → Bool
size_eq none none = true
size_eq none (some n) = false
size_eq (some m) none = false
size_eq (some m) (some n) = m == n

-- An enumerator's value, which == on an enum class compares.
unfoldable pub kind_number : TypeKind → ℕ
kind_number TypeKind.void = 0
kind_number TypeKind.boolean = 1
kind_number TypeKind.integer = 2
kind_number TypeKind.floating = 3
kind_number TypeKind.string = 4
kind_number TypeKind.list = 5
kind_number TypeKind.pointer = 6
kind_number TypeKind.array = 7
kind_number TypeKind.function = 8
kind_number TypeKind.structure = 9
kind_number TypeKind.union = 10
kind_number TypeKind.enumeration = 11
kind_number TypeKind.bit_int = 12
kind_number TypeKind.nullptr = 13
kind_number TypeKind.complex = 14

unfoldable pub rank_number : IntegerRank → ℕ
rank_number IntegerRank.char = 0
rank_number IntegerRank.short = 1
rank_number IntegerRank.int = 2
rank_number IntegerRank.long = 3
rank_number IntegerRank.long_long = 4

unfoldable pub signedness_number : CharSignedness → ℕ
signedness_number CharSignedness.plain = 0
signedness_number CharSignedness.signed = 1
signedness_number CharSignedness.unsigned = 2

unfoldable pub floating_number : FloatingRank → ℕ
floating_number FloatingRank.float = 0
floating_number FloatingRank.double = 1
floating_number FloatingRank.long_double = 2

abbrev pub kind_eq : TypeKind → TypeKind → Bool
unfolding kind_number
kind_eq a b = kind_number a == kind_number b

abbrev pub rank_eq : IntegerRank → IntegerRank → Bool
unfolding rank_number
rank_eq a b = rank_number a == rank_number b

abbrev pub signedness_eq : CharSignedness → CharSignedness → Bool
unfolding signedness_number
signedness_eq a b = signedness_number a == signedness_number b

abbrev pub floating_eq : FloatingRank → FloatingRank → Bool
unfolding floating_number
floating_eq a b = floating_number a == floating_number b

unfoldable pub qualifiers_eq : TypeQualifiers → TypeQualifiers → Bool
qualifiers_eq p q =
    bool_eq p.is_const q.is_const
    && bool_eq p.is_volatile q.is_volatile
    && bool_eq p.is_restrict q.is_restrict
    && bool_eq p.is_atomic q.is_atomic

-- The fields that operator== compares before it looks at the types inside.
unfoldable pub info_eq : TypeInfo → TypeInfo → Bool
unfolding qualifiers_eq
info_eq i j =
    kind_eq i.kind j.kind
    && qualifiers_eq i.qualifiers j.qualifiers
    && rank_eq i.integer_rank j.integer_rank
    && signedness_eq i.char_signedness j.char_signedness
    && floating_eq i.floating_rank j.floating_rank
    && bool_eq i.is_unsigned j.is_unsigned
    && (i.bit_width == j.bit_width)
    && size_eq i.exact_width j.exact_width
    && text_eq i.stdint_family j.stdint_family
    && size_eq i.array_bound j.array_bound
    && bool_eq i.variable_length_array j.variable_length_array
    && bool_eq i.variadic j.variadic
    && text_eq i.tag j.tag

unfoldable mutual
  pub type_eq : SemanticType → SemanticType → Bool
  type_eq (a_type i e r ps) (a_type j f s qs) =
      info_eq i j && types_eq ps qs && opt_type_eq e f && opt_type_eq r s

  -- both null, or both set and equal
  pub opt_type_eq : OptType → OptType → Bool
  opt_type_eq null_type null_type = true
  opt_type_eq null_type (the_type t) = false
  opt_type_eq (the_type s) null_type = false
  opt_type_eq (the_type s) (the_type t) = type_eq s t

  -- operator== of std::vector<Type>
  pub types_eq : Types → Types → Bool
  types_eq no_types no_types = true
  types_eq no_types (and_type t ts) = false
  types_eq (and_type s ss) no_types = false
  types_eq (and_type s ss) (and_type t ts) = type_eq s t && types_eq ss ts
