-- ===== src/Types/Conversion.antt =====
-- src/sema/sema.cpp: integer promotion and the usual conversions. The limits of the integer ranks
-- are those of a machine with 64-bit longs.
pub mod Order
pub mod Values
use plainspeak.Prelude.{
  ℕ, Bool, true, false, not, ◌&&◌, ◌||◌, ◌==◌, Option, none, some, leb, if◌then◌else◌,
}
use plainspeak.Types.Model.{
  TypeKind, IntegerRank, CharSignedness, FloatingRank, SemanticType, info, kind_of, integer_type,
  floating_type, number_type, complex_type,
}
use plainspeak.Types.Equality.{rank_number, rank_eq, signedness_eq, floating_eq, bool_eq, type_eq}
use plainspeak.Types.Predicates.{is_kind, is_floating, strip_top_qualifiers, decay_array}

abbrev pub signed_integer : IntegerRank → SemanticType
signed_integer rank = integer_type rank false

abbrev pub unsigned_integer : IntegerRank → SemanticType
unsigned_integer rank = integer_type rank true

abbrev pub integer_rank_order : IntegerRank → ℕ
integer_rank_order IntegerRank.char = 0
integer_rank_order IntegerRank.short = 1
integer_rank_order IntegerRank.int = 2
integer_rank_order IntegerRank.long = 3
integer_rank_order IntegerRank.long_long = 4

unfoldable pub unsigned_max_for_rank : IntegerRank → ℕ
unsigned_max_for_rank IntegerRank.char = 255
unsigned_max_for_rank IntegerRank.short = 65535
unsigned_max_for_rank IntegerRank.int = 4294967295
unsigned_max_for_rank IntegerRank.long = 18446744073709551615
unsigned_max_for_rank IntegerRank.long_long = 18446744073709551615

unfoldable pub signed_max_for_rank : IntegerRank → ℕ
signed_max_for_rank IntegerRank.char = 127
signed_max_for_rank IntegerRank.short = 32767
signed_max_for_rank IntegerRank.int = 2147483647
signed_max_for_rank IntegerRank.long = 9223372036854775807
signed_max_for_rank IntegerRank.long_long = 9223372036854775807

-- The promotion of an integer type below int. Every char lies within int, plain or not.
unfoldable pub small_promotion : SemanticType → SemanticType
unfolding unsigned_max_for_rank signed_max_for_rank
small_promotion t =
    let unsigned_source =
      (info t).is_unsigned || signedness_eq (info t).char_signedness CharSignedness.unsigned in
    if rank_eq (info t).integer_rank IntegerRank.char
      && signedness_eq (info t).char_signedness CharSignedness.plain
    then signed_integer IntegerRank.int
    else if not unsigned_source
        || leb (unsigned_max_for_rank (info t).integer_rank) (signed_max_for_rank IntegerRank.int)
    then signed_integer IntegerRank.int
    else unsigned_integer IntegerRank.int

unfoldable pub integer_promotion : SemanticType → SemanticType
unfolding small_promotion
integer_promotion type =
    let t = strip_top_qualifiers type in
    if is_kind TypeKind.boolean t || is_kind TypeKind.enumeration t
    then signed_integer IntegerRank.int
    else if not (is_kind TypeKind.integer t)
    then t
    else if leb (integer_rank_order IntegerRank.int) (integer_rank_order (info t).integer_rank)
    then t
    else small_promotion t

-- One operand is unsigned and the other is signed.
unfoldable pub mixed_conversion : SemanticType → SemanticType → SemanticType
unfolding unsigned_max_for_rank signed_max_for_rank
mixed_conversion unsigned_type signed_type =
    if leb (integer_rank_order (info signed_type).integer_rank)
      (integer_rank_order (info unsigned_type).integer_rank)
    then unsigned_type
    else if leb (unsigned_max_for_rank (info unsigned_type).integer_rank)
        (signed_max_for_rank (info signed_type).integer_rank)
    then signed_type
    else unsigned_integer (info signed_type).integer_rank

-- The operands are promoted.
unfoldable pub convert_promoted : SemanticType → SemanticType → SemanticType
unfolding mixed_conversion type_eq
convert_promoted lhs rhs =
    if type_eq lhs rhs
    then lhs
    else if not (is_kind TypeKind.integer lhs) || not (is_kind TypeKind.integer rhs)
    then number_type
    else if bool_eq (info lhs).is_unsigned (info rhs).is_unsigned
    then (if leb (integer_rank_order (info rhs).integer_rank)
          (integer_rank_order (info lhs).integer_rank)
        then lhs
        else rhs)
    else if (info lhs).is_unsigned
    then mixed_conversion lhs rhs
    else mixed_conversion rhs lhs

unfoldable pub usual_integer_conversion : SemanticType → SemanticType → SemanticType
unfolding convert_promoted integer_promotion
usual_integer_conversion lhs rhs = convert_promoted (integer_promotion lhs) (integer_promotion rhs)

-- the lambda `raise` of usualArithmeticConversion
unfoldable pub raise : FloatingRank → SemanticType → FloatingRank
raise rank t =
    if not (is_floating t)
    then rank
    else if floating_eq (info t).floating_rank FloatingRank.long_double
    then FloatingRank.long_double
    else if floating_eq (info t).floating_rank FloatingRank.double
        && not (floating_eq rank FloatingRank.long_double)
    then FloatingRank.double
    else rank

unfoldable pub usual_arithmetic_conversion : SemanticType → SemanticType → SemanticType
unfolding raise usual_integer_conversion
usual_arithmetic_conversion lhs rhs =
    let l = decay_array lhs in
    let r = decay_array rhs in
    if is_kind TypeKind.complex l || is_kind TypeKind.complex r
    then complex_type
    else if is_floating l || is_floating r
    then floating_type (raise (raise FloatingRank.float l) r)
    else usual_integer_conversion l r

-- The bits of a type that a bit-field may have.
unfoldable pub bit_field_width_limit : SemanticType → Option ℕ
bit_field_width_limit t =
    if is_kind TypeKind.boolean t
    then some 1
    else if is_kind TypeKind.enumeration t
    then some 32
    else if not (is_kind TypeKind.integer t)
    then none
    else some (elim ((info t).integer_rank) [
      | IntegerRank.char ↦ 8
      | IntegerRank.short ↦ 16
      | IntegerRank.int ↦ 32
      | IntegerRank.long ↦ 64
      | IntegerRank.long_long ↦ 64
    ])
