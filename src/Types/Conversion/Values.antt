-- ===== src/Types/Conversion/Values.antt =====
-- src/sema/sema.cpp: which values the integer types hold, and that promotion keeps them.
use plainspeak.Types.Conversion.Order.{
  IsStandard, promoted_rank, join_rank, join_sign, convert_promoted-integer_type,
  IsStandard-integer_promotion,
}
use plainspeak.Prelude.{
  ℕ, suc, ◌^◌, ◌-◌, ◌≤◌, ◌≡◌, ◌⊎◌, refl, Bool, false, some, if◌then◌else◌, arith,
}
use plainspeak.Prelude.Int.{ℤ, pos, negsuc, ◌≤ℤ◌}
use plainspeak.Types.Model.{
  TypeKind, IntegerRank, char, short, int, long, long_long, SemanticType, a_type, info, kind_of,
  integer_type,
}
use plainspeak.Types.Equality.{kind_number, rank_number, signedness_number}
use plainspeak.Types.Conversion.{
  integer_rank_order, signed_max_for_rank, unsigned_max_for_rank, integer_promotion,
  small_promotion, usual_integer_conversion, bit_field_width_limit,
}

-- The values of an integer type without an exact width.
abbrev pub HoldsValue : SemanticType → ℤ → Type 0
unfolding unsigned_max_for_rank signed_max_for_rank
HoldsValue t (pos n) = n ≤ (
    if (info t).is_unsigned
    then unsigned_max_for_rank (info t).integer_rank
    else signed_max_for_rank (info t).integer_rank)
HoldsValue t (negsuc n) =
    ((info t).is_unsigned ≡ false) × (n ≤ signed_max_for_rank (info t).integer_rank)

-- Promotion of an integer type gives a type, of rank int at least, that holds every value that the
-- rank and the sign of the first one allow.
pub integer_promotion-HoldsValue :
    (t : SemanticType) (v : ℤ)
    → kind_of t ≡ TypeKind.integer
    → HoldsValue t v
    → HoldsValue (integer_promotion t) v
      × (2 ≤ integer_rank_order (info (integer_promotion t)).integer_rank)
unfolding integer_promotion small_promotion unsigned_max_for_rank signed_max_for_rank kind_number
    rank_number signedness_number
integer_promotion-HoldsValue (a_type i e r ps) v k h = ground arith

abbrev pub IsNonNegative : ℤ → Type 0
IsNonNegative v = pos 0 ≤ℤ v

join-HoldsValue :
    (r s : IntegerRank) (u v : Bool) (n : ℤ)
    → HoldsValue (integer_type r u) n
    → IsNonNegative n ⊎ (join_sign r u s v ≡ false)
    → HoldsValue (integer_type (join_rank r s) (join_sign r u s v)) n
unfolding unsigned_max_for_rank signed_max_for_rank rank_number
join-HoldsValue r s u v n h c = ground arith

-- A value of the promoted left operand, of standard integer types, is a value of the type that
-- usualIntegerConversion gives, if it is not negative or that type is signed.
pub usual_integer_conversion-HoldsValue :
    (s t : SemanticType) (v : ℤ)
    → IsStandard s
    → IsStandard t
    → HoldsValue (integer_promotion s) v
    → IsNonNegative v ⊎ ((info (usual_integer_conversion s t)).is_unsigned ≡ false)
    → HoldsValue (usual_integer_conversion s t) v
unfolding usual_integer_conversion
usual_integer_conversion-HoldsValue s t v hs ht =
    let (r, u, es) = IsStandard-integer_promotion s hs in
    let (r', w, et) = IsStandard-integer_promotion t ht in
    rw (es, et, convert_promoted-integer_type r r' u w)
      (join-HoldsValue (promoted_rank r) (promoted_rank r') u w v)

-- The width limit of a bit-field of an integer type is the number of bits that its limits need.
pub bit_field_width_limit-integer_type :
    (rank : IntegerRank) (u : Bool)
    → (w : ℕ) × (bit_field_width_limit (integer_type rank u) ≡ some (suc w))
      × (unsigned_max_for_rank rank ≡ 2 ^ suc w - 1)
      × (signed_max_for_rank rank ≡ 2 ^ w - 1)
unfolding bit_field_width_limit unsigned_max_for_rank signed_max_for_rank kind_number
bit_field_width_limit-integer_type char u = (7, refl, refl, refl)
bit_field_width_limit-integer_type short u = (15, refl, refl, refl)
bit_field_width_limit-integer_type int u = (31, refl, refl, refl)
bit_field_width_limit-integer_type long u = (63, refl, refl, refl)
bit_field_width_limit-integer_type long_long u = (63, refl, refl, refl)
