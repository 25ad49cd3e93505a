-- ===== src/Types/Conversion/Order.antt =====
-- src/sema/sema.cpp: usualIntegerConversion against the order in which C converts the integer types.
use plainspeak.Prelude.{
  ℕ, ◌≤◌, ◌≡◌, ◌⊎◌, refl, Bool, true, false, Text, some, arith, if◌then◌else◌, leb, ltb, ◌||◌, ◌&&◌,
}
use plainspeak.Types.Model.{
  TypeKind, IntegerRank, char, short, int, long, long_long, TypeQualifiers, SemanticType, TypeInfo,
  info, integer_type, character_type, boolean_type, enumeration_type, with_qualifiers, with_info,
  floating_type, complex_type, FloatingRank, float,
}
use plainspeak.Types.Equality.{
  kind_number, rank_number, signedness_number, floating_number, rank_eq, info_eq, qualifiers_eq,
  type_eq,
}
use plainspeak.Types.Predicates.{is_kind, is_floating, decay_array}
use plainspeak.Types.Conversion.{
  integer_rank_order, signed_max_for_rank, unsigned_max_for_rank, integer_promotion,
  small_promotion, mixed_conversion, convert_promoted, usual_integer_conversion, raise,
  usual_arithmetic_conversion,
}

-- The integer types that the prose names without a width, with any qualifiers.
pub data IsStandard : SemanticType → Type 0 where
  of_boolean : {q : TypeQualifiers} → IsStandard (with_qualifiers q boolean_type)
  of_character : {q : TypeQualifiers} → IsStandard (with_qualifiers q character_type)
  of_integer :
      {q : TypeQualifiers} {rank : IntegerRank} {u : Bool}
      → IsStandard (with_qualifiers q (integer_type rank u))
  of_enumeration :
      {q : TypeQualifiers} {name : Text} → IsStandard (with_qualifiers q (enumeration_type name))

-- C's order: a type comes before those of its own or a higher rank that are unsigned like it, or
-- whose values take in all of its own; a signed type also comes before the unsigned ones.
abbrev pub Precedes : TypeInfo → TypeInfo → Type 0
unfolding unsigned_max_for_rank signed_max_for_rank
Precedes a b =
    (integer_rank_order a.integer_rank ≤ integer_rank_order b.integer_rank)
    × ((a.is_unsigned ≡ false)
        ⊎ (b.is_unsigned ≡ true)
        ⊎ (unsigned_max_for_rank a.integer_rank ≤ signed_max_for_rank b.integer_rank))

abbrev pub promoted_rank : IntegerRank → IntegerRank
promoted_rank char = int
promoted_rank short = int
promoted_rank rank = rank

abbrev pub promoted_sign : IntegerRank → Bool → Bool
promoted_sign char u = false
promoted_sign short u = false
promoted_sign rank u = u

pub integer_promotion-integer_type :
    (q : TypeQualifiers) (rank : IntegerRank) (u : Bool)
    → integer_promotion (with_qualifiers q (integer_type rank u))
      ≡ integer_type (promoted_rank rank) (promoted_sign rank u)
unfolding integer_promotion small_promotion unsigned_max_for_rank signed_max_for_rank kind_number
    rank_number signedness_number
integer_promotion-integer_type q char true = refl
integer_promotion-integer_type q char false = refl
integer_promotion-integer_type q short true = refl
integer_promotion-integer_type q short false = refl
integer_promotion-integer_type q int u = refl
integer_promotion-integer_type q long u = refl
integer_promotion-integer_type q long_long u = refl

-- r is the least type that both a and b precede, among the standard integer types of rank at least
-- int.
pub record IsLeastAbove (a b r : SemanticType) : Type 0 where
  pub left_below : Precedes (info a) (info r)
  pub right_below : Precedes (info b) (info r)
  pub least :
      (rank : IntegerRank) (u : Bool)
      → Precedes (info a) (info (integer_type rank u))
      → Precedes (info b) (info (integer_type rank u))
      → Precedes (info r) (info (integer_type rank u))

abbrev pub join_rank : IntegerRank → IntegerRank → IntegerRank
join_rank r s = if leb (integer_rank_order s) (integer_rank_order r) then r else s

-- The sign of the result where the first rank is not below the second.
abbrev pub sign_over : IntegerRank → Bool → IntegerRank → Bool → Bool
unfolding unsigned_max_for_rank signed_max_for_rank
sign_over r u s v = u || v && (rank_eq r s || ltb (signed_max_for_rank r) (unsigned_max_for_rank s))

abbrev pub join_sign : IntegerRank → Bool → IntegerRank → Bool → Bool
unfolding unsigned_max_for_rank signed_max_for_rank
join_sign r u s v =
    if leb (integer_rank_order s) (integer_rank_order r)
    then sign_over r u s v
    else sign_over s v r u

pub convert_promoted-integer_type :
    (r s : IntegerRank) (u v : Bool)
    → convert_promoted (integer_type (promoted_rank r) u) (integer_type (promoted_rank s) v)
      ≡ integer_type
          (join_rank (promoted_rank r) (promoted_rank s))
          (join_sign (promoted_rank r) u (promoted_rank s) v)
unfolding convert_promoted mixed_conversion type_eq info_eq qualifiers_eq unsigned_max_for_rank
    signed_max_for_rank kind_number rank_number signedness_number floating_number
convert_promoted-integer_type r s u v = ground arith

join-IsLeastAbove :
    (r s : IntegerRank) (u v : Bool)
    → IsLeastAbove
        (integer_type r u)
        (integer_type s v)
        (integer_type (join_rank r s) (join_sign r u s v))
unfolding unsigned_max_for_rank signed_max_for_rank rank_number
join-IsLeastAbove r s u v = record {
  left_below = ground arith;
  right_below = ground arith;
  least = λ rank w h k. ground arith;
}

pub IsStandard-integer_promotion :
    (t : SemanticType)
    → IsStandard t
    → (r : IntegerRank) × (u : Bool) × (integer_promotion t ≡ integer_type (promoted_rank r) u)
unfolding integer_promotion small_promotion kind_number rank_number signedness_number
IsStandard-integer_promotion t of_boolean = (int, false, refl)
IsStandard-integer_promotion t of_character = (int, false, refl)
IsStandard-integer_promotion t (of_integer {q} {rank} {u}) =
    (rank, promoted_sign rank u, integer_promotion-integer_type q rank u)
IsStandard-integer_promotion t of_enumeration = (int, false, refl)

-- For two standard integer types, usualIntegerConversion gives the least type, in C's order, that both
-- promoted operands precede.
pub usual_integer_conversion-least :
    (s t : SemanticType)
    → IsStandard s
    → IsStandard t
    → IsLeastAbove (integer_promotion s) (integer_promotion t) (usual_integer_conversion s t)
unfolding usual_integer_conversion
usual_integer_conversion-least s t hs ht =
    let (r, u, es) = IsStandard-integer_promotion s hs in
    let (r', v, et) = IsStandard-integer_promotion t ht in
    rw (es, et, convert_promoted-integer_type r r' u v)
      (join-IsLeastAbove (promoted_rank r) (promoted_rank r') u v)

join_comm :
    (r s : IntegerRank) (u v : Bool)
    → integer_type (join_rank r s) (join_sign r u s v)
      ≡ integer_type (join_rank s r) (join_sign s v r u)
unfolding unsigned_max_for_rank signed_max_for_rank rank_number
join_comm r s u v = ground arith

-- For two standard integer types the order of the operands does not matter to usualIntegerConversion.
pub usual_integer_conversion_comm :
    (s t : SemanticType)
    → IsStandard s
    → IsStandard t
    → usual_integer_conversion s t ≡ usual_integer_conversion t s
unfolding usual_integer_conversion
usual_integer_conversion_comm s t hs ht =
    let (r, u, es) = IsStandard-integer_promotion s hs in
    let (r', v, et) = IsStandard-integer_promotion t ht in
    rw (es, et, convert_promoted-integer_type r r' u v, convert_promoted-integer_type r' r v u)
      (join_comm (promoted_rank r) (promoted_rank r') u v)

-- What resolveTypeSpec makes of "integer with exactly w bits".
abbrev pub exact_type : ℕ → Bool → SemanticType
exact_type w u =
    let t = integer_type int u in with_info (record (info t) { exact_width = some w }) t

-- The conversion of an int with an integer type of an exact width and the same sign gives the type
-- of the left operand, whatever the width.
pub usual_integer_conversion-exact_width :
    (w : ℕ) (u : Bool)
    → (usual_integer_conversion (integer_type int u) (exact_type w u) ≡ integer_type int u)
      × (usual_integer_conversion (exact_type w u) (integer_type int u) ≡ exact_type w u)
unfolding usual_integer_conversion convert_promoted integer_promotion type_eq info_eq qualifiers_eq
    kind_number rank_number signedness_number floating_number
usual_integer_conversion-exact_width w true = (refl, refl)
usual_integer_conversion-exact_width w false = (refl, refl)

-- The arithmetic types without an exact width: the standard integer types, the floating types and
-- the complex one, with any qualifiers.
pub data IsArithmetic : SemanticType → Type 0 where
  integral : {t : SemanticType} → IsStandard t → IsArithmetic t
  of_floating :
      {q : TypeQualifiers} {rank : FloatingRank}
      → IsArithmetic (with_qualifiers q (floating_type rank))
  of_complex : {q : TypeQualifiers} → IsArithmetic (with_qualifiers q complex_type)

IsStandard-decay_array :
    (t : SemanticType)
    → IsStandard t
    → IsStandard (decay_array t)
      × (is_kind TypeKind.complex (decay_array t) ≡ false)
      × (is_floating (decay_array t) ≡ false)
unfolding kind_number
IsStandard-decay_array t of_boolean = (of_boolean, refl, refl)
IsStandard-decay_array t of_character = (of_character, refl, refl)
IsStandard-decay_array t of_integer = (of_integer, refl, refl)
IsStandard-decay_array t of_enumeration = (of_enumeration, refl, refl)

raise-standard :
    (rank : FloatingRank) (t : SemanticType) → IsStandard t → raise rank (decay_array t) ≡ rank
unfolding raise kind_number
raise-standard rank t of_boolean = refl
raise-standard rank t of_character = refl
raise-standard rank t of_integer = refl
raise-standard rank t of_enumeration = refl

-- For two arithmetic types without exact widths the order of the operands does not matter to
-- usualArithmeticConversion.
pub usual_arithmetic_conversion_comm :
    (s t : SemanticType)
    → IsArithmetic s
    → IsArithmetic t
    → usual_arithmetic_conversion s t ≡ usual_arithmetic_conversion t s
unfolding usual_arithmetic_conversion raise kind_number floating_number
usual_arithmetic_conversion_comm s t (integral hs) (integral ht) =
    let (ds, cs, fs) = IsStandard-decay_array s hs in
    let (dt, ct, ft) = IsStandard-decay_array t ht in
    simp (cs, ct, fs, ft) (usual_integer_conversion_comm (decay_array s) (decay_array t) ds dt)
usual_arithmetic_conversion_comm s t (integral hs) (of_floating {q} {rank}) =
    let (ds, cs, fs) = IsStandard-decay_array s hs in
    ground (arith, raise-standard float s hs, raise-standard rank s hs)
usual_arithmetic_conversion_comm s t (integral hs) of_complex =
    let (ds, cs, fs) = IsStandard-decay_array s hs in ground arith
usual_arithmetic_conversion_comm s t (of_floating {q} {rank}) (integral ht) =
    let (ds, cs, fs) = IsStandard-decay_array t ht in
    ground (arith, raise-standard float t ht, raise-standard rank t ht)
usual_arithmetic_conversion_comm s t (of_floating {rank = r}) (of_floating {rank = r'}) =
    ground arith
usual_arithmetic_conversion_comm s t of_floating of_complex = refl
usual_arithmetic_conversion_comm s t of_complex (integral ht) =
    let (ds, cs, fs) = IsStandard-decay_array t ht in ground arith
usual_arithmetic_conversion_comm s t of_complex of_floating = refl
usual_arithmetic_conversion_comm s t of_complex of_complex = refl
