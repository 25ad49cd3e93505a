-- ===== src/Tests/Types.antt =====
-- The semantic types of src/sema/type.h and src/sema/sema.cpp at concrete types.
use plainspeak.Prelude.{
  ℕ, suc, ◌-◌, ◌^◌, ◌≤◌, ◌≡◌, ◌↔◌, inr, refl, codes, text_eq, true, false, some, arith,
}
use plainspeak.Prelude.Int.{pos, negsuc}
use plainspeak.Ast.{Place, Expr, OptExpr}
use plainspeak.Constants.Value.{is_null_pointer_constant_expr, integer_constant_value}
use plainspeak.Types.Model.{
  SemanticType, complex_type, boolean_type, int, long, short, char, float, info, void_type,
  integer_type, decimal_type, floating_type, pointer_to, array_of, variable_array_of, no_qualifiers,
  with_qualifiers, qualifiers_of,
}
use plainspeak.Types.Equality.{
  type_eq, info_eq, qualifiers_eq, kind_number, rank_number, signedness_number, floating_number,
}
use plainspeak.Types.Equality.Correct.{erase_lengths, type_eq_iff}
use plainspeak.Types.Predicates.{qualifier_superset}
use plainspeak.Types.Conversion.{
  integer_promotion, usual_integer_conversion, usual_arithmetic_conversion, integer_rank_order,
  unsigned_max_for_rank, signed_max_for_rank, bit_field_width_limit, small_promotion,
  convert_promoted,
}
use plainspeak.Types.Conversion.Order.{
  IsLeastAbove, of_integer, integral, of_floating, exact_type, usual_integer_conversion-least,
  usual_arithmetic_conversion_comm, usual_integer_conversion-exact_width,
}
use plainspeak.Types.Conversion.Values.{
  HoldsValue, integer_promotion-HoldsValue, usual_integer_conversion-HoldsValue,
  bit_field_width_limit-integer_type,
}
use plainspeak.Types.Pointers.{
  assignable_to, value_assignable, assignable_expr_to, can_explicit_cast, conditional_pointer_type,
  pointers_assignable, pointers_comparable, pointer_bases_compatible, bases_compatible, common_base,
}
use plainspeak.Types.Pointers.Common.{conditional_pointer_type-assignable_to}
use plainspeak.Types.Pointers.Assign.{
  assignable_to-qualifier_superset, complex-assignable, floating_null-assignable,
}

abbrev here : Place
here = record { address = 0; line = 1 }

abbrev an_int : SemanticType
an_int = integer_type int false

abbrev const_int : SemanticType
const_int = with_qualifiers (record no_qualifiers { is_const = true }) an_int

abbrev vla : SemanticType
vla = variable_array_of an_int (OptExpr.the_expr (Expr.int_lit here (pos 3)))

type_eq_iff_example :
    (type_eq vla (variable_array_of an_int OptExpr.null_expr) ≡ true)
    ↔ (erase_lengths vla ≡ erase_lengths (variable_array_of an_int OptExpr.null_expr))
type_eq_iff_example = type_eq_iff vla (variable_array_of an_int OptExpr.null_expr)

usual_integer_conversion-least_example :
    IsLeastAbove
      (integer_promotion (integer_type short true))
      (integer_promotion (integer_type int true))
      (usual_integer_conversion (integer_type short true) (integer_type int true))
usual_integer_conversion-least_example =
    usual_integer_conversion-least (integer_type short true) (integer_type int true) of_integer
      of_integer

usual_arithmetic_conversion_comm_example :
    usual_arithmetic_conversion an_int (floating_type float)
    ≡ usual_arithmetic_conversion (floating_type float) an_int
usual_arithmetic_conversion_comm_example =
    usual_arithmetic_conversion_comm an_int (floating_type float) (integral of_integer) of_floating

usual_integer_conversion-exact_width_example :
    (usual_integer_conversion an_int (exact_type 64 false) ≡ an_int)
    × (usual_integer_conversion (exact_type 64 false) an_int ≡ exact_type 64 false)
usual_integer_conversion-exact_width_example = usual_integer_conversion-exact_width 64 false

integer_promotion-HoldsValue_example :
    HoldsValue (integer_promotion (integer_type short true)) (pos 65535)
    × (2 ≤ integer_rank_order (info (integer_promotion (integer_type short true))).integer_rank)
unfolding unsigned_max_for_rank signed_max_for_rank
integer_promotion-HoldsValue_example =
    integer_promotion-HoldsValue (integer_type short true) (pos 65535) refl (omega arith)

usual_integer_conversion-HoldsValue_example :
    HoldsValue (usual_integer_conversion an_int (integer_type long false)) (negsuc 4)
unfolding unsigned_max_for_rank signed_max_for_rank usual_integer_conversion convert_promoted
    integer_promotion small_promotion text_eq type_eq info_eq qualifiers_eq kind_number rank_number
    signedness_number floating_number
usual_integer_conversion-HoldsValue_example =
    usual_integer_conversion-HoldsValue an_int (integer_type long false) (negsuc 4) of_integer
      of_integer (refl, omega arith) (inr refl)

bit_field_width_limit-integer_type_example :
    (w : ℕ) × (bit_field_width_limit (integer_type char true) ≡ some (suc w))
    × (unsigned_max_for_rank char ≡ 2 ^ suc w - 1)
    × (signed_max_for_rank char ≡ 2 ^ w - 1)
bit_field_width_limit-integer_type_example = bit_field_width_limit-integer_type char true

conditional_pointer_type-assignable_to_example :
    (assignable_to (pointer_to void_type) (pointer_to an_int) ≡ true)
    × (assignable_to (pointer_to void_type) (pointer_to void_type) ≡ true)
unfolding conditional_pointer_type pointers_comparable pointer_bases_compatible bases_compatible
    common_base text_eq type_eq info_eq qualifiers_eq kind_number rank_number signedness_number
    floating_number
conditional_pointer_type-assignable_to_example =
    conditional_pointer_type-assignable_to (pointer_to an_int) (pointer_to void_type)
      (pointer_to void_type) refl

assignable_to-qualifier_superset_example :
    qualifier_superset (qualifiers_of const_int) (qualifiers_of an_int) ≡ true
unfolding assignable_to value_assignable pointers_assignable pointer_bases_compatible
    bases_compatible text_eq type_eq info_eq qualifiers_eq kind_number rank_number signedness_number
    floating_number
assignable_to-qualifier_superset_example =
    assignable_to-qualifier_superset (pointer_to const_int) (array_of an_int 4) const_int an_int
      refl refl refl refl refl

complex-assignable_example :
    (assignable_to boolean_type complex_type ≡ true)
    × (can_explicit_cast boolean_type complex_type (Expr.var_ref here (codes "z")) ≡ false)
unfolding kind_number
complex-assignable_example =
    complex-assignable boolean_type complex_type (Expr.var_ref here (codes "z")) refl refl

-- choose 0 when true otherwise 1.5
abbrev zero_or_decimal : Expr
zero_or_decimal =
    Expr.conditional here (Expr.int_lit here (pos 0)) (Expr.bool_lit here true)
      (Expr.float_lit here (codes "1.5"))

floating_null-assignable_example :
    (assignable_expr_to (pointer_to an_int) decimal_type zero_or_decimal ≡ true)
    × (can_explicit_cast (pointer_to an_int) decimal_type zero_or_decimal ≡ false)
unfolding is_null_pointer_constant_expr integer_constant_value kind_number
floating_null-assignable_example =
    floating_null-assignable (pointer_to an_int) decimal_type zero_or_decimal refl refl refl
