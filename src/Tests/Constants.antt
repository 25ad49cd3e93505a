-- ===== src/Tests/Constants.antt =====
-- Integer constants of src/sema/sema.cpp at concrete operands.
use plainspeak.Prelude.{◌≡◌, ◌↔◌, some, Bool, arith, refl}
use plainspeak.Prelude.Int.{ℤ, pos, negsuc, ◌+ℤ◌, ◌-ℤ◌, ◌*ℤ◌, quot_ℤ}
use plainspeak.Ast.{Place, Expr, BinOp}
use plainspeak.Constants.Long.{
  long_max, long_min, exact, checked_add_long, checked_sub_long, checked_mul_long, long_div,
  long_sub, long_add, wrap_long, signed64, bits64, checked_add_long-exact, checked_sub_long-exact,
}
use plainspeak.Constants.Long.Multiply.{checked_mul_long-exact}
use plainspeak.Constants.Value.{integer_constant_value, division_faults}
use plainspeak.Constants.Value.Correct.{integer_constant_value_iff}
use plainspeak.Constants.Meaning.{Denotes}

abbrev here : Place
here = record { address = 0; line = 1 }

abbrev lit : ℤ → Expr
lit n = Expr.int_lit here n

-- choose 6 divided by 4 minus 9 when true otherwise 1 divided by 0
abbrev sample : Expr
sample =
    Expr.conditional here
      (Expr.binary here BinOp.sub (Expr.binary here BinOp.div (lit (pos 6)) (lit (pos 4)))
        (lit (pos 9)))
      (Expr.bool_lit here Bool.true) (Expr.binary here BinOp.div (lit (pos 1)) (lit (pos 0)))

sample_value : integer_constant_value sample ≡ some (negsuc 7)
unfolding integer_constant_value division_faults checked_sub_long long_div long_sub long_add
    wrap_long signed64 bits64 quot_ℤ ◌-ℤ◌ ◌+ℤ◌
sample_value = refl

-- 0 and 1 divided by 0
skipped_division :
    integer_constant_value (
      Expr.binary here BinOp.and
        (lit (pos 0))
        (Expr.binary here BinOp.div (lit (pos 1)) (lit (pos 0))))
    ≡ some (pos 0)
unfolding integer_constant_value division_faults
skipped_division = refl

checked_add_long-exact_example : checked_add_long long_max (pos 1) ≡ exact (long_max +ℤ pos 1)
checked_add_long-exact_example = checked_add_long-exact long_max (pos 1) (omega arith) (omega arith)

checked_sub_long-exact_example : checked_sub_long long_min (pos 1) ≡ exact (long_min -ℤ pos 1)
checked_sub_long-exact_example = checked_sub_long-exact long_min (pos 1) (omega arith) (omega arith)

checked_mul_long-exact_example : checked_mul_long long_min (negsuc 0) ≡ exact (long_min *ℤ negsuc 0)
checked_mul_long-exact_example = checked_mul_long-exact long_min (negsuc 0)

integer_constant_value_iff_example :
    (integer_constant_value sample ≡ some (negsuc 7)) ↔ Denotes sample (negsuc 7)
integer_constant_value_iff_example = integer_constant_value_iff sample (negsuc 7) (omega arith)
