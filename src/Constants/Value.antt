-- ===== src/Constants/Value.antt =====
-- src/sema/sema.cpp: integerConstantValue, the translation-time value of an integer constant
-- expression, and isConstTruthyExpr and isNullPointerConstantExpr, which read it.
pub mod Operators
pub mod Range
pub mod Correct
use Prim.Native.Nat.{bit_and, bit_or, bit_xor}
use plainspeak.Prelude.{
  ℕ, ◌-◌, ◌/◌, ◌^◌, Bool, true, false, not, ◌&&◌, ◌||◌, Option, none, some, if◌then◌else◌, ◌>>=◌,
}
use plainspeak.Prelude.Int.{ℤ, pos, negsuc, ◌*ℤ◌, neg_ℤ, rem_ℤ, abs_ℤ, leb_ℤ, ltb_ℤ, ◌==ℤ◌}
use plainspeak.Ast.{Expr, OptExpr, BinOp, UnaryOp}
use plainspeak.Constants.Long.{
  long_max, long_min, signed64, bits64, wrap_long, long_div, checked_add_long, checked_sub_long,
  checked_mul_long,
}

abbrev pub truth : Bool → ℤ
truth b = if b then pos 1 else pos 0

-- ~ on a long
unfoldable pub long_not : ℤ → ℤ
long_not z = signed64 (18446744073709551615 - bits64 z)

-- << and >> of a long by a count in [0, 64); >> of a negative long rounds down, as in C++20
unfoldable pub long_shl : ℤ → ℕ → ℤ
long_shl z k = wrap_long (z *ℤ pos (2 ^ k))

unfoldable pub long_shr : ℤ → ℕ → ℤ
long_shr (pos n) k = pos (n / 2 ^ k)
long_shr (negsuc n) k = negsuc (n / 2 ^ k)

-- &, ^ and | on longs, by their 64-bit patterns
unfoldable pub long_bitwise : (ℕ → ℕ → ℕ) → ℤ → ℤ → ℤ
long_bitwise op a b = signed64 (op (bits64 a) (bits64 b))

unfoldable pub unary_value : UnaryOp → ℤ → Option ℤ
unary_value UnaryOp.not rhs = some (truth (rhs ==ℤ pos 0))
unary_value UnaryOp.bit_not rhs = some (long_not rhs)
unary_value UnaryOp.neg rhs = if rhs ==ℤ long_min then none else some (wrap_long (neg_ℤ rhs))

-- The result that the left operand settles alone.
unfoldable pub short_circuit : BinOp → ℤ → Option ℤ
short_circuit BinOp.and lhs = if lhs ==ℤ pos 0 then some (pos 0) else none
short_circuit BinOp.or lhs = if lhs ==ℤ pos 0 then none else some (pos 1)
short_circuit op lhs = none

-- sizeof(long) * CHAR_BIT
abbrev pub long_bits : ℤ
long_bits = pos 64

unfoldable pub division_faults : ℤ → ℤ → Bool
division_faults lhs rhs = rhs ==ℤ pos 0 || (lhs ==ℤ long_min) && (rhs ==ℤ negsuc 0)

unfoldable pub shift_left_value : ℤ → ℤ → Option ℤ
shift_left_value lhs rhs =
    if ltb_ℤ lhs (pos 0) || ltb_ℤ rhs (pos 0) || leb_ℤ long_bits rhs
    then none
    else if ltb_ℤ (long_shr long_max (abs_ℤ rhs)) lhs
    then none
    else some (long_shl lhs (abs_ℤ rhs))

unfoldable pub binary_value : BinOp → ℤ → ℤ → Option ℤ
binary_value BinOp.add lhs rhs = checked_add_long lhs rhs
binary_value BinOp.sub lhs rhs = checked_sub_long lhs rhs
binary_value BinOp.mul lhs rhs = checked_mul_long lhs rhs
binary_value BinOp.div lhs rhs = if division_faults lhs rhs then none else some (long_div lhs rhs)
binary_value BinOp.modulo lhs rhs =
    if division_faults lhs rhs then none else some (wrap_long (rem_ℤ lhs rhs))
binary_value BinOp.shift_left lhs rhs = shift_left_value lhs rhs
binary_value BinOp.shift_right lhs rhs =
    if ltb_ℤ rhs (pos 0) || leb_ℤ long_bits rhs then none else some (long_shr lhs (abs_ℤ rhs))
binary_value BinOp.gt lhs rhs = some (truth (ltb_ℤ rhs lhs))
binary_value BinOp.lt lhs rhs = some (truth (ltb_ℤ lhs rhs))
binary_value BinOp.eq lhs rhs = some (truth (lhs ==ℤ rhs))
binary_value BinOp.ne lhs rhs = some (truth (not (lhs ==ℤ rhs)))
binary_value BinOp.ge lhs rhs = some (truth (leb_ℤ rhs lhs))
binary_value BinOp.le lhs rhs = some (truth (leb_ℤ lhs rhs))
binary_value BinOp.bit_and lhs rhs = some (long_bitwise bit_and lhs rhs)
binary_value BinOp.bit_xor lhs rhs = some (long_bitwise bit_xor lhs rhs)
binary_value BinOp.bit_or lhs rhs = some (long_bitwise bit_or lhs rhs)
binary_value BinOp.and lhs rhs = some (truth (not (rhs ==ℤ pos 0)))
binary_value BinOp.or lhs rhs = some (truth (not (rhs ==ℤ pos 0)))
binary_value BinOp.comma lhs rhs = some rhs

-- The right operand is evaluated only where the left one does not settle the result.
abbrev pub or_else {ℓ} : {A : Type ℓ} → Option A → Option A → Option A
or_else none other = other
or_else (some a) other = some a

unfoldable pub integer_constant_value : Expr → Option ℤ
unfolding unary_value short_circuit binary_value
integer_constant_value (Expr.int_lit p value) = some value
integer_constant_value (Expr.bool_lit p value) = some (truth value)
integer_constant_value (Expr.unary p op rhs) = do r ← integer_constant_value rhs; unary_value op r
integer_constant_value (Expr.binary p op lhs rhs) = do
  l ← integer_constant_value lhs
  or_else (short_circuit op l) (integer_constant_value rhs >>= λ r. binary_value op l r)
integer_constant_value (Expr.conditional p when_true condition when_false) = do
  c ← integer_constant_value condition
  if c ==ℤ pos 0 then integer_constant_value when_false else integer_constant_value when_true
integer_constant_value e = none

-- integerConstantValue of a pointer that may be null
unfoldable pub constant_of : OptExpr → Option ℤ
constant_of OptExpr.null_expr = none
constant_of (OptExpr.the_expr e) = integer_constant_value e

unfoldable pub is_const_truthy_expr : Expr → Bool
is_const_truthy_expr e = elim (integer_constant_value e) [
  | none ↦ false
  | some v ↦ not (v ==ℤ pos 0)
]

unfoldable pub is_null_pointer_constant_expr : Expr → Bool
is_null_pointer_constant_expr (Expr.nullptr_lit p) = true
is_null_pointer_constant_expr e = elim (integer_constant_value e) [
  | none ↦ false
  | some v ↦ v ==ℤ pos 0
]
