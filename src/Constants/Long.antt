-- ===== src/Constants/Long.antt =====
-- src/sema/sema.cpp: checkedAddLong, checkedSubLong, checkedMulLong, and the arithmetic of the
-- 64-bit `long` that they use. Each C operation on longs wraps to 64 bits in the model, so that a
-- guard which itself overflowed would give a wrong answer.
pub mod Multiply
use plainspeak.Prelude.{
  ℕ, ◌-◌, ◌%◌, ◌≡◌, Bool, ◌&&◌, ◌||◌, Option, none, some, if◌then◌else◌, ltb, arith,
}
use plainspeak.Prelude.Int.{ℤ, pos, negsuc, ◌+ℤ◌, ◌-ℤ◌, ◌*ℤ◌, quot_ℤ, ◌≤ℤ◌, leb_ℤ, ltb_ℤ, ◌==ℤ◌}

abbrev pub long_max : ℤ
long_max = pos 9223372036854775807

abbrev pub long_min : ℤ
long_min = negsuc 9223372036854775807

abbrev pub IsLong : ℤ → Type 0
IsLong z = (long_min ≤ℤ z) × (z ≤ℤ long_max)

abbrev pub in_long : ℤ → Bool
in_long z = leb_ℤ long_min z && leb_ℤ z long_max

-- The signed number that a 64-bit pattern stands for.
unfoldable pub signed64 : ℕ → ℤ
signed64 w = if ltb w 9223372036854775808 then pos w else negsuc (18446744073709551615 - w)

-- The 64-bit pattern of an integer.
unfoldable pub bits64 : ℤ → ℕ
bits64 (pos n) = n % 18446744073709551616
bits64 (negsuc n) = 18446744073709551615 - n % 18446744073709551616

unfoldable pub wrap_long : ℤ → ℤ
unfolding signed64 bits64
wrap_long z = signed64 (bits64 z)

unfoldable pub long_add : ℤ → ℤ → ℤ
long_add a b = wrap_long (a +ℤ b)

unfoldable pub long_sub : ℤ → ℤ → ℤ
long_sub a b = wrap_long (a -ℤ b)

unfoldable pub long_mul : ℤ → ℤ → ℤ
long_mul a b = wrap_long (a *ℤ b)

unfoldable pub long_div : ℤ → ℤ → ℤ
long_div a b = wrap_long (quot_ℤ a b)

unfoldable pub checked_add_long : ℤ → ℤ → Option ℤ
checked_add_long lhs rhs =
    if ltb_ℤ (pos 0) rhs && ltb_ℤ (long_sub long_max rhs) lhs
      || ltb_ℤ rhs (pos 0) && ltb_ℤ lhs (long_sub long_min rhs)
    then none
    else some (long_add lhs rhs)

unfoldable pub checked_sub_long : ℤ → ℤ → Option ℤ
checked_sub_long lhs rhs =
    if ltb_ℤ rhs (pos 0) && ltb_ℤ (long_add long_max rhs) lhs
      || ltb_ℤ (pos 0) rhs && ltb_ℤ lhs (long_add long_min rhs)
    then none
    else some (long_sub lhs rhs)

-- The four tests on signs, in the order of the nested ifs.
unfoldable pub mul_overflows : ℤ → ℤ → Bool
mul_overflows lhs rhs =
    if ltb_ℤ (pos 0) lhs
    then (if ltb_ℤ (pos 0) rhs
        then ltb_ℤ (long_div long_max rhs) lhs
        else ltb_ℤ rhs (long_div long_min lhs))
    else (if ltb_ℤ (pos 0) rhs
        then ltb_ℤ lhs (long_div long_min rhs)
        else ltb_ℤ lhs (long_div long_max rhs))

unfoldable pub checked_mul_long : ℤ → ℤ → Option ℤ
checked_mul_long lhs rhs =
    if (lhs ==ℤ pos 0) || (rhs ==ℤ pos 0)
    then some (pos 0)
    else if (lhs ==ℤ negsuc 0) && (rhs ==ℤ long_min) || (rhs ==ℤ negsuc 0) && (lhs ==ℤ long_min)
    then none
    else if mul_overflows lhs rhs
    then none
    else some (long_mul lhs rhs)

-- The reference: the exact result where a long holds it, and nothing otherwise.
abbrev pub exact : ℤ → Option ℤ
exact z = if in_long z then some z else none

pub wrap_long_id : (z : ℤ) → IsLong z → wrap_long z ≡ z
unfolding wrap_long
wrap_long_id z h = ground arith

pub wrap_long-IsLong : (z : ℤ) → IsLong (wrap_long z)
unfolding wrap_long
wrap_long-IsLong z = ground arith

-- For two longs checkedAddLong gives the exact sum when a long holds it, and false otherwise.
pub checked_add_long-exact : (a b : ℤ) → IsLong a → IsLong b → checked_add_long a b ≡ exact (a +ℤ b)
unfolding checked_add_long long_add long_sub ◌+ℤ◌ ◌-ℤ◌
checked_add_long-exact a b ha hb =
    ground
      (arith, wrap_long_id (long_max -ℤ b), wrap_long_id (long_min -ℤ b), wrap_long_id (a +ℤ b))

-- For two longs checkedSubLong gives the exact difference when a long holds it, and false
-- otherwise.
pub checked_sub_long-exact : (a b : ℤ) → IsLong a → IsLong b → checked_sub_long a b ≡ exact (a -ℤ b)
unfolding checked_sub_long long_add long_sub ◌+ℤ◌ ◌-ℤ◌
checked_sub_long-exact a b ha hb =
    ground
      (arith, wrap_long_id (long_max +ℤ b), wrap_long_id (long_min +ℤ b), wrap_long_id (a -ℤ b))
