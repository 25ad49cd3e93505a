-- ===== src/Constants/Long/Multiply.antt =====
-- src/sema/sema.cpp: checkedMulLong. Its four division tests find exactly the products that a
-- long cannot hold.
use plainspeak.Prelude.{ℕ, zero, suc, ◌*◌, ◌/◌, ◌≡◌, ◌≤◌, ltb, arith}
use plainspeak.Prelude.Int.{ℤ, pos, negsuc, ◌*ℤ◌, quot_ℤ, minus_ℕ, ltb_ℤ}
use plainspeak.Constants.Long.{
  long_div, long_mul, mul_overflows, checked_mul_long, exact, wrap_long, wrap_long_id,
}
use native.Mathlib.Nat.{div-lt_iff_lt-mul, div-le_self, mul_comm, mul-zero}

-- A quotient lies below a factor exactly when the dividend lies below the product.
ltb-div : (x n m : ℕ) → ltb (x / suc n) (suc m) ≡ ltb x (suc m * suc n)
ltb-div x n m = ground (arith, div-lt_iff_lt-mul {k = suc n} {x = x} {y = suc m} (omega arith))

wrap_long-minus_ℕ : (q : ℕ) → q ≤ 9223372036854775808 → wrap_long (minus_ℕ q) ≡ minus_ℕ q
wrap_long-minus_ℕ zero h = wrap_long_id (pos 0) (omega arith)
wrap_long-minus_ℕ (suc q) h = wrap_long_id (negsuc q) (omega arith)

ltb_ℤ-minus_ℕ : (n q : ℕ) → ltb_ℤ (negsuc n) (minus_ℕ q) ≡ ltb q (suc n)
ltb_ℤ-minus_ℕ n zero = ground arith
ltb_ℤ-minus_ℕ n (suc q) = ground arith

-- In each case of the signs, the test that the code makes is the test on the size of the product.
module _ (m n : ℕ) where
  overflows_pn : mul_overflows (pos (suc m)) (negsuc n) ≡ ltb 9223372036854775808 (suc n * suc m)
  unfolding mul_overflows long_div quot_ℤ
  overflows_pn =
      let q = 9223372036854775808 / suc m in
      ground (
        arith,
        wrap_long-minus_ℕ q (div-le_self 9223372036854775808 (suc m)),
        ltb_ℤ-minus_ℕ n q,
        ltb-div 9223372036854775808 m n,
      )

  overflows_np : mul_overflows (negsuc m) (pos (suc n)) ≡ ltb 9223372036854775808 (suc m * suc n)
  unfolding mul_overflows long_div quot_ℤ
  overflows_np =
      let q = 9223372036854775808 / suc n in
      ground (
        arith,
        wrap_long-minus_ℕ q (div-le_self 9223372036854775808 (suc n)),
        ltb_ℤ-minus_ℕ m q,
        ltb-div 9223372036854775808 n m,
      )

  overflows_nn : mul_overflows (negsuc m) (negsuc n) ≡ ltb 9223372036854775807 (suc m * suc n)
  unfolding mul_overflows long_div quot_ℤ
  overflows_nn =
      let q = 9223372036854775807 / suc n in
      ground (
        arith,
        wrap_long-minus_ℕ q (omega (arith, div-le_self 9223372036854775807 (suc n))),
        ltb_ℤ-minus_ℕ m q,
        ltb-div 9223372036854775807 n m,
      )

module _ (m n : ℕ) where
  mul_pp : checked_mul_long (pos (suc m)) (pos (suc n)) ≡ exact (pos (suc m) *ℤ pos (suc n))
  unfolding checked_mul_long mul_overflows long_div long_mul quot_ℤ ◌*ℤ◌
  mul_pp = ground (
    arith,
    ltb-div 9223372036854775807 n m,
    div-le_self 9223372036854775807 (suc n),
    wrap_long_id (pos (9223372036854775807 / suc n)),
    wrap_long_id (pos (suc m * suc n)),
  )

  mul_pn : checked_mul_long (pos (suc m)) (negsuc n) ≡ exact (pos (suc m) *ℤ negsuc n)
  unfolding checked_mul_long long_mul ◌*ℤ◌
  mul_pn =
      ground (arith, overflows_pn m n, mul_comm (suc m) (suc n), wrap_long-minus_ℕ (suc m * suc n))

  mul_np : checked_mul_long (negsuc m) (pos (suc n)) ≡ exact (negsuc m *ℤ pos (suc n))
  unfolding checked_mul_long long_mul ◌*ℤ◌
  mul_np = ground (arith, overflows_np m n, wrap_long-minus_ℕ (suc m * suc n))

  mul_nn : checked_mul_long (negsuc m) (negsuc n) ≡ exact (negsuc m *ℤ negsuc n)
  unfolding checked_mul_long long_mul ◌*ℤ◌
  mul_nn = ground (arith, overflows_nn m n, wrap_long_id (pos (suc m * suc n)))

mul_zero_left : (b : ℤ) → checked_mul_long (pos 0) b ≡ exact (pos 0 *ℤ b)
unfolding checked_mul_long ◌*ℤ◌
mul_zero_left (pos b) = ground arith
mul_zero_left (negsuc b) = ground arith

mul_zero_right : (a : ℤ) → checked_mul_long a (pos 0) ≡ exact (a *ℤ pos 0)
unfolding checked_mul_long ◌*ℤ◌
mul_zero_right (pos a) = ground arith
mul_zero_right (negsuc a) = ground (arith, mul-zero (suc a))

-- checkedMulLong gives the exact product when a long holds it, and false for every other pair of
-- operands, long or not.
pub checked_mul_long-exact : (a b : ℤ) → checked_mul_long a b ≡ exact (a *ℤ b)
checked_mul_long-exact (pos zero) b = mul_zero_left b
checked_mul_long-exact a (pos zero) = mul_zero_right a
checked_mul_long-exact (pos (suc m)) (pos (suc n)) = mul_pp m n
checked_mul_long-exact (pos (suc m)) (negsuc n) = mul_pn m n
checked_mul_long-exact (negsuc m) (pos (suc n)) = mul_np m n
checked_mul_long-exact (negsuc m) (negsuc n) = mul_nn m n
