-- ===== src/Constants/Value/Operators.antt =====
-- Each operator of integerConstantValue (src/sema/sema.cpp) computes what it means.
use plainspeak.Prelude.{
  ℕ, zero, suc, ◌+◌, ◌*◌, ◌/◌, ◌%◌, ◌^◌, ◌≤◌, ◌<◌, ◌≡◌, ◌≢◌, ◌↔◌, false, some, none, arith, refl,
  subst,
}
use plainspeak.Prelude.Int.{
  ℤ, pos, negsuc, ◌+ℤ◌, ◌-ℤ◌, ◌*ℤ◌, neg_ℤ, quot_ℤ, rem_ℤ, abs_ℤ, ◌≤ℤ◌, ◌<ℤ◌, eq_of_parts, pos_part,
  neg_part, minus_ℕ, ltb_ℤ,
}
use plainspeak.Ast.{BinOp, UnaryOp}
use plainspeak.Constants.Long.{
  IsLong, signed64, bits64, long_max, long_div, exact, wrap_long_id, checked_add_long-exact,
  checked_sub_long-exact,
}
use plainspeak.Constants.Long.Multiply.{checked_mul_long-exact}
use native.Mathlib.Nat.{
  div-le_self, div-lt_self, div-one, mod-le, one-le-pow, div-lt_iff_lt-mul, div-eq_of_lt-le,
  lt-div-mul-add, div-mul-le_self,
}
use plainspeak.Constants.Value.{
  long_shl, long_shr, long_not, unary_value, binary_value, shift_left_value, division_faults,
  short_circuit,
}
use plainspeak.Constants.Meaning.{Computes, ComputesUnary}

exact_iff : (z c : ℤ) → (exact z ≡ some c) ↔ ((c ≡ z) × IsLong c)
exact_iff z c = ground arith

minus_ℕ-IsLong : (q : ℕ) → q ≤ 9223372036854775808 → IsLong (minus_ℕ q)
minus_ℕ-IsLong zero h = omega arith
minus_ℕ-IsLong (suc q) h = omega arith

-- The code's test for the two faults of / and %.
pub division_iff :
    (a b : ℤ) → IsLong a → (division_faults a b ≡ false) ↔ ((b ≢ pos 0) × IsLong (quot_ℤ a b))
unfolding division_faults quot_ℤ
division_iff (pos a) (pos b) h = ground (arith, div-le_self a b)
division_iff (pos a) (negsuc b) h =
    ground (arith, div-le_self a (suc b), minus_ℕ-IsLong (a / suc b))
division_iff (negsuc a) (pos b) h =
    ground (arith, div-le_self (suc a) b, minus_ℕ-IsLong (suc a / b))
division_iff (negsuc a) (negsuc zero) h = ground (arith, div-one (suc a))
division_iff (negsuc a) (negsuc (suc b)) h =
    ground (arith, div-lt_self {n = suc a} {k = suc (suc b)} (omega arith) (omega arith))

pub rem_ℤ-IsLong : (a b : ℤ) → IsLong a → IsLong (rem_ℤ a b)
unfolding rem_ℤ
rem_ℤ-IsLong (pos a) b h = ground (arith, mod-le a (abs_ℤ b))
rem_ℤ-IsLong (negsuc a) b h =
    minus_ℕ-IsLong (suc a % abs_ℤ b) (omega (arith, mod-le (suc a) (abs_ℤ b)))

long_not_lem : (a : ℤ) → IsLong a → long_not a ≡ negsuc 0 -ℤ a
unfolding long_not signed64 bits64 ◌-ℤ◌
long_not_lem (pos a) h = ground arith
long_not_lem (negsuc a) h = ground arith

pub unary_value_iff :
    (op : UnaryOp) (a c : ℤ) → IsLong a → (unary_value op a ≡ some c) ↔ ComputesUnary op a c
unfolding unary_value neg_ℤ
unary_value_iff UnaryOp.not a c h = ground arith
unary_value_iff UnaryOp.neg (pos a) c h = ground (arith, wrap_long_id (neg_ℤ (pos a)))
unary_value_iff UnaryOp.neg (negsuc a) c h = ground (arith, wrap_long_id (neg_ℤ (negsuc a)))
unary_value_iff UnaryOp.bit_not a c h = ground (arith, long_not_lem a)

module _ (a b c : ℤ) (ha : IsLong a) (hb : IsLong b) where
  add_iff : (binary_value BinOp.add a b ≡ some c) ↔ Computes BinOp.add a b c
  unfolding binary_value
  add_iff = rw (checked_add_long-exact a b ha hb) (exact_iff (a +ℤ b) c)

  sub_iff : (binary_value BinOp.sub a b ≡ some c) ↔ Computes BinOp.sub a b c
  unfolding binary_value
  sub_iff = rw (checked_sub_long-exact a b ha hb) (exact_iff (a -ℤ b) c)

  mul_iff : (binary_value BinOp.mul a b ≡ some c) ↔ Computes BinOp.mul a b c
  unfolding binary_value
  mul_iff = rw (checked_mul_long-exact a b) (exact_iff (a *ℤ b) c)

  div_iff : (binary_value BinOp.div a b ≡ some c) ↔ Computes BinOp.div a b c
  unfolding binary_value long_div
  div_iff = ground (arith, division_iff a b, wrap_long_id (quot_ℤ a b))

  modulo_iff : (binary_value BinOp.modulo a b ≡ some c) ↔ Computes BinOp.modulo a b c
  unfolding binary_value
  modulo_iff = ground (arith, division_iff a b, rem_ℤ-IsLong a b, wrap_long_id (rem_ℤ a b))

  gt_iff : (binary_value BinOp.gt a b ≡ some c) ↔ Computes BinOp.gt a b c
  unfolding binary_value
  gt_iff = ground arith

  lt_iff : (binary_value BinOp.lt a b ≡ some c) ↔ Computes BinOp.lt a b c
  unfolding binary_value
  lt_iff = ground arith

  ge_iff : (binary_value BinOp.ge a b ≡ some c) ↔ Computes BinOp.ge a b c
  unfolding binary_value
  ge_iff = ground arith

  le_iff : (binary_value BinOp.le a b ≡ some c) ↔ Computes BinOp.le a b c
  unfolding binary_value
  le_iff = ground arith

  eq_iff : (binary_value BinOp.eq a b ≡ some c) ↔ Computes BinOp.eq a b c
  unfolding binary_value
  eq_iff = ground (arith, eq_of_parts a b)

  ne_iff : (binary_value BinOp.ne a b ≡ some c) ↔ Computes BinOp.ne a b c
  unfolding binary_value
  ne_iff = ground (arith, eq_of_parts a b)

one-le-two_pow : (k : ℕ) → 1 ≤ 2 ^ k
one-le-two_pow k = one-le-pow k 2 (omega arith)

-- The guard of << is the test on the exact product.
shl_guard : (m k : ℕ) → ltb_ℤ (long_shr long_max k) (pos m) ≡ ltb_ℤ long_max (pos m *ℤ pos (2 ^ k))
unfolding long_shr ◌*ℤ◌
shl_guard m k = ground (
  arith,
  one-le-two_pow k,
  div-lt_iff_lt-mul {k = 2 ^ k} {x = 9223372036854775807} {y = m} (one-le-two_pow k),
)

shift_left_iff : (a b c : ℤ) → (shift_left_value a b ≡ some c) ↔ Computes BinOp.shift_left a b c
unfolding shift_left_value long_shl ◌*ℤ◌
shift_left_iff (pos m) (pos k) c = ground (arith, shl_guard m k, wrap_long_id (pos (m * 2 ^ k)))
shift_left_iff (pos m) (negsuc k) c = ground arith
shift_left_iff (negsuc m) (pos k) c = ground arith
shift_left_iff (negsuc m) (negsuc k) c = ground arith

floor_iff : (n p q : ℕ) → 1 ≤ p → (n / p ≡ q) ↔ ((q * p ≤ n) × (n < (q + 1) * p))
floor_iff n p q h = (
  λ e. (
    subst (λ t. t * p ≤ n) e (div-mul-le_self n p),
    subst (λ t. n < (t + 1) * p) e (grind (arith, lt-div-mul-add {a = n} {b = p} h)),
  ),
  λ r. div-eq_of_lt-le {k = q} p {m = n} r.0 r.1,
)

succ_neg : (q : ℕ) → negsuc q +ℤ pos 1 ≡ minus_ℕ q
unfolding ◌+ℤ◌
succ_neg zero = ground arith
succ_neg (suc q) = ground arith

succ_pos : (q : ℕ) → pos q +ℤ pos 1 ≡ pos (q + 1)
unfolding ◌+ℤ◌
succ_pos q = ground arith

minus_ℕ-* : (q p : ℕ) → minus_ℕ q *ℤ pos p ≡ minus_ℕ (q * p)
unfolding ◌*ℤ◌
minus_ℕ-* zero p = ground arith
minus_ℕ-* (suc q) p = refl

minus_ℕ_parts : (x : ℕ) → (pos_part (minus_ℕ x) ≡ 0) × (neg_part (minus_ℕ x) ≡ x)
minus_ℕ_parts zero = (refl, refl)
minus_ℕ_parts (suc x) = (refl, refl)

-- >> rounds down.
pub shr_floor :
    (a : ℤ) (k : ℕ) (c : ℤ)
    → (long_shr a k ≡ c) ↔ ((c *ℤ pos (2 ^ k) ≤ℤ a) × (a <ℤ (c +ℤ pos 1) *ℤ pos (2 ^ k)))
unfolding long_shr ◌*ℤ◌
shr_floor (pos n) k (pos q) =
    rw (succ_pos q) (ground (arith, floor_iff n (2 ^ k) q (one-le-two_pow k)))
shr_floor (pos n) k (negsuc q) =
    rw (succ_neg q, minus_ℕ-*) (ground (arith, minus_ℕ_parts (q * 2 ^ k)))
shr_floor (negsuc n) k (pos q) = ground arith
shr_floor (negsuc n) k (negsuc q) =
    rw (succ_neg q, minus_ℕ-*)
      (ground (
        arith,
        minus_ℕ_parts (q * 2 ^ k),
        minus_ℕ_parts (suc q * 2 ^ k),
        floor_iff n (2 ^ k) q (one-le-two_pow k),
      ))

module _ (a b c : ℤ) where
  shift_right_iff : (binary_value BinOp.shift_right a b ≡ some c) ↔ Computes BinOp.shift_right a b c
  unfolding binary_value
  shift_right_iff = ground (arith, shr_floor a (abs_ℤ b) c)

  and_iff :
      ((short_circuit BinOp.and a ≡ none) × (binary_value BinOp.and a b ≡ some c))
      ↔ Computes BinOp.and a b c
  unfolding binary_value short_circuit
  and_iff = ground (arith, eq_of_parts a (pos 0), eq_of_parts b (pos 0))

  or_iff :
      ((short_circuit BinOp.or a ≡ none) × (binary_value BinOp.or a b ≡ some c))
      ↔ Computes BinOp.or a b c
  unfolding binary_value short_circuit
  or_iff = ground (arith, eq_of_parts a (pos 0), eq_of_parts b (pos 0))

-- An operator on two longs gives a value exactly when it means one, and that value.
pub binary_value_iff :
    (op : BinOp) (a b c : ℤ)
    → IsLong a
    → IsLong b
    → ((short_circuit op a ≡ none) × (binary_value op a b ≡ some c)) ↔ Computes op a b c
unfolding binary_value short_circuit
binary_value_iff BinOp.add a b c ha hb = ground (arith, add_iff a b c ha hb)
binary_value_iff BinOp.sub a b c ha hb = ground (arith, sub_iff a b c ha hb)
binary_value_iff BinOp.mul a b c ha hb = ground (arith, mul_iff a b c ha hb)
binary_value_iff BinOp.div a b c ha hb = ground (arith, div_iff a b c ha hb)
binary_value_iff BinOp.modulo a b c ha hb = ground (arith, modulo_iff a b c ha hb)
binary_value_iff BinOp.shift_left a b c ha hb = ground (arith, shift_left_iff a b c)
binary_value_iff BinOp.shift_right a b c ha hb = ground (arith, shift_right_iff a b c)
binary_value_iff BinOp.gt a b c ha hb = ground (arith, gt_iff a b c ha hb)
binary_value_iff BinOp.lt a b c ha hb = ground (arith, lt_iff a b c ha hb)
binary_value_iff BinOp.eq a b c ha hb = ground (arith, eq_iff a b c ha hb)
binary_value_iff BinOp.ne a b c ha hb = ground (arith, ne_iff a b c ha hb)
binary_value_iff BinOp.ge a b c ha hb = ground (arith, ge_iff a b c ha hb)
binary_value_iff BinOp.le a b c ha hb = ground (arith, le_iff a b c ha hb)
binary_value_iff BinOp.bit_and a b c ha hb = ground arith
binary_value_iff BinOp.bit_xor a b c ha hb = ground arith
binary_value_iff BinOp.bit_or a b c ha hb = ground arith
binary_value_iff BinOp.and a b c ha hb = and_iff a b c
binary_value_iff BinOp.or a b c ha hb = or_iff a b c
binary_value_iff BinOp.comma a b c ha hb = ground arith
