-- ===== src/Runtime/Arithmetic/Faults.antt =====
-- Where an operation of runtime/plainspeak_runtime.c is undefined in C.
use plainspeak.Prelude.{◌≡◌, ◌↔◌, ◌⊎◌, true, arith}
use plainspeak.Prelude.Int.{ℤ, pos, negsuc, ◌+ℤ◌, ◌-ℤ◌, ◌*ℤ◌, ◌<ℤ◌}
use plainspeak.Ast.{BinOp}
use plainspeak.Constants.Long.{IsLong, long_min, long_max}
use plainspeak.Constants.Value.{division_faults}
use plainspeak.Constants.Value.Operators.{division_iff}
use plainspeak.Runtime.{PsValue, ps_int, undefined, Doubles, as_double, type_error}
use plainspeak.Runtime.Heap.{Heap, Allocator, allocate}
use plainspeak.Runtime.Arithmetic.{
  undefined_quotient, boxed_binary, ps_add, ps_sub, ps_mul, ps_div, ps_mod, ps_and, ps_or,
  ps_truthy, ps_eq, ps_ne, ps_gt, ps_lt, ps_ge, ps_le, joined, joined_text,
}

abbrev pub BeyondLong : ℤ → Type 0
BeyondLong z = (z <ℤ long_min) ⊎ (long_max <ℤ z)

module _ {F : Type 0} where
  -- A value of the runtime has a long where it has an integer.
  abbrev pub HasLong : PsValue F → Type 0
  HasLong (ps_int a) = IsLong a
  HasLong a = Unit

  -- An exact result that no long holds; for a quotient, of the least long and -1.
  abbrev pub Overflows : BinOp → PsValue F → PsValue F → Type 0
  Overflows BinOp.add (ps_int a) (ps_int b) = BeyondLong (a +ℤ b)
  Overflows BinOp.sub (ps_int a) (ps_int b) = BeyondLong (a -ℤ b)
  Overflows BinOp.mul (ps_int a) (ps_int b) = BeyondLong (a *ℤ b)
  Overflows BinOp.div (ps_int a) (ps_int b) = (a ≡ long_min) × (b ≡ negsuc 0)
  Overflows BinOp.modulo (ps_int a) (ps_int b) = (a ≡ long_min) × (b ≡ negsuc 0)
  Overflows op a b = ⊥

quotient-undefined :
    (a b : ℤ)
    → IsLong a
    → (undefined_quotient a b ≡ true) ↔ ((b ≡ pos 0) ⊎ (a ≡ long_min) × (b ≡ negsuc 0))
unfolding division_faults
quotient-undefined a b ha = ground (arith, division_iff a b ha)

module _ {F : Type 0} (d : Doubles F) (grants : Allocator) (h : Heap F) where
  add-Overflows :
      (a b : PsValue F)
      → (boxed_binary d grants BinOp.add a b h ≡ undefined) ↔ Overflows BinOp.add a b
  unfolding boxed_binary ps_add joined joined_text allocate as_double type_error
  add-Overflows a b = ground arith

  sub-Overflows :
      (a b : PsValue F)
      → (boxed_binary d grants BinOp.sub a b h ≡ undefined) ↔ Overflows BinOp.sub a b
  unfolding boxed_binary ps_sub as_double type_error
  sub-Overflows a b = ground arith

  mul-Overflows :
      (a b : PsValue F)
      → (boxed_binary d grants BinOp.mul a b h ≡ undefined) ↔ Overflows BinOp.mul a b
  unfolding boxed_binary ps_mul as_double type_error
  mul-Overflows a b = ground arith

  div-Overflows :
      (a b : PsValue F)
      → HasLong a
      → (boxed_binary d grants BinOp.div a b h ≡ undefined) ↔ Overflows BinOp.div a b
  unfolding boxed_binary ps_div as_double type_error
  div-Overflows (ps_int a) (ps_int b) ha = ground (arith, quotient-undefined a b ha)
  div-Overflows a b ha = ground arith

  modulo-Overflows :
      (a b : PsValue F)
      → HasLong a
      → (boxed_binary d grants BinOp.modulo a b h ≡ undefined) ↔ Overflows BinOp.modulo a b
  unfolding boxed_binary ps_mod as_double type_error
  modulo-Overflows (ps_int a) (ps_int b) ha = ground (arith, quotient-undefined a b ha)
  modulo-Overflows a b ha = ground arith

  gt-Overflows :
      (a b : PsValue F)
      → (boxed_binary d grants BinOp.gt a b h ≡ undefined) ↔ Overflows BinOp.gt a b
  unfolding boxed_binary ps_gt as_double type_error
  gt-Overflows a b = ground arith

  lt-Overflows :
      (a b : PsValue F)
      → (boxed_binary d grants BinOp.lt a b h ≡ undefined) ↔ Overflows BinOp.lt a b
  unfolding boxed_binary ps_lt as_double type_error
  lt-Overflows a b = ground arith

  ge-Overflows :
      (a b : PsValue F)
      → (boxed_binary d grants BinOp.ge a b h ≡ undefined) ↔ Overflows BinOp.ge a b
  unfolding boxed_binary ps_ge as_double type_error
  ge-Overflows a b = ground arith

  le-Overflows :
      (a b : PsValue F)
      → (boxed_binary d grants BinOp.le a b h ≡ undefined) ↔ Overflows BinOp.le a b
  unfolding boxed_binary ps_le as_double type_error
  le-Overflows a b = ground arith

  eq-Overflows :
      (a b : PsValue F)
      → (boxed_binary d grants BinOp.eq a b h ≡ undefined) ↔ Overflows BinOp.eq a b
  unfolding boxed_binary ps_eq as_double type_error
  eq-Overflows a b = ground arith

  ne-Overflows :
      (a b : PsValue F)
      → (boxed_binary d grants BinOp.ne a b h ≡ undefined) ↔ Overflows BinOp.ne a b
  unfolding boxed_binary ps_ne ps_eq as_double type_error
  ne-Overflows a b = ground arith

  and-Overflows :
      (a b : PsValue F)
      → (boxed_binary d grants BinOp.and a b h ≡ undefined) ↔ Overflows BinOp.and a b
  unfolding boxed_binary ps_and ps_truthy type_error
  and-Overflows a b = ground arith

  or-Overflows :
      (a b : PsValue F)
      → (boxed_binary d grants BinOp.or a b h ≡ undefined) ↔ Overflows BinOp.or a b
  unfolding boxed_binary ps_or ps_truthy type_error
  or-Overflows a b = ground arith

  -- On values whose integers are longs, the function that the emitter names for an operator of boxed
  -- operands is undefined exactly where both are integers and the operator is plus, minus or times with an
  -- exact result beyond the range of long, or divided by or mod with the least long and -1. A divisor of
  -- 0, at which C is undefined too, never gets there.
  pub boxed_binary-Overflows :
      (op : BinOp) (a b : PsValue F)
      → HasLong a
      → HasLong b
      → (boxed_binary d grants op a b h ≡ undefined) ↔ Overflows op a b
  unfolding boxed_binary ps_or ps_truthy type_error
  boxed_binary-Overflows BinOp.add a b ha hb = add-Overflows a b
  boxed_binary-Overflows BinOp.sub a b ha hb = sub-Overflows a b
  boxed_binary-Overflows BinOp.mul a b ha hb = mul-Overflows a b
  boxed_binary-Overflows BinOp.div a b ha hb = div-Overflows a b ha
  boxed_binary-Overflows BinOp.modulo a b ha hb = modulo-Overflows a b ha
  boxed_binary-Overflows BinOp.gt a b ha hb = gt-Overflows a b
  boxed_binary-Overflows BinOp.lt a b ha hb = lt-Overflows a b
  boxed_binary-Overflows BinOp.ge a b ha hb = ge-Overflows a b
  boxed_binary-Overflows BinOp.le a b ha hb = le-Overflows a b
  boxed_binary-Overflows BinOp.eq a b ha hb = eq-Overflows a b
  boxed_binary-Overflows BinOp.ne a b ha hb = ne-Overflows a b
  boxed_binary-Overflows BinOp.and a b ha hb = and-Overflows a b
  boxed_binary-Overflows BinOp.or a b ha hb = or-Overflows a b
  boxed_binary-Overflows BinOp.shift_left a b ha hb = ground arith
  boxed_binary-Overflows BinOp.shift_right a b ha hb = ground arith
  boxed_binary-Overflows BinOp.bit_and a b ha hb = ground arith
  boxed_binary-Overflows BinOp.bit_xor a b ha hb = ground arith
  boxed_binary-Overflows BinOp.bit_or a b ha hb = ground arith
  boxed_binary-Overflows BinOp.comma a b ha hb = ground arith
