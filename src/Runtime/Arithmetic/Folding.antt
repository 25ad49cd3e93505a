-- ===== src/Runtime/Arithmetic/Folding.antt =====
-- The arithmetic of runtime/plainspeak_runtime.c against the values that integerConstantValue of
-- src/sema/sema.cpp gives to the same operations.
use plainspeak.Prelude.{◌≡◌, ◌↔◌, Bool, true, false, Option, some, arith}
use plainspeak.Prelude.Int.{ℤ, ◌+ℤ◌, ◌-ℤ◌, ◌*ℤ◌, quot_ℤ, rem_ℤ}
use plainspeak.Ast.{BinOp}
use plainspeak.Constants.Long.{
  IsLong, exact, checked_add_long-exact, checked_sub_long-exact, long_div, wrap_long_id,
}
use plainspeak.Constants.Long.Multiply.{checked_mul_long-exact}
use plainspeak.Constants.Value.{short_circuit, binary_value, or_else}
use plainspeak.Constants.Value.Operators.{division_iff, rem_ℤ-IsLong}
use plainspeak.Runtime.{PsValue, ps_int, Outcome, done, Doubles}
use plainspeak.Runtime.Heap.{Heap, Allocator}
use plainspeak.Runtime.Arithmetic.{
  long_result, with_heap, boxed_binary, ps_add, ps_sub, ps_mul, ps_div, ps_mod, ps_and, ps_or,
  ps_truthy,
}

-- The operators that the runtime computes on longs themselves.
abbrev pub on_longs : BinOp → Bool
on_longs BinOp.add = true
on_longs BinOp.sub = true
on_longs BinOp.mul = true
on_longs BinOp.div = true
on_longs BinOp.modulo = true
on_longs BinOp.and = true
on_longs BinOp.or = true
on_longs op = false

-- The value of a constant operation on two constants.
abbrev pub folded : BinOp → ℤ → ℤ → Option ℤ
folded op a b = or_else (short_circuit op a) (binary_value op a b)

module _ {F : Type 0} (d : Doubles F) (grants : Allocator) where
  -- The outcome of a run is that of folding, where folding has a value.
  abbrev pub Agree : Outcome (PsValue F × Heap F) → Option ℤ → Heap F → Type 0
  Agree o v h = (c : ℤ) → (o ≡ done (ps_int c, h)) ↔ (v ≡ some c)

  exact-Agree : (z : ℤ) (h : Heap F) → Agree (with_heap h (long_result z)) (exact z) h
  exact-Agree z h c = ground arith

  module _ (a b : ℤ) (h : Heap F) (ha : IsLong a) (hb : IsLong b) where
    add-Agree :
        Agree (boxed_binary d grants BinOp.add (ps_int a) (ps_int b) h) (folded BinOp.add a b) h
    unfolding boxed_binary ps_add short_circuit binary_value
    add-Agree = rw (checked_add_long-exact a b ha hb) (exact-Agree (a +ℤ b) h)

    sub-Agree :
        Agree (boxed_binary d grants BinOp.sub (ps_int a) (ps_int b) h) (folded BinOp.sub a b) h
    unfolding boxed_binary ps_sub short_circuit binary_value
    sub-Agree = rw (checked_sub_long-exact a b ha hb) (exact-Agree (a -ℤ b) h)

    mul-Agree :
        Agree (boxed_binary d grants BinOp.mul (ps_int a) (ps_int b) h) (folded BinOp.mul a b) h
    unfolding boxed_binary ps_mul short_circuit binary_value
    mul-Agree = rw (checked_mul_long-exact a b) (exact-Agree (a *ℤ b) h)

    div-Agree :
        Agree (boxed_binary d grants BinOp.div (ps_int a) (ps_int b) h) (folded BinOp.div a b) h
    unfolding boxed_binary ps_div short_circuit binary_value long_div
    div-Agree c = ground (arith, division_iff a b ha, wrap_long_id (quot_ℤ a b))

    mod-Agree :
        Agree
          (boxed_binary d grants BinOp.modulo (ps_int a) (ps_int b) h)
          (folded BinOp.modulo a b)
          h
    unfolding boxed_binary ps_mod short_circuit binary_value
    mod-Agree c = ground (arith, division_iff a b ha, wrap_long_id (rem_ℤ a b), rem_ℤ-IsLong a b ha)

    and-Agree :
        Agree (boxed_binary d grants BinOp.and (ps_int a) (ps_int b) h) (folded BinOp.and a b) h
    unfolding boxed_binary ps_and ps_truthy short_circuit binary_value
    and-Agree c = ground arith

    or-Agree :
        Agree (boxed_binary d grants BinOp.or (ps_int a) (ps_int b) h) (folded BinOp.or a b) h
    unfolding boxed_binary ps_or ps_truthy short_circuit binary_value
    or-Agree c = ground arith

  -- For plus, minus, times, divided by, mod, and, and or of two longs, the function that the emitter
  -- names returns c, the heap unchanged, exactly where folding the operation on two constants gives c.
  pub boxed_binary-folded :
      (op : BinOp) (a b : ℤ) (h : Heap F)
      → IsLong a
      → IsLong b
      → on_longs op ≡ true
      → (c : ℤ)
      → (boxed_binary d grants op (ps_int a) (ps_int b) h ≡ done (ps_int c, h))
        ↔ (folded op a b ≡ some c)
  boxed_binary-folded BinOp.add a b h ha hb e = add-Agree a b h ha hb
  boxed_binary-folded BinOp.sub a b h ha hb e = sub-Agree a b h ha hb
  boxed_binary-folded BinOp.mul a b h ha hb e = mul-Agree a b h ha hb
  boxed_binary-folded BinOp.div a b h ha hb e = div-Agree a b h ha hb
  boxed_binary-folded BinOp.modulo a b h ha hb e = mod-Agree a b h ha hb
  boxed_binary-folded BinOp.and a b h ha hb e = and-Agree a b h ha hb
  boxed_binary-folded BinOp.or a b h ha hb e = or-Agree a b h ha hb
  boxed_binary-folded op a b h ha hb e = cc
