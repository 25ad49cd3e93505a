-- ===== src/Constants/Value/Range.antt =====
-- Every value that integerConstantValue (src/sema/sema.cpp) gives is a long.
use plainspeak.Prelude.{ℕ, ◌^◌, arith}
use plainspeak.Prelude.Int.{ℤ, pos, negsuc, abs_ℤ, ◌-ℤ◌}
use plainspeak.Ast.{BinOp, UnaryOp}
use plainspeak.Constants.Long.{IsLong, signed64}
use plainspeak.Constants.Value.{long_bitwise, long_shr}
use plainspeak.Constants.Value.Operators.{rem_ℤ-IsLong, shr_floor}
use plainspeak.Constants.Meaning.{Computes, ComputesUnary}
use native.Mathlib.Nat.{div-le_self}

signed64-IsLong : (w : ℕ) → IsLong (signed64 w)
unfolding signed64
signed64-IsLong w = ground arith

long_bitwise-IsLong : (f : ℕ → ℕ → ℕ) (a b : ℤ) → IsLong (long_bitwise f a b)
unfolding long_bitwise
long_bitwise-IsLong f a b = signed64-IsLong _

long_shr-IsLong : (a : ℤ) (k : ℕ) → IsLong a → IsLong (long_shr a k)
unfolding long_shr
long_shr-IsLong (pos n) k h = omega (arith, div-le_self n (2 ^ k))
long_shr-IsLong (negsuc n) k h = omega (arith, div-le_self n (2 ^ k))

pub ComputesUnary-IsLong : (op : UnaryOp) (a c : ℤ) → IsLong a → ComputesUnary op a c → IsLong c
unfolding ◌-ℤ◌
ComputesUnary-IsLong UnaryOp.not a c h p = ground arith
ComputesUnary-IsLong UnaryOp.neg a c h p = p.1
ComputesUnary-IsLong UnaryOp.bit_not (pos n) c h p = ground arith
ComputesUnary-IsLong UnaryOp.bit_not (negsuc n) c h p = ground arith

pub Computes-IsLong : (op : BinOp) (a b c : ℤ) → IsLong a → IsLong b → Computes op a b c → IsLong c
Computes-IsLong BinOp.add a b c ha hb p = p.1
Computes-IsLong BinOp.sub a b c ha hb p = p.1
Computes-IsLong BinOp.mul a b c ha hb p = p.1
Computes-IsLong BinOp.div a b c ha hb p = p.2
Computes-IsLong BinOp.modulo a b c ha hb p = rw p.2 (rem_ℤ-IsLong a b ha)
Computes-IsLong BinOp.shift_left a b c ha hb p = p.3
Computes-IsLong BinOp.shift_right a b c ha hb p =
    rw (← (shr_floor a (abs_ℤ b) c).1 (p.1, p.2)) (long_shr-IsLong a (abs_ℤ b) ha)
Computes-IsLong BinOp.bit_and a b c ha hb p = rw p (long_bitwise-IsLong _ a b)
Computes-IsLong BinOp.bit_xor a b c ha hb p = rw p (long_bitwise-IsLong _ a b)
Computes-IsLong BinOp.bit_or a b c ha hb p = rw p (long_bitwise-IsLong _ a b)
Computes-IsLong BinOp.comma a b c ha hb p = rw p hb
Computes-IsLong op a b c ha hb p = ground arith
