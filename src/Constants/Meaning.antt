-- ===== src/Constants/Meaning.antt =====
-- What an integer constant expression of C means, over the mathematical integers: the rules that
-- integerConstantValue of src/sema/sema.cpp is held against. An operation whose exact result no
-- long holds, a division by zero and a shift outside [0, 64) have no meaning.
use Prim.Native.Nat.{bit_and, bit_or, bit_xor}
use plainspeak.Prelude.{◌^◌, ◌≡◌, ◌≢◌, ◌⊎◌, Bool}
use plainspeak.Prelude.Int.{
  ℤ, pos, negsuc, ◌+ℤ◌, ◌-ℤ◌, ◌*ℤ◌, neg_ℤ, quot_ℤ, rem_ℤ, abs_ℤ, ◌≤ℤ◌, ◌<ℤ◌,
}
use plainspeak.Ast.{Expr, BinOp, UnaryOp}
use plainspeak.Constants.Long.{IsLong}
use plainspeak.Constants.Value.{truth, long_bitwise}

-- c is 1 where P holds and 0 where Q does.
abbrev pub Decides : Type 0 → Type 0 → ℤ → Type 0
Decides P Q c = P × (c ≡ pos 1) ⊎ Q × (c ≡ pos 0)

abbrev pub InShiftRange : ℤ → Type 0
InShiftRange b = (pos 0 ≤ℤ b) × (b <ℤ pos 64)

abbrev pub ComputesUnary : UnaryOp → ℤ → ℤ → Type 0
ComputesUnary UnaryOp.not a c = Decides (a ≡ pos 0) (a ≢ pos 0) c
ComputesUnary UnaryOp.neg a c = (c ≡ neg_ℤ a) × IsLong c
ComputesUnary UnaryOp.bit_not a c = c ≡ negsuc 0 -ℤ a

abbrev pub Computes : BinOp → ℤ → ℤ → ℤ → Type 0
Computes BinOp.add a b c = (c ≡ a +ℤ b) × IsLong c
Computes BinOp.sub a b c = (c ≡ a -ℤ b) × IsLong c
Computes BinOp.mul a b c = (c ≡ a *ℤ b) × IsLong c
Computes BinOp.div a b c = (b ≢ pos 0) × (c ≡ quot_ℤ a b) × IsLong c
Computes BinOp.modulo a b c = (b ≢ pos 0) × IsLong (quot_ℤ a b) × (c ≡ rem_ℤ a b)
Computes BinOp.shift_left a b c =
    (pos 0 ≤ℤ a) × InShiftRange b × (c ≡ a *ℤ pos (2 ^ abs_ℤ b)) × IsLong c
Computes BinOp.shift_right a b c =
    InShiftRange b × (c *ℤ pos (2 ^ abs_ℤ b) ≤ℤ a) × (a <ℤ (c +ℤ pos 1) *ℤ pos (2 ^ abs_ℤ b))
Computes BinOp.gt a b c = Decides (b <ℤ a) (a ≤ℤ b) c
Computes BinOp.lt a b c = Decides (a <ℤ b) (b ≤ℤ a) c
Computes BinOp.eq a b c = Decides (a ≡ b) (a ≢ b) c
Computes BinOp.ne a b c = Decides (a ≢ b) (a ≡ b) c
Computes BinOp.ge a b c = Decides (b ≤ℤ a) (a <ℤ b) c
Computes BinOp.le a b c = Decides (a ≤ℤ b) (b <ℤ a) c
Computes BinOp.bit_and a b c = c ≡ long_bitwise bit_and a b
Computes BinOp.bit_xor a b c = c ≡ long_bitwise bit_xor a b
Computes BinOp.bit_or a b c = c ≡ long_bitwise bit_or a b
Computes BinOp.and a b c = (a ≢ pos 0) × Decides (b ≢ pos 0) (b ≡ pos 0) c
Computes BinOp.or a b c = (a ≡ pos 0) × Decides (b ≢ pos 0) (b ≡ pos 0) c
Computes BinOp.comma a b c = c ≡ b

-- The left operand of `and` and `or` can settle the value; the right one then need have none.
abbrev pub ShortCircuits : BinOp → ℤ → ℤ → Type 0
ShortCircuits BinOp.and a c = (a ≡ pos 0) × (c ≡ pos 0)
ShortCircuits BinOp.or a c = (a ≢ pos 0) × (c ≡ pos 1)
ShortCircuits op a c = ⊥

pub data Denotes : Expr → ℤ → Type 0 where
  integer : {p : _} {v : ℤ} → Denotes (Expr.int_lit p v) v
  boolean : {p : _} {b : Bool} {c : ℤ} → c ≡ truth b → Denotes (Expr.bool_lit p b) c
  prefix :
      {p : _} {op : UnaryOp} {e : Expr} {a c : ℤ}
      → Denotes e a
      → ComputesUnary op a c
      → Denotes (Expr.unary p op e) c
  short :
      {p : _} {op : BinOp} {l r : Expr} {a c : ℤ}
      → Denotes l a
      → ShortCircuits op a c
      → Denotes (Expr.binary p op l r) c
  infix_op :
      {p : _} {op : BinOp} {l r : Expr} {a b c : ℤ}
      → Denotes l a
      → Denotes r b
      → Computes op a b c
      → Denotes (Expr.binary p op l r) c
  chosen :
      {p : _} {t e f : Expr} {a c : ℤ}
      → Denotes e a
      → a ≢ pos 0
      → Denotes t c
      → Denotes (Expr.conditional p t e f) c
  rejected :
      {p : _} {t e f : Expr} {a c : ℤ}
      → Denotes e a
      → a ≡ pos 0
      → Denotes f c
      → Denotes (Expr.conditional p t e f) c

-- Every integer literal in the part that integerConstantValue reads is a long, as std::stol gives.
abbrev pub HasLongLiterals : Expr → Type 0
HasLongLiterals (Expr.int_lit p v) = IsLong v
HasLongLiterals (Expr.unary p op e) = HasLongLiterals e
HasLongLiterals (Expr.binary p op l r) = HasLongLiterals l × HasLongLiterals r
HasLongLiterals (Expr.conditional p t e f) =
    HasLongLiterals t × HasLongLiterals e × HasLongLiterals f
HasLongLiterals e = Unit
