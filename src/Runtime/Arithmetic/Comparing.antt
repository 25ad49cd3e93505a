-- ===== src/Runtime/Arithmetic/Comparing.antt =====
-- The comparisons of runtime/plainspeak_runtime.c, which go through double, on longs.
use plainspeak.Prelude.{◌≡◌, Bool, true, false, ◌&&◌, some, arith}
use plainspeak.Prelude.Int.{ℤ, pos, negsuc, leb_ℤ, ltb_ℤ, ◌==ℤ◌}
use plainspeak.Ast.{BinOp}
use plainspeak.Constants.Value.{binary_value}
use plainspeak.Runtime.{ps_int, done, Doubles, as_double, type_error}
use plainspeak.Runtime.Heap.{Heap, Allocator}
use plainspeak.Runtime.Arithmetic.{boxed_binary, ps_eq, ps_ne, ps_gt, ps_lt, ps_ge, ps_le}

-- The longs of magnitude at most 2^53, which a double holds exactly.
abbrev pub IsExact : ℤ → Type 0
IsExact z = (leb_ℤ z (pos 9007199254740992) && leb_ℤ (negsuc 9007199254740991) z) ≡ true

-- A double compares the integers that it holds exactly as integers.
pub record ComparesExactly {F : Type 0} (d : Doubles F) : Type 0 where
  pub lt_exact : (a b : ℤ) → IsExact a → IsExact b → d.lt (d.of_long a) (d.of_long b) ≡ ltb_ℤ a b
  pub le_exact : (a b : ℤ) → IsExact a → IsExact b → d.le (d.of_long a) (d.of_long b) ≡ leb_ℤ a b
  pub eq_exact : (a b : ℤ) → IsExact a → IsExact b → d.eq (d.of_long a) (d.of_long b) ≡ (a ==ℤ b)

abbrev pub is_comparison : BinOp → Bool
is_comparison BinOp.gt = true
is_comparison BinOp.lt = true
is_comparison BinOp.eq = true
is_comparison BinOp.ne = true
is_comparison BinOp.ge = true
is_comparison BinOp.le = true
is_comparison op = false

module _ {F : Type 0} (d : Doubles F) (exact : ComparesExactly d) (grants : Allocator) where
  -- A comparison of two longs of magnitude at most 2^53 returns what folding it on two constants
  -- gives, where doubles compare the integers that they hold exactly as integers.
  pub comparison-binary_value :
      (op : BinOp) (a b : ℤ) (h : Heap F)
      → IsExact a
      → IsExact b
      → is_comparison op ≡ true
      → (c : ℤ) → binary_value op a b ≡ some c
      → boxed_binary d grants op (ps_int a) (ps_int b) h ≡ done (ps_int c, h)
  unfolding boxed_binary ps_eq ps_ne ps_gt ps_lt ps_ge ps_le as_double type_error binary_value
  comparison-binary_value BinOp.gt a b h ha hb e c v = ground (arith, exact.lt_exact b a hb ha)
  comparison-binary_value BinOp.lt a b h ha hb e c v = ground (arith, exact.lt_exact a b ha hb)
  comparison-binary_value BinOp.eq a b h ha hb e c v = ground (arith, exact.eq_exact a b ha hb)
  comparison-binary_value BinOp.ne a b h ha hb e c v = ground (arith, exact.eq_exact a b ha hb)
  comparison-binary_value BinOp.ge a b h ha hb e c v = ground (arith, exact.le_exact b a hb ha)
  comparison-binary_value BinOp.le a b h ha hb e c v = ground (arith, exact.le_exact a b ha hb)
  comparison-binary_value op a b h ha hb e c v = cc
