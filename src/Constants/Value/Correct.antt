-- ===== src/Constants/Value/Correct.antt =====
-- integerConstantValue (src/sema/sema.cpp) gives a value exactly to the expressions that have a
-- meaning, and that meaning.
use plainspeak.Prelude.{
  ◌≡◌, ◌⊎◌, ◌↔◌, inl, inr, true, false, Option, some, none, arith, refl, ap, sym, ◌>>=◌,
  >>=-eq-some, Bool-cases, if◌then◌else◌,
}
use plainspeak.Prelude.Int.{ℤ, pos, ◌==ℤ◌, eq_of_parts}
use plainspeak.Ast.{Expr, BinOp}
use plainspeak.Constants.Long.{IsLong}
use plainspeak.Constants.Value.{
  truth, short_circuit, unary_value, binary_value, integer_constant_value, or_else,
}
use plainspeak.Constants.Value.Operators.{unary_value_iff, binary_value_iff}
use plainspeak.Constants.Value.Range.{Computes-IsLong, ComputesUnary-IsLong}
use plainspeak.Constants.Meaning.{
  Denotes, HasLongLiterals, ShortCircuits, integer, boolean, prefix, short, infix_op, chosen,
  rejected,
}

short_circuit_iff : (op : BinOp) (a c : ℤ) → (short_circuit op a ≡ some c) ↔ ShortCircuits op a c
unfolding short_circuit
short_circuit_iff BinOp.and a c = ground (arith, eq_of_parts a (pos 0))
short_circuit_iff BinOp.or a c = ground (arith, eq_of_parts a (pos 0))
short_circuit_iff op a c = ground arith

ShortCircuits-IsLong : (op : BinOp) (a c : ℤ) → ShortCircuits op a c → IsLong c
ShortCircuits-IsLong BinOp.and a c h = ground arith
ShortCircuits-IsLong BinOp.or a c h = ground arith
ShortCircuits-IsLong op a c h = absurd h

or_else-eq-some :
    (o other : Option ℤ) (c : ℤ)
    → or_else o other ≡ some c
    → (o ≡ some c) ⊎ ((o ≡ none) × (other ≡ some c))
or_else-eq-some none other c h = inr (refl, h)
or_else-eq-some (some a) other c h = inl h

==ℤ_iff : (a : ℤ) → ((a ==ℤ pos 0) ≡ true) ↔ (a ≡ pos 0)
==ℤ_iff a = ground (arith, eq_of_parts a (pos 0))

-- What is left of a binary expression once its left operand has the value a.
abbrev right_of : BinOp → ℤ → Expr → Option ℤ
right_of op a r = integer_constant_value r >>= λ b. binary_value op a b

abbrev either_of : Expr → Expr → ℤ → Option ℤ
either_of t f a = if a ==ℤ pos 0 then integer_constant_value f else integer_constant_value t

sound :
    (e : Expr) (c : ℤ)
    → HasLongLiterals e
    → integer_constant_value e ≡ some c
    → Denotes e c × IsLong c
unfolding integer_constant_value
sound (Expr.int_lit p v) c h q = let e : v ≡ c = cc in rw (← e) (integer, h)
sound (Expr.bool_lit p b) c h q = let e : truth b ≡ c = cc in rw (← e) (boolean refl, ground arith)
sound (Expr.unary p op e) c h q =
    let (a, qa, qc) = >>=-eq-some (integer_constant_value e) (unary_value op) q in
    let (d, la) = sound e a h qa in
    let m = (unary_value_iff op a c la).0 qc in (prefix d m, ComputesUnary-IsLong op a c la m)
sound (Expr.binary p op l r) c h q =
    let (a, qa, qc) =
      >>=-eq-some (integer_constant_value l) (λ a. or_else (short_circuit op a) (right_of op a r))
        q in
    let (d, la) = sound l a h.0 qa in
    elim (or_else-eq-some (short_circuit op a) (right_of op a r) c qc) [
      | inl s ↦ let m = (short_circuit_iff op a c).0 s in (short d m, ShortCircuits-IsLong op a c m)
      | inr (n, qr) ↦
          let (b, qb, qv) = >>=-eq-some (integer_constant_value r) (binary_value op a) qr in
          let (d', lb) = sound r b h.1 qb in
          let m = (binary_value_iff op a b c la lb).0 (n, qv) in
          (infix_op d d' m, Computes-IsLong op a b c la lb m)
    ]
sound (Expr.conditional p t e f) c h q =
    let (a, qa, qc) = >>=-eq-some (integer_constant_value e) (either_of t f) q in
    let (d, la) = sound e a h.1 qa in
    elim (Bool-cases (a ==ℤ pos 0)) [
      | inl zero_test ↦
          let (d', lc) = sound f c h.2 (rw zero_test at qc) in
          (rejected d ((==ℤ_iff a).0 zero_test) d', lc)
      | inr other ↦
          let (d', lc) = sound t c h.0 (rw other at qc) in
          (chosen d (ground (arith, ==ℤ_iff a)) d', lc)
    ]
sound _ c h q = cc

complete :
    {e : Expr} {c : ℤ}
    → Denotes e c
    → HasLongLiterals e
    → (integer_constant_value e ≡ some c) × IsLong c
unfolding integer_constant_value
complete integer h = (refl, h)
complete (boolean q) h = (ap some (sym q), ground arith)
complete (prefix {op} {a} {c} d m) h =
    let (qa, la) = complete d h in
    (rw qa ((unary_value_iff op a c la).1 m), ComputesUnary-IsLong op a c la m)
complete (short {op} {a} {c} d m) h =
    let (qa, la) = complete d h.0 in
    let s = (short_circuit_iff op a c).1 m in (rw (qa, s) refl, ShortCircuits-IsLong op a c m)
complete (infix_op {op} {a} {b} {c} d d' m) h =
    let (qa, la) = complete d h.0 in
    let (qb, lb) = complete d' h.1 in
    let (n, v) = (binary_value_iff op a b c la lb).1 m in
    (rw (qa, n, qb) v, Computes-IsLong op a b c la lb m)
complete (chosen {a} d ne d') h =
    let (qa, la) = complete d h.1 in
    let (qc, lc) = complete d' h.0 in
    let test : (a ==ℤ pos 0) ≡ false = ground (arith, ==ℤ_iff a) in (rw (qa, test) qc, lc)
complete (rejected {a} d z d') h =
    let (qa, la) = complete d h.1 in
    let (qc, lc) = complete d' h.2 in (rw (qa, (==ℤ_iff a).1 z) qc, lc)

-- For an expression whose integer literals are longs, integerConstantValue returns c exactly when
-- the expression means c by the rules of `Denotes`; it returns nullopt for every other expression.
pub integer_constant_value_iff :
    (e : Expr) (c : ℤ) → HasLongLiterals e → (integer_constant_value e ≡ some c) ↔ Denotes e c
integer_constant_value_iff e c h = (λ q. (sound e c h q).0, λ d. (complete d h).0)
