-- ===== src/ReturnPath/Exits/Known.antt =====
-- What ReturnPathChecker (src/sema/sema.cpp) asks of a condition, a count, a range and a Switch, against
-- what they mean.
use plainspeak.Prelude.{
  ◌≡◌, ◌≢◌, refl, Bool, true, false, not, Option, none, some, Bool-cases, inl, inr, arith,
}
use plainspeak.Prelude.Int.{ℤ, pos, ltb_ℤ, ◌==ℤ◌, ◌<ℤ◌}
use plainspeak.Ast.{Expr, Stmts, Cases}
use plainspeak.Constants.Meaning.{Denotes, HasLongLiterals}
use plainspeak.Constants.Value.{integer_constant_value, is_const_truthy_expr}
use plainspeak.Constants.Value.Correct.{integer_constant_value_iff}
use plainspeak.ReturnPath.Select.{Selection}
use plainspeak.ReturnPath.Build.{
  has_default, loop_falls_through, repeat_may_be_empty, known_range_is_empty, range_may_be_empty,
}
use plainspeak.ReturnPath.Exits.{
  MayBeFalse, MayBeZero, Passed, MayBeEmpty, OnlyWhen, no_case, when_case,
}

meaning : {e : Expr} (c : ℤ) → HasLongLiterals e → integer_constant_value e ≡ some c → Denotes e c
meaning {e = e} c h q = (integer_constant_value_iff e c h).0 q

is_const_truthy-MayBeFalse : (cond : Expr) → MayBeFalse cond → is_const_truthy_expr cond ≡ false
unfolding is_const_truthy_expr
is_const_truthy-MayBeFalse cond m =
    by_value (integer_constant_value cond) λ c n q. m.never_true c n (meaning c m.long_cond q)
  where
    by_value :
        (o : Option ℤ)
        → ((c : ℤ) → c ≢ pos 0 → ¬ (o ≡ some c))
        → (elim o [ none ↦ false | some v ↦ not (v ==ℤ pos 0) ]) ≡ false
    by_value none h = refl
    by_value (some v) h = elim (Bool-cases (v ==ℤ pos 0)) [
      | inl e ↦ ground (arith, e)
      | inr n ↦ absurd (h v (λ q. ground (arith, n, q)) refl)
    ]

pub loop_falls_through-MayBeFalse :
    (selected : Selection) (cond : Expr) (body : Stmts)
    → MayBeFalse cond
    → loop_falls_through selected cond body ≡ true
unfolding loop_falls_through
loop_falls_through-MayBeFalse selected cond body m =
    ground (arith, is_const_truthy-MayBeFalse cond m)

pub repeat_may_be_empty-MayBeZero :
    (count : Expr) → MayBeZero count → repeat_may_be_empty count ≡ true
unfolding repeat_may_be_empty
repeat_may_be_empty-MayBeZero count m =
    by_value (integer_constant_value count) λ c n q. m.never_positive c n (meaning c m.long_count q)
  where
    by_value :
        (o : Option ℤ)
        → ((c : ℤ) → pos 0 <ℤ c → ¬ (o ≡ some c))
        → (elim o [ none ↦ true | some n ↦ not (ltb_ℤ (pos 0) n) ]) ≡ true
    by_value none h = refl
    by_value (some v) h = elim (Bool-cases (ltb_ℤ (pos 0) v)) [
      | inl e ↦ absurd (h v (ground (arith, e)) refl)
      | inr n ↦ ground (arith, n)
    ]

pub range_may_be_empty-MayBeEmpty :
    (from to : Expr) (descending : Bool)
    → MayBeEmpty descending from to
    → range_may_be_empty from to descending ≡ true
unfolding range_may_be_empty known_range_is_empty
range_may_be_empty-MayBeEmpty from to descending m =
    by_values (integer_constant_value from) (integer_constant_value to) descending
      λ a b q r. m.passed a b (meaning a m.long_from q) (meaning b m.long_to r)
  where
    by_values :
        (o p : Option ℤ) (descending : Bool)
        → ((a b : ℤ) → o ≡ some a → p ≡ some b → Passed descending a b)
        → known_range_is_empty o p descending ≡ true
    by_values none p descending h = refl
    by_values (some a) none descending h = refl
    by_values (some a) (some b) true h = ground (arith, h a b refl refl)
    by_values (some a) (some b) false h = ground (arith, h a b refl refl)

pub has_default-OnlyWhen : {cs : Cases} → OnlyWhen cs → has_default cs ≡ false
unfolding has_default
has_default-OnlyWhen no_case = refl
has_default-OnlyWhen (when_case w) = has_default-OnlyWhen w
