-- ===== src/Runtime/Arithmetic.antt =====
-- The arithmetic, logic and comparisons of runtime/plainspeak_runtime.c, and the choice of one by
-- src/codegen/c_emitter.cpp. Signed overflow is undefined in C, and so in the model.
use plainspeak.Prelude.{
  ℕ, suc, Bool, true, false, not, ◌&&◌, ◌||◌, Text, codes, List, [], ◌∷◌, ◌++◌, if◌then◌else◌,
  length, Option, none, some, ◌==◌, text_eq, ◌+◌,
}
use plainspeak.Prelude.Int.{ℤ, pos, negsuc, ◌+ℤ◌, ◌-ℤ◌, ◌*ℤ◌, neg_ℤ, quot_ℤ, rem_ℤ, abs_ℤ, ◌==ℤ◌}
use plainspeak.Ast.{BinOp}
use plainspeak.Constants.Long.{in_long}
use plainspeak.Constants.Value.{truth}
use plainspeak.Runtime.{
  PsValue, ps_int, ps_double, ps_str, ps_list, Outcome, done, died, undefined, ◌>>=◌, Doubles,
  long_text, type_name, type_error, as_double,
}
use plainspeak.Runtime.Heap.{Heap, Allocator, allocate, load, as_list}
pub mod Folding
pub mod Faults
pub mod Comparing

-- / and % of C on longs are undefined for a divisor of 0 and where no long holds the quotient.
abbrev pub undefined_quotient : ℤ → ℤ → Bool
undefined_quotient i j = (j ==ℤ pos 0) || not (in_long (quot_ℤ i j))

module _ {F : Type 0} where
  -- ps_int of an operation on longs
  abbrev pub long_result : ℤ → Outcome (PsValue F)
  long_result z = if in_long z then done (ps_int z) else undefined

  abbrev pub long_quotient : ℤ → ℤ → Outcome (PsValue F)
  long_quotient i j = if undefined_quotient i j then undefined else done (ps_int (quot_ℤ i j))

  abbrev pub long_remainder : ℤ → ℤ → Outcome (PsValue F)
  long_remainder i j = if undefined_quotient i j then undefined else done (ps_int (rem_ℤ i j))

  abbrev pub flag : Bool → Outcome (PsValue F)
  flag b = done (ps_int (truth b))

  abbrev pub with_heap : Heap F → Outcome (PsValue F) → Outcome (PsValue F × Heap F)
  with_heap h o = o >>= λ v. done (v, h)

  abbrev pub is_number : PsValue F → Bool
  is_number (ps_int i) = true
  is_number (ps_double x) = true
  is_number (ps_str s) = false
  is_number (ps_list p) = false

module _ {F : Type 0} (d : Doubles F) where
  -- Two numbers as doubles; or the error of the operation's name.
  abbrev pub on_doubles :
      Text → (F → F → Outcome (PsValue F)) → PsValue F → PsValue F → Outcome (PsValue F)
  unfolding type_error as_double
  on_doubles op f a b =
      if is_number a && is_number b
      then (as_double d a >>= λ x. as_double d b >>= λ y. f x y)
      else type_error op a b

  unfoldable pub ps_sub : PsValue F → PsValue F → Outcome (PsValue F)
  unfolding type_error as_double
  ps_sub (ps_int i) (ps_int j) = long_result (i -ℤ j)
  ps_sub a b = on_doubles (codes "subtract") (λ x y. done (ps_double (d.sub x y))) a b

  unfoldable pub ps_mul : PsValue F → PsValue F → Outcome (PsValue F)
  unfolding type_error as_double
  ps_mul (ps_int i) (ps_int j) = long_result (i *ℤ j)
  ps_mul a b = on_doubles (codes "multiply") (λ x y. done (ps_double (d.mul x y))) a b

  unfoldable pub ps_div : PsValue F → PsValue F → Outcome (PsValue F)
  unfolding type_error as_double
  ps_div (ps_int i) (ps_int j) =
      if j ==ℤ pos 0 then died (codes "division by zero") else long_quotient i j
  ps_div a b =
      on_doubles (codes "divide")
        (λ x y.
          if d.eq y (d.of_long (pos 0))
          then died (codes "division by zero")
          else done (ps_double (d.div x y)))
        a b

  unfoldable pub ps_mod : PsValue F → PsValue F → Outcome (PsValue F)
  unfolding type_error as_double
  ps_mod (ps_int i) (ps_int j) =
      if j ==ℤ pos 0 then died (codes "modulo by zero") else long_remainder i j
  ps_mod a b =
      on_doubles (codes "modulo")
        (λ x y.
          if d.eq y (d.of_long (pos 0))
          then died (codes "modulo by zero")
          else done (ps_double (d.fmod x y)))
        a b

  unfoldable pub ps_neg : PsValue F → Outcome (PsValue F)
  ps_neg (ps_int i) = long_result (neg_ℤ i)
  ps_neg (ps_double x) = done (ps_double (d.neg x))
  ps_neg (ps_str s) = died (codes "cannot negate a non-number")
  ps_neg (ps_list p) = died (codes "cannot negate a non-number")

  unfoldable pub ps_truthy : PsValue F → Heap F → Outcome Bool
  unfolding load as_list
  ps_truthy (ps_int i) h = done (not (i ==ℤ pos 0))
  ps_truthy (ps_double x) h = done (not (d.eq x (d.of_long (pos 0))))
  ps_truthy (ps_str []) h = done false
  ps_truthy (ps_str (c ∷ s)) h = done true
  ps_truthy (ps_list p) h = do
    q ← as_list {F = F} (ps_list p)
    l ← load q h
    done (not (l.len == 0))

  -- && and || evaluate the right operand where the left one does not settle the result.
  unfoldable pub ps_and : PsValue F → PsValue F → Heap F → Outcome (PsValue F)
  unfolding type_error ps_truthy
  ps_and (ps_int i) (ps_int j) h = do
    x ← ps_truthy (ps_int i) h
    y ← ps_truthy (ps_int j) h
    flag (x && y)
  ps_and a b h = type_error (codes "and") a b

  unfoldable pub ps_or : PsValue F → PsValue F → Heap F → Outcome (PsValue F)
  unfolding type_error ps_truthy
  ps_or (ps_int i) (ps_int j) h = do
    x ← ps_truthy (ps_int i) h
    y ← ps_truthy (ps_int j) h
    flag (x || y)
  ps_or a b h = type_error (codes "or") a b

  unfoldable pub ps_not : PsValue F → Heap F → Outcome (PsValue F)
  unfolding ps_truthy
  ps_not (ps_int i) h = do x ← ps_truthy (ps_int i) h; flag (not x)
  ps_not a h = died (codes "expected a number for not")

  abbrev pub compared : (F → F → Bool) → PsValue F → PsValue F → Outcome (PsValue F)
  unfolding type_error as_double
  compared test a b = on_doubles (codes "compare") (λ x y. flag (test x y)) a b

  unfoldable pub ps_gt : PsValue F → PsValue F → Outcome (PsValue F)
  unfolding type_error as_double
  ps_gt a b = compared (λ x y. d.lt y x) a b

  unfoldable pub ps_lt : PsValue F → PsValue F → Outcome (PsValue F)
  unfolding type_error as_double
  ps_lt a b = compared d.lt a b

  unfoldable pub ps_ge : PsValue F → PsValue F → Outcome (PsValue F)
  unfolding type_error as_double
  ps_ge a b = compared (λ x y. d.le y x) a b

  unfoldable pub ps_le : PsValue F → PsValue F → Outcome (PsValue F)
  unfolding type_error as_double
  ps_le a b = compared d.le a b

  unfoldable pub ps_eq : PsValue F → PsValue F → Outcome (PsValue F)
  unfolding type_error as_double
  ps_eq (ps_str s) (ps_str t) = flag (text_eq s t)
  ps_eq a b = compared d.eq a b

  -- The result of ps_eq is read as an int, whichever it is.
  unfoldable pub ps_ne : PsValue F → PsValue F → Outcome (PsValue F)
  unfolding ps_eq
  ps_ne a b = ps_eq a b >>= negated
    where
      negated : PsValue F → Outcome (PsValue F)
      negated (ps_int i) = flag (i ==ℤ pos 0)
      negated (ps_double x) = undefined
      negated (ps_str s) = undefined
      negated (ps_list p) = undefined

  unfoldable pub ps_pow : PsValue F → PsValue F → Outcome (PsValue F)
  unfolding as_double
  ps_pow a b =
      if is_number a && is_number b
      then (as_double d a >>= λ x. as_double d b >>= λ y. done (ps_double (d.pow x y)))
      else died (codes "cannot compute power of a non-number")

  -- ps_sin, ps_cos, ps_tan, ps_sqrt and ps_log pass the function of math.h.
  unfoldable pub unary_math : PsValue F → (F → F) → Outcome (PsValue F)
  unfolding as_double
  unary_math v fn =
      if is_number v
      then (as_double d v >>= λ x. done (ps_double (fn x)))
      else died (codes "expected a number for a math function")

  -- labs is undefined where the result does not fit.
  unfoldable pub ps_abs : PsValue F → Outcome (PsValue F)
  ps_abs (ps_int i) = long_result (pos (abs_ℤ i))
  ps_abs (ps_double x) = done (ps_double (d.fabs x))
  ps_abs v = died (codes "expected a number for absolute value")

  unfoldable pub ps_floor : PsValue F → Outcome (PsValue F)
  ps_floor (ps_int i) = done (ps_int i)
  ps_floor (ps_double x) = done (ps_double (d.floor x))
  ps_floor v = died (codes "expected a number for floor")

  unfoldable pub ps_ceil : PsValue F → Outcome (PsValue F)
  ps_ceil (ps_int i) = done (ps_int i)
  ps_ceil (ps_double x) = done (ps_double (d.ceil x))
  ps_ceil v = died (codes "expected a number for ceiling")

  unfoldable pub ps_as_int : PsValue F → Outcome ℤ
  ps_as_int (ps_int i) = done i
  ps_as_int (ps_double x) = d.to_long x
  ps_as_int v = died (codes "expected a number")

  unfoldable pub ps_strlen : PsValue F → Outcome ℕ
  ps_strlen (ps_str s) = done (length s)
  ps_strlen v = died (codes "expected a string for length")

  -- What ps_add joins: a string, or the digits of a number.
  unfoldable pub joined_text : PsValue F → Option Text
  unfolding long_text
  joined_text (ps_str s) = some s
  joined_text (ps_int i) = some (long_text i)
  joined_text (ps_double x) = some (d.show x)
  joined_text (ps_list p) = none

  abbrev pub is_string : PsValue F → Bool
  is_string (ps_str s) = true
  is_string v = false

  module _ (grants : Allocator) where
    unfoldable pub joined : PsValue F → PsValue F → Heap F → Outcome (PsValue F × Heap F)
    unfolding type_error joined_text allocate
    joined a b h = elim (joined_text a) [
      | none ↦ type_error (codes "add") a b
      | some left ↦ elim (joined_text b) [
        | none ↦ type_error (codes "add") a b
        | some right ↦ allocate grants (suc (length left + length right)) h >>= λ h'.
            done (ps_str (left ++ right), h')
      ]
    ]

    unfoldable pub ps_add : PsValue F → PsValue F → Heap F → Outcome (PsValue F × Heap F)
    unfolding type_error as_double joined
    ps_add (ps_int i) (ps_int j) h = long_result (i +ℤ j) >>= λ v. done (v, h)
    ps_add a b h =
        let sum = as_double d a >>= λ x. as_double d b >>= λ y. done (ps_double (d.add x y), h) in
        if is_number a && is_number b
        then sum
        else if is_string a || is_string b
        then joined a b h
        else type_error (codes "add") a b

    -- The function that the emitter names for the operator of two boxed operands.
    unfoldable pub boxed_binary :
        BinOp → PsValue F → PsValue F → Heap F → Outcome (PsValue F × Heap F)
    unfolding ps_add ps_sub ps_mul ps_div ps_mod ps_gt ps_lt ps_eq ps_ne ps_ge ps_le ps_and ps_or
    boxed_binary BinOp.add a b h = ps_add a b h
    boxed_binary BinOp.sub a b h = with_heap h (ps_sub a b)
    boxed_binary BinOp.mul a b h = with_heap h (ps_mul a b)
    boxed_binary BinOp.div a b h = with_heap h (ps_div a b)
    boxed_binary BinOp.modulo a b h = with_heap h (ps_mod a b)
    boxed_binary BinOp.gt a b h = with_heap h (ps_gt a b)
    boxed_binary BinOp.lt a b h = with_heap h (ps_lt a b)
    boxed_binary BinOp.eq a b h = with_heap h (ps_eq a b)
    boxed_binary BinOp.ne a b h = with_heap h (ps_ne a b)
    boxed_binary BinOp.ge a b h = with_heap h (ps_ge a b)
    boxed_binary BinOp.le a b h = with_heap h (ps_le a b)
    boxed_binary BinOp.and a b h = with_heap h (ps_and a b h)
    boxed_binary op a b h = with_heap h (ps_or a b h)
