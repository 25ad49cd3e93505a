-- ===== src/Runtime.antt =====
-- The values and outcomes of runtime/plainspeak_runtime.c, with runtime/plainspeak_runtime.h.
use plainspeak.Prelude.{
  ℕ, zero, suc, ◌+◌, ◌*◌, ◌/◌, ◌%◌, Bool, Text, codes, List, [], ◌∷◌, ◌++◌, if◌then◌else◌, ltb,
}
use plainspeak.Prelude.Int.{ℤ, pos, negsuc}
pub mod Heap
pub mod Arithmetic
pub mod Printing

-- A PsList *: NULL, or the place of a block in the heap. The runtime frees none.
pub data Pointer : Type 0 where
  null : Pointer
  at : ℕ → Pointer

-- PsValue, with a constructor for each PsType. `F` is the type double.
pub data PsValue (F : Type 0) : Type 0 where
  ps_int : ℤ → PsValue F
  ps_double : F → PsValue F
  ps_str : Text → PsValue F
  ps_list : Pointer → PsValue F

-- What a call comes to: it returns, it exits with a message, or its behaviour is undefined in C.
pub data Outcome (A : Type 0) : Type 0 where
  done : A → Outcome A
  died : Text → Outcome A
  undefined : Outcome A

infixl 5 ◌>>=◌
abbrev pub ◌>>=◌ : {A B : Type 0} → Outcome A → (A → Outcome B) → Outcome B
done a >>= f = f a
died m >>= f = died m
undefined >>= f = undefined

-- What the code uses of double. A conversion to long is undefined outside the range of long.
pub record Doubles (F : Type 0) : Type 0 where
  pub of_long : ℤ → F
  pub to_long : F → Outcome ℤ
  pub add : F → F → F
  pub sub : F → F → F
  pub mul : F → F → F
  pub div : F → F → F
  pub fmod : F → F → F
  pub pow : F → F → F
  pub neg : F → F
  pub fabs : F → F
  pub floor : F → F
  pub ceil : F → F
  pub lt : F → F → Bool
  pub le : F → F → Bool
  pub eq : F → F → Bool
  -- printf's %g
  pub show : F → Text

-- printf's %zu
unfoldable pub decimal_digits : ℕ → ℕ → Text → Text
decimal_digits zero n acc = acc
decimal_digits (suc fuel) n acc =
    let more = decimal_digits fuel (n / 10) ((48 + n % 10) ∷ acc) in
    if ltb n 10 then (48 + n) ∷ acc else more

unfoldable pub decimal : ℕ → Text
unfolding decimal_digits
decimal n = decimal_digits (suc n) n []

-- printf's %ld
unfoldable pub long_text : ℤ → Text
unfolding decimal
long_text (pos n) = decimal n
long_text (negsuc n) = codes "-" ++ decimal (suc n)

abbrev pub out_of_memory : Text
out_of_memory = codes "out of memory"

module _ {F : Type 0} where
  unfoldable pub type_name : PsValue F → Text
  type_name (ps_int i) = codes "number"
  type_name (ps_double d) = codes "decimal"
  type_name (ps_str s) = codes "string"
  type_name (ps_list p) = codes "list"

  unfoldable pub type_error : {A : Type 0} → Text → PsValue F → PsValue F → Outcome A
  unfolding type_name
  type_error op a b =
      died (codes "cannot " ++ op ++ codes " a " ++ type_name a ++ codes " and a " ++ type_name b)

  unfoldable pub as_double : Doubles F → PsValue F → Outcome F
  as_double d (ps_int i) = done (d.of_long i)
  as_double d (ps_double x) = done x
  as_double d (ps_str s) = died (codes "expected a number")
  as_double d (ps_list p) = died (codes "expected a number")
