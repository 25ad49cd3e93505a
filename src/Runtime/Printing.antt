-- ===== src/Runtime/Printing.antt =====
-- print_inline, ps_say and ps_say_many of runtime/plainspeak_runtime.c.
use plainspeak.Prelude.{
  ℕ, zero, suc, Bool, true, false, Text, codes, List, [], ◌∷◌, ◌++◌, if◌then◌else◌, Option, none,
  some, take,
}
use plainspeak.Runtime.{
  PsValue, ps_int, ps_double, ps_str, ps_list, Outcome, done, died, undefined, ◌>>=◌, Doubles,
  long_text,
}
use plainspeak.Runtime.Heap.{Heap, load, as_list}
pub mod Depth

-- A print whose nesting is deeper than the fuel is `none`.
abbrev pub Printed : Type 0
Printed = Option (Outcome Text)

abbrev pub then_text : Printed → (Text → Printed) → Printed
then_text none k = none
then_text (some (done t)) k = k t
then_text (some (died m)) k = some (died m)
then_text (some undefined) k = some undefined

abbrev pub text : Text → Printed
text t = some (done t)

module _ {F : Type 0} where
  -- The loop over the values, with the separator before all but the first.
  unfoldable pub print_items : (PsValue F → Printed) → Text → Bool → List (PsValue F) → Printed
  print_items print sep first [] = text []
  print_items print sep first (x ∷ xs) = then_text (print x) λ t.
      then_text (print_items print sep false xs)
        λ rest. text ((if first then [] else sep) ++ (t ++ rest))

module _ {F : Type 0} (d : Doubles F) (h : Heap F) where
  abbrev pub print_list : (PsValue F → Printed) → PsValue F → Printed
  unfolding as_list load print_items
  print_list print v = elim (as_list v >>= λ p. load p h) [
    | done l ↦
        then_text (print_items print (codes ", ") true (take l.len l.items))
          λ t. text (codes "[" ++ (t ++ codes "]"))
    | died m ↦ some (died m)
    | undefined ↦ some undefined
  ]

  unfoldable pub print_inline : ℕ → PsValue F → Printed
  unfolding as_list load print_items long_text
  print_inline zero v = none
  print_inline (suc n) (ps_int i) = text (long_text i)
  print_inline (suc n) (ps_double x) = text (d.show x)
  print_inline (suc n) (ps_str s) = text s
  print_inline (suc n) (ps_list p) = print_list (λ v. print_inline n v) (ps_list p)

  unfoldable pub ps_say : ℕ → PsValue F → Printed
  unfolding print_inline
  ps_say n v = then_text (print_inline n v) λ t. text (t ++ (10 ∷ []))

  unfoldable pub ps_say_many : ℕ → List (PsValue F) → Printed
  unfolding print_inline print_items
  ps_say_many n items =
      then_text (print_items (λ v. print_inline n v) (codes " ") true items)
        λ t. text (t ++ (10 ∷ []))
