-- ===== src/Tests/Runtime.antt =====
-- Runs of runtime/plainspeak_runtime.c, and the theorems about it at concrete inputs.
use plainspeak.Prelude.{
  Text, ℕ, suc, ◌≡◌, ◌⊎◌, ◌↔◌, refl, codes, List, [], ◌∷◌, some, arith, ltb, leb, ◌&&◌, ◌≤◌,
  get_elem?, In, take, zero,
}
use plainspeak.Prelude.Int.{
  ℤ, pos, negsuc, ◌+ℤ◌, ◌-ℤ◌, ◌*ℤ◌, quot_ℤ, rem_ℤ, neg_ℤ, abs_ℤ, ltb_ℤ, leb_ℤ, ◌==ℤ◌,
}
use plainspeak.Ast.{BinOp}
use plainspeak.Constants.Value.{binary_value}
use plainspeak.Runtime.{
  at, PsValue, ps_int, ps_double, ps_str, ps_list, done, died, undefined, Doubles, out_of_memory,
  long_text, decimal, decimal_digits,
}
use plainspeak.Runtime.Heap.{Heap, PsList, Allocator, range_error}
use plainspeak.Runtime.Heap.Shared.{ListCall, make, copy, append, get, put_at, remove}
use plainspeak.Runtime.Heap.Refines.{WellFormedHeap, Bounded}
use plainspeak.Runtime.Heap.Sequences.{run, expected_run, observe, run-expected_run}
use plainspeak.Runtime.Arithmetic.{boxed_binary}
use plainspeak.Runtime.Arithmetic.Folding.{folded, boxed_binary-folded}
use plainspeak.Runtime.Arithmetic.Faults.{Overflows, boxed_binary-Overflows}
use plainspeak.Runtime.Arithmetic.Comparing.{ComparesExactly, comparison-binary_value}
use plainspeak.Runtime.Printing.{print_inline}
use plainspeak.Runtime.Printing.Depth.{Prints, Allocated, Ranked, depth, Shows, print_inline-Shows}

-- Doubles that hold whole numbers only.
abbrev whole_doubles : Doubles ℤ
whole_doubles = record {
  of_long = λ z. z;
  to_long = done;
  add = λ a b. a +ℤ b;
  sub = λ a b. a -ℤ b;
  mul = λ a b. a *ℤ b;
  div = quot_ℤ;
  fmod = rem_ℤ;
  pow = λ a b. a;
  neg = neg_ℤ;
  fabs = λ a. pos (abs_ℤ a);
  floor = λ a. a;
  ceil = λ a. a;
  lt = λ a b. ltb_ℤ a b;
  le = λ a b. leb_ℤ a b;
  eq = λ a b. a ==ℤ b;
  show = long_text;
}

whole_doubles-ComparesExactly : ComparesExactly whole_doubles
whole_doubles-ComparesExactly = record {
  lt_exact = λ a b ha hb. refl;
  le_exact = λ a b ha hb. refl;
  eq_exact = λ a b ha hb. refl;
}

-- Three requests of at most a thousand bytes are granted.
abbrev small_memory : Allocator
small_memory n bytes = ltb n 7 && leb bytes 1000

small_memory-Bounded : Bounded small_memory
small_memory-Bounded = record { bound = λ n bytes e. ground arith }

abbrev empty_heap : Heap ℤ
empty_heap = record { lists = []; requests = 0 }

empty_heap-WellFormed : WellFormedHeap empty_heap
empty_heap-WellFormed = record { each = λ p l e. cc }

abbrev first : PsValue ℤ
first = ps_list (at 0)

-- A list is made and copied; the copy keeps what the original loses, and grows past four.
abbrev shopping : List (ListCall ℤ)
shopping =
    make (ps_int (pos 7) ∷ ps_str (codes "tea") ∷ ps_double (pos 2) ∷ ps_int (pos 9) ∷ [])
    ∷ copy first
    ∷ remove first (ps_int (pos 2))
    ∷ append (ps_list (at 1)) (ps_int (pos 5))
    ∷ put_at first (ps_int (pos 3)) (ps_str (codes "milk"))
    ∷ get (ps_list (at 1)) (ps_int (pos 2))
    ∷ get first (ps_int (pos 4))
    ∷ []

shopping-run : observe (run small_memory shopping empty_heap) ≡ expected_run shopping []
unfolding run observe expected_run
shopping-run = refl

shopping_error : expected_run shopping [] ≡ died (codes "list position 4 is out of range 1..3")
unfolding expected_run range_error long_text decimal decimal_digits
shopping_error = refl

run-expected_run_example :
    (run small_memory shopping empty_heap ≡ died out_of_memory)
    ⊎ (observe (run small_memory shopping empty_heap) ≡ expected_run shopping [])
run-expected_run_example =
    run-expected_run small_memory small_memory-Bounded shopping empty_heap empty_heap-WellFormed
      (omega arith, (tt, (tt, (tt, (tt, (tt, (tt, tt)))))))

boxed_binary-folded_example :
    (boxed_binary whole_doubles small_memory BinOp.div
        (ps_int (negsuc 6))
        (ps_int (pos 2))
        empty_heap
      ≡ done (ps_int (negsuc 2), empty_heap))
    ↔ (folded BinOp.div (negsuc 6) (pos 2) ≡ some (negsuc 2))
boxed_binary-folded_example =
    boxed_binary-folded whole_doubles small_memory BinOp.div (negsuc 6) (pos 2) empty_heap
      (omega arith, omega arith) (omega arith, omega arith) refl (negsuc 2)

boxed_binary-Overflows_example :
    (boxed_binary whole_doubles small_memory BinOp.div
        (ps_int (negsuc 9223372036854775807))
        (ps_int (negsuc 0))
        empty_heap
      ≡ undefined)
    ↔ Overflows {F = ℤ} BinOp.div (ps_int (negsuc 9223372036854775807)) (ps_int (negsuc 0))
boxed_binary-Overflows_example =
    boxed_binary-Overflows whole_doubles small_memory empty_heap BinOp.div
      (ps_int (negsuc 9223372036854775807)) (ps_int (negsuc 0)) (omega arith, omega arith)
      (omega arith, omega arith)

-- The least long divided by -1 passes the test for zero.
least_long_divided :
    boxed_binary whole_doubles small_memory BinOp.div
      (ps_int (negsuc 9223372036854775807))
      (ps_int (negsuc 0))
      empty_heap
    ≡ undefined
unfolding boxed_binary quot_ℤ
least_long_divided = refl

comparison-binary_value_example :
    boxed_binary whole_doubles small_memory BinOp.lt (ps_int (negsuc 0)) (ps_int (pos 3)) empty_heap
    ≡ done (ps_int (pos 1), empty_heap)
comparison-binary_value_example =
    comparison-binary_value whole_doubles whole_doubles-ComparesExactly small_memory BinOp.lt
      (negsuc 0) (pos 3) empty_heap refl refl refl (pos 1) (unfold binary_value in refl)

-- A list within a list.
abbrev nested_heap : Heap ℤ
nested_heap = record {
  lists =
      record { items = ps_int (pos 1) ∷ ps_int (negsuc 1) ∷ []; len = 2; capacity = 4; block = 64 }
      ∷ record { items = first ∷ ps_str (codes "a") ∷ []; len = 2; capacity = 4; block = 64 }
      ∷ [];
  requests = 4;
}

nested_text :
    print_inline whole_doubles nested_heap 3 (ps_list (at 1)) ≡ some (done (codes "[[1, -2], a]"))
unfolding print_inline long_text decimal decimal_digits
nested_text = refl

nested_heap-Ranked : Ranked (λ p. p) nested_heap
nested_heap-Ranked = record { falls = λ p l e v i. falls p l e v i }
  where
    falls :
        (p : ℕ) (l : PsList ℤ)
        → get_elem? nested_heap.lists p ≡ some l
        → (v : PsValue ℤ) → In v (take l.len l.items)
        → (depth (λ p. p) v ≤ p) × Allocated nested_heap v
    falls zero l e v i = ground arith
    falls (suc zero) l e v i =
        let inner : Allocated nested_heap first = (_, refl) in ground (arith, inner)
    falls (suc (suc p)) l e v i = cc

print_inline-Shows_example :
    (t : Text) × Prints (print_inline whole_doubles nested_heap 3 (ps_list (at 1))) t
    × Shows whole_doubles nested_heap (ps_list (at 1)) t
print_inline-Shows_example =
    print_inline-Shows whole_doubles nested_heap (λ p. p) nested_heap-Ranked 3 (ps_list (at 1))
      (_, refl) (omega arith)
