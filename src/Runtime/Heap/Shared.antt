-- ===== src/Runtime/Heap/Shared.antt =====
-- The lists of runtime/plainspeak_runtime.c as lists of values that are shared by reference.
use plainspeak.Prelude.{
  ℕ, ◌-◌, ◌^◌, ◌<◌, ◌||◌, codes, List, [], ◌∷◌, ◌++◌, map, if◌then◌else◌, ltb, length, take, set,
  Option, none, some, get_elem?,
}
use plainspeak.Prelude.Int.{pos, pos_part, ltb_ℤ}
use plainspeak.Runtime.{
  at, PsValue, ps_int, ps_double, ps_str, ps_list, Outcome, done, died, undefined, ◌>>=◌,
}
use plainspeak.Runtime.Heap.{
  PsList, Heap, Allocator, as_list, range_error, ps_list_get, ps_list_set, ps_list_remove,
  ps_list_from, ps_list_copy, ps_list_append,
}
use plainspeak.Runtime.Heap.Contents.{remove_at}

-- The lists in the order of their allocation.
abbrev pub View : Type 0 → Type 0
View F = List (List (PsValue F))

module _ {F : Type 0} where
  -- What a list holds.
  abbrev pub contents : PsList F → List (PsValue F)
  contents l = take l.len l.items

  abbrev pub view : Heap F → View F
  view h = map contents h.lists

  -- Positions count from 1.
  unfoldable pub place : List (PsValue F) → PsValue F → Outcome ℕ
  place xs (ps_int i) =
      if ltb_ℤ i (pos 1) || ltb (length xs) (pos_part i)
      then died (range_error i (length xs))
      else done (pos_part i - 1)
  place xs (ps_double d) = died (codes "list position must be a whole number")
  place xs (ps_str s) = died (codes "list position must be a whole number")
  place xs (ps_list p) = died (codes "list position must be a whole number")

  unfoldable pub found : ℕ → View F → Outcome (List (PsValue F))
  found p v = elim (get_elem? v p) [ none ↦ undefined | some xs ↦ done xs ]

-- A call on lists; what it returns, if anything; and what it does to the view.
pub data ListCall (F : Type 0) : Type 0 where
  make : List (PsValue F) → ListCall F
  copy : PsValue F → ListCall F
  append : PsValue F → PsValue F → ListCall F
  get : PsValue F → PsValue F → ListCall F
  put_at : PsValue F → PsValue F → PsValue F → ListCall F
  remove : PsValue F → PsValue F → ListCall F

module _ {F : Type 0} where
  unfoldable pub expected : ListCall F → View F → Outcome (Option (PsValue F) × View F)
  unfolding place found as_list
  expected (make xs) v = done (some (ps_list (at (length v))), v ++ (xs ∷ []))
  expected (copy list) v = do
    p ← as_list list
    xs ← found p v
    done (some (ps_list (at (length v))), v ++ (xs ∷ []))
  expected (append list x) v = do
    p ← as_list list
    xs ← found p v
    done (none, set v p (xs ++ (x ∷ [])))
  expected (get list index) v = do
    p ← as_list list
    xs ← found p v
    i ← place xs index
    elim (get_elem? xs i) [ none ↦ undefined | some x ↦ done (some x, v) ]
  expected (put_at list index x) v = do
    p ← as_list list
    xs ← found p v
    i ← place xs index
    done (none, set v p (set xs i x))
  expected (remove list index) v = do
    p ← as_list list
    xs ← found p v
    i ← place xs index
    done (none, set v p (remove_at i xs))

  unfoldable pub call : Allocator → ListCall F → Heap F → Outcome (Option (PsValue F) × Heap F)
  unfolding ps_list_from ps_list_copy ps_list_append ps_list_get ps_list_set ps_list_remove
  call grants (make xs) h = do
    (list, h') ← ps_list_from grants xs (length xs) h
    done (some list, h')
  call grants (copy list) h = do (new, h') ← ps_list_copy grants list h; done (some new, h')
  call grants (append list x) h = do h' ← ps_list_append grants list x h; done (none, h')
  call grants (get list index) h = do x ← ps_list_get list index h; done (some x, h)
  call grants (put_at list index x) h = do h' ← ps_list_set list index x h; done (none, h')
  call grants (remove list index) h = do h' ← ps_list_remove list index h; done (none, h')

  -- An array argument is in memory, so its size in bytes fits an address.
  abbrev pub InMemory : ListCall F → Type 0
  InMemory (make xs) = length xs < 2 ^ 59
  InMemory (copy list) = Unit
  InMemory (append list x) = Unit
  InMemory (get list index) = Unit
  InMemory (put_at list index x) = Unit
  InMemory (remove list index) = Unit
