-- ===== src/Runtime/Heap.antt =====
-- The lists of runtime/plainspeak_runtime.c: blocks that several values may point to.
use plainspeak.Prelude.{
  ℕ, zero, suc, ◌+◌, ◌-◌, ◌*◌, ◌%◌, ◌^◌, Bool, true, false, ◌||◌, ◌&&◌, ◌==◌, Text, codes, List, [],
  ◌∷◌, ◌++◌, if◌then◌else◌, ltb, leb, length, take, drop, set, Option, none, some, get_elem?,
}
use plainspeak.Prelude.Int.{ℤ, pos, pos_part, ltb_ℤ}
use plainspeak.Runtime.{
  Pointer, null, at, PsValue, ps_int, ps_double, ps_str, ps_list, Outcome, done, died, undefined,
  ◌>>=◌, decimal, long_text, out_of_memory,
}
pub mod Contents
pub mod Shared
pub mod Refines
pub mod Changes
pub mod Calls
pub mod Sequences

-- PsList. Of the buffer `items` the part that was written to is kept; `block` is its size in bytes.
pub record PsList (F : Type 0) : Type 0 where
  pub items : List (PsValue F)
  pub len : ℕ
  pub capacity : ℕ
  pub block : ℕ

-- The blocks allocated for lists, and the number of requests that malloc and realloc have had.
pub record Heap (F : Type 0) : Type 0 where
  pub lists : List (PsList F)
  pub requests : ℕ

-- A request's number and size in bytes, to whether the allocator grants it.
abbrev pub Allocator : Type 0
Allocator = ℕ → ℕ → Bool

-- size_t arithmetic
abbrev pub size : ℕ → ℕ
size n = n % 2 ^ 64

abbrev pub value_size : ℕ
value_size = 16

abbrev pub list_size : ℕ
list_size = 24

unfoldable pub range_error : ℤ → ℕ → Text
range_error i n = codes "list position " ++ long_text i ++ codes " is out of range 1.." ++ decimal n

module _ {F : Type 0} where
  abbrev pub put : List (PsValue F) → ℕ → PsValue F → List (PsValue F)
  put xs i v = if i == length xs then xs ++ (v ∷ []) else set xs i v

  -- items[i] = v, defined within the block only.
  unfoldable pub write : PsList F → ℕ → PsValue F → Outcome (PsList F)
  write l i v =
      if leb (suc i * value_size) l.block && leb i (length l.items)
      then done (record l { items = put l.items i v })
      else undefined

  -- items[i], defined where something was written.
  unfoldable pub read : PsList F → ℕ → Outcome (PsValue F)
  read l i = elim (get_elem? l.items i) [ none ↦ undefined | some v ↦ done v ]

  -- The list that a non-null pointer leads to; and the heap with another in its place.
  unfoldable pub load : ℕ → Heap F → Outcome (PsList F)
  load p h = elim (get_elem? h.lists p) [ none ↦ undefined | some l ↦ done l ]

  unfoldable pub store : ℕ → PsList F → Heap F → Heap F
  store p l h = record h { lists = set h.lists p l }

  unfoldable pub as_list : PsValue F → Outcome ℕ
  as_list (ps_list (at p)) = done p
  as_list (ps_list null) = died (codes "expected a list")
  as_list (ps_int i) = died (codes "expected a list")
  as_list (ps_double d) = died (codes "expected a list")
  as_list (ps_str s) = died (codes "expected a list")

  unfoldable pub position : PsList F → PsValue F → Outcome ℕ
  position l (ps_int i) =
      if ltb_ℤ i (pos 1) || ltb l.len (pos_part i)
      then died (range_error i l.len)
      else done (pos_part i - 1)
  position l (ps_double d) = died (codes "list position must be a whole number")
  position l (ps_str s) = died (codes "list position must be a whole number")
  position l (ps_list p) = died (codes "list position must be a whole number")

  unfoldable pub list_index : PsValue F → PsValue F → Heap F → Outcome ℕ
  unfolding as_list load position
  list_index list index h = do p ← as_list list; l ← load p h; position l index

  -- memmove(&items[i], &items[i + 1], n * sizeof(PsValue))
  abbrev pub shift : List (PsValue F) → ℕ → ℕ → List (PsValue F)
  shift xs i n = take i xs ++ (take n (drop (suc i) xs) ++ drop (i + n) xs)

  unfoldable pub ps_list_get : PsValue F → PsValue F → Heap F → Outcome (PsValue F)
  unfolding as_list load list_index read
  ps_list_get list index h = do
    p ← as_list list
    l ← load p h
    i ← list_index list index h
    read l i

  unfoldable pub ps_list_set : PsValue F → PsValue F → PsValue F → Heap F → Outcome (Heap F)
  unfolding as_list load list_index write store
  ps_list_set list index v h = do
    p ← as_list list
    l ← load p h
    i ← list_index list index h
    l' ← write l i v
    done (store p l' h)

  unfoldable pub ps_list_remove : PsValue F → PsValue F → Heap F → Outcome (Heap F)
  unfolding as_list load list_index store
  ps_list_remove list index h = do
    p ← as_list list
    l ← load p h
    i ← list_index list index h
    let rest = l.len - i - 1
    let moved = if ltb (suc i) l.len then shift l.items i rest else l.items
    done (store p (record l { items = moved; len = l.len - 1 }) h)

  abbrev pub new_list : List (PsValue F) → ℕ → ℕ → PsList F
  new_list items count room = record {
    items = take count items;
    len = count;
    capacity = room;
    block = size (room * value_size);
  }

  unfoldable pub ps_length : PsValue F → Heap F → Outcome ℕ
  unfolding as_list load
  ps_length (ps_str s) h = done (length s)
  ps_length (ps_list p) h = do q ← as_list (ps_list p); l ← load q h; done l.len
  ps_length (ps_int i) h = died (codes "expected a string or list for length")
  ps_length (ps_double d) h = died (codes "expected a string or list for length")

module _ {F : Type 0} (grants : Allocator) where
  abbrev pub asked : Heap F → Heap F
  asked h = record h { requests = suc h.requests }

  -- malloc, or realloc, that the code checks for NULL.
  unfoldable pub allocate : ℕ → Heap F → Outcome (Heap F)
  allocate bytes h = if grants h.requests bytes then done (asked h) else died out_of_memory

  -- The first `count` values at `items` are copied.
  unfoldable pub ps_list_from : List (PsValue F) → ℕ → Heap F → Outcome (PsValue F × Heap F)
  unfolding allocate
  ps_list_from items count h = do
    h1 ← allocate list_size h
    let room = if ltb 4 count then count else 4
    h2 ← allocate (size (room * value_size)) h1
    let new = new_list items count room
    done (ps_list (at (length h2.lists)), record h2 { lists = h2.lists ++ (new ∷ []) })

  unfoldable pub ps_list_copy : PsValue F → Heap F → Outcome (PsValue F × Heap F)
  unfolding as_list load ps_list_from
  ps_list_copy list h = do p ← as_list list; l ← load p h; ps_list_from l.items l.len h

  -- The larger block, when the list is full. realloc keeps what the block holds.
  unfoldable pub grow : PsList F → Heap F → Outcome (PsList F × Heap F)
  unfolding allocate
  grow l h =
      let room = if l.capacity == 0 then 4 else size (l.capacity * 2) in
      if l.len == l.capacity
      then (do
        h' ← allocate (size (room * value_size)) h
        done (record l { capacity = room; block = size (room * value_size) }, h'))
      else done (l, h)

  unfoldable pub ps_list_append : PsValue F → PsValue F → Heap F → Outcome (Heap F)
  unfolding as_list load grow write store
  ps_list_append list item h = do
    p ← as_list list
    l ← load p h
    (l', h') ← grow l h
    l'' ← write l' l'.len item
    done (store p (record l'' { len = suc l''.len }) h')
