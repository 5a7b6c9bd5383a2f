-- ===== src/HbBuffer.antt =====
-- include/hbbuffer.h, and the two functions of src/dague.c that push into a parent store: bounded
-- buffers of tasks in which what does not fit goes to the parent, up to the system queue.
-- A call is taken as one step: no other thread works on the buffer while it runs. A ring of list
-- items is the list of its elements from the one that the pointer names, and NULL is [].
pub mod Push
pub mod Pop
mod Tests
use dague_hsa.Prelude.{
  ℕ, zero, suc, ◌+◌, Bool, true, false, ◌||◌, Option, none, some, List, [], ◌∷◌, ◌++◌, ◌==◌, ltb,
  if◌then◌else◌, set, replicate,
}

-- `dague_hbbuffer_t`: its slots, of which an empty one is NULL. `size` is their number; the parent
-- is the rest of the `Store`.
pub record HbBuffer (A : Type 0) : Type 0 where
  pub ideal_fill : ℕ
  pub items : List (Option A)

-- A store and its parents: buffers above one another, and the system dequeue above all.
pub data Store (A : Type 0) : Type 0 where
  queue : List A → Store A
  level : HbBuffer A → Store A → Store A

module _ {A : Type 0} where
  -- `calloc` leaves `size` empty slots.
  unfoldable pub create : ℕ → ℕ → HbBuffer A
  create size ideal_fill = record { ideal_fill = ideal_fill; items = replicate size none }

  -- The loops of `push_all`: from slot `i` on, each element goes to the next slot that the
  -- compare-and-swap finds empty. What is left when the slots end is returned, the element that
  -- found no room chained before the rest again.
  unfoldable pub fill : List (Option A) → List A → List (Option A) × List A
  fill slots [] = (slots, [])
  fill [] (e ∷ es) = ([], e ∷ es)
  fill (some x ∷ slots) (e ∷ es) =
      let (slots', rest) = fill slots (e ∷ es) in (some x ∷ slots', rest)
  fill (none ∷ slots) (e ∷ es) = let (slots', rest) = fill slots es in (some e ∷ slots', rest)

  -- `push_in_queue_wrapper`, which is `dague_dequeue_push_back`, and `push_in_buffer_wrapper`, which
  -- is `dague_hbbuffer_push_all`
  unfoldable pub push_all : Store A → List A → Store A
  push_all (queue q) elts = queue (q ++ elts)
  push_all (level b parent) elts =
      let (slots, rest) = fill b.items elts in
      level (record b { items = slots })
        (elim rest [ [] ↦ parent | e ∷ es ↦ push_all parent (e ∷ es) ])

  -- `dague_hbbuffer_is_empty`
  unfoldable pub is_empty_from : List (Option A) → Bool
  is_empty_from [] = true
  is_empty_from (none ∷ slots) = is_empty_from slots
  is_empty_from (some x ∷ slots) = false

  unfoldable pub is_empty : HbBuffer A → Bool
  is_empty b = is_empty_from b.items

-- `DAGUE_RANKING_FUNCTION_BEST`
abbrev pub ranking_best : ℕ
ranking_best = 0xffffff

-- `best_elt`, `best_idx` and `best_rank` of `pop_best`
pub record Best (A : Type 0) : Type 0 where
  pub elt : A
  pub idx : ℕ
  pub rank : ℕ

module _ {A : Type 0} (rank_function : A → ℕ) where
  -- one candidate against the best so far
  unfoldable pub better : A → Option (Best A) → Bool
  better x none = true
  better x (some b) = rank_function x == ranking_best || ltb b.rank (rank_function x)

  -- the `for` loop of `pop_best` from slot `idx` on
  unfoldable pub scan : ℕ → List (Option A) → Option (Best A) → Option (Best A)
  scan idx [] best = best
  scan idx (none ∷ slots) best = scan (idx + 1) slots best
  scan idx (some x ∷ slots) best =
      let found : Best A = record { elt = x; idx = idx; rank = rank_function x } in
      let on_found = scan (idx + 1) slots (some found) in
      let on_others = scan (idx + 1) slots best in
      if better x best
      then (if rank_function x == ranking_best then some found else on_found)
      else on_others

  -- `dague_hbbuffer_pop_best`: the compare-and-swap finds the slot as the scan has seen it.
  unfoldable pub pop_best : HbBuffer A → Option A × HbBuffer A
  pop_best b = elim (scan 0 b.items none) [
    | none ↦ (none, b)
    | some best ↦ (some best.elt, record b { items = set b.items best.idx none })
  ]
