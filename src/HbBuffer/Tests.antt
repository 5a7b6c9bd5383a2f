-- ===== src/HbBuffer/Tests.antt =====
-- Runs of include/hbbuffer.h, and the theorems at concrete buffers.

use dague_hsa.Prelude.{
  ℕ, ◌≤◌, ◌≡◌, refl, true, none, some, [], ◌∷◌, ◌++◌, arith, length, SameElements, All,
}
use dague_hsa.HbBuffer.{
  HbBuffer, Store, queue, level, create, fill, push_all, better, scan, pop_best, is_empty,
  is_empty_from,
}
use dague_hsa.HbBuffer.Push.{stored, tasks, push_all-SameElements}
use dague_hsa.HbBuffer.Pop.{pop_best-highest}

-- three slots, one of them taken, over the system queue
abbrev buffer : HbBuffer ℕ
buffer = record { ideal_fill = 1; items = none ∷ some 7 ∷ none ∷ [] }

abbrev store : Store ℕ
store = level buffer (queue (1 ∷ []))

push_overflows :
    push_all store (4 ∷ 9 ∷ 2 ∷ 3 ∷ [])
    ≡ level (record buffer { items = some 4 ∷ some 7 ∷ some 9 ∷ [] }) (queue (1 ∷ 2 ∷ 3 ∷ []))
unfolding push_all fill
push_overflows = refl

push_all-SameElements_example :
    SameElements (tasks (push_all store (4 ∷ 9 ∷ 2 ∷ []))) (tasks store ++ 4 ∷ 9 ∷ 2 ∷ [])
push_all-SameElements_example = push_all-SameElements store (4 ∷ 9 ∷ 2 ∷ [])

-- The rank of a task is its number.
abbrev full : HbBuffer ℕ
full = record { ideal_fill = 1; items = some 4 ∷ none ∷ some 9 ∷ some 2 ∷ [] }

abbrev full_popped : HbBuffer ℕ
full_popped = record { ideal_fill = 1; items = some 4 ∷ none ∷ none ∷ some 2 ∷ [] }

pop_best-full : pop_best (λ (x : ℕ). x) full ≡ (some 9, full_popped)
unfolding pop_best scan better
pop_best-full = refl

pop_best-highest_example :
    All (λ y. y ≤ 9) (stored full.items)
    × SameElements (stored full.items) (9 ∷ stored full_popped.items)
    × (length full_popped.items ≡ length full.items)
pop_best-highest_example =
    pop_best-highest (λ (x : ℕ). x) full full_popped 9 (omega arith) pop_best-full

create-is_empty : is_empty {A = ℕ} (create 3 1) ≡ true
unfolding create is_empty is_empty_from
create-is_empty = refl
