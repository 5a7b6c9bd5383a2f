-- ===== src/Dependencies/Tests.antt =====
-- The theorems on the counting of dependencies and on the list of ready tasks, at concrete runs.
use dague_hsa.Prelude.{ℕ, ◌+◌, ◌≡◌, refl, true, List, [], ◌∷◌, ◌==◌, if◌then◌else◌, arith, count_p}
use dague_hsa.Prelude.Int.{ℤ, pos}
use dague_hsa.Prelude.{get_elem?}
use dague_hsa.Outcome.{ok}
use dague_hsa.Expr.{null}
use dague_hsa.Dependencies.Objects.{
  Objects, no_objects, register_all, object_lookup, register_all-object_lookup,
}
use dague_hsa.Dependencies.{
  InDep, check_in_dependencies, check_params, check_deps, run, step, access, finished,
  add_by_priority,
}
use dague_hsa.Dependencies.Counting.{done, found, start, run-ready_once}
use dague_hsa.Dependencies.Priority.{Sorted, add_by_priority-Sorted, add_by_priority-not-Sorted}

-- Both threads read 0; the second wins the compare-and-swap.
abbrev schedule : List ℕ
schedule = 0 ∷ 1 ∷ 1 ∷ 0 ∷ 0 ∷ 1 ∷ []

both_read_zero : (run 3 (start 2) schedule).threads ≡ finished 5 ∷ finished 4 ∷ []
unfolding run step access
both_read_zero = refl

run-ready_once_example :
    count_p (found 5) (run 3 (start 2) schedule).threads
    ≡ (if done (run 3 (start 2) schedule) == 2 then 1 else 0)
run-ready_once_example = run-ready_once 3 2 (omega arith) schedule (omega arith)

-- A task is its priority.
abbrev own_priority : ℤ → ℤ
own_priority v = v

add_by_priority-Sorted_example :
    Sorted own_priority (add_by_priority own_priority (pos 5 ∷ pos 3 ∷ []) (pos 4))
add_by_priority-Sorted_example =
    add_by_priority-Sorted own_priority (pos 5) (pos 3 ∷ []) (pos 4) ((omega arith, tt), (tt, tt))
      (ground arith)

add_by_priority-not-Sorted_example :
    ¬ Sorted own_priority (add_by_priority own_priority (pos 5 ∷ pos 3 ∷ []) (pos 5))
add_by_priority-not-Sorted_example =
    add_by_priority-not-Sorted own_priority (pos 5) (pos 3 ∷ []) (pos 5) refl
      (λ h. omega (arith, h.0))

-- an input of the program, under no condition
abbrev input : InDep
input = record { cond = null; nb_locals = 0 }

check_two_inputs : check_in_dependencies true [] ((input ∷ []) ∷ (input ∷ []) ∷ []) ≡ ok 2
unfolding check_in_dependencies check_params check_deps
check_two_inputs = refl

register_all-object_lookup_example :
    (o : Objects ℕ) × (register_all no_objects (7 ∷ 8 ∷ 9 ∷ []) ≡ ok o)
    × ((i : ℕ) → object_lookup o (i + 1) ≡ ok (get_elem? (7 ∷ 8 ∷ 9 ∷ []) i))
register_all-object_lookup_example = register_all-object_lookup (7 ∷ 8 ∷ 9 ∷ []) (omega arith)
