-- ===== src/Dependencies.antt =====
-- src/dague.c and include/dague.h: when a task is ready. This file is about the build that counts
-- dependencies (DAGUE_USE_COUNTER_FOR_DEPENDENCIES), and about the list of the tasks that are ready.
pub mod Inputs
pub mod Counting
pub mod Priority
pub mod Objects
mod Tests
use dague_hsa.Prelude.{
  ℕ, zero, suc, ◌+◌, ◌*◌, ◌%◌, ◌^◌, Bool, true, false, not, Option, none, some, List, [], ◌∷◌, ◌++◌,
  ◌==◌, ltb, if◌then◌else◌, length, get_elem?, set, take,
}
use dague_hsa.Prelude.Int.{ℤ, pos, ltb_ℤ, ◌==ℤ◌}
use dague_hsa.Outcome.{Outcome, ok, fail, fault, ◌>>=◌}
use dague_hsa.Expr.{Expr, null, eval}
use dague_hsa.Expr.Build.{is_null}

-- one input dependency of a task: its condition, NULL if there is none, and the number of locals of the
-- task that it comes from, which is 0 where the data are an input of the program
pub record InDep : Type 0 where
  pub cond : Expr
  pub nb_locals : ℕ

-- the inner loop of `dague_check_IN_dependencies`. A condition that cannot be evaluated leaves `value`
-- as it was, or never set: that is taken as a fault.
unfoldable pub check_deps : List ℤ → List InDep → Outcome ℕ
unfolding ◌==ℤ◌
check_deps locals [] = ok 0
check_deps locals (dep ∷ deps) =
    let rest = check_deps locals deps in
    let counted : Outcome ℕ = if dep.nb_locals == 0 then (rest >>= λ n. ok (n + 1)) else rest in
    if is_null dep.cond then counted else elim (eval dep.cond locals) [
      | ok value ↦ if value ==ℤ pos 0 then rest else counted
      | fail code ↦ fault
      | fault ↦ fault
    ]

-- the outer loop
unfoldable pub check_params : List ℤ → List (List InDep) → Outcome ℕ
unfolding check_deps
check_params locals [] = ok 0
check_params locals (param ∷ params) =
    check_deps locals (take 10 param) >>= λ n. check_params locals params >>= λ m. ok (n + m)

-- `dague_check_IN_dependencies`
unfoldable pub check_in_dependencies : Bool → List ℤ → List (List InDep) → Outcome ℕ
unfolding check_params
check_in_dependencies has_in_in locals params =
    if not has_in_in then ok 0 else check_params locals (take 5 params)

-- How far a thread is that releases one dependency of a task: it has yet to read the counter, it has
-- read 0 and goes on to the compare-and-swap, it goes on to the increment, or it has the value that its
-- own update left.
pub data Release : Type 0 where
  starts swaps increments : Release
  finished : ℕ → Release

-- One atomic access of a thread to the counter; `inputs` is what `dague_check_IN_dependencies` returns.
unfoldable pub access : ℕ → ℕ → Release → ℕ × Release
access inputs counter starts = if counter == 0 then (counter, swaps) else (counter, increments)
access inputs counter swaps =
    if counter == 0
    then ((1 + inputs) % 2 ^ 32, finished ((1 + inputs) % 2 ^ 32))
    else (counter, increments)
access inputs counter increments = ((counter + 1) % 2 ^ 32, finished ((counter + 1) % 2 ^ 32))
access inputs counter (finished value) = (counter, finished value)

-- The counter of a task, and the threads that release its dependencies.
pub record Releases : Type 0 where
  pub counter : ℕ
  pub threads : List Release

-- The next access of one of the threads.
unfoldable pub step : ℕ → Releases → ℕ → Releases
unfolding access
step inputs s i = elim (get_elem? s.threads i) [
  | none ↦ s
  | some thread ↦
      let (counter, thread') = access inputs s.counter thread in
      record { counter = counter; threads = set s.threads i thread' }
]

-- An interleaving: which thread goes on, again and again.
unfoldable pub run : ℕ → Releases → List ℕ → Releases
unfolding step
run inputs s [] = s
run inputs s (i ∷ schedule) = run inputs (step inputs s i) schedule

-- the ready tasks, from the one that the list points to on around the ring
module _ {A : Type 0} (priority : A → ℤ) where
  -- Go on while the task there has a higher priority, up to the head again.
  unfoldable pub add_after_head : A → List A → List A
  add_after_head elem [] = elem ∷ []
  add_after_head elem (x ∷ xs) =
      let rest = add_after_head elem xs in
      if ltb_ℤ (priority elem) (priority x) then x ∷ rest else elem ∷ x ∷ xs

  -- `dague_list_add_single_elem_by_priority`. Where the search stops at the head, the new task is linked
  -- before it, which is the end of the ring; it becomes the head only if its priority is higher.
  unfoldable pub add_by_priority : List A → A → List A
  unfolding add_after_head
  add_by_priority [] elem = elem ∷ []
  add_by_priority (x ∷ xs) elem =
      if ltb_ℤ (priority elem) (priority x)
      then x ∷ add_after_head elem xs
      else if ltb_ℤ (priority x) (priority elem)
      then elem ∷ x ∷ xs
      else x ∷ (xs ++ elem ∷ [])
