-- ===== src/Dependencies/Inputs.antt =====
-- How many inputs `dague_check_IN_dependencies` of src/dague.c counts.

use dague_hsa.Prelude.{
  ℕ, suc, ◌+◌, ◌*◌, ◌≤◌, Bool, true, false, List, [], ◌∷◌, arith, if◌then◌else◌, length, take,
  length-take, ◌==◌,
}
use dague_hsa.Prelude.Int.{ℤ, pos, ◌==ℤ◌}
use dague_hsa.Outcome.{Outcome, ok, fail, fault, ◌>>=◌, Ensures, Ensures-bind}
use dague_hsa.Expr.{eval}
use dague_hsa.Expr.Build.{is_null}
use dague_hsa.Dependencies.{InDep, check_deps, check_params, check_in_dependencies}

at_most-le : (k l : ℕ) (r : Outcome ℕ) → k ≤ l → Ensures (λ n. n ≤ k) r → Ensures (λ n. n ≤ l) r
at_most-le k l (ok n) h e = omega arith
at_most-le k l (fail x) h e = tt
at_most-le k l fault h e = tt

if-at_most :
    (k : ℕ) (b : Bool) (r q : Outcome ℕ)
    → Ensures (λ n. n ≤ k) r
    → Ensures (λ n. n ≤ k) q
    → Ensures (λ n. n ≤ k) (if b then r else q)
if-at_most k true r q h e = h
if-at_most k false r q h e = e

-- The three ends of an evaluation.
on_value :
    (k : ℕ) (value : Outcome ℤ) (r q : Outcome ℕ)
    → Ensures (λ n. n ≤ k) r
    → Ensures (λ n. n ≤ k) q
    → Ensures
        (λ n. n ≤ k)
        (elim value [ ok v ↦ if v ==ℤ pos 0 then r else q | fail code ↦ fault | fault ↦ fault ])
on_value k (ok v) r q h e = if-at_most k (v ==ℤ pos 0) r q h e
on_value k (fail code) r q h e = tt
on_value k fault r q h e = tt

check_deps-le :
    (locals : List ℤ) (deps : List InDep) → Ensures (λ n. n ≤ length deps) (check_deps locals deps)
unfolding check_deps
check_deps-le locals [] = omega arith
check_deps-le locals (dep ∷ deps) =
    let k = suc (length deps) in
    let rest = check_deps locals deps in
    let before = check_deps-le locals deps in
    let same = at_most-le (length deps) k rest (omega arith) before in
    let one_more =
      Ensures-bind (λ n. n ≤ length deps) (λ n. n ≤ k) rest (λ n. ok (n + 1)) before
        (λ n h. omega arith) in
    let counted = if-at_most k (dep.nb_locals == 0) (rest >>= λ n. ok (n + 1)) rest one_more same in
    if-at_most k (is_null dep.cond) _ _ counted (on_value k (eval dep.cond locals) _ _ same counted)

check_params-le :
    (locals : List ℤ) (params : List (List InDep))
    → Ensures (λ n. n ≤ 10 * length params) (check_params locals params)
unfolding check_params
check_params-le locals [] = omega arith
check_params-le locals (param ∷ params) =
    Ensures-bind (λ n. n ≤ length (take 10 param)) (λ n. n ≤ 10 * suc (length params))
      (check_deps locals (take 10 param)) _ (check_deps-le locals (take 10 param))
      (λ n h.
        Ensures-bind (λ m. m ≤ 10 * length params) (λ m. m ≤ 10 * suc (length params))
          (check_params locals params) (λ m. ok (n + m)) (check_params-le locals params)
          (λ m e. omega (arith, h, e, length-take 10 param)))

-- Whatever the parameters of a task, `dague_check_IN_dependencies` counts at most 50 inputs:
-- MAX_PARAM_COUNT times MAX_DEP_IN_COUNT.
pub check_in_dependencies-le :
    (has_in_in : Bool) (locals : List ℤ) (params : List (List InDep))
    → Ensures (λ n. n ≤ 50) (check_in_dependencies has_in_in locals params)
unfolding check_in_dependencies
check_in_dependencies-le false locals params = omega arith
check_in_dependencies-le true locals params =
    at_most-le (10 * length (take 5 params)) 50 (check_params locals (take 5 params))
      (omega (arith, length-take 5 params)) (check_params-le locals (take 5 params))
