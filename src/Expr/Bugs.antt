-- ===== src/Expr/Bugs.antt =====
-- src/expr.c against what its operators mean: negation, comparisons and conditionals.
use dague_hsa.Prelude.{◌≡◌, ◌≢◌, refl, false, not, ◌&&◌, none, some, List, arith}
use dague_hsa.Prelude.Int.{ℤ, pos, ◌==ℤ◌, ==ℤ_iff}
use dague_hsa.Outcome.{ok, ◌>>=◌}
use dague_hsa.Expr.{Expr, equal_op, not_equal_op, constant, of_bool, is_true, apply_binary, eval}
use dague_hsa.Expr.Build.{is_null, new_unary, new_binary, new_tertiar, binary_op, fold_constants}
use dague_hsa.Expr.Folding.{
  both, eval-constant, constant-is_null, new_binary-constants, both-constants,
}

-- `expr_new_binary` folds `v = w` to `v && w`: wherever this is not whether two constants are equal,
-- such as for 1 and 2, or for 0 and 0, the folded comparison is not what the evaluation of the
-- operands says.
pub new_binary-equal_wrong :
    (a b : Expr) (env : List ℤ) (v w : ℤ)
    → constant a ≡ some v
    → constant b ≡ some w
    → (v ==ℤ w) ≢ (is_true v && is_true w)
    → (new_binary a b'=' b >>= λ e. eval e env) ≢ both equal_op a b env
unfolding apply_binary fold_constants binary_op
new_binary-equal_wrong a b env v w ha hb h =
    let e =
      new_binary-constants a b b'=' equal_op env v w (ok (of_bool (is_true v && is_true w))) ha hb
        refl refl in
    let f = both-constants a b equal_op env v w ha hb in ground (arith, e, f)

-- `expr_new_binary` folds `v ! w` to `!(v && w)`: wherever this is not whether two constants differ,
-- such as for 1 and 2, or for 0 and 0, the folded inequality is not what the evaluation of the
-- operands says.
pub new_binary-not_equal_wrong :
    (a b : Expr) (env : List ℤ) (v w : ℤ)
    → constant a ≡ some v
    → constant b ≡ some w
    → (v ==ℤ w) ≢ (is_true v && is_true w)
    → (new_binary a b'!' b >>= λ e. eval e env) ≢ both not_equal_op a b env
unfolding apply_binary fold_constants binary_op
new_binary-not_equal_wrong a b env v w ha hb h =
    let e =
      new_binary-constants a b b'!' not_equal_op env v w
        (ok (of_bool (not (is_true v && is_true w)))) ha hb refl refl in
    let f = both-constants a b not_equal_op env v w ha hb in ground (arith, e, f)

-- `expr_new_unary` folds the negation of every constant to 1, where the negation of a constant other
-- than 0 evaluates to 0.
pub new_unary-not_wrong :
    (e : Expr) (env : List ℤ) (v : ℤ)
    → constant e ≡ some v
    → v ≢ pos 0
    → ((new_unary b'!' e >>= λ n. eval n env) ≡ ok (pos 1))
      × ((eval e env >>= λ x. ok (of_bool (not (is_true x)))) ≡ ok (pos 0))
unfolding new_unary eval ◌==ℤ◌
new_unary-not_wrong e env v h ne = (
  rw (constant-is_null e v h, h),
  let k = eval-constant e env v h in ground (arith, k, ==ℤ_iff v (pos 0)),
)

-- Of an expression that is no constant, `expr_new_unary` builds a node that evaluates as the
-- negation of its operand, errors included.
pub new_unary-eval :
    (e : Expr) (env : List ℤ)
    → is_null e ≡ false
    → constant e ≡ none
    → (new_unary b'!' e >>= λ n. eval n env) ≡ (eval e env >>= λ x. ok (of_bool (not (is_true x))))
unfolding new_unary eval
new_unary-eval e env n h = rw (n, h)

-- `expr_eval` takes the first alternative of a conditional whose condition evaluates to 0, where
-- `expr_new_tertiar` folds a constant condition 0 to the second.
pub tertiar_ignores_condition :
    (t u a b : Expr) (env : List ℤ)
    → is_null t ≡ false
    → constant t ≡ none
    → eval t env ≡ ok (pos 0)
    → constant u ≡ some (pos 0)
    → ((new_tertiar t a b >>= λ e. eval e env) ≡ eval a env)
      × ((new_tertiar u a b >>= λ e. eval e env) ≡ eval b env)
unfolding new_tertiar ◌==ℤ◌ eval
tertiar_ignores_condition t u a b env n h e k =
    let m = constant-is_null u (pos 0) k in (rw (n, h, e), rw (m, k))
