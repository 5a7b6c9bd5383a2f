-- ===== src/Expr/Tests.antt =====
-- Runs of src/expr.c, and the theorems at concrete expressions.

use dague_hsa.Prelude.{◌≢◌, ℕ, zero, suc, ◌≡◌, refl, not, none, some, [], ◌∷◌, arith}
use dague_hsa.Prelude.Int.{pos, ◌==ℤ◌}
use dague_hsa.Outcome.{ok, ◌>>=◌, symbol_not_found}
use dague_hsa.Expr.{
  Expr, const_int, symb, binary, inline, Symbol, symbol, plus_op, equal_op, eval, of_bool, is_true,
}
use dague_hsa.Expr.Build.{new_binary, new_unary, new_tertiar, binary_op}
use dague_hsa.Expr.Folding.{new_binary-eval, both}
use dague_hsa.Expr.Bugs.{new_binary-equal_wrong, new_unary-not_wrong, tertiar_ignores_condition}
use dague_hsa.Expr.Walk.{Code}

abbrev k_symbol : Symbol
k_symbol = symbol 0 "k" (const_int (pos 0)) (const_int (pos 9))

-- the first assignment
abbrev k : Expr
k = inline none (λ env. elim env [ [] ↦ pos 0 | v ∷ vs ↦ pos 3 ])

abbrev local_k : Expr
local_k = symb none k_symbol

abbrev sum : Expr
sum = binary none plus_op (const_int (pos 2)) local_k

new_binary-eval_example :
    (new_binary (const_int (pos 2)) b'+' (const_int (pos 3)) >>= λ e. eval e [])
    ≡ both plus_op (const_int (pos 2)) (const_int (pos 3)) []
unfolding binary_op
new_binary-eval_example =
    new_binary-eval (const_int (pos 2)) (const_int (pos 3)) b'+' plus_op [] refl refl refl tt

new_binary-equal_wrong_example :
    (new_binary (const_int (pos 1)) b'=' (const_int (pos 2)) >>= λ e. eval e [])
    ≢ both equal_op (const_int (pos 1)) (const_int (pos 2)) []
unfolding ◌==ℤ◌
new_binary-equal_wrong_example =
    new_binary-equal_wrong (const_int (pos 1)) (const_int (pos 2)) [] (pos 1) (pos 2) refl refl
      (ground arith)

new_unary-not_wrong_example :
    ((new_unary b'!' (const_int (pos 5)) >>= λ n. eval n []) ≡ ok (pos 1))
    × ((eval (const_int (pos 5)) [] >>= λ x. ok (of_bool (not (is_true x)))) ≡ ok (pos 0))
new_unary-not_wrong_example = new_unary-not_wrong (const_int (pos 5)) [] (pos 5) refl (ground arith)

tertiar_ignores_condition_example :
    ((new_tertiar k (const_int (pos 1)) (const_int (pos 2)) >>= λ e. eval e [])
      ≡ eval (const_int (pos 1)) [])
    × ((new_tertiar (const_int (pos 0)) (const_int (pos 1)) (const_int (pos 2)) >>= λ e. eval e [])
        ≡ eval (const_int (pos 2)) [])
unfolding eval
tertiar_ignores_condition_example =
    tertiar_ignores_condition k (const_int (pos 0)) (const_int (pos 1)) (const_int (pos 2)) [] refl
      refl refl refl

-- A callback that counts the symbols and fails at the second.
abbrev second : Symbol → ℕ → Code × ℕ
second s n = elim n [ zero ↦ (none, 1) | suc m ↦ (some symbol_not_found, suc (suc m)) ]
