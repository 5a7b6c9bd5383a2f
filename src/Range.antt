-- ===== src/Range.antt =====
-- `expr_absolute_range` of src/expr.c, and the two functions of src/symbol.c over it: the least and
-- the greatest value that an expression may take.
pub mod Sums
pub mod Differences
mod Tests
use Prim.Native.String.{String}
use dague_hsa.Prelude.{ℕ, Option, none, some, List, []}
use dague_hsa.Prelude.Int.{ℤ, ◌+ℤ◌, ◌-ℤ◌, ◌*ℤ◌}
use dague_hsa.Outcome.{Outcome, ok, fail, fault, ◌>>=◌, int_result, cannot_evaluate_range, unknown}
use dague_hsa.Expr.{
  Expr, null, const_int, symb, unary_not, binary, tertiar, inline, other, Symbol, symbol, BinaryOp,
  mod_op, equal_op, not_equal_op, plus_op, range_op, minus_op, times_op, div_op, or_op, and_op,
  xor_op, less_op, less_or_equal_op, more_op, more_or_equal_op, shl_op, shift_left, eval, min_of,
  max_of, precomputed,
}
use dague_hsa.Symbols.{Table, search_global_symbol}

-- EXPR_ABSOLUTE_RANGE_MIN and _MAX
pub data Direction : Type 0 where
  minimum maximum : Direction

-- the range of a global symbol: the value of its minimum, whatever the direction
abbrev pub global_value : Expr → Outcome ℤ
global_value e = elim (eval e []) [
  | ok v ↦ ok v
  | fail x ↦ fail cannot_evaluate_range
  | fault ↦ fault
]

-- The codes of the two operands are not looked at: after a failure the sum is over a variable that
-- was never set.
abbrev pub operand : Outcome ℤ → Outcome ℤ
operand (ok v) = ok v
operand (fail x) = fault
operand fault = fault

abbrev pub on_operands : Outcome ℤ → Outcome ℤ → (ℤ → ℤ → Outcome ℤ) → Outcome ℤ
on_operands l r f = operand l >>= λ v. operand r >>= λ w. f v w

-- the `switch` of `__expr_absolute_range_recursive`
unfoldable pub range_binary : BinaryOp → Outcome ℤ → Outcome ℤ → Outcome ℤ
range_binary mod_op l r = fail unknown
range_binary plus_op l r = on_operands l r (λ v w. int_result (v +ℤ w))
range_binary minus_op l r = on_operands l r (λ v w. int_result (v -ℤ w))
range_binary times_op l r = on_operands l r (λ v w. int_result (v *ℤ w))
range_binary shl_op l r = on_operands l r shift_left
range_binary _ l r = fail cannot_evaluate_range

abbrev pub choose {ℓ} : {A : Type ℓ} → Direction → A → A → A
choose minimum lo hi = lo
choose maximum lo hi = hi

-- `__expr_absolute_range_recursive`; it aborts on a node that is neither a symbol nor unary nor
-- binary.
module _ (table : Table) (direction : Direction) where
  unfoldable pub absolute_range_of : Expr → Outcome ℤ
  unfolding range_binary
  absolute_range_of null = fault
  absolute_range_of (const_int v) = ok v
  absolute_range_of (symb c (symbol flags name lo hi)) =
      precomputed c (elim (search_global_symbol table name) [
        | some g ↦ global_value (min_of g)
        | none ↦ choose direction (absolute_range_of lo) (absolute_range_of hi)
      ])
  absolute_range_of (unary_not c e) = precomputed c (fail cannot_evaluate_range)
  absolute_range_of (binary c op a b) =
      precomputed c (range_binary op (absolute_range_of a) (absolute_range_of b))
  absolute_range_of (tertiar c t a b) = precomputed c fault
  absolute_range_of (inline c f) = precomputed c fault
  absolute_range_of (other c n) = precomputed c fault

-- `expr_absolute_range`
unfoldable pub absolute_range : Table → Expr → Outcome (ℤ × ℤ)
absolute_range table e = absolute_range_of table minimum e >>= λ lo.
    absolute_range_of table maximum e >>= λ hi. ok (lo, hi)

-- `dague_symbol_get_absolute_minimum_value`
unfoldable pub absolute_minimum_value : Table → Symbol → Outcome ℤ
unfolding absolute_range
absolute_minimum_value table s = absolute_range table (min_of s) >>= λ r. ok r.0

-- `dague_symbol_get_absolute_maximum_value`
unfoldable pub absolute_maximum_value : Table → Symbol → Outcome ℤ
unfolding absolute_range
absolute_maximum_value table s = absolute_range table (max_of s) >>= λ r. ok r.1
