-- ===== src/Range/Tests.antt =====
-- The theorems on `expr_absolute_range` at concrete expressions.
use Prim.Native.String.{String}
use dague_hsa.Prelude.{◌≡◌, refl, none, arith}
use dague_hsa.Prelude.Int.{ℤ, pos, ◌≤ℤ◌, ◌-ℤ◌, ◌+ℤ◌}
use dague_hsa.Outcome.{ok}
use dague_hsa.Expr.{Expr, const_int, binary, plus_op, minus_op}
use dague_hsa.Symbols.{no_symbols, search, search_global_symbol}
use dague_hsa.Range.{absolute_range}
use dague_hsa.Range.Sums.{sum_value, absolute_range-bounds}
use dague_hsa.Range.Differences.{ranging, absolute_range_minus_wrong}

abbrev sum : Expr
sum = binary none plus_op (ranging "k" (pos 0) (pos 9)) (const_int (pos 3))

-- Every symbol has the value 4.
abbrev fours : String → ℤ
fours n = pos 4

absolute_range-bounds_example :
    (lo : ℤ) × (hi : ℤ) × (absolute_range no_symbols sum ≡ ok (lo, hi))
    × (lo ≤ℤ sum_value fours sum)
    × (sum_value fours sum ≤ℤ hi)
unfolding search_global_symbol search ◌+ℤ◌
absolute_range-bounds_example =
    absolute_range-bounds no_symbols fours sum ((refl, tt, tt, omega arith, omega arith), tt)
      (tt, tt, refl) (tt, tt, refl)

absolute_range_minus_wrong_example :
    (absolute_range no_symbols
        (binary none minus_op (ranging "k" (pos 0) (pos 9)) (ranging "n" (pos 0) (pos 5)))
      ≡ ok (pos 0 -ℤ pos 0, pos 9 -ℤ pos 5))
    × ¬ (pos 0 -ℤ pos 0 ≤ℤ pos 0 -ℤ pos 5)
    × ¬ (pos 9 -ℤ pos 0 ≤ℤ pos 9 -ℤ pos 5)
unfolding search_global_symbol search ◌-ℤ◌
absolute_range_minus_wrong_example =
    absolute_range_minus_wrong no_symbols "k" "n" (pos 0) (pos 9) (pos 0) (pos 5) refl refl refl
      refl (ground arith)
