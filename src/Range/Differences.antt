-- ===== src/Range/Differences.antt =====
-- `expr_absolute_range` of src/expr.c on differences.
use Prim.Native.String.{String}
use dague_hsa.Prelude.{◌≡◌, true, none, arith}
use dague_hsa.Prelude.Int.{ℤ, ◌-ℤ◌, -ℤ_parts, ◌≤ℤ◌, fits_int}
use dague_hsa.Outcome.{ok, int_result-fits}
use dague_hsa.Expr.{Expr, const_int, symb, binary, symbol, minus_op}
use dague_hsa.Symbols.{Table, search_global_symbol}
use dague_hsa.Range.{minimum, maximum, absolute_range_of, absolute_range, range_binary}

-- a local symbol with constant ends of its range
abbrev pub ranging : String → ℤ → ℤ → Expr
ranging name lo hi = symb none (symbol 0 name (const_int lo) (const_int hi))

-- For two local symbols with ranges a..b and c..d the range of their difference is said to be
-- a - c..b - d. If c < d it misses the difference a - d, which is less than a - c, and the difference
-- b - c, which is more than b - d.
pub absolute_range_minus_wrong :
    (table : Table) (s t : String) (a b c d : ℤ)
    → search_global_symbol table s ≡ none
    → search_global_symbol table t ≡ none
    → fits_int (a -ℤ c) ≡ true
    → fits_int (b -ℤ d) ≡ true
    → ¬ (d ≤ℤ c)
    → (absolute_range table (binary none minus_op (ranging s a b) (ranging t c d))
        ≡ ok (a -ℤ c, b -ℤ d))
      × ¬ (a -ℤ c ≤ℤ a -ℤ d)
      × ¬ (b -ℤ c ≤ℤ b -ℤ d)
unfolding absolute_range absolute_range_of range_binary
absolute_range_minus_wrong table s t a b c d hs ht f g h =
    (rw (low, high), omega (arith, -ℤ_parts), omega (arith, -ℤ_parts))
  where
    low :
        absolute_range_of table minimum (binary none minus_op (ranging s a b) (ranging t c d))
        ≡ ok (a -ℤ c)
    low = rw (hs, ht) (int_result-fits (a -ℤ c) f)

    high :
        absolute_range_of table maximum (binary none minus_op (ranging s a b) (ranging t c d))
        ≡ ok (b -ℤ d)
    high = rw (hs, ht) (int_result-fits (b -ℤ d) g)
