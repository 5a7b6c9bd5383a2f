-- ===== src/Symbols/Standalone.antt =====
-- `dague_symbol_is_standalone` of src/symbol.c: whether the range of a symbol names local symbols.
use dague_hsa.Prelude.{
  ℕ, ◌+◌, ◌≡◌, refl, Bool, true, ◌&&◌, none, List, [], ◌∷◌, arith, ◌==◌, if◌then◌else◌, ◌≤◌,
}
use dague_hsa.Outcome.{ok, fail, unknown}
use dague_hsa.Expr.{Symbol, min_of, max_of}
use dague_hsa.Expr.Build.{is_global}
use dague_hsa.Expr.Walk.{each_symbol, symbols_of, IsWalkable}
use dague_hsa.Expr.Walk.Laws.{parse_symbols-each_symbol}
use dague_hsa.Symbols.{parse_callback, is_standalone}

-- All symbols of a list are global.
abbrev pub all_global : List Symbol → Bool
all_global [] = true
all_global (s ∷ ss) = is_global s && all_global ss

each_symbol-parse_callback :
    (ss : List Symbol) (count : ℕ)
    → (found : ℕ) × (each_symbol parse_callback ss count ≡ (none, found))
      × (count ≤ found)
      × (found == count ≡ all_global ss)
unfolding each_symbol parse_callback
each_symbol-parse_callback [] count = (count, refl, ground arith, ground arith)
each_symbol-parse_callback (s ∷ ss) count =
    let (found, e, le, h) =
      each_symbol-parse_callback ss (if is_global s then count else count + 1) in
    (found, ground (arith, e), ground (arith, le), ground (arith, h, le))

-- If the ends of its range can be walked, `dague_symbol_is_standalone` succeeds exactly on a symbol
-- both of whose ends name global symbols only, and says EXPR_FAILURE_UNKNOWN on any other.
pub is_standalone-all_global :
    (s : Symbol)
    → IsWalkable (min_of s)
    → IsWalkable (max_of s)
    → is_standalone s ≡ (
        if all_global (symbols_of (min_of s)) && all_global (symbols_of (max_of s))
        then ok tt
        else fail unknown)
unfolding is_standalone
is_standalone-all_global s h k =
    let (m, e, le, g) = each_symbol-parse_callback (symbols_of (min_of s)) 0 in
    let (n, f, lf, q) = each_symbol-parse_callback (symbols_of (max_of s)) m in
    ground (
      arith,
      e,
      f,
      g,
      q,
      le,
      lf,
      parse_symbols-each_symbol parse_callback (min_of s) 0 h,
      parse_symbols-each_symbol parse_callback (max_of s) m k,
    )
