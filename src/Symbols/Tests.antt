-- ===== src/Symbols/Tests.antt =====
-- The theorems on src/symbol.c at concrete tables.
use text.Mathlib.Text.{◌==◌ as str_eq}
use Prim.Native.String.{String}
use dague_hsa.Prelude.{ℕ, Bool, leb, ◌≡◌, none, some, arith, ◌⊎◌, if◌then◌else◌}
use dague_hsa.Prelude.Int.{pos}
use dague_hsa.Outcome.{ok, fail, symbol_not_found}
use dague_hsa.Expr.{const_int, symb, Symbol, symbol}
use dague_hsa.Symbols.{Table, no_symbols, search_global_symbol, add_global_symbol_cst}
use dague_hsa.Symbols.Laws.{IsTable, Stopped, add_global_symbol_cst_lem}

abbrev nt : Symbol
nt = symbol 1 "NT" (const_int (pos 4)) (const_int (pos 4))

abbrev k_symbol : Symbol
k_symbol = symbol 0 "k" (const_int (pos 0)) (symb none nt)

no_symbols-IsTable : IsTable no_symbols
no_symbols-IsTable = record { distinct = tt; room = omega arith }

-- memory of 64 bytes at most
abbrev allocates : ℕ → Bool
allocates n = leb n 64

add_global_symbol_cst_lem_example :
    (Stopped allocates no_symbols "N"
      × (add_global_symbol_cst allocates no_symbols "N" (const_int (pos 7))
          ≡ fail symbol_not_found))
    ⊎ ((¬ Stopped allocates no_symbols "N")
        × ((t' : Table) × (add_global_symbol_cst allocates no_symbols "N" (const_int (pos 7))
              ≡ ok t')
            × IsTable t'
            × ((m : String)
                → search_global_symbol t' m ≡ (
                    if str_eq "N" m
                    then some (symbol 1 "N" (const_int (pos 7)) (const_int (pos 7)))
                    else search_global_symbol no_symbols m))))
add_global_symbol_cst_lem_example =
    add_global_symbol_cst_lem allocates no_symbols "N" (const_int (pos 7)) no_symbols-IsTable
      (omega arith)
