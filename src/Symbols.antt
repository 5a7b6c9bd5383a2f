-- ===== src/Symbols.antt =====
-- src/symbol.c: the table of the symbols of a program. Memory allocation is taken to succeed. The
-- printing functions, and the lookup of a symbol by its address, are not modelled.
pub mod Laws
pub mod Standalone
mod Tests
use text.Mathlib.Text.{◌==◌ as str_eq}
use Prim.Native.String.{String}
use dague_hsa.Prelude.{
  not, ◌&&◌, ◌^◌, ℕ, suc, ◌+◌, ◌*◌, ◌%◌, Bool, true, false, Option, none, some, List, [], ◌∷◌, ◌++◌,
  ◌==◌, ltb, leb, if◌then◌else◌, length, get_elem?,
}
use dague_hsa.Prelude.Int.{ℤ, pos, negsuc}
use dague_hsa.Outcome.{Outcome, ok, fail, fault, ◌>>=◌, unknown, symbol_not_found}
use dague_hsa.Expr.{Expr, null, Symbol, symbol, name_of, min_of, max_of, flags_of}
use dague_hsa.Expr.Build.{is_global}
use dague_hsa.Expr.Walk.{Code, parse_symbols}

-- `dague_symbol_array` with its count, and the room that is allocated for it
pub record Table : Type 0 where
  pub symbols : List Symbol
  pub size : ℕ

abbrev pub no_symbols : Table
no_symbols = record { symbols = []; size = 0 }

-- `dague_symbol_get_count`
unfoldable pub get_count : Table → ℕ
get_count t = length t.symbols

-- `dague_symbol_get_element_at`: a negative index is not checked for, and reads before the array.
unfoldable pub get_element_at : Table → ℤ → Outcome (Option Symbol)
unfolding get_count
get_element_at t (pos i) =
    if leb (get_count t) i
    then ok none
    else elim (get_elem? t.symbols i) [ none ↦ fault | some s ↦ ok (some s) ]
get_element_at t (negsuc i) = fault

-- the loop of `dague_search_global_symbol`
unfoldable pub search : List Symbol → String → Option Symbol
search [] n = none
search (s ∷ ss) n = if str_eq (name_of s) n then some s else search ss n

-- `dague_search_global_symbol`
unfoldable pub search_global_symbol : Table → String → Option Symbol
unfolding search
search_global_symbol t n = search t.symbols n

-- the loop of `dague_load_symbols`: the symbols whose names are not there yet
unfoldable pub load : List Symbol → List Symbol → List Symbol
load known [] = known
load known (s ∷ ss) =
    load (elim (search known (name_of s)) [ none ↦ known ++ s ∷ [] | some found ↦ known ]) ss

-- `dague_load_symbols`
unfoldable pub load_symbols : Table → List Symbol → Table
unfolding load
load_symbols t xs =
    let room = length xs + length t.symbols in
    record { symbols = load t.symbols xs; size = if ltb t.size room then room else t.size }

-- `symbol->min = expr; symbol->max = expr;` on the symbol that the search has found
unfoldable pub set_range : List Symbol → String → Expr → List Symbol
set_range [] n e = []
set_range (symbol flags name lo hi ∷ ss) n e =
    if str_eq name n then symbol flags name e e ∷ ss else symbol flags name lo hi ∷ set_range ss n e

-- `dague_assign_global_symbol`; its error is -1.
unfoldable pub assign_global_symbol : Table → String → Expr → Outcome Table
unfolding search_global_symbol set_range
assign_global_symbol t n e = elim (search_global_symbol t n) [
  | none ↦ fail symbol_not_found
  | some s ↦ ok (record t { symbols = set_range t.symbols n e })
]

-- the room after one more symbol
unfoldable pub grow : ℕ → ℕ → ℕ
grow count size = if leb size count then (if size == 0 then 4 else size * 2) else size

-- whether the table is full
abbrev pub is_full : Table → Bool
is_full t = leb t.size (length t.symbols)

-- `allocates` says of how many bytes `realloc` gives; `calloc` and `strdup`, which the code does not
-- check, are taken to give theirs.
module _ (allocates : ℕ → Bool) where
  -- `dague_add_global_symbol`; its errors are -1. It faults where the room is no `int`.
  unfoldable pub add_global_symbol : Table → String → Outcome Table
  unfolding search_global_symbol grow
  add_global_symbol t n = elim (search_global_symbol t n) [
    | some s ↦ fail symbol_not_found
    | none ↦
        let size = grow (length t.symbols) t.size in
        if leb (2 ^ 31) size
        then fault
        else if is_full t && not (allocates (size * 8))
        then fail symbol_not_found
        else ok (record { symbols = t.symbols ++ symbol 1 n null null ∷ []; size = size })
  ]

  -- `dague_add_global_symbol_cst`
  unfoldable pub add_global_symbol_cst : Table → String → Expr → Outcome Table
  unfolding add_global_symbol assign_global_symbol
  add_global_symbol_cst t n e = add_global_symbol t n >>= λ t'. assign_global_symbol t' n e

-- `dague_expr_parse_callback`: it counts the local symbols.
unfoldable pub parse_callback : Symbol → ℕ → Code × ℕ
parse_callback s count = (none, if is_global s then count else count + 1)

-- `dague_symbol_is_standalone`
unfoldable pub is_standalone : Symbol → Outcome (Unit {0})
unfolding parse_callback
is_standalone s = parse_symbols parse_callback (min_of s) 0 >>= λ r. elim r.0 [
  | some e ↦ fail e
  | none ↦
      if r.1 == 0
      then (parse_symbols parse_callback (max_of s) r.1 >>= λ q. elim q.0 [
        | some e ↦ fail e
        | none ↦ if q.1 == 0 then ok tt else fail unknown
      ])
      else fail unknown
]
