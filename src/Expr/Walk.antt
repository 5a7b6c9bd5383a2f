-- ===== src/Expr/Walk.antt =====
-- `expr_parse_symbols` and `expr_depend_on_symbol` of src/expr.c: the walks over the symbols of an
-- expression.
pub mod Laws
use text.Mathlib.Text.{◌==◌ as str_eq}
use Prim.Native.String.{String}
use dague_hsa.Prelude.{
  ◌≡◌, refl, sym, ◌∙◌, Bool, true, false, Option, none, some, List, [], ◌∷◌, ◌++◌, arith,
  if◌then◌else◌,
}
use dague_hsa.Prelude.Int.{ℤ}
use dague_hsa.Outcome.{
  Outcome, ok, fail, fault, ◌>>=◌, Failure, symbol_not_found, unknown_op, cannot_evaluate_range,
  unknown,
}
use dague_hsa.Expr.{
  Expr, null, const_int, symb, unary_not, binary, tertiar, inline, other, Symbol, symbol, name_of,
}

-- the code that a callback returns; `none` is EXPR_SUCCESS
abbrev pub Code : Type 0
Code = Option Failure

-- Go on with the data that a walk has left, unless it returned an error.
abbrev pub continue :
    {S : Type 0} → Outcome (Code × S) → (S → Outcome (Code × S)) → Outcome (Code × S)
continue (ok (none, st)) next = next st
continue (ok (some e, st)) next = ok (some e, st)
continue (fail e) next = fail e
continue fault next = fault

-- `expr_parse_symbols`, whose callback reads a symbol and changes the data
module _ {S : Type 0} (callback : Symbol → S → Code × S) where
  unfoldable pub parse_symbols : Expr → S → Outcome (Code × S)
  parse_symbols null st = fault
  parse_symbols (const_int v) st = ok (none, st)
  parse_symbols (symb c s) st = ok (callback s st)
  parse_symbols (unary_not c e) st = parse_symbols e st
  parse_symbols (binary c op a b) st = continue (parse_symbols a st) (parse_symbols b)
  parse_symbols (tertiar c t a b) st =
      continue (parse_symbols t st) (λ st'. continue (parse_symbols a st') (parse_symbols b))
  parse_symbols (inline c f) st = fault
  parse_symbols (other c n) st = fault

  -- the callback on one symbol after the other, up to the first error
  unfoldable pub each_symbol : List Symbol → S → Code × S
  each_symbol [] st = (none, st)
  each_symbol (s ∷ ss) st =
      let rest = each_symbol ss (callback s st).1 in
      elim (callback s st).0 [ none ↦ rest | some e ↦ (some e, (callback s st).1) ]

-- the symbols of an expression, from left to right
abbrev pub symbols_of : Expr → List Symbol
symbols_of (symb c s) = s ∷ []
symbols_of (unary_not c e) = symbols_of e
symbols_of (binary c op a b) = symbols_of a ++ symbols_of b
symbols_of (tertiar c t a b) = symbols_of t ++ (symbols_of a ++ symbols_of b)
symbols_of _ = []

-- No NULL, inlined or unknown node, on which the walks abort.
abbrev pub IsWalkable : Expr → Type 0
IsWalkable (const_int v) = Unit
IsWalkable (symb c s) = Unit
IsWalkable (unary_not c e) = IsWalkable e
IsWalkable (binary c op a b) = IsWalkable a × IsWalkable b
IsWalkable (tertiar c t a b) = IsWalkable t × IsWalkable a × IsWalkable b
IsWalkable _ = ⊥

-- `if( EXPR_FAILURE_SYMBOL_NOT_FOUND == rc )` try the next, else return `rc`
abbrev pub or_else : Outcome (Unit {0}) → Outcome (Unit {0}) → Outcome (Unit {0})
or_else (fail symbol_not_found) next = next
or_else (ok u) next = ok u
or_else (fail unknown_op) next = fail unknown_op
or_else (fail cannot_evaluate_range) next = fail cannot_evaluate_range
or_else (fail unknown) next = fail unknown
or_else fault next = fault

-- `expr_depend_on_symbol`, on the name of the symbol
unfoldable pub depend_on_symbol : Expr → String → Outcome (Unit {0})
depend_on_symbol null n = fault
depend_on_symbol (symb c s) n = if str_eq (name_of s) n then ok tt else fail symbol_not_found
depend_on_symbol (const_int v) n = fail symbol_not_found
depend_on_symbol (unary_not c e) n = depend_on_symbol e n
depend_on_symbol (binary c op a b) n = or_else (depend_on_symbol a n) (depend_on_symbol b n)
depend_on_symbol (tertiar c t a b) n =
    or_else (depend_on_symbol t n) (or_else (depend_on_symbol a n) (depend_on_symbol b n))
depend_on_symbol (inline c f) n = fault
depend_on_symbol (other c n) k = fault
