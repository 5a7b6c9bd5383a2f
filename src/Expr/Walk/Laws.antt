-- ===== src/Expr/Walk/Laws.antt =====
-- The walks of src/expr.c against the list of the symbols of an expression.
use text.Mathlib.Text.{◌==◌ as str_eq}
use Prim.Native.String.{String}
use mathlib.Core.Path.{fun_ext}
use dague_hsa.Prelude.{
  ◌≡◌, refl, sym, ap, ◌∙◌, Bool, true, false, List, [], ◌∷◌, ◌++◌, arith, if◌then◌else◌,
}
use dague_hsa.Outcome.{Outcome, ok, fail, symbol_not_found}
use dague_hsa.Expr.{
  Expr, null, const_int, symb, unary_not, binary, tertiar, inline, other, Symbol, name_of,
}
use dague_hsa.Expr.Walk.{
  Code, continue, parse_symbols, each_symbol, symbols_of, IsWalkable, depend_on_symbol,
}

module _ {S : Type 0} (callback : Symbol → S → Code × S) where
  each_symbol-append :
      (xs ys : List Symbol) (st : S)
      → ok (each_symbol callback (xs ++ ys) st)
        ≡ continue (ok (each_symbol callback xs st)) (λ st'. ok (each_symbol callback ys st'))
  unfolding each_symbol
  each_symbol-append [] ys st = refl
  each_symbol-append (s ∷ xs) ys st = ground (arith, each_symbol-append xs ys (callback s st).1)

  -- One walk after the other.
  continue-each_symbol :
      (m : Outcome (Code × S)) (next : S → Outcome (Code × S)) (xs ys : List Symbol) (st : S)
      → m ≡ ok (each_symbol callback xs st)
      → ((st' : S) → next st' ≡ ok (each_symbol callback ys st'))
      → continue m next ≡ ok (each_symbol callback (xs ++ ys) st)
  continue-each_symbol m next xs ys st e f =
      ap (λ r. continue r next) e
      ∙ ap (continue (ok (each_symbol callback xs st))) (fun_ext f)
      ∙ sym (each_symbol-append xs ys st)

  -- Over an expression with no node that aborts it, `expr_parse_symbols` calls the callback on each
  -- symbol of the expression from left to right, and stops at the first error with its code.
  pub parse_symbols-each_symbol :
      (e : Expr) (st : S)
      → IsWalkable e
      → parse_symbols callback e st ≡ ok (each_symbol callback (symbols_of e) st)
  unfolding parse_symbols each_symbol
  parse_symbols-each_symbol null st h = absurd h
  parse_symbols-each_symbol (const_int v) st h = refl
  parse_symbols-each_symbol (symb c s) st h = ground arith
  parse_symbols-each_symbol (unary_not c e) st h = parse_symbols-each_symbol e st h
  parse_symbols-each_symbol (binary c op a b) st h =
      continue-each_symbol (parse_symbols callback a st) (parse_symbols callback b) (symbols_of a)
        (symbols_of b) st (parse_symbols-each_symbol a st h.0)
        (λ st'. parse_symbols-each_symbol b st' h.1)
  parse_symbols-each_symbol (tertiar c t a b) st h =
      continue-each_symbol (parse_symbols callback t st) _ (symbols_of t)
        (symbols_of a ++ symbols_of b) st (parse_symbols-each_symbol t st h.0)
        (λ u.
          continue-each_symbol (parse_symbols callback a u) (parse_symbols callback b)
            (symbols_of a) (symbols_of b) u (parse_symbols-each_symbol a u h.1)
            (λ st'. parse_symbols-each_symbol b st' h.2))
  parse_symbols-each_symbol (inline c f) st h = absurd h
  parse_symbols-each_symbol (other c n) st h = absurd h

abbrev pub has_name : String → List Symbol → Bool
has_name n [] = false
has_name n (s ∷ ss) = if str_eq (name_of s) n then true else has_name n ss

has_name-append :
    (n : String) (xs ys : List Symbol)
    → has_name n (xs ++ ys) ≡ (if has_name n xs then true else has_name n ys)
has_name-append n [] ys = refl
has_name-append n (s ∷ xs) ys = ground (arith, has_name-append n xs ys)

-- Over an expression with no node that aborts it, `expr_depend_on_symbol` succeeds exactly if a
-- symbol of the expression has the name, and says EXPR_FAILURE_SYMBOL_NOT_FOUND if none has.
pub depend_on_symbol-has_name :
    (e : Expr) (n : String)
    → IsWalkable e
    → depend_on_symbol e n ≡ (if has_name n (symbols_of e) then ok tt else fail symbol_not_found)
unfolding depend_on_symbol
depend_on_symbol-has_name null n h = absurd h
depend_on_symbol-has_name (const_int v) n h = refl
depend_on_symbol-has_name (symb c s) n h = ground arith
depend_on_symbol-has_name (unary_not c e) n h = depend_on_symbol-has_name e n h
depend_on_symbol-has_name (binary c op a b) n h = ground (
  arith,
  has_name-append n (symbols_of a) (symbols_of b),
  depend_on_symbol-has_name a n h.0,
  depend_on_symbol-has_name b n h.1,
)
depend_on_symbol-has_name (tertiar c t a b) n h = ground (
  arith,
  has_name-append n (symbols_of t) (symbols_of a ++ symbols_of b),
  has_name-append n (symbols_of a) (symbols_of b),
  depend_on_symbol-has_name t n h.0,
  depend_on_symbol-has_name a n h.1,
  depend_on_symbol-has_name b n h.2,
)
depend_on_symbol-has_name (inline c f) n h = absurd h
depend_on_symbol-has_name (other c m) n h = absurd h
