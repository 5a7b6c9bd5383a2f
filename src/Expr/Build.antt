-- ===== src/Expr/Build.antt =====
-- The constructors of src/expr.c, `expr_new_var` to `expr_new_tertiar`, with the constant folding
-- that they do.
use dague_hsa.Prelude.{
  ℕ, ◌%◌, Bool, true, false, not, ◌&&◌, Option, none, some, ◌==◌, if◌then◌else◌,
}
use dague_hsa.Prelude.Int.{ℤ, pos, ◌+ℤ◌, ◌-ℤ◌, ◌*ℤ◌, ltb_ℤ, leb_ℤ}
use dague_hsa.Outcome.{Outcome, ok, fault, ◌>>=◌, int_result}
use dague_hsa.Expr.{
  Expr, null, const_int, symb, unary_not, binary, tertiar, other, Symbol, BinaryOp, mod_op,
  equal_op, not_equal_op, plus_op, range_op, minus_op, times_op, div_op, or_op, and_op, xor_op,
  less_op, less_or_equal_op, more_op, more_or_equal_op, shl_op, constant, of_bool, is_true,
  shift_left, modulo, flags_of, min_of,
}

abbrev pub is_null : Expr → Bool
is_null null = true
is_null _ = false

-- `dague_symbol_is_global`
abbrev pub is_global : Symbol → Bool
is_global s = flags_of s % 2 == 1

-- `expr_new_var`
unfoldable pub new_var : Symbol → Expr
new_var s = symb (if is_global s then constant (min_of s) else none) s

-- `expr_new_int`
unfoldable pub new_int : ℤ → Expr
new_int v = const_int v

-- `expr_new_unary`: the folded value is the negation of the new node's own value, which `calloc` has
-- set to 0. For another operator the node has no class.
unfoldable pub new_unary : ℕ → Expr → Outcome Expr
new_unary op e =
    if op == b'!'
    then (if is_null e
        then fault
        else ok (
            unary_not
              (elim (constant e) [ none ↦ none | some v ↦ some (of_bool (not (is_true (pos 0)))) ])
              e))
    else ok (other none 0)

-- the `switch` of `expr_new_binary`, on the operator
unfoldable pub binary_op : ℕ → Option BinaryOp
binary_op c =
    if c == b'+'
    then some plus_op
    else if c == b'-'
    then some minus_op
    else if c == b'*'
    then some times_op
    else if c == b'%'
    then some mod_op
    else if c == b'='
    then some equal_op
    else if c == b'!'
    then some not_equal_op
    else if c == b'.'
    then some range_op
    else if c == b'/'
    then some div_op
    else if c == b'|'
    then some or_op
    else if c == b'&'
    then some and_op
    else if c == b'^'
    then some xor_op
    else if c == b'<'
    then some less_op
    else if c == b'{'
    then some less_or_equal_op
    else if c == b'>'
    then some more_op
    else if c == b'}'
    then some more_or_equal_op
    else if c == b'L'
    then some shl_op
    else none

-- its values where both operands are constant; `none` where it folds nothing
unfoldable pub fold_constants : BinaryOp → ℤ → ℤ → Option (Outcome ℤ)
fold_constants plus_op a b = some (int_result (a +ℤ b))
fold_constants minus_op a b = some (int_result (a -ℤ b))
fold_constants times_op a b = some (int_result (a *ℤ b))
fold_constants mod_op a b = some (modulo a b)
fold_constants equal_op a b = some (ok (of_bool (is_true a && is_true b)))
fold_constants not_equal_op a b = some (ok (of_bool (not (is_true a && is_true b))))
fold_constants less_op a b = some (ok (of_bool (ltb_ℤ a b)))
fold_constants less_or_equal_op a b = some (ok (of_bool (leb_ℤ a b)))
fold_constants more_op a b = some (ok (of_bool (ltb_ℤ b a)))
fold_constants more_or_equal_op a b = some (ok (of_bool (leb_ℤ b a)))
fold_constants shl_op a b = some (shift_left a b)
fold_constants _ a b = none

-- the value of a new binary node, if both operands are constant and the operator is folded
unfoldable pub folded : BinaryOp → Option ℤ → Option ℤ → Option (Outcome ℤ)
unfolding fold_constants
folded op (some v) (some w) = fold_constants op v w
folded op _ _ = none

-- `expr_new_binary`; an unknown operator gives NULL.
unfoldable pub new_binary : Expr → ℕ → Expr → Outcome Expr
unfolding binary_op folded
new_binary a c b = if is_null a then fault else if is_null b then fault else elim (binary_op c) [
  | none ↦ ok null
  | some op ↦ elim (folded op (constant a) (constant b)) [
    | none ↦ ok (binary none op a b)
    | some r ↦ r >>= λ v. ok (binary (some v) op a b)
  ]
]

-- `expr_new_tertiar`
unfoldable pub new_tertiar : Expr → Expr → Expr → Outcome Expr
new_tertiar t a b = if is_null t then fault else elim (constant t) [
  | some v ↦ ok (if is_true v then a else b)
  | none ↦ ok (tertiar none t a b)
]
