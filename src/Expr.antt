-- ===== src/Expr.antt =====
-- include/expr.h and src/expr.c: the expressions over the symbols of a dataflow program, and their
-- evaluation. The printing functions are not modelled.
pub mod Build
pub mod Folding
pub mod Bugs
pub mod Bounds
mod Tests
pub mod Walk
use dague_hsa.Prelude.{
  ℕ, suc, ◌+◌, ◌*◌, ◌^◌, Bool, true, false, not, ◌&&◌, ◌||◌, Option, none, some, List, [], ◌==◌,
  ltb, if◌then◌else◌,
}
use dague_hsa.Prelude.Int.{
  ℤ, pos, negsuc, ◌+ℤ◌, ◌-ℤ◌, ◌*ℤ◌, ◌==ℤ◌, ltb_ℤ, leb_ℤ, quot, rem, fits_int, pos_part,
}
use dague_hsa.Outcome.{
  Outcome, ok, fail, fault, ◌>>=◌, int_result, symbol_not_found, unknown_op, cannot_evaluate_range,
}
use Prim.Native.String.{String}

-- EXPR_OP_BINARY_MOD to EXPR_OP_BINARY_SHL
pub data BinaryOp : Type 0 where
  mod_op equal_op not_equal_op plus_op range_op minus_op times_op div_op or_op and_op xor_op :
      BinaryOp
  less_op less_or_equal_op more_op more_or_equal_op shl_op : BinaryOp

-- `struct expr` and `struct symbol`. The option of a node is its EXPR_FLAG_CONSTANT with `value`.
-- `null` is the NULL pointer, and `other` a node whose `op` is of no class. An `inline` node calls a
-- function of the generated code on the assignments; its object is part of the function.
mutual
  pub data Expr : Type 0 where
    null : Expr
    const_int : ℤ → Expr
    symb : Option ℤ → Symbol → Expr
    unary_not : Option ℤ → Expr → Expr
    binary : Option ℤ → BinaryOp → Expr → Expr → Expr
    tertiar : Option ℤ → Expr → Expr → Expr → Expr
    inline : Option ℤ → (List ℤ → ℤ) → Expr
    other : Option ℤ → ℕ → Expr

  pub data Symbol : Type 0 where
    symbol : ℕ → String → Expr → Expr → Symbol

abbrev pub name_of : Symbol → String
name_of (symbol flags name lo hi) = name

abbrev pub flags_of : Symbol → ℕ
flags_of (symbol flags name lo hi) = flags

abbrev pub min_of : Symbol → Expr
min_of (symbol flags name lo hi) = lo

abbrev pub max_of : Symbol → Expr
max_of (symbol flags name lo hi) = hi

-- `EXPR_FLAG_CONSTANT & expr->flags`, and `expr->value`
abbrev pub constant : Expr → Option ℤ
constant null = none
constant (const_int v) = some v
constant (symb c s) = c
constant (unary_not c e) = c
constant (binary c op a b) = c
constant (tertiar c t a b) = c
constant (inline c f) = c
constant (other c n) = c

-- C's truth values
abbrev pub of_bool : Bool → ℤ
of_bool true = pos 1
of_bool false = pos 0

abbrev pub is_true : ℤ → Bool
is_true v = not (v ==ℤ pos 0)

abbrev pub int_max : ℤ
int_max = pos 2147483647

-- `v1 << v2`, undefined where C leaves it so
unfoldable pub shift_left : ℤ → ℤ → Outcome ℤ
shift_left (pos a) (pos n) = if ltb n 32 then int_result (pos (a * 2 ^ n)) else fault
shift_left (pos a) (negsuc n) = fault
shift_left (negsuc a) b = fault

-- `v1 % v2`, undefined at 0 and where the quotient overflows
unfoldable pub modulo : ℤ → ℤ → Outcome ℤ
modulo a b = if b ==ℤ pos 0 then fault else int_result (quot a b) >>= λ _. ok (rem a b)

-- the `switch` of `expr_eval_binary`
unfoldable pub apply_binary : BinaryOp → ℤ → ℤ → Outcome ℤ
unfolding shift_left modulo
apply_binary mod_op a b = modulo a b
apply_binary equal_op a b = ok (of_bool (a ==ℤ b))
apply_binary not_equal_op a b = ok (of_bool (not (a ==ℤ b)))
apply_binary plus_op a b = int_result (a +ℤ b)
apply_binary minus_op a b = int_result (a -ℤ b)
apply_binary times_op a b = int_result (a *ℤ b)
apply_binary div_op a b = if b ==ℤ pos 0 then ok int_max else int_result (quot a b)
apply_binary and_op a b = ok (of_bool (is_true a && is_true b))
apply_binary or_op a b = ok (of_bool (is_true a || is_true b))
apply_binary xor_op a b = ok (of_bool ((is_true a || is_true b) && not (is_true a && is_true b)))
apply_binary less_op a b = ok (of_bool (ltb_ℤ a b))
apply_binary less_or_equal_op a b = ok (of_bool (leb_ℤ a b))
apply_binary more_op a b = ok (of_bool (ltb_ℤ b a))
apply_binary more_or_equal_op a b = ok (of_bool (leb_ℤ b a))
apply_binary shl_op a b = shift_left a b
apply_binary range_op a b = fail cannot_evaluate_range

-- the value of a node that is flagged constant, or else what the node computes
abbrev pub precomputed : Option ℤ → Outcome ℤ → Outcome ℤ
precomputed (some v) computed = ok v
precomputed none computed = computed

-- `expr_eval`, with `expr_eval_unary` and `expr_eval_binary`. Of a conditional it tests the pointer
-- `res`, which is never NULL, and so evaluates the first alternative whatever the condition gives.
unfoldable pub eval : Expr → List ℤ → Outcome ℤ
eval null env = fault
eval (const_int v) env = ok v
eval (inline c f) env = precomputed c (ok (f env))
eval (symb c s) env = precomputed c (fail symbol_not_found)
eval (unary_not c e) env = precomputed c (eval e env >>= λ v. ok (of_bool (not (is_true v))))
eval (binary c op a b) env =
    precomputed c (eval a env >>= λ v. eval b env >>= λ w. apply_binary op v w)
eval (tertiar c t a b) env = precomputed c (eval t env >>= λ _. eval a env)
eval (other c n) env = precomputed c (fail unknown_op)

-- `expr_range_to_min_max`; the assertion wants a range.
unfoldable pub range_to_min_max : Expr → List ℤ → Outcome (ℤ × ℤ)
range_to_min_max (binary c range_op a b) env = eval a env >>= λ lo. eval b env >>= λ hi. ok (lo, hi)
range_to_min_max _ env = fault
