-- ===== src/Expr/Bounds.antt =====
-- `expr_eval` of src/expr.c and the range of `int`.
use native.Mathlib.Nat.{mod-le}
use dague_hsa.Prelude.{
  suc, ◌*◌, ◌^◌, ◌≡◌, refl, Bool, true, false, Option, none, some, List, arith, if◌then◌else◌, ltb,
  Bool-cases, inl, inr,
}
use dague_hsa.Prelude.Int.{ℤ, pos, negsuc, fits_int, rem, quot, ◌==ℤ◌, ◌+ℤ◌, ◌-ℤ◌, ◌*ℤ◌}
use dague_hsa.Outcome.{Outcome, int_result, Ensures, Ensures-bind}
use dague_hsa.Expr.{
  Expr, null, const_int, symb, unary_not, binary, tertiar, inline, other, BinaryOp, mod_op,
  equal_op, not_equal_op, plus_op, range_op, minus_op, times_op, div_op, or_op, and_op, xor_op,
  less_op, less_or_equal_op, more_op, more_or_equal_op, shl_op, of_bool, apply_binary, precomputed,
  eval,
}

abbrev pub IsInt : ℤ → Type 0
IsInt v = fits_int v ≡ true

abbrev pub ConstantFits : Option ℤ → Type 0
ConstantFits none = Unit
ConstantFits (some v) = IsInt v

-- The constants in an expression are values of `int`, and its functions return such.
abbrev pub IsIntExpr : Expr → Type 0
IsIntExpr null = Unit
IsIntExpr (const_int v) = IsInt v
IsIntExpr (symb c s) = ConstantFits c
IsIntExpr (unary_not c e) = ConstantFits c × IsIntExpr e
IsIntExpr (binary c op a b) = ConstantFits c × IsIntExpr a × IsIntExpr b
IsIntExpr (tertiar c t a b) = ConstantFits c × IsIntExpr t × IsIntExpr a × IsIntExpr b
IsIntExpr (inline c f) = ConstantFits c × ((env : List ℤ) → IsInt (f env))
IsIntExpr (other c n) = ConstantFits c

abbrev EnsuresInt : Outcome ℤ → Type 0
EnsuresInt = Ensures IsInt

of_bool-IsInt : (b : Bool) → IsInt (of_bool b)
of_bool-IsInt true = refl
of_bool-IsInt false = refl

int_result-IsInt : (v : ℤ) → EnsuresInt (int_result v)
int_result-IsInt (pos n) = elim (Bool-cases (ltb n (2 ^ 31))) [
  | inl e ↦ rw (e, int_result) e
  | inr e ↦ rw (e, int_result) tt
]
int_result-IsInt (negsuc n) = elim (Bool-cases (ltb n (2 ^ 31))) [
  | inl e ↦ rw (e, int_result) e
  | inr e ↦ rw (e, int_result) tt
]

rem-IsInt : (a b : ℤ) → IsInt a → IsInt (rem a b)
unfolding rem
rem-IsInt (pos a) (pos b) h = ground (arith, mod-le a b)
rem-IsInt (pos a) (negsuc b) h = ground (arith, mod-le a (suc b))
rem-IsInt (negsuc a) (pos b) h = ground (arith, mod-le (suc a) b)
rem-IsInt (negsuc a) (negsuc b) h = ground (arith, mod-le (suc a) (suc b))

if-IsInt :
    (b : Bool) (x y : Outcome ℤ) → EnsuresInt x → EnsuresInt y → EnsuresInt (if b then x else y)
if-IsInt true x y h k = h
if-IsInt false x y h k = k

apply_binary-IsInt : (op : BinaryOp) (a b : ℤ) → IsInt a → EnsuresInt (apply_binary op a b)
unfolding apply_binary
apply_binary-IsInt mod_op a b h = if-IsInt (b ==ℤ pos 0) _ _ tt (
    Ensures-bind IsInt IsInt (int_result (quot a b)) _ (int_result-IsInt (quot a b))
      (λ _ _. rem-IsInt a b h))
apply_binary-IsInt equal_op a b h = of_bool-IsInt _
apply_binary-IsInt not_equal_op a b h = of_bool-IsInt _
apply_binary-IsInt plus_op a b h = int_result-IsInt (a +ℤ b)
apply_binary-IsInt minus_op a b h = int_result-IsInt (a -ℤ b)
apply_binary-IsInt times_op a b h = int_result-IsInt (a *ℤ b)
apply_binary-IsInt div_op a b h = if-IsInt (b ==ℤ pos 0) _ _ refl (int_result-IsInt (quot a b))
apply_binary-IsInt and_op a b h = of_bool-IsInt _
apply_binary-IsInt or_op a b h = of_bool-IsInt _
apply_binary-IsInt xor_op a b h = of_bool-IsInt _
apply_binary-IsInt less_op a b h = of_bool-IsInt _
apply_binary-IsInt less_or_equal_op a b h = of_bool-IsInt _
apply_binary-IsInt more_op a b h = of_bool-IsInt _
apply_binary-IsInt more_or_equal_op a b h = of_bool-IsInt _
apply_binary-IsInt shl_op (pos a) (pos n) h =
    if-IsInt (ltb n 32) _ _ (int_result-IsInt (pos (a * 2 ^ n))) tt
apply_binary-IsInt shl_op (pos a) (negsuc n) h = tt
apply_binary-IsInt shl_op (negsuc a) b h = tt
apply_binary-IsInt range_op a b h = tt

precomputed-IsInt :
    (c : Option ℤ) (r : Outcome ℤ) → ConstantFits c → EnsuresInt r → EnsuresInt (precomputed c r)
precomputed-IsInt none r h k = k
precomputed-IsInt (some v) r h k = h

-- Of an expression whose constants are values of `int`, flagged ones included, and whose functions
-- return such values, `expr_eval` returns a value of `int` wherever it succeeds.
pub eval-IsInt : (e : Expr) (env : List ℤ) → IsIntExpr e → Ensures IsInt (eval e env)
unfolding eval
eval-IsInt null env h = tt
eval-IsInt (const_int v) env h = h
eval-IsInt (symb c s) env h = precomputed-IsInt c _ h tt
eval-IsInt (unary_not c e) env h =
    precomputed-IsInt c _ h.0
      (Ensures-bind IsInt IsInt (eval e env) _ (eval-IsInt e env h.1) (λ v _. of_bool-IsInt _))
eval-IsInt (binary c op a b) env h = precomputed-IsInt c _ h.0 (
    Ensures-bind IsInt IsInt (eval a env) _ (eval-IsInt a env h.1) λ v hv.
      Ensures-bind IsInt IsInt (eval b env) _ (eval-IsInt b env h.2)
        λ w _. apply_binary-IsInt op v w hv)
eval-IsInt (tertiar c t a b) env h =
    precomputed-IsInt c _ h.0
      (Ensures-bind IsInt IsInt (eval t env) _ (eval-IsInt t env h.1) (λ _ _. eval-IsInt a env h.2))
eval-IsInt (inline c f) env h = precomputed-IsInt c _ h.0 (h.1 env)
eval-IsInt (other c n) env h = precomputed-IsInt c _ h tt
