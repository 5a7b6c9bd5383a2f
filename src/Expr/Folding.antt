-- ===== src/Expr/Folding.antt =====
-- The constructors of src/expr.c against `expr_eval`: where folding a constant keeps the meaning of
-- an expression, and where it does not.
use dague_hsa.Prelude.{
  ℕ, ◌≡◌, ◌⊎◌, inl, inr, refl, false, Option, none, some, List, arith, Option-cases,
}
use dague_hsa.Prelude.Int.{ℤ}
use dague_hsa.Outcome.{Outcome, ok, fail, fault, ◌>>=◌}
use dague_hsa.Expr.{
  Expr, null, const_int, symb, unary_not, binary, tertiar, inline, other, BinaryOp, equal_op,
  not_equal_op, plus_op, constant, apply_binary, eval,
}
use dague_hsa.Expr.Build.{is_null, new_binary, binary_op, folded, fold_constants}

pub eval-constant : (e : Expr) (env : List ℤ) (v : ℤ) → constant e ≡ some v → eval e env ≡ ok v
unfolding eval
eval-constant null env v h = ground arith
eval-constant (const_int x) env v h = ground arith
eval-constant (symb c s) env v h = ground arith
eval-constant (unary_not c e) env v h = ground arith
eval-constant (binary c op a b) env v h = ground arith
eval-constant (tertiar c t a b) env v h = ground arith
eval-constant (inline c f) env v h = ground arith
eval-constant (other c n) env v h = ground arith

-- Of these operators the folding gives the value that the evaluation gives.
abbrev pub FoldsWell : BinaryOp → Type 0
FoldsWell equal_op = ⊥
FoldsWell not_equal_op = ⊥
FoldsWell _ = Unit

fold_constants-apply_binary :
    (op : BinaryOp) (v w : ℤ) (r : Outcome ℤ)
    → FoldsWell op
    → fold_constants op v w ≡ some r
    → r ≡ apply_binary op v w
unfolding fold_constants apply_binary
fold_constants-apply_binary plus_op v w r f h = cc
fold_constants-apply_binary equal_op v w r f h = absurd f
fold_constants-apply_binary not_equal_op v w r f h = absurd f
fold_constants-apply_binary _ v w r f h = cc

-- a binary operation on the values of its operands
abbrev pub both : BinaryOp → Expr → Expr → List ℤ → Outcome ℤ
both op a b env = eval a env >>= λ v. eval b env >>= λ w. apply_binary op v w

bind-eval-flagged :
    (op : BinaryOp) (a b : Expr) (env : List ℤ) (r : Outcome ℤ)
    → ((r >>= λ v. ok (binary (some v) op a b)) >>= λ e. eval e env) ≡ r
unfolding eval
bind-eval-flagged op a b env (ok v) = refl
bind-eval-flagged op a b env (fail x) = refl
bind-eval-flagged op a b env fault = refl

-- what `new_binary` builds with an operator that it knows, from operands that are not NULL
new_binary-known :
    (a b : Expr) (c : ℕ) (op : BinaryOp)
    → is_null a ≡ false
    → is_null b ≡ false
    → binary_op c ≡ some op
    → new_binary a c b ≡ elim (folded op (constant a) (constant b)) [
      | none ↦ ok (binary none op a b)
      | some r ↦ r >>= λ v. ok (binary (some v) op a b)
    ]
unfolding new_binary
new_binary-known a b c op ha hb h = rw (ha, hb, h, new_binary)

folded-none :
    (op : BinaryOp) (x y : Option ℤ)
    → (folded op x y ≡ none)
      ⊎ ((v : ℤ) × (w : ℤ) × (r : Outcome ℤ) × (x ≡ some v)
          × (y ≡ some w)
          × (folded op x y ≡ some r)
          × (fold_constants op v w ≡ some r))
unfolding folded
folded-none op none y = inl refl
folded-none op (some v) none = inl refl
folded-none op (some v) (some w) = elim (Option-cases (fold_constants op v w)) [
  | inl e ↦ inl e
  | inr (r, e) ↦ inr (v, w, r, refl, refl, e, e)
]

eval-binary :
    (op : BinaryOp) (a b : Expr) (env : List ℤ) → eval (binary none op a b) env ≡ both op a b env
unfolding eval
eval-binary op a b env = refl

-- `expr_new_binary` with any of its operators but '=' and '!', folded or not, builds an expression
-- that evaluates as the operation on the values of its operands, errors and faults included.
pub new_binary-eval :
    (a b : Expr) (c : ℕ) (op : BinaryOp) (env : List ℤ)
    → is_null a ≡ false
    → is_null b ≡ false
    → binary_op c ≡ some op
    → FoldsWell op
    → (new_binary a c b >>= λ e. eval e env) ≡ both op a b env
new_binary-eval a b c op env ha hb h f =
    rw (new_binary-known a b c op ha hb h) (elim (folded-none op (constant a) (constant b)) [
      | inl e ↦ rw e (eval-binary op a b env)
      | inr (v, w, r, x, y, e, k) ↦
          rw (e, bind-eval-flagged op a b env r, eval-constant a env v x, eval-constant b env w y)
            (fold_constants-apply_binary op v w r f k)
    ])

pub constant-is_null : (e : Expr) (x : ℤ) → constant e ≡ some x → is_null e ≡ false
constant-is_null null x h = cc
constant-is_null (const_int y) x h = refl
constant-is_null (symb c s) x h = refl
constant-is_null (unary_not c e) x h = refl
constant-is_null (binary c op p q) x h = refl
constant-is_null (tertiar c t p q) x h = refl
constant-is_null (inline c f) x h = refl
constant-is_null (other c n) x h = refl

-- a node built from two constants with an operator that is folded
pub new_binary-constants :
    (a b : Expr) (c : ℕ) (op : BinaryOp) (env : List ℤ) (v w : ℤ) (r : Outcome ℤ)
    → constant a ≡ some v
    → constant b ≡ some w
    → binary_op c ≡ some op
    → fold_constants op v w ≡ some r
    → (new_binary a c b >>= λ e. eval e env) ≡ r
unfolding folded
new_binary-constants a b c op env v w r ha hb h k =
    rw
      (
        new_binary-known a b c op (constant-is_null a v ha) (constant-is_null b w hb) h,
        ha,
        hb,
        folded,
        k,
      )
      (bind-eval-flagged op a b env r)

pub both-constants :
    (a b : Expr) (op : BinaryOp) (env : List ℤ) (v w : ℤ)
    → constant a ≡ some v
    → constant b ≡ some w
    → both op a b env ≡ apply_binary op v w
both-constants a b op env v w ha hb = rw (eval-constant a env v ha, eval-constant b env w hb)
