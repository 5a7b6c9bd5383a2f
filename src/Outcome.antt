-- ===== src/Outcome.antt =====
-- How a call of src/expr.c or src/symbol.c ends: with a value, with one of the codes of
-- include/expr.h, or by a fault, where the C program aborts on an assertion, reads through NULL,
-- reads a variable that was never set, or computes outside the range of an `int`.
use dague_hsa.Prelude.{◌≡◌, true, false}
use dague_hsa.Prelude.Int.{ℤ, fits_int}

-- EXPR_FAILURE_SYMBOL_NOT_FOUND, _UNKNOWN_OP, _CANNOT_EVALUATE_RANGE and _UNKNOWN
pub data Failure : Type 0 where
  symbol_not_found unknown_op cannot_evaluate_range unknown : Failure

pub data Outcome {ℓ} (A : Type ℓ) : Type ℓ where
  ok : A → Outcome A
  fail : Failure → Outcome A
  fault : Outcome A

-- Go on with the value, if there is one.
module _ {ℓ κ} {A : Type ℓ} {B : Type κ} where
  infixl 5 ◌>>=◌
  abbrev pub ◌>>=◌ : Outcome A → (A → Outcome B) → Outcome B
  fault >>= next = fault
  fail code >>= next = fail code
  ok value >>= next = next value

-- The result of signed arithmetic, which is undefined out of range.
abbrev pub int_result : ℤ → Outcome ℤ
int_result v = elim (fits_int v) [ true ↦ ok v | false ↦ fault ]

pub int_result-fits : (v : ℤ) → fits_int v ≡ true → int_result v ≡ ok v
int_result-fits v h = rw (h, int_result)

-- A postcondition of the value.
abbrev pub Ensures {ℓ κ} : {A : Type ℓ} → (A → Type κ) → Outcome A → Type κ
Ensures P (ok a) = P a
Ensures P (fail e) = Unit
Ensures P fault = Unit

pub Ensures-bind {ℓ κ λ' μ} :
    {A : Type ℓ} {B : Type κ} (P : A → Type λ') (Q : B → Type μ) (m : Outcome A) (f : A → Outcome B)
    → Ensures P m
    → ((a : A) → P a → Ensures Q (f a))
    → Ensures Q (m >>= f)
Ensures-bind P Q (ok a) f h k = k a h
Ensures-bind P Q (fail e) f h k = tt
Ensures-bind P Q fault f h k = tt
