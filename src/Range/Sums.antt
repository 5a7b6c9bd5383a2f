-- ===== src/Range/Sums.antt =====
-- `expr_absolute_range` of src/expr.c on sums of constants and local symbols.
use Prim.Native.String.{String}
use dague_hsa.Prelude.{◌≡◌, refl, true, none, some, arith}
use dague_hsa.Prelude.Int.{ℤ, pos, negsuc, ◌+ℤ◌, +ℤ_parts, ◌≤ℤ◌, fits_int}
use dague_hsa.Outcome.{Outcome, ok, fail, fault, int_result, int_result-fits}
use dague_hsa.Expr.{Expr, const_int, symb, unary_not, binary, tertiar, symbol, plus_op}
use dague_hsa.Symbols.{Table, search_global_symbol}
use dague_hsa.Range.{
  Direction, minimum, maximum, absolute_range_of, absolute_range, range_binary, choose, operand,
}

-- The value of a sum under values for the names of its symbols. A node that is flagged as constant
-- has the value that it was given when it was built.
abbrev pub sum_value : (String → ℤ) → Expr → ℤ
sum_value ρ (const_int v) = v
sum_value ρ (symb (some v) (symbol flags name lo hi)) = v
sum_value ρ (unary_not (some v) e) = v
sum_value ρ (binary (some v) op a b) = v
sum_value ρ (tertiar (some v) t a b) = v
sum_value ρ (symb none (symbol flags name lo hi)) = ρ name
sum_value ρ (binary none op a b) = sum_value ρ a +ℤ sum_value ρ b
sum_value ρ _ = pos 0

module _ (table : Table) (ρ : String → ℤ) where
  -- A sum of constants, those that were folded included, and local symbols, the ends of whose ranges are such sums again, at values
  -- within these ranges.
  abbrev pub IsSumIn : Expr → Type 0
  IsSumIn (const_int v) = Unit
  IsSumIn (symb (some v) (symbol flags name lo hi)) = Unit
  IsSumIn (unary_not (some v) e) = Unit
  IsSumIn (binary (some v) op a b) = Unit
  IsSumIn (tertiar (some v) t a b) = Unit
  IsSumIn (symb none (symbol flags name lo hi)) =
      (search_global_symbol table name ≡ none)
      × IsSumIn lo
      × IsSumIn hi
      × (sum_value ρ lo ≤ℤ ρ name)
      × (ρ name ≤ℤ sum_value ρ hi)
  IsSumIn (binary none plus_op a b) = IsSumIn a × IsSumIn b
  IsSumIn _ = ⊥

  -- the bound that a direction gives
  abbrev pub Bounds : Direction → ℤ → ℤ → Type 0
  Bounds minimum m v = m ≤ℤ v
  Bounds maximum m v = v ≤ℤ m

  int_result-eq-ok : (v m : ℤ) → int_result v ≡ ok m → v ≡ m
  int_result-eq-ok (pos n) m h = ground arith
  int_result-eq-ok (negsuc n) m h = ground arith

  operand-eq-ok : (r : Outcome ℤ) (v : ℤ) → operand r ≡ ok v → r ≡ ok v
  operand-eq-ok (ok x) v h = h
  operand-eq-ok (fail x) v h = cc
  operand-eq-ok fault v h = cc

  plus-Bounds :
      (d : Direction) (l r : Outcome ℤ) (m v w : ℤ)
      → range_binary plus_op l r ≡ ok m
      → ((x : ℤ) → l ≡ ok x → Bounds d x v)
      → ((x : ℤ) → r ≡ ok x → Bounds d x w)
      → Bounds d m (v +ℤ w)
  unfolding range_binary
  plus-Bounds d (ok x) (ok y) m v w h hl hr = bound d (hl x refl) (hr y refl)
    where
      e : x +ℤ y ≡ m
      e = int_result-eq-ok (x +ℤ y) m h

      bound : (d : Direction) → Bounds d x v → Bounds d y w → Bounds d m (v +ℤ w)
      bound minimum a b = rw (← e) (omega (arith, +ℤ_parts))
      bound maximum a b = rw (← e) (omega (arith, +ℤ_parts))
  plus-Bounds d (ok x) (fail y) m v w h hl hr = absurd (cc)
  plus-Bounds d (ok x) fault m v w h hl hr = absurd (cc)
  plus-Bounds d (fail x) r m v w h hl hr = absurd (cc)
  plus-Bounds d fault r m v w h hl hr = absurd (cc)

  -- The value that the recursion finds in a direction bounds the value of the sum from that side.
  pub absolute_range_of-Bounds :
      (d : Direction) (e : Expr) (m : ℤ)
      → IsSumIn e
      → absolute_range_of table d e ≡ ok m
      → Bounds d m (sum_value ρ e)
  unfolding absolute_range_of
  absolute_range_of-Bounds minimum (const_int v) m s h = ground arith
  absolute_range_of-Bounds maximum (const_int v) m s h = ground arith
  absolute_range_of-Bounds minimum (symb (some v) (symbol flags name lo hi)) m s h = ground arith
  absolute_range_of-Bounds maximum (symb (some v) (symbol flags name lo hi)) m s h = ground arith
  absolute_range_of-Bounds minimum (unary_not (some v) e) m s h = ground arith
  absolute_range_of-Bounds maximum (unary_not (some v) e) m s h = ground arith
  absolute_range_of-Bounds minimum (binary (some v) op a b) m s h = ground arith
  absolute_range_of-Bounds maximum (binary (some v) op a b) m s h = ground arith
  absolute_range_of-Bounds minimum (tertiar (some v) t a b) m s h = ground arith
  absolute_range_of-Bounds maximum (tertiar (some v) t a b) m s h = ground arith
  absolute_range_of-Bounds minimum (symb none (symbol flags name lo hi)) m s h =
      let low = absolute_range_of-Bounds minimum lo m s.1 (rw s.0 at h) in omega arith
  absolute_range_of-Bounds maximum (symb none (symbol flags name lo hi)) m s h =
      let high = absolute_range_of-Bounds maximum hi m s.2 (rw s.0 at h) in omega arith
  absolute_range_of-Bounds d (binary none plus_op a b) m s h =
      plus-Bounds d _ _ m (sum_value ρ a) (sum_value ρ b) h
        (λ x. absolute_range_of-Bounds d a x s.0) (λ x. absolute_range_of-Bounds d b x s.1)
  absolute_range_of-Bounds d _ m s h = absurd s

-- the bound of a sum in a direction, computed without overflow
abbrev pub bound_of : Direction → Expr → ℤ
bound_of d (const_int v) = v
bound_of d (symb (some v) (symbol flags name lo hi)) = v
bound_of d (unary_not (some v) e) = v
bound_of d (binary (some v) op a b) = v
bound_of d (tertiar (some v) t a b) = v
bound_of d (symb none (symbol flags name lo hi)) = choose d (bound_of d lo) (bound_of d hi)
bound_of d (binary none op a b) = bound_of d a +ℤ bound_of d b
bound_of d _ = pos 0

-- Every sum that the recursion forms is a value of `int`.
abbrev pub BoundsFit : Direction → Expr → Type 0
BoundsFit d (symb none (symbol flags name lo hi)) = choose d (BoundsFit d lo) (BoundsFit d hi)
BoundsFit d (binary none op a b) =
    BoundsFit d a × BoundsFit d b × (fits_int (bound_of d a +ℤ bound_of d b) ≡ true)
BoundsFit d _ = Unit

module _ (table : Table) (ρ : String → ℤ) where
  absolute_range_of-bound_of :
      (d : Direction) (e : Expr)
      → IsSumIn table ρ e
      → BoundsFit d e
      → absolute_range_of table d e ≡ ok (bound_of d e)
  unfolding absolute_range_of range_binary
  absolute_range_of-bound_of d (const_int v) s f = refl
  absolute_range_of-bound_of d (symb (some v) (symbol flags name lo hi)) x f = refl
  absolute_range_of-bound_of d (unary_not (some v) e) x f = refl
  absolute_range_of-bound_of d (binary (some v) op a b) x f = refl
  absolute_range_of-bound_of d (tertiar (some v) t a b) x f = refl
  absolute_range_of-bound_of minimum (symb none (symbol flags name lo hi)) s f =
      rw s.0 (absolute_range_of-bound_of minimum lo s.1 f)
  absolute_range_of-bound_of maximum (symb none (symbol flags name lo hi)) s f =
      rw s.0 (absolute_range_of-bound_of maximum hi s.2 f)
  absolute_range_of-bound_of d (binary none plus_op a b) s f =
      rw (absolute_range_of-bound_of d a s.0 f.0, absolute_range_of-bound_of d b s.1 f.1)
        (int_result-fits (bound_of d a +ℤ bound_of d b) f.2)
  absolute_range_of-bound_of d _ s f = absurd s

  -- Of a sum of constants and local symbols whose bounds do not overflow, where a constant may be a
  -- node that was folded when it was built, `expr_absolute_range` returns a range, and every value of the sum lies in it: whatever values within their own ranges
  -- the symbols take.
  pub absolute_range-bounds :
      (e : Expr)
      → IsSumIn table ρ e
      → BoundsFit minimum e
      → BoundsFit maximum e
      → (lo : ℤ) × (hi : ℤ) × (absolute_range table e ≡ ok (lo, hi))
        × (lo ≤ℤ sum_value ρ e)
        × (sum_value ρ e ≤ℤ hi)
  unfolding absolute_range
  absolute_range-bounds e s f g =
      let p = absolute_range_of-bound_of minimum e s f in
      let q = absolute_range_of-bound_of maximum e s g in
      (
        bound_of minimum e,
        bound_of maximum e,
        rw (p, q),
        absolute_range_of-Bounds table ρ minimum e _ s p,
        absolute_range_of-Bounds table ρ maximum e _ s q,
      )
