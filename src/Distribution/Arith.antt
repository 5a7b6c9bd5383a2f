-- ===== src/Distribution/Arith.antt =====
-- Counting numbers below a limit, and divisions of unsigned values: lemmas for the distributions.
use native.Mathlib.Nat.{
  add-mul-mod_self_right, mul-add-div_right, mod-eq_of_lt, div-eq_of_lt, div-add-mod', add-zero,
  add-suc, add_comm,
}
use dague_hsa.Prelude.{
  ℕ, zero, suc, ◌+◌, ◌*◌, ◌/◌, ◌%◌, ◌<◌, ◌≤◌, ◌≡◌, Bool, true, false, arith, if◌then◌else◌, ◌↔◌,
}

-- how many numbers below a limit pass a test
abbrev pub count_below : (ℕ → Bool) → ℕ → ℕ
count_below p zero = 0
count_below p (suc n) = (if p n then 1 else 0) + count_below p n

pub count_below-run :
    (p : ℕ → Bool) (a n : ℕ)
    → ((i : ℕ) → i < n → p (a + i) ≡ true)
    → count_below p (a + n) ≡ count_below p a + n
count_below-run p a zero h = rw (add-zero a, add-zero (count_below p a))
count_below-run p a (suc n) h =
    let rest = count_below-run p a n (λ i l. h i (omega arith)) in
    rw (add-suc a n, h n (omega arith)) (omega (arith, rest))

pub count_below-gap :
    (p : ℕ → Bool) (a n : ℕ)
    → ((i : ℕ) → i < n → p (a + i) ≡ false)
    → count_below p (a + n) ≡ count_below p a
count_below-gap p a zero h = rw (add-zero a)
count_below-gap p a (suc n) h =
    let rest = count_below-gap p a n (λ i l. h i (omega arith)) in
    rw (add-suc a n, h n (omega arith)) (omega (arith, rest))

pub count_below-le : (p : ℕ → Bool) (n : ℕ) → count_below p n ≤ n
count_below-le p zero = omega arith
count_below-le p (suc n) = ground (arith, count_below-le p n)

pub mod-add_mul : (r k n : ℕ) → r < n → (r + k * n) % n ≡ r
mod-add_mul r k n h = rw (add-mul-mod_self_right r k n) (mod-eq_of_lt h)

-- The row and the column of a rank in a grid.
pub grid_iff :
    (r c cols rank : ℕ) → c < cols → (r * cols + c ≡ rank) ↔ ((r ≡ rank / cols) × (c ≡ rank % cols))
grid_iff r c cols rank h = (
  λ e. rw (← e) (
    omega (arith, mul-add-div_right {m = cols} (omega arith) r c, div-eq_of_lt h),
    rw (add_comm (r * cols) c, mod-add_mul c r cols h),
  ),
  λ e. rw (e.0, e.1) (div-add-mod' rank cols),
)
