-- ===== src/Generator/Stream.antt =====
-- `Rnd64_jump` of data_dist/matrix/matrix.c, against the sequence of numbers that it skips.
use native.Mathlib.Nat.{mod-add-mod, add-mod, div-add-mod, mul-add-mod_self_left, mul_comm}
use dague_hsa.Prelude.{
  ℕ, zero, suc, ◌+◌, ◌*◌, ◌/◌, ◌%◌, ◌^◌, ◌<◌, ◌≡◌, refl, sym, ap, ◌∙◌, arith, if◌then◌else◌, ◌==◌,
  inl, inr, Bool-cases,
}
use dague_hsa.Distribution.{w64}
use dague_hsa.Generator.{rnd64_a, rnd64_c, affine, jump_from, rnd64_jump}

-- so many steps of a function
abbrev pub iterate : (ℕ → ℕ) → ℕ → ℕ → ℕ
iterate f zero x = x
iterate f (suc n) x = iterate f n (f x)

pub iterate-add : (f : ℕ → ℕ) (m n x : ℕ) → iterate f (m + n) x ≡ iterate f n (iterate f m x)
iterate-add f zero n x = let e : 0 + n ≡ n = omega arith in rw e
iterate-add f (suc m) n x =
    let e : suc m + n ≡ suc (m + n) = omega arith in rw e (iterate-add f m n (f x))

-- Twice as many steps are so many double steps.
iterate-double :
    (f g : ℕ → ℕ) → ((x : ℕ) → f (f x) ≡ g x) → (n x : ℕ) → iterate f (n + n) x ≡ iterate g n x
iterate-double f g h zero x = refl
iterate-double f g h (suc n) x =
    let e : suc n + suc n ≡ suc (suc (n + n)) = omega arith in
    rw e (ap (iterate f (n + n)) (h x) ∙ iterate-double f g h n (g x))

iterate-halves :
    (f : ℕ → ℕ) (n x : ℕ)
    → iterate f n x ≡ iterate f (n / 2 + n / 2) (if n % 2 == 1 then f x else x)
iterate-halves f n x = elim (Bool-cases (n % 2 == 1)) [
  | inl odd ↦
      let e : n ≡ suc (n / 2 + n / 2) = ground arith in rw odd (ap (λ (k : ℕ). iterate f k x) e)
  | inr even ↦ let e : n ≡ n / 2 + n / 2 = ground arith in rw even (ap (λ (k : ℕ). iterate f k x) e)
]

module _ (m : ℕ) where
  mul-mod_left : (a b : ℕ) → a % m * b % m ≡ a * b % m
  mul-mod_left a b =
      let q = a / m in
      let e : a * b ≡ m * (q * b) + a % m * b = grind (arith, div-add-mod a m) in
      rw e (sym (mul-add-mod_self_left m (q * b) (a % m * b)))

  mul-mod_right : (a b : ℕ) → a * (b % m) % m ≡ a * b % m
  mul-mod_right a b = rw (mul_comm a (b % m), mul_comm a b) (mul-mod_left b a)

  linear-mod_right : (a t c : ℕ) → (a * (t % m) + c) % m ≡ (a * t + c) % m
  linear-mod_right a t c =
      sym (mod-add-mod (a * (t % m)) m c)
      ∙ ap (λ (u : ℕ). (u + c) % m) (mul-mod_right a t)
      ∙ mod-add-mod (a * t) m c

  products-mod : (a x c b : ℕ) → (a % m * x % m + c * (b % m) % m) % m ≡ (a * x + c * b) % m
  products-mod a x c b =
      ap (λ (u : ℕ). (u + c * (b % m) % m) % m) (mul-mod_left a x)
      ∙ ap (λ (u : ℕ). (a * x % m + u) % m) (mul-mod_right c b)
      ∙ sym (add-mod (a * x) (c * b) m)

  -- The steps of the loop square the affine function.
  squares :
      (a c x : ℕ)
      → (a * ((a * x % m + c) % m) % m + c) % m ≡ (a * a % m * x % m + c * ((a + 1) % m) % m) % m
  squares a c x =
      let e : a * (a * x + c) + c ≡ a * a * x + c * (a + 1) = grind arith in
      rw (mod-add-mod (a * ((a * x % m + c) % m)) m c, mod-add-mod (a * x) m c)
        (linear-mod_right a (a * x + c) c
          ∙ ap (λ (u : ℕ). u % m) e
          ∙ sym (products-mod (a * a) x c (a + 1)))

-- one step of the generator
abbrev pub rnd64_step : ℕ → ℕ
rnd64_step ran = affine rnd64_a rnd64_c ran

affine-affine :
    (a c x : ℕ) → affine a c (affine a c x) ≡ affine (w64 (a * a)) (w64 (c * w64 (a + 1))) x
unfolding affine
affine-affine a c x = squares (2 ^ 64) a c x

jump_from-iterate :
    (fuel n a c x : ℕ) → n < 2 ^ fuel → jump_from fuel n a c x ≡ iterate (affine a c) n x
unfolding jump_from
jump_from-iterate zero n a c x h = let e : n ≡ 0 = omega arith in rw e
jump_from-iterate (suc fuel) n a c x h = elim (Bool-cases (n == 0)) [
  | inl none_left ↦ let e : n ≡ 0 = ground arith in rw e
  | inr more ↦ rw more (
      jump_from-iterate fuel (n / 2) (w64 (a * a)) (w64 (c * w64 (a + 1))) _ (omega arith)
      ∙ sym (
          iterate-double (affine a c) (affine (w64 (a * a)) (w64 (c * w64 (a + 1))))
            (affine-affine a c) (n / 2) _)
      ∙ sym (iterate-halves (affine a c) n x))
]

-- `Rnd64_jump` of a number n of 64 bits gives what n steps of the generator give from the seed.
pub rnd64_jump-iterate : (seed n : ℕ) → n < 2 ^ 64 → rnd64_jump seed n ≡ iterate rnd64_step n seed
unfolding rnd64_jump
rnd64_jump-iterate seed n h = jump_from-iterate 64 n rnd64_a rnd64_c seed h
