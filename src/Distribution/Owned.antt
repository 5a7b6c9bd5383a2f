-- ===== src/Distribution/Owned.antt =====
-- The loop of `two_dim_block_cyclic_init` over tile rows, or columns, against the ones that a process
-- owns.
use native.Mathlib.Nat.{
  mul-add-div_right, mod-eq_of_lt, add-zero, mul-le-mul_right, zero-add, add_assoc,
  le-div_iff_mul-le, mod-eq-sub-mod, div-eq_of_lt, add-mul-mod_self_right, div-lt_iff_lt-mul,
}
use dague_hsa.Prelude.{
  ℕ, zero, suc, ◌+◌, ◌-◌, ◌*◌, ◌/◌, ◌%◌, ◌^◌, ◌<◌, ◌≤◌, ◌≡◌, ◌≢◌, Bool, true, false, some, arith,
  ◌==◌, dec_lt, ◌∙◌, sym, ap,
}
use dague_hsa.Distribution.{w32, sub32}
use dague_hsa.Distribution.Arith.{
  count_below, count_below-run, count_below-gap, count_below-le, mod-add_mul,
}
use dague_hsa.Distribution.TwoDim.{count_owned, owned_rows}

-- The block of a row belongs to a rank in a dimension of the grid.
abbrev pub belongs : (rank grid block : ℕ) → ℕ → Bool
belongs rank grid block r = r / block % grid == rank

-- the first row of a block of a rank
abbrev block_start : ℕ → ℕ → ℕ → ℕ → ℕ
block_start rank grid block k = (rank + k * grid) * block

module _ (rank grid block : ℕ) (hr : rank < grid) (hb : 0 < block) where
  abbrev start : ℕ → ℕ
  start = block_start rank grid block

  belongs-start : (k i : ℕ) → i < block → belongs rank grid block (start k + i) ≡ true
  belongs-start k i h =
      rw (mul-add-div_right hb (rank + k * grid) i, div-eq_of_lt h)
        (rw (add-zero (rank + k * grid), mod-add_mul rank k grid hr) (ground arith))

  pub mod-later : (j : ℕ) → 0 < j → j < grid → (rank + j) % grid ≢ rank
  mod-later j p h e = elim (dec_lt (rank + j) grid) [
    | yes l ↦ let q = mod-eq_of_lt l in omega arith
    | no l ↦
        let q = mod-eq-sub-mod {n = rank + j} {m = grid} (omega arith) in
        let s = mod-eq_of_lt {n = rank + j - grid} {m = grid} (omega arith) in omega arith
  ]

  -- (a + k * n) % n, with the summand in the middle
  pub mod-middle : (k j : ℕ) → (rank + k * grid + j) % grid ≡ (rank + j) % grid
  mod-middle k j =
      let e = add-mul-mod_self_right (rank + j) k grid in
      let f : rank + k * grid + j ≡ rank + j + k * grid = omega arith in rw f e

  belongs-gap :
      (k i : ℕ) → block ≤ i → i < grid * block → belongs rank grid block (start k + i) ≡ false
  belongs-gap k i l h =
      let later =
        mod-later (i / block) ((le-div_iff_mul-le {k = block} {x = 1} {y = i} hb).1 (omega arith))
          ((div-lt_iff_lt-mul {k = block} {x = i} {y = grid} hb).1 h) in
      rw (mul-add-div_right hb (rank + k * grid) i, mod-middle k (i / block))
        (ground (arith, later))

  belongs-before : (i : ℕ) → i < rank * block → belongs rank grid block (0 + i) ≡ false
  belongs-before i h =
      let small = (div-lt_iff_lt-mul {k = block} {x = i} {y = rank} hb).1 h in
      rw (zero-add i, mod-eq_of_lt {n = i / block} {m = grid} (omega arith)) (ground (arith, small))

  -- Before the first block no row counts.
  count_before-start : (n : ℕ) → n ≤ rank * block → count_below (belongs rank grid block) n ≡ 0
  count_before-start n h =
      rw (← (zero-add n))
        (count_below-gap (belongs rank grid block) 0 n (λ i l. belongs-before i (omega arith)))

  -- Within a block every row counts.
  count_in-block :
      (k n : ℕ)
      → n ≤ block
      → count_below (belongs rank grid block) (start k + n)
        ≡ count_below (belongs rank grid block) (start k) + n
  count_in-block k n h =
      count_below-run (belongs rank grid block) (start k) n (λ i l. belongs-start k i (omega arith))

  -- From the end of a block to the next no row counts.
  count_after-block :
      (k n : ℕ)
      → block + n ≤ grid * block
      → count_below (belongs rank grid block) (start k + block + n)
        ≡ count_below (belongs rank grid block) (start k) + block
  count_after-block k n h =
      count_below-gap (belongs rank grid block) (start k + block) n (λ i l.
        rw (add_assoc (start k) block i) (belongs-gap k (block + i) (omega arith) (omega arith)))
      ∙ count_in-block k block (omega arith)

  start-suc : (k : ℕ) → start (suc k) ≡ start k + grid * block
  start-suc k = omega arith

-- A product with a positive factor.
le-mul_pos : (a b : ℕ) → 0 < a → b ≤ a * b
le-mul_pos zero b h = omega arith
le-mul_pos (suc a) b h = omega arith

module _ (rank grid block limit : ℕ) (hr : rank < grid) (hb : 0 < block)
    (fits : limit + grid * block < 2 ^ 32) where
  abbrev total : ℕ → ℕ
  total = count_below (belongs rank grid block)

  -- A round in which the loop goes on, and the next start is not past the limit.
  total-next :
      (k : ℕ)
      → block_start rank grid block (suc k) ≤ limit
      → total (block_start rank grid block k) + block ≡ total (block_start rank grid block (suc k))
  total-next k h =
      let e = start-suc rank grid block hr hb k in
      let g = le-mul_pos grid block (omega arith) in
      let c = count_after-block rank grid block hr hb k (grid * block - block) (omega arith) in
      let f : block_start rank grid block k + block + (grid * block - block)
          ≡ block_start rank grid block (suc k) =
        omega (arith, e, g) in
      sym c ∙ ap total f

  -- A round in which it goes on, and the next start is past it.
  total-last :
      (k : ℕ)
      → block_start rank grid block k + block < limit
      → limit ≤ block_start rank grid block (suc k)
      → total (block_start rank grid block k) + block ≡ total limit
  total-last k h l =
      let e = start-suc rank grid block hr hb k in
      let c =
        count_after-block rank grid block hr hb k (limit - (block_start rank grid block k + block))
          (omega (arith, e)) in
      let f : block_start rank grid block k
            + block
            + (limit - (block_start rank grid block k + block))
          ≡ limit =
        omega arith in
      sym c ∙ ap total f

  -- The round that ends within a block.
  total-within :
      (k : ℕ)
      → block_start rank grid block k ≤ limit
      → limit ≤ block_start rank grid block k + block
      → total (block_start rank grid block k) + (limit - block_start rank grid block k)
        ≡ total limit
  total-within k h l =
      let c =
        count_in-block rank grid block hr hb k (limit - block_start rank grid block k)
          (omega arith) in
      let f : block_start rank grid block k + (limit - block_start rank grid block k) ≡ limit =
        omega arith in
      sym c ∙ ap total f

  count_owned-total :
      (fuel k acc : ℕ)
      → limit + grid * block ≤ block_start rank grid block k + fuel
      → block_start rank grid block k < limit + grid * block
      → (block_start rank grid block k ≤ limit → acc ≡ total (block_start rank grid block k))
      → (limit ≤ block_start rank grid block k → acc ≡ total limit)
      → count_owned (grid * block) block limit fuel (block_start rank grid block k) acc
        ≡ some (total limit)
  unfolding count_owned
  count_owned-total zero k acc hf hs ha hl = absurd (omega arith)
  count_owned-total (suc fuel) k acc hf hs ha hl =
      elim (dec_lt (block_start rank grid block k) limit) [
        | no n ↦ ground (arith, hl (omega arith))
        | yes l ↦ elim (dec_lt (block_start rank grid block k + block) limit) [
          | yes m ↦
              let e = start-suc rank grid block hr hb k in
              let small =
                count_below-le (belongs rank grid block) (block_start rank grid block k) in
              let e1 : w32 (block_start rank grid block k + block)
                  ≡ block_start rank grid block k + block =
                mod-eq_of_lt (omega arith) in
              let e2 : w32 (block_start rank grid block k + grid * block)
                  ≡ block_start rank grid block (suc k) =
                mod-eq_of_lt (omega arith) ∙ sym e in
              let e3 : w32 (acc + block) ≡ acc + block = mod-eq_of_lt (omega (arith, ha, small)) in
              let rest =
                count_owned-total fuel (suc k) (acc + block)
                  (omega (arith, e, le-mul_pos grid block)) (omega (arith, e))
                  (λ h. omega (arith, ha, total-next k h))
                  (λ h. omega (arith, ha, total-last k m h)) in
              rw (e1, e2, e3) (ground (arith, rest))
          | no m ↦
              let small =
                count_below-le (belongs rank grid block) (block_start rank grid block k) in
              let within = total-within k (omega arith) (omega arith) in
              let e1 : w32 (block_start rank grid block k + block)
                  ≡ block_start rank grid block k + block =
                mod-eq_of_lt (omega (arith, le-mul_pos grid block)) in
              let e2 : w32 (acc + sub32 limit (block_start rank grid block k)) ≡ total limit =
                omega (arith, ha, within, small) in
              rw (e1, e2) (ground arith)
        ]
      ]

  -- Where the limit and a round of blocks fit in an `unsigned int`, the loop that counts the rows of a
  -- process ends, and finds as many as there are rows below the limit in blocks of this process.
  pub owned_rows-count_below :
      owned_rows rank grid block limit ≡ some (count_below (belongs rank grid block) limit)
  unfolding owned_rows
  owned_rows-count_below =
      let step : w32 (grid * block) ≡ grid * block = mod-eq_of_lt (omega arith) in
      let more = mul-le-mul_right block hr in
      let first : w32 (rank * block) ≡ block_start rank grid block 0 =
        mod-eq_of_lt (omega arith) ∙ omega arith in
      let e : block_start rank grid block 0 ≡ rank * block = omega arith in
      let none_yet = count_before-start rank grid block hr hb (rank * block) (omega arith) in
      rw (step, first)
        (count_owned-total (2 ^ 32) 0 0 (omega arith) (omega (arith, more))
          (λ l. rw e (sym none_yet))
          (λ l. sym (count_before-start rank grid block hr hb limit (omega (arith, e)))))
