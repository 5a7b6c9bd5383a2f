-- ===== src/Distribution/SymTwoDim/Laws.antt =====
-- The positions that data_dist/matrix/sym_two_dim_rectangle_cyclic/sym_two_dim_rectangle_cyclic.c
-- computes, against the tiles of a process counted column by column: the loops over the columns.
use native.Mathlib.Nat.{mod-eq_of_lt, add-zero, add-suc, zero-add}
use dague_hsa.Prelude.{
  ℕ, zero, suc, ◌+◌, ◌-◌, ◌*◌, ◌%◌, ◌^◌, ◌<◌, ◌≤◌, ◌≡◌, sym, ap, ◌∙◌, true, some, arith,
  if◌then◌else◌, ◌==◌, ltb, dec_lt,
}
use dague_hsa.Distribution.{w32}
use dague_hsa.Distribution.Arith.{count_below-le, mod-add_mul}
use dague_hsa.Distribution.Owned.{mod-later, mod-middle}
use dague_hsa.Distribution.SymTwoDim.{SymTwoDim, column_size, count_tiles}
use dague_hsa.Distribution.SymTwoDim.Rows.{rows_below, rows_among-count_below, count_below-le_count}

-- a sum over the numbers below a limit
abbrev pub sum_below : (ℕ → ℕ) → ℕ → ℕ
sum_below f zero = 0
sum_below f (suc n) = f n + sum_below f n

sum_below-gap :
    (f : ℕ → ℕ) (a n : ℕ) → ((i : ℕ) → i < n → f (a + i) ≡ 0) → sum_below f (a + n) ≡ sum_below f a
sum_below-gap f a zero h = rw (add-zero a)
sum_below-gap f a (suc n) h =
    let rest = sum_below-gap f a n (λ i l. h i (omega arith)) in
    rw (add-suc a n, h n (omega arith)) (omega (arith, rest))

pub sum_below-le : (f : ℕ → ℕ) (a b : ℕ) → a ≤ b → sum_below f a ≤ sum_below f b
sum_below-le f a zero h = let e : a ≡ 0 = omega arith in rw e (omega arith)
sum_below-le f a (suc b) h = elim (dec_lt a (suc b)) [
  | yes l ↦ let rest = sum_below-le f a b (omega arith) in omega (arith, rest)
  | no l ↦ let e : a ≡ suc b = omega arith in rw e (omega arith)
]

-- the tiles of a process in a column of the lower triangle, if the column is one of its columns
abbrev pub column_tiles : SymTwoDim → ℕ → ℕ
column_tiles d c =
    if c % d.grid_cols == d.col_rank then rows_below d d.matrix.lmt - rows_below d c else 0

-- its tiles in the columns before one
abbrev pub tiles_before : SymTwoDim → ℕ → ℕ
tiles_before d = sum_below (column_tiles d)

-- What the loops need: a rank in the grid, no more columns than rows, and sizes that fit in an
-- `unsigned int`.
pub record Fits (d : SymTwoDim) : Type 0 where
  pub row : d.row_rank < d.grid_rows
  pub col : d.col_rank < d.grid_cols
  pub wide : d.matrix.lnt ≤ d.matrix.lmt
  pub columns : d.matrix.lnt + d.grid_cols < 2 ^ 32
  pub tiles : tiles_before d d.matrix.lnt + d.matrix.lmt < 2 ^ 32

module _ (d : SymTwoDim) (v : Fits d) where
  -- the column of the process after so many others
  abbrev pub column : ℕ → ℕ
  column k = d.col_rank + k * d.grid_cols

  pub column_own : (k : ℕ) → column k % d.grid_cols ≡ d.col_rank
  column_own k = mod-add_mul d.col_rank k d.grid_cols v.col

  pub tiles_before-first : tiles_before d d.col_rank ≡ 0
  tiles_before-first =
      ap (tiles_before d) (sym (zero-add d.col_rank))
      ∙ (sum_below-gap (column_tiles d) 0 d.col_rank (λ i l.
          let e : (0 + i) % d.grid_cols ≡ i =
            rw (zero-add i) (mod-eq_of_lt {n = i} {m = d.grid_cols} (omega (arith, v.col))) in
          rw e (ground (arith, l))))

  -- From one column of the process to its next.
  pub tiles_before-next :
      (k j : ℕ)
      → 0 < j
      → j ≤ d.grid_cols
      → tiles_before d (column k + j)
        ≡ tiles_before d (column k) + (rows_below d d.matrix.lmt - rows_below d (column k))
  tiles_before-next k j p h =
      let own = column_own k in
      let e : column k + j ≡ suc (column k) + (j - 1) = omega arith in
      let gap = sum_below-gap (column_tiles d) (suc (column k)) (j - 1) (λ i l.
        let later =
          mod-later d.col_rank d.grid_cols 1 v.col (omega arith) (suc i) (omega arith)
            (omega arith) in
        let f : suc (column k) + i ≡ d.col_rank + k * d.grid_cols + suc i = omega arith in
        let m = mod-middle d.col_rank d.grid_cols 1 v.col (omega arith) k (suc i) in
        rw (f, m) (ground (arith, later))) in
      rw (e, gap, own) (ground arith)

  pub column-suc : (k : ℕ) → column (suc k) ≡ column k + d.grid_cols
  column-suc k = omega arith

  column_size-rows_below :
      (c : ℕ) → c ≤ d.matrix.lmt → column_size d c ≡ rows_below d d.matrix.lmt - rows_below d c
  column_size-rows_below c h =
      let small : rows_below d d.matrix.lmt ≤ d.matrix.lmt = count_below-le _ d.matrix.lmt in
      let mono : rows_below d c ≤ rows_below d d.matrix.lmt =
        count_below-le_count _ c d.matrix.lmt h in
      let t = v.tiles in
      rw (rows_among-count_below d d.matrix.lmt v.row, rows_among-count_below d c v.row)
        (omega arith)

  -- One round of a loop over the columns.
  pub round :
      (k total : ℕ)
      → column k < d.matrix.lnt
      → total ≡ tiles_before d (column k)
      → (w32 (column k + d.grid_cols) ≡ column (suc k))
        × (w32 (total + column_size d (column k)) ≡ tiles_before d (column k + 1))
  round k total h e =
      let wide = v.wide in
      let next = tiles_before-next k 1 (omega arith) (omega (arith, v.col)) in
      let le = sum_below-le (column_tiles d) (column k + 1) d.matrix.lnt (omega arith) in
      let size = column_size-rows_below (column k) (omega arith) in
      (
        mod-eq_of_lt (omega (arith, v.columns)) ∙ sym (column-suc k),
        mod-eq_of_lt (omega (arith, v.tiles, next, le, size, e)) ∙ omega (arith, next, size, e),
      )

  pub tiles_before-same :
      (k j : ℕ)
      → 0 < j
      → j ≤ d.grid_cols
      → tiles_before d (column k + 1) ≡ tiles_before d (column k + j)
  tiles_before-same k j p h =
      tiles_before-next k 1 (omega arith) (omega arith) ∙ sym (tiles_before-next k j p h)

  pub count_tiles-loop :
      (fuel k total : ℕ)
      → d.matrix.lnt + d.grid_cols ≤ column k + fuel
      → column k < d.matrix.lnt + d.grid_cols
      → (column k ≤ d.matrix.lnt → total ≡ tiles_before d (column k))
      → (d.matrix.lnt ≤ column k → total ≡ tiles_before d d.matrix.lnt)
      → count_tiles d fuel (column k) total ≡ some (tiles_before d d.matrix.lnt)
  unfolding count_tiles
  count_tiles-loop zero k total hf hc ha hl = absurd (omega arith)
  count_tiles-loop (suc fuel) k total hf hc ha hl = elim (dec_lt (column k) d.matrix.lnt) [
    | no n ↦ ground (arith, hl (omega arith))
    | yes l ↦
        let (e, f) = round k total l (ha (omega arith)) in
        let step = column-suc k in
        let t : ltb (column k) d.matrix.lnt ≡ true = ground (arith, l) in
        rw (t, e, f)
          (count_tiles-loop fuel (suc k) (tiles_before d (column k + 1))
            (omega (arith, step, v.col)) (omega (arith, step))
            (λ h.
              tiles_before-same k d.grid_cols (omega (arith, v.col)) (omega arith)
              ∙ ap (tiles_before d) (sym step))
            (λ h.
              tiles_before-same k (d.matrix.lnt - column k) (omega arith) (omega (arith, step))
              ∙ ap (tiles_before d) (omega arith)))
  ]
