-- ===== src/Distribution/SymTwoDim/Positions.antt =====
-- The position of a tile in the symmetric distribution, against the other tiles of its process.
use native.Mathlib.Nat.{mod-eq_of_lt, mul-le-mul_right, div-add-mod', div-le_self}
use dague_hsa.Prelude.{
  ℕ, zero, suc, ◌+◌, ◌-◌, ◌/◌, ◌%◌, ◌^◌, ◌<◌, ◌≤◌, ◌≡◌, sym, ap, ◌∙◌, true, false, some, arith,
  ◌==◌, dec_lt,
}
use dague_hsa.Distribution.{w32, sub32}
use dague_hsa.Distribution.SymTwoDim.{SymTwoDim, skip_columns, tile_position, count_tiles}
use dague_hsa.Distribution.SymTwoDim.Rows.{rows_below, rows_between, count_below-le_count, is_row}
use dague_hsa.Distribution.SymTwoDim.Laws.{
  sum_below-le, column_tiles, tiles_before, Fits, column, tiles_before-first, tiles_before-next,
  column-suc, round, tiles_before-same, count_tiles-loop,
}

-- A tile of the lower triangle that belongs to the process.
pub record IsOwn (d : SymTwoDim) (m n : ℕ) : Type 0 where
  pub lower : n ≤ m
  pub row : m < d.matrix.lmt
  pub col : n < d.matrix.lnt
  pub own_row : m % d.grid_rows ≡ d.row_rank
  pub own_col : n % d.grid_cols ≡ d.col_rank

-- how many tiles of the process stand before one, column by column and from the diagonal down
abbrev pub place : SymTwoDim → ℕ → ℕ → ℕ
place d m n = tiles_before d n + (rows_below d m - rows_below d n)

some-eq : {a b : ℕ} → some a ≡ some b → a ≡ b
some-eq h = cc

module _ (d : SymTwoDim) (v : Fits d) where
  skip_columns-loop :
      (q fuel k pos : ℕ)
      → k ≤ q
      → q < k + fuel
      → column d v q < d.matrix.lnt
      → pos ≡ tiles_before d (column d v k)
      → skip_columns d (column d v q) fuel (column d v k) pos ≡ some (tiles_before d (column d v q))
  unfolding skip_columns
  skip_columns-loop q zero k pos h f l e = absurd (omega arith)
  skip_columns-loop q (suc fuel) k pos h f l e = elim (dec_lt k q) [
    | no n ↦
        let same : k ≡ q = omega arith in
        let t : column d v q == column d v q ≡ true = ground arith in rw (e, same, t)
    | yes lt ↦
        let more = mul-le-mul_right {m = suc k} {n = q} d.grid_cols lt in
        let some_columns = v.col in
        let t : column d v k == column d v q ≡ false = ground (arith, more, v.col) in
        let (w, u) = round d v k pos (omega (arith, more, v.col)) e in
        rw (t, w, u)
          (skip_columns-loop q fuel (suc k) (tiles_before d (column d v k + 1)) lt (omega arith) l (
            tiles_before-same d v k d.grid_cols (omega (arith, v.col)) (omega arith)
            ∙ ap (tiles_before d) (sym (column-suc d v k))))
  ]

  own-column : (m n : ℕ) → IsOwn d m n → n ≡ column d v (n / d.grid_cols)
  own-column m n o = omega (arith, div-add-mod' n d.grid_cols, o.own_col)

  -- The tiles of a column of the process.
  column_end :
      (m n : ℕ)
      → IsOwn d m n
      → tiles_before d (n + 1) ≡ tiles_before d n + (rows_below d d.matrix.lmt - rows_below d n)
  column_end m n o =
      let e = own-column m n o in
      let next = tiles_before-next d v (n / d.grid_cols) 1 (omega arith) (omega (arith, v.col)) in
      rw (← e) at next

  rows_below-own : (m n : ℕ) → IsOwn d m n → rows_below d m < rows_below d d.matrix.lmt
  rows_below-own m n o =
      let le = count_below-le_count (is_row d.grid_rows d.row_rank) (suc m) d.matrix.lmt o.row in
      ground (arith, le, o.own_row)

  -- The place of a tile is in its column, and so in the memory of the process.
  place-lt : (m n : ℕ) → IsOwn d m n → place d m n < tiles_before d (n + 1)
  place-lt m n o =
      let up = count_below-le_count (is_row d.grid_rows d.row_rank) n m o.lower in
      omega (arith, column_end m n o, rows_below-own m n o, up)

  first-column : d.col_rank ≡ column d v 0
  first-column = omega arith

  skip_columns-tiles_before :
      (m n : ℕ) → IsOwn d m n → skip_columns d n (2 ^ 32) d.col_rank 0 ≡ some (tiles_before d n)
  skip_columns-tiles_before m n o =
      let e = own-column m n o in
      let q = n / d.grid_cols in
      let small = div-le_self n d.grid_cols in
      let none_yet : 0 ≡ tiles_before d (column d v 0) =
        sym (tiles_before-first d v) ∙ ap (tiles_before d) first-column in
      ap (λ c. skip_columns d n (2 ^ 32) c 0) first-column
      ∙ ap (λ x. skip_columns d x (2 ^ 32) (column d v 0) 0) e
      ∙ skip_columns-loop q (2 ^ 32) 0 0 (omega arith) (omega (arith, o.col, v.columns, small))
          (omega (arith, e, o.col)) none_yet
      ∙ ap (λ x. some (tiles_before d x)) (sym e)

  count_tiles-tiles_before :
      count_tiles d (2 ^ 32) d.col_rank 0 ≡ some (tiles_before d d.matrix.lnt)
  count_tiles-tiles_before =
      let none_yet : 0 ≡ tiles_before d (column d v 0) =
        sym (tiles_before-first d v) ∙ ap (tiles_before d) first-column in
      ap (λ c. count_tiles d (2 ^ 32) c 0) first-column
      ∙ count_tiles-loop d v (2 ^ 32) 0 0 (omega (arith, v.columns)) (omega (arith, v.col))
          (λ h. none_yet)
          (λ h.
            let le = sum_below-le (column_tiles d) d.matrix.lnt (column d v 0) h in
            omega (arith, le, none_yet))

  -- `sym_twoDBC_get_local_tile` finds for a tile of the process the number of the tiles before it, which
  -- is below the number of tiles that `sym_two_dim_block_cyclic_init` has allocated memory for.
  pub tile_position-place :
      (m n : ℕ)
      → IsOwn d m n
      → (tile_position d m n ≡ some (place d m n))
        × (count_tiles d (2 ^ 32) d.col_rank 0 ≡ some (tiles_before d d.matrix.lnt))
        × (place d m n < tiles_before d d.matrix.lnt)
  unfolding tile_position
  tile_position-place m n o =
      let le = sum_below-le (column_tiles d) (n + 1) d.matrix.lnt (omega (arith, o.col)) in
      let lt = place-lt m n o in
      let between = rows_between d m n v.row o.lower o.own_row in
      let e : sub32 m n ≡ m - n = omega (arith, o.lower, o.row, v.tiles) in
      let f : w32 (tiles_before d n + (m - n) / d.grid_rows) ≡ place d m n =
        mod-eq_of_lt (omega (arith, between, lt, le, v.tiles)) ∙ omega (arith, between) in
      (
        rw (tile_position, skip_columns-tiles_before m n o, e, f),
        count_tiles-tiles_before,
        omega (arith, lt, le),
      )

  place-column : (m n m' n' : ℕ) → IsOwn d m n → place d m n ≡ place d m' n' → n' ≤ n
  place-column m n m' n' o e = elim (dec_lt n n') [
    | no l ↦ omega arith
    | yes l ↦
        let le = sum_below-le (column_tiles d) (n + 1) n' (omega arith) in
        absurd (omega (arith, place-lt m n o, le, e))
  ]

  place-row : (m n m' : ℕ) → IsOwn d m n → IsOwn d m' n → place d m n ≡ place d m' n → m' ≤ m
  place-row m n m' o o' e = elim (dec_lt m m') [
    | no l ↦ omega arith
    | yes l ↦
        let up = count_below-le_count (is_row d.grid_rows d.row_rank) n m o.lower in
        let le = count_below-le_count (is_row d.grid_rows d.row_rank) (suc m) m' l in
        absurd (ground (arith, up, le, e, o.own_row))
  ]

  -- Where the process has a place in the grid, the matrix has no more columns of tiles than rows, and
  -- the number of its columns with that of the grid, and the number of tiles of the process with that
  -- of the rows, are below 2^32: two tiles of the process on or below the diagonal with the same
  -- position are the same tile.
  pub tile_position-injective :
      (m n m' n' : ℕ)
      → IsOwn d m n
      → IsOwn d m' n'
      → tile_position d m n ≡ tile_position d m' n'
      → (m ≡ m') × (n ≡ n')
  tile_position-injective m n m' n' o o' h =
      let e : place d m n ≡ place d m' n' =
        some-eq (sym (tile_position-place m n o).0 ∙ h ∙ (tile_position-place m' n' o').0) in
      let same : n ≡ n' =
        omega (arith, place-column m n m' n' o e, place-column m' n' m n o' (sym e)) in
      let o'' : IsOwn d m' n = rw same o' in
      let f : place d m n ≡ place d m' n = e ∙ ap (place d m') (sym same) in
      (omega (arith, place-row m n m' o o'' f, place-row m' n m o'' o (sym f)), same)
