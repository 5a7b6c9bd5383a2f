-- ===== src/Distribution/SymTwoDim.antt =====
-- data_dist/matrix/sym_two_dim_rectangle_cyclic/sym_two_dim_rectangle_cyclic.c: the block-cyclic
-- distribution of the tiles of a lower triangle. The memory of the tiles is an address.
pub mod Rows
pub mod Laws
pub mod Positions
pub mod Memory
use dague_hsa.Prelude.{
  ℕ, zero, suc, ◌+◌, ◌*◌, ◌-◌, ◌/◌, ◌%◌, ◌^◌, ◌==◌, ltb, if◌then◌else◌, Bool, not, ◌&&◌, Option,
  none, some,
}
use dague_hsa.Distribution.{
  w32, w64, sub32, Params, TiledMatrix, has_tiles, describe, Init, ready, exits, aborts, diverges,
}

-- `sym_two_dim_block_cyclic_t`
pub record SymTwoDim : Type 0 where
  pub matrix : TiledMatrix
  pub mat : ℕ
  pub grid_rows : ℕ
  pub grid_cols : ℕ
  pub col_rank : ℕ
  pub row_rank : ℕ

-- no division by 0 in the functions of the description
abbrev pub has_sym_grid : SymTwoDim → Bool
has_sym_grid d = not (d.grid_rows == 0) && not (d.grid_cols == 0)

-- `sym_twoDBC_get_rank_for_tile`: UINT_MAX above the diagonal; `none` is a division by 0.
unfoldable pub get_rank_for_tile : SymTwoDim → ℕ → ℕ → Option ℕ
get_rank_for_tile d m n =
    if ltb m n
    then some (2 ^ 32 - 1)
    else if has_sym_grid d
    then some (w32 (w32 (m % d.grid_rows * d.grid_cols) + n % d.grid_cols))
    else none

-- `nb_elem_col`, and `nb_elem`: the rows of a process among the first `count`
unfoldable pub rows_among : SymTwoDim → ℕ → ℕ
rows_among d count =
    if ltb d.row_rank (count % d.grid_rows) then count / d.grid_rows + 1 else count / d.grid_rows

-- `nb_elem_col - nb_elem`
abbrev pub column_size : SymTwoDim → ℕ → ℕ
column_size d column = sub32 (rows_among d d.matrix.lmt) (rows_among d column)

-- The loop of `sym_twoDBC_get_local_tile` over the columns before the one of the tile. 2^32 rounds
-- suffice for every run that ends.
unfoldable pub skip_columns : SymTwoDim → ℕ → ℕ → ℕ → ℕ → Option ℕ
skip_columns d n zero column pos = none
skip_columns d n (suc fuel) column pos =
    let rest =
      skip_columns d n fuel (w32 (column + d.grid_cols)) (w32 (pos + column_size d column)) in
    if column == n then some pos else rest

-- the position of a tile in the memory of its process
unfoldable pub tile_position : SymTwoDim → ℕ → ℕ → Option ℕ
tile_position d m n = elim (skip_columns d n (2 ^ 32) d.col_rank 0) [
  | none ↦ none
  | some pos ↦ some (w32 (pos + sub32 m n / d.grid_rows))
]

-- `sym_twoDBC_get_local_tile`; `none` is a failed assertion, a division by 0 or a loop without end.
-- The offset is computed in `unsigned int`.
unfoldable pub get_local_tile : SymTwoDim → ℕ → ℕ → Option ℕ
unfolding get_rank_for_tile
get_local_tile d m n = elim (get_rank_for_tile d m n) [
  | none ↦ none
  | some rank ↦
      if d.matrix.params.myrank == rank
      then elim (tile_position d m n) [
        | none ↦ none
        | some pos ↦ some (d.mat + w32 (w32 (pos * d.matrix.bsiz) * d.matrix.params.mtype))
      ]
      else none
]

-- The loop of the initialisation over all columns of the process.
unfoldable pub count_tiles : SymTwoDim → ℕ → ℕ → ℕ → Option ℕ
count_tiles d zero column total = none
count_tiles d (suc fuel) column total =
    let rest =
      count_tiles d fuel (w32 (column + d.grid_cols)) (w32 (total + column_size d column)) in
    if ltb column d.matrix.lnt then rest else some total

-- `sym_two_dim_block_cyclic_init`; the memory is from `dague_allocate_matrix`.
module _ (allocate : ℕ → Option ℕ) where
  -- the memory of so many tiles
  unfoldable pub allocate_tiles : SymTwoDim → Option ℕ → Init SymTwoDim
  allocate_tiles d none = diverges
  allocate_tiles d (some total) =
      elim (allocate (w64 (w64 (total * d.matrix.bsiz) * d.matrix.params.mtype))) [
        | none ↦ exits
        | some mat ↦ ready (record d { mat = mat })
      ]

  unfoldable pub init : Params → ℕ → Init SymTwoDim
  unfolding describe allocate_tiles
  init p rows =
      if has_tiles p && (not (rows == 0) && (p.nodes % rows == 0))
      then (let cols = p.nodes / rows in
          let d : SymTwoDim = record {
            matrix = describe p;
            mat = 0;
            grid_rows = rows;
            grid_cols = cols;
            col_rank = p.myrank % cols;
            row_rank = p.myrank / cols;
          } in
          if cols == 0 then aborts else allocate_tiles d (count_tiles d (2 ^ 32) d.col_rank 0))
      else aborts
