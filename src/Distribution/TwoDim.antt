-- ===== src/Distribution/TwoDim.antt =====
-- data_dist/matrix/two_dim_rectangle_cyclic/two_dim_rectangle_cyclic.c: the block-cyclic distribution
-- of the tiles over a grid of processes. The memory of the tiles is an address; reading and writing
-- the matrix in a file through MPI is not modelled.
use dague_hsa.Prelude.{
  ℕ, zero, suc, ◌+◌, ◌*◌, ◌/◌, ◌%◌, ◌^◌, ◌==◌, ltb, leb, if◌then◌else◌, Bool, not, ◌&&◌, ◌||◌,
  Option, none, some,
}
use dague_hsa.Distribution.{
  w32, w64, sub32, Params, TiledMatrix, has_tiles, describe, Init, ready, exits, aborts, diverges,
}

-- `two_dim_block_cyclic_t`
pub record TwoDim : Type 0 where
  pub matrix : TiledMatrix
  pub mat : ℕ
  pub nrst : ℕ
  pub ncst : ℕ
  pub grid_rows : ℕ
  pub grid_cols : ℕ
  pub col_rank : ℕ
  pub row_rank : ℕ
  pub nb_elem_r : ℕ
  pub nb_elem_c : ℕ

-- no division by 0 in the functions of the description
abbrev pub has_grid : TwoDim → Bool
has_grid d =
    not (d.nrst == 0) && (not (d.ncst == 0) && (not (d.grid_rows == 0) && not (d.grid_cols == 0)))

-- `twoDBC_get_rank_for_tile`; `none` is a division by 0.
unfoldable pub get_rank_for_tile : TwoDim → ℕ → ℕ → Option ℕ
get_rank_for_tile d m n =
    if has_grid d
    then (let str = m / d.nrst in
        let stc = n / d.ncst in
        let rr = str % d.grid_rows in
        let cr = stc % d.grid_cols in some (w32 (w32 (rr * d.grid_cols) + cr)))
    else none

-- the position of a tile in the memory of its process
unfoldable pub tile_position : TwoDim → ℕ → ℕ → ℕ
tile_position d m n =
    let lmt = d.matrix.lmt in
    let lnt = d.matrix.lnt in
    let column_tiles = w32 (d.nb_elem_r * d.ncst) in
    let head = w32 (column_tiles * (n / d.ncst / d.grid_cols)) in
    let super_tile =
      if leb (w32 (lnt / d.ncst * d.ncst)) n
      then w32 (lnt % d.ncst * d.nrst)
      else w32 (d.ncst * d.nrst) in
    let row_head = w32 (head + w32 (super_tile * (m / d.nrst / d.grid_rows))) in
    let last_c_size = if leb (w32 (lmt / d.nrst * d.nrst)) m then lmt % d.nrst else d.nrst in
    let column = w32 (row_head + w32 (n % d.ncst * last_c_size)) in w32 (column + m % d.nrst)

-- `twoDBC_get_local_tile` of a distributed build; `none` is a failed assertion or a division by 0. The
-- offset is computed in `unsigned int`.
unfoldable pub get_local_tile : TwoDim → ℕ → ℕ → Option ℕ
unfolding get_rank_for_tile tile_position
get_local_tile d m n = elim (get_rank_for_tile d m n) [
  | none ↦ none
  | some rank ↦
      if d.matrix.params.myrank == rank
      then some (d.mat + w32 (w32 (tile_position d m n * d.matrix.bsiz) * d.matrix.params.mtype))
      else none
]

-- The loop that counts the tile rows, or columns, of this process: the numbers of a block, `step`
-- apart. With all values below 2^32, 2^32 rounds suffice for every run that ends.
unfoldable pub count_owned : (step block limit : ℕ) → ℕ → ℕ → ℕ → Option ℕ
count_owned step block limit zero temp acc = none
count_owned step block limit (suc fuel) temp acc =
    let rest = count_owned step block limit fuel (w32 (temp + step)) (w32 (acc + block)) in
    if ltb temp limit
    then (if ltb (w32 (temp + block)) limit then rest else some (w32 (acc + sub32 limit temp)))
    else some acc

-- the number of super-tiles
unfoldable pub super_tiles : ℕ → ℕ → ℕ
super_tiles tiles size = if not (tiles % size == 0) then tiles / size + 1 else tiles / size

-- both counts of the initialisation
unfoldable pub owned_rows : ℕ → ℕ → ℕ → ℕ → Option ℕ
owned_rows rank grid block tiles =
    count_owned (w32 (grid * block)) block tiles (2 ^ 32) (w32 (rank * block)) 0

-- the size of the memory, computed in `size_t`
abbrev pub bytes_of : ℕ → ℕ → ℕ → ℕ → ℕ
bytes_of rows columns bsiz mtype = w64 (w64 (w64 (rows * columns) * bsiz) * mtype)

-- `two_dim_block_cyclic_init`; the memory is from `dague_allocate_matrix`.
module _ (allocate : ℕ → Option ℕ) where
  -- the counts of tiles, and their memory
  unfoldable pub allocate_tiles :
      TiledMatrix → (nrst ncst rows cols : ℕ) → Option ℕ → Option ℕ → Init TwoDim
  allocate_tiles t nrst ncst rows cols none nc = diverges
  allocate_tiles t nrst ncst rows cols (some nr) none = diverges
  allocate_tiles t nrst ncst rows cols (some nr) (some nc) =
      elim (allocate (bytes_of nr nc t.bsiz t.params.mtype)) [
        | none ↦ exits
        | some mat ↦ ready (record {
          matrix = t;
          mat = mat;
          nrst = nrst;
          ncst = ncst;
          grid_rows = rows;
          grid_cols = cols;
          col_rank = t.params.myrank % cols;
          row_rank = t.params.myrank / cols;
          nb_elem_r = nr;
          nb_elem_c = nc;
        })
      ]

  -- what follows the derived parameters
  unfoldable pub init_grid : TiledMatrix → (nrst ncst rows cols : ℕ) → Init TwoDim
  unfolding super_tiles allocate_tiles
  init_grid t nrst ncst rows cols =
      if ltb (super_tiles t.lmt nrst) rows || ltb (super_tiles t.lnt ncst) cols
      then exits
      else allocate_tiles t nrst ncst rows cols
          (owned_rows (t.params.myrank / cols) rows nrst t.lmt)
          (owned_rows (t.params.myrank % cols) cols ncst t.lnt)

  unfoldable pub init : Params → (nrst ncst rows : ℕ) → Init TwoDim
  unfolding describe init_grid
  init p nrst ncst rows =
      if has_tiles p && (not (rows == 0) && (p.nodes % rows == 0))
      then (if p.nodes / rows == 0
          then aborts
          else if nrst == 0
          then aborts
          else if ncst == 0
          then aborts
          else init_grid (describe p) nrst ncst rows (p.nodes / rows))
      else aborts
