-- ===== src/Generator/Threads.antt =====
-- `rand_dist_matrix` of data_dist/matrix/matrix.c: which tiles a process generates, and how its
-- threads share them. The owner of a tile (`rank_of`) is a parameter, and so is which requests for
-- memory succeed. Nothing fits in the memory of a request of 0 bytes, whether it succeeds or not.
pub mod Shares
pub mod Laws
pub mod Few
use dague_hsa.Prelude.{
  ℕ, zero, suc, ◌+◌, ◌-◌, ◌*◌, ◌/◌, ◌%◌, Bool, true, false, not, ◌&&◌, ◌||◌, List, [], ◌∷◌, ◌++◌,
  if◌then◌else◌, ◌==◌, ltb, length, take, drop, map, Option, none, some, get_elem?, set,
}
use dague_hsa.Distribution.{w32, w64, TiledMatrix}
use dague_hsa.Generator.{
  GenFct, create_tile_cholesky_float, create_tile_cholesky_double, create_tile_lu_float,
  create_tile_lu_double, create_tile_zero,
}

-- `tile_coordinate_t`
pub record TileCoordinate : Type 0 where
  pub row : ℕ
  pub col : ℕ

-- how `rand_dist_matrix` ends: what it generates; with an error message or `exit`; or with a write
-- past its memory, or a division by 0
pub data Generation {ℓ} (A : Type ℓ) : Type ℓ where
  generates : A → Generation A
  gives_up : Generation A
  exits : Generation A
  faults : Generation A

infixl 5 ◌>>=◌
abbrev pub ◌>>=◌ {ℓ κ} :
    {A : Type ℓ} {B : Type κ} → Generation A → (A → Generation B) → Generation B
generates a >>= f = f a
gives_up >>= f = gives_up
exits >>= f = exits
faults >>= f = faults

-- the table of tiles: its room, whether it has memory, and the tiles so far, of which there are `pos`
pub record TileTable : Type 0 where
  pub tiles_coord_size : ℕ
  pub has_memory : Bool
  pub tiles : List TileCoordinate

module _ (allocates : ℕ → Bool) (rank_of : (row col : ℕ) → ℕ) (myrank : ℕ) where
  -- `tiles[pos] = ...; pos++`
  unfoldable pub store : ℕ → ℕ → TileTable → Generation TileTable
  store i j t =
      if t.has_memory && ltb (length t.tiles) t.tiles_coord_size
      then generates (record t { tiles = t.tiles ++ record { row = i; col = j } ∷ [] })
      else faults

  -- the tile in row i and column j, if it is a tile of this process
  unfoldable pub check_tile : ℕ → ℕ → TileTable → Generation TileTable
  unfolding store
  check_tile i j t =
      let size = w32 (2 * t.tiles_coord_size) in
      if not (myrank == rank_of i j)
      then generates t
      else if not (length t.tiles == t.tiles_coord_size)
      then store i j t
      else if not (allocates (w64 (size * 8)))
      then exits
      else store i j (record t { tiles_coord_size = size; has_memory = true })

  -- the loop over the rows of column j
  unfoldable pub check_column : (j i count : ℕ) → TileTable → Generation TileTable
  unfolding check_tile
  check_column j i zero t = generates t
  check_column j i (suc count) t = do t' ← check_tile i j t; check_column j (i + 1) count t'

  -- the loop over the columns, of `lmt` rows each
  unfoldable pub check_columns : (lmt j count : ℕ) → TileTable → Generation TileTable
  unfolding check_column
  check_columns lmt j zero t = generates t
  check_columns lmt j (suc count) t = do
    t' ← check_column j 0 lmt t
    check_columns lmt (j + 1) count t'

-- the tiles of a thread: `info_tiles_t`
pub record InfoTiles : Type 0 where
  pub th_id : ℕ
  pub starting_position : ℕ
  pub nb_elements : ℕ
  pub gen : GenFct

-- what the threads get, from thread i on, each so many; the last of them also gets the rest
unfoldable pub shares : (gen : GenFct) (each rest i j count : ℕ) → List InfoTiles
shares gen each rest i j zero = []
shares gen each rest i j (suc zero) =
    record { th_id = i; starting_position = j; nb_elements = w32 (each + rest); gen = gen } ∷ []
shares gen each rest i j (suc (suc count)) =
    record { th_id = i; starting_position = j; nb_elements = each; gen = gen }
    ∷ shares gen each rest (i + 1) (w32 (j + each)) (suc count)

-- the function for a kind of generation (1 Cholesky, 0 LU, 2 zero) and a type of elements, given by
-- its size; for another kind the function stays unset
unfoldable pub choose : (kind mtype : ℕ) → Generation GenFct
choose kind mtype =
    if kind == 1
    then (if mtype == 4
        then generates create_tile_cholesky_float
        else if mtype == 8
        then generates create_tile_cholesky_double
        else gives_up)
    else if kind == 0
    then (if mtype == 4
        then generates create_tile_lu_float
        else if mtype == 8
        then generates create_tile_lu_double
        else gives_up)
    else if kind == 2
    then generates create_tile_zero
    else faults

-- `rand_dist_tiles`: the calls of a thread, one for each of its tiles
unfoldable pub rand_dist_tiles : List TileCoordinate → InfoTiles → List (GenFct × TileCoordinate)
rand_dist_tiles tiles info =
    map (λ (t : TileCoordinate). (info.gen, t))
      (take info.nb_elements (drop info.starting_position tiles))

-- the calls of every thread; `pthread_create`, whose result the code does not check, is taken to
-- start each of them
unfoldable pub all_threads :
    List TileCoordinate → List InfoTiles → List (List (GenFct × TileCoordinate))
unfolding rand_dist_tiles
all_threads tiles [] = []
all_threads tiles (info ∷ infos) = rand_dist_tiles tiles info ∷ all_threads tiles infos

-- The threads run at the same time: a schedule says which of them makes its next call. The calls in
-- their order, and those that are still to come.
unfoldable pub run_threads {ℓ} :
    {A : Type ℓ} → (schedule : List ℕ) → List (List A) → List A × List (List A)
run_threads [] threads = ([], threads)
run_threads (i ∷ schedule) threads = elim (get_elem? threads i) [
  | none ↦ run_threads schedule threads
  | some [] ↦ run_threads schedule threads
  | some (call ∷ calls) ↦
      let (order, left) = run_threads schedule (set threads i calls) in (call ∷ order, left)
]

module _ (allocates : ℕ → Bool) (rank_of : (row col : ℕ) → ℕ) (d : TiledMatrix) where
  open d use {params, lmt, lnt}

  -- the room of the table at first
  unfoldable pub initial_size : ℕ
  initial_size = w32 (3 * (w32 (lmt * lnt) / params.nodes)) / 2

  -- The gathering of the tiles. The tables of the threads are taken to get their memory.
  unfoldable pub gather : Generation TileTable
  unfolding check_columns initial_size
  gather = check_columns allocates rank_of params.myrank lmt 0 lnt (record {
    tiles_coord_size = initial_size;
    has_memory = allocates (w64 (initial_size * 8));
    tiles = [];
  })

  -- `rand_dist_matrix` of a kind of matrix: the calls of each thread
  unfoldable pub rand_dist_matrix : (kind : ℕ) → Generation (List (List (GenFct × TileCoordinate)))
  rand_dist_matrix kind = if params.nodes == 0 then faults else do
    table ← gather
    let pos = length table.tiles
    let infos =
        λ (gen : GenFct). shares gen (pos / params.cores) (pos % params.cores) 0 0 params.cores
    if params.cores == 0
        then faults
        else do gen ← choose kind params.mtype; generates (all_threads table.tiles (infos gen))

  -- `generate_tiled_zero_mat`
  unfoldable pub generate_tiled_zero_mat : Generation (List (List (GenFct × TileCoordinate)))
  generate_tiled_zero_mat = rand_dist_matrix 2

  -- `generate_tiled_random_sym_pos_mat`
  unfoldable pub generate_tiled_random_sym_pos_mat :
      Generation (List (List (GenFct × TileCoordinate)))
  generate_tiled_random_sym_pos_mat = rand_dist_matrix 1

  -- `generate_tiled_random_mat`
  unfoldable pub generate_tiled_random_mat : Generation (List (List (GenFct × TileCoordinate)))
  generate_tiled_random_mat = rand_dist_matrix 0
