-- ===== src/Distribution/Tests.antt =====
-- The theorems on the distributions at concrete matrices.
use dague_hsa.Prelude.{
  ℕ, ◌+◌, ◌<◌, ◌≡◌, ◌≢◌, ◌↔◌, refl, true, Option, none, some, List, [], ◌∷◌, arith,
}
use dague_hsa.Distribution.{Params, TiledMatrix, tile_count, describe, ready, diverges}
use dague_hsa.Distribution.Arith.{count_below}
use dague_hsa.Distribution.TwoDim.{
  TwoDim, init, init_grid, allocate_tiles, super_tiles, owned_rows, count_owned, get_rank_for_tile,
  bytes_of,
}
use dague_hsa.Distribution.Owned.{belongs}
use dague_hsa.Distribution.Ranks.{init-get_rank_for_tile, init-nb_elem}
use dague_hsa.Distribution.Ends.{init-ends}
use dague_hsa.Distribution.SymTwoDim.{
  SymTwoDim, tile_position, skip_columns, rows_among, allocate_tiles as sym_allocate_tiles,
  init as sym_init,
}
use dague_hsa.Distribution.SymTwoDim.Laws.{Fits}
use dague_hsa.Distribution.SymTwoDim.Positions.{IsOwn, tile_position-injective}
use dague_hsa.Distribution.Tabular.{
  Tabular, create_2dbc, table_of, all_columns, column_ranks, rank_at, init as tabular_init,
  get_rank_for_tile as tabular_rank, fill_table,
}
use dague_hsa.Distribution.Tabular.Agree.{tabular-block_cyclic_rank}

-- 2 by 3 processes, of which this is number 4, and 7 by 7 tiles of 10 by 10 doubles
abbrev params : Params
params = record {
  nodes = 6;
  cores = 1;
  myrank = 4;
  mtype = 8;
  mb = 10;
  nb = 10;
  ib = 5;
  lm = 65;
  ln = 65;
  i = 0;
  j = 0;
  m = 65;
  n = 65;
}

abbrev tiled : TiledMatrix
tiled = record { params = params; lmt = 7; lnt = 7; bsiz = 100; mt = 7; nt = 7 }

-- the memory at 1000
abbrev allocate : ℕ → Option ℕ
allocate size = some 1000

abbrev cyclic : TwoDim
cyclic = record {
  matrix = tiled;
  mat = 1000;
  nrst = 1;
  ncst = 1;
  grid_rows = 2;
  grid_cols = 3;
  col_rank = 1;
  row_rank = 1;
  nb_elem_r = 3;
  nb_elem_c = 2;
}

init-cyclic : init allocate params 1 1 2 ≡ ready cyclic
unfolding init init_grid allocate_tiles super_tiles owned_rows count_owned describe tile_count
init-cyclic = refl

init-get_rank_for_tile_example :
    (r : ℕ) × (get_rank_for_tile cyclic 5 4 ≡ some r)
    × (r < 6)
    × ((r ≡ 4) ↔ ((belongs 1 2 1 5 ≡ true) × (belongs 1 3 1 4 ≡ true)))
init-get_rank_for_tile_example =
    init-get_rank_for_tile allocate params 1 1 2 cyclic init-cyclic 5 4 (omega arith)

init-nb_elem_example :
    (cyclic.nb_elem_r ≡ count_below (belongs 1 2 1) 7)
    × (cyclic.nb_elem_c ≡ count_below (belongs 1 3 1) 7)
    × (allocate (bytes_of 3 2 100 8) ≡ some 1000)
init-nb_elem_example =
    init-nb_elem allocate params 1 1 2 cyclic init-cyclic (omega arith) (omega arith) (omega arith)

init-ends_example : init allocate params 2 1 2 ≢ diverges
unfolding tile_count
init-ends_example = init-ends allocate params 2 1 2 (omega arith) (omega arith) (omega arith)

-- a matrix of 2 by 2 tiles over 2 by 1 processes
abbrev small : Params
small = record {
  nodes = 2;
  cores = 1;
  myrank = 1;
  mtype = 8;
  mb = 10;
  nb = 10;
  ib = 5;
  lm = 15;
  ln = 15;
  i = 0;
  j = 0;
  m = 15;
  n = 15;
}

abbrev small_tiled : TiledMatrix
small_tiled = record { params = small; lmt = 2; lnt = 2; bsiz = 100; mt = 2; nt = 2 }

-- The heap is the next free address.
abbrev bump : ℕ → ℕ → Option ℕ × ℕ
bump size next = (some next, next + size)

abbrev ranks : List ℕ
ranks = 0 ∷ 1 ∷ 0 ∷ 1 ∷ []

abbrev tabular : Tabular
tabular = record {
  matrix = small_tiled;
  tiles_table =
      record { rank = 0; tile = none }
      ∷ record { rank = 1; tile = some 1000 }
      ∷ record { rank = 0; tile = none }
      ∷ record { rank = 1; tile = some 1800 }
      ∷ [];
}

create_2dbc-ranks : create_2dbc (λ size. true) 15 10 2 2 ≡ table_of ranks
unfolding create_2dbc all_columns column_ranks rank_at
create_2dbc-ranks = refl

init-tabular : (tabular_init bump small ranks 1000).0 ≡ ready tabular
unfolding tabular_init fill_table describe tile_count
init-tabular = refl

abbrev small_cyclic : TwoDim
small_cyclic = record {
  matrix = small_tiled;
  mat = 1000;
  nrst = 1;
  ncst = 1;
  grid_rows = 2;
  grid_cols = 1;
  col_rank = 0;
  row_rank = 1;
  nb_elem_r = 1;
  nb_elem_c = 2;
}

init-small_cyclic : init allocate small 1 1 2 ≡ ready small_cyclic
unfolding init init_grid allocate_tiles super_tiles owned_rows count_owned describe tile_count
init-small_cyclic = refl

tabular-block_cyclic_rank_example : tabular_rank tabular 1 0 ≡ get_rank_for_tile small_cyclic 1 0
unfolding describe tile_count
tabular-block_cyclic_rank_example =
    tabular-block_cyclic_rank (λ size. true) bump allocate 1000 small 2 ranks tabular small_cyclic 1
      0 refl refl (omega arith) (omega arith) create_2dbc-ranks init-tabular init-small_cyclic
      (omega arith) (omega arith)

abbrev symmetric : SymTwoDim
symmetric = record {
  matrix = tiled;
  mat = 1000;
  grid_rows = 2;
  grid_cols = 3;
  col_rank = 1;
  row_rank = 1;
}

symmetric-Fits : Fits symmetric
symmetric-Fits = record {
  row = omega arith;
  col = omega arith;
  wide = omega arith;
  columns = omega arith;
  tiles = omega arith;
}

tile_5_4 : IsOwn symmetric 5 4
tile_5_4 = record {
  lower = omega arith;
  row = omega arith;
  col = omega arith;
  own_row = refl;
  own_col = refl;
}

-- memory of any size at the same place
abbrev at_place : ℕ → Option ℕ
at_place size = some symmetric.mat

tile_position-injective_example : ◌≡◌ {A = ℕ} 5 5 × ◌≡◌ {A = ℕ} 4 4
tile_position-injective_example =
    tile_position-injective symmetric symmetric-Fits 5 4 5 4 tile_5_4 tile_5_4 refl

position_5_4 : tile_position symmetric 5 4 ≡ some 3
unfolding tile_position skip_columns rows_among
position_5_4 = refl
