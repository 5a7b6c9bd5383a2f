-- ===== src/Generator/Tests.antt =====
-- Runs of the generation of matrices, and the theorems at concrete matrices.
use dague_hsa.Prelude.{
  List, ◌++◌, length, SameElements, ℕ, ◌+◌, ◌%◌, ◌≡◌, refl, arith, true, some, [], ◌∷◌, map, Bool,
}
use dague_hsa.Distribution.{TiledMatrix}
use dague_hsa.Generator.{
  GenFct, affine, rnd64_jump, random_tile, bumped_tile, create_tile_lu_double,
}
use dague_hsa.Generator.Stream.{iterate, rnd64_step, rnd64_jump-iterate}
use dague_hsa.Generator.Tiles.{element_of, random_element, random_tile-element}
use dague_hsa.Generator.Diagonal.{bumped_tile-element}
use dague_hsa.Generator.Threads.{
  TileCoordinate, generates, faults, rand_dist_matrix, gather, shares, choose, all_threads,
  generate_tiled_random_mat, run_threads,
}
use dague_hsa.Generator.Threads.Shares.{concat}
use dague_hsa.Generator.Threads.Laws.{owned_tiles, rand_dist_matrix-owned}
use dague_hsa.Generator.Threads.Few.{rand_dist_matrix-few}

jump_of_three : rnd64_jump 100 3 ≡ rnd64_step (rnd64_step (rnd64_step 100))
unfolding rnd64_jump affine
jump_of_three = refl

rnd64_jump-iterate_example : rnd64_jump 100 1000 ≡ iterate rnd64_step 1000 100
rnd64_jump-iterate_example = rnd64_jump-iterate 100 1000 (omega arith)

-- 5 rows and 4 columns in tiles of 2 by 2, on two processes with two cores each
abbrev matrix : TiledMatrix
matrix = record {
  params = record {
    nodes = 2;
    cores = 2;
    myrank = 1;
    mtype = 8;
    mb = 2;
    nb = 2;
    ib = 2;
    lm = 5;
    ln = 4;
    i = 0;
    j = 0;
    m = 5;
    n = 4;
  };
  lmt = 3;
  lnt = 2;
  bsiz = 4;
  mt = 3;
  nt = 2;
}

-- The real numbers are stood for by the numbers of the generator.
abbrev number : ℕ → ℕ
number ran = ran

random_tile-element_example :
    element_of number 100 matrix (random_tile number 100 matrix) 3 2
    ≡ some (random_element number 100 matrix 3 2)
random_tile-element_example =
    random_tile-element number 100 matrix 3 2 (omega arith) (omega arith) (omega arith)
      (omega arith)

bumped_tile-element_example :
    element_of number 100 matrix (bumped_tile number 100 matrix ◌+◌) 3 3
    ≡ some (random_element number 100 matrix 3 3 + 5)
bumped_tile-element_example =
    bumped_tile-element number 100 matrix ◌+◌ 3 3 (omega arith) (omega arith) (omega arith)
      (omega arith) (omega arith)

-- Tile rows are dealt out in turn.
abbrev in_turn : ℕ → ℕ → ℕ
in_turn row col = row % 2

abbrev always : ℕ → Bool
always n = true

abbrev tile_at : ℕ → ℕ → TileCoordinate
tile_at row col = record { row = row; col = col }

of_process_one : owned_tiles in_turn matrix ≡ tile_at 1 0 ∷ tile_at 1 1 ∷ []
of_process_one = refl

generated :
    generate_tiled_random_mat always in_turn matrix
    ≡ generates (
        ((create_tile_lu_double, tile_at 1 0) ∷ [])
        ∷ ((create_tile_lu_double, tile_at 1 1) ∷ [])
        ∷ [])
unfolding generate_tiled_random_mat rand_dist_matrix gather shares choose all_threads
generated = refl

chosen : choose 0 8 ≡ generates create_tile_lu_double
unfolding choose
chosen = refl

rand_dist_matrix-owned_example :
    (threads : List (List (GenFct × TileCoordinate))) × (rand_dist_matrix always in_turn matrix 0
      ≡ generates threads)
    × (length threads ≡ 2)
    × SameElements
        ((run_threads (1 ∷ 0 ∷ []) threads).0 ++ concat (run_threads (1 ∷ 0 ∷ []) threads).1)
        (map (λ (t : TileCoordinate). (create_tile_lu_double, t)) (owned_tiles in_turn matrix))
rand_dist_matrix-owned_example =
    rand_dist_matrix-owned always in_turn matrix 0 create_tile_lu_double (1 ∷ 0 ∷ []) (λ n. refl)
      (omega arith) (omega arith) (omega arith) (omega arith) chosen

-- the same matrix on more processes than it has tiles
abbrev spread : TiledMatrix
spread = record matrix { params = record matrix.params { nodes = 8 } }

rand_dist_matrix-few_example : rand_dist_matrix always in_turn spread 0 ≡ faults
rand_dist_matrix-few_example =
    rand_dist_matrix-few always in_turn spread 0 (omega arith) (omega arith) (λ e. cc e)
