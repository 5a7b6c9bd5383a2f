-- ===== src/Distribution/Tabular.antt =====
-- data_dist/matrix/tabular_distribution/tabular_distribution.c: a distribution by a table of the ranks
-- of the tiles, and the table of a block-cyclic one. Tiles are stored column by column. The memory of
-- a tile is an address.
pub mod Laws
pub mod Agree
use dague_hsa.Prelude.{
  ℕ, zero, suc, ◌+◌, ◌*◌, ◌-◌, ◌/◌, ◌%◌, ◌^◌, ◌==◌, ltb, if◌then◌else◌, Bool, not, ◌&&◌, Option,
  none, some, List, [], ◌∷◌, ◌++◌, get_elem?,
}
use dague_hsa.Distribution.{
  w32, w64, sub32, Params, TiledMatrix, has_tiles, describe, Init, ready, exits, aborts, diverges,
}

-- `tile_elem_t`; the tile is NULL on the other processes.
pub record TileElem : Type 0 where
  pub rank : ℕ
  pub tile : Option ℕ

-- `tabular_distribution_t`
pub record Tabular : Type 0 where
  pub matrix : TiledMatrix
  pub tiles_table : List TileElem

-- the index of a tile in the table
abbrev pub index_of : ℕ → ℕ → ℕ → ℕ
index_of lmt m n = w32 (w32 (lmt * n) + m)

-- `td_get_rank_for_tile`; `none` is a read out of the table. An index of 2^31 or more is negative in
-- the source, which reads before the table.
unfoldable pub get_rank_for_tile : Tabular → ℕ → ℕ → Option ℕ
get_rank_for_tile d m n =
    if ltb (index_of d.matrix.lmt m n) (2 ^ 31)
    then elim (get_elem? d.tiles_table (index_of d.matrix.lmt m n)) [
      | none ↦ none
      | some e ↦ some e.rank
    ]
    else none

-- `td_get_local_tile` of a distributed build; `none` is a failed assertion or a read out of the table.
unfoldable pub get_local_tile : Tabular → ℕ → ℕ → Option (Option ℕ)
unfolding get_rank_for_tile
get_local_tile d m n = elim (get_rank_for_tile d m n) [
  | none ↦ none
  | some rank ↦
      if d.matrix.params.myrank == rank
      then elim (get_elem? d.tiles_table (index_of d.matrix.lmt m n)) [
        | none ↦ none
        | some e ↦ some e.tile
      ]
      else none
]

-- one more tile before the others
abbrev pub cons_elem :
    {Heap : Type 0} → TileElem → Init (List TileElem) × Heap → Init (List TileElem) × Heap
cons_elem e (ready es, h) = (ready (e ∷ es), h)
cons_elem e (exits, h) = (exits, h)
cons_elem e (aborts, h) = (aborts, h)
cons_elem e (diverges, h) = (diverges, h)

abbrev pub with_table :
    {Heap : Type 0} → TiledMatrix → Init (List TileElem) × Heap → Init Tabular × Heap
with_table t (ready es, h) = (ready (record { matrix = t; tiles_table = es }), h)
with_table t (exits, h) = (exits, h)
with_table t (aborts, h) = (aborts, h)
with_table t (diverges, h) = (diverges, h)

-- The memory of a tile is from `dague_allocate_matrix`, which reads and changes the heap.
module _ {Heap : Type 0} (allocate : ℕ → Heap → Option ℕ × Heap) where
  -- The loop of `tabular_distribution_init` over the table; reading past its end aborts.
  unfoldable pub fill_table : (myrank size : ℕ) → ℕ → List ℕ → Heap → Init (List TileElem) × Heap
  fill_table myrank size zero table heap = (ready [], heap)
  fill_table myrank size (suc count) [] heap = (aborts, heap)
  fill_table myrank size (suc count) (rank ∷ table) heap =
      let (memory, heap') = allocate size heap in
      let mine = fill_table myrank size count table heap' in
      let theirs = fill_table myrank size count table heap in
      if rank == myrank
      then elim memory [
        | none ↦ (exits, heap')
        | some tile ↦ cons_elem (record { rank = rank; tile = some tile }) mine
      ]
      else cons_elem (record { rank = rank; tile = none }) theirs

  -- `tabular_distribution_init`
  unfoldable pub init : Params → List ℕ → Heap → Init Tabular × Heap
  unfolding describe
  init p table heap =
      if has_tiles p
      then with_table (describe p) (
          fill_table p.myrank (w64 ((describe p).bsiz * p.mtype))
            (w32 ((describe p).lmt * (describe p).lnt)) table heap)
      else (aborts, heap)

-- what `create_2dbc` returns: a table, NULL, or nothing as it divides by 0
-- or writes past a table whose size has wrapped
pub data Table2dbc : Type 0 where
  table_of : List ℕ → Table2dbc
  null_table : Table2dbc
  faults : Table2dbc

module _ (gcol grow : ℕ) where
  -- the rank of the tile in row i and column j
  unfoldable pub rank_at : ℕ → ℕ → ℕ
  rank_at i j = w32 (w32 (i % grow * gcol) + j % gcol)

  -- the inner loop, from a row on, over so many rows
  unfoldable pub column_ranks : ℕ → ℕ → ℕ → List ℕ
  column_ranks j i zero = []
  column_ranks j i (suc count) = rank_at i j ∷ column_ranks j (i + 1) count

  -- the outer loop, from a column on, over so many columns
  unfoldable pub all_columns : ℕ → ℕ → ℕ → List ℕ
  all_columns nbtiles j zero = []
  all_columns nbtiles j (suc count) = column_ranks j 0 nbtiles ++ all_columns nbtiles (j + 1) count

-- `create_2dbc`; `allocates` says whether `malloc` has so much memory.
module _ (allocates : ℕ → Bool) where
  unfoldable pub create_2dbc : (size block nbproc grow : ℕ) → Table2dbc
  unfolding all_columns
  create_2dbc size block nbproc grow =
      let nbtiles = sub32 (w32 (size + block)) 1 / block in
      let gcol = nbproc / grow in
      if grow == 0
      then faults
      else if not (nbproc % grow == 0)
      then null_table
      else if block == 0
      then faults
      else if not (allocates (w64 (w32 (nbtiles * nbtiles) * 4)))
      then null_table
      else if not (nbtiles * nbtiles == w32 (nbtiles * nbtiles))
      then faults
      else if gcol == 0
      then (if nbtiles == 0 then table_of [] else faults)
      else table_of (all_columns gcol grow nbtiles 0 nbtiles)
