-- ===== src/Generator/Threads/Few.antt =====
-- `rand_dist_matrix` of data_dist/matrix/matrix.c on a matrix with fewer tiles than processes: its
-- table of tiles has no room at first, and doubling it gives none.
use native.Mathlib.Nat.{div-eq_of_lt}
use dague_hsa.Prelude.{
  ℕ, zero, suc, ◌+◌, ◌*◌, ◌/◌, ◌^◌, ◌<◌, ◌≡◌, ◌≢◌, refl, arith, Bool, false, List, [], ◌∷◌, ◌++◌,
  if◌then◌else◌, ◌==◌, inl, inr, Bool-cases, filter_p-append,
}
use dague_hsa.Distribution.{w32, TiledMatrix}
use dague_hsa.Generator.Threads.{
  TileCoordinate, Generation, generates, exits, faults, TileTable, store, check_tile, check_column,
  check_columns, initial_size, gather, rand_dist_matrix, ◌>>=◌,
}
use dague_hsa.Generator.Threads.Laws.{column_of, is_owned, all_coordinates, owned, owned_tiles}

module _ (allocates : ℕ → Bool) where
  -- an error message, or a write past the end
  abbrev overruns : {A : Type 0} → Generation A
  overruns = if allocates 0 then faults else exits

  overruns->>= : {A B : Type 0} (f : A → Generation B) → (overruns >>= f) ≡ overruns
  overruns->>= f = elim (Bool-cases (allocates 0)) [ inl e ↦ rw e refl | inr e ↦ rw e refl ]

  module _ (rank_of : (row col : ℕ) → ℕ) (myrank : ℕ) (memory : Bool) where
    abbrev no_room : TileTable
    no_room = record { tiles_coord_size = 0; has_memory = memory; tiles = [] }

    abbrev outcome : List TileCoordinate → Generation TileTable
    outcome [] = generates no_room
    outcome (t ∷ ts) = overruns

    outcome-append :
        (xs ys : List TileCoordinate) (rest : TileTable → Generation TileTable)
        → rest no_room ≡ outcome ys
        → (outcome xs >>= rest) ≡ outcome (xs ++ ys)
    outcome-append [] ys rest f = f
    outcome-append (x ∷ xs) ys rest f = overruns->>= rest

    -- Two parts of the gathering, one after the other.
    outcome->>= :
        {first : Generation TileTable} (xs ys : List TileCoordinate)
        (rest : TileTable → Generation TileTable)
        → first ≡ outcome (owned rank_of myrank xs)
        → rest no_room ≡ outcome (owned rank_of myrank ys)
        → (first >>= rest) ≡ outcome (owned rank_of myrank (xs ++ ys))
    outcome->>= xs ys rest e f =
        rw (e, filter_p-append (is_owned rank_of myrank) xs ys)
          (outcome-append (owned rank_of myrank xs) (owned rank_of myrank ys) rest f)

    outcome-mine :
        {A : Type 0} (ts : List TileCoordinate) (rest : TileTable → Generation A)
        → ts ≢ []
        → (outcome ts >>= rest) ≡ overruns
    outcome-mine [] rest n = absurd (n refl)
    outcome-mine (t ∷ ts) rest n = overruns->>= rest

    check_tile-no_room :
        (i j : ℕ)
        → check_tile allocates rank_of myrank i j no_room
          ≡ outcome (owned rank_of myrank (record { row = i; col = j } ∷ []))
    unfolding check_tile store
    check_tile-no_room i j = elim (Bool-cases (myrank == rank_of i j)) [
      | inl mine ↦
          rw mine (elim (Bool-cases (allocates 0)) [ inl e ↦ rw e refl | inr e ↦ rw e refl ])
      | inr other ↦ rw other refl
    ]

    check_column-no_room :
        (j i count : ℕ)
        → check_column allocates rank_of myrank j i count no_room
          ≡ outcome (owned rank_of myrank (column_of j i count))
    unfolding check_column
    check_column-no_room j i zero = refl
    check_column-no_room j i (suc count) =
        outcome->>= (record { row = i; col = j } ∷ []) (column_of j (i + 1) count) _
          (check_tile-no_room i j) (check_column-no_room j (i + 1) count)

    check_columns-no_room :
        (lmt j count : ℕ)
        → check_columns allocates rank_of myrank lmt j count no_room
          ≡ outcome (owned rank_of myrank (all_coordinates lmt j count))
    unfolding check_columns
    check_columns-no_room lmt j zero = refl
    check_columns-no_room lmt j (suc count) =
        outcome->>= (column_of j 0 lmt) (all_coordinates lmt (j + 1) count) _
          (check_column-no_room j 0 lmt) (check_columns-no_room lmt (j + 1) count)

module _ (allocates : ℕ → Bool) (rank_of : (row col : ℕ) → ℕ) (d : TiledMatrix) where
  -- Where there are more processes than tiles, `rand_dist_matrix` cannot generate anything on a
  -- process that owns a tile: it writes past a table with no room, or exits with an error.
  pub rand_dist_matrix-few :
      (kind : ℕ)
      → d.lmt * d.lnt < d.params.nodes
      → d.params.nodes < 2 ^ 32
      → owned_tiles rank_of d ≢ []
      → rand_dist_matrix allocates rank_of d kind ≡ (if allocates 0 then faults else exits)
  unfolding rand_dist_matrix gather initial_size
  rand_dist_matrix-few kind h b mine =
      let p = d.params in
      let nodes : (p.nodes == 0) ≡ false = ground arith in
      let whole : w32 (d.lmt * d.lnt) ≡ d.lmt * d.lnt = omega arith in
      let none_each : d.lmt * d.lnt / p.nodes ≡ 0 = div-eq_of_lt h in
      rw (nodes, whole, none_each)
        (rw (check_columns-no_room allocates rank_of p.myrank (allocates 0) d.lmt 0 d.lnt)
          (outcome-mine allocates rank_of p.myrank (allocates 0) (owned_tiles rank_of d) _ mine))
