-- ===== src/Generator/Threads/Laws.antt =====
-- What `rand_dist_matrix` of data_dist/matrix/matrix.c generates.
use mathlib.Core.Path.{subst}
use mathlib.Core.List.{append-nil, append_assoc}
use native.Mathlib.Nat.{div-add-mod', mul_comm, div-le_self, le-div_iff_mul-le}
use dague_hsa.Prelude.{
  count_p, count_p-append, SameElements, ℕ, zero, suc, ◌+◌, ◌*◌, ◌/◌, ◌%◌, ◌^◌, ◌≤◌, ◌<◌, ◌≡◌, refl,
  sym, ap, ◌∙◌, arith, Bool, true, false, List, [], ◌∷◌, ◌++◌, ◌==◌, length, map, inl, inr,
  Bool-cases, ==_iff, lt→ltb, filter_p, filter_p-append, length-append,
}
use dague_hsa.Distribution.{w32, w64, TiledMatrix}
use dague_hsa.Generator.{GenFct}
use dague_hsa.Generator.Threads.{
  TileCoordinate, generates, TileTable, store, check_tile, check_column, check_columns, shares,
  choose, all_threads, run_threads, initial_size, gather, rand_dist_matrix,
}
use dague_hsa.Generator.Threads.Shares.{
  with_gen, concat, count_p-run_threads, all_threads-length, all_threads-shares,
}

-- The coordinates of a matrix, column by column, and those of a process.
abbrev pub column_of : (j i count : ℕ) → List TileCoordinate
column_of j i zero = []
column_of j i (suc count) = record { row = i; col = j } ∷ column_of j (i + 1) count

abbrev pub all_coordinates : (lmt j count : ℕ) → List TileCoordinate
all_coordinates lmt j zero = []
all_coordinates lmt j (suc count) = column_of j 0 lmt ++ all_coordinates lmt (j + 1) count

-- A table with memory, and so many tiles still to come.
record HasRoom (t : TileTable) (more : ℕ) : Type 0 where
  memory : t.has_memory ≡ true
  positive : 0 < t.tiles_coord_size
  room : length t.tiles ≤ t.tiles_coord_size
  bounded : length t.tiles + more < 2 ^ 31

-- a table with one more tile
abbrev added : ℕ → ℕ → TileTable → TileTable
added i j t = record t { tiles = t.tiles ++ record { row = i; col = j } ∷ [] }

module _ (rank_of : (row col : ℕ) → ℕ) (myrank : ℕ) where
  abbrev pub is_owned : TileCoordinate → Bool
  is_owned t = myrank == rank_of t.row t.col

  abbrev pub owned : List TileCoordinate → List TileCoordinate
  owned = filter_p is_owned

  -- Tiles gathered in two parts.
  gathered :
      (ts : List TileCoordinate) {us vs : List TileCoordinate} (xs ys : List TileCoordinate)
      → us ≡ ts ++ owned xs
      → vs ≡ us ++ owned ys
      → vs ≡ ts ++ owned (xs ++ ys)
  gathered ts xs ys e f =
      f
      ∙ ap (λ (u : List TileCoordinate). u ++ owned ys) e
      ∙ append_assoc ts (owned xs) (owned ys)
      ∙ ap (λ (u : List TileCoordinate). ts ++ u) (sym (filter_p-append is_owned xs ys))

  module _ (allocates : ℕ → Bool) where
    store-added :
        (i j more : ℕ) (t : TileTable)
        → HasRoom t (suc more)
        → length t.tiles < t.tiles_coord_size
        → (store allocates rank_of myrank i j t ≡ generates (added i j t))
          × HasRoom (added i j t) more
    unfolding store
    store-added i j more t h l =
        let longer = length-append t.tiles (record { row = i; col = j } ∷ []) in
        (
          rw (h.memory, lt→ltb _ _ l) refl,
          record {
            memory = h.memory;
            positive = h.positive;
            room = let r = h.room in omega arith;
            bounded = let b = h.bounded in omega arith;
          },
        )

    module _ (gives : (n : ℕ) → allocates n ≡ true) where
      check_tile-mine :
          (i j more : ℕ) (t : TileTable)
          → HasRoom t (suc more)
          → (myrank == rank_of i j) ≡ true
          → (t' : TileTable) × (check_tile allocates rank_of myrank i j t ≡ generates t')
            × HasRoom t' more
            × (t'.tiles ≡ t.tiles ++ record { row = i; col = j } ∷ [])
      unfolding check_tile
      check_tile-mine i j more t h mine = elim (Bool-cases (length t.tiles == t.tiles_coord_size)) [
        | inl full ↦
            let grown = record t {
              tiles_coord_size = w32 (2 * t.tiles_coord_size);
              has_memory = true;
            } in
            let b = h.bounded in
            let e : length t.tiles ≡ t.tiles_coord_size = (==_iff _ _).0 full in
            let p = h.positive in
            let room : HasRoom grown (suc more) = record {
              memory = refl;
              positive = omega arith;
              room = omega arith;
              bounded = b;
            } in
            let (s, r) = store-added i j more grown room (omega arith) in
            (
              added i j grown,
              rw (mine, full, gives (w64 (w32 (2 * t.tiles_coord_size) * 8))) s,
              r,
              refl,
            )
        | inr free ↦
            let r = h.room in
            let (s, r') = store-added i j more t h (ground arith) in
            (added i j t, rw (mine, free) s, r', refl)
      ]

      check_tile-owned :
          (i j more : ℕ) (t : TileTable)
          → HasRoom t (suc more)
          → (t' : TileTable) × (check_tile allocates rank_of myrank i j t ≡ generates t')
            × HasRoom t' more
            × (t'.tiles ≡ t.tiles ++ owned (record { row = i; col = j } ∷ []))
      unfolding check_tile
      check_tile-owned i j more t h = elim (Bool-cases (myrank == rank_of i j)) [
        | inl mine ↦ let (t', e, r, f) = check_tile-mine i j more t h mine in (t', e, r, rw mine f)
        | inr other ↦
            let b = h.bounded in
            (
              t,
              rw other refl,
              record {
                memory = h.memory;
                positive = h.positive;
                room = h.room;
                bounded = omega arith;
              },
              rw (other, append-nil) refl,
            )
      ]

      check_column-owned :
          (j i count more : ℕ) (t : TileTable)
          → HasRoom t (count + more)
          → (t' : TileTable) × (check_column allocates rank_of myrank j i count t ≡ generates t')
            × HasRoom t' more
            × (t'.tiles ≡ t.tiles ++ owned (column_of j i count))
      unfolding check_column
      check_column-owned j i zero more t h =
          let e : 0 + more ≡ more = omega arith in
          (t, refl, subst (HasRoom t) e h, sym (append-nil t.tiles))
      check_column-owned j i (suc count) more t h =
          let e : suc count + more ≡ suc (count + more) = omega arith in
          let (t1, c1, h1, e1) = check_tile-owned i j (count + more) t (subst (HasRoom t) e h) in
          let (t2, c2, h2, e2) = check_column-owned j (i + 1) count more t1 h1 in
          (
            t2,
            rw c1 c2,
            h2,
            gathered t.tiles (record { row = i; col = j } ∷ []) (column_of j (i + 1) count) e1 e2,
          )

      check_columns-owned :
          (lmt j count : ℕ) (t : TileTable)
          → HasRoom t (count * lmt)
          → (t' : TileTable) × (check_columns allocates rank_of myrank lmt j count t ≡ generates t')
            × HasRoom t' 0
            × (t'.tiles ≡ t.tiles ++ owned (all_coordinates lmt j count))
      unfolding check_columns
      check_columns-owned lmt j zero t h =
          (t, refl, subst (HasRoom t) (omega arith) h, sym (append-nil t.tiles))
      check_columns-owned lmt j (suc count) t h =
          let e : suc count * lmt ≡ lmt + count * lmt = grind arith in
          let (t1, c1, h1, e1) =
            check_column-owned j 0 lmt (count * lmt) t (subst (HasRoom t) e h) in
          let (t2, c2, h2, e2) = check_columns-owned lmt (j + 1) count t1 h1 in
          (
            t2,
            rw c1 c2,
            h2,
            gathered t.tiles (column_of j 0 lmt) (all_coordinates lmt (j + 1) count) e1 e2,
          )

-- the tiles of a process
abbrev pub owned_tiles : ((row col : ℕ) → ℕ) → TiledMatrix → List TileCoordinate
owned_tiles rank_of d = owned rank_of d.params.myrank (all_coordinates d.lmt 0 d.lnt)

module _ (allocates : ℕ → Bool) (rank_of : (row col : ℕ) → ℕ) (d : TiledMatrix) where
  module _ (gives : (n : ℕ) → allocates n ≡ true) where
    initial_size-pos : (average : ℕ) → 0 < average → average < 2 ^ 31 → 0 < w32 (3 * average) / 2
    initial_size-pos average p h = omega arith

    gather-owned :
        0 < d.params.nodes
        → d.params.nodes ≤ d.lmt * d.lnt
        → d.lmt * d.lnt < 2 ^ 31
        → (t : TileTable) × (gather allocates rank_of d ≡ generates t)
          × HasRoom t 0
          × (t.tiles ≡ owned_tiles rank_of d)
    unfolding gather initial_size
    gather-owned hn hl hb =
        let p = d.params in
        let average : 0 < d.lmt * d.lnt / p.nodes = (le-div_iff_mul-le hn).1 (omega arith) in
        let fits : d.lmt * d.lnt / p.nodes ≤ d.lmt * d.lnt = div-le_self _ _ in
        let product : d.lnt * d.lmt ≡ d.lmt * d.lnt = mul_comm _ _ in
        let whole : w32 (d.lmt * d.lnt) ≡ d.lmt * d.lnt = omega arith in
        let size = w32 (3 * (w32 (d.lmt * d.lnt) / p.nodes)) / 2 in
        let positive : 0 < size = rw whole (initial_size-pos _ average (omega arith)) in
        let start : TileTable = record {
          tiles_coord_size = size;
          has_memory = allocates (w64 (size * 8));
          tiles = [];
        } in
        check_columns-owned rank_of p.myrank allocates gives d.lmt 0 d.lnt start (record {
          memory = gives _;
          positive = positive;
          room = omega arith;
          bounded = omega arith;
        })

  -- With memory, on at least one core, and with at most one process for each of the less than 2^31
  -- tiles: where there is a function for the kind of matrix, `rand_dist_matrix` runs as many threads as
  -- there are cores, if they all start. Whatever the schedule of the threads, the calls that they have
  -- made and those that they still make are calls of this function, exactly one for each tile of the
  -- matrix that this process owns, and none for any other.
  pub rand_dist_matrix-owned :
      (kind : ℕ) (gen : GenFct) (schedule : List ℕ)
      → ((n : ℕ) → allocates n ≡ true)
      → 0 < d.params.nodes
      → d.params.nodes ≤ d.lmt * d.lnt
      → d.lmt * d.lnt < 2 ^ 31
      → 0 < d.params.cores
      → choose kind d.params.mtype ≡ generates gen
      → (threads : List (List (GenFct × TileCoordinate))) × (rand_dist_matrix allocates rank_of d
            kind
          ≡ generates threads)
        × (length threads ≡ d.params.cores)
        × SameElements
            ((run_threads schedule threads).0 ++ concat (run_threads schedule threads).1)
            (map (λ (t : TileCoordinate). (gen, t)) (owned_tiles rank_of d))
  unfolding rand_dist_matrix
  rand_dist_matrix-owned kind gen schedule gives hn hl hb hc hk =
      let p = d.params in
      let (t, c, h, e) = gather-owned gives hn hl hb in
      let b = h.bounded in
      let nodes : (p.nodes == 0) ≡ false = ground arith in
      let cores : (p.cores == 0) ≡ false = ground arith in
      let pos = length t.tiles in
      let threads = all_threads t.tiles (shares gen (pos / p.cores) (pos % p.cores) 0 0 p.cores) in
      let whole =
        all_threads-shares t.tiles gen (pos / p.cores) (pos % p.cores) 0 0 p.cores hc
          (omega (arith, div-add-mod' pos p.cores, mul_comm (pos / p.cores) p.cores)) (omega arith)
        ∙ ap (with_gen gen) e in
      (
        threads,
        rw (nodes, c, cores, hk) refl,
        all_threads-length t.tiles gen (pos / p.cores) (pos % p.cores) 0 0 p.cores,
        λ q.
            count_p-append q (run_threads schedule threads).0
              (concat (run_threads schedule threads).1)
            ∙ count_p-run_threads q schedule threads
            ∙ ap (count_p q) whole,
      )
