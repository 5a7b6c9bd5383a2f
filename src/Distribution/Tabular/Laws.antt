-- ===== src/Distribution/Tabular/Laws.antt =====
-- The table of `create_2dbc`, and what `tabular_distribution_init` makes of a table.
use native.Mathlib.Nat.{div-one, add-zero, mod-eq_of_lt, mul-le-mul_left}
use dague_hsa.Prelude.{
  ℕ, zero, suc, ◌+◌, ◌*◌, ◌^◌, ◌<◌, ◌≡◌, refl, ap, ◌∙◌, Bool, true, false, not, Option, none, some,
  List, [], ◌∷◌, map, arith, if◌then◌else◌, ◌==◌, ltb, inl, inr, Bool-cases, length, get_elem?,
  get_elem?-append_left, get_elem?-append_right, take, All,
}
use dague_hsa.Distribution.{
  w32, w64, Params, TiledMatrix, Init, ready, exits, aborts, diverges, describe, has_tiles,
}
use dague_hsa.Distribution.TwoDim.{TwoDim, has_grid, get_rank_for_tile as block_cyclic_rank}
use dague_hsa.Distribution.Tabular.{
  TileElem, Tabular, index_of, get_rank_for_tile, fill_table, cons_elem, with_table, init, rank_at,
  column_ranks, all_columns,
}

module _ (gcol grow : ℕ) where
  pub length-column_ranks : (j i count : ℕ) → length (column_ranks gcol grow j i count) ≡ count
  unfolding column_ranks
  length-column_ranks j i zero = refl
  length-column_ranks j i (suc count) = ap suc (length-column_ranks j (i + 1) count)

  get_elem?-column_ranks :
      (j i count m : ℕ)
      → m < count
      → get_elem? (column_ranks gcol grow j i count) m ≡ some (rank_at gcol grow (i + m) j)
  unfolding column_ranks
  get_elem?-column_ranks j i zero m h = absurd (omega arith)
  get_elem?-column_ranks j i (suc count) zero h = rw (add-zero i)
  get_elem?-column_ranks j i (suc count) (suc m) h =
      let e : i + 1 + m ≡ i + suc m = omega arith in
      get_elem?-column_ranks j (i + 1) count m (omega arith)
      ∙ ap (λ k. some (rank_at gcol grow k j)) e

  get_elem?-all_columns :
      (size j count n m : ℕ)
      → n < count
      → m < size
      → get_elem? (all_columns gcol grow size j count) (size * n + m)
        ≡ some (rank_at gcol grow m (j + n))
  unfolding all_columns
  get_elem?-all_columns size j zero n m h k = absurd (omega arith)
  get_elem?-all_columns size j (suc count) zero m h k =
      let e : size * 0 + m ≡ m = omega arith in
      let f : 0 + m ≡ m = omega arith in
      rw (e, add-zero j)
        (get_elem?-append_left (column_ranks gcol grow j 0 size) _ m
            (rw (length-column_ranks j 0 size) k)
          ∙ get_elem?-column_ranks j 0 size m k
          ∙ ap (λ i. some (rank_at gcol grow i j)) f)
  get_elem?-all_columns size j (suc count) (suc n) m h k =
      let e : j + 1 + n ≡ j + suc n = omega arith in
      get_elem?-append_right (column_ranks gcol grow j 0 size) _ (size * suc n + m) (size * n + m)
        (omega (arith, length-column_ranks j 0 size))
      ∙ get_elem?-all_columns size (j + 1) count n m (omega arith) k
      ∙ ap (λ i. some (rank_at gcol grow m i)) e

-- the ranks of a table of tiles
abbrev pub ranks_of : List TileElem → List ℕ
ranks_of es = map (λ e. e.rank) es

get_elem?-map_rank :
    (es : List TileElem) (i : ℕ)
    → elim (get_elem? es i) [ none ↦ none | some e ↦ some e.rank ] ≡ get_elem? (ranks_of es) i
get_elem?-map_rank [] i = refl
get_elem?-map_rank (e ∷ es) zero = refl
get_elem?-map_rank (e ∷ es) (suc i) = get_elem?-map_rank es i

pub index_of-small :
    (size m n : ℕ)
    → size * size < 2 ^ 31
    → m < size
    → n < size
    → (index_of size m n ≡ size * n + m) × (size * n + m < 2 ^ 31)
index_of-small size m n h hm hn =
    let le = mul-le-mul_left {m = suc n} {n = size} size hn in
    let e : w32 (size * n) ≡ size * n = mod-eq_of_lt (omega arith) in
    (rw e (mod-eq_of_lt (omega arith)), omega arith)

-- A table that holds the block-cyclic ranks, and the block-cyclic distribution itself.
pub table-block_cyclic_rank :
    (d : Tabular) (b : TwoDim) (size m n : ℕ)
    → 0 < b.grid_rows
    → 0 < b.grid_cols
    → b.nrst ≡ 1
    → b.ncst ≡ 1
    → d.matrix.lmt ≡ size
    → ranks_of d.tiles_table ≡ all_columns b.grid_cols b.grid_rows size 0 size
    → size * size < 2 ^ 31
    → m < size
    → n < size
    → get_rank_for_tile d m n ≡ block_cyclic_rank b m n
unfolding get_rank_for_tile block_cyclic_rank rank_at
table-block_cyclic_rank d b size m n hr hc nr nc lmt table small hm hn =
    let (e, l) = index_of-small size m n small hm hn in
    let t : ltb (size * n + m) (2 ^ 31) ≡ true = ground (arith, l) in
    let f : get_elem? (ranks_of d.tiles_table) (size * n + m)
        ≡ some (rank_at b.grid_cols b.grid_rows m (0 + n)) =
      rw table (get_elem?-all_columns b.grid_cols b.grid_rows size 0 size n m hn hm) in
    let whole : has_grid b ≡ true = ground (arith, hr, hc, nr, nc) in
    let z : 0 + n ≡ n = omega arith in
    rw (
      whole,
      nr,
      nc,
      div-one m,
      div-one n,
      lmt,
      e,
      t,
      get_elem?-map_rank d.tiles_table (size * n + m),
      f,
      z,
    )

-- The tile is there exactly where it is this process's.
abbrev pub has_own_tile : ℕ → TileElem → Bool
has_own_tile myrank e = elim e.tile [ none ↦ not (e.rank == myrank) | some tile ↦ e.rank == myrank ]

-- What a table that has been filled holds.
abbrev pub Filled : {Heap : Type 0} → ℕ → ℕ → List ℕ → Init (List TileElem) × Heap → Type 0
Filled myrank count table (ready es, h) =
    (ranks_of es ≡ take count table)
    × (length es ≡ count)
    × All (λ e. has_own_tile myrank e ≡ true) es
Filled myrank count table (exits, h) = Unit
Filled myrank count table (aborts, h) = Unit
Filled myrank count table (diverges, h) = Unit

cons_elem-Filled :
    {Heap : Type 0} (myrank count : ℕ) (table : List ℕ) (e : TileElem)
    (r : Init (List TileElem) × Heap)
    → has_own_tile myrank e ≡ true
    → Filled myrank count table r
    → Filled myrank (suc count) (e.rank ∷ table) (cons_elem e r)
cons_elem-Filled myrank count table e (ready es, h) o f =
    (ap (λ rs. e.rank ∷ rs) f.0, ap suc f.1, (o, f.2))
cons_elem-Filled myrank count table e (exits, h) o f = tt
cons_elem-Filled myrank count table e (aborts, h) o f = tt
cons_elem-Filled myrank count table e (diverges, h) o f = tt

if-Filled :
    {Heap : Type 0} (myrank count : ℕ) (table : List ℕ) (b : Bool)
    (r q : Init (List TileElem) × Heap)
    → (b ≡ true → Filled myrank count table r)
    → (b ≡ false → Filled myrank count table q)
    → Filled myrank count table (if b then r else q)
if-Filled myrank count table true r q f g = f refl
if-Filled myrank count table false r q f g = g refl

ready-eq : {a b : Tabular} → ready a ≡ ready b → a ≡ b
ready-eq h = cc

module _ {Heap : Type 0} (allocate : ℕ → Heap → Option ℕ × Heap) where
  fill_table-Filled :
      (myrank size count : ℕ) (table : List ℕ) (heap : Heap)
      → Filled myrank count table (fill_table allocate myrank size count table heap)
  unfolding fill_table
  fill_table-Filled myrank size zero table heap = (refl, refl, tt)
  fill_table-Filled myrank size (suc count) [] heap = tt
  fill_table-Filled myrank size (suc count) (rank ∷ table) heap =
      if-Filled myrank (suc count) (rank ∷ table) (rank == myrank) _ _
        (got (allocate size heap).0
          (fill_table-Filled myrank size count table (allocate size heap).1))
        (λ theirs.
          cons_elem-Filled myrank count table (record { rank = rank; tile = none })
            (fill_table allocate myrank size count table heap) (ground (arith, theirs))
            (fill_table-Filled myrank size count table heap))
    where
      rest : Init (List TileElem) × Heap
      rest = fill_table allocate myrank size count table (allocate size heap).1

      got :
          (memory : Option ℕ)
          → Filled myrank count table rest
          → rank == myrank ≡ true
          → Filled {Heap = Heap} myrank (suc count) (rank ∷ table) (elim memory [
            | none ↦ (exits, (allocate size heap).1)
            | some tile ↦ cons_elem (record { rank = rank; tile = some tile }) rest
          ])
      got none r mine = tt
      got (some tile) r mine =
          cons_elem-Filled myrank count table (record { rank = rank; tile = some tile }) rest mine r

  with_table-Filled :
      (t : TiledMatrix) (myrank count : ℕ) (table : List ℕ) (r : Init (List TileElem) × Heap)
      (d : Tabular)
      → Filled myrank count table r
      → (with_table t r).0 ≡ ready d
      → (d.matrix ≡ t)
        × (ranks_of d.tiles_table ≡ take count table)
        × (length d.tiles_table ≡ count)
        × All (λ e. has_own_tile myrank e ≡ true) d.tiles_table
  with_table-Filled t myrank count table (ready es, h) d f e =
      let q : record { matrix = t; tiles_table = es } ≡ d = ready-eq e in
      rw (← q) (refl, f.0, f.1, f.2)
  with_table-Filled t myrank count table (exits, h) d f e = absurd (cc)
  with_table-Filled t myrank count table (aborts, h) d f e = absurd (cc)
  with_table-Filled t myrank count table (diverges, h) d f e = absurd (cc)

  -- A table that `tabular_distribution_init` has filled has an entry for each tile of the matrix, in
  -- order: its ranks are those of the given table, and the tiles with memory are those of this process.
  pub init-tiles_table :
      (p : Params) (table : List ℕ) (heap : Heap) (d : Tabular)
      → (init allocate p table heap).0 ≡ ready d
      → (d.matrix ≡ describe p)
        × (ranks_of d.tiles_table ≡ take (w32 ((describe p).lmt * (describe p).lnt)) table)
        × (length d.tiles_table ≡ w32 ((describe p).lmt * (describe p).lnt))
        × All (λ e. has_own_tile p.myrank e ≡ true) d.tiles_table
  unfolding init
  init-tiles_table p table heap d h = elim (Bool-cases (has_tiles p)) [
    | inl e ↦
        with_table-Filled (describe p) p.myrank _ table
          (fill_table allocate p.myrank (w64 ((describe p).bsiz * p.mtype))
            (w32 ((describe p).lmt * (describe p).lnt)) table heap)
          d (fill_table-Filled p.myrank _ _ table heap) (rw e at h)
    | inr e ↦ absurd (ground (arith, e))
  ]
