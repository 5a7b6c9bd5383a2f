-- ===== src/Distribution/Ranks.antt =====
-- What `two_dim_block_cyclic_init` establishes: which ranks own which tiles, and how many.
use native.Mathlib.Nat.{mod-lt, div-lt_iff_lt-mul, mod-eq_of_lt, div-add-mod', mul-le-mul_right}
use dague_hsa.Prelude.{
  ℕ, ◌+◌, ◌*◌, ◌/◌, ◌%◌, ◌^◌, ◌<◌, ◌≡◌, ◌↔◌, true, ◌||◌, Option, none, some, arith, sym, ◌∙◌, ◌==◌,
  ltb, inl, inr, Bool-cases, Option-cases,
}
use dague_hsa.Distribution.{w32, Params, TiledMatrix, describe, ready}
use dague_hsa.Distribution.Arith.{count_below, grid_iff}
use dague_hsa.Distribution.TwoDim.{
  TwoDim, has_grid, get_rank_for_tile, init, init_grid, allocate_tiles, owned_rows, bytes_of,
  super_tiles,
}
use dague_hsa.Distribution.Owned.{belongs, owned_rows-count_below}

-- What the fields of a description have to do with each other.
pub record IsTwoDim (nodes myrank : ℕ) (d : TwoDim) : Type 0 where
  pub rows_pos : 0 < d.grid_rows
  pub cols_pos : 0 < d.grid_cols
  pub nrst_pos : 0 < d.nrst
  pub ncst_pos : 0 < d.ncst
  pub grid : d.grid_rows * d.grid_cols ≡ nodes
  pub row : d.row_rank ≡ myrank / d.grid_cols
  pub col : d.col_rank ≡ myrank % d.grid_cols

module _ (allocate : ℕ → Option ℕ) where
  allocate_tiles-ready :
      (t : TiledMatrix) (nrst ncst rows cols : ℕ) (nr nc : Option ℕ) (d : TwoDim)
      → allocate_tiles allocate t nrst ncst rows cols nr nc ≡ ready d
      → (d.matrix ≡ t)
        × (d.nrst ≡ nrst)
        × (d.ncst ≡ ncst)
        × (d.grid_rows ≡ rows)
        × (d.grid_cols ≡ cols)
        × (d.row_rank ≡ t.params.myrank / cols)
        × (d.col_rank ≡ t.params.myrank % cols)
        × (nr ≡ some d.nb_elem_r)
        × (nc ≡ some d.nb_elem_c)
        × (allocate (bytes_of d.nb_elem_r d.nb_elem_c t.bsiz t.params.mtype) ≡ some d.mat)
  unfolding allocate_tiles
  allocate_tiles-ready t nrst ncst rows cols (some r) (some c) d h =
      elim (Option-cases (allocate (bytes_of r c t.bsiz t.params.mtype))) [
        | inl e ↦ absurd (ground (arith, e))
        | inr (a, e) ↦ ground (arith, e)
      ]
  allocate_tiles-ready t nrst ncst rows cols none nc d h = absurd (ground arith)
  allocate_tiles-ready t nrst ncst rows cols (some r) none d h = absurd (ground arith)

  init_grid-ready :
      (t : TiledMatrix) (nrst ncst rows cols : ℕ) (d : TwoDim)
      → init_grid allocate t nrst ncst rows cols ≡ ready d
      → allocate_tiles allocate t nrst ncst rows cols
          (owned_rows (t.params.myrank / cols) rows nrst t.lmt)
          (owned_rows (t.params.myrank % cols) cols ncst t.lnt)
        ≡ ready d
  unfolding init_grid
  init_grid-ready t nrst ncst rows cols d h =
      elim (Bool-cases (ltb (super_tiles t.lmt nrst) rows || ltb (super_tiles t.lnt ncst) cols)) [
        | inl e ↦ absurd (ground (arith, e))
        | inr e ↦ ground (arith, e)
      ]

  init-ready :
      (p : Params) (nrst ncst rows : ℕ) (d : TwoDim)
      → init allocate p nrst ncst rows ≡ ready d
      → (0 < nrst)
        × (0 < ncst)
        × (0 < rows)
        × (0 < p.nodes / rows)
        × (p.nodes % rows ≡ 0)
        × (allocate_tiles allocate
              (describe p)
              nrst
              ncst
              rows
              (p.nodes / rows)
              (owned_rows (p.myrank / (p.nodes / rows)) rows nrst (describe p).lmt)
              (owned_rows (p.myrank % (p.nodes / rows)) (p.nodes / rows) ncst (describe p).lnt)
            ≡ ready d)
  unfolding init
  init-ready p nrst ncst rows d h =
      ground (arith, init_grid-ready (describe p) nrst ncst rows (p.nodes / rows) d)

  pub init-IsTwoDim :
      (p : Params) (nrst ncst rows : ℕ) (d : TwoDim)
      → init allocate p nrst ncst rows ≡ ready d
      → IsTwoDim p.nodes p.myrank d
  unfolding describe
  init-IsTwoDim p nrst ncst rows d h =
      let (a, b, c, e, f, g) = init-ready p nrst ncst rows d h in
      let (mt, x, y, z, w, rr, cr, nr, nc, al) =
        allocate_tiles-ready (describe p) nrst ncst rows (p.nodes / rows) _ _ d g in
      record {
        rows_pos = omega (arith, z);
        cols_pos = omega (arith, w);
        nrst_pos = omega (arith, x);
        ncst_pos = omega (arith, y);
        grid = rw (z, w) (omega (arith, div-add-mod' p.nodes rows));
        row = rw (rr, w);
        col = rw (cr, w);
      }

module _ (allocate : ℕ → Option ℕ) where
  pub init-fields :
      (p : Params) (nrst ncst rows : ℕ) (d : TwoDim)
      → init allocate p nrst ncst rows ≡ ready d
      → (d.nrst ≡ nrst) × (d.ncst ≡ ncst) × (d.grid_rows ≡ rows) × (d.grid_cols ≡ p.nodes / rows)
  init-fields p nrst ncst rows d h =
      let g = (init-ready allocate p nrst ncst rows d h).5 in
      let q = allocate_tiles-ready allocate (describe p) nrst ncst rows (p.nodes / rows) _ _ d g in
      (q.1, q.2, q.3, q.4)

-- The rank of a tile, from its row and its column in the grid.
grid-lt : (r c rows cols : ℕ) → r < rows → c < cols → r * cols + c < rows * cols
grid-lt r c rows cols h k = omega (arith, mul-le-mul_right cols h)

some-eq : {a b : ℕ} → some a ≡ some b → a ≡ b
some-eq h = cc

tests_iff :
    (a b x y r s : ℕ)
    → (r ≡ s) ↔ ((a ≡ x) × (b ≡ y))
    → (r ≡ s) ↔ ((a == x ≡ true) × (b == y ≡ true))
tests_iff a b x y r s h = (λ e. ground (arith, h.0 e), λ e. h.1 (ground arith, ground arith))

rank-owner :
    (d : TwoDim) (nodes myrank m n : ℕ)
    → IsTwoDim nodes myrank d
    → nodes < 2 ^ 32
    → (r : ℕ) × (get_rank_for_tile d m n ≡ some r)
      × (r < nodes)
      × ((r ≡ myrank) ↔ (
          (belongs d.row_rank d.grid_rows d.nrst m ≡ true)
          × (belongs d.col_rank d.grid_cols d.ncst n ≡ true)))
unfolding get_rank_for_tile
rank-owner d nodes myrank m n v h =
    let rr = m / d.nrst % d.grid_rows in
    let cr = n / d.ncst % d.grid_cols in
    let hr = mod-lt (m / d.nrst) v.rows_pos in
    let hc = mod-lt (n / d.ncst) v.cols_pos in
    let small = grid-lt rr cr d.grid_rows d.grid_cols hr hc in
    let iff = grid_iff rr cr d.grid_cols myrank hc in
    let whole : has_grid d ≡ true =
      ground (arith, v.rows_pos, v.cols_pos, v.nrst_pos, v.ncst_pos) in
    let e : w32 (rr * d.grid_cols) ≡ rr * d.grid_cols =
      mod-eq_of_lt (omega (arith, v.grid, small)) in
    let f : w32 (rr * d.grid_cols + cr) ≡ rr * d.grid_cols + cr =
      mod-eq_of_lt (omega (arith, v.grid, small)) in
    (
      rr * d.grid_cols + cr,
      rw (whole, e, f),
      omega (arith, v.grid),
      rw (v.row, v.col) (tests_iff rr cr _ _ (rr * d.grid_cols + cr) myrank iff),
    )

module _ (allocate : ℕ → Option ℕ) (p : Params) (nrst ncst rows : ℕ) (d : TwoDim)
    (h : init allocate p nrst ncst rows ≡ ready d) where
  -- With the description that the initialisation of `nodes` < 2^32 processes gives, every tile has a
  -- rank below `nodes`, and it is this process's exactly where the row of the tile is one of its rows,
  -- and the column one of its columns.
  pub init-get_rank_for_tile :
      (m n : ℕ)
      → p.nodes < 2 ^ 32
      → (r : ℕ) × (get_rank_for_tile d m n ≡ some r)
        × (r < p.nodes)
        × ((r ≡ p.myrank) ↔ (
            (belongs d.row_rank d.grid_rows d.nrst m ≡ true)
            × (belongs d.col_rank d.grid_cols d.ncst n ≡ true)))
  init-get_rank_for_tile m n small =
      rank-owner d p.nodes p.myrank m n (init-IsTwoDim allocate p nrst ncst rows d h) small

  -- Where the numbers of tiles, and a round of blocks over the grid, fit in an `unsigned int`, the
  -- initialisation counts exactly the tile rows and the tile columns of the process, and allocates the
  -- memory of so many tiles.
  pub init-nb_elem :
      p.myrank < p.nodes
      → d.matrix.lmt + d.grid_rows * d.nrst < 2 ^ 32
      → d.matrix.lnt + d.grid_cols * d.ncst < 2 ^ 32
      → (d.nb_elem_r ≡ count_below (belongs d.row_rank d.grid_rows d.nrst) d.matrix.lmt)
        × (d.nb_elem_c ≡ count_below (belongs d.col_rank d.grid_cols d.ncst) d.matrix.lnt)
        × (allocate (bytes_of d.nb_elem_r d.nb_elem_c d.matrix.bsiz d.matrix.params.mtype)
            ≡ some d.mat)
  unfolding describe
  init-nb_elem mine fr fc =
      let v = init-IsTwoDim allocate p nrst ncst rows d h in
      let (a, b, c, e, f, g) = init-ready allocate p nrst ncst rows d h in
      let (mt, x, y, z, w, rr, cr, nr, nc, al) =
        allocate_tiles-ready allocate (describe p) nrst ncst rows (p.nodes / rows) _ _ d g in
      let hr : d.row_rank < d.grid_rows = rw v.row (
        (div-lt_iff_lt-mul {k = d.grid_cols} {x = p.myrank} {y = d.grid_rows} v.cols_pos).1
          (omega (arith, v.grid))) in
      let hc : d.col_rank < d.grid_cols = rw v.col (mod-lt p.myrank v.cols_pos) in
      let nr' : owned_rows d.row_rank d.grid_rows d.nrst d.matrix.lmt ≡ some d.nb_elem_r =
        rw (rr, z, x, mt) nr in
      let nc' : owned_rows d.col_rank d.grid_cols d.ncst d.matrix.lnt ≡ some d.nb_elem_c =
        rw (cr, w, y, mt) nc in
      (
        some-eq (
            sym nr'
            ∙ owned_rows-count_below d.row_rank d.grid_rows d.nrst d.matrix.lmt hr v.nrst_pos fr),
        some-eq (
            sym nc'
            ∙ owned_rows-count_below d.col_rank d.grid_cols d.ncst d.matrix.lnt hc v.ncst_pos fc),
        rw mt al,
      )
