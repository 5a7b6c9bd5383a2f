-- ===== src/Distribution/Ends.antt =====
-- Whether `two_dim_block_cyclic_init` ends.
use native.Mathlib.Nat.{mod-lt, div-lt_iff_lt-mul, div-add-mod'}
use dague_hsa.Prelude.{
  ℕ, ◌+◌, ◌*◌, ◌/◌, ◌%◌, ◌^◌, ◌<◌, ◌≡◌, ◌≢◌, refl, Bool, true, false, not, ◌&&◌, ◌||◌, Option, some,
  arith, if◌then◌else◌, ◌==◌, ltb, inl, inr, Bool-cases, Option-cases,
}
use dague_hsa.Distribution.{
  Params, TiledMatrix, describe, tile_count, Init, aborts, diverges, has_tiles,
}
use dague_hsa.Distribution.TwoDim.{TwoDim, init, init_grid, allocate_tiles, bytes_of, super_tiles}
use dague_hsa.Distribution.Owned.{owned_rows-count_below}

allocate_tiles-ends :
    (allocate : ℕ → Option ℕ) (t : TiledMatrix) (nrst ncst rows cols a b : ℕ)
    → allocate_tiles allocate t nrst ncst rows cols (some a) (some b) ≢ diverges
unfolding allocate_tiles
allocate_tiles-ends allocate t nrst ncst rows cols a b h =
    elim (Option-cases (allocate (bytes_of a b t.bsiz t.params.mtype))) [
      | inl e ↦ ground (arith, e)
      | inr (m, e) ↦ ground (arith, e)
    ]

init_grid-ends :
    (allocate : ℕ → Option ℕ) (t : TiledMatrix) (nrst ncst rows cols : ℕ)
    → 0 < nrst
    → 0 < ncst
    → 0 < cols
    → t.params.myrank / cols < rows
    → t.lmt + rows * nrst < 2 ^ 32
    → t.lnt + cols * ncst < 2 ^ 32
    → init_grid allocate t nrst ncst rows cols ≢ diverges
unfolding init_grid
init_grid-ends allocate t nrst ncst rows cols hr hc hp hm fr fc h =
    let r = owned_rows-count_below (t.params.myrank / cols) rows nrst t.lmt hm hr fr in
    let c =
      owned_rows-count_below (t.params.myrank % cols) cols ncst t.lnt (mod-lt t.params.myrank hp) hc
        fc in
    elim (Bool-cases (ltb (super_tiles t.lmt nrst) rows || ltb (super_tiles t.lnt ncst) cols)) [
      | inl e ↦ ground (arith, e)
      | inr e ↦ allocate_tiles-ends allocate t nrst ncst rows cols _ _ (rw (e, r, c) at h)
    ]

row_rank-lt :
    (nodes myrank rows : ℕ)
    → myrank < nodes
    → nodes % rows ≡ 0
    → 0 < nodes / rows
    → myrank / (nodes / rows) < rows
row_rank-lt nodes myrank rows h e p =
    (div-lt_iff_lt-mul {k = nodes / rows} {x = myrank} {y = rows} p).1
      (omega (arith, div-add-mod' nodes rows))

-- A guard that did not abort.
unless-diverges :
    (b : Bool) (x : Init TwoDim)
    → (if b then aborts else x) ≡ diverges
    → (b ≡ false) × (x ≡ diverges)
unless-diverges true x h = absurd (cc)
unless-diverges false x h = (refl, h)

when-diverges :
    (b : Bool) (x : Init TwoDim)
    → (if b then x else aborts) ≡ diverges
    → (b ≡ true) × (x ≡ diverges)
when-diverges true x h = (refl, h)
when-diverges false x h = absurd (cc)

-- For a rank below `nodes`, and numbers of tiles that fit in an `unsigned int` with a round of blocks
-- over the grid, the initialisation ends, whatever memory there is.
pub init-ends :
    (allocate : ℕ → Option ℕ) (p : Params) (nrst ncst rows : ℕ)
    → p.myrank < p.nodes
    → tile_count p.lm p.mb + rows * nrst < 2 ^ 32
    → tile_count p.ln p.nb + p.nodes / rows * ncst < 2 ^ 32
    → init allocate p nrst ncst rows ≢ diverges
unfolding init describe
init-ends allocate p nrst ncst rows mine fr fc h =
    let (a, h1) = when-diverges (has_tiles p && (not (rows == 0) && (p.nodes % rows == 0))) _ h in
    let (b, h2) = unless-diverges (p.nodes / rows == 0) _ h1 in
    let (c, h3) = unless-diverges (nrst == 0) _ h2 in
    let (d, h4) = unless-diverges (ncst == 0) _ h3 in
    let e : p.nodes % rows ≡ 0 = ground (arith, a) in
    let f : 0 < p.nodes / rows = ground (arith, b) in
    let g : 0 < nrst = ground (arith, c) in
    let k : 0 < ncst = ground (arith, d) in
    init_grid-ends allocate (describe p) nrst ncst rows (p.nodes / rows) g k f
      (row_rank-lt p.nodes p.myrank rows mine e f) fr fc h4
