-- ===== src/Distribution/Tabular/Agree.antt =====
-- The tabular distribution over the table of `create_2dbc`, and the block-cyclic distribution.
use native.Mathlib.Nat.{
  add-zero, mod-eq_of_lt, div-add-mod', mod-lt, mul-add-div_right, div-eq_of_lt,
}
use dague_hsa.Prelude.{
  ℕ, zero, suc, ◌+◌, ◌*◌, ◌-◌, ◌/◌, ◌%◌, ◌^◌, ◌<◌, ◌≡◌, refl, sym, ap, ◌∙◌, Bool, true, false, not,
  Option, List, [], ◌∷◌, arith, if◌then◌else◌, ◌==◌, length, length-append, take, dec_lt,
}
use dague_hsa.Distribution.{w32, w64, sub32, Params, ready, describe, tile_count}
use dague_hsa.Distribution.TwoDim.{
  TwoDim, get_rank_for_tile as block_cyclic_rank, init as block_cyclic_init,
}
use dague_hsa.Distribution.Ranks.{init-IsTwoDim, init-fields}
use dague_hsa.Distribution.Tabular.{
  Tabular, get_rank_for_tile, init, Table2dbc, table_of, null_table, faults, column_ranks,
  all_columns, create_2dbc,
}
use dague_hsa.Distribution.Tabular.Laws.{
  length-column_ranks, table-block_cyclic_rank, ranks_of, init-tiles_table,
}

length-all_columns :
    (gcol grow size j count : ℕ) → length (all_columns gcol grow size j count) ≡ size * count
unfolding all_columns
length-all_columns gcol grow size j zero = omega arith
length-all_columns gcol grow size j (suc count) = omega (
  arith,
  length-append (column_ranks gcol grow j 0 size) (all_columns gcol grow size (j + 1) count),
  length-column_ranks gcol grow j 0 size,
  length-all_columns gcol grow size (j + 1) count,
)

take-length : {A : Type 0} (xs : List A) (n : ℕ) → length xs ≡ n → take n xs ≡ xs
take-length [] zero h = refl
take-length [] (suc n) h = refl
take-length (x ∷ xs) zero h = absurd (omega arith)
take-length (x ∷ xs) (suc n) h = ap (λ ys. x ∷ ys) (take-length xs n (omega arith))

-- The two ways of rounding up a number of tiles.
round_up : (l b : ℕ) → 0 < b → (l + b - 1) / b ≡ tile_count l b
unfolding tile_count
round_up l b h = elim (dec_lt 0 (l % b)) [
  | yes p ↦
      let e : l + b - 1 ≡ (l / b + 1) * b + (l % b - 1) = omega (arith, div-add-mod' l b) in
      let q : l % b == 0 ≡ false = ground (arith, p) in
      rw
        (
          q,
          e,
          mul-add-div_right h (l / b + 1) (l % b - 1),
          div-eq_of_lt {n = l % b - 1} {m = b} (omega (arith, mod-lt l h)),
        )
        (add-zero (l / b + 1))
  | no p ↦
      let e : l + b - 1 ≡ l / b * b + (b - 1) = omega (arith, div-add-mod' l b) in
      let q : l % b == 0 ≡ true = ground (arith, p) in
      rw (q, e, mul-add-div_right h (l / b) (b - 1), div-eq_of_lt {n = b - 1} {m = b} (omega arith))
        (add-zero (l / b))
]

table_of-eq : {s t : List ℕ} → table_of s ≡ table_of t → s ≡ t
table_of-eq h = cc

sub-one : (a : ℕ) → a < 2 ^ 32 → 0 < a → sub32 (w32 a) 1 ≡ a - 1
sub-one a h p = omega arith

-- A guard that did not return.
past-guard :
    (b : Bool) (x y : Table2dbc) (t : List ℕ)
    → ¬ (x ≡ table_of t)
    → (if b then x else y) ≡ table_of t
    → (b ≡ false) × (y ≡ table_of t)
past-guard true x y t n h = absurd (n h)
past-guard false x y t n h = (refl, h)

create_2dbc-table :
    (allocates : ℕ → Bool) (size block nbproc grow : ℕ) (table : List ℕ)
    → create_2dbc allocates size block nbproc grow ≡ table_of table
    → 0 < nbproc / grow
    → (0 < block)
      × (table
          ≡ all_columns
              (nbproc / grow)
              grow
              (sub32 (w32 (size + block)) 1 / block)
              0
              (sub32 (w32 (size + block)) 1 / block))
unfolding create_2dbc
create_2dbc-table allocates size block nbproc grow table h p =
    let nbtiles = sub32 (w32 (size + block)) 1 / block in
    let (a, h1) = past-guard (grow == 0) faults _ table (λ e. cc) h in
    let (b, h2) = past-guard (not (nbproc % grow == 0)) null_table _ table (λ e. cc) h1 in
    let (c, h3) = past-guard (block == 0) faults _ table (λ e. cc) h2 in
    let (d, h4) =
      past-guard (not (allocates (w64 (w32 (nbtiles * nbtiles) * 4)))) null_table _ table (λ e. cc)
        h3 in
    let (e, h5) =
      past-guard (not (nbtiles * nbtiles == w32 (nbtiles * nbtiles))) faults _ table (λ e. cc) h4 in
    let q : nbproc / grow == 0 ≡ false = ground (arith, p) in
    (ground (arith, c), sym (table_of-eq (rw q at h5)))

-- For a square matrix of square tiles, of which there are less than 2^31: where `create_2dbc` gives a
-- table, and a tabular distribution has been initialised with it, and a block-cyclic one of super-tiles
-- of one tile over the same grid, both give every tile the same rank.
pub tabular-block_cyclic_rank :
    (allocates : ℕ → Bool) {Heap : Type 0} (allocate : ℕ → Heap → Option ℕ × Heap)
    (allocate' : ℕ → Option ℕ) (heap : Heap) (p : Params) (grow : ℕ) (table : List ℕ) (d : Tabular)
    (b : TwoDim) (m n : ℕ)
    → p.ln ≡ p.lm
    → p.nb ≡ p.mb
    → p.lm + p.mb < 2 ^ 32
    → (describe p).lmt * (describe p).lmt < 2 ^ 31
    → create_2dbc allocates p.lm p.mb p.nodes grow ≡ table_of table
    → (init allocate p table heap).0 ≡ ready d
    → block_cyclic_init allocate' p 1 1 grow ≡ ready b
    → m < (describe p).lmt
    → n < (describe p).lmt
    → get_rank_for_tile d m n ≡ block_cyclic_rank b m n
unfolding describe
tabular-block_cyclic_rank allocates allocate allocate' heap p grow table d b m n sq st fit small hc
      hd hb hm hn =
    let v = init-IsTwoDim allocate' p 1 1 grow b hb in
    let (x, y, z, w) = init-fields allocate' p 1 1 grow b hb in
    let (dm, ranks, _, _) = init-tiles_table allocate p table heap d hd in
    let (pos, e) =
      create_2dbc-table allocates p.lm p.mb p.nodes grow table hc (omega (arith, w, v.cols_pos)) in
    let rounded : sub32 (w32 (p.lm + p.mb)) 1 / p.mb ≡ tile_count p.lm p.mb =
      ap (λ k. k / p.mb) (sub-one (p.lm + p.mb) fit (omega arith)) ∙ round_up p.lm p.mb pos in
    let len : length table ≡ tile_count p.lm p.mb * tile_count p.lm p.mb =
      rw (e, rounded)
        (length-all_columns (p.nodes / grow) grow (tile_count p.lm p.mb) 0
          (tile_count p.lm p.mb)) in
    let t = tile_count p.lm p.mb in
    let columns : tile_count p.ln p.nb ≡ t = rw (sq, st) in
    let whole : w32 (t * tile_count p.ln p.nb) ≡ t * t = rw columns (mod-eq_of_lt (omega arith)) in
    let all : ranks_of d.tiles_table ≡ all_columns b.grid_cols b.grid_rows t 0 t =
      ranks
      ∙ ap (λ k. take k table) whole
      ∙ take-length table (t * t) len
      ∙ rw (w, z) (e ∙ ap (λ k. all_columns (p.nodes / grow) grow k 0 k) rounded) in
    table-block_cyclic_rank d b t m n v.rows_pos v.cols_pos x y (ap (λ q. q.lmt) dm) all small hm hn
