-- ===== src/Generator/Tiles.antt =====
-- The elements of a generated tile: `create_tile_lu_*` and `create_tile_cholesky_*` of
-- data_dist/matrix/matrix.c.
use native.Mathlib.Nat.{div-add-mod', mod-lt, mul-le-mul}
use dague_hsa.Prelude.{
  ℕ, zero, suc, ◌+◌, ◌-◌, ◌*◌, ◌/◌, ◌%◌, ◌^◌, ◌≤◌, ◌<◌, ◌≡◌, refl, sym, ap, ◌∙◌, arith, List,
  Option, some, length, get_elem?, get_elem?-append_left, get_elem?-append_right,
}
use dague_hsa.Distribution.{w32, w64, TiledMatrix}
use dague_hsa.Generator.{
  affine, rnd64_a, rnd64_c, rnd64_jump, column_values, tile_columns, random_tile,
}
use dague_hsa.Generator.Stream.{iterate, iterate-add, rnd64_step, rnd64_jump-iterate}

module _ {F : Type 0} (real : ℕ → F) (seed : ℕ) (d : TiledMatrix) where
  length-column_values : (count ran : ℕ) → length (column_values real seed d count ran) ≡ count
  unfolding column_values
  length-column_values zero ran = refl
  length-column_values (suc count) ran =
      ap suc (length-column_values count (affine rnd64_a rnd64_c ran))

  column_values-get :
      (count ran i : ℕ)
      → i < count
      → get_elem? (column_values real seed d count ran) i ≡ some (real (iterate rnd64_step i ran))
  unfolding column_values
  column_values-get zero ran i h = absurd (omega arith)
  column_values-get (suc count) ran zero h = refl
  column_values-get (suc count) ran (suc i) h =
      column_values-get count (affine rnd64_a rnd64_c ran) i (omega arith)

  column_start :
      (first_row x : ℕ)
      → first_row < 2 ^ 32
      → x < 2 ^ 32
      → d.params.m < 2 ^ 32
      → rnd64_jump seed (w64 (first_row + w32 x * d.params.m))
        ≡ iterate rnd64_step (first_row + x * d.params.m) seed
  column_start first_row x hr hx hm =
      let small : x * d.params.m ≤ (2 ^ 32 - 1) * (2 ^ 32 - 1) =
        mul-le-mul {n₂ = 2 ^ 32 - 1} {m₂ = 2 ^ 32 - 1} (omega arith) (omega arith) in
      let e : w32 x ≡ x = omega arith in
      let e' : w64 (first_row + x * d.params.m) ≡ first_row + x * d.params.m = omega arith in
      rw (e, e') (rnd64_jump-iterate seed (first_row + x * d.params.m) (omega arith))

  -- An element of a column is so many steps behind its first.
  tile_columns-get :
      (first_row first_col j count i k : ℕ)
      → i < d.params.nb
      → k < count
      → first_row < 2 ^ 32
      → first_col + j + count ≤ 2 ^ 32
      → d.params.m < 2 ^ 32
      → get_elem? (tile_columns real seed d first_row first_col j count) (i + k * d.params.nb)
        ≡ some (real (iterate rnd64_step (first_row + i + (first_col + j + k) * d.params.m) seed))
  unfolding tile_columns
  tile_columns-get first_row first_col j zero i k hi hk hr hc hm = absurd (omega arith)
  tile_columns-get first_row first_col j (suc count) i zero hi hk hr hc hm =
      let nb = d.params.nb in
      let ran = rnd64_jump seed (w64 (first_row + w32 (first_col + j) * d.params.m)) in
      let e : i + 0 * nb ≡ i = omega arith in
      let e' : first_row + i + (first_col + j + 0) * d.params.m
          ≡ first_row + (first_col + j) * d.params.m + i =
        grind arith in
      rw (e, e')
        (get_elem?-append_left (column_values real seed d nb ran) _ i
            (rw (length-column_values nb ran) hi)
          ∙ column_values-get nb ran i hi
          ∙ ap (λ (r : ℕ). some (real r))
              (ap (iterate rnd64_step i)
                  (column_start first_row (first_col + j) hr (omega arith) hm)
                ∙ sym (iterate-add rnd64_step (first_row + (first_col + j) * d.params.m) i seed)))
  tile_columns-get first_row first_col j (suc count) i (suc k) hi hk hr hc hm =
      let nb = d.params.nb in
      let ran = rnd64_jump seed (w64 (first_row + w32 (first_col + j) * d.params.m)) in
      let e : first_col + j + suc k ≡ first_col + (j + 1) + k = omega arith in
      rw e (
        get_elem?-append_right (column_values real seed d nb ran) _ (i + suc k * nb) (i + k * nb)
          (rw (length-column_values nb ran) (grind arith))
        ∙ tile_columns-get first_row first_col (j + 1) count i k hi (omega arith) hr (omega arith)
            hm)

  -- The element at a row and a column of the whole matrix, in a matrix of `nb` by `nb` tiles: it
  -- stands in the tile (x / nb, y / nb).
  abbrev pub element_of : ((row col : ℕ) → List F) → (x y : ℕ) → Option F
  element_of tile x y =
      let nb = d.params.nb in get_elem? (tile (x / nb) (y / nb)) (x % nb + y % nb * nb)

  -- The value of an element is that of one sequence of numbers that runs down the columns.
  abbrev pub random_element : (x y : ℕ) → F
  random_element x y = real (iterate rnd64_step (x + y * d.params.m) seed)

  -- Whatever the size of the tiles, the element in row x and column y of the matrix that the
  -- `create_tile_lu` functions fill is made from the number of the generator that comes x + y * m
  -- steps after the seed. The matrix and its last tiles have less than 2^32 rows and columns.
  pub random_tile-element :
      (x y : ℕ)
      → 0 < d.params.nb
      → x < 2 ^ 32
      → y + d.params.nb ≤ 2 ^ 32
      → d.params.m < 2 ^ 32
      → element_of (random_tile real seed d) x y ≡ some (random_element x y)
  unfolding random_tile
  random_tile-element x y p hx hy hm =
      let nb = d.params.nb in
      let ex : x / nb * nb + x % nb ≡ x = div-add-mod' x nb in
      let ey : y / nb * nb + y % nb ≡ y = div-add-mod' y nb in
      let ly : y % nb < nb = mod-lt y p in
      let cx : w32 (x / nb * nb) ≡ x / nb * nb = omega arith in
      let cy : w32 (y / nb * nb) ≡ y / nb * nb = omega arith in
      let z : y / nb * nb + 0 + y % nb ≡ y = omega arith in
      rw (cx, cy)
        (tile_columns-get (x / nb * nb) (y / nb * nb) 0 nb (x % nb) (y % nb) (mod-lt x p) ly
            (omega arith) (omega arith) hm
          ∙ rw (ex, z) refl)
