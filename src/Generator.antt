-- ===== src/Generator.antt =====
-- data_dist/matrix/matrix.c: the generation of matrices. This file has the generator of random
-- numbers, and the functions that fill a tile. The real numbers are a parameter: two types of
-- floating-point numbers, what `0.5 - ran * RndD_Mul` makes of a number of the generator, and what
-- `+= mn_max` makes of an element.
pub mod Stream
pub mod Tiles
pub mod Diagonal
pub mod Threads
mod Tests
use dague_hsa.Prelude.{
  ℕ, zero, suc, ◌+◌, ◌*◌, ◌/◌, ◌%◌, List, [], ◌∷◌, ◌++◌, if◌then◌else◌, ◌==◌, ltb, replicate,
}
use dague_hsa.Distribution.{w32, w64, TiledMatrix}

-- `Rnd64_A` and `Rnd64_C`
abbrev pub rnd64_a : ℕ
rnd64_a = 6364136223846793005

abbrev pub rnd64_c : ℕ
rnd64_c = 1

-- `a * ran + c` in unsigned 64-bit arithmetic
unfoldable pub affine : (a c ran : ℕ) → ℕ
affine a c ran = w64 (w64 (a * ran) + c)

-- the loop of `Rnd64_jump`, whose fuel is the number of binary digits of n
unfoldable pub jump_from : (fuel n a_k c_k ran : ℕ) → ℕ
jump_from zero n a_k c_k ran = ran
jump_from (suc fuel) n a_k c_k ran =
    let ran' = if n % 2 == 1 then affine a_k c_k ran else ran in
    let rest = jump_from fuel (n / 2) (w64 (a_k * a_k)) (w64 (c_k * w64 (a_k + 1))) ran' in
    if n == 0 then ran else rest

-- `Rnd64_jump` of a 64-bit number
unfoldable pub rnd64_jump : (seed n : ℕ) → ℕ
unfolding jump_from affine
rnd64_jump seed n = jump_from 64 n rnd64_a rnd64_c seed

-- an element changed where it stands
abbrev pub modify : {F : Type 0} → (F → F) → List F → ℕ → List F
modify f [] i = []
modify f (x ∷ xs) zero = f x ∷ xs
modify f (x ∷ xs) (suc i) = x ∷ modify f xs i

-- the loop of the Cholesky generators over the diagonal, from i on, over so many elements
unfoldable pub bump_diagonal : {F : Type 0} → (nb : ℕ) → (F → F) → (i count : ℕ) → List F → List F
bump_diagonal nb bump i zero tile = tile
bump_diagonal nb bump i (suc count) tile =
    bump_diagonal nb bump (i + 1) count (modify bump tile (w32 (i + w32 (i * nb))))

module _ {F : Type 0} (real : ℕ → F) (seed : ℕ) (d : TiledMatrix) where
  -- the inner loop: so many elements of a column, from a number of the generator on
  unfoldable pub column_values : (count ran : ℕ) → List F
  column_values zero ran = []
  column_values (suc count) ran = real ran ∷ column_values count (affine rnd64_a rnd64_c ran)

  -- the outer loop, from column j of the tile on, over so many columns
  unfoldable pub tile_columns : (first_row first_col j count : ℕ) → List F
  unfolding column_values
  tile_columns first_row first_col j zero = []
  tile_columns first_row first_col j (suc count) =
      let ran = rnd64_jump seed (w64 (first_row + w32 (first_col + j) * d.params.m)) in
      column_values d.params.nb ran ++ tile_columns first_row first_col (j + 1) count

  -- the body of `create_tile_lu_float` and `create_tile_lu_double`
  unfoldable pub random_tile : (row col : ℕ) → List F
  unfolding tile_columns
  random_tile row col = let nb = d.params.nb in tile_columns (w32 (row * nb)) (w32 (col * nb)) 0 nb

  -- the body of `create_tile_cholesky_float` and `create_tile_cholesky_double`; `add x k` is x + k
  unfoldable pub bumped_tile : (F → ℕ → F) → (row col : ℕ) → List F
  unfolding random_tile bump_diagonal
  bumped_tile add row col =
      let mn_max = if ltb d.params.m d.params.n then d.params.n else d.params.m in
      let nb = d.params.nb in
      let tile = random_tile row col in
      if row == col then bump_diagonal nb (λ x. add x mn_max) 0 nb tile else tile

-- The floating-point arithmetic of C.
pub record Reals : Type 1 where
  pub Float : Type 0
  pub Double : Type 0
  pub float_of : ℕ → Float
  pub double_of : ℕ → Double
  pub add_float : Float → ℕ → Float
  pub add_double : Double → ℕ → Double

-- What is written to the memory of a tile.
pub data Contents (Float Double : Type 0) : Type 0 where
  floats : List Float → Contents Float Double
  doubles : List Double → Contents Float Double
  zeros : ℕ → Contents Float Double

-- the functions that fill a tile
pub data GenFct : Type 0 where
  create_tile_cholesky_float create_tile_cholesky_double : GenFct
  create_tile_lu_float create_tile_lu_double create_tile_zero : GenFct

module _ (r : Reals) (seed : ℕ) (d : TiledMatrix) (row col : ℕ) where
  open r use {Float, Double, float_of, double_of, add_float, add_double}

  -- the call of one of them; `create_tile_zero` clears so many bytes
  unfoldable pub gen_fct : GenFct → Contents Float Double
  unfolding bumped_tile random_tile
  gen_fct create_tile_cholesky_float = floats (bumped_tile float_of seed d add_float row col)
  gen_fct create_tile_cholesky_double = doubles (bumped_tile double_of seed d add_double row col)
  gen_fct create_tile_lu_float = floats (random_tile float_of seed d row col)
  gen_fct create_tile_lu_double = doubles (random_tile double_of seed d row col)
  gen_fct create_tile_zero = zeros (w32 (d.bsiz * d.params.mtype))
