-- ===== src/Distribution.antt =====
-- data_dist/matrix: where the tiles of a distributed matrix are. This file is about the description
-- that its distributions share, `tiled_matrix_desc_t` of data_dist/matrix/matrix.h, and the unsigned
-- 32-bit arithmetic that they compute with.
pub mod Arith
pub mod TwoDim
pub mod SymTwoDim
pub mod Tabular
pub mod Ranks
pub mod Ends
pub mod Owned
mod Tests
use dague_hsa.Prelude.{ℕ, ◌+◌, ◌*◌, ◌-◌, ◌/◌, ◌%◌, ◌^◌, ◌==◌, if◌then◌else◌, Bool, not, ◌&&◌}

-- a value of `unsigned int`
abbrev pub w32 : ℕ → ℕ
w32 n = n % 2 ^ 32

-- its subtraction, of values below 2^32
abbrev pub sub32 : ℕ → ℕ → ℕ
sub32 a b = (a + 2 ^ 32 - b) % 2 ^ 32

-- a value of `size_t`
abbrev pub w64 : ℕ → ℕ
w64 n = n % 2 ^ 64

-- the arguments that every distribution is initialised with
pub record Params : Type 0 where
  pub nodes : ℕ
  pub cores : ℕ
  pub myrank : ℕ
  pub mtype : ℕ
  pub mb : ℕ
  pub nb : ℕ
  pub ib : ℕ
  pub lm : ℕ
  pub ln : ℕ
  pub i : ℕ
  pub j : ℕ
  pub m : ℕ
  pub n : ℕ

-- `tiled_matrix_desc_t`: these, and what is derived from them
pub record TiledMatrix : Type 0 where
  pub params : Params
  pub lmt : ℕ
  pub lnt : ℕ
  pub bsiz : ℕ
  pub mt : ℕ
  pub nt : ℕ

-- how many tiles of a size cover a length
unfoldable pub tile_count : ℕ → ℕ → ℕ
tile_count l b = if l % b == 0 then l / b else l / b + 1

-- The `% mb` and `% nb` of an initialisation do not divide by 0.
abbrev pub has_tiles : Params → Bool
has_tiles p = not (p.mb == 0) && not (p.nb == 0)

unfoldable pub describe : Params → TiledMatrix
unfolding tile_count
describe p = record {
  params = p;
  lmt = tile_count p.lm p.mb;
  lnt = tile_count p.ln p.nb;
  bsiz = w32 (p.mb * p.nb);
  mt = tile_count p.m p.mb;
  nt = tile_count p.n p.nb;
}

-- How an initialisation ends: with a description, by `exit`, by a failed assertion or a division by
-- 0, or not at all.
pub data Init {ℓ} (A : Type ℓ) : Type ℓ where
  ready : A → Init A
  exits : Init A
  aborts : Init A
  diverges : Init A
