-- ===== src/Arena/Tests.antt =====
-- The theorems on src/arena.c at a concrete arena.

use dague_hsa.Prelude.{ℕ, ◌+◌, ◌%◌, ◌≤◌, ◌≡◌, refl, some, List, [], ◌∷◌, arith}
use dague_hsa.Outcome.{ok}
use dague_hsa.Arena.{Arena, Chunk, construct_ex, chunk_size, prepare}
use dague_hsa.Arena.Layout.{prepare-aligned}
use dague_hsa.Arena.Limits.{Pool, Call, gets, refs, unrefs, run, IsPool, Allocates}
use dague_hsa.Arena.Runs.{run-IsPool}
use dague_hsa.Arena.Construct.{construct_ex-IsPool}

-- chunks of 100 bytes at multiples of 16, of which two may be out and one is kept
abbrev arena : Arena
arena = record {
  lifo = [];
  alignment = 16;
  elem_size = 100;
  used = 0;
  max_used = 2;
  released = 0;
  max_released = 1;
}

-- Every block is at the low end of a heap that has no state.
abbrev malloc : ℕ → Unit {0} → ℕ × Unit {0}
malloc size heap = (4096, heap)

abbrev pool : Pool (Unit {0})
pool = record { arena = arena; out = []; heap = tt }

prepare-aligned_example :
    (c : Chunk) × (prepare 32 malloc arena 1000 ≡ ok c)
    × (c.item ≡ 1000)
    × (c.contents % 16 ≡ 0)
    × (1032 ≤ c.contents)
    × (c.contents + 100 ≤ 1000 + chunk_size 32 malloc arena)
unfolding chunk_size
prepare-aligned_example =
    prepare-aligned 32 malloc arena 1000 (omega arith) (omega arith) (omega arith)

construct_ex-arena : construct_ex 100 16 2 1 ≡ some arena
unfolding construct_ex
construct_ex-arena = refl

pool_fits : IsPool 32 malloc pool
pool_fits = construct_ex-IsPool 32 malloc 100 16 2 1 tt arena construct_ex-arena (omega arith)

malloc_fits : Allocates 32 malloc
malloc_fits size heap h = omega arith

-- three gets, of which the last one gives NULL, a reference to the first chunk and its release
abbrev calls : List Call
calls = gets ∷ gets ∷ gets ∷ refs 0 ∷ unrefs 0 ∷ []

run-IsPool_example :
    (s' : Pool (Unit {0})) × (run 32 malloc pool calls ≡ ok s') × IsPool 32 malloc s'
run-IsPool_example = run-IsPool 32 malloc calls pool malloc_fits pool_fits
