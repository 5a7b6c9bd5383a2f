-- ===== src/Arena.antt =====
-- src/arena.c and include/arena.h: a pool of memory chunks for the tiles. Each call is one step. The
-- limits are taken not to be negative; `no_limit` is INT32_MAX. The datatype for the network, and the
-- choice of an allocator of the arena's own, are left out.
pub mod Layout
pub mod Limits
pub mod Runs
pub mod Construct
mod Tests
use Prim.Native.Nat.{bit_and}
use dague_hsa.Prelude.{
  ℕ, zero, suc, ◌+◌, ◌*◌, ◌-◌, ◌/◌, ◌%◌, ◌^◌, Bool, true, false, not, ◌&&◌, ◌||◌, Option, none,
  some, List, [], ◌∷◌, ◌==◌, ltb, leb, if◌then◌else◌, length, get_elem?, set,
}
use dague_hsa.Outcome.{Outcome, ok, fail, fault, ◌>>=◌}

-- `dague_arena_t`, with the addresses of the chunks in its lifo
pub record Arena : Type 0 where
  pub lifo : List ℕ
  pub alignment : ℕ
  pub elem_size : ℕ
  pub used : ℕ
  pub max_used : ℕ
  pub released : ℕ
  pub max_released : ℕ

abbrev pub no_limit : ℕ
no_limit = 2147483647

-- `dague_arena_chunk_t` at an address
pub record Chunk : Type 0 where
  pub item : ℕ
  pub refcount : ℕ
  pub contents : ℕ

-- `DAGUE_ALIGN`, in `size_t`: up to a multiple of a, which is a power of two in every arena that
-- `construct_ex` makes, so that the mask of the code takes off what the division drops
abbrev pub align : ℕ → ℕ → ℕ
align x a = (x + (a - 1)) % 2 ^ 64 / a * a

-- `dague_arena_construct_ex`; it returns -1 for an alignment that is not a power of two above 1.
unfoldable pub construct_ex : (elem_size alignment max_used max_released : ℕ) → Option Arena
construct_ex elem_size alignment max_used max_released =
    if leb alignment 1 || not (bit_and alignment (alignment - 1) == 0)
    then none
    else some (record {
      lifo = [];
      alignment = alignment;
      elem_size = elem_size;
      used = 0;
      max_used = max_used;
      released = 0;
      max_released = max_released;
    })

-- `dague_arena_construct`
unfoldable pub construct : (elem_size alignment : ℕ) → Option Arena
unfolding construct_ex
construct elem_size alignment = construct_ex elem_size alignment no_limit no_limit

-- `prefix` is the size of `union _internal_chunk_prefix_t`; `allocate` is `malloc`, on a heap.
module _ {Heap : Type 0} (prefix : ℕ) (allocate : ℕ → Heap → ℕ × Heap) where
  unfoldable pub chunk_size : Arena → ℕ
  chunk_size a = align (a.elem_size + a.alignment + prefix) a.alignment

  -- the chunk at an address, where the assertion on its end holds
  unfoldable pub prepare : Arena → ℕ → Outcome Chunk
  unfolding chunk_size
  prepare a item =
      let contents = align (item + prefix) a.alignment in
      if leb (contents + a.elem_size) (item + chunk_size a)
      then ok (record { item = item; refcount = 0; contents = contents })
      else fault

  -- the chunk from these chunks of the lifo, or a new one, which must not be NULL
  unfoldable pub take_from : Arena → List ℕ → Heap → Outcome (Chunk × Arena × Heap)
  take_from a (item ∷ items) heap =
      if a.max_released == no_limit
      then (prepare a item >>= λ c. ok (c, record a { lifo = items }, heap))
      else if a.released == 0
      then fault
      else prepare a item >>= λ c.
          ok (c, record a { lifo = items; released = a.released - 1 }, heap)
  take_from a [] heap =
      let (item, heap') = allocate (chunk_size a) heap in
      if item == 0 then fault else prepare a item >>= λ c. ok (c, record a { lifo = [] }, heap')

  unfoldable pub take_chunk : Arena → Heap → Outcome (Chunk × Arena × Heap)
  take_chunk a heap = take_from a a.lifo heap

  -- `dague_arena_get`: NULL where as many chunks are out as may be. The pointer that it returns carries
  -- a mark in its lowest bit, which the other calls take off.
  unfoldable pub get : Arena → Heap → Outcome (Option Chunk × Arena × Heap)
  get a heap =
      if a.max_used == no_limit
      then (take_chunk a heap >>= λ r. ok (some r.0, r.1, r.2))
      else if ltb a.max_used (a.used + 1)
      then ok (none, a, heap)
      else take_chunk (record a { used = a.used + 1 }) heap >>= λ r. ok (some r.0, r.1, r.2)

-- the chunk in the lifo, unless enough are there: then it is freed
unfoldable pub put_back : Arena → ℕ → Arena
put_back a item =
    if leb a.max_released a.released
    then a
    else if a.max_released == no_limit
    then record a { lifo = item ∷ a.lifo }
    else record a { lifo = item ∷ a.lifo; released = a.released + 1 }

-- `dague_arena_release`
unfoldable pub release : Arena → Chunk → Outcome Arena
unfolding put_back
release a c =
    if ltb 1 c.refcount
    then fault
    else if a.max_used == no_limit
    then ok (put_back a c.item)
    else if a.used == 0
    then fault
    else ok (record (put_back a c.item) { used = a.used - 1 })

-- `dague_arena_ref`
unfoldable pub ref : Chunk → Chunk
ref c = record c { refcount = (c.refcount + 1) % 2 ^ 32 }

-- `dague_arena_unref`: the chunk, unless it has been released, and the arena
unfoldable pub unref : Arena → Chunk → Outcome (Option Chunk × Arena)
unfolding release
unref a c =
    let count = (c.refcount + (2 ^ 32 - 1)) % 2 ^ 32 in
    let c' : Chunk = record c { refcount = count } in
    if count == 0 then (release a c' >>= λ a'. ok (none, a')) else ok (some c', a)
