-- ===== src/Arena/Layout.antt =====
-- The place of the data in a chunk of src/arena.c, against the prefix and the size of the chunk.
use native.Mathlib.Nat.{mod-lt, div-add-mod', mod-eq_of_lt, mul-mod_left}
use dague_hsa.Prelude.{ℕ, ◌+◌, ◌-◌, ◌%◌, ◌^◌, ◌<◌, ◌≤◌, ◌≡◌, refl, true, arith, leb}
use dague_hsa.Outcome.{ok}
use dague_hsa.Arena.{Arena, Chunk, align, chunk_size, prepare}

-- Rounding up goes up by less than the alignment.
align-bounds : (x a : ℕ) → 0 < a → x + a < 2 ^ 64 → (x ≤ align x a) × (align x a < x + a)
align-bounds x a p h =
    let e : (x + (a - 1)) % 2 ^ 64 ≡ x + (a - 1) = mod-eq_of_lt (omega arith) in
    let d = div-add-mod' (x + (a - 1)) a in
    let l = mod-lt (x + (a - 1)) p in rw e (omega (arith, d, l), omega (arith, d, l))

align-mod : (x a : ℕ) → align x a % a ≡ 0
align-mod x a = mul-mod_left _ _

module _ {Heap : Type 0} (prefix : ℕ) (allocate : ℕ → Heap → ℕ × Heap) where
  pub chunk_size-lt :
      (a : Arena)
      → 0 < a.alignment
      → a.elem_size + a.alignment + prefix + a.alignment < 2 ^ 64
      → chunk_size prefix allocate a < a.elem_size + a.alignment + prefix + a.alignment
  unfolding chunk_size
  chunk_size-lt a p h = (align-bounds (a.elem_size + a.alignment + prefix) a.alignment p h).1

  -- Where the size of a chunk and its end fit in 64 bits, the assertion of `dague_arena_get` holds: its
  -- data start at a multiple of the alignment, behind the prefix, and end within the chunk.
  pub prepare-aligned :
      (a : Arena) (item : ℕ)
      → 0 < a.alignment
      → a.elem_size + a.alignment + prefix + a.alignment < 2 ^ 64
      → item + chunk_size prefix allocate a < 2 ^ 64
      → (c : Chunk) × (prepare prefix allocate a item ≡ ok c)
        × (c.item ≡ item)
        × (c.contents % a.alignment ≡ 0)
        × (item + prefix ≤ c.contents)
        × (c.contents + a.elem_size ≤ item + chunk_size prefix allocate a)
  unfolding prepare chunk_size
  prepare-aligned a item p h fits =
      let k = a.alignment in
      let whole = align-bounds (a.elem_size + k + prefix) k p h in
      let data_at = align-bounds (item + prefix) k p (omega (arith, whole, fits)) in
      let inside : align (item + prefix) k + a.elem_size
          ≤ item + align (a.elem_size + k + prefix) k =
        omega (arith, data_at, whole) in
      let t : leb (align (item + prefix) k + a.elem_size)
            (item + align (a.elem_size + k + prefix) k)
          ≡ true =
        ground (arith, inside) in
      (
        record { item = item; refcount = 0; contents = align (item + prefix) k },
        rw t,
        refl,
        align-mod (item + prefix) k,
        data_at.0,
        inside,
      )
