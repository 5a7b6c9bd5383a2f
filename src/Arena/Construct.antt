-- ===== src/Arena/Construct.antt =====
-- What `dague_arena_construct_ex` of src/arena.c gives.
use Prim.Native.Nat.{bit_and}
use dague_hsa.Prelude.{
  ℕ, ◌+◌, ◌-◌, ◌<◌, ◌≡◌, ◌^◌, refl, not, ◌||◌, some, [], arith, ◌==◌, leb, inl, inr, Bool-cases,
}
use dague_hsa.Arena.{Arena, construct_ex}
use dague_hsa.Arena.Limits.{IsPool}
use dague_hsa.Arena.Runs.{some-eq}

-- An arena that has been constructed, and whose chunks are smaller than 2^63 bytes, is within its
-- limits, with no chunk out.
pub construct_ex-IsPool :
    {Heap : Type 0} (prefix : ℕ) (allocate : ℕ → Heap → ℕ × Heap)
    (elem_size alignment max_used max_released : ℕ) (heap : Heap) (a : Arena)
    → construct_ex elem_size alignment max_used max_released ≡ some a
    → elem_size + alignment + prefix + alignment < 2 ^ 63
    → IsPool prefix allocate (record { arena = a; out = []; heap = heap })
unfolding construct_ex
construct_ex-IsPool prefix allocate elem_size alignment max_used max_released heap a h small =
    elim (Bool-cases (leb alignment 1 || not (bit_and alignment (alignment - 1) == 0))) [
      | inl e ↦ absurd (ground (arith, e))
      | inr e ↦
          let q = some-eq (rw (construct_ex, e) at h) in
          let positive : 0 < alignment = ground (arith, e) in
          rw (← q) (record {
            aligned = positive;
            sizes = small;
            counted = λ n. refl;
            within = λ n. omega arith;
            kept = λ n. refl;
            few = λ n. omega arith;
            free = tt;
            taken = tt;
          })
    ]
