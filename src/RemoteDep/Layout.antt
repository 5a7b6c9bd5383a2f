-- ===== src/RemoteDep/Layout.antt =====
-- The memory of a `dague_remote_deps_t`: `remote_deps_allocation_init` of src/remote_dep.c and
-- `remote_deps_allocation` of include/remote_dep.h, where a pointer has 8 bytes. The offset of
-- `output` in the structure is a parameter.
use native.Mathlib.Nat.{mul-le-mul_left}
use dague_hsa.Prelude.{
  Bool, true, leb, ℕ, zero, suc, ◌+◌, ◌-◌, ◌*◌, ◌/◌, ◌^◌, ◌≤◌, ◌<◌, ◌≡◌, arith, List, [], ◌∷◌, ap,
  some, get_elem?,
}
use dague_hsa.Distribution.{w32}

-- an element of `output`: three pointers, a counter, and 4 bytes to align the next
abbrev pub output_size : ℕ
output_size = 32

-- The order of the values of `int` is that of their 32 bits with the highest one turned over.
abbrev pub signed : ℕ → ℕ
signed x = w32 (x + 2 ^ 31)

module _ (header max_dep_count max_nodes_number : ℕ) where
  -- `elem_size`; the sum of two 32-bit numbers wraps, and the product with 4 comes before the
  -- division by 32
  unfoldable pub elem_size : ℕ
  elem_size = w32 (
      header
      + output_size
      + max_dep_count * (4 + 8 + 8 + 8 + 4 * w32 (max_nodes_number + 31) / 32)
      + 4 * w32 (max_nodes_number + 31) / 32)

  unfoldable pub rank_bit_size : ℕ
  rank_bit_size = 4 * ((max_nodes_number + 31) / 32)

  -- the loop that gives each output its `rank_bits`, from an offset on: the offsets, and the offset
  -- behind the last of them
  unfoldable pub place_rank_bits : (ptr count : ℕ) → List ℕ × ℕ
  unfolding rank_bit_size
  place_rank_bits ptr zero = ([], ptr)
  place_rank_bits ptr (suc count) =
      let (places, end) = place_rank_bits (ptr + rank_bit_size) count in (ptr ∷ places, end)

  -- the offsets of the fields of rank bits, and of `remote_dep_fw_mask`
  unfoldable pub layout : List ℕ × ℕ
  unfolding place_rank_bits
  layout = place_rank_bits (header + max_dep_count * output_size) max_dep_count

  -- The assertion at the end of `remote_deps_allocation`: both sides are taken as values of `int`.
  unfoldable pub asserted : Bool
  asserted =
      let behind = elem_size + 2 ^ 64 - 4 * w32 (max_nodes_number + 31) / 32 in
      leb (signed layout.1) (signed behind)

  place_rank_bits-get :
      (ptr count i : ℕ)
      → i < count
      → get_elem? (place_rank_bits ptr count).0 i ≡ some (ptr + i * rank_bit_size)
  unfolding place_rank_bits
  place_rank_bits-get ptr zero i h = absurd (omega arith)
  place_rank_bits-get ptr (suc count) zero h = ap some (omega arith)
  place_rank_bits-get ptr (suc count) (suc i) h =
      let e : ptr + suc i * rank_bit_size ≡ ptr + rank_bit_size + i * rank_bit_size = grind arith in
      rw e (place_rank_bits-get (ptr + rank_bit_size) count i (omega arith))

  place_rank_bits-end :
      (ptr count : ℕ) → (place_rank_bits ptr count).1 ≡ ptr + count * rank_bit_size
  unfolding place_rank_bits
  place_rank_bits-end ptr zero = omega arith
  place_rank_bits-end ptr (suc count) =
      let e : ptr + suc count * rank_bit_size ≡ ptr + rank_bit_size + count * rank_bit_size =
        grind arith in
      rw e (place_rank_bits-end (ptr + rank_bit_size) count)

  -- the bytes that the structure, its outputs and its bit fields need at most
  abbrev pub enough : ℕ
  enough =
      header
      + output_size
      + max_dep_count * (28 + 4 * (max_nodes_number + 31) / 32)
      + 4 * (max_nodes_number + 31) / 32

  fits_arith :
      max_dep_count ≤ 8
      → max_nodes_number + 31 < 2 ^ 32
      → enough < 2 ^ 31
      → (header + max_dep_count * output_size + max_dep_count * rank_bit_size + rank_bit_size
          ≤ elem_size)
        × (header + max_dep_count * output_size + max_dep_count * rank_bit_size
            ≤ elem_size - 4 * (max_nodes_number + 31) / 32)
  unfolding elem_size rank_bit_size
  fits_arith few nodes small =
      let flat : w32 (max_nodes_number + 31) ≡ max_nodes_number + 31 = omega arith in
      rw flat (
        let q = (max_nodes_number + 31) / 32 in
        let r = 4 * (max_nodes_number + 31) / 32 in
        let le : 4 * q ≤ r = omega arith in
        let product : max_dep_count * (4 * q) ≤ max_dep_count * r =
          mul-le-mul_left max_dep_count le in
        let split : max_dep_count * (28 + r) ≡ 28 * max_dep_count + max_dep_count * r =
          grind arith in
        let whole : w32 enough ≡ enough = omega arith in (omega arith, omega arith))

  elem_size-enough : max_nodes_number + 31 < 2 ^ 32 → enough < 2 ^ 31 → elem_size ≡ enough
  unfolding elem_size
  elem_size-enough nodes small =
      let flat : w32 (max_nodes_number + 31) ≡ max_nodes_number + 31 = omega arith in
      rw flat (omega arith)

  layout-end : layout.1 ≡ header + max_dep_count * output_size + max_dep_count * rank_bit_size
  unfolding layout
  layout-end = place_rank_bits-end (header + max_dep_count * output_size) max_dep_count

  layout-get :
      (i : ℕ)
      → i < max_dep_count
      → get_elem? layout.0 i ≡ some (header + max_dep_count * output_size + i * rank_bit_size)
  unfolding layout
  layout-get i h = place_rank_bits-get (header + max_dep_count * output_size) max_dep_count i h

  signed-le :
      (end size r : ℕ)
      → size < 2 ^ 31
      → r ≤ size
      → end ≤ size - r
      → leb (signed end) (signed (size + 2 ^ 64 - r)) ≡ true
  signed-le end size r small fits le =
      let l : signed end ≤ signed (size + 2 ^ 64 - r) = omega arith in ground arith

  asserted-true :
      max_nodes_number + 31 < 2 ^ 32
      → enough < 2 ^ 31
      → layout.1 ≤ elem_size - 4 * (max_nodes_number + 31) / 32
      → asserted ≡ true
  unfolding asserted
  asserted-true nodes small le =
      let flat : w32 (max_nodes_number + 31) ≡ max_nodes_number + 31 = omega arith in
      let e = elem_size-enough nodes small in
      rw flat (
        signed-le layout.1 elem_size (4 * (max_nodes_number + 31) / 32) (omega arith) (omega arith)
          le)

  -- With 8 outputs at most, less than 2^32 - 31 processes, and a size below 2^31, the fields of rank
  -- bits stand one behind the other after the outputs, the mask stands behind them and ends within the
  -- allocated memory, and the assertion of `remote_deps_allocation` holds.
  pub layout-fits :
      (i : ℕ)
      → i < max_dep_count
      → max_dep_count ≤ 8
      → max_nodes_number + 31 < 2 ^ 32
      → enough < 2 ^ 31
      → (get_elem? layout.0 i ≡ some (header + max_dep_count * output_size + i * rank_bit_size))
        × (layout.1 ≡ header + max_dep_count * output_size + max_dep_count * rank_bit_size)
        × (layout.1 + rank_bit_size ≤ elem_size)
        × (asserted ≡ true)
  layout-fits i h few nodes small =
      let ends = layout-end in
      let (fits, room) = fits_arith few nodes small in
      (layout-get i h, ends, omega arith, asserted-true nodes small (omega arith))
