-- ===== src/Generator/Diagonal.antt =====
-- The diagonal of the tiles that the `create_tile_cholesky` functions of
-- data_dist/matrix/matrix.c fill.
use native.Mathlib.Nat.{
  mod-eq_of_lt, add-mul-mod_self_right, mul-le-mul, le_of_mul-le-mul_right, mod-lt, div-add-mod',
}
use mathlib.Core.Option
use dague_hsa.Prelude.{
  ℕ, zero, suc, ◌+◌, ◌*◌, ◌/◌, ◌%◌, ◌^◌, ◌≤◌, ◌<◌, ◌≡◌, sym, ap, ◌∙◌, arith, List, [], ◌∷◌, some,
  false, if◌then◌else◌, ◌==◌, ltb, leb, ◌&&◌, get_elem?, inl, inr, Bool-cases, ==_iff,
}
use dague_hsa.Distribution.{w32, TiledMatrix}
use dague_hsa.Generator.{modify, bump_diagonal, bumped_tile}
use dague_hsa.Generator.Tiles.{element_of, random_element, random_tile-element}

get_elem?-modify :
    {F : Type 0} (f : F → F) (xs : List F) (i k : ℕ)
    → get_elem? (modify f xs i) k
      ≡ (if i == k then Option.map f (get_elem? xs k) else get_elem? xs k)
get_elem?-modify f [] i k = ground arith
get_elem?-modify f (x ∷ xs) zero zero = ground arith
get_elem?-modify f (x ∷ xs) zero (suc k) = ground arith
get_elem?-modify f (x ∷ xs) (suc i) zero = ground arith
get_elem?-modify f (x ∷ xs) (suc i) (suc k) = get_elem?-modify f xs i k ∙ ground arith

-- The two digits of an index.
digits_unique : (n a b i j : ℕ) → a < n → i < n → i + j * n ≡ a + b * n → (i ≡ a) × (j ≡ b)
digits_unique n a b i j ha hi h =
    let e : i ≡ a =
      sym (mod-eq_of_lt hi)
      ∙ sym (add-mul-mod_self_right i j n)
      ∙ ap (λ (t : ℕ). t % n) h
      ∙ add-mul-mod_self_right a b n
      ∙ mod-eq_of_lt ha in
    let h' : j * n ≡ b * n = omega arith in
    let p : zero < n = omega arith in
    let q : j ≤ b = le_of_mul-le-mul_right {k = n} (omega arith) p in
    let q' : b ≤ j = le_of_mul-le-mul_right {k = n} (omega arith) p in (e, omega arith)

module _ {F : Type 0} (nb : ℕ) (bump : F → F) (small : nb * nb ≤ 2 ^ 32) where
  index_fits : (i : ℕ) → i < nb → w32 (i + w32 (i * nb)) ≡ i + i * nb
  index_fits i h =
      let m : (i + 1) * nb ≤ nb * nb =
        mul-le-mul {n₁ = i + 1} {m₁ = nb} (omega arith) (omega arith) in
      let m' : (i + 1) * nb ≡ i * nb + nb = grind arith in omega arith

  bump_diagonal-get :
      (i count : ℕ) (tile : List F) (a b : ℕ)
      → a < nb
      → b < nb
      → i + count ≤ nb
      → get_elem? (bump_diagonal nb bump i count tile) (a + b * nb) ≡ (
          if a == b && (leb i a && ltb a (i + count))
          then Option.map bump (get_elem? tile (a + b * nb))
          else get_elem? tile (a + b * nb))
  unfolding bump_diagonal
  bump_diagonal-get i zero tile a b ha hb hi = ground arith
  bump_diagonal-get i (suc count) tile a b ha hb hi = rw (index_fits i (omega arith)) (
      bump_diagonal-get (i + 1) count (modify bump tile (i + i * nb)) a b ha hb (omega arith)
      ∙ elim (Bool-cases (i + i * nb == a + b * nb)) [
        | inl here ↦
            let (e, e') = digits_unique nb a b i i ha (omega arith) ((==_iff _ _).0 here) in
            ground (arith, get_elem?-modify bump tile (i + i * nb) (a + b * nb))
        | inr there ↦ ground (arith, get_elem?-modify bump tile (i + i * nb) (a + b * nb))
      ])

module _ {F : Type 0} (real : ℕ → F) (seed : ℕ) (d : TiledMatrix) (add : F → ℕ → F) where
  abbrev pub mn_max : ℕ
  mn_max = if ltb d.params.m d.params.n then d.params.n else d.params.m

  same_element : (x y nb : ℕ) → (x / nb ≡ y / nb) → (x % nb ≡ y % nb) → x ≡ y
  same_element x y nb p q = sym (div-add-mod' x nb) ∙ rw (p, q) (div-add-mod' y nb)

  differ : (x y u v : ℕ) → ((x ≡ y) → u ≡ v) → (u == v) ≡ false → (x == y) ≡ false
  differ x y u v same h = elim (Bool-cases (x == y)) [
    | inl e ↦ absurd (let q = same ((==_iff x y).0 e) in ground arith)
    | inr e ↦ e
  ]

  -- Where a tile has nb rows and columns, 0 < nb and nb * nb <= 2^32, the matrix has less than 2^32
  -- rows, and the element stands in a row below 2^32 and a column of at most 2^32 - nb: the
  -- `create_tile_cholesky` functions fill it as the `create_tile_lu` functions do, and add max(m, n) to
  -- it if it is on the diagonal of the matrix, and nothing else.
  pub bumped_tile-element :
      (x y : ℕ)
      → 0 < d.params.nb
      → d.params.nb * d.params.nb ≤ 2 ^ 32
      → x < 2 ^ 32
      → y + d.params.nb ≤ 2 ^ 32
      → d.params.m < 2 ^ 32
      → element_of real seed d (bumped_tile real seed d add) x y
        ≡ some (
            if x == y
            then add (random_element real seed d x y) mn_max
            else random_element real seed d x y)
  unfolding bumped_tile
  bumped_tile-element x y p hn hx hy hm =
      let nb = d.params.nb in
      let old = random_tile-element real seed d x y p hx hy hm in
      let low = mod-lt x p in
      elim (Bool-cases (x / nb == y / nb)) [
        | inl same ↦ rw same (
            bump_diagonal-get nb (λ v. add v mn_max) hn 0 nb _ (x % nb) (y % nb) low (mod-lt y p)
              (omega arith)
            ∙ rw old (elim (Bool-cases (x % nb == y % nb)) [
              | inl hit ↦
                  let e = same_element x y nb ((==_iff _ _).0 same) ((==_iff _ _).0 hit) in
                  ground arith
              | inr miss ↦
                  let e : ((x == y) ≡ false) =
                    differ x y (x % nb) (y % nb) (ap (λ (t : ℕ). t % nb)) miss in
                  ground arith
            ]))
        | inr other ↦
            let e : ((x == y) ≡ false) =
              differ x y (x / nb) (y / nb) (ap (λ (t : ℕ). t / nb)) other in
            rw (other, e) old
      ]
