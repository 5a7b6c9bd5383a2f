-- ===== src/Distribution/SymTwoDim/Rows.antt =====
-- The rows and the tiles of a process in the symmetric distribution, counted one by one, and as
-- data_dist/matrix/sym_two_dim_rectangle_cyclic/sym_two_dim_rectangle_cyclic.c computes them.
use native.Mathlib.Nat.{
  add-zero, le-div_iff_mul-le, div-mul-le_self, add-suc, mod-lt, div-add-mod', div-eq_of_lt,
  mul-add-div_right,
}
use dague_hsa.Prelude.{
  ℕ, zero, suc, ◌+◌, ◌-◌, ◌*◌, ◌/◌, ◌%◌, ◌<◌, ◌≤◌, ◌≡◌, ◌≢◌, sym, ap, ◌∙◌, Bool, arith,
  if◌then◌else◌, ◌==◌, ltb, dec_lt,
}
use dague_hsa.Distribution.Arith.{count_below, mod-add_mul}
use dague_hsa.Distribution.SymTwoDim.{SymTwoDim, rows_among}

-- The row is one of a rank.
abbrev pub is_row : ℕ → ℕ → ℕ → Bool
is_row g rank r = r % g == rank

module _ (g rank : ℕ) (hr : rank < g) where
  is_row-in : (q i : ℕ) → i < g → is_row g rank (q * g + i) ≡ (i == rank)
  is_row-in q i h = let e : q * g + i ≡ i + q * g = omega arith in rw (e, mod-add_mul i q g h)

  count_rows-in :
      (q r : ℕ)
      → r ≤ g
      → count_below (is_row g rank) (q * g + r)
        ≡ count_below (is_row g rank) (q * g) + (if ltb rank r then 1 else 0)
  count_rows-in q zero h = rw (add-zero (q * g)) (ground arith)
  count_rows-in q (suc r) h =
      let rest = count_rows-in q r (omega arith) in
      let own = is_row-in q r (omega arith) in rw (add-suc (q * g) r, own) (ground (arith, rest))

  count_rows-blocks : (q : ℕ) → count_below (is_row g rank) (q * g) ≡ q
  count_rows-blocks zero = let e : 0 * g ≡ 0 = omega arith in rw e
  count_rows-blocks (suc q) =
      let e : suc q * g ≡ q * g + g = omega arith in
      rw e (ground (arith, count_rows-in q g (omega arith), count_rows-blocks q))

-- the rows of a process below a limit
abbrev pub rows_below : SymTwoDim → ℕ → ℕ
rows_below d = count_below (is_row d.grid_rows d.row_rank)

pub rows_among-count_below :
    (d : SymTwoDim) (k : ℕ) → d.row_rank < d.grid_rows → rows_among d k ≡ rows_below d k
unfolding rows_among
rows_among-count_below d k h =
    let e = div-add-mod' k d.grid_rows in
    let l = mod-lt k {m = d.grid_rows} (omega arith) in
    let c =
      count_rows-in d.grid_rows d.row_rank h (k / d.grid_rows) (k % d.grid_rows) (omega arith) in
    let b = count_rows-blocks d.grid_rows d.row_rank h (k / d.grid_rows) in
    let f : rows_below d k ≡ k / d.grid_rows + (if ltb d.row_rank (k % d.grid_rows) then 1 else 0) =
      ap (rows_below d) (sym e)
      ∙ c
      ∙ ap (λ x. x + (if ltb d.row_rank (k % d.grid_rows) then 1 else 0)) b in
    ground (arith, f)

div-le_of_le : (n m g : ℕ) → 0 < g → n ≤ m → n / g ≤ m / g
div-le_of_le n m g p h =
    (le-div_iff_mul-le {k = g} {x = n / g} {y = m} p).1 (omega (arith, div-mul-le_self n g))

difference-div :
    (q k g r rank m n : ℕ)
    → m ≡ (q + k) * g + rank
    → n ≡ q * g + r
    → r ≤ rank
    → rank < g
    → (m - n) / g ≡ k
difference-div q k g r rank m n em en l h =
    let e : m - n ≡ k * g + (rank - r) = omega arith in
    rw
      (
        e,
        mul-add-div_right {m = g} (omega arith) k (rank - r),
        div-eq_of_lt {n = rank - r} {m = g} (omega arith),
      )
      (add-zero k)

difference-div_borrow :
    (q k g r rank m n : ℕ)
    → m ≡ (q + suc k) * g + rank
    → n ≡ q * g + r
    → rank < r
    → r < g
    → (m - n) / g ≡ k
difference-div_borrow q k g r rank m n em en l h =
    let e : m - n ≡ k * g + (g + rank - r) = omega arith in
    rw
      (
        e,
        mul-add-div_right {m = g} (omega arith) k (g + rank - r),
        div-eq_of_lt {n = g + rank - r} {m = g} (omega arith),
      )
      (add-zero k)

less : (a b : ℕ) → a ≤ b → a ≢ b → a < b
less a b h n = elim (dec_lt a b) [ yes l ↦ l | no l ↦ absurd (n (omega arith)) ]

-- Down a column from row n to one of its rows m there are (m - n) / rows further ones.
pub rows_between :
    (d : SymTwoDim) (m n : ℕ)
    → d.row_rank < d.grid_rows
    → n ≤ m
    → m % d.grid_rows ≡ d.row_rank
    → rows_below d n + (m - n) / d.grid_rows ≡ rows_below d m
unfolding rows_among
rows_between d m n h l o =
    let g = d.grid_rows in
    let em : m ≡ m / g * g + d.row_rank = omega (arith, div-add-mod' m g, o) in
    let en : n ≡ n / g * g + n % g = omega (arith, div-add-mod' n g) in
    let ln = mod-lt n {m = g} (omega arith) in
    let rm : rows_below d m ≡ m / g = sym (rows_among-count_below d m h) ∙ rw o (ground arith) in
    let rn = rows_among-count_below d n h in
    let q = div-le_of_le n m g (omega arith) l in
    elim (dec_lt d.row_rank (n % g)) [
      | no small ↦
          let k : m / g ≡ n / g + (m / g - n / g) = omega (arith, q) in
          let e =
            difference-div (n / g) (m / g - n / g) g (n % g) d.row_rank m n (rw (← k) em) en
              (omega arith) h in
          ground (arith, e, rm, rn, q)
      | yes large ↦
          let ne : n / g ≢ m / g = λ e. let f = ap (λ x. x * g) e in omega (arith, f) in
          let lt : n / g < m / g = less (n / g) (m / g) q (λ e. ne e) in
          let k : m / g ≡ n / g + suc (m / g - n / g - 1) = omega (arith, lt) in
          let e =
            difference-div_borrow (n / g) (m / g - n / g - 1) g (n % g) d.row_rank m n (rw (← k) em)
              en large ln in
          ground (arith, e, rm, rn, lt)
    ]

pub count_below-le_count : (p : ℕ → Bool) (a b : ℕ) → a ≤ b → count_below p a ≤ count_below p b
count_below-le_count p a zero h = ground arith
count_below-le_count p a (suc b) h = elim (dec_lt a (suc b)) [
  | yes l ↦ let rest = count_below-le_count p a b (omega arith) in ground (arith, rest)
  | no l ↦ let e : a ≡ suc b = omega arith in rw e (omega arith)
]
