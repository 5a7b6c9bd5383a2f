-- ===== src/HbBuffer/Pop.antt =====
-- `dague_hbbuffer_pop_best` of include/hbbuffer.h: which task it takes, and what it leaves.
use dague_hsa.Prelude.{
  ℕ, zero, suc, ◌+◌, ◌≤◌, ◌≡◌, ◌↔◌, refl, Bool, true, false, Option, none, some, List, [], ◌∷◌,
  ◌++◌, arith, length, get_elem?, set, count_p, SameElements, All, if◌then◌else◌, ap, ◌∙◌, ◌==◌,
  Bool-cases, Option-cases, inl, inr, length-set,
}
use dague_hsa.HbBuffer.{
  HbBuffer, Best, better, scan, pop_best, ranking_best, is_empty, is_empty_from,
}
use dague_hsa.HbBuffer.Push.{stored}

module _ {A : Type 0} where
  -- reading a slot: the task there is stored, and taking it removes it alone
  stored-set :
      (p : A → Bool) (slots : List (Option A)) (i : ℕ) (x : A)
      → get_elem? slots i ≡ some (some x)
      → count_p p (stored slots) ≡ (if p x then 1 else 0) + count_p p (stored (set slots i none))
  stored-set p [] i x h = ground arith
  stored-set p (none ∷ slots) zero x h = ground arith
  stored-set p (some y ∷ slots) zero x h = ground arith
  stored-set p (none ∷ slots) (suc i) x h = stored-set p slots i x h
  stored-set p (some y ∷ slots) (suc i) x h = omega (arith, stored-set p slots i x h)

  get_elem?-append-length :
      (pre slots : List (Option A)) (y : Option A)
      → get_elem? (pre ++ y ∷ slots) (length pre) ≡ some y
  get_elem?-append-length [] slots y = refl
  get_elem?-append-length (x ∷ pre) slots y = get_elem?-append-length pre slots y

  is_empty_from_iff : (slots : List (Option A)) → (is_empty_from slots ≡ true) ↔ (stored slots ≡ [])
  unfolding is_empty_from
  is_empty_from_iff [] = ground arith
  is_empty_from_iff (none ∷ slots) = is_empty_from_iff slots
  is_empty_from_iff (some x ∷ slots) = ground arith

module _ {A : Type 0} (rank : A → ℕ) where
  abbrev BelowBest : List A → Type 0
  BelowBest = All (λ x. rank x ≤ ranking_best)

  -- What the scan knows of the tasks that it has seen, in a buffer with these slots.
  abbrev IsBestOf : List (Option A) → List A → Option (Best A) → Type 0
  IsBestOf slots seen none = seen ≡ []
  IsBestOf slots seen (some b) =
      (get_elem? slots b.idx ≡ some (some b.elt))
      × (b.rank ≡ rank b.elt)
      × All (λ y. rank y ≤ b.rank) seen

  All-le : (m n : ℕ) (xs : List A) → m ≤ n → All (λ y. rank y ≤ m) xs → All (λ y. rank y ≤ n) xs
  All-le m n [] h a = tt
  All-le m n (x ∷ xs) h a = (omega arith, All-le m n xs h a.1)

  found-IsBestOf :
      (slots : List (Option A)) (idx : ℕ) (x : A) (seen : List A) (best : Option (Best A))
      → get_elem? slots idx ≡ some (some x)
      → BelowBest (x ∷ seen)
      → better rank x best ≡ true
      → IsBestOf slots seen best
      → IsBestOf slots (x ∷ seen) (some (record { elt = x; idx = idx; rank = rank x }))
  unfolding better
  found-IsBestOf slots idx x [] best g h e w = (g, refl, (omega arith, tt))
  found-IsBestOf slots idx x (y ∷ ys) none g h e w = absurd (cc)
  found-IsBestOf slots idx x (y ∷ ys) (some b) g h e w = (
    g,
    refl,
    (
      omega arith,
      ground (arith, All-le b.rank (rank x) (y ∷ ys), All-le ranking_best (rank x) (y ∷ ys)),
    ),
  )

  others-IsBestOf :
      (slots : List (Option A)) (x : A) (seen : List A) (best : Option (Best A))
      → better rank x best ≡ false
      → IsBestOf slots seen best
      → IsBestOf slots (x ∷ seen) best
  unfolding better
  others-IsBestOf slots x seen none e w = absurd (cc)
  others-IsBestOf slots x seen (some b) e w = ground arith

  Both : List (Option A) → List A → List (Option A) → Option (Best A) → Type 0
  Both slots seen rest best = IsBestOf slots seen best × IsBestOf slots (stored rest) best

  regroup :
      (slots : List (Option A)) (x : A) (seen : List A) (rest : List (Option A))
      (best : Option (Best A))
      → Both slots (x ∷ seen) rest best
      → Both slots seen (some x ∷ rest) best
  unfolding Both
  regroup slots x seen rest none w = absurd (cc)
  regroup slots x seen rest (some b) w = ((w.0.0, w.0.1, w.0.2.1), (w.0.0, w.0.1, (w.0.2.0, w.1.2)))

  stop-Both :
      (slots rest : List (Option A)) (seen : List A) (b : Best A)
      → b.rank ≡ ranking_best
      → BelowBest (stored rest)
      → IsBestOf slots seen (some b)
      → Both slots seen rest (some b)
  unfolding Both
  stop-Both slots rest seen b e h w =
      (w, (w.0, w.1, All-le ranking_best b.rank (stored rest) (omega arith) h))

  scan-IsBestOf :
      (slots rest : List (Option A)) (idx : ℕ) (seen : List A) (best : Option (Best A))
      → ((i : ℕ) → get_elem? slots (idx + i) ≡ get_elem? rest i)
      → BelowBest seen
      → BelowBest (stored rest)
      → IsBestOf slots seen best
      → Both slots seen rest (scan rank idx rest best)
  unfolding scan Both
  scan-IsBestOf slots [] idx seen none g hs hr w = (w, refl)
  scan-IsBestOf slots [] idx seen (some b) g hs hr w = (w, (w.0, w.1, tt))
  scan-IsBestOf slots (none ∷ rest) idx seen best g hs hr w =
      scan-IsBestOf slots rest (idx + 1) seen best (λ i. shift i) hs hr w
    where
      shift : (i : ℕ) → get_elem? slots (idx + 1 + i) ≡ get_elem? rest i
      shift i = ap (get_elem? slots) (omega arith) ∙ g (suc i)
  scan-IsBestOf slots (some x ∷ rest) idx seen best g hs hr w =
      regroup slots x seen rest _ (elim (Bool-cases (better rank x best)) [
        | inl take ↦
            let now = found-IsBestOf slots idx x seen best here (hr.0, hs) take w in
            elim (Bool-cases (rank x == ranking_best)) [
              | inl stop ↦
                  rw (take, stop) (stop-Both slots rest (x ∷ seen) (found) (ground arith) hr.1 now)
              | inr go ↦
                  rw (take, go)
                    (scan-IsBestOf slots rest (idx + 1) (x ∷ seen) (some found) shift (hr.0, hs)
                      hr.1 now)
            ]
        | inr skip ↦ rw skip (
            scan-IsBestOf slots rest (idx + 1) (x ∷ seen) best shift (hr.0, hs) hr.1
              (others-IsBestOf slots x seen best skip w))
      ])
    where
      found : Best A
      found = record { elt = x; idx = idx; rank = rank x }

      here : get_elem? slots idx ≡ some (some x)
      here = ap (get_elem? slots) (omega arith) ∙ g 0

      shift : (i : ℕ) → get_elem? slots (idx + 1 + i) ≡ get_elem? rest i
      shift i = ap (get_elem? slots) (omega arith) ∙ g (suc i)

  scan-some :
      (rest : List (Option A)) (idx : ℕ) (b : Best A)
      → (b' : Best A) × (scan rank idx rest (some b) ≡ some b')
  unfolding scan
  scan-some [] idx b = (b, refl)
  scan-some (none ∷ rest) idx b = scan-some rest (idx + 1) b
  scan-some (some x ∷ rest) idx b =
      let found : Best A = record { elt = x; idx = idx; rank = rank x } in
      elim (Bool-cases (better rank x (some b))) [
        | inl take ↦ elim (Bool-cases (rank x == ranking_best)) [
          | inl stop ↦ (found, rw (take, stop))
          | inr go ↦ rw (take, go) (scan-some rest (idx + 1) found)
        ]
        | inr skip ↦ rw skip (scan-some rest (idx + 1) b)
      ]

  scan-none :
      (rest : List (Option A)) (idx : ℕ)
      → (scan rank idx rest none ≡ none) ↔ (is_empty_from rest ≡ true)
  unfolding scan better is_empty_from
  scan-none [] idx = ground arith
  scan-none (none ∷ rest) idx = scan-none rest (idx + 1)
  scan-none (some x ∷ rest) idx =
      let (b, e) = scan-some rest (idx + 1) (record { elt = x; idx = idx; rank = rank x }) in
      ground (arith, e)

  -- `pop_best` returns NULL exactly from a buffer that `is_empty` holds of, and exactly then returns
  -- NULL with the buffer as it was.
  pub pop_best-none :
      (b : HbBuffer A)
      → (((pop_best rank b).0 ≡ none) ↔ (is_empty b ≡ true))
        × ((pop_best rank b ≡ (none, b)) ↔ (is_empty b ≡ true))
  unfolding pop_best is_empty
  pop_best-none b = elim (Option-cases (scan rank 0 b.items none)) [
    | inl e ↦ ground (arith, scan-none b.items 0)
    | inr (best, e) ↦ ground (arith, scan-none b.items 0)
  ]

  -- Where no rank is above DAGUE_RANKING_FUNCTION_BEST, the task that `pop_best` returns has the
  -- highest rank in the buffer, and the buffer keeps its slots and all the other tasks.
  pub pop_best-highest :
      (b b' : HbBuffer A) (x : A)
      → BelowBest (stored b.items)
      → pop_best rank b ≡ (some x, b')
      → All (λ y. rank y ≤ rank x) (stored b.items)
        × SameElements (stored b.items) (x ∷ stored b'.items)
        × (length b'.items ≡ length b.items)
  unfolding pop_best Both
  pop_best-highest b b' x h e = elim (Option-cases (scan rank 0 b.items none)) [
    | inl f ↦ absurd (ground arith)
    | inr (best, f) ↦
        let w : IsBestOf b.items (stored b.items) (some best) = rw f at (
          (scan-IsBestOf b.items b.items 0 [] none (λ i. ap (get_elem? b.items) (omega arith)) tt h
            refl).1) in
        let elt_eq : x ≡ best.elt = ground arith in
        let items_eq : b'.items ≡ set b.items best.idx none = ground arith in
        (
          rw (elt_eq, ← w.1) w.2,
          λ p. rw (elt_eq, items_eq) (stored-set p b.items best.idx best.elt w.0),
          rw items_eq (length-set b.items best.idx none),
        )
  ]
