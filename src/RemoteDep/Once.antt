-- ===== src/RemoteDep/Once.antt =====
-- In the broadcast of one output by `dague_remote_dep_activate` of src/remote_dep.c, no process is
-- sent to twice.
use mathlib.Core.Path.{subst}
use dague_hsa.Prelude.{
  ℕ, zero, suc, ◌+◌, ◌^◌, ◌<◌, ◌≡◌, refl, sym, ap, ◌∙◌, arith, Bool, true, Option, some, List, [],
  ◌∷◌, ◌==◌, inl, inr, Bool-cases, length, get_elem?, All,
}
use dague_hsa.RemoteDep.{Output, Activation, activate}
use dague_hsa.RemoteDep.Trees.{IsTree}
use dague_hsa.RemoteDep.Fields.{IsField}
use dague_hsa.RemoteDep.Walk.{IsCounted}
use dague_hsa.RemoteDep.Broadcast.{others, Increasing, children_from, some-eq, Nat-cases}
use dague_hsa.RemoteDep.Delivery.{destinations, activate-children, within, get_elem?-lt}

some-inj : {a b : Activation} → some a ≡ some b → a ≡ b
some-inj e = cc

All-get : (P : ℕ → Type 0) (xs : List ℕ) (i : ℕ) {q : ℕ} → All P xs → get_elem? xs i ≡ some q → P q
All-get P [] i a g = cc
All-get P (x ∷ xs) zero a g = subst P (some-eq g) a.0
All-get P (x ∷ xs) (suc i) a g = All-get P xs i a.1 g

Increasing-inj :
    (xs : List ℕ) (i j : ℕ) {q : ℕ}
    → Increasing xs
    → get_elem? xs i ≡ some q
    → get_elem? xs j ≡ some q
    → i ≡ j
Increasing-inj [] i j s g h = cc
Increasing-inj (x ∷ xs) zero zero s g h = refl
Increasing-inj (x ∷ xs) zero (suc j) s g h =
    let l = All-get (λ y. x < y) xs j s.0 h in let e = some-eq g in absurd (omega arith)
Increasing-inj (x ∷ xs) (suc i) zero s g h =
    let l = All-get (λ y. x < y) xs i s.0 g in let e = some-eq h in absurd (omega arith)
Increasing-inj (x ∷ xs) (suc i) (suc j) s g h = ap suc (Increasing-inj xs i j s.1 g h)

All-others_all : (P : ℕ → Type 0) (root : ℕ) (xs : List ℕ) → All P xs → All P (others root xs)
All-others_all P root [] a = tt
All-others_all P root (x ∷ xs) (p, a) = elim (Bool-cases (x == root)) [
  | inl e ↦ rw e (All-others_all P root xs a)
  | inr e ↦ rw e (p, All-others_all P root xs a)
]

others-Increasing : (root : ℕ) (xs : List ℕ) → Increasing xs → Increasing (others root xs)
others-Increasing root [] s = tt
others-Increasing root (x ∷ xs) (a, s) = elim (Bool-cases (x == root)) [
  | inl e ↦ rw e (others-Increasing root xs s)
  | inr e ↦ rw e (All-others_all (λ y. x < y) root xs a, others-Increasing root xs s)
]

module _ (child : Option ℕ → ℕ → Bool) (m : ℕ) where
  All-children_from :
      (P : ℕ → Type 0) (n : ℕ) (xs : List ℕ) → All P xs → All P (children_from child m n xs)
  All-children_from P n [] a = tt
  All-children_from P n (x ∷ xs) (p, a) = elim (Bool-cases (child (some m) (n + 1))) [
    | inl e ↦ rw e (p, All-children_from P (n + 1) xs a)
    | inr e ↦ rw e (All-children_from P (n + 1) xs a)
  ]

  children_from-Increasing :
      (n : ℕ) (xs : List ℕ) → Increasing xs → Increasing (children_from child m n xs)
  children_from-Increasing n [] s = tt
  children_from-Increasing n (x ∷ xs) (a, s) = elim (Bool-cases (child (some m) (n + 1))) [
    | inl e ↦
        rw e (All-children_from (λ y. x < y) (n + 1) xs a, children_from-Increasing (n + 1) xs s)
    | inr e ↦ rw e (children_from-Increasing (n + 1) xs s)
  ]

  -- Whoever is sent to is a child.
  children_from-only :
      (n i : ℕ) (xs : List ℕ) {q : ℕ}
      → get_elem? (children_from child m n xs) i ≡ some q
      → (h : ℕ) × (get_elem? xs h ≡ some q) × (child (some m) (n + h + 1) ≡ true)
  children_from-only n i [] g = cc
  children_from-only n i (x ∷ xs) g = elim (Bool-cases (child (some m) (n + 1))) [
    | inl e ↦ elim (Nat-cases i) [
      | inl z ↦
          let f : some x ≡ some _ = rw (e, z) at g in
          let e' : n + 0 + 1 ≡ n + 1 = omega arith in (0, f, rw e' e)
      | inr (i', s) ↦
          let (h, f, c) = children_from-only (n + 1) i' xs (rw (e, s) at g) in
          let e' : n + suc h + 1 ≡ n + 1 + h + 1 = omega arith in (suc h, f, rw e' c)
    ]
    | inr e ↦
        let (h, f, c) = children_from-only (n + 1) i xs (rw e at g) in
        let e' : n + suc h + 1 ≡ n + 1 + h + 1 = omega arith in (suc h, f, rw e' c)
  ]

module _ (child : Option ℕ → ℕ → Bool) (root words : ℕ) (o : Output) (counted : IsCounted o)
    (field : IsField words o.rank_bits) (few : o.count < 2 ^ 32) (bound : ℕ)
    (t : IsTree bound child) (fits : length (destinations child root words o) < bound) where
  abbrev dests : List ℕ
  dests = destinations child root words o

  sends_at :
      (m p i q : ℕ) (a : Activation)
      → get_elem? (root ∷ dests) m ≡ some p
      → activate child root p words (o ∷ []) o.count ≡ some a
      → get_elem? a.sends i ≡ some q
      → get_elem? (children_from child m 0 dests) i ≡ some q
  sends_at m p i q a g ends s =
      let (a', ends', sends) =
        activate-children child root words o counted field few bound t fits m p g in
      let same : a' ≡ a = some-inj (sym ends' ∙ ends) in rw (sym sends ∙ ap Activation.sends same) s

  -- Along any tree of more numbers than there are destinations, the broadcast of an output, which
  -- counts the bits of its field, sends to no process twice: where the process with number m and the
  -- one with number m' send to the same process, as their sends number i and i', m = m' and i = i'.
  pub broadcast-once :
      (m p i m' p' i' q : ℕ) (a a' : Activation)
      → get_elem? (root ∷ dests) m ≡ some p
      → get_elem? (root ∷ dests) m' ≡ some p'
      → activate child root p words (o ∷ []) o.count ≡ some a
      → activate child root p' words (o ∷ []) o.count ≡ some a'
      → get_elem? a.sends i ≡ some q
      → get_elem? a'.sends i' ≡ some q
      → (m ≡ m') × (i ≡ i')
  broadcast-once m p i m' p' i' q a a' g g' r r' s s' =
      let up : Increasing dests =
        others-Increasing root _ (within child root words o counted field few).2 in
      let b = sends_at m p i q a g r s in
      let b' = sends_at m' p' i' q a' g' r' s' in
      let (h, d, c) = children_from-only child m 0 i dests b in
      let (h', d', c') = children_from-only child m' 0 i' dests b' in
      let same : h ≡ h' = Increasing-inj dests h h' up d d' in
      let l = get_elem?-lt dests h d in
      let l' = get_elem?-lt dests h' d' in
      let e = t.child-parent m (0 + h + 1) (omega arith) (omega arith) c in
      let e' = t.child-parent m' (0 + h' + 1) (omega arith) (omega arith) c' in
      let k : m ≡ m' = e ∙ ap (λ (x : ℕ). t.parent (0 + x + 1)) same ∙ sym e' in
      (
        k,
        Increasing-inj (children_from child m 0 dests) i i'
            (children_from-Increasing child m 0 dests up) b (rw k b'),
      )
