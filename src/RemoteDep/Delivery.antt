-- ===== src/RemoteDep/Delivery.antt =====
-- The broadcast of one output by `dague_remote_dep_activate` of src/remote_dep.c reaches every
-- process that needs it, along whatever tree.
use mathlib.Core.Path.{subst}
use dague_hsa.Prelude.{
  ℕ, zero, suc, ◌+◌, ◌*◌, ◌^◌, ◌≤◌, ◌<◌, ◌≡◌, refl, sym, ap, ◌∙◌, arith, Bool, true, false, Option,
  some, List, [], ◌∷◌, ◌==◌, inl, inr, Bool-cases, ==_iff, length, get_elem?, drop, replicate, All,
}
use dague_hsa.RemoteDep.{empty_word, Output, Activation, activate}
use dague_hsa.RemoteDep.Trees.{IsTree}
use dague_hsa.RemoteDep.Fields.{IsField, empty-IsField, test_bit-empty, ranks_of}
use dague_hsa.RemoteDep.Walk.{IsCounted, visit_all, visit_each, visit_none, start, activate-each}
use dague_hsa.RemoteDep.Ranks.{ranks_of-in_mask, ranks_of-within}
use dague_hsa.RemoteDep.Broadcast.{
  others, Increasing, some-eq, Nat-cases, children_from, IsFresh, visit_all-known,
  visit_all-unknown,
}

-- Every number before one that is there is there.
get_elem?-before :
    (xs : List ℕ) (m h : ℕ) {q : ℕ}
    → get_elem? xs h ≡ some q
    → m ≤ h
    → (p : ℕ) × (get_elem? xs m ≡ some p)
get_elem?-before [] m h g l = cc
get_elem?-before (x ∷ xs) zero h g l = (x, refl)
get_elem?-before (x ∷ xs) (suc m) zero g l = absurd (omega arith)
get_elem?-before (x ∷ xs) (suc m) (suc h) g l = get_elem?-before xs m h g (omega arith)

pub get_elem?-lt : (xs : List ℕ) (h : ℕ) {q : ℕ} → get_elem? xs h ≡ some q → h < length xs
get_elem?-lt [] h g = cc
get_elem?-lt (x ∷ xs) zero g = omega arith
get_elem?-lt (x ∷ xs) (suc h) g = omega (arith, get_elem?-lt xs h g)

others-ne :
    (root : ℕ) (ranks : List ℕ) (k : ℕ) {p : ℕ}
    → get_elem? (others root ranks) k ≡ some p
    → (root == p) ≡ false
others-ne root [] k g = cc
others-ne root (r ∷ rs) k g = elim (Bool-cases (r == root)) [
  | inl e ↦ others-ne root rs k (rw e at g)
  | inr e ↦ elim (Nat-cases k) [
    | inl z ↦ let q = some-eq (rw (e, z) at g) in ground arith
    | inr (k', s) ↦ others-ne root rs k' (rw (e, s) at g)
  ]
]

module _ (child : Option ℕ → ℕ → Bool) (bound : ℕ) (t : IsTree bound child) where
  -- Numbers from m on are no child of a greater number.
  children_from-skip :
      (m n j : ℕ) (dests : List ℕ)
      → n + j ≤ m
      → m < bound
      → children_from child m n dests ≡ children_from child m (n + j) (drop j dests)
  children_from-skip m n zero dests h b = let e : n + 0 ≡ n = omega arith in rw e refl
  children_from-skip m n (suc j) [] h b = refl
  children_from-skip m n (suc j) (d ∷ ds) h b = elim (Bool-cases (child (some m) (n + 1))) [
    | inl c ↦
        let e = t.child-parent m (n + 1) (omega arith) (omega arith) c in
        absurd (omega (arith, t.parent-lt (n + 1) (omega arith) (omega arith)))
    | inr c ↦
        let e : n + suc j ≡ n + 1 + j = omega arith in
        rw (c, e) (children_from-skip m (n + 1) j ds (omega arith) b)
  ]

  children_from-get :
      (m n h : ℕ) (dests : List ℕ) {q : ℕ}
      → get_elem? dests h ≡ some q
      → child (some m) (n + h + 1) ≡ true
      → (i : ℕ) × (get_elem? (children_from child m n dests) i ≡ some q)
  children_from-get m n h [] g c = cc
  children_from-get m n zero (d ∷ ds) g c =
      let e : n + 0 + 1 ≡ n + 1 = omega arith in
      let c' : child (some m) (n + 1) ≡ true = rw e at c in (0, rw c' g)
  children_from-get m n (suc h) (d ∷ ds) g c =
      let e : n + suc h + 1 ≡ n + 1 + h + 1 = omega arith in
      let (i, f) = children_from-get m (n + 1) h ds g (rw e at c) in
      elim (Bool-cases (child (some m) (n + 1))) [
        | inl c' ↦ (suc i, rw c' f)
        | inr c' ↦ (i, rw c' f)
      ]

-- The processes that the broadcast of an output reaches: the root, and whoever such a process sends
-- to.
pub data Reached (child : Option ℕ → ℕ → Bool) (root words : ℕ) (o : Output) : ℕ → Type 0 where
  origin : Reached child root words o root
  told :
      {p q : ℕ} (a : Activation) (i : ℕ)
      → Reached child root words o p
      → activate child root p words (o ∷ []) o.count ≡ some a
      → get_elem? a.sends i ≡ some q
      → Reached child root words o q

module _ (child : Option ℕ → ℕ → Bool) (root words : ℕ) (o : Output) where
  -- the processes that need the output, and do not have it
  abbrev pub destinations : List ℕ
  destinations = others root (ranks_of 0 o.rank_bits)

  IsFresh-empty : (ranks : List ℕ) → IsFresh (replicate words empty_word) ranks
  IsFresh-empty [] = tt
  IsFresh-empty (r ∷ rs) = (test_bit-empty words r, IsFresh-empty rs)

  module _ (counted : IsCounted o) (field : IsField words o.rank_bits)
      (few : o.count < 2 ^ 32) where
    abbrev pub ranks : List ℕ
    ranks = ranks_of 0 o.rank_bits

    -- The activation on a process ends, with the sends of the visits of the ranks.
    activate-one :
        (p : ℕ)
        → (a : Activation) × (activate child root p words (o ∷ []) o.count ≡ some a)
          × (a.sends ≡ (visit_all child root p ranks (start child root p words o.count)).sends)
    unfolding visit_each
    activate-one p =
        let e : o.count + 0 ≡ o.count = omega arith in
        let s = start child root p words o.count in
        (
          visit_each child root p (o ∷ []) s,
          subst
              (λ (t : ℕ).
                activate child root p words (o ∷ []) t
                ≡ some (visit_each child root p (o ∷ []) (start child root p words t)))
              e
              (activate-each child root p words (o ∷ [])
                (ranks_of-in_mask words o.rank_bits field, tt) (counted, tt) (omega arith)),
          elim (Bool-cases (o.count == 0)) [
            | inl z ↦
                rw z (ap Activation.sends (sym (visit_none child root p ranks s (ground arith))))
            | inr n ↦ rw n refl
          ],
        )

    pub within : All (λ r. 0 ≤ r) ranks × All (λ r. r < words * 32) ranks × Increasing ranks
    within =
        let (low, high, up) = ranks_of-within 0 o.rank_bits field.1 in
        let e : 0 + length o.rank_bits ≡ words = omega (arith, field.0) in
        (low, subst (λ (n : ℕ). All (λ r. r < n * 32) ranks) e high, up)

    module _ (bound : ℕ) (t : IsTree bound child) (fits : length destinations < bound) where
      skip :
          (m : ℕ)
          → m < bound
          → children_from child m 0 destinations ≡ children_from child m m (drop m destinations)
      skip m b =
          let e : 0 + m ≡ m = omega arith in
          children_from-skip child bound t m 0 m destinations (omega arith) b
          ∙ ap (λ (n : ℕ). children_from child m n (drop m destinations)) e

      -- The process with number m sends to its children among the destinations.
      pub activate-children :
          (m p : ℕ)
          → get_elem? (root ∷ destinations) m ≡ some p
          → (a : Activation) × (activate child root p words (o ∷ []) o.count ≡ some a)
            × (a.sends ≡ children_from child m 0 destinations)
      activate-children zero p g =
          let (a, ends, sends) = activate-one p in
          let e : (root == p) ≡ true = (==_iff _ _).1 (some-eq g) in
          let (_, high, up) = within in
          (
            a,
            ends,
            sends
                ∙ visit_all-known child root p words ranks (start child root p words o.count) 0
                    (rw e refl) (empty-IsField words) up high (IsFresh-empty ranks),
          )
      activate-children (suc k) p g =
          let (a, ends, sends) = activate-one p in
          let e : (root == p) ≡ false = others-ne root ranks k g in
          let (_, high, up) = within in
          let s : 0 + k + 1 ≡ suc k = omega arith in
          let l = get_elem?-lt destinations k g in
          (
            a,
            ends,
            sends
                ∙ visit_all-unknown child root p words t.child-none ranks
                    (start child root p words o.count) k (rw e refl) g (empty-IsField words) up high
                    (IsFresh-empty ranks)
                ∙ ap (λ (n : ℕ). children_from child n n (drop (suc k) destinations)) s
                ∙ sym (skip (suc k) (omega arith)),
          )

      Reached-below :
          (b h : ℕ) {q : ℕ}
          → h < b
          → get_elem? (root ∷ destinations) h ≡ some q
          → Reached child root words o q
      Reached-below zero h l g = absurd (omega arith)
      Reached-below (suc b) zero l g = subst (Reached child root words o) (some-eq g) origin
      Reached-below (suc b) (suc h) l g =
          let fit = get_elem?-lt destinations h g in
          let m = t.parent (suc h) in
          let less : m < suc h = t.parent-lt (suc h) (omega arith) (omega arith) in
          let (p, gp) = get_elem?-before (root ∷ destinations) m (suc h) g (omega arith) in
          let (a, ends, sends) = activate-children m p gp in
          let e : 0 + h + 1 ≡ suc h = omega arith in
          let c = t.parent-child (suc h) (omega arith) (omega arith) in
          let (i, gi) = children_from-get child bound t m 0 h destinations g (rw e c) in
          told a i (Reached-below b m (omega arith) gp) ends (rw sends gi)

      -- Along any tree of more numbers than there are destinations, the broadcast of an output, which
      -- counts the bits of its field, reaches every process whose bit is set.
      pub broadcast-reaches :
          (h q : ℕ) → get_elem? destinations h ≡ some q → Reached child root words o q
      broadcast-reaches h q g = Reached-below (suc (suc h)) (suc h) (omega arith) g
