-- ===== src/RemoteDep/Broadcast.antt =====
-- Whom a process sends to in `dague_remote_dep_activate` of src/remote_dep.c.
use mathlib.Core.Path.{subst}
use mathlib.Core.List.{append-nil, append_assoc}
use dague_hsa.Prelude.{
  ℕ, zero, suc, ◌+◌, ◌-◌, ◌*◌, ◌%◌, ◌^◌, ◌<◌, ◌≡◌, ◌⊎◌, refl, sym, ap, ◌∙◌, arith, Bool, true,
  false, Option, some, none, List, [], ◌∷◌, ◌++◌, if◌then◌else◌, ◌==◌, leb, inl, inr, Bool-cases,
  get_elem?, drop, All,
}
use dague_hsa.RemoteDep.{Word, Activation, test_bit, set_bit, forward, visit}
use dague_hsa.RemoteDep.Fields.{IsField, set_bit-IsField, test_bit-set_bit}
use dague_hsa.RemoteDep.Walk.{visit_all}

-- the destinations: the ranks but the root, which knows already
abbrev pub others : (root : ℕ) → List ℕ → List ℕ
others root [] = []
others root (r ∷ rs) = if r == root then others root rs else r ∷ others root rs

abbrev pub Increasing : List ℕ → Type 0
Increasing [] = Unit
Increasing (r ∷ rs) = All (λ s. r < s) rs × Increasing rs

-- the destinations that are children of number m, where the first of them has number n + 1
abbrev pub children_from : (Option ℕ → ℕ → Bool) → (m n : ℕ) → List ℕ → List ℕ
children_from child m n [] = []
children_from child m n (r ∷ rs) =
    if child (some m) (n + 1)
    then r ∷ children_from child m (n + 1) rs
    else children_from child m (n + 1) rs

pub Nat-cases : (k : ℕ) → (k ≡ 0) ⊎ ((k' : ℕ) × (k ≡ suc k'))
Nat-cases zero = inl refl
Nat-cases (suc k) = inr (k, refl)

pub some-eq : {a b : ℕ} → some a ≡ some b → a ≡ b
some-eq e = cc

All-others :
    (root : ℕ) (P : ℕ → Type 0) (ranks : List ℕ) (k : ℕ) {p : ℕ}
    → All P ranks
    → get_elem? (others root ranks) k ≡ some p
    → P p
All-others root P [] k h g = cc
All-others root P (r ∷ rs) k (h, hs) g = elim (Bool-cases (r == root)) [
  | inl e ↦ All-others root P rs k hs (rw e at g)
  | inr e ↦ elim (Nat-cases k) [
    | inl z ↦ let q : some r ≡ some _ = rw (e, z) at g in subst P (some-eq q) h
    | inr (k', s) ↦ All-others root P rs k' hs (rw (e, s) at g)
  ]
]

-- No rank has been sent to.
abbrev pub IsFresh : List Word → List ℕ → Type 0
IsFresh words ranks = All (λ r. test_bit words r ≡ false) ranks

module _ (child : Option ℕ → ℕ → Bool) (root my_rank : ℕ) where
  -- one dependency fewer
  abbrev counted : Activation → Activation
  counted a = record a {
    count = a.count + 1;
    remote_deps_count = (a.remote_deps_count + 2 ^ 32 - 1) % 2 ^ 32;
  }

  visit-root :
      (r : ℕ) (a : Activation) → (r == root) ≡ true → visit child root my_rank r a ≡ counted a
  unfolding visit
  visit-root r a e = rw e refl

  visit-known :
      (r m : ℕ) (a : Activation)
      → (r == root) ≡ false
      → a.me ≡ some m
      → visit child root my_rank r a
        ≡ forward child root my_rank r (record (counted a) { him = a.him + 1 })
  unfolding visit
  visit-known r m a e k = rw (e, k) refl

  forward-child :
      (r m : ℕ) (a : Activation)
      → a.me ≡ some m
      → child (some m) a.him ≡ true
      → test_bit a.fw_mask r ≡ false
      → forward child root my_rank r a ≡ record a {
        references = a.references + 1;
        flying = a.flying + 1;
        fw_mask = set_bit a.fw_mask r;
        sends = a.sends ++ r ∷ [];
      }
  unfolding forward
  forward-child r m a k c f = rw (k, c, f) refl

  forward-other :
      (r : ℕ) (a : Activation) → child a.me a.him ≡ false → forward child root my_rank r a ≡ a
  unfolding forward
  forward-other r a c = rw c refl

  -- what the visits of more ranks send after a first visit that is known
  after :
      (ranks : List ℕ) {a b : Activation}
      → a ≡ b
      → (visit_all child root my_rank ranks a).sends ≡ (visit_all child root my_rank ranks b).sends
  after ranks e = ap (λ (a : Activation). (visit_all child root my_rank ranks a).sends) e

  module _ (words : ℕ) where
    IsFresh-set :
        (fw : List Word) (r : ℕ) (rs : List ℕ)
        → IsField words fw
        → r < words * 32
        → All (λ s. r < s) rs
        → IsFresh fw rs
        → IsFresh (set_bit fw r) rs
    IsFresh-set fw r [] f h l fr = tt
    IsFresh-set fw r (s ∷ rs) f h (l, ls) (fr, frs) =
        let differ : (r == s) ≡ false = ground arith in
        ((test_bit-set_bit words fw f r h s ∙ rw differ fr), IsFresh-set fw r rs f h ls frs)

    -- Where the process knows its number m, it sends to its children among the other ranks.
    pub visit_all-known :
        (ranks : List ℕ) (a : Activation) (m : ℕ)
        → a.me ≡ some m
        → IsField words a.fw_mask
        → Increasing ranks
        → All (λ r. r < words * 32) ranks
        → IsFresh a.fw_mask ranks
        → (visit_all child root my_rank ranks a).sends
          ≡ a.sends ++ children_from child m a.him (others root ranks)
    unfolding visit_all
    visit_all-known [] a m k f i h fr = sym (append-nil a.sends)
    visit_all-known (r ∷ rs) a m k f (i, is) (h, hs) (fr, frs) = elim (Bool-cases (r == root)) [
      | inl e ↦ after rs (visit-root r a e) ∙ rw e (visit_all-known rs (counted a) m k f is hs frs)
      | inr e ↦
          let a1 = record (counted a) { him = a.him + 1 } in
          after rs (visit-known r m a e k)
          ∙ rw e (elim (Bool-cases (child (some m) (a.him + 1))) [
            | inl c ↦
                let a2 = record a1 {
                  references = a1.references + 1;
                  flying = a1.flying + 1;
                  fw_mask = set_bit a1.fw_mask r;
                  sends = a1.sends ++ r ∷ [];
                } in
                after rs (forward-child r m a1 k c fr)
                ∙ rw c (
                    visit_all-known rs a2 m k (set_bit-IsField words a.fw_mask f r h) is hs
                      (IsFresh-set a.fw_mask r rs f h i frs)
                    ∙ append_assoc a.sends (r ∷ []) _)
            | inr c ↦
                after rs (forward-other r a1 (rw k c))
                ∙ rw c (visit_all-known rs a1 m k f is hs frs)
          ])
    ]

  visit-found :
      (r : ℕ) (a : Activation)
      → (r == root) ≡ false
      → a.me ≡ none
      → r ≡ my_rank
      → visit child root my_rank r a ≡ record (counted a) { me = some (a.him + 1); him = a.him + 1 }
  unfolding visit
  visit-found r a e k p =
      let above : leb my_rank r ≡ true = ground arith in
      let here : (r == my_rank) ≡ true = ground arith in rw (e, k, above, here) refl

  visit-before :
      (r : ℕ) (a : Activation)
      → (r == root) ≡ false
      → a.me ≡ none
      → r < my_rank
      → visit child root my_rank r a
        ≡ forward child root my_rank r (record (counted a) { him = a.him + 1 })
  unfolding visit
  visit-before r a e k p = let above : leb my_rank r ≡ false = ground arith in rw (e, k, above) refl

  module _ (words : ℕ) (child-none : (him : ℕ) → child none him ≡ false) where
    -- Where the process finds itself as the destination number k, it sends to its children behind.
    pub visit_all-unknown :
        (ranks : List ℕ) (a : Activation) (k : ℕ)
        → a.me ≡ none
        → get_elem? (others root ranks) k ≡ some my_rank
        → IsField words a.fw_mask
        → Increasing ranks
        → All (λ r. r < words * 32) ranks
        → IsFresh a.fw_mask ranks
        → (visit_all child root my_rank ranks a).sends
          ≡ a.sends
            ++ children_from child
                (a.him + k + 1)
                (a.him + k + 1)
                (drop (suc k) (others root ranks))
    unfolding visit_all
    visit_all-unknown [] a k n g f i h fr = cc
    visit_all-unknown (r ∷ rs) a k n g f (i, is) (h, hs) (fr, frs) = elim (Bool-cases (r == root)) [
      | inl e ↦
          after rs (visit-root r a e)
          ∙ rw e (visit_all-unknown rs (counted a) k n (rw e at g) f is hs frs)
      | inr e ↦ rw e (elim (Nat-cases k) [
        | inl z ↦
            let p : some r ≡ some my_rank = rw (e, z) at g in
            let q : a.him + k + 1 ≡ a.him + 1 = omega arith in
            after rs (visit-found r a e n (some-eq p))
            ∙ rw (q, z)
                (visit_all-known words rs
                  (record (counted a) { me = some (a.him + 1); him = a.him + 1 }) (a.him + 1) refl f
                  is hs frs)
        | inr (k', s) ↦
            let g' : get_elem? (others root rs) k' ≡ some my_rank = rw (e, s) at g in
            let a1 = record (counted a) { him = a.him + 1 } in
            let q : a.him + k + 1 ≡ a.him + 1 + k' + 1 = omega arith in
            after rs (visit-before r a e n (All-others root (λ x. r < x) rs k' i g'))
            ∙ after rs (forward-other r a1 (rw n (child-none (a.him + 1))))
            ∙ rw (q, s) (visit_all-unknown rs a1 k' n g' f is hs frs)
      ])
    ]
