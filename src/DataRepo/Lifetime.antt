-- ===== src/DataRepo/Lifetime.antt =====
-- The life of an entry of include/datarepo.h under any sequence of calls: what the comment before
-- `data_repo_entry` promises.
use mathlib.Core.Option
use dague_hsa.Prelude.{
  ℕ, suc, ◌+◌, ◌^◌, ◌<◌, ◌≤◌, ◌≡◌, ◌↔◌, refl, Option, none, some, List, [], ◌∷◌, arith,
  if◌then◌else◌, Option-cases, inl, inr, Bool-cases,
}
use dague_hsa.Prelude.Int.{ℤ, ◌==ℤ◌, ==ℤ_iff}
use dague_hsa.DataRepo.{
  Repo, create_nothreadsafe, lookup_entry_and_create, entry_used_once, entry_addto_usage_limit,
  lookup_entry, head_of, find_entry,
}
use dague_hsa.DataRepo.Counters.{State, collect, retain, spend, raise}
use dague_hsa.DataRepo.Shape.{
  IsRepo, create_nothreadsafe-IsRepo, lookup_entry_and_create-IsRepo, entry_used_once-IsRepo,
  entry_addto_usage_limit-IsRepo, head_of-cases, get_elem?-replicate,
}
use dague_hsa.DataRepo.Lookup.{
  state_at, state_at-create, state_at-used_once, state_at-addto_usage_limit, change,
}

-- the calls that change the table, as any thread may make them
pub data Call : Type 0 where
  create : ℤ → Call
  used : ℤ → Call
  addto : ℤ → ℕ → Call

unfoldable pub step : Repo → Call → Option Repo
step r (create k) = Option.map (λ p. p.1) (lookup_entry_and_create r k)
step r (used k) = entry_used_once r k
step r (addto k n) = entry_addto_usage_limit r k n

unfoldable pub run : Repo → List Call → Option Repo
run r [] = some r
run r (c ∷ cs) = elim (step r c) [ none ↦ none | some r' ↦ run r' cs ]

-- what the calls made for one key add up to
pub record Tally : Type 0 where
  pub creates : ℕ
  pub uses : ℕ
  pub ends : ℕ
  pub limits : ℕ

unfoldable pub post : ℤ → Tally → Call → Tally
post k t (create j) = if j ==ℤ k then record t { creates = t.creates + 1 } else t
post k t (used j) = if j ==ℤ k then record t { uses = t.uses + 1 } else t
post k t (addto j n) = if j ==ℤ k then record t { ends = t.ends + 1; limits = t.limits + n } else t

unfoldable pub tally : ℤ → Tally → List Call → Tally
tally k t [] = t
tally k t (c ∷ cs) = tally k (post k t c) cs

abbrev pub no_calls : Tally
no_calls = record { creates = 0; uses = 0; ends = 0; limits = 0 }

-- No counter of the source wraps.
abbrev pub IsSmall : Tally → Type 0
IsSmall t = (t.creates < 2 ^ 32) × (t.uses < 2 ^ 32) × (t.limits < 2 ^ 32)

-- The counters of a key agree with the calls made for it.
abbrev pub Agrees : State → Tally → Type 0
Agrees none t = (t.creates ≡ t.ends) × (t.uses ≡ t.limits)
Agrees (some c) t =
    (t.creates ≡ t.ends + c.retained)
    × (t.uses + c.limit ≡ t.limits + c.used)
    × (c.used ≤ t.uses)
    × (c.limit ≤ t.limits)
    × (collect c ≡ some c)

retain-Agrees :
    (s : State) (t : Tally)
    → IsSmall (record t { creates = t.creates + 1 })
    → Agrees s t
    → Agrees (some (retain s)) (record t { creates = t.creates + 1 })
unfolding retain collect
retain-Agrees none t b a = ground arith
retain-Agrees (some c) t b a = ground arith

spend-Agrees :
    (s s' : State) (t : Tally)
    → IsSmall (record t { uses = t.uses + 1 })
    → spend s ≡ some s'
    → Agrees s t
    → Agrees s' (record t { uses = t.uses + 1 })
unfolding spend collect
spend-Agrees none s' t b e a = ground arith
spend-Agrees (some c) none t b e a = ground arith
spend-Agrees (some c) (some d) t b e a = ground arith

raise-Agrees :
    (n : ℕ) (s s' : State) (t : Tally)
    → IsSmall (record t { ends = t.ends + 1; limits = t.limits + n })
    → raise n s ≡ some s'
    → Agrees s t
    → Agrees s' (record t { ends = t.ends + 1; limits = t.limits + n })
unfolding raise collect
raise-Agrees n none s' t b e a = ground arith
raise-Agrees n (some c) none t b e a = ground arith
raise-Agrees n (some c) (some d) t b e a = ground arith

tally_mono : (k : ℤ) (t : Tally) (cs : List Call) → IsSmall (tally k t cs) → IsSmall t
unfolding tally post
tally_mono k t [] b = b
tally_mono k t (create j ∷ cs) b = ground (arith, tally_mono k (post k t (create j)) cs b)
tally_mono k t (used j ∷ cs) b = ground (arith, tally_mono k (post k t (used j)) cs b)
tally_mono k t (addto j n ∷ cs) b = ground (arith, tally_mono k (post k t (addto j n)) cs b)

-- Every call that succeeds keeps the invariant of the table: each bucket knows its size, and no key
-- stands twice in a bucket.
pub step-IsRepo : (r : Repo) (c : Call) (r' : Repo) → IsRepo r → step r c ≡ some r' → IsRepo r'
unfolding step
step-IsRepo r (create k) r' v e = elim (Option-cases (lookup_entry_and_create r k)) [
  | inl f ↦ ground arith
  | inr ((x, q), f) ↦ ground (arith, lookup_entry_and_create-IsRepo r k x q v f)
]
step-IsRepo r (used k) r' v e = entry_used_once-IsRepo r k r' v e
step-IsRepo r (addto k n) r' v e = entry_addto_usage_limit-IsRepo r k n r' v e

-- From the equation of a call that may fail, what a call that succeeded has done.
succeeded {ℓ} :
    {A : Type ℓ} (f : A → State) (g : State → State) (o : Option A) (t : Option State) (a : A)
    → Option.map f o ≡ Option.map g t
    → o ≡ some a
    → (s : State) × (t ≡ some s) × (f a ≡ g s)
succeeded f g o none a e p = absurd (none-ne-some (rw p at e))
  where
    none-ne-some : some (f a) ≡ none → ⊥
    none-ne-some q = cc
succeeded f g o (some s) a e p = (s, refl, some-eq (rw p at e))
  where
    some-eq : some (f a) ≡ some (g s) → f a ≡ g s
    some-eq q = cc

step-Agrees :
    (r : Repo) (c : Call) (r' : Repo) (k : ℤ) (t : Tally)
    → IsRepo r
    → step r c ≡ some r'
    → IsSmall (post k t c)
    → Agrees (state_at r k) t
    → Agrees (state_at r' k) (post k t c)
unfolding step post
step-Agrees r (create j) r' k t v e b a = elim (Option-cases (lookup_entry_and_create r j)) [
  | inl f ↦ ground arith
  | inr ((x, q), f) ↦ elim (Bool-cases (j ==ℤ k)) [
    | inl same ↦
        ground (arith, state_at-create r j k v x q f, ==ℤ_iff j k, retain-Agrees (state_at r j) t)
    | inr other ↦ ground (arith, state_at-create r j k v x q f)
  ]
]
step-Agrees r (used j) r' k t v e b a =
    let (s, p, q) =
      succeeded (λ x. state_at x k) (λ s. change j k s (state_at r k)) (entry_used_once r j)
        (spend (state_at r j)) r' (state_at-used_once r j k v) e in
    elim (Bool-cases (j ==ℤ k)) [
      | inl same ↦ ground (arith, q, p, ==ℤ_iff j k, spend-Agrees (state_at r j) s t)
      | inr other ↦ ground (arith, q)
    ]
step-Agrees r (addto j n) r' k t v e b a =
    let (s, p, q) =
      succeeded (λ x. state_at x k) (λ s. change j k s (state_at r k))
        (entry_addto_usage_limit r j n) (raise n (state_at r j)) r'
        (state_at-addto_usage_limit r j k v n) e in
    elim (Bool-cases (j ==ℤ k)) [
      | inl same ↦ ground (arith, q, p, ==ℤ_iff j k, raise-Agrees n (state_at r j) s t)
      | inr other ↦ ground (arith, q)
    ]

pub run-Agrees :
    (r : Repo) (cs : List Call) (r' : Repo) (k : ℤ) (t : Tally)
    → IsRepo r
    → run r cs ≡ some r'
    → IsSmall (tally k t cs)
    → Agrees (state_at r k) t
    → Agrees (state_at r' k) (tally k t cs)
unfolding run tally
run-Agrees r [] r' k t v e b a = ground arith
run-Agrees r (c ∷ cs) r' k t v e b a = elim (Option-cases (step r c)) [
  | inl f ↦ ground arith
  | inr (q, f) ↦
      run-Agrees q cs r' k (post k t c) (step-IsRepo r c q v f) (ground arith) b
        (step-Agrees r c q k t v f (tally_mono k (post k t c) cs b) a)
]

create_nothreadsafe-empty :
    (hashsize nbdata : ℕ) (k : ℤ) → state_at (create_nothreadsafe hashsize nbdata) k ≡ none
unfolding create_nothreadsafe lookup_entry head_of find_entry
create_nothreadsafe-empty n d k = elim (head_of-cases (create_nothreadsafe n d) k) [
  | inl f ↦ ground arith
  | inr (b, h, f, g, q) ↦
      ground (arith, get_elem?-replicate (suc n) b (record { size = 0; entries = [] }) h q)
]

Agrees-iff :
    (s : State) (t : Tally) → Agrees s t → (s ≡ none) ↔ ((t.ends ≡ t.creates) × (t.uses ≡ t.limits))
unfolding collect
Agrees-iff none t a = ground arith
Agrees-iff (some c) t a = ground arith

-- Start with a new table of at least one bucket, and make any calls that all succeed, with fewer
-- than 2^32 creations, uses and units of usage limit for the key. Then the key has no entry
-- exactly when `addto_usage_limit` has been called as often as `lookup_entry_and_create` and
-- `used_once` as often as the limits add up to.
pub run-collects :
    (hashsize nbdata : ℕ) (cs : List Call) (r : Repo) (k : ℤ)
    → 0 < hashsize
    → run (create_nothreadsafe hashsize nbdata) cs ≡ some r
    → IsSmall (tally k no_calls cs)
    → let t = tally k no_calls cs in
      (state_at r k ≡ none) ↔ ((t.ends ≡ t.creates) × (t.uses ≡ t.limits))
run-collects n d cs r k p e b = Agrees-iff (state_at r k) (tally k no_calls cs) (
    run-Agrees (create_nothreadsafe n d) cs r k no_calls (create_nothreadsafe-IsRepo n d p) e b
      (rw (create_nothreadsafe-empty n d k) (refl, refl)))
