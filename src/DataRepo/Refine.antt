-- ===== src/DataRepo/Refine.antt =====
-- The table of include/datarepo.h against a table of counters, for any sequence of calls.
use mathlib.Core.Option
use mathlib.Core.Path.{fun_ext}
use native.Mathlib.Nat.{mod-lt}
use dague_hsa.Prelude.{
  ℕ, zero, suc, ◌%◌, ◌^◌, ◌≤◌, ◌<◌, ◌≡◌, ◌≢◌, refl, ap, sym, Option, none, some, List, [], ◌∷◌,
  arith, Option-cases, inl, inr, get_elem?, length,
}
use dague_hsa.Prelude.Int.{ℤ, pos, negsuc}
use dague_hsa.DataRepo.{
  Repo, bucket_of, head_of, lookup_entry_and_create, entry_used_once, entry_addto_usage_limit,
}
use dague_hsa.DataRepo.Counters.{State, retain, spend, raise}
use dague_hsa.DataRepo.Shape.{IsRepo}
use dague_hsa.DataRepo.Lookup.{
  state_at, state_at-create, state_at-used_once, state_at-addto_usage_limit, change,
}
use dague_hsa.DataRepo.Lifetime.{Call, create, used, addto, step, run, step-IsRepo}

-- what a client sees: counters for each key
abbrev pub Table : Type 0
Table = ℤ → State

abbrev pub write : Table → ℤ → State → Table
write t k s j = change k j s (t j)

unfoldable pub spec_step : Table → Call → Option Table
spec_step t (create k) = some (write t k (some (retain (t k))))
spec_step t (used k) = Option.map (write t k) (spend (t k))
spec_step t (addto k n) = Option.map (write t k) (raise n (t k))

unfoldable pub spec_run : Table → List Call → Option Table
spec_run t [] = some t
spec_run t (c ∷ cs) = elim (spec_step t c) [ none ↦ none | some t' ↦ spec_run t' cs ]

-- The keys of the program are not negative.
abbrev pub IsKey : ℤ → Type 0
IsKey (pos n) = Unit
IsKey (negsuc n) = ⊥

abbrev pub HasKey : Call → Type 0
HasKey (create k) = IsKey k
HasKey (used k) = IsKey k
HasKey (addto k n) = IsKey k

abbrev pub HaveKeys : List Call → Type 0
HaveKeys [] = Unit
HaveKeys (c ∷ cs) = HasKey c × HaveKeys cs

get_elem?-some {ℓ} : {A : Type ℓ} (xs : List A) (i : ℕ) → i < length xs → get_elem? xs i ≢ none
get_elem?-some [] i h = absurd (omega arith)
get_elem?-some (x ∷ xs) zero h = λ e. cc
get_elem?-some (x ∷ xs) (suc i) h = get_elem?-some xs i (omega arith)

-- An `int` can number the buckets.
abbrev pub IsSmall : Repo → Type 0
IsSmall r = r.nbentries ≤ 2 ^ 31

head_of-some : (r : Repo) (k : ℤ) → IsRepo r → IsSmall r → IsKey k → head_of r k ≢ none
unfolding head_of bucket_of
head_of-some r (pos n) v w h =
    ground
      (arith, mod-lt n v.positive, v.positive, v.room, get_elem?-some r.heads (n % r.nbentries))
head_of-some r (negsuc n) v w h = absurd h

lookup_entry_and_create-some :
    (r : Repo) (k : ℤ) → IsRepo r → IsSmall r → IsKey k → lookup_entry_and_create r k ≢ none
unfolding lookup_entry_and_create
lookup_entry_and_create-some r k v w h = ground (arith, head_of-some r k v w h)

some_eq {ℓ} : {A : Type ℓ} (a b : A) → some a ≡ some b → a ≡ b
some_eq a b e = cc

not_both {ℓ κ} : {A : Type ℓ} {X : Type κ} (a : A) → none ≡ some a → X
not_both a e = absurd (cc)

same_table {ℓ} :
    {A : Type ℓ} (f : A → Table) (g : State → Table) (o : Option A) (t : Option State)
    → ((j : ℤ) → Option.map (λ a. f a j) o ≡ Option.map (λ s. g s j) t)
    → Option.map f o ≡ Option.map g t
same_table f g none none e = refl
same_table f g none (some s) e = not_both (g s (pos 0)) (e (pos 0))
same_table f g (some a) none e = not_both (f a (pos 0)) (sym (e (pos 0)))
same_table f g (some a) (some s) e = ap some (fun_ext λ j. some_eq (f a j) (g s j) (e j))

-- One call on a valid table does what the table of counters does, or both fail.
pub step-refines :
    (r : Repo) (c : Call)
    → IsRepo r
    → IsSmall r
    → HasKey c
    → Option.map state_at (step r c) ≡ spec_step (state_at r) c
unfolding step spec_step
step-refines r (create k) v w h = elim (Option-cases (lookup_entry_and_create r k)) [
  | inl f ↦ absurd (lookup_entry_and_create-some r k v w h f)
  | inr ((x, q), f) ↦ rw f (ap some (fun_ext λ j. state_at-create r k j v x q f))
]
step-refines r (used k) v w h =
    same_table state_at (write (state_at r) k) (entry_used_once r k) (spend (state_at r k))
      (λ j. state_at-used_once r k j v)
step-refines r (addto k n) v w h =
    same_table state_at (write (state_at r) k) (entry_addto_usage_limit r k n)
      (raise n (state_at r k)) (λ j. state_at-addto_usage_limit r k j v n)

-- A call keeps the number of buckets.
step-nbentries : (r : Repo) (c : Call) (r' : Repo) → step r c ≡ some r' → r'.nbentries ≡ r.nbentries
unfolding step lookup_entry_and_create entry_used_once entry_addto_usage_limit
step-nbentries r (create k) r' e = ground arith
step-nbentries r (used k) r' e = ground arith
step-nbentries r (addto k n) r' e = ground arith

-- With memory for every entry, any calls on non-negative keys, made on a valid table of at most 2^31
-- buckets, leave the counters that the same calls leave in the table of counters, and fail exactly
-- where those do.
pub run-refines :
    (r : Repo) (cs : List Call)
    → IsRepo r
    → IsSmall r
    → HaveKeys cs
    → Option.map state_at (run r cs) ≡ spec_run (state_at r) cs
unfolding run spec_run
run-refines r [] v w h = refl
run-refines r (c ∷ cs) v w h = elim (Option-cases (step r c)) [
  | inl f ↦ ground (arith, step-refines r c v w h.0)
  | inr (q, f) ↦
      let w' : IsSmall q = omega (arith, step-nbentries r c q f) in
      ground (arith, step-refines r c v w h.0, run-refines q cs (step-IsRepo r c q v f) w' h.1)
]
