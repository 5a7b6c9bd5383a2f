-- ===== src/DataRepo/Lookup.antt =====
-- The calls of include/datarepo.h against `Counters`: what each does to its key and to the others.
use mathlib.Core.Option
use dague_hsa.Prelude.{
  ℕ, ◌≡◌, refl, Option, none, some, arith, if◌then◌else◌, get_elem?, get_elem?-set_self,
  get_elem?-set_ne, Option-cases, inl, inr, ℕ_discrete, ap, ◌∙◌,
}
use dague_hsa.Prelude.Int.{ℤ, ◌==ℤ◌, ==ℤ_iff}
use dague_hsa.DataRepo.{
  Entry, Head, Repo, add32, sub32, find_entry, settle, create_in, use_in, addto_in, head_of,
  bucket_of, put_head, lookup_entry, is_finished, lookup_entry_and_create, entry_used_once,
  entry_addto_usage_limit,
}
use dague_hsa.DataRepo.Bucket.{find-key, find-store, find-unlink}
use dague_hsa.DataRepo.Counters.{State, counters, observe, collect, retain, spend, raise}
use dague_hsa.DataRepo.Shape.{IsBucket, IsRepo, head_of-cases, get_elem?-lt}

-- the counters of a key in a bucket
abbrev pub look : ℤ → Head → State
look k h = observe (find_entry k h.entries)

abbrev pub change : ℤ → ℤ → State → State → State
change k j new old = if k ==ℤ j then new else old

look-settle :
    (k j : ℤ) (e e' : Entry) (h : Head)
    → find_entry k h.entries ≡ some e
    → e'.key ≡ k
    → IsBucket h
    → look j (settle k e' h) ≡ change k j (collect (counters e')) (look j h)
unfolding settle is_finished collect
look-settle k j e e' h f p v =
    ground (arith, find-store k j e' h.entries e, find-unlink k j h.entries v.distinct)

pub look-create_in :
    (nb : ℕ) (k j : ℤ) (h : Head)
    → IsBucket h
    → look j (create_in nb k h).1 ≡ change k j (some (retain (look k h))) (look j h)
unfolding create_in retain find_entry
look-create_in nb k j h v = elim (Option-cases (find_entry k h.entries)) [
  | inl new ↦ ground arith
  | inr (e, old) ↦ ground (
    arith,
    find-key k h.entries e,
    find-store k j (record e { retained = add32 e.retained 1 }) h.entries e,
  )
]

pub look-use_in :
    (k j : ℤ) (h : Head)
    → IsBucket h
    → Option.map (look j) (use_in k h)
      ≡ Option.map (λ s. change k j s (look j h)) (spend (look k h))
unfolding use_in spend
look-use_in k j h v = elim (Option-cases (find_entry k h.entries)) [
  | inl new ↦ ground arith
  | inr (e, old) ↦ ground (
    arith,
    find-key k h.entries e,
    look-settle k j e (record e { usagecnt = add32 e.usagecnt 1 }) h,
  )
]

pub look-addto_in :
    (k j : ℤ) (n : ℕ) (h : Head)
    → IsBucket h
    → Option.map (look j) (addto_in k n h)
      ≡ Option.map (λ s. change k j s (look j h)) (raise n (look k h))
unfolding addto_in raise
look-addto_in k j n h v = elim (Option-cases (find_entry k h.entries)) [
  | inl new ↦ ground arith
  | inr (e, old) ↦ ground (
    arith,
    find-key k h.entries e,
    look-settle k j e (record e { usagelmt = add32 e.usagelmt n; retained = sub32 e.retained 1 }) h,
  )
]

-- the counters of a key in a repository
abbrev pub state_at : Repo → ℤ → State
state_at r k = elim (lookup_entry r k) [ none ↦ none | some found ↦ observe found ]

-- A change of one bucket that is right for a key there is right in the repository.
state_at-put_head :
    (r : Repo) (b : ℕ) (h h' : Head) (k j : ℤ) (s : State)
    → get_elem? r.heads b ≡ some h
    → bucket_of r.nbentries k ≡ some b
    → look j h' ≡ change k j s (look j h)
    → state_at (put_head r b h') j ≡ change k j s (state_at r j)
unfolding lookup_entry head_of
state_at-put_head r b h h' k j s f g l = elim (Option-cases (bucket_of r.nbentries j)) [
  | inl e ↦ ground (arith, ==ℤ_iff k j)
  | inr (c, e) ↦ elim (ℕ_discrete b c) [
    | yes p ↦ ground (arith, get_elem?-set_self r.heads b h' (get_elem?-lt r.heads b h f))
    | no p ↦ ground (arith, ==ℤ_iff k j, get_elem?-set_ne r.heads h' p)
  ]
]

state_at-bucket :
    (r : Repo) (b : ℕ) (h : Head) (k : ℤ)
    → get_elem? r.heads b ≡ some h
    → bucket_of r.nbentries k ≡ some b
    → state_at r k ≡ look k h
unfolding lookup_entry head_of
state_at-bucket r b h k f g = ground arith

state_at-fault : (r : Repo) (k : ℤ) → head_of r k ≡ none → state_at r k ≡ none
unfolding lookup_entry
state_at-fault r k f = ground arith

-- The same of a change that may fail.
state_at-put_head? :
    (r : Repo) (b : ℕ) (h : Head) (k j : ℤ) (o : Option Head) (t : Option State)
    → get_elem? r.heads b ≡ some h
    → bucket_of r.nbentries k ≡ some b
    → Option.map (look j) o ≡ Option.map (λ s. change k j s (look j h)) t
    → Option.map (λ h'. state_at (put_head r b h') j) o
      ≡ Option.map (λ s. change k j s (state_at r j)) t
state_at-put_head? r b h k j none none f g l = refl
state_at-put_head? r b h k j none (some s) f g l = cc
state_at-put_head? r b h k j (some h') none f g l = cc
state_at-put_head? r b h k j (some h') (some s) f g l =
    ap some (state_at-put_head r b h h' k j s f g (cc))

map-map {ℓ} :
    {A : Type ℓ} (g : Repo → A) (put : Head → Repo) (o : Option Head)
    → Option.map g (Option.map put o) ≡ Option.map (λ h. g (put h)) o
map-map g put none = refl
map-map g put (some h) = refl

entry_used_once-bucket :
    (r : Repo) (k : ℤ) (b : ℕ) (h : Head)
    → head_of r k ≡ some (b, h)
    → entry_used_once r k ≡ Option.map (put_head r b) (use_in k h)
unfolding entry_used_once
entry_used_once-bucket r k b h f = ground arith

entry_addto_usage_limit-bucket :
    (r : Repo) (k : ℤ) (n b : ℕ) (h : Head)
    → head_of r k ≡ some (b, h)
    → entry_addto_usage_limit r k n ≡ Option.map (put_head r b) (addto_in k n h)
unfolding entry_addto_usage_limit
entry_addto_usage_limit-bucket r k n b h f = ground arith

-- a call that changes one bucket, as `change` sees it
module _ (r : Repo) (k j : ℤ) (v : IsRepo r) where
  pub state_at-create :
      (e : Entry) (r' : Repo)
      → lookup_entry_and_create r k ≡ some (e, r')
      → state_at r' j ≡ change k j (some (retain (state_at r k))) (state_at r j)
  unfolding lookup_entry_and_create
  state_at-create e r' done = elim (head_of-cases r k) [
    | inl f ↦ ground arith
    | inr (b, h, f, g, q) ↦ ground (
      arith,
      state_at-bucket r b h k q g,
      state_at-put_head r b h (create_in r.nbdata k h).1 k j (some (retain (look k h))) q g
          (look-create_in r.nbdata k j h (v.buckets b h q)),
    )
  ]

  pub state_at-used_once :
      Option.map (λ r'. state_at r' j) (entry_used_once r k)
      ≡ Option.map (λ s. change k j s (state_at r j)) (spend (state_at r k))
  unfolding entry_used_once spend
  state_at-used_once = elim (head_of-cases r k) [
    | inl f ↦ ground (arith, state_at-fault r k f)
    | inr (b, h, f, g, q) ↦
        rw (entry_used_once-bucket r k b h f, state_at-bucket r b h k q g)
          (map-map (λ r'. state_at r' j) (put_head r b) (use_in k h)
            ∙ state_at-put_head? r b h k j (use_in k h) (spend (look k h)) q g
                (look-use_in k j h (v.buckets b h q)))
  ]

  pub state_at-addto_usage_limit :
      (n : ℕ)
      → Option.map (λ r'. state_at r' j) (entry_addto_usage_limit r k n)
        ≡ Option.map (λ s. change k j s (state_at r j)) (raise n (state_at r k))
  unfolding entry_addto_usage_limit raise
  state_at-addto_usage_limit n = elim (head_of-cases r k) [
    | inl f ↦ ground (arith, state_at-fault r k f)
    | inr (b, h, f, g, q) ↦
        rw (entry_addto_usage_limit-bucket r k n b h f, state_at-bucket r b h k q g)
          (map-map (λ r'. state_at r' j) (put_head r b) (addto_in k n h)
            ∙ state_at-put_head? r b h k j (addto_in k n h) (raise n (look k h)) q g
                (look-addto_in k j n h (v.buckets b h q)))
  ]
