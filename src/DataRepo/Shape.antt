-- ===== src/DataRepo/Shape.antt =====
-- The representation invariant of include/datarepo.h, and the calls against it.
use dague_hsa.Prelude.{
  ℕ, zero, suc, ◌%◌, ◌^◌, ◌<◌, ◌≡◌, none, some, List, [], ◌∷◌, arith, length, get_elem?, set,
  replicate, length-set, get_elem?-set_self, get_elem?-set_ne, length-replicate, Option-cases, inl,
  inr, ◌⊎◌, ◌≤◌, sym, ◌∙◌, ℕ_discrete,
}
use dague_hsa.Prelude.Int.{ℤ}
use dague_hsa.DataRepo.{
  Entry, Head, Repo, add32, sub32, find_entry, settle, create_in, use_in, addto_in, head_of,
  bucket_of, put_head, create_nothreadsafe, lookup_entry_and_create, entry_used_once,
  entry_addto_usage_limit,
}
use dague_hsa.DataRepo.Bucket.{
  KeysDistinct, find-key, store-KeysDistinct, unlink-KeysDistinct, length-store, length-unlink,
}

-- The size of a bucket is the length of its chain, as a `uint32_t`, and its keys are distinct.
pub record IsBucket (h : Head) : Type 0 where
  pub sized : h.size ≡ length h.entries % 2 ^ 32
  pub distinct : KeysDistinct h.entries

pub settle-IsBucket :
    (k : ℤ) (e e' : Entry) (h : Head)
    → find_entry k h.entries ≡ some e
    → e'.key ≡ k
    → IsBucket h
    → IsBucket (settle k e' h)
unfolding settle
settle-IsBucket k e e' h f p v = ground (
  arith,
  length-store k e' h.entries,
  length-unlink k h.entries e,
  store-KeysDistinct k e' h.entries e,
  unlink-KeysDistinct k h.entries,
)

pub create_in-IsBucket : (nb : ℕ) (k : ℤ) (h : Head) → IsBucket h → IsBucket (create_in nb k h).1
unfolding create_in
create_in-IsBucket nb k h v = elim (Option-cases (find_entry k h.entries)) [
  | inl new ↦ ground arith
  | inr (e, old) ↦ ground (
    arith,
    find-key k h.entries e,
    length-store k (record e { retained = add32 e.retained 1 }) h.entries,
    store-KeysDistinct k (record e { retained = add32 e.retained 1 }) h.entries e,
  )
]

pub use_in-IsBucket : (k : ℤ) (h h' : Head) → IsBucket h → use_in k h ≡ some h' → IsBucket h'
unfolding use_in
use_in-IsBucket k h h' v done = elim (Option-cases (find_entry k h.entries)) [
  | inl new ↦ ground arith
  | inr (e, old) ↦ ground (
    arith,
    find-key k h.entries e,
    settle-IsBucket k e (record e { usagecnt = add32 e.usagecnt 1 }) h,
  )
]

pub addto_in-IsBucket :
    (k : ℤ) (n : ℕ) (h h' : Head) → IsBucket h → addto_in k n h ≡ some h' → IsBucket h'
unfolding addto_in
addto_in-IsBucket k n h h' v done = elim (Option-cases (find_entry k h.entries)) [
  | inl new ↦ ground arith
  | inr (e, old) ↦ ground (
    arith,
    find-key k h.entries e,
    settle-IsBucket k e (record e { usagelmt = add32 e.usagelmt n; retained = sub32 e.retained 1 })
        h,
  )
]

pub record IsRepo (r : Repo) : Type 0 where
  pub positive : 0 < r.nbentries
  pub room : r.nbentries ≤ length r.heads
  pub buckets : (b : ℕ) (h : Head) → get_elem? r.heads b ≡ some h → IsBucket h

pub get_elem?-lt {ℓ} :
    {A : Type ℓ} (xs : List A) (i : ℕ) (a : A) → get_elem? xs i ≡ some a → i < length xs
get_elem?-lt [] i a h = ground arith
get_elem?-lt (x ∷ xs) zero a h = omega arith
get_elem?-lt (x ∷ xs) (suc i) a h = omega (arith, get_elem?-lt xs i a h)

pub get_elem?-replicate {ℓ} :
    {A : Type ℓ} (n i : ℕ) (x a : A) → get_elem? (replicate n x) i ≡ some a → a ≡ x
get_elem?-replicate zero i x a h = ground arith
get_elem?-replicate (suc n) zero x a h = cc
get_elem?-replicate (suc n) (suc i) x a h = get_elem?-replicate n i x a h

pub create_nothreadsafe-IsRepo :
    (hashsize nbdata : ℕ) → 0 < hashsize → IsRepo (create_nothreadsafe hashsize nbdata)
unfolding create_nothreadsafe
create_nothreadsafe-IsRepo n d p = record {
  positive = p;
  room = omega (arith, length-replicate (suc n) no_entries);
  buckets = λ b h q. let e = get_elem?-replicate (suc n) b no_entries h q in rw e (omega arith);
}
  where
    no_entries : Head
    no_entries = record { size = 0; entries = [] }

pub put_head-IsRepo :
    (r : Repo) (b : ℕ) (h h' : Head)
    → get_elem? r.heads b ≡ some h
    → IsBucket h'
    → IsRepo r
    → IsRepo (put_head r b h')
put_head-IsRepo r b h h' f v' v = record {
  positive = v.positive;
  room = omega (arith, length-set r.heads b h', v.room);
  buckets = kept;
}
  where
    kept : (c : ℕ) (g : Head) → get_elem? (set r.heads b h') c ≡ some g → IsBucket g
    kept c g q = elim (ℕ_discrete b c) [
      | yes e ↦ ground (arith, get_elem?-set_self r.heads b h', get_elem?-lt r.heads b h)
      | no ne ↦ v.buckets c g (sym (get_elem?-set_ne r.heads h' ne) ∙ q)
    ]

-- A key has a bucket, or the call faults.
pub head_of-cases :
    (r : Repo) (k : ℤ)
    → (head_of r k ≡ none)
      ⊎ ((b : ℕ) × (h : Head) × (head_of r k ≡ some (b, h))
          × (bucket_of r.nbentries k ≡ some b)
          × (get_elem? r.heads b ≡ some h))
unfolding head_of
head_of-cases r k = elim (Option-cases (bucket_of r.nbentries k)) [
  | inl e ↦ inl (ground arith)
  | inr (b, e) ↦ elim (Option-cases (get_elem? r.heads b)) [
    | inl f ↦ inl (ground arith)
    | inr (h, f) ↦ inr (b, h, ground arith, e, f)
  ]
]

pub lookup_entry_and_create-IsRepo :
    (r : Repo) (k : ℤ) (e : Entry) (r' : Repo)
    → IsRepo r
    → lookup_entry_and_create r k ≡ some (e, r')
    → IsRepo r'
unfolding lookup_entry_and_create
lookup_entry_and_create-IsRepo r k e r' v done = elim (head_of-cases r k) [
  | inl f ↦ ground arith
  | inr (b, h, f, g, q) ↦ ground (
    arith,
    create_in-IsBucket r.nbdata k h (v.buckets b h q),
    put_head-IsRepo r b h (create_in r.nbdata k h).1 q
        (create_in-IsBucket r.nbdata k h (v.buckets b h q)) v,
  )
]

pub entry_used_once-IsRepo :
    (r : Repo) (k : ℤ) (r' : Repo) → IsRepo r → entry_used_once r k ≡ some r' → IsRepo r'
unfolding entry_used_once
entry_used_once-IsRepo r k r' v done = elim (head_of-cases r k) [
  | inl f ↦ ground arith
  | inr (b, h, f, g, q) ↦ elim (Option-cases (use_in k h)) [
    | inl u ↦ ground arith
    | inr (h', u) ↦
        ground (arith, put_head-IsRepo r b h h' q (use_in-IsBucket k h h' (v.buckets b h q) u) v)
  ]
]

pub entry_addto_usage_limit-IsRepo :
    (r : Repo) (k : ℤ) (n : ℕ) (r' : Repo)
    → IsRepo r
    → entry_addto_usage_limit r k n ≡ some r'
    → IsRepo r'
unfolding entry_addto_usage_limit
entry_addto_usage_limit-IsRepo r k n r' v done = elim (head_of-cases r k) [
  | inl f ↦ ground arith
  | inr (b, h, f, g, q) ↦ elim (Option-cases (addto_in k n h)) [
    | inl u ↦ ground arith
    | inr (h', u) ↦
        ground
          (arith, put_head-IsRepo r b h h' q (addto_in-IsBucket k n h h' (v.buckets b h q) u) v)
  ]
]
