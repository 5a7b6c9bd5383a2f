-- ===== src/DataRepo.antt =====
-- include/datarepo.h: the hash table of task outputs, whose entries count the uses that are still
-- to come. Each call works under the lock of one bucket, so a call is one step of the model and
-- the calls of several threads are a sequence of steps. `calloc`, whose result the code does not
-- check, is taken to give memory.
pub mod Counters
pub mod Bucket
pub mod Lookup
pub mod Shape
pub mod Lifetime
pub mod Refine
mod Tests
use dague_hsa.Prelude.{
  ℕ, suc, ◌+◌, ◌-◌, ◌%◌, ◌^◌, Bool, true, false, ◌&&◌, Option, none, some, List, [], ◌∷◌, ◌==◌, ltb,
  if◌then◌else◌, get_elem?, set, replicate,
}
use dague_hsa.Prelude.Int.{ℤ, pos, negsuc, ◌==ℤ◌}

-- `data_repo_entry_t`: the data are the addresses that the task deposits (0 is NULL).
pub record Entry : Type 0 where
  pub usagecnt : ℕ
  pub usagelmt : ℕ
  pub retained : ℕ
  pub key : ℤ
  pub contents : List ℕ

-- `data_repo_head_t`, without the lock: it is held for the whole of each call.
pub record Head : Type 0 where
  pub size : ℕ
  pub entries : List Entry

-- `data_repo_t`
pub record Repo : Type 0 where
  pub nbentries : ℕ
  pub nbdata : ℕ
  pub heads : List Head

-- `uint32_t` addition and subtraction
abbrev pub add32 : ℕ → ℕ → ℕ
add32 a b = (a + b) % 2 ^ 32

abbrev pub sub32 : ℕ → ℕ → ℕ
sub32 a b = (a + 2 ^ 32 - b) % 2 ^ 32

-- `calloc` gives one head more than `hashsize`, all of them empty.
unfoldable pub create_nothreadsafe : ℕ → ℕ → Repo
create_nothreadsafe hashsize nbdata = record {
  nbentries = hashsize;
  nbdata = nbdata;
  heads = replicate (suc hashsize) (record { size = 0; entries = [] });
}

-- `key % nbentries` as an `int`: a division by 0, or a negative index, is a fault. A remainder of 2^31
-- or more becomes negative.
unfoldable pub bucket_of : ℕ → ℤ → Option ℕ
bucket_of n (pos k) = if n == 0 then none else if ltb (k % n) (2 ^ 31) then some (k % n) else none
bucket_of n (negsuc k) = if n == 0 then none else if suc k % n == 0 then some 0 else none

-- the walk along `next_entry`
unfoldable pub find_entry : ℤ → List Entry → Option Entry
find_entry k [] = none
find_entry k (e ∷ es) = if e.key ==ℤ k then some e else find_entry k es

-- the update of the entry that the walk has found
unfoldable pub store_entry : ℤ → Entry → List Entry → List Entry
store_entry k e' [] = []
store_entry k e' (e ∷ es) = if e.key ==ℤ k then e' ∷ es else e ∷ store_entry k e' es

-- `p->next_entry = e->next_entry`, or `first_entry = e->next_entry`
unfoldable pub unlink_entry : ℤ → List Entry → List Entry
unlink_entry k [] = []
unlink_entry k (e ∷ es) = if e.key ==ℤ k then es else e ∷ unlink_entry k es

-- `(e->usagelmt == e->usagecnt) && (0 == e->retained)`
unfoldable pub is_finished : Entry → Bool
is_finished e = e.usagelmt == e.usagecnt && e.retained == 0

-- After an update an entry that is finished leaves the bucket.
unfoldable pub settle : ℤ → Entry → Head → Head
settle k e h =
    if is_finished e
    then record { size = sub32 h.size 1; entries = unlink_entry k h.entries }
    else record h { entries = store_entry k e h.entries }

-- the locked section of `data_repo_lookup_entry_and_create`; `calloc` is taken to give the entry
unfoldable pub create_in : ℕ → ℤ → Head → Entry × Head
create_in nbdata k h = elim (find_entry k h.entries) [
  | some e ↦
      let e' : Entry = record e { retained = add32 e.retained 1 } in
      (e', record h { entries = store_entry k e' h.entries })
  | none ↦
      let e : Entry = record {
        usagecnt = 0;
        usagelmt = 0;
        retained = 1;
        key = k;
        contents = replicate nbdata 0;
      } in
      (e, record { size = add32 h.size 1; entries = e ∷ h.entries })
]

-- the locked section of `data_repo_entry_used_once`; `none` is the failed `assert`
unfoldable pub use_in : ℤ → Head → Option Head
use_in k h = elim (find_entry k h.entries) [
  | none ↦ none
  | some e ↦ some (settle k (record e { usagecnt = add32 e.usagecnt 1 }) h)
]

-- the locked section of `data_repo_entry_addto_usage_limit`; `none` is a failed `assert`
unfoldable pub addto_in : ℤ → ℕ → Head → Option Head
addto_in k n h = elim (find_entry k h.entries) [
  | none ↦ none
  | some e ↦
      if ltb 0 e.retained
      then some
          (settle k (record e { usagelmt = add32 e.usagelmt n; retained = sub32 e.retained 1 }) h)
      else none
]

-- `&repo->heads[h]`
unfoldable pub head_of : Repo → ℤ → Option (ℕ × Head)
head_of r k = elim (bucket_of r.nbentries k) [
  | none ↦ none
  | some b ↦ elim (get_elem? r.heads b) [ none ↦ none | some h ↦ some (b, h) ]
]

abbrev pub put_head : Repo → ℕ → Head → Repo
put_head r b h = record r { heads = set r.heads b h }

-- `data_repo_lookup_entry`: the outer `none` is a fault, the inner one is NULL.
unfoldable pub lookup_entry : Repo → ℤ → Option (Option Entry)
lookup_entry r k = elim (head_of r k) [ none ↦ none | some (b, h) ↦ some (find_entry k h.entries) ]

-- `data_repo_lookup_entry_and_create`
unfoldable pub lookup_entry_and_create : Repo → ℤ → Option (Entry × Repo)
lookup_entry_and_create r k = elim (head_of r k) [
  | none ↦ none
  | some (b, h) ↦ some ((create_in r.nbdata k h).0, put_head r b (create_in r.nbdata k h).1)
]

-- `data_repo_entry_used_once`
unfoldable pub entry_used_once : Repo → ℤ → Option Repo
entry_used_once r k = elim (head_of r k) [
  | none ↦ none
  | some (b, h) ↦ elim (use_in k h) [ none ↦ none | some h' ↦ some (put_head r b h') ]
]

-- `data_repo_entry_addto_usage_limit`
unfoldable pub entry_addto_usage_limit : Repo → ℤ → ℕ → Option Repo
entry_addto_usage_limit r k n = elim (head_of r k) [
  | none ↦ none
  | some (b, h) ↦ elim (addto_in k n h) [ none ↦ none | some h' ↦ some (put_head r b h') ]
]
