-- ===== src/Cache.antt =====
-- Buf2Cache/buf2cache.c: a model of the caches of a core, which tells the tiles that are likely to be
-- in them. A call is taken as one step: no other thread works on the cache while it runs, so that no
-- lock is held, every compare-and-swap succeeds and what is read again has not changed. An address of
-- a tile is a number, and is not NULL.
pub mod Slots
pub mod Recent
pub mod Lru
pub mod Call
pub mod Queries
pub mod Evict
pub mod Latest
pub mod References
pub mod History
mod Tests
use mathlib.Core.Option
use dague_hsa.Outcome.{Outcome, ok, fault, ◌>>=◌}
use dague_hsa.Prelude.{
  ℕ, ◌+◌, Bool, true, false, Option, none, some, List, [], ◌∷◌, ◌==◌, ltb, leb, if◌then◌else◌,
  length, get_elem?, set, replicate,
}

-- `cache_entry_t`, without its lock. The code's ages are 0 or negative: `age` is the negation, so
-- that a younger entry has the larger number. It does not reach 2^63, as each call adds 1 at most. A
-- NULL pointer is none.
pub record Entry : Type 0 where
  pub tile_ptr : Option ℕ
  pub age : ℕ

-- what `calloc` leaves
abbrev pub empty_entry : Entry
empty_entry = record { tile_ptr = none; age = 0 }

-- `cache_t`, a cache and its parents: the entries of each, as many as its `tile_capacity`
abbrev pub Cache : Type 0
Cache = List (List Entry)

-- `cache_create`
unfoldable pub cache_create : (core_count : ℕ) → Cache → (tile_capacity : ℕ) → Cache
cache_create core_count parent tile_capacity =
    if leb tile_capacity 1 then parent else replicate tile_capacity empty_entry ∷ parent

-- The locals of the loop of `do_cache_buf_referenced`: `oldest_elem` and `oldest_age`, which is 1 as
-- long as there is none, `youngest_age`, `found_elem` and `i`.
pub record Scan : Type 0 where
  pub oldest : Option (ℕ × ℕ)
  pub youngest_age : ℕ
  pub found_elem : Option ℕ
  pub i : ℕ

abbrev pub start : Scan
start = record { oldest = none; youngest_age = 0; found_elem = none; i = 0 }

unfoldable pub is_older : ℕ → Option (ℕ × ℕ) → Bool
is_older age none = true
is_older age (some (elem, oldest_age)) = ltb age oldest_age

-- the body of the loop for an entry that is not empty
unfoldable pub look : (tile_ptr p age : ℕ) → Scan → Scan
look tile_ptr p age s = record {
  oldest = if is_older age s.oldest then some (s.i, age) else s.oldest;
  youngest_age = if ltb s.youngest_age age then age else s.youngest_age;
  found_elem = if p == tile_ptr then some s.i else s.found_elem;
  i = s.i + 1;
}

-- the loop
unfoldable pub scan : (tile_ptr : ℕ) → List Entry → Scan → Scan
scan tile_ptr [] s = s
scan tile_ptr (cur ∷ entries) s = elim cur.tile_ptr [
  | none ↦ s
  | some p ↦ scan tile_ptr entries (look tile_ptr p cur.age s)
]

-- `do_cache_buf_referenced` after its loop: the entries after the call and the tile that was evicted,
-- if one was. It faults where the code would evict through a NULL `oldest_elem`.
unfoldable pub update : List Entry → (tile_ptr : ℕ) → Scan → Outcome (List Entry × Option ℕ)
update entries tile_ptr s =
    let youngest : Entry = record { tile_ptr = some tile_ptr; age = s.youngest_age + 1 } in
    elim s.found_elem [
      | some elem ↦ ok (set entries elem youngest, none)
      | none ↦
          if ltb s.i (length entries) then ok (set entries s.i youngest, none) else elim s.oldest [
            | none ↦ fault
            | some (elem, oldest_age) ↦ elim (get_elem? entries elem) [
              | none ↦ fault
              | some old ↦ ok (set entries elem youngest, old.tile_ptr)
            ]
          ]
    ]

unfoldable pub do_cache_buf_referenced : List Entry → ℕ → Outcome (List Entry × Option ℕ)
do_cache_buf_referenced entries tile_ptr = update entries tile_ptr (scan tile_ptr entries start)

-- `cache_buf_referenced`: the first pass of its loop succeeds, and what the parents evict is dropped.
unfoldable pub cache_buf_referenced : Cache → ℕ → Outcome (Cache × Option ℕ)
cache_buf_referenced [] tile_ptr = ok ([], none)
cache_buf_referenced (entries ∷ parent) tile_ptr = do
  (entries', old) ← do_cache_buf_referenced entries tile_ptr
  (parent', dropped) ← cache_buf_referenced parent tile_ptr
  ok (entries' ∷ parent', old)

-- `cache_buf_isLocal`
unfoldable pub cache_buf_is_local : List Entry → ℕ → Bool
cache_buf_is_local [] tile_ptr = false
cache_buf_is_local (cur ∷ entries) tile_ptr = elim cur.tile_ptr [
  | none ↦ false
  | some p ↦ if p == tile_ptr then true else cache_buf_is_local entries tile_ptr
]

-- `cache_buf_distance`
unfoldable pub cache_buf_distance : Cache → ℕ → ℕ
cache_buf_distance [] tile_ptr = 0
cache_buf_distance (entries ∷ parent) tile_ptr =
    if cache_buf_is_local entries tile_ptr then 0 else cache_buf_distance parent tile_ptr + 1

-- the first loop of `cache_buf_age`: `abs_age`, which is 1 as long as there is none
unfoldable pub abs_age_of : List Entry → ℕ → Option ℕ → Option ℕ
abs_age_of [] tile_ptr abs_age = abs_age
abs_age_of (cur ∷ entries) tile_ptr abs_age = elim cur.tile_ptr [
  | none ↦ abs_age
  | some p ↦ abs_age_of entries tile_ptr (if p == tile_ptr then some cur.age else abs_age)
]

-- the second loop: how many entries are younger
unfoldable pub count_younger : List Entry → (abs_age : ℕ) → ℕ
count_younger [] abs_age = 0
count_younger (cur ∷ entries) abs_age =
    let here = if ltb abs_age cur.age then 1 else 0 in
    elim cur.tile_ptr [ none ↦ here | some p ↦ here + count_younger entries abs_age ]

-- `cache_buf_age`, where none is -1
unfoldable pub cache_buf_age : List Entry → ℕ → Option ℕ
cache_buf_age entries tile_ptr =
    Option.map (λ abs_age. count_younger entries abs_age) (abs_age_of entries tile_ptr none)
