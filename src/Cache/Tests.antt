-- ===== src/Cache/Tests.antt =====
-- Runs of Buf2Cache/buf2cache.c, and the theorems at a concrete history.
use dague_hsa.Outcome.{ok}
use dague_hsa.Prelude.{ℕ, ◌≡◌, refl, arith, some, List, [], ◌∷◌, take}
use dague_hsa.Cache.{
  Entry, Cache, cache_create, cache_buf_referenced, do_cache_buf_referenced, update, scan, look,
  is_older, cache_buf_is_local, cache_buf_distance, cache_buf_age, abs_age_of, count_younger,
}
use dague_hsa.Cache.Latest.{latest}
use dague_hsa.Cache.Queries.{is_member, place_of}
use dague_hsa.Cache.Evict.{lost}
use dague_hsa.Cache.References.{refer, build, kept}
use dague_hsa.Cache.History.{levels_to, refer-distance, refer-age, refer-lost}

-- The tiles 7, 8, 9, 7 and 5 in this order: 5 is the last.
abbrev history : List ℕ
history = 5 ∷ 7 ∷ 9 ∷ 8 ∷ 7 ∷ []

abbrev entry : (tile_ptr age : ℕ) → Entry
entry tile_ptr age = record { tile_ptr = some tile_ptr; age = age }

-- A cache of three tiles has lost 8.
abbrev of_three : List Entry
of_three = entry 7 4 ∷ entry 5 5 ∷ entry 9 3 ∷ []

refer-three : refer (cache_create 1 [] 3) history ≡ ok (of_three ∷ [])
unfolding cache_create cache_buf_referenced do_cache_buf_referenced update scan look is_older
refer-three = refl

nine_is_third : cache_buf_age of_three 9 ≡ some 2
unfolding cache_buf_age abs_age_of count_younger
nine_is_third = refl

-- One more reference to 8 evicts 9.
evicts_nine :
    cache_buf_referenced (of_three ∷ []) 8
    ≡ ok ((entry 7 4 ∷ entry 5 5 ∷ entry 8 6 ∷ []) ∷ [], some 9)
unfolding cache_buf_referenced do_cache_buf_referenced update scan look is_older
evicts_nine = refl

refer-distance_example :
    (cache : Cache) × (refer (build (2 ∷ 1 ∷ 3 ∷ [])) history ≡ ok cache)
    × ((x : ℕ) → cache_buf_distance cache x ≡ levels_to history x (kept (2 ∷ 1 ∷ 3 ∷ [])))
refer-distance_example = refer-distance (2 ∷ 1 ∷ 3 ∷ []) history

refer-age_example :
    (entries : List Entry) × (refer (cache_create 1 [] 3) history ≡ ok (entries ∷ []))
    × ((x : ℕ)
        → (cache_buf_is_local entries x ≡ is_member x (take 3 (latest history)))
          × (cache_buf_age entries x ≡ place_of x (take 3 (latest history))))
refer-age_example = refer-age 3 history (omega arith)

refer-lost_example :
    (cache : Cache) × (cache' : Cache) × (refer (build (3 ∷ 4 ∷ [])) history ≡ ok cache)
    × (cache_buf_referenced cache 8 ≡ ok (cache', lost 2 8 (take 3 (latest history))))
refer-lost_example = refer-lost 8 2 (4 ∷ []) history (omega arith)
