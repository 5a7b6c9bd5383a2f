-- ===== src/Cache/History.antt =====
-- What a cache of Buf2Cache/buf2cache.c and its parents hold after any references.
use dague_hsa.Outcome.{ok}
use dague_hsa.Prelude.{
  ℕ, zero, suc, ◌+◌, ◌≤◌, ◌≡◌, refl, ap, ◌∙◌, arith, false, List, [], ◌∷◌, if◌then◌else◌, leb, take,
}
use dague_hsa.Cache.{
  Entry, Cache, cache_create, cache_buf_referenced, cache_buf_is_local, cache_buf_distance,
  cache_buf_age,
}
use dague_hsa.Cache.Evict.{lost}
use dague_hsa.Cache.Latest.{latest}
use dague_hsa.Cache.Queries.{is_member, place_of, Keeps-is_local, Keeps-age}
use dague_hsa.Cache.References.{
  refer, build, kept, IsRecent, AreRecent, IsRecent-next, AreRecent-next, refer-AreRecent,
}

-- the number of caches before the first that holds x among its latest tiles
abbrev pub levels_to : (history : List ℕ) (x : ℕ) → List ℕ → ℕ
levels_to history x [] = 0
levels_to history x (size ∷ sizes) =
    if is_member x (take size (latest history)) then 0 else levels_to history x sizes + 1

IsRecent-is_local :
    (history : List ℕ) (size : ℕ) (entries : List Entry) (x : ℕ)
    → IsRecent history size entries
    → cache_buf_is_local entries x ≡ is_member x (take size (latest history))
IsRecent-is_local history zero entries x r = absurd r
IsRecent-is_local history (suc k) entries x (ys, keeps, e) =
    Keeps-is_local (suc k) x entries ys keeps ∙ ap (is_member x) e

IsRecent-age :
    (history : List ℕ) (size : ℕ) (entries : List Entry) (x : ℕ)
    → IsRecent history size entries
    → cache_buf_age entries x ≡ place_of x (take size (latest history))
IsRecent-age history zero entries x r = absurd r
IsRecent-age history (suc k) entries x (ys, keeps, e) =
    Keeps-age (suc k) x entries ys keeps ∙ ap (place_of x) e

AreRecent-distance :
    (history sizes : List ℕ) (cache : Cache) (x : ℕ)
    → AreRecent history sizes cache
    → cache_buf_distance cache x ≡ levels_to history x sizes
unfolding cache_buf_distance
AreRecent-distance history [] [] x r = refl
AreRecent-distance history [] (entries ∷ parent) x r = absurd r
AreRecent-distance history (size ∷ sizes) [] x r = absurd r
AreRecent-distance history (size ∷ sizes) (entries ∷ parent) x (r, rs) =
    rw (IsRecent-is_local history size entries x r, AreRecent-distance history sizes parent x rs)
      refl

-- After the references of any history, `cache_buf_distance` is the number of the caches before the
-- first one that has the tile among the latest of the history, as many as the cache holds, where the
-- caches are those that `cache_create` makes, with room for at least two tiles.
pub refer-distance :
    (sizes history : List ℕ)
    → (cache : Cache) × (refer (build sizes) history ≡ ok cache)
      × ((x : ℕ) → cache_buf_distance cache x ≡ levels_to history x (kept sizes))
refer-distance sizes history =
    let (cache, e, r) = refer-AreRecent sizes history in
    (cache, e, λ x. AreRecent-distance history (kept sizes) cache x r)

only-AreRecent :
    (history : List ℕ) (size : ℕ) (cache : Cache)
    → AreRecent history (size ∷ []) cache
    → (entries : List Entry) × (cache ≡ entries ∷ []) × IsRecent history size entries
only-AreRecent history size [] r = absurd r
only-AreRecent history size (entries ∷ []) (i, r) = (entries, refl, i)
only-AreRecent history size (entries ∷ (others ∷ parent)) (i, r) = absurd r

-- After the references of any history on a cache for at least two tiles, it holds exactly the latest
-- different tiles of the history, as many as there is room for: `cache_buf_isLocal` finds these, and
-- `cache_buf_age` is the number of those that were referenced after the tile, and -1 for the others.
pub refer-age :
    (size : ℕ) (history : List ℕ)
    → 2 ≤ size
    → (entries : List Entry) × (refer (cache_create 1 [] size) history ≡ ok (entries ∷ []))
      × ((x : ℕ)
          → (cache_buf_is_local entries x ≡ is_member x (take size (latest history)))
            × (cache_buf_age entries x ≡ place_of x (take size (latest history))))
refer-age size history h =
    let (cache, e, r) = refer-AreRecent (size ∷ []) history in
    let large : leb size 1 ≡ false = ground arith in
    let r' : AreRecent history (size ∷ []) cache = rw large at r in
    let (entries, f, i) = only-AreRecent history size cache r' in
    (
      entries,
      e ∙ ap ok f,
      λ x. (IsRecent-is_local history size entries x i, IsRecent-age history size entries x i),
    )

AreRecent-lost :
    (t k : ℕ) (history sizes : List ℕ) (cache : Cache)
    → AreRecent history (suc k ∷ sizes) cache
    → (cache' : Cache) × (cache_buf_referenced cache t
        ≡ ok (cache', lost k t (take (suc k) (latest history))))
unfolding cache_buf_referenced
AreRecent-lost t k history sizes [] r = absurd r
AreRecent-lost t k history sizes (entries ∷ parent) (r, rs) =
    let (entries', old, e, r', out) = IsRecent-next t k history entries r in
    let (parent', old', f, rs') = AreRecent-next t history sizes parent rs in
    (entries' ∷ parent', rw (e, f, out) refl)

-- After the references of any history, one more call of `cache_buf_referenced` on a cache for k + 1
-- tiles, at least two, with any parents returns the tile that it evicts: none if the cache holds the
-- tile or has room, and else the one of its tiles that was not referenced for the longest time.
pub refer-lost :
    (t k : ℕ) (sizes history : List ℕ)
    → 1 ≤ k
    → (cache : Cache) × (cache' : Cache) × (refer (build (suc k ∷ sizes)) history ≡ ok cache)
      × (cache_buf_referenced cache t ≡ ok (cache', lost k t (take (suc k) (latest history))))
refer-lost t k sizes history h =
    let (cache, e, r) = refer-AreRecent (suc k ∷ sizes) history in
    let large : leb (suc k) 1 ≡ false = ground arith in
    let r' : AreRecent history (suc k ∷ kept sizes) cache = rw large at r in
    let (cache', f) = AreRecent-lost t k history (kept sizes) cache r' in (cache, cache', e, f)
