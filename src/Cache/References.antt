-- ===== src/Cache/References.antt =====
-- Calls of cache_buf_referenced of Buf2Cache/buf2cache.c one after the other, on a cache and its
-- parents: each keeps the latest tiles.
use dague_hsa.Outcome.{Outcome, ok, ◌>>=◌}
use dague_hsa.Prelude.{
  ℕ, zero, suc, ◌≡◌, refl, ap, ◌∙◌, arith, false, not, Option, none, List, [], ◌∷◌, ◌==◌, leb,
  Bool-cases, inl, inr, take, replicate, filter_p,
}
use dague_hsa.Cache.{
  Entry, Cache, empty_entry, cache_create, do_cache_buf_referenced, cache_buf_referenced,
}
use dague_hsa.Cache.Slots.{Slot}
use dague_hsa.Cache.Recent.{others_than}
use dague_hsa.Cache.Lru.{Keeps}
use dague_hsa.Cache.Evict.{lost}
use dague_hsa.Cache.Call.{touched, do_cache_buf_referenced-Called}
use dague_hsa.Cache.Latest.{without, latest, take-without, latest-Different}
use dague_hsa.Cache.Queries.{tiles_of}

-- the references of a history
abbrev pub refer : Cache → (history : List ℕ) → Outcome Cache
refer cache [] = ok cache
refer cache (t ∷ history) = do
  cache' ← refer cache history
  (cache'', old) ← cache_buf_referenced cache' t
  ok cache''

-- caches of some sizes, each with those behind it as its parents
abbrev pub build : (sizes : List ℕ) → Cache
build [] = []
build (size ∷ sizes) = cache_create 1 (build sizes) size

-- the sizes of the caches that `cache_create` makes
abbrev pub kept : List ℕ → List ℕ
kept sizes = filter_p (λ size. not (leb size 1)) sizes

-- A cache of this size holds the latest tiles of the history.
abbrev pub IsRecent : (history : List ℕ) → ℕ → List Entry → Type 0
IsRecent history zero entries = ⊥
IsRecent history (suc k) entries =
    (ys : List Slot) × Keeps (suc k) entries ys × (tiles_of ys ≡ take (suc k) (latest history))

abbrev pub AreRecent : (history : List ℕ) → List ℕ → Cache → Type 0
AreRecent history [] [] = Unit
AreRecent history [] (entries ∷ parent) = ⊥
AreRecent history (size ∷ sizes) [] = ⊥
AreRecent history (size ∷ sizes) (entries ∷ parent) =
    IsRecent history size entries × AreRecent history sizes parent

tiles_of-take : (n : ℕ) (ys : List Slot) → tiles_of (take n ys) ≡ take n (tiles_of ys)
tiles_of-take zero ys = refl
tiles_of-take (suc n) [] = refl
tiles_of-take (suc n) (y ∷ ys) = ap (λ (l : List ℕ). y.0 ∷ l) (tiles_of-take n ys)

tiles_of-others_than :
    (t : ℕ) (ys : List Slot) → tiles_of (others_than t ys) ≡ without t (tiles_of ys)
tiles_of-others_than t [] = refl
tiles_of-others_than t (y ∷ ys) = elim (Bool-cases (y.0 == t)) [
  | inl e ↦ rw e (tiles_of-others_than t ys)
  | inr e ↦ rw e (ap (λ (l : List ℕ). y.0 ∷ l) (tiles_of-others_than t ys))
]

pub IsRecent-next :
    (t k : ℕ) (history : List ℕ) (entries : List Entry)
    → IsRecent history (suc k) entries
    → (entries' : List Entry) × (old : Option ℕ) × (do_cache_buf_referenced entries t
        ≡ ok (entries', old))
      × IsRecent (t ∷ history) (suc k) entries'
      × (old ≡ lost k t (take (suc k) (latest history)))
IsRecent-next t k history entries (ys, keeps, e) =
    let (entries', old, age, called, keeps', out) =
      do_cache_buf_referenced-Called k t entries ys keeps in
    (
      entries',
      old,
      called,
      (
        touched (suc k) t age ys,
        keeps',
        ap (λ (l : List ℕ). t ∷ l)
            (tiles_of-take k (others_than t ys)
              ∙ ap (take k) (tiles_of-others_than t ys ∙ ap (without t) e)
              ∙ take-without k t (latest history) (latest-Different history)),
      ),
      out ∙ ap (lost k t) e,
    )

pub AreRecent-next :
    (t : ℕ) (history sizes : List ℕ) (cache : Cache)
    → AreRecent history sizes cache
    → (cache' : Cache) × (old : Option ℕ) × (cache_buf_referenced cache t ≡ ok (cache', old))
      × AreRecent (t ∷ history) sizes cache'
unfolding cache_buf_referenced
AreRecent-next t history [] [] r = ([], none, refl, tt)
AreRecent-next t history [] (entries ∷ parent) r = absurd r
AreRecent-next t history (size ∷ sizes) [] r = absurd r
AreRecent-next t history (zero ∷ sizes) (entries ∷ parent) (r, rs) = absurd r
AreRecent-next t history (suc k ∷ sizes) (entries ∷ parent) (r, rs) =
    let (entries', old, e, r', out) = IsRecent-next t k history entries r in
    let (parent', old', f, rs') = AreRecent-next t history sizes parent rs in
    (entries' ∷ parent', old, rw (e, f) refl, (r', rs'))

created : (size : ℕ) → leb size 1 ≡ false → IsRecent [] size (replicate size empty_entry)
created zero e = absurd (ground arith)
created (suc k) e = (
  [],
  record {
    slots = [];
    room = suc k;
    laid = refl;
    size = omega arith;
    same = λ p. refl;
    ordered = tt;
  },
  refl,
)

build-AreRecent : (sizes : List ℕ) → AreRecent [] (kept sizes) (build sizes)
unfolding cache_create
build-AreRecent [] = tt
build-AreRecent (size ∷ sizes) = elim (Bool-cases (leb size 1)) [
  | inl e ↦ rw e (build-AreRecent sizes)
  | inr e ↦ rw e (created size e, build-AreRecent sizes)
]

pub refer-AreRecent :
    (sizes history : List ℕ)
    → (cache : Cache) × (refer (build sizes) history ≡ ok cache)
      × AreRecent history (kept sizes) cache
refer-AreRecent sizes [] = (build sizes, refl, build-AreRecent sizes)
refer-AreRecent sizes (t ∷ history) =
    let (cache, e, r) = refer-AreRecent sizes history in
    let (cache', old, f, r') = AreRecent-next t history (kept sizes) cache r in
    (cache', rw (e, f) refl, r')
