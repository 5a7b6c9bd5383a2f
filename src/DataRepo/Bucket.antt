-- ===== src/DataRepo/Bucket.antt =====
-- The chain of one bucket of include/datarepo.h as a map from keys to entries.
use dague_hsa.Prelude.{◌+◌, ◌≡◌, refl, none, some, List, [], ◌∷◌, arith, if◌then◌else◌, length}
use dague_hsa.Prelude.Int.{ℤ, ◌==ℤ◌, ==ℤ_iff}
use dague_hsa.DataRepo.{Entry, find_entry, store_entry, unlink_entry}

-- No two entries of a bucket have one key.
abbrev pub KeysDistinct : List Entry → Type 0
KeysDistinct [] = Unit
KeysDistinct (e ∷ es) = (find_entry e.key es ≡ none) × KeysDistinct es

pub find-key : (k : ℤ) (es : List Entry) (e : Entry) → find_entry k es ≡ some e → e.key ≡ k
unfolding find_entry
find-key k [] e h = ground arith
find-key k (x ∷ es) e h = ground (arith, ==ℤ_iff x.key k, find-key k es e)

pub find-store :
    (k j : ℤ) (e' : Entry) (es : List Entry) (e : Entry)
    → find_entry k es ≡ some e
    → e'.key ≡ k
    → find_entry j (store_entry k e' es) ≡ (if k ==ℤ j then some e' else find_entry j es)
unfolding find_entry store_entry
find-store k j e' [] e h p = ground arith
find-store k j e' (x ∷ es) e h p =
    ground (
      arith,
      ==ℤ_iff x.key k,
      ==ℤ_iff x.key j,
      ==ℤ_iff k j,
      ==ℤ_iff e'.key j,
      find-store k j e' es e,
    )

pub find-unlink :
    (k j : ℤ) (es : List Entry)
    → KeysDistinct es
    → find_entry j (unlink_entry k es) ≡ (if k ==ℤ j then none else find_entry j es)
unfolding find_entry unlink_entry
find-unlink k j [] d = ground arith
find-unlink k j (x ∷ es) d =
    ground (arith, ==ℤ_iff x.key k, ==ℤ_iff x.key j, ==ℤ_iff k j, find-unlink k j es d.1)

pub store-KeysDistinct :
    (k : ℤ) (e' : Entry) (es : List Entry) (e : Entry)
    → find_entry k es ≡ some e
    → e'.key ≡ k
    → KeysDistinct es
    → KeysDistinct (store_entry k e' es)
unfolding find_entry store_entry
store-KeysDistinct k e' [] e h p d = tt
store-KeysDistinct k e' (x ∷ es) e h p d = ground (
  arith,
  ==ℤ_iff x.key k,
  ==ℤ_iff k x.key,
  find-store k x.key e' es e,
  store-KeysDistinct k e' es e,
)

pub unlink-KeysDistinct :
    (k : ℤ) (es : List Entry) → KeysDistinct es → KeysDistinct (unlink_entry k es)
unfolding find_entry unlink_entry
unlink-KeysDistinct k [] d = tt
unlink-KeysDistinct k (x ∷ es) d = ground (
  arith,
  ==ℤ_iff x.key k,
  ==ℤ_iff k x.key,
  find-unlink k x.key es d.1,
  unlink-KeysDistinct k es d.1,
)

pub length-store : (k : ℤ) (e' : Entry) (es : List Entry) → length (store_entry k e' es) ≡ length es
unfolding store_entry
length-store k e' [] = refl
length-store k e' (x ∷ es) = ground (arith, length-store k e' es)

pub length-unlink :
    (k : ℤ) (es : List Entry) (e : Entry)
    → find_entry k es ≡ some e
    → length (unlink_entry k es) + 1 ≡ length es
unfolding unlink_entry find_entry
length-unlink k [] e h = ground arith
length-unlink k (x ∷ es) e h = ground (arith, length-unlink k es e)
