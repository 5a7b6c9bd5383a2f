-- ===== src/Cache/Evict.antt =====
-- The tile that a call of do_cache_buf_referenced of Buf2Cache/buf2cache.c evicts.
use mathlib.Core.Path.{subst}
use dague_hsa.Prelude.{
  ℕ, zero, suc, ◌+◌, ◌≤◌, ◌<◌, ◌≡◌, refl, sym, ap, ◌∙◌, arith, true, false, Option, some, none,
  List, [], ◌∷◌, if◌then◌else◌, ◌==◌, ltb, leb, Bool-cases, inl, inr, ==_iff, length, get_elem?,
  count_p, SameElements,
}
use dague_hsa.Cache.Slots.{Slot, has_tile, empty_none}
use dague_hsa.Cache.Recent.{Ordered, is_slot, is_slot-eq, no_older}
use dague_hsa.Cache.Queries.{tiles_of, is_member, member-count}
use dague_hsa.Cache.Lru.{get-count, same-length}

-- what a cache of k + 1 tiles loses by a reference to t: nothing if it holds t, else the last tile
abbrev pub lost : (k t : ℕ) → List ℕ → Option ℕ
lost k t tiles = if is_member t tiles then none else get_elem? tiles k

get-tile : (xs : List Slot) (i t a : ℕ) → get_elem? xs i ≡ some (t, a) → 0 < count_p (has_tile t) xs
get-tile [] i t a g = cc
get-tile (y ∷ xs) zero t a g =
    let e : y ≡ (t, a) = cc in
    let here : (y.0 == t) ≡ true = (==_iff _ _).1 (ap (λ (r : Slot). r.0) e) in
    rw here (omega arith)
get-tile (y ∷ xs) (suc i) t a g = let r = get-tile xs i t a g in omega arith

get-short : (ys : List Slot) (k : ℕ) → length ys ≤ k → get_elem? (tiles_of ys) k ≡ none
get-short [] k h = refl
get-short (y ∷ ys) zero h = absurd (omega arith)
get-short (y ∷ ys) (suc k) h = get-short ys k (omega arith)

get-oldest :
    (x : Slot) (k : ℕ) (ys : List Slot)
    → Ordered ys
    → length ys ≡ suc k
    → 0 < count_p (is_slot x) ys
    → count_p (λ e. ltb e.1 x.1) ys ≡ 0
    → get_elem? (tiles_of ys) k ≡ some x.0
get-oldest x k [] o l h z = absurd (omega arith)
get-oldest x zero (y ∷ ys) o l h z = elim (Bool-cases (is_slot x y)) [
  | inl e ↦ ap (λ (r : Slot). some r.0) (is_slot-eq x y e)
  | inr e ↦
      let none_left = empty_none (is_slot x) ys (omega arith) in
      let h' : 1 ≤ 0 + count_p (is_slot x) ys = rw e at h in absurd (omega arith)
]
get-oldest x (suc k) (y ∷ ys) (a, (b, o)) l h z = elim (Bool-cases (is_slot x y)) [
  | inl e ↦
      let a' : count_p (λ s. leb x.1 s.1) ys ≡ 0 =
        subst (λ (r : Slot). count_p (λ s. leb r.1 s.1) ys ≡ 0) (is_slot-eq x y e) a in
      let none_left = no_older x.1 ys (omega arith) a' in absurd (omega arith)
  | inr e ↦
      let h' : 1 ≤ 0 + count_p (is_slot x) ys = rw e at h in
      get-oldest x k ys o (omega arith) (omega arith) (omega arith)
]

module _ (k t : ℕ) (xs ys : List Slot) (same : SameElements xs ys) where
  pub found-lost : (i a : ℕ) → get_elem? xs i ≡ some (t, a) → none ≡ lost k t (tiles_of ys)
  found-lost i a g =
      let inside = subst (λ (c : ℕ). 0 < c) (same (has_tile t)) (get-tile xs i t a g) in
      let there : ltb 0 (count_p (has_tile t) ys) ≡ true = ground arith in
      rw (member-count t ys, there) refl

  absent : count_p (has_tile t) xs ≡ 0 → is_member t (tiles_of ys) ≡ false
  absent z =
      let z' = sym (same (has_tile t)) ∙ z in
      let e : ltb 0 (count_p (has_tile t) ys) ≡ false = ground arith in member-count t ys ∙ e

  pub room-lost : length xs ≤ k → count_p (has_tile t) xs ≡ 0 → none ≡ lost k t (tiles_of ys)
  room-lost l z =
      let l' = same-length xs ys same in rw (absent z) (sym (get-short ys k (omega arith)))

  pub full-lost :
      (i : ℕ) (x : Slot)
      → Ordered ys
      → length xs ≡ suc k
      → count_p (has_tile t) xs ≡ 0
      → get_elem? xs i ≡ some x
      → count_p (λ e. ltb e.1 x.1) xs ≡ 0
      → some x.0 ≡ lost k t (tiles_of ys)
  full-lost i x o l z g least =
      let l' = same-length xs ys same in
      let inside = subst (λ (c : ℕ). 0 < c) (same (is_slot x)) (get-count xs i x g) in
      rw (absent z)
        (sym (get-oldest x k ys o (omega arith) inside (sym (same (λ e. ltb e.1 x.1)) ∙ least)))
