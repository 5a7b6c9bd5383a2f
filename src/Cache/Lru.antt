-- ===== src/Cache/Lru.antt =====
-- One call of do_cache_buf_referenced of Buf2Cache/buf2cache.c on the tiles by their last reference.
use mathlib.Core.Path.{subst}
use dague_hsa.Prelude.{
  ℕ, zero, suc, ◌+◌, ◌≤◌, ◌<◌, ◌≡◌, refl, sym, ap, ◌∙◌, arith, true, some, List, [], ◌∷◌, ◌++◌,
  ◌==◌, ltb, leb, ==_iff, length, get_elem?, set, take, count_p, count_p-append, SameElements,
}
use dague_hsa.Cache.{Entry}
use dague_hsa.Cache.Slots.{Slot, lay, count_p-set, count_p-none, has_tile}
use dague_hsa.Cache.Recent.{
  others_than, Ordered, count_p-others, others_than-Ordered, others_than-none, others_than-same,
  is_slot, count_p-others_than, count_p-oldest,
}

-- Entries that hold the slots ys, in whatever order, and are n in number.
pub record Keeps (n : ℕ) (entries : List Entry) (ys : List Slot) : Type 0 where
  pub slots : List Slot
  pub room : ℕ
  pub laid : entries ≡ lay slots room
  pub size : length slots + room ≡ n
  pub same : SameElements slots ys
  pub ordered : Ordered ys

count_p-all : (ys : List Slot) → count_p (λ e. true) ys ≡ length ys
count_p-all [] = refl
count_p-all (y ∷ ys) = let r = count_p-all ys in omega arith

take-all : (k : ℕ) (ys : List Slot) → length ys ≤ k → take k ys ≡ ys
take-all zero [] h = refl
take-all zero (y ∷ ys) h = absurd (omega arith)
take-all (suc k) [] h = refl
take-all (suc k) (y ∷ ys) h = ap (λ (l : List Slot). y ∷ l) (take-all k ys (omega arith))

pub same-length : (xs ys : List Slot) → SameElements xs ys → length xs ≡ length ys
same-length xs ys s = sym (count_p-all xs) ∙ s (λ e. true) ∙ count_p-all ys

pub get-count :
    (xs : List Slot) (i : ℕ) (x : Slot) → get_elem? xs i ≡ some x → 0 < count_p (is_slot x) xs
get-count [] i x g = cc
get-count (y ∷ xs) zero x g =
    let e : y ≡ x = cc in
    let e0 : (y.0 == x.0) ≡ true = (==_iff _ _).1 (ap (λ (r : Slot). r.0) e) in
    let e1 : (y.1 == x.1) ≡ true = (==_iff _ _).1 (ap (λ (r : Slot). r.1) e) in
    rw (e0, e1) (omega arith)
get-count (y ∷ xs) (suc i) x g = let r = get-count xs i x g in omega arith

-- The new slot is younger than the others.
pub touched-Ordered :
    (t age : ℕ) (xs ys : List Slot)
    → SameElements xs ys
    → Ordered ys
    → count_p (λ e. ltb age e.1) xs ≡ 0
    → Ordered ((t, age + 1) ∷ others_than t ys)
touched-Ordered t age xs ys s o z =
    let z' = count_p-none (λ e. leb (age + 1) e.1) (λ e. ltb age e.1) (λ e h. ground arith) xs z in
    (
      count_p-others (λ e. leb (age + 1) e.1) t ys (sym (s (λ e. leb (age + 1) e.1)) ∙ z'),
      (others_than-none t ys, others_than-Ordered t ys o),
    )

module _ (k t : ℕ) (ys : List Slot) (o : Ordered ys) (new : Slot) where
  pub set-same :
      (xs : List Slot) (i a : ℕ)
      → SameElements xs ys
      → length xs ≤ suc k
      → get_elem? xs i ≡ some (t, a)
      → SameElements (set xs i new) (new ∷ take k (others_than t ys))
  set-same xs i a s l g q =
      let inside = get-count xs i (t, a) g in
      let inside' = subst (λ (c : ℕ). 0 < c) (s (is_slot (t, a))) inside in
      let every = count_p-others_than (λ e. true) (t, a) ys o inside' in
      let l' = same-length xs ys s in
      let al = count_p-all ys in
      let ao = count_p-all (others_than t ys) in
      rw (take-all k (others_than t ys) (omega arith)) (
        let c = count_p-set q xs i (t, a) new g in
        let d = count_p-others_than q (t, a) ys o inside' in let e = s q in omega arith)

  pub append-same :
      (xs : List Slot)
      → SameElements xs ys
      → length xs ≤ k
      → count_p (has_tile t) xs ≡ 0
      → SameElements (xs ++ new ∷ []) (new ∷ take k (others_than t ys))
  append-same xs s l z q =
      let l' = same-length xs ys s in
      rw
        (
          others_than-same t ys (sym (s (has_tile t)) ∙ z),
          take-all k ys (omega arith),
          count_p-append q xs (new ∷ []),
        )
        (let e = s q in omega arith)

  pub evict-same :
      (xs : List Slot) (i : ℕ) (x : Slot)
      → SameElements xs ys
      → length xs ≡ suc k
      → count_p (has_tile t) xs ≡ 0
      → get_elem? xs i ≡ some x
      → count_p (λ e. ltb e.1 x.1) xs ≡ 0
      → SameElements (set xs i new) (new ∷ take k (others_than t ys))
  evict-same xs i x s l z g least q =
      let l' = same-length xs ys s in
      let inside = subst (λ (c : ℕ). 0 < c) (s (is_slot x)) (get-count xs i x g) in
      rw (others_than-same t ys (sym (s (has_tile t)) ∙ z)) (
        let c = count_p-set q xs i x new g in
        let d =
          count_p-oldest q x k ys o (omega arith) inside (sym (s (λ e. ltb e.1 x.1)) ∙ least) in
        let e = s q in omega arith)
