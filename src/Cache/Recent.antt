-- ===== src/Cache/Recent.antt =====
-- The tiles by their last reference, which is what do_cache_buf_referenced of Buf2Cache/buf2cache.c
-- keeps in the ages of its entries.
use mathlib.Core.Path.{subst}
use dague_hsa.Prelude.{
  ℕ, zero, suc, ◌+◌, ◌≤◌, ◌<◌, ◌≡◌, refl, sym, ap, ◌∙◌, arith, Bool, true, false, not, ◌&&◌, List,
  [], ◌∷◌, if◌then◌else◌, ◌==◌, ltb, leb, inl, inr, Bool-cases, ==_iff, length, take, count_p,
  filter_p,
}
use dague_hsa.Cache.Slots.{Slot, empty_none, has_tile, count_p-none}

-- the tiles but one
abbrev pub others_than : (t : ℕ) → List Slot → List Slot
others_than t ys = filter_p (λ e. not (has_tile t e)) ys

-- slots from the youngest to the oldest, with different tiles
abbrev pub Ordered : List Slot → Type 0
Ordered [] = Unit
Ordered (y ∷ ys) =
    (count_p (λ e. leb y.1 e.1) ys ≡ 0) × ((count_p (has_tile y.0) ys ≡ 0) × Ordered ys)

count_p-take :
    (q : Slot → Bool) (n : ℕ) (ys : List Slot) → count_p q ys ≡ 0 → count_p q (take n ys) ≡ 0
count_p-take q zero ys z = refl
count_p-take q (suc n) [] z = refl
count_p-take q (suc n) (y ∷ ys) z = let r = count_p-take q n ys (omega arith) in omega arith

pub count_p-others :
    (q : Slot → Bool) (t : ℕ) (ys : List Slot) → count_p q ys ≡ 0 → count_p q (others_than t ys) ≡ 0
count_p-others q t [] z = refl
count_p-others q t (y ∷ ys) z =
    let r = count_p-others q t ys (omega arith) in
    elim (Bool-cases (y.0 == t)) [ inl e ↦ rw e r | inr e ↦ rw e (omega arith) ]

pub take-Ordered : (n : ℕ) (ys : List Slot) → Ordered ys → Ordered (take n ys)
take-Ordered zero ys o = tt
take-Ordered (suc n) [] o = tt
take-Ordered (suc n) (y ∷ ys) (a, (b, o)) = (
  count_p-take (λ e. leb y.1 e.1) n ys a,
  (count_p-take (has_tile y.0) n ys b, take-Ordered n ys o),
)

pub others_than-Ordered : (t : ℕ) (ys : List Slot) → Ordered ys → Ordered (others_than t ys)
others_than-Ordered t [] o = tt
others_than-Ordered t (y ∷ ys) (a, (b, o)) = elim (Bool-cases (y.0 == t)) [
  | inl e ↦ rw e (others_than-Ordered t ys o)
  | inr e ↦ rw e (
    count_p-others (λ e. leb y.1 e.1) t ys a,
    (count_p-others (has_tile y.0) t ys b, others_than-Ordered t ys o),
  )
]

-- No tile is left of those that are taken off.
pub others_than-none : (t : ℕ) (ys : List Slot) → count_p (has_tile t) (others_than t ys) ≡ 0
others_than-none t [] = refl
others_than-none t (y ∷ ys) = elim (Bool-cases (y.0 == t)) [
  | inl e ↦ rw e (others_than-none t ys)
  | inr e ↦ rw e (rw e (let r = others_than-none t ys in omega arith))
]

pub others_than-same :
    (t : ℕ) (ys : List Slot) → count_p (has_tile t) ys ≡ 0 → others_than t ys ≡ ys
others_than-same t [] z = refl
others_than-same t (y ∷ ys) z = elim (Bool-cases (y.0 == t)) [
  | inl e ↦ absurd (let z' : 1 + count_p (has_tile t) ys ≡ 0 = rw e at z in omega arith)
  | inr e ↦ rw e (ap (λ (l : List Slot). y ∷ l) (others_than-same t ys (omega arith)))
]

-- A slot that is in the list is the only one of its tile.
abbrev pub is_slot : Slot → Slot → Bool
is_slot x e = e.0 == x.0 && e.1 == x.1

and-cases : (u v : Bool) → (u && v) ≡ true → (u ≡ true) × (v ≡ true)
and-cases true v h = (refl, h)
and-cases false v h = absurd (ground arith)

pub is_slot-eq : (x e : Slot) → is_slot x e ≡ true → e ≡ x
is_slot-eq (p, a) (q, b) h =
    let (e0, e1) = and-cases (q == p) (b == a) h in
    let i0 : q ≡ p = (==_iff q p).0 e0 in let i1 : b ≡ a = (==_iff b a).0 e1 in rw (i0, i1) refl

pub is_slot-apart :
    (x y : Slot) (ys : List Slot)
    → count_p (has_tile y.0) ys ≡ 0
    → 0 < count_p (is_slot x) ys
    → (y.0 == x.0) ≡ false
is_slot-apart x y ys b h = elim (Bool-cases (y.0 == x.0)) [
  | inr e ↦ e
  | inl e ↦
      let i : y.0 ≡ x.0 = (==_iff _ _).0 e in
      let z =
        count_p-none (is_slot x) (has_tile y.0)
          (λ s k. let j = is_slot-eq x s k in (==_iff s.0 y.0).1 (ap (λ (r : Slot). r.0) j ∙ sym i))
          ys b in
      absurd (omega arith)
]

pub count_p-others_than :
    (q : Slot → Bool) (x : Slot) (ys : List Slot)
    → Ordered ys
    → 0 < count_p (is_slot x) ys
    → count_p q (others_than x.0 ys) + (if q x then 1 else 0) ≡ count_p q ys
count_p-others_than q x [] o h = absurd (omega arith)
count_p-others_than q x (y ∷ ys) (a, (b, o)) h = elim (Bool-cases (is_slot x y)) [
  | inl e ↦
      let i : y ≡ x = is_slot-eq x y e in
      let here : (y.0 == x.0) ≡ true = (==_iff _ _).1 (ap (λ (r : Slot). r.0) i) in
      let b' : count_p (has_tile x.0) ys ≡ 0 =
        subst (λ (z : Slot). count_p (has_tile z.0) ys ≡ 0) i b in
      rw (here, others_than-same x.0 ys b', sym i) (omega arith)
  | inr e ↦
      let h0 : 1 ≤ 0 + count_p (is_slot x) ys = rw e at h in
      let h' : 0 < count_p (is_slot x) ys = omega arith in
      rw (is_slot-apart x y ys b h') (let r = count_p-others_than q x ys o h' in omega arith)
]

pub no_older :
    (k : ℕ) (ys : List Slot)
    → count_p (λ e. ltb e.1 k) ys ≡ 0
    → count_p (λ e. leb k e.1) ys ≡ 0
    → length ys ≡ 0
no_older k [] z a = refl
no_older k (y ∷ ys) z a = absurd (ground arith)

-- The oldest slot is the last.
pub count_p-oldest :
    (q : Slot → Bool) (x : Slot) (n : ℕ) (ys : List Slot)
    → Ordered ys
    → length ys ≡ suc n
    → 0 < count_p (is_slot x) ys
    → count_p (λ e. ltb e.1 x.1) ys ≡ 0
    → count_p q (take n ys) + (if q x then 1 else 0) ≡ count_p q ys
count_p-oldest q x n [] o l h z = absurd (omega arith)
count_p-oldest q x zero (y ∷ ys) (a, (b, o)) l h z = elim (Bool-cases (is_slot x y)) [
  | inl e ↦
      let none_left = empty_none q ys (omega arith) in rw (sym (is_slot-eq x y e)) (omega arith)
  | inr e ↦
      let none_left = empty_none (is_slot x) ys (omega arith) in
      let h0 : 1 ≤ 0 + count_p (is_slot x) ys = rw e at h in
      let h' : 0 < count_p (is_slot x) ys = omega arith in absurd (omega arith)
]
count_p-oldest q x (suc n) (y ∷ ys) (a, (b, o)) l h z = elim (Bool-cases (is_slot x y)) [
  | inl e ↦
      let i : y ≡ x = is_slot-eq x y e in
      let a' : count_p (λ s. leb x.1 s.1) ys ≡ 0 =
        subst (λ (r : Slot). count_p (λ s. leb r.1 s.1) ys ≡ 0) i a in
      let none_left = no_older x.1 ys (omega arith) a' in absurd (omega arith)
  | inr e ↦
      let h0 : 1 ≤ 0 + count_p (is_slot x) ys = rw e at h in
      let h' : 0 < count_p (is_slot x) ys = omega arith in
      let r = count_p-oldest q x n ys o (omega arith) h' (omega arith) in omega arith
]
