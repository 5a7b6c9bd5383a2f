-- ===== src/Cache/Queries.antt =====
-- What cache_buf_isLocal and cache_buf_age of Buf2Cache/buf2cache.c say of entries that hold slots.
use mathlib.Core.Option
use mathlib.Core.Path.{subst}
use dague_hsa.Prelude.{
  ℕ, zero, suc, ◌+◌, ◌≤◌, ◌<◌, ◌≡◌, refl, sym, ap, ◌∙◌, arith, Bool, true, false, ◌||◌, Option,
  some, none, List, [], ◌∷◌, if◌then◌else◌, ◌==◌, ltb, leb, Bool-cases, inl, inr, ==_iff, count_p,
}
use dague_hsa.Cache.{Entry, cache_buf_is_local, abs_age_of, count_younger, cache_buf_age}
use dague_hsa.Cache.Slots.{Slot, lay, has_tile, count_p-none}
use dague_hsa.Cache.Recent.{Ordered, is_slot, is_slot-eq, is_slot-apart}
use dague_hsa.Cache.Lru.{Keeps}

abbrev pub tiles_of : List Slot → List ℕ
tiles_of [] = []
tiles_of (y ∷ ys) = y.0 ∷ tiles_of ys

abbrev pub is_member : ℕ → List ℕ → Bool
is_member x [] = false
is_member x (t ∷ ts) = t == x || is_member x ts

-- the place of the first x
abbrev pub place_of : ℕ → List ℕ → Option ℕ
place_of x [] = none
place_of x (t ∷ ts) = if t == x then some 0 else Option.map suc (place_of x ts)

is_local-count :
    (x m : ℕ) (xs : List Slot) → cache_buf_is_local (lay xs m) x ≡ ltb 0 (count_p (has_tile x) xs)
unfolding cache_buf_is_local
is_local-count x zero [] = refl
is_local-count x (suc m) [] = refl
is_local-count x m ((p, a) ∷ xs) = elim (Bool-cases (p == x)) [
  | inl e ↦ rw e (ground arith)
  | inr e ↦ rw e (let r = is_local-count x m xs in ground arith)
]

pub member-count :
    (x : ℕ) (ys : List Slot) → is_member x (tiles_of ys) ≡ ltb 0 (count_p (has_tile x) ys)
member-count x [] = refl
member-count x (y ∷ ys) = elim (Bool-cases (y.0 == x)) [
  | inl e ↦ rw e (ground arith)
  | inr e ↦ rw e (let r = member-count x ys in ground arith)
]

pub Keeps-is_local :
    (n x : ℕ) (entries : List Entry) (ys : List Slot)
    → Keeps n entries ys
    → cache_buf_is_local entries x ≡ is_member x (tiles_of ys)
Keeps-is_local n x entries ys h =
    ap (λ (es : List Entry). cache_buf_is_local es x) h.laid
    ∙ is_local-count x h.room h.slots
    ∙ ap (λ (c : ℕ). ltb 0 c) (h.same (has_tile x))
    ∙ sym (member-count x ys)

abs_age_of-absent :
    (x m : ℕ) (xs : List Slot) (abs_age : Option ℕ)
    → count_p (has_tile x) xs ≡ 0
    → abs_age_of (lay xs m) x abs_age ≡ abs_age
unfolding abs_age_of
abs_age_of-absent x zero [] abs_age z = refl
abs_age_of-absent x (suc m) [] abs_age z = refl
abs_age_of-absent x m ((p, a) ∷ xs) abs_age z = elim (Bool-cases (p == x)) [
  | inl e ↦ absurd (let z' : 1 + count_p (has_tile x) xs ≡ 0 = rw e at z in omega arith)
  | inr e ↦
      ap (λ (b : Bool). abs_age_of (lay xs m) x (if b then some a else abs_age)) e
      ∙ abs_age_of-absent x m xs abs_age (omega arith)
]

abs_age_of-present :
    (x m : ℕ) (xs : List Slot) (abs_age : Option ℕ)
    → 0 < count_p (has_tile x) xs
    → (a : ℕ) × (abs_age_of (lay xs m) x abs_age ≡ some a) × (0 < count_p (is_slot (x, a)) xs)
unfolding abs_age_of
abs_age_of-present x m [] abs_age h = absurd (omega arith)
abs_age_of-present x m ((p, a) ∷ xs) abs_age h =
    let next : Bool → Option ℕ = λ b. abs_age_of (lay xs m) x (if b then some a else abs_age) in
    elim (Bool-cases (p == x)) [
      | inl e ↦ elim (Bool-cases (ltb 0 (count_p (has_tile x) xs))) [
        | inl l ↦
            let (b, f, i) = abs_age_of-present x m xs (some a) (ground arith) in
            (b, ap next e ∙ f, omega arith)
        | inr l ↦
            let same : (a == a) ≡ true = ground arith in
            (
              a,
              ap next e ∙ abs_age_of-absent x m xs (some a) (ground arith),
              rw (e, same) (omega arith),
            )
      ]
      | inr e ↦
          let h0 : 1 ≤ 0 + count_p (has_tile x) xs = rw e at h in
          let (b, f, i) = abs_age_of-present x m xs abs_age (omega arith) in
          (b, ap next e ∙ f, omega arith)
    ]

count_younger-count :
    (m a : ℕ) (xs : List Slot) → count_younger (lay xs m) a ≡ count_p (λ e. ltb a e.1) xs
unfolding count_younger
count_younger-count zero a [] = refl
count_younger-count (suc m) a [] = ground arith
count_younger-count m a ((p, b) ∷ xs) =
    ap (λ (c : ℕ). (if ltb a b then 1 else 0) + c) (count_younger-count m a xs)

place_of-absent :
    (x : ℕ) (ys : List Slot) → count_p (has_tile x) ys ≡ 0 → place_of x (tiles_of ys) ≡ none
place_of-absent x [] z = refl
place_of-absent x (y ∷ ys) z = elim (Bool-cases (y.0 == x)) [
  | inl e ↦ absurd (let z' : 1 + count_p (has_tile x) ys ≡ 0 = rw e at z in omega arith)
  | inr e ↦ rw e (ap (λ (o : Option ℕ). Option.map suc o) (place_of-absent x ys (omega arith)))
]

older_than :
    (x : Slot) (b : ℕ) (ys : List Slot)
    → count_p (λ e. leb b e.1) ys ≡ 0
    → 0 < count_p (is_slot x) ys
    → x.1 < b
older_than x b ys z h = elim (Bool-cases (leb b x.1)) [
  | inr e ↦ ground arith
  | inl e ↦
      let none_left =
        count_p-none (is_slot x) (λ s. leb b s.1)
          (λ s k. ap (λ (r : Slot). leb b r.1) (is_slot-eq x s k) ∙ e) ys z in
      absurd (omega arith)
]

-- The younger slots stand before.
place_of-present :
    (x a : ℕ) (ys : List Slot)
    → Ordered ys
    → 0 < count_p (is_slot (x, a)) ys
    → place_of x (tiles_of ys) ≡ some (count_p (λ e. ltb a e.1) ys)
place_of-present x a [] o h = absurd (omega arith)
place_of-present x a (y ∷ ys) (l, (b, o)) h = elim (Bool-cases (is_slot (x, a) y)) [
  | inl e ↦
      let i = is_slot-eq (x, a) y e in
      let here : (y.0 == x) ≡ true = (==_iff _ _).1 (ap (λ (r : Slot). r.0) i) in
      let j : y.1 ≡ a = ap (λ (r : Slot). r.1) i in
      let l' : count_p (λ s. leb a s.1) ys ≡ 0 =
        subst (λ (c : ℕ). count_p (λ s. leb c s.1) ys ≡ 0) j l in
      let none_younger =
        count_p-none (λ s. ltb a s.1) (λ s. leb a s.1) (λ s k. ground arith) ys l' in
      let not_this : ltb a y.1 ≡ false = ground arith in
      rw (here, not_this, none_younger) (ap some (omega arith))
  | inr e ↦
      let h0 : 1 ≤ 0 + count_p (is_slot (x, a)) ys = rw e at h in
      let h' : 0 < count_p (is_slot (x, a)) ys = omega arith in
      let lt = older_than (x, a) y.1 ys l h' in
      let this : ltb a y.1 ≡ true = ground arith in
      rw (is_slot-apart (x, a) y ys b h', this, place_of-present x a ys o h')
        (ap some (omega arith))
]

pub Keeps-age :
    (n x : ℕ) (entries : List Entry) (ys : List Slot)
    → Keeps n entries ys
    → cache_buf_age entries x ≡ place_of x (tiles_of ys)
unfolding cache_buf_age
Keeps-age n x entries ys h =
    let es = lay h.slots h.room in
    let younger : Option ℕ → Option ℕ = λ o. Option.map (λ abs_age. count_younger es abs_age) o in
    ap (λ (l : List Entry). cache_buf_age l x) h.laid
    ∙ elim (Bool-cases (ltb 0 (count_p (has_tile x) h.slots))) [
      | inl l ↦
          let (a, f, i) = abs_age_of-present x h.room h.slots none (ground arith) in
          let i' = subst (λ (c : ℕ). 0 < c) (h.same (is_slot (x, a))) i in
          ap younger f
          ∙ ap some (count_younger-count h.room a h.slots ∙ h.same (λ e. ltb a e.1))
          ∙ sym (place_of-present x a ys h.ordered i')
      | inr l ↦
          let z : count_p (has_tile x) h.slots ≡ 0 = ground arith in
          ap younger (abs_age_of-absent x h.room h.slots none z)
          ∙ sym (place_of-absent x ys (sym (h.same (has_tile x)) ∙ z))
    ]
