-- ===== src/Cache/Latest.antt =====
-- The different tiles of the references to a cache of Buf2Cache/buf2cache.c, the last one first.
use mathlib.Core.Path.{subst}
use dague_hsa.Prelude.{
  ℕ, zero, suc, ◌≡◌, refl, ap, true, false, not, List, [], ◌∷◌, ◌==◌, Bool-cases, ==_iff, inl, inr,
  take, filter_p,
}
use dague_hsa.Cache.Queries.{is_member}

abbrev pub without : ℕ → List ℕ → List ℕ
without t ts = filter_p (λ x. not (x == t)) ts

-- the different tiles of a history, which has the last reference in front
abbrev pub latest : List ℕ → List ℕ
latest [] = []
latest (t ∷ history) = t ∷ without t (latest history)

true-false : true ≡ false → ⊥
true-false e = cc

abbrev pub Different : List ℕ → Type 0
Different [] = Unit
Different (t ∷ ts) = (is_member t ts ≡ false) × Different ts

member-take : (x k : ℕ) (ts : List ℕ) → is_member x ts ≡ false → is_member x (take k ts) ≡ false
member-take x zero ts h = refl
member-take x (suc k) [] h = refl
member-take x (suc k) (t ∷ ts) h = elim (Bool-cases (t == x)) [
  | inl e ↦ absurd (true-false (rw e at h))
  | inr e ↦ rw e (member-take x k ts (rw e at h))
]

member-without :
    (x t : ℕ) (ts : List ℕ) → is_member x ts ≡ false → is_member x (without t ts) ≡ false
member-without x t [] h = refl
member-without x t (y ∷ ts) h = elim (Bool-cases (y == x)) [
  | inl e ↦ absurd (true-false (rw e at h))
  | inr e ↦ elim (Bool-cases (y == t)) [
    | inl f ↦ rw f (member-without x t ts (rw e at h))
    | inr f ↦ rw f (rw e (member-without x t ts (rw e at h)))
  ]
]

member-without_self : (t : ℕ) (ts : List ℕ) → is_member t (without t ts) ≡ false
member-without_self t [] = refl
member-without_self t (y ∷ ts) = elim (Bool-cases (y == t)) [
  | inl f ↦ rw f (member-without_self t ts)
  | inr f ↦ rw f (rw f (member-without_self t ts))
]

without-Different : (t : ℕ) (ts : List ℕ) → Different ts → Different (without t ts)
without-Different t [] d = tt
without-Different t (y ∷ ts) (n, d) = elim (Bool-cases (y == t)) [
  | inl f ↦ rw f (without-Different t ts d)
  | inr f ↦ rw f (member-without y t ts n, without-Different t ts d)
]

pub latest-Different : (history : List ℕ) → Different (latest history)
latest-Different [] = tt
latest-Different (t ∷ history) = (
  member-without_self t (latest history),
  without-Different t (latest history) (latest-Different history),
)

without-same : (t : ℕ) (ts : List ℕ) → is_member t ts ≡ false → without t ts ≡ ts
without-same t [] h = refl
without-same t (y ∷ ts) h = elim (Bool-cases (y == t)) [
  | inl e ↦ absurd (true-false (rw e at h))
  | inr e ↦ rw e (ap (λ (l : List ℕ). y ∷ l) (without-same t ts (rw e at h)))
]

take-take : (k : ℕ) (ts : List ℕ) → take k (take k ts) ≡ take k ts
take-take zero ts = refl
take-take (suc k) [] = refl
take-take (suc k) (t ∷ ts) = ap (λ (l : List ℕ). t ∷ l) (take-take k ts)

-- What a cache of k + 1 tiles has lost is not among the latest k of the others.
pub take-without :
    (k t : ℕ) (ts : List ℕ)
    → Different ts
    → take k (without t (take (suc k) ts)) ≡ take k (without t ts)
take-without zero t ts d = refl
take-without (suc k) t [] d = refl
take-without (suc k) t (x ∷ ts) (n, d) = elim (Bool-cases (x == t)) [
  | inl e ↦
      let absent : is_member t ts ≡ false =
        subst (λ y. is_member y ts ≡ false) ((==_iff x t).0 e) n in
      rw
        (
          e,
          without-same t (take (suc k) ts) (member-take t (suc k) ts absent),
          without-same t ts absent,
        )
        (take-take (suc k) ts)
  | inr e ↦ rw e (ap (λ (l : List ℕ). x ∷ l) (take-without k t ts d))
]
