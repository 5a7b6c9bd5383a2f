-- ===== src/RemoteDep/Ranks.antt =====
-- The ranks of a bit field of src/remote_dep.c come in increasing order, and are below its size.
use mathlib.Core.Path.{subst}
use dague_hsa.Prelude.{
  ℕ, suc, ◌+◌, ◌*◌, ◌≤◌, ◌<◌, ◌≡◌, arith, List, [], ◌∷◌, ◌++◌, inl, inr, Bool-cases, length, All,
}
use dague_hsa.RemoteDep.{Word}
use dague_hsa.RemoteDep.Fields.{IsField, ranks_of, ranks_of_word}
use dague_hsa.RemoteDep.Broadcast.{Increasing}

module _ (P : ℕ → Type 0) where
  All-append : (xs ys : List ℕ) → All P xs → All P ys → All P (xs ++ ys)
  All-append [] ys a b = b
  All-append (x ∷ xs) ys (p, a) b = (p, All-append xs ys a b)

  All-map : (Q : ℕ → Type 0) (xs : List ℕ) → ((x : ℕ) → P x → Q x) → All P xs → All Q xs
  All-map Q [] f a = tt
  All-map Q (x ∷ xs) f (p, a) = (f x p, All-map Q xs f a)

Increasing-append :
    (xs ys : List ℕ) (middle : ℕ)
    → All (λ x. x < middle) xs
    → All (λ y. middle ≤ y) ys
    → Increasing xs
    → Increasing ys
    → Increasing (xs ++ ys)
Increasing-append [] ys m a b i j = j
Increasing-append (x ∷ xs) ys m (p, a) b (q, i) j = (
  All-append (λ z. x < z) xs ys q (All-map (λ z. m ≤ z) (λ z. x < z) ys (λ z h. omega arith) b),
  Increasing-append xs ys m a b i j,
)

ranks_of_word-within :
    (rank : ℕ) (bits : Word)
    → All (λ r. rank ≤ r) (ranks_of_word rank bits)
      × All (λ r. r < rank + length bits) (ranks_of_word rank bits)
      × Increasing (ranks_of_word rank bits)
ranks_of_word-within rank [] = (tt, tt, tt)
ranks_of_word-within rank (bit ∷ bits) =
    let (low, high, up) = ranks_of_word-within (rank + 1) bits in
    let ranks = ranks_of_word (rank + 1) bits in
    let low' : All (λ r. rank < r) ranks =
      All-map (λ r. rank + 1 ≤ r) (λ r. rank < r) ranks (λ z h. omega arith) low in
    let low'' : All (λ r. rank ≤ r) ranks =
      All-map (λ r. rank + 1 ≤ r) (λ r. rank ≤ r) ranks (λ z h. omega arith) low in
    let high' : All (λ r. r < rank + length (bit ∷ bits)) ranks =
      All-map (λ r. r < rank + 1 + length bits) (λ r. r < rank + length (bit ∷ bits)) ranks
        (λ z h. omega arith) high in
    elim (Bool-cases bit) [
      | inl e ↦ rw e ((omega arith, low''), (omega arith, high'), (low', up))
      | inr e ↦ rw e (low'', high', up)
    ]

pub ranks_of-within :
    (index : ℕ) (words : List Word)
    → All (λ w. length w ≡ 32) words
    → All (λ r. index * 32 ≤ r) (ranks_of index words)
      × All (λ r. r < (index + length words) * 32) (ranks_of index words)
      × Increasing (ranks_of index words)
ranks_of-within index [] h = (tt, tt, tt)
ranks_of-within index (w ∷ ws) (h, hs) =
    let (low, high, up) = ranks_of_word-within (index * 32) w in
    let (low', high', up') = ranks_of-within (index + 1) ws hs in
    let here = ranks_of_word (index * 32) w in
    let later = ranks_of (index + 1) ws in
    (
      All-append (λ r. index * 32 ≤ r) here later low
          (All-map (λ r. (index + 1) * 32 ≤ r) (λ r. index * 32 ≤ r) later (λ z l. omega arith)
            low'),
      All-append (λ r. r < (index + suc (length ws)) * 32) here later
          (All-map (λ r. r < index * 32 + length w) (λ r. r < (index + suc (length ws)) * 32) here
            (λ z l. omega arith) high)
          (All-map (λ r. r < (index + 1 + length ws) * 32) (λ r. r < (index + suc (length ws)) * 32)
            later (λ z l. omega arith) high'),
      Increasing-append here later ((index + 1) * 32)
          (All-map (λ r. r < index * 32 + length w) (λ r. r < (index + 1) * 32) here
            (λ z l. omega arith) high)
          low' up up',
    )

-- The ranks of a field of as many words as the mask has a bit there.
pub ranks_of-in_mask :
    (words : ℕ) (field : List Word)
    → IsField words field
    → All (λ r. r < words * 32) (ranks_of 0 field)
ranks_of-in_mask words field (l, h) =
    let (low, high, up) = ranks_of-within 0 field h in
    let e : 0 + length field ≡ words = omega (arith, l) in
    subst (λ (n : ℕ). All (λ r. r < n * 32) (ranks_of 0 field)) e high
