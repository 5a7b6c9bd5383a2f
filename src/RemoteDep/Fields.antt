-- ===== src/RemoteDep/Fields.antt =====
-- Bit fields of ranks, as src/remote_dep.c keeps them: what a bit is after another was set, and the
-- ranks whose bits are set.
use dague_hsa.Prelude.{
  ℕ, zero, suc, ◌+◌, ◌*◌, ◌/◌, ◌%◌, ◌<◌, ◌≡◌, ◌⊎◌, refl, ◌∙◌, arith, true, false, List, [], ◌∷◌,
  ◌++◌, if◌then◌else◌, ◌==◌, inl, inr, Bool-cases, ==_iff, length, length-set, length-replicate,
  get_or, set, replicate, All,
}
use dague_hsa.RemoteDep.{Word, empty_word, test_bit, set_bit}

pub get_or-set :
    {A : Type 0} (xs : List A) (i j : ℕ) (v d : A)
    → i < length xs
    → get_or (set xs i v) j d ≡ (if i == j then v else get_or xs j d)
get_or-set [] i j v d h = absurd (omega arith)
get_or-set (x ∷ xs) zero zero v d h = refl
get_or-set (x ∷ xs) zero (suc j) v d h = ground arith
get_or-set (x ∷ xs) (suc i) zero v d h = ground arith
get_or-set (x ∷ xs) (suc i) (suc j) v d h = get_or-set xs i j v d (omega arith) ∙ ground arith

-- a bit field of so many words
abbrev pub IsField : ℕ → List Word → Type 0
IsField n words = (length words ≡ n) × All (λ w. length w ≡ 32) words

pub get_or-All :
    (words : List Word) (i : ℕ)
    → All (λ w. length w ≡ 32) words
    → i < length words
    → length (get_or words i []) ≡ 32
get_or-All [] i a h = absurd (omega arith)
get_or-All (w ∷ ws) zero a h = a.0
get_or-All (w ∷ ws) (suc i) a h = get_or-All ws i a.1 (omega arith)

set-All :
    (words : List Word) (i : ℕ) (w : Word)
    → length w ≡ 32
    → All (λ w. length w ≡ 32) words
    → All (λ w. length w ≡ 32) (set words i w)
set-All [] i w e a = a
set-All (v ∷ vs) zero w e a = (e, a.1)
set-All (v ∷ vs) (suc i) w e a = (a.0, set-All vs i w e a.1)

module _ (n : ℕ) (words : List Word) (field : IsField n words) (rank : ℕ)
    (fits : rank < n * 32) where
  word_there : rank / 32 < length words
  word_there = let e = field.0 in omega arith

  pub set_bit-IsField : IsField n (set_bit words rank)
  unfolding set_bit
  set_bit-IsField = (
    length-set words (rank / 32) _ ∙ field.0,
    set-All words (rank / 32) _
        (length-set (get_or words (rank / 32) []) (rank % 32) true
          ∙ get_or-All words (rank / 32) field.1 word_there)
        field.1,
  )

  -- After `remote_dep_mark_forwarded` the bit of the rank is set, and every other one is as it was.
  pub test_bit-set_bit :
      (r : ℕ) → test_bit (set_bit words rank) r ≡ (if rank == r then true else test_bit words r)
  unfolding test_bit set_bit
  test_bit-set_bit r =
      let l = get_or-All words (rank / 32) field.1 word_there in
      let word = set (get_or words (rank / 32) []) (rank % 32) true in
      let e = get_or-set words (rank / 32) (r / 32) word [] word_there in
      let e' =
        get_or-set (get_or words (rank / 32) []) (rank % 32) (r % 32) true false (omega arith) in
      elim (Bool-cases (rank / 32 == r / 32)) [
        | inl same ↦
            let q = (==_iff _ _).0 same in
            rw (e, same, e')
              (elim (Bool-cases (rank % 32 == r % 32)) [
                | inl hit ↦
                    let q' = (==_iff _ _).0 hit in
                    let equal : (rank == r) ≡ true = ground arith in rw (hit, equal) refl
                | inr miss ↦
                    let differ : (rank == r) ≡ false = ground arith in rw (miss, differ, q) refl
              ])
        | inr other ↦ let differ : (rank == r) ≡ false = ground arith in rw (e, other, differ) refl
      ]

get_or-replicate :
    {A : Type 0} (n i : ℕ) (x d : A)
    → (get_or (replicate n x) i d ≡ x) ⊎ (get_or (replicate n x) i d ≡ d)
get_or-replicate zero i x d = inr refl
get_or-replicate (suc n) zero x d = inl refl
get_or-replicate (suc n) (suc i) x d = get_or-replicate n i x d

pub test_bit-empty : (n r : ℕ) → test_bit (replicate n empty_word) r ≡ false
unfolding test_bit
test_bit-empty n r = elim (get_or-replicate n (r / 32) empty_word []) [
  | inl e ↦ rw e (elim (get_or-replicate 32 (r % 32) false false) [ inl e' ↦ e' | inr e' ↦ e' ])
  | inr e ↦ rw e refl
]

pub empty-IsField : (n : ℕ) → IsField n (replicate n empty_word)
empty-IsField n = (length-replicate n empty_word, all n)
  where
    all : (m : ℕ) → All (λ (w : Word). length w ≡ 32) (replicate m empty_word)
    all zero = tt
    all (suc m) = (refl, all m)

-- the ranks whose bits are set, in increasing order
abbrev pub ranks_of_word : (rank : ℕ) → Word → List ℕ
ranks_of_word rank [] = []
ranks_of_word rank (bit ∷ bits) =
    if bit then rank ∷ ranks_of_word (rank + 1) bits else ranks_of_word (rank + 1) bits

abbrev pub ranks_of : (array_index : ℕ) → List Word → List ℕ
ranks_of array_index [] = []
ranks_of array_index (word ∷ words) =
    ranks_of_word (array_index * 32) word ++ ranks_of (array_index + 1) words
