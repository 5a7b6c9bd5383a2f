-- ===== src/RemoteDep/Collect/Counted.antt =====
-- What `dague_release_dep_fct` of src/dague.c collects is what `dague_remote_dep_activate` of
-- src/remote_dep.c relies on: every output counts the bits of its field.
use dague_hsa.Prelude.{
  ℕ, zero, suc, ◌+◌, ◌*◌, ◌/◌, ◌%◌, ◌≤◌, ◌<◌, ◌≡◌, refl, arith, true, false, List, [], ◌∷◌, length,
  length-append, get_or, set, replicate, All, count_p,
}
use dague_hsa.RemoteDep.{Word, empty_word, Output, test_bit, set_bit}
use dague_hsa.RemoteDep.Fields.{IsField, get_or-All, ranks_of, ranks_of_word}
use dague_hsa.RemoteDep.Walk.{total}

abbrev pub bits_in : Word → ℕ
bits_in w = count_p (λ b. b) w

abbrev pub bits_of : List Word → ℕ
bits_of [] = 0
bits_of (w ∷ ws) = bits_in w + bits_of ws

length-ranks_of_word : (rank : ℕ) (w : Word) → length (ranks_of_word rank w) ≡ bits_in w
length-ranks_of_word rank [] = refl
length-ranks_of_word rank (true ∷ w) = omega (arith, length-ranks_of_word (rank + 1) w)
length-ranks_of_word rank (false ∷ w) = omega (arith, length-ranks_of_word (rank + 1) w)

pub length-ranks_of : (index : ℕ) (ws : List Word) → length (ranks_of index ws) ≡ bits_of ws
length-ranks_of index [] = refl
length-ranks_of index (w ∷ ws) = omega (
  arith,
  length-append (ranks_of_word (index * 32) w) (ranks_of (index + 1) ws),
  length-ranks_of_word (index * 32) w,
  length-ranks_of (index + 1) ws,
)

bits_in-set :
    (w : Word) (i : ℕ)
    → i < length w
    → get_or w i false ≡ false
    → bits_in (set w i true) ≡ bits_in w + 1
bits_in-set [] i h g = absurd (omega arith)
bits_in-set (b ∷ w) zero h g = rw g (omega arith)
bits_in-set (b ∷ w) (suc i) h g = omega (arith, bits_in-set w i (omega arith) g)

bits_of-set :
    (ws : List Word) (j : ℕ) (w : Word)
    → j < length ws
    → bits_of (set ws j w) + bits_in (get_or ws j []) ≡ bits_of ws + bits_in w
bits_of-set [] j w h = absurd (omega arith)
bits_of-set (v ∷ ws) zero w h = omega arith
bits_of-set (v ∷ ws) (suc j) w h = omega (arith, bits_of-set ws j w (omega arith))

bits_in-le : (w : Word) → bits_in w ≤ length w
bits_in-le [] = omega arith
bits_in-le (true ∷ w) = omega (arith, bits_in-le w)
bits_in-le (false ∷ w) = omega (arith, bits_in-le w)

pub bits_of-le : (ws : List Word) → All (λ w. length w ≡ 32) ws → bits_of ws ≤ length ws * 32
bits_of-le [] h = omega arith
bits_of-le (w ∷ ws) (h, hs) = omega (arith, bits_in-le w, bits_of-le ws hs)

pub bits_of-empty : (n : ℕ) → bits_of (replicate n empty_word) ≡ 0
bits_of-empty zero = refl
bits_of-empty (suc n) = omega (arith, bits_of-empty n)

-- A bit that is set for the first time counts once more.
pub bits_of-set_bit :
    (n : ℕ) (ws : List Word) (r : ℕ)
    → IsField n ws
    → r < n * 32
    → test_bit ws r ≡ false
    → bits_of (set_bit ws r) ≡ bits_of ws + 1
unfolding test_bit set_bit
bits_of-set_bit n ws r field h g =
    let e = field.0 in
    let there : r / 32 < length ws = omega arith in
    let l : length (get_or ws (r / 32) []) ≡ 32 = get_or-All ws (r / 32) field.1 there in
    let word = set (get_or ws (r / 32) []) (r % 32) true in
    omega (
      arith,
      bits_of-set ws (r / 32) word there,
      bits_in-set (get_or ws (r / 32) []) (r % 32) (omega arith) g,
    )

pub total-set :
    (os : List Output) (i : ℕ) (o d : Output)
    → i < length os
    → total (set os i o) + (get_or os i d).count ≡ total os + o.count
total-set [] i o d h = absurd (omega arith)
total-set (p ∷ os) zero o d h = omega arith
total-set (p ∷ os) (suc i) o d h = omega (arith, total-set os i o d (omega arith))
