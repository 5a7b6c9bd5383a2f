-- ===== src/Generator/Threads/Shares.antt =====
-- How the threads of `rand_dist_matrix` of data_dist/matrix/matrix.c share the tiles.

use mathlib.Core.List.{append-nil, map-append}
use dague_hsa.Prelude.{
  if◌then◌else◌, count_p, count_p-append, get_elem?, set, Option-cases, some, ℕ, zero, suc, ◌+◌,
  ◌*◌, ◌^◌, ◌≤◌, ◌<◌, ◌≡◌, refl, sym, ap, ◌∙◌, arith, Bool, List, [], ◌∷◌, ◌++◌, length, take, drop,
  map, inl, inr, length-drop, take-append-drop,
}
use dague_hsa.Distribution.{w32}
use dague_hsa.Generator.{GenFct}
use dague_hsa.Generator.Threads.{TileCoordinate, shares, all_threads, run_threads}

drop-nil : {A : Type 0} (n : ℕ) → drop {A = A} n [] ≡ []
drop-nil zero = refl
drop-nil (suc n) = refl

drop_add : {A : Type 0} (n j : ℕ) (xs : List A) → drop (j + n) xs ≡ drop n (drop j xs)
drop_add {A} n zero xs = let e : 0 + n ≡ n = omega arith in rw e
drop_add {A} n (suc j) (x ∷ xs) =
    let e : suc j + n ≡ suc (j + n) = omega arith in rw e (drop_add n j xs)
drop_add {A} n (suc j) [] = drop-nil {A = A} (suc j + n) ∙ sym (drop-nil n)

take_all : {A : Type 0} (n : ℕ) (xs : List A) → length xs ≤ n → take n xs ≡ xs
take_all zero [] h = refl
take_all zero (x ∷ xs) h = absurd (omega arith)
take_all (suc n) [] h = refl
take_all (suc n) (x ∷ xs) h = ap (λ (t : List _). x ∷ t) (take_all n xs (omega arith))

abbrev pub with_gen : GenFct → List TileCoordinate → List (GenFct × TileCoordinate)
with_gen gen = map (λ (t : TileCoordinate). (gen, t))

abbrev pub concat {ℓ} : {A : Type ℓ} → List (List A) → List A
concat [] = []
concat (xs ∷ xss) = xs ++ concat xss

module _ {A : Type 0} (p : A → Bool) where
  count_p-concat-set :
      (xss : List (List A)) (i : ℕ) (x : A) (xs : List A)
      → get_elem? xss i ≡ some (x ∷ xs)
      → (if p x then 1 else 0) + count_p p (concat (set xss i xs)) ≡ count_p p (concat xss)
  count_p-concat-set [] i x xs g = cc
  count_p-concat-set (ys ∷ xss) zero x xs g =
      let e : ys ≡ x ∷ xs = cc in
      let a = count_p-append p xs (concat xss) in
      rw e (omega (arith, a, count_p-append p xs (concat xss)))
  count_p-concat-set (ys ∷ xss) (suc i) x xs g =
      let rest = count_p-concat-set xss i x xs g in
      let a = count_p-append p ys (concat (set xss i xs)) in
      let b = count_p-append p ys (concat xss) in omega arith

  -- Whatever the schedule, the calls that were made and those to come are those of the threads.
  pub count_p-run_threads :
      (schedule : List ℕ) (threads : List (List A))
      → count_p p (run_threads schedule threads).0
          + count_p p (concat (run_threads schedule threads).1)
        ≡ count_p p (concat threads)
  unfolding run_threads
  count_p-run_threads [] threads = omega arith
  count_p-run_threads (i ∷ schedule) threads = elim (Option-cases (get_elem? threads i)) [
    | inl e ↦ rw (e, run_threads) (count_p-run_threads schedule threads)
    | inr ([], e) ↦ rw (e, run_threads) (count_p-run_threads schedule threads)
    | inr (x ∷ xs, e) ↦
        let rest = count_p-run_threads schedule (set threads i xs) in
        let one = count_p-concat-set threads i x xs e in rw (e, run_threads) (omega arith)
  ]

module _ (tiles : List TileCoordinate) (gen : GenFct) (each rest : ℕ) where
  pub all_threads-length :
      (i j count : ℕ) → length (all_threads tiles (shares gen each rest i j count)) ≡ count
  unfolding all_threads shares
  all_threads-length i j zero = refl
  all_threads-length i j (suc zero) = refl
  all_threads-length i j (suc (suc count)) =
      ap suc (all_threads-length (i + 1) (w32 (j + each)) (suc count))

  pub all_threads-shares :
      (i j count : ℕ)
      → 0 < count
      → length tiles ≡ j + each * count + rest
      → length tiles < 2 ^ 32
      → concat (all_threads tiles (shares gen each rest i j count)) ≡ with_gen gen (drop j tiles)
  unfolding all_threads shares
  all_threads-shares i j zero h e l = absurd (omega arith)
  all_threads-shares i j (suc zero) h e l =
      let w : w32 (each + rest) ≡ each + rest = omega arith in
      rw (append-nil, w)
        (ap (with_gen gen)
          (take_all (each + rest) (drop j tiles) (omega (arith, length-drop {0} j tiles))))
  all_threads-shares i j (suc (suc count)) h e l =
      let m : each * suc (suc count) ≡ each + each * suc count = grind arith in
      let w : w32 (j + each) ≡ j + each = omega arith in
      rw w (
        ap (λ (r : List (GenFct × TileCoordinate)). with_gen gen (take each (drop j tiles)) ++ r)
          (all_threads-shares (i + 1) (j + each) (suc count) (omega arith) (omega arith) l
            ∙ ap (with_gen gen) (drop_add each j tiles))
        ∙ sym (map-append _ (take each (drop j tiles)) (drop each (drop j tiles)))
        ∙ ap (with_gen gen) (take-append-drop each (drop j tiles)))
