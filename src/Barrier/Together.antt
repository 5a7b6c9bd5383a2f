-- ===== src/Barrier/Together.antt =====
-- The threads that meet at the barrier of src/barrier.c stay together, and are let go.
use dague_hsa.Prelude.{
  ℕ, suc, ◌+◌, ◌^◌, ◌≤◌, ◌<◌, ◌≡◌, refl, arith, Bool, false, some, List, [], ◌∷◌, ◌==◌, inl, inr,
  zero, set, Bool-cases, length, get_elem?, All, count_p,
}
use dague_hsa.Distribution.{w32}
use dague_hsa.Barrier.{
  Thread, running, blocked, woken, wake, go, System, Event, go_on, step, run, fresh,
}
use dague_hsa.Barrier.Laws.{is_current, InRound, All-get, run-IsInStep, fresh-IsInStep}

-- how many calls of `dague_barrier_wait` of a thread have returned, and how many it has made
abbrev pub returned : Thread → ℕ
returned (running c) = c
returned (blocked c g) = c
returned (woken c g) = c

abbrev pub entered : Thread → ℕ
entered (running c) = c
entered (blocked c g) = c + 1
entered (woken c g) = c + 1

abbrev pub IsWaiting : Thread → Type 0
IsWaiting (running c) = ⊥
IsWaiting (blocked c g) = Unit
IsWaiting (woken c g) = Unit

returned-le : (r : ℕ) (t : Thread) → InRound r t → returned t ≤ r
returned-le r (running c) h = omega arith
returned-le r (blocked c g) (e, f) = omega arith
returned-le r (woken c g) (inl (e, f)) = omega arith
returned-le r (woken c g) (inr (e, f)) = omega arith

le-entered : (r : ℕ) (t : Thread) → InRound r t → r ≤ entered t
le-entered r (running c) h = omega arith
le-entered r (blocked c g) (e, f) = omega arith
le-entered r (woken c g) (inl (e, f)) = omega arith
le-entered r (woken c g) (inr (e, f)) = omega arith

find_failing :
    {A : Type 0} (p : A → Bool) (xs : List A)
    → count_p p xs < length xs
    → (i : ℕ) × (x : A) × (get_elem? xs i ≡ some x) × (p x ≡ false)
find_failing p [] h = absurd (omega arith)
find_failing p (x ∷ xs) h = elim (Bool-cases (p x)) [
  | inl e ↦
      let h' : 1 + count_p p xs < suc (length xs) = rw e at h in
      let (i, y, g, f) = find_failing p xs (omega arith) in (suc i, y, g, f)
  | inr e ↦ (0, x, refl, e)
]

get-set :
    {A : Type 0} (xs : List A) (i : ℕ) (x y : A)
    → get_elem? xs i ≡ some x
    → get_elem? (set xs i y) i ≡ some y
get-set [] i x y g = cc
get-set (z ∷ xs) zero x y g = refl
get-set (z ∷ xs) (suc i) x y g = get-set xs i x y g

-- A thread of the round before is woken, and returns when it goes on.
let_go_next :
    (r i : ℕ) (t : Thread) (s : System)
    → s.barrier.generation ≡ w32 r
    → get_elem? s.threads i ≡ some t
    → InRound r t
    → is_current r t ≡ false
    → IsWaiting t
    → get_elem? (step (go_on i) s).threads i ≡ some (running (returned t + 1))
unfolding step go wake
let_go_next r i (running c) s e at_i h n w = absurd w
let_go_next r i (blocked c g) s e at_i (f, k) n w = absurd (ground arith)
let_go_next r i (woken c g) s e at_i (inl (f, k)) n w = absurd (ground arith)
let_go_next r i (woken c g) s e at_i (inr (f, k)) n w =
    let differ : (g == s.barrier.generation) ≡ false = ground arith in
    rw (at_i, differ) (get-set s.threads i (woken c g) (running (c + 1)) at_i)

module _ (n : ℕ) (some_threads : 0 < n) (small : n < 2 ^ 31) (schedule : List Event) where
  -- Whatever the schedule of n threads on a new barrier for n threads, spurious wake-ups and the
  -- wrap-around of the generation included: no thread has returned from more calls of
  -- `dague_barrier_wait` than any other has made.
  pub run-returned-le-entered :
      (i j : ℕ) (t u : Thread)
      → get_elem? (run schedule (fresh n)).threads i ≡ some t
      → get_elem? (run schedule (fresh n)).threads j ≡ some u
      → returned t ≤ entered u
  run-returned-le-entered i j t u g g' =
      let s = run schedule (fresh n) in
      let (r, h) =
        run-IsInStep n small 0 schedule (fresh n) (fresh-IsInStep n small some_threads) in
      let a = returned-le r t (All-get (InRound r) s.threads i t h.rounds g) in
      let b = le-entered r u (All-get (InRound r) s.threads j u h.rounds g') in omega arith

  -- Whatever the schedule of n threads on a new barrier for n threads: when all of them are in
  -- `dague_barrier_wait`, there is one whose call returns when it goes on, which it can only do after
  -- it was woken from `pthread_cond_wait`.
  pub run-lets_go :
      All IsWaiting (run schedule (fresh n)).threads
      → (i : ℕ) × (t : Thread) × (get_elem? (run schedule (fresh n)).threads i ≡ some t)
        × (get_elem? (step (go_on i) (run schedule (fresh n))).threads i
            ≡ some (running (returned t + 1)))
  run-lets_go w =
      let s = run schedule (fresh n) in
      let (r, h) =
        run-IsInStep n small 0 schedule (fresh n) (fresh-IsInStep n small some_threads) in
      let c = h.curcount in
      let m = h.some_missing in
      let e = h.everyone in
      let (i, t, g, f) = find_failing (is_current r) s.threads (omega arith) in
      (
        i,
        t,
        g,
        let_go_next r i t s h.generation g (All-get (InRound r) s.threads i t h.rounds g) f
            (All-get IsWaiting s.threads i t w g),
      )
