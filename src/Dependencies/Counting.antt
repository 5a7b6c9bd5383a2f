-- ===== src/Dependencies/Counting.antt =====
-- Interleavings of the threads that release the dependencies of a task in src/dague.c: which values of
-- the counter they find.
use dague_hsa.Prelude.{
  ℕ, zero, suc, ◌+◌, ◌%◌, ◌^◌, ◌<◌, ◌≤◌, ◌≡◌, inl, inr, refl, sym, ◌∙◌, Bool, true, false, some,
  List, [], ◌∷◌, ◌==◌, ltb, arith, if◌then◌else◌, length, get_elem?, set, replicate, length-set,
  length-replicate, count_p, Option-cases, Bool-cases,
}
use dague_hsa.Dependencies.{
  Release, starts, swaps, increments, finished, access, Releases, step, run,
}

-- the threads that have released their dependency
abbrev pub has_finished : Release → Bool
has_finished (finished value) = true
has_finished _ = false

-- those that found a value
abbrev pub found : ℕ → Release → Bool
found v (finished value) = value == v
found v _ = false

abbrev pub has_read : Release → Bool
has_read increments = true
has_read _ = false

pub some-eq : {a b : Release} → some a ≡ some b → a ≡ b
some-eq h = cc

count_p-set :
    (p : Release → Bool) (xs : List Release) (i : ℕ) (x y : Release)
    → get_elem? xs i ≡ some x
    → count_p p (set xs i y) + (if p x then 1 else 0) ≡ count_p p xs + (if p y then 1 else 0)
count_p-set p [] i x y h = absurd (cc)
count_p-set p (z ∷ xs) zero x y h = let e : z ≡ x = some-eq h in rw e (omega arith)
count_p-set p (z ∷ xs) (suc i) x y h = let rest = count_p-set p xs i x y h in omega (arith, rest)

count_p-le-length : (p : Release → Bool) (xs : List Release) → count_p p xs ≤ length xs
count_p-le-length p [] = omega arith
count_p-le-length p (x ∷ xs) = ground (arith, count_p-le-length p xs)

count_p-replicate :
    (p : Release → Bool) (n : ℕ) → p starts ≡ false → count_p p (replicate n starts) ≡ 0
count_p-replicate p zero h = refl
count_p-replicate p (suc n) h = rw h (omega (arith, count_p-replicate p n h))

-- how many threads have released their dependency
abbrev pub done : Releases → ℕ
done s = count_p has_finished s.threads

-- With `n` dependencies to release: the counter is 0 until the first release, and counts the inputs and
-- the releases from then on. Each value that it had from the first release on was found once.
pub record Counts (inputs n : ℕ) (s : Releases) : Type 0 where
  pub size : length s.threads ≡ n
  pub counter : s.counter ≡ (if done s == 0 then 0 else inputs + done s)
  pub read : 0 < count_p has_read s.threads → 0 < done s
  pub values :
      (v : ℕ)
      → count_p (found v) s.threads
        ≡ (if ltb inputs v then (if ltb (inputs + done s) v then 0 else 1) else 0)

set-same : (xs : List Release) (i : ℕ) (x : Release) → get_elem? xs i ≡ some x → set xs i x ≡ xs
set-same [] i x h = refl
set-same (z ∷ xs) zero x h = let e : z ≡ x = some-eq h in rw e
set-same (z ∷ xs) (suc i) x h = rw (set-same xs i x h)

unchanged :
    (p : Release → Bool) (xs : List Release) (i : ℕ) (x y : Release)
    → get_elem? xs i ≡ some x
    → p x ≡ p y
    → count_p p (set xs i y) ≡ count_p p xs
unchanged p xs i x y h e = let c = count_p-set p xs i x y h in ground (arith, c, e)

found-unfinished : (v : ℕ) (x : Release) → has_finished x ≡ false → found v x ≡ false
found-unfinished v starts h = refl
found-unfinished v swaps h = refl
found-unfinished v increments h = refl
found-unfinished v (finished w) h = absurd (cc)

module _ (inputs n : ℕ) (fits : inputs + n < 2 ^ 32) (s : Releases) (i : ℕ) (x : Release)
    (h : get_elem? s.threads i ≡ some x) (hx : has_finished x ≡ false) (c : Counts inputs n s) where
  -- A thread that does not finish in its step.
  moves-Counts :
      (y : Release)
      → has_finished y ≡ false
      → (has_read y ≡ true → 0 < done s)
      → Counts inputs n (record { counter = s.counter; threads = set s.threads i y })
  moves-Counts y hy r =
      let same = unchanged has_finished s.threads i x y h (cc) in
      let reads = count_p-set has_read s.threads i x y h in
      record {
        size = omega (arith, length-set s.threads i y, c.size);
        counter = rw same c.counter;
        read = λ p. rw same (ground (arith, reads, r, c.read));
        values = λ v.
            rw
              (
                same,
                unchanged (found v) s.threads i x y h
                    (found-unfinished v x hx ∙ sym (found-unfinished v y hy)),
              )
              (c.values v);
      }

  -- The first release, or another one.
  finishes-Counts :
      (counter : ℕ)
      → counter ≡ inputs + done s + 1
      → Counts inputs n (record { counter = counter; threads = set s.threads i (finished counter) })
  finishes-Counts counter e =
      let after = set s.threads i (finished counter) in
      let one : count_p has_finished after ≡ done s + 1 =
        let more = count_p-set has_finished s.threads i x (finished counter) h in
        ground (arith, more, hx) in
      record {
        size = omega (arith, length-set s.threads i (finished counter), c.size);
        counter = rw one (ground (arith, e));
        read = λ p. rw one (omega arith);
        values = λ v.
            let new = count_p-set (found v) s.threads i x (finished counter) h in
            let unseen = found-unfinished v x hx in
            rw one (ground (arith, new, unseen, c.values v, e));
      }

  -- A thread that has not finished leaves room for one more release.
  done-lt : done s < n
  done-lt =
      let more = count_p-set has_finished s.threads i x (finished 0) h in
      let le = count_p-le-length has_finished (set s.threads i (finished 0)) in
      ground (arith, more, le, length-set s.threads i (finished 0), c.size, hx)

-- `n` threads, of which none has released yet
abbrev pub start : ℕ → Releases
start n = record { counter = 0; threads = replicate n starts }

module _ (inputs n : ℕ) (fits : inputs + n < 2 ^ 32) where
  thread-Counts :
      (s : Releases) (i : ℕ) (x : Release)
      → get_elem? s.threads i ≡ some x
      → Counts inputs n s
      → Counts inputs n (record {
        counter = (access inputs s.counter x).0;
        threads = set s.threads i (access inputs s.counter x).1;
      })
  unfolding access
  thread-Counts s i starts h c = elim (Bool-cases (s.counter == 0)) [
    | inl e ↦ rw e (moves-Counts inputs n fits s i starts h refl c swaps refl (λ r. absurd (cc)))
    | inr e ↦ rw e (
        moves-Counts inputs n fits s i starts h refl c increments refl
          (λ r. ground (arith, e, c.counter)))
  ]
  thread-Counts s i swaps h c = elim (Bool-cases (s.counter == 0)) [
    | inl e ↦
        let lt = done-lt inputs n fits s i swaps h refl c in
        rw e (
          finishes-Counts inputs n fits s i swaps h refl c ((1 + inputs) % 2 ^ 32)
            (let none_done : done s ≡ 0 = ground (arith, e, c.counter) in omega arith))
    | inr e ↦ rw e (
        moves-Counts inputs n fits s i swaps h refl c increments refl
          (λ r. ground (arith, e, c.counter)))
  ]
  thread-Counts s i increments h c =
      let lt = done-lt inputs n fits s i increments h refl c in
      let reads = count_p-set has_read s.threads i increments starts h in
      let some_done : 0 < done s = c.read (omega arith) in
      let e : s.counter ≡ inputs + done s = ground (arith, c.counter, some_done) in
      finishes-Counts inputs n fits s i increments h refl c ((s.counter + 1) % 2 ^ 32)
        (rw e (omega arith))
  thread-Counts s i (finished v) h c = rw (set-same s.threads i (finished v) h) c

  pub step-Counts : (s : Releases) (i : ℕ) → Counts inputs n s → Counts inputs n (step inputs s i)
  unfolding step
  step-Counts s i c = elim (Option-cases (get_elem? s.threads i)) [
    | inl e ↦ rw (step, e) c
    | inr (x, e) ↦ rw (step, e) (thread-Counts s i x e c)
  ]

  pub run-Counts :
      (schedule : List ℕ) (s : Releases)
      → Counts inputs n s
      → Counts inputs n (run inputs s schedule)
  unfolding run
  run-Counts [] s c = c
  run-Counts (i ∷ schedule) s c = run-Counts schedule (step inputs s i) (step-Counts s i c)

  pub start-Counts : Counts inputs n (start n)
  start-Counts =
      let none_done = count_p-replicate has_finished n refl in
      record {
        size = length-replicate n starts;
        counter = rw none_done refl;
        read = λ p. let e = count_p-replicate has_read n refl in absurd (omega arith);
        values =
            λ v. let e = count_p-replicate (found v) n refl in rw (none_done, e) (ground arith);
      }

  -- Let `n` > 0 threads release a dependency each of a task with the goal `inputs + n` < 2^32, in any
  -- interleaving of their accesses to its counter. While a release is outstanding nobody has found the
  -- goal, and once there is none exactly one thread has: the task gets ready once, and not before.
  pub run-ready_once :
      (schedule : List ℕ)
      → 0 < n
      → count_p (found (inputs + n)) (run inputs (start n) schedule).threads
        ≡ (if done (run inputs (start n) schedule) == n then 1 else 0)
  run-ready_once schedule p =
      let c = run-Counts schedule (start n) start-Counts in
      let le = count_p-le-length has_finished (run inputs (start n) schedule).threads in
      ground (arith, c.values (inputs + n), le, c.size)
