-- ===== src/Barrier/Laws.antt =====
-- The barrier of src/barrier.c keeps its threads in step, and lets them go.
use mathlib.Core.Path.{subst}
use dague_hsa.Prelude.{
  ℕ, zero, suc, ◌+◌, ◌^◌, ◌≤◌, ◌<◌, ◌≡◌, ◌⊎◌, refl, sym, ap, ◌∙◌, arith, Bool, true, false, Option,
  none, some, List, [], ◌∷◌, if◌then◌else◌, ◌==◌, inl, inr, Bool-cases, length, length-set,
  length-replicate, get_elem?, set, replicate, All, count_p, map, length-map,
}
use dague_hsa.Distribution.{w32}
use dague_hsa.Barrier.{
  Thread, running, blocked, woken, unblock, enter, wake, go, rouse, System, Event, go_on, spurious,
  step, run, fresh,
}

-- A thread waits in round r.
abbrev pub is_current : ℕ → Thread → Bool
is_current r (running returned) = false
is_current r (blocked returned generation) = returned == r
is_current r (woken returned generation) = returned == r

-- In round r a thread that is outside has returned r times; one that waits is in round r, or was
-- woken in the round before.
abbrev pub InRound : ℕ → Thread → Type 0
InRound r (running returned) = returned ≡ r
InRound r (blocked returned generation) = (returned ≡ r) × (generation ≡ w32 r)
InRound r (woken returned generation) =
    ((returned ≡ r) × (generation ≡ w32 r)) ⊎ ((returned + 1 ≡ r) × (generation ≡ w32 returned))

pub record IsInStep (n r : ℕ) (s : System) : Type 0 where
  pub count : s.barrier.count ≡ n
  pub generation : s.barrier.generation ≡ w32 r
  pub everyone : length s.threads ≡ n
  pub curcount : s.barrier.curcount ≡ count_p (is_current r) s.threads
  pub some_missing : s.barrier.curcount < n
  pub rounds : All (InRound r) s.threads

-- Lists of threads with one replaced.
module _ {A : Type 0} where
  some-inj : {a b : A} → some a ≡ some b → a ≡ b
  some-inj e = cc

  All-set : (P : A → Type 0) (xs : List A) (i : ℕ) (y : A) → P y → All P xs → All P (set xs i y)
  All-set P [] i y p a = a
  All-set P (x ∷ xs) zero y p a = (p, a.1)
  All-set P (x ∷ xs) (suc i) y p a = (a.0, All-set P xs i y p a.1)

  pub All-get :
      (P : A → Type 0) (xs : List A) (i : ℕ) (x : A) → All P xs → get_elem? xs i ≡ some x → P x
  All-get P [] i x a g = cc
  All-get P (y ∷ xs) zero x a g = subst P (some-inj g) a.0
  All-get P (y ∷ xs) (suc i) x a g = All-get P xs i x a.1 g

  count_p-set :
      (p : A → Bool) (xs : List A) (i : ℕ) (x y : A)
      → get_elem? xs i ≡ some x
      → count_p p (set xs i y) + (if p x then 1 else 0) ≡ count_p p xs + (if p y then 1 else 0)
  count_p-set p [] i x y g = cc
  count_p-set p (z ∷ xs) zero x y g = rw (some-inj g) (omega arith)
  count_p-set p (z ∷ xs) (suc i) x y g = omega (arith, count_p-set p xs i x y g)

  count_p-le : (p : A → Bool) (xs : List A) → count_p p xs ≤ length xs
  count_p-le p [] = omega arith
  count_p-le p (x ∷ xs) = ground (arith, count_p-le p xs)

  count_p-lt :
      (p : A → Bool) (xs : List A) (i : ℕ) (x : A)
      → get_elem? xs i ≡ some x
      → p x ≡ false
      → count_p p xs < length xs
  count_p-lt p [] i x g n = cc
  count_p-lt p (z ∷ xs) zero x g n =
      let first_fails : p z ≡ false = ap p (some-inj g) ∙ n in
      rw first_fails (omega (arith, count_p-le p xs))
  count_p-lt p (z ∷ xs) (suc i) x g n = ground (arith, count_p-lt p xs i x g n)

  All-of_count :
      (p : A → Bool) (Q P : A → Type 0) (xs : List A)
      → ((z : A) → Q z → p z ≡ true → P z)
      → All Q xs
      → 0 + count_p p xs + 1 ≡ suc (length xs)
      → All P xs
  All-of_count p Q P [] f a c = tt
  All-of_count p Q P (x ∷ xs) f (q, a) c = elim (Bool-cases (p x)) [
    | inl e ↦
        let c' : 0 + (1 + count_p p xs) + 1 ≡ suc (suc (length xs)) = rw e at c in
        (f x q e, All-of_count p Q P xs f a (omega arith))
    | inr e ↦
        let c' : 0 + (0 + count_p p xs) + 1 ≡ suc (suc (length xs)) = rw e at c in
        absurd (omega (arith, count_p-le p xs))
  ]

  -- Where all but one pass a test, and a certain one does not, all others do.
  All-but_one :
      (p : A → Bool) (Q P : A → Type 0) (xs : List A) (i : ℕ) (x y : A)
      → ((z : A) → Q z → p z ≡ true → P z)
      → All Q xs
      → get_elem? xs i ≡ some x
      → p x ≡ false
      → count_p p xs + 1 ≡ length xs
      → P y
      → All P (set xs i y)
  All-but_one p Q P [] i x y f a g n c h = cc
  All-but_one p Q P (z ∷ xs) zero x y f (q, a) g n c h =
      let first_fails : p z ≡ false = ap p (some-inj g) ∙ n in
      (h, All-of_count p Q P xs f a (rw first_fails at c))
  All-but_one p Q P (z ∷ xs) (suc i) x y f (q, a) g n c h = elim (Bool-cases (p z)) [
    | inl e ↦
        let c' : 1 + count_p p xs + 1 ≡ suc (length xs) = rw e at c in
        (f z q e, All-but_one p Q P xs i x y f a g n (omega arith) h)
    | inr e ↦
        let c' : 0 + count_p p xs + 1 ≡ suc (length xs) = rw e at c in
        absurd (omega (arith, count_p-lt p xs i x g n))
  ]

  count_p-none : (p : A → Bool) (xs : List A) → All (λ x. p x ≡ false) xs → count_p p xs ≡ 0
  count_p-none p [] a = refl
  count_p-none p (x ∷ xs) (e, a) = rw e (omega (arith, count_p-none p xs a))

module _ {A : Type 0} where
  All-map : (P : A → Type 0) (f : A → A) (xs : List A) → All (λ x. P (f x)) xs → All P (map f xs)
  All-map P f [] a = tt
  All-map P f (x ∷ xs) (p, a) = (p, All-map P f xs a)

-- A thread of the round before, which the broadcast lets go.
abbrev pub LetGo : ℕ → Thread → Type 0
LetGo r t = InRound (suc r) (unblock t) × (is_current (suc r) (unblock t) ≡ false)

let_go : (r : ℕ) (t : Thread) → InRound r t → is_current r t ≡ true → LetGo r t
unfolding unblock
let_go r (running c) h e = cc
let_go r (blocked c g) (e, f) t = (inr (omega arith, rw e f), ground arith)
let_go r (woken c g) (inl (e, f)) t = (inr (omega arith, rw e f), ground arith)
let_go r (woken c g) (inr (e, f)) t = absurd (ground arith)

All-fst :
    {A : Type 0} (P Q : A → Type 0) (xs : List A) → All (λ x. P x × Q x) xs → All P xs × All Q xs
All-fst P Q [] a = (tt, tt)
All-fst P Q (x ∷ xs) ((p, q), a) = let (b, c) = All-fst P Q xs a in ((p, b), (q, c))

module _ (n : ℕ) (small : n < 2 ^ 31) where
  enter-IsInStep :
      (r i c : ℕ) (s : System)
      → IsInStep n r s
      → get_elem? s.threads i ≡ some (running c)
      → (r' : ℕ) × IsInStep n r' (enter i c s)
  unfolding enter unblock
  enter-IsInStep r i c s h g =
      let here : c ≡ r = All-get (InRound r) s.threads i (running c) h.rounds g in
      let less = h.some_missing in
      let e1 = h.count in
      let e2 = h.curcount in
      let e3 = h.generation in
      let e4 = h.everyone in
      let returned : LetGo r (running (c + 1)) = (omega arith, refl) in
      let after = set s.threads i (running (c + 1)) in
      elim (Bool-cases (w32 (s.barrier.curcount + 1) == s.barrier.count)) [
        | inl last ↦
            let full : count_p (is_current r) s.threads + 1 ≡ length s.threads = ground arith in
            let all =
              All-but_one (is_current r) (InRound r) (LetGo r) s.threads i (running c)
                (running (c + 1)) (let_go r) h.rounds g refl full returned in
            let (inside, outside) =
              All-fst (λ t. InRound (suc r) (unblock t))
                (λ t. is_current (suc r) (unblock t) ≡ false) after all in
            rw last (
              suc r,
              record {
                count = e1;
                generation = omega arith;
                everyone = length-map after unblock ∙ length-set s.threads i (running (c + 1)) ∙ e4;
                curcount = sym (
                    count_p-none (is_current (suc r)) (map unblock after)
                      (All-map (λ t. is_current (suc r) t ≡ false) unblock after outside));
                some_missing = omega arith;
                rounds = All-map (InRound (suc r)) unblock after inside;
              },
            )
        | inr wait ↦
            let t' = blocked c s.barrier.generation in
            let counts = count_p-set (is_current r) s.threads i (running c) t' g in
            let hit : (c == r) ≡ true = ground arith in
            let one_more : count_p (is_current r) (set s.threads i t') + 0
                ≡ count_p (is_current r) s.threads + 1 =
              counts ∙ rw hit refl in
            rw wait (
              r,
              record {
                count = e1;
                generation = e3;
                everyone = length-set s.threads i t' ∙ e4;
                curcount = omega arith;
                some_missing = ground arith;
                rounds = All-set (InRound r) s.threads i t' (here, e3) h.rounds;
              },
            )
      ]

  -- A thread that changes its state within the round, still waiting.
  set-IsInStep :
      (r i : ℕ) (t t' : Thread) (s : System)
      → IsInStep n r s
      → get_elem? s.threads i ≡ some t
      → InRound r t'
      → is_current r t' ≡ is_current r t
      → IsInStep n r (record s { threads = set s.threads i t' })
  set-IsInStep r i t t' s h at_i inside same =
      let counts = count_p-set (is_current r) s.threads i t t' at_i in
      let e2 = h.curcount in
      let counts' : count_p (is_current r) (set s.threads i t') + (if is_current r t then 1 else 0)
          ≡ count_p (is_current r) s.threads + (if is_current r t then 1 else 0) =
        rw same at counts in
      record {
        count = h.count;
        generation = h.generation;
        everyone = length-set s.threads i t' ∙ h.everyone;
        curcount = omega arith;
        some_missing = h.some_missing;
        rounds = All-set (InRound r) s.threads i t' inside h.rounds;
      }

  wake-IsInStep :
      (r i c g : ℕ) (s : System)
      → IsInStep n r s
      → get_elem? s.threads i ≡ some (woken c g)
      → IsInStep n r (wake i c g s)
  unfolding wake
  wake-IsInStep r i c g s h at_i =
      let inside : InRound r (woken c g) =
        All-get (InRound r) s.threads i (woken c g) h.rounds at_i in
      let e3 = h.generation in
      elim (Bool-cases (g == s.barrier.generation)) [
        | inl same ↦
            let now : InRound r (blocked c g) = elim inside [
              | inl p ↦ p
              | inr (e, f) ↦ absurd (ground arith)
            ] in
            rw same (set-IsInStep r i (woken c g) (blocked c g) s h at_i now refl)
        | inr changed ↦
            let free : c + 1 ≡ r = elim inside [
              | inl (e, f) ↦ absurd (ground arith)
              | inr (e, f) ↦ e
            ] in
            let miss : (c == r) ≡ false = ground arith in
            rw changed (set-IsInStep r i (woken c g) (running (c + 1)) s h at_i free (sym miss))
      ]

  go-IsInStep :
      (r i : ℕ) (o : Option Thread) (s : System)
      → IsInStep n r s
      → get_elem? s.threads i ≡ o
      → (r' : ℕ) × IsInStep n r' (go i o s)
  unfolding go
  go-IsInStep r i none s h e = (r, h)
  go-IsInStep r i (some (running c)) s h e = enter-IsInStep r i c s h e
  go-IsInStep r i (some (blocked c g)) s h e = (r, h)
  go-IsInStep r i (some (woken c g)) s h e = (r, wake-IsInStep r i c g s h e)

  rouse-IsInStep :
      (r i : ℕ) (o : Option Thread) (s : System)
      → IsInStep n r s
      → get_elem? s.threads i ≡ o
      → IsInStep n r (rouse i o s)
  unfolding rouse unblock
  rouse-IsInStep r i none s h e = h
  rouse-IsInStep r i (some (running c)) s h e =
      set-IsInStep r i (running c) (running c) s h e
        (All-get (InRound r) s.threads i (running c) h.rounds e) refl
  rouse-IsInStep r i (some (blocked c g)) s h e =
      set-IsInStep r i (blocked c g) (woken c g) s h e
        (inl (All-get (InRound r) s.threads i (blocked c g) h.rounds e)) refl
  rouse-IsInStep r i (some (woken c g)) s h e =
      set-IsInStep r i (woken c g) (woken c g) s h e
        (All-get (InRound r) s.threads i (woken c g) h.rounds e) refl

  step-IsInStep :
      (r : ℕ) (e : Event) (s : System) → IsInStep n r s → (r' : ℕ) × IsInStep n r' (step e s)
  unfolding step
  step-IsInStep r (go_on i) s h = go-IsInStep r i (get_elem? s.threads i) s h refl
  step-IsInStep r (spurious i) s h = (r, rouse-IsInStep r i (get_elem? s.threads i) s h refl)

  pub run-IsInStep :
      (r : ℕ) (schedule : List Event) (s : System)
      → IsInStep n r s
      → (r' : ℕ) × IsInStep n r' (run schedule s)
  unfolding run
  run-IsInStep r [] s h = (r, h)
  run-IsInStep r (e ∷ schedule) s h =
      let (r1, h1) = step-IsInStep r e s h in run-IsInStep r1 schedule (step e s) h1

  All-replicate : (m : ℕ) → All (InRound 0) (replicate m (running 0))
  All-replicate zero = tt
  All-replicate (suc m) = (refl, All-replicate m)

  none_current : (m : ℕ) → count_p (is_current 0) (replicate m (running 0)) ≡ 0
  none_current zero = refl
  none_current (suc m) = omega (arith, none_current m)

  pub fresh-IsInStep : 0 < n → IsInStep n 0 (fresh n)
  fresh-IsInStep p = record {
    count = refl;
    generation = refl;
    everyone = length-replicate n (running 0);
    curcount = sym (none_current n);
    some_missing = p;
    rounds = All-replicate n;
  }
