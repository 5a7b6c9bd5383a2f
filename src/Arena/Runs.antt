-- ===== src/Arena/Runs.antt =====
-- Sequences of calls of `dague_arena_get`, `dague_arena_ref` and `dague_arena_unref` on an arena.

use dague_hsa.Prelude.{
  ℕ, zero, suc, ◌+◌, ◌-◌, ◌%◌, ◌^◌, ◌<◌, ◌≤◌, ◌≡◌, ◌≢◌, refl, ◌∙◌, false, some, List, [], ◌∷◌,
  arith, ◌==◌, leb, length, get_elem?, set, length-set, All, inl, inr, Bool-cases, Option-cases,
}
use dague_hsa.Outcome.{ok}
use dague_hsa.Arena.{Arena, Chunk, no_limit, chunk_size, put_back, release, ref, unref}
use dague_hsa.Arena.Limits.{
  Pool, Call, gets, refs, unrefs, remove_at, step, run, IsPool, InMemory, Allocates, same-InMemory,
  All-map, gets-IsPool,
}

pub some-eq : {A : Type 0} {a b : A} → some a ≡ some b → a ≡ b
some-eq h = cc

All-get :
    {A : Type 0} (P : A → Type 0) (xs : List A) (i : ℕ) (x : A)
    → get_elem? xs i ≡ some x
    → All P xs
    → P x
All-get P [] i x h a = absurd (cc)
All-get P (y ∷ xs) zero x h a = let e : y ≡ x = some-eq h in rw (← e) a.0
All-get P (y ∷ xs) (suc i) x h a = All-get P xs i x h a.1

All-set :
    {A : Type 0} (P : A → Type 0) (xs : List A) (i : ℕ) (x : A)
    → P x
    → All P xs
    → All P (set xs i x)
All-set P [] i x p a = tt
All-set P (y ∷ xs) zero x p a = (p, a.1)
All-set P (y ∷ xs) (suc i) x p a = (a.0, All-set P xs i x p a.1)

All-remove : {A : Type 0} (P : A → Type 0) (xs : List A) (i : ℕ) → All P xs → All P (remove_at xs i)
All-remove P [] i a = tt
All-remove P (y ∷ xs) zero a = a.1
All-remove P (y ∷ xs) (suc i) a = (a.0, All-remove P xs i a.1)

length-remove_at :
    {A : Type 0} (xs : List A) (i : ℕ) (x : A)
    → get_elem? xs i ≡ some x
    → suc (length (remove_at xs i)) ≡ length xs
length-remove_at [] i x h = absurd (cc)
length-remove_at (y ∷ xs) zero x h = refl
length-remove_at (y ∷ xs) (suc i) x h = omega (arith, length-remove_at xs i x h)

module _ {Heap : Type 0} (prefix : ℕ) (allocate : ℕ → Heap → ℕ × Heap) where
  -- A chunk that is out changes its counter.
  set-IsPool :
      (s : Pool Heap) (i : ℕ) (c : Chunk)
      → IsPool prefix allocate s
      → InMemory prefix allocate s.arena c.item
      → IsPool prefix allocate (record s { out = set s.out i c })
  set-IsPool s i c v m = record {
    aligned = v.aligned;
    sizes = v.sizes;
    counted = λ n. omega (arith, v.counted n, length-set s.out i c);
    within = λ n. omega (arith, v.within n, length-set s.out i c);
    kept = v.kept;
    few = v.few;
    free = v.free;
    taken = All-set _ s.out i c m v.taken;
  }

  refs-IsPool :
      (s : Pool Heap) (i : ℕ)
      → IsPool prefix allocate s
      → (s' : Pool Heap) × (step prefix allocate s (refs i) ≡ ok s') × IsPool prefix allocate s'
  unfolding step ref
  refs-IsPool s i v = elim (Option-cases (get_elem? s.out i)) [
    | inl e ↦ (s, rw (step, e), v)
    | inr (c, e) ↦ (
      record s { out = set s.out i (ref c) },
      rw (step, e),
      set-IsPool s i (ref c) v (All-get _ s.out i c e v.taken),
    )
  ]

  -- An arena that a chunk has gone back to.
  abbrev Back : Arena → Arena → Type 0
  Back a b =
      (b.alignment ≡ a.alignment)
      × (b.elem_size ≡ a.elem_size)
      × (b.max_used ≡ a.max_used)
      × (b.max_released ≡ a.max_released)
      × (a.max_released ≢ no_limit → b.released ≡ length b.lifo)
      × (a.max_released ≢ no_limit → length b.lifo ≤ a.max_released)
      × All (InMemory prefix allocate a) b.lifo

  put_back-Back :
      (s : Pool Heap) (item : ℕ)
      → IsPool prefix allocate s
      → InMemory prefix allocate s.arena item
      → Back s.arena (put_back s.arena item)
  unfolding put_back
  put_back-Back s item v m = elim (Bool-cases (leb s.arena.max_released s.arena.released)) [
    | inl full ↦ rw full (refl, refl, refl, refl, v.kept, v.few, v.free)
    | inr room ↦ elim (Bool-cases (s.arena.max_released == no_limit)) [
      | inl q ↦
          rw (room, q)
            (
              refl,
              refl,
              refl,
              refl,
              λ n. absurd (ground (arith, n, q)),
              λ n. absurd (ground (arith, n, q)),
              (m, v.free),
            )
      | inr q ↦
          let kept = v.kept (ground (arith, q)) in
          let l : s.arena.released < s.arena.max_released = ground (arith, room) in
          rw (room, q)
            (
              refl,
              refl,
              refl,
              refl,
              λ n. omega (arith, kept),
              λ n. omega (arith, kept, l),
              (m, v.free),
            )
    ]
  ]

  -- A chunk goes back, and is no longer out.
  after_put-IsPool :
      (s : Pool Heap) (i : ℕ) (c : Chunk) (b : Arena) (used : ℕ)
      → get_elem? s.out i ≡ some c
      → IsPool prefix allocate s
      → Back s.arena b
      → (s.arena.max_used ≢ no_limit → suc used ≡ length s.out)
      → IsPool prefix allocate
          (record s { arena = record b { used = used }; out = remove_at s.out i })
  unfolding chunk_size
  after_put-IsPool s i c b used e v (al, el, mu, mr, kept, few, free) hu =
      let size = length-remove_at s.out i c e in
      let left = All-remove _ s.out i v.taken in
      record {
        aligned = omega (arith, al, v.aligned);
        sizes = omega (arith, al, el, v.sizes);
        counted = λ n. let l = hu (λ q. n (mu ∙ q)) in omega (arith, l, size);
        within = λ n. let l = v.within (λ q. n (mu ∙ q)) in omega (arith, l, size, mu);
        kept = λ n. kept (λ q. n (mr ∙ q));
        few = λ n. let l = few (λ q. n (mr ∙ q)) in omega (arith, l, mr);
        free = All-map _ _ b.lifo (λ x h. same-InMemory prefix allocate s.arena b x al el h) free;
        taken =
            All-map _ _ (remove_at s.out i)
              (λ x h. same-InMemory prefix allocate s.arena b x.item al el h) left;
      }

  -- `dague_arena_release` of a chunk that is out.
  release-IsPool :
      (s : Pool Heap) (i : ℕ) (c : Chunk)
      → get_elem? s.out i ≡ some c
      → IsPool prefix allocate s
      → (b : Arena) × (release s.arena (record c { refcount = 0 }) ≡ ok b)
        × IsPool prefix allocate (record s { arena = b; out = remove_at s.out i })
  unfolding release
  release-IsPool s i c e v =
      let m = All-get (λ x. InMemory prefix allocate s.arena x.item) s.out i c e v.taken in
      let back = put_back-Back s c.item v m in
      let size = length-remove_at s.out i c e in
      elim (Bool-cases (s.arena.max_used == no_limit)) [
        | inl q ↦ (
          put_back s.arena c.item,
          rw q,
          after_put-IsPool s i c (put_back s.arena c.item) _ e v back
              (λ n. absurd (ground (arith, n, q))),
        )
        | inr q ↦
            let counted = v.counted (ground (arith, q)) in
            let z : s.arena.used == 0 ≡ false = ground (arith, counted, size) in
            (
              record (put_back s.arena c.item) { used = s.arena.used - 1 },
              rw (q, z),
              after_put-IsPool s i c (put_back s.arena c.item) (s.arena.used - 1) e v back
                  (λ n. omega (arith, counted, size)),
            )
      ]

  unrefs-IsPool :
      (s : Pool Heap) (i : ℕ)
      → IsPool prefix allocate s
      → (s' : Pool Heap) × (step prefix allocate s (unrefs i) ≡ ok s') × IsPool prefix allocate s'
  unfolding step unref
  unrefs-IsPool s i v = elim (Option-cases (get_elem? s.out i)) [
    | inl e ↦ (s, rw (step, e), v)
    | inr (c, e) ↦
        let count = (c.refcount + (2 ^ 32 - 1)) % 2 ^ 32 in
        elim (Bool-cases (count == 0)) [
          | inl z ↦
              let (b, done, h) = release-IsPool s i c e v in
              let none_left : count ≡ 0 = ground (arith, z) in
              (record s { arena = b; out = remove_at s.out i }, rw (step, e, z, none_left, done), h)
          | inr z ↦ (
            record s { out = set s.out i (record c { refcount = count }) },
            rw (step, e, z),
            set-IsPool s i (record c { refcount = count }) v
                (All-get (λ x. InMemory prefix allocate s.arena x.item) s.out i c e v.taken),
          )
        ]
  ]

  step-IsPool :
      (c : Call) (s : Pool Heap)
      → Allocates prefix allocate
      → IsPool prefix allocate s
      → (s' : Pool Heap) × (step prefix allocate s c ≡ ok s') × IsPool prefix allocate s'
  step-IsPool gets s fits v = gets-IsPool prefix allocate fits s v
  step-IsPool (refs i) s fits v = refs-IsPool s i v
  step-IsPool (unrefs i) s fits v = unrefs-IsPool s i v

  -- Any sequence of gets, references and their releases on an arena within its limits succeeds, as long
  -- as `malloc` gives memory: no assertion fails. Afterwards no more chunks are out than may be, no more
  -- chunks are kept for reuse than may be, and the counters of the arena say how many there are.
  pub run-IsPool :
      (cs : List Call) (s : Pool Heap)
      → Allocates prefix allocate
      → IsPool prefix allocate s
      → (s' : Pool Heap) × (run prefix allocate s cs ≡ ok s') × IsPool prefix allocate s'
  unfolding run
  run-IsPool [] s fits v = (s, refl, v)
  run-IsPool (c ∷ cs) s fits v =
      let (s1, e, v1) = step-IsPool c s fits v in
      let (s2, f, v2) = run-IsPool cs s1 fits v1 in (s2, rw e f, v2)
