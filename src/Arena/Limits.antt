-- ===== src/Arena/Limits.antt =====
-- Calls on an arena of src/arena.c against its limits and its assertions; `dague_arena_get`.
use dague_hsa.Prelude.{
  ℕ, zero, suc, ◌+◌, ◌-◌, ◌^◌, ◌<◌, ◌≤◌, ◌≡◌, ◌≢◌, refl, ◌∙◌, false, none, some, List, [], ◌∷◌,
  arith, ◌==◌, ltb, length, get_elem?, set, All, inl, inr, Bool-cases,
}
use dague_hsa.Outcome.{Outcome, ok, ◌>>=◌}
use dague_hsa.Arena.{Arena, Chunk, no_limit, chunk_size, take_from, take_chunk, get, ref, unref}
use dague_hsa.Arena.Layout.{prepare-aligned, chunk_size-lt}

-- an arena and the chunks that are out of it
pub record Pool (Heap : Type 0) : Type 0 where
  pub arena : Arena
  pub out : List Chunk
  pub heap : Heap

-- the calls, on the chunk at an index among those that are out
pub data Call : Type 0 where
  gets : Call
  refs unrefs : ℕ → Call

abbrev pub remove_at : {A : Type 0} → List A → ℕ → List A
remove_at [] i = []
remove_at (x ∷ xs) zero = xs
remove_at (x ∷ xs) (suc i) = x ∷ remove_at xs i

pub All-map :
    {A : Type 0} (P Q : A → Type 0) (xs : List A) → ((x : A) → P x → Q x) → All P xs → All Q xs
All-map P Q [] f h = tt
All-map P Q (x ∷ xs) f h = (f x h.0, All-map P Q xs f h.1)

module _ {Heap : Type 0} (prefix : ℕ) (allocate : ℕ → Heap → ℕ × Heap) where
  unfoldable pub step : Pool Heap → Call → Outcome (Pool Heap)
  step s gets = get prefix allocate s.arena s.heap >>= λ r.
      ok (record { arena = r.1; out = elim r.0 [ none ↦ s.out | some c ↦ c ∷ s.out ]; heap = r.2 })
  step s (refs i) = elim (get_elem? s.out i) [
    | none ↦ ok s
    | some c ↦ ok (record s { out = set s.out i (ref c) })
  ]
  step s (unrefs i) = elim (get_elem? s.out i) [
    | none ↦ ok s
    | some c ↦ unref s.arena c >>= λ r. ok (record s {
      arena = r.1;
      out = elim r.0 [ none ↦ remove_at s.out i | some c' ↦ set s.out i c' ];
    })
  ]

  unfoldable pub run : Pool Heap → List Call → Outcome (Pool Heap)
  run s [] = ok s
  run s (c ∷ cs) = step s c >>= λ s'. run s' cs

  -- A chunk at an address ends below 2^64.
  abbrev pub InMemory : Arena → ℕ → Type 0
  InMemory a item = item + chunk_size prefix allocate a < 2 ^ 64

  pub record IsPool (s : Pool Heap) : Type 0 where
    pub aligned : 0 < s.arena.alignment
    pub sizes : s.arena.elem_size + s.arena.alignment + prefix + s.arena.alignment < 2 ^ 63
    pub counted : s.arena.max_used ≢ no_limit → s.arena.used ≡ length s.out
    pub within : s.arena.max_used ≢ no_limit → length s.out ≤ s.arena.max_used
    pub kept : s.arena.max_released ≢ no_limit → s.arena.released ≡ length s.arena.lifo
    pub few : s.arena.max_released ≢ no_limit → length s.arena.lifo ≤ s.arena.max_released
    pub free : All (InMemory s.arena) s.arena.lifo
    pub taken : All (λ c. InMemory s.arena c.item) s.out

  -- what `malloc` promises of a request that can be met: a block that is not at NULL and ends below
  -- 2^64
  abbrev pub Allocates : Type 0
  Allocates =
      (size : ℕ) (heap : Heap)
      → size < 2 ^ 63
      → (0 < (allocate size heap).0) × ((allocate size heap).0 + size < 2 ^ 64)

  module _ (fits : Allocates) where
    -- An arena after a chunk has been taken, and the chunk.
    abbrev Taken : Arena → List ℕ → Chunk → Arena → Type 0
    Taken a l c a' =
        InMemory a c.item
        × (a'.alignment ≡ a.alignment)
        × (a'.elem_size ≡ a.elem_size)
        × (a'.used ≡ a.used)
        × (a'.max_used ≡ a.max_used)
        × (a'.max_released ≡ a.max_released)
        × (a.max_released ≢ no_limit → a'.released ≡ length a'.lifo)
        × (length a'.lifo ≤ length l)
        × All (InMemory a) a'.lifo

    take_from-Taken :
        (a : Arena) (heap : Heap) (l : List ℕ)
        → 0 < a.alignment
        → a.elem_size + a.alignment + prefix + a.alignment < 2 ^ 63
        → (a.max_released ≢ no_limit → a.released ≡ length l)
        → All (InMemory a) l
        → (c : Chunk) × (a' : Arena) × (heap' : Heap) × (take_from prefix allocate a l heap
            ≡ ok (c, a', heap'))
          × Taken a l c a'
    unfolding take_from
    take_from-Taken a heap [] p sizes kept free =
        let item = (allocate (chunk_size prefix allocate a) heap).0 in
        let small = chunk_size-lt prefix allocate a p (omega arith) in
        let (some_item, inside) = fits (chunk_size prefix allocate a) heap (omega arith) in
        let not_null : (item == 0) ≡ false = ground arith in
        let (c, ready, same, _, _, _) =
          prepare-aligned prefix allocate a item p (omega arith) inside in
        (
          c,
          record a { lifo = [] },
          (allocate (chunk_size prefix allocate a) heap).1,
          rw (not_null, ready),
          (rw same inside, refl, refl, refl, refl, refl, kept, omega arith, tt),
        )
    take_from-Taken a heap (item ∷ items) p sizes kept free =
        let (c, ready, same, _, _, _) =
          prepare-aligned prefix allocate a item p (omega arith) free.0 in
        elim (Bool-cases (a.max_released == no_limit)) [
          | inl q ↦ (
            c,
            record a { lifo = items },
            heap,
            rw (q, ready),
            (
              rw same free.0,
              refl,
              refl,
              refl,
              refl,
              refl,
              λ n. absurd (ground (arith, n, q)),
              omega arith,
              free.1,
            ),
          )
          | inr q ↦
              let count : a.released ≡ suc (length items) = kept (ground (arith, q)) in
              let z : a.released == 0 ≡ false = ground (arith, count) in
              (
                c,
                record a { lifo = items; released = a.released - 1 },
                heap,
                rw (q, z, ready),
                (
                  rw same free.0,
                  refl,
                  refl,
                  refl,
                  refl,
                  refl,
                  λ n. omega (arith, count),
                  omega arith,
                  free.1,
                ),
              )
        ]

  pub same-InMemory :
      (a a' : Arena) (item : ℕ)
      → a'.alignment ≡ a.alignment
      → a'.elem_size ≡ a.elem_size
      → InMemory a item
      → InMemory a' item
  unfolding chunk_size
  same-InMemory a a' item e f h = rw (e, f) h

  module _ (fits : Allocates) where
    -- A pool after a chunk has been taken for it.
    after_take-IsPool :
        (s : Pool Heap) (used : ℕ) (c : Chunk) (a' : Arena) (heap' : Heap)
        → IsPool s
        → Taken fits (record s.arena { used = used }) s.arena.lifo c a'
        → (s.arena.max_used ≢ no_limit → used ≡ suc (length s.out))
        → (s.arena.max_used ≢ no_limit → length s.out < s.arena.max_used)
        → IsPool (record { arena = a'; out = c ∷ s.out; heap = heap' })
    unfolding chunk_size
    after_take-IsPool s used c a' heap' v (m, al, el, us, mu, mr, kept, few, free) hu hw = record {
      aligned = omega (arith, al, v.aligned);
      sizes = omega (arith, al, el, v.sizes);
      counted = λ n. us ∙ hu (λ e. n (mu ∙ e));
      within = λ n. let l = hw (λ e. n (mu ∙ e)) in omega (arith, l, mu);
      kept = λ n. kept (λ e. n (mr ∙ e));
      few = λ n. let l = v.few (λ e. n (mr ∙ e)) in omega (arith, l, mr, few);
      free = All-map _ _ a'.lifo (λ x h. same-InMemory s.arena a' x al el h) free;
      taken = (
        same-InMemory s.arena a' c.item al el m,
        All-map _ _ s.out (λ x h. same-InMemory s.arena a' x.item al el h) v.taken,
      );
    }

    pub gets-IsPool :
        (s : Pool Heap) → IsPool s → (s' : Pool Heap) × (step s gets ≡ ok s') × IsPool s'
    unfolding step get take_chunk
    gets-IsPool s v = elim (Bool-cases (s.arena.max_used == no_limit)) [
      | inl e ↦
          let (c, a', heap', ready, t) =
            take_from-Taken fits s.arena s.heap s.arena.lifo v.aligned v.sizes v.kept v.free in
          (
            record { arena = a'; out = c ∷ s.out; heap = heap' },
            rw (e, ready),
            after_take-IsPool s s.arena.used c a' heap' v t (λ n. absurd (ground (arith, n, e)))
                (λ n. absurd (ground (arith, n, e))),
          )
      | inr e ↦ elim (Bool-cases (ltb s.arena.max_used (s.arena.used + 1))) [
        | inl l ↦ (s, rw (e, l), v)
        | inr l ↦
            let limited : s.arena.max_used ≢ no_limit = ground (arith, e) in
            let counted = v.counted limited in
            let more : s.arena.used + 1 ≤ s.arena.max_used = ground (arith, l) in
            let (c, a', heap', ready, t) =
              take_from-Taken fits (record s.arena { used = s.arena.used + 1 }) s.heap s.arena.lifo
                v.aligned v.sizes v.kept
                (All-map _ _ s.arena.lifo (λ x h. same-InMemory s.arena _ x refl refl h) v.free) in
            (
              record { arena = a'; out = c ∷ s.out; heap = heap' },
              rw (e, l, ready),
              after_take-IsPool s (s.arena.used + 1) c a' heap' v t (λ n. omega (arith, counted))
                  (λ n. omega (arith, counted, more)),
            )
      ]
    ]
