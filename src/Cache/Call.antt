-- ===== src/Cache/Call.antt =====
-- A call of do_cache_buf_referenced of Buf2Cache/buf2cache.c: what it returns and leaves.
use mathlib.Core.Path.{subst}
use dague_hsa.Outcome.{Outcome, ok}
use dague_hsa.Prelude.{
  ℕ, zero, suc, ◌+◌, ◌≡◌, refl, sym, arith, true, false, Option, some, none, List, [], ◌∷◌, ◌++◌,
  ltb, Option-cases, inl, inr, length, get_elem?, set, take, count_p, length-set, length-append,
  SameElements,
}
use dague_hsa.Cache.{Entry, Scan, start, scan, update, do_cache_buf_referenced}
use dague_hsa.Cache.Slots.{
  Slot, lay, length-lay, set-lay, set-lay_end, get-lay, has_tile, Found, Oldest, Seen, scan-Seen,
}
use dague_hsa.Cache.Recent.{others_than, Ordered, take-Ordered}
use dague_hsa.Cache.Queries.{tiles_of}
use dague_hsa.Cache.Evict.{lost, found-lost, room-lost, full-lost}
use dague_hsa.Cache.Lru.{Keeps, touched-Ordered, set-same, append-same, evict-same}

-- the slots by their last reference after one more
abbrev pub touched : (n t age : ℕ) → List Slot → List Slot
touched n t age ys = take n ((t, age + 1) ∷ others_than t ys)

-- A call that succeeds and leaves k + 1 entries that hold the slots with the tile in
-- front, without the one that it returns.
abbrev pub Called : (k t : ℕ) → List Slot → Outcome (List Entry × Option ℕ) → Type 0
Called k t ys result =
    (entries' : List Entry) × (old : Option ℕ) × (age : ℕ) × (result ≡ ok (entries', old))
    × Keeps (suc k) entries' (touched (suc k) t age ys)
    × (old ≡ lost k t (tiles_of ys))

module _ (k t : ℕ) (ys : List Slot) (o : Ordered ys) (xs : List Slot) where
  module _ (same : SameElements xs ys) where
    touched-Keeps :
        (xs' : List Slot) (m age : ℕ)
        → count_p (λ e. ltb age e.1) xs ≡ 0
        → length xs' + m ≡ suc k
        → SameElements xs' ((t, age + 1) ∷ take k (others_than t ys))
        → Keeps (suc k) (lay xs' m) (touched (suc k) t age ys)
    touched-Keeps xs' m age z l s = record {
      slots = xs';
      room = m;
      laid = refl;
      size = l;
      same = s;
      ordered =
          take-Ordered (suc k) ((t, age + 1) ∷ others_than t ys)
            (touched-Ordered t age xs ys same o z);
    }

    -- what the scan has found, and the call on it
    call_found :
        (m i a : ℕ) (s : Scan)
        → Seen t xs s
        → length xs + m ≡ suc k
        → s.found_elem ≡ some i
        → get_elem? xs i ≡ some (t, a)
        → Called k t ys (update (lay xs m) t s)
    unfolding update
    call_found m i a s seen l f g =
        let age = s.youngest_age in
        (
          lay (set xs i (t, age + 1)) m,
          none,
          age,
          rw (f, sym (set-lay xs m i (t, a) (t, age + 1) g)) refl,
          touched-Keeps (set xs i (t, age + 1)) m age seen.youngest
              (rw (length-set xs i (t, age + 1)) l)
              (set-same k t ys o (t, age + 1) xs i a same (omega arith) g),
          found-lost k t xs ys same i a g,
        )

    call_append :
        (m : ℕ) (s : Scan)
        → Seen t xs s
        → length xs + suc m ≡ suc k
        → s.found_elem ≡ none
        → count_p (has_tile t) xs ≡ 0
        → Called k t ys (update (lay xs (suc m)) t s)
    unfolding update
    call_append m s seen l f z =
        let age = s.youngest_age in
        let end = seen.at_end in
        let size = length-lay xs (suc m) in
        let room : ltb s.i (length (lay xs (suc m))) ≡ true = ground arith in
        (
          lay (xs ++ (t, age + 1) ∷ []) m,
          none,
          age,
          rw (f, room, end, set-lay_end xs m (t, age + 1)) refl,
          touched-Keeps (xs ++ (t, age + 1) ∷ []) m age seen.youngest
              (let la = length-append xs ((t, age + 1) ∷ []) in omega arith)
              (append-same k t ys o (t, age + 1) xs same (omega arith) z),
          room-lost k t xs ys same (omega arith) z,
        )

    call_evict :
        (i a p : ℕ) (s : Scan)
        → Seen t xs s
        → length xs ≡ suc k
        → s.found_elem ≡ none
        → count_p (has_tile t) xs ≡ 0
        → s.oldest ≡ some (i, a)
        → get_elem? xs i ≡ some (p, a)
        → count_p (λ e. ltb e.1 a) xs ≡ 0
        → Called k t ys (update (lay xs 0) t s)
    unfolding update
    call_evict i a p s seen l f z d g least =
        let age = s.youngest_age in
        let end = seen.at_end in
        let size = length-lay xs 0 in
        let full : ltb s.i (length (lay xs 0)) ≡ false = ground arith in
        (
          lay (set xs i (t, age + 1)) 0,
          some p,
          age,
          rw (f, full, d, get-lay xs 0 i (p, a) g, sym (set-lay xs 0 i (p, a) (t, age + 1) g)) refl,
          touched-Keeps (set xs i (t, age + 1)) 0 age seen.youngest
              (let ls = length-set xs i (t, age + 1) in omega arith)
              (evict-same k t ys o (t, age + 1) xs i (p, a) same l z g least),
          full-lost k t xs ys same i (p, a) o l z g least,
        )

    call_absent :
        (m : ℕ)
        → length xs + m ≡ suc k
        → (scan t (lay xs m) start).found_elem ≡ none
        → Called k t ys (do_cache_buf_referenced (lay xs m) t)
    unfolding do_cache_buf_referenced
    call_absent (suc m) l f =
        let seen = scan-Seen t (suc m) xs in
        let z : Found t xs none = subst (Found t xs) f seen.found in
        call_append m (scan t (lay xs (suc m)) start) seen l f z
    call_absent zero l f =
        let seen = scan-Seen t 0 xs in
        let z : Found t xs none = subst (Found t xs) f seen.found in
        elim (Option-cases (scan t (lay xs 0) start).oldest) [
          | inl e ↦
              let none_left : Oldest xs none = subst (Oldest xs) e seen.oldest in
              absurd (omega arith)
          | inr ((i, a), e) ↦
              let ((p, g), least) : Oldest xs (some (i, a)) = subst (Oldest xs) e seen.oldest in
              call_evict i a p (scan t (lay xs 0) start) seen (omega arith) f z e g least
        ]

    call_laid :
        (m : ℕ) → length xs + m ≡ suc k → Called k t ys (do_cache_buf_referenced (lay xs m) t)
    unfolding do_cache_buf_referenced
    call_laid m l = elim (Option-cases (scan t (lay xs m) start).found_elem) [
      | inl f ↦ call_absent m l f
      | inr (i, f) ↦
          let seen = scan-Seen t m xs in
          let (a, g) : Found t xs (some i) = subst (Found t xs) f seen.found in
          call_found m i a (scan t (lay xs m) start) seen l f g
    ]

pub do_cache_buf_referenced-Called :
    (k t : ℕ) (entries : List Entry) (ys : List Slot)
    → Keeps (suc k) entries ys
    → Called k t ys (do_cache_buf_referenced entries t)
do_cache_buf_referenced-Called k t entries ys h =
    subst (λ (es : List Entry). Called k t ys (do_cache_buf_referenced es t)) (sym h.laid)
      (call_laid k t ys h.ordered h.slots h.same h.room h.size)
