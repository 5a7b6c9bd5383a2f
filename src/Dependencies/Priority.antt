-- ===== src/Dependencies/Priority.antt =====
-- The list of ready tasks in include/dague.h: which tasks it holds, and whether it is sorted.
use dague_hsa.Prelude.{
  ◌≡◌, ◌≢◌, refl, true, false, inl, inr, List, [], ◌∷◌, ◌++◌, arith, Bool-cases, All, SameElements,
  count_p-append,
}
use dague_hsa.Prelude.Int.{ℤ, ◌≤ℤ◌, ltb_ℤ, pos, negsuc}
use dague_hsa.Dependencies.{add_after_head, add_by_priority}

≤ℤ_antisym : (a b : ℤ) → a ≤ℤ b → b ≤ℤ a → a ≡ b
≤ℤ_antisym (pos a) (pos b) h k = ground arith
≤ℤ_antisym (pos a) (negsuc b) h k = ground arith
≤ℤ_antisym (negsuc a) (pos b) h k = ground arith
≤ℤ_antisym (negsuc a) (negsuc b) h k = ground arith

module _ {A : Type 0} (priority : A → ℤ) where
  add_after_head-SameElements :
      (elem : A) (xs : List A) → SameElements (add_after_head priority elem xs) (elem ∷ xs)
  unfolding add_after_head
  add_after_head-SameElements elem [] p = refl
  add_after_head-SameElements elem (x ∷ xs) p =
      ground (arith, add_after_head-SameElements elem xs p)

  -- The list holds the tasks that it held, and the new one.
  pub add_by_priority-SameElements :
      (xs : List A) (elem : A) → SameElements (add_by_priority priority xs elem) (elem ∷ xs)
  unfolding add_by_priority
  add_by_priority-SameElements [] elem p = refl
  add_by_priority-SameElements (x ∷ xs) elem p =
      ground (arith, add_after_head-SameElements elem xs p, count_p-append p xs (elem ∷ []))

  -- No task stands behind one of lower priority.
  abbrev pub Sorted : List A → Type 0
  Sorted [] = Unit
  Sorted (x ∷ xs) = All (λ y. priority y ≤ℤ priority x) xs × Sorted xs

  add_after_head-All :
      (P : A → Type 0) (elem : A) (xs : List A)
      → P elem
      → All P xs
      → All P (add_after_head priority elem xs)
  unfolding add_after_head
  add_after_head-All P elem [] e h = (e, tt)
  add_after_head-All P elem (x ∷ xs) e h = elim (Bool-cases (ltb_ℤ (priority elem) (priority x))) [
    | inl l ↦ rw l (h.0, add_after_head-All P elem xs e h.1)
    | inr l ↦ rw l (e, h)
  ]

  All-below :
      (v w : ℤ) (xs : List A)
      → v ≤ℤ w
      → All (λ y. priority y ≤ℤ v) xs
      → All (λ y. priority y ≤ℤ w) xs
  All-below v w [] l h = tt
  All-below v w (x ∷ xs) l h = (omega (arith, h.0), All-below v w xs l h.1)

  add_after_head-Sorted :
      (elem : A) (xs : List A) → Sorted xs → Sorted (add_after_head priority elem xs)
  unfolding add_after_head
  add_after_head-Sorted elem [] h = (tt, tt)
  add_after_head-Sorted elem (x ∷ xs) h = elim (Bool-cases (ltb_ℤ (priority elem) (priority x))) [
    | inl l ↦ rw l (
      add_after_head-All (λ y. priority y ≤ℤ priority x) elem xs (ground (arith, l)) h.0,
      add_after_head-Sorted elem xs h.1,
    )
    | inr l ↦
        let le : priority x ≤ℤ priority elem = ground (arith, l) in
        rw l ((le, All-below (priority x) (priority elem) xs le h.0), h)
  ]

  -- A task whose priority differs from that of the head keeps a sorted list sorted.
  pub add_by_priority-Sorted :
      (x : A) (xs : List A) (elem : A)
      → Sorted (x ∷ xs)
      → priority elem ≢ priority x
      → Sorted (add_by_priority priority (x ∷ xs) elem)
  unfolding add_by_priority
  add_by_priority-Sorted x xs elem h ne = elim (Bool-cases (ltb_ℤ (priority elem) (priority x))) [
    | inl l ↦ rw l (
      add_after_head-All (λ y. priority y ≤ℤ priority x) elem xs (ground (arith, l)) h.0,
      add_after_head-Sorted elem xs h.1,
    )
    | inr l ↦
        let le : priority x ≤ℤ priority elem = ground (arith, l) in
        let m : ltb_ℤ (priority x) (priority elem) ≡ true =
          ground (arith, l, ne, ≤ℤ_antisym (priority elem) (priority x)) in
        rw (l, m) ((le, All-below (priority x) (priority elem) xs le h.0), h)
  ]

  All-last : (P : A → Type 0) (xs : List A) (elem : A) → All P (xs ++ elem ∷ []) → P elem
  All-last P [] elem h = h.0
  All-last P (x ∷ xs) elem h = All-last P xs elem h.1

  -- The last task of a sorted list has the lowest priority.
  Sorted-last :
      (xs : List A) (elem : A)
      → Sorted (xs ++ elem ∷ [])
      → All (λ y. priority elem ≤ℤ priority y) xs
  Sorted-last [] elem h = tt
  Sorted-last (x ∷ xs) elem h =
      (All-last (λ y. priority y ≤ℤ priority x) xs elem h.0, Sorted-last xs elem h.1)

  -- A task with the priority of the head goes to the end of the list: if any task has a lower priority,
  -- the list is not sorted any more.
  pub add_by_priority-not-Sorted :
      (x : A) (xs : List A) (elem : A)
      → priority elem ≡ priority x
      → ¬ All (λ y. priority x ≤ℤ priority y) xs
      → ¬ Sorted (add_by_priority priority (x ∷ xs) elem)
  unfolding add_by_priority
  add_by_priority-not-Sorted x xs elem e n h =
      let l : ltb_ℤ (priority elem) (priority x) ≡ false = rw e (ground arith) in
      let m : ltb_ℤ (priority x) (priority elem) ≡ false = rw e (ground arith) in
      let g : Sorted (x ∷ (xs ++ elem ∷ [])) = rw (l, m) at h in
      n (rw (← e) (Sorted-last xs elem g.1))
