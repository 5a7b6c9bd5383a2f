-- ===== src/HbBuffer/Push.antt =====
-- `dague_hbbuffer_push_all` of include/hbbuffer.h: where the tasks go.
use Prim.Native.Nat.{min}
use dague_hsa.Prelude.{
  drop, sym, zero, ℕ, suc, ◌+◌, ◌≡◌, refl, Bool, Option, none, some, List, [], ◌∷◌, ◌++◌, arith,
  length, count_p, count_p-append, SameElements, ap, ◌∙◌,
}
use dague_hsa.HbBuffer.{HbBuffer, Store, queue, level, fill, push_all}

module _ {A : Type 0} where
  -- the tasks in the slots of a buffer, and in a store and its parents
  abbrev pub stored : List (Option A) → List A
  stored [] = []
  stored (none ∷ slots) = stored slots
  stored (some x ∷ slots) = x ∷ stored slots

  abbrev pub tasks : Store A → List A
  tasks (queue q) = q
  tasks (level b parent) = stored b.items ++ tasks parent

  pub fill-SameElements :
      (p : A → Bool) (slots : List (Option A)) (elts : List A)
      → let (slots', rest) = fill slots elts in
        count_p p (stored slots') + count_p p rest ≡ count_p p (stored slots) + count_p p elts
  unfolding fill
  fill-SameElements p [] [] = omega arith
  fill-SameElements p (none ∷ slots) [] = omega arith
  fill-SameElements p (some x ∷ slots) [] = omega arith
  fill-SameElements p [] (e ∷ es) = omega arith
  fill-SameElements p (some x ∷ slots) (e ∷ es) = omega (arith, fill-SameElements p slots (e ∷ es))
  fill-SameElements p (none ∷ slots) (e ∷ es) = omega (arith, fill-SameElements p slots es)

  pub fill-length :
      (slots : List (Option A)) (elts : List A) → length (fill slots elts).0 ≡ length slots
  unfolding fill
  fill-length [] [] = refl
  fill-length (x ∷ slots) [] = refl
  fill-length [] (e ∷ es) = refl
  fill-length (some x ∷ slots) (e ∷ es) = ap suc (fill-length slots (e ∷ es))
  fill-length (none ∷ slots) (e ∷ es) = ap suc (fill-length slots es)

  -- what goes to the parent store
  abbrev pub overflow : Store A → List A → Store A
  overflow parent [] = parent
  overflow parent (e ∷ es) = push_all parent (e ∷ es)

  overflow-count :
      (p : A → Bool) (parent : Store A) (rest : List A)
      → count_p p (tasks (push_all parent rest)) ≡ count_p p (tasks parent ++ rest)
      → count_p p (tasks (overflow parent rest)) ≡ count_p p (tasks parent) + count_p p rest
  overflow-count p parent [] h = omega arith
  overflow-count p parent (e ∷ es) h = h ∙ count_p-append p (tasks parent) (e ∷ es)

  -- `push_all` into a buffer under any chain of parents loses no task and makes none.
  pub push_all-SameElements :
      (s : Store A) (elts : List A) → SameElements (tasks (push_all s elts)) (tasks s ++ elts)
  unfolding push_all
  push_all-SameElements (queue q) elts p = refl
  push_all-SameElements (level b parent) elts p = omega (
    arith,
    fill-SameElements p b.items elts,
    count_p-append p (stored (fill b.items elts).0) (tasks (overflow parent (fill b.items elts).1)),
    count_p-append p (stored b.items) (tasks parent),
    count_p-append p (stored b.items ++ tasks parent) elts,
    count_p-append p (tasks parent) (fill b.items elts).1,
    overflow-count p parent (fill b.items elts).1
        (push_all-SameElements parent (fill b.items elts).1 p),
  )

  -- the room of a buffer
  abbrev pub free : List (Option A) → ℕ
  free [] = 0
  free (none ∷ slots) = suc (free slots)
  free (some x ∷ slots) = free slots

  free-add-stored : (slots : List (Option A)) → free slots + length (stored slots) ≡ length slots
  free-add-stored [] = omega arith
  free-add-stored (none ∷ slots) = omega (arith, free-add-stored slots)
  free-add-stored (some x ∷ slots) = omega (arith, free-add-stored slots)

  drop-nil : (n : ℕ) → drop {A = A} n [] ≡ []
  drop-nil zero = refl
  drop-nil (suc n) = refl

  pub fill-rest :
      (slots : List (Option A)) (elts : List A) → (fill slots elts).1 ≡ drop (free slots) elts
  unfolding fill
  fill-rest [] [] = refl
  fill-rest (none ∷ slots) [] = refl
  fill-rest (some x ∷ slots) [] = sym (drop-nil (free slots))
  fill-rest [] (e ∷ es) = refl
  fill-rest (some x ∷ slots) (e ∷ es) = fill-rest slots (e ∷ es)
  fill-rest (none ∷ slots) (e ∷ es) = fill-rest slots es

  fill-stored :
      (slots : List (Option A)) (elts : List A)
      → length (stored (fill slots elts).0)
        ≡ min (length slots) (length (stored slots) + length elts)
  unfolding fill
  fill-stored [] [] = omega arith
  fill-stored (none ∷ slots) [] = omega (arith, free-add-stored slots)
  fill-stored (some x ∷ slots) [] = omega (arith, free-add-stored slots)
  fill-stored [] (e ∷ es) = omega arith
  fill-stored (some x ∷ slots) (e ∷ es) = omega (arith, fill-stored slots (e ∷ es))
  fill-stored (none ∷ slots) (e ∷ es) = omega (arith, fill-stored slots es)

  -- `push_all` keeps the number of slots, stores as many of the tasks as there are free slots, and
  -- hands the others to the parent store in their order, or leaves it alone if all have found room.
  pub push_all_bounded :
      (b : HbBuffer A) (parent : Store A) (elts : List A)
      → (b' : HbBuffer A) × (push_all (level b parent) elts
          ≡ level b' (overflow parent (drop (free b.items) elts)))
        × (length b'.items ≡ length b.items)
        × (length (stored b'.items) ≡ min (length b.items) (length (stored b.items) + length elts))
  unfolding push_all
  push_all_bounded b parent elts = (
    record b { items = (fill b.items elts).0 },
    ap (λ r. level (record b { items = (fill b.items elts).0 }) (overflow parent r))
        (fill-rest b.items elts),
    fill-length b.items elts,
    fill-stored b.items elts,
  )
