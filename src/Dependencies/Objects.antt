-- ===== src/Dependencies/Objects.antt =====
-- The table of the registered objects at the end of src/dague.c. `realloc` is taken to succeed; it
-- leaves new elements unset, and so element 0 forever.
use dague_hsa.Prelude.{
  ℕ, zero, suc, ◌+◌, ◌-◌, ◌*◌, ◌%◌, ◌^◌, ◌<◌, ◌≤◌, ◌≡◌, refl, sym, ap, ◌∙◌, true, false, Option,
  none, some, List, [], ◌∷◌, ◌++◌, arith, if◌then◌else◌, ltb, leb, length, get_elem?, set,
  replicate, length-set, length-append, length-replicate, Bool-cases, inl, inr, dec_lt,
  get_elem?-set_self, get_elem?-set_ne,
}
use mathlib.Core.List.{append-nil, append_assoc}
use dague_hsa.Outcome.{Outcome, ok, fault, ◌>>=◌}

-- `object_array`, `object_array_size` and `object_array_pos`; the array is NULL at first, and an element
-- that has not been set is `none`.
pub record Objects (A : Type 0) : Type 0 where
  pub array : List (Option A)
  pub size : ℕ
  pub pos : ℕ

module _ {A : Type 0} where
  abbrev pub no_objects : Objects A
  no_objects = record { array = []; size = 1; pos = 0 }

  -- `dague_object_lookup`: a read of an element that was never set, or out of the array, is a fault.
  unfoldable pub object_lookup : Objects A → ℕ → Outcome (Option A)
  object_lookup o id = if ltb o.pos id then ok none else elim (get_elem? o.array id) [
    | none ↦ fault
    | some element ↦ elim element [ none ↦ fault | some object ↦ ok (some object) ]
  ]

  -- the array after `realloc`, and its size
  unfoldable pub grow_array : Objects A → ℕ → List (Option A) × ℕ
  grow_array o index =
      let size = o.size * 2 % 2 ^ 32 in
      if leb o.size index
      then (o.array ++ replicate (size - length o.array) none, size)
      else (o.array, o.size)

  -- `dague_object_register`: the identifier, which is also what it returns, and the table
  unfoldable pub object_register : Objects A → A → Outcome (ℕ × Objects A)
  object_register o object =
      let index = (o.pos + 1) % 2 ^ 32 in
      let (array, size) = grow_array o index in
      if ltb index (length array)
      then ok (index, record { array = set array index (some object); size = size; pos = index })
      else fault

  -- the registration of objects one after the other
  unfoldable pub register_all : Objects A → List A → Outcome (Objects A)
  register_all o [] = ok o
  register_all o (object ∷ objects) = object_register o object >>= λ r. register_all r.1 objects

  -- The array has room for the position, and holds what has been registered.
  pub record Holds (o : Objects A) (objects : List A) : Type 0 where
    pub count : o.pos ≡ length objects
    pub large : o.pos < o.size
    pub room : 0 < o.pos → o.size ≤ length o.array
    pub bound : o.size ≤ o.pos * 2 + 1
    pub short : length o.array ≤ o.size
    pub elements :
        (i : ℕ) → i < length objects → get_elem? o.array (i + 1) ≡ some (get_elem? objects i)

  get_elem?-append_left :
      (xs ys : List (Option A)) (i : ℕ) → i < length xs → get_elem? (xs ++ ys) i ≡ get_elem? xs i
  get_elem?-append_left [] ys i h = absurd (omega arith)
  get_elem?-append_left (x ∷ xs) ys zero h = refl
  get_elem?-append_left (x ∷ xs) ys (suc i) h = get_elem?-append_left xs ys i (omega arith)

  get_elem?-snoc :
      (xs : List A) (x : A) (i : ℕ)
      → get_elem? (xs ++ x ∷ []) i
        ≡ (if ltb i (length xs) then get_elem? xs i else if ltb (length xs) i then none else some x)
  get_elem?-snoc [] x zero = ground arith
  get_elem?-snoc [] x (suc i) = ground arith
  get_elem?-snoc (y ∷ xs) x zero = ground arith
  get_elem?-snoc (y ∷ xs) x (suc i) = ground (arith, get_elem?-snoc xs x i)

  -- The array has room for the next object, and keeps its elements.
  grow_array-room :
      (o : Objects A) (objects : List A)
      → Holds o objects
      → o.pos + 1 < 2 ^ 31
      → (o.pos + 1 < (grow_array o (o.pos + 1)).1)
        × ((grow_array o (o.pos + 1)).1 ≡ length (grow_array o (o.pos + 1)).0)
        × ((grow_array o (o.pos + 1)).1 ≤ (o.pos + 1) * 2 + 1)
        × ((i : ℕ)
            → i < length o.array
            → get_elem? (grow_array o (o.pos + 1)).0 i ≡ get_elem? o.array i)
  unfolding grow_array
  grow_array-room o objects h small = elim (Bool-cases (leb o.size (o.pos + 1))) [
    | inl e ↦
        let l : o.size ≤ o.pos + 1 = ground (arith, e) in
        let w : o.size * 2 % 2 ^ 32 ≡ o.size * 2 = omega arith in
        let more = length-append o.array (replicate (o.size * 2 - length o.array) none) in
        let fill = length-replicate {A = Option A} (o.size * 2 - length o.array) none in
        rw (e, w)
          (
            omega (arith, h.large),
            omega (arith, more, fill, h.short),
            omega (arith, l),
            λ i lt. get_elem?-append_left o.array _ i lt,
          )
    | inr e ↦
        let l : o.pos + 1 < o.size = ground (arith, e) in
        rw e (
          l,
          omega (arith, h.room (omega (arith, h.bound)), h.short),
          omega (arith, h.bound),
          λ i lt. refl,
        )
  ]

  -- The elements after a registration.
  registered :
      (o : Objects A) (objects : List A) (object : A) (array : List (Option A)) (p i : ℕ)
      → Holds o objects
      → p ≡ o.pos + 1
      → p < length array
      → ((j : ℕ) → j < length o.array → get_elem? array j ≡ get_elem? o.array j)
      → i < length objects + 1
      → get_elem? (set array p (some object)) (i + 1) ≡ some (get_elem? (objects ++ object ∷ []) i)
  registered o objects object array p i h e lt kept l = elim (dec_lt i (length objects)) [
    | yes below ↦
        let old : i + 1 < length o.array =
          omega (arith, h.room (omega (arith, h.count)), h.large, h.count) in
        get_elem?-set_ne array {i = p} {j = i + 1} (some object) (λ q. omega (arith, h.count, e, q))
        ∙ kept (i + 1) old
        ∙ h.elements i below
        ∙ ap some (sym (get_elem?-snoc objects object i ∙ ground (arith, below)))
    | no above ↦
        let q : i + 1 ≡ p = omega (arith, h.count, e) in
        let end : i ≡ length objects = omega arith in
        rw (q, get_elem?-set_self array p (some object) lt)
          (ap some (sym (get_elem?-snoc objects object i ∙ ground (arith, end))))
  ]

  register-Holds :
      (o : Objects A) (objects : List A) (object : A)
      → Holds o objects
      → length objects + 1 < 2 ^ 31
      → (o' : Objects A) × (object_register o object ≡ ok (length objects + 1, o'))
        × Holds o' (objects ++ object ∷ [])
  unfolding object_register
  register-Holds o objects object h small =
      let p = o.pos + 1 in
      let few : p < 2 ^ 31 = omega (arith, h.count) in
      let (lt, same, bound, kept) = grow_array-room o objects h few in
      let w : p % 2 ^ 32 ≡ p = omega arith in
      let t : ltb p (length (grow_array o p).0) ≡ true = ground (arith, lt, same) in
      let array = set (grow_array o p).0 p (some object) in
      let long = length-set (grow_array o p).0 p (some object) in
      (
        record { array = array; size = (grow_array o p).1; pos = p },
        rw (w, t)
            (ap (λ k. ok (k, record { array = array; size = (grow_array o p).1; pos = p }))
              (omega (arith, h.count))),
        record {
          count = omega (arith, h.count, length-append objects (object ∷ []));
          large = lt;
          room = λ x. omega (arith, same, long);
          bound = bound;
          short = omega (arith, same, long);
          elements = λ i l.
              registered o objects object (grow_array o p).0 p i h refl (omega (arith, lt, same))
                kept (omega (arith, l, length-append objects (object ∷ [])));
        },
      )

  no_objects-Holds : Holds no_objects []
  no_objects-Holds = record {
    count = refl;
    large = omega arith;
    room = λ h. absurd (omega arith);
    bound = omega arith;
    short = omega arith;
    elements = λ i h. absurd (omega arith);
  }

  register_all-Holds :
      (xs : List A) (o : Objects A) (before : List A)
      → Holds o before
      → length before + length xs < 2 ^ 31
      → (o' : Objects A) × (register_all o xs ≡ ok o') × Holds o' (before ++ xs)
  unfolding register_all
  register_all-Holds [] o before h small = (o, refl, rw (append-nil before) h)
  register_all-Holds (x ∷ xs) o before h small =
      let (o1, e, h1) = register-Holds o before x h (omega arith) in
      let (o2, f, h2) =
        register_all-Holds xs o1 (before ++ x ∷ []) h1
          (omega (arith, length-append before (x ∷ []))) in
      (o2, rw e f, rw (← (append_assoc before (x ∷ []) xs)) h2)

  get_elem?-some : (xs : List A) (i : ℕ) → i < length xs → (x : A) × (get_elem? xs i ≡ some x)
  get_elem?-some [] i h = absurd (omega arith)
  get_elem?-some (x ∷ xs) zero h = (x, refl)
  get_elem?-some (x ∷ xs) (suc i) h = get_elem?-some xs i (omega arith)

  get_elem?-past : (xs : List A) (i : ℕ) → length xs ≤ i → get_elem? xs i ≡ none
  get_elem?-past [] i h = refl
  get_elem?-past (x ∷ xs) zero h = absurd (omega arith)
  get_elem?-past (x ∷ xs) (suc i) h = get_elem?-past xs i (omega arith)

  -- The registration of fewer than 2^31 objects in an empty table succeeds. A lookup then finds each of
  -- them under the position at which it was registered, counted from 1, and NULL under a larger number.
  pub register_all-object_lookup :
      (xs : List A)
      → length xs < 2 ^ 31
      → (o : Objects A) × (register_all no_objects xs ≡ ok o)
        × ((i : ℕ) → object_lookup o (i + 1) ≡ ok (get_elem? xs i))
  unfolding object_lookup
  register_all-object_lookup xs small =
      let (o, e, h) = register_all-Holds xs no_objects [] no_objects-Holds (omega arith) in
      (
        o,
        e,
        λ i. elim (dec_lt i (length xs)) [
          | yes l ↦
              let (x, q) = get_elem?-some xs i l in
              let t : ltb o.pos (i + 1) ≡ false = ground (arith, l, h.count) in
              rw (t, h.elements i l, q)
          | no l ↦
              let t : ltb o.pos (i + 1) ≡ true = ground (arith, l, h.count) in
              rw (t, get_elem?-past xs i (omega arith))
        ],
      )
