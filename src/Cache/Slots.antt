-- ===== src/Cache/Slots.antt =====
-- What the loop of `do_cache_buf_referenced` finds in entries that are filled from the front.
use mathlib.Core.Path.{subst}
use mathlib.Core.List.{append-nil, append_assoc}
use dague_hsa.Prelude.{
  length-append, count_p-append, get_elem?-append_left, get_elem?-append_right, ◌<◌, ℕ, zero, suc,
  ◌+◌, ◌≡◌, refl, sym, ap, ◌∙◌, arith, Bool, true, false, Option, some, none, List, [], ◌∷◌, ◌++◌,
  if◌then◌else◌, ◌==◌, ltb, inl, inr, Bool-cases, ==_iff, length, get_elem?, set, replicate,
  length-replicate, count_p,
}
use dague_hsa.Cache.{Entry, empty_entry, Scan, start, is_older, look, scan}

-- a tile and its age
abbrev pub Slot : Type 0
Slot = ℕ × ℕ

-- slots, and room for m more
abbrev pub lay : List Slot → (m : ℕ) → List Entry
lay [] m = replicate m empty_entry
lay ((p, age) ∷ xs) m = record { tile_ptr = some p; age = age } ∷ lay xs m

abbrev pub filled : Slot → Entry
filled (p, age) = record { tile_ptr = some p; age = age }

pub length-lay : (xs : List Slot) (m : ℕ) → length (lay xs m) ≡ length xs + m
length-lay [] m = omega (arith, length-replicate m empty_entry)
length-lay ((p, age) ∷ xs) m = omega (arith, length-lay xs m)

pub set-lay :
    (xs : List Slot) (m i : ℕ) (old new : Slot)
    → get_elem? xs i ≡ some old
    → set (lay xs m) i (filled new) ≡ lay (set xs i new) m
set-lay [] m i old new g = cc
set-lay ((p, age) ∷ xs) m zero old new g = refl
set-lay ((p, age) ∷ xs) m (suc i) old new g =
    ap (λ (es : List Entry). filled (p, age) ∷ es) (set-lay xs m i old new g)

pub set-lay_end :
    (xs : List Slot) (m : ℕ) (new : Slot)
    → set (lay xs (suc m)) (length xs) (filled new) ≡ lay (xs ++ new ∷ []) m
set-lay_end [] m new = refl
set-lay_end ((p, age) ∷ xs) m new =
    ap (λ (es : List Entry). filled (p, age) ∷ es) (set-lay_end xs m new)

pub get-lay :
    (xs : List Slot) (m i : ℕ) (old : Slot)
    → get_elem? xs i ≡ some old
    → get_elem? (lay xs m) i ≡ some (filled old)
get-lay [] m i old g = cc
get-lay ((p, age) ∷ xs) m zero old g =
    ap (λ (o : Option Slot). elim o [ none ↦ none | some s ↦ some (filled s) ]) g
get-lay ((p, age) ∷ xs) m (suc i) old g = get-lay xs m i old g

pub count_p-set :
    (q : Slot → Bool) (xs : List Slot) (i : ℕ) (old new : Slot)
    → get_elem? xs i ≡ some old
    → count_p q (set xs i new) + (if q old then 1 else 0) ≡ count_p q xs + (if q new then 1 else 0)
count_p-set q [] i old new g = cc
count_p-set q (x ∷ xs) zero old new g = let e : x ≡ old = cc in rw (sym e) (omega arith)
count_p-set q (x ∷ xs) (suc i) old new g = omega (arith, count_p-set q xs i old new g)

-- A stronger test passes nowhere where a weaker one passes nowhere.
pub count_p-none :
    (q q' : Slot → Bool)
    → ((e : Slot) → q e ≡ true → q' e ≡ true)
    → (xs : List Slot) → count_p q' xs ≡ 0
    → count_p q xs ≡ 0
count_p-none q q' h [] z = refl
count_p-none q q' h (x ∷ xs) z = elim (Bool-cases (q x)) [
  | inl e ↦ let e' = h x e in absurd (let z' : 1 + count_p q' xs ≡ 0 = rw e' at z in omega arith)
  | inr e ↦ rw e (let z' = count_p-none q q' h xs (omega arith) in omega arith)
]

abbrev pub has_tile : (t : ℕ) → Slot → Bool
has_tile t e = e.0 == t

abbrev pub Found : (t : ℕ) → List Slot → Option ℕ → Type 0
Found t xs none = count_p (has_tile t) xs ≡ 0
Found t xs (some i) = (a : ℕ) × (get_elem? xs i ≡ some (t, a))

abbrev pub Oldest : List Slot → Option (ℕ × ℕ) → Type 0
Oldest xs none = length xs ≡ 0
Oldest xs (some (i, a)) =
    ((p : ℕ) × (get_elem? xs i ≡ some (p, a))) × (count_p (λ e. ltb e.1 a) xs ≡ 0)

-- what the locals of the loop hold after the slots xs
pub record Seen (t : ℕ) (xs : List Slot) (s : Scan) : Type 0 where
  pub at_end : s.i ≡ length xs
  pub youngest : count_p (λ e. ltb s.youngest_age e.1) xs ≡ 0
  pub found : Found t xs s.found_elem
  pub oldest : Oldest xs s.oldest

get-end : (xs : List Slot) (x : Slot) (i : ℕ) → i ≡ length xs → get_elem? (xs ++ x ∷ []) i ≡ some x
get-end xs x i e = get_elem?-append_right xs (x ∷ []) i 0 (omega arith)

get-lt : {A : Type 0} (xs : List A) (i : ℕ) (a : A) → get_elem? xs i ≡ some a → i < length xs
get-lt [] i a g = cc
get-lt (x ∷ xs) zero a g = omega arith
get-lt (x ∷ xs) (suc i) a g = omega (arith, get-lt xs i a g)

get-old :
    (xs : List Slot) (x y : Slot) (i : ℕ)
    → get_elem? xs i ≡ some y
    → get_elem? (xs ++ x ∷ []) i ≡ some y
get-old xs x y i g = get_elem?-append_left xs (x ∷ []) i (get-lt xs i y g) ∙ g

count-end :
    (q : Slot → Bool) (xs : List Slot) (x : Slot)
    → count_p q xs ≡ 0
    → q x ≡ false
    → count_p q (xs ++ x ∷ []) ≡ 0
count-end q xs x z e = count_p-append q xs (x ∷ []) ∙ rw e (omega arith)

Found-old :
    (t p a : ℕ) (xs : List Slot) (f : Option ℕ)
    → Found t xs f
    → (p == t) ≡ false
    → Found t (xs ++ (p, a) ∷ []) f
Found-old t p a xs none h e = count-end (has_tile t) xs (p, a) h e
Found-old t p a xs (some i) (b, g) e = (b, get-old xs (p, a) (t, b) i g)

look-found :
    (t p a : ℕ) (xs : List Slot) (s : Scan)
    → Seen t xs s
    → Found t (xs ++ (p, a) ∷ []) (look t p a s).found_elem
unfolding look
look-found t p a xs s seen = elim (Bool-cases (p == t)) [
  | inl e ↦
      let q : p ≡ t = (==_iff p t).0 e in
      rw e (a, get-end xs (p, a) s.i seen.at_end ∙ ap (λ (r : ℕ). some (r, a)) q)
  | inr e ↦ rw e (Found-old t p a xs s.found_elem seen.found e)
]

pub empty_none : (q : Slot → Bool) (xs : List Slot) → length xs ≡ 0 → count_p q xs ≡ 0
empty_none q [] e = refl
empty_none q (x ∷ xs) e = absurd (omega arith)

Oldest-next :
    (p a i : ℕ) (xs : List Slot) (o : Option (ℕ × ℕ))
    → i ≡ length xs
    → Oldest xs o
    → Oldest (xs ++ (p, a) ∷ []) (if is_older a o then some (i, a) else o)
unfolding is_older
Oldest-next p a i xs none l h = (
  (p, get-end xs (p, a) i l),
  count-end (λ e. ltb e.1 a) xs (p, a) (empty_none (λ e. ltb e.1 a) xs h) (ground arith),
)
Oldest-next p a i xs (some (k, b)) l ((r, g), z) = elim (Bool-cases (ltb a b)) [
  | inl e ↦ rw e (
    (p, get-end xs (p, a) i l),
    count-end (λ e. ltb e.1 a) xs (p, a)
        (count_p-none (λ e. ltb e.1 a) (λ e. ltb e.1 b) (λ x h. ground arith) xs z) (ground arith),
  )
  | inr e ↦ rw e ((r, get-old xs (p, a) (r, b) k g), count-end (λ e. ltb e.1 b) xs (p, a) z e)
]

look-youngest :
    (t p a : ℕ) (xs : List Slot) (s : Scan)
    → Seen t xs s
    → count_p (λ e. ltb (look t p a s).youngest_age e.1) (xs ++ (p, a) ∷ []) ≡ 0
unfolding look
look-youngest t p a xs s seen = elim (Bool-cases (ltb s.youngest_age a)) [
  | inl h ↦ rw h (
      count-end (λ e. ltb a e.1) xs (p, a)
        (count_p-none (λ e. ltb a e.1) (λ e. ltb s.youngest_age e.1) (λ e l. ground arith) xs
          seen.youngest)
        (ground arith))
  | inr h ↦ rw h (count-end (λ e. ltb s.youngest_age e.1) xs (p, a) seen.youngest h)
]

look-Seen :
    (t p a : ℕ) (xs : List Slot) (s : Scan)
    → Seen t xs s
    → Seen t (xs ++ (p, a) ∷ []) (look t p a s)
unfolding look
look-Seen t p a xs s seen = record {
  at_end = omega (arith, seen.at_end, length-append xs ((p, a) ∷ []));
  youngest = look-youngest t p a xs s seen;
  found = look-found t p a xs s seen;
  oldest = Oldest-next p a s.i xs s.oldest seen.at_end seen.oldest;
}

-- The loop sees every slot and stops at the first empty entry.
scan-Seen_from :
    (t m : ℕ) (xs pre : List Slot) (s : Scan)
    → Seen t pre s
    → Seen t (pre ++ xs) (scan t (lay xs m) s)
unfolding scan
scan-Seen_from t zero [] pre s seen =
    subst (λ (l : List Slot). Seen t l s) (sym (append-nil pre)) seen
scan-Seen_from t (suc m) [] pre s seen =
    subst (λ (l : List Slot). Seen t l s) (sym (append-nil pre)) seen
scan-Seen_from t m ((p, a) ∷ xs) pre s seen =
    subst (λ (l : List Slot). Seen t l (scan t (lay xs m) (look t p a s)))
      (append_assoc pre ((p, a) ∷ []) xs)
      (scan-Seen_from t m xs (pre ++ (p, a) ∷ []) (look t p a s) (look-Seen t p a pre s seen))

pub scan-Seen : (t m : ℕ) (xs : List Slot) → Seen t xs (scan t (lay xs m) start)
scan-Seen t m xs =
    scan-Seen_from t m xs [] start
      (record { at_end = refl; youngest = refl; found = refl; oldest = refl })
