-- ===== src/Symbols/Laws.antt =====
-- The table of src/symbol.c: its names, its room, and what a search finds.
use text.Mathlib.Text.{◌==◌ as str_eq}
use text.Mathlib.TextEquality.{eq_iff}
use Prim.Native.String.{String}
use dague_hsa.Prelude.{
  ℕ, Bool, true, false, not, ◌&&◌, leb, ◌*◌, ◌^◌, ◌<◌, Bool-cases, ◌+◌, ◌≤◌, ◌≡◌, refl, none, some,
  List, [], ◌∷◌, ◌++◌, arith, if◌then◌else◌, length, length-append, Option-cases, inl, inr, ◌⊎◌,
  sym, ◌∙◌,
}
use dague_hsa.Outcome.{ok, fail, symbol_not_found}
use dague_hsa.Expr.{Expr, null, Symbol, symbol, name_of}
use dague_hsa.Symbols.{
  Table, search, search_global_symbol, load, load_symbols, set_range, assign_global_symbol, grow,
  is_full, add_global_symbol, add_global_symbol_cst,
}

-- No name stands twice in the table.
abbrev pub NamesDistinct : List Symbol → Type 0
NamesDistinct [] = Unit
NamesDistinct (s ∷ ss) = (search ss (name_of s) ≡ none) × NamesDistinct ss

pub record IsTable (t : Table) : Type 0 where
  pub distinct : NamesDistinct t.symbols
  pub room : length t.symbols ≤ t.size

search-append :
    (xs ys : List Symbol) (n : String)
    → search (xs ++ ys) n ≡ elim (search xs n) [ none ↦ search ys n | some s ↦ some s ]
unfolding search
search-append [] ys n = refl
search-append (x ∷ xs) ys n = ground (arith, search-append xs ys n)

append-NamesDistinct :
    (xs : List Symbol) (s : Symbol)
    → search xs (name_of s) ≡ none
    → NamesDistinct xs
    → NamesDistinct (xs ++ s ∷ [])
unfolding search
append-NamesDistinct [] s h d = (refl, tt)
append-NamesDistinct (x ∷ xs) s h d = ground (
  arith,
  search-append xs (s ∷ []) (name_of x),
  append-NamesDistinct xs s,
  eq_iff (name_of x) (name_of s),
  eq_iff (name_of s) (name_of x),
)

load-NamesDistinct : (xs known : List Symbol) → NamesDistinct known → NamesDistinct (load known xs)
unfolding load
load-NamesDistinct [] known d = d
load-NamesDistinct (s ∷ xs) known d = elim (Option-cases (search known (name_of s))) [
  | inl e ↦ rw e (load-NamesDistinct xs (known ++ s ∷ []) (append-NamesDistinct known s e d))
  | inr (f, e) ↦ rw e (load-NamesDistinct xs known d)
]

length-load : (xs known : List Symbol) → length (load known xs) ≤ length xs + length known
unfolding load
length-load [] known = omega arith
length-load (s ∷ xs) known = elim (Option-cases (search known (name_of s))) [
  | inl e ↦ rw e (omega (arith, length-load xs (known ++ s ∷ []), length-append known (s ∷ [])))
  | inr (f, e) ↦ rw e (omega (arith, length-load xs known))
]

-- `dague_load_symbols` keeps the names distinct and makes enough room.
pub load_symbols-IsTable : (t : Table) (xs : List Symbol) → IsTable t → IsTable (load_symbols t xs)
unfolding load_symbols
load_symbols-IsTable t xs v =
    ground (arith, load-NamesDistinct xs t.symbols v.distinct, length-load xs t.symbols)

search-load :
    (xs known : List Symbol) (n : String)
    → search (load known xs) n ≡ elim (search known n) [ none ↦ search xs n | some s ↦ some s ]
unfolding load search
search-load [] known n = ground arith
search-load (s ∷ xs) known n = elim (Option-cases (search known (name_of s))) [
  | inl e ↦ ground (
    arith,
    search-load xs (known ++ s ∷ []) n,
    search-append known (s ∷ []) n,
    eq_iff (name_of s) n,
  )
  | inr (f, e) ↦ ground (arith, search-load xs known n, eq_iff (name_of s) n)
]

-- After `dague_load_symbols` a search finds what it found before, and else the first of the loaded
-- symbols with the name.
pub search-load_symbols :
    (t : Table) (xs : List Symbol) (n : String)
    → search_global_symbol (load_symbols t xs) n
      ≡ elim (search_global_symbol t n) [ none ↦ search xs n | some s ↦ some s ]
unfolding search_global_symbol load_symbols
search-load_symbols t xs n = search-load xs t.symbols n

-- a symbol whose range has been assigned
abbrev pub ranged : Expr → Symbol → Symbol
ranged e (symbol flags name lo hi) = symbol flags name e e

search-set_range :
    (ss : List Symbol) (n m : String) (e : Expr)
    → search (set_range ss n e) m ≡ (
        if str_eq n m
        then elim (search ss n) [ none ↦ none | some s ↦ some (ranged e s) ]
        else search ss m)
unfolding search set_range
search-set_range [] n m e = ground arith
search-set_range (symbol flags name lo hi ∷ ss) n m e =
    ground (arith, search-set_range ss n m e, eq_iff name n, eq_iff name m, eq_iff n m)

set_range-NamesDistinct :
    (ss : List Symbol) (n : String) (e : Expr) → NamesDistinct ss → NamesDistinct (set_range ss n e)
unfolding set_range search
set_range-NamesDistinct [] n e d = tt
set_range-NamesDistinct (symbol flags name lo hi ∷ ss) n e d = ground (
  arith,
  search-set_range ss n name e,
  set_range-NamesDistinct ss n e d.1,
  eq_iff name n,
  eq_iff n name,
)

length-set_range :
    (ss : List Symbol) (n : String) (e : Expr) → length (set_range ss n e) ≡ length ss
unfolding set_range
length-set_range [] n e = refl
length-set_range (symbol flags name lo hi ∷ ss) n e = ground (arith, length-set_range ss n e)

pub assign_global_symbol-IsTable :
    (t t' : Table) (n : String) (e : Expr)
    → IsTable t
    → assign_global_symbol t n e ≡ ok t'
    → IsTable t'
unfolding assign_global_symbol
assign_global_symbol-IsTable t t' n e v h =
    ground (arith, set_range-NamesDistinct t.symbols n e v.distinct, length-set_range t.symbols n e)

-- the table with one more symbol
abbrev pub with_symbol : Table → String → Table
with_symbol t n = record {
  symbols = t.symbols ++ symbol 1 n null null ∷ [];
  size = grow (length t.symbols) t.size;
}

module _ (t : Table) (n : String) where
  with_symbol-IsTable : IsTable t → search_global_symbol t n ≡ none → IsTable (with_symbol t n)
  unfolding search_global_symbol grow
  with_symbol-IsTable v h = record {
    distinct = append-NamesDistinct t.symbols (symbol 1 n null null) h v.distinct;
    room = ground (arith, v.room, length-append t.symbols (symbol 1 n null null ∷ []));
  }

  assign-found :
      (e : Expr) (s : Symbol)
      → search_global_symbol t n ≡ some s
      → assign_global_symbol t n e ≡ ok (record t { symbols = set_range t.symbols n e })
  unfolding assign_global_symbol
  assign-found e s h = ground arith

  search-with_symbol :
      search_global_symbol t n ≡ none
      → search_global_symbol (with_symbol t n) n ≡ some (symbol 1 n null null)
  unfolding search_global_symbol
  search-with_symbol h =
      ground (arith, search-append t.symbols (symbol 1 n null null ∷ []) n, eq_iff n n)

  search-cst :
      (e : Expr) (m : String)
      → search_global_symbol t n ≡ none
      → search (set_range (t.symbols ++ symbol 1 n null null ∷ []) n e) m
        ≡ (if str_eq n m then some (symbol 1 n e e) else search_global_symbol t m)
  unfolding search_global_symbol
  search-cst e m h = ground (
    arith,
    search-set_range (t.symbols ++ symbol 1 n null null ∷ []) n m e,
    search-append t.symbols (symbol 1 n null null ∷ []) n,
    search-append t.symbols (symbol 1 n null null ∷ []) m,
    eq_iff n n,
    eq_iff n m,
  )

by_bools : (a b : Bool) → a && not b ≡ true → (a ≡ true) × (b ≡ false)
by_bools true false f = (refl, refl)
by_bools true true f = cc
by_bools false b f = cc

true-false : true ≡ false → ⊥
true-false e = cc

module _ (allocates : ℕ → Bool) (t : Table) (n : String) where
  -- what stops the adding of a symbol: the name is taken, or the table is full and gets no room
  abbrev pub Stopped : Type 0
  Stopped =
      ((s : Symbol) × (search_global_symbol t n ≡ some s))
      ⊎ ((is_full t ≡ true) × (allocates (grow (length t.symbols) t.size * 8) ≡ false))

  add-taken :
      (s : Symbol)
      → search_global_symbol t n ≡ some s
      → add_global_symbol allocates t n ≡ fail symbol_not_found
  unfolding add_global_symbol
  add-taken s h = ground arith

  grow-fits : t.size < 2 ^ 30 → leb (2 ^ 31) (grow (length t.symbols) t.size) ≡ false
  unfolding grow
  grow-fits small = ground arith

  add-no_memory :
      search_global_symbol t n ≡ none
      → t.size < 2 ^ 30
      → is_full t && not (allocates (grow (length t.symbols) t.size * 8)) ≡ true
      → add_global_symbol allocates t n ≡ fail symbol_not_found
  unfolding add_global_symbol
  add-no_memory h small f = let g = grow-fits small in ground arith

  add-free :
      search_global_symbol t n ≡ none
      → t.size < 2 ^ 30
      → is_full t && not (allocates (grow (length t.symbols) t.size * 8)) ≡ false
      → add_global_symbol allocates t n ≡ ok (with_symbol t n)
  unfolding add_global_symbol
  add-free h small f = let g = grow-fits small in ground arith

  no_room :
      is_full t && not (allocates (grow (length t.symbols) t.size * 8)) ≡ true
      → (is_full t ≡ true) × (allocates (grow (length t.symbols) t.size * 8) ≡ false)
  no_room f = by_bools (is_full t) (allocates (grow (length t.symbols) t.size * 8)) f

  not_stopped :
      search_global_symbol t n ≡ none
      → is_full t && not (allocates (grow (length t.symbols) t.size * 8)) ≡ false
      → ¬ Stopped
  not_stopped h f (inl (s, k)) = cc
  not_stopped h f (inr (a, b)) = true-false (sym (rw (a, b) refl) ∙ f)

  -- On a table for less than 2^30 symbols, `dague_add_global_symbol_cst` fails exactly where the name
  -- is taken, or the table is full and `realloc` gives no memory. Otherwise the table keeps its
  -- invariant, a search for the name finds a global symbol with the expression for both ends of its
  -- range, and a search for any other name finds what it found before.
  pub add_global_symbol_cst_lem :
      (e : Expr)
      → IsTable t
      → t.size < 2 ^ 30
      → (Stopped × (add_global_symbol_cst allocates t n e ≡ fail symbol_not_found))
        ⊎ ((¬ Stopped)
            × ((t' : Table) × (add_global_symbol_cst allocates t n e ≡ ok t')
                × IsTable t'
                × ((m : String)
                    → search_global_symbol t' m
                      ≡ (if str_eq n m then some (symbol 1 n e e) else search_global_symbol t m))))
  unfolding add_global_symbol_cst
  add_global_symbol_cst_lem e v small = elim (Option-cases (search_global_symbol t n)) [
    | inr (s, h) ↦ inl (inl (s, h), rw (add-taken s h))
    | inl h ↦
        elim (Bool-cases (is_full t && not (allocates (grow (length t.symbols) t.size * 8)))) [
          | inl f ↦ inl (inr (no_room f), rw (add-no_memory h small f))
          | inr f ↦
              let added = add-free h small f in
              let assigned =
                assign-found (with_symbol t n) n e (symbol 1 n null null)
                  (search-with_symbol t n h) in
              inr (
                not_stopped h f,
                (
                  record (with_symbol t n) {
                    symbols = set_range (t.symbols ++ symbol 1 n null null ∷ []) n e;
                  },
                  rw added assigned,
                  assign_global_symbol-IsTable (with_symbol t n) _ n e (with_symbol-IsTable t n v h)
                      assigned,
                  λ m. search-cst t n e m h,
                ),
              )
        ]
  ]
