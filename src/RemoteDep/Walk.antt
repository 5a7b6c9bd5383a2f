-- ===== src/RemoteDep/Walk.antt =====
-- The loops of `dague_remote_dep_activate` of src/remote_dep.c: they visit the ranks of each output.
use dague_hsa.Prelude.{
  ℕ, ◌+◌, ◌-◌, ◌*◌, ◌%◌, ◌^◌, ◌<◌, ◌≡◌, refl, sym, ap, ◌∙◌, arith, Bool, true, false, Option, some,
  none, List, [], ◌∷◌, ◌++◌, if◌then◌else◌, ◌==◌, ltb, inl, inr, Bool-cases, ==_iff, length,
  length-append, replicate, All,
}
use dague_hsa.RemoteDep.{
  Word, empty_word, Output, Activation, forward, visit, visit_bits, visit_words, visit_outputs,
  activate,
}
use dague_hsa.RemoteDep.Fields.{ranks_of_word, ranks_of}

-- Each output counts the bits of its field.
abbrev pub IsCounted : Output → Type 0
IsCounted o = o.count ≡ length (ranks_of 0 o.rank_bits)

abbrev pub total : List Output → ℕ
total [] = 0
total (o ∷ os) = o.count + total os

All-split : (P : ℕ → Type 0) (xs ys : List ℕ) → All P (xs ++ ys) → All P xs × All P ys
All-split P [] ys h = (tt, h)
All-split P (x ∷ xs) ys (p, h) = let (a, b) = All-split P xs ys h in ((p, a), b)

module _ (child : Option ℕ → ℕ → Bool) (root my_rank : ℕ) where
  -- the visits of some ranks, in order
  unfoldable pub visit_all : List ℕ → Activation → Activation
  visit_all [] a = a
  visit_all (rank ∷ ranks) a = visit_all ranks (visit child root my_rank rank a)

  -- the visits of the ranks of every output, each numbering its processes anew
  unfoldable pub visit_each : List Output → Activation → Activation
  visit_each [] a = a
  visit_each (o ∷ os) a = visit_each os (
      if o.count == 0
      then a
      else visit_all (ranks_of 0 o.rank_bits) (record a { him = 0; count = 0 }))

  forward-counts :
      (rank : ℕ) (a : Activation)
      → ((forward child root my_rank rank a).count ≡ a.count)
        × ((forward child root my_rank rank a).remote_deps_count ≡ a.remote_deps_count)
  unfolding forward
  forward-counts rank a = ground arith

  -- A visit takes one dependency off those that are left.
  visit-counts :
      (rank : ℕ) (a : Activation)
      → ((visit child root my_rank rank a).count ≡ a.count + 1)
        × ((visit child root my_rank rank a).remote_deps_count
            ≡ (a.remote_deps_count + 2 ^ 32 - 1) % 2 ^ 32)
  unfolding visit
  visit-counts rank a =
      let a1 = record a {
        count = a.count + 1;
        remote_deps_count = (a.remote_deps_count + 2 ^ 32 - 1) % 2 ^ 32;
      } in
      ground (
        arith,
        forward-counts rank (record a1 { him = a.him + 1 }),
        forward-counts rank (record a1 { me = some (a.him + 1); him = a.him + 1 + 1 }),
      )

  visit_all-append :
      (xs ys : List ℕ) (a : Activation) → visit_all (xs ++ ys) a ≡ visit_all ys (visit_all xs a)
  unfolding visit_all
  visit_all-append [] ys a = refl
  visit_all-append (x ∷ xs) ys a = visit_all-append xs ys (visit child root my_rank x a)

  visit_all-count :
      (ranks : List ℕ) (a : Activation) → (visit_all ranks a).count ≡ a.count + length ranks
  unfolding visit_all
  visit_all-count [] a = omega arith
  visit_all-count (rank ∷ ranks) a =
      visit_all-count ranks (visit child root my_rank rank a)
      ∙ omega (arith, (visit-counts rank a).0)

  visit_all-left :
      (ranks : List ℕ) (a : Activation) (more : ℕ)
      → a.remote_deps_count ≡ length ranks + more
      → a.remote_deps_count < 2 ^ 32
      → (visit_all ranks a).remote_deps_count ≡ more
  unfolding visit_all
  visit_all-left [] a more e h = omega arith
  visit_all-left (rank ∷ ranks) a more e h =
      let (_, v) = visit-counts rank a in
      visit_all-left ranks (visit child root my_rank rank a) more (omega arith) (omega arith)

  pub visit_none : (ranks : List ℕ) (a : Activation) → length ranks ≡ 0 → visit_all ranks a ≡ a
  unfolding visit_all
  visit_none [] a e = refl
  visit_none (r ∷ rs) a e = absurd (omega arith)

  visit_each-none :
      (outputs : List Output) (a : Activation) → total outputs ≡ 0 → visit_each outputs a ≡ a
  unfolding visit_each
  visit_each-none [] a e = refl
  visit_each-none (o ∷ os) a e =
      let empty : (o.count == 0) ≡ true = ground arith in
      rw empty (visit_each-none os a (omega arith))

  -- what `dague_remote_dep_activate` starts with
  abbrev pub start : (words remote_deps_count : ℕ) → Activation
  start words remote_deps_count = record {
    me = if root == my_rank then some 0 else none;
    him = 0;
    count = 0;
    remote_deps_count = remote_deps_count;
    fw_mask = replicate words empty_word;
    flying = 0;
    references = 0;
    sends = [];
  }

  module _ (words : ℕ) where
    -- every rank of the field is in the mask
    abbrev pub IsInMask : Output → Type 0
    IsInMask o = All (λ rank. rank < words * 32) (ranks_of 0 o.rank_bits)

    visit_bits-all :
        (rank : ℕ) (bits : Word) (a : Activation)
        → All (λ rank. rank < words * 32) (ranks_of_word rank bits)
        → visit_bits child root my_rank words rank bits a
          ≡ some (visit_all (ranks_of_word rank bits) a)
    unfolding visit_bits visit_all
    visit_bits-all rank [] a h = refl
    visit_bits-all rank (true ∷ bits) a (h, hs) =
        let inside : ltb rank (words * 32) ≡ true = ground arith in
        rw inside (visit_bits-all (rank + 1) bits (visit child root my_rank rank a) hs)
    visit_bits-all rank (false ∷ bits) a h = visit_bits-all (rank + 1) bits a h

    visit_words-all :
        (target array_index : ℕ) (field : List Word) (a : Activation)
        → All (λ rank. rank < words * 32) (ranks_of array_index field)
        → a.count + length (ranks_of array_index field) ≡ target
        → visit_words child root my_rank words target array_index field a
          ≡ some (visit_all (ranks_of array_index field) a)
    unfolding visit_words
    visit_words-all target i [] a h e =
        let done : ltb a.count target ≡ false = ground arith in
        rw done (ap some (sym (visit_none [] a refl)))
    visit_words-all target i (word ∷ field) a h e =
        let here = ranks_of_word (i * 32) word in
        let later = ranks_of (i + 1) field in
        let l = length-append here later in
        let (h1, h2) = All-split (λ rank. rank < words * 32) here later h in
        elim (Bool-cases (ltb a.count target)) [
          | inl more ↦
              let c = visit_all-count here a in
              rw (more, visit_bits-all (i * 32) word a h1, visit_all-append here later a)
                (visit_words-all target (i + 1) field (visit_all here a) h2 (omega arith))
          | inr done ↦
              let r : length (here ++ later) ≡ 0 = ground arith in
              rw done (ap some (sym (visit_none (here ++ later) a r)))
        ]

    visit_outputs-each :
        (outputs : List Output) (a : Activation)
        → All IsInMask outputs
        → All IsCounted outputs
        → a.remote_deps_count ≡ total outputs
        → a.remote_deps_count < 2 ^ 32
        → visit_outputs child root my_rank words outputs a ≡ some (visit_each outputs a)
    unfolding visit_outputs visit_each
    visit_outputs-each [] a m c e h =
        let d : (a.remote_deps_count == 0) ≡ true = ground arith in rw d refl
    visit_outputs-each (o ∷ os) a (m, ms) (c, cs) e h = elim (Bool-cases (o.count == 0)) [
      | inl empty ↦
          let z = (==_iff _ _).0 empty in
          elim (Bool-cases (a.remote_deps_count == 0)) [
            | inl done ↦ rw (empty, done) (ap some (sym (visit_each-none os a (ground arith))))
            | inr more ↦ rw (empty, more) (visit_outputs-each os a ms cs (omega arith) h)
          ]
      | inr some_left ↦
          let more : (a.remote_deps_count == 0) ≡ false = ground arith in
          let a0 = record a { him = 0; count = 0 } in
          let ranks = ranks_of 0 o.rank_bits in
          let left : (visit_all ranks a0).remote_deps_count ≡ total os =
            visit_all-left ranks a0 (total os) (omega arith) h in
          rw (some_left, more, visit_words-all o.count 0 o.rank_bits a0 m (omega arith))
            (visit_outputs-each os (visit_all ranks a0) ms cs left (omega (arith, left)))
    ]

    pub activate-each :
        (outputs : List Output)
        → All IsInMask outputs
        → All IsCounted outputs
        → total outputs < 2 ^ 32
        → activate child root my_rank words outputs (total outputs)
          ≡ some (visit_each outputs (start words (total outputs)))
    unfolding activate
    activate-each outputs m c h =
        visit_outputs-each outputs (start words (total outputs)) m c refl h
