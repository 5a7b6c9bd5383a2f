-- ===== src/RemoteDep/Collect/Activated.antt =====
-- `dague_release_dep_fct` of src/dague.c keeps what `dague_remote_dep_activate` of src/remote_dep.c
-- relies on, so that the activation after it ends.
use mathlib.Core.Path.{subst}
use dague_hsa.Prelude.{
  ℕ, zero, suc, ◌+◌, ◌*◌, ◌^◌, ◌≤◌, ◌<◌, ◌≡◌, refl, sym, ap, ◌∙◌, arith, Bool, true, false, ◌&&◌,
  Option, some, none, List, [], ◌∷◌, if◌then◌else◌, ◌==◌, inl, inr, Bool-cases, length, length-set,
  get_or, set, replicate, All,
}
use dague_hsa.Distribution.{w32}
use dague_hsa.RemoteDep.{empty_word, Output, test_bit, set_bit, activate}
use dague_hsa.RemoteDep.Fields.{IsField, set_bit-IsField, empty-IsField, ranks_of}
use dague_hsa.RemoteDep.Ranks.{ranks_of-in_mask}
use dague_hsa.RemoteDep.Walk.{IsCounted, total, visit_each, start, activate-each}
use dague_hsa.RemoteDep.Collect.{
  RemoteDeps, ReleaseArg, Successor, no_output, add_rank, allocated, init_receive, init_send,
  release_local, release_dep_fct, release_all,
}
use dague_hsa.RemoteDep.Collect.Counted.{
  bits_of-empty, length-ranks_of, bits_of-le, bits_of-set_bit, total-set,
}

module _ (words : ℕ) where
  -- an output that counts the bits of its field
  abbrev pub IsSound : Output → Type 0
  IsSound o = IsCounted o × IsField words o.rank_bits

  -- the outputs that were collected, and `remote_deps_count`
  abbrev pub Holds : Option RemoteDeps → ℕ → Type 0
  Holds none c = c ≡ 0
  Holds (some r) c = (length r.outputs ≡ 5) × All IsSound r.outputs × (c ≡ total r.outputs)

  IsSound-no_output : IsSound (no_output words)
  IsSound-no_output = (
    sym (length-ranks_of 0 (replicate words empty_word) ∙ bits_of-empty words),
    empty-IsField words,
  )

  pub IsSound-get :
      (os : List Output) (i : ℕ) → All IsSound os → IsSound (get_or os i (no_output words))
  IsSound-get [] i h = IsSound-no_output
  IsSound-get (o ∷ os) zero (h, hs) = h
  IsSound-get (o ∷ os) (suc i) (h, hs) = IsSound-get os i hs

  IsSound-set :
      (os : List Output) (i : ℕ) (o : Output)
      → IsSound o
      → All IsSound os
      → All IsSound (set os i o)
  IsSound-set [] i o s h = tt
  IsSound-set (p ∷ os) zero o s (h, hs) = (s, hs)
  IsSound-set (p ∷ os) (suc i) o s (h, hs) = (h, IsSound-set os i o s hs)

  pub add_rank-old :
      (s : Successor) (datum : List ℕ) (o : Output)
      → test_bit o.rank_bits s.dst_rank ≡ true
      → add_rank s datum o ≡ o
  unfolding add_rank
  add_rank-old s datum o e = rw e refl

  pub add_rank-new :
      (s : Successor) (datum : List ℕ) (o : Output)
      → test_bit o.rank_bits s.dst_rank ≡ false
      → add_rank s datum o ≡ record {
        arena = s.arena;
        datum = get_or datum s.param_index 0;
        rank_bits = set_bit o.rank_bits s.dst_rank;
        count = w32 (o.count + 1);
      }
  unfolding add_rank
  add_rank-new s datum o e = rw e refl

  add_rank-IsSound :
      (s : Successor) (datum : List ℕ) (o : Output)
      → IsSound o
      → s.dst_rank < words * 32
      → words * 160 < 2 ^ 32
      → IsSound (add_rank s datum o)
  add_rank-IsSound s datum o (c, f) h b = elim (Bool-cases (test_bit o.rank_bits s.dst_rank)) [
    | inl old ↦ rw (add_rank-old s datum o old) (c, f)
    | inr new ↦
        let e = f.0 in
        let l = length-ranks_of 0 o.rank_bits in
        let k = bits_of-le o.rank_bits f.1 in
        let g = bits_of-set_bit words o.rank_bits s.dst_rank f h new in
        let l' = length-ranks_of 0 (set_bit o.rank_bits s.dst_rank) in
        let w : w32 (o.count + 1) ≡ length (ranks_of 0 (set_bit o.rank_bits s.dst_rank)) =
          omega arith in
        rw (add_rank-new s datum o new) (w, set_bit-IsField words o.rank_bits f s.dst_rank h)
  ]

  pub allocated-Holds :
      (s : Successor) (r : Option RemoteDeps) (c : ℕ)
      → Holds r c
      → Holds (some (allocated words s r)) c
  unfolding allocated
  allocated-Holds s none c h = let z = IsSound-no_output in (refl, (z, (z, (z, (z, (z, tt))))), h)
  allocated-Holds s (some r) c h = h

  module _ {Task : Type 0} (my_rank : ℕ) (release : Successor → List Task → List Task × ℕ)
      (fits : words * 160 < 2 ^ 32) where
    init_send-Holds :
        (s : Successor) (arg : ReleaseArg Task)
        → Holds arg.remote_deps arg.remote_deps_count
        → s.param_index < 5
        → s.dst_rank < words * 32
        → Holds
            (init_send words my_rank release s arg).remote_deps
            (init_send words my_rank release s arg).remote_deps_count
    unfolding init_send
    init_send-Holds s arg h i d =
        let (l, sound, c) = allocated-Holds s arg.remote_deps arg.remote_deps_count h in
        let os = (allocated words s arg.remote_deps).outputs in
        let o = get_or os s.param_index (no_output words) in
        let o' = add_rank s arg.datum o in
        let (k, f) = IsSound-get os s.param_index sound in
        let t = total-set os s.param_index o' (no_output words) (omega arith) in
        (
          length-set os s.param_index o' ∙ l,
          IsSound-set os s.param_index o' (add_rank-IsSound s arg.datum o (k, f) d fits) sound,
          elim (Bool-cases (test_bit o.rank_bits s.dst_rank)) [
            | inl old ↦
                let e : o'.count ≡ o.count = ap Output.count (add_rank-old s arg.datum o old) in
                rw old (omega arith)
            | inr new ↦
                let e : o'.count ≡ w32 (o.count + 1) =
                  ap Output.count (add_rank-new s arg.datum o new) in
                let n = length-ranks_of 0 o.rank_bits in
                let le = bits_of-le o.rank_bits f.1 in let wide = f.0 in rw new (omega arith)
          ],
        )

    abbrev HoldsArg : ReleaseArg Task → Type 0
    HoldsArg arg = Holds arg.remote_deps arg.remote_deps_count

    if_either :
        (b : Bool) (x y : ReleaseArg Task) → HoldsArg x → HoldsArg y → HoldsArg (if b then x else y)
    if_either true x y h k = h
    if_either false x y h k = k

    init_receive-Holds :
        (s : Successor) (arg : ReleaseArg Task)
        → HoldsArg arg
        → HoldsArg (init_receive words my_rank release s arg)
    unfolding init_receive
    init_receive-Holds s arg h = h

    release_local-Holds :
        (s : Successor) (arg : ReleaseArg Task)
        → HoldsArg arg
        → HoldsArg (release_local words my_rank release s arg)
    unfolding release_local
    release_local-Holds s arg h = h

    -- A successor on a process that exists
    abbrev pub IsWithin : Successor → Type 0
    IsWithin s = (s.param_index < 5) × (s.dst_rank < words * 32)

    pub release_dep_fct-Holds :
        (s : Successor) (arg : ReleaseArg Task)
        → HoldsArg arg
        → IsWithin s
        → HoldsArg (release_dep_fct words my_rank release s arg)
    unfolding release_dep_fct
    release_dep_fct-Holds s arg h (i, d) =
        let a1 = init_receive words my_rank release s arg in
        let b1 = arg.actions.recv_init_remote_deps in
        let received = if b1 then a1 else arg in
        let h1 = if_either b1 a1 arg (init_receive-Holds s arg h) h in
        let a2 = init_send words my_rank release s received in
        let b2 = arg.actions.send_init_remote_deps in
        let sent = if b2 then a2 else received in
        let h2 = if_either b2 a2 received (init_send-Holds s received h1 i d) h1 in
        let a3 = release_local words my_rank release s sent in
        let b3 = arg.actions.release_local_deps && my_rank == s.dst_rank in
        if_either (get_or arg.actions.outputs s.param_index false) (if b3 then a3 else sent) arg
          (if_either b3 a3 sent (release_local-Holds s sent h2) h2) h

    -- Whatever the flags, `dague_release_dep_fct` for any successors on processes that exist keeps
    -- the outputs sound: each counts the bits of its field, and `remote_deps_count` is their sum.
    pub release_all-Holds :
        (ss : List Successor) (arg : ReleaseArg Task)
        → Holds arg.remote_deps arg.remote_deps_count
        → All IsWithin ss
        → Holds
            (release_all words my_rank release ss arg).remote_deps
            (release_all words my_rank release ss arg).remote_deps_count
    unfolding release_all
    release_all-Holds [] arg h w = h
    release_all-Holds (s ∷ ss) arg h (w, ws) =
        release_all-Holds ss (release_dep_fct words my_rank release s arg)
          (release_dep_fct-Holds s arg h w) ws

    All-IsCounted : (os : List Output) → All IsSound os → All IsCounted os
    All-IsCounted [] h = tt
    All-IsCounted (o ∷ os) (h, hs) = (h.0, All-IsCounted os hs)

    All-IsInMask :
        (os : List Output)
        → All IsSound os
        → All (λ o. All (λ r. r < words * 32) (ranks_of 0 o.rank_bits)) os
    All-IsInMask [] h = tt
    All-IsInMask (o ∷ os) ((c, f), hs) = (ranks_of-in_mask words o.rank_bits f, All-IsInMask os hs)

    total-le : (os : List Output) → All IsSound os → total os ≤ length os * (words * 32)
    total-le [] h = omega arith
    total-le (o ∷ os) ((c, f), hs) =
        let l = length-ranks_of 0 o.rank_bits in
        let b = bits_of-le o.rank_bits f.1 in
        let e : suc (length os) * (words * 32) ≡ words * 32 + length os * (words * 32) =
          grind arith in
        let wide = f.0 in omega (arith, total-le os hs)

    -- What `dague_release_dep_fct` collects for the successors of a task, `dague_remote_dep_activate`
    -- sends: it ends without a read past a bit field, the mask or the outputs, and visits exactly the
    -- processes that were collected.
    pub release_all-activate :
        (child : Option ℕ → ℕ → Bool) (ss : List Successor) (arg : ReleaseArg Task) (r : RemoteDeps)
        → arg.remote_deps ≡ none
        → arg.remote_deps_count ≡ 0
        → All IsWithin ss
        → (release_all words my_rank release ss arg).remote_deps ≡ some r
        → activate child r.root my_rank words r.outputs
            (release_all words my_rank release ss arg).remote_deps_count
          ≡ some (
              visit_each child r.root my_rank r.outputs (
                start child r.root my_rank words
                  (release_all words my_rank release ss arg).remote_deps_count))
    release_all-activate child ss arg r n z w e =
        let arg' = release_all words my_rank release ss arg in
        let h0 : Holds arg.remote_deps arg.remote_deps_count =
          subst (λ (d : Option RemoteDeps). Holds d arg.remote_deps_count) (sym n) z in
        let h = release_all-Holds ss arg h0 w in
        let (l, sound, c) = subst (λ (d : Option RemoteDeps). Holds d arg'.remote_deps_count) e h in
        let b = total-le r.outputs sound in
        let l5 : length r.outputs * (words * 32) ≡ words * 160 = rw l (omega arith) in
        rw c (
          activate-each child r.root my_rank words r.outputs (All-IsInMask r.outputs sound)
            (All-IsCounted r.outputs sound) (omega arith))
