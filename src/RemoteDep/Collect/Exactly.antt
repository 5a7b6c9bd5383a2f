-- ===== src/RemoteDep/Collect/Exactly.antt =====
-- Which processes `dague_release_dep_fct` of src/dague.c collects for an output.
use mathlib.Core.Path.{subst}
use dague_hsa.Prelude.{
  ℕ, zero, suc, ◌*◌, ◌^◌, ◌<◌, ◌≡◌, refl, ap, ◌∙◌, arith, Bool, true, false, ◌&&◌, ◌||◌, Option,
  some, none, List, [], ◌∷◌, if◌then◌else◌, ◌==◌, inl, inr, Bool-cases, ==_iff, get_or, replicate,
  All,
}
use dague_hsa.RemoteDep.{Word, Output, test_bit}
use dague_hsa.RemoteDep.Fields.{IsField, get_or-set, test_bit-set_bit, test_bit-empty}
use dague_hsa.RemoteDep.Collect.{
  Actions, RemoteDeps, ReleaseArg, Successor, no_output, add_rank, allocated, init_receive,
  init_send, release_local, release_dep_fct, release_all,
}
use dague_hsa.RemoteDep.Collect.Activated.{
  Holds, IsWithin, IsSound-get, add_rank-old, add_rank-new, allocated-Holds, release_dep_fct-Holds,
}

regroup : (a b c : Bool) → (a || (b || c)) ≡ ((b || a) || c)
regroup true true c = refl
regroup true false c = refl
regroup false true c = refl
regroup false false c = refl

by_flags :
    {R : Type 0} (mask send hit : Bool) (r r' : R) (test : R → Bool)
    → test r ≡ (hit || test r')
    → test (if mask && send then r else r') ≡ ((mask && (send && hit)) || test r')
by_flags true true hit r r' test e = e
by_flags true false hit r r' test e = refl
by_flags false send hit r r' test e = refl

module _ (words : ℕ) where
  -- the field of an output
  abbrev pub field_of : Option RemoteDeps → ℕ → List Word
  field_of none i = []
  field_of (some r) i = (get_or r.outputs i (no_output words)).rank_bits

  -- whether a call asks for the process q to be sent the output i
  abbrev pub asks : Actions → (i q : ℕ) → Successor → Bool
  asks actions i q s =
      get_or actions.outputs s.param_index false
      && (actions.send_init_remote_deps && (s.param_index == i && s.dst_rank == q))

  abbrev pub any_asks : Actions → (i q : ℕ) → List Successor → Bool
  any_asks actions i q [] = false
  any_asks actions i q (s ∷ ss) = asks actions i q s || any_asks actions i q ss

  get_or-replicate_same :
      (n i : ℕ) → get_or (replicate n (no_output words)) i (no_output words) ≡ no_output words
  get_or-replicate_same zero i = refl
  get_or-replicate_same (suc n) zero = refl
  get_or-replicate_same (suc n) (suc i) = get_or-replicate_same n i

  allocated-bits :
      (s : Successor) (r : Option RemoteDeps) (i q : ℕ)
      → test_bit (field_of (some (allocated words s r)) i) q ≡ test_bit (field_of r i) q
  unfolding allocated test_bit
  allocated-bits s none i q =
      ap (λ (o : Output). test_bit o.rank_bits q) (get_or-replicate_same 5 i)
      ∙ test_bit-empty words q
  allocated-bits s (some r) i q = refl

  add_rank-bits :
      (s : Successor) (datum : List ℕ) (o : Output) (q : ℕ)
      → IsField words o.rank_bits
      → s.dst_rank < words * 32
      → test_bit (add_rank s datum o).rank_bits q ≡ (s.dst_rank == q || test_bit o.rank_bits q)
  add_rank-bits s datum o q f d = elim (Bool-cases (test_bit o.rank_bits s.dst_rank)) [
    | inl old ↦
        ap (λ (p : Output). test_bit p.rank_bits q) (add_rank-old words s datum o old)
        ∙ elim (Bool-cases (s.dst_rank == q)) [
          | inl hit ↦
              rw hit (subst (λ (r : ℕ). test_bit o.rank_bits r ≡ true) ((==_iff _ _).0 hit) old)
          | inr miss ↦ rw miss refl
        ]
    | inr new ↦
        ap (λ (p : Output). test_bit p.rank_bits q) (add_rank-new words s datum o new)
        ∙ test_bit-set_bit words o.rank_bits f s.dst_rank d q
        ∙ ground arith
  ]

  module _ {Task : Type 0} (my_rank : ℕ) (release : Successor → List Task → List Task × ℕ)
      (fits : words * 160 < 2 ^ 32) where
    init_send-bits :
        (s : Successor) (arg : ReleaseArg Task) (i q : ℕ)
        → Holds words arg.remote_deps arg.remote_deps_count
        → s.param_index < 5
        → s.dst_rank < words * 32
        → test_bit (field_of (init_send words my_rank release s arg).remote_deps i) q
          ≡ ((s.param_index == i && s.dst_rank == q) || test_bit (field_of arg.remote_deps i) q)
    unfolding init_send
    init_send-bits s arg i q h p d =
        let (l, sound, c) = allocated-Holds words s arg.remote_deps arg.remote_deps_count h in
        let os = (allocated words s arg.remote_deps).outputs in
        let none_yet = no_output words in
        let o = get_or os s.param_index none_yet in
        let o' = add_rank s arg.datum o in
        let at = get_or-set os s.param_index i o' none_yet (omega arith) in
        let before = allocated-bits s arg.remote_deps i q in
        ap (λ (x : Output). test_bit x.rank_bits q) at ∙ elim (Bool-cases (s.param_index == i)) [
          | inl same ↦
              let e = (==_iff _ _).0 same in
              rw same (
                add_rank-bits s arg.datum o q (IsSound-get words os s.param_index sound).1 d
                ∙ ap (λ (b : Bool). s.dst_rank == q || b)
                    (ap (λ (j : ℕ). test_bit (get_or os j none_yet).rank_bits q) e ∙ before))
          | inr other ↦ rw other before
        ]

    -- The structure that a call leaves.
    remote_deps_after :
        (s : Successor) (arg : ReleaseArg Task)
        → (release_dep_fct words my_rank release s arg).remote_deps ≡ (
            if get_or arg.actions.outputs s.param_index false && arg.actions.send_init_remote_deps
            then (init_send words my_rank release s arg).remote_deps
            else arg.remote_deps)
    unfolding release_dep_fct init_receive init_send release_local
    remote_deps_after s arg = ground arith

    actions_after :
        (s : Successor) (arg : ReleaseArg Task)
        → (release_dep_fct words my_rank release s arg).actions ≡ arg.actions
    unfolding release_dep_fct init_receive init_send release_local
    actions_after s arg = ground arith

    release_dep_fct-bits :
        (s : Successor) (arg : ReleaseArg Task) (i q : ℕ)
        → Holds words arg.remote_deps arg.remote_deps_count
        → IsWithin words my_rank release fits s
        → test_bit (field_of (release_dep_fct words my_rank release s arg).remote_deps i) q
          ≡ (asks arg.actions i q s || test_bit (field_of arg.remote_deps i) q)
    release_dep_fct-bits s arg i q h (p, d) =
        let mask = get_or arg.actions.outputs s.param_index false in
        let send = arg.actions.send_init_remote_deps in
        let hit = s.param_index == i && s.dst_rank == q in
        ap (λ (r : Option RemoteDeps). test_bit (field_of r i) q) (remote_deps_after s arg)
        ∙ by_flags mask send hit (init_send words my_rank release s arg).remote_deps arg.remote_deps
            (λ r. test_bit (field_of r i) q) (init_send-bits s arg i q h p d)

    -- Where the outputs are sound, `dague_release_dep_fct` for any successors on processes that exist
    -- sets exactly the bits that are asked for: the process q is collected for the output i if and
    -- only if it was before, or the calls have SEND_INIT_REMOTE_DEPS and the bit of that output in
    -- their mask and some successor through that output is on q.
    pub release_all-bits :
        (ss : List Successor) (arg : ReleaseArg Task) (i q : ℕ)
        → Holds words arg.remote_deps arg.remote_deps_count
        → All (IsWithin words my_rank release fits) ss
        → test_bit (field_of (release_all words my_rank release ss arg).remote_deps i) q
          ≡ (any_asks arg.actions i q ss || test_bit (field_of arg.remote_deps i) q)
    unfolding release_all
    release_all-bits [] arg i q h w = refl
    release_all-bits (s ∷ ss) arg i q h (w, ws) =
        let arg' = release_dep_fct words my_rank release s arg in
        let rest =
          release_all-bits ss arg' i q (release_dep_fct-Holds words my_rank release fits s arg h w)
            ws in
        let one = release_dep_fct-bits s arg i q h w in
        rest
        ∙ ap (λ (a : Actions). any_asks a i q ss || test_bit (field_of arg'.remote_deps i) q)
            (actions_after s arg)
        ∙ ap (λ (b : Bool). any_asks arg.actions i q ss || b) one
        ∙ regroup (any_asks arg.actions i q ss) (asks arg.actions i q s) _
