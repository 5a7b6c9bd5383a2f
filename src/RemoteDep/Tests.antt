-- ===== src/RemoteDep/Tests.antt =====
-- Runs of src/remote_dep.c and of `dague_release_dep_fct`, and the theorems at a concrete broadcast.
use mathlib.Core.Option
use dague_hsa.Prelude.{
  ◌||◌, ℕ, ◌+◌, ◌*◌, ◌≤◌, ◌≡◌, refl, arith, Bool, true, false, Option, some, none, List, [], ◌∷◌,
  get_elem?, replicate,
}
use dague_hsa.RemoteDep.{
  Word, empty_word, Output, Activation, test_bit, set_bit, activate, visit_outputs, visit_words,
  visit_bits, visit, forward, chainpipeline_child, binonial_child, star_child,
}
use dague_hsa.RemoteDep.Trees.{IsTree, chainpipeline_child-IsTree, binonial_child-IsTree}
use dague_hsa.RemoteDep.Layout.{elem_size, rank_bit_size, layout, asserted, layout-fits}
use dague_hsa.RemoteDep.Walk.{visit_each, start}
use dague_hsa.RemoteDep.Delivery.{Reached, broadcast-reaches}
use dague_hsa.RemoteDep.Once.{broadcast-once}
use dague_hsa.RemoteDep.Collect.{
  RemoteDeps, ReleaseArg, Successor, release_all, release_dep_fct, init_send, add_rank, allocated,
}
use dague_hsa.RemoteDep.Collect.Exactly.{field_of, any_asks, release_all-bits}
use dague_hsa.RemoteDep.Collect.Activated.{release_all-activate}

-- The processes 1, 3 and 4, and the root 1 among them.
abbrev bits : List Word
bits = (false ∷ true ∷ false ∷ true ∷ true ∷ replicate 27 false) ∷ []

abbrev output : Output
output = record { datum = 8; arena = 9; rank_bits = bits; count = 3 }

abbrev to_both : List ℕ
to_both = 3 ∷ 4 ∷ []

abbrev sent : Option Activation → List ℕ
sent none = []
sent (some a) = a.sends

star_of_root : sent (activate star_child 1 1 1 (output ∷ []) 3) ≡ to_both
unfolding activate visit_outputs visit_words visit_bits visit forward star_child test_bit set_bit
star_of_root = refl

chain_of_root : sent (activate chainpipeline_child 1 1 1 (output ∷ []) 3) ≡ 3 ∷ []
unfolding activate visit_outputs visit_words visit_bits visit forward chainpipeline_child test_bit
    set_bit
chain_of_root = refl

chain_of_three : sent (activate chainpipeline_child 1 3 1 (output ∷ []) 3) ≡ 4 ∷ []
unfolding activate visit_outputs visit_words visit_bits visit forward chainpipeline_child test_bit
    set_bit
chain_of_three = refl

binonial_child-IsTree_example : IsTree 8 binonial_child
binonial_child-IsTree_example = binonial_child-IsTree 8 (omega arith)

abbrev chain : Option ℕ → ℕ → Bool
chain = chainpipeline_child

broadcast-reaches_example : Reached chain 1 1 output 4
broadcast-reaches_example =
    broadcast-reaches chain 1 1 output refl (refl, (refl, tt)) (omega arith) 3
      (chainpipeline_child-IsTree 3) (omega arith) 1 4 refl

-- Process 3 sends to process 4.
abbrev after_three : Activation
after_three = record {
  me = some 1;
  him = 2;
  count = 3;
  remote_deps_count = 0;
  fw_mask = (false ∷ false ∷ false ∷ false ∷ true ∷ replicate 27 false) ∷ [];
  flying = 1;
  references = 1;
  sends = 4 ∷ [];
}

three_ends : activate chain 1 3 1 (output ∷ []) 3 ≡ some after_three
unfolding activate visit_outputs visit_words visit_bits visit forward chainpipeline_child test_bit
    set_bit
three_ends = refl

broadcast-once_example : (◌≡◌ {A = ℕ} 1 1) × (◌≡◌ {A = ℕ} 0 0)
broadcast-once_example =
    broadcast-once chain 1 1 output refl (refl, (refl, tt)) (omega arith) 3
      (chainpipeline_child-IsTree 3) (omega arith) 1 3 0 1 3 0 4 after_three after_three refl refl
      three_ends three_ends refl refl

-- 40 processes, and the 5 outputs of MAX_PARAM_COUNT
layout-fits_example :
    (get_elem? (layout 96 5 40).0 3 ≡ some (96 + 5 * 32 + 3 * rank_bit_size 96 5 40))
    × ((layout 96 5 40).1 ≡ 96 + 5 * 32 + 5 * rank_bit_size 96 5 40)
    × ((layout 96 5 40).1 + rank_bit_size 96 5 40 ≤ elem_size 96 5 40)
    × (asserted 96 5 40 ≡ true)
layout-fits_example = layout-fits 96 5 40 3 (omega arith) (omega arith) (omega arith) (omega arith)

-- The task of process 1 has successors of its output 0 on the processes 3, 4 and 3.
abbrev successor : ℕ → Successor
successor dst = record { param_index = 0; arena = 9; src_rank = 1; dst_rank = dst }

abbrev successors : List Successor
successors = successor 3 ∷ successor 4 ∷ successor 3 ∷ []

abbrev released : Successor → List ℕ → List ℕ × ℕ
released s ready = (ready, 0)

abbrev at_first : ReleaseArg ℕ
at_first = record {
  actions = record {
    outputs = true ∷ [];
    recv_init_remote_deps = false;
    send_init_remote_deps = true;
    release_local_deps = true;
  };
  deps = [];
  remote_deps = none;
  remote_deps_count = 0;
  datum = 8 ∷ [];
  output_entry = 0 ∷ [];
  output_usage = 0;
  references = [];
  nb_released = 0;
  ready_list = [];
}

abbrev unused : Output
unused = record { datum = 0; arena = 0; rank_bits = empty_word ∷ []; count = 0 }

abbrev collected : RemoteDeps
collected = record {
  root = 1;
  outputs =
      record {
        datum = 8;
        arena = 9;
        rank_bits = (false ∷ false ∷ false ∷ true ∷ true ∷ replicate 27 false) ∷ [];
        count = 2;
      }
      ∷ unused
      ∷ unused
      ∷ unused
      ∷ unused
      ∷ [];
}

collects : (release_all 1 1 released successors at_first).remote_deps ≡ some collected
unfolding release_all release_dep_fct init_send add_rank allocated test_bit set_bit
collects = refl

release_all-activate_example :
    activate chain 1 1 1 collected.outputs
      (release_all 1 1 released successors at_first).remote_deps_count
    ≡ some (
        visit_each chain 1 1 collected.outputs
          (start chain 1 1 1 (release_all 1 1 released successors at_first).remote_deps_count))
release_all-activate_example =
    release_all-activate 1 1 released (omega arith) chain successors at_first collected refl refl
      ((omega arith, omega arith), ((omega arith, omega arith), ((omega arith, omega arith), tt)))
      collects

-- Process 4 is collected for output 0, which the second call asks for.
release_all-bits_example :
    test_bit (field_of 1 (release_all 1 1 released successors at_first).remote_deps 0) 4
    ≡ (any_asks 1 at_first.actions 0 4 successors || test_bit (field_of 1 none 0) 4)
release_all-bits_example =
    release_all-bits 1 1 released (omega arith) successors at_first 0 4 refl
      ((omega arith, omega arith), ((omega arith, omega arith), ((omega arith, omega arith), tt)))

abbrev first_output : Output
first_output = record {
  datum = 8;
  arena = 9;
  rank_bits = (false ∷ true ∷ true ∷ replicate 29 false) ∷ [];
  count = 2;
}

-- Output 0 goes to the processes 1 and 2, output 1 to the processes 2 and 3.
abbrev both : List Output
both =
    first_output
    ∷ record {
      datum = 8;
      arena = 9;
      rank_bits = (false ∷ false ∷ true ∷ true ∷ replicate 28 false) ∷ [];
      count = 2;
    }
    ∷ []

abbrev sends_of : (my_rank : ℕ) → List Output → ℕ → Option (List ℕ)
sends_of my_rank outputs count =
    Option.map (λ (a : Activation). a.sends) (activate chain 0 my_rank 1 outputs count)

-- The root 0 sends to 1 and 2; 1, which has output 0 alone, sends to 2 again; and 2, which has
-- both, does not send to 3.
root_sends : sends_of 0 both 4 ≡ some (1 ∷ 2 ∷ [])
unfolding activate visit_outputs visit_words visit_bits visit forward chainpipeline_child test_bit
    set_bit
root_sends = refl

first_sends : sends_of 1 (first_output ∷ []) 2 ≡ some (2 ∷ [])
unfolding activate visit_outputs visit_words visit_bits visit forward chainpipeline_child test_bit
    set_bit
first_sends = refl

second_sends : sends_of 2 both 4 ≡ some []
unfolding activate visit_outputs visit_words visit_bits visit forward chainpipeline_child test_bit
    set_bit
second_sends = refl
