-- ===== src/RemoteDep/Collect.antt =====
-- `dague_release_dep_fct` of src/dague.c: what the end of a task does for one of its successors. It
-- collects the processes that `dague_remote_dep_activate` then sends to. The release of a successor
-- on this process, `dague_release_local_OUT_dependencies`, is a parameter here: what it does to the
-- list of ready tasks, and how many tasks it has made ready.
pub mod Counted
pub mod Activated
pub mod Exactly
use dague_hsa.Prelude.{
  ℕ, zero, suc, ◌+◌, ◌*◌, ◌/◌, ◌%◌, ◌^◌, Bool, true, false, not, ◌&&◌, Option, some, none, List, [],
  ◌∷◌, ◌++◌, if◌then◌else◌, ◌==◌, get_or, set, replicate,
}
use dague_hsa.Distribution.{w32}
use dague_hsa.RemoteDep.{Word, empty_word, Output, test_bit, set_bit}

-- the flags of `action_mask`, and its bits for the outputs
pub record Actions : Type 0 where
  pub outputs : List Bool
  pub recv_init_remote_deps : Bool
  pub send_init_remote_deps : Bool
  pub release_local_deps : Bool

-- `dague_remote_deps_t`: the root and the outputs
pub record RemoteDeps : Type 0 where
  pub root : ℕ
  pub outputs : List Output

-- `dague_release_dep_fct_arg_t`; a data pointer 0 is NULL. `remote_deps_count`, an `int`, counts bits
-- of the fields.
pub record ReleaseArg (Task : Type 0) : Type 0 where
  pub actions : Actions
  pub deps : List Output
  pub remote_deps : Option RemoteDeps
  pub remote_deps_count : ℕ
  pub datum : List ℕ
  pub output_entry : List ℕ
  pub output_usage : ℕ
  pub references : List ℕ
  pub nb_released : ℕ
  pub ready_list : List Task

-- one call: the output, the arena of the dependence, and the processes of the task and its successor
pub record Successor : Type 0 where
  pub param_index : ℕ
  pub arena : ℕ
  pub src_rank : ℕ
  pub dst_rank : ℕ

abbrev pub no_output : (words : ℕ) → Output
no_output words = record { datum = 0; arena = 0; rank_bits = replicate words empty_word; count = 0 }

-- a process added to those that need an output, unless it is there
unfoldable pub add_rank : Successor → List ℕ → Output → Output
add_rank s datum o = if test_bit o.rank_bits s.dst_rank then o else record o {
  arena = s.arena;
  datum = get_or datum s.param_index 0;
  rank_bits = set_bit o.rank_bits s.dst_rank;
  count = w32 (o.count + 1);
}

-- The structure is allocated for the first successor, or is one that was cleared after its last
-- use. It has 5 outputs, MAX_PARAM_COUNT.
unfoldable pub allocated : (words : ℕ) → Successor → Option RemoteDeps → RemoteDeps
allocated words s none = record { root = s.src_rank; outputs = replicate 5 (no_output words) }
allocated words s (some r) = record r { root = s.src_rank }

module _ {Task : Type 0} (words my_rank : ℕ) (release : Successor → List Task → List Task × ℕ) where
  -- The data of an output that is to be received are allocated later.
  unfoldable pub init_receive : Successor → ReleaseArg Task → ReleaseArg Task
  init_receive s arg =
      let i = s.param_index in
      record arg {
        deps =
            set arg.deps i
              (record (get_or arg.deps i (no_output words)) { datum = 0; arena = s.arena });
      }

  unfoldable pub init_send : Successor → ReleaseArg Task → ReleaseArg Task
  init_send s arg =
      let i = s.param_index in
      let remote = allocated words s arg.remote_deps in
      let o = get_or remote.outputs i (no_output words) in
      record arg {
        remote_deps =
            some (record remote { outputs = set remote.outputs i (add_rank s arg.datum o) });
        remote_deps_count =
            if test_bit o.rank_bits s.dst_rank
            then arg.remote_deps_count
            else arg.remote_deps_count + 1;
      }

  unfoldable pub release_local : Successor → ReleaseArg Task → ReleaseArg Task
  release_local s arg =
      let i = s.param_index in
      let datum = get_or arg.datum i 0 in
      let (ready, released) = release s arg.ready_list in
      record arg {
        output_entry = set arg.output_entry i datum;
        output_usage = w32 (arg.output_usage + 1);
        references = datum ∷ arg.references;
        nb_released = arg.nb_released + released;
        ready_list = ready;
      }

  -- `dague_release_dep_fct`
  unfoldable pub release_dep_fct : Successor → ReleaseArg Task → ReleaseArg Task
  release_dep_fct s arg =
      let received = if arg.actions.recv_init_remote_deps then init_receive s arg else arg in
      let sent = if arg.actions.send_init_remote_deps then init_send s received else received in
      let local =
        if arg.actions.release_local_deps && my_rank == s.dst_rank
        then release_local s sent
        else sent in
      if get_or arg.actions.outputs s.param_index false then local else arg

  -- the calls for all successors, which `iterate_successors` of the generated code makes
  unfoldable pub release_all : List Successor → ReleaseArg Task → ReleaseArg Task
  release_all [] arg = arg
  release_all (s ∷ ss) arg = release_all ss (release_dep_fct s arg)
