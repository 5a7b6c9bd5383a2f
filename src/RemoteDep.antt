-- ===== src/RemoteDep.antt =====
-- src/remote_dep.c and include/remote_dep.h: how the end of a task is broadcast to the processes that
-- hold its successors. A 32-bit word of a bit field is the list of its bits, the lowest first. Ranks
-- and counts are numbers; `me` is `none` where the source has -1. The transport that
-- `remote_dep_send` hands a message to is not modelled: a send is a rank in the list of sends.
pub mod Trees
pub mod Fields
pub mod Layout
pub mod Walk
pub mod Broadcast
pub mod Ranks
pub mod Delivery
pub mod Once
pub mod Collect
mod Tests
use dague_hsa.Prelude.{
  ℕ, zero, suc, ◌+◌, ◌-◌, ◌*◌, ◌/◌, ◌%◌, ◌^◌, Bool, true, false, not, ◌&&◌, Option, some, none,
  List, [], ◌∷◌, ◌++◌, if◌then◌else◌, ◌==◌, ltb, leb, get_or, set, replicate,
}

abbrev pub Word : Type 0
Word = List Bool

abbrev pub empty_word : Word
empty_word = replicate 32 false

-- bit rank % 32 of word rank / 32; `activate` asks only for ranks that the field has
unfoldable pub test_bit : List Word → ℕ → Bool
test_bit words rank = get_or (get_or words (rank / 32) []) (rank % 32) false

unfoldable pub set_bit : List Word → ℕ → List Word
set_bit words rank = set words (rank / 32) (set (get_or words (rank / 32) []) (rank % 32) true)

-- the number of words of `remote_dep_fw_mask`, by `dague_remote_dep_init`
unfoldable pub fw_mask_words : (np : ℕ) → ℕ
fw_mask_words np = if ltb 1 np then (np + 31) / 32 else 0

-- The children in the three kinds of broadcast. `me` and `him` are of type `int` and not negative, but
-- for `me` = -1: numbers below 2^31.
-- `remote_dep_bcast_chainpipeline_child`
unfoldable pub chainpipeline_child : Option ℕ → ℕ → Bool
chainpipeline_child none him = false
chainpipeline_child (some me) him = him == me + 1

-- `him` without its highest bit, which is sought from bit k - 1 on downwards
unfoldable pub clear_leftmost : (k him : ℕ) → ℕ
clear_leftmost zero him = him
clear_leftmost (suc k) him =
    let rest = clear_leftmost k him in if him / 2 ^ k % 2 == 1 then him - 2 ^ k else rest

-- `remote_dep_bcast_binonial_child`
unfoldable pub binonial_child : Option ℕ → ℕ → Bool
unfolding clear_leftmost
binonial_child none him = false
binonial_child (some me) him = not (him == 0) && clear_leftmost 32 him == me

-- `remote_dep_bcast_star_child`
unfoldable pub star_child : Option ℕ → ℕ → Bool
star_child none him = false
star_child (some me) him = me == 0

-- an output of a task: the address of its data, the address of their arena, the processes that need
-- it, and how many they are
pub record Output : Type 0 where
  pub datum : ℕ
  pub arena : ℕ
  pub rank_bits : List Word
  pub count : ℕ

-- What `dague_remote_dep_activate` keeps and changes: its variables, the mask of the processes that
-- have been sent to, the messages that are under way, how often the data were referenced, and the
-- processes that were sent to.
pub record Activation : Type 0 where
  pub me : Option ℕ
  pub him : ℕ
  pub count : ℕ
  pub remote_deps_count : ℕ
  pub fw_mask : List Word
  pub flying : ℕ
  pub references : ℕ
  pub sends : List ℕ

module _ (child : Option ℕ → ℕ → Bool) (root my_rank : ℕ) where
  -- the sending to a process, if it is a child of this one
  unfoldable pub forward : ℕ → Activation → Activation
  forward rank a =
      if not (child a.me a.him)
      then a
      else if test_bit a.fw_mask rank
      then record a { references = a.references + 1 }
      else record a {
        references = a.references + 1;
        flying = a.flying + 1;
        fw_mask = set_bit a.fw_mask rank;
        sends = a.sends ++ rank ∷ [];
      }

  abbrev pub is_unknown : Option ℕ → Bool
  is_unknown none = true
  is_unknown (some me) = false

  -- the body of the loop for a bit that is set
  unfoldable pub visit : ℕ → Activation → Activation
  visit rank a' =
      let a = record a' {
        count = a'.count + 1;
        remote_deps_count = (a'.remote_deps_count + 2 ^ 32 - 1) % 2 ^ 32;
      } in
      if rank == root
      then a
      else if is_unknown a.me && leb my_rank rank
      then (let known = record a { me = some (a.him + 1); him = a.him + 1 } in
          if rank == my_rank then known else forward rank (record known { him = known.him + 1 }))
      else forward rank (record a { him = a.him + 1 })

  -- the loops, where the mask has so many words
  module _ (words : ℕ) where
    -- The loop over the bits of a word; it may stop where no bit is left. `none` is a rank past the
    -- mask, at which the assertion on the rank fails: the mask has a bit for each process.
    unfoldable pub visit_bits : (rank : ℕ) → Word → Activation → Option Activation
    visit_bits rank [] a = some a
    visit_bits rank (false ∷ bits) a = visit_bits (rank + 1) bits a
    visit_bits rank (true ∷ bits) a =
        let rest = visit_bits (rank + 1) bits (visit rank a) in
        if ltb rank (words * 32) then rest else none

    -- The loop over the words, until so many bits were found; `none` is also a read past the bit
    -- field.
    unfoldable pub visit_words :
        (target array_index : ℕ) → List Word → Activation → Option Activation
    visit_words target array_index [] a = if ltb a.count target then none else some a
    visit_words target array_index (word ∷ more) a =
        let rest : Option Activation = elim (visit_bits (array_index * 32) word a) [
          | none ↦ none
          | some a' ↦ visit_words target (array_index + 1) more a'
        ] in
        if ltb a.count target then rest else some a

    -- the loop over the outputs, while there are dependencies left; `none` is also a read past them
    unfoldable pub visit_outputs : List Output → Activation → Option Activation
    visit_outputs [] a = if a.remote_deps_count == 0 then some a else none
    visit_outputs (o ∷ os) a =
        let next = visit_outputs os a in
        let visited : Option Activation =
          elim (visit_words o.count 0 o.rank_bits (record a { him = 0; count = 0 })) [
            | none ↦ none
            | some a' ↦ visit_outputs os a'
          ] in
        if a.remote_deps_count == 0 then some a else if o.count == 0 then next else visited

    -- `dague_remote_dep_activate`
    unfoldable pub activate : List Output → (remote_deps_count : ℕ) → Option Activation
    activate outputs remote_deps_count = visit_outputs outputs (record {
      me = if root == my_rank then some 0 else none;
      him = 0;
      count = 0;
      remote_deps_count = remote_deps_count;
      fw_mask = replicate words empty_word;
      flying = 0;
      references = 0;
      sends = [];
    })
