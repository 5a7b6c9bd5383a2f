-- ===== src/DataRepo/Tests.antt =====
-- Runs of the calls of include/datarepo.h, and the theorems at concrete tables.
use mathlib.Core.Option
use dague_hsa.Prelude.{◌≡◌, ◌↔◌, refl, none, some, List, [], ◌∷◌, arith}
use dague_hsa.Prelude.Int.{pos, negsuc, ◌==ℤ◌}
use dague_hsa.DataRepo.{
  Entry, Head, Repo, create_nothreadsafe, bucket_of, find_entry, store_entry, unlink_entry,
  is_finished, settle, create_in, use_in, addto_in, head_of, lookup_entry, lookup_entry_and_create,
  entry_used_once, entry_addto_usage_limit,
}
use dague_hsa.DataRepo.Shape.{create_nothreadsafe-IsRepo}
use dague_hsa.DataRepo.Lookup.{state_at}
use dague_hsa.DataRepo.Lifetime.{
  Call, create, used, addto, step, run, post, tally, no_calls, run-collects,
}
use dague_hsa.DataRepo.Refine.{spec_run, run-refines}

-- two keys of one bucket: 5 is used before its limit is known, 9 stays retained
abbrev calls : List Call
calls = create (pos 5) ∷ used (pos 5) ∷ create (pos 9) ∷ addto (pos 5) 1 ∷ []

abbrev entry9 : Entry
entry9 = record { usagecnt = 0; usagelmt = 0; retained = 1; key = pos 9; contents = 0 ∷ 0 ∷ [] }

abbrev empty_head : Head
empty_head = record { size = 0; entries = [] }

abbrev after : Repo
after = record {
  nbentries = 4;
  nbdata = 2;
  heads =
      empty_head
      ∷ record { size = 1; entries = entry9 ∷ [] }
      ∷ empty_head
      ∷ empty_head
      ∷ empty_head
      ∷ [];
}

run-calls : run (create_nothreadsafe 4 2) calls ≡ some after
unfolding run step create_nothreadsafe lookup_entry_and_create entry_used_once
    entry_addto_usage_limit head_of bucket_of create_in use_in addto_in settle is_finished
    find_entry store_entry unlink_entry ◌==ℤ◌
run-calls = refl

-- A use of a key that has no entry fails its assertion.
use_of_nothing : run (create_nothreadsafe 4 2) (used (pos 5) ∷ []) ≡ none
unfolding run step create_nothreadsafe entry_used_once head_of bucket_of use_in find_entry
use_of_nothing = refl

-- A negative key that is no multiple of the table's size indexes before the table.
negative_key : lookup_entry (create_nothreadsafe 4 2) (negsuc 0) ≡ none
unfolding lookup_entry create_nothreadsafe head_of bucket_of
negative_key = refl

run-collects_example : (state_at after (pos 5) ≡ none) ↔ (
    ((tally (pos 5) no_calls calls).ends ≡ (tally (pos 5) no_calls calls).creates)
    × ((tally (pos 5) no_calls calls).uses ≡ (tally (pos 5) no_calls calls).limits))
unfolding tally post ◌==ℤ◌
run-collects_example = run-collects 4 2 calls after (pos 5) (omega arith) run-calls (omega arith)

run-refines_example :
    Option.map state_at (run (create_nothreadsafe 4 2) calls)
    ≡ spec_run (state_at (create_nothreadsafe 4 2)) calls
unfolding create_nothreadsafe
run-refines_example =
    run-refines (create_nothreadsafe 4 2) calls (create_nothreadsafe-IsRepo 4 2 (omega arith))
      (omega arith) (tt, (tt, (tt, (tt, tt))))
