-- ===== src/Barrier/Tests.antt =====
-- Runs of src/barrier.c, and the theorems at a concrete schedule.
use dague_hsa.Prelude.{ℕ, ◌+◌, ◌≤◌, ◌≡◌, refl, arith, some, List, [], ◌∷◌, All, get_elem?}
use dague_hsa.Barrier.{Thread, running, blocked, woken, Event, go_on, spurious, step, run, fresh}
use dague_hsa.Barrier.Together.{returned, entered, IsWaiting, run-returned-le-entered, run-lets_go}

-- Of three threads, two come; one of them cannot go on, and wakes up for no reason.
abbrev early : List Event
early = go_on 0 ∷ go_on 2 ∷ go_on 0 ∷ spurious 0 ∷ []

two_wait : (run early (fresh 3)).threads ≡ woken 0 0 ∷ running 0 ∷ blocked 0 0 ∷ []
unfolding run
two_wait = refl

-- The last one comes, goes on, and waits again; then the first goes on and follows.
abbrev schedule : List Event
schedule = go_on 0 ∷ go_on 2 ∷ go_on 1 ∷ go_on 1 ∷ go_on 0 ∷ go_on 0 ∷ []

after_schedule : (run schedule (fresh 3)).threads ≡ blocked 1 1 ∷ blocked 1 1 ∷ woken 0 0 ∷ []
unfolding run
after_schedule = refl

first_thread : get_elem? (run schedule (fresh 3)).threads 1 ≡ some (blocked 1 1)
unfolding run
first_thread = refl

last_thread : get_elem? (run schedule (fresh 3)).threads 2 ≡ some (woken 0 0)
unfolding run
last_thread = refl

all_wait : All IsWaiting (run schedule (fresh 3)).threads
unfolding run
all_wait = (tt, (tt, (tt, tt)))

run-returned-le-entered_example : returned (blocked 1 1) ≤ entered (woken 0 0)
run-returned-le-entered_example =
    run-returned-le-entered 3 (omega arith) (omega arith) schedule 1 2 (blocked 1 1) (woken 0 0)
      first_thread last_thread

run-lets_go_example :
    (i : ℕ) × (t : Thread) × (get_elem? (run schedule (fresh 3)).threads i ≡ some t)
    × (get_elem? (step (go_on i) (run schedule (fresh 3))).threads i
        ≡ some (running (returned t + 1)))
run-lets_go_example = run-lets_go 3 (omega arith) (omega arith) schedule all_wait
