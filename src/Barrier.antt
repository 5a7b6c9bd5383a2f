-- ===== src/Barrier.antt =====
-- src/barrier.c with include/barrier.h: the barrier at which the threads of the scheduler wait for one
-- another. The mutex makes of a call two steps: the entry, up to the wait on the condition or the
-- return, and the check after a wake-up. A thread in `pthread_cond_wait` stays there until it is
-- woken, by the broadcast or for no reason. An `int` keeps its wrap-around. The
-- value that a call returns, 1 in the first branch of `enter` and 0 in that of `wake`, is ignored by its
-- callers and left out.
pub mod Laws
pub mod Together
mod Tests
use dague_hsa.Prelude.{
  ℕ, zero, suc, ◌+◌, ◌%◌, ◌^◌, Bool, true, false, not, Option, some, none, List, [], ◌∷◌,
  if◌then◌else◌, ◌==◌, get_elem?, set, replicate, map,
}
use dague_hsa.Distribution.{w32}

-- `dague_barrier_t`
pub record Barrier : Type 0 where
  pub count : ℕ
  pub curcount : ℕ
  pub generation : ℕ

-- `dague_barrier_init`: the code that it returns, and the barrier if its fields were set. The codes
-- of `pthread_mutex_init` and `pthread_cond_init` are parameters.
unfoldable pub barrier_init : (mutex_rc cond_rc count : ℕ) → ℕ × Option Barrier
barrier_init mutex_rc cond_rc count =
    if not (mutex_rc == 0)
    then (mutex_rc, none)
    else (cond_rc, some (record { count = count; curcount = 0; generation = 0 }))

-- `dague_barrier_destroy`
unfoldable pub barrier_destroy : Barrier → Barrier
barrier_destroy b = record b { count = 0; curcount = 0 }

-- A thread is outside the barrier, or waits in it with the generation that it has read: blocked in
-- `pthread_cond_wait`, or woken from it and about to look at the generation again. All know how many
-- calls of `dague_barrier_wait` have returned.
pub data Thread : Type 0 where
  running : (returned : ℕ) → Thread
  blocked woken : (returned generation : ℕ) → Thread

-- `pthread_cond_broadcast` wakes every thread that is blocked.
unfoldable pub unblock : Thread → Thread
unblock (running returned) = running returned
unblock (blocked returned generation) = woken returned generation
unblock (woken returned generation) = woken returned generation

pub record System : Type 0 where
  pub barrier : Barrier
  pub threads : List Thread

-- The entry of the thread number i: the last of the threads broadcasts and returns, and the others
-- block.
unfoldable pub enter : (i returned : ℕ) → System → System
enter i returned s =
    let b = s.barrier in
    if w32 (b.curcount + 1) == b.count
    then record {
      barrier = record b { generation = w32 (b.generation + 1); curcount = 0 };
      threads = map unblock (set s.threads i (running (returned + 1)));
    }
    else record {
      barrier = record b { curcount = w32 (b.curcount + 1) };
      threads = set s.threads i (blocked returned b.generation);
    }

-- The check after a wake-up.
unfoldable pub wake : (i returned generation : ℕ) → System → System
wake i returned generation s =
    if not (generation == s.barrier.generation)
    then record s { threads = set s.threads i (running (returned + 1)) }
    else record s { threads = set s.threads i (blocked returned generation) }

-- A thread goes on, which a blocked one does not, or one that is blocked wakes up for no reason.
pub data Event : Type 0 where
  go_on spurious : (i : ℕ) → Event

unfoldable pub go : ℕ → Option Thread → System → System
unfolding enter wake
go i none s = s
go i (some (running returned)) s = enter i returned s
go i (some (blocked returned generation)) s = s
go i (some (woken returned generation)) s = wake i returned generation s

unfoldable pub rouse : ℕ → Option Thread → System → System
unfolding unblock
rouse i none s = s
rouse i (some t) s = record s { threads = set s.threads i (unblock t) }

unfoldable pub step : Event → System → System
unfolding go rouse
step (go_on i) s = go i (get_elem? s.threads i) s
step (spurious i) s = rouse i (get_elem? s.threads i) s

-- A schedule says what happens next.
unfoldable pub run : List Event → System → System
unfolding step
run [] s = s
run (e ∷ schedule) s = run schedule (step e s)

-- a new barrier for so many threads, none of which has come yet
abbrev pub fresh : ℕ → System
fresh n = record {
  barrier = record { count = n; curcount = 0; generation = 0 };
  threads = replicate n (running 0);
}
