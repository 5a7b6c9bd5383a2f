-- ===== src/Lib.antt =====
-- DAGuE is a runtime system, written in C, that runs a dataflow program on a cluster of multicore
-- nodes. A program is a graph of tasks whose edges are data dependencies; the runtime keeps, on each
-- node, how many dependencies of a task have been released, queues the tasks that are ready, holds the
-- data that they exchange until the last use, and knows for each tile of a distributed matrix which
-- node owns it and where in its memory the tile is. This library models the data structures that this
-- rests on. Paths are from the root of the repository.
--
-- DataRepo: include/datarepo.h, the table of the data that finished tasks hand to their successors.
--   A repository is an array of buckets, each a chain of entries with a use counter, a usage limit and
--   a retained flag; the operations are data_repo_create_nothreadsafe, data_repo_lookup_entry,
--   data_repo_lookup_entry_and_create, data_repo_entry_used_once and
--   data_repo_entry_addto_usage_limit. Each runs under the lock of a bucket and is one step here; any
--   sequence of calls stands for any interleaving of threads. DataRepo.Counters is the abstract table
--   that a client relies on, DataRepo.Shape the representation invariant, DataRepo.Refine the
--   refinement and DataRepo.Lifetime the life of an entry. Counters are 32-bit and wrap; calloc, whose
--   result the code does not check, gives memory.
-- HbBuffer: include/hbbuffer.h, the bounded buffers of ready tasks in a hierarchy, with the system
--   queue at its top (push_in_queue_wrapper of src/dague.c). Each call is one step.
-- Dependencies: src/dague.c and include/dague.h, in the build DAGUE_USE_COUNTER_FOR_DEPENDENCIES. An
--   interleaving of the accesses of threads to the counter of a task is a list of thread numbers;
--   `access` is one atomic read, compare-and-swap or increment of
--   dague_release_local_OUT_dependencies. The list of ready tasks is the ring of
--   dague_list_add_single_elem_by_priority, read from its head on. Dependencies.Objects is the table of
--   dague_object_register and dague_object_lookup.
-- Outcome, Expr, Range, Symbols: src/expr.c and src/symbol.c with their headers. An expression is a
--   tree whose nodes carry the value that EXPR_FLAG_CONSTANT announces. Signed arithmetic out of the
--   range of `int`, a failed assertion, a read through NULL or of a variable that was never set is the
--   outcome `fault`; the codes of include/expr.h are `fail`. Expr.Build are the constructors, with their
--   constant folding, Expr.Walk the walks over the symbols, Range is expr_absolute_range, and Symbols
--   the table of the symbols with the room that is allocated for it. An inlined function of generated
--   code is a function of the assignments.
-- Distribution: data_dist/matrix, the three distributions of the tiles of a matrix. TwoDim is
--   two_dim_rectangle_cyclic.c, SymTwoDim is sym_two_dim_rectangle_cyclic.c and Tabular is
--   tabular_distribution.c; the functions keep their names without the prefix. They compute in
--   `unsigned int`, whose wrap-around is written out. The memory comes from malloc, through
--   dague_allocate_matrix, which is a parameter that may fail. A loop over an unsigned variable has
--   2^32 rounds of fuel, one for each value that the variable can have, so that running out of it means
--   that the source does not stop: the variable determines the rest of the run.
-- Arena: src/arena.c and include/arena.h, the pool of memory chunks for tiles. An arena holds the
--   addresses of the chunks kept for reuse and two counters with limits; Arena.Limits and Arena.Runs are
--   about sequences of dague_arena_get, dague_arena_ref and dague_arena_unref on it, each one step. The
--   size of the prefix of a chunk and malloc are parameters.
-- RemoteDep: src/remote_dep.c with include/remote_dep.h, the broadcast of the end of a task to the
--   processes of its successors, and dague_release_dep_fct of src/dague.c (RemoteDep.Collect), which
--   collects them. A 32-bit word of a bit field is the list of its bits. `activate` is
--   dague_remote_dep_activate on one process, with the child function of the collective as a parameter:
--   RemoteDep.Trees has the three of the source. RemoteDep.Walk is about its loops, RemoteDep.Broadcast
--   about whom a process sends to, RemoteDep.Delivery and RemoteDep.Once about all processes together:
--   each runs the same code on the same bit field, and a message that is sent arrives. RemoteDep.Layout
--   is the memory of the structure with its bit fields, on a machine with pointers of 8 bytes.
-- Barrier: src/barrier.c, the barrier of the scheduler's threads. A schedule is a list of events: a
--   thread goes on, with what it does in dague_barrier_wait between taking and leaving the mutex, or one
--   that is blocked in pthread_cond_wait wakes up for no reason.
-- Generator: data_dist/matrix/matrix.c, the generation of matrices. Generator has Rnd64_jump, whose
--   64 rounds of fuel are one for each binary digit of its argument, and the create_tile functions;
--   Generator.Threads is rand_dist_matrix, which finds the tiles of a process and shares them among its
--   threads, each of which pthread_create is taken to start; a schedule says which of them makes its next
--   call. The floating-point numbers, the owner of a tile and malloc are parameters.
-- Cache: Buf2Cache/buf2cache.c, the least-recently-used model of the caches of a core. Cache has the
--   functions, each run by one thread without others, Cache.Slots what the loop finds, Cache.Recent and
--   Cache.Lru the tiles by their last reference, Cache.Evict the tile that is evicted, and
--   Cache.References and Cache.History the references one after the other.
-- Prelude: what the modules share: native numbers, Boolean tests, lists measured by native numbers, and
--   the integers of C.
--
-- Not modelled: the compiler of dataflow programs (tools/dague-compiler), the transport through MPI
-- (src/remote_dep_mpi.c), the scheduler loop (src/scheduling.c), the queues
-- that are lists of pointers (include/lifo.h, include/dequeue.h), and everything that only prints,
-- measures or binds threads: these are other components, or calls of libraries. Of the files above, the
-- functions that print, free, or read and write files are left out, and of src/dague.c the start of the
-- threads and the build that tracks dependencies by masks.
pub mod Prelude
pub mod DataRepo
pub mod HbBuffer
pub mod Outcome
pub mod Expr
pub mod Symbols
pub mod Range
pub mod Distribution
pub mod Dependencies
pub mod Arena
pub mod RemoteDep
pub mod Barrier
pub mod Generator
pub mod Cache
