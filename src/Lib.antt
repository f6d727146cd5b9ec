-- ===== src/Lib.antt =====
-- ZNWorkload: a flash cache on zoned storage, and the parts that keep its state.
--
-- A thread that misses in the cache map claims the ID, takes a location from the zone state
-- manager, writes the data there, gives the location back, tells the eviction policy and publishes
-- the location in the cache map. An eviction takes a full zone from the policy, clears it in the
-- cache map, waits for its readers and has the zone state manager reset it. With the chunk policy
-- an eviction takes the least recently used chunks instead, and a garbage collection is meant to
-- empty the zones that have few left. Worker threads take the queries of a workload in turn, and
-- an eviction thread runs beside them.
--
-- Files
--   Prelude, Prelude/Tests, Prelude/Lists, Prelude/Occ: names of the standard library, Boolean
--     tests and lists over the native numbers, and the counting of occurrences in a list.
--   Run: how a C function ends (it returns, an `assert` fails, it crashes).
--   Backend: include/znbackend.h, and CHUNK_POINTER of include/znutil.h; Location: its arithmetic.
--   Disk: the part of src/cache.c that writes, reads and validates a chunk (write_out is
--     zn_write_out, and so on), on system calls that are parameters. Disk/Writes has their
--     documented behaviour and the write, Disk/Confined the writes that stay in their chunk,
--     Disk/Validate the read.
--   Zsm: src/zone_state_manager.c. A struct is a record, a pointer to a zone an index in the
--     array, a GQueue the list of its data. get_active_zone is zsm_get_active_zone, with open_free
--     and take_active for its two ends; return_active_zone, failed_to_write, mark_chunk_invalid
--     and the get_num_ functions keep their names; evict_zone is zsm_evict and init is zsm_init.
--     Zsm/Invariant says what links the queues, the zones and the locations in use; Zsm/Move and
--     Zsm/Held have the lemmas on it, Zsm/Get, Zsm/Return, Zsm/Evict and Zsm/Init the operations,
--     and Zsm/Clients the histories of many threads.
--   Minheap: src/minheap.c. The array of pointers and the allocated entries are memory by address,
--     so that an entry can be reached from outside the heap, as zn_minheap_update_by_entry does.
--     Minheap/Order has the invariant and the heap order, Minheap/Swap, Minheap/Up and
--     Minheap/Down the loops, Minheap/Insert, Minheap/Extract, Minheap/Change and Minheap/Destroy
--     the operations.
--   Promotional: src/eviction/promotional.c. A GList link is a number. Promotional/Lru has the
--     links and the map, Promotional/Refines the plain list that they stand for,
--     Promotional/Recency the histories with the times of access.
--   Cachemap: src/cachemap.c. The results lie in memory by address, so that a freed one is told
--     apart. Cachemap/View has the invariant and the view of the map by ID, Cachemap/Write the
--     lookup and the writer, Cachemap/Tables the tables of the zones, Cachemap/Drop and
--     Cachemap/Clear the eviction of a zone, Cachemap/ClearChunk that of a chunk, Cachemap/Race
--     two threads at once, Cachemap/Stays what the operations leave as it was.
--   Eviction: zn_fg_evict of src/cache.c, which composes Promotional, Cachemap and Zsm, without
--     other threads. Eviction/Foreground links the invariants of the three.
--   Get: zn_cache_get of src/cache.c with the promotional policy, for a thread that runs alone.
--     Get/Hit has the cached ID, Get/Miss the write, Get/Failure the write that fails.
--   Chunks: what the chunks of the device hold after a write of src/cache.c or a reset of
--     src/zone_state_manager.c, for Concurrent.
--   Concurrent: zn_cache_get and zn_fg_evict of src/cache.c with the promotional policy, as steps
--     of any number of threads. Pc says where a thread is, reader_step, writer_step and
--     evictor_step have the steps of the hit branch, of the miss branch and of the eviction, and a
--     schedule is a list of events. Concurrent/Places and Concurrent/Held say what a thread has in
--     hand, Concurrent/Invariant how that agrees with the shared state, and Concurrent/Frame what
--     a step leaves to the others; Concurrent/Zones and Cachemap/Stays are about the calls. The
--     steps are in Concurrent/Lookup, /Reader and /Hit, in /Writer, /Store, /Give, /Note and
--     /Publish, and in /Evictor, /Clearing and /Resetting. Concurrent/Intact and /Safe have the schedules,
--     /Progress, /Moving and /Live the waiting, /Start and /Session the start from zn_init_cache,
--     and /Race a schedule that goes wrong.
--   ChunkPolicy: include/eviction_policy_chunk.h, and zn_policy_chunk_update of
--     src/eviction/chunk.c (chunk_update, with chunk_written and chunk_read for its branches). A
--     pointer to a chunk of the pool is a number. ChunkPolicy/Invariant links the queue, the
--     table, the pool and the heap, ChunkPolicy/Update has the read, ChunkPolicy/Written the
--     write, ChunkPolicy/Access both.
--   ChunkEviction: zn_policy_chunk_evict (chunk_evict, with evict_link for a round of its loop)
--     and zn_policy_chunk_gc (chunk_gc, collect_zone, move_chunks). ChunkEviction/Requeue, /Round,
--     /Evicted and /Rounds have a round and the loop, ChunkEviction/Sweep the whole eviction,
--     ChunkEviction/Stuck the garbage collection.
--   EvictPolicy: src/eviction_policy.c; EvictPolicy/Start the policies as they start.
--   Startup: zn_init_cache of src/cache.c; Startup/Parts links it to the invariants.
--   Device: how `main` of src/zncache.c lays zones over the device, with zone_cap and
--     generate_random_buffer of src/znutil.c; Device/Inside has the bounds.
--   Main: `main` of src/zncache.c up to its wait for the workers: parse_options, choose_workload,
--     open_device, start_cache and start_threads are its parts in their order. Main/Chosen has
--     the queries, Main/Running what the workers start with.
--   Workload: task_function of src/zncache.c, as steps of threads between its critical sections
--     (take_query and complete). Workload/Threads has the invariant, Workload/Queries what is
--     taken, Workload/Lengths the length of a run, Workload/Ends how the runs end.
--   WorkloadFile: read_workload of src/zncache.c; WorkloadFile/Loaded its loop.
--   EvictTask: a round of evict_task of src/zncache.c.
--   Profiler: include/znprofiler.h and src/znprofiler.c; Profiler/Report what is written out.
--   Tests, and a Tests beside each part: runs at concrete inputs.
--
-- Choices
--   Integers are natural numbers with their wrap-around written out: `u32` and `u64` reduce, and
--   -1 is 2^32 - 1. libzbd is a parameter of each call (the record Zbd), with any answers. A
--   function that holds its mutex from start to end is one step, and an interleaving of threads is
--   a list of steps; zn_cachemap_find copies its result after the unlock, which is a second step
--   (read_result). Memory allocation succeeds. bubble_up has the index plus one as its fuel, and
--   bubble_down the size plus one: each round strictly lowers the index, or raises it below the
--   size. Fuel that runs out is a crash. zn_write_out has one round more than it has bytes to
--   write, and each round writes at least one, or fails. The loop of zn_cache_get that asks for a
--   location takes its fuel as an argument: alone, a thread may wait for ever. The loop of
--   zn_policy_chunk_gc takes it too, and read_workload, which is interrupted as often as its
--   `read` is. zn_policy_chunk_evict and zn_policy_chunk_gc are modelled without other threads. In
--   a schedule of the workers the result of zn_cache_get, data or NULL, is part of the schedule.
--   `double` is a type with operations that are a parameter. In Concurrent the device is what was
--   written to its chunks: a write that succeeds leaves the chunk of its ID, one that fails leaves
--   no data, and a reset leaves none in the zone of a ZNS device and touches nothing on a block
--   device. A write whose chunk size is no multiple of the 4096 bytes of each pwrite, or which has
--   a short pwrite, may go past the end of its chunk, and from then on a read gives nothing that is
--   known. The hit ratio is left out there, and a thread that waits is one whose step changes
--   nothing. The indices of arrays are natural numbers also where the code has an int, as
--   zsm_evict does: zn_cachemap_init aborts for 2^31 zones or more, so they agree. The loop of
--   zn_validate_read has one round more than the chunk has bytes; it runs out of them if its index
--   wraps, and then never ends in the code.
--
-- Not modelled
--   What `main` of src/zncache.c does after its wait for the workers, which is to clean up, the
--   timer of the profiler, `usage` and the messages, and the metrics that task_function reports;
--   the printing functions of src/znutil.c; zn_destroy_cache of src/cache.c, which only closes the
--   profiler; the file of the profiler and its time stamps; zn_cache_get with the chunk policy;
--   the reference count of the condition variables in src/cachemap.c; src/eviction/zone.c, which
--   is empty; the mutexes, whose effect is that each function is a step.
pub mod Prelude
pub mod Run
pub mod Backend
pub mod Chunks
pub mod Location
pub mod Disk
pub mod ChunkEviction
pub mod EvictPolicy
pub mod Workload
pub mod Profiler
pub mod Startup
pub mod WorkloadFile
pub mod EvictTask
pub mod Device
pub mod Main
pub mod ChunkPolicy
pub mod Eviction
pub mod Get
pub mod Tests
pub mod Zsm
pub mod Minheap
pub mod Promotional
pub mod Cachemap
pub mod Concurrent
