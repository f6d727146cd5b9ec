-- ===== src/Main.antt =====
-- `main` of src/zncache.c up to its wait for the workers. What the system answers is an argument:
-- getopt, open, libzbd, ioctl, malloc and GLib. Messages, the timer of the profiler and the clock
-- are left out. A path is a value of any type.
pub mod Chosen
pub mod Running
mod Tests
use znworkload.Prelude.{
  ℕ, zero, suc, ◌+◌, ◌*◌, ◌/◌, Bool, true, false, not, ◌&&◌, ◌||◌, Option, some, none, List, [],
  ◌∷◌, map, ltb, leb, ◌==◌, if◌then◌else◌, u64, minus_one, length, get_elem?,
}
use znworkload.Run.{Run, ok, abort, crash, ◌>>=◌, ◌>>◌, assert}
use znworkload.Backend.{Backend, zns, block}
use znworkload.EvictPolicy.{PolicyType}
use znworkload.Startup.{DeviceInfo, ZnCache, Memory, init_cache}
use znworkload.Device.{Opened, opened, failed, open_block, open_zoned, generate_random_buffer}
use znworkload.WorkloadFile.{Bytes, ReadResult, read_workload}
use znworkload.Disk.{read_u32}

-- simple_workload
abbrev pub simple_workload : List ℕ
simple_workload =
    1 ∷ 2 ∷ 3 ∷ 4 ∷ 5 ∷ 6 ∷ 7 ∷ 8 ∷ 9 ∷ 10 ∷ 11 ∷ 12 ∷ 13 ∷ 14 ∷ 15 ∷ 16 ∷ 17 ∷ 18 ∷ 19 ∷ 20 ∷ 1 ∷ 2
    ∷ 3 ∷ 4 ∷ 5 ∷ 6 ∷ 7 ∷ 8 ∷ 9 ∷ 10 ∷ 11 ∷ 12 ∷ 13 ∷ 14 ∷ 15 ∷ 16 ∷ 17 ∷ 18 ∷ 19 ∷ 20 ∷ 21 ∷ 22
    ∷ 23 ∷ 24 ∷ 25 ∷ 26 ∷ 27 ∷ 28 ∷ 29 ∷ 30 ∷ 31 ∷ 32 ∷ 33 ∷ 34 ∷ 35 ∷ 36 ∷ 37 ∷ 38 ∷ 39 ∷ 40 ∷ 21
    ∷ 22 ∷ 23 ∷ 24 ∷ 25 ∷ 26 ∷ 27 ∷ 28 ∷ 29 ∷ 30 ∷ 31 ∷ 32 ∷ 33 ∷ 34 ∷ 35 ∷ 36 ∷ 37 ∷ 38 ∷ 39 ∷ 40
    ∷ []

-- What a call of getopt gives: an option with its argument (for -i the number that strtol reads,
-- in uint64_t), -h, or one that it does not know.
pub data Opt (FilePath : Type 0) : Type 0 where
  workload : FilePath → Opt FilePath
  iterations : ℕ → Opt FilePath
  metrics : FilePath → Opt FilePath
  help unknown : Opt FilePath

pub record Options (FilePath : Type 0) : Type 0 where
  pub workload_file : Option FilePath
  pub workload_max : ℕ
  pub metrics_file : Option FilePath

-- The code that `main` ends with, or what it goes on with.
pub data Outcome (A : Type 0) : Type 0 where
  exits : ℕ → Outcome A
  goes_on : A → Outcome A

abbrev pub then_on : {A B : Type 0} → Run (Outcome A) → (A → Run (Outcome B)) → Run (Outcome B)
then_on (ok (goes_on a)) f = f a
then_on (ok (exits n)) f = ok (exits n)
then_on abort f = abort
then_on crash f = crash

module _ {FilePath : Type 0} where
  -- `workload_max = UINT64_MAX`, and no files
  abbrev pub no_options : Options FilePath
  no_options = record {
    workload_file = none;
    workload_max = 18446744073709551615;
    metrics_file = none;
  }

  -- The loop over the options
  unfoldable pub parse_options : List (Opt FilePath) → Options FilePath → Outcome (Options FilePath)
  parse_options [] o = goes_on o
  parse_options (workload f ∷ r) o = parse_options r (record o { workload_file = some f })
  parse_options (iterations n ∷ r) o = parse_options r (record o { workload_max = n })
  parse_options (metrics f ∷ r) o = parse_options r (record o { metrics_file = some f })
  parse_options (help ∷ r) o = exits 0
  parse_options (unknown ∷ r) o = exits minus_one

-- workload_buffer, with the entries that there is memory for, and workload_max
pub record Queries : Type 0 where
  pub entry : ℕ → ℕ
  pub room : ℕ
  pub number : ℕ

abbrev value_or : Option ℕ → ℕ
value_or none = 0
value_or (some n) = n

abbrev pub simple_queries : Queries
simple_queries = record {
  entry = λ i. value_or (get_elem? simple_workload i);
  room = length simple_workload;
  number = length simple_workload;
}

abbrev pub entry_of : Bytes → ℕ → ℕ
entry_of b i = read_u32 (λ k. b (4 * i + k))

-- What `open` and `read` answer for the workload file, what malloc leaves in the buffer, and
-- whether it gives one.
pub record Files (FilePath World : Type 0) : Type 0 where
  pub open_file : FilePath → Option World
  pub read : World → ℕ → World × ReadResult
  pub fuel : ℕ
  pub allocated : ℕ → Bool
  pub garbage : Bytes

module _ {FilePath World : Type 0} (files : Files FilePath World) where
  abbrev pub loaded : ℕ → World × Bytes × ℕ → Outcome Queries
  loaded n (w, buffer, ret) =
      if ret == 0
      then goes_on (record { entry = entry_of buffer; room = u64 (n * 4) / 4; number = n })
      else exits 1

  -- The buffer for `n` queries of an open file
  unfoldable pub load_workload : ℕ → Option World → Run (Outcome Queries)
  load_workload n none = ok (exits 1)
  load_workload n (some w) = do
    assert (files.allocated (u64 (n * 4)))
    r ← read_workload files.read files.fuel w files.garbage (u64 (n * 4))
    ok (loaded n r)

  -- The workload of the options
  unfoldable pub choose_workload : Options FilePath → Run (Outcome Queries)
  unfolding load_workload
  choose_workload o = elim o.workload_file [
    | none ↦ ok (goes_on simple_queries)
    | some f ↦
        if o.workload_max == 18446744073709551615
        then ok (exits 1)
        else load_workload o.workload_max (files.open_file f)
  ]

-- What the system answers about the device: the descriptor, what zbd_open says, the results of
-- zbd_reset_zones and of the report, and the size that ioctl gives.
pub record Drive : Type 0 where
  pub descriptor : ℕ
  pub info : DeviceInfo
  pub reset_ret : ℕ
  pub report : ℕ × ℕ
  pub size : Option ℕ

-- `fd < 0`, for an int
abbrev pub negative : ℕ → Bool
negative n = leb 2147483648 n

abbrev unless_failed : ℕ → Opened → Opened
unless_failed fd r = if negative fd then failed fd else r

-- The device, with the build options BLOCK_ZONE_CAPACITY and MAX_ZONES_USED
unfoldable pub open_device : ℕ → ℕ → Backend → Drive → Run Opened
open_device capacity max_used zns d =
    ok (unless_failed d.descriptor (open_zoned max_used d.info d.reset_ret d.report))
open_device capacity max_used block d = elim d.size [
  | none ↦ ok (failed minus_one)
  | some size ↦ do r ← open_block capacity size; ok (unless_failed d.descriptor r)
]

-- The program's arguments and the rest of what the system answers: `threads` is the int32_t that
-- strtol reads, `pushed` says whether a task can be pushed, and `opens` whether a metrics file opens.
pub record Setting (FilePath World : Type 0) : Type 0 where
  pub euid : ℕ
  pub argc : ℕ
  pub chunk_sz : ℕ
  pub threads : ℕ
  pub opts : List (Opt FilePath)
  pub files : Files FilePath World
  pub backend : Backend
  pub drive : Drive
  pub rand : ℕ → ℕ
  pub some_memory : Bool
  pub memory : Memory
  pub opens : FilePath → Bool
  pub pool_made : Bool
  pub pushed : ℕ → Bool

-- What the workers run on: `tasks` are the numbers `tid` of the tasks in the pool, in the order in
-- which they were pushed.
pub record Session : Type 0 where
  pub cache : ZnCache
  pub queries : Queries
  pub nr_threads : ℕ
  pub tasks : List ℕ

abbrev add_task : ℕ → Option (List ℕ) → Option (List ℕ)
add_task i none = none
add_task i (some tasks) = some (i ∷ tasks)

-- The loop that pushes the tasks, with the rounds left first: the tasks in the pool, if all could
-- be pushed.
unfoldable pub push_tasks : (ℕ → Bool) → ℕ → ℕ → Option (List ℕ)
push_tasks pushed zero i = some []
push_tasks pushed (suc k) i = if pushed i then add_task i (push_tasks pushed k (i + 1)) else none

abbrev pub of_option : {A : Type 0} → Option A → Outcome A
of_option none = exits 12
of_option (some a) = goes_on a

module _ {FilePath World : Type 0} (capacity max_used : ℕ) (policy : PolicyType)
    (s : Setting FilePath World) where
  abbrev pub opens_file : Option FilePath → Option Bool
  opens_file none = none
  opens_file (some f) = some (s.opens f)

  -- The thread pool: a negative number of threads asks g_new for too much memory, and with none
  -- `thread_data->loop` is read through NULL.
  unfoldable pub start_threads : ZnCache → Queries → Run (Outcome Session)
  start_threads c q =
      if s.pool_made
      then (if negative s.threads then abort else elim (push_tasks s.pushed s.threads 0) [
        | none ↦ ok (exits 1)
        | some tasks ↦
            if s.threads == 0
            then crash
            else ok
                (goes_on (record { cache = c; queries = q; nr_threads = s.threads; tasks = tasks }))
      ])
      else ok (exits 1)

  -- From the open device on: the random buffer, the cache and the threads.
  unfoldable pub start_cache : Options FilePath → Queries → Opened → Run (Outcome Session)
  unfolding start_threads
  start_cache o q (failed ret) = ok (exits ret)
  start_cache o q (opened info zone_capacity) =
      then_on (ok (of_option (generate_random_buffer s.rand s.some_memory s.chunk_sz))) λ random. do
        c ←
            init_cache s.memory info s.chunk_sz zone_capacity s.drive.descriptor policy s.backend
              q.number (opens_file o.metrics_file)
        start_threads c q

  -- main
  unfoldable pub main : Run (Outcome Session)
  unfolding parse_options choose_workload open_device start_cache
  main =
      if s.euid == 0 && not (ltb s.argc 4 || ltb 11 s.argc)
      then (then_on (ok (parse_options s.opts no_options)) λ o.
          then_on (choose_workload s.files o)
            λ q. open_device capacity max_used s.backend s.drive >>= λ d. start_cache o q d)
      else ok (exits minus_one)
