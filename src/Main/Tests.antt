-- ===== src/Main/Tests.antt =====
-- A run of `main` up to its wait for the workers, on a block device of two zones of 4096 bytes.
use znworkload.Prelude.{ℕ, ◌+◌, ◌≡◌, refl, Bool, true, false, none, some, List, [], ◌∷◌}
use znworkload.Run.{Run, ok, abort, crash}
use znworkload.Backend.{block}
use znworkload.Zsm.{init}
use znworkload.Cachemap.{cachemap_init}
use znworkload.EvictPolicy.{promote_zone, evict_policy_init}
use znworkload.Startup.{Memory, init_cache}
use znworkload.Device.{open_block, generate_random_buffer}
use znworkload.WorkloadFile.{bytes_read, read_workload, read_loop}
use znworkload.Main.{
  Opt, workload, iterations, help, parse_options, Outcome, exits, goes_on, Files, choose_workload,
  load_workload, open_device, Setting, Session, push_tasks, start_threads, start_cache, main,
}
use znworkload.Main.Running.{Running, main-Running}

abbrev files : Files ℕ ℕ
files = record {
  open_file = λ path. some 0;
  read = λ w n. (w + n, bytes_read n (λ i. w + i));
  fuel = 3;
  allocated = λ n. true;
  garbage = λ a. 99;
}

abbrev memory : Memory
memory = record {
  readers = λ _. 0;
  pool = λ z. record {
    zone_id = 7;
    chunks = [];
    chunks_in_use = 7;
    filled = true;
    pqueue_entry = none;
  };
  chunks = λ z c. record { zone = 9; chunk_offset = 9; id = 9; in_use = true };
}

abbrev setting : List (Opt ℕ) → ℕ → Setting ℕ ℕ
setting opts threads = record {
  euid = 0;
  argc = 8;
  chunk_sz = 1024;
  threads = threads;
  opts = opts;
  files = files;
  backend = block;
  drive = record {
    descriptor = 3;
    info = record { nr_zones = 0; max_nr_active_zones = 0; zone_size = 0 };
    reset_ret = 0;
    report = (0, 0);
    size = some 8192;
  };
  rand = λ i. i;
  some_memory = true;
  memory = memory;
  opens = λ path. true;
  pool_made = true;
  pushed = λ i. true;
}

abbrev from_file : Setting ℕ ℕ
from_file = setting (workload 5 ∷ iterations 2 ∷ []) 4

abbrev is_running : Run (Outcome Session) → Bool
is_running (ok (goes_on r)) = true
is_running _ = false

starts : is_running (main 4096 0 promote_zone from_file) ≡ true
unfolding main parse_options choose_workload load_workload open_device start_cache start_threads
    push_tasks open_block generate_random_buffer init_cache cachemap_init evict_policy_init init
    read_workload read_loop
starts = refl

session_of :
    (m : Run (Outcome Session)) → is_running m ≡ true → (r : Session) × (m ≡ ok (goes_on r))
session_of (ok (goes_on r)) e = (r, refl)
session_of (ok (exits n)) e = cc
session_of abort e = cc
session_of crash e = cc

abbrev result : (r : Session) × (main 4096 0 promote_zone from_file ≡ ok (goes_on r))
result = session_of (main 4096 0 promote_zone from_file) starts

main-Running_example : Running from_file result.0
main-Running_example = main-Running 4096 0 promote_zone from_file result.0 result.1

no_iterations : main 4096 0 promote_zone (setting (workload 5 ∷ []) 4) ≡ ok (exits 1)
unfolding main parse_options choose_workload
no_iterations = refl

asks_for_help : main 4096 0 promote_zone (setting (help ∷ []) 4) ≡ ok (exits 0)
unfolding main parse_options
asks_for_help = refl

no_threads : main 4096 0 promote_zone (setting [] 0) ≡ crash
unfolding main parse_options choose_workload open_device start_cache start_threads push_tasks
    open_block generate_random_buffer init_cache cachemap_init evict_policy_init init
no_threads = refl
