-- ===== src/Workload.antt =====
-- src/zncache.c: the worker threads of the program, which share `struct zn_reader` and the count of
-- threads that have completed. A critical section under `reader.lock` or `thread_counter_lock` is one
-- step of a thread. What zn_cache_get gives a thread is part of the schedule: data, or NULL.
pub mod Threads
pub mod Queries
pub mod Lengths
pub mod Ends
mod Tests
use znworkload.Prelude.{
  ℕ, zero, suc, ◌+◌, ◌*◌, ◌/◌, Bool, true, false, Option, some, none, List, [], ◌∷◌, ◌++◌, ◌==◌,
  leb, if◌then◌else◌, u32, u64, length, get_elem?, set,
}

-- struct zn_reader, without its lock and the buffer
pub record Reader : Type 0 where
  pub workload_index : ℕ
  pub workload_max : ℕ
  pub thresh_perc : ℕ

-- The first critical section of task_function: the reader with the index that the thread takes, and
-- whether it prints, or `none` when the workload is read.
unfoldable pub take_query : Reader → Option (Reader × ℕ × Bool)
take_query r =
    let wi = r.workload_index in
    let percent = u64 (wi * 100) / r.workload_max in
    let print = leb r.thresh_perc percent in
    if leb r.workload_max wi
    then none
    else some (
      record r {
        workload_index = u64 (wi + 1);
        thresh_perc = if print then u64 (r.thresh_perc + 10) else r.thresh_perc;
      },
      wi,
      print,
    )

-- Where a thread is in task_function: before its first critical section, at work on a query, before
-- the second critical section, at the end, or gone by the early return.
pub data At : Type 0 where
  start : At
  query : ℕ → At
  leaving finished gone : At

-- What the threads share, where each of them is, and the indices that were taken so far.
pub record Program : Type 0 where
  pub reader : Reader
  pub nr_threads_completed : ℕ
  pub done : Bool
  pub threads : List At
  pub taken : List ℕ

abbrev pub move_to : Program → ℕ → At → Program
move_to p t a = record p { threads = set p.threads t a }

-- The round's first critical section for thread `t`.
abbrev pub begin_query : Program → ℕ → Option (Reader × ℕ × Bool) → Program
begin_query p t none = move_to p t leaving
begin_query p t (some (r, wi, print)) =
    move_to (record p { reader = r; taken = p.taken ++ wi ∷ [] }) t (query wi)

-- The second critical section: the last thread to count itself sets `done`. It also has the main
-- loop quit, which is left out.
unfoldable pub complete : Program → ℕ → Program
complete p t =
    let n = u32 (p.nr_threads_completed + 1) in
    move_to
      (record p { nr_threads_completed = n; done = if n == length p.threads then true else p.done })
      t finished

-- A step of thread `t`, where zn_cache_get gives data if `data_found`.
abbrev pub step_at : Program → ℕ → Bool → Option At → Option Program
step_at p t data_found none = none
step_at p t data_found (some start) = some (begin_query p t (take_query p.reader))
step_at p t data_found (some (query wi)) = some (move_to p t (if data_found then start else gone))
step_at p t data_found (some leaving) = some (complete p t)
step_at p t data_found (some finished) = none
step_at p t data_found (some gone) = none

unfoldable pub step : Program → ℕ → Bool → Option Program
unfolding take_query complete
step p t data_found = step_at p t data_found (get_elem? p.threads t)

-- A schedule: which thread steps, and what zn_cache_get gives it there. A step that the thread
-- cannot take ends the run.
unfoldable pub run : List (ℕ × Bool) → Program → Option Program
unfolding step
run [] p = some p
run ((t, data_found) ∷ schedule) p = elim (step p t data_found) [
  | none ↦ none
  | some q ↦ run schedule q
]

abbrev pub waiting : ℕ → List At
waiting zero = []
waiting (suc n) = start ∷ waiting n

-- The program as `main` starts it.
unfoldable pub initial : ℕ → ℕ → Program
initial workload_max nr_threads = record {
  reader = record { workload_index = 0; workload_max = workload_max; thresh_perc = 10 };
  nr_threads_completed = 0;
  done = false;
  threads = waiting nr_threads;
  taken = [];
}
