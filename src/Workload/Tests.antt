-- ===== src/Workload/Tests.antt =====
-- The worker threads on a workload of two queries.
use znworkload.Prelude.{
  ℕ, ◌+◌, ◌*◌, ◌≤◌, ◌<◌, ◌≡◌, ◌⊎◌, zero, suc, refl, true, false, Bool, some, List, [], ◌∷◌, arith,
  length, count,
}
use znworkload.Workload.{Program, start, finished, gone, initial, run, step}
use znworkload.Workload.Threads.{upto, is_gone}
use znworkload.Workload.Queries.{Shared, run-Shared}
use znworkload.Workload.Lengths.{run-length}
use znworkload.Workload.Ends.{Stuck, run-Stuck, run-gone}

-- Thread 0 takes both queries, and then both threads count themselves.
abbrev both : List (ℕ × Bool)
both =
    (0, true)
    ∷ (0, true)
    ∷ (0, true)
    ∷ (1, true)
    ∷ (0, true)
    ∷ (0, true)
    ∷ (0, true)
    ∷ (1, true)
    ∷ []

abbrev ending : Program
ending = record {
  reader = record { workload_index = 2; workload_max = 2; thresh_perc = 20 };
  nr_threads_completed = 2;
  done = true;
  threads = finished ∷ finished ∷ [];
  taken = 0 ∷ 1 ∷ [];
}

run-both : run both (initial 2 2) ≡ some ending
unfolding run initial
run-both = refl

run-Shared_example : Shared 2 2 ending
run-Shared_example = run-Shared 2 2 (omega arith) (omega arith) both ending run-both

run-length_example : length both ≤ 2 * 2 + 2 * 2
run-length_example = run-length 2 2 (omega arith) (omega arith) both ending run-both

ending-Stuck : Stuck ending
unfolding step
ending-Stuck zero found = refl
ending-Stuck (suc zero) found = refl
ending-Stuck (suc (suc t)) found = refl

run-Stuck_example :
    ((ending.done ≡ true) × (ending.taken ≡ upto 2)) ⊎ (0 < count is_gone ending.threads)
run-Stuck_example =
    run-Stuck 2 2 (omega arith) (omega arith) both ending run-both ending-Stuck (omega arith)

-- Thread 0 gets no data for its query, and thread 1 takes the other one.
abbrev first : List (ℕ × Bool)
first = (0, true) ∷ (0, false) ∷ []

abbrev later : List (ℕ × Bool)
later = (1, true) ∷ (1, true) ∷ (1, true) ∷ (1, true) ∷ []

abbrev lost : Program
lost = record {
  reader = record { workload_index = 1; workload_max = 2; thresh_perc = 10 };
  nr_threads_completed = 0;
  done = false;
  threads = gone ∷ start ∷ [];
  taken = 0 ∷ [];
}

abbrev never : Program
never = record {
  reader = record { workload_index = 2; workload_max = 2; thresh_perc = 20 };
  nr_threads_completed = 1;
  done = false;
  threads = gone ∷ finished ∷ [];
  taken = 0 ∷ 1 ∷ [];
}

run-first : run first (initial 2 2) ≡ some lost
unfolding run initial
run-first = refl

run-later : run later lost ≡ some never
unfolding run
run-later = refl

run-gone_example : never.done ≡ false
run-gone_example =
    run-gone 2 2 (omega arith) (omega arith) first later lost never 0 run-first refl run-later
