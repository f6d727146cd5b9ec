-- ===== src/Workload/Queries.antt =====
-- What the worker threads have taken, at any time of a run from the start of the program.
use znworkload.Prelude.{
  ℕ, ◌<◌, ◌≤◌, ◌≡◌, ◌^◌, ap, ◌∙◌, Bool, true, ◌&&◌, some, List, [], ◌∷◌, ◌==◌, ltb, arith, count,
}
use znworkload.Workload.{Program, At, start, query, leaving, finished, gone, run, initial}
use znworkload.Workload.Threads.{Inv, initial-Inv, run-Inv, upto, is_finished, works_on, is_through}

-- What holds of the program at any time: the indices below the next one were taken, in order and
-- each once, no two threads work on the same one, and `done` says that every thread is finished.
pub record Shared (max n : ℕ) (p : Program) : Type 0 where
  pub index_le : p.reader.workload_index ≤ max
  pub in_order : p.taken ≡ upto p.reader.workload_index
  pub one_each : (wi : ℕ) → count (works_on wi) p.threads ≤ 1
  pub done_when : p.done ≡ (ltb 0 n && (count is_finished p.threads == n))
  pub read_when : p.done ≡ true → p.taken ≡ upto max

module _ (max n : ℕ) (max_small : max < 2 ^ 64) (few : n < 2 ^ 32) where
  pub reached-Inv :
      (schedule : List (ℕ × Bool)) (p : Program)
      → run schedule (initial max n) ≡ some p
      → Inv max n p
  reached-Inv schedule p e =
      run-Inv max n schedule (initial max n) p (initial-Inv max n max_small few) e

  -- The threads that are finished have read the workload.
  through-finished : (ts : List At) → count is_finished ts ≤ count is_through ts
  through-finished [] = omega arith
  through-finished (start ∷ ts) = omega (arith, through-finished ts)
  through-finished (query i ∷ ts) = omega (arith, through-finished ts)
  through-finished (leaving ∷ ts) = omega (arith, through-finished ts)
  through-finished (finished ∷ ts) = omega (arith, through-finished ts)
  through-finished (gone ∷ ts) = omega (arith, through-finished ts)

  -- For a workload of fewer than 2^64 queries and fewer than 2^32 worker threads, after any
  -- schedule of their critical sections and any results of zn_cache_get: the indices that the
  -- threads have taken are those below the workload's index, in order and each once, no index is
  -- past the workload, no two threads are at work on the same one, and `done` is set if and only
  -- if there is a thread and all have counted themselves as completed, and then every index was
  -- taken.
  pub run-Shared :
      (schedule : List (ℕ × Bool)) (p : Program)
      → run schedule (initial max n) ≡ some p
      → Shared max n p
  run-Shared schedule p e =
      let v = reached-Inv schedule p e in
      record {
        index_le = v.index_le;
        in_order = v.taken_in_order;
        one_each = λ wi. ground (arith, v.one_each wi);
        done_when = v.done_when;
        read_when = λ d.
            let l : 0 < count is_through p.threads =
              ground (arith, d, v.done_when, through-finished p.threads) in
            v.taken_in_order ∙ ap upto (v.through l);
      }
