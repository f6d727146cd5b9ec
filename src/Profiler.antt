-- ===== src/Profiler.antt =====
-- include/znprofiler.h and src/znprofiler.c: metrics that the threads update and a timer writes out.
-- `double` is a type with operations that are arguments. Each critical section under `lock` is one
-- step, and so is a line of output. The file's buffer and the time stamps are not modelled.
pub mod Report
mod Tests
use znworkload.Prelude.{
  ℕ, zero, suc, ◌+◌, Option, some, none, List, [], ◌∷◌, ◌++◌, ◌==◌, if◌then◌else◌, u32, get_elem?,
  set,
}
use znworkload.Run.{Run, ok, ◌>>=◌, deref}

-- What the code uses of `double`.
pub record Double (D : Type 0) : Type 0 where
  pub zero_value : D
  pub of_count : ℕ → D
  pub plus : D → D → D
  pub over : D → ℕ → D

-- enum zn_profiler_type
pub data MetricType : Type 0 where
  avg set_value over_time : MetricType

-- struct zn_profiler_metrics
pub record Metric (D : Type 0) : Type 0 where
  pub count : ℕ
  pub value : D
  pub type : MetricType

-- struct zn_profiler, with the lines of its file: a metric and its value. `realtime`, which no
-- function sets, is left out.
pub record Profiler (D : Type 0) : Type 0 where
  pub metrics : List (Metric D)
  pub lines : List (ℕ × D)

-- zn_profiler_metric_types
abbrev pub metric_types : List MetricType
metric_types =
    avg ∷ set_value ∷ set_value ∷ avg ∷ avg ∷ set_value ∷ avg ∷ avg ∷ over_time ∷ over_time
    ∷ over_time ∷ []

module _ {D : Type 0} (double : Double D) where
  abbrev pub metric_at : Profiler D → ℕ → Run (Metric D)
  metric_at zp i = deref (get_elem? zp.metrics i)

  abbrev pub put_metric : Profiler D → ℕ → Metric D → Profiler D
  put_metric zp i m = record zp { metrics = set zp.metrics i m }

  -- zn_profiler_reset_metric
  unfoldable pub reset_metric : Profiler D → ℕ → Run (Profiler D)
  reset_metric zp i = do
    m ← metric_at zp i
    ok (put_metric zp i (record m { value = double.zero_value; count = 0 }))

  -- zn_profiler_update_metric
  unfoldable pub update_metric : Profiler D → ℕ → D → Run (Profiler D)
  update_metric zp i value = do
    m ← metric_at zp i
    ok (put_metric zp i (record m { value = double.plus m.value value; count = u32 (m.count + 1) }))

  -- zn_profiler_set_metric
  unfoldable pub set_metric : Profiler D → ℕ → D → Run (Profiler D)
  set_metric zp i value = do m ← metric_at zp i; ok (put_metric zp i (record m { value = value }))

  -- The value that a metric is written out with; PROFILING_INTERVAL_SEC is an argument.
  unfoldable pub report : ℕ → Metric D → D
  report interval m = elim m.type [
    | avg ↦ if m.count == 0 then double.zero_value else double.over m.value m.count
    | set_value ↦ m.value
    | over_time ↦ double.over m.value interval
  ]

  -- The first half of a round of zn_profiler_write_all_and_reset.
  unfoldable pub write_metric : ℕ → Profiler D → ℕ → Run (Profiler D)
  unfolding report
  write_metric interval zp i = do
    m ← metric_at zp i
    ok (record zp { lines = zp.lines ++ (i, report interval m) ∷ [] })

  -- The loop of zn_profiler_write_all_and_reset, with the rounds left first.
  unfoldable pub write_all : ℕ → ℕ → ℕ → Profiler D → Run (Profiler D)
  unfolding write_metric reset_metric
  write_all interval zero i zp = ok zp
  write_all interval (suc k) i zp = do
    zp ← write_metric interval zp i
    zp ← reset_metric zp i
    write_all interval k (i + 1) zp

  -- zn_profiler_write_all_and_reset
  unfoldable pub write_all_and_reset : ℕ → Profiler D → Run (Profiler D)
  unfolding write_all
  write_all_and_reset interval zp = write_all interval 11 0 zp

  -- The loop of zn_profiler_init: each metric is reset and gets its type.
  unfoldable pub init_metrics : List MetricType → List (Metric D)
  init_metrics [] = []
  init_metrics (t ∷ ts) =
      record { count = 0; value = double.zero_value; type = t } ∷ init_metrics ts

  -- zn_profiler_init, where `malloc` and `fopen` succeed
  unfoldable pub profiler_init : Profiler D
  unfolding init_metrics
  profiler_init = record { metrics = init_metrics metric_types; lines = [] }
