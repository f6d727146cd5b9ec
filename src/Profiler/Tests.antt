-- ===== src/Profiler/Tests.antt =====
-- The profiler with whole numbers for `double`.
use znworkload.Prelude.{ℕ, ◌+◌, ◌/◌, ◌≡◌, refl, [], ◌∷◌}
use znworkload.Run.{ok, ◌>>=◌}
use znworkload.Profiler.{
  Double, Profiler, profiler_init, reset_metric, update_metric, write_metric, write_all_and_reset,
  avg, over_time, report,
}
use znworkload.Profiler.Report.{write-update-reset, write_all_and_reset-written, written}

abbrev whole : Double ℕ
whole = record { zero_value = 0; of_count = λ n. n; plus = λ a b. a + b; over = λ a b. a / b }

-- Two reads took 10 and 30, and one hit 7.
abbrev some_reads : Profiler ℕ
some_reads = record {
  metrics =
      record { count = 2; value = 40; type = avg }
      ∷ record { count = 1; value = 7; type = over_time }
      ∷ [];
  lines = [];
}

write-update-reset_example :
    (write_metric whole 10 some_reads 0 >>= λ a.
    update_metric whole a 0 20 >>= λ b. reset_metric whole b 0)
    ≡ (write_metric whole 10 some_reads 0 >>= λ a. reset_metric whole a 0)
write-update-reset_example = write-update-reset whole 10 some_reads 0 20

first_report :
    write_all_and_reset whole 10 (profiler_init whole) ≡ ok (written whole 10 (profiler_init whole))
unfolding profiler_init
first_report = write_all_and_reset-written whole 10 (profiler_init whole) refl

average : report whole 10 (record { count = 2; value = 40; type = avg }) ≡ 20
unfolding report
average = refl
