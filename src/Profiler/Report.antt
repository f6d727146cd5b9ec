-- ===== src/Profiler/Report.antt =====
-- What the profiler writes out.
use znworkload.Prelude.{
  ℕ, ◌+◌, ◌≡◌, refl, ap, sym, some, List, [], ◌∷◌, ◌++◌, arith, u32, length, get_elem?, set,
  get_elem?-set, get_elem?-lt, length-append, set-set, Option-cases, inl, inr,
}
use mathlib.Core.List.{append-nil, append_assoc}
use znworkload.Run.{ok, ◌>>=◌}
use znworkload.Profiler.{
  Double, Metric, Profiler, put_metric, reset_metric, update_metric, report, write_metric,
  write_all, write_all_and_reset,
}

module _ {D : Type 0} (double : Double D) (interval : ℕ) where
  abbrev pub zeroed : Metric D → Metric D
  zeroed m = record m { value = double.zero_value; count = 0 }

  abbrev noted : Profiler D → ℕ → Metric D → Profiler D
  noted zp i m = record zp { lines = zp.lines ++ (i, report double interval m) ∷ [] }

  module _ (zp : Profiler D) (i : ℕ) (m : Metric D) (found : get_elem? zp.metrics i ≡ some m) where
    write_metric-found : write_metric double interval zp i ≡ ok (noted zp i m)
    unfolding write_metric
    write_metric-found = rw found refl

    reset_metric-found : reset_metric double zp i ≡ ok (put_metric double zp i (zeroed m))
    unfolding reset_metric
    reset_metric-found = rw found refl

    update_metric-found :
        (v : D)
        → update_metric double zp i v
          ≡ ok (
              put_metric double zp i
                (record m { value = double.plus m.value v; count = u32 (m.count + 1) }))
    unfolding update_metric
    update_metric-found v = rw found refl

  -- If a thread updates a metric between the two halves of a round of
  -- zn_profiler_write_all_and_reset, then the file and the metrics are as if it had not: the
  -- update is in no line.
  pub write-update-reset :
      (zp : Profiler D) (i : ℕ) (v : D)
      → (write_metric double interval zp i >>= λ a.
          update_metric double a i v >>= λ b. reset_metric double b i)
        ≡ (write_metric double interval zp i >>= λ a. reset_metric double a i)
  unfolding write_metric
  write-update-reset zp i v = elim (Option-cases (get_elem? zp.metrics i)) [
    | inl missing ↦ rw missing refl
    | inr (m, found) ↦
        let m' : Metric D = record m { value = double.plus m.value v; count = u32 (m.count + 1) } in
        let there : get_elem? (set zp.metrics i m') i ≡ some m' =
          ground (arith, get_elem?-set zp.metrics i i m' (get_elem?-lt zp.metrics i found)) in
        let a = noted zp i m in
        rw
          (
            found,
            update_metric-found a i m found v,
            reset_metric-found (put_metric double a i m') i m' there,
            reset_metric-found a i m found,
          )
          (ap (λ ms. ok (record { metrics = ms; lines = a.lines }))
            (set-set zp.metrics i m' (zeroed m)))
  ]

  -- The lines of metrics, the first of which has the number `i`.
  abbrev pub reports : ℕ → List (Metric D) → List (ℕ × D)
  reports i [] = []
  reports i (m ∷ ms) = (i, report double interval m) ∷ reports (i + 1) ms

  abbrev pub zeroed_all : List (Metric D) → List (Metric D)
  zeroed_all [] = []
  zeroed_all (m ∷ ms) = zeroed m ∷ zeroed_all ms

  abbrev pub written : Profiler D → Profiler D
  written zp = record { metrics = zeroed_all zp.metrics; lines = zp.lines ++ reports 0 zp.metrics }

  get_elem?-append :
      (ms ns : List (Metric D)) (m : Metric D) → get_elem? (ms ++ m ∷ ns) (length ms) ≡ some m
  get_elem?-append [] ns m = refl
  get_elem?-append (x ∷ ms) ns m = get_elem?-append ms ns m

  set-append :
      (ms ns : List (Metric D)) (m m' : Metric D)
      → set (ms ++ m ∷ ns) (length ms) m' ≡ (ms ++ m' ∷ []) ++ ns
  set-append [] ns m m' = refl
  set-append (x ∷ ms) ns m m' = ap (◌∷◌ x) (set-append ms ns m m')

  write_all-rest :
      (ms ns : List (Metric D)) (lines : List (ℕ × D)) (k : ℕ)
      → k ≡ length ms
      → write_all double interval (length ns) k (record { metrics = ms ++ ns; lines = lines })
        ≡ ok (record { metrics = ms ++ zeroed_all ns; lines = lines ++ reports k ns })
  unfolding write_all
  write_all-rest ms [] lines k e =
      ap (λ l. ok (record { metrics = ms ++ []; lines = l })) (sym (append-nil lines))
  write_all-rest ms (m ∷ ns) lines k e =
      let there : get_elem? (ms ++ m ∷ ns) k ≡ some m = rw e (get_elem?-append ms ns m) in
      let after : set (ms ++ m ∷ ns) k (zeroed m) ≡ (ms ++ zeroed m ∷ []) ++ ns =
        rw e (set-append ms ns m (zeroed m)) in
      let zp : Profiler D = record { metrics = ms ++ m ∷ ns; lines = lines } in
      let l : k + 1 ≡ length (ms ++ zeroed m ∷ []) =
        omega (arith, e, length-append ms (zeroed m ∷ [])) in
      let rest = write_all-rest (ms ++ zeroed m ∷ []) ns (noted zp k m).lines (k + 1) l in
      rw
        (
          write_metric-found zp k m there,
          reset_metric-found (noted zp k m) k m there,
          after,
          rest,
          append_assoc ms (zeroed m ∷ []) (zeroed_all ns),
          append_assoc lines ((k, report double interval m) ∷ []) (reports (k + 1) ns),
        )
        refl

  -- A round over the eleven metrics writes a line for each, in order, and resets them all.
  pub write_all_and_reset-written :
      (zp : Profiler D)
      → length zp.metrics ≡ 11
      → write_all_and_reset double interval zp ≡ ok (written zp)
  unfolding write_all_and_reset
  write_all_and_reset-written zp e =
      let w = write_all-rest [] zp.metrics zp.lines 0 refl in rw e at w
