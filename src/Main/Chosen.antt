-- ===== src/Main/Chosen.antt =====
-- The queries that the options of `main` choose.
use znworkload.Prelude.{
  ℕ, ◌*◌, ◌<◌, ◌≤◌, ◌≡◌, ◌≢◌, ◌^◌, sym, Option, some, none, arith, ◌==◌, u64, Bool-cases,
  Option-cases, inl, inr,
}
use znworkload.Run.{ok, ◌>>=◌, assert, bind-ok}
use znworkload.WorkloadFile.{Bytes, read_workload}
use znworkload.Main.{
  Options, goes_on, Files, Queries, simple_queries, entry_of, load_workload, loaded,
  choose_workload,
}

-- The buffer has room for the queries, unless their size in bytes wraps.
pub record Fitting (q : Queries) : Type 0 where
  pub fits : q.number * 4 < 2 ^ 64 → q.room ≡ q.number
  pub wraps : 2 ^ 64 ≤ q.number * 4 → q.number < 2 ^ 64 → q.room < q.number

-- The file was read whole, with as many bytes as the queries take.
abbrev pub ReadWhole :
    {FilePath World : Type 0} → Files FilePath World → FilePath → Queries → Type 0
ReadWhole {FilePath} {World} files f q =
    (w w' : World) × (buffer : Bytes) × (files.open_file f ≡ some w)
    × (read_workload files.read files.fuel w files.garbage (u64 (q.number * 4))
        ≡ ok (w', buffer, 0))
    × (q.entry ≡ entry_of buffer)

-- The queries are those that the options ask for.
pub record Chosen {FilePath World : Type 0} (files : Files FilePath World) (o : Options FilePath)
    (q : Queries) : Type 0 where
  pub simple : o.workload_file ≡ none → q ≡ simple_queries
  pub from_file :
      (f : FilePath)
      → o.workload_file ≡ some f
      → (o.workload_max ≢ 18446744073709551615) × (q.number ≡ o.workload_max) × ReadWhole files f q

module _ {FilePath World : Type 0} (files : Files FilePath World) where
  loaded-ReadWhole :
      (n : ℕ) (f : FilePath) (w : World) (q : Queries) (w' : World) (buffer : Bytes) (ret : ℕ)
      → files.open_file f ≡ some w
      → read_workload files.read files.fuel w files.garbage (u64 (n * 4)) ≡ ok (w', buffer, ret)
      → ok (loaded files n (w', buffer, ret)) ≡ ok (goes_on q)
      → (q.number ≡ n) × ReadWhole files f q
  loaded-ReadWhole n f w q w' buffer ret opens ran e = elim (Bool-cases (ret == 0)) [
    | inl good ↦
        let same : n ≡ q.number = ground (arith, e, good) in
        let loads : entry_of buffer ≡ q.entry = ground (arith, e, good) in
        let zero_ret : ret ≡ 0 = ground (arith, good) in
        let whole : read_workload files.read files.fuel w files.garbage (u64 (q.number * 4))
            ≡ ok (w', buffer, 0) =
          rw (sym same, sym zero_ret) ran in
        (sym same, (w, w', buffer, opens, whole, sym loads))
    | inr bad ↦ absurd (ground (arith, e, bad))
  ]

  load_workload-ReadWhole :
      (n : ℕ) (f : FilePath) (q : Queries)
      → load_workload files n (files.open_file f) ≡ ok (goes_on q)
      → (q.number ≡ n) × ReadWhole files f q
  unfolding load_workload
  load_workload-ReadWhole n f q e = elim (Option-cases (files.open_file f)) [
    | inl closed ↦ absurd (ground (arith, e, closed))
    | inr (w, opens) ↦
        let e0 : load_workload files n (some w) ≡ ok (goes_on q) = rw opens at e in
        let (x, passed, e1) =
          bind-ok
            (λ _. read_workload files.read files.fuel w files.garbage (u64 (n * 4)) >>= λ r.
              ok (loaded files n r))
            (assert (files.allocated (u64 (n * 4)))) (goes_on q) e0 in
        let (r, ran, e2) =
          bind-ok (λ (r : World × Bytes × ℕ). ok (loaded files n r))
            (read_workload files.read files.fuel w files.garbage (u64 (n * 4))) (goes_on q) e1 in
        loaded-ReadWhole n f w q r.0 r.1 r.2 opens ran e2
  ]

  pub choose_workload-Chosen :
      (o : Options FilePath) (q : Queries)
      → choose_workload files o ≡ ok (goes_on q)
      → Chosen files o q
  unfolding choose_workload
  choose_workload-Chosen o q e = record {
    simple = λ simple. ground (arith, e, simple);
    from_file = λ f given. elim (Bool-cases (o.workload_max == 18446744073709551615)) [
      | inl unset ↦ absurd (ground (arith, e, given, unset))
      | inr set ↦
          let (number, whole) =
            load_workload-ReadWhole o.workload_max f q (ground (arith, e, given, set)) in
          ((λ m. ground (arith, m, set)), number, whole)
    ];
  }

  load_workload-Fitting :
      (n : ℕ) (w : Option World) (q : Queries)
      → load_workload files n w ≡ ok (goes_on q)
      → Fitting q
  unfolding load_workload
  load_workload-Fitting n none q e = absurd (ground arith)
  load_workload-Fitting n (some w) q e =
      let (x, passed, e1) =
        bind-ok
          (λ _. read_workload files.read files.fuel w files.garbage (u64 (n * 4)) >>= λ r.
            ok (loaded files n r))
          (assert (files.allocated (u64 (n * 4)))) (goes_on q) e in
      let (r, ran, e2) =
        bind-ok (λ (r : World × Bytes × ℕ). ok (loaded files n r))
          (read_workload files.read files.fuel w files.garbage (u64 (n * 4))) (goes_on q) e1 in
      elim (Bool-cases (r.2 == 0)) [
        | inl good ↦ record {
          fits = λ h. ground (arith, e2, good, h);
          wraps = λ h small. ground (arith, e2, good, h, small);
        }
        | inr bad ↦ absurd (ground (arith, e2, bad))
      ]

  pub choose_workload-Fitting :
      (o : Options FilePath) (q : Queries) → choose_workload files o ≡ ok (goes_on q) → Fitting q
  unfolding choose_workload
  choose_workload-Fitting o q e = elim (Option-cases o.workload_file) [
    | inl simple ↦ record {
      fits = λ h. ground (arith, e, simple);
      wraps = λ h small. ground (arith, e, simple, h);
    }
    | inr (f, from_file) ↦ elim (Bool-cases (o.workload_max == 18446744073709551615)) [
      | inl unset ↦ absurd (ground (arith, e, from_file, unset))
      | inr given ↦
          load_workload-Fitting o.workload_max (files.open_file f) q
            (ground (arith, e, from_file, given))
    ]
  ]
