-- ===== src/Main/Running.antt =====
-- What the workers of `main` start with.
use znworkload.Prelude.{
  ℕ, zero, suc, ◌+◌, ◌/◌, ◌<◌, ◌≡◌, ◌^◌, refl, sym, List, ◌∷◌, length, get_elem?, Bool, not, ◌&&◌,
  ◌||◌, Option, some, arith, ltb, ◌==◌, Bool-cases, Option-cases, ◌⊎◌, inl, inr,
}
use znworkload.Run.{Run, ok, abort, crash, ◌>>=◌, bind-ok}
use znworkload.Backend.{Backend}
use znworkload.Zsm.{init}
use znworkload.Cachemap.{cachemap_init}
use znworkload.EvictPolicy.{PolicyType, evict_policy_init}
use znworkload.Startup.{DeviceInfo, ZnCache, Memory, active_limit, open_profiler, init_cache}
use znworkload.Device.{Opened, opened, failed, generate_random_buffer}
use znworkload.Main.Chosen.{Fitting, Chosen, choose_workload-Chosen, choose_workload-Fitting}
use znworkload.Main.{
  Options, no_options, parse_options, Outcome, exits, goes_on, then_on, Queries, choose_workload,
  open_device, Setting, Session, negative, push_tasks, of_option, opens_file, start_threads,
  start_cache, main,
}

then_on-goes :
    {A B : Type 0} (m : Run (Outcome A)) (f : A → Run (Outcome B)) (b : B)
    → then_on m f ≡ ok (goes_on b)
    → (a : A) × (m ≡ ok (goes_on a)) × (f a ≡ ok (goes_on b))
then_on-goes (ok (goes_on a)) f b e = (a, refl, e)
then_on-goes (ok (exits n)) f b e = absurd (ground arith)
then_on-goes abort f b e = absurd (ground arith)
then_on-goes crash f b e = absurd (ground arith)

Returned-cases : {A : Type 0} (r : Run A) → ((a : A) × (r ≡ ok a)) ⊎ ((r ≡ abort) ⊎ (r ≡ crash))
Returned-cases (ok a) = inl (a, refl)
Returned-cases abort = inr (inl refl)
Returned-cases crash = inr (inr refl)

pub record Running {FilePath World : Type 0} (s : Setting FilePath World) (r : Session)
    : Type 0 where
  pub threads : (r.nr_threads ≡ s.threads) × (0 < r.nr_threads) × (r.nr_threads < 2 ^ 31)
  pub one_each : length r.tasks ≡ s.threads
  pub numbered : (i : ℕ) → i < s.threads → get_elem? r.tasks i ≡ some i
  pub chosen :
      (o : Options FilePath) × (parse_options s.opts no_options ≡ goes_on o)
      × Chosen s.files o r.queries
  pub start : r.cache.reader.workload_index ≡ 0
  pub queries : r.cache.reader.workload_max ≡ r.queries.number
  pub fitting : Fitting r.queries

-- zn_init_cache keeps the number of queries and starts with the first one.
init_cache-reader :
    (memory : Memory) (info : DeviceInfo) (chunk_sz zone_cap fd : ℕ) (policy : PolicyType)
    (backend : Backend) (number : ℕ) (file : Option Bool) (c : ZnCache)
    → init_cache memory info chunk_sz zone_cap fd policy backend number file ≡ ok c
    → (c.reader.workload_index ≡ 0) × (c.reader.workload_max ≡ number)
unfolding init_cache cachemap_init
init_cache-reader memory info chunk_sz zone_cap fd policy backend number file c e =
    elim (Bool-cases (chunk_sz == 0)) [
      | inl empty ↦ absurd (ground (arith, e, empty))
      | inr some_bytes ↦ elim (Bool-cases (ltb info.nr_zones 2147483648)) [
        | inr many ↦ absurd (ground (arith, e, some_bytes, many))
        | inl few ↦
            elim (Returned-cases (
              evict_policy_init memory.pool memory.chunks info.nr_zones (zone_cap / chunk_sz)
                policy)) [
                  | inr bad ↦ absurd (ground (arith, e, some_bytes, few, bad))
                  | inl (p, made) ↦
                      elim (Returned-cases (
                        init info.nr_zones fd zone_cap info.zone_size chunk_sz (active_limit info)
                          backend)) [
                            | inr bad ↦ absurd (ground (arith, e, some_bytes, few, made, bad))
                            | inl (zs, zones) ↦ elim (Returned-cases (open_profiler file)) [
                              | inr bad ↦
                                  absurd (ground (arith, e, some_bytes, few, made, zones, bad))
                              | inl (b, profiled) ↦
                                  ground (arith, e, some_bytes, few, made, zones, profiled)
                            ]
                          ]
                ]
      ]
    ]

-- The loop that pushes the tasks gives each round's task its number.
push_tasks-numbered :
    (pushed : ℕ → Bool) (k i : ℕ) (tasks : List ℕ)
    → push_tasks pushed k i ≡ some tasks
    → (length tasks ≡ k) × ((j : ℕ) → j < k → get_elem? tasks j ≡ some (i + j))
unfolding push_tasks
push_tasks-numbered pushed zero i tasks e = (ground (arith, e), λ j h. absurd (omega (arith, h)))
push_tasks-numbered pushed (suc k) i tasks e = elim (Bool-cases (pushed i)) [
  | inr refused ↦ absurd (ground (arith, e, refused))
  | inl taken ↦ elim (Option-cases (push_tasks pushed k (i + 1))) [
    | inl stopped ↦ absurd (ground (arith, e, taken, stopped))
    | inr (rest, later) ↦
        let (n, at) = push_tasks-numbered pushed k (i + 1) rest later in
        let whole : (i ∷ rest) ≡ tasks = ground (arith, e, taken, later) in
        rw (sym whole) (omega (arith, n), λ (j : ℕ) h. number_of k i rest at j h)
  ]
]
  where
    number_of :
        (k i : ℕ) (rest : List ℕ)
        → ((j : ℕ) → j < k → get_elem? rest j ≡ some (i + 1 + j))
        → (j : ℕ) → j < suc k
        → get_elem? (i ∷ rest) j ≡ some (i + j)
    number_of k i rest at zero h = ground arith
    number_of k i rest at (suc j) h = let a = at j (omega (arith, h)) in ground (arith, a)

module _ {FilePath World : Type 0} (capacity max_used : ℕ) (policy : PolicyType)
    (s : Setting FilePath World) where
  start_threads-started :
      (c : ZnCache) (q : Queries) (r : Session)
      → start_threads capacity max_used policy s c q ≡ ok (goes_on r)
      → (r.nr_threads ≡ s.threads)
        × (0 < s.threads)
        × (s.threads < 2 ^ 31)
        × (r.cache ≡ c)
        × (r.queries ≡ q)
        × (push_tasks s.pushed s.threads 0 ≡ some r.tasks)
  unfolding start_threads
  start_threads-started c q r e = elim (Bool-cases s.pool_made) [
    | inr no_pool ↦ absurd (ground (arith, e, no_pool))
    | inl pool ↦ elim (Bool-cases (negative s.threads)) [
      | inl below ↦ absurd (ground (arith, e, pool, below))
      | inr proper ↦ elim (Option-cases (push_tasks s.pushed s.threads 0)) [
        | inl not_pushed ↦ absurd (ground (arith, e, pool, proper, not_pushed))
        | inr (tasks, all) ↦ elim (Bool-cases (s.threads == 0)) [
          | inl none_at_all ↦ absurd (ground (arith, e, pool, proper, all, none_at_all))
          | inr some_threads ↦ ground (arith, e, pool, proper, all, some_threads)
        ]
      ]
    ]
  ]

  start_cache-Running :
      (o : Options FilePath) (q : Queries) (d : Opened) (r : Session)
      → Fitting q
      → (o : Options FilePath) × (parse_options s.opts no_options ≡ goes_on o) × Chosen s.files o q
      → start_cache capacity max_used policy s o q d ≡ ok (goes_on r)
      → Running s r
  unfolding start_cache
  start_cache-Running o q (failed ret) r fit choice e = absurd (ground arith)
  start_cache-Running o q (opened info zone_capacity) r fit choice e =
      let start = λ (random : ℕ → ℕ).
        init_cache s.memory info s.chunk_sz zone_capacity s.drive.descriptor policy s.backend
          q.number (opens_file capacity max_used policy s o.metrics_file)
        >>= λ c. start_threads capacity max_used policy s c q in
      let (random, given, e1) =
        then_on-goes (ok (of_option (generate_random_buffer s.rand s.some_memory s.chunk_sz))) start
          r e in
      let (c, made, e2) =
        bind-ok (λ (c : ZnCache). start_threads capacity max_used policy s c q)
          (init_cache s.memory info s.chunk_sz zone_capacity s.drive.descriptor policy s.backend
            q.number (opens_file capacity max_used policy s o.metrics_file))
          (goes_on r) e1 in
      let (index, number) =
        init_cache-reader s.memory info s.chunk_sz zone_capacity s.drive.descriptor policy s.backend
          q.number (opens_file capacity max_used policy s o.metrics_file) c made in
      let (threads, some_threads, few, same, queries, tasks) = start_threads-started c q r e2 in
      let (one_each, numbered) = push_tasks-numbered s.pushed s.threads 0 r.tasks tasks in
      record {
        threads = (threads, omega (arith, threads, some_threads), omega (arith, threads, few));
        one_each = one_each;
        numbered = λ i h. let at = numbered i h in ground (arith, at);
        chosen = rw queries choice;
        start = ground (arith, same, index);
        queries = ground (arith, same, queries, number);
        fitting = rw queries fit;
      }

  -- If `main` comes to wait for the workers, then the tasks that it has pushed are one for each
  -- thread that was asked for, with the numbers 0, 1, 2 and so on in their order; there is at
  -- least one thread, and fewer than 2^31. The options have been parsed to their end: without a
  -- workload file the queries are the simple workload, and with one their number was given, is not
  -- 2^64 - 1, and the file was opened and read with return 0 into the buffer of the queries. The
  -- cache starts with the first query and has as many as were chosen; and the buffer of the
  -- queries has room for exactly that many if their size in bytes is below 2^64, but for fewer if
  -- it is not.
  pub main-Running : (r : Session) → main capacity max_used policy s ≡ ok (goes_on r) → Running s r
  unfolding main
  main-Running r e = elim (Bool-cases (s.euid == 0 && not (ltb s.argc 4 || ltb 11 s.argc))) [
    | inr refused ↦ absurd (ground (arith, e, refused))
    | inl allowed ↦
        let rest = λ (o : Options FilePath). then_on (choose_workload s.files o) λ q.
          open_device capacity max_used s.backend s.drive >>= λ d.
          start_cache capacity max_used policy s o q d in
        let (o, parsed, e1) =
          then_on-goes (ok (parse_options s.opts no_options)) rest r (rw allowed at e) in
        let parsed_as : parse_options s.opts no_options ≡ goes_on o = ground (arith, parsed) in
        let (q, chosen, e2) =
          then_on-goes (choose_workload s.files o)
            (λ q. open_device capacity max_used s.backend s.drive >>= λ d.
              start_cache capacity max_used policy s o q d)
            r e1 in
        let (d, found, e3) =
          bind-ok (λ (d : Opened). start_cache capacity max_used policy s o q d)
            (open_device capacity max_used s.backend s.drive) (goes_on r) e2 in
        start_cache-Running o q d r (choose_workload-Fitting s.files o q chosen)
          (o, parsed_as, choose_workload-Chosen s.files o q chosen) e3
  ]
