-- ===== src/Concurrent/Tests.antt =====
-- Two threads on a device of two zones of one chunk.
use znworkload.Prelude.{
  ℕ, ◌≡◌, refl, Bool, true, false, none, some, List, [], ◌∷◌, ap, arith, get_elem?,
}
use znworkload.Run.{Run, ok, Returns}
use znworkload.Backend.{Pair, zns}
use znworkload.Zsm.{
  Zsm, Zbd, Zone, free, init, get_active_zone, open_free, open_zone, take_active,
  return_active_zone, close_zone, evict_zone, reset_zone, get_num_free_zones,
}
use znworkload.Cachemap.{
  empty_map, cachemap_init, cachemap_find, cachemap_insert, read_result, cachemap_clear_zone,
  clear_entries, int_key,
}
use znworkload.Promotional.{
  Policy, promotional_init, promotional_update, promote, link_data, delete_link, get_zone_to_evict,
}
use znworkload.Concurrent.{
  System, Pc, idle, done, Event, get, fg_evict, go_on, run, step, thread_step, reader_step,
  writer_step, evictor_step,
}
use znworkload.Concurrent.Invariant.{Inv}
use znworkload.Concurrent.Give.{Obeys}
use znworkload.Concurrent.Intact.{AllWhole}
use znworkload.Concurrent.Safe.{undisturbed, Protected, AllAllowed}
use znworkload.Concurrent.Progress.{in_call}
use znworkload.Concurrent.Live.{GoesOn}
use znworkload.Concurrent.Session.{session, session-Inv, session-Protected, session-GoesOn}
use znworkload.EvictPolicy.{promotional, promote_zone, evict_policy_init}
use znworkload.Startup.{DeviceInfo, ZnCache, Memory, init_cache}
use znworkload.Startup.Parts.{Fits}

abbrev pub zbd : Zbd
zbd = record { open_zones = λ _ _ _. 0; finish_zones = λ _ _ _. 0; reset_zones = λ _ _ _. 0 }

abbrev pub place : Pair
place = record { zone = 0; chunk_offset = 0; id = 0; in_use = false }

pub zbd-Obeys : Obeys zbd
zbd-Obeys = record { finishes = λ _ _ _. refl; does_reset = λ _ _ _. refl }

abbrev free_zone : ℕ → Zone
free_zone i = record { state = free; zone_id = i; chunk_offset = 0; invalid = [] }

abbrev fresh : Zsm
fresh = record {
  active_queue = [];
  free_queue = 0 ∷ 1 ∷ [];
  zones = free_zone 0 ∷ free_zone 1 ∷ [];
  writes_occurring = 0;
  fd = 3;
  zone_cap = 4096;
  zone_size = 8192;
  chunk_size = 4096;
  max_nr_active_zones = 2;
  max_zone_chunks = 1;
  num_zones = 2;
  backend_type = zns;
}

abbrev device : DeviceInfo
device = record { nr_zones = 2; max_nr_active_zones = 2; zone_size = 8192 }

device-Fits : Fits device 4096 4096
device-Fits = record {
  some_zone = omega arith;
  few_zones = omega arith;
  few_active = omega arith;
  some_bytes = omega arith;
  chunk_fits = omega arith;
  few_chunks = omega arith;
}

abbrev memory : Memory
memory = record {
  readers = λ _. 0;
  pool = λ z. record {
    zone_id = 7;
    chunks = [];
    chunks_in_use = 7;
    filled = true;
    pqueue_entry = none;
  };
  chunks = λ z c. place;
}

abbrev policy : Policy
policy = promotional_init 1

abbrev cache : ZnCache
cache = record {
  backend = zns;
  fd = 3;
  max_nr_active_zones = 2;
  nr_zones = 2;
  max_zone_chunks = 1;
  chunk_sz = 4096;
  zone_cap = 4096;
  zone_size = 8192;
  cache_map = empty_map 2 (λ _. 0);
  eviction_policy = promotional policy;
  zone_state = fresh;
  reader = record { workload_index = 0; workload_max = 100; thresh_perc = 10 };
  ratio = record { hits = 0; misses = 0 };
  profiling = false;
}

cache_made : init_cache memory device 4096 4096 3 promote_zone zns 100 none ≡ ok cache
unfolding init_cache cachemap_init evict_policy_init init
cache_made = refl

abbrev pub start : System
start = session cache policy 2

pub start-Inv : Inv start
start-Inv =
    session-Inv memory device 4096 4096 3 100 zns none device-Fits (λ z. refl) cache policy
      cache_made refl 2 (omega arith)

abbrev pub on : ℕ → Event
on i = go_on i (record { success = true; whole = true }) zbd

-- Thread 0 fetches ID 5, thread 1 reads it, and thread 0 evicts the zone.
abbrev calls : List Event
calls =
    get 0 5
    ∷ get 1 5
    ∷ on 0
    ∷ on 0
    ∷ on 1
    ∷ on 0
    ∷ on 0
    ∷ on 0
    ∷ on 0
    ∷ on 1
    ∷ on 1
    ∷ on 1
    ∷ fg_evict 0
    ∷ on 0
    ∷ on 0
    ∷ on 0
    ∷ on 0
    ∷ on 1
    ∷ on 1
    ∷ on 0
    ∷ on 0
    ∷ on 0
    ∷ []

abbrev pub threads_after : Run System → List Pc
threads_after (ok s) = s.threads
threads_after _ = []

calls_end :
    ◌≡◌ {A = Bool × List Pc}
      (undisturbed start calls, threads_after (run start calls))
      (true, idle ∷ done 5 (some (some 5)) ∷ [])
unfolding undisturbed run step thread_step reader_step writer_step evictor_step get_active_zone
    open_free open_zone take_active return_active_zone close_zone evict_zone reset_zone
    get_num_free_zones empty_map cachemap_find cachemap_insert read_result cachemap_clear_zone
    clear_entries int_key promotional_init promotional_update promote link_data delete_link
    get_zone_to_evict
calls_end = refl

calls_calm : undisturbed start calls ≡ true
calls_calm = ap (λ (x : Bool × List Pc). x.0) calls_end

calls_allowed : AllAllowed calls
calls_allowed =
    let o = zbd-Obeys in
    (
      omega arith,
      (
        omega arith,
        (
          o,
          (
            o,
            (
              o,
              (
                o,
                (o, (o, (o, (o, (o, (o, (tt, (o, (o, (o, (o, (o, (o, (o, (o, (o, tt)))))))))))))))),
              ),
            ),
          ),
        ),
      ),
    )

calls_whole : AllWhole calls
calls_whole = (
  tt,
  (
    tt,
    (
      refl,
      (
        refl,
        (
          refl,
          (
            refl,
            (
              refl,
              (
                refl,
                (
                  refl,
                  (
                    refl,
                    (
                      refl,
                      (
                        refl,
                        (
                          tt,
                          (
                            refl,
                            (refl, (refl, (refl, (refl, (refl, (refl, (refl, (refl, tt)))))))),
                          ),
                        ),
                      ),
                    ),
                  ),
                ),
              ),
            ),
          ),
        ),
      ),
    ),
  ),
)

session-Protected_example : Returns Protected (run start calls)
session-Protected_example =
    session-Protected memory device 4096 4096 3 100 zns none device-Fits (λ z. refl) cache policy
      cache_made refl 2 (omega arith) calls calls_allowed calls_calm (omega arith) (omega arith)
      (omega arith) calls_whole

-- Thread 1 waits for thread 0.
abbrev wait_calls : List Event
wait_calls = get 0 5 ∷ get 1 5 ∷ on 0 ∷ on 1 ∷ []

wait_calm : undisturbed start wait_calls ≡ true
unfolding undisturbed step thread_step reader_step writer_step evictor_step empty_map cachemap_find
wait_calm = refl

wait_allowed : AllAllowed wait_calls
wait_allowed = (omega arith, (omega arith, (zbd-Obeys, (zbd-Obeys, tt))))

session-GoesOn_example :
    Returns
      (λ t. (i : ℕ) (u : Pc) → get_elem? t.threads i ≡ some u → in_call u ≡ true → GoesOn zbd t)
      (run start wait_calls)
session-GoesOn_example =
    session-GoesOn memory device 4096 4096 3 100 zns none device-Fits (λ z. refl) cache policy
      cache_made refl 2 (omega arith) wait_calls wait_allowed wait_calm zbd zbd-Obeys
