-- ===== src/Eviction/Tests.antt =====
-- zn_fg_evict on a device of two full zones of one chunk.
use znworkload.Prelude.{ℕ, zero, suc, ◌≡◌, refl, arith, List, [], ◌∷◌, some, none, false, occ, ◌<◌}
use znworkload.Run.{Run, Returns, ok}
use znworkload.Backend.{Pair, zns}
use znworkload.Zsm.{
  Zsm, Zbd, Zone, free, full, init, get_active_zone, open_free, open_zone, take_active,
  return_active_zone, close_zone, evict_zone, reset_zone, get_num_free_zones,
}
use znworkload.Zsm.Invariant
use znworkload.Zsm.Init.{init-Inv}
use znworkload.Zsm.Held.{without}
use znworkload.Zsm.Clients.{Call, take, give_back, run, perform, run-Safe}
use znworkload.Cachemap.{
  Cachemap, loc, cond, update, empty_map, cachemap_find, cachemap_insert, cachemap_clear_zone,
  clear_entries, int_key,
}
use znworkload.Cachemap.View
use znworkload.Cachemap.Write.{empty_map-Inv, cachemap_find-Finds, cachemap_insert-Inserted}
use znworkload.Promotional.{Policy, get_zone_to_evict, set_key}
use znworkload.Promotional.Lru
use znworkload.Eviction.{Cache, fg_evict, evict_loop, evict_round, to_evict}
use znworkload.Eviction.Foreground.{Ready, Candidate, Freeing, fg_evict-Freeing, candidates}

abbrev zbd : Zbd
zbd = record { open_zones = λ _ _ _. 0; finish_zones = λ _ _ _. 0; reset_zones = λ _ _ _. 0 }

abbrev device : List Zone → Zsm
device zones = record {
  active_queue = [];
  free_queue = [];
  zones = zones;
  writes_occurring = 0;
  fd = 3;
  zone_cap = 4096;
  zone_size = 8192;
  chunk_size = 4096;
  max_nr_active_zones = 2;
  max_zone_chunks = 1;
  num_zones = 2;
  backend_type = zns;
}

abbrev full_zone : ℕ → Zone
full_zone i = record { state = full; zone_id = i; chunk_offset = 0; invalid = [] }

abbrev free_zone : ℕ → Zone
free_zone i = record { state = free; zone_id = i; chunk_offset = 0; invalid = [] }

abbrev fresh : Zsm
fresh = record (device (free_zone 0 ∷ free_zone 1 ∷ [])) { free_queue = 0 ∷ 1 ∷ [] }

fresh-Inv : Invariant.Inv fresh []
unfolding init
fresh-Inv =
    (init-Inv 2 3 4096 8192 4096 2 zns (omega arith) (omega arith) (omega arith) (omega arith)
      (omega arith) (omega arith)).0

abbrev used : Zsm
used = device (full_zone 0 ∷ full_zone 1 ∷ [])

abbrev calls : List Call
calls = take zbd ∷ give_back zbd 0 ∷ take zbd ∷ give_back zbd 0 ∷ []

used-Inv : Invariant.Inv used []
unfolding run perform get_active_zone open_free open_zone take_active return_active_zone close_zone
    without
used-Inv = run-Safe (record { zsm = fresh; held = [] }) calls (tt, (tt, (tt, (tt, tt)))) fresh-Inv

-- ID 9 lies in zone 1.
abbrev place : Pair
place = record { zone = 1; chunk_offset = 0; id = 0; in_use = false }

abbrev initial : Cachemap
initial = record {
  zone_map = λ _. none;
  data_map = λ _. [];
  num_zones = 2;
  active_readers = λ _. 0;
  results = λ _. none;
  next = 0;
}

abbrev claimed : Cachemap
claimed = record initial {
  zone_map = update (λ _. none) 9 (some 0);
  results = update (λ _. none) 0 (some cond);
  next = 1;
}

abbrev placed : Cachemap
placed = record claimed {
  results = update claimed.results 0 (some (loc place));
  data_map = update (λ _. []) 1 ((0, 9) ∷ []);
}

initial-Inv : View.Inv initial
unfolding empty_map
initial-Inv = empty_map-Inv 2 (λ _. 0)

claimed-Inv : View.Inv claimed
unfolding cachemap_find
claimed-Inv = (cachemap_find-Finds initial 9 initial-Inv).1

placed-Inv : View.Inv placed
unfolding cachemap_insert
placed-Inv =
    (cachemap_insert-Inserted claimed 9 place claimed-Inv refl (omega arith) (omega arith) refl).inv

-- Zone 1 was filled before zone 0.
abbrev policy : Policy
policy = record {
  lru_queue = record { address = 0; payload = 1 } ∷ record { address = 1; payload = 0 } ∷ [];
  zone_to_lru_map = set_key (set_key (λ _. none) 1 (some 0)) 0 (some 1);
  zone_max_chunks = 1;
  next_link = 2;
}

policy-Inv : Lru.Inv policy
policy-Inv = record {
  linked = (refl, omega arith, (refl, omega arith, tt));
  zones = λ z. ground arith;
  distinct = λ l. ground arith;
}

abbrev cache : Cache
cache = record { cache_map = placed; eviction_policy = policy; zone_state = used }

cache-Ready : Ready [] cache
cache-Ready = record {
  zones_ok = used-Inv;
  map_ok = placed-Inv;
  policy_ok = policy-Inv;
  candidate = λ zone h. candidate zone h;
  small = omega arith;
}
  where
    candidate : (zone : ℕ) → 0 < occ zone (candidates cache) → Candidate cache zone
    candidate zero h = record {
      at = full_zone 0;
      found = refl;
      filled = refl;
      mapped = omega arith;
      unread = refl;
    }
    candidate (suc zero) h = record {
      at = full_zone 1;
      found = refl;
      filled = refl;
      mapped = omega arith;
      unread = refl;
    }
    candidate (suc (suc n)) h = absurd (ground (arith, h))

fg_evict-Freeing_example : Returns (Freeing zbd [] (λ _ _ _. refl) 4 cache) (fg_evict zbd cache)
unfolding get_num_free_zones
fg_evict-Freeing_example = fg_evict-Freeing zbd [] (λ _ _ _. refl) cache cache-Ready

-- Both zones are freed, zone 1 first, and ID 9 is forgotten.
abbrev emptied : Run Cache → List ℕ
emptied (ok c) = c.zone_state.free_queue
emptied _ = []

both_freed : emptied (fg_evict zbd cache) ≡ 1 ∷ 0 ∷ []
unfolding fg_evict evict_loop evict_round get_num_free_zones get_zone_to_evict cachemap_clear_zone
    clear_entries int_key evict_zone reset_zone
both_freed = refl

-- With more than four free zones the bound of the loop wraps around.
wraps : to_evict (record fresh { free_queue = 0 ∷ 1 ∷ 2 ∷ 3 ∷ 4 ∷ [] }) ≡ 4294967295
unfolding get_num_free_zones
wraps = refl
