-- ===== src/Zsm/Tests.antt =====
-- Runs of the zone state manager on a device of three zones of two chunks, and its theorems there.
use znworkload.Prelude.{ℕ, ◌≡◌, ◌≢◌, refl, false, List, [], ◌∷◌, some, arith, get_elem?, length}
use znworkload.Run.{ok, abort, Returns}
use znworkload.Backend.{Pair, zns}
use znworkload.Zsm.{
  Zsm, Zbd, Zone, Condition, free, full, active, write_occuring, init, get_active_zone, open_free,
  open_zone, take_active, return_active_zone, close_zone, failed_to_write, evict_zone,
  mark_chunk_invalid, get_num_full_zones, error,
}
use znworkload.Zsm.Invariant.{Inv}
use znworkload.Zsm.Held.{without}
use znworkload.Zsm.Init.{init-Inv}
use znworkload.Zsm.Get.{Got, get_active_zone-Got}
use znworkload.Zsm.Return.{Returned, return_active_zone-Returned, Undone, failed_to_write-Undone}
use znworkload.Zsm.Evict.{
  Evicted, evict_zone-Evicted, evict_zone-abort, Marked, mark_chunk_invalid-Marked,
}
use znworkload.Zsm.Clients.{
  Clients, Call, take, give_back, Safe, run, perform, run-Safe, run_held_apart,
}

-- A device that does what it is asked, and one that answers 1 to everything.
abbrev good : Zbd
good = record { open_zones = λ _ _ _. 0; finish_zones = λ _ _ _. 0; reset_zones = λ _ _ _. 0 }

abbrev bad : Zbd
bad = record { open_zones = λ _ _ _. 1; finish_zones = λ _ _ _. 1; reset_zones = λ _ _ _. 1 }

abbrev zone : Condition → ℕ → ℕ → Zone
zone c i offset = record { state = c; zone_id = i; chunk_offset = offset; invalid = [] }

abbrev fresh : Zsm
fresh = record {
  active_queue = [];
  free_queue = 0 ∷ 1 ∷ 2 ∷ [];
  zones = zone free 0 0 ∷ zone free 1 0 ∷ zone free 2 0 ∷ [];
  writes_occurring = 0;
  fd = 3;
  zone_cap = 8192;
  zone_size = 16384;
  chunk_size = 4096;
  max_nr_active_zones = 2;
  max_zone_chunks = 2;
  num_zones = 3;
  backend_type = zns;
}

init_fresh : init 3 3 8192 16384 4096 2 zns ≡ ok fresh
unfolding init
init_fresh = refl

three_free : Returns (λ s. Inv s [] × (length s.free_queue ≡ 3)) (init 3 3 8192 16384 4096 2 zns)
three_free =
    init-Inv 3 3 8192 16384 4096 2 zns (omega arith) (omega arith) (omega arith) (omega arith)
      (omega arith) (omega arith)

fresh-Inv : Inv fresh []
unfolding init
fresh-Inv = three_free.0

abbrev start : Clients
start = record { zsm = fresh; held = [] }

abbrev pair : ℕ → ℕ → Pair
pair z c = record { zone = z; chunk_offset = c; id = 0; in_use = false }

-- Two threads take a location each, and the first is given back.
abbrev busy : Zsm
busy = record fresh {
  active_queue = 0 ∷ [];
  free_queue = 2 ∷ [];
  zones = zone active 0 1 ∷ zone write_occuring 1 0 ∷ zone free 2 0 ∷ [];
  writes_occurring = 1;
}

abbrev calls : List Call
calls = take good ∷ take good ∷ give_back good 1 ∷ []

run-busy : run start calls ≡ ok (record { zsm = busy; held = pair 1 0 ∷ [] })
unfolding run perform get_active_zone open_free open_zone take_active return_active_zone without
run-busy = refl

run-Safe_example : Returns Safe (run start calls)
run-Safe_example = run-Safe start calls (tt, (tt, (tt, tt))) fresh-Inv

busy-Inv : Inv busy (pair 1 0 ∷ [])
unfolding run perform get_active_zone open_free open_zone take_active return_active_zone without
busy-Inv = run-Safe_example

get_active_zone-Got_example : Returns (Got good busy (pair 1 0 ∷ [])) (get_active_zone good busy)
get_active_zone-Got_example = get_active_zone-Got good busy (pair 1 0 ∷ []) busy-Inv

return_active_zone-Returned_example :
    (z : Zone) × (get_elem? busy.zones 1 ≡ some z)
    × (z.state ≡ write_occuring)
    × Returns
        (Returned good busy (pair 1 0 ∷ []) 0 (pair 1 0) z)
        (return_active_zone good busy (pair 1 0))
return_active_zone-Returned_example =
    return_active_zone-Returned good busy (pair 1 0 ∷ []) 0 (pair 1 0) busy-Inv refl

one-Undone :
    (z : Zone) × (get_elem? busy.zones 1 ≡ some z)
    × Returns (Undone busy (pair 1 0 ∷ []) 0 (pair 1 0) z) (failed_to_write busy (pair 1 0))
one-Undone = failed_to_write-Undone busy (pair 1 0 ∷ []) 0 (pair 1 0) busy-Inv refl

-- The other chunk of zone 0 is written too, which closes the zone; then zone 0 is taken no more.
abbrev filled : Zsm
filled = record fresh {
  free_queue = 2 ∷ [];
  zones = zone full 0 0 ∷ zone write_occuring 1 0 ∷ zone free 2 0 ∷ [];
  writes_occurring = 1;
}

abbrev more_calls : List Call
more_calls = take good ∷ give_back good 0 ∷ []

run-filled :
    run (record { zsm = busy; held = pair 1 0 ∷ [] }) more_calls
    ≡ ok (record { zsm = filled; held = pair 1 0 ∷ [] })
unfolding run perform get_active_zone take_active return_active_zone close_zone without
run-filled = refl

filled-Inv : Inv filled (pair 1 0 ∷ [])
unfolding run perform get_active_zone take_active return_active_zone close_zone without
filled-Inv =
    run-Safe (record { zsm = busy; held = pair 1 0 ∷ [] }) more_calls (tt, (tt, tt)) busy-Inv

evict_zone-Evicted_example :
    Returns (Evicted filled (pair 1 0 ∷ []) 0 (zone full 0 0)) (evict_zone good filled 0)
evict_zone-Evicted_example =
    evict_zone-Evicted good filled (pair 1 0 ∷ []) 0 (zone full 0 0) filled-Inv refl refl refl

evict_zone-abort_example : evict_zone bad filled 0 ≡ abort
evict_zone-abort_example =
    evict_zone-abort bad filled (pair 1 0 ∷ []) 0 (zone full 0 0) filled-Inv refl refl (omega arith)

one_invalid :
    (z : Zone) × (get_elem? filled.zones 0 ≡ some z)
    × Returns (Marked filled (pair 1 0 ∷ []) (pair 0 1) z) (mark_chunk_invalid filled (pair 0 1))
one_invalid = mark_chunk_invalid-Marked filled (pair 1 0 ∷ []) (pair 0 1) filled-Inv (omega arith)

-- Both threads hold a location at once.
abbrev both : Clients
both = record {
  zsm = record fresh {
    free_queue = 2 ∷ [];
    zones = zone write_occuring 0 0 ∷ zone write_occuring 1 0 ∷ zone free 2 0 ∷ [];
    writes_occurring = 2;
  };
  held = pair 1 0 ∷ pair 0 0 ∷ [];
}

run_held_apart_example : (pair 1 0).zone ≢ (pair 0 0).zone
unfolding run perform get_active_zone open_free open_zone take_active
run_held_apart_example =
    run_held_apart start both (take good ∷ take good ∷ []) 0 1 (pair 1 0) (pair 0 0) (tt, (tt, tt))
      fresh-Inv refl refl refl (omega arith)

-- A device that does not open the zone: the zone leaves the free queue for good.
leak : get_active_zone bad fresh ≡ ok (record fresh { free_queue = 1 ∷ 2 ∷ [] }, error)
unfolding get_active_zone open_free open_zone
leak = refl

one_full : get_num_full_zones filled ≡ 1
unfolding get_num_full_zones
one_full = refl
