-- ===== src/Concurrent/RaceTests.antt =====
-- The schedule of two threads that goes wrong.
use znworkload.Prelude.{
  ℕ, ◌≡◌, refl, Bool, true, none, some, List, [], ◌∷◌, ◌++◌, ap, arith, get_elem?,
}
use znworkload.Run.{Run, ok, abort, crash, Returns}
use znworkload.Zsm.{
  get_active_zone, open_free, open_zone, take_active, return_active_zone, close_zone, evict_zone,
  reset_zone, get_num_free_zones,
}
use znworkload.Cachemap.{
  empty_map, cachemap_find, cachemap_insert, read_result, cachemap_clear_zone, clear_entries,
  int_key,
}
use znworkload.Promotional.{
  promotional_init, promotional_update, promote, link_data, delete_link, get_zone_to_evict,
}
use znworkload.Concurrent.{
  System, Pc, done, publishing, clearing, Event, get, fg_evict, run, step, thread_step, reader_step,
  writer_step, evictor_step,
}
use znworkload.Concurrent.Invariant.{Inv}
use znworkload.Concurrent.Safe.{undisturbed, run-Inv}
use znworkload.Concurrent.Race.{Lost, run-Lost}
use znworkload.Concurrent.Tests.{zbd, zbd-Obeys, place, start, start-Inv, on, threads_after}

-- Thread 0 has told the policy of its chunk, and thread 1 has chosen the zone.
abbrev first_calls : List Event
first_calls = get 0 5 ∷ on 0 ∷ on 0 ∷ on 0 ∷ on 0 ∷ on 0 ∷ fg_evict 1 ∷ on 1 ∷ on 1 ∷ []

abbrev state_of : Run System → System
state_of (ok s) = s
state_of _ = start

state_of-Inv : (r : Run System) → Returns Inv r → Inv (state_of r)
state_of-Inv (ok s) v = v
state_of-Inv abort v = absurd v
state_of-Inv crash v = absurd v

abbrev middle : System
middle = state_of (run start first_calls)

middle_there :
    ◌≡◌ {A = Bool × List Pc × ℕ × Bool}
      (
        undisturbed start first_calls,
        middle.threads,
        middle.cache_map.active_readers 0,
        middle.contents.intact,
      )
      (true, publishing 5 place ∷ clearing none 2 0 ∷ [], 0, true)
unfolding undisturbed run step thread_step reader_step writer_step evictor_step get_active_zone
    open_free open_zone take_active return_active_zone close_zone get_num_free_zones empty_map
    cachemap_find cachemap_insert promotional_init promotional_update get_zone_to_evict
middle_there = refl

middle-Inv : Inv middle
middle-Inv =
    let o = zbd-Obeys in
    state_of-Inv (run start first_calls) (
      run-Inv start first_calls (omega arith, (o, (o, (o, (o, (o, (tt, (o, (o, tt)))))))))
        (ap (λ (x : Bool × List Pc × ℕ × Bool). x.0) middle_there) start-Inv)

abbrev last_calls : List Event
last_calls = on 1 ∷ on 1 ∷ on 1 ∷ on 0 ∷ []

run-Lost_example : Returns (Lost middle.zone_state.backend_type 5 place) (run middle last_calls)
run-Lost_example =
    run-Lost middle 0 1 middle-Inv 5 2 none place
      (ap (λ (x : Bool × List Pc × ℕ × Bool). get_elem? x.1 0) middle_there)
      (ap (λ (x : Bool × List Pc × ℕ × Bool). get_elem? x.1 1) middle_there)
      (ap (λ (x : Bool × List Pc × ℕ × Bool). x.2) middle_there)
      (record { success = true; whole = true }) zbd zbd-Obeys
      (ap (λ (x : Bool × List Pc × ℕ × Bool). x.3) middle_there)

abbrev read_calls : List Event
read_calls = on 1 ∷ get 1 5 ∷ on 1 ∷ on 1 ∷ on 1 ∷ on 1 ∷ on 1 ∷ []

-- Thread 1 then reads a chunk that nobody wrote.
lost_read :
    threads_after (run start (first_calls ++ (last_calls ++ read_calls)))
    ≡ done 5 (some (some 5)) ∷ done 5 (some none) ∷ []
unfolding run step thread_step reader_step writer_step evictor_step get_active_zone open_free
    open_zone take_active return_active_zone close_zone evict_zone reset_zone get_num_free_zones
    empty_map cachemap_find cachemap_insert read_result cachemap_clear_zone clear_entries int_key
    promotional_init promotional_update promote link_data delete_link get_zone_to_evict
lost_read = refl
