-- ===== src/Cachemap/Tests.antt =====
-- Runs of the cache map over two zones, and its theorems there.
use znworkload.Prelude.{◌+◌, ◌≡◌, refl, false, some, none, [], ◌∷◌, arith, u32}
use znworkload.Run.{ok, abort, crash, Returns}
use znworkload.Backend.{Pair}
use znworkload.Cachemap.{
  Cachemap, loc, cond, update, hit, empty_map, cachemap_find, cachemap_insert, cachemap_fail,
  cachemap_clear_zone, cachemap_clear_chunk, clear_entries, int_key, read_result,
}
use znworkload.Cachemap.View.{Inv}
use znworkload.Cachemap.Write.{
  Finds, cachemap_find-Finds, Inserted, cachemap_insert-Inserted, Failed, cachemap_fail-Failed,
  empty_map-Inv,
}
use znworkload.Cachemap.Clear.{ZoneCleared, cachemap_clear_zone-ZoneCleared}
use znworkload.Cachemap.ClearChunk.{ChunkCleared, cachemap_clear_chunk-ChunkCleared}
use znworkload.Cachemap.Race.{find-read, find-clear-read, cachemap_clear_zone-abort}

abbrev initial : Cachemap
initial = record {
  zone_map = λ _. none;
  data_map = λ _. [];
  num_zones = 2;
  active_readers = λ _. 0;
  results = λ _. none;
  next = 0;
}

initial-Inv : Inv initial
unfolding empty_map
initial-Inv = empty_map-Inv 2 (λ _. 0)

cachemap_find-Finds_example : Returns (Finds initial 9) (cachemap_find initial 9)
cachemap_find-Finds_example = cachemap_find-Finds initial 9 initial-Inv

-- ID 9 is being written.
abbrev claimed : Cachemap
claimed = record initial {
  zone_map = update (λ _. none) 9 (some 0);
  results = update (λ _. none) 0 (some cond);
  next = 1;
}

claimed-Inv : Inv claimed
unfolding cachemap_find
claimed-Inv = cachemap_find-Finds_example.1

abbrev place : Pair
place = record { zone = 1; chunk_offset = 3; id = 0; in_use = false }

cachemap_insert-Inserted_example :
    Returns (Inserted claimed 9 place) (cachemap_insert claimed 9 place)
cachemap_insert-Inserted_example =
    cachemap_insert-Inserted claimed 9 place claimed-Inv refl (omega arith) (omega arith) refl

failed_claim : Returns (Failed claimed 9) (cachemap_fail claimed 9)
failed_claim = cachemap_fail-Failed claimed 9 claimed-Inv refl

-- ID 9 lies in zone 1.
abbrev placed : Cachemap
placed = record claimed {
  results = update claimed.results 0 (some (loc place));
  data_map = update (λ _. []) 1 ((3, 9) ∷ []);
}

placed-Inv : Inv placed
unfolding cachemap_insert
placed-Inv = cachemap_insert-Inserted_example.inv

cachemap_clear_zone-ZoneCleared_example :
    Returns (ZoneCleared placed 1) (cachemap_clear_zone placed 1)
cachemap_clear_zone-ZoneCleared_example =
    cachemap_clear_zone-ZoneCleared placed 1 placed-Inv (omega arith)

cachemap_clear_chunk-ChunkCleared_example :
    Returns (ChunkCleared placed 9 place) (cachemap_clear_chunk placed place)
cachemap_clear_chunk-ChunkCleared_example =
    cachemap_clear_chunk-ChunkCleared placed placed-Inv 9 place (omega arith) refl

-- A reader of ID 9 is counted.
abbrev counted : Cachemap
counted = record placed { active_readers = update (λ _. 0) 1 1 }

found : cachemap_find placed 9 ≡ ok (counted, hit 0)
unfolding cachemap_find
found = refl

undisturbed_read : (read_result counted 0 ≡ ok place) × (counted.active_readers 1 ≡ u32 (0 + 1))
undisturbed_read = find-read placed counted 9 0 place placed-Inv refl found

abbrev swept : Cachemap
swept = record counted {
  zone_map = update counted.zone_map 9 none;
  results = update counted.results 0 none;
  data_map = update counted.data_map 1 [];
}

cleared : cachemap_clear_zone counted 1 ≡ ok swept
unfolding cachemap_clear_zone clear_entries int_key
cleared = refl

find-clear-read_example : (swept.active_readers 1 ≡ u32 (0 + 1)) × (read_result swept 0 ≡ crash)
find-clear-read_example =
    find-clear-read placed counted 9 0 place placed-Inv refl found swept cleared

-- An ID that no `int` holds.
abbrev large : Cachemap
large = record initial {
  zone_map = update (λ _. none) 3000000000 (some 0);
  results = update (λ _. none) 0 (some (loc place));
  data_map = update (λ _. []) 1 ((3, 3000000000) ∷ []);
  next = 1;
}

cachemap_clear_zone-abort_example : cachemap_clear_zone large 1 ≡ abort
cachemap_clear_zone-abort_example =
    cachemap_clear_zone-abort large 1 3 3000000000 [] (omega arith) refl (omega arith) (omega arith)
      (λ key h. ground (arith, h))
