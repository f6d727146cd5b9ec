-- ===== src/Get/Tests.antt =====
-- zn_cache_get on a device of two zones of one chunk, whose writes fail and whose reads give zeros.
use znworkload.Prelude.{ℕ, ◌≡◌, refl, arith, [], ◌∷◌, some, none, false}
use znworkload.Run.{Returns, ok}
use znworkload.Backend.{Pair, zns}
use znworkload.Zsm.{
  Zsm, Zbd, Zone, free, write_occuring, init, get_active_zone, open_free, open_zone, take_active,
  success,
}
use znworkload.Zsm.Invariant
use znworkload.Zsm.Init.{init-Inv}
use znworkload.Cachemap.{Cachemap, loc, cond, update, empty_map, cachemap_find, cachemap_insert}
use znworkload.Cachemap.View
use znworkload.Cachemap.Write.{empty_map-Inv, cachemap_find-Finds, cachemap_insert-Inserted}
use znworkload.Promotional.{Policy, promotional_init}
use znworkload.Promotional.Lru.{Inv}
use znworkload.Promotional.Refines.{promotional_init-Inv}
use znworkload.Disk.{Posix, write_chunk, write_out, write_loop}
use znworkload.Eviction.{Cache}
use znworkload.Get.{Ratio, cache_get}
use znworkload.Get.Hit.{HitLeaves, cache_get-Hit}
use znworkload.Get.Miss.{MissLeaves, cache_get-Miss}
use znworkload.Get.Failure.{FailureLeaves, cache_get-Failure}

abbrev zbd : Zbd
zbd = record { open_zones = λ _ _ _. 0; finish_zones = λ _ _ _. 0; reset_zones = λ _ _ _. 0 }

abbrev posix : Posix (Unit {0})
posix = record {
  pwrite = λ w buffer n off. (w, none);
  fsync = λ w. w;
  reset_errno = λ w. w;
  errno = λ w. 0;
  pread = λ w n off. (some n, λ i. 0);
  bytes = λ w a. 0;
}

abbrev free_zone : ℕ → Zone
free_zone i = record { state = free; zone_id = i; chunk_offset = 0; invalid = [] }

abbrev fresh : Zsm
fresh = record {
  active_queue = [];
  free_queue = 0 ∷ 1 ∷ [];
  zones = free_zone 0 ∷ free_zone 1 ∷ [];
  writes_occurring = 0;
  fd = 3;
  zone_cap = 4096;
  zone_size = 8192;
  chunk_size = 4096;
  max_nr_active_zones = 2;
  max_zone_chunks = 1;
  num_zones = 2;
  backend_type = zns;
}

fresh-Inv : Invariant.Inv fresh []
unfolding init
fresh-Inv =
    (init-Inv 2 3 4096 8192 4096 2 zns (omega arith) (omega arith) (omega arith) (omega arith)
      (omega arith) (omega arith)).0

abbrev taken : Zsm
taken = record fresh {
  free_queue = 1 ∷ [];
  zones = record (free_zone 0) { state = write_occuring } ∷ free_zone 1 ∷ [];
  writes_occurring = 1;
}

abbrev place : Pair
place = record { zone = 0; chunk_offset = 0; id = 0; in_use = false }

took : get_active_zone zbd fresh ≡ ok (taken, success place)
unfolding get_active_zone open_free open_zone take_active
took = refl

abbrev initial : Cachemap
initial = record {
  zone_map = λ _. none;
  data_map = λ _. [];
  num_zones = 2;
  active_readers = λ _. 0;
  results = λ _. none;
  next = 0;
}

initial-Inv : View.Inv initial
unfolding empty_map
initial-Inv = empty_map-Inv 2 (λ _. 0)

abbrev claimed : Cachemap
claimed = record initial {
  zone_map = update (λ _. none) 9 (some 0);
  results = update (λ _. none) 0 (some cond);
  next = 1;
}

abbrev placed : Cachemap
placed = record claimed {
  results = update claimed.results 0 (some (loc place));
  data_map = update (λ _. []) 0 ((0, 9) ∷ []);
}

claimed-Inv : View.Inv claimed
unfolding cachemap_find
claimed-Inv = (cachemap_find-Finds initial 9 initial-Inv).1

placed-Inv : View.Inv placed
unfolding cachemap_insert
placed-Inv =
    (cachemap_insert-Inserted claimed 9 place claimed-Inv refl (omega arith) (omega arith) refl).inv

abbrev policy : Policy
policy = record { lru_queue = []; zone_to_lru_map = λ _. none; zone_max_chunks = 1; next_link = 0 }

abbrev cache : Cachemap → Cache
cache m = record { cache_map = m; eviction_policy = policy; zone_state = fresh }

abbrev ratio : Ratio
ratio = record { hits = 0; misses = 0 }

abbrev random : ℕ → ℕ
random i = i

policy-Inv : Inv policy
unfolding promotional_init
policy-Inv = promotional_init-Inv 1

cache_get-Hit_example :
    Returns
      (HitLeaves posix zbd 9 random (cache placed) tt ratio place)
      (cache_get posix zbd 9 random 5 (cache placed) tt ratio)
unfolding promotional_init
cache_get-Hit_example =
    cache_get-Hit posix zbd 9 random (cache placed) tt ratio place placed-Inv refl (omega arith)
      (promotional_init-Inv 1)
      (record { chunks_pos = omega arith; chunks_small = omega arith; offset_small = omega arith })
      5

no_write :
    write_chunk posix taken.zone_size taken.chunk_size 9 random place tt ≡ ok (tt, 4294967295)
unfolding write_chunk write_out write_loop
no_write = refl

cache_get-Failure_example :
    Returns
      (FailureLeaves posix zbd 9 random (cache initial) tt tt ratio [] taken place 4294967295)
      (cache_get posix zbd 9 random 5 (cache initial) tt ratio)
cache_get-Failure_example =
    cache_get-Failure posix zbd 9 random (cache initial) tt tt ratio [] taken place 4294967295
      initial-Inv refl fresh-Inv took no_write (omega arith) 4

-- A device that writes everything.
abbrev working : Posix (Unit {0})
working = record posix { pwrite = λ w buffer n off. (w, some n) }

all_written : write_chunk working taken.zone_size taken.chunk_size 9 random place tt ≡ ok (tt, 0)
unfolding write_chunk write_out write_loop
all_written = refl

cache_get-Miss_example :
    Returns
      (MissLeaves working zbd 9 random (cache initial) tt tt ratio [] taken place)
      (cache_get working zbd 9 random 5 (cache initial) tt ratio)
cache_get-Miss_example =
    cache_get-Miss working zbd 9 random (cache initial) tt tt ratio [] taken place initial-Inv refl
      (omega arith) fresh-Inv policy-Inv took (omega arith) refl
      (record { chunks_pos = omega arith; chunks_small = omega arith; offset_small = omega arith })
      (λ e. refl) all_written 4
