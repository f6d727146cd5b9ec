-- ===== src/EvictPolicy.antt =====
-- struct zn_evict_policy of include/eviction_policy.h, with zn_evict_policy_init and
-- zn_evict_policy_get_cache_size of src/eviction_policy.c. What `malloc` and `g_new` leave in a
-- pool of the chunk policy is an argument, and its table's keys are the addresses of the pool's
-- chunks, each of which is inserted once. `exit(1)` ends the program as a failed assertion does.
pub mod Start
mod Tests
use znworkload.Prelude.{
  ℕ, zero, suc, ◌+◌, ◌*◌, Bool, false, ◌&&◌, none, List, [], ◌∷◌, ltb, u32, u64, length,
}
use znworkload.Run.{Run, ok, abort}
use znworkload.Backend.{Pair}
use znworkload.Minheap.{Entry, init}
use znworkload.Promotional.{Policy, promotional_init}
use znworkload.ChunkPolicy.{PolicyChunk, PoolZone, ptr_zone, ptr_chunk}

-- enum zn_evict_policy_type
pub data PolicyType : Type 0 where
  zone promote_zone chunk : PolicyType

-- struct zn_evict_policy: the type with the data that belongs to it
pub data EvictPolicy : Type 0 where
  promotional : Policy → EvictPolicy
  by_chunk : PolicyChunk → EvictPolicy

-- The loop over the chunks of a zone, with the rounds left first; `memory` is what was allocated.
-- Its index has 32 bits, so it ends for fewer than 2^32 chunks only.
unfoldable pub init_chunks : (ℕ → Pair) → ℕ → ℕ → List Pair
init_chunks memory zero c = []
init_chunks memory (suc k) c =
    record (memory c) { chunk_offset = 0; in_use = false } ∷ init_chunks memory k (c + 1)

-- The loop over the zones.
unfoldable pub init_pool : (ℕ → PoolZone) → (ℕ → ℕ → Pair) → ℕ → ℕ → ℕ → List PoolZone
unfolding init_chunks
init_pool zones chunks max zero z = []
init_pool zones chunks max (suc k) z =
    record (zones z) { chunks_in_use = 0; filled = false; chunks = init_chunks (chunks z) max 0 }
    ∷ init_pool zones chunks max k (z + 1)

-- The case ZN_EVICT_CHUNK of zn_evict_policy_init
unfoldable pub chunk_init : (ℕ → PoolZone) → (ℕ → ℕ → Pair) → ℕ → ℕ → PolicyChunk
unfolding init_pool init
chunk_init zones chunks nr_zones max = record {
  lru_queue = [];
  chunk_to_lru_map = λ _. none;
  chunk_keys = λ ptr. ltb (ptr_zone ptr) nr_zones && ltb (ptr_chunk ptr) max;
  invalid_pqueue = init (λ _. none) 0 nr_zones;
  zone_pool = init_pool zones chunks max nr_zones 0;
  total_chunks = u32 (nr_zones * max);
  max_zone_chunks = max;
  next_link = 0;
}

-- zn_evict_policy_init
unfoldable pub evict_policy_init :
    (ℕ → PoolZone) → (ℕ → ℕ → Pair) → ℕ → ℕ → PolicyType → Run EvictPolicy
unfolding promotional_init chunk_init
evict_policy_init zones chunks nr_zones max promote_zone = ok (promotional (promotional_init max))
evict_policy_init zones chunks nr_zones max chunk =
    ok (by_chunk (chunk_init zones chunks nr_zones max))
evict_policy_init zones chunks nr_zones max zone = abort

-- zn_evict_policy_get_cache_size, with the cache's `zone_cap` and `chunk_sz`
unfoldable pub get_cache_size : ℕ → ℕ → EvictPolicy → ℕ
get_cache_size zone_cap chunk_sz (promotional p) = u64 (u32 (length p.lru_queue) * zone_cap)
get_cache_size zone_cap chunk_sz (by_chunk p) = u64 (u32 (length p.lru_queue) * chunk_sz)
