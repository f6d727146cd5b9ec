-- ===== src/EvictPolicy/Tests.antt =====
-- The policies of a cache with two zones of two chunks.
use znworkload.Prelude.{ℕ, ◌≡◌, ◌≢◌, refl, false, none, [], arith}
use znworkload.Run.{Returns, abort}
use znworkload.Backend.{Pair}
use znworkload.ChunkPolicy.{PoolZone}
use znworkload.EvictPolicy.{zone, chunk, evict_policy_init, get_cache_size}
use znworkload.EvictPolicy.Start.{Holds, evict_policy_init-Started}

abbrev zones : ℕ → PoolZone
zones z = record {
  zone_id = 7;
  chunks = [];
  chunks_in_use = 7;
  filled = false;
  pqueue_entry = none;
}

abbrev chunks : ℕ → ℕ → Pair
chunks z c = record { zone = 9; chunk_offset = 9; id = 9; in_use = false }

chunk-apart : chunk ≢ zone
chunk-apart e = cc

chunk_policy_start :
    Returns
      (λ p. Holds p × (get_cache_size 8192 4096 p ≡ 0))
      (evict_policy_init zones chunks 2 2 chunk)
chunk_policy_start =
    evict_policy_init-Started zones chunks 2 2 (λ z. refl) (omega arith) (omega arith) (omega arith)
      8192 4096 chunk chunk-apart

no_zone_policy : evict_policy_init zones chunks 2 2 zone ≡ abort
unfolding evict_policy_init
no_zone_policy = refl
